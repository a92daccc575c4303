-- ===== src/Mpc/Solve.antt =====
-- The cycle of `class MPC`: `solveCandidate`, `commitCandidate` and `solve`.
use prox_mpc.Base.{
  ℕ, zero, suc, ◌+◌, ◌-◌, Bool, true, false, not, ◌&&◌, ◌||◌, ◌==◌, ltb, if◌then◌else◌, foldl,
  range, all_below,
}
use prox_mpc.Base.Double.{Double, ◌⊕◌, nought, fmax}
use prox_mpc.Base.Matrix.{Matrix, Vector, row_of}
use prox_mpc.Base.Result.{Result, ok, thrown}
use prox_mpc.ProxQp.Solver.{Solver, QpStatus, solved}
use prox_mpc.ProxQp.Setters as Qp
use prox_mpc.ProxQp.Solve as QpSolve
use prox_mpc.Mpc.State.{Mpc, Plan}
use prox_mpc.Mpc.Init.{all_finite}

abbrev pub is_solved : QpStatus → Bool
is_solved solved = true
is_solved _ = false

module _ {ℓ} {W : Type ℓ} where
  -- The rows move up by one, and the last row becomes a copy of the one before it.
  abbrev pub moved : Matrix W → ℕ → ℕ → W
  moved m i j = if ltb (i + 1) m.rows then m.at (i + 1) j else m.at i j

  abbrev pub slide : Matrix W → Matrix W
  slide m = record m { at = λ i j. if i == m.rows - 1 then moved m (m.rows - 2) j else moved m i j }

  abbrev pub slide_controls : Matrix W → Matrix W
  slide_controls m = if ltb 1 m.rows then slide m else m

  -- m.row(0) = v
  abbrev pub with_first_row : Vector W → Matrix W → Matrix W
  with_first_row v m = record m { at = λ i j. if i == 0 then v.get j else m.at i j }

module _ {ℓ} {W : Type ℓ} ⦃d : Double W⦄ where
  abbrev pub add_matrix : Matrix W → Matrix W → Matrix W
  add_matrix a b = record a { at = λ i j. a.at i j ⊕ b.at i j }

  abbrev pub add_vector : Vector W → Vector W → Vector W
  add_vector a b = record a { get = λ i. a.get i ⊕ b.get i }

  abbrev pub finite_plan : Plan W → Bool
  finite_plan c =
      all_finite c.x && all_finite c.u && all_below c.w.size (λ i. d.is_finite (c.w.get i))

module _ {ℓ} {W S : Type ℓ} where
  -- The candidate before the QP: the retained plan moved on by one step, from the current pose.
  unfoldable pub stage : Mpc W S → Mpc W S
  stage p = record p {
    candidate = record (p.candidate) {
      x = with_first_row p.pose (slide p.retained.x);
      u = slide_controls p.retained.u;
      w = p.retained.w;
    };
    cand_solved = false;
    cand_finite = false;
  }

  unfoldable pub commit_candidate : Mpc W S → Mpc W S × Bool
  commit_candidate p =
      if not p.cand_solved || not p.cand_finite
      then (p, false)
      else (record p { retained = p.candidate }, true)

module _ {ℓ} {W S : Type ℓ} ⦃d : Double W⦄ where
  unfoldable pub get_max_obstacle_slack : Mpc W S → W
  get_max_obstacle_slack p =
      let w = p.retained.w in
      if ltb 0 w.size
      then foldl (λ best i. fmax best (w.get i)) (w.get 0) (range 0 w.size)
      else nought

  -- `elapsed k` is the time from the start of the loop to the reading after round k.
  abbrev pub timed_out : (ℕ → W) → Mpc W S → Bool
  timed_out elapsed p = d.lt nought p.max_solve_time && d.le p.max_solve_time (elapsed p.sqp_iter)

  -- The condition of the do-while loop.
  abbrev pub goes_on : (ℕ → W) → Mpc W S → Bool
  goes_on elapsed p =
      not (is_solved p.qp_info.status) && ltb p.sqp_iter p.max_iter_sqp && not (timed_out elapsed p)

  -- The fuel of the loop: one round more than its counter lets it run.
  abbrev pub enough_fuel : Mpc W S → ℕ
  enough_fuel p = p.max_iter_sqp + 1

  -- x, u and w are retained whatever the status is, u0 of a solve that converged.
  abbrev pub retain : Mpc W S → Mpc W S
  retain r = record r {
    retained = record (r.candidate) {
      u0 = if r.cand_solved then r.candidate.u0 else r.retained.u0;
    };
  }

  -- What `solve` does after `solveCandidate`, which may have thrown.
  abbrev pub after_cycle :
      Mpc W S × Result (Matrix W × Matrix W) → Mpc W S × Result (Matrix W × Matrix W)
  after_cycle (r, thrown e) = (r, thrown e)
  after_cycle (r, ok _) = let s = retain r in (s, ok (s.retained.x, s.retained.u))

  module _ (solver : Solver W S) where
    -- One round of the do-while loop.
    unfoldable pub sqp_round : Mpc W S → Mpc W S
    unfolding QpSolve.solve
    sqp_round p =
        let c = p.candidate in
        let (q, (x_sol, u_sol, w_sol, info)) =
          QpSolve.solve solver c.x c.u p.retained.u0 c.w p.goal_x p.goal_u p.proxqp in
        record p {
          proxqp = q;
          candidate = record c {
            x = add_matrix c.x x_sol;
            u = add_matrix c.u u_sol;
            w = add_vector c.w w_sol;
          };
          qp_info = info;
          qp_iter_ext = p.qp_iter_ext + info.iter_ext;
          sqp_iter = p.sqp_iter + 1;
        }

    module _ (elapsed : ℕ → W) where
      -- The loop, on fuel.
      unfoldable pub sqp_loop : ℕ → Mpc W S → Mpc W S
      unfolding sqp_round
      sqp_loop zero p = p
      sqp_loop (suc fuel) p =
          let q = sqp_round p in elim (goes_on elapsed q) [ true ↦ sqp_loop fuel q | false ↦ q ]

      unfoldable pub run_sqp : Mpc W S → Mpc W S
      unfolding sqp_loop
      run_sqp p =
          let r = sqp_loop (enough_fuel p) (record p { sqp_iter = 0; qp_iter_ext = 0 }) in
          record r {
            candidate = record (r.candidate) { u0 = row_of r.candidate.u 0 };
            cand_solved = is_solved r.qp_info.status;
            cand_finite = finite_plan r.candidate;
          }

      -- The QP object's setters may throw, after the candidate is staged.
      unfoldable pub solve_candidate : Mpc W S → Mpc W S × Result (Matrix W × Matrix W)
      unfolding stage Qp.set_dt Qp.set_obs run_sqp
      solve_candidate p =
          let q = stage p in
          elim (Qp.set_dt q.settings.dt q.proxqp) [
            | thrown e ↦ (q, thrown e)
            | ok timed ↦ elim (Qp.set_obs q.obs timed) [
              | thrown e ↦ (record q { proxqp = timed }, thrown e)
              | ok ready ↦
                  (let r = run_sqp (record q { proxqp = ready }) in
                    (r, ok (r.candidate.x, r.candidate.u)))
            ]
          ]

      unfoldable pub solve : Mpc W S → Mpc W S × Result (Matrix W × Matrix W)
      unfolding solve_candidate
      solve p = after_cycle (solve_candidate p)
