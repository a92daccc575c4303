-- ===== src/Mpc/Rounds.antt =====
-- How the loop of a cycle of `class MPC` ends, and what it leaves alone.
use prox_mpc.Base.{
  ℕ, zero, suc, ◌+◌, ◌≤◌, ◌<◌, ◌≡◌, refl, sym, subst, ◌∙◌, Bool, true, false, not, ◌&&◌, ltb,
  ltb→lt, ltb→le, max, inl, inr, ◌⊎◌, Bool-cases, arith,
}
use prox_mpc.Base.Double.{Double}
use prox_mpc.ProxQp.Solver.{Solver}
use prox_mpc.Mpc.State.{Mpc}
use prox_mpc.Mpc.Solve.{
  is_solved, timed_out, goes_on, enough_fuel, finite_plan, sqp_round, sqp_loop, run_sqp,
}

module _ {ℓ} {W S : Type ℓ} where
  -- What a cycle reads and does not write.
  pub record IsFrame (p q : Mpc W S) : Type ℓ where
    pub settings_eq : q.settings ≡ p.settings
    pub retained_eq : q.retained ≡ p.retained
    pub pose_eq : q.pose ≡ p.pose
    pub goal_x_eq : q.goal_x ≡ p.goal_x
    pub goal_u_eq : q.goal_u ≡ p.goal_u
    pub obs_eq : q.obs ≡ p.obs
    pub cap_eq : q.max_iter_sqp ≡ p.max_iter_sqp
    pub budget_eq : q.max_solve_time ≡ p.max_solve_time

  pub IsFrame-trans : (p q r : Mpc W S) → IsFrame p q → IsFrame q r → IsFrame p r
  IsFrame-trans p q r a b = record {
    settings_eq = b.settings_eq ∙ a.settings_eq;
    retained_eq = b.retained_eq ∙ a.retained_eq;
    pose_eq = b.pose_eq ∙ a.pose_eq;
    goal_x_eq = b.goal_x_eq ∙ a.goal_x_eq;
    goal_u_eq = b.goal_u_eq ∙ a.goal_u_eq;
    obs_eq = b.obs_eq ∙ a.obs_eq;
    cap_eq = b.cap_eq ∙ a.cap_eq;
    budget_eq = b.budget_eq ∙ a.budget_eq;
  }

third_fails : (a b c : Bool) → a ≡ false → b ≡ true → (not a && b && not c) ≡ false → c ≡ true
third_fails a b c ea eb h = ground arith

middle : (a b c : Bool) → (not a && b && not c) ≡ true → b ≡ true
middle a b c h = ground arith

module _ {ℓ} {W S : Type ℓ} ⦃d : Double W⦄ (solver : Solver W S) where
  sqp_round-IsFrame : (p : Mpc W S) → IsFrame p (sqp_round solver p)
  unfolding sqp_round
  sqp_round-IsFrame p = record {
    settings_eq = refl;
    retained_eq = refl;
    pose_eq = refl;
    goal_x_eq = refl;
    goal_u_eq = refl;
    obs_eq = refl;
    cap_eq = refl;
    budget_eq = refl;
  }

  sqp_iter-sqp_round : (p : Mpc W S) → (sqp_round solver p).sqp_iter ≡ p.sqp_iter + 1
  unfolding sqp_round
  sqp_iter-sqp_round p = refl

  module _ (elapsed : ℕ → W) where
    -- A run of the do-while loop, without fuel: q is what it leaves of its start. A round runs, and
    -- then the condition decides.
    pub data DoWhile (q : Mpc W S) : Mpc W S → Type ℓ where
      last : (p : Mpc W S) → q ≡ sqp_round solver p → goes_on elapsed q ≡ false → DoWhile q p
      again :
          (p : Mpc W S)
          → goes_on elapsed (sqp_round solver p) ≡ true
          → DoWhile q (sqp_round solver p)
          → DoWhile q p

    -- The end of a run of the loop from p.
    record IsRun (p q : Mpc W S) : Type ℓ where
      frame : IsFrame p q
      stopped : goes_on elapsed q ≡ false
      more : p.sqp_iter + 1 ≤ q.sqp_iter
      within : q.sqp_iter ≤ max (p.sqp_iter + 1) p.max_iter_sqp

    below_cap : (p : Mpc W S) → goes_on elapsed p ≡ true → p.sqp_iter < p.max_iter_sqp
    below_cap p h = ltb→lt p.sqp_iter p.max_iter_sqp (
        middle (is_solved p.qp_info.status) (ltb p.sqp_iter p.max_iter_sqp) (timed_out elapsed p) h)

    -- The bound on the rounds comes from the condition.
    DoWhile-IsRun : (q p : Mpc W S) → DoWhile q p → IsRun p q
    DoWhile-IsRun q p (last _ e stop) = subst (IsRun p) (sym e) (record {
      frame = sqp_round-IsFrame p;
      stopped = subst (λ k. goes_on elapsed k ≡ false) e stop;
      more = omega (arith, sqp_iter-sqp_round p);
      within = omega (arith, sqp_iter-sqp_round p);
    })
    DoWhile-IsRun q p (again _ on run) =
        let r = sqp_round solver p in
        let frame = sqp_round-IsFrame p in
        let count = sqp_iter-sqp_round p in
        let rest = DoWhile-IsRun q r run in
        record {
          frame = IsFrame-trans p r q frame rest.frame;
          stopped = rest.stopped;
          more = omega (arith, count, rest.more);
          within = omega (arith, count, rest.within, frame.cap_eq, below_cap r on);
        }

    -- With fuel for every round that the counter allows, the loop on fuel is a run of the loop.
    sqp_loop-DoWhile :
        (fuel : ℕ) (p : Mpc W S)
        → p.max_iter_sqp ≤ p.sqp_iter + fuel
        → 1 ≤ fuel
        → DoWhile (sqp_loop solver elapsed fuel p) p
    unfolding sqp_loop
    sqp_loop-DoWhile zero p h f = absurd (omega arith)
    sqp_loop-DoWhile (suc fuel) p h f =
        let q = sqp_round solver p in
        let frame = sqp_round-IsFrame p in
        let count = sqp_iter-sqp_round p in
        elim (Bool-cases (goes_on elapsed q)) [
          | inr stop ↦ rw (stop, sqp_loop) (last p refl stop)
          | inl on ↦
              (let lt = below_cap q on in
                let rest =
                  sqp_loop-DoWhile fuel q (omega (arith, count, frame.cap_eq, h))
                    (omega (arith, count, lt, frame.cap_eq, h)) in
                rw (on, sqp_loop) (again p on rest))
        ]

    -- The cycle's do-while loop, started with its counters at zero, ends by its own condition, after at
    -- least one round and at most max(1, max_iter_sqp), on a converged QP, on the cap or on the time
    -- budget; the two flags describe the candidate that it leaves, and the retained plan and the
    -- settings are as before.
    pub run_sqp-stops :
        (p : Mpc W S)
        → let q = run_sqp solver elapsed p in
          ((r : Mpc W S) × DoWhile r (record p { sqp_iter = 0; qp_iter_ext = 0 })
            × (q.sqp_iter ≡ r.sqp_iter)
            × (q.qp_info ≡ r.qp_info)
            × (q.candidate.x ≡ r.candidate.x)
            × (q.candidate.u ≡ r.candidate.u)
            × (q.candidate.w ≡ r.candidate.w))
          × IsFrame p q
          × (1 ≤ q.sqp_iter)
          × (q.sqp_iter ≤ max 1 p.max_iter_sqp)
          × ((q.cand_solved ≡ true)
              ⊎ ((p.max_iter_sqp ≤ q.sqp_iter) ⊎ (timed_out elapsed q ≡ true)))
          × (q.cand_solved ≡ is_solved q.qp_info.status)
          × (q.cand_finite ≡ finite_plan q.candidate)
    unfolding run_sqp
    run_sqp-stops p =
        let start = record p { sqp_iter = 0; qp_iter_ext = 0 } in
        let r = sqp_loop solver elapsed (enough_fuel p) start in
        let loop = sqp_loop-DoWhile (enough_fuel p) start (omega arith) (omega arith) in
        let run = DoWhile-IsRun r start loop in
        (
          (r, loop, refl, refl, refl, refl, refl),
          record {
            settings_eq = run.frame.settings_eq;
            retained_eq = run.frame.retained_eq;
            pose_eq = run.frame.pose_eq;
            goal_x_eq = run.frame.goal_x_eq;
            goal_u_eq = run.frame.goal_u_eq;
            obs_eq = run.frame.obs_eq;
            cap_eq = run.frame.cap_eq;
            budget_eq = run.frame.budget_eq;
          },
          run.more,
          run.within,
          reason r run.frame.cap_eq run.stopped,
          refl,
          refl,
        )
      where
        reason :
            (r : Mpc W S)
            → r.max_iter_sqp ≡ p.max_iter_sqp
            → goes_on elapsed r ≡ false
            → (is_solved r.qp_info.status ≡ true)
              ⊎ ((p.max_iter_sqp ≤ r.sqp_iter) ⊎ (timed_out elapsed r ≡ true))
        reason r cap_eq stop = elim (Bool-cases (is_solved r.qp_info.status)) [
          | inl done ↦ inl done
          | inr running ↦ inr (elim (Bool-cases (ltb r.sqp_iter r.max_iter_sqp)) [
            | inl below ↦ inr (
                third_fails (is_solved r.qp_info.status) (ltb r.sqp_iter r.max_iter_sqp)
                  (timed_out elapsed r) running below stop)
            | inr full ↦ inl (omega (arith, cap_eq, ltb→le r.sqp_iter r.max_iter_sqp full))
          ])
        ]
