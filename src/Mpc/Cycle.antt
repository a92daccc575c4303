-- ===== src/Mpc/Cycle.antt =====
-- What a cycle of `class MPC` does to the retained plan.
use prox_mpc.Base.{
  ℕ, ◌≡◌, refl, sym, ap, ◌∙◌, subst, Bool, true, false, not, ◌&&◌, ◌||◌, inl, inr, ◌⊎◌, Bool-cases,
  arith, if◌then◌else◌,
}
use prox_mpc.Base.Double.{Double}
use prox_mpc.Base.Matrix.{Matrix}
use prox_mpc.Base.Result.{Result, Error, ok, thrown, Result-cases}
use prox_mpc.ProxQp.State.{ProxQp}
use prox_mpc.ProxQp.Setters as Qp
use prox_mpc.ProxQp.Solver.{Solver}
use prox_mpc.Mpc.State.{Mpc}
use prox_mpc.Mpc.Solve.{
  is_solved, finite_plan, run_sqp, stage, solve_candidate, commit_candidate, solve, retain,
  after_cycle,
}
use prox_mpc.Mpc.Rounds.{IsFrame, IsFrame-trans, run_sqp-stops}

both_hold : (a b : Bool) → (not a || not b) ≡ false → (a ≡ true) × (b ≡ true)
both_hold a b h = ground arith

one_fails : (a b : Bool) → (not a || not b) ≡ true → (a && b) ≡ false
one_fails a b h = ground arith

module _ {ℓ} {W S : Type ℓ} ⦃d : Double W⦄ where
  retain-eq : (q : Mpc W S) → q.cand_solved ≡ true → retain q ≡ record q { retained = q.candidate }
  retain-eq q h =
      ap
        (λ b. record q {
          retained = record (q.candidate) { u0 = if b then q.candidate.u0 else q.retained.u0 };
        })
        h

  commit_lem :
      (q : Mpc W S) (result : Matrix W × Matrix W)
      → q.cand_solved ≡ is_solved q.qp_info.status
      → q.cand_finite ≡ finite_plan q.candidate
      → let (s, accepted) = commit_candidate q in
        ((accepted ≡ true)
          × (is_solved q.qp_info.status ≡ true)
          × (finite_plan s.retained ≡ true)
          × ((after_cycle (q, ok result)).0 ≡ s))
        ⊎ ((accepted ≡ false)
            × (s ≡ q)
            × ((is_solved q.qp_info.status && finite_plan q.candidate) ≡ false))
  unfolding commit_candidate
  commit_lem q result flag fin = elim (Bool-cases (not q.cand_solved || not q.cand_finite)) [
    | inr passes ↦
        (let on : q.cand_solved ≡ true = (both_hold q.cand_solved q.cand_finite passes).0 in
          let good = (both_hold q.cand_solved q.cand_finite passes).1 in
          subst Outcome (sym (ap choose passes))
            (inl (refl, sym flag ∙ on, sym fin ∙ good, retain-eq q on)))
    | inl refuses ↦ subst Outcome (sym (ap choose refuses)) (
        inr (
          refl,
          refl,
          ap (λ b. b && finite_plan q.candidate) (sym flag)
              ∙ (ap (λ b. q.cand_solved && b) (sym fin)
                  ∙ one_fails q.cand_solved q.cand_finite refuses),
        ))
  ]
    where
      choose : Bool → Mpc W S × Bool
      choose b = if b then (q, false) else (record q { retained = q.candidate }, true)

      Outcome : Mpc W S × Bool → Type ℓ
      Outcome (s, accepted) =
          ((accepted ≡ true)
            × (is_solved q.qp_info.status ≡ true)
            × (finite_plan s.retained ≡ true)
            × ((after_cycle (q, ok result)).0 ≡ s))
          ⊎ ((accepted ≡ false)
              × (s ≡ q)
              × ((is_solved q.qp_info.status && finite_plan q.candidate) ≡ false))

module _ {ℓ} {W S : Type ℓ} ⦃d : Double W⦄ (solver : Solver W S) where
  module _ (elapsed : ℕ → W) where
    staged : Mpc W S → ProxQp W S → Mpc W S
    staged p s = record (stage p) { proxqp = s }

    -- Either a setter of the QP object threw, or the loop ran.
    solve_candidate-cases :
        (p : Mpc W S)
        → ((e : Error) × (s : ProxQp W S) × (solve_candidate solver elapsed p
              ≡ (staged p s, thrown e)))
          ⊎ ((s : ProxQp W S) × (solve_candidate solver elapsed p ≡ (
                let r = run_sqp solver elapsed (staged p s) in
                (r, ok (r.candidate.x, r.candidate.u)))))
    unfolding solve_candidate staged
    solve_candidate-cases p = elim (Result-cases (Qp.set_dt p.settings.dt p.proxqp)) [
      | inr (e, h) ↦ inl (e, p.proxqp, rw (h, solve_candidate) refl)
      | inl (timed, h) ↦ elim (Result-cases (Qp.set_obs p.obs timed)) [
        | inr (e, h') ↦ inl (e, timed, rw (h, h', solve_candidate) refl)
        | inl (ready, h') ↦ inr (ready, rw (h, h', solve_candidate) refl)
      ]
    ]

    -- A run of `solveCandidate`, one that throws included, leaves x, u, w, u0, the pose, the goals and
    -- the settings as they were; after one that throws, `commitCandidate` refuses.
    pub solve_candidate-keeps :
        (p : Mpc W S)
        → let (q, returned) = solve_candidate solver elapsed p in
          IsFrame p q
          × (((result : Matrix W × Matrix W) × (returned ≡ ok result))
              ⊎ (commit_candidate q ≡ (q, false)))
    unfolding stage commit_candidate staged
    solve_candidate-keeps p = elim (solve_candidate-cases p) [
      | inl (e, s, eq) ↦ subst Kept (sym eq) (same s, inr refl)
      | inr (s, eq) ↦ subst Kept (sym eq) (
        IsFrame-trans p (staged p s) _ (same s) (run_sqp-stops solver elapsed (staged p s)).1,
        inl (_, refl),
      )
    ]
      where
        same : (s : ProxQp W S) → IsFrame p (staged p s)
        same s = record {
          settings_eq = refl;
          retained_eq = refl;
          pose_eq = refl;
          goal_x_eq = refl;
          goal_u_eq = refl;
          obs_eq = refl;
          cap_eq = refl;
          budget_eq = refl;
        }

        Kept : Mpc W S × Result (Matrix W × Matrix W) → Type ℓ
        Kept (q, returned) =
            IsFrame p q
            × (((result : Matrix W × Matrix W) × (returned ≡ ok result))
                ⊎ (commit_candidate q ≡ (q, false)))

    commit-cases :
        (p : Mpc W S) (result : Matrix W × Matrix W)
        → let (q, returned) = solve_candidate solver elapsed p in
          returned ≡ ok result
          → let (s, accepted) = commit_candidate q in
            ((accepted ≡ true)
              × (is_solved q.qp_info.status ≡ true)
              × (finite_plan s.retained ≡ true)
              × ((solve solver elapsed p).0 ≡ s))
            ⊎ ((accepted ≡ false)
                × (s ≡ q)
                × ((is_solved q.qp_info.status && finite_plan q.candidate) ≡ false))
    unfolding solve
    commit-cases p result = elim (solve_candidate-cases p) [
      | inl (e, s, eq) ↦ subst Committed (sym eq) (λ h. absurd (cc))
      | inr (s, eq) ↦ subst Committed (sym eq) (λ h.
          let (loop, frame, more, within, reason, flag, fin) =
            run_sqp-stops solver elapsed (staged p s) in
          commit_lem (run_sqp solver elapsed (staged p s)) result flag fin)
    ]
      where
        Committed : Mpc W S × Result (Matrix W × Matrix W) → Type ℓ
        Committed (q, returned) =
            returned ≡ ok result
            → let (s, accepted) = commit_candidate q in
              ((accepted ≡ true)
                × (is_solved q.qp_info.status ≡ true)
                × (finite_plan s.retained ≡ true)
                × ((after_cycle (q, returned)).0 ≡ s))
              ⊎ ((accepted ≡ false)
                  × (s ≡ q)
                  × ((is_solved q.qp_info.status && finite_plan q.candidate) ≡ false))

    -- After a `solveCandidate` that returned, `commitCandidate` either accepts, and then the QP
    -- converged, the plan retained is finite over the whole horizon and `solve` would have left the
    -- same object, or it refuses and changes nothing, and then one of the two tests failed.
    pub commit-solve_candidate :
        (p q : Mpc W S) (result : Matrix W × Matrix W)
        → solve_candidate solver elapsed p ≡ (q, ok result)
        → let (s, accepted) = commit_candidate q in
          ((accepted ≡ true)
            × (is_solved q.qp_info.status ≡ true)
            × (finite_plan s.retained ≡ true)
            × ((solve solver elapsed p).0 ≡ s))
          ⊎ ((accepted ≡ false)
              × (s ≡ q)
              × ((is_solved q.qp_info.status && finite_plan q.candidate) ≡ false))
    commit-solve_candidate p q result h = subst Outcome h (commit-cases p result) refl
      where
        Outcome : Mpc W S × Result (Matrix W × Matrix W) → Type ℓ
        Outcome (r, returned) =
            returned ≡ ok result
            → let (s, accepted) = commit_candidate r in
              ((accepted ≡ true)
                × (is_solved r.qp_info.status ≡ true)
                × (finite_plan s.retained ≡ true)
                × ((solve solver elapsed p).0 ≡ s))
              ⊎ ((accepted ≡ false)
                  × (s ≡ r)
                  × ((is_solved r.qp_info.status && finite_plan r.candidate) ≡ false))
