-- ===== src/ProxQp/Handed.antt =====
-- What a sparse `ProxQP::solve` hands to proxsuite: the whole of what its cycle assembled.
use prox_mpc.Base.{
  ℕ, ◌≡◌, refl, sym, ap, ◌∙◌, subst, true, false, ◌&&◌, ◌⊎◌, inl, inr, if◌then◌else◌, Bool-cases,
}
use prox_mpc.Base.Double.{Double}
use prox_mpc.Base.Matrix.{Matrix, Vector}
use prox_mpc.ProxQp.State.{ProxQp}
use prox_mpc.ProxQp.Solver.{
  Solver, SparseProblem, no_initial_guess, equality_constrained_initial_guess, warm_start,
}
use prox_mpc.ProxQp.Objective.{set_c_vec}
use prox_mpc.ProxQp.Dynamics.{equality_writes, set_e, set_b}
use prox_mpc.ProxQp.Constraints.{constraint_writes, set_c_mat}
use prox_mpc.ProxQp.Bounds.{set_d}
use prox_mpc.ProxQp.Solve.{
  assemble, sparse_problem, initial_guess_policy, cold_guess_policy, run_sparse, run_dense, run_qp,
  solve,
}
use prox_mpc.ProxQp.Pattern.{place-constraint_writes, place-equality_writes}
use prox_mpc.ProxQp.Sparsity.{
  dense_of, HasPattern, Covers-same, apply-Covers, write_into-lossless, written, run_qp-Lossless,
  nowhere,
}

module _ {ℓ} {W S : Type ℓ} ⦃d : Double W⦄ where
  -- A problem that stands for what an object has assembled.
  pub record IsWhole (a : ProxQp W S) (problem : SparseProblem W) : Type ℓ where
    pub e_whole : (r c : ℕ) → dense_of problem.e r c ≡ a.mat_e r c
    pub c_whole : (r c : ℕ) → dense_of problem.c r c ≡ a.mat_c r c
    pub h_same : problem.h ≡ a.h_sparse
    pub cost_same : problem.cost ≡ a.vec_c
    pub b_same : problem.b ≡ a.vec_b
    pub low_same : problem.low ≡ a.low
    pub upp_same : problem.upp ≡ a.upp

  -- The workspace that a sparse solve of p leaves: the problem is given to proxsuite, then solved.
  abbrev pub IsHandedTo : Solver W S → ProxQp W S → SparseProblem W → ProxQp W S → Type ℓ
  IsHandedTo solver p problem q =
      (((p.warm_start && p.qp_ready) ≡ true)
        × (q.workspace
            ≡ solver.solve (
                solver.sparse_update (if p.guess then warm_start else no_initial_guess) problem
                  p.workspace)))
      ⊎ (((p.warm_start && p.qp_ready) ≡ false)
          × (q.qp_ready ≡ true)
          × (q.workspace
              ≡ solver.solve (
                  solver.sparse_init
                    (if p.guess then equality_constrained_initial_guess else no_initial_guess)
                    problem p.workspace)))

  written-IsWhole :
      (solver : Solver W S) (p : ProxQp W S)
      → HasPattern p
      → IsWhole p (sparse_problem solver (written p))
  unfolding sparse_problem written
  written-IsWhole solver p h = record {
    e_whole = write_into-lossless p.e_sparse p.mat_e _ h.e_covers;
    c_whole = write_into-lossless p.c_sparse p.mat_c _ h.c_covers;
    h_same = refl;
    cost_same = refl;
    b_same = refl;
    low_same = refl;
    upp_same = refl;
  }

  run_sparse-handed :
      (solver : Solver W S) (p : ProxQp W S)
      → IsHandedTo solver p (sparse_problem solver (written p)) (run_sparse solver p)
  unfolding run_sparse written initial_guess_policy cold_guess_policy
  run_sparse-handed solver p = elim (Bool-cases (p.warm_start && p.qp_ready)) [
    | inl on ↦ inl (on, rw (on, run_sparse) refl)
    | inr off ↦ inr (off, rw (off, run_sparse) refl, rw (off, run_sparse) refl)
  ]

  run_qp-handed :
      (solver : Solver W S) (p : ProxQp W S)
      → p.qp_type ≡ false
      → HasPattern p
      → (problem : SparseProblem W) × IsWhole p problem
        × IsHandedTo solver p problem (run_qp solver p)
  unfolding run_qp
  run_qp-handed solver p sparse h = (
    sparse_problem solver (written p),
    written-IsWhole solver p h,
    subst (λ k. IsHandedTo solver p (sparse_problem solver (written p)) k)
        (sym (ap (λ b. if b then run_dense solver p else run_sparse solver p) sparse))
        (run_sparse-handed solver p),
  )

  -- What is handed over depends on the workspace and three flags of the object.
  same_start :
      (solver : Solver W S) (p a : ProxQp W S) (problem : SparseProblem W) (q : ProxQp W S)
      → (a.workspace ≡ p.workspace)
        × (a.warm_start ≡ p.warm_start)
        × (a.qp_ready ≡ p.qp_ready)
        × (a.guess ≡ p.guess)
      → IsHandedTo solver a problem q
      → IsHandedTo solver p problem q
  same_start solver p a problem q (workspace, warm, ready, guess) h =
      rw (← workspace, ← warm, ← ready, ← guess) h

  module _ (x_in u_in : Matrix W) (u_prev w_in : Vector W) (goal_x goal_u : Matrix W) where
    -- One assembly keeps the pattern.
    assemble-HasPattern :
        (p : ProxQp W S)
        → HasPattern p
        → HasPattern (assemble x_in u_in u_prev w_in goal_x goal_u p)
    unfolding assemble set_c_vec set_e set_b set_c_mat set_d
    assemble-HasPattern p h =
        let p1 = set_c_vec x_in u_in w_in goal_x goal_u p in
        let p3 = set_b x_in u_in (set_e x_in u_in p1) in
        let q = assemble x_in u_in u_prev w_in goal_x goal_u p in
        record {
          e_covers =
              Covers-same p.e_sparse q.mat_e (equality_writes x_in u_in p1)
                (equality_writes nowhere nowhere q)
                (place-equality_writes q p1 refl x_in u_in nowhere nowhere)
                (apply-Covers p.e_sparse p.mat_e (equality_writes nowhere nowhere p)
                  (equality_writes x_in u_in p1)
                  (place-equality_writes p p1 refl x_in u_in nowhere nowhere) h.e_covers);
          c_covers =
              Covers-same p.c_sparse q.mat_c (constraint_writes x_in p3)
                (constraint_writes nowhere q) (place-constraint_writes q p3 refl x_in nowhere refl)
                (apply-Covers p.c_sparse p.mat_c (constraint_writes nowhere p)
                  (constraint_writes x_in p3) (place-constraint_writes p p3 refl x_in nowhere refl)
                  h.c_covers);
        }

    assemble-type :
        (p : ProxQp W S) → (assemble x_in u_in u_prev w_in goal_x goal_u p).qp_type ≡ p.qp_type
    unfolding assemble set_c_vec set_e set_b set_c_mat set_d
    assemble-type p = refl

    assemble-kept :
        (p : ProxQp W S)
        → let a = assemble x_in u_in u_prev w_in goal_x goal_u p in
          (a.workspace ≡ p.workspace)
          × (a.warm_start ≡ p.warm_start)
          × (a.qp_ready ≡ p.qp_ready)
          × (a.guess ≡ p.guess)
    unfolding assemble set_c_vec set_e set_b set_c_mat set_d
    assemble-kept p = (refl, refl, refl, refl)

    module _ (solver : Solver W S) where
      -- A sparse solve of an object that has the pattern keeps it, and its structures stand for the whole
      -- of E and C. The backend gets one problem, whose structures stand for every entry of the E and C
      -- that this cycle assembled, with its H, cost, right-hand side and bounds: as an update of the
      -- workspace under the warm-start policy if a warm start is on and the workspace is ready, and
      -- else as an init; and it is then solved.
      pub solve-lossless :
          (p : ProxQp W S)
          → p.qp_type ≡ false
          → HasPattern p
          → let q = (solve solver x_in u_in u_prev w_in goal_x goal_u p).0 in
            HasPattern q
            × ((r c : ℕ) → dense_of q.e_sparse r c ≡ q.mat_e r c)
            × ((r c : ℕ) → dense_of q.c_sparse r c ≡ q.mat_c r c)
            × ((problem : SparseProblem W) × IsWhole
                  (assemble x_in u_in u_prev w_in goal_x goal_u p)
                  problem
                × IsHandedTo solver p problem q)
      unfolding solve
      solve-lossless p sparse h =
          let a = assemble x_in u_in u_prev w_in goal_x goal_u p in
          let (pattern, e_whole, c_whole) =
            run_qp-Lossless solver a (assemble-type p ∙ sparse) (assemble-HasPattern p h) in
          let (problem, whole, handed) =
            run_qp-handed solver a (assemble-type p ∙ sparse) (assemble-HasPattern p h) in
          (
            pattern,
            e_whole,
            c_whole,
            (
              problem,
              whole,
              same_start solver p a problem (run_qp solver a) (assemble-kept p) handed,
            ),
          )
