-- ===== src/ProxQp/Solve.antt =====
-- `ProxQP::solve`: one QP sub-problem, from the assembly to the increments.
use prox_mpc.Base.{ℕ, ◌+◌, ◌-◌, ◌/◌, true, ◌&&◌, if◌then◌else◌, gather, range, strided}
use prox_mpc.Base.Double.{Double}
use prox_mpc.Base.Matrix.{Matrix, Vector, block, apply}
use prox_mpc.ProxQp.State.{ProxQp, Sparse}
use prox_mpc.ProxQp.Solver.{
  Solver, SparseProblem, DenseProblem, Info, GuessStatus, no_initial_guess,
  equality_constrained_initial_guess, warm_start,
}
use prox_mpc.ProxQp.Objective.{set_c_vec}
use prox_mpc.ProxQp.Dynamics.{set_e, set_b}
use prox_mpc.ProxQp.Constraints.{set_c_mat}
use prox_mpc.ProxQp.Bounds.{set_d}

module _ {ℓ} {W : Type ℓ} where
  -- The dense values go into the fixed structure, structural zeros included.
  unfoldable pub write_into : Sparse W → (ℕ → ℕ → W) → Sparse W
  write_into pat dense = record pat {
    value = λ i j. if pat.pattern i j then dense i j else pat.value i j;
  }

module _ {ℓ} {W S : Type ℓ} where
  unfoldable pub initial_guess_policy : ProxQp W S → GuessStatus
  initial_guess_policy p = if p.guess then warm_start else no_initial_guess

  unfoldable pub cold_guess_policy : ProxQp W S → GuessStatus
  cold_guess_policy p = if p.guess then equality_constrained_initial_guess else no_initial_guess

  -- The increments taken out of the solution vector.
  unfoldable pub take_x : ProxQp W S → (ℕ → W) → Matrix W → Matrix W
  take_x p result x_in = record x_in {
    at =
        apply
          (gather (λ i. block (i / p.n) 0 1 p.n (λ _ j. result (i + j)))
            (strided p.x_start p.u_start p.n))
          x_in.at;
  }

  unfoldable pub take_u : ProxQp W S → (ℕ → W) → Matrix W → Matrix W
  take_u p result u_in = record u_in {
    at =
        apply
          (gather (λ i. block ((i - p.u_start) / p.m) 0 1 p.m (λ _ j. result (i + j)))
            (strided p.u_start p.w_start p.m))
          u_in.at;
  }

  unfoldable pub take_w : ProxQp W S → (ℕ → W) → Vector W → Vector W
  take_w p result w_in = record w_in {
    get = λ s.
        apply
          (gather (λ i. block (i - p.w_start) 0 1 1 (λ _ _. result i)) (range p.w_start p.n_dvars))
          (λ r _. w_in.get r) s 0;
  }

module _ {ℓ} {W S : Type ℓ} ⦃d : Double W⦄ where
  unfoldable pub assemble :
      Matrix W → Matrix W → Vector W → Vector W → Matrix W → Matrix W → ProxQp W S → ProxQp W S
  unfolding set_c_vec set_e set_b set_c_mat set_d
  assemble x_in u_in u_prev w_in goal_x goal_u p = set_d x_in u_in u_prev w_in (
      set_c_mat x_in (set_b x_in u_in (set_e x_in u_in (set_c_vec x_in u_in w_in goal_x goal_u p))))

  module _ (solver : Solver W S) where
    unfoldable pub sparse_problem : ProxQp W S → SparseProblem W
    sparse_problem p = record {
      h = p.h_sparse;
      e = p.e_sparse;
      c = p.c_sparse;
      cost = p.vec_c;
      b = p.vec_b;
      low = p.low;
      upp = p.upp;
    }

    unfoldable pub dense_problem : ProxQp W S → DenseProblem W
    dense_problem p = record {
      h = p.mat_h;
      e = p.mat_e;
      c = p.mat_c;
      cost = p.vec_c;
      b = p.vec_b;
      low = p.low;
      upp = p.upp;
    }

    -- Later sparse solves update the workspace in place; the others build it anew.
    unfoldable pub run_sparse : ProxQp W S → ProxQp W S
    unfolding sparse_problem write_into initial_guess_policy cold_guess_policy
    run_sparse p =
        let q = record p {
          e_sparse = write_into p.e_sparse p.mat_e;
          c_sparse = write_into p.c_sparse p.mat_c;
        } in
        if q.warm_start && q.qp_ready
        then record q {
          workspace =
              solver.solve
                (solver.sparse_update (initial_guess_policy q) (sparse_problem q) q.workspace);
        }
        else record q {
          workspace =
              solver.solve
                (solver.sparse_init (cold_guess_policy q) (sparse_problem q) q.workspace);
          qp_ready = true;
        }

    unfoldable pub run_dense : ProxQp W S → ProxQp W S
    unfolding dense_problem cold_guess_policy
    run_dense p = record p {
      workspace =
          solver.solve (solver.dense_init (cold_guess_policy p) (dense_problem p) p.workspace);
    }

    unfoldable pub run_qp : ProxQp W S → ProxQp W S
    run_qp p = if p.qp_type then run_dense p else run_sparse p

    unfoldable pub solve :
        Matrix W
        → Matrix W
        → Vector W
        → Vector W
        → Matrix W
        → Matrix W
        → ProxQp W S
        → ProxQp W S × (Matrix W × Matrix W × Vector W × Info)
    solve x_in u_in u_prev w_in goal_x goal_u p =
        let r = run_qp (assemble x_in u_in u_prev w_in goal_x goal_u p) in
        let result = solver.result_x r.workspace in
        (
          r,
          (
            take_x r result x_in,
            take_u r result u_in,
            take_w r result w_in,
            solver.info r.workspace,
          ),
        )
