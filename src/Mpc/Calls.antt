-- ===== src/Mpc/Calls.antt =====
-- Sequences of calls of the public operations of `class MPC`.
use prox_mpc.Base.{ℕ, ◌≤◌, ◌≡◌, Bool, true, false, List, [], ◌∷◌, ◌⊎◌}
use prox_mpc.Base.Double.{Double, ◌⊗◌, ◌⊘◌, nought}
use prox_mpc.Base.Matrix.{Matrix, Vector}
use prox_mpc.Base.Result.{Result, ok, ◌>>=◌}
use prox_mpc.ProxQp.State.{Plant}
use prox_mpc.ProxQp.Solver.{Solver}
use prox_mpc.Mpc.State.{Mpc, Settings}
use prox_mpc.Mpc.Setters as Set
use prox_mpc.Mpc.Init.{EigenSolver, init}
use prox_mpc.Mpc.Solve.{solve_candidate, commit_candidate, solve}

-- The public operations that write; the last three carry the clock readings of their run.
pub data Call {ℓ} (W S : Type ℓ) : Type ℓ where
  set_q set_r set_s set_w set_x set_goal_x set_goal_u set_obs : Matrix W → Call W S
  set_np set_nc set_max_int_iter_qp set_max_ext_iter_qp set_max_iter_sqp set_max_obs : ℕ → Call W S
  set_dt set_t set_cbf_gamma set_max_solve_time : W → Call W S
  set_guess set_warm_start set_qp_type : Bool → Call W S
  set_u0 set_pose : Vector W → Call W S
  init_with : Plant W → Call W S
  solve_candidate_at solve_at : (ℕ → W) → Call W S
  commit : Call W S

module _ {ℓ} {W S : Type ℓ} ⦃d : Double W⦄ (solver : Solver W S) (eigen : EigenSolver W)
    (blank : S) where
  -- The object after the call; a setter or an `init` that throws gives its error.
  unfoldable pub perform : Call W S → Mpc W S → Result (Mpc W S)
  perform (set_q v) p = Set.set_q v p
  perform (set_r v) p = Set.set_r v p
  perform (set_s v) p = Set.set_s v p
  perform (set_w v) p = Set.set_w v p
  perform (set_x v) p = ok (Set.set_x v p)
  perform (set_goal_x v) p = Set.set_goal_x v p
  perform (set_goal_u v) p = Set.set_goal_u v p
  perform (set_obs v) p = ok (Set.set_obs v p)
  perform (set_np v) p = Set.set_np v p
  perform (set_nc v) p = Set.set_nc v p
  perform (set_max_int_iter_qp v) p = Set.set_max_int_iter_qp v p
  perform (set_max_ext_iter_qp v) p = Set.set_max_ext_iter_qp v p
  perform (set_max_iter_sqp v) p = ok (Set.set_max_iter_sqp v p)
  perform (set_max_obs v) p = Set.set_max_obs v p
  perform (set_dt v) p = Set.set_dt v p
  perform (set_t v) p = Set.set_t v p
  perform (set_cbf_gamma v) p = Set.set_cbf_gamma v p
  perform (set_max_solve_time v) p = ok (Set.set_max_solve_time v p)
  perform (set_guess v) p = Set.set_guess v p
  perform (set_warm_start v) p = Set.set_warm_start v p
  perform (set_qp_type v) p = Set.set_qp_type v p
  perform (set_u0 v) p = ok (Set.set_u0 v p)
  perform (set_pose v) p = ok (Set.set_pose v p)
  perform (init_with model) p = init solver eigen blank model p
  perform (solve_candidate_at elapsed) p = ok ((solve_candidate solver elapsed p).0)
  perform (solve_at elapsed) p = ok ((solve solver elapsed p).0)
  perform commit p = ok ((commit_candidate p).0)

  unfoldable pub perform_all : List (Call W S) → Mpc W S → Result (Mpc W S)
  unfolding perform
  perform_all [] p = ok p
  perform_all (c ∷ cs) p = perform c p >>= perform_all cs

module _ {ℓ} {W : Type ℓ} ⦃d : Double W⦄ where
  -- Nc <= Np once Np is set, and of the sample time and the horizon T one is computed from the other,
  -- once Np is set and T is above zero. A sample time set before Np leaves T at zero.
  pub record IsConsistent (s : Settings W) : Type ℓ where
    pub ordered : (s.nc ≤ s.np) ⊎ (s.np ≡ 0)
    pub timed :
        (s.np ≡ 0)
        ⊎ ((d.lt nought s.horizon ≡ false)
            ⊎ ((s.horizon ≡ d.of_nat s.np ⊗ s.dt) ⊎ (s.dt ≡ s.horizon ⊘ d.of_nat s.np)))

module _ {ℓ} {W S : Type ℓ} where
  abbrev pub is_init : Call W S → Bool
  is_init (init_with model) = true
  is_init _ = false
