-- ===== src/ProxQp/Solver.antt =====
-- proxsuite's QP object, which the code only calls: its operations are a parameter of the models.
use prox_mpc.Base.{ℕ}
use prox_mpc.ProxQp.State.{Sparse}

-- proxsuite::proxqp::QPSolverOutput
pub data QpStatus : Type 0 where
  solved max_iter_reached primal_infeasible solved_closest_primal_feasible : QpStatus
  dual_infeasible not_run : QpStatus

-- The members of proxsuite's `Info` that the code reads.
pub record Info : Type 0 where
  pub status : QpStatus
  pub iter_ext : ℕ

-- proxsuite::proxqp::InitialGuessStatus, the three policies that are chosen from.
pub data GuessStatus : Type 0 where
  no_initial_guess equality_constrained_initial_guess warm_start : GuessStatus

-- The arguments of `init` and `update`.
pub record SparseProblem {ℓ} (W : Type ℓ) : Type ℓ where
  pub h : Sparse W
  pub e : Sparse W
  pub c : Sparse W
  pub cost : ℕ → ℕ → W
  pub b : ℕ → ℕ → W
  pub low : ℕ → ℕ → W
  pub upp : ℕ → ℕ → W

pub record DenseProblem {ℓ} (W : Type ℓ) : Type ℓ where
  pub h : ℕ → ℕ → W
  pub e : ℕ → ℕ → W
  pub c : ℕ → ℕ → W
  pub cost : ℕ → ℕ → W
  pub b : ℕ → ℕ → W
  pub low : ℕ → ℕ → W
  pub upp : ℕ → ℕ → W

-- `S` is the object. The two constructors take the structure or the dimensions, then max_iter and
-- max_iter_in; `init` and `update` take the initial-guess setting and the problem.
pub record Solver {ℓ} (W S : Type ℓ) : Type ℓ where
  pub sparse_qp : Sparse W → Sparse W → Sparse W → ℕ → ℕ → S
  pub dense_qp : ℕ → ℕ → ℕ → ℕ → ℕ → S
  pub sparse_init : GuessStatus → SparseProblem W → S → S
  pub sparse_update : GuessStatus → SparseProblem W → S → S
  pub dense_init : GuessStatus → DenseProblem W → S → S
  pub solve : S → S
  pub result_x : S → ℕ → W
  pub info : S → Info
