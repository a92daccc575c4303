-- ===== src/ProxQp/State.antt =====
-- `class ProxQP`: its members, and what it reads of the robot model.
use prox_mpc.Base.{ℕ, Bool, List}
use prox_mpc.Base.Matrix.{Matrix, Vector}
pub use prox_mpc.Model.Bounds.{Bound}

-- The model through its virtual functions: `updateA`, `updateB` and `updatec` after `setX` and `setU`,
-- and the entries of `getIneq("x")`, `getIneq("u")` and `getIneq("du")` in key order.
pub record Plant {ℓ} (W : Type ℓ) : Type ℓ where
  pub n : ℕ
  pub m : ℕ
  pub obs_flag : Bool
  pub idx_x : ℕ
  pub idx_y : ℕ
  pub ineq_x : List (Bound W)
  pub ineq_u : List (Bound W)
  pub ineq_du : List (Bound W)
  pub state_matrix : W → Vector W → Vector W → ℕ → ℕ → W
  pub control_matrix : Vector W → Vector W → ℕ → ℕ → W
  pub residual : W → Vector W → Vector W → Vector W → ℕ → W

-- Eigen::SparseMatrix: the places that the structure has, and the values there.
pub record Sparse {ℓ} (W : Type ℓ) : Type ℓ where
  pub pattern : ℕ → ℕ → Bool
  pub value : ℕ → ℕ → W

-- The problem's dimensions, the index tables and where each part of the decision vector starts.
pub record Layout {ℓ} (W : Type ℓ) : Type ℓ where
  pub model : Plant W
  pub n : ℕ
  pub m : ℕ
  pub np : ℕ
  pub nc : ℕ
  pub n_eq : ℕ
  pub n_ineq : ℕ
  pub eq_idx : List ℕ
  pub ineq_idx : List ℕ
  pub eq_tot : ℕ
  pub ineq_tot : ℕ
  pub n_dvars : ℕ
  pub x_start : ℕ
  pub u_start : ℕ
  pub w_start : ℕ
  pub max_obs : ℕ
  pub obstacle_active : Bool
  pub idx_pos_x : ℕ
  pub idx_pos_y : ℕ

-- The matrices are their entries, a vector being a matrix of one column; `workspace` is the proxsuite
-- object.
pub record ProxQp {ℓ} (W S : Type ℓ) : Type ℓ where
  pub layout : Layout W
  pub open layout use *
  pub workspace : S
  pub dt : W
  pub qp_type : Bool
  pub guess : Bool
  pub warm_start : Bool
  pub max_out_iter : ℕ
  pub max_inn_iter : ℕ
  pub qp_ready : Bool
  pub obs : Matrix W
  pub cbf_gamma : W
  pub obs_h : ℕ → W
  pub obs_h_prev : ℕ → W
  pub weight_q : Matrix W
  pub weight_r : Matrix W
  pub weight_s : Matrix W
  pub weight_w : Matrix W
  pub mat_h : ℕ → ℕ → W
  pub mat_e : ℕ → ℕ → W
  pub mat_c : ℕ → ℕ → W
  pub vec_c : ℕ → ℕ → W
  pub vec_b : ℕ → ℕ → W
  pub low : ℕ → ℕ → W
  pub upp : ℕ → ℕ → W
  pub h_sparse : Sparse W
  pub e_sparse : Sparse W
  pub c_sparse : Sparse W
