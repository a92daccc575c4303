-- ===== src/Mpc/Init.antt =====
-- `MPC::init` and `MPC::configProxQP`. What a call that throws leaves of the object is not modelled.
use prox_mpc.Base.{
  ℕ, ◌+◌, ◌*◌, Bool, true, not, ◌&&◌, ◌||◌, Option, none, some, ltb, ◌==◌, if◌then◌else◌, length,
  all_below, foldl, range,
}
use prox_mpc.Base.Double.{Double, ◌⊖◌, ◌⊗◌, nought, one, abs, fmax, fmin}
use prox_mpc.Base.Matrix.{Matrix, Vector, constant, vector_of, row_of}
use prox_mpc.Base.Result.{Result, ok, invalid_argument, throw_if, ◌>>◌, ◌>>=◌}
use prox_mpc.ProxQp.State.{ProxQp, Plant}
use prox_mpc.ProxQp.Solver.{Solver}
use prox_mpc.ProxQp.Setters as Qp
use prox_mpc.ProxQp.Init as QpInit
use prox_mpc.Mpc.State.{Mpc, Settings, Plan, fresh_qp}

-- Eigen::SelfAdjointEigenSolver: the eigenvalues, or none when the decomposition does not succeed.
abbrev pub EigenSolver {ℓ} : Type ℓ → Type ℓ
EigenSolver W = Matrix W → Option (Vector W)

module _ {ℓ} {W : Type ℓ} ⦃d : Double W⦄ where
  abbrev pub all_finite : Matrix W → Bool
  all_finite m = all_below m.rows λ i. all_below m.cols λ j. d.is_finite (m.at i j)

  -- maxCoeff() of |m| and minCoeff(), in the order of the entries of a column.
  abbrev largest : Matrix W → W
  largest m =
      foldl (λ best j. foldl (λ b i. fmax b (abs (m.at i j))) best (range 0 m.rows))
        (abs (m.at 0 0)) (range 0 m.cols)

  abbrev smallest : Vector W → W
  smallest v = foldl (λ best i. fmin best (v.get i)) (v.get 0) (range 0 v.size)

  abbrev skew : Matrix W → Matrix W
  skew m = record m { at = λ i j. m.at i j ⊖ m.at j i }

  abbrev scale : Matrix W → W
  scale m = fmax one (largest m)

  -- requireSymmetricPSD, whose messages say "weight" for the name of the matrix.
  unfoldable pub require_symmetric_psd : EigenSolver W → Matrix W → Result (Unit {0})
  require_symmetric_psd eigen m = do
    throw_if (not (all_finite m)) (invalid_argument "MPC::init: weight must be finite")
    throw_if (d.lt (d.weight_tol ⊗ scale m) (largest (skew m)))
        (invalid_argument "MPC::init: weight must be symmetric")
    elim (eigen m) [
      | none ↦ throw_if true (invalid_argument "MPC::init: weight eigenvalue decomposition failed")
      | some values ↦
          throw_if (d.lt (smallest values) (d.neg d.weight_tol ⊗ scale m))
            (invalid_argument "MPC::init: weight must be positive semidefinite")
    ]

  abbrev identity : ℕ → Matrix W
  identity k = record { rows = k; cols = k; at = λ i j. if i == j then one else nought }

  -- if (m.size() == 0) {m = MatrixXd::Identity(k, k);}
  abbrev default_weight : ℕ → Matrix W → Matrix W
  default_weight k m = if m.rows * m.cols == 0 then identity k else m

  abbrev pub adopt_model : Plant W → Settings W → Settings W
  adopt_model model s = record s {
    model = model;
    n = model.n;
    m = model.m;
    weight_q = default_weight model.n s.weight_q;
    weight_s = default_weight model.n s.weight_s;
    weight_r = default_weight model.m s.weight_r;
    weight_w = default_weight 1 s.weight_w;
  }

  abbrev wrong_size : ℕ → Matrix W → Bool
  wrong_size k m = not (m.rows == k) || not (m.cols == k)

  unfoldable pub check_weights : EigenSolver W → Settings W → Result (Unit {0})
  unfolding require_symmetric_psd
  check_weights eigen s = do
    throw_if (wrong_size s.n s.weight_q) (invalid_argument "MPC::init: Q must be n x n")
    throw_if (wrong_size s.n s.weight_s) (invalid_argument "MPC::init: S must be n x n")
    throw_if (wrong_size s.m s.weight_r) (invalid_argument "MPC::init: R must be m x m")
    throw_if (wrong_size 1 s.weight_w) (invalid_argument "MPC::init: W must be 1 x 1")
    require_symmetric_psd eigen s.weight_q
    require_symmetric_psd eigen s.weight_s
    require_symmetric_psd eigen s.weight_r
    require_symmetric_psd eigen s.weight_w

  -- The setters skip this test while the other horizon is not set.
  unfoldable pub check_horizons : Settings W → Result (Unit {0})
  check_horizons s = throw_if (ltb s.np s.nc) (invalid_argument "MPC::init: Nc must be <= Np")

  -- The problem's sizes, counted from the model.
  abbrev pub count_bounds : Settings W → Settings W
  count_bounds s = record s {
    n_eq = 0;
    n_ineq = length s.model.ineq_x + length s.model.ineq_u + length s.model.ineq_du;
  }

  -- The buffers of x, u and w, and u0, which is the first row of u.
  abbrev pub zero_plan : Settings W → Plan W
  zero_plan s =
      let u = constant s.nc s.m nought in
      record {
        x = constant (s.np + 1) s.n nought;
        u = u;
        w = vector_of (if s.model.obs_flag && ltb 0 s.max_obs then s.np * s.max_obs else 0) nought;
        u0 = row_of u 0;
      }

  -- Every slot starts on the far sentinel, with no clearance.
  abbrev pub far_slots : Settings W → Matrix W
  far_slots s = record {
    rows = s.np * s.max_obs;
    cols = 3;
    at = λ r c. if c == 2 then nought else d.far;
  }

module _ {ℓ} {W S : Type ℓ} ⦃d : Double W⦄ where
  -- The setters of the QP object, before its `init`: the sizes, then the rest.
  unfoldable pub set_sizes : Settings W → ProxQp W S → Result (ProxQp W S)
  unfolding Qp.set_np Qp.set_nc
  set_sizes s q0 = do
    q1 ← Qp.set_np s.np q0
    q2 ← Qp.set_nc s.nc q1
    ok (Qp.set_n_ineq s.n_ineq (Qp.set_n_eq s.n_eq q2))

  unfoldable pub set_options : Settings W → ProxQp W S → Result (ProxQp W S)
  unfolding Qp.set_dt Qp.set_max_in_iter Qp.set_max_out_iter Qp.set_cbf_gamma
  set_options s q0 = do
    q1 ← Qp.set_dt s.dt q0
    q2 ←
        Qp.set_max_in_iter s.max_int_qp
          (Qp.set_w s.weight_w (Qp.set_r s.weight_r (Qp.set_s s.weight_s (Qp.set_q s.weight_q q1))))
    q3 ← Qp.set_max_out_iter s.max_ext_qp q2
    q4 ←
        Qp.set_cbf_gamma s.cbf_gamma
          (Qp.set_warm_start s.warm_start (Qp.set_guess s.guess (Qp.set_qp_type s.qp_type q3)))
    ok (Qp.set_max_obs s.max_obs q4)

  module _ (solver : Solver W S) where
    unfoldable pub config_prox_qp : Settings W → ProxQp W S → Result (ProxQp W S)
    unfolding set_sizes set_options QpInit.init
    config_prox_qp s q = set_sizes s q >>= set_options s >>= QpInit.init solver s.model

    -- `blank` is the proxsuite member of the new QP object.
    unfoldable pub init : EigenSolver W → S → Plant W → Mpc W S → Result (Mpc W S)
    unfolding check_weights check_horizons config_prox_qp
    init eigen blank new_model p =
        let adopted = adopt_model new_model p.settings in
        let s = count_bounds adopted in
        check_weights eigen adopted
        >> (check_horizons adopted
            >> (config_prox_qp s (fresh_qp blank new_model) >>= λ q. ok (record p {
              settings = record s { initialized = true };
              retained = zero_plan s;
              proxqp = q;
              obs = far_slots s;
            })))
