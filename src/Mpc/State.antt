-- ===== src/Mpc/State.antt =====
-- `class MPC`: its members, and those of ProbDim and MPCParams that it inherits.
use prox_mpc.Base.{ℕ, Bool, true, false, []}
use prox_mpc.Base.Double.{Double, nought, one}
use prox_mpc.Base.Matrix.{Matrix, Vector, constant, vector_of}
use prox_mpc.ProxQp.State.{ProxQp, Plant}
use prox_mpc.ProxQp.Solver.{Info, not_run}

-- What the structural setters write and `init` sizes the problem from; `horizon` is T.
pub record Settings {ℓ} (W : Type ℓ) : Type ℓ where
  pub initialized : Bool
  pub model : Plant W
  pub n : ℕ
  pub m : ℕ
  pub np : ℕ
  pub nc : ℕ
  pub dt : W
  pub horizon : W
  pub n_eq : ℕ
  pub n_ineq : ℕ
  pub weight_q : Matrix W
  pub weight_r : Matrix W
  pub weight_s : Matrix W
  pub weight_w : Matrix W
  pub max_ext_qp : ℕ
  pub max_int_qp : ℕ
  pub guess : Bool
  pub warm_start : Bool
  pub qp_type : Bool
  pub cbf_gamma : W
  pub max_obs : ℕ

-- The predicted states, the controls, the slack and the first control of a plan.
pub record Plan {ℓ} (W : Type ℓ) : Type ℓ where
  pub x : Matrix W
  pub u : Matrix W
  pub w : Vector W
  pub u0 : Vector W

-- `retained` is x, u, w and u0, `candidate` is cand_x, cand_u, cand_w and cand_u0. Before `init`, where
-- the code has a null pointer, `proxqp` is an object that is not configured.
pub record Mpc {ℓ} (W S : Type ℓ) : Type ℓ where
  pub settings : Settings W
  pub retained : Plan W
  pub candidate : Plan W
  pub cand_solved : Bool
  pub cand_finite : Bool
  pub pose : Vector W
  pub goal_x : Matrix W
  pub goal_u : Matrix W
  pub obs : Matrix W
  pub max_iter_sqp : ℕ
  pub max_solve_time : W
  pub proxqp : ProxQp W S
  pub qp_info : Info
  pub qp_iter_ext : ℕ
  pub sqp_iter : ℕ

module _ {ℓ} {W : Type ℓ} ⦃d : Double W⦄ where
  abbrev pub empty_matrix : Matrix W
  empty_matrix = constant 0 0 nought

  abbrev pub empty_plan : Plan W
  empty_plan = record {
    x = empty_matrix;
    u = empty_matrix;
    w = vector_of 0 nought;
    u0 = vector_of 0 nought;
  }

  abbrev no_entries : ℕ → ℕ → W
  no_entries _ _ = nought

  -- A new ProxQP object: `blank` is its proxsuite member, and the model is set by its `init`.
  abbrev pub fresh_qp : {S : Type ℓ} → S → Plant W → ProxQp W S
  fresh_qp blank model = record {
    layout = record {
      model = model;
      n = 0;
      m = 0;
      np = 0;
      nc = 0;
      n_eq = 0;
      n_ineq = 0;
      eq_idx = [];
      ineq_idx = [];
      eq_tot = 0;
      ineq_tot = 0;
      n_dvars = 0;
      x_start = 0;
      u_start = 0;
      w_start = 0;
      max_obs = 0;
      obstacle_active = false;
      idx_pos_x = 0;
      idx_pos_y = 1;
    };
    workspace = blank;
    dt = nought;
    qp_type = false;
    guess = true;
    warm_start = true;
    max_out_iter = 10000;
    max_inn_iter = 1500;
    qp_ready = false;
    obs = empty_matrix;
    cbf_gamma = one;
    obs_h = λ _. nought;
    obs_h_prev = λ _. nought;
    weight_q = empty_matrix;
    weight_r = empty_matrix;
    weight_s = empty_matrix;
    weight_w = empty_matrix;
    mat_h = no_entries;
    mat_e = no_entries;
    mat_c = no_entries;
    vec_c = no_entries;
    vec_b = no_entries;
    low = no_entries;
    upp = no_entries;
    h_sparse = record { pattern = λ _ _. false; value = no_entries };
    e_sparse = record { pattern = λ _ _. false; value = no_entries };
    c_sparse = record { pattern = λ _ _. false; value = no_entries };
  }

  -- A new MPC object, with the default members.
  unfoldable pub fresh : {S : Type ℓ} → S → Plant W → Mpc W S
  fresh blank model = record {
    settings = record {
      initialized = false;
      model = model;
      n = 0;
      m = 0;
      np = 0;
      nc = 0;
      dt = nought;
      horizon = nought;
      n_eq = 0;
      n_ineq = 0;
      weight_q = empty_matrix;
      weight_r = empty_matrix;
      weight_s = empty_matrix;
      weight_w = empty_matrix;
      max_ext_qp = 10000;
      max_int_qp = 1500;
      guess = true;
      warm_start = true;
      qp_type = false;
      cbf_gamma = one;
      max_obs = 0;
    };
    retained = empty_plan;
    candidate = empty_plan;
    cand_solved = false;
    cand_finite = false;
    pose = vector_of 0 nought;
    goal_x = empty_matrix;
    goal_u = empty_matrix;
    obs = empty_matrix;
    max_iter_sqp = 1;
    max_solve_time = nought;
    proxqp = fresh_qp blank model;
    qp_info = record { status = not_run; iter_ext = 0 };
    qp_iter_ext = 0;
    sqp_iter = 0;
  }
