-- ===== src/Mpc/Setters.antt =====
-- The setters of `class MPC`. One that throws leaves the object as it was.
use Prim.Native.String.{String}
use prox_mpc.Base.{ℕ, ◌+◌, Bool, not, ◌&&◌, ◌||◌, ltb, ◌==◌, if◌then◌else◌}
use prox_mpc.Base.Double.{Double, ◌⊗◌, ◌⊘◌, nought, one}
use prox_mpc.Base.Matrix.{Matrix, Vector}
use prox_mpc.Base.Result.{Result, ok, invalid_argument, logic_error, throw_if, ◌>>◌, ◌>>=◌}
use prox_mpc.Mpc.State.{Mpc, Settings}

-- What the setters of the horizons and the times do to the settings.
module _ {ℓ} {W : Type ℓ} where
  -- 0 is the horizon that is not set yet, with which none is compared.
  unfoldable pub resized_nc : ℕ → Settings W → Result (Settings W)
  resized_nc new_nc s = do
    throw_if (new_nc == 0) (invalid_argument "MPC::setNc: Nc must be > 0")
    throw_if (ltb 0 s.np && ltb s.np new_nc) (invalid_argument "MPC::setNc: Nc must be <= Np")
    ok (record s { nc = new_nc })

module _ {ℓ} {W : Type ℓ} ⦃d : Double W⦄ where
  unfoldable pub resized_np : ℕ → Settings W → Result (Settings W)
  resized_np new_np s = do
    throw_if (new_np == 0) (invalid_argument "MPC::setNp: Np must be > 0")
    throw_if (ltb 0 s.nc && ltb new_np s.nc) (invalid_argument "MPC::setNp: Np must be >= Nc")
    ok (record s {
      np = new_np;
      dt = if d.lt nought s.horizon then s.horizon ⊘ d.of_nat new_np else s.dt;
    })

  unfoldable pub retimed_dt : W → Settings W → Result (Settings W)
  retimed_dt new_dt s = do
    throw_if (not (d.is_finite new_dt) || d.le new_dt nought)
        (invalid_argument "MPC::setdt: dt must be > 0")
    ok (record s {
      dt = new_dt;
      horizon = if ltb 0 s.np then d.of_nat s.np ⊗ new_dt else s.horizon;
    })

  unfoldable pub retimed_t : W → Settings W → Result (Settings W)
  retimed_t new_t s = do
    throw_if (d.le new_t nought) (invalid_argument "MPC::setT: T must be > 0")
    ok (record s { horizon = new_t; dt = if ltb 0 s.np then new_t ⊘ d.of_nat s.np else s.dt })

module _ {ℓ} {W S : Type ℓ} where
  -- rejectAfterInit, then the assignment; the message of the exception is that of the setter.
  abbrev pub structural : String → Mpc W S → Result (Settings W) → Result (Mpc W S)
  structural message p change =
      throw_if (p.settings.initialized) (logic_error message)
      >> (change >>= λ s. ok (record p { settings = s }))

  unfoldable pub set_q : Matrix W → Mpc W S → Result (Mpc W S)
  set_q new_q p =
      structural "MPC::setQ: structural setters must be called before init()" p
        (ok (record (p.settings) { weight_q = new_q }))

  unfoldable pub set_r : Matrix W → Mpc W S → Result (Mpc W S)
  set_r new_r p =
      structural "MPC::setR: structural setters must be called before init()" p
        (ok (record (p.settings) { weight_r = new_r }))

  unfoldable pub set_s : Matrix W → Mpc W S → Result (Mpc W S)
  set_s new_s p =
      structural "MPC::setS: structural setters must be called before init()" p
        (ok (record (p.settings) { weight_s = new_s }))

  unfoldable pub set_w : Matrix W → Mpc W S → Result (Mpc W S)
  set_w new_w p =
      structural "MPC::setW: structural setters must be called before init()" p
        (ok (record (p.settings) { weight_w = new_w }))

  unfoldable pub set_nc : ℕ → Mpc W S → Result (Mpc W S)
  unfolding resized_nc
  set_nc new_nc p =
      structural "MPC::setNc: structural setters must be called before init()" p
        (resized_nc new_nc p.settings)

  unfoldable pub set_max_int_iter_qp : ℕ → Mpc W S → Result (Mpc W S)
  set_max_int_iter_qp max_iter p =
      structural "MPC::setMaxIntIterQP: structural setters must be called before init()" p
        (ok (record (p.settings) { max_int_qp = max_iter }))

  unfoldable pub set_max_ext_iter_qp : ℕ → Mpc W S → Result (Mpc W S)
  set_max_ext_iter_qp max_iter p =
      structural "MPC::setMaxExtIterQP: structural setters must be called before init()" p
        (ok (record (p.settings) { max_ext_qp = max_iter }))

  unfoldable pub set_guess : Bool → Mpc W S → Result (Mpc W S)
  set_guess new_guess p =
      structural "MPC::setGuess: structural setters must be called before init()" p
        (ok (record (p.settings) { guess = new_guess }))

  unfoldable pub set_warm_start : Bool → Mpc W S → Result (Mpc W S)
  set_warm_start new_warm_start p =
      structural "MPC::setWarmStart: structural setters must be called before init()" p
        (ok (record (p.settings) { warm_start = new_warm_start }))

  unfoldable pub set_qp_type : Bool → Mpc W S → Result (Mpc W S)
  set_qp_type new_qp_type p =
      structural "MPC::setQPtype: structural setters must be called before init()" p
        (ok (record (p.settings) { qp_type = new_qp_type }))

  unfoldable pub set_max_obs : ℕ → Mpc W S → Result (Mpc W S)
  set_max_obs new_max_obs p =
      structural "MPC::setMaxObs: structural setters must be called before init()" p
        (ok (record (p.settings) { max_obs = new_max_obs }))

  unfoldable pub set_x : Matrix W → Mpc W S → Mpc W S
  set_x new_x p = record p { retained = record (p.retained) { x = new_x } }

  unfoldable pub set_u0 : Vector W → Mpc W S → Mpc W S
  set_u0 new_u0 p = record p { retained = record (p.retained) { u0 = new_u0 } }

  unfoldable pub set_pose : Vector W → Mpc W S → Mpc W S
  set_pose new_pose p = record p { pose = new_pose }

  unfoldable pub set_goal_x : Matrix W → Mpc W S → Result (Mpc W S)
  set_goal_x new_goal_x p = do
    throw_if (ltb 0 p.settings.np && ltb new_goal_x.rows (p.settings.np + 1))
        (invalid_argument "MPC::setGoalX: goal_x must have at least Np + 1 rows")
    throw_if (ltb 0 p.settings.n && not (new_goal_x.cols == p.settings.n))
        (invalid_argument "MPC::setGoalX: goal_x must have n columns")
    ok (record p { goal_x = new_goal_x })

  unfoldable pub set_goal_u : Matrix W → Mpc W S → Result (Mpc W S)
  set_goal_u new_goal_u p = do
    throw_if (ltb 0 p.settings.nc && ltb new_goal_u.rows p.settings.nc)
        (invalid_argument "MPC::setGoalU: goal_u must have at least Nc rows")
    throw_if (ltb 0 p.settings.m && not (new_goal_u.cols == p.settings.m))
        (invalid_argument "MPC::setGoalU: goal_u must have m columns")
    ok (record p { goal_u = new_goal_u })

  unfoldable pub set_max_iter_sqp : ℕ → Mpc W S → Mpc W S
  set_max_iter_sqp max_iter p = record p { max_iter_sqp = max_iter }

  unfoldable pub set_max_solve_time : W → Mpc W S → Mpc W S
  set_max_solve_time seconds p = record p { max_solve_time = seconds }

  unfoldable pub set_obs : Matrix W → Mpc W S → Mpc W S
  set_obs new_obs p = record p { obs = new_obs }

module _ {ℓ} {W S : Type ℓ} ⦃d : Double W⦄ where
  unfoldable pub set_np : ℕ → Mpc W S → Result (Mpc W S)
  unfolding resized_np
  set_np new_np p =
      structural "MPC::setNp: structural setters must be called before init()" p
        (resized_np new_np p.settings)

  unfoldable pub set_dt : W → Mpc W S → Result (Mpc W S)
  unfolding retimed_dt
  set_dt new_dt p =
      structural "MPC::setdt: structural setters must be called before init()" p
        (retimed_dt new_dt p.settings)

  unfoldable pub set_t : W → Mpc W S → Result (Mpc W S)
  unfolding retimed_t
  set_t new_t p =
      structural "MPC::setT: structural setters must be called before init()" p
        (retimed_t new_t p.settings)

  unfoldable pub set_cbf_gamma : W → Mpc W S → Result (Mpc W S)
  set_cbf_gamma new_cbf_gamma p =
      structural "MPC::setCbfGamma: structural setters must be called before init()" p (do
        throw_if (not (d.lt nought new_cbf_gamma && d.le new_cbf_gamma one))
            (invalid_argument "MPC::setCbfGamma: cbf_gamma must be in (0, 1]")
        ok (record (p.settings) { cbf_gamma = new_cbf_gamma }))
