-- ===== src/ProxQp/Setters.antt =====
-- The setters of `class ProxQP`. One that throws leaves the object as it was.
use prox_mpc.Base.{ℕ, ◌*◌, Bool, not, ◌&&◌, ◌||◌, ltb, ◌==◌}
use prox_mpc.Base.Double.{Double, nought, one}
use prox_mpc.Base.Matrix.{Matrix}
use prox_mpc.Base.Result.{Result, ok, invalid_argument, throw_if, ◌>>◌}
use prox_mpc.ProxQp.State.{ProxQp}

module _ {ℓ} {W S : Type ℓ} where
  abbrev pub set_q : Matrix W → ProxQp W S → ProxQp W S
  set_q new_q p = record p { weight_q = new_q }

  abbrev pub set_r : Matrix W → ProxQp W S → ProxQp W S
  set_r new_r p = record p { weight_r = new_r }

  abbrev pub set_s : Matrix W → ProxQp W S → ProxQp W S
  set_s new_s p = record p { weight_s = new_s }

  abbrev pub set_w : Matrix W → ProxQp W S → ProxQp W S
  set_w new_w p = record p { weight_w = new_w }

  unfoldable pub set_np : ℕ → ProxQp W S → Result (ProxQp W S)
  set_np new_np p = do
    throw_if (new_np == 0) (invalid_argument "ProxQP::setNp: Np must be > 0")
    ok (record p { layout = record (p.layout) { np = new_np } })

  unfoldable pub set_nc : ℕ → ProxQp W S → Result (ProxQp W S)
  set_nc new_nc p = do
    throw_if (new_nc == 0) (invalid_argument "ProxQP::setNc: Nc must be > 0")
    ok (record p { layout = record (p.layout) { nc = new_nc } })

  abbrev pub set_n_eq : ℕ → ProxQp W S → ProxQp W S
  set_n_eq new_n_eq p = record p { layout = record (p.layout) { n_eq = new_n_eq } }

  abbrev pub set_n_ineq : ℕ → ProxQp W S → ProxQp W S
  set_n_ineq new_n_ineq p = record p { layout = record (p.layout) { n_ineq = new_n_ineq } }

  unfoldable pub set_max_in_iter : ℕ → ProxQp W S → Result (ProxQp W S)
  set_max_in_iter iter p = do
    throw_if (iter == 0) (invalid_argument "ProxQP::setMaxInIter: max_inn_iter must be > 0")
    ok (record p { max_inn_iter = iter })

  unfoldable pub set_max_out_iter : ℕ → ProxQp W S → Result (ProxQp W S)
  set_max_out_iter iter p = do
    throw_if (iter == 0) (invalid_argument "ProxQP::setMaxOutIter: max_out_iter must be > 0")
    ok (record p { max_out_iter = iter })

  abbrev pub set_qp_type : Bool → ProxQp W S → ProxQp W S
  set_qp_type new_qp_type p = record p { qp_type = new_qp_type }

  abbrev pub set_guess : Bool → ProxQp W S → ProxQp W S
  set_guess new_guess p = record p { guess = new_guess }

  abbrev pub set_warm_start : Bool → ProxQp W S → ProxQp W S
  set_warm_start new_warm_start p = record p { warm_start = new_warm_start }

  abbrev pub set_max_obs : ℕ → ProxQp W S → ProxQp W S
  set_max_obs new_max_obs p = record p { layout = record (p.layout) { max_obs = new_max_obs } }

  abbrev wrong_shape : ProxQp W S → Matrix W → Bool
  wrong_shape p new_obs = not (new_obs.rows == p.np * p.max_obs) || not (new_obs.cols == 3)

  unfoldable pub set_obs : Matrix W → ProxQp W S → Result (ProxQp W S)
  set_obs new_obs p = do
    throw_if (ltb 0 p.max_obs && wrong_shape p new_obs)
        (invalid_argument "ProxQP::setObs: obs must be (Np*max_obs) x 3")
    ok (record p { obs = new_obs })

module _ {ℓ} {W S : Type ℓ} ⦃d : Double W⦄ where
  unfoldable pub set_dt : W → ProxQp W S → Result (ProxQp W S)
  set_dt new_dt p = do
    throw_if (d.le new_dt nought) (invalid_argument "ProxQP::setdt: dt must be > 0")
    ok (record p { dt = new_dt })

  unfoldable pub set_cbf_gamma : W → ProxQp W S → Result (ProxQp W S)
  set_cbf_gamma g p = do
    throw_if (not (d.lt nought g && d.le g one))
        (invalid_argument "ProxQP::setCbfGamma: cbf_gamma must be in (0, 1]")
    ok (record p { cbf_gamma = g })
