-- ===== src/Mpc/Configured.antt =====
-- What `configProxQP` leaves in the QP object before its `init`.
use prox_mpc.Base.{ℕ, ◌<◌, ◌≡◌, sym, ap, ◌∙◌, Bool, false, ◌==◌, arith}
use prox_mpc.Base.Double.{Double}
use prox_mpc.Base.Result.{Error, ok, throw_if, ◌>>◌, >>=-eq-ok, throw_if-eq-ok, ok-injective}
use prox_mpc.ProxQp.State.{ProxQp, Layout}
use prox_mpc.ProxQp.Setters as Qp
use prox_mpc.Mpc.State.{Settings}
use prox_mpc.Mpc.Init.{set_sizes, set_options}

not_zero : (k : ℕ) → (k == 0) ≡ false → 0 < k
not_zero k h = ground arith

module _ {ℓ} {W S : Type ℓ} where
  -- A setter that returns passed its test, and did what follows it.
  passed_lem :
      (t : Bool) (e : Error) (r : ProxQp W S) {q : ProxQp W S}
      → (throw_if t e >> ok r) ≡ ok q
      → (t ≡ false) × (q.layout ≡ r.layout) × (q.qp_type ≡ r.qp_type)
  passed_lem t e r h =
      let (z, same) = throw_if-eq-ok t e (ok r) h in
      (
        z,
        ap (λ k. k.layout) (sym (ok-injective same)),
        ap (λ k. k.qp_type) (sym (ok-injective same)),
      )

  set_np_lem :
      (k : ℕ) (p : ProxQp W S) {q : ProxQp W S}
      → Qp.set_np k p ≡ ok q
      → ((k == 0) ≡ false) × (q.layout ≡ record (p.layout) { np = k }) × (q.qp_type ≡ p.qp_type)
  unfolding Qp.set_np
  set_np_lem k p h = passed_lem _ _ _ h

  set_nc_lem :
      (k : ℕ) (p : ProxQp W S) {q : ProxQp W S}
      → Qp.set_nc k p ≡ ok q
      → ((k == 0) ≡ false) × (q.layout ≡ record (p.layout) { nc = k }) × (q.qp_type ≡ p.qp_type)
  unfolding Qp.set_nc
  set_nc_lem k p h = passed_lem _ _ _ h

  -- The other setters that throw keep the layout.
  set_max_in_iter_lem :
      (k : ℕ) (p : ProxQp W S) {q : ProxQp W S}
      → Qp.set_max_in_iter k p ≡ ok q
      → (q.layout ≡ p.layout) × (q.qp_type ≡ p.qp_type)
  unfolding Qp.set_max_in_iter
  set_max_in_iter_lem k p h = let (z, l, t) = passed_lem _ _ _ h in (l, t)

  set_max_out_iter_lem :
      (k : ℕ) (p : ProxQp W S) {q : ProxQp W S}
      → Qp.set_max_out_iter k p ≡ ok q
      → (q.layout ≡ p.layout) × (q.qp_type ≡ p.qp_type)
  unfolding Qp.set_max_out_iter
  set_max_out_iter_lem k p h = let (z, l, t) = passed_lem _ _ _ h in (l, t)

module _ {ℓ} {W S : Type ℓ} ⦃d : Double W⦄ where
  set_dt_lem :
      (v : W) (p : ProxQp W S) {q : ProxQp W S}
      → Qp.set_dt v p ≡ ok q
      → (q.layout ≡ p.layout) × (q.qp_type ≡ p.qp_type)
  unfolding Qp.set_dt
  set_dt_lem v p h = let (z, l, t) = passed_lem _ _ _ h in (l, t)

  set_cbf_gamma_lem :
      (v : W) (p : ProxQp W S) {q : ProxQp W S}
      → Qp.set_cbf_gamma v p ≡ ok q
      → (q.layout ≡ p.layout) × (q.qp_type ≡ p.qp_type)
  unfolding Qp.set_cbf_gamma
  set_cbf_gamma_lem v p h = let (z, l, t) = passed_lem _ _ _ h in (l, t)

module _ {ℓ} {W S : Type ℓ} ⦃d : Double W⦄ where
  pub set_sizes_lem :
      (s : Settings W) (q0 : ProxQp W S) {q : ProxQp W S}
      → set_sizes s q0 ≡ ok q
      → (0 < s.np)
        × (0 < s.nc)
        × (q.layout ≡ record (q0.layout) { np = s.np; nc = s.nc; n_eq = s.n_eq; n_ineq = s.n_ineq })
  unfolding set_sizes
  set_sizes_lem s q0 h =
      let (q1, h1, k1) = >>=-eq-ok (Qp.set_np s.np q0) _ h in
      let (q2, h2, k2) = >>=-eq-ok (Qp.set_nc s.nc q1) _ k1 in
      let (z1, l1, t1) = set_np_lem s.np q0 h1 in
      let (z2, l2, t2) = set_nc_lem s.nc q1 h2 in
      (
        not_zero s.np z1,
        not_zero s.nc z2,
        ap (λ k. k.layout) (sym (ok-injective k2))
            ∙ ap (λ (l : Layout W). record l { n_eq = s.n_eq; n_ineq = s.n_ineq })
                (l2 ∙ ap (λ (l : Layout W). record l { nc = s.nc }) l1),
      )

  pub set_options_lem :
      (s : Settings W) (q0 : ProxQp W S) {q : ProxQp W S}
      → set_options s q0 ≡ ok q
      → (q.layout ≡ record (q0.layout) { max_obs = s.max_obs }) × (q.qp_type ≡ s.qp_type)
  unfolding set_options
  set_options_lem s q0 h =
      let (q1, h1, k1) = >>=-eq-ok (Qp.set_dt s.dt q0) _ h in
      let w1 =
        Qp.set_w s.weight_w (Qp.set_r s.weight_r (Qp.set_s s.weight_s (Qp.set_q s.weight_q q1))) in
      let (q2, h2, k2) = >>=-eq-ok (Qp.set_max_in_iter s.max_int_qp w1) _ k1 in
      let (q3, h3, k3) = >>=-eq-ok (Qp.set_max_out_iter s.max_ext_qp q2) _ k2 in
      let w3 =
        Qp.set_warm_start s.warm_start (Qp.set_guess s.guess (Qp.set_qp_type s.qp_type q3)) in
      let (q4, h4, k4) = >>=-eq-ok (Qp.set_cbf_gamma s.cbf_gamma w3) _ k3 in
      let l1 = (set_dt_lem s.dt q0 h1).0 in
      let l2 = (set_max_in_iter_lem s.max_int_qp w1 h2).0 in
      let l3 = (set_max_out_iter_lem s.max_ext_qp q2 h3).0 in
      let (l4, t4) = set_cbf_gamma_lem s.cbf_gamma w3 h4 in
      let last = sym (ok-injective k4) in
      (
        ap (λ k. k.layout) last
            ∙ ap (λ (l : Layout W). record l { max_obs = s.max_obs }) (l4 ∙ (l3 ∙ (l2 ∙ l1))),
        ap (λ k. k.qp_type) last ∙ t4,
      )
