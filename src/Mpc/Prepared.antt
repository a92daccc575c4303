-- ===== src/Mpc/Prepared.antt =====
-- What `MPC::init` has checked and sized when it returns.
use prox_mpc.Base.{
  ◌+◌, ◌*◌, ◌≤◌, ◌<◌, ◌≡◌, refl, sym, ap, ◌∙◌, subst, Bool, true, false, ◌&&◌, ltb, ltb→le,
  if◌then◌else◌, arith, length,
}
use prox_mpc.Base.Double.{Double}
use prox_mpc.Base.Result.{Error, ok, throw_if, ◌>>=◌, >>=-eq-ok, ok-injective}
use prox_mpc.ProxQp.State.{ProxQp, Plant, Layout}
use prox_mpc.ProxQp.Solver.{Solver}
use prox_mpc.ProxQp.Init as QpInit
use prox_mpc.ProxQp.Objective.{set_h}
use prox_mpc.ProxQp.Layout.{IsLaidOut, IsFor}
use prox_mpc.ProxQp.Prepared.{lay_out-IsLaidOut}
use prox_mpc.ProxQp.Ready.{IsPlant, IsReady}
use prox_mpc.Mpc.State.{Mpc, Settings, fresh_qp}
use prox_mpc.Mpc.Init.{
  EigenSolver, set_sizes, set_options, config_prox_qp, check_weights, check_horizons, init,
  zero_plan, count_bounds, adopt_model,
}
use prox_mpc.Mpc.Configured.{set_sizes_lem, set_options_lem}

last_test : (t : Bool) (e : Error) {u : Unit {0}} → throw_if t e ≡ ok u → t ≡ false
last_test true e h = absurd (cc)
last_test false e h = refl

-- What `init` has established: the horizons, the sizes of the buffers, and a QP object that is ready
-- for the same problem.
pub record IsInitialized {ℓ} {W S : Type ℓ} (model : Plant W) (p : Mpc W S) : Type ℓ where
  pub initialized : p.settings.initialized ≡ true
  pub np_pos : 0 < p.settings.np
  pub nc_pos : 0 < p.settings.nc
  pub nc_le : p.settings.nc ≤ p.settings.np
  pub x_shape : (p.retained.x.rows ≡ p.settings.np + 1) × (p.retained.x.cols ≡ model.n)
  pub u_shape : (p.retained.u.rows ≡ p.settings.nc) × (p.retained.u.cols ≡ model.m)
  pub obs_shape : (p.obs.rows ≡ p.settings.np * p.settings.max_obs) × (p.obs.cols ≡ 3)
  pub settings_model : p.settings.model ≡ model
  pub settings_n : p.settings.n ≡ model.n
  pub settings_m : p.settings.m ≡ model.m
  pub qp_model : p.proxqp.model ≡ model
  pub qp_n : p.proxqp.n ≡ model.n
  pub qp_m : p.proxqp.m ≡ model.m
  pub qp_active : p.proxqp.obstacle_active ≡ (model.obs_flag && ltb 0 p.settings.max_obs)
  pub qp_np : p.proxqp.np ≡ p.settings.np
  pub qp_nc : p.proxqp.nc ≡ p.settings.nc
  pub qp_slots : p.proxqp.max_obs ≡ p.settings.max_obs
  pub slack_size : p.proxqp.n_dvars ≡ p.proxqp.w_start + p.retained.w.size
  pub ready : IsReady p.proxqp.layout

module _ {ℓ} {W : Type ℓ} ⦃d : Double W⦄ where
  -- Laying out the object that the setters left.
  laid_out_lem :
      (s : Settings W) (l : Layout W) {q : Layout W}
      → IsPlant s.model
      → 0 < s.np
      → 0 < s.nc
      → l.n_eq ≡ 0
      → l.n_ineq ≡ length s.model.ineq_x + length s.model.ineq_u + length s.model.ineq_du
      → l.np ≡ s.np
      → l.nc ≡ s.nc
      → QpInit.lay_out s.model l ≡ ok q
      → IsReady q × IsFor s.model l q
  laid_out_lem s l plant np_pos nc_pos eqs ineqs np_eq nc_eq h =
      let (laid, for_model, rows) = lay_out-IsLaidOut s.model l eqs ineqs h in
      (
        record {
          laid_out = laid;
          plant = subst IsPlant (sym for_model.model_eq) plant;
          n_eq = for_model.n_eq ∙ ap (λ k. k.n) (sym for_model.model_eq);
          m_eq = for_model.m_eq ∙ ap (λ k. k.m) (sym for_model.model_eq);
          np_pos = omega (arith, for_model.np_eq, np_eq, np_pos);
          nc_pos = omega (arith, for_model.nc_eq, nc_eq, nc_pos);
        },
        for_model,
      )

  slack_lem :
      (l l0 : Layout W) (s : Settings W)
      → IsLaidOut l
      → IsFor s.model l0 l
      → l0.np ≡ s.np
      → l0.max_obs ≡ s.max_obs
      → l.n_dvars ≡ l.w_start + (zero_plan s).w.size
  slack_lem l l0 s laid for_model np_eq obs_eq =
      laid.n_dvars_eq
      ∙ ap (λ k. l.w_start + k)
          (ap (λ b. if b then l.np * l.max_obs else 0)
              (for_model.active_eq ∙ ap (λ k. s.model.obs_flag && ltb 0 k) obs_eq)
            ∙ ap (λ k. if s.model.obs_flag && ltb 0 s.max_obs then k else 0)
                (ap (λ k. k * l.max_obs) (for_model.np_eq ∙ np_eq)
                  ∙ ap (λ k. s.np * k) (for_model.max_obs_eq ∙ obs_eq)))

  check_horizons_lem : (s : Settings W) {u : Unit {0}} → check_horizons s ≡ ok u → s.nc ≤ s.np
  unfolding check_horizons
  check_horizons_lem s h = ltb→le s.np s.nc (last_test _ _ h)

module _ {ℓ} {W S : Type ℓ} ⦃d : Double W⦄ (solver : Solver W S) where
  either-layout :
      (b : Bool) (x y : ProxQp W S) (l : Layout W)
      → x.layout ≡ l
      → y.layout ≡ l
      → (if b then x else y).layout ≡ l
  either-layout true x y l hx hy = hx
  either-layout false x y l hx hy = hy

  set_up-layout : (p : ProxQp W S) → (QpInit.set_up solver p).layout ≡ p.layout
  unfolding QpInit.set_up QpInit.build_workspace QpInit.clear_buffers set_h
  set_up-layout p = either-layout p.qp_type _ _ p.layout refl refl

  -- An accepted `init` of a model whose bounds name entries of its vectors leaves an object that is
  -- initialized: 1 <= Nc <= Np, buffers of the sizes of the problem, and a QP object that has the same
  -- model, with its numbers of states and controls, is laid out for the same horizons and slots, and
  -- avoids obstacles if the model does and there are slots.
  pub init-IsInitialized :
      (eigen : EigenSolver W) (blank : S) (model : Plant W) (p : Mpc W S) {q : Mpc W S}
      → IsPlant model
      → init solver eigen blank model p ≡ ok q
      → IsInitialized model q
  unfolding init config_prox_qp QpInit.init
  init-IsInitialized eigen blank model p plant h =
      let s = count_bounds (adopt_model model p.settings) in
      let adopted = adopt_model model p.settings in
      let (u, weights, h0) = >>=-eq-ok (check_weights eigen adopted) _ h in
      let (v, horizons, h1) = >>=-eq-ok (check_horizons adopted) _ h0 in
      let (qp, configured, h2) = >>=-eq-ok (config_prox_qp solver s (fresh_qp blank model)) _ h1 in
      let (q2, ready2, h4) =
        >>=-eq-ok (set_sizes s (fresh_qp blank model) >>= set_options s) (QpInit.init solver model)
          configured in
      let (q1, sizes, options) =
        >>=-eq-ok (set_sizes s (fresh_qp blank model)) (set_options s) ready2 in
      let (l, laid, done) = >>=-eq-ok (QpInit.lay_out model q2.layout) _ h4 in
      let (np_pos, nc_pos, l1) = set_sizes_lem s (fresh_qp blank model) sizes in
      let (l2, t2) = set_options_lem s q1 options in
      let l12 = l2 ∙ ap (λ (k : Layout W). record k { max_obs = s.max_obs }) l1 in
      let (ready, for_model) =
        laid_out_lem s q2.layout plant np_pos nc_pos (ap (λ k. k.n_eq) l12) (ap (λ k. k.n_ineq) l12)
          (ap (λ k. k.np) l12) (ap (λ k. k.nc) l12) laid in
      let lq : qp.layout ≡ l =
        ap (λ k. k.layout) (sym (ok-injective done)) ∙ set_up-layout (record q2 { layout = l }) in
      subst (IsInitialized model) (ok-injective h2) (record {
        initialized = refl;
        np_pos = np_pos;
        nc_pos = nc_pos;
        nc_le = check_horizons_lem adopted horizons;
        x_shape = (refl, refl);
        u_shape = (refl, refl);
        obs_shape = (refl, refl);
        settings_model = refl;
        settings_n = refl;
        settings_m = refl;
        qp_model = ap (λ k. k.model) lq ∙ for_model.model_eq;
        qp_n = ap (λ k. k.n) lq ∙ for_model.n_eq;
        qp_m = ap (λ k. k.m) lq ∙ for_model.m_eq;
        qp_active =
            ap (λ k. k.obstacle_active) lq
            ∙ (for_model.active_eq ∙ ap (λ (k : Layout W). model.obs_flag && ltb 0 k.max_obs) l12);
        qp_np = ap (λ k. k.np) lq ∙ (for_model.np_eq ∙ ap (λ k. k.np) l12);
        qp_nc = ap (λ k. k.nc) lq ∙ (for_model.nc_eq ∙ ap (λ k. k.nc) l12);
        qp_slots = ap (λ k. k.max_obs) lq ∙ (for_model.max_obs_eq ∙ ap (λ k. k.max_obs) l12);
        slack_size =
            subst (λ (k : Layout W). k.n_dvars ≡ k.w_start + (zero_plan s).w.size) (sym lq)
              (slack_lem l q2.layout s ready.laid_out for_model (ap (λ k. k.np) l12)
                (ap (λ k. k.max_obs) l12));
        ready = subst IsReady (sym lq) ready;
      })
