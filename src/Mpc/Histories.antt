-- ===== src/Mpc/Histories.antt =====
-- What a sequence of calls does to the settings.
use Prim.Native.String.{String}
use prox_mpc.Base.{
  ℕ, ◌+◌, ◌≤◌, ◌≡◌, refl, sym, ap, ◌∙◌, subst, Bool, true, false, not, ◌&&◌, ◌||◌, List, [], ◌∷◌,
  ltb, ltb→le, Bool-cases, ◌==◌, inl, inr, ◌⊎◌, arith, if◌then◌else◌,
}
use prox_mpc.Base.Double.{Double, ◌⊗◌, ◌⊘◌, nought}
use prox_mpc.Base.Matrix.{Matrix}
use prox_mpc.Base.Result.{
  Result, Error, ok, logic_error, invalid_argument, throw_if, ◌>>◌, >>=-eq-ok, throw_if-eq-ok,
  ok-injective,
}
use prox_mpc.ProxQp.State.{Plant}
use prox_mpc.ProxQp.Solver.{Solver}
use prox_mpc.Mpc.State.{Mpc, Settings, fresh, fresh_qp}
use prox_mpc.Mpc.Setters as Set
use prox_mpc.Mpc.Init.{
  EigenSolver, init, check_weights, check_horizons, config_prox_qp, adopt_model, count_bounds,
}
use prox_mpc.Mpc.Solve.{solve_candidate, commit_candidate, solve, after_cycle}
use prox_mpc.Mpc.Cycle.{solve_candidate-keeps}
use prox_mpc.Mpc.Calls.{
  Call, perform, perform_all, IsConsistent, is_init, set_q, set_r, set_s, set_w, set_x, set_goal_x,
  set_goal_u, set_obs, set_np, set_nc, set_max_int_iter_qp, set_max_ext_iter_qp, set_max_iter_sqp,
  set_max_obs, set_dt, set_t, set_cbf_gamma, set_max_solve_time, set_guess, set_warm_start,
  set_qp_type, set_u0, set_pose, init_with, solve_candidate_at, solve_at, commit,
}

zero_lem : (np : ℕ) → ltb 0 np ≡ false → np ≡ 0
zero_lem np h = omega (arith, ltb→le 0 np h)

not_beyond : (nc np : ℕ) → (ltb 0 nc && ltb np nc) ≡ false → nc ≤ np
not_beyond nc np h = ground arith

within_or_unset : (nc np : ℕ) → (ltb 0 np && ltb np nc) ≡ false → (nc ≤ np) ⊎ (np ≡ 0)
within_or_unset nc np h = elim (Bool-cases (ltb 0 np)) [
  | inl on ↦ inl (ground arith)
  | inr off ↦ inr (omega (arith, ltb→le 0 np off))
]

module _ {ℓ} {W S : Type ℓ} where
  structural_lem :
      (message : String) (p : Mpc W S) (change : Result (Settings W)) {q : Mpc W S}
      → Set.structural message p change ≡ ok q
      → (p.settings.initialized ≡ false) × ((s : Settings W) × (change ≡ ok s) × (q.settings ≡ s))
  structural_lem message p change h =
      let (z, h1) = throw_if-eq-ok p.settings.initialized (logic_error message) _ h in
      let (s, made, done) = >>=-eq-ok change (λ t. ok (record p { settings = t })) h1 in
      (z, (s, made, ap (λ k. k.settings) (sym (ok-injective done))))

module _ {ℓ} {W : Type ℓ} ⦃d : Double W⦄ where
  np_lem : (v : ℕ) (s t : Settings W) → Set.resized_np v s ≡ ok t → IsConsistent s → IsConsistent t
  unfolding Set.resized_np
  np_lem v s t e k =
      let (z1, e1) = throw_if-eq-ok _ _ _ e in
      let (z2, e2) = throw_if-eq-ok _ _ _ e1 in
      subst IsConsistent (ok-injective e2) (record {
        ordered = inl (not_beyond s.nc v z2);
        timed = elim (Bool-cases (d.lt nought s.horizon)) [
          | inl on ↦ inr (inr (inr (ap (λ b. if b then s.horizon ⊘ d.of_nat v else s.dt) on)))
          | inr off ↦ inr (inl off)
        ];
      })

  nc_lem : (v : ℕ) (s t : Settings W) → Set.resized_nc v s ≡ ok t → IsConsistent s → IsConsistent t
  unfolding Set.resized_nc
  nc_lem v s t e k =
      let (z1, e1) = throw_if-eq-ok _ _ _ e in
      let (z2, e2) = throw_if-eq-ok _ _ _ e1 in
      subst IsConsistent (ok-injective e2)
        (record { ordered = within_or_unset v s.np z2; timed = k.timed })

  dt_lem : (v : W) (s t : Settings W) → Set.retimed_dt v s ≡ ok t → IsConsistent s → IsConsistent t
  unfolding Set.retimed_dt
  dt_lem v s t e k =
      let rest = throw_if-eq-ok _ _ _ e in
      subst IsConsistent (ok-injective rest.1) (record {
        ordered = k.ordered;
        timed = elim (Bool-cases (ltb 0 s.np)) [
          | inl on ↦ inr (inr (inl (ap (λ b. if b then d.of_nat s.np ⊗ v else s.horizon) on)))
          | inr off ↦ inl (zero_lem s.np off)
        ];
      })

  t_lem : (v : W) (s t : Settings W) → Set.retimed_t v s ≡ ok t → IsConsistent s → IsConsistent t
  unfolding Set.retimed_t
  t_lem v s t e k =
      let rest = throw_if-eq-ok _ _ _ e in
      subst IsConsistent (ok-injective rest.1) (record {
        ordered = k.ordered;
        timed = elim (Bool-cases (ltb 0 s.np)) [
          | inl on ↦ inr (inr (inr (ap (λ b. if b then v ⊘ d.of_nat s.np else s.dt) on)))
          | inr off ↦ inl (zero_lem s.np off)
        ];
      })

module _ {ℓ} {W S : Type ℓ} ⦃d : Double W⦄ where
  init_lem :
      (solver : Solver W S) (eigen : EigenSolver W) (blank : S) (model : Plant W) (p : Mpc W S)
      {q : Mpc W S}
      → init solver eigen blank model p ≡ ok q
      → IsConsistent p.settings
      → IsConsistent q.settings
  unfolding init
  init_lem solver eigen blank model p h k =
      let adopted = adopt_model model p.settings in
      let (u, weights, h0) = >>=-eq-ok (check_weights eigen adopted) _ h in
      let (v, horizons, h1) = >>=-eq-ok (check_horizons adopted) _ h0 in
      let (qp, configured, h2) =
        >>=-eq-ok (config_prox_qp solver (count_bounds adopted) (fresh_qp blank model)) _ h1 in
      subst (λ m. IsConsistent m.settings) (ok-injective h2)
        (record { ordered = k.ordered; timed = k.timed })

  after_cycle-settings :
      (r : Mpc W S × Result (Matrix W × Matrix W)) → (after_cycle r).0.settings ≡ r.0.settings
  after_cycle-settings (r, ok v) = refl
  after_cycle-settings (r, Result.thrown e) = refl

  either-settings :
      {s : Settings W} (b : Bool) (x y : Mpc W S × Bool)
      → x.0.settings ≡ s
      → y.0.settings ≡ s
      → (if b then x else y).0.settings ≡ s
  either-settings true x y hx hy = hx
  either-settings false x y hx hy = hy

  commit-settings : (p : Mpc W S) → (commit_candidate p).0.settings ≡ p.settings
  unfolding commit_candidate
  commit-settings p = either-settings (not p.cand_solved || not p.cand_finite) _ _ refl refl

module _ {ℓ} {W S : Type ℓ} ⦃d : Double W⦄ where
  -- What a call does to the settings: nothing, or a change before `init`, or an `init`.
  data Effect (c : Call W S) (s t : Settings W) : Type ℓ where
    kept : t ≡ s → Effect c s t
    changed : s.initialized ≡ false → (IsConsistent s → IsConsistent t) → Effect c s t
    started : is_init c ≡ true → (IsConsistent s → IsConsistent t) → Effect c s t

  structural-Effect :
      (c : Call W S) (message : String) (p : Mpc W S) (change : Result (Settings W)) {q : Mpc W S}
      → Set.structural message p change ≡ ok q
      → ((s : Settings W) → change ≡ ok s → IsConsistent p.settings → IsConsistent s)
      → Effect c p.settings q.settings
  structural-Effect c message p change h keep =
      let (z, (s, made, same)) = structural_lem message p change h in
      changed z (λ k. subst IsConsistent (sym same) (keep s made k))

  -- A setter of something else than the horizons and times.
  plain-Effect :
      (c : Call W S) (message : String) (p : Mpc W S) (t : Settings W) {q : Mpc W S}
      → Set.structural message p (ok t) ≡ ok q
      → (IsConsistent p.settings → IsConsistent t)
      → Effect c p.settings q.settings
  plain-Effect c message p t h keep =
      structural-Effect c message p (ok t) h (λ s e k. subst IsConsistent (ok-injective e) (keep k))

  kept_ok :
      (c : Call W S) (s : Settings W) (t q : Mpc W S)
      → ok t ≡ ok q
      → t.settings ≡ s
      → Effect c s q.settings
  kept_ok c s t q h same = kept (ap (λ k. k.settings) (sym (ok-injective h)) ∙ same)

  -- A setter behind two tests.
  two_tests :
      (c : Call W S) (a b : Bool) (e f : Error) (t q : Mpc W S)
      → (throw_if a e >> (throw_if b f >> ok t)) ≡ ok q
      → Effect c t.settings q.settings
  two_tests c a b e f t q h =
      let (z, h1) = throw_if-eq-ok a e (throw_if b f >> ok t) h in
      let (z2, h2) = throw_if-eq-ok b f (ok t) h1 in kept_ok c t.settings t q h2 refl

  module _ (solver : Solver W S) (eigen : EigenSolver W) (blank : S) where
    effect :
        (c : Call W S) (p q : Mpc W S)
        → perform solver eigen blank c p ≡ ok q
        → Effect c p.settings q.settings
    unfolding perform Set.set_q Set.set_r Set.set_s Set.set_w Set.set_x Set.set_goal_x
        Set.set_goal_u Set.set_obs Set.set_np Set.set_nc Set.set_max_int_iter_qp
        Set.set_max_ext_iter_qp Set.set_max_iter_sqp Set.set_max_obs Set.set_dt Set.set_t
        Set.set_cbf_gamma Set.set_max_solve_time Set.set_guess Set.set_warm_start Set.set_qp_type
        Set.set_u0 Set.set_pose init solve_candidate solve commit_candidate
    effect (set_q v) p q h =
        plain-Effect _ _ p _ h (λ k. record { ordered = k.ordered; timed = k.timed })
    effect (set_r v) p q h =
        plain-Effect _ _ p _ h (λ k. record { ordered = k.ordered; timed = k.timed })
    effect (set_s v) p q h =
        plain-Effect _ _ p _ h (λ k. record { ordered = k.ordered; timed = k.timed })
    effect (set_w v) p q h =
        plain-Effect _ _ p _ h (λ k. record { ordered = k.ordered; timed = k.timed })
    effect (set_max_int_iter_qp v) p q h =
        plain-Effect _ _ p _ h (λ k. record { ordered = k.ordered; timed = k.timed })
    effect (set_max_ext_iter_qp v) p q h =
        plain-Effect _ _ p _ h (λ k. record { ordered = k.ordered; timed = k.timed })
    effect (set_max_obs v) p q h =
        plain-Effect _ _ p _ h (λ k. record { ordered = k.ordered; timed = k.timed })
    effect (set_guess v) p q h =
        plain-Effect _ _ p _ h (λ k. record { ordered = k.ordered; timed = k.timed })
    effect (set_warm_start v) p q h =
        plain-Effect _ _ p _ h (λ k. record { ordered = k.ordered; timed = k.timed })
    effect (set_qp_type v) p q h =
        plain-Effect _ _ p _ h (λ k. record { ordered = k.ordered; timed = k.timed })
    effect (set_cbf_gamma v) p q h = structural-Effect _ _ p _ h λ s e k.
        let (z, same) = throw_if-eq-ok _ _ _ e in
        subst IsConsistent (ok-injective same) (record { ordered = k.ordered; timed = k.timed })
    effect (set_np v) p q h = structural-Effect _ _ p _ h (np_lem v p.settings)
    effect (set_nc v) p q h = structural-Effect _ _ p _ h (nc_lem v p.settings)
    effect (set_dt v) p q h = structural-Effect _ _ p _ h (dt_lem v p.settings)
    effect (set_t v) p q h = structural-Effect _ _ p _ h (t_lem v p.settings)
    effect (set_x v) p q h = kept_ok _ _ _ q h refl
    effect (set_obs v) p q h = kept_ok _ _ _ q h refl
    effect (set_max_iter_sqp v) p q h = kept_ok _ _ _ q h refl
    effect (set_max_solve_time v) p q h = kept_ok _ _ _ q h refl
    effect (set_u0 v) p q h = kept_ok _ _ _ q h refl
    effect (set_pose v) p q h = kept_ok _ _ _ q h refl
    effect (set_goal_x v) p q h =
        two_tests _ (ltb 0 p.settings.np && ltb v.rows (p.settings.np + 1))
          (ltb 0 p.settings.n && not (v.cols == p.settings.n))
          (invalid_argument "MPC::setGoalX: goal_x must have at least Np + 1 rows")
          (invalid_argument "MPC::setGoalX: goal_x must have n columns") (record p { goal_x = v }) q
          h
    effect (set_goal_u v) p q h =
        two_tests _ (ltb 0 p.settings.nc && ltb v.rows p.settings.nc)
          (ltb 0 p.settings.m && not (v.cols == p.settings.m))
          (invalid_argument "MPC::setGoalU: goal_u must have at least Nc rows")
          (invalid_argument "MPC::setGoalU: goal_u must have m columns") (record p { goal_u = v }) q
          h
    effect (init_with model) p q h = started refl (init_lem solver eigen blank model p h)
    effect (solve_candidate_at elapsed) p q h =
        kept_ok _ _ _ q h (((solve_candidate-keeps solver elapsed p).0).settings_eq)
    effect (solve_at elapsed) p q h = kept_ok _ _ _ q h (
        after_cycle-settings (solve_candidate solver elapsed p)
        ∙ ((solve_candidate-keeps solver elapsed p).0).settings_eq)
    effect commit p q h = kept_ok _ _ _ q h (commit-settings p)

    Effect-IsConsistent :
        (c : Call W S) (s t : Settings W) → Effect c s t → IsConsistent s → IsConsistent t
    Effect-IsConsistent c s t (kept same) k = subst IsConsistent (sym same) k
    Effect-IsConsistent c s t (changed off keep) k = keep k
    Effect-IsConsistent c s t (started init_call keep) k = keep k

    perform_all_lem :
        (calls : List (Call W S)) (p q : Mpc W S)
        → IsConsistent p.settings
        → perform_all solver eigen blank calls p ≡ ok q
        → IsConsistent q.settings
    unfolding perform_all
    perform_all_lem [] p q k h = subst (λ m. IsConsistent m.settings) (ok-injective h) k
    perform_all_lem (c ∷ cs) p q k h =
        let (r, first, rest) =
          >>=-eq-ok (perform solver eigen blank c p) (perform_all solver eigen blank cs) h in
        perform_all_lem cs r q (Effect-IsConsistent c p.settings r.settings (effect c p r first) k)
          rest

    -- From a new object on, whatever sequence of calls was accepted: Nc <= Np once Np is set, and once Np
    -- is set and the horizon T is above zero, of the sample time and T one is computed from the other.
    pub perform_all-IsConsistent :
        (calls : List (Call W S)) (model : Plant W) (q : Mpc W S)
        → perform_all solver eigen blank calls (fresh blank model) ≡ ok q
        → IsConsistent q.settings
    unfolding fresh
    perform_all-IsConsistent calls model q h =
        perform_all_lem calls (fresh blank model) q
          (record { ordered = inr refl; timed = inl refl }) h

    -- After `init`, no call that is accepted changes the settings, except another `init`.
    pub perform-frozen :
        (c : Call W S) (p q : Mpc W S)
        → p.settings.initialized ≡ true
        → is_init c ≡ false
        → perform solver eigen blank c p ≡ ok q
        → q.settings ≡ p.settings
    perform-frozen c p q on other h = elim (effect c p q h) [
      | kept same ↦ same
      | changed off keep ↦ absurd (cc)
      | started init_call keep ↦ absurd (cc)
    ]
