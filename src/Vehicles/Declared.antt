-- ===== src/Vehicles/Declared.antt =====
-- What the constructors and configures of the bundled models have in common: the shape of the model.
use Prim.Native.String.{String}
use prox_mpc.Base.{
  ℕ, ◌<◌, ◌≡◌, ◌∙◌, refl, sym, subst, Bool, true, false, not, List, [], ◌∷◌, map, inl, inr,
  Option-cases, All, arith,
}
use prox_mpc.Base.Double.{Double, nought}
use prox_mpc.Base.Matrix.{Vector, vector_of, constant}
use prox_mpc.Base.Result.{ok, ◌>>=◌, >>=-eq-ok, throw_if-eq-ok, ok-injective}
use prox_mpc.Model.Bounds.{Bound, Ineq}
use prox_mpc.Model.State.{Model, var_x, var_u, var_du, var_w, set_obs_avoid, param}
use prox_mpc.Model.Dense.{rows-ok}
use prox_mpc.Model.Updates.{IsModel, HasBounds}
use prox_mpc.ProxQp.State.{Plant}
use prox_mpc.ProxQp.Ready.{IsPlant}
use prox_mpc.Vehicles.Parts.{
  Vehicle, blank_model, empty_map, entries, declare_bounds, override_bounds, configure_wheelbase,
  plant_of,
}
use prox_mpc.Vehicles.Built.{
  override_bounds-SameRobot, override_bounds-IsModel, declare_bounds-IsModel,
}

module _ {ℓ} {W : Type ℓ} ⦃d : Double W⦄ where
  -- A model of k states and two controls that avoids obstacles, and whose bound maps have their bounds.
  abbrev pub IsBuilt : ℕ → Model W → Type 0
  IsBuilt k p = (p.n ≡ k) × (p.m ≡ 2) × (p.obs_flag ≡ true) × IsModel p

  -- What every bundled model keeps to.
  pub record IsVehicle (v : Vehicle W) (k : ℕ) : Type ℓ where
    pub built : (p : Model W) → v.build ≡ ok p → IsBuilt k p
    pub configured :
        (config : List (String × W)) (p q : Model W)
        → IsBuilt k p
        → v.configure config p ≡ ok q
        → IsBuilt k q

  indices :
      (Within : ℕ → Type 0) (es : List (ℕ × Bound W))
      → All (λ (e : ℕ × Bound W). Within e.1.idx × (d.lt e.1.upp e.1.low ≡ false)) es
      → All (λ b. Within b.idx) (map (λ (e : ℕ × Bound W). e.1) es)
  indices Within [] h = tt
  indices Within (e ∷ es) h = (h.0.0, indices Within es h.1)

  pub plant_of-IsPlant :
      (v : Vehicle W) (k : ℕ) (p : Model W)
      → 0 < k
      → IsBuilt k p
      → (plant : Plant W) × (plant_of v p ≡ ok plant)
        × IsPlant plant
        × (plant.n ≡ k)
        × (plant.m ≡ 2)
        × (plant.obs_flag ≡ true)
  unfolding plant_of
  plant_of-IsPlant v k p some_state (n, m, flag, model) =
      let hx = model var_x in
      let hu = model var_u in
      let hdu = model var_du in
      rw (rows-ok p.ineq_x hx.dense, rows-ok p.ineq_u hu.dense, rows-ok p.ineq_du hdu.dense)
        (
          _,
          refl,
          record {
            n_pos = omega (arith, n, some_state);
            m_pos = omega (arith, m);
            x_bounds = indices (λ i. i < p.n) p.ineq_x.entries hx.entry;
            u_bounds = indices (λ i. i < p.m) p.ineq_u.entries hu.entry;
            du_bounds = indices (λ i. i < p.m) p.ineq_du.entries hdu.entry;
          },
          n,
          m,
          flag,
        )

  empty-HasBounds : (Within : ℕ → Type 0) (q : Ineq W) → q ≡ empty_map → HasBounds Within q
  empty-HasBounds Within q e =
      subst (HasBounds Within) (sym e)
        (record { dense = record { keys = tt; next = refl }; entry = tt })

  -- Without bounds, whatever the dimensions.
  empty-IsModel :
      (p : Model W)
      → p.ineq_x ≡ empty_map
      → p.ineq_u ≡ empty_map
      → p.ineq_du ≡ empty_map
      → p.ineq_w ≡ empty_map
      → IsModel p
  empty-IsModel p ex eu edu ew var_x = empty-HasBounds (λ i. i < p.n) p.ineq_x ex
  empty-IsModel p ex eu edu ew var_u = empty-HasBounds (λ i. i < p.m) p.ineq_u eu
  empty-IsModel p ex eu edu ew var_du = empty-HasBounds (λ i. i < p.m) p.ineq_du edu
  empty-IsModel p ex eu edu ew var_w = empty-HasBounds (λ i. Unit) p.ineq_w ew

  -- The parameters, the name and the obstacle flag touch no bound.
  with_params-IsModel :
      (p : Model W) (ps : Vector W) → IsModel p → IsModel (record p { params = ps })
  with_params-IsModel p ps h var_x = h var_x
  with_params-IsModel p ps h var_u = h var_u
  with_params-IsModel p ps h var_du = h var_du
  with_params-IsModel p ps h var_w = h var_w

  pub with_name-IsModel :
      (p : Model W) (name : String) → IsModel p → IsModel (record p { name = name })
  with_name-IsModel p name h var_x = h var_x
  with_name-IsModel p name h var_u = h var_u
  with_name-IsModel p name h var_du = h var_du
  with_name-IsModel p name h var_w = h var_w

  with_obs_flag-IsModel :
      (p : Model W) (flag : Bool) → IsModel p → IsModel (record p { obs_flag = flag })
  with_obs_flag-IsModel p flag h var_x = h var_x
  with_obs_flag-IsModel p flag h var_u = h var_u
  with_obs_flag-IsModel p flag h var_du = h var_du
  with_obs_flag-IsModel p flag h var_w = h var_w

  pub configure_wheelbase-IsBuilt :
      (message : String) (config : List (String × W)) (k : ℕ) (p : Model W) {q : Model W}
      → configure_wheelbase message config p ≡ ok q
      → IsBuilt k p
      → IsBuilt k q
  unfolding configure_wheelbase
  configure_wheelbase-IsBuilt message config k p {q} h built =
      elim (Option-cases (param "L" config)) [
        | inl absent ↦
            subst (IsBuilt k) (ok-injective (rw (absent, configure_wheelbase) at h)) built
        | inr (l, present) ↦
            let accepted = rw (present, configure_wheelbase) at h in
            let (positive, done) = throw_if-eq-ok (not (d.lt nought l)) _ _ accepted in
            let (n, m, flag, model) = built in
            subst (IsBuilt k) (ok-injective done)
              (n, m, flag, with_params-IsModel p (entries (l ∷ [])) model)
      ]

  pub override_bounds-IsBuilt :
      (config : List (String × W)) (keys : List (String × ℕ × String × String)) (k : ℕ)
      (p : Model W) {q : Model W}
      → override_bounds config keys p ≡ ok q
      → IsBuilt k p
      → IsBuilt k q
  override_bounds-IsBuilt config keys k p {q} h (n, m, flag, model) =
      let (en, em, eflag, params) = override_bounds-SameRobot config keys p {q = q} h in
      (en ∙ n, em ∙ m, eflag ∙ flag, override_bounds-IsModel config keys p {q = q} h model)

  -- A model of these dimensions and parameters, without bounds.
  abbrev pub bare : String → ℕ → ℕ → Vector W → Model W
  bare name n m params = record blank_model {
    name = name;
    n = n;
    m = m;
    x = vector_of n nought;
    u = vector_of m nought;
    params = params;
    a = constant n n nought;
    b = constant n m nought;
    c = vector_of n nought;
  }

  -- The end of a constructor: bounds are declared on a model that has none, and the flag is set.
  pub declared-IsBuilt :
      (bs : List (String × ℕ × W × W)) (name : String) (k : ℕ) (params : Vector W) {q : Model W}
      → (declare_bounds bs (bare name k 2 params) >>= λ r. ok (set_obs_avoid true r)) ≡ ok q
      → 0 < k
      → IsBuilt k q
  unfolding set_obs_avoid
  declared-IsBuilt bs name k params {q} h some_state =
      let p = bare name k 2 params in
      let (r, declared, done) = >>=-eq-ok (declare_bounds bs p) _ h in
      let (r_model, (en, em, flag, same)) =
        declare_bounds-IsModel bs p {q = r} some_state (omega arith) declared
          (empty-IsModel p refl refl refl refl) in
      subst (IsBuilt k) (ok-injective done) (en, em, refl, with_obs_flag-IsModel r true r_model)
