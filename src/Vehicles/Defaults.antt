-- ===== src/Vehicles/Defaults.antt =====
-- A configure that finds none of its keys leaves the model as its constructor made it.
use Prim.Native.String.{String}
use prox_mpc.Base.{
  ℕ, suc, ◌≡◌, refl, sym, ap, ◌∙◌, false, Option, none, some, List, [], ◌∷◌, inl, inr, ltb, ◌==◌,
  Bool-cases, All, arith,
}
use prox_mpc.Base.Double.{Double}
use prox_mpc.Base.Result.{Result, ok, ◌>>=◌}
use prox_mpc.Model.Bounds.{Bound, Entries, Ineq, find, assign}
use prox_mpc.Model.State.{
  Model, Var, var_x, var_u, var_du, var_w, var_of, map_of, with_map, bounds, checked_var,
  replace_bound, update_ineq, override_bound, get_ineq, last_on,
}
use prox_mpc.Model.Dense.{Keys, le-find}
use prox_mpc.Model.Updates.{IsModel, HasBounds, WithinOf, replace_bound_lem, last_on-All}
use prox_mpc.Vehicles.Parts.{override_bounds, configure_wheelbase}
use prox_mpc.Vehicles.Unicycle.{unicycle_configure, unicycle_keys}
use prox_mpc.Vehicles.Bicycle.{bicycle_keys}
use prox_mpc.Vehicles.RearAxle.{rear_axle_configure, check_steer_bounds}
use prox_mpc.Vehicles.FrontAxle.{front_axle_configure}

-- Each key of the list names a variable.
abbrev IsNamed : String × ℕ × String × String → Type 0
IsNamed (var, idx, low, upp) = (v : Var) × (var_of var ≡ some v)

unicycle_keys-IsNamed : All IsNamed unicycle_keys
unfolding var_of
unicycle_keys-IsNamed = ((var_u, refl), ((var_u, refl), ((var_du, refl), ((var_du, refl), tt))))

bicycle_keys-IsNamed : All IsNamed bicycle_keys
unfolding var_of
bicycle_keys-IsNamed =
    ((var_x, refl), ((var_u, refl), ((var_u, refl), ((var_du, refl), ((var_du, refl), tt)))))

module _ {ℓ} {W : Type ℓ} where
  -- Writing to a key what it holds changes nothing, on a map with dense keys.
  assign-found :
      (s i : ℕ) (c : Bound W) (es : Entries W) → Keys s es → find i es ≡ some c → assign i c es ≡ es
  assign-found s i c [] h e = cc
  assign-found s i c ((k, b) ∷ es) h e = elim (Bool-cases (k == i)) [
    | inl at ↦ let same : some b ≡ some c = rw at at e in let key : k ≡ i = ground arith in rw at cc
    | inr past ↦
        let later : find i es ≡ some c = rw past at e in
        let above : ltb i k ≡ false = ground (arith, le-find (suc s) i es c h.1 later, h.0) in
        rw (past, above) (ap (λ l. (k, b) ∷ l) (assign-found (suc s) i c es h.1 later))
  ]

  with_map-same : (v : Var) (p : Model W) → with_map v (map_of v p) p ≡ p
  with_map-same var_x p = refl
  with_map-same var_u p = refl
  with_map-same var_du p = refl
  with_map-same var_w p = refl

module _ {ℓ} {W : Type ℓ} ⦃d : Double W⦄ where
  checked_var-ok :
      (var : String) (v : Var) (low upp : W)
      → var_of var ≡ some v
      → d.lt upp low ≡ false
      → checked_var var low upp ≡ ok v
  checked_var-ok var v low upp named ordered = rw (ordered, named) refl

  bounds-eta : (idx : ℕ) (c : Bound W) → c.idx ≡ idx → bounds idx c.low c.upp ≡ c
  bounds-eta idx c e = ap (λ i. bounds i c.low c.upp) (sym e)

  replace_bound-same :
      (Within : ℕ → Type 0) (idx : ℕ) (c : Bound W) (q : Ineq W)
      → HasBounds Within q
      → last_on idx q.entries none ≡ some c
      → (replace_bound (bounds idx c.low c.upp) q ≡ ok q) × (d.lt c.upp c.low ≡ false)
  replace_bound-same Within idx c q h e =
      let (on, within, ordered) =
        last_on-All Within idx q.entries none {c = c} h.entry (λ a impossible. cc) e in
      let (i, at, replaced, dense) = (replace_bound_lem (bounds idx c.low c.upp) q h.dense).1 c e in
      let kept : assign i (bounds idx c.low c.upp) q.entries ≡ q.entries =
        ap (λ b. assign i b q.entries) (bounds-eta idx c on)
        ∙ assign-found 0 i c q.entries h.dense.keys at in
      (replaced ∙ ap (λ es. ok (record q { entries = es })) kept, ordered)

  update_ineq-same :
      (var : String) (v : Var) (idx : ℕ) (c : Bound W) (p : Model W)
      → var_of var ≡ some v
      → IsModel p
      → last_on idx (map_of v p).entries none ≡ some c
      → update_ineq var idx c.low c.upp p ≡ ok p
  unfolding update_ineq
  update_ineq-same var v idx c p named model e =
      let (replaced, ordered) = replace_bound-same (WithinOf p v) idx c (map_of v p) (model v) e in
      rw (checked_var-ok var v c.low c.upp named ordered, replaced) (ap ok (with_map-same v p))

  get_ineq-named :
      (var : String) (v : Var) (p : Model W)
      → var_of var ≡ some v
      → get_ineq var p ≡ ok (map_of v p)
  unfolding get_ineq
  get_ineq-named var v p named = rw (named, get_ineq) refl

  -- What overrideBound does with the bound that it found.
  abbrev override_found : String → ℕ → Model W → Option (Bound W) → Result (Model W)
  override_found var idx p none = ok p
  override_found var idx p (some c) = update_ineq var idx c.low c.upp p

  override_found-same :
      (var : String) (v : Var) (idx : ℕ) (p : Model W) (found : Option (Bound W))
      → var_of var ≡ some v
      → IsModel p
      → last_on idx (map_of v p).entries none ≡ found
      → override_found var idx p found ≡ ok p
  override_found-same var v idx p none named model e = refl
  override_found-same var v idx p (some c) named model e =
      update_ineq-same var v idx c p named model e

  override_bound-empty :
      (var : String) (v : Var) (idx : ℕ) (low upp : String) (p : Model W)
      → var_of var ≡ some v
      → IsModel p
      → override_bound [] var idx low upp p ≡ ok p
  unfolding override_bound
  override_bound-empty var v idx low upp p named model =
      ap (λ r. r >>= λ q. override_found var idx p (last_on idx q.entries none))
        (get_ineq-named var v p named)
      ∙ override_found-same var v idx p (last_on idx (map_of v p).entries none) named model refl

  override_bounds-empty :
      (keys : List (String × ℕ × String × String)) (p : Model W)
      → All IsNamed keys
      → IsModel p
      → override_bounds [] keys p ≡ ok p
  unfolding override_bounds
  override_bounds-empty [] p named model = refl
  override_bounds-empty ((var, idx, low, upp) ∷ keys) p ((v, e), named) model =
      rw (override_bound-empty var v idx low upp p e model)
        (override_bounds-empty keys p named model)

  -- Configuring a model with an empty map of parameters is accepted and changes nothing, for each of
  -- the bundled models.
  pub configure-empty :
      (p : Model W)
      → IsModel p
      → (unicycle_configure [] p ≡ ok p)
        × (rear_axle_configure [] p ≡ ok p)
        × (front_axle_configure [] p ≡ ok p)
  unfolding unicycle_configure rear_axle_configure front_axle_configure configure_wheelbase
      check_steer_bounds
  configure-empty p model = (
    override_bounds-empty unicycle_keys p unicycle_keys-IsNamed model,
    override_bounds-empty bicycle_keys p bicycle_keys-IsNamed model,
    override_bounds-empty bicycle_keys p bicycle_keys-IsNamed model,
  )
