-- ===== src/Vehicles/Built.antt =====
-- What a constructor builds and what a configure accepts is a model, from which MPC::init takes its plant.
use Prim.Native.String.{String}
use prox_mpc.Base.{
  ℕ, ◌<◌, ◌≡◌, refl, subst, ◌∙◌, none, List, [], ◌∷◌, inl, inr, Option-cases, arith,
}
use prox_mpc.Base.Double.{Double}
use prox_mpc.Base.Result.{ok, >>=-eq-ok, throw_if-eq-ok, ok-injective}
use prox_mpc.Model.Bounds.{Ineq}
use prox_mpc.Model.State.{
  Model, Var, var_x, var_u, var_du, var_w, map_of, with_map, out_of_dimension, bounds, checked_var,
  set_ineq, replace_bound, update_ineq, override_bound, get_ineq, last_on, param_or,
}
use prox_mpc.Model.Updates.{IsModel, set_ineq-IsModel, update_ineq-IsModel}
use prox_mpc.Vehicles.Parts.{declare_bounds, override_bounds}

module _ {ℓ} {W : Type ℓ} where
  -- The dimensions, the obstacle flag and the parameters.
  abbrev pub SameRobot : Model W → Model W → Type ℓ
  SameRobot p q = (q.n ≡ p.n) × (q.m ≡ p.m) × (q.obs_flag ≡ p.obs_flag) × (q.params ≡ p.params)

  SameRobot-trans : (p q s : Model W) → SameRobot p q → SameRobot q s → SameRobot p s
  SameRobot-trans p q s (a, b, c, e) (a', b', c', e') = (a' ∙ a, b' ∙ b, c' ∙ c, e' ∙ e)

  with_map-SameRobot : (v : Var) (q : Ineq W) (p : Model W) → SameRobot p (with_map v q p)
  with_map-SameRobot var_x q p = (refl, refl, refl, refl)
  with_map-SameRobot var_u q p = (refl, refl, refl, refl)
  with_map-SameRobot var_du q p = (refl, refl, refl, refl)
  with_map-SameRobot var_w q p = (refl, refl, refl, refl)

module _ {ℓ} {W : Type ℓ} ⦃d : Double W⦄ where
  set_ineq-SameRobot :
      (var : String) (idx : ℕ) (low upp : W) (p : Model W) {q : Model W}
      → set_ineq var idx low upp p ≡ ok q
      → SameRobot p q
  unfolding set_ineq
  set_ineq-SameRobot var idx low upp p h =
      let (v, checked, rest) = >>=-eq-ok (checked_var var low upp) _ h in
      let (inside, done) = throw_if-eq-ok (out_of_dimension v idx p) _ _ rest in
      subst (SameRobot p) (ok-injective done) (with_map-SameRobot v _ p)

  update_ineq-SameRobot :
      (var : String) (idx : ℕ) (low upp : W) (p : Model W) {q : Model W}
      → update_ineq var idx low upp p ≡ ok q
      → SameRobot p q
  unfolding update_ineq
  update_ineq-SameRobot var idx low upp p h =
      let (v, checked, rest) = >>=-eq-ok (checked_var var low upp) _ h in
      let (q, replaced, done) =
        >>=-eq-ok (replace_bound (bounds idx low upp) (map_of v p)) _ rest in
      subst (SameRobot p) (ok-injective done) (with_map-SameRobot v q p)

  override_bound-IsModel :
      (config : List (String × W)) (var : String) (idx : ℕ) (low upp : String) (p : Model W)
      {q : Model W}
      → override_bound config var idx low upp p ≡ ok q
      → IsModel p
      → IsModel q
  unfolding override_bound
  override_bound-IsModel config var idx low upp p {q} h model =
      let (es, got, rest) = >>=-eq-ok (get_ineq var p) _ h in
      elim (Option-cases (last_on idx es.entries none)) [
        | inl absent ↦ subst IsModel (ok-injective (rw absent at rest)) model
        | inr (c, present) ↦
            update_ineq-IsModel var idx (param_or low c.low config) (param_or upp c.upp config) p
              model (rw present at rest)
      ]

  -- An accepted list of overrides keeps every bound map dense, in dimension and ordered.
  pub override_bounds-IsModel :
      (config : List (String × W)) (keys : List (String × ℕ × String × String)) (p : Model W)
      {q : Model W}
      → override_bounds config keys p ≡ ok q
      → IsModel p
      → IsModel q
  unfolding override_bounds
  override_bounds-IsModel config [] p h model = subst IsModel (ok-injective h) model
  override_bounds-IsModel config ((var, idx, low, upp) ∷ keys) p {q} h model =
      let (s, first, rest) = >>=-eq-ok (override_bound config var idx low upp p) _ h in
      override_bounds-IsModel config keys s {q = q} rest
        (override_bound-IsModel config var idx low upp p {q = s} first model)

  override_bound-SameRobot :
      (config : List (String × W)) (var : String) (idx : ℕ) (low upp : String) (p : Model W)
      {q : Model W}
      → override_bound config var idx low upp p ≡ ok q
      → SameRobot p q
  unfolding override_bound
  override_bound-SameRobot config var idx low upp p {q} h =
      let (es, got, rest) = >>=-eq-ok (get_ineq var p) _ h in
      elim (Option-cases (last_on idx es.entries none)) [
        | inl absent ↦
            subst (SameRobot p) (ok-injective (rw absent at rest)) (refl, refl, refl, refl)
        | inr (c, present) ↦
            update_ineq-SameRobot var idx (param_or low c.low config) (param_or upp c.upp config) p
              (rw present at rest)
      ]

  -- An accepted list of overrides keeps the dimensions, the obstacle flag and the parameters.
  pub override_bounds-SameRobot :
      (config : List (String × W)) (keys : List (String × ℕ × String × String)) (p : Model W)
      {q : Model W}
      → override_bounds config keys p ≡ ok q
      → SameRobot p q
  unfolding override_bounds
  override_bounds-SameRobot config [] p h =
      subst (SameRobot p) (ok-injective h) (refl, refl, refl, refl)
  override_bounds-SameRobot config ((var, idx, low, upp) ∷ keys) p {q} h =
      let (s, first, rest) = >>=-eq-ok (override_bound config var idx low upp p) _ h in
      SameRobot-trans p s q (override_bound-SameRobot config var idx low upp p {q = s} first)
        (override_bounds-SameRobot config keys s {q = q} rest)

  pub declare_bounds-IsModel :
      (bs : List (String × ℕ × W × W)) (p : Model W) {q : Model W}
      → 0 < p.n
      → 0 < p.m
      → declare_bounds bs p ≡ ok q
      → IsModel p
      → IsModel q × SameRobot p q
  unfolding declare_bounds
  declare_bounds-IsModel [] p {q} n m h model =
      let same : p ≡ q = ok-injective h in
      (subst IsModel same model, subst (SameRobot p) same (refl, refl, refl, refl))
  declare_bounds-IsModel ((var, idx, low, upp) ∷ bs) p {q} n m h model =
      let (s, first, rest) = >>=-eq-ok (set_ineq var idx low upp p) _ h in
      let s_same = set_ineq-SameRobot var idx low upp p {q = s} first in
      let (q_model, q_same) =
        declare_bounds-IsModel bs s {q = q} (omega (arith, n, s_same.0))
          (omega (arith, m, s_same.1)) rest
          (set_ineq-IsModel var idx low upp p {q = s} n m model first) in
      (q_model, SameRobot-trans p s q s_same q_same)
