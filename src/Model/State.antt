-- ===== src/Model/State.antt =====
-- `class Model`: its members, setters, and the operations on the inequality bounds.
use Prim.Native.String.{String}
use text.Mathlib.Text.{◌==◌ as str_eq}
use prox_mpc.Base.{
  ℕ, Bool, ◌&&◌, Option, none, some, List, [], ◌∷◌, ◌==◌, ltb, leb, if◌then◌else◌, length,
}
use prox_mpc.Base.Double.{Double, nought}
use prox_mpc.Base.Matrix.{Matrix, Vector, vector_of}
use prox_mpc.Base.Result.{Result, ok, thrown, invalid_argument, throw_if, ◌>>=◌, ◌>>◌}
use prox_mpc.Model.Bounds.{Bound, Entries, Ineq, assign, append_bound, scan}

pub record Model {ℓ} (W : Type ℓ) : Type ℓ where
  pub name : String
  pub n : ℕ
  pub m : ℕ
  pub params : Vector W
  pub x : Vector W
  pub u : Vector W
  pub a : Matrix W
  pub b : Matrix W
  pub c : Vector W
  pub ineq_x : Ineq W
  pub ineq_u : Ineq W
  pub ineq_du : Ineq W
  pub ineq_w : Ineq W
  pub obs_flag : Bool

-- The names that `var` may have.
pub data Var : Type 0 where
  var_x var_u var_du var_w : Var

unfoldable pub var_of : String → Option Var
var_of s =
    if str_eq s "x"
    then some var_x
    else if str_eq s "u"
    then some var_u
    else if str_eq s "du"
    then some var_du
    else if str_eq s "w"
    then some var_w
    else none

module _ {ℓ} {W : Type ℓ} where
  -- getIneq
  abbrev pub map_of : Var → Model W → Ineq W
  map_of var_x p = p.ineq_x
  map_of var_u p = p.ineq_u
  map_of var_du p = p.ineq_du
  map_of var_w p = p.ineq_w

  unfoldable pub get_ineq : String → Model W → Result (Ineq W)
  unfolding var_of
  get_ineq var p = elim (var_of var) [
    | none ↦ thrown (invalid_argument "Model::getIneq: var must be 'x', 'u', 'du' or 'w'")
    | some v ↦ ok (map_of v p)
  ]

  abbrev pub with_map : Var → Ineq W → Model W → Model W
  with_map var_x q p = record p { ineq_x = q }
  with_map var_u q p = record p { ineq_u = q }
  with_map var_du q p = record p { ineq_du = q }
  with_map var_w q p = record p { ineq_w = q }

  unfoldable pub set_obs_avoid : Bool → Model W → Model W
  set_obs_avoid flag p = record p { obs_flag = flag }

  -- The dimension that bounds idx_vec; a bound on the slack has none.
  abbrev pub out_of_dimension : Var → ℕ → Model W → Bool
  out_of_dimension var_x idx p = ltb 0 p.n && leb p.n idx
  out_of_dimension var_u idx p = ltb 0 p.m && leb p.m idx
  out_of_dimension var_du idx p = ltb 0 p.m && leb p.m idx
  out_of_dimension var_w idx p = Bool.false

  -- config_params.count(key) > 0, and config_params.at(key)
  abbrev pub param : String → List (String × W) → Option W
  param key [] = none
  param key ((k, v) ∷ ps) = if str_eq k key then some v else param key ps

  abbrev pub param_or : String → W → List (String × W) → W
  param_or key old ps = elim (param key ps) [ none ↦ old | some v ↦ v ]

  -- The last entry on idx_vec in key order.
  abbrev pub last_on : ℕ → Entries W → Option (Bound W) → Option (Bound W)
  last_on idx [] found = found
  last_on idx ((k, c) ∷ es) found = last_on idx es (if c.idx == idx then some c else found)

module _ {ℓ} {W : Type ℓ} ⦃d : Double W⦄ where
  unfoldable pub set_n : ℕ → Model W → Result (Model W)
  set_n new_n p = do
    throw_if (new_n == 0) (invalid_argument "Model::setN: n must be > 0")
    ok (record p { n = new_n; x = vector_of new_n nought })

  unfoldable pub set_m : ℕ → Model W → Result (Model W)
  set_m new_m p = do
    throw_if (new_m == 0) (invalid_argument "Model::setM: m must be > 0")
    ok (record p { m = new_m; u = vector_of new_m nought })

  abbrev pub bounds : ℕ → W → W → Bound W
  bounds idx low upp = record { idx = idx; low = low; upp = upp }

  -- Both operations check the order of the two bounds first, then the name.
  abbrev pub checked_var : String → W → W → Result Var
  checked_var var low upp =
      throw_if (d.lt upp low) (invalid_argument "Model: low must be <= upp") >> elim (var_of var) [
        | none ↦ thrown (invalid_argument "Model: var must be 'x', 'u', 'du' or 'w'")
        | some v ↦ ok v
      ]

  unfoldable pub set_ineq : String → ℕ → W → W → Model W → Result (Model W)
  unfolding var_of append_bound
  set_ineq var idx low upp p = do
    v ← checked_var var low upp
    throw_if (out_of_dimension v idx p) (invalid_argument "Model::setIneq: idx_vec out of range")
    ok (with_map v (append_bound (bounds idx low upp) (map_of v p)) p)

  -- On the map of one variable.
  unfoldable pub replace_bound : Bound W → Ineq W → Result (Ineq W)
  unfolding scan
  replace_bound b q = scan q.entries b.idx (length q.entries) 0 none >>= λ found. elim found [
    | none ↦ thrown (invalid_argument "Model::updateIneq: no existing bound for idx_vec")
    | some i ↦ ok (record q { entries = assign i b q.entries })
  ]

  unfoldable pub update_ineq : String → ℕ → W → W → Model W → Result (Model W)
  unfolding var_of replace_bound
  update_ineq var idx low upp p = do
    v ← checked_var var low upp
    q ← replace_bound (bounds idx low upp) (map_of v p)
    ok (with_map v q p)

  -- A bound that is not declared is left alone; an absent key keeps its side.
  unfoldable pub override_bound :
      List (String × W) → String → ℕ → String → String → Model W → Result (Model W)
  unfolding get_ineq update_ineq
  override_bound config var idx key_low key_upp p = get_ineq var p >>= λ q.
      elim (last_on idx q.entries none) [
        | none ↦ ok p
        | some c ↦
            update_ineq var idx (param_or key_low c.low config) (param_or key_upp c.upp config) p
      ]
