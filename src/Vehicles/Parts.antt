-- ===== src/Vehicles/Parts.antt =====
-- prox_mpc_core/include/prox_mpc/model.hpp: the virtual functions of a model, and what the bundled
-- models (prox_mpc_core/include/prox_mpc/models) build them from.
use Prim.Native.String.{String}
use prox_mpc.Base.{
  ℕ, ◌==◌, ◌&&◌, false, not, Option, none, some, List, [], ◌∷◌, ltb, if◌then◌else◌, get_or, length,
}
use prox_mpc.Base.Double.{Double, nought}
use prox_mpc.Base.Matrix.{Matrix, Vector, constant, vector_of}
use prox_mpc.Base.Result.{Result, ok, invalid_argument, throw_if, ◌>>=◌, ◌>>◌}
use prox_mpc.Model.Bounds.{Ineq, rows}
use prox_mpc.Model.State.{Model, set_ineq, override_bound, param}
use prox_mpc.ProxQp.State.{Plant}

-- geometry_msgs::msg::Twist
pub record Twist {ℓ} (W : Type ℓ) : Type ℓ where
  pub linear_x : W
  pub linear_y : W
  pub linear_z : W
  pub angular_x : W
  pub angular_y : W
  pub angular_z : W

-- An index that is kNoIndex is none.
pub record PlanarMapping {ℓ} (W : Type ℓ) : Type ℓ where
  pub idx_x : ℕ
  pub idx_y : ℕ
  pub idx_yaw : ℕ
  pub idx_speed : ℕ
  pub idx_steering : Option ℕ
  pub idx_steer_rate : Option ℕ
  pub ref_offset_x : W
  pub ref_offset_y : W
  pub wheelbase : W

-- A concrete model: its constructor and its overrides of the virtual functions.
pub record Vehicle {ℓ} (W : Type ℓ) : Type ℓ where
  pub build : Result (Model W)
  pub configure : List (String × W) → Model W → Result (Model W)
  pub planar_mapping : Model W → PlanarMapping W
  pub to_twist : Model W → Vector W → Twist W
  pub from_twist : Model W → Twist W → Vector W
  pub update_c : W → Vector W → Model W → Model W
  pub update_a : W → Model W → Model W
  pub update_b : Model W → Model W

module _ {ℓ} {W : Type ℓ} ⦃d : Double W⦄ where
  abbrev pub empty_map : Ineq W
  empty_map = record { entries = []; map_idx = 0 }

  -- Model::Model
  abbrev pub blank_model : Model W
  blank_model = record {
    name = "";
    n = 0;
    m = 0;
    params = vector_of 0 nought;
    x = vector_of 0 nought;
    u = vector_of 0 nought;
    a = constant 0 0 nought;
    b = constant 0 0 nought;
    c = vector_of 0 nought;
    ineq_x = empty_map;
    ineq_u = empty_map;
    ineq_du = empty_map;
    ineq_w = empty_map;
    obs_flag = false;
  }

  -- A vector and a matrix by their entries, as the comma initialiser takes them.
  abbrev pub entries : List W → Vector W
  entries es = record { size = length es; get = λ i. get_or es i nought }

  abbrev pub table : ℕ → List (List W) → Matrix W
  table cols rs = record {
    rows = length rs;
    cols = cols;
    at = λ i j. get_or (get_or rs i []) j nought;
  }

  -- The calls of setIneq that a constructor makes, in order.
  unfoldable pub declare_bounds : List (String × ℕ × W × W) → Model W → Result (Model W)
  declare_bounds [] p = ok p
  declare_bounds ((var, idx, low, upp) ∷ bs) p =
      set_ineq var idx low upp p >>= λ q. declare_bounds bs q

  -- The calls of overrideBound that a configure makes, in order.
  unfoldable pub override_bounds :
      List (String × W) → List (String × ℕ × String × String) → Model W → Result (Model W)
  override_bounds config [] p = ok p
  override_bounds config ((var, idx, low, upp) ∷ bs) p =
      override_bound config var idx low upp p >>= λ q. override_bounds config bs q

  -- The wheelbase of a configure: it divides the Jacobians, so it must be positive.
  unfoldable pub configure_wheelbase : String → List (String × W) → Model W → Result (Model W)
  configure_wheelbase message config p = elim (param "L" config) [
    | none ↦ ok p
    | some l ↦
        throw_if (not (d.lt nought l)) (invalid_argument message)
        >> ok (record p { params = entries (l ∷ []) })
  ]

  abbrev pub still : Twist W
  still = record {
    linear_x = nought;
    linear_y = nought;
    linear_z = nought;
    angular_x = nought;
    angular_y = nought;
    angular_z = nought;
  }

  -- The defaults of getPlanarMapping, toTwist and fromTwist.
  unfoldable pub default_mapping : Model W → PlanarMapping W
  default_mapping p =
      let steers = ltb 3 p.n in
      record {
        idx_x = 0;
        idx_y = 1;
        idx_yaw = 2;
        idx_speed = 0;
        idx_steering = if steers then some 3 else none;
        idx_steer_rate = if steers then (if ltb 1 p.m then some 1 else none) else none;
        ref_offset_x = nought;
        ref_offset_y = nought;
        wheelbase = nought;
      }

  unfoldable pub default_to_twist : Model W → Vector W → Twist W
  default_to_twist p u = record still {
    linear_x = if ltb 0 u.size then u.get 0 else nought;
    angular_z = if ltb 1 u.size then u.get 1 else nought;
  }

  -- A channel that the twist does not determine is NaN.
  unfoldable pub default_from_twist : Model W → Twist W → Vector W
  default_from_twist p t = record {
    size = p.m;
    get = λ i.
        if (i == 0) && ltb 0 p.m
        then t.linear_x
        else if (i == 1) && ltb 1 p.m
        then t.angular_z
        else d.nan;
  }

  -- What ProxQP and MPC read of a model: its bounds by key, and its matrices and residual after
  -- setX, setU and the update.
  unfoldable pub plant_of : Vehicle W → Model W → Result (Plant W)
  unfolding rows
  plant_of v p = do
    xs ← rows p.ineq_x
    us ← rows p.ineq_u
    dus ← rows p.ineq_du
    ok (record {
      n = p.n;
      m = p.m;
      obs_flag = p.obs_flag;
      idx_x = (v.planar_mapping p).idx_x;
      idx_y = (v.planar_mapping p).idx_y;
      ineq_x = xs;
      ineq_u = us;
      ineq_du = dus;
      state_matrix = λ dt x u. (v.update_a dt (record p { x = x; u = u })).a.at;
      control_matrix = λ x u. (v.update_b (record p { x = x; u = u })).b.at;
      residual = λ dt x u x_next. (v.update_c dt x_next (record p { x = x; u = u })).c.get;
    })
