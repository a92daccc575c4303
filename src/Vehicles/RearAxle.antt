-- ===== src/Vehicles/RearAxle.antt =====
-- prox_mpc_core/include/prox_mpc/models/bicycle_rear_axle.hpp
use Prim.Native.String.{String}
use prox_mpc.Base.{Bool, false, not, ◌||◌, none, some, List, [], ◌∷◌}
use prox_mpc.Base.Double.{Double, ◌⊕◌, ◌⊖◌, ◌⊗◌, ◌⊘◌, nought, one, abs}
use prox_mpc.Base.Matrix.{Vector}
use prox_mpc.Base.Result.{Result, invalid_argument, throw_if, ◌>>=◌, ◌>>◌}
use prox_mpc.Model.State.{Model, param}
use prox_mpc.Vehicles.Parts.{
  Twist, PlanarMapping, Vehicle, entries, table, still, override_bounds, configure_wheelbase,
}
use prox_mpc.Vehicles.Bicycle.{bicycle_keys, bicycle_build}

module _ {ℓ} {W : Type ℓ} ⦃d : Double W⦄ where
  -- kMaxSteerAngle is 1.0.
  unfoldable pub rear_axle_build : Result (Model W)
  unfolding bicycle_build
  rear_axle_build = bicycle_build "bicycle_rear_axle" one

  -- it != end && !std::isfinite(it->second)
  abbrev pub steer_bound_not_finite : List (String × W) → String → Bool
  steer_bound_not_finite config key = elim (param key config) [
    | none ↦ false
    | some v ↦ not (d.is_finite v)
  ]

  abbrev pub steer_bound_exceeded : List (String × W) → String → Bool
  steer_bound_exceeded config key = elim (param key config) [
    | none ↦ false
    | some v ↦ d.lt one (abs v)
  ]

  unfoldable pub check_steer_bounds : List (String × W) → Result (Unit {0})
  check_steer_bounds config = do
    throw_if
        (steer_bound_not_finite config "delta_min" || steer_bound_not_finite config "delta_max")
        (invalid_argument "BicycleRearAxle::configure: the steering-angle bound must be finite")
    throw_if (steer_bound_exceeded config "delta_min" || steer_bound_exceeded config "delta_max") (
        invalid_argument
          "BicycleRearAxle::configure: the steering-angle bound must not exceed 1.0 rad in magnitude")

  unfoldable pub rear_axle_configure : List (String × W) → Model W → Result (Model W)
  unfolding configure_wheelbase check_steer_bounds override_bounds
  rear_axle_configure config p = do
    q ← configure_wheelbase "BicycleRearAxle::configure: L must be > 0" config p
    checked ← check_steer_bounds config
    override_bounds config bicycle_keys q

  unfoldable pub rear_axle_mapping : Model W → PlanarMapping W
  rear_axle_mapping p = record {
    idx_x = 0;
    idx_y = 1;
    idx_yaw = 2;
    idx_speed = 0;
    idx_steering = some 3;
    idx_steer_rate = some 1;
    ref_offset_x = nought;
    ref_offset_y = nought;
    wheelbase = p.params.get 0;
  }

  unfoldable pub rear_axle_to_twist : Model W → Vector W → Twist W
  rear_axle_to_twist p u = record still {
    linear_x = u.get 0;
    angular_z = (u.get 0 ⊗ d.tan (p.x.get 3)) ⊘ p.params.get 0;
  }

  unfoldable pub rear_axle_from_twist : Model W → Twist W → Vector W
  rear_axle_from_twist p t = entries (t.linear_x ∷ d.nan ∷ [])

  unfoldable pub rear_axle_update_c : W → Vector W → Model W → Model W
  rear_axle_update_c dt x_next p =
      let v = p.u.get 0 in
      let theta = p.x.get 2 in
      record p {
        c = entries (
            ((p.x.get 0 ⊖ x_next.get 0) ⊕ ((dt ⊗ v) ⊗ d.cos theta))
            ∷ ((p.x.get 1 ⊖ x_next.get 1) ⊕ ((dt ⊗ v) ⊗ d.sin theta))
            ∷ ((p.x.get 2 ⊖ x_next.get 2) ⊕ (((dt ⊗ v) ⊗ d.tan (p.x.get 3)) ⊘ p.params.get 0))
            ∷ ((p.x.get 3 ⊖ x_next.get 3) ⊕ (dt ⊗ p.u.get 1))
            ∷ []);
      }

  unfoldable pub rear_axle_update_a : W → Model W → Model W
  rear_axle_update_a dt p =
      let v = p.u.get 0 in
      let theta = p.x.get 2 in
      let sec2 = one ⊘ (d.cos (p.x.get 3) ⊗ d.cos (p.x.get 3)) in
      record p {
        a = table 4 (
            (one ∷ nought ∷ ((d.neg dt ⊗ v) ⊗ d.sin theta) ∷ nought ∷ [])
            ∷ (nought ∷ one ∷ ((dt ⊗ v) ⊗ d.cos theta) ∷ nought ∷ [])
            ∷ (nought ∷ nought ∷ one ∷ (((dt ⊗ v) ⊗ sec2) ⊘ p.params.get 0) ∷ [])
            ∷ (nought ∷ nought ∷ nought ∷ one ∷ [])
            ∷ []);
      }

  unfoldable pub rear_axle_update_b : Model W → Model W
  rear_axle_update_b p =
      let theta = p.x.get 2 in
      record p {
        b = table 2 (
            (d.cos theta ∷ nought ∷ [])
            ∷ (d.sin theta ∷ nought ∷ [])
            ∷ ((d.tan (p.x.get 3) ⊘ p.params.get 0) ∷ nought ∷ [])
            ∷ (nought ∷ one ∷ [])
            ∷ []);
      }

  unfoldable pub rear_axle : Vehicle W
  unfolding rear_axle_build rear_axle_configure rear_axle_mapping rear_axle_to_twist
      rear_axle_from_twist rear_axle_update_c rear_axle_update_a rear_axle_update_b
  rear_axle = record {
    build = rear_axle_build;
    configure = rear_axle_configure;
    planar_mapping = rear_axle_mapping;
    to_twist = rear_axle_to_twist;
    from_twist = rear_axle_from_twist;
    update_c = rear_axle_update_c;
    update_a = rear_axle_update_a;
    update_b = rear_axle_update_b;
  }
