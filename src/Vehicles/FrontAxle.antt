-- ===== src/Vehicles/FrontAxle.antt =====
-- prox_mpc_core/include/prox_mpc/models/bicycle_front_axle.hpp, and bicycle.hpp, which renames it.
use Prim.Native.String.{String}
use prox_mpc.Base.{some, List, [], ◌∷◌, if◌then◌else◌}
use prox_mpc.Base.Double.{Double, ◌⊕◌, ◌⊖◌, ◌⊗◌, ◌⊘◌, nought, one, two}
use prox_mpc.Base.Cmath.{Cmath}
use prox_mpc.Base.Matrix.{Vector}
use prox_mpc.Base.Result.{Result, ok, ◌>>=◌}
use prox_mpc.Model.State.{Model}
use prox_mpc.Vehicles.Parts.{
  Twist, PlanarMapping, Vehicle, entries, table, still, override_bounds, configure_wheelbase,
}
use prox_mpc.Vehicles.Bicycle.{bicycle_keys, bicycle_build}

module _ {ℓ} {W : Type ℓ} ⦃d : Double W⦄ ⦃r : Cmath W⦄ where
  -- The steering angle's bound is M_PI / 2.
  unfoldable pub front_axle_build : Result (Model W)
  unfolding bicycle_build
  front_axle_build = bicycle_build "bicycle_front_axle" (r.pi ⊘ two)

module _ {ℓ} {W : Type ℓ} ⦃d : Double W⦄ where
  unfoldable pub front_axle_configure : List (String × W) → Model W → Result (Model W)
  unfolding configure_wheelbase override_bounds
  front_axle_configure config p = do
    q ← configure_wheelbase "BicycleFrontAxle::configure: L must be > 0" config p
    override_bounds config bicycle_keys q

  unfoldable pub front_axle_mapping : Model W → PlanarMapping W
  front_axle_mapping p = record {
    idx_x = 0;
    idx_y = 1;
    idx_yaw = 2;
    idx_speed = 0;
    idx_steering = some 3;
    idx_steer_rate = some 1;
    ref_offset_x = p.params.get 0;
    ref_offset_y = nought;
    wheelbase = p.params.get 0;
  }

  unfoldable pub front_axle_to_twist : Model W → Vector W → Twist W
  front_axle_to_twist p u = record still {
    linear_x = u.get 0 ⊗ d.cos (p.x.get 3);
    angular_z = (u.get 0 ⊗ d.sin (p.x.get 3)) ⊘ p.params.get 0;
  }

  unfoldable pub front_axle_from_twist : Model W → Twist W → Vector W
  front_axle_from_twist p t =
      let wheel_arc = t.angular_z ⊗ p.params.get 0 in
      let speed = d.sqrt ((t.linear_x ⊗ t.linear_x) ⊕ (wheel_arc ⊗ wheel_arc)) in
      entries ((if d.lt t.linear_x nought then d.neg speed else speed) ∷ d.nan ∷ [])

  unfoldable pub front_axle_update_c : W → Vector W → Model W → Model W
  front_axle_update_c dt x_next p =
      let v = p.u.get 0 in
      let heading = p.x.get 2 ⊕ p.x.get 3 in
      record p {
        c = entries (
            ((p.x.get 0 ⊖ x_next.get 0) ⊕ ((dt ⊗ v) ⊗ d.cos heading))
            ∷ ((p.x.get 1 ⊖ x_next.get 1) ⊕ ((dt ⊗ v) ⊗ d.sin heading))
            ∷ ((p.x.get 2 ⊖ x_next.get 2) ⊕ (((dt ⊗ v) ⊗ d.sin (p.x.get 3)) ⊘ p.params.get 0))
            ∷ ((p.x.get 3 ⊖ x_next.get 3) ⊕ (dt ⊗ p.u.get 1))
            ∷ []);
      }

  unfoldable pub front_axle_update_a : W → Model W → Model W
  front_axle_update_a dt p =
      let v = p.u.get 0 in
      let heading = p.x.get 2 ⊕ p.x.get 3 in
      let down = (d.neg dt ⊗ v) ⊗ d.sin heading in
      let up = (dt ⊗ v) ⊗ d.cos heading in
      record p {
        a = table 4 (
            (one ∷ nought ∷ down ∷ down ∷ [])
            ∷ (nought ∷ one ∷ up ∷ up ∷ [])
            ∷ (nought ∷ nought ∷ one ∷ (((dt ⊗ v) ⊗ d.cos (p.x.get 3)) ⊘ p.params.get 0) ∷ [])
            ∷ (nought ∷ nought ∷ nought ∷ one ∷ [])
            ∷ []);
      }

  unfoldable pub front_axle_update_b : Model W → Model W
  front_axle_update_b p =
      let heading = p.x.get 2 ⊕ p.x.get 3 in
      record p {
        b = table 2 (
            (d.cos heading ∷ nought ∷ [])
            ∷ (d.sin heading ∷ nought ∷ [])
            ∷ ((d.sin (p.x.get 3) ⊘ p.params.get 0) ∷ nought ∷ [])
            ∷ (nought ∷ one ∷ [])
            ∷ []);
      }

module _ {ℓ} {W : Type ℓ} ⦃d : Double W⦄ ⦃r : Cmath W⦄ where
  unfoldable pub front_axle : Vehicle W
  unfolding front_axle_build front_axle_configure front_axle_mapping front_axle_to_twist
      front_axle_from_twist front_axle_update_c front_axle_update_a front_axle_update_b
  front_axle = record {
    build = front_axle_build;
    configure = front_axle_configure;
    planar_mapping = front_axle_mapping;
    to_twist = front_axle_to_twist;
    from_twist = front_axle_from_twist;
    update_c = front_axle_update_c;
    update_a = front_axle_update_a;
    update_b = front_axle_update_b;
  }

  -- class Bicycle: the front axle's constructor, then setName; the warning is not modelled.
  unfoldable pub bicycle : Vehicle W
  unfolding front_axle
  bicycle = record front_axle {
    build = front_axle_build >>= λ p. ok (record p { name = "bicycle" });
  }
