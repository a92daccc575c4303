-- ===== src/Vehicles/Plants.antt =====
-- The bundled models as the plants of ProxQP and MPC.
use Prim.Native.String.{String}
use prox_mpc.Base.{◌<◌, ◌≡◌, subst, true, List, [], ◌∷◌, arith}
use prox_mpc.Base.Double.{Double, nought, one, two, ◌⊘◌}
use prox_mpc.Base.Cmath.{Cmath}
use prox_mpc.Base.Result.{ok, >>=-eq-ok, ok-injective}
use prox_mpc.Model.State.{Model, set_n, set_m}
use prox_mpc.ProxQp.State.{Plant}
use prox_mpc.ProxQp.Ready.{IsPlant}
use prox_mpc.Vehicles.Parts.{entries, configure_wheelbase, plant_of}
use prox_mpc.Vehicles.Unicycle.{
  unicycle, unicycle_keys, unicycle_bounds, unicycle_build, unicycle_configure,
}
use prox_mpc.Vehicles.Bicycle.{bicycle_build, bicycle_bounds, bicycle_keys}
use prox_mpc.Vehicles.RearAxle.{rear_axle, rear_axle_build, rear_axle_configure, check_steer_bounds}
use prox_mpc.Vehicles.FrontAxle.{front_axle, front_axle_build, front_axle_configure, bicycle}
use prox_mpc.Vehicles.Bundled.{
  Bundled, bicycle_front_axle_class, bicycle_rear_axle_class, bicycle_class, unicycle_class,
  vehicle_of, states_of,
}
use prox_mpc.Vehicles.Declared.{
  IsBuilt, IsVehicle, plant_of-IsPlant, with_name-IsModel, configure_wheelbase-IsBuilt,
  override_bounds-IsBuilt, declared-IsBuilt,
}

some_state : (k : Bundled) → 0 < states_of k
some_state bicycle_front_axle_class = omega arith
some_state bicycle_rear_axle_class = omega arith
some_state bicycle_class = omega arith
some_state unicycle_class = omega arith

module _ {ℓ} {W : Type ℓ} ⦃d : Double W⦄ where
  pub unicycle-IsVehicle : IsVehicle (unicycle {W = W}) 3
  unfolding unicycle unicycle_build unicycle_configure set_n set_m
  unicycle-IsVehicle = record {
    built = λ p h.
        declared-IsBuilt unicycle_bounds "unicycle" 3 (entries (nought ∷ [])) {q = p} h
          (omega arith);
    configured =
        λ config p q built h. override_bounds-IsBuilt config unicycle_keys 3 p {q = q} h built;
  }

  pub rear_axle-IsVehicle : IsVehicle (rear_axle {W = W}) 4
  unfolding rear_axle rear_axle_build bicycle_build rear_axle_configure set_n set_m
  rear_axle-IsVehicle = record {
    built = λ p h.
        declared-IsBuilt (bicycle_bounds one) "bicycle_rear_axle" 4
          (entries ((d.of_nat 16 ⊘ d.of_nat 10) ∷ [])) {q = p} h (omega arith);
    configured = λ config p q built h.
        let (s, wheels, rest) = >>=-eq-ok (configure_wheelbase _ config p) _ h in
        let (u, checked, last) = >>=-eq-ok (check_steer_bounds config) _ rest in
        override_bounds-IsBuilt config bicycle_keys 4 s {q = q} last
          (configure_wheelbase-IsBuilt _ config 4 p {q = s} wheels built);
  }

module _ {ℓ} {W : Type ℓ} ⦃d : Double W⦄ ⦃r : Cmath W⦄ where
  pub front_axle-IsVehicle : IsVehicle (front_axle {W = W}) 4
  unfolding front_axle front_axle_build bicycle_build front_axle_configure set_n set_m
  front_axle-IsVehicle = record {
    built = λ p h.
        declared-IsBuilt (bicycle_bounds (r.pi ⊘ two)) "bicycle_front_axle" 4
          (entries ((d.of_nat 16 ⊘ d.of_nat 10) ∷ [])) {q = p} h (omega arith);
    configured = λ config p q built h.
        let (s, wheels, last) = >>=-eq-ok (configure_wheelbase _ config p) _ h in
        override_bounds-IsBuilt config bicycle_keys 4 s {q = q} last
          (configure_wheelbase-IsBuilt _ config 4 p {q = s} wheels built);
  }

  pub bicycle-IsVehicle : IsVehicle (bicycle {W = W}) 4
  unfolding bicycle front_axle
  bicycle-IsVehicle = record {
    built = λ p h.
        let (s, made, done) = >>=-eq-ok front_axle_build _ h in
        let (n, m, flag, model) = front_axle-IsVehicle.built s made in
        subst (IsBuilt 4) (ok-injective done) (n, m, flag, with_name-IsModel s "bicycle" model);
    configured = front_axle-IsVehicle.configured;
  }

  bundled-IsVehicle : (k : Bundled) → IsVehicle (vehicle_of {W = W} k) (states_of k)
  bundled-IsVehicle bicycle_front_axle_class = front_axle-IsVehicle
  bundled-IsVehicle bicycle_rear_axle_class = rear_axle-IsVehicle
  bundled-IsVehicle bicycle_class = bicycle-IsVehicle
  bundled-IsVehicle unicycle_class = unicycle-IsVehicle

  -- Each of the four bundled models, once its constructor and a configure with any parameters have
  -- returned, reads back without a missing key as a plant whose bounds name entries of its vectors; it
  -- has three states for the unicycle and four for the bicycles, two controls, and avoids obstacles.
  pub configured-IsPlant :
      (k : Bundled) (config : List (String × W)) (p q : Model W)
      → (vehicle_of k).build ≡ ok p
      → (vehicle_of k).configure config p ≡ ok q
      → (plant : Plant W) × (plant_of (vehicle_of k) q ≡ ok plant)
        × IsPlant plant
        × (plant.n ≡ states_of k)
        × (plant.m ≡ 2)
        × (plant.obs_flag ≡ true)
  configured-IsPlant k config p q made set =
      let h = bundled-IsVehicle k in
      plant_of-IsPlant (vehicle_of k) (states_of k) q (some_state k)
        (h.configured config p q (h.built p made) set)
