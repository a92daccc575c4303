-- ===== src/Tests/Vehicles.antt =====
-- The bundled models, built and configured on `Sample` values.
use Prim.Native.String.{String}
use prox_mpc.Base.{ℕ, ◌≡◌, refl, true, false, List, [], ◌∷◌, inr}
use prox_mpc.Base.Int.{pos, ◌-ℤ◌, ◌+ℤ◌, ◌*ℤ◌, ◌/ℤ◌}
use prox_mpc.Base.Sample.{Sample, num, sample_double, sample_cmath}
use prox_mpc.Base.Double.{one, abs}
use prox_mpc.Base.Matrix.{Vector}
use prox_mpc.Base.Result.{ok}
use prox_mpc.Model.State.{Model, set_n, set_m, set_ineq, set_obs_avoid, override_bound}
use prox_mpc.ProxQp.State.{Plant}
use prox_mpc.ProxQp.Ready.{IsPlant}
use prox_mpc.Mpc.State.{Mpc, fresh}
use prox_mpc.Mpc.Init.{init}
use prox_mpc.Mpc.Setters as Set
use prox_mpc.Mpc.Prepared.{IsInitialized}
use prox_mpc.Mpc.Calls.{perform_all}
use prox_mpc.Mpc.Calls as C
use prox_mpc.Vehicles.Parts.{Vehicle, still, blank_model, entries, plant_of}
use prox_mpc.Vehicles.Unicycle.{unicycle}
use prox_mpc.Vehicles.RearAxle.{rear_axle}
use prox_mpc.Vehicles.Bundled.{bicycle_rear_axle_class, unicycle_class}
use prox_mpc.Vehicles.Plants.{configured-IsPlant}
use prox_mpc.Vehicles.Steering.{rear_axle_configure-steering, unicycle-from_twist}
use prox_mpc.Vehicles.Initialized.{vehicle-IsInitialized}
use prox_mpc.Tests.Problem.{unit_solver, unit_eigen, value_or, empty, cart}

abbrev pub built : Vehicle Sample → Model Sample
built v = value_or v.build blank_model

abbrev configured_by : Vehicle Sample → List (String × Sample) → Model Sample
configured_by v config = value_or (v.configure config (built v)) blank_model

-- A wheelbase of 2 m and a steering bound of half a radian.
abbrev short_car : List (String × Sample)
short_car = ("L", num (pos 20)) ∷ ("delta_max", num (pos 5)) ∷ []

built_test : (built rear_axle).n ≡ 4
unfolding rear_axle ◌-ℤ◌ set_n set_m set_ineq set_obs_avoid override_bound
built_test = refl

configured_test : (configured_by rear_axle short_car).params.get 0 ≡ num (pos 20)
unfolding rear_axle ◌-ℤ◌ set_n set_m set_ineq set_obs_avoid override_bound
configured_test = refl

configured-IsPlant_example :
    (plant : Plant Sample) × (plant_of rear_axle (configured_by rear_axle short_car) ≡ ok plant)
    × IsPlant plant
    × (plant.n ≡ 4)
    × (plant.m ≡ 2)
    × (plant.obs_flag ≡ true)
unfolding rear_axle ◌-ℤ◌ set_n set_m set_ineq set_obs_avoid override_bound
configured-IsPlant_example =
    configured-IsPlant bicycle_rear_axle_class short_car (built rear_axle)
      (configured_by rear_axle short_car) refl refl

rear_axle_configure-steering_example :
    (sample_double.is_finite (num (pos 5)) ≡ true)
    × (sample_double.lt one (abs (num (pos 5))) ≡ false)
unfolding rear_axle ◌-ℤ◌ set_n set_m set_ineq set_obs_avoid override_bound
rear_axle_configure-steering_example =
    rear_axle_configure-steering short_car "delta_max" (num (pos 5)) (built rear_axle)
      (configured_by rear_axle short_car) (inr refl) refl refl

abbrev controls : Vector Sample
controls = entries (num (pos 7) ∷ num (pos 2) ∷ [])

unicycle-from_twist_example :
    ((unicycle.from_twist (built unicycle) (unicycle.to_twist (built unicycle) controls)).size ≡ 2)
    × ((unicycle.from_twist (built unicycle) (unicycle.to_twist (built unicycle) controls)).get 0
        ≡ num (pos 7))
    × ((unicycle.from_twist (built unicycle) (unicycle.to_twist (built unicycle) controls)).get 1
        ≡ num (pos 2))
    × (unicycle.to_twist (built unicycle) (unicycle.from_twist (built unicycle) still) ≡ still)
unfolding unicycle ◌-ℤ◌ set_n set_m set_ineq set_obs_avoid override_bound
unicycle-from_twist_example =
    unicycle-from_twist [] (built unicycle) (built unicycle) controls still refl refl refl

abbrev robot_plant : Plant Sample
robot_plant = value_or (plant_of unicycle (built unicycle)) cart

abbrev before_init : Mpc Sample ℕ
before_init =
    value_or
      (perform_all unit_solver unit_eigen 0
        (C.set_np 2 ∷ C.set_nc 2 ∷ C.set_dt one ∷ C.set_max_obs 1 ∷ []) empty)
      empty

abbrev after_init : Mpc Sample ℕ
after_init = value_or (init unit_solver unit_eigen 0 robot_plant before_init) before_init

vehicle-IsInitialized_example :
    IsInitialized robot_plant after_init × (after_init.proxqp.n ≡ 3) × (after_init.proxqp.m ≡ 2)
unfolding unicycle ◌-ℤ◌ set_n set_m set_ineq set_obs_avoid override_bound plant_of init ◌/ℤ◌ ◌*ℤ◌
    ◌+ℤ◌ perform_all fresh Set.set_np Set.set_nc Set.set_dt Set.set_max_obs
vehicle-IsInitialized_example =
    vehicle-IsInitialized unit_solver unit_eigen 0 unicycle_class [] (built unicycle)
      (built unicycle) robot_plant before_init after_init refl refl refl refl
