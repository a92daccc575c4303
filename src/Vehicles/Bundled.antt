-- ===== src/Vehicles/Bundled.antt =====
-- prox_mpc_core/src/plugins.cpp: the models that are registered as plugins.
use prox_mpc.Base.{ℕ}
use prox_mpc.Base.Double.{Double}
use prox_mpc.Base.Cmath.{Cmath}
use prox_mpc.Vehicles.Parts.{Vehicle}
use prox_mpc.Vehicles.Unicycle.{unicycle}
use prox_mpc.Vehicles.RearAxle.{rear_axle}
use prox_mpc.Vehicles.FrontAxle.{front_axle, bicycle}

-- The classes that are exported, in the order of the file.
pub data Bundled : Type 0 where
  bicycle_front_axle_class bicycle_rear_axle_class bicycle_class unicycle_class : Bundled

-- How many states each has: x, y and yaw, and for a bicycle the steering angle.
abbrev pub states_of : Bundled → ℕ
states_of unicycle_class = 3
states_of _ = 4

module _ {ℓ} {W : Type ℓ} ⦃d : Double W⦄ ⦃r : Cmath W⦄ where
  abbrev pub vehicle_of : Bundled → Vehicle W
  vehicle_of bicycle_front_axle_class = front_axle
  vehicle_of bicycle_rear_axle_class = rear_axle
  vehicle_of bicycle_class = bicycle
  vehicle_of unicycle_class = unicycle
