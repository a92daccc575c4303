-- ===== src/Vehicles.antt =====
-- The bundled vehicle models (prox_mpc_core/include/prox_mpc/models).
pub mod Parts
pub mod Unicycle
pub mod Bicycle
pub mod RearAxle
pub mod FrontAxle
pub mod Bundled
pub mod Built
pub mod Declared
pub mod Plants
pub mod Steering
pub mod Defaults
pub mod Initialized
