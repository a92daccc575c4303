-- ===== src/Controller.antt =====
-- The Nav2 controller (prox_mpc_controller): its setup, its deceleration ramp and its gates.
pub mod State
pub mod Brake
pub mod Gates
pub mod Setup
pub mod Accepted
pub mod Failures
pub mod Mapped
pub mod Ramp
pub mod Path
pub mod Projection
