-- ===== src/Mpc.antt =====
-- `class MPC` (prox_mpc_core/include/prox_mpc/mpc.hpp, prox_mpc_core/src/mpc.cpp).
pub mod State
pub mod Setters
pub mod Init
pub mod Solve
pub mod Rounds
pub mod Cycle
pub mod WarmStart
pub mod Configured
pub mod Prepared
pub mod Calls
pub mod Histories
