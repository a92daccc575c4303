-- ===== src/Model.antt =====
-- prox_mpc_core: include/prox_mpc/model.hpp, structs.hpp and src/model.cpp, the base class of the robot
-- models.
pub mod Bounds
pub mod State
pub mod Dense
pub mod Updates
