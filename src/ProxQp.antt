-- ===== src/ProxQp.antt =====
-- prox_mpc_core: include/prox_mpc/proxqp.hpp and src/proxqp.cpp, the QP sub-problem of one cycle.
pub mod State
pub mod Setters
pub mod Objective
pub mod Dynamics
pub mod Constraints
pub mod Bounds
pub mod Solver
pub mod Init
pub mod Solve
pub mod Layout
pub mod Blocks
pub mod Ready
pub mod Rows
pub mod Within
pub mod Equalities
pub mod Prepared
pub mod Pattern
pub mod Sparsity
pub mod Handed
pub mod Increments
