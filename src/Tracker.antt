-- ===== src/Tracker.antt =====
-- The obstacle tracker (prox_mpc_obstacle_tracker): its pure parts.
pub mod Clustering
pub mod Segments
pub mod Track
pub mod Association
pub mod Matching
pub mod Greedy
pub mod Gate
pub mod Kalman
pub mod Update
pub mod Roster
pub mod Refinement
pub mod Lifecycle
pub mod Runs
pub mod Ctrv
pub mod Imm
pub mod Synced
