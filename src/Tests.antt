-- ===== src/Tests.antt =====
-- Runs of the models at concrete values, and the properties at them.
mod Problem
mod ProxQp
mod Mpc
mod Model
mod Tracker
mod Naturals
mod Tracks
mod Vehicles
mod Controller
