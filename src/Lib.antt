-- ===== src/Lib.antt =====
-- prox_mpc: nonlinear model predictive control for mobile robots, by sequential quadratic
-- programming on proxsuite.
--
-- The parts of the program. `Model` declares a robot's dimensions and its inequality bounds, and the
-- bundled models fill it. `ProxQP` lays the quadratic sub-problem out, assembles it at an iterate,
-- and takes the increments out of proxsuite's solution. `MPC` owns a `ProxQP`, runs the SQP loop of
-- a cycle on a candidate plan, and retains the plan when it is committed. The Nav2 controller runs
-- one such cycle per period and sends a candidate's first control only past its gates, else it
-- brakes. Beside them, the obstacle tracker clusters the laser scan and follows the clusters.
--
-- Base: what the others share. `Double` and `Cmath` are records of what the code does with a
--   `double`. `Matrix` and `Linear` model Eigen's dense matrices, and a filler as the list of its
--   writes. `Result` models exceptions. `Sample` is an instance of `Double` for the tests.
-- Model: prox_mpc_core/src/model.cpp and include/prox_mpc/structs.hpp. `Model.Bounds` has the maps,
--   `Model.State` setN, setM, setIneq, updateIneq, getIneq and overrideBound; `Dense` and `Updates`
--   are the proofs.
-- ProxQp: prox_mpc_core/src/proxqp.cpp. Setters; `Init` is init with declarePattern; `Objective` is
--   setH and setc, `Dynamics` setE and setb, `Constraints` setC, `Bounds` setd, and `Solve` solve.
--   Proofs: `Layout`, `Blocks` and `Prepared` on the layout, `Ready`, `Within` and `Equalities` on
--   the bounds of the writes, `Rows` on setd, `Pattern` and `Sparsity` on the sparse structures,
--   `Handed` on what proxsuite is given, `Increments` on the solution.
-- Mpc: prox_mpc_core/src/mpc.cpp. Setters, `Init` (init, configProxQP), `Solve` (solveCandidate,
--   commitCandidate, solve) and `Calls`, the sequences of public calls. Proofs: `Configured` and
--   `Prepared` on init, `Rounds`, `Cycle` and `WarmStart` on the cycle, `Histories` on sequences of
--   calls.
-- Vehicles: prox_mpc_core/include/prox_mpc/models. `Parts` has the base class's defaults, `Twist`
--   and `PlanarMapping`, and `plant_of`, what ProxQP reads of a model; `Unicycle`, `RearAxle`,
--   `FrontAxle` and `Bicycle` the classes, `Bundled` those that src/plugins.cpp exports. `Built`,
--   `Declared`, `Plants` and `Initialized` are the proofs on construction, `Steering` and `Defaults`
--   on configure and the twists.
-- Tracker: prox_mpc_obstacle_tracker/src. clustering.cpp is `Clustering`, with the proofs in
--   `Segments`. tracker.cpp is `Track` (the state), `Association`, `Kalman` and `Update`;
--   imm_filter.cpp is `Ctrv` and `Imm`, which fills the interface `Estimator` of the tracker. Proofs:
--   `Matching`, `Greedy` and `Gate` on the association; `Roster` states the life cycle of the tracks
--   without their estimates, `Refinement` is the step that a scan makes on it, `Lifecycle` and `Runs`
--   its invariant; `Synced` is on the estimates.
-- Controller: prox_mpc_controller/src/prox_mpc_controller.cpp. `State` has the members, `Setup`
--   readModelMapping, readModelBounds, the speed limit, activate, reset, cancel and setPlan; `Brake`
--   the lambdas make_brake and fail of computeVelocityCommands, `Gates` its first checks and what
--   follows solveCandidate; `Path` where it projects the robot on the plan and chooses its direction.
--   Proofs: `Accepted` and `Failures` on the gates, `Ramp` on the deceleration, `Mapped` on the setup,
--   `Projection` on the plan and the direction.
-- Tests: the models at concrete values; `Naturals` has instances over the natural numbers.
--
-- Parameters. std::partial_sort is an argument of `cluster_points` and std::sort one of `associate`.
-- proxsuite's QP object is the record `ProxQp.Solver.Solver`, Eigen's eigenvalue solver is
-- `EigenSolver`, its inverse and determinant of a 2x2 matrix are `SmallMatrices`, nav2's costmap and
-- its footprint checker are `Costmap`, and the clock is the list of readings of a run. What the
-- properties assume of them stands with each: that partial_sort gives back clusters that it was
-- given, that std::sort orders and keeps its elements (`IsSort`), that a model's bounds name entries
-- of its vectors (proved for the bundled models), for declarePattern that NaN is NaN and that no
-- value filled in at the probe is, and for the ramp how double subtraction and addition round
-- (`IsRounded`). Of the order of doubles, project-IsNearest assumes that it is strict, predicted-held
-- that zero is at most zero, and choose_direction-cases that an arc length is not below itself.
--
-- Bounds and fuel. Sizes are natural numbers; `size_t` wraps around only in `Nc - 1` at Nc = 0,
-- which is written out, and the uint32_t identifiers of the tracks wrap around at 2^32. The int
-- counters of the tracks and of the controller count without a bound. The do-while loop of
-- solveCandidate gets max_iter_sqp + 1 rounds of fuel, one more than its counter lets it run; it is
-- related to a run of the loop without fuel, which only its own condition ends. A loop with a stride
-- gets as many rounds as its range is long, which is enough for a stride that is not zero. The other
-- loops are structural.
--
-- Not modelled: the object that an init leaves when it throws, and the getters that only read a
-- member. Of the controller, how a cycle samples its reference from the plan, settles at the goal,
-- lowers its speed near obstacles and fills the obstacle slots from the tracks and from the costmap,
-- and its parameters, transforms and publishers, which are calls of ROS. The tracker's node, which
-- only connects the tracker to ROS, the printing helpers, the benchmark and the demo.
pub mod Base
pub mod Model
pub mod ProxQp
pub mod Mpc
pub mod Tracker
pub mod Vehicles
pub mod Controller
mod Tests
