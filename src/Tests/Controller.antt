-- ===== src/Tests/Controller.antt =====
-- Cycles of the controller on natural numbers and on `Sample` values.
use Prim.Native.String.{String}
use prox_mpc.Base.{some, ℕ, ◌≡◌, refl, true, false, [], ◌∷◌, ◌⊎◌, List, arith}
use prox_mpc.Base.Int.{pos, ◌-ℤ◌, ◌+ℤ◌, ◌*ℤ◌, ◌/ℤ◌}
use prox_mpc.Base.Sample.{Sample, num, sample_double, sample_cmath}
use prox_mpc.Base.Double.{nought, one}
use prox_mpc.Base.Matrix.{Matrix, Vector, constant, vector_of, row_of}
use prox_mpc.Model.State.{set_n, set_m, set_ineq, set_obs_avoid}
use prox_mpc.Mpc.State.{fresh}
use prox_mpc.Vehicles.Parts.{blank_model, still}
use prox_mpc.ProxQp.State.{Plant}
use prox_mpc.Vehicles.Unicycle.{unicycle}
use prox_mpc.Vehicles.RearAxle.{rear_axle}
use prox_mpc.Controller.State.{Rig, Pilot, Controller, no_valid_control}
use prox_mpc.Controller.Brake.{Measured, brake_toward, brake_period}
use prox_mpc.Controller.Gates.{Costmap, finish_cycle}
use prox_mpc.Controller.Setup.{read_model_mapping}
use prox_mpc.Controller.Accepted.{IsAccepted, IsRefused, finish_cycle-cases}
use prox_mpc.Controller.Failures.{Attempt, first_raised, first_raised-budget}
use prox_mpc.Controller.Mapped.{IsMapped, read_model_mapping-IsMapped}
use prox_mpc.Controller.Ramp.{
  IsRounded, IsRamped, brake_toward-IsRamped, reply_is_finite, finish_cycle-Finite,
}
use prox_mpc.Controller.Path.{Waypoint, project, planned_direction, choose_direction}
use prox_mpc.Controller.Projection.{IsStrict, IsNearest, project-IsNearest, choose_direction-cases}
use prox_mpc.Tests.Problem.{value_or, empty}
use prox_mpc.Tests.Naturals.{nat_double, nat_cmath}
use prox_mpc.Tests.Vehicles.{built}

abbrev tenths : ℕ → Sample
tenths k = num (pos k)

abbrev blank_rig : Rig Sample
blank_rig = record {
  n = 3;
  m = 2;
  dt = tenths 1;
  brake_period_s = nought;
  max_solver_failures = pos 2;
  direction_switch_dwell_s = tenths 5;
  direction_switch_standstill_speed_mps = tenths 1;
  allow_reversing = true;
  reverse_from_plan_orientation = true;
  desired_linear_vel = tenths 5;
  np = 2;
  idx_x = 0;
  idx_y = 1;
  idx_yaw = 2;
  idx_v = 0;
  idx_steer = 0;
  idx_steer_rate = 0;
  has_steering = false;
  has_steer_rate = false;
  ref_offset_x = nought;
  ref_offset_y = nought;
  wheelbase = nought;
  v_max = tenths 30;
  v_min = sample_double.neg (tenths 30);
  fallback_ramp_lin = tenths 5;
  fallback_ramp_ang = tenths 5;
  du_low = vector_of 2 (tenths 5);
  du_upp = vector_of 2 (tenths 5);
  steer_rate_low = nought;
  steer_rate_upp = nought;
}

abbrev at_rest : Pilot Sample
at_rest = record {
  failure_count = 0;
  veto_count = 0;
  steering_state = nought;
  last_cmd_u = vector_of 2 nought;
  last_cmd_v = nought;
  last_cmd_w = nought;
  cancelling = false;
  plan_index = 0;
  have_last_cycle = false;
  dir = one;
  dir_hold_s = tenths 5;
  settling = false;
  yield_factor = one;
  max_linear_vel = tenths 30;
  speed_limit = nought;
  speed_limit_is_percentage = false;
  speed_limit_pending = false;
}

abbrev robot : Controller Sample ℕ
robot = record {
  rig = blank_rig;
  pilot = at_rest;
  vehicle = unicycle;
  model = built unicycle;
  mpc = empty;
}

abbrev moving : Measured Sample
moving = record {
  cx = nought;
  cy = nought;
  ctheta = nought;
  velocity = record still { linear_x = tenths 7 };
  cycle_period_ms = tenths 1000;
}

abbrev clear_map : Costmap Sample
clear_map = record {
  footprint_size = 4;
  footprint_cost = λ x y th. nought;
  tracking_unknown = true;
  no_information = tenths 2550;
  lethal = tenths 2540;
}

abbrev here : Vector Sample
here = vector_of 3 nought

abbrev states : Matrix Sample
states = constant 3 3 nought

abbrev controls : Matrix Sample
controls = constant 2 2 (tenths 4)

-- The solver has not run: the cycle brakes.
finish_cycle-cases_example :
    IsAccepted clear_map moving here states
      (row_of controls 0)
      robot
      (finish_cycle clear_map moving here states controls robot)
    ⊎ IsRefused clear_map moving here states
        (row_of controls 0)
        robot
        (finish_cycle clear_map moving here states controls robot)
finish_cycle-cases_example = finish_cycle-cases clear_map moving here states controls robot

abbrev attempt : Attempt Sample ℕ
attempt = record {
  measured = moving;
  state = here;
  x_sol = states;
  u_sol = controls;
  solved_mpc = empty;
}

-- The third failure is beyond a budget of two.
first_raised-budget_example :
    (why : String) × (first_raised clear_map (attempt ∷ attempt ∷ attempt ∷ []) robot
      ≡ some (2, no_valid_control why))
unfolding fresh
first_raised-budget_example =
    first_raised-budget clear_map 2 (attempt ∷ attempt ∷ attempt ∷ []) robot refl (omega arith)
      (refl, (refl, (refl, tt))) (omega arith)

-- The rear-axle bicycle's mapping.
abbrev car_rig : Rig Sample
car_rig = record blank_rig { n = 4 }

abbrev car_mapped : Rig Sample
car_mapped =
    value_or (read_model_mapping (rear_axle.planar_mapping (built rear_axle)) car_rig) car_rig

read_model_mapping-IsMapped_example : IsMapped car_mapped
unfolding rear_axle ◌-ℤ◌ ◌*ℤ◌ ◌/ℤ◌ read_model_mapping set_n set_m set_ineq set_obs_avoid
read_model_mapping-IsMapped_example =
    read_model_mapping-IsMapped (rear_axle.planar_mapping (built rear_axle)) car_rig car_mapped refl

nat_double-IsStrict : IsStrict ℕ
nat_double-IsStrict = record {
  irreflexive = λ a. ground arith;
  transitive = λ a b c p q. ground (arith, p, q);
}

abbrev corridor : List (Waypoint ℕ)
corridor =
    record { x = 0; y = 9; yaw = 0 }
    ∷ record { x = 4; y = 3; yaw = 0 }
    ∷ record { x = 8; y = 3; yaw = 0 }
    ∷ []

project_test : (project corridor 5 1 0).index ≡ 1
unfolding project
project_test = refl

project-IsNearest_example : IsNearest corridor 5 1 0 2 (project corridor 5 1 0)
project-IsNearest_example = project-IsNearest corridor 5 1 0 nat_double-IsStrict

-- A plan that runs against the heading of its poses.
abbrev backwards : List (Waypoint Sample)
backwards =
    record { x = tenths 50; y = nought; yaw = nought }
    ∷ record { x = nought; y = nought; yaw = nought }
    ∷ []

abbrev shifted : Pilot Sample × Sample
shifted = choose_direction blank_rig backwards 0 nought at_rest

choose_direction_test : shifted.0.dir ≡ sample_double.neg one
unfolding choose_direction ◌-ℤ◌ ◌+ℤ◌ ◌/ℤ◌ ◌*ℤ◌
choose_direction_test = refl

choose_direction-cases_example :
    ((shifted.0.dir ≡ planned_direction backwards 0)
      × (shifted.0.dir_hold_s ≡ nought)
      × (sample_double.le nought (tenths 1) ≡ true)
      × (sample_double.le (tenths 5) (tenths 5) ≡ true))
    ⊎ ((shifted.0.dir ≡ one)
        × (shifted.0.dir_hold_s ≡ tenths 5)
        × ((sample_double.eq (planned_direction backwards 0) one ≡ true) ⊎ (shifted.1 ≡ nought)))
unfolding ◌-ℤ◌
choose_direction-cases_example =
    choose_direction-cases blank_rig backwards 0 nought at_rest refl refl

nat_double-IsRounded : IsRounded ℕ
nat_double-IsRounded = record {
  zero_finite = refl;
  zero_irreflexive = refl;
  above_not_below = λ a h. ground (arith, h);
  below_not_above = λ a h. ground (arith, h);
  down_finite = λ a b t f s h. refl;
  up_finite = λ a b t f s h. refl;
}

brake_toward-IsRamped_example : IsRamped nat_double-IsRounded 7 (brake_toward 7 2 2 1)
brake_toward-IsRamped_example = brake_toward-IsRamped nat_double-IsRounded 7 2 2 1 refl

abbrev still_plant : Plant ℕ
still_plant = record {
  n = 3;
  m = 2;
  obs_flag = false;
  idx_x = 0;
  idx_y = 1;
  ineq_x = [];
  ineq_u = [];
  ineq_du = [];
  state_matrix = λ dt x u i j. 0;
  control_matrix = λ x u i j. 0;
  residual = λ dt x u next i. 0;
}

abbrev nat_robot : Controller ℕ ℕ
nat_robot = record {
  rig = record {
    n = 3;
    m = 2;
    dt = 1;
    brake_period_s = 1;
    max_solver_failures = pos 2;
    direction_switch_dwell_s = 1;
    direction_switch_standstill_speed_mps = 0;
    allow_reversing = false;
    reverse_from_plan_orientation = false;
    desired_linear_vel = 1;
    np = 2;
    idx_x = 0;
    idx_y = 1;
    idx_yaw = 2;
    idx_v = 0;
    idx_steer = 0;
    idx_steer_rate = 0;
    has_steering = false;
    has_steer_rate = false;
    ref_offset_x = 0;
    ref_offset_y = 0;
    wheelbase = 0;
    v_max = 3;
    v_min = 0;
    fallback_ramp_lin = 1;
    fallback_ramp_ang = 1;
    du_low = vector_of 2 1;
    du_upp = vector_of 2 1;
    steer_rate_low = 0;
    steer_rate_upp = 0;
  };
  pilot = record {
    failure_count = 0;
    veto_count = 0;
    steering_state = 0;
    last_cmd_u = vector_of 2 0;
    last_cmd_v = 0;
    last_cmd_w = 0;
    cancelling = false;
    plan_index = 0;
    have_last_cycle = false;
    dir = 1;
    dir_hold_s = 1;
    settling = false;
    yield_factor = 1;
    max_linear_vel = 3;
    speed_limit = 0;
    speed_limit_is_percentage = false;
    speed_limit_pending = false;
  };
  vehicle = unicycle;
  model = blank_model;
  mpc = fresh 0 still_plant;
}

abbrev nat_moving : Measured ℕ
nat_moving = record {
  cx = 0;
  cy = 0;
  ctheta = 0;
  velocity = record still { linear_x = 7 };
  cycle_period_ms = 1;
}

abbrev nat_map : Costmap ℕ
nat_map = record {
  footprint_size = 4;
  footprint_cost = λ x y th. 0;
  tracking_unknown = true;
  no_information = 255;
  lethal = 254;
}

finish_cycle-Finite_example :
    reply_is_finite
      (finish_cycle nat_map nat_moving
        (vector_of 3 0)
        (constant 3 3 0)
        (constant 2 2 1)
        nat_robot).1
    ≡ true
unfolding brake_period
finish_cycle-Finite_example =
    finish_cycle-Finite nat_double-IsRounded nat_map nat_moving (vector_of 3 0) (constant 3 3 0)
      (constant 2 2 1) nat_robot refl
