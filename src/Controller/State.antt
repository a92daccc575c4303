-- ===== src/Controller/State.antt =====
-- prox_mpc_controller: the members of ProxMpcController that its setup, its ramps and its gates use.
use Prim.Native.String.{String}
use prox_mpc.Base.{ℕ, Bool, ◌&&◌, if◌then◌else◌}
use prox_mpc.Base.Int.{ℤ}
use prox_mpc.Base.Double.{Double}
use prox_mpc.Base.Matrix.{Vector}
use prox_mpc.Model.State.{Model}
use prox_mpc.Mpc.State.{Mpc}
use prox_mpc.Vehicles.Parts.{Vehicle, Twist}

-- What is fixed once the controller is configured: the parameters, and what the model declares.
pub record Rig {ℓ} (W : Type ℓ) : Type ℓ where
  pub n : ℕ
  pub m : ℕ
  pub dt : W
  pub brake_period_s : W
  pub max_solver_failures : ℤ
  pub direction_switch_dwell_s : W
  pub direction_switch_standstill_speed_mps : W
  pub allow_reversing : Bool
  pub reverse_from_plan_orientation : Bool
  pub desired_linear_vel : W
  pub np : ℕ
  pub idx_x : ℕ
  pub idx_y : ℕ
  pub idx_yaw : ℕ
  pub idx_v : ℕ
  pub idx_steer : ℕ
  pub idx_steer_rate : ℕ
  pub has_steering : Bool
  pub has_steer_rate : Bool
  pub ref_offset_x : W
  pub ref_offset_y : W
  pub wheelbase : W
  pub v_max : W
  pub v_min : W
  pub fallback_ramp_lin : W
  pub fallback_ramp_ang : W
  pub du_low : Vector W
  pub du_upp : Vector W
  pub steer_rate_low : W
  pub steer_rate_upp : W

-- What a cycle changes.
pub record Pilot {ℓ} (W : Type ℓ) : Type ℓ where
  pub failure_count : ℕ
  pub veto_count : ℕ
  pub steering_state : W
  pub last_cmd_u : Vector W
  pub last_cmd_v : W
  pub last_cmd_w : W
  pub cancelling : Bool
  pub plan_index : ℕ
  pub have_last_cycle : Bool
  pub dir : W
  pub dir_hold_s : W
  pub settling : Bool
  pub yield_factor : W
  pub max_linear_vel : W
  pub speed_limit : W
  pub speed_limit_is_percentage : Bool
  pub speed_limit_pending : Bool

-- `vehicle` is the loaded plugin's code, `model` its object.
pub record Controller {ℓ} (W S : Type ℓ) : Type ℓ where
  pub rig : Rig W
  pub pilot : Pilot W
  pub vehicle : Vehicle W
  pub model : Model W
  pub mpc : Mpc W S

-- The exceptions of nav2_core that leave a cycle.
pub data NavError : Type 0 where
  no_valid_control invalid_path : String → NavError

-- What a cycle answers: a body twist, or an exception.
pub data Reply {ℓ} (W : Type ℓ) : Type ℓ where
  command : Twist W → Reply W
  raised : NavError → Reply W

module _ {ℓ} {W : Type ℓ} ⦃d : Double W⦄ where
  -- std::clamp
  abbrev pub clamp : W → W → W → W
  clamp v low high = if d.lt v low then low else if d.lt high v then high else v

  abbrev pub twist_is_finite : Twist W → Bool
  twist_is_finite t =
      d.is_finite t.linear_x
      && d.is_finite t.linear_y
      && d.is_finite t.linear_z
      && d.is_finite t.angular_x
      && d.is_finite t.angular_y
      && d.is_finite t.angular_z
