-- ===== src/Controller/Brake.antt =====
-- prox_mpc_controller/src/prox_mpc_controller.cpp: the deceleration ramp and the failure budget.
use Prim.Native.String.{String}
use prox_mpc.Base.{ℕ, suc, Bool, not, ◌&&◌, if◌then◌else◌, min, ltb}
use prox_mpc.Base.Int.{pos, ltb_ℤ}
use prox_mpc.Base.Double.{Double, ◌⊕◌, ◌⊖◌, ◌⊗◌, nought, two, abs, fmax, fmin}
use prox_mpc.Base.Cmath.{Cmath}
use prox_mpc.Base.Matrix.{Vector, vector_of}
use prox_mpc.Base.Linear.{with_component}
use prox_mpc.Mpc.Setters.{set_u0}
use prox_mpc.Vehicles.Parts.{Twist, still}
use prox_mpc.Controller.State.{
  Rig, Controller, Reply, command, raised, no_valid_control, clamp, twist_is_finite,
}

-- What the server gives a cycle: the pose, the measured velocity, and the measured period in ms.
pub record Measured {ℓ} (W : Type ℓ) : Type ℓ where
  pub cx : W
  pub cy : W
  pub ctheta : W
  pub velocity : Twist W
  pub cycle_period_ms : W

module _ {ℓ} {W : Type ℓ} ⦃d : Double W⦄ where
  unfoldable pub brake_toward : W → W → W → W → W
  brake_toward prev rate_low rate_upp dt =
      if not (d.is_finite prev)
      then nought
      else if d.lt nought prev
      then fmax nought (prev ⊖ (abs rate_low ⊗ dt))
      else if d.lt prev nought
      then fmin nought (prev ⊕ (abs rate_upp ⊗ dt))
      else nought

  abbrev pub pose_is_finite : Measured W → Bool
  pose_is_finite s = d.is_finite s.cx && d.is_finite s.cy && d.is_finite s.ctheta

  -- The reference point's state of a base_link pose, with the steering belief.
  abbrev pub located : Rig W → Measured W → Vector W → Vector W
  located rig s v = with_component rig.idx_yaw s.ctheta (
      with_component rig.idx_y
        ((s.cy ⊕ (rig.ref_offset_x ⊗ d.sin s.ctheta)) ⊕ (rig.ref_offset_y ⊗ d.cos s.ctheta))
        (with_component rig.idx_x
          ((s.cx ⊕ (rig.ref_offset_x ⊗ d.cos s.ctheta)) ⊖ (rig.ref_offset_y ⊗ d.sin s.ctheta)) v))

  abbrev pub steered : Rig W → W → Vector W → Vector W
  steered rig steering v = if rig.has_steering then with_component rig.idx_steer steering v else v

  unfoldable pub brake_state : Rig W → Measured W → W → Vector W
  brake_state rig s steering =
      let zero = vector_of rig.n nought in
      steered rig steering (if pose_is_finite s then located rig s zero else zero)

  -- Ramping the measured twist itself, when the model maps the braked controls to no finite twist.
  abbrev pub fallback_twist : Rig W → Twist W → W → Twist W
  fallback_twist rig velocity period = record still {
    linear_x = brake_toward velocity.linear_x rig.fallback_ramp_lin rig.fallback_ramp_lin period;
    angular_z = brake_toward velocity.angular_z rig.fallback_ramp_ang rig.fallback_ramp_ang period;
  }

module _ {ℓ} {W : Type ℓ} ⦃d : Double W⦄ ⦃r : Cmath W⦄ where
  -- The step of the ramp: at most twice the configured one when it is measured.
  unfoldable pub brake_period : Rig W → W → W
  brake_period rig cycle_period_ms =
      let measured =
        if d.is_finite cycle_period_ms then r.thousandth ⊗ cycle_period_ms else rig.dt in
      if d.le rig.brake_period_s nought
      then clamp measured rig.dt (two ⊗ rig.dt)
      else rig.brake_period_s

module _ {ℓ} {W S : Type ℓ} ⦃d : Double W⦄ where
  -- The steering belief after a rejected cycle.
  abbrev pub decayed_steering : W → Controller W S → W
  decayed_steering period c =
      if c.rig.has_steering
      then brake_toward c.pilot.steering_state c.rig.steer_rate_low c.rig.steer_rate_upp period
      else c.pilot.steering_state

  -- The controls that the ramp starts from: measured where the twist determines them.
  abbrev pub ramp_start : Twist W → Controller W S → ℕ → W
  ramp_start velocity c j =
      let u = c.vehicle.from_twist c.model velocity in
      if ltb j (min c.pilot.last_cmd_u.size u.size) && d.is_finite (u.get j)
      then u.get j
      else c.pilot.last_cmd_u.get j

  unfoldable pub braked_controls : W → Twist W → Controller W S → Vector W
  unfolding brake_toward
  braked_controls period velocity c = record {
    size = c.pilot.last_cmd_u.size;
    get = λ j.
        brake_toward (ramp_start velocity c j) (c.rig.du_low.get j) (c.rig.du_upp.get j) period;
  }

module _ {ℓ} {W S : Type ℓ} ⦃d : Double W⦄ ⦃r : Cmath W⦄ where
  -- make_brake
  unfoldable pub make_brake : Measured W → Controller W S → Controller W S × Reply W
  unfolding brake_period braked_controls brake_state set_u0
  make_brake s c =
      let period = brake_period c.rig s.cycle_period_ms in
      let steering = decayed_steering period c in
      let u = braked_controls period s.velocity c in
      let model = record (c.model) { x = brake_state c.rig s steering } in
      let mapped = c.vehicle.to_twist model u in
      let twist =
        if not (twist_is_finite mapped) then fallback_twist c.rig s.velocity period else mapped in
      (
        record c {
          model = model;
          mpc = set_u0 u c.mpc;
          pilot = record (c.pilot) {
            steering_state = steering;
            last_cmd_u = u;
            last_cmd_v = twist.linear_x;
            last_cmd_w = twist.angular_z;
          };
        },
        command twist,
      )

  abbrev pub count_failure : Controller W S → Controller W S
  count_failure c = record c {
    pilot = record (c.pilot) { failure_count = suc c.pilot.failure_count };
  }

  -- fail
  unfoldable pub fail : String → Measured W → Controller W S → Controller W S × Reply W
  unfolding make_brake
  fail why s c =
      if ltb_ℤ c.rig.max_solver_failures (pos (suc c.pilot.failure_count))
      then (count_failure c, raised (no_valid_control why))
      else make_brake s (count_failure c)
