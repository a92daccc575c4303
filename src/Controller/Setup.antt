-- ===== src/Controller/Setup.antt =====
-- prox_mpc_controller/src/prox_mpc_controller.cpp: what the controller reads from its model, the speed
-- limit, and the calls that reset it.
use Prim.Native.String.{String}
use prox_mpc.Base.{
  ℕ, Bool, true, false, not, ◌&&◌, ◌||◌, Option, none, some, [], ◌∷◌, if◌then◌else◌, leb, ltb, ◌==◌,
}
use prox_mpc.Base.Double.{Double, ◌⊗◌, ◌⊘◌, nought, one, abs, fmax, fmin}
use prox_mpc.Base.Cmath.{Cmath}
use prox_mpc.Base.Matrix.{vector_of}
use prox_mpc.Base.Result.{Result, ok, thrown, controller_exception, throw_if, ◌>>=◌, ◌>>◌}
use prox_mpc.Model.Bounds.{Bound, Entries}
use prox_mpc.Model.State.{Model, get_ineq, update_ineq}
use prox_mpc.Vehicles.Parts.{PlanarMapping}
use prox_mpc.Controller.State.{Rig, Pilot, Controller, clamp}

abbrev pub reject_if : Bool → Result (Unit {0})
reject_if t = throw_if t (controller_exception "the model's mapping is not usable")

abbrev pub index_or_0 : Option ℕ → ℕ
index_or_0 none = 0
index_or_0 (some i) = i

abbrev pub present : Option ℕ → Bool
present none = false
present (some i) = true

-- Which side of a bound is asked for: index 1 or 2 of its vector.
pub data Side : Type 0 where
  lower upper : Side

module _ {ℓ} {W : Type ℓ} where
  abbrev pub side_of : Side → Bound W → W
  side_of lower b = b.low
  side_of upper b = b.upp

  -- The loop of required_bound: the first entry on an index in key order.
  abbrev pub first_on : ℕ → Entries W → Option (Bound W)
  first_on idx [] = none
  first_on idx ((k, b) ∷ es) = if b.idx == idx then some b else first_on idx es

  unfoldable pub required_bound : String → ℕ → Side → Model W → Result W
  unfolding get_ineq
  required_bound var idx side p = do
    q ← get_ineq var p
    elim (first_on idx q.entries) [
      | none ↦ thrown (controller_exception "the model declares no bound for a control")
      | some b ↦ ok (side_of side b)
    ]

module _ {ℓ} {W : Type ℓ} ⦃d : Double W⦄ where
  -- The checks of a steering angle's index and of the geometry behind it.
  abbrev pub check_steering : Rig W → PlanarMapping W → Result (Unit {0})
  check_steering rig p = elim p.idx_steering [
    | none ↦ ok tt
    | some i ↦
        reject_if (leb rig.n i || i == p.idx_x || i == p.idx_y || i == p.idx_yaw)
        >> (reject_if (not (d.is_finite p.wheelbase) || d.le p.wheelbase nought)
            >> reject_if (not (d.eq p.ref_offset_y nought)))
  ]

  -- The steering rate counts only with a steering angle.
  abbrev pub steer_rate_of : PlanarMapping W → Option ℕ
  steer_rate_of p = elim p.idx_steering [ none ↦ none | some i ↦ p.idx_steer_rate ]

  abbrev pub check_steer_rate : Rig W → PlanarMapping W → Result (Unit {0})
  check_steer_rate rig p = elim (steer_rate_of p) [
    | none ↦ ok tt
    | some i ↦ reject_if (leb rig.m i || i == p.idx_speed)
  ]

  abbrev pub adopt_mapping : PlanarMapping W → Rig W → Rig W
  adopt_mapping p rig = record rig {
    idx_x = p.idx_x;
    idx_y = p.idx_y;
    idx_yaw = p.idx_yaw;
    idx_v = p.idx_speed;
    idx_steer = index_or_0 p.idx_steering;
    idx_steer_rate = index_or_0 (steer_rate_of p);
    has_steering = present p.idx_steering;
    has_steer_rate = present (steer_rate_of p);
    ref_offset_x = p.ref_offset_x;
    ref_offset_y = p.ref_offset_y;
    wheelbase = if present p.idx_steering then p.wheelbase else nought;
  }

  unfoldable pub read_model_mapping : PlanarMapping W → Rig W → Result (Rig W)
  read_model_mapping p rig = do
    states ← reject_if (ltb rig.n 3)
    controls ← reject_if (ltb rig.m 1)
    planar ← reject_if (leb rig.n p.idx_x || leb rig.n p.idx_y || leb rig.n p.idx_yaw)
    distinct ← reject_if (p.idx_x == p.idx_y || p.idx_x == p.idx_yaw || p.idx_y == p.idx_yaw)
    speed ← reject_if (leb rig.m p.idx_speed)
    offsets ← reject_if (not (d.is_finite p.ref_offset_x) || not (d.is_finite p.ref_offset_y))
    rate ← check_steer_rate rig p
    steering ← check_steering rig p
    ok (adopt_mapping p rig)

  -- The last entry on each index in key order, or a default.
  abbrev pub last_or : ℕ → (Bound W → W) → W → Entries W → W
  last_or idx side old [] = old
  last_or idx side old ((k, b) ∷ es) = last_or idx side (if b.idx == idx then side b else old) es

  abbrev pub angular_ramp : Model W → W → Result W
  angular_ramp p old =
      if ltb 1 p.m then required_bound "du" 1 lower p >>= (λ b. ok (abs b)) else ok old

  unfoldable pub read_model_bounds : Model W → Rig W → Pilot W → Result (Rig W × Pilot W)
  unfolding required_bound
  read_model_bounds p rig pilot = do
    v_max ← required_bound "u" rig.idx_v upper p
    v_min ← required_bound "u" rig.idx_v lower p
    usable ←
        throw_if (not (d.lt nought v_max))
          (controller_exception "the model's upper speed bound is not positive")
    ramp ← required_bound "du" rig.idx_v lower p
    ramp_ang ← angular_ramp p rig.fallback_ramp_ang
    ok (
      record rig {
        v_max = v_max;
        v_min = v_min;
        fallback_ramp_lin = abs ramp;
        fallback_ramp_ang = ramp_ang;
        du_low = record {
          size = p.m;
          get = λ j. last_or j (λ b. b.low) (d.neg d.infinity) p.ineq_du.entries;
        };
        du_upp = record {
          size = p.m;
          get = λ j. last_or j (λ b. b.upp) d.infinity p.ineq_du.entries;
        };
        steer_rate_low =
            if rig.has_steer_rate
            then last_or rig.idx_steer_rate (λ b. b.low) nought p.ineq_u.entries
            else nought;
        steer_rate_upp =
            if rig.has_steer_rate
            then last_or rig.idx_steer_rate (λ b. b.upp) nought p.ineq_u.entries
            else nought;
      },
      record pilot { max_linear_vel = v_max; last_cmd_u = vector_of p.m nought },
    )

module _ {ℓ} {W : Type ℓ} ⦃d : Double W⦄ where
  -- The limit in m/s, within the model's own.
  abbrev pub limited_speed : W → W → Bool → W
  limited_speed v_max limit percentage =
      clamp
        (if d.le limit nought
          then v_max
          else if percentage
          then (limit ⊘ d.of_nat 100) ⊗ v_max
          else limit)
        nought v_max

  -- What activate and reset have in common; vectors keep their size.
  abbrev pub stopped : Pilot W → Pilot W
  stopped p = record p {
    failure_count = 0;
    veto_count = 0;
    steering_state = nought;
    last_cmd_u = vector_of p.last_cmd_u.size nought;
    last_cmd_v = nought;
    last_cmd_w = nought;
    cancelling = false;
    have_last_cycle = false;
  }

module _ {ℓ} {W S : Type ℓ} ⦃d : Double W⦄ where
  unfoldable pub set_speed_limit : W → Bool → Controller W S → Controller W S
  set_speed_limit limit percentage c = record c {
    pilot = record (c.pilot) {
      speed_limit = limit;
      speed_limit_is_percentage = percentage;
      speed_limit_pending = true;
    };
  }

  unfoldable pub apply_speed_limit : W → Bool → Controller W S → Result (Controller W S)
  unfolding update_ineq
  apply_speed_limit limit percentage c =
      let v_lim = limited_speed c.rig.v_max limit percentage in
      update_ineq "u" c.rig.idx_v (fmax c.rig.v_min (d.neg v_lim)) (fmin c.rig.v_max v_lim) c.model
      >>= λ model.
          ok (record c { model = model; pilot = record (c.pilot) { max_linear_vel = v_lim } })

  -- The pending request, at the top of a cycle.
  unfoldable pub take_speed_limit : Controller W S → Result (Controller W S)
  unfolding apply_speed_limit
  take_speed_limit c =
      if c.pilot.speed_limit_pending
      then apply_speed_limit c.pilot.speed_limit c.pilot.speed_limit_is_percentage
          (record c { pilot = record (c.pilot) { speed_limit_pending = false } })
      else ok c

  unfoldable pub activate : Controller W S → Controller W S
  activate c = record c { pilot = stopped c.pilot }

  unfoldable pub set_plan : Controller W S → Controller W S
  set_plan c = record c { pilot = record (c.pilot) { plan_index = 0 } }

  unfoldable pub reset : Controller W S → Controller W S
  reset c = record c {
    pilot = record (stopped c.pilot) {
      plan_index = 0;
      dir = one;
      dir_hold_s = c.rig.direction_switch_dwell_s;
      settling = false;
      yield_factor = one;
    };
  }

module _ {ℓ} {W S : Type ℓ} ⦃d : Double W⦄ ⦃r : Cmath W⦄ where
  -- Whether the ramp is complete.
  unfoldable pub cancel : Controller W S → Controller W S × Bool
  cancel c =
      let done =
        d.lt (abs c.pilot.last_cmd_v) r.hundredth && d.lt (abs c.pilot.last_cmd_w) r.hundredth in
      (record c { pilot = record (c.pilot) { cancelling = not done } }, done)
