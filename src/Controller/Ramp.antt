-- ===== src/Controller/Ramp.antt =====
-- The deceleration ramp stops at zero, and what a cycle sends is finite.
use Prim.Native.String.{String}
use prox_mpc.Base.{suc, ◌≡◌, refl, Bool, true, false, not, ◌&&◌, if◌then◌else◌, arith}
use prox_mpc.Base.Int.{pos, ltb_ℤ}
use prox_mpc.Base.Double.{Double, ◌⊕◌, ◌⊖◌, ◌⊗◌, nought, abs}
use prox_mpc.Base.Cmath.{Cmath}
use prox_mpc.Base.Matrix.{Matrix, Vector, row_of}
use prox_mpc.Mpc.Solve.{is_solved}
use prox_mpc.Vehicles.Parts.{Twist}
use prox_mpc.Controller.State.{
  Rig, Controller, Reply, command, raised, twist_is_finite, no_valid_control,
}
use prox_mpc.Controller.Brake.{
  Measured, brake_toward, brake_period, fallback_twist, make_brake, fail, count_failure,
}
use prox_mpc.Controller.Gates.{
  Costmap, vetoed, veto, count_veto, accepted, gate_command, gate_footprint, gate_finite,
  finish_cycle,
}
use prox_mpc.Controller.Accepted.{pick, first_twist}

-- What double arithmetic promises of the ramp: zero is finite and not below itself, no number is above
-- and below zero, and taking something that is not negative from a finite number without reaching zero
-- leaves a finite number.
pub record IsRounded {ℓ} (W : Type ℓ) ⦃d : Double W⦄ : Type ℓ where
  pub zero_finite : d.is_finite nought ≡ true
  pub zero_irreflexive : d.lt nought nought ≡ false
  pub above_not_below : (a : W) → d.lt nought a ≡ true → d.lt a nought ≡ false
  pub below_not_above : (a : W) → d.lt a nought ≡ true → d.lt nought a ≡ false
  pub down_finite :
      (a b t : W)
      → d.is_finite a ≡ true
      → d.lt t nought ≡ false
      → d.lt nought (a ⊖ (abs b ⊗ t)) ≡ true
      → d.is_finite (a ⊖ (abs b ⊗ t)) ≡ true
  pub up_finite :
      (a b t : W)
      → d.is_finite a ≡ true
      → d.lt t nought ≡ false
      → d.lt (a ⊕ (abs b ⊗ t)) nought ≡ true
      → d.is_finite (a ⊕ (abs b ⊗ t)) ≡ true

unnegated : (a : Bool) → not a ≡ false → a ≡ true
unnegated a h = ground arith

both_false : (a b : Bool) → b ≡ false → (a && b) ≡ false
both_false a b h = ground arith

first_false : (a b : Bool) → a ≡ false → (a && b) ≡ false
first_false a b h = ground arith

all_finite :
    (a b c e f g : Bool)
    → a ≡ true
    → b ≡ true
    → c ≡ true
    → e ≡ true
    → f ≡ true
    → g ≡ true
    → (a && b && c && e && f && g) ≡ true
all_finite a b c e f g ha hb hc he hf hg = ground arith

module _ {ℓ} {W : Type ℓ} ⦃d : Double W⦄ (laws : IsRounded W) where
  -- A value that the ramp may give from a start.
  abbrev pub IsRamped : W → W → Type 0
  IsRamped prev v =
      (d.is_finite v ≡ true)
      × ((d.lt nought prev && d.lt v nought) ≡ false)
      × ((d.lt prev nought && d.lt nought v) ≡ false)

  zero-IsRamped : (prev : W) → IsRamped prev nought
  zero-IsRamped prev = (
    laws.zero_finite,
    both_false (d.lt nought prev) (d.lt nought nought) laws.zero_irreflexive,
    both_false (d.lt prev nought) (d.lt nought nought) laws.zero_irreflexive,
  )

  -- Under the laws of IsRounded and for a step that is not negative, a step of the ramp gives a finite
  -- value, whatever it starts from, which is not on the other side of zero.
  pub brake_toward-IsRamped :
      (prev low upp dt : W) → d.lt dt nought ≡ false → IsRamped prev (brake_toward prev low upp dt)
  unfolding brake_toward
  brake_toward-IsRamped prev low upp dt step =
      let down = prev ⊖ (abs low ⊗ dt) in
      let up = prev ⊕ (abs upp ⊗ dt) in
      pick (IsRamped prev) (not (d.is_finite prev)) (λ e. zero-IsRamped prev)
        λ some_number.
          pick (IsRamped prev) (d.lt nought prev)
            (λ above.
              pick (IsRamped prev) (d.lt nought down)
                (λ more. (
                  laws.down_finite prev low dt (unnegated (d.is_finite prev) some_number) step more,
                  both_false (d.lt nought prev) (d.lt down nought) (laws.above_not_below down more),
                  first_false (d.lt prev nought) (d.lt nought down)
                      (laws.above_not_below prev above),
                ))
                (λ e. zero-IsRamped prev))
            (λ not_above.
              pick (IsRamped prev) (d.lt prev nought)
                (λ below.
                  pick (IsRamped prev) (d.lt up nought)
                    (λ less. (
                      laws.up_finite prev upp dt (unnegated (d.is_finite prev) some_number) step
                          less,
                      first_false (d.lt nought prev) (d.lt up nought) not_above,
                      both_false (d.lt prev nought) (d.lt nought up) (laws.below_not_above up less),
                    ))
                    (λ e. zero-IsRamped prev))
                (λ e. zero-IsRamped prev))

  fallback_twist-Finite :
      (rig : Rig W) (velocity : Twist W) (period : W)
      → d.lt period nought ≡ false
      → twist_is_finite (fallback_twist rig velocity period) ≡ true
  fallback_twist-Finite rig velocity period step =
      let z = laws.zero_finite in
      all_finite _ _ _ _ _ _
        (brake_toward-IsRamped velocity.linear_x rig.fallback_ramp_lin rig.fallback_ramp_lin period
          step).0
        z z z z
        (brake_toward-IsRamped velocity.angular_z rig.fallback_ramp_ang rig.fallback_ramp_ang period
          step).0

module _ {ℓ} {W : Type ℓ} ⦃d : Double W⦄ where
  chosen-Finite :
      (mapped spare : Twist W)
      → twist_is_finite spare ≡ true
      → twist_is_finite (if not (twist_is_finite mapped) then spare else mapped) ≡ true
  chosen-Finite mapped spare h =
      pick (λ (t : Twist W). twist_is_finite t ≡ true) (not (twist_is_finite mapped)) (λ e. h)
        (λ fine. unnegated (twist_is_finite mapped) fine)

-- An exception sends nothing.
abbrev pub reply_is_finite {ℓ} : {W : Type ℓ} ⦃d : Double W⦄ → Reply W → Bool
reply_is_finite (command t) = twist_is_finite t
reply_is_finite (raised e) = true

module _ {ℓ} {W S : Type ℓ} ⦃d : Double W⦄ ⦃r : Cmath W⦄ (laws : IsRounded W) where
  abbrev Finite : Controller W S × Reply W → Type 0
  Finite n = reply_is_finite n.1 ≡ true

  make_brake-Finite :
      (s : Measured W) (c : Controller W S)
      → d.lt (brake_period c.rig s.cycle_period_ms) nought ≡ false
      → Finite (make_brake s c)
  unfolding make_brake
  make_brake-Finite s c step =
      chosen-Finite _ (fallback_twist c.rig s.velocity (brake_period c.rig s.cycle_period_ms))
        (fallback_twist-Finite laws c.rig s.velocity (brake_period c.rig s.cycle_period_ms) step)

  fail-Finite :
      (why : String) (s : Measured W) (c : Controller W S)
      → d.lt (brake_period c.rig s.cycle_period_ms) nought ≡ false
      → Finite (fail why s c)
  unfolding fail
  fail-Finite why s c step =
      pick Finite (ltb_ℤ c.rig.max_solver_failures (pos (suc c.pilot.failure_count)))
        {x = (count_failure c, raised (no_valid_control why))} {y = make_brake s (count_failure c)}
        (λ over. refl) (λ left. make_brake-Finite s (count_failure c) step)

  veto-Finite :
      (s : Measured W) (c : Controller W S)
      → d.lt (brake_period c.rig s.cycle_period_ms) nought ≡ false
      → Finite (veto s c)
  unfolding veto
  veto-Finite s c step =
      pick Finite (ltb_ℤ c.rig.max_solver_failures (pos (suc c.pilot.veto_count)))
        {y = make_brake s (count_veto c)} (λ over. refl)
        (λ left. make_brake-Finite s (count_veto c) step)

  module _ (map : Costmap W) (s : Measured W) (state : Vector W) (x_sol : Matrix W) (u0 : Vector W)
      (c : Controller W S) (step : d.lt (brake_period c.rig s.cycle_period_ms) nought ≡ false) where
    gate_command-Finite : Finite (gate_command map s state x_sol u0 c)
    unfolding gate_command accepted
    gate_command-Finite =
        let moved : Controller W S = record c { model = record (c.model) { x = state } } in
        let twist = first_twist state u0 c in
        pick Finite (not (twist_is_finite twist)) {x = fail "non-finite command" s moved}
          {y = accepted x_sol u0 state twist c} (λ e. fail-Finite "non-finite command" s moved step)
          (λ sent. unnegated (twist_is_finite twist) sent)

    gate_footprint-Finite : Finite (gate_footprint map s state x_sol u0 c)
    unfolding gate_footprint
    gate_footprint-Finite =
        pick Finite (vetoed map c.rig x_sol u0) {x = veto s c}
          {y = gate_command map s state x_sol u0 c} (λ e. veto-Finite s c step)
          (λ clear. gate_command-Finite)

    gate_finite-Finite : Finite (gate_finite map s state x_sol u0 c)
    unfolding gate_finite
    gate_finite-Finite =
        pick Finite (not c.mpc.cand_finite) {x = fail "non-finite solver output" s c}
          {y = gate_footprint map s state x_sol u0 c}
          (λ e. fail-Finite "non-finite solver output" s c step) (λ finite. gate_footprint-Finite)

  -- Under the laws of IsRounded and if the ramp's step is not negative, a cycle that has solved sends a
  -- twist whose components are all finite, or raises an exception.
  pub finish_cycle-Finite :
      (map : Costmap W) (s : Measured W) (state : Vector W) (x_sol u_sol : Matrix W)
      (c : Controller W S)
      → d.lt (brake_period c.rig s.cycle_period_ms) nought ≡ false
      → reply_is_finite (finish_cycle map s state x_sol u_sol c).1 ≡ true
  unfolding finish_cycle
  finish_cycle-Finite map s state x_sol u_sol c step =
      pick Finite (not (is_solved c.mpc.qp_info.status)) {x = fail "solver did not converge" s c}
        {y = gate_finite map s state x_sol (row_of u_sol 0) c}
        (λ e. fail-Finite "solver did not converge" s c step)
        (λ solved. gate_finite-Finite map s state x_sol (row_of u_sol 0) c step)
