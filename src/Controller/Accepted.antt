-- ===== src/Controller/Accepted.antt =====
-- What a cycle that has solved does: it commits and sends a candidate that passed every gate, and else
-- brakes, or gives up, with the retained plan as it was.
use Prim.Native.String.{String}
use prox_mpc.Base.{
  ℕ, suc, ◌≡◌, refl, Bool, true, false, not, ◌&&◌, if◌then◌else◌, ◌⊎◌, inl, inr, arith,
}
use prox_mpc.Base.Int.{pos, ltb_ℤ}
use prox_mpc.Base.Double.{Double}
use prox_mpc.Base.Cmath.{Cmath}
use prox_mpc.Base.Matrix.{Matrix, Vector, row_of}
use prox_mpc.Mpc.State.{Mpc}
use prox_mpc.Mpc.Setters.{set_u0}
use prox_mpc.Mpc.Solve.{is_solved, commit_candidate}
use prox_mpc.Vehicles.Parts.{Twist}
use prox_mpc.Controller.State.{
  Controller, Reply, command, raised, no_valid_control, twist_is_finite,
}
use prox_mpc.Controller.Brake.{Measured, make_brake, fail, count_failure}
use prox_mpc.Controller.Gates.{
  Costmap, vetoed, veto, count_veto, accepted, gate_command, gate_footprint, gate_finite,
  finish_cycle,
}

-- A property of a conditional, from that of each branch where it is taken.
pub pick {ℓ κ} :
    {A : Type ℓ} (P : A → Type κ) (t : Bool) {x y : A}
    → (t ≡ true → P x)
    → (t ≡ false → P y)
    → P (if t then x else y)
pick P true p q = p refl
pick P false p q = q refl

all_gates :
    (a b v f : Bool)
    → not a ≡ false
    → not b ≡ false
    → v ≡ false
    → not f ≡ false
    → (a && b && not v && f) ≡ true
all_gates a b v f ha hb hv hf = ground arith

blocked : (a b v : Bool) → not a ≡ false → not b ≡ false → v ≡ true → (a && b && v) ≡ true
blocked a b v ha hb hv = ground arith

module _ {ℓ} {W S : Type ℓ} ⦃d : Double W⦄ where
  -- The retained states, controls and slack, and the candidate.
  abbrev pub SamePlan : Mpc W S → Mpc W S → Type ℓ
  SamePlan p q =
      (q.retained.x ≡ p.retained.x)
      × (q.retained.u ≡ p.retained.u)
      × (q.retained.w ≡ p.retained.w)
      × (q.candidate ≡ p.candidate)
      × (q.settings ≡ p.settings)

module _ {ℓ} {W S : Type ℓ} ⦃d : Double W⦄ ⦃r : Cmath W⦄ where
  make_brake-SamePlan :
      (s : Measured W) (c : Controller W S) → SamePlan c.mpc (make_brake s c).0.mpc
  unfolding make_brake set_u0
  make_brake-SamePlan s c = (refl, refl, refl, refl, refl)

  fail-SamePlan :
      (why : String) (s : Measured W) (c : Controller W S) → SamePlan c.mpc (fail why s c).0.mpc
  unfolding fail
  fail-SamePlan why s c =
      pick (λ (n : Controller W S × Reply W). SamePlan c.mpc n.0.mpc)
        (ltb_ℤ c.rig.max_solver_failures (pos (suc c.pilot.failure_count)))
        (λ e. (refl, refl, refl, refl, refl)) (λ e. make_brake-SamePlan s (count_failure c))

  veto-SamePlan : (s : Measured W) (c : Controller W S) → SamePlan c.mpc (veto s c).0.mpc
  unfolding veto
  veto-SamePlan s c =
      pick (λ (n : Controller W S × Reply W). SamePlan c.mpc n.0.mpc)
        (ltb_ℤ c.rig.max_solver_failures (pos (suc c.pilot.veto_count)))
        (λ e. (refl, refl, refl, refl, refl)) (λ e. make_brake-SamePlan s (count_veto c))

  -- How a refused cycle answers, with a count of failures or vetoes that includes this one: beyond
  -- the budget it raises NoValidControl, and within it sends the ramp's twist.
  abbrev pub IsAnswered : ℕ → Measured W → Controller W S → Reply W → Type ℓ
  IsAnswered count s c reply =
      ((ltb_ℤ c.rig.max_solver_failures (pos count) ≡ true)
        × ((why : String) × (reply ≡ raised (no_valid_control why))))
      ⊎ ((ltb_ℤ c.rig.max_solver_failures (pos count) ≡ false) × (reply ≡ (make_brake s c).1))

  -- A failure and a veto: each counts itself alone.
  abbrev pub IsFailed : Measured W → Controller W S → Controller W S × Reply W → Type ℓ
  IsFailed s c (next, reply) =
      (next.pilot.failure_count ≡ suc c.pilot.failure_count)
      × (next.pilot.veto_count ≡ c.pilot.veto_count)
      × IsAnswered (suc c.pilot.failure_count) s c reply

  abbrev pub IsVetoed : Measured W → Controller W S → Controller W S × Reply W → Type ℓ
  IsVetoed s c (next, reply) =
      (next.pilot.veto_count ≡ suc c.pilot.veto_count)
      × (next.pilot.failure_count ≡ c.pilot.failure_count)
      × IsAnswered (suc c.pilot.veto_count) s c reply

  fail-IsFailed : (why : String) (s : Measured W) (c : Controller W S) → IsFailed s c (fail why s c)
  unfolding fail make_brake
  fail-IsFailed why s c =
      pick (IsFailed s c) (ltb_ℤ c.rig.max_solver_failures (pos (suc c.pilot.failure_count)))
        (λ over. (refl, refl, inl (over, (why, refl)))) (λ left. (refl, refl, inr (left, refl)))

  veto-IsVetoed : (s : Measured W) (c : Controller W S) → IsVetoed s c (veto s c)
  unfolding veto make_brake
  veto-IsVetoed s c =
      pick (IsVetoed s c) (ltb_ℤ c.rig.max_solver_failures (pos (suc c.pilot.veto_count)))
        (λ over. (refl, refl, inl (over, (_, refl)))) (λ left. (refl, refl, inr (left, refl)))

  -- The twist that the first control makes, at the pose that was solved from.
  abbrev pub first_twist : Vector W → Vector W → Controller W S → Twist W
  first_twist state u0 c = c.vehicle.to_twist (record (c.model) { x = state }) u0

  module _ (map : Costmap W) (s : Measured W) (state : Vector W) (x_sol : Matrix W) (u0 : Vector W)
      (c : Controller W S) where
    abbrev pub passes_gates : Bool
    passes_gates =
        is_solved c.mpc.qp_info.status
        && c.mpc.cand_finite
        && not (vetoed map c.rig x_sol u0)
        && twist_is_finite (first_twist state u0 c)

    -- The candidate is committed and its first control sent, and both counters start again.
    abbrev pub IsAccepted : Controller W S × Reply W → Type ℓ
    IsAccepted (next, reply) =
        (passes_gates ≡ true)
        × (reply ≡ command (first_twist state u0 c))
        × (next.mpc ≡ (commit_candidate c.mpc).0)
        × (next.pilot.last_cmd_u ≡ u0)
        × (next.pilot.failure_count ≡ 0)
        × (next.pilot.veto_count ≡ 0)

    abbrev pub is_blocked : Bool
    is_blocked = is_solved c.mpc.qp_info.status && c.mpc.cand_finite && vetoed map c.rig x_sol u0

    -- The controller with its model at the pose that was solved from.
    abbrev pub posed : Controller W S
    posed = record c { model = record (c.model) { x = state } }

    -- The retained plan stays; a footprint that collides is a veto, and everything else a failure,
    -- where the gate on the twist has moved the model.
    abbrev pub IsRefused : Controller W S × Reply W → Type ℓ
    IsRefused n =
        (passes_gates ≡ false)
        × SamePlan c.mpc n.0.mpc
        × (((is_blocked ≡ true) × IsVetoed s c n)
            ⊎ ((is_blocked ≡ false) × (IsFailed s c n ⊎ IsFailed s posed n)))

    abbrev Outcome : Controller W S × Reply W → Type ℓ
    Outcome n = IsAccepted n ⊎ IsRefused n

    -- Each gate that stops a candidate, in the order of the code.
    unsolved_lem :
        not (is_solved c.mpc.qp_info.status) ≡ true → (passes_gates ≡ false) × (is_blocked ≡ false)
    unsolved_lem e = (ground (arith, e), ground (arith, e))

    unfinished_lem : not c.mpc.cand_finite ≡ true → (passes_gates ≡ false) × (is_blocked ≡ false)
    unfinished_lem e = (ground (arith, e), ground (arith, e))

    gate_command-cases :
        not (is_solved c.mpc.qp_info.status) ≡ false
        → not c.mpc.cand_finite ≡ false
        → vetoed map c.rig x_sol u0 ≡ false
        → Outcome (gate_command map s state x_sol u0 c)
    unfolding gate_command accepted
    gate_command-cases solved finite clear =
        let moved : Controller W S = record c { model = record (c.model) { x = state } } in
        let twist = first_twist state u0 c in
        pick Outcome (not (twist_is_finite twist)) {x = fail "non-finite command" s moved}
          {y = accepted x_sol u0 state twist c}
          (λ e. inr (
            ground (arith, e),
            fail-SamePlan "non-finite command" s moved,
            inr (ground (arith, clear), inr (fail-IsFailed "non-finite command" s moved)),
          ))
          (λ sent. inl (
            all_gates (is_solved c.mpc.qp_info.status) c.mpc.cand_finite (vetoed map c.rig x_sol u0)
                (twist_is_finite twist) solved finite clear sent,
            refl,
            refl,
            refl,
            refl,
            refl,
          ))

    gate_footprint-cases :
        not (is_solved c.mpc.qp_info.status) ≡ false
        → not c.mpc.cand_finite ≡ false
        → Outcome (gate_footprint map s state x_sol u0 c)
    unfolding gate_footprint
    gate_footprint-cases solved finite =
        pick Outcome (vetoed map c.rig x_sol u0) {x = veto s c}
          {y = gate_command map s state x_sol u0 c}
          (λ e. inr (
            ground (arith, e),
            veto-SamePlan s c,
            inl (
              blocked (is_solved c.mpc.qp_info.status) c.mpc.cand_finite (vetoed map c.rig x_sol u0)
                  solved finite e,
              veto-IsVetoed s c,
            ),
          ))
          (λ clear. gate_command-cases solved finite clear)

    gate_finite-cases :
        not (is_solved c.mpc.qp_info.status) ≡ false → Outcome (gate_finite map s state x_sol u0 c)
    unfolding gate_finite
    gate_finite-cases solved =
        pick Outcome (not c.mpc.cand_finite) {x = fail "non-finite solver output" s c}
          {y = gate_footprint map s state x_sol u0 c}
          (λ e. inr (
            (unfinished_lem e).0,
            fail-SamePlan "non-finite solver output" s c,
            inr ((unfinished_lem e).1, inl (fail-IsFailed "non-finite solver output" s c)),
          ))
          (λ finite. gate_footprint-cases solved finite)

  -- A cycle that has solved sends the twist of the candidate's first control, commits the candidate
  -- and starts both counters again exactly if the solve converged, the candidate is finite, the
  -- footprint meets no collision and the twist is finite. Otherwise the retained states, controls and
  -- slack stay, as do the candidate and the settings, and the cycle counts one veto if the footprint of
  -- a converged, finite candidate collides, and else one failure, leaving the other count; it sends the
  -- deceleration ramp's twist as long as that count is within the budget, and beyond it raises
  -- NoValidControl.
  pub finish_cycle-cases :
      (map : Costmap W) (s : Measured W) (state : Vector W) (x_sol u_sol : Matrix W)
      (c : Controller W S)
      → IsAccepted map s state x_sol (row_of u_sol 0) c (finish_cycle map s state x_sol u_sol c)
        ⊎ IsRefused map s state x_sol (row_of u_sol 0) c (finish_cycle map s state x_sol u_sol c)
  unfolding finish_cycle
  finish_cycle-cases map s state x_sol u_sol c =
      pick (Outcome map s state x_sol (row_of u_sol 0) c) (not (is_solved c.mpc.qp_info.status))
        {x = fail "solver did not converge" s c}
        {y = gate_finite map s state x_sol (row_of u_sol 0) c}
        (λ e.
          let (refused, unblocked) = unsolved_lem map s state x_sol (row_of u_sol 0) c e in
          inr (
            refused,
            fail-SamePlan "solver did not converge" s c,
            inr (unblocked, inl (fail-IsFailed "solver did not converge" s c)),
          ))
        (λ solved. gate_finite-cases map s state x_sol (row_of u_sol 0) c solved)
