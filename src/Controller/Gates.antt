-- ===== src/Controller/Gates.antt =====
-- prox_mpc_controller/src/prox_mpc_controller.cpp, computeVelocityCommands: what ends a cycle before the
-- reference is built, and the gates between a solved candidate and the command.
use prox_mpc.Base.{
  ℕ, zero, suc, ◌-◌, Bool, true, false, not, ◌&&◌, Option, none, some, if◌then◌else◌, leb,
}
use prox_mpc.Base.Int.{pos, ltb_ℤ}
use prox_mpc.Base.Double.{Double, ◌⊕◌, ◌⊖◌, ◌⊗◌, ◌⊘◌, nought, two, abs}
use prox_mpc.Base.Cmath.{Cmath}
use prox_mpc.Base.Matrix.{Matrix, Vector, row_of, vector_of}
use prox_mpc.Mpc.Solve.{is_solved, commit_candidate}
use prox_mpc.Vehicles.Parts.{Twist}
use prox_mpc.Controller.State.{
  Rig, Controller, Reply, command, raised, no_valid_control, invalid_path, twist_is_finite,
}
use prox_mpc.Controller.Brake.{Measured, pose_is_finite, located, steered, make_brake, fail}

-- What nav2_costmap_2d gives the veto: the footprint's points, the cost of the footprint at a pose, and
-- whether unknown space is tracked; `no_information` and `lethal` are its two costs.
pub record Costmap {ℓ} (W : Type ℓ) : Type ℓ where
  pub footprint_size : ℕ
  pub footprint_cost : W → W → W → W
  pub tracking_unknown : Bool
  pub no_information : W
  pub lethal : W

module _ {ℓ} {W : Type ℓ} ⦃d : Double W⦄ where
  -- The state that the model reads.
  unfoldable pub current_state : Rig W → Measured W → W → Vector W
  current_state rig s steering = steered rig steering (located rig s (vector_of rig.n nought))

module _ {ℓ} {W : Type ℓ} ⦃d : Double W⦄ ⦃r : Cmath W⦄ where
  module _ (map : Costmap W) where
    -- The padded footprint at a predicted node, carried back to base_link, collides.
    abbrev pub collides : Rig W → Matrix W → ℕ → Bool
    collides rig x node =
        let th = x.at node rig.idx_yaw in
        let bx =
          x.at node rig.idx_x ⊖ ((rig.ref_offset_x ⊗ d.cos th) ⊖ (rig.ref_offset_y ⊗ d.sin th)) in
        let by =
          x.at node rig.idx_y ⊖ ((rig.ref_offset_x ⊗ d.sin th) ⊕ (rig.ref_offset_y ⊗ d.cos th)) in
        let cost = map.footprint_cost bx by th in
        not (d.eq cost map.no_information && map.tracking_unknown) && d.le map.lethal cost

    abbrev pub step_length : Rig W → Matrix W → ℕ → W
    step_length rig x node =
        r.hypot (x.at node rig.idx_x ⊖ x.at (node - 1) rig.idx_x)
          (x.at node rig.idx_y ⊖ x.at (node - 1) rig.idx_y)

    abbrev pub stop_distance : Rig W → W → W
    stop_distance rig v_cmd =
        if d.is_finite rig.fallback_ramp_lin && d.lt nought rig.fallback_ramp_lin
        then (v_cmd ⊗ v_cmd) ⊘ (two ⊗ rig.fallback_ramp_lin)
        else nought

    -- The walk from a node on, with `left` nodes to go: whether it meets a collision.
    unfoldable pub veto_from : Rig W → Matrix W → W → ℕ → ℕ → W → Bool
    veto_from rig x stop zero node travelled = false
    veto_from rig x stop (suc left) node travelled =
        let next = travelled ⊕ step_length rig x node in
        let rest = veto_from rig x stop left (suc node) next in
        if collides rig x node then true else if d.le stop next then false else rest

    unfoldable pub vetoed : Rig W → Matrix W → Vector W → Bool
    unfolding veto_from
    vetoed rig x u0 =
        leb 3 map.footprint_size
        && veto_from rig x (stop_distance rig (abs (u0.get rig.idx_v))) (x.rows - 1) 1 nought

module _ {ℓ} {W S : Type ℓ} ⦃d : Double W⦄ ⦃r : Cmath W⦄ where
  -- The checks that precede the reference: a reply ends the cycle.
  unfoldable pub begin_cycle :
      Bool → Measured W → Controller W S → Controller W S × Option (Reply W)
  unfolding fail make_brake
  begin_cycle plan_is_empty s c =
      if not (pose_is_finite s)
      then (let (next, reply) = fail "non-finite robot pose" s c in (next, some reply))
      else if c.pilot.cancelling
      then (let (next, reply) = make_brake s c in (next, some reply))
      else if plan_is_empty
      then (c, some (raised (invalid_path "ProxMpcController: received an empty global plan")))
      else (c, none)

  -- A cycle that passed every gate: the candidate is retained and its first control is sent.
  unfoldable pub accepted :
      Matrix W → Vector W → Vector W → Twist W → Controller W S → Controller W S × Reply W
  accepted x_sol u0 state twist c = (
    record c {
      model = record (c.model) { x = state };
      mpc = (commit_candidate c.mpc).0;
      pilot = record (c.pilot) {
        failure_count = 0;
        veto_count = 0;
        steering_state =
            if c.rig.has_steering then x_sol.at 1 c.rig.idx_steer else c.pilot.steering_state;
        last_cmd_u = u0;
        last_cmd_v = twist.linear_x;
        last_cmd_w = twist.angular_z;
      };
    },
    command twist,
  )

  abbrev pub count_veto : Controller W S → Controller W S
  count_veto c = record c { pilot = record (c.pilot) { veto_count = suc c.pilot.veto_count } }

  -- A vetoed command: like a failure, with a budget of its own.
  unfoldable pub veto : Measured W → Controller W S → Controller W S × Reply W
  unfolding make_brake
  veto s c =
      if ltb_ℤ c.rig.max_solver_failures (pos (suc c.pilot.veto_count))
      then (
        count_veto c,
        raised (no_valid_control "ProxMpcController: footprint veto persisted beyond the budget"),
      )
      else make_brake s (count_veto c)

  module _ (map : Costmap W) where
    -- The gates in the order of the code, from the last one on; `state` is the pose that was solved
    -- from.
    unfoldable pub gate_command :
        Measured W → Vector W → Matrix W → Vector W → Controller W S → Controller W S × Reply W
    unfolding fail accepted
    gate_command s state x_sol u0 c =
        let model = record (c.model) { x = state } in
        let twist = c.vehicle.to_twist model u0 in
        if not (twist_is_finite twist)
        then fail "non-finite command" s (record c { model = model })
        else accepted x_sol u0 state twist c

    unfoldable pub gate_footprint :
        Measured W → Vector W → Matrix W → Vector W → Controller W S → Controller W S × Reply W
    unfolding vetoed veto gate_command
    gate_footprint s state x_sol u0 c =
        if vetoed map c.rig x_sol u0 then veto s c else gate_command s state x_sol u0 c

    unfoldable pub gate_finite :
        Measured W → Vector W → Matrix W → Vector W → Controller W S → Controller W S × Reply W
    unfolding fail gate_footprint
    gate_finite s state x_sol u0 c =
        if not c.mpc.cand_finite
        then fail "non-finite solver output" s c
        else gate_footprint s state x_sol u0 c

    -- From solveCandidate's return on.
    unfoldable pub finish_cycle :
        Measured W → Vector W → Matrix W → Matrix W → Controller W S → Controller W S × Reply W
    unfolding fail gate_finite
    finish_cycle s state x_sol u_sol c =
        if not (is_solved c.mpc.qp_info.status)
        then fail "solver did not converge" s c
        else gate_finite s state x_sol (row_of u_sol 0) c
