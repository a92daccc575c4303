-- ===== src/Controller/Path.antt =====
-- prox_mpc_controller/src/prox_mpc_controller.cpp, computeVelocityCommands: where a cycle is on the plan,
-- which way it travels, and how far and how fast its reference may go.
use prox_mpc.Base.{
  ℕ, zero, suc, ◌+◌, ◌-◌, Bool, not, ◌&&◌, ◌||◌, Option, none, some, List, [], ◌∷◌, length, get_or,
  if◌then◌else◌, leb, ltb,
}
use prox_mpc.Base.Double.{Double, ◌⊕◌, ◌⊖◌, ◌⊗◌, ◌⊘◌, nought, one, abs, fmin}
use prox_mpc.Base.Cmath.{Cmath}
use prox_mpc.Controller.State.{Rig, Pilot, clamp}

-- A pose of the plan: its position, and quat_yaw of its orientation. The transform to the costmap's
-- frame is one of these too.
pub record Waypoint {ℓ} (W : Type ℓ) : Type ℓ where
  pub x : W
  pub y : W
  pub yaw : W

-- The point of the plan that is nearest so far: its segment, where on it, and its squared distance.
pub record Nearest {ℓ} (W : Type ℓ) : Type ℓ where
  pub index : ℕ
  pub along : W
  pub distance : W

module _ {ℓ} {W : Type ℓ} ⦃d : Double W⦄ where
  abbrev pub placed_waypoint : Waypoint W → Waypoint W → Waypoint W
  placed_waypoint f p = record {
    x = (f.x ⊕ (d.cos f.yaw ⊗ p.x)) ⊖ (d.sin f.yaw ⊗ p.y);
    y = (f.y ⊕ (d.sin f.yaw ⊗ p.x)) ⊕ (d.cos f.yaw ⊗ p.y);
    yaw = p.yaw ⊕ f.yaw;
  }

  -- The plan in the costmap's frame; none where the loop fails with a position that is not finite.
  unfoldable pub place_plan : Waypoint W → List (Waypoint W) → Option (List (Waypoint W))
  place_plan f [] = some []
  place_plan f (p ∷ ps) =
      let q = placed_waypoint f p in
      let rest = place_plan f ps in
      if not (d.is_finite q.x) || not (d.is_finite q.y)
      then none
      else elim rest [ none ↦ none | some qs ↦ some (q ∷ qs) ]

  abbrev pub waypoint : List (Waypoint W) → ℕ → Waypoint W
  waypoint path i = get_or path i (record { x = nought; y = nought; yaw = nought })

  -- ex and ey of the segment that begins at a pose.
  abbrev pub step_x : List (Waypoint W) → ℕ → W
  step_x path i = (waypoint path (suc i)).x ⊖ (waypoint path i).x

  abbrev pub step_y : List (Waypoint W) → ℕ → W
  step_y path i = (waypoint path (suc i)).y ⊖ (waypoint path i).y

  -- The plan's travel along its own heading: negative on a segment that is driven in reverse.
  unfoldable pub plan_direction : List (Waypoint W) → ℕ → W
  plan_direction path i =
      (d.cos (waypoint path i).yaw ⊗ step_x path i) ⊕ (d.sin (waypoint path i).yaw ⊗ step_y path i)

  abbrev pub planned_direction : List (Waypoint W) → ℕ → W
  planned_direction path i = if d.lt (plan_direction path i) nought then d.neg one else one

module _ {ℓ} {W : Type ℓ} ⦃d : Double W⦄ ⦃r : Cmath W⦄ where
  -- s[i], the arc length up to a pose.
  unfoldable pub arc_length : List (Waypoint W) → ℕ → W
  arc_length path zero = nought
  arc_length path (suc i) = arc_length path i ⊕ r.hypot (step_x path i) (step_y path i)

  -- t and d2 of the projection of a position on a segment.
  unfoldable pub along_segment : List (Waypoint W) → W → W → ℕ → W
  along_segment path cx cy i =
      let ex = step_x path i in
      let ey = step_y path i in
      let len2 = (ex ⊗ ex) ⊕ (ey ⊗ ey) in
      let p = waypoint path i in
      if d.lt r.length_floor len2
      then clamp ((((cx ⊖ p.x) ⊗ ex) ⊕ ((cy ⊖ p.y) ⊗ ey)) ⊘ len2) nought one
      else nought

  unfoldable pub segment_distance : List (Waypoint W) → W → W → ℕ → W
  unfolding along_segment
  segment_distance path cx cy i =
      let t = along_segment path cx cy i in
      let dx = ((waypoint path i).x ⊕ (t ⊗ step_x path i)) ⊖ cx in
      let dy = ((waypoint path i).y ⊕ (t ⊗ step_y path i)) ⊖ cy in (dx ⊗ dx) ⊕ (dy ⊗ dy)

  -- The loop over `left` segments from index i on.
  unfoldable pub nearest_from : List (Waypoint W) → W → W → ℕ → ℕ → Nearest W → Nearest W
  unfolding along_segment segment_distance
  nearest_from path cx cy zero i b = b
  nearest_from path cx cy (suc left) i b = nearest_from path cx cy left (suc i) (
      if d.lt (segment_distance path cx cy i) b.distance
      then record {
        index = i;
        along = along_segment path cx cy i;
        distance = segment_distance path cx cy i;
      }
      else b)

  -- The index that the search begins at.
  abbrev pub resumed : List (Waypoint W) → ℕ → ℕ
  resumed path plan_index = if leb (length path) plan_index then 0 else plan_index

  unfoldable pub project : List (Waypoint W) → W → W → ℕ → Nearest W
  unfolding nearest_from
  project path cx cy plan_index =
      let start = resumed path plan_index in
      nearest_from path cx cy (length path - 1 - start) start
        (record { index = start; along = nought; distance = r.largest })

  -- s0
  unfoldable pub plan_offset : List (Waypoint W) → Nearest W → W
  unfolding arc_length
  plan_offset path b =
      let s = arc_length path b.index in
      if ltb (b.index + 1) (length path)
      then s ⊕ (b.along ⊗ (arc_length path (suc b.index) ⊖ s))
      else s

  -- The arc length of the first cusp among `left` segments from index i on, or else s_end.
  unfoldable pub next_cusp : List (Waypoint W) → W → W → ℕ → ℕ → W
  unfolding arc_length plan_direction
  next_cusp path dir s_end zero i = s_end
  next_cusp path dir s_end (suc left) i =
      let rest = next_cusp path dir s_end left (suc i) in
      let along = plan_direction path i in
      let opposed = if d.lt along nought then not (d.lt dir nought) else d.lt dir nought in
      if not (d.eq along nought) && opposed then arc_length path i else rest

  -- The gates of a change of direction: the direction afterwards, and how far the reference may go.
  unfoldable pub shift_direction : Rig W → W → W → W → Pilot W → Pilot W × W
  shift_direction rig dir_cmd s0 s_end p =
      if d.eq dir_cmd p.dir
      then (p, s_end)
      else if d.le (abs p.last_cmd_v) rig.direction_switch_standstill_speed_mps
          && d.le rig.direction_switch_dwell_s p.dir_hold_s
      then (record p { dir = dir_cmd; dir_hold_s = nought }, s_end)
      else (p, s0)

  -- Whether the plan's direction is read at all.
  abbrev pub may_reverse : Rig W → List (Waypoint W) → ℕ → Bool
  may_reverse rig path best =
      rig.allow_reversing
      && rig.reverse_from_plan_orientation
      && d.lt rig.v_min nought
      && ltb (best + 1) (length path)

  unfoldable pub choose_direction : Rig W → List (Waypoint W) → ℕ → W → Pilot W → Pilot W × W
  unfolding arc_length plan_direction next_cusp shift_direction
  choose_direction rig path best s0 p =
      let back = arc_length path (length path - 1) in
      let (next, s_end) = shift_direction rig (planned_direction path best) s0 back p in
      if may_reverse rig path best
      then (
        next,
        if d.lt s0 s_end
            then next_cusp path next.dir s_end (length path - 1 - (best + 1)) (best + 1)
            else s_end,
      )
      else (record p { dir = one }, back)

  -- The cruise speed before it is tapered at the goal.
  unfoldable pub cruise_speed : Rig W → Pilot W → W → W → W
  cruise_speed rig p s0 s_end =
      let horizon = d.of_nat rig.np ⊗ rig.dt in
      let v = fmin (fmin rig.desired_linear_vel p.max_linear_vel) ((s_end ⊖ s0) ⊘ horizon) in
      if d.lt v nought then nought else v
