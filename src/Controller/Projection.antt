-- ===== src/Controller/Projection.antt =====
-- Where a cycle projects the robot on its plan, and when it may change its direction of travel.
use prox_mpc.Base.{
  ℕ, zero, suc, ltb, ltb→lt, ltb→le, subst, ◌&&◌, &&-eq-true, ◌+◌, ◌-◌, ◌≤◌, ◌<◌, ◌≡◌, refl, Bool,
  true, false, List, length, if◌then◌else◌, ◌⊎◌, inl, inr, Bool-cases, arith,
}
use prox_mpc.Base.Double.{Double, nought, abs}
use prox_mpc.Base.Cmath.{Cmath}
use prox_mpc.Controller.State.{Rig, Pilot}
use prox_mpc.Controller.Path.{
  Waypoint, Nearest, along_segment, segment_distance, nearest_from, resumed, project,
  planned_direction, shift_direction, may_reverse, choose_direction,
}

-- The comparison of doubles is a strict order.
pub record IsStrict {ℓ} (W : Type ℓ) ⦃d : Double W⦄ : Type ℓ where
  pub irreflexive : (a : W) → d.lt a a ≡ false
  pub transitive : (a b c : W) → d.lt a b ≡ true → d.lt b c ≡ true → d.lt a c ≡ true

both_ways : (t : Bool) → t ≡ true → t ≡ false → ⊥
both_ways t p q = ground arith

not-below {ℓ} :
    {W : Type ℓ} ⦃d : Double W⦄
    → IsStrict W
    → (a b c : W) → d.lt b c ≡ true
    → d.lt a c ≡ false
    → d.lt a b ≡ false
not-below {W = W} ⦃d⦄ order a b c lower off = elim (Bool-cases (d.lt a b)) [
  | inl on ↦ absurd (both_ways (d.lt a c) (order.transitive a b c on lower) off)
  | inr kept ↦ kept
]

-- A bound below suc i is one below i or i itself.
below_suc {ℓ} : (P : ℕ → Type ℓ) (i : ℕ) → ((k : ℕ) → k < i → P k) → P i → (k : ℕ) → k < suc i → P k
below_suc P i below at k h = elim (Bool-cases (ltb k i)) [
  | inl less ↦ below k (ltb→lt k i less)
  | inr more ↦ let e : i ≡ k = omega (arith, h, ltb→le k i more) in subst P e at
]

module _ {ℓ} {W : Type ℓ} ⦃d : Double W⦄ ⦃r : Cmath W⦄ where
  -- The best of the segments from lo on and before hi: none of them is nearer.
  pub record IsNearest (path : List (Waypoint W)) (cx cy : W) (lo hi : ℕ) (b : Nearest W)
      : Type ℓ where
    pub forward : lo ≤ b.index
    pub inside : (b.index ≡ lo) ⊎ (b.index < hi)
    pub least : (i : ℕ) → lo ≤ i → i < hi → d.lt (segment_distance path cx cy i) b.distance ≡ false
    pub attained :
        ((b.index ≡ lo) × (b.along ≡ nought) × (b.distance ≡ r.largest))
        ⊎ ((b.distance ≡ segment_distance path cx cy b.index)
            × (b.along ≡ along_segment path cx cy b.index))

  nearer-IsNearest :
      (path : List (Waypoint W)) (cx cy : W) (lo i : ℕ) (b : Nearest W)
      → IsStrict W
      → lo ≤ i
      → IsNearest path cx cy lo i b
      → IsNearest path cx cy lo (suc i) (
          if d.lt (segment_distance path cx cy i) b.distance
          then record {
            index = i;
            along = along_segment path cx cy i;
            distance = segment_distance path cx cy i;
          }
          else b)
  nearer-IsNearest path cx cy lo i b order le h =
      elim (Bool-cases (d.lt (segment_distance path cx cy i) b.distance)) [
        | inl closer ↦
            (rw closer (record {
              forward = le;
              inside = inr (omega arith);
              least = λ k p q.
                  below_suc
                    (λ n.
                      lo ≤ n
                      → d.lt (segment_distance path cx cy n) (segment_distance path cx cy i)
                        ≡ false)
                    i (λ n below from. not-below order _ _ b.distance closer (h.least n from below))
                    (λ from. order.irreflexive _) k q p;
              attained = inr (refl, refl);
            }))
        | inr farther ↦
            (rw farther (record {
              forward = h.forward;
              inside = elim h.inside [ inl e ↦ inl e | inr lt ↦ inr (omega (arith, lt)) ];
              least = λ k p q.
                  below_suc (λ n. lo ≤ n → d.lt (segment_distance path cx cy n) b.distance ≡ false)
                    i (λ n below from. h.least n from below) (λ from. farther) k q p;
              attained = h.attained;
            }))
      ]

  nearest_from-IsNearest :
      (path : List (Waypoint W)) (cx cy : W) (lo left i hi : ℕ) (b : Nearest W)
      → IsStrict W
      → lo ≤ i
      → hi ≡ i + left
      → IsNearest path cx cy lo i b
      → IsNearest path cx cy lo hi (nearest_from path cx cy left i b)
  unfolding nearest_from
  nearest_from-IsNearest path cx cy lo zero i hi b order le e h =
      let same : i ≡ hi = omega (arith, e) in subst (λ n. IsNearest path cx cy lo n b) same h
  nearest_from-IsNearest path cx cy lo (suc left) i hi b order le e h =
      nearest_from-IsNearest path cx cy lo left (suc i) hi _ order (omega (arith, le))
        (omega (arith, e)) (nearer-IsNearest path cx cy lo i b order le h)

  -- If the comparison of doubles is a strict order, the projection of the robot on a plan is not before the
  -- segment that the search begins at, and none of the segments from there to the end of the plan is
  -- nearer; it is the point of its own segment, or, where no segment is nearer than the largest double,
  -- the vertex that the search begins at.
  pub project-IsNearest :
      (path : List (Waypoint W)) (cx cy : W) (plan_index : ℕ)
      → IsStrict W
      → IsNearest path cx cy
          (resumed path plan_index)
          (resumed path plan_index + (length path - 1 - resumed path plan_index))
          (project path cx cy plan_index)
  unfolding project
  project-IsNearest path cx cy plan_index order =
      nearest_from-IsNearest path cx cy (resumed path plan_index)
        (length path - 1 - resumed path plan_index) (resumed path plan_index) _ _ order
        (omega arith) refl
        (record {
          forward = omega arith;
          inside = inl refl;
          least = λ i p q. absurd (omega (arith, p, q));
          attained = inl (refl, refl, refl);
        })

  -- What a cycle that reads the plan's direction does with it, if the robot's arc length is not below
  -- itself (is a number): it follows a change only from rest and after the dwell, which begins again; or
  -- it keeps its direction, and if that is not the plan's, its reference stays where the robot is.
  pub choose_direction-cases :
      (rig : Rig W) (path : List (Waypoint W)) (best : ℕ) (s0 : W) (p : Pilot W)
      → may_reverse rig path best ≡ true
      → d.lt s0 s0 ≡ false
      → (((choose_direction rig path best s0 p).0.dir ≡ planned_direction path best)
          × ((choose_direction rig path best s0 p).0.dir_hold_s ≡ nought)
          × (d.le (abs p.last_cmd_v) rig.direction_switch_standstill_speed_mps ≡ true)
          × (d.le rig.direction_switch_dwell_s p.dir_hold_s ≡ true))
        ⊎ (((choose_direction rig path best s0 p).0.dir ≡ p.dir)
            × ((choose_direction rig path best s0 p).0.dir_hold_s ≡ p.dir_hold_s)
            × ((d.eq (planned_direction path best) p.dir ≡ true)
                ⊎ ((choose_direction rig path best s0 p).1 ≡ s0)))
  unfolding choose_direction shift_direction
  choose_direction-cases rig path best s0 p reads still =
      elim (Bool-cases (d.eq (planned_direction path best) p.dir)) [
        | inl same ↦ inr (rw (reads, same) refl, rw (reads, same) refl, inl same)
        | inr other ↦
            elim (Bool-cases (
              d.le (abs p.last_cmd_v) rig.direction_switch_standstill_speed_mps
              && d.le rig.direction_switch_dwell_s p.dir_hold_s)) [
                | inl ready ↦ inl (
                  rw (reads, other, ready) refl,
                  rw (reads, other, ready) refl,
                  (&&-eq-true _ _ ready).0,
                  (&&-eq-true _ _ ready).1,
                )
                | inr waits ↦ inr (
                  rw (reads, other, waits) refl,
                  rw (reads, other, waits) refl,
                  inr (rw (reads, other, waits, still) refl),
                )
              ]
      ]
