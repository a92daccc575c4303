-- ===== src/Tracker/Lifecycle.antt =====
-- The life cycle keeps the tracks' identifiers apart, their counts in step with their confirmation,
-- and their number within the cap.
use prox_mpc.Base.{
  ℕ, zero, suc, ◌+◌, ◌%◌, ◌^◌, ◌<◌, ◌≤◌, ◌≡◌, refl, sym, ap, subst, Bool, true, false, ◌||◌, Option,
  none, List, [], ◌∷◌, ◌++◌, map, ◌⊎◌, inl, inr, Bool-cases, length, length-append, get_or, leb,
  All, All-append, All-weaken, arith,
}
use mathlib.Core.List.{map-append}
use native.Mathlib.Nat.{mod-eq_of_lt}
use prox_mpc.Base.Int.{pos, leb_ℤ, ltb_ℤ}
use prox_mpc.Tracker.Association.{is_some}
use prox_mpc.Tracker.Roster.{
  Card, Roster, Rules, aged_card, aged_cards, kept_cards, enrolled, enroll, next_roster,
}

abbrev pub Ascending : List ℕ → Type 0
Ascending [] = Unit
Ascending (n ∷ ns) = All (λ k. n < k) ns × Ascending ns

abbrev pub ids : List Card → List ℕ
ids cs = map (λ c. c.id) cs

-- Hits or misses are counted, not both, and what is not confirmed has fewer hits than that takes.
abbrev pub IsCard : Rules → Card → Type 0
IsCard r c =
    ((c.hits ≡ 0) ⊎ (c.misses ≡ 0)) × ((c.confirmed || ltb_ℤ (pos c.hits) r.confirm_count) ≡ true)

-- The misses do not exceed the limit, or there are none.
abbrev pub IsAlive : Rules → Card → Type 0
IsAlive r c = (ltb_ℤ r.drop_count (pos c.misses) ≡ false) ⊎ (c.misses ≡ 0)

-- Identifiers rise along the list and lie below the next one, and the list keeps to the cap.
pub record IsRoster (r : Rules) (o : Roster) : Type 0 where
  pub ascending : Ascending (ids o.cards)
  pub fresh : All (λ n. n < o.next_id) (ids o.cards)
  pub counted : All (IsCard r) o.cards
  pub capped : length o.cards ≤ r.max_tracks

Ascending-append :
    (ns : List ℕ) (n : ℕ) → Ascending ns → All (λ k. k < n) ns → Ascending (ns ++ (n ∷ []))
Ascending-append [] n h below = (tt, tt)
Ascending-append (k ∷ ns) n h below =
    (All-append (λ j. k < j) ns (n ∷ []) h.0 (below.0, tt), Ascending-append ns n h.1 below.1)

module _ (r : Rules) where
  aged_card-IsCard : (hit : Bool) (c : Card) → IsCard r c → IsCard r (aged_card r hit c)
  aged_card-IsCard true c h = (inr refl, ground arith)
  aged_card-IsCard false c h = (inl refl, ground arith)

  aged_card-id : (hit : Bool) (c : Card) → (aged_card r hit c).id ≡ c.id
  aged_card-id true c = refl
  aged_card-id false c = refl

  aged_cards-ids :
      (o : List (Option ℕ)) (i : ℕ) (cs : List Card) → ids (aged_cards r o i cs) ≡ ids cs
  aged_cards-ids o i [] = refl
  aged_cards-ids o i (c ∷ cs) =
      rw (aged_card-id (is_some (get_or o i none)) c, aged_cards-ids o (suc i) cs) refl

  aged_cards-IsCard :
      (o : List (Option ℕ)) (i : ℕ) (cs : List Card)
      → All (IsCard r) cs
      → All (IsCard r) (aged_cards r o i cs)
  aged_cards-IsCard o i [] h = tt
  aged_cards-IsCard o i (c ∷ cs) h =
      (aged_card-IsCard (is_some (get_or o i none)) c h.0, aged_cards-IsCard o (suc i) cs h.1)

  length-aged_cards :
      (o : List (Option ℕ)) (i : ℕ) (cs : List Card) → length (aged_cards r o i cs) ≡ length cs
  length-aged_cards o i [] = refl
  length-aged_cards o i (c ∷ cs) = ap suc (length-aged_cards o (suc i) cs)

  -- Every part of the roster's list that is named by a predicate survives the deaths.
  kept_cards-All : (P : Card → Type 0) (cs : List Card) → All P cs → All P (kept_cards r cs)
  kept_cards-All P [] h = tt
  kept_cards-All P (c ∷ cs) h = elim (Bool-cases (ltb_ℤ r.drop_count (pos c.misses))) [
    | inl dead ↦ rw dead (kept_cards-All P cs h.1)
    | inr alive ↦ rw alive (h.0, kept_cards-All P cs h.1)
  ]

  kept_cards-ids :
      (P : ℕ → Type 0) (cs : List Card) → All P (ids cs) → All P (ids (kept_cards r cs))
  kept_cards-ids P [] h = tt
  kept_cards-ids P (c ∷ cs) h = elim (Bool-cases (ltb_ℤ r.drop_count (pos c.misses))) [
    | inl dead ↦ rw dead (kept_cards-ids P cs h.1)
    | inr alive ↦ rw alive (h.0, kept_cards-ids P cs h.1)
  ]

  kept_cards-Ascending : (cs : List Card) → Ascending (ids cs) → Ascending (ids (kept_cards r cs))
  kept_cards-Ascending [] h = tt
  kept_cards-Ascending (c ∷ cs) h = elim (Bool-cases (ltb_ℤ r.drop_count (pos c.misses))) [
    | inl dead ↦ rw dead (kept_cards-Ascending cs h.1)
    | inr alive ↦ rw alive (kept_cards-ids (λ k. c.id < k) cs h.0, kept_cards-Ascending cs h.1)
  ]

  kept_cards-IsAlive : (cs : List Card) → All (IsAlive r) (kept_cards r cs)
  kept_cards-IsAlive [] = tt
  kept_cards-IsAlive (c ∷ cs) = elim (Bool-cases (ltb_ℤ r.drop_count (pos c.misses))) [
    | inl dead ↦ rw dead (kept_cards-IsAlive cs)
    | inr alive ↦ rw alive (inl alive, kept_cards-IsAlive cs)
  ]

  length-kept_cards : (cs : List Card) → length (kept_cards r cs) ≤ length cs
  length-kept_cards [] = omega arith
  length-kept_cards (c ∷ cs) = elim (Bool-cases (ltb_ℤ r.drop_count (pos c.misses))) [
    | inl dead ↦ rw dead (omega (arith, length-kept_cards cs))
    | inr alive ↦ rw alive (omega (arith, length-kept_cards cs))
  ]

  aged-IsRoster :
      (o : List (Option ℕ)) (s : Roster)
      → IsRoster r s
      → IsRoster r (record s { cards = kept_cards r (aged_cards r o 0 s.cards) })
  aged-IsRoster o s h =
      let same = aged_cards-ids o 0 s.cards in
      record {
        ascending =
            kept_cards-Ascending (aged_cards r o 0 s.cards)
              (subst Ascending (sym same) h.ascending);
        fresh =
            kept_cards-ids (λ n. n < s.next_id) (aged_cards r o 0 s.cards)
              (subst (All (λ n. n < s.next_id)) (sym same) h.fresh);
        counted =
            kept_cards-All (IsCard r) (aged_cards r o 0 s.cards)
              (aged_cards-IsCard o 0 s.cards h.counted);
        capped = omega (
          arith,
          h.capped,
          length-kept_cards (aged_cards r o 0 s.cards),
          length-aged_cards o 0 s.cards,
        );
      }

  enrolled-IsRoster :
      (s : Roster)
      → s.next_id + 1 < 2 ^ 32
      → length s.cards < r.max_tracks
      → IsRoster r s
      → IsRoster r (enrolled r s)
  enrolled-IsRoster s small room h =
      let next : (s.next_id + 1) % 2 ^ 32 ≡ s.next_id + 1 = mod-eq_of_lt small in
      let split = map-append (λ (c : Card). c.id) s.cards (born ∷ []) in
      rw next (record {
        ascending =
            subst Ascending (sym split)
              (Ascending-append (ids s.cards) s.next_id h.ascending h.fresh);
        fresh = subst (All (λ n. n < s.next_id + 1)) (sym split) (
            All-append (λ n. n < s.next_id + 1) (ids s.cards) (s.next_id ∷ [])
              (All-weaken (λ n. n < s.next_id) (λ n. n < s.next_id + 1) (λ n lt. omega arith)
                (ids s.cards) h.fresh)
              (omega arith, tt));
        counted =
            All-append (IsCard r) s.cards (born ∷ []) h.counted ((inr refl, ground arith), tt);
        capped = omega (arith, length-append s.cards (born ∷ []));
      })
    where
      born : Card
      born = record {
        id = s.next_id;
        hits = 1;
        misses = 0;
        confirmed = leb_ℤ r.confirm_count (pos 1);
      }

  -- What the births add to a list in which every track is alive is alive.
  enroll-lem :
      (used : List Bool) (count i : ℕ) (s : Roster)
      → s.next_id + count < 2 ^ 32
      → IsRoster r s
      → All (IsAlive r) s.cards
      → IsRoster r (enroll r used count i s)
        × All (IsAlive r) (enroll r used count i s).cards
        × ((enroll r used count i s).next_id ≤ s.next_id + count)
  unfolding enroll
  enroll-lem used zero i s small h alive = (h, alive, omega arith)
  enroll-lem used (suc count) i s small h alive = elim (Bool-cases (get_or used i false)) [
    | inl matched ↦ rw matched (
        let (next, living, bound) = enroll-lem used count (suc i) s (omega arith) h alive in
        (next, living, omega (arith, bound)))
    | inr unmatched ↦ elim (Bool-cases (leb r.max_tracks (length s.cards))) [
      | inl full ↦ rw (unmatched, full) (h, alive, omega arith)
      | inr room ↦
          let grown : IsRoster r (enrolled r s) =
            enrolled-IsRoster s (omega arith) (ground (arith, room)) h in
          let one_more : (enrolled r s).next_id ≡ s.next_id + 1 =
            mod-eq_of_lt {n = s.next_id + 1} {m = 2 ^ 32} (omega arith) in
          let (next, living, bound) =
            enroll-lem used count (suc i) (enrolled r s) (omega (arith, one_more)) grown
              (All-append (IsAlive r) s.cards _ alive (inr refl, tt)) in
          rw (unmatched, room) (next, living, omega (arith, bound, one_more))
    ]
  ]

  -- A scan keeps the roster's invariant as long as the identifiers do not run out, after it every
  -- track is alive, and it gives out at most one identifier for each measurement.
  pub next_roster-IsRoster :
      (matched : List (Option ℕ)) (used : List Bool) (count : ℕ) (s : Roster)
      → s.next_id + count < 2 ^ 32
      → IsRoster r s
      → IsRoster r (next_roster r matched used count s)
        × All (IsAlive r) (next_roster r matched used count s).cards
        × ((next_roster r matched used count s).next_id ≤ s.next_id + count)
  next_roster-IsRoster matched used count s small h =
      enroll-lem used count 0 _ small (aged-IsRoster matched s h)
        (kept_cards-IsAlive (aged_cards r matched 0 s.cards))
