-- ===== src/Tracker/Gate.antt =====
-- Tracker::update: which measurement each track takes.
use prox_mpc.Base.{
  ℕ, zero, suc, ◌+◌, ◌<◌, ◌≤◌, ◌≡◌, refl, ap, subst, ◌∙◌, Bool, true, false, none, some, List, [],
  ◌∷◌, ◌++◌, if◌then◌else◌, ◌⊎◌, inl, inr, length, get_or, range_from, gather, All, All-gather,
  range_from-within, length-replicate, arith,
}
use native.Mathlib.Decide.{ℕ_discrete}
use prox_mpc.Base.Double.{Double}
use prox_mpc.Base.Matrix.{Vector}
use prox_mpc.Tracker.Clustering.{Cluster}
use prox_mpc.Tracker.Association.{
  Pair, squared_distance, gated_pairs, unmatched, associate, nowhere, no_cluster,
}
use prox_mpc.Tracker.Matching.{Given, Used, IsMatching}
use prox_mpc.Tracker.Greedy.{IsSort, Fits, IsSettled, assign_all-lem}

All-append_left {ℓ κ} : {A : Type ℓ} (P : A → Type κ) (xs ys : List A) → All P (xs ++ ys) → All P xs
All-append_left P [] ys h = tt
All-append_left P (x ∷ xs) ys h = (h.0, All-append_left P xs ys h.1)

All-append_right {ℓ κ} :
    {A : Type ℓ} (P : A → Type κ) (xs ys : List A) → All P (xs ++ ys) → All P ys
All-append_right P [] ys h = h
All-append_right P (x ∷ xs) ys h = All-append_right P xs ys h.1

-- What all effects of a counted loop have, those of each of its rounds have.
All-round {ℓ κ} :
    {A : Type ℓ} (P : A → Type κ) (f : ℕ → List A) (count a i : ℕ)
    → a ≤ i
    → i < a + count
    → All P (gather f (range_from count a))
    → All P (f i)
All-round P f zero a i lo hi h = absurd (omega arith)
All-round P f (suc count) a i lo hi h = elim (ℕ_discrete a i) [
  | yes e ↦
      subst (λ k. All P (f k)) e (All-append_left P (f a) (gather f (range_from count (suc a))) h)
  | no ne ↦
      All-round P f count (suc a) i (omega arith) (omega arith)
        (All-append_right P (f a) (gather f (range_from count (suc a))) h)
]

All-test {ℓ κ} :
    {A : Type ℓ} (P : A → Type κ) (t : Bool) (a : A)
    → (t ≡ true → P a)
    → All P (if t then a ∷ [] else [])
All-test P true a h = (h refl, tt)
All-test P false a h = tt

test-All {ℓ κ} :
    {A : Type ℓ} (P : A → Type κ) (t : Bool) (a : A)
    → t ≡ true
    → All P (if t then a ∷ [] else [])
    → P a
test-All P true a e h = h.0
test-All P false a e h = cc

module _ {ℓ} {W : Type ℓ} ⦃d : Double W⦄ (gate2 : W) (states : List (Vector W))
    (ms : List (Cluster W)) where
  -- The squared distance of a track and a measurement.
  abbrev pub distance : ℕ → ℕ → W
  distance i m = squared_distance (get_or states i nowhere) (get_or ms m no_cluster)

  abbrev InGate : Pair W → Type ℓ
  InGate q =
      (q.ti < length states)
      × (q.mi < length ms)
      × (q.d2 ≡ distance q.ti q.mi)
      × (d.le q.d2 gate2 ≡ true)

  abbrev pair_of : ℕ → ℕ → Pair W
  pair_of i m = record { d2 = distance i m; ti = i; mi = m }

  gated_pairs-Fits : All (Fits (length states) (length ms) InGate) (gated_pairs gate2 states ms)
  unfolding gated_pairs
  gated_pairs-Fits =
      All-gather (λ i. (0 ≤ i) × (i < length states)) (Fits (length states) (length ms) InGate) _
        (λ i hi.
          All-gather (λ m. (0 ≤ m) × (m < length ms)) (Fits (length states) (length ms) InGate) _
            (λ m hm.
              All-test (Fits (length states) (length ms) InGate) (d.le (distance i m) gate2)
                (pair_of i m) (λ near. (hi.1, hm.1, (hi.1, hm.1, refl, near))))
            (range_from (length ms) 0)
            (range_from-within (length ms) 0 0 (length ms) (omega arith) (omega arith)))
        (range_from (length states) 0)
        (range_from-within (length states) 0 0 (length states) (omega arith) (omega arith))

  gated_pairs-has :
      (P : Pair W → Type ℓ) (i m : ℕ)
      → i < length states
      → m < length ms
      → d.le (distance i m) gate2 ≡ true
      → All P (gated_pairs gate2 states ms)
      → P (pair_of i m)
  unfolding gated_pairs
  gated_pairs-has P i m hi hm near h = test-All P (d.le (distance i m) gate2) (pair_of i m) near (
      All-round P _ (length ms) 0 m (omega arith) (omega arith)
        (All-round P _ (length states) 0 i (omega arith) (omega arith) h))

none-not_some : {m : ℕ} → none ≡ some m → ⊥
none-not_some h = cc

Given-unmatched : (nt nm i m : ℕ) → Given (unmatched nt nm) i m → ⊥
Given-unmatched zero nm i m g = none-not_some g
Given-unmatched (suc nt) nm zero m g = none-not_some g
Given-unmatched (suc nt) nm (suc i) m g = Given-unmatched nt nm i m g

Used-unmatched : (nt nm m : ℕ) → Used (unmatched nt nm) m → ⊥
Used-unmatched nt zero m u = cc
Used-unmatched nt (suc nm) zero u = cc
Used-unmatched nt (suc nm) (suc m) u = Used-unmatched nt nm m u

module _ {ℓ} {W : Type ℓ} ⦃d : Double W⦄ (sort : List (Pair W) → List (Pair W)) where
  associate-all :
      (gate2 : W) (states : List (Vector W)) (ms : List (Cluster W))
      → IsSort sort
      → IsMatching
          (length states)
          (length ms)
          (InGate gate2 states ms)
          []
          (associate sort gate2 states ms)
        × All
            (IsSettled
              (length states)
              (length ms)
              (InGate gate2 states ms)
              (associate sort gate2 states ms))
            (sort (gated_pairs gate2 states ms))
  unfolding associate
  associate-all gate2 states ms sorts =
      assign_all-lem (length states) (length ms) (InGate gate2 states ms)
        (sort (gated_pairs gate2 states ms)) (unmatched (length states) (length ms))
        (sorts.given _ _ (gated_pairs-Fits gate2 states ms)) (sorts.ordered _)
        (record {
          tracks = length-replicate (length states) none;
          measured = length-replicate (length ms) false;
          origin = λ i m g. absurd (Given-unmatched (length states) (length ms) i m g);
          backed = λ i m g. absurd (Given-unmatched (length states) (length ms) i m g);
          matched = λ m u. absurd (Used-unmatched (length states) (length ms) m u);
          single = λ i j m g h. absurd (Given-unmatched (length states) (length ms) i m g);
        })

  -- If `sort` sorts, a measurement that two tracks have been given makes them one track, which exists
  -- and whose squared distance to it, which exists too, is within the squared gate; and the
  -- measurement is marked as used.
  pub associate-IsMatching :
      (gate2 : W) (states : List (Vector W)) (ms : List (Cluster W)) (i j m : ℕ)
      → IsSort sort
      → Given (associate sort gate2 states ms) i m
      → Given (associate sort gate2 states ms) j m
      → (i ≡ j)
        × (i < length states)
        × (m < length ms)
        × (d.le (distance gate2 states ms i m) gate2 ≡ true)
        × Used (associate sort gate2 states ms) m
  associate-IsMatching gate2 states ms i j m sorts gi gj =
      let (h, settled) = associate-all gate2 states ms sorts in
      let (q, ei, em, (hi, hm, e, near), later) = h.origin i m gi in
      (
        h.single i j m gi gj,
        omega (arith, hi, ei),
        omega (arith, hm, em),
        subst (λ b. d.le b gate2 ≡ true)
            (e
              ∙ (ap (λ k. distance gate2 states ms k q.mi) ei
                  ∙ ap (λ k. distance gate2 states ms i k) em))
            near,
        h.backed i m gi,
      )

  -- If `sort` sorts, a track and a measurement within the gate are matched with one another, or one of
  -- them is matched with another, over a squared distance that is not larger.
  pub associate-IsStable :
      (gate2 : W) (states : List (Vector W)) (ms : List (Cluster W)) (i m : ℕ)
      → IsSort sort
      → i < length states
      → m < length ms
      → d.le (distance gate2 states ms i m) gate2 ≡ true
      → Given (associate sort gate2 states ms) i m
        ⊎ ((j k : ℕ) × Given (associate sort gate2 states ms) j k
            × ((j ≡ i) ⊎ (k ≡ m))
            × (d.lt (distance gate2 states ms i m) (distance gate2 states ms j k) ≡ false))
  associate-IsStable gate2 states ms i m sorts hi hm near =
      let (h, settled) = associate-all gate2 states ms sorts in
      elim (gated_pairs-has gate2 states ms _ i m hi hm near (sorts.kept _ _ settled)) [
        | inl g ↦ inl g
        | inr (q, g, shares, (ti, mi, e, le), far) ↦ inr (
          q.ti,
          q.mi,
          g,
          shares,
          subst (λ b. d.lt (distance gate2 states ms i m) b ≡ false) e far,
        )
      ]
