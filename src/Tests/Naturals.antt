-- ===== src/Tests/Naturals.antt =====
-- A further instance of the operations, on the natural numbers, and a sort of the pairs over it.
use prox_mpc.Base.{
  ℕ, ◌+◌, ◌-◌, ◌*◌, ◌/◌, ◌≡◌, true, false, List, [], ◌∷◌, if◌then◌else◌, ltb, leb, ◌==◌, inl, inr,
  Bool-cases, All, All-weaken, arith,
}
use prox_mpc.Base.Double.{Double}
use prox_mpc.Base.Cmath.{Cmath}
use prox_mpc.Tracker.Association.{Pair}
use prox_mpc.Tracker.Greedy.{IsSort, IsOrdered}

-- Numbers in whole units; the roots and angles are not imitated, and the decimals are 1.
instance abbrev pub nat_double : Double ℕ
nat_double = record {
  of_nat = λ n. n;
  add = ◌+◌;
  sub = ◌-◌;
  mul = ◌*◌;
  div = ◌/◌;
  neg = λ a. 0;
  sqrt = λ a. a;
  sin = λ a. 0;
  cos = λ a. 1;
  tan = λ a. a;
  lt = ltb;
  le = leb;
  eq = ◌==◌;
  is_finite = λ a. true;
  is_nan = λ a. false;
  infinity = 1000;
  nan = 0;
  half = 1;
  nano = 1;
  weight_tol = 1;
  far = 1000;
}

instance abbrev pub nat_cmath : Cmath ℕ
nat_cmath = record {
  fmod = λ a b. a;
  hypot = ◌+◌;
  atan2 = λ a b. 0;
  exp = λ a. 1;
  pi = 3;
  hundredth = 1;
  stay = 1;
  thousandth = 1;
  omega_eps = 1;
  likelihood_floor = 1;
  length_floor = 0;
  largest = 1_000_000;
}

abbrev insert : Pair ℕ → List (Pair ℕ) → List (Pair ℕ)
insert p [] = p ∷ []
insert p (q ∷ qs) = if ltb q.d2 p.d2 then q ∷ insert p qs else p ∷ q ∷ qs

abbrev pub insertion_sort : List (Pair ℕ) → List (Pair ℕ)
insertion_sort [] = []
insertion_sort (p ∷ ps) = insert p (insertion_sort ps)

insert-All :
    (P : Pair ℕ → Type 0) (p : Pair ℕ) (qs : List (Pair ℕ)) → P p → All P qs → All P (insert p qs)
insert-All P p [] h hs = (h, tt)
insert-All P p (q ∷ qs) h hs = elim (Bool-cases (ltb q.d2 p.d2)) [
  | inl less ↦ rw less (hs.0, insert-All P p qs h hs.1)
  | inr not_less ↦ rw not_less (h, hs)
]

All-insert :
    (P : Pair ℕ → Type 0) (p : Pair ℕ) (qs : List (Pair ℕ)) → All P (insert p qs) → P p × All P qs
All-insert P p [] h = h
All-insert P p (q ∷ qs) h = elim (Bool-cases (ltb q.d2 p.d2)) [
  | inl less ↦
      let kept : All P (q ∷ insert p qs) = rw less at h in
      let (own, rest) = All-insert P p qs kept.1 in (own, (kept.0, rest))
  | inr not_less ↦ rw not_less at h
]

insert-IsOrdered : (p : Pair ℕ) (qs : List (Pair ℕ)) → IsOrdered qs → IsOrdered (insert p qs)
insert-IsOrdered p [] h = (tt, tt)
insert-IsOrdered p (q ∷ qs) h = elim (Bool-cases (ltb q.d2 p.d2)) [
  | inl less ↦ rw less (
    insert-All (λ r. ltb r.d2 q.d2 ≡ false) p qs (ground (arith, less)) h.0,
    insert-IsOrdered p qs h.1,
  )
  | inr not_less ↦ rw not_less (
    (
      not_less,
      All-weaken (λ r. ltb r.d2 q.d2 ≡ false) (λ r. ltb r.d2 p.d2 ≡ false)
          (λ r far. ground (arith, far, not_less)) qs h.0,
    ),
    h,
  )
]

sorted-All : (P : Pair ℕ → Type 0) (ps : List (Pair ℕ)) → All P ps → All P (insertion_sort ps)
sorted-All P [] h = tt
sorted-All P (p ∷ ps) h = insert-All P p (insertion_sort ps) h.0 (sorted-All P ps h.1)

All-sorted : (P : Pair ℕ → Type 0) (ps : List (Pair ℕ)) → All P (insertion_sort ps) → All P ps
All-sorted P [] h = tt
All-sorted P (p ∷ ps) h =
    let (own, rest) = All-insert P p (insertion_sort ps) h in (own, All-sorted P ps rest)

sorted-IsOrdered : (ps : List (Pair ℕ)) → IsOrdered (insertion_sort ps)
sorted-IsOrdered [] = tt
sorted-IsOrdered (p ∷ ps) = insert-IsOrdered p (insertion_sort ps) (sorted-IsOrdered ps)

pub insertion_sort-IsSort : IsSort insertion_sort
insertion_sort-IsSort = record { given = sorted-All; kept = All-sorted; ordered = sorted-IsOrdered }
