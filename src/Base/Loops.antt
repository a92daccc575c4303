-- ===== src/Base/Loops.antt =====
-- Counted loops: the values that the loop variable takes, and tests over all of them.
use Prim.Native.Nat.{ℕ, zero, suc, ◌+◌, ◌-◌, ◌*◌, ◌<◌, ◌≤◌}
use mathlib.Core.Path.{◌≡◌, refl, ap}
use mathlib.Core.Logic.{inl, inr}
use mathlib.Core.Bool.{Bool, true, false, ◌&&◌}
use mathlib.Core.List.{List, [], ◌∷◌}
use native.Mathlib.Omega.{arith}
use prox_mpc.Base.Tests.{ltb, lt→ltb, ltb→lt, Bool-cases}
use prox_mpc.Base.Lists.{length, All}

-- `count` values from `a` on.
abbrev pub range_from : ℕ → ℕ → List ℕ
range_from zero a = []
range_from (suc count) a = a ∷ range_from count (suc a)

-- for (i = a; i < b; i++)
abbrev pub range : ℕ → ℕ → List ℕ
range a b = range_from (b - a) a

strided_from : ℕ → ℕ → ℕ → ℕ → List ℕ
strided_from zero a b step = []
strided_from (suc fuel) a b step = elim (ltb a b) [
  | true ↦ a ∷ strided_from fuel (a + step) b step
  | false ↦ []
]

-- for (i = a; i < b; i += step). A step of 0 would not end; `b - a` rounds are enough for any other.
unfoldable pub strided : ℕ → ℕ → ℕ → List ℕ
unfolding strided_from
strided a b step = strided_from (b - a) a b step

-- `count` values from `a` on, `step` apart.
abbrev pub multiples : ℕ → ℕ → ℕ → List ℕ
multiples zero a step = []
multiples (suc count) a step = a ∷ multiples count (a + step) step

strided_from-eq-multiples :
    (fuel count a b step : ℕ)
    → 0 < step
    → b ≡ a + count * step
    → count ≤ fuel
    → strided_from fuel a b step ≡ multiples count a step
unfolding strided_from
strided_from-eq-multiples zero zero a b step p e f = refl
strided_from-eq-multiples zero (suc count) a b step p e f = absurd (omega arith)
strided_from-eq-multiples (suc fuel) zero a b step p e f = elim (Bool-cases (ltb a b)) [
  | inl l ↦ absurd (grind (arith, ltb→lt))
  | inr l ↦ rw (l, strided_from)
]
strided_from-eq-multiples (suc fuel) (suc count) a b step p e f =
    let lt : a < b = grind arith in
    rw (lt→ltb a b lt, strided_from)
      (ap (λ l. a ∷ l)
        (strided_from-eq-multiples fuel count (a + step) b step p (grind arith) (omega arith)))

-- A strided loop that ends on its bound makes `count` rounds.
pub strided-eq-multiples :
    (count a b step : ℕ)
    → 0 < step
    → b ≡ a + count * step
    → strided a b step ≡ multiples count a step
unfolding strided
strided-eq-multiples count a b step p e =
    strided_from-eq-multiples (b - a) count a b step p e (grind arith)

pub range_from-within :
    (count a lo hi : ℕ)
    → lo ≤ a
    → a + count ≤ hi
    → All (λ i. (lo ≤ i) × (i < hi)) (range_from count a)
range_from-within zero a lo hi p q = tt
range_from-within (suc count) a lo hi p q =
    ((p, omega arith), range_from-within count (suc a) lo hi (omega arith) (omega arith))

pub range-within : (a b : ℕ) → All (λ i. (a ≤ i) × (i < b)) (range a b)
range-within a b = elim (Bool-cases (ltb a b)) [
  | inl l ↦ range_from-within (b - a) a a b (omega arith) (ground (arith, ltb→lt a b))
  | inr l ↦ let e : b - a ≡ 0 = ground arith in rw e tt
]

pub length-range_from : (count a : ℕ) → length (range_from count a) ≡ count
length-range_from zero a = refl
length-range_from (suc count) a = ap suc (length-range_from count (suc a))

-- Whether a test holds at 0, …, n - 1.
abbrev pub all_below : ℕ → (ℕ → Bool) → Bool
all_below zero p = true
all_below (suc n) p = p n && all_below n p

pub all_below_sound : (n : ℕ) (p : ℕ → Bool) (x : ℕ) → all_below n p ≡ true → x < n → p x ≡ true
all_below_sound zero p x h lt = absurd (omega arith)
all_below_sound (suc n) p x h lt = ground (arith, all_below_sound n p x)
