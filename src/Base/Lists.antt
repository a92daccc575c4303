-- ===== src/Base/Lists.antt =====
-- Lists measured and indexed by native numbers, under the library's names.
use Prim.Native.Nat.{ℕ, zero, suc, ◌+◌, ◌<◌}
use mathlib.Core.Path.{◌≡◌, refl, ap}
use mathlib.Core.List.{List, [], ◌∷◌, ◌++◌, map, map-append}
use mathlib.Core.Option.{Option, none, some}
use native.Mathlib.Omega.{arith}

module _ {ℓ} {A : Type ℓ} where
  abbrev pub length : List A → ℕ
  length [] = 0
  length (x ∷ xs) = suc (length xs)

  abbrev pub get_elem? : List A → ℕ → Option A
  get_elem? [] i = none
  get_elem? (x ∷ xs) zero = some x
  get_elem? (x ∷ xs) (suc i) = get_elem? xs i

  abbrev pub get_or : List A → ℕ → A → A
  get_or [] i d = d
  get_or (x ∷ xs) zero d = x
  get_or (x ∷ xs) (suc i) d = get_or xs i d

  -- A write out of bounds changes nothing.
  abbrev pub set : List A → ℕ → A → List A
  set [] i v = []
  set (x ∷ xs) zero v = v ∷ xs
  set (x ∷ xs) (suc i) v = x ∷ set xs i v

  abbrev pub replicate : ℕ → A → List A
  replicate zero a = []
  replicate (suc n) a = a ∷ replicate n a

  abbrev pub take : ℕ → List A → List A
  take zero xs = []
  take (suc n) [] = []
  take (suc n) (x ∷ xs) = x ∷ take n xs

  -- The last element, as `std::vector::back`, or a default on an empty list.
  abbrev pub back_or : List A → A → A
  back_or [] d = d
  back_or (x ∷ xs) d = back_or xs x

  abbrev pub All {κ} : (A → Type κ) → List A → Type κ
  All P [] = Unit
  All P (x ∷ xs) = P x × All P xs

module _ {ℓ} {A : Type ℓ} where
  pub length-append : (xs ys : List A) → length (xs ++ ys) ≡ length xs + length ys
  length-append [] ys = omega arith
  length-append (x ∷ xs) ys = omega (arith, length-append xs ys)

  pub length-replicate : (n : ℕ) (a : A) → length (replicate n a) ≡ n
  length-replicate zero a = refl
  length-replicate (suc n) a = ap suc (length-replicate n a)

  pub length-set : (xs : List A) (i : ℕ) (v : A) → length (set xs i v) ≡ length xs
  length-set [] i v = refl
  length-set (x ∷ xs) zero v = refl
  length-set (x ∷ xs) (suc i) v = ap suc (length-set xs i v)

  pub get_or-replicate : (n : ℕ) (a d : A) (i : ℕ) → i < n → get_or (replicate n a) i d ≡ a
  get_or-replicate zero a d i h = elim h [ ]
  get_or-replicate (suc n) a d zero h = refl
  get_or-replicate (suc n) a d (suc i) h = get_or-replicate n a d i (omega arith)

  pub get_or-append_left :
      (xs ys : List A) (d : A) (i : ℕ) → i < length xs → get_or (xs ++ ys) i d ≡ get_or xs i d
  get_or-append_left [] ys d i h = elim h [ ]
  get_or-append_left (x ∷ xs) ys d zero h = refl
  get_or-append_left (x ∷ xs) ys d (suc i) h = get_or-append_left xs ys d i (omega arith)

  pub get_or-append_right :
      (xs ys : List A) (d : A) (i j : ℕ) → i ≡ length xs + j → get_or (xs ++ ys) i d ≡ get_or ys j d
  get_or-append_right [] ys d i j h = ap (λ k. get_or ys k d) (omega arith)
  get_or-append_right (x ∷ xs) ys d zero j h = absurd (omega arith)
  get_or-append_right (x ∷ xs) ys d (suc i) j h = get_or-append_right xs ys d i j (omega arith)

  pub All-append {κ} : (P : A → Type κ) (xs ys : List A) → All P xs → All P ys → All P (xs ++ ys)
  All-append P [] ys _ q = q
  All-append P (x ∷ xs) ys (p, ps) q = (p, All-append P xs ys ps q)

  pub All-weaken {κ μ} :
      (P : A → Type κ) (Q : A → Type μ) (f : (a : A) → P a → Q a) (xs : List A)
      → All P xs
      → All Q xs
  All-weaken P Q f [] h = tt
  All-weaken P Q f (x ∷ xs) h = (f x h.0, All-weaken P Q f xs h.1)

  pub All-get_or {κ} :
      (P : A → Type κ) (xs : List A) (d : A) (i : ℕ) → All P xs → i < length xs → P (get_or xs i d)
  All-get_or P [] d i h lt = elim lt [ ]
  All-get_or P (x ∷ xs) d zero h lt = h.0
  All-get_or P (x ∷ xs) d (suc i) h lt = All-get_or P xs d i h.1 (omega arith)

-- The body of a loop over a list gives a list of effects; the loop gives them one after the other.
module _ {ℓ κ} {A : Type ℓ} {B : Type κ} where
  abbrev pub gather : (A → List B) → List A → List B
  gather f [] = []
  gather f (x ∷ xs) = f x ++ gather f xs

  pub All-gather {μ ν} :
      (P : A → Type μ) (Q : B → Type ν) (f : A → List B)
      → ((a : A) → P a → All Q (f a))
      → (xs : List A) → All P xs
      → All Q (gather f xs)
  All-gather P Q f step [] h = tt
  All-gather P Q f step (x ∷ xs) h =
      All-append Q (f x) (gather f xs) (step x h.0) (All-gather P Q f step xs h.1)

  pub map-gather {μ} :
      {C : Type μ} (g : B → C) (f f' : A → List B)
      → ((a : A) → map g (f a) ≡ map g (f' a))
      → (xs : List A) → map g (gather f xs) ≡ map g (gather f' xs)
  map-gather g f f' same [] = refl
  map-gather g f f' same (x ∷ xs) = simp (map-append, same x, map-gather g f f' same xs)
