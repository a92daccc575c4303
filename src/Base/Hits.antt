-- ===== src/Base/Hits.antt =====
-- Which places the writes of a loop reach.
use Prim.Native.Nat.{ℕ, zero, suc, ◌+◌, ◌*◌, ◌<◌, ◌≤◌}
use mathlib.Core.Path.{◌≡◌}
use mathlib.Core.Bool.{true}
use mathlib.Core.List.{List, [], ◌∷◌, ◌++◌, map, map-append}
use native.Mathlib.Omega.{arith}
use native.Mathlib.Decide.{ℕ_discrete}
use prox_mpc.Base.Tests.{==_refl}
use prox_mpc.Base.Lists.{All, gather}
use prox_mpc.Base.Loops.{range_from, multiples}
use prox_mpc.Base.Matrix.{Write, place, hits, block, block_column, block_cell}

pub hits-append_left :
    (xs ys : List (ℕ × ℕ)) (r c : ℕ) → hits xs r c ≡ true → hits (xs ++ ys) r c ≡ true
hits-append_left [] ys r c h = absurd (ground arith)
hits-append_left ((i, j) ∷ xs) ys r c h = ground (arith, hits-append_left xs ys r c)

pub hits-append_right :
    (xs ys : List (ℕ × ℕ)) (r c : ℕ) → hits ys r c ≡ true → hits (xs ++ ys) r c ≡ true
hits-append_right [] ys r c h = h
hits-append_right ((i, j) ∷ xs) ys r c h = ground (arith, hits-append_right xs ys r c h)

module _ {ℓ} {W : Type ℓ} (f : ℕ → List (Write W)) (r c : ℕ) where
  pub hits-range :
      (count a i : ℕ)
      → a ≤ i
      → i < a + count
      → hits (map place (f i)) r c ≡ true
      → hits (map place (gather f (range_from count a))) r c ≡ true
  hits-range zero a i lo hi h = absurd (omega arith)
  hits-range (suc count) a i lo hi h =
      rw (map-append place (f a) (gather f (range_from count (suc a)))) (elim (ℕ_discrete i a) [
        | yes e ↦ hits-append_left (map place (f a)) _ r c (rw e at h)
        | no ne ↦
            hits-append_right (map place (f a)) _ r c
              (hits-range count (suc a) i (omega arith) (omega arith) h)
      ])

  pub hits-multiples :
      (count a step k : ℕ)
      → k < count
      → hits (map place (f (a + k * step))) r c ≡ true
      → hits (map place (gather f (multiples count a step))) r c ≡ true
  hits-multiples zero a step k lt h = elim lt [ ]
  hits-multiples (suc count) a step zero lt h =
      rw (map-append place (f a) (gather f (multiples count (a + step) step))) (
        hits-append_left (map place (f a)) _ r c
          (let e : a + 0 * step ≡ a = omega arith in rw e at h))
  hits-multiples (suc count) a step (suc k) lt h =
      rw (map-append place (f a) (gather f (multiples count (a + step) step))) (
        hits-append_right (map place (f a)) _ r c (
          hits-multiples count (a + step) step k (omega arith)
            (let e : a + suc k * step ≡ a + step + k * step = grind arith in rw e at h)))

module _ {ℓ} {W : Type ℓ} where
  pub hits-block :
      (r c nr nc : ℕ) (f : ℕ → ℕ → W) (i j : ℕ)
      → i < nr
      → j < nc
      → hits (map place (block r c nr nc f)) (r + i) (c + j) ≡ true
  hits-block r c nr nc f i j hi hj =
      hits-range (block_column r c nr f) (r + i) (c + j) nc 0 j (omega arith) (omega arith) (
        hits-range (block_cell r c f j) (r + i) (c + j) nr 0 i (omega arith) (omega arith)
          (ground (arith, ==_refl (r + i), ==_refl (c + j))))

pub All-multiples {κ} :
    (P : ℕ → Type κ) (count a step : ℕ)
    → ((k : ℕ) → k < count → P (a + k * step))
    → All P (multiples count a step)
All-multiples P zero a step h = tt
All-multiples P (suc count) a step h = (
  let e : a + 0 * step ≡ a = omega arith in rw e at (h 0 (omega arith)),
  All-multiples P count (a + step) step λ k lt.
      let e : a + suc k * step ≡ a + step + k * step = grind arith in
      rw e at (h (suc k) (omega arith)),
)
