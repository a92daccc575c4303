-- ===== src/Base/Matrix.antt =====
-- Eigen's matrices and vectors, and the writes by which the code fills them.
--
-- A matrix is its size and its entries. The release build checks no index (EIGEN_NO_DEBUG), so a
-- filler is the list of its writes in order: that they lie inside the matrix is a theorem, and what a
-- later read sees is `apply`.
use Prim.Native.Nat.{ℕ, ◌+◌, ◌<◌, ◌≤◌}
use mathlib.Core.Path.{◌≡◌, refl, ap, ◌∙◌}
use mathlib.Core.Logic.{inl, inr}
use mathlib.Core.Bool.{Bool, true, false, ◌&&◌, ◌||◌}
use mathlib.Core.List.{List, [], ◌∷◌, map}
use native.Mathlib.Omega.{arith}
use prox_mpc.Base.Tests.{◌==◌, if◌then◌else◌, Bool-cases}
use prox_mpc.Base.Lists.{All, gather, map-gather, All-gather}
use prox_mpc.Base.Loops.{range_from, range_from-within}

pub record Matrix {ℓ} (W : Type ℓ) : Type ℓ where
  pub rows : ℕ
  pub cols : ℕ
  pub at : ℕ → ℕ → W

pub record Vector {ℓ} (W : Type ℓ) : Type ℓ where
  pub size : ℕ
  pub get : ℕ → W

-- m(row, col) = value
pub record Write {ℓ} (W : Type ℓ) : Type ℓ where
  pub row : ℕ
  pub col : ℕ
  pub value : W

module _ {ℓ} {W : Type ℓ} where
  abbrev pub write : ℕ → ℕ → W → Write W
  write r c v = record { row = r; col = c; value = v }

  abbrev pub constant : ℕ → ℕ → W → Matrix W
  constant r c v = record { rows = r; cols = c; at = λ _ _. v }

  abbrev pub vector_of : ℕ → W → Vector W
  vector_of k v = record { size = k; get = λ _. v }

  -- m.row(r)
  abbrev pub row_of : Matrix W → ℕ → Vector W
  row_of m r = record { size = m.cols; get = m.at r }

  abbrev pub here : Write W → ℕ → ℕ → Bool
  here w r c = (w.row == r) && (w.col == c)

  abbrev pub put : (ℕ → ℕ → W) → Write W → ℕ → ℕ → W
  put m w r c = if here w r c then w.value else m r c

  -- The entries after the writes, the last write at a place taking effect.
  abbrev pub apply : List (Write W) → (ℕ → ℕ → W) → ℕ → ℕ → W
  apply [] m = m
  apply (w ∷ ws) m = apply ws (put m w)

  abbrev pub place : Write W → ℕ × ℕ
  place w = (w.row, w.col)

-- Whether (r, c) is among the places.
abbrev pub hits : List (ℕ × ℕ) → ℕ → ℕ → Bool
hits [] r c = false
hits ((i, j) ∷ ps) r c = ((i == r) && (j == c)) || hits ps r c

module _ {ℓ} {W : Type ℓ} where
  abbrev pub block_cell : ℕ → ℕ → (ℕ → ℕ → W) → ℕ → ℕ → List (Write W)
  block_cell r c f j i = write (r + i) (c + j) (f i j) ∷ []

  abbrev pub block_column : ℕ → ℕ → ℕ → (ℕ → ℕ → W) → ℕ → List (Write W)
  block_column r c nr f j = gather (block_cell r c f j) (range_from nr 0)

  -- m.block(r, c, nr, nc) = f, column by column
  abbrev pub block : ℕ → ℕ → ℕ → ℕ → (ℕ → ℕ → W) → List (Write W)
  block r c nr nc f = gather (block_column r c nr f) (range_from nc 0)

  -- The row and the column lie inside.
  abbrev pub Inside : ℕ → ℕ → Write W → Type 0
  Inside rows cols w = (w.row < rows) × (w.col < cols)

  -- All writes of a block have a property that each of its cells has.
  pub All-block {κ} :
      (P : Write W → Type κ) (r c nr nc : ℕ) (f : ℕ → ℕ → W)
      → ((i j : ℕ) → i < nr → j < nc → P (write (r + i) (c + j) (f i j)))
      → All P (block r c nr nc f)
  All-block P r c nr nc f h =
      All-gather (λ j. (0 ≤ j) × (j < nc)) P (block_column r c nr f)
        (λ j hj.
          All-gather (λ i. (0 ≤ i) × (i < nr)) P (block_cell r c f j)
            (λ i hi. (h i j hi.1 hj.1, tt)) (range_from nr 0)
            (range_from-within nr 0 0 nr (omega arith) (omega arith)))
        (range_from nc 0) (range_from-within nc 0 0 nc (omega arith) (omega arith))

  pub block-Inside :
      (rows cols r c nr nc : ℕ) (f : ℕ → ℕ → W)
      → r + nr ≤ rows
      → c + nc ≤ cols
      → All (Inside rows cols) (block r c nr nc f)
  block-Inside rows cols r c nr nc f hr hc =
      All-block (Inside rows cols) r c nr nc f λ i j hi hj. (omega arith, omega arith)

  -- Where a block is written does not depend on what is written.
  pub place-block :
      (r c nr nc : ℕ) (f g : ℕ → ℕ → W)
      → map place (block r c nr nc f) ≡ map place (block r c nr nc g)
  place-block r c nr nc f g =
      map-gather place (block_column r c nr f) (block_column r c nr g)
        (λ j.
          map-gather place (block_cell r c f j) (block_cell r c g j) (λ i. refl) (range_from nr 0))
        (range_from nc 0)

  -- An entry that no write reaches keeps its value.
  pub apply-missed :
      (ws : List (Write W)) (m : ℕ → ℕ → W) (r c : ℕ)
      → hits (map place ws) r c ≡ false
      → apply ws m r c ≡ m r c
  apply-missed [] m r c h = refl
  apply-missed (w ∷ ws) m r c h = ground (arith, apply-missed ws (put m w) r c)

  -- An entry that some write reaches has a property that all values written have.
  pub apply-hit {κ} :
      (P : W → Type κ) (ws : List (Write W)) (m : ℕ → ℕ → W) (r c : ℕ)
      → All (λ w. P w.value) ws
      → hits (map place ws) r c ≡ true
      → P (apply ws m r c)
  apply-hit P [] m r c a h = absurd (ground arith)
  apply-hit P (w ∷ ws) m r c a h = elim (Bool-cases (hits (map place ws) r c)) [
    | inl later ↦ apply-hit P ws (put m w) r c a.1 later
    | inr last ↦
        rw (apply-missed ws (put m w) r c last)
          (let now : here w r c ≡ true = ground arith in rw now a.0)
  ]

  -- If all writes agree with a function of the place, a reached entry is its value there.
  pub apply-agree :
      (S : ℕ → ℕ → W) (ws : List (Write W)) (m : ℕ → ℕ → W) (r c : ℕ)
      → All (λ w. w.value ≡ S w.row w.col) ws
      → hits (map place ws) r c ≡ true
      → apply ws m r c ≡ S r c
  apply-agree S [] m r c a h = absurd (ground arith)
  apply-agree S (w ∷ ws) m r c a h = elim (Bool-cases (hits (map place ws) r c)) [
    | inl later ↦ apply-agree S ws (put m w) r c a.1 later
    | inr last ↦ rw (apply-missed ws (put m w) r c last) (
        let now : here w r c ≡ true = ground arith in
        let ei : w.row ≡ r = ground arith in
        let ej : w.col ≡ c = ground arith in
        rw now (a.0 ∙ (ap (λ i. S i w.col) ei ∙ ap (λ j. S r j) ej)))
  ]
