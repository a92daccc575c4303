-- ===== src/Model/Bounds.antt =====
-- The inequality maps of `struct Constraints`: std::map<int, std::vector<double>>, whose values are
-- {idx_vec, low, upp}, with the counter that gives out the keys.
use prox_mpc.Base.{
  ℕ, zero, suc, Option, none, some, List, [], ◌∷◌, ◌==◌, ltb, if◌then◌else◌, length,
}
use prox_mpc.Base.Result.{Result, ok, thrown, out_of_range}

pub record Bound {ℓ} (W : Type ℓ) : Type ℓ where
  pub idx : ℕ
  pub low : W
  pub upp : W

-- In key order. An index stored as a double is the number it stands for.
abbrev pub Entries {ℓ} : Type ℓ → Type ℓ
Entries W = List (ℕ × Bound W)

pub record Ineq {ℓ} (W : Type ℓ) : Type ℓ where
  pub entries : Entries W
  pub map_idx : ℕ

module _ {ℓ} {W : Type ℓ} where
  abbrev pub find : ℕ → Entries W → Option (Bound W)
  find k [] = none
  find k ((j, b) ∷ es) = if j == k then some b else find k es

  -- entries[k] = b, on a map in key order.
  abbrev pub assign : ℕ → Bound W → Entries W → Entries W
  assign k b [] = (k, b) ∷ []
  assign k b ((j, c) ∷ es) =
      if j == k
      then (k, b) ∷ es
      else if ltb k j
      then (k, b) ∷ (j, c) ∷ es
      else (j, c) ∷ assign k b es

  -- ineq[map_idx] = bounds; map_idx++;
  unfoldable pub append_bound : Bound W → Ineq W → Ineq W
  append_bound b q = record { entries = assign q.map_idx b q.entries; map_idx = suc q.map_idx }

  -- The loop of `updateIneq`: the last key i below the size whose bound is on idx_vec. A key that is
  -- missing would be read through an empty vector, which is undefined, and is a fault here.
  unfoldable pub scan : Entries W → ℕ → ℕ → ℕ → Option ℕ → Result (Option ℕ)
  scan es idx zero i found = ok found
  scan es idx (suc left) i found = elim (find i es) [
    | none ↦ thrown out_of_range
    | some b ↦ scan es idx left (suc i) (if b.idx == idx then some i else found)
  ]

  -- getIneq(var).at(j), for each j below the size from j on.
  unfoldable pub rows_from : Entries W → ℕ → ℕ → Result (List (Bound W))
  rows_from es zero j = ok []
  rows_from es (suc left) j = elim (find j es) [
    | none ↦ thrown out_of_range
    | some b ↦ elim (rows_from es left (suc j)) [ ok bs ↦ ok (b ∷ bs) | thrown e ↦ thrown e ]
  ]

  unfoldable pub rows : Ineq W → Result (List (Bound W))
  unfolding rows_from
  rows q = rows_from q.entries (length q.entries) 0
