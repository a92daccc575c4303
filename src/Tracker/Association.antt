-- ===== src/Tracker/Association.antt =====
-- Tracker::update: the pairs inside the gate, and their greedy assignment, closest first.
use prox_mpc.Base.{
  ℕ, Bool, true, false, ◌||◌, Option, none, some, List, [], ◌∷◌, if◌then◌else◌, length, get_or, set,
  replicate, range_from, gather,
}
use prox_mpc.Base.Double.{Double, ◌⊕◌, ◌⊖◌, ◌⊗◌, nought}
use prox_mpc.Base.Matrix.{Vector}
use prox_mpc.Tracker.Clustering.{Cluster}

-- struct Pair
pub record Pair {ℓ} (W : Type ℓ) : Type ℓ where
  pub d2 : W
  pub ti : ℕ
  pub mi : ℕ

-- track_meas, with none for -1, and meas_used.
pub record Matches : Type 0 where
  pub track_meas : List (Option ℕ)
  pub meas_used : List Bool

abbrev pub unmatched : ℕ → ℕ → Matches
unmatched nt nm = record { track_meas = replicate nt none; meas_used = replicate nm false }

abbrev pub is_some {ℓ} : {A : Type ℓ} → Option A → Bool
is_some none = false
is_some (some a) = true

module _ {ℓ} {W : Type ℓ} ⦃d : Double W⦄ where
  -- Entries that no index of the loops reaches: the default of `get_or`.
  abbrev pub nowhere : Vector W
  nowhere = record { size = 0; get = λ _. nought }

  abbrev pub no_cluster : Cluster W
  no_cluster = record { x = nought; y = nought; radius = nought; count = 0 }

  abbrev pub squared_distance : Vector W → Cluster W → W
  squared_distance state m =
      let dx = state.get 0 ⊖ m.x in let dy = state.get 1 ⊖ m.y in (dx ⊗ dx) ⊕ (dy ⊗ dy)

  -- The two loops over tracks and measurements.
  unfoldable pub gated_pairs : W → List (Vector W) → List (Cluster W) → List (Pair W)
  gated_pairs gate2 states ms =
      gather
        (λ ti.
          gather
            (λ mi.
              let d2 = squared_distance (get_or states ti nowhere) (get_or ms mi no_cluster) in
              if d.le d2 gate2 then record { d2 = d2; ti = ti; mi = mi } ∷ [] else [])
            (range_from (length ms) 0))
        (range_from (length states) 0)

module _ {ℓ} {W : Type ℓ} where
  -- The body of the assignment loop.
  unfoldable pub assign_pair : Pair W → Matches → Matches
  assign_pair p s =
      if is_some (get_or s.track_meas p.ti none) || get_or s.meas_used p.mi false
      then s
      else record {
        track_meas = set s.track_meas p.ti (some p.mi);
        meas_used = set s.meas_used p.mi true;
      }

  unfoldable pub assign_all : List (Pair W) → Matches → Matches
  assign_all [] s = s
  assign_all (p ∷ ps) s = assign_all ps (assign_pair p s)

-- `sort` is std::sort on the squared distance.
module _ {ℓ} {W : Type ℓ} ⦃d : Double W⦄ (sort : List (Pair W) → List (Pair W)) where
  unfoldable pub associate : W → List (Vector W) → List (Cluster W) → Matches
  unfolding gated_pairs assign_all
  associate gate2 states ms =
      assign_all (sort (gated_pairs gate2 states ms)) (unmatched (length states) (length ms))
