-- ===== src/Tracker/Segments.antt =====
-- The segments partition the scan at its gaps, and the clusters keep to their limits.
use prox_mpc.Base.{
  ℕ, zero, suc, ◌+◌, ◌-◌, ◌≤◌, ◌<◌, ◌≡◌, refl, subst, Bool, true, false, ◌&&◌, List, [], ◌∷◌, ltb,
  ltb→lt, ltb→le, if◌then◌else◌, ◌⊎◌, inl, inr, Bool-cases, length, get_or, take, range, All,
  All-gather, All-weaken, arith, ◌==◌, range-within,
}
use prox_mpc.Base.Double.{Double, nought}
use prox_mpc.Tracker.Clustering.{
  Point2, Cluster, gap_at, segments_from, segments, close_segment, close_all, cap_clusters,
  cluster_points,
}

-- Ranges that follow one another from lo to hi, none of them empty.
abbrev pub Chain : ℕ → ℕ → List (ℕ × ℕ) → Type 0
Chain lo hi [] = lo ≡ hi
Chain lo hi ((b, e) ∷ ss) = (b ≡ lo) × (b < e) × Chain e hi ss

-- A segment begins at the start or at a gap, and no gap is inside it.
abbrev pub Uncut : (ℕ → Bool) → ℕ × ℕ → Type 0
Uncut gap (b, e) = ((b ≡ 0) ⊎ (gap b ≡ true)) × All (λ i. gap i ≡ false) (range (suc b) e)

between :
    (gap : ℕ → Bool) (b i : ℕ)
    → ((k : ℕ) → b < k → k < i → gap k ≡ false)
    → All (λ k. gap k ≡ false) (range (suc b) i)
between gap b i inside =
    All-weaken (λ k. (suc b ≤ k) × (k < i)) (λ k. gap k ≡ false)
      (λ k h. inside k (omega (arith, h.0)) h.1) (range (suc b) i) (range-within (suc b) i)

extend :
    (gap : ℕ → Bool) (b i : ℕ)
    → ((k : ℕ) → b < k → k < i → gap k ≡ false)
    → gap i ≡ false
    → (k : ℕ) → b < k
    → k < suc i
    → gap k ≡ false
extend gap b i inside on k p q = elim (Bool-cases (ltb k i)) [
  | inl below ↦ inside k p (ltb→lt k i below)
  | inr at ↦ let e : i ≡ k = omega (arith, ltb→le k i at) in subst (λ j. gap j ≡ false) e on
]

segments_from_lem :
    (gap : ℕ → Bool) (left b i : ℕ)
    → b < i
    → (b ≡ 0) ⊎ (gap b ≡ true)
    → ((k : ℕ) → b < k → k < i → gap k ≡ false)
    → Chain b (i + left) (segments_from gap left b i) × All (Uncut gap) (segments_from gap left b i)
unfolding segments_from
segments_from_lem gap zero b i lt start inside =
    ((refl, lt, omega arith), ((start, between gap b i inside), tt))
segments_from_lem gap (suc left) b i lt start inside = elim (Bool-cases (gap i)) [
  | inl cut ↦
      (let (chain, uncut) =
          segments_from_lem gap left i (suc i) (omega arith) (inr cut)
            (λ k p q. absurd (omega arith)) in
        rw (cut, segments_from)
          (
            (
              refl,
              lt,
              subst (λ n. Chain i n (segments_from gap left i (suc i))) (omega arith) chain,
            ),
            ((start, between gap b i inside), uncut),
          ))
  | inr on ↦
      (let (chain, uncut) =
          segments_from_lem gap left b (suc i) (omega arith) start
            (λ k p q. extend gap b i inside on k p q) in
        rw (on, segments_from)
          (subst (λ n. Chain b n (segments_from gap left b (suc i))) (omega arith) chain, uncut))
]

All-if {ℓ κ} :
    {A : Type ℓ} (P : A → Type κ) (t u : Bool) (c : A)
    → (t ≡ false → u ≡ false → P c)
    → All P (if t then [] else if u then [] else c ∷ [])
All-if P true u c h = tt
All-if P false true c h = tt
All-if P false false c h = (h refl refl, tt)

All-choice {ℓ κ} :
    {A : Type ℓ} (P : A → Type κ) (t u : Bool) (xs ys : List A)
    → All P xs
    → All P ys
    → All P (if t then xs else if u then [] else ys)
All-choice P true u xs ys hx hy = hx
All-choice P false true xs ys hx hy = tt
All-choice P false false xs ys hx hy = hy

module _ {ℓ} {W : Type ℓ} ⦃d : Double W⦄ where
  -- Of a scan that is not empty, the segments are ranges that follow one another from the first return
  -- to the last, none of them empty: each return is in one segment. Each begins at the first return or
  -- where the distance to the return before exceeds the gap, and within one no such distance does.
  pub segments_lem :
      (points : List (Point2 W)) (gap2 : W)
      → 0 < length points
      → Chain 0 (length points) (segments points gap2)
        × All (Uncut (gap_at points gap2)) (segments points gap2)
  unfolding segments
  segments_lem points gap2 some_point =
      let (chain, uncut) =
        segments_from_lem (gap_at points gap2) (length points - 1) 0 1 (omega arith) (inl refl)
          (λ k p q. absurd (omega arith)) in
      (subst (λ n. Chain 0 n (segments points gap2)) (omega arith) chain, uncut)

  -- The limits that a cluster passed.
  abbrev pub Kept : ℕ → W → Cluster W → Type 0
  Kept min_points max_radius c =
      (min_points ≤ c.count) × ((d.lt nought max_radius && d.lt max_radius c.radius) ≡ false)

  close_segment-Kept :
      (points : List (Point2 W)) (min_points : ℕ) (max_radius : W) (r s : ℕ × ℕ)
      → All (Kept min_points max_radius) (close_segment points min_points max_radius r s)
  unfolding close_segment
  close_segment-Kept points min_points max_radius (b1, e1) (b2, e2) =
      All-if (Kept min_points max_radius) _ _ _ λ enough small. (ltb→le _ min_points enough, small)

  close_all-Kept :
      (points : List (Point2 W)) (min_points : ℕ) (max_radius : W) (wrap : Bool)
      (segs : List (ℕ × ℕ))
      → All (Kept min_points max_radius) (close_all points min_points max_radius wrap segs)
  unfolding close_all
  close_all-Kept points min_points max_radius wrap segs =
      All-gather (λ s. Unit {0}) (Kept min_points max_radius) _
        (λ s h.
          All-choice (Kept min_points max_radius) (wrap && (s == 0))
            (wrap && (s + 1 == length segs)) _ _
            (close_segment-Kept points min_points max_radius _ _)
            (close_segment-Kept points min_points max_radius (get_or segs s (0, 0)) (0, 0)))
        (range 0 (length segs))
        (All-weaken (λ i. (0 ≤ i) × (i < length segs)) (λ i. Unit {0}) (λ i h. tt) _
          (range-within 0 (length segs)))

All-take {ℓ κ} : {A : Type ℓ} (P : A → Type κ) (k : ℕ) (xs : List A) → All P xs → All P (take k xs)
All-take P zero xs h = tt
All-take P (suc k) [] h = tt
All-take P (suc k) (x ∷ xs) h = (h.0, All-take P k xs h.1)

length-take {ℓ} : {A : Type ℓ} (k : ℕ) (xs : List A) → length (take k xs) ≤ k
length-take zero xs = omega arith
length-take (suc k) [] = omega arith
length-take (suc k) (x ∷ xs) = omega (arith, length-take k xs)

module _ {ℓ} {W : Type ℓ} ⦃d : Double W⦄
    (partial_sort : ℕ → List (Cluster W) → List (Cluster W)) where
  cap_clusters_lem :
      (P : Cluster W → Type 0) (k : ℕ) (cs : List (Cluster W))
      → ((j : ℕ) (xs : List (Cluster W)) → All P xs → All P (partial_sort j xs))
      → All P cs
      → (length (cap_clusters partial_sort k cs) ≤ k) × All P (cap_clusters partial_sort k cs)
  unfolding cap_clusters
  cap_clusters_lem P k cs keeps h = elim (Bool-cases (ltb k (length cs))) [
    | inl more ↦
        rw (more, cap_clusters)
          (length-take k (partial_sort k cs), All-take P k (partial_sort k cs) (keeps k cs h))
    | inr few ↦ rw (few, cap_clusters) (ltb→le k (length cs) few, h)
  ]

  -- If partial_sort gives back only clusters that it was given, `cluster_points` returns at most
  -- max_clusters clusters, each with min_points members at least and, with a positive max_radius, none
  -- whose radius exceeds it.
  pub cluster_points-Kept :
      (points : List (Point2 W)) (gap : W) (min_points max_clusters : ℕ) (max_radius : W)
      → ((P : Cluster W → Type 0) (k : ℕ) (cs : List (Cluster W))
          → All P cs
          → All P (partial_sort k cs))
      → (length (cluster_points partial_sort points gap min_points max_clusters max_radius)
          ≤ max_clusters)
        × All
            (Kept min_points max_radius)
            (cluster_points partial_sort points gap min_points max_clusters max_radius)
  unfolding cluster_points
  cluster_points-Kept [] gap min_points max_clusters max_radius keeps = (omega arith, tt)
  cluster_points-Kept (p ∷ ps) gap min_points max_clusters max_radius keeps =
      cap_clusters_lem (Kept min_points max_radius) max_clusters _
        (keeps (Kept min_points max_radius)) (close_all-Kept (p ∷ ps) min_points max_radius _ _)
