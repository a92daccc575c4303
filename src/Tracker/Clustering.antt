-- ===== src/Tracker/Clustering.antt =====
-- prox_mpc_obstacle_tracker/src/clustering.cpp: scan returns to points, and points to clusters.
use prox_mpc.Base.{
  ℕ, zero, suc, ◌+◌, ◌-◌, Bool, true, false, not, ◌&&◌, ◌||◌, List, [], ◌∷◌, ◌++◌, foldl, ltb, leb,
  ◌==◌, if◌then◌else◌, length, get_or, take, gather, range,
}
use prox_mpc.Base.Double.{Double, ◌⊕◌, ◌⊖◌, ◌⊗◌, ◌⊘◌, nought, fmax}

pub record Point2 {ℓ} (W : Type ℓ) : Type ℓ where
  pub x : W
  pub y : W

pub record Cluster {ℓ} (W : Type ℓ) : Type ℓ where
  pub x : W
  pub y : W
  pub radius : W
  pub count : ℕ

module _ {ℓ} {W : Type ℓ} ⦃d : Double W⦄ where
  -- The returns from index i on, as doubles: a float converts exactly.
  unfoldable pub scan_from : W → W → W → W → ℕ → List W → List (Point2 W)
  scan_from angle_min angle_increment range_min range_max i [] = []
  scan_from angle_min angle_increment range_min range_max i (r ∷ rs) =
      let rest = scan_from angle_min angle_increment range_min range_max (suc i) rs in
      let a = angle_min ⊕ (d.of_nat i ⊗ angle_increment) in
      if not (d.is_finite r) || d.lt r range_min || d.le range_max r
      then rest
      else record { x = r ⊗ d.cos a; y = r ⊗ d.sin a } ∷ rest

  unfoldable pub scan_to_points : List W → W → W → W → W → List (Point2 W)
  unfolding scan_from
  scan_to_points ranges angle_min angle_increment range_min range_max =
      scan_from angle_min angle_increment range_min range_max 0 ranges

  -- dx * dx + dy * dy
  abbrev pub dist2 : Point2 W → W → W → W
  dist2 p x y = ((p.x ⊖ x) ⊗ (p.x ⊖ x)) ⊕ ((p.y ⊖ y) ⊗ (p.y ⊖ y))

  -- points[i]; the default stands for a read out of range, which the bounds exclude.
  abbrev pub point : List (Point2 W) → ℕ → Point2 W
  point points i = get_or points i (record { x = nought; y = nought })

  abbrev pub gap_at : List (Point2 W) → W → ℕ → Bool
  gap_at points gap2 i =
      d.lt gap2 (dist2 (point points i) (point points (i - 1)).x (point points (i - 1)).y)

-- The segmentation loop at index i, with `left` indices to go; the last segment is closed after it.
unfoldable pub segments_from : (ℕ → Bool) → ℕ → ℕ → ℕ → List (ℕ × ℕ)
segments_from gap zero seg_begin i = (seg_begin, i) ∷ []
segments_from gap (suc left) seg_begin i = elim (gap i) [
  | true ↦ (seg_begin, i) ∷ segments_from gap left i (suc i)
  | false ↦ segments_from gap left seg_begin (suc i)
]

module _ {ℓ} {W : Type ℓ} ⦃d : Double W⦄ where
  unfoldable pub segments : List (Point2 W) → W → List (ℕ × ℕ)
  unfolding segments_from
  segments points gap2 = segments_from (gap_at points gap2) (length points - 1) 0 1

  module _ (points : List (Point2 W)) (min_points : ℕ) (max_radius : W) where
    -- The cluster of the points at the indices: their centroid and enclosing radius.
    abbrev pub enclose : List ℕ → ℕ → Cluster W
    enclose idx count =
        let cx = foldl (λ s i. s ⊕ (point points i).x) nought idx ⊘ d.of_nat count in
        let cy = foldl (λ s i. s ⊕ (point points i).y) nought idx ⊘ d.of_nat count in
        record {
          x = cx;
          y = cy;
          radius = d.sqrt (foldl (λ r2 i. fmax r2 (dist2 (point points i) cx cy)) nought idx);
          count = count;
        }

    -- A segment made of up to two index ranges: no cluster, or one.
    unfoldable pub close_segment : ℕ × ℕ → ℕ × ℕ → List (Cluster W)
    close_segment (b1, e1) (b2, e2) =
        let count = (e1 - b1) + (e2 - b2) in
        let c = enclose (range b1 e1 ++ range b2 e2) count in
        if ltb count min_points
        then []
        else if d.lt nought max_radius && d.lt max_radius c.radius
        then []
        else c ∷ []

    -- The trailing segment is spliced onto the leading one when the sweep wraps.
    unfoldable pub close_all : Bool → List (ℕ × ℕ) → List (Cluster W)
    unfolding close_segment
    close_all wrap segs =
        let n = length segs in
        gather
          (λ s.
            if wrap && (s == 0)
            then close_segment (get_or segs (n - 1) (0, 0)) (get_or segs 0 (0, 0))
            else if wrap && (s + 1 == n)
            then []
            else close_segment (get_or segs s (0, 0)) (0, 0))
          (range 0 n)

  -- The sweep's last and first returns are gap-adjacent.
  unfoldable pub wraps : List (Point2 W) → W → List (ℕ × ℕ) → Bool
  wraps points gap2 segs =
      let back = point points (length points - 1) in
      leb 2 (length segs) && d.le (dist2 (point points 0) back.x back.y) gap2

  -- `partial_sort k` is std::partial_sort up to k, by falling count.
  module _ (partial_sort : ℕ → List (Cluster W) → List (Cluster W)) where
    unfoldable pub cap_clusters : ℕ → List (Cluster W) → List (Cluster W)
    cap_clusters max_clusters cs =
        if ltb max_clusters (length cs)
        then take max_clusters (partial_sort max_clusters cs)
        else cs

    unfoldable pub cluster_points : List (Point2 W) → W → ℕ → ℕ → W → List (Cluster W)
    unfolding segments close_all wraps cap_clusters
    cluster_points [] cluster_gap min_points max_clusters max_radius = []
    cluster_points (p ∷ ps) cluster_gap min_points max_clusters max_radius =
        let points = p ∷ ps in
        let gap2 = cluster_gap ⊗ cluster_gap in
        let segs = segments points gap2 in
        cap_clusters max_clusters
          (close_all points min_points max_radius (wraps points gap2 segs) segs)
