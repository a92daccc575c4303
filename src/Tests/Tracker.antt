-- ===== src/Tests/Tracker.antt =====
-- Four returns with one gap.
use prox_mpc.Base.{ℕ, ◌≤◌, ◌≡◌, refl, length, All, arith, [], ◌∷◌, List}
use prox_mpc.Base.Int.{pos, ◌-ℤ◌, ◌+ℤ◌, ◌*ℤ◌, ◌/ℤ◌}
use prox_mpc.Base.Sample.{Sample, num, sample_double, isqrt}
use prox_mpc.Base.Double.{nought, one}
use prox_mpc.Tracker.Clustering.{Point2, Cluster, gap_at, segments, cluster_points}
use prox_mpc.Tracker.Segments.{Chain, Uncut, Kept, segments_lem, cluster_points-Kept}

abbrev at : ℕ → Point2 Sample
at k = record { x = num (pos k); y = nought }

abbrev sweep : List (Point2 Sample)
sweep = at 10 ∷ at 12 ∷ at 60 ∷ at 64 ∷ []

segments_lem_example :
    Chain 0 4 (segments sweep one) × All (Uncut (gap_at sweep one)) (segments sweep one)
segments_lem_example = segments_lem sweep one (omega arith)

abbrev unsorted : ℕ → List (Cluster Sample) → List (Cluster Sample)
unsorted k cs = cs

cluster_points-Kept_example :
    (length (cluster_points unsorted sweep one 2 1 nought) ≤ 1)
    × All (Kept 2 nought) (cluster_points unsorted sweep one 2 1 nought)
cluster_points-Kept_example = cluster_points-Kept unsorted sweep one 2 1 nought (λ P k cs h. h)

-- The sweep has two segments, cut at the gap.
cut_test : segments sweep one ≡ (0, 2) ∷ (2, 4) ∷ []
unfolding segments ◌-ℤ◌ ◌+ℤ◌ ◌*ℤ◌ ◌/ℤ◌
cut_test = refl

-- Two clusters of two returns, of which the cap leaves one.
capped_test : length (cluster_points unsorted sweep one 2 1 nought) ≡ 1
unfolding cluster_points ◌-ℤ◌ ◌+ℤ◌ ◌*ℤ◌ ◌/ℤ◌ isqrt
capped_test = refl
