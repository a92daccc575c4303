-- ===== src/Tests/Tracks.antt =====
-- Two tracks and two measurements, the second of which both tracks reach.
use prox_mpc.Base.{
  ℕ, ◌+◌, ◌<◌, ◌≤◌, ◌≡◌, refl, true, false, none, some, List, [], ◌∷◌, map, ◌⊎◌, All, arith,
}
use prox_mpc.Base.Int.{pos, ◌-ℤ◌}
use prox_mpc.Base.Sample.{Sample, num, sample_double, sample_cmath}
use prox_mpc.Base.Matrix.{Vector}
use prox_mpc.Tracker.Clustering.{Cluster}
use prox_mpc.Tracker.Kalman.{SmallMatrices, vector}
use prox_mpc.Tracker.Track.{Params, Estimator, Tracker, tracker}
use prox_mpc.Tracker.Association.{Pair, associate, assign_pair}
use prox_mpc.Tracker.Matching.{Given, Used}
use prox_mpc.Tracker.Gate.{distance, associate-IsMatching, associate-IsStable}
use prox_mpc.Tracker.Imm.{ImmFilter, imm_estimator}
use prox_mpc.Tracker.Update.{update, predicted, elapsed}
use prox_mpc.Tracker.Roster.{roster_of, rules_of, next_roster}
use prox_mpc.Tracker.Refinement.{scan_matches, update-roster_of}
use prox_mpc.Tracker.Lifecycle.{IsRoster, IsAlive}
use prox_mpc.Tracker.Runs.{
  TrackerCall, scan, restart, track_calls, update-IsRoster, track_calls-IsRoster,
}
use prox_mpc.Tracker.Synced.{IsSynced, imm_estimator-IsEstimator, update-IsSynced, predicted-held}
use prox_mpc.Tests.Naturals.{nat_double, nat_cmath, insertion_sort, insertion_sort-IsSort}

abbrev small : SmallMatrices ℕ
small = record { inverse = λ m. m; determinant = λ m. 1 }

abbrev estimator : Estimator ℕ (ImmFilter ℕ)
estimator = imm_estimator small

abbrev at : ℕ → ℕ → Cluster ℕ
at x y = record { x = x; y = y; radius = 1; count = 3 }

abbrev places : List (Vector ℕ)
places = vector (10 ∷ 10 ∷ []) 2 ∷ vector (13 ∷ 10 ∷ []) 2 ∷ []

abbrev scans : List (Cluster ℕ)
scans = at 0 0 ∷ at 9 10 ∷ []

-- The second measurement goes to the first track, which is closer; the other track gets none.
association_test : (associate insertion_sort 25 places scans).track_meas ≡ some 1 ∷ none ∷ []
unfolding associate assign_pair
association_test = refl

associate-IsMatching_example :
    (◌≡◌ {A = ℕ} 0 0)
    × (0 < 2)
    × (1 < 2)
    × (nat_double.le (distance 25 places scans 0 1) 25 ≡ true)
    × Used (associate insertion_sort 25 places scans) 1
unfolding associate assign_pair
associate-IsMatching_example =
    associate-IsMatching insertion_sort 25 places scans 0 0 1 insertion_sort-IsSort refl refl

associate-IsStable_example :
    Given (associate insertion_sort 25 places scans) 1 1
    ⊎ ((j k : ℕ) × Given (associate insertion_sort 25 places scans) j k
        × ((j ≡ 1) ⊎ (k ≡ 1))
        × (nat_double.lt (distance 25 places scans 1 1) (distance 25 places scans j k) ≡ false))
associate-IsStable_example =
    associate-IsStable insertion_sort 25 places scans 1 1 insertion_sort-IsSort (omega arith)
      (omega arith) refl

abbrev settings : Params ℕ
settings = record {
  process_noise = 1;
  measurement_noise = 1;
  association_gate = 3;
  initial_velocity_variance = 1;
  confirm_count = pos 2;
  drop_count = pos 1;
  max_tracks = 3;
  imm_enabled = true;
  imm_p_cv_stay = 1;
  imm_p_ctrv_stay = 1;
  ctrv_process_noise_accel = 1;
  ctrv_process_noise_yaw_accel = 1;
  ctrv_init_omega_variance = 1;
  prediction_steps = pos 4;
  prediction_dt = 1;
}

abbrev first : Tracker ℕ (ImmFilter ℕ)
first = tracker settings

abbrev started : Tracker ℕ (ImmFilter ℕ)
started = update estimator small insertion_sort scans 5 first

abbrev calls : List (TrackerCall ℕ)
calls = scan scans 5 ∷ scan scans 6 ∷ restart ∷ scan scans 7 ∷ []

-- Both measurements start a track, and the tracks get different identifiers.
started_test : map (λ r. r.id) started.tracks ≡ 0 ∷ 1 ∷ []
unfolding update tracker elapsed predicted
started_test = refl

update-roster_of_example :
    roster_of started
    ≡ next_roster
        (rules_of first)
        (scan_matches estimator small insertion_sort scans 5 first).track_meas
        (scan_matches estimator small insertion_sort scans 5 first).meas_used
        2
        (roster_of first)
update-roster_of_example = update-roster_of estimator small insertion_sort scans 5 first

track_calls-IsRoster_example :
    IsRoster
      (rules_of (track_calls estimator small insertion_sort calls first))
      (roster_of (track_calls estimator small insertion_sort calls first))
track_calls-IsRoster_example =
    track_calls-IsRoster estimator small insertion_sort settings calls (omega arith)

first-IsRoster : IsRoster (rules_of first) (roster_of first)
unfolding tracker
first-IsRoster = record { ascending = tt; fresh = tt; counted = tt; capped = omega arith }

update-IsRoster_example :
    IsRoster (rules_of first) (roster_of started)
    × All (IsAlive (rules_of first)) (roster_of started).cards
    × (started.next_id ≤ first.next_id + 2)
unfolding tracker
update-IsRoster_example =
    update-IsRoster estimator small insertion_sort scans 5 first (omega arith) first-IsRoster

update-IsSynced_example : All (IsSynced estimator) started.tracks
unfolding tracker
update-IsSynced_example = update-IsSynced estimator small insertion_sort scans 5 first refl

abbrev tenths : ℕ → Sample
tenths k = num (pos k)

abbrev sample_small : SmallMatrices Sample
sample_small = record { inverse = λ m. m; determinant = λ m. tenths 10 }

abbrev sample_estimator : Estimator Sample (ImmFilter Sample)
sample_estimator = imm_estimator sample_small

abbrev sample_settings : Params Sample
sample_settings = record {
  process_noise = tenths 10;
  measurement_noise = tenths 1;
  association_gate = tenths 5;
  initial_velocity_variance = tenths 10;
  confirm_count = pos 2;
  drop_count = pos 1;
  max_tracks = 3;
  imm_enabled = true;
  imm_p_cv_stay = tenths 9;
  imm_p_ctrv_stay = tenths 9;
  ctrv_process_noise_accel = tenths 10;
  ctrv_process_noise_yaw_accel = tenths 10;
  ctrv_init_omega_variance = tenths 10;
  prediction_steps = pos 4;
  prediction_dt = tenths 1;
}

abbrev as_given : List (Pair Sample) → List (Pair Sample)
as_given ps = ps

abbrev seen_at_5 : Tracker Sample (ImmFilter Sample)
seen_at_5 =
    update sample_estimator sample_small as_given
      (record { x = tenths 20; y = tenths 10; radius = tenths 3; count = 3 } ∷ []) (tenths 50)
      (tracker sample_settings)

seen_at_5-IsSynced : All (IsSynced sample_estimator) seen_at_5.tracks
unfolding tracker
seen_at_5-IsSynced =
    update-IsSynced sample_estimator sample_small as_given _ (tenths 50) (tracker sample_settings)
      refl

-- A scan stamped 4 s, after one stamped 5 s.
predicted-held_example :
    (map
        (λ r. r.state)
        (predicted sample_estimator seen_at_5.params
          (elapsed sample_estimator (tenths 40) seen_at_5)
          seen_at_5.tracks)
      ≡ map (λ r. r.state) seen_at_5.tracks)
    × (map
          (λ r. r.cov)
          (predicted sample_estimator seen_at_5.params
            (elapsed sample_estimator (tenths 40) seen_at_5)
            seen_at_5.tracks)
        ≡ map (λ r. r.cov) seen_at_5.tracks)
unfolding update tracker ◌-ℤ◌
predicted-held_example =
    predicted-held sample_estimator (tenths 40) seen_at_5 (imm_estimator-IsEstimator sample_small)
      refl seen_at_5-IsSynced refl refl refl
