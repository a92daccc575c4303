-- ===== src/Tracker/Update.antt =====
-- prox_mpc_obstacle_tracker/src/tracker.cpp: one scan, and the samples of a track's future.
use prox_mpc.Base.{
  ℕ, zero, suc, ◌+◌, ◌%◌, ◌^◌, Bool, true, false, not, ◌&&◌, Option, none, some, List, [], ◌∷◌,
  ◌++◌, map, if◌then◌else◌, length, get_or, leb, range_from,
}
use prox_mpc.Base.Int.{pos, negsuc, leb_ℤ, ltb_ℤ}
use prox_mpc.Base.Double.{Double, ◌⊕◌, ◌⊖◌, ◌⊗◌, nought}
use prox_mpc.Base.Linear.{identity, product_vec, sum, congruence, with_entry}
use prox_mpc.Tracker.Clustering.{Cluster}
use prox_mpc.Tracker.Kalman.{
  SmallMatrices, vector, transition, process_noise_of, corrected, corrected_covariance,
}
use prox_mpc.Tracker.Track.{Params, Estimator, Track, Tracker}
use prox_mpc.Tracker.Association.{Pair, associate, no_cluster}

module _ {ℓ} {W F : Type ℓ} ⦃d : Double W⦄ (f : Estimator W F) where
  -- The time since the last scan; stamps that go back hold the positions.
  unfoldable pub elapsed : W → Tracker W F → W
  elapsed stamp t =
      let dt = if t.has_last_stamp then stamp ⊖ t.last_stamp else nought in
      if d.lt dt nought then nought else dt

  -- The body of the loop of Tracker::predict.
  abbrev pub predict_track : W → W → Track W F → Track W F
  predict_track q dt t = record t {
    state = product_vec (transition dt) t.state;
    cov = sum (congruence (transition dt) t.cov) (process_noise_of q dt);
  }

  -- Tracker::predict
  unfoldable pub predict_all : Params W → W → List (Track W F) → List (Track W F)
  predict_all p dt ts = if d.le dt nought then ts else map (predict_track p.process_noise dt) ts

  -- The combined output of a track's estimator.
  abbrev pub refreshed : F → Track W F → Track W F
  refreshed filter t = record t {
    state = f.combined_state filter;
    cov = f.combined_covariance filter;
    filter = filter;
  }

  unfoldable pub predicted : Params W → W → List (Track W F) → List (Track W F)
  unfolding predict_all
  predicted p dt ts =
      if p.imm_enabled
      then map (λ t. refreshed (f.predict dt t.filter) t) ts
      else predict_all p dt ts

  module _ (e : SmallMatrices W) where
    -- The filter update of a track that a measurement matches.
    unfoldable pub fused : Params W → Cluster W → Track W F → Track W F
    fused p m t =
        let z = vector (m.x ∷ m.y ∷ []) 2 in
        if p.imm_enabled then refreshed (f.update z t.filter) t else record t {
          state = corrected e p.measurement_noise z t.cov t.state;
          cov = corrected_covariance e p.measurement_noise t.cov;
        }

    -- The bookkeeping of a track that was matched.
    unfoldable pub hit : Params W → Cluster W → Track W F → Track W F
    hit p m t = record t {
      radius = (d.half ⊗ t.radius) ⊕ (d.half ⊗ m.radius);
      hits = suc t.hits;
      misses = 0;
      confirmed =
          if not t.confirmed && leb_ℤ p.confirm_count (pos (suc t.hits)) then true else t.confirmed;
    }

    unfoldable pub missed : Track W F → Track W F
    missed t = record t { hits = 0; misses = suc t.misses }

    -- The body of the update loop for the track at an index.
    unfoldable pub aged : Params W → List (Cluster W) → Option ℕ → Track W F → Track W F
    unfolding fused hit missed
    aged p ms none t = missed t
    aged p ms (some mi) t = let m = get_or ms mi no_cluster in hit p m (fused p m t)

    unfoldable pub aged_from :
        Params W → List (Cluster W) → List (Option ℕ) → ℕ → List (Track W F) → List (Track W F)
    unfolding aged
    aged_from p ms track_meas i [] = []
    aged_from p ms track_meas i (t ∷ ts) =
        aged p ms (get_or track_meas i none) t ∷ aged_from p ms track_meas (suc i) ts

  -- tracks_.erase(std::remove_if(...))
  unfoldable pub survivors : Params W → List (Track W F) → List (Track W F)
  survivors p [] = []
  survivors p (t ∷ ts) =
      let rest = survivors p ts in if ltb_ℤ p.drop_count (pos t.misses) then rest else t ∷ rest

  -- The track that an unmatched measurement spawns, with the identifier it is given.
  unfoldable pub born : Tracker W F → Cluster W → Track W F
  born t m =
      let p = t.params in
      let filter = f.reset m.x m.y (f.make t.imm_params) in
      record {
        id = t.next_id;
        state =
            if p.imm_enabled
            then f.combined_state filter
            else vector (m.x ∷ m.y ∷ nought ∷ nought ∷ []) 4;
        cov =
            if p.imm_enabled
            then f.combined_covariance filter
            else with_entry 3 3 p.initial_velocity_variance (
                with_entry 2 2 p.initial_velocity_variance (
                  with_entry 1 1 p.measurement_noise
                    (with_entry 0 0 p.measurement_noise (identity 4))));
        filter = if p.imm_enabled then filter else f.blank;
        radius = m.radius;
        hits = 1;
        misses = 0;
        confirmed = leb_ℤ p.confirm_count (pos 1);
      }

  -- next_id_++ on a uint32_t, and push_back.
  unfoldable pub spawn : Cluster W → Tracker W F → Tracker W F
  unfolding born
  spawn m t = record t { tracks = t.tracks ++ (born t m ∷ []); next_id = (t.next_id + 1) % 2 ^ 32 }

  -- The birth loop from index mi on; it breaks at the cap.
  unfoldable pub births : List Bool → List (Cluster W) → ℕ → Tracker W F → Tracker W F
  unfolding spawn
  births used [] mi t = t
  births used (m ∷ ms) mi t =
      if get_or used mi false
      then births used ms (suc mi) t
      else if leb t.params.max_tracks (length t.tracks)
      then t
      else births used ms (suc mi) (spawn m t)

  module _ (e : SmallMatrices W) (sort : List (Pair W) → List (Pair W)) where
    -- Tracker::update
    unfoldable pub update : List (Cluster W) → W → Tracker W F → Tracker W F
    unfolding elapsed predicted associate aged_from survivors births
    update ms stamp t =
        let p = t.params in
        let ts = predicted p (elapsed stamp t) t.tracks in
        let gate2 = p.association_gate ⊗ p.association_gate in
        let s = associate sort gate2 (map (λ r. r.state) ts) ms in
        births s.meas_used ms 0 (record t {
          tracks = survivors p (aged_from e p ms s.track_meas 0 ts);
          last_stamp = stamp;
          has_last_stamp = true;
        })

  -- Tracker::predicted_samples
  unfoldable pub predicted_samples : Params W → Track W F → List (W × W)
  predicted_samples p t = elim p.prediction_steps [
    | negsuc n ↦ []
    | pos zero ↦ []
    | pos (suc n) ↦
        let steps = suc n in
        if not (d.lt nought p.prediction_dt)
        then []
        else if p.imm_enabled
        then f.predicted_samples steps p.prediction_dt t.filter
        else map
            (λ k.
              let time = d.of_nat k ⊗ p.prediction_dt in
              (t.state.get 0 ⊕ (t.state.get 2 ⊗ time), t.state.get 1 ⊕ (t.state.get 3 ⊗ time)))
            (range_from steps 1)
  ]
