-- ===== src/Tracker/Synced.antt =====
-- The published estimate of a track is the combined output of its estimator, and stamps that go back
-- hold it.
use prox_mpc.Base.{
  ℕ, zero, suc, ◌≡◌, refl, sym, ap, ◌∙◌, Bool, true, false, Option, none, some, List, [], ◌∷◌, map,
  inl, inr, length, get_or, leb, range_from, length-range_from, Bool-cases, All, All-append,
}
use prox_mpc.Base.Int.{ℤ, pos, negsuc, ltb_ℤ}
use prox_mpc.Base.Double.{Double, ◌⊖◌, nought}
use prox_mpc.Base.Cmath.{Cmath}
use prox_mpc.Tracker.Clustering.{Cluster}
use prox_mpc.Tracker.Kalman.{SmallMatrices}
use prox_mpc.Tracker.Track.{Params, Estimator, Track, Tracker}
use prox_mpc.Tracker.Association.{Pair, no_cluster}
use prox_mpc.Tracker.Update.{
  elapsed, predicted, fused, hit, missed, aged, aged_from, survivors, born, spawn, births, update,
  refreshed, predicted_samples,
}
use prox_mpc.Tracker.Refinement.{length-map, if-same}
use prox_mpc.Tracker.Imm.{ImmFilter, predict, combined_state, combined_covariance, imm_estimator}
use prox_mpc.Tracker.Imm as Imm

-- What the tracker relies on: an estimator that no time passes for keeps its output, and gives as many
-- samples as it is asked for.
pub record IsEstimator {ℓ} {W F : Type ℓ} ⦃d : Double W⦄ (f : Estimator W F) : Type ℓ where
  pub held_state :
      (dt : W) (k : F)
      → d.le dt nought ≡ true
      → f.combined_state (f.predict dt k) ≡ f.combined_state k
  pub held_covariance :
      (dt : W) (k : F)
      → d.le dt nought ≡ true
      → f.combined_covariance (f.predict dt k) ≡ f.combined_covariance k
  pub samples :
      (n : ℕ) (dt : W) (k : F) → d.lt nought dt ≡ true → length (f.predicted_samples n dt k) ≡ n

-- The number of samples that a track's future is given.
abbrev pub sample_count : ℤ → ℕ
sample_count (pos n) = n
sample_count (negsuc n) = 0

module _ {ℓ} {W F : Type ℓ} ⦃d : Double W⦄ (f : Estimator W F) where
  abbrev pub IsSynced : Track W F → Type ℓ
  IsSynced t = (t.state ≡ f.combined_state t.filter) × (t.cov ≡ f.combined_covariance t.filter)

  All-map {κ} :
      (P : Track W F → Type κ) (g : Track W F → Track W F)
      → ((t : Track W F) → P (g t))
      → (ts : List (Track W F)) → All P (map g ts)
  All-map P g h [] = tt
  All-map P g h (t ∷ ts) = (h t, All-map P g h ts)

  predicted-IsSynced :
      (p : Params W) (dt : W) (ts : List (Track W F))
      → p.imm_enabled ≡ true
      → All IsSynced (predicted f p dt ts)
  unfolding predicted
  predicted-IsSynced p dt ts imm = rw imm (All-map IsSynced _ (λ t. (refl, refl)) ts)

  module _ (e : SmallMatrices W) where
    fused-IsSynced :
        (p : Params W) (m : Cluster W) (t : Track W F)
        → p.imm_enabled ≡ true
        → IsSynced (fused f e p m t)
    unfolding fused
    fused-IsSynced p m t imm = rw imm (refl, refl)

    aged-IsSynced :
        (p : Params W) (ms : List (Cluster W)) (o : Option ℕ) (t : Track W F)
        → p.imm_enabled ≡ true
        → IsSynced t
        → IsSynced (aged f e p ms o t)
    unfolding aged hit missed
    aged-IsSynced p ms none t imm h = h
    aged-IsSynced p ms (some k) t imm h = fused-IsSynced p (get_or ms k no_cluster) t imm

    aged_from-IsSynced :
        (p : Params W) (ms : List (Cluster W)) (o : List (Option ℕ)) (i : ℕ) (ts : List (Track W F))
        → p.imm_enabled ≡ true
        → All IsSynced ts
        → All IsSynced (aged_from f e p ms o i ts)
    unfolding aged_from
    aged_from-IsSynced p ms o i [] imm h = tt
    aged_from-IsSynced p ms o i (t ∷ ts) imm h = (
      aged-IsSynced p ms (get_or o i none) t imm h.0,
      aged_from-IsSynced p ms o (suc i) ts imm h.1,
    )

  survivors-IsSynced :
      (p : Params W) (ts : List (Track W F)) → All IsSynced ts → All IsSynced (survivors f p ts)
  unfolding survivors
  survivors-IsSynced p [] h = tt
  survivors-IsSynced p (t ∷ ts) h = elim (Bool-cases (ltb_ℤ p.drop_count (pos t.misses))) [
    | inl dead ↦ rw dead (survivors-IsSynced p ts h.1)
    | inr alive ↦ rw alive (h.0, survivors-IsSynced p ts h.1)
  ]

  born-IsSynced :
      (t : Tracker W F) (m : Cluster W) → t.params.imm_enabled ≡ true → IsSynced (born f t m)
  unfolding born
  born-IsSynced t m imm = rw imm (refl, refl)

  births-IsSynced :
      (used : List Bool) (ms : List (Cluster W)) (i : ℕ) (t : Tracker W F)
      → t.params.imm_enabled ≡ true
      → All IsSynced t.tracks
      → All IsSynced (births f used ms i t).tracks
  unfolding births spawn
  births-IsSynced used [] i t imm h = h
  births-IsSynced used (m ∷ ms) i t imm h = elim (Bool-cases (get_or used i false)) [
    | inl matched ↦ rw matched (births-IsSynced used ms (suc i) t imm h)
    | inr unmatched ↦ elim (Bool-cases (leb t.params.max_tracks (length t.tracks))) [
      | inl full ↦ rw (unmatched, full) h
      | inr room ↦
          rw (unmatched, room)
            (births-IsSynced used ms (suc i) (spawn f m t) imm
              (All-append IsSynced t.tracks (born f t m ∷ []) h (born-IsSynced t m imm, tt)))
    ]
  ]

  -- With the IMM estimator enabled, after a scan each track's published state and covariance are the
  -- combined output of its own estimator.
  pub update-IsSynced :
      (e : SmallMatrices W) (sort : List (Pair W) → List (Pair W)) (ms : List (Cluster W))
      (stamp : W) (t : Tracker W F)
      → t.params.imm_enabled ≡ true
      → All IsSynced (update f e sort ms stamp t).tracks
  unfolding update
  update-IsSynced e sort ms stamp t imm = births-IsSynced _ ms 0 _ imm (
      survivors-IsSynced t.params _ (
        aged_from-IsSynced e t.params ms _ 0 _ imm
          (predicted-IsSynced t.params (elapsed f stamp t) t.tracks imm)))

  map-held :
      {B : Type ℓ} (g : Track W F → B) (h : Track W F → Track W F) (ts : List (Track W F))
      → All IsSynced ts
      → ((t : Track W F) → IsSynced t → g (h t) ≡ g t)
      → map g (map h ts) ≡ map g ts
  map-held g h [] synced same = refl
  map-held g h (t ∷ ts) synced same = rw (same t synced.0, map-held g h ts synced.1 same) refl

  predicted-imm :
      (p : Params W) (dt : W) (ts : List (Track W F))
      → p.imm_enabled ≡ true
      → predicted f p dt ts ≡ map (λ t. refreshed f (f.predict dt t.filter) t) ts
  unfolding predicted
  predicted-imm p dt ts imm = rw imm refl

  elapsed-back :
      (stamp : W) (t : Tracker W F)
      → t.has_last_stamp ≡ true
      → d.lt (stamp ⊖ t.last_stamp) nought ≡ true
      → elapsed f stamp t ≡ nought
  unfolding elapsed
  elapsed-back stamp t has back = rw (has, back) refl

  -- A scan whose stamp goes back moves no track before the association: with the IMM estimator enabled
  -- and the tracks' estimates in step with it, their states and covariances stay, if zero is at most
  -- zero and a prediction over no time leaves the estimator's output, as IsEstimator says.
  pub predicted-held :
      (stamp : W) (t : Tracker W F)
      → IsEstimator f
      → t.params.imm_enabled ≡ true
      → All IsSynced t.tracks
      → t.has_last_stamp ≡ true
      → d.lt (stamp ⊖ t.last_stamp) nought ≡ true
      → d.le nought nought ≡ true
      → (map (λ r. r.state) (predicted f t.params (elapsed f stamp t) t.tracks)
          ≡ map (λ r. r.state) t.tracks)
        × (map (λ r. r.cov) (predicted f t.params (elapsed f stamp t) t.tracks)
            ≡ map (λ r. r.cov) t.tracks)
  predicted-held stamp t laws imm synced has back zero_le =
      let still : predicted f t.params (elapsed f stamp t) t.tracks
          ≡ map (λ r. refreshed f (f.predict nought r.filter) r) t.tracks =
        ap (λ dt. predicted f t.params dt t.tracks) (elapsed-back stamp t has back)
        ∙ predicted-imm t.params nought t.tracks imm in
      (
        ap (map (λ r. r.state)) still
            ∙ map-held (λ r. r.state) _ t.tracks synced
                (λ r s. laws.held_state nought r.filter zero_le ∙ sym s.0),
        ap (map (λ r. r.cov)) still
            ∙ map-held (λ r. r.cov) _ t.tracks synced
                (λ r s. laws.held_covariance nought r.filter zero_le ∙ sym s.1),
      )

  length-predicted_samples_at :
      (p : Params W) (t : Track W F) (steps : ℤ)
      → IsEstimator f
      → d.lt nought p.prediction_dt ≡ true
      → length (predicted_samples f (record p { prediction_steps = steps }) t) ≡ sample_count steps
  unfolding predicted_samples
  length-predicted_samples_at p t (pos zero) laws later = refl
  length-predicted_samples_at p t (negsuc n) laws later = refl
  length-predicted_samples_at p t (pos (suc n)) laws later = rw later (
      if-same length p.imm_enabled (suc n) (laws.samples (suc n) p.prediction_dt t.filter later)
        (length-map _ (range_from (suc n) 1) ∙ length-range_from (suc n) 1))

  -- With a positive spacing a track's future has prediction_steps samples, or none for a negative
  -- number of steps.
  pub length-predicted_samples :
      (p : Params W) (t : Track W F)
      → IsEstimator f
      → d.lt nought p.prediction_dt ≡ true
      → length (predicted_samples f p t) ≡ sample_count p.prediction_steps
  length-predicted_samples p t laws later =
      length-predicted_samples_at p t p.prediction_steps laws later

module _ {ℓ} {W : Type ℓ} ⦃d : Double W⦄ ⦃r : Cmath W⦄ where
  length-samples :
      (n : ℕ) (dt : W) (k : ImmFilter W)
      → d.lt nought dt ≡ true
      → length (Imm.predicted_samples n dt k) ≡ n
  unfolding Imm.predicted_samples
  length-samples zero dt k h = refl
  length-samples (suc n) dt k h =
      rw h (ap suc (length-map _ (range_from n 2) ∙ length-range_from n 2))

  predict-held :
      (dt : W) (k : ImmFilter W) → d.le dt nought ≡ true → predict dt k ≡ record k { cbar = k.mu }
  unfolding predict
  predict-held dt k h = rw h refl

  -- The IMM filter is such an estimator.
  pub imm_estimator-IsEstimator : (e : SmallMatrices W) → IsEstimator (imm_estimator e)
  unfolding imm_estimator combined_state combined_covariance
  imm_estimator-IsEstimator e = record {
    held_state = λ dt k h. ap combined_state (predict-held dt k h);
    held_covariance = λ dt k h. ap combined_covariance (predict-held dt k h);
    samples = length-samples;
  }
