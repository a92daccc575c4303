-- ===== src/Tracker/Refinement.antt =====
-- Tracker::update follows the life cycle of the roster, whatever the estimates are.
use prox_mpc.Base.{
  ℕ, suc, ◌+◌, ◌%◌, ◌^◌, ◌≡◌, refl, ap, ◌∙◌, Bool, true, false, Option, none, some, List, [], ◌∷◌,
  map, if◌then◌else◌, length, get_or, leb,
}
use mathlib.Core.List.{map-append}
use prox_mpc.Base.Double.{Double, ◌⊗◌}
use prox_mpc.Base.Int.{ltb_ℤ, pos}
use prox_mpc.Tracker.Clustering.{Cluster}
use prox_mpc.Tracker.Kalman.{SmallMatrices}
use prox_mpc.Tracker.Track.{Params, Estimator, Track, Tracker}
use prox_mpc.Tracker.Association.{Pair, Matches, associate, is_some, no_cluster}
use prox_mpc.Tracker.Update.{
  elapsed, predict_all, predicted, fused, hit, missed, aged, aged_from, survivors, born, spawn,
  births, update,
}
use prox_mpc.Tracker.Roster.{
  card_of, roster_of, rules_of, aged_card, aged_cards, kept_cards, enrolled, enroll, next_roster,
}

module _ {ℓ κ} {A : Type ℓ} {B : Type κ} where
  map-same :
      (g : A → B) (h : A → A)
      → ((a : A) → g (h a) ≡ g a)
      → (xs : List A) → map g (map h xs) ≡ map g xs
  map-same g h same [] = refl
  map-same g h same (x ∷ xs) = rw (same x, map-same g h same xs) refl

  pub length-map : (g : A → B) (xs : List A) → length (map g xs) ≡ length xs
  length-map g [] = refl
  length-map g (x ∷ xs) = ap suc (length-map g xs)

pub if-same {ℓ κ} :
    {A : Type ℓ} {B : Type κ} (g : A → B) (t : Bool) {x y : A} (z : B)
    → g x ≡ z
    → g y ≡ z
    → g (if t then x else y) ≡ z
if-same g true z p q = p
if-same g false z p q = q

if-both {ℓ κ} :
    {A : Type ℓ} {B : Type κ} (g : A → B) (t : Bool) {x y : A} {u v : B}
    → g x ≡ u
    → g y ≡ v
    → g (if t then x else y) ≡ (if t then u else v)
if-both g true p q = p
if-both g false p q = q

module _ {ℓ} {W F : Type ℓ} ⦃d : Double W⦄ (f : Estimator W F) where
  predicted-card_of :
      (p : Params W) (dt : W) (ts : List (Track W F))
      → map card_of (predicted f p dt ts) ≡ map card_of ts
  unfolding predicted predict_all
  predicted-card_of p dt ts =
      if-same (map card_of) p.imm_enabled (map card_of ts) (map-same card_of _ (λ t. refl) ts) (
        if-same (map card_of) (d.le dt (d.of_nat 0)) (map card_of ts) refl
          (map-same card_of _ (λ t. refl) ts))

  module _ (e : SmallMatrices W) where
    fused-card_of :
        (p : Params W) (m : Cluster W) (t : Track W F) → card_of (fused f e p m t) ≡ card_of t
    unfolding fused
    fused-card_of p m t = if-same card_of p.imm_enabled (card_of t) refl refl

    hit-card_of :
        (k : Tracker W F) (m : Cluster W) (t s : Track W F)
        → card_of t ≡ card_of s
        → card_of (hit f e k.params m t) ≡ aged_card (rules_of k) true (card_of s)
    unfolding hit
    hit-card_of k m t s h = ap (aged_card (rules_of k) true) h

    aged-card_of :
        (k : Tracker W F) (ms : List (Cluster W)) (o : Option ℕ) (t : Track W F)
        → card_of (aged f e k.params ms o t) ≡ aged_card (rules_of k) (is_some o) (card_of t)
    unfolding aged missed
    aged-card_of k ms none t = refl
    aged-card_of k ms (some i) t =
        let m = get_or ms i no_cluster in
        hit-card_of k m (fused f e k.params m t) t (fused-card_of k.params m t)

    aged_from-card_of :
        (k : Tracker W F) (ms : List (Cluster W)) (o : List (Option ℕ)) (i : ℕ)
        (ts : List (Track W F))
        → map card_of (aged_from f e k.params ms o i ts)
          ≡ aged_cards (rules_of k) o i (map card_of ts)
    unfolding aged_from
    aged_from-card_of k ms o i [] = refl
    aged_from-card_of k ms o i (t ∷ ts) =
        rw (aged-card_of k ms (get_or o i none) t, aged_from-card_of k ms o (suc i) ts) refl

  survivors-card_of :
      (k : Tracker W F) (ts : List (Track W F))
      → map card_of (survivors f k.params ts) ≡ kept_cards (rules_of k) (map card_of ts)
  unfolding survivors
  survivors-card_of k [] = refl
  survivors-card_of k (t ∷ ts) =
      if-both (map card_of) (ltb_ℤ k.params.drop_count (pos t.misses)) (survivors-card_of k ts)
        (ap (λ cs. card_of t ∷ cs) (survivors-card_of k ts))

  spawn-roster_of :
      (m : Cluster W) (t : Tracker W F)
      → roster_of (spawn f m t) ≡ enrolled (rules_of t) (roster_of t)
  unfolding spawn born
  spawn-roster_of m t =
      ap (λ cs. record { cards = cs; next_id = (t.next_id + 1) % 2 ^ 32 })
        (map-append card_of t.tracks (born f t m ∷ []))

  spawn-params : (m : Cluster W) (t : Tracker W F) → rules_of (spawn f m t) ≡ rules_of t
  unfolding spawn
  spawn-params m t = refl

  births-roster_of :
      (used : List Bool) (ms : List (Cluster W)) (i : ℕ) (t : Tracker W F)
      → roster_of (births f used ms i t) ≡ enroll (rules_of t) used (length ms) i (roster_of t)
  unfolding births enroll spawn
  births-roster_of used [] i t = refl
  births-roster_of used (m ∷ ms) i t = rw (length-map card_of t.tracks) (
      if-both roster_of (get_or used i false) (births-roster_of used ms (suc i) t) (
        if-both roster_of (leb t.params.max_tracks (length t.tracks)) refl (
          births-roster_of used ms (suc i) (spawn f m t)
          ∙ ap (enroll (rules_of t) used (length ms) (suc i)) (spawn-roster_of m t))))

  module _ (e : SmallMatrices W) (sort : List (Pair W) → List (Pair W)) where
    -- The assignment that a scan makes.
    abbrev pub scan_matches : List (Cluster W) → W → Tracker W F → Matches
    scan_matches ms stamp t =
        associate sort (t.params.association_gate ⊗ t.params.association_gate)
          (map (λ r. r.state) (predicted f t.params (elapsed f stamp t) t.tracks)) ms

    -- On the identifiers, counts and confirmations of the tracks, a scan is a step of the life cycle,
    -- which sees of the estimates only which tracks and which measurements the association matched.
    pub update-roster_of :
        (ms : List (Cluster W)) (stamp : W) (t : Tracker W F)
        → roster_of (update f e sort ms stamp t)
          ≡ next_roster
              (rules_of t)
              (scan_matches ms stamp t).track_meas
              (scan_matches ms stamp t).meas_used
              (length ms)
              (roster_of t)
    unfolding update
    update-roster_of ms stamp t =
        let s = scan_matches ms stamp t in
        let ts = predicted f t.params (elapsed f stamp t) t.tracks in
        births-roster_of s.meas_used ms 0 _
        ∙ ap
            (λ cs.
              enroll (rules_of t) s.meas_used (length ms) 0
                (record { cards = cs; next_id = t.next_id }))
            (survivors-card_of t (aged_from f e t.params ms s.track_meas 0 ts)
              ∙ (ap (kept_cards (rules_of t)) (
                  aged_from-card_of e t ms s.track_meas 0 ts
                  ∙ ap (aged_cards (rules_of t) s.track_meas 0)
                      (predicted-card_of t.params (elapsed f stamp t) t.tracks))))
