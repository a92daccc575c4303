-- ===== src/Tracker/Runs.antt =====
-- A tracker over any sequence of scans and resets.
use prox_mpc.Base.{
  ℕ, suc, ◌+◌, ◌^◌, ◌<◌, ◌≤◌, ◌≡◌, refl, sym, subst, Bool, false, List, [], ◌∷◌, length, get_or,
  leb, All, arith,
}
use prox_mpc.Base.Double.{Double}
use prox_mpc.Tracker.Clustering.{Cluster}
use prox_mpc.Tracker.Kalman.{SmallMatrices}
use prox_mpc.Tracker.Track.{Params, Estimator, Tracker, tracker, reset_tracker}
use prox_mpc.Tracker.Association.{Pair}
use prox_mpc.Tracker.Update.{update, births, spawn}
use prox_mpc.Tracker.Roster.{Rules, roster_of, rules_of}
use prox_mpc.Tracker.Refinement.{if-same, scan_matches, update-roster_of}
use prox_mpc.Tracker.Lifecycle.{IsRoster, IsAlive, next_roster-IsRoster}

-- The public calls that change a tracker.
pub data TrackerCall {ℓ} (W : Type ℓ) : Type ℓ where
  scan : List (Cluster W) → W → TrackerCall W
  restart : TrackerCall W

-- The measurements of all scans.
abbrev pub measurements {ℓ} : {W : Type ℓ} → List (TrackerCall W) → ℕ
measurements [] = 0
measurements (scan ms stamp ∷ cs) = length ms + measurements cs
measurements (restart ∷ cs) = measurements cs

empty-IsRoster : (r : Rules) → IsRoster r (record { cards = []; next_id = 0 })
empty-IsRoster r = record { ascending = tt; fresh = tt; counted = tt; capped = omega arith }

module _ {ℓ} {W F : Type ℓ} ⦃d : Double W⦄ (f : Estimator W F) (e : SmallMatrices W)
    (sort : List (Pair W) → List (Pair W)) where
  abbrev pub track_call : TrackerCall W → Tracker W F → Tracker W F
  track_call (scan ms stamp) t = update f e sort ms stamp t
  track_call restart t = reset_tracker t

  abbrev pub track_calls : List (TrackerCall W) → Tracker W F → Tracker W F
  track_calls [] t = t
  track_calls (c ∷ cs) t = track_calls cs (track_call c t)

  births-rules_of :
      (used : List Bool) (ms : List (Cluster W)) (i : ℕ) (t : Tracker W F)
      → rules_of (births f used ms i t) ≡ rules_of t
  unfolding births spawn
  births-rules_of used [] i t = refl
  births-rules_of used (m ∷ ms) i t =
      if-same rules_of (get_or used i false) (rules_of t) (births-rules_of used ms (suc i) t) (
        if-same rules_of (leb t.params.max_tracks (length t.tracks)) (rules_of t) refl
          (births-rules_of used ms (suc i) (spawn f m t)))

  update-rules_of :
      (ms : List (Cluster W)) (stamp : W) (t : Tracker W F)
      → rules_of (update f e sort ms stamp t) ≡ rules_of t
  unfolding update
  update-rules_of ms stamp t = births-rules_of _ ms 0 _

  -- A scan of a tracker whose tracks satisfy the life cycle's invariant leaves one that does, as long as
  -- the identifiers do not run out; afterwards no track has missed more scans than drop_count allows.
  pub update-IsRoster :
      (ms : List (Cluster W)) (stamp : W) (t : Tracker W F)
      → t.next_id + length ms < 2 ^ 32
      → IsRoster (rules_of t) (roster_of t)
      → IsRoster (rules_of t) (roster_of (update f e sort ms stamp t))
        × All (IsAlive (rules_of t)) (roster_of (update f e sort ms stamp t)).cards
        × ((update f e sort ms stamp t).next_id ≤ t.next_id + length ms)
  update-IsRoster ms stamp t small h =
      let s = scan_matches f e sort ms stamp t in
      subst
        (λ o.
          IsRoster (rules_of t) o
          × All (IsAlive (rules_of t)) o.cards
          × (o.next_id ≤ t.next_id + length ms))
        (sym (update-roster_of f e sort ms stamp t))
        (next_roster-IsRoster (rules_of t) s.track_meas s.meas_used (length ms) (roster_of t) small
          h)

  track_calls-lem :
      (cs : List (TrackerCall W)) (t : Tracker W F)
      → t.next_id + measurements cs < 2 ^ 32
      → IsRoster (rules_of t) (roster_of t)
      → IsRoster (rules_of (track_calls cs t)) (roster_of (track_calls cs t))
  unfolding reset_tracker
  track_calls-lem [] t small h = h
  track_calls-lem (scan ms stamp ∷ cs) t small h =
      let (next, alive, bound) = update-IsRoster ms stamp t (omega arith) h in
      track_calls-lem cs (update f e sort ms stamp t) (omega (arith, bound)) (
        subst (λ r. IsRoster r (roster_of (update f e sort ms stamp t)))
          (sym (update-rules_of ms stamp t)) next)
  track_calls-lem (restart ∷ cs) t small h =
      track_calls-lem cs (reset_tracker t) (omega arith) (empty-IsRoster (rules_of t))

  -- Over any sequence of scans and resets of a new tracker with fewer than 2^32 measurements in all, the
  -- tracks' identifiers are different and in the order of the list, below the next one; each track
  -- counts hits or misses and not both; one that is not confirmed has fewer than confirm_count hits;
  -- and there are at most max_tracks.
  pub track_calls-IsRoster :
      (p : Params W) (cs : List (TrackerCall W))
      → measurements cs < 2 ^ 32
      → IsRoster (rules_of (track_calls cs (tracker p))) (roster_of (track_calls cs (tracker p)))
  unfolding tracker
  track_calls-IsRoster p cs small =
      track_calls-lem cs (tracker p) (omega arith) (empty-IsRoster (rules_of (tracker {F = F} p)))
