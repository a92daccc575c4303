-- ===== src/Tracker/Roster.antt =====
-- What the life cycle of the tracks depends on: their identifiers, counts and confirmation, without the
-- estimates. A scan acts on it by which tracks and which measurements were matched.
use prox_mpc.Base.{
  ℕ, zero, suc, ◌+◌, ◌%◌, ◌^◌, Bool, true, false, not, ◌&&◌, Option, List, [], ◌∷◌, ◌++◌, map,
  if◌then◌else◌, length, get_or, leb, none,
}
use prox_mpc.Base.Int.{ℤ, pos, leb_ℤ, ltb_ℤ}
use prox_mpc.Tracker.Association.{is_some}
use prox_mpc.Tracker.Track.{Track, Tracker}

pub record Card : Type 0 where
  pub id : ℕ
  pub hits : ℕ
  pub misses : ℕ
  pub confirmed : Bool

pub record Roster : Type 0 where
  pub cards : List Card
  pub next_id : ℕ

-- confirm_count, drop_count and max_tracks
pub record Rules : Type 0 where
  pub confirm_count : ℤ
  pub drop_count : ℤ
  pub max_tracks : ℕ

module _ {ℓ} {W F : Type ℓ} where
  abbrev pub card_of : Track W F → Card
  card_of t = record { id = t.id; hits = t.hits; misses = t.misses; confirmed = t.confirmed }

  abbrev pub roster_of : Tracker W F → Roster
  roster_of t = record { cards = map card_of t.tracks; next_id = t.next_id }

  abbrev pub rules_of : Tracker W F → Rules
  rules_of t = record {
    confirm_count = t.params.confirm_count;
    drop_count = t.params.drop_count;
    max_tracks = t.params.max_tracks;
  }

module _ (r : Rules) where
  abbrev pub aged_card : Bool → Card → Card
  aged_card true c = record {
    id = c.id;
    hits = suc c.hits;
    misses = 0;
    confirmed =
        if not c.confirmed && leb_ℤ r.confirm_count (pos (suc c.hits)) then true else c.confirmed;
  }
  aged_card false c = record { id = c.id; hits = 0; misses = suc c.misses; confirmed = c.confirmed }

  abbrev pub aged_cards : List (Option ℕ) → ℕ → List Card → List Card
  aged_cards matched i [] = []
  aged_cards matched i (c ∷ cs) =
      aged_card (is_some (get_or matched i none)) c ∷ aged_cards matched (suc i) cs

  abbrev pub kept_cards : List Card → List Card
  kept_cards [] = []
  kept_cards (c ∷ cs) =
      if ltb_ℤ r.drop_count (pos c.misses) then kept_cards cs else c ∷ kept_cards cs

  abbrev pub enrolled : Roster → Roster
  enrolled o = record {
    cards =
        o.cards
        ++ (record {
          id = o.next_id;
          hits = 1;
          misses = 0;
          confirmed = leb_ℤ r.confirm_count (pos 1);
        }
            ∷ []);
    next_id = (o.next_id + 1) % 2 ^ 32;
  }

  -- `count` measurements from index i on.
  unfoldable pub enroll : List Bool → ℕ → ℕ → Roster → Roster
  enroll used zero i o = o
  enroll used (suc count) i o =
      if get_or used i false
      then enroll used count (suc i) o
      else if leb r.max_tracks (length o.cards)
      then o
      else enroll used count (suc i) (enrolled o)

  -- A scan: ageing, death and birth.
  abbrev pub next_roster : List (Option ℕ) → List Bool → ℕ → Roster → Roster
  next_roster matched used count o =
      enroll used count 0 (record o { cards = kept_cards (aged_cards matched 0 o.cards) })
