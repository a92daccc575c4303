-- ===== src/Tracker/Matching.antt =====
-- The greedy association is a matching inside the gate, and no closer pair is left out.
use prox_mpc.Base.{
  ℕ, zero, suc, ◌<◌, ◌≡◌, refl, sym, ap, subst, ◌∙◌, Bool, true, false, ◌||◌, none, some, List, [],
  ◌∷◌, ◌⊎◌, inl, inr, Bool-cases, length, get_or, set, All, length-set, arith,
}
use prox_mpc.Base.Double.{Double}
use prox_mpc.Tracker.Association.{Pair, Matches, is_some, assign_pair}

module _ {ℓ} {A : Type ℓ} where
  get_or-set_same : (xs : List A) (i : ℕ) (v e : A) → i < length xs → get_or (set xs i v) i e ≡ v
  get_or-set_same [] i v e h = elim h [ ]
  get_or-set_same (x ∷ xs) zero v e h = refl
  get_or-set_same (x ∷ xs) (suc i) v e h = get_or-set_same xs i v e (omega arith)

  -- What is read after a write that may be out of range: the old entry, or the new one at its place.
  get_or-set_cases :
      (xs : List A) (i j : ℕ) (v e : A)
      → (get_or (set xs i v) j e ≡ get_or xs j e) ⊎ ((i ≡ j) × (get_or (set xs i v) j e ≡ v))
  get_or-set_cases [] i j v e = inl refl
  get_or-set_cases (x ∷ xs) zero zero v e = inr (refl, refl)
  get_or-set_cases (x ∷ xs) zero (suc j) v e = inl refl
  get_or-set_cases (x ∷ xs) (suc i) zero v e = inl refl
  get_or-set_cases (x ∷ xs) (suc i) (suc j) v e = elim (get_or-set_cases xs i j v e) [
    | inl old ↦ inl old
    | inr new ↦ inr (ap suc new.0, new.1)
  ]

-- The measurement that a track has been given, and whether one has been.
abbrev pub Given : Matches → ℕ → ℕ → Type 0
Given s i m = get_or s.track_meas i none ≡ some m

abbrev pub Used : Matches → ℕ → Type 0
Used s m = get_or s.meas_used m false ≡ true

pub some-injective : {a b : ℕ} → some a ≡ some b → a ≡ b
some-injective e = cc

module _ {ℓ} {W : Type ℓ} where
  abbrev pub taken : Pair W → Matches → Bool
  taken p s = is_some (get_or s.track_meas p.ti none) || get_or s.meas_used p.mi false

  abbrev pub given_to : Pair W → Matches → Matches
  given_to p s = record {
    track_meas = set s.track_meas p.ti (some p.mi);
    meas_used = set s.meas_used p.mi true;
  }

  pub assign_pair-taken : (p : Pair W) (s : Matches) → taken p s ≡ true → assign_pair p s ≡ s
  unfolding assign_pair
  assign_pair-taken p s h = rw h refl

  pub assign_pair-free :
      (p : Pair W) (s : Matches) → taken p s ≡ false → assign_pair p s ≡ given_to p s
  unfolding assign_pair
  assign_pair-free p s h = rw h refl

  pub Given-own :
      (p : Pair W) (s : Matches) → p.ti < length s.track_meas → Given (given_to p s) p.ti p.mi
  Given-own p s h = get_or-set_same s.track_meas p.ti (some p.mi) none h

  -- A free pair's track has no measurement, and its measurement no track.
  pub free-lem :
      (p : Pair W) (s : Matches)
      → taken p s ≡ false
      → (is_some (get_or s.track_meas p.ti none) ≡ false) × (get_or s.meas_used p.mi false ≡ false)
  free-lem p s h = ground arith

  -- What has been given stays given.
  Given-given_to :
      (p : Pair W) (s : Matches) (i m : ℕ)
      → taken p s ≡ false
      → Given s i m
      → Given (given_to p s) i m
  Given-given_to p s i m free g = elim (get_or-set_cases s.track_meas p.ti i (some p.mi) none) [
    | inl old ↦ old ∙ g
    | inr new ↦ absurd (
        let none_there = (free-lem p s free).0 in
        let some_there =
          subst (λ k. is_some (get_or s.track_meas k none) ≡ true) (sym new.0) (ap is_some g) in
        ground arith)
  ]

  pub Given-assign_pair :
      (p : Pair W) (s : Matches) (i m : ℕ) → Given s i m → Given (assign_pair p s) i m
  Given-assign_pair p s i m g = elim (Bool-cases (taken p s)) [
    | inl t ↦ subst (λ r. Given r i m) (sym (assign_pair-taken p s t)) g
    | inr f ↦ subst (λ r. Given r i m) (sym (assign_pair-free p s f)) (Given-given_to p s i m f g)
  ]

module _ {ℓ} {W : Type ℓ} ⦃d : Double W⦄ (nt nm : ℕ) (Ok : Pair W → Type ℓ) where
  -- The assignment so far, with the pairs that are left: none of them is closer than one assigned.
  pub record IsMatching (rest : List (Pair W)) (s : Matches) : Type ℓ where
    pub tracks : length s.track_meas ≡ nt
    pub measured : length s.meas_used ≡ nm
    pub origin :
        (i m : ℕ)
        → Given s i m
        → (q : Pair W) × (q.ti ≡ i) × (q.mi ≡ m) × Ok q × All (λ p. d.lt p.d2 q.d2 ≡ false) rest
    pub backed : (i m : ℕ) → Given s i m → Used s m
    pub matched : (m : ℕ) → Used s m → (i : ℕ) × Given s i m
    pub single : (i j m : ℕ) → Given s i m → Given s j m → i ≡ j

  module _ (p : Pair W) (rest : List (Pair W)) (s : Matches) where
    pub skip-IsMatching : IsMatching (p ∷ rest) s → IsMatching rest s
    skip-IsMatching h = record {
      tracks = h.tracks;
      measured = h.measured;
      origin = λ i m g. let (q, ei, em, o, a) = h.origin i m g in (q, ei, em, o, a.1);
      backed = h.backed;
      matched = h.matched;
      single = h.single;
    }

    -- A measurement given after the step was given before it, or is the pair's.
    Given-cases : (i m : ℕ) → Given (given_to p s) i m → Given s i m ⊎ ((p.ti ≡ i) × (p.mi ≡ m))
    Given-cases i m g = elim (get_or-set_cases s.track_meas p.ti i (some p.mi) none) [
      | inl old ↦ inl (sym old ∙ g)
      | inr new ↦ inr (new.0, some-injective (sym new.1 ∙ g))
    ]

    -- The measurement of a free pair has not been given.
    free-not-Given :
        IsMatching (p ∷ rest) s → taken p s ≡ false → (i m : ℕ) → Given s i m → p.mi ≡ m → ⊥
    free-not-Given h free i m g e =
        let used = h.backed i m g in
        let unused = (free-lem p s free).1 in
        let there = subst (λ k. get_or s.meas_used k false ≡ true) (sym e) used in ground arith

    pub give-IsMatching :
        IsMatching (p ∷ rest) s
        → taken p s ≡ false
        → p.ti < nt
        → p.mi < nm
        → Ok p
        → All (λ r. d.lt r.d2 p.d2 ≡ false) rest
        → IsMatching rest (given_to p s)
    give-IsMatching h free ti mi o after = record {
      tracks = length-set s.track_meas p.ti (some p.mi) ∙ h.tracks;
      measured = length-set s.meas_used p.mi true ∙ h.measured;
      origin = λ i m g. elim (Given-cases i m g) [
        | inl old ↦ let (q, ei, em, oq, a) = h.origin i m old in (q, ei, em, oq, a.1)
        | inr new ↦ (p, new.0, new.1, o, after)
      ];
      backed = λ i m g. elim (get_or-set_cases s.meas_used p.mi m true false) [
        | inl same ↦ elim (Given-cases i m g) [
          | inl old ↦ same ∙ h.backed i m old
          | inr new ↦
              subst (λ k. Used (given_to p s) k) new.1
                (get_or-set_same s.meas_used p.mi true false (omega (arith, mi, h.measured)))
        ]
        | inr new ↦ new.1
      ];
      matched = λ m u. elim (get_or-set_cases s.meas_used p.mi m true false) [
        | inl same ↦ let (i, g) = h.matched m (sym same ∙ u) in (i, Given-given_to p s i m free g)
        | inr new ↦ (
          p.ti,
          subst (λ k. Given (given_to p s) p.ti k) new.0
              (get_or-set_same s.track_meas p.ti (some p.mi) none (omega (arith, ti, h.tracks))),
        )
      ];
      single = λ i j m gi gj. elim (Given-cases i m gi) [
        | inl oi ↦ elim (Given-cases j m gj) [
          | inl oj ↦ h.single i j m oi oj
          | inr nj ↦ absurd (free-not-Given h free i m oi nj.1)
        ]
        | inr ni ↦ elim (Given-cases j m gj) [
          | inl oj ↦ absurd (free-not-Given h free j m oj ni.1)
          | inr nj ↦ sym ni.0 ∙ nj.0
        ]
      ];
    }
