-- ===== src/Tracker/Greedy.antt =====
-- The association of tracks and measurements: a matching inside the gate, in which no closer pair is
-- passed over.
use prox_mpc.Base.{
  ℕ, ◌<◌, ◌≡◌, refl, sym, subst, ◌∙◌, false, none, List, [], ◌∷◌, ◌⊎◌, inl, inr, Bool-cases,
  Option-cases, get_or, All, arith,
}
use prox_mpc.Base.Double.{Double}
use prox_mpc.Tracker.Association.{Pair, Matches, assign_pair, assign_all}
use prox_mpc.Tracker.Matching.{
  Given, Used, IsMatching, taken, Given-own, assign_pair-taken, assign_pair-free, Given-assign_pair,
  skip-IsMatching, give-IsMatching,
}

module _ {ℓ} {W : Type ℓ} ⦃d : Double W⦄ where
  -- From first to last the squared distances do not fall.
  abbrev pub IsOrdered : List (Pair W) → Type 0
  IsOrdered [] = Unit
  IsOrdered (p ∷ ps) = All (λ r. d.lt r.d2 p.d2 ≡ false) ps × IsOrdered ps

  -- What std::sort promises: the elements it was given, and their order.
  pub record IsSort (sort : List (Pair W) → List (Pair W)) : Type (ℓ + 1) where
    pub given : (P : Pair W → Type ℓ) (ps : List (Pair W)) → All P ps → All P (sort ps)
    pub kept : (P : Pair W → Type ℓ) (ps : List (Pair W)) → All P (sort ps) → All P ps
    pub ordered : (ps : List (Pair W)) → IsOrdered (sort ps)

module _ {ℓ} {W : Type ℓ} ⦃d : Double W⦄ (nt nm : ℕ) (Ok : Pair W → Type ℓ) where
  abbrev pub Fits : Pair W → Type ℓ
  Fits p = (p.ti < nt) × (p.mi < nm) × Ok p

  -- The pair is assigned, or one that is assigned and not farther shares its track or its measurement.
  abbrev pub IsSettled : Matches → Pair W → Type ℓ
  IsSettled s p =
      Given s p.ti p.mi
      ⊎ ((q : Pair W) × Given s q.ti q.mi
          × ((q.ti ≡ p.ti) ⊎ (q.mi ≡ p.mi))
          × Ok q
          × (d.lt p.d2 q.d2 ≡ false))

  step-IsMatching :
      (p : Pair W) (rest : List (Pair W)) (s : Matches)
      → Fits p
      → All (λ r. d.lt r.d2 p.d2 ≡ false) rest
      → IsMatching nt nm Ok (p ∷ rest) s
      → IsMatching nt nm Ok rest (assign_pair p s)
  step-IsMatching p rest s fits after h = elim (Bool-cases (taken p s)) [
    | inl t ↦
        subst (λ r. IsMatching nt nm Ok rest r) (sym (assign_pair-taken p s t))
          (skip-IsMatching nt nm Ok p rest s h)
    | inr f ↦
        subst (λ r. IsMatching nt nm Ok rest r) (sym (assign_pair-free p s f))
          (give-IsMatching nt nm Ok p rest s h f fits.0 fits.1 fits.2 after)
  ]

  -- The holder of a pair's track or measurement, of an assignment in which no later pair is closer.
  held-IsSettled :
      (p : Pair W) (rest : List (Pair W)) (s : Matches) (i m : ℕ)
      → IsMatching nt nm Ok (p ∷ rest) s
      → Given s i m
      → (i ≡ p.ti) ⊎ (m ≡ p.mi)
      → IsSettled s p
  held-IsSettled p rest s i m h g shares =
      let (q, ei, em, o, a) = h.origin i m g in
      inr (
        q,
        subst (λ k. Given s k q.mi) (sym ei) (subst (λ k. Given s i k) (sym em) g),
        elim shares [ inl e ↦ inl (ei ∙ e) | inr e ↦ inr (em ∙ e) ],
        o,
        a.0,
      )

  step-IsSettled :
      (p : Pair W) (rest : List (Pair W)) (s : Matches)
      → Fits p
      → All (λ r. d.lt r.d2 p.d2 ≡ false) rest
      → IsMatching nt nm Ok (p ∷ rest) s
      → IsSettled (assign_pair p s) p
  step-IsSettled p rest s fits after h = elim (Bool-cases (taken p s)) [
    | inr f ↦ inl (
        subst (λ r. Given r p.ti p.mi) (sym (assign_pair-free p s f))
          (Given-own p s (omega (arith, fits.0, h.tracks))))
    | inl t ↦ elim (Option-cases (get_or s.track_meas p.ti none)) [
      | inr given ↦
          subst (λ r. IsSettled r p) (sym (assign_pair-taken p s t))
            (held-IsSettled p rest s p.ti given.0 h given.1 (inl refl))
      | inl nothing ↦
          let used : Used s p.mi = ground arith in
          let (i, g) = h.matched p.mi used in
          subst (λ r. IsSettled r p) (sym (assign_pair-taken p s t))
            (held-IsSettled p rest s i p.mi h g (inr refl))
    ]
  ]

  keep-IsSettled : (p r : Pair W) (s : Matches) → IsSettled s p → IsSettled (assign_pair r s) p
  keep-IsSettled p r s (inl g) = inl (Given-assign_pair r s p.ti p.mi g)
  keep-IsSettled p r s (inr (q, g, shares, o, near)) =
      inr (q, Given-assign_pair r s q.ti q.mi g, shares, o, near)

  assign_all-IsSettled :
      (p : Pair W) (ps : List (Pair W)) (s : Matches)
      → IsSettled s p
      → IsSettled (assign_all ps s) p
  unfolding assign_all
  assign_all-IsSettled p [] s h = h
  assign_all-IsSettled p (r ∷ rs) s h =
      assign_all-IsSettled p rs (assign_pair r s) (keep-IsSettled p r s h)

  pub assign_all-lem :
      (ps : List (Pair W)) (s : Matches)
      → All Fits ps
      → IsOrdered ps
      → IsMatching nt nm Ok ps s
      → IsMatching nt nm Ok [] (assign_all ps s) × All (IsSettled (assign_all ps s)) ps
  unfolding assign_all
  assign_all-lem [] s fits ordered h = (h, tt)
  assign_all-lem (p ∷ ps) s fits ordered h =
      let next = step-IsMatching p ps s fits.0 ordered.0 h in
      let (last, settled) = assign_all-lem ps (assign_pair p s) fits.1 ordered.1 next in
      (
        last,
        (
          assign_all-IsSettled p ps (assign_pair p s) (step-IsSettled p ps s fits.0 ordered.0 h),
          settled,
        ),
      )
