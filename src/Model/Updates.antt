-- ===== src/Model/Updates.antt =====
-- `setIneq`, `updateIneq` and `overrideBound` on the inequality bounds.
use Prim.Native.String.{String}
use prox_mpc.Base.{
  ℕ, ◌<◌, ◌≡◌, refl, subst, inl, inr, false, Option, none, some, [], ◌∷◌, arith, ◌==◌, ltb,
  if◌then◌else◌, All, All-append, Bool-cases, Option-cases, ==_iff,
}
use prox_mpc.Base.Double.{Double}
use prox_mpc.Base.Result.{
  Result, ok, thrown, invalid_argument, >>=-eq-ok, throw_if-eq-ok, ok-injective,
}
use prox_mpc.Model.Bounds.{Bound, Entries, Ineq, find, assign, append_bound}
use prox_mpc.Model.State.{
  Model, Var, var_x, var_u, var_du, var_w, map_of, with_map, out_of_dimension, last_on, bounds,
  checked_var, set_ineq, replace_bound, update_ineq,
}
use prox_mpc.Model.Dense.{IsDense, append_bound-IsDense, SameFind-cases, scan_lem, Keys-assign}

module _ {ℓ} {W : Type ℓ} where
  pub find-assign :
      (i j : ℕ) (b : Bound W) (es : Entries W)
      → find j (assign i b es) ≡ (if i == j then some b else find j es)
  find-assign i j b [] = refl
  find-assign i j b ((k, c) ∷ es) = ground (arith, find-assign i j b es)

module _ {ℓ} {W : Type ℓ} ⦃d : Double W⦄ where
  abbrev NoBound : Result (Ineq W)
  NoBound = thrown (invalid_argument "Model::updateIneq: no existing bound for idx_vec")

  -- The outcome of replacing a bound in a dense map: an error if no entry is on the index, and else the
  -- map with one entry changed, the last one on the index.
  pub replace_bound_lem :
      (b : Bound W) (q : Ineq W)
      → IsDense q
      → (last_on b.idx q.entries none ≡ none → replace_bound b q ≡ NoBound)
        × ((c : Bound W)
            → last_on b.idx q.entries none ≡ some c
            → (i : ℕ) × (find i q.entries ≡ some c)
              × (replace_bound b q ≡ ok (record q { entries = assign i b q.entries }))
              × IsDense (record q { entries = assign i b q.entries }))
  unfolding replace_bound
  replace_bound_lem b q h =
      let (r, done, same) = scan_lem b.idx q h in
      let (missing, found) = SameFind-cases q.entries same in
      (
        λ e. rw (done, missing e) refl,
        λ c e.
            let (i, at, here) = found c e in
            let (keys, same_length) = Keys-assign 0 i b q.entries h.keys here in
            (
              i,
              here,
              rw (done, at) refl,
              record { keys = keys; next = omega (arith, h.next, same_length) },
            ),
      )

  -- A map's keys are dense, its indices are in range, and no lower bound is above its upper one.
  pub record HasBounds (Within : ℕ → Type 0) (q : Ineq W) : Type 0 where
    pub dense : IsDense q
    pub entry : All (λ (e : ℕ × Bound W). Within e.1.idx × (d.lt e.1.upp e.1.low ≡ false)) q.entries

  abbrev pub WithinOf : Model W → Var → ℕ → Type 0
  WithinOf p var_x i = i < p.n
  WithinOf p var_u i = i < p.m
  WithinOf p var_du i = i < p.m
  WithinOf p var_w i = Unit

  -- Each map has its bounds.
  abbrev pub IsModel : Model W → Type 0
  IsModel p = (v : Var) → HasBounds (WithinOf p v) (map_of v p)

  append_bound-HasBounds :
      (Within : ℕ → Type 0) (b : Bound W) (q : Ineq W)
      → HasBounds Within q
      → Within b.idx
      → d.lt b.upp b.low ≡ false
      → HasBounds Within (append_bound b q)
  append_bound-HasBounds Within b q h w o =
      let (dense, e) = append_bound-IsDense b q h.dense in
      record {
        dense = dense;
        entry = rw e (
            All-append (λ e. Within e.1.idx × (d.lt e.1.upp e.1.low ≡ false)) q.entries
              ((q.map_idx, b) ∷ []) h.entry ((w, o), tt));
      }

  All-assign :
      (P : ℕ × Bound W → Type 0) (k : ℕ) (b : Bound W) (es : Entries W)
      → All P es
      → P (k, b)
      → All P (assign k b es)
  All-assign P k b [] h new = (new, tt)
  All-assign P k b ((j, c) ∷ es) h new = elim (Bool-cases (j == k)) [
    | inl at ↦ rw at (new, h.1)
    | inr past ↦ elim (Bool-cases (ltb k j)) [
      | inl before ↦ rw (past, before) (new, h)
      | inr later ↦ rw (past, later) (h.0, All-assign P k b es h.1 new)
    ]
  ]

  -- The last entry on an index is an entry on it.
  pub last_on-All :
      (P : ℕ → Type 0) (idx : ℕ) (es : Entries W) (found : Option (Bound W)) {c : Bound W}
      → All (λ (e : ℕ × Bound W). P e.1.idx × (d.lt e.1.upp e.1.low ≡ false)) es
      → ((a : Bound W) → found ≡ some a → (a.idx ≡ idx) × P a.idx × (d.lt a.upp a.low ≡ false))
      → last_on idx es found ≡ some c
      → (c.idx ≡ idx) × P c.idx × (d.lt c.upp c.low ≡ false)
  last_on-All P idx [] found h old e = old _ e
  last_on-All P idx ((k, b) ∷ es) found h old e = elim (Bool-cases (b.idx == idx)) [
    | inl on ↦
        last_on-All P idx es (some b) h.1
          (λ a e'.
            let same : b ≡ a = cc in
            subst (λ a. (a.idx ≡ idx) × P a.idx × (d.lt a.upp a.low ≡ false)) same
              ((==_iff b.idx idx).0 on, h.0.0, h.0.1))
          (rw on at e)
    | inr off ↦ last_on-All P idx es found h.1 old (rw off at e)
  ]

  replace_bound-HasBounds :
      (Within : ℕ → Type 0) (b : Bound W) (q : Ineq W) {r : Ineq W}
      → HasBounds Within q
      → d.lt b.upp b.low ≡ false
      → replace_bound b q ≡ ok r
      → HasBounds Within r
  replace_bound-HasBounds Within b q {r} h o e =
      let (missing, found) = replace_bound_lem b q h.dense in
      elim (Option-cases (last_on b.idx q.entries none)) [
        | inl no_entry ↦ let e' = missing no_entry in cc
        | inr (c, last) ↦
            let (i, here, done, dense) = found c last in
            let on = last_on-All Within b.idx q.entries none h.entry (λ a n. cc) last in
            let same : record q { entries = assign i b q.entries } ≡ r = cc in
            subst (λ k. HasBounds Within k) same
              (record {
                dense = dense;
                entry =
                    All-assign (λ e. Within e.1.idx × (d.lt e.1.upp e.1.low ≡ false)) i b q.entries
                      h.entry (subst Within on.0 on.1, o);
              })
      ]

  -- Changing one map leaves the others.
  with_map-IsModel :
      (p : Model W) (v : Var) (q : Ineq W)
      → IsModel p
      → HasBounds (WithinOf p v) q
      → IsModel (with_map v q p)
  with_map-IsModel p var_x q h new var_x = new
  with_map-IsModel p var_x q h new var_u = record {
    dense = (h var_u).dense;
    entry = (h var_u).entry;
  }
  with_map-IsModel p var_x q h new var_du = record {
    dense = (h var_du).dense;
    entry = (h var_du).entry;
  }
  with_map-IsModel p var_x q h new var_w = record {
    dense = (h var_w).dense;
    entry = (h var_w).entry;
  }
  with_map-IsModel p var_u q h new var_u = new
  with_map-IsModel p var_u q h new var_x = record {
    dense = (h var_x).dense;
    entry = (h var_x).entry;
  }
  with_map-IsModel p var_u q h new var_du = record {
    dense = (h var_du).dense;
    entry = (h var_du).entry;
  }
  with_map-IsModel p var_u q h new var_w = record {
    dense = (h var_w).dense;
    entry = (h var_w).entry;
  }
  with_map-IsModel p var_du q h new var_du = new
  with_map-IsModel p var_du q h new var_x = record {
    dense = (h var_x).dense;
    entry = (h var_x).entry;
  }
  with_map-IsModel p var_du q h new var_u = record {
    dense = (h var_u).dense;
    entry = (h var_u).entry;
  }
  with_map-IsModel p var_du q h new var_w = record {
    dense = (h var_w).dense;
    entry = (h var_w).entry;
  }
  with_map-IsModel p var_w q h new var_w = new
  with_map-IsModel p var_w q h new var_x = record {
    dense = (h var_x).dense;
    entry = (h var_x).entry;
  }
  with_map-IsModel p var_w q h new var_u = record {
    dense = (h var_u).dense;
    entry = (h var_u).entry;
  }
  with_map-IsModel p var_w q h new var_du = record {
    dense = (h var_du).dense;
    entry = (h var_du).entry;
  }

  in_dimension :
      (p : Model W) (v : Var) (idx : ℕ)
      → 0 < p.n
      → 0 < p.m
      → out_of_dimension v idx p ≡ false
      → WithinOf p v idx
  in_dimension p var_x idx n m h = ground arith
  in_dimension p var_u idx n m h = ground arith
  in_dimension p var_du idx n m h = ground arith
  in_dimension p var_w idx n m h = tt

  -- Once the dimensions are set, an accepted `setIneq` keeps every map dense, every index below its
  -- dimension and every lower bound at most its upper one (as far as the comparison tells).
  pub set_ineq-IsModel :
      (var : String) (idx : ℕ) (low upp : W) (p : Model W) {q : Model W}
      → 0 < p.n
      → 0 < p.m
      → IsModel p
      → set_ineq var idx low upp p ≡ ok q
      → IsModel q
  unfolding set_ineq
  set_ineq-IsModel var idx low upp p n m h e =
      let (v, checked, rest) = >>=-eq-ok (checked_var var low upp) _ e in
      let (ordered, named) = throw_if-eq-ok (d.lt upp low) _ _ checked in
      let (inside, done) = throw_if-eq-ok (out_of_dimension v idx p) _ _ rest in
      subst IsModel (ok-injective done) (
        with_map-IsModel p v (append_bound (bounds idx low upp) (map_of v p)) h (
          append_bound-HasBounds (WithinOf p v) (bounds idx low upp) (map_of v p) (h v)
            (in_dimension p v idx n m inside) ordered))

  -- An accepted `updateIneq` keeps every map dense, every index below its dimension and every lower
  -- bound at most its upper one, whatever the dimensions.
  pub update_ineq-IsModel :
      (var : String) (idx : ℕ) (low upp : W) (p : Model W) {q : Model W}
      → IsModel p
      → update_ineq var idx low upp p ≡ ok q
      → IsModel q
  unfolding update_ineq
  update_ineq-IsModel var idx low upp p h e =
      let (v, checked, rest) = >>=-eq-ok (checked_var var low upp) _ e in
      let (ordered, named) = throw_if-eq-ok (d.lt upp low) _ _ checked in
      let (q, replaced, done) =
        >>=-eq-ok (replace_bound (bounds idx low upp) (map_of v p)) _ rest in
      subst IsModel (ok-injective done) (
        with_map-IsModel p v q h (
          replace_bound-HasBounds (WithinOf p v) (bounds idx low upp) (map_of v p) (h v) ordered
            replaced))
