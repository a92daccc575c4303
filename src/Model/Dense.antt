-- ===== src/Model/Dense.antt =====
-- The keys of an inequality map are 0, 1, …, as the counter gives them out.
use mathlib.Core.List.{append_assoc}
use mathlib.Core.Path.{ap₂}
use prox_mpc.Base.{
  ℕ, suc, ◌+◌, ◌≤◌, ◌≡◌, refl, sym, ap, inl, inr, Bool, true, false, Option, none, some, [], ◌∷◌,
  ◌++◌, arith, ◌==◌, ltb, if◌then◌else◌, length, length-append, Bool-cases, map,
}
use prox_mpc.Base.Result.{ok}
use prox_mpc.Model.Bounds.{Bound, Entries, Ineq, find, assign, append_bound, scan, rows_from, rows}
use prox_mpc.Model.State.{last_on}

module _ {ℓ} {W : Type ℓ} where
  abbrev pub Keys : ℕ → Entries W → Type 0
  Keys s [] = Unit
  Keys s ((k, b) ∷ es) = (k ≡ s) × Keys (suc s) es

  pub record IsDense (q : Ineq W) : Type 0 where
    pub keys : Keys 0 q.entries
    pub next : q.map_idx ≡ length q.entries

  assign-append :
      (s t : ℕ) (b : Bound W) (es : Entries W)
      → t ≡ s + length es
      → Keys s es
      → assign t b es ≡ es ++ (t, b) ∷ []
  assign-append s t b [] e h = refl
  assign-append s t b ((k, c) ∷ es) e h =
      let ne : (k == t) ≡ false = ground arith in
      let nl : ltb t k ≡ false = ground arith in
      rw (ne, nl) (ap (λ l. (k, c) ∷ l) (assign-append (suc s) t b es (omega arith) h.1))

  Keys-append :
      (s t : ℕ) (b : Bound W) (es : Entries W)
      → t ≡ s + length es
      → Keys s es
      → Keys s (es ++ (t, b) ∷ [])
  Keys-append s t b [] e h = (omega arith, tt)
  Keys-append s t b ((k, c) ∷ es) e h = (h.0, Keys-append (suc s) t b es (omega arith) h.1)

  -- A bound declared later comes last, and the keys stay dense.
  pub append_bound-IsDense :
      (b : Bound W) (q : Ineq W)
      → IsDense q
      → IsDense (append_bound b q) × ((append_bound b q).entries ≡ q.entries ++ (q.map_idx, b) ∷ [])
  unfolding append_bound
  append_bound-IsDense b q h =
      let e = assign-append 0 q.map_idx b q.entries (omega (arith, h.next)) h.keys in
      (
        record {
          keys = rw e (Keys-append 0 q.map_idx b q.entries (omega (arith, h.next)) h.keys);
          next = rw e (omega (arith, h.next, length-append q.entries ((q.map_idx, b) ∷ [])));
        },
        e,
      )

  -- Looking up the key of the first entry after a prefix.
  find-middle :
      (s t : ℕ) (pre suf : Entries W) (k : ℕ) (b : Bound W)
      → t ≡ s + length pre
      → Keys s (pre ++ (k, b) ∷ suf)
      → find t (pre ++ (k, b) ∷ suf) ≡ some b
  find-middle s t [] suf k b e h = let e' : (k == t) ≡ true = ground arith in rw e'
  find-middle s t ((j, c) ∷ pre) suf k b e h =
      let ne : (j == t) ≡ false = ground arith in
      rw ne (find-middle (suc s) t pre suf k b (omega arith) h.1)

  -- A bound found so far, and the key it is at.
  pub data SameFind (es : Entries W) : Option (Bound W) → Option ℕ → Type ℓ where
    neither : SameFind es none none
    both : {c : Bound W} {i : ℕ} → find i es ≡ some c → SameFind es (some c) (some i)

  pub SameFind-cases :
      (es : Entries W) {last : Option (Bound W)} {at : Option ℕ}
      → SameFind es last at
      → (last ≡ none → at ≡ none)
        × ((c : Bound W) → last ≡ some c → (i : ℕ) × (at ≡ some i) × (find i es ≡ some c))
  SameFind-cases es neither = (λ _. refl, λ c e. cc)
  SameFind-cases es (both {i = i} here) = (λ e. cc, λ c e. (i, refl, cc))

  SameFind-step :
      (es : Entries W) (b : Bound W) (t : ℕ) (test : Bool) (found : Option (Bound W))
      (at : Option ℕ)
      → find t es ≡ some b
      → SameFind es found at
      → SameFind es (if test then some b else found) (if test then some t else at)
  SameFind-step es b t true found at e same = both e
  SameFind-step es b t false found at e same = same

  -- The scan of a dense map reads no missing key, and ends at the last entry on the index.
  scan-last_on :
      (idx t : ℕ) (pre suf : Entries W) (found : Option (Bound W)) (at : Option ℕ)
      → t ≡ length pre
      → Keys 0 (pre ++ suf)
      → SameFind (pre ++ suf) found at
      → (r : Option ℕ) × (scan (pre ++ suf) idx (length suf) t at ≡ ok r)
        × SameFind (pre ++ suf) (last_on idx suf found) r
  unfolding scan
  scan-last_on idx t pre [] found at e h same = (at, refl, same)
  scan-last_on idx t pre ((k, b) ∷ suf) found at e h same =
      let here = find-middle 0 t pre suf k b (omega arith) h in
      let split = append_assoc pre ((k, b) ∷ []) suf in
      let rest =
        scan-last_on idx (suc t) (pre ++ (k, b) ∷ []) suf (if b.idx == idx then some b else found)
          (if b.idx == idx then some t else at) (omega (arith, length-append pre ((k, b) ∷ [])))
          (rw split h)
          (rw split (SameFind-step (pre ++ (k, b) ∷ suf) b t (b.idx == idx) found at here same)) in
      rw (here, scan) (rw split at rest)

  pub scan_lem :
      (idx : ℕ) (q : Ineq W)
      → IsDense q
      → (r : Option ℕ) × (scan q.entries idx (length q.entries) 0 none ≡ ok r)
        × SameFind q.entries (last_on idx q.entries none) r
  scan_lem idx q h = scan-last_on idx 0 [] q.entries none none refl h.keys neither

  rows_from-ok :
      (t : ℕ) (pre suf : Entries W)
      → t ≡ length pre
      → Keys 0 (pre ++ suf)
      → rows_from (pre ++ suf) (length suf) t ≡ ok (map (λ e. e.1) suf)
  unfolding rows_from
  rows_from-ok t pre [] e h = refl
  rows_from-ok t pre ((k, b) ∷ suf) e h =
      let here = find-middle 0 t pre suf k b (omega arith) h in
      let split = append_assoc pre ((k, b) ∷ []) suf in
      let rest =
        rows_from-ok (suc t) (pre ++ (k, b) ∷ []) suf
          (omega (arith, length-append pre ((k, b) ∷ []))) (rw split h) in
      rw (here, rows_from) (rw (rw split at rest) refl)

  -- On a dense map, the solver's loops over `getIneq(var).at(j)` read every declared bound, in the order of
  -- declaration, and no key that is missing.
  pub rows-ok : (q : Ineq W) → IsDense q → rows q ≡ ok (map (λ e. e.1) q.entries)
  unfolding rows
  rows-ok q h = rows_from-ok 0 [] q.entries refl h.keys

  pub le-find : (s t : ℕ) (es : Entries W) (c : Bound W) → Keys s es → find t es ≡ some c → s ≤ t
  le-find s t [] c h e = cc
  le-find s t ((k, a) ∷ es) c h e = ground (arith, le-find (suc s) t es c h.1)

  -- Assigning to a key that is there changes neither the keys nor their number.
  pub Keys-assign :
      (s t : ℕ) (b : Bound W) (es : Entries W) {c : Bound W}
      → Keys s es
      → find t es ≡ some c
      → Keys s (assign t b es) × (length (assign t b es) ≡ length es)
  Keys-assign s t b [] h e = cc
  Keys-assign s t b ((k, a) ∷ es) {c} h e = elim (Bool-cases (k == t)) [
    | inl at ↦ let kt : t ≡ s = ground arith in rw at ((kt, h.1), refl)
    | inr past ↦
        let e' : find t es ≡ some c = ground arith in
        let later : ltb t k ≡ false = ground (arith, le-find (suc s) t es c h.1 e') in
        let rest = Keys-assign (suc s) t b es h.1 e' in
        rw (past, later) ((h.0, rest.0), ap suc rest.1)
  ]

  assign_self :
      (s i : ℕ) (c : Bound W) (es : Entries W) → Keys s es → find i es ≡ some c → assign i c es ≡ es
  assign_self s i c [] h e = cc
  assign_self s i c ((k, a) ∷ es) h e = elim (Bool-cases (k == i)) [
    | inl at ↦
        let same : a ≡ c = ground arith in
        let key : i ≡ k = ground arith in rw at (ap₂ (λ j x. (j, x) ∷ es) key (sym same))
    | inr past ↦
        let e' : find i es ≡ some c = ground arith in
        let later : ltb i k ≡ false = ground (arith, le-find (suc s) i es c h.1 e') in
        rw (past, later) (ap (λ l. (k, a) ∷ l) (assign_self (suc s) i c es h.1 e'))
  ]

  -- Writing back the bound that a key already has changes nothing.
  pub assign-find :
      (i : ℕ) (c : Bound W) (q : Ineq W)
      → IsDense q
      → find i q.entries ≡ some c
      → assign i c q.entries ≡ q.entries
  assign-find i c q h e = assign_self 0 i c q.entries h.keys e
