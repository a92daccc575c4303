-- ===== src/ProxQp/Prepared.antt =====
-- `ProxQP::init` lays the problem out: its theorem.
use prox_mpc.Base.{
  ℕ, zero, suc, ◌+◌, ◌-◌, ◌*◌, ◌^◌, ◌≤◌, ◌<◌, ◌⊎◌, if◌then◌else◌, ◌≡◌, ◌≢◌, refl, sym, ap, ◌∙◌,
  subst, true, inl, inr, [], ◌∷◌, arith, leb, ◌==◌, Bool-cases, length, get_or,
}
use prox_mpc.Base.Result.{ok, >>=-eq-ok, throw_if-eq-ok, ok-injective}
use prox_mpc.ProxQp.State.{Layout, Plant}
use prox_mpc.ProxQp.Init.{
  size_pred, block_sizes, index_equalities, index_inequalities, place_variables, read_mapping,
  read_model, lay_out,
}
use prox_mpc.ProxQp.Blocks.{
  state_size, control_size, rate_size, obstacle_size, slack_size, length_sizes,
}
use prox_mpc.ProxQp.Layout.{
  IsLaidOut, IsFor, CountsBounds, table_of, table_step, table_within, back_or-accumulate,
  index_equalities_lem, table_top,
}

-- The rows of a laid-out problem, counted: after the first rows, one for each bound on a change of the
-- controls, the index table delimits a block of np + 1 rows for each bound on the states, of nc rows for
-- each bound on the controls, of nc - 1 rows for each bound on the changes (which wraps around at nc = 0),
-- and with obstacles two of np * max_obs rows.
pub record HasRows {ℓ} {W : Type ℓ} (p : Layout W) : Type 0 where
  pub state_rows :
      (k : ℕ)
      → k < length p.model.ineq_x
      → get_or p.ineq_idx (suc k) 0 ≡ get_or p.ineq_idx k 0 + (p.np + 1)
  pub control_rows :
      (k : ℕ)
      → length p.model.ineq_x ≤ k
      → k < length p.model.ineq_x + length p.model.ineq_u
      → get_or p.ineq_idx (suc k) 0 ≡ get_or p.ineq_idx k 0 + p.nc
  pub rate_rows :
      (k : ℕ)
      → length p.model.ineq_x + length p.model.ineq_u ≤ k
      → k < length p.model.ineq_x + length p.model.ineq_u + length p.model.ineq_du
      → get_or p.ineq_idx (suc k) 0
        ≡ get_or p.ineq_idx k 0 + (if p.nc == 0 then 2 ^ 64 - 1 else p.nc - 1)
  pub obstacle_rows :
      (k : ℕ)
      → p.obstacle_active ≡ true
      → (k ≡ length p.model.ineq_x + length p.model.ineq_u + length p.model.ineq_du)
        ⊎ (k ≡ length p.model.ineq_x + length p.model.ineq_u + length p.model.ineq_du + 1)
      → get_or p.ineq_idx (suc k) 0 ≡ get_or p.ineq_idx k 0 + p.np * p.max_obs
  pub last_row :
      get_or p.ineq_idx
        (length p.model.ineq_x
          + length p.model.ineq_u
          + length p.model.ineq_du
          + (if p.obstacle_active then 2 else 0))
        0
      ≡ p.ineq_tot

rate_lem : (nc : ℕ) → size_pred nc ≡ (if nc == 0 then 2 ^ 64 - 1 else nc - 1)
rate_lem zero = refl
rate_lem (suc nc) = grind arith

abbrev HasPositions : ℕ → ℕ → ℕ → Type 0
HasPositions n ix iy = (ix < n) × (iy < n) × (ix ≢ iy)

module _ {ℓ} {W : Type ℓ} where
  -- An accepted mapping changes the two position indices at most, and they are checked if used.
  read_mapping_lem :
      (model : Plant W) (p : Layout W) {q : Layout W}
      → read_mapping model p ≡ ok q
      → (ix : ℕ) × (iy : ℕ) × (q ≡ record p { idx_pos_x = ix; idx_pos_y = iy })
        × (p.obstacle_active ≡ true → HasPositions p.n ix iy)
  unfolding read_mapping
  read_mapping_lem model p {q} h = elim (Bool-cases p.obstacle_active) [
    | inl on ↦
        let h1 = rw (on, read_mapping) at h in
        let (fx, h2) = throw_if-eq-ok (leb p.n model.idx_x) _ _ h1 in
        let (fy, h3) = throw_if-eq-ok (leb p.n model.idx_y) _ _ h2 in
        let (ne, h4) = throw_if-eq-ok (model.idx_x == model.idx_y) _ _ h3 in
        (model.idx_x, model.idx_y, cc, λ _. (ground arith, ground arith, ground arith))
    | inr off ↦ (p.idx_pos_x, p.idx_pos_y, let h1 = rw (off, read_mapping) at h in cc, λ on. cc)
  ]

  counted-IsLaidOut :
      (p : Layout W)
      → CountsBounds p
      → p.eq_idx ≡ p.n ∷ (p.n + p.np * p.n) ∷ []
      → p.eq_tot ≡ p.n + p.np * p.n
      → (p.obstacle_active ≡ true → HasPositions p.n p.idx_pos_x p.idx_pos_y)
      → IsLaidOut (place_variables (index_inequalities p))
  unfolding index_inequalities place_variables
  counted-IsLaidOut p counts eqs et pos =
      let first = length p.model.ineq_du in
      let sizes = block_sizes p in
      let table = table_of p counts in
      record {
        x_start_eq = refl;
        u_start_eq = omega arith;
        w_start_eq = refl;
        n_dvars_eq = refl;
        eq_first = ap (λ l. get_or l 0 0) eqs;
        eq_second = ap (λ l. get_or l 1 0) eqs;
        eq_tot_eq = et;
        first_rows = ap (λ l. get_or l 0 0) table;
        step_rows = λ i h. rw table (table_step first sizes i h);
        rows_within =
            λ i h. rw (table, back_or-accumulate first sizes) (table_within first sizes i h);
        ineq_tot_eq = rw table (back_or-accumulate first sizes);
        positions = pos;
      }

  tot :
      (model : Plant W) (l : Layout W)
      → l.n_eq ≡ 0
      → (read_model model l).eq_tot ≡ model.n + l.np * model.n
  unfolding read_model index_equalities
  tot model l e = rw e refl

  for :
      (model : Plant W) (l : Layout W) (ix iy : ℕ)
      → IsFor model l (
          place_variables
            (index_inequalities (record (read_model model l) { idx_pos_x = ix; idx_pos_y = iy })))
  unfolding read_model index_equalities index_inequalities place_variables
  for model l ix iy = record {
    model_eq = refl;
    n_eq = refl;
    m_eq = refl;
    np_eq = refl;
    nc_eq = refl;
    max_obs_eq = refl;
    active_eq = refl;
  }

  -- The two blocks of the obstacles.
  obstacle_step :
      (p : Layout W)
      → IsLaidOut p
      → (k : ℕ) → p.obstacle_active ≡ true
      → (k ≡ length p.model.ineq_x + length p.model.ineq_u + length p.model.ineq_du)
        ⊎ (k ≡ length p.model.ineq_x + length p.model.ineq_u + length p.model.ineq_du + 1)
      → get_or p.ineq_idx (suc k) 0 ≡ get_or p.ineq_idx k 0 + p.np * p.max_obs
  obstacle_step p h k on at =
      let two : ◌≡◌ {A = ℕ} (if p.obstacle_active then 2 else 0) 2 =
        ap (λ b. if b then 2 else 0) on in
      let count = length_sizes p in
      elim at [
        | inl e ↦
            h.step_rows k (omega (arith, count, two, e))
            ∙ ap (λ s. get_or p.ineq_idx k 0 + s)
                (ap (λ i. get_or (block_sizes p) i 0) e ∙ obstacle_size p on)
        | inr e ↦
            (let e' : k
                  ≡ suc (length p.model.ineq_x + length p.model.ineq_u + length p.model.ineq_du) =
                omega (arith, e) in
              h.step_rows k (omega (arith, count, two, e))
              ∙ ap (λ s. get_or p.ineq_idx k 0 + s)
                  (ap (λ i. get_or (block_sizes p) i 0) e' ∙ slack_size p on))
      ]

  IsLaidOut-HasRows : (p : Layout W) → IsLaidOut p → HasRows p
  IsLaidOut-HasRows p h =
      let count = length_sizes p in
      record {
        state_rows = λ k below.
            h.step_rows k (omega (arith, count, below))
            ∙ ap (λ s. get_or p.ineq_idx k 0 + s) (state_size p k below);
        control_rows = λ k from below.
            h.step_rows k (omega (arith, count, below))
            ∙ ap (λ s. get_or p.ineq_idx k 0 + s) (control_size p k from below);
        rate_rows = λ k from below.
            h.step_rows k (omega (arith, count, below))
            ∙ ap (λ s. get_or p.ineq_idx k 0 + s) (rate_size p k from below ∙ rate_lem p.nc);
        obstacle_rows = λ k on at. obstacle_step p h k on at;
        last_row =
            ap (λ k. get_or p.ineq_idx k 0) (sym count)
            ∙ (table_top (λ i. get_or p.ineq_idx i 0) (block_sizes p) h.step_rows
                ∙ omega (arith, h.first_rows, h.ineq_tot_eq));
      }

  -- From fresh counters, with n_ineq the number of entries of the model's maps, an accepted `init`
  -- lays out the decision variables as states, controls and slack one after the other, and the rows so
  -- that the index tables delimit a block of np * n dynamics rows after the n initial ones, and blocks
  -- of np + 1, nc, nc - 1 and np * max_obs rows for each entry of each kind; with obstacles, the two
  -- position indices are distinct states. The caller's settings and the model's sizes are kept.
  pub lay_out-IsLaidOut :
      (model : Plant W) (l : Layout W) {q : Layout W}
      → l.n_eq ≡ 0
      → l.n_ineq ≡ length model.ineq_x + length model.ineq_u + length model.ineq_du
      → lay_out model l ≡ ok q
      → IsLaidOut q × IsFor model l q × HasRows q
  unfolding lay_out read_model
  lay_out-IsLaidOut model l {q} eqs ineqs h =
      let s = read_model model l in
      let (r, mapped, done) =
        >>=-eq-ok (read_mapping model s) (λ r. ok (place_variables (index_inequalities r))) h in
      let (ix, iy, e, pos) = read_mapping_lem model s mapped in
      let placed = record s { idx_pos_x = ix; idx_pos_y = iy } in
      let e' : place_variables (index_inequalities placed) ≡ q =
        ap (λ k. place_variables (index_inequalities k)) (sym e) ∙ ok-injective done in
      let laid =
        counted-IsLaidOut placed ineqs
          (index_equalities_lem (record l { model = model; n = model.n; m = model.m }) eqs)
          (tot model l eqs) pos in
      subst (λ k. IsLaidOut k × IsFor model l k × HasRows k) e'
        (laid, for model l ix iy, IsLaidOut-HasRows _ laid)
