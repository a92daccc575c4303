-- ===== src/ProxQp/Within.antt =====
-- No write of `setC` leaves its matrix.
use prox_mpc.Base.{
  ℕ, zero, suc, ◌+◌, ◌-◌, ◌*◌, ◌≤◌, ◌<◌, ◌≡◌, refl, ◌∙◌, Bool, true, false, ◌&&◌, List, [], ◌∷◌,
  arith, leb, if◌then◌else◌, length, get_or, gather, range, range-within, All, All-append,
  All-gather, All-weaken,
}
use prox_mpc.Base.Double.{Double, one}
use prox_mpc.Base.Matrix.{Matrix, Write, Inside}
use prox_mpc.ProxQp.State.{ProxQp, Bound}
use prox_mpc.ProxQp.Init.{size_pred, block_sizes}
use prox_mpc.ProxQp.Layout.{IsLaidOut}
use prox_mpc.ProxQp.Blocks.{
  length_sizes, state_size, control_size, rate_size, obstacle_size, slack_size,
}
use prox_mpc.ProxQp.Constraints.{
  block_rows, first_rows, state_row, control_row, rate_row, obstacle_row, slack_row,
  constraint_writes, node_of,
}
use prox_mpc.ProxQp.Ready.{IsReady, cell_lt, div_lt, block_rows-All}

module _ {ℓ} {W S : Type ℓ} ⦃d : Double W⦄ (p : ProxQp W S) (ready : IsReady p.layout) where
  abbrev Fits : Write W → Type 0
  Fits = Inside p.ineq_tot p.n_dvars

  -- A row of block k, counted from the start of the block, is below the block's size, and lies
  -- among the rows of the matrix.
  in_block :
      (k l size : ℕ)
      → k < length (block_sizes p.layout)
      → get_or (block_sizes p.layout) k 0 ≡ size
      → get_or p.ineq_idx k 0 ≤ l
      → l < get_or p.ineq_idx (suc k) 0
      → (l - get_or p.ineq_idx k 0 < size) × (l < p.ineq_tot)
  in_block k l size hk e lo hi =
      let step = ready.laid_out.step_rows k hk in
      let top = ready.laid_out.rows_within (suc k) hk in (omega arith, omega arith)

  first_rows-Inside :
      (j : ℕ) (bs : List (Bound W))
      → j + length bs ≤ p.ineq_tot
      → All (λ b. b.idx < p.m) bs
      → All Fits (first_rows p j bs)
  first_rows-Inside j [] h q = tt
  first_rows-Inside j (b ∷ bs) h q =
      let w = ready.laid_out.w_start_eq in
      let n = ready.laid_out.n_dvars_eq in
      let room : b.idx + p.m * 0 < p.nc * p.m = cell_lt b.idx p.m 0 p.nc q.0 ready.nc_pos in
      ((omega arith, omega arith), first_rows-Inside (suc j) bs (omega arith) q.1)

  abbrev tables : IsLaidOut p.layout
  tables = ready.laid_out

  state_rows-Inside : All Fits (block_rows (state_row p) p.ineq_idx 0 p.model.ineq_x)
  state_rows-Inside =
      block_rows-All Fits (λ b. b.idx < p.model.n) (state_row p) p.ineq_idx 0 p.model.ineq_x
        ready.plant.x_bounds
        λ k b l lo hi q from to.
          let inside =
            in_block k l (p.np + 1) (omega (arith, length_sizes p.layout))
              (state_size p.layout k (omega arith)) from to in
          let cell =
            cell_lt b.idx p.n (l - get_or p.ineq_idx k 0) (p.np + 1) (omega (arith, ready.n_eq))
              inside.0 in
          (
            (
              inside.1,
              omega (
                arith, tables.x_start_eq, tables.u_start_eq, tables.w_start_eq, tables.n_dvars_eq,
              ),
            ),
            tt,
          )

  control_rows-Inside :
      All Fits (block_rows (control_row p) p.ineq_idx (length p.model.ineq_x) p.model.ineq_u)
  control_rows-Inside =
      block_rows-All Fits (λ b. b.idx < p.model.m) (control_row p) p.ineq_idx
        (length p.model.ineq_x) p.model.ineq_u ready.plant.u_bounds
        λ k b l lo hi q from to.
          let inside =
            in_block k l p.nc (omega (arith, length_sizes p.layout))
              (control_size p.layout k (omega arith) (omega arith)) from to in
          let cell =
            cell_lt b.idx p.m (l - get_or p.ineq_idx k 0) p.nc (omega (arith, ready.m_eq))
              inside.0 in
          ((inside.1, omega (arith, tables.w_start_eq, tables.n_dvars_eq)), tt)

  size_pred-lt : (k : ℕ) → 0 < k → suc (size_pred k) ≡ k
  size_pred-lt zero h = elim h [ ]
  size_pred-lt (suc k) h = refl

  -- A rate row also reads the column one control further on, which is still a control.
  rate_rows-Inside : All Fits (
      block_rows
        (rate_row p)
        p.ineq_idx
        (length p.model.ineq_x + length p.model.ineq_u)
        p.model.ineq_du)
  rate_rows-Inside =
      block_rows-All Fits (λ b. b.idx < p.model.m) (rate_row p) p.ineq_idx
        (length p.model.ineq_x + length p.model.ineq_u) p.model.ineq_du ready.plant.du_bounds
        λ k b l lo hi q from to.
          let inside =
            in_block k l (size_pred p.nc) (omega (arith, length_sizes p.layout))
              (rate_size p.layout k (omega arith) (omega arith)) from to in
          let t = l - get_or p.ineq_idx k 0 in
          let fewer = size_pred-lt p.nc ready.nc_pos in
          let next = cell_lt b.idx p.m (suc t) p.nc (omega (arith, ready.m_eq)) (omega arith) in
          let now = cell_lt b.idx p.m t p.nc (omega (arith, ready.m_eq)) (omega arith) in
          (
            (inside.1, omega (arith, tables.w_start_eq, tables.n_dvars_eq)),
            ((inside.1, grind (arith, tables.w_start_eq, tables.n_dvars_eq)), tt),
          )

  All-if {κ} :
      {A : Type κ} (P : A → Type 0) (b : Bool) (ys : List A)
      → (b ≡ true → All P ys)
      → All P (if b then ys else [])
  All-if P true ys h = h refl
  All-if P false ys h = tt

  module _ (x_in : Matrix W) (on : p.obstacle_active ≡ true) where
    slack_columns : p.n_dvars ≡ p.w_start + p.np * p.max_obs
    slack_columns = tables.n_dvars_eq ∙ rw on refl

    -- The node of a slot is a prediction node.
    node-lt : (slot : ℕ) → slot < p.np * p.max_obs → node_of p x_in slot < p.np
    node-lt slot h = div_lt slot p.np p.max_obs h

    obstacle_row-Inside :
        (start r : ℕ)
        → r - start < p.np * p.max_obs
        → r < p.ineq_tot
        → All Fits (obstacle_row x_in p start r)
    unfolding obstacle_row
    obstacle_row-Inside start r small inside =
        let slot = r - start in
        let node = node_of p x_in slot in
        let pos = tables.positions on in
        let lt = node-lt slot small in
        let cx = cell_lt p.idx_pos_x p.n (node + 1) (p.np + 1) pos.0 (omega arith) in
        let cy = cell_lt p.idx_pos_y p.n (node + 1) (p.np + 1) pos.1 (omega arith) in
        let dx = cell_lt p.idx_pos_x p.n node (p.np + 1) pos.0 (omega arith) in
        let dy = cell_lt p.idx_pos_y p.n node (p.np + 1) pos.1 (omega arith) in
        let e0 = tables.x_start_eq in
        let e1 = tables.u_start_eq in
        let e2 = tables.w_start_eq in
        let e3 = slack_columns in
        (
          (inside, omega arith),
          (
            (inside, omega arith),
            (
              (inside, omega arith),
              All-if Fits (d.lt p.cbf_gamma one && leb 1 node) _
                  λ _. ((inside, omega arith), ((inside, omega arith), tt)),
            ),
          ),
        )

    obstacle_rows-Inside :
        (k : ℕ)
        → k < length (block_sizes p.layout)
        → get_or (block_sizes p.layout) k 0 ≡ p.np * p.max_obs
        → All Fits (
            gather
              (obstacle_row x_in p (get_or p.ineq_idx k 0))
              (range (get_or p.ineq_idx k 0) (get_or p.ineq_idx (suc k) 0)))
    obstacle_rows-Inside k hk e =
        All-gather (λ l. (get_or p.ineq_idx k 0 ≤ l) × (l < get_or p.ineq_idx (suc k) 0)) Fits
          (obstacle_row x_in p (get_or p.ineq_idx k 0))
          (λ l h.
            let inside = in_block k l (p.np * p.max_obs) hk e h.0 h.1 in
            obstacle_row-Inside (get_or p.ineq_idx k 0) l inside.0 inside.1)
          _ (range-within _ _)

    slack_rows-Inside :
        (k : ℕ)
        → k < length (block_sizes p.layout)
        → get_or (block_sizes p.layout) k 0 ≡ p.np * p.max_obs
        → All Fits (
            gather
              (slack_row x_in p (get_or p.ineq_idx k 0))
              (range (get_or p.ineq_idx k 0) (get_or p.ineq_idx (suc k) 0)))
    slack_rows-Inside k hk e =
        All-gather (λ l. (get_or p.ineq_idx k 0 ≤ l) × (l < get_or p.ineq_idx (suc k) 0)) Fits
          (slack_row x_in p (get_or p.ineq_idx k 0))
          (λ l h.
            let inside = in_block k l (p.np * p.max_obs) hk e h.0 h.1 in
            ((inside.1, omega (arith, slack_columns)), tt))
          _ (range-within _ _)

  -- In a ready layout, every write of `setC` lies inside the ineq_tot x n_dvars matrix, whatever the
  -- iterate and the obstacles are.
  pub constraint_writes-Inside :
      (x_in : Matrix W) → All (Inside p.ineq_tot p.n_dvars) (constraint_writes x_in p)
  unfolding constraint_writes
  constraint_writes-Inside x_in =
      let i = length p.model.ineq_x + length p.model.ineq_u + length p.model.ineq_du in
      All-append Fits (first_rows p 0 p.model.ineq_du) _
        (first_rows-Inside 0 p.model.ineq_du (omega (arith, tables.ineq_tot_eq)) (
          All-weaken (λ b. b.idx < p.model.m) (λ b. b.idx < p.m) (λ b h. omega (arith, ready.m_eq))
            p.model.ineq_du ready.plant.du_bounds))
        (All-append Fits (block_rows (state_row p) p.ineq_idx 0 p.model.ineq_x) _ state_rows-Inside
          (All-append Fits
            (block_rows (control_row p) p.ineq_idx (length p.model.ineq_x) p.model.ineq_u) _
            control_rows-Inside
            (All-append Fits
              (block_rows (rate_row p) p.ineq_idx (length p.model.ineq_x + length p.model.ineq_u)
                p.model.ineq_du)
              _ rate_rows-Inside
              (All-if Fits p.obstacle_active _ λ on.
                let count : length (block_sizes p.layout) ≡ i + 2 =
                  length_sizes p.layout ∙ rw on refl in
                All-append Fits
                  (gather (obstacle_row x_in p (get_or p.ineq_idx i 0))
                    (range (get_or p.ineq_idx i 0) (get_or p.ineq_idx (suc i) 0)))
                  _ (obstacle_rows-Inside x_in on i (omega arith) (obstacle_size p.layout on))
                  (slack_rows-Inside x_in on (suc i) (omega arith) (slack_size p.layout on))))))
