-- ===== src/ProxQp/Pattern.antt =====
-- Which entries of E and C the fillers own: it depends on the layout and on whether the coupling is on,
-- and on no value.
use mathlib.Core.List.{map-append}
use prox_mpc.Base.{
  ℕ, suc, ◌+◌, ◌-◌, ◌*◌, ◌/◌, ◌≡◌, refl, ◌∙◌, ◌&&◌, inl, inr, List, [], ◌∷◌, map, leb, Bool-cases,
  length, get_or, gather, map-gather, range, strided,
}
use prox_mpc.Base.Double.{Double, one, ◌⊗◌}
use prox_mpc.Base.Matrix.{Matrix, place, place-block, row_of}
use prox_mpc.ProxQp.State.{ProxQp, Bound}
use prox_mpc.ProxQp.Objective.{gather_count}
use prox_mpc.ProxQp.Dynamics.{clamp_index, node_writes, equality_writes}
use prox_mpc.ProxQp.Constraints.{
  block_rows, first_rows, state_row, control_row, rate_row, obstacle_row, slack_row,
  constraint_writes, node_of,
}

map-block_rows {ℓ κ μ} :
    {W : Type ℓ} {A : Type κ} {B : Type μ} (g : A → B) (f f' : Bound W → ℕ → ℕ → List A)
    (idx : List ℕ) (i : ℕ) (bs : List (Bound W))
    → ((b : Bound W) (start l : ℕ) → map g (f b start l) ≡ map g (f' b start l))
    → map g (block_rows f idx i bs) ≡ map g (block_rows f' idx i bs)
map-block_rows g f f' idx i [] same = refl
map-block_rows g f f' idx i (b ∷ bs) same =
    let start = get_or idx i 0 in
    let rows = range start (get_or idx (suc i) 0) in
    map-append g (gather (f b start) rows) (block_rows f idx (suc i) bs)
    ∙ rw (
      map-gather g (f b start) (f' b start) (same b start) rows,
      map-block_rows g f f' idx (suc i) bs same,
      map-append g (gather (f' b start) rows) (block_rows f' idx (suc i) bs),
    )

map-gather_count {ℓ κ} :
    {A : Type ℓ} {B : Type κ} (g : A → B) (f f' : ℕ → ℕ → List A)
    → ((count i : ℕ) → map g (f count i) ≡ map g (f' count i))
    → (count : ℕ) (is : List ℕ) → map g (gather_count f count is) ≡ map g (gather_count f' count is)
map-gather_count g f f' same count [] = refl
map-gather_count g f f' same count (i ∷ is) =
    simp (map-append, same count i, map-gather_count g f f' same (suc count) is)

module _ {ℓ} {W S : Type ℓ} ⦃d : Double W⦄ (p q : ProxQp W S) (same : q.layout ≡ p.layout) where
  place-first_rows :
      (j : ℕ) (bs : List (Bound W)) → map place (first_rows q j bs) ≡ map place (first_rows p j bs)
  place-first_rows j [] = refl
  place-first_rows j (b ∷ bs) = simp (same, place-first_rows (suc j) bs)

  place-obstacle_row :
      (x y : Matrix W) (start r : ℕ)
      → d.lt q.cbf_gamma one ≡ d.lt p.cbf_gamma one
      → map place (obstacle_row x q start r) ≡ map place (obstacle_row y p start r)
  unfolding obstacle_row
  place-obstacle_row x y start r coupled =
      elim (Bool-cases (d.lt p.cbf_gamma one && leb 1 (node_of p y (r - start)))) [
        | inl on ↦ simp (same, coupled, on)
        | inr off ↦ simp (same, coupled, off)
      ]

  -- The places that `setC` writes do not depend on the iterate, on the obstacles or on the step: two
  -- objects with one layout, and both or neither with cbf_gamma < 1, own the same entries.
  pub place-constraint_writes :
      (x y : Matrix W)
      → d.lt q.cbf_gamma one ≡ d.lt p.cbf_gamma one
      → map place (constraint_writes x q) ≡ map place (constraint_writes y p)
  unfolding constraint_writes
  place-constraint_writes x y coupled =
      let xs = p.model.ineq_x in
      let us = p.model.ineq_u in
      let dus = p.model.ineq_du in
      let idx = p.ineq_idx in
      let nth = length xs + length us + length dus in
      let first = get_or idx nth 0 in
      let second = get_or idx (suc nth) 0 in
      let third = get_or idx (suc (suc nth)) 0 in
      let firsts = place-first_rows 0 dus in
      let states = map-block_rows place (state_row q) (state_row p) idx 0 xs λ b s l. simp same in
      let controls =
        map-block_rows place (control_row q) (control_row p) idx (length xs) us
          λ b s l. simp same in
      let rates =
        map-block_rows place (rate_row q) (rate_row p) idx (length xs + length us) dus
          λ b s l. simp same in
      let keep_outs =
        map-gather place (obstacle_row x q first) (obstacle_row y p first)
          (λ r. place-obstacle_row x y first r coupled) (range first second) in
      let slacks =
        map-gather place (slack_row x q second) (slack_row y p second) (λ r. simp same)
          (range second third) in
      elim (Bool-cases p.obstacle_active) [
        | inl on ↦ simp (same, on, map-append, firsts, states, controls, rates, keep_outs, slacks)
        | inr off ↦ simp (same, off, map-append, firsts, states, controls, rates)
      ]

  place-node_writes :
      (x u y v : Matrix W) (count i : ℕ)
      → map place (node_writes x u q count i) ≡ map place (node_writes y v p count i)
  unfolding node_writes
  place-node_writes x u y v count i =
      let first = get_or p.eq_idx 0 0 in
      let col = p.u_start + (i - first) / p.n * p.m in
      simp (
        same,
        map-append,
        place-block i (i - first) p.n p.n
            (p.model.state_matrix q.dt (row_of x count) (row_of u (clamp_index count (u.rows - 1))))
            (p.model.state_matrix p.dt (row_of y count)
              (row_of v (clamp_index count (v.rows - 1)))),
        place-block i (clamp_index col (p.w_start - p.m)) p.n p.m
            (λ a b.
              p.model.control_matrix (row_of x count) (row_of u (clamp_index count (u.rows - 1))) a
                b
              ⊗ q.dt)
            (λ a b.
              p.model.control_matrix (row_of y count) (row_of v (clamp_index count (v.rows - 1))) a
                b
              ⊗ p.dt),
      )

  -- Nor do the places that `setE` writes.
  pub place-equality_writes :
      (x u y v : Matrix W) → map place (equality_writes x u q) ≡ map place (equality_writes y v p)
  unfolding equality_writes
  place-equality_writes x u y v = simp (
    same,
    map-append,
    map-gather_count place (node_writes x u q) (node_writes y v p) (place-node_writes x u y v) 0
        (strided (get_or p.eq_idx 0 0) (get_or p.eq_idx 1 0) p.n),
  )
