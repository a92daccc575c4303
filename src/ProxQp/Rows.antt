-- ===== src/ProxQp/Rows.antt =====
-- `setd` sets the bounds of every row, once.
use mathlib.Core.List.{map-append}
use prox_mpc.Base.{
  ℕ, zero, suc, ◌+◌, ◌-◌, ◌≤◌, ◌<◌, ◌≡◌, refl, sym, ap, ◌∙◌, subst, List, [], ◌∷◌, ◌++◌, map, arith,
  if◌then◌else◌, Bool-cases, inl, inr, length, get_or, gather, range, range_from,
}
use prox_mpc.Base.Double.{Double}
use prox_mpc.Base.Matrix.{Matrix, Vector}
use prox_mpc.ProxQp.State.{ProxQp, Bound}
use prox_mpc.ProxQp.Init.{block_sizes}
use prox_mpc.ProxQp.Layout.{table_top, IsLaidOut}
use prox_mpc.ProxQp.Blocks.{length_sizes}
use prox_mpc.ProxQp.Constraints.{block_rows}
use prox_mpc.ProxQp.Bounds.{
  Limit, limits, first_limits, state_limit, control_limit, rate_limit, obstacle_limit, slack_limit,
}

range_from-append :
    (a b c s t : ℕ) → t ≡ s + a → c ≡ a + b → range_from a s ++ range_from b t ≡ range_from c s
range_from-append zero b c s t e f =
    let same : b ≡ c = omega arith in
    let start : t ≡ s = omega arith in
    ap (λ k. range_from k t) same ∙ ap (λ k. range_from c k) start
range_from-append (suc a) b zero s t e f = absurd (omega arith)
range_from-append (suc a) b (suc c) s t e f =
    ap (λ l. s ∷ l) (range_from-append a b c (suc s) t (omega arith) (omega arith))

module _ {ℓ} {W : Type ℓ} where
  -- The rows of the limits are lo, …, hi - 1 in order.
  abbrev RowsFrom : ℕ → ℕ → List (Limit W) → Type 0
  RowsFrom lo hi ls = (lo ≤ hi) × (map (λ (l : Limit W). l.row) ls ≡ range_from (hi - lo) lo)

  RowsFrom-append :
      (lo mid hi : ℕ) (xs ys : List (Limit W))
      → RowsFrom lo mid xs
      → RowsFrom mid hi ys
      → RowsFrom lo hi (xs ++ ys)
  RowsFrom-append lo mid hi xs ys (p, e) (q, f) = (
    omega arith,
    map-append (λ (l : Limit W). l.row) xs ys
        ∙ (ap (λ k. k ++ map (λ (l : Limit W). l.row) ys) e
            ∙ (ap (λ k. range_from (mid - lo) lo ++ k) f
                ∙ range_from-append (mid - lo) (hi - mid) (hi - lo) lo mid (omega arith)
                    (omega arith))),
  )

  map-gather_single :
      (f : ℕ → List (Limit W))
      → ((l : ℕ) → map (λ (k : Limit W). k.row) (f l) ≡ l ∷ [])
      → (ls : List ℕ) → map (λ (k : Limit W). k.row) (gather f ls) ≡ ls
  map-gather_single f single [] = refl
  map-gather_single f single (l ∷ ls) =
      map-append (λ (k : Limit W). k.row) (f l) (gather f ls)
      ∙ (ap (λ k. k ++ map (λ (k : Limit W). k.row) (gather f ls)) (single l)
          ∙ ap (λ k. l ∷ k) (map-gather_single f single ls))

  block_rows-RowsFrom :
      (f : Bound W → ℕ → ℕ → List (Limit W)) (idx : List ℕ) (i : ℕ) (bs : List (Bound W)) (top : ℕ)
      → ((b : Bound W) (s l : ℕ) → map (λ (k : Limit W). k.row) (f b s l) ≡ l ∷ [])
      → ((k : ℕ) → k < top → get_or idx k 0 ≤ get_or idx (suc k) 0)
      → i + length bs ≤ top
      → RowsFrom (get_or idx i 0) (get_or idx (i + length bs) 0) (block_rows f idx i bs)
  block_rows-RowsFrom f idx i [] top single grow h =
      let e : i ≡ i + 0 = omega arith in
      let none_left : 0 ≡ get_or idx i 0 - get_or idx i 0 = omega arith in
      subst (λ k. RowsFrom (get_or idx i 0) (get_or idx k 0) []) e
        (omega arith, ap (λ k. range_from k (get_or idx i 0)) none_left)
  block_rows-RowsFrom f idx i (b ∷ bs) top single grow h =
      RowsFrom-append (get_or idx i 0) (get_or idx (suc i) 0) (get_or idx (i + suc (length bs)) 0) _
        _ (grow i (omega arith), map-gather_single (f b (get_or idx i 0)) (single b _) _)
        (let e : suc i + length bs ≡ i + suc (length bs) = omega arith in
          subst
            (λ k. RowsFrom (get_or idx (suc i) 0) (get_or idx k 0) (block_rows f idx (suc i) bs)) e
            (block_rows-RowsFrom f idx (suc i) bs top single grow (omega arith)))

module _ {ℓ} {W S : Type ℓ} ⦃d : Double W⦄ (x_in u_in : Matrix W) (u_prev w_in : Vector W) where
  first_limits-RowsFrom :
      (p : ProxQp W S) (j : ℕ) (bs : List (Bound W))
      → RowsFrom j (j + length bs) (first_limits x_in u_in u_prev w_in p j bs)
  first_limits-RowsFrom p j [] =
      (omega arith, (let e : 0 ≡ j + 0 - j = omega arith in ap (λ k. range_from k j) e))
  first_limits-RowsFrom p j (b ∷ bs) =
      let (le, rest) = first_limits-RowsFrom p (suc j) bs in
      (
        omega arith,
        ap (λ k. j ∷ k) rest
            ∙ (let e : suc (suc j + length bs - suc j) ≡ j + suc (length bs) - j = omega arith in
                ap (λ k. range_from k j) e),
      )

  module _ (p : ProxQp W S) (tables : IsLaidOut p.layout) where
    abbrev at : ℕ → ℕ
    at k = get_or p.ineq_idx k 0

    abbrev nth : ℕ
    nth = length p.model.ineq_x + length p.model.ineq_u + length p.model.ineq_du

    last : at (length (block_sizes p.layout)) ≡ p.ineq_tot
    last =
        table_top at (block_sizes p.layout) tables.step_rows
        ∙ omega (arith, tables.first_rows, tables.ineq_tot_eq)

    grow : (k : ℕ) → k < length (block_sizes p.layout) → at k ≤ at (suc k)
    grow k h = omega (arith, tables.step_rows k h)

    abbrev keep_out : List (Limit W)
    keep_out =
        gather (obstacle_limit x_in u_in u_prev w_in p (at nth)) (range (at nth) (at (suc nth)))
        ++ gather (slack_limit w_in (at (suc nth))) (range (at (suc nth)) (at (suc (suc nth))))

    keep_out-RowsFrom : RowsFrom (at nth) p.ineq_tot (if p.obstacle_active then keep_out else [])
    keep_out-RowsFrom = elim (Bool-cases p.obstacle_active) [
      | inl on ↦
          (let count : length (block_sizes p.layout) ≡ suc (suc nth) =
              length_sizes p.layout ∙ (ap (λ b. nth + (if b then 2 else 0)) on ∙ omega arith) in
            subst (λ b. RowsFrom (at nth) p.ineq_tot (if b then keep_out else [])) (sym on)
              (subst (λ k. RowsFrom (at nth) k keep_out) (ap at (sym count) ∙ last)
                (RowsFrom-append (at nth) (at (suc nth)) (at (suc (suc nth))) _ _
                  (
                    grow nth (omega arith),
                    map-gather_single (obstacle_limit x_in u_in u_prev w_in p (at nth)) (λ l. refl)
                        _,
                  )
                  (
                    grow (suc nth) (omega arith),
                    map-gather_single (slack_limit w_in (at (suc nth))) (λ l. refl) _,
                  ))))
      | inr off ↦
          (let count : length (block_sizes p.layout) ≡ nth =
              length_sizes p.layout ∙ (ap (λ b. nth + (if b then 2 else 0)) off ∙ omega arith) in
            subst (λ b. RowsFrom (at nth) p.ineq_tot (if b then keep_out else [])) (sym off)
              (subst (λ k. RowsFrom {W = W} (at nth) k []) (ap at (sym count) ∙ last)
                (
                  omega arith,
                  (let e : 0 ≡ at nth - at nth = omega arith in ap (λ k. range_from k (at nth)) e),
                )))
    ]

    -- On a layout that `init` made, `setd` sets the two bounds of each of the ineq_tot rows once, in the order of the rows: none keeps
    -- the bounds of an earlier iterate, and none is set twice.
    pub limits_lem :
        map (λ (l : Limit W). l.row) (limits x_in u_in u_prev w_in p) ≡ range_from p.ineq_tot 0
    unfolding limits
    limits_lem =
        let xs = p.model.ineq_x in
        let us = p.model.ineq_u in
        let dus = p.model.ineq_du in
        let sizes = length_sizes p.layout in
        let top = length (block_sizes p.layout) in
        let first : RowsFrom 0 (at 0) (first_limits x_in u_in u_prev w_in p 0 dus) =
          (let e : 0 + length dus ≡ at 0 = omega (arith, tables.first_rows) in
            subst (λ k. RowsFrom 0 k (first_limits x_in u_in u_prev w_in p 0 dus)) e
              (first_limits-RowsFrom p 0 dus)) in
        let states : RowsFrom (at 0) (at (length xs))
            (block_rows (state_limit x_in) p.ineq_idx 0 xs) =
          (let e : 0 + length xs ≡ length xs = omega arith in
            subst (λ k. RowsFrom (at 0) (at k) (block_rows (state_limit x_in) p.ineq_idx 0 xs)) e
              (block_rows-RowsFrom (state_limit x_in) p.ineq_idx 0 xs top (λ b s l. refl) grow
                (omega (arith, sizes)))) in
        let (le, all_rows) = RowsFrom-append 0 (at 0) p.ineq_tot _ _ first (
          RowsFrom-append (at 0) (at (length xs)) p.ineq_tot _ _ states (
            RowsFrom-append (at (length xs)) (at (length xs + length us)) p.ineq_tot _ _
              (block_rows-RowsFrom (control_limit u_in) p.ineq_idx (length xs) us top
                (λ b s l. refl) grow (omega (arith, sizes)))
              (RowsFrom-append (at (length xs + length us)) (at nth) p.ineq_tot _ _
                (block_rows-RowsFrom (rate_limit x_in u_in u_prev w_in p) p.ineq_idx
                  (length xs + length us) dus top (λ b s l. refl) grow (omega (arith, sizes)))
                keep_out-RowsFrom))) in
        all_rows ∙ (let e : p.ineq_tot - 0 ≡ p.ineq_tot = omega arith in ap (λ k. range_from k 0) e)
