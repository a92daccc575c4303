-- ===== src/ProxQp/Increments.antt =====
-- `ProxQP::solve` takes the increments out of the solution at the places of the layout.
use native.Mathlib.Nat.{mul-div_cancel}
use prox_mpc.Base.{
  ℕ, ◌+◌, ◌-◌, ◌*◌, ◌/◌, ◌<◌, ◌≤◌, ◌≡◌, refl, ap, ◌∙◌, subst, true, List, map, arith, All-gather,
  gather, multiples, strided-eq-multiples, range, range-within,
}
use prox_mpc.Base.Matrix.{Matrix, Vector, Write, block, place, hits, apply, apply-agree, All-block}
use prox_mpc.Base.Hits.{hits-multiples, hits-block, hits-range, All-multiples}
use prox_mpc.ProxQp.State.{ProxQp}
use prox_mpc.ProxQp.Solve.{take_x, take_u, take_w}
use prox_mpc.ProxQp.Ready.{IsReady}

module _ {ℓ} {W : Type ℓ} (result : ℕ → W) (row : ℕ → ℕ) (start width : ℕ) where
  -- The row of i gets the segment that begins at i.
  abbrev segment : ℕ → List (Write W)
  segment i = block (row i) 0 1 width (λ _ j. result (i + j))

  abbrev placed : ℕ → ℕ → W
  placed i j = result (start + i * width + j)

  segments_lem :
      ((k : ℕ) → row (start + k * width) ≡ k)
      → (count : ℕ) (old : ℕ → ℕ → W) (r c : ℕ) → r < count
      → c < width
      → apply (gather segment (multiples count start width)) old r c
        ≡ result (start + r * width + c)
  segments_lem row_at count old r c hr hc =
      apply-agree placed (gather segment (multiples count start width)) old r c
        (All-gather (λ i. (k : ℕ) × (i ≡ start + k * width)) (λ w. w.value ≡ placed w.row w.col)
          segment
          (λ i h.
            All-block (λ w. w.value ≡ placed w.row w.col) (row i) 0 1 width (λ _ j. result (i + j))
              λ a j ha hj.
                let e : row i ≡ h.0 = ap row h.1 ∙ row_at h.0 in
                ap result (
                  let z : a ≡ 0 = omega arith in
                  let e' : row i + a ≡ h.0 = omega arith in rw e' (omega (arith, h.1))))
          (multiples count start width)
          (All-multiples (λ i. (k : ℕ) × (i ≡ start + k * width)) count start width
            (λ k lt. (k, refl))))
        (hits-multiples segment r c count start width r hr (
          let hit =
            hits-block (row (start + r * width)) 0 1 width (λ _ j. result (start + r * width + j)) 0
              c (omega arith) hc in
          let er : row (start + r * width) + 0 ≡ r = omega (arith, row_at r) in
          let ec : 0 + c ≡ c = omega arith in
          subst (λ k. hits (map place (segment (start + r * width))) k c ≡ true) er
            (subst
              (λ k.
                hits (map place (segment (start + r * width))) (row (start + r * width) + 0) k
                ≡ true)
              ec hit)))

module _ {ℓ} {W S : Type ℓ} (p : ProxQp W S) (ready : IsReady p.layout) where
  n_pos : 0 < p.n
  n_pos = omega (arith, ready.n_eq, ready.plant.n_pos)

  m_pos : 0 < p.m
  m_pos = omega (arith, ready.m_eq, ready.plant.m_pos)

  -- In a ready layout, of a solution vector of the QP, `solve` returns as component j of the state at node k the entry
  -- k * n + j.
  pub take_x_lem :
      (result : ℕ → W) (x_in : Matrix W) (k j : ℕ)
      → k < p.np + 1
      → j < p.n
      → (take_x p result x_in).at k j ≡ result (k * p.n + j)
  unfolding take_x
  take_x_lem result x_in k j hk hj =
      rw
        (strided-eq-multiples (p.np + 1) p.x_start p.u_start p.n n_pos
          (omega (arith, ready.laid_out.x_start_eq, ready.laid_out.u_start_eq)))
        (segments_lem result (λ i. i / p.n) p.x_start p.n
            (λ t.
              let e : p.x_start + t * p.n ≡ t * p.n = omega (arith, ready.laid_out.x_start_eq) in
              rw e (mul-div_cancel t n_pos))
            (p.np + 1) x_in.at k j hk hj
          ∙ ap result (omega (arith, ready.laid_out.x_start_eq)))

  -- In a ready layout, as component j of the control at node k it returns the entry k * m + j after the np + 1 blocks of
  -- states.
  pub take_u_lem :
      (result : ℕ → W) (u_in : Matrix W) (k j : ℕ)
      → k < p.nc
      → j < p.m
      → (take_u p result u_in).at k j ≡ result ((p.np + 1) * p.n + k * p.m + j)
  unfolding take_u
  take_u_lem result u_in k j hk hj =
      rw
        (strided-eq-multiples p.nc p.u_start p.w_start p.m m_pos
          (omega (arith, ready.laid_out.w_start_eq)))
        (segments_lem result (λ i. (i - p.u_start) / p.m) p.u_start p.m
            (λ t.
              let e : p.u_start + t * p.m - p.u_start ≡ t * p.m = omega arith in
              rw e (mul-div_cancel t m_pos))
            p.nc u_in.at k j hk hj
          ∙ ap result (omega (arith, ready.laid_out.u_start_eq)))

  -- In a ready layout with obstacles, as slack of slot s it returns the entry s after the nc blocks of controls.
  pub take_w_lem :
      (result : ℕ → W) (w_in : Vector W) (s : ℕ)
      → p.obstacle_active ≡ true
      → s < p.np * p.max_obs
      → (take_w p result w_in).get s ≡ result ((p.np + 1) * p.n + p.nc * p.m + s)
  unfolding take_w
  take_w_lem result w_in s on hs =
      let cell = λ (i : ℕ). block (i - p.w_start) 0 1 1 (λ _ _. result i) in
      let top : p.n_dvars ≡ p.w_start + p.np * p.max_obs = ready.laid_out.n_dvars_eq ∙ rw on refl in
      apply-agree (λ i j. result (p.w_start + i)) (gather cell (range p.w_start p.n_dvars))
        (λ r _. w_in.get r) s 0
        (All-gather (λ i. (p.w_start ≤ i) × (i < p.n_dvars))
          (λ w. w.value ≡ result (p.w_start + w.row)) cell
          (λ i h.
            All-block (λ w. w.value ≡ result (p.w_start + w.row)) (i - p.w_start) 0 1 1
              (λ _ _. result i) λ a j ha hj. ap result (omega arith))
          (range p.w_start p.n_dvars) (range-within p.w_start p.n_dvars))
        (hits-range cell s 0 (p.n_dvars - p.w_start) p.w_start (p.w_start + s) (omega arith)
          (omega arith)
          (let hit =
              hits-block (p.w_start + s - p.w_start) 0 1 1 (λ _ _. result (p.w_start + s)) 0 0
                (omega arith) (omega arith) in
            let er : p.w_start + s - p.w_start + 0 ≡ s = omega arith in
            subst (λ k. hits (map place (cell (p.w_start + s))) k 0 ≡ true) er hit))
      ∙ ap result (omega (arith, ready.laid_out.w_start_eq, ready.laid_out.u_start_eq))
