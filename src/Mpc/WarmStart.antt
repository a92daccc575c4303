-- ===== src/Mpc/WarmStart.antt =====
-- The plan that a cycle starts from.
use prox_mpc.Base.{
  ℕ, ◌+◌, ◌-◌, ◌≤◌, ◌<◌, ◌≡◌, refl, ap, ◌∙◌, false, ltb, min, inl, inr, Bool-cases, arith, ltb→lt,
  ltb→le, lt→ltb, ==_iff, if◌then◌else◌, ◌==◌,
}
use prox_mpc.Base.Matrix.{Matrix}
use prox_mpc.Mpc.State.{Mpc}
use prox_mpc.Mpc.Solve.{moved, slide, slide_controls, stage}

not_first : (k : ℕ) → 0 < k → (k == 0) ≡ false
not_first k pos = ground arith

last_row : (i rows : ℕ) → 2 ≤ rows → i ≡ rows - 1 → rows - 2 + 1 ≡ min (i + 1) (rows - 1)
last_row i rows two last = omega arith

module _ {ℓ} {W : Type ℓ} where
  moved_lem : (m : Matrix W) (i j : ℕ) → i + 1 < m.rows → moved m i j ≡ m.at (i + 1) j
  moved_lem m i j below =
      ap (λ b. if b then m.at (i + 1) j else m.at i j) (lt→ltb (i + 1) m.rows below)

  -- The two assignments of the shift, as one.
  slide_lem :
      (m : Matrix W) (i j : ℕ)
      → 2 ≤ m.rows
      → i < m.rows
      → (slide m).at i j ≡ m.at (min (i + 1) (m.rows - 1)) j
  slide_lem m i j two within = elim (Bool-cases (i == m.rows - 1)) [
    | inl last ↦
        ap (λ b. if b then moved m (m.rows - 2) j else moved m i j) last
        ∙ (moved_lem m (m.rows - 2) j (omega arith)
            ∙ ap (λ r. m.at r j) (last_row i m.rows two ((==_iff i (m.rows - 1)).0 last)))
    | inr other ↦
        (let below : i + 1 < m.rows = ground (arith, ==_iff i (m.rows - 1)) in
          ap (λ b. if b then moved m (m.rows - 2) j else moved m i j) other
          ∙ (moved_lem m i j below ∙ ap (λ r. m.at r j) (omega arith)))
  ]

  slide_controls_lem :
      (m : Matrix W) (i j : ℕ)
      → i < m.rows
      → (slide_controls m).at i j ≡ m.at (min (i + 1) (m.rows - 1)) j
  slide_controls_lem m i j within = elim (Bool-cases (ltb 1 m.rows)) [
    | inl more ↦
        ap (λ b. (if b then slide m else m).at i j) more
        ∙ slide_lem m i j (omega (arith, ltb→lt 1 m.rows more)) within
    | inr one_row ↦
        ap (λ b. (if b then slide m else m).at i j) one_row
        ∙ ap (λ r. m.at r j) (omega (arith, ltb→le 1 m.rows one_row))
  ]

module _ {ℓ} {W S : Type ℓ} where
  -- The candidate starts from the pose, and from there on from the retained plan moved on by one node,
  -- with the last row twice: of the states, which are two at least, row k is the retained row
  -- min (k + 1) (rows - 1) for each k but 0, and of the controls for each k, also if there is one only.
  pub stage_lem :
      (p : Mpc W S) (k i j l : ℕ)
      → 2 ≤ p.retained.x.rows
      → 0 < k
      → k < p.retained.x.rows
      → i < p.retained.u.rows
      → ((stage p).candidate.x.at 0 j ≡ p.pose.get j)
        × ((stage p).candidate.x.at k j ≡ p.retained.x.at (min (k + 1) (p.retained.x.rows - 1)) j)
        × ((stage p).candidate.u.at i l ≡ p.retained.u.at (min (i + 1) (p.retained.u.rows - 1)) l)
  unfolding stage
  stage_lem p k i j l two pos within inside = (
    refl,
    ap (λ b. if b then p.pose.get j else (slide p.retained.x).at k j) (not_first k pos)
        ∙ slide_lem p.retained.x k j two within,
    slide_controls_lem p.retained.u i l inside,
  )
