-- ===== src/ProxQp/Bounds.antt =====
-- `ProxQP::setd`: the lower and upper bounds of the inequality rows.
use prox_mpc.Base.{
  ℕ, suc, ◌+◌, ◌-◌, List, [], ◌∷◌, ◌++◌, map, if◌then◌else◌, length, get_or, gather, range,
}
use prox_mpc.Base.Double.{Double, one, ◌⊕◌, ◌⊖◌, ◌⊗◌}
use prox_mpc.Base.Matrix.{Matrix, Vector, Write, write, apply}
use prox_mpc.ProxQp.State.{ProxQp, Bound}
use prox_mpc.ProxQp.Constraints.{block_rows}

-- low(row) = low; upp(row) = upp
pub record Limit {ℓ} (W : Type ℓ) : Type ℓ where
  pub row : ℕ
  pub low : W
  pub upp : W

module _ {ℓ} {W : Type ℓ} where
  abbrev pub limit : ℕ → W → W → Limit W
  limit r lo hi = record { row = r; low = lo; upp = hi }

  abbrev pub low_write : Limit W → Write W
  low_write l = write l.row 0 l.low

  abbrev pub upp_write : Limit W → Write W
  upp_write l = write l.row 0 l.upp

module _ {ℓ} {W : Type ℓ} ⦃d : Double W⦄ where
  abbrev pub state_limit : Matrix W → Bound W → ℕ → ℕ → List (Limit W)
  state_limit x_in b start l =
      limit l (b.low ⊖ x_in.at (l - start) b.idx) (b.upp ⊖ x_in.at (l - start) b.idx) ∷ []

  abbrev pub control_limit : Matrix W → Bound W → ℕ → ℕ → List (Limit W)
  control_limit u_in b start l =
      limit l (b.low ⊖ u_in.at (l - start) b.idx) (b.upp ⊖ u_in.at (l - start) b.idx) ∷ []

  abbrev pub slack_limit : Vector W → ℕ → ℕ → List (Limit W)
  slack_limit w_in start r = limit r (d.neg (w_in.get (r - start))) d.infinity ∷ []

module _ {ℓ} {W S : Type ℓ} ⦃d : Double W⦄ where
  module _ (x_in u_in : Matrix W) (u_prev w_in : Vector W) where
    -- From the last control sent to the first one planned.
    abbrev pub first_limits : ProxQp W S → ℕ → List (Bound W) → List (Limit W)
    first_limits p j [] = []
    first_limits p j (b ∷ bs) =
        limit j (b.low ⊗ p.dt ⊕ u_prev.get b.idx ⊖ u_in.at 0 b.idx)
          (b.upp ⊗ p.dt ⊕ u_prev.get b.idx ⊖ u_in.at 0 b.idx)
        ∷ first_limits p (suc j) bs

    abbrev pub rate_limit : ProxQp W S → Bound W → ℕ → ℕ → List (Limit W)
    rate_limit p b start l =
        let row = l - start in
        limit l (b.low ⊗ p.dt ⊖ u_in.at (row + 1) b.idx ⊕ u_in.at row b.idx)
          (b.upp ⊗ p.dt ⊖ u_in.at (row + 1) b.idx ⊕ u_in.at row b.idx)
        ∷ []

    abbrev pub obstacle_limit : ProxQp W S → ℕ → ℕ → List (Limit W)
    obstacle_limit p start r =
        let slot = r - start in
        limit r ((one ⊖ p.cbf_gamma) ⊗ p.obs_h_prev slot ⊖ p.obs_h slot ⊖ w_in.get slot) d.infinity
        ∷ []

    unfoldable pub limits : ProxQp W S → List (Limit W)
    limits p =
        let xs = p.model.ineq_x in
        let us = p.model.ineq_u in
        let dus = p.model.ineq_du in
        let at = λ (i : ℕ). get_or p.ineq_idx i 0 in
        let i = length xs + length us + length dus in
        first_limits p 0 dus
        ++ (block_rows (state_limit x_in) p.ineq_idx 0 xs
            ++ (block_rows (control_limit u_in) p.ineq_idx (length xs) us
                ++ (block_rows (rate_limit p) p.ineq_idx (length xs + length us) dus
                    ++ (if p.obstacle_active
                        then gather (obstacle_limit p (at i)) (range (at i) (at (suc i)))
                          ++ gather (slack_limit w_in (at (suc i)))
                              (range (at (suc i)) (at (suc (suc i))))
                        else []))))

    unfoldable pub set_d : ProxQp W S → ProxQp W S
    unfolding limits
    set_d p = record p {
      low = apply (map low_write (limits p)) p.low;
      upp = apply (map upp_write (limits p)) p.upp;
    }
