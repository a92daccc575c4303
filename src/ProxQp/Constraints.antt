-- ===== src/ProxQp/Constraints.antt =====
-- `ProxQP::setC`: the coefficient rows of the inequalities.
use prox_mpc.Base.{
  ℕ, suc, ◌+◌, ◌-◌, ◌*◌, ◌/◌, Bool, ◌&&◌, ◌||◌, List, [], ◌∷◌, ◌++◌, ◌==◌, leb, if◌then◌else◌,
  length, get_or, gather, range,
}
use prox_mpc.Base.Double.{Double, nought, one, ◌⊕◌, ◌⊖◌, ◌⊗◌, ◌⊘◌}
use prox_mpc.Base.Matrix.{Matrix, Write, write, apply}
use prox_mpc.ProxQp.State.{ProxQp, Bound}

-- for each j and each row l of [ineq_idx[i], ineq_idx[i + 1]), i going on by one with j
abbrev pub block_rows {ℓ κ} :
    {W : Type ℓ} {A : Type κ} → (Bound W → ℕ → ℕ → List A) → List ℕ → ℕ → List (Bound W) → List A
block_rows f idx i [] = []
block_rows f idx i (b ∷ bs) =
    gather (f b (get_or idx i 0)) (range (get_or idx i 0) (get_or idx (suc i) 0))
    ++ block_rows f idx (suc i) bs

module _ {ℓ} {W : Type ℓ} ⦃d : Double W⦄ where
  -- The unit normal from the obstacle to the predicted position, (1, 0) where the two coincide, and
  -- their distance floored at 1e-9.
  unfoldable pub normal : W → W → W × W × W
  normal dx dy =
      let raw_norm = d.sqrt (dx ⊗ dx ⊕ dy ⊗ dy) in
      let norm = if d.lt raw_norm d.nano then d.nano else raw_norm in
      if d.lt raw_norm d.nano then (norm, one, nought) else (norm, dx ⊘ norm, dy ⊘ norm)

module _ {ℓ} {W S : Type ℓ} ⦃d : Double W⦄ where
  -- Row j of the first control-rate rows selects the component that entry j bounds.
  abbrev pub first_rows : ProxQp W S → ℕ → List (Bound W) → List (Write W)
  first_rows p j [] = []
  first_rows p j (b ∷ bs) = write j (p.u_start + b.idx) one ∷ first_rows p (suc j) bs

  abbrev pub state_row : ProxQp W S → Bound W → ℕ → ℕ → List (Write W)
  state_row p b start l = write l (p.x_start + b.idx + p.n * (l - start)) one ∷ []

  abbrev pub control_row : ProxQp W S → Bound W → ℕ → ℕ → List (Write W)
  control_row p b start l = write l (p.u_start + b.idx + p.m * (l - start)) one ∷ []

  abbrev pub rate_row : ProxQp W S → Bound W → ℕ → ℕ → List (Write W)
  rate_row p b start l =
      let idx = p.u_start + b.idx + p.m * (l - start) in
      write l idx (d.neg one) ∷ write l (idx + p.m) one ∷ []

  module _ (p : ProxQp W S) (x_in : Matrix W) (slot : ℕ) where
    abbrev pub node_of : ℕ
    node_of = slot / p.max_obs

    -- For slot = (node, k): the normal at the constrained node, node + 1.
    unfoldable pub slot_normal : W × W × W
    unfolding normal
    slot_normal =
        normal (x_in.at (node_of + 1) p.idx_pos_x ⊖ p.obs.at slot 0)
          (x_in.at (node_of + 1) p.idx_pos_y ⊖ p.obs.at slot 1)

    abbrev pub prev_slot : ℕ
    prev_slot = if leb 1 node_of then slot - p.max_obs else slot

    abbrev pub next_slot : ℕ
    next_slot = slot + p.max_obs

    -- At least half the far sentinel: the slot is not filled.
    abbrev pub unfilled : ℕ → Bool
    unfilled s = d.le (d.half ⊗ d.far) (p.obs.at s 0)

    -- The obstacle at the previous node's time. For node 0 it is extrapolated backward from the first
    -- two blocks, unless the implied step is longer than 10 m/s allows.
    unfoldable pub obstacle_before : W × W
    obstacle_before =
        let step_x = p.obs.at slot 0 ⊖ p.obs.at next_slot 0 in
        let step_y = p.obs.at slot 1 ⊖ p.obs.at next_slot 1 in
        let max_step = d.of_nat 10 ⊗ p.dt in
        if node_of == 0
          && (leb 2 p.np
              && (d.lt (p.obs.at next_slot 0) (d.half ⊗ d.far)
                  && d.le (step_x ⊗ step_x ⊕ step_y ⊗ step_y) (max_step ⊗ max_step)))
        then (p.obs.at slot 0 ⊕ step_x, p.obs.at slot 1 ⊕ step_y)
        else (p.obs.at prev_slot 0, p.obs.at prev_slot 1)

    -- obs_h_prev, gx and gy of the coupling with the previous node.
    unfoldable pub coupling : W × W × W
    unfolding obstacle_before
    coupling =
        if unfilled slot || unfilled prev_slot
        then (nought, nought, nought)
        else (let dxp = x_in.at node_of p.idx_pos_x ⊖ obstacle_before.0 in
            let dyp = x_in.at node_of p.idx_pos_y ⊖ obstacle_before.1 in
            let norm_prev = d.sqrt (dxp ⊗ dxp ⊕ dyp ⊗ dyp) in
            let h_prev = norm_prev ⊖ p.obs.at prev_slot 2 in
            let gain = d.neg (one ⊖ p.cbf_gamma) in
            if d.lt norm_prev d.nano
            then (h_prev, gain, nought)
            else (h_prev, gain ⊗ dxp ⊘ norm_prev, gain ⊗ dyp ⊘ norm_prev))

  module _ (x_in : Matrix W) where
    -- The keep-out row r, whose slot is r - start. The position columns are those of node + 1; with
    -- cbf_gamma < 1 also those of node, but for node 0.
    unfoldable pub obstacle_row : ProxQp W S → ℕ → ℕ → List (Write W)
    unfolding slot_normal coupling
    obstacle_row p start r =
        let slot = r - start in
        let node = node_of p x_in slot in
        let col = p.x_start + p.n * (node + 1) in
        let col_prev = p.x_start + p.n * node in
        write r (col + p.idx_pos_x) (slot_normal p x_in slot).1
        ∷ write r (col + p.idx_pos_y) (slot_normal p x_in slot).2
        ∷ write r (p.w_start + slot) one
        ∷ (if d.lt p.cbf_gamma one && leb 1 node
            then write r (col_prev + p.idx_pos_x) (coupling p x_in slot).1
              ∷ write r (col_prev + p.idx_pos_y) (coupling p x_in slot).2
              ∷ []
            else [])

    abbrev pub slack_row : ProxQp W S → ℕ → ℕ → List (Write W)
    slack_row p start r = write r (p.w_start + (r - start)) one ∷ []

    unfoldable pub constraint_writes : ProxQp W S → List (Write W)
    unfolding obstacle_row
    constraint_writes p =
        let xs = p.model.ineq_x in
        let us = p.model.ineq_u in
        let dus = p.model.ineq_du in
        let at = λ (i : ℕ). get_or p.ineq_idx i 0 in
        let i = length xs + length us + length dus in
        first_rows p 0 dus
        ++ (block_rows (state_row p) p.ineq_idx 0 xs
            ++ (block_rows (control_row p) p.ineq_idx (length xs) us
                ++ (block_rows (rate_row p) p.ineq_idx (length xs + length us) dus
                    ++ (if p.obstacle_active
                        then gather (obstacle_row p (at i)) (range (at i) (at (suc i)))
                          ++ gather (slack_row p (at (suc i)))
                              (range (at (suc i)) (at (suc (suc i))))
                        else []))))

    -- The distance caches are written for the slots of the keep-out rows; obs_h_prev only if
    -- cbf_gamma < 1.
    unfoldable pub set_c_mat : ProxQp W S → ProxQp W S
    unfolding constraint_writes slot_normal coupling
    set_c_mat p = record p {
      mat_c = apply (constraint_writes p) p.mat_c;
      obs_h =
          if p.obstacle_active
          then (λ slot. (slot_normal p x_in slot).0 ⊖ p.obs.at slot 2)
          else p.obs_h;
      obs_h_prev =
          if p.obstacle_active && d.lt p.cbf_gamma one
          then (λ slot. (coupling p x_in slot).0)
          else p.obs_h_prev;
    }
