-- ===== src/ProxQp/Dynamics.antt =====
-- `ProxQP::setE` and `ProxQP::setb`: the equality rows, the pinned initial state and the linearised
-- dynamics of each prediction node.
use prox_mpc.Base.{
  ℕ, ◌+◌, ◌-◌, ◌*◌, ◌/◌, min, List, ◌++◌, ◌==◌, if◌then◌else◌, get_or, gather, strided,
}
use prox_mpc.Base.Double.{Double, nought, one, ◌⊗◌}
use prox_mpc.Base.Matrix.{Matrix, Write, row_of, block, apply}
use prox_mpc.ProxQp.State.{ProxQp}
use prox_mpc.ProxQp.Objective.{gather_count}

-- std::clamp(static_cast<int>(i), 0, static_cast<int>(top)), for sizes below 2^31.
abbrev pub clamp_index : ℕ → ℕ → ℕ
clamp_index i top = min i top

module _ {ℓ} {W : Type ℓ} ⦃d : Double W⦄ where
  abbrev pub identity : ℕ → ℕ → W
  identity i j = if i == j then one else nought

  abbrev pub minus_identity : ℕ → ℕ → W
  minus_identity i j = d.neg (identity i j)

module _ {ℓ} {W S : Type ℓ} ⦃d : Double W⦄ (x_in u_in : Matrix W) where
  -- The three blocks of prediction node `count`, whose rows begin at i.
  unfoldable pub node_writes : ProxQp W S → ℕ → ℕ → List (Write W)
  node_writes p count i =
      let x = row_of x_in count in
      let u = row_of u_in (clamp_index count (u_in.rows - 1)) in
      let first = get_or p.eq_idx 0 0 in
      let col = p.u_start + (i - first) / p.n * p.m in
      block i (i - first) p.n p.n (p.model.state_matrix p.dt x u)
      ++ (block i (i - first + p.n) p.n p.n minus_identity
          ++ block i (clamp_index col (p.w_start - p.m)) p.n p.m
              (λ a b. p.model.control_matrix x u a b ⊗ p.dt))

  unfoldable pub equality_writes : ProxQp W S → List (Write W)
  unfolding node_writes
  equality_writes p =
      gather (λ i. block i i p.n p.n identity) (strided p.x_start (get_or p.eq_idx 0 0) p.n)
      ++ gather_count (node_writes p) 0 (strided (get_or p.eq_idx 0 0) (get_or p.eq_idx 1 0) p.n)

  unfoldable pub set_e : ProxQp W S → ProxQp W S
  unfolding equality_writes
  set_e p = record p { mat_e = apply (equality_writes p) p.mat_e }

  unfoldable pub residual_writes : ProxQp W S → List (Write W)
  residual_writes p =
      gather_count
        (λ count i.
          let x = row_of x_in count in
          let u = row_of u_in (clamp_index count (u_in.rows - 1)) in
          block i 0 p.n 1 (λ a b. d.neg (p.model.residual p.dt x u (row_of x_in (count + 1)) a)))
        0 (strided (get_or p.eq_idx 0 0) (get_or p.eq_idx 1 0) p.n)

  unfoldable pub set_b : ProxQp W S → ProxQp W S
  unfolding residual_writes
  set_b p = record p { vec_b = apply (residual_writes p) p.vec_b }
