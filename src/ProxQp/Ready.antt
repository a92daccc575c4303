-- ===== src/ProxQp/Ready.antt =====
-- A layout that the assembly may run on, and what holds of every row of its blocks.
use prox_mpc.Base.{
  ℕ, suc, ◌+◌, ◌*◌, ◌/◌, ◌≤◌, ◌<◌, ◌≡◌, List, [], ◌∷◌, arith, length, get_or, gather, range,
  range-within, All, All-append, All-gather,
}
use prox_mpc.ProxQp.State.{Layout, Plant, Bound}
use prox_mpc.ProxQp.Layout.{IsLaidOut}
use prox_mpc.ProxQp.Constraints.{block_rows}

-- The bounds that a model declares name entries of its vectors.
pub record IsPlant {ℓ} {W : Type ℓ} (model : Plant W) : Type 0 where
  pub n_pos : 0 < model.n
  pub m_pos : 0 < model.m
  pub x_bounds : All (λ b. b.idx < model.n) model.ineq_x
  pub u_bounds : All (λ b. b.idx < model.m) model.ineq_u
  pub du_bounds : All (λ b. b.idx < model.m) model.ineq_du

-- The layout together with horizons and sizes that are not zero.
pub record IsReady {ℓ} {W : Type ℓ} (l : Layout W) : Type 0 where
  pub laid_out : IsLaidOut l
  pub plant : IsPlant l.model
  pub n_eq : l.n ≡ l.model.n
  pub m_eq : l.m ≡ l.model.m
  pub np_pos : 0 < l.np
  pub nc_pos : 0 < l.nc

pub cell_lt : (i n t k : ℕ) → i < n → t < k → i + n * t < k * n
cell_lt i n t k hi ht = grind arith

-- The node of a slot.
pub div_lt : (s a k : ℕ) → s < a * k → s / k < a
div_lt s a k h = grind arith

-- Every row of every block of a list of bounds.
pub block_rows-All {ℓ κ μ ν} :
    {W : Type ℓ} {A : Type κ} (P : A → Type μ) (Q : Bound W → Type ν) (f : Bound W → ℕ → ℕ → List A)
    (idx : List ℕ) (i : ℕ) (bs : List (Bound W))
    → All Q bs
    → ((k : ℕ) (b : Bound W) (l : ℕ)
        → i ≤ k
        → k < i + length bs
        → Q b
        → get_or idx k 0 ≤ l
        → l < get_or idx (suc k) 0
        → All P (f b (get_or idx k 0) l))
    → All P (block_rows f idx i bs)
block_rows-All P Q f idx i [] q step = tt
block_rows-All P Q f idx i (b ∷ bs) q step =
    All-append P (gather (f b (get_or idx i 0)) (range (get_or idx i 0) (get_or idx (suc i) 0)))
      (block_rows f idx (suc i) bs)
      (All-gather (λ l. (get_or idx i 0 ≤ l) × (l < get_or idx (suc i) 0)) P (f b (get_or idx i 0))
        (λ l h. step i b l (omega arith) (omega arith) q.0 h.0 h.1) _
        (range-within (get_or idx i 0) (get_or idx (suc i) 0)))
      (block_rows-All P Q f idx (suc i) bs q.1
        (λ k c l lo hi. step k c l (omega arith) (omega arith)))
