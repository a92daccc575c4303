-- ===== src/ProxQp/Layout.antt =====
-- What `ProxQP::init` computes: the index tables and the layout that the assembly relies on.
use mathlib.Core.List.{append_assoc}
use prox_mpc.Base.{
  ℕ, zero, suc, ◌+◌, ◌*◌, ◌≤◌, ◌<◌, ◌≡◌, ◌≢◌, refl, ap, ◌∙◌, Bool, true, false, ◌&&◌, List, [], ◌∷◌,
  ◌++◌, arith, ltb, if◌then◌else◌, length, get_or, set, replicate, back_or, length-append,
  length-replicate,
}
use prox_mpc.ProxQp.State.{Layout, Plant}
use prox_mpc.ProxQp.Init.{
  size_pred, accumulate, fill, block_sizes, index_equalities, index_inequalities,
}

set-append_cons {ℓ} :
    {A : Type ℓ} (xs zs : List A) (z v : A) → set (xs ++ z ∷ zs) (length xs) v ≡ xs ++ v ∷ zs
set-append_cons [] zs z v = refl
set-append_cons (x ∷ xs) zs z v = ap (λ l. x ∷ l) (set-append_cons xs zs z v)

fill-append : (xs vs : List ℕ) → fill (xs ++ replicate (length vs) 0) (length xs) vs ≡ xs ++ vs
fill-append xs [] = refl
fill-append xs (v ∷ vs) =
    let e : length (xs ++ v ∷ []) ≡ suc (length xs) = length-append xs (v ∷ []) ∙ omega arith in
    rw (set-append_cons xs (replicate (length vs) 0) 0 v) (
      rw (← e, ← append_assoc xs (v ∷ []) (replicate (length vs) 0))
        (fill-append (xs ++ v ∷ []) vs ∙ append_assoc xs (v ∷ []) vs))

length-accumulate : (last : ℕ) (sizes : List ℕ) → length (accumulate last sizes) ≡ length sizes
length-accumulate last [] = refl
length-accumulate last (size ∷ sizes) = ap suc (length-accumulate (last + size) sizes)

-- The table is filled exactly: each of its entries is written once, and none outside it.
fill-accumulate :
    (count first : ℕ) (sizes : List ℕ)
    → count ≡ suc (length sizes)
    → fill (replicate count 0) 0 (first ∷ accumulate first sizes) ≡ first ∷ accumulate first sizes
fill-accumulate count first sizes e =
    let l : count ≡ length (first ∷ accumulate first sizes) =
      omega (arith, length-accumulate first sizes) in
    rw l (fill-append [] (first ∷ accumulate first sizes))

abbrev pub total : List ℕ → ℕ
total [] = 0
total (x ∷ xs) = x + total xs

pub total-append : (xs ys : List ℕ) → total (xs ++ ys) ≡ total xs + total ys
total-append [] ys = omega arith
total-append (x ∷ xs) ys = omega (arith, total-append xs ys)

pub total-replicate : (k a : ℕ) → total (replicate k a) ≡ k * a
total-replicate zero a = omega arith
total-replicate (suc k) a = grind (arith, total-replicate k a)

pub back_or-accumulate :
    (last : ℕ) (sizes : List ℕ) → back_or (accumulate last sizes) last ≡ last + total sizes
back_or-accumulate last [] = omega arith
back_or-accumulate last (size ∷ sizes) = back_or-accumulate (last + size) sizes ∙ omega arith

-- Each entry of the table is the one before it plus the size of the block between them.
pub table_step :
    (first : ℕ) (sizes : List ℕ) (i : ℕ)
    → i < length sizes
    → get_or (first ∷ accumulate first sizes) (suc i) 0
      ≡ get_or (first ∷ accumulate first sizes) i 0 + get_or sizes i 0
table_step first [] i h = elim h [ ]
table_step first (size ∷ sizes) zero h = refl
table_step first (size ∷ sizes) (suc i) h = table_step (first + size) sizes i (omega arith)

pub table_within :
    (first : ℕ) (sizes : List ℕ) (i : ℕ)
    → i ≤ length sizes
    → get_or (first ∷ accumulate first sizes) i 0 ≤ first + total sizes
table_within first sizes zero h = omega arith
table_within first [] (suc i) h = absurd (omega arith)
table_within first (size ∷ sizes) (suc i) h =
    omega (arith, table_within (first + size) sizes i (omega arith))

-- A table that grows by the sizes ends on their sum.
pub table_top :
    (g : ℕ → ℕ) (sizes : List ℕ)
    → ((i : ℕ) → i < length sizes → g (suc i) ≡ g i + get_or sizes i 0)
    → g (length sizes) ≡ g 0 + total sizes
table_top g [] step = omega arith
table_top g (s ∷ sizes) step =
    table_top (λ i. g (suc i)) sizes (λ i h. step (suc i) (omega arith))
    ∙ omega (arith, step 0 (omega arith))

-- The tables and starts that the assembly uses.
pub record IsLaidOut {ℓ} {W : Type ℓ} (p : Layout W) : Type 0 where
  pub x_start_eq : p.x_start ≡ 0
  pub u_start_eq : p.u_start ≡ (p.np + 1) * p.n
  pub w_start_eq : p.w_start ≡ p.u_start + p.nc * p.m
  pub n_dvars_eq : p.n_dvars ≡ p.w_start + (if p.obstacle_active then p.np * p.max_obs else 0)
  pub eq_first : get_or p.eq_idx 0 0 ≡ p.n
  pub eq_second : get_or p.eq_idx 1 0 ≡ p.n + p.np * p.n
  pub eq_tot_eq : p.eq_tot ≡ p.n + p.np * p.n
  pub first_rows : get_or p.ineq_idx 0 0 ≡ length p.model.ineq_du
  pub step_rows :
      (i : ℕ)
      → i < length (block_sizes p)
      → get_or p.ineq_idx (suc i) 0 ≡ get_or p.ineq_idx i 0 + get_or (block_sizes p) i 0
  pub rows_within : (i : ℕ) → i ≤ length (block_sizes p) → get_or p.ineq_idx i 0 ≤ p.ineq_tot
  pub ineq_tot_eq : p.ineq_tot ≡ length p.model.ineq_du + total (block_sizes p)
  pub positions :
      p.obstacle_active ≡ true
      → (p.idx_pos_x < p.n) × (p.idx_pos_y < p.n) × (p.idx_pos_x ≢ p.idx_pos_y)

-- What the caller fixed, and what comes from the model, is in the result.
pub record IsFor {ℓ} {W : Type ℓ} (model : Plant W) (p q : Layout W) : Type ℓ where
  pub model_eq : q.model ≡ model
  pub n_eq : q.n ≡ model.n
  pub m_eq : q.m ≡ model.m
  pub np_eq : q.np ≡ p.np
  pub nc_eq : q.nc ≡ p.nc
  pub max_obs_eq : q.max_obs ≡ p.max_obs
  pub active_eq : q.obstacle_active ≡ (model.obs_flag && ltb 0 p.max_obs)

module _ {ℓ} {W : Type ℓ} where
  -- What `index_inequalities` gets from its caller: the number of entries of the three maps.
  abbrev pub CountsBounds : Layout W → Type 0
  CountsBounds p = p.n_ineq ≡ length p.model.ineq_x + length p.model.ineq_u + length p.model.ineq_du

  length-block_sizes :
      (p : Layout W)
      → CountsBounds p
      → p.n_ineq + 1 + (if p.obstacle_active then 2 else 0) ≡ suc (length (block_sizes p))
  length-block_sizes p h =
      let xs = replicate (length p.model.ineq_x) (p.np + 1) in
      let us = replicate (length p.model.ineq_u) p.nc in
      let dus = replicate (length p.model.ineq_du) (size_pred p.nc) in
      let obs = λ (b : Bool). if b then p.np * p.max_obs ∷ p.np * p.max_obs ∷ [] else [] in
      omega (
        arith,
        length-append xs (us ++ (dus ++ obs p.obstacle_active)),
        length-append us (dus ++ obs p.obstacle_active),
        length-append dus (obs p.obstacle_active),
        length-replicate (length p.model.ineq_x) (p.np + 1),
        length-replicate (length p.model.ineq_u) p.nc,
        length-replicate (length p.model.ineq_du) (size_pred p.nc),
        length_obs p.obstacle_active,
      )
    where
      length_obs :
          (b : Bool)
          → (if b then 2 else 0)
            ≡ length (if b then p.np * p.max_obs ∷ p.np * p.max_obs ∷ [] else [])
      length_obs true = refl
      length_obs false = refl

  pub table_of :
      (p : Layout W)
      → CountsBounds p
      → (index_inequalities p).ineq_idx
        ≡ length p.model.ineq_du ∷ accumulate (length p.model.ineq_du) (block_sizes p)
  unfolding index_inequalities
  table_of p h = fill-accumulate _ (length p.model.ineq_du) (block_sizes p) (length-block_sizes p h)

  pub index_equalities_lem :
      (p : Layout W) → p.n_eq ≡ 0 → (index_equalities p).eq_idx ≡ p.n ∷ (p.n + p.np * p.n) ∷ []
  unfolding index_equalities
  index_equalities_lem p h = rw h refl
