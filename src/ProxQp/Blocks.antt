-- ===== src/ProxQp/Blocks.antt =====
-- The size of each block of inequality rows.
use prox_mpc.Base.{
  ℕ, suc, ◌+◌, ◌-◌, ◌*◌, ◌≤◌, ◌<◌, ◌≡◌, refl, ◌∙◌, Bool, true, false, List, [], ◌∷◌, ◌++◌, arith,
  if◌then◌else◌, length, get_or, replicate, length-append, length-replicate, get_or-append_left,
  get_or-append_right, get_or-replicate,
}
use prox_mpc.ProxQp.State.{Layout}
use prox_mpc.ProxQp.Init.{size_pred, block_sizes}

module _ {ℓ} {W : Type ℓ} (l : Layout W) where
  abbrev nx : ℕ
  nx = length l.model.ineq_x

  abbrev nu : ℕ
  nu = length l.model.ineq_u

  abbrev ndu : ℕ
  ndu = length l.model.ineq_du

  abbrev xs : List ℕ
  xs = replicate nx (l.np + 1)

  abbrev us : List ℕ
  us = replicate nu l.nc

  abbrev dus : List ℕ
  dus = replicate ndu (size_pred l.nc)

  abbrev keep_out : List ℕ
  keep_out = if l.obstacle_active then l.np * l.max_obs ∷ l.np * l.max_obs ∷ [] else []

  pub state_size : (k : ℕ) → k < nx → get_or (block_sizes l) k 0 ≡ l.np + 1
  state_size k h =
      get_or-append_left xs (us ++ (dus ++ keep_out)) 0 k
        (omega (arith, length-replicate nx (l.np + 1)))
      ∙ get_or-replicate nx (l.np + 1) 0 k h

  pub control_size : (k : ℕ) → nx ≤ k → k < nx + nu → get_or (block_sizes l) k 0 ≡ l.nc
  control_size k lo hi =
      get_or-append_right xs (us ++ (dus ++ keep_out)) 0 k (k - nx)
        (omega (arith, length-replicate nx (l.np + 1)))
      ∙ (get_or-append_left us (dus ++ keep_out) 0 (k - nx)
            (omega (arith, length-replicate nu l.nc))
          ∙ get_or-replicate nu l.nc 0 (k - nx) (omega arith))

  past_controls :
      (k j : ℕ) → k ≡ nx + nu + j → get_or (block_sizes l) k 0 ≡ get_or (dus ++ keep_out) j 0
  past_controls k j e =
      get_or-append_right xs (us ++ (dus ++ keep_out)) 0 k (nu + j)
        (omega (arith, length-replicate nx (l.np + 1)))
      ∙ get_or-append_right us (dus ++ keep_out) 0 (nu + j) j
          (omega (arith, length-replicate nu l.nc))

  pub rate_size :
      (k : ℕ) → nx + nu ≤ k → k < nx + nu + ndu → get_or (block_sizes l) k 0 ≡ size_pred l.nc
  rate_size k lo hi =
      past_controls k (k - (nx + nu)) (omega arith)
      ∙ (get_or-append_left dus keep_out 0 (k - (nx + nu))
            (omega (arith, length-replicate ndu (size_pred l.nc)))
          ∙ get_or-replicate ndu (size_pred l.nc) 0 (k - (nx + nu)) (omega arith))

  keep_out_size :
      (k j : ℕ) → k ≡ nx + nu + ndu + j → get_or (block_sizes l) k 0 ≡ get_or keep_out j 0
  keep_out_size k j e =
      past_controls k (ndu + j) (omega arith)
      ∙ get_or-append_right dus keep_out 0 (ndu + j) j
          (omega (arith, length-replicate ndu (size_pred l.nc)))

  pub obstacle_size :
      l.obstacle_active ≡ true → get_or (block_sizes l) (nx + nu + ndu) 0 ≡ l.np * l.max_obs
  obstacle_size on = keep_out_size (nx + nu + ndu) 0 (omega arith) ∙ rw on refl

  pub slack_size :
      l.obstacle_active ≡ true → get_or (block_sizes l) (suc (nx + nu + ndu)) 0 ≡ l.np * l.max_obs
  slack_size on = keep_out_size (suc (nx + nu + ndu)) 1 (omega arith) ∙ rw on refl

  pub length_sizes : length (block_sizes l) ≡ nx + nu + ndu + (if l.obstacle_active then 2 else 0)
  length_sizes = omega (
    arith,
    length-append xs (us ++ (dus ++ keep_out)),
    length-append us (dus ++ keep_out),
    length-append dus keep_out,
    length-replicate nx (l.np + 1),
    length-replicate nu l.nc,
    length-replicate ndu (size_pred l.nc),
    length_keep_out l.obstacle_active,
  )
    where
      length_keep_out :
          (b : Bool)
          → length (if b then l.np * l.max_obs ∷ l.np * l.max_obs ∷ [] else [])
            ≡ (if b then 2 else 0)
      length_keep_out true = refl
      length_keep_out false = refl
