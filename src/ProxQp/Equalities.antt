-- ===== src/ProxQp/Equalities.antt =====
-- No write of `setE` leaves the equality matrix.
use prox_mpc.Base.{
  ℕ, suc, ◌+◌, ◌*◌, ◌≤◌, ◌<◌, ◌≡◌, refl, List, [], ◌∷◌, arith, get_or, gather, strided,
  strided-eq-multiples, All, All-append, All-gather,
}
use prox_mpc.Base.Double.{Double}
use prox_mpc.Base.Hits.{All-multiples}
use prox_mpc.Base.Matrix.{Matrix, block, Inside, block-Inside}
use prox_mpc.ProxQp.State.{ProxQp}
use prox_mpc.ProxQp.Objective.{gather_count}
use prox_mpc.ProxQp.Dynamics.{node_writes, equality_writes, identity}
use prox_mpc.ProxQp.Ready.{IsReady}

All-gather_count {ℓ κ μ} :
    {A : Type ℓ} (P : ℕ → Type κ) (Q : A → Type μ) (f : ℕ → ℕ → List A)
    → ((count i : ℕ) → P i → All Q (f count i))
    → (count : ℕ) (is : List ℕ) → All P is
    → All Q (gather_count f count is)
All-gather_count P Q f step count [] h = tt
All-gather_count P Q f step count (i ∷ is) h =
    All-append Q (f count i) (gather_count f (suc count) is) (step count i h.0)
      (All-gather_count P Q f step (suc count) is h.1)

-- Node k of np is followed by one more block.
node_le : (n np k : ℕ) → k < np → k * n + n ≤ np * n
node_le n np k h = grind arith

some_block : (m nc : ℕ) → 0 < nc → m ≤ nc * m
some_block m nc h = grind arith

module _ {ℓ} {W S : Type ℓ} ⦃d : Double W⦄ (p : ProxQp W S) (ready : IsReady p.layout) where
  abbrev Node : ℕ → Type 0
  Node i = (k : ℕ) × (k < p.np) × (i ≡ p.n + k * p.n)

  states_le : (p.np + 1) * p.n ≤ p.n_dvars
  states_le =
      omega (arith, ready.laid_out.u_start_eq, ready.laid_out.w_start_eq, ready.laid_out.n_dvars_eq)

  nodes : All Node (strided (get_or p.eq_idx 0 0) (get_or p.eq_idx 1 0) p.n)
  nodes =
      rw
        (
          ready.laid_out.eq_first,
          ready.laid_out.eq_second,
          strided-eq-multiples p.np p.n (p.n + p.np * p.n) p.n
              (omega (arith, ready.n_eq, ready.plant.n_pos)) refl,
        )
        (All-multiples Node p.np p.n p.n (λ k lt. (k, lt, refl)))

  node_writes-Inside :
      (x_in u_in : Matrix W) (count i : ℕ)
      → Node i
      → All (Inside p.eq_tot p.n_dvars) (node_writes x_in u_in p count i)
  unfolding node_writes
  node_writes-Inside x_in u_in count i (k, lt, e) =
      let le = node_le p.n p.np k lt in
      let rows : i + p.n ≤ p.eq_tot = omega (arith, ready.laid_out.eq_tot_eq, le, e) in
      let first = ready.laid_out.eq_first in
      All-append (Inside p.eq_tot p.n_dvars) _ _
        (block-Inside p.eq_tot p.n_dvars i _ p.n p.n _ rows
          (omega (arith, first, e, le, states_le)))
        (All-append (Inside p.eq_tot p.n_dvars) _ _
          (block-Inside p.eq_tot p.n_dvars i _ p.n p.n _ rows
            (omega (arith, first, e, le, states_le)))
          (block-Inside p.eq_tot p.n_dvars i _ p.n p.m _ rows (
            omega (
              arith,
              some_block p.m p.nc ready.nc_pos,
              ready.laid_out.w_start_eq,
              ready.laid_out.n_dvars_eq,
            ))))

  -- In a ready layout, every write of `setE` lies inside the eq_tot x n_dvars matrix, whatever the
  -- iterate is: the control block of a node beyond the control horizon is held at the last one.
  pub equality_writes-Inside :
      (x_in u_in : Matrix W) → All (Inside p.eq_tot p.n_dvars) (equality_writes x_in u_in p)
  unfolding equality_writes
  equality_writes-Inside x_in u_in =
      All-append (Inside p.eq_tot p.n_dvars)
        (gather (λ i. block i i p.n p.n identity) (strided p.x_start (get_or p.eq_idx 0 0) p.n)) _
        (All-gather (λ i. i ≡ 0) (Inside p.eq_tot p.n_dvars) _
          (λ i e.
            block-Inside p.eq_tot p.n_dvars i i p.n p.n identity
              (omega (arith, e, ready.laid_out.eq_tot_eq)) (omega (arith, e, states_le)))
          (strided p.x_start (get_or p.eq_idx 0 0) p.n)
          (rw
            (
              ready.laid_out.x_start_eq,
              ready.laid_out.eq_first,
              strided-eq-multiples 1 0 p.n p.n (omega (arith, ready.n_eq, ready.plant.n_pos))
                  (omega arith),
            )
            (refl, tt)))
        (All-gather_count Node (Inside p.eq_tot p.n_dvars) (node_writes x_in u_in p)
          (node_writes-Inside x_in u_in) 0 _ nodes)
