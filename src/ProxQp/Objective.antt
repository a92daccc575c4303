-- ===== src/ProxQp/Objective.antt =====
-- `ProxQP::setH` and `ProxQP::setc`: the quadratic and the linear part of the objective.
use prox_mpc.Base.{
  ℕ, zero, suc, ◌-◌, List, [], ◌∷◌, ◌++◌, if◌then◌else◌, length, gather, range, strided,
}
use prox_mpc.Base.Double.{Double, nought, two, ◌⊕◌, ◌⊖◌, ◌⊗◌}
use prox_mpc.Base.Matrix.{Matrix, Vector, Write, block, apply}
use prox_mpc.ProxQp.State.{ProxQp}

-- A loop body that reads the counter `count` beside the loop variable.
abbrev pub gather_count {ℓ} : {A : Type ℓ} → (ℕ → ℕ → List A) → ℕ → List ℕ → List A
gather_count f count [] = []
gather_count f count (i ∷ is) = f count i ++ gather_count f (suc count) is

module _ {ℓ} {W : Type ℓ} ⦃d : Double W⦄ where
  abbrev pub sum_below : ℕ → (ℕ → W) → W
  sum_below zero f = nought
  sum_below (suc k) f = sum_below k f ⊕ f k

  -- 2 * weight, and its product with a vector of n entries.
  abbrev pub twice : Matrix W → ℕ → ℕ → W
  twice weight i j = two ⊗ weight.at i j

  abbrev pub twice_times : ℕ → Matrix W → (ℕ → W) → ℕ → ℕ → W
  twice_times n weight v i j = sum_below n (λ k. twice weight i k ⊗ v k)

module _ {ℓ} {W S : Type ℓ} ⦃d : Double W⦄ where
  unfoldable pub hessian_writes : ProxQp W S → List (Write W)
  hessian_writes p =
      gather (λ i. block i i p.n p.n (twice p.weight_q)) (strided p.x_start (p.u_start - p.n) p.n)
      ++ (block (p.u_start - p.n) (p.u_start - p.n) p.n p.n (twice p.weight_s)
          ++ (gather (λ i. block i i p.m p.m (twice p.weight_r)) (strided p.u_start p.w_start p.m)
              ++ (if p.obstacle_active
                  then gather (λ i. block i i 1 1 (twice p.weight_w)) (range p.w_start p.n_dvars)
                  else [])))

  unfoldable pub set_h : ProxQp W S → ProxQp W S
  unfolding hessian_writes
  set_h p = record p { mat_h = apply (hessian_writes p) p.mat_h }

  module _ (x_in u_in : Matrix W) (w_in : Vector W) (goal_x goal_u : Matrix W) where
    -- The segment of the final state reads the row that the counter has reached.
    unfoldable pub cost_writes : ProxQp W S → List (Write W)
    cost_writes p =
        let state_error = λ (count k : ℕ). x_in.at count k ⊖ goal_x.at count k in
        let control_error = λ (count k : ℕ). u_in.at count k ⊖ goal_u.at count k in
        let stages = strided p.x_start (p.u_start - p.n) p.n in
        gather_count (λ count i. block i 0 p.n 1 (twice_times p.n p.weight_q (state_error count))) 0
          stages
        ++ (block (p.u_start - p.n) 0 p.n 1
              (twice_times p.n p.weight_s (state_error (length stages)))
            ++ (gather_count
                  (λ count i. block i 0 p.m 1 (twice_times p.m p.weight_r (control_error count))) 0
                  (strided p.u_start p.w_start p.m)
                ++ (if p.obstacle_active
                    then gather_count
                        (λ count i. block i 0 1 1 (λ a b. twice p.weight_w 0 0 ⊗ w_in.get count)) 0
                        (range p.w_start p.n_dvars)
                    else [])))

    unfoldable pub set_c_vec : ProxQp W S → ProxQp W S
    unfolding cost_writes
    set_c_vec p = record p { vec_c = apply (cost_writes p) p.vec_c }
