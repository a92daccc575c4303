-- ===== src/Controller/Failures.antt =====
-- The failure budget: cycles that go on failing end in an exception.
use Prim.Native.String.{String}
use prox_mpc.Base.{
  ℕ, suc, ◌+◌, ◌-◌, ◌≤◌, ◌<◌, ◌≡◌, ◌⊎◌, inl, inr, refl, sym, ap, subst, ◌∙◌, Bool, true, false, not,
  List, [], ◌∷◌, Option, none, some, length, All, if◌then◌else◌, arith,
}
use prox_mpc.Base.Int.{pos, ltb_ℤ}
use prox_mpc.Base.Double.{Double}
use prox_mpc.Base.Cmath.{Cmath}
use prox_mpc.Base.Matrix.{Matrix, Vector, row_of}
use prox_mpc.Mpc.State.{Mpc}
use prox_mpc.Mpc.Solve.{is_solved}
use prox_mpc.Vehicles.Parts.{Twist}
use prox_mpc.Controller.State.{Rig, Controller, Reply, command, raised, NavError, no_valid_control}
use prox_mpc.Controller.Brake.{Measured, make_brake, fail, count_failure}
use prox_mpc.Controller.Gates.{Costmap, gate_finite, finish_cycle}
use prox_mpc.Controller.Accepted.{pick}

if_true {ℓ} : {A : Type ℓ} (t : Bool) (x y : A) → t ≡ true → (if t then x else y) ≡ x
if_true true x y h = refl
if_true false x y h = cc

within : (n k : ℕ) → ltb_ℤ (pos n) (pos k) ≡ false → k ≤ n
within n k h = ground arith

beyond : (n k : ℕ) → ltb_ℤ (pos n) (pos k) ≡ true → n < k
beyond n k h = ground arith

-- What a cycle is given: the server's measurements, and what solving left.
pub record Attempt {ℓ} (W S : Type ℓ) : Type ℓ where
  pub measured : Measured W
  pub state : Vector W
  pub x_sol : Matrix W
  pub u_sol : Matrix W
  pub solved_mpc : Mpc W S

-- The first exception of a run, from a cycle's reply and the first exception of the cycles after it.
abbrev pub after_reply {ℓ} : {W : Type ℓ} → Reply W → Option (ℕ × NavError) → Option (ℕ × NavError)
after_reply (raised e) later = some (0, e)
after_reply (command t) none = none
after_reply (command t) (some (k, e)) = some (suc k, e)

abbrev pub IsUnsolved {ℓ} : {W S : Type ℓ} → Attempt W S → Type 0
IsUnsolved a = is_solved a.solved_mpc.qp_info.status ≡ false

module _ {ℓ} {W S : Type ℓ} ⦃d : Double W⦄ ⦃r : Cmath W⦄ (map : Costmap W) where
  abbrev pub cycle : Attempt W S → Controller W S → Controller W S × Reply W
  cycle a c = finish_cycle map a.measured a.state a.x_sol a.u_sol (record c { mpc = a.solved_mpc })

  -- The first exception of a run of cycles, which ends it, and how many commands were sent before.
  abbrev pub first_raised : List (Attempt W S) → Controller W S → Option (ℕ × NavError)
  first_raised [] c = none
  first_raised (a ∷ rest) c = after_reply (cycle a c).1 (first_raised rest (cycle a c).0)

  make_brake-budget :
      (s : Measured W) (c : Controller W S)
      → ((make_brake s c).0.pilot.failure_count ≡ c.pilot.failure_count)
        × ((make_brake s c).0.rig ≡ c.rig)
        × ((t : Twist W) × ((make_brake s c).1 ≡ command t))
  unfolding make_brake
  make_brake-budget s c = (refl, refl, (_, refl))

  -- What a failure makes of the budget.
  abbrev Counted : Controller W S → Controller W S × Reply W → Type ℓ
  Counted c n =
      ((ltb_ℤ c.rig.max_solver_failures (pos (suc c.pilot.failure_count)) ≡ true)
        × ((why : String) × (n.1 ≡ raised (no_valid_control why))))
      ⊎ ((ltb_ℤ c.rig.max_solver_failures (pos (suc c.pilot.failure_count)) ≡ false)
          × (n.0.pilot.failure_count ≡ suc c.pilot.failure_count)
          × (n.0.rig ≡ c.rig)
          × ((t : Twist W) × (n.1 ≡ command t)))

  fail-Counted : (why : String) (s : Measured W) (c : Controller W S) → Counted c (fail why s c)
  unfolding fail
  fail-Counted why s c =
      pick (Counted c) (ltb_ℤ c.rig.max_solver_failures (pos (suc c.pilot.failure_count)))
        {y = make_brake s (count_failure c)} (λ over. inl (over, (why, refl)))
        (λ left.
          let (count, rig, sent) = make_brake-budget s (count_failure c) in
          inr (left, count, rig, sent))

  cycle-Counted : (a : Attempt W S) (c : Controller W S) → IsUnsolved a → Counted c (cycle a c)
  unfolding finish_cycle
  cycle-Counted a c h =
      let start : Controller W S = record c { mpc = a.solved_mpc } in
      subst (Counted c)
        (sym (
          if_true (not (is_solved a.solved_mpc.qp_info.status))
            (fail "solver did not converge" a.measured start)
            (gate_finite map a.measured a.state a.x_sol (row_of a.u_sol 0) start) (ap not h)))
        (fail-Counted "solver did not converge" a.measured start)

  -- With a budget of n failures, of which some are left, a run of cycles whose solves all miss
  -- convergence, and which is longer than what is left, sends a command in exactly as many cycles as
  -- are left of the budget, and then raises NoValidControl.
  pub first_raised-budget :
      (n : ℕ) (attempts : List (Attempt W S)) (c : Controller W S)
      → c.rig.max_solver_failures ≡ pos n
      → c.pilot.failure_count ≤ n
      → All IsUnsolved attempts
      → n < c.pilot.failure_count + length attempts
      → (why : String) × (first_raised attempts c
          ≡ some (n - c.pilot.failure_count, no_valid_control why))
  first_raised-budget n [] c budget start unsolved long = absurd (omega (arith, start, long))
  first_raised-budget n (a ∷ rest) c budget start unsolved long =
      elim (cycle-Counted a c unsolved.0) [
        | inl (over, (why, reply)) ↦
            (let full : n - c.pilot.failure_count ≡ 0 = omega (
              arith,
              beyond n (suc c.pilot.failure_count)
                  (subst (λ m. ltb_ℤ m (pos (suc c.pilot.failure_count)) ≡ true) budget over),
            ) in
              (
                why,
                ap (λ m. after_reply m (first_raised rest (cycle a c).0)) reply
                    ∙ ap (λ k. some (k, no_valid_control why)) (sym full),
              ))
        | inr (left, count, rig, (t, reply)) ↦
            (let room : suc c.pilot.failure_count ≤ n =
                within n (suc c.pilot.failure_count)
                  (subst (λ m. ltb_ℤ m (pos (suc c.pilot.failure_count)) ≡ false) budget left) in
              let (why, later) =
                first_raised-budget n rest (cycle a c).0
                  (ap (λ (g : Rig W). g.max_solver_failures) rig ∙ budget)
                  (omega (arith, room, count)) unsolved.1 (omega (arith, long, count)) in
              let one_less : suc (n - (cycle a c).0.pilot.failure_count)
                  ≡ n - c.pilot.failure_count =
                omega (arith, room, count) in
              (
                why,
                ap (λ m. after_reply m (first_raised rest (cycle a c).0)) reply
                    ∙ (ap (after_reply (command t)) later
                        ∙ ap (λ k. some (k, no_valid_control why)) one_less),
              ))
      ]
