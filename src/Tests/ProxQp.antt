-- ===== src/Tests/ProxQp.antt =====
-- The layout, the assembly and the sparsity structure on the small problem.
use prox_mpc.Base.{
  ℕ, ◌+◌, ◌*◌, ◌≡◌, refl, Bool, true, false, map, All, arith, strided, range_from, inl, inr, List,
  [], ◌∷◌, if◌then◌else◌, Bool-cases,
}
use prox_mpc.Base.Int.{◌-ℤ◌, ◌/ℤ◌, ◌*ℤ◌, ◌+ℤ◌}
use prox_mpc.Base.Sample.{Sample, sample_double, isqrt}
use prox_mpc.Base.Double.{nought, one}
use prox_mpc.Base.Matrix.{Write, constant, vector_of, Inside, place}
use prox_mpc.ProxQp.State.{ProxQp, Layout}
use prox_mpc.ProxQp.Init.{lay_out, declare_pattern, x_probe, u_probe, probe}
use prox_mpc.ProxQp.Dynamics.{equality_writes, set_e}
use prox_mpc.ProxQp.Constraints.{constraint_writes, slot_normal, normal}
use prox_mpc.ProxQp.Solve.{take_x, take_u, take_w, assemble, solve}
use prox_mpc.ProxQp.Layout.{IsLaidOut, IsFor}
use prox_mpc.ProxQp.Prepared.{HasRows, lay_out-IsLaidOut}
use prox_mpc.ProxQp.Ready.{IsPlant, IsReady}
use prox_mpc.ProxQp.Within.{constraint_writes-Inside}
use prox_mpc.ProxQp.Equalities.{equality_writes-Inside}
use prox_mpc.ProxQp.Bounds.{Limit, limits}
use prox_mpc.ProxQp.Rows.{limits_lem}
use prox_mpc.ProxQp.Pattern.{place-constraint_writes}
use prox_mpc.ProxQp.Sparsity.{HasPattern, dense_of, declare_pattern-HasPattern}
use prox_mpc.ProxQp.Increments.{take_x_lem, take_u_lem, take_w_lem}
use prox_mpc.Mpc.State.{fresh_qp}
use prox_mpc.ProxQp.Solver.{SparseProblem}
use prox_mpc.ProxQp.Handed.{IsWhole, IsHandedTo, solve-lossless}
use prox_mpc.Tests.Problem.{unit_solver, cart, value_or}

cart-IsPlant : IsPlant cart
cart-IsPlant = record {
  n_pos = omega arith;
  m_pos = omega arith;
  x_bounds = (omega arith, tt);
  u_bounds = (omega arith, tt);
  du_bounds = (omega arith, tt);
}

-- Two nodes of each kind, three bounds, one obstacle slot.
abbrev sizes : Layout Sample
sizes = record ((fresh_qp {S = ℕ} 0 cart).layout) { np = 2; nc = 2; n_ineq = 3; max_obs = 1 }

abbrev laid_out : Layout Sample
laid_out = value_or (lay_out cart sizes) sizes

lay_out-IsLaidOut_example : IsLaidOut laid_out × IsFor cart sizes laid_out × HasRows laid_out
unfolding lay_out
lay_out-IsLaidOut_example = lay_out-IsLaidOut cart sizes {q = laid_out} refl refl refl

abbrev object : ProxQp Sample ℕ
object = record (fresh_qp 0 cart) { layout = laid_out }

object-IsReady : IsReady laid_out
unfolding lay_out
object-IsReady = record {
  laid_out = lay_out-IsLaidOut_example.0;
  plant = cart-IsPlant;
  n_eq = refl;
  m_eq = refl;
  np_pos = omega arith;
  nc_pos = omega arith;
}

constraint_writes-Inside_example :
    All (Inside laid_out.ineq_tot laid_out.n_dvars) (constraint_writes (constant 3 3 one) object)
constraint_writes-Inside_example = constraint_writes-Inside object object-IsReady (constant 3 3 one)

equality_writes-Inside_example :
    All
      (Inside laid_out.eq_tot laid_out.n_dvars)
      (equality_writes (constant 3 3 one) (constant 2 2 nought) object)
equality_writes-Inside_example =
    equality_writes-Inside object object-IsReady (constant 3 3 one) (constant 2 2 nought)

limits_lem_example :
    map
      (λ (l : Limit Sample). l.row)
      (limits
        (constant 3 3 one)
        (constant 2 2 nought)
        (vector_of 2 nought)
        (vector_of 2 nought)
        object)
    ≡ range_from laid_out.ineq_tot 0
limits_lem_example =
    limits_lem (constant 3 3 one) (constant 2 2 nought) (vector_of 2 nought) (vector_of 2 nought)
      object (lay_out-IsLaidOut_example.0)

abbrev solution : ℕ → Sample
solution i = sample_double.of_nat i

take_x_lem_example :
    (take_x object solution (constant 3 3 nought)).at 2 1 ≡ solution (2 * laid_out.n + 1)
unfolding lay_out
take_x_lem_example =
    take_x_lem object object-IsReady solution (constant 3 3 nought) 2 1 (omega arith) (omega arith)

take_u_lem_example : (take_u object solution (constant 2 2 nought)).at 1 1 ≡ solution 12
unfolding lay_out
take_u_lem_example =
    take_u_lem object object-IsReady solution (constant 2 2 nought) 1 1 (omega arith) (omega arith)

take_w_lem_example : (take_w object solution (vector_of 2 nought)).get 1 ≡ solution 14
unfolding lay_out
take_w_lem_example =
    take_w_lem object object-IsReady solution (vector_of 2 nought) 1 refl (omega arith)

place-constraint_writes_example :
    map place (constraint_writes (constant 3 3 one) (record object { dt = one }))
    ≡ map place (constraint_writes (constant 3 3 nought) object)
place-constraint_writes_example =
    place-constraint_writes object (record object { dt = one }) refl (constant 3 3 one)
      (constant 3 3 nought) refl

abbrev all_numbers : List (Write Sample) → Bool
all_numbers [] = true
all_numbers (w ∷ ws) = if sample_double.is_nan w.value then false else all_numbers ws

all_numbers_sound :
    (ws : List (Write Sample))
    → all_numbers ws ≡ true
    → All (λ w. sample_double.is_nan w.value ≡ false) ws
all_numbers_sound [] h = tt
all_numbers_sound (w ∷ ws) h = elim (Bool-cases (sample_double.is_nan w.value)) [
  | inl bad ↦ absurd (let h' = rw bad at h in cc)
  | inr good ↦ (good, all_numbers_sound ws (rw good at h))
]

declare_pattern-HasPattern_example : HasPattern (declare_pattern object)
unfolding lay_out equality_writes constraint_writes set_e slot_normal normal strided ◌-ℤ◌ ◌+ℤ◌ ◌*ℤ◌
    ◌/ℤ◌ isqrt
declare_pattern-HasPattern_example =
    declare_pattern-HasPattern object refl
      (all_numbers_sound (equality_writes (x_probe object) (u_probe object) (probe object)) refl)
      (all_numbers_sound
        (constraint_writes (x_probe object)
          (set_e (x_probe object) (u_probe object) (probe object)))
        refl)

abbrev solved : ProxQp Sample ℕ
solved =
    (solve unit_solver (constant 3 3 nought) (constant 2 2 nought) (vector_of 2 nought)
      (vector_of 2 nought) (constant 3 3 one) (constant 2 2 nought) (declare_pattern object)).0

abbrev assembled : ProxQp Sample ℕ
assembled =
    assemble (constant 3 3 nought) (constant 2 2 nought) (vector_of 2 nought) (vector_of 2 nought)
      (constant 3 3 one) (constant 2 2 nought) (declare_pattern object)

solve-lossless_example :
    HasPattern solved
    × ((r c : ℕ) → dense_of solved.e_sparse r c ≡ solved.mat_e r c)
    × ((r c : ℕ) → dense_of solved.c_sparse r c ≡ solved.mat_c r c)
    × ((problem : SparseProblem Sample) × IsWhole assembled problem
        × IsHandedTo unit_solver (declare_pattern object) problem solved)
unfolding declare_pattern
solve-lossless_example =
    solve-lossless (constant 3 3 nought) (constant 2 2 nought) (vector_of 2 nought)
      (vector_of 2 nought) (constant 3 3 one) (constant 2 2 nought) unit_solver
      (declare_pattern object) refl declare_pattern-HasPattern_example
