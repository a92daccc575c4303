-- ===== src/Tests/Problem.antt =====
-- A small problem: three states, two controls, two nodes and one obstacle slot, on `Sample` values.
use prox_mpc.Base.{ℕ, suc, true, List, [], ◌∷◌, some, ◌==◌, if◌then◌else◌}
use prox_mpc.Base.Int.{pos, negsuc}
use prox_mpc.Base.Sample.{Sample, num, sample_double}
use prox_mpc.Base.Double.{nought, one}
use prox_mpc.Base.Matrix.{constant, vector_of}
use prox_mpc.Base.Result.{Result, ok, thrown}
use prox_mpc.ProxQp.State.{Plant}
use prox_mpc.ProxQp.Solver.{Solver, solved}
use prox_mpc.Mpc.State.{Mpc, fresh}
use prox_mpc.Mpc.Init.{EigenSolver}
use prox_mpc.Mpc.Calls.{Call, perform, perform_all}
use prox_mpc.Mpc.Calls as C

-- Counts its runs, converges at once and returns 1 everywhere.
abbrev pub unit_solver : Solver Sample ℕ
unit_solver = record {
  sparse_qp = λ h e c out inn. 0;
  dense_qp = λ n e c out inn. 0;
  sparse_init = λ g p s. s;
  sparse_update = λ g p s. s;
  dense_init = λ g p s. s;
  solve = suc;
  result_x = λ s i. one;
  info = λ s. record { status = solved; iter_ext = s };
}

abbrev pub unit_eigen : EigenSolver Sample
unit_eigen m = some (vector_of m.rows one)

abbrev pub cart : Plant Sample
cart = record {
  n = 3;
  m = 2;
  obs_flag = true;
  idx_x = 0;
  idx_y = 1;
  ineq_x = record { idx = 2; low = num (negsuc 9); upp = num (pos 10) } ∷ [];
  ineq_u = record { idx = 0; low = num (negsuc 4); upp = num (pos 5) } ∷ [];
  ineq_du = record { idx = 1; low = num (negsuc 1); upp = num (pos 2) } ∷ [];
  state_matrix = λ dt x u i j. if i == j then nought else nought;
  control_matrix = λ x u i j. if i == j then one else nought;
  residual = λ dt x u next i. nought;
}

abbrev pub setup : List (Call Sample ℕ)
setup =
    C.set_np 2
    ∷ C.set_nc 2
    ∷ C.set_dt (num (pos 10))
    ∷ C.set_max_obs 1
    ∷ C.init_with cart
    ∷ C.set_pose (vector_of 3 nought)
    ∷ C.set_goal_x (constant 3 3 one)
    ∷ C.set_goal_u (constant 2 2 nought)
    ∷ []

abbrev pub value_or {ℓ} : {A : Type ℓ} → Result A → A → A
value_or (ok a) b = a
value_or (thrown e) b = b

abbrev pub empty : Mpc Sample ℕ
empty = fresh 0 cart

abbrev pub ready_mpc : Mpc Sample ℕ
ready_mpc = value_or (perform_all unit_solver unit_eigen 0 setup empty) empty
