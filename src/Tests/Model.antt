-- ===== src/Tests/Model.antt =====
-- The bounds of a model of three states and two controls.
use prox_mpc.Base.{◌≡◌, refl, map, arith, [], ◌∷◌, false}
use prox_mpc.Base.Sample.{Sample, sample_double}
use prox_mpc.Base.Double.{nought, one, two}
use prox_mpc.Base.Matrix.{constant, vector_of}
use prox_mpc.Base.Result.{ok}
use prox_mpc.Model.Bounds.{Ineq, rows}
use prox_mpc.Model.State.{Model, Var, set_ineq, update_ineq}
use prox_mpc.Model.Dense.{rows-ok}
use prox_mpc.Model.Updates.{IsModel, set_ineq-IsModel, update_ineq-IsModel}
use prox_mpc.Tests.Problem.{value_or}

abbrev no_bounds : Ineq Sample
no_bounds = record { entries = []; map_idx = 0 }

abbrev plain : Model Sample
plain = record {
  name = "unicycle";
  n = 3;
  m = 2;
  params = vector_of 0 nought;
  x = vector_of 3 nought;
  u = vector_of 2 nought;
  a = constant 3 3 nought;
  b = constant 3 2 nought;
  c = vector_of 3 nought;
  ineq_x = no_bounds;
  ineq_u = no_bounds;
  ineq_du = no_bounds;
  ineq_w = no_bounds;
  obs_flag = false;
}

plain-IsModel : IsModel plain
plain-IsModel Var.var_x = record { dense = record { keys = tt; next = refl }; entry = tt }
plain-IsModel Var.var_u = record { dense = record { keys = tt; next = refl }; entry = tt }
plain-IsModel Var.var_du = record { dense = record { keys = tt; next = refl }; entry = tt }
plain-IsModel Var.var_w = record { dense = record { keys = tt; next = refl }; entry = tt }

abbrev bounded : Model Sample
bounded = value_or (set_ineq "x" 2 nought one plain) plain

set_ineq-IsModel_example : IsModel bounded
unfolding set_ineq
set_ineq-IsModel_example =
    set_ineq-IsModel "x" 2 nought one plain {q = bounded} (omega arith) (omega arith) plain-IsModel
      refl

abbrev tightened : Model Sample
tightened = value_or (update_ineq "x" 2 one two bounded) bounded

update_ineq-IsModel_example : IsModel tightened
unfolding set_ineq update_ineq
update_ineq-IsModel_example =
    update_ineq-IsModel "x" 2 one two bounded {q = tightened} set_ineq-IsModel_example refl

rows-ok_example : rows bounded.ineq_x ≡ ok (map (λ e. e.1) bounded.ineq_x.entries)
rows-ok_example = rows-ok bounded.ineq_x (set_ineq-IsModel_example Var.var_x).dense

-- The bound on index 2 is declared, then replaced.
tightened_test : tightened.ineq_x.entries ≡ (0, record { idx = 2; low = one; upp = two }) ∷ []
unfolding set_ineq update_ineq
tightened_test = refl
