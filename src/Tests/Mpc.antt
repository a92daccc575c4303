-- ===== src/Tests/Mpc.antt =====
-- Cycles of the controller on the small problem.
use prox_mpc.Base.{ℕ, ◌≤◌, ◌≡◌, refl, true, false, ◌&&◌, ◌⊎◌, max, arith, [], ◌∷◌, strided}
use prox_mpc.Base.Int.{◌-ℤ◌, ◌/ℤ◌, ◌*ℤ◌, ◌+ℤ◌}
use prox_mpc.Base.Sample.{Sample, sample_double, isqrt}
use prox_mpc.Base.Double.{nought, one}
use prox_mpc.Base.Matrix.{vector_of, Matrix, constant}
use prox_mpc.Base.Result.{ok}
use prox_mpc.ProxQp.Setters as Qp
use prox_mpc.ProxQp.Solve.{take_x, take_u, take_w, assemble, run_qp, run_sparse}
use prox_mpc.ProxQp.Ready.{IsPlant}
use prox_mpc.Mpc.State.{Mpc, fresh}
use prox_mpc.Mpc.Setters as Set
use prox_mpc.Mpc.Init.{init}
use prox_mpc.Mpc.Solve.{
  is_solved, timed_out, stage, finite_plan, run_sqp, solve_candidate, commit_candidate, solve,
}
use prox_mpc.Mpc.Rounds.{IsFrame, DoWhile, run_sqp-stops}
use prox_mpc.Mpc.Cycle.{solve_candidate-keeps, commit-solve_candidate}
use prox_mpc.Mpc.Prepared.{IsInitialized, init-IsInitialized}
use prox_mpc.Mpc.Calls.{perform, perform_all, IsConsistent, is_init}
use prox_mpc.Mpc.WarmStart.{stage_lem}
use prox_mpc.Mpc.Histories.{perform_all-IsConsistent, perform-frozen}
use prox_mpc.Mpc.Calls as C
use prox_mpc.Tests.Problem.{unit_solver, unit_eigen, cart, setup, value_or, empty, ready_mpc}

abbrev times : ℕ → Sample
times k = nought

abbrev after_setup : Mpc Sample ℕ → Mpc Sample ℕ
after_setup p = value_or (perform unit_solver unit_eigen 0 (C.init_with cart) p) p

abbrev configured : Mpc Sample ℕ
configured =
    value_or
      (perform_all unit_solver unit_eigen 0
        (C.set_np 2 ∷ C.set_nc 2 ∷ C.set_dt one ∷ C.set_max_obs 1 ∷ []) empty)
      empty

abbrev initialized : Mpc Sample ℕ
initialized = value_or (init unit_solver unit_eigen 0 cart configured) configured

pub cart-IsPlant : IsPlant cart
cart-IsPlant = record {
  n_pos = omega arith;
  m_pos = omega arith;
  x_bounds = (omega arith, tt);
  u_bounds = (omega arith, tt);
  du_bounds = (omega arith, tt);
}

init-IsInitialized_example : IsInitialized cart initialized
unfolding fresh perform perform_all init Set.set_np Set.set_nc Set.set_dt Set.set_max_obs
    Set.set_pose Set.set_goal_x Set.set_goal_u ◌-ℤ◌ ◌/ℤ◌ ◌*ℤ◌ ◌+ℤ◌
init-IsInitialized_example =
    init-IsInitialized unit_solver unit_eigen 0 cart configured {q = initialized} cart-IsPlant refl

perform_all-IsConsistent_example : IsConsistent ready_mpc.settings
unfolding fresh perform perform_all init Set.set_np Set.set_nc Set.set_dt Set.set_max_obs
    Set.set_pose Set.set_goal_x Set.set_goal_u ◌-ℤ◌ ◌/ℤ◌ ◌*ℤ◌ ◌+ℤ◌
perform_all-IsConsistent_example =
    perform_all-IsConsistent unit_solver unit_eigen 0 setup cart ready_mpc refl

perform-frozen_example :
    (value_or
      (perform unit_solver unit_eigen 0 (C.set_goal_u (constant 2 2 one)) ready_mpc)
      ready_mpc).settings
    ≡ ready_mpc.settings
unfolding fresh perform perform_all init Set.set_np Set.set_nc Set.set_dt Set.set_max_obs
    Set.set_pose Set.set_goal_x Set.set_goal_u ◌-ℤ◌ ◌/ℤ◌ ◌*ℤ◌ ◌+ℤ◌
perform-frozen_example =
    perform-frozen unit_solver unit_eigen 0 (C.set_goal_u (constant 2 2 one)) ready_mpc
      (value_or (perform unit_solver unit_eigen 0 (C.set_goal_u (constant 2 2 one)) ready_mpc)
        ready_mpc)
      refl refl refl

run_sqp-stops_example :
    let q = run_sqp unit_solver times ready_mpc in
    ((r : Mpc Sample ℕ) × DoWhile unit_solver times r
        (record ready_mpc { sqp_iter = 0; qp_iter_ext = 0 })
      × (q.sqp_iter ≡ r.sqp_iter)
      × (q.qp_info ≡ r.qp_info)
      × (q.candidate.x ≡ r.candidate.x)
      × (q.candidate.u ≡ r.candidate.u)
      × (q.candidate.w ≡ r.candidate.w))
    × IsFrame ready_mpc q
    × (1 ≤ q.sqp_iter)
    × (q.sqp_iter ≤ max 1 ready_mpc.max_iter_sqp)
    × ((q.cand_solved ≡ true)
        ⊎ ((ready_mpc.max_iter_sqp ≤ q.sqp_iter) ⊎ (timed_out times q ≡ true)))
    × (q.cand_solved ≡ is_solved q.qp_info.status)
    × (q.cand_finite ≡ finite_plan q.candidate)
run_sqp-stops_example = run_sqp-stops unit_solver times ready_mpc

solve_candidate-keeps_example :
    let (q, returned) = solve_candidate unit_solver times ready_mpc in
    IsFrame ready_mpc q
    × (((result : Matrix Sample × Matrix Sample) × (returned ≡ ok result))
        ⊎ (commit_candidate q ≡ (q, false)))
solve_candidate-keeps_example = solve_candidate-keeps unit_solver times ready_mpc

abbrev solved_mpc : Mpc Sample ℕ
solved_mpc = (solve_candidate unit_solver times ready_mpc).0

commit-solve_candidate_example :
    let (s, accepted) = commit_candidate solved_mpc in
    ((accepted ≡ true)
      × (is_solved solved_mpc.qp_info.status ≡ true)
      × (finite_plan s.retained ≡ true)
      × ((solve unit_solver times ready_mpc).0 ≡ s))
    ⊎ ((accepted ≡ false)
        × (s ≡ solved_mpc)
        × ((is_solved solved_mpc.qp_info.status && finite_plan solved_mpc.candidate) ≡ false))
unfolding fresh perform perform_all init Set.set_np Set.set_nc Set.set_dt Set.set_max_obs
    Set.set_pose Set.set_goal_x Set.set_goal_u ◌-ℤ◌ ◌/ℤ◌ ◌*ℤ◌ ◌+ℤ◌ solve_candidate run_sqp
    commit_candidate solve Qp.set_dt Qp.set_obs isqrt
commit-solve_candidate_example =
    commit-solve_candidate unit_solver times ready_mpc solved_mpc
      (solved_mpc.candidate.x, solved_mpc.candidate.u) refl

-- The small problem's candidate is accepted.
accepted_test : (commit_candidate solved_mpc).1 ≡ true
unfolding fresh perform perform_all init Set.set_np Set.set_nc Set.set_dt Set.set_max_obs
    Set.set_pose Set.set_goal_x Set.set_goal_u ◌-ℤ◌ ◌/ℤ◌ ◌*ℤ◌ ◌+ℤ◌ solve_candidate run_sqp
    commit_candidate solve Qp.set_dt Qp.set_obs isqrt take_x take_u take_w assemble run_qp
    run_sparse strided
accepted_test = refl

-- Three rows of states and two of controls, whose entries tell the row.
abbrev planned : Mpc Sample ℕ
planned = record empty {
  pose = vector_of 3 one;
  retained = record (empty.retained) {
    x = record { rows = 3; cols = 3; at = λ i j. sample_double.of_nat i };
    u = record { rows = 2; cols = 2; at = λ i j. sample_double.of_nat i };
  };
}

stage_lem_example :
    ((stage planned).candidate.x.at 0 1 ≡ one)
    × ((stage planned).candidate.x.at 1 1 ≡ sample_double.of_nat 2)
    × ((stage planned).candidate.u.at 1 0 ≡ one)
unfolding fresh
stage_lem_example =
    stage_lem planned 1 1 1 0 (omega arith) (omega arith) (omega arith) (omega arith)
