-- ===== src/Vehicles/Initialized.antt =====
-- A bundled model in MPC::init.
use Prim.Native.String.{String}
use prox_mpc.Base.{◌≡◌, sym, ap, subst, ◌∙◌, List}
use prox_mpc.Base.Double.{Double}
use prox_mpc.Base.Result.{ok, ok-injective}
use prox_mpc.Model.State.{Model}
use prox_mpc.ProxQp.State.{Plant}
use prox_mpc.ProxQp.Ready.{IsPlant}
use prox_mpc.ProxQp.Solver.{Solver}
use prox_mpc.Mpc.State.{Mpc}
use prox_mpc.Mpc.Init.{EigenSolver, init}
use prox_mpc.Mpc.Prepared.{IsInitialized, init-IsInitialized}
use prox_mpc.Base.Cmath.{Cmath}
use prox_mpc.Vehicles.Parts.{plant_of}
use prox_mpc.Vehicles.Bundled.{Bundled, vehicle_of, states_of}
use prox_mpc.Vehicles.Plants.{configured-IsPlant}

module _ {ℓ} {W S : Type ℓ} ⦃d : Double W⦄ ⦃r : Cmath W⦄ (solver : Solver W S) where
  -- Each of the four bundled models, built, configured and handed to an init that accepts it, leaves an
  -- MPC that is initialized for it, with its three or four states and two controls in the QP object.
  pub vehicle-IsInitialized :
      (eigen : EigenSolver W) (blank : S) (k : Bundled) (config : List (String × W)) (p q : Model W)
      (plant : Plant W) (mpc ready : Mpc W S)
      → (vehicle_of k).build ≡ ok p
      → (vehicle_of k).configure config p ≡ ok q
      → plant_of (vehicle_of k) q ≡ ok plant
      → init solver eigen blank plant mpc ≡ ok ready
      → IsInitialized plant ready × (ready.proxqp.n ≡ states_of k) × (ready.proxqp.m ≡ 2)
  vehicle-IsInitialized eigen blank k config p q plant mpc ready made set read started =
      let (other, same, fits, n, m, flag) = configured-IsPlant k config p q made set in
      let e : other ≡ plant = ok-injective (sym same ∙ read) in
      let h =
        init-IsInitialized solver eigen blank plant mpc {q = ready} (subst IsPlant e fits)
          started in
      (h, h.qp_n ∙ (ap (λ v. v.n) (sym e) ∙ n), h.qp_m ∙ (ap (λ v. v.m) (sym e) ∙ m))
