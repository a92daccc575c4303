-- ===== src/Vehicles/Bicycle.antt =====
-- What the two bicycles share: their dimensions, wheelbase and bounds, but for the steering angle's.
use Prim.Native.String.{String}
use prox_mpc.Base.{ℕ, true, List, [], ◌∷◌}
use prox_mpc.Base.Double.{Double, ◌⊘◌, nought, one}
use prox_mpc.Base.Matrix.{constant, vector_of}
use prox_mpc.Base.Result.{Result, ok, ◌>>=◌}
use prox_mpc.Model.State.{Model, set_n, set_m, set_obs_avoid}
use prox_mpc.Vehicles.Parts.{blank_model, entries, declare_bounds}
use prox_mpc.Vehicles.Unicycle.{three}

-- What configure overrides, with the keys of the two sides.
abbrev pub bicycle_keys : List (String × ℕ × String × String)
bicycle_keys =
    ("x", 3, "delta_min", "delta_max")
    ∷ ("u", 0, "v_min", "v_max")
    ∷ ("u", 1, "delta_rate_min", "delta_rate_max")
    ∷ ("du", 0, "a_min", "a_max")
    ∷ ("du", 1, "delta_acc_min", "delta_acc_max")
    ∷ []

module _ {ℓ} {W : Type ℓ} ⦃d : Double W⦄ where
  -- The steering angle's bound, those of the speed and the steering rate, and of their changes.
  abbrev pub bicycle_bounds : W → List (String × ℕ × W × W)
  bicycle_bounds steer =
      ("x", 3, d.neg steer, steer)
      ∷ ("u", 0, d.neg three, three)
      ∷ ("u", 1, d.neg one, one)
      ∷ ("du", 0, d.neg d.half, d.half)
      ∷ ("du", 1, d.neg d.half, d.half)
      ∷ []

  -- The constructors; the wheelbase 1.6 is 16 / 10.
  unfoldable pub bicycle_build : String → W → Result (Model W)
  unfolding declare_bounds
  bicycle_build name steer = do
    p ← set_n 4 (record blank_model { name = name })
    q ← set_m 2 p
    r ← declare_bounds (bicycle_bounds steer) (record q {
      params = entries ((d.of_nat 16 ⊘ d.of_nat 10) ∷ []);
      a = constant 4 4 nought;
      b = constant 4 2 nought;
      c = vector_of 4 nought;
    })
    ok (set_obs_avoid true r)
