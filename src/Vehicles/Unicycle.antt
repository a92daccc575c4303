-- ===== src/Vehicles/Unicycle.antt =====
-- prox_mpc_core/include/prox_mpc/models/unicycle.hpp
use Prim.Native.String.{String}
use prox_mpc.Base.{ℕ, true, List, [], ◌∷◌}
use prox_mpc.Base.Double.{Double, ◌⊕◌, ◌⊖◌, ◌⊗◌, nought, one}
use prox_mpc.Base.Matrix.{Vector, constant, vector_of}
use prox_mpc.Base.Result.{Result, ok, ◌>>=◌}
use prox_mpc.Model.State.{Model, set_n, set_m, set_obs_avoid}
use prox_mpc.Vehicles.Parts.{
  Vehicle, blank_model, entries, table, declare_bounds, override_bounds, default_mapping,
  default_to_twist, default_from_twist,
}

-- What configure overrides, with the keys of the two sides.
abbrev pub unicycle_keys : List (String × ℕ × String × String)
unicycle_keys =
    ("u", 0, "v_min", "v_max")
    ∷ ("u", 1, "w_min", "w_max")
    ∷ ("du", 0, "a_min", "a_max")
    ∷ ("du", 1, "alpha_min", "alpha_max")
    ∷ []

module _ {ℓ} {W : Type ℓ} ⦃d : Double W⦄ where
  abbrev pub three : W
  three = d.of_nat 3

  -- The bounds of the speed and of the turn rate, and of their changes.
  abbrev pub unicycle_bounds : List (String × ℕ × W × W)
  unicycle_bounds =
      ("u", 0, d.neg three, three)
      ∷ ("u", 1, d.neg one, one)
      ∷ ("du", 0, d.neg d.half, d.half)
      ∷ ("du", 1, d.neg d.half, d.half)
      ∷ []

  unfoldable pub unicycle_build : Result (Model W)
  unfolding declare_bounds
  unicycle_build = do
    p ← set_n 3 (record blank_model { name = "unicycle" })
    q ← set_m 2 p
    r ← declare_bounds unicycle_bounds (record q {
      params = entries (nought ∷ []);
      a = constant 3 3 nought;
      b = constant 3 2 nought;
      c = vector_of 3 nought;
    })
    ok (set_obs_avoid true r)

  unfoldable pub unicycle_configure : List (String × W) → Model W → Result (Model W)
  unfolding override_bounds
  unicycle_configure config p = override_bounds config unicycle_keys p

  unfoldable pub unicycle_update_c : W → Vector W → Model W → Model W
  unicycle_update_c dt x_next p =
      let v = p.u.get 0 in
      let theta = p.x.get 2 in
      record p {
        c = entries (
            ((p.x.get 0 ⊖ x_next.get 0) ⊕ ((dt ⊗ v) ⊗ d.cos theta))
            ∷ ((p.x.get 1 ⊖ x_next.get 1) ⊕ ((dt ⊗ v) ⊗ d.sin theta))
            ∷ ((p.x.get 2 ⊖ x_next.get 2) ⊕ (dt ⊗ p.u.get 1))
            ∷ []);
      }

  unfoldable pub unicycle_update_a : W → Model W → Model W
  unicycle_update_a dt p =
      let v = p.u.get 0 in
      let theta = p.x.get 2 in
      record p {
        a = table 3 (
            (one ∷ nought ∷ ((d.neg dt ⊗ v) ⊗ d.sin theta) ∷ [])
            ∷ (nought ∷ one ∷ ((dt ⊗ v) ⊗ d.cos theta) ∷ [])
            ∷ (nought ∷ nought ∷ one ∷ [])
            ∷ []);
      }

  unfoldable pub unicycle_update_b : Model W → Model W
  unicycle_update_b p =
      let theta = p.x.get 2 in
      record p {
        b =
            table 2 (
              (d.cos theta ∷ nought ∷ []) ∷ (d.sin theta ∷ nought ∷ []) ∷ (nought ∷ one ∷ []) ∷ []);
      }

  unfoldable pub unicycle : Vehicle W
  unfolding unicycle_build unicycle_configure unicycle_update_c unicycle_update_a unicycle_update_b
      default_mapping default_to_twist default_from_twist
  unicycle = record {
    build = unicycle_build;
    configure = unicycle_configure;
    planar_mapping = default_mapping;
    to_twist = default_to_twist;
    from_twist = default_from_twist;
    update_c = unicycle_update_c;
    update_a = unicycle_update_a;
    update_b = unicycle_update_b;
  }
