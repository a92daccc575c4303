-- ===== src/Controller/Mapped.antt =====
-- What the controller accepts of a model: indices in range and apart, and a speed limit that keeps the
-- model's bounds.
use prox_mpc.Base.{
  ℕ, ◌<◌, ◌≡◌, ◌≢◌, refl, subst, Bool, true, false, not, ◌||◌, ◌==◌, leb, ltb, ==_refl, inl, inr,
  Option-cases, arith,
}
use prox_mpc.Base.Double.{Double}
use prox_mpc.Base.Result.{ok, >>=-eq-ok, throw_if-eq-ok, ok-injective}
use prox_mpc.Model.State.{update_ineq}
use prox_mpc.Model.Updates.{IsModel, update_ineq-IsModel}
use prox_mpc.Vehicles.Parts.{PlanarMapping}
use prox_mpc.Controller.State.{Rig, Controller}
use prox_mpc.Controller.Setup.{
  reject_if, check_steering, check_steer_rate, steer_rate_of, adopt_mapping, read_model_mapping,
  limited_speed, apply_speed_limit,
}

reject_if-passed : (t : Bool) {u : Unit {0}} → reject_if t ≡ ok u → t ≡ false
reject_if-passed true h = cc
reject_if-passed false h = refl

three_false : (a b c : Bool) → (a || b || c) ≡ false → (a ≡ false) × (b ≡ false) × (c ≡ false)
three_false a b c h = ground arith

leb-false : (a b : ℕ) → leb a b ≡ false → b < a
leb-false a b h = ground arith

==-false : (a b : ℕ) → (a == b) ≡ false → a ≢ b
==-false a b h e = ground (arith, ==_refl a)

module _ {ℓ} {W : Type ℓ} ⦃d : Double W⦄ where
  -- The indices that the controller reads states and controls by.
  pub record IsMapped (rig : Rig W) : Type 0 where
    pub x_in : rig.idx_x < rig.n
    pub y_in : rig.idx_y < rig.n
    pub yaw_in : rig.idx_yaw < rig.n
    pub v_in : rig.idx_v < rig.m
    pub x_y : rig.idx_x ≢ rig.idx_y
    pub x_yaw : rig.idx_x ≢ rig.idx_yaw
    pub y_yaw : rig.idx_y ≢ rig.idx_yaw
    pub steer_in : rig.idx_steer < rig.n
    pub steer_rate_in : rig.idx_steer_rate < rig.m

  steering_in :
      (rig : Rig W) (p : PlanarMapping W) {u : Unit {0}}
      → 0 < rig.n
      → check_steering rig p ≡ ok u
      → (adopt_mapping p rig).idx_steer < rig.n
  steering_in rig p some_state h = elim (Option-cases p.idx_steering) [
    | inl absent ↦ rw absent some_state
    | inr (i, given) ↦
        let (outside, more) =
          throw_if-eq-ok (leb rig.n i || i == p.idx_x || i == p.idx_y || i == p.idx_yaw) _ _
            (rw given at h) in
        rw given (leb-false rig.n i (ground (arith, outside)))
  ]

  steer_rate_in :
      (rig : Rig W) (p : PlanarMapping W) {u : Unit {0}}
      → 0 < rig.m
      → check_steer_rate rig p ≡ ok u
      → (adopt_mapping p rig).idx_steer_rate < rig.m
  steer_rate_in rig p some_control h = elim (Option-cases (steer_rate_of p)) [
    | inl absent ↦ rw absent some_control
    | inr (i, given) ↦
        let outside =
          reject_if-passed (leb rig.m i || i == p.idx_speed) (rw (given, check_steer_rate) at h) in
        rw given (leb-false rig.m i (ground (arith, outside)))
  ]

  -- A mapping that the controller accepts names entries of the state and of the controls, those of
  -- x, y and yaw three different ones; the steering indices, 0 where they are absent, are in range too.
  pub read_model_mapping-IsMapped :
      (p : PlanarMapping W) (rig next : Rig W) → read_model_mapping p rig ≡ ok next → IsMapped next
  unfolding read_model_mapping
  read_model_mapping-IsMapped p rig next h =
      let (states, h1) = throw_if-eq-ok (ltb rig.n 3) _ _ h in
      let (controls, h2) = throw_if-eq-ok (ltb rig.m 1) _ _ h1 in
      let (planar, h3) =
        throw_if-eq-ok (leb rig.n p.idx_x || leb rig.n p.idx_y || leb rig.n p.idx_yaw) _ _ h2 in
      let (distinct, h4) =
        throw_if-eq-ok (p.idx_x == p.idx_y || p.idx_x == p.idx_yaw || p.idx_y == p.idx_yaw) _ _
          h3 in
      let (speed, h5) = throw_if-eq-ok (leb rig.m p.idx_speed) _ _ h4 in
      let (offsets, h6) =
        throw_if-eq-ok (not (d.is_finite p.ref_offset_x) || not (d.is_finite p.ref_offset_y)) _ _
          h5 in
      let (u, rate, h7) = >>=-eq-ok (check_steer_rate rig p) _ h6 in
      let (v, steering, done) = >>=-eq-ok (check_steering rig p) _ h7 in
      let (x, y, yaw) =
        three_false (leb rig.n p.idx_x) (leb rig.n p.idx_y) (leb rig.n p.idx_yaw) planar in
      let (xy, xyaw, yyaw) =
        three_false (p.idx_x == p.idx_y) (p.idx_x == p.idx_yaw) (p.idx_y == p.idx_yaw) distinct in
      subst IsMapped (ok-injective done) (record {
        x_in = leb-false rig.n p.idx_x x;
        y_in = leb-false rig.n p.idx_y y;
        yaw_in = leb-false rig.n p.idx_yaw yaw;
        v_in = leb-false rig.m p.idx_speed speed;
        x_y = ==-false p.idx_x p.idx_y xy;
        x_yaw = ==-false p.idx_x p.idx_yaw xyaw;
        y_yaw = ==-false p.idx_y p.idx_yaw yyaw;
        steer_in = steering_in rig p {u = v} (ground (arith, states)) steering;
        steer_rate_in = steer_rate_in rig p {u = u} (ground (arith, controls)) rate;
      })

module _ {ℓ} {W S : Type ℓ} ⦃d : Double W⦄ where
  -- An accepted speed limit keeps every bound map of the model dense, in dimension and ordered, and
  -- sets the cruise cap to the limit within the model's own maximum.
  pub apply_speed_limit-IsModel :
      (limit : W) (percentage : Bool) (c next : Controller W S)
      → IsModel c.model
      → apply_speed_limit limit percentage c ≡ ok next
      → IsModel next.model
        × (next.pilot.max_linear_vel ≡ limited_speed c.rig.v_max limit percentage)
        × (next.mpc ≡ c.mpc)
  unfolding apply_speed_limit
  apply_speed_limit-IsModel limit percentage c next model h =
      let (m, updated, done) = >>=-eq-ok (update_ineq "u" c.rig.idx_v _ _ c.model) _ h in
      subst
        (λ (k : Controller W S).
          IsModel k.model
          × (k.pilot.max_linear_vel ≡ limited_speed c.rig.v_max limit percentage)
          × (k.mpc ≡ c.mpc))
        (ok-injective done)
        (update_ineq-IsModel "u" c.rig.idx_v _ _ c.model {q = m} model updated, refl, refl)
