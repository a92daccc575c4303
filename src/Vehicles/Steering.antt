-- ===== src/Vehicles/Steering.antt =====
-- What the bicycles' configure accepts, and the two directions of the twist maps.
use Prim.Native.String.{String}
use prox_mpc.Base.{
  ◌≡◌, refl, sym, ap, subst, ◌∙◌, Bool, true, false, not, ◌||◌, some, List, [], ◌∷◌, ◌⊎◌, inl, inr,
  arith,
}
use prox_mpc.Base.Double.{Double, nought, one, abs}
use prox_mpc.Base.Matrix.{Vector}
use prox_mpc.Base.Result.{Error, ok, >>=-eq-ok, throw_if, throw_if-eq-ok, ok-injective}
use prox_mpc.Model.State.{Model, param}
use prox_mpc.Vehicles.Parts.{
  Twist, still, entries, configure_wheelbase, default_to_twist, default_from_twist,
}
use prox_mpc.Vehicles.Unicycle.{unicycle}
use prox_mpc.Vehicles.Bicycle.{bicycle_keys}
use prox_mpc.Vehicles.RearAxle.{
  rear_axle, rear_axle_configure, check_steer_bounds, steer_bound_not_finite, steer_bound_exceeded,
  rear_axle_to_twist, rear_axle_from_twist,
}
use prox_mpc.Vehicles.FrontAxle.{front_axle_configure}
use prox_mpc.Vehicles.Plants.{unicycle-IsVehicle}
use prox_mpc.Vehicles.Built.{override_bounds-SameRobot}

or_false : (a b : Bool) → (a || b) ≡ false → (a ≡ false) × (b ≡ false)
or_false a b h = ground arith

negated : (a : Bool) → not a ≡ false → a ≡ true
negated a h = ground arith

throw_if-passed : (t : Bool) (e : Error) {u : Unit {0}} → throw_if t e ≡ ok u → t ≡ false
throw_if-passed true e h = cc
throw_if-passed false e h = refl

module _ {ℓ} {W : Type ℓ} ⦃d : Double W⦄ where
  -- The outcome of the wheelbase's check for a map that has one.
  configure_wheelbase-some :
      (message : String) (config : List (String × W)) (l : W) (p : Model W) {q : Model W}
      → param "L" config ≡ some l
      → configure_wheelbase message config p ≡ ok q
      → (d.lt nought l ≡ true) × (q.params ≡ entries (l ∷ []))
  unfolding configure_wheelbase
  configure_wheelbase-some message config l p {q} has h =
      let (positive, done) =
        throw_if-eq-ok (not (d.lt nought l)) _ _ (rw (has, configure_wheelbase) at h) in
      (negated (d.lt nought l) positive, sym (ap (λ (s : Model W). s.params) (ok-injective done)))

  -- A wheelbase that BicycleFrontAxle::configure accepts is positive, and is the one that the model has
  -- then.
  pub front_axle_configure-wheelbase :
      (config : List (String × W)) (l : W) (p q : Model W)
      → param "L" config ≡ some l
      → front_axle_configure config p ≡ ok q
      → (d.lt nought l ≡ true) × (q.params.get 0 ≡ l)
  unfolding front_axle_configure
  front_axle_configure-wheelbase config l p q has h =
      let (s, wheels, rest) = >>=-eq-ok (configure_wheelbase _ config p) _ h in
      let (positive, params) = configure_wheelbase-some _ config l p {q = s} has wheels in
      let (en, em, flag, kept) = override_bounds-SameRobot config bicycle_keys s {q = q} rest in
      (positive, ap (λ (v : Vector W). v.get 0) (kept ∙ params))

  -- One side of the steering bound, as the two loops of BicycleRearAxle::configure leave it.
  steer_side :
      (config : List (String × W)) (key : String) (v : W)
      → param key config ≡ some v
      → steer_bound_not_finite config key ≡ false
      → steer_bound_exceeded config key ≡ false
      → (d.is_finite v ≡ true) × (d.lt one (abs v) ≡ false)
  steer_side config key v has finite small = (
    negated (d.is_finite v) (rw (has, steer_bound_not_finite) at finite),
    rw (has, steer_bound_exceeded) at small,
  )

  -- A steering bound that BicycleRearAxle::configure accepts is finite and at most 1 rad in magnitude;
  -- whichever side it is.
  pub rear_axle_configure-steering :
      (config : List (String × W)) (key : String) (v : W) (p q : Model W)
      → (key ≡ "delta_min") ⊎ (key ≡ "delta_max")
      → param key config ≡ some v
      → rear_axle_configure config p ≡ ok q
      → (d.is_finite v ≡ true) × (d.lt one (abs v) ≡ false)
  unfolding rear_axle_configure check_steer_bounds
  rear_axle_configure-steering config key v p q side has h =
      let (s, wheels, rest) = >>=-eq-ok (configure_wheelbase _ config p) _ h in
      let (u, checked, last) = >>=-eq-ok (check_steer_bounds config) _ rest in
      let (finite, magnitude) =
        throw_if-eq-ok
          (steer_bound_not_finite config "delta_min" || steer_bound_not_finite config "delta_max") _
          _ checked in
      let within =
        throw_if-passed
          (steer_bound_exceeded config "delta_min" || steer_bound_exceeded config "delta_max") _
          magnitude in
      let f =
        or_false (steer_bound_not_finite config "delta_min")
          (steer_bound_not_finite config "delta_max") finite in
      let e =
        or_false (steer_bound_exceeded config "delta_min") (steer_bound_exceeded config "delta_max")
          within in
      elim side [
        | inl low ↦
            steer_side config "delta_min" v (subst (λ k. param k config ≡ some v) low has) f.0 e.0
        | inr upp ↦
            steer_side config "delta_max" v (subst (λ k. param k config ≡ some v) upp has) f.1 e.1
      ]

  -- The two directions of a unicycle's twist map, once its constructor and a configure have returned: of
  -- two controls, fromTwist gives back exactly the two, and toTwist gives back of a twist the speed and
  -- the turn rate, with the other components zero.
  pub unicycle-from_twist :
      (config : List (String × W)) (p q : Model W) (u : Vector W) (t : Twist W)
      → unicycle.build ≡ ok p
      → unicycle.configure config p ≡ ok q
      → u.size ≡ 2
      → ((unicycle.from_twist q (unicycle.to_twist q u)).size ≡ u.size)
        × ((unicycle.from_twist q (unicycle.to_twist q u)).get 0 ≡ u.get 0)
        × ((unicycle.from_twist q (unicycle.to_twist q u)).get 1 ≡ u.get 1)
        × (unicycle.to_twist q (unicycle.from_twist q t)
            ≡ record still { linear_x = t.linear_x; angular_z = t.angular_z })
  unfolding unicycle default_to_twist default_from_twist
  unicycle-from_twist config p q u t made set size =
      let (n, m, flag, model) =
        unicycle-IsVehicle.configured config p q (unicycle-IsVehicle.built p made) set in
      (m ∙ sym size, rw (m, size) refl, rw (m, size) refl, rw m refl)

  -- Of the rear-axle bicycle's controls the twist determines the speed alone; the rate comes back as NaN.
  pub rear_axle-from_twist :
      (p : Model W) (u : Vector W)
      → rear_axle.from_twist p (rear_axle.to_twist p u) ≡ entries (u.get 0 ∷ d.nan ∷ [])
  unfolding rear_axle rear_axle_to_twist rear_axle_from_twist
  rear_axle-from_twist p u = refl
