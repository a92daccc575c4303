-- ===== src/Tracker/Ctrv.antt =====
-- prox_mpc_obstacle_tracker/src/imm_filter.cpp: the constant turn rate and velocity model, and the
-- converters between its states [x, y, v, theta, omega] and [x, y, vx, vy].
use prox_mpc.Base.{Bool, not, ◌||◌, [], ◌∷◌, if◌then◌else◌}
use prox_mpc.Base.Double.{Double, ◌⊕◌, ◌⊖◌, ◌⊗◌, ◌⊘◌, nought, one, two, abs}
use prox_mpc.Base.Cmath.{Cmath}
use prox_mpc.Base.Matrix.{Matrix, Vector, constant}
use prox_mpc.Base.Linear.{identity, product_vec, congruence, with_entry, with_component, sum_below}
use prox_mpc.Tracker.Kalman.{SmallMatrices, vector}

module _ {ℓ} {W : Type ℓ} ⦃d : Double W⦄ ⦃r : Cmath W⦄ where
  unfoldable pub wrap_angle : W → W
  wrap_angle a =
      let b = r.fmod (a ⊕ r.pi) (two ⊗ r.pi) in
      (if d.le b nought then b ⊕ (two ⊗ r.pi) else b) ⊖ r.pi

  unfoldable pub ctrv_to_cv : Vector W → Vector W
  ctrv_to_cv x =
      vector (x.get 0 ∷ x.get 1 ∷ (x.get 2 ⊗ d.cos (x.get 3)) ∷ (x.get 2 ⊗ d.sin (x.get 3)) ∷ []) 4

  unfoldable pub ctrv_to_cv_jacobian : Vector W → Matrix W
  ctrv_to_cv_jacobian x =
      let v = x.get 2 in
      let sin_t = d.sin (x.get 3) in
      let cos_t = d.cos (x.get 3) in
      with_entry 3 3 (v ⊗ cos_t) (
        with_entry 3 2 sin_t (
          with_entry 2 3 (d.neg v ⊗ sin_t)
            (with_entry 2 2 cos_t (with_entry 1 1 one (with_entry 0 0 one (constant 4 5 nought))))))

  -- Whether the speed is enough for its direction to be a heading.
  abbrev pub heading_ok : Vector W → Bool
  heading_ok x_cv = d.le r.thousandth (r.hypot (x_cv.get 2) (x_cv.get 3))

  -- x_out of cv_to_ctrv
  unfoldable pub cv_to_ctrv : Vector W → W → Vector W
  cv_to_ctrv x_cv prior_theta =
      let v = r.hypot (x_cv.get 2) (x_cv.get 3) in
      let theta = if heading_ok x_cv then r.atan2 (x_cv.get 3) (x_cv.get 2) else prior_theta in
      vector (x_cv.get 0 ∷ x_cv.get 1 ∷ v ∷ theta ∷ nought ∷ []) 5

  -- j of cv_to_ctrv
  unfoldable pub cv_to_ctrv_jacobian : Vector W → W → Matrix W
  cv_to_ctrv_jacobian x_cv prior_theta =
      let v = r.hypot (x_cv.get 2) (x_cv.get 3) in
      let j = with_entry 1 1 one (with_entry 0 0 one (constant 5 4 nought)) in
      if heading_ok x_cv
      then with_entry 3 3 (x_cv.get 2 ⊘ (v ⊗ v)) (
          with_entry 3 2 (d.neg (x_cv.get 3) ⊘ (v ⊗ v))
            (with_entry 2 3 (x_cv.get 3 ⊘ v) (with_entry 2 2 (x_cv.get 2 ⊘ v) j)))
      else with_entry 2 3 (d.sin prior_theta) (with_entry 2 2 (d.cos prior_theta) j)

  -- p_out of cv_to_ctrv
  unfoldable pub cv_to_ctrv_covariance : Vector W → Matrix W → W → W → Matrix W
  unfolding cv_to_ctrv_jacobian
  cv_to_ctrv_covariance x_cv p_cv prior_theta init_omega_variance =
      let p = congruence (cv_to_ctrv_jacobian x_cv prior_theta) p_cv in
      with_entry 4 4 init_omega_variance
        (if not (heading_ok x_cv) then with_entry 3 3 (r.pi ⊗ r.pi) p else p)

  unfoldable pub gaussian_likelihood : SmallMatrices W → Vector W → Matrix W → W
  gaussian_likelihood e y s =
      let det = e.determinant s in
      let z = product_vec (e.inverse s) y in
      let md2 = sum_below 2 (λ i. y.get i ⊗ z.get i) in
      let l = r.exp (d.neg d.half ⊗ md2) ⊘ ((two ⊗ r.pi) ⊗ d.sqrt det) in
      if not (d.lt nought det) || not (d.is_finite det)
      then nought
      else if d.is_finite l
      then l
      else nought

  unfoldable pub ctrv_transition : Vector W → W → Vector W
  unfolding wrap_angle
  ctrv_transition x dt =
      let v = x.get 2 in
      let theta = x.get 3 in
      let omega = x.get 4 in
      let theta_plus = theta ⊕ (omega ⊗ dt) in
      let turning = d.le r.omega_eps (abs omega) in
      let x0 =
        if turning
        then x.get 0 ⊕ ((v ⊘ omega) ⊗ (d.sin theta_plus ⊖ d.sin theta))
        else x.get 0 ⊕ ((v ⊗ d.cos theta) ⊗ dt) in
      let x1 =
        if turning
        then x.get 1 ⊕ ((v ⊘ omega) ⊗ (d.neg (d.cos theta_plus) ⊕ d.cos theta))
        else x.get 1 ⊕ ((v ⊗ d.sin theta) ⊗ dt) in
      with_component 3 (wrap_angle theta_plus) (with_component 1 x1 (with_component 0 x0 x))

  unfoldable pub ctrv_transition_jacobian : Vector W → W → Matrix W
  ctrv_transition_jacobian x dt =
      let v = x.get 2 in
      let theta = x.get 3 in
      let omega = x.get 4 in
      let sin_t = d.sin theta in
      let cos_t = d.cos theta in
      let f = with_entry 3 4 dt (identity 5) in
      let theta_plus = theta ⊕ (omega ⊗ dt) in
      let sin_p = d.sin theta_plus in
      let cos_p = d.cos theta_plus in
      let ratio = (v ⊗ dt) ⊘ omega in
      let ratio2 = v ⊘ (omega ⊗ omega) in
      if d.le r.omega_eps (abs omega)
      then with_entry 1 4 ((ratio ⊗ sin_p) ⊖ (ratio2 ⊗ (cos_t ⊖ cos_p))) (
          with_entry 1 3 ((v ⊘ omega) ⊗ (sin_p ⊖ sin_t)) (
            with_entry 1 2 ((cos_t ⊖ cos_p) ⊘ omega) (
              with_entry 0 4 ((ratio ⊗ cos_p) ⊖ (ratio2 ⊗ (sin_p ⊖ sin_t))) (
                with_entry 0 3 ((v ⊘ omega) ⊗ (cos_p ⊖ cos_t))
                  (with_entry 0 2 ((sin_p ⊖ sin_t) ⊘ omega) f)))))
      else with_entry 1 4 ((((d.half ⊗ v) ⊗ dt) ⊗ dt) ⊗ cos_t) (
          with_entry 1 3 ((v ⊗ dt) ⊗ cos_t) (
            with_entry 1 2 (dt ⊗ sin_t) (
              with_entry 0 4 ((((d.neg d.half ⊗ v) ⊗ dt) ⊗ dt) ⊗ sin_t)
                (with_entry 0 3 ((d.neg v ⊗ dt) ⊗ sin_t) (with_entry 0 2 (dt ⊗ cos_t) f)))))
