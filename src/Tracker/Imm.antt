-- ===== src/Tracker/Imm.antt =====
-- prox_mpc_obstacle_tracker/src/imm_filter.cpp: the two-model estimator of a track.
use prox_mpc.Base.{ℕ, zero, suc, not, List, [], ◌∷◌, map, if◌then◌else◌, range_from}
use prox_mpc.Base.Double.{Double, ◌⊕◌, ◌⊖◌, ◌⊗◌, ◌⊘◌, nought, one}
use prox_mpc.Base.Cmath.{Cmath}
use prox_mpc.Base.Matrix.{Matrix, Vector, constant, vector_of}
use prox_mpc.Base.Linear.{
  identity, product_vec, sum, scaled, sum_vec, difference_vec, scaled_vec, outer, congruence,
  with_entry, with_component,
}
use prox_mpc.Tracker.Kalman.{
  SmallMatrices, vector, transition, process_noise_of, innovation, innovation_covariance, corrected,
  corrected_covariance,
}
use prox_mpc.Tracker.Track.{ImmParams, Estimator}
use prox_mpc.Tracker.Ctrv.{
  wrap_angle, ctrv_to_cv, ctrv_to_cv_jacobian, cv_to_ctrv, cv_to_ctrv_covariance,
  gaussian_likelihood, ctrv_transition, ctrv_transition_jacobian,
}

-- class ImmFilter; `mu` and `cbar` are the probabilities of the two models, CV first.
pub record ImmFilter {ℓ} (W : Type ℓ) : Type ℓ where
  pub params : ImmParams W
  pub x_cv : Vector W
  pub p_cv : Matrix W
  pub x_ctrv : Vector W
  pub p_ctrv : Matrix W
  pub mu : Vector W
  pub cbar : Vector W

module _ {ℓ} {W : Type ℓ} ⦃d : Double W⦄ ⦃r : Cmath W⦄ where
  -- The default values of ImmFilter::Params, and those of the filter's members.
  abbrev pub default_params : ImmParams W
  default_params = record {
    process_noise = one;
    measurement_noise = r.hundredth;
    initial_velocity_variance = one;
    p_cv_stay = r.stay;
    p_ctrv_stay = r.stay;
    ctrv_process_noise_accel = one;
    ctrv_process_noise_yaw_accel = one;
    ctrv_init_omega_variance = one;
  }

  unfoldable pub imm_filter : ImmParams W → ImmFilter W
  imm_filter params = record {
    params = params;
    x_cv = vector_of 4 nought;
    p_cv = identity 4;
    x_ctrv = vector_of 5 nought;
    p_ctrv = identity 5;
    mu = vector_of 2 d.half;
    cbar = vector_of 2 d.half;
  }

  unfoldable pub reset : W → W → ImmFilter W → ImmFilter W
  reset x y k =
      let noise = k.params.measurement_noise in
      let variance = k.params.initial_velocity_variance in
      record {
        params = k.params;
        x_cv = vector (x ∷ y ∷ nought ∷ nought ∷ []) 4;
        p_cv = with_entry 3 3 variance (
            with_entry 2 2 variance
              (with_entry 1 1 noise (with_entry 0 0 noise (constant 4 4 nought))));
        x_ctrv = vector (x ∷ y ∷ nought ∷ nought ∷ nought ∷ []) 5;
        p_ctrv = with_entry 4 4 k.params.ctrv_init_omega_variance (
            with_entry 3 3 (r.pi ⊗ r.pi) (
              with_entry 2 2 variance
                (with_entry 1 1 noise (with_entry 0 0 noise (constant 5 5 nought)))));
        mu = vector (d.half ∷ d.half ∷ []) 2;
        cbar = vector (d.half ∷ d.half ∷ []) 2;
      }

  -- pi(i, j), the Markov transition matrix.
  abbrev pub markov : ImmParams W → Matrix W
  markov p = with_entry 1 1 p.p_ctrv_stay (
      with_entry 1 0 (one ⊖ p.p_ctrv_stay)
        (with_entry 0 1 (one ⊖ p.p_cv_stay) (with_entry 0 0 p.p_cv_stay (constant 2 2 nought))))

  -- pi.transpose() * mu
  unfoldable pub predicted_probabilities : ImmFilter W → Vector W
  predicted_probabilities k =
      let m = (markov k.params).at in
      vector
        (((m 0 0 ⊗ k.mu.get 0) ⊕ (m 1 0 ⊗ k.mu.get 1))
          ∷ ((m 0 1 ⊗ k.mu.get 0) ⊕ (m 1 1 ⊗ k.mu.get 1))
          ∷ [])
        2

  -- mix(i, j)
  unfoldable pub mix : ImmFilter W → ℕ → ℕ → W
  unfolding predicted_probabilities
  mix k i j = ((markov k.params).at i j ⊗ k.mu.get i) ⊘ (predicted_probabilities k).get j

  -- x0_cv and p0_cv
  unfoldable pub mixed_cv : ImmFilter W → Vector W
  unfolding mix ctrv_to_cv
  mixed_cv k =
      sum_vec (scaled_vec (mix k 0 0) k.x_cv) (scaled_vec (mix k 1 0) (ctrv_to_cv k.x_ctrv))

  unfoldable pub mixed_cv_covariance : ImmFilter W → Matrix W
  unfolding mix ctrv_to_cv ctrv_to_cv_jacobian mixed_cv
  mixed_cv_covariance k =
      let x0 = mixed_cv k in
      sum (scaled (mix k 0 0) (sum k.p_cv (outer (difference_vec k.x_cv x0)))) (
        scaled (mix k 1 0) (
          sum (congruence (ctrv_to_cv_jacobian k.x_ctrv) k.p_ctrv)
            (outer (difference_vec (ctrv_to_cv k.x_ctrv) x0))))

  -- x0_ctrv, whose heading is blended around the prior heading.
  unfoldable pub mixed_ctrv : ImmFilter W → Vector W
  unfolding mix cv_to_ctrv wrap_angle
  mixed_ctrv k =
      let theta_ref = k.x_ctrv.get 3 in
      let x_cv_in_ctrv = cv_to_ctrv k.x_cv theta_ref in
      with_component 3
        (wrap_angle (
          (theta_ref ⊕ (mix k 0 1 ⊗ wrap_angle (x_cv_in_ctrv.get 3 ⊖ theta_ref)))
          ⊕ (mix k 1 1 ⊗ wrap_angle (k.x_ctrv.get 3 ⊖ theta_ref))))
        (sum_vec (scaled_vec (mix k 0 1) x_cv_in_ctrv) (scaled_vec (mix k 1 1) k.x_ctrv))

  -- The difference of two states, its heading wrapped.
  unfoldable pub wrapped_difference : Vector W → Vector W → Vector W
  unfolding wrap_angle
  wrapped_difference a b = with_component 3 (wrap_angle (a.get 3 ⊖ b.get 3)) (difference_vec a b)

  -- p0_ctrv
  unfoldable pub mixed_ctrv_covariance : ImmFilter W → Matrix W
  unfolding mix cv_to_ctrv cv_to_ctrv_covariance mixed_ctrv wrapped_difference
  mixed_ctrv_covariance k =
      let theta = k.x_ctrv.get 3 in
      let x0 = mixed_ctrv k in
      let x_in = cv_to_ctrv k.x_cv theta in
      let p_in = cv_to_ctrv_covariance k.x_cv k.p_cv theta k.params.ctrv_init_omega_variance in
      sum (scaled (mix k 0 1) (sum p_in (outer (wrapped_difference x_in x0))))
        (scaled (mix k 1 1) (sum k.p_ctrv (outer (wrapped_difference k.x_ctrv x0))))

  -- g and noise of the CTRV model, at the heading before the step.
  unfoldable pub ctrv_noise : ImmParams W → W → W → Matrix W
  ctrv_noise p dt theta_pre =
      let dt2 = dt ⊗ dt in
      let g = with_entry 4 1 dt (
        with_entry 3 1 (d.half ⊗ dt2) (
          with_entry 2 0 dt (
            with_entry 1 0 ((d.half ⊗ dt2) ⊗ d.sin theta_pre)
              (with_entry 0 0 ((d.half ⊗ dt2) ⊗ d.cos theta_pre) (constant 5 2 nought))))) in
      congruence g (
        with_entry 1 1 p.ctrv_process_noise_yaw_accel
          (with_entry 0 0 p.ctrv_process_noise_accel (constant 2 2 nought)))

  unfoldable pub predict : W → ImmFilter W → ImmFilter W
  unfolding predicted_probabilities mixed_cv mixed_cv_covariance mixed_ctrv mixed_ctrv_covariance
      ctrv_noise ctrv_transition ctrv_transition_jacobian
  predict dt k =
      let f = transition dt in
      let x0 = mixed_ctrv k in
      if d.le dt nought then record k { cbar = k.mu } else record k {
        cbar = predicted_probabilities k;
        x_cv = product_vec f (mixed_cv k);
        p_cv =
            sum (congruence f (mixed_cv_covariance k)) (process_noise_of k.params.process_noise dt);
        x_ctrv = ctrv_transition x0 dt;
        p_ctrv =
            sum (congruence (ctrv_transition_jacobian x0 dt) (mixed_ctrv_covariance k))
              (ctrv_noise k.params dt (x0.get 3));
      }

  module _ (e : SmallMatrices W) where
    -- cbar_j * L_j of both models.
    abbrev pub weight_cv : Vector W → ImmFilter W → W
    weight_cv z k =
        k.cbar.get 0
        ⊗ gaussian_likelihood e (innovation z k.x_cv)
            (innovation_covariance k.params.measurement_noise k.p_cv)

    abbrev pub weight_ctrv : Vector W → ImmFilter W → W
    weight_ctrv z k =
        k.cbar.get 1
        ⊗ gaussian_likelihood e (innovation z k.x_ctrv)
            (innovation_covariance k.params.measurement_noise k.p_ctrv)

    unfoldable pub updated_probabilities : Vector W → ImmFilter W → Vector W
    unfolding gaussian_likelihood
    updated_probabilities z k =
        let total = weight_cv z k ⊕ weight_ctrv z k in
        if d.le r.likelihood_floor total
        then vector ((weight_cv z k ⊘ total) ∷ (weight_ctrv z k ⊘ total) ∷ []) 2
        else k.mu

    unfoldable pub update : Vector W → ImmFilter W → ImmFilter W
    unfolding updated_probabilities wrap_angle
    update z k =
        let noise = k.params.measurement_noise in
        let x = corrected e noise z k.p_ctrv k.x_ctrv in
        record k {
          x_cv = corrected e noise z k.p_cv k.x_cv;
          p_cv = corrected_covariance e noise k.p_cv;
          x_ctrv = with_component 3 (wrap_angle (x.get 3)) x;
          p_ctrv = corrected_covariance e noise k.p_ctrv;
          mu = updated_probabilities z k;
        }

  unfoldable pub combined_state : ImmFilter W → Vector W
  unfolding ctrv_to_cv
  combined_state k =
      sum_vec (scaled_vec (k.mu.get 0) k.x_cv) (scaled_vec (k.mu.get 1) (ctrv_to_cv k.x_ctrv))

  unfoldable pub combined_covariance : ImmFilter W → Matrix W
  unfolding ctrv_to_cv ctrv_to_cv_jacobian combined_state
  combined_covariance k =
      let x_out = combined_state k in
      sum (scaled (k.mu.get 0) (sum k.p_cv (outer (difference_vec k.x_cv x_out)))) (
        scaled (k.mu.get 1) (
          sum (congruence (ctrv_to_cv_jacobian k.x_ctrv) k.p_ctrv)
            (outer (difference_vec (ctrv_to_cv k.x_ctrv) x_out))))

  -- The position at a time after the scan.
  unfoldable pub sample_at : ImmFilter W → W → W × W
  unfolding ctrv_transition
  sample_at k t =
      let ctrv = ctrv_transition k.x_ctrv t in
      (
        (k.mu.get 0 ⊗ (k.x_cv.get 0 ⊕ (k.x_cv.get 2 ⊗ t))) ⊕ (k.mu.get 1 ⊗ ctrv.get 0),
        (k.mu.get 0 ⊗ (k.x_cv.get 1 ⊕ (k.x_cv.get 3 ⊗ t))) ⊕ (k.mu.get 1 ⊗ ctrv.get 1),
      )

  unfoldable pub predicted_samples : ℕ → W → ImmFilter W → List (W × W)
  unfolding sample_at
  predicted_samples zero dt k = []
  predicted_samples (suc n) dt k =
      if not (d.lt nought dt)
      then []
      else map (λ i. sample_at k (d.of_nat i ⊗ dt)) (range_from (suc n) 1)

  unfoldable pub imm_estimator : SmallMatrices W → Estimator W (ImmFilter W)
  unfolding imm_filter reset predict update combined_state combined_covariance predicted_samples
  imm_estimator e = record {
    blank = imm_filter default_params;
    make = imm_filter;
    reset = reset;
    predict = predict;
    update = update e;
    combined_state = combined_state;
    combined_covariance = combined_covariance;
    predicted_samples = predicted_samples;
  }
