-- ===== src/Tracker/Kalman.antt =====
-- The constant-velocity Kalman filter of tracker.cpp, with which imm_filter.cpp agrees where it runs
-- the same model: the white-noise prediction and the position-only measurement.
use prox_mpc.Base.{ℕ, List, get_or}
use prox_mpc.Base.Double.{Double, ◌⊗◌, ◌⊘◌, nought, one, two}
use prox_mpc.Base.Matrix.{Matrix, Vector, constant}
use prox_mpc.Base.Linear.{
  identity, product, product_vec, transpose, sum, difference, scaled, sum_vec, difference_vec,
  congruence, with_entry,
}

-- Eigen's inverse and determinant of a 2x2 matrix.
pub record SmallMatrices {ℓ} (W : Type ℓ) : Type ℓ where
  pub inverse : Matrix W → Matrix W
  pub determinant : Matrix W → W

module _ {ℓ} {W : Type ℓ} ⦃d : Double W⦄ where
  abbrev pub vector : List W → ℕ → Vector W
  vector entries size = record { size = size; get = λ i. get_or entries i nought }

  abbrev pub transition : W → Matrix W
  transition dt = with_entry 1 3 dt (with_entry 0 2 dt (identity 4))

  -- Discrete white-noise acceleration, spectral density q.
  abbrev pub process_noise_of : W → W → Matrix W
  process_noise_of q dt =
      let dt2 = dt ⊗ dt in
      let dt3 = dt2 ⊗ dt in
      let dt4 = dt2 ⊗ dt2 in
      let position = (dt4 ⊘ d.of_nat 4) ⊗ q in
      let cross = (dt3 ⊘ two) ⊗ q in
      with_entry 3 3 (dt2 ⊗ q) (
        with_entry 3 1 cross (
          with_entry 1 3 cross (
            with_entry 1 1 position (
              with_entry 2 2 (dt2 ⊗ q) (
                with_entry 2 0 cross
                  (with_entry 0 2 cross (with_entry 0 0 position (constant 4 4 nought))))))))

  -- The 2 x n measurement matrix that reads the position.
  abbrev pub position_of : ℕ → Matrix W
  position_of n = with_entry 1 1 one (with_entry 0 0 one (constant 2 n nought))

  -- z - h * x
  abbrev pub innovation : Vector W → Vector W → Vector W
  innovation z x = difference_vec z (product_vec (position_of x.size) x)

  -- h * p * h.transpose() + noise * I
  abbrev pub innovation_covariance : W → Matrix W → Matrix W
  innovation_covariance noise p =
      sum (congruence (position_of p.rows) p) (scaled noise (identity 2))

  module _ (e : SmallMatrices W) where
    -- p * h.transpose() * s.inverse()
    abbrev pub gain : W → Matrix W → Matrix W
    gain noise p =
        product (product p (transpose (position_of p.rows)))
          (e.inverse (innovation_covariance noise p))

    -- x += k * y
    abbrev pub corrected : W → Vector W → Matrix W → Vector W → Vector W
    corrected noise z p x = sum_vec x (product_vec (gain noise p) (innovation z x))

    -- p = (I - k * h) * p
    abbrev pub corrected_covariance : W → Matrix W → Matrix W
    corrected_covariance noise p =
        product (difference (identity p.rows) (product (gain noise p) (position_of p.rows))) p
