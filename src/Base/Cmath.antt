-- ===== src/Base/Cmath.antt =====
-- The functions of <cmath> and the constants that the estimator and the controller need besides those
-- of `Double`.

-- `fmod a b` is std::fmod. The constants are M_PI, 0.01, 0.95, 1e-3, 1e-4, 1e-30, 1e-18 and the largest
-- double.
pub record Cmath {ℓ} (W : Type ℓ) : Type ℓ where
  pub fmod : W → W → W
  pub hypot : W → W → W
  pub atan2 : W → W → W
  pub exp : W → W
  pub pi : W
  pub hundredth : W
  pub stay : W
  pub thousandth : W
  pub omega_eps : W
  pub likelihood_floor : W
  pub length_floor : W
  pub largest : W
