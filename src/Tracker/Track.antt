-- ===== src/Tracker/Track.antt =====
-- prox_mpc_obstacle_tracker/src/tracker.cpp and tracker.hpp: the tracker's state and what it asks of
-- the estimator that each track carries.
use prox_mpc.Base.{ℕ, Bool, false, List, []}
use prox_mpc.Base.Int.{ℤ}
use prox_mpc.Base.Double.{Double, nought}
use prox_mpc.Base.Matrix.{Matrix, Vector}

-- ImmFilter::Params
pub record ImmParams {ℓ} (W : Type ℓ) : Type ℓ where
  pub process_noise : W
  pub measurement_noise : W
  pub initial_velocity_variance : W
  pub p_cv_stay : W
  pub p_ctrv_stay : W
  pub ctrv_process_noise_accel : W
  pub ctrv_process_noise_yaw_accel : W
  pub ctrv_init_omega_variance : W

-- Tracker::Params
pub record Params {ℓ} (W : Type ℓ) : Type ℓ where
  pub process_noise : W
  pub measurement_noise : W
  pub association_gate : W
  pub initial_velocity_variance : W
  pub confirm_count : ℤ
  pub drop_count : ℤ
  pub max_tracks : ℕ
  pub imm_enabled : Bool
  pub imm_p_cv_stay : W
  pub imm_p_ctrv_stay : W
  pub ctrv_process_noise_accel : W
  pub ctrv_process_noise_yaw_accel : W
  pub ctrv_init_omega_variance : W
  pub prediction_steps : ℤ
  pub prediction_dt : W

-- The estimator of a track: its constructors, its cycle and what is read from it. A sample is an x
-- and a y.
pub record Estimator {ℓ} (W F : Type ℓ) : Type ℓ where
  pub blank : F
  pub make : ImmParams W → F
  pub reset : W → W → F → F
  pub predict : W → F → F
  pub update : Vector W → F → F
  pub combined_state : F → Vector W
  pub combined_covariance : F → Matrix W
  pub predicted_samples : ℕ → W → F → List (W × W)

-- `hits` and `misses` are ints that count up from 0 or 1: scans, of which no run comes near 2^31.
pub record Track {ℓ} (W F : Type ℓ) : Type ℓ where
  pub id : ℕ
  pub state : Vector W
  pub cov : Matrix W
  pub filter : F
  pub radius : W
  pub hits : ℕ
  pub misses : ℕ
  pub confirmed : Bool

pub record Tracker {ℓ} (W F : Type ℓ) : Type ℓ where
  pub params : Params W
  pub imm_params : ImmParams W
  pub tracks : List (Track W F)
  pub next_id : ℕ
  pub last_stamp : W
  pub has_last_stamp : Bool

module _ {ℓ} {W F : Type ℓ} ⦃d : Double W⦄ where
  -- Tracker::Tracker
  unfoldable pub tracker : Params W → Tracker W F
  tracker p = record {
    params = p;
    imm_params = record {
      process_noise = p.process_noise;
      measurement_noise = p.measurement_noise;
      initial_velocity_variance = p.initial_velocity_variance;
      p_cv_stay = p.imm_p_cv_stay;
      p_ctrv_stay = p.imm_p_ctrv_stay;
      ctrv_process_noise_accel = p.ctrv_process_noise_accel;
      ctrv_process_noise_yaw_accel = p.ctrv_process_noise_yaw_accel;
      ctrv_init_omega_variance = p.ctrv_init_omega_variance;
    };
    tracks = [];
    next_id = 0;
    last_stamp = nought;
    has_last_stamp = false;
  }

  -- Tracker::reset
  unfoldable pub reset_tracker : Tracker W F → Tracker W F
  reset_tracker t = record t {
    tracks = [];
    next_id = 0;
    last_stamp = nought;
    has_last_stamp = false;
  }
