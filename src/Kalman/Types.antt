-- ===== src/Kalman/Types.antt =====
-- The Kalman filter's data (include/mutap/fd_kalman.h: config and the members).
use mu_tap.Common.{ℕ, Bool, List}
use mu_tap.Spectrum.{Reference}

pub record KalmanConfig (S : Type 0) : Type 0 where
  pub block_size : ℕ
  pub partitions : ℕ
  pub transition : S
  pub noise_smoothing : S
  pub initial_uncertainty : S
  pub initial_uncertainty_decay : S
  pub regularization : S
  pub constrained : Bool
  pub transient_floor_ratio : S
  pub novelty_smoothing : S
  pub novelty_floor : S
  pub narrowband_guard : S
  pub narrowband_hold_blocks : ℕ

pub record Novelty (S : Type 0) : Type 0 where
  pub coh_num : List S
  pub coh_den : List S
  pub nov : List S

-- The scratch arrays are left out, as in the NLMS filter.
pub record Fdkf (S : Type 0) : Type 0 where
  pub cfg : KalmanConfig S
  pub ref : Reference S
  pub h : List (List S)
  pub p : List (List S)
  pub psi_s : List S
  pub novelty : Novelty S
  pub nb_count : ℕ
  pub adapting : Bool
  pub p0_sum : S
  pub watchdog : ℕ
