-- ===== src/Kalman.antt =====
-- The partitioned Kalman filter (include/mutap/fd_kalman.h: partitioned_fdkf).
pub mod Types
pub mod Excitation
pub mod Narrowband
pub mod Update
pub mod Watchdog
pub mod Core
use mu_tap.Common.{
  inc, ℕ, zero, suc, ◌+◌, ◌-◌, ◌*◌, ◌==◌, Bool, true, false, not, ◌&&◌, ◌||◌, List, [], ◌∷◌, ◌++◌,
  map, replicate, ltb, leb, Result, ok, err, ◌>>=◌, if◌then◌else◌,
}
use mu_tap.Common.Float.{Float, fmax}
use mu_tap.Detector.Loops.{at}
use mu_tap.Suppressor.Weights.{is_power}
use mu_tap.Spectrum.{
  Fft, Reference, checked_fft_size, finite_power, sum_of_squares, zeros, subtract, copy_block,
  estimate, clear_reference,
}
use mu_tap.Kalman.Types.{KalmanConfig, Fdkf, Novelty}
use mu_tap.Kalman.Excitation.{update_novelty}
use mu_tap.Kalman.Narrowband.{count_narrow}
use mu_tap.Kalman.Update.{correct}

pub data KalmanError : Type 0 where
  bad_block_size no_partitions bad_transition bad_smoothing bad_uncertainty bad_regularization
        bad_floor_ratio bad_novelty bad_novelty_floor bad_decay bad_guard bad_hold bad_fft_size :
      KalmanError

module _ {S : Type 0} ⦃f : Float S⦄ where
  unfoldable pub validated : KalmanConfig S → Result KalmanError (KalmanConfig S)
  validated cfg =
      let z = f.of_ℕ 0 in
      let one = f.of_ℕ 1 in
      if ltb cfg.block_size 4 || not (is_power cfg.block_size)
      then err bad_block_size
      else if cfg.partitions == 0
      then err no_partitions
      else if not (f.lt z cfg.transition) || not (f.le cfg.transition one)
      then err bad_transition
      else if not (f.le z cfg.noise_smoothing) || not (f.lt cfg.noise_smoothing one)
      then err bad_smoothing
      else if not (f.lt z cfg.initial_uncertainty)
      then err bad_uncertainty
      else if not (f.lt z cfg.regularization)
      then err bad_regularization
      else if not (f.le z cfg.transient_floor_ratio)
      then err bad_floor_ratio
      else if not (f.le z cfg.novelty_smoothing) || not (f.lt cfg.novelty_smoothing one)
      then err bad_novelty
      else if not (f.le z cfg.novelty_floor) || not (f.le cfg.novelty_floor one)
      then err bad_novelty_floor
      else if not (f.lt z cfg.initial_uncertainty_decay)
          || not (f.le cfg.initial_uncertainty_decay one)
      then err bad_decay
      else if not (f.le z cfg.narrowband_guard) || not (f.le cfg.narrowband_guard one)
      then err bad_guard
      else if f.lt z cfg.narrowband_guard && cfg.narrowband_hold_blocks == 0
      then err bad_hold
      else ok cfg

  -- The variances after a reset: every partition's from the one before by the decay.
  unfoldable pub initial_variance : ℕ → S → S → ℕ → List (List S)
  initial_variance stride decay p0 zero = []
  initial_variance stride decay p0 (suc n) =
      replicate stride p0 ∷ initial_variance stride decay (f.mul p0 decay) n

  unfoldable pub sum_row : S → List S → S
  sum_row acc [] = acc
  sum_row acc (x ∷ xs) = sum_row (f.add acc x) xs

  unfoldable pub uncertainty_sum : S → List (List S) → S
  unfolding sum_row
  uncertainty_sum acc [] = acc
  uncertainty_sum acc (row ∷ rows) = uncertainty_sum (sum_row acc row) rows

  unfoldable pub uncertainty_ratio : Fdkf S → S
  unfolding uncertainty_sum
  uncertainty_ratio s = f.div (uncertainty_sum (f.of_ℕ 0) s.p) s.p0_sum

  -- `x = x < p0 ? p0 : x` over the partitions.
  unfoldable pub raise_variance : S → S → List (List S) → List (List S)
  raise_variance decay p0 [] = []
  raise_variance decay p0 (row ∷ rows) =
      map (λ x. fmax x p0) row ∷ raise_variance decay (f.mul p0 decay) rows

  unfoldable pub reinflate_uncertainty : Fdkf S → Fdkf S
  unfolding raise_variance
  reinflate_uncertainty s = record s {
    p = raise_variance s.cfg.initial_uncertainty_decay s.cfg.initial_uncertainty s.p;
  }

  unfoldable pub reset : Fdkf S → Fdkf S
  unfolding initial_variance uncertainty_sum
  reset s =
      let cfg = s.cfg in
      let p =
        initial_variance (cfg.block_size + 1) cfg.initial_uncertainty_decay cfg.initial_uncertainty
          cfg.partitions in
      record s {
        ref = clear_reference cfg.partitions s.ref;
        h = map zeros s.h;
        psi_s = zeros s.psi_s;
        novelty = record {
          coh_num = zeros s.novelty.coh_num;
          coh_den = zeros s.novelty.coh_den;
          nov = map (λ x. f.of_ℕ 1) s.novelty.nov;
        };
        p = p;
        p0_sum = uncertainty_sum (f.of_ℕ 0) p;
        nb_count = 0;
      }

  -- The members as the constructor allocates them, for an FFT of n slots.
  unfoldable pub allocated : ℕ → KalmanConfig S → Fdkf S
  allocated n cfg =
      let z = f.of_ℕ 0 in
      let bins = cfg.block_size + 1 in
      record {
        cfg = cfg;
        ref = record {
          input = replicate n z;
          u = replicate cfg.partitions (replicate n z);
          head = 0;
        };
        h = replicate cfg.partitions (replicate n z);
        p = replicate cfg.partitions (replicate bins z);
        psi_s = replicate bins z;
        novelty = record {
          coh_num = replicate (2 * bins) z;
          coh_den = replicate bins z;
          nov = replicate bins z;
        };
        nb_count = 0;
        adapting = true;
        p0_sum = f.of_ℕ 1;
        watchdog = 0;
      }

  unfoldable pub new_fdkf : ⦃t : Fft S⦄ → KalmanConfig S → Result KalmanError (Fdkf S)
  new_fdkf config = validated config >>= λ cfg.
      checked_fft_size S (2 * cfg.block_size) bad_fft_size >>= λ n. ok (reset (allocated n cfg))

  unfoldable pub set_adaptation : Bool → Fdkf S → Fdkf S
  set_adaptation enabled s = record s { adapting = enabled }

  unfoldable pub watchdog_trip : Fdkf S → Fdkf S × (List S × List S)
  unfolding reset
  watchdog_trip s =
      let silence = replicate s.cfg.block_size (f.of_ℕ 0) in
      (record (reset s) { watchdog = inc s.watchdog }, (silence, silence))

  -- narrowband_frozen() by the count.
  abbrev pub holds : KalmanConfig S → ℕ → Bool
  holds cfg nb_count =
      f.lt (f.of_ℕ 0) cfg.narrowband_guard && leb cfg.narrowband_hold_blocks nb_count

module _ {S : Type 0} ⦃f : Float S⦄ ⦃t : Fft S⦄ where
  abbrev pub error_spectrum : ℕ → List S → List S
  error_spectrum b error = t.forward (replicate b (f.of_ℕ 0) ++ error)

  -- The filter after the block's spectrum and the novelty of it.
  unfoldable pub hear : List S → Fdkf S → Fdkf S
  unfolding copy_block
  hear ins s =
      let ref = copy_block s.cfg.block_size s.cfg.partitions ins s.ref in
      record s { ref = ref; novelty = update_novelty s.cfg ref s.novelty }

  -- process_block(): the filter after it, and the error and the estimate.
  unfoldable pub process_block : List S → List S → Fdkf S → Fdkf S × (List S × List S)
  unfolding hear watchdog_trip
  process_block ins desired s =
      let b = s.cfg.block_size in
      let heard = hear ins s in
      let y = estimate b s.cfg.partitions s.h heard.ref in
      let error = subtract desired y in
      let power_ok = finite_power (sum_of_squares (f.of_ℕ 0) error) in
      let nb_count = count_narrow s.cfg heard.ref s.nb_count in
      let counted = record heard { nb_count = nb_count } in
      let espec = error_spectrum b error in
      if not s.adapting
      then (if not power_ok then watchdog_trip heard else (heard, (error, y)))
      else if holds s.cfg nb_count
      then (if not power_ok then watchdog_trip counted else (counted, (error, y)))
      else if not (finite_power (at espec 0))
      then watchdog_trip counted
      else (correct espec counted, (error, y))
