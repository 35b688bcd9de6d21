-- ===== src/Fdaf.antt =====
-- The partitioned NLMS filter (include/mutap/fdaf.h: partitioned_fdaf).
pub mod Coherence
pub mod Update
pub mod Watchdog
pub mod Fresh
pub mod Gate
use mu_tap.Common.{
  inc, ℕ, zero, suc, ◌+◌, ◌-◌, ◌*◌, ◌==◌, Bool, true, false, not, ◌&&◌, ◌||◌, List, [], ◌∷◌, ◌++◌,
  map, replicate, take, ltb, Result, ok, err, ◌>>=◌, if◌then◌else◌,
}
use mu_tap.Common.Float.{Float, Cast}
use mu_tap.Detector.Loops.{at}
use mu_tap.Suppressor.Weights.{is_power}
use mu_tap.Spectrum.{
  Fft, Reference, checked_fft_size, finite_power, sum_of_squares, zeros, subtract, take_block,
  estimate, clear_reference,
}
use mu_tap.Fdaf.Coherence.{FdafConfig, CoherenceState, update_ipc}
use mu_tap.Fdaf.Update.{adapt_filter, smooth_power}

pub data FdafError : Type 0 where
  bad_block_size no_partitions bad_step bad_regularization bad_smoothing bad_relative
        bad_ipc_smoothing bad_threshold bad_ratio bad_fft_size :
      FdafError

-- The scratch arrays hold nothing between blocks and are left out. Packed spectra are one row for
-- each partition.
pub record Fdaf (S : Type 0) : Type 0 where
  pub cfg : FdafConfig S
  pub ref : Reference S
  pub h : List (List S)
  pub power : List S
  pub coherence : CoherenceState S
  pub adapting : Bool
  pub watchdog : ℕ

module _ {S : Type 0} ⦃f : Float S⦄ where
  unfoldable pub validated : FdafConfig S → Result FdafError (FdafConfig S)
  validated cfg =
      let z = f.of_ℕ 0 in
      let one = f.of_ℕ 1 in
      if ltb cfg.block_size 4 || not (is_power cfg.block_size)
      then err bad_block_size
      else if cfg.partitions == 0
      then err no_partitions
      else if not (f.lt z cfg.step_size) || not (f.lt cfg.step_size (f.of_ℕ 2))
      then err bad_step
      else if not (f.lt z cfg.regularization)
      then err bad_regularization
      else if not (f.le z cfg.power_smoothing) || not (f.lt cfg.power_smoothing one)
      then err bad_smoothing
      else if not (f.le z cfg.relative_regularization)
      then err bad_relative
      else if not (f.le z cfg.ipc_smoothing) || not (f.lt cfg.ipc_smoothing one)
      then err bad_ipc_smoothing
      else if not (f.le z cfg.ipc_freeze_threshold) || not (f.le cfg.ipc_freeze_threshold one)
      then err bad_threshold
      else if not (f.le z cfg.transient_freeze_ratio)
      then err bad_ratio
      else ok cfg

  unfoldable pub reset : Fdaf S → Fdaf S
  reset s = record s {
    ref = clear_reference s.cfg.partitions s.ref;
    h = map zeros s.h;
    power = zeros s.power;
    coherence = record {
      s_cross = map zeros s.coherence.s_cross;
      s_uu = map zeros s.coherence.s_uu;
      s_ee = zeros s.coherence.s_ee;
      ipc = f.of_ℕ 0;
      transient = false;
      ee_weight = f.of_ℕ 0;
    };
  }

  -- The members as the constructor allocates them, for an FFT of n slots.
  unfoldable pub allocated : ℕ → FdafConfig S → Fdaf S
  allocated n cfg =
      let z = f.of_ℕ 0 in
      let p_n = cfg.partitions in
      let bins = cfg.block_size + 1 in
      record {
        cfg = cfg;
        ref = record { input = replicate n z; u = replicate p_n (replicate n z); head = 0 };
        h = replicate p_n (replicate n z);
        power = replicate bins z;
        coherence = record {
          s_cross = replicate p_n (replicate n z);
          s_uu = replicate p_n (replicate bins z);
          s_ee = replicate bins z;
          ipc = z;
          transient = false;
          ee_weight = z;
        };
        adapting = true;
        watchdog = 0;
      }

  -- The constructor.
  unfoldable pub new_fdaf : ⦃t : Fft S⦄ → FdafConfig S → Result FdafError (Fdaf S)
  new_fdaf config = validated config >>= λ cfg.
      checked_fft_size S (2 * cfg.block_size) bad_fft_size >>= λ n. ok (reset (allocated n cfg))

  unfoldable pub set_step_size : S → Fdaf S → Fdaf S
  set_step_size mu s = record s { cfg = record s.cfg { step_size = mu } }

  unfoldable pub set_adaptation : Bool → Fdaf S → Fdaf S
  set_adaptation enabled s = record s { adapting = enabled }

  -- watchdog_trip(): the filter after it, and the two outputs.
  unfoldable pub watchdog_trip : Fdaf S → Fdaf S × (List S × List S)
  unfolding reset
  watchdog_trip s =
      let silence = replicate s.cfg.block_size (f.of_ℕ 0) in
      (record (reset s) { watchdog = inc s.watchdog }, (silence, silence))

module _ {S : Type 0} (D : Type 0) ⦃f : Float S⦄ ⦃d : Float D⦄ ⦃c : Cast S D⦄ ⦃t : Fft S⦄ where
  -- The spectrum of the error block behind a block of zeros.
  abbrev pub error_spectrum : ℕ → List S → List S
  error_spectrum b error = t.forward (replicate b (f.of_ℕ 0) ++ error)

  -- The rest of an adapting block.
  unfoldable pub adapt : List S → Fdaf S → Fdaf S
  adapt espec s =
      let coherence = update_ipc D s.cfg espec s.ref s.coherence in
      let (power, mean_power) = smooth_power s.cfg s.ref.u s.power in
      let held = coherence.transient || f.lt coherence.ipc s.cfg.ipc_freeze_threshold in
      record s {
        coherence = coherence;
        power = power;
        h = if held then s.h else adapt_filter s.cfg coherence.ipc espec power mean_power s.ref s.h;
      }

  -- process_block(): the filter after it, and the error and the estimate.
  unfoldable pub process_block : List S → List S → Fdaf S → Fdaf S × (List S × List S)
  unfolding watchdog_trip adapt
  process_block ins desired s =
      let b = s.cfg.block_size in
      let ref = take_block b s.cfg.partitions ins s.ref in
      let y = estimate b s.cfg.partitions s.h ref in
      let error = subtract desired y in
      let taken = record s { ref = ref } in
      let espec = error_spectrum b error in
      if not s.adapting
      then (if not (finite_power (sum_of_squares (f.of_ℕ 0) error))
          then watchdog_trip taken
          else (taken, (error, y)))
      else if not (finite_power (at espec 0))
      then watchdog_trip taken
      else (adapt espec taken, (error, y))

-- copy_impulse_response().
unfoldable pub impulse_response : {S : Type 0} ⦃t : Fft S⦄ → ℕ → List (List S) → List S
impulse_response b [] = []
impulse_response ⦃t⦄ b (h ∷ hs) = take b (t.inverse h) ++ impulse_response b hs
