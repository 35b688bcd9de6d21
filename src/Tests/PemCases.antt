-- ===== src/Tests/PemCases.antt =====
-- The feedback canceller's, the Kalman filter's and the preset's theorems at concrete inputs.
use mu_tap.Common.{
  max, size_mod, ◌*◌, ◌<◌, inc, ◌⊎◌, ◌+◌, min, ℕ, ◌≡◌, ◌≤◌, ◌<◌, refl, arith, true, false, List, [],
  ◌∷◌, none, replicate, ok,
}
use mu_tap.Common.Float.{Fixed, fixed_float, fixed_cast}
use mu_tap.Spectrum.{Reference, take_block, copy_block, estimate, subtract, sum_of_squares, lagged}
use mu_tap.Predictor.Lpc.{LpcPredictor}
use mu_tap.Fdaf
use mu_tap.Fdaf.{Fdaf}
use mu_tap.Pem
use mu_tap.Pem.{Pem, NearEnd, Shadow}
use mu_tap.Pem.Cores.{fdaf_core, pair_value, cleared, fdaf_core-trips}
use mu_tap.Kalman
use mu_tap.Kalman.Types.{KalmanConfig, Fdkf}
use mu_tap.Kalman.Narrowband.{is_narrow, count_narrow, count_narrow-bounds}
use mu_tap.Kalman.Watchdog.{IsHeard, checked_value, copy_block-take_block, process_block-resets}
use mu_tap.Preset
use mu_tap.Preset.{PemPreset, speech_preset, FitsWindows, speech_preset-FitsWindows}
use mu_tap.Tests.CancellerCases.{filter, filter-IsSized, sound, faulty, row}
use mu_tap.Tests.Data.{num, summing_fft, summing_fft-IsSizedFft}

-- A shadow that gives the microphone.
instance abbrev no_shadow : Shadow ℕ Fixed
no_shadow = record { process = λ u y k. (k, y); clear = λ k. k }

instance abbrev near_end : NearEnd (LpcPredictor Fixed) (List Fixed) Fixed
near_end = record {
  make_state = λ p. num 0 ∷ [];
  reset_state = λ p s. num 0 ∷ [];
  analyze = λ window p. p;
  apply = λ p ins s. (s, ins);
}

abbrev canceller : Pem (Fdaf Fixed) (LpcPredictor Fixed) (List Fixed) ℕ Fixed
canceller = record {
  cfg = record {
    block_size = 4;
    partitions = 2;
    analysis_window = 8;
    shadow_partitions = 0;
    shadow_transition = num 1;
    shadow_smoothing = num 0;
  };
  core = filter;
  predictor = record {
    cfg = record { order = 1; ridge = num 1 };
    a = num 1 ∷ num 0 ∷ [];
    r = num 0 ∷ num 0 ∷ [];
  };
  u_state = num 0 ∷ [];
  y_state = num 0 ∷ [];
  ref = record { input = row; u = row ∷ row ∷ []; head = 1 };
  e_window = row;
  echo = replicate 4 (num 0);
  shadow = none;
  pm = num 0;
  ps = num 0;
  watchdog = 5;
}

pair-unsound : fixed_float.is_finite (pair_value Fixed sound faulty canceller) ≡ false
unfolding take_block subtract estimate
pair-unsound = refl

fdaf_core-trips_example :
    let (after, e) = Pem.process_block ⦃k = fdaf_core Fixed⦄ sound faulty canceller in
    (after
      ≡ cleared Fixed sound faulty canceller (record (Fdaf.reset filter) { watchdog = inc 3 }) 2)
    × (e ≡ replicate 4 (num 0))
fdaf_core-trips_example =
    fdaf_core-trips Fixed sound faulty canceller summing_fft-IsSizedFft filter-IsSized refl
      pair-unsound

abbrev kalman_settings : KalmanConfig Fixed
kalman_settings = record {
  block_size = 4;
  partitions = 2;
  transition = num 1;
  noise_smoothing = num 0;
  initial_uncertainty = num 1;
  initial_uncertainty_decay = num 1;
  regularization = num 1;
  constrained = true;
  transient_floor_ratio = num 0;
  novelty_smoothing = num 0;
  novelty_floor = num 0;
  narrowband_guard = num 1;
  narrowband_hold_blocks = 3;
}

abbrev reference : Reference Fixed
reference = record { input = row; u = row ∷ row ∷ []; head = 1 }

abbrev kalman : Fdkf Fixed
kalman = record {
  cfg = kalman_settings;
  ref = reference;
  h = row ∷ row ∷ [];
  p = replicate 5 (num 1) ∷ replicate 5 (num 1) ∷ [];
  psi_s = replicate 5 (num 0);
  novelty = record {
    coh_num = replicate 10 (num 0);
    coh_den = replicate 5 (num 0);
    nov = replicate 5 (num 1);
  };
  nb_count = 2;
  adapting = true;
  p0_sum = num 10;
  watchdog = 7;
}

kalman-IsHeard : IsHeard kalman
kalman-IsHeard = ((refl, (refl, (refl, (refl, tt))), omega arith), (refl, refl, refl))

kalman-unsound : fixed_float.is_finite (checked_value sound faulty kalman) ≡ false
unfolding subtract sum_of_squares estimate Kalman.hear count_narrow
kalman-unsound = refl

process_block-resets_example : Kalman.process_block sound faulty kalman ≡ (
  record (Kalman.reset kalman) { watchdog = inc 7 },
  (replicate 4 (num 0), replicate 4 (num 0)),
)
process_block-resets_example =
    process_block-resets sound faulty kalman refl summing_fft-IsSizedFft kalman-IsHeard
      kalman-unsound

copy_block-take_block_example : copy_block 4 2 sound reference ≡ take_block 4 2 sound reference
copy_block-take_block_example = copy_block-take_block 4 2 sound reference refl refl

count_narrow-bounds_example :
    (count_narrow kalman_settings reference 3 ≤ 3)
    × (count_narrow kalman_settings reference 3 ≤ 4)
    × (((is_narrow kalman_settings (lagged 2 1 reference.u 0) ≡ true)
          × (count_narrow kalman_settings reference 3 ≡ min 4 3))
        ⊎ ((is_narrow kalman_settings (lagged 2 1 reference.u 0) ≡ false)
            × (count_narrow kalman_settings reference 3 + count_narrow kalman_settings reference 3
                ≤ 3)
            × (count_narrow kalman_settings reference 3 < 3)))
count_narrow-bounds_example =
    count_narrow-bounds kalman_settings reference 3 (omega arith) (omega arith) refl

abbrev preset : PemPreset Fixed
preset = record {
  pem = record {
    block_size = 64;
    partitions = 4;
    analysis_window = 128;
    shadow_partitions = 2;
    shadow_transition = fixed_float.dec 999 3;
    shadow_smoothing = fixed_float.neg (num 0);
  };
  min_lag = 32;
  max_lag = 400;
  analysis_capacity = 800;
}

preset-built : speech_preset 64 4 (num 48_000) ≡ ok preset
unfolding speech_preset Preset.analysis_window Preset.lag Preset.window_blocks size_mod
preset-built = refl

preset-room : max 2 (Preset.window_blocks 64 (Preset.window_samples (num 48_000))) * 64 < size_mod
unfolding Preset.window_blocks size_mod
preset-room = omega arith

speech_preset-FitsWindows_example :
    FitsWindows preset × (preset.pem.block_size ≡ 64) × (preset.pem.partitions ≡ 4)
speech_preset-FitsWindows_example =
    speech_preset-FitsWindows 64 4 (num 48_000) preset preset-built preset-room
