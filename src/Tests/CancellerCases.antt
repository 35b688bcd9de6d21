-- ===== src/Tests/CancellerCases.antt =====
-- The cancellers' theorems at concrete inputs, one of them with a NaN.
use mu_tap.Common.{inc, ◌⊎◌, ◌≡◌, refl, arith, true, false, List, [], ◌∷◌, none, replicate, ok}
use mu_tap.Common.Float.{Fixed, fixed_float, fixed_cast}
use mu_tap.Spectrum.{take_block, estimate, subtract, checked_fft_size}
use mu_tap.Suppressor.Weights.{is_power}
use mu_tap.Fdaf
use mu_tap.Fdaf.{Fdaf, new_fdaf}
use mu_tap.Fdaf.Coherence.{FdafConfig, update_ipc}
use mu_tap.Fdaf.Watchdog.{IsSized, checked_value, process_block-trips}
use mu_tap.Fdaf.Fresh.{new_fdaf-reset}
use mu_tap.Fdaf.Gate.{IsUnit, update_ipc-IsUnit}
use mu_tap.Tests.Data.{num, summing_fft, summing_fft-IsSizedFft}

abbrev settings : FdafConfig Fixed
settings = record {
  block_size = 4;
  partitions = 2;
  step_size = num 1;
  regularization = num 1;
  power_smoothing = num 0;
  constrained = true;
  relative_regularization = num 0;
  ipc_smoothing = num 0;
  ipc_step_scaling = false;
  ipc_freeze_threshold = num 1;
  transient_freeze_ratio = num 0;
}

abbrev pub row : List Fixed
row = replicate 8 (num 0)

abbrev pub filter : Fdaf Fixed
filter = record {
  cfg = settings;
  ref = record { input = row; u = row ∷ row ∷ []; head = 1 };
  h = replicate 8 (num 1) ∷ row ∷ [];
  power = replicate 5 (num 0);
  coherence = record {
    s_cross = row ∷ row ∷ [];
    s_uu = replicate 5 (num 0) ∷ replicate 5 (num 0) ∷ [];
    s_ee = replicate 5 (num 0);
    ipc = num 0;
    transient = false;
    ee_weight = num 0;
  };
  adapting = true;
  watchdog = 3;
}

pub filter-IsSized : IsSized filter
filter-IsSized = (
  (refl, (refl, (refl, (refl, tt))), omega arith),
  (refl, (refl, (refl, tt))),
  refl,
  (refl, (refl, (refl, tt))),
  (refl, (refl, (refl, tt))),
  refl,
)

abbrev pub sound : List Fixed
sound = num 1 ∷ num 2 ∷ num 3 ∷ num 4 ∷ []

-- A block with a NaN.
abbrev pub faulty : List Fixed
faulty = num 1 ∷ none ∷ num 3 ∷ num 4 ∷ []

faulty-unsound : fixed_float.is_finite (checked_value Fixed sound faulty filter) ≡ false
unfolding take_block subtract estimate
faulty-unsound = refl

process_block-trips_example :
    Fdaf.process_block Fixed sound faulty filter
    ≡ (record (Fdaf.reset filter) { watchdog = inc 3 }, (replicate 4 (num 0), replicate 4 (num 0)))
process_block-trips_example =
    process_block-trips Fixed sound faulty filter summing_fft-IsSizedFft filter-IsSized
      faulty-unsound

abbrev fresh : Fdaf Fixed
fresh = Fdaf.reset (Fdaf.allocated 8 settings)

fresh-built : new_fdaf settings ≡ ok fresh
unfolding new_fdaf Fdaf.validated is_power checked_fft_size
fresh-built = refl

new_fdaf-reset_example :
    IsSized fresh
    × (fresh.cfg ≡ settings)
    × (fresh.adapting ≡ true)
    × (fresh.watchdog ≡ 0)
    × ((s : Fdaf Fixed)
        → s.cfg ≡ settings
        → IsSized s
        → Fdaf.reset s ≡ record fresh { adapting = s.adapting; watchdog = s.watchdog })
new_fdaf-reset_example = new_fdaf-reset settings fresh fresh-built

update_ipc-IsUnit_example :
    let ipc = (update_ipc Fixed settings (none ∷ row) filter.ref filter.coherence).ipc in
    (ipc ≡ num 0) ⊎ ((x : Fixed) × (ipc ≡ fixed_float.sqrt x) × IsUnit x)
update_ipc-IsUnit_example =
    update_ipc-IsUnit Fixed settings (none ∷ row) filter.ref filter.coherence
