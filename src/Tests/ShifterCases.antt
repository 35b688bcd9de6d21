-- ===== src/Tests/ShifterCases.antt =====
-- The frequency shifter's theorem at a concrete input.
use mu_tap.Common.{◌≡◌, ◌<◌, arith, List, [], ◌∷◌, length, some}
use mu_tap.Common.Float.{Fixed, fixed_float}
use mu_tap.Shifter.{Section, FrequencyShifter, k_renorm_interval, shift_block}
use mu_tap.Shifter.Process.{shift_block-returns}
use mu_tap.Tests.Data.{num}

abbrev section : Section Fixed
section = record { c2 = num 1; in0 = num 0; in1 = num 0; out0 = num 0; out1 = num 0 }

-- One sample before a renormalisation.
abbrev shifter : FrequencyShifter Fixed Fixed
shifter = record {
  cfg = record { sample_rate = num 48_000; shift_hz = num 5 };
  rate = num 48_000;
  hilbert = record { re_chain = section ∷ []; im_chain = section ∷ []; im_delay = num 0 };
  cos = num 1;
  sin = num 0;
  step_cos = num 1;
  step_sin = num 0;
  since_renorm = 63;
}

abbrev samples : List Fixed
samples = num 1 ∷ num 2 ∷ num 3 ∷ []

shift_block-returns_example :
    (r : FrequencyShifter Fixed Fixed × List Fixed) × (shift_block samples shifter ≡ some r)
    × (length r.1 ≡ 3)
    × (r.0.since_renorm < k_renorm_interval)
unfolding k_renorm_interval
shift_block-returns_example = shift_block-returns samples shifter (omega arith)
