-- ===== src/Tests/ReverbCases.antt =====
-- The reverb slot's and the spectral reverb's theorems at concrete inputs.
use mu_tap.Common.{ℕ, ◌≡◌, refl, arith, List, [], ◌∷◌, some, length, replicate, ok}
use mu_tap.Common.Float.{Fixed, fixed_float}
use mu_tap.Reverb.{Reverb, ReturnCore, MixConfig, mid, new_core, set_wet, set_return_mode}
use mu_tap.Tail.{SpectralReverb}
use mu_tap.Tail.Shape.{from_path}
use mu_tap.Tail.Blocks.{process_block, process_block-fills}
use mu_tap.Tests.Data.{num, summing_fft}

-- A reverb of two channels that gives its input, and counts the samples.
instance abbrev echo : Reverb ℕ Fixed
echo = record {
  process = λ xs count n. (n, λ c. xs);
  num_outputs = λ n. some 2;
  num_inputs = λ n. some 1;
}

abbrev core : ReturnCore ℕ Fixed
core = record { reverb = 0; block = 2; channels = 2; wet = num 1; dry = num 0; mode = mid }

abbrev samples : List Fixed
samples = num 1 ∷ num 2 ∷ num 3 ∷ num 4 ∷ num 5 ∷ []

abbrev settings : MixConfig Fixed
settings = record { block_size = 2; channels = 2; wet = num 1; mode = mid }

accepts : new_core 0 settings ≡ ok core
unfolding new_core set_wet set_return_mode
accepts = refl

abbrev spectral : SpectralReverb Fixed
spectral = record {
  cfg = record {
    block_size = 2;
    sample_rate = num 48_000;
    rt60 = num 1;
    wet = num 1;
    shaping = from_path;
    shape = num 1;
    shape_min = num 1;
    shape_max = num 4;
  };
  analysis = replicate 4 (num 1);
  state = record {
    frame = replicate 4 (num 0);
    tail = replicate 4 (num 0);
    poles = replicate 4 (num 0);
  };
  bins = record { decay = replicate 3 (num 1); wet = replicate 3 (num 1) };
}

process_block-fills_example :
    (r : SpectralReverb Fixed × List Fixed) × (process_block 6 samples spectral ≡ some r)
    × (length r.1 ≡ 5)
    × (r.0.cfg ≡ spectral.cfg)
process_block-fills_example =
    process_block-fills 6 samples spectral (omega arith) (omega arith) (omega arith)
