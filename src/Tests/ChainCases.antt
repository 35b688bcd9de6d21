-- ===== src/Tests/ChainCases.antt =====
-- The chain's theorems at concrete inputs: cancellers that take the reference from the mic, a reverb
-- that is attached first, and a block of two samples.
use mu_tap.Common.{
  ℕ, ◌+◌, size_mod, ◌≡◌, refl, arith, List, [], ◌∷◌, ◌++◌, length, take, replicate, none, some, ok,
  true,
}
use mu_tap.Common.Float.{Fixed, fixed_float, fixed_cast}
use mu_tap.Chain.Types.{
  Canceller, Stage, ChainConfig, AfcChain, built, new_chain, validated, reset_chain, fill_zero,
  set_reverb,
}
use mu_tap.Chain.Ring.{advance, first_run, copy_out, ring_read, ring_write}
use mu_tap.Chain.Process.{
  mix_all, plain_sum, sum_bus, speaker, run_stage, cancel_all, stages, emit, process_one,
  process_block,
}
use mu_tap.Chain.Process.Reference.{IsSized, Fits, begin, block, host, reverb}
use mu_tap.Chain.Process.Output
use mu_tap.Chain.Process.Output.{output-lag}
use mu_tap.Chain.Process.Blocks.{process_block-returns}
use mu_tap.Tests.Data.{num}

abbrev subtract : List Fixed → List Fixed → List Fixed
subtract [] ys = ys
subtract (u ∷ us) [] = []
subtract (u ∷ us) (y ∷ ys) = fixed_float.sub y u ∷ subtract us ys

-- A canceller that counts its blocks and subtracts the reference.
instance abbrev fixed_canceller : Canceller ℕ Fixed
fixed_canceller = record {
  block_size = 2;
  filter_length = 2;
  fresh = 0;
  process = λ u y n. (n + 1, subtract u y);
  clear = λ n. 0;
  adapt = λ on n. n;
  impulse_response = λ n. num n ∷ num 3 ∷ [];
  uncertainty_ratio = λ n. num 1;
  shadow_residual_ratio = λ n. num 1;
  shadow_enabled = λ n. true;
}

instance abbrev fixed_stage : Stage ℕ Fixed
fixed_stage = record { run = λ bus n. (n + 1, bus) }

abbrev chain_config : ChainConfig Fixed
chain_config = record {
  microphones = 1;
  reference_delay_samples = 1;
  output_delay_samples = 0;
  sample_rate = num 48_000;
}

abbrev start : AfcChain ℕ ℕ Fixed Fixed
start = built chain_config

start_lem : new_chain {C = ℕ} {T = ℕ} {S = Fixed} chain_config ≡ ok start
unfolding new_chain validated
start_lem = refl

fits : Fits 2 chain_config
unfolding size_mod
fits = (omega arith, omega arith)

abbrev mic : List (List Fixed)
mic = (num 4 ∷ num 5 ∷ []) ∷ []

-- The chain after one block.
abbrev after_block : AfcChain ℕ ℕ Fixed Fixed
after_block = record start {
  cancellers = 1 ∷ [];
  u = num 0 ∷ num 0 ∷ [];
  e = mic;
  out_ring = num 4 ∷ num 5 ∷ [];
  ref_ring = num 4 ∷ num 5 ∷ num 0 ∷ [];
  ref_pos = 2;
  reverb = some 4;
}

first_block :
    process_one mic none (set_reverb (some 3) start) ≡ some (after_block, num 4 ∷ num 5 ∷ [])
unfolding set_reverb built reset_chain fill_zero process_one cancel_all sum_bus plain_sum mix_all
    stages run_stage emit speaker ring_read ring_write first_run copy_out advance size_mod
first_block = refl

output-lag_example : num 4 ∷ num 5 ∷ [] ≡ take 2 (replicate 0 (num 0) ++ (num 4 ∷ num 5 ∷ []))
unfolding cancel_all ring_read first_run copy_out built reset_chain fill_zero sum_bus plain_sum
    mix_all run_stage set_reverb size_mod
output-lag_example =
    output-lag chain_config start after_block (num 4 ∷ num 5 ∷ []) (num 4 ∷ num 5 ∷ [])
      (omega arith) fits start_lem
      (Output.block mic (num 4 ∷ num 5 ∷ []) (Output.host Output.begin (reverb (some 3)))
        first_block refl refl)

abbrev long_mic : List (List Fixed)
long_mic = (num 4 ∷ num 5 ∷ num 6 ∷ []) ∷ []

process_block-returns_example :
    (r : AfcChain ℕ ℕ Fixed Fixed × List Fixed) × (process_block 3 long_mic none after_block
      ≡ some r)
    × IsSized r.0
    × (length r.1 ≡ 3)
unfolding built reset_chain fill_zero size_mod
process_block-returns_example =
    process_block-returns 3 long_mic none after_block refl
      (record {
        block_positive = omega arith;
        ref_size = refl;
        out_size = refl;
        ref_inside = omega arith;
        out_inside = omega arith;
      })
      tt
