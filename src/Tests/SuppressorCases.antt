-- ===== src/Tests/SuppressorCases.antt =====
-- The suppressor's theorems at a concrete model.
use mu_tap.Common.{
  ltb, ◌&&◌, Bool, length, ◌≤◌, size_mod, ℕ, zero, suc, ◌^◌, length-replicate, ◌≡◌, ◌<◌, refl,
  arith, true, List, [], take, ◌∷◌, ◌++◌, replicate, ok, All,
}
use mu_tap.Common.Float.{Fixed, fixed_float, fixed_cast}
use mu_tap.Suppressor.Weights.{
  geometry_of, Weights, parse, is_valid, mul_size, features, is_power, max_floats,
}
use mu_tap.Suppressor.Weights.RoundTrip.{
  IsWord, IsArray, IsImage, export, arrays, bytes_of, loaded, parse-export,
}
use mu_tap.Suppressor.Weights.Shape.{IsByte, IsShaped, parse-IsShaped}
use mu_tap.Suppressor.Bands.{log_energies, bin_powers}
use mu_tap.Suppressor.Engine
use mu_tap.Suppressor.Engine.{Network, NnSuppressor, infer}
use mu_tap.Suppressor.Engine.Independence.{block_gains, process_block-IsBlind}
use mu_tap.Tests.Data.{num, summing_fft}

-- The smallest geometry: one dense unit and one GRU unit over 4 bands.
abbrev tiny : Weights ℕ
tiny = record {
  geometry = record { sample_rate = 16_000; hop = 16; bands = 4; dense = 1; gru = 1 };
  dense_in_w = replicate 8 1_065_353_216;
  dense_in_b = replicate 1 0;
  gru_w_ih = replicate 3 1_056_964_608;
  gru_w_hh = replicate 3 0;
  gru_b_ih = replicate 3 0;
  gru_b_hh = replicate 3 1;
  dense_out_w = replicate 4 2;
  dense_out_b = replicate 4 3;
}

small : (w n : ℕ) → w < 2 ^ 32 → All IsWord (replicate n w)
small w zero h = tt
small w (suc n) h = (h, small w n h)

sized : (n w : ℕ) → w < 2 ^ 32 → n < 10 → IsArray (replicate n w)
unfolding max_floats
sized n w h few = (small w n h, omega (arith, length-replicate n w))

tiny-IsImage : IsImage tiny
tiny-IsImage = record {
  header = (omega arith, omega arith, omega arith, omega arith, omega arith);
  dense_in_w = sized 8 1_065_353_216 (omega arith) (omega arith);
  dense_in_b = sized 1 0 (omega arith) (omega arith);
  gru_w_ih = sized 3 1_056_964_608 (omega arith) (omega arith);
  gru_w_hh = sized 3 0 (omega arith) (omega arith);
  gru_b_ih = sized 3 0 (omega arith) (omega arith);
  gru_b_hh = sized 3 1 (omega arith) (omega arith);
  dense_out_w = sized 4 2 (omega arith) (omega arith);
  dense_out_b = sized 4 3 (omega arith) (omega arith);
}

tiny-is_valid : is_valid {D = Fixed} (loaded tiny) ≡ true
unfolding is_valid geometry_of is_power mul_size features size_mod
tiny-is_valid = refl

parse-export_example : parse {D = Fixed} (export tiny ++ 7 ∷ []) ≡ ok (loaded tiny)
parse-export_example = parse-export tiny (7 ∷ []) tiny-IsImage tiny-is_valid

abbrev below_256 : List ℕ → Bool
below_256 [] = true
below_256 (b ∷ bs) = ltb b 256 && below_256 bs

below_256-IsByte : (bs : List ℕ) → below_256 bs ≡ true → All IsByte bs
below_256-IsByte [] h = tt
below_256-IsByte (b ∷ bs) h = (ground arith, below_256-IsByte bs (ground arith))

tiny-below_256 : below_256 (export tiny ++ 7 ∷ []) ≡ true
unfolding export arrays bytes_of
tiny-below_256 = refl

tiny-short : length (export tiny ++ 7 ∷ []) ≤ 2 ^ 32
unfolding export arrays bytes_of
tiny-short = omega arith

parse-IsShaped_example :
    (is_valid {D = Fixed} (loaded tiny) ≡ true) × IsShaped {D = Fixed} (loaded tiny)
parse-IsShaped_example =
    parse-IsShaped (export tiny ++ 7 ∷ []) (loaded tiny)
      (below_256-IsByte (export tiny ++ 7 ∷ []) tiny-below_256) tiny-short
      (parse-export tiny (7 ∷ []) tiny-IsImage tiny-is_valid)

-- Layers whose gains are the first two features, which are the residual's.
instance abbrev layers : Network (List Fixed) Fixed
layers = record {
  dense_in = λ n xs. xs;
  step = λ xs n. xs;
  state = λ n. n;
  dense_out = λ n xs. take 2 xs;
  clear = λ n. [];
}

abbrev suppressor : NnSuppressor (List Fixed) Fixed
suppressor = record {
  hop = 2;
  noise = record {
    comfort_noise = true;
    floor_smoothing = num 0;
    floor_window = 2;
    floor_bias = num 1;
  };
  explained_smoothing = num 0;
  network = [];
  window = replicate 4 (num 1);
  rows = (num 1 ∷ num 0 ∷ num 0 ∷ []) ∷ (num 0 ∷ num 1 ∷ num 1 ∷ []) ∷ [];
  norms = replicate 3 (num 1);
  prev_e = replicate 2 (num 1);
  prev_yhat = replicate 2 (num 0);
  tail = replicate 2 (num 0);
  floor = record {
    floor = replicate 3 (num 0);
    min_cur = replicate 3 (num 5);
    min_prev = replicate 3 (num 5);
    min_count = 1;
  };
  rng = 625_341_585;
  syy = num 0;
  sdd = num 0;
}

abbrev residual : List Fixed
residual = num 3 ∷ num 4 ∷ []

abbrev loud : List Fixed
loud = num 100 ∷ num 100 ∷ []

abbrev quiet : List Fixed
quiet = num 0 ∷ num 0 ∷ []

same_gains :
    block_gains Fixed residual loud suppressor
    ≡ block_gains Fixed residual quiet
        (record suppressor { prev_yhat = loud; network = loud; syy = num 9; sdd = num 9 })
unfolding infer log_energies bin_powers
same_gains = refl

process_block-IsBlind_example :
    let other = record suppressor { prev_yhat = loud; network = loud; syy = num 9; sdd = num 9 } in
    let (next1, out1) = Engine.process_block Fixed residual loud suppressor in
    let (next2, out2) = Engine.process_block Fixed residual quiet other in
    (out1 ≡ out2)
    × (next1.tail ≡ next2.tail)
    × (next1.prev_e ≡ next2.prev_e)
    × (next1.floor ≡ next2.floor)
    × (next1.rng ≡ next2.rng)
process_block-IsBlind_example =
    process_block-IsBlind Fixed residual loud quiet loud loud (num 9) (num 9) suppressor same_gains
