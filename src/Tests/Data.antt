-- ===== src/Tests/Data.antt =====
-- Test data: settings, mics, a detector and a guard over whole numbers.
use mu_tap.Common.{ℕ, true, false, some, List, [], ◌∷◌, ◌≡◌, refl, length}
use mu_tap.Spectrum.{Fft}
use mu_tap.Spectrum.Grid.{IsSizedFft}
use mu_tap.Common.Int.{pos, negsuc}
use mu_tap.Common.Float.{Fixed, fixed_float}
use mu_tap.Guard.Types.{opened, ducked, latched, Settings, MicState, new_mic}
use mu_tap.Guard.Session.{default_policy, no_calibration}
use mu_tap.Guard.Operations.{Channel, HowlGuard}
use mu_tap.Detector.Types.{DetectorConfig, DecisionParams, HowlDetector, Band, cleared}

abbrev pub num : ℕ → Fixed
num n = some (pos n)

-- -(n + 1).
abbrev pub minus : ℕ → Fixed
minus n = some (negsuc n)

-- The verdict is ok below -20; three ticks of every hold.
abbrev pub demo : Settings Fixed
demo = record {
  d_db = minus 1;
  a_db = minus 19;
  restart_db = minus 0;
  duck = num 20;
  strike = num 3;
  attrib = num 6;
  cap = minus 9;
  arming = minus 29;
  has_cap = true;
  trip_ticks = 3;
  release_ticks = 3;
  quiet_ticks = 2;
  timeout_ticks = 4;
  rearm_ticks = 2;
  probation_ticks = 5;
  decay_ticks = 6;
  window_ticks = 4;
  attack = 2;
  release = 6;
  max_strikes = 2;
  lost_in_probation_strikes = true;
}

-- A mic in DUCKED that is quiet, with one strike.
abbrev pub ducked_mic : MicState Fixed
ducked_mic = record (new_mic {S = Fixed}) {
  state = ducked;
  declared = true;
  strikes = 1;
  level = minus 2;
  a_db = minus 29;
  d_db = minus 9;
}

abbrev pub open_mic : MicState Fixed
open_mic = record (new_mic {S = Fixed}) {
  state = opened;
  declared = true;
  ok_seen = true;
  probation = 5;
  a_db = minus 29;
  d_db = minus 9;
  notok_run = 2;
}

abbrev pub latched_mic : MicState Fixed
latched_mic = record (new_mic {S = Fixed}) {
  state = latched;
  latched = true;
  timed_out = true;
  latch_notok = true;
  ok = true;
  ok_run = 5;
  since = 9;
  strikes = 2;
  floor = minus 9;
  a_db = minus 29;
  d_db = minus 9;
}

abbrev pub config : DetectorConfig Fixed Fixed
config = record {
  sample_rate = num 48_000;
  block_size = 3;
  bands = 3;
  f_lo_hz = num 150;
  f_hi_hz = num 16_000;
  q = num 1;
  attack_s = num 1;
  release_s = num 1;
  loop_period_s = num 1;
  growth_window_s = num 1;
  prominence_db = num 18;
  growth_db_per_pass = num 1;
  linearity_db = num 3;
  rise_db = num 20;
  level_catch = true;
  ceiling_db = num 6;
  level_db = num 25;
  level_prominence_db = num 18;
  program_s = num 4;
  hold_s = num 1;
}

abbrev pub params : DecisionParams Fixed
params = record {
  bands = 3;
  slots = 3;
  inv_others = num 1;
  prominence = num 18;
  growth_tick = num 1;
  linearity = num 3;
  rise = num 20;
  level_catch = true;
  ceiling_pow = num 50;
  level = num 1_000_000;
  level_prom = num 18;
  program_coef = num 0;
  hold_ticks = 2;
  conf_att = num 0;
  conf_rel = num 0;
  slope_w = minus 0 ∷ num 0 ∷ num 1 ∷ [];
}

abbrev pub band : Band Fixed
band = record {
  a1 = num 0;
  a2 = num 0;
  g = num 1;
  w1 = num 0;
  w2 = num 0;
  env = num 0;
  hz = num 150;
}

abbrev pub detector : HowlDetector Fixed Fixed
detector = record {
  cfg = config;
  bank = band ∷ band ∷ band ∷ [];
  partner = [];
  att = num 0;
  rel = num 0;
  pos = 0;
  block_sq = num 0;
  inv_block = num 1;
  ticks_per_s = num 1;
  ticks_per_pass = num 1;
  params = params;
  state = cleared 3 3;
}

abbrev pub channel_of : MicState Fixed → Channel Fixed Fixed
channel_of mic = record {
  mic = mic;
  detector = detector;
  histogram = record { d_bins = 0 ∷ []; a_bins = 0 ∷ [] };
  calibration = no_calibration;
}

abbrev pub guard : HowlGuard Fixed Fixed
guard = record {
  block = 3;
  rate = num 48_000;
  tick_s = num 1;
  det_cfg = config;
  channels = channel_of open_mic ∷ channel_of ducked_mic ∷ [];
  gain = [];
  bus_gain = [];
  policy = default_policy;
  settings = demo;
  cal_left = 0;
  sampling = false;
  episode = record { active = false; age = 0; quiet = 0; fallbacks = 0 };
}

abbrev total : Fixed → List Fixed → Fixed
total acc [] = acc
total acc (x ∷ xs) = total (fixed_float.add acc x) xs

-- A transform whose first slot is the sum, as a DC slot is, and which keeps the others.
abbrev pub sum_first : List Fixed → List Fixed
sum_first [] = []
sum_first (x ∷ xs) = total x xs ∷ xs

instance abbrev pub summing_fft : Fft Fixed
summing_fft = record { forward = sum_first; inverse = λ xs. xs; supports_size = λ n. true }

length-sum_first : (xs : List Fixed) → length (sum_first xs) ≡ length xs
length-sum_first [] = refl
length-sum_first (x ∷ xs) = refl

pub summing_fft-IsSizedFft : IsSizedFft summing_fft
summing_fft-IsSizedFft = (length-sum_first, λ xs. refl)
