-- ===== src/Guard/Session.antt =====
-- The guard's construction, reset and soundcheck (include/mutap/howl_guard.h: validated(), the
-- constructor, reset, calibrate_begin, calibrate_end, apply, accumulate).
use mu_tap.Common.{
  ℕ, ◌==◌, Bool, true, false, not, ◌&&◌, List, [], ◌∷◌, none, length, replicate, if◌then◌else◌,
  Result, ok, err, ◌>>=◌,
}
use mu_tap.Common.Float.{Float, Cast}
use mu_tap.Detector.Types.{HowlDetector, DetectorConfig}
use mu_tap.Detector.Block as Block
use mu_tap.Detector.Setup.{DetectorError, new_detector}
use mu_tap.Guard.Types.{GuardPolicy, GuardCalibration, Settings, new_mic}
use mu_tap.Guard.Machine.{arming_db}
use mu_tap.Guard.Ramp.{db_to_lin}
use mu_tap.Guard.Policy.{clamped, settings_of, ticks}
use mu_tap.Guard.Calibration.{Histogram, k_d_bins, k_a_bins, calibrate_mic}
use mu_tap.Guard.Operations.{Channel, HowlGuard, reset_mic, follow_policy, on_mics}

pub data GuardError : Type 0 where
  no_microphones bad_block bad_rate : GuardError
  bad_detector : DetectorError → GuardError

-- howl_guard::config.
pub record GuardConfig (S D : Type 0) : Type 0 where
  pub microphones : ℕ
  pub block_size : ℕ
  pub sample_rate : D
  pub detector : DetectorConfig S D
  pub policy : GuardPolicy D

module _ {D : Type 0} ⦃d : Float D⦄ where
  open d use {of_ℕ, dec, neg}

  -- guard_policy{}: the defaults.
  unfoldable pub default_policy : GuardPolicy D
  default_policy = record {
    d_db = neg (dec 1235 3);
    a_db = neg (dec 23842 3);
    trip_hold_s = dec 3 1;
    release_hold_s = dec 15 1;
    quiet_s = of_ℕ 1;
    arming_duck_db = of_ℕ 30;
    arming_timeout_s = of_ℕ 10;
    duck_db = of_ℕ 20;
    attack_ms = of_ℕ 5;
    release_ramp_ms = of_ℕ 200;
    rearm_timeout_s = of_ℕ 5;
    probation_s = of_ℕ 10;
    strike_db = of_ℕ 3;
    max_strikes = 3;
    strike_decay_s = of_ℕ 60;
    attrib_db = of_ℕ 6;
    restart_a_db = neg (of_ℕ 1);
    calibrate_s = of_ℕ 30;
    cal_d_margin_db = of_ℕ 4;
    cal_a_margin_db = of_ℕ 3;
    cap_db = none;
    lost_in_probation_strikes = true;
  }

  -- guard_calibration{}.
  unfoldable pub no_calibration : GuardCalibration D
  no_calibration = record {
    blocks = 0;
    d_median_db = of_ℕ 0;
    d_p95_db = of_ℕ 0;
    d_max_db = of_ℕ 0;
    a_median_db = of_ℕ 0;
    a_p95_db = of_ℕ 0;
    a_max_db = of_ℕ 0;
    d_db = of_ℕ 0;
    a_db = of_ℕ 0;
    applied = false;
  }

abbrev pub empty_histogram : Histogram
empty_histogram = record { d_bins = replicate k_d_bins 0; a_bins = replicate k_a_bins 0 }

module _ {S D : Type 0} ⦃f : Float S⦄ where
  unfoldable pub reset_channels : Settings S → List (Channel S D) → List (Channel S D)
  reset_channels c [] = []
  reset_channels c (ch ∷ chs) =
      record ch { detector = Block.reset ch.detector; mic = reset_mic c ch.mic }
      ∷ reset_channels c chs

  -- reset(): every mic to ARMING as constructed.
  unfoldable pub reset : HowlGuard S D → HowlGuard S D
  unfolding reset_channels
  reset g =
      let gl = db_to_lin (arming_db g.settings) in
      record g {
        channels = reset_channels g.settings g.channels;
        gain = replicate (length g.channels) (replicate g.block gl);
        bus_gain = replicate g.block (f.of_ℕ 1);
        episode = record g.episode { active = false; fallbacks = 0 };
      }

module _ {S D : Type 0} ⦃f : Float S⦄ ⦃d : Float D⦄ ⦃c : Cast S D⦄ where
  unfoldable pub begin_channels : List (Channel S D) → List (Channel S D)
  begin_channels [] = []
  begin_channels (ch ∷ chs) =
      record ch { histogram = empty_histogram; calibration = no_calibration } ∷ begin_channels chs

  unfoldable pub calibrate_begin : HowlGuard S D → HowlGuard S D
  unfolding begin_channels
  calibrate_begin g = record g {
    channels = begin_channels g.channels;
    cal_left = ticks g.tick_s g.policy.calibrate_s;
    sampling = true;
  }

  unfoldable pub end_channels : Bool → GuardPolicy D → List (Channel S D) → List (Channel S D)
  end_channels apply p [] = []
  end_channels apply p (ch ∷ chs) =
      let (m, cal) = calibrate_mic apply p ch.mic ch.histogram ch.calibration in
      record ch { mic = m; calibration = cal } ∷ end_channels apply p chs

  unfoldable pub calibrate_end : Bool → HowlGuard S D → HowlGuard S D
  unfolding end_channels
  calibrate_end apply g = record g {
    sampling = false;
    channels = end_channels apply g.policy g.channels;
  }

  unfoldable pub validated : GuardConfig S D → Result GuardError (GuardConfig S D)
  validated cfg =
      if cfg.microphones == 0
      then err no_microphones
      else if cfg.block_size == 0
      then err bad_block
      else if not (d.is_finite cfg.sample_rate && d.lt (d.of_ℕ 0) cfg.sample_rate)
      then err bad_rate
      else ok cfg

  new_channel : HowlDetector S D → Channel S D
  new_channel t = record {
    mic = new_mic;
    detector = t;
    histogram = empty_histogram;
    calibration = no_calibration;
  }

  built : GuardConfig S D → HowlDetector S D → HowlGuard S D
  unfolding new_channel
  built cfg t =
      let tick_s = d.div (d.of_ℕ cfg.block_size) cfg.sample_rate in
      let p = clamped cfg.policy default_policy in
      let s = settings_of cfg.sample_rate tick_s p in
      reset (record {
        block = cfg.block_size;
        rate = cfg.sample_rate;
        tick_s = tick_s;
        det_cfg = t.cfg;
        channels = on_mics (follow_policy s) (replicate cfg.microphones (new_channel t));
        gain = replicate cfg.microphones (replicate cfg.block_size (f.of_ℕ 0));
        bus_gain = replicate cfg.block_size (f.of_ℕ 0);
        policy = p;
        settings = s;
        cal_left = 0;
        sampling = false;
        episode = record { active = false; age = 0; quiet = 0; fallbacks = 0 };
      })

  detector_of : GuardConfig S D → Result GuardError (HowlDetector S D)
  detector_of cfg =
      elim (new_detector
        (record cfg.detector { block_size = cfg.block_size; sample_rate = cfg.sample_rate })) [
          | ok t ↦ ok t
          | err e ↦ err (bad_detector e)
        ]

  -- The constructor: the same detector for each mic.
  unfoldable pub new_guard : GuardConfig S D → Result GuardError (HowlGuard S D)
  unfolding validated detector_of built
  new_guard cfg = validated cfg >>= λ v. detector_of v >>= λ t. ok (built v t)
