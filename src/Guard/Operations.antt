-- ===== src/Guard/Operations.antt =====
-- The guard as the chain drives it (include/mutap/howl_guard.h: reset, clear, set_policy,
-- set_cap_db, on_cap_change, watchdog_trip, analyze, update, and the calibration entry points).
pub mod Valid
use mu_tap.Common.{
  ℕ, zero, suc, ◌+◌, ◌-◌, ◌==◌, min, Bool, true, false, not, ◌&&◌, ◌||◌, ltb, List, [], ◌∷◌, map,
  Option, none, some, replicate, length, modify, inc, dec, if◌then◌else◌,
}
use mathlib.Core.Option
use mu_tap.Common.Float.{Float, Cast, fmax}
use mu_tap.Detector.Types.{HowlTrigger, growth, ceiling, level, Band, HowlDetector, DetectorConfig}
use mu_tap.Detector.Loops.{at, level_of}
use mu_tap.Detector.Block.{process_block, envelopes}
use mu_tap.Detector.Block as Block
use mu_tap.Guard.Types.{
  GuardState, arming, releasing, latched, GuardPolicy, GuardCalibration, Settings, MicState,
  new_mic, k_big,
}
use mu_tap.Guard.Machine.{is_arming, saturate, enter, enter_arming, arming_db, step}
use mu_tap.Guard.Ramp.{db_to_lin, render}
use mu_tap.Guard.Attribution.{Reading, Episode, Mic, attribute}
use mu_tap.Guard.Policy.{clamped, settings_of, ticks}
use mu_tap.Guard.Calibration.{
  Histogram, k_d_bins, k_a_bins, sample_mic, calibrate_mic, set_thresholds,
}

abbrev pub is_latched : GuardState → Bool
is_latched latched = true
is_latched _ = false

abbrev pub is_growth : HowlTrigger → Bool
is_growth growth = true
is_growth _ = false

abbrev pub is_catch : HowlTrigger → Bool
is_catch ceiling = true
is_catch level = true
is_catch _ = false

-- One mic with its detector, its histograms and its calibration.
pub record Channel (S D : Type 0) : Type 0 where
  pub mic : MicState S
  pub detector : HowlDetector S D
  pub histogram : Histogram
  pub calibration : GuardCalibration D

pub record HowlGuard (S D : Type 0) : Type 0 where
  pub block : ℕ
  pub rate : D
  pub tick_s : D
  pub det_cfg : DetectorConfig S D
  pub channels : List (Channel S D)
  pub gain : List (List S)
  pub bus_gain : List S
  pub policy : GuardPolicy D
  pub settings : Settings S
  pub cal_left : ℕ
  pub sampling : Bool
  pub episode : Episode

module _ {S D : Type 0} where
  abbrev pub mics : List (Channel S D) → List (MicState S)
  mics [] = []
  mics (ch ∷ chs) = ch.mic ∷ mics chs

  -- A function over every mic state: `for (auto& s : m_mics)`.
  unfoldable pub on_mics : (MicState S → MicState S) → List (Channel S D) → List (Channel S D)
  on_mics g [] = []
  on_mics g (ch ∷ chs) = record ch { mic = g ch.mic } ∷ on_mics g chs

  unfoldable pub put_mics : List (MicState S) → List (Channel S D) → List (Channel S D)
  put_mics ms [] = []
  put_mics [] (ch ∷ chs) = ch ∷ chs
  put_mics (m ∷ ms) (ch ∷ chs) = record ch { mic = m } ∷ put_mics ms chs

module _ {S : Type 0} ⦃f : Float S⦄ where
  -- reset() of one mic, at the arming gain.
  unfoldable pub reset_mic : Settings S → MicState S → MicState S
  unfolding new_mic
  reset_mic c s =
      let g = arming_db c in
      record new_mic {
        d_thr = s.d_thr;
        a_thr = s.a_thr;
        own_thr = s.own_thr;
        watchdog = s.watchdog;
        cur = g;
        tgt = g;
        tgt_l = db_to_lin g;
        since = c.quiet_ticks;
      }

  -- clear() of one mic.
  unfoldable pub clear_mic : Settings S → MicState S → MicState S
  clear_mic c s =
      let t = record s {
        strikes = 0;
        level = f.of_ℕ 0;
        decay = 0;
        timed_out = false;
        latched = false;
      } in
      let u = if s.latched && is_latched s.state then enter c t releasing else t in
      if is_arming u.state then record u { in_state = 0 } else u

  -- on_cap_change() for one mic.
  unfoldable pub cap_changed : Settings S → MicState S → MicState S
  cap_changed c s =
      if not c.has_cap && not s.declared && not (is_arming s.state) then enter_arming c s else s

  -- The thresholds that derive() gives a mic without its own.
  unfoldable pub follow_policy : Settings S → MicState S → MicState S
  follow_policy c s = if s.own_thr then s else record s { d_thr = c.d_db; a_thr = c.a_db }

  unfoldable pub forget_thresholds : MicState S → MicState S
  forget_thresholds s = record s { own_thr = false; ok_seen = false }

  -- watchdog_trip() of one mic; the caller resets its detector.
  unfoldable pub watchdog_mic : Settings S → MicState S → MicState S
  watchdog_mic c s = record (enter_arming c (record s { watchdog = inc s.watchdog })) {
    a_db = f.of_ℕ 0;
    d_db = f.of_ℕ 0;
    ok = false;
  }

  -- The centre of band b (0 where there is none).
  unfoldable pub hz_at : ℕ → List (Band S) → S
  hz_at b [] = f.of_ℕ 0
  hz_at zero (r ∷ rs) = r.hz
  hz_at (suc b) (r ∷ rs) = hz_at b rs

module _ {S D : Type 0} ⦃f : Float S⦄ where
  -- analyze() after the detector has run: the watchdog, else the statistics in dB.
  unfoldable pub analyzed : Settings S → S → S → Channel S D → HowlDetector S D → Channel S D
  unfolding watchdog_mic
  analyzed c uncertainty shadow ch t =
      if f.is_finite (f.add (f.add t.state.power_db uncertainty) shadow)
      then record ch {
        detector = t;
        mic = record ch.mic {
          a_db = f.mul (f.of_ℕ 10) (f.log10 (fmax uncertainty f.min_normal));
          d_db = f.mul (f.of_ℕ 10) (f.log10 (fmax shadow f.min_normal));
        };
      }
      else record ch { detector = Block.reset t; mic = watchdog_mic c ch.mic }

  -- analyze() of one mic: `none` where the detector's loop would not end.
  unfoldable pub analyze : Settings S → List S → S → S → Channel S D → Option (Channel S D)
  analyze c e uncertainty shadow ch =
      Option.map (analyzed c uncertainty shadow ch) (process_block e ch.detector)

  -- update()'s first loop for one mic: the verdict, the raw trip, the hints and the quiet timer.
  unfoldable pub sense : DetectorConfig S D → HowlDetector S D → MicState S → MicState S
  sense cfg t s =
      let st = t.state in
      let ok = f.lt s.d_db s.d_thr && f.lt s.a_db s.a_thr in
      let grows = is_growth st.trigger in
      let hidden =
        f.le cfg.ceiling_db st.power_db
        || (f.le cfg.level_db st.level && f.le cfg.level_prominence_db st.prominence) in
      let catch_now = if grows && cfg.level_catch then hidden else is_catch st.trigger in
      record s {
        ok = ok;
        raw_trip = catch_now || (grows && not ok);
        trip = false;
        hints = if grows && ok && not catch_now then inc s.hints else s.hints;
        since = if st.raw then 0 else saturate s.since;
      }

  unfoldable pub sense_all : DetectorConfig S D → List (Channel S D) → List (Channel S D)
  unfolding sense
  sense_all cfg [] = []
  sense_all cfg (ch ∷ chs) = record ch { mic = sense cfg ch.detector ch.mic } ∷ sense_all cfg chs

  abbrev pub any_trip : List (Channel S D) → Bool
  any_trip [] = false
  any_trip (ch ∷ chs) = ch.mic.raw_trip || any_trip chs

  -- What attribute() reads of a detector.
  unfoldable pub reading_of : HowlDetector S D → Reading S
  reading_of t = record {
    power_db = t.state.power_db;
    peak_hz = hz_at t.state.peak_band t.bank;
    bands = map (λ r. record { hz = r.hz; level_db = level_of r.env }) t.bank;
  }

  unfoldable pub readings : List (Channel S D) → List (Mic S)
  unfolding reading_of
  readings [] = []
  readings (ch ∷ chs) = (ch.mic, reading_of ch.detector) ∷ readings chs

module _ {S D : Type 0} ⦃f : Float S⦄ ⦃d : Float D⦄ ⦃c : Cast S D⦄ where
  unfoldable pub sample_all : List (Channel S D) → List (Channel S D)
  sample_all [] = []
  sample_all (ch ∷ chs) =
      record ch { histogram = sample_mic D ch.mic ch.histogram } ∷ sample_all chs

  -- sample(), where the sampler runs.
  unfoldable pub sample : HowlGuard S D → HowlGuard S D
  unfolding sample_all
  sample g =
      let left = dec g.cal_left in
      if g.sampling
      then record g {
        channels = sample_all g.channels;
        cal_left = left;
        sampling = not (left == 0);
      }
      else g

  -- update().
  unfoldable pub update : HowlGuard S D → HowlGuard S D
  update g =
      let s = g.settings in
      let chs = sense_all g.det_cfg (sample g).channels in
      let (tripped, e) = attribute s (any_trip chs) (readings chs) g.episode in
      let r = render s g.block (map (step s) tripped) in
      record (sample g) {
        channels = put_mics r.mics chs;
        gain = r.gain;
        bus_gain = r.bus;
        episode = if e.active then record e { age = saturate e.age } else e;
      }

  -- derive() and on_cap_change() under a new policy.
  unfoldable pub adopt : GuardPolicy D → HowlGuard S D → HowlGuard S D
  adopt p g =
      let s = settings_of g.rate g.tick_s p in
      record g {
        policy = p;
        settings = s;
        channels = on_mics (cap_changed s) (on_mics (follow_policy s) g.channels);
      }

  unfoldable pub set_policy : GuardPolicy D → HowlGuard S D → HowlGuard S D
  set_policy p g = adopt (clamped p g.policy) g

  unfoldable pub set_cap_db : Option D → HowlGuard S D → HowlGuard S D
  set_cap_db cap g = adopt (clamped (record g.policy { cap_db = cap }) g.policy) g

  unfoldable pub clear : HowlGuard S D → HowlGuard S D
  clear g = record g { channels = on_mics (clear_mic g.settings) g.channels }

  unfoldable pub clear_calibration : HowlGuard S D → HowlGuard S D
  clear_calibration g = record g {
    channels = on_mics (follow_policy g.settings) (on_mics forget_thresholds g.channels);
  }

  -- set_thresholds() of a mic by its index, and calibrate_end(apply).
  unfoldable pub set_mic_thresholds : ℕ → D → D → HowlGuard S D → HowlGuard S D
  set_mic_thresholds i d_db a_db g = record g {
    channels = modify g.channels i (λ ch. record ch { mic = set_thresholds d_db a_db ch.mic });
  }
