-- ===== src/Detector/Setup.antt =====
-- The detector's construction and readouts (include/mutap/howl_detector.h: validated(),
-- nearest_band(), the constructor, and the readouts that the guard takes).
pub mod Valid
use mu_tap.Common.{
  ℕ, zero, suc, ◌+◌, ◌-◌, ◌*◌, ◌==◌, max, ◌≡◌, refl, Bool, true, false, not, ◌&&◌, ◌||◌, ltb, List,
  [], ◌∷◌, map, ◌++◌, length, replicate, get_or, if◌then◌else◌, Option, none, some, size_max,
  Result, ok, err, ◌>>=◌,
}
use mu_tap.Common.Float.{Float, Cast}
use mu_tap.Detector.Types.{HowlTrigger, Band, DetectorConfig, DecisionParams, HowlDetector, cleared}
use mu_tap.Detector.Loops.{at, level_of}
use mu_tap.Detector.Block.{k_env_floor, reset}

-- The std::invalid_argument that the constructor throws.
pub data DetectorError : Type 0 where
  bad_rate bad_block bad_bands bad_range bad_time bad_hold bad_window bad_threshold unstable :
      DetectorError

unfoldable pub k_none : ℕ
k_none = size_max

module _ {S : Type 0} ⦃f : Float S⦄ where
  abbrev pub is_positive : S → Bool
  is_positive t = f.is_finite t && f.lt (f.of_ℕ 0) t

  abbrev pub all_positive : List S → Bool
  all_positive [] = true
  all_positive (t ∷ ts) = is_positive t && all_positive ts

  abbrev pub all_finite : List S → Bool
  all_finite [] = true
  all_finite (t ∷ ts) = f.is_finite t && all_finite ts

  -- Poles of the rounded recursion inside the unit circle.
  unfoldable pub is_stable : Band S → Bool
  is_stable r = f.lt r.a2 (f.of_ℕ 1) && f.lt (f.abs r.a1) (f.add (f.of_ℕ 1) r.a2)

-- A resonator before the rest of the bank; the constructor throws where one is unstable.
unfoldable pub cons_if :
    {S : Type 0} → Bool → Band S → Option (List (Band S)) → Option (List (Band S))
cons_if true r (some rs) = some (r ∷ rs)
cons_if true r none = none
cons_if false r rest = none

module _ {D : Type 0} ⦃d : Float D⦄ where
  unfoldable pub nearest_band : D → D → D → ℕ → ℕ
  nearest_band x lo ratio nb =
      let pos = d.mul (d.div (d.log (d.div x lo)) (d.log ratio)) (d.of_ℕ (nb - 1)) in
      let idx = d.round pos in
      if d.lt idx (d.of_ℕ 0) || d.lt (d.of_ℕ (nb - 1)) idx then k_none else d.to_ℕ idx

  unfoldable pub sxx_from : ℕ → ℕ → D → D → D
  sxx_from zero k mean acc = acc
  sxx_from (suc n) k mean acc =
      let x = d.sub (d.of_ℕ k) mean in sxx_from n (k + 1) mean (d.add acc (d.mul x x))

module _ {S D : Type 0} ⦃f : Float S⦄ ⦃d : Float D⦄ ⦃c : Cast S D⦄ where
  open c use {to_sample, to_double}

  unfoldable pub rate_ok : DetectorConfig S D → Bool
  rate_ok cfg =
      d.is_finite cfg.sample_rate
      && f.is_finite (to_sample cfg.sample_rate)
      && d.lt (d.of_ℕ 0) cfg.sample_rate

  unfoldable pub range_ok : DetectorConfig S D → Bool
  range_ok cfg =
      f.is_finite cfg.f_lo_hz
      && f.is_finite cfg.f_hi_hz
      && f.lt (f.of_ℕ 0) cfg.f_lo_hz
      && f.lt cfg.f_lo_hz cfg.f_hi_hz
      && d.lt (to_double cfg.f_hi_hz) (d.mul (d.dec 5 1) cfg.sample_rate)

  unfoldable pub times_ok : DetectorConfig S D → Bool
  times_ok cfg =
      all_positive (cfg.q ∷ cfg.attack_s ∷ cfg.release_s ∷ cfg.loop_period_s ∷ cfg.program_s ∷ [])

  unfoldable pub hold_ok : DetectorConfig S D → Bool
  hold_ok cfg = f.is_finite cfg.hold_s && f.le (f.of_ℕ 0) cfg.hold_s

  unfoldable pub window_ok : DetectorConfig S D → Bool
  window_ok cfg =
      f.is_finite cfg.growth_window_s
      && d.le (d.mul (d.of_ℕ 3) (d.of_ℕ cfg.block_size))
          (d.mul (to_double cfg.growth_window_s) cfg.sample_rate)

  unfoldable pub thresholds_ok : DetectorConfig S D → Bool
  thresholds_ok cfg = all_finite (
      cfg.prominence_db ∷ cfg.growth_db_per_pass ∷ cfg.linearity_db ∷ cfg.rise_db ∷ cfg.ceiling_db
      ∷ cfg.level_db ∷ cfg.level_prominence_db ∷ [])

  unfoldable pub validated : DetectorConfig S D → Result DetectorError (DetectorConfig S D)
  validated cfg =
      if not (rate_ok cfg)
      then err bad_rate
      else if cfg.block_size == 0
      then err bad_block
      else if ltb cfg.bands 3
      then err bad_bands
      else if not (range_ok cfg)
      then err bad_range
      else if not (times_ok cfg)
      then err bad_time
      else if not (hold_ok cfg)
      then err bad_hold
      else if not (window_ok cfg)
      then err bad_window
      else if not (thresholds_ok cfg)
      then err bad_threshold
      else ok cfg

  -- Seconds per tick.
  unfoldable pub tick_of : DetectorConfig S D → D
  tick_of cfg = d.div (d.of_ℕ cfg.block_size) cfg.sample_rate

  -- Resonator b: faust-icc's bandpass by the bilinear transform.
  unfoldable pub resonator : DetectorConfig S D → ℕ → Band S
  resonator cfg b =
      let lo = to_double cfg.f_lo_hz in
      let ratio = d.div (to_double cfg.f_hi_hz) lo in
      let q = to_double cfg.q in
      let fc = d.mul lo (d.pow ratio (d.div (d.of_ℕ b) (d.of_ℕ (cfg.bands - 1)))) in
      let k = d.tan (d.div (d.mul d.pi fc) cfg.sample_rate) in
      let a0 = d.add (d.add (d.of_ℕ 1) (d.div k q)) (d.mul k k) in
      record {
        hz = to_sample fc;
        g = to_sample (d.div (d.div k q) a0);
        a1 = to_sample (d.div (d.mul (d.of_ℕ 2) (d.sub (d.mul k k) (d.of_ℕ 1))) a0);
        a2 = to_sample (d.div (d.add (d.sub (d.of_ℕ 1) (d.div k q)) (d.mul k k)) a0);
        w1 = f.of_ℕ 0;
        w2 = f.of_ℕ 0;
        env = k_env_floor;
      }

  -- The bank from band b on: `none` where a resonator would be unstable.
  unfoldable pub bank_from : ℕ → DetectorConfig S D → ℕ → Option (List (Band S))
  unfolding resonator is_stable cons_if
  bank_from zero cfg b = some []
  bank_from (suc n) cfg b =
      cons_if (is_stable (resonator cfg b)) (resonator cfg b) (bank_from n cfg (b + 1))

  unfoldable pub partners : DetectorConfig S D → List (Band S) → List ℕ
  unfolding nearest_band
  partners cfg [] = []
  partners cfg (r ∷ rs) =
      let lo = to_double cfg.f_lo_hz in
      let ratio = d.div (to_double cfg.f_hi_hz) lo in
      let hz = to_double r.hz in
      let near = λ (x : D). nearest_band x lo ratio cfg.bands in
      near (d.mul (d.of_ℕ 2) hz)
      ∷ near (d.mul (d.of_ℕ 3) hz)
      ∷ near (d.div hz (d.of_ℕ 2))
      ∷ near (d.div hz (d.of_ℕ 3))
      ∷ partners cfg rs

  -- The slope weights (k - mean) / sxx from k on.
  unfoldable pub weights_from : ℕ → ℕ → D → D → List S
  weights_from zero k mean sxx = []
  weights_from (suc n) k mean sxx =
      to_sample (d.div (d.sub (d.of_ℕ k) mean) sxx) ∷ weights_from n (k + 1) mean sxx

  unfoldable pub params_of : DetectorConfig S D → DecisionParams S
  unfolding tick_of weights_from sxx_from
  params_of cfg =
      let tick = tick_of cfg in
      let slots = max (d.to_ℕ (d.round (d.div (to_double cfg.growth_window_s) tick))) 3 in
      let hold = to_double cfg.hold_s in
      let decays = d.lt (d.of_ℕ 0) hold in
      let mean = d.mul (d.dec 5 1) (d.of_ℕ (slots - 1)) in
      let sxx = sxx_from slots 0 mean (d.of_ℕ 0) in
      record {
        bands = cfg.bands;
        slots = slots;
        inv_others = to_sample (d.div (d.of_ℕ 1) (d.of_ℕ (cfg.bands - 1)));
        prominence = cfg.prominence_db;
        growth_tick =
            to_sample
              (d.div (d.mul (to_double cfg.growth_db_per_pass) tick) (to_double cfg.loop_period_s));
        linearity = cfg.linearity_db;
        rise = cfg.rise_db;
        level_catch = cfg.level_catch;
        ceiling_pow = to_sample (d.pow (d.of_ℕ 10) (d.div (to_double cfg.ceiling_db) (d.of_ℕ 10)));
        level = cfg.level_db;
        level_prom = cfg.level_prominence_db;
        program_coef =
            to_sample (d.sub (d.of_ℕ 1) (d.exp (d.div (d.neg tick) (to_double cfg.program_s))));
        hold_ticks = d.to_ℕ (d.round (d.div hold tick));
        conf_att = if decays then to_sample (d.exp (d.div (d.neg tick) hold)) else f.of_ℕ 0;
        conf_rel =
            if decays
            then to_sample (d.exp (d.div (d.neg tick) (d.mul (d.of_ℕ 4) hold)))
            else f.of_ℕ 0;
        slope_w = weights_from slots 0 mean sxx;
      }

  -- The one-pole coefficient of an envelope time constant.
  unfoldable pub pole_of : DetectorConfig S D → S → S
  pole_of cfg time =
      to_sample (d.exp (d.div (d.neg (d.of_ℕ 1)) (d.mul (to_double time) cfg.sample_rate)))

  unfoldable pub built : DetectorConfig S D → List (Band S) → HowlDetector S D
  unfolding partners params_of pole_of
  built cfg bank =
      let p = params_of cfg in
      let tick = tick_of cfg in
      record {
        cfg = cfg;
        bank = bank;
        partner = partners cfg bank;
        att = pole_of cfg cfg.attack_s;
        rel = pole_of cfg cfg.release_s;
        pos = 0;
        block_sq = f.of_ℕ 0;
        inv_block = to_sample (d.div (d.of_ℕ 1) (d.of_ℕ cfg.block_size));
        ticks_per_s = to_sample (d.div (d.of_ℕ 1) tick);
        ticks_per_pass = to_sample (d.div (to_double cfg.loop_period_s) tick);
        params = p;
        state = cleared p.bands p.slots;
      }

  unfoldable pub of_bank :
      DetectorConfig S D → Option (List (Band S)) → Result DetectorError (HowlDetector S D)
  of_bank cfg none = err unstable
  of_bank cfg (some bank) = ok (built cfg bank)

  -- The constructor.
  unfoldable pub new_detector : DetectorConfig S D → Result DetectorError (HowlDetector S D)
  unfolding validated of_bank
  new_detector cfg = validated cfg >>= λ v. of_bank v (bank_from v.bands v 0)
