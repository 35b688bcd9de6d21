-- ===== src/Detector/Setup/Valid.antt =====
-- A detector that is constructed can run (include/mutap/howl_detector.h: validated() and the
-- constructor).
use mu_tap.Common.{
  ℕ, zero, suc, ◌+◌, ◌≤◌, ◌<◌, ◌≡◌, refl, ap, arith, Bool, true, false, List, length, subst, sym,
  Option, none, some, Result, ok, err, ◌>>=◌, ok-injective, All, passed, not, ltb, ◌==◌, [], ◌∷◌,
}
use mu_tap.Common.Float.{Float, Cast}
use mu_tap.Detector.Types.{Band, DetectorConfig, HowlDetector}
use mu_tap.Detector.Decide.Bounds.{IsSized, cleared-IsSized}
use mu_tap.Detector.Setup.{
  DetectorError, validated, rate_ok, range_ok, times_ok, hold_ok, window_ok, thresholds_ok,
  is_stable, resonator, cons_if, bank_from, params_of, weights_from, built, of_bank, new_detector,
}

module _ {S : Type 0} ⦃f : Float S⦄ where
  -- The rounded recursion of a resonator has its poles inside the unit circle: |a2| is below 1 on the
  -- upper side, and |a1| below 1 + a2.
  abbrev pub IsStable : Band S → Type 0
  IsStable r = (f.lt r.a2 (f.of_ℕ 1) ≡ true) × (f.lt (f.abs r.a1) (f.add (f.of_ℕ 1) r.a2) ≡ true)

  stable_lem : (r : Band S) → is_stable r ≡ true → IsStable r
  unfolding is_stable
  stable_lem r h = ground arith

  -- A bank that was built has n resonators, all stable.
  abbrev IsBank : ℕ → Option (List (Band S)) → Type 0
  IsBank n none = Unit
  IsBank n (some bank) = (length bank ≡ n) × All IsStable bank

  cons-IsBank :
      (n : ℕ) (b : Bool) (r : Band S) (rest : Option (List (Band S)))
      → is_stable r ≡ b
      → IsBank n rest
      → IsBank (suc n) (cons_if b r rest)
  unfolding cons_if
  cons-IsBank n true r none e h = tt
  cons-IsBank n true r (some bank) e (size, stable) = (ap suc size, (stable_lem r e, stable))
  cons-IsBank n false r rest e h = tt

module _ (S : Type 0) {D : Type 0} ⦃f : Float S⦄ ⦃d : Float D⦄ ⦃c : Cast S D⦄ where
  length-weights_from : (n k : ℕ) (mean sxx : D) → length (weights_from {S = S} n k mean sxx) ≡ n
  unfolding weights_from
  length-weights_from zero k mean sxx = refl
  length-weights_from (suc n) k mean sxx = ap suc (length-weights_from n (k + 1) mean sxx)

module _ {S D : Type 0} ⦃f : Float S⦄ ⦃d : Float D⦄ ⦃c : Cast S D⦄ where
  -- What the configuration of a detector satisfies: a finite positive rate, also as a Sample; a band
  -- range below half of it; positive finite times; a hold that is finite and not below 0; a growth
  -- window of at least three blocks; and finite thresholds.
  pub record IsAccepted (cfg : DetectorConfig S D) : Type 0 where
    pub rate : d.is_finite cfg.sample_rate ≡ true
    pub sample : f.is_finite (c.to_sample cfg.sample_rate) ≡ true
    pub positive_rate : d.lt (d.of_ℕ 0) cfg.sample_rate ≡ true
    pub low : f.lt (f.of_ℕ 0) cfg.f_lo_hz ≡ true
    pub range : f.lt cfg.f_lo_hz cfg.f_hi_hz ≡ true
    pub nyquist : d.lt (c.to_double cfg.f_hi_hz) (d.mul (d.dec 5 1) cfg.sample_rate) ≡ true
    pub times :
        All
          (λ x. (f.is_finite x ≡ true) × (f.lt (f.of_ℕ 0) x ≡ true))
          (cfg.q ∷ cfg.attack_s ∷ cfg.release_s ∷ cfg.loop_period_s ∷ cfg.program_s ∷ [])
    pub hold : (f.is_finite cfg.hold_s ≡ true) × (f.le (f.of_ℕ 0) cfg.hold_s ≡ true)
    pub window :
        d.le
          (d.mul (d.of_ℕ 3) (d.of_ℕ cfg.block_size))
          (d.mul (c.to_double cfg.growth_window_s) cfg.sample_rate)
        ≡ true
    pub thresholds :
        All
          (λ x. f.is_finite x ≡ true)
          (cfg.prominence_db ∷ cfg.growth_db_per_pass ∷ cfg.linearity_db ∷ cfg.rise_db
            ∷ cfg.ceiling_db ∷ cfg.level_db ∷ cfg.level_prominence_db ∷ [])

  validated-IsAccepted : (cfg v : DetectorConfig S D) → validated cfg ≡ ok v → IsAccepted cfg
  unfolding validated rate_ok range_ok times_ok hold_ok window_ok thresholds_ok
  validated-IsAccepted cfg v h =
      let (a, h1) = passed (not (rate_ok cfg)) _ h in
      let (b, h2) = passed (cfg.block_size == 0) _ h1 in
      let (g, h3) = passed (ltb cfg.bands 3) _ h2 in
      let (e, h4) = passed (not (range_ok cfg)) _ h3 in
      let (i, h5) = passed (not (times_ok cfg)) _ h4 in
      let (j, h6) = passed (not (hold_ok cfg)) _ h5 in
      let (k, h7) = passed (not (window_ok cfg)) _ h6 in
      let (l, h8) = passed (not (thresholds_ok cfg)) _ h7 in
      record {
        rate = ground (arith, a);
        sample = ground (arith, a);
        positive_rate = ground (arith, a);
        low = ground (arith, e);
        range = ground (arith, e);
        nyquist = ground (arith, e);
        times = ground (arith, i);
        hold = ground (arith, j);
        window = ground (arith, k);
        thresholds = ground (arith, l);
      }

  -- A detector ready to run: its configuration as it should be, its position inside a block, one
  -- resonator for each band, each stable, its arrays sized, and one slope weight for each slot of the
  -- ring.
  pub record IsReady (t : HowlDetector S D) : Type 0 where
    pub accepted : IsAccepted t.cfg
    pub pos_in_block : t.pos < t.cfg.block_size
    pub bank_size : length t.bank ≡ t.params.bands
    pub three_bands : 3 ≤ t.params.bands
    pub three_slots : 3 ≤ t.params.slots
    pub weight_size : length t.params.slope_w ≡ t.params.slots
    pub sized : IsSized t.params t.state
    pub stable : All IsStable t.bank

  bank_from-IsBank : (n : ℕ) (cfg : DetectorConfig S D) (b : ℕ) → IsBank n (bank_from n cfg b)
  unfolding bank_from
  bank_from-IsBank zero cfg b = (refl, tt)
  bank_from-IsBank (suc n) cfg b =
      cons-IsBank n _ (resonator cfg b) (bank_from n cfg (b + 1)) refl
        (bank_from-IsBank n cfg (b + 1))

  validated-ok :
      (cfg v : DetectorConfig S D)
      → validated cfg ≡ ok v
      → (v ≡ cfg) × (0 < cfg.block_size) × (3 ≤ cfg.bands)
  unfolding validated
  validated-ok cfg v h = ground arith

  params_of-sizes :
      (cfg : DetectorConfig S D)
      → let p = params_of {S = S} cfg in
        (p.bands ≡ cfg.bands) × (3 ≤ p.slots) × (length p.slope_w ≡ p.slots)
  unfolding params_of
  params_of-sizes cfg = (refl, omega arith, length-weights_from S _ 0 _ _)

  built-IsReady :
      (cfg : DetectorConfig S D) (bank : List (Band S))
      → 0 < cfg.block_size
      → 3 ≤ cfg.bands
      → IsAccepted cfg
      → (length bank ≡ cfg.bands) × All IsStable bank
      → IsReady (built cfg bank)
  unfolding built
  built-IsReady cfg bank block bands accepted (len, stable) =
      let p = params_of cfg in
      let (e, slots, weights) = params_of-sizes cfg in
      record {
        pos_in_block = block;
        bank_size = len;
        three_bands = bands;
        three_slots = slots;
        weight_size = weights;
        sized = cleared-IsSized p (omega (arith, e)) (omega arith);
        stable = stable;
        accepted = accepted;
      }

  -- Whatever the configuration, the constructor throws or returns a detector that is ready to run: of
  -- a rate, band range, times, hold, growth window and thresholds in their domains, with at least
  -- three bands and three ring slots, one resonator for each band, each with its poles inside the unit
  -- circle, every array at its size, and the position inside a block.
  pub new_detector-IsReady :
      (cfg : DetectorConfig S D) (t : HowlDetector S D) → new_detector cfg ≡ ok t → IsReady t
  unfolding new_detector
  new_detector-IsReady cfg t h = ready (validated cfg) refl h
    where
      bank_ready :
          (v : DetectorConfig S D) (bank : Option (List (Band S)))
          → 0 < v.block_size
          → 3 ≤ v.bands
          → IsAccepted v
          → IsBank v.bands bank
          → of_bank v bank ≡ ok t
          → IsReady t
      bank_ready v none block bands accepted len h = ground arith
      bank_ready v (some bank) block bands accepted len h =
          subst IsReady (ok-injective h) (built-IsReady v bank block bands accepted len)

      ready :
          (r : Result DetectorError (DetectorConfig S D))
          → validated cfg ≡ r
          → (r >>= λ v. of_bank v (bank_from v.bands v 0)) ≡ ok t
          → IsReady t
      ready (err e) v h = ground arith
      ready (ok v) e h =
          let (same, block, bands) = validated-ok cfg v e in
          bank_ready v (bank_from v.bands v 0)
            (subst (λ (k : DetectorConfig S D). 0 < k.block_size) (sym same) block)
            (subst (λ (k : DetectorConfig S D). 3 ≤ k.bands) (sym same) bands)
            (subst IsAccepted (sym same) (validated-IsAccepted cfg v e))
            (bank_from-IsBank v.bands v 0) h
