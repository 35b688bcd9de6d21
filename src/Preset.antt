-- ===== src/Preset.antt =====
-- The canceller's configuration at a block size, a length and a rate (include/mutap/afc_preset.h:
-- pem_afc_preset()).
use mu_tap.Common.{
  ℕ, size_mod, ◌<◌, ◌*◌, ◌%◌, ◌≤◌, ◌≡◌, ◌==◌, refl, ap, subst, arith, not, ◌||◌, min, max, Result,
  ok, err, if◌then◌else◌, passed, ok-injective, ◌∙◌,
}
use native.Mathlib.Nat.{mul-mod_left, mul-le-mul_right, mod-eq_of_lt, mod-le}
use mu_tap.Common.Float.{Float, Cast}
use mu_tap.Pem.{PemConfig}

pub data PresetError : Type 0 where
  bad_block bad_rate : PresetError

-- What the preset sets of the canceller's and of the near-end model's configuration.
pub record PemPreset (S : Type 0) : Type 0 where
  pub pem : PemConfig S
  pub min_lag : ℕ
  pub max_lag : ℕ
  pub analysis_capacity : ℕ

-- What the constructors of pem_afc and of speech_predictor check of the windows of a preset, with
-- products of size_t, and that the predictor's window is no shorter than the canceller's. The
-- predictor also checks that 1 <= min_lag < max_lag.
pub record FitsWindows {S : Type 0} (p : PemPreset S) : Type 0 where
  pub window_room : 2 * p.pem.block_size % size_mod ≤ p.pem.analysis_window
  pub window_blocks : p.pem.analysis_window % p.pem.block_size ≡ 0
  pub shadow_fits : p.pem.shadow_partitions ≤ p.pem.partitions
  pub lag_room : 2 * p.max_lag % size_mod ≤ p.analysis_capacity
  pub capacity : p.pem.analysis_window ≤ p.analysis_capacity

module _ {D : Type 0} ⦃d : Float D⦄ where
  -- The blocks that cover a window of so many samples.
  unfoldable pub window_blocks : ℕ → D → ℕ
  window_blocks block_size samples =
      d.to_ℕ (d.ceil (d.sub (d.div samples (d.of_ℕ block_size)) (d.dec 1 9)))

  unfoldable pub analysis_window : ℕ → D → ℕ
  unfolding window_blocks
  analysis_window block_size sample_rate =
      let samples = d.mul (d.div (d.of_ℕ 1_024) (d.of_ℕ 48_000)) sample_rate in
      max 2 (window_blocks block_size samples) * block_size % size_mod

  unfoldable pub lag : D → ℕ → ℕ
  lag sample_rate hz = d.to_ℕ (d.round (d.div sample_rate (d.of_ℕ hz)))

  -- The window that the preset covers with blocks: 1024 samples at 48 kHz.
  abbrev pub window_samples : D → D
  window_samples sample_rate = d.mul (d.div (d.of_ℕ 1_024) (d.of_ℕ 48_000)) sample_rate

module _ {S D : Type 0} ⦃f : Float S⦄ ⦃d : Float D⦄ ⦃c : Cast S D⦄ where
  abbrev pub preset_pem : ℕ → ℕ → D → PemConfig S
  preset_pem block_size partitions sample_rate = record {
    block_size = block_size;
    partitions = partitions;
    analysis_window = analysis_window block_size sample_rate;
    shadow_partitions = min 2 partitions;
    shadow_transition = f.dec 999 3;
    shadow_smoothing =
        c.to_sample (d.exp (d.neg (d.div (d.of_ℕ block_size) (d.mul sample_rate (d.dec 51 3)))));
  }

  -- pem_afc_preset() for the speech predictor.
  unfoldable pub speech_preset : ℕ → ℕ → D → Result PresetError (PemPreset S)
  speech_preset block_size partitions sample_rate =
      if block_size == 0
      then err bad_block
      else if not (d.is_finite sample_rate) || not (d.lt (d.of_ℕ 0) sample_rate)
      then err bad_rate
      else ok (record {
        pem = preset_pem block_size partitions sample_rate;
        min_lag = lag sample_rate 1_500;
        max_lag = lag sample_rate 120;
        analysis_capacity =
            max (analysis_window block_size sample_rate) (2 * lag sample_rate 120 % size_mod);
      })

  -- At every block size, length and rate that the speech preset accepts and whose window of whole
  -- blocks does not wrap in size_t, its windows and its shadow filter are what both constructors
  -- accept: the canceller's window is of whole blocks, at least two, the shadow filter is within the
  -- filter, and the predictor's capacity holds twice its longest lag and the canceller's window. That
  -- its two lags are in order is not part of this.
  pub speech_preset-FitsWindows :
      (block_size partitions : ℕ) (sample_rate : D) (p : PemPreset S)
      → speech_preset block_size partitions sample_rate ≡ ok p
      → max 2 (window_blocks block_size (window_samples sample_rate)) * block_size < size_mod
      → FitsWindows p × (p.pem.block_size ≡ block_size) × (p.pem.partitions ≡ partitions)
  unfolding speech_preset analysis_window
  speech_preset-FitsWindows block_size partitions sample_rate p h room =
      let (size, h1) = passed (block_size == 0) _ h in
      let (rate, h2) =
        passed (not (d.is_finite sample_rate) || not (d.lt (d.of_ℕ 0) sample_rate)) _ h1 in
      let blocks = max 2 (window_blocks block_size (window_samples sample_rate)) in
      let exact : blocks * block_size % size_mod ≡ blocks * block_size = mod-eq_of_lt room in
      let two : 2 * block_size ≤ blocks * block_size = mul-le-mul_right block_size (omega arith) in
      subst (λ q. FitsWindows q × (q.pem.block_size ≡ block_size) × (q.pem.partitions ≡ partitions))
        (ok-injective h2)
        (
          record {
            window_room = omega (arith, exact, two, mod-le (2 * block_size) size_mod);
            window_blocks = ap (λ n. n % block_size) exact ∙ mul-mod_left blocks block_size;
            shadow_fits = omega arith;
            lag_room = omega arith;
            capacity = omega arith;
          },
          refl,
          refl,
        )
