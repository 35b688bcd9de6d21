-- ===== src/Predictor/Speech/Pitch.antt =====
-- The lag that the analysis finds (include/mutap/lpc.h: speech_predictor::analyze()).
use mu_tap.Common.{
  ℕ, zero, suc, ◌+◌, ◌-◌, ◌*◌, ◌/◌, ◌≤◌, ◌≡◌, ◌⊎◌, refl, arith, false, Bool-cases, inl, inr, not,
  ◌||◌, List, length, drop, ltb, min, subst, if◌then◌else◌, take, length-take,
}
use mu_tap.Common.Float.{Float, Cast, IsIrreflexive, clamp, clamp_bounds}
use mu_tap.Predictor.Lpc
use mu_tap.Predictor.Lpc.{LpcPredictor}
use mu_tap.Predictor.Speech.{
  SpeechConfig, SpeechPredictor, Tap, sum_lag, try_lag, search_lags, fit_tap, residual,
  analyze_speech,
}

module _ {S : Type 0} ⦃f : Float S⦄ where
  -- Off, with no gain, or on a lag of the search range up to `last` with a gain that is clamped.
  abbrev pub IsTap : SpeechConfig S → ℕ → Tap S → Type 0
  IsTap cfg last tap =
      ((tap.lag ≡ 0) × (tap.beta ≡ f.of_ℕ 0))
      ⊎ ((cfg.min_lag ≤ tap.lag)
          × (tap.lag ≤ last)
          × (f.lt tap.beta (f.neg cfg.max_gain) ≡ false)
          × (f.lt cfg.max_gain tap.beta ≡ false))

module _ {S : Type 0} ⦃f : Float S⦄ (laws : IsIrreflexive S) (cfg : SpeechConfig S)
    (gain : f.lt cfg.max_gain (f.neg cfg.max_gain) ≡ false) where
  clamped-IsTap :
      (last lag : ℕ) (v : S)
      → cfg.min_lag ≤ lag
      → lag ≤ last
      → IsTap cfg last (record { lag = lag; beta = clamp v (f.neg cfg.max_gain) cfg.max_gain })
  clamped-IsTap last lag v low high =
      let (above, below) = clamp_bounds laws v (f.neg cfg.max_gain) cfg.max_gain gain in
      inr (low, high, above, below)

  try_lag-IsTap :
      (res : List S) (last lag : ℕ) (found : S × Tap S)
      → cfg.min_lag ≤ lag
      → lag ≤ last
      → IsTap cfg last found.1
      → IsTap cfg last (try_lag cfg res lag found).1
  unfolding try_lag
  try_lag-IsTap res last lag (best, tap) low high inside =
      let z = f.of_ℕ 0 in
      let s = sum_lag (drop lag res) res (record { cross = z; e_now = z; e_lag = z }) in
      let denom = f.sqrt (f.mul s.e_now s.e_lag) in
      let rho = f.div s.cross denom in
      elim (Bool-cases (not (f.lt z s.e_now) || not (f.lt z s.e_lag))) [
        | inl e ↦ rw e inside
        | inr e ↦ elim (Bool-cases (not (f.lt z denom))) [
          | inl g ↦ rw (e, g) inside
          | inr g ↦ elim (Bool-cases (f.lt best rho)) [
            | inl b ↦ elim (Bool-cases (f.lt cfg.voicing_threshold rho)) [
              | inl v ↦ rw (e, g, b, v) (clamped-IsTap last lag (f.div s.cross s.e_lag) low high)
              | inr v ↦ rw (e, g, b, v) inside
            ]
            | inr b ↦ rw (e, g, b) inside
          ]
        ]
      ]

  search_lags-IsTap :
      (res : List S) (last n lag : ℕ) (found : S × Tap S)
      → cfg.min_lag ≤ lag
      → lag + n ≤ last + 1
      → IsTap cfg last found.1
      → IsTap cfg last (search_lags cfg res n lag found).1
  unfolding search_lags
  search_lags-IsTap res last zero lag found low high inside = inside
  search_lags-IsTap res last (suc n) lag found low high inside =
      search_lags-IsTap res last n (lag + 1) (try_lag cfg res lag found) (omega arith) (omega arith)
        (try_lag-IsTap res last lag found low (omega arith) inside)

  fit_tap-IsTap :
      (short : LpcPredictor S) (window : List S)
      → cfg.min_lag ≤ cfg.max_lag
      → IsTap cfg (min cfg.max_lag (length window / 2)) (fit_tap cfg short window)
  unfolding fit_tap
  fit_tap-IsTap short window range =
      let n = length window in
      let last = if ltb cfg.max_lag (n / 2) then cfg.max_lag else n / 2 in
      let shorter : last ≡ min cfg.max_lag (n / 2) = ground arith in
      let off : Tap S = record { lag = 0; beta = f.of_ℕ 0 } in
      elim (Bool-cases (ltb n (2 * cfg.min_lag))) [
        | inl e ↦ rw e (inl (refl, refl))
        | inr e ↦ rw e (
            subst
              (λ k.
                IsTap cfg k
                  (search_lags cfg (residual short.a short.cfg.order window n 0)
                    (last + 1 - cfg.min_lag) cfg.min_lag (f.of_ℕ 0, off)).1)
              shorter
              (search_lags-IsTap _ last (last + 1 - cfg.min_lag) cfg.min_lag (f.of_ℕ 0, off)
                (omega arith) (ground arith) (inl (refl, refl))))
      ]

module _ {S : Type 0} (D : Type 0) ⦃f : Float S⦄ ⦃d : Float D⦄ ⦃c : Cast S D⦄ where
  -- The analysis leaves the long-term tap off, with no gain, or on a lag of the search range of at
  -- most half of the window that fits, with a gain clamped to the configured magnitude.
  pub analyze_speech-IsTap :
      (laws : IsIrreflexive S) (window : List S) (p : SpeechPredictor S)
      → f.lt p.cfg.max_gain (f.neg p.cfg.max_gain) ≡ false
      → p.cfg.min_lag ≤ p.cfg.max_lag
      → IsTap p.cfg
          (min p.cfg.max_lag (min p.cfg.analysis_capacity (length window) / 2))
          (analyze_speech D window p).tap
  unfolding analyze_speech
  analyze_speech-IsTap laws window p gain range =
      let kept = take p.cfg.analysis_capacity window in
      let short = Lpc.analyze D kept p.short in
      subst (λ n. IsTap p.cfg (min p.cfg.max_lag (n / 2)) (fit_tap p.cfg short kept))
        (length-take p.cfg.analysis_capacity window)
        (fit_tap-IsTap laws p.cfg gain short kept range)
