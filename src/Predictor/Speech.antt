-- ===== src/Predictor/Speech.antt =====
-- The speech predictor: the short-term model and a long-term tap (include/mutap/lpc.h:
-- speech_predictor).
pub mod Pitch
pub mod Streaming
use mu_tap.Common.{
  ℕ, zero, suc, ◌+◌, ◌-◌, ◌*◌, ◌/◌, ◌%◌, ◌==◌, Bool, not, ◌||◌, List, [], ◌∷◌, length, take, drop,
  set, replicate, min, ltb, leb, Result, ok, err, ◌>>=◌, if◌then◌else◌,
}
use mu_tap.Common.Float.{Float, Cast, clamp}
use mu_tap.Detector.Loops.{at}
use mu_tap.Predictor.Lpc
use mu_tap.Predictor.Lpc.{
  PredictorError, bad_lags, bad_capacity, bad_gain, LpcConfig, LpcPredictor, new_lpc, reset_state,
}

pub record SpeechConfig (S : Type 0) : Type 0 where
  pub short_term : LpcConfig S
  pub min_lag : ℕ
  pub max_lag : ℕ
  pub analysis_capacity : ℕ
  pub max_gain : S
  pub voicing_threshold : S

-- A stream's state: the short-term history, and a ring of the last max_lag short-term residuals.
pub record SpeechState (S : Type 0) : Type 0 where
  pub short_term : List S
  pub ring : List S
  pub pos : ℕ

-- The long-term tap: its lag, 0 while it is off, and its gain.
pub record Tap (S : Type 0) : Type 0 where
  pub lag : ℕ
  pub beta : S

-- m_residual holds nothing between calls but its size, analysis_capacity.
pub record SpeechPredictor (S : Type 0) : Type 0 where
  pub cfg : SpeechConfig S
  pub short : LpcPredictor S
  pub tap : Tap S

module _ {S : Type 0} ⦃f : Float S⦄ where
  unfoldable pub new_speech : SpeechConfig S → Result PredictorError (SpeechPredictor S)
  new_speech cfg = new_lpc cfg.short_term >>= λ short.
      (if ltb cfg.min_lag 1 || leb cfg.max_lag cfg.min_lag
        then err bad_lags
        else if ltb cfg.analysis_capacity (2 * cfg.max_lag)
        then err bad_capacity
        else if not (f.lt (f.of_ℕ 0) cfg.max_gain) || not (f.lt cfg.max_gain (f.of_ℕ 1))
        then err bad_gain
        else ok (record { cfg = cfg; short = short; tap = record { lag = 0; beta = f.of_ℕ 0 } }))

  unfoldable pub make_state : SpeechPredictor S → SpeechState S
  make_state p = record {
    short_term = Lpc.make_state p.short;
    ring = replicate p.cfg.max_lag (f.of_ℕ 0);
    pos = 0;
  }

  unfoldable pub reset_speech : SpeechState S → SpeechState S
  reset_speech s = record s {
    short_term = reset_state s.short_term;
    ring = reset_state s.ring;
    pos = 0;
  }

  -- `acc += a[j] * window[i - j]` for n values of j.
  unfoldable pub fold_past : List S → List S → ℕ → ℕ → ℕ → S → S
  fold_past a window i zero j acc = acc
  fold_past a window i (suc n) j acc =
      fold_past a window i n (j + 1) (f.add acc (f.mul (at a j) (at window (i - j))))

  -- n entries of m_residual from i on.
  unfoldable pub residual : List S → ℕ → List S → ℕ → ℕ → List S
  unfolding fold_past
  residual a m window zero i = []
  residual a m window (suc n) i =
      fold_past a window i (min m i) 1 (at window i) ∷ residual a m window n (i + 1)

-- cross, e_now and e_lag.
pub record LagSums (S : Type 0) : Type 0 where
  pub cross : S
  pub e_now : S
  pub e_lag : S

module _ {S : Type 0} ⦃f : Float S⦄ where
  -- Over the residuals from the lag on, with those of a lag before.
  unfoldable pub sum_lag : List S → List S → LagSums S → LagSums S
  sum_lag (x0 ∷ xs) (x1 ∷ ys) s = sum_lag xs ys (record s {
    cross = f.add s.cross (f.mul x0 x1);
    e_now = f.add s.e_now (f.mul x0 x0);
    e_lag = f.add s.e_lag (f.mul x1 x1);
  })
  sum_lag _ _ s = s

  -- The body of the search: the best correlation so far and the tap.
  unfoldable pub try_lag : SpeechConfig S → List S → ℕ → S × Tap S → S × Tap S
  unfolding sum_lag
  try_lag cfg res lag (best, tap) =
      let z = f.of_ℕ 0 in
      let s = sum_lag (drop lag res) res (record { cross = z; e_now = z; e_lag = z }) in
      let denom = f.sqrt (f.mul s.e_now s.e_lag) in
      let rho = f.div s.cross denom in
      if not (f.lt z s.e_now) || not (f.lt z s.e_lag)
      then (best, tap)
      else if not (f.lt z denom)
      then (best, tap)
      else if f.lt best rho
      then (
        rho,
        if f.lt cfg.voicing_threshold rho
            then record {
              lag = lag;
              beta = clamp (f.div s.cross s.e_lag) (f.neg cfg.max_gain) cfg.max_gain;
            }
            else tap,
      )
      else (best, tap)

  -- n lags from `lag` on.
  unfoldable pub search_lags : SpeechConfig S → List S → ℕ → ℕ → S × Tap S → S × Tap S
  unfolding try_lag
  search_lags cfg res zero lag found = found
  search_lags cfg res (suc n) lag found =
      search_lags cfg res n (lag + 1) (try_lag cfg res lag found)

  -- analyze() past the short-term model, on the window that fits.
  unfoldable pub fit_tap : SpeechConfig S → LpcPredictor S → List S → Tap S
  unfolding residual search_lags
  fit_tap cfg short window =
      let n = length window in
      let res = residual short.a short.cfg.order window n 0 in
      let off : Tap S = record { lag = 0; beta = f.of_ℕ 0 } in
      let last = if ltb cfg.max_lag (n / 2) then cfg.max_lag else n / 2 in
      if ltb n (2 * cfg.min_lag)
      then off
      else (search_lags cfg res (last + 1 - cfg.min_lag) cfg.min_lag (f.of_ℕ 0, off)).1

module _ {S : Type 0} (D : Type 0) ⦃f : Float S⦄ ⦃d : Float D⦄ ⦃c : Cast S D⦄ where
  unfoldable pub analyze_speech : List S → SpeechPredictor S → SpeechPredictor S
  unfolding fit_tap
  analyze_speech window p =
      let kept = take p.cfg.analysis_capacity window in
      let short = Lpc.analyze D kept p.short in
      record p { short = short; tap = fit_tap p.cfg short kept }

module _ {S : Type 0} ⦃f : Float S⦄ where
  -- The long-term loop of apply() over the short-term residuals.
  unfoldable pub tap_ring : Tap S → ℕ → List S → List S × ℕ → (List S × ℕ) × List S
  tap_ring tap max_lag [] (ring, pos) = ((ring, pos), [])
  tap_ring tap max_lag (x ∷ xs) (ring, pos) =
      let t = tap.lag in
      let y =
        if t == 0 then x else f.sub x (f.mul tap.beta (at ring ((pos + max_lag - t) % max_lag))) in
      let (last, rest) = tap_ring tap max_lag xs (set ring pos x, (pos + 1) % max_lag) in
      (last, y ∷ rest)

  unfoldable pub apply_speech : SpeechPredictor S → List S → SpeechState S → SpeechState S × List S
  unfolding tap_ring
  apply_speech p ins s =
      let (hist, res) = Lpc.apply p.short ins s.short_term in
      let ((ring, pos), out) = tap_ring p.tap p.cfg.max_lag res (s.ring, s.pos) in
      (record s { short_term = hist; ring = ring; pos = pos }, out)
