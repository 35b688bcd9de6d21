-- ===== src/Predictor/Warped.antt =====
-- The frequency-warped predictor (include/mutap/lpc.h: warped_lpc_predictor).
pub mod Streaming
use mu_tap.Common.{
  ℕ, zero, suc, ◌+◌, ◌==◌, Bool, not, ◌||◌, List, [], ◌∷◌, length, take, drop, set, replicate,
  Result, ok, err, if◌then◌else◌,
}
use mu_tap.Common.Float.{Float, Cast}
use mu_tap.Predictor.Recursion.{correlate, fit}
use mu_tap.Predictor.Lpc.{PredictorError, bad_order, bad_ridge, bad_lambda, bad_capacity}

pub record WarpedConfig (S : Type 0) : Type 0 where
  pub order : ℕ
  pub ridge : S
  pub lambda : S
  pub analysis_capacity : ℕ

-- m_d_prev and m_d_cur hold nothing between calls but their size, analysis_capacity.
pub record WarpedPredictor (S : Type 0) : Type 0 where
  pub cfg : WarpedConfig S
  pub a : List S
  pub r : List S

module _ {S : Type 0} ⦃f : Float S⦄ where
  unfoldable pub new_warped : WarpedConfig S → Result PredictorError (WarpedPredictor S)
  new_warped cfg =
      if cfg.order == 0
      then err bad_order
      else if not (f.lt (f.of_ℕ 0) cfg.ridge)
      then err bad_ridge
      else if not (f.lt (f.neg (f.of_ℕ 1)) cfg.lambda) || not (f.lt cfg.lambda (f.of_ℕ 1))
      then err bad_lambda
      else if cfg.analysis_capacity == 0
      then err bad_capacity
      else ok (record {
        cfg = cfg;
        a = set (replicate (cfg.order + 1) (f.of_ℕ 0)) 0 (f.of_ℕ 1);
        r = replicate (cfg.order + 1) (f.of_ℕ 0);
      })

  unfoldable pub make_state : WarpedPredictor S → List S
  make_state p = replicate p.cfg.order (f.of_ℕ 0)

  -- One allpass section: its next state and its output.
  unfoldable pub allpass : S → S → S → S × S
  allpass l x s = let y = f.add (f.mul (f.neg l) x) s in (f.add x (f.mul l y), y)

  -- A pass over the window from the state s.
  unfoldable pub warp : S → S → List S → List S
  unfolding allpass
  warp l s [] = []
  warp l s (x ∷ xs) = let (next, y) = allpass l x s in y ∷ warp l next xs

  -- Entries k, k + 1, ... of the warped autocorrelation, n of them, from D^(k-1) of the window.
  unfoldable pub warped_lags : S → List S → ℕ → List S → List S
  unfolding warp
  warped_lags l window zero prev = []
  warped_lags l window (suc n) prev =
      let cur = warp l (f.of_ℕ 0) prev in
      correlate (f.of_ℕ 0) window cur ∷ warped_lags l window n cur

  -- The tapped allpass chain on one sample: the sections' next states and the sum.
  unfoldable pub chain : S → List S → List S → S → S → List S × S
  unfolding allpass
  chain l (w ∷ ws) (s ∷ ss) prev acc =
      let (next, y) = allpass l prev s in
      let (rest, sum) = chain l ws ss y (f.add acc (f.mul w y)) in (next ∷ rest, sum)
  chain l _ states prev acc = (states, acc)

  unfoldable pub apply_sections : S → List S → List S → List S → List S × List S
  unfolding chain
  apply_sections l weights [] states = (states, [])
  apply_sections l weights (x ∷ xs) states =
      let (next, y) = chain l weights states x x in
      let (last, rest) = apply_sections l weights xs next in (last, y ∷ rest)

module _ {S : Type 0} (D : Type 0) ⦃f : Float S⦄ ⦃d : Float D⦄ ⦃c : Cast S D⦄ where
  unfoldable pub analyze : List S → WarpedPredictor S → WarpedPredictor S
  unfolding warped_lags
  analyze window p =
      let kept = take p.cfg.analysis_capacity window in
      let r = correlate (f.of_ℕ 0) kept kept ∷ warped_lags p.cfg.lambda kept p.cfg.order kept in
      record p { r = r; a = fit D r p.cfg.order p.cfg.ridge }

-- The sections' weights are m_a[1], m_a[2], ...
unfoldable pub apply :
    {S : Type 0} ⦃f : Float S⦄ → WarpedPredictor S → List S → List S → List S × List S
unfolding apply_sections
apply p ins states = apply_sections p.cfg.lambda (drop 1 p.a) ins states
