-- ===== src/Predictor/Lpc.antt =====
-- The short-term predictor (include/mutap/lpc.h: lpc_predictor).
pub mod Streaming
use mu_tap.Common.{
  ℕ, zero, suc, ◌+◌, ◌-◌, ◌==◌, Bool, not, List, [], ◌∷◌, length, leb, map, set, replicate, Result,
  ok, err, if◌then◌else◌,
}
use mu_tap.Common.Float.{Float, Cast}
use mu_tap.Detector.Loops.{at}
use mu_tap.Predictor.Recursion.{autocorrelation, fit}

pub data PredictorError : Type 0 where
  bad_order bad_ridge bad_lambda bad_capacity bad_lags bad_gain : PredictorError

pub record LpcConfig (S : Type 0) : Type 0 where
  pub order : ℕ
  pub ridge : S

-- The fitted model. Its state is the last `order` inputs of a stream, the oldest first.
pub record LpcPredictor (S : Type 0) : Type 0 where
  pub cfg : LpcConfig S
  pub a : List S
  pub r : List S

module _ {S : Type 0} ⦃f : Float S⦄ where
  unfoldable pub new_lpc : LpcConfig S → Result PredictorError (LpcPredictor S)
  new_lpc cfg =
      if cfg.order == 0
      then err bad_order
      else if not (f.lt (f.of_ℕ 0) cfg.ridge)
      then err bad_ridge
      else ok (record {
        cfg = cfg;
        a = set (replicate (cfg.order + 1) (f.of_ℕ 0)) 0 (f.of_ℕ 1);
        r = replicate (cfg.order + 1) (f.of_ℕ 0);
      })

  unfoldable pub make_state : LpcPredictor S → List S
  make_state p = replicate p.cfg.order (f.of_ℕ 0)

  unfoldable pub reset_state : List S → List S
  reset_state hist = map (λ x. f.of_ℕ 0) hist

  -- `past` of apply(), for a history of m samples.
  unfoldable pub past : ℕ → List S → List S → ℕ → ℕ → S
  past m hist ins i j = if leb j i then at ins (i - j) else at hist (m - (j - i))

  -- `acc += m_a[j] * past` for n values of j.
  unfoldable pub weigh : List S → ℕ → List S → List S → ℕ → ℕ → ℕ → S → S
  unfolding past
  weigh a m hist ins i zero j acc = acc
  weigh a m hist ins i (suc n) j acc =
      weigh a m hist ins i n (j + 1) (f.add acc (f.mul (at a j) (past m hist ins i j)))

  -- n outputs from index i on.
  unfoldable pub outputs : List S → ℕ → List S → List S → ℕ → ℕ → List S
  unfolding weigh
  outputs a m hist ins zero i = []
  outputs a m hist ins (suc n) i =
      weigh a m hist ins i m 1 (at ins i) ∷ outputs a m hist ins n (i + 1)

  -- `s.hist[j] = ...` for k values of j; the reads see the writes before them.
  unfoldable pub refill : ℕ → List S → ℕ → ℕ → List S → List S
  refill m ins zero j hist = hist
  refill m ins (suc k) j hist =
      let n = length ins in
      let back = m - j in
      refill m ins k (j + 1)
        (set hist j (if leb back n then at ins (n - back) else at hist (j + n)))

  unfoldable pub apply : LpcPredictor S → List S → List S → List S × List S
  unfolding outputs refill
  apply p ins hist =
      let m = p.cfg.order in (refill m ins m 0 hist, outputs p.a m hist ins (length ins) 0)

module _ {S : Type 0} (D : Type 0) ⦃f : Float S⦄ ⦃d : Float D⦄ ⦃c : Cast S D⦄ where
  unfoldable pub analyze : List S → LpcPredictor S → LpcPredictor S
  analyze window p =
      let r = autocorrelation window p.cfg.order in
      record p { r = r; a = fit D r p.cfg.order p.cfg.ridge }
