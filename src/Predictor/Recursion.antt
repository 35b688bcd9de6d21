-- ===== src/Predictor/Recursion.antt =====
-- Autocorrelation and the Levinson-Durbin recursion (include/mutap/lpc.h: autocorrelation(),
-- levinson()).
pub mod Bounds
use mu_tap.Common.{
  ℕ, zero, suc, ◌+◌, ◌-◌, Bool, not, ◌||◌, List, [], ◌∷◌, drop, set, write_at, replicate,
  if◌then◌else◌,
}
use mu_tap.Common.Float.{Float, Cast}
use mu_tap.Detector.Loops.{at}

module _ {S : Type 0} ⦃f : Float S⦄ where
  -- The inner loop: the samples from index k on, with those k before them.
  unfoldable pub correlate : S → List S → List S → S
  correlate acc (x ∷ xs) (y ∷ ys) = correlate (f.add acc (f.mul x y)) xs ys
  correlate acc _ _ = acc

  -- n entries from lag k on.
  unfoldable pub lags : ℕ → ℕ → List S → List S
  unfolding correlate
  lags zero k xs = []
  lags (suc n) k xs = correlate (f.of_ℕ 0) (drop k xs) xs ∷ lags n (k + 1) xs

  unfoldable pub autocorrelation : List S → ℕ → List S
  unfolding lags
  autocorrelation xs max_lag = lags (max_lag + 1) 0 xs

  -- `acc += a[j] * r[i - j]` for n values of j.
  unfoldable pub predicted : List S → List S → ℕ → ℕ → ℕ → S → S
  predicted r a i zero j acc = acc
  predicted r a i (suc n) j acc =
      predicted r a i n (j + 1) (f.add acc (f.mul (at a j) (at r (i - j))))

  -- `scratch[j] = a[j] + k * a[i - j]` for n values of j.
  unfoldable pub reflected : S → List S → ℕ → ℕ → ℕ → List S
  reflected k a i zero j = []
  reflected k a i (suc n) j = f.add (at a j) (f.mul k (at a (i - j))) ∷ reflected k a i n (j + 1)

  -- The coefficients after order i, whose reflection coefficient is k.
  unfoldable pub raised : S → ℕ → List S → List S
  unfolding reflected
  raised k i a = set (write_at 1 (reflected k a i (i - 1) 1) a) i k

  -- `a[j] = 0` for n values of j.
  unfoldable pub clear_above : ℕ → ℕ → List S → List S
  clear_above zero j a = a
  clear_above (suc n) j a = clear_above n (j + 1) (set a j (f.of_ℕ 0))

module _ {S : Type 0} (D : Type 0) ⦃f : Float S⦄ ⦃d : Float D⦄ ⦃c : Cast S D⦄ where
  -- The reflection coefficient ends the recursion.
  unfoldable pub escapes : S → Bool
  escapes k = not (d.is_finite (c.to_double k)) || d.le (d.of_ℕ 1) (d.abs (c.to_double k))

  -- Orders i, i + 1, ..., n of them: the achieved order and the coefficients.
  unfoldable pub raise_order : List S → ℕ → ℕ → ℕ → S → List S → ℕ × List S
  unfolding predicted raised escapes
  raise_order r order zero i err a = (order, a)
  raise_order r order (suc n) i err a =
      let k = f.div (f.neg (predicted r a i (i - 1) 1 (at r i))) err in
      let after = f.mul err (f.sub (f.of_ℕ 1) (f.mul k k)) in
      let rest = raise_order r order n (i + 1) after (raised k i a) in
      if escapes k
      then (i - 1, a)
      else if not (f.lt (f.of_ℕ 0) after)
      then (i, raised k i a)
      else rest

  unfoldable pub levinson : List S → ℕ → S → ℕ × List S
  unfolding raise_order
  levinson r order ridge =
      let a = f.of_ℕ 1 ∷ replicate order (f.of_ℕ 0) in
      let r0 = f.mul (at r 0) (f.add (f.of_ℕ 1) ridge) in
      if not (f.lt (f.of_ℕ 0) r0) || not (d.is_finite (c.to_double r0))
      then (0, a)
      else raise_order r order order 1 r0 a

  -- analyze() of a window: the fitted coefficients, those above the achieved order cleared.
  unfoldable pub fit : List S → ℕ → S → List S
  unfolding levinson clear_above
  fit r order ridge =
      let (achieved, a) = levinson r order ridge in clear_above (order - achieved) (achieved + 1) a
