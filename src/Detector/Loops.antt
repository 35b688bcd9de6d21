-- ===== src/Detector/Loops.antt =====
-- The loops of the detector's tick over its arrays (include/mutap/howl_detector.h: fit() and the
-- loops of decide()).
use mu_tap.Common.{ℕ, zero, suc, ◌+◌, ◌-◌, ◌*◌, ◌==◌, List, [], ◌∷◌, get_or, if◌then◌else◌}
use mu_tap.Common.Float.{Float, fmax}

-- std::pair of a fit: the slope and the residual.
pub record Fit (S : Type 0) : Type 0 where
  pub slope : S
  pub residual : S

-- The next slot of the ring: (k + 1 == m) ? 0 : k + 1.
unfoldable pub next_slot : ℕ → ℕ → ℕ
next_slot m k = if k + 1 == m then 0 else k + 1

-- The neighbours of band b: lo and hi.
unfoldable pub below : ℕ → ℕ
below b = if b == 0 then 0 else b - 1

unfoldable pub above : ℕ → ℕ → ℕ
above nb b = if b + 1 == nb then b else b + 1

module _ {S : Type 0} ⦃f : Float S⦄ where
  open f use {of_ℕ, dec, add, sub, mul, div, lt, log10, sqrt}

  -- xs[i], for the reads that the code keeps in range.
  abbrev pub at : List S → ℕ → S
  at xs i = get_or xs i (of_ℕ 0)

  unfoldable pub max_up : ℕ → ℕ → List S → S → S
  max_up zero k xs m = m
  max_up (suc n) k xs m = max_up n (k + 1) xs (fmax m (at xs k))

  -- The largest of xs[lo .. hi], for band b and its neighbours.
  unfoldable pub near_max : ℕ → List S → ℕ → S
  unfolding max_up below above
  near_max nb xs b = let lo = below b in max_up (above nb b - lo) (lo + 1) xs (at xs lo)

  -- for b = i ..: near_max of every band.
  unfoldable pub lines_from : ℕ → ℕ → List S → ℕ → List S
  unfolding near_max
  lines_from zero nb xs b = []
  lines_from (suc n) nb xs b = near_max nb xs b ∷ lines_from n nb xs (b + 1)

  -- The first pass: the sum, and the loudest band.
  unfoldable pub sum_of : List S → S → S
  sum_of [] acc = acc
  sum_of (e ∷ es) acc = sum_of es (add acc e)

  unfoldable pub peak_from : ℕ → ℕ → List S → ℕ → ℕ
  peak_from zero b env peak = peak
  peak_from (suc n) b env peak =
      peak_from n (b + 1) env (if lt (at env peak) (at env b) then b else peak)

  unfoldable pub level_of : S → S
  level_of e = mul (of_ℕ 20) (log10 e)

  unfoldable pub prominence_of : S → S → S → S
  prominence_of inv_others sum e =
      let others = mul (fmax (sub sum e) (of_ℕ 0)) inv_others in
      let eps = dec 1 9 in mul (of_ℕ 20) (log10 (div (add e eps) (add others eps)))

  -- The two loops of fit() over the ring, oldest slot first.
  unfoldable pub mean_loop : ℕ → ℕ → ℕ → ℕ → ℕ → List S → S → S
  unfolding next_slot
  mean_loop zero m nb b k ring acc = acc
  mean_loop (suc n) m nb b k ring acc =
      mean_loop n m nb b (next_slot m k) ring (add acc (at ring (k * nb + b)))

  unfoldable pub fit_loop : List S → ℕ → ℕ → ℕ → ℕ → List S → S → S → S → S × S
  unfolding next_slot
  fit_loop [] m nb b k ring mean sl ss = (sl, ss)
  fit_loop (w ∷ ws) m nb b k ring mean sl ss =
      let d = sub (at ring (k * nb + b)) mean in
      fit_loop ws m nb b (next_slot m k) ring mean (add sl (mul w d)) (add ss (mul d d))
