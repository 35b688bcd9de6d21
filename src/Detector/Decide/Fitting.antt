-- ===== src/Detector/Decide/Fitting.antt =====
-- The least-squares fit reads the growth window from its oldest entry
-- (include/mutap/howl_detector.h: fit()).
use mu_tap.Common.{
  ℕ, zero, suc, ◌+◌, ◌*◌, ◌≤◌, ◌<◌, ◌≡◌, refl, ◌∙◌, ap, subst, arith, List, [], ◌∷◌, length,
}
use mu_tap.Common.Float.{Float}
use mu_tap.Detector.Types.{DecisionParams, DecisionState}
use mu_tap.Detector.Loops.{Fit, at, sum_of, mean_loop, fit_loop}
use mu_tap.Detector.Decide.{line_fit, fit}
use mu_tap.Detector.Decide.Ring.{slot, slot-next, window, line_window}

module _ {S : Type 0} ⦃f : Float S⦄ where
  open f use {of_ℕ, add, sub, mul, div, sqrt}

  -- The weighted sum of the deviations from the mean, and their sum of squares.
  unfoldable pub accumulate : List S → List S → S → S → S → S × S
  accumulate [] xs mean sl ss = (sl, ss)
  accumulate (w ∷ ws) [] mean sl ss = (sl, ss)
  accumulate (w ∷ ws) (x ∷ xs) mean sl ss =
      let d = sub x mean in accumulate ws xs mean (add sl (mul w d)) (add ss (mul d d))

  -- The slope and the RMS residual of a line through m levels, oldest first.
  unfoldable pub regress : ℕ → List S → List S → Fit S
  regress m weights xs =
      let mean = div (sum_of xs (of_ℕ 0)) (of_ℕ m) in
      line_fit m (accumulate weights xs mean (of_ℕ 0) (of_ℕ 0))

  mean_loop-window :
      (n m nb i b : ℕ) (ring : List S) (k : ℕ) (acc : S)
      → k < m
      → i + n ≤ m
      → mean_loop n m nb b (slot m k i) ring acc ≡ sum_of (window m nb ring k b n i) acc
  unfolding mean_loop sum_of
  mean_loop-window zero m nb i b ring k acc hk h = refl
  mean_loop-window (suc n) m nb i b ring k acc hk h =
      let acc' = add acc (at ring (slot m k i * nb + b)) in
      ap (λ j. mean_loop n m nb b j ring acc') (slot-next m k i hk (omega arith))
      ∙ mean_loop-window n m nb (i + 1) b ring k acc' hk (omega arith)

  fit_loop-window :
      (ws : List S) (m nb i b : ℕ) (ring : List S) (k : ℕ) (mean sl ss : S)
      → k < m
      → i + length ws ≤ m
      → fit_loop ws m nb b (slot m k i) ring mean sl ss
        ≡ accumulate ws (window m nb ring k b (length ws) i) mean sl ss
  unfolding fit_loop accumulate
  fit_loop-window [] m nb i b ring k mean sl ss hk h = refl
  fit_loop-window (w ∷ ws) m nb i b ring k mean sl ss hk h =
      let d = sub (at ring (slot m k i * nb + b)) mean in
      ap (λ j. fit_loop ws m nb b j ring mean (add sl (mul w d)) (add ss (mul d d)))
        (slot-next m k i hk (omega arith))
      ∙ fit_loop-window ws m nb (i + 1) b ring k mean (add sl (mul w d)) (add ss (mul d d)) hk
          (omega arith)

  -- With the position inside the ring and one weight for each slot, fit() is the regression through
  -- the band's window of line levels: its two walks from the ring's write position visit every slot
  -- once, oldest first, and wrap where the ring does.
  pub fit-window :
      (p : DecisionParams S) (s : DecisionState S) (b : ℕ)
      → s.ring_pos < p.slots
      → length p.slope_w ≡ p.slots
      → fit p s b ≡ regress p.slots p.slope_w (line_window p s b)
  unfolding fit regress
  fit-window p s b hk size =
      let m = p.slots in
      let xs = line_window p s b in
      let start : slot m s.ring_pos 0 ≡ s.ring_pos = ground arith in
      let mean_of = λ (t : S). div t (of_ℕ m) in
      let mean_path : mean_loop m m p.bands b s.ring_pos s.ring (of_ℕ 0) ≡ sum_of xs (of_ℕ 0) =
        subst (λ k. mean_loop m m p.bands b k s.ring (of_ℕ 0) ≡ sum_of xs (of_ℕ 0)) start
          (mean_loop-window m m p.bands 0 b s.ring s.ring_pos (of_ℕ 0) hk (omega arith)) in
      let mean = mean_of (sum_of xs (of_ℕ 0)) in
      let walk : fit_loop p.slope_w m p.bands b s.ring_pos s.ring mean (of_ℕ 0) (of_ℕ 0)
          ≡ accumulate p.slope_w xs mean (of_ℕ 0) (of_ℕ 0) =
        subst
          (λ k.
            fit_loop p.slope_w m p.bands b k s.ring mean (of_ℕ 0) (of_ℕ 0)
            ≡ accumulate p.slope_w xs mean (of_ℕ 0) (of_ℕ 0))
          start
          (fit_loop-window p.slope_w m p.bands 0 b s.ring s.ring_pos mean (of_ℕ 0) (of_ℕ 0) hk
              (omega arith)
            ∙ ap
                (λ n.
                  accumulate p.slope_w (window m p.bands s.ring s.ring_pos b n 0) mean (of_ℕ 0)
                    (of_ℕ 0))
                size) in
      ap
        (λ t.
          line_fit m
            (fit_loop p.slope_w m p.bands b s.ring_pos s.ring (mean_of t) (of_ℕ 0) (of_ℕ 0)))
        mean_path
      ∙ ap (line_fit m) walk
