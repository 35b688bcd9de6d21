-- ===== src/Kalman/Narrowband.antt =====
-- The narrowband guard (include/mutap/fd_kalman.h: process_block(), `feed`, m_nb_count).
use mu_tap.Common.{
  ℕ, ◌+◌, ◌-◌, ◌/◌, ◌≤◌, ◌<◌, ◌≡◌, ◌⊎◌, refl, min, arith, Bool, true, false, not, ◌&&◌, Bool-cases,
  inl, inr, List, ltb, if◌then◌else◌,
}
use mu_tap.Common.Float.{Float}
use mu_tap.Detector.Loops.{at}
use mu_tap.Spectrum.{Reference, loop, lagged}
use mu_tap.Fdaf.Coherence.{bin_power}
use mu_tap.Kalman.Types.{KalmanConfig}

-- The four strongest bins, the strongest first, and the sum of all.
pub record TopBins (S : Type 0) : Type 0 where
  pub top0 : S
  pub top1 : S
  pub top2 : S
  pub top3 : S
  pub total : S

module _ {S : Type 0} ⦃f : Float S⦄ where
  -- One bin: it takes the last place, and moves up while it is stronger than the one before it.
  unfoldable pub feed : S → TopBins S → TopBins S
  feed x t =
      let summed = record t { total = f.add t.total x } in
      if not (f.lt t.top3 x)
      then summed
      else if not (f.lt t.top2 x)
      then record summed { top3 = x }
      else if not (f.lt t.top1 x)
      then record summed { top2 = x; top3 = t.top2 }
      else if not (f.lt t.top0 x)
      then record summed { top1 = x; top2 = t.top1; top3 = t.top2 }
      else record summed { top0 = x; top1 = t.top0; top2 = t.top1; top3 = t.top2 }

  unfoldable pub is_narrow : KalmanConfig S → List S → Bool
  unfolding feed
  is_narrow cfg u =
      let z = f.of_ℕ 0 in
      let none_yet : TopBins S = record { top0 = z; top1 = z; top2 = z; top3 = z; total = z } in
      let ends = feed (f.mul (at u 1) (at u 1)) (feed (f.mul (at u 0) (at u 0)) none_yet) in
      let t = loop (λ k s. feed (bin_power u k) s) (cfg.block_size - 1) 1 ends in
      let conc =
        f.div (f.add (f.add (f.add t.top0 t.top1) t.top2) t.top3)
          (f.add t.total cfg.regularization) in
      f.lt cfg.regularization t.total && f.lt cfg.narrowband_guard conc

  -- m_nb_count after a block.
  unfoldable pub count_narrow : KalmanConfig S → Reference S → ℕ → ℕ
  unfolding is_narrow
  count_narrow cfg ref count =
      if not (f.lt (f.of_ℕ 0) cfg.narrowband_guard)
      then count
      else if is_narrow cfg (lagged cfg.partitions ref.head ref.u 0)
      then (if ltb count cfg.narrowband_hold_blocks then count + 1 else count)
      else count / 2

  -- With the guard on, a positive hold and a count inside it, a narrow block counts one more, up to
  -- the hold; a block that is not narrow at least halves the count, so that it ends a freeze. The
  -- count thus stays inside the hold, and grows by at most one a block.
  pub count_narrow-bounds :
      (cfg : KalmanConfig S) (ref : Reference S) (count : ℕ)
      → 0 < cfg.narrowband_hold_blocks
      → count ≤ cfg.narrowband_hold_blocks
      → f.lt (f.of_ℕ 0) cfg.narrowband_guard ≡ true
      → let next = count_narrow cfg ref count in
        let narrow = is_narrow cfg (lagged cfg.partitions ref.head ref.u 0) in
        (next ≤ cfg.narrowband_hold_blocks)
        × (next ≤ count + 1)
        × (((narrow ≡ true) × (next ≡ min (count + 1) cfg.narrowband_hold_blocks))
            ⊎ ((narrow ≡ false) × (next + next ≤ count) × (next < cfg.narrowband_hold_blocks)))
  unfolding count_narrow
  count_narrow-bounds cfg ref count some_hold inside on =
      elim (Bool-cases (is_narrow cfg (lagged cfg.partitions ref.head ref.u 0))) [
        | inl e ↦ rw (on, e) (ground arith, ground arith, inl (refl, ground arith))
        | inr e ↦ rw (on, e) (omega arith, omega arith, inr (refl, omega arith, omega arith))
      ]
