-- ===== src/Fdaf/Update.antt =====
-- The normalised update of the filter (include/mutap/fdaf.h: process_block(), from the regressor power
-- on).
use mu_tap.Common.{ℕ, ◌+◌, ◌-◌, ◌*◌, List, [], ◌∷◌, map, modify, set, replicate, if◌then◌else◌}
use mu_tap.Common.Float.{Float}
use mu_tap.Detector.Loops.{at}
use mu_tap.Spectrum.{Fft, Reference, loop, lagged}
use mu_tap.Fdaf.Coherence.{FdafConfig, bin_power, cross_re, cross_im}

module _ {S : Type 0} ⦃f : Float S⦄ where
  -- One partition's power in every bin.
  unfoldable pub add_power : ℕ → List S → List S → List S
  add_power half u norm =
      loop (λ k row. modify row k (λ x. f.add x (bin_power u k))) (half - 1) 1
        (modify (modify norm 0 (λ x. f.add x (f.mul (at u 0) (at u 0)))) half
          (λ x. f.add x (f.mul (at u 1) (at u 1))))

  unfoldable pub regressor_power : ℕ → List (List S) → List S → List S
  unfolding add_power
  regressor_power half [] norm = norm
  regressor_power half (u ∷ us) norm = regressor_power half us (add_power half u norm)

  -- The body of the loop that smooths m_power and sums it.
  abbrev pub smooth_power_bin : S → List S → ℕ → List S × S → List S × S
  smooth_power_bin alpha norm k (row, mean) =
      let v = f.add (f.mul alpha (at row k)) (f.mul (f.sub (f.of_ℕ 1) alpha) (at norm k)) in
      (set row k v, f.add mean v)

  -- m_power after the block, and its mean.
  unfoldable pub smooth_power : FdafConfig S → List (List S) → List S → List S × S
  unfolding regressor_power
  smooth_power cfg us power =
      let half = cfg.block_size in
      let norm = regressor_power half us (replicate (half + 1) (f.of_ℕ 0)) in
      let (smoothed, sum) =
        loop (smooth_power_bin cfg.power_smoothing norm) (half + 1) 0 (power, f.of_ℕ 0) in
      (smoothed, f.div sum (f.of_ℕ (half + 1)))

  abbrev pub step_bin : List S → List S → List S → ℕ → List S → List S
  step_bin factor e u k row =
      modify (modify row (2 * k) (λ x. f.add x (f.mul (at factor k) (cross_re u e k)))) (2 * k + 1)
        (λ x. f.add x (f.mul (at factor k) (cross_im u e k)))

  -- The bins of DC and Nyquist, which have one slot each.
  abbrev pub step_ends : ℕ → List S → List S → List S → List S → List S
  step_ends half factor e u h =
      modify (modify h 0 (λ x. f.add x (f.mul (f.mul (at factor 0) (at u 0)) (at e 0)))) 1
        (λ x. f.add x (f.mul (f.mul (at factor half) (at u 1)) (at e 1)))

  -- `h += factor .* conj(u) .* e`.
  unfoldable pub step_partition : ℕ → List S → List S → List S → List S → List S
  step_partition half factor e u h =
      loop (step_bin factor e u) (half - 1) 1 (step_ends half factor e u h)

module _ {S : Type 0} ⦃f : Float S⦄ ⦃t : Fft S⦄ where
  abbrev pub clear_second : ℕ → ℕ → List S → List S
  clear_second b i time = set time (i + b) (f.of_ℕ 0)

  -- The gradient constraint: the second half of the impulse response cleared.
  unfoldable pub constrain : ℕ → List S → List S
  constrain b h = t.forward (loop (clear_second b) b 0 (t.inverse h))

  -- The partitions p, p + 1, ...
  unfoldable pub step_partitions :
      FdafConfig S → List S → List S → Reference S → ℕ → List (List S) → List (List S)
  unfolding step_partition constrain
  step_partitions cfg factor e ref p [] = []
  step_partitions cfg factor e ref p (h ∷ hs) =
      let b = cfg.block_size in
      let stepped = step_partition b factor e (lagged cfg.partitions ref.head ref.u p) h in
      (if cfg.constrained then constrain b stepped else stepped)
      ∷ step_partitions cfg factor e ref (p + 1) hs

  unfoldable pub adapt_filter :
      FdafConfig S → S → List S → List S → S → Reference S → List (List S) → List (List S)
  unfolding step_partitions
  adapt_filter cfg ipc e power mean_power ref hs =
      let mu =
        if cfg.ipc_step_scaling then f.mul cfg.step_size (f.mul ipc ipc) else cfg.step_size in
      let eps = f.add cfg.regularization (f.mul cfg.relative_regularization mean_power) in
      step_partitions cfg (map (λ x. f.div mu (f.add x eps)) power) e ref 0 hs
