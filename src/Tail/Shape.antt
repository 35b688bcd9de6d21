-- ===== src/Tail/Shape.antt =====
-- The bins of the spectral reverb (include/mutap/spectral_reverb.h: config, reshape_flat(),
-- flat_pole(), apply_shape(), and the spectrum of the paths).
use mu_tap.Common.{
  ℕ, zero, suc, ◌+◌, ◌-◌, ◌*◌, ◌/◌, ◌%◌, Bool, true, false, List, [], ◌∷◌, ◌++◌, map, length,
  modify, replicate, take, Option, none, some, if◌then◌else◌,
}
use mu_tap.Common.Float.{Float, fmax, clamp}
use mu_tap.Detector.Loops.{at}
use mu_tap.Spectrum.{sum_of_squares}

pub data SpectralShaping : Type 0 where
  flat from_path : SpectralShaping

pub record SpectralConfig (S : Type 0) : Type 0 where
  pub block_size : ℕ
  pub sample_rate : S
  pub rt60 : S
  pub wet : S
  pub shaping : SpectralShaping
  pub shape : S
  pub shape_min : S
  pub shape_max : S

-- m_decay and m_wet.
pub record BinShape (S : Type 0) : Type 0 where
  pub decay : List S
  pub wet : List S

module _ {S : Type 0} ⦃f : Float S⦄ where
  unfoldable pub flat_pole : SpectralConfig S → S
  flat_pole cfg =
      let hops = f.div (f.mul cfg.rt60 cfg.sample_rate) (f.of_ℕ cfg.block_size) in
      f.pow (f.of_ℕ 10) (f.div (f.neg (f.of_ℕ 3)) (fmax hops (f.of_ℕ 1)))

  unfoldable pub reshape_flat : SpectralConfig S → BinShape S
  unfolding flat_pole
  reshape_flat cfg =
      let bins = cfg.block_size + 1 in
      record { decay = replicate bins (flat_pole cfg); wet = replicate bins cfg.wet }

  -- std::nth_element by its contract: the entry that a sort puts at an index.
  unfoldable pub insert : S → List S → List S
  insert x [] = x ∷ []
  insert x (y ∷ ys) = if f.lt x y then x ∷ y ∷ ys else y ∷ insert x ys

  unfoldable pub sort : List S → List S
  unfolding insert
  sort [] = []
  sort (x ∷ xs) = insert x (sort xs)

  abbrev pub k_tiny : S
  k_tiny = f.dec 1 12

  -- The wet allowance of a bin of a magnitude.
  unfoldable pub allowance : SpectralConfig S → S → S → S
  allowance cfg median x =
      clamp (f.pow (f.div median (fmax x k_tiny)) cfg.shape) cfg.shape_min cfg.shape_max

  unfoldable pub apply_shape : SpectralConfig S → List S → BinShape S
  unfolding flat_pole allowance sort
  apply_shape cfg magnitude =
      let bins = length magnitude in
      let median = fmax (at (sort magnitude) (bins / 2)) k_tiny in
      let a = flat_pole cfg in
      let allowed = map (allowance cfg median) magnitude in
      let wet = map (λ x. f.mul cfg.wet x) allowed in
      let sum = sum_of_squares (f.of_ℕ 0) wet in
      let target = f.mul (f.mul (f.of_ℕ bins) cfg.wet) cfg.wet in
      let norm = if f.lt k_tiny sum then f.sqrt (f.div target sum) else f.of_ℕ 1 in
      record {
        decay = map (λ x. f.pow a (f.div (f.of_ℕ 1) x)) allowed;
        wet = map (λ w. f.mul w norm) wet;
      }

  -- The magnitudes of bins k, k + 1, ..., n of them.
  unfoldable pub inner_magnitudes : List S → ℕ → ℕ → List S
  inner_magnitudes x zero k = []
  inner_magnitudes x (suc n) k =
      f.hypot (at x (2 * k)) (at x (2 * k + 1)) ∷ inner_magnitudes x n (k + 1)

  unfoldable pub magnitudes : ℕ → List S → List S
  unfolding inner_magnitudes
  magnitudes half x = f.abs (at x 0) ∷ (inner_magnitudes x (half - 1) 1 ++ f.abs (at x 1) ∷ [])

  -- `spectrum[i % window] += ir[i]` from i on.
  unfoldable pub fold_taps : ℕ → ℕ → List S → List S → List S
  fold_taps window i [] spectrum = spectrum
  fold_taps window i (x ∷ xs) spectrum =
      fold_taps window (i + 1) xs (modify spectrum (i % window) (λ y. f.add y x))

  unfoldable pub fold_paths : ℕ → ℕ → List (Option (List S)) → List S → List S
  unfolding fold_taps
  fold_paths window taps [] spectrum = spectrum
  fold_paths window taps (none ∷ irs) spectrum = fold_paths window taps irs spectrum
  fold_paths window taps (some ir ∷ irs) spectrum =
      fold_paths window taps irs (fold_taps window 0 (take taps ir) spectrum)

-- No path is null.
unfoldable pub all_given : {S : Type 0} → List (Option (List S)) → Bool
all_given [] = true
all_given (none ∷ irs) = false
all_given (some ir ∷ irs) = all_given irs
