-- ===== src/Suppressor/Bands.antt =====
-- The triangular bands of the suppressor and the energies in them (include/mutap/nn_suppressor.h:
-- build_bands(), band_log_energies(), update_explained()).
use mu_tap.Common.{
  ℕ, zero, suc, ◌+◌, ◌-◌, ◌*◌, ◌==◌, ◌&&◌, List, [], ◌∷◌, ◌++◌, map, modify, set, if◌then◌else◌,
}
use mu_tap.Common.Float.{Float, Cast, fmax}
use mu_tap.Detector.Loops.{at}
use mu_tap.Spectrum.{loop}
use mu_tap.Fdaf.Coherence.{bin_power}
use mu_tap.Suppressor.Weights.{Geometry, bins, frame}

module _ {D : Type 0} ⦃d : Float D⦄ where
  abbrev pub erb_rate : D → D
  erb_rate hz = d.mul (d.dec 214 1) (d.log10 (d.add (d.of_ℕ 1) (d.mul (d.dec 437 5) hz)))

  abbrev pub erb_inv : D → D
  erb_inv r = d.div (d.sub (d.pow (d.of_ℕ 10) (d.div r (d.dec 214 1))) (d.of_ℕ 1)) (d.dec 437 5)

  -- edges[i]; the last one is half the rate.
  unfoldable pub edge : Geometry D → ℕ → D
  edge g i =
      let half = d.div g.sample_rate (d.of_ℕ 2) in
      if i == g.bands + 1
      then half
      else erb_inv (d.div (d.mul (erb_rate half) (d.of_ℕ i)) (d.of_ℕ (g.bands + 1)))

  -- The weight of bin k in band b.
  unfoldable pub triangle : Geometry D → ℕ → ℕ → D
  unfolding edge
  triangle g b k =
      let lo = edge g b in
      let mid = edge g (b + 1) in
      let hi = edge g (b + 2) in
      let hz = d.div (d.mul (d.of_ℕ k) g.sample_rate) (d.of_ℕ (frame g)) in
      if d.lt lo hz && d.le hz mid
      then d.div (d.sub hz lo) (fmax (d.sub mid lo) (d.dec 1 9))
      else if d.lt mid hz && d.lt hz hi
      then d.div (d.sub hi hz) (fmax (d.sub hi mid) (d.dec 1 9))
      else d.of_ℕ 0

module _ {S D : Type 0} ⦃f : Float S⦄ ⦃d : Float D⦄ ⦃c : Cast S D⦄ where
  -- n weights of band b from bin k on.
  unfoldable pub band_row : Geometry D → ℕ → ℕ → ℕ → List S
  unfolding triangle
  band_row g b zero k = []
  band_row g b (suc n) k = c.to_sample (triangle g b k) ∷ band_row g b n (k + 1)

  -- m_bmat, a row for each of n bands from b on.
  unfoldable pub band_rows : Geometry D → ℕ → ℕ → List (List S)
  unfolding band_row
  band_rows g zero b = []
  band_rows g (suc n) b = band_row g b (bins g) 0 ∷ band_rows g n (b + 1)

  -- m_bmat: DC belongs to the first band and the Nyquist bin to the last.
  unfoldable pub band_matrix : Geometry D → List (List S)
  unfolding band_rows
  band_matrix g =
      let first = modify (band_rows g g.bands 0) 0 (λ row. set row 0 (f.of_ℕ 1)) in
      modify first (g.bands - 1) (λ row. set row (bins g - 1) (f.of_ℕ 1))

module _ {S : Type 0} ⦃f : Float S⦄ where
  -- `acc += weight * x` over two rows.
  unfoldable pub dot : List S → List S → S → S
  dot (w ∷ ws) (x ∷ xs) acc = dot ws xs (f.add acc (f.mul w x))
  dot _ _ acc = acc

  -- Column k of a matrix, row by row.
  abbrev pub column : ℕ → List (List S) → List S
  column k rows = map (λ row. at row k) rows

  unfoldable pub sum_column : List S → S → S
  sum_column [] acc = acc
  sum_column (x ∷ xs) acc = sum_column xs (f.add acc x)

  -- m_bnorm from bin k on, n of it.
  unfoldable pub band_norms : List (List S) → ℕ → ℕ → List S
  unfolding sum_column
  band_norms rows zero k = []
  band_norms rows (suc n) k =
      let s = sum_column (column k rows) (f.of_ℕ 0) in
      let norm = if f.eq s (f.of_ℕ 0) then f.of_ℕ 1 else f.div (f.of_ℕ 1) s in
      norm ∷ band_norms rows n (k + 1)

  unfoldable pub inner_powers : List S → ℕ → ℕ → List S
  inner_powers x zero k = []
  inner_powers x (suc n) k = bin_power x k ∷ inner_powers x n (k + 1)

  -- The power of each bin of a packed spectrum.
  unfoldable pub bin_powers : ℕ → List S → List S
  unfolding inner_powers
  bin_powers hop x =
      f.mul (at x 0) (at x 0) ∷ (inner_powers x (hop - 1) 1 ++ f.mul (at x 1) (at x 1) ∷ [])

  -- Bin k of the sums of update_explained(): of the estimate, and of the microphone.
  abbrev pub explain_bin : List S → List S → ℕ → S × S → S × S
  explain_bin e y k (syy, sdd) =
      let yr = at y (2 * k) in
      let yi = at y (2 * k + 1) in
      let dr = f.add (at e (2 * k)) yr in
      let di = f.add (at e (2 * k + 1)) yi in
      (f.add syy (f.add (f.mul yr yr) (f.mul yi yi)), f.add sdd (f.add (f.mul dr dr) (f.mul di di)))

  -- The sums over the bins: bin 0 of the packed spectrum is DC and Nyquist together.
  unfoldable pub explain : ℕ → List S → List S → S × S
  explain hop e y = loop (explain_bin e y) (hop - 1) 1 (explain_bin e y 0 (f.of_ℕ 0, f.of_ℕ 0))

module _ {S : Type 0} (D : Type 0) ⦃f : Float S⦄ ⦃d : Float D⦄ ⦃c : Cast S D⦄ where
  -- static_cast<Sample>((log10(acc + k_log_floor) + k_shift) / k_scale).
  abbrev pub log_feature : S → S
  log_feature acc =
      c.to_sample
        (d.div (d.add (d.log10 (d.add (c.to_double acc) (d.dec 1 10))) (d.of_ℕ 5)) (d.of_ℕ 5))

  -- The features of a spectrum whose bins have these powers.
  unfoldable pub log_energies : List (List S) → List S → List S
  unfolding dot
  log_energies rows powers = map (λ row. log_feature (dot row powers (f.of_ℕ 0))) rows
