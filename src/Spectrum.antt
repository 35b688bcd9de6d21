-- ===== src/Spectrum.antt =====
-- What the frequency-domain filters share: the FFT engine, the packed spectra, the overlap-save window,
-- the ring of partition spectra and the finite check (include/mutap/fft.h, watchdog.h, and the loops
-- that fdaf.h, fd_kalman.h and pem_afc.h repeat).
pub mod Window
pub mod Ring
pub mod Grid
pub mod Checks
use mu_tap.Common.{
  ℕ, zero, suc, ◌+◌, ◌-◌, ◌%◌, ◌==◌, Bool, List, [], ◌∷◌, map, get_or, set, write_at, take, drop,
  Result, ok, err, if◌then◌else◌,
}
use mu_tap.Common.Float.{Float, Cast}
use mu_tap.Detector.Loops.{at}

-- DspTap's basic_real_fft at the sizes that a filter asks for.
pub record Fft (S : Type 0) : Type 0 where
  pub forward : List S → List S
  pub inverse : List S → List S
  pub supports_size : ℕ → Bool

-- checked_fft_size(): `error` stands for the message.
unfoldable pub checked_fft_size : (S : Type 0) {E : Type 0} ⦃t : Fft S⦄ → ℕ → E → Result E ℕ
checked_fft_size S ⦃t⦄ n error = if t.supports_size n then ok n else err error

-- `for (k = first; ...; ++k)`, n times.
abbrev pub loop : {A : Type 0} → (ℕ → A → A) → ℕ → ℕ → A → A
loop body zero k st = st
loop body (suc n) k st = loop body n (k + 1) (body k st)

module _ {S : Type 0} ⦃f : Float S⦄ where
  unfoldable pub mac_pairs : List S → List S → List S → List S
  mac_pairs (ar ∷ ai ∷ ps) (br ∷ bi ∷ qs) (yr ∷ yi ∷ ys) =
      f.add yr (f.sub (f.mul ar br) (f.mul ai bi))
      ∷ f.add yi (f.add (f.mul ar bi) (f.mul ai br))
      ∷ mac_pairs ps qs ys
  mac_pairs _ _ ys = ys

  -- packed_mac(): y += a * b.
  unfoldable pub packed_mac : List S → List S → List S → List S
  unfolding mac_pairs
  packed_mac (a0 ∷ a1 ∷ ps) (b0 ∷ b1 ∷ qs) (y0 ∷ y1 ∷ ys) =
      f.add y0 (f.mul a0 b0) ∷ f.add y1 (f.mul a1 b1) ∷ mac_pairs ps qs ys
  packed_mac _ _ ys = ys

  unfoldable pub sum_of_squares : S → List S → S
  sum_of_squares acc [] = acc
  sum_of_squares acc (x ∷ xs) = sum_of_squares (f.add acc (f.mul x x)) xs

  abbrev pub finite_power : S → Bool
  finite_power s = f.is_finite s

  abbrev pub zeros : List S → List S
  zeros xs = map (λ x. f.of_ℕ 0) xs

  -- The slide of the window of two blocks: n samples from index i on.
  unfoldable pub slide_in : ℕ → ℕ → List S → List S → List S
  slide_in b i [] window = window
  slide_in b i (x ∷ xs) window =
      slide_in b (i + 1) xs (set (set window i (at window (i + b))) (i + b) x)

  -- `desired[i] - y[i]`.
  unfoldable pub subtract : List S → List S → List S
  subtract (d ∷ ds) (y ∷ ys) = f.sub d y ∷ subtract ds ys
  subtract _ _ = []

-- The spectrum of p blocks ago, the newest standing at head.
unfoldable pub lagged : {A : Type 0} → ℕ → ℕ → List (List A) → ℕ → List A
lagged p_n head rows p = get_or rows ((head + p_n - p) % p_n) []

module _ {S : Type 0} ⦃f : Float S⦄ where
  -- The accumulator over the filter's partitions p, p + 1, ...
  unfoldable pub filter_sum : ℕ → ℕ → List (List S) → ℕ → List (List S) → List S → List S
  unfolding packed_mac lagged
  filter_sum p_n head us p [] acc = acc
  filter_sum p_n head us p (h ∷ hs) acc =
      filter_sum p_n head us (p + 1) hs (packed_mac (lagged p_n head us p) h acc)

-- The window and the ring of spectra.
pub record Reference (S : Type 0) : Type 0 where
  pub input : List S
  pub u : List (List S)
  pub head : ℕ

module _ {S : Type 0} ⦃f : Float S⦄ where
  -- The first loop of every process_block(): the newest block's spectrum.
  unfoldable pub take_block : ⦃t : Fft S⦄ → ℕ → ℕ → List S → Reference S → Reference S
  unfolding slide_in
  take_block ⦃t⦄ b p_n ins r =
      let input = slide_in b 0 ins r.input in
      let head = (r.head + 1) % p_n in
      record { input = input; u = set r.u head (t.forward input); head = head }

  -- The same by memmove and memcpy (fd_kalman.h).
  unfoldable pub copy_block : ⦃t : Fft S⦄ → ℕ → ℕ → List S → Reference S → Reference S
  copy_block ⦃t⦄ b p_n ins r =
      let input = write_at b ins (write_at 0 (take b (drop b r.input)) r.input) in
      let head = (r.head + 1) % p_n in
      record { input = input; u = set r.u head (t.forward input); head = head }

  -- The filter's output: the second half of the inverse transform.
  unfoldable pub estimate : ⦃t : Fft S⦄ → ℕ → ℕ → List (List S) → Reference S → List S
  unfolding filter_sum
  estimate ⦃t⦄ b p_n hs r =
      take b (drop b (t.inverse (filter_sum p_n r.head r.u 0 hs (zeros r.input))))

  unfoldable pub clear_reference : ℕ → Reference S → Reference S
  clear_reference p_n r = record { input = zeros r.input; u = map zeros r.u; head = p_n - 1 }
