-- ===== src/Spectrum/Window.antt =====
-- The window that the transform reads (include/mutap/fdaf.h, fd_kalman.h, pem_afc.h: the slide loop of
-- process_block()).
use mu_tap.Common.{
  ℕ, suc, ◌+◌, ◌-◌, ◌≤◌, ◌<◌, ◌≡◌, ◌≢◌, ◌⊎◌, refl, ap, sym, ◌∙◌, arith, List, [], ◌∷◌, ◌++◌, length,
  drop, set, length-set, length-drop, length-append, get_or-set_self, get_or-set_ne,
  get_or-append_lt, get_or-append_ge, get_or-drop, same_entries, Bool-cases, inl, inr, ltb, ◌==◌,
  subst,
}
use mu_tap.Common.Float.{Float}
use mu_tap.Detector.Loops.{at}
use mu_tap.Spectrum.{slide_in}

module _ {S : Type 0} ⦃f : Float S⦄ where
  pub length-slide_in :
      (b i : ℕ) (xs window : List S) → length (slide_in b i xs window) ≡ length window
  unfolding slide_in
  length-slide_in b i [] window = refl
  length-slide_in b i (x ∷ xs) window =
      length-slide_in b (i + 1) xs _
      ∙ length-set (set window i (at window (i + b))) (i + b) x
      ∙ length-set window i (at window (i + b))

  -- One turn of the loop, and the two entries that it writes.
  abbrev turned : ℕ → ℕ → S → List S → List S
  turned b i x window = set (set window i (at window (i + b))) (i + b) x

  turned-at :
      (b i : ℕ) (x : S) (window : List S) (k : ℕ)
      → i ≢ k
      → i + b ≢ k
      → at (turned b i x window) k ≡ at window k
  turned-at b i x window k low high =
      get_or-set_ne (set window i (at window (i + b))) (i + b) k x (f.of_ℕ 0) high
      ∙ get_or-set_ne window i k (at window (i + b)) (f.of_ℕ 0) low

  turned-low :
      (b i : ℕ) (x : S) (window : List S)
      → 0 < b
      → i < length window
      → at (turned b i x window) i ≡ at window (i + b)
  turned-low b i x window h inside =
      get_or-set_ne (set window i (at window (i + b))) (i + b) i x (f.of_ℕ 0) (λ e. omega arith)
      ∙ get_or-set_self window i (at window (i + b)) (f.of_ℕ 0) inside

  turned-high :
      (b i : ℕ) (x : S) (window : List S)
      → i + b < length window
      → at (turned b i x window) (i + b) ≡ x
  turned-high b i x window inside =
      get_or-set_self (set window i (at window (i + b))) (i + b) x (f.of_ℕ 0)
        (omega (arith, length-set window i (at window (i + b))))

  length-turned : (b i : ℕ) (x : S) (window : List S) → length (turned b i x window) ≡ length window
  length-turned b i x window =
      length-set (set window i (at window (i + b))) (i + b) x
      ∙ length-set window i (at window (i + b))

  -- Entries that the loop has done with.
  slide_in-done :
      (b i : ℕ) (xs window : List S) (k : ℕ)
      → i + length xs ≤ b
      → (k < i) ⊎ ((b ≤ k) × (k < i + b))
      → at (slide_in b i xs window) k ≡ at window k
  unfolding slide_in
  slide_in-done b i [] window k count h = refl
  slide_in-done b i (x ∷ xs) window k count h =
      slide_in-done b (i + 1) xs (turned b i x window) k (omega arith) (grind arith)
      ∙ turned-at b i x window k (λ e. grind arith) (λ e. grind arith)

  slide_in-low :
      (b i : ℕ) (xs window : List S) (k : ℕ)
      → i + length xs ≡ b
      → length window ≡ b + b
      → i ≤ k
      → k < b
      → at (slide_in b i xs window) k ≡ at window (k + b)
  unfolding slide_in
  slide_in-low b i [] window k count len low high = absurd (omega arith)
  slide_in-low b i (x ∷ xs) window k count len low high =
      let next = turned b i x window in
      elim (Bool-cases (i == k)) [
        | inl e ↦
            let same : i ≡ k = ground arith in
            subst (λ j. at (slide_in b (i + 1) xs next) j ≡ at window (j + b)) same
              (slide_in-done b (i + 1) xs next i (omega arith) (inl (omega arith))
                ∙ turned-low b i x window (omega arith) (omega arith))
        | inr e ↦
            slide_in-low b (i + 1) xs next k (omega arith) (length-turned b i x window ∙ len)
              (ground arith) high
            ∙ turned-at b i x window (k + b) (λ same. omega arith) (λ same. ground arith)
      ]

  slide_in-high :
      (b i : ℕ) (xs window : List S) (k : ℕ)
      → i + length xs ≡ b
      → length window ≡ b + b
      → i + b ≤ k
      → k < b + b
      → at (slide_in b i xs window) k ≡ at xs (k - (i + b))
  unfolding slide_in
  slide_in-high b i [] window k count len low high = absurd (omega arith)
  slide_in-high b i (x ∷ xs) window k count len low high =
      let next = turned b i x window in
      elim (Bool-cases (i + b == k)) [
        | inl e ↦
            let same : i + b ≡ k = ground arith in
            subst (λ j. at (slide_in b (i + 1) xs next) j ≡ at (x ∷ xs) (j - (i + b))) same
              (slide_in-done b (i + 1) xs next (i + b) (omega arith)
                  (inr (omega arith, omega arith))
                ∙ turned-high b i x window (omega arith)
                ∙ ap (at (x ∷ xs)) {x = 0} (omega arith))
        | inr e ↦
            slide_in-high b (i + 1) xs next k (omega arith) (length-turned b i x window ∙ len)
              (ground arith) high
            ∙ ap (at (x ∷ xs)) {x = suc (k - (i + 1 + b))} (ground arith)
      ]

  -- After the slide the window is its second half and the block.
  pub slide_in-window :
      (b : ℕ) (xs window : List S)
      → length xs ≡ b
      → length window ≡ b + b
      → slide_in b 0 xs window ≡ drop b window ++ xs
  slide_in-window b xs window size len =
      let half = length-drop b window in
      same_entries (f.of_ℕ 0) (slide_in b 0 xs window) (drop b window ++ xs)
        (omega (arith, length-slide_in b 0 xs window, length-append (drop b window) xs, half))
        (λ k inside. elim (Bool-cases (ltb k b)) [
          | inl e ↦
              slide_in-low b 0 xs window k (omega arith) len (omega arith) (ground arith)
              ∙ ap (at window) (omega arith)
              ∙ sym (get_or-drop b window k (f.of_ℕ 0))
              ∙ sym (get_or-append_lt (drop b window) xs k (f.of_ℕ 0) (ground (arith, half)))
          | inr e ↦
              slide_in-high b 0 xs window k (omega arith) len (ground arith)
                (omega (arith, length-slide_in b 0 xs window))
              ∙ ap (at xs) (omega (arith, half))
              ∙ sym (get_or-append_ge (drop b window) xs k (f.of_ℕ 0) (ground (arith, half)))
        ])
