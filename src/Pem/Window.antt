-- ===== src/Pem/Window.antt =====
-- The analysis window of the canceller (include/mutap/pem_afc.h: process_block(), the slide of
-- m_e_window).
use mu_tap.Common.{
  ℕ, zero, suc, ◌+◌, ◌-◌, ◌≤◌, ◌<◌, ◌≡◌, refl, ap, sym, ◌∙◌, subst, arith, Bool-cases, inl, inr,
  ◌==◌, List, ◌++◌, length, take, drop, length-set, length-drop, length-take, get_or-set_self,
  get_or-set_ne, get_or-drop, get_or-take, same_entries, write_at-splice, append_nil, drop-all,
}
use mu_tap.Common.Float.{Float}
use mu_tap.Detector.Loops.{at}
use mu_tap.Spectrum.{loop}
use mu_tap.Spectrum.Grid.{length-loop}
use mu_tap.Pem.{move_back, slide_window}

module _ {S : Type 0} ⦃f : Float S⦄ where
  pub length-move_back :
      (b n i : ℕ) (window : List S) → length (loop (move_back b) n i window) ≡ length window
  length-move_back b n i window =
      length-loop (move_back b) (λ k row. length-set row k (at row (k + b))) n i window

  -- What the loop has passed it does not touch again.
  move_back-done :
      (b n i : ℕ) (window : List S) (k : ℕ)
      → k < i
      → at (loop (move_back b) n i window) k ≡ at window k
  move_back-done b zero i window k h = refl
  move_back-done b (suc n) i window k h =
      move_back-done b n (i + 1) (move_back b i window) k (omega arith)
      ∙ get_or-set_ne window i k (at window (i + b)) (f.of_ℕ 0) (λ e. omega arith)

  -- n entries move back by b.
  move_back-at :
      (b n i : ℕ) (window : List S) (k : ℕ)
      → 0 < b
      → i ≤ k
      → k < i + n
      → i + n ≤ length window
      → at (loop (move_back b) n i window) k ≡ at window (k + b)
  move_back-at b zero i window k h low high fits = absurd (omega arith)
  move_back-at b (suc n) i window k h low high fits =
      let next = move_back b i window in
      elim (Bool-cases (i == k)) [
        | inl e ↦
            let same : i ≡ k = ground arith in
            subst (λ j. at (loop (move_back b) n (i + 1) next) j ≡ at window (j + b)) same
              (move_back-done b n (i + 1) next i (omega arith)
                ∙ get_or-set_self window i (at window (i + b)) (f.of_ℕ 0) (omega arith))
        | inr e ↦
            move_back-at b n (i + 1) next k h (ground arith) (omega arith)
              (omega (arith, length-set window i (at window (i + b))))
            ∙ get_or-set_ne window i (k + b) (at window (i + b)) (f.of_ℕ 0) (λ same. omega arith)
      ]

  -- The window keeps its length and holds the last samples of e: those of before but the oldest b,
  -- then the block.
  pub slide_window_lem :
      (b : ℕ) (e window : List S)
      → 0 < b
      → length e ≡ b
      → b ≤ length window
      → slide_window b e window ≡ drop b window ++ e
  unfolding slide_window
  slide_window_lem b e window h size fits =
      let w = length window in
      let moved = loop (move_back b) (w - b) 0 window in
      let len = length-move_back b (w - b) 0 window in
      let front : take (w - b) moved ≡ drop b window =
        same_entries (f.of_ℕ 0) (take (w - b) moved) (drop b window)
          (omega (arith, length-take (w - b) moved, length-drop b window, len))
          (λ k inside.
            let below : k < w - b = omega (arith, length-take (w - b) moved, len) in
            get_or-take (w - b) moved k (f.of_ℕ 0) below
            ∙ move_back-at b (w - b) 0 window k h (omega arith) (omega arith) (omega arith)
            ∙ ap (at window) (omega arith)
            ∙ sym (get_or-drop b window k (f.of_ℕ 0))) in
      write_at-splice (w - b) e moved (omega (arith, len))
      ∙ rw (front, drop-all (w - b + length e) moved (omega (arith, len)))
          (ap (λ ys. drop b window ++ ys) (append_nil e))
