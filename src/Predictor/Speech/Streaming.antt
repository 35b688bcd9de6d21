-- ===== src/Predictor/Speech/Streaming.antt =====
-- apply() of the speech predictor over a stream, and its ring as a delay line (include/mutap/lpc.h:
-- speech_predictor::apply()).
use mu_tap.Common.{
  ℕ, ◌+◌, ◌-◌, ◌%◌, ◌≤◌, ◌<◌, ◌≡◌, ◌==◌, refl, ap, ap₂, subst, ◌∙◌, arith, Bool-cases, inl, inr,
  List, [], ◌∷◌, ◌++◌, length, drop, set, followed, length-set, unrolled, unrolled-set,
  get_or-unrolled, if◌then◌else◌,
}
use native.Mathlib.Nat.{mod-lt}
use mu_tap.Common.Float.{Float}
use mu_tap.Detector.Loops.{at}
use mu_tap.Predictor.Lpc.Streaming.{apply-append}
use mu_tap.Predictor.Speech.{SpeechPredictor, SpeechState, Tap, tap_ring, apply_speech}

module _ {S : Type 0} ⦃f : Float S⦄ where
  -- The long-term filter through a shift register of max_lag samples, the newest last.
  abbrev pub delayed : Tap S → ℕ → List S → List S → List S × List S
  delayed tap max_lag [] reg = (reg, [])
  delayed tap max_lag (x ∷ xs) reg =
      let y = if tap.lag == 0 then x else f.sub x (f.mul tap.beta (at reg (max_lag - tap.lag))) in
      let (last, rest) = delayed tap max_lag xs (drop 1 (reg ++ x ∷ [])) in (last, y ∷ rest)

  -- The ring is a delay line: for each sample x the output is x less the gain times the sample of
  -- `lag` samples before, x itself while the tap is off, whatever the block sizes were; and the ring
  -- holds the last max_lag samples.
  pub tap_ring-delayed :
      (tap : Tap S) (max_lag : ℕ) (xs ring : List S) (pos : ℕ)
      → tap.lag ≤ max_lag
      → length ring ≡ max_lag
      → pos < max_lag
      → let ((last, next), out) = tap_ring tap max_lag xs (ring, pos) in
        ((unrolled next last, out) ≡ delayed tap max_lag xs (unrolled pos ring))
        × (length last ≡ max_lag)
        × (next < max_lag)
  unfolding tap_ring
  tap_ring-delayed tap max_lag [] ring pos short len inside = (refl, len, inside)
  tap_ring-delayed tap max_lag (x ∷ xs) ring pos short len inside =
      let t = tap.lag in
      let next = (pos + 1) % max_lag in
      let (rest, kept, bound) =
        tap_ring-delayed tap max_lag xs (set ring pos x) next short (length-set ring pos x ∙ len)
          (mod-lt (pos + 1) (omega arith)) in
      let moved : unrolled next (set ring pos x) ≡ drop 1 (unrolled pos ring ++ x ∷ []) =
        subst
          (λ n. unrolled ((pos + 1) % n) (set ring pos x) ≡ drop 1 (unrolled pos ring ++ x ∷ []))
          len (unrolled-set pos ring x (omega arith)) in
      let ringed =
        if t == 0 then x else f.sub x (f.mul tap.beta (at ring ((pos + max_lag - t) % max_lag))) in
      let plain =
        if t == 0 then x else f.sub x (f.mul tap.beta (at (unrolled pos ring) (max_lag - t))) in
      let same : ringed ≡ plain = elim (Bool-cases (t == 0)) [
        | inl e ↦ rw e refl
        | inr e ↦ rw e (
            ap (λ v. f.sub x (f.mul tap.beta v))
              (subst (λ n. at ring ((pos + n - t) % n) ≡ at (unrolled pos ring) (n - t)) len
                (get_or-unrolled pos t ring (f.of_ℕ 0) (omega arith) (ground arith) (omega arith))))
      ] in
      (ap₂ (λ r y. (r.0, y ∷ r.1)) (rest ∙ ap (delayed tap max_lag xs) moved) same, kept, bound)

  tap_ring-append :
      (tap : Tap S) (max_lag : ℕ) (xs ys : List S) (s : List S × ℕ)
      → tap_ring tap max_lag (xs ++ ys) s ≡ followed (tap_ring tap max_lag) xs ys s
  unfolding tap_ring
  tap_ring-append tap max_lag [] ys s = refl
  tap_ring-append tap max_lag (x ∷ xs) ys (ring, pos) =
      ap (λ (last, rest). (last, (tap_ring tap max_lag (x ∷ []) (ring, pos)).1 ++ rest))
        (tap_ring-append tap max_lag xs ys (set ring pos x, (pos + 1) % max_lag))

  -- A stream in two blocks gives what it gives in one.
  pub apply_speech-append :
      (p : SpeechPredictor S) (xs ys : List S) (s : SpeechState S)
      → length s.short_term ≡ p.short.cfg.order
      → apply_speech p (xs ++ ys) s ≡ followed (apply_speech p) xs ys s
  unfolding apply_speech
  apply_speech-append p xs ys s len =
      rw
        (
          apply-append p.short xs ys s.short_term len,
          tap_ring-append p.tap p.cfg.max_lag _ _ (s.ring, s.pos),
        )
        refl
