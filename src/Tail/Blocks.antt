-- ===== src/Tail/Blocks.antt =====
-- process_block() of the spectral reverb (include/mutap/spectral_reverb.h).
use mu_tap.Common.{
  ℕ, zero, suc, ◌+◌, ◌-◌, ◌≤◌, ◌<◌, ◌≡◌, refl, ap, ◌∙◌, arith, Bool-cases, inl, inr, List, [], ◌∷◌,
  ◌++◌, length, take, drop, replicate, ltb, Option, none, some, if◌then◌else◌, length-take,
  length-drop, length-append, length-replicate, length-set,
}
use mathlib.Core.Option
use mu_tap.Common.Float.{Float}
use mu_tap.Spectrum.{Fft}
use mu_tap.Spectrum.Grid.{length-loop}
use mu_tap.Pem.Window.{length-move_back}
use mu_tap.Tail.Hop.{clear_from, shift_tail, overlap, hop}
use mu_tap.Tail.{SpectralReverb}

module _ {S : Type 0} ⦃f : Float S⦄ ⦃t : Fft S⦄ where
  -- One hop of the reverb.
  unfoldable pub hop_once : List S → SpectralReverb S → SpectralReverb S × List S
  hop_once ins s =
      let (state, out) = hop s.cfg.block_size s.cfg.wet s.analysis s.bins ins s.state in
      (record s { state = state }, out)

  -- process_block(), on fuel: whole hops, then zeros for what is left. `none` means that the fuel ran
  -- out.
  unfoldable pub process_block : ℕ → List S → SpectralReverb S → Option (SpectralReverb S × List S)
  unfolding hop_once
  process_block zero xs s = none
  process_block (suc fuel) xs s =
      let b = s.cfg.block_size in
      let (next, out) = hop_once (take b xs) s in
      let rest = process_block fuel (drop b xs) next in
      if ltb (length xs) b
      then some (s, replicate (length xs) (f.of_ℕ 0))
      else Option.map (λ (last, more). (last, out ++ more)) rest

module _ {S : Type 0} ⦃f : Float S⦄ where
  length-shift_tail : (b : ℕ) (tail : List S) → length (shift_tail b tail) ≡ length tail
  unfolding shift_tail
  length-shift_tail b tail =
      length-loop (clear_from (length tail - b))
        (λ i row. length-set row (length tail - b + i) (f.of_ℕ 0)) b 0 _
      ∙ length-move_back b (length tail - b) 0 tail

  length-overlap : (xs ys : List S) → length (overlap xs ys) ≡ length xs
  unfolding overlap
  length-overlap [] ys = refl
  length-overlap (x ∷ xs) [] = refl
  length-overlap (x ∷ xs) (y ∷ ys) = ap suc (length-overlap xs ys)

module _ {S : Type 0} ⦃f : Float S⦄ ⦃t : Fft S⦄ where
  -- A hop gives as many samples as it has, and keeps the tail's length and the configuration.
  hop_once-keeps :
      (ins : List S) (s : SpectralReverb S)
      → s.cfg.block_size ≤ length s.state.tail
      → let (next, out) = hop_once ins s in
        (length out ≡ s.cfg.block_size)
        × (length next.state.tail ≡ length s.state.tail)
        × (next.cfg ≡ s.cfg)
  unfolding hop_once hop
  hop_once-keeps ins s room =
      let kept = length-overlap s.state.tail _ in
      (
        length-take s.cfg.block_size _ ∙ omega (arith, kept),
        length-shift_tail s.cfg.block_size _ ∙ kept,
        refl,
      )

  -- The blocks of any size: one more turn than the samples is enough for process_block() to return,
  -- and it gives one sample for each sample that it takes.
  pub process_block-fills :
      (fuel : ℕ) (xs : List S) (s : SpectralReverb S)
      → length xs < fuel
      → 0 < s.cfg.block_size
      → s.cfg.block_size ≤ length s.state.tail
      → (r : SpectralReverb S × List S) × (process_block fuel xs s ≡ some r)
        × (length r.1 ≡ length xs)
        × (r.0.cfg ≡ s.cfg)
  unfolding process_block
  process_block-fills zero xs s enough h room = absurd (omega arith)
  process_block-fills (suc fuel) xs s enough h room =
      elim (Bool-cases (ltb (length xs) s.cfg.block_size)) [
        | inl e ↦
            let silence = replicate (length xs) (f.of_ℕ 0) in
            ((s, silence), rw e refl, length-replicate (length xs) (f.of_ℕ 0), refl)
        | inr e ↦
            let b = s.cfg.block_size in
            let next = (hop_once (take b xs) s).0 in
            let out = (hop_once (take b xs) s).1 in
            let (size, kept, same) = hop_once-keeps (take b xs) s room in
            let block : next.cfg.block_size ≡ b = ap (λ c. c.block_size) same in
            let (r, ran, len, cfg) =
              process_block-fills fuel (drop b xs) next (ground (arith, length-drop b xs))
                (omega (arith, block)) (omega (arith, block, kept)) in
            (
              (r.0, out ++ r.1),
              rw (e, ran) refl,
              length-append out r.1 ∙ ground (arith, size, len, length-drop b xs),
              cfg ∙ same,
            )
      ]
