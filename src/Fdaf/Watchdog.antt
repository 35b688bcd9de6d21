-- ===== src/Fdaf/Watchdog.antt =====
-- The NaN watchdog of the filter (include/mutap/fdaf.h: process_block(), watchdog_trip(), reset();
-- include/mutap/watchdog.h: the contract).
use mu_tap.Common.{
  inc, ◌+◌, ◌≡◌, refl, ap, sym, ◌∙◌, Bool, true, false, not, Bool-cases, inl, inr, List, length,
  replicate, if◌then◌else◌,
}
use mu_tap.Common.Float.{Float, Cast}
use mu_tap.Detector.Loops.{at}
use mu_tap.Spectrum.{Fft, sum_of_squares, subtract, take_block, estimate}
use mu_tap.Spectrum.Checks.{check_either}
use mu_tap.Spectrum.Grid.{IsGrid, IsSizedFft, IsReference, clear_reference-take_block}
use mu_tap.Fdaf.{Fdaf, reset, watchdog_trip, error_spectrum, adapt, process_block}

-- The two checks of process_block(), of which the freeze chooses one.
trips :
    {A : Type 0} (adapting frozen_ok adapting_ok : Bool) (trip frozen adapted : A)
    → (if not adapting then frozen_ok else adapting_ok) ≡ false
    → (if not adapting
        then if not frozen_ok then trip else frozen
        else if not adapting_ok
        then trip
        else adapted)
      ≡ trip
trips false frozen_ok adapting_ok trip frozen adapted h = rw h refl
trips true frozen_ok adapting_ok trip frozen adapted h = rw h refl

module _ {S : Type 0} where
  -- The arrays have the sizes that the constructor gives them.
  abbrev pub IsSized : Fdaf S → Type 0
  IsSized s =
      let b = s.cfg.block_size in
      let p_n = s.cfg.partitions in
      IsReference b p_n s.ref
      × IsGrid p_n (b + b) s.h
      × (length s.power ≡ b + 1)
      × IsGrid p_n (b + b) s.coherence.s_cross
      × IsGrid p_n (b + 1) s.coherence.s_uu
      × (length s.coherence.s_ee ≡ b + 1)

module _ {S : Type 0} (D : Type 0) ⦃f : Float S⦄ ⦃d : Float D⦄ ⦃c : Cast S D⦄ ⦃t : Fft S⦄ where
  -- The error that a block gives if nothing is wrong.
  abbrev pub block_error : List S → List S → Fdaf S → List S
  block_error ins desired s =
      let b = s.cfg.block_size in
      let p_n = s.cfg.partitions in
      subtract desired (estimate b p_n s.h (take_block b p_n ins s.ref))

  -- The finite check of a block: of the sum of squares of a frozen filter's error, or of the first
  -- slot of an adapting filter's error spectrum.
  abbrev pub checked_value : List S → List S → Fdaf S → S
  checked_value ins desired s =
      let error = block_error ins desired s in
      if not s.adapting
      then sum_of_squares (f.of_ℕ 0) error
      else at (error_spectrum D s.cfg.block_size error) 0

  -- With every array at its size and an FFT that keeps the sizes, a block that fails the check
  -- resets the filter as reset() does, before it heard the block, counts the trip, and writes zeros
  -- to both outputs. The configuration and the freeze survive.
  pub process_block-trips :
      (ins desired : List S) (s : Fdaf S)
      → IsSizedFft t
      → IsSized s
      → f.is_finite (checked_value ins desired s) ≡ false
      → let silence = replicate s.cfg.block_size (f.of_ℕ 0) in
        process_block D ins desired s
        ≡ (record (reset s) { watchdog = inc s.watchdog }, (silence, silence))
  unfolding process_block watchdog_trip reset
  process_block-trips ins desired s sized inside unsound =
      let p_n = s.cfg.partitions in
      let silence = replicate s.cfg.block_size (f.of_ℕ 0) in
      let error = block_error ins desired s in
      let cleared =
        ap (λ r. (record (reset s) { ref = r; watchdog = inc s.watchdog }, (silence, silence)))
          (clear_reference-take_block s.cfg.block_size p_n ins s.ref sized inside.0) in
      trips s.adapting _ _ _ _ _ (
        check_either {S = S} (not s.adapting) (sum_of_squares (f.of_ℕ 0) error)
          (at (error_spectrum D s.cfg.block_size error) 0)
        ∙ unsound)
      ∙ cleared

  -- A frozen filter hears a block that passes the check and changes nothing else: it writes the error
  -- and its estimate, and keeps its taps and its statistics.
  pub process_block-frozen :
      (ins desired : List S) (s : Fdaf S)
      → s.adapting ≡ false
      → f.is_finite (sum_of_squares (f.of_ℕ 0) (block_error ins desired s)) ≡ true
      → let ref = take_block s.cfg.block_size s.cfg.partitions ins s.ref in
        process_block D ins desired s ≡ (
          record s { ref = ref },
          (block_error ins desired s, estimate s.cfg.block_size s.cfg.partitions s.h ref),
        )
  unfolding process_block
  process_block-frozen ins desired s frozen sound = rw (frozen, sound) refl

  -- A block that passes the check trips nothing, and writes the error and the estimate of the taps of
  -- before the block.
  pub process_block-passes :
      (ins desired : List S) (s : Fdaf S)
      → f.is_finite (checked_value ins desired s) ≡ true
      → let (next, out) = process_block D ins desired s in
        let ref = take_block s.cfg.block_size s.cfg.partitions ins s.ref in
        (next.watchdog ≡ s.watchdog)
        × (out ≡ (block_error ins desired s, estimate s.cfg.block_size s.cfg.partitions s.h ref))
  unfolding process_block adapt
  process_block-passes ins desired s sound =
      let error = block_error ins desired s in
      let frozen = sum_of_squares (f.of_ℕ 0) error in
      let slot = at (error_spectrum D s.cfg.block_size error) 0 in
      let value = λ (a : Bool). f.is_finite (if not a then frozen else slot) in
      elim (Bool-cases s.adapting) [
        | inl e ↦
            let good : f.is_finite slot ≡ true = ap value (sym e) ∙ sound in
            rw (e, good) (refl, refl)
        | inr e ↦
            let good : f.is_finite frozen ≡ true = ap value (sym e) ∙ sound in
            rw (e, good) (refl, refl)
      ]
