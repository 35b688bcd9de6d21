-- ===== src/Kalman/Watchdog.antt =====
-- The NaN watchdog of the Kalman filter, and its window (include/mutap/fd_kalman.h: process_block(),
-- watchdog_trip(), reset(); include/mutap/watchdog.h: the contract).
use mu_tap.Common.{
  inc, ℕ, ◌+◌, ◌-◌, ◌*◌, ◌%◌, ◌≤◌, ◌≡◌, refl, ap, ap₂, sym, ◌∙◌, arith, Bool, true, false, not,
  ◌&&◌, ◌||◌, Bool-cases, inl, inr, List, [], ◌++◌, map, length, take, drop, set, leb, write_at,
  replicate, if◌then◌else◌, length-set, length-modify, length-drop, length-write_at,
  write_at-splice, append_nil, drop-all, take-all, take-append_le,
}
use mu_tap.Common.Float.{Float}
use mu_tap.Detector.Loops.{at}
use mu_tap.Spectrum.{
  Fft, Reference, zeros, sum_of_squares, subtract, take_block, copy_block, estimate,
  clear_reference, lagged,
}
use mu_tap.Spectrum.Window.{slide_in-window}
use mu_tap.Spectrum.Checks.{check_either}
use mu_tap.Spectrum.Grid.{
  IsSizedFft, IsReference, loop-keeps, length-modify₂, zeros_lem, map_constant,
  clear_reference-take_block,
}
use mu_tap.Kalman.Types.{KalmanConfig, Fdkf, Novelty}
use mu_tap.Kalman.Excitation.{update_bin, update_pair, magnitude, update_novelty}
use mu_tap.Kalman.Narrowband.{count_narrow}
use mu_tap.Kalman.{reset, watchdog_trip, holds, error_spectrum, hear, process_block}

-- The three checks of process_block(), of which the freeze and the guard choose one.
trips :
    {A : Type 0} (adapting held power_ok slot_ok : Bool)
    (early late frozen kept corrected target : A)
    → (if not adapting || held then power_ok else slot_ok) ≡ false
    → early ≡ target
    → late ≡ target
    → (if not adapting
        then if not power_ok then early else frozen
        else if held
        then if not power_ok then late else kept
        else if not slot_ok
        then late
        else corrected)
      ≡ target
trips false held power_ok slot_ok early late frozen kept corrected target h e l = rw h e
trips true true power_ok slot_ok early late frozen kept corrected target h e l = rw h l
trips true false power_ok slot_ok early late frozen kept corrected target h e l = rw h l

module _ {S : Type 0} ⦃f : Float S⦄ ⦃t : Fft S⦄ where
  -- The block moves and copies of the Kalman filter are the element loop of the others.
  pub copy_block-take_block :
      (b p_n : ℕ) (ins : List S) (r : Reference S)
      → length ins ≡ b
      → length r.input ≡ b + b
      → copy_block b p_n ins r ≡ take_block b p_n ins r
  unfolding copy_block take_block
  copy_block-take_block b p_n ins r size len =
      let half = drop b r.input in
      let rest = length-drop b r.input in
      let first : take b half ≡ half = take-all b half (omega (arith, rest)) in
      let moved = write_at 0 (take b half) r.input in
      let fits : 0 + length (take b half) ≤ length r.input = omega (arith, ap length first, rest) in
      let start : take b moved ≡ half =
        ap (take b) (write_at-splice 0 (take b half) r.input fits)
        ∙ take-append_le b (take b half) (drop (0 + length (take b half)) r.input)
            (omega (arith, ap length first, rest))
        ∙ take-all b (take b half) (omega (arith, ap length first, rest))
        ∙ first in
      let tail : drop (b + length ins) moved ≡ [] =
        drop-all (b + length ins) moved (omega (arith, length-write_at 0 (take b half) r.input)) in
      let copied : write_at b ins moved ≡ half ++ ins =
        write_at-splice b ins moved (omega (arith, length-write_at 0 (take b half) r.input))
        ∙ rw (start, tail) (ap (λ ys. half ++ ys) (append_nil ins)) in
      ap
        (λ input. record {
          input = input;
          u = set r.u ((r.head + 1) % p_n) (t.forward input);
          head = (r.head + 1) % p_n;
        })
        (copied ∙ sym (slide_in-window b ins r.input size len))

module _ {S : Type 0} ⦃f : Float S⦄ where
  -- The arrays have the sizes that the constructor gives them.
  abbrev pub IsNovelty : ℕ → Novelty S → Type 0
  IsNovelty bins s =
      (length s.coh_num ≡ 2 * bins) × (length s.coh_den ≡ bins) × (length s.nov ≡ bins)

  update_bin-IsNovelty :
      (cfg : KalmanConfig S) (bin : ℕ) (nr ni mag : S) (bins : ℕ) (s : Novelty S)
      → IsNovelty bins s
      → IsNovelty bins (update_bin cfg bin nr ni mag s)
  unfolding update_bin
  update_bin-IsNovelty cfg bin nr ni mag bins s (num, den, nov) = (
    length-modify₂ s.coh_num (2 * bin) (2 * bin + 1) _ _ ∙ num,
    length-modify s.coh_den bin _ ∙ den,
    length-set s.nov bin _ ∙ nov,
  )

  update_novelty-IsNovelty :
      (cfg : KalmanConfig S) (ref : Reference S) (bins : ℕ) (s : Novelty S)
      → IsNovelty bins s
      → IsNovelty bins (update_novelty cfg ref s)
  unfolding update_novelty
  update_novelty-IsNovelty cfg ref bins s inside =
      let half = cfg.block_size in
      let z = f.of_ℕ 0 in
      let u = lagged cfg.partitions ref.head ref.u 0 in
      let up = lagged cfg.partitions ref.head ref.u 1 in
      let d0 = f.mul (at u 0) (at up 0) in
      let dn = f.mul (at u 1) (at up 1) in
      let first = update_bin-IsNovelty cfg 0 d0 z (magnitude d0) bins s inside in
      elim (Bool-cases (f.lt z cfg.novelty_smoothing && leb 2 cfg.partitions)) [
        | inl e ↦ rw e (
            loop-keeps (IsNovelty bins) (update_pair cfg u up)
              (λ k x h. update_bin-IsNovelty cfg k _ _ _ bins x h) (half - 1) 1 _
              (update_bin-IsNovelty cfg half dn z (magnitude dn) bins _ first))
        | inr e ↦ rw e inside
      ]

  -- What a block changes before its check a reset clears.
  reset_novelty :
      (bins : ℕ) (s r : Novelty S)
      → IsNovelty bins s
      → IsNovelty bins r
      → ◌≡◌ {A = Novelty S}
          (record {
            coh_num = zeros s.coh_num;
            coh_den = zeros s.coh_den;
            nov = map (λ x. f.of_ℕ 1) s.nov;
          })
          (record {
            coh_num = zeros r.coh_num;
            coh_den = zeros r.coh_den;
            nov = map (λ x. f.of_ℕ 1) r.nov;
          })
  reset_novelty bins s r (num, den, nov) (num', den', nov') =
      rw
        (
          zeros_lem s.coh_num (2 * bins) num,
          zeros_lem s.coh_den bins den,
          map_constant (f.of_ℕ 1) s.nov bins nov,
          zeros_lem r.coh_num (2 * bins) num',
          zeros_lem r.coh_den bins den',
          map_constant (f.of_ℕ 1) r.nov bins nov',
        )
        refl

module _ {S : Type 0} ⦃f : Float S⦄ ⦃t : Fft S⦄ where
  -- The arrays that a block writes before its check have their sizes.
  abbrev pub IsHeard : Fdkf S → Type 0
  IsHeard s =
      IsReference s.cfg.block_size s.cfg.partitions s.ref
      × IsNovelty (s.cfg.block_size + 1) s.novelty

  reset-hear :
      (ins : List S) (n : ℕ) (s : Fdkf S)
      → length ins ≡ s.cfg.block_size
      → IsSizedFft t
      → IsHeard s
      → reset (record (hear ins s) { nb_count = n }) ≡ reset s
  unfolding reset hear
  reset-hear ins n s size sized (ref, novelty) =
      let b = s.cfg.block_size in
      let p_n = s.cfg.partitions in
      let after = update_novelty s.cfg (copy_block b p_n ins s.ref) s.novelty in
      ap₂ (λ r v. record (reset s) { ref = r; novelty = v })
        (ap (clear_reference p_n) (copy_block-take_block b p_n ins s.ref size ref.0)
          ∙ clear_reference-take_block b p_n ins s.ref sized ref)
        (reset_novelty (b + 1) after s.novelty
          (update_novelty-IsNovelty s.cfg (copy_block b p_n ins s.ref) (b + 1) s.novelty novelty)
          novelty)

  tripped_lem :
      (ins : List S) (n : ℕ) (s : Fdkf S)
      → length ins ≡ s.cfg.block_size
      → IsSizedFft t
      → IsHeard s
      → let silence = replicate s.cfg.block_size (f.of_ℕ 0) in
        watchdog_trip (record (hear ins s) { nb_count = n })
        ≡ (record (reset s) { watchdog = inc s.watchdog }, (silence, silence))
  unfolding watchdog_trip hear
  tripped_lem ins n s size sized inside =
      let silence = replicate s.cfg.block_size (f.of_ℕ 0) in
      ap (λ (r : Fdkf S). (record r { watchdog = inc s.watchdog }, (silence, silence)))
        (reset-hear ins n s size sized inside)

  -- The error that a block gives if nothing is wrong.
  abbrev pub block_error : List S → List S → Fdkf S → List S
  block_error ins desired s =
      subtract desired (estimate s.cfg.block_size s.cfg.partitions s.h (hear ins s).ref)

  -- What the finite check reads: the sum of squares of the error while the filter is frozen or the
  -- narrowband guard holds it, else the first slot of the error spectrum.
  abbrev pub checked_value : List S → List S → Fdkf S → S
  checked_value ins desired s =
      let error = block_error ins desired s in
      if not s.adapting || holds s.cfg (count_narrow s.cfg (hear ins s).ref s.nb_count)
      then sum_of_squares (f.of_ℕ 0) error
      else at (error_spectrum s.cfg.block_size error) 0

  -- With the reference and the novelty at their sizes, an FFT that keeps the sizes and block_size
  -- samples in, a block that fails the check resets the filter as reset() does, before it heard the
  -- block, counts the trip, and writes zeros to both outputs. The configuration and the freeze
  -- survive.
  pub process_block-resets :
      (ins desired : List S) (s : Fdkf S)
      → length ins ≡ s.cfg.block_size
      → IsSizedFft t
      → IsHeard s
      → f.is_finite (checked_value ins desired s) ≡ false
      → let silence = replicate s.cfg.block_size (f.of_ℕ 0) in
        process_block ins desired s
        ≡ (record (reset s) { watchdog = inc s.watchdog }, (silence, silence))
  unfolding process_block hear
  process_block-resets ins desired s size sized inside unsound =
      let error = block_error ins desired s in
      let count = count_narrow s.cfg (hear ins s).ref s.nb_count in
      let held = holds s.cfg count in
      let silence = replicate s.cfg.block_size (f.of_ℕ 0) in
      let tripped : (n : ℕ)
          → watchdog_trip (record (hear ins s) { nb_count = n })
            ≡ (record (reset s) { watchdog = inc s.watchdog }, (silence, silence)) =
        λ n. tripped_lem ins n s size sized inside in
      trips s.adapting held _ _ _ _ _ _ _ _
        (check_either {S = S} (not s.adapting || held) (sum_of_squares (f.of_ℕ 0) error)
            (at (error_spectrum s.cfg.block_size error) 0)
          ∙ unsound)
        (tripped s.nb_count) (tripped count)
