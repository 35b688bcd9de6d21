-- ===== src/Pem/Watchdog.antt =====
-- The NaN watchdog of the canceller (include/mutap/pem_afc.h: process_block(), watchdog_trip();
-- include/mutap/watchdog.h: the contract).
use mu_tap.Common.{
  inc, ℕ, ◌≡◌, ◌==◌, refl, true, false, Bool-cases, inl, inr, List, some, replicate, if◌then◌else◌,
}
use mu_tap.Common.Float.{Float}
use mu_tap.Spectrum.{Fft, sum_of_squares, subtract, take_block, estimate}
use mu_tap.Pem.{
  Core, NearEnd, Shadow, Pem, reset, watchdog_trip, slide_window, run_core, adapt, update_shadow,
  process_block,
}

module _ {C P T K S : Type 0} ⦃f : Float S⦄ ⦃k : Core C S⦄ ⦃m : NearEnd P T S⦄ ⦃q : Shadow K S⦄
    ⦃t : Fft S⦄ where
  -- What a block cancels with: the estimate of the core's taps of before the block.
  abbrev pub block_echo : List S → Pem C P T K S → List S
  block_echo u s =
      let b = k.block_size s.core in
      let p_n = k.partitions s.core in estimate b p_n (k.taps s.core) (take_block b p_n u s.ref)

  -- A frozen canceller whose output passes the check hears the block and changes nothing else: not the
  -- core, the near-end model, its stream states, the analysis window or the comparator. One whose
  -- output fails it is reset as reset() does, counts the trip, and writes zeros.
  pub process_block-frozen :
      (u y : List S) (s : Pem C P T K S)
      → k.adapting s.core ≡ false
      → let b = k.block_size s.core in
        let e = subtract y (block_echo u s) in
        let taken = record s {
          ref = take_block b (k.partitions s.core) u s.ref;
          echo = block_echo u s;
        } in
        process_block u y s ≡ (
          if f.is_finite (sum_of_squares (f.of_ℕ 0) e)
          then (taken, e)
          else (record (reset taken) { watchdog = inc s.watchdog }, replicate b (f.of_ℕ 0)))
  unfolding process_block watchdog_trip
  process_block-frozen u y s frozen =
      elim (Bool-cases (f.is_finite (sum_of_squares (f.of_ℕ 0) (subtract y (block_echo u s))))) [
        | inl e ↦ rw (frozen, e) refl
        | inr e ↦ rw (frozen, e) refl
      ]

  -- What an adapting block fits and prewhitens.
  abbrev pub block_window : List S → List S → Pem C P T K S → List S
  block_window u y s = slide_window (k.block_size s.core) (subtract y (block_echo u s)) s.e_window

  abbrev pub fitted : List S → List S → Pem C P T K S → P
  fitted u y s = m.analyze (block_window u y s) s.predictor

  abbrev pub white_u : List S → List S → Pem C P T K S → T × List S
  white_u u y s = m.apply (fitted u y s) u s.u_state

  abbrev pub white_y : List S → List S → Pem C P T K S → T × List S
  white_y u y s = m.apply (fitted u y s) y s.y_state

  -- The core's call on the prewhitened pair.
  abbrev pub core_call : List S → List S → Pem C P T K S → C × List S
  core_call u y s = k.process (white_u u y s).1 (white_y u y s).1 s.core

  -- The canceller after the call, before the verdict.
  abbrev pub heard : List S → List S → Pem C P T K S → Pem C P T K S
  heard u y s = record s {
    ref = take_block (k.block_size s.core) (k.partitions s.core) u s.ref;
    echo = block_echo u s;
    e_window = block_window u y s;
    predictor = fitted u y s;
    u_state = (white_u u y s).0;
    y_state = (white_y u y s).0;
    core = (core_call u y s).0;
  }

  -- An adapting block on a core that counts its trips. If the core counted one, the canceller is reset
  -- as reset() does, the trip counted, and e zeros. If not, e is the microphone less the estimate of
  -- the taps of before the block, and the comparator alone runs after the core.
  pub process_block-propagates :
      (u y : List S) (s : Pem C P T K S) (before after : ℕ)
      → k.adapting s.core ≡ true
      → k.watchdog_trips s.core ≡ some before
      → k.watchdog_trips (core_call u y s).0 ≡ some after
      → process_block u y s ≡ (
          if after == before
          then (
            update_shadow
                (white_u u y s).1
                (white_y u y s).1
                (core_call u y s).1
                s.shadow
                (heard u y s),
            subtract y (block_echo u s),
          )
          else (
            record (reset (heard u y s)) { watchdog = inc s.watchdog },
            replicate (k.block_size (core_call u y s).0) (f.of_ℕ 0),
          ))
  unfolding process_block adapt run_core watchdog_trip
  process_block-propagates u y s before after on counted now = elim (Bool-cases (after == before)) [
    | inl e ↦ rw (on, counted, now, e) refl
    | inr e ↦ rw (on, counted, now, e) refl
  ]
