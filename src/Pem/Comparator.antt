-- ===== src/Pem/Comparator.antt =====
-- The shadow comparator of the canceller (include/mutap/pem_afc.h: update_shadow(),
-- shadow_residual_ratio()).
use mu_tap.Common.{◌≡◌, refl, ap, Bool-cases, inl, inr, List, Option, none, some}
use mathlib.Core.Option
use mu_tap.Common.Float.{Float}
use mu_tap.Spectrum.{Fft, sum_of_squares, take_block, estimate, subtract}
use mu_tap.Pem.{
  Core, NearEnd, Shadow, Pem, reset, shadow_enabled, shadow_residual_ratio, update_shadow,
  watchdog_trip, slide_window, run_core, adapt, process_block,
}

module _ {C P T K S : Type 0} ⦃f : Float S⦄ ⦃k : Core C S⦄ ⦃m : NearEnd P T S⦄
    ⦃q : Shadow K S⦄ where
  -- The comparator reads the core and the output, and moves neither.
  pub update_shadow-core :
      (u y e : List S) (shadow : Option K) (s : Pem C P T K S)
      → let after = update_shadow u y e shadow s in
        (after.core ≡ s.core) × (after.watchdog ≡ s.watchdog)
  unfolding update_shadow
  update_shadow-core u y e none s = (refl, refl)
  update_shadow-core u y e (some shadow) s = (refl, refl)

  -- The comparator is off, and has summed nothing.
  abbrev pub IsOff : Pem C P T K S → Type 0
  IsOff s = (s.shadow ≡ none) × (s.pm ≡ f.of_ℕ 0) × (s.ps ≡ f.of_ℕ 0)

  watchdog_trip-IsOff : (s : Pem C P T K S) → IsOff s → IsOff (watchdog_trip s).0
  unfolding watchdog_trip reset
  watchdog_trip-IsOff s (off, pm, ps) = (ap (Option.map q.clear) off, refl, refl)

  update_shadow-IsOff :
      (u y e : List S) (shadow : Option K) (s : Pem C P T K S)
      → shadow ≡ none
      → IsOff s
      → IsOff (update_shadow u y e shadow s)
  unfolding update_shadow
  update_shadow-IsOff u y e none s h off = off
  update_shadow-IsOff u y e (some shadow) s h off = absurd (Option.some-ne-none shadow h)

module _ {C P T K S : Type 0} ⦃f : Float S⦄ ⦃k : Core C S⦄ ⦃m : NearEnd P T S⦄ ⦃q : Shadow K S⦄
    ⦃t : Fft S⦄ where
  ratio_off : (s : Pem C P T K S) → s.shadow ≡ none → shadow_residual_ratio s ≡ f.of_ℕ 1
  unfolding shadow_residual_ratio shadow_enabled
  ratio_off s off = rw off refl

  adapt-IsOff : (u y e : List S) (s : Pem C P T K S) → IsOff s → IsOff (adapt u y e s).0
  unfolding adapt
  adapt-IsOff u y e s off =
      let window = slide_window (k.block_size s.core) e s.e_window in
      let predictor = m.analyze window s.predictor in
      let white_u = m.apply predictor u s.u_state in
      let white_y = m.apply predictor y s.y_state in
      let ran = run_core (k.watchdog_trips s.core) white_u.1 white_y.1 s.core in
      let after : Pem C P T K S = record s {
        e_window = window;
        predictor = predictor;
        u_state = white_u.0;
        y_state = white_y.0;
        core = ran.0.0;
      } in
      elim (Bool-cases ran.1) [
        | inl g ↦ rw g (update_shadow-IsOff white_u.1 white_y.1 ran.0.1 s.shadow after off.0 off)
        | inr g ↦ rw g (watchdog_trip-IsOff after off)
      ]

  off_lem : (u y : List S) (s : Pem C P T K S) → IsOff s → IsOff (process_block u y s).0
  unfolding process_block
  off_lem u y s off =
      let b = k.block_size s.core in
      let p_n = k.partitions s.core in
      let ref = take_block b p_n u s.ref in
      let echo = estimate b p_n (k.taps s.core) ref in
      let e = subtract y echo in
      let taken : Pem C P T K S = record s { ref = ref; echo = echo } in
      elim (Bool-cases (k.adapting s.core)) [
        | inl g ↦ rw g (adapt-IsOff u y e taken off)
        | inr g ↦ elim (Bool-cases (f.is_finite (sum_of_squares (f.of_ℕ 0) e))) [
          | inl v ↦ rw (g, v) off
          | inr v ↦ rw (g, v) (watchdog_trip-IsOff taken off)
        ]
      ]

  -- A canceller without a shadow stays without one through every block, trips included, and its ratio
  -- is 1, so it never reads as an alarm.
  pub process_block-IsOff :
      (u y : List S) (s : Pem C P T K S)
      → IsOff s
      → IsOff (process_block u y s).0 × (shadow_residual_ratio (process_block u y s).0 ≡ f.of_ℕ 1)
  process_block-IsOff u y s off =
      let after = off_lem u y s off in (after, ratio_off (process_block u y s).0 after.0)
