-- ===== src/Pem/Cores.antt =====
-- The cores and the near-end models that the canceller takes (include/mutap/pem_afc.h: the template
-- arguments Core and Predictor), filled by those of this library.
use mu_tap.Common.{
  inc, inc-differs, ◌≡◌, ◌==◌, refl, ap, ◌∙◌, arith, true, false, ℕ, List, some, replicate,
}
use mu_tap.Common.Float.{Float, Cast}
use mathlib.Core.Option
use mu_tap.Spectrum.{Fft, subtract, take_block, clear_reference, zeros}
use mu_tap.Spectrum.Grid.{IsSizedFft}
use mu_tap.Fdaf
use mu_tap.Fdaf.{Fdaf}
use mu_tap.Fdaf.Watchdog.{IsSized, checked_value, process_block-trips, process_block-passes}
use mu_tap.Fdaf.Fresh.{reset-reset}
use mu_tap.Predictor.Lpc
use mu_tap.Predictor.Lpc.{LpcPredictor}
use mu_tap.Predictor.Warped
use mu_tap.Predictor.Warped.{WarpedPredictor}
use mu_tap.Predictor.Speech
use mu_tap.Predictor.Speech.{SpeechPredictor, SpeechState}
use mu_tap.Pem
use mu_tap.Pem.{Core, NearEnd, Shadow, Pem, update_shadow}
use mu_tap.Pem.Watchdog.{
  block_echo, block_window, fitted, white_u, white_y, heard, process_block-propagates,
}
use mu_tap.Pem.Comparator.{update_shadow-core}

-- partitioned_fdaf as the core.
unfoldable pub fdaf_core :
    {S : Type 0} (D : Type 0) ⦃f : Float S⦄ ⦃d : Float D⦄ ⦃c : Cast S D⦄ ⦃t : Fft S⦄
    → Core (Fdaf S) S
fdaf_core D = record {
  block_size = λ s. s.cfg.block_size;
  partitions = λ s. s.cfg.partitions;
  adapting = λ s. s.adapting;
  set_adaptation = Fdaf.set_adaptation;
  taps = λ s. s.h;
  process = λ u y s. let (after, out) = Fdaf.process_block D u y s in (after, out.0);
  clear = Fdaf.reset;
  watchdog_trips = λ s. some s.watchdog;
}

-- The three near-end models of lpc.h.
unfoldable pub lpc_near_end :
    {S : Type 0} (D : Type 0) ⦃f : Float S⦄ ⦃d : Float D⦄ ⦃c : Cast S D⦄
    → NearEnd (LpcPredictor S) (List S) S
lpc_near_end D = record {
  make_state = Lpc.make_state;
  reset_state = λ p s. Lpc.reset_state s;
  analyze = Lpc.analyze D;
  apply = Lpc.apply;
}

unfoldable pub warped_near_end :
    {S : Type 0} (D : Type 0) ⦃f : Float S⦄ ⦃d : Float D⦄ ⦃c : Cast S D⦄
    → NearEnd (WarpedPredictor S) (List S) S
warped_near_end D = record {
  make_state = Warped.make_state;
  reset_state = λ p s. Lpc.reset_state s;
  analyze = Warped.analyze D;
  apply = Warped.apply;
}

unfoldable pub speech_near_end :
    {S : Type 0} (D : Type 0) ⦃f : Float S⦄ ⦃d : Float D⦄ ⦃c : Cast S D⦄
    → NearEnd (SpeechPredictor S) (SpeechState S) S
speech_near_end D = record {
  make_state = Speech.make_state;
  reset_state = λ p s. Speech.reset_speech s;
  analyze = Speech.analyze_speech D;
  apply = Speech.apply_speech;
}

module _ {S P T K : Type 0} (D : Type 0) ⦃f : Float S⦄ ⦃d : Float D⦄ ⦃c : Cast S D⦄ ⦃t : Fft S⦄
    ⦃m : NearEnd P T S⦄ ⦃q : Shadow K S⦄ where
  -- The sum that the core's check reads of the prewhitened pair.
  abbrev pub pair_value : List S → List S → Pem (Fdaf S) P T K S → S
  pair_value u y s =
      checked_value D (white_u ⦃k = fdaf_core D⦄ u y s).1 (white_y ⦃k = fdaf_core D⦄ u y s).1 s.core

  -- The canceller after a trip on a block, with this core of this many partitions.
  abbrev pub cleared : List S → List S → Pem (Fdaf S) P T K S → Fdaf S → ℕ → Pem (Fdaf S) P T K S
  cleared u y s core p_n =
      let model = fitted ⦃k = fdaf_core D⦄ u y s in
      record {
        cfg = s.cfg;
        core = core;
        predictor = model;
        u_state = m.reset_state model (white_u ⦃k = fdaf_core D⦄ u y s).0;
        y_state = m.reset_state model (white_y ⦃k = fdaf_core D⦄ u y s).0;
        ref = clear_reference p_n (take_block s.core.cfg.block_size s.core.cfg.partitions u s.ref);
        e_window = zeros (block_window ⦃k = fdaf_core D⦄ u y s);
        echo = block_echo ⦃k = fdaf_core D⦄ u s;
        shadow = Option.map q.clear s.shadow;
        pm = f.of_ℕ 0;
        ps = f.of_ℕ 0;
        watchdog = inc s.watchdog;
      }

  -- The canceller over the NLMS core, adapting and with its arrays at their sizes and an FFT that
  -- keeps the sizes, on a block whose prewhitened pair fails the core's check: both count one more
  -- trip and e is zeros. The core is otherwise as its reset() leaves it. Of the canceller the
  -- reference history, the analysis window, the two model states, the shadow filter and the two
  -- smoothed powers are cleared; what stays is its configuration, the model that the block fitted,
  -- and the block's echo estimate.
  pub fdaf_core-trips :
      (u y : List S) (s : Pem (Fdaf S) P T K S)
      → IsSizedFft t
      → IsSized s.core
      → s.core.adapting ≡ true
      → f.is_finite (pair_value u y s) ≡ false
      → let (after, e) = Pem.process_block ⦃k = fdaf_core D⦄ u y s in
        (after
          ≡ cleared u y s
              (record (Fdaf.reset s.core) { watchdog = inc s.core.watchdog })
              s.core.cfg.partitions)
        × (e ≡ replicate s.core.cfg.block_size (f.of_ℕ 0))
  unfolding fdaf_core Pem.reset Fdaf.reset
  fdaf_core-trips u y s sized inside on unsound =
      let pair_u = (white_u ⦃k = fdaf_core D⦄ u y s).1 in
      let pair_y = (white_y ⦃k = fdaf_core D⦄ u y s).1 in
      let n = s.core.watchdog in
      let ran = process_block-trips D pair_u pair_y s.core sized inside unsound in
      let after = (Fdaf.process_block D pair_u pair_y s.core).0 in
      let counted : after.watchdog ≡ inc n = ap (λ r. r.0.watchdog) ran in
      let differs : (after.watchdog == n) ≡ false = ap (λ k. k == n) counted ∙ inc-differs n in
      let outcome =
        process_block-propagates ⦃k = fdaf_core D⦄ u y s n after.watchdog on refl refl in
      rw (outcome, differs)
        (
          ap (λ r. cleared u y s (Fdaf.reset r.0) r.0.cfg.partitions) ran
              ∙ ap (λ core. cleared u y s core s.core.cfg.partitions)
                  (reset-reset (inc n) s.core inside),
          ap (λ r. replicate r.0.cfg.block_size (f.of_ℕ 0)) ran,
        )

  -- On a block whose pair passes the check the canceller counts no trip, and e is the microphone less
  -- the estimate of the taps of before the block.
  pub fdaf_core-passes :
      (u y : List S) (s : Pem (Fdaf S) P T K S)
      → s.core.adapting ≡ true
      → f.is_finite (pair_value u y s) ≡ true
      → let (after, e) = Pem.process_block ⦃k = fdaf_core D⦄ u y s in
        (after.core.watchdog ≡ s.core.watchdog)
        × (after.watchdog ≡ s.watchdog)
        × (e ≡ subtract y (block_echo ⦃k = fdaf_core D⦄ u s))
  unfolding fdaf_core
  fdaf_core-passes u y s on sound =
      let pair_u = (white_u ⦃k = fdaf_core D⦄ u y s).1 in
      let pair_y = (white_y ⦃k = fdaf_core D⦄ u y s).1 in
      let n = s.core.watchdog in
      let after = (Fdaf.process_block D pair_u pair_y s.core).0 in
      let counted : after.watchdog ≡ n = (process_block-passes D pair_u pair_y s.core sound).0 in
      let same : (after.watchdog == n) ≡ true = ground (arith, counted) in
      let outcome =
        process_block-propagates ⦃k = fdaf_core D⦄ u y s n after.watchdog on refl refl in
      let (core, trips) =
        update_shadow-core ⦃k = fdaf_core D⦄ _ _ _ s.shadow (heard ⦃k = fdaf_core D⦄ u y s) in
      rw (outcome, same) (ap (λ (x : Fdaf S). x.watchdog) core ∙ counted, trips, refl)
