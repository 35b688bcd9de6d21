-- ===== src/Kalman/Core.antt =====
-- The Kalman filter as the canceller's core and as its shadow, and the canceller that the chain takes
-- (include/mutap/pem_afc.h: the template argument Core and m_shadow; include/mutap/afc_chain.h: the
-- template argument Canceller).
use mu_tap.Common.{
  inc, inc-differs, ◌∙◌, ◌*◌, ◌≡◌, ◌==◌, refl, ap, true, false, List, some, length, replicate,
}
use mu_tap.Common.Float.{Float}
use mu_tap.Spectrum.{Fft}
use mu_tap.Spectrum.Grid.{IsSizedFft}
use mu_tap.Fdaf.{impulse_response}
use mu_tap.Kalman
use mu_tap.Kalman.Types.{Fdkf}
use mu_tap.Kalman.Watchdog.{IsHeard, checked_value, process_block-resets}
use mu_tap.Pem
use mu_tap.Pem.{NearEnd, Shadow, Pem}
use mu_tap.Pem.Watchdog.{white_u, white_y, process_block-propagates}
use mu_tap.Chain.Types.{Canceller}

module _ {S : Type 0} ⦃f : Float S⦄ ⦃t : Fft S⦄ where
  -- partitioned_fdkf as the core.
  unfoldable pub fdkf_core : Pem.Core (Fdkf S) S
  fdkf_core = record {
    block_size = λ s. s.cfg.block_size;
    partitions = λ s. s.cfg.partitions;
    adapting = λ s. s.adapting;
    set_adaptation = Kalman.set_adaptation;
    taps = λ s. s.h;
    process = λ u y s. let (after, out) = Kalman.process_block u y s in (after, out.0);
    clear = Kalman.reset;
    watchdog_trips = λ s. some s.watchdog;
  }

  unfoldable pub fdkf_shadow : Shadow (Fdkf S) S
  fdkf_shadow = record {
    process = λ u y s. let (after, out) = Kalman.process_block u y s in (after, out.0);
    clear = Kalman.reset;
  }

module _ {S P T : Type 0} ⦃f : Float S⦄ ⦃t : Fft S⦄ ⦃m : NearEnd P T S⦄ where
  -- pem_afc on the Kalman core as the chain's canceller, from a canceller that the constructor made.
  unfoldable pub pem_canceller :
      Pem (Fdkf S) P T (Fdkf S) S → Canceller (Pem (Fdkf S) P T (Fdkf S) S) S
  unfolding fdkf_core fdkf_shadow
  pem_canceller fresh = record {
    block_size = fresh.core.cfg.block_size;
    filter_length = fresh.core.cfg.block_size * fresh.core.cfg.partitions;
    fresh = fresh;
    process = Pem.process_block ⦃k = fdkf_core⦄ ⦃q = fdkf_shadow⦄;
    clear = Pem.reset ⦃k = fdkf_core⦄ ⦃q = fdkf_shadow⦄;
    adapt = Pem.set_adaptation ⦃k = fdkf_core⦄ ⦃m = m⦄ ⦃q = fdkf_shadow⦄;
    impulse_response = λ s. impulse_response s.core.cfg.block_size s.core.h;
    uncertainty_ratio = λ s. Kalman.uncertainty_ratio s.core;
    shadow_residual_ratio = Pem.shadow_residual_ratio ⦃k = fdkf_core⦄ ⦃m = m⦄ ⦃q = fdkf_shadow⦄;
    shadow_enabled = Pem.shadow_enabled ⦃f = f⦄ ⦃k = fdkf_core⦄ ⦃m = m⦄ ⦃q = fdkf_shadow⦄;
  }

module _ {S P T K : Type 0} ⦃f : Float S⦄ ⦃t : Fft S⦄ ⦃m : NearEnd P T S⦄ ⦃q : Shadow K S⦄ where
  -- The sum that the core's check reads of the prewhitened pair.
  abbrev pub pair_value : List S → List S → Pem (Fdkf S) P T K S → S
  pair_value u y s =
      checked_value (white_u ⦃k = fdkf_core⦄ u y s).1 (white_y ⦃k = fdkf_core⦄ u y s).1 s.core

  -- The canceller over the Kalman core, adapting, on a block whose prewhitened pair fails the core's
  -- check: the canceller counts one more trip, its core too, the core's taps and variances are as
  -- reset() leaves them, and e is zeros.
  pub fdkf_core-trips :
      (u y : List S) (s : Pem (Fdkf S) P T K S)
      → IsSizedFft t
      → IsHeard s.core
      → length (white_u ⦃k = fdkf_core⦄ u y s).1 ≡ s.core.cfg.block_size
      → s.core.adapting ≡ true
      → f.is_finite (pair_value u y s) ≡ false
      → let (after, e) = Pem.process_block ⦃k = fdkf_core⦄ u y s in
        (after.core
          ≡ Kalman.reset (record (Kalman.reset s.core) { watchdog = inc s.core.watchdog }))
        × (after.watchdog ≡ inc s.watchdog)
        × (e ≡ replicate s.core.cfg.block_size (f.of_ℕ 0))
  unfolding fdkf_core Pem.reset Kalman.reset
  fdkf_core-trips u y s sized inside size on unsound =
      let pair_u = (white_u ⦃k = fdkf_core⦄ u y s).1 in
      let pair_y = (white_y ⦃k = fdkf_core⦄ u y s).1 in
      let n = s.core.watchdog in
      let ran = process_block-resets pair_u pair_y s.core size sized inside unsound in
      let after = (Kalman.process_block pair_u pair_y s.core).0 in
      let counted : after.watchdog ≡ inc n = ap (λ r. r.0.watchdog) ran in
      let differs : (after.watchdog == n) ≡ false = ap (λ k. k == n) counted ∙ inc-differs n in
      let outcome = process_block-propagates ⦃k = fdkf_core⦄ u y s n after.watchdog on refl refl in
      rw (outcome, differs)
        (
          ap (λ r. Kalman.reset r.0) ran,
          refl,
          ap (λ r. replicate r.0.cfg.block_size (f.of_ℕ 0)) ran,
        )
