-- ===== src/Fdaf/Fresh.antt =====
-- The constructor and reset() of the filter (include/mutap/fdaf.h: partitioned_fdaf(), validated(),
-- reset()).
use mu_tap.Common.{
  ℕ, ◌+◌, ◌-◌, ◌*◌, ◌==◌, ◌≤◌, ◌<◌, ◌≡◌, refl, ap, ap₂, sym, ◌∙◌, subst, arith, Bool, true, not,
  ◌||◌, ltb, replicate, length-replicate, ok, passed, bind-parts, allowed, ok-injective,
}
use mu_tap.Common.Float.{Float}
use mu_tap.Spectrum.{Fft, clear_reference, checked_fft_size}
use mu_tap.Spectrum.Grid.{zeros_lem, zeros-IsGrid, replicate-IsGrid}
use mu_tap.Fdaf.Coherence.{FdafConfig}
use mu_tap.Suppressor.Weights.{is_power}
use mu_tap.Fdaf.{Fdaf, validated, reset, allocated, new_fdaf, bad_fft_size}
use mu_tap.Fdaf.Watchdog.{IsSized}

module _ {S : Type 0} ⦃f : Float S⦄ where
  -- What the checks leave of a configuration is the configuration.
  validated_lem :
      (cfg v : FdafConfig S)
      → validated cfg ≡ ok v
      → (cfg ≡ v) × (0 < cfg.partitions) × (4 ≤ cfg.block_size)
  unfolding validated
  validated_lem cfg v h =
      let z = f.of_ℕ 0 in
      let one = f.of_ℕ 1 in
      let (size, h1) = passed (ltb cfg.block_size 4 || not (is_power cfg.block_size)) _ h in
      let (some_partition, h2) = passed (cfg.partitions == 0) _ h1 in
      let (step, h3) =
        passed (not (f.lt z cfg.step_size) || not (f.lt cfg.step_size (f.of_ℕ 2))) _ h2 in
      let (floor, h4) = passed (not (f.lt z cfg.regularization)) _ h3 in
      let (smoothing, h5) =
        passed (not (f.le z cfg.power_smoothing) || not (f.lt cfg.power_smoothing one)) _ h4 in
      let (relative, h6) = passed (not (f.le z cfg.relative_regularization)) _ h5 in
      let (ipc, h7) =
        passed (not (f.le z cfg.ipc_smoothing) || not (f.lt cfg.ipc_smoothing one)) _ h6 in
      let (threshold, h8) =
        passed (not (f.le z cfg.ipc_freeze_threshold) || not (f.le cfg.ipc_freeze_threshold one)) _
          h7 in
      let (ratio, h9) = passed (not (f.le z cfg.transient_freeze_ratio)) _ h8 in
      (ok-injective h9, ground (arith, some_partition), ground (arith, size))

  -- The arrays, all zero, by their sizes, with the newest spectrum's slot.
  abbrev silent : ℕ → FdafConfig S → Fdaf S
  silent head cfg =
      let wide = cfg.block_size + cfg.block_size in
      let z = f.of_ℕ 0 in
      record (allocated wide cfg) {
        ref = record {
          input = replicate wide z;
          u = replicate cfg.partitions (replicate wide z);
          head = head;
        };
      }

  -- The arrays after a reset.
  abbrev blank : FdafConfig S → Fdaf S
  blank cfg = silent (cfg.partitions - 1) cfg

  reset-blank :
      (s : Fdaf S)
      → IsSized s
      → reset s ≡ record (blank s.cfg) { adapting = s.adapting; watchdog = s.watchdog }
  unfolding reset allocated clear_reference
  reset-blank s (ref, taps, power, cross, auto, error) =
      let b = s.cfg.block_size in
      let p_n = s.cfg.partitions in
      let wide = b + b in
      rw
        (
          zeros_lem s.ref.input wide ref.0,
          zeros-IsGrid p_n wide s.ref.u ref.1,
          zeros-IsGrid p_n wide s.h taps,
          zeros_lem s.power (b + 1) power,
          zeros-IsGrid p_n wide s.coherence.s_cross cross,
          zeros-IsGrid p_n (b + 1) s.coherence.s_uu auto,
          zeros_lem s.coherence.s_ee (b + 1) error,
        )
        refl

  silent-IsSized :
      (head : ℕ) (cfg : FdafConfig S) → head < cfg.partitions → IsSized (silent head cfg)
  unfolding allocated
  silent-IsSized head cfg h =
      let wide = cfg.block_size + cfg.block_size in
      let bins = cfg.block_size + 1 in
      let z = f.of_ℕ 0 in
      (
        (length-replicate wide z, replicate-IsGrid cfg.partitions wide z, h),
        replicate-IsGrid cfg.partitions wide z,
        length-replicate bins z,
        replicate-IsGrid cfg.partitions wide z,
        replicate-IsGrid cfg.partitions bins z,
        length-replicate bins z,
      )

  allocated-IsSized :
      (cfg : FdafConfig S)
      → 0 < cfg.partitions
      → IsSized (allocated (cfg.block_size + cfg.block_size) cfg)
  unfolding allocated
  allocated-IsSized cfg h = silent-IsSized 0 cfg h

  blank_cfg :
      (cfg : FdafConfig S) (on : Bool) (n : ℕ)
      → record (blank (blank cfg).cfg) { adapting = on; watchdog = n }
        ≡ record (blank cfg) { adapting = on; watchdog = n }
  unfolding allocated
  blank_cfg cfg on n = refl

  start_lem :
      (cfg : FdafConfig S)
      → let start = allocated (cfg.block_size + cfg.block_size) cfg in
        record (blank start.cfg) { adapting = start.adapting; watchdog = start.watchdog }
        ≡ blank cfg
  unfolding allocated
  start_lem cfg = refl

  pub reset-IsSized : (s : Fdaf S) → IsSized s → IsSized (reset s)
  reset-IsSized s inside =
      subst IsSized (sym (reset-blank s inside))
        (silent-IsSized (s.cfg.partitions - 1) s.cfg (omega (arith, inside.0.2)))

  -- A second reset changes nothing.
  pub reset-reset :
      (n : ℕ) (s : Fdaf S)
      → IsSized s
      → reset (record (reset s) { watchdog = n }) ≡ record (reset s) { watchdog = n }
  reset-reset n s inside =
      let blanked = reset-blank s inside in
      let counted = ap (λ (x : Fdaf S). record x { watchdog = n }) blanked in
      let silent_now : IsSized (record (blank s.cfg) { adapting = s.adapting; watchdog = n }) =
        silent-IsSized (s.cfg.partitions - 1) s.cfg (omega (arith, inside.0.2)) in
      ap reset counted
      ∙ reset-blank (record (blank s.cfg) { adapting = s.adapting; watchdog = n }) silent_now
      ∙ blank_cfg s.cfg s.adapting n
      ∙ sym counted

module _ {S : Type 0} ⦃f : Float S⦄ ⦃t : Fft S⦄ where
  new_fdaf_lem :
      (cfg : FdafConfig S) (fresh : Fdaf S)
      → new_fdaf cfg ≡ ok fresh
      → (fresh ≡ reset (allocated (cfg.block_size + cfg.block_size) cfg)) × (0 < cfg.partitions)
  unfolding new_fdaf checked_fft_size
  new_fdaf_lem cfg fresh h =
      let (v, valid, rest) = bind-parts (validated cfg) _ fresh h in
      let (same, some_partition, size) = validated_lem cfg v valid in
      let (n, fits, built) =
        bind-parts (checked_fft_size S (2 * v.block_size) bad_fft_size) _ fresh rest in
      let (supported, slots) = allowed (t.supports_size (2 * v.block_size)) bad_fft_size fits in
      let wide : n ≡ cfg.block_size + cfg.block_size =
        sym slots
        ∙ omega arith
        ∙ ap (λ (c : FdafConfig S). c.block_size + c.block_size) (sym same) in
      (
        sym (ok-injective built) ∙ ap₂ (λ k c. reset (allocated k c)) wide (sym same),
        some_partition,
      )

  -- The constructor's filter is of its configuration, adapting, without a trip, with its arrays of
  -- their sizes; and reset() of any filter of that configuration whose arrays have their sizes gives
  -- it back, but for the freeze and the count of trips, which reset() keeps.
  pub new_fdaf-reset :
      (cfg : FdafConfig S) (fresh : Fdaf S)
      → new_fdaf cfg ≡ ok fresh
      → IsSized fresh
        × (fresh.cfg ≡ cfg)
        × (fresh.adapting ≡ true)
        × (fresh.watchdog ≡ 0)
        × ((s : Fdaf S)
            → s.cfg ≡ cfg
            → IsSized s
            → reset s ≡ record fresh { adapting = s.adapting; watchdog = s.watchdog })
  unfolding allocated
  new_fdaf-reset cfg fresh h =
      let (made, some_partition) = new_fdaf_lem cfg fresh h in
      let start = allocated (cfg.block_size + cfg.block_size) cfg in
      let sized = allocated-IsSized cfg some_partition in
      let blanked : fresh ≡ blank cfg = made ∙ reset-blank start sized ∙ start_lem cfg in
      (
        subst IsSized (sym blanked) (silent-IsSized (cfg.partitions - 1) cfg (omega arith)),
        ap (λ (k : Fdaf S). k.cfg) blanked,
        ap (λ (k : Fdaf S). k.adapting) blanked,
        ap (λ (k : Fdaf S). k.watchdog) blanked,
        λ s same inside.
            reset-blank s inside
            ∙ ap (λ c. record (blank c) { adapting = s.adapting; watchdog = s.watchdog }) same
            ∙ ap (λ (k : Fdaf S). record k { adapting = s.adapting; watchdog = s.watchdog })
                (sym blanked),
      )
