-- ===== src/Reverb/Sound.antt =====
-- What every accepted mix keeps (include/mutap/reverb_stage.h: reverb_return_core).
use mu_tap.Common.{
  ◌<◌, ◌≡◌, ◌==◌, refl, ap, sym, ◌∙◌, arith, false, Bool-cases, not, ◌&&◌, ◌||◌, inl, inr, ok, ltb,
  passed, ok-injective, subst,
}
use mu_tap.Common.Float.{Float}
use mu_tap.Reverb.{
  Reverb, ReturnCore, ReverbReturn, left, MixConfig, is_mid, differs, set_wet, set_return_mode,
  new_core,
}

module _ {R S : Type 0} ⦃f : Float S⦄ where
  -- The wet gain is a finite number of [0, 1], the dry gain is what is left of 1, and the mid return
  -- has two channels to read.
  abbrev pub IsSound : ReturnCore R S → Type 0
  IsSound c =
      ((not (f.is_finite c.wet) || f.lt c.wet (f.of_ℕ 0) || f.lt (f.of_ℕ 1) c.wet) ≡ false)
      × (c.dry ≡ f.sub (f.of_ℕ 1) c.wet)
      × (is_mid c.mode && ltb c.channels 2 ≡ false)

  -- Neither setter leaves a sound core unsound, whether it takes the value or not.
  pub setters-IsSound :
      (wet : S) (mode : ReverbReturn) (c : ReturnCore R S)
      → IsSound c
      → IsSound (set_wet wet c).0 × IsSound (set_return_mode mode c).0
  unfolding set_wet set_return_mode
  setters-IsSound wet mode c (bound, rest, room) = (
    elim (Bool-cases (not (f.is_finite wet) || f.lt wet (f.of_ℕ 0) || f.lt (f.of_ℕ 1) wet)) [
      | inl e ↦ rw e (bound, rest, room)
      | inr e ↦ rw e (e, refl, room)
    ],
    elim (Bool-cases (is_mid mode && ltb c.channels 2)) [
      | inl e ↦ rw e (bound, rest, room)
      | inr e ↦ rw e (bound, rest, e)
    ],
  )

  -- What a setter that accepts has done.
  set_wet-accepted :
      (wet : S) (c : ReturnCore R S)
      → not (set_wet wet c).1 ≡ false
      → ((set_wet wet c).0 ≡ record c { wet = wet; dry = f.sub (f.of_ℕ 1) wet })
        × ((not (f.is_finite wet) || f.lt wet (f.of_ℕ 0) || f.lt (f.of_ℕ 1) wet) ≡ false)
  unfolding set_wet
  set_wet-accepted wet c h =
      elim (Bool-cases (not (f.is_finite wet) || f.lt wet (f.of_ℕ 0) || f.lt (f.of_ℕ 1) wet)) [
        | inl e ↦ absurd (ground arith)
        | inr e ↦ (rw e refl, e)
      ]

  set_return_mode-accepted :
      (mode : ReverbReturn) (c : ReturnCore R S)
      → not (set_return_mode mode c).1 ≡ false
      → ((set_return_mode mode c).0 ≡ record c { mode = mode })
        × (is_mid mode && ltb c.channels 2 ≡ false)
  unfolding set_return_mode
  set_return_mode-accepted mode c h = elim (Bool-cases (is_mid mode && ltb c.channels 2)) [
    | inl e ↦ absurd (ground arith)
    | inr e ↦ (rw e refl, e)
  ]

module _ {R S : Type 0} ⦃f : Float S⦄ ⦃v : Reverb R S⦄ where
  -- The core that the constructor's checks leave.
  abbrev accepted : R → MixConfig S → ReturnCore R S
  accepted reverb cfg = record {
    reverb = reverb;
    block = cfg.block_size;
    channels = cfg.channels;
    wet = cfg.wet;
    dry = f.sub (f.of_ℕ 1) cfg.wet;
    mode = cfg.mode;
  }

  -- The constructor accepts a sound core only, of the configuration's counts, gain and mode, on a
  -- reverb of one input and as many outputs where it says how many it has.
  pub new_core-IsSound :
      (reverb : R) (cfg : MixConfig S) (c : ReturnCore R S)
      → new_core reverb cfg ≡ ok c
      → IsSound c
        × (c ≡ accepted reverb cfg)
        × (0 < c.block)
        × (0 < c.channels)
        × (differs (v.num_outputs c.reverb) c.channels ≡ false)
        × (differs (v.num_inputs c.reverb) 1 ≡ false)
  unfolding new_core
  new_core-IsSound reverb cfg c h =
      let (b, h1) = passed (cfg.block_size == 0) _ h in
      let (n, h2) = passed (cfg.channels == 0) _ h1 in
      let (same, h3) = passed (differs (v.num_outputs reverb) cfg.channels) _ h2 in
      let (mono, h4) = passed (differs (v.num_inputs reverb) 1) _ h3 in
      let wetted = set_wet cfg.wet (record {
        reverb = reverb;
        block = cfg.block_size;
        channels = cfg.channels;
        wet = f.of_ℕ 0;
        dry = f.of_ℕ 1;
        mode = left;
      }) in
      let (wet_ok, h5) = passed (not wetted.1) _ h4 in
      let moded = set_return_mode cfg.mode wetted.0 in
      let (mode_ok, h6) = passed (not moded.1) _ h5 in
      let (w, bound) = set_wet-accepted cfg.wet _ wet_ok in
      let (m, room) = set_return_mode-accepted cfg.mode wetted.0 mode_ok in
      let e : accepted reverb cfg ≡ c =
        sym (m ∙ ap (λ (k : ReturnCore R S). record k { mode = cfg.mode }) w) ∙ ok-injective h6 in
      subst
        (λ k.
          IsSound k
          × (k ≡ accepted reverb cfg)
          × (0 < k.block)
          × (0 < k.channels)
          × (differs (v.num_outputs k.reverb) k.channels ≡ false)
          × (differs (v.num_inputs k.reverb) 1 ≡ false))
        e
        (
          (
            bound,
            refl,
            subst (λ (k : ReturnCore R S). is_mid cfg.mode && ltb k.channels 2 ≡ false) w room,
          ),
          refl,
          ground arith,
          ground arith,
          same,
          mono,
        )
