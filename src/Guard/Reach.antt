-- ===== src/Guard/Reach.antt =====
-- Every guard that a host can reach is valid (include/mutap/howl_guard.h: the whole interface).
use mu_tap.Common.{
  ℕ, zero, suc, ◌==◌, ◌≡◌, refl, ap, sym, subst, Bool, arith, List, [], ◌∷◌, All-map, Option,
  Bool-cases, inl, inr, modify,
}
use mu_tap.Common.Float.{Float, Cast}
use mu_tap.Detector.Types.{HowlDetector}
use mu_tap.Guard.Types.{GuardPolicy, GuardCalibration, Settings, MicState}
use mu_tap.Guard.Machine.{step}
use mu_tap.Guard.Machine.Invariant.{IsValid, step-IsValid}
use mu_tap.Guard.Calibration.{Histogram, calibrate_mic, set_thresholds, sum}
use mu_tap.Guard.Policy.{settings_of}
use mu_tap.Guard.Operations.{
  Channel, HowlGuard, mics, analyzed, set_mic_thresholds, sense_all, any_trip, readings, sample_all,
  sample, update, adopt, set_policy, set_cap_db, clear, clear_calibration,
}
use mu_tap.Guard.Operations.Valid.{
  AllValid, attribute-AllValid, render-AllValid, clear_mic-IsValid, reset_mic-IsValid,
  watchdog_mic-IsValid, follow_policy-IsValid, forget_thresholds-IsValid, cap_changed-IsValid,
  sense_all-AllValid, put_mics-AllValid, on_mics-AllValid,
}
use mu_tap.Guard.Session.{
  reset, reset_channels, calibrate_begin, begin_channels, calibrate_end, end_channels,
}

module _ {S : Type 0} where
  measured-IsValid :
      (c : Settings S) (a b : S) (s : MicState S)
      → IsValid c s
      → IsValid c (record s { a_db = a; d_db = b })
  measured-IsValid c a b s v = ground arith

module _ {S D : Type 0} ⦃f : Float S⦄ where
  abbrev pub IsGuarded : HowlGuard S D → Type 0
  IsGuarded g = AllValid g.settings (mics g.channels)

  reset_channels-AllValid :
      (c : Settings S) (chs : List (Channel S D)) → AllValid c (mics (reset_channels c chs))
  unfolding reset_channels
  reset_channels-AllValid c [] = tt
  reset_channels-AllValid c (ch ∷ chs) = (reset_mic-IsValid c ch.mic, reset_channels-AllValid c chs)

  reset-IsGuarded : (g : HowlGuard S D) → IsGuarded (reset g)
  unfolding reset
  reset-IsGuarded g = reset_channels-AllValid g.settings g.channels

  analyzed-IsValid :
      (c : Settings S) (u w : S) (ch : Channel S D) (t : HowlDetector S D)
      → IsValid c ch.mic
      → IsValid c (analyzed c u w ch t).mic
  unfolding analyzed
  analyzed-IsValid c u w ch t v =
      elim (Bool-cases (f.is_finite (f.add (f.add t.state.power_db u) w))) [
        | inl finite ↦ rw finite (measured-IsValid c _ _ ch.mic v)
        | inr fault ↦ rw fault (watchdog_mic-IsValid c ch.mic v)
      ]

  put-AllValid :
      (c : Settings S) (chs : List (Channel S D)) (i : ℕ) (g : Channel S D → Channel S D)
      → ((ch : Channel S D) → IsValid c ch.mic → IsValid c (g ch).mic)
      → AllValid c (mics chs)
      → AllValid c (mics (modify chs i g))
  put-AllValid c [] i g keep h = tt
  put-AllValid c (ch ∷ chs) zero g keep (v, vs) = (keep ch v, vs)
  put-AllValid c (ch ∷ chs) (suc i) g keep (v, vs) = (v, put-AllValid c chs i g keep vs)

module _ {S D : Type 0} ⦃f : Float S⦄ ⦃d : Float D⦄ ⦃c : Cast S D⦄ where
  sample_all-mics : (chs : List (Channel S D)) → mics (sample_all chs) ≡ mics chs
  unfolding sample_all
  sample_all-mics [] = refl
  sample_all-mics (ch ∷ chs) = ap (◌∷◌ ch.mic) (sample_all-mics chs)

  sample-mics : (g : HowlGuard S D) → mics (sample g).channels ≡ mics g.channels
  unfolding sample
  sample-mics g = elim (Bool-cases g.sampling) [
    | inl on ↦ rw on (sample_all-mics g.channels)
    | inr off ↦ rw off
  ]

  sample-settings : (g : HowlGuard S D) → (sample g).settings ≡ g.settings
  unfolding sample
  sample-settings g = elim (Bool-cases g.sampling) [ inl on ↦ rw on | inr off ↦ rw off ]

  -- A tick of the whole guard keeps every mic's invariant.
  pub update-IsGuarded : (g : HowlGuard S D) → IsGuarded g → IsGuarded (update g)
  unfolding update
  update-IsGuarded g h =
      let s = g.settings in
      let sampled = subst (AllValid s) (sym (sample-mics g)) h in
      let (read, sensed) = sense_all-AllValid s g.det_cfg (sample g).channels sampled in
      let chs = sense_all g.det_cfg (sample g).channels in
      let tripped = attribute-AllValid s (any_trip chs) (readings chs) g.episode read in
      let stepped = All-map (IsValid s) (step s) (step-IsValid s) _ tripped in
      rw (sample-settings g)
        (put_mics-AllValid s _ chs (render-AllValid s g.block _ stepped) sensed)

  adopt-IsGuarded : (p : GuardPolicy D) (g : HowlGuard S D) → IsGuarded g → IsGuarded (adopt p g)
  unfolding adopt
  adopt-IsGuarded p g h =
      let s = g.settings in
      let s' = settings_of g.rate g.tick_s p in
      on_mics-AllValid s s' _ (cap_changed-IsValid s s') _
        (on_mics-AllValid s s _ (follow_policy-IsValid s s') g.channels h)

  set_thresholds-IsValid :
      (s' : Settings S) (x y : D) (s : MicState S)
      → IsValid s' s
      → IsValid s' (set_thresholds x y s)
  unfolding set_thresholds
  set_thresholds-IsValid s' x y s v = record {
    arming_fresh = v.arming_fresh;
    opened_declared = v.opened_declared;
    capped_undeclared = v.capped_undeclared;
    latched_flag = v.latched_flag;
    cap_needed = v.cap_needed;
    rearm_disarms = λ _. refl;
    strikes_capped = v.strikes_capped;
    ok_run_capped = v.ok_run_capped;
    notok_run_capped = v.notok_run_capped;
    in_state_capped = v.in_state_capped;
    hold_capped = v.hold_capped;
  }

  calibrate_mic-IsValid :
      (s' : Settings S) (apply : Bool) (p : GuardPolicy D) (s : MicState S) (h : Histogram)
      (old : GuardCalibration D)
      → IsValid s' s
      → IsValid s' (calibrate_mic apply p s h old).0
  unfolding calibrate_mic
  calibrate_mic-IsValid s' apply p s h old v = elim (Bool-cases (sum h.d_bins == 0)) [
    | inl none_sampled ↦ rw none_sampled v
    | inr sampled ↦ rw sampled (elim (Bool-cases apply) [
      | inl yes_apply ↦ rw yes_apply (set_thresholds-IsValid s' _ _ s v)
      | inr no_apply ↦ rw no_apply v
    ])
  ]

  begin_channels-mics : (chs : List (Channel S D)) → mics (begin_channels chs) ≡ mics chs
  unfolding begin_channels
  begin_channels-mics [] = refl
  begin_channels-mics (ch ∷ chs) = ap (◌∷◌ ch.mic) (begin_channels-mics chs)

  end_channels-AllValid :
      (s' : Settings S) (apply : Bool) (p : GuardPolicy D) (chs : List (Channel S D))
      → AllValid s' (mics chs)
      → AllValid s' (mics (end_channels apply p chs))
  unfolding end_channels
  end_channels-AllValid s' apply p [] h = tt
  end_channels-AllValid s' apply p (ch ∷ chs) (v, vs) = (
    calibrate_mic-IsValid s' apply p ch.mic ch.histogram ch.calibration v,
    end_channels-AllValid s' apply p chs vs,
  )

  -- What a host and the chain may do to a guard between two blocks, and in a block.
  pub data Step (g : HowlGuard S D) : HowlGuard S D → Type 0 where
    analyses :
        (i : ℕ) (u w : S) (t : HowlDetector S D)
        → Step g (record g { channels = modify g.channels i (λ ch. analyzed g.settings u w ch t) })
    updates : Step g (update g)
    adopts : (p : GuardPolicy D) → Step g (set_policy p g)
    caps : (cap : Option D) → Step g (set_cap_db cap g)
    resets : Step g (reset g)
    clears : Step g (clear g)
    begins : Step g (calibrate_begin g)
    ends : (apply : Bool) → Step g (calibrate_end apply g)
    sets : (i : ℕ) (x y : D) → Step g (set_mic_thresholds i x y g)
    forgets : Step g (clear_calibration g)

  pub data Reach (g : HowlGuard S D) : HowlGuard S D → Type 0 where
    here : Reach g g
    next : {h k : HowlGuard S D} → Reach g h → Step h k → Reach g k

  Step-IsGuarded : {g h : HowlGuard S D} → Step g h → IsGuarded g → IsGuarded h
  unfolding set_policy set_cap_db clear calibrate_begin calibrate_end clear_calibration
      set_mic_thresholds
  Step-IsGuarded {g = g} (analyses i u w t) v =
      put-AllValid g.settings g.channels i _ (λ ch. analyzed-IsValid g.settings u w ch t) v
  Step-IsGuarded {g = g} updates v = update-IsGuarded g v
  Step-IsGuarded {g = g} (adopts p) v = adopt-IsGuarded _ g v
  Step-IsGuarded {g = g} (caps cap) v = adopt-IsGuarded _ g v
  Step-IsGuarded {g = g} resets v = reset-IsGuarded g
  Step-IsGuarded {g = g} clears v =
      on_mics-AllValid g.settings g.settings _ (clear_mic-IsValid g.settings) g.channels v
  Step-IsGuarded {g = g} begins v =
      subst (AllValid g.settings) (sym (begin_channels-mics g.channels)) v
  Step-IsGuarded {g = g} (ends apply) v =
      end_channels-AllValid g.settings apply g.policy g.channels v
  Step-IsGuarded {g = g} (sets i x y) v =
      put-AllValid g.settings g.channels i _ (λ ch. set_thresholds-IsValid g.settings x y ch.mic) v
  Step-IsGuarded {g = g} forgets v =
      on_mics-AllValid g.settings g.settings _ (follow_policy-IsValid g.settings g.settings) _ (
        on_mics-AllValid g.settings g.settings _ (forget_thresholds-IsValid g.settings) g.channels
          v)

  -- From a guard that has just been reset, whatever blocks are analysed and whatever the host calls
  -- in whatever order, every mic stays valid: among the rest, OPEN is always declared and never
  -- latched, and without a cap no undeclared mic is outside ARMING.
  pub Reach-IsGuarded : (g : HowlGuard S D) {h : HowlGuard S D} → Reach (reset g) h → IsGuarded h
  Reach-IsGuarded g here = reset-IsGuarded g
  Reach-IsGuarded g (next r st) = Step-IsGuarded st (Reach-IsGuarded g r)
