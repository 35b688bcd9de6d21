-- ===== src/Guard/Operations/Valid.antt =====
-- Every entry point of the guard keeps every mic's invariant (include/mutap/howl_guard.h).
use mu_tap.Common.{
  ℕ, Bool, true, false, ◌&&◌, arith, List, [], ◌∷◌, All, All-map, leb, Bool-cases, inl, inr,
}
use mu_tap.Common.Float.{Float}
use mu_tap.Detector.Types.{HowlDetector, DetectorConfig}
use mu_tap.Guard.Types.{Settings, MicState}
use mu_tap.Guard.Machine.{enter, enter_arming}
use mu_tap.Guard.Machine.Invariant.{IsValid}
use mu_tap.Guard.Ramp.{render_from, render, render_mic, retarget, advance}
use mu_tap.Guard.Attribution.{Episode, Mic, states, set_trip, pick, attribute}
use mu_tap.Guard.Operations.{
  Channel, mics, on_mics, put_mics, reset_mic, clear_mic, cap_changed, follow_policy,
  forget_thresholds, watchdog_mic, sense, sense_all, readings,
}

module _ {S : Type 0} ⦃f : Float S⦄ (c : Settings S) where
  abbrev pub AllValid : List (MicState S) → Type 0
  AllValid = All (IsValid c)

  set_trip-IsValid : (b : Bool) (s : MicState S) → IsValid c s → IsValid c (set_trip b s)
  unfolding set_trip
  set_trip-IsValid b s v = ground arith

  pick-AllValid :
      (band : ℕ) (loudest : S) (ms : List (Mic S))
      → AllValid (states ms)
      → AllValid (pick c band loudest ms)
  unfolding pick
  pick-AllValid band loudest [] h = tt
  pick-AllValid band loudest ((s, d) ∷ ms) (v, vs) =
      (set_trip-IsValid _ s v, pick-AllValid band loudest ms vs)

  pub attribute-AllValid :
      (b : Bool) (ms : List (Mic S)) (e : Episode)
      → AllValid (states ms)
      → AllValid (attribute c b ms e).0
  unfolding attribute
  attribute-AllValid b [] e h = tt
  attribute-AllValid true (m ∷ []) e (v, vs) = (set_trip-IsValid true m.0 v, tt)
  attribute-AllValid false (m ∷ []) e h = h
  attribute-AllValid false (m ∷ n ∷ ms) e h = h
  attribute-AllValid true (m ∷ n ∷ ms) e h =
      elim (Bool-cases (e.active && leb c.window_ticks e.age)) [
        | inl old ↦
            rw old
              (All-map (IsValid c) (set_trip true) (set_trip-IsValid true) (states (m ∷ n ∷ ms)) h)
        | inr young ↦ rw young (pick-AllValid _ _ (m ∷ n ∷ ms) h)
      ]

  render_mic-IsValid : (b : ℕ) (s : MicState S) → IsValid c s → IsValid c (render_mic c b s)
  unfolding render_mic retarget advance
  render_mic-IsValid b s v = ground arith

  render_from-AllValid :
      (b : ℕ) (ms : List (MicState S)) (bus : List S)
      → AllValid ms
      → AllValid (render_from c b ms bus).mics
  unfolding render_from
  render_from-AllValid b [] bus h = tt
  render_from-AllValid b (s ∷ ms) bus (v, vs) =
      (render_mic-IsValid b s v, render_from-AllValid b ms _ vs)

  pub render-AllValid :
      (b : ℕ) (ms : List (MicState S)) → AllValid ms → AllValid (render c b ms).mics
  unfolding render
  render-AllValid b ms h = render_from-AllValid b ms _ h

  pub clear_mic-IsValid : (s : MicState S) → IsValid c s → IsValid c (clear_mic c s)
  unfolding clear_mic enter
  clear_mic-IsValid s v = ground arith

  pub reset_mic-IsValid : (s : MicState S) → IsValid c (reset_mic c s)
  unfolding reset_mic
  reset_mic-IsValid s = ground arith

  pub watchdog_mic-IsValid : (s : MicState S) → IsValid c s → IsValid c (watchdog_mic c s)
  unfolding watchdog_mic enter_arming
  watchdog_mic-IsValid s v = ground arith

  pub follow_policy-IsValid :
      (c' : Settings S) (s : MicState S) → IsValid c s → IsValid c (follow_policy c' s)
  unfolding follow_policy
  follow_policy-IsValid c' s v = ground arith

  pub forget_thresholds-IsValid : (s : MicState S) → IsValid c s → IsValid c (forget_thresholds s)
  unfolding forget_thresholds
  forget_thresholds-IsValid s v = ground arith

  -- A new cap: a mic that was valid under the old settings is valid under the new ones.
  pub cap_changed-IsValid :
      (c' : Settings S) (s : MicState S) → IsValid c s → IsValid c' (cap_changed c' s)
  unfolding cap_changed enter_arming
  cap_changed-IsValid c' s v = ground arith

module _ {S D : Type 0} ⦃f : Float S⦄ (c : Settings S) where
  sense-IsValid :
      (cfg : DetectorConfig S D) (t : HowlDetector S D) (s : MicState S)
      → IsValid c s
      → IsValid c (sense cfg t s)
  unfolding sense
  sense-IsValid cfg t s v = record {
    arming_fresh = v.arming_fresh;
    opened_declared = v.opened_declared;
    capped_undeclared = v.capped_undeclared;
    latched_flag = v.latched_flag;
    cap_needed = v.cap_needed;
    rearm_disarms = v.rearm_disarms;
    strikes_capped = v.strikes_capped;
    ok_run_capped = v.ok_run_capped;
    notok_run_capped = v.notok_run_capped;
    in_state_capped = v.in_state_capped;
    hold_capped = v.hold_capped;
  }

  pub sense_all-AllValid :
      (cfg : DetectorConfig S D) (chs : List (Channel S D))
      → AllValid c (mics chs)
      → AllValid c (states (readings (sense_all cfg chs))) × AllValid c (mics (sense_all cfg chs))
  unfolding sense_all readings
  sense_all-AllValid cfg [] h = (tt, tt)
  sense_all-AllValid cfg (ch ∷ chs) (v, vs) =
      let w = sense-IsValid cfg ch.detector ch.mic v in
      let rest = sense_all-AllValid cfg chs vs in ((w, rest.0), (w, rest.1))

  pub put_mics-AllValid :
      (ms : List (MicState S)) (chs : List (Channel S D))
      → AllValid c ms
      → AllValid c (mics chs)
      → AllValid c (mics (put_mics ms chs))
  unfolding put_mics
  put_mics-AllValid ms [] h k = tt
  put_mics-AllValid [] (ch ∷ chs) h k = k
  put_mics-AllValid (m ∷ ms) (ch ∷ chs) (h, hs) (k, ks) = (h, put_mics-AllValid ms chs hs ks)

  pub on_mics-AllValid :
      (c' : Settings S) (g : MicState S → MicState S)
      → ((s : MicState S) → IsValid c s → IsValid c' (g s))
      → (chs : List (Channel S D)) → AllValid c (mics chs)
      → AllValid c' (mics (on_mics g chs))
  unfolding on_mics
  on_mics-AllValid c' g keep [] h = tt
  on_mics-AllValid c' g keep (ch ∷ chs) (v, vs) = (keep ch.mic v, on_mics-AllValid c' g keep chs vs)
