-- ===== src/Guard/Machine/Safety.antt =====
-- A mic in danger is ducked (howl_guard.h: step()).
use mu_tap.Common.{◌+◌, ◌≤◌, ◌<◌, ◌≡◌, refl, ◌∙◌, ◌⊎◌, true, false, arith, Bool-cases, inl, inr}
use mu_tap.Common.Float.{Float}
use mu_tap.Guard.Types.{
  GuardState, arming, opened, open_capped, ducked, releasing, latched, Settings, MicState, k_big,
}
use mu_tap.Guard.Machine.{enter, strike, lost, tally, restarts, dispatch, step}
use mu_tap.Guard.Machine.Timers.{saturate-of_lt}
use mu_tap.Guard.Machine.Transition.{
  Loses, lost_open, lost_releasing, tally-state, enter_arming-state,
}

module _ {S : Type 0} ⦃f : Float S⦄ (c : Settings S) where
  dispatch-trip :
      (g : GuardState) (t : MicState S)
      → t.trip ≡ true
      → t.state ≡ g
      → ((dispatch c g t).state ≡ arming) ⊎ ((dispatch c g t).state ≡ ducked)
  unfolding dispatch enter strike
  dispatch-trip arming t h e = ground arith
  dispatch-trip opened t h e = ground arith
  dispatch-trip open_capped t h e = ground arith
  dispatch-trip ducked t h e = ground arith
  dispatch-trip releasing t h e = ground arith
  dispatch-trip latched t h e = ground arith

  dispatch-lost :
      (g : GuardState) (t : MicState S)
      → Loses g
      → lost c t ≡ true
      → (dispatch c g t).state ≡ ducked
  unfolding dispatch enter strike
  dispatch-lost g t lost_open h = ground arith
  dispatch-lost g t lost_releasing h = ground arith

  tally-trip : (s : MicState S) → (tally c s).trip ≡ s.trip
  unfolding tally
  tally-trip s = refl

  -- No mic stays open on a tick that gives it a TRIP: from any state it is in DUCKED or in ARMING
  -- afterwards.
  pub step-trip :
      (s : MicState S) → s.trip ≡ true → ((step c s).state ≡ arming) ⊎ ((step c s).state ≡ ducked)
  unfolding step
  step-trip s h =
      let t = tally c s in
      elim (Bool-cases (restarts c t)) [
        | inl r ↦ rw r (inl (enter_arming-state c t))
        | inr r ↦ rw r (dispatch-trip t.state t (tally-trip s ∙ h) refl)
      ]

  tally-lost :
      (s : MicState S)
      → s.ok ≡ false
      → s.declared ≡ true
      → s.ok_seen ≡ true
      → c.trip_ticks ≤ s.notok_run + 1
      → s.notok_run < k_big
      → lost c (tally c s) ≡ true
  unfolding tally lost
  tally-lost s ok d seen run bound = ground (arith, saturate-of_lt s.notok_run)

  -- LOST: in OPEN or RELEASING, a declared mic whose verdict has been not ok for trip_hold_s since
  -- an ok tick, with its timer below its ceiling, is in DUCKED after this tick if its canceller did
  -- not restart, and in ARMING only if it did.
  pub step-lost :
      (s : MicState S)
      → Loses s.state
      → s.ok ≡ false
      → s.declared ≡ true
      → s.ok_seen ≡ true
      → c.trip_ticks ≤ s.notok_run + 1
      → s.notok_run < k_big
      → ((restarts c (tally c s) ≡ true) × ((step c s).state ≡ arming))
        ⊎ ((restarts c (tally c s) ≡ false) × ((step c s).state ≡ ducked))
  unfolding step
  step-lost s g ok d seen run bound =
      let t = tally c s in
      elim (Bool-cases (restarts c t)) [
        | inl r ↦ rw r (inl (refl, enter_arming-state c t))
        | inr r ↦
            rw (r, tally-state c s)
              (inr (refl, dispatch-lost s.state t g (tally-lost s ok d seen run bound)))
      ]
