-- ===== src/Guard/Machine/Strikes.antt =====
-- What a tick does to the strikes and the latch (howl_guard.h: strike() and its callers in step();
-- the file comment's paragraph "A strike").
use mu_tap.Common.{
  ◌+◌, ◌-◌, min, ◌≡◌, refl, Bool, true, false, not, ◌&&◌, ◌||◌, arith, ltb, leb, if◌then◌else◌, inc,
  Bool-cases, inl, inr,
}
use mu_tap.Common.Float.{Float}
use mu_tap.Guard.Types.{
  GuardState, arming, opened, open_capped, ducked, releasing, latched, Settings, MicState,
}
use mu_tap.Guard.Machine.{
  is_arming, enter, enter_arming, strike, settle, lost, tally, restarts, dispatch, step,
  unprotected, held,
}

module _ {S : Type 0} ⦃f : Float S⦄ (c : Settings S) where
  -- When a tick is a strike: a TRIP in ARMING or RELEASING, a TRIP in probation, and a LOST in
  -- probation where the policy says so.
  abbrev pub strike_due : GuardState → MicState S → Bool
  strike_due arming t = t.trip
  strike_due releasing t = t.trip
  strike_due open_capped t = t.trip && ltb 0 t.probation
  strike_due opened t = ltb 0 t.probation && (t.trip || (lost c t && c.lost_in_probation_strikes))
  strike_due _ t = false

  -- When a strike decays: in OPEN with neither TRIP nor LOST, after strike_decay_s.
  abbrev pub decay_due : GuardState → MicState S → Bool
  decay_due opened t =
      not t.trip && not (lost c t) && ltb 0 t.strikes && leb c.decay_ticks (inc t.decay)
  decay_due _ t = false

  -- When LATCHED is released: a fresh ok edge, held, and quiet.
  abbrev pub unlatch_due : GuardState → MicState S → Bool
  unlatch_due latched t = not t.trip && (not t.ok || t.latch_notok) && held c t
  unlatch_due _ t = false

  dispatch-strikes :
      (g : GuardState) (t : MicState S)
      → t.state ≡ g
      → (dispatch c g t).strikes ≡ (
          if strike_due g t
          then min (t.strikes + 1) 30
          else if decay_due g t
          then t.strikes - 1
          else t.strikes)
  unfolding dispatch enter strike settle
  dispatch-strikes arming t e = ground arith
  dispatch-strikes opened t e = ground arith
  dispatch-strikes open_capped t e = ground arith
  dispatch-strikes ducked t e = ground arith
  dispatch-strikes releasing t e = ground arith
  dispatch-strikes latched t e = ground arith

  dispatch-latched :
      (g : GuardState) (t : MicState S)
      → t.state ≡ g
      → (dispatch c g t).latched ≡ (
          if strike_due g t && not (is_arming g) && leb c.max_strikes (min (t.strikes + 1) 30)
          then true
          else if unlatch_due g t
          then false
          else t.latched)
  unfolding dispatch enter strike settle
  dispatch-latched arming t e = ground arith
  dispatch-latched opened t e = ground arith
  dispatch-latched open_capped t e = ground arith
  dispatch-latched ducked t e = ground arith
  dispatch-latched releasing t e = ground arith
  dispatch-latched latched t e = ground arith

  enter_arming-latched : (s : MicState S) → (enter_arming c s).latched ≡ false
  unfolding enter_arming
  enter_arming-latched s = refl

  -- The runs and timers leave these fields alone.
  tally-kept :
      (s : MicState S)
      → ((tally c s).state ≡ s.state)
        × ((tally c s).strikes ≡ s.strikes)
        × ((tally c s).latched ≡ s.latched)
        × ((tally c s).timed_out ≡ s.timed_out)
  unfolding tally
  tally-kept s = (refl, refl, refl, refl)

  unlatch_lem :
      (g : GuardState) (t : MicState S)
      → g ≡ latched
      → t.timed_out ≡ true
      → unlatch_due latched t ≡ true
      → let u = dispatch c g t in
        (u.state ≡ releasing) × (u.declared ≡ true) × (u.latched ≡ false) × (unprotected u ≡ true)
  unfolding dispatch enter unprotected
  unlatch_lem g t e out u = ground arith

  enter_arming-strikes : (s : MicState S) → (enter_arming c s).strikes ≡ s.strikes
  unfolding enter_arming enter
  enter_arming-strikes s = refl

  -- Strikes, exactly: one more (up to 30) on a TRIP in ARMING, in RELEASING or within probation of
  -- OPEN or OPEN_CAPPED and, where the policy says so, on a LOST within probation of OPEN; one
  -- less when a strike decays in OPEN; unchanged on every other tick, a canceller restart included.
  pub step-strikes :
      (s : MicState S)
      → let t = tally c s in
        (step c s).strikes ≡ (
          if restarts c t
          then s.strikes
          else if strike_due s.state t
          then min (s.strikes + 1) 30
          else if decay_due s.state t
          then s.strikes - 1
          else s.strikes)
  unfolding step
  step-strikes s =
      let t = tally c s in
      let fields = tally-kept s in
      elim (Bool-cases (restarts c t)) [
        | inl r ↦ rw (r, enter_arming-strikes t) fields.1
        | inr r ↦ rw (r, fields.0, ← fields.1) (dispatch-strikes s.state t fields.0)
      ]

  -- The latch, exactly: set by the strike that brings strikes to max_strikes outside ARMING,
  -- cleared by a canceller restart and by a fresh ok edge in LATCHED, otherwise unchanged.
  pub step-latched :
      (s : MicState S)
      → let t = tally c s in
        (step c s).latched ≡ (
          if restarts c t
          then false
          else if strike_due s.state t
              && not (is_arming s.state)
              && leb c.max_strikes (min (s.strikes + 1) 30)
          then true
          else if unlatch_due s.state t
          then false
          else s.latched)
  unfolding step
  step-latched s =
      let t = tally c s in
      let fields = tally-kept s in
      elim (Bool-cases (restarts c t)) [
        | inl r ↦ rw (r, enter_arming-latched t)
        | inr r ↦ rw (r, fields.0, ← fields.1, ← fields.2) (dispatch-latched s.state t fields.0)
      ]

  -- A mic that timed out in ARMING, latched, and is released from LATCHED by the certification
  -- itself (a fresh ok held while quiet) is declared and no longer latched, and still reads
  -- unprotected(): this release alone does not clear timed_out.
  pub unlatch-unprotected :
      (s : MicState S)
      → s.state ≡ latched
      → s.timed_out ≡ true
      → restarts c (tally c s) ≡ false
      → unlatch_due latched (tally c s) ≡ true
      → ((step c s).state ≡ releasing)
        × ((step c s).declared ≡ true)
        × ((step c s).latched ≡ false)
        × (unprotected (step c s) ≡ true)
  unfolding step
  unlatch-unprotected s e out r u =
      let t = tally c s in
      rw (r, (tally-kept s).0) (unlatch_lem s.state t e (rw (tally-kept s).3 out) u)
