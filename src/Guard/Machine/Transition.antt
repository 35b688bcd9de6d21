-- ===== src/Guard/Machine/Transition.antt =====
-- Which transitions a tick makes (step(); the file comment's "STATES and every transition").
use mu_tap.Guard.Machine.Timers.{rearm_ticks-min}
use mu_tap.Common.{
  min, ◌*◌, ◌^◌, ◌≤◌, ◌≡◌, refl, true, false, not, ◌||◌, arith, Bool-cases, inl, inr,
}
use mu_tap.Common.Float.{Float}
use mu_tap.Guard.Types.{
  GuardState, arming, opened, open_capped, ducked, releasing, latched, Settings, MicState, k_big,
}
use mu_tap.Guard.Machine.{
  enter, enter_arming, strike, settle, restore_db, saturate, held, quiet, lost, tally, restarts,
  dispatch, step,
}

-- The states that a TRIP sends to DUCKED, and those that LOST does.
pub data Ducks : GuardState → Type 0 where
  from_open : Ducks opened
  from_capped : Ducks open_capped
  from_releasing : Ducks releasing
  from_latched : Ducks latched

pub data Loses : GuardState → Type 0 where
  lost_open : Loses opened
  lost_releasing : Loses releasing

module _ {S : Type 0} ⦃f : Float S⦄ (c : Settings S) where
  -- The diagram. `t` is the mic after this tick's runs and timers.
  pub data Edge (t : MicState S) : GuardState → GuardState → Type 0 where
    stay : (g : GuardState) → Edge t g g
    restart : (g : GuardState) → restarts c t ≡ true → Edge t g arming
    declare : t.trip ≡ false → held c t ≡ true → Edge t arming opened
    time_out :
        t.trip ≡ false
        → c.timeout_ticks ≤ t.in_state
        → c.has_cap ≡ true
        → quiet c t ≡ true
        → Edge t arming open_capped
    trip_ducks : {g : GuardState} → Ducks g → t.trip ≡ true → Edge t g ducked
    lost_ducks : {g : GuardState} → Loses g → lost c t ≡ true → Edge t g ducked
    late_declare : t.trip ≡ false → held c t ≡ true → Edge t open_capped releasing
    walk : t.trip ≡ false → held c t ≡ true → Edge t ducked releasing
    rearm :
        t.trip ≡ false
        → quiet c t ≡ true
        → min (c.rearm_ticks * 2 ^ min t.strikes 30) k_big ≤ saturate t.hold
        → Edge t ducked releasing
    unlatch :
        t.trip ≡ false
        → held c t ≡ true
        → (not t.ok || t.latch_notok) ≡ true
        → Edge t latched releasing
    arrive_latched :
        t.trip ≡ false
        → lost c t ≡ false
        → t.left ≡ 0
        → f.eq t.cur (restore_db c t) ≡ true
        → t.latched ≡ true
        → Edge t releasing latched
    arrive_open :
        t.trip ≡ false
        → lost c t ≡ false
        → t.left ≡ 0
        → f.eq t.cur (restore_db c t) ≡ true
        → t.latched ≡ false
        → t.declared ≡ true
        → Edge t releasing opened
    arrive_capped :
        t.trip ≡ false
        → lost c t ≡ false
        → t.left ≡ 0
        → f.eq t.cur (restore_db c t) ≡ true
        → t.latched ≡ false
        → t.declared ≡ false
        → Edge t releasing open_capped

  dispatch-Edge : (g : GuardState) (t : MicState S) → t.state ≡ g → Edge t g (dispatch c g t).state
  unfolding dispatch enter strike settle
  dispatch-Edge arming t e = grind (arith, stay, declare, time_out)
  dispatch-Edge opened t e = grind (arith, stay, trip_ducks, lost_ducks, from_open, lost_open)
  dispatch-Edge open_capped t e = grind (arith, stay, trip_ducks, from_capped, late_declare)
  dispatch-Edge ducked t e =
      grind (arith, stay, walk, rearm, rearm_ticks-min c (record t { hold = saturate t.hold }))
  dispatch-Edge releasing t e = grind (
    arith, stay, trip_ducks, from_releasing, lost_ducks, lost_releasing, arrive_latched,
    arrive_open, arrive_capped,
  )
  dispatch-Edge latched t e = grind (arith, stay, trip_ducks, from_latched, unlatch)

  pub tally-state : (s : MicState S) → (tally c s).state ≡ s.state
  unfolding tally
  tally-state s = refl

  pub enter_arming-state : (s : MicState S) → (enter_arming c s).state ≡ arming
  unfolding enter_arming
  enter_arming-state s = refl

  -- Every tick, from every state, stays or follows an edge of the diagram whose condition holds of
  -- the mic after this tick's runs and timers: the restart to ARMING, the declaration, the timeout
  -- to the cap, a TRIP or LOST to DUCKED, the release of a held mic from the cap and from DUCKED, the
  -- re-arm once DUCKED has lasted the re-arm timeout of the mic's strikes, the release from LATCHED
  -- after a verdict that was not ok, and the three arrivals of a ramp on the restore level.
  pub step-Edge : (s : MicState S) → Edge (tally c s) s.state (step c s).state
  unfolding step
  step-Edge s =
      let t = tally c s in
      elim (Bool-cases (restarts c t)) [
        | inl r ↦ rw (r, enter_arming-state t) (restart s.state r)
        | inr r ↦ rw (r) (rw (tally-state s) (dispatch-Edge s.state t (tally-state s)))
      ]
