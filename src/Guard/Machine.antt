-- ===== src/Guard/Machine.antt =====
-- One tick of one mic's state machine (include/mutap/howl_guard.h: arming_db to target_db, enter,
-- enter_arming, strike, step, rearm_ticks, unprotected).
pub mod Timers
pub mod Transition
pub mod Safety
pub mod Strikes
pub mod Invariant
pub mod Release
use mu_tap.Common.{
  ℕ, ◌+◌, ◌-◌, ◌*◌, ◌/◌, ◌^◌, ◌%◌, min, ◌≡◌, refl, Bool, true, false, not, ◌&&◌, ◌||◌, ltb, leb,
  ◌==◌, if◌then◌else◌, inc, size_mod,
}
use mu_tap.Common.Float.{Float, fmin}
use mu_tap.Guard.Types.{
  GuardState, arming, opened, open_capped, ducked, releasing, latched, Settings, MicState, k_big,
}

-- std::min(n + 1, k_big): a timer that saturates.
unfoldable pub saturate : ℕ → ℕ
saturate n = min (inc n) k_big

abbrev pub is_arming : GuardState → Bool
is_arming arming = true
is_arming _ = false

abbrev pub is_open_capped : GuardState → Bool
is_open_capped open_capped = true
is_open_capped _ = false

-- The readout: the canceller has not certified this mic.
unfoldable pub unprotected : {S : Type 0} → MicState S → Bool
unprotected s = s.timed_out || s.latched || is_open_capped s.state

module _ {S : Type 0} ⦃f : Float S⦄ (c : Settings S) where
  open f use {of_ℕ, sub, mul, neg, lt, le, eq}

  unfoldable pub arming_db : S
  arming_db = if c.has_cap then fmin c.arming c.cap else c.arming

  -- The gain RELEASING ramps to and OPEN / OPEN_CAPPED / LATCHED hold.
  unfoldable pub restore_db : MicState S → S
  restore_db s =
      if s.latched
      then s.floor
      else if s.declared
      then s.level
      else if c.has_cap
      then fmin c.cap s.level
      else arming_db

  target_of : GuardState → MicState S → S
  target_of arming s = arming_db
  target_of ducked s = sub (restore_db s) c.duck
  target_of _ s = restore_db s

  unfoldable pub target_db : MicState S → S
  unfolding target_of
  target_db s = target_of s.state s

  -- The switch of enter(), after `state` and `in_state` are set.
  on_entry : GuardState → MicState S → MicState S
  on_entry ducked s = record s { hold = 0; ok_run = 0; ok_seen = false; ducks = inc s.ducks }
  on_entry opened s = record s { probation = c.probation_ticks; decay = 0 }
  on_entry open_capped s = record s { probation = c.probation_ticks; decay = 0 }
  on_entry latched s = record s { latch_notok = false }
  on_entry _ s = s

  unfoldable pub enter : MicState S → GuardState → MicState S
  unfolding on_entry
  enter s next = on_entry next (record s { state = next; in_state = 0 })

  unfoldable pub enter_arming : MicState S → MicState S
  unfolding enter
  enter_arming s = record (enter s arming) {
    fell = false;
    latched = false;
    declared = false;
    ok_seen = false;
    rearm_hold = false;
    timed_out = false;
    ok_run = 0;
  }

  -- The restore level after `strikes` strikes.
  unfoldable pub strike_level : ℕ → S
  strike_level strikes = mul (neg c.strike) (of_ℕ (min strikes c.max_strikes))

  unfoldable pub strike : MicState S → MicState S
  unfolding strike_level
  strike s =
      let strikes = min (s.strikes + 1) 30 in
      let level = strike_level strikes in
      let latches = not (is_arming s.state) && leb c.max_strikes strikes && not s.latched in
      record s {
        strikes = strikes;
        level = level;
        decay = 0;
        latched = latches || s.latched;
        floor = if latches then (if c.has_cap then c.cap else level) else s.floor;
      }

  unfoldable pub quiet : MicState S → Bool
  quiet s = leb c.quiet_ticks s.since

  unfoldable pub lost : MicState S → Bool
  lost s = s.declared && s.ok_seen && leb c.trip_ticks s.notok_run

  unfoldable pub held : MicState S → Bool
  unfolding quiet
  held s = leb c.release_ticks s.ok_run && quiet s

  -- m_rearm_ticks << strikes, saturated at k_big.
  unfoldable pub rearm_ticks : MicState S → ℕ
  rearm_ticks s =
      let shift = min s.strikes 30 in
      if ltb (k_big / 2 ^ shift) c.rearm_ticks then k_big else c.rearm_ticks * 2 ^ shift % size_mod

  -- The runs, timers and edge flags that every tick updates before the switch.
  unfoldable pub tally : MicState S → MicState S
  tally s =
      let ok_run = if s.ok then saturate s.ok_run else 0 in
      let arms = s.ok && (not s.rearm_hold || leb c.release_ticks ok_run) in
      record s {
        ok_run = ok_run;
        notok_run = if s.ok then 0 else saturate s.notok_run;
        ok_seen = arms || s.ok_seen;
        rearm_hold = not arms && s.rearm_hold;
        in_state = saturate s.in_state;
        trips = if s.trip then inc s.trips else s.trips;
        fell = lt s.a_db c.a_db || s.fell;
      }

  step_arming : MicState S → MicState S
  step_arming s =
      if s.trip
      then record (strike s) { ok_run = 0 }
      else if held s
      then enter (record s { declared = true; timed_out = false }) opened
      else if leb c.timeout_ticks s.in_state
      then (let t = record s { timed_out = true } in
          if c.has_cap && quiet s then enter t open_capped else t)
      else s

  -- The last branch of OPEN: probation runs off, and a strike decays.
  unfoldable pub settle : MicState S → MicState S
  settle s =
      let t = record s { probation = s.probation - 1 } in
      if ltb 0 s.strikes
      then (let decay = inc s.decay in
          if leb c.decay_ticks decay
          then record t { strikes = s.strikes - 1; level = strike_level (s.strikes - 1); decay = 0 }
          else record t { decay = decay })
      else t

  step_open : MicState S → MicState S
  step_open s =
      if s.trip
      then enter (if ltb 0 s.probation then strike s else s) ducked
      else if lost s
      then enter (if c.lost_in_probation_strikes && ltb 0 s.probation then strike s else s) ducked
      else settle s

  step_open_capped : MicState S → MicState S
  step_open_capped s =
      if s.trip
      then enter (if ltb 0 s.probation then strike s else s) ducked
      else if held s
      then enter (record s { declared = true; timed_out = false }) releasing
      else record s { probation = s.probation - 1 }

  step_ducked : MicState S → MicState S
  step_ducked s =
      if s.trip
      then record s { hold = 0; ok_run = 0 }
      else (let t = record s { hold = saturate s.hold } in
          if held s
          then enter (record t { declared = true; timed_out = false }) releasing
          else if quiet s && leb (rearm_ticks t) t.hold
          then enter
              (record t {
                ok_seen = false;
                rearm_hold = true;
                notok_run = 0;
                rearms = inc t.rearms;
              })
              releasing
          else t)

  arrive : MicState S → MicState S
  arrive s =
      if s.latched then enter s latched else enter s (if s.declared then opened else open_capped)

  step_releasing : MicState S → MicState S
  unfolding arrive
  step_releasing s =
      if s.trip
      then enter (strike s) ducked
      else if lost s
      then enter s ducked
      else if s.left == 0 && eq s.cur (restore_db s)
      then arrive s
      else s

  step_latched : MicState S → MicState S
  step_latched s =
      let t = record s { latch_notok = not s.ok || s.latch_notok } in
      if s.trip
      then enter t ducked
      else if t.latch_notok && held s
      then enter (record t { latched = false; declared = true }) releasing
      else t

  -- The switch of step().
  unfoldable pub dispatch : GuardState → MicState S → MicState S
  unfolding step_arming step_open step_open_capped step_ducked step_releasing step_latched
  dispatch arming s = step_arming s
  dispatch opened s = step_open s
  dispatch open_capped s = step_open_capped s
  dispatch ducked s = step_ducked s
  dispatch releasing s = step_releasing s
  dispatch latched s = step_latched s

  -- A' returned to restart_a_db: the canceller restarted.
  unfoldable pub restarts : MicState S → Bool
  restarts s = not (is_arming s.state) && s.fell && le c.restart_db s.a_db

  unfoldable pub step : MicState S → MicState S
  unfolding tally restarts dispatch
  step s = let t = tally s in if restarts t then enter_arming t else dispatch t.state t
