-- ===== src/Guard/Machine/Release.antt =====
-- DUCKED is left on a timer (howl_guard.h: step(), the re-arm path).
use mu_tap.Common.{
  ℕ, suc, ◌+◌, ◌*◌, ◌^◌, ◌≤◌, ◌<◌, min, ◌≡◌, refl, ◌⊎◌, inl, inr, Bool, true, false, arith, List,
  [], ◌∷◌, length, take, All, ap, ◌∙◌, not, ◌&&◌, le→leb,
}
use mu_tap.Common.Float.{Float}
use mu_tap.Guard.Types.{ducked, releasing, Settings, MicState, k_big}
use mu_tap.Guard.Machine.{
  is_arming, enter, quiet, tally, restarts, dispatch, step, rearm_ticks, saturate,
}
use mu_tap.Guard.Machine.Timers.{saturate-of_lt, rearm_ticks-eq}

-- What update() and analyze() write into a mic before its step: the verdict and its inputs, the
-- attributed trip, and the ticks since the detector's last verdict.
pub record Input (S : Type 0) : Type 0 where
  pub a_db : S
  pub d_db : S
  pub ok : Bool
  pub trip : Bool
  pub since : ℕ

module _ {S : Type 0} ⦃f : Float S⦄ (c : Settings S) where
  unfoldable pub tick : MicState S → Input S → MicState S
  tick s i =
      step c (record s { a_db = i.a_db; d_db = i.d_db; ok = i.ok; trip = i.trip; since = i.since })

  unfoldable pub run : MicState S → List (Input S) → MicState S
  run s [] = s
  run s (i ∷ is) = run (tick s i) is

  dispatch-ducked :
      (t : MicState S)
      → t.state ≡ ducked
      → t.trip ≡ false
      → quiet c t ≡ true
      → let u = dispatch c ducked t in
        (u.state ≡ releasing)
        ⊎ ((u.state ≡ ducked)
            × (u.strikes ≡ t.strikes)
            × (u.hold ≡ saturate t.hold)
            × (saturate t.hold < rearm_ticks c (record t { hold = saturate t.hold })))
  unfolding dispatch enter
  dispatch-ducked t e trip q = ground arith

  -- A calm input starts no restart, and the runs and timers leave these facts.
  tally-calm :
      (s : MicState S)
      → s.state ≡ ducked
      → s.trip ≡ false
      → c.quiet_ticks ≤ s.since
      → f.le c.restart_db s.a_db ≡ false
      → let t = tally c s in
        (restarts c t ≡ false)
        × (t.state ≡ ducked)
        × (t.trip ≡ false)
        × (quiet c t ≡ true)
        × (t.hold ≡ s.hold)
        × (t.strikes ≡ s.strikes)
  unfolding tally restarts quiet
  tally-calm s e trip q r =
      rw r
        (no_restart (not (is_arming s.state)) (tally c s).fell, e, trip, le→leb _ _ q, refl, refl)
    where
      no_restart : (a b : Bool) → (a && b && false) ≡ false
      no_restart true true = refl
      no_restart true false = refl
      no_restart false _ = refl

  -- One calm tick in DUCKED: a release, or the hold timer has counted and is still short.
  step-ducked :
      (s : MicState S)
      → s.state ≡ ducked
      → s.strikes ≤ 30
      → s.trip ≡ false
      → c.quiet_ticks ≤ s.since
      → f.le c.restart_db s.a_db ≡ false
      → let u = step c s in
        (u.state ≡ releasing)
        ⊎ ((u.state ≡ ducked)
            × (u.strikes ≡ s.strikes)
            × (u.hold ≡ saturate s.hold)
            × (u.hold < min (c.rearm_ticks * 2 ^ s.strikes) k_big))
  unfolding step
  step-ducked s e h trip q r =
      let t = tally c s in
      let w = tally-calm s e trip q r in
      rw (w.0, w.1)
        (ground (
          arith,
          w,
          dispatch-ducked t w.1 w.2 w.3,
          rearm_ticks-eq c (record t { hold = saturate t.hold }),
        ))

  -- Calm ticks: no trip, quiet, and no canceller restart.
  abbrev pub IsCalm : Input S → Type 0
  IsCalm i = (i.trip ≡ false) × (c.quiet_ticks ≤ i.since) × (f.le c.restart_db i.a_db ≡ false)

  tick-ducked :
      (s : MicState S) (i : Input S)
      → s.state ≡ ducked
      → s.strikes ≤ 30
      → IsCalm i
      → let u = tick s i in
        (u.state ≡ releasing)
        ⊎ ((u.state ≡ ducked)
            × (u.strikes ≡ s.strikes)
            × (u.hold ≡ saturate s.hold)
            × (u.hold < min (c.rearm_ticks * 2 ^ s.strikes) k_big))
  unfolding tick
  tick-ducked s i e h calm =
      step-ducked
        (record s { a_db = i.a_db; d_db = i.d_db; ok = i.ok; trip = i.trip; since = i.since }) e h
        calm.0 calm.1 calm.2

  -- Over ticks without a TRIP or a canceller restart, with the detectors quiet for quiet_s, a mic
  -- in DUCKED reaches RELEASING by the time that its hold timer, which starts below its ceiling,
  -- has had rearm_timeout_s x 2^strikes (saturated at that ceiling), whatever the verdict is;
  -- strikes are at most 30.
  pub run-ducked :
      (is : List (Input S)) (s : MicState S)
      → s.state ≡ ducked
      → s.strikes ≤ 30
      → s.hold < k_big
      → All IsCalm is
      → 0 < length is
      → min (c.rearm_ticks * 2 ^ s.strikes) k_big ≤ s.hold + length is
      → (n : ℕ) × (n ≤ length is) × ((run s (take n is)).state ≡ releasing)
  unfolding run
  run-ducked [] s e h k calm some_tick enough = absurd (omega arith)
  run-ducked (i ∷ is) s e h k calm some_tick enough = elim (tick-ducked s i e h calm.0) [
    | inl out ↦ (1, omega arith, out)
    | inr still ↦
        let counted : (tick s i).hold ≡ s.hold + 1 = still.2 ∙ saturate-of_lt s.hold k in
        let same : c.rearm_ticks * 2 ^ (tick s i).strikes ≡ c.rearm_ticks * 2 ^ s.strikes =
          ap (λ n. c.rearm_ticks * 2 ^ n) still.1 in
        let rest =
          run-ducked is (tick s i) still.0 (omega (arith, still.1)) (omega arith) calm.1
            (omega arith) (omega arith) in
        (suc rest.0, omega (arith, rest.1), rest.2)
  ]
