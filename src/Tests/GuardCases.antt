-- ===== src/Tests/GuardCases.antt =====
-- The guard's theorems at concrete inputs.
use mu_tap.Common.{
  ℕ, ◌+◌, ◌-◌, ◌≤◌, min, ◌≡◌, refl, ◌⊎◌, arith, true, false, none, some, List, [], ◌∷◌, replicate,
  take, All, inc, if◌then◌else◌, size_mod, size_max,
}
use mu_tap.Common.Float.{Fixed, fixed_float, fixed_cast, Fixed-IsIrreflexive}
use mu_tap.Guard.Types.{arming, opened, ducked, releasing, GuardPolicy, MicState, new_mic, k_big}
use mu_tap.Guard.Machine.{saturate, tally, restarts, step, unprotected, held}
use mu_tap.Guard.Machine.Invariant.{IsValid, step-IsValid}
use mu_tap.Guard.Machine.Transition.{Edge, step-Edge, lost_open}
use mu_tap.Guard.Machine.Safety.{step-trip, step-lost}
use mu_tap.Guard.Machine.Strikes.{strike_due, decay_due, step-strikes, unlatch-unprotected}
use mu_tap.Guard.Machine.Release.{Input, run, run-ducked}
use mu_tap.Guard.Ramp.{render}
use mu_tap.Guard.Ramp.Bus.{IsCut, render-IsCut}
use mu_tap.Guard.Attribution.{Mic, Reading, Episode, attribute}
use mu_tap.Guard.Attribution.Outcome.{Reaches, shared_band, shared_level, attribute-armed}
use mu_tap.Guard.Policy.{clamped, big}
use mu_tap.Guard.Policy.Clamped.{IsInRange, Fixed-HasRanges, clamped-IsInRange}
use mu_tap.Guard.Session.{reset, default_policy}
use mu_tap.Guard.Operations.{HowlGuard, update, set_cap_db}
use mu_tap.Guard.Reach.{IsGuarded, here, next, updates, caps, Reach-IsGuarded}
use mu_tap.Tests.Data.{num, minus, demo, ducked_mic, open_mic, latched_mic, guard}

-- A reset, a tick, and the host's removal of the cap.
abbrev driven : HowlGuard Fixed Fixed
driven = set_cap_db none (update (reset guard))

Reach-IsGuarded_example : IsGuarded driven
Reach-IsGuarded_example = Reach-IsGuarded guard (next (next here updates) (caps none))

abbrev tripped_mic : MicState Fixed
tripped_mic = record open_mic { trip = true }

step-trip_example :
    ((step demo tripped_mic).state ≡ arming) ⊎ ((step demo tripped_mic).state ≡ ducked)
step-trip_example = step-trip demo tripped_mic refl

step-Edge_example : Edge demo (tally demo tripped_mic) opened (step demo tripped_mic).state
step-Edge_example = step-Edge demo tripped_mic

open_mic-IsValid : IsValid demo open_mic
unfolding new_mic k_big size_max size_mod
open_mic-IsValid = ground arith

step-IsValid_example : IsValid demo (step demo open_mic)
step-IsValid_example = step-IsValid demo open_mic open_mic-IsValid

abbrev calm_input : Input Fixed
calm_input = record { a_db = minus 9; d_db = minus 9; ok = false; trip = false; since = 7 }

run-ducked_example :
    (n : ℕ) × (n ≤ 4) × ((run demo ducked_mic (take n (replicate 4 calm_input))).state ≡ releasing)
unfolding k_big size_max size_mod new_mic
run-ducked_example =
    run-ducked demo (replicate 4 calm_input) ducked_mic refl (omega arith) (omega arith)
      (
        (refl, omega arith, refl),
        ((refl, omega arith, refl), ((refl, omega arith, refl), ((refl, omega arith, refl), tt))),
      )
      (omega arith) (omega arith)

step-lost_example :
    ((restarts demo (tally demo open_mic) ≡ true) × ((step demo open_mic).state ≡ arming))
    ⊎ ((restarts demo (tally demo open_mic) ≡ false) × ((step demo open_mic).state ≡ ducked))
unfolding k_big size_max size_mod new_mic
step-lost_example = step-lost demo open_mic lost_open refl refl refl (omega arith) (omega arith)

step-strikes_example : (step demo tripped_mic).strikes ≡ (
    if restarts demo (tally demo tripped_mic)
    then tripped_mic.strikes
    else if strike_due demo opened (tally demo tripped_mic)
    then min (tripped_mic.strikes + 1) 30
    else if decay_due demo opened (tally demo tripped_mic)
    then tripped_mic.strikes - 1
    else tripped_mic.strikes)
step-strikes_example = step-strikes demo tripped_mic

unlatch-unprotected_example :
    ((step demo latched_mic).state ≡ releasing)
    × ((step demo latched_mic).declared ≡ true)
    × ((step demo latched_mic).latched ≡ false)
    × (unprotected (step demo latched_mic) ≡ true)
unfolding tally restarts held saturate inc k_big size_max size_mod new_mic
unlatch-unprotected_example = unlatch-unprotected demo latched_mic refl refl refl refl

render-IsCut_example :
    All (IsCut Fixed-IsIrreflexive demo) (render demo 3 (ducked_mic ∷ open_mic ∷ [])).bus
render-IsCut_example = render-IsCut Fixed-IsIrreflexive demo 3 (ducked_mic ∷ open_mic ∷ [])

abbrev reading : ℕ → Reading Fixed
reading n = record {
  power_db = num n;
  peak_hz = num 150;
  bands = record { hz = num 150; level_db = num n } ∷ [];
}

abbrev loud : MicState Fixed
loud = record open_mic { raw_trip = true }

abbrev no_episode : Episode
no_episode = record { active = false; age = 0; quiet = 0; fallbacks = 0 }

abbrev two_mics : List (Mic Fixed)
two_mics = (loud, reading 40) ∷ (open_mic, reading 1) ∷ []

attribute-armed_example :
    let (after, e') =
      attribute demo true ((loud, reading 40) ∷ (open_mic, reading 1) ∷ []) no_episode in
    All (λ s. s.trip ≡ true) after
    ⊎ ((e'.active ≡ true)
        × Reaches demo
            (shared_band demo (reading 40) two_mics)
            (shared_level demo (reading 40) two_mics)
            two_mics
            after)
attribute-armed_example =
    attribute-armed demo (loud, reading 40) (open_mic, reading 1) [] no_episode

default-IsInRange : IsInRange {D = Fixed} default_policy
unfolding default_policy big
default-IsInRange = ground arith

-- A NaN threshold, a deep duck and a cap above 0 dB.
abbrev wild_policy : GuardPolicy Fixed
wild_policy = record default_policy { d_db = none; duck_db = num 999; cap_db = some (num 7) }

clamped-IsInRange_example : IsInRange (clamped wild_policy default_policy)
clamped-IsInRange_example =
    clamped-IsInRange Fixed-IsIrreflexive Fixed-HasRanges wild_policy default_policy
      default-IsInRange
