-- ===== src/Guard/Machine/Invariant.antt =====
-- What holds of a mic between two ticks, and that a tick keeps it (step() and what it calls).
use mu_tap.Common.{◌≤◌, ◌≡◌, refl, ◌≢◌, true, false, arith, Bool-cases, inl, inr}
use mu_tap.Common.Float.{Float}
use mu_tap.Guard.Types.{
  GuardState, arming, opened, open_capped, ducked, releasing, latched, Settings, MicState, k_big,
}
use mu_tap.Guard.Machine.{enter, enter_arming, strike, settle, tally, restarts, dispatch, step}
use mu_tap.Guard.Machine.Timers.{saturate-le}

module _ {S : Type 0} (c : Settings S) where
  pub record IsValid (s : MicState S) : Type 0 where
    -- ARMING has forgotten its declaration and its latch.
    pub arming_fresh : s.state ≡ arming → (s.declared ≡ false) × (s.latched ≡ false)
    -- OPEN is certified by a declaration, and is not latched.
    pub opened_declared : s.state ≡ opened → (s.declared ≡ true) × (s.latched ≡ false)
    pub capped_undeclared : s.state ≡ open_capped → (s.declared ≡ false) × (s.latched ≡ false)
    pub latched_flag : s.state ≡ latched → s.latched ≡ true
    -- Nothing but the host's cap opens an undeclared mic.
    pub cap_needed : s.declared ≡ false → s.state ≢ arming → c.has_cap ≡ true
    -- A timer re-arm disarms LOST.
    pub rearm_disarms : s.rearm_hold ≡ true → s.ok_seen ≡ false
    pub strikes_capped : s.strikes ≤ 30
    pub ok_run_capped : s.ok_run ≤ k_big
    pub notok_run_capped : s.notok_run ≤ k_big
    pub in_state_capped : s.in_state ≤ k_big
    pub hold_capped : s.hold ≤ k_big

module _ {S : Type 0} ⦃f : Float S⦄ (c : Settings S) where
  pub enter_arming-IsValid : (s : MicState S) → IsValid c s → IsValid c (enter_arming c s)
  unfolding enter_arming
  enter_arming-IsValid s v = ground arith

  tally-IsValid : (s : MicState S) → IsValid c s → IsValid c (tally c s)
  unfolding tally
  tally-IsValid s v =
      ground (arith, saturate-le s.ok_run, saturate-le s.notok_run, saturate-le s.in_state)

  dispatch-IsValid :
      (g : GuardState) (s : MicState S) → s.state ≡ g → IsValid c s → IsValid c (dispatch c g s)
  unfolding dispatch enter strike settle
  dispatch-IsValid arming s e v = ground arith
  dispatch-IsValid opened s e v = ground arith
  dispatch-IsValid open_capped s e v = ground arith
  dispatch-IsValid ducked s e v = ground (arith, saturate-le s.hold)
  dispatch-IsValid releasing s e v = ground arith
  dispatch-IsValid latched s e v = ground arith

  -- A tick keeps the invariant, whatever the verdict, the trip and the timers are.
  pub step-IsValid : (s : MicState S) → IsValid c s → IsValid c (step c s)
  unfolding step
  step-IsValid s v =
      let t = tally c s in
      let w : IsValid c t = tally-IsValid s v in
      elim (Bool-cases (restarts c t)) [
        | inl r ↦ rw r (enter_arming-IsValid t w)
        | inr r ↦ rw r (dispatch-IsValid t.state t refl w)
      ]
