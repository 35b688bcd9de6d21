-- ===== src/Guard/Types.antt =====
-- The guard's data (include/mutap/howl_guard.h): guard_state, guard_policy, guard_calibration,
-- mic_state, and the members that derive() computes from the policy.
use mu_tap.Common.{ℕ, ◌/◌, ◌≤◌, Bool, false, Option, arith, size_max}
use mu_tap.Common.Float.{Float}

pub data GuardState : Type 0 where
  arming opened open_capped ducked releasing latched : GuardState

-- guard_policy: the host's thresholds and times, in double.
pub record GuardPolicy (D : Type 0) : Type 0 where
  pub d_db : D
  pub a_db : D
  pub trip_hold_s : D
  pub release_hold_s : D
  pub quiet_s : D
  pub arming_duck_db : D
  pub arming_timeout_s : D
  pub duck_db : D
  pub attack_ms : D
  pub release_ramp_ms : D
  pub rearm_timeout_s : D
  pub probation_s : D
  pub strike_db : D
  pub max_strikes : ℕ
  pub strike_decay_s : D
  pub attrib_db : D
  pub restart_a_db : D
  pub calibrate_s : D
  pub cal_d_margin_db : D
  pub cal_a_margin_db : D
  pub cap_db : Option D
  pub lost_in_probation_strikes : Bool

pub record GuardCalibration (D : Type 0) : Type 0 where
  pub blocks : ℕ
  pub d_median_db : D
  pub d_p95_db : D
  pub d_max_db : D
  pub a_median_db : D
  pub a_p95_db : D
  pub a_max_db : D
  pub d_db : D
  pub a_db : D
  pub applied : Bool

-- The members m_d_db to m_release that derive() sets, with the two fields of m_policy that the
-- state machine reads.
pub record Settings (S : Type 0) : Type 0 where
  pub d_db : S
  pub a_db : S
  pub restart_db : S
  pub duck : S
  pub strike : S
  pub attrib : S
  pub cap : S
  pub arming : S
  pub has_cap : Bool
  pub trip_ticks : ℕ
  pub release_ticks : ℕ
  pub quiet_ticks : ℕ
  pub timeout_ticks : ℕ
  pub rearm_ticks : ℕ
  pub probation_ticks : ℕ
  pub decay_ticks : ℕ
  pub window_ticks : ℕ
  pub attack : ℕ
  pub release : ℕ
  pub max_strikes : ℕ
  pub lost_in_probation_strikes : Bool

pub record MicState (S : Type 0) : Type 0 where
  pub state : GuardState
  pub cur : S
  pub tgt : S
  pub tgt_l : S
  pub rate : S
  pub ratio : S
  pub left : ℕ
  pub a_db : S
  pub d_db : S
  pub d_thr : S
  pub a_thr : S
  pub own_thr : Bool
  pub ok : Bool
  pub in_state : ℕ
  pub ok_run : ℕ
  pub notok_run : ℕ
  pub since : ℕ
  pub hold : ℕ
  pub probation : ℕ
  pub decay : ℕ
  pub ok_seen : Bool
  pub rearm_hold : Bool
  pub fell : Bool
  pub declared : Bool
  pub latched : Bool
  pub latch_notok : Bool
  pub timed_out : Bool
  pub raw_trip : Bool
  pub trip : Bool
  pub strikes : ℕ
  pub level : S
  pub floor : S
  pub trips : ℕ
  pub ducks : ℕ
  pub rearms : ℕ
  pub hints : ℕ
  pub watchdog : ℕ

-- mic_state{}: every member at its initialiser.
unfoldable pub new_mic : {S : Type 0} ⦃f : Float S⦄ → MicState S
new_mic ⦃f⦄ = record {
  state = arming;
  cur = f.of_ℕ 0;
  tgt = f.of_ℕ 0;
  tgt_l = f.of_ℕ 1;
  rate = f.of_ℕ 0;
  ratio = f.of_ℕ 1;
  left = 0;
  a_db = f.of_ℕ 0;
  d_db = f.of_ℕ 0;
  d_thr = f.of_ℕ 0;
  a_thr = f.of_ℕ 0;
  own_thr = false;
  ok = false;
  in_state = 0;
  ok_run = 0;
  notok_run = 0;
  since = 0;
  hold = 0;
  probation = 0;
  decay = 0;
  ok_seen = false;
  rearm_hold = false;
  fell = false;
  declared = false;
  latched = false;
  latch_notok = false;
  timed_out = false;
  raw_trip = false;
  trip = false;
  strikes = 0;
  level = f.of_ℕ 0;
  floor = f.of_ℕ 0;
  trips = 0;
  ducks = 0;
  rearms = 0;
  hints = 0;
  watchdog = 0;
}

-- The ceiling of every saturating timer, size_t's maximum over 4.
unfoldable pub k_big : ℕ
unfolding size_max
k_big = size_max / 4

pub k_big-le : k_big ≤ size_max
unfolding k_big
k_big-le = omega arith
