-- ===== src/Guard/Policy.antt =====
-- The host's policy and what derives from it (include/mutap/howl_guard.h: clamped, ticks, samples,
-- derive).
pub mod Clamped
use mu_tap.Common.{ℕ, ◌==◌, min, max, Bool, true, false, Option, none, some, if◌then◌else◌}
use mu_tap.Common.Float.{Float, Cast, clamp}
use mu_tap.Guard.Types.{GuardPolicy, Settings, k_big}

module _ {D : Type 0} ⦃d : Float D⦄ where
  open d use {of_ℕ, dec, add, sub, mul, div, neg, lt, is_finite, to_ℕ, ceil, round}

  -- A finite value clamped, else the old one.
  unfoldable pub pick : D → D → D → D → D
  pick v old lo hi = if is_finite v then clamp v lo hi else old

  unfoldable pub big : D
  big = of_ℕ 1_000_000

  unfoldable pub pick_cap : Option D → Option D → Option D
  unfolding pick
  pick_cap none old = none
  pick_cap (some v) none = some (pick v (of_ℕ 0) (neg (of_ℕ 120)) (of_ℕ 0))
  pick_cap (some v) (some old) = some (pick v old (neg (of_ℕ 120)) (of_ℕ 0))

  -- p clamped field by field; a non-finite field takes prev's value.
  unfoldable pub clamped : GuardPolicy D → GuardPolicy D → GuardPolicy D
  unfolding pick big pick_cap
  clamped p prev = record {
    d_db = pick p.d_db prev.d_db (neg (of_ℕ 120)) (of_ℕ 120);
    a_db = pick p.a_db prev.a_db (neg (of_ℕ 300)) (of_ℕ 120);
    trip_hold_s = pick p.trip_hold_s prev.trip_hold_s (of_ℕ 0) big;
    release_hold_s = pick p.release_hold_s prev.release_hold_s (of_ℕ 0) big;
    quiet_s = pick p.quiet_s prev.quiet_s (of_ℕ 0) big;
    arming_duck_db = pick p.arming_duck_db prev.arming_duck_db (of_ℕ 0) (of_ℕ 120);
    arming_timeout_s = pick p.arming_timeout_s prev.arming_timeout_s (of_ℕ 0) big;
    duck_db = pick p.duck_db prev.duck_db (of_ℕ 0) (of_ℕ 120);
    attack_ms = pick p.attack_ms prev.attack_ms (of_ℕ 0) (of_ℕ 100_000);
    release_ramp_ms = pick p.release_ramp_ms prev.release_ramp_ms (of_ℕ 0) (of_ℕ 100_000);
    rearm_timeout_s = pick p.rearm_timeout_s prev.rearm_timeout_s (of_ℕ 0) big;
    probation_s = pick p.probation_s prev.probation_s (of_ℕ 0) big;
    strike_db = pick p.strike_db prev.strike_db (of_ℕ 0) (of_ℕ 60);
    max_strikes = min (max p.max_strikes 1) 16;
    strike_decay_s = pick p.strike_decay_s prev.strike_decay_s (of_ℕ 0) big;
    attrib_db = pick p.attrib_db prev.attrib_db (of_ℕ 0) (of_ℕ 120);
    restart_a_db = pick p.restart_a_db prev.restart_a_db (neg (of_ℕ 300)) (of_ℕ 120);
    calibrate_s = pick p.calibrate_s prev.calibrate_s (of_ℕ 0) big;
    cal_d_margin_db = pick p.cal_d_margin_db prev.cal_d_margin_db (neg (of_ℕ 120)) (of_ℕ 120);
    cal_a_margin_db = pick p.cal_a_margin_db prev.cal_a_margin_db (neg (of_ℕ 120)) (of_ℕ 120);
    cap_db = pick_cap p.cap_db prev.cap_db;
    lost_in_probation_strikes = p.lost_in_probation_strikes;
  }

  -- Seconds to ticks of tick_s seconds: at least 1.
  unfoldable pub ticks : D → D → ℕ
  ticks tick_s seconds =
      let t = ceil (sub (div seconds tick_s) (dec 1 6)) in
      if lt t (of_ℕ 1) then 1 else if lt (of_ℕ 1_000_000_000_000) t then k_big else to_ℕ t

  unfoldable pub samples : D → D → ℕ
  samples rate ms =
      let n = round (mul (mul ms (dec 1 3)) rate) in if lt n (of_ℕ 1) then 0 else to_ℕ n

  abbrev pub value_or : Option D → D → D
  value_or none x = x
  value_or (some v) x = v

  abbrev pub has_value : Option D → Bool
  has_value none = false
  has_value (some v) = true

module _ {S D : Type 0} ⦃f : Float S⦄ ⦃d : Float D⦄ ⦃c : Cast S D⦄ where
  open d use {of_ℕ, dec, add, mul, neg, lt}
  open c use {to_sample}

  -- The members that derive() sets, at a sample rate and seconds per tick.
  unfoldable pub settings_of : D → D → GuardPolicy D → Settings S
  unfolding ticks samples
  settings_of rate tick_s p = record {
    d_db = to_sample p.d_db;
    a_db = to_sample p.a_db;
    restart_db = to_sample p.restart_a_db;
    duck = to_sample p.duck_db;
    strike = to_sample p.strike_db;
    attrib = to_sample p.attrib_db;
    cap = to_sample (value_or p.cap_db (of_ℕ 0));
    arming = to_sample (neg p.arming_duck_db);
    has_cap = has_value p.cap_db;
    trip_ticks = ticks tick_s p.trip_hold_s;
    release_ticks = ticks tick_s p.release_hold_s;
    quiet_ticks = if lt (of_ℕ 0) p.quiet_s then ticks tick_s p.quiet_s else 0;
    timeout_ticks = ticks tick_s p.arming_timeout_s;
    rearm_ticks = ticks tick_s p.rearm_timeout_s;
    probation_ticks = if lt (of_ℕ 0) p.probation_s then ticks tick_s p.probation_s else 0;
    decay_ticks = ticks tick_s p.strike_decay_s;
    window_ticks = ticks tick_s (mul (add p.attack_ms (of_ℕ 50)) (dec 1 3));
    attack = samples rate p.attack_ms;
    release = samples rate p.release_ramp_ms;
    max_strikes = p.max_strikes;
    lost_in_probation_strikes = p.lost_in_probation_strikes;
  }
