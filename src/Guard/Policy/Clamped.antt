-- ===== src/Guard/Policy/Clamped.antt =====
-- The policy that the guard runs on is in range (include/mutap/howl_guard.h: clamped()).
use mu_tap.Common.{◌≤◌, ◌≡◌, refl, true, false, arith, Option, none, some, Bool-cases, inl, inr}
use mu_tap.Common.Float.{Float, Fixed, fixed_float, IsIrreflexive, clamp, clamp_bounds}
use mu_tap.Guard.Types.{GuardPolicy}
use mu_tap.Guard.Policy.{pick, big, pick_cap, clamped}

module _ {D : Type 0} ⦃d : Float D⦄ where
  open d use {of_ℕ, neg, lt, is_finite}

  -- A number, and neither below lo nor above hi.
  abbrev pub IsWithin : D → D → D → Type 0
  IsWithin lo hi v = (is_finite v ≡ true) × (lt v lo ≡ false) × (lt hi v ≡ false)

  -- Bounds of finite numbers in order.
  abbrev pub IsRange : D → D → Type 0
  IsRange lo hi = (is_finite lo ≡ true) × (is_finite hi ≡ true) × (lt hi lo ≡ false)

  abbrev pub CapWithin : Option D → Type 0
  CapWithin none = Unit
  CapWithin (some v) = IsWithin (neg (of_ℕ 120)) (of_ℕ 0) v

  pub record IsInRange (p : GuardPolicy D) : Type 0 where
    pub d_db_in : IsWithin (neg (of_ℕ 120)) (of_ℕ 120) p.d_db
    pub a_db_in : IsWithin (neg (of_ℕ 300)) (of_ℕ 120) p.a_db
    pub trip_hold_s_in : IsWithin (of_ℕ 0) big p.trip_hold_s
    pub release_hold_s_in : IsWithin (of_ℕ 0) big p.release_hold_s
    pub quiet_s_in : IsWithin (of_ℕ 0) big p.quiet_s
    pub arming_timeout_s_in : IsWithin (of_ℕ 0) big p.arming_timeout_s
    pub rearm_timeout_s_in : IsWithin (of_ℕ 0) big p.rearm_timeout_s
    pub probation_s_in : IsWithin (of_ℕ 0) big p.probation_s
    pub strike_decay_s_in : IsWithin (of_ℕ 0) big p.strike_decay_s
    pub calibrate_s_in : IsWithin (of_ℕ 0) big p.calibrate_s
    pub arming_duck_db_in : IsWithin (of_ℕ 0) (of_ℕ 120) p.arming_duck_db
    pub duck_db_in : IsWithin (of_ℕ 0) (of_ℕ 120) p.duck_db
    pub attrib_db_in : IsWithin (of_ℕ 0) (of_ℕ 120) p.attrib_db
    pub attack_ms_in : IsWithin (of_ℕ 0) (of_ℕ 100_000) p.attack_ms
    pub release_ramp_ms_in : IsWithin (of_ℕ 0) (of_ℕ 100_000) p.release_ramp_ms
    pub strike_db_in : IsWithin (of_ℕ 0) (of_ℕ 60) p.strike_db
    pub restart_a_db_in : IsWithin (neg (of_ℕ 300)) (of_ℕ 120) p.restart_a_db
    pub cal_d_margin_db_in : IsWithin (neg (of_ℕ 120)) (of_ℕ 120) p.cal_d_margin_db
    pub cal_a_margin_db_in : IsWithin (neg (of_ℕ 120)) (of_ℕ 120) p.cal_a_margin_db
    pub max_strikes_in : (1 ≤ p.max_strikes) × (p.max_strikes ≤ 16)
    pub cap_in : CapWithin p.cap_db

-- The literal ranges are finite and not empty in this precision.
pub record HasRanges (D : Type 0) ⦃d : Float D⦄ : Type 0 where
  pub db_range : IsRange (d.neg (d.of_ℕ 120)) (d.of_ℕ 120)
  pub progress_range : IsRange (d.neg (d.of_ℕ 300)) (d.of_ℕ 120)
  pub seconds_range : IsRange (d.of_ℕ 0) big
  pub duck_range : IsRange (d.of_ℕ 0) (d.of_ℕ 120)
  pub ms_range : IsRange (d.of_ℕ 0) (d.of_ℕ 100_000)
  pub strike_range : IsRange (d.of_ℕ 0) (d.of_ℕ 60)
  pub cap_range : IsRange (d.neg (d.of_ℕ 120)) (d.of_ℕ 0)
  pub zero_under_cap : IsWithin (d.neg (d.of_ℕ 120)) (d.of_ℕ 0) (d.of_ℕ 0)

module _ {D : Type 0} ⦃d : Float D⦄ (laws : IsIrreflexive D) (ranges : HasRanges D) where
  open d use {of_ℕ, neg, lt}

  clamp-is_finite :
      (v lo hi : D)
      → d.is_finite v ≡ true
      → d.is_finite lo ≡ true
      → d.is_finite hi ≡ true
      → d.is_finite (clamp v lo hi) ≡ true
  clamp-is_finite v lo hi a b e = ground arith

  pick-IsWithin :
      (v old lo hi : D) → IsRange lo hi → IsWithin lo hi old → IsWithin lo hi (pick v old lo hi)
  unfolding pick
  pick-IsWithin v old lo hi (lo_finite, hi_finite, h) w = elim (Bool-cases (d.is_finite v)) [
    | inl finite ↦
        let (above, below) = clamp_bounds laws v lo hi h in
        rw finite (clamp-is_finite v lo hi finite lo_finite hi_finite, above, below)
    | inr not_finite ↦ rw not_finite w
  ]

  pick_cap-CapWithin : (v old : Option D) → CapWithin old → CapWithin (pick_cap v old)
  unfolding pick_cap
  pick_cap-CapWithin none old w = tt
  pick_cap-CapWithin (some v) none w =
      pick-IsWithin v (of_ℕ 0) (neg (of_ℕ 120)) (of_ℕ 0) ranges.cap_range ranges.zero_under_cap
  pick_cap-CapWithin (some v) (some old) w =
      pick-IsWithin v old (neg (of_ℕ 120)) (of_ℕ 0) ranges.cap_range w

  -- Whatever the host passes, NaNs and infinities included, a policy in range stays in range: every
  -- field finite and within its bounds, max_strikes from 1 to 16, and the cap, if there is one, from
  -- -120 to 0 dB. Of the arithmetic this takes that no number is below itself and that the literal
  -- ranges are finite and not empty.
  pub clamped-IsInRange : (p prev : GuardPolicy D) → IsInRange prev → IsInRange (clamped p prev)
  unfolding clamped
  clamped-IsInRange p prev v = record {
    d_db_in = pick-IsWithin p.d_db prev.d_db (neg (of_ℕ 120)) (of_ℕ 120) ranges.db_range v.d_db_in;
    a_db_in =
        pick-IsWithin p.a_db prev.a_db (neg (of_ℕ 300)) (of_ℕ 120) ranges.progress_range v.a_db_in;
    trip_hold_s_in =
        pick-IsWithin p.trip_hold_s prev.trip_hold_s (of_ℕ 0) big ranges.seconds_range
          v.trip_hold_s_in;
    release_hold_s_in =
        pick-IsWithin p.release_hold_s prev.release_hold_s (of_ℕ 0) big ranges.seconds_range
          v.release_hold_s_in;
    quiet_s_in =
        pick-IsWithin p.quiet_s prev.quiet_s (of_ℕ 0) big ranges.seconds_range v.quiet_s_in;
    arming_timeout_s_in =
        pick-IsWithin p.arming_timeout_s prev.arming_timeout_s (of_ℕ 0) big ranges.seconds_range
          v.arming_timeout_s_in;
    rearm_timeout_s_in =
        pick-IsWithin p.rearm_timeout_s prev.rearm_timeout_s (of_ℕ 0) big ranges.seconds_range
          v.rearm_timeout_s_in;
    probation_s_in =
        pick-IsWithin p.probation_s prev.probation_s (of_ℕ 0) big ranges.seconds_range
          v.probation_s_in;
    strike_decay_s_in =
        pick-IsWithin p.strike_decay_s prev.strike_decay_s (of_ℕ 0) big ranges.seconds_range
          v.strike_decay_s_in;
    calibrate_s_in =
        pick-IsWithin p.calibrate_s prev.calibrate_s (of_ℕ 0) big ranges.seconds_range
          v.calibrate_s_in;
    arming_duck_db_in =
        pick-IsWithin p.arming_duck_db prev.arming_duck_db (of_ℕ 0) (of_ℕ 120) ranges.duck_range
          v.arming_duck_db_in;
    duck_db_in =
        pick-IsWithin p.duck_db prev.duck_db (of_ℕ 0) (of_ℕ 120) ranges.duck_range v.duck_db_in;
    attrib_db_in =
        pick-IsWithin p.attrib_db prev.attrib_db (of_ℕ 0) (of_ℕ 120) ranges.duck_range
          v.attrib_db_in;
    attack_ms_in =
        pick-IsWithin p.attack_ms prev.attack_ms (of_ℕ 0) (of_ℕ 100_000) ranges.ms_range
          v.attack_ms_in;
    release_ramp_ms_in =
        pick-IsWithin p.release_ramp_ms prev.release_ramp_ms (of_ℕ 0) (of_ℕ 100_000) ranges.ms_range
          v.release_ramp_ms_in;
    strike_db_in =
        pick-IsWithin p.strike_db prev.strike_db (of_ℕ 0) (of_ℕ 60) ranges.strike_range
          v.strike_db_in;
    restart_a_db_in =
        pick-IsWithin p.restart_a_db prev.restart_a_db (neg (of_ℕ 300)) (of_ℕ 120)
          ranges.progress_range v.restart_a_db_in;
    cal_d_margin_db_in =
        pick-IsWithin p.cal_d_margin_db prev.cal_d_margin_db (neg (of_ℕ 120)) (of_ℕ 120)
          ranges.db_range v.cal_d_margin_db_in;
    cal_a_margin_db_in =
        pick-IsWithin p.cal_a_margin_db prev.cal_a_margin_db (neg (of_ℕ 120)) (of_ℕ 120)
          ranges.db_range v.cal_a_margin_db_in;
    max_strikes_in = (omega arith, omega arith);
    cap_in = pick_cap-CapWithin p.cap_db prev.cap_db v.cap_in;
  }

pub Fixed-HasRanges : HasRanges Fixed
unfolding big
Fixed-HasRanges = record {
  db_range = (refl, refl, refl);
  progress_range = (refl, refl, refl);
  seconds_range = (refl, refl, refl);
  duck_range = (refl, refl, refl);
  ms_range = (refl, refl, refl);
  strike_range = (refl, refl, refl);
  cap_range = (refl, refl, refl);
  zero_under_cap = (refl, refl, refl);
}
