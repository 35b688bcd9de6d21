-- ===== src/Guard/Machine/Timers.antt =====
-- The saturating timers and the re-arm timeout (howl_guard.h: k_big, rearm_ticks).
use mu_tap.Common.{
  ℕ, ◌+◌, ◌*◌, ◌/◌, ◌%◌, ◌^◌, min, ◌≤◌, ◌<◌, ◌≡◌, ap, arith, inc-of_lt, size_mod, size_max, ltb→lt,
  ltb-false→le, ◌∙◌, Bool-cases, inl, inr, ltb, if◌then◌else◌,
}
use native.Mathlib.Nat.{div-lt_iff_lt-mul, le-div_iff_mul-le, mod-eq_of_lt, one-le-pow}
use mu_tap.Common.Float.{Float}
use mu_tap.Guard.Types.{Settings, MicState, k_big, k_big-le}
use mu_tap.Guard.Machine.{saturate, rearm_ticks}

pub saturate-le : (n : ℕ) → saturate n ≤ k_big
unfolding saturate
saturate-le n = omega arith

-- Below the ceiling the timer counts exactly: the increment does not wrap.
pub saturate-of_lt : (n : ℕ) → n < k_big → saturate n ≡ n + 1
unfolding saturate
saturate-of_lt n h = omega (arith, inc-of_lt n, k_big-le)

-- A shift that is guarded by the shifted ceiling is a saturated product.
shift-saturates :
    (r k p m : ℕ) → 0 < p → k < m → (if ltb (k / p) r then k else r * p % m) ≡ min (r * p) k
shift-saturates r k p m hp hm = elim (Bool-cases (ltb (k / p) r)) [
  | inl over ↦
      let above : k < r * p = (div-lt_iff_lt-mul hp).0 (ltb→lt (k / p) r over) in
      rw over (omega arith)
  | inr fits ↦
      let below : r * p ≤ k = (le-div_iff_mul-le hp).0 (ltb-false→le (k / p) r fits) in
      rw fits (mod-eq_of_lt (omega arith) ∙ omega arith)
]

module _ {S : Type 0} ⦃f : Float S⦄ (c : Settings S) where
  -- The re-arm timeout of up to 30 strikes, as a saturated product.
  pub rearm_ticks-min :
      (s : MicState S) → rearm_ticks c s ≡ min (c.rearm_ticks * 2 ^ min s.strikes 30) k_big
  unfolding rearm_ticks size_mod k_big size_max
  rearm_ticks-min s =
      shift-saturates c.rearm_ticks k_big (2 ^ min s.strikes 30) size_mod
        (one-le-pow (min s.strikes 30) 2 (omega arith)) (omega arith)

  -- The re-arm timeout is exactly rearm_timeout x 2^strikes, saturated at k_big: the shift never
  -- overflows, for any number of strikes the invariant allows.
  pub rearm_ticks-eq :
      (s : MicState S)
      → s.strikes ≤ 30
      → rearm_ticks c s ≡ min (c.rearm_ticks * 2 ^ s.strikes) k_big
  rearm_ticks-eq s h =
      let e : min s.strikes 30 ≡ s.strikes = omega arith in
      rearm_ticks-min s ∙ ap (λ n. min (c.rearm_ticks * 2 ^ n) k_big) e
