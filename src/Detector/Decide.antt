-- ===== src/Detector/Decide.antt =====
-- One detector tick (include/mutap/howl_detector.h: fit() and decide()).
pub mod Verdict
pub mod Ring
pub mod Fitting
pub mod Bounds
use mu_tap.Common.{
  write_at, ℕ, zero, suc, ◌+◌, ◌-◌, ◌*◌, ◌==◌, Bool, true, false, not, ◌&&◌, ◌||◌, List, [], ◌∷◌,
  ltb, map, if◌then◌else◌, set,
}
use mu_tap.Common.Float.{Float, fmax}
use mu_tap.Detector.Types.{
  HowlTrigger, quiet, growth, ceiling, level, DecisionParams, DecisionState,
}
use mu_tap.Detector.Loops.{
  Fit, next_slot, at, near_max, lines_from, sum_of, peak_from, level_of, prominence_of, mean_loop,
  fit_loop,
}

abbrev pub is_fired : HowlTrigger → Bool
is_fired quiet = false
is_fired _ = true

-- The variables of the per-band growth loop.
pub record Growth (S : Type 0) : Type 0 where
  pub rise : List S
  pub max_rise : S
  pub line : ℕ
  pub growing : Bool
  pub slope : S

module _ {S : Type 0} ⦃f : Float S⦄ where
  open f use {of_ℕ, sub, mul, div, sqrt}

  -- The slope, and the RMS residual from Syy - slope^2 Sxx.
  unfoldable pub line_fit : ℕ → S × S → Fit S
  line_fit m (sl, ss) =
      let sxx = div (mul (of_ℕ m) (of_ℕ (m * m - 1))) (of_ℕ 12) in
      let rss = fmax (sub ss (mul (mul sl sl) sxx)) (of_ℕ 0) in
      record { slope = sl; residual = sqrt (div rss (of_ℕ m)) }

module _ {S : Type 0} ⦃f : Float S⦄ (p : DecisionParams S) where
  open f use {of_ℕ, dec, add, sub, mul, div, lt, le, log10, sqrt}

  unfoldable pub fit : DecisionState S → ℕ → Fit S
  fit s b =
      let nb = p.bands in
      let m = p.slots in
      let mean = div (mean_loop m m nb b s.ring_pos s.ring (of_ℕ 0)) (of_ℕ m) in
      line_fit m (fit_loop p.slope_w m nb b s.ring_pos s.ring mean (of_ℕ 0) (of_ℕ 0))

  -- Levels and per-band prominence over the mean of the others.
  unfoldable pub measure : List S → DecisionState S → DecisionState S
  measure env s =
      let sum = sum_of env (of_ℕ 0) in
      let peak = peak_from p.bands 0 env 0 in
      let prom = map (prominence_of p.inv_others sum) env in
      record s {
        level_db = map level_of env;
        prom = prom;
        peak_band = peak;
        prominence = at prom peak;
      }

  -- Line levels into the ring.
  unfoldable pub push_line : DecisionState S → DecisionState S
  push_line s = record s {
    ring = write_at (s.ring_pos * p.bands) (lines_from p.bands p.bands s.level_db 0) s.ring;
    ring_pos = next_slot p.slots s.ring_pos;
    ring_count = if ltb s.ring_count p.slots then s.ring_count + 1 else s.ring_count;
  }

  unfoldable pub full : DecisionState S → Bool
  full s = s.ring_count == p.slots

  -- One band of the growth loop; `t` holds the rises of the bands before it.
  unfoldable pub grow_band : DecisionState S → ℕ → Growth S → Growth S
  grow_band s b t =
      let pm = near_max p.bands s.prom b in
      let rp = near_max p.bands s.rise_prev b in
      let record { slope = slope; residual = residual } = fit s b in
      let skipped = lt pm p.prominence && not (b == s.peak_band) in
      let grows =
        not skipped && le p.prominence pm && le p.growth_tick slope && le residual p.linearity in
      let rise = if lt (of_ℕ 0) rp then add rp slope else slope in
      let higher = grows && lt t.max_rise rise in
      record {
        rise = set t.rise b (if grows then rise else of_ℕ 0);
        max_rise = if higher then rise else t.max_rise;
        line = if higher then b else t.line;
        growing = grows || t.growing;
        slope = if not skipped && b == s.peak_band then slope else t.slope;
      }

  unfoldable pub grow_from : ℕ → DecisionState S → ℕ → Growth S → Growth S
  grow_from zero s b t = t
  grow_from (suc n) s b t = grow_from n s (b + 1) (grow_band s b t)

  -- s.rise[b] = 0 for every band: the loop while the ring has not filled.
  unfoldable pub zero_from : ℕ → ℕ → List S → List S
  zero_from zero b rise = rise
  zero_from (suc n) b rise = zero_from n (b + 1) (set rise b (of_ℕ 0))

  -- Per-band growth and the integrated rise of each line, after std::swap(s.rise, s.rise_prev).
  unfoldable pub grow : DecisionState S → Growth S
  grow s =
      let start : Growth S = record {
        rise = s.rise;
        max_rise = of_ℕ 0;
        line = 0;
        growing = false;
        slope = of_ℕ 0;
      } in
      if full s
      then grow_from p.bands s 0 start
      else record start { rise = zero_from p.bands 0 s.rise }

  unfoldable pub integrate : DecisionState S → DecisionState S × Bool
  integrate s =
      let swapped = record s { rise = s.rise_prev; rise_prev = s.rise } in
      let g = grow swapped in
      (
        record swapped {
          rise = g.rise;
          growth = g.slope;
          max_rise = g.max_rise;
          line_band = if g.growing then g.line else s.peak_band;
        },
        g.growing,
      )

  -- The block power over the program level, which is frozen while a line grows.
  unfoldable pub track : S → Bool → DecisionState S → DecisionState S
  track pw growing s =
      let program = if s.program_ok then s.program else pw in
      record s {
        power_db = mul (of_ℕ 10) (log10 pw);
        level = mul (of_ℕ 10) (log10 (div pw program));
        program = if growing then program else add program (mul p.program_coef (sub pw program));
        program_ok = true;
      }

  unfoldable pub verdict : S → DecisionState S → HowlTrigger
  verdict pw s =
      if le p.rise s.max_rise
      then growth
      else if p.level_catch && le p.ceiling_pow pw
      then ceiling
      else if p.level_catch && le p.level s.level && le p.level_prom s.prominence
      then level
      else quiet

  -- The verdict's hold, and the confidence follower.
  unfoldable pub settle : HowlTrigger → DecisionState S → DecisionState S
  settle trigger s =
      let raw = is_fired trigger in
      let target = if raw then of_ℕ 1 else of_ℕ 0 in
      let coef = if raw then p.conf_att else p.conf_rel in
      record s {
        trigger = trigger;
        raw = raw;
        hold_left = if raw then p.hold_ticks else s.hold_left - 1;
        tripped = raw || ltb 0 s.hold_left;
        conf = add target (mul coef (sub s.conf target));
      }

  -- The tick up to the line levels' growth; the flag is whether a line grows.
  unfoldable pub analyse : List S → DecisionState S → DecisionState S × Bool
  analyse env s = integrate (push_line (measure env s))

  -- The rest of the tick, from the block power above its floor.
  unfoldable pub judge : S → DecisionState S × Bool → DecisionState S
  judge pw (t, growing) = let u = track pw growing t in settle (verdict pw u) u

  unfoldable pub decide : List S → S → DecisionState S → DecisionState S
  decide env power s = judge (add power (dec 1 30)) (analyse env s)
