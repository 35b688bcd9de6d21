-- ===== src/Shifter.antt =====
-- The frequency shifter, a stage of the chain (include/mutap/frequency_shifter.h).
pub mod Process
use mu_tap.Common.{
  ℕ, zero, suc, ◌+◌, ◌-◌, ◌==◌, Bool, true, false, not, ◌||◌, List, [], ◌∷◌, ◌++◌, map, ltb, length,
  take, drop, Option, none, some, if◌then◌else◌, Result, ok, err,
}
use mathlib.Core.Option
use mu_tap.Common.Float.{Float, Cast}

-- One second-order section: its squared coefficient, its last two inputs and last two outputs.
pub record Section (S : Type 0) : Type 0 where
  pub c2 : S
  pub in0 : S
  pub in1 : S
  pub out0 : S
  pub out1 : S

pub record Hilbert (S : Type 0) : Type 0 where
  pub re_chain : List (Section S)
  pub im_chain : List (Section S)
  pub im_delay : S

pub record ShifterConfig (S D : Type 0) : Type 0 where
  pub sample_rate : D
  pub shift_hz : S

pub record FrequencyShifter (S D : Type 0) : Type 0 where
  pub cfg : ShifterConfig S D
  pub rate : S
  pub hilbert : Hilbert S
  pub cos : S
  pub sin : S
  pub step_cos : S
  pub step_sin : S
  pub since_renorm : ℕ

pub data ShifterError : Type 0 where
  bad_rate bad_shift : ShifterError

unfoldable pub k_renorm_interval : ℕ
k_renorm_interval = 64

module _ {S : Type 0} ⦃f : Float S⦄ where
  -- The chain's sections in order: each one's output is the next one's input.
  unfoldable pub run_chain : List (Section S) → S → List (Section S) × S
  run_chain [] x = ([], x)
  run_chain (s ∷ ss) x =
      let y = f.sub (f.mul s.c2 (f.add x s.out1)) s.in1 in
      let (rest, out) = run_chain ss y in
      (record s { in1 = s.in0; in0 = x; out1 = s.out0; out0 = y } ∷ rest, out)

  -- process() of the Hilbert pair: the real and the imaginary part.
  unfoldable pub process_pair : S → Hilbert S → Hilbert S × (S × S)
  unfolding run_chain
  process_pair x h =
      let (re_chain, re) = run_chain h.re_chain x in
      let (im_chain, next) = run_chain h.im_chain x in
      (record h { re_chain = re_chain; im_chain = im_chain; im_delay = next }, (re, h.im_delay))

  unfoldable pub clear_section : Section S → Section S
  clear_section s = let z = f.of_ℕ 0 in record s { in0 = z; in1 = z; out0 = z; out1 = z }

  unfoldable pub reset_hilbert : Hilbert S → Hilbert S
  unfolding clear_section
  reset_hilbert h = record {
    re_chain = map clear_section h.re_chain;
    im_chain = map clear_section h.im_chain;
    im_delay = f.of_ℕ 0;
  }

module _ {S D : Type 0} ⦃f : Float S⦄ where
  -- set_shift_hz(): the shifter after it, and what it returns.
  unfoldable pub set_shift_hz : S → FrequencyShifter S D → FrequencyShifter S D × Bool
  set_shift_hz hz t =
      let w = f.div (f.mul (f.mul (f.of_ℕ 2) f.pi) hz) t.rate in
      if not (f.is_finite hz) || not (f.lt (f.abs hz) (f.div t.rate (f.of_ℕ 2)))
      then (t, false)
      else (
        record t { cfg = record t.cfg { shift_hz = hz }; step_cos = f.cos w; step_sin = f.sin w },
        true,
      )

  unfoldable pub reset_shifter : FrequencyShifter S D → FrequencyShifter S D
  unfolding reset_hilbert
  reset_shifter t = record t {
    hilbert = reset_hilbert t.hilbert;
    cos = f.of_ℕ 1;
    sin = f.of_ℕ 0;
    since_renorm = 0;
  }

  -- The bypass: the chains stay warm, and the samples pass.
  unfoldable pub bypass : List S → FrequencyShifter S D → FrequencyShifter S D × List S
  unfolding process_pair
  bypass [] t = (t, [])
  bypass (x ∷ xs) t =
      let (h, parts) = process_pair x t.hilbert in
      let (after, out) = bypass xs (record t { hilbert = h }) in (after, x ∷ out)

  -- One shifted sample, and the oscillator's next phase.
  unfoldable pub shift_sample : S → FrequencyShifter S D → FrequencyShifter S D × S
  unfolding process_pair
  shift_sample x t =
      let (h, (re, im)) = process_pair x t.hilbert in
      (
        record t {
          hilbert = h;
          cos = f.sub (f.mul t.cos t.step_cos) (f.mul t.sin t.step_sin);
          sin = f.add (f.mul t.sin t.step_cos) (f.mul t.cos t.step_sin);
          since_renorm = t.since_renorm + 1;
        },
        f.sub (f.mul re t.cos) (f.mul im t.sin),
      )

  unfoldable pub shift_run : List S → FrequencyShifter S D → FrequencyShifter S D × List S
  unfolding shift_sample
  shift_run [] t = (t, [])
  shift_run (x ∷ xs) t =
      let (next, y) = shift_sample x t in let (after, out) = shift_run xs next in (after, y ∷ out)

  -- One Newton step of 1 / |z|, at the end of an interval.
  unfoldable pub renorm : FrequencyShifter S D → FrequencyShifter S D
  renorm t =
      let g =
        f.sub (f.dec 15 1) (f.mul (f.dec 5 1) (f.add (f.mul t.cos t.cos) (f.mul t.sin t.sin))) in
      if t.since_renorm == k_renorm_interval
      then record t { cos = f.mul t.cos g; sin = f.mul t.sin g; since_renorm = 0 }
      else t

  -- end - i: the room left in the interval, or the n samples left.
  unfoldable pub turn : ℕ → FrequencyShifter S D → ℕ
  turn n t = let room = k_renorm_interval - t.since_renorm in if ltb room n then room else n

  -- `while (i < n)`, on fuel: `none` means that the fuel ran out.
  unfoldable pub shift_loop :
      ℕ → List S → FrequencyShifter S D → Option (FrequencyShifter S D × List S)
  unfolding shift_run renorm turn
  shift_loop zero [] t = some (t, [])
  shift_loop zero (x ∷ xs) t = none
  shift_loop (suc fuel) [] t = some (t, [])
  shift_loop (suc fuel) (x ∷ xs) t =
      let len = turn (length (x ∷ xs)) t in
      let (ran, out) = shift_run (take len (x ∷ xs)) t in
      Option.map (λ (after, rest). (after, out ++ rest))
        (shift_loop fuel (drop len (x ∷ xs)) (renorm ran))

  unfoldable pub shift_block :
      List S → FrequencyShifter S D → Option (FrequencyShifter S D × List S)
  unfolding bypass shift_loop
  shift_block xs t =
      if f.eq t.cfg.shift_hz (f.of_ℕ 0) then some (bypass xs t) else shift_loop (length xs) xs t

module _ {S D : Type 0} ⦃f : Float S⦄ ⦃d : Float D⦄ ⦃c : Cast S D⦄ where
  -- A section with the squared coefficient.
  unfoldable pub squared : D → Section S
  squared a =
      let z = f.of_ℕ 0 in
      record { c2 = c.to_sample (d.mul a a); in0 = z; in1 = z; out0 = z; out1 = z }

module _ {S : Type 0} (D : Type 0) ⦃f : Float S⦄ ⦃d : Float D⦄ ⦃c : Cast S D⦄ where
  unfoldable pub hilbert_pair : Hilbert S
  unfolding squared
  hilbert_pair = record {
    re_chain =
        squared (d.dec 4_021_921_162_426 13)
        ∷ squared (d.dec 8_561_710_882_420 13)
        ∷ squared (d.dec 9_722_909_545_651 13)
        ∷ squared (d.dec 9_952_884_791_278 13)
        ∷ [];
    im_chain =
        squared (d.dec 6_923_878 7)
        ∷ squared (d.dec 9_360_654_322_959 13)
        ∷ squared (d.dec 9_882_295_226_860 13)
        ∷ squared (d.dec 9_987_488_452_737 13)
        ∷ [];
    im_delay = f.of_ℕ 0;
  }

module _ {S D : Type 0} ⦃f : Float S⦄ ⦃d : Float D⦄ ⦃c : Cast S D⦄ where
  unfoldable pub rate_is_valid : ShifterConfig S D → Bool
  rate_is_valid cfg =
      let rate = c.to_sample cfg.sample_rate in
      not
        (not (d.is_finite cfg.sample_rate) || not (f.is_finite rate) || not (f.lt (f.of_ℕ 0) rate))

  -- The constructor.
  unfoldable pub new_shifter : ShifterConfig S D → Result ShifterError (FrequencyShifter S D)
  unfolding hilbert_pair rate_is_valid set_shift_hz reset_shifter
  new_shifter cfg =
      let (t, accepted) = set_shift_hz cfg.shift_hz (record {
        cfg = cfg;
        rate = c.to_sample cfg.sample_rate;
        hilbert = hilbert_pair D;
        cos = f.of_ℕ 1;
        sin = f.of_ℕ 0;
        step_cos = f.of_ℕ 1;
        step_sin = f.of_ℕ 0;
        since_renorm = 0;
      }) in
      if not (rate_is_valid cfg)
      then err bad_rate
      else if accepted
      then ok (reset_shifter t)
      else err bad_shift
