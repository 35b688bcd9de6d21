-- ===== src/Shifter/Process.antt =====
-- process_block() of the shifter ends and fills its output, and its oscillator is never more than an
-- interval from a renormalisation (include/mutap/frequency_shifter.h).
use mu_tap.Common.{
  ℕ, zero, suc, ◌+◌, ◌≤◌, ◌<◌, ◌≡◌, refl, ap, ◌∙◌, arith, Bool-cases, inl, inr, List, [], ◌∷◌, ◌++◌,
  length, take, drop, some, length-append, length-take, length-drop,
}
use mu_tap.Common.Float.{Float}
use mu_tap.Shifter.{
  FrequencyShifter, k_renorm_interval, bypass, shift_sample, shift_run, renorm, turn, shift_loop,
  shift_block,
}

module _ {S D : Type 0} ⦃f : Float S⦄ where
  shift_run-counts :
      (xs : List S) (t : FrequencyShifter S D)
      → let (after, out) = shift_run xs t in
        (after.since_renorm ≡ t.since_renorm + length xs) × (length out ≡ length xs)
  unfolding shift_run shift_sample
  shift_run-counts [] t = (omega arith, refl)
  shift_run-counts (x ∷ xs) t =
      let next = (shift_sample x t).0 in
      let (count, len) = shift_run-counts xs next in (count ∙ omega arith, ap suc len)

  bypass_lem :
      (xs : List S) (t : FrequencyShifter S D)
      → ((bypass xs t).1 ≡ xs) × ((bypass xs t).0.since_renorm ≡ t.since_renorm)
  unfolding bypass
  bypass_lem [] t = (refl, refl)
  bypass_lem (x ∷ xs) t = let (out, count) = bypass_lem xs _ in (ap (◌∷◌ x) out, count)

  turn-bounds :
      (n : ℕ) (t : FrequencyShifter S D)
      → 0 < n
      → t.since_renorm < k_renorm_interval
      → let len = turn n t in (0 < len) × (len ≤ n) × (t.since_renorm + len ≤ k_renorm_interval)
  unfolding turn
  turn-bounds n t h inside = ground arith

  renorm-lt :
      (t : FrequencyShifter S D)
      → t.since_renorm ≤ k_renorm_interval
      → (renorm t).since_renorm < k_renorm_interval
  unfolding renorm k_renorm_interval
  renorm-lt t h = ground arith

  -- What a call leaves: as many samples out as in, and the count of the interval inside it.
  abbrev Fills : ℕ → FrequencyShifter S D × List S → Type 0
  Fills n (after, out) = (length out ≡ n) × (after.since_renorm < k_renorm_interval)

  shift_loop-Fills :
      (fuel : ℕ) (xs : List S) (t : FrequencyShifter S D)
      → length xs ≤ fuel
      → t.since_renorm < k_renorm_interval
      → (r : FrequencyShifter S D × List S) × (shift_loop fuel xs t ≡ some r) × Fills (length xs) r
  unfolding shift_loop
  shift_loop-Fills zero [] t h inside = ((t, []), refl, (refl, inside))
  shift_loop-Fills zero (x ∷ xs) t h inside = absurd (omega arith)
  shift_loop-Fills (suc fuel) [] t h inside = ((t, []), refl, (refl, inside))
  shift_loop-Fills (suc fuel) (x ∷ xs) t h inside =
      let ys = x ∷ xs in
      let len = turn (length ys) t in
      let (some_sample, fits, room) = turn-bounds (length ys) t (omega arith) inside in
      let (count, size) = shift_run-counts (take len ys) t in
      let ran = (shift_run (take len ys) t).0 in
      let out = (shift_run (take len ys) t).1 in
      let next : (renorm ran).since_renorm < k_renorm_interval =
        renorm-lt ran (omega (arith, count, length-take len ys)) in
      let (r, e, (rest, last)) =
        shift_loop-Fills fuel (drop len ys) (renorm ran) (omega (arith, length-drop len ys)) next in
      (
        (r.0, out ++ r.1),
        rw e refl,
        (
          length-append out r.1 ∙ omega (arith, size, rest, length-take len ys, length-drop len ys),
          last,
        ),
      )

  -- From an interval that is not full, process_block() always returns, with one sample out for
  -- each sample in and the oscillator again less than k_renorm_interval samples from its last
  -- renormalisation.
  pub shift_block-returns :
      (xs : List S) (t : FrequencyShifter S D)
      → t.since_renorm < k_renorm_interval
      → (r : FrequencyShifter S D × List S) × (shift_block xs t ≡ some r)
        × (length r.1 ≡ length xs)
        × (r.0.since_renorm < k_renorm_interval)
  unfolding shift_block
  shift_block-returns xs t inside = elim (Bool-cases (f.eq t.cfg.shift_hz (f.of_ℕ 0))) [
    | inl e ↦
        let (out, count) = bypass_lem xs t in
        (bypass xs t, rw e refl, ap length out, omega (arith, count))
    | inr e ↦
        let (r, ran, (len, last)) = shift_loop-Fills (length xs) xs t (omega arith) inside in
        (r, rw e ran, len, last)
  ]
