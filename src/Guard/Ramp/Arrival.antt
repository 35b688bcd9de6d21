-- ===== src/Guard/Ramp/Arrival.antt =====
-- A ramp lands exactly on its target, after its samples (include/mutap/howl_guard.h: render()).
use mu_tap.Common.{
  ℕ, zero, suc, ◌-◌, ◌*◌, ◌≤◌, ◌<◌, min, ◌≡◌, refl, ◌∙◌, ap, arith, length, length-append,
  length-replicate, length-set, set, replicate, ◌⊎◌, inl, inr,
}
use mu_tap.Common.Float.{Float}
use mu_tap.Guard.Types.{Settings, MicState}
use mu_tap.Guard.Ramp.{db_to_lin, ramp_values, retarget, advance, gains, render_mic}

module _ {S : Type 0} ⦃f : Float S⦄ where
  -- A mic that is not ramping sits on its target.
  abbrev pub IsSettled : MicState S → Type 0
  IsSettled s = s.left ≡ 0 → s.cur ≡ s.tgt

  length-ramp_values : (n : ℕ) (x ratio : S) → length (ramp_values n x ratio) ≡ n
  unfolding ramp_values
  length-ramp_values zero x ratio = refl
  length-ramp_values (suc n) x ratio = ap suc (length-ramp_values n (f.mul x ratio) ratio)

module _ {S : Type 0} ⦃f : Float S⦄ (c : Settings S) where
  -- Whatever the state's target does, a block leaves the mic ramping or on its target.
  pub render_mic-IsSettled : (b : ℕ) (s : MicState S) → IsSettled s → IsSettled (render_mic c b s)
  unfolding render_mic retarget advance
  render_mic-IsSettled b s h = ground arith

  -- Every block has exactly one gain for each of its samples.
  pub length-gains : (b : ℕ) (s : MicState S) → length (gains c b s) ≡ b
  unfolding gains
  length-gains b s =
      let len = min b s.left in
      let steps = ramp_values len (db_to_lin (f.add s.cur s.rate)) s.ratio in
      let made = length-ramp_values len (db_to_lin (f.add s.cur s.rate)) s.ratio in
      ground (
        arith,
        made,
        length-set steps (len - 1) s.tgt_l,
        length-append steps (replicate (b - len) s.tgt_l),
        length-append (set steps (len - 1) s.tgt_l) (replicate (b - len) s.tgt_l),
        length-replicate (b - len) s.tgt_l,
        length-replicate b s.tgt_l,
      )

  advance-settled : (b : ℕ) (s : MicState S) → s.left ≡ 0 → advance c b s ≡ s
  unfolding advance
  advance-settled b s h = ground arith

  -- One block of a ramp: it lands on the target, or b samples fewer are left.
  advance-cases :
      (b : ℕ) (s : MicState S)
      → 0 < s.left
      → let t = advance c b s in
        ((t.left ≡ 0) × (t.cur ≡ s.tgt)) ⊎ ((0 < t.left) × (t.left ≡ s.left - b) × (t.tgt ≡ s.tgt))
  unfolding advance
  advance-cases b s h = ground arith

  -- Blocks over which the target stays.
  unfoldable pub ramp : ℕ → ℕ → MicState S → MicState S
  ramp zero b s = s
  ramp (suc k) b s = ramp k b (advance c b s)

  ramp-settled : (k b : ℕ) (s : MicState S) → s.left ≡ 0 → ramp k b s ≡ s
  unfolding ramp
  ramp-settled zero b s h = refl
  ramp-settled (suc k) b s h = rw (advance-settled b s h) (ramp-settled k b s h)

  -- A running ramp ends exactly on its target: over blocks that together hold its samples, the gain
  -- is the target, not a rounded sum of the steps.
  pub ramp-lands :
      (k b : ℕ) (s : MicState S)
      → 0 < s.left
      → s.left ≤ k * b
      → ((ramp k b s).left ≡ 0) × ((ramp k b s).cur ≡ s.tgt)
  unfolding ramp
  ramp-lands zero b s h enough = absurd (omega arith)
  ramp-lands (suc k) b s h enough =
      let t = advance c b s in
      elim (advance-cases b s h) [
        | inl (done, at_target) ↦ let stays = ramp-settled k b t done in rw stays (done, at_target)
        | inr (more, left, same) ↦
            let rest = ramp-lands k b t more (omega (arith, left)) in (rest.0, rest.1 ∙ same)
      ]
