-- ===== src/Detector/Decide/Verdict.antt =====
-- The verdict of a tick and how long it holds (include/mutap/howl_detector.h: decide()).
use mu_tap.Common.{
  ℕ, ◌+◌, ◌-◌, ◌<◌, ◌≡◌, refl, ◌∙◌, ap, ◌≢◌, subst, Bool, true, false, ◌||◌, arith, List, [], ◌∷◌,
  ltb, leb, length,
}
use mu_tap.Common.Float.{Float}
use mu_tap.Detector.Types.{HowlTrigger, quiet, growth, DecisionParams, DecisionState}
use mu_tap.Detector.Decide.{
  is_fired, measure, push_line, integrate, grow, full, track, verdict, settle, decide, analyse,
  judge,
}

-- A tick's input: the band envelopes and the block's mean-square power.
pub record Block (S : Type 0) : Type 0 where
  pub env : List S
  pub power : S

fires : (t : HowlTrigger) → t ≢ quiet → is_fired t ≡ true
fires quiet h = absurd (h refl)
fires _ h = refl

module _ {S : Type 0} ⦃f : Float S⦄ (p : DecisionParams S) where
  -- The hold timer is touched by the verdict alone.
  analyse-hold : (env : List S) (s : DecisionState S) → (analyse p env s).0.hold_left ≡ s.hold_left
  unfolding analyse measure push_line integrate
  analyse-hold env s = refl

  track-hold : (pw : S) (g : Bool) (s : DecisionState S) → (track p pw g s).hold_left ≡ s.hold_left
  unfolding track
  track-hold pw g s = refl

  -- The verdict's hold, from the ticks left before: what trip and timer a tick leaves.
  abbrev Holds : ℕ → DecisionState S → Type 0
  Holds left u =
      (u.raw ≡ is_fired u.trigger)
      × (u.tripped ≡ (u.raw || ltb 0 left))
      × (u.raw ≡ true → u.hold_left ≡ p.hold_ticks)
      × (u.raw ≡ false → u.hold_left ≡ left - 1)

  settle-hold : (tr : HowlTrigger) (s : DecisionState S) → Holds s.hold_left (settle p tr s)
  unfolding settle
  settle-hold tr s = ground arith

  decide-hold :
      (env : List S) (power : S) (s : DecisionState S) → Holds s.hold_left (decide p env power s)
  unfolding decide judge
  decide-hold env power s =
      let (t, growing) = analyse p env s in
      let pw = f.add power (f.dec 1 30) in
      let u = track p pw growing t in
      let e : u.hold_left ≡ s.hold_left = track-hold pw growing t ∙ analyse-hold env s in
      subst (λ n. Holds n (decide p env power s)) e (settle-hold (verdict p pw u) u)

  -- Consecutive ticks, none of which fires a verdict.
  unfoldable pub ticks : List (Block S) → DecisionState S → DecisionState S
  ticks [] s = s
  ticks (b ∷ bs) s = ticks bs (decide p b.env b.power s)

  abbrev pub IsSilent : List (Block S) → DecisionState S → Type 0
  IsSilent [] s = Unit
  IsSilent (b ∷ bs) s = let t = decide p b.env b.power s in (t.trigger ≡ quiet) × IsSilent bs t

  ticks-left :
      (bs : List (Block S)) (s : DecisionState S)
      → IsSilent bs s
      → (ticks bs s).hold_left ≡ s.hold_left - length bs
  unfolding ticks
  ticks-left [] s h = omega arith
  ticks-left (b ∷ bs) s h =
      let one = decide-hold b.env b.power s in
      let t = decide p b.env b.power s in
      let left : t.hold_left ≡ s.hold_left - 1 = one.3 (one.0 ∙ ap is_fired h.0) in
      omega (arith, ticks-left bs t h.1, left)

  -- A verdict holds the trip for exactly hold_ticks further ticks: after the tick that fires it the
  -- detector is tripped, and k ticks without a verdict later (k at least 1) it is tripped exactly
  -- when k is at most hold_ticks.
  pub trip-lasts :
      (b : Block S) (bs : List (Block S)) (last : Block S) (s : DecisionState S)
      → (decide p b.env b.power s).trigger ≢ quiet
      → IsSilent bs (decide p b.env b.power s)
      → (decide p last.env last.power (ticks bs (decide p b.env b.power s))).trigger ≡ quiet
      → let t = decide p b.env b.power s in
        let u = ticks bs t in
        (t.tripped ≡ true)
        × ((decide p last.env last.power u).tripped ≡ leb (length bs + 1) p.hold_ticks)
  trip-lasts b bs last s fired silent after =
      let t = decide p b.env b.power s in
      let u = ticks bs t in
      let first = decide-hold b.env b.power s in
      let raw : t.raw ≡ true = first.0 ∙ fires t.trigger fired in
      let end = decide-hold last.env last.power u in
      let calm : (decide p last.env last.power u).raw ≡ false = end.0 ∙ ap is_fired after in
      (
        first.1 ∙ ap (λ r. r || ltb 0 s.hold_left) raw,
        end.1
            ∙ ap (λ r. r || ltb 0 u.hold_left) calm
            ∙ ground (arith, ticks-left bs t silent, first.2 raw),
      )

  analyse-filling :
      (env : List S) (s : DecisionState S)
      → s.ring_count + 1 < p.slots
      → (analyse p env s).0.max_rise ≡ f.of_ℕ 0
  unfolding analyse measure push_line integrate grow full
  analyse-filling env s h = ground arith

  track-rise : (pw : S) (g : Bool) (s : DecisionState S) → (track p pw g s).max_rise ≡ s.max_rise
  unfolding track
  track-rise pw g s = refl

  abbrev pub GrowsFrom : S → DecisionState S → Type 0
  GrowsFrom x u = (u.max_rise ≡ x) × (u.trigger ≡ growth → f.le p.rise x ≡ true)

  settle-growth :
      (pw : S) (s : DecisionState S) → let u = settle p (verdict p pw s) s in GrowsFrom s.max_rise u
  unfolding settle verdict
  settle-growth pw s = ground arith

  -- Until the growth window has filled there is no integrated rise, and the growth path fires only
  -- if its threshold is not above zero.
  pub decide-filling :
      (env : List S) (power : S) (s : DecisionState S)
      → s.ring_count + 1 < p.slots
      → let u = decide p env power s in GrowsFrom (f.of_ℕ 0) u
  unfolding decide judge
  decide-filling env power s h =
      let (t, growing) = analyse p env s in
      let pw = f.add power (f.dec 1 30) in
      let u = track p pw growing t in
      let e : u.max_rise ≡ f.of_ℕ 0 = track-rise pw growing t ∙ analyse-filling env s h in
      subst (λ x. GrowsFrom x (decide p env power s)) e (settle-growth pw u)
