-- ===== src/Chain/Process/Reference.antt =====
-- The cancellers' reference is the speaker feed, late by a block and the configured delay
-- (include/mutap/afc_chain.h: process_one(), and the class comment's "THE REFERENCE").
use mu_tap.Common.{
  ℕ, zero, suc, ◌%◌, size_mod, Bool, Bool-cases, inl, inr, not, ◌||◌, ◌==◌, ◌+◌, ◌≤◌, ◌<◌, ◌≡◌,
  refl, sym, ap, ◌∙◌, arith, List, [], ◌∷◌, ◌++◌, length, replicate, take, drop, Option, none, some,
  length-take, length-replicate, append_nil, ok, subst,
}
use mathlib.Core.Option
use native.Mathlib.Nat.{mod-eq_of_lt}
use mu_tap.Guard.Operations.{HowlGuard}
use mu_tap.Common.Float.{Float, Cast}
use mu_tap.Chain.Types.{
  Canceller, Stage, ChainConfig, AfcChain, fill_zero, validated, reset_chain, built, new_chain,
  set_decorrelator, set_reverb, set_safety, set_guard, set_adaptation, all_shadowed,
}
use mu_tap.Chain.Ring.{advance, ring_read, ring_write}
use mu_tap.Chain.Ring.Delay.{
  queue, length-queue, ring_read-take, ring_write-queue, length-ring_write, advance-lt,
}
use mu_tap.Chain.Process.{mix, speaker, run_stage, cancel_all, sum_bus, emit, stages, process_one}

module _ {C T S D : Type 0} ⦃k : Canceller C S⦄ where
  -- The rings hold their delay and a block, and the positions stand inside them.
  pub record IsSized (ch : AfcChain C T S D) : Type 0 where
    pub block_positive : 0 < k.block_size
    pub ref_size : length ch.ref_ring ≡ ch.cfg.reference_delay_samples + k.block_size
    pub out_size : length ch.out_ring ≡ ch.cfg.output_delay_samples + k.block_size
    pub ref_inside : ch.ref_pos < length ch.ref_ring
    pub out_inside : ch.out_pos < length ch.out_ring

module _ {S : Type 0} ⦃f : Float S⦄ where
  length-mix : (bus es : List S) → length (mix bus es) ≡ length bus
  unfolding mix
  length-mix [] es = refl
  length-mix (x ∷ bus) [] = refl
  length-mix (x ∷ bus) (e ∷ es) = ap suc (length-mix bus es)

  length-speaker : (aux : Option (List S)) (alt : List S) → length (speaker aux alt) ≡ length alt
  unfolding speaker
  length-speaker none alt = refl
  length-speaker (some aux) alt = length-mix alt aux

  length-ring_read :
      (ring : List S) (pos b : ℕ)
      → pos ≤ length ring
      → b ≤ length ring
      → length (ring_read ring pos b) ≡ b
  length-ring_read ring pos b h fits =
      ap length (ring_read-take ring pos b h fits)
      ∙ omega (arith, length-take b (queue ring pos), length-queue ring pos h)

module _ {C T S D : Type 0} ⦃f : Float S⦄ ⦃k : Canceller C S⦄ ⦃t : Stage T S⦄ where
  -- What a block leaves: sized rings, a whole block for the speaker, and that block at the end of
  -- the reference's queue in place of the oldest one.
  abbrev Emits : AfcChain C T S D → AfcChain C T S D × List S → Type 0
  Emits ch (after, out) =
      IsSized after
      × (length out ≡ k.block_size)
      × (queue after.ref_ring after.ref_pos
          ≡ drop k.block_size (queue ch.ref_ring ch.ref_pos) ++ out)

  emit-Emits :
      (aux : Option (List S)) (bus : List S) (ch : AfcChain C T S D)
      → IsSized ch
      → Emits ch (emit aux bus ch)
  unfolding emit
  emit-Emits aux bus ch v =
      let b = k.block_size in
      let out_ring = ring_write ch.out_ring ch.out_pos bus in
      let out_pos = advance ch.out_pos b (length ch.out_ring) in
      let out = speaker aux (ring_read out_ring out_pos b) in
      let same = length-ring_write ch.out_ring ch.out_pos bus in
      let inside : out_pos < length ch.out_ring =
        advance-lt ch.out_pos b (length ch.out_ring) v.out_inside (omega (arith, v.out_size))
          (omega (arith, v.out_inside)) in
      let len : length out ≡ b =
        length-speaker aux (ring_read out_ring out_pos b)
        ∙ length-ring_read out_ring out_pos b (omega (arith, same, inside))
            (omega (arith, same, v.out_size)) in
      let ref_same = length-ring_write ch.ref_ring ch.ref_pos out in
      let ref_inside : advance ch.ref_pos b (length ch.ref_ring) < length ch.ref_ring =
        advance-lt ch.ref_pos b (length ch.ref_ring) v.ref_inside (omega (arith, v.ref_size))
          (omega (arith, v.ref_inside)) in
      (
        record {
          block_positive = v.block_positive;
          ref_size = ref_same ∙ v.ref_size;
          out_size = same ∙ v.out_size;
          ref_inside = omega (arith, ref_same, ref_inside);
          out_inside = omega (arith, same, inside);
        },
        len,
        ap
              (λ n.
                queue (ring_write ch.ref_ring ch.ref_pos out)
                  (advance ch.ref_pos n (length ch.ref_ring)))
              (sym len)
            ∙ ring_write-queue ch.ref_ring ch.ref_pos out v.ref_inside
                (omega (arith, len, v.ref_size))
            ∙ ap (λ n. drop n (queue ch.ref_ring ch.ref_pos) ++ out) len,
      )

  stages-Emits :
      (aux : Option (List S)) (bus : List S) (ch : AfcChain C T S D)
      → IsSized ch
      → Emits ch (stages aux bus ch)
  unfolding stages
  stages-Emits aux bus ch v =
      let (decorrelator, x) = run_stage ch.decorrelator bus in
      let (reverb, y) = run_stage ch.reverb x in
      let (safety, z) = run_stage ch.safety y in
      emit-Emits aux z (record ch { decorrelator = decorrelator; reverb = reverb; safety = safety })
        (record {
          block_positive = v.block_positive;
          ref_size = v.ref_size;
          out_size = v.out_size;
          ref_inside = v.ref_inside;
          out_inside = v.out_inside;
        })

  stages-u :
      (aux : Option (List S)) (bus : List S) (ch : AfcChain C T S D)
      → (stages aux bus ch).0.u ≡ ch.u
  unfolding stages emit
  stages-u aux bus ch = refl

map-some :
    {A B : Type 0} (g : A → B) (o : Option A) (r : B)
    → Option.map g o ≡ some r
    → (x : A) × (g x ≡ r)
map-some g none r h = ground arith
map-some g (some x) r h = (x, cc)

fill_zero-replicate :
    {S : Type 0} ⦃f : Float S⦄ (n : ℕ) (x : S) → fill_zero (replicate n x) ≡ replicate n (f.of_ℕ 0)
unfolding fill_zero
fill_zero-replicate zero x = refl
fill_zero-replicate ⦃f⦄ (suc n) x = ap (◌∷◌ (f.of_ℕ 0)) (fill_zero-replicate n x)

module _ {S : Type 0} ⦃f : Float S⦄ where
  length-zeros : (n : ℕ) (x : S) → length (fill_zero (replicate n x)) ≡ n
  length-zeros n x = ap length (fill_zero-replicate n x) ∙ length-replicate n (f.of_ℕ 0)

-- Neither ring's length, with blocks of b samples, wraps in size_t.
abbrev pub Fits : {D : Type 0} → ℕ → ChainConfig D → Type 0
Fits b cfg =
    (cfg.reference_delay_samples + b < size_mod) × (cfg.output_delay_samples + b < size_mod)

module _ (C T : Type 0) {S D : Type 0} ⦃f : Float S⦄ ⦃d : Float D⦄ ⦃c : Cast S D⦄
    ⦃k : Canceller C S⦄ where
  pub built-IsSized :
      (cfg : ChainConfig D)
      → 0 < k.block_size
      → Fits k.block_size cfg
      → IsSized (built {C = C} {T = T} {S = S} cfg)
  unfolding built reset_chain
  built-IsSized cfg h (ref, out) =
      let ref_len =
        length-zeros ((cfg.reference_delay_samples + k.block_size) % size_mod) (f.of_ℕ 0)
        ∙ mod-eq_of_lt ref in
      let out_len =
        length-zeros ((cfg.output_delay_samples + k.block_size) % size_mod) (f.of_ℕ 0)
        ∙ mod-eq_of_lt out in
      record {
        block_positive = h;
        ref_size = ref_len;
        out_size = out_len;
        ref_inside = omega (arith, ref_len);
        out_inside = omega (arith, out_len);
      }

  pub built-queue :
      (cfg : ChainConfig D)
      → Fits k.block_size cfg
      → let ch = built {C = C} {T = T} {S = S} cfg in
        (queue ch.ref_ring ch.ref_pos
          ≡ replicate (cfg.reference_delay_samples + k.block_size) (f.of_ℕ 0))
        × (queue ch.out_ring ch.out_pos
            ≡ replicate (cfg.output_delay_samples + k.block_size) (f.of_ℕ 0))
  unfolding built reset_chain
  built-queue cfg (ref, out) = (
    append_nil _
        ∙ fill_zero-replicate _ (f.of_ℕ 0)
        ∙ ap (λ n. replicate n (f.of_ℕ 0)) (mod-eq_of_lt ref),
    append_nil _
        ∙ fill_zero-replicate _ (f.of_ℕ 0)
        ∙ ap (λ n. replicate n (f.of_ℕ 0)) (mod-eq_of_lt out),
  )

  pub new_chain-built :
      (cfg : ChainConfig D) (start : AfcChain C T S D)
      → new_chain cfg ≡ ok start
      → start ≡ built cfg
  unfolding new_chain validated
  new_chain-built cfg start h = ground arith

module _ {C T S D : Type 0} ⦃f : Float S⦄ ⦃d : Float D⦄ ⦃c : Cast S D⦄ ⦃k : Canceller C S⦄
    ⦃t : Stage T S⦄ where
  pub process_one-Emits :
      (mics : List (List S)) (aux : Option (List S)) (ch : AfcChain C T S D)
      (r : AfcChain C T S D × List S)
      → process_one mics aux ch ≡ some r
      → IsSized ch
      → Emits ch r × (r.0.u ≡ take k.block_size (queue ch.ref_ring ch.ref_pos))
  unfolding process_one
  process_one-Emits mics aux ch r h v =
      let b = k.block_size in
      let u = ring_read ch.ref_ring ch.ref_pos b in
      let (cs, es) = cancel_all u mics ch.cancellers in
      let (x, e) = map-some _ (sum_bus ch.guard cs es) r h in
      let before = record ch { u = u; cancellers = cs; e = es; guard = x.0 } in
      let sized : IsSized before = record {
        block_positive = v.block_positive;
        ref_size = v.ref_size;
        out_size = v.out_size;
        ref_inside = v.ref_inside;
        out_inside = v.out_inside;
      } in
      (
        subst (Emits ch) e (stages-Emits aux x.1 before sized),
        sym (ap (λ (q : AfcChain C T S D × List S). q.0.u) e)
            ∙ stages-u aux x.1 before
            ∙ ring_read-take ch.ref_ring ch.ref_pos b (omega (arith, v.ref_inside))
                (omega (arith, v.ref_size)),
      )

  -- What a host may call between two blocks, but for reset(): a stage attached or bypassed, a guard
  -- attached or detached, the cancellers frozen or released.
  pub data HostCall (ch : AfcChain C T S D) : AfcChain C T S D → Type 0 where
    decorrelator : (stage : Option T) → HostCall ch (set_decorrelator stage ch)
    reverb : (stage : Option T) → HostCall ch (set_reverb stage ch)
    safety : (stage : Option T) → HostCall ch (set_safety stage ch)
    guard : (g : Option (HowlGuard S D)) → HostCall ch (set_guard g ch).0
    adaptation : (enabled : Bool) → HostCall ch (set_adaptation enabled ch)

  -- The delay lines and the configuration are as they were.
  abbrev pub Keeps : AfcChain C T S D → AfcChain C T S D → Type 0
  Keeps ch next =
      (next.cfg ≡ ch.cfg)
      × (next.ref_ring ≡ ch.ref_ring)
      × (next.ref_pos ≡ ch.ref_pos)
      × (next.out_ring ≡ ch.out_ring)
      × (next.out_pos ≡ ch.out_pos)

  set_guard-Keeps :
      (g : Option (HowlGuard S D)) (ch : AfcChain C T S D) → Keeps ch (set_guard g ch).0
  unfolding set_guard
  set_guard-Keeps none ch = (refl, refl, refl, refl, refl)
  set_guard-Keeps (some g) ch =
      elim (Bool-cases
        (not (length g.channels == length ch.cancellers) || not (g.block == k.block_size))) [
          | inl e ↦ rw e (refl, refl, refl, refl, refl)
          | inr e ↦ elim (Bool-cases (all_shadowed S ch.cancellers)) [
            | inl a ↦ rw (e, a) (refl, refl, refl, refl, refl)
            | inr a ↦ rw (e, a) (refl, refl, refl, refl, refl)
          ]
        ]

  pub HostCall-Keeps : {ch next : AfcChain C T S D} → HostCall ch next → Keeps ch next
  unfolding set_decorrelator set_reverb set_safety set_adaptation
  HostCall-Keeps (decorrelator stage) = (refl, refl, refl, refl, refl)
  HostCall-Keeps (reverb stage) = (refl, refl, refl, refl, refl)
  HostCall-Keeps (safety stage) = (refl, refl, refl, refl, refl)
  HostCall-Keeps {ch = ch} (guard g) = set_guard-Keeps g ch
  HostCall-Keeps (adaptation enabled) = (refl, refl, refl, refl, refl)

  pub kept-IsSized : (ch next : AfcChain C T S D) → Keeps ch next → IsSized ch → IsSized next
  kept-IsSized ch next (cfg, ref, pos, out, at_out) v = record {
    block_positive = v.block_positive;
    ref_size =
        ap length ref
        ∙ v.ref_size
        ∙ ap (λ (c : ChainConfig D). c.reference_delay_samples + k.block_size) (sym cfg);
    out_size =
        ap length out
        ∙ v.out_size
        ∙ ap (λ (c : ChainConfig D). c.output_delay_samples + k.block_size) (sym cfg);
    ref_inside = omega (arith, v.ref_inside, ap length ref, pos);
    out_inside = omega (arith, v.out_inside, ap length out, at_out);
  }

  -- Blocks through the chain from `start`, and host calls between them: what the cancellers got as their reference and what the
  -- speaker played, so far.
  pub data Run (start : AfcChain C T S D) : List S → List S → AfcChain C T S D → Type 0 where
    begin : Run start [] [] start
    block :
        {us outs : List S} {ch next : AfcChain C T S D} {out : List S} (mics : List (List S))
        (aux : Option (List S))
        → Run start us outs ch
        → process_one mics aux ch ≡ some (next, out)
        → Run start (us ++ next.u) (outs ++ out) next
    host :
        {us outs : List S} {ch next : AfcChain C T S D}
        → Run start us outs ch
        → HostCall ch next
        → Run start us outs next
