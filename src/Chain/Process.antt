-- ===== src/Chain/Process.antt =====
-- A block through the chain (include/mutap/afc_chain.h: process_block(), process_one() and what
-- they call, direct_path_tap() and reference_aligned()).
pub mod Reference
pub mod Output
pub mod Blocks
use mu_tap.Common.{
  ℕ, zero, suc, ◌+◌, ◌-◌, ◌*◌, ◌/◌, Bool, true, false, List, [], ◌∷◌, ◌++◌, map, length, replicate,
  take, drop, Option, none, some, leb, ltb, if◌then◌else◌,
}
use mathlib.Core.Option
use mu_tap.Common.Float.{Float, Cast}
use mu_tap.Guard.Types.{Settings}
use mu_tap.Guard.Ramp
use mu_tap.Guard.Operations.{Channel, HowlGuard, analyze, update}
use mu_tap.Chain.Types.{Canceller, Stage, ChainConfig, AfcChain}
use mu_tap.Chain.Ring.{advance, ring_read, ring_write}

module _ {S : Type 0} ⦃f : Float S⦄ where
  -- bus[i] += e[i].
  unfoldable pub mix : List S → List S → List S
  mix [] es = []
  mix (x ∷ bus) [] = x ∷ bus
  mix (x ∷ bus) (e ∷ es) = f.add x e ∷ mix bus es

  unfoldable pub mix_all : List (List S) → List S → List S
  unfolding mix
  mix_all [] bus = bus
  mix_all (e ∷ es) bus = mix_all es (mix bus e)

  unfoldable pub plain_sum : List (List S) → List S
  unfolding mix_all
  plain_sum [] = []
  plain_sum (e ∷ es) = mix_all es e

  -- accumulate() of every mic after the first.
  unfoldable pub accumulate_all : List (List S) → List (List S) → List S → List S
  accumulate_all [] es bus = bus
  accumulate_all (g ∷ gs) [] bus = bus
  accumulate_all (g ∷ gs) (e ∷ es) bus = accumulate_all gs es (Ramp.accumulate g e bus)

  unfoldable pub guarded_mix : List (List S) → List (List S) → List S
  unfolding accumulate_all
  guarded_mix [] es = []
  guarded_mix (g ∷ gs) [] = []
  guarded_mix (g ∷ gs) (e ∷ es) = accumulate_all gs es (Ramp.apply g e)

  -- Speaker = delayed chain + aux.
  unfoldable pub speaker : Option (List S) → List S → List S
  unfolding mix
  speaker none alt = alt
  speaker (some aux) alt = mix alt aux

  -- The last m samples of a call that end no block.
  unfoldable pub trailing : ℕ → ℕ → Option (List S) → List S
  trailing m from none = replicate m (f.of_ℕ 0)
  trailing m from (some aux) = take m (drop from aux)

  -- The loop of direct_path_tap(), from tap i: the largest magnitude so far, and where it is.
  unfoldable pub tap_from : List S → ℕ → S → ℕ → ℕ
  tap_from [] i peak best = best
  tap_from (x ∷ ir) i peak best =
      let a = f.abs x in
      let higher = f.lt peak a in
      tap_from ir (i + 1) (if higher then a else peak) (if higher then i else best)

-- |tap - expected| <= tolerance, on size_t.
unfoldable pub is_aligned : ℕ → ℕ → ℕ → Bool
is_aligned tap expected tolerance =
    leb (if ltb expected tap then tap - expected else expected - tap) tolerance

module _ {T S : Type 0} ⦃t : Stage T S⦄ where
  unfoldable pub run_stage : Option T → List S → Option T × List S
  run_stage none bus = (none, bus)
  run_stage (some stage) bus = let (after, alt) = t.run bus stage in (some after, alt)

module _ {C S : Type 0} ⦃f : Float S⦄ ⦃k : Canceller C S⦄ where
  -- Cancel every mic against the one reference.
  unfoldable pub cancel_all : List S → List (List S) → List C → List C × List (List S)
  cancel_all u mics [] = ([], [])
  cancel_all u [] (c ∷ cs) = (c ∷ cs, [])
  cancel_all u (y ∷ mics) (c ∷ cs) =
      let (after, e) = k.process u y c in
      let (rest, es) = cancel_all u mics cs in (after ∷ rest, e ∷ es)

module _ {C : Type 0} (S : Type 0) ⦃f : Float S⦄ ⦃k : Canceller C S⦄ where
  unfoldable pub direct_path_tap : C → ℕ
  unfolding tap_from
  direct_path_tap c = tap_from (take k.filter_length (k.impulse_response c)) 0 (f.of_ℕ 0) 0

  unfoldable pub reference_aligned : C → ℕ → ℕ → Bool
  unfolding direct_path_tap is_aligned
  reference_aligned c expected tolerance = is_aligned (direct_path_tap c) expected tolerance

module _ {C S D : Type 0} ⦃f : Float S⦄ ⦃d : Float D⦄ ⦃c : Cast S D⦄ ⦃k : Canceller C S⦄ where
  -- The guard's analyze() of every mic; `none` where one does not end.
  unfoldable pub analyze_all :
      Settings S → List C → List (List S) → List (Channel S D) → Option (List (Channel S D))
  analyze_all s (c ∷ cs) (e ∷ es) (ch ∷ chs) =
      let rest = analyze_all s cs es chs in
      Option.bind (analyze s e (k.uncertainty_ratio c) (k.shadow_residual_ratio c) ch)
        (λ after. Option.map (λ others. after ∷ others) rest)
  analyze_all s _ _ chs = some chs

  unfoldable pub guarded_sum :
      HowlGuard S D → List C → List (List S) → Option (HowlGuard S D × List S)
  unfolding analyze_all guarded_mix
  guarded_sum g cs es =
      Option.map
        (λ chs.
          let after = update (record g { channels = chs }) in (after, guarded_mix after.gain es))
        (analyze_all g.settings cs es g.channels)

  unfoldable pub sum_bus :
      Option (HowlGuard S D) → List C → List (List S) → Option (Option (HowlGuard S D) × List S)
  unfolding plain_sum guarded_sum
  sum_bus none cs es = some (none, plain_sum es)
  sum_bus (some g) cs es = Option.map (λ (after, bus). (some after, bus)) (guarded_sum g cs es)

module _ {C T S D : Type 0} ⦃f : Float S⦄ ⦃k : Canceller C S⦄ ⦃t : Stage T S⦄ where
  -- process_one() after the stages: the output delay line, the speaker, the reference history.
  unfoldable pub emit : Option (List S) → List S → AfcChain C T S D → AfcChain C T S D × List S
  unfolding speaker
  emit aux bus ch =
      let b = k.block_size in
      let out_ring = ring_write ch.out_ring ch.out_pos bus in
      let out_pos = advance ch.out_pos b (length ch.out_ring) in
      let out = speaker aux (ring_read out_ring out_pos b) in
      (
        record ch {
          out_ring = out_ring;
          out_pos = out_pos;
          ref_ring = ring_write ch.ref_ring ch.ref_pos out;
          ref_pos = advance ch.ref_pos b (length ch.ref_ring);
        },
        out,
      )

  -- The stages in order, then the rest.
  unfoldable pub stages : Option (List S) → List S → AfcChain C T S D → AfcChain C T S D × List S
  unfolding run_stage emit
  stages aux bus ch =
      let (decorrelator, x) = run_stage ch.decorrelator bus in
      let (reverb, y) = run_stage ch.reverb x in
      let (safety, z) = run_stage ch.safety y in
      emit aux z (record ch { decorrelator = decorrelator; reverb = reverb; safety = safety })

module _ {C T S D : Type 0} ⦃f : Float S⦄ ⦃d : Float D⦄ ⦃c : Cast S D⦄ ⦃k : Canceller C S⦄
    ⦃t : Stage T S⦄ where
  -- One block: each mic's samples, the aux's, and the chain give the chain and the speaker's block.
  unfoldable pub process_one :
      List (List S) → Option (List S) → AfcChain C T S D → Option (AfcChain C T S D × List S)
  unfolding cancel_all sum_bus stages
  process_one mics aux ch =
      let u = ring_read ch.ref_ring ch.ref_pos k.block_size in
      let (cs, es) = cancel_all u mics ch.cancellers in
      Option.map
        (λ (guard, bus).
          stages aux bus (record ch { u = u; cancellers = cs; e = es; guard = guard }))
        (sum_bus ch.guard cs es)

  -- The blocks from block i on.
  unfoldable pub process_blocks :
      ℕ
      → ℕ
      → List (List S)
      → Option (List S)
      → AfcChain C T S D
      → Option (AfcChain C T S D × List S)
  unfolding process_one
  process_blocks zero i mics aux ch = some (ch, [])
  process_blocks (suc n) i mics aux ch =
      let b = k.block_size in
      let slice = λ (xs : List S). take b (drop (i * b) xs) in
      Option.bind (process_one (map slice mics) (Option.map slice aux) ch) (λ (next, out).
        Option.map (λ (last, rest). (last, out ++ rest)) (process_blocks n (i + 1) mics aux next))

  -- process_block() of n samples: a trailing partial block is silence plus aux.
  unfoldable pub process_block :
      ℕ → List (List S) → Option (List S) → AfcChain C T S D → Option (AfcChain C T S D × List S)
  unfolding process_blocks trailing
  process_block n mics aux ch =
      let whole = n / k.block_size * k.block_size in
      Option.map (λ (after, out). (after, out ++ trailing (n - whole) whole aux))
        (process_blocks (n / k.block_size) 0 mics aux ch)
