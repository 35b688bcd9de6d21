-- ===== src/Chain/Process/Output.antt =====
-- The speaker plays the bus late by the configured output delay (include/mutap/afc_chain.h:
-- process_one(), its output delay line).
use mu_tap.Common.{
  ◌<◌, ◌≡◌, refl, sym, ap, ap₂, ◌∙◌, arith, List, [], ◌++◌, length, replicate, take, drop, Option,
  none, some, append_assoc, take-append-drop, append_nil, take-append_le, take-all, ok, subst,
}
use mathlib.Core.Option
use mu_tap.Common.Float.{Float, Cast}
use mu_tap.Guard.Operations.{HowlGuard}
use mu_tap.Chain.Types.{Canceller, Stage, ChainConfig, AfcChain, new_chain}
use mu_tap.Chain.Ring.{advance, ring_read, ring_write}
use mu_tap.Chain.Ring.Delay.{
  queue, ring_read-take, ring_write-queue, length-ring_write, advance-lt, drop-replicate,
}
use mu_tap.Chain.Process.{speaker, run_stage, cancel_all, sum_bus, emit, stages, process_one}
use mu_tap.Chain.Process.Reference.{
  IsSized, Fits, HostCall, HostCall-Keeps, kept-IsSized, built-IsSized, built-queue,
  new_chain-built, process_one-Emits,
}

map-parts :
    {A B : Type 0} (g : A → B) (o : Option A) (r : B)
    → Option.map g o ≡ some r
    → (x : A) × (o ≡ some x) × (g x ≡ r)
map-parts g none r h = ground arith
map-parts g (some x) r h = (x, refl, cc)

module _ {C T S D : Type 0} ⦃f : Float S⦄ ⦃k : Canceller C S⦄ ⦃t : Stage T S⦄ where
  -- The output line over a block: the bus goes in behind, the front comes out.
  emit-Delays :
      (bus : List S) (ch : AfcChain C T S D)
      → IsSized ch
      → length bus ≡ k.block_size
      → let (after, out) = emit none bus ch in
        let q = queue after.out_ring after.out_pos in
        (q ≡ drop k.block_size (queue ch.out_ring ch.out_pos) ++ bus) × (out ≡ take k.block_size q)
  unfolding emit speaker
  emit-Delays bus ch v size =
      let b = k.block_size in
      let ring = ring_write ch.out_ring ch.out_pos bus in
      let pos = advance ch.out_pos b (length ch.out_ring) in
      let same = length-ring_write ch.out_ring ch.out_pos bus in
      let inside : pos < length ch.out_ring =
        advance-lt ch.out_pos b (length ch.out_ring) v.out_inside (omega (arith, v.out_size))
          (omega (arith, v.out_inside)) in
      (
        ap (λ n. queue ring (advance ch.out_pos n (length ch.out_ring))) (sym size)
            ∙ ring_write-queue ch.out_ring ch.out_pos bus v.out_inside
                (omega (arith, size, v.out_size))
            ∙ ap (λ n. drop n (queue ch.out_ring ch.out_pos) ++ bus) size,
        ring_read-take ring pos b (omega (arith, same, inside)) (omega (arith, same, v.out_size)),
      )

module _ {C T S D : Type 0} ⦃f : Float S⦄ ⦃d : Float D⦄ ⦃c : Cast S D⦄ ⦃k : Canceller C S⦄
    ⦃t : Stage T S⦄ where
  -- The voice bus through the three stages.
  abbrev pub staged : AfcChain C T S D → List S → List S
  staged ch bus = (run_stage ch.safety (run_stage ch.reverb (run_stage ch.decorrelator bus).1).1).1

  -- The bus that a block hands to the output delay line.
  abbrev pub bus_of : List (List S) → AfcChain C T S D → Option (List S)
  bus_of mics ch =
      let (cs, es) =
        cancel_all (ring_read ch.ref_ring ch.ref_pos k.block_size) mics ch.cancellers in
      Option.map (λ (guard, bus). staged ch bus) (sum_bus ch.guard cs es)

  process_one-Delays :
      (mics : List (List S)) (bus : List S) (ch : AfcChain C T S D) (r : AfcChain C T S D × List S)
      → process_one mics none ch ≡ some r
      → bus_of mics ch ≡ some bus
      → length bus ≡ k.block_size
      → IsSized ch
      → let q = queue r.0.out_ring r.0.out_pos in
        (q ≡ drop k.block_size (queue ch.out_ring ch.out_pos) ++ bus) × (r.1 ≡ take k.block_size q)
  unfolding process_one stages
  process_one-Delays mics bus ch r h hbus size v =
      let b = k.block_size in
      let u = ring_read ch.ref_ring ch.ref_pos b in
      let (cs, es) = cancel_all u mics ch.cancellers in
      let (x, e, made) = map-parts _ (sum_bus ch.guard cs es) r h in
      let (y, e2, same) = map-parts _ (sum_bus ch.guard cs es) bus hbus in
      let agree : y ≡ x = Option.some-injective y x (sym e2 ∙ e) in
      let went : staged ch x.1 ≡ bus =
        ap (λ (z : Option (HowlGuard S D) × List S). staged ch z.1) (sym agree) ∙ same in
      let (after_d, d_bus) = run_stage ch.decorrelator x.1 in
      let (after_r, r_bus) = run_stage ch.reverb d_bus in
      let after_s = (run_stage ch.safety r_bus).0 in
      let mid = record ch {
        u = u;
        cancellers = cs;
        e = es;
        guard = x.0;
        decorrelator = after_d;
        reverb = after_r;
        safety = after_s;
      } in
      let sized : IsSized mid = record {
        block_positive = v.block_positive;
        ref_size = v.ref_size;
        out_size = v.out_size;
        ref_inside = v.ref_inside;
        out_inside = v.out_inside;
      } in
      let emitted : emit none bus mid ≡ r = ap (λ z. emit none z mid) (sym went) ∙ made in
      subst
        (λ (q : AfcChain C T S D × List S).
          (queue q.0.out_ring q.0.out_pos ≡ drop b (queue ch.out_ring ch.out_pos) ++ bus)
          × (q.1 ≡ take b (queue q.0.out_ring q.0.out_pos)))
        emitted (emit-Delays bus mid sized size)

  -- Blocks without a backing track from `start`, and host calls between them: the buses that they
  -- handed to the output line and what the speaker played, so far.
  pub data Played (start : AfcChain C T S D) : List S → List S → AfcChain C T S D → Type 0 where
    begin : Played start [] [] start
    block :
        {buses outs : List S} {ch next : AfcChain C T S D} {out : List S} (mics : List (List S))
        (bus : List S)
        → Played start buses outs ch
        → process_one mics none ch ≡ some (next, out)
        → bus_of mics ch ≡ some bus
        → length bus ≡ k.block_size
        → Played start (buses ++ bus) (outs ++ out) next
    host :
        {buses outs : List S} {ch next : AfcChain C T S D}
        → Played start buses outs ch
        → HostCall ch next
        → Played start buses outs next

  Played-queue :
      {start ch : AfcChain C T S D} {buses outs : List S}
      → Played start buses outs ch
      → IsSized start
      → IsSized ch
        × (outs ++ drop k.block_size (queue ch.out_ring ch.out_pos)
            ≡ drop k.block_size (queue start.out_ring start.out_pos) ++ buses)
  Played-queue {start = start} begin v =
      (v, sym (append_nil (drop k.block_size (queue start.out_ring start.out_pos))))
  Played-queue {start = start} (host {outs = outs} {ch = ch} {next = next} run call) v =
      let (sized, kept) = Played-queue run v in
      let keeps = HostCall-Keeps call in
      (
        kept-IsSized ch next keeps sized,
        ap₂ (λ ring pos. outs ++ drop k.block_size (queue ring pos)) keeps.3 keeps.4 ∙ kept,
      )
  Played-queue {start = start}
        (block {buses = buses} {outs = outs} {ch = ch} {next = next} {out = out} mics bus run h hbus
          size)
        v =
      let (sized, kept) = Played-queue run v in
      let b = k.block_size in
      let (emits, ref) = process_one-Emits mics none ch (next, out) h sized in
      let (went, came) = process_one-Delays mics bus ch (next, out) h hbus size sized in
      let q = queue next.out_ring next.out_pos in
      let old = drop b (queue ch.out_ring ch.out_pos) in
      let first = drop b (queue start.out_ring start.out_pos) in
      (
        emits.0,
        append_assoc outs out (drop b q)
            ∙ ap (λ ys. outs ++ (ys ++ drop b q)) came
            ∙ ap (λ ys. outs ++ ys) (take-append-drop b q ∙ went)
            ∙ sym (append_assoc outs old bus)
            ∙ ap (λ ys. ys ++ bus) kept
            ∙ append_assoc first buses bus,
      )

  -- Without a backing track the speaker plays the bus late by exactly the configured output delay: for
  -- a positive block size and ring lengths that do not wrap in size_t, after any blocks through a
  -- constructed chain whose buses are whole blocks, and any host calls between them (no reset()), what
  -- the speaker played so far is the front of output_delay_samples zeros followed by the buses, each
  -- the sum of its block's residuals through the guard and the stages.
  pub output-lag :
      (cfg : ChainConfig D) (start ch : AfcChain C T S D) (buses outs : List S)
      → 0 < k.block_size
      → Fits k.block_size cfg
      → new_chain cfg ≡ ok start
      → Played start buses outs ch
      → outs ≡ take (length outs) (replicate cfg.output_delay_samples (f.of_ℕ 0) ++ buses)
  output-lag cfg start ch buses outs h fits new run =
      let b = k.block_size in
      let e = new_chain-built C T cfg start new in
      let sized : IsSized start = subst IsSized (sym e) (built-IsSized C T cfg h fits) in
      let first : drop b (queue start.out_ring start.out_pos)
          ≡ replicate cfg.output_delay_samples (f.of_ℕ 0) =
        ap (λ (r : AfcChain C T S D). drop b (queue r.out_ring r.out_pos)) e
        ∙ ap (drop b) (built-queue C T cfg fits).1
        ∙ drop-replicate b cfg.output_delay_samples (f.of_ℕ 0) in
      let q = drop b (queue ch.out_ring ch.out_pos) in
      sym (
        take-append_le (length outs) outs q (omega arith)
        ∙ take-all (length outs) outs (omega arith))
      ∙ ap (take (length outs)) ((Played-queue run sized).1 ∙ ap (λ ys. ys ++ buses) first)
