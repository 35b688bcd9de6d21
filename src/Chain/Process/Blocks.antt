-- ===== src/Chain/Process/Blocks.antt =====
-- process_block() fills its output (include/mutap/afc_chain.h).
use mu_tap.Common.{
  ℕ, zero, suc, ◌+◌, ◌-◌, ◌*◌, ◌/◌, ◌≤◌, ◌≡◌, refl, ap₂, ◌∙◌, arith, List, [], ◌++◌, map, length,
  take, drop, Option, none, some, length-append, length-take, length-drop, length-replicate, subst,
}
use mathlib.Core.Option
use native.Mathlib.Nat.{div-add-mod'}
use mu_tap.Common.Float.{Float, Cast}
use mu_tap.Chain.Types.{Canceller, Stage, AfcChain}
use mu_tap.Chain.Ring.{ring_read}
use mu_tap.Chain.Process.{
  cancel_all, sum_bus, plain_sum, emit, stages, process_one, process_blocks, process_block,
  trailing,
}
use mu_tap.Chain.Process.Reference.{IsSized, process_one-Emits}

-- The aux, where there is one, covers the call.
abbrev pub Covers : {S : Type 0} → ℕ → Option (List S) → Type 0
Covers n none = Unit
Covers n (some aux) = n ≤ length aux

length-trailing :
    {S : Type 0} ⦃f : Float S⦄ (m from : ℕ) (aux : Option (List S))
    → Covers (from + m) aux
    → length (trailing m from aux) ≡ m
unfolding trailing
length-trailing m from none h = length-replicate m _
length-trailing m from (some aux) h =
    omega (arith, length-take m (drop from aux), length-drop from aux)

module _ {C T S D : Type 0} ⦃f : Float S⦄ ⦃d : Float D⦄ ⦃c : Cast S D⦄ ⦃k : Canceller C S⦄
    ⦃t : Stage T S⦄ where
  process_one-returns :
      (mics : List (List S)) (aux : Option (List S)) (ch : AfcChain C T S D)
      → ch.guard ≡ none
      → (r : AfcChain C T S D × List S) × (process_one mics aux ch ≡ some r) × (r.0.guard ≡ none)
  unfolding process_one sum_bus stages emit
  process_one-returns mics aux ch h =
      let u = ring_read ch.ref_ring ch.ref_pos k.block_size in
      let (cs, es) = cancel_all u mics ch.cancellers in
      (
        stages aux (plain_sum es) (record ch { u = u; cancellers = cs; e = es; guard = none }),
        rw h refl,
        refl,
      )

  process_blocks-returns :
      (n i : ℕ) (mics : List (List S)) (aux : Option (List S)) (ch : AfcChain C T S D)
      → ch.guard ≡ none
      → IsSized ch
      → (r : AfcChain C T S D × List S) × (process_blocks n i mics aux ch ≡ some r)
        × IsSized r.0
        × (length r.1 ≡ n * k.block_size)
  unfolding process_blocks Option.bind
  process_blocks-returns zero i mics aux ch h v = ((ch, []), refl, v, omega arith)
  process_blocks-returns (suc n) i mics aux ch h v =
      let b = k.block_size in
      let slice = λ (xs : List S). take b (drop (i * b) xs) in
      let ys = map slice mics in
      let a = Option.map slice aux in
      let (r, e, open_bus) = process_one-returns ys a ch h in
      let (emits, ref) = process_one-Emits ys a ch r e v in
      let (q, rest, sized, len) = process_blocks-returns n (i + 1) mics aux r.0 open_bus emits.0 in
      (
        (q.0, r.1 ++ q.1),
        rw (e, rest) refl,
        sized,
        length-append r.1 q.1 ∙ ap₂ ◌+◌ emits.1 len ∙ omega arith,
      )

  -- Without a guard, from delay lines at their sizes and with an aux, if any, that covers the call,
  -- process_block() of n samples always returns, with n samples for the speaker and the delay lines
  -- at their sizes, whatever the cancellers and the stages do and whether or not n is a multiple of
  -- the block size.
  pub process_block-returns :
      (n : ℕ) (mics : List (List S)) (aux : Option (List S)) (ch : AfcChain C T S D)
      → ch.guard ≡ none
      → IsSized ch
      → Covers n aux
      → (r : AfcChain C T S D × List S) × (process_block n mics aux ch ≡ some r)
        × IsSized r.0
        × (length r.1 ≡ n)
  unfolding process_block
  process_block-returns n mics aux ch h v long =
      let b = k.block_size in
      let whole = n / b * b in
      let fits : whole ≤ n = omega (arith, div-add-mod' n b) in
      let (q, e, sized, len) = process_blocks-returns (n / b) 0 mics aux ch h v in
      let tail = trailing (n - whole) whole aux in
      let tail_len : length tail ≡ n - whole =
        length-trailing (n - whole) whole aux (subst (λ m. Covers m aux) (omega arith) long) in
      ((q.0, q.1 ++ tail), rw e refl, sized, length-append q.1 tail ∙ omega (arith, len, tail_len))
