-- ===== src/Detector/Block/Chunks.antt =====
-- process_block() ticks by its input alone, whatever the caller's partition
-- (include/mutap/howl_detector.h).
use mu_tap.Common.{
  ℕ, zero, suc, ◌+◌, ◌≤◌, ◌<◌, ◌==◌, ◌≡◌, refl, sym, ap, ◌∙◌, arith, List, [], ◌∷◌, ◌++◌, length,
  take, drop, some, if◌then◌else◌, Bool-cases, inl, inr, length-drop, take-append-drop, lt→neq,
}
use mathlib.Core.Option
use mu_tap.Common.Float.{Float}
use mu_tap.Detector.Types.{DetectorConfig, HowlDetector}
use native.Mathlib.Nat.{add_assoc}
use mu_tap.Detector.Block.{
  bank_sample, run_bank, advance, tick_if_full, chunk, turn_length, process_loop, process_block,
}

module _ {S D : Type 0} ⦃f : Float S⦄ where
  -- The reference: one sample at a time, a tick whenever a block is full.
  unfoldable pub by_sample : List S → HowlDetector S D → HowlDetector S D
  by_sample [] d = d
  by_sample (x ∷ xs) d = by_sample xs (chunk 1 (x ∷ []) d)

  by_sample-append :
      (xs ys : List S) (d : HowlDetector S D)
      → by_sample (xs ++ ys) d ≡ by_sample ys (by_sample xs d)
  unfolding by_sample
  by_sample-append [] ys d = refl
  by_sample-append (x ∷ xs) ys d = by_sample-append xs ys (chunk 1 (x ∷ []) d)

  -- The bank does not see the position in the block, and leaves it.
  bank_sample-advance :
      (x : S) (n : ℕ) (d : HowlDetector S D)
      → bank_sample x (advance n d) ≡ advance n (bank_sample x d)
  unfolding bank_sample advance
  bank_sample-advance x n d = refl

  run_bank-advance :
      (xs : List S) (n : ℕ) (d : HowlDetector S D)
      → run_bank xs (advance n d) ≡ advance n (run_bank xs d)
  unfolding run_bank
  run_bank-advance [] n d = refl
  run_bank-advance (x ∷ xs) n d =
      rw (bank_sample-advance x n d) (run_bank-advance xs n (bank_sample x d))

  advance-advance : (m n : ℕ) (d : HowlDetector S D) → advance m (advance n d) ≡ advance (n + m) d
  unfolding advance
  advance-advance m n d = rw (← add_assoc d.pos n m)

  tick_if_full-room :
      (n : ℕ) (d : HowlDetector S D)
      → d.pos + n < d.cfg.block_size
      → tick_if_full (advance n d) ≡ advance n d
  unfolding tick_if_full advance
  tick_if_full-room n d h = rw (lt→neq _ _ h)

  bank_sample-kept :
      (x : S) (d : HowlDetector S D)
      → ((bank_sample x d).pos ≡ d.pos) × ((bank_sample x d).cfg ≡ d.cfg)
  unfolding bank_sample
  bank_sample-kept x d = (refl, refl)

  chunk_lem :
      (len : ℕ) (xs : List S) (d : HowlDetector S D)
      → chunk len xs d ≡ tick_if_full (advance len (run_bank (take len xs) d))
  unfolding chunk
  chunk_lem len xs d = refl

  run_bank-cons :
      (x : S) (xs : List S) (d : HowlDetector S D)
      → run_bank (x ∷ xs) d ≡ run_bank xs (bank_sample x d)
  unfolding run_bank
  run_bank-cons x xs d = refl

  run_bank-nil : (d : HowlDetector S D) → run_bank [] d ≡ d
  unfolding run_bank
  run_bank-nil d = refl

  chunk-one :
      (x : S) (xs : List S) (d : HowlDetector S D)
      → chunk 1 (x ∷ xs) d ≡ tick_if_full (advance 1 (bank_sample x d))
  chunk-one x xs d =
      rw (chunk_lem 1 (x ∷ xs) d, run_bank-cons x [] d, run_bank-nil (bank_sample x d))

  -- The first sample of a longer chunk ends no block.
  chunk-suc :
      (n : ℕ) (x : S) (xs : List S) (d : HowlDetector S D)
      → d.pos + suc (suc n) ≤ d.cfg.block_size
      → chunk (suc (suc n)) (x ∷ xs) d ≡ chunk (suc n) xs (chunk 1 (x ∷ []) d)
  chunk-suc n x xs d h =
      let e = bank_sample x d in
      let ys = take (suc n) xs in
      let (pos, cfg) = bank_sample-kept x d in
      let room : e.pos + 1 < e.cfg.block_size =
        rw (pos, ap (λ (k : DetectorConfig S D). k.block_size) cfg) (omega arith) in
      let first : chunk 1 (x ∷ []) d ≡ advance 1 e =
        chunk-one x [] d ∙ tick_if_full-room 1 e room in
      let moved : advance (suc n) (run_bank ys (advance 1 e))
          ≡ advance (suc (suc n)) (run_bank ys e) =
        ap (advance (suc n)) (run_bank-advance ys 1 e)
        ∙ advance-advance (suc n) 1 (run_bank ys e)
        ∙ ap (λ k. advance k (run_bank ys e)) (omega arith) in
      rw (first, chunk_lem (suc n) xs (advance 1 e), moved, chunk_lem (suc (suc n)) (x ∷ xs) d)
        (ap (λ t. tick_if_full (advance (suc (suc n)) t)) (run_bank-cons x ys d))

  advance-kept :
      (n : ℕ) (d : HowlDetector S D) → ((advance n d).pos ≡ d.pos + n) × ((advance n d).cfg ≡ d.cfg)
  unfolding advance
  advance-kept n d = (refl, refl)

  -- A sample counts, and starts the next block when it fills one; the configuration stays.
  chunk-one-pos :
      (x : S) (d : HowlDetector S D)
      → let e = chunk 1 (x ∷ []) d in
        (e.pos ≡ (if d.pos + 1 == d.cfg.block_size then 0 else d.pos + 1)) × (e.cfg ≡ d.cfg)
  unfolding chunk
  chunk-one-pos x d = elim (Bool-cases (d.pos + 1 == d.cfg.block_size)) [
    | inl full ↦ rw full (refl, refl)
    | inr room ↦ rw room (refl, refl)
  ]

  -- A turn of the loop is its samples, one at a time.
  chunk-by_sample :
      (n : ℕ) (xs : List S) (d : HowlDetector S D)
      → suc n ≤ length xs
      → d.pos + suc n ≤ d.cfg.block_size
      → chunk (suc n) xs d ≡ by_sample (take (suc n) xs) d
  unfolding by_sample
  chunk-by_sample n [] d h room = absurd (omega arith)
  chunk-by_sample zero (x ∷ xs) d h room = chunk-one x xs d ∙ sym (chunk-one x [] d)
  chunk-by_sample (suc n) (x ∷ xs) d h room =
      let e = chunk 1 (x ∷ []) d in
      let (pos, cfg) = chunk-one-pos x d in
      let block : e.cfg.block_size ≡ d.cfg.block_size =
        ap (λ (k : DetectorConfig S D). k.block_size) cfg in
      let next : e.pos ≡ d.pos + 1 = pos ∙ rw (lt→neq (d.pos + 1) d.cfg.block_size (omega arith)) in
      chunk-suc n x xs d room ∙ chunk-by_sample n xs e (omega arith) (omega (arith, block, next))

  chunk-take :
      (len : ℕ) (xs : List S) (d : HowlDetector S D)
      → 0 < len
      → len ≤ length xs
      → d.pos + len ≤ d.cfg.block_size
      → chunk len xs d ≡ by_sample (take len xs) d
  chunk-take zero xs d h fits room = absurd (omega arith)
  chunk-take (suc n) xs d h fits room = chunk-by_sample n xs d fits room

  by_sample_nil : (d : HowlDetector S D) → by_sample [] d ≡ d
  unfolding by_sample
  by_sample_nil d = refl

  -- The position stays inside the block.
  by_sample-pos :
      (xs : List S) (d : HowlDetector S D)
      → d.pos < d.cfg.block_size
      → let e = by_sample xs d in (e.pos < e.cfg.block_size) × (e.cfg ≡ d.cfg)
  unfolding by_sample
  by_sample-pos [] d h = (h, refl)
  by_sample-pos (x ∷ xs) d h =
      let e = chunk 1 (x ∷ []) d in
      let (pos, cfg) = chunk-one-pos x d in
      let block : e.cfg.block_size ≡ d.cfg.block_size =
        ap (λ (k : DetectorConfig S D). k.block_size) cfg in
      let inside : e.pos < e.cfg.block_size = ground (arith, block, pos) in
      let rest = by_sample-pos xs e inside in (rest.0, rest.1 ∙ cfg)

  -- A turn takes at least one sample, no more than are left, and no more than the room.
  turn_length-bounds :
      (n : ℕ) (d : HowlDetector S D)
      → 0 < n
      → d.pos < d.cfg.block_size
      → let len = turn_length n d in (0 < len) × (len ≤ n) × (d.pos + len ≤ d.cfg.block_size)
  unfolding turn_length
  turn_length-bounds n d h inside = ground arith

  process_loop-cons :
      (fuel : ℕ) (x : S) (xs : List S) (d : HowlDetector S D)
      → let len = turn_length (length (x ∷ xs)) d in
        process_loop (suc fuel) (x ∷ xs) d
        ≡ process_loop fuel (drop len (x ∷ xs)) (chunk len (x ∷ xs) d)
  unfolding process_loop
  process_loop-cons fuel x xs d = refl

  process_loop-nil : (fuel : ℕ) (d : HowlDetector S D) → process_loop fuel [] d ≡ some d
  unfolding process_loop
  process_loop-nil zero d = refl
  process_loop-nil (suc fuel) d = refl

  process_loop-by_sample :
      (fuel : ℕ) (xs : List S) (d : HowlDetector S D)
      → length xs ≤ fuel
      → d.pos < d.cfg.block_size
      → process_loop fuel xs d ≡ some (by_sample xs d)
  process_loop-by_sample fuel [] d h inside =
      process_loop-nil fuel d ∙ ap some (sym (by_sample_nil d))
  process_loop-by_sample zero (x ∷ xs) d h inside = absurd (omega arith)
  process_loop-by_sample (suc fuel) (x ∷ xs) d h inside =
      let ys = x ∷ xs in
      let len = turn_length (length ys) d in
      let (some_sample, fits, room) = turn_length-bounds (length ys) d (omega arith) inside in
      let turn : chunk len ys d ≡ by_sample (take len ys) d =
        chunk-take len ys d some_sample fits room in
      let rest =
        process_loop-by_sample fuel (drop len ys) (by_sample (take len ys) d)
          (omega (arith, length-drop len ys)) (by_sample-pos (take len ys) d inside).0 in
      process_loop-cons fuel x xs d
      ∙ ap (process_loop fuel (drop len ys)) turn
      ∙ rest
      ∙ ap some (
          sym (by_sample-append (take len ys) (drop len ys) d)
          ∙ ap (λ zs. by_sample zs d) (take-append-drop len ys))

  -- From a position inside the block, process_block() ends, and does what a sample at a time does:
  -- the detector ticks whenever block_size samples have come since the last tick.
  pub process_block-by_sample :
      (xs : List S) (d : HowlDetector S D)
      → d.pos < d.cfg.block_size
      → process_block xs d ≡ some (by_sample xs d)
  unfolding process_block
  process_block-by_sample xs d h = process_loop-by_sample (length xs) xs d (omega arith) h

  -- The caller's partition does not matter: while the position is inside the block, two calls are
  -- one call on the joined input.
  pub process_block-append :
      (xs ys : List S) (d : HowlDetector S D)
      → d.pos < d.cfg.block_size
      → process_block (xs ++ ys) d ≡ Option.bind (process_block xs d) (process_block ys)
  unfolding Option.bind
  process_block-append xs ys d h =
      let inside = (by_sample-pos xs d h).0 in
      rw (process_block-by_sample (xs ++ ys) d h, process_block-by_sample xs d h)
        (rw (process_block-by_sample ys (by_sample xs d) inside)
          (ap some (by_sample-append xs ys d)))
