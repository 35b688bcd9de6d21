-- ===== src/Detector/Block.antt =====
-- The detector over a signal (include/mutap/howl_detector.h: run_bank(), process_block(), reset(),
-- and the readouts).
pub mod Chunks
use mu_tap.Common.{
  ℕ, zero, suc, ◌+◌, ◌-◌, ◌*◌, ◌==◌, Bool, true, false, ◌&&◌, List, [], ◌∷◌, map, length, take,
  drop, ltb, if◌then◌else◌, get_or, size_max, Option, none, some,
}
use mu_tap.Common.Float.{Float}
use mu_tap.Detector.Types.{
  Band, DetectorConfig, DecisionParams, DecisionState, HowlDetector, cleared,
}
use mu_tap.Detector.Loops.{at, level_of}
use mu_tap.Detector.Decide.{decide}

module _ {S : Type 0} ⦃f : Float S⦄ where
  open f use {of_ℕ, dec, add, sub, mul, lt, abs}

  unfoldable pub k_bias : S
  k_bias = dec 1 20

  unfoldable pub k_env_floor : S
  k_env_floor = dec 1 20

  -- One resonator and its envelope over one biased sample.
  unfoldable pub run_band : S → S → S → Band S → Band S
  run_band att rel xb r =
      let w = sub (sub xb (mul r.a1 r.w1)) (mul r.a2 r.w2) in
      let y = add (abs (mul r.g (sub w r.w2))) k_env_floor in
      let c = if lt r.env y then att else rel in
      record r { w2 = r.w1; w1 = w; env = add y (mul c (sub r.env y)) }

  unfoldable pub clear_band : Band S → Band S
  clear_band r = record r { w1 = of_ℕ 0; w2 = of_ℕ 0; env = k_env_floor }

module _ {S D : Type 0} ⦃f : Float S⦄ where
  open f use {of_ℕ, add, mul}

  -- One sample of run_bank(): m_block_sq gains its square.
  unfoldable pub bank_sample : S → HowlDetector S D → HowlDetector S D
  unfolding run_band
  bank_sample x d = record d {
    block_sq = add d.block_sq (mul x x);
    bank = map (run_band d.att d.rel (add x k_bias)) d.bank;
  }

  unfoldable pub run_bank : List S → HowlDetector S D → HowlDetector S D
  unfolding bank_sample
  run_bank [] d = d
  run_bank (x ∷ xs) d = run_bank xs (bank_sample x d)

  unfoldable pub envelopes : HowlDetector S D → List S
  envelopes d = map (λ r. r.env) d.bank

  -- The tick at the end of a block: decide(), and the block's sums cleared.
  unfoldable pub end_block : HowlDetector S D → HowlDetector S D
  unfolding envelopes
  end_block d = record d {
    state = decide d.params (envelopes d) (mul d.block_sq d.inv_block) d.state;
    block_sq = of_ℕ 0;
    pos = 0;
  }

  -- m_pos += len, and the tick if that fills the block.
  unfoldable pub advance : ℕ → HowlDetector S D → HowlDetector S D
  advance len d = record d { pos = d.pos + len }

  unfoldable pub tick_if_full : HowlDetector S D → HowlDetector S D
  unfolding end_block
  tick_if_full d = if d.pos == d.cfg.block_size then end_block d else d

  -- One turn of process_block's loop, over the first len samples.
  unfoldable pub chunk : ℕ → List S → HowlDetector S D → HowlDetector S D
  unfolding run_bank advance tick_if_full
  chunk len xs d = tick_if_full (advance len (run_bank (take len xs) d))

  -- len: the room left in the block, or the n samples left.
  unfoldable pub turn_length : ℕ → HowlDetector S D → ℕ
  turn_length n d = let room = d.cfg.block_size - d.pos in if ltb room n then room else n

  -- `while (i < n)`, on fuel: `none` means that the fuel ran out.
  unfoldable pub process_loop : ℕ → List S → HowlDetector S D → Option (HowlDetector S D)
  unfolding chunk turn_length
  process_loop zero [] d = some d
  process_loop zero (x ∷ xs) d = none
  process_loop (suc fuel) [] d = some d
  process_loop (suc fuel) (x ∷ xs) d =
      let len = turn_length (length (x ∷ xs)) d in
      process_loop fuel (drop len (x ∷ xs)) (chunk len (x ∷ xs) d)

  unfoldable pub process_block : List S → HowlDetector S D → Option (HowlDetector S D)
  unfolding process_loop
  process_block xs d = process_loop (length xs) xs d

  unfoldable pub reset : HowlDetector S D → HowlDetector S D
  unfolding clear_band
  reset d = record d {
    bank = map clear_band d.bank;
    pos = 0;
    block_sq = of_ℕ 0;
    state = cleared d.params.bands d.params.slots;
  }
