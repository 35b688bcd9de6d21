-- ===== src/Reverb.antt =====
-- The reverb-slot stages (include/mutap/reverb_stage.h: reverb_return_core, reverb_mix,
-- shifted_dry_mix).
pub mod Pieces
pub mod Sound
use mu_tap.Common.{
  ℕ, zero, suc, ◌%◌, ◌^◌, ◌-◌, ◌==◌, Bool, true, false, not, ◌&&◌, ◌||◌, List, [], ◌∷◌, ◌++◌, ltb,
  length, take, drop, Option, none, some, if◌then◌else◌, Result, ok, err, ◌>>=◌,
}
use mathlib.Core.Option
use mu_tap.Common.Float.{Float}
use mu_tap.Common.Int.{ℤ, pos, negsuc}
use mu_tap.Chain.Types.{Stage}

-- A mono-in reverb: on samples and their count as an int, the samples that it gives for each of its
-- output channels. Its channel counts
-- are what num_outputs() and num_inputs() return, where the type has them.
pub record Reverb (R S : Type 0) : Type 0 where
  pub process : List S → ℤ → R → R × (ℕ → List S)
  pub num_outputs : R → Option ℕ
  pub num_inputs : R → Option ℕ

pub data ReverbReturn : Type 0 where
  left mid : ReverbReturn

pub data ReverbError : Type 0 where
  bad_block no_channels channels_differ not_mono bad_wet bad_mode : ReverbError

-- reverb_mix::config, which shifted_dry_mix shares.
pub record MixConfig (S : Type 0) : Type 0 where
  pub block_size : ℕ
  pub channels : ℕ
  pub wet : S
  pub mode : ReverbReturn

pub record ReturnCore (R S : Type 0) : Type 0 where
  pub reverb : R
  pub block : ℕ
  pub channels : ℕ
  pub wet : S
  pub dry : S
  pub mode : ReverbReturn

abbrev pub is_mid : ReverbReturn → Bool
is_mid mid = true
is_mid left = false

-- A count that the type reports differs from n.
abbrev pub differs : Option ℕ → ℕ → Bool
differs none n = false
differs (some k) n = not (k == n)

module _ {R S : Type 0} ⦃f : Float S⦄ where
  -- set_wet(): the core after it, and what it returns.
  unfoldable pub set_wet : S → ReturnCore R S → ReturnCore R S × Bool
  set_wet wet c =
      if not (f.is_finite wet) || f.lt wet (f.of_ℕ 0) || f.lt (f.of_ℕ 1) wet
      then (c, false)
      else (record c { wet = wet; dry = f.sub (f.of_ℕ 1) wet }, true)

module _ {R S : Type 0} where
  unfoldable pub set_return_mode : ReverbReturn → ReturnCore R S → ReturnCore R S × Bool
  set_return_mode mode c =
      if is_mid mode && ltb c.channels 2 then (c, false) else (record c { mode = mode }, true)

module _ {S : Type 0} ⦃f : Float S⦄ where
  -- The loops of mix().
  unfoldable pub mix_left : S → S → List S → List S → List S
  mix_left dry wet (x ∷ xs) (l ∷ ls) = f.add (f.mul dry x) (f.mul wet l) ∷ mix_left dry wet xs ls
  mix_left dry wet _ _ = []

  unfoldable pub mix_mid : S → S → List S → List S → List S → List S
  mix_mid dry half (x ∷ xs) (l ∷ ls) (r ∷ rs) =
      f.add (f.mul dry x) (f.mul half (f.add l r)) ∷ mix_mid dry half xs ls rs
  mix_mid dry half _ _ _ = []

module _ {R S : Type 0} ⦃f : Float S⦄ where
  -- mix() of the dry samples with the reverb's last outputs.
  unfoldable pub mix : ReturnCore R S → List S → (ℕ → List S) → List S
  mix c dry outs =
      if is_mid c.mode
      then mix_mid c.dry (f.mul c.wet (f.dec 5 1)) dry (outs 0) (outs 1)
      else mix_left c.dry c.wet dry (outs 0)

-- static_cast<int> of a size_t: an int of 32 bits, modulo 2^32.
unfoldable pub to_int : ℕ → ℤ
to_int n = let low = n % 2 ^ 32 in if ltb low (2 ^ 31) then pos low else negsuc (2 ^ 32 - 1 - low)

-- run_reverb().
unfoldable pub run_reverb : {R S : Type 0} ⦃v : Reverb R S⦄ → List S → R → R × (ℕ → List S)
unfolding to_int
run_reverb ⦃v⦄ xs reverb = v.process xs (to_int (length xs)) reverb

module _ {R S : Type 0} ⦃f : Float S⦄ ⦃v : Reverb R S⦄ where
  -- The constructor: each check in its order.
  unfoldable pub new_core : R → MixConfig S → Result ReverbError (ReturnCore R S)
  new_core reverb cfg =
      let (wetted, wet_ok) = set_wet cfg.wet (record {
        reverb = reverb;
        block = cfg.block_size;
        channels = cfg.channels;
        wet = f.of_ℕ 0;
        dry = f.of_ℕ 1;
        mode = left;
      }) in
      let (core, mode_ok) = set_return_mode cfg.mode wetted in
      if cfg.block_size == 0
      then err bad_block
      else if cfg.channels == 0
      then err no_channels
      else if differs (v.num_outputs reverb) cfg.channels
      then err channels_differ
      else if differs (v.num_inputs reverb) 1
      then err not_mono
      else if not wet_ok
      then err bad_wet
      else if not mode_ok
      then err bad_mode
      else ok core

  -- reverb_mix's loop body on one piece.
  unfoldable pub mix_piece : List S → ReturnCore R S → ReturnCore R S × List S
  mix_piece xs c =
      let (after, outs) = run_reverb xs c.reverb in (record c { reverb = after }, mix c xs outs)

module _ {T R S : Type 0} ⦃f : Float S⦄ ⦃t : Stage T S⦄ ⦃v : Reverb R S⦄ where
  -- shifted_dry_mix's: the reverb hears the unshifted samples.
  unfoldable pub shifted_piece : List S → T × ReturnCore R S → (T × ReturnCore R S) × List S
  shifted_piece xs (shifter, c) =
      let (after, outs) = run_reverb xs c.reverb in
      let (moved, dry) = t.run xs shifter in ((moved, record c { reverb = after }), mix c dry outs)

-- `for (off = 0; off < n; off += b)`, on fuel: pieces of at most b samples. `none` means that the
-- fuel ran out.
unfoldable pub pieces :
    {S St : Type 0} → (List S → St → St × List S) → ℕ → ℕ → List S → St → Option (St × List S)
pieces step b zero [] st = some (st, [])
pieces step b zero (x ∷ xs) st = none
pieces step b (suc fuel) [] st = some (st, [])
pieces step b (suc fuel) (x ∷ xs) st =
    let (next, out) = step (take b (x ∷ xs)) st in
    Option.map (λ (after, rest). (after, out ++ rest)) (pieces step b fuel (drop b (x ∷ xs)) next)

module _ {R S : Type 0} ⦃f : Float S⦄ ⦃v : Reverb R S⦄ where
  -- reverb_mix::process_block().
  unfoldable pub mix_block : List S → ReturnCore R S → Option (ReturnCore R S × List S)
  mix_block xs c = pieces mix_piece c.block (length xs) xs c

module _ {T R S : Type 0} ⦃f : Float S⦄ ⦃t : Stage T S⦄ ⦃v : Reverb R S⦄ where
  -- shifted_dry_mix::process_block().
  unfoldable pub shifted_block :
      List S → T × ReturnCore R S → Option ((T × ReturnCore R S) × List S)
  shifted_block xs (shifter, c) = pieces shifted_piece c.block (length xs) xs (shifter, c)
