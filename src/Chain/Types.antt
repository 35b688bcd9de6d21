-- ===== src/Chain/Types.antt =====
-- The chain's data, and what it takes of its canceller and its stages, which are template arguments
-- (include/mutap/afc_chain.h: afc_stage_ref, config, the members, and the constructor).
use mu_tap.Common.{
  ℕ, ◌+◌, ◌%◌, size_mod, ◌==◌, Bool, true, false, not, ◌&&◌, ◌||◌, List, [], ◌∷◌, map, length,
  replicate, Option, none, some, Result, ok, err, ◌>>=◌, if◌then◌else◌,
}
use mathlib.Core.Option
use mu_tap.Common.Float.{Float, Cast}
use mu_tap.Guard.Operations.{HowlGuard}
use mu_tap.Guard.Session.{reset}

-- The canceller type at the chain's canceller configuration: block_size and filter_length are that
-- configuration's, and `fresh` is a canceller built from it.
pub record Canceller (C S : Type 0) : Type 0 where
  pub block_size : ℕ
  pub filter_length : ℕ
  pub fresh : C
  pub process : List S → List S → C → C × List S
  pub clear : C → C
  pub adapt : Bool → C → C
  pub impulse_response : C → List S
  pub uncertainty_ratio : C → S
  pub shadow_residual_ratio : C → S
  pub shadow_enabled : C → Bool

-- A stage's process_block().
pub record Stage (T S : Type 0) : Type 0 where
  pub run : List S → T → T × List S

pub data ChainError : Type 0 where
  no_microphones bad_sample_rate : ChainError

pub record ChainConfig (D : Type 0) : Type 0 where
  pub microphones : ℕ
  pub reference_delay_samples : ℕ
  pub output_delay_samples : ℕ
  pub sample_rate : D

-- m_e is one row for each mic; the two bus buffers hold nothing between blocks.
pub record AfcChain (C T S D : Type 0) : Type 0 where
  pub cfg : ChainConfig D
  pub cancellers : List C
  pub u : List S
  pub e : List (List S)
  pub ref_ring : List S
  pub out_ring : List S
  pub ref_pos : ℕ
  pub out_pos : ℕ
  pub decorrelator : Option T
  pub reverb : Option T
  pub safety : Option T
  pub guard : Option (HowlGuard S D)

module _ {D : Type 0} ⦃d : Float D⦄ where
  unfoldable pub validated : ChainConfig D → Result ChainError (ChainConfig D)
  validated cfg =
      if cfg.microphones == 0
      then err no_microphones
      else if not (d.lt (d.of_ℕ 0) cfg.sample_rate) || not (d.is_finite cfg.sample_rate)
      then err bad_sample_rate
      else ok cfg

-- fill_zero().
unfoldable pub fill_zero : {S : Type 0} ⦃f : Float S⦄ → List S → List S
fill_zero ⦃f⦄ xs = map (λ x. f.of_ℕ 0) xs

module _ {C : Type 0} (S : Type 0) ⦃k : Canceller C S⦄ where
  unfoldable pub all_shadowed : List C → Bool
  all_shadowed [] = true
  all_shadowed (c ∷ cs) = k.shadow_enabled c && all_shadowed cs

module _ {C T S D : Type 0} ⦃f : Float S⦄ ⦃d : Float D⦄ ⦃c : Cast S D⦄ ⦃k : Canceller C S⦄ where
  -- reset(): the cancellers, an attached guard, and both delay lines.
  unfoldable pub reset_chain : AfcChain C T S D → AfcChain C T S D
  unfolding fill_zero
  reset_chain ch = record ch {
    cancellers = map k.clear ch.cancellers;
    guard = Option.map reset ch.guard;
    u = fill_zero ch.u;
    e = map fill_zero ch.e;
    ref_ring = fill_zero ch.ref_ring;
    out_ring = fill_zero ch.out_ring;
    ref_pos = 0;
    out_pos = 0;
  }

  -- The constructor.
  unfoldable pub built : ChainConfig D → AfcChain C T S D
  unfolding reset_chain
  built cfg =
      let b = k.block_size in
      let zero = f.of_ℕ 0 in
      reset_chain (record {
        cfg = cfg;
        cancellers = replicate cfg.microphones k.fresh;
        u = replicate b zero;
        e = replicate cfg.microphones (replicate b zero);
        ref_ring = replicate ((cfg.reference_delay_samples + b) % size_mod) zero;
        out_ring = replicate ((cfg.output_delay_samples + b) % size_mod) zero;
        ref_pos = 0;
        out_pos = 0;
        decorrelator = none;
        reverb = none;
        safety = none;
        guard = none;
      })

  -- set_guard(): the chain after it, and what it returns.
  unfoldable pub set_guard : Option (HowlGuard S D) → AfcChain C T S D → AfcChain C T S D × Bool
  unfolding all_shadowed
  set_guard none ch = (record ch { guard = none }, true)
  set_guard (some g) ch =
      if not (length g.channels == length ch.cancellers) || not (g.block == k.block_size)
      then (ch, false)
      else if all_shadowed S ch.cancellers
      then (record ch { guard = some g }, true)
      else (ch, false)

  unfoldable pub set_adaptation : Bool → AfcChain C T S D → AfcChain C T S D
  set_adaptation enabled ch = record ch { cancellers = map (k.adapt enabled) ch.cancellers }

  unfoldable pub new_chain : ChainConfig D → Result ChainError (AfcChain C T S D)
  unfolding validated built
  new_chain cfg = validated cfg >>= λ v. ok (built v)

-- Attach a stage, or bypass it.
module _ {C T S D : Type 0} where
  unfoldable pub set_decorrelator : Option T → AfcChain C T S D → AfcChain C T S D
  set_decorrelator stage ch = record ch { decorrelator = stage }

  unfoldable pub set_reverb : Option T → AfcChain C T S D → AfcChain C T S D
  set_reverb stage ch = record ch { reverb = stage }

  unfoldable pub set_safety : Option T → AfcChain C T S D → AfcChain C T S D
  set_safety stage ch = record ch { safety = stage }
