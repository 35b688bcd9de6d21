-- ===== src/Tail.antt =====
-- The spectral reverb (include/mutap/spectral_reverb.h: spectral_reverb).
pub mod Shape
pub mod Hop
pub mod Blocks
use mu_tap.Common.{
  ℕ, zero, suc, ◌+◌, ◌-◌, ◌*◌, ◌==◌, Bool, true, false, not, ◌&&◌, ◌||◌, List, [], ◌∷◌, ◌++◌, map,
  length, replicate, take, drop, ltb, leb, Option, none, some, Result, ok, err, ◌>>=◌,
  if◌then◌else◌,
}
use mu_tap.Common.Float.{Float}
use mu_tap.Suppressor.Weights.{is_power}
use mu_tap.Spectrum.{Fft, checked_fft_size, sum_of_squares, zeros}
use mu_tap.Tail.Shape.{
  SpectralConfig, SpectralShaping, flat, from_path, BinShape, reshape_flat, apply_shape, magnitudes,
  fold_paths, all_given,
}
use mu_tap.Tail.Hop.{HopState}

pub data SpectralError : Type 0 where
  bad_block_size bad_sample_rate bad_rt60 bad_wet bad_shape bad_bounds bad_fft_size : SpectralError

pub record SpectralReverb (S : Type 0) : Type 0 where
  pub cfg : SpectralConfig S
  pub analysis : List S
  pub state : HopState S
  pub bins : BinShape S

abbrev pub is_flat : SpectralShaping → Bool
is_flat flat = true
is_flat from_path = false

module _ {S : Type 0} ⦃f : Float S⦄ where
  unfoldable pub validated : SpectralConfig S → Result SpectralError (SpectralConfig S)
  validated cfg =
      let z = f.of_ℕ 0 in
      if ltb cfg.block_size 4 || not (is_power cfg.block_size)
      then err bad_block_size
      else if not (f.is_finite cfg.sample_rate) || not (f.lt z cfg.sample_rate)
      then err bad_sample_rate
      else if not (f.is_finite cfg.rt60) || not (f.lt z cfg.rt60)
      then err bad_rt60
      else if not (f.is_finite cfg.wet) || f.lt cfg.wet z || f.lt (f.of_ℕ 1) cfg.wet
      then err bad_wet
      else if not (f.is_finite cfg.shape) || f.lt cfg.shape z
      then err bad_shape
      else if not (f.is_finite cfg.shape_max)
          || not (f.lt z cfg.shape_min)
          || not (f.le cfg.shape_min cfg.shape_max)
      then err bad_bounds
      else ok cfg

  -- The Hann window: n entries from i on of the m.
  unfoldable pub hann : ℕ → ℕ → ℕ → List S
  hann m zero i = []
  hann m (suc n) i =
      f.sub (f.dec 5 1)
        (f.mul (f.dec 5 1) (f.cos (f.div (f.mul (f.mul (f.of_ℕ 2) f.pi) (f.of_ℕ i)) (f.of_ℕ m))))
      ∷ hann m n (i + 1)

  unfoldable pub new_spectral :
      ⦃t : Fft S⦄ → SpectralConfig S → Result SpectralError (SpectralReverb S)
  unfolding hann
  new_spectral config = validated config >>= λ cfg.
      checked_fft_size S (2 * cfg.block_size) bad_fft_size >>= λ n. ok (record {
        cfg = cfg;
        analysis = hann n n 0;
        state = record {
          frame = replicate n (f.of_ℕ 0);
          tail = replicate n (f.of_ℕ 0);
          poles = replicate n (f.of_ℕ 0);
        };
        bins = reshape_flat cfg;
      })

  -- set_wet(): the reverb after it, and what it returns.
  unfoldable pub set_wet : S → SpectralReverb S → SpectralReverb S × Bool
  set_wet wet s =
      let old = s.cfg.wet in
      let cfg = record s.cfg { wet = wet } in
      let scaled = record s.bins { wet = map (λ w. f.mul w (f.div wet old)) s.bins.wet } in
      if not (f.is_finite wet) || f.lt wet (f.of_ℕ 0) || f.lt (f.of_ℕ 1) wet then (s, false) else (
        record s { cfg = cfg; bins = if f.lt (f.of_ℕ 0) old then scaled else reshape_flat cfg },
        true,
      )

  unfoldable pub reset : SpectralReverb S → SpectralReverb S
  reset s = record s {
    state = record {
      frame = zeros s.state.frame;
      tail = zeros s.state.tail;
      poles = zeros s.state.poles;
    };
  }

  -- reshape() from a magnitude that is not null.
  unfoldable pub reshape : List S → SpectralReverb S → SpectralReverb S × Bool
  reshape magnitude s =
      if is_flat s.cfg.shaping || not (length magnitude == s.cfg.block_size + 1)
      then (s, false)
      else (record s { bins = apply_shape s.cfg magnitude }, true)

  -- reshape_from_impulse_responses(): a path that is null is none.
  unfoldable pub reshape_from_impulse_responses :
      ⦃t : Fft S⦄ → List (Option (List S)) → ℕ → SpectralReverb S → SpectralReverb S × Bool
  reshape_from_impulse_responses ⦃t⦄ irs taps s =
      let n = 2 * s.cfg.block_size in
      let folded = fold_paths n taps irs (replicate n (f.of_ℕ 0)) in
      if is_flat s.cfg.shaping || length irs == 0 || taps == 0 || not (all_given irs)
      then (s, false)
      else if not (f.lt (f.dec 1 12) (sum_of_squares (f.of_ℕ 0) folded))
      then (s, false)
      else (
        record s { bins = apply_shape s.cfg (magnitudes s.cfg.block_size (t.forward folded)) },
        true,
      )
