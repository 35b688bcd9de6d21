-- ===== src/Suppressor/Engine.antt =====
-- The suppressor's members, constructor, reset() and process_block() (include/mutap/nn_suppressor.h:
-- nn_suppressor).

pub mod Independence
use mu_tap.Common.{
  ℕ, zero, suc, ◌+◌, ◌-◌, ◌*◌, ◌==◌, Bool, true, false, ◌&&◌, ◌||◌, not, List, [], ◌∷◌, ◌++◌,
  length, map, take, drop, modify, replicate, Result, ok, err, ◌>>=◌, if◌then◌else◌,
}
use mu_tap.Common.Float.{Float, Cast}
use mu_tap.Detector.Loops.{at}
use mu_tap.Spectrum.{Fft, checked_fft_size, loop}
use mu_tap.Tail.Hop.{windowed, overlap}
use mu_tap.Suppressor.Weights.{Geometry, Weights, bins, frame, is_valid}
use mu_tap.Suppressor.Bands.{
  band_matrix, band_norms, column, dot, bin_powers, explain, log_energies,
}
use mu_tap.Suppressor.Noise.{NoiseConfig, FloorState, update_floor, comfort_fill}

-- What the suppressor takes of its layers (DspTap's tap::dsp::nn): the two dense layers, the
-- recurrent step, its state and its reset.
pub record Network (N S : Type 0) : Type 0 where
  pub dense_in : N → List S → List S
  pub step : List S → N → N
  pub state : N → List S
  pub dense_out : N → List S → List S
  pub clear : N → N

pub data SuppressorError : Type 0 where
  bad_weights bad_block bad_smoothing bad_floor bad_fft_size : SuppressorError

pub record SuppressorConfig (S D : Type 0) : Type 0 where
  pub block_size : ℕ
  pub noise : NoiseConfig S
  pub explained_smoothing : S
  pub weights : Weights D

pub record NnSuppressor (N S : Type 0) : Type 0 where
  pub hop : ℕ
  pub noise : NoiseConfig S
  pub explained_smoothing : S
  pub network : N
  pub window : List S
  pub rows : List (List S)
  pub norms : List S
  pub prev_e : List S
  pub prev_yhat : List S
  pub tail : List S
  pub floor : FloorState S
  pub rng : ℕ
  pub syy : S
  pub sdd : S

module _ {S : Type 0} ⦃f : Float S⦄ where
  -- A smoothing constant that is not in [0, 1).
  abbrev pub is_outside : S → Bool
  is_outside x = f.lt x (f.of_ℕ 0) || f.le (f.of_ℕ 1) x

  -- m_bin_gain from bin k on, for n bins.
  unfoldable pub bin_gains : List S → List (List S) → List S → ℕ → ℕ → List S
  unfolding dot
  bin_gains gains rows norms zero k = []
  bin_gains gains rows norms (suc m) k =
      f.mul (dot gains (column k rows) (f.of_ℕ 0)) (at norms k)
      ∷ bin_gains gains rows norms m (k + 1)

  abbrev pub scale_bin : List S → ℕ → List S → List S
  scale_bin gain k spec =
      modify (modify spec (2 * k) (λ x. f.mul x (at gain k))) (2 * k + 1) (λ x. f.mul x (at gain k))

  -- The gains on the packed spectrum.
  unfoldable pub scale_bins : ℕ → List S → List S → List S
  scale_bins hop gain spec =
      let ends = modify (modify spec 0 (λ x. f.mul x (at gain 0))) 1 (λ x. f.mul x (at gain hop)) in
      loop (scale_bin gain) (hop - 1) 1 ends

  abbrev pub smooth_sum : S → S → S → S
  smooth_sum a x y = f.add (f.mul a x) (f.mul (f.sub (f.of_ℕ 1) a) y)

module _ {S D : Type 0} ⦃f : Float S⦄ ⦃d : Float D⦄ where
  unfoldable pub validated : SuppressorConfig S D → Result SuppressorError (SuppressorConfig S D)
  validated cfg =
      if not (is_valid cfg.weights)
      then err bad_weights
      else if not (cfg.block_size == 0) && not (cfg.block_size == cfg.weights.geometry.hop)
      then err bad_block
      else if is_outside cfg.noise.floor_smoothing || is_outside cfg.explained_smoothing
      then err bad_smoothing
      else if cfg.noise.floor_window == 0 || f.le cfg.noise.floor_bias (f.of_ℕ 0)
      then err bad_floor
      else ok cfg

module _ {N S : Type 0} ⦃f : Float S⦄ ⦃n : Network N S⦄ where
  unfoldable pub reset : NnSuppressor N S → NnSuppressor N S
  reset s =
      let nothing = replicate s.hop (f.of_ℕ 0) in
      let bins = s.hop + 1 in
      record s {
        prev_e = nothing;
        prev_yhat = nothing;
        tail = nothing;
        network = n.clear s.network;
        floor = record {
          floor = replicate bins (f.of_ℕ 0);
          min_cur = replicate bins f.largest;
          min_prev = replicate bins (f.of_ℕ 0);
          min_count = 0;
        };
        rng = 625_341_585;
        syy = f.of_ℕ 0;
        sdd = f.of_ℕ 0;
      }

  -- update_explained().
  unfoldable pub update_explained : List S → List S → NnSuppressor N S → NnSuppressor N S
  update_explained spec_e spec_y s =
      let (syy, sdd) = explain s.hop spec_e spec_y in
      let a = s.explained_smoothing in
      record s { syy = smooth_sum a s.syy syy; sdd = smooth_sum a s.sdd sdd }

  -- infer(): the layers' state and the gains of the bands.
  unfoldable pub infer : List S → N → N × List S
  infer features network =
      let next = n.step (n.dense_in network features) network in
      (next, n.dense_out next (n.state next))

  -- The rest of a block once the gains of the bands are there: the signal path.
  unfoldable pub render :
      ⦃t : Fft S⦄ → List S → List S → List S → NnSuppressor N S → NnSuppressor N S × List S
  unfolding bin_gains scale_bins
  render ⦃t⦄ e spec_e gains s =
      let powers = bin_powers s.hop spec_e in
      let gain = bin_gains gains s.rows s.norms (s.hop + 1) 0 in
      let scaled = scale_bins s.hop gain spec_e in
      let (rng, spec) =
        if s.noise.comfort_noise
        then comfort_fill s.hop s.noise.floor_bias gain powers s.floor (s.rng, scaled)
        else (s.rng, scaled) in
      let time = windowed (t.inverse spec) s.window in
      (record s { rng = rng; tail = drop s.hop time; prev_e = e }, overlap s.tail (take s.hop time))

module _ {N S : Type 0} (D : Type 0) ⦃f : Float S⦄ ⦃d : Float D⦄ ⦃c : Cast S D⦄ ⦃n : Network N S⦄
    ⦃t : Fft S⦄ where
  -- The features of both spectra: what the gains are inferred from.
  abbrev pub features_of : List S → List S → NnSuppressor N S → List S
  features_of spec_e spec_y s =
      log_energies D s.rows (bin_powers s.hop spec_e)
      ++ log_energies D s.rows (bin_powers s.hop spec_y)

  -- process_block(): the suppressor after it, and the output.
  unfoldable pub process_block : List S → List S → NnSuppressor N S → NnSuppressor N S × List S
  unfolding update_explained infer render
  process_block e yhat s =
      let spec_e = t.forward (windowed (s.prev_e ++ e) s.window) in
      let spec_y = t.forward (windowed (s.prev_yhat ++ yhat) s.window) in
      let heard = update_explained spec_e spec_y s in
      let floor = update_floor s.noise (bin_powers s.hop spec_e) s.floor in
      let (network, gains) = infer (features_of spec_e spec_y s) s.network in
      let ready = record heard { floor = floor; network = network; prev_yhat = yhat } in
      render e spec_e gains ready

-- The constructor, of the layers that the weights give and of the library's Hann window.
unfoldable pub new_suppressor :
    {N S D : Type 0} ⦃f : Float S⦄ ⦃d : Float D⦄ ⦃c : Cast S D⦄ ⦃n : Network N S⦄ ⦃t : Fft S⦄
    → (Weights D → N)
    → (ℕ → List D)
    → SuppressorConfig S D
    → Result SuppressorError (NnSuppressor N S)
new_suppressor {S = S} ⦃f⦄ ⦃d⦄ ⦃c⦄ layers hann config = validated config >>= λ cfg.
    let g = cfg.weights.geometry in
    checked_fft_size S (frame g) bad_fft_size >>= λ size.
    let rows = band_matrix g in
    ok (
      reset (record {
        hop = g.hop;
        noise = cfg.noise;
        explained_smoothing = cfg.explained_smoothing;
        network = layers cfg.weights;
        window = map (λ x. c.to_sample (d.sqrt x)) (hann size);
        rows = rows;
        norms = band_norms rows (bins g) 0;
        prev_e = [];
        prev_yhat = [];
        tail = [];
        floor = record { floor = []; min_cur = []; min_prev = []; min_count = 0 };
        rng = 0;
        syy = f.of_ℕ 0;
        sdd = f.of_ℕ 0;
      }))
