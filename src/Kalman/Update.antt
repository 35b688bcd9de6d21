-- ===== src/Kalman/Update.antt =====
-- The predict and correct steps (include/mutap/fd_kalman.h: process_block(), from the covariance on,
-- and inst_floor()).
use mu_tap.Common.{ℕ, ◌+◌, ◌-◌, ◌*◌, ◌&&◌, List, ◌∷◌, modify, set, replicate, if◌then◌else◌}
use mu_tap.Common.Float.{Float}
use mu_tap.Detector.Loops.{at}
use mu_tap.Spectrum.{Fft, Reference, loop, lagged}
use mu_tap.Fdaf.Coherence.{bin_power, cross_re, cross_im, smooth_error}
use mu_tap.Fdaf.Update.{constrain}
use mu_tap.Kalman.Types.{KalmanConfig, Fdkf}

module _ {S : Type 0} ⦃f : Float S⦄ where
  unfoldable pub inst_floor : KalmanConfig S → S → S → S
  inst_floor cfg psi inst =
      f.add
        (if f.lt (f.mul cfg.transient_floor_ratio psi) inst
            && f.lt (f.of_ℕ 0) cfg.transient_floor_ratio
          then inst
          else psi)
        cfg.regularization

  -- m_denom before the partitions.
  unfoldable pub initial_denom : KalmanConfig S → List S → List S → List S
  unfolding inst_floor
  initial_denom cfg e psi =
      let half = cfg.block_size in
      loop (λ k row. set row k (inst_floor cfg (at psi k) (bin_power e k))) (half - 1) 1
        (set
          (set (replicate (half + 1) (f.of_ℕ 0)) 0
            (inst_floor cfg (at psi 0) (f.mul (at e 0) (at e 0))))
          half (inst_floor cfg (at psi half) (f.mul (at e 1) (at e 1))))

-- A partition's variances, and the innovation power.
pub record Innovation (S : Type 0) : Type 0 where
  pub pp : List S
  pub denom : List S

-- A partition's taps and variances.
pub record Corrected (S : Type 0) : Type 0 where
  pub h : List S
  pub pp : List S

module _ {S : Type 0} ⦃f : Float S⦄ where
  abbrev pub predict_bin : S → S → List S → List S → ℕ → Innovation S → Innovation S
  predict_bin a2 q_gain u h k s =
      let pp = modify s.pp k (λ x. f.add (f.mul a2 x) (f.mul q_gain (bin_power h k))) in
      record { pp = pp; denom = modify s.denom k (λ x. f.add x (f.mul (bin_power u k) (at pp k))) }

  -- A bin of one slot: `pp = a2 * pp + q * h * h; denom += u * u * pp`.
  abbrev pub predict_end : S → S → S → S → ℕ → Innovation S → Innovation S
  predict_end a2 q_gain u h k s =
      let pp = modify s.pp k (λ x. f.add (f.mul a2 x) (f.mul (f.mul q_gain h) h)) in
      record { pp = pp; denom = modify s.denom k (λ x. f.add x (f.mul (f.mul u u) (at pp k))) }

  unfoldable pub predict_partition : S → S → ℕ → List S → List S → Innovation S → Innovation S
  predict_partition a2 q_gain half u h s =
      loop (predict_bin a2 q_gain u h) (half - 1) 1
        (predict_end a2 q_gain (at u 1) (at h 1) half (predict_end a2 q_gain (at u 0) (at h 0) 0 s))

  -- The partitions p, p + 1, ...: their variances and the innovation power.
  unfoldable pub predict :
      KalmanConfig S
      → Reference S
      → ℕ
      → List (List S)
      → List (List S)
      → List S
      → List (List S) × List S
  unfolding predict_partition
  predict cfg ref p (h ∷ hs) (pp ∷ pps) denom =
      let a2 = f.mul cfg.transition cfg.transition in
      let done =
        predict_partition a2 (f.sub (f.of_ℕ 1) a2) cfg.block_size
          (lagged cfg.partitions ref.head ref.u p) h (record { pp = pp; denom = denom }) in
      let (rest, last) = predict cfg ref (p + 1) hs pps done.denom in (done.pp ∷ rest, last)
  predict cfg ref p hs pps denom = (pps, denom)

  -- `1 - 0.5 * g * power * nov`, the last two factors grouped as the code has them.
  abbrev pub correct_bin : List S → List S → List S → List S → ℕ → Corrected S → Corrected S
  correct_bin denom nov u e k s =
      let g = f.div (at s.pp k) (at denom k) in
      record {
        h =
            modify (modify s.h (2 * k) (λ x. f.add x (f.mul g (cross_re u e k)))) (2 * k + 1)
              (λ x. f.add x (f.mul g (cross_im u e k)));
        pp = modify s.pp k (λ x.
            f.mul x
              (f.sub (f.of_ℕ 1) (f.mul (f.mul (f.mul (f.dec 5 1) g) (bin_power u k)) (at nov k))));
      }

  -- Bin k, which has the one slot i.
  abbrev pub correct_end : List S → List S → List S → List S → ℕ → ℕ → Corrected S → Corrected S
  correct_end denom nov u e i k s =
      let g = f.div (at s.pp k) (at denom k) in
      record {
        h = modify s.h i (λ x. f.add x (f.mul (f.mul g (at u i)) (at e i)));
        pp = modify s.pp k (λ x. f.mul x (
            f.sub (f.of_ℕ 1)
              (f.mul (f.mul (f.mul (f.mul (f.dec 5 1) g) (at u i)) (at u i)) (at nov k))));
      }

  unfoldable pub correct_partition :
      ℕ → List S → List S → List S → List S → Corrected S → Corrected S
  correct_partition half denom nov u e s =
      loop (correct_bin denom nov u e) (half - 1) 1
        (correct_end denom nov u e 1 half (correct_end denom nov u e 0 0 s))

module _ {S : Type 0} ⦃f : Float S⦄ ⦃t : Fft S⦄ where
  -- The partitions p, p + 1, ...: their taps and their variances.
  unfoldable pub correct_partitions :
      KalmanConfig S
      → Reference S
      → List S
      → List S
      → List S
      → ℕ
      → List (List S)
      → List (List S)
      → List (List S) × List (List S)
  unfolding correct_partition
  correct_partitions cfg ref denom nov e p (h ∷ hs) (pp ∷ pps) =
      let done =
        correct_partition cfg.block_size denom nov (lagged cfg.partitions ref.head ref.u p) e
          (record { h = h; pp = pp }) in
      let (taps, variances) = correct_partitions cfg ref denom nov e (p + 1) hs pps in
      (
        (if cfg.constrained then constrain cfg.block_size done.h else done.h) ∷ taps,
        done.pp ∷ variances,
      )
  correct_partitions cfg ref denom nov e p hs pps = (hs, pps)

  -- The rest of an adapting block.
  unfoldable pub correct : List S → Fdkf S → Fdkf S
  unfolding initial_denom predict correct_partitions
  correct e s =
      let cfg = s.cfg in
      let (aged, denom) = predict cfg s.ref 0 s.h s.p (initial_denom cfg e s.psi_s) in
      let (h, p) = correct_partitions cfg s.ref denom s.novelty.nov e 0 s.h aged in
      record s { h = h; p = p; psi_s = smooth_error cfg.noise_smoothing cfg.block_size e s.psi_s }
