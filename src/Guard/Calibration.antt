-- ===== src/Guard/Calibration.antt =====
-- The soundcheck sampler (include/mutap/howl_guard.h: sample(), quantile(), set_thresholds() and the
-- body of calibrate_end()).
pub mod Quantile
use mu_tap.Common.{
  ℕ, zero, suc, ◌+◌, ◌-◌, ◌*◌, ◌^◌, ◌==◌, Bool, true, false, not, ◌&&◌, ltb, leb, List, [], ◌∷◌,
  length, modify, if◌then◌else◌,
}
use mu_tap.Common.Float.{Float, Cast, clamp}
use mu_tap.Guard.Types.{GuardPolicy, GuardCalibration, MicState}

abbrev pub k_d_bins : ℕ
k_d_bins = 800

abbrev pub k_a_bins : ℕ
k_a_bins = 1200

-- One mic's part of m_hist: the bins of D, then those of A'.
pub record Histogram : Type 0 where
  pub d_bins : List ℕ
  pub a_bins : List ℕ

-- A uint32 count that stops at its maximum.
unfoldable pub count_up : ℕ → ℕ
count_up n = if ltb n (2 ^ 32 - 1) then n + 1 else n

unfoldable pub sum : List ℕ → ℕ
sum [] = 0
sum (n ∷ ns) = n + sum ns

-- quantile()'s loop from bin i: the first bin whose cumulative count reaches the target, or the
-- number of bins.
unfoldable pub find_bin : ℕ → ℕ → ℕ → List ℕ → ℕ
find_bin target cum i [] = i
find_bin target cum i (n ∷ ns) =
    let rest = find_bin target (cum + n) (i + 1) ns in if leb target (cum + n) then i else rest

module _ {D : Type 0} ⦃d : Float D⦄ where
  open d use {of_ℕ, dec, add, mul, lt, ceil, to_ℕ, neg}

  abbrev pub k_bin_db : D
  k_bin_db = dec 1 1

  abbrev pub k_d_lo : D
  k_d_lo = neg (of_ℕ 60)

  abbrev pub k_a_lo : D
  k_a_lo = neg (of_ℕ 100)

  -- ceil(q n), at least 1.
  unfoldable pub target_of : ℕ → D → ℕ
  target_of n q = let want = ceil (mul q (of_ℕ n)) in if lt want (of_ℕ 1) then 1 else to_ℕ want

  unfoldable pub quantile : List ℕ → ℕ → D → D → D
  unfolding find_bin target_of
  quantile bins n q lo =
      let i = find_bin (target_of n q) 0 0 bins in add lo (mul (add (of_ℕ i) (dec 5 1)) k_bin_db)

module _ {S D : Type 0} ⦃f : Float S⦄ ⦃d : Float D⦄ ⦃c : Cast S D⦄ where
  open c use {to_sample}

  -- The bin of a value: clamped into the end bins.
  unfoldable pub bin_of : S → D → ℕ → ℕ
  bin_of db lo bins =
      let inv = to_sample (d.div (d.of_ℕ 1) (k_bin_db {D = D})) in
      f.to_ℕ (clamp (f.mul (f.sub db (to_sample lo)) inv) (f.of_ℕ 0) (f.of_ℕ (bins - 1)))

module _ {S : Type 0} (D : Type 0) ⦃f : Float S⦄ ⦃d : Float D⦄ ⦃c : Cast S D⦄ where
  -- One block of the sampler for one mic: nothing where a statistic is not finite.
  unfoldable pub sample_mic : MicState S → Histogram → Histogram
  unfolding bin_of count_up
  sample_mic s h =
      if f.is_finite s.d_db && f.is_finite s.a_db
      then record {
        d_bins = modify h.d_bins (bin_of s.d_db (k_d_lo {D = D}) k_d_bins) count_up;
        a_bins = modify h.a_bins (bin_of s.a_db (k_a_lo {D = D}) k_a_bins) count_up;
      }
      else h

module _ {S D : Type 0} ⦃f : Float S⦄ ⦃d : Float D⦄ ⦃c : Cast S D⦄ where
  open c use {to_sample, to_double}

  -- set_thresholds(): a non-finite value keeps the current one; LOST needs a fresh ok tick.
  unfoldable pub set_thresholds : D → D → MicState S → MicState S
  set_thresholds d_db a_db s = record s {
    d_thr =
        if d.is_finite d_db
        then to_sample (clamp d_db (d.neg (d.of_ℕ 120)) (d.of_ℕ 120))
        else s.d_thr;
    a_thr =
        if d.is_finite a_db
        then to_sample (clamp a_db (d.neg (d.of_ℕ 300)) (d.of_ℕ 120))
        else s.a_thr;
    own_thr = true;
    ok_seen = false;
  }

  -- One mic's entry of calibrate_end(), and the mic after it.
  unfoldable pub calibrate_mic :
      Bool
      → GuardPolicy D
      → MicState S
      → Histogram
      → GuardCalibration D
      → MicState S × GuardCalibration D
  unfolding quantile set_thresholds sum
  calibrate_mic apply p s h old =
      let blocks = sum h.d_bins in
      let q = λ (x : D). quantile h.d_bins blocks x k_d_lo in
      let r = λ (x : D). quantile h.a_bins blocks x k_a_lo in
      let d_db =
        clamp (d.add (q (d.dec 5 1)) p.cal_d_margin_db) (d.neg (d.of_ℕ 120)) (d.of_ℕ 120) in
      let a_db =
        clamp (d.add (r (d.dec 5 1)) p.cal_a_margin_db) (d.neg (d.of_ℕ 300)) (d.of_ℕ 120) in
      if blocks == 0
      then (
        s,
        record old {
          blocks = 0;
          applied = false;
          d_db = to_double s.d_thr;
          a_db = to_double s.a_thr;
        },
      )
      else (
        if apply then set_thresholds d_db a_db s else s,
        record {
          blocks = blocks;
          d_median_db = q (d.dec 5 1);
          d_p95_db = q (d.dec 95 2);
          d_max_db = q (d.of_ℕ 1);
          a_median_db = r (d.dec 5 1);
          a_p95_db = r (d.dec 95 2);
          a_max_db = r (d.of_ℕ 1);
          d_db = d_db;
          a_db = a_db;
          applied = apply;
        },
      )
