-- ===== src/Guard/Calibration/Quantile.antt =====
-- A quantile is the first bin that reaches its count, and the sampler counts blocks
-- (include/mutap/howl_guard.h: quantile() and sample()).
use mu_tap.Common.{
  ℕ, zero, suc, ◌+◌, ◌≤◌, ◌<◌, leb, ◌≡◌, arith, List, [], ◌∷◌, length, take, modify, Bool-cases,
  inl, inr, ◌⊎◌,
}
use mu_tap.Guard.Calibration.{count_up, sum, find_bin}

-- The loop's result, from any bin and cumulative count below the target.
find_bin-from :
    (target cum i : ℕ) (ns : List ℕ)
    → cum < target
    → target ≤ cum + sum ns
    → (k : ℕ) × (find_bin target cum i ns ≡ i + k)
      × (k < length ns)
      × (cum + sum (take k ns) < target)
      × (target ≤ cum + sum (take (suc k) ns))
unfolding find_bin sum
find_bin-from target cum i [] lo hi = absurd (omega arith)
find_bin-from target cum i (n ∷ ns) lo hi = elim (Bool-cases (leb target (cum + n))) [
  | inl here ↦ (0, rw here (omega arith), omega arith, omega arith, ground arith)
  | inr on ↦
      let more : cum + n < target = ground arith in
      let (k, e, inside, before, reached) =
        find_bin-from target (cum + n) (i + 1) ns more (omega arith) in
      (suc k, rw on (omega (arith, e)), omega arith, omega (arith, before), omega (arith, reached))
]

-- For a target from 1 up to the counts held, quantile()'s loop stops inside the histogram, at the
-- first bin whose cumulative count reaches the target: the bins before it hold fewer.
pub find_bin-first :
    (target : ℕ) (ns : List ℕ)
    → 0 < target
    → target ≤ sum ns
    → let i = find_bin target 0 0 ns in
      (i < length ns) × (sum (take i ns) < target) × (target ≤ sum (take (suc i) ns))
find_bin-first target ns lo hi =
    let (k, e, inside, before, reached) = find_bin-from target 0 0 ns lo (omega arith) in
    let same : find_bin target 0 0 ns ≡ k = omega (arith, e) in
    rw same (inside, omega (arith, before), omega (arith, reached))

-- A sampled block adds one to the counts held, unless its bin is full.
pub sum-count_up :
    (ns : List ℕ) (i : ℕ)
    → i < length ns
    → (sum (modify ns i count_up) ≡ sum ns + 1) ⊎ (sum (modify ns i count_up) ≡ sum ns)
unfolding sum count_up
sum-count_up [] i h = absurd (omega arith)
sum-count_up (n ∷ ns) zero h = ground arith
sum-count_up (n ∷ ns) (suc i) h = ground (arith, sum-count_up ns i)
