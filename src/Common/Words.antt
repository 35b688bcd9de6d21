-- ===== src/Common/Words.antt =====
-- `size_t` of 64 bits: counters that wrap, and the saturating timers of the guard.
use Prim.Native.Nat.{ℕ, ◌+◌, ◌-◌, ◌%◌, ◌^◌, ◌≤◌, ◌<◌}
use mathlib.Core.Path.{◌≡◌}
use native.Mathlib.Omega.{arith}
use mathlib.Core.Bool.{false}
use mu_tap.Common.Tests.{◌==◌}

-- The modulus 2^64, and std::numeric_limits<size_t>::max().
unfoldable pub size_mod : ℕ
size_mod = 2 ^ 64

unfoldable pub size_max : ℕ
unfolding size_mod
size_max = size_mod - 1

-- `++n` and `--n`, with the wrap written out.
unfoldable pub inc : ℕ → ℕ
inc n = (n + 1) % size_mod

unfoldable pub dec : ℕ → ℕ
dec n = (n + size_max) % size_mod

pub inc-differs : (n : ℕ) → (inc n == n) ≡ false
unfolding inc size_mod
inc-differs n = ground arith

pub inc-of_lt : (n : ℕ) → n < size_max → inc n ≡ n + 1
unfolding inc size_mod size_max
inc-of_lt n h = omega arith

pub dec-of_pos : (n : ℕ) → 0 < n → n ≤ size_max → dec n ≡ n - 1
unfolding dec size_mod size_max
dec-of_pos n h k = omega arith
