-- ===== src/Chain/Ring.antt =====
-- The chain's delay lines (include/mutap/afc_chain.h: advance(), ring_read(), ring_write()).
pub mod Delay
use mu_tap.Common.{
  ℕ, zero, suc, ◌+◌, ◌-◌, List, [], ◌∷◌, ◌++◌, ltb, leb, length, take, drop, if◌then◌else◌,
  write_at,
}
use mu_tap.Common.Float.{Float}
use mu_tap.Detector.Loops.{at}

unfoldable pub advance : ℕ → ℕ → ℕ → ℕ
advance pos b size = let next = pos + b in if leb size next then next - size else next

-- The samples before the wrap.
unfoldable pub first_run : ℕ → ℕ → ℕ → ℕ
first_run size pos b = if ltb (size - pos) b then size - pos else b

unfoldable pub copy_out : {S : Type 0} ⦃f : Float S⦄ → ℕ → ℕ → List S → List S
copy_out zero i ring = []
copy_out (suc n) i ring = at ring i ∷ copy_out n (i + 1) ring

unfoldable pub ring_read : {S : Type 0} ⦃f : Float S⦄ → List S → ℕ → ℕ → List S
unfolding first_run copy_out
ring_read ring pos b =
    let first = first_run (length ring) pos b in
    copy_out first pos ring ++ copy_out (b - first) 0 ring

unfoldable pub ring_write : {S : Type 0} → List S → ℕ → List S → List S
unfolding first_run
ring_write ring pos src =
    let first = first_run (length ring) pos (length src) in
    write_at 0 (drop first src) (write_at pos (take first src) ring)
