-- ===== src/Common/Float/Ops.antt =====
-- The interface, std::min, std::max and std::clamp over it, and the one law of IEEE 754 comparisons
-- that proofs name.
use Prim.Native.Nat.{ℕ}
use mathlib.Core.Path.{◌≡◌}
use mathlib.Core.Bool.{Bool, false}
use native.Mathlib.Omega.{arith}
use mu_tap.Common.Tests.{if◌then◌else◌}

pub record Float (S : Type 0) : Type 0 where
  pub of_ℕ : ℕ → S  -- static_cast from size_t, and whole literals
  pub dec : ℕ → ℕ → S  -- the literal m * 10^-k
  pub add : S → S → S
  pub sub : S → S → S
  pub mul : S → S → S
  pub div : S → S → S
  pub neg : S → S
  pub lt : S → S → Bool  -- x < y; false on a NaN
  pub le : S → S → Bool  -- x <= y
  pub eq : S → S → Bool  -- x == y
  pub is_finite : S → Bool
  pub to_ℕ : S → ℕ  -- static_cast to size_t
  pub infinity : S
  pub min_normal : S  -- std::numeric_limits<S>::min()
  pub largest : S  -- std::numeric_limits<S>::max()
  pub epsilon : S  -- std::numeric_limits<S>::epsilon()
  pub abs : S → S
  pub sqrt : S → S
  pub hypot : S → S → S
  pub exp : S → S
  pub log : S → S
  pub log10 : S → S
  pub pow : S → S → S
  pub tan : S → S
  pub cos : S → S
  pub sin : S → S
  pub pi : S
  pub ceil : S → S
  pub round : S → S

module _ {S : Type 0} ⦃f : Float S⦄ where
  open f use {lt}

  -- std::max, std::min and std::clamp, with the operand that each returns on a tie or a NaN.
  abbrev pub fmax : S → S → S
  fmax a b = if lt a b then b else a

  abbrev pub fmin : S → S → S
  fmin a b = if lt b a then b else a

  abbrev pub clamp : S → S → S → S
  clamp v lo hi = if lt v lo then lo else if lt hi v then hi else v

-- static_cast between the two precisions.
pub record Cast (S D : Type 0) : Type 0 where
  pub to_sample : D → S
  pub to_double : S → D

-- No float is below itself, NaN included (IEEE 754 comparisons).
pub record IsIrreflexive (S : Type 0) ⦃f : Float S⦄ : Type 0 where
  pub lt_irrefl : (x : S) → f.lt x x ≡ false

module _ {S : Type 0} ⦃f : Float S⦄ (laws : IsIrreflexive S) where
  open f use {lt}

  -- A clamped value is below neither bound from outside, whatever the value is.
  pub clamp_bounds :
      (v lo hi : S)
      → lt hi lo ≡ false
      → (lt (clamp v lo hi) lo ≡ false) × (lt hi (clamp v lo hi) ≡ false)
  clamp_bounds v lo hi h = ground (arith, laws.lt_irrefl lo, laws.lt_irrefl hi)
