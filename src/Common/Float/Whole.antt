-- ===== src/Common/Float/Whole.antt =====
-- A concrete instance: whole numbers with a NaN, which shows that the interface and its law can be
-- met and runs the tests. A decimal is rounded up, and the transcendental functions have whole-number
-- stand-ins.
use Prim.Native.Nat.{ℕ, ◌+◌, ◌-◌, ◌/◌, ◌^◌}
use mathlib.Core.Path.{◌≡◌, refl}
use mathlib.Core.Bool.{Bool, true, false}
use mathlib.Core.Option.{Option, none, some}
use native.Mathlib.Omega.{arith}
use mu_tap.Common.Tests.{if◌then◌else◌}
use mu_tap.Common.Int.{ℤ, pos, negsuc, pos_part, ◌+ℤ◌, ◌*ℤ◌, neg_ℤ, div_ℤ, ltb_ℤ, leb_ℤ, eqb_ℤ}
use mu_tap.Common.Float.Ops.{Float, Cast, IsIrreflexive}

abbrev pub Fixed : Type 0
Fixed = Option ℤ

abbrev pub lift : (ℤ → ℤ → ℤ) → Fixed → Fixed → Fixed
lift g (some a) (some b) = some (g a b)
lift g _ _ = none

abbrev pub test : (ℤ → ℤ → Bool) → Fixed → Fixed → Bool
test g (some a) (some b) = g a b
test g _ _ = false

abbrev pub quotient : Fixed → Fixed → Fixed
quotient (some a) (some b) = if eqb_ℤ b (pos 0) then none else some (div_ℤ a b)
quotient _ _ = none

abbrev pub negate : Fixed → Fixed
negate (some a) = some (neg_ℤ a)
negate none = none

abbrev pub is_number : Fixed → Bool
is_number (some a) = true
is_number none = false

abbrev pub truncate : Fixed → ℕ
truncate (some a) = pos_part a
truncate none = 0

instance abbrev pub fixed_float : Float Fixed
fixed_float = record {
  of_ℕ = λ n. some (pos n);
  dec = λ m k. some (pos ((m + 10 ^ k - 1) / 10 ^ k));
  add = lift ◌+ℤ◌;
  sub = lift λ a b. a +ℤ neg_ℤ b;
  mul = lift ◌*ℤ◌;
  div = quotient;
  neg = negate;
  lt = test ltb_ℤ;
  le = test leb_ℤ;
  eq = test eqb_ℤ;
  is_finite = is_number;
  to_ℕ = truncate;
  infinity = some (pos 1_000_000_000_000);
  min_normal = some (pos 1);
  largest = some (pos 1_000_000);
  epsilon = some (pos 1);
  abs = λ x. x;
  sqrt = λ x. x;
  hypot = lift ◌+ℤ◌;
  exp = λ x. x;
  log = λ x. x;
  log10 = λ x. x;
  pow = λ x y. y;
  tan = λ x. lift ◌+ℤ◌ x (some (pos 1));
  cos = λ x. some (pos 1);
  sin = λ x. some (pos 0);
  pi = some (pos 3);
  ceil = λ x. x;
  round = λ x. x;
}

instance abbrev pub fixed_cast : Cast Fixed Fixed
fixed_cast = record { to_sample = λ x. x; to_double = λ x. x }

lt_irrefl_lem : (x : Fixed) → fixed_float.lt x x ≡ false
lt_irrefl_lem none = refl
lt_irrefl_lem (some (pos n)) = ground arith
lt_irrefl_lem (some (negsuc n)) = ground arith

pub Fixed-IsIrreflexive : IsIrreflexive Fixed
Fixed-IsIrreflexive = record { lt_irrefl = lt_irrefl_lem }
