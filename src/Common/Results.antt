-- ===== src/Common/Results.antt =====
-- What a constructor that may throw returns.
use mathlib.Core.Path.{◌≡◌, refl}
use mathlib.Core.Bool.{Bool, true, false}
use mu_tap.Common.Tests.{if◌then◌else◌}

pub data Result (E A : Type 0) : Type 0 where
  ok : A → Result E A
  err : E → Result E A

infixl 5 ◌>>=◌
abbrev pub ◌>>=◌ : {E A B : Type 0} → Result E A → (A → Result E B) → Result E B
ok a >>= k = k a
err e >>= k = err e

pub ok-injective : {E A : Type 0} {a b : A} → ◌≡◌ {A = Result E A} (ok a) (ok b) → a ≡ b
ok-injective h = cc

-- A check that did not throw, and what follows it.
pub passed :
    {E A : Type 0} (b : Bool) (e : E) {m : Result E A} {a : A}
    → ◌≡◌ {A = Result E A} (if b then err e else m) (ok a)
    → (b ≡ false) × (m ≡ ok a)
passed true e h = absurd cc
passed false e h = (refl, h)

-- What holds of every result of a continuation holds of the bind.
pub bind-ok :
    {E A B P : Type 0} (m : Result E A) (k : A → Result E B) (b : B)
    → ((a : A) → k a ≡ ok b → P)
    → (m >>= k) ≡ ok b
    → P
bind-ok (ok a) k b next h = next a h
bind-ok (err e) k b next h = absurd cc

-- A bind that succeeded, and its two parts.
pub bind-parts :
    {E A B : Type 0} (m : Result E A) (k : A → Result E B) (b : B)
    → (m >>= k) ≡ ok b
    → (a : A) × (m ≡ ok a) × (k a ≡ ok b)
bind-parts (ok a) k b h = (a, refl, h)
bind-parts (err e) k b h = absurd cc

-- The other way round: a check that must hold.
pub allowed :
    {E A : Type 0} (b : Bool) (e : E) {a k : A}
    → ◌≡◌ {A = Result E A} (if b then ok a else err e) (ok k)
    → (b ≡ true) × (a ≡ k)
allowed true e h = (refl, cc)
allowed false e h = absurd cc
