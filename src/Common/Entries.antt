-- ===== src/Common/Entries.antt =====
-- Entries of joined and cut lists.
use Prim.Native.Nat.{ℕ, zero, suc, ◌+◌, ◌-◌, ◌≤◌, ◌<◌}
use mathlib.Core.Path.{◌≡◌, refl, ap, ap₂, ◌∙◌}
use mathlib.Core.List.{List, [], ◌∷◌, ◌++◌}
use native.Mathlib.Omega.{arith}
use mu_tap.Common.Lists.{length, take, drop, get_or}

module _ {ℓ} {A : Type ℓ} where
  pub get_or-append_lt :
      (xs ys : List A) (i : ℕ) (d : A) → i < length xs → get_or (xs ++ ys) i d ≡ get_or xs i d
  get_or-append_lt [] ys i d h = absurd (omega arith)
  get_or-append_lt (x ∷ xs) ys zero d h = refl
  get_or-append_lt (x ∷ xs) ys (suc i) d h = get_or-append_lt xs ys i d (omega arith)

  pub get_or-append_ge :
      (xs ys : List A) (i : ℕ) (d : A)
      → length xs ≤ i
      → get_or (xs ++ ys) i d ≡ get_or ys (i - length xs) d
  get_or-append_ge [] ys i d h = ap (λ k. get_or ys k d) (omega arith)
  get_or-append_ge (x ∷ xs) ys zero d h = absurd (omega arith)
  get_or-append_ge (x ∷ xs) ys (suc i) d h =
      get_or-append_ge xs ys i d (omega arith) ∙ ap (λ k. get_or ys k d) (omega arith)

  pub get_or-drop :
      (n : ℕ) (xs : List A) (i : ℕ) (d : A) → get_or (drop n xs) i d ≡ get_or xs (n + i) d
  get_or-drop zero xs i d = ap (λ k. get_or xs k d) (omega arith)
  get_or-drop (suc n) [] i d = refl
  get_or-drop (suc n) (x ∷ xs) i d =
      get_or-drop n xs i d ∙ ap (λ k. get_or (x ∷ xs) k d) {x = suc (n + i)} (omega arith)

  pub get_or-take :
      (n : ℕ) (xs : List A) (i : ℕ) (d : A) → i < n → get_or (take n xs) i d ≡ get_or xs i d
  get_or-take zero xs i d h = absurd (omega arith)
  get_or-take (suc n) [] i d h = refl
  get_or-take (suc n) (x ∷ xs) zero d h = refl
  get_or-take (suc n) (x ∷ xs) (suc i) d h = get_or-take n xs i d (omega arith)

  -- Lists of one length and the same entries are the same.
  pub same_entries :
      (d : A) (xs ys : List A)
      → length xs ≡ length ys
      → ((i : ℕ) → i < length xs → get_or xs i d ≡ get_or ys i d)
      → xs ≡ ys
  same_entries d [] [] h e = refl
  same_entries d [] (y ∷ ys) h e = absurd (omega arith)
  same_entries d (x ∷ xs) [] h e = absurd (omega arith)
  same_entries d (x ∷ xs) (y ∷ ys) h e =
      ap₂ (◌∷◌) (e 0 (omega arith))
        (same_entries d xs ys (omega arith) (λ i inside. e (suc i) (omega arith)))

  pub drop-get_or :
      (i : ℕ) (xs : List A) (d : A) → i < length xs → drop i xs ≡ get_or xs i d ∷ drop (i + 1) xs
  drop-get_or i [] d h = absurd (omega arith)
  drop-get_or zero (x ∷ xs) d h = refl
  drop-get_or (suc i) (x ∷ xs) d h =
      drop-get_or i xs d (omega arith)
      ∙ ap (λ k. get_or xs i d ∷ drop k (x ∷ xs)) {x = suc (i + 1)} (omega arith)

  take_next :
      (n : ℕ) (xs : List A) (d : A)
      → n < length xs
      → take n xs ++ get_or xs n d ∷ [] ≡ take (suc n) xs
  take_next n [] d h = absurd (omega arith)
  take_next zero (x ∷ xs) d h = refl
  take_next (suc n) (x ∷ xs) d h = ap (◌∷◌ x) (take_next n xs d (omega arith))

  -- A window moves on by one entry.
  pub slide :
      (n : ℕ) (xs : List A) (d : A)
      → n < length xs
      → drop 1 (take n xs ++ get_or xs n d ∷ []) ≡ take n (drop 1 xs)
  slide n [] d h = absurd (omega arith)
  slide n (x ∷ xs) d h = ap (drop 1) (take_next n (x ∷ xs) d h)
