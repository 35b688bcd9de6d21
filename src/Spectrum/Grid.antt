-- ===== src/Spectrum/Grid.antt =====
-- The sizes of the filters' arrays (include/mutap/fdaf.h, fd_kalman.h, pem_afc.h: the members).
use mu_tap.Common.{
  ℕ, zero, suc, ◌+◌, ◌-◌, ◌%◌, ◌<◌, ◌≡◌, refl, ap, ap₂, sym, ◌∙◌, arith, List, [], ◌∷◌, map, length,
  set, modify, replicate, All, length-set, length-modify, length-replicate, length-modify, All-set,
}
use native.Mathlib.Nat.{mod-lt}
use mu_tap.Common.Float.{Float}
use mu_tap.Spectrum.{Fft, Reference, loop, zeros, take_block, clear_reference}
use mu_tap.Spectrum.Window.{length-slide_in}

-- p_n rows of n entries.
abbrev pub IsGrid : {A : Type 0} → ℕ → ℕ → List (List A) → Type 0
IsGrid p_n n rows = (length rows ≡ p_n) × All (λ row. length row ≡ n) rows

-- The transforms of the engine give as many slots as they take.
abbrev pub IsSizedFft : {S : Type 0} → Fft S → Type 0
IsSizedFft {S} t =
    ((xs : List S) → length (t.forward xs) ≡ length xs)
    × ((xs : List S) → length (t.inverse xs) ≡ length xs)

abbrev pub IsReference : {S : Type 0} → ℕ → ℕ → Reference S → Type 0
IsReference b p_n r = (length r.input ≡ b + b) × IsGrid p_n (b + b) r.u × (r.head < p_n)

-- What every turn of a loop keeps, the loop keeps.
pub loop-keeps :
    {A : Type 0} (P : A → Type 0) (body : ℕ → A → A)
    → ((k : ℕ) (st : A) → P st → P (body k st))
    → (n k : ℕ) (st : A) → P st
    → P (loop body n k st)
loop-keeps P body keep zero k st h = h
loop-keeps P body keep (suc n) k st h = loop-keeps P body keep n (k + 1) (body k st) (keep k st h)

pub length-loop :
    {A : Type 0} (body : ℕ → List A → List A)
    → ((k : ℕ) (row : List A) → length (body k row) ≡ length row)
    → (n k : ℕ) (row : List A) → length (loop body n k row) ≡ length row
length-loop body keep zero k row = refl
length-loop body keep (suc n) k row = length-loop body keep n (k + 1) (body k row) ∙ keep k row

-- Two updates of a list keep its length.
pub length-modify₂ :
    {A : Type 0} (row : List A) (i j : ℕ) (g h : A → A)
    → length (modify (modify row i g) j h) ≡ length row
length-modify₂ row i j g h = length-modify (modify row i g) j h ∙ length-modify row i g

module _ {A : Type 0} where
  pub set-IsGrid :
      (p_n n : ℕ) (rows : List (List A)) (i : ℕ) (row : List A)
      → length row ≡ n
      → IsGrid p_n n rows
      → IsGrid p_n n (set rows i row)
  set-IsGrid p_n n rows i row size (len, all) =
      (length-set rows i row ∙ len, All-set (λ r. length r ≡ n) rows i row size all)

  pub replicate-IsGrid : (p_n n : ℕ) (a : A) → IsGrid p_n n (replicate p_n (replicate n a))
  replicate-IsGrid zero n a = (refl, tt)
  replicate-IsGrid (suc p_n) n a =
      let (len, all) = replicate-IsGrid p_n n a in (ap suc len, (length-replicate n a, all))

module _ {S : Type 0} where
  pub map_constant : (v : S) (xs : List S) (n : ℕ) → length xs ≡ n → map (λ x. v) xs ≡ replicate n v
  map_constant v [] zero h = refl
  map_constant v [] (suc n) h = absurd (omega arith)
  map_constant v (x ∷ xs) zero h = absurd (omega arith)
  map_constant v (x ∷ xs) (suc n) h = ap (◌∷◌ v) (map_constant v xs n (omega arith))

module _ {S : Type 0} ⦃f : Float S⦄ where
  pub zeros_lem : (xs : List S) (n : ℕ) → length xs ≡ n → zeros xs ≡ replicate n (f.of_ℕ 0)
  zeros_lem xs n h = map_constant (f.of_ℕ 0) xs n h

  -- A cleared grid depends on its sizes only.
  pub zeros-IsGrid :
      (p_n n : ℕ) (rows : List (List S))
      → IsGrid p_n n rows
      → map zeros rows ≡ replicate p_n (replicate n (f.of_ℕ 0))
  zeros-IsGrid zero n [] h = refl
  zeros-IsGrid zero n (row ∷ rows) (len, all) = absurd (omega arith)
  zeros-IsGrid (suc p_n) n [] (len, all) = absurd (omega arith)
  zeros-IsGrid (suc p_n) n (row ∷ rows) (len, (size, all)) =
      ap₂ (◌∷◌) (zeros_lem row n size) (zeros-IsGrid p_n n rows (omega arith, all))

module _ {S : Type 0} ⦃f : Float S⦄ ⦃t : Fft S⦄ where
  pub take_block-IsReference :
      (b p_n : ℕ) (ins : List S) (r : Reference S)
      → IsSizedFft t
      → IsReference b p_n r
      → IsReference b p_n (take_block b p_n ins r)
  unfolding take_block
  take_block-IsReference b p_n ins r (forward, inverse) (len, grid, inside) =
      let size = length-slide_in b 0 ins r.input ∙ len in
      (
        size,
        set-IsGrid p_n (b + b) r.u ((r.head + 1) % p_n) _ (forward _ ∙ size) grid,
        mod-lt (r.head + 1) (omega arith),
      )

  -- To clear a reference after a block is to clear it before.
  pub clear_reference-take_block :
      (b p_n : ℕ) (ins : List S) (r : Reference S)
      → IsSizedFft t
      → IsReference b p_n r
      → clear_reference p_n (take_block b p_n ins r) ≡ clear_reference p_n r
  unfolding clear_reference
  clear_reference-take_block b p_n ins r sized inside =
      let (len, grid, bound) = inside in
      let (len', grid', bound') = take_block-IsReference b p_n ins r sized inside in
      ap₂ (λ input u. record { input = input; u = u; head = p_n - 1 })
        (zeros_lem _ (b + b) len' ∙ sym (zeros_lem r.input (b + b) len))
        (zeros-IsGrid p_n (b + b) _ grid' ∙ sym (zeros-IsGrid p_n (b + b) r.u grid))
