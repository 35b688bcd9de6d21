-- ===== src/Suppressor/Weights/Shape.antt =====
-- Weights that the parser accepts have the arrays that their geometry describes
-- (include/mutap/nn_suppressor.h: parse_nn_suppressor_weights(), valid()).
use mu_tap.Common.{
  ℕ, suc, zero, ◌*◌, ◌^◌, ◌≤◌, ◌<◌, ◌≡◌, ap, sym, ◌∙◌, subst, arith, true, Bool, List, [], ◌∷◌,
  length, take, drop, All, length-drop, Result, ok, err, ◌>>=◌, Bool-cases, inl, inr, ltb,
  if◌then◌else◌, passed, bind-parts, allowed, ok-injective, size_mod,
}
use native.Mathlib.Nat.{mul-le-mul, mod-eq_of_lt}
use mu_tap.Common.Float.{Float}
use mu_tap.Suppressor.Weights.{
  WeightsError, Geometry, Weights, mul_size, features, is_valid, max_floats, take_bytes, words,
  read_floats, same_bytes, magic_2, magic_1, bad_magic, default_geometry, geometry_of,
  read_geometry, checked, read_arrays, parse, truncated, too_long,
}
use mu_tap.Suppressor.Weights.RoundTrip.{IsWord, valid-FitsSizes}

abbrev pub IsByte : ℕ → Type 0
IsByte b = b < 256

take-IsByte : (n : ℕ) (xs : List ℕ) → All IsByte xs → All IsByte (take n xs)
take-IsByte zero xs h = tt
take-IsByte (suc n) [] h = tt
take-IsByte (suc n) (x ∷ xs) (h, hs) = (h, take-IsByte n xs hs)

drop-IsByte : (n : ℕ) (xs : List ℕ) → All IsByte xs → All IsByte (drop n xs)
drop-IsByte zero xs h = h
drop-IsByte (suc n) [] h = tt
drop-IsByte (suc n) (x ∷ xs) (h, hs) = drop-IsByte n xs hs

words-IsWord : (bytes : List ℕ) → All IsByte bytes → All IsWord (words bytes)
unfolding words
words-IsWord [] h = tt
words-IsWord (a ∷ []) h = tt
words-IsWord (a ∷ b ∷ []) h = tt
words-IsWord (a ∷ b ∷ c ∷ []) h = tt
words-IsWord (a ∷ b ∷ c ∷ e ∷ rest) (i, (j, (k, (l, hs)))) = (omega arith, words-IsWord rest hs)

take_bytes-parts :
    (n : ℕ) (rest : List ℕ) (r : List ℕ × List ℕ)
    → take_bytes n rest ≡ ok r
    → (n ≤ length rest) × (r ≡ (take n rest, drop n rest))
unfolding take_bytes
take_bytes-parts n rest r h =
    let (fits, same) = passed (ltb (length rest) n) truncated h in
    (ground arith, sym (ok-injective same))

-- An array that was read was in the image: four bytes for each float.
read_floats-fits :
    (n : ℕ) (rest : List ℕ) (r : List ℕ × List ℕ)
    → read_floats n rest ≡ ok r
    → (n * 4 ≤ length rest) × (length r.1 ≤ length rest)
unfolding read_floats
read_floats-fits n rest r h =
    let (few, next) = passed (ltb max_floats n) too_long h in
    let (bytes, taken, same) = bind-parts (take_bytes (n * 4) rest) _ r next in
    let (fits, cut) = take_bytes-parts (n * 4) rest bytes taken in
    let after : r.1 ≡ drop (n * 4) rest =
      ap (λ q. q.1) (sym (ok-injective same)) ∙ ap (λ q. q.1) cut in
    (fits, omega (arith, ap length after, length-drop (n * 4) rest))

mul_size-exact : (a b : ℕ) → a * b < 2 ^ 64 → mul_size a b ≡ a * b
unfolding mul_size size_mod
mul_size-exact a b h = mod-eq_of_lt h

mul_size-bounded : (a b : ℕ) → a ≤ 2 ^ 30 → b ≤ 2 ^ 31 → mul_size a b ≡ a * b
mul_size-bounded a b h k =
    let small : a * b ≤ 2 ^ 30 * 2 ^ 31 = mul-le-mul h k in mul_size-exact a b (omega arith)

module _ (D : Type 0) ⦃d : Float D⦄ where
  geometry_of-gru : (ws : List ℕ) → All IsWord ws → (geometry_of {D = D} ws).gru < 2 ^ 32
  unfolding geometry_of default_geometry
  geometry_of-gru [] h = omega arith
  geometry_of-gru (a ∷ []) h = omega arith
  geometry_of-gru (a ∷ b ∷ []) h = omega arith
  geometry_of-gru (a ∷ b ∷ c ∷ []) h = omega arith
  geometry_of-gru (a ∷ b ∷ c ∷ e ∷ []) h = omega arith
  geometry_of-gru (a ∷ b ∷ c ∷ e ∷ g ∷ more) h = omega (arith, h.1.1.1.1.0)

module _ {D : Type 0} ⦃d : Float D⦄ where
  read_geometry-fits :
      (magic rest : List ℕ) (r : Geometry D × List ℕ)
      → All IsByte rest
      → read_geometry magic rest ≡ ok r
      → (r.0.gru < 2 ^ 32) × (length r.1 ≤ length rest)
  unfolding read_geometry default_geometry
  read_geometry-fits magic rest r bytes h = elim (Bool-cases (same_bytes magic magic_2)) [
    | inl new ↦
        let h1 = ap (λ b. either b) (sym new) ∙ h in
        let (cut, taken, same) = bind-parts (take_bytes 20 rest) _ r h1 in
        let (fits, parts) = take_bytes-parts 20 rest cut taken in
        let made : r ≡ (geometry_of (words cut.0), cut.1) = sym (ok-injective same) in
        (
          subst (λ (g : Geometry D). g.gru < 2 ^ 32) (ap (λ q. q.0) (sym made))
              (geometry_of-gru D (words cut.0) (
                words-IsWord cut.0
                  (subst (All IsByte) (ap (λ q. q.0) (sym parts)) (take-IsByte 20 rest bytes)))),
          omega (arith, ap (λ q. length q.1) made, ap (λ q. length q.1) parts, length-drop 20 rest),
        )
    | inr old ↦
        let h1 = ap (λ b. either b) (sym old) ∙ h in
        let (known, same) = allowed (same_bytes magic magic_1) bad_magic h1 in
        (
          subst (λ (q : Geometry D × List ℕ). q.0.gru < 2 ^ 32) same (omega arith),
          omega (arith, ap (λ q. length q.1) same),
        )
  ]
    where
      either : Bool → Result WeightsError (Geometry D × List ℕ)
      either b =
          if b
          then (take_bytes 20 rest >>= λ (bytes, after). ok (geometry_of (words bytes), after))
          else if same_bytes magic magic_1
          then ok (default_geometry, rest)
          else err bad_magic

  -- The bounds that the image's length puts on a geometry.
  abbrev IsBounded : ℕ → Geometry D → Type 0
  IsBounded n g = (g.dense * 4 ≤ n) × (mul_size 3 g.gru * 4 ≤ n) × (g.bands * 4 ≤ n)

  checked-valid : (v w : Weights D) → checked v ≡ ok w → (v ≡ w) × (is_valid w ≡ true)
  unfolding checked
  checked-valid v w h =
      let (valid, same) = allowed (is_valid v) _ h in
      (same, subst (λ u. is_valid u ≡ true) same valid)

  read_arrays-fits :
      (g : Geometry D) (image : List ℕ) (w : Weights D)
      → read_arrays g image ≡ ok w
      → (w.geometry ≡ g) × (is_valid w ≡ true) × IsBounded (length image) g
  unfolding read_arrays
  read_arrays-fits g image w h =
      let (a, ea, ha) = bind-parts (read_floats (mul_size g.dense (features g)) image) _ w h in
      let (b, eb, hb) = bind-parts (read_floats g.dense a.1) _ w ha in
      let (i, ei, hi) = bind-parts (read_floats (mul_size (mul_size 3 g.gru) g.dense) b.1) _ w hb in
      let (j, ej, hj) = bind-parts (read_floats (mul_size (mul_size 3 g.gru) g.gru) i.1) _ w hi in
      let (k, ek, hk) = bind-parts (read_floats (mul_size 3 g.gru) j.1) _ w hj in
      let (l, el, hl) = bind-parts (read_floats (mul_size 3 g.gru) k.1) _ w hk in
      let (o, eo, ho) = bind-parts (read_floats (mul_size g.bands g.gru) l.1) _ w hl in
      let (p, ep, hp) = bind-parts (read_floats g.bands o.1) _ w ho in
      let (same, valid) = checked-valid _ w hp in
      let fa = read_floats-fits _ image a ea in
      let fb = read_floats-fits _ a.1 b eb in
      let fi = read_floats-fits _ b.1 i ei in
      let fj = read_floats-fits _ i.1 j ej in
      let fk = read_floats-fits _ j.1 k ek in
      let fl = read_floats-fits _ k.1 l el in
      let fo = read_floats-fits _ l.1 o eo in
      let fp = read_floats-fits _ o.1 p ep in
      (
        ap (λ (v : Weights D). v.geometry) (sym same),
        valid,
        (
          omega (arith, fa.1, fb.0),
          omega (arith, fa.1, fb.1, fi.1, fj.1, fk.0),
          omega (arith, fa.1, fb.1, fi.1, fj.1, fk.1, fl.1, fo.1, fp.0),
        ),
      )

  -- The sizes that a geometry describes, in the naturals.
  pub record IsShaped (w : Weights D) : Type 0 where
    pub dense_in_w : length w.dense_in_w ≡ w.geometry.dense * (2 * w.geometry.bands)
    pub dense_in_b : length w.dense_in_b ≡ w.geometry.dense
    pub gru_w_ih : length w.gru_w_ih ≡ 3 * w.geometry.gru * w.geometry.dense
    pub gru_w_hh : length w.gru_w_hh ≡ 3 * w.geometry.gru * w.geometry.gru
    pub gru_b_ih : length w.gru_b_ih ≡ 3 * w.geometry.gru
    pub gru_b_hh : length w.gru_b_hh ≡ 3 * w.geometry.gru
    pub dense_out_w : length w.dense_out_w ≡ w.geometry.bands * w.geometry.gru
    pub dense_out_b : length w.dense_out_b ≡ w.geometry.bands

  bounded-IsShaped :
      (w : Weights D)
      → is_valid w ≡ true
      → w.geometry.gru < 2 ^ 32
      → IsBounded (2 ^ 32) w.geometry
      → IsShaped w
  unfolding features
  bounded-IsShaped w valid word (dense, gru, bands) =
      let g = w.geometry in
      let fits = valid-FitsSizes w valid in
      let three : mul_size 3 g.gru ≡ 3 * g.gru = mul_size-exact 3 g.gru (omega arith) in
      let two : mul_size 2 g.bands ≡ 2 * g.bands = mul_size-exact 2 g.bands (omega arith) in
      let bd : g.dense ≤ 2 ^ 30 = omega arith in
      let bb : 2 * g.bands ≤ 2 ^ 31 = omega arith in
      let bg : 3 * g.gru ≤ 2 ^ 30 = omega (arith, three) in
      record {
        dense_in_w =
            fits.dense_in_w
            ∙ ap (mul_size g.dense) two
            ∙ mul_size-bounded g.dense (2 * g.bands) bd bb;
        dense_in_b = fits.dense_in_b;
        gru_w_ih =
            fits.gru_w_ih
            ∙ ap (λ n. mul_size n g.dense) three
            ∙ mul_size-bounded (3 * g.gru) g.dense bg (omega (arith, bd));
        gru_w_hh =
            fits.gru_w_hh
            ∙ ap (λ n. mul_size n g.gru) three
            ∙ mul_size-bounded (3 * g.gru) g.gru bg (omega (arith, bg));
        gru_b_ih = fits.gru_b_ih ∙ three;
        gru_b_hh = fits.gru_b_hh ∙ three;
        dense_out_w =
            fits.dense_out_w ∙ mul_size-bounded g.bands g.gru (omega arith) (omega (arith, bg));
        dense_out_b = fits.dense_out_b;
      }

  -- Whatever the bytes of an image of at most 4 GiB are, weights that the parser returns pass valid(),
  -- and each of their arrays has exactly the size that the geometry describes: no product of sizes
  -- wraps in a size_t of 64 bits, since an image of that length has no room for the arrays of a
  -- geometry large enough.
  pub parse-IsShaped :
      (image : List ℕ) (w : Weights D)
      → All IsByte image
      → length image ≤ 2 ^ 32
      → parse image ≡ ok w
      → (is_valid w ≡ true) × IsShaped w
  unfolding parse
  parse-IsShaped image w bytes short h =
      let (cut, e1, h1) = bind-parts (take_bytes 8 image) _ w h in
      let (q, e2, h2) = bind-parts (read_geometry cut.0 cut.1) _ w h1 in
      let (room, parts) = take_bytes-parts 8 image cut e1 in
      let rest : cut.1 ≡ drop 8 image = ap (λ r. r.1) parts in
      let (word, left) =
        read_geometry-fits cut.0 cut.1 q (subst (All IsByte) (sym rest) (drop-IsByte 8 image bytes))
          e2 in
      let (same, valid, (dense, gru, bands)) = read_arrays-fits q.0 q.1 w h2 in
      let small : length q.1 ≤ 2 ^ 32 =
        omega (arith, short, left, ap length rest, length-drop 8 image) in
      (
        valid,
        bounded-IsShaped w valid (subst (λ (g : Geometry D). g.gru < 2 ^ 32) (sym same) word) (
            subst (IsBounded (2 ^ 32)) (sym same)
              (omega (arith, small), omega (arith, small), omega (arith, small))),
      )
