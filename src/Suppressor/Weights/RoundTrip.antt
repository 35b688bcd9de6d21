-- ===== src/Suppressor/Weights/RoundTrip.antt =====
-- The image that tools/ml/export_weights.py writes is read back as it was (include/mutap/nn_suppressor.h: parse_nn_suppressor_weights()).
use mu_tap.Common.{
  ℕ, ◌*◌, ◌/◌, ◌%◌, ◌^◌, ◌≤◌, ◌<◌, ◌≡◌, refl, ap, ap₂, ◌∙◌, arith, true, false, List, [], ◌∷◌, ◌++◌,
  length, take, drop, All, append_assoc, length-append, take-append_le, take-all, drop-append_ge,
  Result, ok, ◌>>=◌, ltb,
}
use mu_tap.Common.Float.{Float}
use mu_tap.Suppressor.Weights.{
  WeightsError, Weights, mul_size, features, is_valid, max_floats, take_bytes, words, read_floats,
  same_bytes, magic_2, geometry_of, read_geometry, checked, read_arrays, parse,
}

abbrev pub IsWord : ℕ → Type 0
IsWord w = w < 2 ^ 32

-- tobytes() of an array of little-endian words.
unfoldable pub bytes_of : List ℕ → List ℕ
bytes_of [] = []
bytes_of (w ∷ ws) = w % 256 ∷ w / 256 % 256 ∷ w / 65_536 % 256 ∷ w / 16_777_216 % 256 ∷ bytes_of ws

length-bytes_of : (ws : List ℕ) → length (bytes_of ws) ≡ length ws * 4
unfolding bytes_of
length-bytes_of [] = omega arith
length-bytes_of (w ∷ ws) = omega (arith, length-bytes_of ws)

words-bytes_of : (ws : List ℕ) → All IsWord ws → words (bytes_of ws) ≡ ws
unfolding bytes_of words
words-bytes_of [] h = refl
words-bytes_of (w ∷ ws) (h, hs) = ap₂ ◌∷◌ (omega arith) (words-bytes_of ws hs)

take_bytes-append :
    (xs rest : List ℕ) (n : ℕ) → length xs ≡ n → take_bytes n (xs ++ rest) ≡ ok (xs, rest)
unfolding take_bytes
take_bytes-append xs rest n e =
    let front : take n (xs ++ rest) ≡ xs =
      take-append_le n xs rest (omega arith) ∙ take-all n xs (omega arith) in
    let back : drop n (xs ++ rest) ≡ rest =
      drop-append_ge n xs rest (omega arith) ∙ ap (λ k. drop k rest) {y = 0} (omega arith) in
    let fits : ltb (length (xs ++ rest)) n ≡ false = ground (arith, length-append xs rest) in
    rw (fits, front, back) refl

read_floats-bytes_of :
    (n : ℕ) (ws rest : List ℕ)
    → length ws ≡ n
    → n ≤ max_floats
    → All IsWord ws
    → read_floats n (bytes_of ws ++ rest) ≡ ok (ws, rest)
unfolding read_floats
read_floats-bytes_of n ws rest e fits h =
    let small : ltb max_floats n ≡ false = ground arith in
    rw
      (
        small,
        take_bytes-append (bytes_of ws) rest (n * 4) (omega (arith, length-bytes_of ws)),
        words-bytes_of ws h,
      )
      refl

-- What a std::vector<float> holds.
abbrev pub IsArray : List ℕ → Type 0
IsArray ws = All IsWord ws × (length ws ≤ max_floats)

-- The model to be exported, with the sample rate as the integer that the image holds.
pub record IsImage (w : Weights ℕ) : Type 0 where
  pub header :
      IsWord w.geometry.sample_rate
      × IsWord w.geometry.hop
      × IsWord w.geometry.bands
      × IsWord w.geometry.dense
      × IsWord w.geometry.gru
  pub dense_in_w : IsArray w.dense_in_w
  pub dense_in_b : IsArray w.dense_in_b
  pub gru_w_ih : IsArray w.gru_w_ih
  pub gru_w_hh : IsArray w.gru_w_hh
  pub gru_b_ih : IsArray w.gru_b_ih
  pub gru_b_hh : IsArray w.gru_b_hh
  pub dense_out_w : IsArray w.dense_out_w
  pub dense_out_b : IsArray w.dense_out_b

abbrev header_words : Weights ℕ → List ℕ
header_words w = let g = w.geometry in g.sample_rate ∷ g.hop ∷ g.bands ∷ g.dense ∷ g.gru ∷ []

-- The arrays, and what follows them.
unfoldable pub arrays : Weights ℕ → List ℕ → List ℕ
arrays w rest =
    bytes_of w.dense_in_w
    ++ (bytes_of w.dense_in_b
        ++ (bytes_of w.gru_w_ih
            ++ (bytes_of w.gru_w_hh
                ++ (bytes_of w.gru_b_ih
                    ++ (bytes_of w.gru_b_hh
                        ++ (bytes_of w.dense_out_w ++ (bytes_of w.dense_out_b ++ rest)))))))

-- export(): the magic, the five words, the eight arrays.
unfoldable pub export : Weights ℕ → List ℕ
unfolding arrays
export w = magic_2 ++ (bytes_of (header_words w) ++ arrays w [])

-- A read of an array off the front of the image, and what goes on from there.
read-then :
    {A : Type 0} (k : List ℕ × List ℕ → Result WeightsError A) (n : ℕ) (ws after : List ℕ)
    → length ws ≡ n
    → IsArray ws
    → (read_floats n (bytes_of ws ++ after) >>= k) ≡ k (ws, after)
read-then k n ws after e (small, fits) =
    ap (λ r. r >>= k) (read_floats-bytes_of n ws after e (omega (arith, e)) small)

arrays-append : (w : Weights ℕ) (rest : List ℕ) → arrays w [] ++ rest ≡ arrays w rest
unfolding arrays
arrays-append w rest = simp append_assoc

module _ {D : Type 0} ⦃d : Float D⦄ where
  -- The weights in memory.
  abbrev pub loaded : Weights ℕ → Weights D
  loaded w = record {
    geometry = geometry_of (header_words w);
    dense_in_w = w.dense_in_w;
    dense_in_b = w.dense_in_b;
    gru_w_ih = w.gru_w_ih;
    gru_w_hh = w.gru_w_hh;
    gru_b_ih = w.gru_b_ih;
    gru_b_hh = w.gru_b_hh;
    dense_out_w = w.dense_out_w;
    dense_out_b = w.dense_out_b;
  }

  -- The sizes that valid() compares, with their products of size_t.
  pub record FitsSizes (w : Weights D) : Type 0 where
    pub dense_in_w : length w.dense_in_w ≡ mul_size w.geometry.dense (features w.geometry)
    pub dense_in_b : length w.dense_in_b ≡ w.geometry.dense
    pub gru_w_ih : length w.gru_w_ih ≡ mul_size (mul_size 3 w.geometry.gru) w.geometry.dense
    pub gru_w_hh : length w.gru_w_hh ≡ mul_size (mul_size 3 w.geometry.gru) w.geometry.gru
    pub gru_b_ih : length w.gru_b_ih ≡ mul_size 3 w.geometry.gru
    pub gru_b_hh : length w.gru_b_hh ≡ mul_size 3 w.geometry.gru
    pub dense_out_w : length w.dense_out_w ≡ mul_size w.geometry.bands w.geometry.gru
    pub dense_out_b : length w.dense_out_b ≡ w.geometry.bands

  pub valid-FitsSizes : (w : Weights D) → is_valid w ≡ true → FitsSizes w
  unfolding is_valid
  valid-FitsSizes w h = ground arith

  read_arrays-arrays :
      (w : Weights ℕ) (rest : List ℕ)
      → IsImage w
      → is_valid (loaded w) ≡ true
      → read_arrays (geometry_of (header_words w)) (arrays w rest) ≡ ok (loaded w)
  unfolding read_arrays arrays checked
  read_arrays-arrays w rest v h =
      let z = valid-FitsSizes (loaded w) h in
      read-then _ _ w.dense_in_w _ z.dense_in_w v.dense_in_w
      ∙ read-then _ _ w.dense_in_b _ z.dense_in_b v.dense_in_b
      ∙ read-then _ _ w.gru_w_ih _ z.gru_w_ih v.gru_w_ih
      ∙ read-then _ _ w.gru_w_hh _ z.gru_w_hh v.gru_w_hh
      ∙ read-then _ _ w.gru_b_ih _ z.gru_b_ih v.gru_b_ih
      ∙ read-then _ _ w.gru_b_hh _ z.gru_b_hh v.gru_b_hh
      ∙ read-then _ _ w.dense_out_w _ z.dense_out_w v.dense_out_w
      ∙ read-then _ _ w.dense_out_b rest z.dense_out_b v.dense_out_b
      ∙ rw h refl

  read_geometry-header :
      (w : Weights ℕ) (after : List ℕ)
      → IsImage w
      → read_geometry {D = D} magic_2 (bytes_of (header_words w) ++ after)
        ≡ ok (geometry_of (header_words w), after)
  unfolding read_geometry same_bytes
  read_geometry-header w after v =
      let (a, b, c, e, g) = v.header in
      rw
        (
          take_bytes-append (bytes_of (header_words w)) after 20 (length-bytes_of (header_words w)),
          words-bytes_of (header_words w) (a, (b, (c, (e, (g, tt))))),
        )
        refl

  -- Export, then parse: the image of a model whose arrays fit their geometry is read back as that
  -- model, whatever bytes follow it.
  pub parse-export :
      (w : Weights ℕ) (rest : List ℕ)
      → IsImage w
      → is_valid (loaded w) ≡ true
      → parse (export w ++ rest) ≡ ok (loaded w)
  unfolding parse export
  parse-export w rest v h =
      let head = bytes_of (header_words w) in
      let regroup : (head ++ arrays w []) ++ rest ≡ head ++ arrays w rest =
        append_assoc head (arrays w []) rest ∙ ap (λ ys. head ++ ys) (arrays-append w rest) in
      ap (λ ys. parse (magic_2 ++ ys)) regroup
      ∙ ap
          (λ r. r >>= λ (magic, body).
            read_geometry magic body >>= λ (g, as_left). read_arrays g as_left)
          (take_bytes-append magic_2 (head ++ arrays w rest) 8 refl)
      ∙ ap (λ r. r >>= λ (g, as_left). read_arrays g as_left)
          (read_geometry-header w (arrays w rest) v)
      ∙ read_arrays-arrays w rest v h
