-- ===== src/Suppressor/Weights.antt =====
-- The trained weights and the parser of their image (include/mutap/nn_suppressor.h: nn_geometry,
-- nn_suppressor_weights, parse_nn_suppressor_weights(), load_nn_suppressor_weights()).
pub mod RoundTrip
pub mod Shape
use mu_tap.Common.{
  ℕ, zero, suc, ◌+◌, ◌-◌, ◌*◌, ◌/◌, ◌%◌, ◌^◌, ◌==◌, Bool, true, false, ◌&&◌, not, List, [], ◌∷◌,
  ltb, leb, length, take, drop, if◌then◌else◌, size_mod, Option, none, some, Result, ok, err, ◌>>=◌,
}
use Prim.Native.Nat.{bit_and}
use mu_tap.Common.Float.{Float}

-- What is thrown: the std::runtime_errors, and std::vector's std::length_error.
pub data WeightsError : Type 0 where
  truncated bad_magic too_long invalid cannot_open short_read : WeightsError

pub record Geometry (D : Type 0) : Type 0 where
  pub sample_rate : D
  pub hop : ℕ
  pub bands : ℕ
  pub dense : ℕ
  pub gru : ℕ

-- A float32 is its bit pattern: the arrays are only copied.
pub record Weights (D : Type 0) : Type 0 where
  pub geometry : Geometry D
  pub dense_in_w : List ℕ
  pub dense_in_b : List ℕ
  pub gru_w_ih : List ℕ
  pub gru_w_hh : List ℕ
  pub gru_b_ih : List ℕ
  pub gru_b_hh : List ℕ
  pub dense_out_w : List ℕ
  pub dense_out_b : List ℕ

-- A product of size_t wraps.
unfoldable pub mul_size : ℕ → ℕ → ℕ
mul_size a b = a * b % size_mod

-- A power of 2, or 0: (n & (n - 1)) == 0.
unfoldable pub is_power : ℕ → Bool
is_power n = bit_and n (n - 1) == 0

module _ {D : Type 0} where
  unfoldable pub frame : Geometry D → ℕ
  frame g = mul_size 2 g.hop

  unfoldable pub bins : Geometry D → ℕ
  bins g = (g.hop + 1) % size_mod

  unfoldable pub features : Geometry D → ℕ
  features g = mul_size 2 g.bands

module _ {D : Type 0} ⦃d : Float D⦄ where
  unfoldable pub is_valid : Weights D → Bool
  is_valid w =
      let g = w.geometry in
      leb 16 g.hop
      && is_power g.hop
      && d.lt (d.of_ℕ 0) g.sample_rate
      && leb 4 g.bands
      && leb 1 g.dense
      && leb 1 g.gru
      && length w.dense_in_w == mul_size g.dense (features g)
      && length w.dense_in_b == g.dense
      && length w.gru_w_ih == mul_size (mul_size 3 g.gru) g.dense
      && length w.gru_w_hh == mul_size (mul_size 3 g.gru) g.gru
      && length w.gru_b_ih == mul_size 3 g.gru
      && length w.gru_b_hh == mul_size 3 g.gru
      && length w.dense_out_w == mul_size g.bands g.gru
      && length w.dense_out_b == g.bands

-- std::vector<float>::max_size().
unfoldable pub max_floats : ℕ
max_floats = 2 ^ 61 - 1

-- memcpy of n bytes off the front of what is left of the image.
unfoldable pub take_bytes : ℕ → List ℕ → Result WeightsError (List ℕ × List ℕ)
take_bytes n rest = if ltb (length rest) n then err truncated else ok (take n rest, drop n rest)

-- Little-endian 32-bit words.
unfoldable pub words : List ℕ → List ℕ
words (a ∷ b ∷ c ∷ e ∷ rest) = (a + 256 * b + 65_536 * c + 16_777_216 * e) ∷ words rest
words _ = []

-- `read`: resize, then the copy.
unfoldable pub read_floats : ℕ → List ℕ → Result WeightsError (List ℕ × List ℕ)
read_floats n rest =
    if ltb max_floats n
    then err too_long
    else take_bytes (n * 4) rest >>= λ (bytes, after). ok (words bytes, after)

unfoldable pub same_bytes : List ℕ → List ℕ → Bool
same_bytes [] [] = true
same_bytes (a ∷ xs) (b ∷ ys) = a == b && same_bytes xs ys
same_bytes _ _ = false

-- "MUNN0002" and "MUNN0001".
abbrev pub magic_2 : List ℕ
magic_2 = 77 ∷ 85 ∷ 78 ∷ 78 ∷ 48 ∷ 48 ∷ 48 ∷ 50 ∷ []

abbrev pub magic_1 : List ℕ
magic_1 = 77 ∷ 85 ∷ 78 ∷ 78 ∷ 48 ∷ 48 ∷ 48 ∷ 49 ∷ []

module _ {D : Type 0} ⦃d : Float D⦄ where
  -- The geometry of a default-constructed nn_geometry, which an old image has.
  unfoldable pub default_geometry : Geometry D
  default_geometry = record {
    sample_rate = d.of_ℕ 16_000;
    hop = 64;
    bands = 22;
    dense = 64;
    gru = 96;
  }

  -- The five header words.
  unfoldable pub geometry_of : List ℕ → Geometry D
  geometry_of (rate ∷ hop ∷ bands ∷ dense ∷ gru ∷ more) = record {
    sample_rate = d.of_ℕ rate;
    hop = hop;
    bands = bands;
    dense = dense;
    gru = gru;
  }
  geometry_of _ = default_geometry

  unfoldable pub read_geometry : List ℕ → List ℕ → Result WeightsError (Geometry D × List ℕ)
  read_geometry magic rest =
      if same_bytes magic magic_2
      then (take_bytes 20 rest >>= λ (bytes, after). ok (geometry_of (words bytes), after))
      else if same_bytes magic magic_1
      then ok (default_geometry, rest)
      else err bad_magic

  unfoldable pub checked : Weights D → Result WeightsError (Weights D)
  checked w = if is_valid w then ok w else err invalid

  unfoldable pub read_arrays : Geometry D → List ℕ → Result WeightsError (Weights D)
  read_arrays g r0 = do
    (dense_in_w, r1) ← read_floats (mul_size g.dense (features g)) r0
    (dense_in_b, r2) ← read_floats g.dense r1
    (gru_w_ih, r3) ← read_floats (mul_size (mul_size 3 g.gru) g.dense) r2
    (gru_w_hh, r4) ← read_floats (mul_size (mul_size 3 g.gru) g.gru) r3
    (gru_b_ih, r5) ← read_floats (mul_size 3 g.gru) r4
    (gru_b_hh, r6) ← read_floats (mul_size 3 g.gru) r5
    (dense_out_w, r7) ← read_floats (mul_size g.bands g.gru) r6
    (dense_out_b, r8) ← read_floats g.bands r7
    checked (record {
      geometry = g;
      dense_in_w = dense_in_w;
      dense_in_b = dense_in_b;
      gru_w_ih = gru_w_ih;
      gru_w_hh = gru_w_hh;
      gru_b_ih = gru_b_ih;
      gru_b_hh = gru_b_hh;
      dense_out_w = dense_out_w;
      dense_out_b = dense_out_b;
    })

  -- parse_nn_suppressor_weights().
  unfoldable pub parse : List ℕ → Result WeightsError (Weights D)
  parse image = do
    (magic, body) ← take_bytes 8 image
    (g, arrays) ← read_geometry magic body
    read_arrays g arrays

  -- load_nn_suppressor_weights(): the size that ftell() gave and what fread() got, or no file.
  unfoldable pub load : Option (ℕ × List ℕ) → Result WeightsError (Weights D)
  load none = err cannot_open
  load (some (size, image)) = if length image == size then parse image else err short_read
