-- ===== src/Suppressor/Noise.antt =====
-- The noise floor and the comfort noise (include/mutap/nn_suppressor.h: update_floor(),
-- next_noise(), comfort_fill()).
use mu_tap.Common.{
  ℕ, ◌+◌, ◌*◌, ◌/◌, ◌%◌, ◌^◌, ◌==◌, Bool, List, ◌∷◌, map, modify, leb, if◌then◌else◌,
}
use Prim.Native.Nat.{bit_xor}
use mu_tap.Common.Float.{Float, fmin}
use mu_tap.Detector.Loops.{at}
use mu_tap.Spectrum.{loop}

-- The tracker's and the generator's part of the config.
pub record NoiseConfig (S : Type 0) : Type 0 where
  pub comfort_noise : Bool
  pub floor_smoothing : S
  pub floor_window : ℕ
  pub floor_bias : S

-- m_floor, m_min_cur, m_min_prev and m_min_count.
pub record FloorState (S : Type 0) : Type 0 where
  pub floor : List S
  pub min_cur : List S
  pub min_prev : List S
  pub min_count : ℕ

-- xorshift32.
unfoldable pub xorshift : ℕ → ℕ
xorshift r0 =
    let r1 = bit_xor r0 (r0 * 2 ^ 13 % 2 ^ 32) in
    let r2 = bit_xor r1 (r1 / 2 ^ 17) in bit_xor r2 (r2 * 2 ^ 5 % 2 ^ 32)

module _ {S : Type 0} ⦃f : Float S⦄ where
  unfoldable pub smooth_floor : S → List S → List S → List S
  smooth_floor a (x ∷ xs) (p ∷ ps) =
      f.add (f.mul a x) (f.mul (f.sub (f.of_ℕ 1) a) p) ∷ smooth_floor a xs ps
  smooth_floor a xs _ = xs

  unfoldable pub lower : List S → List S → List S
  lower (x ∷ xs) (y ∷ ys) = fmin x y ∷ lower xs ys
  lower xs _ = xs

  -- update_floor().
  unfoldable pub update_floor : NoiseConfig S → List S → FloorState S → FloorState S
  unfolding smooth_floor lower
  update_floor cfg powers s =
      let floor = smooth_floor cfg.floor_smoothing s.floor powers in
      let min_cur = lower s.min_cur floor in
      if leb cfg.floor_window (s.min_count + 1)
      then record {
        floor = floor;
        min_cur = map (λ x. f.largest) min_cur;
        min_prev = min_cur;
        min_count = 0;
      }
      else record {
        floor = floor;
        min_cur = min_cur;
        min_prev = s.min_prev;
        min_count = s.min_count + 1;
      }

  -- next_noise() of the register that it left.
  abbrev pub noise_of : ℕ → S
  noise_of rng = f.sub (f.mul (f.of_ℕ 2) (f.div (f.of_ℕ rng) (f.of_ℕ 4_294_967_296))) (f.of_ℕ 1)

  -- The noise of bin k, of this amplitude.
  unfoldable pub fill_bin : ℕ → ℕ → S → ℕ × List S → ℕ × List S
  unfolding xorshift
  fill_bin hop k amp (rng, spec) =
      let next = xorshift rng in
      let later = xorshift next in
      let nr = noise_of next in
      let ni = noise_of later in
      let norm = f.add (f.sqrt (f.add (f.mul nr nr) (f.mul ni ni))) f.epsilon in
      if k == 0
      then (next, modify spec 0 (λ x. f.add x (f.mul amp nr)))
      else if k == hop
      then (next, modify spec 1 (λ x. f.add x (f.mul amp nr)))
      else (
        later,
        modify (modify spec (2 * k) (λ x. f.add x (f.div (f.mul amp nr) norm))) (2 * k + 1)
            (λ x. f.add x (f.div (f.mul amp ni) norm)),
      )

  -- comfort_fill() of bin k.
  unfoldable pub refill_bin : ℕ → S → List S → List S → FloorState S → ℕ → ℕ × List S → ℕ × List S
  unfolding fill_bin
  refill_bin hop bias gain powers s k st =
      let target = f.mul bias (fmin (at s.min_prev k) (at s.min_cur k)) in
      let kept = f.mul (f.mul (at gain k) (at gain k)) (at powers k) in
      let deficit = f.sub target kept in
      if f.le deficit (f.of_ℕ 0) then st else fill_bin hop k (f.sqrt deficit) st

  -- comfort_fill(): the generator and the spectrum after it.
  unfoldable pub comfort_fill : ℕ → S → List S → List S → FloorState S → ℕ × List S → ℕ × List S
  unfolding refill_bin
  comfort_fill hop bias gain powers s st = loop (refill_bin hop bias gain powers s) (hop + 1) 0 st
