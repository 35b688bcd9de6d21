-- ===== src/Suppressor/Engine/Independence.antt =====
-- What the echo estimate can change (include/mutap/nn_suppressor.h: process_block(), and the contract
-- in the class comment that the estimate feeds the features, never the signal path).
use mu_tap.Common.{◌≡◌, refl, ap, List, ◌++◌}
use mu_tap.Common.Float.{Float, Cast}
use mu_tap.Spectrum.{Fft}
use mu_tap.Tail.Hop.{windowed}
use mu_tap.Suppressor.Bands.{bin_powers}
use mu_tap.Suppressor.Noise.{FloorState, update_floor}
use mu_tap.Suppressor.Engine.{
  Network, NnSuppressor, infer, render, features_of, process_block, update_explained,
}

module _ {N S : Type 0} (D : Type 0) ⦃f : Float S⦄ ⦃d : Float D⦄ ⦃c : Cast S D⦄ ⦃n : Network N S⦄
    ⦃t : Fft S⦄ where
  -- The band gains that a block infers.
  abbrev pub block_gains : List S → List S → NnSuppressor N S → List S
  block_gains e yhat s =
      let spec_e = t.forward (windowed (s.prev_e ++ e) s.window) in
      let spec_y = t.forward (windowed (s.prev_yhat ++ yhat) s.window) in
      (infer (features_of D spec_e spec_y s) s.network).1

  abbrev pub block_floor : List S → NnSuppressor N S → FloorState S
  block_floor e s =
      let spec_e = t.forward (windowed (s.prev_e ++ e) s.window) in
      update_floor s.noise (bin_powers s.hop spec_e) s.floor

  -- The signal path from gains to the output, with nothing of the estimate.
  abbrev pub path : List S → NnSuppressor N S → List S → NnSuppressor N S × List S
  path e s gains =
      render e (t.forward (windowed (s.prev_e ++ e) s.window)) gains
        (record s { floor = block_floor e s })

  -- The echo estimate reaches the output through the band gains only: two states that differ in the
  -- last estimate, the layers' state and the explained powers, on two estimates, give the same output
  -- and keep the same signal state (overlap, last block, noise floor, generator) if they infer the
  -- same gains.
  pub process_block-IsBlind :
      (e y1 y2 prev : List S) (network : N) (syy sdd : S) (s : NnSuppressor N S)
      → let other = record s { prev_yhat = prev; network = network; syy = syy; sdd = sdd } in
        block_gains e y1 s ≡ block_gains e y2 other
        → let (next1, out1) = process_block D e y1 s in
          let (next2, out2) = process_block D e y2 other in
          (out1 ≡ out2)
          × (next1.tail ≡ next2.tail)
          × (next1.prev_e ≡ next2.prev_e)
          × (next1.floor ≡ next2.floor)
          × (next1.rng ≡ next2.rng)
  unfolding process_block render update_explained infer
  process_block-IsBlind e y1 y2 prev network syy sdd s same = (
    ap (λ g. (path e s g).1) same,
    ap (λ g. (path e s g).0.tail) same,
    refl,
    refl,
    ap (λ g. (path e s g).0.rng) same,
  )
