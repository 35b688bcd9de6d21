-- ===== src/Tail/Hop.antt =====
-- One hop of the spectral reverb (include/mutap/spectral_reverb.h: hop()).
use mu_tap.Common.{ℕ, ◌+◌, ◌-◌, ◌*◌, List, [], ◌∷◌, length, take, set}
use mu_tap.Common.Float.{Float}
use mu_tap.Detector.Loops.{at}
use mu_tap.Spectrum.{Fft, loop}
use mu_tap.Pem.{move_back, slide_window}
use mu_tap.Tail.Shape.{BinShape}

-- m_frame, m_tail and m_state.
pub record HopState (S : Type 0) : Type 0 where
  pub frame : List S
  pub tail : List S
  pub poles : List S

module _ {S : Type 0} ⦃f : Float S⦄ where
  unfoldable pub windowed : List S → List S → List S
  windowed (x ∷ xs) (w ∷ ws) = f.mul x w ∷ windowed xs ws
  windowed _ _ = []

  -- Slot i of the recursion: its pole's state, and the mix of the dry and the wet spectrum.
  abbrev pub run_slot : S → S → S → ℕ → List S × List S → List S × List S
  run_slot a w dry i (poles, spectrum) =
      let pole = f.add (f.mul a (at poles i)) (at spectrum i) in
      (set poles i pole, set spectrum i (f.add (f.mul dry (at spectrum i)) (f.mul w pole)))

  -- The body of the loop over the bins.
  abbrev pub run_bin : BinShape S → S → ℕ → List S × List S → List S × List S
  run_bin bins dry k s =
      let a = at bins.decay k in
      let w = at bins.wet k in run_slot a w dry (2 * k + 1) (run_slot a w dry (2 * k) s)

  unfoldable pub run_bins : ℕ → BinShape S → S → List S × List S → List S × List S
  run_bins half bins dry s = loop (run_bin bins dry) (half - 1) 1 (
      run_slot (at bins.decay half) (at bins.wet half) dry 1
        (run_slot (at bins.decay 0) (at bins.wet 0) dry 0 s))

  unfoldable pub overlap : List S → List S → List S
  overlap (x ∷ xs) (y ∷ ys) = f.add x y ∷ overlap xs ys
  overlap xs _ = xs

  -- The tail's shift by a hop, with zeros behind.
  abbrev pub clear_from : ℕ → ℕ → List S → List S
  clear_from start i tail = set tail (start + i) (f.of_ℕ 0)

  unfoldable pub shift_tail : ℕ → List S → List S
  shift_tail b tail =
      let rest = length tail - b in loop (clear_from rest) b 0 (loop (move_back b) rest 0 tail)

  -- hop() of b samples: the state after it and b samples.
  unfoldable pub hop :
      ⦃t : Fft S⦄ → ℕ → S → List S → BinShape S → List S → HopState S → HopState S × List S
  unfolding windowed run_bins overlap shift_tail
  hop ⦃t⦄ b wet analysis bins ins s =
      let frame = slide_window b ins s.frame in
      let (poles, spectrum) =
        run_bins b bins (f.sub (f.of_ℕ 1) wet) (s.poles, t.forward (windowed frame analysis)) in
      let tail = overlap s.tail (t.inverse spectrum) in
      (record { frame = frame; tail = shift_tail b tail; poles = poles }, take b tail)
