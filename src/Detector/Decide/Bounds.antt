-- ===== src/Detector/Decide/Bounds.antt =====
-- The tick keeps its arrays at their sizes and its indices inside them, so that every read and
-- write of decide() and of the readouts is in range (include/mutap/howl_detector.h).
use mu_tap.Common.{
  length-write_at, ℕ, zero, suc, ◌+◌, ◌*◌, ◌≤◌, ◌<◌, ◌≡◌, refl, ◌∙◌, arith, List, length,
  length-map, length-set, length-replicate, Bool-cases, inl, inr, Bool,
}
use mu_tap.Common.Float.{Float}
use mu_tap.Detector.Types.{DecisionParams, DecisionState, cleared}
use mu_tap.Detector.Loops.{next_slot, peak_from, lines_from, level_of, prominence_of, sum_of}
use mu_tap.Detector.Decide.{
  Growth, measure, push_line, full, grow_band, grow_from, zero_from, grow, integrate, track, settle,
  analyse, judge, decide,
}

module _ {S : Type 0} (p : DecisionParams S) where
  pub record IsSized (s : DecisionState S) : Type 0 where
    pub pos_in_ring : s.ring_pos < p.slots
    pub count_in_ring : s.ring_count ≤ p.slots
    pub ring_size : length s.ring ≡ p.bands * p.slots
    pub level_size : length s.level_db ≡ p.bands
    pub prom_size : length s.prom ≡ p.bands
    pub rise_size : length s.rise ≡ p.bands
    pub rise_prev_size : length s.rise_prev ≡ p.bands
    pub peak_in_bank : s.peak_band < p.bands
    pub line_in_bank : s.line_band < p.bands

module _ {S : Type 0} ⦃f : Float S⦄ (p : DecisionParams S) where
  peak_from-lt :
      (n b : ℕ) (env : List S) (peak nb : ℕ) → b + n ≤ nb → peak < nb → peak_from n b env peak < nb
  unfolding peak_from
  peak_from-lt zero b env peak nb h k = k
  peak_from-lt (suc n) b env peak nb h k =
      peak_from-lt n (b + 1) env _ nb (omega arith) (ground arith)

  measure-IsSized :
      (env : List S) (s : DecisionState S)
      → length env ≡ p.bands
      → 0 < p.bands
      → IsSized p s
      → IsSized p (measure p env s)
  unfolding measure
  measure-IsSized env s len pos v = ground (
    arith,
    length-map level_of env,
    length-map (prominence_of p.inv_others (sum_of env (f.of_ℕ 0))) env,
    peak_from-lt p.bands 0 env 0 p.bands (omega arith) pos,
  )

  push_line-IsSized : (s : DecisionState S) → IsSized p s → IsSized p (push_line p s)
  unfolding push_line next_slot
  push_line-IsSized s v = ground (
    arith,
    length-write_at (s.ring_pos * p.bands) (lines_from p.bands p.bands s.level_db 0) s.ring,
  )

  -- The growth loop keeps the rises' size and names a band of the bank.
  abbrev Fits : Growth S → Type 0
  Fits t = (length t.rise ≡ p.bands) × (t.line < p.bands)

  grow_band-Fits :
      (s : DecisionState S) (b : ℕ) (t : Growth S) → b < p.bands → Fits t → Fits (grow_band p s b t)
  unfolding grow_band
  grow_band-Fits s b t h v = (length-set t.rise b _ ∙ v.0, ground arith)

  grow_from-Fits :
      (n : ℕ) (s : DecisionState S) (b : ℕ) (t : Growth S)
      → b + n ≤ p.bands
      → Fits t
      → Fits (grow_from p n s b t)
  unfolding grow_from
  grow_from-Fits zero s b t h v = v
  grow_from-Fits (suc n) s b t h v =
      grow_from-Fits n s (b + 1) (grow_band p s b t) (omega arith)
        (grow_band-Fits s b t (omega arith) v)

  length-zero_from : (n b : ℕ) (rise : List S) → length (zero_from p n b rise) ≡ length rise
  unfolding zero_from
  length-zero_from zero b rise = refl
  length-zero_from (suc n) b rise = length-zero_from n (b + 1) _ ∙ length-set rise b (f.of_ℕ 0)

  grow-Fits : (s : DecisionState S) → length s.rise ≡ p.bands → 0 < p.bands → Fits (grow p s)
  unfolding grow
  grow-Fits s len pos = elim (Bool-cases (full p s)) [
    | inl e ↦ rw e (grow_from-Fits p.bands s 0 _ (omega arith) (len, pos))
    | inr e ↦ rw e (length-zero_from p.bands 0 s.rise ∙ len, pos)
  ]

  integrate-IsSized :
      (s : DecisionState S) → 0 < p.bands → IsSized p s → IsSized p (integrate p s).0
  unfolding integrate
  integrate-IsSized s pos v =
      ground (
        arith,
        grow-Fits (record s { rise = s.rise_prev; rise_prev = s.rise }) v.rise_prev_size pos,
      )

  judge-IsSized :
      (pw : S) (t : DecisionState S) (g : Bool) → IsSized p t → IsSized p (judge p pw (t, g))
  unfolding judge track settle
  judge-IsSized pw t g v = record {
    pos_in_ring = v.pos_in_ring;
    count_in_ring = v.count_in_ring;
    ring_size = v.ring_size;
    level_size = v.level_size;
    prom_size = v.prom_size;
    rise_size = v.rise_size;
    rise_prev_size = v.rise_prev_size;
    peak_in_bank = v.peak_in_bank;
    line_in_bank = v.line_in_bank;
  }

  -- A tick over one envelope for each of at least one band keeps every array at its size, the
  -- ring's position and count inside the ring, and the two bands that it reports inside the bank.
  pub decide-IsSized :
      (env : List S) (power : S) (s : DecisionState S)
      → length env ≡ p.bands
      → 0 < p.bands
      → IsSized p s
      → IsSized p (decide p env power s)
  unfolding decide analyse
  decide-IsSized env power s len pos v =
      let m = measure p env s in
      let w = push_line-IsSized m (measure-IsSized env s len pos v) in
      let (t, g) = integrate p (push_line p m) in
      judge-IsSized _ t g (integrate-IsSized (push_line p m) pos w)

  -- The state that reset() leaves is sized.
  pub cleared-IsSized : 0 < p.bands → 0 < p.slots → IsSized p (cleared p.bands p.slots)
  unfolding cleared
  cleared-IsSized pos slots = record {
    pos_in_ring = slots;
    count_in_ring = omega arith;
    ring_size = length-replicate _ _;
    level_size = length-replicate _ _;
    prom_size = length-replicate _ _;
    rise_size = length-replicate _ _;
    rise_prev_size = length-replicate _ _;
    peak_in_bank = pos;
    line_in_bank = pos;
  }
