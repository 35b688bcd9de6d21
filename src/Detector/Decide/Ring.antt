-- ===== src/Detector/Decide/Ring.antt =====
-- The growth ring is a sliding window: a tick drops the oldest line level of a band and appends the
-- newest, and the fit reads the window from its oldest entry (include/mutap/howl_detector.h:
-- decide()'s "Line levels into the ring", and fit()).
use mu_tap.Common.{
  write_at, ℕ, zero, suc, ◌+◌, ◌-◌, ◌*◌, ◌≤◌, ◌<◌, ltb, ◌≡◌, refl, ◌∙◌, ap, ap₂, subst, sym, drop,
  ◌⊎◌, inl, inr, arith, List, [], ◌∷◌, ◌++◌, length, set, if◌then◌else◌, length-set,
  get_or-set_self, get_or-set_ne,
}
use mu_tap.Common.Float.{Float}
use mu_tap.Detector.Types.{DecisionParams, DecisionState}
use mu_tap.Detector.Loops.{next_slot, at, near_max, lines_from}
use mu_tap.Detector.Decide.{push_line}

-- The slot that a walk of i steps from slot k of m reaches.
abbrev pub slot : ℕ → ℕ → ℕ → ℕ
slot m k i = if ltb (k + i) m then k + i else k + i - m

pub slot-next : (m k i : ℕ) → k < m → i < m → next_slot m (slot m k i) ≡ slot m k (i + 1)
unfolding next_slot
slot-next m k i h j = ground arith

next-slot : (m k i : ℕ) → k < m → i < m → slot m (next_slot m k) i ≡ slot m k (i + 1)
unfolding next_slot
next-slot m k i h j = ground arith

slot-back : (m k : ℕ) → k < suc m → slot (suc m) (next_slot (suc m) k) (0 + m) ≡ k
unfolding next_slot
slot-back m k h = ground arith

-- An entry of another slot lies outside the slot's entries.
outside : (j k nb b : ℕ) → b < nb → j < k → j * nb + b < k * nb
outside j k nb b h l = grind arith

beyond : (j k nb b : ℕ) → k < j → k * nb + nb ≤ j * nb + b
beyond j k nb b l = grind arith

slot_ne : (m k i : ℕ) → k < m → 0 < i → i < m → (slot m k i < k) ⊎ (k < slot m k i)
slot_ne m k i h lo hi = ground arith

module _ {S : Type 0} where
  -- A step of 1 to m - 1 from slot k never reads an entry of slot k.
  other_slot :
      (m nb : ℕ) (vs : List S) (k b i : ℕ)
      → length vs ≡ nb
      → b < nb
      → k < m
      → 0 < i
      → i < m
      → (slot m k i * nb + b < k * nb) ⊎ (k * nb + length vs ≤ slot m k i * nb + b)
  other_slot m nb vs k b i len hb hk lo hi = elim (slot_ne m k i hk lo hi) [
    | inl l ↦ inl (outside (slot m k i) k nb b hb l)
    | inr g ↦ inr (rw len (beyond (slot m k i) k nb b g))
  ]

module _ {S : Type 0} ⦃f : Float S⦄ where
  write_at-outside :
      (i : ℕ) (vs ring : List S) (j : ℕ)
      → (j < i) ⊎ (i + length vs ≤ j)
      → at (write_at i vs ring) j ≡ at ring j
  write_at-outside i [] ring j h = refl
  write_at-outside i (v ∷ vs) ring j h =
      write_at-outside (i + 1) vs (set ring i v) j (omega arith)
      ∙ get_or-set_ne ring i j v (f.of_ℕ 0) (omega arith)

  write_at-inside :
      (i : ℕ) (vs ring : List S) (k : ℕ)
      → k < length vs
      → i + length vs ≤ length ring
      → at (write_at i vs ring) (i + k) ≡ at vs k
  write_at-inside i [] ring k h fits = absurd (omega arith)
  write_at-inside i (v ∷ vs) ring zero h fits =
      write_at-outside (i + 1) vs (set ring i v) (i + 0) (omega arith)
      ∙ ap (at (set ring i v)) (omega arith)
      ∙ get_or-set_self ring i v (f.of_ℕ 0) (omega arith)
  write_at-inside i (v ∷ vs) ring (suc k) h fits =
      ap (at (write_at (i + 1) vs (set ring i v))) (omega arith)
      ∙ write_at-inside (i + 1) vs (set ring i v) k (omega arith)
          (omega (arith, length-set ring i v))

  length-lines_from : (n nb : ℕ) (xs : List S) (b : ℕ) → length (lines_from n nb xs b) ≡ n
  unfolding lines_from
  length-lines_from zero nb xs b = refl
  length-lines_from (suc n) nb xs b = ap suc (length-lines_from n nb xs (b + 1))

  at-lines_from :
      (n nb : ℕ) (xs : List S) (b k : ℕ)
      → k < n
      → at (lines_from n nb xs b) k ≡ near_max nb xs (b + k)
  unfolding lines_from
  at-lines_from zero nb xs b k h = absurd (omega arith)
  at-lines_from (suc n) nb xs b zero h = ap (near_max nb xs) (omega arith)
  at-lines_from (suc n) nb xs b (suc k) h =
      at-lines_from n nb xs (b + 1) k (omega arith) ∙ ap (near_max nb xs) (omega arith)

  -- The abstract view: n line levels of band b, from i steps past slot k.
  abbrev pub window : ℕ → ℕ → List S → ℕ → ℕ → ℕ → ℕ → List S
  window m nb ring k b zero i = []
  window m nb ring k b (suc n) i = at ring (slot m k i * nb + b) ∷ window m nb ring k b n (i + 1)

  window-snoc :
      (m nb : ℕ) (ring : List S) (k b n i : ℕ)
      → window m nb ring k b (suc n) i
        ≡ window m nb ring k b n i ++ at ring (slot m k (i + n) * nb + b) ∷ []
  window-snoc m nb ring k b zero i = ap (λ j. at ring (slot m k j * nb + b) ∷ []) (omega arith)
  window-snoc m nb ring k b (suc n) i = ap (◌∷◌ (at ring (slot m k i * nb + b))) (
      window-snoc m nb ring k b n (i + 1)
      ∙ ap (λ j. window m nb ring k b n (i + 1) ++ at ring (slot m k j * nb + b) ∷ [])
          (omega arith))

  -- Writing slot k leaves the rest of the window, seen from the next slot.
  window-write_at :
      (m nb : ℕ) (vs ring : List S) (k b n i : ℕ)
      → length vs ≡ nb
      → b < nb
      → k < m
      → i + n + 1 ≤ m
      → window m nb (write_at (k * nb) vs ring) (next_slot m k) b n i
        ≡ window m nb ring k b n (i + 1)
  window-write_at m nb vs ring k b zero i len hb hk h = refl
  window-write_at m nb vs ring k b (suc n) i len hb hk h =
      let ring' = write_at (k * nb) vs ring in
      let j = slot m k (i + 1) in
      let moved : at ring' (slot m (next_slot m k) i * nb + b) ≡ at ring' (j * nb + b) =
        ap (λ t. at ring' (t * nb + b)) (next-slot m k i hk (omega arith)) in
      let kept : at ring' (j * nb + b) ≡ at ring (j * nb + b) =
        write_at-outside (k * nb) vs ring (j * nb + b)
          (other_slot m nb vs k b (i + 1) len hb hk (omega arith) (omega arith)) in
      ap₂ ◌∷◌ (moved ∙ kept) (window-write_at m nb vs ring k b n (i + 1) len hb hk (omega arith))

  -- The whole window after the slot k has been overwritten.
  window-full :
      (m nb : ℕ) (vs ring : List S) (k b : ℕ)
      → length vs ≡ nb
      → b < nb
      → k < suc m
      → let ring' = write_at (k * nb) vs ring in
        window (suc m) nb ring' (next_slot (suc m) k) b (suc m) 0
        ≡ window (suc m) nb ring k b m 1 ++ at ring' (k * nb + b) ∷ []
  window-full m nb vs ring k b len hb hk =
      let ring' = write_at (k * nb) vs ring in
      let back : slot (suc m) (next_slot (suc m) k) (0 + m) ≡ k = slot-back m k hk in
      window-snoc (suc m) nb ring' (next_slot (suc m) k) b m 0
      ∙ ap₂ (λ ws j. ws ++ at ring' (j * nb + b) ∷ [])
          (window-write_at (suc m) nb vs ring k b m 0 len hb hk (omega arith)) back

module _ {S : Type 0} ⦃f : Float S⦄ (p : DecisionParams S) where
  -- The line levels of band b over the growth window, oldest first.
  abbrev pub line_window : DecisionState S → ℕ → List S
  line_window s b = window p.slots p.bands s.ring s.ring_pos b p.slots 0

  newest-line :
      (s : DecisionState S) (b : ℕ)
      → b < p.bands
      → s.ring_pos < p.slots
      → length s.ring ≡ p.bands * p.slots
      → at (push_line p s).ring (s.ring_pos * p.bands + b) ≡ near_max p.bands s.level_db b
  unfolding push_line
  newest-line s b hb hk size =
      let vs = lines_from p.bands p.bands s.level_db 0 in
      let len : length vs ≡ p.bands = length-lines_from p.bands p.bands s.level_db 0 in
      let fits : s.ring_pos * p.bands + length vs ≤ length s.ring =
        omega (arith, beyond p.slots s.ring_pos p.bands 0 hk, len, size) in
      write_at-inside (s.ring_pos * p.bands) vs s.ring b (omega (arith, len)) fits
      ∙ at-lines_from p.bands p.bands s.level_db 0 b hb
      ∙ ap (near_max p.bands s.level_db) (omega arith)

  -- A tick's line levels enter the window of every band, in a ring of its full size with its
  -- position inside it: the oldest is dropped, and the loudest of the band and its neighbours is
  -- appended.
  pub window-push_line :
      (s : DecisionState S) (b m : ℕ)
      → p.slots ≡ suc m
      → b < p.bands
      → s.ring_pos < p.slots
      → length s.ring ≡ p.bands * p.slots
      → line_window (push_line p s) b
        ≡ drop 1 (line_window s b) ++ near_max p.bands s.level_db b ∷ []
  unfolding push_line
  window-push_line s b m e hb hk size =
      let vs = lines_from p.bands p.bands s.level_db 0 in
      let ring' = write_at (s.ring_pos * p.bands) vs s.ring in
      subst
        (λ q.
          window q p.bands ring' (next_slot q s.ring_pos) b q 0
          ≡ drop 1 (window q p.bands s.ring s.ring_pos b q 0) ++ near_max p.bands s.level_db b ∷ [])
        (sym e)
        (window-full m p.bands vs s.ring s.ring_pos b
            (length-lines_from p.bands p.bands s.level_db 0) hb (omega arith)
          ∙ ap (λ v. window (suc m) p.bands s.ring s.ring_pos b m 1 ++ v ∷ [])
              (newest-line s b hb hk size))
