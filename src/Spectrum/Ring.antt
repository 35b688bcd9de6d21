-- ===== src/Spectrum/Ring.antt =====
-- The ring of partition spectra (include/mutap/fdaf.h, fd_kalman.h, pem_afc.h: m_head and the reads
-- at (m_head + P - p) % P).
use mu_tap.Common.{
  ℕ, ◌+◌, ◌-◌, ◌%◌, ◌<◌, ◌≡◌, ◌≢◌, ap, sym, ◌∙◌, arith, Bool-cases, inl, inr, ltb, List, [], length,
  get_or, set, get_or-set_self, get_or-set_ne,
}
use native.Mathlib.Nat.{mod-eq_of_lt, mod_self, add-mod_right, mod-lt}
use mu_tap.Spectrum.{lagged}

-- The slot before: of the block before the one at p.
slot_next :
    (p_n head p : ℕ)
    → head < p_n
    → p + 1 < p_n
    → ((head + 1) % p_n + p_n - (p + 1)) % p_n ≡ (head + p_n - p) % p_n
slot_next p_n head p inside room = elim (Bool-cases (ltb (head + 1) p_n)) [
  | inl e ↦
      ap (λ k. (k + p_n - (p + 1)) % p_n) (mod-eq_of_lt (ground arith))
      ∙ ap (λ k. k % p_n) {x = head + 1 + p_n - (p + 1)} (omega arith)
  | inr e ↦
      ap (λ k. (k % p_n + p_n - (p + 1)) % p_n) {x = head + 1} {y = p_n} (ground arith)
      ∙ ap (λ k. (k + p_n - (p + 1)) % p_n) (mod_self p_n)
      ∙ ap (λ k. k % p_n) {x = 0 + p_n - (p + 1)} {y = p_n - (p + 1)} (omega arith)
      ∙ sym (
          ap (λ k. k % p_n) {x = head + p_n - p} {y = (p_n - (p + 1)) + p_n} (ground arith)
          ∙ add-mod_right (p_n - (p + 1)) p_n)
]

-- An older block's slot is not the one written.
slot_ne : (p_n head p : ℕ) → head < p_n → p + 1 < p_n → (head + 1) % p_n ≢ (head + p_n - p) % p_n
slot_ne p_n head p inside room e = elim (Bool-cases (ltb head p)) [
  | inl g ↦
      let old = mod-eq_of_lt {n = head + p_n - p} {m = p_n} (ground arith) in
      let new = mod-eq_of_lt {n = head + 1} {m = p_n} (ground arith) in omega (arith, e, old, new)
  | inr g ↦
      let old : (head + p_n - p) % p_n ≡ head - p =
        ap (λ k. k % p_n) {x = head + p_n - p} {y = (head - p) + p_n} (ground arith)
        ∙ add-mod_right (head - p) p_n
        ∙ mod-eq_of_lt (omega arith) in
      elim (Bool-cases (ltb (head + 1) p_n)) [
        | inl b ↦
            let new = mod-eq_of_lt {n = head + 1} {m = p_n} (ground arith) in
            ground (arith, e, old, new)
        | inr b ↦
            let new : (head + 1) % p_n ≡ 0 =
              ap (λ k. k % p_n) {x = head + 1} {y = p_n} (ground arith) ∙ mod_self p_n in
            ground (arith, e, old, new)
      ]
]

module _ {A : Type 0} where
  -- After a block its spectrum is read at 0, and what was read at p is read at p + 1.
  pub lagged-set :
      (p_n head : ℕ) (rows : List (List A)) (new : List A)
      → length rows ≡ p_n
      → head < p_n
      → let head' = (head + 1) % p_n in
        let rows' = set rows head' new in
        (lagged p_n head' rows' 0 ≡ new)
        × ((p : ℕ) → p + 1 < p_n → lagged p_n head' rows' (p + 1) ≡ lagged p_n head rows p)
  unfolding lagged
  lagged-set p_n head rows new len inside =
      let next = (head + 1) % p_n in
      let bound : next < p_n = mod-lt (head + 1) (omega arith) in
      (
        ap (λ k. get_or (set rows next new) (k % p_n) []) {x = next + p_n - 0} {y = next + p_n}
              (omega arith)
            ∙ ap (λ k. get_or (set rows next new) k [])
                (add-mod_right next p_n ∙ mod-eq_of_lt bound)
            ∙ get_or-set_self rows next new [] (omega arith),
        λ p room.
            ap (λ k. get_or (set rows next new) k []) (slot_next p_n head p inside room)
            ∙ get_or-set_ne rows next ((head + p_n - p) % p_n) new []
                (slot_ne p_n head p inside room),
      )
