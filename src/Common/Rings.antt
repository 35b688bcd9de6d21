-- ===== src/Common/Rings.antt =====
-- Ring buffers: a list and the index of its oldest entry.
use Prim.Native.Nat.{ℕ, suc, ◌+◌, ◌-◌, ◌%◌, ◌≤◌, ◌<◌}
use mathlib.Core.Path.{◌≡◌, ap, sym, ◌∙◌}
use mathlib.Core.Logic.{inl, inr}
use mathlib.Core.List.{List, [], ◌∷◌, ◌++◌, append_assoc}
use native.Mathlib.Omega.{arith}
use native.Mathlib.Nat.{mod-eq_of_lt, mod_self, add-mod_right}
use mu_tap.Common.Tests.{ltb, Bool-cases}
use mu_tap.Common.Lists.{
  length, take, drop, set, get_or, length-drop, length-take, length-set, length-append,
}
use mu_tap.Common.Slices.{append_nil, take-all, drop-all, take-set, drop-set}
use mu_tap.Common.Entries.{
  get_or-append_lt, get_or-append_ge, get_or-drop, get_or-take, drop-get_or,
}

module _ {ℓ} {A : Type ℓ} where
  -- The ring's entries, the oldest first.
  abbrev pub unrolled : ℕ → List A → List A
  unrolled pos ring = drop pos ring ++ take pos ring

  pub length-unrolled : (pos : ℕ) (ring : List A) → length (unrolled pos ring) ≡ length ring
  length-unrolled pos ring = omega (
    arith,
    length-append (drop pos ring) (take pos ring),
    length-drop pos ring,
    length-take pos ring,
  )

  -- A write over the oldest entry moves the ring on.
  pub unrolled-set :
      (pos : ℕ) (ring : List A) (v : A)
      → pos < length ring
      → unrolled ((pos + 1) % length ring) (set ring pos v) ≡ drop 1 (unrolled pos ring ++ v ∷ [])
  unrolled-set pos ring v h =
      let n = length ring in
      let after = drop 1 (unrolled pos ring ++ v ∷ []) in
      let split : after ≡ drop (pos + 1) ring ++ (take pos ring ++ v ∷ []) =
        rw (drop-get_or pos ring v h)
          (append_assoc (drop (pos + 1) ring) (take pos ring) (v ∷ [])) in
      let front : take (pos + 1) (set ring pos v) ≡ take pos ring ++ v ∷ [] =
        ap (λ k. take k (set ring pos v)) {x = pos + 1} {y = suc pos} (omega arith)
        ∙ take-set ring pos v h in
      elim (Bool-cases (ltb (pos + 1) n)) [
        | inl e ↦
            ap (λ k. unrolled k (set ring pos v)) (mod-eq_of_lt (ground arith))
            ∙ rw (front, drop-set ring pos (pos + 1) v (omega arith)) (sym split)
        | inr e ↦
            ap (λ k. unrolled (k % n) (set ring pos v)) {x = pos + 1} {y = n} (ground arith)
            ∙ ap (λ k. unrolled k (set ring pos v)) (mod_self n)
            ∙ append_nil (set ring pos v)
            ∙ sym (take-all (pos + 1) (set ring pos v) (ground (arith, length-set ring pos v)))
            ∙ front
            ∙ ap (λ xs. xs ++ (take pos ring ++ v ∷ []))
                (sym (drop-all (pos + 1) ring (ground arith)))
            ∙ sym split
      ]

  -- The entry of t writes ago.
  pub get_or-unrolled :
      (pos t : ℕ) (ring : List A) (d : A)
      → pos < length ring
      → 0 < t
      → t ≤ length ring
      → get_or ring ((pos + length ring - t) % length ring) d
        ≡ get_or (unrolled pos ring) (length ring - t) d
  get_or-unrolled pos t ring d h some_delay inside =
      let n = length ring in
      let len = length-drop pos ring in
      elim (Bool-cases (ltb pos t)) [
        | inl e ↦
            ap (λ k. get_or ring k d) (mod-eq_of_lt (ground arith))
            ∙ ap (λ k. get_or ring k d) (ground arith)
            ∙ sym (get_or-drop pos ring (n - t) d)
            ∙ sym (get_or-append_lt (drop pos ring) (take pos ring) (n - t) d (ground (arith, len)))
        | inr e ↦
            ap (λ k. get_or ring (k % n) d) {x = pos + n - t} {y = (pos - t) + n} (ground arith)
            ∙ ap (λ k. get_or ring k d) (add-mod_right (pos - t) n ∙ mod-eq_of_lt (ground arith))
            ∙ sym (get_or-take pos ring (pos - t) d (ground arith))
            ∙ ap (λ k. get_or (take pos ring) k d) (ground (arith, len))
            ∙ sym (get_or-append_ge (drop pos ring) (take pos ring) (n - t) d (ground (arith, len)))
      ]
