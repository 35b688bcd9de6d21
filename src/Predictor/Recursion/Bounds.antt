-- ===== src/Predictor/Recursion/Bounds.antt =====
-- What the recursion leaves, wherever it stops (include/mutap/lpc.h: levinson()).
use mu_tap.Common.{
  ℕ, zero, suc, ◌+◌, ◌-◌, ◌≤◌, ◌<◌, ◌≡◌, ◌⊎◌, refl, ap, sym, ◌∙◌, arith, false, Bool-cases, inl,
  inr, not, ◌||◌, List, [], ◌∷◌, length, get_or, set, write_at, replicate, length-set,
  length-write_at, length-replicate, get_or-set_self, get_or-set_ne, subst,
}
use mu_tap.Common.Float.{Float, Cast}
use mu_tap.Detector.Loops.{at}
use mu_tap.Predictor.Recursion.{
  predicted, reflected, raised, escapes, raise_order, levinson, clear_above, fit,
}

module _ {S : Type 0} ⦃f : Float S⦄ where
  at-replicate : (n j : ℕ) → at (replicate n (f.of_ℕ 0)) j ≡ f.of_ℕ 0
  at-replicate zero j = refl
  at-replicate (suc n) zero = refl
  at-replicate (suc n) (suc j) = at-replicate n j

  at-identity : (order j : ℕ) → 0 < j → at (f.of_ℕ 1 ∷ replicate order (f.of_ℕ 0)) j ≡ f.of_ℕ 0
  at-identity order zero h = absurd (omega arith)
  at-identity order (suc j) h = at-replicate order j

  at-write_at_out :
      (i : ℕ) (vs xs : List S) (j : ℕ)
      → (j < i) ⊎ (i + length vs ≤ j)
      → at (write_at i vs xs) j ≡ at xs j
  at-write_at_out i [] xs j h = refl
  at-write_at_out i (v ∷ vs) xs j h =
      at-write_at_out (i + 1) vs (set xs i v) j (grind arith)
      ∙ get_or-set_ne xs i j v (f.of_ℕ 0) (λ e. grind arith)

  length-reflected : (k : S) (a : List S) (i n j : ℕ) → length (reflected k a i n j) ≡ n
  unfolding reflected
  length-reflected k a i zero j = refl
  length-reflected k a i (suc n) j = ap suc (length-reflected k a i n (j + 1))

  -- Coefficients of an order: as many as it has and one, the first of them 1, none past entry i.
  abbrev pub IsOrder : ℕ → ℕ → List S → Type 0
  IsOrder order i a =
      (length a ≡ order + 1) × (at a 0 ≡ f.of_ℕ 1) × ((j : ℕ) → i < j → at a j ≡ f.of_ℕ 0)

  raised-IsOrder :
      (k : S) (order i : ℕ) (a : List S)
      → 0 < i
      → IsOrder order (i - 1) a
      → IsOrder order i (raised k i a)
  unfolding raised
  raised-IsOrder k order i a h (len, first, past) =
      let vs = reflected k a i (i - 1) 1 in
      let size = length-reflected k a i (i - 1) 1 in
      (
        length-set (write_at 1 vs a) i k ∙ length-write_at 1 vs a ∙ len,
        get_or-set_ne (write_at 1 vs a) i 0 k (f.of_ℕ 0) (omega arith)
            ∙ at-write_at_out 1 vs a 0 (inl (omega arith))
            ∙ first,
        λ j above.
            get_or-set_ne (write_at 1 vs a) i j k (f.of_ℕ 0) (omega arith)
            ∙ at-write_at_out 1 vs a j (inr (omega (arith, size)))
            ∙ past j (omega arith),
      )

  raised_last :
      (k : S) (order i : ℕ) (a : List S)
      → length a ≡ order + 1
      → 0 < i
      → i ≤ order
      → at (raised k i a) i ≡ k
  unfolding raised
  raised_last k order i a len h inside =
      let vs = reflected k a i (i - 1) 1 in
      get_or-set_self (write_at 1 vs a) i k (f.of_ℕ 0) (omega (arith, length-write_at 1 vs a))

  -- To clear what is clear changes nothing.
  set-get_or : (xs : List S) (i : ℕ) (v : S) → get_or xs i v ≡ v → set xs i v ≡ xs
  set-get_or [] i v h = refl
  set-get_or (x ∷ xs) zero v h = ap (λ y. y ∷ xs) (sym h)
  set-get_or (x ∷ xs) (suc i) v h = ap (◌∷◌ x) (set-get_or xs i v h)

  clear_above_lem :
      (order i n j : ℕ) (a : List S) → IsOrder order i a → i < j → clear_above n j a ≡ a
  unfolding clear_above
  clear_above_lem order i zero j a inside above = refl
  clear_above_lem order i (suc n) j a inside above =
      ap (clear_above n (j + 1)) (set-get_or a j (f.of_ℕ 0) (inside.2 j above))
      ∙ clear_above_lem order i n (j + 1) a inside (omega arith)

module _ {S : Type 0} (D : Type 0) ⦃f : Float S⦄ ⦃d : Float D⦄ ⦃c : Cast S D⦄ where
  -- The coefficients of an order that the recursion achieved: its last reflection coefficient is
  -- finite and inside the unit circle.
  abbrev pub IsAchieved : ℕ → ℕ × List S → Type 0
  IsAchieved order (achieved, a) =
      (achieved ≤ order)
      × IsOrder order achieved a
      × (0 < achieved → escapes D (at a achieved) ≡ false)

  raise_order-IsAchieved :
      (r : List S) (order n i : ℕ) (err : S) (a : List S)
      → 0 < i
      → i + n ≡ order + 1
      → IsAchieved order (i - 1, a)
      → IsAchieved order (raise_order D r order n i err a)
  unfolding raise_order
  raise_order-IsAchieved r order zero i err a h count inside =
      subst (λ k. IsAchieved order (k, a)) (omega arith) inside
  raise_order-IsAchieved r order (suc n) i err a h count inside =
      let k = f.div (f.neg (predicted r a i (i - 1) 1 (at r i))) err in
      let after = f.mul err (f.sub (f.of_ℕ 1) (f.mul k k)) in
      elim (Bool-cases (escapes D k)) [
        | inl e ↦ rw e inside
        | inr e ↦
            let up : IsAchieved order (i, raised k i a) = (
              omega arith,
              raised-IsOrder k order i a h inside.1,
              λ some_order. ap (escapes D) (raised_last k order i a inside.1.0 h (omega arith)) ∙ e,
            ) in
            elim (Bool-cases (not (f.lt (f.of_ℕ 0) after))) [
              | inl g ↦ rw (e, g) up
              | inr g ↦
                  rw (e, g)
                    (raise_order-IsAchieved r order n (i + 1) after (raised k i a) (omega arith)
                      (omega arith)
                      (subst (λ m. IsAchieved order (m, raised k i a)) (omega arith) up))
            ]
      ]

  levinson_lem : (r : List S) (order : ℕ) (ridge : S) → IsAchieved order (levinson D r order ridge)
  unfolding levinson
  levinson_lem r order ridge =
      let a = f.of_ℕ 1 ∷ replicate order (f.of_ℕ 0) in
      let r0 = f.mul (at r 0) (f.add (f.of_ℕ 1) ridge) in
      let start : IsAchieved order (0, a) = (
        omega arith,
        (ap suc (length-replicate order (f.of_ℕ 0)) ∙ omega arith, refl, at-identity order),
        λ some_order. absurd (omega arith),
      ) in
      elim (Bool-cases (not (f.lt (f.of_ℕ 0) r0) || not (d.is_finite (c.to_double r0)))) [
        | inl e ↦ rw e start
        | inr e ↦
            rw e (raise_order-IsAchieved r order order 1 r0 a (omega arith) (omega arith) start)
      ]

  -- The achieved order is never more than the asked one, and the coefficients are a filter of that
  -- order: order + 1 of them, the first 1, none past the achieved order, the last reflection
  -- coefficient finite and inside the unit circle. A window's fit, which clears the coefficients
  -- past the achieved order once more, is this filter.
  pub levinson-IsAchieved :
      (r : List S) (order : ℕ) (ridge : S)
      → IsAchieved order (levinson D r order ridge)
        × (fit D r order ridge ≡ (levinson D r order ridge).1)
  unfolding fit
  levinson-IsAchieved r order ridge =
      let (achieved, a) = levinson D r order ridge in
      let inside = levinson_lem r order ridge in
      (
        inside,
        clear_above_lem order achieved (order - achieved) (achieved + 1) a inside.1 (omega arith),
      )
