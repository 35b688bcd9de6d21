-- ===== src/Predictor/Lpc/Streaming.antt =====
-- apply() is the prediction-error filter over a stream, in blocks of any sizes (include/mutap/lpc.h:
-- lpc_predictor::apply()).
use mu_tap.Common.{
  ℕ, zero, suc, ◌+◌, ◌-◌, ◌≤◌, ◌<◌, ◌≡◌, refl, ap, sym, ◌∙◌, arith, Bool-cases, inl, inr, List, [],
  ◌∷◌, ◌++◌, length, take, drop, set, leb, length-append, length-set, length-drop, get_or-set_self,
  get_or-set_ne, ltb, subst, slide, drop-get_or, take-all, take-append_le, if◌then◌else◌, drop-drop,
  drop-all, followed, get_or-append_lt, get_or-append_ge, get_or-drop, get_or-take, same_entries,
}
use mu_tap.Common.Float.{Float}
use mu_tap.Detector.Loops.{at}
use mu_tap.Predictor.Lpc.{LpcPredictor, past, weigh, outputs, refill, apply}

module _ {S : Type 0} ⦃f : Float S⦄ where
  -- The filter on one sample: the history's last sample has the delay 1.
  abbrev pub tapped : List S → ℕ → List S → ℕ → ℕ → S → S
  tapped a m hist zero j acc = acc
  tapped a m hist (suc n) j acc =
      tapped a m hist n (j + 1) (f.add acc (f.mul (at a j) (at hist (m - j))))

  -- The stream sample by sample, through a shift register.
  abbrev pub fir : List S → ℕ → List S → List S → List S × List S
  fir a m [] hist = (hist, [])
  fir a m (x ∷ xs) hist =
      let (last, rest) = fir a m xs (drop 1 (hist ++ x ∷ [])) in
      (last, tapped a m hist m 1 x ∷ rest)

  -- The history and the block are one sequence.
  past_lem :
      (m : ℕ) (hist ins : List S) (i j : ℕ)
      → length hist ≡ m
      → 0 < j
      → j ≤ m
      → past m hist ins i j ≡ at (hist ++ ins) (i + (m - j))
  unfolding past
  past_lem m hist ins i j len h inside = elim (Bool-cases (leb j i)) [
    | inl e ↦ rw e (
        sym (
          get_or-append_ge hist ins (i + (m - j)) (f.of_ℕ 0) (ground arith)
          ∙ ap (at ins) (ground arith)))
    | inr e ↦ rw e (
        sym (
          get_or-append_lt hist ins (i + (m - j)) (f.of_ℕ 0) (ground arith)
          ∙ ap (at hist) (ground arith)))
  ]

  weigh_lem :
      (a : List S) (m : ℕ) (hist ins : List S) (i n j : ℕ) (acc : S)
      → length hist ≡ m
      → 0 < j
      → j + n ≤ m + 1
      → weigh a m hist ins i n j acc ≡ tapped a m (take m (drop i (hist ++ ins))) n j acc
  unfolding weigh
  weigh_lem a m hist ins i zero j acc len h fits = refl
  weigh_lem a m hist ins i (suc n) j acc len h fits =
      weigh_lem a m hist ins i n (j + 1) _ len (omega arith) (omega arith)
      ∙ ap
          (λ x. tapped a m (take m (drop i (hist ++ ins))) n (j + 1) (f.add acc (f.mul (at a j) x)))
          (past_lem m hist ins i j len h (omega arith)
            ∙ sym (get_or-drop i (hist ++ ins) (m - j) (f.of_ℕ 0))
            ∙ sym (get_or-take m (drop i (hist ++ ins)) (m - j) (f.of_ℕ 0) (omega arith)))

  -- What the shift register holds after i samples of the block.
  abbrev register : ℕ → List S → List S → ℕ → List S
  register m hist ins i = take m (drop i (hist ++ ins))

  register-next :
      (m : ℕ) (hist ins : List S) (i : ℕ)
      → length hist ≡ m
      → i < length ins
      → drop 1 (register m hist ins i ++ at ins i ∷ []) ≡ register m hist ins (i + 1)
  register-next m hist ins i len inside =
      let all = hist ++ ins in
      let entry : at (drop i all) m ≡ at ins i =
        get_or-drop i all m (f.of_ℕ 0)
        ∙ get_or-append_ge hist ins (i + m) (f.of_ℕ 0) (omega arith)
        ∙ ap (at ins) (omega arith) in
      ap (λ x. drop 1 (register m hist ins i ++ x ∷ [])) (sym entry)
      ∙ slide m (drop i all) (f.of_ℕ 0) (omega (arith, length-drop i all, length-append hist ins))
      ∙ ap (take m) (drop-drop 1 i all)

  outputs_lem :
      (a : List S) (m : ℕ) (hist ins : List S) (n i : ℕ)
      → length hist ≡ m
      → i + n ≡ length ins
      → fir a m (drop i ins) (register m hist ins i)
        ≡ (register m hist ins (length ins), outputs a m hist ins n i)
  unfolding outputs
  outputs_lem a m hist ins zero i len count =
      rw (drop-all i ins (omega arith)) (ap (λ k. (register m hist ins k, [])) (omega arith))
  outputs_lem a m hist ins (suc n) i len count =
      let rest = outputs_lem a m hist ins n (i + 1) len (omega arith) in
      rw
        (
          drop-get_or i ins (f.of_ℕ 0) (omega arith),
          register-next m hist ins i len (omega arith),
          rest,
        )
        (ap (λ x. (register m hist ins (length ins), x ∷ outputs a m hist ins n (i + 1)))
          (sym (weigh_lem a m hist ins i m 1 (at ins i) len (omega arith) (omega arith))))

  refill_lem :
      (m : ℕ) (old ins : List S) (k j : ℕ) (hist : List S)
      → length old ≡ m
      → length hist ≡ m
      → j + k ≡ m
      → ((i : ℕ) → i < j → at hist i ≡ at (old ++ ins) (length ins + i))
      → ((i : ℕ) → j ≤ i → at hist i ≡ at old i)
      → refill m ins k j hist ≡ drop (length ins) (old ++ ins)
  unfolding refill
  refill_lem m old ins zero j hist len size count before from =
      same_entries (f.of_ℕ 0) hist (drop (length ins) (old ++ ins))
        (omega (arith, length-drop (length ins) (old ++ ins), length-append old ins))
        (λ i inside.
          before i (omega arith) ∙ sym (get_or-drop (length ins) (old ++ ins) i (f.of_ℕ 0)))
  refill_lem m old ins (suc k) j hist len size count before from =
      let n = length ins in
      let v = if leb (m - j) n then at ins (n - (m - j)) else at hist (j + n) in
      let value : v ≡ at (old ++ ins) (n + j) = elim (Bool-cases (leb (m - j) n)) [
        | inl e ↦ rw e (
            sym (
              get_or-append_ge old ins (n + j) (f.of_ℕ 0) (ground arith)
              ∙ ap (at ins) (ground arith)))
        | inr e ↦ rw e (
            from (j + n) (omega arith)
            ∙ ap (at old) (omega arith)
            ∙ sym (get_or-append_lt old ins (n + j) (f.of_ℕ 0) (ground arith)))
      ] in
      refill_lem m old ins k (j + 1) (set hist j v) len (length-set hist j v ∙ size) (omega arith)
        (λ i below. elim (Bool-cases (ltb i j)) [
          | inl e ↦
              get_or-set_ne hist j i v (f.of_ℕ 0) (λ same. ground arith) ∙ before i (ground arith)
          | inr e ↦
              let same : j ≡ i = ground arith in
              subst (λ k. at (set hist j v) k ≡ at (old ++ ins) (n + k)) same
                (get_or-set_self hist j v (f.of_ℕ 0) (omega arith) ∙ value)
        ])
        (λ i above.
          get_or-set_ne hist j i v (f.of_ℕ 0) (λ same. omega arith) ∙ from i (omega arith))

  -- On a history of the model's order, apply() is the filter sample by sample: each output is the
  -- input with the weighted last `order` inputs added, the nearest first, across the blocks' borders,
  -- and the history that it leaves is the stream's last `order` inputs.
  pub apply-fir :
      (p : LpcPredictor S) (ins hist : List S)
      → length hist ≡ p.cfg.order
      → (apply p ins hist ≡ fir p.a p.cfg.order ins hist)
        × ((apply p ins hist).0 ≡ drop (length ins) (hist ++ ins))
  unfolding apply
  apply-fir p ins hist len =
      let m = p.cfg.order in
      let all = hist ++ ins in
      let last =
        refill_lem m hist ins m 0 hist len len (omega arith) (λ i h. absurd (omega arith))
          (λ i h. refl) in
      let start : register m hist ins 0 ≡ hist =
        take-append_le m hist ins (omega arith) ∙ take-all m hist (omega arith) in
      let end : register m hist ins (length ins) ≡ drop (length ins) all =
        take-all m (drop (length ins) all)
          (omega (arith, length-drop (length ins) all, length-append hist ins)) in
      (
        ap (λ h. (h, outputs p.a m hist ins (length ins) 0)) (last ∙ sym end)
            ∙ sym (outputs_lem p.a m hist ins (length ins) 0 len (omega arith))
            ∙ ap (fir p.a m ins) start,
        last,
      )

  fir-append :
      (a : List S) (m : ℕ) (xs ys hist : List S)
      → fir a m (xs ++ ys) hist ≡ followed (fir a m) xs ys hist
  fir-append a m [] ys hist = refl
  fir-append a m (x ∷ xs) ys hist =
      ap (λ (h, out). (h, tapped a m hist m 1 x ∷ out))
        (fir-append a m xs ys (drop 1 (hist ++ x ∷ [])))

  -- A stream in two blocks gives what it gives in one.
  pub apply-append :
      (p : LpcPredictor S) (xs ys hist : List S)
      → length hist ≡ p.cfg.order
      → apply p (xs ++ ys) hist ≡ followed (apply p) xs ys hist
  apply-append p xs ys hist len =
      let (first, kept) = apply-fir p xs hist len in
      let next : length (apply p xs hist).0 ≡ p.cfg.order =
        ap length kept
        ∙ omega (arith, length-drop (length xs) (hist ++ xs), length-append hist xs, len) in
      (apply-fir p (xs ++ ys) hist len).0
      ∙ fir-append p.a p.cfg.order xs ys hist
      ∙ ap (λ (kept, out). let (last, rest) = fir p.a p.cfg.order ys kept in (last, out ++ rest))
          (sym first)
      ∙ ap (λ (last, rest). (last, (apply p xs hist).1 ++ rest))
          (sym (apply-fir p ys (apply p xs hist).0 next).0)
