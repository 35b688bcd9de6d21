-- ===== src/Chain/Ring/Delay.antt =====
-- A ring of the chain is a queue
-- (include/mutap/afc_chain.h: ring_read(), ring_write(), advance(), and process_one()).
use mu_tap.Common.{
  ℕ, zero, suc, ◌+◌, ◌-◌, ◌≤◌, ◌<◌, ◌≡◌, refl, sym, ap, ap₂, ◌∙◌, arith, Bool-cases, inl, inr, List,
  [], ◌∷◌, ◌++◌, ltb, length, take, drop, replicate, write_at, append_nil, append_assoc,
  take-append_le, take-append_ge, drop-append_le, drop-append_ge, take-all, drop-all, drop-drop,
  take-take, write_at-splice, length-append, length-take, length-drop, take-append-drop,
  length-write_at,
}
use mu_tap.Common.Float.{Float}
use mu_tap.Chain.Ring.{advance, first_run, copy_out, ring_read, ring_write}
use mu_tap.Detector.Loops.{at}

first_run-wraps : (size pos b : ℕ) → size - pos < b → first_run size pos b ≡ size - pos
unfolding first_run
first_run-wraps size pos b h = ground arith

first_run-fits : (size pos b : ℕ) → b ≤ size - pos → first_run size pos b ≡ b
unfolding first_run
first_run-fits size pos b h = ground arith

advance-wraps : (pos b size : ℕ) → size ≤ pos + b → advance pos b size ≡ pos + b - size
unfolding advance
advance-wraps pos b size h = ground arith

advance-fits : (pos b size : ℕ) → pos + b < size → advance pos b size ≡ pos + b
unfolding advance
advance-fits pos b size h = ground arith

pub advance-lt : (pos b size : ℕ) → pos < size → b ≤ size → 0 < size → advance pos b size < size
unfolding advance
advance-lt pos b size h k p = ground arith

module _ {S : Type 0} where
  -- The ring's samples, oldest first.
  abbrev pub queue : List S → ℕ → List S
  queue ring pos = drop pos ring ++ take pos ring

  pub length-queue :
      (ring : List S) (pos : ℕ) → pos ≤ length ring → length (queue ring pos) ≡ length ring
  length-queue ring pos h =
      length-append (drop pos ring) (take pos ring)
      ∙ omega (arith, length-drop pos ring, length-take pos ring)

  queue-append : (xs ys : List S) (k : ℕ) → k ≡ length xs → queue (xs ++ ys) k ≡ ys ++ xs
  queue-append xs ys k e =
      ap₂ ◌++◌ (drop-append_ge k xs ys (omega arith) ∙ ap (λ n. drop n ys) {y = 0} (omega arith))
        (take-append_le k xs ys (omega arith) ∙ take-all k xs (omega arith))

module _ {S : Type 0} ⦃f : Float S⦄ where
  copy_out-shift :
      (n i : ℕ) (x : S) (ring : List S) → copy_out n (i + 1) (x ∷ ring) ≡ copy_out n i ring
  unfolding copy_out
  copy_out-shift zero i x ring = refl
  copy_out-shift (suc n) i x ring =
      ap₂ ◌∷◌ (ap (at (x ∷ ring)) {x = i + 1} {y = suc i} (omega arith))
        (copy_out-shift n (i + 1) x ring)

  copy_out-take :
      (n i : ℕ) (ring : List S) → i + n ≤ length ring → copy_out n i ring ≡ take n (drop i ring)
  unfolding copy_out
  copy_out-take zero i ring h = refl
  copy_out-take (suc n) i [] h = absurd (omega arith)
  copy_out-take (suc n) zero (x ∷ ring) h =
      ap (◌∷◌ x) (copy_out-shift n 0 x ring ∙ copy_out-take n 0 ring (omega arith))
  copy_out-take (suc n) (suc i) (x ∷ ring) h =
      ap (λ k. copy_out (suc n) k (x ∷ ring)) {x = suc i} {y = i + 1} (omega arith)
      ∙ copy_out-shift (suc n) i x ring
      ∙ copy_out-take (suc n) i ring (omega arith)

  read-runs :
      (ring : List S) (pos b n : ℕ)
      → first_run (length ring) pos b ≡ n
      → pos + n ≤ length ring
      → b - n ≤ length ring
      → ring_read ring pos b ≡ take n (drop pos ring) ++ take (b - n) ring
  unfolding ring_read
  read-runs ring pos b n e h k =
      rw e (ap₂ ◌++◌ (copy_out-take n pos ring h) (copy_out-take (b - n) 0 ring (omega arith)))

  -- Reading a block no longer than the ring gives the oldest samples of its queue, wherever the
  -- ring wraps.
  pub ring_read-take :
      (ring : List S) (pos b : ℕ)
      → pos ≤ length ring
      → b ≤ length ring
      → ring_read ring pos b ≡ take b (queue ring pos)
  ring_read-take ring pos b h fits = elim (Bool-cases (ltb (length ring - pos) b)) [
    | inl e ↦
        let wraps : length ring - pos < b = ground arith in
        let n = length ring - pos in
        read-runs ring pos b n (first_run-wraps (length ring) pos b wraps) (omega arith)
          (omega arith)
        ∙ ap₂ ◌++◌ (take-all n (drop pos ring) (omega (arith, length-drop pos ring))) (
            sym (
              take-take (b - length (drop pos ring)) pos ring (omega (arith, length-drop pos ring))
              ∙ ap (λ k. take k ring) (omega (arith, length-drop pos ring))))
        ∙ sym
            (take-append_ge b (drop pos ring) (take pos ring) (omega (arith, length-drop pos ring)))
    | inr e ↦
        let room : b ≤ length ring - pos = ground arith in
        read-runs ring pos b b (first_run-fits (length ring) pos b room) (omega arith) (omega arith)
        ∙ ap (λ k. take b (drop pos ring) ++ take k ring) {y = 0} (omega arith)
        ∙ append_nil (take b (drop pos ring))
        ∙ sym
            (take-append_le b (drop pos ring) (take pos ring) (omega (arith, length-drop pos ring)))
  ]

module _ {S : Type 0} where
  write-runs :
      (ring : List S) (pos : ℕ) (src : List S) (n : ℕ)
      → first_run (length ring) pos (length src) ≡ n
      → ring_write ring pos src ≡ write_at 0 (drop n src) (write_at pos (take n src) ring)
  unfolding ring_write
  write-runs ring pos src n e = rw e refl

  write-wraps :
      (ring : List S) (pos : ℕ) (src : List S)
      → pos < length ring
      → length src ≤ length ring
      → length ring - pos < length src
      → let n = length ring - pos in
        ring_write ring pos src
        ≡ drop n src ++ (drop (length src - n) (take pos ring) ++ take n src)
  write-wraps ring pos src h fits wraps =
      let n = length ring - pos in
      let old = take pos ring in
      let len : length (take n src) ≡ n = omega (arith, length-take n src) in
      let len' : length (drop n src) ≡ length src - n = length-drop n src in
      let first : write_at pos (take n src) ring ≡ old ++ take n src =
        write_at-splice pos (take n src) ring (omega (arith, len))
        ∙ ap (λ ys. old ++ (take n src ++ ys)) (drop-all _ ring (omega (arith, len)))
        ∙ ap (λ ys. old ++ ys) (append_nil (take n src)) in
      write-runs ring pos src n (first_run-wraps (length ring) pos (length src) wraps)
      ∙ ap (write_at 0 (drop n src)) first
      ∙ write_at-splice 0 (drop n src) (old ++ take n src)
          (omega (arith, len, len', length-append old (take n src), length-take pos ring))
      ∙ ap (λ k. drop n src ++ drop k (old ++ take n src)) {y = length src - n}
          (omega (arith, len'))
      ∙ ap (λ ys. drop n src ++ ys)
          (drop-append_le (length src - n) old (take n src) (omega (arith, length-take pos ring)))

  write-fits :
      (ring : List S) (pos : ℕ) (src : List S)
      → pos < length ring
      → length src ≤ length ring - pos
      → ring_write ring pos src ≡ (take pos ring ++ src) ++ drop (pos + length src) ring
  write-fits ring pos src h room =
      let l = length src in
      let old = take pos ring in
      write-runs ring pos src l (first_run-fits (length ring) pos l room)
      ∙ ap₂ (λ a b. write_at 0 a (write_at pos b ring)) (drop-all l src (omega arith))
          (take-all l src (omega arith))
      ∙ write_at-splice pos src ring (omega arith)
      ∙ sym (append_assoc old src (drop (pos + l) ring))

  -- Writing a block no longer than the ring at a position inside it, and advancing, drops the
  -- oldest samples of its queue and appends the block, wherever the ring wraps.
  pub ring_write-queue :
      (ring : List S) (pos : ℕ) (src : List S)
      → pos < length ring
      → length src ≤ length ring
      → queue (ring_write ring pos src) (advance pos (length src) (length ring))
        ≡ drop (length src) (queue ring pos) ++ src
  ring_write-queue ring pos src h fits = elim (Bool-cases (ltb (length ring - pos) (length src))) [
    | inl e ↦
        let wraps : length ring - pos < length src = ground arith in
        let n = length ring - pos in
        let l = length src in
        let old = drop (l - n) (take pos ring) in
        ap₂ queue (write-wraps ring pos src h fits wraps)
          (advance-wraps pos l (length ring) (omega arith))
        ∙ queue-append (drop n src) (old ++ take n src) _ (omega (arith, length-drop n src))
        ∙ append_assoc old (take n src) (drop n src)
        ∙ ap (λ ys. old ++ ys) (take-append-drop n src)
        ∙ ap (λ ys. ys ++ src)
            (sym (
              drop-append_ge l (drop pos ring) (take pos ring) (omega (arith, length-drop pos ring))
              ∙ ap (λ k. drop k (take pos ring)) (omega (arith, length-drop pos ring))))
    | inr e ↦
        let room : length src ≤ length ring - pos = ground arith in
        let l = length src in
        let old = take pos ring in
        let rest = drop (pos + l) ring in
        let moved : rest ++ (old ++ src) ≡ drop l (drop pos ring ++ old) ++ src =
          sym (append_assoc rest old src)
          ∙ ap (λ ys. (ys ++ old) ++ src) (sym (drop-drop l pos ring))
          ∙ ap (λ ys. ys ++ src)
              (sym (drop-append_le l (drop pos ring) old (omega (arith, length-drop pos ring)))) in
        ap (λ ys. queue ys (advance pos l (length ring))) (write-fits ring pos src h room)
        ∙ (elim (Bool-cases (ltb (pos + l) (length ring))) [
          | inl short ↦
              let less : pos + l < length ring = ground arith in
              ap (queue ((old ++ src) ++ rest)) (advance-fits pos l (length ring) less)
              ∙ queue-append (old ++ src) rest (pos + l)
                  (omega (arith, length-append old src, length-take pos ring))
          | inr whole ↦
              let all : length ring ≤ pos + l = ground arith in
              let none_left : rest ≡ [] = drop-all (pos + l) ring all in
              let start : pos + l - length ring ≡ 0 = omega arith in
              ap (queue ((old ++ src) ++ rest)) (advance-wraps pos l (length ring) all ∙ start)
              ∙ ap (λ ys. queue ((old ++ src) ++ ys) 0) none_left
              ∙ append_nil ((old ++ src) ++ [])
              ∙ append_nil (old ++ src)
              ∙ ap (λ ys. ys ++ (old ++ src)) (sym none_left)
        ])
        ∙ moved
  ]

  pub length-ring_write :
      (ring : List S) (pos : ℕ) (src : List S) → length (ring_write ring pos src) ≡ length ring
  unfolding ring_write
  length-ring_write ring pos src =
      let n = first_run (length ring) pos (length src) in
      length-write_at 0 (drop n src) (write_at pos (take n src) ring)
      ∙ length-write_at pos (take n src) ring

module _ {A : Type 0} where
  pub drop-replicate : (n d : ℕ) (x : A) → drop n (replicate (d + n) x) ≡ replicate d x
  drop-replicate zero d x = ap (λ m. replicate m x) (omega arith)
  drop-replicate (suc n) d x =
      ap (λ m. drop (suc n) (replicate m x)) {y = suc (d + n)} (omega arith) ∙ drop-replicate n d x
