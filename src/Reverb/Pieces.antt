-- ===== src/Reverb/Pieces.antt =====
-- The stages cut a block into pieces and lose nothing by it (include/mutap/reverb_stage.h).
use mu_tap.Common.{
  ℕ, zero, suc, ◌≤◌, ◌<◌, ◌≡◌, refl, ap, ap₂, sym, ◌∙◌, arith, Bool-cases, inl, inr, List, [], ◌∷◌,
  ◌++◌, length, take, drop, some, length-drop, take-append-drop, IsStreaming,
}
use mu_tap.Common.Float.{Float}
use mu_tap.Chain.Types.{Stage}
use mu_tap.Reverb.{
  Reverb, run_reverb, ReturnCore, is_mid, mix_left, mix_mid, mix, shifted_piece, pieces,
  shifted_block,
}

-- A reverb gives as many samples as it hears, and hears a block in any number of calls alike.
abbrev pub IsStreamingReverb : {R S : Type 0} → Reverb R S → Type 0
IsStreamingReverb {R} {S} v =
    ((xs : List S) (r : R) (c : ℕ) → length ((run_reverb ⦃v = v⦄ xs r).1 c) ≡ length xs)
    × ((r : R) → (run_reverb ⦃v = v⦄ [] r).0 ≡ r)
    × ((xs ys : List S) (r : R)
        → (run_reverb ⦃v = v⦄ (xs ++ ys) r).0
          ≡ (run_reverb ⦃v = v⦄ ys (run_reverb ⦃v = v⦄ xs r).0).0)
    × ((xs ys : List S) (r : R) (c : ℕ)
        → (run_reverb ⦃v = v⦄ (xs ++ ys) r).1 c
          ≡ (run_reverb ⦃v = v⦄ xs r).1 c
            ++ (run_reverb ⦃v = v⦄ ys (run_reverb ⦃v = v⦄ xs r).0).1 c)

module _ {S St : Type 0} (step : List S → St → St × List S) (streams : IsStreaming step) where
  -- The loop over the pieces is one call.
  pub pieces_lem :
      (b fuel : ℕ) (xs : List S) (st : St)
      → 0 < b
      → length xs ≤ fuel
      → pieces step b fuel xs st ≡ some (step xs st)
  unfolding pieces
  pieces_lem b zero [] st h enough = ap some (sym (streams.0 st))
  pieces_lem b zero (x ∷ xs) st h enough = absurd (omega arith)
  pieces_lem b (suc fuel) [] st h enough = ap some (sym (streams.0 st))
  pieces_lem b (suc fuel) (x ∷ xs) st h enough =
      let ys = x ∷ xs in
      let next = (step (take b ys) st).0 in
      rw (pieces_lem b fuel (drop b ys) next h (omega (arith, length-drop b ys))) (
        ap some (
          sym (streams.1 (take b ys) (drop b ys) st)
          ∙ ap (λ zs. step zs st) (take-append-drop b ys)))

module _ {S : Type 0} ⦃f : Float S⦄ where
  mix_left-append :
      (dry wet : S) (xs ys ls ms : List S)
      → length ls ≡ length xs
      → mix_left dry wet (xs ++ ys) (ls ++ ms) ≡ mix_left dry wet xs ls ++ mix_left dry wet ys ms
  unfolding mix_left
  mix_left-append dry wet [] ys [] ms h = refl
  mix_left-append dry wet [] ys (l ∷ ls) ms h = absurd (omega arith)
  mix_left-append dry wet (x ∷ xs) ys [] ms h = absurd (omega arith)
  mix_left-append dry wet (x ∷ xs) ys (l ∷ ls) ms h =
      ap (◌∷◌ (f.add (f.mul dry x) (f.mul wet l)))
        (mix_left-append dry wet xs ys ls ms (omega arith))

  mix_mid-append :
      (dry half : S) (xs ys ls ms rs ss : List S)
      → length ls ≡ length xs
      → length rs ≡ length xs
      → mix_mid dry half (xs ++ ys) (ls ++ ms) (rs ++ ss)
        ≡ mix_mid dry half xs ls rs ++ mix_mid dry half ys ms ss
  unfolding mix_mid
  mix_mid-append dry half [] ys [] ms [] ss h g = refl
  mix_mid-append dry half [] ys (l ∷ ls) ms rs ss h g = absurd (omega arith)
  mix_mid-append dry half [] ys [] ms (r ∷ rs) ss h g = absurd (omega arith)
  mix_mid-append dry half (x ∷ xs) ys [] ms rs ss h g = absurd (omega arith)
  mix_mid-append dry half (x ∷ xs) ys (l ∷ ls) ms [] ss h g = absurd (omega arith)
  mix_mid-append dry half (x ∷ xs) ys (l ∷ ls) ms (r ∷ rs) ss h g =
      ap (◌∷◌ (f.add (f.mul dry x) (f.mul half (f.add l r))))
        (mix_mid-append dry half xs ys ls ms rs ss (omega arith) (omega arith))

module _ {R S : Type 0} ⦃f : Float S⦄ where
  mix-append :
      (c : ReturnCore R S) (xs ys : List S) (os ps qs : ℕ → List S)
      → ((k : ℕ) → length (os k) ≡ length xs)
      → ((k : ℕ) → qs k ≡ os k ++ ps k)
      → mix c (xs ++ ys) qs ≡ mix c xs os ++ mix c ys ps
  unfolding mix
  mix-append c xs ys os ps qs len joined = elim (Bool-cases (is_mid c.mode)) [
    | inl e ↦
        rw (e, joined 0, joined 1)
          (mix_mid-append c.dry _ xs ys (os 0) (ps 0) (os 1) (ps 1) (len 0) (len 1))
    | inr e ↦ rw (e, joined 0) (mix_left-append c.dry c.wet xs ys (os 0) (ps 0) (len 0))
  ]

  mix_none : (c : ReturnCore R S) (os : ℕ → List S) → mix c [] os ≡ []
  unfolding mix mix_left mix_mid
  mix_none c os = elim (Bool-cases (is_mid c.mode)) [ inl e ↦ rw e refl | inr e ↦ rw e refl ]

module _ {T R S : Type 0} ⦃f : Float S⦄ ⦃t : Stage T S⦄ ⦃v : Reverb R S⦄ where
  shifted_piece-IsStreaming :
      IsStreamingReverb v
      → IsStreaming (t.run)
      → ((xs : List S) (s : T) → length (t.run xs s).1 ≡ length xs)
      → IsStreaming (shifted_piece {T = T} {R = R} {S = S})
  unfolding shifted_piece mix
  shifted_piece-IsStreaming (len, still, after, out) (quiet, joins) fills = (
    λ (s, c).
        ap₂ (λ a b. (a, b))
          (ap₂ (λ m r. (m, record c { reverb = r })) (ap (λ p. p.0) (quiet s)) (still c.reverb))
          (rw (quiet s) (mix_none c (run_reverb [] c.reverb).1)),
    λ xs ys (s, c).
        ap₂ (λ a b. (a, b))
          (ap₂ (λ m r. (m, record c { reverb = r })) (ap (λ p. p.0) (joins xs ys s))
            (after xs ys c.reverb))
          (rw (joins xs ys s) (
            mix-append c (t.run xs s).1 (t.run ys (t.run xs s).0).1 (run_reverb xs c.reverb).1
              (run_reverb ys (run_reverb xs c.reverb).0).1 (run_reverb (xs ++ ys) c.reverb).1
              (λ k. len xs c.reverb k ∙ sym (fills xs s)) (out xs ys c.reverb))),
  )

  -- The same of the shifted dry path, whose shifter too hears its input in any number of calls
  -- alike and gives a sample for each.
  pub shifted_block-whole :
      (xs : List S) (s : T) (c : ReturnCore R S)
      → IsStreamingReverb v
      → IsStreaming (t.run)
      → ((ys : List S) (u : T) → length (t.run ys u).1 ≡ length ys)
      → 0 < c.block
      → shifted_block xs (s, c) ≡ some (shifted_piece xs (s, c))
  unfolding shifted_block
  shifted_block-whole xs s c streams joins fills positive =
      pieces_lem shifted_piece (shifted_piece-IsStreaming streams joins fills) c.block (length xs)
        xs (s, c) positive (omega arith)
