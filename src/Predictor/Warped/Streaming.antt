-- ===== src/Predictor/Warped/Streaming.antt =====
-- apply() of the warped predictor over a stream (include/mutap/lpc.h:
-- warped_lpc_predictor::apply()).
use mu_tap.Common.{◌≡◌, refl, ap, List, [], ◌∷◌, ◌++◌, drop, followed, IsStreaming}
use mu_tap.Common.Float.{Float}
use mu_tap.Predictor.Warped.{WarpedPredictor, chain, apply_sections, apply}

module _ {S : Type 0} ⦃f : Float S⦄ where
  apply_sections-append :
      (l : S) (ws xs ys states : List S)
      → apply_sections l ws (xs ++ ys) states ≡ followed (apply_sections l ws) xs ys states
  unfolding apply_sections
  apply_sections-append l ws [] ys states = refl
  apply_sections-append l ws (x ∷ xs) ys states =
      ap (λ (last, out). (last, (chain l ws states x x).1 ∷ out))
        (apply_sections-append l ws xs ys (chain l ws states x x).0)

  -- A stream in two blocks gives what it gives in one, whatever the sections hold.
  pub apply-IsStreaming : (p : WarpedPredictor S) → IsStreaming (apply p)
  unfolding apply apply_sections
  apply-IsStreaming p =
      (λ states. refl, λ xs ys states. apply_sections-append p.cfg.lambda (drop 1 p.a) xs ys states)
