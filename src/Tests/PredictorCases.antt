-- ===== src/Tests/PredictorCases.antt =====
-- The near-end models' theorems at concrete inputs.
use mu_tap.Common.{◌≡◌, ◌<◌, refl, arith, List, [], ◌∷◌, length, replicate, unrolled}
use mu_tap.Common.Float.{Fixed, fixed_float, fixed_cast, Fixed-IsIrreflexive}
use mu_tap.Predictor.Recursion.{levinson, fit}
use mu_tap.Predictor.Recursion.Bounds.{IsAchieved, levinson-IsAchieved}
use mu_tap.Predictor.Lpc
use mu_tap.Predictor.Lpc.{LpcPredictor}
use mu_tap.Predictor.Lpc.Streaming.{fir, apply-fir}
use mu_tap.Predictor.Speech.{SpeechPredictor, Tap, tap_ring, analyze_speech}
use mu_tap.Predictor.Speech.Pitch.{IsTap, analyze_speech-IsTap}
use mu_tap.Predictor.Speech.Streaming.{delayed, tap_ring-delayed}
use mu_tap.Tests.Data.{num}

levinson-IsAchieved_example :
    IsAchieved Fixed 2 (levinson Fixed (num 4 ∷ num 1 ∷ num 3 ∷ []) 2 (num 1))
    × (fit Fixed (num 4 ∷ num 1 ∷ num 3 ∷ []) 2 (num 1)
        ≡ (levinson Fixed (num 4 ∷ num 1 ∷ num 3 ∷ []) 2 (num 1)).1)
levinson-IsAchieved_example = levinson-IsAchieved Fixed (num 4 ∷ num 1 ∷ num 3 ∷ []) 2 (num 1)

abbrev short : LpcPredictor Fixed
short = record {
  cfg = record { order = 2; ridge = num 1 };
  a = num 1 ∷ num 2 ∷ num 3 ∷ [];
  r = num 0 ∷ num 0 ∷ num 0 ∷ [];
}

abbrev samples : List Fixed
samples = num 5 ∷ num 7 ∷ num 9 ∷ []

abbrev history : List Fixed
history = num 1 ∷ num 2 ∷ []

apply-fir_example :
    (Lpc.apply short samples history ≡ fir short.a 2 samples history)
    × ((Lpc.apply short samples history).0 ≡ num 7 ∷ num 9 ∷ [])
apply-fir_example = apply-fir short samples history refl

abbrev tap : Tap Fixed
tap = record { lag = 2; beta = num 1 }

abbrev ring : List Fixed
ring = num 1 ∷ num 2 ∷ num 3 ∷ []

tap_ring-delayed_example :
    let ((last, next), out) = tap_ring tap 3 samples (ring, 1) in
    ((unrolled next last, out) ≡ delayed tap 3 samples (unrolled 1 ring))
    × (length last ≡ 3)
    × (next < 3)
tap_ring-delayed_example = tap_ring-delayed tap 3 samples ring 1 (omega arith) refl (omega arith)

abbrev speech : SpeechPredictor Fixed
speech = record {
  cfg = record {
    short_term = record { order = 2; ridge = num 1 };
    min_lag = 1;
    max_lag = 2;
    analysis_capacity = 8;
    max_gain = num 1;
    voicing_threshold = num 0;
  };
  short = short;
  tap = tap;
}

analyze_speech-IsTap_example :
    IsTap speech.cfg 2 (analyze_speech Fixed (replicate 6 (num 2)) speech).tap
analyze_speech-IsTap_example =
    analyze_speech-IsTap Fixed Fixed-IsIrreflexive (replicate 6 (num 2)) speech refl (omega arith)
