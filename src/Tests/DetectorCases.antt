-- ===== src/Tests/DetectorCases.antt =====
-- The detector's theorems at concrete inputs.
use mu_tap.Common.{◌≡◌, refl, arith, some, List, [], ◌∷◌, ◌++◌, drop, ok, map}
use mathlib.Core.Option
use mu_tap.Common.Float.{Fixed, fixed_float, fixed_cast}
use mu_tap.Detector.Types.{DecisionState, HowlDetector, cleared}
use mu_tap.Detector.Loops.{near_max}
use mu_tap.Detector.Decide.{fit, push_line, decide}
use mu_tap.Detector.Decide.Verdict.{Block, ticks}
use mu_tap.Detector.Decide.Ring.{line_window, window-push_line}
use mu_tap.Detector.Decide.Fitting.{regress, fit-window}
use mu_tap.Detector.Decide.Bounds.{IsSized, decide-IsSized, cleared-IsSized}
use mu_tap.Detector.Block.{process_block}
use mu_tap.Detector.Block.Chunks.{by_sample, process_block-by_sample, process_block-append}
use mu_tap.Detector.Setup.{
  rate_ok, range_ok, times_ok, hold_ok, window_ok, thresholds_ok, validated, is_stable, resonator,
  cons_if, bank_from, built, of_bank, new_detector,
}
use mu_tap.Detector.Setup.Valid.{IsReady, new_detector-IsReady}
use mu_tap.Tests.Data.{num, params, config, detector}

abbrev four : List Fixed
four = num 1 ∷ num 2 ∷ num 3 ∷ num 4 ∷ []

abbrev two : List Fixed
two = num 5 ∷ num 6 ∷ []

process_block-append_example :
    process_block (four ++ two) detector
    ≡ Option.bind (process_block four detector) (process_block two)
process_block-append_example = process_block-append four two detector (omega arith)

process_block-by_sample_example : process_block four detector ≡ some (by_sample four detector)
process_block-by_sample_example = process_block-by_sample four detector (omega arith)

-- A ring of three slots of three bands, next to be written in its middle slot.
abbrev mid_ring : DecisionState Fixed
mid_ring = record (cleared 3 3) {
  ring = four ++ two ++ num 7 ∷ num 8 ∷ num 9 ∷ [];
  ring_pos = 1;
  ring_count = 3;
  level_db = num 10 ∷ num 12 ∷ num 11 ∷ [];
}

window-push_line_example :
    line_window params (push_line params mid_ring) 2
    ≡ drop 1 (line_window params mid_ring 2) ++ near_max 3 mid_ring.level_db 2 ∷ []
window-push_line_example =
    window-push_line params mid_ring 2 2 refl (omega arith) (omega arith) refl

fit-window_example :
    fit params mid_ring 1 ≡ regress 3 params.slope_w (line_window params mid_ring 1)
fit-window_example = fit-window params mid_ring 1 (omega arith) refl

abbrev even : List Fixed
even = num 1 ∷ num 1 ∷ num 1 ∷ []

abbrev silent_block : Block Fixed
silent_block = record { env = even; power = num 0 }

-- A block over the ceiling.
abbrev loud_block : Block Fixed
loud_block = record { env = even; power = num 60 }

abbrev fresh : DecisionState Fixed
fresh = cleared 3 3

abbrev fired : DecisionState Fixed
fired = decide params even (num 60) fresh

abbrev later : DecisionState Fixed
later = ticks params (silent_block ∷ silent_block ∷ []) fired

decide-IsSized_example : IsSized params (decide params even (num 1) fresh)
decide-IsSized_example =
    decide-IsSized params even (num 1) fresh refl (omega arith)
      (cleared-IsSized params (omega arith) (omega arith))

abbrev new_one : HowlDetector Fixed Fixed
new_one = built config (map (resonator config) (0 ∷ 1 ∷ 2 ∷ []))

new_one_lem : new_detector config ≡ ok new_one
unfolding new_detector validated rate_ok range_ok times_ok hold_ok window_ok thresholds_ok of_bank
    bank_from is_stable resonator cons_if
new_one_lem = refl

new_detector-IsReady_example : IsReady new_one
new_detector-IsReady_example = new_detector-IsReady config new_one new_one_lem
