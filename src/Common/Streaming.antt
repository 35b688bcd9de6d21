-- ===== src/Common/Streaming.antt =====
-- Operations on blocks of samples that hear a stream in any number of calls alike.
use mathlib.Core.Path.{◌≡◌}
use mathlib.Core.List.{List, [], ◌++◌}

-- One call after another, with the outputs joined.
abbrev pub followed :
    {S T St : Type 0} → (List S → St → St × List T) → List S → List S → St → St × List T
followed step xs ys st =
    let (next, out) = step xs st in let (last, rest) = step ys next in (last, out ++ rest)

-- A call on two runs of samples does what a call on each does.
abbrev pub IsStreaming : {S T St : Type 0} → (List S → St → St × List T) → Type 0
IsStreaming {S} {T} {St} step =
    ((st : St) → step [] st ≡ (st, []))
    × ((xs ys : List S) (st : St) → step (xs ++ ys) st ≡ followed step xs ys st)
