-- ===== src/Guard/Attribution.antt =====
-- Which mics get a tick's detector trips (include/mutap/howl_guard.h: attribute(), and the file
-- comment's "PER-MIC ATTRIBUTION").
pub mod Outcome
use mu_tap.Common.{
  ℕ, zero, suc, ◌+◌, ◌==◌, ◌≡◌, refl, Bool, true, false, not, ◌&&◌, ◌||◌, leb, max, List, [], ◌∷◌,
  map, length, inc, if◌then◌else◌,
}
use mu_tap.Common.Float.{Float, fmax}
use mu_tap.Guard.Types.{Settings, MicState}

-- What attribute() reads of a mic's detector: power_db(), peak_hz(), band_hz(b) and
-- band_level_db(b) for each of its bands.
pub record Reading (S : Type 0) : Type 0 where
  pub power_db : S
  pub peak_hz : S
  pub bands : List (record { hz : S; level_db : S })

-- The members m_episode, m_episode_age, m_episode_quiet and m_fallbacks.
pub record Episode : Type 0 where
  pub active : Bool
  pub age : ℕ
  pub quiet : ℕ
  pub fallbacks : ℕ

abbrev pub Mic : Type 0 → Type 0
Mic S = MicState S × Reading S

abbrev pub states : {S : Type 0} → List (Mic S) → List (MicState S)
states [] = []
states ((s, d) ∷ mics) = s ∷ states mics

module _ {S : Type 0} ⦃f : Float S⦄ where
  open f use {of_ℕ, sub, lt, le, eq, neg, infinity}

  -- The first band of the detector whose centre is hz (0 if there is none).
  unfoldable pub find_band : ℕ → S → List (record { hz : S; level_db : S }) → ℕ
  find_band b hz [] = 0
  find_band b hz (r ∷ rs) = if eq r.hz hz then b else find_band (b + 1) hz rs

  unfoldable pub band_level : ℕ → List (record { hz : S; level_db : S }) → S
  band_level b [] = of_ℕ 0
  band_level zero (r ∷ rs) = r.level_db
  band_level (suc b) (r ∷ rs) = band_level b rs

  -- The tripping mic with the largest block power, from `best` and the reading held so far.
  unfoldable pub shared_peak : S → Reading S → List (Mic S) → Reading S
  shared_peak best ref [] = ref
  shared_peak best ref ((s, d) ∷ mics) =
      let wins = s.raw_trip && lt best d.power_db in
      shared_peak (if wins then d.power_db else best) (if wins then d else ref) mics

  unfoldable pub loudest_of : ℕ → S → List (Mic S) → S
  loudest_of band acc [] = acc
  loudest_of band acc ((s, d) ∷ mics) = loudest_of band (fmax acc (band_level band d.bands)) mics

  unfoldable pub in_howl : Settings S → ℕ → S → Reading S → Bool
  in_howl c band loudest d = le (sub loudest c.attrib) (band_level band d.bands)

  unfoldable pub set_trip : Bool → MicState S → MicState S
  set_trip trip s = record s { trip = trip }

  -- m_mics[m].trip = in, for every mic.
  unfoldable pub pick : Settings S → ℕ → S → List (Mic S) → List (MicState S)
  unfolding in_howl set_trip
  pick c band loudest [] = []
  pick c band loudest ((s, d) ∷ mics) =
      set_trip (in_howl c band loudest d) s ∷ pick c band loudest mics

  unfoldable pub left_out : Settings S → ℕ → S → List (Mic S) → Bool
  unfolding in_howl
  left_out c band loudest [] = false
  left_out c band loudest ((s, d) ∷ mics) =
      not (in_howl c band loudest d) || left_out c band loudest mics

  -- The tick with no trip: the episode ends when it has been quiet.
  unfoldable pub calm : Settings S → Episode → Episode
  calm c e =
      let quiet = inc e.quiet in
      if e.active
      then record e { quiet = quiet; active = not (leb (max c.quiet_ticks 1) quiet) }
      else e

  -- The tick with trips on several mics and no fallback.
  unfoldable pub share :
      Settings S → Reading S → List (Mic S) → Episode → List (MicState S) × Episode
  unfolding find_band shared_peak loudest_of pick left_out
  share c first mics e =
      let ref = shared_peak (neg infinity) first mics in
      let band = find_band 0 ref.peak_hz ref.bands in
      let loudest = loudest_of band (neg infinity) mics in
      let opens = left_out c band loudest mics && not e.active in
      (
        pick c band loudest mics,
        record e { active = opens || e.active; age = if opens then 0 else e.age; quiet = 0 },
      )

  unfoldable pub fall_back : List (Mic S) → Episode → List (MicState S) × Episode
  unfolding set_trip
  fall_back mics e = (
    map (set_trip true) (states mics),
    record e { active = false; quiet = 0; fallbacks = inc e.fallbacks },
  )

  unfoldable pub attribute :
      Settings S → Bool → List (Mic S) → Episode → List (MicState S) × Episode
  unfolding calm share fall_back set_trip
  attribute c any_trip [] e = ([], if any_trip then record e { quiet = 0 } else calm c e)
  attribute c any_trip ((s, d) ∷ []) e =
      if any_trip then (set_trip true s ∷ [], record e { quiet = 0 }) else (s ∷ [], calm c e)
  attribute c any_trip (m ∷ n ∷ mics) e =
      let all = m ∷ n ∷ mics in
      if not any_trip
      then (states all, calm c e)
      else if e.active && leb c.window_ticks e.age
      then fall_back all e
      else share c m.1 all e
