-- ===== src/Guard/Attribution/Outcome.antt =====
-- What attribution promises: a trip reaches every mic that is loud at the shared peak, and every
-- mic once it persists (include/mutap/howl_guard.h: attribute()).
use mu_tap.Common.{
  ℕ, ◌≤◌, ◌≡◌, refl, ◌⊎◌, Bool, true, false, not, ◌&&◌, ◌||◌, arith, List, [], ◌∷◌, map, All, leb,
  le→leb, inc, Bool-cases, inl, inr,
}
use mu_tap.Common.Float.{Float}
use mu_tap.Guard.Types.{Settings, MicState}
use mu_tap.Guard.Attribution.{
  Reading, Episode, Mic, states, band_level, in_howl, find_band, shared_peak, loudest_of, set_trip,
  pick, left_out, share, attribute,
}

or-false : (a b : Bool) → (a || b) ≡ false → (a ≡ false) × (b ≡ false)
or-false true b h = ground arith
or-false false b h = (refl, h)

not-false : (a : Bool) → not a ≡ false → a ≡ true
not-false true h = refl
not-false false h = ground arith

opens-or : (b : Bool) → ((true && not b) || b) ≡ true
opens-or true = refl
opens-or false = refl

module _ {S : Type 0} ⦃f : Float S⦄ (c : Settings S) where
  trip-All : (mics : List (MicState S)) → All (λ s. s.trip ≡ true) (map (set_trip true) mics)
  unfolding set_trip
  trip-All [] = tt
  trip-All (s ∷ mics) = (refl, trip-All mics)

  -- Once an episode that left a mic out has lasted the attribution window, a tick with any trip
  -- gives the TRIP to every mic, counts one fallback and ends the episode.
  pub attribute-fallback :
      (m n : Mic S) (mics : List (Mic S)) (e : Episode)
      → e.active ≡ true
      → c.window_ticks ≤ e.age
      → let (after, e') = attribute c true (m ∷ n ∷ mics) e in
        All (λ s. s.trip ≡ true) after × (e'.active ≡ false) × (e'.fallbacks ≡ inc e.fallbacks)
  unfolding attribute
  attribute-fallback m n mics e act old =
      rw (act, le→leb _ _ old) (trip-All (states (m ∷ n ∷ mics)), refl, refl)

  -- No mic is left out of a `pick` exactly when each got the TRIP.
  pick-left_out :
      (band : ℕ) (loudest : S) (mics : List (Mic S))
      → left_out c band loudest mics ≡ false
      → All (λ s. s.trip ≡ true) (pick c band loudest mics)
  unfolding pick left_out
  pick-left_out band loudest [] h = tt
  pick-left_out band loudest ((s, d) ∷ mics) h =
      (not-false _ (or-false _ _ h).0, pick-left_out band loudest mics (or-false _ _ h).1)

  -- Each mic has the TRIP exactly if its level in the band is at most attrib_db below the loudest.
  abbrev pub Reaches : ℕ → S → List (Mic S) → List (MicState S) → Type 0
  Reaches band loudest [] after = after ≡ []
  Reaches band loudest ((s, d) ∷ mics) [] = ⊥
  Reaches band loudest ((s, d) ∷ mics) (a ∷ after) =
      (a.trip ≡ f.le (f.sub loudest c.attrib) (band_level band d.bands))
      × Reaches band loudest mics after

  pick-Reaches :
      (band : ℕ) (loudest : S) (mics : List (Mic S))
      → Reaches band loudest mics (pick c band loudest mics)
  unfolding pick set_trip in_howl
  pick-Reaches band loudest [] = refl
  pick-Reaches band loudest ((s, d) ∷ mics) = (refl, pick-Reaches band loudest mics)

  -- The band of the shared peak, that of the mic whose detector tripped with the most power, and the
  -- largest level that a mic has in it.
  abbrev pub shared_band : Reading S → List (Mic S) → ℕ
  shared_band first mics =
      let ref = shared_peak (f.neg f.infinity) first mics in find_band 0 ref.peak_hz ref.bands

  abbrev pub shared_level : Reading S → List (Mic S) → S
  shared_level first mics = loudest_of (shared_band first mics) (f.neg f.infinity) mics

  share-armed :
      (first : Reading S) (mics : List (Mic S)) (e : Episode)
      → let (after, e') = share c first mics e in
        All (λ s. s.trip ≡ true) after
        ⊎ ((e'.active ≡ true)
            × Reaches (shared_band first mics) (shared_level first mics) mics after)
  unfolding share
  share-armed first mics e =
      let ref = shared_peak (f.neg f.infinity) first mics in
      let band = find_band 0 ref.peak_hz ref.bands in
      let loudest = loudest_of band (f.neg f.infinity) mics in
      elim (Bool-cases (left_out c band loudest mics)) [
        | inl some_out ↦ rw some_out (inr (opens-or e.active, pick-Reaches band loudest mics))
        | inr none_out ↦ inl (pick-left_out band loudest mics none_out)
      ]

  -- With several mics, a tick with any trip gives the TRIP to every mic; or it leaves an episode
  -- running and gives the TRIP to exactly the mics whose level at the shared peak is at most attrib_db
  -- below the loudest one there.
  pub attribute-armed :
      (m n : Mic S) (mics : List (Mic S)) (e : Episode)
      → let (after, e') = attribute c true (m ∷ n ∷ mics) e in
        All (λ s. s.trip ≡ true) after
        ⊎ ((e'.active ≡ true)
            × Reaches
                (shared_band m.1 (m ∷ n ∷ mics))
                (shared_level m.1 (m ∷ n ∷ mics))
                (m ∷ n ∷ mics)
                after)
  unfolding attribute
  attribute-armed m n mics e = elim (Bool-cases (e.active && leb c.window_ticks e.age)) [
    | inl old ↦ rw old (inl (trip-All (states (m ∷ n ∷ mics))))
    | inr young ↦ rw young (share-armed m.1 (m ∷ n ∷ mics) e)
  ]
