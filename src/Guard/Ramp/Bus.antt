-- ===== src/Guard/Ramp/Bus.antt =====
-- The post-reverb bus is only ever cut, and only by ducking mics (include/mutap/howl_guard.h:
-- render() and the bus stage).
use mu_tap.Common.{
  ℕ, zero, suc, ◌≡◌, refl, ◌∙◌, ap, false, arith, List, [], ◌∷◌, replicate, All, Bool-cases, inl,
  inr,
}
use mu_tap.Common.Float.{Float, fmin, IsIrreflexive}
use mu_tap.Guard.Types.{Settings, MicState}
use mu_tap.Guard.Machine.{target_db, target_db}
use mu_tap.Guard.Ramp.{is_ducking, retarget, advance, gains, deepen, cut, render_from, render}

module _ {S : Type 0} ⦃f : Float S⦄ (laws : IsIrreflexive S) (c : Settings S) where
  open f use {of_ℕ, lt, mul}

  -- A gain that does not exceed 0 dB.
  abbrev pub IsCut : S → Type 0
  IsCut g = lt (of_ℕ 1) g ≡ false

  IsCut-fmin : (y g : S) → IsCut y → IsCut (fmin y (fmin g (of_ℕ 1)))
  IsCut-fmin y g h = ground (arith, laws.lt_irrefl (of_ℕ 1))

  deepen-IsCut : (inv : S) (gs bus : List S) → All IsCut bus → All IsCut (deepen inv gs bus)
  unfolding deepen
  deepen-IsCut inv [] bus h = h
  deepen-IsCut inv (g ∷ gs) [] h = tt
  deepen-IsCut inv (g ∷ gs) (y ∷ bus) (h, hs) =
      (IsCut-fmin y (mul g inv) h, deepen-IsCut inv gs bus hs)

  cut-IsCut : (s : MicState S) (gs bus : List S) → All IsCut bus → All IsCut (cut c s gs bus)
  unfolding cut
  cut-IsCut s gs bus h = elim (Bool-cases (is_ducking s.state)) [
    | inl e ↦ rw e (deepen-IsCut _ gs bus h)
    | inr e ↦ rw e h
  ]

  render_from-IsCut :
      (b : ℕ) (mics : List (MicState S)) (bus : List S)
      → All IsCut bus
      → All IsCut (render_from c b mics bus).bus
  unfolding render_from
  render_from-IsCut b [] bus h = h
  render_from-IsCut b (s ∷ mics) bus h =
      let t = retarget c (target_db c s) s in
      render_from-IsCut b mics (cut c (advance c b t) (gains c b t) bus)
        (cut-IsCut (advance c b t) (gains c b t) bus h)

  ones-IsCut : (n : ℕ) → All IsCut (replicate n (of_ℕ 1))
  ones-IsCut zero = tt
  ones-IsCut (suc n) = (laws.lt_irrefl (of_ℕ 1), ones-IsCut n)

  -- No bus gain exceeds 1, whatever the mics' states, gains and targets are, NaNs included; of the
  -- arithmetic this takes only that no number is below itself.
  pub render-IsCut : (b : ℕ) (mics : List (MicState S)) → All IsCut (render c b mics).bus
  unfolding render
  render-IsCut b mics = render_from-IsCut b mics (replicate b (of_ℕ 1)) (ones-IsCut b)

module _ {S : Type 0} ⦃f : Float S⦄ (c : Settings S) where
  open f use {of_ℕ}

  kept : (b : ℕ) (s : MicState S) → (advance c b (retarget c (target_db c s) s)).state ≡ s.state
  unfolding advance retarget
  kept b s = ground arith

  cut-open : (s : MicState S) (gs bus : List S) → is_ducking s.state ≡ false → cut c s gs bus ≡ bus
  unfolding cut
  cut-open s gs bus e = rw e

  render_from-open :
      (b : ℕ) (mics : List (MicState S)) (bus : List S)
      → All (λ s. is_ducking s.state ≡ false) mics
      → (render_from c b mics bus).bus ≡ bus
  unfolding render_from
  render_from-open b [] bus h = refl
  render_from-open b (s ∷ mics) bus (h, hs) =
      let t = retarget c (target_db c s) s in
      let same : cut c (advance c b t) (gains c b t) bus ≡ bus =
        cut-open (advance c b t) (gains c b t) bus (ap is_ducking (kept b s) ∙ h) in
      render_from-open b mics (cut c (advance c b t) (gains c b t) bus) hs ∙ same

  -- With every mic outside DUCKED and RELEASING the bus is untouched: each gain is exactly 1.
  pub render-open :
      (b : ℕ) (mics : List (MicState S))
      → All (λ s. is_ducking s.state ≡ false) mics
      → (render c b mics).bus ≡ replicate b (of_ℕ 1)
  unfolding render
  render-open b mics h = render_from-open b mics (replicate b (of_ℕ 1)) h
