-- ===== src/Fdaf/Gate.antt =====
-- The coherence that gates the adaptation of the filter (include/mutap/fdaf.h: update_ipc()).
use mu_tap.Common.{
  ◌≡◌, ◌⊎◌, refl, true, false, not, ◌||◌, Bool-cases, inl, inr, List, if◌then◌else◌,
}
use mu_tap.Common.Float.{Float, Cast}
use mu_tap.Spectrum.{Reference}
use mu_tap.Fdaf.Coherence.{FdafConfig, CoherenceState, ipc_of, update_ipc}

module _ {S : Type 0} ⦃f : Float S⦄ where
  -- 0, 1, or a number that is above 0 and not above 1.
  abbrev pub IsUnit : S → Type 0
  IsUnit x =
      (x ≡ f.of_ℕ 0) ⊎ (x ≡ f.of_ℕ 1) ⊎ ((f.lt (f.of_ℕ 0) x ≡ true) × (f.lt (f.of_ℕ 1) x ≡ false))

  clamped-IsUnit :
      (raw : S)
      → let low = if not (f.lt (f.of_ℕ 0) raw) then f.of_ℕ 0 else raw in
        IsUnit (if f.lt (f.of_ℕ 1) low then f.of_ℕ 1 else low)
  clamped-IsUnit raw = elim (Bool-cases (f.lt (f.of_ℕ 0) raw)) [
    | inl e ↦ elim (Bool-cases (f.lt (f.of_ℕ 1) raw)) [
      | inl g ↦ rw (e, g) (inr (inl refl))
      | inr g ↦ rw (e, g) (inr (inr (e, g)))
    ]
    | inr e ↦ elim (Bool-cases (f.lt (f.of_ℕ 1) (f.of_ℕ 0))) [
      | inl g ↦ rw (e, g) (inr (inl refl))
      | inr g ↦ rw (e, g) (inl refl)
    ]
  ]

module _ {S : Type 0} (D : Type 0) ⦃f : Float S⦄ ⦃d : Float D⦄ ⦃c : Cast S D⦄ where
  ipc_of-IsUnit :
      (cfg : FdafConfig S) (weight explained total : S)
      → let ipc = ipc_of D cfg weight explained total in
        (ipc ≡ f.of_ℕ 0) ⊎ ((x : S) × (ipc ≡ f.sqrt x) × IsUnit x)
  unfolding ipc_of
  ipc_of-IsUnit cfg weight explained total =
      let z = f.of_ℕ 0 in
      let one = f.of_ℕ 1 in
      let a = cfg.ipc_smoothing in
      let m_eff = f.mul (f.div (f.add one a) (f.sub one a)) weight in
      let chance = if f.lt z m_eff then f.div (f.of_ℕ cfg.partitions) m_eff else one in
      let raw = f.div (f.sub (f.div explained total) chance) (f.sub one chance) in
      elim (Bool-cases (not (f.lt z total) || not (d.is_finite (c.to_double total)))) [
        | inl e ↦ rw e (inl refl)
        | inr e ↦ elim (Bool-cases (f.lt weight (f.dec 5 1) || f.le (f.dec 5 1) chance)) [
          | inl g ↦ rw (e, g) (inl refl)
          | inr g ↦ rw (e, g) (inr (_, refl, clamped-IsUnit raw))
        ]
      ]

  -- The coherence that update_ipc() leaves is 0 or the square root of a value that is 0, 1, or above 0
  -- and not above 1, whatever the spectra and the statistics held, NaNs included.
  pub update_ipc-IsUnit :
      (cfg : FdafConfig S) (e : List S) (ref : Reference S) (s : CoherenceState S)
      → let ipc = (update_ipc D cfg e ref s).ipc in
        (ipc ≡ f.of_ℕ 0) ⊎ ((x : S) × (ipc ≡ f.sqrt x) × IsUnit x)
  unfolding update_ipc
  update_ipc-IsUnit cfg e ref s = ipc_of-IsUnit cfg _ _ _
