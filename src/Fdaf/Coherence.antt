-- ===== src/Fdaf/Coherence.antt =====
-- The coherence-based adaptation control (include/mutap/fdaf.h: config, update_ipc()).
use mu_tap.Common.{ℕ, ◌+◌, ◌-◌, ◌*◌, Bool, not, ◌&&◌, ◌||◌, List, ◌∷◌, modify, if◌then◌else◌}
use mu_tap.Common.Float.{Float, Cast}
use mu_tap.Detector.Loops.{at}
use mu_tap.Spectrum.{Reference, loop, lagged}

pub record FdafConfig (S : Type 0) : Type 0 where
  pub block_size : ℕ
  pub partitions : ℕ
  pub step_size : S
  pub regularization : S
  pub power_smoothing : S
  pub constrained : Bool
  pub relative_regularization : S
  pub ipc_smoothing : S
  pub ipc_step_scaling : Bool
  pub ipc_freeze_threshold : S
  pub transient_freeze_ratio : S

pub record CoherenceState (S : Type 0) : Type 0 where
  pub s_cross : List (List S)
  pub s_uu : List (List S)
  pub s_ee : List S
  pub ipc : S
  pub transient : Bool
  pub ee_weight : S

-- One partition's rows, and the power explained so far.
pub record PartitionSums (S : Type 0) : Type 0 where
  pub sc : List S
  pub su : List S
  pub explained : S

module _ {S : Type 0} ⦃f : Float S⦄ where
  -- `a * s + one_a * x * y` and `a * s + one_a * x`.
  abbrev pub smooth₂ : S → S → S → S → S
  smooth₂ a x y s = f.add (f.mul a s) (f.mul (f.mul (f.sub (f.of_ℕ 1) a) x) y)

  abbrev pub smooth : S → S → S → S
  smooth a x s = f.add (f.mul a s) (f.mul (f.sub (f.of_ℕ 1) a) x)

  -- `re * re + im * im` of bin k.
  abbrev pub bin_power : List S → ℕ → S
  bin_power x k =
      f.add (f.mul (at x (2 * k)) (at x (2 * k))) (f.mul (at x (2 * k + 1)) (at x (2 * k + 1)))

  -- conj(U) * E of bin k.
  abbrev pub cross_re : List S → List S → ℕ → S
  cross_re u e k =
      f.add (f.mul (at u (2 * k)) (at e (2 * k))) (f.mul (at u (2 * k + 1)) (at e (2 * k + 1)))

  abbrev pub cross_im : List S → List S → ℕ → S
  cross_im u e k =
      f.sub (f.mul (at u (2 * k)) (at e (2 * k + 1))) (f.mul (at u (2 * k + 1)) (at e (2 * k)))

  unfoldable pub error_power : ℕ → List S → S
  error_power half e =
      loop (λ k acc. f.add acc (bin_power e k)) (half - 1) 1
        (f.add (f.mul (at e 0) (at e 0)) (f.mul (at e 1) (at e 1)))

  -- The sum of entries 0 .. half.
  unfoldable pub total_of : ℕ → List S → S
  total_of half s = loop (λ k acc. f.add acc (at s k)) (half + 1) 0 (f.of_ℕ 0)

  -- The bodies of the loops over the bins are named, for what each keeps.
  abbrev pub smooth_error_bin : S → List S → ℕ → List S → List S
  smooth_error_bin a e k row = modify row k (smooth a (bin_power e k))

  unfoldable pub smooth_error : S → ℕ → List S → List S → List S
  smooth_error a half e s =
      loop (smooth_error_bin a e) (half - 1) 1
        (modify (modify s 0 (smooth₂ a (at e 0) (at e 0))) half (smooth₂ a (at e 1) (at e 1)))

  -- `if (su > 0) explained += num / su`.
  abbrev pub explain : S → S → S → S
  explain num su acc = if f.lt (f.of_ℕ 0) su then f.add acc (f.div num su) else acc

  -- The body of the loop over the bins of a partition.
  unfoldable pub smooth_bin : S → List S → List S → ℕ → PartitionSums S → PartitionSums S
  smooth_bin a u e k p =
      let su = modify p.su k (smooth a (bin_power u k)) in
      let sc =
        modify (modify p.sc (2 * k) (smooth a (cross_re u e k))) (2 * k + 1)
          (smooth a (cross_im u e k)) in
      record { sc = sc; su = su; explained = explain (bin_power sc k) (at su k) p.explained }

  unfoldable pub smooth_partition : S → ℕ → List S → List S → PartitionSums S → PartitionSums S
  unfolding smooth_bin
  smooth_partition a half u e p =
      let su =
        modify (modify p.su 0 (smooth₂ a (at u 0) (at u 0))) half (smooth₂ a (at u 1) (at u 1)) in
      let sc =
        modify (modify p.sc 0 (smooth₂ a (at u 0) (at e 0))) 1 (smooth₂ a (at u 1) (at e 1)) in
      loop (smooth_bin a u e) (half - 1) 1 (record {
        sc = sc;
        su = su;
        explained =
            explain (f.mul (at sc 1) (at sc 1)) (at su half)
              (explain (f.mul (at sc 0) (at sc 0)) (at su 0) p.explained);
      })

  -- The loop over the partitions p, p + 1, ...: the smoothed rows and the explained power.
  unfoldable pub smooth_partitions :
      S
      → ℕ
      → ℕ
      → Reference S
      → List S
      → ℕ
      → List (List S)
      → List (List S)
      → S
      → List (List S) × (List (List S) × S)
  unfolding smooth_partition
  smooth_partitions a half p_n ref e p (sc ∷ scs) (su ∷ sus) explained =
      let u = lagged p_n ref.head ref.u p in
      let done = smooth_partition a half u e (record { sc = sc; su = su; explained = explained }) in
      let (crosses, (autos, total)) =
        smooth_partitions a half p_n ref e (p + 1) scs sus done.explained in
      (done.sc ∷ crosses, (done.su ∷ autos, total))
  smooth_partitions a half p_n ref e p scs sus explained = (scs, (sus, explained))

module _ {S : Type 0} (D : Type 0) ⦃f : Float S⦄ ⦃d : Float D⦄ ⦃c : Cast S D⦄ where
  -- The end of update_ipc(): the coherence from its sums.
  unfoldable pub ipc_of : FdafConfig S → S → S → S → S
  ipc_of cfg weight explained total =
      let z = f.of_ℕ 0 in
      let one = f.of_ℕ 1 in
      let a = cfg.ipc_smoothing in
      let coherent = f.div explained total in
      let m_eff = f.mul (f.div (f.add one a) (f.sub one a)) weight in
      let chance = if f.lt z m_eff then f.div (f.of_ℕ cfg.partitions) m_eff else one in
      let raw = f.div (f.sub coherent chance) (f.sub one chance) in
      let low = if not (f.lt z raw) then z else raw in
      let ipc2 = if f.lt one low then one else low in
      if not (f.lt z total) || not (d.is_finite (c.to_double total))
      then z
      else if f.lt weight (f.dec 5 1) || f.le (f.dec 5 1) chance
      then z
      else f.sqrt ipc2

  unfoldable pub update_ipc :
      FdafConfig S → List S → Reference S → CoherenceState S → CoherenceState S
  unfolding error_power total_of smooth_error smooth_partitions ipc_of
  update_ipc cfg e ref s =
      let z = f.of_ℕ 0 in
      let half = cfg.block_size in
      let a = cfg.ipc_smoothing in
      let prev_total = total_of half s.s_ee in
      let prev_mean = if f.lt z s.ee_weight then f.div prev_total s.ee_weight else z in
      let weight = f.add (f.mul a s.ee_weight) (f.sub (f.of_ℕ 1) a) in
      let s_ee = smooth_error a half e s.s_ee in
      let (s_cross, (s_uu, explained)) =
        smooth_partitions a half cfg.partitions ref e 0 s.s_cross s.s_uu z in
      record {
        s_cross = s_cross;
        s_uu = s_uu;
        s_ee = s_ee;
        ipc = ipc_of cfg weight explained (total_of half s_ee);
        transient =
            f.lt z cfg.transient_freeze_ratio
            && f.lt z prev_mean
            && f.lt (f.mul cfg.transient_freeze_ratio prev_mean) (error_power half e);
        ee_weight = weight;
      }
