-- ===== src/Kalman/Excitation.antt =====
-- The excitation-novelty discount (include/mutap/fd_kalman.h: process_block(), `upd`).
use mu_tap.Common.{ℕ, ◌+◌, ◌-◌, ◌*◌, ◌&&◌, List, leb, set, modify, if◌then◌else◌}
use mu_tap.Common.Float.{Float}
use mu_tap.Detector.Loops.{at}
use mu_tap.Spectrum.{Reference, loop, lagged}
use mu_tap.Fdaf.Coherence.{smooth, bin_power}
use mu_tap.Kalman.Types.{KalmanConfig, Novelty}

module _ {S : Type 0} ⦃f : Float S⦄ where
  unfoldable pub update_bin : KalmanConfig S → ℕ → S → S → S → Novelty S → Novelty S
  update_bin cfg bin nr ni mag s =
      let bc = cfg.novelty_smoothing in
      let coh_num =
        modify (modify s.coh_num (2 * bin) (smooth bc nr)) (2 * bin + 1) (smooth bc ni) in
      let coh_den = modify s.coh_den bin (smooth bc mag) in
      let one = f.of_ℕ 1 in
      let den = f.add (f.mul (at coh_den bin) (at coh_den bin)) cfg.regularization in
      let raw = f.sub one (f.div (bin_power coh_num bin) den) in
      let nu = if f.lt raw cfg.novelty_floor then cfg.novelty_floor else raw in
      record {
        coh_num = coh_num;
        coh_den = coh_den;
        nov = set s.nov bin (if f.lt one nu then one else nu);
      }

  -- `d < 0 ? -d : d`.
  abbrev pub magnitude : S → S
  magnitude x = if f.lt x (f.of_ℕ 0) then f.neg x else x

  -- The body of the loop over the bins.
  abbrev pub update_pair : KalmanConfig S → List S → List S → ℕ → Novelty S → Novelty S
  update_pair cfg u up k s =
      let ar = at u (2 * k) in
      let ai = at u (2 * k + 1) in
      let br = at up (2 * k) in
      let bi = at up (2 * k + 1) in
      update_bin cfg k (f.add (f.mul ar br) (f.mul ai bi)) (f.sub (f.mul ai br) (f.mul ar bi))
        (f.sqrt (f.mul (bin_power u k) (bin_power up k))) s

  unfoldable pub update_novelty : KalmanConfig S → Reference S → Novelty S → Novelty S
  unfolding update_bin
  update_novelty cfg ref s =
      let half = cfg.block_size in
      let z = f.of_ℕ 0 in
      let u = lagged cfg.partitions ref.head ref.u 0 in
      let up = lagged cfg.partitions ref.head ref.u 1 in
      let d0 = f.mul (at u 0) (at up 0) in
      let dn = f.mul (at u 1) (at up 1) in
      if f.lt z cfg.novelty_smoothing && leb 2 cfg.partitions
      then loop (update_pair cfg u up) (half - 1) 1
          (update_bin cfg half dn z (magnitude dn) (update_bin cfg 0 d0 z (magnitude d0) s))
      else s
