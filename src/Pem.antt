-- ===== src/Pem.antt =====
-- The feedback canceller: an adaptive core on a prewhitened pair (include/mutap/pem_afc.h: pem_afc).
pub mod Window
pub mod Watchdog
pub mod Comparator
pub mod Cores
use mu_tap.Common.{
  inc, ℕ, zero, suc, ◌+◌, ◌-◌, ◌*◌, ◌%◌, ◌==◌, Bool, true, false, not, ◌&&◌, ◌||◌, List, [], ◌∷◌,
  length, map, replicate, set, write_at, ltb, Option, none, some, Result, ok, err, ◌>>=◌,
  if◌then◌else◌,
}
use mathlib.Core.Option
use mu_tap.Common.Float.{Float}
use mu_tap.Detector.Loops.{at}
use mu_tap.Spectrum.{
  Fft, Reference, checked_fft_size, finite_power, sum_of_squares, zeros, subtract, loop, take_block,
  estimate, clear_reference,
}

-- The core, a template argument: its taps are the spectra of its partitions, and the count of its
-- trips is none for a core without a watchdog.
pub record Core (C S : Type 0) : Type 0 where
  pub block_size : C → ℕ
  pub partitions : C → ℕ
  pub adapting : C → Bool
  pub set_adaptation : Bool → C → C
  pub taps : C → List (List S)
  pub process : List S → List S → C → C × List S
  pub clear : C → C
  pub watchdog_trips : C → Option ℕ

-- The near-end model, a template argument, with its stream state T.
pub record NearEnd (P T S : Type 0) : Type 0 where
  pub make_state : P → T
  pub reset_state : P → T → T
  pub analyze : List S → P → P
  pub apply : P → List S → T → T × List S

-- The shadow, a small Kalman core.
pub record Shadow (K S : Type 0) : Type 0 where
  pub process : List S → List S → K → K × List S
  pub clear : K → K

pub data PemError : Type 0 where
  bad_fft_size short_window ragged_window bad_shadow bad_transition bad_smoothing : PemError

-- block_size and partitions are the core's configuration's.
pub record PemConfig (S : Type 0) : Type 0 where
  pub block_size : ℕ
  pub partitions : ℕ
  pub analysis_window : ℕ
  pub shadow_partitions : ℕ
  pub shadow_transition : S
  pub shadow_smoothing : S

-- echo is the half of m_time that echo_estimate_block() points at; the other scratch arrays hold
-- nothing between blocks.
pub record Pem (C P T K S : Type 0) : Type 0 where
  pub cfg : PemConfig S
  pub core : C
  pub predictor : P
  pub u_state : T
  pub y_state : T
  pub ref : Reference S
  pub e_window : List S
  pub echo : List S
  pub shadow : Option K
  pub pm : S
  pub ps : S
  pub watchdog : ℕ

module _ {S : Type 0} ⦃f : Float S⦄ where
  unfoldable pub validated : ⦃t : Fft S⦄ → PemConfig S → Result PemError (PemConfig S)
  validated cfg =
      let z = f.of_ℕ 0 in
      let one = f.of_ℕ 1 in
      checked_fft_size S (2 * cfg.block_size) bad_fft_size >>= λ n.
      (if ltb cfg.analysis_window (2 * cfg.block_size)
        then err short_window
        else if not (cfg.analysis_window % cfg.block_size == 0)
        then err ragged_window
        else if ltb cfg.partitions cfg.shadow_partitions
        then err bad_shadow
        else if not (f.lt z cfg.shadow_transition) || not (f.le cfg.shadow_transition one)
        then err bad_transition
        else if not (f.le z cfg.shadow_smoothing) || not (f.lt cfg.shadow_smoothing one)
        then err bad_smoothing
        else ok cfg)

  -- 1e-30.
  abbrev pub power_floor : S
  power_floor = f.dec 1 30

  -- The body of the loop that moves the analysis window.
  abbrev pub move_back : ℕ → ℕ → List S → List S
  move_back b i window = set window i (at window (i + b))

  -- The window after a block e of b samples.
  unfoldable pub slide_window : ℕ → List S → List S → List S
  slide_window b e window =
      write_at (length window - b) e (loop (move_back b) (length window - b) 0 window)

module _ {C S : Type 0} ⦃f : Float S⦄ ⦃k : Core C S⦄ where
  -- The core on the prewhitened pair, by the count that it had before: the core after the call and
  -- its residual, and whether the pair was sound. A core without a watchdog hears a sound pair only.
  unfoldable pub run_core : Option ℕ → List S → List S → C → (C × List S) × Bool
  run_core none u y core =
      let z = f.of_ℕ 0 in
      let sound = finite_power (f.add (sum_of_squares z u) (sum_of_squares z y)) in
      (if sound then k.process u y core else (core, []), sound)
  run_core (some trips) u y core =
      let ran = k.process u y core in (ran, Option.get_or (k.watchdog_trips ran.0) trips == trips)

-- std::optional::has_value().
abbrev pub has_value : {A : Type 0} → Option A → Bool
has_value none = false
has_value (some a) = true

module _ {C P T K S : Type 0} ⦃f : Float S⦄ ⦃k : Core C S⦄ ⦃m : NearEnd P T S⦄
    ⦃q : Shadow K S⦄ where
  unfoldable pub reset : Pem C P T K S → Pem C P T K S
  reset s = record s {
    core = k.clear s.core;
    shadow = Option.map q.clear s.shadow;
    pm = f.of_ℕ 0;
    ps = f.of_ℕ 0;
    u_state = m.reset_state s.predictor s.u_state;
    y_state = m.reset_state s.predictor s.y_state;
    ref = clear_reference (k.partitions s.core) s.ref;
    e_window = zeros s.e_window;
  }

  -- The constructor, on the core, the model and the shadow that it builds.
  unfoldable pub new_pem :
      ⦃t : Fft S⦄ → PemConfig S → C → P → Option K → Result PemError (Pem C P T K S)
  new_pem config core predictor shadow = validated config >>= λ cfg.
      (let z = f.of_ℕ 0 in
        let n = 2 * cfg.block_size in
        ok (
          reset (record {
            cfg = cfg;
            core = core;
            predictor = predictor;
            u_state = m.make_state predictor;
            y_state = m.make_state predictor;
            ref = record {
              input = replicate n z;
              u = replicate cfg.partitions (replicate n z);
              head = 0;
            };
            e_window = replicate cfg.analysis_window z;
            echo = replicate cfg.block_size z;
            shadow = if cfg.shadow_partitions == 0 then none else shadow;
            pm = z;
            ps = z;
            watchdog = 0;
          })))

  unfoldable pub set_adaptation : Bool → Pem C P T K S → Pem C P T K S
  set_adaptation enabled s = record s { core = k.set_adaptation enabled s.core }

  unfoldable pub shadow_enabled : Pem C P T K S → Bool
  shadow_enabled s = has_value s.shadow

  unfoldable pub shadow_residual_ratio : Pem C P T K S → S
  unfolding shadow_enabled
  shadow_residual_ratio s =
      if not (shadow_enabled s) || (not (f.lt power_floor s.pm) && not (f.lt power_floor s.ps))
      then f.of_ℕ 1
      else f.div s.pm (f.add s.ps power_floor)

  unfoldable pub watchdog_trip : Pem C P T K S → Pem C P T K S × List S
  unfolding reset
  watchdog_trip s =
      (record (reset s) { watchdog = inc s.watchdog }, replicate (k.block_size s.core) (f.of_ℕ 0))

  -- update_shadow() on the prewhitened pair and the core's residual.
  unfoldable pub update_shadow : List S → List S → List S → Option K → Pem C P T K S → Pem C P T K S
  update_shadow u y e none s = s
  update_shadow u y e (some shadow) s =
      let (after, shadow_e) = q.process u y shadow in
      let inv_b = f.div (f.of_ℕ 1) (f.of_ℕ (k.block_size s.core)) in
      let a = f.sub (f.of_ℕ 1) s.cfg.shadow_smoothing in
      let z = f.of_ℕ 0 in
      record s {
        shadow = some after;
        pm = f.add s.pm (f.mul a (f.sub (f.mul (sum_of_squares z e) inv_b) s.pm));
        ps = f.add s.ps (f.mul a (f.sub (f.mul (sum_of_squares z shadow_e) inv_b) s.ps));
      }

  -- The adapting part of process_block(), on the block's u, y and e.
  unfoldable pub adapt : List S → List S → List S → Pem C P T K S → Pem C P T K S × List S
  unfolding slide_window watchdog_trip update_shadow run_core
  adapt u y e s =
      let window = slide_window (k.block_size s.core) e s.e_window in
      let predictor = m.analyze window s.predictor in
      let (u_state, u_pw) = m.apply predictor u s.u_state in
      let (y_state, y_pw) = m.apply predictor y s.y_state in
      let ((core, e_pw), sound) = run_core (k.watchdog_trips s.core) u_pw y_pw s.core in
      let after = record s {
        e_window = window;
        predictor = predictor;
        u_state = u_state;
        y_state = y_state;
        core = core;
      } in
      if not sound then watchdog_trip after else (update_shadow u_pw y_pw e_pw s.shadow after, e)

  -- process_block(): the canceller after it, and e.
  unfoldable pub process_block :
      ⦃t : Fft S⦄ → List S → List S → Pem C P T K S → Pem C P T K S × List S
  unfolding adapt watchdog_trip
  process_block u y s =
      let b = k.block_size s.core in
      let p_n = k.partitions s.core in
      let ref = take_block b p_n u s.ref in
      let echo = estimate b p_n (k.taps s.core) ref in
      let e = subtract y echo in
      let taken = record s { ref = ref; echo = echo } in
      if not (k.adapting s.core)
      then (if not (finite_power (sum_of_squares (f.of_ℕ 0) e))
          then watchdog_trip taken
          else (taken, e))
      else adapt u y e taken
