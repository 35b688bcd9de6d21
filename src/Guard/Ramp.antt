-- ===== src/Guard/Ramp.antt =====
-- The gain ramps (include/mutap/howl_guard.h: db_to_lin, render, apply, accumulate, and the bus
-- stage's process_block).
pub mod Arrival
pub mod Bus
use mu_tap.Common.{
  ℕ, zero, suc, ◌+◌, ◌-◌, ◌==◌, min, ◌≡◌, refl, Bool, true, false, not, ◌||◌, ltb, List, [], ◌∷◌,
  ◌++◌, length, replicate, set, get_or, if◌then◌else◌,
}
use mu_tap.Common.Float.{Float, fmin}
use mu_tap.Guard.Types.{GuardState, ducked, releasing, Settings, MicState}
use mu_tap.Guard.Machine.{restore_db, target_db}

abbrev pub is_ducking : GuardState → Bool
is_ducking ducked = true
is_ducking releasing = true
is_ducking _ = false

module _ {S : Type 0} ⦃f : Float S⦄ where
  open f use {of_ℕ, add, mul, div, pow}

  unfoldable pub db_to_lin : S → S
  db_to_lin db = pow (of_ℕ 10) (div db (of_ℕ 20))

  -- x, x * ratio, ...: the ramp's samples of this block.
  unfoldable pub ramp_values : ℕ → S → S → List S
  ramp_values zero x ratio = []
  ramp_values (suc n) x ratio = x ∷ ramp_values n (mul x ratio) ratio

  -- apply(): the gains times the input, one by one.
  unfoldable pub apply : List S → List S → List S
  apply [] xs = []
  apply (g ∷ gs) [] = []
  apply (g ∷ gs) (x ∷ xs) = mul g x ∷ apply gs xs

  -- accumulate(): bus += gains times input.
  unfoldable pub accumulate : List S → List S → List S → List S
  accumulate [] xs bus = bus
  accumulate (g ∷ gs) [] bus = bus
  accumulate (g ∷ gs) (x ∷ xs) [] = []
  accumulate (g ∷ gs) (x ∷ xs) (y ∷ bus) = add y (mul g x) ∷ accumulate gs xs bus

  -- The bus stage's process_block from sample i: the block's last gain holds past its end.
  unfoldable pub bus_process : List S → ℕ → List S → List S
  bus_process gains i [] = []
  bus_process gains i (x ∷ xs) =
      let b = length gains in
      mul (get_or gains (if ltb i b then i else b - 1) (of_ℕ 0)) x ∷ bus_process gains (i + 1) xs

  -- The bus gains after a mic: the deeper of what is there and the mic's duck, at most 0 dB.
  unfoldable pub deepen : S → List S → List S → List S
  deepen inv [] bus = bus
  deepen inv (g ∷ gs) [] = []
  deepen inv (g ∷ gs) (y ∷ bus) = fmin y (fmin (mul g inv) (of_ℕ 1)) ∷ deepen inv gs bus

module _ {S : Type 0} ⦃f : Float S⦄ (c : Settings S) where
  open f use {of_ℕ, add, sub, mul, div, lt, eq}

  -- A new target starts a ramp from the current gain, or is taken at once where the ramp has no
  -- samples.
  unfoldable pub retarget : S → MicState S → MicState S
  retarget tgt s =
      let n = if lt tgt s.cur then c.attack else c.release in
      let t = record s { tgt = tgt; tgt_l = db_to_lin tgt } in
      let rate = div (sub tgt s.cur) (of_ℕ n) in
      if eq tgt s.tgt
      then s
      else if n == 0
      then record t { cur = tgt; left = 0 }
      else record t { rate = rate; ratio = db_to_lin rate; left = n }

  -- The ramp over a block of b samples: the state after it.
  unfoldable pub advance : ℕ → MicState S → MicState S
  advance b s =
      let len = min b s.left in
      if ltb 0 s.left
      then record s {
        left = s.left - len;
        cur = if s.left - len == 0 then s.tgt else add s.cur (mul s.rate (of_ℕ len));
      }
      else s

  -- ... and its gains.
  unfoldable pub gains : ℕ → MicState S → List S
  unfolding ramp_values
  gains b s =
      let len = min b s.left in
      let steps = ramp_values len (db_to_lin (add s.cur s.rate)) s.ratio in
      let landed = if s.left - len == 0 then set steps (len - 1) s.tgt_l else steps in
      if ltb 0 s.left then landed ++ replicate (b - len) s.tgt_l else replicate b s.tgt_l

  unfoldable pub cut : MicState S → List S → List S → List S
  unfolding deepen
  cut s gs bus =
      if is_ducking s.state then deepen (div (of_ℕ 1) (db_to_lin (restore_db c s))) gs bus else bus

  -- render() over the mics: their states, their gain rows and the bus gains.
  pub record Rendered : Type 0 where
    pub mics : List (MicState S)
    pub gain : List (List S)
    pub bus : List S

  unfoldable pub render_mic : ℕ → MicState S → MicState S
  render_mic b s = advance b (retarget (target_db c s) s)

  unfoldable pub render_from : ℕ → List (MicState S) → List S → Rendered
  unfolding gains cut render_mic
  render_from b [] bus = record { mics = []; gain = []; bus = bus }
  render_from b (s ∷ mics) bus =
      let t = retarget (target_db c s) s in
      let gs = gains b t in
      let rest = render_from b mics (cut (advance b t) gs bus) in
      record { mics = advance b t ∷ rest.mics; gain = gs ∷ rest.gain; bus = rest.bus }

  unfoldable pub render : ℕ → List (MicState S) → Rendered
  unfolding render_from
  render b mics = render_from b mics (replicate b (of_ℕ 1))
