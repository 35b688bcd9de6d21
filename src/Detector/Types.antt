-- ===== src/Detector/Types.antt =====
-- The detector's data (include/mutap/howl_detector.h): howl_trigger, decision_params,
-- decision_state, howl_detector::config and howl_detector's members.
use mu_tap.Common.{ℕ, ◌*◌, Bool, false, List, replicate}
use mu_tap.Common.Float.{Float}

pub data HowlTrigger : Type 0 where
  quiet growth ceiling level : HowlTrigger

pub record DecisionParams (S : Type 0) : Type 0 where
  pub bands : ℕ
  pub slots : ℕ
  pub inv_others : S
  pub prominence : S
  pub growth_tick : S
  pub linearity : S
  pub rise : S
  pub level_catch : Bool
  pub ceiling_pow : S
  pub level : S
  pub level_prom : S
  pub program_coef : S
  pub hold_ticks : ℕ
  pub conf_att : S
  pub conf_rel : S
  pub slope_w : List S

pub record DecisionState (S : Type 0) : Type 0 where
  pub level_db : List S
  pub prom : List S
  pub ring : List S
  pub rise : List S
  pub rise_prev : List S
  pub ring_pos : ℕ
  pub ring_count : ℕ
  pub program : S
  pub program_ok : Bool
  pub hold_left : ℕ
  pub peak_band : ℕ
  pub line_band : ℕ
  pub prominence : S
  pub growth : S
  pub max_rise : S
  pub level : S
  pub power_db : S
  pub conf : S
  pub raw : Bool
  pub tripped : Bool
  pub trigger : HowlTrigger

-- resize(), then reset(): every array cleared at its size, every field at its initialiser.
unfoldable pub cleared : {S : Type 0} ⦃f : Float S⦄ → ℕ → ℕ → DecisionState S
cleared ⦃f⦄ bands slots = record {
  level_db = replicate bands (f.of_ℕ 0);
  prom = replicate bands (f.of_ℕ 0);
  ring = replicate (bands * slots) (f.of_ℕ 0);
  rise = replicate bands (f.of_ℕ 0);
  rise_prev = replicate bands (f.of_ℕ 0);
  ring_pos = 0;
  ring_count = 0;
  program = f.of_ℕ 0;
  program_ok = false;
  hold_left = 0;
  peak_band = 0;
  line_band = 0;
  prominence = f.of_ℕ 0;
  growth = f.of_ℕ 0;
  max_rise = f.of_ℕ 0;
  level = f.of_ℕ 0;
  power_db = f.of_ℕ 0;
  conf = f.of_ℕ 0;
  raw = false;
  tripped = false;
  trigger = quiet;
}

-- One band of the resonator bank: entry b of the arrays m_a1, m_a2, m_g, m_w1, m_w2, m_env, m_hz.
pub record Band (S : Type 0) : Type 0 where
  pub a1 : S
  pub a2 : S
  pub g : S
  pub w1 : S
  pub w2 : S
  pub env : S
  pub hz : S

pub record DetectorConfig (S D : Type 0) : Type 0 where
  pub sample_rate : D
  pub block_size : ℕ
  pub bands : ℕ
  pub f_lo_hz : S
  pub f_hi_hz : S
  pub q : S
  pub attack_s : S
  pub release_s : S
  pub loop_period_s : S
  pub growth_window_s : S
  pub prominence_db : S
  pub growth_db_per_pass : S
  pub linearity_db : S
  pub rise_db : S
  pub level_catch : Bool
  pub ceiling_db : S
  pub level_db : S
  pub level_prominence_db : S
  pub program_s : S
  pub hold_s : S

pub record HowlDetector (S D : Type 0) : Type 0 where
  pub cfg : DetectorConfig S D
  pub bank : List (Band S)
  pub partner : List ℕ
  pub att : S
  pub rel : S
  pub pos : ℕ
  pub block_sq : S
  pub inv_block : S
  pub ticks_per_s : S
  pub ticks_per_pass : S
  pub params : DecisionParams S
  pub state : DecisionState S
