-- ===== src/Governor.antt =====
-- linux/turbomac/daemon/governor.py: the governor's state, what a step reads and what it asks for.
-- A reading is `none` unless it is a number that `_num` accepts.
pub mod Working
pub mod Step
pub mod Control
pub mod Limits
pub mod Writes
pub mod Emergency
pub mod Bounds
pub mod Fallback
pub mod Hold
pub mod Quiet
pub mod Tests
use turbo_mac.Prelude.{
  ℕ, ◌*◌, ◌+◌, Bool, true, false, ◌&&◌, Option, none, some, String, List, [], ltb, if◌then◌else◌,
  one,
}

pub data State : Type 0 where
  normal trim emergency fallback static off : State

-- `governor.mode` of the configuration.
pub data Mode : Type 0 where
  off static dynamic : Mode

unfoldable pub same_state : State → State → Bool
same_state State.normal State.normal = true
same_state State.trim State.trim = true
same_state State.emergency State.emergency = true
same_state State.fallback State.fallback = true
same_state State.static State.static = true
same_state State.off State.off = true
same_state _ _ = false

-- The text of `fallback_reason`, by its parts.
pub data Reason : Type 0 where
  readback_mismatch : String → Reason
  stale_telemetry : ℕ → Reason

-- The word in a `set_limits` action: the name of a state in small letters, or `reassert`.
pub data Why : Type 0 where
  reassert : Why
  because : State → Why

-- The text of `last_action`, by its parts.
pub record LastAction : Type 0 where
  pub why : Why
  pub pl1_w : ℕ
  pub pl2_w : ℕ

pub record Counters : Type 0 where
  pub cuts : ℕ
  pub emergencies : ℕ
  pub fallbacks : ℕ
  pub recoveries : ℕ
  pub writes : ℕ
  pub readback_failures : ℕ
  pub thermal_trims : ℕ

-- A time of -inf is `none`.
pub record GovState : Type 0 where
  pub state : State
  pub since : ℕ
  pub started : ℕ
  pub pl1_w : Option ℕ
  pub pl2_w : Option ℕ
  pub last_write : Option ℕ
  pub last_cut : Option ℕ
  pub last_valid : Option ℕ
  pub last_step : Option ℕ
  pub below_shed_since : Option ℕ
  pub below_recover_since : Option ℕ
  pub fallback_reason : Option Reason
  pub retry_at : Option ℕ
  pub backoff_s : ℕ
  pub fw_pl1_w : Option ℕ
  pub fw_pl2_w : Option ℕ
  pub last_action : Option LastAction
  pub thermal_cap_w : Option ℕ
  pub last_thermal : Option ℕ
  pub counters : Counters
  pub time_in_state : List (State × ℕ)

-- The `governor` section of the configuration.
pub record GovConfig : Type 0 where
  pub mode : Mode
  pub static_cap_w : ℕ
  pub ceiling_w : ℕ
  pub floor_w : ℕ
  pub burst_w : ℕ
  pub shed_ratio : ℕ
  pub emergency_ratio : ℕ
  pub recover_ratio : ℕ
  pub cut_step_w : ℕ
  pub recover_step_w : ℕ
  pub recover_interval_s : ℕ
  pub stale_timeout_s : ℕ
  pub thermal_trim_c : Option ℕ
  pub thermal_recover_c : ℕ
  pub thermal_step_w : ℕ
  pub thermal_interval_s : ℕ

pub record Readback : Type 0 where
  pub ok : Bool
  pub reason : String

pub record Sample : Type 0 where
  pub pdtr_w : Option ℕ
  pub input_mean_1s : Option ℕ
  pub acpw_w : Option ℕ
  pub pkg_c : Option ℕ
  pub readback : Option Readback

-- The events of a step, with the fields of each in the source's order.
pub data Event : Type 0 where
  state_change : State → State → Option Reason → Event
  thermal_trim : (from_w to_w pkg_c trim_c : ℕ) → Event
  thermal_recover : (from_w to_w pkg_c : ℕ) → Event
  fallen_back : Reason → Event
  retry_scheduled : (backoff_s : ℕ) → Reason → Event
  retry : Option Reason → Event
  emergency_seen : (input_w emergency_w floor_w : ℕ) (during_fallback : Bool) → Event
  cut : (from_w to_w input_mean_w shed_w : ℕ) → Event
  recover : (from_w to_w input_mean_w : ℕ) → Event

pub data Action : Type 0 where
  set_limits : (pl1_w pl2_w : ℕ) → Why → Action
  event : Event → Action

abbrev pub hard_max_w : ℕ
hard_max_w = 45 * one

abbrev pub reassert_s : ℕ
reassert_s = 10 * one

abbrev pub cut_min_interval_s : ℕ
cut_min_interval_s = 500_000_000

abbrev pub emergency_hold_s : ℕ
emergency_hold_s = 5 * one

abbrev pub backoff_max_s : ℕ
backoff_max_s = 8 * one

-- The pair of a valid sample: PDTR, and an ACPW above zero.
unfoldable pub readings : Sample → Option (ℕ × ℕ)
readings sample = elim sample.pdtr_w [
  | none ↦ none
  | some pdtr ↦ elim sample.acpw_w [
    | none ↦ none
    | some acpw ↦ if ltb 0 acpw then some (pdtr, acpw) else none
  ]
]

-- Products of a power and a ratio, in units of 1e-18 W.
pub record Thresholds : Type 0 where
  pub shed_w : ℕ
  pub emergency_w : ℕ
  pub recover_w : ℕ

unfoldable pub thresholds : ℕ → GovConfig → Thresholds
thresholds acpw g = record {
  shed_w = acpw * g.shed_ratio;
  emergency_w = acpw * g.emergency_ratio;
  recover_w = acpw * g.recover_ratio;
}

abbrev no_counts : Counters
no_counts = record {
  cuts = 0;
  emergencies = 0;
  fallbacks = 0;
  recoveries = 0;
  writes = 0;
  readback_failures = 0;
  thermal_trims = 0;
}

unfoldable pub initial : ℕ → Option ℕ → Option ℕ → GovState
initial now fw_pl1 fw_pl2 = record {
  state = State.off;
  since = now;
  started = now;
  pl1_w = none;
  pl2_w = none;
  last_write = none;
  last_cut = none;
  last_valid = none;
  last_step = none;
  below_shed_since = none;
  below_recover_since = none;
  fallback_reason = none;
  retry_at = none;
  backoff_s = 0;
  fw_pl1_w = fw_pl1;
  fw_pl2_w = fw_pl2;
  last_action = none;
  thermal_cap_w = none;
  last_thermal = none;
  counters = no_counts;
  time_in_state = [];
}
