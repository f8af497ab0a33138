-- ===== src/Governor/Tests.antt =====
-- The governor's theorems at concrete inputs, with runs of `step`.
use turbo_mac.Prelude.{
  ℕ, ◌*◌, ◌≤◌, ◌≡◌, refl, false, Option, none, some, [], ◌∷◌, arith, All, one, greater, inl, ◌⊎◌,
}
use turbo_mac.Governor.{
  State, Mode, GovState, GovConfig, Readback, Sample, initial, same_state, readings,
}
use turbo_mac.Governor.Working.{Work, elapsed}
use turbo_mac.Governor.Step.{reached, is_stale}
use turbo_mac.Governor.Control.{step, control, floor_of}
use turbo_mac.Governor.Limits.{Within, FitsIfSet, writes_in}
use turbo_mac.Governor.Limits.Steps.{run, run-Within}
use turbo_mac.Governor.Emergency.{AtMost, IsCut, AtMost-step}
use turbo_mac.Governor.Bounds.{Recovers, Timed, control_rise}
use turbo_mac.Governor.Fallback.{Waits, Waits-step, IsStaleFallback, IsStaleFallback-step}

abbrev pub defaults : GovConfig
defaults = record {
  mode = Mode.dynamic;
  static_cap_w = 35 * one;
  ceiling_w = 45 * one;
  floor_w = 10 * one;
  burst_w = 0;
  shed_ratio = 880_000_000;
  emergency_ratio = 940_000_000;
  recover_ratio = 780_000_000;
  cut_step_w = 5 * one;
  recover_step_w = one;
  recover_interval_s = 3 * one;
  stale_timeout_s = 2 * one;
  thermal_trim_c = some (97 * one);
  thermal_recover_c = 92 * one;
  thermal_step_w = one;
  thermal_interval_s = 3 * one;
}

-- A sample at the given input power on an 80 W adapter.
abbrev at_input : ℕ → Option Readback → Sample
at_input w rb = record {
  pdtr_w = some (w * one);
  input_mean_1s = some (w * one);
  acpw_w = some (80 * one);
  pkg_c = some (60 * one);
  readback = rb;
}

abbrev start : GovState
start = initial (100 * one) (some (45 * one)) none

abbrev pub failed : Readback
failed = record { ok = false; reason = "sysfs enabled != 1" }

abbrev blind : Sample
blind = record { pdtr_w = none; input_mean_1s = none; acpw_w = none; pkg_c = none; readback = none }

-- In TRIM at 30 W, below the recover band since 95 s.
abbrev trimmed : Work
trimmed = record {
  s = record start {
    state = State.trim;
    pl1_w = some (30 * one);
    pl2_w = some (30 * one);
    below_recover_since = some (95 * one);
  };
  actions = [];
}

-- In EMERGENCY at the floor, below the shed band since 95 s.
abbrev in_emergency : Work
in_emergency = record {
  s = record start {
    state = State.emergency;
    pl1_w = some (10 * one);
    pl2_w = some (10 * one);
    below_shed_since = some (95 * one);
  };
  actions = [];
}

run-Within_example :
    let (s, actions) = run start (
      (at_input 50 none, defaults, 101 * one)
      ∷ (at_input 78 (some failed), defaults, 102 * one)
      ∷ []) in
    All (Within (some (45 * one)) none) actions
    × FitsIfSet (some (45 * one)) s.pl1_w
    × FitsIfSet none s.pl2_w
    × (s.counters.writes ≡ writes_in actions)
run-Within_example = run-Within (100 * one) (some (45 * one)) none (
    (at_input 50 none, defaults, 101 * one) ∷ (at_input 78 (some failed), defaults, 102 * one) ∷ [])

AtMost-step_example :
    let limit = (step start (at_input 78 none) defaults (101 * one)).0.pl1_w in
    AtMost (10 * one) limit × IsCut (10 * one) start limit
unfolding readings reached
AtMost-step_example =
    AtMost-step start (at_input 78 none) defaults (101 * one) (78 * one) (80 * one) refl refl refl
      (omega arith) tt

control_rise_example :
    let from = greater (30 * one) (floor_of (101 * one) defaults (35 * one)) in
    let after = (control (101 * one) defaults false (at_input 50 none) (35 * one) trimmed).s in
    (limit : ℕ) × (after.pl1_w ≡ some limit)
    × ((limit ≤ from) ⊎ Recovers (101 * one) defaults (at_input 50 none) trimmed.s from limit)
    × Timed (101 * one) defaults (at_input 50 none) trimmed.s after
unfolding same_state
control_rise_example =
    control_rise (101 * one) defaults false (at_input 50 none) (35 * one) (30 * one) trimmed refl
      refl refl

Waits-step_example :
    Waits (101 * one) trimmed.s (step trimmed.s (at_input 50 (some failed)) defaults (101 * one)).0
unfolding initial
Waits-step_example =
    Waits-step trimmed.s (at_input 50 (some failed)) defaults (101 * one) failed (λ e. cc) refl refl
      (inl refl)

IsStaleFallback-step_example :
    IsStaleFallback defaults trimmed.s (step trimmed.s blind defaults (103 * one)).0
unfolding initial readings same_state is_stale elapsed
IsStaleFallback-step_example =
    IsStaleFallback-step trimmed.s blind defaults (103 * one) refl refl refl refl refl
