-- ===== src/Fan/Tests.antt =====
-- The theorems on `decide` with the default configuration of the fans.
use turbo_mac.Prelude.{
  false, ℕ, ◌+◌, ◌==◌, Option, if◌then◌else◌, ◌*◌, ◌≡◌, refl, true, none, some, List, [], ◌∷◌, All,
  arith, one,
}
use turbo_mac.Fan.{
  FanState, FanConfig, initial, decide, ladder, rung, choose, best, next_state, temp_rule,
  power_rule, temp_cands, power_cands, met_from, elapsed, since_or,
}
use turbo_mac.Fan.Engages.{Honours, decide_hot}
use turbo_mac.Fan.Control.{Fan}
use turbo_mac.Fan.Capture.{
  Io, discover, load_or_capture, capture, looks, all_live, keep_live, keep_known, restored_min,
  plausible, near_known, above, known_hw_min, found,
}
use turbo_mac.Fan.Captured.{IsReported, discover-IsReported}

abbrev pub settings : FanConfig
settings = record {
  power_floor_w = 25 * one;
  power_floor_rpm = 3500;
  t1 = record { at_c = 78 * one; rpm = 3500 };
  t2 = record { at_c = 84 * one; rpm = 4500 };
  t3 = record { at_c = 90 * one; rpm = 5900 };
  hysteresis_c = 6 * one;
  step_down_interval_s = 20 * one;
  max_rpm = 5900;
}

-- Two steps engaged, cooling since 100 s.
abbrev cooling_state : FanState
cooling_state = record {
  power_on = true;
  power_below_since = none;
  level = 2;
  temp_below_since = some (100 * one);
}

decide_hold : (decide cooling_state (some (77 * one)) none settings (119 * one)).target ≡ 4500
unfolding decide choose best next_state temp_rule power_rule temp_cands power_cands met_from elapsed
    since_or ladder rung
decide_hold = refl

decide_release : (decide cooling_state (some (77 * one)) none settings (120 * one)).target ≡ 3500
unfolding decide choose best next_state temp_rule power_rule temp_cands power_cands met_from elapsed
    since_or ladder rung
decide_release = refl

decide_hot_example :
    All
      (Honours settings (85 * one) (decide initial (some (85 * one)) none settings 0).target)
      (ladder settings)
decide_hot_example =
    decide_hot initial (85 * one) none settings 0
      (omega arith, omega arith, omega arith, omega arith) (omega arith)

abbrev captured_mins : List Fan → List (Option ℕ)
captured_mins [] = []
captured_mins (f ∷ rest) = f.default ∷ captured_mins rest

-- The first fan is at its known minimum; the second shows a floor.
abbrev files : Io
files = record {
  World = ℕ;
  numbers = λ w. 1 ∷ 2 ∷ [];
  label = λ n w. "fan";
  max = λ n w. some 5927;
  rpm = λ n w. some 3000;
  min = λ n w. if n == 1 then some 2160 else some 4500;
  has_path = true;
  exists = λ w. false;
  saved = λ n w. none;
  save = λ fans w. (none, w + 1);
}

discover-restores : captured_mins (discover files 0).0 ≡ some 2160 ∷ some 2000 ∷ []
unfolding discover load_or_capture capture looks all_live keep_live keep_known restored_min
    plausible near_known above known_hw_min found
discover-restores = refl

discover-IsReported_example : IsReported files 0 (discover files 0)
discover-IsReported_example = discover-IsReported files 0
