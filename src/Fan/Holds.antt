-- ===== src/Fan/Holds.antt =====
-- When `decide` of linux/turbomac/daemon/fans.py lets the floor down.
use turbo_mac.Prelude.{
  ℕ, ◌+◌, ◌≤◌, ◌<◌, ◌≡◌, Option, none, some, List, [], ◌∷◌, arith, ◌⊎◌, ltb, if◌then◌else◌, All,
}
use turbo_mac.Fan.{FanState, FanConfig, decide, next_state, temp_rule, rung, elapsed, since_or}
use turbo_mac.Fan.Engages.{decide-state}

-- How the ladder's level changes with a temperature `t`: it stays or rises, or it falls by one step,
-- and then the temperature was below the step's threshold less the hysteresis, since a time that the
-- state kept (or with an interval of 0), and the interval has passed since.
abbrev pub SlowRelease : FanState → ℕ → FanConfig → ℕ → FanState → Type 0
SlowRelease s t cfg now new =
    (s.level ≤ new.level)
    ⊎ ((new.level + 1 ≡ s.level)
        × (t + cfg.hysteresis_c < (rung cfg s.level).at_c)
        × (since_or now s.temp_below_since + cfg.step_down_interval_s ≤ now)
        × (new.temp_below_since ≡ (if ltb 0 new.level then some now else none)))

-- With a temperature, from every state: the level of the ladder stays or rises, or it falls by exactly
-- one step, and only when the temperature is below the step's threshold less the hysteresis and
-- `step_down_interval_s` has passed since the time that it fell below; the next step's time then
-- starts now.
pub decide-SlowRelease :
    (s : FanState) (t : ℕ) (pkg : Option ℕ) (cfg : FanConfig) (now : ℕ)
    → SlowRelease s t cfg now (decide s (some t) pkg cfg now).state
decide-SlowRelease s t pkg cfg now =
    rw decide-state (unfold next_state temp_rule elapsed in ground arith)

-- A sample of the control loop with a temperature.
pub record Reading : Type 0 where
  pub now : ℕ
  pub temp_c : ℕ
  pub pkg_w : Option ℕ

unfoldable pub run : FanConfig → FanState → List Reading → FanState
run cfg s [] = s
run cfg s (r ∷ rest) = run cfg (decide s (some r.temp_c) r.pkg_w cfg r.now).state rest

-- The times of the readings lie in the interval that starts at `start`.
abbrev pub Inside : FanConfig → ℕ → Reading → Type 0
Inside cfg start r = (start ≤ r.now) × (r.now < start + cfg.step_down_interval_s)

-- The ladder's clock started at `start` or later, or does not run.
abbrev pub Fresh : ℕ → FanState → Type 0
Fresh start s = start ≤ since_or start s.temp_below_since

decide-Fresh :
    (s : FanState) (start : ℕ) (cfg : FanConfig) (r : Reading)
    → Fresh start s
    → Inside cfg start r
    → (s.level ≤ (next_state s (some r.temp_c) r.pkg_w cfg r.now).level)
      × Fresh start (next_state s (some r.temp_c) r.pkg_w cfg r.now)
unfolding next_state temp_rule elapsed since_or
decide-Fresh s start cfg r h i = ground (arith, h, i)

-- Hysteresis of the ladder over a run: from a state whose clock started at `start` or later, any
-- number of readings within `step_down_interval_s` of `start`, however low, leaves at least as many
-- steps engaged.
pub run-level :
    (cfg : FanConfig) (s : FanState) (start : ℕ) (readings : List Reading)
    → Fresh start s
    → All (Inside cfg start) readings
    → s.level ≤ (run cfg s readings).level
unfolding run
run-level cfg s start [] h all = omega arith
run-level cfg s start (r ∷ rest) h all =
    let now = decide-Fresh s start cfg r h all.0 in
    let later =
      run-level cfg (next_state s (some r.temp_c) r.pkg_w cfg r.now) start rest now.1 all.1 in
    rw (run, decide-state) (omega (arith, now.0, later))
