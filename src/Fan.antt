-- ===== src/Fan.antt =====
-- linux/turbomac/daemon/fans.py: `decide`, the rule of the fan floor. Temperatures, powers and times
-- are in billionths, fan speeds in rpm. A missing or non-numeric input is `none`.
pub mod Engages
pub mod Holds
pub mod Capture
pub mod Captured
pub mod Control
pub mod Tests
use turbo_mac.Prelude.{
  ℕ, suc, ◌+◌, ◌-◌, ◌*◌, Bool, true, false, ◌&&◌, Option, none, some, List, [], ◌∷◌, ◌++◌, leb, ltb,
  ◌==◌, not, if◌then◌else◌, one, is_some, or_default,
}

-- FanState; `level` is the number of ladder steps engaged.
pub record FanState : Type 0 where
  pub power_on : Bool
  pub power_below_since : Option ℕ
  pub level : ℕ
  pub temp_below_since : Option ℕ

-- A step of the ladder.
pub record Rung : Type 0 where
  pub at_c : ℕ
  pub rpm : ℕ

pub record FanConfig : Type 0 where
  pub power_floor_w : ℕ
  pub power_floor_rpm : ℕ
  pub t1 : Rung
  pub t2 : Rung
  pub t3 : Rung
  pub hysteresis_c : ℕ
  pub step_down_interval_s : ℕ
  pub max_rpm : ℕ

-- The texts of the reason, by their parts.
pub data Cause : Type 0 where
  hot : (temp_c at_c : ℕ) → Cause
  cooling : (rpm release_at_c : ℕ) → Cause
  powered : (pkg_w floor_w : ℕ) → Cause
  power_cooling : (rpm release_at_w : ℕ) → Cause
  below_thresholds no_data : Cause

-- `cap` is the "(max … rpm)" that the reason ends in.
pub record Decision : Type 0 where
  pub state : FanState
  pub target : ℕ
  pub cause : Cause
  pub cap : Option ℕ

abbrev pub power_hyst_w : ℕ
power_hyst_w = 5 * one

abbrev pub initial : FanState
initial = record { power_on = false; power_below_since = none; level = 0; temp_below_since = none }

-- `ladder`
unfoldable pub ladder : FanConfig → List Rung
ladder cfg = cfg.t1 ∷ cfg.t2 ∷ cfg.t3 ∷ []

-- `now if since is None else since`
unfoldable pub since_or : ℕ → Option ℕ → ℕ
since_or now none = now
since_or now (some t) = t

-- `now - since >= interval`
unfoldable pub elapsed : ℕ → ℕ → ℕ → Bool
elapsed since now interval = leb (since + interval) now

-- The power rule: `power_on` and `p_since` after this sample.
unfoldable pub power_rule : FanState → Option ℕ → FanConfig → ℕ → Bool × Option ℕ
unfolding elapsed since_or
power_rule s none cfg now = (false, none)
power_rule s (some w) cfg now =
    if leb cfg.power_floor_w w
    then (true, none)
    else if s.power_on && ltb (w + power_hyst_w) cfg.power_floor_w
    then (let since = since_or now s.power_below_since in
        if elapsed since now cfg.step_down_interval_s then (false, none) else (true, some since))
    else (s.power_on, none)

-- The highest step, counted from `i + 1`, whose threshold is met, or 0.
unfoldable pub met_from : ℕ → ℕ → List Rung → ℕ
met_from temp i [] = 0
met_from temp i (r ∷ rest) =
    let above = met_from temp (suc i) rest in
    if leb r.at_c temp then (if ltb (suc i) above then above else suc i) else above

-- `steps[level - 1]`; index -1 is the last step, and `level` is at most 3.
unfoldable pub rung : FanConfig → ℕ → Rung
rung cfg level = if level == 1 then cfg.t1 else if level == 2 then cfg.t2 else cfg.t3

-- The temperature rule: `level` and `t_since` after this sample.
unfoldable pub temp_rule : FanState → Option ℕ → FanConfig → ℕ → ℕ × Option ℕ
unfolding elapsed since_or
temp_rule s none cfg now = (0, none)
temp_rule s (some t) cfg now =
    let met = met_from t 0 (ladder cfg) in
    if leb s.level met
    then (met, none)
    else if ltb (t + cfg.hysteresis_c) (rung cfg s.level).at_c
    then (let since = since_or now s.temp_below_since in
        if elapsed since now cfg.step_down_interval_s
        then (s.level - 1, (if s.level - 1 == 0 then none else some now))
        else (s.level, some since))
    else (s.level, none)

-- The candidates that the rules add. With no temperature the level is 0.
unfoldable pub temp_cands : ℕ → Option ℕ → FanConfig → List (ℕ × Cause)
temp_cands level none cfg = []
temp_cands level (some t) cfg =
    let r = rung cfg level in
    if level == 0
    then []
    else ((
      r.rpm,
      (if leb r.at_c t then hot t r.at_c else cooling r.rpm (r.at_c - cfg.hysteresis_c)),
    )
        ∷ [])

unfoldable pub power_cands : Bool → Option ℕ → FanConfig → List (ℕ × Cause)
power_cands on none cfg = []
power_cands on (some w) cfg =
    if on
    then ((
      cfg.power_floor_rpm,
      (if leb cfg.power_floor_w w
          then powered w cfg.power_floor_w
          else power_cooling cfg.power_floor_rpm (cfg.power_floor_w - power_hyst_w)),
    )
        ∷ [])
    else []

-- `max` by the rpm: the first of the largest.
unfoldable pub best : ℕ × Cause → List (ℕ × Cause) → ℕ × Cause
best c [] = c
best c (d ∷ rest) = best (if ltb c.0 d.0 then d else c) rest

unfoldable pub choose : FanState → Bool → FanConfig → List (ℕ × Cause) → Decision
choose new have cfg [] = record {
  state = new;
  target = 0;
  cause = (if have then below_thresholds else no_data);
  cap = none;
}
choose new have cfg (c ∷ rest) =
    let b = best c rest in
    if ltb cfg.max_rpm b.0
    then record { state = new; target = cfg.max_rpm; cause = b.1; cap = some cfg.max_rpm }
    else record { state = new; target = b.0; cause = b.1; cap = none }

unfoldable pub next_state : FanState → Option ℕ → Option ℕ → FanConfig → ℕ → FanState
next_state s temp_c pkg_w cfg now =
    let power = power_rule s pkg_w cfg now in
    let temp = temp_rule s temp_c cfg now in
    record {
      power_on = power.0;
      power_below_since = power.1;
      level = temp.0;
      temp_below_since = temp.1;
    }

unfoldable pub decide : FanState → Option ℕ → Option ℕ → FanConfig → ℕ → Decision
decide s temp_c pkg_w cfg now =
    let new = next_state s temp_c pkg_w cfg now in
    choose new (if is_some temp_c then true else is_some pkg_w) cfg
      (temp_cands new.level temp_c cfg ++ power_cands new.power_on pkg_w cfg)
