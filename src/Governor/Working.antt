-- ===== src/Governor/Working.antt =====
-- `_Step` of linux/turbomac/daemon/governor.py: the working copy of one step and its methods.
use turbo_mac.Prelude.{
  ℕ, ◌+◌, ◌-◌, Bool, true, ◌&&◌, not, Option, none, some, List, [], ◌∷◌, ◌++◌, leb, ltb,
  if◌then◌else◌, lesser, greater, holds, or_default,
}
use turbo_mac.Governor.{
  State, same_state, Reason, Why, reassert, because, GovState, GovConfig, Event, state_change,
  thermal_trim, thermal_recover, fallen_back, Action, set_limits, event, hard_max_w, reassert_s,
}

pub record Work : Type 0 where
  pub s : GovState
  pub actions : List Action

unfoldable pub emit : Event → Work → Work
emit e w = record w { actions = w.actions ++ (event e ∷ []) }

-- `now - last >= span`, where `last` may be -inf.
unfoldable pub elapsed : ℕ → Option ℕ → ℕ → Bool
elapsed now none span = true
elapsed now (some last) span = leb (last + span) now

unfoldable pub cap1 : ℕ → GovState → ℕ
cap1 pl1 s = lesser (lesser pl1 hard_max_w) (or_default s.fw_pl1_w hard_max_w)

unfoldable pub cap2 : ℕ → GovState → ℕ
cap2 pl2 s = lesser (lesser pl2 hard_max_w) (or_default s.fw_pl2_w hard_max_w)

unfoldable pub fallback_w : ℕ → GovState → ℕ
fallback_w static s = elim s.pl1_w [ none ↦ static | some pl1 ↦ lesser static pl1 ]

module _ (now : ℕ) where
  unfoldable pub enter : State → Option Reason → Work → Work
  enter new why w = if same_state new w.s.state then w else record {
    s = record w.s { state = new; since = now };
    actions = w.actions ++ (event (state_change w.s.state new why) ∷ []);
  }

  -- The limits are already those last commanded.
  unfoldable pub unchanged : ℕ → ℕ → GovState → Bool
  unchanged pl1 pl2 s = holds s.pl1_w pl1 && holds s.pl2_w pl2

  commit : ℕ → ℕ → Why → Work → Work
  commit pl1 pl2 why w = record {
    s = record w.s {
      pl1_w = some pl1;
      pl2_w = some pl2;
      last_write = some now;
      counters = record w.s.counters { writes = w.s.counters.writes + 1 };
      last_action = some (record { why = why; pl1_w = pl1; pl2_w = pl2 });
    };
    actions = w.actions ++ (set_limits pl1 pl2 why ∷ []);
  }

  unfoldable pub write : ℕ → ℕ → Why → Bool → Work → Work
  unfolding commit
  write want1 want2 why force w =
      let pl1 = cap1 want1 w.s in
      let pl2 = cap2 want2 w.s in
      let same = unchanged pl1 pl2 w.s in
      if not force && not (elapsed now w.s.last_write reassert_s) && same
      then w
      else commit pl1 pl2 (if same && not force then reassert else why) w

  -- The event and the count of a fallback that is not one already.
  unfoldable pub count_fallback : Reason → Work → Work
  count_fallback why w =
      if same_state w.s.state State.fallback
      then w
      else emit (fallen_back why) (record w {
        s = record w.s {
          counters = record w.s.counters { fallbacks = w.s.counters.fallbacks + 1 };
        };
      })

  unfoldable pub fall_back : Reason → ℕ → Work → Work
  fall_back why static w =
      let w1 = count_fallback why w in
      let w2 =
        enter State.fallback (some why)
          (record w1 { s = record w1.s { fallback_reason = some why } }) in
      let w3 = record w2 {
        s = record w2.s { below_shed_since = none; below_recover_since = none };
      } in
      let fb = fallback_w static w3.s in write fb fb (because State.fallback) true w3

  module _ (g : GovConfig) where
    -- The cap_w that the thermal trim holds at the start of a step.
    unfoldable pub held_cap : ℕ → ℕ → GovState → ℕ
    held_cap floor ceiling s = elim s.thermal_cap_w [
      | none ↦ ceiling
      | some held ↦ elim g.thermal_trim_c [
        | none ↦ ceiling
        | some _ ↦ lesser (greater held floor) ceiling
      ]
    ]

    -- Where a trim starts: the cap, or PL1 where that is lower.
    unfoldable pub trim_start : ℕ → GovState → ℕ
    trim_start cap_w s = elim s.pl1_w [ none ↦ cap_w | some pl1 ↦ lesser cap_w pl1 ]

    -- One thermal step: down at or above `trim_c`, up below `thermal_recover_c`.
    unfoldable pub thermal_adjust : (temp_c trim_c floor ceiling cap_w : ℕ) → Work → ℕ × Work
    thermal_adjust temp_c trim_c floor ceiling cap_w w =
        let start = trim_start cap_w w.s in
        let lower = greater floor (start - g.thermal_step_w) in
        let higher = lesser ceiling (cap_w + g.thermal_step_w) in
        if leb trim_c temp_c
        then (if ltb floor start
            then (
              lower,
              emit (thermal_trim cap_w lower temp_c trim_c) (record w {
                s = record w.s {
                  last_thermal = some now;
                  counters = record w.s.counters { thermal_trims = w.s.counters.thermal_trims + 1 };
                };
              }),
            )
            else (cap_w, w))
        else if ltb temp_c g.thermal_recover_c && ltb cap_w ceiling
        then (
          higher,
          emit (thermal_recover cap_w higher temp_c)
              (record w { s = record w.s { last_thermal = some now } }),
        )
        else (cap_w, w)

    unfoldable pub thermal_due : Option ℕ → ℕ → ℕ → ℕ → Work → ℕ × Work
    thermal_due temp_c floor ceiling cap_w w = elim g.thermal_trim_c [
      | none ↦ (cap_w, w)
      | some trim_c ↦ elim temp_c [
        | none ↦ (cap_w, w)
        | some temp ↦
            if elapsed now w.s.last_thermal g.thermal_interval_s
            then thermal_adjust temp trim_c floor ceiling cap_w w
            else (cap_w, w)
      ]
    ]

    -- Remembers the cap while it is below the ceiling.
    unfoldable pub keep_cap : ℕ → ℕ × Work → ℕ × Work
    keep_cap ceiling p = (
      p.0,
      record p.1 {
        s = record p.1.s { thermal_cap_w = if ltb p.0 ceiling then some p.0 else none };
      },
    )

    unfoldable pub thermal : Option ℕ → ℕ → ℕ → Work → ℕ × Work
    thermal temp_c floor ceiling w =
        keep_cap ceiling (thermal_due temp_c floor ceiling (held_cap floor ceiling w.s) w)
