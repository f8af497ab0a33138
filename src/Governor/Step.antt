-- ===== src/Governor/Step.antt =====
-- `step` of linux/turbomac/daemon/governor.py, one function for each part of its body.
use turbo_mac.Prelude.{
  ℕ, ◌+◌, ◌-◌, ◌*◌, Bool, true, false, ◌&&◌, ◌||◌, not, Option, none, some, List, [], ◌∷◌, leb, ltb,
  if◌then◌else◌, lesser, is_some, one, round_div,
}
use turbo_mac.Governor.{
  State, Mode, same_state, Reason, readback_mismatch, stale_telemetry, because, GovState, GovConfig,
  Readback, Sample, retry_scheduled, retry, emergency_seen, readings, thresholds, backoff_max_s,
}
use turbo_mac.Governor.Working.{Work, emit, elapsed, fallback_w, enter, write, fall_back}

-- A power in nanowatts has reached a threshold in units of 1e-18 W.
unfoldable pub reached : ℕ → ℕ → Bool
reached power threshold = leb threshold (power * one)

-- `round(x, 2)` of a power, and of a threshold, in nanowatts.
unfoldable pub round_w : ℕ → ℕ
round_w power = round_div power 10_000_000 * 10_000_000

unfoldable pub round_th : ℕ → ℕ
round_th threshold = round_div threshold 10_000_000_000_000_000 * 10_000_000

-- What a part of the body leaves: it returned, or the step goes on.
pub data Flow : Type 0 where
  returned : Work → Flow
  goes_on : Work → Flow

unfoldable pub add_time : State → ℕ → List (State × ℕ) → List (State × ℕ)
add_time st dt [] = (st, dt) ∷ []
add_time st dt ((k, v) ∷ rest) =
    if same_state k st then (k, v + dt) ∷ rest else (k, v) ∷ add_time st dt rest

-- No limit is commanded, or one above the floor.
unfoldable pub above_floor : ℕ → Option ℕ → Bool
above_floor floor none = true
above_floor floor (some pl1) = ltb floor pl1

module _ (now : ℕ) where
  spend_time : GovState → List (State × ℕ)
  spend_time s = elim s.last_step [
    | none ↦ s.time_in_state
    | some last ↦
        if ltb last now then add_time s.state (now - last) s.time_in_state else s.time_in_state
  ]

  unfoldable pub begin : GovState → Sample → Work
  unfolding spend_time
  begin state sample = record {
    s = record state {
      time_in_state = spend_time state;
      last_step = some now;
      last_valid = if is_some (readings sample) then some now else state.last_valid;
    };
    actions = [];
  }

  unfoldable pub step_off : ℕ → Work → Work
  step_off static w =
      let w1 = record w {
        s = record w.s { retry_at = none; fallback_reason = none; thermal_cap_w = none };
      } in
      let w2 =
        if same_state w1.s.state State.off
        then w1
        else write now static static (because State.off) true w1 in
      enter now State.off none w2

  unfoldable pub next_backoff : ℕ → ℕ
  next_backoff backoff = if leb backoff 0 then one else lesser backoff_max_s (backoff * 2)

  -- The previous write did not read back: fall back, and schedule the retry.
  unfoldable pub readback_failed : Reason → ℕ → Work → Work
  unfolding next_backoff
  readback_failed why static w =
      let backoff = next_backoff w.s.backoff_s in
      let w1 = record w {
        s = record w.s {
          counters = record w.s.counters { readback_failures = w.s.counters.readback_failures + 1 };
          backoff_s = backoff;
          retry_at = some (now + backoff);
        };
      } in
      let w2 =
        if same_state w1.s.state State.fallback
        then record w1 { s = record w1.s { fallback_reason = some why } }
        else fall_back now why static w1 in
      emit (retry_scheduled backoff why) w2

  unfoldable pub check_readback : Option Readback → ℕ → Work → Flow
  check_readback none static w = goes_on w
  check_readback (some rb) static w =
      if rb.ok
      then goes_on (
          if same_state w.s.state State.fallback
          then w
          else record w { s = record w.s { backoff_s = 0 } })
      else returned (readback_failed (readback_mismatch rb.reason) static w)

  -- `retried`: this step ended a wait.
  unfoldable pub retries : GovState → Bool
  retries s =
      if same_state s.state State.fallback
      then elim s.retry_at [ none ↦ false | some at ↦ leb at now ]
      else false

  unfoldable pub step_static : Bool → ℕ → Work → Work
  step_static force static w =
      let w1 = record w { s = record w.s { fallback_reason = none; thermal_cap_w = none } } in
      let forced = force || not (same_state w1.s.state State.static) in
      write now static static (because State.static) forced (enter now State.static none w1)

  module _ (g : GovConfig) where
    -- Rule 2 while the fallback waits for its retry.
    unfoldable pub emergency_in_fallback : ℕ → ℕ → ℕ → Work → Work
    emergency_in_fallback pdtr acpw floor w =
        let th = thresholds acpw g in
        if reached pdtr th.emergency_w && above_floor floor w.s.pl1_w
        then write now floor floor (because State.emergency) true (
            emit (emergency_seen (round_w pdtr) (round_th th.emergency_w) floor true) (record w {
              s = record w.s {
                counters = record w.s.counters { emergencies = w.s.counters.emergencies + 1 };
              };
            }))
        else w

    unfoldable pub wait_retry : Mode → Sample → ℕ → Work → Work
    wait_retry Mode.dynamic sample static w = elim (readings sample) [
      | none ↦ w
      | some (pdtr, acpw) ↦ emergency_in_fallback pdtr acpw (lesser g.floor_w static) w
    ]
    wait_retry _ sample static w = w

    -- The retry of a failed write: the step returns while it waits.
    unfoldable pub check_retry : Sample → ℕ → Work → Flow
    check_retry sample static w =
        if same_state w.s.state State.fallback
        then elim w.s.retry_at [
          | none ↦ goes_on w
          | some at ↦
              if ltb now at
              then returned (wait_retry g.mode sample static w)
              else goes_on (
                  emit (retry w.s.fallback_reason)
                    (record w { s = record w.s { retry_at = none } }))
        ]
        else goes_on w

    -- No valid sample for `stale_timeout_s`.
    unfoldable pub is_stale : GovState → Bool
    is_stale s =
        elapsed now (some (elim s.last_valid [ none ↦ s.started | some t ↦ t ])) g.stale_timeout_s

    unfoldable pub step_stale : Bool → ℕ → Work → Work
    step_stale retried static w =
        let why = stale_telemetry g.stale_timeout_s in
        let w1 = record w { s = record w.s { fallback_reason = some why } } in
        let fb = fallback_w static w1.s in
        if same_state w.s.state State.fallback
        then write now fb fb (because State.fallback) retried w1
        else fall_back now why static (record w { s = record w.s { retry_at = none } })
