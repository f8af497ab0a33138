-- ===== src/Governor/Limits/Steps.antt =====
-- A whole step, and a run of steps, keep the limits.
use turbo_mac.Prelude.{
  ℕ, ◌≡◌, refl, Bool, true, Option, none, some, List, [], ◌∷◌, ◌++◌, ltb, arith, All, All-append,
  if_keeps, option_keeps,
}
use turbo_mac.Governor.{
  State, Mode, same_state, Reason, GovState, GovConfig, Readback, Sample, Action, retry, readings,
  initial,
}
use turbo_mac.Governor.Working.{Work}
use turbo_mac.Governor.Step.{
  Flow, returned, goes_on, begin, step_off, readback_failed, check_readback, emergency_in_fallback,
  wait_retry, check_retry, step_static, step_stale,
}
use turbo_mac.Governor.Control.{
  start, finish, control, act, after_retry, after_readback, governed_step, step,
}
use turbo_mac.Governor.Limits.{
  FitsIfSet, Within, writes_in, writes_in-append, Safe, IsSafe, FlowIsSafe, emit-IsSafe,
  enter-IsSafe, write-IsSafe, fall_back-IsSafe,
}
use turbo_mac.Governor.Limits.Rules.{apply_rules-IsSafe, thermal-IsSafe}

module _ (fw1 fw2 : Option ℕ) (base : ℕ) where
  step_off-IsSafe :
      (now static : ℕ) (w : Work)
      → IsSafe fw1 fw2 base w
      → IsSafe fw1 fw2 base (step_off now static w)
  unfolding step_off
  step_off-IsSafe now static w h = enter-IsSafe fw1 fw2 base now State.off none _ (
      if_keeps (IsSafe fw1 fw2 base) (same_state w.s.state State.off) _ _ h
        (write-IsSafe fw1 fw2 base now _ _ _ true _ h))

  readback_failed-IsSafe :
      (now : ℕ) (why : Reason) (static : ℕ) (w : Work)
      → IsSafe fw1 fw2 base w
      → IsSafe fw1 fw2 base (readback_failed now why static w)
  unfolding readback_failed
  readback_failed-IsSafe now why static w h = emit-IsSafe fw1 fw2 base _ _ (
      if_keeps (IsSafe fw1 fw2 base) (same_state w.s.state State.fallback) _ _ h
        (fall_back-IsSafe fw1 fw2 base now why static _ h))

  check_readback-IsSafe :
      (now : ℕ) (rb : Option Readback) (static : ℕ) (w : Work)
      → IsSafe fw1 fw2 base w
      → FlowIsSafe fw1 fw2 base (check_readback now rb static w)
  unfolding check_readback
  check_readback-IsSafe now none static w h = h
  check_readback-IsSafe now (some rb) static w h =
      if_keeps (FlowIsSafe fw1 fw2 base) rb.ok _ _
        (if_keeps (IsSafe fw1 fw2 base) (same_state w.s.state State.fallback) _ _ h h)
        (readback_failed-IsSafe now _ static w h)

  emergency_in_fallback-IsSafe :
      (now : ℕ) (g : GovConfig) (pdtr acpw floor : ℕ) (w : Work)
      → IsSafe fw1 fw2 base w
      → IsSafe fw1 fw2 base (emergency_in_fallback now g pdtr acpw floor w)
  unfolding emergency_in_fallback
  emergency_in_fallback-IsSafe now g pdtr acpw floor w h =
      if_keeps (IsSafe fw1 fw2 base) _ _ _
        (write-IsSafe fw1 fw2 base now _ _ _ true _ (emit-IsSafe fw1 fw2 base _ _ h)) h

  wait_retry-IsSafe :
      (now : ℕ) (g : GovConfig) (mode : Mode) (sample : Sample) (static : ℕ) (w : Work)
      → IsSafe fw1 fw2 base w
      → IsSafe fw1 fw2 base (wait_retry now g mode sample static w)
  unfolding wait_retry
  wait_retry-IsSafe now g Mode.dynamic sample static w h =
      option_keeps (IsSafe fw1 fw2 base) (readings sample) _ _ h
        (λ r. emergency_in_fallback-IsSafe now g r.0 r.1 _ w h)
  wait_retry-IsSafe now g _ sample static w h = h

  check_retry-IsSafe :
      (now : ℕ) (g : GovConfig) (sample : Sample) (static : ℕ) (w : Work)
      → IsSafe fw1 fw2 base w
      → FlowIsSafe fw1 fw2 base (check_retry now g sample static w)
  unfolding check_retry
  check_retry-IsSafe now g sample static w h =
      if_keeps (FlowIsSafe fw1 fw2 base) (same_state w.s.state State.fallback) _ (goes_on w)
        (option_keeps (FlowIsSafe fw1 fw2 base) w.s.retry_at (goes_on w) _ h (λ at.
          if_keeps (FlowIsSafe fw1 fw2 base) (ltb now at)
            (returned (wait_retry now g g.mode sample static w)) (goes_on _)
            (wait_retry-IsSafe now g g.mode sample static w h)
            (emit-IsSafe fw1 fw2 base (retry w.s.fallback_reason)
              (record w { s = record w.s { retry_at = none } }) h)))
        h

  step_static-IsSafe :
      (now : ℕ) (force : Bool) (static : ℕ) (w : Work)
      → IsSafe fw1 fw2 base w
      → IsSafe fw1 fw2 base (step_static now force static w)
  unfolding step_static
  step_static-IsSafe now force static w h =
      write-IsSafe fw1 fw2 base now _ _ _ _ _ (enter-IsSafe fw1 fw2 base now State.static none _ h)

  step_stale-IsSafe :
      (now : ℕ) (g : GovConfig) (retried : Bool) (static : ℕ) (w : Work)
      → IsSafe fw1 fw2 base w
      → IsSafe fw1 fw2 base (step_stale now g retried static w)
  unfolding step_stale
  step_stale-IsSafe now g retried static w h =
      if_keeps (IsSafe fw1 fw2 base) _ _ _ (write-IsSafe fw1 fw2 base now _ _ _ retried _ h)
        (fall_back-IsSafe fw1 fw2 base now _ static _ h)

  control-IsSafe :
      (now : ℕ) (g : GovConfig) (force : Bool) (sample : Sample) (static : ℕ) (w : Work)
      → IsSafe fw1 fw2 base w
      → IsSafe fw1 fw2 base (control now g force sample static w)
  unfolding control finish start
  control-IsSafe now g force sample static w h = write-IsSafe fw1 fw2 base now _ _ _ _ _ (
      enter-IsSafe fw1 fw2 base now _ none _ (
        apply_rules-IsSafe fw1 fw2 base now g _ _ _ sample _
          (thermal-IsSafe fw1 fw2 base now g sample.pkg_c _ _ w h)))

  act-IsSafe :
      (now : ℕ) (g : GovConfig) (mode : Mode) (force retried : Bool) (sample : Sample) (static : ℕ)
      (w : Work)
      → IsSafe fw1 fw2 base w
      → IsSafe fw1 fw2 base (act now g mode force retried sample static w)
  unfolding act
  act-IsSafe now g Mode.dynamic force retried sample static w h =
      if_keeps (IsSafe fw1 fw2 base) _ _ _ (step_stale-IsSafe now g retried static w h)
        (control-IsSafe now g force sample static w h)
  act-IsSafe now g _ force retried sample static w h = step_static-IsSafe now force static w h

  after_retry-IsSafe :
      (now : ℕ) (g : GovConfig) (force retried : Bool) (sample : Sample) (static : ℕ) (f : Flow)
      → FlowIsSafe fw1 fw2 base f
      → IsSafe fw1 fw2 base (after_retry now g force retried sample static f)
  unfolding after_retry
  after_retry-IsSafe now g force retried sample static (returned w) h = h
  after_retry-IsSafe now g force retried sample static (goes_on w) h =
      act-IsSafe now g g.mode force retried sample static w h

  after_readback-IsSafe :
      (now : ℕ) (g : GovConfig) (force : Bool) (sample : Sample) (static : ℕ) (f : Flow)
      → FlowIsSafe fw1 fw2 base f
      → IsSafe fw1 fw2 base (after_readback now g force sample static f)
  unfolding after_readback
  after_readback-IsSafe now g force sample static (returned w) h = h
  after_readback-IsSafe now g force sample static (goes_on w) h =
      after_retry-IsSafe now g force _ sample static _ (check_retry-IsSafe now g sample static w h)

  abbrev StateIsSafe : GovState → List Action → Type 0
  StateIsSafe s actions =
      Safe fw1 fw2 base s.fw_pl1_w s.fw_pl2_w s.pl1_w s.pl2_w s.counters.writes actions

  governed_step-IsSafe :
      (now : ℕ) (g : GovConfig) (state : GovState) (sample : Sample) (mode : Mode)
      → StateIsSafe state []
      → IsSafe fw1 fw2 base (governed_step now g state sample mode)
  unfolding governed_step begin
  governed_step-IsSafe now g state sample Mode.off h = step_off-IsSafe now _ _ h
  governed_step-IsSafe now g state sample _ h =
      after_readback-IsSafe now g _ sample _ _
        (check_readback-IsSafe now sample.readback g.static_cap_w _ h)

  step-IsSafe :
      (state : GovState) (sample : Sample) (g : GovConfig) (now : ℕ)
      → StateIsSafe state []
      → StateIsSafe (step state sample g now).0 (step state sample g now).1
  unfolding step
  step-IsSafe state sample g now h = governed_step-IsSafe now g state sample g.mode h

-- What the daemon does over time: one step for each sample, with the configuration of the moment.
pub run : GovState → List (Sample × GovConfig × ℕ) → GovState × List Action
run state [] = (state, [])
run state ((sample, g, now) ∷ rest) =
    let (s, actions) = step state sample g now in
    let (s', later) = run s rest in (s', actions ++ later)

run-IsSafe :
    (fw1 fw2 : Option ℕ) (base : ℕ) (state : GovState) (inputs : List (Sample × GovConfig × ℕ))
    → StateIsSafe fw1 fw2 base state []
    → StateIsSafe fw1 fw2 base (run state inputs).0 (run state inputs).1
unfolding run
run-IsSafe fw1 fw2 base state [] h = h
run-IsSafe fw1 fw2 base state ((sample, g, now) ∷ rest) h =
    let (s, actions) = step state sample g now in
    let first = step-IsSafe fw1 fw2 base state sample g now h in
    let later = run-IsSafe fw1 fw2 s.counters.writes s rest (record {
      same1 = first.same1;
      same2 = first.same2;
      fits1 = first.fits1;
      fits2 = first.fits2;
      acts = tt;
      counted = omega arith;
    }) in
    record {
      same1 = later.same1;
      same2 = later.same2;
      fits1 = later.fits1;
      fits2 = later.fits2;
      acts = All-append (Within fw1 fw2) actions _ first.acts later.acts;
      counted =
          omega (arith, first.counted, later.counted, writes_in-append actions (run s rest).1);
    }

-- From the daemon's start, whatever the samples, the configurations and the times of the steps:
-- every limit that a `set_limits` action carries, and every limit that the state holds as
-- commanded, is at most `hard_max_w` and at most the firmware's limit (where that is given and not
-- zero); and the `writes` counter is the number of `set_limits` actions.
pub run-Within :
    (start : ℕ) (fw1 fw2 : Option ℕ) (inputs : List (Sample × GovConfig × ℕ))
    → let (s, actions) = run (initial start fw1 fw2) inputs in
      All (Within fw1 fw2) actions
      × FitsIfSet fw1 s.pl1_w
      × FitsIfSet fw2 s.pl2_w
      × (s.counters.writes ≡ writes_in actions)
unfolding initial
run-Within start fw1 fw2 inputs =
    let safe = run-IsSafe fw1 fw2 0 (initial start fw1 fw2) inputs (record {
      same1 = refl;
      same2 = refl;
      fits1 = tt;
      fits2 = tt;
      acts = tt;
      counted = omega arith;
    }) in
    (safe.acts, safe.fits1, safe.fits2, omega (arith, safe.counted))
