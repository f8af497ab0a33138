-- ===== src/Governor/Fallback.antt =====
-- The fallback of linux/turbomac/daemon/governor.py: after a write that did not read back (rule 6)
-- and on stale telemetry (rule 7).
use turbo_mac.Prelude.{
  ℕ, ◌+◌, ◌≤◌, ◌≡◌, ◌≢◌, refl, sym, ◌∙◌, Bool, true, false, Option, none, some, arith, Bool-cases,
  ap, inl, inr, ◌⊎◌, ◌||◌, one,
}
use turbo_mac.Governor.{
  State, Mode, Reason, Why, stale_telemetry, because, GovState, GovConfig, Readback, Sample,
  same_state, readings, readback_mismatch, backoff_max_s,
}
use turbo_mac.Governor.Working.{
  Work, emit, cap1, enter, write, unchanged, fall_back, count_fallback, fallback_w,
}
use turbo_mac.Governor.Step.{
  begin, next_backoff, readback_failed, check_readback, check_retry, is_stale, step_stale,
}
use turbo_mac.Governor.Control.{after_retry, after_readback, act, governed_step, step}
use mathlib.Core.Option.{some-injective}
use mathlib.Core.Path.{subst}
use turbo_mac.Governor.Writes.{pl1_w-write, cap1-le, eq_of_same_state}

-- A commanded limit was not raised.
abbrev pub NotRaised : Option ℕ → Option ℕ → Type 0
NotRaised none new = Unit
NotRaised (some old) none = ⊥
NotRaised (some old) (some new) = new ≤ old

module _ (now : ℕ) where
  fields-write :
      (pl1 pl2 : ℕ) (why : Why) (force : Bool) (w : Work)
      → let s = (write now pl1 pl2 why force w).s in
        (s.retry_at ≡ w.s.retry_at)
        × (s.backoff_s ≡ w.s.backoff_s)
        × (s.state ≡ w.s.state)
        × (s.fallback_reason ≡ w.s.fallback_reason)
  unfolding write unchanged
  fields-write pl1 pl2 why force w = ground arith

  fields-enter :
      (new : State) (why : Option Reason) (w : Work)
      → let s = (enter now new why w).s in
        (s.retry_at ≡ w.s.retry_at)
        × (s.backoff_s ≡ w.s.backoff_s)
        × (s.state ≡ new)
        × (s.pl1_w ≡ w.s.pl1_w)
        × (s.fallback_reason ≡ w.s.fallback_reason)
  unfolding enter same_state
  fields-enter new why w = ground arith

  -- What a fallback leaves, apart from the counters and the times.
  pub record FellBack (why : Reason) (static : ℕ) (old new : GovState) : Type 0 where
    pub state : new.state ≡ State.fallback
    pub fallback_reason : new.fallback_reason ≡ some why
    pub retry_at : new.retry_at ≡ old.retry_at
    pub backoff_s : new.backoff_s ≡ old.backoff_s
    pub not_raised : NotRaised old.pl1_w new.pl1_w
    pub le_static : NotRaised (some static) new.pl1_w

  fields-count_fallback :
      (why : Reason) (w : Work)
      → let s = (count_fallback now why w).s in
        (s.retry_at ≡ w.s.retry_at) × (s.backoff_s ≡ w.s.backoff_s) × (s.pl1_w ≡ w.s.pl1_w)
  unfolding count_fallback emit
  fields-count_fallback why w = ground arith

  fallback_w-NotRaised :
      (static p : ℕ) (s s' : GovState)
      → s.pl1_w ≡ s'.pl1_w
      → p ≤ fallback_w static s
      → NotRaised s'.pl1_w (some p) × (p ≤ static)
  unfolding fallback_w
  fallback_w-NotRaised static p s s' same h = ground arith

  fall_back_lem :
      (why : Reason) (static : ℕ) (w : Work)
      → FellBack why static w.s (fall_back now why static w).s
  unfolding fall_back
  fall_back_lem why static w =
      let w1 : Work = count_fallback now why w in
      let (retry1, back1, pl1) = fields-count_fallback why w in
      let entered : Work = record w1 { s = record w1.s { fallback_reason = some why } } in
      let (retry2, back2, st2, pl2, why2) = fields-enter State.fallback (some why) entered in
      let w2 : Work = enter now State.fallback (some why) entered in
      let w3 : Work = record w2 {
        s = record w2.s { below_shed_since = none; below_recover_since = none };
      } in
      let fb = fallback_w static w3.s in
      let (retry3, back3, st3, why3) = fields-write fb fb (because State.fallback) true w3 in
      let (kept, le) =
        fallback_w-NotRaised static (cap1 fb w3.s) w3.s w.s (pl2 ∙ pl1) (cap1-le fb w3.s) in
      record {
        state = st3 ∙ st2;
        fallback_reason = why3 ∙ why2;
        retry_at = retry3 ∙ retry2 ∙ retry1;
        backoff_s = back3 ∙ back2 ∙ back1;
        not_raised = rw pl1_w-write kept;
        le_static = rw pl1_w-write le;
      }

  -- A backoff that has been used before is at least a second.
  abbrev pub IsBackoff : ℕ → Type 0
  IsBackoff backoff = (backoff ≡ 0) ⊎ (one ≤ backoff)

  next_backoff_bounds :
      (backoff : ℕ)
      → IsBackoff backoff
      → (one ≤ next_backoff now backoff) × (next_backoff now backoff ≤ backoff_max_s)
  unfolding next_backoff
  next_backoff_bounds backoff h = ground arith

  -- What a failed readback leaves.
  pub record Waits (old new : GovState) : Type 0 where
    pub state : new.state ≡ State.fallback
    pub backoff_s : (one ≤ new.backoff_s) × (new.backoff_s ≤ backoff_max_s)
    pub retry_at : new.retry_at ≡ some (now + new.backoff_s)
    pub not_raised : NotRaised old.pl1_w new.pl1_w

  NotRaised-refl : (limit : Option ℕ) → NotRaised limit limit
  NotRaised-refl none = tt
  NotRaised-refl (some l) = omega arith

  readback_failed_lem :
      (why : Reason) (static : ℕ) (w : Work)
      → IsBackoff w.s.backoff_s
      → Waits w.s (readback_failed now why static w).s
  unfolding readback_failed emit
  readback_failed_lem why static w h = elim (Bool-cases (same_state w.s.state State.fallback)) [
    | inl already ↦ rw already (record {
      state = eq_of_same_state w.s.state State.fallback already;
      backoff_s = next_backoff_bounds w.s.backoff_s h;
      retry_at = refl;
      not_raised = NotRaised-refl w.s.pl1_w;
    })
    | inr fresh ↦
        let w1 : Work = record w {
          s = record w.s {
            counters = record w.s.counters {
              readback_failures = w.s.counters.readback_failures + 1;
            };
            backoff_s = next_backoff now w.s.backoff_s;
            retry_at = some (now + next_backoff now w.s.backoff_s);
          };
        } in
        let fb = fall_back_lem why static w1 in
        rw fresh (record {
          state = fb.state;
          backoff_s = rw fb.backoff_s (next_backoff_bounds w.s.backoff_s h);
          retry_at = rw fb.backoff_s fb.retry_at;
          not_raised = fb.not_raised;
        })
  ]

after_readback_failed :
    (now : ℕ) (g : GovConfig) (force : Bool) (sample : Sample) (static : ℕ) (w : Work)
    (answer : Option Readback) (rb : Readback)
    → answer ≡ some rb
    → rb.ok ≡ false
    → after_readback now g force sample static (check_readback now answer static w)
      ≡ readback_failed now (readback_mismatch rb.reason) static w
unfolding after_readback check_readback
after_readback_failed now g force sample static w none rb wrote failed = cc
after_readback_failed now g force sample static w (some r) rb wrote failed =
    let same : r ≡ rb = some-injective _ _ wrote in
    rw (← same) (rw (ap (λ (x : Readback). x.ok) same ∙ failed))

-- In the static and in the dynamic mode, when the previous write did not read back (and an earlier
-- backoff was a second or more), the step ends in FALLBACK, waits between 1 s and 8 s for its retry,
-- and does not raise the commanded PL1.
pub Waits-step :
    (state : GovState) (sample : Sample) (g : GovConfig) (now : ℕ) (rb : Readback)
    → g.mode ≢ Mode.off
    → sample.readback ≡ some rb
    → rb.ok ≡ false
    → IsBackoff now state.backoff_s
    → Waits now state (step state sample g now).0
unfolding step
Waits-step state sample g now rb active wrote failed h = governed g.mode active
  where
    w : Work
    w = begin now state sample

    failed_at :
        (force : Bool)
        → Waits now state
            (after_readback now g force sample g.static_cap_w
              (check_readback now sample.readback g.static_cap_w w)).s
    failed_at force =
        rw
          (after_readback_failed now g force sample g.static_cap_w w sample.readback rb wrote
            failed)
          (unfold begin in
            let f = readback_failed_lem now (readback_mismatch rb.reason) g.static_cap_w w h in
            record {
              state = f.state;
              backoff_s = f.backoff_s;
              retry_at = f.retry_at;
              not_raised = f.not_raised;
            })

    governed : (m : Mode) → m ≢ Mode.off → Waits now state (governed_step now g state sample m).s
    governed Mode.off no_off = absurd (no_off refl)
    governed Mode.static no_off = unfold governed_step in failed_at _
    governed Mode.dynamic no_off = unfold governed_step in failed_at _

-- What a fallback on stale telemetry leaves.
pub record IsStaleFallback (g : GovConfig) (old new : GovState) : Type 0 where
  pub state : new.state ≡ State.fallback
  pub reason : new.fallback_reason ≡ some (stale_telemetry g.stale_timeout_s)
  pub retry_at : new.retry_at ≡ none
  pub not_raised : NotRaised old.pl1_w new.pl1_w
  pub le_static : NotRaised (some g.static_cap_w) new.pl1_w

act_stale :
    (now : ℕ) (g : GovConfig) (force retried : Bool) (sample : Sample) (w : Work)
    → is_stale now g w.s ≡ true
    → same_state w.s.state State.fallback ≡ false
    → IsStaleFallback g w.s (act now g Mode.dynamic force retried sample g.static_cap_w w).s
unfolding act step_stale
act_stale now g force retried sample w stale other =
    let why = stale_telemetry g.stale_timeout_s in
    let fb =
      fall_back_lem now why g.static_cap_w (record w { s = record w.s { retry_at = none } }) in
    rw (stale, other)
      (record {
        state = fb.state;
        reason = fb.fallback_reason;
        retry_at = fb.retry_at;
        not_raised = fb.not_raised;
        le_static = fb.le_static;
      })

-- In the dynamic mode, from a state other than FALLBACK, with no write to verify: a step without a
-- valid sample, `stale_timeout_s` or more after the last valid one (or after the start), falls back:
-- the state is FALLBACK with the reason of stale telemetry and no retry, and the commanded PL1 is
-- neither raised nor above the static cap.
pub IsStaleFallback-step :
    (state : GovState) (sample : Sample) (g : GovConfig) (now : ℕ)
    → g.mode ≡ Mode.dynamic
    → sample.readback ≡ none
    → readings sample ≡ none
    → same_state state.state State.fallback ≡ false
    → is_stale now g state ≡ true
    → IsStaleFallback g state (step state sample g now).0
unfolding step governed_step after_readback after_retry check_readback check_retry begin is_stale
IsStaleFallback-step state sample g now dynamic quiet invalid other stale =
    let w : Work = begin now state sample in
    let old : is_stale now g w.s ≡ true = rw invalid stale in
    let force = same_state state.state State.off || same_state state.state State.fallback in
    let static = g.static_cap_w in
    let acted : (f r : Bool) → IsStaleFallback g state (act now g g.mode f r sample static w).s =
      λ f r.
        subst (λ m. IsStaleFallback g state (act now g m f r sample static w).s) (sym dynamic)
          (let left = act_stale now g f r sample w old other in
            record {
              state = left.state;
              reason = left.reason;
              retry_at = left.retry_at;
              not_raised = left.not_raised;
              le_static = left.le_static;
            }) in
    subst (λ m. IsStaleFallback g state (governed_step now g state sample m).s) (sym dynamic)
      (subst
        (λ rb.
          IsStaleFallback g state
            (after_readback now g force sample static (check_readback now rb static w)).s)
        (sym quiet) (rw other (acted _ _)))
