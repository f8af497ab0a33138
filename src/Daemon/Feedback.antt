-- ===== src/Daemon/Feedback.antt =====
-- How a tick of the daemon (linux/turbomac/daemon/main.py) gives the result of a write to the
-- governor's next step.
use mathlib.Core.Path.{subst, ap₂}
use turbo_mac.Prelude.{
  ℕ, ◌≡◌, ◌≢◌, refl, sym, ◌∙◌, Bool, false, some, List, [], ◌∷◌, if_keeps, option_keeps, String,
}
use turbo_mac.Governor.{Mode, Readback, Action, set_limits, event}
use turbo_mac.Governor.Control.{step}
use turbo_mac.Governor.Fallback.{Waits, IsBackoff, Waits-step}
use turbo_mac.Daemon.{Machine, Daemon}
use turbo_mac.Daemon.Tick.{
  Inputs, note_write, apply, apply_all, note_error, fast_sample, slow_sample, sample_of,
  governor_step, fan_step, retry_step, tick,
}

module _ {m : Machine} where
  -- What the samples leave alone.
  abbrev Same : Daemon m → Daemon m → Type 0
  Same d d' = (d'.gov ≡ d.gov) × (d'.readback ≡ d.readback) × (d'.config ≡ d.config)

  note_error-Same :
      (typ message : String) (now : ℕ) (d : Daemon m) → Same d (note_error typ message now d)
  unfolding note_error
  note_error-Same typ message now d = if_keeps (Same d) _ d _ (refl, refl, refl) (refl, refl, refl)

  fast_sample-Same :
      (now : ℕ) (slow : Bool) (i : Inputs) (d : Daemon m) → Same d (fast_sample now slow i d)
  unfolding fast_sample
  fast_sample-Same now slow i d =
      option_keeps (Same d) i.sample _ _ (note_error-Same "sample_error" i.error now _)
        (λ reads. (refl, refl, refl))

  slow_sample-Same :
      (now : ℕ) (slow : Bool) (i : Inputs) (d : Daemon m) → Same d (slow_sample now slow i d)
  unfolding slow_sample
  slow_sample-Same now slow i d =
      if_keeps (Same d) slow _ d
        (option_keeps (Same d) i.slow_sample _ _ (note_error-Same "slow_sample_error" i.error now d)
          (λ pkg_c. (refl, refl, refl)))
        (refl, refl, refl)

  Same-trans : (a b c : Daemon m) → Same a b → Same b c → Same a c
  Same-trans a b c h k = (k.0 ∙ h.0, k.1 ∙ h.1, k.2 ∙ h.2)

  apply_all-gov :
      (i : Inputs) (actions : List Action) (d : Daemon m) → (apply_all i actions d).gov ≡ d.gov
  unfolding apply_all apply note_write
  apply_all-gov i [] d = refl
  apply_all-gov i (set_limits pl1 pl2 why ∷ rest) d = apply_all-gov i rest _
  apply_all-gov i (event e ∷ rest) d = apply_all-gov i rest _

  -- The governor's step is made, and with the state, the readback and the configuration of before.
  abbrev Stepped : ℕ → Daemon m → Daemon m → Daemon m → Type 0
  Stepped now d sampled d' =
      (d'.gov ≡ (step d.gov (sample_of now sampled) d.config.governor now).0)
      × (d'.last_step_ok ≡ some now)

  -- The daemon after the two samples.
  abbrev sampled_of : ℕ → Bool → Inputs → Daemon m → Daemon m
  sampled_of now slow i d = slow_sample now slow i (fast_sample now slow i d)

  sampled_of-Same :
      (now : ℕ) (slow : Bool) (i : Inputs) (d : Daemon m) → Same d (sampled_of now slow i d)
  sampled_of-Same now slow i d =
      Same-trans d (fast_sample now slow i d) (sampled_of now slow i d)
        (fast_sample-Same now slow i d) (slow_sample-Same now slow i _)

  governor_step-Stepped :
      (now : ℕ) (i : Inputs) (d sampled : Daemon m)
      → Same d sampled
      → Stepped now d sampled (governor_step now i sampled)
  unfolding governor_step
  governor_step-Stepped now i d sampled same = (
    apply_all-gov i _ _
        ∙ ap₂ (λ g c. (step g (sample_of now sampled) c.governor now).0) same.0 same.2,
    refl,
  )

  tick-Stepped :
      (now : ℕ) (slow : Bool) (i : Inputs) (d : Daemon m)
      → Stepped now d (sampled_of now slow i d) (tick now slow i d)
  unfolding tick retry_step fan_step
  tick-Stepped now slow i d =
      let sampled = sampled_of now slow i d in
      let stepped = governor_step-Stepped now i d sampled (sampled_of-Same now slow i d) in
      if_keeps (Stepped now d sampled) slow _ (governor_step now i sampled)
        (option_keeps (Stepped now d sampled) (governor_step now i sampled).fanctl _ _ stepped
          (λ c. stepped))
        stepped

  -- A write that was not verified is answered at the next tick, whatever the sensors do, also when both
  -- samples raise: with the governor on, a daemon that holds a failed readback ends the tick in
  -- FALLBACK with a bounded backoff, a retry at its end and a PL1 that is not raised; and the step
  -- counts as made at this time.
  pub tick-Waits :
      (now : ℕ) (slow : Bool) (i : Inputs) (d : Daemon m) (rb : Readback)
      → d.config.governor.mode ≢ Mode.off
      → d.readback ≡ some rb
      → rb.ok ≡ false
      → IsBackoff now d.gov.backoff_s
      → Waits now d.gov (tick now slow i d).gov × ((tick now slow i d).last_step_ok ≡ some now)
  tick-Waits now slow i d rb active held bad backoff =
      let sampled = sampled_of now slow i d in
      let stepped = tick-Stepped now slow i d in
      let readback : (sample_of now sampled).readback ≡ some rb =
        unfold sample_of in (sampled_of-Same now slow i d).1 ∙ held in
      (
        subst (λ g. Waits now d.gov g) (sym stepped.0)
            (Waits-step d.gov (sample_of now sampled) d.config.governor now rb active readback bad
              backoff),
        stepped.1,
      )
