-- ===== src/Governor/Hold.antt =====
-- Rule 5 of linux/turbomac/daemon/governor.py: how a dynamic step leaves EMERGENCY.
use turbo_mac.Prelude.{ℕ, ◌+◌, ◌*◌, ◌≤◌, ◌≡◌, refl, ◌∙◌, Bool, false, Option, some, arith, ◌⊎◌}
use turbo_mac.Governor.{
  State, Reason, Why, GovConfig, Sample, Thresholds, same_state, readings, thresholds,
  emergency_hold_s,
}
use turbo_mac.Governor.Working.{
  Work, emit, enter, write, unchanged, elapsed, thermal, thermal_due, thermal_adjust, keep_cap,
}
use turbo_mac.Governor.Step.{reached}
use turbo_mac.Governor.Control.{
  Choice, rule_emergency, rule_shed, rule_clear, by_band, apply_rules, held, start, resumes, finish,
  control, floor_of, top_of,
}

module _ (now : ℕ) (g : GovConfig) where
  by_band_hold :
      (pdtr mean floor ceiling top : ℕ) (th : Thresholds) (c : Choice) (below : Option ℕ)
      → c.new ≡ State.emergency
      → c.work.s.state ≡ State.emergency
      → c.work.s.below_shed_since ≡ below
      → let r = by_band now g pdtr mean floor ceiling top th c in
        (r.new ≡ State.emergency)
        ⊎ ((r.new ≡ State.trim)
            × (reached pdtr th.emergency_w ≡ false)
            × (reached mean th.shed_w ≡ false)
            × (t : ℕ) × (below ≡ some t)
            × (t + emergency_hold_s ≤ now))
  unfolding by_band rule_emergency rule_shed rule_clear elapsed same_state held
  by_band_hold pdtr mean floor ceiling top th c below new st since = ground arith

  state-enter : (new : State) (why : Option Reason) (w : Work) → (enter now new why w).s.state ≡ new
  unfolding enter same_state
  state-enter new why w = ground arith

  state-write :
      (pl1 pl2 : ℕ) (why : Why) (force : Bool) (w : Work)
      → (write now pl1 pl2 why force w).s.state ≡ w.s.state
  unfolding write unchanged
  state-write pl1 pl2 why force w = ground arith

  fields-thermal :
      (temp_c : Option ℕ) (floor top : ℕ) (w : Work)
      → let s = (thermal now g temp_c floor top w).1.s in
        (s.state ≡ w.s.state) × (s.pl1_w ≡ w.s.pl1_w) × (s.below_shed_since ≡ w.s.below_shed_since)
  unfolding thermal keep_cap thermal_due thermal_adjust emit
  fields-thermal temp_c floor top w = ground arith

  start-emergency :
      (static floor ceiling top p0 : ℕ) (w : Work)
      → w.s.state ≡ State.emergency
      → w.s.pl1_w ≡ some p0
      → (start now g static floor ceiling top w).new ≡ State.emergency
  unfolding start resumes same_state
  start-emergency static floor ceiling top p0 w st known = ground arith

  start-state :
      (static floor ceiling top : ℕ) (w : Work)
      → (start now g static floor ceiling top w).work.s.state ≡ w.s.state
  unfolding start
  start-state static floor ceiling top w = refl

  start-since :
      (static floor ceiling top : ℕ) (w : Work)
      → (start now g static floor ceiling top w).work.s.below_shed_since ≡ w.s.below_shed_since
  unfolding start
  start-since static floor ceiling top w = refl

  -- From EMERGENCY with a commanded PL1, a dynamic step on a valid sample that reaches the rules
  -- stays in EMERGENCY, or goes to TRIM; and then the input is below the emergency band, its mean is
  -- below the shed band, and has been for `EMERGENCY_HOLD_S`.
  pub control_hold :
      (force : Bool) (sample : Sample) (static p0 pdtr acpw : ℕ) (w : Work)
      → w.s.state ≡ State.emergency
      → w.s.pl1_w ≡ some p0
      → readings sample ≡ some (pdtr, acpw)
      → let s = (control now g force sample static w).s in
        (s.state ≡ State.emergency)
        ⊎ ((s.state ≡ State.trim)
            × (reached pdtr (acpw * g.emergency_ratio) ≡ false)
            × (reached (held sample.input_mean_1s pdtr) (acpw * g.shed_ratio) ≡ false)
            × (t : ℕ) × (w.s.below_shed_since ≡ some t)
            × (t + emergency_hold_s ≤ now))
  unfolding control finish apply_rules thresholds
  control_hold force sample static p0 pdtr acpw w st known valid =
      let floor = floor_of now g static in
      let top = top_of now g static w.s in
      let t = thermal now g sample.pkg_c floor top w in
      let (st', pl1, since) = fields-thermal sample.pkg_c floor top w in
      let c0 = start now g static floor t.0 top t.1 in
      let new0 : c0.new ≡ State.emergency =
        start-emergency static floor t.0 top p0 t.1 (st' ∙ st) (pl1 ∙ known) in
      let mean = held sample.input_mean_1s pdtr in
      rw (state-write, state-enter, valid, apply_rules)
        (by_band_hold pdtr mean floor t.0 top (thresholds acpw g) c0 w.s.below_shed_since new0
          (start-state static floor t.0 top t.1 ∙ st' ∙ st)
          (start-since static floor t.0 top t.1 ∙ since))
