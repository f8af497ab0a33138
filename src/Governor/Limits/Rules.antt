-- ===== src/Governor/Limits/Rules.antt =====
-- The rules of the dynamic mode, and the thermal trim, keep the limits.
use turbo_mac.Prelude.{ℕ, Option, leb, ltb, ◌&&◌, if_keeps, option_keeps}
use turbo_mac.Governor.{State, same_state, GovConfig, Sample, readings, Thresholds}
use turbo_mac.Governor.Working.{
  Work, thermal, thermal_adjust, thermal_due, keep_cap, held_cap, trim_start,
}
use turbo_mac.Governor.Step.{reached}
use turbo_mac.Governor.Control.{
  Choice, rule_emergency, rule_shed, rule_recover, rule_clear, apply_rules, by_band,
}
use turbo_mac.Governor.Limits.{IsSafe, ChoiceIsSafe, PairIsSafe, emit-IsSafe}

module _ (fw1 fw2 : Option ℕ) (base : ℕ) where
  -- A choice keeps the limits whatever power it names: `write` clamps it.
  rule_emergency-IsSafe :
      (now : ℕ) (g : GovConfig) (pdtr floor : ℕ) (th : Thresholds) (c : Choice)
      → IsSafe fw1 fw2 base c.work
      → IsSafe fw1 fw2 base (rule_emergency now g pdtr floor th c).work
  unfolding rule_emergency
  rule_emergency-IsSafe now g pdtr floor th c h =
      if_keeps (IsSafe fw1 fw2 base) (same_state c.work.s.state State.emergency) c.work _ h
        (emit-IsSafe fw1 fw2 base _ _ h)

  rule_shed-IsSafe :
      (now : ℕ) (g : GovConfig) (mean floor : ℕ) (th : Thresholds) (c : Choice)
      → IsSafe fw1 fw2 base c.work
      → IsSafe fw1 fw2 base (rule_shed now g mean floor th c).work
  unfolding rule_shed
  rule_shed-IsSafe now g mean floor th c h =
      if_keeps (ChoiceIsSafe fw1 fw2 base) (same_state c.work.s.state State.emergency) _ _ h
        (if_keeps (ChoiceIsSafe fw1 fw2 base) _ _ _ (emit-IsSafe fw1 fw2 base _ _ h) h)

  rule_recover-IsSafe :
      (now : ℕ) (g : GovConfig) (mean ceiling : ℕ) (th : Thresholds) (c : Choice)
      → IsSafe fw1 fw2 base c.work
      → IsSafe fw1 fw2 base (rule_recover now g mean ceiling th c).work
  unfolding rule_recover
  rule_recover-IsSafe now g mean ceiling th c h = if_keeps (ChoiceIsSafe fw1 fw2 base) _ _ _ h (
      option_keeps (ChoiceIsSafe fw1 fw2 base) c.work.s.below_recover_since _ _ h
        (λ since. if_keeps (ChoiceIsSafe fw1 fw2 base) _ _ _ (emit-IsSafe fw1 fw2 base _ _ h) h))

  thermal_adjust-IsSafe :
      (now : ℕ) (g : GovConfig) (temp trim_c floor ceiling cap_w : ℕ) (w : Work)
      → IsSafe fw1 fw2 base w
      → PairIsSafe fw1 fw2 base (thermal_adjust now g temp trim_c floor ceiling cap_w w)
  unfolding thermal_adjust
  thermal_adjust-IsSafe now g temp trim_c floor ceiling cap_w w h =
      if_keeps (PairIsSafe fw1 fw2 base) (leb trim_c temp) _ _
        (if_keeps (PairIsSafe fw1 fw2 base) (ltb floor (trim_start now g cap_w w.s)) _ _
          (emit-IsSafe fw1 fw2 base _ _ h) h)
        (if_keeps (PairIsSafe fw1 fw2 base) (ltb temp g.thermal_recover_c && ltb cap_w ceiling) _ _
          (emit-IsSafe fw1 fw2 base _ _ h) h)

  thermal_due-IsSafe :
      (now : ℕ) (g : GovConfig) (temp_c : Option ℕ) (floor ceiling cap_w : ℕ) (w : Work)
      → IsSafe fw1 fw2 base w
      → PairIsSafe fw1 fw2 base (thermal_due now g temp_c floor ceiling cap_w w)
  unfolding thermal_due
  thermal_due-IsSafe now g temp_c floor ceiling cap_w w h =
      option_keeps (PairIsSafe fw1 fw2 base) g.thermal_trim_c _ _ h (λ trim_c.
        option_keeps (PairIsSafe fw1 fw2 base) temp_c _ _ h (λ temp.
          if_keeps (PairIsSafe fw1 fw2 base) _ _ _
            (thermal_adjust-IsSafe now g temp trim_c floor ceiling cap_w w h) h))

  pub thermal-IsSafe :
      (now : ℕ) (g : GovConfig) (temp_c : Option ℕ) (floor ceiling : ℕ) (w : Work)
      → IsSafe fw1 fw2 base w
      → PairIsSafe fw1 fw2 base (thermal now g temp_c floor ceiling w)
  unfolding thermal keep_cap
  thermal-IsSafe now g temp_c floor ceiling w h =
      thermal_due-IsSafe now g temp_c floor ceiling (held_cap now g floor ceiling w.s) w h

  rule_clear-IsSafe :
      (now : ℕ) (g : GovConfig) (mean ceiling top : ℕ) (th : Thresholds) (c : Choice)
      → IsSafe fw1 fw2 base c.work
      → ChoiceIsSafe fw1 fw2 base (rule_clear now g mean ceiling top th c)
  unfolding rule_clear
  rule_clear-IsSafe now g mean ceiling top th c h =
      if_keeps (ChoiceIsSafe fw1 fw2 base) (same_state c.work.s.state State.emergency) _ _
        (if_keeps (ChoiceIsSafe fw1 fw2 base) _ _ _ h h)
        (rule_recover-IsSafe now g mean ceiling th _ h)

  by_band-IsSafe :
      (now : ℕ) (g : GovConfig) (pdtr mean floor ceiling top : ℕ) (th : Thresholds) (c : Choice)
      → IsSafe fw1 fw2 base c.work
      → ChoiceIsSafe fw1 fw2 base (by_band now g pdtr mean floor ceiling top th c)
  unfolding by_band
  by_band-IsSafe now g pdtr mean floor ceiling top th c h =
      if_keeps (ChoiceIsSafe fw1 fw2 base) (reached pdtr th.emergency_w) _ _
        (rule_emergency-IsSafe now g pdtr floor th c h)
        (if_keeps (ChoiceIsSafe fw1 fw2 base) (reached mean th.shed_w) _ _
          (rule_shed-IsSafe now g mean floor th c h)
          (rule_clear-IsSafe now g mean ceiling top th c h))

  pub apply_rules-IsSafe :
      (now : ℕ) (g : GovConfig) (floor ceiling top : ℕ) (sample : Sample) (c : Choice)
      → IsSafe fw1 fw2 base c.work
      → ChoiceIsSafe fw1 fw2 base (apply_rules now g floor ceiling top sample c)
  unfolding apply_rules
  apply_rules-IsSafe now g floor ceiling top sample c h =
      option_keeps (ChoiceIsSafe fw1 fw2 base) (readings sample) c _ h
        (λ r. by_band-IsSafe now g r.0 _ floor ceiling top _ c h)
