-- ===== src/Governor/Bounds.antt =====
-- The dynamic mode of linux/turbomac/daemon/governor.py keeps PL1 between the floor and the top, and
-- raises it by at most one recovery step.
use turbo_mac.Prelude.{
  ℕ, ◌+◌, ◌*◌, ◌≤◌, ◌≡◌, refl, Bool, true, false, Option, none, some, arith, lesser, greater,
  Option-cases, if_keeps, option_keeps, ◌∙◌, sym, ap, inl, inr, ◌⊎◌,
}
use turbo_mac.Governor.{
  State, Reason, GovState, GovConfig, Sample, Thresholds, same_state, readings, thresholds,
}
use turbo_mac.Governor.Working.{
  Work, emit, cap1, fallback_w, enter, elapsed, thermal, thermal_due, thermal_adjust, trim_start,
  held_cap, keep_cap,
}
use turbo_mac.Governor.Step.{reached}
use turbo_mac.Governor.Control.{
  Choice, rule_emergency, rule_shed, rule_recover, rule_clear, by_band, apply_rules, held, floor_of,
  top_of, start, start_pl1, resumes, finish, control,
}
use turbo_mac.Governor.Writes.{
  pl1_w-write, cap1-le, below_recover_since-enter, below_recover_since-write,
}

-- Between the floor (or the top, where that is lower) and the top.
abbrev pub InRange : (floor top limit : ℕ) → Type 0
InRange floor top limit = (lesser floor top ≤ limit) × (limit ≤ top)

module _ (now : ℕ) (g : GovConfig) where
  held_cap-InRange : (floor top : ℕ) (s : GovState) → InRange floor top (held_cap now g floor top s)
  unfolding held_cap
  held_cap-InRange floor top s = ground arith

  thermal_adjust-InRange :
      (temp trim_c floor top cap_w : ℕ) (w : Work)
      → InRange floor top cap_w
      → InRange floor top (thermal_adjust now g temp trim_c floor top cap_w w).0
  unfolding thermal_adjust trim_start
  thermal_adjust-InRange temp trim_c floor top cap_w w h = ground arith

  thermal_due-InRange :
      (temp_c : Option ℕ) (floor top cap_w : ℕ) (w : Work)
      → InRange floor top cap_w
      → InRange floor top (thermal_due now g temp_c floor top cap_w w).0
  unfolding thermal_due
  thermal_due-InRange temp_c floor top cap_w w h =
      option_keeps (λ (p : ℕ × Work). InRange floor top p.0) g.thermal_trim_c _ _ h
        (λ trim_c.
          option_keeps (λ (p : ℕ × Work). InRange floor top p.0) temp_c _ _ h
            (λ temp.
              if_keeps (λ (p : ℕ × Work). InRange floor top p.0) _ _ _
                (thermal_adjust-InRange temp trim_c floor top cap_w w h) h))

  -- The effective ceiling of the thermal trim lies between the floor and the top, whatever the
  -- temperature, the held cap and PL1.
  pub thermal-InRange :
      (temp_c : Option ℕ) (floor top : ℕ) (w : Work)
      → InRange floor top (thermal now g temp_c floor top w).0
  unfolding thermal keep_cap
  thermal-InRange temp_c floor top w =
      thermal_due-InRange temp_c floor top _ w (held_cap-InRange floor top w.s)

  by_band_bounds :
      (pdtr mean floor ceiling top : ℕ) (th : Thresholds) (c : Choice)
      → InRange floor top ceiling
      → InRange floor top c.pl1
      → c.pl1 ≤ ceiling
      → let r = (by_band now g pdtr mean floor ceiling top th c).pl1 in
        (r ≡ floor) ⊎ InRange floor top r
  unfolding by_band rule_emergency rule_shed rule_clear rule_recover
  by_band_bounds pdtr mean floor ceiling top th c hc hp le = ground arith

  pub fw_pl1_w-thermal :
      (temp_c : Option ℕ) (floor top : ℕ) (w : Work)
      → let s = (thermal now g temp_c floor top w).1.s in
        (s.fw_pl1_w ≡ w.s.fw_pl1_w) × (s.pl1_w ≡ w.s.pl1_w) × (s.state ≡ w.s.state)
  unfolding thermal keep_cap thermal_due thermal_adjust emit
  fw_pl1_w-thermal temp_c floor top w = ground arith

  fw_pl1_w-by_band :
      (pdtr mean floor ceiling top : ℕ) (th : Thresholds) (c : Choice)
      → (by_band now g pdtr mean floor ceiling top th c).work.s.fw_pl1_w ≡ c.work.s.fw_pl1_w
  unfolding by_band rule_emergency rule_shed rule_clear rule_recover emit
  fw_pl1_w-by_band pdtr mean floor ceiling top th c = ground arith

  pub fw_pl1_w-apply_rules :
      (floor ceiling top : ℕ) (sample : Sample) (c : Choice)
      → (apply_rules now g floor ceiling top sample c).work.s.fw_pl1_w ≡ c.work.s.fw_pl1_w
  unfolding apply_rules
  fw_pl1_w-apply_rules floor ceiling top sample c =
      option_keeps (λ (r : Choice). r.work.s.fw_pl1_w ≡ c.work.s.fw_pl1_w) (readings sample) c _
        refl (λ r. fw_pl1_w-by_band r.0 _ floor ceiling top _ c)

  pub fw_pl1_w-enter :
      (new : State) (why : Option Reason) (w : Work)
      → (enter now new why w).s.fw_pl1_w ≡ w.s.fw_pl1_w
  unfolding enter
  fw_pl1_w-enter new why w = ground arith

  apply_rules_bounds :
      (floor ceiling top : ℕ) (sample : Sample) (c : Choice)
      → InRange floor top ceiling
      → InRange floor top c.pl1
      → c.pl1 ≤ ceiling
      → let r = (apply_rules now g floor ceiling top sample c).pl1 in
        (r ≡ floor) ⊎ InRange floor top r
  unfolding apply_rules
  apply_rules_bounds floor ceiling top sample c hc hp le =
      option_keeps (λ (r : Choice). (r.pl1 ≡ floor) ⊎ InRange floor top r.pl1) (readings sample) c _
        (inr hp) (λ r. by_band_bounds r.0 _ floor ceiling top _ c hc hp le)

  start_bounds :
      (static floor ceiling top : ℕ) (w : Work)
      → InRange floor top ceiling
      → InRange floor top (start now g static floor ceiling top w).pl1
        × ((start now g static floor ceiling top w).pl1 ≤ ceiling)
  unfolding start
  start_bounds static floor ceiling top w h = ground arith

  cap1-InRange :
      (static r : ℕ) (s s' : GovState)
      → s'.fw_pl1_w ≡ s.fw_pl1_w
      → (r ≡ floor_of now g static) ⊎ InRange (floor_of now g static) (top_of now g static s) r
      → InRange (floor_of now g static) (top_of now g static s) (cap1 r s')
  unfolding cap1 floor_of top_of
  cap1-InRange static r s s' same h = rw same (ground arith)

  -- One dynamic step that reaches the rules leaves a commanded PL1 that lies between the floor
  -- (`floor_w`, or the static cap where that is lower) and the top (`ceiling_w`, or the static cap
  -- where that is higher, under the hard maximum and the firmware's limit); where the top is below
  -- the floor, PL1 is the top.
  pub control-InRange :
      (force : Bool) (sample : Sample) (static : ℕ) (w : Work)
      → (limit : ℕ) × ((control now g force sample static w).s.pl1_w ≡ some limit)
        × InRange (floor_of now g static) (top_of now g static w.s) limit
  unfolding control finish start
  control-InRange force sample static w =
      let floor = floor_of now g static in
      let top = top_of now g static w.s in
      let t = thermal now g sample.pkg_c floor top w in
      let c0 = start now g static floor t.0 top t.1 in
      let c = apply_rules now g floor t.0 top sample c0 in
      let w2 =
        enter now c.new none (record c.work { s = record c.work.s { fallback_reason = none } }) in
      let hc = thermal-InRange sample.pkg_c floor top w in
      let (hp, le) = start_bounds static floor t.0 top t.1 hc in
      let same : w2.s.fw_pl1_w ≡ w.s.fw_pl1_w =
        fw_pl1_w-enter c.new none _
        ∙ fw_pl1_w-apply_rules floor t.0 top sample c0
        ∙ (fw_pl1_w-thermal sample.pkg_c floor top w).0 in
      (
        cap1 c.pl1 w2.s,
        pl1_w-write now c.pl1 _ _ _ w2,
        cap1-InRange static c.pl1 w.s w2.s same
            (apply_rules_bounds floor t.0 top sample c0 hc hp le),
      )

  -- When PL1 may rise above `from`: a valid sample below the recover band, after the whole interval
  -- below it, and by at most one step.
  abbrev pub Recovers : Sample → GovState → ℕ → ℕ → Type 0
  Recovers sample s from limit =
      (limit ≤ from + g.recover_step_w)
      × (r : ℕ × ℕ) × (readings sample ≡ some r)
      × (reached (held sample.input_mean_1s r.0) (r.1 * g.recover_ratio) ≡ false)
      × (t : ℕ) × (s.below_recover_since ≡ some t)
      × (t + g.recover_interval_s ≤ now)

  by_band_rise :
      (pdtr mean floor ceiling top from : ℕ) (th : Thresholds) (c : Choice)
      → floor ≤ from
      → c.pl1 ≤ from
      → let r = by_band now g pdtr mean floor ceiling top th c in
        (r.pl1 ≤ from)
        ⊎ ((r.pl1 ≤ from + g.recover_step_w)
            × (reached mean th.recover_w ≡ false)
            × (t : ℕ) × (c.work.s.below_recover_since ≡ some t)
            × (t + g.recover_interval_s ≤ now))
  unfolding by_band rule_emergency rule_shed rule_clear rule_recover elapsed
  by_band_rise pdtr mean floor ceiling top from th c hf hc = ground arith

  apply_rules_rise :
      (floor ceiling top from : ℕ) (sample : Sample) (c : Choice)
      → floor ≤ from
      → c.pl1 ≤ from
      → let r = apply_rules now g floor ceiling top sample c in
        (r.pl1 ≤ from) ⊎ Recovers sample c.work.s from r.pl1
  unfolding apply_rules thresholds
  apply_rules_rise floor ceiling top from sample c hf hc = elim (Option-cases (readings sample)) [
    | inl invalid ↦ rw (invalid, apply_rules) (inl hc)
    | inr (r, valid) ↦
        elim (by_band_rise r.0 (held sample.input_mean_1s r.0) floor ceiling top from
          (thresholds r.1 g) c hf hc) [
            | inl kept ↦ rw (valid, apply_rules) (inl kept)
            | inr (step, calm, t, since, long) ↦
                rw (valid, apply_rules) (inr (step, r, refl, calm, t, since, long))
          ]
  ]

  start_rise :
      (static floor ceiling top p0 : ℕ) (w : Work)
      → w.s.pl1_w ≡ some p0
      → same_state w.s.state State.static ≡ false
      → same_state w.s.state State.off ≡ false
      → (start now g static floor ceiling top w).pl1 ≤ greater p0 floor
  unfolding start start_pl1 resumes same_state fallback_w held
  start_rise static floor ceiling top p0 w known notstatic notoff = ground arith

  below_recover_since-thermal :
      (temp_c : Option ℕ) (floor top : ℕ) (w : Work)
      → (thermal now g temp_c floor top w).1.s.below_recover_since ≡ w.s.below_recover_since
  unfolding thermal keep_cap thermal_due thermal_adjust emit
  below_recover_since-thermal temp_c floor top w = ground arith

  cap1_rise :
      (sample : Sample) (s s' : GovState) (from r capped : ℕ)
      → capped ≤ r
      → s.below_recover_since ≡ s'.below_recover_since
      → (r ≤ from) ⊎ Recovers sample s from r
      → (capped ≤ from) ⊎ Recovers sample s' from capped
  cap1_rise sample s s' from r capped le same (inl kept) = inl (omega arith)
  cap1_rise sample s s' from r capped le same (inr (up, v, valid, calm, t, since, long)) =
      inr (omega arith, v, valid, calm, t, sym same ∙ since, long)

  -- The timer of the recovery runs on, from now or from before, only while the mean input is below the
  -- recover band; a sample that is not valid, and EMERGENCY, do not decide it.
  abbrev pub Timed : Sample → (before after : GovState) → Type 0
  Timed sample before after =
      (after.below_recover_since ≡ none)
      ⊎ (((after.below_recover_since ≡ some now)
            ⊎ (after.below_recover_since ≡ before.below_recover_since))
          × ((readings sample ≡ none)
              ⊎ (same_state before.state State.emergency ≡ true)
              ⊎ ((r : ℕ × ℕ) × (readings sample ≡ some r)
                  × (reached (held sample.input_mean_1s r.0) (r.1 * g.recover_ratio) ≡ false))))

  by_band_timed :
      (pdtr mean floor ceiling top : ℕ) (th : Thresholds) (c : Choice)
      → let after = (by_band now g pdtr mean floor ceiling top th c).work.s.below_recover_since in
        (after ≡ none)
        ⊎ (((after ≡ some now) ⊎ (after ≡ c.work.s.below_recover_since))
            × ((same_state c.work.s.state State.emergency ≡ true)
                ⊎ (reached mean th.recover_w ≡ false)))
  unfolding by_band rule_emergency rule_shed rule_clear rule_recover emit
  by_band_timed pdtr mean floor ceiling top th c = ground arith

  apply_rules-Timed :
      (floor ceiling top : ℕ) (sample : Sample) (c : Choice)
      → Timed sample c.work.s (apply_rules now g floor ceiling top sample c).work.s
  unfolding apply_rules thresholds
  apply_rules-Timed floor ceiling top sample c = elim (Option-cases (readings sample)) [
    | inl invalid ↦ rw (invalid, apply_rules) (inr (inr refl, inl refl))
    | inr (r, valid) ↦
        elim (by_band_timed r.0 (held sample.input_mean_1s r.0) floor ceiling top (thresholds r.1 g)
          c) [
            | inl off ↦ rw (valid, apply_rules) (inl off)
            | inr (runs, inl hot) ↦ rw (valid, apply_rules) (inr (runs, inr (inl hot)))
            | inr (runs, inr calm) ↦ rw (valid, apply_rules) (inr (runs, inr (inr (r, refl, calm))))
          ]
  ]

  Timed-Same :
      (sample : Sample) (s s' t t' : GovState)
      → t.below_recover_since ≡ s.below_recover_since
      → t.state ≡ s.state
      → t'.below_recover_since ≡ s'.below_recover_since
      → Timed sample t s'
      → Timed sample s t'
  Timed-Same sample s s' t t' since st since' (inl off) = inl (since' ∙ off)
  Timed-Same sample s s' t t' since st since' (inr (runs, why)) = inr (
    (elim runs [ inl e ↦ inl (since' ∙ e) | inr e ↦ inr (since' ∙ e ∙ since) ]),
    (elim why [
      | inl invalid ↦ inl invalid
      | inr (inl hot) ↦ inr (inl (ap (λ x. same_state x State.emergency) (sym st) ∙ hot))
      | inr (inr calm) ↦ inr (inr calm)
    ]),
  )

  control-Timed :
      (force : Bool) (sample : Sample) (static : ℕ) (w : Work)
      → Timed sample w.s (control now g force sample static w).s
  unfolding control finish start
  control-Timed force sample static w =
      let floor = floor_of now g static in
      let top = top_of now g static w.s in
      let t = thermal now g sample.pkg_c floor top w in
      let c0 = start now g static floor t.0 top t.1 in
      let c = apply_rules now g floor t.0 top sample c0 in
      Timed-Same sample w.s c.work.s t.1.s (control now g force sample static w).s
        (below_recover_since-thermal sample.pkg_c floor top w)
        (fw_pl1_w-thermal sample.pkg_c floor top w).2
        (below_recover_since-write now c.pl1 _ _ _ _ ∙ below_recover_since-enter now c.new none _)
        (apply_rules-Timed floor t.0 top sample c0)

  -- One dynamic step that reaches the rules, from NORMAL, TRIM, EMERGENCY or FALLBACK with a
  -- commanded PL1, leaves a PL1 that is no higher than the old one (or the floor, where that is
  -- higher); or one that is at most one recovery step higher, and then the sample is valid, its mean
  -- input is below the recover band, and the timer of the recovery has run for the recover interval.
  -- The step leaves that timer stopped, or started now, or as it was; and it is not left running by a
  -- valid sample whose mean input is in the recover band or above, except in EMERGENCY.
  pub control_rise :
      (force : Bool) (sample : Sample) (static p0 : ℕ) (w : Work)
      → w.s.pl1_w ≡ some p0
      → same_state w.s.state State.static ≡ false
      → same_state w.s.state State.off ≡ false
      → let from = greater p0 (floor_of now g static) in
        (limit : ℕ) × ((control now g force sample static w).s.pl1_w ≡ some limit)
        × ((limit ≤ from) ⊎ Recovers sample w.s from limit)
        × Timed sample w.s (control now g force sample static w).s
  unfolding control finish start
  control_rise force sample static p0 w known notstatic notoff =
      let floor = floor_of now g static in
      let top = top_of now g static w.s in
      let t = thermal now g sample.pkg_c floor top w in
      let (fw, pl1, st) = fw_pl1_w-thermal sample.pkg_c floor top w in
      let c0 = start now g static floor t.0 top t.1 in
      let c = apply_rules now g floor t.0 top sample c0 in
      let low =
        start_rise static floor t.0 top p0 t.1 (pl1 ∙ known) (rw st notstatic) (rw st notoff) in
      let rise = apply_rules_rise floor t.0 top (greater p0 floor) sample c0 (ground arith) low in
      (
        cap1 c.pl1 _,
        pl1_w-write now c.pl1 _ _ _ _,
        cap1_rise sample t.1.s w.s (greater p0 floor) c.pl1 _ (cap1-le c.pl1 _)
            (below_recover_since-thermal sample.pkg_c floor top w) rise,
        control-Timed force sample static w,
      )
