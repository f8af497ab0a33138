-- ===== src/Governor/Emergency.antt =====
-- Rule 2 of linux/turbomac/daemon/governor.py on every path of a dynamic step: input power in the
-- emergency band puts the package limit at the floor.
use turbo_mac.Prelude.{
  ℕ, ◌*◌, ◌≤◌, ◌<◌, ◌≡◌, Bool, true, false, Option, none, some, arith, lesser, Bool-cases,
  Option-cases, if_keeps, inl, inr, ◌⊎◌, ltb, sym, ap, ◌∙◌, refl,
}
use turbo_mac.Governor.{
  State, Mode, GovState, GovConfig, Readback, Sample, same_state, readings, thresholds,
}
use turbo_mac.Governor.Working.{Work, emit, cap1, elapsed, enter, thermal}
use turbo_mac.Governor.Step.{
  above_floor, reached, begin, check_readback, emergency_in_fallback, wait_retry, check_retry,
  is_stale,
}
use turbo_mac.Governor.Control.{
  Choice, rule_emergency, by_band, apply_rules, held, floor_of, top_of, start, finish, control, act,
  after_retry, after_readback, governed_step, step,
}
use turbo_mac.Governor.Writes.{pl1_w-write, cap1-le}
use turbo_mac.Governor.Bounds.{fw_pl1_w-enter, fw_pl1_w-apply_rules, fw_pl1_w-thermal}
use mathlib.Core.Path.{subst}

-- A commanded limit that is no higher than `bound`.
abbrev pub AtMost : ℕ → Option ℕ → Type 0
AtMost bound none = ⊥
AtMost bound (some limit) = limit ≤ bound

-- The commanded limit after a cut: the floor under the clamps of `cap1`; or, in FALLBACK, the limit that was
-- commanded before, where that is no higher than the floor.
abbrev pub IsCut : (floor : ℕ) → (before : GovState) → Option ℕ → Type 0
IsCut floor before limit =
    (limit ≡ some (cap1 floor before))
    ⊎ ((same_state before.state State.fallback ≡ true)
        × (limit ≡ before.pl1_w)
        × AtMost floor limit)

-- The previous write, if there was one, read back well.
abbrev pub ReadsBack : Option Readback → Type 0
ReadsBack none = Unit
ReadsBack (some rb) = rb.ok ≡ true

-- What a part of the step leaves as it was.
pub record Same (before : GovState) (w : Work) : Type 0 where
  pub fw_pl1_w : w.s.fw_pl1_w ≡ before.fw_pl1_w
  pub pl1_w : w.s.pl1_w ≡ before.pl1_w
  pub state : w.s.state ≡ before.state

cap1-Same : (pl1 : ℕ) (s s' : GovState) → s'.fw_pl1_w ≡ s.fw_pl1_w → cap1 pl1 s' ≡ cap1 pl1 s
unfolding cap1
cap1-Same pl1 s s' same = rw same refl

IsCut-AtMost :
    (floor : ℕ) (before : GovState) (limit : Option ℕ)
    → IsCut floor before limit
    → AtMost floor limit
IsCut-AtMost floor before limit (inl e) = rw e (cap1-le floor before)
IsCut-AtMost floor before limit (inr (waits, e, low)) = low

AtMost-above_floor :
    (floor : ℕ) (limit : Option ℕ) → above_floor floor limit ≡ false → AtMost floor limit
unfolding above_floor
AtMost-above_floor floor none e = cc
AtMost-above_floor floor (some pl1) e = ground arith

apply_rules_valid :
    (now : ℕ) (g : GovConfig) (floor ceiling top : ℕ) (sample : Sample) (c : Choice) (pdtr acpw : ℕ)
    → readings sample ≡ some (pdtr, acpw)
    → apply_rules now g floor ceiling top sample c
      ≡ by_band now g pdtr (held sample.input_mean_1s pdtr) floor ceiling top (thresholds acpw g) c
unfolding apply_rules
apply_rules_valid now g floor ceiling top sample c pdtr acpw valid = rw (valid, apply_rules)

by_band_hot :
    (now : ℕ) (g : GovConfig) (pdtr mean floor ceiling top : ℕ) (acpw : ℕ) (c : Choice)
    → reached pdtr (thresholds acpw g).emergency_w ≡ true
    → (by_band now g pdtr mean floor ceiling top (thresholds acpw g) c).pl1 ≡ floor
unfolding by_band rule_emergency
by_band_hot now g pdtr mean floor ceiling top acpw c hot = rw hot refl

-- The rules put PL1 at the floor, under the clamps.
control-cut :
    (now : ℕ) (g : GovConfig) (force : Bool) (sample : Sample) (static : ℕ) (w : Work)
    (pdtr acpw : ℕ)
    → readings sample ≡ some (pdtr, acpw)
    → reached pdtr (thresholds acpw g).emergency_w ≡ true
    → (control now g force sample static w).s.pl1_w ≡ some (cap1 (floor_of now g static) w.s)
unfolding control finish start
control-cut now g force sample static w pdtr acpw valid hot =
    let floor = floor_of now g static in
    let top = top_of now g static w.s in
    let t = thermal now g sample.pkg_c floor top w in
    let c0 = start now g static floor t.0 top t.1 in
    let c = apply_rules now g floor t.0 top sample c0 in
    let w2 =
      enter now c.new none (record c.work { s = record c.work.s { fallback_reason = none } }) in
    let same : w2.s.fw_pl1_w ≡ w.s.fw_pl1_w =
      fw_pl1_w-enter now g c.new none _
      ∙ fw_pl1_w-apply_rules now g floor t.0 top sample c0
      ∙ (fw_pl1_w-thermal now g sample.pkg_c floor top w).0 in
    let cut : c.pl1 ≡ floor =
      ap (λ (r : Choice). r.pl1) (apply_rules_valid now g floor t.0 top sample c0 pdtr acpw valid)
      ∙ by_band_hot now g pdtr _ floor t.0 top acpw c0 hot in
    pl1_w-write now c.pl1 _ _ _ w2
    ∙ ap (λ n. some n) (cap1-Same c.pl1 w.s w2.s same ∙ ap (λ n. cap1 n w.s) cut)

-- What the theorem asks of the sample and the configuration.
module _ (now : ℕ) (g : GovConfig) (sample : Sample) (pdtr acpw : ℕ)
    (dynamic : g.mode ≡ Mode.dynamic) (valid : readings sample ≡ some (pdtr, acpw))
    (hot : reached pdtr (thresholds acpw g).emergency_w ≡ true) (timeout : 0 < g.stale_timeout_s)
    (before : GovState) where
  emergency_in_fallback-IsCut :
      (floor : ℕ) (w : Work)
      → Same before w
      → same_state w.s.state State.fallback ≡ true
      → IsCut floor before (emergency_in_fallback now g pdtr acpw floor w).s.pl1_w
  unfolding emergency_in_fallback emit
  emergency_in_fallback-IsCut floor w same waits =
      rw hot (elim (Bool-cases (above_floor floor w.s.pl1_w)) [
        | inl above ↦ rw above (
            inl (
              pl1_w-write now floor floor _ true _
              ∙ ap (λ n. some n) (cap1-Same floor before _ same.fw_pl1_w)))
        | inr below ↦ rw below (
            inr (
              ap (λ st. same_state st State.fallback) (sym same.state) ∙ waits,
              same.pl1_w,
              AtMost-above_floor floor w.s.pl1_w below,
            ))
      ])

  wait_retry-IsCut :
      (static : ℕ) (w : Work)
      → Same before w
      → same_state w.s.state State.fallback ≡ true
      → IsCut (floor_of now g static) before (wait_retry now g g.mode sample static w).s.pl1_w
  unfolding wait_retry floor_of
  wait_retry-IsCut static w same waits =
      subst (λ m. IsCut (floor_of now g static) before (wait_retry now g m sample static w).s.pl1_w)
        (sym dynamic)
        (rw (valid, wait_retry)
          (emergency_in_fallback-IsCut (lesser g.floor_w static) w same waits))

  act-IsCut :
      (force retried : Bool) (static : ℕ) (w : Work)
      → Same before w
      → w.s.last_valid ≡ some now
      → IsCut
          (floor_of now g static)
          before
          (act now g g.mode force retried sample static w).s.pl1_w
  unfolding act
  act-IsCut force retried static w same fresh =
      let live : is_stale now g w.s ≡ false = unfold is_stale elapsed in rw fresh (ground arith) in
      subst
        (λ m.
          IsCut (floor_of now g static) before (act now g m force retried sample static w).s.pl1_w)
        (sym dynamic)
        (rw live (
          inl (
            control-cut now g force sample static w pdtr acpw valid hot
            ∙ ap (λ n. some n) (cap1-Same _ before w.s same.fw_pl1_w))))

  retry-IsCut :
      (force retried : Bool) (static : ℕ) (w : Work)
      → Same before w
      → w.s.last_valid ≡ some now
      → IsCut
          (floor_of now g static)
          before
          (after_retry now g force retried sample static
            (check_retry now g sample static w)).s.pl1_w
  unfolding after_retry check_retry emit
  retry-IsCut force retried static w same fresh =
      elim (Bool-cases (same_state w.s.state State.fallback)) [
        | inl waiting ↦ rw waiting (elim (Option-cases w.s.retry_at) [
          | inl never ↦ rw (never, after_retry) (act-IsCut force retried static w same fresh)
          | inr (at, e) ↦ elim (Bool-cases (ltb now at)) [
            | inl early ↦ rw (e, early, after_retry) (wait_retry-IsCut static w same waiting)
            | inr due ↦
                rw (e, due, after_retry)
                  (act-IsCut force retried static _
                    (record { fw_pl1_w = same.fw_pl1_w; pl1_w = same.pl1_w; state = same.state })
                    fresh)
          ]
        ])
        | inr other ↦ rw other (act-IsCut force retried static w same fresh)
      ]

  readback-IsCut :
      (force : Bool) (rb : Option Readback) (static : ℕ) (w : Work)
      → ReadsBack rb
      → Same before w
      → w.s.last_valid ≡ some now
      → IsCut
          (floor_of now g static)
          before
          (after_readback now g force sample static (check_readback now rb static w)).s.pl1_w
  unfolding after_readback check_readback
  readback-IsCut force none static w h same fresh = retry-IsCut force _ static w same fresh
  readback-IsCut force (some rb) static w h same fresh =
      let in_fallback = same_state w.s.state State.fallback in
      rw h (
        retry-IsCut force _ static _
          (if_keeps (λ (v : Work). Same before v) in_fallback _ _ same
            (record { fw_pl1_w = same.fw_pl1_w; pl1_w = same.pl1_w; state = same.state }))
          (if_keeps (λ (v : Work). v.s.last_valid ≡ some now) in_fallback _ _ fresh fresh))

-- In the dynamic mode, with a valid sample whose input power has reached the emergency threshold, a
-- positive stale timeout, and no readback of the previous write or one that did not fail: one step leaves
-- a commanded PL1 that is at most the configured floor and at most the static cap. It is exactly that
-- floor, clamped by the hard maximum and the firmware's limit; or the step began in FALLBACK with a PL1
-- that is no higher than the floor, and leaves it as it is.
pub AtMost-step :
    (state : GovState) (sample : Sample) (g : GovConfig) (now pdtr acpw : ℕ)
    → g.mode ≡ Mode.dynamic
    → readings sample ≡ some (pdtr, acpw)
    → reached pdtr (acpw * g.emergency_ratio) ≡ true
    → 0 < g.stale_timeout_s
    → ReadsBack sample.readback
    → let floor = lesser g.floor_w g.static_cap_w in
      let limit = (step state sample g now).0.pl1_w in AtMost floor limit × IsCut floor state limit
unfolding step governed_step begin floor_of thresholds
AtMost-step state sample g now pdtr acpw dynamic valid hot timeout ok =
    let floor = lesser g.floor_w g.static_cap_w in
    let cut : IsCut floor state (step state sample g now).0.pl1_w =
      subst (λ m. IsCut floor state (governed_step now g state sample m).s.pl1_w) (sym dynamic)
        (readback-IsCut now g sample pdtr acpw dynamic valid hot timeout state _ sample.readback
          g.static_cap_w _ ok (record { fw_pl1_w = refl; pl1_w = refl; state = refl })
          (rw valid)) in
    (IsCut-AtMost floor state _ cut, cut)
