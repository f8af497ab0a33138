-- ===== src/Config/Tests.antt =====
-- The theorems on `validate` at an update that breaks two rules, one after the other.
use turbo_mac.Prelude.{◌*◌, ◌≡◌, refl, true, false, some, [], ◌∷◌, All, one}
use turbo_mac.Dict.{Dict, get, has, pop, put, set_default}
use turbo_mac.Config.{
  Value, number, string, Reason, broken_rule, table, check_one, check_known, check_spec, check_kind,
  ranged, in_range, one_of,
}
use turbo_mac.Config.Validate.{
  Verdict, cross_rules, merged, holds_in, culprits, reject_keys, reject, pass, passes, check_all,
  validate,
}
use turbo_mac.Config.Defaults.{defaults}
use turbo_mac.Config.Rules.{validate-holds_in}

-- Both rules of the ladder break in one pass. The first takes both keys back, and the second then
-- reports `t3_c`, which was not sent.
abbrev updates : Dict Value
updates =
    ("fan.t1_c", number (96 * one))
    ∷ ("fan.t2_c", number (95 * one))
    ∷ ("gpu.cap_w", number (20 * one))
    ∷ ("gpu.mode", string "fast")
    ∷ []

abbrev verdict : Verdict
verdict = record {
  accepted = ("gpu.cap_w", number (20 * one)) ∷ [];
  rejected =
      ("gpu.mode", Reason.not_choice ("auto" ∷ "low" ∷ "off" ∷ []))
      ∷ ("fan.t1_c", broken_rule "t1_c must be < t2_c")
      ∷ ("fan.t2_c", broken_rule "t1_c must be < t2_c")
      ∷ ("fan.t3_c", broken_rule "t2_c must be < t3_c")
      ∷ [];
  broken = false;
}

validate-updates : validate updates defaults ≡ some verdict
unfolding validate cross_rules check_all check_one check_known check_spec check_kind ranged in_range
    one_of table get has pop put set_default merged holds_in culprits reject_keys reject pass passes
validate-updates = refl

validate-holds_in_example : All (λ r. holds_in defaults verdict.accepted r ≡ true) cross_rules
unfolding cross_rules get
validate-holds_in_example =
    validate-holds_in updates defaults verdict
      (refl, (refl, (refl, (refl, (refl, (refl, (refl, (refl, tt)))))))) validate-updates
