-- ===== src/Config/Validate.antt =====
-- `validate` of linux/turbomac/config.py: the single values, then the cross rules until none breaks.
use text.Mathlib.Text.{◌==◌ as str_eq}
use turbo_mac.Prelude.{
  ℕ, zero, suc, ◌+◌, ◌*◌, Bool, true, false, Option, none, some, String, List, [], ◌∷◌, leb, ltb,
  if◌then◌else◌, one, length,
}
use turbo_mac.Dict.{Dict, get, has, pop, put, set_default}
use turbo_mac.Config.{
  Value, null, number, Reason, broken_rule, accepts, rejects, raises, check_one, eps,
}

-- A rule names two keys and tests their values. Where the source's test would raise (a key is
-- missing, or a value is no number), `test` is false.
pub record Rule : Type 0 where
  pub first : String
  pub second : String
  pub test : Option Value → Option Value → Bool
  pub reason : String

on_numbers : (ℕ → ℕ → Bool) → Option Value → Option Value → Bool
on_numbers f (some (number a)) (some (number b)) = f a b
on_numbers f _ _ = false

thermal_test : Option Value → Option Value → Bool
unfolding on_numbers
thermal_test a (some null) = true
thermal_test a b = on_numbers (λ r t. leb (r + 2 * one) (t + eps)) a b

unfoldable pub cross_rules : List Rule
unfolding on_numbers thermal_test
cross_rules =
    record {
      first = "governor.static_cap_w";
      second = "governor.ceiling_w";
      test = on_numbers λ s c. leb s (c + eps);
      reason = "static_cap_w must be <= ceiling_w";
    }
    ∷ record {
      first = "governor.recover_ratio";
      second = "governor.shed_ratio";
      test = on_numbers λ r s. leb (r + 50_000_000) (s + eps);
      reason = "recover_ratio must be <= shed_ratio - 0.05";
    }
    ∷ record {
      first = "governor.emergency_ratio";
      second = "governor.shed_ratio";
      test = on_numbers λ e s. leb (s + 30_000_000) (e + eps);
      reason = "emergency_ratio must be >= shed_ratio + 0.03";
    }
    ∷ record {
      first = "governor.thermal_recover_c";
      second = "governor.thermal_trim_c";
      test = thermal_test;
      reason = "thermal_recover_c must be <= thermal_trim_c - 2";
    }
    ∷ record {
      first = "fan.t1_c";
      second = "fan.t2_c";
      test = on_numbers λ a b. ltb (a + eps) b;
      reason = "t1_c must be < t2_c";
    }
    ∷ record {
      first = "fan.t2_c";
      second = "fan.t3_c";
      test = on_numbers λ a b. ltb (a + eps) b;
      reason = "t2_c must be < t3_c";
    }
    ∷ record {
      first = "fan.t1_rpm";
      second = "fan.t2_rpm";
      test = on_numbers leb;
      reason = "t1_rpm must be <= t2_rpm";
    }
    ∷ record {
      first = "fan.t2_rpm";
      second = "fan.t3_rpm";
      test = on_numbers leb;
      reason = "t2_rpm must be <= t3_rpm";
    }
    ∷ []

-- The dictionaries `accepted` and `rejected`, and `broken` of the current pass.
pub record Verdict : Type 0 where
  pub accepted : Dict Value
  pub rejected : Dict Reason
  pub broken : Bool

unfoldable pub check_all : Dict Value → Verdict → Option Verdict
check_all [] v = some v
check_all ((key, value) ∷ rest) v = elim (check_one key value) [
  | accepts norm ↦
      check_all rest
        (if str_eq key "schema" then v else record v { accepted = put key norm v.accepted })
  | rejects err ↦ check_all rest (record v { rejected = put key err v.rejected })
  | raises ↦ none
]

-- `{**flat_base, **accepted}` at a key.
unfoldable pub merged : Dict Value → Dict Value → String → Option Value
merged base accepted key = elim (get key accepted) [ none ↦ get key base | some v ↦ some v ]

unfoldable pub holds_in : Dict Value → Dict Value → Rule → Bool
holds_in base accepted r = r.test (merged base accepted r.first) (merged base accepted r.second)

-- The keys that a broken rule rejects: those that the update brought, or else both.
unfoldable pub culprits : Dict Value → Rule → List String
culprits accepted r =
    if has r.first accepted
    then (if has r.second accepted then r.first ∷ r.second ∷ [] else r.first ∷ [])
    else if has r.second accepted
    then r.second ∷ []
    else r.first ∷ r.second ∷ []

unfoldable pub reject_keys : List String → String → Verdict → Verdict
reject_keys [] why v = v
reject_keys (k ∷ rest) why v = reject_keys rest why (record v {
  accepted = pop k v.accepted;
  rejected = set_default k (broken_rule why) v.rejected;
})

unfoldable pub reject : Rule → Verdict → Verdict
reject r v = record (reject_keys (culprits v.accepted r) r.reason v) { broken = true }

-- One pass over the rules; `start` is `accepted` as it was before the pass.
unfoldable pub pass : Dict Value → Dict Value → List Rule → Verdict → Verdict
pass base start [] v = v
pass base start (r ∷ rest) v =
    pass base start rest (if holds_in base start r then v else reject r v)

-- The `for` loop with its `break`.
unfoldable pub passes : ℕ → Dict Value → List Rule → Verdict → Verdict
passes zero base rules v = v
passes (suc n) base rules v =
    let v' = pass base v.accepted rules (record v { broken = false }) in
    let next = passes n base rules v' in if v'.broken then next else v'

abbrev pub nothing_yet : Verdict
nothing_yet = record { accepted = []; rejected = []; broken = false }

-- `none` is an exception of `_check_one`.
unfoldable pub validate : Dict Value → Dict Value → Option Verdict
validate updates base = elim (check_all updates nothing_yet) [
  | none ↦ none
  | some v ↦ some (passes (length cross_rules + 1) base cross_rules v)
]
