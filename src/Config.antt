-- ===== src/Config.antt =====
-- linux/turbomac/config.py: the values of a setting, the table SPEC and the check of one value.
-- A configuration is a dictionary by dotted keys, as `flatten` gives it.
pub mod Validate
pub mod Rules
pub mod Accepts
pub mod Defaults
mod Tests
use text.Mathlib.Text.{◌==◌ as str_eq}
use turbo_mac.Prelude.{
  ℕ, suc, ◌+◌, ◌-◌, ◌*◌, ◌^◌, ◌%◌, Bool, true, false, ◌&&◌, ◌||◌, Option, none, some, String, List,
  [], ◌∷◌, leb, ltb, ◌==◌, if◌then◌else◌, one,
}
use turbo_mac.Dict.{Dict, get}

-- A JSON value. `number n` is n billionths, an int or a float; `negative n` is below zero by them.
pub data Value : Type 0 where
  null : Value
  boolean : Bool → Value
  number : ℕ → Value
  negative : ℕ → Value
  infinite : Bool → Value
  not_a_number : Value
  string : String → Value
  nested : Value

-- The reasons of a rejection, by their parts.
pub data Reason : Type 0 where
  bad_schema fixed_max unknown_key not_bool not_a_num not_integer : Reason
  not_choice : List String → Reason
  out_of_range : (lo hi : ℕ) → Reason
  broken_rule : String → Reason

-- The kinds of SPEC without their `?`. The bounds are in billionths.
pub data Kind : Type 0 where
  choice : List String → Kind
  boolean_kind : Kind
  num : (lo hi : ℕ) → Kind
  int : (lo hi : ℕ) → Kind

-- An entry of SPEC; `optional` is the `?`.
pub record Spec : Type 0 where
  pub optional : Bool
  pub kind : Kind

-- The result of `_check_one`; `raises` is an OverflowError of `float(value)` or `int(value)`.
pub data Checked : Type 0 where
  accepts : Value → Checked
  rejects : Reason → Checked
  raises : Checked

abbrev pub eps : ℕ
eps = 1

-- From here on `float` of an int raises, after rounding to 53 bits.
abbrev pub float_limit : ℕ
float_limit = (2 ^ 1024 - 2 ^ 970) * one

abbrev required : Kind → Spec
required k = record { optional = false; kind = k }

abbrev may_be_none : Kind → Spec
may_be_none k = record { optional = true; kind = k }

abbrev watts : ℕ → ℕ → Spec
watts lo hi = required (num (lo * one) (hi * one))

abbrev milli : ℕ → ℕ → Spec
milli lo hi = required (num (lo * 1_000_000) (hi * 1_000_000))

abbrev rpm : ℕ → ℕ → Spec
rpm lo hi = required (int (lo * one) (hi * one))

unfoldable pub table : Dict Spec
table =
    ("governor.mode", required (choice ("off" ∷ "static" ∷ "dynamic" ∷ [])))
    ∷ ("governor.static_cap_w", watts 10 45)
    ∷ ("governor.ceiling_w", watts 10 45)
    ∷ ("governor.floor_w", watts 9 20)
    ∷ ("governor.burst_w", watts 0 5)
    ∷ ("governor.shed_ratio", milli 700 950)
    ∷ ("governor.emergency_ratio", milli 730 980)
    ∷ ("governor.recover_ratio", milli 500 900)
    ∷ ("governor.cut_step_w", watts 1 15)
    ∷ ("governor.recover_step_w", watts 1 5)
    ∷ ("governor.recover_interval_s", watts 1 30)
    ∷ ("governor.stale_timeout_s", watts 1 10)
    ∷ ("governor.thermal_trim_c", may_be_none (num (80 * one) (99 * one)))
    ∷ ("governor.thermal_recover_c", watts 70 97)
    ∷ ("governor.thermal_step_w", milli 500 5000)
    ∷ ("governor.thermal_interval_s", watts 1 30)
    ∷ ("gpu.mode", required (choice ("auto" ∷ "low" ∷ "off" ∷ [])))
    ∷ ("gpu.cap_w", watts 5 35)
    ∷ ("fan.mode", required (choice ("auto" ∷ "floor" ∷ [])))
    ∷ ("fan.power_floor_w", watts 10 45)
    ∷ ("fan.power_floor_rpm", rpm 2000 5900)
    ∷ ("fan.t1_c", watts 50 99)
    ∷ ("fan.t1_rpm", rpm 2000 5900)
    ∷ ("fan.t2_c", watts 50 99)
    ∷ ("fan.t2_rpm", rpm 2000 5900)
    ∷ ("fan.t3_c", watts 50 99)
    ∷ ("fan.t3_rpm", rpm 2000 5900)
    ∷ ("fan.hysteresis_c", watts 2 15)
    ∷ ("fan.step_down_interval_s", watts 5 120)
    ∷ ("fan.max_rpm", rpm 2500 5900)
    ∷ ("cpu.no_turbo", may_be_none boolean_kind)
    ∷ (
      "cpu.epp",
      may_be_none (
          choice
            ("default" ∷ "performance" ∷ "balance_performance" ∷ "balance_power" ∷ "power" ∷ [])),
    )
    ∷ ("cpu.max_perf_pct", may_be_none (int (20 * one) (100 * one)))
    ∷ ("logging.retention_days", rpm 1 365)
    ∷ ("logging.max_mib", rpm 16 8192)
    ∷ []

unfoldable pub one_of : String → List String → Bool
one_of s [] = false
one_of s (t ∷ rest) = str_eq s t || one_of s rest

-- `lo - eps <= value <= hi + eps`
unfoldable pub in_range : (lo hi : ℕ) → Value → Bool
in_range lo hi (number n) = leb lo (n + eps) && leb n (hi + eps)
in_range lo hi (negative n) = leb (lo + n) eps
in_range lo hi _ = false

unfoldable pub ranged : (lo hi : ℕ) → Value → Checked
ranged lo hi v = if in_range lo hi v then accepts v else rejects (out_of_range lo hi)

whole : (lo hi n : ℕ) → Value → Checked
whole lo hi n v =
    if leb float_limit n
    then raises
    else if n % one == 0
    then ranged lo hi v
    else rejects not_integer

-- The kinds, in the order of the tests in the source.
unfoldable pub check_kind : Kind → Value → Checked
unfolding whole
check_kind (choice names) (string s) =
    if one_of s names then accepts (string s) else rejects (not_choice names)
check_kind (choice names) _ = rejects (not_choice names)
check_kind boolean_kind (boolean b) = accepts (boolean b)
check_kind boolean_kind _ = rejects not_bool
check_kind (num lo hi) (number n) = ranged lo hi (number n)
check_kind (num lo hi) (negative n) = ranged lo hi (negative n)
check_kind (num lo hi) (infinite up) = rejects (out_of_range lo hi)
check_kind (num lo hi) _ = rejects not_a_num
check_kind (int lo hi) (number n) = whole lo hi n (number n)
check_kind (int lo hi) (negative n) = whole lo hi n (negative n)
check_kind (int lo hi) (infinite up) = raises
check_kind (int lo hi) _ = rejects not_a_num

unfoldable pub check_spec : Spec → Value → Checked
check_spec s null = if s.optional then accepts null else check_kind s.kind null
check_spec s v = check_kind s.kind v

unfoldable pub check_known : Option Spec → Value → Checked
check_known none v = rejects unknown_key
check_known (some s) v = check_spec s v

-- `value == SCHEMA`; `True == 1` in Python.
is_schema : Value → Bool
is_schema (number n) = n == one
is_schema (boolean b) = b
is_schema _ = false

unfoldable pub check_one : String → Value → Checked
unfolding is_schema
check_one key v =
    if str_eq key "schema"
    then (if is_schema v then accepts v else rejects bad_schema)
    else if str_eq key "governor.hard_max_w"
    then rejects fixed_max
    else check_known (get key table) v
