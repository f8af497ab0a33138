-- ===== src/Rapl.antt =====
-- linux/turbomac/daemon/rapl.py: power limits in nanowatts, energy counters in microjoules, times in
-- nanoseconds.
pub mod Port
pub mod Clamped
pub mod Energy
pub mod Capture
pub mod Captured
pub mod Verified
pub mod Tests
use turbo_mac.Prelude.{
  ℕ, suc, ◌+◌, ◌-◌, ◌*◌, ◌/◌, Bool, true, false, ◌&&◌, not, Option, none, some, List, [], ◌∷◌, ◌++◌,
  leb, ltb, ◌==◌, is_none, if◌then◌else◌, one, lesser, holds, round_div, String,
}
use turbo_mac.Config.{Value, number}

-- `w_to_uw`: microwatts, to the nearest.
unfoldable pub w_to_uw : ℕ → ℕ
w_to_uw w = round_div w 1000

-- The watts between two readings, as (gained - lost) µJ over `span_ns`.
pub record Power : Type 0 where
  pub gained_uj : ℕ
  pub lost_uj : ℕ
  pub span_ns : ℕ

-- A span that is not positive comes in as 0.
unfoldable pub energy_delta_w : (prev_uj cur_uj max_range_uj span_ns : ℕ) → Option Power
energy_delta_w prev_uj cur_uj max_range_uj span_ns =
    if span_ns == 0
    then none
    else if ltb cur_uj prev_uj
    then (if max_range_uj == 0
        then none
        else some
            (record { gained_uj = cur_uj + max_range_uj; lost_uj = prev_uj; span_ns = span_ns }))
    else some (record { gained_uj = cur_uj; lost_uj = prev_uj; span_ns = span_ns })

-- The entries of a firmware dictionary that the clamp reads; `suspect` is its truth value.
pub record Firmware : Type 0 where
  pub suspect : Bool
  pub pl1_w : Option Value
  pub pl2_w : Option Value

-- `_num`: the watts of a finite positive int or float.
unfoldable pub positive_w : Option Value → Option ℕ
positive_w (some (number n)) = if ltb 0 n then some n else none
positive_w _ = none

-- `valid_firmware`: the two limits of a dictionary that is usable as a clamp.
unfoldable pub valid_firmware : Option Firmware → Option (ℕ × ℕ)
valid_firmware none = none
valid_firmware (some fw) = if fw.suspect then none else elim (positive_w fw.pl1_w) [
  | none ↦ none
  | some m1 ↦ elim (positive_w fw.pl2_w) [ none ↦ none | some m2 ↦ some (m1, m2) ]
]

abbrev pub eighth : ℕ
eighth = 125_000_000

-- `floor(w * 8 + 1e-9) / 8`
unfoldable pub floor_eighth : ℕ → ℕ
floor_eighth w = (w * 8 + 1) / one * eighth

-- The maximum of each limit.
unfoldable pub maxima : ℕ → Option Firmware → ℕ × ℕ
maxima hard_max_w firmware = elim (valid_firmware firmware) [
  | none ↦ (hard_max_w, hard_max_w)
  | some (f1, f2) ↦ (lesser hard_max_w f1, lesser hard_max_w f2)
]

unfoldable pub clamp_limits : (pl1_w pl2_w hard_max_w : ℕ) → Option Firmware → ℕ × ℕ
clamp_limits pl1_w pl2_w hard_max_w firmware =
    let m = maxima hard_max_w firmware in
    (floor_eighth (lesser pl1_w m.0), floor_eighth (lesser pl2_w m.1))

-- What `read_limits` reads of the zone, where it is needed.
pub record Sysfs : Type 0 where
  pub pl1_uw : Option ℕ
  pub pl2_uw : Option ℕ
  pub enabled : Option ℕ

-- What `pkg_limit` decodes of MSR 0x610, where it is needed.
pub record PkgLimit : Type 0 where
  pub pl1_w : ℕ
  pub pl2_w : ℕ
  pub pl1_enable : Bool

pub data Outcome : Type 0 where
  sysfs_unavailable sysfs_differs sysfs_disabled msr_differs msr_disabled : Outcome
  ok_without_msr ok_with_msr : Outcome
  write_failed : List String → Outcome

-- `abs(a - b) > MSR_TOLERANCE_W`
unfoldable pub apart : ℕ → ℕ → Bool
apart a b = if ltb (b + eighth) a then true else ltb (a + eighth) b

unfoldable pub compare_msr : (want_pl1 want_pl2 : ℕ) → Option PkgLimit → Bool × Outcome
compare_msr want_pl1 want_pl2 none = (true, ok_without_msr)
compare_msr want_pl1 want_pl2 (some msr) =
    if (if apart msr.pl1_w want_pl1 then true else apart msr.pl2_w want_pl2)
    then (false, msr_differs)
    else if not msr.pl1_enable
    then (false, msr_disabled)
    else (true, ok_with_msr)

unfoldable pub compare_limits : (want_pl1 want_pl2 : ℕ) → Sysfs → Option PkgLimit → Bool × Outcome
compare_limits want_pl1 want_pl2 sysfs msr =
    if (if is_none sysfs.pl1_uw then true else is_none sysfs.pl2_uw)
    then (false, sysfs_unavailable)
    else if holds sysfs.pl1_uw (w_to_uw want_pl1) && holds sysfs.pl2_uw (w_to_uw want_pl2)
    then (if holds sysfs.enabled 1
        then compare_msr want_pl1 want_pl2 msr
        else (false, sysfs_disabled))
    else (false, sysfs_differs)
