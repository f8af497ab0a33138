-- ===== src/Rapl/Verified.antt =====
-- What the record of `apply_and_verify` (linux/turbomac/daemon/rapl.py) says of the device.
use mathlib.Core.Path.{subst}
use turbo_mac.Prelude.{
  ℕ, ◌+◌, ◌-◌, ◌*◌, ◌^◌, ◌%◌, ap, ◌≤◌, ◌≡◌, refl, ◌∙◌, Bool, true, false, Option, none, some, arith,
  if◌then◌else◌, ◌↔◌, List, [], ◌∷◌, holds, round_div-exact, String,
}
use turbo_mac.Rapl.{
  Firmware, Sysfs, PkgLimit, Outcome, valid_firmware, w_to_uw, clamp_limits, compare_limits,
  compare_msr, apart, eighth,
}
use turbo_mac.Rapl.Port.{
  File, long_term_uw, short_term_uw, enabled_file, Device, Applied, write_limits, read_limits,
  judged, apply_and_verify, errors,
}
use turbo_mac.Rapl.Clamped.{FirmwareAllows, clamp_limits-FirmwareAllows}

pub w_to_uw-exact : (w : ℕ) → w % eighth ≡ 0 → w_to_uw w * 1000 ≡ w
unfolding w_to_uw
w_to_uw-exact w h = round_div-exact w (omega (arith, h))

holds-some : (o : Option ℕ) (v : ℕ) → holds o v ≡ true → o ≡ some v
holds-some none v h = cc
holds-some (some u) v h = ground arith

-- Within an eighth of a watt.
abbrev pub Near : ℕ → ℕ → Type 0
Near a b = (a ≤ b + eighth) × (b ≤ a + eighth)

abbrev pub MsrAgrees : (pl1 pl2 : ℕ) → Option PkgLimit → Type 0
MsrAgrees pl1 pl2 none = Unit {0}
MsrAgrees pl1 pl2 (some m) = Near m.pl1_w pl1 × Near m.pl2_w pl2 × (m.pl1_enable ≡ true)

compare_msr-MsrAgrees :
    (pl1 pl2 : ℕ) (msr : Option PkgLimit)
    → (compare_msr pl1 pl2 msr).0 ≡ true
    → MsrAgrees pl1 pl2 msr
unfolding compare_msr apart
compare_msr-MsrAgrees pl1 pl2 none h = tt
compare_msr-MsrAgrees pl1 pl2 (some m) h = (
  (ground (arith, h), ground (arith, h)),
  (ground (arith, h), ground (arith, h)),
  ground (arith, h),
)

-- The zone's files hold the two limits, the zone is enabled, and the MSR agrees where it is read.
abbrev pub InForce : (pl1 pl2 : ℕ) → Sysfs → Option PkgLimit → Type 0
InForce pl1 pl2 sysfs msr =
    (sysfs.pl1_uw ≡ some (w_to_uw pl1))
    × (sysfs.pl2_uw ≡ some (w_to_uw pl2))
    × (sysfs.enabled ≡ some 1)
    × MsrAgrees pl1 pl2 msr

compare_limits-InForce :
    (pl1 pl2 : ℕ) (sysfs : Sysfs) (msr : Option PkgLimit)
    → (compare_limits pl1 pl2 sysfs msr).0 ≡ true
    → InForce pl1 pl2 sysfs msr
unfolding compare_limits
compare_limits-InForce pl1 pl2 sysfs msr h = (
  holds-some _ _ (ground arith),
  holds-some _ _ (ground arith),
  holds-some _ _ (ground arith),
  compare_msr-MsrAgrees pl1 pl2 msr (ground arith),
)

InForce-compare_limits :
    (pl1 pl2 : ℕ) (sysfs : Sysfs) (msr : Option PkgLimit)
    → InForce pl1 pl2 sysfs msr
    → (compare_limits pl1 pl2 sysfs msr).0 ≡ true
unfolding compare_limits compare_msr apart
InForce-compare_limits pl1 pl2 sysfs none h = ground (arith, h)
InForce-compare_limits pl1 pl2 sysfs (some m) h = ground (arith, h)

-- The comparison of a readback succeeds exactly when the zone's files hold the limits to the
-- microwatt, the zone is enabled, and the MSR, if it can be read, is within an eighth of a watt of
-- both limits and enables the first.
pub compare_limits_iff :
    (pl1 pl2 : ℕ) (sysfs : Sysfs) (msr : Option PkgLimit)
    → ((compare_limits pl1 pl2 sysfs msr).0 ≡ true) ↔ InForce pl1 pl2 sysfs msr
compare_limits_iff pl1 pl2 sysfs msr =
    (compare_limits-InForce pl1 pl2 sysfs msr, InForce-compare_limits pl1 pl2 sysfs msr)

-- All that a good record promises of the device `d` in the world that it leaves.
abbrev pub Holds : (d : Device) → (hard_max_w : ℕ) → Option Firmware → Applied d.World → Type 0
Holds d hard_max_w firmware r =
    InForce r.pl1_w r.pl2_w (read_limits d r.world) (d.pkg_limit r.world)
    × (w_to_uw r.pl1_w * 1000 ≡ r.pl1_w)
    × (w_to_uw r.pl2_w * 1000 ≡ r.pl2_w)
    × (r.pl1_w ≤ hard_max_w)
    × (r.pl2_w ≤ hard_max_w)
    × FirmwareAllows (valid_firmware firmware) (r.pl1_w, r.pl2_w)
    × (r.write_errors ≡ [])

judged-ok :
    (errs : List String) (r : Bool × Outcome)
    → (judged errs r).0 ≡ true
    → (errs ≡ []) × (r.0 ≡ true)
unfolding judged
judged-ok [] r h = (refl, h)
judged-ok (e ∷ rest) r h = cc

-- For every device and every request: when `apply_and_verify` returns a record that is ok, no write
-- failed, and in the world that it leaves the zone's files hold, to the microwatt, limits that are at
-- most `hard_max_w` and the usable firmware limits, the zone is enabled, and the MSR agrees where it
-- can be read.
pub apply_and_verify-Holds :
    (d : Device) (pl1 pl2 hard_max_w : ℕ) (firmware : Option Firmware) (world : d.World)
    → (apply_and_verify d pl1 pl2 hard_max_w firmware world).ok ≡ true
    → Holds d hard_max_w firmware (apply_and_verify d pl1 pl2 hard_max_w firmware world)
unfolding apply_and_verify
apply_and_verify-Holds d pl1 pl2 hard_max_w firmware world h =
    let fits = clamp_limits-FirmwareAllows pl1 pl2 hard_max_w firmware in
    let good = judged-ok _ _ h in
    (
      compare_limits-InForce _ _ _ _ good.1,
      w_to_uw-exact _ fits.0.2,
      w_to_uw-exact _ fits.1.2,
      omega (arith, fits),
      omega (arith, fits),
      fits.4,
      good.0,
    )

unfoldable pub same_file : File → File → Bool
same_file long_term_uw long_term_uw = true
same_file short_term_uw short_term_uw = true
same_file enabled_file enabled_file = true
same_file _ _ = false

-- What the kernel keeps of a value that is written: a limit is rounded down to 1/8 W.
unfoldable pub stored : File → ℕ → ℕ
stored long_term_uw v = v - v % 125_000
stored short_term_uw v = v - v % 125_000
stored enabled_file v = v

-- The limit field of the MSR has 15 bits of 1/8 W.
abbrev pub field_max_uw : ℕ
field_max_uw = (2 ^ 15 - 1) * 125_000

-- The values that the code may write: limits that fit the field, and 1 to `enabled`.
abbrev pub IsWritable : File → ℕ → Type 0
IsWritable long_term_uw v = v ≤ field_max_uw
IsWritable short_term_uw v = v ≤ field_max_uw
IsWritable enabled_file v = v ≡ 1

-- A device whose writes of these values succeed and read back as the kernel keeps them, and whose MSR,
-- if it can be read, follows the zone's files while the zone is enabled.
pub record IsFaithful (d : Device) : Type 0 where
  pub succeeds : (f : File) (v : ℕ) (w : d.World) → IsWritable f v → (d.write f v w).0 ≡ none
  pub reads_back :
      (f g : File) (v : ℕ) (w : d.World)
      → IsWritable f v
      → d.read g (d.write f v w).1 ≡ (if same_file f g then some (stored f v) else d.read g w)
  pub msr_follows :
      (w : d.World) (u1 u2 : ℕ)
      → d.read enabled_file w ≡ some 1
      → d.read long_term_uw w ≡ some u1
      → d.read short_term_uw w ≡ some u2
      → MsrAgrees (u1 * 1000) (u2 * 1000) (d.pkg_limit w)

-- A limit that is a multiple of 1/8 W, and fits the field, is kept as it is.
abbrev IsKept : ℕ → Type 0
IsKept v = (v % 125_000 ≡ 0) × (v ≤ field_max_uw)

w_to_uw-IsKept :
    (w top : ℕ) → w % eighth ≡ 0 → w ≤ top → top ≤ field_max_uw * 1000 → IsKept (w_to_uw w)
w_to_uw-IsKept w top h le fits =
    let e = w_to_uw-exact w h in
    let whole : (w_to_uw w * 1000) % eighth ≡ 0 = rw e h in (omega arith, omega arith)

module _ (d : Device) (faithful : IsFaithful d) where
  write_limits-errors :
      (pl1 pl2 : ℕ) (w : d.World)
      → IsKept (w_to_uw pl1)
      → IsKept (w_to_uw pl2)
      → (write_limits d pl1 pl2 w).0 ≡ []
  unfolding write_limits errors
  write_limits-errors pl1 pl2 w (_, fit1) (_, fit2) =
      rw
        (
          faithful.succeeds long_term_uw (w_to_uw pl1) w fit1,
          faithful.succeeds short_term_uw (w_to_uw pl2) _ fit2,
          faithful.succeeds enabled_file 1 _ refl,
        )
        refl

  write_limits-InForce :
      (pl1 pl2 : ℕ) (w : d.World)
      → pl1 % eighth ≡ 0
      → pl2 % eighth ≡ 0
      → IsKept (w_to_uw pl1)
      → IsKept (w_to_uw pl2)
      → InForce pl1 pl2
          (read_limits d (write_limits d pl1 pl2 w).1)
          (d.pkg_limit (write_limits d pl1 pl2 w).1)
  unfolding write_limits read_limits same_file stored
  write_limits-InForce pl1 pl2 w h h' (kept1, fit1) (kept2, fit2) =
      let after = (write_limits d pl1 pl2 w).1 in
      let first : d.read long_term_uw after ≡ some (w_to_uw pl1) =
        faithful.reads_back enabled_file long_term_uw _ _ refl
        ∙ faithful.reads_back short_term_uw long_term_uw _ _ fit2
        ∙ faithful.reads_back long_term_uw long_term_uw _ w fit1
        ∙ ap (λ v. some v) (omega (arith, kept1)) in
      let second : d.read short_term_uw after ≡ some (w_to_uw pl2) =
        faithful.reads_back enabled_file short_term_uw _ _ refl
        ∙ faithful.reads_back short_term_uw short_term_uw _ _ fit2
        ∙ ap (λ v. some v) (omega (arith, kept2)) in
      let third : d.read enabled_file after ≡ some 1 =
        faithful.reads_back enabled_file enabled_file _ _ refl in
      (
        first,
        second,
        third,
        subst (λ a. MsrAgrees a pl2 (d.pkg_limit after)) (w_to_uw-exact pl1 h)
            (subst (λ b. MsrAgrees (w_to_uw pl1 * 1000) b (d.pkg_limit after))
              (w_to_uw-exact pl2 h') (faithful.msr_follows after _ _ third first second)),
      )

  -- On a device whose writes succeed and read back rounded down to 1/8 W, and whose MSR, if it can be
  -- read, follows the zone's files while the zone is enabled, every request with a maximum that fits the
  -- field is verified: `apply_and_verify` returns a record that is ok.
  pub apply_and_verify-ok :
      (pl1 pl2 hard_max_w : ℕ) (firmware : Option Firmware) (world : d.World)
      → hard_max_w ≤ field_max_uw * 1000
      → (apply_and_verify d pl1 pl2 hard_max_w firmware world).ok ≡ true
  unfolding apply_and_verify judged
  apply_and_verify-ok pl1 pl2 hard_max_w firmware world fits_field =
      let r = clamp_limits pl1 pl2 hard_max_w firmware in
      let fits = clamp_limits-FirmwareAllows pl1 pl2 hard_max_w firmware in
      let kept1 = w_to_uw-IsKept r.0 hard_max_w fits.0.2 (omega (arith, fits)) fits_field in
      let kept2 = w_to_uw-IsKept r.1 hard_max_w fits.1.2 (omega (arith, fits)) fits_field in
      rw (write_limits-errors r.0 r.1 world kept1 kept2) (
        InForce-compare_limits r.0 r.1 _ _
          (write_limits-InForce r.0 r.1 world fits.0.2 fits.1.2 kept1 kept2))
