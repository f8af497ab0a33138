-- ===== src/Rapl/Clamped.antt =====
-- The clamp of linux/turbomac/daemon/rapl.py: what `clamp_limits` lets through.
use mathlib.Core.Path.{ap₂}
use turbo_mac.Prelude.{
  Option-cases, inl, inr, ◌⊎◌, ℕ, ◌+◌, ◌%◌, ◌≤◌, ◌<◌, ◌≡◌, ◌∙◌, ap, Option, none, some, arith,
  lesser,
}
use turbo_mac.Rapl.{Firmware, valid_firmware, maxima, floor_eighth, eighth, clamp_limits}

floor_eighth-le : (w : ℕ) → floor_eighth w ≤ w
unfolding floor_eighth
floor_eighth-le w = omega arith

floor_eighth-near : (w : ℕ) → w < floor_eighth w + eighth
unfolding floor_eighth
floor_eighth-near w = omega arith

floor_eighth-whole : (w : ℕ) → floor_eighth w % eighth ≡ 0
unfolding floor_eighth
floor_eighth-whole w = omega arith

floor_eighth-twice : (w : ℕ) → floor_eighth (floor_eighth w) ≡ floor_eighth w
unfolding floor_eighth
floor_eighth-twice w = omega arith

-- A limit that is asked for, the maximum, and the limit that results: in whole eighths of a watt,
-- neither above the one nor the other, and less than an eighth below the smaller of them.
abbrev pub Rounded : (want top got : ℕ) → Type 0
Rounded want top got =
    (got ≤ want) × (got ≤ top) × (got % eighth ≡ 0) × ((want < got + eighth) ⊎ (top < got + eighth))

-- Below the limits of a firmware dictionary, when there is a usable one.
abbrev pub FirmwareAllows : Option (ℕ × ℕ) → ℕ × ℕ → Type 0
FirmwareAllows none r = Unit {0}
FirmwareAllows (some f) r = (r.0 ≤ f.0) × (r.1 ≤ f.1)

floor_eighth-Rounded : (want top : ℕ) → Rounded want top (floor_eighth (lesser want top))
floor_eighth-Rounded want top = ground (
  arith,
  floor_eighth-le (lesser want top),
  floor_eighth-near (lesser want top),
  floor_eighth-whole (lesser want top),
)

maxima-le :
    (hard_max_w : ℕ) (firmware : Option Firmware)
    → ((maxima hard_max_w firmware).0 ≤ hard_max_w) × ((maxima hard_max_w firmware).1 ≤ hard_max_w)
unfolding maxima
maxima-le hard_max_w firmware = elim (Option-cases (valid_firmware firmware)) [
  | inl e ↦ rw (e, maxima) (omega arith, omega arith)
  | inr (f, e) ↦ rw (e, maxima) (ground arith, ground arith)
]

maxima-FirmwareAllows :
    (hard_max_w : ℕ) (firmware : Option Firmware)
    → FirmwareAllows (valid_firmware firmware) (maxima hard_max_w firmware)
unfolding maxima
maxima-FirmwareAllows hard_max_w firmware = elim (Option-cases (valid_firmware firmware)) [
  | inl e ↦ rw e tt
  | inr (f, e) ↦ rw e (ground arith, ground arith)
]

FirmwareAllows-le :
    (o : Option (ℕ × ℕ)) (r m : ℕ × ℕ)
    → r.0 ≤ m.0
    → r.1 ≤ m.1
    → FirmwareAllows o m
    → FirmwareAllows o r
FirmwareAllows-le none r m h h' a = tt
FirmwareAllows-le (some f) r m h h' a = (omega (arith, h, a), omega (arith, h', a))

-- Each of the two limits that `clamp_limits` returns is the smaller of the limit asked for and a
-- maximum, rounded down to an eighth of a watt; the maximum is at most `hard_max_w`; and where the
-- firmware dictionary is usable the limits are at most the firmware's.
pub clamp_limits-FirmwareAllows :
    (pl1 pl2 hard_max_w : ℕ) (firmware : Option Firmware)
    → let r = clamp_limits pl1 pl2 hard_max_w firmware in
      let m = maxima hard_max_w firmware in
      Rounded pl1 m.0 r.0
      × (Rounded pl2 m.1 r.1)
      × (m.0 ≤ hard_max_w)
      × (m.1 ≤ hard_max_w)
      × FirmwareAllows (valid_firmware firmware) r
unfolding clamp_limits
clamp_limits-FirmwareAllows pl1 pl2 hard_max_w firmware =
    let m = maxima hard_max_w firmware in
    let first = floor_eighth-Rounded pl1 m.0 in
    let second = floor_eighth-Rounded pl2 m.1 in
    let top = maxima-le hard_max_w firmware in
    (
      first,
      second,
      top.0,
      top.1,
      FirmwareAllows-le _ _ m first.1 second.1 (maxima-FirmwareAllows hard_max_w firmware),
    )

clamp_again :
    (want top : ℕ)
    → floor_eighth (lesser (floor_eighth (lesser want top)) top) ≡ floor_eighth (lesser want top)
clamp_again want top =
    let le : floor_eighth (lesser want top) ≤ top = (floor_eighth-Rounded want top).1 in
    let same : lesser (floor_eighth (lesser want top)) top ≡ floor_eighth (lesser want top) =
      ground (arith, le) in
    ap floor_eighth same ∙ floor_eighth-twice (lesser want top)

-- Clamping is idempotent: limits that were clamped are not changed by the same clamp.
pub clamp_limits-clamp_limits :
    (pl1 pl2 hard_max_w : ℕ) (firmware : Option Firmware)
    → let r = clamp_limits pl1 pl2 hard_max_w firmware in
      clamp_limits r.0 r.1 hard_max_w firmware ≡ r
unfolding clamp_limits
clamp_limits-clamp_limits pl1 pl2 hard_max_w firmware =
    let m = maxima hard_max_w firmware in
    ap₂ (λ a b. (a, b)) (clamp_again pl1 m.0) (clamp_again pl2 m.1)
