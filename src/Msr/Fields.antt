-- ===== src/Msr/Fields.antt =====
-- The layout of the register that `decode_pkg_limit` of linux/turbomac/daemon/msr.py reads.
use mathlib.Core.Path.{ap₂}
use turbo_mac.Prelude.{
  ℕ, ◌+◌, ◌*◌, ◌/◌, ◌%◌, ◌^◌, ◌≤◌, ◌<◌, ◌≡◌, refl, Bool, true, false, arith, if◌then◌else◌,
}
use turbo_mac.Msr.{Limit, PkgLimit, decode_pkg_limit, window, bit}

-- The fields of one half of the register: the limit, the window's exponent and its quarters.
pub record Half : Type 0 where
  pub units : ℕ
  pub enable : Bool
  pub clamp : Bool
  pub y : ℕ
  pub z : ℕ

abbrev pub flag : Bool → ℕ
flag b = if b then 1 else 0

-- The fields fit their bits.
abbrev pub FitsBits : Half → Type 0
FitsBits h = (h.units < 32_768) × (h.y < 32) × (h.z < 4)

abbrev pub pack_half : Half → ℕ
pack_half h = h.units + 32_768 * flag h.enable + 65_536 * flag h.clamp + 131_072 * (h.y + 32 * h.z)

abbrev pub pack : Half → Half → Bool → ℕ
pack low high lock =
    pack_half low + 4_294_967_296 * pack_half high + 9_223_372_036_854_775_808 * flag lock

abbrev pub meaning : Half → Limit
meaning h = record {
  units = h.units;
  enable = h.enable;
  clamp = h.clamp;
  window_quarters = 2 ^ h.y * (4 + h.z);
}

bit-flag : (v : ℕ) (b : Bool) → v % 2 ≡ flag b → bit v ≡ b
unfolding bit
bit-flag v true h = ground (arith, h)
bit-flag v false h = ground (arith, h)

flag-le : (b : Bool) → flag b ≤ 1
flag-le true = omega arith
flag-le false = omega arith

window_fields :
    (field y z : ℕ) → field ≡ y + 32 * z → y < 32 → z < 4 → window field ≡ 2 ^ y * (4 + z)
unfolding window
window_fields field y z e hy hz =
    let low : field % 32 ≡ y = omega (arith, e, hy, hz) in
    let high : field / 32 % 4 ≡ z = omega (arith, e, hy, hz) in rw (low, high) refl

abbrev the_limit : ℕ → Bool → Bool → ℕ → Limit
the_limit u e c w = record { units = u; enable = e; clamp = c; window_quarters = w }

abbrev the_limits : Limit → Limit → Bool → PkgLimit
the_limits a b l = record { pl1 = a; pl2 = b; lock = l }

same_limit :
    {u u' w w' : ℕ} {e e' c c' : Bool}
    → u ≡ u'
    → e ≡ e'
    → c ≡ c'
    → w ≡ w'
    → (the_limit u e c w) ≡ the_limit u' e' c' w'
same_limit hu he hc hw = ap₂ (λ f w. f w) (ap₂ (λ f c. f c) (ap₂ the_limit hu he) hc) hw

same_limits :
    {a a' b b' : Limit} {l l' : Bool}
    → a ≡ a'
    → b ≡ b'
    → l ≡ l'
    → the_limits a b l ≡ the_limits a' b' l'
same_limits ha hb hl = ap₂ (λ f l. f l) (ap₂ the_limits ha hb) hl

-- Decoding is right about every register that the layout can hold: from two halves whose fields fit
-- their bits and a lock bit, packed into 64 bits, `decode_pkg_limit` gives back the limits in power
-- units, the two flags of each half, the windows 2^y * (1 + z / 4), and the lock.
pub decode_pkg_limit-pack :
    (low high : Half) (lock : Bool)
    → FitsBits low
    → FitsBits high
    → decode_pkg_limit (pack low high lock)
      ≡ (record { pl1 = meaning low; pl2 = meaning high; lock = lock })
unfolding decode_pkg_limit
decode_pkg_limit-pack low high lock f g =
    let v = pack low high lock in
    let b1 = flag-le low.enable in
    let b2 = flag-le low.clamp in
    let b3 = flag-le high.enable in
    let b4 = flag-le high.clamp in
    let b5 = flag-le lock in
    let units1 : v % 32_768 ≡ low.units = omega (arith, f, g, b1, b2, b3, b4, b5) in
    let enable1 : v / 32_768 % 2 ≡ flag low.enable = omega (arith, f, g, b1, b2, b3, b4, b5) in
    let clamp1 : v / 65_536 % 2 ≡ flag low.clamp = omega (arith, f, g, b1, b2, b3, b4, b5) in
    let window1 : v / 131_072 % 128 ≡ low.y + 32 * low.z =
      omega (arith, f, g, b1, b2, b3, b4, b5) in
    let units2 : v / 4_294_967_296 % 32_768 ≡ high.units =
      omega (arith, f, g, b1, b2, b3, b4, b5) in
    let enable2 : v / 140_737_488_355_328 % 2 ≡ flag high.enable =
      omega (arith, f, g, b1, b2, b3, b4, b5) in
    let clamp2 : v / 281_474_976_710_656 % 2 ≡ flag high.clamp =
      omega (arith, f, g, b1, b2, b3, b4, b5) in
    let window2 : v / 562_949_953_421_312 % 128 ≡ high.y + 32 * high.z =
      omega (arith, f, g, b1, b2, b3, b4, b5) in
    let lock1 : v / 9_223_372_036_854_775_808 % 2 ≡ flag lock =
      omega (arith, f, g, b1, b2, b3, b4, b5) in
    same_limits
      (same_limit units1 (bit-flag _ _ enable1) (bit-flag _ _ clamp1)
        (window_fields _ _ _ window1 f.1 f.2))
      (same_limit units2 (bit-flag _ _ enable2) (bit-flag _ _ clamp2)
        (window_fields _ _ _ window2 g.1 g.2))
      (bit-flag _ _ lock1)
