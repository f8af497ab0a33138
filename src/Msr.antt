-- ===== src/Msr.antt =====
-- linux/turbomac/daemon/msr.py: the decoding of the RAPL registers. A power is a count of the power
-- unit, 1 / 2^n W; a window is (1 << y) * (4 + z) quarters of the time unit.
pub mod Fields
mod Tests
use turbo_mac.Prelude.{ℕ, ◌+◌, ◌*◌, ◌/◌, ◌%◌, ◌^◌, Bool, true, false, ◌==◌}

-- The exponents of `decode_units`.
pub record Units : Type 0 where
  pub power : ℕ
  pub energy : ℕ
  pub time : ℕ

unfoldable pub decode_units : ℕ → Units
decode_units v = record { power = v % 16; energy = v / 256 % 32; time = v / 65_536 % 16 }

-- `_window` in quarters of the time unit.
unfoldable pub window : ℕ → ℕ
window field = 2 ^ (field % 32) * (4 + field / 32 % 4)

-- `bool(v >> n & 1)`, of `v >> n`.
unfoldable pub bit : ℕ → Bool
bit shifted = shifted % 2 == 1

-- One half of the register: bits 0 to 23 of `v` or of `v >> 32`.
pub record Limit : Type 0 where
  pub units : ℕ
  pub enable : Bool
  pub clamp : Bool
  pub window_quarters : ℕ

pub record PkgLimit : Type 0 where
  pub pl1 : Limit
  pub pl2 : Limit
  pub lock : Bool

unfoldable pub decode_pkg_limit : ℕ → PkgLimit
decode_pkg_limit v = record {
  pl1 = record {
    units = v % 32_768;
    enable = bit (v / 32_768);
    clamp = bit (v / 65_536);
    window_quarters = window (v / 131_072 % 128);
  };
  pl2 = record {
    units = v / 4_294_967_296 % 32_768;
    enable = bit (v / 140_737_488_355_328);
    clamp = bit (v / 281_474_976_710_656);
    window_quarters = window (v / 562_949_953_421_312 % 128);
  };
  lock = bit (v / 9_223_372_036_854_775_808);
}

pub record ThermStatus : Type 0 where
  pub thermal_status : Bool
  pub prochot : Bool
  pub power_limited : Bool
  pub power_limit_log : Bool

unfoldable pub decode_therm_status : ℕ → ThermStatus
decode_therm_status v = record {
  thermal_status = bit v;
  prochot = bit (v / 4);
  power_limited = bit (v / 1024);
  power_limit_log = bit (v / 2048);
}
