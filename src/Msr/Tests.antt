-- ===== src/Msr/Tests.antt =====
-- The register 0x610 with PL1 100 W and PL2 125 W in eighths, and its decoding.
use turbo_mac.Prelude.{◌≡◌, true, false, arith}
use turbo_mac.Msr.{decode_pkg_limit}
use turbo_mac.Msr.Fields.{Half, pack, meaning, decode_pkg_limit-pack}

abbrev low : Half
low = record { units = 800; enable = true; clamp = false; y = 14; z = 3 }

abbrev high : Half
high = record { units = 1000; enable = true; clamp = true; y = 1; z = 2 }

decode_pkg_limit-pack_example :
    decode_pkg_limit (pack low high true)
    ≡ (record { pl1 = meaning low; pl2 = meaning high; lock = true })
decode_pkg_limit-pack_example =
    decode_pkg_limit-pack low high true (omega arith, omega arith, omega arith)
      (omega arith, omega arith, omega arith)
