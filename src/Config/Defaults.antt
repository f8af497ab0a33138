-- ===== src/Config/Defaults.antt =====
-- DEFAULTS of linux/turbomac/config.py by dotted keys; `schema` stands apart.
use turbo_mac.Prelude.{ℕ, ◌*◌, [], ◌∷◌, one}
use turbo_mac.Dict.{Dict}
use turbo_mac.Config.{Value, null, number, string}

abbrev whole : ℕ → Value
whole n = number (n * one)

abbrev percent : ℕ → Value
percent n = number (n * 10_000_000)

abbrev pub defaults : Dict Value
defaults =
    ("governor.mode", string "static")
    ∷ ("governor.static_cap_w", whole 35)
    ∷ ("governor.ceiling_w", whole 45)
    ∷ ("governor.floor_w", whole 10)
    ∷ ("governor.burst_w", whole 0)
    ∷ ("governor.shed_ratio", percent 88)
    ∷ ("governor.emergency_ratio", percent 94)
    ∷ ("governor.recover_ratio", percent 78)
    ∷ ("governor.cut_step_w", whole 5)
    ∷ ("governor.recover_step_w", whole 1)
    ∷ ("governor.recover_interval_s", whole 3)
    ∷ ("governor.stale_timeout_s", whole 2)
    ∷ ("governor.thermal_trim_c", whole 97)
    ∷ ("governor.thermal_recover_c", whole 92)
    ∷ ("governor.thermal_step_w", whole 1)
    ∷ ("governor.thermal_interval_s", whole 3)
    ∷ ("gpu.mode", string "auto")
    ∷ ("gpu.cap_w", whole 15)
    ∷ ("fan.mode", string "floor")
    ∷ ("fan.power_floor_w", whole 25)
    ∷ ("fan.power_floor_rpm", whole 3500)
    ∷ ("fan.t1_c", whole 78)
    ∷ ("fan.t1_rpm", whole 3500)
    ∷ ("fan.t2_c", whole 84)
    ∷ ("fan.t2_rpm", whole 4500)
    ∷ ("fan.t3_c", whole 90)
    ∷ ("fan.t3_rpm", whole 5900)
    ∷ ("fan.hysteresis_c", whole 6)
    ∷ ("fan.step_down_interval_s", whole 20)
    ∷ ("fan.max_rpm", whole 5900)
    ∷ ("cpu.no_turbo", null)
    ∷ ("cpu.epp", null)
    ∷ ("cpu.max_perf_pct", null)
    ∷ ("logging.retention_days", whole 14)
    ∷ ("logging.max_mib", whole 1024)
    ∷ []
