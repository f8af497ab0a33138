-- ===== src/Daemon/Tests.antt =====
-- The theorems on the daemon with devices that are stores, and the default configuration.
use turbo_mac.Prelude.{
  ◌+◌, ◌*◌, ◌≤◌, ◌≡◌, refl, true, false, none, some, List, [], ◌∷◌, arith, All, one, inl,
}
use turbo_mac.Dict.{Dict}
use turbo_mac.Config.{Value, string, number}
use turbo_mac.Config.Defaults
use turbo_mac.Governor
use turbo_mac.Governor.{Mode}
use turbo_mac.Governor.Tests as GovernorTests
use turbo_mac.Governor.Fallback.{Waits}
use turbo_mac.Rapl.Tests as RaplTests
use turbo_mac.Rapl.Port.{long_term_uw, short_term_uw, enabled_file}
use turbo_mac.Rapl.Verified.{same_file, stored}
use turbo_mac.Fan.Control.Tests as FanTests
use turbo_mac.Fan.Control.{FanMode}
use turbo_mac.Fan.Tests.{settings}
use turbo_mac.Gpu.Tests as GpuTests
use turbo_mac.Sampler.Fast.{new_sampler}
use turbo_mac.Daemon.{Machine, Daemon, Retries}
use turbo_mac.Daemon.Retry
use turbo_mac.Daemon.Retry.{
  Happens, ticks, cap_changes, asks_mode, ends_first, ends, started, gpu_retries, rearms,
  run-started,
}
use turbo_mac.Daemon.Tick.{Inputs, tick}
use turbo_mac.Daemon.Powers
use turbo_mac.Daemon.Powers.{Call, KeptBy, Allowed, run-Good}
use turbo_mac.Daemon.Feedback.{tick-Waits}
use turbo_mac.Daemon.Loop.{
  ready_notice, watchdog_notice, loop_once, send_watchdog, send_ready, begin, step_ok, within, due,
  waited,
}
use turbo_mac.Daemon.Watchdog
use turbo_mac.Daemon.Watchdog.{Trace, Justified, readies, Spaced, pings, run-Justified}
use turbo_mac.Daemon.Settings.{Host, Settings, object}
use turbo_mac.Daemon.Legal.{IsLegal, defaults-IsLegal}
use turbo_mac.Daemon.Obeys.{Request, set, gpu, reload, serve_all, serve_all-IsLegal}

abbrev idle : Retries
idle = record { left = 0; next = none; thread = true }

abbrev happenings : List Happens
happenings =
    ends_first false true true
    ∷ ticks false 0
    ∷ ticks false (20 * one)
    ∷ cap_changes
    ∷ ends 0 false true false
    ∷ ends_first true false true
    ∷ asks_mode
    ∷ []

run-started_example :
    started (Retry.run idle happenings).1 + (Retry.run idle happenings).0.left
    ≤ idle.left + gpu_retries * rearms happenings
run-started_example = run-started idle happenings

abbrev machine : Machine
machine = record { power = RaplTests.store; fans = FanTests.store; describe = λ o. "text" }

abbrev daemon : Daemon machine
daemon = record {
  config = record { governor = GovernorTests.defaults; fan_mode = FanMode.floor; fan = settings };
  firmware = none;
  sampler = new_sampler;
  gov = Governor.initial 0 none none;
  readback = some GovernorTests.failed;
  last_write = none;
  last_step_ok = none;
  fanctl = some FanTests.controller;
  errors = [];
  retries = idle;
  events = [];
  power = λ f. 0;
  fans = λ n. 2000;
}

-- Both samples raise.
abbrev blind : Inputs
blind = record {
  wall = 0;
  sample = none;
  slow_sample = none;
  error = "OSError()";
  available = true;
  gpu_busy = false;
}

tick-Waits_example :
    Waits one daemon.gov (tick one true blind daemon).gov
    × ((tick one true blind daemon).last_step_ok ≡ some one)
unfolding Governor.initial
tick-Waits_example =
    tick-Waits one true blind daemon GovernorTests.failed (λ e. cc) refl refl (inl refl)

-- Neither limit is above 45 W.
abbrev pub AtMost45 : RaplTests.store.World → Type 0
AtMost45 w = (w long_term_uw ≤ 45_000_000) × (w short_term_uw ≤ 45_000_000)

pub AtMost45-KeptBy : KeptBy RaplTests.store AtMost45
unfolding same_file stored
AtMost45-KeptBy long_term_uw v w allowed p = (omega (arith, allowed), p.1)
AtMost45-KeptBy short_term_uw v w allowed p = (p.0, omega (arith, allowed))
AtMost45-KeptBy enabled_file v w allowed p = p

abbrev calls : List Call
calls =
    record { now = 0; slow = true; inputs = blind }
    ∷ record { now = 4 * one; slow = false; inputs = blind }
    ∷ []

run-Good_example : AtMost45 (Powers.run daemon calls).power
run-Good_example = run-Good AtMost45 daemon calls AtMost45-KeptBy (omega arith, omega arith)

abbrev pub host : Host
host = record {
  gpu = GpuTests.store;
  fans = FanTests.store;
  cpu = record {
    World = Unit;
    exists = λ f w. false;
    holds = λ f t w. false;
    write = λ f t w. (none, w);
    cpus = [];
  };
  Disk = Dict Value;
  save = λ cfg disk. (none, cfg);
}

abbrev pub start : Settings host
start = record {
  config = Defaults.defaults;
  gpu = GpuTests.gpu;
  gpu_retry_left = 12;
  gpu_threads = 0;
  fanctl = none;
  retention = none;
  events = [];
  gpu_world = GpuTests.running;
  fan_world = λ n. 2000;
  cpu_world = tt;
  disk = [];
}

abbrev pub requests : List Request
requests =
    gpu false (string "low")
    ∷ reload (object (("fan.max_rpm", number (5000 * one)) ∷ []))
    ∷ set false false 0
        (("gpu.cap_w", number (20 * one)) ∷ ("governor.mode", string "dynamic") ∷ [])
    ∷ []

serve_all-IsLegal_example : IsLegal (serve_all requests start).config
serve_all-IsLegal_example = serve_all-IsLegal requests start defaults-IsLegal

-- The loop steps at 0 s, and sends READY at once; then the sample raises for 6 s.
abbrev trace : Trace
trace =
    (6 * one, record { stepped = false; valid = false; stale_timeout_s = 2 * one })
    ∷ (2 * one, record { stepped = false; valid = false; stale_timeout_s = 2 * one })
    ∷ (0, record { stepped = true; valid = true; stale_timeout_s = 2 * one })
    ∷ []

run-notices :
    (Watchdog.run trace).sent
    ≡ (watchdog_notice, 2 * one) ∷ (watchdog_notice, 0) ∷ (ready_notice, 0) ∷ []
unfolding Watchdog.run loop_once send_watchdog send_ready begin step_ok within due waited
run-notices = refl

run-Justified_example :
    All (Justified trace) (Watchdog.run trace).sent
    × (readies (Watchdog.run trace).sent ≤ 1)
    × Spaced (pings (Watchdog.run trace).sent)
run-Justified_example = run-Justified trace
