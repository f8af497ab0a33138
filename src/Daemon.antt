-- ===== src/Daemon.antt =====
-- linux/turbomac/daemon/main.py: the daemon that wires the sampler, the governor, the writes of the
-- power limits and the fan floor, with its state and its configuration.
pub mod Retry
pub mod Tick
pub mod Powers
pub mod Feedback
pub mod Loop
pub mod Watchdog
pub mod Settings
pub mod Legal
pub mod Obeys
pub mod Tests
use turbo_mac.Prelude.{
  ℕ, ◌*◌, ◌+◌, Bool, true, false, ◌&&◌, Option, none, some, String, List, [], ◌∷◌, one,
  if◌then◌else◌, leb, ltb,
}
use turbo_mac.Dict.{Dict}
use turbo_mac.Governor.{GovState, GovConfig, Readback, Event, Why}
use turbo_mac.Rapl.{Firmware, Outcome}
use turbo_mac.Rapl.Port
use turbo_mac.Fan.{FanConfig}
use turbo_mac.Fan.Control
use turbo_mac.Fan.Control.{Controller, FanMode}
use turbo_mac.Sampler.Fast.{Sampler}

-- The devices, and the texts that are made of an outcome of `apply_and_verify`.
pub record Machine : Type 1 where
  pub power : Port.Device
  pub fans : Control.Device
  pub describe : Outcome → String

-- The sections of the configuration that a tick reads.
pub record DaemonConfig : Type 0 where
  pub governor : GovConfig
  pub fan_mode : FanMode
  pub fan : FanConfig

-- `last_write`: the readback of the last `set_limits` action, with its limits and its reason.
pub record LastWrite : Type 0 where
  pub ts : ℕ
  pub why : Why
  pub ok : Bool
  pub reason : String
  pub pl1_w : ℕ
  pub pl2_w : ℕ

pub data DaemonEvent : Type 0 where
  governed : Event → DaemonEvent
  wrote : LastWrite → DaemonEvent
  failed : (typ error : String) → DaemonEvent
  gpu_retry : (attempt : ℕ) → DaemonEvent
  gpu_retry_succeeded : (attempt : ℕ) → DaemonEvent
  gpu_retry_gave_up : (attempt : ℕ) → DaemonEvent

-- `_errors`: the last message of a kind, and its time.
pub record Seen : Type 0 where
  pub message : String
  pub at : ℕ

-- The retries of the startup mode of the graphics card. `thread` is whether `gpu_thread` is alive.
pub record Retries : Type 0 where
  pub left : ℕ
  pub next : Option ℕ
  pub thread : Bool

-- The state of `Daemon` that a tick uses, with the worlds of the devices.
pub record Daemon (m : Machine) : Type 0 where
  pub config : DaemonConfig
  pub firmware : Option Firmware
  pub sampler : Sampler
  pub gov : GovState
  pub readback : Option Readback
  pub last_write : Option LastWrite
  pub last_step_ok : Option ℕ
  pub fanctl : Option Controller
  pub errors : Dict Seen
  pub retries : Retries
  pub events : List DaemonEvent
  pub power : m.power.World
  pub fans : m.fans.World
