-- ===== src/Cap.antt =====
-- linux/turbomac/cap.py: the command `apply`, which sets the static cap before the daemon starts and after
-- it stops. The zone, the card, the file of the firmware's limits and the presence of the zone are
-- parameters; the texts that are printed are not kept. A configuration that `load` gives has a number
-- for both caps and a name for the mode.
pub mod Safe
pub mod Static
pub mod Writes
mod Tests
use turbo_mac.Prelude.{
  ℕ, Bool, true, false, Option, none, some, List, [], ◌∷◌, String, if◌then◌else◌,
}
use turbo_mac.Dict.{Dict, get}
use turbo_mac.Config.{Value}
use turbo_mac.Governor.{hard_max_w}
use turbo_mac.Rapl.{Firmware}
use turbo_mac.Rapl.Port
use turbo_mac.Rapl.Port.{apply_and_verify}
use turbo_mac.Rapl.Capture.{Store, Limits, load_or_capture_firmware}
use turbo_mac.Gpu
use turbo_mac.Gpu.{GpuMode, Gpu, found, dis_off, apply_mode}
use turbo_mac.Daemon.Settings.{Loaded, load, mode_of, number_of}

-- `available` is `Rapl.available`.
pub record Machine : Type 1 where
  pub power : Port.Device
  pub store : Store power.World
  pub available : power.World → Bool
  pub gpu : Gpu.Device

-- The exit status of the process, or the exception that ends it.
pub data Exit : Type 0 where
  exited : ℕ → Exit
  raised : Exit

-- How the process ends, and the world that it leaves.
pub record End (m : Machine) : Type 0 where
  pub exit : Exit
  pub power : m.power.World
  pub gpu : m.gpu.World

-- `Gpu.__init__`
unfoldable pub new_gpu : (d : Gpu.Device) → d.World → Gpu
new_gpu d w =
    let g = found d (record { dev = false; hwmon = false; mode = none }) (d.find w) in
    if dis_off d w then record g { mode = some GpuMode.off } else g

-- The world after the step on the card, which does nothing when the configuration has no mode or cap.
unfoldable pub gpu_step : (d : Gpu.Device) → Option GpuMode → Option ℕ → d.World → d.World
gpu_step d (some mode) (some cap_w) w = (apply_mode d mode cap_w (new_gpu d w) w).2
gpu_step d _ _ w = w

-- `g["mode"]`
unfoldable pub mode_in : Option Value → Option GpuMode
mode_in none = none
mode_in (some v) = mode_of v

-- The exit status, by the errors of the writes and by the comparison.
unfoldable pub status : (write_errors : List String) → (ok : Bool) → ℕ
status [] ok = if ok then 0 else 3
status (e ∷ rest) ok = 4

module _ (m : Machine) where
  -- From the static cap on.
  unfoldable pub apply_cap : Dict Value → Option Firmware → m.power.World → m.gpu.World → End m
  apply_cap cfg fw power gpu = elim (number_of (get "governor.static_cap_w" cfg)) [
    | none ↦ record { exit = raised; power = power; gpu = gpu }
    | some static ↦
        let rb = apply_and_verify m.power static static hard_max_w fw power in
        record {
          exit = exited (status rb.write_errors rb.ok);
          power = rb.world;
          gpu = gpu_step m.gpu (mode_in (get "gpu.mode" cfg)) (number_of (get "gpu.cap_w" cfg)) gpu;
        }
  ]

  -- With the configuration; none is a failed save of the firmware's limits.
  unfoldable pub apply_config : Dict Value → m.power.World → m.gpu.World → End m
  apply_config cfg power gpu =
      if m.available power
      then elim (load_or_capture_firmware m.power m.store false power) [
        | none ↦ record { exit = raised; power = power; gpu = gpu }
        | some l ↦ apply_cap cfg l.firmware l.world gpu
      ]
      else record { exit = exited 2; power = power; gpu = gpu }

  -- `apply`. `file` is what there is at the path of the configuration.
  unfoldable pub apply : (file : Loaded) → m.power.World → m.gpu.World → End m
  apply file power gpu = elim (load file) [
    | none ↦ record { exit = raised; power = power; gpu = gpu }
    | some r ↦ apply_config r.0 power gpu
  ]

  -- `main` with `capture`: the exit status.
  unfoldable pub capture : (force : Bool) → m.power.World → m.gpu.World → End m
  capture force power gpu = elim (load_or_capture_firmware m.power m.store force power) [
    | none ↦ record { exit = raised; power = power; gpu = gpu }
    | some l ↦ record {
      exit = exited (elim l.firmware [ none ↦ 2 | some fw ↦ 0 ]);
      power = l.world;
      gpu = gpu;
    }
  ]
