-- ===== src/Server/Dispatch.antt =====
-- `dispatch` of linux/turbomac/daemon/main.py. The commands that only read are a parameter, `report`.
use text.Mathlib.Text.{◌==◌ as str_eq}
use turbo_mac.Prelude.{ℕ, Bool, Option, none, some, String, if◌then◌else◌}
use turbo_mac.Dict.{Dict, get}
use turbo_mac.Config.{Value, null}
use turbo_mac.Config.Defaults.{defaults}
use turbo_mac.Daemon.Settings.{
  Host, Settings, Reply, Answer, bad_mode, already_running, no_cap, reached, set_config, set_gpu,
}
use turbo_mac.Server.{Result, value, refuses, raises, Handler}

-- What the handler finds: whether the card is busy, at two moments, and the time.
pub record Around : Type 0 where
  pub busy : Bool
  pub busy' : Bool
  pub now : ℕ

pub data Report (R : Type 0) : Type 0 where
  read : R → Report R
  changed : Reply → Report R
  mode : Answer → Report R

-- `report` is the answer to a command that changes nothing, none if there is no such command.
pub record Reports (h : Host) : Type 1 where
  pub R : Type 0
  pub report : String → Dict Value → Settings h → Option (Result R)

unfoldable pub or_null : Option Value → Value
or_null none = null
or_null (some v) = v

-- `set_gpu` raises a ValueError for what is no mode, or while a change is running.
unfoldable pub gpu_result : {R : Type 0} → Answer → Result (Report R)
gpu_result bad_mode = refuses "mode must be auto, low or off"
gpu_result already_running = refuses "a GPU mode change is already running"
gpu_result no_cap = refuses "cap_w"
gpu_result (reached o e) = value (mode (reached o e))

-- No reply of `set_config` is an OverflowError.
unfoldable pub config_result : {R : Type 0} → Option Reply → Result (Report R)
config_result none = raises "OverflowError"
config_result (some r) = value (changed r)

unfoldable pub read_result : {R : Type 0} → Option (Result R) → Result (Report R)
read_result none = refuses "unknown command"
read_result (some (value r)) = value (read r)
read_result (some (refuses text)) = refuses text
read_result (some (raises text)) = raises text

-- The commands that change the configuration, and all others.
pub data Command : Type 0 where
  set_command reset_command gpu_command other_command : Command

unfoldable pub command_of : String → Command
command_of cmd =
    if str_eq cmd "config.set"
    then set_command
    else if str_eq cmd "config.reset"
    then reset_command
    else if str_eq cmd "gpu.set"
    then gpu_command
    else other_command

module _ {h : Host} (reports : Reports h) where
  unfoldable pub execute :
      Command → Around → String → Dict Value → Settings h → Result (Report reports.R) × Settings h
  execute set_command a cmd args s =
      let r = set_config a.busy a.busy' a.now args s in (config_result r.0, r.1)
  execute reset_command a cmd args s =
      let r = set_config a.busy a.busy' a.now defaults s in (config_result r.0, r.1)
  execute gpu_command a cmd args s =
      let r = set_gpu a.busy (or_null (get "mode" args)) s in (gpu_result r.0, r.1)
  execute other_command a cmd args s = (read_result (reports.report cmd args s), s)

  unfoldable pub dispatch :
      Around → String → Dict Value → Settings h → Result (Report reports.R) × Settings h
  dispatch a cmd args s = execute (command_of cmd) a cmd args s

  abbrev pub handler : Handler
  handler = record { World = Settings h; Env = Around; V = Report reports.R; dispatch = dispatch }
