-- ===== src/Daemon/Settings.antt =====
-- What changes the configuration, in linux/turbomac/daemon/main.py: `set_config`, its side effects,
-- `set_gpu` and `reload_config`, with `load` of linux/turbomac/config.py. A configuration is a dictionary by dotted keys. `busy` is what `gpu.busy` says
-- at each of its uses. The digest of an answer is left out.
use text.Mathlib.Text.{◌==◌ as str_eq, starts_with}
use turbo_mac.Prelude.{
  ℕ, suc, Bool, true, false, ◌&&◌, not, Option, none, some, String, List, [], ◌∷◌, ◌++◌,
  if◌then◌else◌, is_none,
}
use turbo_mac.Dict.{Dict, get, has, pop, put}
use turbo_mac.Config.{Value, null, number, string, Reason}
use turbo_mac.Config.Defaults.{defaults}
use turbo_mac.Config.Validate.{validate, Verdict}
use turbo_mac.Gpu
use turbo_mac.Gpu.{GpuMode, Gpu, apply_mode}
use turbo_mac.Fan.Control
use turbo_mac.Fan.Control.{Controller, FanMode, on_config}
use turbo_mac.Cpu
use turbo_mac.Cpu.{apply_settings, Message}

-- `save` is `config.save`: the text of an OSError, if any, and the disk after it.
pub record Host : Type 1 where
  pub gpu : Gpu.Device
  pub fans : Control.Device
  pub cpu : Cpu.Device
  pub Disk : Type 0
  pub save : Dict Value → Disk → Option String × Disk

pub data Answer : Type 0 where
  bad_mode already_running : Answer
  -- The exception that a missing or wrong `gpu.cap_w` gives, which `set_config` does not catch.
  no_cap : Answer
  reached : Gpu.Outcome → (persist_error : Option String) → Answer

-- What `load` finds: no file; a file that is unreadable or no JSON; a value that is no object; an object,
-- by its dotted keys.
pub data Loaded : Type 0 where
  no_file unreadable not_an_object : Loaded
  object : Dict Value → Loaded

pub data SettingsEvent : Type 0 where
  config_change :
      (accepted : Dict Value) → (rejected : Dict Reason) → (persisted : Bool) → SettingsEvent
  cpu_setting : Message → SettingsEvent
  gpu_mode_request : GpuMode → SettingsEvent
  gpu_mode : (requested : GpuMode) → Answer → SettingsEvent
  config_reload : Loaded → (rejected : Dict Reason) → SettingsEvent

-- `retention` is what the logger has for `retention_days` and `max_mib`, none if there is no logger;
-- `gpu_threads` counts the threads of `_apply_gpu_from_config` that were started.
pub record Settings (h : Host) : Type 0 where
  pub config : Dict Value
  pub gpu : Gpu
  pub gpu_retry_left : ℕ
  pub gpu_threads : ℕ
  pub fanctl : Option Controller
  pub retention : Option (Option Value × Option Value)
  pub events : List SettingsEvent
  pub gpu_world : h.gpu.World
  pub fan_world : h.fans.World
  pub cpu_world : h.cpu.World
  pub disk : h.Disk

-- The answer to `config.set`; `gpu` is none if no mode was asked for, or the mode is the one that the
-- configuration has.
pub record Reply : Type 0 where
  pub accepted : Dict Value
  pub rejected : Dict Reason
  pub error : Option String
  pub gpu : Option Answer

-- `config.apply_updates`. The keys of the updates differ, so that their order does not matter.
unfoldable pub apply_updates : Dict Value → Dict Value → Dict Value
apply_updates cfg [] = cfg
apply_updates cfg ((k, v) ∷ rest) = put k v (apply_updates cfg rest)

-- `from_dict`, of an object: the configuration and the rejected keys; none if `validate` raises.
unfoldable pub from_dict : Dict Value → Option (Dict Value × Dict Reason)
from_dict raw = elim (validate raw defaults) [
  | none ↦ none
  | some v ↦ some (apply_updates defaults v.accepted, v.rejected)
]

-- `load`, without the texts of the problems with the file.
unfoldable pub load : Loaded → Option (Dict Value × Dict Reason)
load no_file = some (defaults, [])
load unreadable = some (defaults, [])
load not_an_object = some (defaults, [])
load (object raw) = from_dict raw

unfoldable pub mode_name : GpuMode → String
mode_name GpuMode.auto = "auto"
mode_name GpuMode.low = "low"
mode_name GpuMode.off = "off"

unfoldable pub mode_of : Value → Option GpuMode
mode_of (string s) =
    if str_eq s "auto"
    then some GpuMode.auto
    else if str_eq s "low"
    then some GpuMode.low
    else if str_eq s "off"
    then some GpuMode.off
    else none
mode_of _ = none

unfoldable pub number_of : Option Value → Option ℕ
number_of (some (number n)) = some n
number_of _ = none

-- `value == text` for a value of the configuration.
unfoldable pub is_text : String → Option Value → Bool
is_text t (some (string s)) = str_eq s t
is_text t _ = false

unfoldable pub any_under : String → Dict Value → Bool
any_under prefix [] = false
any_under prefix ((k, v) ∷ rest) =
    let later = any_under prefix rest in if starts_with k prefix then true else later

unfoldable pub cpu_messages : List Message → List SettingsEvent
cpu_messages [] = []
cpu_messages (m ∷ rest) = cpu_setting m ∷ cpu_messages rest

-- `gpu_mode is not None`, for what `updates.pop("gpu.mode", None)` gives.
unfoldable pub asked : Option Value → Option Value
asked (some null) = none
asked o = o

-- `gpu_mode == self.config["gpu"]["mode"]`
unfoldable pub same_as : Value → Option Value → Bool
same_as (string s) o = is_text s o
same_as _ o = false

module _ {h : Host} where
  unfoldable pub cpu_effect : Dict Value → Settings h → Settings h
  cpu_effect accepted s =
      let r = apply_settings h.cpu s.config s.cpu_world in
      if any_under "cpu." accepted
      then record s { cpu_world = r.1; events = s.events ++ cpu_messages r.0 }
      else s

  unfoldable pub logging_effect : Dict Value → Settings h → Settings h
  logging_effect accepted s =
      if any_under "logging." accepted
      then elim s.retention [
        | none ↦ s
        | some old ↦ record s {
          retention = some (get "logging.retention_days" s.config, get "logging.max_mib" s.config);
        }
      ]
      else s

  unfoldable pub fan_effect : ℕ → Dict Value → Settings h → Settings h
  fan_effect now accepted s =
      if any_under "fan." accepted
      then elim s.fanctl [
        | none ↦ s
        | some c ↦
            let mode =
              if is_text "auto" (get "fan.mode" s.config) then FanMode.auto else FanMode.floor in
            let r = on_config h.fans mode now c s.fan_world in
            record s { fanctl = some r.0; fan_world = r.1 }
      ]
      else s

  unfoldable pub gpu_effect : (busy : Bool) → Dict Value → Settings h → Settings h
  gpu_effect busy accepted s =
      if has "gpu.cap_w" accepted && is_text "auto" (get "gpu.mode" s.config) && not busy
      then record s { gpu_threads = suc s.gpu_threads }
      else s

  -- `_side_effects`
  unfoldable pub side_effects : (busy : Bool) → ℕ → Dict Value → Settings h → Settings h
  side_effects busy now accepted s =
      gpu_effect busy accepted
        (fan_effect now accepted (logging_effect accepted (cpu_effect accepted s)))

  -- `set_gpu` after its checks on the request; the mode that is kept is the one that is reached.
  unfoldable pub change_gpu : GpuMode → Settings h → Answer × Settings h
  change_gpu mode s =
      let s1 = record s { gpu_retry_left = 0; events = s.events ++ gpu_mode_request mode ∷ [] } in
      elim (number_of (get "gpu.cap_w" s.config)) [
        | none ↦ (no_cap, s1)
        | some cap_w ↦
            let r = apply_mode h.gpu mode cap_w s.gpu s.gpu_world in
            let cfg = apply_updates s.config (("gpu.mode", string (mode_name r.0.mode)) ∷ []) in
            let saved = h.save cfg s.disk in
            (
              reached r.0 saved.0,
              record s1 {
                gpu = r.1;
                gpu_world = r.2;
                config = cfg;
                disk = saved.1;
                events = s1.events ++ gpu_mode mode (reached r.0 saved.0) ∷ [];
              },
            )
      ]

  unfoldable pub set_gpu : (busy : Bool) → Value → Settings h → Answer × Settings h
  set_gpu busy mode s = elim (mode_of mode) [
    | none ↦ (bad_mode, s)
    | some m ↦ if busy then (already_running, s) else change_gpu m s
  ]

  -- `set_config` from `if accepted:` to the side effects.
  unfoldable pub commit : (busy : Bool) → ℕ → Verdict → Settings h → Option String × Settings h
  commit busy now v s =
      let new = apply_updates s.config v.accepted in
      let saved = h.save new s.disk in
      let s1 = record s {
        config = new;
        disk = saved.1;
        events = s.events ++ config_change v.accepted v.rejected (is_none saved.0) ∷ [];
      } in
      elim v.accepted [ [] ↦ (none, s) | _ ∷ _ ↦ (saved.0, side_effects busy now v.accepted s1) ]

  -- The part on `gpu_mode`.
  unfoldable pub ask_gpu : (busy : Bool) → Option Value → Settings h → Option Answer × Settings h
  ask_gpu busy none s = (none, s)
  ask_gpu busy (some mode) s =
      let r = set_gpu busy mode s in
      if same_as mode (get "gpu.mode" s.config) then (none, s) else (some r.0, r.1)

  -- `busy` before and after the side effects. No reply is an exception of `validate`.
  unfoldable pub set_config :
      (busy busy' : Bool) → ℕ → Dict Value → Settings h → Option Reply × Settings h
  set_config busy busy' now updates s = elim (validate (pop "gpu.mode" updates) s.config) [
    | none ↦ (none, s)
    | some v ↦
        let changed = commit busy now v s in
        let asked_gpu = ask_gpu busy' (asked (get "gpu.mode" updates)) changed.1 in
        (
          some (record {
            accepted = v.accepted;
            rejected = v.rejected;
            error = changed.0;
            gpu = asked_gpu.0;
          }),
          asked_gpu.1,
        )
  ]

  -- None is an exception, which ends the daemon.
  unfoldable pub reload_config : Loaded → Settings h → Option (Settings h)
  reload_config file s = elim (load file) [
    | none ↦ none
    | some r ↦ some (record s { config = r.0; events = s.events ++ config_reload file r.1 ∷ [] })
  ]
