-- ===== src/Tui/Replay/Tests.antt =====
-- The theorems on a replay of two samples, and a daemon with the same configuration.
use turbo_mac.Prelude.{ℕ, ◌*◌, ◌<◌, refl, false, Option, none, some, [], ◌∷◌, arith, one}
use turbo_mac.Dict.{Dict}
use turbo_mac.Config.{Value, string}
use turbo_mac.Config.Defaults.{defaults}
use turbo_mac.Daemon.Settings.{set_config}
use turbo_mac.Daemon.Tests as DaemonTests
use turbo_mac.Tui.Backend.{Sim, config_set}
use turbo_mac.Tui.Replay.{Sample, Player, Log, begin, hooks, rec, fresh}
use turbo_mac.Tui.Replay.Plays.{IsPlaying, advances, advances-IsPlaying}
use turbo_mac.Tui.Replay.Moves.{rec-lt}
use turbo_mac.Tui.Replay.Agrees.{Same, config_set-Same}

abbrev sample : ℕ → Option ℕ → Sample
sample ts pl1_w = record {
  ts = ts;
  time = "then";
  state = some "DYNAMIC";
  pl1_w = pl1_w;
  input_max_w = some (60 * one);
  pkg_w = none;
  a = none;
  gpu_w = none;
  pkg_c = none;
}

abbrev log : Log
log = record {
  first = sample (100 * one) (some (35 * one));
  rest = sample (101 * one) (some (30 * one)) ∷ [];
  speed = one;
  stamp = λ ts. "later";
}

advances-IsPlaying_example : IsPlaying log (advances log (one ∷ 2 * one ∷ []) (begin log "auto"))
advances-IsPlaying_example = advances-IsPlaying log "auto" (one ∷ 2 * one ∷ [])

rec-lt_example : (rec log 1).ts < (rec log 2).ts
rec-lt_example = rec-lt log (omega arith, tt) 1 2 (omega arith)

abbrev sim : Sim Player
sim = record { config = defaults; event_log = []; last_change_ts = none; extra = fresh log }

abbrev updates : Dict Value
updates =
    ("gpu.mode", string "low")
    ∷ ("governor.mode", string "dynamic")
    ∷ ("fan.max_rpm", string "fast")
    ∷ []

config_set-Same_example :
    Same (set_config false false 0 updates DaemonTests.start) (config_set hooks updates sim)
config_set-Same_example = config_set-Same false false 0 updates DaemonTests.start sim refl
