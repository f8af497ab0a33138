-- ===== src/Tui/Backend.antt =====
-- `SimBackend` of linux/turbomac/tui/backend.py: the configuration and the list of events that the
-- simulated backends share. What a subclass adds is a parameter: `wall`, `on_config` and `gpu_set`. The
-- digests are left out, and of an event its dictionaries, to which a later answer adds the mode of the card.
use turbo_mac.Prelude.{
  ℕ, ◌-◌, Bool, Option, none, some, String, List, [], ◌∷◌, ◌++◌, if◌then◌else◌, drop, length, ◌==◌,
}
use turbo_mac.Dict.{Dict, get, pop}
use turbo_mac.Config.{Value, Reason}
use turbo_mac.Config.Defaults.{defaults}
use turbo_mac.Config.Validate.{validate}
use turbo_mac.Gpu.{GpuMode}
use turbo_mac.Daemon.Settings.{apply_updates, asked, same_as}

-- What `gpu_set` gives: a BackendError with its text, or the result with its mode.
pub data GpuReply : Type 0 where
  failed : String → GpuReply
  reached : (ok : Bool) → GpuMode → GpuReply

-- An event: its time and its type.
pub record Event : Type 0 where
  pub ts : ℕ
  pub kind : String

-- The subclass's own part is `extra`.
pub record Sim (Extra : Type 0) : Type 0 where
  pub config : Dict Value
  pub event_log : List Event
  pub last_change_ts : Option ℕ
  pub extra : Extra

pub record Hooks : Type 1 where
  pub Extra : Type 0
  pub persisted : Bool
  pub not_persisted_reason : Option String
  pub wall : Extra → ℕ
  pub on_config : Dict Value → Sim Extra → Sim Extra
  pub gpu_set : Value → Sim Extra → GpuReply × Sim Extra

pub record Reply : Type 0 where
  pub accepted : Dict Value
  pub rejected : Dict Reason
  pub persisted : Bool
  pub error : Option String
  pub gpu : Option GpuReply

abbrev pub event_log_len : ℕ
event_log_len = 1000

-- The newest `n` of a list: what `[-n:]` gives, and a deque with `maxlen`.
unfoldable pub newest : {A : Type 0} → ℕ → List A → List A
newest n l = drop (length l - n) l

-- `events`
unfoldable pub events : {E : Type 0} → ℕ → Sim E → List Event
events n s = if n == 0 then [] else newest n s.event_log

-- `emit`, with the time that `wall` gives.
unfoldable pub emit : {E : Type 0} → (wall : ℕ) → String → Sim E → Sim E
emit wall kind s =
    let rec : Event = record { ts = wall; kind = kind } in
    record s { event_log = newest event_log_len (s.event_log ++ rec ∷ []) }

module _ (h : Hooks) where
  -- What follows `if accepted:`.
  unfoldable pub accept : Dict Value → Sim h.Extra → Sim h.Extra
  accept [] s = s
  accept (a ∷ rest) s = h.on_config (a ∷ rest) (
      emit (h.wall s.extra) "config_change" (record s {
        config = apply_updates s.config (a ∷ rest);
        last_change_ts = some (h.wall s.extra);
      }))

  -- The part on `gpu_mode`.
  unfoldable pub ask_gpu : Option Value → Sim h.Extra → Option GpuReply × Sim h.Extra
  ask_gpu none s = (none, s)
  ask_gpu (some mode) s =
      let r = h.gpu_set mode s in
      if same_as mode (get "gpu.mode" s.config) then (none, s) else (some r.0, r.1)

  -- `config_set`. None is an exception of `validate`.
  unfoldable pub config_set : Dict Value → Sim h.Extra → Option Reply × Sim h.Extra
  config_set updates s = elim (validate (pop "gpu.mode" updates) s.config) [
    | none ↦ (none, s)
    | some v ↦
        let r = ask_gpu (asked (get "gpu.mode" updates)) (accept v.accepted s) in
        (
          some (record {
            accepted = v.accepted;
            rejected = v.rejected;
            persisted = h.persisted;
            error = h.not_persisted_reason;
            gpu = r.0;
          }),
          r.1,
        )
  ]

  -- `config_reset`
  unfoldable pub config_reset : Sim h.Extra → Option Reply × Sim h.Extra
  config_reset s = config_set defaults s
