-- ===== src/Tui/Replay.antt =====
-- `ReplayBackend` of linux/turbomac/tui/replay.py: a log of samples that is played in a loop. A sample has
-- its time and the fields that playing it reads; a field that is no number, or no text, is missing. Times
-- are in nanoseconds, and `pos`, the product of a time and a speed, is in billionths of them.
pub mod Plays
pub mod Agrees
pub mod Moves
mod Tests
use text.Mathlib.Text.{◌==◌ as str_eq}
use turbo_mac.Prelude.{
  ℕ, zero, suc, ◌+◌, ◌-◌, ◌*◌, ◌/◌, ◌%◌, Bool, true, false, ◌&&◌, not, Option, none, some, is_none,
  String, List, [], ◌∷◌, ◌++◌, if◌then◌else◌, length, get_elem?, ltb, leb, ◌==◌, one, lesser,
  greater, round_div,
}
use turbo_mac.Dict.{Dict, get, put}
use turbo_mac.Config.{Value, string}
use turbo_mac.Config.Defaults.{defaults}
use turbo_mac.Gpu.{GpuMode}
use turbo_mac.Daemon.Settings.{apply_updates, mode_of, mode_name}
use turbo_mac.Tui.Backend.{Event, Sim, Hooks, GpuReply, failed, reached, newest, emit}

-- A sample; `time` is the text of its time.
pub record Sample : Type 0 where
  pub ts : ℕ
  pub time : String
  pub state : Option String
  pub pl1_w : Option ℕ
  pub input_max_w : Option ℕ
  pub pkg_w : Option ℕ
  pub a : Option ℕ
  pub gpu_w : Option ℕ
  pub pkg_c : Option ℕ

-- A line of the file: torn, or no object; a header with its boot id; a sample; another object.
pub data Line : Type 0 where
  torn other : Line
  header : (boot_id : Option String) → Line
  sample : Sample → Line

pub record Peak : Type 0 where
  pub value : ℕ
  pub ts : ℕ

pub record Counters : Type 0 where
  pub cuts : ℕ
  pub emergencies : ℕ
  pub fallbacks : ℕ
  pub recoveries : ℕ
  pub writes : ℕ

-- `played` is the number of samples played, one more than in the source.
pub record Player : Type 0 where
  pub pos : ℕ
  pub played : ℕ
  pub history_rows : List Sample
  pub peaks : Dict Peak
  pub counters : Counters
  pub state : Option String
  pub since : ℕ
  pub prev_pl1 : Option ℕ
  pub emit_at : ℕ
  pub gpu_result : Option GpuReply

-- HISTORY_LEN of linux/turbomac/daemon/sampler.py
abbrev pub history_len : ℕ
history_len = 600

unfoldable pub samples : List Line → List Sample
samples [] = []
samples (sample r ∷ rest) = r ∷ samples rest
samples (_ ∷ rest) = samples rest

-- The first header.
unfoldable pub header_of : List Line → Option (Option String)
header_of [] = none
header_of (header boot_id ∷ rest) = some boot_id
header_of (_ ∷ rest) = header_of rest

-- `load_records`: a first sample, and the others; none if there is no sample.
unfoldable pub load_records : List Line → Option (Option (Option String) × (Sample × List Sample))
load_records lines = elim (samples lines) [
  | [] ↦ none
  | first ∷ rest ↦ some (header_of lines, (first, rest))
]

-- `_mode_for`
unfoldable pub mode_for : Option String → String
mode_for none = "dynamic"
mode_for (some state) =
    if str_eq state "STATIC" then "static" else if str_eq state "OFF" then "off" else "dynamic"

-- `st != self.state`, negated.
unfoldable pub same_state : Option String → Option String → Bool
same_state none none = true
same_state (some a) (some b) = str_eq a b
same_state _ _ = false

unfoldable pub is_state : String → Option String → Bool
is_state name none = false
is_state name (some state) = str_eq state name

unfoldable pub last_or : Sample → List Sample → Sample
last_or r [] = r
last_or r (x ∷ rest) = last_or x rest

unfoldable pub sample_at : Sample → List Sample → ℕ → Sample
sample_at first rest zero = first
sample_at first [] (suc i) = first
sample_at first (x ∷ rest) (suc i) = sample_at x rest i

-- `round(float(v), 2)`
unfoldable pub to_cent : ℕ → ℕ
to_cent v = round_div v 10_000_000 * 10_000_000

unfoldable pub peak_of : String → Option ℕ → ℕ → Dict Peak → Dict Peak
peak_of key none ts peaks = peaks
peak_of key (some v) ts peaks =
    let raised = put key (record { value = to_cent v; ts = ts }) peaks in
    elim (get key peaks) [ none ↦ raised | some p ↦ (if ltb p.value v then raised else peaks) ]

unfoldable pub count_state : Option String → Counters → Counters
count_state st c =
    if is_state "EMERGENCY" st
    then record c { emergencies = suc c.emergencies }
    else if is_state "FALLBACK" st
    then record c { fallbacks = suc c.fallbacks }
    else c

unfoldable pub count_write : (down : Bool) → Counters → Counters
count_write down c =
    if down
    then record c { writes = suc c.writes; cuts = suc c.cuts }
    else record c { writes = suc c.writes; recoveries = suc c.recoveries }

-- `pl1` and `self.prev_pl1` are numbers and differ.
unfoldable pub pl1_changed : Option ℕ → Option ℕ → Option Bool
pl1_changed (some pl1) (some prev) = if pl1 == prev then none else some (ltb pl1 prev)
pl1_changed _ _ = none

-- `pl1 if pl1 is not None else self.prev_pl1`
unfoldable pub or_else : Option ℕ → Option ℕ → Option ℕ
or_else none prev = prev
or_else (some w) prev = some w

-- PEAK_FIELDS
unfoldable pub all_peaks : Sample → Dict Peak → Dict Peak
all_peaks r peaks = peak_of "pkg_c" r.pkg_c r.ts (
    peak_of "gpu_w" r.gpu_w r.ts (
      peak_of "a" r.a r.ts
        (peak_of "pkg_w" r.pkg_w r.ts (peak_of "input_w" r.input_max_w r.ts peaks))))

unfoldable pub set_state : Sample → Sim Player → Sim Player
set_state r s = record s { extra = record s.extra { state = r.state; since = r.ts } }

unfoldable pub count : (Counters → Counters) → Sim Player → Sim Player
count f s = record s { extra = record s.extra { counters = f s.extra.counters } }

unfoldable pub keep_pl1 : Sample → Sim Player → Sim Player
keep_pl1 r s = record s { extra = record s.extra { prev_pl1 = or_else r.pl1_w s.extra.prev_pl1 } }

-- The samples and the speed, which is at least 0.05. `stamp` is the text of a time by `strftime`.
pub record Log : Type 0 where
  pub first : Sample
  pub rest : List Sample
  pub speed : ℕ
  pub stamp : ℕ → String

module _ (log : Log) where
  unfoldable pub size : ℕ
  size = suc (length log.rest)

  -- The time from the first sample to a second after the last; the samples are in the order of time.
  unfoldable pub span : ℕ
  span = (last_or log.first log.rest).ts + one - log.first.ts

  -- The sample of an index modulo the size, moved by the time of `loop` loops.
  unfoldable pub shifted : (loop : ℕ) → Sample → Sample
  shifted zero r = r
  shifted (suc n) r = let ts = r.ts + suc n * span in record r { ts = ts; time = log.stamp ts }

  -- `_rec`
  unfoldable pub rec : ℕ → Sample
  rec k = shifted (k / size) (sample_at log.first log.rest (k % size))

  -- The event of the first sample, or of the first of a loop.
  unfoldable pub emit_loop : Sim Player → Sim Player
  emit_loop s =
      let k = s.extra.played in
      let ts = s.extra.emit_at in
      if k == 0
      then emit ts "replay_start" s
      else if k % size == 0
      then emit ts "replay_loop" s
      else s

  -- The part on `st != self.state`.
  unfoldable pub enter_state : Sample → Sim Player → Sim Player
  enter_state r s =
      let p = s.extra in
      if same_state r.state p.state
      then s
      else if is_none p.state
      then set_state r s
      else emit p.emit_at "state" (count (count_state r.state) (set_state r s))

  -- The part on `pl1`.
  unfoldable pub note_pl1 : Sample → Sim Player → Sim Player
  note_pl1 r s =
      let p = s.extra in
      elim (pl1_changed r.pl1_w p.prev_pl1) [
        | none ↦ keep_pl1 r s
        | some down ↦ emit p.emit_at "write" (count (count_write down) (keep_pl1 r s))
      ]

  -- The peaks and the history.
  unfoldable pub keep_row : Sample → Sim Player → Sim Player
  keep_row r s =
      let p = s.extra in
      record s {
        extra = record p {
          peaks = all_peaks r p.peaks;
          history_rows = newest history_len (p.history_rows ++ r ∷ []);
        };
      }

  -- A round of the loop of `_play_to`.
  unfoldable pub play_one : Sim Player → Sim Player
  play_one s =
      let p = s.extra in
      let r = rec p.played in
      let s1 = emit_loop (record s { extra = record p { emit_at = r.ts } }) in
      let s2 = keep_row r (note_pl1 r (enter_state r s1)) in
      record s2 { extra = record s2.extra { played = suc p.played } }

  unfoldable pub play : ℕ → Sim Player → Sim Player
  play zero s = s
  play (suc n) s = play n (play_one s)

  -- `_play_to`
  unfoldable pub play_to : ℕ → Sim Player → Sim Player
  play_to k s = play (suc k - s.extra.played) s

  -- `advance`
  unfoldable pub advance : ℕ → Sim Player → Sim Player
  advance seconds s =
      let pos = s.extra.pos + seconds * log.speed in
      play_to (pos / (one * one)) (record s { extra = record s.extra { pos = pos } })

  unfoldable pub fresh : Player
  fresh = record {
    pos = 0;
    played = 0;
    history_rows = [];
    peaks = [];
    counters = record { cuts = 0; emergencies = 0; fallbacks = 0; recoveries = 0; writes = 0 };
    state = none;
    since = log.first.ts;
    prev_pl1 = none;
    emit_at = log.first.ts;
    gpu_result = none;
  }

  -- `__init__`, for the mode of the card that the first sample has.
  unfoldable pub begin : (gpu_mode : String) → Sim Player
  begin gpu_mode = play_to 0 (record {
    config =
        apply_updates defaults (
          ("governor.mode", string (mode_for log.first.state))
          ∷ ("gpu.mode", string gpu_mode)
          ∷ []);
    event_log = [];
    last_change_ts = none;
    extra = fresh;
  })

-- `history`, with `full`. `int(seconds)` is a number that may be negative in the source.
unfoldable pub history : (seconds : ℕ) → Sim Player → List Sample
history seconds s =
    let n = lesser seconds history_len in if n == 0 then [] else newest n s.extra.history_rows

-- `gpu_set`
unfoldable pub gpu_set : Value → Sim Player → GpuReply × Sim Player
gpu_set mode s = elim (mode_of mode) [
  | none ↦ (failed "mode must be auto, low or off", s)
  | some m ↦
      let res = reached true m in
      (
        res,
        emit s.extra.emit_at "gpu_mode" (record s {
          config = apply_updates s.config (("gpu.mode", string (mode_name m)) ∷ []);
          last_change_ts = some s.extra.emit_at;
          extra = record s.extra { gpu_result = some res };
        }),
      )
]

abbrev pub hooks : Hooks
hooks = record {
  Extra = Player;
  persisted = false;
  not_persisted_reason = some "replay: changes are shown, never saved";
  wall = λ p. p.emit_at;
  on_config = λ accepted s. s;
  gpu_set = gpu_set;
}
