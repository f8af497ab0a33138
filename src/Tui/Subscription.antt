-- ===== src/Tui/Subscription.antt =====
-- `Subscription` of linux/turbomac/tui/backend.py: the thread that brings the daemon's status to the
-- interface, and connects again with growing pauses. A step is what the thread does with one item of the
-- stream, or with its end; `stop` is called by another thread, before a step or within it. What the
-- stream gives, and which callbacks raise, is in the steps. Times are in nanoseconds.
pub mod Told
pub mod Backoff
mod Tests
use text.Mathlib.Text.{◌==◌ as str_eq}
use turbo_mac.Prelude.{
  ℕ, suc, ◌*◌, ◌-◌, Bool, true, false, ◌&&◌, ◌||◌, not, Option, none, some, List, [], ◌∷◌, String,
  if◌then◌else◌, lesser, length, get_elem?, one, or_zero,
}

-- BACKOFF_S
abbrev pub backoff_s : List ℕ
backoff_s = 500_000_000 ∷ one ∷ 2 * one ∷ 4 * one ∷ 5 * one ∷ []

-- A call of `on_change`.
abbrev pub Note : Type 0
Note = Bool × Option String

-- One item of the stream: a status, which `callback` takes or raises at; or an exception with its text,
-- which may be that the stream ended. `stop_within` is whether `stop` is called after the thread's first
-- test of it and before `_conn`'s; `change_raises` whether `on_change` raises if it is called.
pub data Item : Type 0 where
  status : (callback_raises : Bool) → Item
  failure : (text : String) → Item

pub record Event : Type 0 where
  pub item : Item
  pub stop_within : Bool
  pub change_raises : Bool

pub data Step : Type 0 where
  stop : Step
  next : Event → Step

-- The thread and the backend's two fields. `notes`, the calls of `on_change`, and `waits`, the pauses, are
-- newest first; `delivered` counts the calls of `callback`.
pub record Worker : Type 0 where
  pub connected : Bool
  pub last_error : Option String
  pub stopped : Bool
  pub ended : Bool
  pub attempt : ℕ
  pub notes : List Note
  pub waits : List ℕ
  pub delivered : ℕ

unfoldable pub same_error : Option String → Option String → Bool
same_error none none = true
same_error (some a) (some b) = str_eq a b
same_error _ _ = false

unfoldable pub same_flag : Bool → Bool → Bool
same_flag true b = b
same_flag false b = not b

unfoldable pub changed : (ok : Bool) → Option String → Worker → Bool
changed ok err s = not (same_flag ok s.connected) || (not ok && not (same_error err s.last_error))

-- The call of `on_change`, which sets `stop_event` when it raises.
unfoldable pub notify : (raises : Bool) → Note → Worker → Worker
notify raises n s = record s { notes = n ∷ s.notes; stopped = s.stopped || raises }

-- The two fields of the backend.
unfoldable pub set_conn : (ok : Bool) → Option String → Worker → Worker
set_conn ok err s = record s { connected = ok; last_error = (if ok then s.last_error else err) }

-- `_conn`
unfoldable pub conn : (raises : Bool) → (ok : Bool) → Option String → Worker → Worker
conn raises ok err s =
    if changed ok err s && not s.stopped
    then notify raises (ok, err) (set_conn ok err s)
    else set_conn ok err s

-- `BACKOFF_S[min(attempt, len(BACKOFF_S) - 1)]`
unfoldable pub backoff : ℕ → ℕ
backoff attempt = or_zero (get_elem? backoff_s (lesser attempt (length backoff_s - 1)))

unfoldable pub stop_if : Bool → Worker → Worker
stop_if b s = record s { stopped = s.stopped || b }

unfoldable pub finish : Worker → Worker
finish s = record s { ended = true }

-- The call of `callback`.
unfoldable pub deliver : (raises : Bool) → Worker → Worker
deliver raises s =
    let s1 = record s { delivered = suc s.delivered } in
    if raises then finish (stop_if true s1) else s1

-- The pause and the count of the attempts.
unfoldable pub pause : Worker → Worker
pause s = record s { waits = backoff s.attempt ∷ s.waits; attempt = suc s.attempt }

-- An item that the thread takes while it is not stopped.
unfoldable pub take : Event → Worker → Worker
take e s = elim e.item [
  | status raises ↦
      deliver raises
        (conn e.change_raises true none (record (stop_if e.stop_within s) { attempt = 0 }))
  | failure text ↦ pause (conn e.change_raises false (some text) (stop_if e.stop_within s))
]

-- A step of `_run`, or `stop`.
unfoldable pub step : Step → Worker → Worker
step stop s = stop_if true s
step (next e) s = if s.ended then s else if s.stopped then finish s else take e s

-- The steps, newest first.
unfoldable pub run : List Step → Worker → Worker
run [] s = s
run (x ∷ before) s = step x (run before s)

-- The thread at its start, with the backend's fields.
unfoldable pub start : (connected : Bool) → (last_error : Option String) → Worker
start connected last_error = record {
  connected = connected;
  last_error = last_error;
  stopped = false;
  ended = false;
  attempt = 0;
  notes = [];
  waits = [];
  delivered = 0;
}
