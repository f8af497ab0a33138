-- ===== src/Logger.antt =====
-- linux/turbomac/daemon/logger.py: the ring of recent events, and `SampleLogger` as two threads over a
-- bounded queue. A step of `write` or of the writer is one call of the queue, so the threads may
-- interleave between any two.
pub mod Prune
pub mod Left
pub mod Flow
pub mod Episodes
pub mod Order
pub mod Kept
mod Tests
use turbo_mac.Prelude.{
  ℕ, ◌+◌, ◌-◌, ◌/◌, Bool, true, false, ◌&&◌, Option, none, some, List, [], ◌∷◌, ◌++◌, leb, ltb,
  if◌then◌else◌, length, drop, ◌==◌, not,
}

abbrev pub queue_max : ℕ
queue_max = 120

-- An integer argument of a request.
pub data Count : Type 0 where
  below_zero : Count
  count : ℕ → Count

-- `EventLog.emit` on the deque of the given length.
unfoldable pub emit {ℓ} : {A : Type ℓ} → (maxlen : ℕ) → A → List A → List A
emit maxlen rec events =
    let all = events ++ rec ∷ [] in if ltb maxlen (length all) then drop 1 all else all

-- `list(events)[-max(0, n):] if n else []`; a slice from -0 is the whole list.
unfoldable pub recent {ℓ} : {A : Type ℓ} → Count → List A → List A
recent below_zero events = events
recent (count n) events = drop (length events - n) events

-- Where the thread that calls `write` and `close` stands. `full r`: the first put found no room;
-- `making_room r`: the oldest was taken out.
pub data Phase (R : Type 0) : Type 0 where
  idle : Phase R
  full : R → Phase R
  making_room : R → Phase R
  closed : Phase R

pub data LogEvent : Type 0 where
  log_backlog log_error : LogEvent

-- An item is a record, or none for the end. `flight` is what the writer has taken and not finished.
pub record Log (R : Type 0) : Type 0 where
  pub queue : List (Option R)
  pub flight : Option R
  pub unfinished : ℕ
  pub backlog : Bool
  pub write_error : Bool
  pub stopped : Bool
  pub phase : Phase R
  pub events : List LogEvent

module _ {R : Type 0} where
  abbrev pub new_log : Log R
  new_log = record {
    queue = [];
    flight = none;
    unfinished = 0;
    backlog = false;
    write_error = false;
    stopped = false;
    phase = idle;
    events = [];
  }

  unfoldable pub has_room : Log R → Bool
  has_room l = ltb (length l.queue) queue_max

  -- `put_nowait` with room.
  unfoldable pub enqueue : Option R → Log R → Log R
  enqueue item l = record l { queue = l.queue ++ item ∷ []; unfinished = l.unfinished + 1 }

  -- The first `put_nowait` of `write`.
  unfoldable pub write : R → Log R → Log R
  write r l = if has_room l then enqueue (some r) l else record l { phase = full r }

  unfoldable pub tail : List (Option R) → List (Option R)
  tail [] = []
  tail (_ ∷ rest) = rest

  -- What `task_done` takes off, where `get_nowait` found something.
  unfoldable pub got : List (Option R) → ℕ
  got [] = 0
  got (_ ∷ rest) = 1

  -- `get_nowait` and `task_done`, if there is something.
  unfoldable pub give_up_oldest : Log R → Log R
  unfolding tail got
  give_up_oldest l = record l { queue = tail l.queue; unfinished = l.unfinished - got l.queue }

  -- The middle of `write`: the oldest goes, and the backlog is reported once.
  unfoldable pub make_room : R → Log R → Log R
  make_room r l =
      let l1 = give_up_oldest l in
      record l1 {
        phase = making_room r;
        backlog = true;
        events = (if l.backlog then l.events else l.events ++ log_backlog ∷ []);
      }

  -- The second `put_nowait`; with no room the record is lost.
  unfoldable pub put_again : R → Log R → Log R
  put_again r l =
      if has_room l then record (enqueue (some r) l) { phase = idle } else record l { phase = idle }

  -- `close`: the end goes in when there is room.
  unfoldable pub put_end : Log R → Log R
  put_end l = record (enqueue none l) { phase = closed }

  -- `close` after its timeout on a full queue: the oldest is given up for the end. If the writer has
  -- emptied the queue by then, `get_nowait` raises and the end is not put in.
  unfoldable pub force_end : Log R → Log R
  unfolding got
  force_end l =
      let l1 = give_up_oldest l in
      if got l.queue == 0
      then record l { phase = closed }
      else if has_room l1
      then record (enqueue none l1) { phase = closed }
      else record l1 { phase = closed }

  -- `q.get()` of the writer on an item.
  unfoldable pub take : Option R → List (Option R) → Log R → Log R
  take none rest l = record l { queue = rest; unfinished = l.unfinished - 1; stopped = true }
  take (some r) rest l = record l { queue = rest; flight = some r }

  -- The end of a round of `_writer_loop`; `failed` is whether `_write_now` raised.
  unfoldable pub finish : Bool → Log R → Log R
  finish failed l = record l {
    flight = none;
    unfinished = l.unfinished - 1;
    write_error = failed;
    events = (if failed && not l.write_error then l.events ++ log_error ∷ [] else l.events);
    backlog = (if l.backlog then leb (queue_max / 2) (length l.queue) else false);
  }
