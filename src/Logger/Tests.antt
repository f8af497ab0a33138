-- ===== src/Logger/Tests.antt =====
-- The theorems on the logger at a run that fills no queue, and at a directory of four files.
use turbo_mac.Prelude.{
  ℕ, ◌*◌, ◌≤◌, ◌≡◌, refl, true, false, none, some, List, [], ◌∷◌, ◌⊎◌, All, not, one, length,
}
use mathlib.Core.List.{Sublist}
use turbo_mac.Logger.{Log, new_log, write, take, finish, put_end, has_room, enqueue, queue_max}
use turbo_mac.Logger.Flow.{Run, start, submits, takes, finishes, ends, flow, reported}
use turbo_mac.Logger.Episodes.{backlogs, fresh, episodes}
use turbo_mac.Logger.Order.{is_closed, Run-Sublist}
use turbo_mac.Logger.Prune.{File, plan, prune, split, expired, shrink, total_size}
use turbo_mac.Logger.Left.{readable}
use turbo_mac.Logger.Kept.{current_kept, current_files, prune-Fits}

-- Two records come in; the writer takes the first, fails to write it, and the log is closed.
abbrev submitted : List ℕ
submitted = 7 ∷ 8 ∷ []

abbrev log : Log ℕ
log = put_end (finish true (take (some 7) (some 8 ∷ []) (write 8 (write 7 new_log))))

log_Run : Run submitted (7 ∷ []) log
unfolding write take finish put_end has_room enqueue
log_Run =
    ends (finishes (takes (submits (submits start refl 7) refl 8) refl refl refl) refl true) refl
      refl

Run-Sublist_example :
    (length log.queue ≤ queue_max)
    × Sublist (flow (7 ∷ []) log.queue log.phase) submitted
    × ((flow (7 ∷ []) log.queue log.phase ≡ submitted)
        ⊎ (reported log.events ≡ true)
        ⊎ (is_closed log.phase ≡ true))
    × (backlogs log.events ≡ episodes log_Run)
    × (log.backlog ≡ not (fresh log_Run))
Run-Sublist_example = Run-Sublist log_Run

abbrev day : ℕ
day = 86_400 * one

abbrev files : List File
files =
    record { name = "a"; current = false; stat = some (record { mtime = 0; size = 10 }) }
    ∷ record {
      name = "b";
      current = false;
      stat = some (record { mtime = 20 * day; size = 1_000_000 });
    }
    ∷ record { name = "c"; current = false; stat = none }
    ∷ record { name = "d"; current = true; stat = some (record { mtime = 0; size = 900_000 }) }
    ∷ []

prune-files :
    plan (21 * day) 14 1 files
    ≡ ("a" ∷ "b" ∷ [], record { name = "d"; current = true; size = 900_000 } ∷ [])
unfolding plan split expired shrink total_size
prune-files = refl

prune-Fits_example :
    let left = readable (prune (λ n. true) (21 * day) 14 1 files).1 in
    ((total_size left ≤ 1 * 1024 * 1024) ⊎ All (λ k. k.current ≡ true) left)
    × (current_kept (plan (21 * day) 14 1 files).1 ≡ current_files files)
unfolding prune plan split expired shrink total_size
prune-Fits_example = prune-Fits (λ n. true) (21 * day) 14 1 files (refl, (refl, tt))
