-- ===== src/Daemon/Retry.antt =====
-- The retries of the graphics card's mode in linux/turbomac/daemon/main.py: `_apply_gpu_from_config`
-- and `_maybe_retry_gpu`, and why they end.
use turbo_mac.Prelude.{
  ℕ, suc, ◌+◌, ◌-◌, ◌*◌, ◌≤◌, ◌≡◌, Bool, true, false, ◌&&◌, none, some, List, [], ◌∷◌, ◌++◌, one,
  if◌then◌else◌, ltb, ◌==◌, arith, not,
}
use turbo_mac.Daemon.{Retries, DaemonEvent, gpu_retry, gpu_retry_succeeded, gpu_retry_gave_up}

abbrev pub gpu_retry_every_s : ℕ
gpu_retry_every_s = 15 * one

abbrev pub gpu_retries : ℕ
gpu_retries = 12

-- The end of a thread of `_apply_gpu_from_config`: whether the mode was applied, and whether the
-- reason is one that is worth another attempt.
unfoldable pub applied :
    (attempt : ℕ) → (ok retryable : Bool) → Retries → Retries × List DaemonEvent
applied attempt ok retryable r =
    let done = record r { thread = false } in
    let again = retryable && not ok in
    if attempt == 0
    then (if again then (record done { left = gpu_retries; next = none }, []) else (done, []))
    else if ok
    then (record done { left = 0 }, gpu_retry_succeeded attempt ∷ [])
    else if (if not again then true else r.left == 0)
    then (record done { left = 0 }, gpu_retry_gave_up attempt ∷ [])
    else (done, [])

-- A retry: the attempt is counted, and its thread starts.
unfoldable pub start_retry : ℕ → Retries → Retries × List DaemonEvent
start_retry now r = (
  record { left = r.left - 1; next = some (now + gpu_retry_every_s); thread = true },
  gpu_retry (gpu_retries - r.left + 1) ∷ [],
)

unfoldable pub maybe_retry : (busy : Bool) → ℕ → Retries → Retries × List DaemonEvent
maybe_retry busy now r =
    if r.left == 0
    then (r, [])
    else if (if busy then true else r.thread)
    then (r, [])
    else elim r.next [
      | none ↦ (record r { next = some (now + gpu_retry_every_s) }, [])
      | some at ↦ if ltb now at then (r, []) else start_retry now r
    ]

-- What may happen: a tick; a change of `gpu.cap_w` that starts a thread with attempt 0; a mode that is
-- asked for, past the checks of `set_gpu`; the end of an attempt 0 or of a retry; and a thread that ends
-- with an exception. `latest` says whether the thread that ends is the one that `gpu_thread` holds.
pub data Happens : Type 0 where
  ticks : (busy : Bool) → (now : ℕ) → Happens
  cap_changes asks_mode : Happens
  dies : (latest : Bool) → Happens
  ends_first : (ok retryable latest : Bool) → Happens
  ends : (attempt : ℕ) → (ok retryable latest : Bool) → Happens

-- The end of a thread, with what `gpu_thread` is then.
unfoldable pub ended :
    (attempt : ℕ) → (ok retryable latest : Bool) → Retries → Retries × List DaemonEvent
ended attempt ok retryable latest r =
    let e = applied attempt ok retryable r in
    (record e.0 { thread = if latest then false else r.thread }, e.1)

-- A retry's thread has an attempt number of at least 1.
unfoldable pub happen : Happens → Retries → Retries × List DaemonEvent
happen (ticks busy now) r = maybe_retry busy now r
happen cap_changes r = (record r { thread = true }, [])
happen asks_mode r = (record r { left = 0 }, [])
happen (dies latest) r = (record r { thread = if latest then false else r.thread }, [])
happen (ends_first ok retryable latest) r = ended 0 ok retryable latest r
happen (ends attempt ok retryable latest) r = ended (suc attempt) ok retryable latest r

unfoldable pub run : Retries → List Happens → Retries × List DaemonEvent
run r [] = (r, [])
run r (h ∷ rest) =
    let first = happen h r in let later = run first.0 rest in (later.0, first.1 ++ later.1)

-- The retries among the events.
unfoldable pub started : List DaemonEvent → ℕ
started [] = 0
started (gpu_retry attempt ∷ rest) = suc (started rest)
started (_ ∷ rest) = started rest

started-append : (a b : List DaemonEvent) → started (a ++ b) ≡ started a + started b
unfolding started
started-append [] b = omega arith
started-append (DaemonEvent.gpu_retry attempt ∷ a) b = omega (arith, started-append a b)
started-append (DaemonEvent.governed e ∷ a) b = started-append a b
started-append (DaemonEvent.wrote w ∷ a) b = started-append a b
started-append (DaemonEvent.failed t e ∷ a) b = started-append a b
started-append (DaemonEvent.gpu_retry_succeeded n ∷ a) b = started-append a b
started-append (DaemonEvent.gpu_retry_gave_up n ∷ a) b = started-append a b

-- The attempts 0 that failed for a reason that is worth another attempt.
unfoldable pub rearms : List Happens → ℕ
rearms [] = 0
rearms (ends_first false true latest ∷ rest) = suc (rearms rest)
rearms (_ ∷ rest) = rearms rest

rearms-cons :
    (h : Happens) (rest : List Happens) → rearms (h ∷ rest) ≡ rearms (h ∷ []) + rearms rest
unfolding rearms
rearms-cons (ticks busy now) rest = omega arith
rearms-cons cap_changes rest = omega arith
rearms-cons asks_mode rest = omega arith
rearms-cons (dies latest) rest = omega arith
rearms-cons (ends_first false true latest) rest = omega arith
rearms-cons (ends_first false false latest) rest = omega arith
rearms-cons (ends_first true retryable latest) rest = omega arith
rearms-cons (ends attempt ok retryable latest) rest = omega arith

-- Each retry takes one of those that are left, and only an attempt 0 gives new ones.
happen-started :
    (h : Happens) (r : Retries)
    → started (happen h r).1 + (happen h r).0.left ≤ r.left + gpu_retries * rearms (h ∷ [])
unfolding happen ended maybe_retry start_retry applied started rearms
happen-started (ticks busy now) r = ground arith
happen-started cap_changes r = omega arith
happen-started asks_mode r = omega arith
happen-started (dies latest) r = omega arith
happen-started (ends_first false true latest) r = ground arith
happen-started (ends_first false false latest) r = ground arith
happen-started (ends_first true retryable latest) r = ground arith
happen-started (ends attempt ok retryable latest) r = ground arith

-- In any run of ticks, changes of the cap, requests for a mode, and ends of threads, from any number of
-- retries left (0 in a new daemon): the retries that are started, with those that are left at the end,
-- are at most those left at first and 12 for each attempt 0 (at the start of the daemon, or after a change
-- of the cap) that failed for a reason worth another attempt.
pub run-started :
    (r : Retries) (hs : List Happens)
    → started (run r hs).1 + (run r hs).0.left ≤ r.left + gpu_retries * rearms hs
unfolding run started rearms
run-started r [] = omega arith
run-started r (h ∷ rest) = omega (
  arith,
  happen-started h r,
  run-started (happen h r).0 rest,
  rearms-cons h rest,
  started-append (happen h r).1 (run (happen h r).0 rest).1,
)
