-- ===== src/Logger/Episodes.antt =====
-- The report of a backlog in linux/turbomac/daemon/logger.py (`write` and `_writer_loop`): when a loss is
-- reported anew.
use turbo_mac.Prelude.{
  ℕ, ◌+◌, ◌/◌, ◌≡◌, refl, ap, ◌∙◌, Bool, true, false, ◌&&◌, ◌||◌, not, some, none, List, [], ◌∷◌,
  ◌++◌, arith, ltb, ◌==◌, if◌then◌else◌, if_keeps, length, Option,
}
use turbo_mac.Logger.{
  Log, LogEvent, log_backlog, log_error, has_room, enqueue, write, got, give_up_oldest, make_room,
  put_again, put_end, force_end, take, finish, queue_max,
}
use turbo_mac.Logger.Flow.{
  Run, start, submits, makes_room, puts_again, ends, forces, takes, finishes,
}

-- The reports of a backlog.
unfoldable pub backlogs : List LogEvent → ℕ
backlogs [] = 0
backlogs (log_backlog ∷ rest) = 1 + backlogs rest
backlogs (log_error ∷ rest) = backlogs rest

backlogs-append : (a b : List LogEvent) → backlogs (a ++ b) ≡ backlogs a + backlogs b
unfolding backlogs
backlogs-append [] b = omega arith
backlogs-append (log_backlog ∷ a) b = omega (arith, backlogs-append a b)
backlogs-append (log_error ∷ a) b = backlogs-append a b

module _ {R : Type 0} where
  -- Whether a step that makes room now begins an episode: there was none yet, or the writer ended a round
  -- with less than half of the queue full since the last.
  unfoldable pub fresh : {s t : List R} {l : Log R} → Run s t l → Bool
  fresh start = true
  fresh (submits run e r) = fresh run
  fresh (makes_room run e) = false
  fresh (puts_again run e) = fresh run
  fresh (ends run e room) = fresh run
  fresh (forces run e) = fresh run
  fresh (takes run f s q) = fresh run
  fresh (finishes {l = l} run f failed) = fresh run || ltb (length l.queue) (queue_max / 2)

  -- The episodes of a run.
  unfoldable pub episodes : {s t : List R} {l : Log R} → Run s t l → ℕ
  episodes start = 0
  episodes (submits run e r) = episodes run
  episodes (makes_room run e) = episodes run + (if fresh run then 1 else 0)
  episodes (puts_again run e) = episodes run
  episodes (ends run e room) = episodes run
  episodes (forces run e) = episodes run
  episodes (takes run f s q) = episodes run
  episodes (finishes run f failed) = episodes run

  -- The flag and the reports of a log, for an episode that may begin and a count.
  pub record Told (b : Bool) (n : ℕ) (l : Log R) : Type 0 where
    pub flag : l.backlog ≡ not b
    pub count : backlogs l.events ≡ n

  Told-Same :
      (b : Bool) (n : ℕ) (l l' : Log R)
      → l'.backlog ≡ l.backlog
      → l'.events ≡ l.events
      → Told b n l
      → Told b n l'
  Told-Same b n l l' e e' h = record {
    flag = e ∙ h.flag;
    count = ap (λ x. backlogs x) e' ∙ h.count;
  }

  force_end-Told : (b : Bool) (n : ℕ) (l : Log R) → Told b n l → Told b n (force_end l)
  unfolding force_end give_up_oldest enqueue
  force_end-Told b n l h =
      let l1 = give_up_oldest l in
      if_keeps (Told b n) (got l.queue == 0) _ _ (Told-Same b n l _ refl refl h) (
        if_keeps (Told b n) (has_room l1) _ _ (Told-Same b n l _ refl refl h)
          (Told-Same b n l _ refl refl h))

  take-Told :
      (b : Bool) (n : ℕ) (item : Option R) (rest : List (Option R)) (l : Log R)
      → Told b n l
      → Told b n (take item rest l)
  unfolding take
  take-Told b n none rest l h = Told-Same b n l _ refl refl h
  take-Told b n (some r) rest l h = Told-Same b n l _ refl refl h

  make_room-Told :
      (b : Bool) (n : ℕ) (r : R) (l : Log R)
      → Told b n l
      → Told false (n + (if b then 1 else 0)) (make_room r l)
  unfolding make_room give_up_oldest backlogs
  make_room-Told true n r l h =
      let one_more = backlogs-append l.events (log_backlog ∷ []) in
      record { flag = refl; count = rw (h.flag) (omega (arith, one_more, h.count)) }
  make_room-Told false n r l h = record {
    flag = refl;
    count = rw (h.flag) (omega (arith, h.count));
  }

  finish-Told :
      (b failed : Bool) (n : ℕ) (l : Log R)
      → Told b n l
      → Told (b || ltb (length l.queue) (queue_max / 2)) n (finish failed l)
  unfolding finish backlogs
  finish-Told b failed n l h =
      let flag = h.flag in
      let error_only = backlogs-append l.events (log_error ∷ []) in
      record {
        flag = ground (arith, flag);
        count =
            if_keeps (λ (es : List LogEvent). backlogs es ≡ n) (failed && not l.write_error) _ _
              (omega (arith, error_only, h.count)) h.count;
      }

  -- The flag is up exactly when a step that makes room begins no episode; each episode is reported
  -- once.
  pub Run-Told : {s t : List R} {l : Log R} (run : Run s t l) → Told (fresh run) (episodes run) l
  unfolding fresh episodes write put_again put_end enqueue backlogs
  Run-Told start = record { flag = refl; count = refl }
  Run-Told (submits {l = l} run e r) =
      let h = Run-Told run in
      if_keeps (Told (fresh run) (episodes run)) (has_room l) _ _ (Told-Same _ _ l _ refl refl h)
        (Told-Same _ _ l _ refl refl h)
  Run-Told (makes_room {l = l} {r = r} run e) = make_room-Told _ _ r l (Run-Told run)
  Run-Told (puts_again {l = l} run e) =
      let h = Run-Told run in
      if_keeps (Told (fresh run) (episodes run)) (has_room l) _ _ (Told-Same _ _ l _ refl refl h)
        (Told-Same _ _ l _ refl refl h)
  Run-Told (ends {l = l} run e room) = Told-Same _ _ l _ refl refl (Run-Told run)
  Run-Told (forces {l = l} run e) = force_end-Told _ _ l (Run-Told run)
  Run-Told (takes {l = l} {item = item} {rest = rest} run f s q) =
      take-Told _ _ item rest l (Run-Told run)
  Run-Told (finishes {l = l} run f failed) = finish-Told _ failed _ l (Run-Told run)
