-- ===== src/Daemon/Loop.antt =====
-- `loop_once` of linux/turbomac/daemon/main.py: READY and WATCHDOG to systemd. The reload of the
-- configuration that may come first is `reload_config` of Settings.antt. What the tick of the
-- iteration did comes in: whether it made the governor's step, and whether the sample is valid.
use turbo_mac.Prelude.{
  ℕ, ◌+◌, ◌*◌, ◌%◌, Bool, true, false, ◌&&◌, not, Option, none, some, List, [], ◌∷◌, one,
  if◌then◌else◌, leb, ltb, ◌==◌,
}

abbrev pub watchdog_every_s : ℕ
watchdog_every_s = 2 * one

abbrev pub watchdog_max_step_age_s : ℕ
watchdog_max_step_age_s = 5 * one

-- `SLOW_EVERY`
abbrev pub slow_every : ℕ
slow_every = 4

pub data Notice : Type 0 where
  ready_notice watchdog_notice : Notice

-- A time of -1e18 is none. `sent` has the notices with their times, the last first.
pub record Loop : Type 0 where
  pub last_step_ok : Option ℕ
  pub loop_start : Option ℕ
  pub ready : Bool
  pub last_wd : Option ℕ
  pub sent : List (Notice × ℕ)

pub record Ticked : Type 0 where
  pub stepped : Bool
  pub valid : Bool
  pub stale_timeout_s : ℕ

abbrev pub new_loop : Loop
new_loop = record {
  last_step_ok = none;
  loop_start = none;
  ready = false;
  last_wd = none;
  sent = [];
}

-- `tick % SLOW_EVERY == 0`
unfoldable pub is_slow : ℕ → Bool
is_slow count = count % slow_every == 0

-- The start of the loop and the tick.
unfoldable pub begin : ℕ → Ticked → Loop → Loop
begin now t l = record l {
  loop_start = (elim l.loop_start [ none ↦ some now | some at ↦ some at ]);
  last_step_ok = (if t.stepped then some now else l.last_step_ok);
}

-- `now - last <= age`, false if there is no time.
unfoldable pub within : ℕ → Option ℕ → ℕ → Bool
within age none now = false
within age (some at) now = leb now (at + age)

unfoldable pub step_ok : ℕ → Loop → Bool
unfolding within
step_ok now l = within watchdog_max_step_age_s l.last_step_ok now

-- `now - self.loop_start > stale_timeout_s + 1`
unfoldable pub waited : ℕ → ℕ → Option ℕ → Bool
waited now timeout none = false
waited now timeout (some at) = ltb (at + timeout + one) now

unfoldable pub send_ready : ℕ → Ticked → Loop → Loop
send_ready now t l =
    if step_ok now l
      && not l.ready
      && (if t.valid then true else waited now t.stale_timeout_s l.loop_start)
    then record l { ready = true; sent = (ready_notice, now) ∷ l.sent }
    else l

-- `now - self.last_wd >= WATCHDOG_EVERY_S`
unfoldable pub due : ℕ → Option ℕ → Bool
due now none = true
due now (some at) = leb (at + watchdog_every_s) now

unfoldable pub send_watchdog : ℕ → Loop → Loop
send_watchdog now l =
    if step_ok now l && due now l.last_wd
    then record l { last_wd = some now; sent = (watchdog_notice, now) ∷ l.sent }
    else l

unfoldable pub loop_once : ℕ → Ticked → Loop → Loop
loop_once now t l = send_watchdog now (send_ready now t (begin now t l))
