-- ===== src/Daemon/Watchdog.antt =====
-- When the daemon's loop (linux/turbomac/daemon/main.py) tells systemd that it is well.
use mathlib.Core.Path.{subst}
use turbo_mac.Prelude.{
  ℕ, suc, ◌+◌, ◌≤◌, ◌≡◌, refl, sym, Bool, true, false, ◌&&◌, not, Option, none, some, List, [], ◌∷◌,
  arith, if◌then◌else◌, All, Bool-cases, &&-left, &&-right, inl, inr, ◌⊎◌,
}
use turbo_mac.Daemon.Loop.{
  Notice, ready_notice, watchdog_notice, Loop, Ticked, new_loop, begin, within, step_ok, waited,
  send_ready, due, send_watchdog, loop_once, watchdog_every_s, watchdog_max_step_age_s,
}

-- The iterations of the loop, the last first.
abbrev pub Trace : Type 0
Trace = List (ℕ × Ticked)

unfoldable pub run : Trace → Loop
run [] = new_loop
run ((now, t) ∷ earlier) = loop_once now t (run earlier)

-- The governor made a step at the time, in some iteration.
abbrev pub StepIn : ℕ → Trace → Type 0
StepIn s [] = ⊥
StepIn s ((now, t) ∷ earlier) = ((t.stepped ≡ true) × (s ≡ now)) ⊎ StepIn s earlier

-- A notice at most 5 s after such a step.
abbrev pub Justified : Trace → Notice × ℕ → Type 0
Justified past n = (s : ℕ) × StepIn s past × (n.1 ≤ s + watchdog_max_step_age_s)

-- The times of the watchdog's notices.
unfoldable pub pings : List (Notice × ℕ) → List ℕ
pings [] = []
pings ((ready_notice, t) ∷ rest) = pings rest
pings ((watchdog_notice, t) ∷ rest) = t ∷ pings rest

unfoldable pub readies : List (Notice × ℕ) → ℕ
readies [] = 0
readies ((ready_notice, t) ∷ rest) = suc (readies rest)
readies ((watchdog_notice, t) ∷ rest) = readies rest

-- Each is at least 2 s after the one before it.
abbrev pub Spaced : List ℕ → Type 0
Spaced [] = Unit {0}
Spaced (a ∷ []) = Unit {0}
Spaced (a ∷ b ∷ rest) = (b + watchdog_every_s ≤ a) × Spaced (b ∷ rest)

abbrev head : List ℕ → Option ℕ
head [] = none
head (t ∷ rest) = some t

abbrev Known : Trace → Option ℕ → Type 0
Known past none = Unit {0}
Known past (some s) = StepIn s past

-- At most one if the flag is set, else none.
abbrev allowed : Bool → ℕ
allowed b = if b then 1 else 0

record Holds (past : Trace) (l : Loop) : Type 0 where
  last : Known past l.last_step_ok
  justified : All (Justified past) l.sent
  spaced : Spaced (pings l.sent)
  last_ping : l.last_wd ≡ head (pings l.sent)
  once : readies l.sent ≤ allowed l.ready

Justified-cons :
    (x : ℕ × Ticked) (past : Trace) (sent : List (Notice × ℕ))
    → All (Justified past) sent
    → All (Justified (x ∷ past)) sent
Justified-cons x past [] all = tt
Justified-cons x past (n ∷ rest) all =
    ((all.0.0, inr all.0.1, all.0.2), Justified-cons x past rest all.1)

Known-begin :
    (now : ℕ) (t : Ticked) (past : Trace) (o : Option ℕ)
    → Known past o
    → Known ((now, t) ∷ past) (if t.stepped then some now else o)
Known-begin now t past o h = elim (Bool-cases t.stepped) [
  | inl e ↦ subst (λ b. Known ((now, t) ∷ past) (if b then some now else o)) (sym e) (inl (e, refl))
  | inr e ↦ subst (λ b. Known ((now, t) ∷ past) (if b then some now else o)) (sym e) (older o h)
]
  where
    older : (p : Option ℕ) → Known past p → Known ((now, t) ∷ past) p
    older none k = tt
    older (some s) k = inr k

begin-Holds :
    (now : ℕ) (t : Ticked) (past : Trace) (l : Loop)
    → Holds past l
    → Holds ((now, t) ∷ past) (begin now t l)
unfolding begin
begin-Holds now t past l h = record {
  last = Known-begin now t past l.last_step_ok h.last;
  justified = Justified-cons (now, t) past l.sent h.justified;
  spaced = h.spaced;
  last_ping = h.last_ping;
  once = h.once;
}

-- The test of the last step gives the step that justifies a notice.
justify :
    (now : ℕ) (n : Notice) (past : Trace) (o : Option ℕ)
    → Known past o
    → within watchdog_max_step_age_s o now ≡ true
    → Justified past (n, now)
unfolding within
justify now n past none k h = cc
justify now n past (some s) k h = (s, k, ground (arith, h))

not-true : (b : Bool) → not b ≡ true → b ≡ false
not-true true h = cc
not-true false h = refl

allowed-first : (b : Bool) (n : ℕ) → b ≡ false → n ≤ allowed b → suc n ≤ 1
allowed-first b n e h = subst (λ x. suc n ≤ suc (allowed x)) e (ground (arith, h))

Spaced-cons : (now : ℕ) (l : List ℕ) → due now (head l) ≡ true → Spaced l → Spaced (now ∷ l)
unfolding due
Spaced-cons now [] h spaced = tt
Spaced-cons now (b ∷ rest) h spaced = (ground (arith, h), spaced)

send_ready-Holds :
    (now : ℕ) (t : Ticked) (past : Trace) (l : Loop)
    → Holds past l
    → Holds past (send_ready now t l)
unfolding send_ready step_ok pings readies
send_ready-Holds now t past l h =
    let recent = within watchdog_max_step_age_s l.last_step_ok now in
    let valid = if t.valid then true else waited now t.stale_timeout_s l.loop_start in
    elim (Bool-cases (recent && not l.ready && valid)) [
      | inr e ↦ rw (e, send_ready) h
      | inl e ↦
          let both = &&-left (recent && not l.ready) valid e in
          rw (e, send_ready)
            (sent_ready now past l h (&&-left recent (not l.ready) both)
              (not-true l.ready (&&-right recent (not l.ready) both)))
    ]
  where
    sent_ready :
        (now : ℕ) (past : Trace) (l : Loop)
        → Holds past l
        → within watchdog_max_step_age_s l.last_step_ok now ≡ true
        → l.ready ≡ false
        → Holds past (record l { ready = true; sent = (ready_notice, now) ∷ l.sent })
    sent_ready now past l h recent first = record {
      last = h.last;
      justified = (justify now ready_notice past l.last_step_ok h.last recent, h.justified);
      spaced = h.spaced;
      last_ping = h.last_ping;
      once = allowed-first l.ready (readies l.sent) first h.once;
    }

send_watchdog-Holds :
    (now : ℕ) (past : Trace) (l : Loop) → Holds past l → Holds past (send_watchdog now l)
unfolding send_watchdog step_ok pings readies
send_watchdog-Holds now past l h =
    let recent = within watchdog_max_step_age_s l.last_step_ok now in
    elim (Bool-cases (recent && due now l.last_wd)) [
      | inr e ↦ rw (e, send_watchdog) h
      | inl e ↦
          rw (e, send_watchdog)
            (sent_watchdog now past l h (&&-left recent (due now l.last_wd) e)
              (&&-right recent (due now l.last_wd) e))
    ]
  where
    sent_watchdog :
        (now : ℕ) (past : Trace) (l : Loop)
        → Holds past l
        → within watchdog_max_step_age_s l.last_step_ok now ≡ true
        → due now l.last_wd ≡ true
        → Holds past (record l { last_wd = some now; sent = (watchdog_notice, now) ∷ l.sent })
    sent_watchdog now past l h recent is_due = record {
      last = h.last;
      justified = (justify now watchdog_notice past l.last_step_ok h.last recent, h.justified);
      spaced =
          Spaced-cons now (pings l.sent) (subst (λ o. due now o ≡ true) h.last_ping is_due)
            h.spaced;
      last_ping = refl;
      once = h.once;
    }

run-Holds : (past : Trace) → Holds past (run past)
unfolding run pings readies loop_once
run-Holds [] = record {
  last = tt;
  justified = tt;
  spaced = tt;
  last_ping = refl;
  once = omega arith;
}
run-Holds ((now, t) ∷ earlier) =
    let whole : Trace = (now, t) ∷ earlier in
    send_watchdog-Holds now whole _
      (send_ready-Holds now t whole _ (begin-Holds now t earlier (run earlier) (run-Holds earlier)))

-- Whatever the ticks of a run of the loop do, each READY and each WATCHDOG that is sent comes at most
-- 5 s after a step of the governor that was really made, READY is sent at most once, and two WATCHDOG
-- notices are at least 2 s apart.
pub run-Justified :
    (past : Trace)
    → All (Justified past) (run past).sent
      × (readies (run past).sent ≤ 1)
      × Spaced (pings (run past).sent)
run-Justified past =
    let h = run-Holds past in
    (h.justified, at_most (run past).ready (readies (run past).sent) h.once, h.spaced)
  where
    at_most : (b : Bool) (n : ℕ) → n ≤ allowed b → n ≤ 1
    at_most true n h = h
    at_most false n h = omega (arith, h)
