-- ===== src/Tui/Subscription/Backoff.antt =====
-- The pauses of `Subscription` (linux/turbomac/tui/backend.py), and that it does not give up.
use mathlib.Core.Path.{ap₂}
use turbo_mac.Prelude.{
  ℕ, zero, suc, ◌*◌, ◌^◌, ◌≤◌, ◌≡◌, refl, sym, ap, ◌∙◌, Bool, true, false, ◌&&◌, not, if◌then◌else◌,
  Option, none, some, List, [], ◌∷◌, String, All, arith, if_keeps, get_elem?, or_zero, lesser, one,
}
use turbo_mac.Tui.Subscription.{
  Item, status, failure, Event, Step, stop, next, Worker, backoff, notify, set_conn, conn, stop_if,
  deliver, pause, take, step, backoff_s, finish, run, start, changed,
}

one_le-power : (n : ℕ) → 1 ≤ 2 ^ n
one_le-power zero = omega arith
one_le-power (suc n) = omega (arith, one_le-power n)

lesser-right : (a b : ℕ) → b ≤ a → lesser a b ≡ b
lesser-right a b h = ground (arith, h)

-- The pause after a failure that n failures came before, without the table: half a second, doubled n
-- times, and at most 5 seconds.
abbrev pub doubled : ℕ → ℕ
doubled n = lesser (500_000_000 * 2 ^ n) (5 * one)

backoff-doubled : (n : ℕ) → backoff n ≡ doubled n
unfolding backoff
backoff-doubled zero = refl
backoff-doubled (suc zero) = refl
backoff-doubled (suc (suc zero)) = refl
backoff-doubled (suc (suc (suc zero))) = refl
backoff-doubled (suc (suc (suc (suc n)))) =
    let last : lesser (suc (suc (suc (suc n)))) 4 ≡ 4 =
      lesser-right (suc (suc (suc (suc n)))) 4 (omega arith) in
    ap (λ i. or_zero (get_elem? backoff_s i)) last
    ∙ sym (
        lesser-right (500_000_000 * 2 ^ suc (suc (suc (suc n)))) (5 * one)
          (omega (arith, one_le-power n)))

-- The failures since the last status; the steps are newest first.
abbrev pub failures : List Step → ℕ
failures [] = 0
failures (stop ∷ before) = failures before
failures (next e ∷ before) =
    let n = failures before in elim e.item [ status raises ↦ 0 | failure text ↦ suc n ]

abbrev pub pauses : List Step → List ℕ
pauses [] = []
pauses (stop ∷ before) = pauses before
pauses (next e ∷ before) =
    let rest = pauses before in
    elim e.item [ status raises ↦ rest | failure text ↦ doubled (failures before) ∷ rest ]

abbrev pub statuses : List Step → ℕ
statuses [] = 0
statuses (stop ∷ before) = statuses before
statuses (next e ∷ before) =
    let n = statuses before in elim e.item [ status raises ↦ suc n | failure text ↦ n ]

-- Nobody calls `stop`, and no callback raises.
abbrev pub IsCalm : Step → Type 0
IsCalm stop = ⊥
IsCalm (next e) =
    (e.stop_within ≡ false)
    × (e.change_raises ≡ false)
    × (elim e.item [ status raises ↦ raises ≡ false | failure text ↦ Unit {0} ])

-- The thread runs, and its counts are these.
pub record Counts (failed : ℕ) (pauses : List ℕ) (delivered : ℕ) (s : Worker) : Type 0 where
  pub runs : s.ended ≡ false
  pub free : s.stopped ≡ false
  pub attempt : s.attempt ≡ failed
  pub waits : s.waits ≡ pauses
  pub count : s.delivered ≡ delivered

module _ (failed : ℕ) (ps : List ℕ) (d : ℕ) where
  conn-Counts :
      (raises ok : Bool) (err : Option String) (s : Worker)
      → raises ≡ false
      → Counts failed ps d s
      → Counts failed ps d (conn raises ok err s)
  unfolding conn notify set_conn
  conn-Counts raises ok err s calm c =
      if_keeps (Counts failed ps d) (changed ok err s && not s.stopped) _ _
        (record {
          runs = c.runs;
          free = ground (arith, c.free, calm);
          attempt = c.attempt;
          waits = c.waits;
          count = c.count;
        })
        (record {
          runs = c.runs;
          free = c.free;
          attempt = c.attempt;
          waits = c.waits;
          count = c.count;
        })

  stop_if-Counts :
      (b : Bool) (s : Worker) → b ≡ false → Counts failed ps d s → Counts failed ps d (stop_if b s)
  unfolding stop_if
  stop_if-Counts b s calm c = record {
    runs = c.runs;
    free = ground (arith, c.free, calm);
    attempt = c.attempt;
    waits = c.waits;
    count = c.count;
  }

  pause-Counts :
      (s : Worker) → Counts failed ps d s → Counts (suc failed) (doubled failed ∷ ps) d (pause s)
  unfolding pause
  pause-Counts s c = record {
    runs = c.runs;
    free = c.free;
    attempt = ap suc c.attempt;
    waits = ap₂ (λ a b. a ∷ b) (ap backoff c.attempt ∙ backoff-doubled failed) c.waits;
    count = c.count;
  }

  reset-Counts : (s : Worker) → Counts failed ps d s → Counts 0 ps d (record s { attempt = 0 })
  reset-Counts s c = record {
    runs = c.runs;
    free = c.free;
    attempt = refl;
    waits = c.waits;
    count = c.count;
  }

  deliver-Counts :
      (raises : Bool) (s : Worker)
      → raises ≡ false
      → Counts failed ps d s
      → Counts failed ps (suc d) (deliver raises s)
  unfolding deliver
  deliver-Counts true s calm c = cc
  deliver-Counts false s calm c = record {
    runs = c.runs;
    free = c.free;
    attempt = c.attempt;
    waits = c.waits;
    count = ap suc c.count;
  }

next-Counts :
    (item : Item) (within raises : Bool) (before : List Step) (s : Worker)
    → let e : Event = record { item = item; stop_within = within; change_raises = raises } in
      IsCalm (next e)
      → Counts (failures before) (pauses before) (statuses before) s
      → Counts
          (failures (next e ∷ before))
          (pauses (next e ∷ before))
          (statuses (next e ∷ before))
          (take e s)
unfolding take
next-Counts (status bad) within raises before s calm c = deliver-Counts _ _ _ bad _ calm.2 (
    conn-Counts _ _ _ raises true none _ calm.1
      (reset-Counts _ _ _ _ (stop_if-Counts _ _ _ within s calm.0 c)))
next-Counts (failure text) within raises before s calm c =
    pause-Counts _ _ _ _
      (conn-Counts _ _ _ raises false (some text) _ calm.1 (stop_if-Counts _ _ _ within s calm.0 c))

step-Counts :
    (e : Event) (before : List Step) (s : Worker)
    → IsCalm (next e)
    → Counts (failures before) (pauses before) (statuses before) s
    → Counts
        (failures (next e ∷ before))
        (pauses (next e ∷ before))
        (statuses (next e ∷ before))
        (step (next e) s)
unfolding step
step-Counts e before s calm c = taken s.ended s.stopped c.runs c.free
  where
    taken :
        (b b' : Bool)
        → b ≡ false
        → b' ≡ false
        → Counts
            (failures (next e ∷ before))
            (pauses (next e ∷ before))
            (statuses (next e ∷ before))
            (if b then s else if b' then finish s else take e s)
    taken false false h h' = next-Counts e.item e.stop_within e.change_raises before s calm c
    taken true b' h h' = cc
    taken false true h h' = cc

-- While nobody calls `stop` and no callback raises, the thread does not end, whatever the stream does:
-- each status is given to `callback`; after a failure it pauses for half a second, doubled for each
-- failure since the last status, and for at most 5 seconds; and it counts from the start again after
-- every status.
pub run-Counts :
    (connected : Bool) (last_error : Option String) (steps : List Step)
    → All IsCalm steps
    → Counts
        (failures steps)
        (pauses steps)
        (statuses steps)
        (run steps (start connected last_error))
unfolding run start
run-Counts connected last_error [] calm = record {
  runs = refl;
  free = refl;
  attempt = refl;
  waits = refl;
  count = refl;
}
run-Counts connected last_error (stop ∷ before) calm = absurd calm.0
run-Counts connected last_error (next e ∷ before) calm =
    step-Counts e before _ calm.0 (run-Counts connected last_error before calm.1)
