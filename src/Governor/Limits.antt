-- ===== src/Governor/Limits.antt =====
-- The power limits that a step commands stay below the hard maximum and the firmware's limits.
mod Rules
pub mod Steps
use turbo_mac.Prelude.{
  ℕ, suc, ◌+◌, ◌≤◌, ◌≡◌, refl, Bool, true, false, Option, none, some, List, [], ◌∷◌, ◌++◌,
  if◌then◌else◌, or_default, leb, ltb, ◌&&◌, arith, All, All-append, if_keeps, option_keeps,
}
use turbo_mac.Governor.{
  State, Mode, same_state, Reason, Why, GovState, GovConfig, Readback, Sample, Event, Action,
  set_limits, event, state_change, retry, hard_max_w, readings, Thresholds, initial,
}
use turbo_mac.Governor.Working.{
  Work, emit, cap1, cap2, enter, write, fall_back, count_fallback, fallback_w, thermal,
  thermal_adjust, thermal_due, keep_cap, held_cap, trim_start,
}
use turbo_mac.Governor.Step.{
  Flow, reached, returned, goes_on, begin, step_off, readback_failed, check_readback,
  emergency_in_fallback, wait_retry, check_retry, step_static, step_stale,
}
use turbo_mac.Governor.Control.{
  Choice, rule_emergency, rule_shed, rule_recover, rule_clear, apply_rules, by_band, start, finish,
  control, act, step,
}

-- What a limit may be, given the firmware's (missing or zero: the hard maximum alone).
abbrev pub Fits : Option ℕ → ℕ → Type 0
Fits firmware limit = (limit ≤ hard_max_w) × (limit ≤ or_default firmware hard_max_w)

abbrev pub FitsIfSet : Option ℕ → Option ℕ → Type 0
FitsIfSet firmware none = Unit
FitsIfSet firmware (some limit) = Fits firmware limit

abbrev pub Within : Option ℕ → Option ℕ → Action → Type 0
Within fw1 fw2 (set_limits pl1 pl2 why) = Fits fw1 pl1 × Fits fw2 pl2
Within fw1 fw2 (event e) = Unit

-- The `set_limits` actions of a list.
abbrev pub writes_in : List Action → ℕ
writes_in [] = 0
writes_in (set_limits pl1 pl2 why ∷ rest) = suc (writes_in rest)
writes_in (event e ∷ rest) = writes_in rest

writes_in-append : (xs ys : List Action) → writes_in (xs ++ ys) ≡ writes_in xs + writes_in ys
writes_in-append [] ys = omega arith
writes_in-append (set_limits pl1 pl2 why ∷ xs) ys = omega (arith, writes_in-append xs ys)
writes_in-append (event e ∷ xs) ys = writes_in-append xs ys

module _ (fw1 fw2 : Option ℕ) (base : ℕ) where
  -- Over the fields that matter, so that an update of any other field keeps it by computation.
  pub record Safe (f1 f2 p1 p2 : Option ℕ) (writes : ℕ) (actions : List Action) : Type 0 where
    pub same1 : f1 ≡ fw1
    pub same2 : f2 ≡ fw2
    pub fits1 : FitsIfSet fw1 p1
    pub fits2 : FitsIfSet fw2 p2
    pub acts : All (Within fw1 fw2) actions
    pub counted : writes ≡ base + writes_in actions

  abbrev pub IsSafe : Work → Type 0
  IsSafe w = Safe w.s.fw_pl1_w w.s.fw_pl2_w w.s.pl1_w w.s.pl2_w w.s.counters.writes w.actions

  abbrev pub ChoiceIsSafe : Choice → Type 0
  ChoiceIsSafe c = IsSafe c.work

  abbrev pub PairIsSafe : ℕ × Work → Type 0
  PairIsSafe p = IsSafe p.1

  abbrev pub FlowIsSafe : Flow → Type 0
  FlowIsSafe (returned w) = IsSafe w
  FlowIsSafe (goes_on w) = IsSafe w

  pub emit-IsSafe : (e : Event) (w : Work) → IsSafe w → IsSafe (emit e w)
  unfolding emit
  emit-IsSafe e w h = record {
    same1 = h.same1;
    same2 = h.same2;
    fits1 = h.fits1;
    fits2 = h.fits2;
    acts = All-append (Within fw1 fw2) w.actions (event e ∷ []) h.acts (tt, tt);
    counted = omega (arith, h.counted, writes_in-append w.actions (event e ∷ []));
  }

  pub enter-IsSafe :
      (now : ℕ) (new : State) (why : Option Reason) (w : Work)
      → IsSafe w
      → IsSafe (enter now new why w)
  unfolding enter
  enter-IsSafe now new why w h = if_keeps IsSafe (same_state new w.s.state) _ _ h (record {
    same1 = h.same1;
    same2 = h.same2;
    fits1 = h.fits1;
    fits2 = h.fits2;
    acts = All-append (Within fw1 fw2) w.actions _ h.acts (tt, tt);
    counted = omega (
      arith,
      h.counted,
      writes_in-append w.actions (event (state_change w.s.state new why) ∷ []),
    );
  })

  cap1-Fits : (p : ℕ) (w : Work) → IsSafe w → Fits fw1 (cap1 p w.s)
  unfolding cap1
  cap1-Fits p w h = rw h.same1 (ground arith)

  cap2-Fits : (p : ℕ) (w : Work) → IsSafe w → Fits fw2 (cap2 p w.s)
  unfolding cap2
  cap2-Fits p w h = rw h.same2 (ground arith)

  counted_write :
      {n : ℕ} (xs : List Action) (p1 p2 : ℕ) (why : Why)
      → n ≡ base + writes_in xs
      → n + 1 ≡ base + writes_in (xs ++ (set_limits p1 p2 why ∷ []))
  counted_write xs p1 p2 why h = omega (arith, h, writes_in-append xs (set_limits p1 p2 why ∷ []))

  pub write-IsSafe :
      (now pl1 pl2 : ℕ) (why : Why) (force : Bool) (w : Work)
      → IsSafe w
      → IsSafe (write now pl1 pl2 why force w)
  unfolding write
  write-IsSafe now pl1 pl2 why force w h = if_keeps IsSafe _ _ _ h (record {
    same1 = h.same1;
    same2 = h.same2;
    fits1 = cap1-Fits pl1 w h;
    fits2 = cap2-Fits pl2 w h;
    acts =
        All-append (Within fw1 fw2) w.actions _ h.acts ((cap1-Fits pl1 w h, cap2-Fits pl2 w h), tt);
    counted = counted_write w.actions _ _ _ h.counted;
  })

  pub fall_back-IsSafe :
      (now : ℕ) (why : Reason) (static : ℕ) (w : Work)
      → IsSafe w
      → IsSafe (fall_back now why static w)
  unfolding fall_back count_fallback
  fall_back-IsSafe now why static w h = write-IsSafe now _ _ _ true _ (
      enter-IsSafe now State.fallback _ _
        (if_keeps IsSafe (same_state w.s.state State.fallback) w _ h (emit-IsSafe _ _ h)))
