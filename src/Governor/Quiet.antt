-- ===== src/Governor/Quiet.antt =====
-- When a step of linux/turbomac/daemon/governor.py asks for nothing: OFF, and a settled STATIC.
use mathlib.Core.Path.{subst}
use turbo_mac.Prelude.{ℕ, ◌≡◌, refl, sym, true, false, none, List, [], ◌∷◌, &&-false}
use turbo_mac.Governor.{
  State, Mode, GovState, GovConfig, Sample, same_state, Action, set_limits, event, state_change,
  because,
}
use turbo_mac.Governor.Working.{Work, cap1, cap2, enter, write}
use turbo_mac.Governor.Step.{begin, step_off}
use turbo_mac.Governor.Control.{governed_step, step}

-- The actions on leaving governed control: the static cap once, and the change of state.
abbrev pub leaving : GovState → ℕ → List Action
leaving s static =
    set_limits (cap1 static s) (cap2 static s) (because State.off)
    ∷ event (state_change s.state State.off none)
    ∷ []

-- What `step_off` leaves of a state and no actions yet.
abbrev pub LeftOff : GovState → ℕ → GovState × List Action → Type 0
LeftOff old static (s, actions) =
    (s.state ≡ State.off)
    × (s.retry_at ≡ none)
    × (s.fallback_reason ≡ none)
    × (s.thermal_cap_w ≡ none)
    × (same_state old.state State.off ≡ true → (actions ≡ []) × (s.pl1_w ≡ old.pl1_w))
    × (same_state old.state State.off ≡ false → actions ≡ leaving old static)

abbrev in_state : GovState → State → Work
in_state s st = record { s = record s { state = st }; actions = [] }

step_off-LeftOff :
    (s : GovState) (now static : ℕ) (st : State)
    → let w = step_off now static (in_state s st) in
      LeftOff (record s { state = st }) static (w.s, w.actions)
unfolding step_off enter write same_state cap1 cap2
step_off-LeftOff s now static State.off = (refl, refl, refl, refl, (λ _. (refl, refl)), (λ e. cc))
step_off-LeftOff s now static _ = (refl, refl, refl, refl, (λ e. cc), (λ _. rw &&-false))

-- In the mode `off` a step ends in OFF, with no retry, no fallback reason and no thermal cap. From
-- OFF it asks for nothing; from any other state for the static cap (under the hard maximum and the
-- firmware's limits) once, and the event of the change.
pub step_off_lem :
    (state : GovState) (sample : Sample) (g : GovConfig) (now : ℕ)
    → g.mode ≡ Mode.off
    → LeftOff state g.static_cap_w (step state sample g now)
unfolding step governed_step begin cap1 cap2
step_off_lem state sample g now off =
    let w : Work = begin now state sample in
    subst
      (λ m.
        let w' = governed_step now g state sample m in
        LeftOff state g.static_cap_w (w'.s, w'.actions))
      (sym off) (step_off-LeftOff w.s now g.static_cap_w state.state)
