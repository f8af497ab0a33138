-- ===== src/Governor/Control.antt =====
-- The dynamic mode of `step` in linux/turbomac/daemon/governor.py: the rules that choose PL1, and
-- the whole step.
use turbo_mac.Prelude.{
  ℕ, ◌+◌, ◌-◌, Bool, false, ◌&&◌, ◌||◌, not, Option, none, some, List, leb, ltb, if◌then◌else◌,
  lesser, greater, is_none,
}
use turbo_mac.Governor.{
  State, Mode, same_state, because, GovState, GovConfig, Sample, emergency_seen, cut, recover,
  Action, readings, Thresholds, thresholds, cut_min_interval_s, emergency_hold_s,
}
use turbo_mac.Governor.Working.{Work, emit, elapsed, cap1, fallback_w, enter, write, thermal}
use turbo_mac.Governor.Step.{
  reached, round_w, round_th, Flow, returned, goes_on, begin, step_off, check_readback, check_retry,
  retries, step_static, is_stale, step_stale,
}

-- The local variables `new` and `pl1`, and the working copy.
pub record Choice : Type 0 where
  pub new : State
  pub pl1 : ℕ
  pub work : Work

-- A power limit that may be missing, with what stands for it then.
unfoldable pub held : Option ℕ → ℕ → ℕ
held none other = other
held (some limit) other = limit

unfoldable pub top_state : ℕ → ℕ → State
top_state pl1 top = if leb top pl1 then State.normal else State.trim

module _ (now : ℕ) (g : GovConfig) where
  -- Rule 2: the input has reached the emergency band.
  unfoldable pub rule_emergency : (pdtr floor : ℕ) → Thresholds → Choice → Choice
  rule_emergency pdtr floor th c =
      let w = c.work in
      let w1 =
        if same_state w.s.state State.emergency
        then w
        else emit (emergency_seen (round_w pdtr) (round_th th.emergency_w) floor false) (record w {
          s = record w.s {
            counters = record w.s.counters { emergencies = w.s.counters.emergencies + 1 };
          };
        }) in
      record {
        new = State.emergency;
        pl1 = floor;
        work = record w1 {
          s = record w1.s { below_shed_since = none; below_recover_since = none };
        };
      }

  -- Rule 3: the mean input has reached the shed band.
  unfoldable pub rule_shed : (mean floor : ℕ) → Thresholds → Choice → Choice
  rule_shed mean floor th c =
      let s = c.work.s in
      let w1 = record c.work {
        s = record s { below_shed_since = none; below_recover_since = none };
      } in
      let lower = greater floor (c.pl1 - g.cut_step_w) in
      if same_state s.state State.emergency
      then record c { work = w1 }
      else if elapsed now s.last_cut cut_min_interval_s && ltb floor c.pl1
      then record {
        new = State.trim;
        pl1 = lower;
        work = emit (cut c.pl1 lower (round_w mean) (round_th th.shed_w)) (record w1 {
          s = record w1.s {
            last_cut = some now;
            counters = record s.counters { cuts = s.counters.cuts + 1 };
          };
        });
      }
      else record { new = State.trim; pl1 = c.pl1; work = w1 }

  -- Rule 4: below the recover band long enough, PL1 goes up one step.
  unfoldable pub rule_recover : (mean ceiling : ℕ) → Thresholds → Choice → Choice
  rule_recover mean ceiling th c =
      let w = c.work in
      let higher = lesser ceiling (c.pl1 + g.recover_step_w) in
      if reached mean th.recover_w
      then record c { work = record w { s = record w.s { below_recover_since = none } } }
      else elim w.s.below_recover_since [
        | none ↦ record c { work = record w { s = record w.s { below_recover_since = some now } } }
        | some since ↦
            if elapsed now (some since) g.recover_interval_s && ltb c.pl1 ceiling
            then record {
              new = c.new;
              pl1 = higher;
              work = emit (recover c.pl1 higher (round_w mean)) (record w {
                s = record w.s {
                  below_recover_since = some now;
                  counters = record w.s.counters { recoveries = w.s.counters.recoveries + 1 };
                };
              });
            }
            else c
      ]

  -- Rules 4 and 5: the mean input is below the shed band.
  unfoldable pub rule_clear : (mean ceiling top : ℕ) → Thresholds → Choice → Choice
  rule_clear mean ceiling top th c =
      let w = c.work in
      let since = held w.s.below_shed_since now in
      let w1 = record w { s = record w.s { below_shed_since = some since } } in
      if same_state w.s.state State.emergency
      then (if elapsed now (some since) emergency_hold_s
          then record {
            new = State.trim;
            pl1 = c.pl1;
            work = record w1 { s = record w1.s { below_recover_since = none } };
          }
          else record c { work = w1 })
      else (let c1 = rule_recover mean ceiling th (record c { work = w1 }) in
          record c1 { new = top_state c1.pl1 top })

  -- The rule of the band that the input is in.
  unfoldable pub by_band : (pdtr mean floor ceiling top : ℕ) → Thresholds → Choice → Choice
  by_band pdtr mean floor ceiling top th c =
      if reached pdtr th.emergency_w
      then rule_emergency pdtr floor th c
      else if reached mean th.shed_w
      then rule_shed mean floor th c
      else rule_clear mean ceiling top th c

  -- Without a valid sample no rule applies.
  unfoldable pub apply_rules : (floor ceiling top : ℕ) → Sample → Choice → Choice
  apply_rules floor ceiling top sample c = elim (readings sample) [
    | none ↦ c
    | some (pdtr, acpw) ↦
        by_band pdtr (held sample.input_mean_1s pdtr) floor ceiling top (thresholds acpw g) c
  ]

  unfoldable pub floor_of : ℕ → ℕ
  floor_of static = lesser g.floor_w static

  unfoldable pub top_of : ℕ → GovState → ℕ
  top_of static s = cap1 (greater g.ceiling_w static) s

  -- NORMAL, TRIM and EMERGENCY with a commanded limit carry on; any other state resumes.
  unfoldable pub resumes : GovState → Bool
  resumes s =
      not (
        same_state s.state State.normal
        || same_state s.state State.trim
        || same_state s.state State.emergency)
      || is_none s.pl1_w

  unfoldable pub start_pl1 : ℕ → GovState → ℕ
  start_pl1 static s =
      if resumes s
      then (if same_state s.state State.fallback then fallback_w static s else static)
      else held s.pl1_w static

  -- `new` and `pl1` before the rules.
  unfoldable pub start : (static floor ceiling top : ℕ) → Work → Choice
  start static floor ceiling top w =
      let pl1 = lesser (greater (start_pl1 static w.s) floor) ceiling in
      record { new = if resumes w.s then top_state pl1 top else w.s.state; pl1 = pl1; work = w }

  -- The new state, and the write.
  unfoldable pub finish : Bool → Choice → Work
  finish force c =
      let w1 = record c.work { s = record c.work.s { fallback_reason = none } } in
      let w2 = enter now c.new none w1 in
      let bursts = same_state c.new State.normal || same_state c.new State.trim in
      write now c.pl1 (if bursts then c.pl1 + g.burst_w else c.pl1) (because c.new) force w2

  unfoldable pub control : Bool → Sample → ℕ → Work → Work
  control force sample static w =
      let floor = floor_of static in
      let top = top_of static w.s in
      let (ceiling, w1) = thermal now g sample.pkg_c floor top w in
      finish (force || resumes w1.s)
        (apply_rules floor ceiling top sample (start static floor ceiling top w1))

  dynamic_step : Bool → Bool → Sample → ℕ → Work → Work
  dynamic_step force retried sample static w =
      if is_stale now g w.s
      then step_stale now g retried static w
      else control force sample static w

  -- The modes `static` and `dynamic`, after the readback and the retry.
  unfoldable pub act : Mode → Bool → Bool → Sample → ℕ → Work → Work
  unfolding dynamic_step
  act Mode.dynamic force retried sample static w = dynamic_step force retried sample static w
  act _ force retried sample static w = step_static now force static w

  unfoldable pub after_retry : Bool → Bool → Sample → ℕ → Flow → Work
  after_retry force retried sample static (returned w) = w
  after_retry force retried sample static (goes_on w) = act g.mode force retried sample static w

  unfoldable pub after_readback : Bool → Sample → ℕ → Flow → Work
  after_readback force sample static (returned w) = w
  after_readback force sample static (goes_on w) =
      after_retry force (retries now w.s) sample static (check_retry now g sample static w)

  unfoldable pub governed_step : GovState → Sample → Mode → Work
  governed_step state sample Mode.off = step_off now g.static_cap_w (begin now state sample)
  governed_step state sample _ =
      let force = same_state state.state State.off || same_state state.state State.fallback in
      after_readback force sample g.static_cap_w
        (check_readback now sample.readback g.static_cap_w (begin now state sample))

unfoldable pub step : GovState → Sample → GovConfig → ℕ → GovState × List Action
step state sample g now = let w = governed_step now g state sample g.mode in (w.s, w.actions)
