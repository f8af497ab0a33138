-- ===== src/Fan/Engages.antt =====
-- What `decide` of linux/turbomac/daemon/fans.py asks for: enough rpm, and no more than the maximum.
use mathlib.Core.Path.{subst}
use turbo_mac.Prelude.{
  ℕ, ◌≤◌, ◌<◌, ◌≡◌, refl, Bool, true, false, Option, none, some, List, [], ◌∷◌, ◌++◌, arith, inl,
  inr, ◌⊎◌, sym, if◌then◌else◌, ◌==◌, All, Bool-cases, is_some,
}
use turbo_mac.Fan.{
  FanState, FanConfig, Rung, Cause, decide, choose, best, next_state, temp_cands, power_cands,
  temp_rule, power_rule, met_from, ladder, rung,
}

-- The order of the ladder that the configuration's cross rules enforce.
abbrev pub Ordered : FanConfig → Type 0
Ordered cfg =
    (cfg.t1.at_c < cfg.t2.at_c)
    × (cfg.t2.at_c < cfg.t3.at_c)
    × (cfg.t1.rpm ≤ cfg.t2.rpm)
    × (cfg.t2.rpm ≤ cfg.t3.rpm)

-- A speed as far as the maximum allows it.
abbrev pub AtLeast : ℕ → FanConfig → ℕ → Type 0
AtLeast rpm cfg target = (rpm ≤ target) ⊎ (cfg.max_rpm ≤ target)

best-ge : (c : ℕ × Cause) (rest : List (ℕ × Cause)) → c.0 ≤ (best c rest).0
unfolding best
best-ge c [] = omega arith
best-ge c (d ∷ rest) = ground (arith, best-ge d rest, best-ge c rest)

choose-first :
    (new : FanState) (have : Bool) (cfg : FanConfig) (c : ℕ × Cause) (rest : List (ℕ × Cause))
    → AtLeast c.0 cfg (choose new have cfg (c ∷ rest)).target
unfolding choose
choose-first new have cfg c rest = ground (arith, best-ge c rest)

best-second : (c d : ℕ × Cause) → d.0 ≤ (best c (d ∷ [])).0
unfolding best
best-second c d = ground arith

choose-second :
    (new : FanState) (have : Bool) (cfg : FanConfig) (c d : ℕ × Cause)
    → AtLeast d.0 cfg (choose new have cfg (c ∷ d ∷ [])).target
unfolding choose
choose-second new have cfg c d = ground (arith, best-second c d)

choose-le :
    (new : FanState) (have : Bool) (cfg : FanConfig) (cands : List (ℕ × Cause))
    → (choose new have cfg cands).target ≤ cfg.max_rpm
unfolding choose
choose-le new have cfg [] = omega arith
choose-le new have cfg (c ∷ rest) = ground arith

choose-state :
    (new : FanState) (have : Bool) (cfg : FanConfig) (cands : List (ℕ × Cause))
    → (choose new have cfg cands).state ≡ new
unfolding choose
choose-state new have cfg [] = refl
choose-state new have cfg (c ∷ rest) = ground arith

pub decide-state :
    (s : FanState) (temp pkg : Option ℕ) (cfg : FanConfig) (now : ℕ)
    → (decide s temp pkg cfg now).state ≡ next_state s temp pkg cfg now
unfolding decide
decide-state s temp pkg cfg now = choose-state _ _ cfg _

pub met-le : (t : ℕ) (cfg : FanConfig) → met_from t 0 (ladder cfg) ≤ 3
unfolding met_from ladder
met-le t cfg = ground arith

pub temp_rule-level :
    (s : FanState) (temp : Option ℕ) (cfg : FanConfig) (now : ℕ)
    → s.level ≤ 3
    → (temp_rule s temp cfg now).0 ≤ 3
unfolding temp_rule
temp_rule-level s none cfg now h = omega arith
temp_rule-level s (some t) cfg now h = ground (arith, met-le t cfg)

-- The target is at most `max_rpm` whatever the state, and the ladder never counts more than its
-- three steps: a state whose level is at most 3 is followed by one whose level is at most 3.
pub decide-InRange :
    (s : FanState) (temp pkg : Option ℕ) (cfg : FanConfig) (now : ℕ)
    → s.level ≤ 3
    → ((decide s temp pkg cfg now).target ≤ cfg.max_rpm)
      × ((decide s temp pkg cfg now).state.level ≤ 3)
decide-InRange s temp pkg cfg now h = (
  unfold decide in choose-le _ _ cfg _,
  rw decide-state (unfold next_state in temp_rule-level s temp cfg now h),
)

temp_rule-ge-met :
    (s : FanState) (t : ℕ) (cfg : FanConfig) (now : ℕ)
    → s.level ≤ 3
    → met_from t 0 (ladder cfg) ≤ (temp_rule s (some t) cfg now).0
unfolding temp_rule
temp_rule-ge-met s t cfg now h = ground arith

positive : (n : ℕ) → 0 < n → (n == 0) ≡ false
positive n h = ground arith

choose-temp :
    (new : FanState) (t : ℕ) (pkg : Option ℕ) (cfg : FanConfig)
    → 0 < new.level
    → AtLeast
        (rung cfg new.level).rpm
        cfg
        (choose new true cfg
          (temp_cands new.level (some t) cfg ++ power_cands new.power_on pkg cfg)).target
unfolding temp_cands
choose-temp new t pkg cfg h = rw (positive new.level h) (choose-first new true cfg _ _)

-- The rung is above the temperature, or the target has its speed.
abbrev pub Honours : FanConfig → ℕ → ℕ → Rung → Type 0
Honours cfg t target r = (t < r.at_c) ⊎ AtLeast r.rpm cfg target

Honours-met_from :
    (cfg : FanConfig) (t target level : ℕ)
    → Ordered cfg
    → met_from t 0 (ladder cfg) ≤ level
    → level ≤ 3
    → ((0 < level) → AtLeast (rung cfg level).rpm cfg target)
    → All (Honours cfg t target) (ladder cfg)
unfolding ladder met_from rung
Honours-met_from cfg t target level h le top least =
    (ground (arith, h, least), (ground (arith, h, least), (ground (arith, h, least), tt)))

-- With the ladder in order and at most three steps engaged, whatever the state, the power and the
-- time are: for each step of the ladder the temperature is below its threshold, or the target is at
-- once its speed or more, or else `max_rpm`.
pub decide_hot :
    (s : FanState) (t : ℕ) (pkg : Option ℕ) (cfg : FanConfig) (now : ℕ)
    → Ordered cfg
    → s.level ≤ 3
    → All (Honours cfg t (decide s (some t) pkg cfg now).target) (ladder cfg)
unfolding decide
decide_hot s t pkg cfg now order h =
    let new = next_state s (some t) pkg cfg now in
    let ge : met_from t 0 (ladder cfg) ≤ new.level =
      unfold next_state in temp_rule-ge-met s t cfg now h in
    let le : new.level ≤ 3 = unfold next_state in temp_rule-level s (some t) cfg now h in
    Honours-met_from cfg t _ new.level order ge le (λ p. choose-temp new t pkg cfg p)

choose-power :
    (new : FanState) (level : ℕ) (have : Bool) (temp : Option ℕ) (w : ℕ) (cfg : FanConfig)
    → AtLeast cfg.power_floor_rpm cfg
        (choose new have cfg (temp_cands level temp cfg ++ power_cands true (some w) cfg)).target
unfolding temp_cands power_cands
choose-power new level have none w cfg = choose-first new have cfg _ _
choose-power new level have (some t) w cfg = elim (Bool-cases (level == 0)) [
  | inl e ↦ rw e (choose-first new have cfg _ _)
  | inr e ↦ rw e (choose-second new have cfg _ _)
]

-- Whatever the state, the temperature and the time are: a power at or above the floor's threshold
-- asks at once for the floor's speed or more, or else `max_rpm`.
pub decide_powered :
    (s : FanState) (temp : Option ℕ) (w : ℕ) (cfg : FanConfig) (now : ℕ)
    → cfg.power_floor_w ≤ w
    → AtLeast cfg.power_floor_rpm cfg (decide s temp (some w) cfg now).target
unfolding decide
decide_powered s temp w cfg now h =
    let new = next_state s temp (some w) cfg now in
    let on : new.power_on ≡ true = unfold next_state power_rule in ground arith in
    subst
      (λ b.
        AtLeast cfg.power_floor_rpm cfg
          (choose new (if is_some temp then true else is_some (some w)) cfg
            (temp_cands new.level temp cfg ++ power_cands b (some w) cfg)).target)
      (sym on) (choose-power new new.level _ temp w cfg)
