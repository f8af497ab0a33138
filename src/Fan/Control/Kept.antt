-- ===== src/Fan/Control/Kept.antt =====
-- What `FanController` of linux/turbomac/daemon/fans.py may write: the range of every write.
use mathlib.Core.Option.{some-injective}
use turbo_mac.Prelude.{
  ℕ, ◌≤◌, ◌≡◌, Option, none, some, List, [], ◌∷◌, arith, All, inl, inr, ◌⊎◌, if◌then◌else◌, greater,
  ◌==◌, if_keeps, option_keeps, holds, length,
}
use turbo_mac.Fan.{FanConfig}
use turbo_mac.Fan.Control.{
  Device, Fan, FanMode, auto, floor, Note, Sweep, Controller, clamp, top_rpm, write_floor, settle,
  apply_fan, apply_from, restore_fan, restore_to, restoring, sweep, start_sweep, apply, restore,
  set_mode, follow, tick, refresh, conclude, same_mode, too_soon,
}

-- The floor that is written for a target is at least the captured minimum. It is that minimum, or else
-- at most the target, `max_rpm` and the fan's own maximum, and equal to one of the three.
pub clamp-InRange :
    (lo mx target max_rpm : ℕ)
    → let r = clamp lo (some mx) target max_rpm in
      (lo ≤ r)
      × ((r ≡ lo)
          ⊎ ((r ≤ target) × (r ≤ max_rpm) × (r ≤ mx) × ((r ≡ target) ⊎ (r ≡ max_rpm) ⊎ (r ≡ mx))))
unfolding clamp top_rpm
clamp-InRange lo mx target max_rpm = (ground arith, ground arith)

clamp-Allowed :
    (lo : ℕ) (mx : Option ℕ) (target max_rpm : ℕ)
    → (lo ≤ clamp lo mx target max_rpm) × (clamp lo mx target max_rpm ≤ greater lo max_rpm)
unfolding clamp top_rpm
clamp-Allowed lo none target max_rpm = (ground arith, ground arith)
clamp-Allowed lo (some mx) target max_rpm = (ground arith, ground arith)

-- A fan's captured minimum, if it has one, is that of its number.
abbrev pub HasMinimum : (ℕ → ℕ) → Fan → Type 0
HasMinimum minimum f = (f.default ≡ none) ⊎ (f.default ≡ some (minimum f.n))

-- A property of the world that every write in the range keeps.
abbrev pub KeptBy : (d : Device) → (ℕ → ℕ) → ℕ → (d.World → Type 0) → Type 0
KeptBy d minimum max_rpm P =
    (n rpm : ℕ) (w : d.World)
    → minimum n ≤ rpm
    → rpm ≤ greater (minimum n) max_rpm
    → P w
    → P (d.write_min n rpm w).1

-- Of the controller and the world.
abbrev pub GoodPair : (d : Device) → (ℕ → ℕ) → (d.World → Type 0) → Controller × d.World → Type 0
GoodPair d minimum P r = All (HasMinimum minimum) r.0.fans × P r.1

module _ (d : Device) (minimum : ℕ → ℕ) (max_rpm : ℕ) (P : d.World → Type 0)
    (kept : KeptBy d minimum max_rpm P) where
  -- Of a fan and a sweep that a step leaves.
  abbrev Good : Fan × Sweep d.World → Type 0
  Good r = HasMinimum minimum r.0 × P r.1.world

  settle-Good :
      (f : Fan) (want : ℕ) (failed : Option (ℕ × ℕ)) (why : Note) (s : Sweep d.World)
      → HasMinimum minimum f
      → minimum f.n ≤ want
      → want ≤ greater (minimum f.n) max_rpm
      → P s.world
      → Good (settle d f want failed why s)
  unfolding settle write_floor
  settle-Good f want failed why s h low high p =
      let after = kept f.n want s.world low high p in
      option_keeps Good (write_floor d f want s.world).0 _ _ (h, after) (λ err. (h, after))

  -- The captured minimum is none or the one of the number.
  abbrev Known : Option ℕ → ℕ → Type 0
  Known o n = (o ≡ none) ⊎ (o ≡ some (minimum n))

  apply_from-Good :
      (o : Option ℕ) (target now : ℕ) (why : Note) (f : Fan) (s : Sweep d.World)
      → Known o f.n
      → HasMinimum minimum f
      → P s.world
      → Good (apply_from d o target max_rpm now why f s)
  unfolding apply_from
  apply_from-Good none target now why f s known h p = (h, p)
  apply_from-Good (some lo) target now why f s (inl e) h p = cc
  apply_from-Good (some lo) target now why f s (inr e) h p =
      let same : lo ≡ minimum f.n = some-injective _ _ e in
      let want = clamp lo f.max target max_rpm in
      let range = clamp-Allowed lo f.max target max_rpm in
      if_keeps Good (holds f.written want) _ _ (h, p)
        (if_keeps Good (too_soon f.failed want now) _ _ (h, p)
          (settle-Good f want _ why s h (ground (arith, same, range)) (ground (arith, same, range))
            p))

  restore_to-Good :
      (o : Option ℕ) (f : Fan) (s : Sweep d.World)
      → Known o f.n
      → HasMinimum minimum f
      → P s.world
      → Good (restore_to d o f s)
  unfolding restore_to
  restore_to-Good none f s known h p = (h, p)
  restore_to-Good (some lo) f s (inl e) h p = cc
  restore_to-Good (some lo) f s (inr e) h p =
      let same : lo ≡ minimum f.n = some-injective _ _ e in
      if_keeps Good (holds (d.read_min f.n s.world) lo) _ _ (h, p)
        (settle-Good f lo _ restoring s h (omega (arith, same)) (ground (arith, same)) p)

  -- Of the fans and the world.
  abbrev AllGood : List Fan × Sweep d.World → Type 0
  AllGood r = All (HasMinimum minimum) r.0 × P r.1.world

  sweep-AllGood :
      (step : Fan → Sweep d.World → Fan × Sweep d.World)
      → ((f : Fan) (s : Sweep d.World) → HasMinimum minimum f → P s.world → Good (step f s))
      → (fans : List Fan) (s : Sweep d.World) → All (HasMinimum minimum) fans
      → P s.world
      → AllGood (sweep d step fans s)
  unfolding sweep
  sweep-AllGood step good [] s all p = (tt, p)
  sweep-AllGood step good (f ∷ rest) s all p =
      let first = good f s all.0 p in
      let later = sweep-AllGood step good rest (step f s).1 all.1 first.1 in
      ((first.0, later.0), later.1)

  apply-GoodPair :
      (target : ℕ) (why : Note) (temp pkg : Option ℕ) (now : ℕ) (c : Controller) (w : d.World)
      → All (HasMinimum minimum) c.fans
      → P w
      → GoodPair d minimum P (apply d target max_rpm why temp pkg now c w)
  unfolding apply conclude
  apply-GoodPair target why temp pkg now c w all p =
      sweep-AllGood (apply_fan d target max_rpm now why)
        (λ f s h q. unfold apply_fan in apply_from-Good f.default target now why f s h h q) c.fans
        (start_sweep d w) all p

  restore-GoodPair :
      (now : ℕ) (c : Controller) (w : d.World)
      → All (HasMinimum minimum) c.fans
      → P w
      → All (HasMinimum minimum) (restore d now c w).0.fans × P (restore d now c w).1
  unfolding restore conclude
  restore-GoodPair now c w all p =
      sweep-AllGood (restore_fan d)
        (λ f s h q. unfold restore_fan in restore_to-Good f.default f s h h q) c.fans
        (start_sweep d w) all p

  set_mode-GoodPair :
      (mode : FanMode) (now : ℕ) (c : Controller) (w : d.World)
      → All (HasMinimum minimum) c.fans
      → P w
      → GoodPair d minimum P (set_mode d mode now c w)
  unfolding set_mode
  set_mode-GoodPair auto now c w all p = restore-GoodPair now _ w all p
  set_mode-GoodPair floor now c w all p = (all, p)

  refresh-HasMinimum :
      (w : d.World) (fans : List Fan)
      → All (HasMinimum minimum) fans
      → All (HasMinimum minimum) (refresh d w fans)
  unfolding refresh
  refresh-HasMinimum w [] all = tt
  refresh-HasMinimum w (f ∷ rest) all = (all.0, refresh-HasMinimum w rest all.1)

follow-GoodPair :
    (d : Device) (minimum : ℕ → ℕ) (P : d.World → Type 0) (cfg : FanConfig) (temp pkg : Option ℕ)
    (now : ℕ) (c : Controller) (w : d.World)
    → KeptBy d minimum cfg.max_rpm P
    → GoodPair d minimum P (c, w)
    → GoodPair d minimum P (follow d cfg temp pkg now c w)
unfolding follow
follow-GoodPair d minimum P cfg temp pkg now c w kept good =
    if_keeps (GoodPair d minimum P) (length c.fans == 0) _ _ good (
      if_keeps (GoodPair d minimum P) (same_mode floor c.mode) _ _
        (apply-GoodPair d minimum cfg.max_rpm P kept _ _ temp pkg now _ w good.0 good.1) good)

-- Every write of a tick is in range: for every property of the world that no write of a speed between
-- a fan's captured minimum and the larger of that minimum and `max_rpm` can break, if the captured
-- minimums of the controller are the ones meant, a tick keeps the property and the captured minimums,
-- in both modes, when the mode changes, and whatever the device answers.
pub tick-GoodPair :
    (d : Device) (minimum : ℕ → ℕ) (P : d.World → Type 0) (mode : FanMode) (cfg : FanConfig)
    (temp pkg : Option ℕ) (now : ℕ) (c : Controller) (w : d.World)
    → KeptBy d minimum cfg.max_rpm P
    → All (HasMinimum minimum) c.fans
    → P w
    → GoodPair d minimum P (tick d mode cfg temp pkg now c w)
unfolding tick
tick-GoodPair d minimum P mode cfg temp pkg now c w kept all p =
    let before : Controller × d.World =
      if same_mode mode c.mode then (c, w) else set_mode d mode now c w in
    let start : GoodPair d minimum P before =
      if_keeps (GoodPair d minimum P) (same_mode mode c.mode) (c, w) (set_mode d mode now c w)
        (all, p) (set_mode-GoodPair d minimum cfg.max_rpm P kept mode now c w all p) in
    follow-GoodPair d minimum P cfg temp pkg now _ before.1 kept
      (refresh-HasMinimum d minimum cfg.max_rpm P kept before.1 before.0.fans start.0, start.1)
