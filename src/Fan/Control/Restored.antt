-- ===== src/Fan/Control/Restored.antt =====
-- What the result of `FanController.restore` of linux/turbomac/daemon/fans.py means.
use turbo_mac.Prelude.{
  ℕ, ◌+◌, ◌≤◌, ◌≡◌, ◌==◌, refl, sym, String, Bool-cases, true, false, Option, none, some, List, [],
  ◌∷◌, arith, All, inl, inr, ◌⊎◌, ap, ◌∙◌, if_keeps, Option-cases, holds, length,
}
use turbo_mac.Fan.{initial}
use turbo_mac.Fan.Control.{
  Device, Fan, Sweep, Controller, settle, write_floor, restore_fan, restore_to, restoring, sweep,
  start_sweep, restore, conclude, check_readback, readback_tol_rpm, refused,
}

-- The fan's captured minimum, if it has one, is what fan{N}_min is known to hold.
abbrev pub IsRestored : Fan → Type 0
IsRestored f = (f.default ≡ none) ⊎ (f.written ≡ f.default)

-- A readback of fan{N}_min that agrees with `lo` within the tolerance.
abbrev pub Near : ℕ → Option ℕ → Type 0
Near lo o =
    (got : ℕ) × (o ≡ some got) × (got ≤ lo + readback_tol_rpm) × (lo ≤ got + readback_tol_rpm)

-- A write of a fan's minimum leaves what is read of the others.
abbrev pub Apart : Device → Type 0
Apart d =
    (n m rpm : ℕ) (w : d.World)
    → (n == m) ≡ false
    → d.read_min m (d.write_min n rpm w).1 ≡ d.read_min m w

-- No other fan of the list has the number of a fan.
abbrev pub Distinct : List Fan → Type 0
Distinct [] = Unit {0}
Distinct (f ∷ rest) = All (λ other. (other.n == f.n) ≡ false) rest × Distinct rest

check_readback-Near :
    (o : Option ℕ) (rpm : ℕ) (mx : Option ℕ) → check_readback o rpm mx ≡ none → Near rpm o
unfolding check_readback
check_readback-Near none rpm mx h = cc
check_readback-Near (some got) rpm mx h = (got, refl, ground (arith, h), ground (arith, h))

module _ (d : Device) where
  -- In the world, the fan's captured minimum, if it has one, is read of fan{N}_min.
  abbrev pub Holds : d.World → Fan → Type 0
  Holds w f = (f.default ≡ none) ⊎ ((lo : ℕ) × (f.default ≡ some lo) × Near lo (d.read_min f.n w))

  read-Near :
      (err : Option String) (got : Option ℕ) (rpm : ℕ) (mx : Option ℕ)
      → (elim err [ some e ↦ some (refused e) | none ↦ check_readback got rpm mx ]) ≡ none
      → Near rpm got
  read-Near none got rpm mx h = check_readback-Near got rpm mx h
  read-Near (some e) got rpm mx h = cc

  write_floor-Near :
      (f : Fan) (rpm : ℕ) (w : d.World)
      → (write_floor d f rpm w).0 ≡ none
      → Near rpm (d.read_min f.n (write_floor d f rpm w).1)
  unfolding write_floor
  write_floor-Near f rpm w h =
      let r = d.write_min f.n rpm w in read-Near r.0 (d.read_min f.n r.1) rpm f.max h

  -- A step that ends well found all well before it, and restored its fan.
  abbrev Ends : Fan → Sweep d.World → Fan × Sweep d.World → Type 0
  Ends f s r =
      (r.1.ok ≡ false)
      ⊎ ((s.ok ≡ r.1.ok) × (s.errors ≡ r.1.errors) × IsRestored r.0 × Holds r.1.world f)

  settle-Ends :
      (o : ℕ) (f : Fan) (s : Sweep d.World)
      → f.default ≡ some o
      → Ends f s (settle d f o f.failed restoring s)
  unfolding settle
  settle-Ends o f s e = elim (Option-cases (write_floor d f o s.world).0) [
    | inl clean ↦
        let near = write_floor-Near f o s.world clean in
        rw (clean, settle) (inr (refl, refl, inr (sym e), inr (o, e, near)))
    | inr (err, failed) ↦ rw (failed, settle) (inl refl)
  ]

  holds-Near : (o : Option ℕ) (lo : ℕ) → holds o lo ≡ true → Near lo o
  holds-Near none lo h = cc
  holds-Near (some got) lo h = (got, refl, ground (arith, h), ground (arith, h))

  restore_to-Ends :
      (o : Option ℕ) (f : Fan) (s : Sweep d.World) → f.default ≡ o → Ends f s (restore_to d o f s)
  unfolding restore_to
  restore_to-Ends none f s e = inr (refl, refl, inl e, inl e)
  restore_to-Ends (some lo) f s e = elim (Bool-cases (holds (d.read_min f.n s.world) lo)) [
    | inl there ↦
        let near = holds-Near (d.read_min f.n s.world) lo there in
        rw (there, restore_to) (inr (refl, refl, inr (sym e), inr (lo, e, near)))
    | inr other ↦ rw (other, restore_to) (settle-Ends lo f s e)
  ]

  module _ (apart : Apart d) where
    settle-keeps :
        (m o : ℕ) (f : Fan) (s : Sweep d.World)
        → (f.n == m) ≡ false
        → d.read_min m (settle d f o f.failed restoring s).1.world ≡ d.read_min m s.world
    unfolding settle write_floor
    settle-keeps m o f s h = elim (Option-cases (write_floor d f o s.world).0) [
      | inl clean ↦ rw (clean, settle) (apart f.n m o s.world h)
      | inr (err, failed) ↦ rw (failed, settle) (apart f.n m o s.world h)
    ]

    restore_fan-keeps :
        (m : ℕ) (f : Fan) (s : Sweep d.World)
        → (f.n == m) ≡ false
        → d.read_min m (restore_fan d f s).1.world ≡ d.read_min m s.world
    unfolding restore_fan restore_to
    restore_fan-keeps m f s h = by_default f.default
      where
        by_default :
            (o : Option ℕ) → d.read_min m (restore_to d o f s).1.world ≡ d.read_min m s.world
        by_default none = refl
        by_default (some lo) =
            if_keeps (λ (r : Fan × Sweep d.World). d.read_min m r.1.world ≡ d.read_min m s.world)
              (holds (d.read_min f.n s.world) lo) _ _ refl (settle-keeps m lo f s h)

    sweep-keeps :
        (m : ℕ) (fans : List Fan) (s : Sweep d.World)
        → All (λ f. (f.n == m) ≡ false) fans
        → d.read_min m (sweep d (restore_fan d) fans s).1.world ≡ d.read_min m s.world
    unfolding sweep
    sweep-keeps m [] s h = refl
    sweep-keeps m (f ∷ rest) s (h, hs) =
        sweep-keeps m rest (restore_fan d f s).1 hs ∙ restore_fan-keeps m f s h

    Holds-Same :
        (f : Fan) (w w' : d.World) → d.read_min f.n w' ≡ d.read_min f.n w → Holds w f → Holds w' f
    Holds-Same f w w' same (inl e) = inl e
    Holds-Same f w w' same (inr (lo, e, (got, read, up, down))) =
        inr (lo, e, (got, same ∙ read, up, down))

    sweep-IsRestored :
        (fans : List Fan) (s : Sweep d.World)
        → Distinct fans
        → (sweep d (restore_fan d) fans s).1.ok ≡ true
        → (s.ok ≡ true)
          × ((sweep d (restore_fan d) fans s).1.errors ≡ s.errors)
          × All IsRestored (sweep d (restore_fan d) fans s).0
          × All (Holds (sweep d (restore_fan d) fans s).1.world) fans
    unfolding sweep restore_fan
    sweep-IsRestored [] s distinct h = (h, refl, tt, tt)
    sweep-IsRestored (f ∷ rest) s (others, distinct) h =
        let next = restore_fan d f s in
        let later = sweep-IsRestored rest next.1 distinct h in
        let same = sweep-keeps f.n rest next.1 others in
        elim (restore_to-Ends f.default f s refl) [
          | inl bad ↦ cc
          | inr (ok, errs, good, held) ↦ (
            ok ∙ later.0,
            later.1 ∙ sym errs,
            (good, later.2),
            (Holds-Same f next.1.world _ same held, later.3),
          )
        ]

    -- On a device where a write of one fan's minimum leaves what is read of the others, and with fans of
    -- distinct numbers: when `restore` returns true, then in the world that it leaves fan{N}_min of each
    -- fan with a captured minimum reads within 50 rpm of it, and the controller notes that the fan holds
    -- it; no error was counted, the fan state is the initial one and the target 0.
    pub restore-IsRestored :
        (now : ℕ) (c : Controller) (w : d.World)
        → Distinct c.fans
        → (restore d now c w).2 ≡ true
        → All (Holds (restore d now c w).1) c.fans
          × All IsRestored (restore d now c w).0.fans
          × ((restore d now c w).0.write_errors ≡ c.write_errors)
          × ((restore d now c w).0.state ≡ initial)
          × ((restore d now c w).0.target_rpm ≡ 0)
    unfolding restore conclude
    restore-IsRestored now c w distinct h =
        let r = sweep-IsRestored c.fans (start_sweep d w) distinct h in
        let none_counted : length (sweep d (restore_fan d) c.fans (start_sweep d w)).1.errors ≡ 0 =
          ap length r.1 in
        (r.3, r.2, omega (arith, none_counted), refl, refl)
