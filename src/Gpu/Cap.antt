-- ===== src/Gpu/Cap.antt =====
-- What `_set_cap_dpm` and `_apply_on` of linux/turbomac/daemon/gpu.py leave on the card.
use text.Mathlib.TextEquality.{eq_iff}
use turbo_mac.Prelude.{
  ℕ, ◌+◌, ◌*◌, ◌≤◌, ◌<◌, ◌≡◌, refl, Bool, true, false, Option, none, some, inl, inr, ◌⊎◌,
  Bool-cases, Option-cases, arith, if◌then◌else◌, is_none, one, String, round_div, or_default,
}
use turbo_mac.Gpu.{
  GpuMode, auto, low, off, Device, Gpu, Outcome, Error, apply_mode, turn_on, apply_on, apply_found,
  set_cap_dpm, check_cap, bounded_cap, located, cannot_find, dis_off, power_on, low_cap_w,
}

-- What was read back: a cap, in microwatts, less than a watt from the one wanted, and the level.
abbrev pub ReadBack : (cap : ℕ) → String → Option ℕ → Option String → Type 0
ReadBack cap level cap_uw lvl =
    (got : ℕ) × (cap_uw ≡ some got)
    × (got * 1000 < cap + one)
    × (cap < got * 1000 + one)
    × (lvl ≡ some level)

check_cap-ReadBack :
    (d : Device) (cap : ℕ) (level : String) (cap_uw : Option ℕ) (lvl : Option String)
    → check_cap d cap level cap_uw lvl ≡ none
    → ReadBack cap level cap_uw lvl
unfolding check_cap
check_cap-ReadBack d cap level none lvl h = cc
check_cap-ReadBack d cap level (some got) none h = ground (arith, h)
check_cap-ReadBack d cap level (some got) (some l) h =
    (got, refl, ground (arith, h), ground (arith, h), ground (arith, h, eq_iff l level))

module _ (d : Device) where
  -- The limits that the card reports bound the cap, where they are in order.
  bounded_cap-le :
      (cap_w : ℕ) (w : d.World)
      → bounded_cap d cap_w w ≤ or_default (d.read_cap_max w) 35_000_000 * 1000
  unfolding bounded_cap
  bounded_cap-le cap_w w = ground arith

  -- The device after a change that reported no error, from the world `w` before it.
  abbrev pub Applied : ℕ → String → d.World → d.World → Type 0
  Applied cap_w level w w' =
      (bounded_cap d cap_w w ≤ or_default (d.read_cap_max w) 35_000_000 * 1000)
      × ReadBack (bounded_cap d cap_w w) level (d.read_cap w') (d.read_level w')

  set_cap_dpm-Applied :
      (cap_w : ℕ) (level : String) (w : d.World)
      → (set_cap_dpm d cap_w level w).0 ≡ none
      → Applied cap_w level w (set_cap_dpm d cap_w level w).1
  unfolding set_cap_dpm
  set_cap_dpm-Applied cap_w level w h =
      let cap = bounded_cap d cap_w w in
      let first = d.write_cap (round_div cap 1000) w in
      elim (Option-cases first.0) [
        | inr (err, e) ↦ cc (rw (e, set_cap_dpm) at h)
        | inl e ↦ elim (Option-cases (d.write_level level first.1).0) [
          | inr (err, e') ↦ cc (rw (e, set_cap_dpm, e') at h)
          | inl e' ↦
              rw (e, set_cap_dpm, e')
                (
                  bounded_cap-le cap_w w,
                  check_cap-ReadBack d cap level _ _ (rw (e, set_cap_dpm, e') at h),
                )
        ]
      ]

  -- The cap and the level of a mode.
  abbrev pub cap_of : GpuMode → ℕ → ℕ
  cap_of low cap_w = low_cap_w
  cap_of auto cap_w = cap_w
  cap_of off cap_w = cap_w

  abbrev pub level_of : GpuMode → String
  level_of low = "low"
  level_of auto = "auto"
  level_of off = "auto"

  -- The world in which the cap is written: the card is powered on first if it is off.
  abbrev pub powered : d.World → d.World
  powered w = if dis_off d w then power_on d w else w

  apply_found_known :
      (m : GpuMode) (cap_w : ℕ) (g : Gpu) (w : d.World)
      → g.hwmon ≡ true
      → (apply_found d m cap_w g false w).0 ≡ none
      → Applied (cap_of m cap_w) (level_of m) w (apply_found d m cap_w g false w).2
  unfolding apply_found
  apply_found_known low cap_w g w e h =
      rw (e, apply_found) (set_cap_dpm-Applied low_cap_w "low" w (rw (e, apply_found) at h))
  apply_found_known auto cap_w g w e h =
      rw (e, apply_found) (set_cap_dpm-Applied cap_w "auto" w (rw (e, apply_found) at h))
  apply_found_known off cap_w g w e h =
      rw (e, apply_found) (set_cap_dpm-Applied cap_w "auto" w (rw (e, apply_found) at h))

  apply_found-Applied :
      (mode : GpuMode) (cap_w : ℕ) (g : Gpu) (missing : Bool) (w : d.World)
      → (apply_found d mode cap_w g missing w).0 ≡ none
      → Applied (cap_of mode cap_w) (level_of mode) w (apply_found d mode cap_w g missing w).2
  unfolding apply_found
  apply_found-Applied mode cap_w g true w h = cc
  apply_found-Applied mode cap_w g false w h = elim (Bool-cases g.hwmon) [
    | inr e ↦ cc (rw (e, apply_found) at h)
    | inl e ↦ apply_found_known mode cap_w g w e h
  ]

  ok-none : (o : Option Error) → is_none o ≡ true → o ≡ none
  ok-none none h = refl
  ok-none (some e) h = cc

  -- The mode kept is the one asked for, and the device holds its cap and level.
  abbrev pub Done : GpuMode → ℕ → d.World → Outcome × Gpu × d.World → Type 0
  Done mode cap_w w r =
      (r.1.mode ≡ some mode) × Applied (cap_of mode cap_w) (level_of mode) (powered w) r.2

  turn_on-Done :
      (mode : GpuMode) (cap_w : ℕ) (g : Gpu) (w : d.World)
      → (turn_on d mode cap_w g w).0.ok ≡ true
      → Done mode cap_w w (turn_on d mode cap_w g w)
  unfolding turn_on apply_on
  turn_on-Done mode cap_w g w h = (
    refl,
    (apply_found-Applied mode cap_w (located d g (powered w)) (cannot_find d g (powered w))
        (powered w) (ok-none _ h)),
  )

  -- On every device: when a request for `auto` or `low` is reported ok, the mode that is kept is the
  -- one asked for; the cap of the mode (10 W for `low`), brought between the limits that the powered
  -- card reports, is at most the larger of them; and on the device that is left the cap reads within a
  -- watt of it and the level reads as the mode's.
  pub apply_mode-Done :
      (mode : GpuMode) (cap_w : ℕ) (g : Gpu) (w : d.World)
      → (mode ≡ auto) ⊎ (mode ≡ low)
      → (apply_mode d mode cap_w g w).0.ok ≡ true
      → Done mode cap_w w (apply_mode d mode cap_w g w)
  unfolding apply_mode
  apply_mode-Done auto cap_w g w m h = turn_on-Done auto cap_w (located d g w) w h
  apply_mode-Done low cap_w g w m h = turn_on-Done low cap_w (located d g w) w h
  apply_mode-Done off cap_w g w (inl e) h = cc
  apply_mode-Done off cap_w g w (inr e) h = cc
