-- ===== src/Rapl/Captured.antt =====
-- Which limits `load_or_capture_firmware` of linux/turbomac/daemon/rapl.py trusts, and which it saves.
use turbo_mac.Prelude.{
  ℕ, ◌*◌, ◌≤◌, ◌≡◌, refl, Bool, true, false, ◌&&◌, not, Option, none, some, is_some, if◌then◌else◌,
  arith, Bool-cases, Option-cases, &&-left, &&-right, inl, inr, ◌⊎◌,
}
use turbo_mac.Governor.{hard_max_w}
use turbo_mac.Rapl.{Firmware, valid_firmware, positive_w, maxima}
use turbo_mac.Rapl.Port.{Device, read_limits}
use turbo_mac.Rapl.Capture.{
  Store, Limits, cap_active, replaced, captured, keep, capture, looks, load_or_capture_firmware,
}

module _ (d : Device) (store : Store d.World) where
  -- The file is there, it is looked at, and its dictionary is valid.
  abbrev pub HasFile : Bool → d.World → Type 0
  HasFile force w =
      (force ≡ false) × (store.exists w ≡ true) × (is_some (valid_firmware (store.load w)) ≡ true)

  -- Nothing is saved, or the limits that are returned, of a PL1 of 45 W or more.
  abbrev pub SavesHigh : d.World → Limits d.World → Type 0
  SavesHigh w r =
      (r.world ≡ w)
      ⊎ ((pl1 : ℕ) × (pl2 : ℕ) × (r.firmware ≡ some (captured pl1 pl2))
          × (hard_max_w ≤ pl1 * 1000)
          × (store.save (captured pl1 pl2) w ≡ some r.world))

  -- Limits of the file leave the world as it is; other limits do not lower the maximum of PL1.
  abbrev pub IsTrusted : Bool → d.World → Option (Limits d.World) → Type 0
  IsTrusted force w none = Unit {0}
  IsTrusted force w (some r) =
      (HasFile force w × (r.firmware ≡ store.load w) × (r.world ≡ w))
      ⊎ (((maxima hard_max_w r.firmware).0 ≡ hard_max_w) × SavesHigh w r)

  captured-maxima : (pl1 pl2 : ℕ) → (maxima hard_max_w (some (captured pl1 pl2))).0 ≡ hard_max_w
  unfolding maxima valid_firmware captured positive_w
  captured-maxima pl1 pl2 = ground arith

  not_low : (pl1 pl2 : ℕ) → (captured pl1 pl2).suspect ≡ false → hard_max_w ≤ pl1 * 1000
  unfolding captured
  not_low pl1 pl2 high = ground (arith, high)

  keep-IsTrusted :
      (force stale : Bool) (pl1 pl2 : ℕ) (w : d.World)
      → IsTrusted force w (keep d store stale (captured pl1 pl2) w)
  unfolding keep
  keep-IsTrusted force stale pl1 pl2 w = by_suspect (captured pl1 pl2).suspect refl
    where
      fw : Firmware
      fw = captured pl1 pl2

      by_suspect :
          (b : Bool)
          → fw.suspect ≡ b
          → IsTrusted force w (
              if b
              then some
                  (record { firmware = some fw; warning = some (cap_active stale); world = w })
              else elim (store.save fw w) [
                | none ↦ none
                | some w' ↦ some (record {
                  firmware = some fw;
                  warning = (if stale then some replaced else none);
                  world = w';
                })
              ])
      by_suspect true low = inr (captured-maxima pl1 pl2, inl refl)
      by_suspect false high = elim (Option-cases (store.save fw w)) [
        | inl refused ↦ rw refused tt
        | inr (w', saved) ↦
            rw saved
              (inr (captured-maxima pl1 pl2, inr (pl1, pl2, refl, not_low pl1 pl2 high, saved)))
      ]

  capture-IsTrusted :
      (force stale : Bool) (pl1 pl2 : Option ℕ) (w : d.World)
      → IsTrusted force w (capture d store stale pl1 pl2 w)
  unfolding capture maxima valid_firmware
  capture-IsTrusted force stale none pl2 w = inr (refl, inl refl)
  capture-IsTrusted force stale (some pl1) none w = inr (refl, inl refl)
  capture-IsTrusted force stale (some pl1) (some pl2) w = keep-IsTrusted force stale pl1 pl2 w

  -- The limits that are returned are those of a file with valid ones, and nothing changes; or they were
  -- read now, or could not be, and then they leave the maximum of PL1 at 45 W, and are saved only if the
  -- PL1 in force is 45 W or more: a cap that is already active is never taken for the firmware's limit.
  pub load_or_capture_firmware-IsTrusted :
      (force : Bool) (w : d.World) → IsTrusted force w (load_or_capture_firmware d store force w)
  unfolding load_or_capture_firmware
  load_or_capture_firmware-IsTrusted force w =
      let valid = is_some (valid_firmware (store.load w)) in
      let live = read_limits d w in
      elim (Bool-cases (looks d store force w && valid)) [
        | inr fresh ↦
            rw fresh (capture-IsTrusted force (looks d store force w) live.pl1_uw live.pl2_uw w)
        | inl from_file ↦
            let looked = &&-left (looks d store force w) valid from_file in
            rw from_file (
              inl (
                (
                  not_forced force (store.exists w) (unfold looks in looked),
                  unfold looks in &&-right (not force) (store.exists w) looked,
                  &&-right (looks d store force w) valid from_file,
                ),
                refl,
                refl,
              ))
      ]
    where
      not_forced : (b c : Bool) → (not b && c) ≡ true → b ≡ false
      not_forced true c h = cc
      not_forced false c h = refl
