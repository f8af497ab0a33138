-- ===== src/Cap/Safe.antt =====
-- What the exit status of `apply` in linux/turbomac/cap.py says, and what it may write.
use turbo_mac.Prelude.{
  ℕ, ◌+◌, ◌*◌, ◌≤◌, ◌≡◌, refl, ap, ◌∙◌, Bool, true, false, ◌&&◌, Option, none, some, is_some, List,
  [], ◌∷◌, String, arith, one, inl, inr, Option-cases, option_keeps, if_keeps,
}
use turbo_mac.Dict.{Dict, get}
use turbo_mac.Config.{Reason, Value, number, eps}
use turbo_mac.Governor.{hard_max_w}
use turbo_mac.Rapl.{Firmware, valid_firmware}
use turbo_mac.Rapl.Port.{apply_and_verify, read_limits}
use turbo_mac.Rapl.Capture.{
  Limits, keep, looks, capture as capture_limits, load_or_capture_firmware,
}
use turbo_mac.Rapl.Clamped.{clamp_limits-FirmwareAllows}
use turbo_mac.Rapl.Verified.{InForce, IsFaithful, apply_and_verify-Holds, apply_and_verify-ok}
use turbo_mac.Daemon.Settings.{Loaded, load, number_of}
use turbo_mac.Cap.Static.{load-IsCap}
use turbo_mac.Cap.{Machine, exited, End, status, apply_cap, apply_config, apply}

-- Limits of at most `top`, and at most 45 W, are in force in the world.
abbrev pub Capped : (m : Machine) → (top : ℕ) → m.power.World → Type 0
Capped m top w =
    (pl1 : ℕ) × (pl2 : ℕ) × InForce pl1 pl2 (read_limits m.power w) (m.power.pkg_limit w)
    × (pl1 ≤ top)
    × (pl2 ≤ top)
    × (pl1 ≤ hard_max_w)
    × (pl2 ≤ hard_max_w)

status-ok : (errs : List String) (ok : Bool) → status errs ok ≡ 0 → ok ≡ true
unfolding status
status-ok [] true h = refl
status-ok [] false h = ground (arith, h)
status-ok (x ∷ rest) ok h = ground (arith, h)

exited-injective : (a b : ℕ) → exited a ≡ exited b → a ≡ b
exited-injective a b h = cc

module _ (m : Machine) where
  verified-Capped :
      (static : ℕ) (fw : Option Firmware) (w : m.power.World)
      → (apply_and_verify m.power static static hard_max_w fw w).ok ≡ true
      → Capped m static (apply_and_verify m.power static static hard_max_w fw w).world
  unfolding apply_and_verify
  verified-Capped static fw w h =
      let rb = apply_and_verify m.power static static hard_max_w fw w in
      let good = apply_and_verify-Holds m.power static static hard_max_w fw w h in
      let fits = clamp_limits-FirmwareAllows static static hard_max_w fw in
      (rb.pl1_w, rb.pl2_w, good.0, fits.0.0, fits.1.0, good.3, good.4)

  apply_cap-Capped :
      (cfg : Dict Value) (static : ℕ) (fw : Option Firmware) (power : m.power.World)
      (gpu : m.gpu.World)
      → number_of (get "governor.static_cap_w" cfg) ≡ some static
      → (apply_cap m cfg fw power gpu).exit ≡ exited 0
      → Capped m static (apply_cap m cfg fw power gpu).power
  unfolding apply_cap
  apply_cap-Capped cfg static fw power gpu e h =
      let rb = apply_and_verify m.power static static hard_max_w fw power in
      rw (e, apply_cap)
        (verified-Capped static fw power
          (status-ok rb.write_errors rb.ok (exited-injective _ _ (rw (e, apply_cap) at h))))

  apply_config-Capped :
      (cfg : Dict Value) (static : ℕ) (power : m.power.World) (gpu : m.gpu.World)
      → number_of (get "governor.static_cap_w" cfg) ≡ some static
      → (apply_config m cfg power gpu).exit ≡ exited 0
      → Capped m static (apply_config m cfg power gpu).power
  unfolding apply_config
  apply_config-Capped cfg static power gpu e =
      if_keeps (λ (r : End m). r.exit ≡ exited 0 → Capped m static r.power) (m.available power) _ _
        (option_keeps (λ (r : End m). r.exit ≡ exited 0 → Capped m static r.power)
          (load_or_capture_firmware m.power m.store false power) _ _ (λ h. cc)
          (λ l h. apply_cap-Capped cfg static l.firmware l.world gpu e h))
        (λ h. absurd (omega (arith, exited-injective 2 0 h)))

  -- The configuration has the static cap, between 10 W and 45 W.
  abbrev pub IsStatic : Dict Value → ℕ → Type 0
  IsStatic cfg static =
      (get "governor.static_cap_w" cfg ≡ some (number static))
      × (10 * one ≤ static + eps)
      × (static ≤ 45 * one + eps)

  load-IsStatic :
      (file : Loaded) (r : Dict Value × Dict Reason)
      → load file ≡ some r
      → (static : ℕ) × IsStatic r.0 static
  load-IsStatic file r e =
      let c = load-IsCap file r e in (c.2.0, (c.1 ∙ ap some c.2.1, c.2.2, c.2.3))

  IsStatic-number_of :
      (cfg : Dict Value) (static : ℕ)
      → IsStatic cfg static
      → number_of (get "governor.static_cap_w" cfg) ≡ some static
  unfolding number_of
  IsStatic-number_of cfg static h = ap number_of h.0

  -- When `apply` exits with status 0, the configuration was loaded, its static cap is a number between
  -- 10 W and 45 W, up to the tolerance of the check, and the zone's files hold limits that are neither
  -- above that cap nor above 45 W, with the zone enabled and the MSR, where it can be read, agreeing:
  -- whatever the configuration file, the firmware's limits, the device and the card are.
  pub apply-Capped :
      (file : Loaded) (power : m.power.World) (gpu : m.gpu.World)
      → (apply m file power gpu).exit ≡ exited 0
      → (r : Dict Value × Dict Reason) × (static : ℕ) × (load file ≡ some r)
        × IsStatic r.0 static
        × Capped m static (apply m file power gpu).power
  unfolding apply
  apply-Capped file power gpu h = elim (Option-cases (load file)) [
    | inl bad ↦ cc (rw (bad, apply) at h)
    | inr (r, e) ↦
        let c = load-IsStatic file r e in
        (
          r,
          c.0,
          e,
          c.1,
          rw (e, apply)
              (apply_config-Capped r.0 c.0 power gpu (IsStatic-number_of r.0 c.0 c.1)
                (rw (e, apply) at h)),
        )
  ]

  -- Saving the firmware's limits always works.
  abbrev pub Saves : Type 0
  Saves = (fw : Firmware) (w : m.power.World) → is_some (m.store.save fw w) ≡ true

  keep-is_some :
      (saves : Saves) (stale : Bool) (fw : Firmware) (w : m.power.World)
      → is_some (keep m.power m.store stale fw w) ≡ true
  unfolding keep
  keep-is_some saves stale fw w =
      if_keeps (λ (o : Option (Limits m.power.World)). is_some o ≡ true) fw.suspect _ _ refl
        (elim (Option-cases (m.store.save fw w)) [
          | inl bad ↦ cc (bad, saves fw w)
          | inr (w', e) ↦ rw e refl
        ])

  capture-is_some :
      (saves : Saves) (stale : Bool) (pl1 pl2 : Option ℕ) (w : m.power.World)
      → is_some (capture_limits m.power m.store stale pl1 pl2 w) ≡ true
  unfolding capture_limits
  capture-is_some saves stale none pl2 w = refl
  capture-is_some saves stale (some pl1) none w = refl
  capture-is_some saves stale (some pl1) (some pl2) w = keep-is_some saves stale _ w

  load_or_capture_firmware-is_some :
      (saves : Saves) (w : m.power.World)
      → is_some (load_or_capture_firmware m.power m.store false w) ≡ true
  unfolding load_or_capture_firmware
  load_or_capture_firmware-is_some saves w =
      let look = looks m.power m.store false w in
      let live = read_limits m.power w in
      if_keeps (λ (o : Option (Limits m.power.World)). is_some o ≡ true)
        (look && is_some (valid_firmware (m.store.load w))) _ _ refl
        (capture-is_some saves look live.pl1_uw live.pl2_uw w)

  apply_cap-exited :
      (faithful : IsFaithful m.power) (cfg : Dict Value) (static : ℕ) (fw : Option Firmware)
      (power : m.power.World) (gpu : m.gpu.World)
      → number_of (get "governor.static_cap_w" cfg) ≡ some static
      → (apply_cap m cfg fw power gpu).exit ≡ exited 0
  unfolding apply_cap status
  apply_cap-exited faithful cfg static fw power gpu e =
      let ok =
        apply_and_verify-ok m.power faithful static static hard_max_w fw power (omega arith) in
      let good = apply_and_verify-Holds m.power static static hard_max_w fw power ok in
      rw (e, apply_cap, good.6, ok) refl

  -- `apply` does what it is for: if the writes of values that fit the field succeed and read back, the
  -- two limits rounded down to 1/8 W; if the MSR, where it can be read, follows the zone's files while the
  -- zone is enabled; if the zone is there, the firmware's limits can be saved, and `load` does not raise;
  -- then it exits with status 0, whatever else the configuration and the card are.
  pub apply-exited :
      (file : Loaded) (power : m.power.World) (gpu : m.gpu.World)
      → IsFaithful m.power
      → m.available power ≡ true
      → Saves
      → is_some (load file) ≡ true
      → (apply m file power gpu).exit ≡ exited 0
  unfolding apply apply_config
  apply-exited file power gpu faithful here saves loads = elim (Option-cases (load file)) [
    | inl bad ↦ cc (bad, loads)
    | inr (r, e) ↦ elim (Option-cases (load_or_capture_firmware m.power m.store false power)) [
      | inl bad ↦ cc (bad, load_or_capture_firmware-is_some saves power)
      | inr (l, found) ↦
          rw (e, apply, here, apply_config, found)
            (apply_cap-exited faithful r.0 _ l.firmware l.world gpu
              (IsStatic-number_of r.0 _ (load-IsStatic file r e).1))
    ]
  ]
