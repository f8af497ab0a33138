-- ===== src/Cap/Writes.antt =====
-- What `apply` in linux/turbomac/cap.py may write, however it ends.
use turbo_mac.Prelude.{
  ◌≡◌, sym, Bool, false, Option, some, inl, inr, if_keeps, option_keeps, Option-cases,
}
use mathlib.Core.Path.{subst}
use turbo_mac.Dict.{Dict}
use turbo_mac.Config.{Value}
use turbo_mac.Rapl.{Firmware}
use turbo_mac.Rapl.Capture.{Limits, load_or_capture_firmware}
use turbo_mac.Rapl.Captured.{IsTrusted, load_or_capture_firmware-IsTrusted}
use turbo_mac.Daemon.Settings.{Loaded, load}
use turbo_mac.Daemon.Powers.{KeptBy, apply_and_verify-Kept}
use turbo_mac.Cap.{Machine, End, apply_cap, apply_config, apply}

-- A property of the world that saving the firmware's limits does not break.
abbrev pub KeptBySave : (m : Machine) → (m.power.World → Type 0) → Type 0
KeptBySave m P = (fw : Firmware) (w w' : m.power.World) → m.store.save fw w ≡ some w' → P w → P w'

module _ (m : Machine) (P : m.power.World → Type 0) (kept : KeptBy m.power P)
    (saved : KeptBySave m P) where
  trusted-Kept :
      (force : Bool) (w : m.power.World) (l : Limits m.power.World)
      → IsTrusted m.power m.store force w (some l)
      → P w
      → P l.world
  trusted-Kept force w l (inl h) p = subst P (sym h.2) p
  trusted-Kept force w l (inr (top, inl e)) p = subst P (sym e) p
  trusted-Kept force w l (inr (top, inr h)) p = saved _ w l.world h.4 p

  load_or_capture_firmware-Kept :
      (force : Bool) (w : m.power.World) (l : Limits m.power.World)
      → load_or_capture_firmware m.power m.store force w ≡ some l
      → P w
      → P l.world
  load_or_capture_firmware-Kept force w l e = trusted-Kept force w l (
      subst (IsTrusted m.power m.store force w) e
        (load_or_capture_firmware-IsTrusted m.power m.store force w))

  apply_cap-Kept :
      (cfg : Dict Value) (fw : Option Firmware) (power : m.power.World) (gpu : m.gpu.World)
      → P power
      → P (apply_cap m cfg fw power gpu).power
  unfolding apply_cap
  apply_cap-Kept cfg fw power gpu p =
      option_keeps (λ (r : End m). P r.power) _ _ _ p
        (λ static. apply_and_verify-Kept m.power P kept static static fw power p)

  apply_config-Kept :
      (cfg : Dict Value) (power : m.power.World) (gpu : m.gpu.World)
      → P power
      → P (apply_config m cfg power gpu).power
  unfolding apply_config
  apply_config-Kept cfg power gpu p =
      if_keeps (λ (r : End m). P r.power) (m.available power) _ _
        (elim (Option-cases (load_or_capture_firmware m.power m.store false power)) [
          | inl e ↦ rw e p
          | inr (l, e) ↦ rw e (
              apply_cap-Kept cfg l.firmware l.world gpu
                (load_or_capture_firmware-Kept false power l e p))
        ])
        p

  -- However `apply` ends, by a status or an exception, and whatever the configuration file, the firmware's
  -- limits, the device and the card do, it writes no limit above 45 W: every property of the zone's world
  -- that is kept by each write of at most 45 W to one of the two limits, by the write of 1 to `enabled`,
  -- and by a save of the firmware's limits, holds after `apply` if it held before.
  pub apply-Kept :
      (file : Loaded) (power : m.power.World) (gpu : m.gpu.World)
      → P power
      → P (apply m file power gpu).power
  unfolding apply
  apply-Kept file power gpu p =
      option_keeps (λ (r : End m). P r.power) (load file) _ _ p
        (λ r. apply_config-Kept r.0 power gpu p)
