-- ===== src/Rapl/Capture.antt =====
-- `load_or_capture_firmware` of linux/turbomac/daemon/rapl.py: the limits of the firmware, from their file
-- or from the limits in force before any is written. Of the dictionary the entries are kept that the clamp
-- reads. The file is a parameter.
use turbo_mac.Prelude.{ℕ, ◌*◌, Bool, ◌&&◌, not, Option, none, some, is_some, if◌then◌else◌, ltb}
use turbo_mac.Config.{number}
use turbo_mac.Governor.{hard_max_w}
use turbo_mac.Rapl.{Firmware, valid_firmware}
use turbo_mac.Rapl.Port.{Device, read_limits}

-- `load` is the dictionary of the file, none if it is unreadable or no dictionary; `save` gives none for
-- an OSError.
pub record Store (World : Type 0) : Type 0 where
  pub exists : World → Bool
  pub load : World → Option Firmware
  pub save : Firmware → World → Option World

pub data Warning : Type 0 where
  unreadable : (stale : Bool) → Warning
  cap_active : (stale : Bool) → Warning
  replaced : Warning

pub record Limits (World : Type 0) : Type 0 where
  pub firmware : Option Firmware
  pub warning : Option Warning
  pub world : World

-- `data` of a live capture, with `suspect` where it is set.
unfoldable pub captured : (pl1_uw pl2_uw : ℕ) → Firmware
captured pl1_uw pl2_uw = record {
  suspect = ltb (pl1_uw * 1000) hard_max_w;
  pl1_w = some (number (pl1_uw * 1000));
  pl2_w = some (number (pl2_uw * 1000));
}

module _ (d : Device) (store : Store d.World) where
  -- The end of the function, for a capture.
  unfoldable pub keep : (stale : Bool) → Firmware → d.World → Option (Limits d.World)
  keep stale fw w =
      if fw.suspect
      then some (record { firmware = some fw; warning = some (cap_active stale); world = w })
      else elim (store.save fw w) [
        | none ↦ none
        | some w' ↦ some (record {
          firmware = some fw;
          warning = (if stale then some replaced else none);
          world = w';
        })
      ]

  unfoldable pub capture :
      (stale : Bool) → (pl1_uw pl2_uw : Option ℕ) → d.World → Option (Limits d.World)
  capture stale (some pl1_uw) (some pl2_uw) w = keep stale (captured pl1_uw pl2_uw) w
  capture stale _ _ w =
      some (record { firmware = none; warning = some (unreadable stale); world = w })

  -- `not force and os.path.exists(path)`
  unfoldable pub looks : (force : Bool) → d.World → Bool
  looks force w = not force && store.exists w

  -- None if the capture cannot be saved.
  unfoldable pub load_or_capture_firmware : (force : Bool) → d.World → Option (Limits d.World)
  load_or_capture_firmware force w =
      let live = read_limits d w in
      let fresh = capture (looks force w) live.pl1_uw live.pl2_uw w in
      if looks force w && is_some (valid_firmware (store.load w))
      then some (record { firmware = store.load w; warning = none; world = w })
      else fresh
