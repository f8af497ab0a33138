-- ===== src/Gpu.antt =====
-- linux/turbomac/daemon/gpu.py: the change of the graphics card's mode, `Gpu.apply_mode` and what it
-- calls. Powers are in nanowatts. sysfs, vga_switcheroo and `sleep` are a parameter, the device; every
-- error is its text. The lock and the list `steps` (a log of texts) are not kept.
pub mod Off
pub mod Cap
pub mod Tests
use text.Mathlib.Text.{◌==◌ as str_eq}
use turbo_mac.Prelude.{
  ℕ, ◌+◌, ◌*◌, Bool, true, false, Option, none, some, List, [], ◌∷◌, ◌++◌, leb, ltb, String,
  if◌then◌else◌, one, lesser, greater, round_div, or_default, not, is_none,
}

pub data GpuMode : Type 0 where
  auto low off : GpuMode

-- `parse_switcheroo`, where it is needed: the power of DIS, and whether IGD is listed.
pub record Switcheroo : Type 0 where
  pub dis : Option String
  pub igd : Bool

-- `find` is the search for the card: none if there is none, else whether it has a hwmon directory.
-- `consoles` lists the vtconsoles, each with whether its name has "frame buffer".
pub record Device : Type 1 where
  pub World : Type 0
  pub find : World → Option Bool
  pub switcheroo : World → Option Switcheroo
  pub power_state : World → Option String
  pub consoles : World → List (ℕ × Bool)
  pub write_bind : ℕ → String → World → Option String × World
  pub write_switcheroo : String → World → Option String × World
  pub write_cap : ℕ → World → Option String × World
  pub write_level : String → World → Option String × World
  pub read_cap_min : World → Option ℕ
  pub read_cap_max : World → Option ℕ
  pub read_cap : World → Option ℕ
  pub read_level : World → Option String
  pub sleep : World → World

-- `dev` and `hwmon` are whether they are known.
pub record Gpu : Type 0 where
  pub dev : Bool
  pub hwmon : Bool
  pub mode : Option GpuMode

pub data Error : Type 0 where
  refused : String → Error
  no_console no_switcheroo not_off still_d0 no_device no_hwmon cap_differs level_differs : Error

-- The entries of `done`.
pub record Done : Type 0 where
  pub fbcon : Bool
  pub switched : Bool

pub record Outcome : Type 0 where
  pub ok : Bool
  pub mode : GpuMode
  pub error : Option Error
  pub revert_error : Option Error

abbrev pub low_cap_w : ℕ
low_cap_w = 10 * one

unfoldable pub refusal : Option String → Option Error
refusal none = none
refusal (some e) = some (refused e)

-- `sw.get("DIS", {}).get("power") == "Off"`
unfoldable pub is_off : Option Switcheroo → Bool
is_off none = false
is_off (some sw) = elim sw.dis [ none ↦ false | some power ↦ str_eq power "Off" ]

-- The test on the switcheroo at the start of `_apply_off`.
unfoldable pub lacks : Option Switcheroo → Bool
lacks none = true
lacks (some sw) = elim sw.dis [ none ↦ true | some power ↦ not sw.igd ]

module _ (d : Device) where
  unfoldable pub bind_first : List (ℕ × Bool) → String → d.World → Option Error × d.World
  bind_first [] value w = (some no_console, w)
  bind_first ((vt, buffer) ∷ rest) value w =
      let next = bind_first rest value w in
      let r = d.write_bind vt value w in if buffer then (refusal r.0, r.1) else next

  unfoldable pub fbcon_bind : String → d.World → Option Error × d.World
  fbcon_bind value w = bind_first (d.consoles w) value w

  unfoldable pub dis_off : d.World → Bool
  dis_off w = is_off (d.switcheroo w)

  unfoldable pub power_on : d.World → d.World
  power_on w = (fbcon_bind "1" (d.write_switcheroo "DIS" (d.write_switcheroo "ON" w).1).1).1

  -- `cap` of `_set_cap_dpm`, between the limits that the card reports.
  unfoldable pub bounded_cap : ℕ → d.World → ℕ
  bounded_cap cap_w w =
      lesser (greater cap_w (or_default (d.read_cap_min w) 0 * 1000))
        (or_default (d.read_cap_max w) 35_000_000 * 1000)

  -- The checks on what is read back. `got` is in microwatts.
  unfoldable pub check_cap : (cap : ℕ) → String → Option ℕ → Option String → Option Error
  check_cap cap level none lvl = some cap_differs
  check_cap cap level (some got) lvl =
      if (if leb (cap + one) (got * 1000) then true else leb (got * 1000 + one) cap)
      then some cap_differs
      else elim lvl [
        | none ↦ some level_differs
        | some l ↦ if str_eq l level then none else some level_differs
      ]

  unfoldable pub set_cap_dpm : ℕ → String → d.World → Option Error × d.World
  set_cap_dpm cap_w level w =
      let cap = bounded_cap cap_w w in
      let first = d.write_cap (round_div cap 1000) w in
      let second = d.write_level level first.1 in
      elim first.0 [
        | some e ↦ (some (refused e), first.1)
        | none ↦ elim second.0 [
          | some e ↦ (some (refused e), second.1)
          | none ↦ (check_cap cap level (d.read_cap second.1) (d.read_level second.1), second.1)
        ]
      ]

  -- The card after `find`.
  unfoldable pub found : Gpu → Option Bool → Gpu
  found g none = g
  found g (some hwmon) = record g { dev = true; hwmon = hwmon }

  -- `not self.dev or not self.hwmon`
  unfoldable pub unknown : Gpu → Bool
  unknown g = if g.dev then not g.hwmon else true

  unfoldable pub located : Gpu → d.World → Gpu
  located g w = if unknown g then found g (d.find w) else g

  -- The card is not known and `find` fails.
  unfoldable pub cannot_find : Gpu → d.World → Bool
  cannot_find g w = if unknown g then is_none (d.find w) else false

  -- `_apply_on`, after the card may have been powered on.
  unfoldable pub apply_found : GpuMode → ℕ → Gpu → Bool → d.World → Option Error × Gpu × d.World
  apply_found mode cap_w g missing w =
      if missing
      then (some no_device, g, w)
      else if not g.hwmon
      then (some no_hwmon, g, w)
      else elim mode [
        | low ↦ (let r = set_cap_dpm low_cap_w "low" w in (r.0, g, r.1))
        | _ ↦ (let r = set_cap_dpm cap_w "auto" w in (r.0, g, r.1))
      ]

  unfoldable pub apply_on : GpuMode → ℕ → Gpu → d.World → Option Error × Gpu × d.World
  apply_on mode cap_w g w =
      let w1 = if dis_off w then power_on w else w in
      apply_found mode cap_w (located g w1) (cannot_find g w1) w1

  -- One round of the verification of the power-off.
  unfoldable pub verify_off : d.World → Option Error
  verify_off w = if not (dis_off w) then some not_off else elim (d.power_state w) [
    | none ↦ none
    | some ps ↦ if str_eq ps "D0" then some still_d0 else none
  ]

  -- Both rounds, with the pause between them.
  unfoldable pub verify_twice : d.World → Option Error × d.World
  verify_twice w = elim (verify_off w) [
    | some e ↦ (some e, w)
    | none ↦ (verify_off (d.sleep w), d.sleep w)
  ]

  unfoldable pub switch_off : d.World → Option Error × d.World
  switch_off w =
      let first = d.write_switcheroo "IGD" w in
      let second = d.write_switcheroo "OFF" first.1 in
      elim first.0 [
        | some e ↦ (some (refused e), first.1)
        | none ↦ elim second.0 [
          | some e ↦ (some (refused e), second.1)
          | none ↦ verify_twice second.1
        ]
      ]

  abbrev pub untouched : Done
  untouched = record { fbcon = false; switched = false }

  unfoldable pub apply_off : d.World → Option Error × Done × d.World
  apply_off w =
      let unbound = fbcon_bind "0" w in
      let r = switch_off unbound.1 in
      if lacks (d.switcheroo w)
      then (some no_switcheroo, untouched, w)
      else if dis_off w
      then (none, untouched, w)
      else elim unbound.0 [
        | some e ↦ (some e, untouched, unbound.1)
        | none ↦ (r.0, record { fbcon = true; switched = true }, r.1)
      ]

  -- What a failed `off` undoes before it applies `low`.
  unfoldable pub undo : Done → d.World → d.World
  undo done w = if done.switched then power_on w else if done.fbcon then (fbcon_bind "1" w).1 else w

  unfoldable pub revert : Error → Done → ℕ → Gpu → d.World → Outcome × Gpu × d.World
  revert e done cap_w g w =
      let r = apply_on low cap_w g (undo done w) in
      (
        record { ok = false; mode = low; error = some e; revert_error = r.0 },
        record r.1 { mode = some low },
        r.2,
      )

  unfoldable pub turn_off : ℕ → Gpu → d.World → Outcome × Gpu × d.World
  turn_off cap_w g w =
      let r = apply_off w in
      elim r.0 [
        | none ↦ (
          record { ok = true; mode = off; error = none; revert_error = none },
          record g { mode = some off },
          r.2,
        )
        | some e ↦ revert e r.1 cap_w g r.2
      ]

  unfoldable pub turn_on : GpuMode → ℕ → Gpu → d.World → Outcome × Gpu × d.World
  turn_on mode cap_w g w =
      let r = apply_on mode cap_w g w in
      (
        record { ok = is_none r.0; mode = mode; error = r.0; revert_error = none },
        record r.1 { mode = some mode },
        r.2,
      )

  unfoldable pub apply_mode : GpuMode → ℕ → Gpu → d.World → Outcome × Gpu × d.World
  apply_mode mode cap_w g w = elim mode [
    | off ↦ turn_off cap_w (located g w) w
    | auto ↦ turn_on auto cap_w (located g w) w
    | low ↦ turn_on low cap_w (located g w) w
  ]
