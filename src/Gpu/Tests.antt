-- ===== src/Gpu/Tests.antt =====
-- The theorems on `apply_mode` with a device that is a store of the card's registers.
use text.Mathlib.Text.{◌==◌ as str_eq}
use turbo_mac.Prelude.{
  ℕ, ◌*◌, ◌≡◌, refl, true, false, none, some, [], ◌∷◌, String, if◌then◌else◌, one, round_div,
}
use turbo_mac.Gpu.{
  low, off, Device, Gpu, apply_mode, turn_on, apply_on, apply_found, set_cap_dpm, check_cap,
  bounded_cap, located, cannot_find, unknown, found, dis_off, is_off, power_on, fbcon_bind,
  bind_first, refusal,
}
use turbo_mac.Gpu.Off.{OffReport, apply_mode-OffReport}

pub record Card : Type 0 where
  pub power : String
  pub cap_uw : ℕ
  pub level : String

abbrev pub store : Device
store = record {
  World = Card;
  find = λ w. some true;
  switcheroo = λ w. some (record { dis = some w.power; igd = true });
  power_state = λ w. some (if str_eq w.power "Off" then "D3cold" else "D0");
  consoles = λ w. (0, false) ∷ (1, true) ∷ [];
  write_bind = λ n v w. (none, w);
  write_switcheroo = λ c w. (
    none,
    (if str_eq c "ON"
        then record w { power = "Pwr" }
        else if str_eq c "OFF"
        then record w { power = "Off" }
        else w),
  );
  write_cap = λ n w. (none, record w { cap_uw = n });
  write_level = λ l w. (none, record w { level = l });
  read_cap_min = λ w. some 5_000_000;
  read_cap_max = λ w. some 35_000_000;
  read_cap = λ w. some w.cap_uw;
  read_level = λ w. some w.level;
  sleep = λ w. w;
}

abbrev pub running : Card
running = record { power = "Pwr"; cap_uw = 35_000_000; level = "auto" }

abbrev powered_down : Card
powered_down = record { power = "Off"; cap_uw = 35_000_000; level = "auto" }

abbrev pub gpu : Gpu
gpu = record { dev = true; hwmon = true; mode = none }

apply_mode-OffReport_example : OffReport store (apply_mode store off (15 * one) gpu running)
apply_mode-OffReport_example = apply_mode-OffReport store (15 * one) gpu running

apply_mode-ok : (apply_mode store low (15 * one) gpu powered_down).0.ok ≡ true
unfolding apply_mode turn_on apply_on apply_found set_cap_dpm check_cap bounded_cap located
    cannot_find unknown found dis_off is_off power_on fbcon_bind bind_first refusal round_div
apply_mode-ok = refl
