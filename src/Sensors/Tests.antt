-- ===== src/Sensors/Tests.antt =====
-- The theorems on the sensors at files that count up.
use turbo_mac.Prelude.{ℕ, ◌*◌, ◌≡◌, refl, false, none, some, List, [], ◌∷◌, one, round_div}
use turbo_mac.Smc.Decode.{pos}
use turbo_mac.Sensors.{FanSensor, Files, read_fans, celsius, fan_sensors}
use turbo_mac.Sensors.Recent.{Call, IsRecent, after, empty, read_fans-IsRecent}

abbrev fan : FanSensor
fan = record {
  input = "fan1_input";
  label = some "Left";
  min_file = "fan1_min";
  max_file = "fan1_max";
  manual_file = "fan1_manual";
}

-- Every file holds the state of the world.
abbrev files : Files
files = record {
  World = ℕ;
  find_temps = λ w. record { path = "temp1_input"; label = "TC0P" } ∷ [];
  find_fans = λ w. fan ∷ [];
  read = λ path w. some (pos w);
}

abbrev calls : List (Call files)
calls = (2 * one, 2000) ∷ (one, 1000) ∷ []

read_fans-IsRecent_example :
    let c = after files (3 * one) calls empty in
    IsRecent files
      (3 * one)
      (3 * one)
      3000
      calls
      (fan_sensors files 3000 c.fan_sensors)
      (read_fans files (3 * one) (3 * one) 3000 c).0
read_fans-IsRecent_example = read_fans-IsRecent files (3 * one) (3 * one) 3000 calls

-- 61.25 °C is even-rounded to a tenth, and 150 °C is dropped.
celsius-even : celsius (pos 61_250) ≡ some (false, 612)
unfolding celsius round_div
celsius-even = refl

celsius-high : celsius (pos 150_000) ≡ none
unfolding celsius
celsius-high = refl
