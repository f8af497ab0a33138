-- ===== src/Sensors.antt =====
-- The readers of linux/turbomac/daemon/smc.py for temperatures and fans, below one base directory. The
-- files are a parameter. Times are in nanoseconds, temperatures in millidegrees.
pub mod Recent
mod Tests
use turbo_mac.Prelude.{
  ℕ, suc, ◌+◌, ◌*◌, Bool, true, false, ◌&&◌, not, Option, none, some, String, List, [], ◌∷◌, map,
  if◌then◌else◌, leb, ltb, ◌==◌, length, one, round_div,
}
use turbo_mac.Dict.{Dict, put}
use turbo_mac.Smc.Decode.{ℤ, pos, negsuc}

-- `glob` and the labels give the sensors of a base, in their order; `read` is `read_int` of a file.
pub record TempSensor : Type 0 where
  pub path : String
  pub label : String

pub record FanSensor : Type 0 where
  pub input : String
  pub label : Option String
  pub min_file : String
  pub max_file : String
  pub manual_file : String

pub record Files : Type 1 where
  pub World : Type 0
  pub find_temps : World → List TempSensor
  pub find_fans : World → List FanSensor
  pub read : String → World → Option ℤ

-- min, max and manual of a fan.
pub record Limits : Type 0 where
  pub min : Option ℤ
  pub max : Option ℤ
  pub manual : Option ℤ

pub record Fan : Type 0 where
  pub label : Option String
  pub rpm : Option ℤ
  pub limits : Limits

-- The entries of the base in the three caches; no sensors are no entry.
pub record Caches : Type 0 where
  pub temp_sensors : List TempSensor
  pub fan_sensors : List FanSensor
  pub fan_limits : Option (ℕ × List Limits)

-- DUE_SLACK_S
abbrev pub due_slack_s : ℕ
due_slack_s = 100_000_000

-- `due`
unfoldable pub due : Option ℕ → (now every_s : ℕ) → Bool
due none now every_s = true
due (some last) now every_s = not (leb last now && ltb (now + due_slack_s) (last + every_s))

-- `round(v / 1000.0, 1)` in tenths of a degree, with its sign; none is out of range.
unfoldable pub celsius : ℤ → Option (Bool × ℕ)
celsius (pos n) = if ltb n 150_000 then some (false, round_div n 100) else none
celsius (negsuc n) = if ltb (suc n) 100_000 then some (true, round_div (suc n) 100) else none

-- The cached limits, where they serve, with their time.
unfoldable pub cached :
    (now every_s : ℕ) → List FanSensor → Option (ℕ × List Limits) → Option (ℕ × List Limits)
cached now every_s sensors none = none
cached now every_s sensors (some (t, limits)) =
    if not (length limits == length sensors)
    then none
    else if due (some t) now every_s
    then none
    else some (t, limits)

module _ (d : Files) where
  -- `_temp_sensors` and `_fan_sensors`
  unfoldable pub temp_sensors : d.World → Caches → Caches
  temp_sensors w c = elim c.temp_sensors [
    | [] ↦ record c { temp_sensors = d.find_temps w }
    | _ ∷ _ ↦ c
  ]

  unfoldable pub fan_sensors : d.World → List FanSensor → List FanSensor
  fan_sensors w [] = d.find_fans w
  fan_sensors w (f ∷ rest) = f ∷ rest

  unfoldable pub collect : d.World → List TempSensor → Dict (Bool × ℕ) → Dict (Bool × ℕ)
  collect w [] out = out
  collect w (s ∷ rest) out = elim (d.read s.path w) [
    | none ↦ collect w rest out
    | some v ↦ elim (celsius v) [
      | none ↦ collect w rest out
      | some t ↦ collect w rest (put s.label t out)
    ]
  ]

  -- `read_temps`, of a base.
  unfoldable pub read_temps : d.World → Caches → Dict (Bool × ℕ) × Caches
  read_temps w c = let c' = temp_sensors w c in (collect w c'.temp_sensors [], c')

  unfoldable pub limits_of : d.World → FanSensor → Limits
  limits_of w f = record {
    min = d.read f.min_file w;
    max = d.read f.max_file w;
    manual = d.read f.manual_file w;
  }

  -- `zip(sensors, limits)`
  unfoldable pub rows : d.World → List FanSensor → List Limits → List Fan
  rows w (f ∷ sensors) (l ∷ limits) =
      record { label = f.label; rpm = d.read f.input w; limits = l } ∷ rows w sensors limits
  rows w _ _ = []

  -- `read_fans`, of a base.
  unfoldable pub read_fans : (now every_s : ℕ) → d.World → Caches → List Fan × Caches
  read_fans now every_s w c =
      let sensors = fan_sensors w c.fan_sensors in
      let fresh = map (limits_of w) sensors in
      elim (cached now every_s sensors c.fan_limits) [
        | none ↦ (
          rows w sensors fresh,
          record c { fan_sensors = sensors; fan_limits = some (now, fresh) },
        )
        | some old ↦ (rows w sensors old.1, record c { fan_sensors = sensors })
      ]
