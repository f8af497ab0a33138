-- ===== src/Cpu.antt =====
-- `CpuReader.apply_settings` of linux/turbomac/daemon/cpu.py: the settings of intel_pstate that are
-- written. The sysfs files are a parameter.
use turbo_mac.Prelude.{
  ℕ, ◌/◌, Bool, true, Option, none, some, String, List, [], ◌∷◌, ◌++◌, one, if◌then◌else◌,
}
use turbo_mac.Dict.{Dict, get}
use turbo_mac.Config.{Value, boolean, number, string}

pub data File : Type 0 where
  no_turbo max_perf_pct : File
  epp : (cpu : ℕ) → File

-- What a file may hold: "1" or "0", a decimal number, or a word.
pub data Text : Type 0 where
  flag : Bool → Text
  decimal : ℕ → Text
  word : String → Text

-- `exists` is `os.path.exists`, `holds` whether the file has just this text, `write` is `write_text`.
pub record Device : Type 1 where
  pub World : Type 0
  pub exists : File → World → Bool
  pub holds : File → Text → World → Bool
  pub write : File → Text → World → Option String × World
  pub cpus : List ℕ

pub data Message : Type 0 where
  written : File → Text → Message
  error : String → Message

module _ (d : Device) where
  -- The inner function `put`.
  unfoldable pub put : File → Text → d.World → List Message × d.World
  put f t w =
      let r = d.write f t w in
      if (if d.exists f w then d.holds f t w else true)
      then ([], w)
      else ((elim r.0 [ none ↦ written f t | some e ↦ error e ]) ∷ [], r.1)

  unfoldable pub put_epp : List ℕ → Text → d.World → List Message × d.World
  put_epp [] t w = ([], w)
  put_epp (c ∷ rest) t w =
      let r = put (epp c) t w in let later = put_epp rest t r.1 in (r.0 ++ later.0, later.1)

  unfoldable pub apply_no_turbo : Option Value → d.World → List Message × d.World
  apply_no_turbo (some (boolean b)) w = put no_turbo (flag b) w
  apply_no_turbo _ w = ([], w)

  unfoldable pub apply_max_perf_pct : Option Value → d.World → List Message × d.World
  apply_max_perf_pct (some (number n)) w = put max_perf_pct (decimal (n / one)) w
  apply_max_perf_pct _ w = ([], w)

  unfoldable pub apply_epp : Option Value → d.World → List Message × d.World
  apply_epp (some (string s)) w = put_epp d.cpus (word s) w
  apply_epp _ w = ([], w)

  -- The values are those that `validate` lets through: null, or of the kind of the setting.
  unfoldable pub apply_settings : Dict Value → d.World → List Message × d.World
  apply_settings cfg w =
      let first = apply_no_turbo (get "cpu.no_turbo" cfg) w in
      let second = apply_max_perf_pct (get "cpu.max_perf_pct" cfg) first.1 in
      let third = apply_epp (get "cpu.epp" cfg) second.1 in
      (first.0 ++ second.0 ++ third.0, third.1)
