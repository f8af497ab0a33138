-- ===== src/Fan/Capture.antt =====
-- The start of `FanController` in linux/turbomac/daemon/fans.py: `discover`, with the capture of the
-- hardware minimums. The files are a parameter.
use turbo_mac.Prelude.{
  ℕ, ◌+◌, Bool, true, false, ◌&&◌, not, Option, none, some, String, List, [], ◌∷◌, if◌then◌else◌,
  leb, ltb, ◌==◌,
}
use turbo_mac.Fan.Control.{Fan}

-- The fans' files: their numbers, the label, or `fan{n}` if it is missing or empty, and `read_int` of
-- three attributes.
-- `saved` is what fan-defaults.json has in a place for each fan, none if the file has no such place:
-- none in it is a minimum that is no whole number of 0 or more. `save` gives the text of an OSError.
pub record Io : Type 1 where
  pub World : Type 0
  pub numbers : World → List ℕ
  pub label : ℕ → World → String
  pub max : ℕ → World → Option ℕ
  pub rpm : ℕ → World → Option ℕ
  pub min : ℕ → World → Option ℕ
  pub has_path : Bool
  pub exists : World → Bool
  pub saved : ℕ → World → Option (Option ℕ)
  pub save : List Fan → World → Option String × World

pub data Source : Type 0 where
  -- No event: the file was valid.
  from_file : Source
  fan_defaults : (stale : Bool) → (save_error : Option String) → Source
  fan_defaults_warning : (stale : Bool) → Source

-- `KNOWN_HW_MIN`
unfoldable pub known_hw_min : ℕ → Option ℕ
known_hw_min n = if n == 1 then some 2160 else if n == 2 then some 2000 else none

abbrev pub capture_slack_rpm : ℕ
capture_slack_rpm = 500

-- `v > mx` for a maximum that is known.
unfoldable pub above : ℕ → Option ℕ → Bool
above v none = false
above v (some mx) = ltb mx v

-- `n not in KNOWN_HW_MIN or v <= KNOWN_HW_MIN[n] + CAPTURE_SLACK_RPM`
unfoldable pub near_known : ℕ → Option ℕ → Bool
near_known v none = true
near_known v (some k) = leb v (k + capture_slack_rpm)

-- `_plausible`
unfoldable pub plausible : ℕ → Option ℕ → Option ℕ → Bool
plausible n mx none = false
plausible n mx (some v) = not (v == 0) && not (above v mx) && near_known v (known_hw_min n)

-- A fan's minimum as it is kept: from the live value, else the known one.
unfoldable pub restored_min : ℕ → Option ℕ → Option ℕ → Option ℕ
restored_min n mx v = if plausible n mx v then v else known_hw_min n

module _ (io : Io) where
  -- The entries of `self.fans` and `self.written`.
  unfoldable pub found : List ℕ → io.World → List Fan
  found [] w = []
  found (n ∷ rest) w =
      record {
        n = n;
        label = io.label n w;
        max = io.max n w;
        rpm = io.rpm n w;
        written = io.min n w;
        failed = none;
        default = none;
      }
      ∷ found rest w

  unfoldable pub all_live : List Fan → Bool
  all_live [] = true
  all_live (f ∷ rest) = plausible f.n f.max f.written && all_live rest

  -- A fan with a saved minimum, none for a KeyError or a value that is not plausible.
  unfoldable pub with_saved : Fan → Option (Option ℕ) → Option Fan
  with_saved f none = none
  with_saved f (some v) = if plausible f.n f.max v then some (record f { default = v }) else none

  unfoldable pub all_saved : List Fan → io.World → Option (List Fan)
  all_saved [] w = some []
  all_saved (f ∷ rest) w =
      let later = all_saved rest w in
      elim (with_saved f (io.saved f.n w)) [
        | none ↦ none
        | some f' ↦ elim later [ none ↦ none | some fs ↦ some (f' ∷ fs) ]
      ]

  unfoldable pub keep_live : List Fan → List Fan
  keep_live [] = []
  keep_live (f ∷ rest) = record f { default = f.written } ∷ keep_live rest

  unfoldable pub keep_known : List Fan → List Fan
  keep_known [] = []
  keep_known (f ∷ rest) = record f { default = restored_min f.n f.max f.written } ∷ keep_known rest

  -- `_load_or_capture` from `live` on.
  unfoldable pub capture : (stale : Bool) → List Fan → io.World → List Fan × Source × io.World
  capture stale fans w =
      let kept = keep_live fans in
      let r = io.save kept w in
      if all_live fans
      then (if io.has_path
          then (kept, fan_defaults stale r.0, r.1)
          else (kept, fan_defaults stale none, w))
      else (keep_known fans, fan_defaults_warning stale, w)

  -- `path and os.path.exists(path)`
  unfoldable pub looks : io.World → Bool
  looks w = io.has_path && io.exists w

  unfoldable pub load_or_capture : List Fan → io.World → List Fan × Source × io.World
  load_or_capture fans w =
      let captured = capture (looks w) fans w in
      if looks w
      then elim (all_saved fans w) [ none ↦ captured | some fs ↦ (fs, from_file, w) ]
      else captured

  -- `discover`; without fans there is no source.
  unfoldable pub discover : io.World → List Fan × Option Source × io.World
  discover w =
      let fans = found (io.numbers w) w in
      let r = load_or_capture fans w in
      elim fans [ [] ↦ ([], none, w) | _ ∷ _ ↦ (r.0, some r.1, r.2) ]
