-- ===== src/Incidents.antt =====
-- linux/turbomac/daemon/incidents.py: the check of the previous boot at the start of the daemon. The
-- journal, the marker and the other files are a parameter; JSON comes parsed.
pub mod Samples
pub mod Sound
pub mod Rows
pub mod Once
pub mod Tests
use text.Mathlib.Text.{◌==◌ as str_eq, find?}
use Prim.Native.String.{slice}
use turbo_mac.Prelude.{
  ℕ, Bool, true, false, ◌||◌, ◌&&◌, not, Option, none, some, String, List, [], ◌∷◌, if◌then◌else◌,
  is_some,
}
use turbo_mac.Incidents.Samples.{SampleFile, last_samples, last_of, tail_of}

-- A boot of `journalctl --list-boots`: whether its `index`, and its `offset`, is -1, where it has one.
pub record Boot : Type 0 where
  pub index : Option Bool
  pub offset : Option Bool
  pub boot_id : Option String

-- `reason` is left to the verdict. `sample_time` is the last sample of `samples`.
pub record Incident (Row : Type 0) : Type 0 where
  pub stamp : String
  pub boot_prefix : String
  pub boot_id : Option String
  pub current_boot_id : Option String
  pub marker_present : Bool
  pub last_sample : Option Row
  pub samples : List Row
  pub journal_tail : List String

pub data Verdict (Row : Type 0) : Type 0 where
  skipped : Verdict Row
  clean_by_marker clean_by_journal : Verdict Row
  unknown : Verdict Row
  abrupt : Incident Row → Verdict Row

-- `marker` is what `_read_marker` gives, with its boot id; `tail` the lines of the previous boot's
-- journal without the blank ones at both ends, none if there is no journal or it is blank; `boots` the
-- list of boots. `save` is the write of an incident, none if it raises.
pub record Io : Type 1 where
  pub World : Type 0
  pub Row : Type 0
  pub marker : World → Option (Option String)
  pub unlink_marker : World → World
  pub last_boot_checked : World → Option String
  pub write_checked : String → World → World
  pub tail : World → Option (List String)
  pub boots : World → Option (List Boot)
  pub compressed : World → List (SampleFile Row)
  pub plain : World → List (SampleFile Row)
  pub save : Incident Row → World → Option World

unfoldable pub same_text : Option String → Option String → Bool
same_text none none = true
same_text (some a) (some b) = str_eq a b
same_text _ _ = false

-- A text that is there and not empty.
unfoldable pub is_text : Option String → Bool
is_text none = false
is_text (some s) = not (str_eq s "")

unfoldable pub any_stopped : List String → Bool
any_stopped [] = false
any_stopped (line ∷ rest) = is_some (find? line "Journal stopped") || any_stopped rest

-- `journal_clean`
unfoldable pub journal_clean : List String → Bool
journal_clean lines = any_stopped (tail_of 3 lines)

-- `b.get("index", b.get("offset")) == -1`
unfoldable pub is_previous : Boot → Bool
is_previous b = elim b.index [
  | some at_index ↦ at_index
  | none ↦ elim b.offset [ some at_offset ↦ at_offset | none ↦ false ]
]

unfoldable pub first_previous : List Boot → Option String
first_previous [] = none
first_previous (b ∷ rest) =
    let later = first_previous rest in if is_previous b then b.boot_id else later

unfoldable pub previous_boot_id : Option (List Boot) → Option String
previous_boot_id none = none
previous_boot_id (some boots) = first_previous boots

-- `marker is not None and prev_boot and marker.get("boot_id") == prev_boot`
unfoldable pub vouches : (marker : Option (Option String)) → (prev_boot : Option String) → Bool
vouches none prev_boot = false
vouches (some id) prev_boot = is_text prev_boot && same_text id prev_boot

-- `x or y`
unfoldable pub text_or : Option String → Option String → Option String
text_or a b = if is_text a then a else b

-- `(prev or 'unknown')[:8]`
unfoldable pub prefix_of : Option String → String
prefix_of prev = elim (text_or prev none) [ none ↦ slice "unknown" 0 8 | some id ↦ slice id 0 8 ]

module _ (io : Io) where
  unfoldable pub incident :
      (stamp : String)
      → (boot_id : Option String) → (marker : Bool) → List String
      → io.World
      → Incident io.Row
  incident stamp boot_id marker lines w =
      let samples = last_samples 60 boot_id (io.compressed w) (io.plain w) in
      let prev = text_or (previous_boot_id (io.boots w)) samples.1 in
      record {
        stamp = stamp;
        boot_prefix = prefix_of prev;
        boot_id = prev;
        current_boot_id = boot_id;
        marker_present = marker;
        last_sample = last_of samples.0;
        samples = samples.0;
        journal_tail = tail_of 20 lines;
      }

  -- The `else` of the verdict: the incident is kept.
  unfoldable pub judge_abrupt :
      String → Option String → Bool → List String → io.World → Option (Verdict io.Row × io.World)
  judge_abrupt stamp boot_id marker lines w =
      let inc = incident stamp boot_id marker lines w in
      elim (io.save inc w) [ none ↦ none | some w' ↦ some (abrupt inc, w') ]

  unfoldable pub judge :
      String
      → Option String
      → Option (Option String)
      → io.World
      → Option (Verdict io.Row × io.World)
  judge stamp boot_id marker w = elim (io.tail w) [
    | none ↦
        if vouches marker (previous_boot_id (io.boots w))
        then some (clean_by_marker, w)
        else some (unknown, w)
    | some lines ↦
        if journal_clean lines
        then some (clean_by_journal, w)
        else judge_abrupt stamp boot_id (is_some marker) lines w
  ]

  -- `if boot_id:` at the end.
  unfoldable pub note_checked : Option String → io.World → io.World
  note_checked none w = w
  note_checked (some id) w = if str_eq id "" then w else io.write_checked id w

  unfoldable pub already_checked : Option String → io.World → Bool
  already_checked boot_id w = is_text boot_id && same_text (io.last_boot_checked w) boot_id

  unfoldable pub remove_marker : io.World → io.World
  remove_marker w = if is_some (io.marker w) then io.unlink_marker w else w

  -- `check_previous_boot`; none if an incident cannot be written.
  unfoldable pub check_previous_boot :
      (stamp : String) → (boot_id : Option String) → io.World → Option (Verdict io.Row × io.World)
  check_previous_boot stamp boot_id w =
      let w1 = remove_marker w in
      if already_checked boot_id w1
      then some (skipped, w1)
      else elim (judge stamp boot_id (io.marker w) w1) [
        | none ↦ none
        | some r ↦ some (r.0, note_checked boot_id r.1)
      ]
