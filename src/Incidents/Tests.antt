-- ===== src/Incidents/Tests.antt =====
-- The theorems on the check of the previous boot with files that are a store.
use turbo_mac.Prelude.{ℕ, ◌≡◌, refl, true, Option, none, some, String, List, [], ◌∷◌}
use turbo_mac.Incidents.Samples.{
  SampleFile, last_samples, last_of, gather, records, parsed, tail_of, newest_first, insert,
  collect, excluded, other_boot,
}
use turbo_mac.Incidents.{
  Incident, Io, abrupt, skipped, check_previous_boot, judge, judge_abrupt, incident,
  already_checked, remove_marker, note_checked, journal_clean, any_stopped, is_text, same_text,
  previous_boot_id, first_previous, is_previous, text_or, prefix_of,
}
use turbo_mac.Incidents.Sound.{Rests, check_previous_boot-Rests}
use turbo_mac.Incidents.Once.{IsFile, check_previous_boot_again}
use turbo_mac.Dict.{put}

record Files : Type 0 where
  pub marker : Option (Option String)
  pub checked : Option String
  pub saved : List (Incident ℕ)

abbrev file : String → Option String → List (Option ℕ) → SampleFile ℕ
file base boot lines = record {
  base = base;
  content = some (record { boot_id = boot; lines = lines });
}

abbrev compressed : List (SampleFile ℕ)
compressed =
    file "samples-01.jsonl" (some "older") (some 1 ∷ [])
    ∷ file "samples-02.jsonl" (some "before") (some 2 ∷ [])
    ∷ []

-- The last line of the second file was torn.
abbrev plain : List (SampleFile ℕ)
plain =
    file "samples-03.jsonl" (some "before") (some 3 ∷ some 4 ∷ none ∷ [])
    ∷ file "samples-04.jsonl" (some "now") (some 5 ∷ [])
    ∷ []

-- The journal of the boot before stops in the middle.
abbrev store : Io
store = record {
  World = Files;
  Row = ℕ;
  marker = λ w. w.marker;
  unlink_marker = λ w. record w { marker = none };
  last_boot_checked = λ w. w.checked;
  write_checked = λ id w. record w { checked = some id };
  tail = λ w. some ("Starting" ∷ "Running" ∷ []);
  boots = λ w. some (record { index = some true; offset = none; boot_id = some "before-123" } ∷ []);
  compressed = λ w. compressed;
  plain = λ w. plain;
  save = λ inc w. some (record w { saved = inc ∷ w.saved });
}

abbrev start : Files
start = record { marker = some (some "before-123"); checked = some "before-123"; saved = [] }

abbrev found : Incident ℕ
found = record {
  stamp = "20260101T000000Z";
  boot_prefix = "before-1";
  boot_id = some "before-123";
  current_boot_id = some "now";
  marker_present = true;
  last_sample = some 4;
  samples = 2 ∷ 3 ∷ 4 ∷ [];
  journal_tail = "Starting" ∷ "Running" ∷ [];
}

abbrev after : Files
after = record { marker = none; checked = some "now"; saved = found ∷ [] }

check-abrupt :
    check_previous_boot store "20260101T000000Z" (some "now") start ≡ some (abrupt found, after)
unfolding check_previous_boot judge judge_abrupt incident already_checked remove_marker note_checked
    journal_clean any_stopped is_text same_text previous_boot_id first_previous is_previous text_or
    prefix_of last_samples last_of gather records parsed tail_of newest_first insert collect
    excluded other_boot put
check-abrupt = refl

check_previous_boot-Rests_example :
    Rests store (some "now") start.marker (remove_marker store start) (abrupt found)
check_previous_boot-Rests_example =
    check_previous_boot-Rests store "20260101T000000Z" (some "now") start after (abrupt found)
      check-abrupt

store-IsFile : IsFile store
store-IsFile = record { reads_back = λ id w. refl; apart = λ w. refl }

check_previous_boot_again_example :
    check_previous_boot store "20260101T010000Z" (some "now") after
    ≡ some (skipped, remove_marker store after)
check_previous_boot_again_example =
    check_previous_boot_again store store-IsFile "20260101T000000Z" "20260101T010000Z" "now" start
      after (abrupt found) refl check-abrupt
