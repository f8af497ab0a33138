-- ===== src/Incidents/Sound.antt =====
-- What a verdict of `check_previous_boot` (linux/turbomac/daemon/incidents.py) rests on.
use mathlib.Core.Option.{some-injective}
use mathlib.Core.Path.{subst}
use text.Mathlib.Text.{find?}
use text.Mathlib.Text.{◌==◌ as str_eq}
use text.Mathlib.TextEquality.{eq_iff}
use turbo_mac.Prelude.{
  ◌≤◌, ◌≡◌, refl, sym, ap, true, false, Option, none, some, String, List, [], ◌∷◌, is_some, length,
  All, Bool-cases, Option-cases, &&-left, &&-right, inl, inr, ◌⊎◌,
}
use turbo_mac.Incidents.Samples.{tail_of, last_samples}
use turbo_mac.Incidents.Rows.{length-tail_of}
use turbo_mac.Incidents.{
  Io, Verdict, skipped, clean_by_marker, clean_by_journal, unknown, abrupt, same_text, is_text,
  any_stopped, journal_clean, previous_boot_id, vouches, incident, judge_abrupt, judge,
  already_checked, remove_marker, check_previous_boot,
}

-- Some line has the text that journald writes at its end.
abbrev pub HasStopped : List String → Type 0
HasStopped [] = ⊥
HasStopped (line ∷ rest) = (is_some (find? line "Journal stopped") ≡ true) ⊎ HasStopped rest

-- No line has it.
abbrev pub NoneStopped : List String → Type 0
NoneStopped lines = All (λ line. is_some (find? line "Journal stopped") ≡ false) lines

HasStopped-any : (lines : List String) → any_stopped lines ≡ true → HasStopped lines
unfolding any_stopped
HasStopped-any [] h = cc
HasStopped-any (line ∷ rest) h = elim (Bool-cases (is_some (find? line "Journal stopped"))) [
  | inl found ↦ inl found
  | inr other ↦ inr (HasStopped-any rest (rw other at h))
]

NoneStopped-any : (lines : List String) → any_stopped lines ≡ false → NoneStopped lines
unfolding any_stopped
NoneStopped-any [] h = tt
NoneStopped-any (line ∷ rest) h = elim (Bool-cases (is_some (find? line "Journal stopped"))) [
  | inl found ↦ cc (rw found at h)
  | inr other ↦ (other, NoneStopped-any rest (rw other at h))
]

same_text_eq : (a b : Option String) → same_text a b ≡ true → a ≡ b
unfolding same_text
same_text_eq none none h = refl
same_text_eq none (some b) h = cc
same_text_eq (some a) none h = cc
same_text_eq (some a) (some b) h = ap some ((eq_iff a b).0 h)

module _ (io : Io) where
  -- What each verdict says of the marker at the start and of the world after its removal.
  abbrev pub Rests : Option String → Option (Option String) → io.World → Verdict io.Row → Type 0
  Rests boot_id marker w skipped = (is_text boot_id ≡ true) × (io.last_boot_checked w ≡ boot_id)
  Rests boot_id marker w clean_by_marker =
      (id : String) × (marker ≡ some (some id))
      × (io.tail w ≡ none)
      × (previous_boot_id (io.boots w) ≡ some id)
  Rests boot_id marker w clean_by_journal =
      (lines : List String) × (io.tail w ≡ some lines) × HasStopped (tail_of 3 lines)
  Rests boot_id marker w unknown = io.tail w ≡ none
  Rests boot_id marker w (abrupt inc) =
      (lines : List String) × (io.tail w ≡ some lines)
      × NoneStopped (tail_of 3 lines)
      × (length inc.samples ≤ 60)
      × (length inc.journal_tail ≤ 20)
      × (inc.current_boot_id ≡ boot_id)

  abbrev Ruled :
      Option String
      → Option (Option String)
      → io.World
      → Option (Verdict io.Row × io.World)
      → Type 0
  Ruled boot_id marker w none = Unit {0}
  Ruled boot_id marker w (some r) = Rests boot_id marker w r.0

  judge_abrupt-Ruled :
      (stamp : String) (boot_id : Option String) (marker : Option (Option String))
      (lines : List String) (w : io.World)
      → io.tail w ≡ some lines
      → journal_clean lines ≡ false
      → Ruled boot_id marker w (judge_abrupt io stamp boot_id (is_some marker) lines w)
  unfolding judge_abrupt journal_clean
  judge_abrupt-Ruled stamp boot_id marker lines w there dirty =
      let inc = incident io stamp boot_id (is_some marker) lines w in
      elim (Option-cases (io.save inc w)) [
        | inl refused ↦ rw (refused, judge_abrupt) tt
        | inr (w', saved) ↦
            rw (saved, judge_abrupt)
              (unfold incident last_samples in
                (
                  lines,
                  there,
                  NoneStopped-any (tail_of 3 lines) dirty,
                  length-tail_of 60 _,
                  length-tail_of 20 lines,
                  refl,
                ))
      ]

  vouched :
      (marker : Option (Option String)) (prev : Option String)
      → vouches marker prev ≡ true
      → (id : String) × (marker ≡ some (some id)) × (prev ≡ some id)
  unfolding vouches same_text is_text
  vouched none prev h = cc
  vouched (some none) none h = cc
  vouched (some none) (some p) h = cc (&&-right (is_text (some p)) false h)
  vouched (some (some i)) none h = cc
  vouched (some (some i)) (some p) h =
      (i, refl, ap some (sym ((eq_iff i p).0 (&&-right (is_text (some p)) (str_eq i p) h))))

  judge-Ruled :
      (stamp : String) (boot_id : Option String) (marker : Option (Option String)) (w : io.World)
      → Ruled boot_id marker w (judge io stamp boot_id marker w)
  unfolding judge
  judge-Ruled stamp boot_id marker w = elim (Option-cases (io.tail w)) [
    | inl missing ↦ elim (Bool-cases (vouches marker (previous_boot_id (io.boots w)))) [
      | inl good ↦
          let v = vouched marker (previous_boot_id (io.boots w)) good in
          rw (missing, good, judge) (v.0, v.1, missing, v.2)
      | inr bad ↦ rw (missing, bad, judge) missing
    ]
    | inr (lines, there) ↦ elim (Bool-cases (journal_clean lines)) [
      | inl good ↦
          rw (there, good, judge)
            (lines, there, HasStopped-any (tail_of 3 lines) (unfold journal_clean in good))
      | inr bad ↦ rw (there, bad, judge) (judge_abrupt-Ruled stamp boot_id marker lines w there bad)
    ]
  ]

  -- Whatever `check_previous_boot` returns, its verdict rests on what was found. It is skipped only for
  -- the boot that was checked last. A clean verdict needs "Journal stopped" in the last three lines of
  -- the previous boot's journal, or, only where there is no journal, a marker with the id of that boot.
  -- An abrupt one needs a journal whose last three lines all lack it, and its incident has at most 60
  -- samples and 20 lines. It is unknown only without a journal.
  pub check_previous_boot-Rests :
      (stamp : String) (boot_id : Option String) (w w' : io.World) (v : Verdict io.Row)
      → check_previous_boot io stamp boot_id w ≡ some (v, w')
      → Rests boot_id (io.marker w) (remove_marker io w) v
  unfolding check_previous_boot
  check_previous_boot-Rests stamp boot_id w w' v e =
      let w1 = remove_marker io w in
      elim (Bool-cases (already_checked io boot_id w1)) [
        | inl already ↦
            subst (Rests boot_id (io.marker w) w1)
              (ap (λ r. r.0) (some-injective _ _ (rw already at e)))
              (unfold already_checked in
                (
                  &&-left (is_text boot_id) (same_text (io.last_boot_checked w1) boot_id) already,
                  same_text_eq _ _ (
                      &&-right (is_text boot_id) (same_text (io.last_boot_checked w1) boot_id)
                        already),
                ))
        | inr not_yet ↦ elim (Option-cases (judge io stamp boot_id (io.marker w) w1)) [
          | inl raised ↦ cc (rw (not_yet, raised) at e)
          | inr (r, judged) ↦
              subst (Rests boot_id (io.marker w) w1)
                (ap (λ q. q.0) (some-injective _ _ (rw (not_yet, judged) at e)))
                (subst (Ruled boot_id (io.marker w) w1) judged
                  (judge-Ruled stamp boot_id (io.marker w) w1))
        ]
      ]
