-- ===== src/Incidents/Once.antt =====
-- `check_previous_boot` of linux/turbomac/daemon/incidents.py judges a boot once.
use text.Mathlib.Text.{◌==◌ as str_eq}
use text.Mathlib.TextEquality.{eq_iff}
use mathlib.Core.Path.{subst}
use mathlib.Core.Option.{some-injective}
use turbo_mac.Prelude.{
  ◌≡◌, refl, ap, ◌∙◌, true, false, Option, none, some, String, Bool-cases, Option-cases, &&-right,
  inl, inr, is_some,
}
use turbo_mac.Incidents.{
  Io, Verdict, skipped, same_text, is_text, judge, note_checked, already_checked, remove_marker,
  check_previous_boot,
}

-- The file of the checked boot holds what is written to it, and the marker is another file.
pub record IsFile (io : Io) : Type 0 where
  pub reads_back :
      (id : String) (w : io.World) → io.last_boot_checked (io.write_checked id w) ≡ some id
  pub apart : (w : io.World) → io.last_boot_checked (io.unlink_marker w) ≡ io.last_boot_checked w

same_some : (o : Option String) (id : String) → same_text o (some id) ≡ true → o ≡ some id
unfolding same_text
same_some none id h = cc
same_some (some j) id h = ap some ((eq_iff j id).0 h)

module _ (io : Io) (file : IsFile io) where
  remove_marker-last_boot_checked :
      (w : io.World) → io.last_boot_checked (remove_marker io w) ≡ io.last_boot_checked w
  unfolding remove_marker
  remove_marker-last_boot_checked w = elim (Bool-cases (is_some (io.marker w))) [
    | inl there ↦ rw there (file.apart w)
    | inr missing ↦ rw missing refl
  ]

  already_checked-true :
      (id : String) (w : io.World)
      → str_eq id "" ≡ false
      → io.last_boot_checked w ≡ some id
      → already_checked io (some id) w ≡ true
  unfolding already_checked is_text same_text
  already_checked-true id w filled held = rw (filled, held) ((eq_iff id id).1 refl)

  held_of_checked :
      (id : String) (w : io.World)
      → already_checked io (some id) w ≡ true
      → io.last_boot_checked w ≡ some id
  unfolding already_checked
  held_of_checked id w h = same_some (io.last_boot_checked w) id (&&-right (is_text (some id)) _ h)

  check_again :
      (stamp id : String) (w : io.World)
      → str_eq id "" ≡ false
      → io.last_boot_checked w ≡ some id
      → check_previous_boot io stamp (some id) w ≡ some (skipped, remove_marker io w)
  unfolding check_previous_boot
  check_again stamp id w filled held =
      rw
        (already_checked-true id (remove_marker io w) filled
          (remove_marker-last_boot_checked w ∙ held))
        refl

  checked-last_boot_checked :
      (stamp id : String) (w w' : io.World) (v : Verdict io.Row)
      → str_eq id "" ≡ false
      → check_previous_boot io stamp (some id) w ≡ some (v, w')
      → io.last_boot_checked w' ≡ some id
  unfolding check_previous_boot note_checked
  checked-last_boot_checked stamp id w w' v filled e =
      let w1 = remove_marker io w in
      elim (Bool-cases (already_checked io (some id) w1)) [
        | inl already ↦
            let last : (skipped, w1) ≡ (v, w') = some-injective _ _ (rw already at e) in
            subst (λ u. io.last_boot_checked u ≡ some id) (ap (λ r. r.1) last)
              (held_of_checked id w1 already)
        | inr not_yet ↦ elim (Option-cases (judge io stamp (some id) (io.marker w) w1)) [
          | inl raised ↦ cc (rw (not_yet, raised) at e)
          | inr (r, judged) ↦
              let last : (r.0, io.write_checked id r.1) ≡ (v, w') =
                some-injective _ _ (rw (not_yet, judged, filled) at e) in
              subst (λ u. io.last_boot_checked u ≡ some id) (ap (λ q. q.1) last)
                (file.reads_back id r.1)
        ]
      ]

  -- A boot that was checked is not checked again: once `check_previous_boot` returned for a boot id, its
  -- next call for this id does nothing but remove the marker, and says so. The file that keeps the id must
  -- hold what is written to it, and not be that of the marker.
  pub check_previous_boot_again :
      (stamp stamp' id : String) (w w' : io.World) (v : Verdict io.Row)
      → str_eq id "" ≡ false
      → check_previous_boot io stamp (some id) w ≡ some (v, w')
      → check_previous_boot io stamp' (some id) w' ≡ some (skipped, remove_marker io w')
  check_previous_boot_again stamp stamp' id w w' v filled e =
      check_again stamp' id w' filled (checked-last_boot_checked stamp id w w' v filled e)
