-- ===== src/Config/Accepts.antt =====
-- What `validate` of linux/turbomac/config.py lets through, and where it raises.
use package.text.Mathlib.Text.{◌==◌ as str_eq}
use package.text.Mathlib.TextEquality.{eq_iff}
use mathlib.Core.Option.{some-injective}
use mathlib.Core.Path.{subst}
use turbo_mac.Prelude.{
  ℕ, zero, suc, ◌+◌, ◌≡◌, refl, Bool, false, Option, none, some, String, List, [], ◌∷◌, arith,
  if◌then◌else◌, All, true, length, Option-cases, if_keeps, inl, inr,
}
use turbo_mac.Dict.{Dict, get, pop, put, get-pop, get-put}
use turbo_mac.Config.{
  Value, infinite, Spec, Kind, int, Checked, accepts, rejects, raises, check_one, check_known,
  check_spec, check_kind, ranged, table,
}
use turbo_mac.Config.Validate.{
  Rule, Verdict, cross_rules, nothing_yet, culprits, reject_keys, reject, holds_in, pass, passes,
  validate, check_all,
}

check_kind-accepts : (k : Kind) (v w : Value) → check_kind k v ≡ accepts w → v ≡ w
unfolding check_kind ranged
check_kind-accepts k v w h = ground arith

check_spec-accepts : (s : Spec) (v w : Value) → check_spec s v ≡ accepts w → v ≡ w
unfolding check_spec
check_spec-accepts s v w h = ground (arith, check_kind-accepts s.kind v w)

check_known-accepts : (o : Option Spec) (v w : Value) → check_known o v ≡ accepts w → v ≡ w
unfolding check_known
check_known-accepts none v w h = cc
check_known-accepts (some s) v w h = check_spec-accepts s v w h

check_one-accepts : (k : String) (v w : Value) → check_one k v ≡ accepts w → v ≡ w
unfolding check_one
check_one-accepts k v w h = ground (arith, check_known-accepts (get k table) v w)

-- Every value in the dictionary is one that `_check_one` lets through for its key.
abbrev pub IsChecked : Dict Value → Type 0
IsChecked d = (k : String) (w : Value) → get k d ≡ some w → check_one k w ≡ accepts w

pub All-IsChecked : (d : Dict Value) → All (λ e. check_one e.0 e.1 ≡ accepts e.1) d → IsChecked d
unfolding get
All-IsChecked [] all k w h = cc
All-IsChecked ((j, v) ∷ rest) all k w h = by_key (str_eq j k) refl h (All-IsChecked rest all.1 k w)
  where
    by_key :
        (b : Bool)
        → str_eq j k ≡ b
        → (if b then some v else get k rest) ≡ some w
        → (get k rest ≡ some w → check_one k w ≡ accepts w)
        → check_one k w ≡ accepts w
    by_key true e found later =
        subst (λ i. check_one i w ≡ accepts w) ((eq_iff j k).0 e)
          (subst (λ x. check_one j x ≡ accepts x) (some-injective _ _ found) all.0)
    by_key false e found later = later found

pub put-IsChecked :
    (k : String) (v : Value) (d : Dict Value)
    → check_one k v ≡ accepts v
    → IsChecked d
    → IsChecked (put k v d)
put-IsChecked k v d ok h j w e = ground (arith, get-put k j v d, h j w, eq_iff k j)

pop-IsChecked : (k : String) (d : Dict Value) → IsChecked d → IsChecked (pop k d)
pop-IsChecked k d h j w e = ground (arith, get-pop k j d, h j w)

reject_keys-IsChecked :
    (keys : List String) (why : String) (v : Verdict)
    → IsChecked v.accepted
    → IsChecked (reject_keys keys why v).accepted
unfolding reject_keys
reject_keys-IsChecked [] why v h = h
reject_keys-IsChecked (k ∷ rest) why v h =
    reject_keys-IsChecked rest why _ (pop-IsChecked k v.accepted h)

pass-IsChecked :
    (base start : Dict Value) (rules : List Rule) (v : Verdict)
    → IsChecked v.accepted
    → IsChecked (pass base start rules v).accepted
unfolding pass
pass-IsChecked base start [] v h = h
pass-IsChecked base start (r ∷ rest) v h = pass-IsChecked base start rest _ (
    if_keeps (λ (u : Verdict). IsChecked u.accepted) (holds_in base start r) v (reject r v) h
      (unfold reject in reject_keys-IsChecked (culprits v.accepted r) r.reason v h))

passes-IsChecked :
    (n : ℕ) (base : Dict Value) (rules : List Rule) (v : Verdict)
    → IsChecked v.accepted
    → IsChecked (passes n base rules v).accepted
unfolding passes
passes-IsChecked zero base rules v h = h
passes-IsChecked (suc n) base rules v h =
    let first = pass-IsChecked base v.accepted rules (record v { broken = false }) h in
    if_keeps (λ (u : Verdict). IsChecked u.accepted) _ _ _
      (passes-IsChecked n base rules (pass base v.accepted rules (record v { broken = false }))
        first)
      first

check_all-IsChecked :
    (updates : Dict Value) (v v' : Verdict)
    → IsChecked v.accepted
    → check_all updates v ≡ some v'
    → IsChecked v'.accepted
unfolding check_all
check_all-IsChecked [] v v' h e =
    subst (λ (u : Verdict). IsChecked u.accepted) (some-injective _ _ e) h
check_all-IsChecked ((k, value) ∷ rest) v v' h e =
    checked_case (check_one k value) refl e (λ u hu eu. check_all-IsChecked rest u v' hu eu)
  where
    checked_case :
        (c : Checked)
        → check_one k value ≡ c
        → (elim c [
          | accepts norm ↦
              check_all rest
                (if str_eq k "schema" then v else record v { accepted = put k norm v.accepted })
          | rejects err ↦ check_all rest (record v { rejected = put k err v.rejected })
          | raises ↦ none
        ])
          ≡ some v'
        → ((u : Verdict)
            → IsChecked u.accepted
            → check_all rest u ≡ some v'
            → IsChecked v'.accepted)
        → IsChecked v'.accepted
    checked_case (accepts norm) c e' later =
        let same : value ≡ norm = check_one-accepts k value norm c in
        later _
          (if_keeps (λ (u : Verdict). IsChecked u.accepted) (str_eq k "schema") v
            (record v { accepted = put k norm v.accepted }) h
            (put-IsChecked k norm v.accepted (subst (λ x. check_one k x ≡ accepts norm) same c) h))
          e'
    checked_case (rejects err) c e' later = later _ h e'
    checked_case raises c e' later = cc

-- Every update that `validate` accepts has a value that `_check_one` lets through for its key: of a
-- known key, of its kind and in its range.
pub validate-IsChecked :
    (updates base : Dict Value) (v : Verdict)
    → validate updates base ≡ some v
    → IsChecked v.accepted
unfolding validate
validate-IsChecked updates base v h = elim (Option-cases (check_all updates nothing_yet)) [
  | inl raised ↦ cc (rw (raised, validate) at h)
  | inr (checked, e) ↦
      subst (λ (w : Verdict). IsChecked w.accepted) (some-injective _ _ (rw (e, validate) at h))
        (passes-IsChecked (length cross_rules + 1) base cross_rules checked
          (check_all-IsChecked updates nothing_yet checked (λ k w g. unfold get in cc) e))
]

-- An update that brings an infinite number for a key of an integer setting makes `validate` raise,
-- whatever stands after it (`int(value)` of an infinity is an OverflowError, which is not caught).
pub validate-infinite :
    (key : String) (up optional : Bool) (lo hi : ℕ) (rest base : Dict Value)
    → get key table ≡ some (record { optional = optional; kind = int lo hi })
    → str_eq key "schema" ≡ false
    → str_eq key "governor.hard_max_w" ≡ false
    → validate ((key, infinite up) ∷ rest) base ≡ none
unfolding validate check_all check_one check_known check_spec check_kind
validate-infinite key up optional lo hi rest base known other hard =
    rw (other, hard, known, validate, check_all)
