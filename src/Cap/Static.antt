-- ===== src/Cap/Static.antt =====
-- What every configuration that `load` of linux/turbomac/config.py returns has for the static cap.
use mathlib.Core.Option.{some-injective}
use mathlib.Core.Path.{subst}
use turbo_mac.Prelude.{
  ℕ, ◌+◌, ◌*◌, ◌≤◌, ◌≡◌, refl, ap, ◌∙◌, true, some, String, arith, one, inl, inr, Option-cases,
  is_some,
}
use turbo_mac.Dict.{Dict, get}
use turbo_mac.Config.{
  Reason, Value, null, boolean, number, negative, infinite, not_a_number, string, nested, check_one,
  check_known, check_spec, check_kind, ranged, in_range, table, accepts, eps,
}
use turbo_mac.Config.Defaults.{defaults}
use turbo_mac.Config.Validate.{validate, merged}
use turbo_mac.Daemon.Settings.{Loaded, no_file, unreadable, not_an_object, object, load, from_dict}
use turbo_mac.Daemon.Legal.{load-IsLegal, get-apply_updates}

merged-is_some :
    (base accepted : Dict Value) (k : String)
    → is_some (get k base) ≡ true
    → is_some (merged base accepted k) ≡ true
unfolding merged
merged-is_some base accepted k h = elim (Option-cases (get k accepted)) [
  | inl e ↦ rw (e, merged) h
  | inr (v, e) ↦ rw (e, merged) refl
]

has-load :
    (file : Loaded) (r : Dict Value × Dict Reason) (k : String)
    → is_some (get k defaults) ≡ true
    → load file ≡ some r
    → is_some (get k r.0) ≡ true
unfolding load from_dict
has-load no_file r k h e = subst (λ c. is_some (get k c.0) ≡ true) (some-injective _ _ e) h
has-load unreadable r k h e = subst (λ c. is_some (get k c.0) ≡ true) (some-injective _ _ e) h
has-load not_an_object r k h e = subst (λ c. is_some (get k c.0) ≡ true) (some-injective _ _ e) h
has-load (object raw) r k h e = elim (Option-cases (validate raw defaults)) [
  | inl bad ↦ cc (rw (bad, from_dict) at e)
  | inr (v, ok) ↦
      subst (λ c. is_some (get k c.0) ≡ true) (some-injective _ _ (rw (ok, from_dict) at e))
        (ap is_some (get-apply_updates defaults v.accepted k)
          ∙ merged-is_some defaults v.accepted k h)
]

-- A number between 10 W and 45 W, up to the tolerance of the check.
abbrev pub IsCap : Value → Type 0
IsCap v = (n : ℕ) × (v ≡ number n) × (10 * one ≤ n + eps) × (n ≤ 45 * one + eps)

checked-IsCap : (v : Value) → check_one "governor.static_cap_w" v ≡ accepts v → IsCap v
unfolding check_one check_known check_spec check_kind ranged in_range get table
checked-IsCap null h = cc
checked-IsCap (boolean b) h = cc
checked-IsCap (number n) h = (n, refl, ground (arith, h), ground (arith, h))
checked-IsCap (negative n) h = ground (arith, h)
checked-IsCap (infinite up) h = cc
checked-IsCap not_a_number h = cc
checked-IsCap (string s) h = cc
checked-IsCap nested h = cc

-- Every configuration that `load` returns has a static cap between 10 W and 45 W, up to the tolerance.
pub load-IsCap :
    (file : Loaded) (r : Dict Value × Dict Reason)
    → load file ≡ some r
    → (v : Value) × (get "governor.static_cap_w" r.0 ≡ some v) × IsCap v
load-IsCap file r e = elim (Option-cases (get "governor.static_cap_w" r.0)) [
  | inl missing ↦ cc (has-load file r "governor.static_cap_w" (unfold get in refl) e, missing)
  | inr (v, found) ↦
      (v, found, checked-IsCap v ((load-IsLegal file r e).values "governor.static_cap_w" v found))
]
