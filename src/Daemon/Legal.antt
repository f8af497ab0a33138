-- ===== src/Daemon/Legal.antt =====
-- Configurations that `validate` of linux/turbomac/config.py could have made, and the updates and files
-- that lead to one.
use text.Mathlib.Text.{◌==◌ as str_eq}
use mathlib.Core.Option.{some-injective}
use mathlib.Core.Path.{subst, ap₂}
use turbo_mac.Prelude.{
  ap, ◌≡◌, refl, sym, ◌∙◌, true, false, some, String, List, [], ◌∷◌, All, Option-cases, inl, inr,
  arith,
}
use turbo_mac.Dict.{Dict, get, put, get-put}
use turbo_mac.Config.Defaults.{defaults}
use turbo_mac.Config.{
  Reason, ranged, in_range, Value, string, check_one, check_known, check_spec, check_kind, one_of,
  table, accepts,
}
use turbo_mac.Config.Validate.{Rule, cross_rules, validate, Verdict, merged, holds_in}
use turbo_mac.Config.Accepts.{IsChecked, All-IsChecked, validate-IsChecked, put-IsChecked}
use turbo_mac.Config.Rules.{validate-holds_in}
use turbo_mac.Gpu.{GpuMode}
use turbo_mac.Daemon.Settings.{
  Loaded, no_file, unreadable, not_an_object, object, load, from_dict, apply_updates, mode_name,
}

abbrev Obeys : Dict Value → Rule → Type 0
Obeys cfg r = r.test (get r.first cfg) (get r.second cfg) ≡ true

-- Every cross rule holds, and every value is one that `_check_one` lets through for its key.
pub record IsLegal (cfg : Dict Value) : Type 0 where
  pub obeys : All (Obeys cfg) cross_rules
  pub values : IsChecked cfg

pub get-apply_updates :
    (cfg updates : Dict Value) (k : String)
    → get k (apply_updates cfg updates) ≡ merged cfg updates k
unfolding apply_updates merged get
get-apply_updates cfg [] k = refl
get-apply_updates cfg ((j, v) ∷ rest) k =
    get-put j k v (apply_updates cfg rest) ∙ (rw (get-apply_updates cfg rest k) (ground arith))

All-map : {A : Type 0} (P Q : A → Type 0) → ((a : A) → P a → Q a) → (l : List A) → All P l → All Q l
All-map P Q f [] all = tt
All-map P Q f (a ∷ rest) all = (f a all.0, All-map P Q f rest all.1)

Obeys-same :
    (cfg new : Dict Value) (r : Rule)
    → get r.first new ≡ get r.first cfg
    → get r.second new ≡ get r.second cfg
    → Obeys cfg r
    → Obeys new r
Obeys-same cfg new r e1 e2 h = ap₂ r.test e1 e2 ∙ h

merged-IsChecked :
    (cfg accepted : Dict Value)
    → IsChecked cfg
    → IsChecked accepted
    → (k : String) (w : Value) → merged cfg accepted k ≡ some w
    → check_one k w ≡ accepts w
unfolding merged
merged-IsChecked cfg accepted old new k w e = elim (Option-cases (get k accepted)) [
  | inl missing ↦ old k w (rw (missing, merged) at e)
  | inr (v, found) ↦ new k w (found ∙ (rw (found, merged) at e))
]

-- The accepted updates of a legal configuration.
pub updated-IsLegal :
    (cfg updates : Dict Value) (v : Verdict)
    → IsLegal cfg
    → validate updates cfg ≡ some v
    → IsLegal (apply_updates cfg v.accepted)
unfolding holds_in
updated-IsLegal cfg updates v legal e = record {
  obeys =
      All-map (λ r. holds_in cfg v.accepted r ≡ true) (Obeys (apply_updates cfg v.accepted))
        (λ r h.
          ap₂ r.test (get-apply_updates cfg v.accepted r.first)
            (get-apply_updates cfg v.accepted r.second)
          ∙ h)
        cross_rules (validate-holds_in updates cfg v legal.obeys e);
  values = λ k w g.
      merged-IsChecked cfg v.accepted legal.values (validate-IsChecked updates cfg v e) k w
        (sym (get-apply_updates cfg v.accepted k) ∙ g);
}

pub defaults-IsLegal : IsLegal defaults
unfolding cross_rules get check_one check_known check_spec check_kind ranged in_range one_of table
defaults-IsLegal = record {
  obeys = (refl, (refl, (refl, (refl, (refl, (refl, (refl, (refl, tt))))))));
  values = All-IsChecked defaults (
    refl,
    (
      refl,
      (
        refl,
        (
          refl,
          (
            refl,
            (
              refl,
              (
                refl,
                (
                  refl,
                  (
                    refl,
                    (
                      refl,
                      (
                        refl,
                        (
                          refl,
                          (
                            refl,
                            (
                              refl,
                              (
                                refl,
                                (
                                  refl,
                                  (
                                    refl,
                                    (
                                      refl,
                                      (
                                        refl,
                                        (
                                          refl,
                                          (
                                            refl,
                                            (
                                              refl,
                                              (
                                                refl,
                                                (
                                                  refl,
                                                  (
                                                    refl,
                                                    (
                                                      refl,
                                                      (
                                                        refl,
                                                        (
                                                          refl,
                                                          (
                                                            refl,
                                                            (
                                                            refl,
                                                            (
                                                            refl,
                                                            (refl, (refl, (refl, (refl, tt)))),
                                                            ),
                                                            ),
                                                          ),
                                                        ),
                                                      ),
                                                    ),
                                                  ),
                                                ),
                                              ),
                                            ),
                                          ),
                                        ),
                                      ),
                                    ),
                                  ),
                                ),
                              ),
                            ),
                          ),
                        ),
                      ),
                    ),
                  ),
                ),
              ),
            ),
          ),
        ),
      ),
    ),
  );
}

-- A rule does not name the key.
abbrev Apart : String → Rule → Type 0
Apart k r = (str_eq k r.first ≡ false) × (str_eq k r.second ≡ false)

gpu_mode-Apart : All (Apart "gpu.mode") cross_rules
unfolding cross_rules
gpu_mode-Apart = (
  (refl, refl),
  (
    (refl, refl),
    (
      (refl, refl),
      ((refl, refl), ((refl, refl), ((refl, refl), ((refl, refl), ((refl, refl), tt))))),
    ),
  ),
)

put-Obeys :
    (k : String) (v : Value) (cfg : Dict Value) (rules : List Rule)
    → All (Apart k) rules
    → All (Obeys cfg) rules
    → All (Obeys (put k v cfg)) rules
put-Obeys k v cfg [] apart h = tt
put-Obeys k v cfg (r ∷ rest) apart h = (
  Obeys-same cfg (put k v cfg) r (get-put k r.first v cfg ∙ (rw apart.0.0 refl))
      (get-put k r.second v cfg ∙ (rw apart.0.1 refl)) h.0,
  put-Obeys k v cfg rest apart.1 h.1,
)

mode_name-accepts :
    (m : GpuMode) → check_one "gpu.mode" (string (mode_name m)) ≡ accepts (string (mode_name m))
unfolding check_one mode_name check_known check_spec check_kind one_of get table
mode_name-accepts GpuMode.auto = refl
mode_name-accepts GpuMode.low = refl
mode_name-accepts GpuMode.off = refl

pub moded-IsLegal :
    (m : GpuMode) (cfg : Dict Value)
    → IsLegal cfg
    → IsLegal (apply_updates cfg (("gpu.mode", string (mode_name m)) ∷ []))
unfolding apply_updates
moded-IsLegal m cfg legal = record {
  obeys = put-Obeys "gpu.mode" (string (mode_name m)) cfg cross_rules gpu_mode-Apart legal.obeys;
  values = put-IsChecked "gpu.mode" (string (mode_name m)) cfg (mode_name-accepts m) legal.values;
}

from_dict-IsLegal :
    (raw : Dict Value) (r : Dict Value × Dict Reason) → from_dict raw ≡ some r → IsLegal r.0
unfolding from_dict
from_dict-IsLegal raw r e = elim (Option-cases (validate raw defaults)) [
  | inl raised ↦ cc (rw (raised, from_dict) at e)
  | inr (v, ok) ↦
      subst IsLegal (ap (λ q. q.0) (some-injective _ _ (rw (ok, from_dict) at e)))
        (updated-IsLegal defaults raw v defaults-IsLegal ok)
]

pub load-IsLegal : (file : Loaded) (r : Dict Value × Dict Reason) → load file ≡ some r → IsLegal r.0
unfolding load
load-IsLegal no_file r e = subst IsLegal (ap (λ q. q.0) (some-injective _ _ e)) defaults-IsLegal
load-IsLegal unreadable r e = subst IsLegal (ap (λ q. q.0) (some-injective _ _ e)) defaults-IsLegal
load-IsLegal not_an_object r e =
    subst IsLegal (ap (λ q. q.0) (some-injective _ _ e)) defaults-IsLegal
load-IsLegal (object raw) r e = from_dict-IsLegal raw r e
