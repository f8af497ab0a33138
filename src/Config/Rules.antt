-- ===== src/Config/Rules.antt =====
-- Why the loop of `validate` in linux/turbomac/config.py runs often enough: every rule breaks at most
-- once.
use text.Mathlib.Text.{◌==◌ as str_eq}
use text.Mathlib.TextEquality.{eq_iff}
use mathlib.Core.Path.{ap₂, subst}
use mathlib.Core.Option.{some-injective}
use turbo_mac.Prelude.{
  ℕ, zero, suc, ◌+◌, ◌≤◌, ◌<◌, ◌≡◌, refl, sym, ◌∙◌, Bool, true, false, ◌&&◌, not, some, String,
  List, [], ◌∷◌, arith, if◌then◌else◌, length, All, Bool-cases, Option-cases, inl, inr, ◌⊎◌,
}
use turbo_mac.Dict.{Dict, get, has, pop, get-pop}
use turbo_mac.Config.{Value}
use turbo_mac.Config.Validate.{
  Rule, Verdict, cross_rules, merged, holds_in, culprits, reject_keys, reject, pass, passes,
  validate, check_all, nothing_yet,
}

-- Both keys of the rule come from the base.
spent : Dict Value → Rule → Bool
spent accepted r = not (has r.first accepted) && not (has r.second accepted)

unspent : Dict Value → List Rule → ℕ
unspent accepted [] = 0
unspent accepted (r ∷ rest) = let n = unspent accepted rest in if spent accepted r then n else suc n

unspent-le-length :
    (accepted : Dict Value) (rules : List Rule) → unspent accepted rules ≤ length rules
unfolding unspent
unspent-le-length accepted [] = omega arith
unspent-le-length accepted (r ∷ rest) = ground (arith, unspent-le-length accepted rest)

has-pop :
    (k j : String) (d : Dict Value) → has j (pop k d) ≡ (if str_eq k j then false else has j d)
unfolding has
has-pop k j d = rw get-pop (ground arith)

-- No key appears in `d'` that is not in `d`.
abbrev Shrinks : Dict Value → Dict Value → Type 0
Shrinks d d' = (k : String) → has k d ≡ false → has k d' ≡ false

Shrinks-reject_keys :
    (keys : List String) (why : String) (v : Verdict)
    → Shrinks v.accepted (reject_keys keys why v).accepted
unfolding reject_keys
Shrinks-reject_keys [] why v k h = h
Shrinks-reject_keys (j ∷ rest) why v k h =
    Shrinks-reject_keys rest why _ k (rw has-pop (ground (arith, h)))

Shrinks-reject : (r : Rule) (v : Verdict) → Shrinks v.accepted (reject r v).accepted
unfolding reject
Shrinks-reject r v = Shrinks-reject_keys (culprits v.accepted r) r.reason v

-- A rule that is rejected is spent.
spent-reject : (r : Rule) (v : Verdict) → spent (reject r v).accepted r ≡ true
unfolding reject culprits reject_keys spent
spent-reject r v = ground (
  arith,
  has-pop r.first r.first v.accepted,
  has-pop r.first r.second v.accepted,
  has-pop r.second r.first v.accepted,
  has-pop r.second r.second v.accepted,
  has-pop r.second r.first (pop r.first v.accepted),
  has-pop r.second r.second (pop r.first v.accepted),
  eq_iff r.first r.first,
  eq_iff r.second r.second,
  eq_iff r.first r.second,
  eq_iff r.second r.first,
)

spent-Shrinks : (d d' : Dict Value) (r : Rule) → Shrinks d d' → spent d r ≡ true → spent d' r ≡ true
unfolding spent
spent-Shrinks d d' r h e = ground (arith, h r.first, h r.second)

merged-eq-get : (base d : Dict Value) (k : String) → has k d ≡ false → merged base d k ≡ get k base
unfolding merged has
merged-eq-get base d k h = ground arith

-- A spent rule is decided by the base.
holds_in-spent :
    (base d : Dict Value) (r : Rule)
    → spent d r ≡ true
    → r.test (get r.first base) (get r.second base) ≡ true
    → holds_in base d r ≡ true
unfolding spent holds_in
holds_in-spent base d r e h =
    ap₂ r.test (merged-eq-get base d r.first (ground arith))
      (merged-eq-get base d r.second (ground arith))
    ∙ h

module _ (base start : Dict Value) where
  -- The base obeys the rules.
  abbrev Obeys : Dict Value → List Rule → Type 0
  Obeys d = All (λ r. r.test (get r.first d) (get r.second d) ≡ true)

  Shrinks-pass :
      (rules : List Rule) (v : Verdict) → Shrinks v.accepted (pass base start rules v).accepted
  unfolding pass
  Shrinks-pass [] v k h = h
  Shrinks-pass (r ∷ rest) v k h = elim (Bool-cases (holds_in base start r)) [
    | inl ok ↦ rw (ok, pass) (Shrinks-pass rest v k h)
    | inr broken ↦ rw (broken, pass) (Shrinks-pass rest (reject r v) k (Shrinks-reject r v k h))
  ]

  -- A pass leaves fewer unspent rules if it broke one, and else changes nothing.
  abbrev Progress : List Rule → Verdict → Verdict → Type 0
  Progress rules v v' =
      (unspent v'.accepted rules ≤ unspent start rules)
      × ((v'.broken ≡ v.broken)
            × (v'.accepted ≡ v.accepted)
            × All (λ r. holds_in base start r ≡ true) rules
          ⊎ ((v'.broken ≡ true) × (unspent v'.accepted rules < unspent start rules)))

  unspent-cons :
      (d d' : Dict Value) (r : Rule) (rest : List Rule)
      → Shrinks d d'
      → unspent d' (r ∷ rest) + unspent d rest ≤ unspent d (r ∷ rest) + unspent d' rest
  unfolding unspent
  unspent-cons d d' r rest h = ground (arith, spent-Shrinks d d' r h)

  unspent-cons_spent :
      (d d' : Dict Value) (r : Rule) (rest : List Rule)
      → spent d r ≡ false
      → spent d' r ≡ true
      → unspent d' rest ≤ unspent d rest
      → unspent d' (r ∷ rest) < unspent d (r ∷ rest)
  unfolding unspent
  unspent-cons_spent d d' r rest e e' le = rw (e, e') (omega arith)

  -- A broken rule was not spent before the pass.
  unspent_of_broken :
      (r : Rule)
      → r.test (get r.first base) (get r.second base) ≡ true
      → holds_in base start r ≡ false
      → spent start r ≡ false
  unspent_of_broken r ok broken = elim (Bool-cases (spent start r)) [
    | inl e ↦ cc (holds_in-spent base start r e ok)
    | inr e ↦ e
  ]

  broken-reject : (r : Rule) (v : Verdict) → (reject r v).broken ≡ true
  unfolding reject
  broken-reject r v = refl

  pass-Progress :
      (rules : List Rule) (v : Verdict)
      → Obeys base rules
      → Shrinks start v.accepted
      → Progress rules v (pass base start rules v)
  unfolding pass
  pass-Progress [] v obeys h = unfold unspent in (omega arith, inl (refl, refl, tt))
  pass-Progress (r ∷ rest) v obeys h = elim (Bool-cases (holds_in base start r)) [
    | inl ok ↦
        let last = pass base start rest v in
        let ih = pass-Progress rest v obeys.1 h in
        let count =
          unspent-cons start last.accepted r rest (λ k e. Shrinks-pass rest v k (h k e)) in
        rw (ok, pass)
          (
            omega (arith, count, ih.0),
            elim ih.1 [
              | inl (b, a, all) ↦ inl (b, a, (refl, all))
              | inr (b, lt) ↦ inr (b, omega (arith, count, lt))
            ],
          )
    | inr broken ↦
        let v1 = reject r v in
        let last = pass base start rest v1 in
        let ih = pass-Progress rest v1 obeys.1 (λ k e. Shrinks-reject r v k (h k e)) in
        let gone : spent last.accepted r ≡ true =
          spent-Shrinks v1.accepted last.accepted r (Shrinks-pass rest v1) (spent-reject r v) in
        let fewer =
          unspent-cons_spent start last.accepted r rest (unspent_of_broken r obeys.0 broken) gone
            ih.0 in
        let flagged : last.broken ≡ true = elim ih.1 [
          | inl (b, a, all) ↦ b ∙ broken-reject r v
          | inr (b, lt) ↦ b
        ] in
        rw (broken, pass) (omega (arith, fewer), inr (flagged, fewer))
  ]

-- With more passes than unspent rules, every rule holds of what is accepted in the end.
passes-holds_in :
    (n : ℕ) (base : Dict Value) (rules : List Rule) (v : Verdict)
    → Obeys base v.accepted base rules
    → unspent v.accepted rules < n
    → All (λ r. holds_in base (passes n base rules v).accepted r ≡ true) rules
unfolding passes
passes-holds_in zero base rules v obeys lt = absurd (omega arith)
passes-holds_in (suc n) base rules v obeys lt =
    let first : Verdict = pass base v.accepted rules (record v { broken = false }) in
    let (le, progress) =
      pass-Progress base v.accepted rules (record v { broken = false }) obeys (λ k e. e) in
    elim (Bool-cases first.broken) [
      | inl again ↦
          let fewer : unspent first.accepted rules < unspent v.accepted rules = elim progress [
            | inl (b, a, all) ↦ cc
            | inr (b, fewer) ↦ fewer
          ] in
          subst (λ b. HoldsAfter (if b then passes n base rules first else first)) (sym again)
            (passes-holds_in n base rules first obeys (omega arith))
      | inr done ↦ elim progress [
        | inl (b, a, all) ↦
            subst (λ b. HoldsAfter (if b then passes n base rules first else first)) (sym done)
              (subst (λ d. All (λ r. holds_in base d r ≡ true) rules) (sym a) all)
        | inr (b, fewer) ↦ cc
      ]
    ]
  where
    HoldsAfter : Verdict → Type 0
    HoldsAfter w = All (λ r. holds_in base w.accepted r ≡ true) rules

-- If the base obeys the cross rules and `validate` returns, then every cross rule holds of the base
-- with the accepted updates put over it: the `len(CROSS_RULES) + 1` passes are enough.
pub validate-holds_in :
    (updates base : Dict Value) (v : Verdict)
    → All (λ r. r.test (get r.first base) (get r.second base) ≡ true) cross_rules
    → validate updates base ≡ some v
    → All (λ r. holds_in base v.accepted r ≡ true) cross_rules
unfolding validate
validate-holds_in updates base v obeys h = elim (Option-cases (check_all updates nothing_yet)) [
  | inl none_yet ↦ cc (rw (none_yet, validate) at h)
  | inr (checked, e) ↦
      let result : passes (length cross_rules + 1) base cross_rules checked ≡ v =
        some-injective _ _ (rw (e, validate) at h) in
      subst (λ (w : Verdict). All (λ r. holds_in base w.accepted r ≡ true) cross_rules) result
        (passes-holds_in (length cross_rules + 1) base cross_rules checked obeys
          (omega (arith, unspent-le-length checked.accepted cross_rules)))
]
