-- ===== src/Dict.antt =====
-- Python's dictionaries with string keys, as association lists that hold a key once or more; the
-- first entry counts.
use text.Mathlib.Text.{◌==◌ as str_eq}
use text.Mathlib.TextEquality.{eq_iff}
use turbo_mac.Prelude.{
  String, ◌≡◌, Bool, Option, none, some, List, [], ◌∷◌, arith, if◌then◌else◌, is_some,
}

abbrev pub Dict {ℓ} : Type ℓ → Type ℓ
Dict V = List (String × V)

module _ {ℓ} {V : Type ℓ} where
  unfoldable pub get : String → Dict V → Option V
  get k [] = none
  get k ((j, v) ∷ rest) = if str_eq j k then some v else get k rest

  -- `k in d`
  unfoldable pub has : String → Dict V → Bool
  unfolding get
  has k d = is_some (get k d)

  -- `d.pop(k, None)`, for its effect.
  unfoldable pub pop : String → Dict V → Dict V
  pop k [] = []
  pop k ((j, v) ∷ rest) = let left = pop k rest in if str_eq j k then left else (j, v) ∷ left

  -- `d[k] = v`
  unfoldable pub put : String → V → Dict V → Dict V
  put k v [] = (k, v) ∷ []
  put k v ((j, w) ∷ rest) = if str_eq j k then (k, v) ∷ rest else (j, w) ∷ put k v rest

  -- `d.setdefault(k, v)`, for its effect.
  unfoldable pub set_default : String → V → Dict V → Dict V
  unfolding has put
  set_default k v d = if has k d then d else put k v d

  pub get-pop :
      (k j : String) (d : Dict V) → get j (pop k d) ≡ (if str_eq k j then none else get j d)
  unfolding get pop
  get-pop k j [] = ground arith
  get-pop k j ((i, v) ∷ rest) = ground (arith, get-pop k j rest, eq_iff i k, eq_iff i j, eq_iff k j)

  pub get-put :
      (k j : String) (v : V) (d : Dict V)
      → get j (put k v d) ≡ (if str_eq k j then some v else get j d)
  unfolding get put
  get-put k j v [] = ground arith
  get-put k j v ((i, w) ∷ rest) =
      ground (arith, get-put k j v rest, eq_iff i k, eq_iff i j, eq_iff k j)
