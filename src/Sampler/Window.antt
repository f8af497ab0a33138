-- ===== src/Sampler/Window.antt =====
-- `Window` of linux/turbomac/daemon/sampler.py: timestamped values, the oldest first.
use turbo_mac.Prelude.{
  ℕ, ◌+◌, ◌-◌, ◌/◌, ◌%◌, Bool, Option, none, some, List, [], ◌∷◌, ◌++◌, leb, ltb, ◌==◌,
  if◌then◌else◌, length, get_elem?, or_zero, greater,
}

-- A time and a value.
abbrev pub Entry : Type 0
Entry = ℕ × ℕ

pub record Window : Type 0 where
  pub keep : ℕ
  pub entries : List Entry

-- The `while` of `push`: entries older than `keep` at time `t` go, from the left.
unfoldable pub drop_old : (keep t : ℕ) → List Entry → List Entry
drop_old keep t [] = []
drop_old keep t (e ∷ rest) =
    let left = drop_old keep t rest in if ltb (e.0 + keep) t then left else e ∷ rest

-- `push`; a value that is no number is not kept.
unfoldable pub push : Window → ℕ → Option ℕ → Window
unfolding drop_old
push w t none = w
push w t (some v) = record w { entries = drop_old w.keep t (w.entries ++ (t, v) ∷ []) }

-- `t > now - span + 1e-9`
unfoldable pub recent : (now span : ℕ) → Entry → Bool
recent now span e = ltb (now + 1) (e.0 + span)

unfoldable pub values_of : (now span : ℕ) → List Entry → List ℕ
unfolding recent
values_of now span [] = []
values_of now span (e ∷ rest) =
    let later = values_of now span rest in if recent now span e then e.1 ∷ later else later

unfoldable pub values : Window → (now span : ℕ) → List ℕ
values w now span = values_of now span w.entries

unfoldable pub sum : List ℕ → ℕ
sum [] = 0
sum (v ∷ rest) = v + sum rest

-- The quotient is rounded down to a billionth.
unfoldable pub mean_of : List ℕ → Option ℕ
mean_of [] = none
mean_of (v ∷ rest) = some (sum (v ∷ rest) / length (v ∷ rest))

unfoldable pub insert : ℕ → List ℕ → List ℕ
insert v [] = v ∷ []
insert v (u ∷ rest) = let later = insert v rest in if leb v u then v ∷ u ∷ rest else u ∷ later

unfoldable pub sort : List ℕ → List ℕ
unfolding insert
sort [] = []
sort (v ∷ rest) = insert v (sort rest)

-- `statistics.median`: the middle of the sorted values, or the mean of the two in the middle.
unfoldable pub middle : List ℕ → ℕ
middle sorted =
    let half = length sorted / 2 in
    let high = or_zero (get_elem? sorted half) in
    let low = or_zero (get_elem? sorted (half - 1)) in
    if length sorted % 2 == 1 then high else (low + high) / 2

unfoldable pub median_of : List ℕ → Option ℕ
unfolding sort middle
median_of [] = none
median_of (v ∷ rest) = some (middle (sort (v ∷ rest)))

unfoldable pub max_of : List ℕ → Option ℕ
max_of [] = none
max_of (v ∷ rest) = elim (max_of rest) [ none ↦ some v | some m ↦ some (greater v m) ]

unfoldable pub mean : Window → (now span : ℕ) → Option ℕ
mean w now span = mean_of (values w now span)

unfoldable pub median : Window → (now span : ℕ) → Option ℕ
median w now span = median_of (values w now span)

unfoldable pub max : Window → (now span : ℕ) → Option ℕ
max w now span = max_of (values w now span)
