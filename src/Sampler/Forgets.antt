-- ===== src/Sampler/Forgets.antt =====
-- What a `Window` of linux/turbomac/daemon/sampler.py forgets is never asked for.
use turbo_mac.Prelude.{
  ℕ, ◌≤◌, ◌≡◌, refl, sym, ap, ◌∙◌, Option, none, some, List, [], ◌∷◌, ◌++◌, arith, All,
}
use turbo_mac.Sampler.Window.{
  Window, Entry, drop_old, push, recent, values_of, values, mean, median, max, mean_of, median_of,
  max_of,
}

-- A window that keeps everything: the specification.
abbrev pub History : Type 0
History = List Entry

unfoldable pub record_all : History → List (ℕ × Option ℕ) → History
record_all h [] = h
record_all h ((t, none) ∷ rest) = record_all h rest
record_all h ((t, some v) ∷ rest) = record_all (h ++ (t, v) ∷ []) rest

unfoldable pub push_all : Window → List (ℕ × Option ℕ) → Window
push_all w [] = w
push_all w ((t, v) ∷ rest) = push_all (push w t v) rest

values_of-append :
    (now span : ℕ) (a b : List Entry)
    → values_of now span (a ++ b) ≡ values_of now span a ++ values_of now span b
unfolding values_of
values_of-append now span [] b = refl
values_of-append now span (e ∷ a) b = ground (arith, values_of-append now span a b)

-- What is dropped at time `t` is not recent from then on.
values_of-drop_old :
    (keep t now span : ℕ) (es : List Entry)
    → span ≤ keep
    → t ≤ now
    → values_of now span (drop_old keep t es) ≡ values_of now span es
unfolding values_of drop_old recent
values_of-drop_old keep t now span [] h le = refl
values_of-drop_old keep t now span (e ∷ es) h le =
    ground (arith, values_of-drop_old keep t now span es h le)

-- Two lists of entries look the same from `now` on.
abbrev SameFrom : (now span : ℕ) → List Entry → List Entry → Type 0
SameFrom now span a b = values_of now span a ≡ values_of now span b

SameFrom-push :
    (now span t : ℕ) (v : Option ℕ) (w : Window) (h : History)
    → span ≤ w.keep
    → t ≤ now
    → SameFrom now span w.entries h
    → SameFrom now span (push w t v).entries (record_all h ((t, v) ∷ []))
unfolding push record_all
SameFrom-push now span t none w h fits le same = same
SameFrom-push now span t (some v) w h fits le same =
    values_of-drop_old w.keep t now span (w.entries ++ (t, v) ∷ []) fits le
    ∙ values_of-append now span w.entries ((t, v) ∷ [])
    ∙ ap (λ xs. xs ++ values_of now span ((t, v) ∷ [])) same
    ∙ sym (values_of-append now span h ((t, v) ∷ []))

push-keep : (w : Window) (t : ℕ) (v : Option ℕ) → (push w t v).keep ≡ w.keep
unfolding push
push-keep w t none = refl
push-keep w t (some v) = refl

record_all-cons :
    (h : History) (t : ℕ) (v : Option ℕ) (rest : List (ℕ × Option ℕ))
    → record_all h ((t, v) ∷ rest) ≡ record_all (record_all h ((t, v) ∷ [])) rest
unfolding record_all
record_all-cons h t none rest = refl
record_all-cons h t (some v) rest = refl

SameFrom-push_all :
    (now span : ℕ) (w : Window) (h : History) (samples : List (ℕ × Option ℕ))
    → span ≤ w.keep
    → All (λ s. s.0 ≤ now) samples
    → SameFrom now span w.entries h
    → SameFrom now span (push_all w samples).entries (record_all h samples)
unfolding push_all
SameFrom-push_all now span w h [] fits all same = unfold record_all in same
SameFrom-push_all now span w h ((t, v) ∷ rest) fits all same = rw record_all-cons (
    SameFrom-push_all now span (push w t v) (record_all h ((t, v) ∷ [])) rest
      (omega (arith, fits, push-keep w t v)) all.1 (SameFrom-push now span t v w h fits all.0 same))

-- A window refines the history that keeps every sample: after any samples, in any order of their
-- times, none of them later than `now`, the values, the mean, the median and the maximum over a span
-- that is at most what the window keeps are those of the whole history.
pub Window_refines :
    (keep now span : ℕ) (samples : List (ℕ × Option ℕ))
    → span ≤ keep
    → All (λ s. s.0 ≤ now) samples
    → let w = push_all (record { keep = keep; entries = [] }) samples in
      let all = values_of now span (record_all [] samples) in
      (values w now span ≡ all)
      × (mean w now span ≡ mean_of all)
      × (median w now span ≡ median_of all)
      × (max w now span ≡ max_of all)
unfolding values mean median max
Window_refines keep now span samples fits all =
    let same =
      SameFrom-push_all now span (record { keep = keep; entries = [] }) [] samples fits all refl in
    (same, ap mean_of same, ap median_of same, ap max_of same)
