-- ===== src/Sampler/Sane.antt =====
-- What the governor is given by the sampler of linux/turbomac/daemon/sampler.py is plausible.
use native.Mathlib.Nat.{le-div_iff_mul-le, div-le_of_le-mul, mul_comm}
use turbo_mac.Prelude.{
  ℕ, suc, zero, ◌+◌, ◌-◌, ◌*◌, ◌/◌, ◌≤◌, ◌<◌, ◌≡◌, refl, ap, ◌∙◌, Bool, true, false, ◌&&◌, Option,
  none, some, List, [], ◌∷◌, ◌++◌, arith, ltb, leb, if_keeps, if◌then◌else◌, All, All-append,
  Bool-cases, inl, inr, length, get_elem?, or_zero, one,
}
use turbo_mac.Sampler.Window.{
  Window, Entry, drop_old, push, values_of, recent, values, mean, median, mean_of, median_of, sum,
  insert, sort, middle,
}
use turbo_mac.Sampler.Fast.{
  Reading, SmcReads, Powers, Held, Sampler, GovInput, new_sampler, valid_input, valid_acpw,
  held_after, fresh_of, push_windows, fast, gov_input, latest_pdtr,
}

module _ (lo hi : ℕ) where
  abbrev pub Between : ℕ → Type 0
  Between v = (lo ≤ v) × (v ≤ hi)

  abbrev EntryBetween : Entry → Type 0
  EntryBetween e = Between e.1

  -- A number that may be missing.
  abbrev pub MaybeBetween : Option ℕ → Type 0
  MaybeBetween none = Unit {0}
  MaybeBetween (some v) = Between v

  All-drop_old :
      (keep t : ℕ) (es : List Entry) → All EntryBetween es → All EntryBetween (drop_old keep t es)
  unfolding drop_old
  All-drop_old keep t [] all = tt
  All-drop_old keep t (e ∷ rest) all =
      if_keeps (All EntryBetween) (ltb (e.0 + keep) t) _ _ (All-drop_old keep t rest all.1) all

  pub push-Between :
      (w : Window) (t : ℕ) (v : Option ℕ)
      → MaybeBetween v
      → All EntryBetween w.entries
      → All EntryBetween (push w t v).entries
  unfolding push
  push-Between w t none h all = all
  push-Between w t (some v) h all =
      All-drop_old w.keep t (w.entries ++ (t, v) ∷ [])
        (All-append EntryBetween w.entries _ all (h, tt))

  values_of-Between :
      (now span : ℕ) (es : List Entry) → All EntryBetween es → All Between (values_of now span es)
  unfolding values_of
  values_of-Between now span [] all = tt
  values_of-Between now span (e ∷ rest) all =
      let later = values_of-Between now span rest all.1 in
      if_keeps (All Between) (recent now span e) (e.1 ∷ values_of now span rest) _ (all.0, later)
        later

  sum-Between :
      (vs : List ℕ) → All Between vs → (lo * length vs ≤ sum vs) × (sum vs ≤ hi * length vs)
  unfolding sum
  sum-Between [] all = (omega arith, omega arith)
  sum-Between (v ∷ vs) all = grind (arith, sum-Between vs all.1)

  insert-Between : (v : ℕ) (vs : List ℕ) → Between v → All Between vs → All Between (insert v vs)
  unfolding insert
  insert-Between v [] h all = (h, tt)
  insert-Between v (u ∷ rest) h all =
      if_keeps (All Between) (leb v u) _ _ (h, all) (all.0, insert-Between v rest h all.1)

  sort-Between : (vs : List ℕ) → All Between vs → All Between (sort vs)
  unfolding sort
  sort-Between [] all = tt
  sort-Between (v ∷ vs) all = insert-Between v (sort vs) all.0 (sort-Between vs all.1)

  get_elem?-Between :
      (vs : List ℕ) (i : ℕ) → All Between vs → i < length vs → Between (or_zero (get_elem? vs i))
  get_elem?-Between [] i all h = elim h [ ]
  get_elem?-Between (v ∷ vs) zero all h = all.0
  get_elem?-Between (v ∷ vs) (suc i) all h = get_elem?-Between vs i all.1 (omega arith)

length-insert : (v : ℕ) (vs : List ℕ) → length (insert v vs) ≡ suc (length vs)
unfolding insert
length-insert v [] = refl
length-insert v (u ∷ rest) = ground (arith, length-insert v rest)

length-sort : (vs : List ℕ) → length (sort vs) ≡ length vs
unfolding sort
length-sort [] = refl
length-sort (v ∷ vs) = length-insert v (sort vs) ∙ ap suc (length-sort vs)

length_pos : (v : ℕ) (vs : List ℕ) → 0 < length (v ∷ vs)
length_pos v vs = omega arith

module _ (lo hi : ℕ) where
  middle-Between :
      (vs : List ℕ) → All (Between lo hi) vs → 0 < length vs → Between lo hi (middle vs)
  unfolding middle
  middle-Between vs all h =
      let low = get_elem?-Between lo hi vs (length vs / 2 - 1) all (omega arith) in
      let high = get_elem?-Between lo hi vs (length vs / 2) all (omega arith) in
      ground (arith, low, high)

  median_of-Between : (vs : List ℕ) → All (Between lo hi) vs → MaybeBetween lo hi (median_of vs)
  unfolding median_of
  median_of-Between [] all = tt
  median_of-Between (v ∷ vs) all =
      middle-Between (sort (v ∷ vs)) (sort-Between lo hi (v ∷ vs) all)
        (omega (arith, length-sort (v ∷ vs)))

  quotient-Between : (s n : ℕ) → 0 < n → lo * n ≤ s → s ≤ hi * n → Between lo hi (s / n)
  quotient-Between s n h low high =
      ((le-div_iff_mul-le h).1 low, div-le_of_le-mul n (rw mul_comm high))

  mean_of-Between : (vs : List ℕ) → All (Between lo hi) vs → MaybeBetween lo hi (mean_of vs)
  unfolding mean_of
  mean_of-Between [] all = tt
  mean_of-Between (v ∷ vs) all =
      let total = sum-Between lo hi (v ∷ vs) all in
      quotient-Between _ _ (length_pos v vs) total.0 total.1

-- The plausible values: a supply of 30 to 100 W, an input of at most 250 W.
abbrev pub Supply : Option ℕ → Type 0
Supply = MaybeBetween (30 * one) (100 * one)

abbrev pub Input : Option ℕ → Type 0
Input = MaybeBetween 0 (250 * one)

valid_input-Input : (r : Reading) → Input (valid_input r)
unfolding valid_input
valid_input-Input (Reading.floating n) = elim (Bool-cases (ltb n (250 * one))) [
  | inl e ↦ rw e (omega arith, ground arith)
  | inr e ↦ rw e tt
]
valid_input-Input (Reading.whole n) = tt
valid_input-Input Reading.other = tt

valid_acpw-Supply : (r : Reading) → Supply (valid_acpw r)
unfolding valid_acpw
valid_acpw-Supply (Reading.whole n) = elim (Bool-cases (leb 30_000 n && leb n 100_000)) [
  | inl e ↦ rw e (ground arith, ground arith)
  | inr e ↦ rw e tt
]
valid_acpw-Supply (Reading.floating n) = tt
valid_acpw-Supply Reading.other = tt

-- What holds of a sampler between two ticks.
pub record IsSane (s : Sampler) : Type 0 where
  pub supply : All (λ e. Between (30 * one) (100 * one) e.1) s.w.acpw.entries
  pub input : All (λ e. Between 0 (250 * one) e.1) s.w.input.entries
  pub held_supply : Supply s.held.acpw_w
  pub latest_input : Input (latest_pdtr s.latest)

new_sampler-IsSane : IsSane new_sampler
unfolding latest_pdtr
new_sampler-IsSane = record { supply = tt; input = tt; held_supply = tt; latest_input = tt }

held_after-Supply :
    (full : Bool) (smc : SmcReads) (held : Held)
    → Supply held.acpw_w
    → Supply (held_after full smc held).acpw_w
unfolding held_after
held_after-Supply true smc held h = valid_acpw-Supply smc.acpw
held_after-Supply false smc held h = h

fresh_of-Supply :
    (full : Bool) (held : Held) → Supply held.acpw_w → Supply (fresh_of full held).acpw_w
unfolding fresh_of
fresh_of-Supply true held h = h
fresh_of-Supply false held h = tt

latest_pdtr-Input : (b : Bool) (o : Option ℕ) → Input o → Input (if b then o else none)
latest_pdtr-Input true o h = h
latest_pdtr-Input false o h = tt

fast-IsSane :
    (now wall : ℕ) (full : Bool) (p : Powers) (smc : SmcReads) (s : Sampler)
    → IsSane s
    → IsSane (fast now wall full p smc s)
unfolding fast push_windows latest_pdtr
fast-IsSane now wall full p smc s sane =
    let held = held_after-Supply full smc s.held sane.held_supply in
    let pdtr = valid_input-Input smc.pdtr in
    record {
      supply =
          push-Between (30 * one) (100 * one) s.w.acpw now _ (fresh_of-Supply full _ held)
            sane.supply;
      input = push-Between 0 (250 * one) s.w.input now _ pdtr sane.input;
      held_supply = held;
      latest_input = latest_pdtr-Input _ _ pdtr;
    }

-- A call of `fast`.
pub record Tick : Type 0 where
  pub now : ℕ
  pub wall : ℕ
  pub full : Bool
  pub powers : Powers
  pub smc : SmcReads

unfoldable pub run : Sampler → List Tick → Sampler
run s [] = s
run s (t ∷ rest) = run (fast t.now t.wall t.full t.powers t.smc s) rest

run-IsSane : (s : Sampler) (ticks : List Tick) → IsSane s → IsSane (run s ticks)
unfolding run
run-IsSane s [] sane = sane
run-IsSane s (t ∷ rest) sane =
    run-IsSane (fast t.now t.wall t.full t.powers t.smc s) rest
      (fast-IsSane t.now t.wall t.full t.powers t.smc s sane)

-- What a sampler gives the governor, as bounds.
abbrev pub GivesSane : GovInput → Type 0
GivesSane g = Input g.pdtr_w × Input g.input_mean_1s × Supply g.acpw_w

-- After any run of fast ticks from a new sampler, whatever the sensors return and at any time: the
-- input power that the governor is given is none or at most 250 W, so is the mean of the last second,
-- and the supply limit is none or between 30 and 100 W.
pub run-GivesSane :
    (ticks : List Tick) (now : ℕ) → GivesSane (gov_input (run new_sampler ticks) now)
unfolding gov_input mean median values
run-GivesSane ticks now =
    let sane = run-IsSane new_sampler ticks new_sampler-IsSane in
    (
      sane.latest_input,
      mean_of-Between 0 (250 * one) _ (values_of-Between 0 (250 * one) now one _ sane.input),
      median_of-Between (30 * one) (100 * one) _
          (values_of-Between (30 * one) (100 * one) now (10 * one) _ sane.supply),
    )
