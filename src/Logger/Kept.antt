-- ===== src/Logger/Kept.antt =====
-- What `prune` of linux/turbomac/daemon/logger.py leaves.
use text.Mathlib.TextEquality.{eq_iff}
use turbo_mac.Prelude.{
  ℕ, ◌+◌, ◌-◌, ◌*◌, ◌≤◌, ◌≡◌, refl, ap, ◌∙◌, Bool, true, ◌++◌, none, some, List, [], ◌∷◌, arith,
  leb, ltb, if◌then◌else◌, one, All, Bool-cases, Option-cases, inl, inr, ◌⊎◌, String,
}
use turbo_mac.Logger.Prune.{
  File, Kept, expired, split, total_size, shrink, plan, contains, without, is_gone, prune,
}
use turbo_mac.Logger.Left.{
  readable, stays, IsGone, readable-without, stays-split, stays-shrink, total_size-stays, stays-All,
}

-- The names of the current files of a list, as files and as kept.
pub current_files : List File → List String
current_files [] = []
current_files (f ∷ rest) =
    let later = current_files rest in
    elim f.stat [ none ↦ later | some st ↦ if f.current then f.name ∷ later else later ]

pub current_kept : List Kept → List String
current_kept [] = []
current_kept (k ∷ rest) =
    let later = current_kept rest in if k.current then k.name ∷ later else later

module _ (limit : ℕ) where
  shrink-le : (total : ℕ) (ks : List Kept) → total_size (shrink limit total ks).1 ≤ total_size ks
  unfolding shrink total_size
  shrink-le total [] = omega arith
  shrink-le total (k ∷ rest) = elim (Bool-cases (if leb total limit then true else k.current)) [
    | inl e ↦ rw (e, shrink) (omega (arith, shrink-le total rest))
    | inr e ↦ rw (e, shrink) (omega (arith, shrink-le (total - k.size) rest))
  ]

  -- Within the limit, or only the current file is left.
  abbrev Fits : ℕ → List Kept → Type 0
  Fits before ks = (before + total_size ks ≤ limit) ⊎ All (λ k. k.current ≡ true) ks

  Fits-skip :
      (total before : ℕ) (k : Kept) (ks : List Kept)
      → before + k.size + total_size ks ≤ total
      → (if leb total limit then true else k.current) ≡ true
      → Fits (before + k.size) ks
      → Fits before (k ∷ ks)
  unfolding total_size
  Fits-skip total before k ks le e (inl fit) = inl (omega (arith, fit))
  Fits-skip total before k ks le e (inr all) = elim (Bool-cases (leb total limit)) [
    | inl small ↦ inl (ground (arith, small, le))
    | inr large ↦ inr (rw (large) at e, all)
  ]

  -- The running total is that of the files kept so far and of those to come.
  shrink-Fits :
      (total before : ℕ) (ks : List Kept)
      → total ≡ before + total_size ks
      → Fits before (shrink limit total ks).1
  unfolding shrink total_size
  shrink-Fits total before [] h = inr tt
  shrink-Fits total before (k ∷ rest) h =
      elim (Bool-cases (if leb total limit then true else k.current)) [
        | inl e ↦
            rw (e, shrink)
              (Fits-skip total before k (shrink limit total rest).1
                (omega (arith, h, shrink-le total rest)) e
                (shrink-Fits total (before + k.size) rest (omega (arith, h))))
        | inr e ↦ rw (e, shrink) (shrink-Fits (total - k.size) before rest (omega (arith, h)))
      ]

  shrink-current_kept :
      (total : ℕ) (ks : List Kept) → current_kept (shrink limit total ks).1 ≡ current_kept ks
  unfolding shrink current_kept
  shrink-current_kept total [] = refl
  shrink-current_kept total (k ∷ rest) =
      elim (Bool-cases (if leb total limit then true else k.current)) [
        | inl e ↦ rw (e, shrink) (ground (arith, shrink-current_kept total rest))
        | inr e ↦ rw (e, shrink) (ground (arith, e, shrink-current_kept (total - k.size) rest))
      ]

split-current_kept :
    (now days : ℕ) (files : List File)
    → current_kept (split now days files).keep ≡ current_files files
unfolding split expired current_kept current_files
split-current_kept now days [] = refl
split-current_kept now days (f ∷ rest) =
    let ih = split-current_kept now days rest in
    elim (Option-cases f.stat) [
      | inl e ↦ rw (e, split, current_files) ih
      | inr (st, e) ↦ elim (Bool-cases f.current) [
        | inl c ↦ rw (e, split, current_files, c) (ap (λ xs. f.name ∷ xs) ih)
        | inr c ↦
            rw (e, split, current_files, c)
              (elim (Bool-cases (ltb (st.mtime + days * 86_400 * one) now)) [
                | inl old ↦ rw old ih
                | inr young ↦ rw young ih
              ])
      ]
    ]

contains-cons : (m n : String) (l : List String) → contains n l ≡ true → contains n (m ∷ l) ≡ true
unfolding contains
contains-cons m n l h = ground (arith, h)

contains-head : (n : String) (l : List String) → contains n (n ∷ l) ≡ true
unfolding contains
contains-head n l = ground (arith, eq_iff n n)

-- Every name of a list is gone once the list is unlinked and each `os.unlink` works.
All-is_gone :
    (unlinks : String → Bool) (l whole : List String)
    → ((n : String) → contains n l ≡ true → contains n whole ≡ true)
    → All (λ n. unlinks n ≡ true) l
    → All (λ n. is_gone unlinks whole n ≡ true) l
unfolding is_gone
All-is_gone unlinks [] whole inside works = tt
All-is_gone unlinks (n ∷ rest) whole inside (works, more) =
    let here = inside n (contains-head n rest) in
    (
      ground (arith, here, works),
      All-is_gone unlinks rest whole (λ m h. inside m (contains-cons n m rest h)) more,
    )

All-parts : (P : String → Type 0) (a b : List String) → All P (a ++ b) → All P a × All P b
All-parts P [] b h = (tt, h)
All-parts P (n ∷ a) b (h, hs) = let r = All-parts P a b hs in ((h, r.0), r.1)

plan-Fits :
    (now days max_mib : ℕ) (files : List File)
    → Fits (max_mib * 1024 * 1024) 0 (plan now days max_mib files).1
unfolding plan
plan-Fits now days max_mib files =
    let limit = max_mib * 1024 * 1024 in
    let kept = (split now days files).keep in
    shrink-Fits limit (total_size kept) 0 kept (omega arith)

plan-stays :
    (gone : String → Bool) (now days max_mib : ℕ) (files : List File)
    → All (IsGone gone) (plan now days max_mib files).0
    → stays gone (readable files) ≡ stays gone (plan now days max_mib files).1
unfolding plan
plan-stays gone now days max_mib files h =
    let s = split now days files in
    let parts = All-parts (IsGone gone) s.removed _ h in
    stays-split gone now days files parts.0
    ∙ stays-shrink gone (max_mib * 1024 * 1024) (total_size s.keep) s.keep parts.1

-- `prune` at any time, with any retention and any files, where each `os.unlink` that it calls works: of
-- the files that are left in the directory, those that can be read have sizes that sum to at most
-- `max_mib` mebibytes, or each of them is a current file; and the readable current files are, in their
-- order, among those that `prune` keeps.
pub prune-Fits :
    (unlinks : String → Bool) (now days max_mib : ℕ) (files : List File)
    → All (λ n. unlinks n ≡ true) (prune unlinks now days max_mib files).0
    → let left = readable (prune unlinks now days max_mib files).1 in
      ((total_size left ≤ max_mib * 1024 * 1024) ⊎ All (λ k. k.current ≡ true) left)
      × (current_kept (plan now days max_mib files).1 ≡ current_files files)
unfolding prune plan
prune-Fits unlinks now days max_mib files works =
    let p = plan now days max_mib files in
    let gone = is_gone unlinks p.0 in
    let same : readable (without gone files) ≡ stays gone p.1 =
      readable-without gone files
      ∙ plan-stays gone now days max_mib files (All-is_gone unlinks p.0 p.0 (λ n h. h) works) in
    let kept = (split now days files).keep in
    (
      (elim (plan-Fits now days max_mib files) [
        | inl fit ↦ inl (rw same (omega (arith, fit, total_size-stays gone p.1)))
        | inr all ↦ inr (rw same (stays-All gone (λ k. k.current ≡ true) p.1 all))
      ]),
      shrink-current_kept (max_mib * 1024 * 1024) (total_size kept) kept
          ∙ split-current_kept now days files,
    )
