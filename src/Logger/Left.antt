-- ===== src/Logger/Left.antt =====
-- The directory after `prune` of linux/turbomac/daemon/logger.py: what of it the two loops keep.
use turbo_mac.Prelude.{
  ℕ, ◌-◌, ◌≤◌, ◌≡◌, refl, ap, Bool, true, none, some, List, [], ◌∷◌, arith, leb, if◌then◌else◌,
  if_keeps, All, Bool-cases, Option-cases, inl, inr, String,
}
use turbo_mac.Logger.Prune.{File, Stat, Kept, expired, split, total_size, shrink, without}

abbrev as_kept : File → Stat → Kept
as_kept f st = record { name = f.name; current = f.current; size = st.size }

-- The files that could be read, as kept.
unfoldable pub readable : List File → List Kept
readable [] = []
readable (f ∷ rest) =
    let later = readable rest in elim f.stat [ none ↦ later | some st ↦ as_kept f st ∷ later ]

module _ (gone : String → Bool) where
  -- The kept files that are not gone.
  unfoldable pub stays : List Kept → List Kept
  stays [] = []
  stays (k ∷ rest) = let later = stays rest in if gone k.name then later else k ∷ later

  abbrev pub IsGone : String → Type 0
  IsGone n = gone n ≡ true

  pub readable-without :
      (files : List File) → readable (without gone files) ≡ stays (readable files)
  unfolding without readable stays
  readable-without [] = refl
  readable-without (f ∷ rest) =
      let ih = readable-without rest in
      elim (Option-cases f.stat) [
        | inl e ↦ elim (Bool-cases (gone f.name)) [
          | inl g ↦ rw (g, e, readable) ih
          | inr g ↦ rw (g, readable, e) ih
        ]
        | inr (st, e) ↦ elim (Bool-cases (gone f.name)) [
          | inl g ↦ rw (g, e, stays, g) ih
          | inr g ↦ rw (g, readable, e, stays, g) (ap (λ xs. as_kept f st ∷ xs) ih)
        ]
      ]

  -- What the first loop is to unlink, it does not keep; all else that is readable it keeps.
  pub stays-split :
      (now days : ℕ) (files : List File)
      → All IsGone (split now days files).removed
      → stays (readable files) ≡ stays (split now days files).keep
  unfolding split readable stays
  stays-split now days [] h = refl
  stays-split now days (f ∷ rest) h = elim (Option-cases f.stat) [
    | inl e ↦ rw (e, readable, split) (stays-split now days rest (rw (e, split) at h))
    | inr (st, e) ↦ elim (Bool-cases (expired now days f.current st)) [
      | inl old ↦
          let h' = rw (e, split, old) at h in
          rw (e, readable, split, old, stays, h'.0) (stays-split now days rest h'.1)
      | inr young ↦
          let ih = stays-split now days rest (rw (e, split, young) at h) in
          rw (e, readable, split, young, stays)
            (ap (λ xs. if gone f.name then xs else as_kept f st ∷ xs) ih)
    ]
  ]

  pub stays-shrink :
      (limit total : ℕ) (ks : List Kept)
      → All IsGone (shrink limit total ks).0
      → stays ks ≡ stays (shrink limit total ks).1
  unfolding shrink stays
  stays-shrink limit total [] h = refl
  stays-shrink limit total (k ∷ rest) h =
      elim (Bool-cases (if leb total limit then true else k.current)) [
        | inl e ↦
            let ih = stays-shrink limit total rest (rw (e, shrink) at h) in
            rw (e, shrink, stays) (ap (λ xs. if gone k.name then xs else k ∷ xs) ih)
        | inr e ↦
            let h' = rw (e, shrink) at h in
            rw (e, shrink, h'.0) (stays-shrink limit (total - k.size) rest h'.1)
      ]

  pub total_size-stays : (ks : List Kept) → total_size (stays ks) ≤ total_size ks
  unfolding total_size stays
  total_size-stays [] = omega arith
  total_size-stays (k ∷ rest) = ground (arith, total_size-stays rest)

  pub stays-All : (P : Kept → Type 0) (ks : List Kept) → All P ks → All P (stays ks)
  unfolding stays
  stays-All P [] h = tt
  stays-All P (k ∷ rest) (h, hs) =
      if_keeps (λ (l : List Kept). All P l) (gone k.name) _ _ (stays-All P rest hs)
        (h, stays-All P rest hs)
