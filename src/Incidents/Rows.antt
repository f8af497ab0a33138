-- ===== src/Incidents/Rows.antt =====
-- Where the rows of `last_samples` (linux/turbomac/daemon/incidents.py) come from.
use Prim.Native.String.{compare}
use text.Mathlib.Text.{◌==◌ as str_eq, is_lt}
use turbo_mac.Prelude.{
  ℕ, zero, suc, ◌-◌, ◌≤◌, ◌≡◌, Bool, true, false, Option, none, some, String, List, [], ◌∷◌, ◌++◌,
  arith, length, drop, All, All-append, Bool-cases, inl, inr, ◌⊎◌, if_keeps, leb,
}
use turbo_mac.Dict.{Dict, put}
use turbo_mac.Incidents.Samples.{
  Content, SampleFile, collect, insert, newest_first, parsed, tail_of, excluded, other_boot,
  records, gather, last_samples,
}

All-drop : {A : Type 0} (P : A → Type 0) (n : ℕ) (l : List A) → All P l → All P (drop n l)
All-drop P zero l all = all
All-drop P (suc n) [] all = tt
All-drop P (suc n) (a ∷ rest) all = All-drop P n rest all.1

length-drop : {A : Type 0} (n : ℕ) (l : List A) → length (drop n l) ≡ length l - n
length-drop zero l = omega arith
length-drop (suc n) [] = omega arith
length-drop (suc n) (a ∷ rest) = omega (arith, length-drop n rest)

pub length-tail_of : {A : Type 0} (n : ℕ) (l : List A) → length (tail_of n l) ≤ n
unfolding tail_of
length-tail_of n l = omega (arith, length-drop (length l - n) l)

module _ {Row : Type 0} (P : Row → Type 0) (exclude : Option String) where
  -- A row that a line stands for has the property.
  abbrev pub OfLine : Option Row → Type 0
  OfLine none = Unit {0}
  OfLine (some row) = P row

  -- The rows of the content have the property, unless it is of the boot that is left out.
  abbrev pub OfContent : Option (Content Row) → Type 0
  OfContent none = Unit {0}
  OfContent (some c) = (excluded exclude c.boot_id ≡ true) ⊎ All OfLine c.lines

  abbrev OfFiles : Dict (Option (Content Row)) → Type 0
  OfFiles files = All (λ f. OfContent f.1) files

  put-OfFiles :
      (k : String) (c : Option (Content Row)) (files : Dict (Option (Content Row)))
      → OfContent c
      → OfFiles files
      → OfFiles (put k c files)
  unfolding put
  put-OfFiles k c [] h all = (h, tt)
  put-OfFiles k c ((j, d) ∷ rest) h all =
      if_keeps OfFiles (str_eq j k) _ _ (h, all.1) (all.0, put-OfFiles k c rest h all.1)

  collect-OfFiles :
      (l : List (SampleFile Row)) (files : Dict (Option (Content Row)))
      → All (λ (f : SampleFile Row). OfContent f.content) l
      → OfFiles files
      → OfFiles (collect l files)
  unfolding collect
  collect-OfFiles [] files new all = all
  collect-OfFiles (f ∷ rest) files new all =
      collect-OfFiles rest _ new.1 (put-OfFiles f.base f.content files new.0 all)

  insert-OfFiles :
      (f : String × Option (Content Row)) (files : Dict (Option (Content Row)))
      → OfContent f.1
      → OfFiles files
      → OfFiles (insert f files)
  unfolding insert
  insert-OfFiles f [] h all = (h, tt)
  insert-OfFiles f (g ∷ rest) h all =
      if_keeps OfFiles (is_lt (compare f.0 g.0)) _ _ (all.0, insert-OfFiles f rest h all.1) (h, all)

  newest_first-OfFiles :
      (files : Dict (Option (Content Row))) → OfFiles files → OfFiles (newest_first files)
  unfolding newest_first
  newest_first-OfFiles [] all = tt
  newest_first-OfFiles (f ∷ rest) all = insert-OfFiles f _ all.0 (newest_first-OfFiles rest all.1)

  parsed-All : (lines : List (Option Row)) → All OfLine lines → All P (parsed lines)
  unfolding parsed
  parsed-All [] all = tt
  parsed-All (none ∷ rest) all = parsed-All rest all.1
  parsed-All (some row ∷ rest) all = (all.0, parsed-All rest all.1)

  abbrev Gathered : List Row × Option String → Type 0
  Gathered r = All P r.0

  kept_lines :
      (b : Bool) (lines : List (Option Row))
      → b ≡ false
      → (b ≡ true) ⊎ All OfLine lines
      → All OfLine lines
  kept_lines b lines kept (inl out) = cc
  kept_lines b lines kept (inr all) = all

  gather-All :
      (n : ℕ) (files : Dict (Option (Content Row))) (rows : List Row) (boot : Option String)
      → OfFiles files
      → All P rows
      → Gathered (gather n exclude files rows boot)
  unfolding gather records tail_of
  gather-All n [] rows boot files all = all
  gather-All n ((base, none) ∷ rest) rows boot files all = gather-All n rest rows boot files.1 all
  gather-All n ((base, some c) ∷ rest) rows boot files all =
      elim (Bool-cases (excluded exclude c.boot_id)) [
        | inl out ↦ rw out (gather-All n rest rows boot files.1 all)
        | inr kept ↦
            let lines = kept_lines (excluded exclude c.boot_id) c.lines kept files.0 in
            let more =
              All-append P (records n c) rows (parsed-All _ (All-drop OfLine _ c.lines lines))
                all in
            rw kept (
              if_keeps Gathered (other_boot boot c.boot_id) _ _ all (
                if_keeps Gathered (leb n (length (records n c ++ rows))) _ _ more
                  (gather-All n rest (records n c ++ rows) c.boot_id files.1 more)))
      ]

  -- The rows are at most `n`, and are rows of the files of other boots than the one left out: every
  -- property that all the rows of those files have, the returned rows have.
  pub last_samples-All :
      (n : ℕ) (compressed plain : List (SampleFile Row))
      → All (λ (f : SampleFile Row). OfContent f.content) compressed
      → All (λ (f : SampleFile Row). OfContent f.content) plain
      → All P (last_samples n exclude compressed plain).0
        × (length (last_samples n exclude compressed plain).0 ≤ n)
  unfolding last_samples tail_of
  last_samples-All n compressed plain c p =
      let files =
        newest_first-OfFiles _ (collect-OfFiles plain _ p (collect-OfFiles compressed [] c tt)) in
      (All-drop P _ _ (gather-All n _ [] none files tt), length-tail_of n _)
