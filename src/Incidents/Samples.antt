-- ===== src/Incidents/Samples.antt =====
-- `last_samples` of linux/turbomac/daemon/incidents.py: the newest samples of the boot before this one.
use text.Mathlib.Text.{◌==◌ as str_eq, is_lt}
use Prim.Native.String.{compare}
use turbo_mac.Prelude.{
  ℕ, Bool, true, false, ◌&&◌, not, Option, none, some, String, List, [], ◌∷◌, ◌++◌, if◌then◌else◌,
  leb, length, drop, ◌-◌,
}
use turbo_mac.Dict.{Dict, put}

-- The file's name without `.gz`, and its content: none if it cannot be read. `boot_id` is that of the
-- header, if the first line is one; a line that is no JSON is none.
pub record Content (Row : Type 0) : Type 0 where
  pub boot_id : Option String
  pub lines : List (Option Row)

pub record SampleFile (Row : Type 0) : Type 0 where
  pub base : String
  pub content : Option (Content Row)

-- `rows[-n:]`, and the lines that `deque(fh, maxlen=n)` keeps.
unfoldable pub tail_of {ℓ} : {A : Type ℓ} → ℕ → List A → List A
tail_of n l = drop (length l - n) l

-- `exclude_boot and fboot == exclude_boot`
unfoldable pub excluded : (exclude_boot fboot : Option String) → Bool
excluded (some e) (some b) = not (str_eq e "") && str_eq b e
excluded _ _ = false

-- `boot is not None and fboot != boot`
unfoldable pub other_boot : (boot fboot : Option String) → Bool
other_boot none fboot = false
other_boot (some b) none = true
other_boot (some b) (some f) = not (str_eq f b)

module _ {Row : Type 0} where
  -- `files`: a file that is not compressed replaces one that is.
  unfoldable pub collect :
      List (SampleFile Row) → Dict (Option (Content Row)) → Dict (Option (Content Row))
  collect [] files = files
  collect (f ∷ rest) files = collect rest (put f.base f.content files)

  -- `sorted(files, reverse=True)`
  unfoldable pub insert :
      String × Option (Content Row) → Dict (Option (Content Row)) → Dict (Option (Content Row))
  insert f [] = f ∷ []
  insert f (g ∷ rest) =
      let later = insert f rest in if is_lt (compare f.0 g.0) then g ∷ later else f ∷ g ∷ rest

  unfoldable pub newest_first : Dict (Option (Content Row)) → Dict (Option (Content Row))
  newest_first [] = []
  newest_first (f ∷ rest) = insert f (newest_first rest)

  unfoldable pub parsed : List (Option Row) → List Row
  parsed [] = []
  parsed (none ∷ rest) = parsed rest
  parsed (some row ∷ rest) = row ∷ parsed rest

  unfoldable pub last_of : List Row → Option Row
  last_of [] = none
  last_of (r ∷ []) = some r
  last_of (r ∷ s ∷ rest) = last_of (s ∷ rest)

  unfoldable pub records : ℕ → Content Row → List Row
  records n c = parsed (tail_of n c.lines)

  -- The loop over the files, with `rows` and `boot`.
  unfoldable pub gather :
      (n : ℕ)
      → (exclude_boot : Option String) → Dict (Option (Content Row))
      → List Row
      → (boot : Option String) → List Row × Option String
  gather n exclude_boot [] rows boot = (rows, boot)
  gather n exclude_boot ((base, none) ∷ rest) rows boot = gather n exclude_boot rest rows boot
  gather n exclude_boot ((base, some c) ∷ rest) rows boot =
      let skip = gather n exclude_boot rest rows boot in
      let more = records n c ++ rows in
      let next = gather n exclude_boot rest more c.boot_id in
      if excluded exclude_boot c.boot_id
      then skip
      else if other_boot boot c.boot_id
      then (rows, boot)
      else if leb n (length more)
      then (more, c.boot_id)
      else next

  unfoldable pub last_samples :
      (n : ℕ)
      → (exclude_boot : Option String) → (compressed plain : List (SampleFile Row))
      → List Row × Option String
  last_samples n exclude_boot compressed plain =
      let r =
        gather n exclude_boot (newest_first (collect plain (collect compressed []))) [] none in
      (tail_of n r.0, r.1)
