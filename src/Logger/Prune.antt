-- ===== src/Logger/Prune.antt =====
-- `prune` of `SampleLogger` (linux/turbomac/daemon/logger.py). A file is its name,
-- its time and its size; `os.unlink` is a parameter, which says whether it works on a name. The list is sorted by name, as `glob` and `sorted` give it.
use text.Mathlib.Text.{◌==◌ as str_eq}
use turbo_mac.Prelude.{
  ℕ, ◌+◌, ◌-◌, ◌*◌, Bool, true, false, ◌&&◌, ◌||◌, Option, none, some, List, [], ◌∷◌, ◌++◌, leb,
  ltb, if◌then◌else◌, one, not, String,
}

-- `stat` is none where `os.stat` raises; `current` is `f == self.path`.
pub record Stat : Type 0 where
  pub mtime : ℕ
  pub size : ℕ

pub record File : Type 0 where
  pub name : String
  pub current : Bool
  pub stat : Option Stat

-- A file of `keep`, with its size.
pub record Kept : Type 0 where
  pub name : String
  pub current : Bool
  pub size : ℕ

-- `removed` and `keep` after the first loop.
pub record Split : Type 0 where
  pub removed : List String
  pub keep : List Kept

-- `f != self.path and now - st.st_mtime > self.retention_days * 86400`
unfoldable pub expired : (now days : ℕ) → Bool → Stat → Bool
expired now days current st = not current && ltb (st.mtime + days * 86_400 * one) now

unfoldable pub split : (now days : ℕ) → List File → Split
split now days [] = record { removed = []; keep = [] }
split now days (f ∷ rest) =
    let s = split now days rest in
    elim f.stat [
      | none ↦ s
      | some st ↦
          if expired now days f.current st
          then record s { removed = f.name ∷ s.removed }
          else record s {
            keep = record { name = f.name; current = f.current; size = st.size } ∷ s.keep;
          }
    ]

unfoldable pub total_size : List Kept → ℕ
total_size [] = 0
total_size (k ∷ rest) = k.size + total_size rest

-- The second loop, on the total so far: what it removes, and what stays.
unfoldable pub shrink : (limit total : ℕ) → List Kept → List String × List Kept
shrink limit total [] = ([], [])
shrink limit total (k ∷ rest) =
    let skip = if leb total limit then true else k.current in
    let later = shrink limit (if skip then total else total - k.size) rest in
    if skip then (later.0, k ∷ later.1) else (k.name ∷ later.0, later.1)

-- What `prune` is to unlink, in order, and the files of `keep` that are not among it; `max_mib` in
-- mebibytes.
unfoldable pub plan : (now days max_mib : ℕ) → List File → List String × List Kept
plan now days max_mib files =
    let s = split now days files in
    let r = shrink (max_mib * 1024 * 1024) (total_size s.keep) s.keep in (s.removed ++ r.0, r.1)

unfoldable pub contains : String → List String → Bool
contains n [] = false
contains n (m ∷ rest) = str_eq n m || contains n rest

-- The files of the directory but those that are gone.
unfoldable pub without : (gone : String → Bool) → List File → List File
without gone [] = []
without gone (f ∷ rest) = let later = without gone rest in if gone f.name then later else f ∷ later

-- A name is unlinked: the loop comes to it, and `os.unlink` works.
unfoldable pub is_gone : (unlinks : String → Bool) → List String → String → Bool
is_gone unlinks removed n = contains n removed && unlinks n

-- `prune`: the names that it returns, and the directory that it leaves, where the files stay whose
-- `os.stat` or `os.unlink` raised.
unfoldable pub prune :
    (unlinks : String → Bool) (now days max_mib : ℕ) → List File → List String × List File
prune unlinks now days max_mib files =
    let removed = (plan now days max_mib files).0 in
    (removed, without (is_gone unlinks removed) files)
