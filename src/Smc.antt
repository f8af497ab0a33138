-- ===== src/Smc.antt =====
-- linux/turbomac/daemon/smc.py: the class `SMC`, that reads keys through the one selector of applesmc.
-- The files of `SysfsSmcIO` and the file of the cache are a parameter.
pub mod Decode
pub mod Verified
pub mod Signed
pub mod Tests
use text.Mathlib.Text.{◌==◌ as str_eq}
use turbo_mac.Prelude.{
  ℕ, zero, suc, ◌+◌, ◌*◌, Bool, true, false, ◌&&◌, not, Option, none, some, String, List, [], ◌∷◌,
  one, if◌then◌else◌, ltb, ◌==◌, is_some, is_none,
}
use turbo_mac.Dict.{Dict, get, has, put}

-- An entry of the table: index, type and length.
pub record Entry : Type 0 where
  pub index : ℕ
  pub typ : String
  pub length : ℕ

-- What the selector is set to: an index, or the text that it had.
pub data Selector : Type 0 where
  at_index : ℕ → Selector
  found_text : String → Selector

-- `select` gives the text of an OSError, `bytes` (the method `data`) none for one. `cached` is the key count and the keys of a
-- cache file that can be read, `save` the write of that file, whose errors are only reported.
pub record Io : Type 1 where
  pub World : Type 0
  pub clock : World → ℕ
  pub key_count : World → ℕ
  pub get_selector : World → Option String
  pub select : Selector → World → Option String × World
  pub name : World → String
  pub type : World → String
  pub length : World → ℕ
  pub bytes : World → Option (List ℕ)
  pub cached : World → Option (ℕ × Dict Entry)
  pub save : ℕ → Dict Entry → World → World

pub record Smc : Type 0 where
  pub table : Dict Entry
  pub last_scan : Option ℕ
  pub original : Option String
  pub ok : Bool

-- The end of a call that may raise an OSError.
pub data Result (A : Type 0) : Type 0 where
  raised : Result A
  returned : A → Result A

-- `RESCAN_MIN_INTERVAL_S`
abbrev pub rescan_min_interval_s : ℕ
rescan_min_interval_s = 60 * one

abbrev pub new_smc : Smc
new_smc = record { table = []; last_scan = none; original = none; ok = false }

unfoldable pub is_filled : Dict Entry → Bool
is_filled [] = false
is_filled (_ ∷ _) = true

-- `data[:length] if length else data`
unfoldable pub take : ℕ → List ℕ → List ℕ
take zero bytes = []
take (suc n) [] = []
take (suc n) (b ∷ rest) = b ∷ take n rest

unfoldable pub cut : ℕ → List ℕ → List ℕ
cut n bytes = if n == 0 then bytes else take n bytes

module _ (io : Io) where
  -- The loop of `_scan` over the `n` indices from `i`.
  unfoldable pub scan_keys : (n i : ℕ) → Dict Entry → io.World → Result (Dict Entry) × io.World
  scan_keys zero i table w = (returned table, w)
  scan_keys (suc n) i table w =
      let r = io.select (at_index i) w in
      let entry : Entry = record { index = i; typ = io.type r.1; length = io.length r.1 } in
      elim r.0 [
        | some err ↦ (raised, r.1)
        | none ↦
            scan_keys n (suc i)
              (if str_eq (io.name r.1) "" then table else put (io.name r.1) entry table) r.1
      ]

  -- `_scan`: whether it raised, with the state and the world after it.
  unfoldable pub scan : (count : ℕ) → Smc → io.World → Bool × Smc × io.World
  scan count s w =
      let s1 = record s { last_scan = some (io.clock w) } in
      let r = scan_keys count 0 [] w in
      elim r.0 [
        | raised ↦ (true, s1, r.1)
        | returned table ↦ (
          false,
          record s1 { table = table },
          (if is_filled table then io.save count table r.1 else r.1),
        )
      ]

  -- The table that `_load_cache` takes, if any.
  unfoldable pub load_cache : (count : ℕ) → Option (ℕ × Dict Entry) → Option (Dict Entry)
  load_cache count none = none
  load_cache count (some (cached_count, keys)) =
      if cached_count == count && is_filled keys then some keys else none

  unfoldable pub open_with : Bool × Smc × io.World → Smc × io.World
  open_with r = (record r.1 { ok = (if r.0 then false else is_filled r.1.table) }, r.2)

  -- `SMC.open`
  unfoldable pub open_smc : Smc → io.World → Smc × io.World
  open_smc s w =
      let s1 = record s { original = io.get_selector w } in
      let count = io.key_count w in
      elim (load_cache count (io.cached w)) [
        | some keys ↦ open_with (false, record s1 { table = keys }, w)
        | none ↦ open_with (scan count s1 w)
      ]

  -- `_raw_locked` from the entry on.
  unfoldable pub read_entry :
      String → Entry → io.World → Result (Option (String × List ℕ)) × io.World
  read_entry key e w =
      let r = io.select (at_index e.index) w in
      elim r.0 [
        | some err ↦ (raised, r.1)
        | none ↦
            if str_eq (io.name r.1) key
            then elim (io.bytes r.1) [
              | none ↦ (raised, r.1)
              | some read ↦ (returned (some (e.typ, cut e.length read)), r.1)
            ]
            else (returned none, r.1)
      ]

  unfoldable pub raw_locked : String → Smc → io.World → Result (Option (String × List ℕ)) × io.World
  raw_locked key s w = elim (get key s.table) [
    | none ↦ (returned none, w)
    | some e ↦ read_entry key e w
  ]

  -- The end of `raw`: an OSError gives none.
  unfoldable pub caught :
      Smc → Result (Option (String × List ℕ)) × io.World → Option (String × List ℕ) × Smc × io.World
  caught s (raised, w) = (none, s, w)
  caught s (returned got, w) = (got, s, w)

  -- `self.last_scan is not None and self.clock() - self.last_scan < RESCAN_MIN_INTERVAL_S`
  unfoldable pub scanned_lately : Option ℕ → (now : ℕ) → Bool
  scanned_lately none now = false
  scanned_lately (some t) now = ltb now (t + rescan_min_interval_s)

  unfoldable pub rescan : String → Smc → io.World → Option (String × List ℕ) × Smc × io.World
  rescan key s w =
      let r = scan (io.key_count w) s w in
      if r.0 then (none, r.1, r.2) else caught r.1 (raw_locked key r.1 r.2)

  -- What `raw` does when `_raw_locked` gives none.
  unfoldable pub missed : String → Smc → io.World → Option (String × List ℕ) × Smc × io.World
  missed key s w =
      if has key s.table && not (scanned_lately s.last_scan (io.clock w))
      then rescan key s w
      else (none, s, w)

  unfoldable pub answer_of :
      String
      → Smc
      → Result (Option (String × List ℕ)) × io.World
      → Option (String × List ℕ) × Smc × io.World
  answer_of key s (raised, w) = (none, s, w)
  answer_of key s (returned none, w) = missed key s w
  answer_of key s (returned (some got), w) = (some got, s, w)

  -- `SMC.raw`
  unfoldable pub raw : String → Smc → io.World → Option (String × List ℕ) × Smc × io.World
  raw key s w = answer_of key s (raw_locked key s w)

  -- `SMC.restore`, whose OSError is passed over.
  unfoldable pub restore : Smc → io.World → io.World
  restore s w = elim s.original [ none ↦ w | some text ↦ (io.select (found_text text) w).1 ]
