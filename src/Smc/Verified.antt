-- ===== src/Smc/Verified.antt =====
-- What `SMC.raw` of linux/turbomac/daemon/smc.py returns, and when it scans the keys again.
use text.Mathlib.Text.{◌==◌ as str_eq}
use text.Mathlib.TextEquality.{eq_iff}
use mathlib.Core.Option.{some-injective}
use turbo_mac.Prelude.{
  ℕ, ◌+◌, ◌≤◌, ◌≡◌, refl, ◌∙◌, Bool, false, Option, none, some, String, List, [], arith, if_keeps,
  Bool-cases, Option-cases, &&-false, inl, inr, ◌⊎◌,
}
use turbo_mac.Dict.{get, has}
use turbo_mac.Smc.{
  Entry, Io, Smc, at_index, Result, raised, returned, rescan_min_interval_s, cut, scan, scan_keys,
  read_entry, raw_locked, caught, scanned_lately, rescan, missed, answer_of, raw,
}

-- No scan, or one that follows the scan before by a minute or more.
abbrev pub Waited : Option ℕ → Option ℕ → Type 0
Waited before after =
    (after ≡ before)
    ⊎ ((now : ℕ) × (after ≡ some now)
        × ((last : ℕ) → before ≡ some last → last + rescan_min_interval_s ≤ now))

result_keeps :
    {A B : Type 0} (P : A → Type 0) (r : Result B) (x : A) (f : B → A)
    → P x
    → ((b : B) → P (f b))
    → P (elim r [ raised ↦ x | returned b ↦ f b ])
result_keeps P raised x f hx hf = hx
result_keeps P (returned b) x f hx hf = hf b

module _ (io : Io) where
  -- The answer is no answer, or the bytes that the selected key holds now, cut to the length that the
  -- table has for the key, with the type of the table; and the selected key is the one asked for.
  abbrev pub IsVerified : String → Smc → io.World → Option (String × List ℕ) → Type 0
  IsVerified key s w none = Unit {0}
  IsVerified key s w (some got) =
      (e : Entry) × (read : List ℕ) × (get key s.table ≡ some e)
      × (io.name w ≡ key)
      × (io.bytes w ≡ some read)
      × (got ≡ (e.typ, cut e.length read))

  abbrev pub IsReported : String → Smc → Option (String × List ℕ) × Smc × io.World → Type 0
  IsReported key s r = IsVerified key r.1 r.2 r.0 × Waited s.last_scan r.1.last_scan

  abbrev Checked : String → Smc → Result (Option (String × List ℕ)) × io.World → Type 0
  Checked key s (raised, w) = Unit {0}
  Checked key s (returned got, w) = IsVerified key s w got

  read_entry-Checked :
      (key : String) (e : Entry) (s : Smc) (w : io.World)
      → get key s.table ≡ some e
      → Checked key s (read_entry io key e w)
  unfolding read_entry
  read_entry-Checked key e s w found =
      let w1 = (io.select (at_index e.index) w).1 in
      elim (Option-cases (io.select (at_index e.index) w).0) [
        | inr (err, refused) ↦ rw (refused, read_entry) tt
        | inl selected ↦ elim (Bool-cases (str_eq (io.name w1) key)) [
          | inr other ↦ rw (selected, other, read_entry) tt
          | inl same ↦ elim (Option-cases (io.bytes w1)) [
            | inl unread ↦ rw (selected, same, unread, read_entry) tt
            | inr (read, held) ↦
                rw (selected, same, held, read_entry)
                  (e, read, found, (eq_iff (io.name w1) key).0 same, held, refl)
          ]
        ]
      ]

  raw_locked-Checked :
      (key : String) (s : Smc) (w : io.World) → Checked key s (raw_locked io key s w)
  unfolding raw_locked
  raw_locked-Checked key s w = elim (Option-cases (get key s.table)) [
    | inl unknown ↦ rw (unknown, raw_locked) tt
    | inr (e, found) ↦ rw (found, raw_locked) (read_entry-Checked key e s w found)
  ]

  caught-IsVerified :
      (key : String) (s : Smc) (r : Result (Option (String × List ℕ)) × io.World)
      → Checked key s r
      → let c = caught io s r in IsVerified key c.1 c.2 c.0 × (c.1.last_scan ≡ s.last_scan)
  unfolding caught
  caught-IsVerified key s (raised, w) h = (tt, refl)
  caught-IsVerified key s (returned got, w) h = (h, refl)

  scan-last_scan :
      (count : ℕ) (s : Smc) (w : io.World) → (scan io count s w).1.last_scan ≡ some (io.clock w)
  unfolding scan
  scan-last_scan count s w =
      result_keeps (λ (r : Bool × Smc × io.World). r.1.last_scan ≡ some (io.clock w))
        (scan_keys io count 0 [] w).0 _ _ refl (λ table. refl)

  minute_past :
      (before : Option ℕ) (now : ℕ)
      → scanned_lately io before now ≡ false
      → (last : ℕ) → before ≡ some last
      → last + rescan_min_interval_s ≤ now
  unfolding scanned_lately
  minute_past none now h last e = cc
  minute_past (some t) now h last e = ground (arith, h, some-injective _ _ e)

  rescan-IsReported :
      (key : String) (s : Smc) (w : io.World)
      → scanned_lately io s.last_scan (io.clock w) ≡ false
      → IsReported key s (rescan io key s w)
  unfolding rescan
  rescan-IsReported key s w late =
      let r = scan io (io.key_count w) s w in
      let again =
        caught-IsVerified key r.1 (raw_locked io key r.1 r.2) (raw_locked-Checked key r.1 r.2) in
      let scanned = scan-last_scan (io.key_count w) s w in
      let after_minute = minute_past s.last_scan (io.clock w) late in
      if_keeps (IsReported key s) r.0 _ _ (tt, inr (io.clock w, scanned, after_minute))
        (again.0, inr (io.clock w, again.1 ∙ scanned, after_minute))

  missed-IsReported : (key : String) (s : Smc) (w : io.World) → IsReported key s (missed io key s w)
  unfolding missed
  missed-IsReported key s w = elim (Bool-cases (scanned_lately io s.last_scan (io.clock w))) [
    | inl lately ↦ rw (lately, &&-false (has key s.table), missed) (tt, inl refl)
    | inr late ↦
        if_keeps (IsReported key s) _ _ (none, s, w) (rescan-IsReported key s w late) (tt, inl refl)
  ]

  -- A value that `raw` returns is really that of the key: when it returns one, the selector shows the
  -- name of this key, the bytes are those that it holds, and the type and the length are those of the
  -- table. And the keys are scanned again only a minute or more after the last scan.
  pub raw-IsReported : (key : String) (s : Smc) (w : io.World) → IsReported key s (raw io key s w)
  unfolding raw answer_of
  raw-IsReported key s w = answered (raw_locked io key s w) (raw_locked-Checked key s w)
    where
      answered :
          (r : Result (Option (String × List ℕ)) × io.World)
          → Checked key s r
          → IsReported key s (answer_of io key s r)
      answered (raised, w') h = (tt, inl refl)
      answered (returned none, w') h = missed-IsReported key s w'
      answered (returned (some got), w') h = (h, inl refl)
