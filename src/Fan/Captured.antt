-- ===== src/Fan/Captured.antt =====
-- Which minimums `FanController` of linux/turbomac/daemon/fans.py takes for those of the hardware.
use turbo_mac.Prelude.{
  ℕ, ◌+◌, ◌≤◌, ◌≡◌, refl, Bool, true, false, ◌&&◌, not, Option, none, some, List, [], ◌∷◌, arith,
  ◌==◌, All, if_keeps, filled_keeps, ap, Bool-cases, String, &&-left, &&-right, inl, inr, ◌⊎◌,
}
use turbo_mac.Fan.Control.{Fan}
use turbo_mac.Fan.Capture.{
  Io, Source, from_file, fan_defaults, known_hw_min, capture_slack_rpm, above, near_known,
  plausible, restored_min, found, all_live, with_saved, all_saved, keep_live, keep_known, capture,
  looks, load_or_capture, discover,
}

abbrev pub AtMost : ℕ → Option ℕ → Type 0
AtMost v none = Unit {0}
AtMost v (some mx) = v ≤ mx

-- Not clearly above the known minimum of the fan.
abbrev pub IsNear : ℕ → Option ℕ → Type 0
IsNear v none = Unit {0}
IsNear v (some k) = v ≤ k + capture_slack_rpm

-- A positive speed, at most the fan's maximum and near the known minimum; or the known minimum itself;
-- no minimum only for a fan of which none is known.
abbrev pub IsMinimum : ℕ → Option ℕ → Option ℕ → Type 0
IsMinimum n mx none = known_hw_min n ≡ none
IsMinimum n mx (some v) =
    ((1 ≤ v) × AtMost v mx × IsNear v (known_hw_min n)) ⊎ (known_hw_min n ≡ some v)

abbrev pub HasMinimum : Fan → Type 0
HasMinimum f = IsMinimum f.n f.max f.default

AtMost-above : (v : ℕ) (mx : Option ℕ) → above v mx ≡ false → AtMost v mx
unfolding above
AtMost-above v none h = tt
AtMost-above v (some mx) h = ground (arith, h)

IsNear-near_known : (v : ℕ) (k : Option ℕ) → near_known v k ≡ true → IsNear v k
unfolding near_known
IsNear-near_known v none h = tt
IsNear-near_known v (some k) h = ground (arith, h)

not-true : (b : Bool) → not b ≡ true → b ≡ false
not-true true h = cc
not-true false h = refl

plausible-IsMinimum : (n : ℕ) (mx v : Option ℕ) → plausible n mx v ≡ true → IsMinimum n mx v
unfolding plausible
plausible-IsMinimum n mx none h = cc
plausible-IsMinimum n mx (some v) h =
    let both = &&-left (not (v == 0) && not (above v mx)) (near_known v (known_hw_min n)) h in
    let positive = not-true (v == 0) (&&-left (not (v == 0)) (not (above v mx)) both) in
    let low = not-true (above v mx) (&&-right (not (v == 0)) (not (above v mx)) both) in
    let near = &&-right (not (v == 0) && not (above v mx)) (near_known v (known_hw_min n)) h in
    inl (ground (arith, positive), AtMost-above v mx low, IsNear-near_known v (known_hw_min n) near)

known-IsMinimum : (n : ℕ) (mx k : Option ℕ) → known_hw_min n ≡ k → IsMinimum n mx k
known-IsMinimum n mx none h = h
known-IsMinimum n mx (some k) h = inr h

restored_min-IsMinimum : (n : ℕ) (mx v : Option ℕ) → IsMinimum n mx (restored_min n mx v)
unfolding restored_min
restored_min-IsMinimum n mx v = elim (Bool-cases (plausible n mx v)) [
  | inl good ↦ rw good (plausible-IsMinimum n mx v good)
  | inr bad ↦ rw bad (known-IsMinimum n mx (known_hw_min n) refl)
]

module _ (io : Io) where
  keep_known-HasMinimum : (fans : List Fan) → All HasMinimum (keep_known io fans)
  unfolding keep_known
  keep_known-HasMinimum [] = tt
  keep_known-HasMinimum (f ∷ rest) =
      (restored_min-IsMinimum f.n f.max f.written, keep_known-HasMinimum rest)

  keep_live-HasMinimum :
      (fans : List Fan) → all_live io fans ≡ true → All HasMinimum (keep_live io fans)
  unfolding keep_live all_live
  keep_live-HasMinimum [] h = tt
  keep_live-HasMinimum (f ∷ rest) h = (
    plausible-IsMinimum f.n f.max f.written
        (&&-left (plausible f.n f.max f.written) (all_live io rest) h),
    keep_live-HasMinimum rest (&&-right (plausible f.n f.max f.written) (all_live io rest) h),
  )

  -- What `with_saved` and `all_saved` give.
  abbrev SavedOne : Option Fan → Type 0
  SavedOne none = Unit {0}
  SavedOne (some f) = HasMinimum f

  abbrev SavedAll : Option (List Fan) → Type 0
  SavedAll none = Unit {0}
  SavedAll (some fs) = All HasMinimum fs

  with_saved-SavedOne : (f : Fan) (v : Option (Option ℕ)) → SavedOne (with_saved io f v)
  unfolding with_saved
  with_saved-SavedOne f none = tt
  with_saved-SavedOne f (some v) = elim (Bool-cases (plausible f.n f.max v)) [
    | inl good ↦ rw good (plausible-IsMinimum f.n f.max v good)
    | inr bad ↦ rw bad tt
  ]

  join-SavedAll :
      (one : Option Fan) (later : Option (List Fan))
      → SavedOne one
      → SavedAll later
      → SavedAll
          (elim one [ none ↦ none | some f ↦ elim later [ none ↦ none | some fs ↦ some (f ∷ fs) ] ])
  join-SavedAll none later h all = tt
  join-SavedAll (some f) none h all = tt
  join-SavedAll (some f) (some fs) h all = (h, all)

  all_saved-SavedAll : (fans : List Fan) (w : io.World) → SavedAll (all_saved io fans w)
  unfolding all_saved
  all_saved-SavedAll [] w = tt
  all_saved-SavedAll (f ∷ rest) w =
      join-SavedAll (with_saved io f (io.saved f.n w)) (all_saved io rest w)
        (with_saved-SavedOne f (io.saved f.n w)) (all_saved-SavedAll rest w)

  -- The file is written only after a capture in which every live minimum was plausible, with these.
  abbrev pub SavesPlausible : io.World → List Fan × Source × io.World → Type 0
  SavesPlausible w r =
      (r.2 ≡ w)
      ⊎ ((r.2 ≡ (io.save r.0 w).1)
          × ((stale : Bool) × (error : Option String) × (r.1 ≡ fan_defaults stale error)))

  abbrev Good : io.World → List Fan × Source × io.World → Type 0
  Good w r = All HasMinimum r.0 × SavesPlausible w r

  capture-Good : (stale : Bool) (fans : List Fan) (w : io.World) → Good w (capture io stale fans w)
  unfolding capture
  capture-Good stale fans w = elim (Bool-cases (all_live io fans)) [
    | inl good ↦
        let live = keep_live-HasMinimum fans good in
        rw good
          (if_keeps (Good w) io.has_path _ _ (live, inr (refl, (stale, _, refl))) (live, inl refl))
    | inr bad ↦ rw bad (keep_known-HasMinimum fans, inl refl)
  ]

  load_or_capture-Good : (fans : List Fan) (w : io.World) → Good w (load_or_capture io fans w)
  unfolding load_or_capture
  load_or_capture-Good fans w =
      let captured = capture-Good (looks io w) fans w in
      if_keeps (Good w) (looks io w) _ _
        (from_saved (all_saved io fans w) (all_saved-SavedAll fans w) captured) captured
    where
      from_saved :
          (o : Option (List Fan))
          → SavedAll o
          → Good w (capture io (looks io w) fans w)
          → Good w (elim o [ none ↦ capture io (looks io w) fans w | some fs ↦ (fs, from_file, w) ])
      from_saved none all captured = captured
      from_saved (some fs) all captured = (all, inl refl)

  -- The same of the result of `discover`.
  abbrev pub IsReported : io.World → List Fan × Option Source × io.World → Type 0
  IsReported w r =
      All HasMinimum r.0
      × ((r.2 ≡ w)
          ⊎ ((r.2 ≡ (io.save r.0 w).1)
              × ((stale : Bool) × (error : Option String) × (r.1
                    ≡ some (fan_defaults stale error)))))

  of_saved :
      (w : io.World) (r : List Fan × Source × io.World)
      → Good w r
      → IsReported w (r.0, some r.1, r.2)
  of_saved w r (minimums, inl same) = (minimums, inl same)
  of_saved w r (minimums, inr (written, (stale, error, e))) =
      (minimums, inr (written, (stale, error, ap some e)))

  -- Whatever the files hold, each fan that is found gets a minimum that is positive, at most its maximum
  -- and not clearly a floor that is already applied, or else the known minimum of its hardware; it gets
  -- none only where none is known. And nothing is written but a capture of these minimums.
  pub discover-IsReported : (w : io.World) → IsReported w (discover io w)
  unfolding discover
  discover-IsReported w =
      let fans = found io (io.numbers w) w in
      filled_keeps (IsReported w) fans _ _ (tt, inl refl)
        (of_saved w (load_or_capture io fans w) (load_or_capture-Good fans w))
