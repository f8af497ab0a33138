-- ===== src/Tui/Replay/Moves.antt =====
-- The times of the samples that linux/turbomac/tui/replay.py plays.
use native.Mathlib.Nat.{div-add-mod', mod-lt, mul-le-mul_right}
use mathlib.Core.Path.{subst}
use turbo_mac.Prelude.{
  ℕ, zero, suc, ◌+◌, ◌*◌, ◌/◌, ◌%◌, ◌≤◌, ◌<◌, ◌≡◌, refl, ap, ◌⊎◌, inl, inr, List, [], ◌∷◌, arith,
  length, Bool-cases, ltb, ltb→lt,
}
use turbo_mac.Tui.Replay.{Sample, Log, size, span, shifted, rec, last_or, sample_at}

-- The times grow along the list.
abbrev pub IsRising : Sample → List Sample → Type 0
IsRising first [] = Unit {0}
IsRising first (x ∷ rest) = (first.ts < x.ts) × IsRising x rest

first_le-last :
    (first : Sample) (rest : List Sample) → IsRising first rest → first.ts ≤ (last_or first rest).ts
unfolding last_or
first_le-last first [] h = omega arith
first_le-last first (x ∷ rest) h = omega (arith, h.0, first_le-last x rest h.1)

sample_at-bounds :
    (first : Sample) (rest : List Sample) (i : ℕ)
    → IsRising first rest
    → (first.ts ≤ (sample_at first rest i).ts)
      × ((sample_at first rest i).ts ≤ (last_or first rest).ts)
unfolding sample_at last_or
sample_at-bounds first rest zero h = (omega arith, first_le-last first rest h)
sample_at-bounds first [] (suc i) h = (omega arith, omega arith)
sample_at-bounds first (x ∷ rest) (suc i) h =
    let b = sample_at-bounds x rest i h.1 in (omega (arith, h.0, b.0), b.1)

sample_at-lt :
    (first : Sample) (rest : List Sample) (i j : ℕ)
    → IsRising first rest
    → i < j
    → j < suc (length rest)
    → (sample_at first rest i).ts < (sample_at first rest j).ts
unfolding sample_at
sample_at-lt first rest i zero h lt in_range = absurd (omega (arith, lt))
sample_at-lt first [] i (suc j) h lt in_range = absurd (omega (arith, in_range))
sample_at-lt first (x ∷ rest) zero (suc j) h lt in_range =
    omega (arith, h.0, (sample_at-bounds x rest j h.1).0)
sample_at-lt first (x ∷ rest) (suc i) (suc j) h lt in_range =
    sample_at-lt x rest i j h.1 (omega (arith, lt)) (omega (arith, in_range))

-- Of two numbers the smaller has the smaller quotient, or the same and the smaller remainder.
quotient_or_remainder :
    (n k l : ℕ) → 0 < n → k < l → (k / n < l / n) ⊎ ((k / n ≡ l / n) × (k % n < l % n))
quotient_or_remainder n k l pos lt = elim (Bool-cases (ltb (k / n) (l / n))) [
  | inl h ↦ inl (ltb→lt _ _ h)
  | inr h ↦
      let not_more : l / n ≤ k / n = ground (arith, h) in
      let not_less : k / n ≤ l / n = elim (Bool-cases (ltb (l / n) (k / n))) [
        | inr h' ↦ ground (arith, h')
        | inl h' ↦ absurd (
            omega (
              arith,
              lt,
              div-add-mod' k n,
              div-add-mod' l n,
              mod-lt l pos,
              mul-le-mul_right {m = suc (l / n)} {n = k / n} n (ltb→lt _ _ h'),
            ))
      ] in
      let same : k / n ≡ l / n = omega (arith, not_more, not_less) in
      inr (same, omega (arith, lt, div-add-mod' k n, div-add-mod' l n, ap (λ q. q * n) same))
]

module _ (log : Log) (rising : IsRising log.first log.rest) where
  shifted-ts : (n : ℕ) (r : Sample) → (shifted log n r).ts ≡ r.ts + n * span log
  unfolding shifted
  shifted-ts zero r = omega arith
  shifted-ts (suc n) r = refl

  -- A sample of a later loop is later.
  later_loop :
      (q q' i j : ℕ)
      → q < q'
      → (shifted log q (sample_at log.first log.rest i)).ts
        < (shifted log q' (sample_at log.first log.rest j)).ts
  unfolding span
  later_loop q q' i j lt = omega (
    arith,
    shifted-ts q (sample_at log.first log.rest i),
    shifted-ts q' (sample_at log.first log.rest j),
    mul-le-mul_right {m = q + 1} {n = q'} (span log) (omega (arith, lt)),
    sample_at-bounds log.first log.rest i rising,
    sample_at-bounds log.first log.rest j rising,
  )

  same_loop :
      (q i j : ℕ)
      → i < j
      → j < size log
      → (shifted log q (sample_at log.first log.rest i)).ts
        < (shifted log q (sample_at log.first log.rest j)).ts
  unfolding size
  same_loop q i j lt in_range = omega (
    arith,
    shifted-ts q (sample_at log.first log.rest i),
    shifted-ts q (sample_at log.first log.rest j),
    sample_at-lt log.first log.rest i j rising lt in_range,
  )

  -- For a log whose times grow from sample to sample: the time of each sample that is played is greater
  -- than those of all that were played before it, through every loop.
  pub rec-lt : (k l : ℕ) → k < l → (rec log k).ts < (rec log l).ts
  unfolding rec size
  rec-lt k l lt = elim (quotient_or_remainder (size log) k l (omega arith) lt) [
    | inl h ↦ later_loop (k / size log) (l / size log) (k % size log) (l % size log) h
    | inr (e, h) ↦
        subst
          (λ q. (rec log k).ts < (shifted log q (sample_at log.first log.rest (l % size log))).ts) e
          (same_loop (k / size log) (k % size log) (l % size log) h (mod-lt l (omega arith)))
  ]
