-- ===== src/Tui/Replay/Plays.antt =====
-- What `history_rows` of linux/turbomac/tui/replay.py holds, and how its counters are related.
use turbo_mac.Prelude.{
  ℕ, zero, suc, ◌+◌, ◌-◌, ◌%◌, ◌==◌, ◌≤◌, ◌≡◌, refl, sym, ap, ◌∙◌, Bool, true, false, Option, List,
  [], ◌∷◌, ◌++◌, String, arith, length, drop, length-append, if_keeps, option_keeps, is_none,
}
use turbo_mac.Tui.Backend.{Sim, newest, emit}
use turbo_mac.Tui.Replay.{
  Sample, Counters, Player, Log, history_len, size, rec, emit_loop, enter_state, note_pl1, keep_row,
  set_state, keep_pl1, count, same_state, play_one, play, play_to, advance, begin, fresh,
  count_state, count_write, pl1_changed,
}

module _ {A : Type 0} where
  drop-drop : (d e k : ℕ) (l : List A) → k ≡ d + e → drop e (drop d l) ≡ drop k l
  drop-drop zero e k l h = ap (λ n. drop n l) (omega (arith, h))
  drop-drop (suc d) zero zero [] h = refl
  drop-drop (suc d) zero (suc k) [] h = refl
  drop-drop (suc d) (suc e) zero [] h = refl
  drop-drop (suc d) (suc e) (suc k) [] h = refl
  drop-drop (suc d) e zero (x ∷ rest) h = absurd (omega (arith, h))
  drop-drop (suc d) e (suc k) (x ∷ rest) h = drop-drop d e k rest (omega (arith, h))

  drop-append : (d : ℕ) (l r : List A) → d ≤ length l → drop d (l ++ r) ≡ drop d l ++ r
  drop-append zero l r h = refl
  drop-append (suc d) [] r h = absurd (omega (arith, h))
  drop-append (suc d) (x ∷ rest) r h = drop-append d rest r (omega (arith, h))

  length-drop : (d : ℕ) (l : List A) → length (drop d l) ≡ length l - d
  length-drop zero l = omega arith
  length-drop (suc d) [] = omega arith
  length-drop (suc d) (x ∷ rest) = length-drop d rest ∙ omega arith

  newest-newest :
      (m : ℕ) (l : List A) (x : A) → newest m (newest m l ++ x ∷ []) ≡ newest m (l ++ x ∷ [])
  unfolding newest
  newest-newest m l x =
      let d = length l - m in
      let whole : length (l ++ x ∷ []) ≡ length l + 1 = length-append l (x ∷ []) in
      let cut : length (drop d l ++ x ∷ []) ≡ length l - d + 1 =
        length-append (drop d l) (x ∷ []) ∙ ap (λ n. n + 1) (length-drop d l) in
      ap (drop (length (drop d l ++ x ∷ []) - m)) (sym (drop-append d l (x ∷ []) (omega arith)))
      ∙ drop-drop d _ _ (l ++ x ∷ []) (omega (arith, whole, cut))

module _ (log : Log) where
  -- The first `n` samples that are played, without the player.
  abbrev pub upto : ℕ → List Sample
  upto zero = []
  upto (suc n) = upto n ++ rec log n ∷ []

  -- The history is the newest 600 of the samples played, and each write counted is a cut or a recovery.
  pub record IsPlaying (s : Sim Player) : Type 0 where
    pub window : s.extra.history_rows ≡ newest history_len (upto s.extra.played)
    pub writes : s.extra.counters.writes ≡ s.extra.counters.cuts + s.extra.counters.recoveries

  -- The counters agree, and the history is this.
  record IsAt (rows : List Sample) (s : Sim Player) : Type 0 where
    rows_same : s.extra.history_rows ≡ rows
    agree : s.extra.counters.writes ≡ s.extra.counters.cuts + s.extra.counters.recoveries

  module _ (rows : List Sample) where
    abbrev Here : Sim Player → Type 0
    Here s = IsAt rows s

    emit-IsAt : (ts : ℕ) (kind : String) (s : Sim Player) → Here s → Here (emit ts kind s)
    unfolding emit
    emit-IsAt ts kind s h = record { rows_same = h.rows_same; agree = h.agree }

    emit_loop-IsAt : (s : Sim Player) → Here s → Here (emit_loop log s)
    unfolding emit_loop
    emit_loop-IsAt s h =
        let k = s.extra.played in
        let ts = s.extra.emit_at in
        if_keeps Here (k == 0) _ _ (emit-IsAt ts "replay_start" s h)
          (if_keeps Here (k % size log == 0) _ s (emit-IsAt ts "replay_loop" s h) h)

    count_state-agree :
        (st : Option String) (c : Counters)
        → c.writes ≡ c.cuts + c.recoveries
        → (count_state st c).writes ≡ (count_state st c).cuts + (count_state st c).recoveries
    unfolding count_state
    count_state-agree st c h = ground (arith, h)

    count_write-agree :
        (down : Bool) (c : Counters)
        → c.writes ≡ c.cuts + c.recoveries
        → (count_write down c).writes ≡ (count_write down c).cuts + (count_write down c).recoveries
    unfolding count_write
    count_write-agree true c h = omega (arith, h)
    count_write-agree false c h = omega (arith, h)

    set_state-IsAt : (r : Sample) (s : Sim Player) → Here s → Here (set_state r s)
    unfolding set_state
    set_state-IsAt r s h = record { rows_same = h.rows_same; agree = h.agree }

    keep_pl1-IsAt : (r : Sample) (s : Sim Player) → Here s → Here (keep_pl1 r s)
    unfolding keep_pl1
    keep_pl1-IsAt r s h = record { rows_same = h.rows_same; agree = h.agree }

    count-IsAt :
        (f : Counters → Counters) (s : Sim Player)
        → ((c : Counters)
            → c.writes ≡ c.cuts + c.recoveries
            → (f c).writes ≡ (f c).cuts + (f c).recoveries)
        → Here s
        → Here (count f s)
    unfolding count
    count-IsAt f s keeps h = record {
      rows_same = h.rows_same;
      agree = keeps s.extra.counters h.agree;
    }

    enter_state-IsAt : (r : Sample) (s : Sim Player) → Here s → Here (enter_state log r s)
    unfolding enter_state
    enter_state-IsAt r s h =
        let p = s.extra in
        if_keeps Here (same_state r.state p.state) s _ h (
          if_keeps Here (is_none p.state) _ _ (set_state-IsAt r s h) (
            emit-IsAt p.emit_at "state" _ (
              count-IsAt (count_state r.state) _ (count_state-agree r.state)
                (set_state-IsAt r s h))))

    note_pl1-IsAt : (r : Sample) (s : Sim Player) → Here s → Here (note_pl1 log r s)
    unfolding note_pl1
    note_pl1-IsAt r s h =
        option_keeps Here (pl1_changed r.pl1_w s.extra.prev_pl1) _ _ (keep_pl1-IsAt r s h) (λ down.
          emit-IsAt s.extra.emit_at "write" _
            (count-IsAt (count_write down) _ (count_write-agree down) (keep_pl1-IsAt r s h)))

  play_one-IsPlaying : (s : Sim Player) → IsPlaying s → IsPlaying (play_one log s)
  unfolding play_one keep_row
  play_one-IsPlaying s h =
      let r = rec log s.extra.played in
      let started : Sim Player = record s { extra = record s.extra { emit_at = r.ts } } in
      let at = note_pl1-IsAt s.extra.history_rows r _ (
        enter_state-IsAt s.extra.history_rows r _ (
          emit_loop-IsAt s.extra.history_rows started
            (record { rows_same = refl; agree = h.writes }))) in
      record {
        window =
            ap (λ rows. newest history_len (rows ++ r ∷ [])) (at.rows_same ∙ h.window)
            ∙ newest-newest history_len (upto s.extra.played) r;
        writes = at.agree;
      }

  play-IsPlaying : (n : ℕ) (s : Sim Player) → IsPlaying s → IsPlaying (play log n s)
  unfolding play
  play-IsPlaying zero s h = h
  play-IsPlaying (suc n) s h = play-IsPlaying n _ (play_one-IsPlaying s h)

  advance-IsPlaying : (t : ℕ) (s : Sim Player) → IsPlaying s → IsPlaying (advance log t s)
  unfolding advance play_to
  advance-IsPlaying t s h = play-IsPlaying _ _ (record { window = h.window; writes = h.writes })

  -- The calls of `advance`, newest first.
  unfoldable pub advances : List ℕ → Sim Player → Sim Player
  advances [] s = s
  advances (t ∷ before) s = advance log t (advances before s)

  -- However the replay is advanced, the history is the newest 600 of the samples that the log gives in
  -- its order, loop after loop, up to the one played last; and each write that is counted is either a
  -- cut or a recovery.
  pub advances-IsPlaying :
      (gpu_mode : String) (times : List ℕ) → IsPlaying (advances times (begin log gpu_mode))
  unfolding advances begin play_to fresh newest
  advances-IsPlaying gpu_mode [] = play-IsPlaying 1 _ (record { window = refl; writes = refl })
  advances-IsPlaying gpu_mode (t ∷ before) =
      advance-IsPlaying t _ (advances-IsPlaying gpu_mode before)
