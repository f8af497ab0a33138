-- ===== src/Logger/Flow.antt =====
-- The runs of the two threads of `SampleLogger` (linux/turbomac/daemon/logger.py), in any interleaving,
-- and the records on their way.
use mathlib.Core.List.Sublist
use mathlib.Core.List.{Sublist, append_assoc, append-nil}
use turbo_mac.Prelude.{◌≡◌, refl, ap, Bool, true, false, Option, none, some, List, [], ◌∷◌, ◌++◌}
use turbo_mac.Logger.{
  Log, Phase, idle, full, making_room, closed, LogEvent, log_backlog, log_error, new_log, has_room,
  write, tail, make_room, put_again, put_end, force_end, take, finish,
}

unfoldable pub reported : List LogEvent → Bool
reported [] = false
reported (log_backlog ∷ rest) = true
reported (log_error ∷ rest) = reported rest

pub reported-append : (a b : List LogEvent) → reported a ≡ true → reported (a ++ b) ≡ true
unfolding reported
reported-append [] b h = cc
reported-append (log_backlog ∷ a) b h = refl
reported-append (log_error ∷ a) b h = reported-append a b h

pub reported_now : (a : List LogEvent) → reported (a ++ log_backlog ∷ []) ≡ true
unfolding reported
reported_now [] = refl
reported_now (log_backlog ∷ a) = refl
reported_now (log_error ∷ a) = reported_now a

module _ {R : Type 0} where
  unfoldable pub records : List (Option R) → List R
  records [] = []
  records (none ∷ rest) = records rest
  records (some r ∷ rest) = r ∷ records rest

  -- The record that `write` has in hand.
  unfoldable pub in_hand : Phase R → List R
  in_hand (full r) = r ∷ []
  in_hand (making_room r) = r ∷ []
  in_hand _ = []

  -- The record of an item that the writer takes.
  abbrev pub of_item : Option R → List R
  of_item none = []
  of_item (some r) = r ∷ []

  -- The runs of the two threads, with the records submitted and those taken by the writer, both in
  -- order. Any step may follow any other that its guard allows.
  pub data Run : List R → List R → Log R → Type 0 where
    start : Run [] [] new_log
    submits :
        {s t : List R} {l : Log R}
        → Run s t l
        → l.phase ≡ idle
        → (r : R) → Run (s ++ r ∷ []) t (write r l)
    makes_room :
        {s t : List R} {l : Log R} {r : R} → Run s t l → l.phase ≡ full r → Run s t (make_room r l)
    puts_again :
        {s t : List R} {l : Log R} {r : R}
        → Run s t l
        → l.phase ≡ making_room r
        → Run s t (put_again r l)
    ends :
        {s t : List R} {l : Log R}
        → Run s t l
        → l.phase ≡ idle
        → has_room l ≡ true
        → Run s t (put_end l)
    forces : {s t : List R} {l : Log R} → Run s t l → l.phase ≡ idle → Run s t (force_end l)
    takes :
        {s t : List R} {l : Log R} {item : Option R} {rest : List (Option R)}
        → Run s t l
        → l.flight ≡ none
        → l.stopped ≡ false
        → l.queue ≡ item ∷ rest
        → Run s (t ++ of_item item) (take item rest l)
    finishes :
        {s t : List R} {l : Log R} {r : R}
        → Run s t l
        → l.flight ≡ some r
        → (failed : Bool) → Run s t (finish failed l)

  pub records-append : (a b : List (Option R)) → records (a ++ b) ≡ records a ++ records b
  unfolding records
  records-append [] b = refl
  records-append (none ∷ a) b = records-append a b
  records-append (some r ∷ a) b = ap (λ x. r ∷ x) (records-append a b)

  pub records-tail : (q : List (Option R)) → Sublist (records (tail q)) (records q)
  unfolding records tail
  records-tail [] = Sublist.refl []
  records-tail (none ∷ rest) = Sublist.refl _
  records-tail (some r ∷ rest) = Sublist.cons r (Sublist.refl _)

  -- The records that are taken, queued, or in hand, the oldest first.
  abbrev pub flow : List R → List (Option R) → Phase R → List R
  flow t q ph = t ++ (records q ++ in_hand ph)

  pub flow-tail :
      (t : List R) (q : List (Option R)) (ph : Phase R) → Sublist (flow t (tail q) ph) (flow t q ph)
  flow-tail t q ph =
      Sublist.append (Sublist.refl t) (Sublist.append (records-tail q) (Sublist.refl (in_hand ph)))

  pub flow-submit :
      (t : List R) (q : List (Option R)) (r : R) → flow t q (full r) ≡ flow t q idle ++ r ∷ []
  unfolding in_hand
  flow-submit t q r = simp (append_assoc, append-nil)

  pub flow-enqueue :
      (t : List R) (q : List (Option R)) (r : R)
      → flow t (q ++ some r ∷ []) idle ≡ flow t q (full r)
  unfolding in_hand
  flow-enqueue t q r = simp (records-append, append_assoc, append-nil) (unfold records in refl)

  pub flow-end : (t : List R) (q : List (Option R)) → flow t (q ++ none ∷ []) closed ≡ flow t q idle
  unfolding in_hand
  flow-end t q =
      simp (records-append, append_assoc, append-nil) (unfold records in simp (append-nil))

  pub flow-take :
      (t : List R) (item : Option R) (rest : List (Option R)) (ph : Phase R)
      → flow (t ++ of_item item) rest ph ≡ flow t (item ∷ rest) ph
  unfolding records
  flow-take t none rest ph = simp (append-nil)
  flow-take t (some r) rest ph = simp (append_assoc)
