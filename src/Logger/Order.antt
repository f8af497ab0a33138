-- ===== src/Logger/Order.antt =====
-- The two threads of `SampleLogger` (linux/turbomac/daemon/logger.py) in any interleaving: the invariant of
-- the queue, the records on their way and the reports.
use mathlib.Core.List.Sublist
use mathlib.Core.List.{Sublist}
use mathlib.Core.Path.{subst}
use turbo_mac.Prelude.{
  ℕ, ◌≤◌, ◌<◌, ◌≡◌, refl, sym, ap, ◌∙◌, Bool, true, false, Option, none, some, List, [], ◌∷◌, ◌++◌,
  arith, ltb, ◌==◌, if◌then◌else◌, Bool-cases, inl, inr, ◌⊎◌, length, length-append, not, lt→ltb,
  ◌&&◌,
}
use turbo_mac.Logger.{
  Log, Phase, idle, full, making_room, closed, LogEvent, log_backlog, log_error, new_log, has_room,
  enqueue, write, tail, got, give_up_oldest, make_room, put_again, put_end, force_end, take, finish,
  queue_max,
}
use turbo_mac.Logger.Flow.{
  reported, reported-append, reported_now, records, in_hand, of_item, Run, start, submits,
  makes_room, puts_again, ends, forces, takes, finishes, flow, flow-tail, flow-submit, flow-enqueue,
  flow-end, flow-take,
}
use turbo_mac.Logger.Episodes.{backlogs, fresh, episodes, Run-Told}

module _ {R : Type 0} where
  unfoldable pub is_closed : Phase R → Bool
  is_closed closed = true
  is_closed _ = false

  -- After the oldest was given up there is room, and only the writer changes the queue.
  abbrev pub RoomKept : Phase R → ℕ → Type 0
  RoomKept (making_room r) n = n < queue_max
  RoomKept _ n = Unit {0}

  -- The invariant, over the fields that it is about.
  pub record Holds (s t : List R) (q : List (Option R)) (ph : Phase R) (events : List LogEvent)
      (backlog : Bool) : Type 0 where
    pub small : length q ≤ queue_max
    pub room : RoomKept ph (length q)
    pub in_order : Sublist (flow t q ph) s
    pub known : (backlog ≡ false) ⊎ (reported events ≡ true)
    pub honest : (flow t q ph ≡ s) ⊎ (reported events ≡ true) ⊎ (is_closed ph ≡ true)

  abbrev pub Inv : List R → List R → Log R → Type 0
  Inv s t l = Holds s t l.queue l.phase l.events l.backlog

  -- The invariant where the phase is known.
  at_phase :
      {s t : List R} (l : Log R) {ph : Phase R}
      → Inv s t l
      → l.phase ≡ ph
      → Holds s t l.queue ph l.events l.backlog
  at_phase {s} {t} l h e = subst (λ ph. Holds s t l.queue ph l.events l.backlog) e h

  length-tail : (q : List (Option R)) → 0 < length q → length (tail q) < length q
  unfolding tail
  length-tail [] h = elim h [ ]
  length-tail (i ∷ rest) h = omega arith

  length-tail-le : (q : List (Option R)) → length (tail q) ≤ length q
  unfolding tail
  length-tail-le [] = omega arith
  length-tail-le (i ∷ rest) = omega arith

  -- A record that is submitted: the flow and the submitted records grow alike.
  Holds-submit :
      (s t : List R) (q q' : List (Option R)) (ph : Phase R) (events : List LogEvent)
      (backlog : Bool) (r : R)
      → Holds s t q idle events backlog
      → length q' ≤ queue_max
      → RoomKept ph (length q')
      → flow t q' ph ≡ flow t q (full r)
      → Holds (s ++ r ∷ []) t q' ph events backlog
  unfolding is_closed
  Holds-submit s t q q' ph events backlog r h small room same =
      let grown : flow t q' ph ≡ flow t q idle ++ r ∷ [] = same ∙ flow-submit t q r in
      record {
        small = small;
        room = room;
        in_order =
            subst (λ xs. Sublist xs (s ++ r ∷ [])) (sym grown)
              (Sublist.append h.in_order (Sublist.refl (r ∷ [])));
        known = h.known;
        honest = elim h.honest [
          | inl e ↦ inl (grown ∙ ap (λ xs. xs ++ r ∷ []) e)
          | inr (inl e) ↦ inr (inl e)
          | inr (inr e) ↦ cc
        ];
      }

  write-Inv :
      {s t : List R} (l : Log R) (r : R)
      → Inv s t l
      → l.phase ≡ idle
      → Inv (s ++ r ∷ []) t (write r l)
  unfolding write has_room enqueue
  write-Inv {s} {t} l r h e = elim (Bool-cases (ltb (length l.queue) queue_max)) [
    | inl yes_room ↦
        rw (yes_room, write)
          (subst (λ ph. Holds (s ++ r ∷ []) t (l.queue ++ some r ∷ []) ph l.events l.backlog)
            (sym e)
            (Holds-submit s t l.queue (l.queue ++ some r ∷ []) idle l.events l.backlog r
              (at_phase l h e) (ground (arith, yes_room, length-append l.queue (some r ∷ []))) tt
              (flow-enqueue t l.queue r)))
    | inr no_room ↦
        rw (no_room, write)
          (Holds-submit s t l.queue l.queue (full r) l.events l.backlog r (at_phase l h e) h.small
            tt refl)
  ]

  -- The step that may lose a record reports it first.
  make_room-Inv :
      {s t : List R} (l : Log R) (r : R) → Inv s t l → l.phase ≡ full r → Inv s t (make_room r l)
  unfolding make_room give_up_oldest
  make_room-Inv {s} {t} l r h e =
      let now = at_phase l h e in
      let told : reported (if l.backlog then l.events else l.events ++ log_backlog ∷ []) ≡ true =
        elim (Bool-cases l.backlog) [
          | inl b ↦ rw b (elim h.known [ inl no_backlog ↦ cc | inr seen ↦ seen ])
          | inr b ↦ rw b (reported_now l.events)
        ] in
      record {
        small = omega (arith, length-tail-le l.queue, h.small);
        room = below_max l.queue h.small;
        in_order =
            Sublist.trans (flow-tail t l.queue (making_room r)) (unfold in_hand in now.in_order);
        known = inr told;
        honest = inr (inl told);
      }
    where
      below_max : (q : List (Option R)) → length q ≤ queue_max → length (tail q) < queue_max
      below_max [] small = omega arith
      below_max (i ∷ rest) small = omega arith

  put_again-Inv :
      {s t : List R} (l : Log R) (r : R)
      → Inv s t l
      → l.phase ≡ making_room r
      → Inv s t (put_again r l)
  unfolding put_again has_room enqueue
  put_again-Inv {s} {t} l r h e =
      let now = at_phase l h e in
      let yes_room : ltb (length l.queue) queue_max ≡ true = lt→ltb _ _ now.room in
      let same : flow t (l.queue ++ some r ∷ []) idle ≡ flow t l.queue (making_room r) =
        flow-enqueue t l.queue r ∙ unfold in_hand in refl in
      rw (yes_room, put_again)
        (record {
          small = omega (arith, now.room, length-append l.queue (some r ∷ []));
          room = tt;
          in_order = subst (λ xs. Sublist xs s) (sym same) now.in_order;
          known = h.known;
          honest = elim now.honest [
            | inl e' ↦ inl (same ∙ e')
            | inr (inl e') ↦ inr (inl e')
            | inr (inr e') ↦ unfold is_closed in cc
          ];
        })

  -- When the queue is closed a record may be given up without a report.
  Holds-closed :
      (s t : List R) (q q' : List (Option R)) (events : List LogEvent) (backlog : Bool)
      → Holds s t q idle events backlog
      → length q' ≤ queue_max
      → Sublist (flow t q' closed) (flow t q idle)
      → Holds s t q' closed events backlog
  Holds-closed s t q q' events backlog h small sub = record {
    small = small;
    room = tt;
    in_order = Sublist.trans sub h.in_order;
    known = h.known;
    honest = inr (inr (unfold is_closed in refl));
  }

  flow-end-Sublist :
      (t : List R) (q : List (Option R)) → Sublist (flow t (q ++ none ∷ []) closed) (flow t q idle)
  flow-end-Sublist t q =
      subst (λ xs. Sublist xs (flow t q idle)) (sym (flow-end t q)) (Sublist.refl _)

  put_end-Inv :
      {s t : List R} (l : Log R)
      → Inv s t l
      → l.phase ≡ idle
      → has_room l ≡ true
      → Inv s t (put_end l)
  unfolding put_end enqueue has_room
  put_end-Inv {s} {t} l h e yes_room =
      Holds-closed s t l.queue (l.queue ++ none ∷ []) l.events l.backlog (at_phase l h e)
        (ground (arith, yes_room, length-append l.queue (none ∷ []))) (flow-end-Sublist t l.queue)

  flow-closed : (t : List R) (q : List (Option R)) → flow t q closed ≡ flow t q idle
  unfolding in_hand
  flow-closed t q = refl

  force_end-Inv : {s t : List R} (l : Log R) → Inv s t l → l.phase ≡ idle → Inv s t (force_end l)
  unfolding force_end give_up_oldest has_room enqueue
  force_end-Inv {s} {t} l h e =
      let now = at_phase l h e in
      let whole =
        subst (λ xs. Sublist xs (flow t l.queue idle)) (sym (flow-closed t l.queue))
          (Sublist.refl _) in
      let less =
        subst (λ xs. Sublist xs (flow t l.queue idle)) (sym (flow-closed t (tail l.queue)))
          (flow-tail t l.queue idle) in
      elim (Bool-cases (got l.queue == 0)) [
        | inl e0 ↦
            rw (e0, force_end)
              (Holds-closed s t l.queue l.queue l.events l.backlog now h.small whole)
        | inr e1 ↦ elim (Bool-cases (ltb (length (tail l.queue)) queue_max)) [
          | inl yes_room ↦
              rw (e1, force_end, yes_room)
                (Holds-closed s t l.queue (tail l.queue ++ none ∷ []) l.events l.backlog now
                  (ground (arith, yes_room, length-append (tail l.queue) (none ∷ [])))
                  (Sublist.trans (flow-end-Sublist t (tail l.queue)) (flow-tail t l.queue idle)))
          | inr no_room ↦
              rw (e1, force_end, no_room)
                (Holds-closed s t l.queue (tail l.queue) l.events l.backlog now
                  (omega (arith, length-tail-le l.queue, h.small)) less)
        ]
      ]

  RoomKept-le : (ph : Phase R) (m n : ℕ) → m ≤ n → RoomKept ph n → RoomKept ph m
  RoomKept-le idle m n h room = tt
  RoomKept-le (full r) m n h room = tt
  RoomKept-le (making_room r) m n h room = omega (arith, h, room)
  RoomKept-le closed m n h room = tt

  Holds-take :
      (s t : List R) (q : List (Option R)) (ph : Phase R) (events : List LogEvent) (backlog : Bool)
      (item : Option R) (rest : List (Option R))
      → Holds s t q ph events backlog
      → q ≡ item ∷ rest
      → Holds s (t ++ of_item item) rest ph events backlog
  Holds-take s t q ph events backlog item rest h e =
      let h' = subst (λ q'. Holds s t q' ph events backlog) e h in
      let same = flow-take t item rest ph in
      record {
        small = omega (arith, h'.small);
        room = RoomKept-le ph (length rest) (length (item ∷ rest)) (omega arith) h'.room;
        in_order = subst (λ xs. Sublist xs s) (sym same) h'.in_order;
        known = h.known;
        honest =
            subst (λ xs. (xs ≡ s) ⊎ (reported events ≡ true) ⊎ (is_closed ph ≡ true)) (sym same)
              h'.honest;
      }

  take-Inv :
      {s t : List R} (l : Log R) (item : Option R) (rest : List (Option R))
      → Inv s t l
      → l.queue ≡ item ∷ rest
      → Inv s (t ++ of_item item) (take item rest l)
  unfolding take
  take-Inv {s} {t} l none rest h e = Holds-take s t l.queue l.phase l.events l.backlog none rest h e
  take-Inv {s} {t} l (some r) rest h e =
      Holds-take s t l.queue l.phase l.events l.backlog (some r) rest h e

  -- The writer's report leaves a report of a backlog where it is.
  finish-reported :
      (failed : Bool) (l : Log R)
      → reported l.events ≡ true
      → reported (finish failed l).events ≡ true
  unfolding finish
  finish-reported failed l h = elim (Bool-cases (failed && not l.write_error)) [
    | inl e ↦ rw (e, finish) (reported-append l.events (log_error ∷ []) h)
    | inr e ↦ rw (e, finish) h
  ]

  finish-known :
      (failed : Bool) (l : Log R)
      → (l.backlog ≡ false) ⊎ (reported l.events ≡ true)
      → ((finish failed l).backlog ≡ false) ⊎ (reported (finish failed l).events ≡ true)
  finish-known failed l (inl e) = inl (unfold finish in ground (arith, e))
  finish-known failed l (inr e) = inr (finish-reported failed l e)

  finish-Inv : {s t : List R} (l : Log R) (failed : Bool) → Inv s t l → Inv s t (finish failed l)
  finish-Inv {s} {t} l failed h =
      let known = finish-known failed l h.known in
      let told = finish-reported failed l in
      unfold finish in
      record {
        small = h.small;
        room = h.room;
        in_order = h.in_order;
        known = known;
        honest = elim h.honest [
          | inl e ↦ inl e
          | inr (inl e) ↦ inr (inl (told e))
          | inr (inr e) ↦ inr (inr e)
        ];
      }

  new_log-Inv : Inv [] [] new_log
  unfolding records in_hand
  new_log-Inv = record {
    small = omega arith;
    room = tt;
    in_order = Sublist.refl [];
    known = inl refl;
    honest = inl refl;
  }

  Run-Inv : {s t : List R} {l : Log R} → Run s t l → Inv s t l
  Run-Inv start = new_log-Inv
  Run-Inv (submits {l = l} run e r) = write-Inv l r (Run-Inv run) e
  Run-Inv (makes_room {l = l} {r = r} run e) = make_room-Inv l r (Run-Inv run) e
  Run-Inv (puts_again {l = l} {r = r} run e) = put_again-Inv l r (Run-Inv run) e
  Run-Inv (ends {l = l} run e room) = put_end-Inv l (Run-Inv run) e room
  Run-Inv (forces {l = l} run e) = force_end-Inv l (Run-Inv run) e
  Run-Inv (takes {l = l} {item = item} {rest = rest} run f s q) =
      take-Inv l item rest (Run-Inv run) q
  Run-Inv (finishes {l = l} run f failed) = finish-Inv l failed (Run-Inv run)

  -- In every interleaving of the thread that writes records with the writer, with failing writes and
  -- with the close in any place: the queue holds at most 120 items; the records that the writer took,
  -- then those in the queue, then the one in hand are a sublist of the records submitted, so none is
  -- written twice or out of order; and they are all of the records submitted, unless a backlog was
  -- reported or the log is closed (a record that the writer took may still fail to be written, and the
  -- close may drop one without a report). There are as many reports of a backlog as episodes: steps that
  -- make room and are the first, or come after a round that the writer ended with less than half of the
  -- queue full, with no other such step since; and the flag of the log is up exactly when the next such
  -- step begins none.
  pub Run-Sublist :
      {s t : List R} {l : Log R} (run : Run s t l)
      → (length l.queue ≤ queue_max)
        × Sublist (flow t l.queue l.phase) s
        × ((flow t l.queue l.phase ≡ s) ⊎ (reported l.events ≡ true) ⊎ (is_closed l.phase ≡ true))
        × (backlogs l.events ≡ episodes run)
        × (l.backlog ≡ not (fresh run))
  Run-Sublist run =
      let h = Run-Inv run in
      let told = Run-Told run in (h.small, h.in_order, h.honest, told.count, told.flag)
