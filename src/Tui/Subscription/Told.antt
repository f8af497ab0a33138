-- ===== src/Tui/Subscription/Told.antt =====
-- What the callers of `Subscription` (linux/turbomac/tui/backend.py) are told of the connection.
use text.Mathlib.TextEquality.{eq_iff}
use turbo_mac.Prelude.{
  ◌≡◌, ◌≢◌, refl, sym, ap, ◌∙◌, Bool, true, false, ◌&&◌, ◌||◌, not, Option, none, some, List, [],
  ◌∷◌, String, if◌then◌else◌, arith, if_keeps, &&-false, Bool-cases, inl, inr,
}
use turbo_mac.Tui.Subscription.{
  Note, Item, status, failure, Event, Step, stop, next, Worker, same_error, same_flag, changed,
  notify, set_conn, conn, stop_if, finish, deliver, pause, take, step, run, start,
}

-- What the two fields of the backend say.
abbrev pub truth : Worker → Note
truth s = (s.connected, (if s.connected then none else s.last_error))

-- The last note, or what was known before the first.
abbrev pub shown : Note → List Note → Note
shown known [] = known
shown known (n ∷ before) = n

-- Each note differs from what was shown before it.
abbrev pub Differs : Note → List Note → Type 0
Differs known [] = Unit {0}
Differs known (n ∷ before) = (n ≢ shown known before) × Differs known before

-- Unless it is stopped, what was shown last is true; no note repeats the one before it; and the thread
-- ends only when it is stopped.
pub record IsTold (known : Note) (s : Worker) : Type 0 where
  pub honest : s.stopped ≡ false → shown known s.notes ≡ truth s
  pub fresh : Differs known s.notes
  pub stays : s.ended ≡ true → s.stopped ≡ true

same_error_sound : (a b : Option String) → same_error a b ≡ true → a ≡ b
unfolding same_error
same_error_sound none none h = refl
same_error_sound (some a) (some b) h = ap some ((eq_iff a b).0 h)
same_error_sound none (some b) h = cc
same_error_sound (some a) none h = cc

same_error_refl : (a : Option String) → same_error a a ≡ true
unfolding same_error
same_error_refl none = refl
same_error_refl (some a) = (eq_iff a a).1 refl

-- What `_conn` is called with.
abbrev said : Bool → Option String → Note
said ok err = (ok, (if ok then none else err))

module _ (known : Note) where
  set_conn-truth :
      (ok : Bool) (err : Option String) (s : Worker) → truth (set_conn ok err s) ≡ said ok err
  unfolding set_conn
  set_conn-truth true err s = refl
  set_conn-truth false err s = refl

  -- When nothing changed, the fields said so before.
  unchanged-truth :
      (ok connected : Bool) (err last_error : Option String)
      → (not (same_flag ok connected) || (not ok && not (same_error err last_error))) ≡ false
      → said ok err ≡ (connected, (if connected then none else last_error))
  unfolding same_flag
  unchanged-truth true true err last_error h = refl
  unchanged-truth true false err last_error h = cc
  unchanged-truth false true err last_error h = cc
  unchanged-truth false false err last_error h = elim (Bool-cases (same_error err last_error)) [
    | inl e ↦ ap (λ x. (false, x)) (same_error_sound err last_error e)
    | inr e ↦ cc (rw e at h)
  ]

  -- When something changed, the fields did not say so before.
  changed-truth :
      (ok connected : Bool) (err last_error : Option String)
      → (not (same_flag ok connected) || (not ok && not (same_error err last_error))) ≡ true
      → said ok err ≢ (connected, (if connected then none else last_error))
  unfolding same_flag
  changed-truth true true err last_error h e = cc
  changed-truth true false err last_error h e = cc
  changed-truth false true err last_error h e = cc
  changed-truth false false err last_error h e =
      cc (h, ap (same_error err) (ap (λ (n : Note). n.1) e), same_error_refl err)

  -- A note whose text fits its flag.
  abbrev Fits : Bool → Option String → Type 0
  Fits ok err = (ok, err) ≡ said ok err

  conn-IsTold :
      (raises ok : Bool) (err : Option String) (s : Worker)
      → Fits ok err
      → IsTold known s
      → IsTold known (conn raises ok err s)
  unfolding conn same_flag changed set_conn notify
  conn-IsTold raises ok err s fits told = by_changed (changed ok err s) s.stopped refl refl
    where
      by_changed :
          (c b : Bool)
          → changed ok err s ≡ c
          → s.stopped ≡ b
          → IsTold known (
              if c && not b then notify raises (ok, err) (set_conn ok err s) else set_conn ok err s)
      by_changed c true e e' =
          rw &&-false (record { honest = λ h. cc; fresh = told.fresh; stays = λ h. e' })
      by_changed true false e e' = record {
        honest = λ h. fits ∙ sym (set_conn-truth ok err s);
        fresh = (
          (λ same.
              changed-truth ok s.connected err s.last_error e (sym fits ∙ same ∙ told.honest e')),
          told.fresh,
        );
        stays = λ h. cc (told.stays h, e');
      }
      by_changed false false e e' = record {
        honest = λ h.
            told.honest e'
            ∙ (sym (unchanged-truth ok s.connected err s.last_error e)
                ∙ sym (set_conn-truth ok err s));
        fresh = told.fresh;
        stays = told.stays;
      }

  stop_if-IsTold : (b : Bool) (s : Worker) → IsTold known s → IsTold known (stop_if b s)
  unfolding stop_if
  stop_if-IsTold b s told = record {
    honest = λ h. told.honest (ground (arith, h));
    fresh = told.fresh;
    stays = λ h. ground (arith, told.stays h);
  }

  deliver-IsTold : (raises : Bool) (s : Worker) → IsTold known s → IsTold known (deliver raises s)
  unfolding deliver finish stop_if
  deliver-IsTold true s told = record {
    honest = λ h. ground (arith, h);
    fresh = told.fresh;
    stays = λ h. ground (arith, h);
  }
  deliver-IsTold false s told = record {
    honest = told.honest;
    fresh = told.fresh;
    stays = told.stays;
  }

  take-IsTold : (e : Event) (s : Worker) → IsTold known s → IsTold known (take e s)
  unfolding take pause
  take-IsTold e s told = by_item e.item
    where
      stopping : IsTold known (stop_if e.stop_within s)
      stopping = stop_if-IsTold e.stop_within s told

      by_item :
          (i : Item)
          → IsTold known (elim i [
            | status raises ↦
                deliver raises (
                  conn e.change_raises true none (record (stop_if e.stop_within s) { attempt = 0 }))
            | failure text ↦
                pause (conn e.change_raises false (some text) (stop_if e.stop_within s))
          ])
      by_item (status raises) = deliver-IsTold raises _ (
          conn-IsTold e.change_raises true none _ refl
            (record { honest = stopping.honest; fresh = stopping.fresh; stays = stopping.stays }))
      by_item (failure text) =
          let after = conn-IsTold e.change_raises false (some text) _ refl stopping in
          record { honest = after.honest; fresh = after.fresh; stays = after.stays }

  step-IsTold : (x : Step) (s : Worker) → IsTold known s → IsTold known (step x s)
  unfolding step finish
  step-IsTold stop s told = stop_if-IsTold true s told
  step-IsTold (next e) s told = if_keeps (IsTold known) s.ended _ _ told (by_stopped s.stopped refl)
    where
      by_stopped : (b : Bool) → s.stopped ≡ b → IsTold known (if b then finish s else take e s)
      by_stopped false h = take-IsTold e s told
      by_stopped true h = record { honest = told.honest; fresh = told.fresh; stays = λ ended. h }

-- Whatever the stream gives and the callbacks do, and whenever `stop` is called: what `on_change` was
-- last told, or what the backend said before, is what the backend's fields say, unless the thread is
-- stopped; no call of `on_change` repeats the one before it; and the thread ends only when it is stopped,
-- by `stop` or by a callback that raises.
pub run-IsTold :
    (connected : Bool) (last_error : Option String) (steps : List Step)
    → IsTold (truth (start connected last_error)) (run steps (start connected last_error))
unfolding run start
run-IsTold connected last_error [] = record { honest = λ h. refl; fresh = tt; stays = λ h. h }
run-IsTold connected last_error (x ∷ before) =
    step-IsTold (truth (start connected last_error)) x _ (run-IsTold connected last_error before)
