-- ===== src/Tui/Subscription/Tests.antt =====
-- The theorems on a subscription at concrete steps.
use turbo_mac.Prelude.{◌*◌, ◌≡◌, refl, false, none, List, [], ◌∷◌, one}
use turbo_mac.Tui.Subscription.{
  Item, status, failure, Event, Step, stop, next, run, start, step, take, conn, changed, notify,
  set_conn, stop_if, deliver, pause, backoff, finish, same_flag, same_error,
}
use turbo_mac.Tui.Subscription.Told.{IsTold, truth, run-IsTold}
use turbo_mac.Tui.Subscription.Backoff.{Counts, pauses, run-Counts}

abbrev quiet : Item → Event
quiet i = record { item = i; stop_within = false; change_raises = false }

-- Newest first: three refusals, a status, a loss of the connection.
abbrev steps : List Step
steps =
    next (quiet (failure "status stream ended"))
    ∷ next (quiet (status false))
    ∷ next (quiet (failure "refused"))
    ∷ next (quiet (failure "refused"))
    ∷ next (quiet (failure "refused"))
    ∷ []

run-waits : (run steps (start false none)).waits ≡ 500_000_000 ∷ 2 * one ∷ one ∷ 500_000_000 ∷ []
unfolding run start step take conn changed notify set_conn stop_if deliver pause backoff finish
    same_flag same_error
run-waits = refl

run-IsTold_example : IsTold (truth (start false none)) (run (stop ∷ steps) (start false none))
run-IsTold_example = run-IsTold false none (stop ∷ steps)

run-Counts_example : Counts 1 (pauses steps) 1 (run steps (start false none))
run-Counts_example = run-Counts false none steps (
  (refl, refl, tt),
  ((refl, refl, refl), ((refl, refl, tt), ((refl, refl, tt), ((refl, refl, tt), tt)))),
)
