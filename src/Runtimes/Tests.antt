-- ===== src/Runtimes/Tests.antt =====
-- Runs of the table of runtimes (apps/pipee/src/server/session-runtime-registry.ts) at concrete
-- inputs.
use pipee.Base.{◌≡◌, refl, List, [], ◌∷◌}
use pipee.Base.Dict
use pipee.Runtimes.Table.{
  RuntimeHandle, Registry, active, start_decision, waits, rejects, Event, starts, identifies,
  abandons, installs, closes, finalizes, close_handle, uses, shuts, step, steps, make, shutdown,
  launch, install, epoch_of,
}
use pipee.Runtimes.Sound.{IsSound, steps-IsSound}
use pipee.Runtimes.Waits.{steps-waits}
use pipee.Runtimes.Closed.{IsClosed, shutdown-closes}

abbrev handle : RuntimeHandle
handle = record { key = 0; requested_id = "new"; session_id = "s"; runtime_epoch = 1 }

-- Two starts of "new" make one runtime, whose session is "s".
abbrev opening : List Event
opening = starts "new" ∷ starts "new" ∷ identifies 0 "new" ∷ installs 0 "new" "s" ∷ []

opened : (steps opening make).slots ≡ ("s", active handle) ∷ []
unfolding steps step make start_decision launch install epoch_of Dict.get Dict.set Dict.delete
opened = refl

-- While its scope is being closed, a start of "s" still finds the handle.
used_while_closing : (start_decision "s" (close_handle handle (steps opening make))).0 ≡ uses handle
unfolding steps step make start_decision launch install epoch_of close_handle Dict.get Dict.set
    Dict.delete
used_while_closing = refl

abbrev closing : List Event
closing =
    starts "new"
    ∷ identifies 0 "new"
    ∷ installs 0 "new" "s"
    ∷ closes handle
    ∷ starts "s"
    ∷ finalizes handle
    ∷ starts "s"
    ∷ []

steps-IsSound_example : IsSound "s" (steps closing make)
unfolding make Dict.get
steps-IsSound_example = steps-IsSound "s" closing make refl (tt, refl)

abbrev being_opened : Registry
being_opened = (start_decision "new" make).1

abbrev elsewhere : List Event
elsewhere = starts "new" ∷ starts "other" ∷ identifies 1 "other" ∷ installs 1 "other" "o" ∷ []

steps-waits_example :
    start_decision "new" (steps elsewhere being_opened) ≡ (waits 0, steps elsewhere being_opened)
unfolding start_decision make Dict.get Dict.set
steps-waits_example = steps-waits "new" 0 elsewhere being_opened refl refl refl

-- A start that fails before it has an identity leaves its slot, and the next start waits for it.
abandoned : (start_decision "new" (steps (starts "new" ∷ abandons 0 "new" ∷ []) make)).0 ≡ waits 0
unfolding steps step make start_decision launch Dict.get Dict.set
abandoned = refl

abbrev late : List Event
late = starts "new" ∷ installs 5 "other" "o" ∷ closes handle ∷ []

abbrev with_handle : Registry
with_handle = record make { slots = ("s", active handle) ∷ []; open_handles = handle ∷ [] }

shutdown-closes_example :
    let t = steps late (shutdown with_handle) in
    IsClosed handle t × (start_decision "new" t ≡ (rejects, t))
shutdown-closes_example = shutdown-closes with_handle handle late "new" refl

-- Two starts that turn out to be of one session: the first handle is displaced, and the shutdown
-- leaves its scope open.
abbrev displacing : List Event
displacing =
    starts "a"
    ∷ identifies 0 "a"
    ∷ installs 0 "a" "s"
    ∷ starts "b"
    ∷ identifies 1 "b"
    ∷ installs 1 "b" "s"
    ∷ shuts
    ∷ []

displaced :
    (steps displacing make).open_handles
    ≡ record { key = 0; requested_id = "a"; session_id = "s"; runtime_epoch = 1 } ∷ []
unfolding steps step make start_decision launch install epoch_of shutdown Dict.get Dict.set
    Dict.delete
displaced = refl
