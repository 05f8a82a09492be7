-- ===== src/Loop/Tests.antt =====
-- Runs of the loop extension at concrete inputs.
use pipee.Base.{◌≡◌, ◌≢◌, ◌↔◌, refl, true, false, none, some, List, [], ◌∷◌}
use pipee.Base.Dict
use pipee.Base.Dict.{Dict}
use pipee.Loop.Model.{
  Loop, once, interval, manual, BaseFields, waiting, session, project, CronSpec, Fraction, phase,
}
use pipee.Loop.Runtime.{Runtime}
use pipee.Loop.Transition.{opened, closed, tick, tick_phase, advance, occurrence_of}
use pipee.Loop.Transition.Claims.{IsDue, tick-claims_iff}
use pipee.Loop.Transition.Runs
use pipee.Loop.Transition.Runs.{Event, ticks, arms, CountsFrom, run-CountsFrom}
use pipee.Loop.Repository.State
use pipee.Loop.Repository.Operations
use pipee.Loop.Repository.State.{
  attempt_ownership, take_lease, own, merge_from, commit_project, persist_file, read_durable,
  load_from, commit, store, commit_session, World, Host, Settings, done, failed, acquired, inactive,
  world_of,
}
use pipee.Loop.Repository.Operations.{
  remove_all, claim_from, claims, next_map, answer, Call, adds, claims_due, removes_all,
  make_repository, claim_due,
}
use pipee.Loop.Repository.Invariant.{IsSound}
use pipee.Loop.Repository.Preserved.{run-IsSound, make_repository-IsSound}
use pipee.Loop.Repository.Durable.{CommitOutcome, commit_outcome}
use pipee.Loop.Repository.Again.{claim_due_twice}

-- A runtime whose clock always shows Monday, the first of March, 03:05, and that adds no jitter.
abbrev rt : Runtime
rt = record {
  format_to_parts = λ zone instant.
      ("weekday", "Mon") ∷ ("minute", "05") ∷ ("hour", "03") ∷ ("day", "01") ∷ ("month", "03") ∷ [];
  floor_scaled = λ hash fraction span. 0;
}

abbrev base : BaseFields
base = record {
  id = "x";
  prompt = "look";
  created_at = 0;
  enabled = true;
  manual_cursor = 0;
  label = none;
}

abbrev half : Fraction
half = record { num = 1; exp = 1 }

abbrev every_second : Loop
every_second =
    interval base session (record { period_ms = 1000; jitter_fraction = half; jitter_cap_ms = 100 })
      none (record { due_at = 1000; cursor = 7 })

abbrev events : List Event
events =
    ticks 500 opened
    ∷ ticks 1500 closed
    ∷ ticks 2000 opened
    ∷ arms 3000
    ∷ ticks 2001 opened
    ∷ ticks 9000 opened
    ∷ []

run-CountsFrom_example : CountsFrom "x" 7 (Runs.run rt (some every_second) events)
run-CountsFrom_example = run-CountsFrom rt every_second events

abbrev once_at_5 : Loop
once_at_5 = once base session (record { due_at = 5; cursor = 0 })

tick-claims_iff_example :
    ((tick rt once_at_5 9 opened).occurrence ≢ none)
    ↔ ((true ≡ true) × (opened ≡ opened) × IsDue (phase once_at_5) 9)
tick-claims_iff_example = tick-claims_iff rt once_at_5 9 opened

abbrev dynamic : Loop
dynamic = manual base (waiting (record { due_at = 5; cursor = 2 }))

abbrev host : Host
host = record {
  lease_outcome = acquired;
  meanwhile = λ f. f;
  probe_ok = true;
  read_ok = true;
  write_ok = true;
  session_ok = true;
}

abbrev settings : Settings
settings = record { max_loops = 50; persists_session = true }

abbrev empty_world : World
empty_world = record {
  access = inactive;
  loops = [];
  holds_lease = false;
  file = none;
  session_entry = none;
}

abbrev session_world : World
session_world = record empty_world { loops = ("x", once_at_5) ∷ [] }

abbrev shared : Loop
shared = once (record base { id = "y" }) project (record { due_at = 50; cursor = 0 })

abbrev calls : List (Host × Call)
calls =
    (host, adds once_at_5)
    ∷ (host, adds shared)
    ∷ (host, claims_due 60 opened project)
    ∷ (host, removes_all session)
    ∷ []

run-IsSound_example : IsSound (Operations.run settings rt calls empty_world)
run-IsSound_example =
    run-IsSound settings rt calls empty_world
      (record { keyed = tt; leased = refl; private = λ e. refl })

make_repository-IsSound_example :
    IsSound (world_of (make_repository host (once_at_5 ∷ []) (some (shared ∷ []))))
make_repository-IsSound_example = make_repository-IsSound host (once_at_5 ∷ []) (some (shared ∷ []))

commit_outcome_example :
    CommitOutcome [] project empty_world (State.commit host settings [] project empty_world)
commit_outcome_example = commit_outcome host settings [] project empty_world

claim_due_twice_example :
    claim_due host settings rt 9 opened session (record empty_world { session_entry = some [] })
    ≡ done [] (record empty_world { session_entry = some [] })
unfolding claim_due claim_from claims next_map answer commit store tick tick_phase advance
    occurrence_of Dict.get Dict.delete
claim_due_twice_example =
    claim_due_twice rt 9 settings host host session_world
      (record empty_world { session_entry = some [] })
      (occurrence_of once_at_5 (record { due_at = 5; cursor = 0 }) 9 ∷ []) (refl, refl, tt) (tt, tt)
      refl

abbrev five_past : CronSpec
five_past = record {
  expression = "5 * * * *";
  time_zone = "UTC";
  jitter_fraction = half;
  jitter_cap_ms = 1000;
}

-- A removal of all project loops that cannot write keeps the lease, without a project loop.
lease_stays :
    (world_of
      (remove_all (record host { write_ok = false }) settings project empty_world)).holds_lease
    ≡ true
unfolding remove_all attempt_ownership take_lease own merge_from commit commit_project persist_file
    answer read_durable load_from
lease_stays = refl
