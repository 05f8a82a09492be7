-- ===== src/Loop/Repository/Operations.antt =====
-- The operations of `makeLoopRepository`: what a client of the repository calls.
use pipee.Base.{
  ℕ, ◌+◌, Bool, true, false, not, ◌&&◌, Option, none, some, List, [], ◌∷◌, String, str_eq, ◌==◌,
  keep, leb, if◌then◌else◌, Result, ok, err,
}
use pipee.Base.Dict
use pipee.Base.Dict.{Dict}
use pipee.Base.Text.{show, ◌<>◌}
use pipee.Loop.Model.{
  Loop, Retention, project, retention, same_retention, loop_id, fields, with_fields, Occurrence,
  manually, occurrence_prompt,
}
use pipee.Loop.Runtime.{Runtime}
use pipee.Loop.Transition.{Gate, is_closed, TransitionResult, tick, arm}
use pipee.Loop.Repository.State.{
  World, Host, Settings, M, done, failed, return, then_run, map_error, on_error, MutationError,
  repository_failure, lease_unavailable, capacity_exceeded, loop_not_found, loop_state_conflict,
  persist, load, Access, inactive, is_owner, is_project, is_session, Outcome, world_of,
  attempt_ownership, state_for_id, commit, release_empty, read_durable,
}

abbrev get : String → World → Result MutationError Loop
get id w = elim (Dict.get id w.loops) [ none ↦ err (loop_not_found id) | some l ↦ ok l ]

abbrev list : World → List Loop
list w = Dict.values w.loops

abbrev project_access : World → Access
project_access w = w.access

-- The loops whose retention is the given one, taken out of the map.
unfoldable pub delete_all : List Loop → Dict Loop → Dict Loop
delete_all [] next = next
delete_all (l ∷ ls) next = delete_all ls (Dict.delete (loop_id l) next)

abbrev pub of_retention : Retention → List Loop → List Loop
of_retention r = keep (λ l. same_retention (retention l) r)

-- `if (result.loop === undefined) next.delete(loop.id) else next.set(loop.id, result.loop)`
abbrev pub put_back : String → Option Loop → Dict Loop → Dict Loop
put_back id none next = Dict.delete id next
put_back id (some l) next = Dict.set id l next

-- One round of the loop of `claimDue`: the map and the occurrences so far.
abbrev pub after_tick : Loop → TransitionResult → Option Occurrence → Dict Loop → Dict Loop
after_tick l r none next = next
after_tick l r (some o) next = put_back (loop_id l) r.loop next

abbrev pub add_claim : Option Occurrence → List Occurrence → List Occurrence
add_claim none os = os
add_claim (some o) os = o ∷ os

-- The loop of `claimDue` over the loops: the next map, and the occurrences in order.
unfoldable pub next_map : Runtime → ℕ → Gate → Retention → List Loop → Dict Loop → Dict Loop
next_map rt now gate r [] next = next
next_map rt now gate r (l ∷ ls) next =
    let res = tick rt l now gate in
    next_map rt now gate r ls
      (if same_retention (retention l) r then after_tick l res res.occurrence next else next)

unfoldable pub claims : Runtime → ℕ → Gate → Retention → List Loop → List Occurrence
claims rt now gate r [] = []
claims rt now gate r (l ∷ ls) =
    let rest = claims rt now gate r ls in
    if same_retention (retention l) r then add_claim (tick rt l now gate).occurrence rest else rest

abbrev pub is_empty {ℓ} : {A : Type ℓ} → List A → Bool
is_empty [] = true
is_empty (x ∷ xs) = false

abbrev pub remove_all_error : MutationError → MutationError
remove_all_error lease_unavailable = lease_unavailable
remove_all_error _ = repository_failure persist

abbrev pub claim_due_error : MutationError → MutationError
claim_due_error (repository_failure s) = repository_failure s
claim_due_error _ = repository_failure persist

abbrev pub with_enabled : Loop → Bool → Loop
with_enabled l enabled = let b = fields l in with_fields l (record b { enabled = enabled })

abbrev pub with_manual_cursor : Loop → ℕ → Loop
with_manual_cursor l c = let b = fields l in with_fields l (record b { manual_cursor = c })

abbrev pub manual_occurrence : String → Loop → ℕ → ℕ → Occurrence
manual_occurrence id l cursor now = record {
  id = id <> ":manual:" <> show cursor;
  loop_id = id;
  cursor = cursor;
  prompt = occurrence_prompt l;
  due_at = now;
  claimed_at = now;
  trigger = manually;
}

abbrev pub found_or_fail : String → Option Loop → M Loop
found_or_fail id none w = failed (loop_not_found id) w
found_or_fail id (some l) w = done l w

module _ (host : Host) (settings : Settings) where
  -- `add`, before its finalizer: the test of the size, of the identifier, and the commit.
  unfoldable pub add_checked : Loop → M (Unit {0})
  add_checked l w =
      if leb settings.max_loops (Dict.size w.loops)
      then failed (capacity_exceeded settings.max_loops) w
      else if Dict.has (loop_id l) w.loops
      then failed (loop_state_conflict (loop_id l) "unused loop id") w
      else commit host settings (Dict.set (loop_id l) l w.loops) (retention l) w

  unfoldable pub add_owned : Loop → Bool → M (Unit {0})
  add_owned l false w = failed lease_unavailable w
  add_owned l true w = add_checked l w

  unfoldable pub add : Loop → M (Unit {0})
  unfolding add_owned
  add l w =
      on_error release_empty (
        if is_project l then then_run (attempt_ownership host w) (add_owned l) else add_checked l w)

  -- The commit of a map in which one loop is changed, and the answer.
  unfoldable pub answer {ℓ} : {A : Type ℓ} → A → Dict Loop → Retention → M A
  answer a next r w = then_run (commit host settings next r w) (λ _. return a)

  -- `stateForId`, and the loop under the identifier.
  unfoldable pub find : String → M Loop
  find id w = then_run (state_for_id host id w) (λ _ v. found_or_fail id (Dict.get id v.loops) v)

  unfoldable pub remove : String → M Loop
  remove id w = then_run (find id w) (λ l v. answer l (Dict.delete id v.loops) (retention l) v)

  unfoldable pub put_armed : String → Loop → Option Loop → M Loop
  put_armed id l none w = failed (loop_state_conflict id "manual loop awaiting arm") w
  put_armed id l (some armed) w = answer armed (Dict.set id armed w.loops) (retention l) w

  unfoldable pub arm_loop : String → ℕ → M Loop
  unfolding put_armed
  arm_loop id at w = then_run (find id w) (λ l. put_armed id l (arm l at))

  unfoldable pub replace : String → Loop → M Loop
  replace id updated w = then_run (find id w) (λ l v.
      if str_eq (loop_id updated) id && same_retention (retention updated) (retention l)
      then answer updated (Dict.set id updated v.loops) (retention l) v
      else failed (loop_state_conflict id "replacement with the same id and retention") v)

  unfoldable pub set_enabled : String → Bool → M Loop
  set_enabled id enabled w = then_run (find id w) (λ l v.
      let updated = with_enabled l enabled in
      answer updated (Dict.set id updated v.loops) (retention l) v)

  unfoldable pub claim_found : String → ℕ → Loop → M Occurrence
  claim_found id now l w =
      if not (fields l).enabled
      then failed (loop_state_conflict id "enabled automation") w
      else let cursor = (fields l).manual_cursor + 1 in
        answer (manual_occurrence id l cursor now)
          (Dict.set id (with_manual_cursor l cursor) w.loops) (retention l) w

  unfoldable pub claim_now : String → ℕ → Gate → M Occurrence
  unfolding claim_found
  claim_now id now gate w =
      if is_closed gate
      then failed (loop_state_conflict id "idle session") w
      else then_run (find id w) (claim_found id now)

  unfoldable pub remove_owned : Retention → Bool → M (List Loop)
  remove_owned r false w = failed lease_unavailable w
  remove_owned r true w =
      let loops = of_retention r (Dict.values w.loops) in
      answer loops (delete_all loops w.loops) r w

  unfoldable pub remove_all : Retention → M (List Loop)
  unfolding remove_owned
  remove_all r w = map_error remove_all_error (
      if same_retention r project
      then then_run (attempt_ownership host w) (remove_owned r)
      else remove_owned r true w)

  -- `claimDue` once the state is settled.
  unfoldable pub claim_from : Runtime → ℕ → Gate → Retention → M (List Occurrence)
  claim_from rt now gate r w =
      let os = claims rt now gate r (Dict.values w.loops) in
      if is_empty os
      then done [] w
      else answer os (next_map rt now gate r (Dict.values w.loops) w.loops) r w

  unfoldable pub claim_owned : Runtime → ℕ → Gate → Bool → M (List Occurrence)
  claim_owned rt now gate false w = done [] w
  claim_owned rt now gate true w = claim_from rt now gate project w

  -- `claimDue` for project loops in a session that does not own them.
  unfoldable pub claim_unowned : Runtime → ℕ → Gate → M (List Occurrence)
  unfolding claim_owned
  claim_unowned rt now gate w =
      if not host.probe_ok
      then failed (repository_failure load) w
      else if Dict.size (read_durable w) == 0
      then done [] (record w { access = inactive })
      else then_run (attempt_ownership host w) (claim_owned rt now gate)

  unfoldable pub claim_due : Runtime → ℕ → Gate → Retention → M (List Occurrence)
  unfolding claim_unowned
  claim_due rt now gate r w = map_error claim_due_error (
      if is_closed gate
      then done [] w
      else if same_retention r project && not (is_owner w.access)
      then claim_unowned rt now gate w
      else claim_from rt now gate r w)

-- The loop over the initial loops of the session: `none` on a project loop.
unfoldable pub load_session : Dict Loop → List Loop → Option (Dict Loop)
load_session loaded [] = some loaded
load_session loaded (l ∷ ls) =
    if is_session l then load_session (Dict.set (loop_id l) l loaded) ls else none

abbrev pub fresh : Dict Loop → Option (List Loop) → World
fresh loaded file = record {
  access = inactive;
  loops = loaded;
  holds_lease = false;
  file = file;
  session_entry = none;
}

-- The end of `makeLoopRepository`: it tries for a file that holds loops.
unfoldable pub open_file : Host → World → Outcome (Unit {0})
open_file host w =
    if not host.probe_ok
    then failed (repository_failure load) w
    else if Dict.size (read_durable w) == 0
    then done tt w
    else then_run (attempt_ownership host w) (λ _ v. done tt v)

-- `makeLoopRepository`: the state that it starts from.
unfoldable pub make_repository : Host → List Loop → Option (List Loop) → Outcome (Unit {0})
make_repository host initial file = elim (load_session [] initial) [
  | none ↦ failed (repository_failure load) (fresh [] file)
  | some loaded ↦ open_file host (fresh loaded file)
]

-- What a client can call.
pub data Call : Type 0 where
  adds : Loop → Call
  removes : String → Call
  removes_all : Retention → Call
  replaces : String → Loop → Call
  arms : String → ℕ → Call
  enables : String → Bool → Call
  claims_now : String → ℕ → Gate → Call
  claims_due : ℕ → Gate → Retention → Call

unfoldable pub after : Settings → Runtime → Host → Call → World → World
after settings rt host (adds l) w = world_of (add host settings l w)
after settings rt host (removes id) w = world_of (remove host settings id w)
after settings rt host (removes_all r) w = world_of (remove_all host settings r w)
after settings rt host (replaces id l) w = world_of (replace host settings id l w)
after settings rt host (arms id at) w = world_of (arm_loop host settings id at w)
after settings rt host (enables id e) w = world_of (set_enabled host settings id e w)
after settings rt host (claims_now id now gate) w = world_of (claim_now host settings id now gate w)
after settings rt host (claims_due now gate r) w =
    world_of (claim_due host settings rt now gate r w)

-- A sequence of calls, each with what the host answers during it.
unfoldable pub run : Settings → Runtime → List (Host × Call) → World → World
run settings rt [] w = w
run settings rt ((host, c) ∷ calls) w = run settings rt calls (after settings rt host c w)
