-- ===== src/Loop/Repository/State.antt =====
-- The state of `makeLoopRepository`, and the steps that its operations share.
-- The file stands as the loops that it decodes to; the JSON codec, the file system and the lease
-- are libraries, and what they answer is an argument.
use pipee.Base.{
  ℕ, Bool, true, false, not, ◌&&◌, ◌||◌, Option, none, some, List, [], ◌∷◌, String, any, keep,
  if◌then◌else◌, ltb,
}
use pipee.Base.Dict
use pipee.Base.Dict.{Dict}
use pipee.Loop.Model.{Loop, Retention, session, project, retention, same_retention, loop_id}

-- `RepositoryFailure["operation"]`
pub data FailedStep : Type 0 where
  load persist lease : FailedStep

pub data MutationError : Type 0 where
  repository_failure : FailedStep → MutationError
  lease_unavailable : MutationError
  capacity_exceeded : ℕ → MutationError
  loop_not_found : String → MutationError
  loop_state_conflict : (id expected : String) → MutationError

-- `RepositoryState["_tag"]`
pub data Access : Type 0 where
  inactive follower owner : Access

abbrev pub is_owner : Access → Bool
is_owner owner = true
is_owner inactive = false
is_owner follower = false

pub record World : Type 0 where
  pub access : Access
  pub loops : Dict Loop
  -- Whether the ownership scope is open, which keeps the lease.
  pub holds_lease : Bool
  -- The loops in the durable file, if it exists.
  pub file : Option (List Loop)
  -- What the session persistence last took.
  pub session_entry : Option (List Loop)

pub data LeaseOutcome : Type 0 where
  acquired unavailable broken : LeaseOutcome

-- What the host answers during one operation. Another process may write the file up to the time
-- at which the lease is asked for; `probe_ok` is about a read before that, `read_ok` one after.
pub record Host : Type 0 where
  pub lease_outcome : LeaseOutcome
  pub meanwhile : Option (List Loop) → Option (List Loop)
  pub probe_ok : Bool
  pub read_ok : Bool
  pub write_ok : Bool
  pub session_ok : Bool

-- The part of the configuration that the repository reads, and whether it has a session persistence.
pub record Settings : Type 0 where
  pub max_loops : ℕ
  pub persists_session : Bool

pub data Outcome {ℓ} (A : Type ℓ) : Type ℓ where
  done : A → World → Outcome A
  failed : MutationError → World → Outcome A

abbrev pub M {ℓ} : Type ℓ → Type ℓ
M A = World → Outcome A

abbrev pub then_run {ℓ κ} : {A : Type ℓ} {B : Type κ} → Outcome A → (A → M B) → Outcome B
then_run (done a w) f = f a w
then_run (failed e w) f = failed e w

abbrev pub return {ℓ} : {A : Type ℓ} → A → M A
return a w = done a w

abbrev pub fail {ℓ} : {A : Type ℓ} → MutationError → M A
fail e w = failed e w

-- `Effect.mapError`
abbrev pub map_error {ℓ} : {A : Type ℓ} → (MutationError → MutationError) → Outcome A → Outcome A
map_error f (done a w) = done a w
map_error f (failed e w) = failed (f e) w

-- `Effect.onError`, with a finalizer that does not fail.
abbrev pub on_error {ℓ} : {A : Type ℓ} → (World → World) → Outcome A → Outcome A
on_error f (done a w) = done a w
on_error f (failed e w) = failed e (f w)

abbrev pub world_of {ℓ} : {A : Type ℓ} → Outcome A → World
world_of (done a w) = w
world_of (failed e w) = w

abbrev pub is_project : Loop → Bool
is_project l = same_retention (retention l) project

abbrev pub is_session : Loop → Bool
is_session l = same_retention (retention l) session

-- `for (const loop of durable) loaded.set(loop.id, loop)`
unfoldable pub load_from : Dict Loop → List Loop → Dict Loop
load_from loaded [] = loaded
load_from loaded (l ∷ ls) = load_from (Dict.set (loop_id l) l loaded) ls

abbrev pub file_loops : Option (List Loop) → List Loop
file_loops none = []
file_loops (some ls) = ls

-- `readDurable`, where it succeeds.
unfoldable pub read_durable : World → Dict Loop
read_durable w = load_from [] (file_loops w.file)

-- `Scope.close(ownershipScope, …)`
abbrev pub close_scope : World → World
close_scope w = record w { holds_lease = false }

-- The loop that adds the session's loops to the durable ones; `none` on a duplicate.
unfoldable pub merge_from : Dict Loop → List Loop → Option (Dict Loop)
merge_from merged [] = some merged
merge_from merged (l ∷ ls) =
    if is_project l || Dict.has (loop_id l) merged
    then none
    else merge_from (Dict.set (loop_id l) l merged) ls

abbrev follower_if : ℕ → Access
follower_if n = if ltb 0 n then follower else inactive

-- `Ref.set` at the end of `commit`.
unfoldable pub store : Dict Loop → World → World
store next w =
    if is_owner w.access && not (any is_project (Dict.values next))
    then record (close_scope w) { access = inactive; loops = next }
    else record w { loops = next }

module _ (host : Host) where
  -- The lease went to another session.
  unfoldable pub follow : M Bool
  follow w =
      if host.read_ok
      then done false (record w { access = follower_if (Dict.size (read_durable w)) })
      else failed (repository_failure load) w

  -- The lease is ours: read the file and merge.
  unfoldable pub own : M Bool
  own w =
      if host.read_ok
      then elim (merge_from (read_durable w) (Dict.values w.loops)) [
        | none ↦ failed (repository_failure load) (close_scope w)
        | some merged ↦ done true (record w { access = owner; loops = merged })
      ]
      else failed (repository_failure load) (close_scope w)

  unfoldable pub take_lease : LeaseOutcome → M Bool
  unfolding follow own
  take_lease acquired w = own (record w { holds_lease = true })
  take_lease unavailable w = follow (close_scope w)
  take_lease broken w = failed (repository_failure lease) (close_scope w)

  -- `attemptProjectOwnership`
  unfoldable pub attempt_ownership : M Bool
  unfolding take_lease
  attempt_ownership w =
      if is_owner w.access
      then done true w
      else take_lease host.lease_outcome (record w { file = host.meanwhile w.file })

  -- `stateForId`: the state in which the operation then looks for the loop.
  unfoldable pub state_for_id : String → M (Unit {0})
  state_for_id id w =
      if Dict.has id w.loops || is_owner w.access
      then done tt w
      else if not host.probe_ok
      then failed (repository_failure load) w
      else if Dict.has id (read_durable w)
      then then_run (attempt_ownership w) (λ _ v. done tt v)
      else done tt w

  -- `persist`: the file is replaced by a rename, or stays.
  unfoldable pub persist_file : Dict Loop → M (Unit {0})
  persist_file next w =
      if host.write_ok
      then done tt (record w { file = some (keep is_project (Dict.values next)) })
      else failed (repository_failure persist) w

  unfoldable pub commit_project : Access → Dict Loop → M (Unit {0})
  commit_project follower next w = failed lease_unavailable w
  commit_project inactive next w = failed (repository_failure lease) w
  commit_project owner next w = then_run (persist_file next w) (λ _ v. done tt (store next v))

  unfoldable pub commit_session : Settings → Dict Loop → M (Unit {0})
  commit_session settings next w =
      if settings.persists_session
      then (if host.session_ok
          then done tt
              (store next (record w { session_entry = some (keep is_session (Dict.values next)) }))
          else failed (repository_failure persist) w)
      else done tt (store next w)

  -- `commit`. The maps are never the same object: each caller makes a new one.
  unfoldable pub commit : Settings → Dict Loop → Retention → M (Unit {0})
  unfolding commit_project commit_session
  commit settings next project w = commit_project w.access next w
  commit settings next session w = commit_session settings next w

-- `releaseEmptyOwnership`
unfoldable pub release_empty : World → World
release_empty w =
    if not (is_owner w.access) || any is_project (Dict.values w.loops)
    then w
    else record (close_scope w) { access = inactive }
