-- ===== src/Runtimes/Table.antt =====
-- The table of `makeSessionRuntimeRegistry`
-- (apps/pipee/src/server/session-runtime-registry.ts). Each update of it is one atomic step; the
-- parts of an operation between two updates are separate events. An object that the source
-- compares by identity has a key. What the agent library makes of a runtime, its idle time and the
-- notifications of changes are left out.
use pipee.Base.{
  ℕ, ◌+◌, Bool, true, false, not, ◌&&◌, ◌||◌, Option, none, some, List, [], ◌∷◌, ◌++◌, String,
  if◌then◌else◌, str_eq, ◌==◌, any, keep,
}
use pipee.Base.Dict
use pipee.Base.Dict.{Dict}

-- `key` stands for the deferred of the start that made the handle; its scope is the handle's own.
pub record RuntimeHandle : Type 0 where
  pub key : ℕ
  pub requested_id : String
  pub session_id : String
  pub runtime_epoch : ℕ

pub data Slot : Type 0 where
  starting : (key : ℕ) → Slot
  active : RuntimeHandle → Slot

-- A start between its decision and its end. It has an epoch once its identity is made.
pub record Startup : Type 0 where
  pub key : ℕ
  pub requested_id : String
  pub epoch : Option ℕ

-- What a deferred is completed with.
pub data Answer : Type 0 where
  started : RuntimeHandle → Answer
  start_failed : Answer

pub record Registry : Type 0 where
  pub accepting : Bool
  pub slots : Dict Slot
  pub runtime_epoch : ℕ
  pub next_key : ℕ
  pub startups : List Startup
  -- The handles whose scope is open, and those whose scope is being closed but has not yet run its
  -- finalizer on the table.
  pub open_handles : List RuntimeHandle
  pub closing_handles : List RuntimeHandle
  pub answers : List (ℕ × Answer)

unfoldable pub make : Registry
make = record {
  accepting = true;
  slots = [];
  runtime_epoch = 0;
  next_key = 0;
  startups = [];
  open_handles = [];
  closing_handles = [];
  answers = [];
}

pub data StartDecision : Type 0 where
  uses : RuntimeHandle → StartDecision
  waits launches : (key : ℕ) → StartDecision
  rejects : StartDecision

-- The first completion of a deferred counts.
abbrev pub answer : ℕ → Answer → List (ℕ × Answer) → List (ℕ × Answer)
answer key a answers = if any (λ e. e.0 == key) answers then answers else answers ++ (key, a) ∷ []

abbrev pub decide : String → Option Slot → Registry → StartDecision × Registry
decide id (some (active h)) r = (uses h, r)
decide id (some (starting key)) r = (waits key, r)
decide id none r = (
  launches r.next_key,
  record r {
    slots = Dict.set id (starting r.next_key) r.slots;
    next_key = r.next_key + 1;
    startups = record { key = r.next_key; requested_id = id; epoch = none } ∷ r.startups;
  },
)

-- `start` up to its decision.
unfoldable pub start_decision : String → Registry → StartDecision × Registry
start_decision id r = if not r.accepting then (rejects, r) else decide id (Dict.get id r.slots) r

abbrev pub is_startup : ℕ → String → Startup → Bool
is_startup key id s = (s.key == key) && str_eq s.requested_id id

abbrev pub identify : ℕ → String → ℕ → List Startup → List Startup
identify key id epoch [] = []
identify key id epoch (s ∷ ss) =
    (if is_startup key id s then record s { epoch = some epoch } else s) ∷ identify key id epoch ss

abbrev pub end_startup : ℕ → String → List Startup → List Startup
end_startup key id = keep (λ s. not (is_startup key id s))

-- The identity of the runtime: the epoch is taken, then an identifier is drawn, which may fail. A
-- start that fails there ends at once, and leaves its slot and its deferred.
unfoldable pub launch : Bool → ℕ → String → Registry → Registry
launch drawn key id r = record r {
  runtime_epoch = r.runtime_epoch + 1;
  startups =
      (if drawn
        then identify key id (r.runtime_epoch + 1) r.startups
        else end_startup key id r.startups);
}

abbrev pub is_starting : ℕ → Option Slot → Bool
is_starting key none = false
is_starting key (some (active h)) = false
is_starting key (some (starting k)) = k == key

abbrev pub same_handle : RuntimeHandle → RuntimeHandle → Bool
same_handle h g = (g.key == h.key) && str_eq g.session_id h.session_id

abbrev pub is_active : RuntimeHandle → Option Slot → Bool
is_active h none = false
is_active h (some (starting key)) = false
is_active h (some (active g)) = same_handle h g

-- `installHandle`: into the table, or, if the registry is closed or the slot is another's, the
-- runtime is closed again.
abbrev pub put : RuntimeHandle → Registry → Registry
put h r =
    if not r.accepting || not (is_starting h.key (Dict.get h.requested_id r.slots))
    then record r { answers = answer h.key start_failed r.answers }
    else record r {
      slots = Dict.set h.session_id (active h) (Dict.delete h.requested_id r.slots);
      open_handles = h ∷ r.open_handles;
      answers = answer h.key (started h) r.answers;
    }

-- A start whose runtime was made, by its epoch.
abbrev pub install_with : ℕ → String → String → Option ℕ → Registry → Registry
install_with key id session none r = r
install_with key id session (some epoch) r =
    put (record { key = key; requested_id = id; session_id = session; runtime_epoch = epoch })
      (record r { startups = end_startup key id r.startups })

unfoldable pub epoch_of : ℕ → String → List Startup → Option ℕ
epoch_of key id [] = none
epoch_of key id (s ∷ ss) = if is_startup key id s then s.epoch else epoch_of key id ss

unfoldable pub install : ℕ → String → String → Registry → Registry
install key id session r = install_with key id session (epoch_of key id r.startups) r

-- `removeIf`
abbrev pub remove_if : ℕ → String → Dict Slot → Dict Slot
remove_if key id slots = if is_starting key (Dict.get id slots) then Dict.delete id slots else slots

-- The failure of a start that has an identity.
unfoldable pub fail_startup : ℕ → String → Registry → Registry
fail_startup key id r =
    if any (is_startup key id) r.startups
    then record r {
      slots = remove_if key id r.slots;
      startups = end_startup key id r.startups;
      answers = answer key start_failed r.answers;
    }
    else r

abbrev pub remove_active : RuntimeHandle → Dict Slot → Dict Slot
remove_active h slots =
    if is_active h (Dict.get h.session_id slots) then Dict.delete h.session_id slots else slots

-- `closeHandle`: the scope begins to close, once. The fibers of the handle end first, and its slot
-- stays until the finalizer runs.
unfoldable pub close_handle : RuntimeHandle → Registry → Registry
close_handle h r =
    if any (same_handle h) r.open_handles
    then record r {
      open_handles = keep (λ g. not (same_handle h g)) r.open_handles;
      closing_handles = h ∷ r.closing_handles;
    }
    else r

-- The finalizer on the table that `installHandle` adds to the scope.
unfoldable pub finalize : RuntimeHandle → Registry → Registry
finalize h r =
    if any (same_handle h) r.closing_handles
    then record r {
      slots = remove_active h (remove_if h.key h.requested_id r.slots);
      closing_handles = keep (λ g. not (same_handle h g)) r.closing_handles;
    }
    else r

abbrev pub in_table : Dict Slot → RuntimeHandle → Bool
in_table slots h = any (λ e. is_active h (some e.1)) slots

abbrev pub fail_slot : Slot → List (ℕ × Answer) → List (ℕ × Answer)
fail_slot (starting key) answers = answer key start_failed answers
fail_slot (active h) answers = answers

unfoldable pub fail_all : Dict Slot → List (ℕ × Answer) → List (ℕ × Answer)
fail_all [] answers = answers
fail_all ((id, slot) ∷ slots) answers = fail_all slots (fail_slot slot answers)

-- `shutdown`, with what it does after its update of the table, which no other step can change. The
-- startups that it interrupts end on their own, and so do the scopes that were being closed.
unfoldable pub shutdown : Registry → Registry
shutdown r = record r {
  accepting = false;
  slots = [];
  open_handles = keep (λ h. not (in_table r.slots h)) r.open_handles;
  answers = fail_all r.slots r.answers;
}

pub data Event : Type 0 where
  starts : (id : String) → Event
  identifies abandons fails : (key : ℕ) (id : String) → Event
  installs : (key : ℕ) (id session : String) → Event
  closes finalizes : RuntimeHandle → Event
  shuts : Event

unfoldable pub step : Event → Registry → Registry
step (starts id) r = (start_decision id r).1
step (identifies key id) r = launch true key id r
step (abandons key id) r = launch false key id r
step (fails key id) r = fail_startup key id r
step (installs key id session) r = install key id session r
step (closes h) r = close_handle h r
step (finalizes h) r = finalize h r
step shuts r = shutdown r

unfoldable pub steps : List Event → Registry → Registry
steps [] r = r
steps (e ∷ es) r = steps es (step e r)
