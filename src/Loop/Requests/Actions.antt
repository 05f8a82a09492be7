-- ===== src/Loop/Requests/Actions.antt =====
-- `makeLoopOperations` of extensions/loop/src/application/operations.ts, over the repository.
use pipee.Base.{
  ℕ, ◌+◌, Bool, true, false, ◌&&◌, Option, none, some, List, ◌++◌, String, if◌then◌else◌, Result,
  ok, err,
}
use pipee.Base.Dict
use pipee.Loop.Model.{Loop, session, project, LoopConfig}
use pipee.Loop.Runtime.{Runtime}
use pipee.Loop.Repository.State.{
  World, Host, Settings, Outcome, done, failed, M, loop_not_found, then_run,
}
use pipee.Loop.Repository.Operations.{add, replace, arm_loop}
use pipee.Loop.Repository.Operations
use pipee.Loop.Requests.{
  Numbers, CreateLoopInput, UpdateLoopInput, InputError, invalid_schedule, delay_out_of_range,
  build_loop, updated,
}

-- What an operation answers: the repository's outcome, or a request that is refused before it.
pub data Answer {ℓ} (Seconds : Type 0) (A : Type ℓ) : Type ℓ where
  refused : InputError Seconds → World → Answer Seconds A
  reached : Outcome A → Answer Seconds A

abbrev is_absent {ℓ} : {A : Type ℓ} → Option A → Bool
is_absent none = true
is_absent (some a) = false

module _ {Seconds : Type 0} (numbers : Numbers Seconds) (rt : Runtime) (config : LoopConfig)
    (host : Host) (settings : Settings) where
  abbrev pub add_built : Result (InputError Seconds) Loop → World → Answer Seconds Loop
  add_built (err e) w = refused e w
  add_built (ok l) w = reached (then_run (add host settings l w) (λ u v. done l v))

  -- `create`, under the identifier that `loopId` drew.
  unfoldable pub create : CreateLoopInput Seconds → String → ℕ → World → Answer Seconds Loop
  create input id now w = add_built (build_loop numbers rt config input id now) w

  abbrev pub replace_built : String → Result (InputError Seconds) Loop → World → Answer Seconds Loop
  replace_built id (err e) w = refused e w
  replace_built id (ok l) w = reached (replace host settings id l w)

  abbrev pub update_found : UpdateLoopInput Seconds → Option Loop → ℕ → World → Answer Seconds Loop
  update_found input none now w = reached (failed (loop_not_found input.id) w)
  update_found input (some current) now w =
      replace_built input.id (updated numbers rt config input input.schedule current now) w

  unfoldable pub update : UpdateLoopInput Seconds → ℕ → World → Answer Seconds Loop
  update input now w =
      if is_absent input.prompt && is_absent input.label && is_absent input.schedule
      then refused (invalid_schedule "empty loop update") w
      else update_found input (Dict.get input.id w.loops) now w

  unfoldable pub schedule_wakeup : String → Seconds → ℕ → World → Answer Seconds Loop
  schedule_wakeup id seconds now w = elim (numbers.wakeup_ms seconds) [
    | none ↦ refused (delay_out_of_range seconds) w
    | some ms ↦ reached (arm_loop host settings id (now + ms) w)
  ]

-- `removeAll` of the session loops, then of the project loops.
unfoldable pub remove_all : Host → Host → Settings → M (List Loop)
remove_all host later settings w =
    then_run (Operations.remove_all host settings session w) (λ gone v.
      then_run (Operations.remove_all later settings project v) (λ more u. done (gone ++ more) u))
