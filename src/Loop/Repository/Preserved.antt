-- ===== src/Loop/Repository/Preserved.antt =====
-- Every operation of the repository keeps its invariant.
mod Found
mod Single
pub mod Bulk
use pipee.Base.{
  true, ◌≡◌, refl, inl, inr, subst, if_cases, if◌then◌else◌, Bool, List, [], ◌∷◌, ℕ, String, Option,
  none, some, Option-cases, Bool-cases, arith, false, any, ◌==◌, not,
}
use pipee.Base.Dict
use pipee.Base.Dict.{Dict}
use pipee.Loop.Model.{Loop, loop_id, retention, same_retention, Retention, session, project}
use pipee.Loop.Runtime.{Runtime}
use pipee.Loop.Repository.Keyed.{IsKeyed, set-IsKeyed, any-set}
use pipee.Loop.Repository.State.{
  done, failed, repository_failure, load, Host, Settings, World, Outcome, world_of, is_project,
  is_session, inactive, attempt_ownership, then_run, read_durable,
}
use pipee.Loop.Repository.Invariant.{IsSound, then_run-IsSound, attempt_ownership-IsSound}
use pipee.Loop.Repository.Operations.{
  Call, adds, removes, removes_all, replaces, arms, enables, claims_now, claims_due, after, run,
  load_session, fresh, make_repository, open_file,
}
use Single.{
  add-IsSound, remove-IsSound, replace-IsSound, arm_loop-IsSound, set_enabled-IsSound,
  claim_now-IsSound,
}
use Bulk.{remove_all-IsSound, claim_due-IsSound}

session_is_local :
    (r : Retention) → same_retention r session ≡ true → same_retention r project ≡ false
session_is_local session h = refl
session_is_local project h = cc

load_session-local :
    (m : Dict Loop) (ls : List Loop) (out : Dict Loop)
    → IsKeyed m
    → any is_project (Dict.values m) ≡ false
    → load_session m ls ≡ some out
    → IsKeyed out × (any is_project (Dict.values out) ≡ false)
unfolding load_session
load_session-local m [] out k h e =
    let same : m ≡ out = ground arith in
    subst (λ d. IsKeyed d × (any is_project (Dict.values d) ≡ false)) same (k, h)
load_session-local m (l ∷ ls) out k h e = elim (Bool-cases (is_session l)) [
  | inr shared ↦ cc (rw (shared, load_session) at e)
  | inl local ↦
      load_session-local (Dict.set (loop_id l) l m) ls out (set-IsKeyed l m k)
        (any-set is_project (loop_id l) l m h (session_is_local (retention l) local)) (ground arith)
]

open_file-IsSound : (host : Host) (w : World) → IsSound w → IsSound (world_of (open_file host w))
unfolding open_file
open_file-IsSound host w s = elim (Bool-cases host.probe_ok) [
  | inr unread ↦ simp unread s
  | inl read ↦ elim (Bool-cases (Dict.size (read_durable w) == 0)) [
    | inl blank ↦ simp (read, blank) s
    | inr stored ↦
        simp (read, stored)
          (then_run-IsSound (attempt_ownership host w) (λ _ v. done tt v)
            (attempt_ownership-IsSound host w s) (λ _ v _ t. t))
  ]
]

-- A repository that opens is sound, whatever the session entry, the file and the host.
pub make_repository-IsSound :
    (host : Host) (initial : List Loop) (file : Option (List Loop))
    → IsSound (world_of (make_repository host initial file))
unfolding make_repository
make_repository-IsSound host initial file = elim (Option-cases (load_session [] initial)) [
  | inl refused ↦
      rw (refused, make_repository) (record { keyed = tt; leased = refl; private = λ _. refl })
  | inr (loaded, good) ↦
      let (keyed, local) = load_session-local [] initial loaded tt refl good in
      rw (good, make_repository)
        (open_file-IsSound host (fresh loaded file)
          (record { keyed = keyed; leased = refl; private = λ _. local }))
]

module _ (settings : Settings) (rt : Runtime) where
  after-IsSound :
      (host : Host) (c : Call) (w : World) → IsSound w → IsSound (after settings rt host c w)
  unfolding after
  after-IsSound host (adds l) w s = add-IsSound host settings l w s
  after-IsSound host (removes id) w s = remove-IsSound host settings id w s
  after-IsSound host (removes_all r) w s = remove_all-IsSound host settings r w s
  after-IsSound host (replaces id l) w s = replace-IsSound host settings id l w s
  after-IsSound host (arms id at) w s = arm_loop-IsSound host settings id at w s
  after-IsSound host (enables id b) w s = set_enabled-IsSound host settings id b w s
  after-IsSound host (claims_now id now gate) w s = claim_now-IsSound host settings id now gate w s
  after-IsSound host (claims_due now gate r) w s = claim_due-IsSound host settings rt now gate r w s

  -- After any calls, failing or not, under any answers of the host, a sound repository is sound:
  -- each loop stands under its own identifier, once; the lease is held exactly by an owner; and a
  -- session that is no owner keeps no project loop.
  pub run-IsSound :
      (calls : List (Host × Call)) (w : World) → IsSound w → IsSound (run settings rt calls w)
  unfolding run
  run-IsSound [] w s = s
  run-IsSound ((host, c) ∷ calls) w s =
      run-IsSound calls (after settings rt host c w) (after-IsSound host c w s)
