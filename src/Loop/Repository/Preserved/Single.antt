-- ===== src/Loop/Repository/Preserved/Single.antt =====
-- The operations on one loop keep the invariant.
use pipee.Base.{
  ℕ, ◌+◌, ◌≡◌, refl, ◌∙◌, inl, inr, Bool, true, false, not, ◌&&◌, Option, none, some, String,
  str_eq, eq_iff, arith, Bool-cases, if_cases, leb,
}
use pipee.Base.Dict
use pipee.Base.Dict.{Dict}
use pipee.Loop.Model.{
  BaseFields, Loop, once, cron, interval, manual, with_fields, loop_id, fields, retention, session,
  project, Retention, same_retention, Occurrence,
}
use pipee.Loop.Transition.{Gate, opened, closed, arm}
use pipee.Loop.Transition.Claims.{arm_identity}
use pipee.Loop.Repository.State.{
  World, Host, Settings, Outcome, failed, then_run, on_error, loop_state_conflict, world_of,
  is_owner, is_project, attempt_ownership, release_empty,
}
use pipee.Loop.Repository.Keyed.{set-IsKeyed, delete-IsKeyed, any-set, any-delete}
use pipee.Loop.Repository.Invariant.{
  IsSound, attempt_ownership-owner, then_run-IsSound, attempt_ownership-IsSound, commit-IsSound,
}
use pipee.Loop.Repository.Operations.{
  add_checked, add_owned, add, answer, remove, put_armed, arm_loop, replace, with_enabled,
  set_enabled, with_manual_cursor, claim_found, claim_now, manual_occurrence,
}
use pipee.Loop.Repository.Preserved.Found.{
  on_error-IsSound, answer-IsSound, answer-set-IsSound, find_then, Found,
}

with_fields-id : (l : Loop) (b : BaseFields) → loop_id (with_fields l b) ≡ b.id
with_fields-id (once _ r w) b = refl
with_fields-id (cron _ r s u w) b = refl
with_fields-id (interval _ r s u w) b = refl
with_fields-id (manual _ p) b = refl

with_fields-retention : (l : Loop) (b : BaseFields) → retention (with_fields l b) ≡ retention l
with_fields-retention (once _ r w) b = refl
with_fields-retention (cron _ r s u w) b = refl
with_fields-retention (interval _ r s u w) b = refl
with_fields-retention (manual _ p) b = refl

same_retention_eq : (r s : Retention) → same_retention r s ≡ true → r ≡ s
same_retention_eq session session h = refl
same_retention_eq project project h = refl
same_retention_eq session project h = cc
same_retention_eq project session h = cc

module _ (host : Host) (settings : Settings) where
  add_checked-IsSound :
      (l : Loop) (w : World)
      → IsSound w
      → (is_owner w.access ≡ false → is_project l ≡ false)
      → IsSound (world_of (add_checked host settings l w))
  unfolding add_checked
  add_checked-IsSound l w s h = elim (Bool-cases (leb settings.max_loops (Dict.size w.loops))) [
    | inl full ↦ rw full s
    | inr room ↦ elim (Bool-cases (Dict.has (loop_id l) w.loops)) [
      | inl used ↦ simp (room, used) s
      | inr unused ↦
          simp (room, unused)
            (commit-IsSound host settings (Dict.set (loop_id l) l w.loops) (retention l) w s
              (set-IsKeyed l w.loops s.keyed)
              (λ o. any-set is_project (loop_id l) l w.loops (s.private o) (h o)))
    ]
  ]

  pub remove-IsSound :
      (id : String) (w : World) → IsSound w → IsSound (world_of (remove host settings id w))
  unfolding remove
  remove-IsSound id w s = find_then host settings id w _ s λ l v f.
      answer-IsSound host settings l (Dict.delete id v.loops) (retention l) v f.sound
        (delete-IsKeyed id v.loops f.sound.keyed)
        (λ h. any-delete is_project id v.loops (f.sound.private h))

  pub set_enabled-IsSound :
      (id : String) (e : Bool) (w : World)
      → IsSound w
      → IsSound (world_of (set_enabled host settings id e w))
  unfolding set_enabled
  set_enabled-IsSound id e w s = find_then host settings id w _ s λ l v f.
      answer-set-IsSound host settings (with_enabled l e) id l (with_enabled l e) v f
        (with_fields-id l _ ∙ f.same_id) (with_fields-retention l _)

  put_armed-IsSound :
      (id : String) (l : Loop) (o : Option Loop) (at : ℕ) (v : World)
      → Found id l v
      → arm l at ≡ o
      → IsSound (world_of (put_armed host settings id l o v))
  unfolding put_armed
  put_armed-IsSound id l none at v f e = f.sound
  put_armed-IsSound id l (some l') at v f e =
      let (same_id, same_r) = arm_identity l l' at e in
      answer-set-IsSound host settings l' id l l' v f (same_id ∙ f.same_id) same_r

  pub arm_loop-IsSound :
      (id : String) (at : ℕ) (w : World)
      → IsSound w
      → IsSound (world_of (arm_loop host settings id at w))
  unfolding arm_loop
  arm_loop-IsSound id at w s =
      find_then host settings id w _ s λ l v f. put_armed-IsSound id l (arm l at) at v f refl

  pub replace-IsSound :
      (id : String) (updated : Loop) (w : World)
      → IsSound w
      → IsSound (world_of (replace host settings id updated w))
  unfolding replace
  replace-IsSound id updated w s = find_then host settings id w _ s λ l v f.
      elim (Bool-cases
        (str_eq (loop_id updated) id && same_retention (retention updated) (retention l))) [
          | inr refused ↦ rw refused f.sound
          | inl fits ↦ rw fits (
              answer-set-IsSound host settings updated id l updated v f
                (ground (arith, fits, eq_iff (loop_id updated) id))
                (same_retention_eq (retention updated) (retention l) (ground (arith, fits))))
        ]

  claim_found-IsSound :
      (id : String) (now : ℕ) (l : Loop) (v : World)
      → Found id l v
      → IsSound (world_of (claim_found host settings id now l v))
  unfolding claim_found
  claim_found-IsSound id now l v f =
      let c = (fields l).manual_cursor + 1 in
      if_cases (λ (o : Outcome Occurrence). IsSound (world_of o)) (not (fields l).enabled)
        (failed (loop_state_conflict id "enabled automation") v)
        (answer host settings (manual_occurrence id l c now)
          (Dict.set id (with_manual_cursor l c) v.loops) (retention l) v)
        (λ _. f.sound)
        (λ _.
          answer-set-IsSound host settings (manual_occurrence id l c now) id l
            (with_manual_cursor l c) v f (with_fields-id l _ ∙ f.same_id)
            (with_fields-retention l _))

  pub claim_now-IsSound :
      (id : String) (now : ℕ) (gate : Gate) (w : World)
      → IsSound w
      → IsSound (world_of (claim_now host settings id now gate w))
  unfolding claim_now
  claim_now-IsSound id now closed w s = s
  claim_now-IsSound id now opened w s =
      find_then host settings id w _ s (claim_found-IsSound id now)

  add_owned-IsSound :
      (l : Loop) (b : Bool) (w : World)
      → IsSound w
      → (b ≡ true → is_owner w.access ≡ true)
      → IsSound (world_of (add_owned host settings l b w))
  unfolding add_owned
  add_owned-IsSound l false w s h = s
  add_owned-IsSound l true w s h = add_checked-IsSound l w s (λ not_ours. cc (h refl))

  pub add-IsSound : (l : Loop) (w : World) → IsSound w → IsSound (world_of (add host settings l w))
  unfolding add
  add-IsSound l w s =
      if_cases (λ o. IsSound (world_of (on_error release_empty o))) (is_project l)
        (then_run (attempt_ownership host w) (add_owned host settings l))
        (add_checked host settings l w)
        (λ _. on_error-IsSound (then_run (attempt_ownership host w) (add_owned host settings l)) (
          then_run-IsSound (attempt_ownership host w) (add_owned host settings l)
            (attempt_ownership-IsSound host w s)
            (λ b v e t. add_owned-IsSound l b v t (attempt_ownership-owner host w b v e))))
        (λ local.
          on_error-IsSound (add_checked host settings l w) (add_checked-IsSound l w s (λ _. local)))
