-- ===== src/Loop/Repository/Invariant.antt =====
-- What holds of the repository between operations.
use pipee.Base.{
  ◌≡◌, refl, sym, inl, inr, Bool, true, false, ◌||◌, some, [], String, arith, any, keep, Bool-cases,
  Option-cases,
}
use pipee.Base.Dict
use pipee.Base.Dict.{Dict}
use pipee.Loop.Model.{Loop, session, project, Retention}
use pipee.Loop.Repository.State.{
  Access, inactive, follower, owner, is_owner, World, LeaseOutcome, acquired, unavailable, broken,
  Host, Settings, Outcome, done, failed, then_run, world_of, is_project, is_session, merge_from,
  read_durable, store, follow, own, take_lease, attempt_ownership, state_for_id, persist_file,
  commit_project, commit_session, commit, release_empty,
}
use pipee.Loop.Repository.Keyed.{IsKeyed, load_from-IsKeyed, merge_from-IsKeyed}

-- Each loop stands under its own identifier, once; the lease is held exactly by an owner; and a
-- session that is no owner keeps no project loop.
pub record IsSound (w : World) : Type 0 where
  pub keyed : IsKeyed w.loops
  pub leased : w.holds_lease ≡ is_owner w.access
  pub private : is_owner w.access ≡ false → any is_project (Dict.values w.loops) ≡ false

module _ {ℓ κ} {A : Type ℓ} {B : Type κ} where
  pub then_run-IsSound :
      (o : Outcome A) (f : A → World → Outcome B)
      → IsSound (world_of o)
      → ((a : A) (w : World) → o ≡ done a w → IsSound w → IsSound (world_of (f a w)))
      → IsSound (world_of (then_run o f))
  then_run-IsSound (done a w) f s k = k a w refl s
  then_run-IsSound (failed e w) f s k = s

read_durable-IsKeyed : (w : World) → IsKeyed (read_durable w)
unfolding read_durable
read_durable-IsKeyed w = load_from-IsKeyed [] _ tt

module _ (host : Host) where
  follow-IsSound :
      (w : World) → IsSound w → is_owner w.access ≡ false → IsSound (world_of (follow host w))
  unfolding follow
  follow-IsSound w s h = record {
    keyed = ground (arith, s.keyed);
    leased = ground (arith, s.leased);
    private = ground (arith, s.private h);
  }

  own-IsSound :
      (w : World)
      → IsKeyed w.loops
      → w.holds_lease ≡ true
      → is_owner w.access ≡ false
      → any is_project (Dict.values w.loops) ≡ false
      → IsSound (world_of (own host w))
  unfolding own
  own-IsSound w k l o p = elim (Option-cases (merge_from (read_durable w) (Dict.values w.loops))) [
    | inl bad ↦ record { keyed = ground (arith, k); leased = ground arith; private = ground arith }
    | inr (merged, good) ↦
        let keyed =
          merge_from-IsKeyed (read_durable w) (Dict.values w.loops) merged (read_durable-IsKeyed w)
            good in
        record { keyed = ground (arith, keyed, k); leased = ground arith; private = ground arith }
  ]

  take_lease-IsSound :
      (a : LeaseOutcome) (w : World)
      → IsSound w
      → is_owner w.access ≡ false
      → IsSound (world_of (take_lease host a w))
  unfolding take_lease
  take_lease-IsSound acquired w s h =
      own-IsSound (record w { holds_lease = true }) s.keyed refl h (s.private h)
  take_lease-IsSound unavailable w s h =
      follow-IsSound (record w { holds_lease = false })
        (record { keyed = s.keyed; leased = sym h; private = s.private }) h
  take_lease-IsSound broken w s h = record { keyed = s.keyed; leased = sym h; private = s.private }

  pub attempt_ownership-IsSound :
      (w : World) → IsSound w → IsSound (world_of (attempt_ownership host w))
  unfolding attempt_ownership
  attempt_ownership-IsSound w s = elim (Bool-cases (is_owner w.access)) [
    | inl own ↦ rw own s
    | inr other ↦ rw other (
        take_lease-IsSound host.lease_outcome (record w { file = host.meanwhile w.file })
          (record { keyed = s.keyed; leased = s.leased; private = s.private }) other)
  ]

  take_lease-owner :
      (a : LeaseOutcome) (w : World) (b : Bool) (v : World)
      → take_lease host a w ≡ done b v
      → b ≡ true
      → is_owner v.access ≡ true
  unfolding take_lease
  take_lease-owner acquired w b v e h =
      elim (Option-cases (merge_from (read_durable w) (Dict.values w.loops))) [
        | inl bad ↦ ground arith
        | inr (merged, good) ↦ ground arith
      ]
  take_lease-owner unavailable w b v e h = ground arith
  take_lease-owner broken w b v e h = cc

  -- Ownership is won exactly by becoming the owner.
  pub attempt_ownership-owner :
      (w : World) (b : Bool) (v : World)
      → attempt_ownership host w ≡ done b v
      → b ≡ true
      → is_owner v.access ≡ true
  unfolding attempt_ownership
  attempt_ownership-owner w b v e h = elim (Bool-cases (is_owner w.access)) [
    | inl own ↦ ground arith
    | inr other ↦
        take_lease-owner host.lease_outcome (record w { file = host.meanwhile w.file }) b v
          (rw other at e) h
  ]

  pub state_for_id-IsSound :
      (id : String) (w : World) → IsSound w → IsSound (world_of (state_for_id host id w))
  unfolding state_for_id
  state_for_id-IsSound id w s = elim (Bool-cases (Dict.has id w.loops || is_owner w.access)) [
    | inl here ↦ rw here s
    | inr away ↦ elim (Bool-cases host.probe_ok) [
      | inr unread ↦ rw (away, unread) s
      | inl read ↦ elim (Bool-cases (Dict.has id (read_durable w))) [
        | inr missing ↦ rw (away, read, missing) s
        | inl durable ↦
            simp (away, read, durable)
              (then_run-IsSound (attempt_ownership host w) (λ _ v. done tt v)
                (attempt_ownership-IsSound w s) (λ _ v _ t. t))
      ]
    ]
  ]

store-IsSound :
    (next : Dict Loop) (w : World)
    → IsSound w
    → IsKeyed next
    → (is_owner w.access ≡ false → any is_project (Dict.values next) ≡ false)
    → IsSound (store next w)
unfolding store
store-IsSound next w s k p = record {
  keyed = ground (arith, k);
  leased = ground (arith, s.leased);
  private = ground (arith, p);
}

pub release_empty-IsSound : (w : World) → IsSound w → IsSound (release_empty w)
unfolding release_empty
release_empty-IsSound w s = record {
  keyed = ground (arith, s.keyed);
  leased = ground (arith, s.leased);
  private = ground (arith, s.private);
}

module _ (host : Host) (settings : Settings) (next : Dict Loop) where
  commit_project-IsSound :
      (a : Access) (w : World)
      → w.access ≡ a
      → IsSound w
      → IsKeyed next
      → IsSound (world_of (commit_project host a next w))
  unfolding commit_project persist_file
  commit_project-IsSound inactive w e s k = s
  commit_project-IsSound follower w e s k = s
  commit_project-IsSound owner w e s k = elim (Bool-cases host.write_ok) [
    | inr unwritten ↦ rw unwritten s
    | inl written ↦
        let w' : World = record w { file = some (keep is_project (Dict.values next)) } in
        rw written (
          store-IsSound next w' (record { keyed = s.keyed; leased = s.leased; private = s.private })
            k (λ h. ground arith))
  ]

  commit_session-IsSound :
      (w : World)
      → IsSound w
      → IsKeyed next
      → (is_owner w.access ≡ false → any is_project (Dict.values next) ≡ false)
      → IsSound (world_of (commit_session host settings next w))
  unfolding commit_session
  commit_session-IsSound w s k p = elim (Bool-cases settings.persists_session) [
    | inr unkept ↦ rw unkept (store-IsSound next w s k p)
    | inl persists ↦ elim (Bool-cases host.session_ok) [
      | inr unwritten ↦ rw (persists, unwritten) s
      | inl written ↦
          let w' : World = record w { session_entry = some (keep is_session (Dict.values next)) } in
          rw (persists, written)
            (store-IsSound next w'
              (record { keyed = s.keyed; leased = s.leased; private = s.private }) k p)
    ]
  ]

  -- `commit` keeps the invariant, if the map is keyed, and holds no project loop in a session that
  -- is no owner.
  pub commit-IsSound :
      (r : Retention) (w : World)
      → IsSound w
      → IsKeyed next
      → (is_owner w.access ≡ false → any is_project (Dict.values next) ≡ false)
      → IsSound (world_of (commit host settings next r w))
  unfolding commit
  commit-IsSound project w s k p = commit_project-IsSound w.access w refl s k
  commit-IsSound session w s k p = commit_session-IsSound w s k p
