-- ===== src/Loop/Repository/Durable.antt =====
-- The durable file: who writes it, and what an owner knows of it.
use pipee.Base.{
  ◌≡◌, refl, subst, ap, ◌∙◌, inl, inr, false, not, ◌&&◌, some, arith, any, keep, if◌then◌else◌,
  Bool-cases, if_cases,
}
use pipee.Base.Dict
use pipee.Base.Dict.{Dict}
use pipee.Loop.Model.{Loop, session, project, Retention, same_retention}
use pipee.Loop.Repository.Operations.{answer}
use pipee.Loop.Repository.State.{
  then_run, Access, inactive, follower, owner, is_owner, World, Host, Settings, Outcome, done,
  failed, MutationError, lease_unavailable, repository_failure, persist, lease, is_project,
  is_session, store, persist_file, commit_project, commit_session, commit,
}

-- What a successful commit leaves: the given map, its project loops in the file for a project
-- mutation, and an owner only as long as there is a project loop.
pub record Committed (next : Dict Loop) (r : Retention) (w v : World) : Type 0 where
  pub stored : v.loops ≡ next
  pub written :
      v.file
      ≡ (if same_retention r project then some (keep is_project (Dict.values next)) else w.file)
  pub owns : is_owner v.access ≡ (is_owner w.access && any is_project (Dict.values next))
  pub authorized : (same_retention r project && not (is_owner w.access)) ≡ false

pub data CommitOutcome (next : Dict Loop) (r : Retention) (w : World)
    : Outcome (Unit {0}) → Type 0 where
  kept : (e : MutationError) → CommitOutcome next r w (failed e w)
  made : (v : World) → Committed next r w v → CommitOutcome next r w (done tt v)

store_facts :
    (next : Dict Loop) (w : World)
    → ((store next w).loops ≡ next)
      × ((store next w).file ≡ w.file)
      × (is_owner (store next w).access ≡ (is_owner w.access && any is_project (Dict.values next)))
unfolding store
store_facts next w = ground arith

module _ (host : Host) (settings : Settings) (next : Dict Loop) where
  commit_project_outcome :
      (a : Access) (w : World)
      → w.access ≡ a
      → CommitOutcome next project w (commit_project host a next w)
  unfolding commit_project persist_file
  commit_project_outcome inactive w e = kept (repository_failure lease)
  commit_project_outcome follower w e = kept lease_unavailable
  commit_project_outcome owner w e = elim (Bool-cases host.write_ok) [
    | inr unwritten ↦ rw unwritten (kept (repository_failure persist))
    | inl written ↦
        let w' : World = record w { file = some (keep is_project (Dict.values next)) } in
        let (stored, file, owns) = store_facts next w' in
        rw written (
          made (store next w')
            (record { stored = stored; written = file; owns = owns; authorized = ground arith }))
  ]

  stored_session :
      (w w' : World)
      → w'.access ≡ w.access
      → w'.file ≡ w.file
      → CommitOutcome next session w (done tt (store next w'))
  stored_session w w' a f =
      let (stored, file, owns) = store_facts next w' in
      made (store next w') (record {
        stored = stored;
        written = file ∙ f;
        owns = owns ∙ ap (λ t. is_owner t && any is_project (Dict.values next)) a;
        authorized = refl;
      })

  commit_session_outcome :
      (w : World) → CommitOutcome next session w (commit_session host settings next w)
  unfolding commit_session
  commit_session_outcome w =
      let w' : World = record w { session_entry = some (keep is_session (Dict.values next)) } in
      if_cases (CommitOutcome next session w) settings.persists_session
        (if host.session_ok then done tt (store next w') else failed (repository_failure persist) w)
        (done tt (store next w))
        (λ _.
          if_cases (CommitOutcome next session w) host.session_ok (done tt (store next w'))
            (failed (repository_failure persist) w) (λ _. stored_session w w' refl refl)
            (λ _. kept (repository_failure persist)))
        (λ _. stored_session w w refl refl)

  -- A commit that fails leaves the whole state as it was. One that succeeds stores the map; it
  -- writes the project loops to the file for a project mutation, which only an owner makes, and
  -- leaves the file alone for a session mutation; and the session owns the project loops
  -- afterwards exactly if it did before and one is left.
  pub commit_outcome :
      (r : Retention) (w : World) → CommitOutcome next r w (commit host settings next r w)
  unfolding commit
  commit_outcome project w = commit_project_outcome w.access w refl
  commit_outcome session w = commit_session_outcome w

  answer_done {ℓ} :
      {A : Type ℓ} (a b : A) (r : Retention) (w v : World) {o : Outcome (Unit {0})}
      → CommitOutcome next r w o
      → then_run o (λ _ u. done a u) ≡ done b v
      → (b ≡ a) × Committed next r w v
  answer_done a b r w v (kept e) h = cc
  answer_done a b r w v (made u c) h = (cc, subst (Committed next r w) (cc) c)

  -- The answer of an operation comes with a successful commit.
  pub answer-Committed {ℓ} :
      {A : Type ℓ} (a b : A) (r : Retention) (w v : World)
      → answer host settings a next r w ≡ done b v
      → (b ≡ a) × Committed next r w v
  unfolding answer
  answer-Committed a b r w v h = answer_done a b r w v (commit_outcome r w) h
