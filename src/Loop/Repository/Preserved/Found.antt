-- ===== src/Loop/Repository/Preserved/Found.antt =====
-- The loop that an operation finds, and the commit of a map that it changes.
use pipee.Base.{
  ◌≡◌, sym, ap, ◌∙◌, subst, inl, inr, false, Option, none, some, String, any, Option-cases,
}
use pipee.Base.Dict
use pipee.Base.Dict.{Dict}
use pipee.Loop.Model.{Loop, loop_id, retention, project, Retention, same_retention}
use pipee.Loop.Repository.State.{
  World, Host, Settings, Outcome, done, failed, then_run, on_error, map_error, MutationError,
  loop_not_found, world_of, is_owner, is_project, state_for_id, commit, release_empty,
}
use pipee.Loop.Repository.Keyed.{IsKeyed, set-IsKeyed, get-id, any-set, any-get}
use pipee.Loop.Repository.Invariant.{
  IsSound, then_run-IsSound, state_for_id-IsSound, commit-IsSound, release_empty-IsSound,
}
use pipee.Loop.Repository.Operations.{answer, find, found_or_fail}

-- The wrappers leave the state alone, or release an empty ownership.
pub map_error-IsSound {ℓ} :
    {A : Type ℓ} (f : MutationError → MutationError) (o : Outcome A)
    → IsSound (world_of o)
    → IsSound (world_of (map_error f o))
map_error-IsSound f (done a w) s = s
map_error-IsSound f (failed e w) s = s

pub on_error-IsSound {ℓ} :
    {A : Type ℓ} (o : Outcome A)
    → IsSound (world_of o)
    → IsSound (world_of (on_error release_empty o))
on_error-IsSound (done a w) s = s
on_error-IsSound (failed e w) s = release_empty-IsSound w s

-- The loop that an operation found, in the state it found it in.
pub record Found (id : String) (l : Loop) (w : World) : Type 0 where
  pub sound : IsSound w
  pub at : Dict.get id w.loops ≡ some l
  pub same_id : loop_id l ≡ id
  pub local : is_owner w.access ≡ false → is_project l ≡ false

Found-of :
    (id : String) (l : Loop) (w : World) → IsSound w → Dict.get id w.loops ≡ some l → Found id l w
Found-of id l w s e = record {
  sound = s;
  at = e;
  same_id = get-id id l w.loops s.keyed e;
  local = λ h. any-get is_project id l w.loops (s.private h) e;
}

module _ (host : Host) (settings : Settings) where
  pub answer-IsSound {ℓ} :
      {A : Type ℓ} (a : A) (next : Dict Loop) (r : Retention) (w : World)
      → IsSound w
      → IsKeyed next
      → (is_owner w.access ≡ false → any is_project (Dict.values next) ≡ false)
      → IsSound (world_of (answer host settings a next r w))
  unfolding answer
  answer-IsSound a next r w s k p =
      then_run-IsSound (commit host settings next r w) (λ _ v. done a v)
        (commit-IsSound host settings next r w s k p) (λ _ v _ t. t)

  -- Writing a loop under the identifier of a found one, with its retention.
  pub answer-set-IsSound {ℓ} :
      {A : Type ℓ} (a : A) (id : String) (l l' : Loop) (w : World)
      → Found id l w
      → loop_id l' ≡ id
      → retention l' ≡ retention l
      → IsSound (world_of (answer host settings a (Dict.set id l' w.loops) (retention l) w))
  answer-set-IsSound a id l l' w f i r =
      answer-IsSound a (Dict.set id l' w.loops) (retention l) w f.sound
        (subst (λ k. IsKeyed (Dict.set k l' w.loops)) i (set-IsKeyed l' w.loops f.sound.keyed))
        (λ h.
          any-set is_project id l' w.loops (f.sound.private h)
            (ap (λ t. same_retention t project) r ∙ f.local h))

  find-Found :
      (id : String) (o : Outcome (Unit {0})) (l : Loop) (v : World)
      → IsSound (world_of o)
      → then_run o (λ _ u. found_or_fail id (Dict.get id u.loops) u) ≡ done l v
      → Found id l v
  find-Found id (failed e u) l v s h = cc
  find-Found id (done _ u) l v s h = elim (Option-cases (Dict.get id u.loops)) [
    | inl missing ↦ absurd (refused (rw missing at h))
    | inr (x, found) ↦
        let (same_l, same_w) = found_same x (rw found at h) in
        Found-of id l v (subst IsSound same_w s)
          (ap (λ (t : World). Dict.get id t.loops) (sym same_w) ∙ found ∙ ap (λ t. some t) same_l)
  ]
    where
      refused : failed (loop_not_found id) u ≡ done l v → ⊥
      refused e = cc

      found_same : (x : Loop) → done x u ≡ done l v → (x ≡ l) × (u ≡ v)
      found_same x e = (cc, cc)

  found_or_fail-IsSound :
      (id : String) (o : Option Loop) (v : World)
      → IsSound v
      → IsSound (world_of (found_or_fail id o v))
  found_or_fail-IsSound id none v s = s
  found_or_fail-IsSound id (some l) v s = s

  pub find_then :
      {A : Type 0} (id : String) (w : World) (k : Loop → World → Outcome A)
      → IsSound w
      → ((l : Loop) (v : World) → Found id l v → IsSound (world_of (k l v)))
      → IsSound (world_of (then_run (find host settings id w) k))
  unfolding find
  find_then id w k s rule =
      let settled = state_for_id-IsSound host id w s in
      let o = state_for_id host id w in
      then_run-IsSound (then_run o (λ _ u. found_or_fail id (Dict.get id u.loops) u)) k
        (then_run-IsSound o (λ _ u. found_or_fail id (Dict.get id u.loops) u) settled
          (λ _ u _ t. found_or_fail-IsSound id (Dict.get id u.loops) u t))
        (λ l v e t. rule l v (find-Found id o l v settled e))
