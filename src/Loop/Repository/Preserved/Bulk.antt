-- ===== src/Loop/Repository/Preserved/Bulk.antt =====
-- The operations on all loops of a retention keep the invariant.
use pipee.Base.{
  ℕ, ◌≡◌, refl, ap, ◌∙◌, subst, inl, inr, Bool, true, false, not, ◌&&◌, Option, none, some, List,
  [], ◌∷◌, arith, any, if◌then◌else◌, Bool-cases, if_cases, All, ◌==◌,
}
use pipee.Base.Dict
use pipee.Base.Dict.{Dict}
use pipee.Loop.Model.{Loop, loop_id, retention, project, Retention, same_retention, Occurrence}
use pipee.Loop.Runtime.{Runtime}
use pipee.Loop.Transition.{Gate, is_closed, tick}
use pipee.Loop.Transition.Claims.{tick_identity}
use pipee.Loop.Repository.State.{
  World, Host, Settings, Outcome, done, then_run, map_error, world_of, is_owner, is_project,
  attempt_ownership, read_durable,
}
use pipee.Loop.Repository.Keyed.{IsKeyed, set-IsKeyed, delete-IsKeyed, any-set, any-delete}
use pipee.Loop.Repository.Invariant.{IsSound, then_run-IsSound, attempt_ownership-IsSound}
use pipee.Loop.Repository.Operations.{
  answer, delete_all, remove_owned, remove_all, remove_all_error, claim_due_error, next_map, claims,
  claim_from, claim_owned, claim_unowned, claim_due, put_back, after_tick, of_retention, is_empty,
}
use pipee.Loop.Repository.Preserved.Found.{map_error-IsSound, answer-IsSound}

All-unit : (ls : List Loop) → All (λ _. Unit {0}) ls
All-unit [] = tt
All-unit (l ∷ ls) = (tt, All-unit ls)

All-of_any : (ls : List Loop) → any is_project ls ≡ false → All (λ l. is_project l ≡ false) ls
All-of_any [] h = tt
All-of_any (l ∷ ls) h = (ground arith, All-of_any ls (ground arith))

delete_all-IsKeyed : (ls : List Loop) (m : Dict Loop) → IsKeyed m → IsKeyed (delete_all ls m)
unfolding delete_all
delete_all-IsKeyed [] m h = h
delete_all-IsKeyed (l ∷ ls) m h =
    delete_all-IsKeyed ls (Dict.delete (loop_id l) m) (delete-IsKeyed (loop_id l) m h)

delete_all-any :
    (ls : List Loop) (m : Dict Loop)
    → any is_project (Dict.values m) ≡ false
    → any is_project (Dict.values (delete_all ls m)) ≡ false
unfolding delete_all
delete_all-any [] m h = h
delete_all-any (l ∷ ls) m h =
    delete_all-any ls (Dict.delete (loop_id l) m) (any-delete is_project (loop_id l) m h)

module _ (rt : Runtime) (now : ℕ) (gate : Gate) (r : Retention) where
  pub put_back-IsKeyed :
      (l : Loop) (left : Option Loop) (m : Dict Loop)
      → (tick rt l now gate).loop ≡ left
      → IsKeyed m
      → IsKeyed (put_back (loop_id l) left m)
  put_back-IsKeyed l none m e h = delete-IsKeyed (loop_id l) m h
  put_back-IsKeyed l (some l') m e h =
      subst (λ k. IsKeyed (Dict.set k l' m)) (tick_identity rt l now gate l' e).0
        (set-IsKeyed l' m h)

  put_back-any :
      (l : Loop) (left : Option Loop) (m : Dict Loop)
      → (tick rt l now gate).loop ≡ left
      → is_project l ≡ false
      → any is_project (Dict.values m) ≡ false
      → any is_project (Dict.values (put_back (loop_id l) left m)) ≡ false
  put_back-any l none m e p h = any-delete is_project (loop_id l) m h
  put_back-any l (some l') m e p h =
      any-set is_project (loop_id l) l' m h
        (ap (λ t. same_retention t project) (tick_identity rt l now gate l' e).1 ∙ p)

  -- A rule for each round: what putting a tick's result back keeps, the whole loop keeps.
  next_map_rule {κ} :
      (P : Dict Loop → Type κ) (Q : Loop → Type κ)
      → ((l : Loop) (m : Dict Loop)
          → Q l
          → P m
          → P (put_back (loop_id l) (tick rt l now gate).loop m))
      → (ls : List Loop) (m : Dict Loop) → All Q ls
      → P m
      → P (next_map rt now gate r ls m)
  unfolding next_map
  next_map_rule P Q rule [] m q h = h
  next_map_rule P Q rule (l ∷ ls) m q h = next_map_rule P Q rule ls _ q.1 (
      if_cases P (same_retention (retention l) r) _ _
        (λ _. claimed l (tick rt l now gate).occurrence q.0) (λ _. h))
    where
      claimed : (l : Loop) (o : Option Occurrence) → Q l → P (after_tick l (tick rt l now gate) o m)
      claimed l none q = h
      claimed l (some o) q = rule l m q h

  pub next_map-IsKeyed :
      (ls : List Loop) (m : Dict Loop) → IsKeyed m → IsKeyed (next_map rt now gate r ls m)
  next_map-IsKeyed ls m h =
      next_map_rule IsKeyed (λ _. Unit {0})
        (λ l m _ k. put_back-IsKeyed l (tick rt l now gate).loop m refl k) ls m (All-unit ls) h

  next_map-any :
      (ls : List Loop) (m : Dict Loop)
      → any is_project ls ≡ false
      → any is_project (Dict.values m) ≡ false
      → any is_project (Dict.values (next_map rt now gate r ls m)) ≡ false
  next_map-any ls m clear h =
      next_map_rule (λ m. any is_project (Dict.values m) ≡ false) (λ l. is_project l ≡ false)
        (λ l m local k. put_back-any l (tick rt l now gate).loop m refl local k) ls m
        (All-of_any ls clear) h

module _ (host : Host) (settings : Settings) where
  remove_owned-IsSound :
      (r : Retention) (b : Bool) (w : World)
      → IsSound w
      → IsSound (world_of (remove_owned host settings r b w))
  unfolding remove_owned
  remove_owned-IsSound r false w s = s
  remove_owned-IsSound r true w s =
      let ls = of_retention r (Dict.values w.loops) in
      answer-IsSound host settings ls (delete_all ls w.loops) r w s
        (delete_all-IsKeyed ls w.loops s.keyed) (λ h. delete_all-any ls w.loops (s.private h))

  pub remove_all-IsSound :
      (r : Retention) (w : World) → IsSound w → IsSound (world_of (remove_all host settings r w))
  unfolding remove_all
  remove_all-IsSound r w s =
      if_cases (λ o. IsSound (world_of (map_error remove_all_error o))) (same_retention r project)
        (then_run (attempt_ownership host w) (remove_owned host settings r))
        (remove_owned host settings r true w)
        (λ _.
          map_error-IsSound remove_all_error
            (then_run (attempt_ownership host w) (remove_owned host settings r))
            (then_run-IsSound (attempt_ownership host w) (remove_owned host settings r)
              (attempt_ownership-IsSound host w s) (λ b v _ t. remove_owned-IsSound r b v t)))
        (λ _.
          map_error-IsSound remove_all_error (remove_owned host settings r true w)
            (remove_owned-IsSound r true w s))

  module _ (rt : Runtime) (now : ℕ) (gate : Gate) where
    claim_from-IsSound :
        (r : Retention) (w : World)
        → IsSound w
        → IsSound (world_of (claim_from host settings rt now gate r w))
    unfolding claim_from
    claim_from-IsSound r w s =
        let ls = Dict.values w.loops in
        if_cases (λ (o : Outcome (List Occurrence)). IsSound (world_of o))
          (is_empty (claims rt now gate r ls)) (done [] w)
          (answer host settings (claims rt now gate r ls) (next_map rt now gate r ls w.loops) r w)
          (λ _. s)
          (λ _.
            answer-IsSound host settings (claims rt now gate r ls)
              (next_map rt now gate r ls w.loops) r w s
              (next_map-IsKeyed rt now gate r ls w.loops s.keyed)
              (λ h. next_map-any rt now gate r ls w.loops (s.private h) (s.private h)))

    claim_owned-IsSound :
        (b : Bool) (w : World)
        → IsSound w
        → IsSound (world_of (claim_owned host settings rt now gate b w))
    unfolding claim_owned
    claim_owned-IsSound false w s = s
    claim_owned-IsSound true w s = claim_from-IsSound project w s

    claim_unowned-IsSound :
        (w : World)
        → IsSound w
        → is_owner w.access ≡ false
        → IsSound (world_of (claim_unowned host settings rt now gate w))
    unfolding claim_unowned
    claim_unowned-IsSound w s h = elim (Bool-cases host.probe_ok) [
      | inr unread ↦ simp unread s
      | inl read ↦ elim (Bool-cases (Dict.size (read_durable w) == 0)) [
        | inl blank ↦
            simp (read, blank)
              (record { keyed = s.keyed; leased = s.leased ∙ h; private = λ _. s.private h })
        | inr stored ↦
            simp (read, stored)
              (then_run-IsSound (attempt_ownership host w) (claim_owned host settings rt now gate)
                (attempt_ownership-IsSound host w s) (λ b v _ t. claim_owned-IsSound b v t))
      ]
    ]

    claim_due_body-IsSound :
        (r : Retention) (w : World)
        → IsSound w
        → IsSound (
            world_of (
              if same_retention r project && not (is_owner w.access)
              then claim_unowned host settings rt now gate w
              else claim_from host settings rt now gate r w))
    claim_due_body-IsSound r w s =
        if_cases (λ (o : Outcome (List Occurrence)). IsSound (world_of o))
          (same_retention r project && not (is_owner w.access))
          (claim_unowned host settings rt now gate w) (claim_from host settings rt now gate r w)
          (λ h. claim_unowned-IsSound w s (ground arith)) (λ _. claim_from-IsSound r w s)

    pub claim_due-IsSound :
        (r : Retention) (w : World)
        → IsSound w
        → IsSound (world_of (claim_due host settings rt now gate r w))
    unfolding claim_due
    claim_due-IsSound r w s = elim (Bool-cases (is_closed gate)) [
      | inl shut ↦ simp shut s
      | inr open_gate ↦ simp open_gate (
          map_error-IsSound claim_due_error
            (if same_retention r project && not (is_owner w.access)
              then claim_unowned host settings rt now gate w
              else claim_from host settings rt now gate r w)
            (claim_due_body-IsSound r w s))
    ]
