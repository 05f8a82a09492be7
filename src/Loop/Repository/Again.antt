-- ===== src/Loop/Repository/Again.antt =====
-- Claiming twice.
use pipee.Base.{
  ℕ, ◌≡◌, refl, sym, ap, ◌∙◌, subst, inl, inr, false, Option, none, some, List, [], ◌∷◌, ◌⊎◌,
  String, str_eq, eq_iff, eq_refl, arith, if◌then◌else◌, Bool-cases, All,
}
use pipee.Base.Dict
use pipee.Base.Dict.{Dict}
use pipee.Loop.Model.{Loop, loop_id, retention, session, Retention, same_retention, Occurrence}
use pipee.Loop.Runtime.{Runtime}
use pipee.Loop.Transition.{Gate, opened, tick}
use pipee.Loop.Transition.Claims.{HasPeriod, tick_twice, Claims}
use pipee.Loop.Repository.State.{World, Host, Settings, Outcome, done, failed, map_error}
use pipee.Loop.Repository.Keyed.{IsKeyed, get-id}
use pipee.Loop.Repository.Preserved.Bulk.{put_back-IsKeyed, next_map-IsKeyed}
use pipee.Loop.Repository.Durable.{Committed, answer-Committed}
use pipee.Loop.Repository.Operations.{
  next_map, claims, claim_from, claim_due, put_back, after_tick, is_empty, answer, claim_due_error,
}

abbrev In : Loop → List Loop → Type 0
In x [] = ⊥
In x (l ∷ ls) = (x ≡ l) ⊎ In x ls

get-In : (k : String) (l : Loop) (m : Dict Loop) → Dict.get k m ≡ some l → In l (Dict.values m)
unfolding Dict.get
get-In k l [] e = cc
get-In k l ((j, x) ∷ m) e = elim (Bool-cases (str_eq j k)) [
  | inl hit ↦ inl (ground arith)
  | inr miss ↦ inr (get-In k l m (rw miss at e))
]

-- What holds of each loop that can be found holds of all of a keyed map.
All-of_get {ℓ} :
    (Q : Loop → Type ℓ) (m : Dict Loop)
    → IsKeyed m
    → ((k : String) (l : Loop) → Dict.get k m ≡ some l → Q l)
    → All Q (Dict.values m)
unfolding Dict.get
All-of_get Q [] keyed h = tt
All-of_get Q ((j, x) ∷ m) (a, b, c) h =
    (h j x (rw (eq_refl j)), All-of_get Q m c (λ k l e. h k l (later k l e)))
  where
    later :
        (k : String) (l : Loop)
        → Dict.get k m ≡ some l
        → (if str_eq j k then some x else Dict.get k m) ≡ some l
    later k l e = ground (arith, eq_iff j k)

module _ (rt : Runtime) (now : ℕ) (gate : Gate) (r : Retention) where
  -- A loop that the next round would leave: of another retention, or with nothing to claim.
  abbrev IsQuiet : Loop → Type 0
  IsQuiet l = (same_retention (retention l) r ≡ false) ⊎ ((tick rt l now gate).occurrence ≡ none)

  claims-nil : (ls : List Loop) → All IsQuiet ls → claims rt now gate r ls ≡ []
  unfolding claims
  claims-nil [] h = refl
  claims-nil (l ∷ ls) (inl other, h) = rw other (claims-nil ls h)
  claims-nil (l ∷ ls) (inr idle, h) = ground (arith, claims-nil ls h)

  -- Each loop of the map is quiet, or is still to come.
  abbrev IsPending : List Loop → Dict Loop → Type 0
  IsPending ls m = (k : String) (l : Loop) → Dict.get k m ≡ some l → IsQuiet l ⊎ In l ls

  IsPending-left :
      (l : Loop) (ls : List Loop) (m : Dict Loop)
      → IsQuiet l
      → IsPending (l ∷ ls) m
      → IsPending ls m
  IsPending-left l ls m q h k x e = elim (h k x e) [
    | inl quiet ↦ inl quiet
    | inr (inl same) ↦ inl (subst IsQuiet (sym same) q)
    | inr (inr later) ↦ inr later
  ]

  successor-IsQuiet :
      (l l' : Loop) (o : Occurrence)
      → HasPeriod l
      → Claims (tick rt l now gate) (some l') o
      → IsQuiet l'
  successor-IsQuiet l l' o p e =
      inr (ap (λ t. t.occurrence) (tick_twice rt l now gate gate l' o p e))

  IsPending-elsewhere :
      (l : Loop) (ls : List Loop) (m : Dict Loop) (k : String) (x : Loop)
      → IsKeyed m
      → IsPending (l ∷ ls) m
      → str_eq (loop_id l) k ≡ false
      → Dict.get k m ≡ some x
      → IsQuiet x ⊎ In x ls
  IsPending-elsewhere l ls m k x keyed h miss e = elim (h k x e) [
    | inl quiet ↦ inl quiet
    | inr (inl same) ↦
        absurd
          (ne_of_miss (loop_id l) k miss (ap (λ t. loop_id t) (sym same) ∙ get-id k x m keyed e))
    | inr (inr later) ↦ inr later
  ]
    where
      ne_of_miss : (a b : String) → str_eq a b ≡ false → a ≡ b → ⊥
      ne_of_miss a b no_match same = ground (arith, eq_iff a b)

  put_back-IsPending :
      (l : Loop) (ls : List Loop) (left : Option Loop) (o : Occurrence) (m : Dict Loop)
      → HasPeriod l
      → IsKeyed m
      → Claims (tick rt l now gate) left o
      → IsPending (l ∷ ls) m
      → IsPending ls (put_back (loop_id l) left m)
  put_back-IsPending l ls none o m p keyed e h k x f = elim (Bool-cases (str_eq (loop_id l) k)) [
    | inl hit ↦ ground (arith, Dict.get-delete (loop_id l) k m)
    | inr miss ↦
        IsPending-elsewhere l ls m k x keyed h miss
          (ground (arith, Dict.get-delete (loop_id l) k m))
  ]
  put_back-IsPending l ls (some l') o m p keyed e h k x f =
      elim (Bool-cases (str_eq (loop_id l) k)) [
        | inl hit ↦
            let same : l' ≡ x = ground (arith, Dict.get-set (loop_id l) k l' m) in
            inl (subst IsQuiet same (successor-IsQuiet l l' o p e))
        | inr miss ↦
            IsPending-elsewhere l ls m k x keyed h miss
              (ground (arith, Dict.get-set (loop_id l) k l' m))
      ]

  round-IsPending :
      (l : Loop) (ls : List Loop) (o : Option Occurrence) (m : Dict Loop)
      → (tick rt l now gate).occurrence ≡ o
      → HasPeriod l
      → IsKeyed m
      → IsPending (l ∷ ls) m
      → IsPending ls (after_tick l (tick rt l now gate) o m)
        × IsKeyed (after_tick l (tick rt l now gate) o m)
  round-IsPending l ls none m e p keyed h = (IsPending-left l ls m (inr e) h, keyed)
  round-IsPending l ls (some o) m e p keyed h = (
    put_back-IsPending l ls (tick rt l now gate).loop o m p keyed (refl, e) h,
    put_back-IsKeyed rt now gate r l (tick rt l now gate).loop m refl keyed,
  )

  next_map-IsPending :
      (ls : List Loop) (m : Dict Loop)
      → All HasPeriod ls
      → IsKeyed m
      → IsPending ls m
      → IsPending [] (next_map rt now gate r ls m)
  unfolding next_map
  next_map-IsPending [] m ps keyed h = h
  next_map-IsPending (l ∷ ls) m (p, ps) keyed h =
      elim (Bool-cases (same_retention (retention l) r)) [
        | inr other ↦
            rw other (next_map-IsPending ls m ps keyed (IsPending-left l ls m (inl other) h))
        | inl claimed ↦
            let res = tick rt l now gate in
            let (pending, keyed') = round-IsPending l ls res.occurrence m refl p keyed h in
            rw claimed (next_map-IsPending ls (after_tick l res res.occurrence m) ps keyed' pending)
      ]

  -- After a round over all loops the next round at the same time claims nothing.
  pub claims-next_map :
      (m : Dict Loop)
      → IsKeyed m
      → All HasPeriod (Dict.values m)
      → claims rt now gate r (Dict.values (next_map rt now gate r (Dict.values m) m)) ≡ []
  claims-next_map m keyed ps =
      let out = next_map rt now gate r (Dict.values m) m in
      let pending = next_map-IsPending (Dict.values m) m ps keyed (λ k l e. inr (get-In k l m e)) in
      claims-nil (Dict.values out) (
        All-of_get IsQuiet out (next_map-IsKeyed rt now gate r (Dict.values m) m keyed)
          (λ k l e. quiet_of k l (pending k l e)))
    where
      quiet_of : (k : String) (l : Loop) → IsQuiet l ⊎ ⊥ → IsQuiet l
      quiet_of k l (inl q) = q
      quiet_of k l (inr h) = absurd h

module _ (rt : Runtime) (now : ℕ) (settings : Settings) where
  claim_from-idle :
      (host : Host) (gate : Gate) (r : Retention) (w : World)
      → claims rt now gate r (Dict.values w.loops) ≡ []
      → claim_from host settings rt now gate r w ≡ done [] w
  unfolding claim_from
  claim_from-idle host gate r w e = rw e

  -- What a successful round leaves.
  claim_from-left :
      (host : Host) (gate : Gate) (r : Retention) (w v : World) (os : List Occurrence)
      → claim_from host settings rt now gate r w ≡ done os v
      → (v ≡ w) × (claims rt now gate r (Dict.values w.loops) ≡ [])
        ⊎ Committed (next_map rt now gate r (Dict.values w.loops) w.loops) r w v
  unfolding claim_from
  claim_from-left host gate r w v os e = go (claims rt now gate r (Dict.values w.loops)) refl e
    where
      go :
          (cs : List Occurrence)
          → claims rt now gate r (Dict.values w.loops) ≡ cs
          → (if is_empty cs
              then done [] w
              else answer host settings cs
                  (next_map rt now gate r (Dict.values w.loops) w.loops)
                  r
                  w)
            ≡ done os v
          → (v ≡ w) × (claims rt now gate r (Dict.values w.loops) ≡ [])
            ⊎ Committed (next_map rt now gate r (Dict.values w.loops) w.loops) r w v
      go [] c h = inl (cc, c)
      go (o ∷ cs) c h =
          inr
            (answer-Committed host settings (next_map rt now gate r (Dict.values w.loops) w.loops)
              (o ∷ cs) os r w v h).1

  -- After a successful round, the loops at hand have nothing to claim at the same time.
  claim_from-idle_after :
      (host : Host) (gate : Gate) (r : Retention) (w v : World) (os : List Occurrence)
      → IsKeyed w.loops
      → All HasPeriod (Dict.values w.loops)
      → claim_from host settings rt now gate r w ≡ done os v
      → claims rt now gate r (Dict.values v.loops) ≡ []
  claim_from-idle_after host gate r w v os keyed ps e =
      elim (claim_from-left host gate r w v os e) [
        | inl (same, idle) ↦
            ap (λ (t : World). claims rt now gate r (Dict.values t.loops)) same ∙ idle
        | inr c ↦
            ap (λ t. claims rt now gate r (Dict.values t)) c.stored
            ∙ claims-next_map rt now gate r w.loops keyed ps
      ]

  -- A session round that succeeds leaves nothing to claim: the next round at the same time, under
  -- any answers of the host, succeeds with no occurrence and changes nothing, if the loops are
  -- keyed and the periods of interval loops are positive.
  pub claim_due_twice :
      (host later : Host) (w v : World) (os : List Occurrence)
      → IsKeyed w.loops
      → All HasPeriod (Dict.values w.loops)
      → claim_due host settings rt now opened session w ≡ done os v
      → claim_due later settings rt now opened session v ≡ done [] v
  unfolding claim_due
  claim_due_twice host later w v os keyed ps e = rw (
      claim_from-idle later opened session v
        (claim_from-idle_after host opened session w v os keyed ps (unmapped _ e)))
    where
      unmapped :
          (o : Outcome (List Occurrence)) → map_error claim_due_error o ≡ done os v → o ≡ done os v
      unmapped (done a u) h = h
      unmapped (failed x u) h = cc
