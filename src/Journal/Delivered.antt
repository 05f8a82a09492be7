-- ===== src/Journal/Delivered.antt =====
-- A command that was executed is answered in the next turn
-- (extensions/chrome/src/browser/connector-runtime-step.ts over command-journal.ts).
use pipee.Base.{
  ◌≡◌, refl, true, false, not, Option, none, some, [], ◌∷◌, ◌++◌, String, arith, if_cases, str_eq,
  eq_iff, subst, sym,
}
use pipee.Journal.{
  WireCommand, WireResult, Outcome, succeeded, failed, Payload, executing, current, recovered,
  undecodable, is_blank, JournalState, is_executing, is_result, Envelope, Stored, nameless,
  misshaped, entry, JournalOutcome, done, result_of, journal_failed, Host, recover, load_success,
  load_outcome, load_current_result, load_state, load_stored, load_command_journal,
  record_command_executing, record_command_result, record_entry, result_for, transported,
  clear_command_journal,
}
use pipee.Journal.Loads.{working, blank_empty}
use pipee.Journal.Turns.{
  Turn, World, settle_browser_command, execute, proceed, connector_runtime_step,
}

module _ {Operation Value : Type 0} (validate : Operation → Value → Option Value)
    (transport : WireResult Value → Option (WireResult Value)) where
  -- A result under the identifier.
  abbrev Answers : String → JournalOutcome Value × Option (Stored Operation Value) → Type 0
  Answers id (done, y) = ⊥
  Answers id (journal_failed, y) = ⊥
  Answers id (result_of r, y) = r.id ≡ id

  module _ (f : String) where
    load_success-Answers :
        (id : String) (r : WireResult Value) (o : Option Value)
        (x : Option (Stored Operation Value))
        → r.id ≡ id
        → Answers id (load_success validate transport (working f) id f r o x)
    unfolding recover
    load_success-Answers id r none x e = refl
    load_success-Answers id r (some v) x e = e

    load_outcome-Answers :
        (id : String) (c : WireCommand Operation) (r : WireResult Value) (o : Outcome Value)
        (x : Option (Stored Operation Value))
        → r.id ≡ id
        → Answers id (load_outcome validate transport (working f) id f c r o x)
    load_outcome-Answers id c r (failed w) x e = e
    load_outcome-Answers id c r (succeeded v) x e =
        load_success-Answers id r (validate c.operation v) x e

    load_current_result-Answers :
        (id : String) (p : Payload Operation Value) (x : Option (Stored Operation Value))
        → Answers id (load_current_result validate transport (working f) id f p x)
    unfolding load_current_result recover
    load_current_result-Answers id (executing c) x = refl
    load_current_result-Answers id undecodable x = refl
    load_current_result-Answers id (recovered r) x = ground (arith, eq_iff r.id id)
    load_current_result-Answers id (current c r) x =
        ground (arith, eq_iff r.id id, load_outcome-Answers id c r r.outcome x)

    load_state-Answers :
        (e : Envelope Operation Value) (s : JournalState) (x : Option (Stored Operation Value))
        → Answers e.command_id (load_state validate transport (working f) f e s x)
    unfolding recover
    load_state-Answers e is_executing x = ground arith
    load_state-Answers e is_result x = load_current_result-Answers e.command_id e.payload x

    load-Answers :
        (e : Envelope Operation Value)
        → Answers e.command_id
            (load_command_journal validate transport (working f) (some (entry e)))
    unfolding load_command_journal load_stored recover
    load-Answers e = ground (arith, load_state-Answers e e.state (some (entry e)))

  -- The storage has an entry of the command.
  abbrev IsOf : String → Option (Stored Operation Value) → Type 0
  IsOf id none = ⊥
  IsOf id (some nameless) = ⊥
  IsOf id (some (misshaped j)) = ⊥
  IsOf id (some (entry e)) = e.command_id ≡ id

  record_entry-IsOf :
      (host : Host) (c : WireCommand Operation) (s : JournalState) (p : Payload Operation Value)
      (o : Option String) (x : Option (Stored Operation Value))
      → is_blank c.id ≡ false
      → IsOf c.id x
      → IsOf c.id (record_entry validate transport host c s p o x).1
  record_entry-IsOf host c s p none x named h = h
  record_entry-IsOf host c s p (some g) x named h = ground (arith, h, blank_empty c.id named)

  record_command_result-IsOf :
      (host : Host) (c : WireCommand Operation) (r : WireResult Value)
      (x : Option (Stored Operation Value))
      → is_blank c.id ≡ false
      → IsOf c.id x
      → IsOf c.id (record_command_result validate transport host c r x).1
  unfolding record_command_result
  record_command_result-IsOf host c r x named h =
      let p = current c (
        transported validate transport host c.id
          (transport (result_for validate transport host c r r.outcome))) in
      if_cases (λ j. IsOf c.id j.1) (not (str_eq r.id c.id)) (journal_failed, x)
        (record_entry validate transport host c is_result p host.fingerprint x) (λ other. h)
        (λ same. record_entry-IsOf host c is_result p host.fingerprint x named h)

  -- The turn delivers a result of the command and executes nothing.
  abbrev pub Delivers : String → World Operation Value → World Operation Value → Type 0
  Delivers id u v =
      (v.executed ≡ u.executed)
      × (v.storage ≡ none)
      × ((r : WireResult Value) × (r.id ≡ id) × (v.delivered ≡ u.delivered ++ r ∷ []))

  proceed-Delivers :
      (t : Turn Operation Value) (g id : String) (u : World Operation Value)
      (j : JournalOutcome Value × Option (Stored Operation Value))
      → t.host ≡ working g
      → t.delivers ≡ true
      → Answers id j
      → Delivers id u (proceed validate transport t u j)
  unfolding clear_command_journal
  proceed-Delivers t g id u (done, y) e d a = absurd a
  proceed-Delivers t g id u (journal_failed, y) e d a = absurd a
  proceed-Delivers t g id u (result_of r, y) e d a =
      subst (Delivers id u) (sym taken) (refl, refl, (r, a, refl))
    where
      taken :
          proceed validate transport t u (result_of r, y)
          ≡ record u { delivered = u.delivered ++ r ∷ []; storage = none }
      taken = ground (arith, e, d)

  step-Delivers :
      (t : Turn Operation Value) (g id : String) (u : World Operation Value)
      (x : Option (Stored Operation Value))
      → t.connects ≡ true
      → t.host ≡ working g
      → t.delivers ≡ true
      → u.storage ≡ x
      → IsOf id x
      → Delivers id u (connector_runtime_step validate transport t u)
  unfolding connector_runtime_step
  step-Delivers t g id u none c e d s h = absurd h
  step-Delivers t g id u (some nameless) c e d s h = absurd h
  step-Delivers t g id u (some (misshaped j)) c e d s h = absurd h
  step-Delivers t g id u (some (entry en)) c e d s h = subst (Delivers id u) (sym whole) (
      proceed-Delivers t g id u
        (load_command_journal validate transport (working g) (some (entry en))) e d
        (subst
          (λ k. Answers k (load_command_journal validate transport (working g) (some (entry en)))) h
          (load-Answers g en)))
    where
      whole :
          connector_runtime_step validate transport t u
          ≡ proceed validate transport t u
              (load_command_journal validate transport (working g) (some (entry en)))
      whole = ground (arith, c, e, s)

  -- The turn executes the command, whatever becomes of it.
  -- The storage once the execution is recorded.
  abbrev begins : String → WireCommand Operation → Option (Stored Operation Value)
  begins f c = some (
      entry (record {
        protocol_fingerprint = f;
        command_id = c.id;
        state = is_executing;
        payload = executing c;
      }))

  abbrev Executes : WireCommand Operation → World Operation Value → World Operation Value → Type 0
  Executes c w u =
      (u.executed ≡ w.executed ++ c.id ∷ []) × (u.delivered ≡ w.delivered) × IsOf c.id u.storage

  step-Executes :
      (t : Turn Operation Value) (f : String) (c : WireCommand Operation)
      (w : World Operation Value)
      → t.connects ≡ true
      → t.host ≡ working f
      → t.received ≡ some c
      → w.storage ≡ none
      → is_blank c.id ≡ false
      → Executes c w (connector_runtime_step validate transport t w)
  unfolding connector_runtime_step load_command_journal record_command_executing
  step-Executes t f c w con e r s named = subst (Executes c w) (sym begun) (
    refl,
    refl,
    if_cases (IsOf c.id) t.stops (begins f c)
        (record_command_result validate transport t.later_host c
          (settle_browser_command validate transport c t.dispatched) (begins f c)).1
        (λ stopped. refl)
        (λ on.
          record_command_result-IsOf t.later_host c
            (settle_browser_command validate transport c t.dispatched) (begins f c) named refl),
  )
    where
      begun :
          connector_runtime_step validate transport t w
          ≡ execute validate transport t c (record w { storage = none }) (done, begins f c)
      begun = ground (arith, con, e, r, s, named, blank_empty c.id named)

  -- Where the journal is empty and its storage works, a turn that receives a command, whose
  -- identifier is not blank, executes it, once, whatever the browser answers, whether the worker stops and whether its result can be
  -- stored; and the next turn that connects and delivers, on a storage that works, under the same
  -- protocol or another, delivers one result of that command, executes nothing, and leaves the
  -- journal empty.
  pub executed-answered :
      (t next : Turn Operation Value) (f g : String) (c : WireCommand Operation)
      (w : World Operation Value)
      → t.connects ≡ true
      → t.host ≡ working f
      → t.received ≡ some c
      → w.storage ≡ none
      → is_blank c.id ≡ false
      → next.connects ≡ true
      → next.host ≡ working g
      → next.delivers ≡ true
      → let u = connector_runtime_step validate transport t w in
        let v = connector_runtime_step validate transport next u in
        (u.executed ≡ w.executed ++ c.id ∷ []) × (u.delivered ≡ w.delivered) × Delivers c.id u v
  executed-answered t next f g c w con e r s named con2 e2 d =
      let u = connector_runtime_step validate transport t w in
      let h = step-Executes t f c w con e r s named in
      (h.0, h.1, step-Delivers next g c.id u u.storage con2 e2 d refl h.2)
