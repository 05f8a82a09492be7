-- ===== src/Journal/Loads.antt =====
-- What a worker finds in the command journal
-- (extensions/chrome/src/browser/command-journal.ts) after the one before it stopped.
use pipee.Base.{
  Bool, true, false, not, Option, none, some, String, ◌≡◌, refl, arith, if◌then◌else◌, if_cases,
  str_eq, eq_refl, eq_iff, ◌⊎◌, inl, inr, subst, sym, ap, ◌∙◌,
}
use pipee.Journal.{
  WireCommand, Outcome, succeeded, failed, WireResult, Payload, executing, current, recovered,
  undecodable, is_blank, JournalState, is_executing, is_result, Envelope, Stored, nameless,
  misshaped, entry, JournalOutcome, done, result_of, journal_failed, Host, is_running,
  is_outcome_unknown, recover, load_success, load_outcome, load_current_result, load_state,
  load_stored, load_command_journal,
}

-- A host on which everything works.
abbrev pub working : String → Host
working fingerprint = record { reads = true; saves = true; fingerprint = some fingerprint }

empty_blank : is_blank "" ≡ true
unfolding is_blank
empty_blank = refl

-- An identifier that is not blank is not empty.
pub blank_empty : (id : String) → is_blank id ≡ false → str_eq id "" ≡ false
blank_empty id h = grind (arith, h, eq_iff id "", empty_blank)

-- The identifier under which something is stored is not blank.
abbrev pub is_named : {Operation Value : Type 0} → Option (Stored Operation Value) → Bool
is_named none = true
is_named (some nameless) = true
is_named (some (misshaped id)) = not (is_blank id)
is_named (some (entry e)) = not (is_blank e.command_id)

module _ {Operation Value : Type 0} (validate : Operation → Value → Option Value)
    (transport : WireResult Value → Option (WireResult Value)) (fingerprint : String) where
  abbrev pub load :
      Option (Stored Operation Value) → JournalOutcome Value × Option (Stored Operation Value)
  load = load_command_journal validate transport (working fingerprint)

  -- Where a result is a success, it is of the recorded result of a command with its identifier,
  -- under this fingerprint, and valid for the command.
  abbrev pub IsRecorded : Option (Stored Operation Value) → String → Value → Type 0
  IsRecorded storage id v =
      (c : WireCommand Operation) × (w : Value) × (storage
        ≡ some (
            entry (record {
              protocol_fingerprint = fingerprint;
              command_id = c.id;
              state = is_result;
              payload = current c (record { id = id; outcome = succeeded w });
            })))
      × (c.id ≡ id)
      × (validate c.operation w ≡ some v)

  abbrev pub IsExplainedBy : Option (Stored Operation Value) → String → Outcome Value → Type 0
  IsExplainedBy storage id (failed e) = Unit
  IsExplainedBy storage id (succeeded v) = IsRecorded storage id v

  abbrev pub IsExplained : Option (Stored Operation Value) → JournalOutcome Value → Type 0
  IsExplained storage done = Unit
  IsExplained storage journal_failed = ⊥
  IsExplained storage (result_of r) = IsExplainedBy storage r.id r.outcome

  -- A load settles the journal: another one finds the same.
  abbrev Settles :
      Option (Stored Operation Value)
      → JournalOutcome Value × Option (Stored Operation Value)
      → Type 0
  Settles storage t = (load t.1 ≡ t) × IsExplained storage t.0

  recover-Settles :
      (id reason : String) (storage : Option (Stored Operation Value))
      → is_blank id ≡ false
      → Settles storage
          (recover validate transport (working fingerprint) id fingerprint reason storage)
  unfolding recover load_command_journal load_stored load_current_result
  recover-Settles id reason storage named =
      (ground (arith, eq_refl fingerprint, eq_refl id, named, blank_empty id named), tt)

  -- The storage is left as it is, or settled anew.
  abbrev Leaves :
      Option (Stored Operation Value)
      → JournalOutcome Value × Option (Stored Operation Value)
      → Type 0
  Leaves storage t = ((t.1 ≡ storage) × IsExplained storage t.0) ⊎ Settles storage t

  recover-Leaves :
      (id reason : String) (storage : Option (Stored Operation Value))
      → is_blank id ≡ false
      → Leaves storage
          (recover validate transport (working fingerprint) id fingerprint reason storage)
  recover-Leaves id reason storage named = inr (recover-Settles id reason storage named)

  -- An envelope with a recorded result.
  abbrev pub recorded : WireCommand Operation → WireResult Value → Option (Stored Operation Value)
  recorded c r = some (
      entry (record {
        protocol_fingerprint = fingerprint;
        command_id = c.id;
        state = is_result;
        payload = current c r;
      }))

  load_success-Leaves :
      (c : WireCommand Operation) (r : WireResult Value) (w : Value) (o : Option Value)
      → c.id ≡ r.id
      → r.outcome ≡ succeeded w
      → validate c.operation w ≡ o
      → is_blank c.id ≡ false
      → Leaves (recorded c r) (
          load_success validate transport (working fingerprint) c.id fingerprint r o (recorded c r))
  load_success-Leaves c r w none e f v named =
      recover-Leaves c.id "successful journal result does not match its command contract"
        (recorded c r) named
  load_success-Leaves c r w (some u) e f v named =
      inl (refl, (c, w, ap (λ x. recorded c (record r { outcome = x })) f, e, v))

  load_outcome-Leaves :
      (c : WireCommand Operation) (r : WireResult Value) (o : Outcome Value)
      → c.id ≡ r.id
      → r.outcome ≡ o
      → is_blank c.id ≡ false
      → Leaves (recorded c r) (
          load_outcome validate transport
            (working fingerprint)
            c.id
            fingerprint
            c
            r
            o
            (recorded c r))
  load_outcome-Leaves c r (failed x) e f named =
      inl (refl, subst (IsExplainedBy (recorded c r) r.id) (sym f) tt)
  load_outcome-Leaves c r (succeeded w) e f named =
      load_success-Leaves c r w (validate c.operation w) e f refl named

  -- An envelope in the state `result`, under this fingerprint.
  abbrev ended : String → Payload Operation Value → Option (Stored Operation Value)
  ended id p = some (
      entry (record {
        protocol_fingerprint = fingerprint;
        command_id = id;
        state = is_result;
        payload = p;
      }))

  unknown-IsExplained :
      (storage : Option (Stored Operation Value)) (id : String) (o : Outcome Value)
      → not (is_outcome_unknown o) ≡ false
      → IsExplainedBy storage id o
  unknown-IsExplained storage id (failed e) h = tt
  unknown-IsExplained storage id (succeeded v) h = absurd (ground (arith, h))

  load_current_result-Leaves :
      (id : String) (p : Payload Operation Value)
      → is_blank id ≡ false
      → Leaves (ended id p) (
          load_current_result validate transport
            (working fingerprint)
            id
            fingerprint
            p
            (ended id p))
  unfolding load_current_result
  load_current_result-Leaves id (executing c) named =
      recover-Leaves id "current result payload could not be decoded" (ended id (executing c)) named
  load_current_result-Leaves id undecodable named =
      recover-Leaves id "current result payload could not be decoded" (ended id undecodable) named
  load_current_result-Leaves id (recovered r) named =
      let storage = ended id (recovered r) in
      let disagree =
        recover validate transport (working fingerprint) id fingerprint
          "journal envelope and result ids disagree" storage in
      let known =
        recover validate transport (working fingerprint) id fingerprint
          "recovered journal payload was not an outcome-unknown result" storage in
      if_cases (Leaves storage) (not (str_eq r.id id)) disagree
        (if not (is_outcome_unknown r.outcome) then known else (result_of r, storage))
        (λ e. recover-Leaves id "journal envelope and result ids disagree" storage named)
        (λ e.
          if_cases (Leaves storage) (not (is_outcome_unknown r.outcome)) known
            (result_of r, storage)
            (λ f.
              recover-Leaves id "recovered journal payload was not an outcome-unknown result"
                storage named)
            (λ f. inl (refl, unknown-IsExplained storage r.id r.outcome f)))
  load_current_result-Leaves id (current c r) named =
      let storage = ended id (current c r) in
      let disagree =
        recover validate transport (working fingerprint) id fingerprint
          "journal envelope and result ids disagree" storage in
      let other =
        recover validate transport (working fingerprint) id fingerprint
          "journal envelope and command ids disagree" storage in
      let found =
        load_outcome validate transport (working fingerprint) id fingerprint c r r.outcome
          storage in
      if_cases (Leaves storage) (not (str_eq r.id id)) disagree
        (if not (str_eq c.id id) then other else found)
        (λ e. recover-Leaves id "journal envelope and result ids disagree" storage named)
        (λ e.
          if_cases (Leaves storage) (not (str_eq c.id id)) other found
            (λ f. recover-Leaves id "journal envelope and command ids disagree" storage named)
            (λ f.
              let mine = same c.id id f in
              subst
                (λ k. Leaves (ended k (current c r)) (
                  load_outcome validate transport (working fingerprint) k fingerprint c r r.outcome
                    (ended k (current c r))))
                mine
                (load_outcome-Leaves c r r.outcome (mine ∙ sym (same r.id id e)) refl
                  (subst (λ k. is_blank k ≡ false) (sym mine) named))))
    where
      same : (a b : String) → not (str_eq a b) ≡ false → a ≡ b
      same a b h = ground (arith, h, eq_iff a b)

  load_state-Leaves :
      (e : Envelope Operation Value) (state : JournalState)
      → e.protocol_fingerprint ≡ fingerprint
      → e.state ≡ state
      → is_blank e.command_id ≡ false
      → Leaves
          (some (entry e))
          (load_state validate transport (working fingerprint) fingerprint e state (some (entry e)))
  load_state-Leaves e is_executing f s named =
      if_cases (Leaves (some (entry e))) (is_running e.command_id e.payload)
        (recover validate transport (working fingerprint) e.command_id fingerprint
          "MV3 worker stopped during command execution" (some (entry e)))
        (recover validate transport (working fingerprint) e.command_id fingerprint
          "executing journal payload is invalid" (some (entry e)))
        (λ r.
          recover-Leaves e.command_id "MV3 worker stopped during command execution" (some (entry e))
            named)
        (λ r.
          recover-Leaves e.command_id "executing journal payload is invalid" (some (entry e)) named)
  load_state-Leaves e is_result f s named =
      subst
        (λ x. Leaves x (
          load_current_result validate transport (working fingerprint) e.command_id fingerprint
            e.payload x))
        shape (load_current_result-Leaves e.command_id e.payload named)
    where
      shape : ended e.command_id e.payload ≡ some (entry e)
      shape = λ i. some (entry (record e { protocol_fingerprint = sym f i; state = sym s i }))

  load_stored-Leaves :
      (x : Stored Operation Value)
      → is_named (some x) ≡ true
      → Leaves (some x) (load_stored validate transport (working fingerprint) fingerprint x)
  unfolding load_stored load_command_journal
  load_stored-Leaves nameless named = inr (refl, tt)
  load_stored-Leaves (misshaped id) named =
      recover-Leaves id "stable journal envelope is invalid" (some (misshaped id))
        (ground (arith, named))
  load_stored-Leaves (entry e) named =
      let changed =
        recover validate transport (working fingerprint) e.command_id fingerprint
          "journal protocol fingerprint changed" (some (entry e)) in
      if_cases (Leaves (some (entry e))) (not (str_eq e.protocol_fingerprint fingerprint)) changed
        (load_state validate transport (working fingerprint) fingerprint e e.state (some (entry e)))
        (λ n.
          recover-Leaves e.command_id "journal protocol fingerprint changed" (some (entry e))
            (ground (arith, named)))
        (λ n.
          load_state-Leaves e e.state (ground (arith, n, eq_iff e.protocol_fingerprint fingerprint))
            refl (ground (arith, named)))

  load-Leaves :
      (storage : Option (Stored Operation Value))
      → is_named storage ≡ true
      → Leaves storage (load storage)
  unfolding load_command_journal
  load-Leaves none named = inl (refl, tt)
  load-Leaves (some x) named = load_stored-Leaves x named

  -- On a host where everything works, a load of the journal, whatever is stored, but under an
  -- identifier that is not blank where it has one, does not fail, and another load finds the same and stores nothing new. Its result is a success only if the journal
  -- has the recorded success of a command with that identifier, under the same fingerprint, and
  -- valid for that command: never after a command that was interrupted, or a change of protocol.
  pub load_command_journal-settles :
      (storage : Option (Stored Operation Value))
      → is_named storage ≡ true
      → (load (load storage).1 ≡ load storage) × IsExplained storage (load storage).0
  load_command_journal-settles storage named = elim (load-Leaves storage named) [
    | inl left ↦ (ap load left.0, left.1)
    | inr settled ↦ settled
  ]
