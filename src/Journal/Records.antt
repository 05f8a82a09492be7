-- ===== src/Journal/Records.antt =====
-- What a load of the command journal (extensions/chrome/src/browser/command-journal.ts) finds of
-- what was recorded.
use pipee.Base.{
  true, false, Option, none, some, String, ◌≡◌, refl, arith, str_eq, eq_refl, eq_iff, subst, sym,
  ap,
}
use pipee.Journal.{
  WireCommand, Outcome, succeeded, failed, WireResult, Stored, done, result_of, outcome_unknown_for,
  recover, is_blank, load_current_result, load_stored, load_command_journal,
  record_command_executing, valid_result, result_for, record_command_result,
}
use pipee.Journal.Loads.{working, load, recorded, blank_empty}

same_id : (a b : String) → str_eq a b ≡ true → a ≡ b
same_id a b e = ground (arith, e, eq_iff a b)

module _ {Operation Value : Type 0} (validate : Operation → Value → Option Value)
    (transport : WireResult Value → Option (WireResult Value)) (fingerprint : String) where
  load-recorded :
      (c : WireCommand Operation) (r : WireResult Value) (o : Outcome Value)
      → ((w u : Value) → validate c.operation w ≡ some u → validate c.operation u ≡ some u)
      → r.id ≡ c.id
      → r.outcome ≡ o
      → load validate transport fingerprint (
          recorded validate transport fingerprint c
            (result_for validate transport (working fingerprint) c r o))
        ≡ (
          result_of (result_for validate transport (working fingerprint) c r o),
          recorded validate transport fingerprint c
              (result_for validate transport (working fingerprint) c r o),
        )
  unfolding load_command_journal load_stored load_current_result
  load-recorded c r (failed x) again e f = ground (arith, e, f, eq_refl fingerprint, eq_refl c.id)
  load-recorded c r (succeeded w) again e f = load-valid (validate c.operation w) refl
    where
      load-valid :
          (v : Option Value)
          → validate c.operation w ≡ v
          → load validate transport fingerprint (
              recorded validate transport fingerprint c
                (valid_result validate transport (working fingerprint) c r v))
            ≡ (
              result_of (valid_result validate transport (working fingerprint) c r v),
              recorded validate transport fingerprint c
                  (valid_result validate transport (working fingerprint) c r v),
            )
      load-valid none h = ground (arith, eq_refl fingerprint, eq_refl c.id)
      load-valid (some u) h = ground (arith, e, again w u h, eq_refl fingerprint, eq_refl c.id)

  -- The result that is recorded is of the command.
  result_for_id :
      (c : WireCommand Operation) (r : WireResult Value) (o : Outcome Value)
      → r.id ≡ c.id
      → (result_for validate transport (working fingerprint) c r o).id ≡ c.id
  result_for_id c r (failed x) e = e
  result_for_id c r (succeeded w) e = ground (arith, e)

  record_command_result_kept :
      (c : WireCommand Operation) (r : WireResult Value) (storage : Option (Stored Operation Value))
      → is_blank c.id ≡ false
      → str_eq r.id c.id ≡ true
      → transport (result_for validate transport (working fingerprint) c r r.outcome)
        ≡ some (result_for validate transport (working fingerprint) c r r.outcome)
      → record_command_result validate transport (working fingerprint) c r storage ≡ (
        done,
        recorded validate transport fingerprint c
            (result_for validate transport (working fingerprint) c r r.outcome),
      )
  unfolding record_command_result
  record_command_result_kept c r storage named e kept = grind (
    arith,
    e,
    kept,
    named,
    blank_empty c.id named,
    result_for_id c r r.outcome (same_id r.id c.id e),
  )

  load-interrupted :
      (c : WireCommand Operation) (storage : Option (Stored Operation Value))
      → is_blank c.id ≡ false
      → (load validate transport fingerprint
          (record_command_executing validate transport (working fingerprint) c storage).1).0
        ≡ result_of (outcome_unknown_for c.id "MV3 worker stopped during command execution")
  unfolding record_command_executing load_command_journal load_stored recover
  load-interrupted c storage named =
      ground (arith, eq_refl fingerprint, eq_refl c.id, named, blank_empty c.id named)

  -- On a host where everything works, for a command whose identifier is not blank: after the record
  -- of a result of the command, where what is
  -- valid for the command stays valid and the transport keeps the result, a load finds that result,
  -- as valid for the command, and leaves the journal. After the record of its execution alone a load
  -- finds that the outcome is unknown.
  pub load-record :
      (c : WireCommand Operation) (r : WireResult Value) (storage : Option (Stored Operation Value))
      → ((w u : Value) → validate c.operation w ≡ some u → validate c.operation u ≡ some u)
      → is_blank c.id ≡ false
      → str_eq r.id c.id ≡ true
      → (let valid = result_for validate transport (working fingerprint) c r r.outcome in
          transport valid ≡ some valid)
      → let valid = result_for validate transport (working fingerprint) c r r.outcome in
        let after = record_command_result validate transport (working fingerprint) c r storage in
        let during = record_command_executing validate transport (working fingerprint) c storage in
        (after.0 ≡ done)
        × (load validate transport fingerprint after.1 ≡ (result_of valid, after.1))
        × ((load validate transport fingerprint during.1).0
            ≡ result_of (outcome_unknown_for c.id "MV3 worker stopped during command execution"))
  load-record c r storage again named e kept =
      let valid = result_for validate transport (working fingerprint) c r r.outcome in
      let after = record_command_result_kept c r storage named e kept in
      (
        ap (λ t. t.0) after,
        subst (λ y. load validate transport fingerprint y ≡ (result_of valid, y))
            (ap (λ t. t.1) (sym after))
            (load-recorded c r r.outcome again (same_id r.id c.id e) refl),
        load-interrupted c storage named,
      )
