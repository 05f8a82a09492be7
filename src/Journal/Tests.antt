-- ===== src/Journal/Tests.antt =====
-- Runs of the command journal (extensions/chrome/src/browser/command-journal.ts) at concrete inputs.
use pipee.Base.{ℕ, ◌≡◌, refl, true, false, Option, none, some, [], ◌∷◌, ltb, if◌then◌else◌, arith}
use pipee.Journal.{
  WireCommand, is_blank, WireResult, succeeded, Stored, entry, is_executing, executing, done,
  result_of, outcome_unknown_for, record_command_result, record_command_executing, result_for,
  recover, load_command_journal, load_stored,
}
use pipee.Journal.Loads.{working, load, IsExplained, load_command_journal-settles}
use pipee.Journal.Records.{load-record}
use pipee.Journal.Turns.{Turn, World, returned, connector_runtime_step}
use pipee.Journal.Delivered.{Delivers, executed-answered}

-- An operation with a limit is content with a value up to it.
abbrev valid : ℕ → ℕ → Option ℕ
valid limit v = if ltb limit v then none else some v

abbrev kept : WireResult ℕ → Option (WireResult ℕ)
kept r = some r

abbrev command : WireCommand ℕ
command = record { id = "c"; operation = 9 }

abbrev answer : WireResult ℕ
answer = record { id = "c"; outcome = succeeded 7 }

abbrev interrupted : Option (Stored ℕ ℕ)
interrupted = some (
    entry (record {
      protocol_fingerprint = "v1";
      command_id = "c";
      state = is_executing;
      payload = executing command;
    }))

load_command_journal-settles_example :
    (load valid kept "v1" (load valid kept "v1" interrupted).1 ≡ load valid kept "v1" interrupted)
    × IsExplained valid kept "v1" interrupted (load valid kept "v1" interrupted).0
unfolding is_blank
load_command_journal-settles_example = load_command_journal-settles valid kept "v1" interrupted refl

load-record_example :
    let r = result_for valid kept (working "v1") command answer answer.outcome in
    let after = record_command_result valid kept (working "v1") command answer none in
    let during = record_command_executing valid kept (working "v1") command none in
    (after.0 ≡ done)
    × (load valid kept "v1" after.1 ≡ (result_of r, after.1))
    × ((load valid kept "v1" during.1).0
        ≡ result_of (outcome_unknown_for "c" "MV3 worker stopped during command execution"))
unfolding is_blank
load-record_example =
    load-record valid kept "v1" command answer none (λ w u e. ground (arith, e)) refl refl refl

-- The protocol has changed since the result was recorded.
changed :
    (load valid kept "v2" (record_command_result valid kept (working "v1") command answer none).1).0
    ≡ result_of (outcome_unknown_for "c" "journal protocol fingerprint changed")
unfolding record_command_result recover load_command_journal load_stored is_blank
changed = refl

-- The worker stops while the command is executed, and nothing can be stored afterwards.
abbrev cut_short : Turn ℕ ℕ
cut_short = record {
  connects = true;
  host = working "v1";
  delivers = true;
  received = some command;
  stops = true;
  dispatched = returned 7;
  later_host = record { reads = false; saves = false; fingerprint = none };
}

abbrev resumed : Turn ℕ ℕ
resumed = record cut_short { host = working "v2"; received = none }

abbrev idle : World ℕ ℕ
idle = record { storage = none; executed = []; delivered = [] }

executed-answered_example :
    let u = connector_runtime_step valid kept cut_short idle in
    let v = connector_runtime_step valid kept resumed u in
    (u.executed ≡ "c" ∷ []) × (u.delivered ≡ []) × Delivers valid kept "c" u v
unfolding is_blank
executed-answered_example =
    executed-answered valid kept cut_short resumed "v1" "v2" command idle refl refl refl refl refl
      refl refl refl
