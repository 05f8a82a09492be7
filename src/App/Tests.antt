-- ===== src/App/Tests.antt =====
-- Runs of the parts of the application at concrete inputs.
use pipee.Base.{◌≡◌, ◌≤◌, refl, false, List, [], ◌∷◌, String, arith}
use pipee.App.Slot
use pipee.App.Slot.{
  OperationKind, prompt, bash, compaction, OperationSlot, idle, active, starting, begins, activates,
  releases, Event, steps, step, begin, activate, release, owns, run, granted, steps-excludes,
  run_brackets,
}
use pipee.App.Notices.{
  NoticeItem, NoticeState, NoticeAction, info, app, add, remove, notice_reducer, reduce,
  mark_exiting, fill_visible_notices,
}
use pipee.App.Notices.Room.{IsFilled}
use pipee.App.Notices.Ids.{held, reduce-keeps}

-- Another prompt begins, and releases what it does not hold.
abbrev meddling : List Event
meddling = begins bash "b" ∷ activates prompt "z" ∷ releases bash "b" ∷ []

steps-excludes_example :
    begin compaction "c" (steps meddling (active prompt "a"))
    ≡ (Slot.busy prompt, steps meddling (active prompt "a"))
unfolding owns
steps-excludes_example =
    steps-excludes prompt compaction "a" "c" meddling (active prompt "a") refl refl

run_brackets_example :
    (run prompt "a" meddling idle ≡ (granted, idle))
    × (run prompt "a" meddling (starting bash "b") ≡ (Slot.busy bash, starting bash "b"))
unfolding owns
run_brackets_example = run_brackets prompt bash "a" "b" meddling (starting bash "b") refl refl

-- A release by the holder frees the slot for the next operation.
release_frees :
    steps (begins prompt "a" ∷ releases prompt "a" ∷ begins bash "b" ∷ []) idle ≡ starting bash "b"
unfolding steps step begin release owns
release_frees = refl

abbrev note : String → NoticeItem
note i = record { id = i; message = "saved"; kind = info; source = app; exiting = false }

abbrev blank : NoticeState
blank = record { visible = []; pending = [] }

abbrev busy_day : List NoticeAction
busy_day =
    add (note "1")
    ∷ add (note "2")
    ∷ add (note "3")
    ∷ add (note "4")
    ∷ add (note "5")
    ∷ add (note "6")
    ∷ remove "1"
    ∷ []

-- The fifth notice waits until the first has left.
fifth_waits :
    reduce blank busy_day
    ≡ record { visible = note "2" ∷ note "3" ∷ note "4" ∷ note "5" ∷ []; pending = note "6" ∷ [] }
unfolding reduce notice_reducer mark_exiting fill_visible_notices
fifth_waits = refl

reduce-keeps_example :
    IsFilled (reduce blank (add (note "5") ∷ busy_day))
    × (held "5" (reduce blank (add (note "5") ∷ busy_day)) ≤ 1)
reduce-keeps_example =
    reduce-keeps "5" (add (note "5") ∷ busy_day) blank
      (record { at_most = omega arith; waits_for_room = λ w. absurd (omega arith) }) (omega arith)
