-- ===== src/Loop/Transition.antt =====
-- extensions/loop/src/domain/transition.ts: one tick of a loop, and arming a manual loop.
pub mod Claims
pub mod Runs
use pipee.Base.{
  ℕ, ◌+◌, min, Bool, true, false, not, ◌||◌, Option, none, some, String, ltb, leb, if◌then◌else◌,
}
use pipee.Base.Text.{show, ◌<>◌}
use pipee.Loop.Model.{
  BaseFields, Retention, CronSpec, IntervalSpec, Waiting, Phase, waiting, awaiting_arm, Loop, once,
  cron, interval, manual, fields, loop_id, phase, Occurrence, scheduled, occurrence_prompt,
}
use pipee.Loop.Runtime.{Runtime}
use pipee.Loop.Cron.Instant.{next_cron_due, jitter}

pub data Gate : Type 0 where
  opened closed : Gate

abbrev pub is_closed : Gate → Bool
is_closed closed = true
is_closed opened = false

-- `none` for the loop when it is done, `none` for the occurrence when nothing is claimed.
pub record TransitionResult : Type 0 where
  pub loop : Option Loop
  pub occurrence : Option Occurrence

unfoldable pub occurrence_of : Loop → Waiting → ℕ → Occurrence
occurrence_of l w claimed_at = record {
  id = loop_id l <> ":" <> show w.cursor;
  loop_id = loop_id l;
  cursor = w.cursor;
  prompt = occurrence_prompt l;
  due_at = w.due_at;
  claimed_at = claimed_at;
  trigger = scheduled;
}

-- `loop.until !== undefined && now >= loop.until`
abbrev pub expired : Option ℕ → ℕ → Bool
expired none now = false
expired (some until) now = leb until now

unfoldable pub advance_cron :
    Runtime → BaseFields → Retention → CronSpec → Option ℕ → Waiting → ℕ → Option Loop
advance_cron rt b r spec until w now =
    if expired until now then none else elim (next_cron_due rt spec now b.id (w.cursor + 1)) [
      | none ↦ none
      | some next ↦ some (cron b r spec until (record { due_at = next; cursor = w.cursor + 1 }))
    ]

unfoldable pub advance_interval :
    Runtime → BaseFields → Retention → IntervalSpec → Option ℕ → Waiting → ℕ → Option Loop
advance_interval rt b r spec until w now =
    if expired until now
    then none
    else let cursor = w.cursor + 1 in
      let delay = jitter rt b.id cursor spec.jitter_fraction spec.period_ms spec.jitter_cap_ms in
      some (
        interval b r spec until (record { due_at = now + spec.period_ms + delay; cursor = cursor }))

-- The `switch` of `tick`: what is left of the loop.
unfoldable pub advance : Runtime → Loop → Waiting → ℕ → Option Loop
advance rt (once b r _) w now = none
advance rt (cron b r spec until _) w now = advance_cron rt b r spec until w now
advance rt (interval b r spec until _) w now = advance_interval rt b r spec until w now
advance rt (manual b _) w now = some (manual b (awaiting_arm (w.cursor + 1)))

-- `tick` on the phase of the loop.
unfoldable pub tick_phase : Runtime → Loop → Phase → ℕ → Gate → TransitionResult
tick_phase rt l (awaiting_arm c) now gate = record { loop = some l; occurrence = none }
tick_phase rt l (waiting w) now gate =
    if not (fields l).enabled || is_closed gate || ltb now w.due_at
    then record { loop = some l; occurrence = none }
    else record { loop = advance rt l w now; occurrence = some (occurrence_of l w now) }

unfoldable pub tick : Runtime → Loop → ℕ → Gate → TransitionResult
unfolding tick_phase
tick rt l now gate = tick_phase rt l (phase l) now gate

unfoldable pub arm : Loop → ℕ → Option Loop
arm (manual b (awaiting_arm c)) at = some (manual b (waiting (record { due_at = at; cursor = c })))
arm _ at = none
