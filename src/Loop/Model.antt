-- ===== src/Loop/Model.antt =====
-- extensions/loop/src/domain/model.ts: loops, their phases and occurrences.
-- A fraction is a finite double in [0, 1], as `num / 2 ^ exp`. `missed` has one value and is left out.
use pipee.Base.{ℕ, ◌*◌, String, Bool, true, false, Option}
use pipee.Base.Text.{◌<>◌}

pub data Retention : Type 0 where
  session project : Retention

abbrev pub same_retention : Retention → Retention → Bool
same_retention session session = true
same_retention project project = true
same_retention session project = false
same_retention project session = false

pub record Fraction : Type 0 where
  pub num : ℕ
  pub exp : ℕ

pub record CronSpec : Type 0 where
  pub expression : String
  pub time_zone : String
  pub jitter_fraction : Fraction
  pub jitter_cap_ms : ℕ

pub record IntervalSpec : Type 0 where
  pub period_ms : ℕ
  pub jitter_fraction : Fraction
  pub jitter_cap_ms : ℕ

pub record Waiting : Type 0 where
  pub due_at : ℕ
  pub cursor : ℕ

-- The union of `Waiting` and `AwaitingArm`.
pub data Phase : Type 0 where
  waiting : Waiting → Phase
  awaiting_arm : ℕ → Phase

pub record BaseFields : Type 0 where
  pub id : String
  pub prompt : String
  pub created_at : ℕ
  pub enabled : Bool
  pub manual_cursor : ℕ
  pub label : Option String

-- The retention of a manual loop is the literal "session".
pub data Loop : Type 0 where
  once : BaseFields → Retention → Waiting → Loop
  cron : BaseFields → Retention → CronSpec → Option ℕ → Waiting → Loop
  interval : BaseFields → Retention → IntervalSpec → Option ℕ → Waiting → Loop
  manual : BaseFields → Phase → Loop

abbrev pub fields : Loop → BaseFields
fields (once b r w) = b
fields (cron b r s u w) = b
fields (interval b r s u w) = b
fields (manual b p) = b

abbrev pub retention : Loop → Retention
retention (once b r w) = r
retention (cron b r s u w) = r
retention (interval b r s u w) = r
retention (manual b p) = session

abbrev pub phase : Loop → Phase
phase (once b r w) = waiting w
phase (cron b r s u w) = waiting w
phase (interval b r s u w) = waiting w
phase (manual b p) = p

abbrev pub phase_cursor : Phase → ℕ
phase_cursor (waiting w) = w.cursor
phase_cursor (awaiting_arm c) = c

abbrev pub cursor : Loop → ℕ
cursor l = phase_cursor (phase l)

abbrev pub loop_id : Loop → String
loop_id l = (fields l).id

-- `{ ...loop, <base fields> }`
abbrev pub with_fields : Loop → BaseFields → Loop
with_fields (once _ r w) b = once b r w
with_fields (cron _ r s u w) b = cron b r s u w
with_fields (interval _ r s u w) b = interval b r s u w
with_fields (manual _ p) b = manual b p

pub data Trigger : Type 0 where
  scheduled manually : Trigger

pub record Occurrence : Type 0 where
  pub id : String
  pub loop_id : String
  pub cursor : ℕ
  pub prompt : String
  pub due_at : ℕ
  pub claimed_at : ℕ
  pub trigger : Trigger

pub record LoopConfig : Type 0 where
  pub max_loops : ℕ
  pub recurring_max_age_ms : ℕ
  pub recurring_jitter_fraction : Fraction
  pub recurring_jitter_cap_ms : ℕ
  pub check_interval_ms : ℕ
  pub durable_file_path : String
  pub time_zone : String

-- `DEFAULT_CONFIG`; the time zone is the one that the runtime resolves.
abbrev default_config : String → LoopConfig
default_config resolved = record {
  max_loops = 50;
  recurring_max_age_ms = 7 * 24 * 60 * 60 * 1000;
  recurring_jitter_fraction = record { num = 1; exp = 1 };
  recurring_jitter_cap_ms = 30 * 60 * 1000;
  check_interval_ms = 1000;
  durable_file_path = ".pi-loop.json";
  time_zone = resolved;
}

pub data CreateLoop : Type 0 where
  create_once :
      (id prompt : String) → Retention → (created_at due_at : ℕ) → Option String → CreateLoop
  create_cron :
      (id prompt : String)
      → Retention
      → (created_at first_due_at : ℕ) → CronSpec
      → Option ℕ
      → Option String
      → CreateLoop
  create_interval :
      (id prompt : String)
      → Retention
      → (created_at first_due_at : ℕ) → IntervalSpec
      → Option ℕ
      → Option String
      → CreateLoop
  create_manual : (id prompt : String) → (created_at first_due_at : ℕ) → Option String → CreateLoop

abbrev common : String → String → ℕ → Option String → BaseFields
common id prompt created_at label = record {
  id = id;
  prompt = prompt;
  created_at = created_at;
  enabled = true;
  manual_cursor = 0;
  label = label;
}

abbrev first_wait : ℕ → Waiting
first_wait due = record { due_at = due; cursor = 0 }

unfoldable pub create_loop : CreateLoop → Loop
create_loop (create_once id prompt r created due label) =
    once (common id prompt created label) r (first_wait due)
create_loop (create_cron id prompt r created due spec until label) =
    cron (common id prompt created label) r spec until (first_wait due)
create_loop (create_interval id prompt r created due spec until label) =
    interval (common id prompt created label) r spec until (first_wait due)
create_loop (create_manual id prompt created due label) =
    manual (common id prompt created label) (waiting (first_wait due))

-- A template literal; the two line breaks stand before the bracket.
abbrev dynamic_instruction : String → String
dynamic_instruction id =
    "\n\n[pi-loop: dynamic loop " <> id <> ". After this iteration call "
    <> "schedule_wakeup with loopId \"" <> id <> "\" and a delay of 60-3600 seconds. "
    <> "Omit the call to stop.]"

abbrev pub occurrence_prompt : Loop → String
occurrence_prompt (manual b p) = b.prompt <> dynamic_instruction b.id
occurrence_prompt (once b r w) = b.prompt
occurrence_prompt (cron b r s u w) = b.prompt
occurrence_prompt (interval b r s u w) = b.prompt
