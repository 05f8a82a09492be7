-- ===== src/Loop/Requests.antt =====
-- extensions/loop/src/application/operations.ts: what a session asks of its loops. A number of
-- seconds in a request is a double, of which the model takes what `Numbers` says.
pub mod Actions
pub mod Asked
pub mod Built
pub mod Kept
mod Tests
use pipee.Base.{
  ℕ, ◌+◌, ◌*◌, Bool, true, false, Option, none, some, List, ◌++◌, String, ◌==◌, ltb, if◌then◌else◌,
  Result, ok, err,
}
use pipee.Base.Dict
use pipee.Loop.Model.{
  Loop, BaseFields, fields, with_fields, retention, same_retention, Retention, session, project,
  LoopConfig, CronSpec, IntervalSpec, CreateLoop, create_once, create_cron, create_interval,
  create_manual, create_loop,
}
use pipee.Loop.Runtime.{Runtime}
use pipee.Loop.Cron.Parse.{parse_cron}
use pipee.Loop.Cron.Instant.{next_cron_instant, next_cron_due}
use pipee.Loop.Repository.State.{
  World, Host, Settings, Outcome, done, failed, M, MutationError, loop_not_found, then_run,
}
use pipee.Loop.Repository.Operations.{add, replace, arm_loop, remove_all}

-- What doubles do, for the seconds of a request.
pub record Numbers (Seconds : Type 0) : Type 0 where
  -- `String`
  pub shown : Seconds → String
  -- `n * 1_000` where that is a safe integer and not negative.
  pub safe_ms : Seconds → Option ℕ
  -- `n` where that is a safe integer and not negative.
  pub safe_whole : Seconds → Option ℕ
  -- `Math.floor(n * 1_000)` where `n` is finite and from 60 to 3600.
  pub wakeup_ms : Seconds → Option ℕ

pub data LoopScheduleInput (Seconds : Type 0) : Type 0 where
  every : (period_seconds : Seconds) (run_immediately : Bool) → LoopScheduleInput Seconds
  at_cron : (expression : String) → LoopScheduleInput Seconds
  after_delay : (delay_seconds : Seconds) → LoopScheduleInput Seconds
  dynamic : LoopScheduleInput Seconds

pub record CreateLoopInput (Seconds : Type 0) : Type 0 where
  pub prompt : String
  pub retention : Retention
  pub schedule : LoopScheduleInput Seconds
  pub label : Option String

-- A label is absent, null (`some none`) or given.
pub record UpdateLoopInput (Seconds : Type 0) : Type 0 where
  pub id : String
  pub prompt : Option String
  pub label : Option (Option String)
  pub schedule : Option (LoopScheduleInput Seconds)

pub data InputError (Seconds : Type 0) : Type 0 where
  invalid_schedule : String → InputError Seconds
  delay_out_of_range : Seconds → InputError Seconds

abbrev pub cron_spec : String → LoopConfig → CronSpec
cron_spec expression config = record {
  expression = expression;
  time_zone = config.time_zone;
  jitter_fraction = config.recurring_jitter_fraction;
  jitter_cap_ms = config.recurring_jitter_cap_ms;
}

abbrev pub with_label : Loop → Option String → Loop
with_label l label = let b = fields l in with_fields l (record b { label = label })

-- `config.recurringMaxAgeMs === 0 ? {} : { until: … }`
abbrev pub until_of : LoopConfig → ℕ → Option ℕ
until_of config created_at =
    if config.recurring_max_age_ms == 0
    then none
    else some (created_at + config.recurring_max_age_ms)

abbrev pub or_else : Option ℕ → ℕ → ℕ
or_else none n = n
or_else (some m) n = m

-- The label that `update` gives.
abbrev pub new_label : Option (Option String) → Option String → Option String
new_label none old = old
new_label (some none) old = none
new_label (some (some label)) old = some label

abbrev pub new_prompt : Option String → String → String
new_prompt none old = old
new_prompt (some p) old = p

-- A loop that was built anew takes over what the old one had.
abbrev pub take_over : Loop → Loop → Option String → Loop
take_over old l label =
    let o = fields old in
    let b = fields l in
    with_label
      (with_fields l (record b {
        created_at = o.created_at;
        enabled = o.enabled;
        manual_cursor = o.manual_cursor;
      }))
      label

abbrev pub rebuilt :
    {Seconds : Type 0}
    → Loop
    → Option String
    → Result (InputError Seconds) Loop
    → Result (InputError Seconds) Loop
rebuilt old label (err e) = err e
rebuilt old label (ok l) = ok (take_over old l label)

module _ {Seconds : Type 0} (numbers : Numbers Seconds) (rt : Runtime) (config : LoopConfig) where
  -- `buildLoop` for a period.
  unfoldable pub build_every :
      CreateLoopInput Seconds
      → String
      → ℕ
      → Seconds
      → Bool
      → Option ℕ
      → Result (InputError Seconds) Loop
  build_every input id created seconds now none = err (invalid_schedule (numbers.shown seconds))
  build_every input id created seconds now (some period) =
      if ltb period 1000
      then err (invalid_schedule (numbers.shown seconds))
      else ok (
          create_loop (
            create_interval id input.prompt input.retention created
              (if now then created else created + period)
              (record {
                period_ms = period;
                jitter_fraction = config.recurring_jitter_fraction;
                jitter_cap_ms = config.recurring_jitter_cap_ms;
              })
              (until_of config created) input.label))

  -- `buildLoop` for an expression, once the next instant is known.
  unfoldable pub build_cron :
      CreateLoopInput Seconds → String → ℕ → String → Option ℕ → Result (InputError Seconds) Loop
  build_cron input id created expression none = err (invalid_schedule expression)
  build_cron input id created expression (some base) =
      let spec = cron_spec expression config in
      ok (
        create_loop (
          create_cron id input.prompt input.retention created
            (or_else (next_cron_due rt spec created id 0) base) spec (until_of config created)
            input.label))

  unfoldable pub build_once :
      CreateLoopInput Seconds → String → ℕ → Seconds → Option ℕ → Result (InputError Seconds) Loop
  build_once input id created seconds none = err (delay_out_of_range seconds)
  build_once input id created seconds (some delay) =
      if ltb delay 1
      then err (delay_out_of_range seconds)
      else ok (
          create_loop (
            create_once id input.prompt input.retention created (created + delay * 1000)
              input.label))

  unfoldable pub build_dynamic :
      CreateLoopInput Seconds → String → ℕ → Retention → Result (InputError Seconds) Loop
  build_dynamic input id created project = err (invalid_schedule "dynamic project loop")
  build_dynamic input id created session =
      ok (create_loop (create_manual id input.prompt created created input.label))

  unfoldable pub build_schedule :
      LoopScheduleInput Seconds
      → CreateLoopInput Seconds
      → String
      → ℕ
      → Result (InputError Seconds) Loop
  unfolding build_every build_cron build_once build_dynamic
  build_schedule (every seconds now) input id created =
      build_every input id created seconds now (numbers.safe_ms seconds)
  build_schedule (at_cron expression) input id created = elim (parse_cron expression) [
    | none ↦ err (invalid_schedule expression)
    | some parsed ↦
        build_cron input id created expression
          (next_cron_instant rt (cron_spec expression config) created)
  ]
  build_schedule (after_delay seconds) input id created =
      build_once input id created seconds (numbers.safe_whole seconds)
  build_schedule dynamic input id created = build_dynamic input id created input.retention

  -- `buildLoop`
  unfoldable pub build_loop :
      CreateLoopInput Seconds → String → ℕ → Result (InputError Seconds) Loop
  unfolding build_schedule
  build_loop input id created = build_schedule input.schedule input id created

  -- The loop with which `update` replaces the current one.
  unfoldable pub updated :
      UpdateLoopInput Seconds
      → Option (LoopScheduleInput Seconds)
      → Loop
      → ℕ
      → Result (InputError Seconds) Loop
  updated input none current now =
      let b = fields current in
      ok (
        with_label (with_fields current (record b { prompt = new_prompt input.prompt b.prompt }))
          (new_label input.label b.label))
  updated input (some schedule) current now =
      let b = fields current in
      let label = new_label input.label b.label in
      rebuilt current label (
        build_loop
          (record {
            prompt = new_prompt input.prompt b.prompt;
            retention = retention current;
            schedule = schedule;
            label = label;
          })
          b.id now)
