-- ===== src/Loop/Requests/Built.antt =====
-- What a request that is accepted makes.
use pipee.Base.{
  ℕ, ◌+◌, ◌*◌, ◌≤◌, ◌≡◌, refl, Bool, true, false, Option, none, some, String, arith, Result, ok,
  err, ltb, inl, inr, Option-cases, if_cases, subst, sym, if◌then◌else◌,
}
use pipee.Loop.Model.{
  Loop, fields, retention, Retention, session, project, LoopConfig, phase, waiting, create_loop,
  create_interval, create_once,
}
use pipee.Loop.Runtime.{Runtime}
use pipee.Loop.Cron.Parse.{ParsedCron, parse_cron}
use pipee.Loop.Cron.Instant.{next_cron_instant, next_cron_due}
use pipee.Loop.Cron.Search.{next_cron_instant-IsFirst, next_cron_instant-lt, next_cron_due_bounds}
use pipee.Loop.Requests.Asked.{IsAsked, first_due, until_of-Expires}
use pipee.Loop.Transition.Claims.{HasPeriod}
use pipee.Loop.Requests.{
  Numbers, LoopScheduleInput, every, at_cron, after_delay, dynamic, CreateLoopInput, cron_spec,
  build_every, build_cron, build_once, build_dynamic, build_schedule, build_loop, until_of, or_else,
  invalid_schedule, delay_out_of_range,
}

-- A loop that is new: it has what the request says, waits with cursor 0 for a time not before its
-- creation, and its period is positive if it has one.
-- It is of the kind and has the schedule that the request asks for.
pub record IsNew {Seconds : Type 0} (numbers : Numbers Seconds) (rt : Runtime) (config : LoopConfig)
    (input : CreateLoopInput Seconds) (schedule : LoopScheduleInput Seconds) (id : String)
    (created : ℕ) (l : Loop) : Type 0 where
  pub settings : fields l ≡ record {
    id = id;
    prompt = input.prompt;
    created_at = created;
    enabled = true;
    manual_cursor = 0;
    label = input.label;
  }
  pub kept_retention : retention l ≡ input.retention
  pub as_asked : IsAsked numbers rt config input.retention created schedule l
  pub has_period : HasPeriod l
  pub due : ℕ
  pub waits : phase l ≡ waiting (record { due_at = due; cursor = 0 })
  pub not_past : created ≤ due

first_due-if :
    (created : ℕ) (now : Bool) (period : ℕ)
    → (if now then created else created + period) ≡ first_due created now period
first_due-if created true period = refl
first_due-if created false period = refl

-- An accepted result has the property.
abbrev Accepts {ℓ κ} : {E : Type ℓ} {A : Type κ} → (A → Type 0) → Result E A → Type 0
Accepts P (err e) = Unit {0}
Accepts P (ok a) = P a

module _ {Seconds : Type 0} (numbers : Numbers Seconds) (rt : Runtime) (config : LoopConfig)
    (input : CreateLoopInput Seconds) (id : String) (created : ℕ) where
  build_every-IsNew :
      (seconds : Seconds) (now : Bool) (ms : Option ℕ)
      → numbers.safe_ms seconds ≡ ms
      → Accepts
          (IsNew numbers rt config input (every seconds now) id created)
          (build_every numbers rt config input id created seconds now ms)
  unfolding build_every create_loop
  build_every-IsNew seconds now none given = tt
  build_every-IsNew seconds now (some period) given =
      if_cases (Accepts (IsNew numbers rt config input (every seconds now) id created))
        (ltb period 1000) (err (invalid_schedule (numbers.shown seconds)))
        (ok (
          create_loop (
            create_interval id input.prompt input.retention created
              (if now then created else created + period)
              (record {
                period_ms = period;
                jitter_fraction = config.recurring_jitter_fraction;
                jitter_cap_ms = config.recurring_jitter_cap_ms;
              })
              (until_of config created) input.label)))
        (λ low. tt)
        (λ fine. record {
          settings = refl;
          kept_retention = refl;
          as_asked = (
            given,
            ground (arith, fine),
            refl,
            refl,
            until_of-Expires config created,
            first_due-if created now period,
          );
          has_period = ground arith;
          due = if now then created else created + period;
          waits = refl;
          not_past = ground arith;
        })

  build_once-IsNew :
      (seconds : Seconds) (delay : Option ℕ)
      → numbers.safe_whole seconds ≡ delay
      → Accepts
          (IsNew numbers rt config input (after_delay seconds) id created)
          (build_once numbers rt config input id created seconds delay)
  unfolding build_once create_loop
  build_once-IsNew seconds none given = tt
  build_once-IsNew seconds (some delay) given =
      if_cases (Accepts (IsNew numbers rt config input (after_delay seconds) id created))
        (ltb delay 1) (err (delay_out_of_range seconds))
        (ok (
          create_loop (
            create_once id input.prompt input.retention created (created + delay * 1000)
              input.label)))
        (λ low. tt)
        (λ fine. record {
          settings = refl;
          kept_retention = refl;
          as_asked = (delay, given, ground (arith, fine), refl);
          has_period = tt;
          due = created + delay * 1000;
          waits = refl;
          not_past = omega arith;
        })

  build_dynamic-IsNew :
      (r : Retention)
      → input.retention ≡ r
      → Accepts
          (IsNew numbers rt config input dynamic id created)
          (build_dynamic numbers rt config input id created r)
  unfolding build_dynamic create_loop
  build_dynamic-IsNew project e = tt
  build_dynamic-IsNew session e = record {
    settings = refl;
    kept_retention = sym e;
    as_asked = (e, refl);
    has_period = tt;
    due = created;
    waits = refl;
    not_past = omega arith;
  }

  -- The due time of a cron loop: after the creation, from the instant on, within the jitter.
  cron_due_bounds :
      (expression : String) (base : ℕ) (due : Option ℕ)
      → next_cron_instant rt (cron_spec expression config) created ≡ some base
      → next_cron_due rt (cron_spec expression config) created id 0 ≡ due
      → (created ≤ or_else due base)
        × (base ≤ or_else due base)
        × (or_else due base ≤ base + config.recurring_jitter_cap_ms)
  cron_due_bounds expression base none found e =
      let later = next_cron_instant-lt rt (cron_spec expression config) created base found in
      (omega (arith, later), omega arith, omega arith)
  cron_due_bounds expression base (some due) found e =
      let (b, at, later, above, within) =
        next_cron_due_bounds rt (cron_spec expression config) created id 0 due e in
      let same : b ≡ base = cc (at, found) in
      (omega (arith, later), omega (arith, above, same), omega (arith, within, same))

  build_cron-IsNew :
      (expression : String) (parsed : ParsedCron) (base : Option ℕ)
      → parse_cron expression ≡ some parsed
      → next_cron_instant rt (cron_spec expression config) created ≡ base
      → Accepts
          (IsNew numbers rt config input (at_cron expression) id created)
          (build_cron numbers rt config input id created expression base)
  unfolding build_cron create_loop
  build_cron-IsNew expression parsed none parses e = tt
  build_cron-IsNew expression parsed (some base) parses e =
      let spec = cron_spec expression config in
      let bounds = cron_due_bounds expression base (next_cron_due rt spec created id 0) e refl in
      record {
        settings = refl;
        kept_retention = refl;
        as_asked = (
          refl,
          refl,
          refl,
          refl,
          until_of-Expires config created,
          (
            parsed,
            base,
            parses,
            (next_cron_instant-IsFirst rt spec created parses base e).0,
            bounds.1,
            bounds.2,
          ),
        );
        has_period = tt;
        due = or_else (next_cron_due rt spec created id 0) base;
        waits = refl;
        not_past = bounds.0;
      }

  build_schedule-IsNew :
      (s : LoopScheduleInput Seconds)
      → Accepts
          (IsNew numbers rt config input s id created)
          (build_schedule numbers rt config s input id created)
  unfolding build_schedule
  build_schedule-IsNew (every seconds now) =
      build_every-IsNew seconds now (numbers.safe_ms seconds) refl
  build_schedule-IsNew (at_cron expression) = elim (Option-cases (parse_cron expression)) [
    | inl bad ↦ rw (bad, build_schedule) tt
    | inr (parsed, good) ↦
        rw (good, build_schedule)
          (build_cron-IsNew expression parsed
            (next_cron_instant rt (cron_spec expression config) created) good refl)
  ]
  build_schedule-IsNew (after_delay seconds) =
      build_once-IsNew seconds (numbers.safe_whole seconds) refl
  build_schedule-IsNew dynamic = build_dynamic-IsNew input.retention refl

  -- A request that is accepted makes a loop with the identifier, prompt, label and retention that it
  -- asks for, enabled, which waits with cursor 0 for a time not before its creation. It is of the kind
  -- that the request asks for. A period makes an interval of that many milliseconds, at least a
  -- second, first due at the creation if it runs immediately and else a period later. An expression
  -- makes a cron loop in the configured zone, first due in the first matching minute after the
  -- creation or later by at most the cap of the jitter. A delay of at least a second makes a loop that
  -- runs once, that many seconds later. A dynamic request makes a manual loop of the session, due at
  -- once. The first two have the configured jitter, and end after the configured age, if it is not 0.
  pub build_loop-IsNew :
      (l : Loop)
      → build_loop numbers rt config input id created ≡ ok l
      → IsNew numbers rt config input input.schedule id created l
  unfolding build_loop
  build_loop-IsNew l e =
      subst (Accepts (IsNew numbers rt config input input.schedule id created)) e
        (build_schedule-IsNew input.schedule)
