-- ===== src/Loop/Requests/Asked.antt =====
-- What the schedule of a request asks of its loop (extensions/loop/src/application/operations.ts).
use pipee.Base.{
  ℕ, ◌+◌, ◌*◌, ◌≤◌, ◌<◌, ◌≡◌, Bool, true, false, Option, none, some, String, arith, ◌==◌, inl, inr,
  Bool-cases, ==_iff,
}
use pipee.Loop.Model.{Loop, once, cron, interval, manual, Retention, session, LoopConfig, waiting}
use pipee.Loop.Runtime.{Runtime}
use pipee.Loop.Cron.Parse.{ParsedCron, parse_cron}
use pipee.Loop.Cron.Instant.{hits, start_of, search_span}
use pipee.Loop.Cron.Search.{IsFirst}
use pipee.Loop.Requests.{Numbers, LoopScheduleInput, every, at_cron, after_delay, dynamic, until_of}

-- A recurring loop ends after the configured age, or never where that is 0.
pub data Expires (config : LoopConfig) (created : ℕ) (until : Option ℕ) : Type 0 where
  never : config.recurring_max_age_ms ≡ 0 → until ≡ none → Expires config created until
  after_age :
      0 < config.recurring_max_age_ms
      → until ≡ some (created + config.recurring_max_age_ms)
      → Expires config created until

pub until_of-Expires :
    (config : LoopConfig) (created : ℕ) → Expires config created (until_of config created)
until_of-Expires config created = elim (Bool-cases (config.recurring_max_age_ms == 0)) [
  | inl ageless ↦ never ((==_iff config.recurring_max_age_ms 0).0 ageless) (ground (arith, ageless))
  | inr aged ↦ after_age (ground (arith, aged)) (ground (arith, aged))
]

-- The time of the first occurrence: at once if the request says so, else after a period.
abbrev pub first_due : ℕ → Bool → ℕ → ℕ
first_due created true period = created
first_due created false period = created + period

module _ {Seconds : Type 0} (numbers : Numbers Seconds) (rt : Runtime) (config : LoopConfig)
    (asked : Retention) (created : ℕ) where
  -- An interval of at least a second, with the configured jitter.
  abbrev pub IsEvery : Seconds → Bool → Loop → Type 0
  IsEvery seconds now (interval b r spec until w) =
      (numbers.safe_ms seconds ≡ some spec.period_ms)
      × (1000 ≤ spec.period_ms)
      × (spec.jitter_fraction ≡ config.recurring_jitter_fraction)
      × (spec.jitter_cap_ms ≡ config.recurring_jitter_cap_ms)
      × Expires config created until
      × (w.due_at ≡ first_due created now spec.period_ms)
  IsEvery seconds now (once b r w) = ⊥
  IsEvery seconds now (cron b r spec until w) = ⊥
  IsEvery seconds now (manual b p) = ⊥

  -- The first occurrence is in the first minute after the creation that matches the expression,
  -- later by at most the jitter.
  abbrev pub IsAt : String → Loop → Type 0
  IsAt expression (cron b r spec until w) =
      (spec.expression ≡ expression)
      × (spec.time_zone ≡ config.time_zone)
      × (spec.jitter_fraction ≡ config.recurring_jitter_fraction)
      × (spec.jitter_cap_ms ≡ config.recurring_jitter_cap_ms)
      × Expires config created until
      × ((parsed : ParsedCron) × (base : ℕ) × (parse_cron expression ≡ some parsed)
          × IsFirst (hits rt parsed config.time_zone) (start_of created)
              (start_of created + search_span) base
          × (base ≤ w.due_at)
          × (w.due_at ≤ base + config.recurring_jitter_cap_ms))
  IsAt expression (once b r w) = ⊥
  IsAt expression (interval b r spec until w) = ⊥
  IsAt expression (manual b p) = ⊥

  -- Once, after at least a second.
  abbrev pub IsAfter : Seconds → Loop → Type 0
  IsAfter seconds (once b r w) =
      (delay : ℕ) × (numbers.safe_whole seconds ≡ some delay)
      × (1 ≤ delay)
      × (w.due_at ≡ created + delay * 1000)
  IsAfter seconds (cron b r spec until w) = ⊥
  IsAfter seconds (interval b r spec until w) = ⊥
  IsAfter seconds (manual b p) = ⊥

  -- At once, and then when it is armed again; for a session only.
  abbrev pub IsManual : Loop → Type 0
  IsManual (manual b p) =
      (asked ≡ session) × (p ≡ waiting (record { due_at = created; cursor = 0 }))
  IsManual (once b r w) = ⊥
  IsManual (cron b r spec until w) = ⊥
  IsManual (interval b r spec until w) = ⊥

  abbrev pub IsAsked : LoopScheduleInput Seconds → Loop → Type 0
  IsAsked (every seconds now) l = IsEvery seconds now l
  IsAsked (at_cron expression) l = IsAt expression l
  IsAsked (after_delay seconds) l = IsAfter seconds l
  IsAsked dynamic l = IsManual l
