-- ===== src/Loop/Cron/Tests.antt =====
-- Runs of the cron search at concrete inputs.
use pipee.Base.{
  Option, ℕ, zero, suc, ◌+◌, ◌*◌, ◌≤◌, ◌<◌, ◌≡◌, refl, Bool, true, false, none, some, List, [], ◌∷◌,
  arith,
}
use pipee.Base.Text.{codes}
use pipee.Loop.Model.{CronSpec, Fraction}
use pipee.Loop.Runtime.{Runtime}
use pipee.Loop.Cron.Parse.{
  is_integer, space_parts, parts_values, split, step_match, range_values, range_match, number,
  run_of, stepped, Field, parse_cron, parse_field, part_values, ParsedCron,
}
use pipee.Loop.Cron.Instant.{
  LocalParts, next_cron_instant, next_cron_due, hits, scan, scan_rounds, start_of, search_span,
  local_parts, jitter, matches,
}
use pipee.Loop.Cron.Phrases.{parse_interval_ms, split_end, cron_to_human}
use pipee.Loop.Cron.Days.{matches-skips_day}
use pipee.Loop.Cron.Search.{
  IsFirst, next_cron_instant-IsFirst, next_cron_instant-none, next_cron_due_bounds,
}
use pipee.Loop.Cron.Values.{IsProgression, part_values-IsProgression}

-- A runtime whose clock always shows Monday, the first of March, 03:05, and that adds no jitter.
abbrev rt : Runtime
rt = record {
  format_to_parts = λ zone instant.
      ("weekday", "Mon") ∷ ("minute", "05") ∷ ("hour", "03") ∷ ("day", "01") ∷ ("month", "03") ∷ [];
  floor_scaled = λ hash fraction span. 0;
}

abbrev half : Fraction
half = record { num = 1; exp = 1 }

abbrev every : List ℕ → Field
every vs = record { values = vs; wildcard = true }

abbrev hour_31 : ParsedCron
hour_31 = record {
  minute = record { values = 5 ∷ []; wildcard = false };
  hour = record { values = 3 ∷ []; wildcard = false };
  day_of_month = record { values = 1 ∷ []; wildcard = false };
  month = record { values = 3 ∷ []; wildcard = false };
  day_of_week = every (0 ∷ 1 ∷ 2 ∷ 3 ∷ 4 ∷ 5 ∷ 6 ∷ []);
}

parses : parse_cron "5 3 1 3 *" ≡ some hour_31
unfolding parse_cron space_parts parse_field parts_values split part_values step_match range_values
    range_match number is_integer run_of stepped
parses = refl

refuses : parse_field (codes "60-61") 0 59 ≡ none
unfolding parse_field parts_values split part_values step_match range_values range_match number
refuses = refl

steps : part_values (codes "10-20/4") 0 59 ≡ some (10 ∷ 14 ∷ 18 ∷ [])
unfolding part_values step_match range_values range_match number is_integer run_of stepped
steps = refl

part_values-IsProgression_example : IsProgression (codes "10-20/4") 0 59 (10 ∷ 14 ∷ 18 ∷ [])
part_values-IsProgression_example =
    part_values-IsProgression (codes "10-20/4") 0 59 (10 ∷ 14 ∷ 18 ∷ []) steps

field_3 : parse_field (codes "3") 0 23 ≡ some hour_31.hour
unfolding parse_field parts_values split part_values step_match range_values range_match number
field_3 = refl

abbrev march : CronSpec
march = record {
  expression = "5 3 1 3 *";
  time_zone = "UTC";
  jitter_fraction = half;
  jitter_cap_ms = 1000;
}

finds : next_cron_instant rt march 0 ≡ some 60000
unfolding next_cron_instant scan scan_rounds hits local_parts matches number
finds = rw (parses, next_cron_instant) refl

next_cron_instant-IsFirst_example :
    IsFirst (hits rt hour_31 "UTC") 60000 (60000 + search_span) 60000 × (0 < 60000)
next_cron_instant-IsFirst_example = next_cron_instant-IsFirst rt march 0 parses 60000 finds

finds_again : next_cron_instant rt march 60000 ≡ some 120000
unfolding next_cron_instant scan scan_rounds hits local_parts matches number
finds_again = rw (parses, next_cron_instant) refl

due_at_once : next_cron_due rt march 0 "x" 1 ≡ some 60000
unfolding next_cron_due jitter
due_at_once = rw (finds, finds_again, next_cron_due) refl

next_cron_due_bounds_example :
    (base : ℕ) × (next_cron_instant rt march 0 ≡ some base)
    × (0 < 60000)
    × (base ≤ 60000)
    × (60000 ≤ base + 1000)
next_cron_due_bounds_example = next_cron_due_bounds rt march 0 "x" 1 60000 due_at_once

-- A runtime whose formatter shows no weekday.
abbrev mute : Runtime
mute = record { format_to_parts = λ zone instant. []; floor_scaled = λ hash fraction span. 0 }

scan-never :
    (test : ℕ → Bool) (fuel from limit : ℕ)
    → ((c : ℕ) → test c ≡ false)
    → scan test fuel from limit ≡ none
unfolding scan
scan-never test zero from limit h = refl
scan-never test (suc fuel) from limit h =
    ground (arith, h from, scan-never test fuel (from + 60000) limit h)

mute-none : next_cron_instant mute march 0 ≡ none
unfolding next_cron_instant hits local_parts
mute-none =
    rw (parses, next_cron_instant)
      (scan-never (hits mute hour_31 "UTC") scan_rounds (start_of 0) (start_of 0 + search_span)
        (λ c. refl))

next_cron_instant-none_example : hits mute hour_31 "UTC" (60000 + 3 * 60000) ≡ false
next_cron_instant-none_example =
    next_cron_instant-none mute march 0 parses mute-none 3 (omega arith)

abbrev monday : Option ℕ → LocalParts
monday d = record {
  minute = some 0;
  hour = some 0;
  day_of_month = d;
  month = some 3;
  day_of_week = 1;
}

-- Midnight on the first, the sixteenth and the thirty-first.
abbrev half_monthly : ParsedCron
half_monthly = record {
  minute = record { values = 0 ∷ []; wildcard = false };
  hour = record { values = 0 ∷ []; wildcard = false };
  day_of_month = every (1 ∷ 16 ∷ 31 ∷ []);
  month = every (1 ∷ 2 ∷ 3 ∷ 4 ∷ 5 ∷ 6 ∷ 7 ∷ 8 ∷ 9 ∷ 10 ∷ 11 ∷ 12 ∷ []);
  day_of_week = every (0 ∷ 1 ∷ 2 ∷ 3 ∷ 4 ∷ 5 ∷ 6 ∷ []);
}

reads_days : parse_cron "0 0 */15 * *" ≡ some half_monthly
unfolding parse_cron space_parts parse_field parts_values split part_values step_match range_values
    range_match number is_integer run_of stepped
reads_days = refl

-- It matches on the second too.
second_matches : matches half_monthly (monday (some 2)) ≡ true
unfolding matches
second_matches = refl

abbrev fifteenths : Field
fifteenths = every (1 ∷ 16 ∷ 31 ∷ [])

abbrev all_days : Field
all_days = every (
    1 ∷ 2 ∷ 3 ∷ 4 ∷ 5 ∷ 6 ∷ 7 ∷ 8 ∷ 9 ∷ 10 ∷ 11 ∷ 12 ∷ 13 ∷ 14 ∷ 15 ∷ 16 ∷ 17 ∷ 18 ∷ 19 ∷ 20 ∷ 21
    ∷ 22 ∷ 23 ∷ 24 ∷ 25 ∷ 26 ∷ 27 ∷ 28 ∷ 29 ∷ 30 ∷ 31 ∷ [])

abbrev all_weekdays : Field
all_weekdays = every (0 ∷ 1 ∷ 2 ∷ 3 ∷ 4 ∷ 5 ∷ 6 ∷ [])

matches-skips_day_example :
    (matches (record hour_31 { day_of_month = fifteenths }) (monday (some 2))
      ≡ matches (record hour_31 { day_of_month = all_days }) (monday (some 1)))
    × (matches
          (record hour_31 { day_of_week = every (0 ∷ []) })
          (record (monday (some 1)) { day_of_week = 4 })
        ≡ matches (record hour_31 { day_of_week = all_weekdays }) (monday (some 1)))
unfolding parse_field parts_values split part_values step_match range_values range_match number
    is_integer run_of stepped
matches-skips_day_example =
    matches-skips_day (codes "15") fifteenths all_days (every (0 ∷ [])) all_weekdays hour_31
      (monday (some 1)) (some 2) 4 refl refl refl refl refl refl

ninety_minutes : parse_interval_ms (codes "90m") ≡ some 5400000
unfolding parse_interval_ms split_end number is_integer
ninety_minutes = refl

reads_out : cron_to_human (codes "*/5 * * * *") ≡ codes "every 5 minutes"
unfolding cron_to_human space_parts
reads_out = refl

reads_hour : cron_to_human (codes "0 */1 * * *") ≡ codes "every 1 hour"
unfolding cron_to_human space_parts
reads_hour = refl
