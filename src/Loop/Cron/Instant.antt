-- ===== src/Loop/Cron/Instant.antt =====
-- `localParts`, `matches`, `nextCronInstant` and `nextCronDue` of
-- extensions/loop/src/domain/cron.ts. Instants are milliseconds, not negative.
use Prim.Native.Nat.{bit_xor}
use pipee.Base.{
  ℕ, zero, suc, ◌+◌, ◌-◌, ◌*◌, ◌/◌, ◌%◌, ◌^◌, min, Bool, false, ◌&&◌, ◌||◌, Option, none, some,
  List, [], ◌∷◌, String, str_eq, ltb, if◌then◌else◌,
}
use pipee.Base.Text.{codes, show, ◌<>◌}
use pipee.Loop.Model.{CronSpec, Fraction}
use pipee.Loop.Runtime.{Runtime}
use pipee.Loop.Cron.Parse.{Field, ParsedCron, has_value, is_digits, number, parse_cron}

-- A number field is `none` where `Number` gives NaN, which no set holds.
pub record LocalParts : Type 0 where
  pub minute : Option ℕ
  pub hour : Option ℕ
  pub day_of_month : Option ℕ
  pub month : Option ℕ
  pub day_of_week : ℕ

abbrev weekday : String → Option ℕ
weekday name =
    if str_eq name "Sun"
    then some 0
    else if str_eq name "Mon"
    then some 1
    else if str_eq name "Tue"
    then some 2
    else if str_eq name "Wed"
    then some 3
    else if str_eq name "Thu"
    then some 4
    else if str_eq name "Fri"
    then some 5
    else if str_eq name "Sat"
    then some 6
    else none

-- `new Map(pairs).get(type)`: the last pair with the key wins.
by_type : String → List (String × String) → Option String
by_type type [] = none
by_type type ((t, v) ∷ parts) = elim (by_type type parts) [
  | some w ↦ some w
  | none ↦ if str_eq t type then some v else none
]

-- `Number` of a formatted two-digit part.
part_number : Option String → Option ℕ
part_number none = none
part_number (some text) = if is_digits (codes text) then some (number (codes text)) else none

or_blank : Option String → String
or_blank none = ""
or_blank (some s) = s

unfoldable pub local_parts : Runtime → String → ℕ → Option LocalParts
unfolding by_type part_number or_blank
local_parts rt zone instant =
    let parts = rt.format_to_parts zone instant in
    elim (weekday (or_blank (by_type "weekday" parts))) [
      | none ↦ none
      | some day ↦ some (record {
        minute = part_number (by_type "minute" parts);
        hour = part_number (by_type "hour" parts);
        day_of_month = part_number (by_type "day" parts);
        month = part_number (by_type "month" parts);
        day_of_week = day;
      })
    ]

abbrev pub holds : Field → Option ℕ → Bool
holds f none = false
holds f (some v) = has_value v f.values

unfoldable pub matches : ParsedCron → LocalParts → Bool
matches cron parts =
    let month_day = holds cron.day_of_month parts.day_of_month in
    let week_day = has_value parts.day_of_week cron.day_of_week.values in
    let day =
      if cron.day_of_month.wildcard
      then week_day
      else if cron.day_of_week.wildcard
      then month_day
      else month_day || week_day in
    holds cron.minute parts.minute
    && (holds cron.hour parts.hour && (holds cron.month parts.month && day))

-- The test of the loop at one candidate.
unfoldable pub hits : Runtime → ParsedCron → String → ℕ → Bool
hits rt parsed zone candidate = elim (local_parts rt zone candidate) [
  | none ↦ false
  | some parts ↦ matches parsed parts
]

-- `for (candidate = start; candidate < limit; candidate += 60_000)`, on fuel.
unfoldable pub scan : (ℕ → Bool) → ℕ → ℕ → ℕ → Option ℕ
scan test zero candidate limit = none
scan test (suc fuel) candidate limit =
    let rest = scan test fuel (candidate + 60000) limit in
    if ltb candidate limit then (if test candidate then some candidate else rest) else none

-- The first whole minute after an instant.
abbrev pub start_of : ℕ → ℕ
start_of after = after / 60000 * 60000 + 60000

abbrev pub search_span : ℕ
search_span = 366 * 24 * 60 * 60 * 1000

-- One round for each minute of the span, and one for the last test.
unfoldable pub scan_rounds : ℕ
scan_rounds = suc (366 * 24 * 60)

unfoldable pub next_cron_instant : Runtime → CronSpec → ℕ → Option ℕ
next_cron_instant rt spec after = elim (parse_cron spec.expression) [
  | none ↦ none
  | some parsed ↦
      scan (hits rt parsed spec.time_zone) scan_rounds (start_of after)
        (start_of after + search_span)
]

-- `character.charCodeAt(0)`: the first UTF-16 unit of a code point.
first_unit : ℕ → ℕ
first_unit c = if ltb c 0x10000 then c else 0xd800 + (c - 0x10000) / 1024

hash_from : ℕ → List ℕ → ℕ
hash_from hash [] = hash
hash_from hash (c ∷ cs) = hash_from (bit_xor hash (first_unit c) * 0x01000193 % 2 ^ 32) cs

-- The numerator of `stableFraction` over 2 ^ 32: FNV-1a, the bit pattern of `hash >>> 0`.
unfoldable pub stable_hash : String → ℕ
unfolding hash_from first_unit
stable_hash seed = hash_from 0x811c9dc5 (codes seed)

abbrev pub seed_of : String → ℕ → String
seed_of loop_id cursor = loop_id <> ":" <> show cursor

-- `Math.floor(Math.min(stableFraction(seed) * fraction * span, cap))`; the cap is an integer.
unfoldable pub jitter : Runtime → String → ℕ → Fraction → ℕ → ℕ → ℕ
jitter rt loop_id cursor fraction span cap =
    min (rt.floor_scaled (stable_hash (seed_of loop_id cursor)) fraction span) cap

unfoldable pub next_cron_due : Runtime → CronSpec → ℕ → String → ℕ → Option ℕ
next_cron_due rt spec after loop_id cursor = elim (next_cron_instant rt spec after) [
  | none ↦ none
  | some base ↦ elim (next_cron_instant rt spec base) [
    | none ↦ some base
    | some following ↦
        some (
          base
          + jitter rt loop_id cursor spec.jitter_fraction (following - base) spec.jitter_cap_ms)
  ]
]
