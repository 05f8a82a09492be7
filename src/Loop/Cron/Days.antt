-- ===== src/Loop/Cron/Days.antt =====
-- How `matches` reads the two day fields (extensions/loop/src/domain/cron.ts).
use pipee.Base.{◌≡◌, true, false, Option, some, ℕ, List, [], ◌∷◌, arith}
use pipee.Loop.Cron.Parse.{Field, ParsedCron, is_digits, is_wildcard, parse_field}
use pipee.Loop.Cron.Instant.{LocalParts, matches}

-- A parsed field counts as a wildcard exactly if its text has that form.
parse_field-wildcard :
    (source : List ℕ) (minimum maximum : ℕ) (f : Field)
    → parse_field source minimum maximum ≡ some f
    → f.wildcard ≡ is_wildcard source
unfolding parse_field
parse_field-wildcard source minimum maximum f e = ground arith

-- The texts `*` and `*` with a step.
abbrev pub star : List ℕ
star = b'*' ∷ []

abbrev pub star_with_step : List ℕ → List ℕ
star_with_step digits = b'*' ∷ b'/' ∷ digits

stepped-wildcard :
    (digits : List ℕ) (minimum maximum : ℕ) (f : Field)
    → is_digits digits ≡ true
    → parse_field (star_with_step digits) minimum maximum ≡ some f
    → f.wildcard ≡ true
stepped-wildcard digits minimum maximum f n e =
    ground (arith, n, parse_field-wildcard (star_with_step digits) minimum maximum f e)

-- A step in a day field is without effect. An expression with `*/n` as its day of the month matches
-- as it does with `*`, whatever the day of the month is. If its day of the month is restricted, an
-- expression with `*/n` as its day of the week matches as it does with `*`, whatever the day of the
-- week is.
pub matches-skips_day :
    (digits : List ℕ) (day every_day weekday every_weekday : Field) (cron : ParsedCron)
    (parts : LocalParts) (d : Option ℕ) (w : ℕ)
    → is_digits digits ≡ true
    → parse_field (star_with_step digits) 1 31 ≡ some day
    → parse_field star 1 31 ≡ some every_day
    → parse_field (star_with_step digits) 0 6 ≡ some weekday
    → parse_field star 0 6 ≡ some every_weekday
    → cron.day_of_month.wildcard ≡ false
    → (matches (record cron { day_of_month = day }) (record parts { day_of_month = d })
        ≡ matches (record cron { day_of_month = every_day }) parts)
      × (matches (record cron { day_of_week = weekday }) (record parts { day_of_week = w })
          ≡ matches (record cron { day_of_week = every_weekday }) parts)
unfolding matches
matches-skips_day digits day every_day weekday every_weekday cron parts d w n e f g h restricted = (
  ground (arith, stepped-wildcard digits 1 31 day n e, parse_field-wildcard star 1 31 every_day f),
  ground (
    arith,
    restricted,
    stepped-wildcard digits 0 6 weekday n g,
    parse_field-wildcard star 0 6 every_weekday h,
  ),
)
