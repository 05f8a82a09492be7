-- ===== src/Loop/Runtime.antt =====
-- What the loop extension takes from the JavaScript runtime, as a parameter.
use pipee.Base.{ℕ, String, List}
use pipee.Loop.Model.{Fraction}

pub record Runtime : Type 0 where
  -- `Intl.DateTimeFormat#formatToParts` under the options of `nextCronInstant`, by time zone and
  -- instant, as pairs of a type and a value.
  pub format_to_parts : String → ℕ → List (String × String)
  -- `Math.floor(hash / 2 ** 32 * fraction * span)` in double arithmetic.
  pub floor_scaled : ℕ → Fraction → ℕ → ℕ
