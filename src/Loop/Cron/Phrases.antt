-- ===== src/Loop/Cron/Phrases.antt =====
-- `parseIntervalMs` and `cronToHuman` of extensions/loop/src/domain/cron.ts, over code points.
use pipee.Base.{
  ℕ, zero, suc, ◌*◌, ◌^◌, ◌≤◌, ◌<◌, ◌≡◌, Bool, false, not, ◌&&◌, ◌||◌, Option, none, some, List, [],
  String, ◌∷◌, ◌++◌, arith, ltb, ◌==◌, if◌then◌else◌, refl,
}
use pipee.Base.Text.{codes}
use pipee.Loop.Cron.Parse.{is_digits, is_integer, number, is_star, space_parts}

-- All but the last code point, and the last.
unfoldable pub split_end : List ℕ → Option (List ℕ × ℕ)
split_end [] = none
split_end (c ∷ cs) = elim (split_end cs) [
  | none ↦ some ([], c)
  | some (before, last) ↦ some (c ∷ before, last)
]

abbrev pub unit_ms : ℕ → Option ℕ
unit_ms c =
    if c == b's'
    then some 1000
    else if c == b'm'
    then some 60000
    else if c == b'h'
    then some 3600000
    else if c == b'd'
    then some 86400000
    else none

-- `Number.isSafeInteger` of a product that is not negative; rounding to a double moves none below
-- the bound.
abbrev pub is_safe : ℕ → Bool
is_safe n = ltb n (2 ^ 53)

abbrev pub period_of : ℕ → Option ℕ → Option ℕ
period_of amount none = none
period_of amount (some unit) =
    if not (is_integer amount) || ltb amount 1
    then none
    else if is_safe (amount * unit)
    then some (amount * unit)
    else none

abbrev pub interval_of : Option (List ℕ × ℕ) → Option ℕ
interval_of none = none
interval_of (some (digits, c)) =
    if is_digits digits then period_of (number digits) (unit_ms c) else none

unfoldable pub parse_interval_ms : List ℕ → Option ℕ
parse_interval_ms source = interval_of (split_end source)

-- The text of a part, and the empty text where there is none.
abbrev pub part_at : ℕ → List (List ℕ) → List ℕ
part_at n [] = []
part_at zero (p ∷ ps) = p
part_at (suc n) (p ∷ ps) = part_at n ps

-- `/^\*\/(\d+)$/`
abbrev pub every_match : List ℕ → Option (List ℕ)
every_match (a ∷ b ∷ ds) = if a == b'*' && (b == b'/' && is_digits ds) then some ds else none
every_match _ = none

abbrev pub is_one : List ℕ → Bool
is_one (c ∷ []) = c == b'1'
is_one _ = false

abbrev pub phrase : String → List ℕ → List ℕ
phrase unit digits =
    codes "every " ++ digits ++ codes unit ++ (if is_one digits then [] else codes "s")

abbrev pub is_zero : List ℕ → Bool
is_zero (c ∷ []) = c == b'0'
is_zero _ = false

abbrev pub hours_phrase : List (List ℕ) → Option (List ℕ) → List ℕ → List ℕ
hours_phrase parts none source = source
hours_phrase parts (some digits) source =
    if is_zero (part_at 0 parts)
      && (is_star (part_at 2 parts) && (is_star (part_at 3 parts) && is_star (part_at 4 parts)))
    then phrase " hour" digits
    else source

abbrev pub minutes_phrase : List (List ℕ) → Option (List ℕ) → List ℕ → List ℕ
minutes_phrase parts none source = hours_phrase parts (every_match (part_at 1 parts)) source
minutes_phrase parts (some digits) source =
    if is_star (part_at 1 parts)
      && (is_star (part_at 2 parts) && (is_star (part_at 3 parts) && is_star (part_at 4 parts)))
    then phrase " minute" digits
    else hours_phrase parts (every_match (part_at 1 parts)) source

unfoldable pub cron_to_human : List ℕ → List ℕ
cron_to_human source =
    let parts = space_parts source in minutes_phrase parts (every_match (part_at 0 parts)) source

unit_ms_le : (c unit : ℕ) → unit_ms c ≡ some unit → 1000 ≤ unit
unit_ms_le c unit e = ground arith

period_of_bounds :
    (amount : ℕ) (u : Option ℕ) (c p : ℕ)
    → unit_ms c ≡ u
    → period_of amount u ≡ some p
    → (1000 ≤ p) × (p < 2 ^ 53)
period_of_bounds amount none c p e h = cc
period_of_bounds amount (some unit) c p e h = grind (arith, unit_ms_le c unit e, h)

interval_of_bounds :
    (o : Option (List ℕ × ℕ)) (p : ℕ) → interval_of o ≡ some p → (1000 ≤ p) × (p < 2 ^ 53)
interval_of_bounds none p e = cc
interval_of_bounds (some (digits, c)) p e =
    period_of_bounds (number digits) (unit_ms c) c p refl (ground (arith, e))

-- An interval that is accepted is at least a second, and a safe integer of milliseconds.
parse_interval_ms_bounds :
    (source : List ℕ) (p : ℕ) → parse_interval_ms source ≡ some p → (1000 ≤ p) × (p < 2 ^ 53)
unfolding parse_interval_ms
parse_interval_ms_bounds source p e = interval_of_bounds (split_end source) p e
