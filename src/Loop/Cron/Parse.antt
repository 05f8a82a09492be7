-- ===== src/Loop/Cron/Parse.antt =====
-- `parseField` and `parseCron` of extensions/loop/src/domain/cron.ts, over code points.
use pipee.Base.{
  ℕ, zero, suc, ◌+◌, ◌-◌, ◌*◌, ◌^◌, Bool, false, not, ◌&&◌, ◌||◌, Option, none, some, List, [], ◌∷◌,
  ◌++◌, String, ltb, leb, ◌==◌, if◌then◌else◌, all,
}
use pipee.Base.Text.{codes}

pub record Field : Type 0 where
  pub values : List ℕ
  pub wildcard : Bool

pub record ParsedCron : Type 0 where
  pub minute : Field
  pub hour : Field
  pub day_of_month : Field
  pub month : Field
  pub day_of_week : Field

-- `Set.prototype.has`
abbrev pub has_value : ℕ → List ℕ → Bool
has_value v [] = false
has_value v (x ∷ xs) = x == v || has_value v xs

-- `\d`
abbrev pub is_digit : ℕ → Bool
is_digit c = leb b'0' c && leb c b'9'

-- `/^\d+$/`
abbrev pub is_digits : List ℕ → Bool
is_digits [] = false
is_digits (c ∷ cs) = all is_digit (c ∷ cs)

number_from : ℕ → List ℕ → ℕ
number_from acc [] = acc
number_from acc (c ∷ cs) = number_from (acc * 10 + (c - b'0')) cs

-- `Number` of a text of digits. Rounding to a double only moves numbers from 2 ^ 53 on, which lie
-- above every bound that the parser compares with.
unfoldable pub number : List ℕ → ℕ
unfolding number_from
number ds = number_from 0 ds

-- `Number.isInteger` of such a number: the double is finite.
unfoldable pub is_integer : ℕ → Bool
is_integer n = ltb n (2 ^ 1024 - 2 ^ 970)

-- `source.split(separator)` on one code point.
split_from : ℕ → List ℕ → List ℕ → List (List ℕ)
split_from sep cur [] = cur ∷ []
split_from sep cur (c ∷ cs) =
    let closed = cur ∷ split_from sep [] cs in
    let longer = split_from sep (cur ++ c ∷ []) cs in if c == sep then closed else longer

unfoldable pub split : ℕ → List ℕ → List (List ℕ)
unfolding split_from
split sep cs = split_from sep [] cs

-- The text before and after the last separator.
unfoldable pub split_last : ℕ → List ℕ → Option (List ℕ × List ℕ)
split_last sep [] = none
split_last sep (c ∷ cs) = elim (split_last sep cs) [
  | some (before, after) ↦ some (c ∷ before, after)
  | none ↦ if c == sep then some ([], cs) else none
]

-- The text before and after the first separator.
unfoldable pub split_first : ℕ → List ℕ → Option (List ℕ × List ℕ)
split_first sep [] = none
split_first sep (c ∷ cs) =
    let found = split_first sep cs in
    if c == sep
    then some ([], cs)
    else elim found [ none ↦ none | some (before, after) ↦ some (c ∷ before, after) ]

-- `/^(.*)\/(\d+)$/`: the digits hold no slash, so the slash is the last one.
unfoldable pub step_match : List ℕ → Option (List ℕ × List ℕ)
unfolding split_last
step_match part = elim (split_last b'/' part) [
  | none ↦ none
  | some (before, after) ↦ if is_digits after then some (before, after) else none
]

-- `/^(\d+)-(\d+)$/`
unfoldable pub range_match : List ℕ → Option (List ℕ × List ℕ)
unfolding split_first
range_match range = elim (split_first b'-' range) [
  | none ↦ none
  | some (low, high) ↦ if is_digits low && is_digits high then some (low, high) else none
]

abbrev pub is_star : List ℕ → Bool
is_star (c ∷ []) = c == b'*'
is_star _ = false

-- `for (let value = low; value <= high; value += step)`, on fuel.
unfoldable pub stepped : ℕ → ℕ → ℕ → ℕ → List ℕ
stepped zero low high step = []
stepped (suc fuel) low high step =
    let rest = stepped fuel (low + step) high step in if leb low high then low ∷ rest else []

-- The values that the loop adds. With a step of at least 1 it makes at most `high + 1` rounds.
unfoldable pub run_of : ℕ → ℕ → ℕ → List ℕ
unfolding stepped
run_of low high step = stepped (suc high) low high step

-- One round of the loop over the parts, after the step is read.
unfoldable pub range_values : List ℕ → ℕ → ℕ → ℕ → Option (List ℕ)
range_values range step minimum maximum =
    if is_star range then some (run_of minimum maximum step) else elim (range_match range) [
      | some (l, h) ↦
          let low = number l in
          let high = number h in
          if ltb low minimum || ltb maximum high || ltb high low
          then none
          else some (run_of low high step)
      | none ↦
          if not (is_digits range)
          then none
          else let value = number range in
            if ltb value minimum || ltb maximum value then none else some (value ∷ [])
    ]

unfoldable pub part_values : List ℕ → ℕ → ℕ → Option (List ℕ)
part_values part minimum maximum = elim (step_match part) [
  | none ↦ range_values part 1 minimum maximum
  | some (range, digits) ↦
      let step = number digits in
      if not (is_integer step) || ltb step 1 then none else range_values range step minimum maximum
]

-- The loop over the parts; a set keeps its first copy of a value, so copies do not matter.
unfoldable pub parts_values : List (List ℕ) → ℕ → ℕ → Option (List ℕ)
parts_values [] minimum maximum = some []
parts_values (part ∷ parts) minimum maximum = elim (part_values part minimum maximum) [
  | none ↦ none
  | some vs ↦ elim (parts_values parts minimum maximum) [ none ↦ none | some ws ↦ some (vs ++ ws) ]
]

-- `/^\*(?:\/\d+)?$/`
abbrev pub is_wildcard : List ℕ → Bool
is_wildcard [] = false
is_wildcard (c ∷ []) = c == b'*'
is_wildcard (c ∷ d ∷ ds) = c == b'*' && (d == b'/' && is_digits ds)

unfoldable pub parse_field : List ℕ → ℕ → ℕ → Option Field
parse_field source minimum maximum = elim (parts_values (split b',' source) minimum maximum) [
  | none ↦ none
  | some [] ↦ none
  | some (v ∷ vs) ↦ some (record { values = v ∷ vs; wildcard = is_wildcard source })
]

-- `\s`
abbrev pub is_space : ℕ → Bool
is_space c =
    (leb 9 c && leb c 13)
    || (c == 32 || c == 0xa0 || c == 0x1680 || (leb 0x2000 c && leb c 0x200a))
    || (c == 0x2028 || c == 0x2029 || c == 0x202f || c == 0x205f || c == 0x3000 || c == 0xfeff)

close_word : List ℕ → List (List ℕ) → List (List ℕ)
close_word [] words = words
close_word (c ∷ cs) words = (c ∷ cs) ∷ words

words_from : List ℕ → List ℕ → List (List ℕ)
words_from cur [] = close_word cur []
words_from cur (c ∷ cs) =
    let closed = close_word cur (words_from [] cs) in
    let longer = words_from (cur ++ c ∷ []) cs in if is_space c then closed else longer

-- `source.trim().split(/\s+/)`; a blank text splits into one empty part.
unfoldable pub space_parts : List ℕ → List (List ℕ)
unfolding words_from close_word
space_parts source = elim (words_from [] source) [ [] ↦ [] ∷ [] | w ∷ ws ↦ w ∷ ws ]

abbrev pub join_fields :
    Option Field → Option Field → Option Field → Option Field → Option Field → Option ParsedCron
join_fields (some m) (some h) (some d) (some mo) (some w) =
    some (record { minute = m; hour = h; day_of_month = d; month = mo; day_of_week = w })
join_fields _ _ _ _ _ = none

abbrev pub parse_parts : List (List ℕ) → Option ParsedCron
parse_parts (m ∷ h ∷ d ∷ mo ∷ w ∷ []) =
    join_fields (parse_field m 0 59) (parse_field h 0 23) (parse_field d 1 31) (parse_field mo 1 12)
      (parse_field w 0 6)
parse_parts _ = none

unfoldable pub parse_cron : String → Option ParsedCron
parse_cron source = parse_parts (space_parts (codes source))
