-- ===== src/Loop/Cron/Forms.antt =====
-- The written forms of a part of a cron field (extensions/loop/src/domain/cron.ts).
use pipee.Base.{ℕ, ◌≡◌, true, some, List, [], ◌∷◌, ◌++◌, arith, inl, inr, ==_iff, ap, Option-cases}
use pipee.Loop.Cron.Parse.{
  is_star, is_digits, number, split_last, split_first, step_match, range_match,
}

-- What a range of a field says of its ends: the whole field, one value, or two ends.
pub data ReadsRange (range : List ℕ) (minimum maximum low high : ℕ) : Type 0 where
  whole :
      range ≡ b'*' ∷ [] → low ≡ minimum → high ≡ maximum → ReadsRange range minimum maximum low high
  single :
      is_digits range ≡ true
      → low ≡ number range
      → high ≡ number range
      → ReadsRange range minimum maximum low high
  between :
      (l h : List ℕ)
      → range ≡ l ++ b'-' ∷ h
      → is_digits l ≡ true
      → is_digits h ≡ true
      → low ≡ number l
      → high ≡ number h
      → ReadsRange range minimum maximum low high

-- A part is a range, with step 1, or a range, a slash and the digits of its step.
pub data Reads (part : List ℕ) (minimum maximum low high step : ℕ) : Type 0 where
  plain :
      ReadsRange part minimum maximum low high → step ≡ 1 → Reads part minimum maximum low high step
  with_step :
      (range digits : List ℕ)
      → part ≡ range ++ b'/' ∷ digits
      → is_digits digits ≡ true
      → step ≡ number digits
      → ReadsRange range minimum maximum low high
      → Reads part minimum maximum low high step

pub star_text : (range : List ℕ) → is_star range ≡ true → range ≡ b'*' ∷ []
star_text [] e = cc
star_text (c ∷ []) e = ap (λ x. x ∷ []) ((==_iff c b'*').0 e)
star_text (c ∷ d ∷ r) e = cc

-- A text that is split at a separator is what is before it, the separator and what is after it.
split_last-joins :
    (sep : ℕ) (cs before after : List ℕ)
    → split_last sep cs ≡ some (before, after)
    → cs ≡ before ++ sep ∷ after
unfolding split_last
split_last-joins sep [] before after e = absurd (ground arith)
split_last-joins sep (c ∷ cs) before after e = elim (Option-cases (split_last sep cs)) [
  | inr ((b, a), found) ↦
      let rest = split_last-joins sep cs b a found in
      ground (arith, rest, rw (found, split_last) at e)
  | inl missing ↦ ground (arith, ==_iff c sep, rw (missing, split_last) at e)
]

split_first-joins :
    (sep : ℕ) (cs before after : List ℕ)
    → split_first sep cs ≡ some (before, after)
    → cs ≡ before ++ sep ∷ after
unfolding split_first
split_first-joins sep [] before after e = absurd (ground arith)
split_first-joins sep (c ∷ cs) before after e = elim (Option-cases (split_first sep cs)) [
  | inr ((b, a), found) ↦
      let rest = split_first-joins sep cs b a found in
      ground (arith, rest, ==_iff c sep, rw (found, split_first) at e)
  | inl missing ↦ ground (arith, ==_iff c sep, rw (missing, split_first) at e)
]

pub step_match-joins :
    (part range digits : List ℕ)
    → step_match part ≡ some (range, digits)
    → (part ≡ range ++ b'/' ∷ digits) × (is_digits digits ≡ true)
unfolding step_match
step_match-joins part range digits e = elim (Option-cases (split_last b'/' part)) [
  | inr ((b, a), found) ↦
      let joined = split_last-joins b'/' part b a found in
      let kept = rw (found, step_match) at e in (ground (arith, joined, kept), ground (arith, kept))
  | inl missing ↦ absurd (ground (arith, rw (missing, step_match) at e))
]

pub range_match-joins :
    (range l h : List ℕ)
    → range_match range ≡ some (l, h)
    → (range ≡ l ++ b'-' ∷ h) × (is_digits l ≡ true) × (is_digits h ≡ true)
unfolding range_match
range_match-joins range l h e = elim (Option-cases (split_first b'-' range)) [
  | inr ((b, a), found) ↦
      let joined = split_first-joins b'-' range b a found in
      let kept = rw (found, range_match) at e in
      (ground (arith, joined, kept), ground (arith, kept), ground (arith, kept))
  | inl missing ↦ absurd (ground (arith, rw (missing, range_match) at e))
]
