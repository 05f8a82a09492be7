-- ===== src/Loop/Cron/Values.antt =====
-- What an accepted cron field denotes.
use pipee.Base.{
  ℕ, zero, suc, ◌+◌, ◌*◌, ◌≤◌, ◌<◌, ◌≡◌, ◌≢◌, ◌↔◌, refl, subst, inl, inr, true, false, ◌||◌, none,
  some, List, [], ◌∷◌, ◌++◌, arith, Bool-cases, Option-cases, leb, ◌==◌, ltb, if◌then◌else◌,
}
use pipee.Loop.Cron.Forms.{
  ReadsRange, whole, single, between, Reads, plain, with_step, star_text, step_match-joins,
  range_match-joins,
}
use pipee.Loop.Cron.Parse.{
  Field, has_value, is_star, is_digits, number, run_of, stepped, range_values, part_values,
  parts_values, parse_field, split, range_match, step_match,
}

-- The values low, low + step, … up to high.
abbrev pub InProgression : ℕ → ℕ → ℕ → ℕ → Type 0
InProgression low high step v = (k : ℕ) × (v ≡ low + k * step) × (v ≤ high)

-- A list holds exactly the values of the progression that the text of a part names, which is within
-- the bounds of the field, and not empty if they are not.
pub record IsProgression (part : List ℕ) (minimum maximum : ℕ) (vs : List ℕ) : Type 0 where
  pub low : ℕ
  pub high : ℕ
  pub step : ℕ
  pub reads : Reads part minimum maximum low high step
  pub from_minimum : minimum ≤ low
  pub to_maximum : high ≤ maximum
  pub moves : 0 < step
  pub starts : minimum ≤ maximum → low ≤ high
  pub exact : (v : ℕ) → (has_value v vs ≡ true) ↔ InProgression low high step v

stepped-to :
    (fuel low high step v : ℕ)
    → 0 < step
    → has_value v (stepped fuel low high step) ≡ true
    → InProgression low high step v
unfolding stepped
stepped-to zero low high step v s h = cc
stepped-to (suc fuel) low high step v s h = elim (Bool-cases (leb low high)) [
  | inr past ↦ ground arith
  | inl fits ↦ elim (Bool-cases (low == v)) [
    | inl here ↦ (0, ground arith, ground arith)
    | inr other ↦
        let (k, at, to) = stepped-to fuel (low + step) high step v s (ground arith) in
        (suc k, grind arith, to)
  ]
]

stepped-from :
    (fuel low high step k : ℕ)
    → 0 < step
    → high < low + fuel
    → low + k * step ≤ high
    → has_value (low + k * step) (stepped fuel low high step) ≡ true
unfolding stepped
stepped-from zero low high step k s f h = absurd (omega arith)
stepped-from (suc fuel) low high step zero s f h = ground arith
stepped-from (suc fuel) low high step (suc k) s f h =
    let same : low + suc k * step ≡ low + step + k * step = grind arith in
    let later = stepped-from fuel (low + step) high step k s (omega arith) (omega (arith, same)) in
    rw same (ground (arith, later))

run_of-exact :
    (low high step : ℕ)
    → 0 < step
    → (v : ℕ) → (has_value v (run_of low high step) ≡ true) ↔ InProgression low high step v
unfolding run_of
run_of-exact low high step s v = (
  stepped-to (suc high) low high step v s,
  λ p. rw p.1 (stepped-from (suc high) low high step p.0 s (omega arith) (omega (arith, p.1, p.2))),
)

single-exact :
    (n step : ℕ) → 0 < step → (v : ℕ) → (has_value v (n ∷ []) ≡ true) ↔ InProgression n n step v
single-exact n step moves v = (λ h. (0, ground arith, ground arith), λ p. ground (arith, p.1, p.2))

-- The part is read with this step, and its range is `range`.
abbrev ReadsWith : List ℕ → List ℕ → ℕ → ℕ → ℕ → Type 0
ReadsWith part range step minimum maximum =
    (low high : ℕ)
    → ReadsRange range minimum maximum low high
    → Reads part minimum maximum low high step

module _ (part range : List ℕ) (step minimum maximum : ℕ) (moves : 0 < step)
    (reads : ReadsWith part range step minimum maximum) where
  IsProgression-run :
      (low high : ℕ)
      → ReadsRange range minimum maximum low high
      → minimum ≤ low
      → high ≤ maximum
      → (minimum ≤ maximum → low ≤ high)
      → IsProgression part minimum maximum (run_of low high step)
  IsProgression-run low high said a b c = record {
    low = low;
    high = high;
    step = step;
    reads = reads low high said;
    from_minimum = a;
    to_maximum = b;
    moves = moves;
    starts = c;
    exact = run_of-exact low high step moves;
  }

  IsProgression-checked :
      (low high : ℕ) (vs : List ℕ)
      → ReadsRange range minimum maximum low high
      → (if ltb low minimum || ltb maximum high || ltb high low
          then none
          else some (run_of low high step))
        ≡ some vs
      → IsProgression part minimum maximum vs
  IsProgression-checked low high vs said e =
      let same : run_of low high step ≡ vs = ground arith in
      subst (IsProgression part minimum maximum) same
        (IsProgression-run low high said (ground arith) (ground arith) (λ h. ground arith))

  IsProgression-single :
      (n : ℕ) (vs : List ℕ)
      → ReadsRange range minimum maximum n n
      → (if ltb n minimum || ltb maximum n then none else some (n ∷ [])) ≡ some vs
      → IsProgression part minimum maximum vs
  IsProgression-single n vs said e =
      let same : n ∷ [] ≡ vs = ground arith in
      subst (IsProgression part minimum maximum) same (record {
        low = n;
        high = n;
        step = step;
        reads = reads n n said;
        from_minimum = ground arith;
        to_maximum = ground arith;
        moves = moves;
        starts = λ h. omega arith;
        exact = single-exact n step moves;
      })

  range_values-IsProgression :
      (vs : List ℕ)
      → range_values range step minimum maximum ≡ some vs
      → IsProgression part minimum maximum vs
  unfolding range_values
  range_values-IsProgression vs e = elim (Bool-cases (is_star range)) [
    | inl star ↦
        let same : run_of minimum maximum step ≡ vs = ground arith in
        subst (IsProgression part minimum maximum) same (
          IsProgression-run minimum maximum (whole (star_text range star) refl refl) (omega arith)
            (omega arith) (λ h. h))
    | inr other ↦ elim (Option-cases (range_match range)) [
      | inr ((l, h), found) ↦
          let (joined, low, high) = range_match-joins range l h found in
          IsProgression-checked (number l) (number h) vs (between l h joined low high refl refl)
            (rw (other, found, range_values) at e)
      | inl missing ↦ elim (Bool-cases (is_digits range)) [
        | inl digits ↦
            IsProgression-single (number range) vs (single digits refl refl)
              (rw (other, missing, digits, range_values) at e)
        | inr text ↦ absurd (refused text (rw (other, missing, text, range_values) at e))
      ]
    ]
  ]
    where
      refused : is_digits range ≡ false → none ≡ some vs → ⊥
      refused h e = cc

-- A part of a field that is accepted denotes exactly the arithmetic progression that its text
-- names. It is `*`, a number, or two numbers with `-` between them, from which the start and the end
-- are read (for `*` they are those of the field), alone, with step 1, or before `/` and the number
-- that is the step. The start is not below the field's minimum, the end not above its maximum, the
-- step is at least 1, and the progression is not empty if the field has a value at all.
pub part_values-IsProgression :
    (part : List ℕ) (minimum maximum : ℕ) (vs : List ℕ)
    → part_values part minimum maximum ≡ some vs
    → IsProgression part minimum maximum vs
unfolding part_values
part_values-IsProgression part minimum maximum vs e = elim (Option-cases (step_match part)) [
  | inl missing ↦
      range_values-IsProgression part part 1 minimum maximum (omega arith)
        (λ low high said. plain said refl) vs (rw (missing, part_values) at e)
  | inr ((range, digits), found) ↦
      let kept = rw (found, part_values) at e in
      let (joined, number_text) = step_match-joins part range digits found in
      range_values-IsProgression part range (number digits) minimum maximum (ground (arith, kept))
        (λ low high said. with_step range digits joined number_text refl said) vs
        (ground (arith, kept))
]

abbrev pub Within : ℕ → ℕ → List ℕ → Type 0
Within minimum maximum vs = (v : ℕ) → has_value v vs ≡ true → (minimum ≤ v) × (v ≤ maximum)

IsProgression-Within :
    {part : List ℕ} {minimum maximum : ℕ} {vs : List ℕ}
    → IsProgression part minimum maximum vs
    → Within minimum maximum vs
IsProgression-Within p v h =
    let q = (p.exact v).0 h in
    (omega (arith, p.from_minimum, q.1), omega (arith, p.to_maximum, q.2))

has_value-append :
    (v : ℕ) (xs ys : List ℕ) → has_value v (xs ++ ys) ≡ (has_value v xs || has_value v ys)
has_value-append v [] ys = refl
has_value-append v (x ∷ xs) ys = ground (arith, has_value-append v xs ys)

parts_values-Within :
    (parts : List (List ℕ)) (minimum maximum : ℕ) (vs : List ℕ)
    → parts_values parts minimum maximum ≡ some vs
    → Within minimum maximum vs
unfolding parts_values
parts_values-Within [] minimum maximum vs e v h = ground arith
parts_values-Within (part ∷ parts) minimum maximum vs e v h =
    elim (Option-cases (part_values part minimum maximum)) [
      | inl bad ↦ ground arith
      | inr (ps, good) ↦ elim (Option-cases (parts_values parts minimum maximum)) [
        | inl bad ↦ ground arith
        | inr (qs, rest) ↦ ground (
          arith,
          has_value-append v ps qs,
          IsProgression-Within (part_values-IsProgression part minimum maximum ps good) v,
          parts_values-Within parts minimum maximum qs rest v,
        )
      ]
    ]

-- An accepted field has a value, and each of its values lies within the bounds of the field.
parse_field_bounds :
    (source : List ℕ) (minimum maximum : ℕ) (f : Field)
    → parse_field source minimum maximum ≡ some f
    → (f.values ≢ []) × ((v : ℕ) → has_value v f.values ≡ true → (minimum ≤ v) × (v ≤ maximum))
unfolding parse_field
parse_field_bounds source minimum maximum f e =
    let parsed = parts_values-Within (split b',' source) minimum maximum f.values (ground arith) in
    (ground arith, parsed)
