-- ===== src/Loop/Cron/Search.antt =====
-- The search of `nextCronInstant` finds the first matching minute of its span, and no other.
use pipee.Base.{
  String, ℕ, zero, suc, ◌+◌, ◌*◌, ◌≤◌, ◌<◌, ◌≡◌, subst, inl, inr, Bool, true, false, none, some,
  arith, Bool-cases, Option-cases,
}
use pipee.Loop.Model.{CronSpec}
use pipee.Loop.Runtime.{Runtime}
use pipee.Loop.Cron.Parse.{ParsedCron, parse_cron}
use pipee.Loop.Cron.Instant.{
  scan, hits, start_of, search_span, scan_rounds, next_cron_instant, next_cron_due, jitter,
}

-- The first candidate that passes the test among those from `from` on, in steps of a minute.
pub record IsFirst (test : ℕ → Bool) (from limit found : ℕ) : Type 0 where
  pub passes : test found ≡ true
  pub round : ℕ
  pub placed : found ≡ from + round * 60000
  pub below : found < limit
  pub earlier_fail : (k : ℕ) → k < round → test (from + k * 60000) ≡ false

at_zero : (test : ℕ → Bool) (from : ℕ) (b : Bool) → test from ≡ b → test (from + 0 * 60000) ≡ b
at_zero test from b h = subst (λ n. test n ≡ b) {x = from} (omega arith) h

at_suc :
    (test : ℕ → Bool) (from k : ℕ) (b : Bool)
    → test (from + 60000 + k * 60000) ≡ b
    → test (from + suc k * 60000) ≡ b
at_suc test from k b h = subst (λ n. test n ≡ b) {x = from + 60000 + k * 60000} (omega arith) h

earlier_suc :
    (test : ℕ → Bool) (from : ℕ) {round : ℕ}
    → test from ≡ false
    → ((k : ℕ) → k < round → test (from + 60000 + k * 60000) ≡ false)
    → (k : ℕ) → k < suc round
    → test (from + k * 60000) ≡ false
earlier_suc test from miss fails zero h = at_zero test from false miss
earlier_suc test from miss fails (suc k) h = at_suc test from k false (fails k (omega arith))

IsFirst-here :
    (test : ℕ → Bool) (from limit : ℕ)
    → test from ≡ true
    → from < limit
    → IsFirst test from limit from
IsFirst-here test from limit hit h = record {
  passes = hit;
  round = 0;
  placed = omega arith;
  below = h;
  earlier_fail = λ k h. absurd (omega arith);
}

IsFirst-later :
    {test : ℕ → Bool} {from limit found : ℕ}
    → test from ≡ false
    → IsFirst test (from + 60000) limit found
    → IsFirst test from limit found
IsFirst-later {test} {from} miss later = record {
  passes = later.passes;
  round = suc later.round;
  placed = omega (arith, later.placed);
  below = later.below;
  earlier_fail = earlier_suc test from miss later.earlier_fail;
}

scan-IsFirst :
    (test : ℕ → Bool) (fuel from limit found : ℕ)
    → scan test fuel from limit ≡ some found
    → IsFirst test from limit found
unfolding scan
scan-IsFirst test zero from limit found e = cc
scan-IsFirst test (suc fuel) from limit found e = elim (Bool-cases (test from)) [
  | inl hit ↦
      let same : from ≡ found = ground arith in
      subst (IsFirst test from limit) same (IsFirst-here test from limit hit (ground arith))
  | inr miss ↦ IsFirst-later miss (scan-IsFirst test fuel (from + 60000) limit found (ground arith))
]

-- With fuel for every candidate below the limit, the search fails only if all of them fail.
scan-none :
    (test : ℕ → Bool) (fuel from limit k : ℕ)
    → limit ≤ from + fuel * 60000
    → scan test fuel from limit ≡ none
    → from + k * 60000 < limit
    → test (from + k * 60000) ≡ false
unfolding scan
scan-none test zero from limit k room e h = absurd (omega arith)
scan-none test (suc fuel) from limit zero room e h = at_zero test from false (ground arith)
scan-none test (suc fuel) from limit (suc k) room e h =
    at_suc test from k false
      (scan-none test fuel (from + 60000) limit k (omega arith) (ground arith) (omega arith))

module _ (rt : Runtime) (spec : CronSpec) (after : ℕ) {parsed : ParsedCron}
    (parses : parse_cron spec.expression ≡ some parsed) where
  -- The instant that is found matches the expression, lies after the given one by whole minutes
  -- from the next, within 366 days, and no minute before it matches.
  pub next_cron_instant-IsFirst :
      (found : ℕ)
      → next_cron_instant rt spec after ≡ some found
      → IsFirst
          (hits rt parsed spec.time_zone)
          (start_of after)
          (start_of after + search_span)
          found
        × (after < found)
  unfolding next_cron_instant
  next_cron_instant-IsFirst found e =
      let first =
        scan-IsFirst (hits rt parsed spec.time_zone) scan_rounds (start_of after)
          (start_of after + search_span) found (rw (parses, next_cron_instant) at e) in
      (first, omega (arith, first.placed))

  -- The search fails only if no minute of the 366 days matches.
  pub next_cron_instant-none :
      next_cron_instant rt spec after ≡ none
      → (k : ℕ) → k < 366 * 24 * 60
      → hits rt parsed spec.time_zone (start_of after + k * 60000) ≡ false
  unfolding next_cron_instant scan_rounds
  next_cron_instant-none e k h =
      scan-none (hits rt parsed spec.time_zone) scan_rounds (start_of after)
        (start_of after + search_span) k (omega arith) (rw (parses, next_cron_instant) at e)
        (omega arith)

pub next_cron_instant-lt :
    (rt : Runtime) (spec : CronSpec) (after found : ℕ)
    → next_cron_instant rt spec after ≡ some found
    → after < found
next_cron_instant-lt rt spec after found e = elim (Option-cases (parse_cron spec.expression)) [
  | inl refused ↦ cc (unparsed refused)
  | inr (parsed, parses) ↦ (next_cron_instant-IsFirst rt spec after parses found e).1
]
  where
    unparsed : parse_cron spec.expression ≡ none → next_cron_instant rt spec after ≡ none
    unparsed refused = unfold next_cron_instant in rw (refused, next_cron_instant)

-- The due time lies after the given instant, between the matching instant and the jitter cap.
pub next_cron_due_bounds :
    (rt : Runtime) (spec : CronSpec) (after : ℕ) (loop_id : String) (cursor due : ℕ)
    → next_cron_due rt spec after loop_id cursor ≡ some due
    → (base : ℕ) × (next_cron_instant rt spec after ≡ some base)
      × (after < due)
      × (base ≤ due)
      × (due ≤ base + spec.jitter_cap_ms)
unfolding next_cron_due jitter
next_cron_due_bounds rt spec after loop_id cursor due e =
    elim (Option-cases (next_cron_instant rt spec after)) [
      | inl missing ↦ cc (rw (missing, next_cron_due) at e)
      | inr (base, found) ↦
          let later = next_cron_instant-lt rt spec after base found in
          (base, found, ground (arith, later), ground (arith, later), ground (arith, later))
    ]
