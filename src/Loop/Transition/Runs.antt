-- ===== src/Loop/Transition/Runs.antt =====
-- A loop under any sequence of ticks and arms.
use pipee.Base.{
  ℕ, ◌+◌, ◌≡◌, refl, ap, ◌∙◌, inl, inr, Option, none, some, List, [], ◌∷◌, String, Option-cases,
}
use pipee.Base.Text.{show, ◌<>◌}
use pipee.Loop.Model.{
  waiting, awaiting_arm, Loop, once, cron, interval, manual, fields, loop_id, cursor, Occurrence,
}
use pipee.Loop.Runtime.{Runtime}
use pipee.Loop.Transition.{Gate, TransitionResult, occurrence_of, tick, arm}
use pipee.Loop.Transition.Claims.{Claims, tick-inversion, tick-Follows, tick-left}

pub data Event : Type 0 where
  ticks : ℕ → Gate → Event
  arms : ℕ → Event

-- An arm that is refused leaves the loop.
abbrev or_same : Loop → Option Loop → Loop
or_same l none = l
or_same l (some l') = l'

abbrev emit : Option Occurrence → List Occurrence → List Occurrence
emit none os = os
emit (some o) os = o ∷ os

-- One event: what is left of the loop, and what it claims. A loop that is done claims nothing.
pub step : Runtime → Option Loop → Event → TransitionResult
step rt none e = record { loop = none; occurrence = none }
step rt (some l) (ticks now gate) = tick rt l now gate
step rt (some l) (arms at) = record { loop = some (or_same l (arm l at)); occurrence = none }

pub run : Runtime → Option Loop → List Event → List Occurrence
run rt left [] = []
run rt left (e ∷ es) = let r = step rt left e in emit r.occurrence (run rt r.loop es)

-- The occurrences bear the loop's name, and their cursors count up from `c` without a gap.
abbrev pub CountsFrom : String → ℕ → List Occurrence → Type 0
CountsFrom id c [] = Unit
CountsFrom id c (o ∷ os) =
    (o.loop_id ≡ id) × (o.id ≡ id <> ":" <> show c) × (o.cursor ≡ c) × CountsFrom id (c + 1) os

run-none : (rt : Runtime) (es : List Event) → run rt none es ≡ []
unfolding run step
run-none rt [] = refl
run-none rt (e ∷ es) = run-none rt es

arm-keeps :
    (l : Loop) (at : ℕ)
    → (fields (or_same l (arm l at)) ≡ fields l) × (cursor (or_same l (arm l at)) ≡ cursor l)
unfolding arm
arm-keeps (manual b (awaiting_arm c)) at = (refl, refl)
arm-keeps (manual b (waiting w)) at = (refl, refl)
arm-keeps (once b r w) at = (refl, refl)
arm-keeps (cron b r s u w) at = (refl, refl)
arm-keeps (interval b r s u w) at = (refl, refl)

CountsFrom-run-none :
    (rt : Runtime) (id : String) (c : ℕ) (es : List Event) → CountsFrom id c (run rt none es)
CountsFrom-run-none rt id c es = rw (run-none rt es) tt

abbrev At : Option Loop → String → ℕ → Type 0
At none id c = Unit {0}
At (some l) id c = (loop_id l ≡ id) × (cursor l ≡ c)

At-tick :
    (rt : Runtime) (l : Loop) (now : ℕ) (gate : Gate) (left : Option Loop) (o : Occurrence)
    → Claims (tick rt l now gate) left o
    → At left (loop_id l) (cursor l + 1)
At-tick rt l now gate none o e = tt
At-tick rt l now gate (some l') o e =
    let f = tick-Follows rt l now gate l' o e in (ap (λ b. b.id) f.same_fields, f.next_cursor)

claimed_fields :
    (rt : Runtime) (l : Loop) (now : ℕ) (gate : Gate) (left : Option Loop) (o : Occurrence)
    → Claims (tick rt l now gate) left o
    → (o.loop_id ≡ loop_id l) × (o.id ≡ loop_id l <> ":" <> show (cursor l)) × (o.cursor ≡ cursor l)
unfolding occurrence_of
claimed_fields rt l now gate left o e =
    let (w, at, rest, same) = tick-inversion rt l now gate left o e in
    rw (same, at) (refl, refl, refl)

run-CountsFrom-At :
    (rt : Runtime) (left : Option Loop) (es : List Event) (id : String) (c : ℕ)
    → At left id c
    → CountsFrom id c (run rt left es)
unfolding run step
run-CountsFrom-At rt left [] id c h = tt
run-CountsFrom-At rt none (e ∷ es) id c h = run-CountsFrom-At rt none es id c tt
run-CountsFrom-At rt (some l) (arms at ∷ es) id c h =
    let kept = arm-keeps l at in
    run-CountsFrom-At rt (some (or_same l (arm l at))) es id c
      (ap (λ b. b.id) kept.0 ∙ h.0, kept.1 ∙ h.1)
run-CountsFrom-At rt (some l) (ticks now gate ∷ es) id c h =
    let later = run-CountsFrom-At rt (tick rt l now gate).loop es id in
    elim (Option-cases (tick rt l now gate).occurrence) [
      | inl idle ↦ rw idle (later c (rw (tick-left rt l now gate idle) h))
      | inr (o, claimed) ↦
          let (of, named, at) =
            claimed_fields rt l now gate (tick rt l now gate).loop o (refl, claimed) in
          let next = At-tick rt l now gate (tick rt l now gate).loop o (refl, claimed) in
          rw claimed
            (of ∙ h.0, rw (← h.0, ← h.1) named, at ∙ h.1, later (c + 1) (rw (← h.0, ← h.1) next))
    ]

-- Whatever the ticks and arms, and in whatever order, the occurrences that a loop claims bear its
-- name and are numbered from its cursor on, one by one: no cursor is claimed twice or passed over.
pub run-CountsFrom :
    (rt : Runtime) (l : Loop) (es : List Event)
    → CountsFrom (loop_id l) (cursor l) (run rt (some l) es)
run-CountsFrom rt l es = run-CountsFrom-At rt (some l) es (loop_id l) (cursor l) (refl, refl)
