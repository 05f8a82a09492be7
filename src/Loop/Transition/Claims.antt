-- ===== src/Loop/Transition/Claims.antt =====
-- What one tick claims, and what it leaves of the loop.
use pipee.Base.{
  ℕ, ◌+◌, ◌≤◌, ◌<◌, ◌≡◌, ◌≢◌, refl, ap, subst, sym, ◌↔◌, inl, inr, true, Option, none, some, arith,
  Option-cases,
}
use pipee.Loop.Model.{
  BaseFields, Retention, CronSpec, Waiting, Phase, waiting, awaiting_arm, Loop, once, cron,
  interval, manual, fields, loop_id, phase, phase_cursor, cursor, retention, Occurrence,
}
use pipee.Loop.Runtime.{Runtime}
use pipee.Loop.Cron.Instant.{next_cron_due}
use pipee.Loop.Cron.Search.{next_cron_due_bounds}
use pipee.Loop.Transition.{
  Gate, opened, closed, TransitionResult, occurrence_of, advance_cron, advance_interval, advance,
  tick_phase, tick, arm,
}

-- The schema's `PositiveInt` on the period of an interval loop.
abbrev pub HasPeriod : Loop → Type 0
HasPeriod (interval b r spec u w) = 0 < spec.period_ms
HasPeriod _ = Unit {0}

-- The phase in which a tick claims.
abbrev pub IsDue : Phase → ℕ → Type 0
IsDue (waiting w) now = w.due_at ≤ now
IsDue (awaiting_arm c) now = ⊥

tick_phase-claims_iff :
    (rt : Runtime) (l : Loop) (p : Phase) (now : ℕ) (gate : Gate)
    → ((tick_phase rt l p now gate).occurrence ≢ none)
      ↔ (((fields l).enabled ≡ true) × (gate ≡ opened) × IsDue p now)
unfolding tick_phase
tick_phase-claims_iff rt l (waiting w) now opened = ground arith
tick_phase-claims_iff rt l (waiting w) now closed = ground arith
tick_phase-claims_iff rt l (awaiting_arm c) now gate = ground arith

-- A tick claims an occurrence exactly when the loop is enabled, the gate is open, and the loop
-- waits for a time that has come.
pub tick-claims_iff :
    (rt : Runtime) (l : Loop) (now : ℕ) (gate : Gate)
    → ((tick rt l now gate).occurrence ≢ none)
      ↔ (((fields l).enabled ≡ true) × (gate ≡ opened) × IsDue (phase l) now)
unfolding tick
tick-claims_iff rt l now gate = tick_phase-claims_iff rt l (phase l) now gate

-- How the loop that a claim leaves stands to the loop before it.
pub record Follows (c : ℕ) (l l' : Loop) : Type 0 where
  pub same_fields : fields l' ≡ fields l
  pub same_retention : retention l' ≡ retention l
  pub next_cursor : cursor l' ≡ c + 1

advance_cron-Follows :
    (rt : Runtime) (b : BaseFields) (r : Retention) (spec : CronSpec) (u : Option ℕ) (v w : Waiting)
    (now : ℕ) (l' : Loop)
    → advance_cron rt b r spec u w now ≡ some l'
    → Follows w.cursor (cron b r spec u v) l'
unfolding advance_cron
advance_cron-Follows rt b r spec u v w now l' e = record {
  same_fields = ground arith;
  same_retention = ground arith;
  next_cursor = ground arith;
}

advance-Follows :
    (rt : Runtime) (l : Loop) (w : Waiting) (now : ℕ) (l' : Loop)
    → advance rt l w now ≡ some l'
    → Follows w.cursor l l'
unfolding advance advance_interval
advance-Follows rt (once b r v) w now l' e = cc
advance-Follows rt (cron b r s u v) w now l' e = advance_cron-Follows rt b r s u v w now l' e
advance-Follows rt (interval b r s u v) w now l' e = record {
  same_fields = ground arith;
  same_retention = ground arith;
  next_cursor = ground arith;
}
advance-Follows rt (manual b p) w now l' e = record {
  same_fields = ground arith;
  same_retention = ground arith;
  next_cursor = ground arith;
}

advance_cron-not-IsDue :
    (rt : Runtime) (b : BaseFields) (r : Retention) (spec : CronSpec) (u : Option ℕ) (w : Waiting)
    (now : ℕ) (l' : Loop)
    → advance_cron rt b r spec u w now ≡ some l'
    → ¬ IsDue (phase l') now
unfolding advance_cron
advance_cron-not-IsDue rt b r spec u w now l' e =
    elim (Option-cases (next_cron_due rt spec now b.id (w.cursor + 1))) [
      | inl missing ↦ ground arith
      | inr (due, found) ↦
          let bounds = next_cron_due_bounds rt spec now b.id (w.cursor + 1) due found in
          let later : now < due = bounds.2 in ground arith
    ]

advance-not-IsDue :
    (rt : Runtime) (l : Loop) (w : Waiting) (now : ℕ) (l' : Loop)
    → HasPeriod l
    → advance rt l w now ≡ some l'
    → ¬ IsDue (phase l') now
unfolding advance advance_interval
advance-not-IsDue rt (once b r v) w now l' h e = cc
advance-not-IsDue rt (cron b r s u v) w now l' h e = advance_cron-not-IsDue rt b r s u w now l' e
advance-not-IsDue rt (interval b r s u v) w now l' h e = ground arith
advance-not-IsDue rt (manual b p) w now l' h e = ground arith

-- The two parts of a tick's result.
abbrev pub Claims : TransitionResult → Option Loop → Occurrence → Type 0
Claims r left o = (r.loop ≡ left) × (r.occurrence ≡ some o)

tick_phase-inversion :
    (rt : Runtime) (l : Loop) (p : Phase) (now : ℕ) (gate : Gate) (left : Option Loop)
    (o : Occurrence)
    → Claims (tick_phase rt l p now gate) left o
    → (w : Waiting) × (p ≡ waiting w) × (advance rt l w now ≡ left) × (o ≡ occurrence_of l w now)
unfolding tick_phase
tick_phase-inversion rt l (awaiting_arm c) now gate left o (e, f) = ground arith
tick_phase-inversion rt l (waiting w) now gate left o (e, f) = (w, refl, ground arith, ground arith)

-- What a claim is: the occurrence of the phase, and the advanced loop.
pub tick-inversion :
    (rt : Runtime) (l : Loop) (now : ℕ) (gate : Gate) (left : Option Loop) (o : Occurrence)
    → Claims (tick rt l now gate) left o
    → (w : Waiting) × (phase l ≡ waiting w)
      × (advance rt l w now ≡ left)
      × (o ≡ occurrence_of l w now)
unfolding tick
tick-inversion rt l now gate left o e = tick_phase-inversion rt l (phase l) now gate left o e

pub tick-Follows :
    (rt : Runtime) (l : Loop) (now : ℕ) (gate : Gate) (l' : Loop) (o : Occurrence)
    → Claims (tick rt l now gate) (some l') o
    → Follows (cursor l) l l'
tick-Follows rt l now gate l' o e =
    let (w, at, left, same) = tick-inversion rt l now gate (some l') o e in
    subst (λ p. Follows (phase_cursor p) l l') (sym at) (advance-Follows rt l w now l' left)

-- The loop that a claiming tick leaves has the identity, settings, retention and, one up, the
-- cursor of the old one, and is not due at the time of the claim, if the period of an interval
-- loop is positive.
tick_successor :
    (rt : Runtime) (l : Loop) (now : ℕ) (gate : Gate) (l' : Loop) (o : Occurrence)
    → HasPeriod l
    → Claims (tick rt l now gate) (some l') o
    → Follows (cursor l) l l' × (¬ IsDue (phase l') now)
tick_successor rt l now gate l' o h e =
    let (w, at, left, same) = tick-inversion rt l now gate (some l') o e in
    (tick-Follows rt l now gate l' o e, advance-not-IsDue rt l w now l' h left)

tick_phase_rests :
    (rt : Runtime) (l : Loop) (p : Phase) (now : ℕ) (gate : Gate)
    → ¬ IsDue p now
    → tick_phase rt l p now gate ≡ record { loop = some l; occurrence = none }
unfolding tick_phase
tick_phase_rests rt l (awaiting_arm c) now gate h = refl
tick_phase_rests rt l (waiting w) now gate h = ground arith

tick_phase-left :
    (rt : Runtime) (l : Loop) (p : Phase) (now : ℕ) (gate : Gate)
    → (tick_phase rt l p now gate).occurrence ≡ none
    → (tick_phase rt l p now gate).loop ≡ some l
unfolding tick_phase
tick_phase-left rt l (awaiting_arm c) now gate e = refl
tick_phase-left rt l (waiting w) now gate e = ground arith

-- A tick that claims nothing leaves the loop as it is.
pub tick-left :
    (rt : Runtime) (l : Loop) (now : ℕ) (gate : Gate)
    → (tick rt l now gate).occurrence ≡ none
    → (tick rt l now gate).loop ≡ some l
unfolding tick
tick-left rt l now gate e = tick_phase-left rt l (phase l) now gate e

-- Whatever a tick leaves of a loop has its identifier and its retention.
pub tick_identity :
    (rt : Runtime) (l : Loop) (now : ℕ) (gate : Gate) (l' : Loop)
    → (tick rt l now gate).loop ≡ some l'
    → (loop_id l' ≡ loop_id l) × (retention l' ≡ retention l)
tick_identity rt l now gate l' e = elim (Option-cases (tick rt l now gate).occurrence) [
  | inl idle ↦
      let same : l ≡ l' = cc (tick-left rt l now gate idle) in
      (ap (λ t. loop_id t) (sym same), ap (λ t. retention t) (sym same))
  | inr (o, claimed) ↦
      let f = tick-Follows rt l now gate l' o (e, claimed) in
      (ap (λ b. b.id) f.same_fields, f.same_retention)
]

pub arm_identity :
    (l l' : Loop) (at : ℕ)
    → arm l at ≡ some l'
    → (loop_id l' ≡ loop_id l) × (retention l' ≡ retention l)
unfolding arm
arm_identity (manual b (awaiting_arm c)) l' at e =
    let same : manual b (waiting (record { due_at = at; cursor = c })) ≡ l' = ground arith in
    (ap (λ t. loop_id t) (sym same), ap (λ t. retention t) (sym same))
arm_identity (manual b (waiting w)) l' at e = cc
arm_identity (once b r w) l' at e = cc
arm_identity (cron b r s u w) l' at e = cc
arm_identity (interval b r s u w) l' at e = cc

-- A second tick at the same time, whatever the gate, claims nothing and leaves the loop as it is,
-- if the period of an interval loop is positive.
pub tick_twice :
    (rt : Runtime) (l : Loop) (now : ℕ) (gate again : Gate) (l' : Loop) (o : Occurrence)
    → HasPeriod l
    → Claims (tick rt l now gate) (some l') o
    → tick rt l' now again ≡ record { loop = some l'; occurrence = none }
unfolding tick
tick_twice rt l now gate again l' o h e =
    tick_phase_rests rt l' (phase l') now again (tick_successor rt l now gate l' o h e).1

abbrev pub armed : BaseFields → ℕ → ℕ → Loop
armed b at c = manual b (waiting (record { due_at = at; cursor = c }))

-- After a claim a manual loop is not due at any time until it is armed; arming it makes it wait
-- for the given time under the next cursor, and cannot be repeated before the next claim.
claim_then_arm :
    (rt : Runtime) (b : BaseFields) (p : Phase) (now : ℕ) (gate : Gate) (o : Occurrence)
    (left : Option Loop) (at later : ℕ)
    → Claims (tick rt (manual b p) now gate) left o
    → (l' : Loop) × (left ≡ some l')
      × (tick rt l' later opened ≡ record { loop = some l'; occurrence = none })
      × (arm l' at ≡ some (armed b at (o.cursor + 1)))
      × (arm (armed b at (o.cursor + 1)) later ≡ none)
unfolding tick tick_phase advance arm occurrence_of
claim_then_arm rt b (awaiting_arm c) now gate o left at later (e, f) = ground arith
claim_then_arm rt b (waiting w) now gate o left at later (e, f) =
    (manual b (awaiting_arm (w.cursor + 1)), ground arith, refl, ground arith, refl)
