-- ===== src/Broker/Stop.antt =====
-- What stopping a mailbox does to the requests that wait for a reply.
use pipee.Base.{
  ℕ, ◌≡◌, ◌∙◌, refl, Bool, true, false, false, Option, none, some, List, if_cases, [], ◌∷◌, String,
  str_eq, eq_iff, arith, if◌then◌else◌,
}
use pipee.Base.Dict
use pipee.Base.Dict.{Dict}
use pipee.Broker.Mailbox.{
  Limits, Mailbox, Pending, Phase, queued, executing, completing, BridgeFailure, bridge_stopped,
  outcome_unknown, ConnectorClaim, completable, complete_claimed, take_head, claim_taken, taken_out,
  Reply, failed, stop_failure, fail_all, settle, settle_reply, stop_mailbox, reserve, offer,
  connect, may_deliver, take_next, begin_complete, remove_pending, withdraw_queued, WireCommand,
  PublicConnector,
}
use pipee.Broker.Steps.{
  Trace, Permit, free, waiting, ended, Event, reserves, offers, connects, enters, takes, gives_up,
  leaves, completes, settles, removes, withdraws, stops, step, run, after_reserve, after_offer, mem,
  extract, take_with,
}

-- What the caller of a pending command hears of the stop: that it was stopped while its command was
-- queued, and that the outcome is unknown once the connector had it.
abbrev pub heard : String → Phase → BridgeFailure
heard id queued = bridge_stopped
heard id (executing c) = outcome_unknown id "the connector mailbox stopped"
heard id (completing c) = outcome_unknown id "the connector mailbox stopped"

-- The reply that a stop leaves: what was there, else the failure of the pending command.
abbrev pub reply_after : Option Reply → Option Pending → Option Reply
reply_after (some r) o = some r
reply_after none (some p) = some (failed (heard p.command.id p.phase))
reply_after none none = none

stop_failure-heard :
    (c : WireCommand) (s : Phase) → stop_failure (record { command = c; phase = s }) ≡ heard c.id s
stop_failure-heard c queued = refl
stop_failure-heard c (executing k) = refl
stop_failure-heard c (completing k) = refl

get-settle :
    (id i : String) (r : Reply) (rs : Dict Reply)
    → Dict.get i (settle id r rs)
      ≡ elim (Dict.get i rs) [ some q ↦ some q | none ↦ if str_eq id i then some r else none ]
unfolding settle Dict.has
get-settle id i r rs = grind (arith, Dict.get-set id i r rs, eq_iff id i)

get-fail_all :
    (i : String) (ps : Dict Pending) (rs : Dict Reply)
    → Dict.get i (fail_all ps rs) ≡ reply_after (Dict.get i rs) (Dict.get i ps)
unfolding fail_all Dict.get
get-fail_all i [] rs = ground arith
get-fail_all i ((id, p) ∷ ps) rs =
    let rest = get-fail_all i ps (settle id (failed (stop_failure p)) rs) in
    grind (
      arith,
      rest,
      get-settle id i (failed (stop_failure p)) rs,
      stop_failure-heard p.command p.phase,
    )

get-stop_mailbox :
    (i : String) (m : Mailbox)
    → m.active ≡ true
    → Dict.get i (stop_mailbox m).replies
      ≡ reply_after (Dict.get i m.replies) (Dict.get i m.pending)
unfolding stop_mailbox
get-stop_mailbox i m live = simp (live) (get-fail_all i m.pending m.replies)

-- The mailbox is stopped, and nothing was handed out or withdrawn since `t`.
abbrev IsStill : Trace → Trace → Type 0
IsStill t u =
    (u.mailbox.active ≡ false)
    × (u.mailbox.queue_open ≡ false)
    × (u.issued ≡ t.issued)
    × (u.delivered ≡ t.delivered)
    × (u.withdrawn ≡ t.withdrawn)

offer-IsStill :
    (limits : Limits) (o : Option WireCommand) (rest : List WireCommand) (t u : Trace)
    → IsStill t u
    → IsStill t (after_offer o rest limits u)
unfolding offer
offer-IsStill limits none rest t u h = h
offer-IsStill limits (some c) rest t u h = ground (arith, h)

take-IsStill : (o : Permit) (t u : Trace) → IsStill t u → IsStill t (take_with o u)
unfolding take_next
take-IsStill free t u h = h
take-IsStill ended t u h = h
take-IsStill (waiting c) t u h = ground (arith, h)

reserve-IsStill :
    (limits : Limits) (now : ℕ) (c : WireCommand) (t u : Trace)
    → IsStill t u
    → IsStill t (after_reserve c (reserve limits now c u.mailbox) u)
unfolding reserve
reserve-IsStill limits now c t u h = simp (h.0) (refl, h.1, h.2, h.3, h.4)

step-IsStill :
    (limits : Limits) (e : Event) (t u : Trace) → IsStill t u → IsStill t (step limits e u)
unfolding step connect may_deliver begin_complete withdraw_queued remove_pending stop_mailbox
    settle_reply
step-IsStill limits (reserves now c) t u h =
    if_cases (IsStill t) (mem c.id u.issued) u (after_reserve c (reserve limits now c u.mailbox) u)
      (λ known. h) (λ new. reserve-IsStill limits now c t u h)
step-IsStill limits (offers id) t u h =
    offer-IsStill limits (extract id u.unoffered).0 (extract id u.unoffered).1 t u h
step-IsStill limits (connects connector now) t u h = ground (arith, h)
step-IsStill limits (enters connector) t u h = ground (arith, h)
step-IsStill limits takes t u h = take-IsStill u.permit t u h
step-IsStill limits gives_up t u h = ground (arith, h)
step-IsStill limits leaves t u h = ground (arith, h)
step-IsStill limits (completes connector now id valid) t u h = ground (arith, h)
step-IsStill limits (settles id r) t u h = ground (arith, h)
step-IsStill limits (removes id) t u h = ground (arith, h)
step-IsStill limits (withdraws id) t u h = ground (arith, h)
step-IsStill limits stops t u h = ground (arith, h)

run-IsStill :
    (limits : Limits) (es : List Event) (t u : Trace) → IsStill t u → IsStill t (run limits es u)
unfolding run
run-IsStill limits [] t u h = h
run-IsStill limits (e ∷ es) t u h =
    run-IsStill limits es t (step limits e u) (step-IsStill limits e t u h)

module _ (i : String) (r : Reply) where
  -- The command has this reply.
  abbrev Replied : Mailbox → Type 0
  Replied m = Dict.get i m.replies ≡ some r

  settle_reply-Replied :
      (id : String) (q : Reply) (m : Mailbox) → Replied m → Replied (settle_reply id q m)
  unfolding settle_reply
  settle_reply-Replied id q m h = ground (arith, h, get-settle id i q m.replies)

  stop_mailbox-Replied : (m : Mailbox) → Replied m → Replied (stop_mailbox m)
  unfolding stop_mailbox
  stop_mailbox-Replied m h = ground (arith, h, get-fail_all i (taken_out m) m.replies)

  take-Replied : (o : Permit) (t : Trace) → Replied t.mailbox → Replied (take_with o t).mailbox
  unfolding take_next take_head claim_taken
  take-Replied free t h = h
  take-Replied ended t h = h
  take-Replied (waiting c) t h = ground (arith, h)

  offer-Replied :
      (limits : Limits) (o : Option WireCommand) (rest : List WireCommand) (t : Trace)
      → Replied t.mailbox
      → Replied (after_offer o rest limits t).mailbox
  unfolding offer
  offer-Replied limits none rest t h = h
  offer-Replied limits (some c) rest t h = ground (arith, h)

  complete-Replied :
      (c : PublicConnector) (now : ℕ) (id : String) (valid : Bool)
      (o : Option (Pending × ConnectorClaim)) (m : Mailbox)
      → Replied m
      → Replied (complete_claimed c now id valid o m).1
  unfolding complete_claimed
  complete-Replied c now id valid none m h = h
  complete-Replied c now id valid (some (p, k)) m h = ground (arith, h)

  step-Replied :
      (limits : Limits) (e : Event) (t : Trace)
      → Replied t.mailbox
      → Replied (step limits e t).mailbox
  unfolding step reserve connect may_deliver begin_complete withdraw_queued remove_pending
  step-Replied limits (reserves now c) t h = ground (arith, h)
  step-Replied limits (offers id) t h =
      offer-Replied limits (extract id t.unoffered).0 (extract id t.unoffered).1 t h
  step-Replied limits (connects connector now) t h = ground (arith, h)
  step-Replied limits (enters connector) t h = ground (arith, h)
  step-Replied limits takes t h = take-Replied t.permit t h
  step-Replied limits gives_up t h = h
  step-Replied limits leaves t h = h
  step-Replied limits (completes connector now id valid) t h = ground (
    arith,
    h,
    complete-Replied connector now id valid (completable connector (Dict.get id t.mailbox.pending))
        t.mailbox h,
  )
  step-Replied limits (settles id q) t h = settle_reply-Replied id q t.mailbox h
  step-Replied limits (removes id) t h = ground (arith, h)
  step-Replied limits (withdraws id) t h = ground (arith, h)
  step-Replied limits stops t h = stop_mailbox-Replied t.mailbox h

  run-Replied :
      (limits : Limits) (es : List Event) (t : Trace)
      → Replied t.mailbox
      → Replied (run limits es t).mailbox
  unfolding run
  run-Replied limits [] t h = h
  run-Replied limits (e ∷ es) t h =
      run-Replied limits es (step limits e t) (step-Replied limits e t h)

-- A stop of a running mailbox leaves a command its reply if it had one; else, if it is pending, the
-- failure that it was stopped while it was queued, and that its outcome is unknown once the
-- connector had it. That reply lasts whatever steps follow, and from the stop on no command is
-- admitted, handed to the connector or withdrawn.
pub stop-settles :
    (limits : Limits) (i : String) (r : Reply) (es : List Event) (t : Trace)
    → t.mailbox.active ≡ true
    → reply_after (Dict.get i t.mailbox.replies) (Dict.get i t.mailbox.pending) ≡ some r
    → let u = run limits (stops ∷ es) t in
      (Dict.get i u.mailbox.replies ≡ some r)
      × (u.issued ≡ t.issued)
      × (u.delivered ≡ t.delivered)
      × (u.withdrawn ≡ t.withdrawn)
unfolding run step
stop-settles limits i r es t live e =
    let u = step limits stops t in
    let (dead, shut, issued, delivered, withdrawn) = run-IsStill limits es t u (stops-IsStill t) in
    (
      run-Replied i r limits es u (get-stop_mailbox i t.mailbox live ∙ e),
      issued,
      delivered,
      withdrawn,
    )
  where
    stops-IsStill : (v : Trace) → IsStill v (record v { mailbox = stop_mailbox v.mailbox })
    stops-IsStill v = unfold stop_mailbox in (refl, refl, refl, refl, refl)
