-- ===== src/Broker/Ledger.antt =====
-- Each command is delivered at most once, and never after it was withdrawn.
use pipee.Base.{
  ℕ, sym, ap, subst, ◌∙◌, if_cases, ◌+◌, ◌≤◌, ◌≡◌, refl, Bool, true, false, not, ◌&&◌, Option, none,
  some, List, [], ◌∷◌, String, eq_iff, arith,
}
use pipee.Base.Dict
use pipee.Broker.Mailbox.{
  Limits, WireCommand, PublicConnector, Reservation, Mailbox, ConnectorClaim, executing, completing,
  ignored, complete_claimed, claim_of, Pending, Phase, stopped, offline, busy, reserved,
  before_delivery, unknown, pending_queued, reserve, offer, connect, may_deliver, take_next,
  take_head, claim_taken, begin_complete, settle_reply, remove_pending, withdraw_queued,
  stop_mailbox, completable,
}
use pipee.Broker.InFlight.{completable_busy}
use pipee.Broker.Steps.{
  Trace, Permit, free, waiting, ended, Event, reserves, offers, connects, enters, takes, gives_up,
  leaves, completes, settles, removes, withdraws, stops, mem, extract, after_reserve, after_take,
  after_offer, after_withdraw, take_with, step, run, start,
}
use pipee.Broker.Copies.{
  occurs, waits, found_waits, known, copies, waits-append, extract-waits, Counts,
}

module _ (i : String) where
  -- What the steps that deliver, issue and withdraw nothing have in common.
  keeps :
      (t t' : Trace)
      → Counts i t
      → t'.issued ≡ t.issued
      → t'.withdrawn ≡ t.withdrawn
      → t'.delivered ≡ t.delivered
      → copies i t' ≤ copies i t
      → (known (Dict.get i t'.mailbox.pending) ≡ true → known (Dict.get i t.mailbox.pending) ≡ true)
      → (pending_queued (Dict.get i t'.mailbox.pending) ≡ true
          → pending_queued (Dict.get i t.mailbox.pending) ≡ true)
      → Counts i t'
  keeps t t' h e w d c k q = record {
    once = ground (arith, e, d, c, h.once);
    from_issue = λ p. ap (mem i) e ∙ h.from_issue (k p);
    not_yet = λ p. ap (occurs i) d ∙ h.not_yet (q p);
    gone = λ p. ground (arith, k, h.gone (ap (mem i) (sym w) ∙ p));
    gone_issued = λ p. ap (mem i) e ∙ h.gone_issued (ap (mem i) (sym w) ∙ p);
    gone_undelivered = λ p. ap (occurs i) d ∙ h.gone_undelivered (ap (mem i) (sym w) ∙ p);
  }

  reserve-Counts :
      (limits : Limits) (now : ℕ) (c : WireCommand) (t : Trace)
      → Counts i t
      → mem c.id t.issued ≡ false
      → (r : Reservation × Mailbox) → r ≡ reserve limits now c t.mailbox
      → Counts i (after_reserve c r t)
  unfolding reserve
  reserve-Counts limits now c t h new (stopped, m) e = h
  reserve-Counts limits now c t h new (offline, m) e = h
  reserve-Counts limits now c t h new (busy, m) e = h
  reserve-Counts limits now c t h new (reserved, m) e =
      let p : Pending = record { command = c; phase = Phase.queued } in
      let at_i = Dict.get-set c.id i p t.mailbox.pending in
      let same : m ≡ record t.mailbox { pending = Dict.set c.id p t.mailbox.pending } =
        ground (arith, e) in
      subst (λ n. Counts i (after_reserve c (reserved, n) t)) (sym same)
        (record {
          once = grind (arith, new, h.once, eq_iff c.id i);
          from_issue = λ q. grind (arith, at_i, q, h.from_issue);
          not_yet = λ q. grind (arith, new, at_i, q, h.not_yet, h.once, eq_iff c.id i);
          gone = λ q. grind (arith, new, at_i, h.gone q, h.gone_issued q, eq_iff c.id i);
          gone_issued = λ q. ground (arith, h.gone_issued q);
          gone_undelivered = h.gone_undelivered;
        })

  offer-Counts :
      (limits : Limits) (found : Option WireCommand) (rest : List WireCommand) (t : Trace)
      → Counts i t
      → waits i t.unoffered ≡ found_waits i found + waits i rest
      → Counts i (after_offer found rest limits t)
  unfolding offer
  offer-Counts limits none rest t h e = h
  offer-Counts limits (some c) rest t h e =
      keeps t (after_offer (some c) rest limits t) h refl refl refl
        (ground (arith, e, waits-append i t.mailbox.queue (c ∷ []))) (ground arith) (ground arith)

  claim-Counts :
      (connector : PublicConnector) (c : WireCommand) (cs : List WireCommand) (t : Trace)
      → Counts i t
      → t.mailbox.queue ≡ c ∷ cs
      → (o : Option Pending) → Dict.get c.id t.mailbox.pending ≡ o
      → Counts i (after_take (claim_taken connector c o (record t.mailbox { queue = cs })) t)
  unfolding claim_taken
  claim-Counts connector c cs t h e none g =
      keeps t (after_take (none, record t.mailbox { queue = cs }) t) h refl refl refl
        (ground (arith, e)) (λ p. p) (λ p. p)
  claim-Counts connector c cs t h e (some p) g =
      let p' : Pending = record p { phase = executing (claim_of connector) } in
      let at_i = Dict.get-set c.id i p' t.mailbox.pending in
      record {
        once = grind (arith, e, h.once);
        from_issue = λ q. grind (arith, at_i, q, h.from_issue, g, eq_iff c.id i);
        not_yet = λ q. grind (arith, at_i, q, h.not_yet, eq_iff c.id i);
        gone = λ q. grind (arith, at_i, h.gone q, g, eq_iff c.id i);
        gone_issued = h.gone_issued;
        gone_undelivered = λ q. grind (arith, h.gone q, g, h.gone_undelivered q, eq_iff c.id i);
      }

  takes-Counts : (o : Permit) (t : Trace) → Counts i t → Counts i (take_with o t)
  unfolding take_next take_head
  takes-Counts free t h = h
  takes-Counts ended t h = h
  takes-Counts (waiting connector) t h =
      if_cases (λ r. Counts i (after_take r t)) t.mailbox.queue_open
        (take_head connector t.mailbox.queue t.mailbox) (none, t.mailbox)
        (λ unlocked. go t.mailbox.queue refl) (λ shut. h)
    where
      go :
          (cs : List WireCommand)
          → t.mailbox.queue ≡ cs
          → Counts i (after_take (take_head connector cs t.mailbox) t)
      go [] e = h
      go (c ∷ cs) e =
          let m : Mailbox = record t.mailbox { queue = cs } in
          if_cases (λ r. Counts i (after_take r t)) (not t.mailbox.active) (none, m)
            (claim_taken connector c (Dict.get c.id t.mailbox.pending) m)
            (λ dead.
              keeps t (after_take (none, m) t) h refl refl refl (ground (arith, e)) (λ p. p)
                (λ p. p))
            (λ live. claim-Counts connector c cs t h e (Dict.get c.id t.mailbox.pending) refl)

  complete_claimed-Counts :
      (connector : PublicConnector) (now : ℕ) (id : String) (valid : Bool) (t : Trace)
      → Counts i t
      → (o : Option (Pending × ConnectorClaim))
      → completable connector (Dict.get id t.mailbox.pending) ≡ o
      → Counts i (record t { mailbox = (complete_claimed connector now id valid o t.mailbox).1 })
  unfolding complete_claimed
  complete_claimed-Counts connector now id valid t h none e = h
  complete_claimed-Counts connector now id false t h (some pc) e = h
  complete_claimed-Counts connector now id true t h (some (p, c)) e =
      let (found, hot) = completable_busy connector (Dict.get id t.mailbox.pending) (p, c) e in
      let at_i = Dict.get-set id i (record p { phase = completing c }) t.mailbox.pending in
      keeps t
        (record t { mailbox = (complete_claimed connector now id true (some (p, c)) t.mailbox).1 })
        h refl refl refl (omega arith) (λ q. grind (arith, at_i, q, found, eq_iff id i))
        (λ q. grind (arith, at_i, q, found, eq_iff id i))

  completes-Counts :
      (connector : PublicConnector) (now : ℕ) (id : String) (valid : Bool) (t : Trace)
      → Counts i t
      → Counts i (record t { mailbox = (begin_complete connector now id valid t.mailbox).1 })
  unfolding begin_complete
  completes-Counts connector now id valid t h =
      if_cases (λ r. Counts i (record t { mailbox = r.1 })) (not t.mailbox.active)
        (ignored, t.mailbox)
        (complete_claimed connector now id valid
          (completable connector (Dict.get id t.mailbox.pending)) t.mailbox)
        (λ dead. h)
        (λ live.
          complete_claimed-Counts connector now id valid t h
            (completable connector (Dict.get id t.mailbox.pending)) refl)

  -- Fewer pending commands.
  deletes-Counts :
      (id : String) (t : Trace)
      → Counts i t
      → Counts i
          (record t { mailbox = record t.mailbox { pending = Dict.delete id t.mailbox.pending } })
  deletes-Counts id t h =
      let at_i = Dict.get-delete id i t.mailbox.pending in
      keeps t
        (record t { mailbox = record t.mailbox { pending = Dict.delete id t.mailbox.pending } }) h
        refl refl refl (omega arith) (λ q. grind (arith, at_i, q)) (λ q. grind (arith, at_i, q))

  withdraws-Counts :
      (id : String) (t : Trace)
      → Counts i t
      → Counts i (after_withdraw id (withdraw_queued id t.mailbox) t)
  unfolding withdraw_queued
  withdraws-Counts id t h =
      if_cases (λ r. Counts i (after_withdraw id r t))
        (t.mailbox.active && pending_queued (Dict.get id t.mailbox.pending))
        (before_delivery, record t.mailbox { pending = Dict.delete id t.mailbox.pending })
        (unknown, t.mailbox)
        (λ found.
          let k = deletes-Counts id t h in
          let at_i = Dict.get-delete id i t.mailbox.pending in
          record {
            once = k.once;
            from_issue = k.from_issue;
            not_yet = k.not_yet;
            gone = λ q. grind (arith, at_i, q, h.gone, eq_iff id i);
            gone_issued = λ q. grind (arith, q, found, h.gone_issued, h.from_issue, eq_iff id i);
            gone_undelivered =
                λ q. grind (arith, q, found, h.gone_undelivered, h.not_yet, eq_iff id i);
          })
        (λ missing. h)

  step-Counts : (limits : Limits) (e : Event) (t : Trace) → Counts i t → Counts i (step limits e t)
  unfolding step settle_reply connect remove_pending may_deliver stop_mailbox Dict.get
  step-Counts limits (reserves now c) t h =
      if_cases (Counts i) (mem c.id t.issued) t (after_reserve c (reserve limits now c t.mailbox) t)
        (λ taken. h)
        (λ new. reserve-Counts limits now c t h new (reserve limits now c t.mailbox) refl)
  step-Counts limits (offers id) t h =
      offer-Counts limits (extract id t.unoffered).0 (extract id t.unoffered).1 t h
        (extract-waits i id t.unoffered)
  step-Counts limits (connects connector now) t h =
      keeps t (step limits (connects connector now) t) h refl refl refl (ground arith)
        (λ q. ground (arith, q)) (λ q. ground (arith, q))
  step-Counts limits (enters connector) t h =
      keeps t (step limits (enters connector) t) h (ground arith) (ground arith) (ground arith)
        (ground arith) (λ q. ground (arith, q)) (λ q. ground (arith, q))
  step-Counts limits takes t h = takes-Counts t.permit t h
  step-Counts limits gives_up t h =
      keeps t (step limits gives_up t) h refl refl refl (omega arith) (λ q. q) (λ q. q)
  step-Counts limits leaves t h =
      keeps t (step limits leaves t) h refl refl refl (omega arith) (λ q. q) (λ q. q)
  step-Counts limits (completes connector now id valid) t h =
      completes-Counts connector now id valid t h
  step-Counts limits (settles id r) t h =
      keeps t (step limits (settles id r) t) h refl refl refl (omega arith) (λ q. q) (λ q. q)
  step-Counts limits (removes id) t h =
      if_cases (λ m. Counts i (record t { mailbox = m })) (not t.mailbox.active) t.mailbox
        (record t.mailbox { pending = Dict.delete id t.mailbox.pending }) (λ dead. h)
        (λ live. deletes-Counts id t h)
  step-Counts limits (withdraws id) t h = withdraws-Counts id t h
  step-Counts limits stops t h =
      keeps t (step limits stops t) h refl refl refl (omega arith) (λ q. ground (arith, q))
        (λ q. ground (arith, q))

  run-Counts :
      (limits : Limits) (es : List Event) (t : Trace) → Counts i t → Counts i (run limits es t)
  unfolding run
  run-Counts limits [] t h = h
  run-Counts limits (e ∷ es) t h = run-Counts limits es (step limits e t) (step-Counts limits e t h)

  start-Counts : Counts i start
  unfolding start Dict.get
  start-Counts = record {
    once = omega arith;
    from_issue = λ q. ground (arith, q);
    not_yet = λ q. refl;
    gone = λ q. refl;
    gone_issued = λ q. q;
    gone_undelivered = λ q. refl;
  }

  -- Whatever the order of the steps from a new mailbox, the connector is handed a command at most
  -- once.
  pub delivered_once :
      (limits : Limits) (es : List Event) → occurs i (run limits es start).delivered ≤ 1
  delivered_once limits es = ground (arith, (run-Counts limits es start start-Counts).once)

  -- Whatever the order of the steps from a new mailbox, a command that was withdrawn before
  -- delivery is not handed to the connector, before or after.
  pub withdrawn-undelivered :
      (limits : Limits) (es : List Event)
      → mem i (run limits es start).withdrawn ≡ true
      → occurs i (run limits es start).delivered ≡ 0
  withdrawn-undelivered limits es = (run-Counts limits es start start-Counts).gone_undelivered
