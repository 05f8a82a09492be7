-- ===== src/Broker/Flight.antt =====
-- How many commands a mailbox holds, and how many of them its connector has in hand.
use pipee.Base.{
  ℕ, ◌≤◌, ◌≡◌, refl, Bool, true, false, not, ◌&&◌, Option, none, some, List, [], ◌∷◌, String, sym,
  subst, ◌∙◌, arith, if_cases, ap, false≢true,
}
use pipee.Base.Dict
use pipee.Base.Dict.{Dict}
use pipee.Broker.Mailbox.{
  Limits, WireCommand, PublicConnector, claim_of, executing, completing, ignored, complete_claimed,
  Mailbox, Pending, Phase, ConnectorClaim, Reservation, stopped, offline, busy, reserved,
  before_delivery, unknown, pending_queued, reserve, offer, connect, may_deliver, take_next,
  take_head, claim_taken, begin_complete, settle_reply, remove_pending, withdraw_queued,
  stop_mailbox, completable,
}
use pipee.Broker.Steps.{
  Trace, Permit, free, waiting, ended, give_up, release, Event, reserves, offers, connects, enters,
  takes, gives_up, leaves, completes, settles, removes, withdraws, stops, mem, extract,
  after_reserve, after_take, after_offer, after_withdraw, take_with, enter_with, step, run, start,
}
use pipee.Broker.InFlight.{
  in_flight, in_flight-set, in_flight-set_busy, in_flight-delete, none_busy, size-set_known,
  size-set-le, completable_busy,
}

-- The mailbox holds at most the admitted number, at most one command is in flight, and none is
-- while the holder of the delivery permit waits for a command.
pub record IsBounded (limits : Limits) (t : Trace) : Type 0 where
  pub admitted : Dict.size t.mailbox.pending ≤ limits.max_admitted
  pub single : in_flight t.mailbox.pending ≤ 1
  pub exclusive : (c : PublicConnector) → t.permit ≡ waiting c → in_flight t.mailbox.pending ≡ 0

abbrev is_waiting : Permit → Bool
is_waiting free = false
is_waiting ended = false
is_waiting (waiting c) = true

not_waiting : (p : Permit) (c : PublicConnector) → is_waiting p ≡ false → p ≡ waiting c → ⊥
not_waiting p c e h = false≢true (sym e ∙ ap is_waiting h)

give_up_ends : (p : Permit) → is_waiting (give_up p) ≡ false
give_up_ends free = refl
give_up_ends ended = refl
give_up_ends (waiting c) = refl

release_waits : (p : Permit) (c : PublicConnector) → release p ≡ waiting c → p ≡ waiting c
release_waits free c h = h
release_waits ended c h = absurd (not_waiting free c refl h)
release_waits (waiting d) c h = h

module _ (limits : Limits) where
  -- What no step but a claim does: it adds nothing to what is in flight.
  shrinks :
      (t t' : Trace)
      → IsBounded limits t
      → Dict.size t'.mailbox.pending ≤ limits.max_admitted
      → in_flight t'.mailbox.pending ≤ in_flight t.mailbox.pending
      → t'.permit ≡ t.permit
      → IsBounded limits t'
  shrinks t t' h s f e = record {
    admitted = s;
    single = omega (arith, f, h.single);
    exclusive = λ c held. omega (arith, f, h.exclusive c (sym e ∙ held));
  }

  reserve-IsBounded :
      (now : ℕ) (c : WireCommand) (t : Trace)
      → IsBounded limits t
      → (r : Reservation × Mailbox) → r ≡ reserve limits now c t.mailbox
      → IsBounded limits (after_reserve c r t)
  unfolding reserve
  reserve-IsBounded now c t h (stopped, m) e = h
  reserve-IsBounded now c t h (offline, m) e = h
  reserve-IsBounded now c t h (busy, m) e = h
  reserve-IsBounded now c t h (reserved, m) e =
      shrinks t (after_reserve c (reserved, m) t) h
        (ground (
          arith,
          size-set-le c.id (record { command = c; phase = Phase.queued }) t.mailbox.pending,
        ))
        (ground (
          arith,
          in_flight-set c.id (record { command = c; phase = Phase.queued }) t.mailbox.pending,
        ))
        refl

  offer-IsBounded :
      (found : Option WireCommand) (rest : List WireCommand) (t : Trace)
      → IsBounded limits t
      → IsBounded limits (after_offer found rest limits t)
  unfolding offer
  offer-IsBounded none rest t h = h
  offer-IsBounded (some c) rest t h =
      shrinks t (after_offer (some c) rest limits t) h (ground (arith, h.admitted)) (ground arith)
        refl

  -- A claim ends the wait of the holder of the permit.
  claim-IsBounded :
      (connector : PublicConnector) (c : WireCommand) (m : Mailbox) (t : Trace)
      → IsBounded limits t
      → t.permit ≡ waiting connector
      → m.pending ≡ t.mailbox.pending
      → (o : Option Pending) → Dict.get c.id m.pending ≡ o
      → IsBounded limits (after_take (claim_taken connector c o m) t)
  unfolding claim_taken
  claim-IsBounded connector c m t h held e none g =
      shrinks t (after_take (none, m) t) h
        (subst (λ d. Dict.size d ≤ limits.max_admitted) (sym e) h.admitted)
        (subst (λ d. in_flight d ≤ in_flight t.mailbox.pending) (sym e) (omega arith)) refl
  claim-IsBounded connector c m t h held e (some p) g = record {
    admitted = ground (
      arith,
      h.admitted,
      size-set_known c.id (record p { phase = executing (claim_of connector) }) p m.pending g,
      e,
    );
    single = ground (
      arith,
      h.exclusive connector held,
      in_flight-set c.id (record p { phase = executing (claim_of connector) }) m.pending,
      e,
    );
    exclusive = λ d no. absurd (not_waiting ended d refl no);
  }

  head-IsBounded :
      (connector : PublicConnector) (cs : List WireCommand) (t : Trace)
      → IsBounded limits t
      → t.permit ≡ waiting connector
      → IsBounded limits (after_take (take_head connector cs t.mailbox) t)
  unfolding take_head
  head-IsBounded connector [] t h e = h
  head-IsBounded connector (c ∷ cs) t h e =
      let m : Mailbox = record t.mailbox { queue = cs } in
      if_cases (λ r. IsBounded limits (after_take r t)) (not t.mailbox.active) (none, m)
        (claim_taken connector c (Dict.get c.id t.mailbox.pending) m)
        (λ dead. shrinks t (after_take (none, m) t) h h.admitted (omega arith) refl)
        (λ live. claim-IsBounded connector c m t h e refl (Dict.get c.id t.mailbox.pending) refl)

  takes-IsBounded :
      (o : Permit) (t : Trace)
      → t.permit ≡ o
      → IsBounded limits t
      → IsBounded limits (take_with o t)
  unfolding take_next take_head
  takes-IsBounded free t e h = h
  takes-IsBounded ended t e h = h
  takes-IsBounded (waiting connector) t e h =
      if_cases (λ r. IsBounded limits (after_take r t)) t.mailbox.queue_open
        (take_head connector t.mailbox.queue t.mailbox) (none, t.mailbox)
        (λ unlocked. head-IsBounded connector t.mailbox.queue t h e) (λ shut. h)

  connects-IsBounded :
      (connector : PublicConnector) (now : ℕ) (t : Trace)
      → IsBounded limits t
      → IsBounded limits (step limits (connects connector now) t)
  unfolding step connect
  connects-IsBounded connector now t h =
      shrinks t (step limits (connects connector now) t) h (ground (arith, h.admitted))
        (ground arith) refl

  enters-IsBounded :
      (o : Permit) (connector : PublicConnector) (t : Trace)
      → IsBounded limits t
      → IsBounded limits (enter_with o connector t)
  unfolding may_deliver
  enters-IsBounded (waiting d) connector t h = h
  enters-IsBounded ended connector t h = h
  enters-IsBounded free connector t h =
      if_cases (IsBounded limits) (may_deliver t.mailbox) (record t { permit = waiting connector })
        t
        (λ free. record {
          admitted = h.admitted;
          single = h.single;
          exclusive = λ c held. none_busy t.mailbox.pending (ground arith);
        })
        (λ no. h)

  complete_claimed-IsBounded :
      (connector : PublicConnector) (now : ℕ) (id : String) (valid : Bool) (t : Trace)
      → IsBounded limits t
      → (o : Option (Pending × ConnectorClaim))
      → completable connector (Dict.get id t.mailbox.pending) ≡ o
      → IsBounded limits
          (record t { mailbox = (complete_claimed connector now id valid o t.mailbox).1 })
  unfolding complete_claimed
  complete_claimed-IsBounded connector now id valid t h none e = h
  complete_claimed-IsBounded connector now id false t h (some pc) e = h
  complete_claimed-IsBounded connector now id true t h (some (p, c)) e =
      let (known, hot) = completable_busy connector (Dict.get id t.mailbox.pending) (p, c) e in
      let p' : Pending = record p { phase = completing c } in
      shrinks t
        (record t { mailbox = (complete_claimed connector now id true (some (p, c)) t.mailbox).1 })
        h (ground (arith, h.admitted, size-set_known id p' p t.mailbox.pending known))
        (in_flight-set_busy id p' p t.mailbox.pending known hot) refl

  completes-IsBounded :
      (connector : PublicConnector) (now : ℕ) (id : String) (valid : Bool) (t : Trace)
      → IsBounded limits t
      → IsBounded limits (step limits (completes connector now id valid) t)
  unfolding step begin_complete
  completes-IsBounded connector now id valid t h =
      if_cases (λ r. IsBounded limits (record t { mailbox = r.1 })) (not t.mailbox.active)
        (ignored, t.mailbox)
        (complete_claimed connector now id valid
          (completable connector (Dict.get id t.mailbox.pending)) t.mailbox)
        (λ dead. h)
        (λ live.
          complete_claimed-IsBounded connector now id valid t h
            (completable connector (Dict.get id t.mailbox.pending)) refl)

  removes-IsBounded :
      (id : String) (t : Trace) → IsBounded limits t → IsBounded limits (step limits (removes id) t)
  unfolding step remove_pending
  removes-IsBounded id t h =
      shrinks t (step limits (removes id) t) h
        (ground (arith, h.admitted, Dict.size-delete-le id t.mailbox.pending))
        (ground (arith, in_flight-delete id t.mailbox.pending)) refl

  withdraws-IsBounded :
      (id : String) (t : Trace)
      → IsBounded limits t
      → IsBounded limits (step limits (withdraws id) t)
  unfolding step withdraw_queued
  withdraws-IsBounded id t h =
      if_cases (λ r. IsBounded limits (after_withdraw id r t))
        (t.mailbox.active && pending_queued (Dict.get id t.mailbox.pending))
        (before_delivery, record t.mailbox { pending = Dict.delete id t.mailbox.pending })
        (unknown, t.mailbox)
        (λ found.
          shrinks t
            (record t {
              mailbox = record t.mailbox { pending = Dict.delete id t.mailbox.pending };
              withdrawn = id ∷ t.withdrawn;
            })
            h (omega (arith, h.admitted, Dict.size-delete-le id t.mailbox.pending))
            (in_flight-delete id t.mailbox.pending) refl)
        (λ missing. h)

  stops-IsBounded : (t : Trace) → IsBounded limits t → IsBounded limits (step limits stops t)
  unfolding step stop_mailbox
  stops-IsBounded t h = shrinks t (step limits stops t) h (omega arith) (omega arith) refl

  step-IsBounded : (e : Event) (t : Trace) → IsBounded limits t → IsBounded limits (step limits e t)
  unfolding step settle_reply
  step-IsBounded (reserves now c) t h =
      if_cases (IsBounded limits) (mem c.id t.issued) t
        (after_reserve c (reserve limits now c t.mailbox) t) (λ known. h)
        (λ new. reserve-IsBounded now c t h (reserve limits now c t.mailbox) refl)
  step-IsBounded (offers id) t h =
      offer-IsBounded (extract id t.unoffered).0 (extract id t.unoffered).1 t h
  step-IsBounded (connects connector now) t h = connects-IsBounded connector now t h
  step-IsBounded (enters connector) t h = enters-IsBounded t.permit connector t h
  step-IsBounded takes t h = takes-IsBounded t.permit t refl h
  step-IsBounded gives_up t h = record {
    admitted = h.admitted;
    single = h.single;
    exclusive = λ c held. absurd (not_waiting (give_up t.permit) c (give_up_ends t.permit) held);
  }
  step-IsBounded leaves t h = record {
    admitted = h.admitted;
    single = h.single;
    exclusive = λ c held. h.exclusive c (release_waits t.permit c held);
  }
  step-IsBounded (completes connector now id valid) t h =
      completes-IsBounded connector now id valid t h
  step-IsBounded (settles id r) t h = record {
    admitted = h.admitted;
    single = h.single;
    exclusive = h.exclusive;
  }
  step-IsBounded (removes id) t h = removes-IsBounded id t h
  step-IsBounded (withdraws id) t h = withdraws-IsBounded id t h
  step-IsBounded stops t h = stops-IsBounded t h

  run-IsBounded_from :
      (es : List Event) (t : Trace) → IsBounded limits t → IsBounded limits (run limits es t)
  unfolding run
  run-IsBounded_from [] t h = h
  run-IsBounded_from (e ∷ es) t h = run-IsBounded_from es (step limits e t) (step-IsBounded e t h)

  -- After any sequence of steps from a new mailbox, it holds at most the admitted number of
  -- commands, at most one of them is in flight, and none is while the holder of the delivery permit waits for
  -- a command.
  pub run-IsBounded : (es : List Event) → IsBounded limits (run limits es start)
  unfolding start
  run-IsBounded es =
      run-IsBounded_from es start
        (record { admitted = omega arith; single = omega arith; exclusive = λ c held. refl })
