-- ===== src/Weixin/Routes.antt =====
-- The routes of outbound messages (extensions/weixin/src/route-store.ts): the table
-- `outbound_routes`, whose keys are the account with the message and the account with the client.
-- Rows are never changed or removed. Whether the database answers is an argument.
use pipee.Base.{
  ℕ, ◌≡◌, Bool, true, false, ◌&&◌, ◌||◌, Option, none, some, List, [], ◌∷◌, ◌++◌, String, arith,
  if◌then◌else◌, str_eq, sym, subst, eq_refl, any,
}

pub record OutboundRoute : Type 0 where
  pub account_id : String
  pub server_message_id : String
  pub source_session_id : String
  pub client_id : String
  pub created_at : ℕ

abbrev pub Table : Type 0
Table = List OutboundRoute

-- The row of a message; a row that a new one conflicts with.
abbrev pub is_message : String → String → OutboundRoute → Bool
is_message account message r = str_eq r.account_id account && str_eq r.server_message_id message

abbrev pub conflicts : OutboundRoute → OutboundRoute → Bool
conflicts new r =
    is_message new.account_id new.server_message_id r
    || (str_eq r.account_id new.account_id && str_eq r.client_id new.client_id)

-- `INSERT OR IGNORE`
unfoldable pub insert_or_ignore : OutboundRoute → Table → Table
insert_or_ignore new t = if any (conflicts new) t then t else t ++ new ∷ []

-- `SELECT source_session_id`
unfoldable pub select_session : String → String → Table → Option String
select_session account message [] = none
select_session account message (r ∷ t) =
    if is_message account message r
    then some r.source_session_id
    else select_session account message t

pub data RecordOutcome : Type 0 where
  recorded store_failed : RecordOutcome
  conflict : (actual_session_id : String) → RecordOutcome

abbrev pub compared : OutboundRoute → Option String → RecordOutcome
compared r none = conflict "missing"
compared r (some actual) = if str_eq actual r.source_session_id then recorded else conflict actual

-- `record`: the insertion, then the check that the message is routed to this session.
unfoldable pub record_route : Bool → Bool → OutboundRoute → Table → RecordOutcome × Table
record_route inserts selects r t =
    if inserts
    then (let u = insert_or_ignore r t in
        (
          if selects
              then compared r (select_session r.account_id r.server_message_id u)
              else store_failed,
          u,
        ))
    else (store_failed, t)

-- Later records, each with what the database answers.
unfoldable pub record_all : List (Bool × Bool × OutboundRoute) → Table → Table
record_all [] t = t
record_all (c ∷ cs) t = record_all cs (record_route c.0 c.1 c.2 t).1

select-append :
    (account message session : String) (t u : Table)
    → select_session account message t ≡ some session
    → select_session account message (t ++ u) ≡ some session
unfolding select_session
select-append account message session [] u h = absurd (ground (arith, h))
select-append account message session (r ∷ t) u h =
    ground (arith, h, select-append account message session t u)

record-keeps :
    (account message session : String) (inserts selects : Bool) (r : OutboundRoute) (t : Table)
    → select_session account message t ≡ some session
    → select_session account message (record_route inserts selects r t).1 ≡ some session
unfolding record_route insert_or_ignore
record-keeps account message session inserts selects r t h =
    ground (arith, h, select-append account message session t (r ∷ []) h)

record_all-keeps :
    (account message session : String) (cs : List (Bool × Bool × OutboundRoute)) (t : Table)
    → select_session account message t ≡ some session
    → select_session account message (record_all cs t) ≡ some session
unfolding record_all
record_all-keeps account message session [] t h = h
record_all-keeps account message session (c ∷ cs) t h =
    record_all-keeps account message session cs (record_route c.0 c.1 c.2 t).1
      (record-keeps account message session c.0 c.1 c.2 t h)

select-fresh :
    (r : OutboundRoute) (t : Table)
    → any (conflicts r) t ≡ false
    → select_session r.account_id r.server_message_id (t ++ r ∷ []) ≡ some r.source_session_id
unfolding select_session
select-fresh r [] h = ground (arith, eq_refl r.account_id, eq_refl r.server_message_id)
select-fresh r (q ∷ t) h = ground (arith, h, select-fresh r t)

any_of_select :
    (r : OutboundRoute) (actual : String) (t : Table)
    → select_session r.account_id r.server_message_id t ≡ some actual
    → any (conflicts r) t ≡ true
unfolding select_session
any_of_select r actual [] h = ground (arith, h)
any_of_select r actual (q ∷ t) h = ground (arith, h, any_of_select r actual t)

-- A message that is routed stays as it is, whoever records it.
record_routed :
    (r : OutboundRoute) (actual : String) (t : Table)
    → select_session r.account_id r.server_message_id t ≡ some actual
    → record_route true true r t ≡ (compared r (some actual), t)
unfolding record_route insert_or_ignore
record_routed r actual t h = ground (arith, h, any_of_select r actual t h)

insert_fresh :
    (selects : Bool) (r : OutboundRoute) (t : Table)
    → any (conflicts r) t ≡ false
    → (record_route true selects r t).1 ≡ t ++ r ∷ []
unfolding record_route insert_or_ignore
insert_fresh selects r t h = ground (arith, h)

record_fresh :
    (r : OutboundRoute) (t : Table)
    → any (conflicts r) t ≡ false
    → record_route true true r t ≡ (recorded, t ++ r ∷ [])
unfolding record_route insert_or_ignore
record_fresh r t h = ground (arith, h, select-fresh r t h, eq_refl r.source_session_id)

-- A route whose message and client are new to its account is recorded, if the database answers.
-- Once it is in the table, with or without an answer, after any later records its message is routed
-- to its session, to record it again succeeds, another session is refused with its name, and
-- neither changes anything.
pub record-resolves :
    (selects : Bool) (r : OutboundRoute) (t : Table) (later : List (Bool × Bool × OutboundRoute))
    (other client : String)
    → any (conflicts r) t ≡ false
    → str_eq r.source_session_id other ≡ false
    → let u = record_all later (record_route true selects r t).1 in
      let rival = record r { source_session_id = other; client_id = client } in
      (record_route true true r t ≡ (recorded, t ++ r ∷ []))
      × (select_session r.account_id r.server_message_id u ≡ some r.source_session_id)
      × (record_route true true r u ≡ (recorded, u))
      × (record_route true true rival u ≡ (conflict r.source_session_id, u))
record-resolves selects r t later other client h n =
    let v = (record_route true selects r t).1 in
    let u = record_all later v in
    let rival = record r { source_session_id = other; client_id = client } in
    let found = record_all-keeps r.account_id r.server_message_id r.source_session_id later v (
      subst (λ w. select_session r.account_id r.server_message_id w ≡ some r.source_session_id)
        (sym (insert_fresh selects r t h)) (select-fresh r t h)) in
    (
      record_fresh r t h,
      found,
      ground (arith, record_routed r r.source_session_id u found, eq_refl r.source_session_id),
      ground (arith, record_routed rival r.source_session_id u found, n),
    )
