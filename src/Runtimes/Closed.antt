-- ===== src/Runtimes/Closed.antt =====
-- After the shutdown (apps/pipee/src/server/session-runtime-registry.ts).
use pipee.Base.{
  ℕ, ◌≡◌, refl, Bool, true, false, not, Option, none, some, List, [], ◌∷◌, String, arith, eq_iff,
  ==_iff, any, keep,
}
use pipee.Base.Dict
use pipee.Base.Dict.{Dict}
use pipee.Runtimes.Table.{
  RuntimeHandle, Slot, starting, active, Registry, rejects, start_decision, launch, same_handle,
  in_table, install_with, epoch_of, install, remove_if, remove_active, fail_startup, close_handle,
  finalize, shutdown, Event, starts, identifies, abandons, fails, installs, closes, finalizes,
  shuts, step, steps,
}

any-keep :
    (h : RuntimeHandle) (p : RuntimeHandle → Bool) (hs : List RuntimeHandle)
    → any (same_handle h) hs ≡ false
    → any (same_handle h) (keep p hs) ≡ false
any-keep h p [] n = refl
any-keep h p (g ∷ hs) n = ground (arith, n, any-keep h p hs)

in_table_same :
    (slots : Dict Slot) (h g : RuntimeHandle)
    → same_handle h g ≡ true
    → in_table slots g ≡ in_table slots h
in_table_same [] h g e = refl
in_table_same ((id, starting k) ∷ slots) h g e = in_table_same slots h g e
in_table_same ((id, active a) ∷ slots) h g e = grind (
  arith,
  e,
  in_table_same slots h g e,
  eq_iff g.session_id h.session_id,
  eq_iff a.session_id g.session_id,
  eq_iff a.session_id h.session_id,
  ==_iff g.key h.key,
)

any-open :
    (slots : Dict Slot) (h : RuntimeHandle) (hs : List RuntimeHandle)
    → in_table slots h ≡ true
    → any (same_handle h) (keep (λ g. not (in_table slots g)) hs) ≡ false
any-open slots h [] e = refl
any-open slots h (g ∷ hs) e = ground (arith, e, any-open slots h hs e, in_table_same slots h g)

module _ (h : RuntimeHandle) where
  -- Closed for good: no slot, no start, and the scope of the handle is not open.
  abbrev pub IsClosed : Registry → Type 0
  IsClosed r = (r.slots ≡ []) × (r.accepting ≡ false) × (any (same_handle h) r.open_handles ≡ false)

  remove_if_empty :
      (key : ℕ) (id : String) (slots : Dict Slot) → slots ≡ [] → remove_if key id slots ≡ []
  unfolding Dict.get
  remove_if_empty key id [] e = refl
  remove_if_empty key id (s ∷ slots) e = ground (arith, e)

  remove_active_empty :
      (g : RuntimeHandle) (slots : Dict Slot) → slots ≡ [] → remove_active g slots ≡ []
  unfolding Dict.get
  remove_active_empty g [] e = refl
  remove_active_empty g (s ∷ slots) e = ground (arith, e)

  install_with-IsClosed :
      (key : ℕ) (id session : String) (o : Option ℕ) (r : Registry)
      → IsClosed r
      → IsClosed (install_with key id session o r)
  install_with-IsClosed key id session none r c = c
  install_with-IsClosed key id session (some epoch) r c = ground (arith, c)

  step-IsClosed : (e : Event) (r : Registry) → IsClosed r → IsClosed (step e r)
  unfolding step start_decision launch fail_startup close_handle finalize install shutdown
  step-IsClosed (starts id) r c = ground (arith, c)
  step-IsClosed (identifies key id) r c = c
  step-IsClosed (abandons key id) r c = c
  step-IsClosed (fails key id) r c = ground (arith, c, remove_if_empty key id r.slots c.0)
  step-IsClosed (installs key id session) r c =
      install_with-IsClosed key id session (epoch_of key id r.startups) r c
  step-IsClosed (finalizes g) r c = ground (
    arith,
    c,
    remove_active_empty g (remove_if g.key g.requested_id r.slots)
        (remove_if_empty g.key g.requested_id r.slots c.0),
  )
  step-IsClosed (closes g) r c =
      ground (arith, c, any-keep h (λ q. not (same_handle g q)) r.open_handles c.2)
  step-IsClosed shuts r c =
      (refl, refl, any-keep h (λ g. not (in_table r.slots g)) r.open_handles c.2)

  steps-IsClosed : (es : List Event) (r : Registry) → IsClosed r → IsClosed (steps es r)
  unfolding steps
  steps-IsClosed [] r c = c
  steps-IsClosed (e ∷ es) r c = steps-IsClosed es (step e r) (step-IsClosed e r c)

  shutdown-IsClosed : (r : Registry) → in_table r.slots h ≡ true → IsClosed (shutdown r)
  unfolding shutdown
  shutdown-IsClosed r e = (refl, refl, any-open r.slots h r.open_handles e)

rejects_closed :
    (id : String) (r : Registry) → r.accepting ≡ false → start_decision id r ≡ (rejects, r)
unfolding start_decision
rejects_closed id r e = ground (arith, e)

-- After a shutdown, whatever else happens, starts that are under way included: the table stays
-- empty, every further start is rejected and changes nothing, and a handle that was in the table at
-- the shutdown has its scope closed, or being closed, for good.
pub shutdown-closes :
    (r : Registry) (h : RuntimeHandle) (es : List Event) (id : String)
    → in_table r.slots h ≡ true
    → let t = steps es (shutdown r) in IsClosed h t × (start_decision id t ≡ (rejects, t))
shutdown-closes r h es id e =
    let c = steps-IsClosed h es (shutdown r) (shutdown-IsClosed h r e) in
    (c, rejects_closed id (steps es (shutdown r)) c.1)
