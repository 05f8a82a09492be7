-- ===== src/Runtimes/Waits.antt =====
-- One start for an identifier at a time (apps/pipee/src/server/session-runtime-registry.ts).
use pipee.Base.{
  ℕ, ◌≡◌, refl, Bool, true, false, not, ◌&&◌, Option, none, some, List, [], ◌∷◌, String, arith,
  str_eq, eq_iff, ◌==◌, all, false≢true,
}
use pipee.Base.Dict
use pipee.Base.Dict.{Dict}
use pipee.Runtimes.Table.{
  RuntimeHandle, Slot, starting, active, Registry, waits, start_decision, decide, launch,
  install_with, epoch_of, install, remove_if, remove_active, fail_startup, close_handle, finalize,
  Event, starts, identifies, abandons, fails, installs, closes, finalizes, shuts, step, steps,
}

module _ (i : String) (k : ℕ) where
  -- The event does not end the start with this key, does not stop the registry, and no other start
  -- turns out to be of this session.
  abbrev pub is_foreign : Event → Bool
  is_foreign (starts id) = true
  is_foreign (identifies key id) = true
  is_foreign (abandons key id) = true
  is_foreign (fails key id) = not ((k == key) && str_eq i id)
  is_foreign (installs key id session) = not ((k == key) && str_eq i id) && not (str_eq session i)
  is_foreign (closes h) = true
  is_foreign (finalizes h) = not (k == h.key)
  is_foreign shuts = false

  -- The identifier is starting under the key, in a registry that accepts.
  abbrev pub IsStarting : Registry → Type 0
  IsStarting r = (Dict.get i r.slots ≡ some (starting k)) × (r.accepting ≡ true)

  decide-IsStarting :
      (id : String) (o : Option Slot) (r : Registry)
      → o ≡ Dict.get id r.slots
      → IsStarting r
      → IsStarting (decide id o r).1
  decide-IsStarting id (some (active h)) r e s = s
  decide-IsStarting id (some (starting key)) r e s = s
  decide-IsStarting id none r e s =
      grind (arith, e, s, Dict.get-set id i (starting r.next_key) r.slots, eq_iff id i)

  remove_if-get :
      (key : ℕ) (id : String) (slots : Dict Slot)
      → ((k == key) && str_eq i id) ≡ false
      → Dict.get i slots ≡ some (starting k)
      → Dict.get i (remove_if key id slots) ≡ some (starting k)
  remove_if-get key id slots n s =
      grind (arith, n, s, Dict.get-delete id i slots, eq_iff id i, eq_iff i id)

  remove_active-get :
      (h : RuntimeHandle) (slots : Dict Slot)
      → Dict.get i slots ≡ some (starting k)
      → Dict.get i (remove_active h slots) ≡ some (starting k)
  remove_active-get h slots s =
      grind (arith, s, Dict.get-delete h.session_id i slots, eq_iff h.session_id i)

  install_with-IsStarting :
      (key : ℕ) (id session : String) (o : Option ℕ) (r : Registry)
      → is_foreign (installs key id session) ≡ true
      → IsStarting r
      → IsStarting (install_with key id session o r)
  install_with-IsStarting key id session none r n s = s
  install_with-IsStarting key id session (some epoch) r n s = grind (
    arith,
    n,
    s,
    Dict.get-set session i
        (active
          (record { key = key; requested_id = id; session_id = session; runtime_epoch = epoch }))
        (Dict.delete id r.slots),
    Dict.get-delete id i r.slots,
    eq_iff id i,
    eq_iff i id,
    eq_iff session i,
  )

  step-IsStarting :
      (e : Event) (r : Registry) → is_foreign e ≡ true → IsStarting r → IsStarting (step e r)
  unfolding step start_decision launch fail_startup close_handle finalize install
  step-IsStarting (starts id) r n s =
      ground (arith, s, decide-IsStarting id (Dict.get id r.slots) r refl s)
  step-IsStarting (identifies key id) r n s = s
  step-IsStarting (abandons key id) r n s = s
  step-IsStarting (fails key id) r n s = ground (arith, n, s, remove_if-get key id r.slots)
  step-IsStarting (installs key id session) r n s =
      install_with-IsStarting key id session (epoch_of key id r.startups) r n s
  step-IsStarting (closes h) r n s = ground (arith, s)
  step-IsStarting (finalizes h) r n s = ground (
    arith,
    n,
    s,
    remove_if-get h.key h.requested_id r.slots,
    remove_active-get h (remove_if h.key h.requested_id r.slots),
  )
  step-IsStarting shuts r n s = absurd (false≢true n)

  steps-IsStarting :
      (es : List Event) (r : Registry)
      → all is_foreign es ≡ true
      → IsStarting r
      → IsStarting (steps es r)
  unfolding steps
  steps-IsStarting [] r n s = s
  steps-IsStarting (e ∷ es) r n s =
      steps-IsStarting es (step e r) (ground (arith, n)) (step-IsStarting e r (ground (arith, n)) s)

  decide_starting : (r : Registry) → IsStarting r → start_decision i r ≡ (waits k, r)
  unfolding start_decision
  decide_starting r s = ground (arith, s)

-- While an identifier is starting, until that start ends or the registry stops, and if no other
-- start turns out to be of a session with that identifier, whatever else happens every further start
-- of it waits for the same deferred and changes nothing.
pub steps-waits :
    (i : String) (k : ℕ) (es : List Event) (r : Registry)
    → all (is_foreign i k) es ≡ true
    → Dict.get i r.slots ≡ some (starting k)
    → r.accepting ≡ true
    → start_decision i (steps es r) ≡ (waits k, steps es r)
steps-waits i k es r n s a = decide_starting i k (steps es r) (steps-IsStarting i k es r n (s, a))
