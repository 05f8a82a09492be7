-- ===== src/Runtimes/Sound.antt =====
-- The invariant of the table (apps/pipee/src/server/session-runtime-registry.ts).
use pipee.Base.{
  ℕ, ◌≡◌, refl, Bool, true, false, not, ◌||◌, Option, none, some, List, [], ◌∷◌, String, arith,
  if_cases, str_eq, eq_iff, eq_refl, ==_iff, all, subst, sym, false≢true,
}
use pipee.Base.Dict
use pipee.Base.Dict.{Dict}
use pipee.Runtimes.Table.{
  RuntimeHandle, answer, start_failed, started, Slot, active, Registry, start_decision, decide,
  launch, end_startup, is_starting, is_active, put, install_with, epoch_of, install, remove_if,
  remove_active, fail_startup, close_handle, finalize, shutdown, Event, starts, identifies,
  abandons, fails, installs, closes, finalizes, shuts, step, steps,
}
use pipee.Runtimes.Stands.{
  Stands, is_held, finalize-IsBacked, IsBacked, delete-Stands, ended-Stands, Stands-mono,
  start_decision-IsBacked, identify-IsBacked, fail_startup-IsBacked, close_handle-IsBacked,
}

module _ (i : String) where
  abbrev pub is_there : Option Slot → Bool
  is_there none = false
  is_there (some slot) = true

  -- The slot stands for what it should, and a registry that is closed has none.
  abbrev pub IsSound : Registry → Type 0
  IsSound r = IsBacked i r × ((r.accepting || not (is_there (Dict.get i r.slots))) ≡ true)

  kept-Stands :
      (key : ℕ) (id : String) (r q : Registry) (o : Option Slot)
      → q.startups ≡ end_startup key id r.startups
      → ((g : RuntimeHandle) → is_held g r ≡ true → is_held g q ≡ true)
      → (not r.accepting || not (is_starting key (Dict.get id r.slots))) ≡ true
      → (r.accepting || not (is_there (Dict.get i r.slots))) ≡ true
      → o ≡ Dict.get i r.slots
      → Stands r i o
      → Stands q i o
  kept-Stands key id r q none e f refused shut same s = tt
  kept-Stands key id r q (some slot) e f refused shut same s =
      ended-Stands i key id r q (some slot) e f (grind (arith, refused, shut, same, eq_iff id i)) s

  put-IsBacked :
      (h : RuntimeHandle) (r : Registry)
      → IsSound r
      → IsBacked i (put h (record r { startups = end_startup h.key h.requested_id r.startups }))
  put-IsBacked h r s =
      let q = record r { startups = end_startup h.key h.requested_id r.startups } in
      let full = record q {
        slots = Dict.set h.session_id (active h) (Dict.delete h.requested_id r.slots);
        open_handles = h ∷ r.open_handles;
        answers = answer h.key (started h) r.answers;
      } in
      if_cases (IsBacked i)
        (not r.accepting || not (is_starting h.key (Dict.get h.requested_id r.slots)))
        (record q { answers = answer h.key start_failed r.answers }) full
        (λ refused.
          kept-Stands h.key h.requested_id r q (Dict.get i r.slots) refl (λ g m. m) refused s.1 refl
            s.0)
        (λ taken.
          subst (Stands full i)
            (sym (Dict.get-set h.session_id i (active h) (Dict.delete h.requested_id r.slots)))
            (if_cases (Stands full i) (str_eq h.session_id i) (some (active h))
              (Dict.get i (Dict.delete h.requested_id r.slots))
              (λ e. (e, ground (arith, ==_iff h.key h.key, eq_refl h.session_id)))
              (λ e. delete-Stands i h.requested_id full r.slots (λ other.
                Stands-mono i q full (Dict.get i r.slots) (λ k m. m) (λ g m. ground (arith, m))
                  (ended-Stands i h.key h.requested_id r q (Dict.get i r.slots) refl (λ g m. m)
                    (ground (arith, other)) s.0)))))

  install_with-IsBacked :
      (key : ℕ) (id session : String) (o : Option ℕ) (r : Registry)
      → IsSound r
      → IsBacked i (install_with key id session o r)
  install_with-IsBacked key id session none r s = s.0
  install_with-IsBacked key id session (some epoch) r s =
      put-IsBacked
        (record { key = key; requested_id = id; session_id = session; runtime_epoch = epoch }) r s

  -- Without a slot where the registry is closed.
  abbrev IsShut : Bool → Dict Slot → Type 0
  IsShut accepting slots = (accepting || not (is_there (Dict.get i slots))) ≡ true

  delete-IsShut :
      (accepting : Bool) (id : String) (slots : Dict Slot)
      → IsShut accepting slots
      → IsShut accepting (Dict.delete id slots)
  delete-IsShut accepting id slots h = grind (arith, h, Dict.get-delete id i slots)

  remove_if-IsShut :
      (accepting : Bool) (key : ℕ) (id : String) (slots : Dict Slot)
      → IsShut accepting slots
      → IsShut accepting (remove_if key id slots)
  remove_if-IsShut accepting key id slots h =
      if_cases (IsShut accepting) (is_starting key (Dict.get id slots)) (Dict.delete id slots) slots
        (λ e. delete-IsShut accepting id slots h) (λ e. h)

  remove_active-IsShut :
      (accepting : Bool) (g : RuntimeHandle) (slots : Dict Slot)
      → IsShut accepting slots
      → IsShut accepting (remove_active g slots)
  remove_active-IsShut accepting g slots h =
      if_cases (IsShut accepting) (is_active g (Dict.get g.session_id slots))
        (Dict.delete g.session_id slots) slots (λ e. delete-IsShut accepting g.session_id slots h)
        (λ e. h)

  decide-IsShut :
      (id : String) (o : Option Slot) (r : Registry)
      → r.accepting ≡ true
      → IsShut (decide id o r).1.accepting (decide id o r).1.slots
  decide-IsShut id o r live = ground (arith, live)

  install_with-IsShut :
      (key : ℕ) (id session : String) (o : Option ℕ) (r : Registry)
      → IsShut r.accepting r.slots
      → IsShut (install_with key id session o r).accepting (install_with key id session o r).slots
  install_with-IsShut key id session none r h = h
  install_with-IsShut key id session (some epoch) r h = ground (arith, h)

  -- The event is not a start that ends without an identity.
  abbrev pub has_identity : Event → Bool
  has_identity (abandons key id) = false
  has_identity (starts id) = true
  has_identity (identifies key id) = true
  has_identity (fails key id) = true
  has_identity (installs key id session) = true
  has_identity (closes g) = true
  has_identity (finalizes g) = true
  has_identity shuts = true

  step-IsSound : (e : Event) (r : Registry) → has_identity e ≡ true → IsSound r → IsSound (step e r)
  unfolding step install launch fail_startup close_handle finalize shutdown start_decision Dict.get
  step-IsSound (starts id) r n s = (
    start_decision-IsBacked i id r s.0,
    ground (arith, s.1, decide-IsShut id (Dict.get id r.slots) r),
  )
  step-IsSound (identifies key id) r n s = (identify-IsBacked i key id r s.0, s.1)
  step-IsSound (abandons key id) r n s = absurd (false≢true n)
  step-IsSound (fails key id) r n s = (
    fail_startup-IsBacked i key id r s.0,
    ground (arith, s.1, remove_if-IsShut r.accepting key id r.slots s.1),
  )
  step-IsSound (installs key id session) r n s = (
    install_with-IsBacked key id session (epoch_of key id r.startups) r s,
    install_with-IsShut key id session (epoch_of key id r.startups) r s.1,
  )
  step-IsSound (closes g) r n s = (close_handle-IsBacked i g r s.0, ground (arith, s.1))
  step-IsSound (finalizes g) r n s = (
    finalize-IsBacked i g r s.0,
    ground (
      arith,
      s.1,
      remove_active-IsShut r.accepting g (remove_if g.key g.requested_id r.slots)
          (remove_if-IsShut r.accepting g.key g.requested_id r.slots s.1),
    ),
  )
  step-IsSound shuts r n s = (tt, refl)

  -- In any order of the steps, if no start fails before it has an identity: a slot that is starting
  -- has a start of its identifier in progress, an active one has a handle of that very session whose
  -- scope has not run its finalizer on the table (it is open or being closed), and a registry that is
  -- closed has none.
  pub steps-IsSound :
      (es : List Event) (r : Registry)
      → all has_identity es ≡ true
      → IsSound r
      → IsSound (steps es r)
  unfolding steps
  steps-IsSound [] r n s = s
  steps-IsSound (e ∷ es) r n s =
      steps-IsSound es (step e r) (ground (arith, n)) (step-IsSound e r (ground (arith, n)) s)
