-- ===== src/Runtimes/Stands.antt =====
-- What each slot of the table (apps/pipee/src/server/session-runtime-registry.ts) stands for.
use pipee.Base.{
  ℕ, ◌+◌, ◌≡◌, refl, Bool, true, false, not, ◌&&◌, ◌||◌, Option, none, some, List, [], ◌∷◌, String,
  arith, if_cases, str_eq, eq_iff, ==_iff, ◌==◌, any, keep, subst, sym,
}
use pipee.Base.Dict
use pipee.Base.Dict.{Dict}
use pipee.Runtimes.Table.{
  RuntimeHandle, answer, start_failed, Slot, starting, active, Startup, Registry, start_decision,
  decide, launch, identify, end_startup, is_startup, is_starting, is_active, same_handle, remove_if,
  remove_active, fail_startup, close_handle, finalize,
}

-- The scope of the handle has not run its finalizer on the table.
abbrev pub is_held : RuntimeHandle → Registry → Bool
is_held h r = any (same_handle h) r.open_handles || any (same_handle h) r.closing_handles

-- Under an identifier: a starting slot has a start of that identifier in progress, and an active
-- one has a handle of that session whose scope has not run its finalizer.
abbrev pub Stands : Registry → String → Option Slot → Type 0
Stands r id none = Unit
Stands r id (some (starting key)) = any (is_startup key id) r.startups ≡ true
Stands r id (some (active h)) = (str_eq h.session_id id ≡ true) × (is_held h r ≡ true)

any-identify :
    (key k : ℕ) (id i : String) (epoch : ℕ) (ss : List Startup)
    → any (is_startup k i) (identify key id epoch ss) ≡ any (is_startup k i) ss
any-identify key k id i epoch [] = refl
any-identify key k id i epoch (s ∷ ss) = ground (arith, any-identify key k id i epoch ss)

any-end_startup :
    (key k : ℕ) (id i : String) (ss : List Startup)
    → ((k == key) && str_eq i id) ≡ false
    → any (is_startup k i) ss ≡ true
    → any (is_startup k i) (end_startup key id ss) ≡ true
any-end_startup key k id i [] n h = h
any-end_startup key k id i (s ∷ ss) n h = grind (
  arith,
  n,
  h,
  eq_iff s.requested_id i,
  eq_iff s.requested_id id,
  eq_iff i id,
  ==_iff s.key k,
  ==_iff s.key key,
  ==_iff k key,
  any-end_startup key k id i ss n,
)

any-close :
    (h g : RuntimeHandle) (hs : List RuntimeHandle)
    → same_handle h g ≡ false
    → any (same_handle g) hs ≡ true
    → any (same_handle g) (keep (λ q. not (same_handle h q)) hs) ≡ true
any-close h g [] n o = o
any-close h g (q ∷ hs) n o = grind (
  arith,
  n,
  o,
  eq_iff q.session_id g.session_id,
  eq_iff q.session_id h.session_id,
  eq_iff g.session_id h.session_id,
  ==_iff q.key g.key,
  ==_iff q.key h.key,
  ==_iff g.key h.key,
  any-close h g hs n,
)

close-held :
    (h g : RuntimeHandle) (open_ones closing_ones : List RuntimeHandle)
    → (any (same_handle g) open_ones || any (same_handle g) closing_ones) ≡ true
    → (any (same_handle g) (keep (λ q. not (same_handle h q)) open_ones)
        || any (same_handle g) (h ∷ closing_ones))
      ≡ true
close-held h g open_ones closing_ones m = grind (
  arith,
  m,
  any-close h g open_ones,
  eq_iff h.session_id g.session_id,
  eq_iff g.session_id h.session_id,
  ==_iff h.key g.key,
  ==_iff g.key h.key,
)

module _ (i : String) where
  abbrev pub IsBacked : Registry → Type 0
  IsBacked r = Stands r i (Dict.get i r.slots)

  -- What stands goes on standing where the starts in progress and the held handles of its
  -- identifier are still there.
  pub Stands-mono :
      (r q : Registry) (o : Option Slot)
      → ((k : ℕ) → any (is_startup k i) r.startups ≡ true → any (is_startup k i) q.startups ≡ true)
      → ((g : RuntimeHandle) → is_held g r ≡ true → is_held g q ≡ true)
      → Stands r i o
      → Stands q i o
  Stands-mono r q none f g h = tt
  Stands-mono r q (some (starting k)) f g h = f k h
  Stands-mono r q (some (active a)) f g h = (h.0, g a h.1)

  decide-IsBacked :
      (id : String) (o : Option Slot) (r : Registry) → IsBacked r → IsBacked (decide id o r).1
  decide-IsBacked id (some (active a)) r h = h
  decide-IsBacked id (some (starting k)) r h = h
  decide-IsBacked id none r h =
      let q = (decide id none r).1 in
      subst (Stands q i) (sym (Dict.get-set id i (starting r.next_key) r.slots)) (
        if_cases (Stands q i) (str_eq id i) (some (starting r.next_key)) (Dict.get i r.slots)
          (λ e. ground (arith, e, ==_iff r.next_key r.next_key))
          (λ e. Stands-mono r q (Dict.get i r.slots) (λ k m. ground (arith, m)) (λ g m. m) h))

  pub start_decision-IsBacked :
      (id : String) (r : Registry) → IsBacked r → IsBacked (start_decision id r).1
  unfolding start_decision
  start_decision-IsBacked id r h = ground (arith, h, decide-IsBacked id (Dict.get id r.slots) r h)

  launch-IsBacked :
      (key : ℕ) (id : String) (r : Registry) (o : Option Slot)
      → Stands r i o
      → Stands (launch true key id r) i o
  unfolding launch
  launch-IsBacked key id r none h = tt
  launch-IsBacked key id r (some (active g)) h = h
  launch-IsBacked key id r (some (starting k)) h =
      ground (arith, h, any-identify key k id i (r.runtime_epoch + 1) r.startups)

  pub identify-IsBacked :
      (key : ℕ) (id : String) (r : Registry) → IsBacked r → IsBacked (launch true key id r)
  unfolding launch
  identify-IsBacked key id r h = launch-IsBacked key id r (Dict.get i r.slots) h

  -- A slot that is gone stands for nothing, and the others stand as before.
  pub delete-Stands :
      (id : String) (q : Registry) (slots : Dict Slot)
      → (str_eq id i ≡ false → Stands q i (Dict.get i slots))
      → Stands q i (Dict.get i (Dict.delete id slots))
  delete-Stands id q slots h =
      subst (Stands q i) (sym (Dict.get-delete id i slots))
        (if_cases (Stands q i) (str_eq id i) none (Dict.get i slots) (λ e. tt) h)

  -- The end of a start leaves what stands, unless its own slot is left.
  pub ended-Stands :
      (key : ℕ) (id : String) (r q : Registry) (o : Option Slot)
      → q.startups ≡ end_startup key id r.startups
      → ((g : RuntimeHandle) → is_held g r ≡ true → is_held g q ≡ true)
      → ((str_eq id i && is_starting key o) ≡ false)
      → Stands r i o
      → Stands q i o
  ended-Stands key id r q none e f n h = tt
  ended-Stands key id r q (some (active a)) e f n h = (h.0, f a h.1)
  ended-Stands key id r q (some (starting k)) e f n h =
      subst (λ l. any (is_startup k i) l ≡ true) (sym e)
        (any-end_startup key k id i r.startups (ground (arith, n, eq_iff i id, eq_iff id i)) h)

  remove_if-Stands :
      (key : ℕ) (id : String) (r q : Registry)
      → q.startups ≡ end_startup key id r.startups
      → ((g : RuntimeHandle) → is_held g r ≡ true → is_held g q ≡ true)
      → IsBacked r
      → Stands q i (Dict.get i (remove_if key id r.slots))
  remove_if-Stands key id r q e f h =
      if_cases (λ slots. Stands q i (Dict.get i slots)) (is_starting key (Dict.get id r.slots))
        (Dict.delete id r.slots) r.slots
        (λ mine.
          delete-Stands id q r.slots
            (λ other. ended-Stands key id r q (Dict.get i r.slots) e f (ground (arith, other)) h))
        (λ others.
          ended-Stands key id r q (Dict.get i r.slots) e f (grind (arith, others, eq_iff id i)) h)

  pub fail_startup-IsBacked :
      (key : ℕ) (id : String) (r : Registry) → IsBacked r → IsBacked (fail_startup key id r)
  unfolding fail_startup
  fail_startup-IsBacked key id r h =
      let q = record r {
        slots = remove_if key id r.slots;
        startups = end_startup key id r.startups;
        answers = answer key start_failed r.answers;
      } in
      if_cases IsBacked (any (is_startup key id) r.startups) q r
        (λ e. remove_if-Stands key id r q refl (λ g m. m) h) (λ e. h)

  -- A handle that is gone leaves what stands, unless its own slot is left.
  closed-Stands :
      (h : RuntimeHandle) (r q : Registry) (o : Option Slot)
      → q.startups ≡ r.startups
      → ((g : RuntimeHandle) → same_handle h g ≡ false → is_held g r ≡ true → is_held g q ≡ true)
      → ((str_eq h.session_id i && is_active h o) ≡ false)
      → Stands r i o
      → Stands q i o
  closed-Stands h r q none e f n s = tt
  closed-Stands h r q (some (starting k)) e f n s =
      subst (λ l. any (is_startup k i) l ≡ true) (sym e) s
  closed-Stands h r q (some (active a)) e f n s = (
    s.0,
    f a
        (grind (
          arith,
          n,
          s.0,
          eq_iff a.session_id i,
          eq_iff h.session_id i,
          eq_iff a.session_id h.session_id,
        ))
        s.1,
  )

  remove_active-Stands :
      (h : RuntimeHandle) (r q : Registry) (slots : Dict Slot)
      → q.startups ≡ r.startups
      → ((g : RuntimeHandle) → same_handle h g ≡ false → is_held g r ≡ true → is_held g q ≡ true)
      → Stands r i (Dict.get i slots)
      → Stands q i (Dict.get i (remove_active h slots))
  remove_active-Stands h r q slots e f s =
      if_cases (λ l. Stands q i (Dict.get i l)) (is_active h (Dict.get h.session_id slots))
        (Dict.delete h.session_id slots) slots
        (λ mine.
          delete-Stands h.session_id q slots
            (λ other. closed-Stands h r q (Dict.get i slots) e f (ground (arith, other)) s))
        (λ others.
          closed-Stands h r q (Dict.get i slots) e f (grind (arith, others, eq_iff h.session_id i))
            s)

  pub close_handle-IsBacked :
      (h : RuntimeHandle) (r : Registry) → IsBacked r → IsBacked (close_handle h r)
  unfolding close_handle
  close_handle-IsBacked h r s =
      let q = record r {
        open_handles = keep (λ g. not (same_handle h g)) r.open_handles;
        closing_handles = h ∷ r.closing_handles;
      } in
      if_cases IsBacked (any (same_handle h) r.open_handles) q r
        (λ e.
          Stands-mono r q (Dict.get i r.slots) (λ k m. m)
            (λ g m. close-held h g r.open_handles r.closing_handles m) s)
        (λ e. s)

  pub finalize-IsBacked : (h : RuntimeHandle) (r : Registry) → IsBacked r → IsBacked (finalize h r)
  unfolding finalize
  finalize-IsBacked h r s =
      let slots = remove_if h.key h.requested_id r.slots in
      let q = record r {
        slots = remove_active h slots;
        closing_handles = keep (λ g. not (same_handle h g)) r.closing_handles;
      } in
      if_cases IsBacked (any (same_handle h) r.closing_handles) q r
        (λ e.
          remove_active-Stands h r q slots refl
            (λ g n m. ground (arith, m, any-close h g r.closing_handles n))
            (if_cases (λ l. Stands r i (Dict.get i l))
              (is_starting h.key (Dict.get h.requested_id r.slots))
              (Dict.delete h.requested_id r.slots) r.slots
              (λ mine. delete-Stands h.requested_id r r.slots (λ other. s)) (λ others. s)))
        (λ e. s)
