-- ===== src/App/Notices/Ids.antt =====
-- That no notice is repeated (apps/pipee/src/lib/notices.ts), with what `Room` has.
use pipee.Base.{
  ℕ, ◌+◌, ◌-◌, ◌≤◌, ◌≡◌, refl, Bool, false, not, ◌||◌, List, [], ◌∷◌, ◌++◌, String, str_eq, eq_iff,
  arith, if◌then◌else◌, if_cases, ltb, ◌==◌, length, take, drop, any, keep, take-append-drop,
  append_assoc, subst, sym,
}
use pipee.App.Notices.{
  NoticeItem, NoticeState, NoticeAction, add, dismiss, remove, max_visible_notices, mark_exiting,
  fill_visible_notices, has_id, is_exiting, evict, wait_for, place, add_new, notice_reducer, reduce,
}
use pipee.App.Notices.Room.{IsFilled, reduce-IsFilled}

-- Notices under an identifier, wherever they are.
abbrev pub copies : String → List NoticeItem → ℕ
copies i [] = 0
copies i (n ∷ ns) = (if str_eq n.id i then 1 else 0) + copies i ns

copies-mark_exiting :
    (i : String) (ns : List NoticeItem) (id : String) → copies i (mark_exiting ns id) ≡ copies i ns
unfolding mark_exiting
copies-mark_exiting i [] id = refl
copies-mark_exiting i (n ∷ ns) id = ground (arith, copies-mark_exiting i ns id)

copies-append :
    (i : String) (ns ms : List NoticeItem) → copies i (ns ++ ms) ≡ copies i ns + copies i ms
copies-append i [] ms = omega arith
copies-append i (n ∷ ns) ms = omega (arith, copies-append i ns ms)

copies-keep-le :
    (i : String) (p : NoticeItem → Bool) (ns : List NoticeItem) → copies i (keep p ns) ≤ copies i ns
copies-keep-le i p [] = omega arith
copies-keep-le i p (n ∷ ns) = ground (arith, copies-keep-le i p ns)

copies-none : (i : String) (ns : List NoticeItem) → any (has_id i) ns ≡ false → copies i ns ≡ 0
copies-none i [] h = refl
copies-none i (n ∷ ns) h = ground (arith, copies-none i ns, h)

copies-evict : (i : String) (ns : List NoticeItem) → copies i (evict ns) ≡ copies i ns
copies-evict i [] = refl
copies-evict i (n ∷ ns) = copies-mark_exiting i (n ∷ ns) n.id

-- Filling the free places keeps the order of the notices.
fill_keeps :
    (visible pending : List NoticeItem)
    → (fill_visible_notices visible pending).visible
        ++ (fill_visible_notices visible pending).pending
      ≡ visible ++ pending
unfolding fill_visible_notices
fill_keeps visible pending =
    let open_slots = max_visible_notices - length visible in
    if_cases (λ (t : NoticeState). t.visible ++ t.pending ≡ visible ++ pending)
      ((open_slots == 0) || (length pending == 0)) (record { visible = visible; pending = pending })
      (record { visible = visible ++ take open_slots pending; pending = drop open_slots pending })
      (λ full. refl) (λ room. grind (arith, take-append-drop open_slots pending, append_assoc))

-- How often an identifier is on screen or waits.
abbrev pub held : String → NoticeState → ℕ
held i s = copies i (s.visible ++ s.pending)

wait-held :
    (i : String) (n : NoticeItem) (visible : List NoticeItem) (s : NoticeState)
    → copies i visible ≡ copies i s.visible
    → held i (wait_for visible n s) ≡ held i s + (if str_eq n.id i then 1 else 0)
wait-held i n visible s e = omega (
  arith,
  e,
  copies-append i visible (s.pending ++ n ∷ []),
  copies-append i s.pending (n ∷ []),
  copies-append i s.visible s.pending,
)

-- A new notice is neither lost nor repeated.
held-add_new :
    (i : String) (n : NoticeItem) (s : NoticeState)
    → held i (add_new n s) ≡ held i s + (if str_eq n.id i then 1 else 0)
held-add_new i n s =
    let P = λ (t : NoticeState). held i t ≡ held i s + (if str_eq n.id i then 1 else 0) in
    if_cases P (any is_exiting s.visible) (wait_for s.visible n s) (place n s)
      (λ leaving. wait-held i n s.visible s refl)
      (λ staying.
        if_cases P (ltb (length s.visible) max_visible_notices)
          (record s { visible = s.visible ++ n ∷ [] }) (wait_for (evict s.visible) n s)
          (λ room. omega (
            arith,
            copies-append i (s.visible ++ n ∷ []) s.pending,
            copies-append i s.visible (n ∷ []),
            copies-append i s.visible s.pending,
          ))
          (λ full. wait-held i n (evict s.visible) s (copies-evict i s.visible)))

step-held :
    (i : String) (s : NoticeState) (a : NoticeAction)
    → held i s ≤ 1
    → held i (notice_reducer s a) ≤ 1
unfolding notice_reducer
step-held i s (add n) h =
    if_cases (λ t. held i t ≤ 1) (any (has_id n.id) s.visible || any (has_id n.id) s.pending) s
      (add_new n s) (λ known. h)
      (λ new. grind (
        arith,
        h,
        held-add_new i n s,
        new,
        copies-append i s.visible s.pending,
        copies-none n.id s.visible,
        copies-none n.id s.pending,
        eq_iff n.id i,
      ))
step-held i s (dismiss id) h = omega (
  arith,
  h,
  copies-append i s.visible s.pending,
  copies-append i (mark_exiting s.visible id) s.pending,
  copies-mark_exiting i s.visible id,
)
step-held i s (remove id) h =
    let kept = keep (λ n. not (has_id id n)) s.visible in
    subst (λ l. copies i l ≤ 1) (sym (fill_keeps kept s.pending))
      (omega (
        arith,
        h,
        copies-append i s.visible s.pending,
        copies-append i kept s.pending,
        copies-keep-le i (λ n. not (has_id id n)) s.visible,
      ))

reduce-held :
    (i : String) (actions : List NoticeAction) (s : NoticeState)
    → held i s ≤ 1
    → held i (reduce s actions) ≤ 1
unfolding reduce
reduce-held i [] s h = h
reduce-held i (a ∷ rest) s h = reduce-held i rest (notice_reducer s a) (step-held i s a h)

-- Whatever the actions, from a state that is so: at most four notices are visible, notices wait
-- only while four are visible or a visible one is on its way out, and an identifier is held at most
-- once, on screen and waiting together.
pub reduce-keeps :
    (i : String) (actions : List NoticeAction) (s : NoticeState)
    → IsFilled s
    → held i s ≤ 1
    → IsFilled (reduce s actions) × (held i (reduce s actions) ≤ 1)
reduce-keeps i actions s f h = (reduce-IsFilled actions s f, reduce-held i actions s h)
