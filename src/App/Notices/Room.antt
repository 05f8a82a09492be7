-- ===== src/App/Notices/Room.antt =====
-- How many notices are visible, and when others wait.
use pipee.Base.{
  ◌-◌, ◌≤◌, ◌≡◌, ◌⊎◌, inl, inr, refl, true, false, not, ◌||◌, List, [], ◌∷◌, ◌++◌, String, eq_refl,
  arith, if_cases, ltb, ◌==◌, length, take, drop, any, keep, length-append, length-take,
  length-drop, length-keep-le,
}
use pipee.App.Notices.{
  NoticeItem, NoticeState, NoticeAction, add, dismiss, remove, max_visible_notices, mark_exiting,
  fill_visible_notices, has_id, is_exiting, evict, wait_for, place, add_new, notice_reducer, reduce,
}

-- At most four are visible, and notices wait only while the screen is full or a visible one is
-- on its way out.
pub record IsFilled (s : NoticeState) : Type 0 where
  pub at_most : length s.visible ≤ max_visible_notices
  pub waits_for_room :
      1 ≤ length s.pending
      → (length s.visible ≡ max_visible_notices) ⊎ (any is_exiting s.visible ≡ true)

length-mark_exiting : (ns : List NoticeItem) (id : String) → length (mark_exiting ns id) ≡ length ns
unfolding mark_exiting
length-mark_exiting [] id = refl
length-mark_exiting (n ∷ ns) id = omega (arith, length-mark_exiting ns id)

any-mark_exiting :
    (ns : List NoticeItem) (id : String)
    → any is_exiting ns ≡ true
    → any is_exiting (mark_exiting ns id) ≡ true
unfolding mark_exiting
any-mark_exiting [] id h = h
any-mark_exiting (n ∷ ns) id h = ground (arith, any-mark_exiting ns id, h)

fill-IsFilled :
    (visible pending : List NoticeItem)
    → length visible ≤ max_visible_notices
    → IsFilled (fill_visible_notices visible pending)
unfolding fill_visible_notices
fill-IsFilled visible pending h =
    let open_slots = max_visible_notices - length visible in
    if_cases IsFilled ((open_slots == 0) || (length pending == 0))
      (record { visible = visible; pending = pending })
      (record { visible = visible ++ take open_slots pending; pending = drop open_slots pending })
      (λ full. record { at_most = h; waits_for_room = λ w. inl (ground arith) })
      (λ room. record {
        at_most = ground (
          arith,
          length-append visible (take open_slots pending),
          length-take open_slots pending,
        );
        waits_for_room = λ w. inl (
            ground (
              arith,
              length-append visible (take open_slots pending),
              length-take open_slots pending,
              length-drop open_slots pending,
            ));
      })

any-evict : (ns : List NoticeItem) → 1 ≤ length ns → any is_exiting (evict ns) ≡ true
unfolding mark_exiting
any-evict [] h = ground (arith, h)
any-evict (n ∷ ns) h = ground (arith, eq_refl n.id)

length-evict : (ns : List NoticeItem) → length (evict ns) ≡ length ns
length-evict [] = refl
length-evict (n ∷ ns) = length-mark_exiting (n ∷ ns) n.id

place-IsFilled :
    (n : NoticeItem) (s : NoticeState)
    → any is_exiting s.visible ≡ false
    → IsFilled s
    → IsFilled (place n s)
place-IsFilled n s staying h =
    if_cases IsFilled (ltb (length s.visible) max_visible_notices)
      (record s { visible = s.visible ++ n ∷ [] }) (wait_for (evict s.visible) n s)
      (λ room. record {
        at_most = ground (arith, length-append s.visible (n ∷ []));
        waits_for_room = λ w. ground (arith, h.waits_for_room w);
      })
      (λ full. record {
        at_most = omega (arith, h.at_most, length-evict s.visible);
        waits_for_room = λ w. inr (any-evict s.visible (ground arith));
      })

step-IsFilled : (s : NoticeState) (a : NoticeAction) → IsFilled s → IsFilled (notice_reducer s a)
unfolding notice_reducer
step-IsFilled s (add n) h =
    if_cases IsFilled (any (has_id n.id) s.visible || any (has_id n.id) s.pending) s (add_new n s)
      (λ known. h)
      (λ new.
        if_cases IsFilled (any is_exiting s.visible) (wait_for s.visible n s) (place n s)
          (λ leaving. record { at_most = h.at_most; waits_for_room = λ w. inr leaving })
          (λ staying. place-IsFilled n s staying h))
step-IsFilled s (dismiss id) h = record {
  at_most = omega (arith, length-mark_exiting s.visible id, h.at_most);
  waits_for_room = λ w.
      ground (
        arith,
        length-mark_exiting s.visible id,
        h.waits_for_room w,
        any-mark_exiting s.visible id,
      );
}
step-IsFilled s (remove id) h =
    fill-IsFilled (keep (λ n. not (has_id id n)) s.visible) s.pending
      (omega (arith, h.at_most, length-keep-le (λ n. not (has_id id n)) s.visible))

pub reduce-IsFilled :
    (actions : List NoticeAction) (s : NoticeState) → IsFilled s → IsFilled (reduce s actions)
unfolding reduce
reduce-IsFilled [] s h = h
reduce-IsFilled (a ∷ rest) s h = reduce-IsFilled rest (notice_reducer s a) (step-IsFilled s a h)
