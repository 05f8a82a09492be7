-- ===== src/Weixin/Invariant.antt =====
-- What every state of the bridge (extensions/weixin/src/state.ts) has.
use pipee.Base.{
  ℕ, zero, suc, ◌+◌, ◌-◌, ◌≤◌, ◌<◌, ◌≡◌, refl, false, Option, none, some, List, [], ◌∷◌, ◌++◌,
  String, arith, if_cases, str_eq, eq_iff, length, length-drop, drop, count_if,
}
use pipee.Weixin.State.{
  BridgeState, PendingImageBatch, collecting, dispatching, Batch, InboundImages, InboundStateEvent,
  collect_images, dispatch_images, flush_images, expire_images, complete_images, Change, saves_auth,
  clears_auth, logs_out, sets_default_session, sets_enabled, saves_context_token, marks_processed,
  saves_cursor, transitions, change, changes, transition_inbound, with_processed, append_batch,
  begin_dispatch, begin_collected_dispatch, collect, dispatch, is_expired, save_auth, clear_auth,
  logout, includes, last,
}

abbrev pub times : String → List String → ℕ
times id = count_if (λ j. str_eq j id)

times-append : (id : String) (xs ys : List String) → times id (xs ++ ys) ≡ times id xs + times id ys
times-append id [] ys = omega arith
times-append id (x ∷ xs) ys = omega (arith, times-append id xs ys)

times-drop-le : (id : String) (n : ℕ) (xs : List String) → times id (drop n xs) ≤ times id xs
times-drop-le id zero xs = omega arith
times-drop-le id (suc n) [] = omega arith
times-drop-le id (suc n) (x ∷ xs) = omega (arith, times-drop-le id n xs)

times_missing : (id : String) (xs : List String) → includes xs id ≡ false → times id xs ≡ 0
times_missing id [] h = refl
times_missing id (x ∷ xs) h = grind (arith, h, eq_iff x id, eq_iff id x, times_missing id xs)

-- A list gets an element that it has not.
times-add :
    (id new : String) (xs : List String)
    → includes xs new ≡ false
    → times id xs ≤ 1
    → times id (xs ++ new ∷ []) ≤ 1
times-add id new xs h k =
    grind (arith, h, k, eq_iff new id, times_missing new xs, times-append id xs (new ∷ []))

module _ (batch_identity : List String → String) (limit : ℕ) (id : String) where
  -- A batch has the identifier at most once, and goes under the identity of its messages once it
  -- is dispatched.
  abbrev IsBatch : Option PendingImageBatch → Type 0
  IsBatch none = Unit
  IsBatch (some (collecting b deadline)) = times id b.message_ids ≤ 1
  IsBatch (some (dispatching b request prompt)) =
      (times id b.message_ids ≤ 1) × (request ≡ batch_identity b.message_ids)

  -- The processed messages are within the limit and have the identifier at most once.
  abbrev pub IsSound : BridgeState → Type 0
  IsSound s =
      (length s.processed_message_ids ≤ limit)
      × (times id s.processed_message_ids ≤ 1)
      × IsBatch s.pending_image_batch

  module _ (positive : 0 < limit) where
    last_bounds :
        (xs : List String)
        → (length (last limit xs) ≤ limit) × (times id (last limit xs) ≤ times id xs)
    last_bounds xs = ground (
      arith,
      positive,
      length-drop (length xs - limit) xs,
      times-drop-le id (length xs - limit) xs,
    )

    with_processed-IsSound :
        (s : BridgeState) (m : String) → IsSound s → IsSound (with_processed limit s m)
    unfolding with_processed
    with_processed-IsSound s m h =
        if_cases IsSound (includes s.processed_message_ids m) s
          (record s { processed_message_ids = last limit (s.processed_message_ids ++ m ∷ []) })
          (λ known. h)
          (λ new. ground (
            arith,
            h,
            last_bounds (s.processed_message_ids ++ m ∷ []),
            times-add id m s.processed_message_ids new h.1,
          ))

    abbrev IsAppended : Option Batch → Type 0
    IsAppended none = Unit
    IsAppended (some b) = times id b.message_ids ≤ 1

    append_batch-IsAppended :
        (p : Option PendingImageBatch) (e : InboundImages)
        → IsBatch p
        → IsAppended (append_batch p e)
    unfolding append_batch
    append_batch-IsAppended none e h = ground arith
    append_batch-IsAppended (some (dispatching b request prompt)) e h = tt
    append_batch-IsAppended (some (collecting b deadline)) e h =
        ground (arith, h, times-add id e.message_id b.message_ids)

    begin_dispatch-IsBatch :
        (p : Option PendingImageBatch) → IsBatch p → IsBatch (begin_dispatch batch_identity limit p)
    begin_dispatch-IsBatch none h = tt
    begin_dispatch-IsBatch (some (collecting b deadline)) h = (h, refl)
    begin_dispatch-IsBatch (some (dispatching b request prompt)) h = h

    collect-IsSound :
        (s : BridgeState) (e : InboundImages) (deadline : ℕ) (o : Option Batch)
        → IsSound s
        → IsAppended o
        → IsSound (collect batch_identity limit s e deadline o)
    collect-IsSound s e deadline none h k = h
    collect-IsSound s e deadline (some b) h k =
        with_processed-IsSound (record s { pending_image_batch = some (collecting b deadline) })
          e.message_id (h.0, h.1, k)

    dispatch-IsSound :
        (s : BridgeState) (e : InboundImages) (prompt : String) (o : Option Batch)
        → IsSound s
        → IsAppended o
        → IsSound (dispatch batch_identity limit s e prompt o)
    dispatch-IsSound s e prompt none h k = h
    dispatch-IsSound s e prompt (some b) h k =
        let t = record s {
          pending_image_batch = some (dispatching b (batch_identity b.message_ids) prompt);
        } in
        ground (arith, h, with_processed-IsSound t e.message_id (h.0, h.1, (k, refl)))

    transition_inbound-IsSound :
        (s : BridgeState) (e : InboundStateEvent)
        → IsSound s
        → IsSound (transition_inbound batch_identity limit s e)
    unfolding transition_inbound begin_collected_dispatch
    transition_inbound-IsSound s (collect_images e deadline) h =
        collect-IsSound s e deadline (append_batch s.pending_image_batch e) h
          (append_batch-IsAppended s.pending_image_batch e h.2)
    transition_inbound-IsSound s (dispatch_images e prompt) h =
        dispatch-IsSound s e prompt (append_batch s.pending_image_batch e) h
          (append_batch-IsAppended s.pending_image_batch e h.2)
    transition_inbound-IsSound s flush_images h =
        (h.0, h.1, begin_dispatch-IsBatch s.pending_image_batch h.2)
    transition_inbound-IsSound s (expire_images now) h =
        if_cases IsSound (is_expired batch_identity limit now s.pending_image_batch)
          (begin_collected_dispatch batch_identity limit s) s
          (λ e. (h.0, h.1, begin_dispatch-IsBatch s.pending_image_batch h.2)) (λ e. h)
    transition_inbound-IsSound s (complete_images request) h = ground (arith, h)

    change-IsSound :
        (s : BridgeState) (c : Change) → IsSound s → IsSound (change batch_identity limit s c)
    unfolding change save_auth clear_auth logout
    change-IsSound s (saves_auth auth) h = ground arith
    change-IsSound s clears_auth h = ground arith
    change-IsSound s logs_out h = ground arith
    change-IsSound s (sets_default_session target) h = h
    change-IsSound s (sets_enabled on) h = h
    change-IsSound s (saves_context_token token) h = h
    change-IsSound s (marks_processed m) h = with_processed-IsSound s m h
    change-IsSound s (saves_cursor cursor) h = h
    change-IsSound s (transitions e) h = transition_inbound-IsSound s e h

    -- Where the limit is positive, over any changes the processed messages stay within it, no
    -- message is twice among them or in the pending batch, and a batch that is dispatched goes
    -- under the identity of its messages.
    pub changes-IsSound :
        (s : BridgeState) (cs : List Change)
        → IsSound s
        → IsSound (changes batch_identity limit s cs)
    unfolding changes
    changes-IsSound s [] h = h
    changes-IsSound s (c ∷ cs) h =
        changes-IsSound (change batch_identity limit s c) cs (change-IsSound s c h)
