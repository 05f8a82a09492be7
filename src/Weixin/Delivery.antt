-- ===== src/Weixin/Delivery.antt =====
-- A batch of images that is dispatched (extensions/weixin/src/state.ts) stays until it is complete.
use pipee.Base.{
  ◌≡◌, Bool, true, false, not, none, some, List, [], ◌∷◌, String, arith, all, str_eq, eq_refl,
  subst, sym, ℕ, false≢true,
}
use pipee.Weixin.State.{
  BridgeState, dispatching, Batch, InboundStateEvent, collect_images, dispatch_images, flush_images,
  expire_images, complete_images, Change, saves_auth, clears_auth, logs_out, sets_default_session,
  sets_enabled, saves_context_token, marks_processed, saves_cursor, transitions, change, changes,
  transition_inbound, with_processed, append_batch, begin_collected_dispatch,
}

-- Neither the completion of this request nor a change of the account.
abbrev pub leaves : String → Change → Bool
leaves request (transitions (complete_images r)) = not (str_eq request r)
leaves request (transitions (collect_images e deadline)) = true
leaves request (transitions (dispatch_images e prompt)) = true
leaves request (transitions flush_images) = true
leaves request (transitions (expire_images now)) = true
leaves request (saves_auth auth) = false
leaves request clears_auth = false
leaves request logs_out = false
leaves request (sets_default_session target) = true
leaves request (sets_enabled on) = true
leaves request (saves_context_token token) = true
leaves request (marks_processed m) = true
leaves request (saves_cursor cursor) = true

module _ (batch_identity : List String → String) (limit : ℕ) (b : Batch)
    (request prompt : String) where
  abbrev Dispatches : BridgeState → Type 0
  Dispatches s = s.pending_image_batch ≡ some (dispatching b request prompt)

  -- Messages with images and timers change nothing at all while the batch is out.
  transition_out :
      (s : BridgeState) (e : InboundStateEvent)
      → leaves request (transitions e) ≡ true
      → Dispatches s
      → transition_inbound batch_identity limit s e ≡ s
  unfolding transition_inbound append_batch begin_collected_dispatch
  transition_out s e n h = ground (arith, n, h)

  change-Dispatches :
      (s : BridgeState) (c : Change)
      → leaves request c ≡ true
      → Dispatches s
      → Dispatches (change batch_identity limit s c)
  unfolding change with_processed
  change-Dispatches s (saves_auth auth) n h = absurd (false≢true n)
  change-Dispatches s clears_auth n h = absurd (false≢true n)
  change-Dispatches s logs_out n h = absurd (false≢true n)
  change-Dispatches s (sets_default_session target) n h = h
  change-Dispatches s (sets_enabled on) n h = h
  change-Dispatches s (saves_context_token token) n h = h
  change-Dispatches s (marks_processed m) n h = ground (arith, h)
  change-Dispatches s (saves_cursor cursor) n h = h
  change-Dispatches s (transitions e) n h = subst Dispatches (sym (transition_out s e n h)) h

  changes-Dispatches :
      (s : BridgeState) (cs : List Change)
      → all (leaves request) cs ≡ true
      → Dispatches s
      → Dispatches (changes batch_identity limit s cs)
  unfolding changes
  changes-Dispatches s [] n h = h
  changes-Dispatches s (c ∷ cs) n h =
      changes-Dispatches (change batch_identity limit s c) cs (ground (arith, n))
        (change-Dispatches s c (ground (arith, n)) h)

  complete-clears :
      (s : BridgeState)
      → Dispatches s
      → change batch_identity limit s (transitions (complete_images request))
        ≡ record s { pending_image_batch = none }
  unfolding change transition_inbound
  complete-clears s h = ground (arith, h, eq_refl request)

  -- A batch that is dispatched stays as it is, with its messages, images, request and prompt, over
  -- any changes but the completion of its request and those of the account; after them no message
  -- with images and no timer changes the state at all, and the completion of its request removes
  -- the batch and changes nothing else.
  pub dispatched-stays :
      (s : BridgeState) (cs : List Change) (e : InboundStateEvent)
      → all (leaves request) cs ≡ true
      → leaves request (transitions e) ≡ true
      → s.pending_image_batch ≡ some (dispatching b request prompt)
      → let t = changes batch_identity limit s cs in
        (t.pending_image_batch ≡ some (dispatching b request prompt))
        × (transition_inbound batch_identity limit t e ≡ t)
        × (change batch_identity limit t (transitions (complete_images request))
            ≡ record t { pending_image_batch = none })
  dispatched-stays s cs e n m h =
      let t = changes batch_identity limit s cs in
      let out = changes-Dispatches s cs n h in
      (out, transition_out t e m out, complete-clears t out)
