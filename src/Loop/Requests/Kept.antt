-- ===== src/Loop/Requests/Kept.antt =====
-- What an update keeps of a loop.
use pipee.Base.{ℕ, ◌≡◌, refl, ap, subst, ◌∙◌, Option, none, some, String, Result, ok, err}
use pipee.Loop.Model.{
  Loop, BaseFields, once, cron, interval, manual, fields, with_fields, retention, LoopConfig,
  loop_id,
}
use pipee.Loop.Runtime.{Runtime}
use pipee.Loop.Requests.{
  Numbers, LoopScheduleInput, CreateLoopInput, UpdateLoopInput, InputError, build_loop, updated,
  rebuilt, new_label, new_prompt, take_over, with_label,
}
use pipee.Loop.Requests.Built.{build_loop-IsNew}

pub record KeepsIdentity (old l : Loop) : Type 0 where
  pub same_id : loop_id l ≡ loop_id old
  pub same_kept : retention l ≡ retention old
  pub same_created : (fields l).created_at ≡ (fields old).created_at
  pub same_enabled : (fields l).enabled ≡ (fields old).enabled
  pub same_manual : (fields l).manual_cursor ≡ (fields old).manual_cursor

take_over-KeepsIdentity :
    (old l : Loop) (label : Option String)
    → retention l ≡ retention old
    → loop_id l ≡ loop_id old
    → KeepsIdentity old (take_over old l label)
take_over-KeepsIdentity old (once b r w) label k i = record {
  same_id = i;
  same_kept = k;
  same_created = refl;
  same_enabled = refl;
  same_manual = refl;
}
take_over-KeepsIdentity old (cron b r s u w) label k i = record {
  same_id = i;
  same_kept = k;
  same_created = refl;
  same_enabled = refl;
  same_manual = refl;
}
take_over-KeepsIdentity old (interval b r s u w) label k i = record {
  same_id = i;
  same_kept = k;
  same_created = refl;
  same_enabled = refl;
  same_manual = refl;
}
take_over-KeepsIdentity old (manual b p) label k i = record {
  same_id = i;
  same_kept = k;
  same_created = refl;
  same_enabled = refl;
  same_manual = refl;
}

relabel-KeepsIdentity :
    (l : Loop) (b : BaseFields) (label : Option String)
    → b.id ≡ loop_id l
    → b.created_at ≡ (fields l).created_at
    → b.enabled ≡ (fields l).enabled
    → b.manual_cursor ≡ (fields l).manual_cursor
    → KeepsIdentity l (with_label (with_fields l b) label)
relabel-KeepsIdentity (once x r w) b label i c e m = record {
  same_id = i;
  same_kept = refl;
  same_created = c;
  same_enabled = e;
  same_manual = m;
}
relabel-KeepsIdentity (cron x r s u w) b label i c e m = record {
  same_id = i;
  same_kept = refl;
  same_created = c;
  same_enabled = e;
  same_manual = m;
}
relabel-KeepsIdentity (interval x r s u w) b label i c e m = record {
  same_id = i;
  same_kept = refl;
  same_created = c;
  same_enabled = e;
  same_manual = m;
}
relabel-KeepsIdentity (manual x p) b label i c e m = record {
  same_id = i;
  same_kept = refl;
  same_created = c;
  same_enabled = e;
  same_manual = m;
}

module _ {Seconds : Type 0} (numbers : Numbers Seconds) (rt : Runtime) (config : LoopConfig) where
  rebuilt-KeepsIdentity :
      (current : Loop) (label : Option String) (input : CreateLoopInput Seconds) (now : ℕ)
      (r : Result (InputError Seconds) Loop) (l : Loop)
      → build_loop numbers rt config input (loop_id current) now ≡ r
      → input.retention ≡ retention current
      → rebuilt current label r ≡ ok l
      → KeepsIdentity current l
  rebuilt-KeepsIdentity current label input now (err e) l b k h = cc
  rebuilt-KeepsIdentity current label input now (ok new) l b k h =
      let fresh = build_loop-IsNew numbers rt config input (loop_id current) now new b in
      let same : take_over current new label ≡ l = cc in
      subst (KeepsIdentity current) same (
        take_over-KeepsIdentity current new label (fresh.kept_retention ∙ k)
          (ap (λ (t : BaseFields). t.id) fresh.settings))

  -- An update that is accepted keeps the identifier, retention, creation time, enablement and manual
  -- cursor of the loop, also where it gives the loop a new schedule of another kind.
  pub updated-KeepsIdentity :
      (input : UpdateLoopInput Seconds) (schedule : Option (LoopScheduleInput Seconds))
      (current : Loop) (now : ℕ) (l : Loop)
      → updated numbers rt config input schedule current now ≡ ok l
      → KeepsIdentity current l
  unfolding updated
  updated-KeepsIdentity input none current now l e =
      let b = fields current in
      let b' : BaseFields = record b { prompt = new_prompt input.prompt b.prompt } in
      let same : with_label (with_fields current b') (new_label input.label b.label) ≡ l = cc in
      subst (KeepsIdentity current) same
        (relabel-KeepsIdentity current b' (new_label input.label b.label) refl refl refl refl)
  updated-KeepsIdentity input (some schedule) current now l e =
      let b = fields current in
      let label = new_label input.label b.label in
      let request : CreateLoopInput Seconds = record {
        prompt = new_prompt input.prompt b.prompt;
        retention = retention current;
        schedule = schedule;
        label = label;
      } in
      rebuilt-KeepsIdentity current label request now
        (build_loop numbers rt config request b.id now) l refl refl e
