-- ===== src/Session/Cases.antt =====
-- How a snapshot that arrives ends (session-ui-state.ts): ignored, taken for its projection of the
-- extensions only, or taken whole.
use pipee.Base.{ℕ, not, ◌||◌, String, if_cases, ltb, str_eq, if◌then◌else◌}
use pipee.Session.Model.{SessionUiState, SessionSnapshot, is}
use pipee.Session.Runtime.{apply_runtime}
use pipee.Session.Context.{load, still_pending, is_other_run, newer_ui_of, take_snapshot}

pub load_cases {ℓ} :
    (P : SessionUiState → Type ℓ) (s : SessionUiState) (session : String) (request : ℕ)
    (snapshot : SessionSnapshot)
    → P s
    → P (newer_ui_of (record s { snapshot_request_id = request }) snapshot.runtime)
    → P (
        apply_runtime
          (take_snapshot s request snapshot (still_pending s.pending_prompt snapshot.context))
          snapshot.runtime)
    → P (load s session request snapshot)
unfolding load
load_cases P s session request snapshot same other whole =
    let p = still_pending s.pending_prompt snapshot.context in
    let projected = newer_ui_of (record s { snapshot_request_id = request }) snapshot.runtime in
    let taken = apply_runtime (take_snapshot s request snapshot p) snapshot.runtime in
    if_cases P
      (not (is session s.session_id)
        || not (str_eq snapshot.session_id session)
        || ltb request s.snapshot_request_id)
      s (if is_other_run s p snapshot.runtime then projected else taken) (λ e. same)
      (λ e.
        if_cases P (is_other_run s p snapshot.runtime) projected taken (λ f. other) (λ f. whole))
