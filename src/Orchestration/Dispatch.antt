-- ===== src/Orchestration/Dispatch.antt =====
-- Handing a stored recording to an external engine (src/server/orchestration/dispatch.ts, and the
-- warnings of dispatch-warning.ts beside it). What the engine answers is an argument.
pub mod Laws
use superscriber.Prelude.{
  Text, ℕ, Option, none, some, Bool, true, false, List, [], ◌∷◌, ◌++◌, ◌===◌, text_equal, units,
  length, not, drop, truthy, non_empty, if◌then◌else◌, row, starts_with,
}
use superscriber.Domain.Models.{
  Recording, Workspace, PolicyProfileId, RecordingSource, MediaKind, UserRole, IntegrityState,
  TranscriptJobState,
}
use superscriber.Domain.Errors.{Failure, Result, ok, err, ◌>>=◌}
use superscriber.Domain.Speakers.{decimal}
use superscriber.Casefile.Store.{workspace_keyed, recording_keyed}
use superscriber.Workflow.State.{
  AppState, IngestionSession, TranscriptJob, session_keyed, job_keyed, row_of,
}
use superscriber.Workflow.Store.{Persisted, with_state, alone}
use superscriber.Orchestration.Config.{OrchestrationMode, OrchestrationConfig, bearer}
use superscriber.Orchestration.Request.{
  DispatchPayload, DispatchRequest, WorkspaceBody, RecordingBody, SessionBody, JobBody, printed,
  authorization_header, recording_body, request_of, Answer, accepted, refused_with, unanswered,
  payload_of, payload_for,
}
use superscriber.Orchestration.Sync.{note_orchestration_dispatch_failure, dispatch_failure_prefix}

-- The settings as they were read, the engine, and the message of each error of the application.
pub record Backend : Type 0 where
  pub config : OrchestrationConfig
  pub post : DispatchRequest → Answer
  pub message_of : Failure → Text

pub record DispatchResult : Type 0 where
  pub mode : OrchestrationMode
  pub dispatched : Bool
  pub message : Text

-- A result, or an error with its message.
pub data DispatchOutcome : Type 0 where
  settled : DispatchResult → DispatchOutcome
  thrown : Text → DispatchOutcome

abbrev pub note_change : Text → Text → ℕ → AppState → Result (Unit {0} × AppState)
note_change recording_id detail now s =
    note_orchestration_dispatch_failure recording_id detail now s >>= λ t. ok (tt, t)

-- `noteRecordingDispatchFailure` of src/server/repository.ts.
unfoldable pub note_recording_dispatch_failure :
    Text → Text → ℕ → Persisted → Result (Unit {0}) × Persisted
unfolding note_orchestration_dispatch_failure with_state
note_recording_dispatch_failure recording_id detail now p =
    with_state alone (note_change recording_id detail now) p

-- The failure is noted and thrown; where noting it fails, that error is thrown.
abbrev pub throw_noted :
    Backend → Text → Result (Unit {0}) × Persisted → DispatchOutcome × Persisted
throw_noted b detail (ok u, p) = (thrown detail, p)
throw_noted b detail (err e, p) = (thrown (b.message_of e), p)

unfoldable pub note_and_throw : Backend → Text → Text → ℕ → Persisted → DispatchOutcome × Persisted
unfolding note_recording_dispatch_failure
note_and_throw b recording_id detail now p =
    throw_noted b detail (note_recording_dispatch_failure recording_id detail now p)

unfoldable pub refusal_words : ℕ → Text → Text
unfolding decimal
refusal_words status body =
    units "External engine dispatch failed with "
    ++ (decimal status
        ++ (units ": " ++ (if non_empty body then body else units "no response body")))

unfoldable pub no_url_words : Text
no_url_words =
    units "External orchestration mode is enabled, but SUPERSCRIBER_ENGINE_DISPATCH_URL is missing."

unfoldable pub no_base_words : Text
no_base_words =
    units "External orchestration mode is enabled, but SUPERSCRIBER_APP_BASE_URL is missing."

unfoldable pub incomplete_words : Text
incomplete_words = units "Recording orchestration state is incomplete and could not be dispatched."

unfoldable pub mock_result : DispatchResult
mock_result = record {
  mode = OrchestrationMode.mock;
  dispatched = false;
  message = units "Using mock orchestration mode. No external engine dispatch was attempted.";
}

unfoldable pub internal_result : DispatchResult
internal_result = record {
  mode = OrchestrationMode.internal;
  dispatched = false;
  message =
      units "Using internal worker mode. Queued jobs are picked up by the local Python worker.";
}

unfoldable pub webhook_result : DispatchResult
webhook_result = record {
  mode = OrchestrationMode.webhook;
  dispatched = true;
  message = units "Recording dispatched to the configured external orchestration engine.";
}

-- The `catch` of the request.
abbrev pub rethrow : Backend → Text → ℕ → DispatchOutcome × Persisted → DispatchOutcome × Persisted
rethrow b recording_id now (settled result, p) = (settled result, p)
rethrow b recording_id now (thrown detail, p) = note_and_throw b recording_id detail now p

-- The request: a refusal is noted and thrown where it is read, and caught below.
unfoldable pub answered : Backend → Text → ℕ → Answer → Persisted → DispatchOutcome × Persisted
unfolding note_and_throw refusal_words webhook_result
answered b recording_id now accepted p = (settled webhook_result, p)
answered b recording_id now (refused_with status body) p =
    rethrow b recording_id now (note_and_throw b recording_id (refusal_words status body) now p)
answered b recording_id now (unanswered (some message)) p =
    note_and_throw b recording_id message now p
answered b recording_id now (unanswered none) p =
    note_and_throw b recording_id (units "External engine dispatch failed.") now p

unfoldable pub send :
    Backend → Text → ℕ → Option DispatchPayload → Persisted → DispatchOutcome × Persisted
unfolding answered note_and_throw incomplete_words request_of
send b recording_id now none p = note_and_throw b recording_id incomplete_words now p
send b recording_id now (some payload) p =
    answered b recording_id now (b.post (request_of b.config payload)) p

-- In this mode the state is read as it is stored.
unfoldable pub dispatch_to_external_engine :
    Backend → Text → ℕ → Persisted → DispatchOutcome × Persisted
unfolding send note_and_throw no_url_words no_base_words
dispatch_to_external_engine b recording_id now p =
    if not (truthy b.config.external_dispatch_url)
    then note_and_throw b recording_id no_url_words now p
    else if not (truthy b.config.app_base_url)
    then note_and_throw b recording_id no_base_words now p
    else send b recording_id now (payload_for p.app (row recording_id p.app.recordings)) p

unfoldable pub dispatch_in :
    OrchestrationMode
    → (Persisted → DispatchOutcome × Persisted)
    → Persisted
    → DispatchOutcome × Persisted
unfolding mock_result internal_result
dispatch_in OrchestrationMode.mock external p = (settled mock_result, p)
dispatch_in OrchestrationMode.internal external p = (settled internal_result, p)
dispatch_in OrchestrationMode.webhook external p = external p

unfoldable pub dispatch_recording_to_configured_engine :
    Backend → Text → ℕ → Persisted → DispatchOutcome × Persisted
unfolding dispatch_to_external_engine dispatch_in
dispatch_recording_to_configured_engine b recording_id now p =
    dispatch_in b.config.mode (dispatch_to_external_engine b recording_id now) p

unfoldable pub stored_words : Text → Text
stored_words detail = units "Upload stored, but backend dispatch failed: " ++ detail

unfoldable pub dispatch_warning_from_last_error : Option Text → Option Text
unfolding starts_with dispatch_failure_prefix stored_words
dispatch_warning_from_last_error none = none
dispatch_warning_from_last_error (some last_error) =
    if starts_with last_error dispatch_failure_prefix
    then some (stored_words (drop (length dispatch_failure_prefix) last_error))
    else none
