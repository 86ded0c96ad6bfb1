-- ===== src/Orchestration/Request.antt =====
-- What is sent to an external engine (the request of src/server/orchestration/dispatch.ts), and what it
-- may answer.
pub mod Laws
use superscriber.Prelude.{
  Text, ℕ, Option, none, some, Bool, true, false, List, [], ◌∷◌, ◌++◌, ◌===◌, text_equal, units,
  length, not, drop, truthy, non_empty, if◌then◌else◌, row, starts_with,
}
use superscriber.Domain.Models.{
  Recording, Workspace, PolicyProfileId, RecordingSource, MediaKind, UserRole, IntegrityState,
  TranscriptJobState,
}
use superscriber.Domain.Errors.{Failure, Result, ok, err, ◌>>=◌}
use superscriber.Domain.Speakers.{decimal}
use superscriber.Casefile.Store.{workspace_keyed, recording_keyed}
use superscriber.Workflow.State.{
  AppState, IngestionSession, TranscriptJob, session_keyed, job_keyed, row_of,
}
use superscriber.Workflow.Store.{Persisted, with_state, alone}
use superscriber.Orchestration.Config.{OrchestrationMode, OrchestrationConfig, bearer}
use superscriber.Orchestration.Sync.{note_orchestration_dispatch_failure}

-- The rows that the request is made of.
pub record DispatchPayload : Type 0 where
  pub recording : Recording
  pub workspace : Workspace
  pub session : IngestionSession
  pub job : TranscriptJob

pub record WorkspaceBody : Type 0 where
  pub id : Text
  pub name : Text
  pub policy_profile_id : PolicyProfileId

pub record RecordingBody : Type 0 where
  pub title : Text
  pub source : RecordingSource
  pub media_kind : MediaKind
  pub mime_type : Option Text
  pub media_path : Option Text
  pub original_file_name : Option Text
  pub language_hint : Text
  pub transcript_model : Option Text
  pub uploaded_by_role : UserRole
  pub created_at : ℕ

pub record SessionBody : Type 0 where
  pub id : Text
  pub state : IntegrityState
  pub resume_token : Option Text

pub record JobBody : Type 0 where
  pub id : Text
  pub state : TranscriptJobState

-- The request, with the time that it is given.
pub record DispatchRequest : Type 0 where
  pub url : Text
  pub timeout_ms : ℕ
  pub authorization : Option Text
  pub recording_id : Text
  pub workspace : WorkspaceBody
  pub recording : RecordingBody
  pub ingestion_session : SessionBody
  pub transcript_job : JobBody
  pub orchestration_update_url : Text
  pub status_url : Text

-- A text in a template.
abbrev pub printed : Option Text → Text
printed none = units "null"
printed (some text) = text

abbrev pub authorization_header : OrchestrationConfig → Option Text
authorization_header config =
    if non_empty config.shared_secret then some (bearer config.shared_secret) else none

abbrev pub recording_body : Recording → RecordingBody
recording_body r = record {
  title = r.title;
  source = r.source;
  media_kind = r.media_kind;
  mime_type = r.mime_type;
  media_path = r.media_path;
  original_file_name = r.original_file_name;
  language_hint = r.language_hint;
  transcript_model = r.transcript_model;
  uploaded_by_role = r.uploaded_by_role;
  created_at = r.created_at;
}

unfoldable pub request_of : OrchestrationConfig → DispatchPayload → DispatchRequest
unfolding bearer
request_of config payload =
    let base = printed config.app_base_url in
    record {
      url = printed config.external_dispatch_url;
      timeout_ms = config.dispatch_timeout_ms;
      authorization = authorization_header config;
      recording_id = payload.recording.id;
      workspace = record {
        id = payload.workspace.id;
        name = payload.workspace.name;
        policy_profile_id = payload.workspace.policy_profile_id;
      };
      recording = recording_body payload.recording;
      ingestion_session = record {
        id = payload.session.id;
        state = payload.session.state;
        resume_token = payload.session.resume_token;
      };
      transcript_job = record { id = payload.job.id; state = payload.job.state };
      orchestration_update_url = base ++ units "/api/orchestration/callback";
      status_url = base ++ (units "/api/recordings/" ++ (payload.recording.id ++ units "/status"));
    }

-- What comes of the request: a status that is fine, another with its words, or an error, with its message
-- where it has one.
pub data Answer : Type 0 where
  accepted : Answer
  refused_with : ℕ → Text → Answer
  unanswered : Option Text → Answer

abbrev pub payload_of :
    Option Recording
    → Option Workspace
    → Option IngestionSession
    → Option TranscriptJob
    → Option DispatchPayload
payload_of (some r) (some ws) (some e) (some j) =
    some (record { recording = r; workspace = ws; session = e; job = j })
payload_of (some r) (some ws) (some e) none = none
payload_of (some r) (some ws) none job = none
payload_of (some r) none session job = none
payload_of none workspace session job = none

abbrev pub payload_for : AppState → Option Recording → Option DispatchPayload
payload_for s none = none
payload_for s (some r) =
    payload_of (some r) (row r.workspace_id s.workspaces)
      (row_of r.ingestion_session_id s.ingestion_sessions)
      (row_of r.transcript_job_id s.transcript_jobs)
