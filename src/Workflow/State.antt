-- ===== src/Workflow/State.antt =====
-- The state that ingest and orchestration work on: AppState of src/domain/models.ts, with its sessions
-- and jobs. A time is in milliseconds.
use superscriber.Prelude.{
  Text, String, Option, some, none, ℕ, suc, List, ◌∷◌, ◌++◌, Keyed, row, update_first, units,
}
use superscriber.Domain.Models.{
  IntegrityState, TranscriptJobState, RecordingSource, Workspace, Recording, TranscriptRevision,
  ApprovalRecord, AuditEventType, PolicyProfileId,
}
use superscriber.Casefile.Store.{ActorContext, AuditMetadata, recording_keyed}
use superscriber.Casefile.Store.Audit.{system_actor_context}

pub data DiarizationStatus : Type 0 where
  pending available degraded failed : DiarizationStatus

pub record PolicyProfile : Type 0 where
  pub id : PolicyProfileId
  pub label : Text
  pub description : Text

pub record IngestionSession : Type 0 where
  pub id : Text
  pub recording_id : Text
  pub source : RecordingSource
  pub state : IntegrityState
  pub adapter : Text
  pub created_by_user_id : Option Text
  pub created_at : ℕ
  pub updated_at : ℕ
  pub started_at : Option ℕ
  pub verified_at : Option ℕ
  pub last_error : Option Text
  pub verification_summary : Option Text
  pub resume_token : Option Text
  pub bytes_received : Option ℕ
  pub bytes_expected : Option ℕ

pub record TranscriptJob : Type 0 where
  pub id : Text
  pub recording_id : Text
  pub state : TranscriptJobState
  pub adapter : Text
  pub claimed_by_worker_id : Option Text
  pub attempt_count : ℕ
  pub created_at : ℕ
  pub updated_at : ℕ
  pub started_at : Option ℕ
  pub completed_at : Option ℕ
  pub last_heartbeat_at : Option ℕ
  pub eta_seconds : Option ℕ
  pub progress_percent : Option ℕ
  pub transcribed_until_ms : Option ℕ
  pub audio_duration_ms : Option ℕ
  pub segments_seen : Option ℕ
  pub output_revision_id : Option Text
  pub last_error : Option Text
  pub last_error_kind : Option Text
  pub last_error_technical : Option Text
  pub diarization_status : DiarizationStatus

-- `AuditEvent`; no metadata stands for EMPTY_AUDIT_METADATA.
pub record LoggedEvent : Type 0 where
  pub id : Text
  pub workspace_id : Text
  pub recording_id : Option Text
  pub actor : ActorContext
  pub type : AuditEventType
  pub detail : Text
  pub metadata : Option AuditMetadata
  pub created_at : ℕ

-- The last field is not of the state: it gives the ids that `crypto.randomUUID` will make, in order.
pub record AppState : Type 0 where
  pub workspaces : List Workspace
  pub policy_profiles : List PolicyProfile
  pub recordings : List Recording
  pub ingestion_sessions : List IngestionSession
  pub transcript_jobs : List TranscriptJob
  pub revisions : List TranscriptRevision
  pub approvals : List ApprovalRecord
  pub audit_events : List LoggedEvent
  pub uuids : ℕ → Text

instance abbrev pub session_keyed : Keyed IngestionSession
session_keyed = record { key = λ r. r.id }

instance abbrev pub job_keyed : Keyed TranscriptJob
job_keyed = record { key = λ r. r.id }

instance abbrev pub event_keyed : Keyed LoggedEvent
event_keyed = record { key = λ r. r.id }

-- `rows.find((entry) => entry.id === id)` where the id may be null.
abbrev pub row_of : {A : Type 0} ⦃k : Keyed A⦄ → Option Text → List A → Option A
row_of none rows = none
row_of (some id) rows = row id rows

-- `value ?? other`.
abbrev pub value_or {ℓ} : {A : Type ℓ} → Option A → A → A
value_or none other = other
value_or (some a) other = a

-- `value ?? other` where the other may be null too.
abbrev pub or_else {ℓ} : {A : Type ℓ} → Option A → Option A → Option A
or_else none other = other
or_else (some a) other = some a

-- The state after an id has been drawn.
abbrev pub drawn : AppState → AppState
drawn s = record s { uuids = λ n. s.uuids (suc n) }

-- `createId(prefix)`, with the dash in the prefix.
abbrev pub create_id : String → AppState → Text
create_id prefix s = units prefix ++ s.uuids 0

abbrev pub set_recording : Text → (Recording → Recording) → AppState → AppState
set_recording id f s = record s { recordings = update_first id f s.recordings }

abbrev pub set_session : Text → (IngestionSession → IngestionSession) → AppState → AppState
set_session id f s = record s { ingestion_sessions = update_first id f s.ingestion_sessions }

abbrev pub set_job : Text → (TranscriptJob → TranscriptJob) → AppState → AppState
set_job id f s = record s { transcript_jobs = update_first id f s.transcript_jobs }

-- `addAuditEvent`, the same in the three files but for the actor: the newest event stands first.
unfoldable pub add_audit_event :
    Text → Text → ActorContext → AuditEventType → Text → ℕ → AppState → AppState
add_audit_event workspace_id recording_id actor type detail now s = drawn (record s {
  audit_events =
      record {
        id = create_id "audit-" s;
        workspace_id = workspace_id;
        recording_id = some recording_id;
        actor = actor;
        type = type;
        detail = detail;
        metadata = none;
        created_at = now;
      }
      ∷ s.audit_events;
})

-- An event of the system about a recording.
abbrev pub add_system_event : Recording → AuditEventType → Text → ℕ → AppState → AppState
add_system_event r type detail now s =
    add_audit_event r.workspace_id r.id system_actor_context type detail now s
