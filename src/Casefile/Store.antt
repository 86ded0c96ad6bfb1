-- ===== src/Casefile/Store.antt =====
-- The database that the casefile commands work on (src/server/db/schema.ts), the actions that read
-- and write it, its transactions (src/server/db/transaction.ts), and the audit trail
-- (src/server/casefile/audit.ts).
pub mod Exec
pub mod Ensures
pub mod Audit
pub mod Succeeds
use superscriber.Prelude.{Text, Option, ℕ, List, Keyed}
use superscriber.Domain.Models.{
  AppUser, Workspace, Recording, TranscriptRevision, ApprovalRecord, RecordingAssignment,
  AdminActionSession, AuditEventType, ActorRole, AssignmentRole, AdminActionEndReason,
}
use superscriber.Domain.Speakers.{SpeakerRenamePlan}

-- Who acts: `ActorContext` of src/server/casefile/audit.ts.
pub record ActorContext : Type 0 where
  pub actor_role : ActorRole
  pub actor_user_id : Option Text
  pub actor_display_name : Option Text
  pub effective_role : ActorRole
  pub admin_action_session_id : Option Text

-- Which fields of a segment an edit sets.
pub record EditSummary : Type 0 where
  pub segment_id : Text
  pub fields : List Text

-- The metadata of an audit event, with a constructor for each shape that the casefile writes.
pub data AuditMetadata : Type 0 where
  saved : Text → Text → ℕ → List EditSummary → AuditMetadata
  submitted : Text → ℕ → Option (List EditSummary) → AuditMetadata
  speakers_renamed : Text → Text → ℕ → SpeakerRenamePlan → AuditMetadata
  -- The last part is the submitter whom an administrator overrides.
  withdrawn : Text → Text → Text → Option Text → AuditMetadata
  -- The last part is the submitter, who may be unknown.
  changes_requested : Text → Text → Text → Option Text → AuditMetadata
  approved : Text → Text → List Text → AuditMetadata
  reopened : Text → Text → Text → AuditMetadata
  assignment : Text → Text → AssignmentRole → AuditMetadata
  assignment_completed : Text → Text → AssignmentRole → Text → AuditMetadata
  action_mode_entered : Text → AssignmentRole → Text → ℕ → AuditMetadata
  action_mode_exited : Text → AssignmentRole → AdminActionEndReason → AuditMetadata

pub record AuditEvent : Type 0 where
  pub id : Text
  pub workspace_id : Text
  pub recording_id : Option Text
  pub actor : ActorContext
  pub type : AuditEventType
  pub metadata : AuditMetadata
  pub created_at : ℕ

-- A row of `users`, of which the account shows a part.
pub record UserRow : Type 0 where
  pub app_user : AppUser
  pub open app_user use *
  pub removed_at : Option ℕ

-- `state_version` is the one row of `app_state_meta`, which may be missing.
pub record Db : Type 0 where
  pub users : List UserRow
  pub workspaces : List Workspace
  pub recordings : List Recording
  pub revisions : List TranscriptRevision
  pub approvals : List ApprovalRecord
  pub audit_events : List AuditEvent
  pub assignments : List RecordingAssignment
  pub action_sessions : List AdminActionSession
  pub state_version : Option ℕ

-- The database, and the ids that `crypto.randomUUID` will give, in order.
pub record World : Type 0 where
  pub db : Db
  pub open db use *
  pub uuids : ℕ → Text

instance abbrev pub user_keyed : Keyed UserRow
user_keyed = record { key = λ r. r.id }

instance abbrev pub workspace_keyed : Keyed Workspace
workspace_keyed = record { key = λ r. r.id }

instance abbrev pub recording_keyed : Keyed Recording
recording_keyed = record { key = λ r. r.id }

instance abbrev pub revision_keyed : Keyed TranscriptRevision
revision_keyed = record { key = λ r. r.id }

instance abbrev pub approval_keyed : Keyed ApprovalRecord
approval_keyed = record { key = λ r. r.id }

instance abbrev pub audit_keyed : Keyed AuditEvent
audit_keyed = record { key = λ r. r.id }

instance abbrev pub assignment_keyed : Keyed RecordingAssignment
assignment_keyed = record { key = λ r. r.id }

instance abbrev pub action_session_keyed : Keyed AdminActionSession
action_session_keyed = record { key = λ r. r.id }
