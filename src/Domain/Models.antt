-- ===== src/Domain/Models.antt =====
-- The data of src/domain/models.ts. An id or a text is a `Text`; a time is in milliseconds.
use superscriber.Prelude.{Text, Equal, Option, Bool, ℕ, List}

pub data UserRole : Type 0 where
  uploader reviewer approver admin : UserRole

abbrev pub UserRole-discrete : Discrete UserRole
UserRole-discrete = hlevel

instance abbrev pub user_role_equal : Equal UserRole
user_role_equal = record { same = UserRole-discrete }

pub data IntegrityState : Type 0 where
  capturing uploading verifying verified verification_failed interrupted : IntegrityState

abbrev pub IntegrityState-discrete : Discrete IntegrityState
IntegrityState-discrete = hlevel

instance abbrev pub integrity_state_equal : Equal IntegrityState
integrity_state_equal = record { same = IntegrityState-discrete }

pub data TranscriptJobState : Type 0 where
  queued running partial_result completed failed cancelled : TranscriptJobState

abbrev pub TranscriptJobState-discrete : Discrete TranscriptJobState
TranscriptJobState-discrete = hlevel

instance abbrev pub job_state_equal : Equal TranscriptJobState
job_state_equal = record { same = TranscriptJobState-discrete }

pub data TranscriptRevisionState : Type 0 where
  draft pending_approval approved superseded withdrawn changes_requested : TranscriptRevisionState

abbrev pub TranscriptRevisionState-discrete : Discrete TranscriptRevisionState
TranscriptRevisionState-discrete = hlevel

instance abbrev pub revision_state_equal : Equal TranscriptRevisionState
revision_state_equal = record { same = TranscriptRevisionState-discrete }

pub data ApprovalState : Type 0 where
  not_submitted pending approved rejected reopened withdrawn changes_requested : ApprovalState

abbrev pub ApprovalState-discrete : Discrete ApprovalState
ApprovalState-discrete = hlevel

instance abbrev pub approval_state_equal : Equal ApprovalState
approval_state_equal = record { same = ApprovalState-discrete }

pub data AssignmentStatus : Type 0 where
  active completed removed : AssignmentStatus

abbrev pub AssignmentStatus-discrete : Discrete AssignmentStatus
AssignmentStatus-discrete = hlevel

instance abbrev pub assignment_status_equal : Equal AssignmentStatus
assignment_status_equal = record { same = AssignmentStatus-discrete }

pub data AdminActionEndReason : Type 0 where
  exited expired switched : AdminActionEndReason

abbrev pub AdminActionEndReason-discrete : Discrete AdminActionEndReason
AdminActionEndReason-discrete = hlevel

instance abbrev pub end_reason_equal : Equal AdminActionEndReason
end_reason_equal = record { same = AdminActionEndReason-discrete }

pub data PolicyProfileId : Type 0 where
  strict reviewable_approved_export : PolicyProfileId

abbrev pub PolicyProfileId-discrete : Discrete PolicyProfileId
PolicyProfileId-discrete = hlevel

instance abbrev pub policy_profile_equal : Equal PolicyProfileId
policy_profile_equal = record { same = PolicyProfileId-discrete }

pub data RecordingSource : Type 0 where
  upload record_audio : RecordingSource

abbrev pub RecordingSource-discrete : Discrete RecordingSource
RecordingSource-discrete = hlevel

instance abbrev pub source_equal : Equal RecordingSource
source_equal = record { same = RecordingSource-discrete }

pub data MediaKind : Type 0 where
  audio video : MediaKind

abbrev pub MediaKind-discrete : Discrete MediaKind
MediaKind-discrete = hlevel

instance abbrev pub media_kind_equal : Equal MediaKind
media_kind_equal = record { same = MediaKind-discrete }

-- A reviewer or an approver: an assignment's role, and an administrator's effective role.
pub data AssignmentRole : Type 0 where
  reviewer approver : AssignmentRole

abbrev pub AssignmentRole-discrete : Discrete AssignmentRole
AssignmentRole-discrete = hlevel

instance abbrev pub assignment_role_equal : Equal AssignmentRole
assignment_role_equal = record { same = AssignmentRole-discrete }

pub data AssignmentEndReason : Type 0 where
  removed_by_admin legacy_approved_backfill : AssignmentEndReason

abbrev pub AssignmentEndReason-discrete : Discrete AssignmentEndReason
AssignmentEndReason-discrete = hlevel

instance abbrev pub assignment_end_reason_equal : Equal AssignmentEndReason
assignment_end_reason_equal = record { same = AssignmentEndReason-discrete }

pub record TranscriptSegment : Type 0 where
  pub id : Text
  pub speaker_label : Text
  pub start_ms : ℕ
  pub end_ms : ℕ
  pub text : Text
  pub confidence : ℕ

pub record TranscriptSegmentEdit : Type 0 where
  pub id : Text
  pub text : Option Text
  pub speaker_label : Option Text

pub record AppUser : Type 0 where
  pub id : Text
  pub email : Text
  pub display_name : Text
  pub role : UserRole
  pub is_active : Bool
  pub must_change_password : Bool
  pub created_at : ℕ
  pub updated_at : ℕ

pub record Principal : Type 0 where
  pub user_id : Text
  pub email : Text
  pub display_name : Text
  pub role : UserRole

pub record Workspace : Type 0 where
  pub id : Text
  pub name : Text
  pub slug : Text
  pub policy_profile_id : PolicyProfileId

pub record Recording : Type 0 where
  pub id : Text
  pub workspace_id : Text
  pub title : Text
  pub source : RecordingSource
  pub media_kind : MediaKind
  pub mime_type : Option Text
  pub media_path : Option Text
  pub original_file_name : Option Text
  pub language_hint : Text
  pub transcript_model : Option Text
  pub uploaded_by_role : UserRole
  pub uploaded_by_user_id : Option Text
  pub ingestion_session_id : Option Text
  pub transcript_job_id : Option Text
  pub integrity_state : IntegrityState
  pub transcript_job_state : TranscriptJobState
  pub current_revision_id : Option Text
  pub approved_revision_id : Option Text
  pub pending_revision_id : Option Text
  pub verification_summary : Option Text
  pub created_at : ℕ
  pub updated_at : ℕ
  pub automation_cursor : Option Text

-- A role, or the system itself.
pub data ActorRole : Type 0 where
  user : UserRole → ActorRole
  system : ActorRole

pub record TranscriptRevision : Type 0 where
  pub id : Text
  pub recording_id : Text
  pub version : ℕ
  pub state : TranscriptRevisionState
  pub based_on_revision_id : Option Text
  pub created_by_role : ActorRole
  pub created_by_user_id : Option Text
  pub created_at : ℕ
  pub submitted_by_user_id : Option Text
  pub submitted_at : Option ℕ
  pub approved_at : Option ℕ
  pub summary : Text
  pub segments : List TranscriptSegment

pub record RecordingAssignment : Type 0 where
  pub id : Text
  pub recording_id : Text
  pub user_id : Text
  pub assigned_by_user_id : Option Text
  pub assignment_role : AssignmentRole
  pub status : AssignmentStatus
  pub is_active : Bool
  pub created_at : ℕ
  pub updated_at : ℕ
  pub ended_at : Option ℕ
  pub end_reason : Option AssignmentEndReason
  pub completed_revision_id : Option Text
  pub removed_by_user_id : Option Text

pub record AdminActionSession : Type 0 where
  pub id : Text
  pub admin_user_id : Text
  pub recording_id : Text
  pub effective_role : AssignmentRole
  pub purpose : Text
  pub started_at : ℕ
  pub expires_at : ℕ
  pub ended_at : Option ℕ
  pub end_reason : Option AdminActionEndReason

pub record ApprovalRecord : Type 0 where
  pub id : Text
  pub recording_id : Text
  pub revision_id : Text
  pub state : ApprovalState
  pub actor_role : UserRole
  pub actor_user_id : Option Text
  pub actor_display_name : Option Text
  pub effective_role : Option UserRole
  pub admin_action_session_id : Option Text
  pub created_at : ℕ
  pub note : Option Text

-- The types of an audit event.
pub data AuditEventType : Type 0 where
  session_started recording_created recording_verified recording_verification_failed :
      AuditEventType
  transcription_started transcription_partial transcription_completed : AuditEventType
  transcription_failed revision_saved revision_speakers_renamed revision_submitted : AuditEventType
  revision_withdrawn approval_approved approval_changes_requested approval_reopened : AuditEventType
  assignment_created assignment_completed assignment_removed account_self_deactivated :
      AuditEventType
  account_self_reactivated account_created account_deactivated account_reactivated : AuditEventType
  account_removed account_role_changed account_password_reset admin_action_mode_entered :
      AuditEventType
  admin_action_mode_exited export_issued policy_denied revision_recovered : AuditEventType

pub record PolicyDecision : Type 0 where
  pub can_view_media : Bool
  pub can_download_raw_media : Bool
  pub can_edit_draft : Bool
  pub can_submit_for_approval : Bool
  pub can_approve : Bool
  pub can_download_approved_transcript : Bool
  pub can_reopen_approved_transcript : Bool

pub data WorkspaceBucket : Type 0 where
  needs_ingest verifying transcribing needs_review pending_approval approved : WorkspaceBucket
