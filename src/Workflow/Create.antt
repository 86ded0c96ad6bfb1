-- ===== src/Workflow/Create.antt =====
-- New recordings, sessions, jobs and drafts (src/domain/workflow.ts). All readings of the clock in one
-- operation agree.
use superscriber.Prelude.{
  Text, Option, some, none, ℕ, suc, List, [], ◌∷◌, ◌++◌, row, units, if◌then◌else◌, ◌===◌,
}
use superscriber.Domain.Models.{
  IntegrityState, TranscriptJobState, TranscriptRevisionState, RecordingSource, MediaKind, UserRole,
  ActorRole, AuditEventType, Principal, Recording, TranscriptRevision, TranscriptSegment,
  integrity_state_equal, source_equal,
}
use superscriber.Domain.Errors.{Result, ok, ◌>>=◌, or_throw, recording_not_found}
use superscriber.Domain.Speakers.{normalize_speaker_labels}
use superscriber.Casefile.Store.{ActorContext, recording_keyed}
use superscriber.Casefile.Store.Audit.{actor_context_for_principal}
use superscriber.Casefile.Commands.Rows.{last_version}
use superscriber.Workflow.State.{
  AppState, IngestionSession, TranscriptJob, DiarizationStatus, value_or, or_else, drawn, create_id,
  set_recording, add_audit_event,
}

unfoldable pub awaiting_verification : Text
awaiting_verification = units "Awaiting server-side verification."

unfoldable pub upload_started : Text
upload_started =
    units
      "Upload session started. Continue from the last committed byte if the transfer is interrupted."

unfoldable pub mock_engine_id : Text
mock_engine_id = units "mock-governed-engine"

-- The optional arguments of `createIngestionSession`.
pub record SessionOptions : Type 0 where
  pub id : Option Text
  pub state : Option IntegrityState
  pub verification_summary : Option Text
  pub bytes_received : Option ℕ
  pub started_at : Option ℕ
  pub created_by_user_id : Option Text

abbrev pub no_options : SessionOptions
no_options = record {
  id = none;
  state = none;
  verification_summary = none;
  bytes_received = none;
  started_at = none;
  created_by_user_id = none;
}

-- The session of a recording, with a resume token of the next id.
unfoldable pub ingestion_session :
    Recording → Option ℕ → Text → SessionOptions → ℕ → Text → Text → IngestionSession
ingestion_session r media_bytes adapter_id options now id resume_token = record {
  id = id;
  recording_id = r.id;
  source = r.source;
  state = value_or options.state IntegrityState.verifying;
  adapter = adapter_id;
  created_by_user_id = options.created_by_user_id;
  created_at = now;
  updated_at = now;
  started_at = some (value_or options.started_at now);
  verified_at =
      if value_or options.state IntegrityState.verifying === IntegrityState.verified
      then some now
      else none;
  last_error = none;
  verification_summary = some (value_or options.verification_summary awaiting_verification);
  resume_token = some resume_token;
  bytes_received = or_else options.bytes_received media_bytes;
  bytes_expected = media_bytes;
}

abbrev pub given_or_drawn : Option Text → AppState → Text × AppState
given_or_drawn (some id) s = (id, s)
given_or_drawn none s = (create_id "ingest-" s, drawn s)

unfoldable pub create_ingestion_session :
    Recording → Option ℕ → Text → SessionOptions → ℕ → AppState → IngestionSession × AppState
unfolding ingestion_session
create_ingestion_session r media_bytes adapter_id options now s =
    let (id, t) = given_or_drawn options.id s in
    (ingestion_session r media_bytes adapter_id options now id (create_id "resume-" t), drawn t)

unfoldable pub transcript_job : Recording → Text → ℕ → Text → TranscriptJob
transcript_job r adapter_id now id = record {
  id = id;
  recording_id = r.id;
  state = TranscriptJobState.queued;
  adapter = adapter_id;
  claimed_by_worker_id = none;
  attempt_count = 0;
  created_at = now;
  updated_at = now;
  started_at = none;
  completed_at = none;
  last_heartbeat_at = none;
  eta_seconds = some 90;
  progress_percent = none;
  transcribed_until_ms = none;
  audio_duration_ms = none;
  segments_seen = none;
  output_revision_id = none;
  last_error = none;
  last_error_kind = none;
  last_error_technical = none;
  diarization_status = DiarizationStatus.pending;
}

unfoldable pub create_transcript_job : Recording → Text → ℕ → AppState → TranscriptJob × AppState
unfolding transcript_job
create_transcript_job r adapter_id now s =
    (transcript_job r adapter_id now (create_id "job-" s), drawn s)

abbrev pub system_draft : Text → Text → ℕ → ℕ → Text → List TranscriptSegment → TranscriptRevision
system_draft id recording_id version now summary segments = record {
  id = id;
  recording_id = recording_id;
  version = version;
  state = TranscriptRevisionState.draft;
  based_on_revision_id = none;
  created_by_role = ActorRole.system;
  created_by_user_id = none;
  created_at = now;
  submitted_by_user_id = none;
  submitted_at = none;
  approved_at = none;
  summary = summary;
  segments = segments;
}

-- The draft is the recording's current revision, with the next version.
unfoldable pub create_system_draft_revision :
    Text → List TranscriptSegment → Text → ℕ → AppState → Result (TranscriptRevision × AppState)
unfolding last_version
create_system_draft_revision recording_id segments summary now s = do
  recording ← or_throw (row recording_id s.recordings) recording_not_found
  labelled ← normalize_speaker_labels segments
  let draft =
      system_draft (create_id "rev-" s) recording_id (suc (last_version recording.id s.revisions))
        now summary labelled
  ok (
    draft,
    set_recording recording_id
        (λ r. record r { current_revision_id = some draft.id; updated_at = now })
        (drawn (record s { revisions = s.revisions ++ draft ∷ [] })),
  )

-- What a caller says of a new recording.
pub record NewRecording : Type 0 where
  pub workspace_id : Text
  pub title : Text
  pub source : RecordingSource
  pub media_kind : MediaKind
  pub mime_type : Option Text
  pub original_file_name : Option Text
  pub language_hint : Text
  pub transcript_model : Option Text

abbrev pub new_recording :
    NewRecording
    → Text
    → UserRole
    → Option Text
    → Option Text
    → IntegrityState
    → Text
    → ℕ
    → Recording
new_recording n id role user_id media_path integrity summary now = record {
  id = id;
  workspace_id = n.workspace_id;
  title = n.title;
  source = n.source;
  media_kind = n.media_kind;
  mime_type = n.mime_type;
  media_path = media_path;
  original_file_name = n.original_file_name;
  language_hint = n.language_hint;
  transcript_model = n.transcript_model;
  uploaded_by_role = role;
  uploaded_by_user_id = user_id;
  ingestion_session_id = none;
  transcript_job_id = none;
  integrity_state = integrity;
  transcript_job_state = TranscriptJobState.queued;
  current_revision_id = none;
  approved_revision_id = none;
  pending_revision_id = none;
  verification_summary = some summary;
  created_at = now;
  updated_at = now;
  automation_cursor = none;
}

-- The recording points at its session and its job, and all three stand first in their lists.
unfoldable pub add_entry : Recording → IngestionSession → TranscriptJob → AppState → AppState
add_entry r session job s = record s {
  recordings =
      record r { ingestion_session_id = some session.id; transcript_job_id = some job.id }
      ∷ s.recordings;
  ingestion_sessions = session ∷ s.ingestion_sessions;
  transcript_jobs = job ∷ s.transcript_jobs;
}

unfoldable pub source_words : RecordingSource → Text
source_words RecordingSource.record_audio = units "Browser recording"
source_words RecordingSource.upload = units "Upload"

unfoldable pub create_recording_entry :
    NewRecording → Option Text → UserRole → Option Text → ℕ → AppState → Recording × AppState
unfolding create_ingestion_session create_transcript_job add_entry add_audit_event source_words
create_recording_entry n media_path role adapter_id now s =
    let adapter = value_or adapter_id mock_engine_id in
    let r =
      new_recording n (create_id "rec-" s) role none media_path IntegrityState.verifying
        awaiting_verification now in
    let (session, t) = create_ingestion_session r none adapter no_options now (drawn s) in
    let (job, u) = create_transcript_job r adapter now t in
    let actor : ActorContext = record {
      actor_role = ActorRole.user role;
      actor_user_id = none;
      actor_display_name = none;
      effective_role = ActorRole.user role;
      admin_action_session_id = none;
    } in
    (
      record r { ingestion_session_id = some session.id; transcript_job_id = some job.id },
      add_audit_event r.workspace_id r.id actor AuditEventType.recording_created
          (source_words n.source ++ units " received and queued for verification.") now
          (add_entry r session job u),
    )

pub record UploadEntry : Type 0 where
  pub recording : Recording
  pub ingestion_session : IngestionSession
  pub transcript_job : TranscriptJob

unfoldable pub create_upload_session_entry :
    NewRecording → Principal → ℕ → Option Text → Option Text → ℕ → AppState → UploadEntry × AppState
unfolding create_ingestion_session create_transcript_job add_entry add_audit_event source_words
create_upload_session_entry n principal bytes_expected adapter_id session_id now s =
    let adapter = value_or adapter_id mock_engine_id in
    let r =
      new_recording n (create_id "rec-" s) principal.role (some principal.user_id) none
        IntegrityState.uploading upload_started now in
    let options : SessionOptions = record {
      id = session_id;
      state = some IntegrityState.uploading;
      verification_summary = some upload_started;
      bytes_received = some 0;
      started_at = none;
      created_by_user_id = some principal.user_id;
    } in
    let (session, t) =
      create_ingestion_session r (some bytes_expected) adapter options now (drawn s) in
    let (job, u) = create_transcript_job r adapter now t in
    (
      record {
        recording = record r {
          ingestion_session_id = some session.id;
          transcript_job_id = some job.id;
        };
        ingestion_session = session;
        transcript_job = job;
      },
      add_audit_event r.workspace_id r.id (actor_context_for_principal principal)
          AuditEventType.recording_created (source_words n.source ++ units " session started.") now
          (add_entry r session job u),
    )
