-- ===== src/Orchestration/Webhook.antt =====
-- The callbacks of an external engine (applyOrchestrationWebhookUpdate of
-- src/server/orchestration/service.ts). A field of a payload may be absent, or there and null.
pub mod Laws
use superscriber.Prelude.{
  Text, Option, some, none, ℕ, List, Bool, true, false, not, ◌&&◌, ◌===◌, units, if◌then◌else◌,
  truthy,
}
use mathlib.Core.Option
use superscriber.Domain.Models.{
  IntegrityState, TranscriptJobState, AuditEventType, Recording, TranscriptSegment,
  integrity_state_equal, job_state_equal,
}
use superscriber.Domain.Errors.{Result, ok, ◌>>=◌}
use superscriber.Casefile.Store.{recording_keyed}
use superscriber.Workflow.State.{
  AppState, IngestionSession, TranscriptJob, DiarizationStatus, session_keyed, job_keyed, value_or,
  or_else, set_recording, set_session, set_job, add_audit_event, add_system_event,
}
use superscriber.Workflow.Create.{create_system_draft_revision}
use superscriber.Orchestration.Normalize.{normalize_state, resolve_recording_refs, RecordingRefs}
use superscriber.Orchestration.Sync.{verification_event, transcription_event}

pub record SessionUpdate : Type 0 where
  pub state : Option IntegrityState
  pub verification_summary : Option (Option Text)
  pub last_error : Option (Option Text)
  pub bytes_received : Option (Option ℕ)
  pub bytes_expected : Option (Option ℕ)
  pub resume_token : Option (Option Text)

pub record JobUpdate : Type 0 where
  pub state : Option TranscriptJobState
  pub progress_percent : Option (Option ℕ)
  pub eta_seconds : Option (Option ℕ)
  pub diarization_status : Option DiarizationStatus
  pub last_error : Option (Option Text)
  pub summary : Option Text

pub record TranscriptUpdate : Type 0 where
  pub summary : Option Text
  pub segments : Option (List TranscriptSegment)

pub record WebhookPayload : Type 0 where
  pub recording_id : Text
  pub ingestion_session : Option SessionUpdate
  pub transcript_job : Option JobUpdate
  pub transcript : Option TranscriptUpdate

unfoldable pub updated_session : SessionUpdate → ℕ → IngestionSession → IngestionSession
updated_session u now e = record e {
  state = value_or u.state e.state;
  verified_at =
      if value_or u.state IntegrityState.capturing === IntegrityState.verified
      then some now
      else e.verified_at;
  verification_summary = value_or u.verification_summary e.verification_summary;
  last_error = value_or u.last_error e.last_error;
  bytes_received = value_or u.bytes_received e.bytes_received;
  bytes_expected = value_or u.bytes_expected e.bytes_expected;
  resume_token = value_or u.resume_token e.resume_token;
  updated_at = now;
}

-- A state that is given and new.
abbrev pub changed_integrity : Option IntegrityState → IntegrityState → Option IntegrityState
changed_integrity none old = none
changed_integrity (some next) old = if old === next then none else some next

abbrev pub changed_job_state :
    Option TranscriptJobState → TranscriptJobState → Option TranscriptJobState
changed_job_state none old = none
changed_job_state (some next) old = if old === next then none else some next

abbrev pub log_integrity : Recording → Option IntegrityState → Text → ℕ → AppState → AppState
log_integrity r none detail now s = s
log_integrity r (some next) detail now s = add_system_event r (verification_event next) detail now s

abbrev pub log_job_state : Recording → Option TranscriptJobState → Text → ℕ → AppState → AppState
log_job_state r none detail now s = s
log_job_state r (some next) detail now s =
    add_system_event r (transcription_event next) detail now s

unfoldable pub session_updated_words : Text
session_updated_words = units "Ingestion session updated by external engine."

unfoldable pub job_updated_words : Text
job_updated_words = units "Transcript job updated by external engine."

unfoldable pub external_draft_words : Text
external_draft_words = units "Initial transcript draft from external engine."

-- The value that is there and not null.
abbrev pub given : Option (Option Text) → Option Text
given none = none
given (some o) = o

unfoldable pub update_session : RecordingRefs → Option SessionUpdate → ℕ → AppState → AppState
unfolding updated_session add_audit_event
update_session refs none now s = s
update_session refs (some u) now s =
    log_integrity refs.recording (changed_integrity u.state refs.session.state)
      (value_or (given u.verification_summary) session_updated_words) now
      (set_recording refs.recording.id
        (λ r. record r {
          integrity_state = value_or u.state r.integrity_state;
          verification_summary = value_or u.verification_summary r.verification_summary;
          updated_at = now;
        })
        (set_session refs.session.id (updated_session u now) s))

unfoldable pub updated_job : JobUpdate → ℕ → TranscriptJob → TranscriptJob
updated_job u now j = record j {
  state = value_or u.state j.state;
  started_at =
      if value_or u.state TranscriptJobState.queued === TranscriptJobState.running
      then or_else j.started_at (some now)
      else j.started_at;
  completed_at =
      if value_or u.state TranscriptJobState.queued === TranscriptJobState.completed
      then some now
      else j.completed_at;
  progress_percent = value_or u.progress_percent j.progress_percent;
  eta_seconds = value_or u.eta_seconds j.eta_seconds;
  diarization_status = value_or u.diarization_status j.diarization_status;
  last_error = value_or u.last_error j.last_error;
  updated_at = now;
  last_heartbeat_at = some now;
}

unfoldable pub update_job : RecordingRefs → Option JobUpdate → ℕ → AppState → AppState
unfolding updated_job add_audit_event
update_job refs none now s = s
update_job refs (some u) now s =
    log_job_state refs.recording (changed_job_state u.state refs.job.state)
      (value_or u.summary job_updated_words) now
      (set_recording refs.recording.id
        (λ r. record r {
          transcript_job_state = value_or u.state r.transcript_job_state;
          updated_at = now;
        })
        (set_job refs.job.id (updated_job u now) s))

abbrev pub job_summary : Option JobUpdate → Option Text
job_summary none = none
job_summary (some u) = u.summary

-- The transcript of a finished job, unless the recording has a revision.
unfoldable pub add_segments :
    RecordingRefs → Option (List TranscriptSegment) → Text → ℕ → AppState → Result AppState
unfolding create_system_draft_revision
add_segments refs none summary now s = ok s
add_segments refs (some segments) summary now s =
    if (refs.job.state === TranscriptJobState.completed)
      && not (truthy refs.recording.current_revision_id)
    then (create_system_draft_revision refs.recording.id segments summary now s >>= λ made. ok (
        set_recording refs.recording.id (λ r. record r { updated_at = now })
          (set_job refs.job.id
            (λ j. record j { output_revision_id = some made.0.id; updated_at = now }) made.1)))
    else ok s

-- `refs` are read again, since the updates have changed the job.
unfoldable pub add_transcript :
    RecordingRefs → Option TranscriptUpdate → Option Text → ℕ → AppState → Result AppState
unfolding add_segments
add_transcript refs none summary now s = ok s
add_transcript refs (some u) summary now s =
    add_segments refs u.segments (value_or (or_else u.summary summary) external_draft_words) now s

-- `now` is the time of the event, or of the call where the payload has none that can be read.
unfoldable pub apply_orchestration_webhook_update : WebhookPayload → ℕ → AppState → Result AppState
unfolding normalize_state resolve_recording_refs update_session update_job add_transcript
apply_orchestration_webhook_update payload now s = do
  let t = normalize_state s
  refs ← resolve_recording_refs t payload.recording_id
  let u =
      update_job refs payload.transcript_job now
        (update_session refs payload.ingestion_session now t)
  after ← resolve_recording_refs u payload.recording_id
  add_transcript after payload.transcript (job_summary payload.transcript_job) now u
