-- ===== src/Workflow/Uploads.antt =====
-- Progress, expiry, failure and the end of an upload (src/domain/workflow.ts).
pub mod Laws
use superscriber.Prelude.{
  Text, Option, some, none, ℕ, row, units, if◌then◌else◌, ◌===◌, ◌==◌, Bool, false, text_equal,
}
use superscriber.Domain.Models.{
  IntegrityState, TranscriptJobState, AuditEventType, Principal, Recording, integrity_state_equal,
}
use superscriber.Domain.Errors.{
  Result, ok, ◌>>=◌, or_throw, recording_not_found, job_not_found, upload_session_not_found,
}
use superscriber.Casefile.Store.{recording_keyed}
use superscriber.Casefile.Store.Audit.{actor_context_for_principal}
use superscriber.Workflow.State.{
  AppState, IngestionSession, TranscriptJob, session_keyed, job_keyed, row_of, set_recording,
  set_session, set_job, add_audit_event, add_system_event,
}

pub record UploadRefs : Type 0 where
  pub session : IngestionSession
  pub recording : Recording
  pub job : TranscriptJob

unfoldable pub resolve_upload_refs : AppState → Text → Result UploadRefs
resolve_upload_refs s session_id = do
  session ← or_throw (row session_id s.ingestion_sessions) upload_session_not_found
  recording ← or_throw (row session.recording_id s.recordings) recording_not_found
  job ← or_throw (row_of recording.transcript_job_id s.transcript_jobs) job_not_found
  ok (record { session = session; recording = recording; job = job })

unfoldable pub bytes_received_words : Text
bytes_received_words = units "Upload bytes received. Finalize to begin governed verification."

unfoldable pub in_progress_words : Text
in_progress_words = units "Upload in progress. Resume continues from the last committed byte."

-- `a === b` where b may be null.
abbrev pub equals_option : ℕ → Option ℕ → Bool
equals_option n none = false
equals_option n (some m) = n == m

abbrev pub progressed : ℕ → Text → ℕ → IngestionSession → IngestionSession
progressed received summary now e = record e {
  bytes_received = some received;
  state = IntegrityState.uploading;
  updated_at = now;
  last_error = none;
  verification_summary = some summary;
}

abbrev pub progress_words : ℕ → Option ℕ → Text
progress_words received expected =
    if equals_option received expected then bytes_received_words else in_progress_words

unfoldable pub note_upload_progress : Text → ℕ → ℕ → AppState → Result AppState
unfolding resolve_upload_refs
note_upload_progress session_id received now s = do
  refs ← resolve_upload_refs s session_id
  let summary = progress_words received refs.session.bytes_expected
  ok (
      set_recording refs.recording.id
        (λ r. record r {
          integrity_state = IntegrityState.uploading;
          verification_summary = some summary;
          updated_at = now;
        })
        (set_session session_id (progressed received summary now) s))

unfoldable pub expire_upload_session : Text → Text → ℕ → AppState → Result AppState
unfolding resolve_upload_refs add_audit_event
expire_upload_session session_id detail now s = do
  refs ← resolve_upload_refs s session_id
  ok (
      add_system_event refs.recording AuditEventType.recording_verification_failed detail now (
        set_job refs.job.id (λ j. record j { last_error = some detail; updated_at = now })
          (set_recording refs.recording.id
            (λ r. record r {
              integrity_state = IntegrityState.interrupted;
              verification_summary = some detail;
              updated_at = now;
            })
            (set_session session_id
              (λ e. record e {
                state = IntegrityState.interrupted;
                last_error = some detail;
                verification_summary = some detail;
                updated_at = now;
              })
              s))))

unfoldable pub fail_upload_session : Text → Text → ℕ → AppState → Result AppState
unfolding resolve_upload_refs add_audit_event
fail_upload_session session_id detail now s = do
  refs ← resolve_upload_refs s session_id
  ok (
      add_system_event refs.recording AuditEventType.recording_verification_failed detail now (
        set_job refs.job.id
          (λ j. record j {
            state = TranscriptJobState.failed;
            last_error = some detail;
            updated_at = now;
          })
          (set_recording refs.recording.id
            (λ r. record r {
              integrity_state = IntegrityState.verification_failed;
              verification_summary = some detail;
              updated_at = now;
              transcript_job_state = TranscriptJobState.failed;
            })
            (set_session session_id
              (λ e. record e {
                state = IntegrityState.verification_failed;
                last_error = some detail;
                verification_summary = some detail;
                updated_at = now;
              })
              s))))

unfoldable pub webhook_engine_id : Text
webhook_engine_id = units "external-webhook-engine"

unfoldable pub starting_words : Text
starting_words = units "Upload complete. Server-side verification is starting."

unfoldable pub verified_words : Text
verified_words = units "Upload verified locally and queued for transcription."

unfoldable pub finalize_upload_session :
    Text → Text → Option Text → Principal → ℕ → AppState → Result (UploadRefs × AppState)
unfolding resolve_upload_refs add_audit_event
finalize_upload_session session_id media_path mime_type principal now s = do
  refs ← resolve_upload_refs s session_id
  let external = refs.session.adapter === webhook_engine_id
  let next = if external then IntegrityState.verifying else IntegrityState.verified
  let summary = if external then starting_words else verified_words
  let end_session : IngestionSession → IngestionSession = λ e. record e {
    state = next;
    updated_at = now;
    last_error = none;
    verification_summary = some summary;
    verified_at = if next === IntegrityState.verified then some now else none;
  }
  let receive : Recording → Recording = λ r. record r {
    media_path = some media_path;
    mime_type = mime_type;
    integrity_state = next;
    transcript_job_state = TranscriptJobState.queued;
    verification_summary = some summary;
    updated_at = now;
  }
  let enqueue : TranscriptJob → TranscriptJob =
      λ j. record j { state = TranscriptJobState.queued; updated_at = now; last_error = none }
  ok (
    record {
      session = end_session refs.session;
      recording = receive refs.recording;
      job = enqueue refs.job;
    },
    add_audit_event refs.recording.workspace_id refs.recording.id
        (actor_context_for_principal principal) AuditEventType.recording_created summary now
        (set_job refs.job.id enqueue
          (set_recording refs.recording.id receive (set_session session_id end_session s))),
  )
