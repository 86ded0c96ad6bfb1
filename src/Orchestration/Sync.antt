-- ===== src/Orchestration/Sync.antt =====
-- One round of the engines over all recordings (synchronizeOrchestration of
-- src/server/orchestration/service.ts), and the note of a dispatch that failed.
pub mod Laws
pub mod Progress
use superscriber.Prelude.{
  Text, Option, some, none, ℕ, List, [], ◌∷◌, ◌++◌, Bool, true, false, not, ◌&&◌, ◌===◌, row, units,
  map, if◌then◌else◌, truthy, non_empty, text_equal,
}
use superscriber.Domain.Models.{
  IntegrityState, TranscriptJobState, AuditEventType, Recording, TranscriptSegment,
  TranscriptRevision, integrity_state_equal, job_state_equal,
}
use superscriber.Domain.Errors.{Result, ok, err, ◌>>=◌}
use superscriber.Casefile.Store.{recording_keyed}
use superscriber.Workflow.State.{
  AppState, IngestionSession, TranscriptJob, session_keyed, job_keyed, row_of, set_recording,
  set_session, set_job, add_audit_event, add_system_event,
}
use superscriber.Workflow.Create.{create_system_draft_revision}
use superscriber.Orchestration.Normalize.{normalize_state, resolve_recording_refs, RecordingRefs}
use superscriber.Orchestration.Engines.{Engine, VerificationStep, TranscriptStep, resolve_adapter}

abbrev pub verification_event : IntegrityState → AuditEventType
verification_event IntegrityState.verified = AuditEventType.recording_verified
verification_event _ = AuditEventType.recording_verification_failed

abbrev pub transcription_event : TranscriptJobState → AuditEventType
transcription_event TranscriptJobState.running = AuditEventType.transcription_started
transcription_event TranscriptJobState.partial_result = AuditEventType.transcription_partial
transcription_event _ = AuditEventType.transcription_completed

abbrev pub verified_session : Text → VerificationStep → ℕ → IngestionSession → IngestionSession
verified_session engine_id step now e = record e {
  state = step.next_state;
  adapter = engine_id;
  updated_at = now;
  last_error = step.last_error;
  verification_summary = some step.summary;
  verified_at = if step.next_state === IntegrityState.verified then some now else e.verified_at;
}

-- The verification of one recording, as far as its engine takes it.
unfoldable pub apply_verification :
    Engine → Recording → IngestionSession → ℕ → Option VerificationStep → AppState → AppState
unfolding add_audit_event
apply_verification engine r session now none s = s
apply_verification engine r session now (some step) s =
    let t =
      set_recording r.id
        (λ x. record x {
          integrity_state = step.next_state;
          verification_summary = some step.summary;
          updated_at = now;
        })
        (set_session session.id (verified_session engine.id step now) s) in
    if session.state === step.next_state
    then t
    else add_system_event r (verification_event step.next_state) step.summary now t

abbrev pub stepped_job : Text → TranscriptStep → ℕ → TranscriptJob → TranscriptJob
stepped_job engine_id step now j = record j {
  state = step.next_state;
  adapter = engine_id;
  claimed_by_worker_id =
      if step.next_state === TranscriptJobState.completed then none else j.claimed_by_worker_id;
  updated_at = now;
  last_heartbeat_at = some now;
  progress_percent = some step.progress_percent;
  eta_seconds = step.eta_seconds;
  diarization_status = step.diarization_status;
  last_error = step.last_error;
  started_at =
      if (j.state === TranscriptJobState.queued) && (step.next_state === TranscriptJobState.running)
      then some now
      else j.started_at;
  completed_at =
      if step.next_state === TranscriptJobState.completed then some now else j.completed_at;
}

abbrev pub has_revision : Option Recording → Bool
has_revision none = true
has_revision (some r) = truthy r.current_revision_id

-- The draft of a finished job, unless the recording has a revision.
unfoldable pub complete_draft_if_needed :
    Text → Text → Text → Option (List TranscriptSegment) → ℕ → AppState → Result AppState
unfolding create_system_draft_revision
complete_draft_if_needed recording_id job_id summary none now s = ok s
complete_draft_if_needed recording_id job_id summary (some segments) now s =
    if has_revision (row recording_id s.recordings)
    then ok s
    else (create_system_draft_revision recording_id segments summary now s >>= λ made.
        ok (set_job job_id (λ j. record j { output_revision_id = some made.0.id }) made.1))

-- What a step writes, before the draft of a job that it ends.
unfoldable pub write_transcript_step :
    Text → Recording → TranscriptJob → TranscriptStep → ℕ → AppState → AppState
unfolding add_audit_event
write_transcript_step engine_id r job step now s =
    let t =
      set_recording r.id
        (λ x. record x { transcript_job_state = step.next_state; updated_at = now })
        (set_job job.id (stepped_job engine_id step now) s) in
    if job.state === step.next_state
    then t
    else add_system_event r (transcription_event step.next_state) step.summary now t

unfoldable pub apply_transcript_step :
    Text → Recording → TranscriptJob → Option TranscriptStep → ℕ → AppState → Result AppState
unfolding write_transcript_step complete_draft_if_needed
apply_transcript_step engine_id r job none now s = ok s
apply_transcript_step engine_id r job (some step) now s =
    let t = write_transcript_step engine_id r job step now s in
    if step.next_state === TranscriptJobState.completed
    then complete_draft_if_needed r.id job.id step.summary step.output_segments now t
    else ok t

-- `options.adapter ?? resolveAdapter(job.adapter || session.adapter)`.
abbrev pub engine_for : Option Engine → TranscriptJob → IngestionSession → Engine
engine_for (some engine) job session = engine
engine_for none job session =
    resolve_adapter (if non_empty job.adapter then job.adapter else session.adapter)

-- A recording whose session or job is missing is passed over.
abbrev pub if_complete :
    Result RecordingRefs → (RecordingRefs → Result AppState) → AppState → Result AppState
if_complete (err missing) go s = ok s
if_complete (ok refs) go s = go refs

-- The transcription reads what the verification has written.
unfoldable pub transcribe : Engine → Text → ℕ → AppState → Result AppState
unfolding apply_transcript_step resolve_recording_refs
transcribe engine recording_id now s =
    if_complete (resolve_recording_refs s recording_id)
      (λ refs.
        apply_transcript_step engine.id refs.recording refs.job
          (engine.step_transcript_job refs.recording refs.session refs.job now) now s)
      s

-- The round of one recording.
unfoldable pub synchronize_one : Option Engine → ℕ → Text → AppState → Result AppState
unfolding apply_verification transcribe resolve_recording_refs
synchronize_one given now recording_id s =
    if_complete (resolve_recording_refs s recording_id)
      (λ refs.
        let engine = engine_for given refs.job refs.session in
        transcribe engine recording_id now (
          apply_verification engine refs.recording refs.session now
            (engine.step_verification refs.recording refs.session now) s))
      s

unfoldable pub synchronize_all : Option Engine → ℕ → List Text → AppState → Result AppState
unfolding synchronize_one
synchronize_all given now [] s = ok s
synchronize_all given now (id ∷ rest) s = do
  t ← synchronize_one given now id s
  synchronize_all given now rest t

unfoldable pub synchronize_orchestration : Option Engine → ℕ → AppState → Result AppState
unfolding synchronize_all normalize_state
synchronize_orchestration given now s =
    let t = normalize_state s in synchronize_all given now (map (λ r. r.id) t.recordings) t

unfoldable pub dispatch_failure_prefix : Text
dispatch_failure_prefix = units "Backend dispatch failed: "

unfoldable pub persisted_dispatch_failure : Text → Text
unfolding dispatch_failure_prefix
persisted_dispatch_failure detail = dispatch_failure_prefix ++ detail

unfoldable pub note_orchestration_dispatch_failure : Text → Text → ℕ → AppState → Result AppState
unfolding normalize_state resolve_recording_refs persisted_dispatch_failure add_audit_event
note_orchestration_dispatch_failure recording_id detail now s = do
  let t = normalize_state s
  refs ← resolve_recording_refs t recording_id
  ok (
      add_system_event refs.recording AuditEventType.recording_verification_failed detail now (
        set_recording refs.recording.id
          (λ r. record r { verification_summary = some detail; updated_at = now })
          (set_job refs.job.id (λ j. record j { last_error = some detail; updated_at = now })
            (set_session refs.session.id
              (λ e. record e {
                last_error = some (persisted_dispatch_failure detail);
                updated_at = now;
                verification_summary = some detail;
              })
              t))))
