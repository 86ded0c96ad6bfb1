-- ===== src/Orchestration/Queue/Reports.antt =====
-- What the worker of a job reports: a heartbeat, its completion, or its failure. Each is a change of
-- the state under `withState`.
use superscriber.Prelude.{
  Text, Option, some, none, ℕ, ◌&&◌, ◌||◌, Bool, true, false, not, leb, List, ◌++◌, units, ◌===◌,
  if◌then◌else◌,
}
use superscriber.Domain.Models.{
  TranscriptJobState, TranscriptSegment, AuditEventType, Recording, TranscriptRevision,
  job_state_equal,
}
use superscriber.Domain.Errors.{Result, ok, ◌>>=◌, ◌>>◌, throw_if, bad_heartbeat_state}
use superscriber.Domain.Speakers.{decimal}
use superscriber.Casefile.Store.{recording_keyed, revision_keyed}
use superscriber.Workflow.State.{
  AppState, TranscriptJob, DiarizationStatus, job_keyed, row_of, value_or, or_else, set_recording,
  set_job, add_audit_event, add_system_event,
}
use superscriber.Workflow.Create.{create_system_draft_revision}
use superscriber.Orchestration.Normalize.{is_running}
use superscriber.Orchestration.Queue.Jobs.{
  JobSnapshot, internal_worker_id, max_job_attempts, build_snapshot, resolve_job_refs,
  assert_claim_owner, engine_progress_from_ms,
}

pub record Heartbeat : Type 0 where
  pub job_id : Text
  pub worker_id : Text
  pub state : Option TranscriptJobState
  pub eta_seconds : Option ℕ
  pub diarization_status : Option DiarizationStatus
  pub transcribed_until_ms : Option ℕ
  pub audio_duration_ms : Option ℕ
  pub segments_seen : Option ℕ

unfoldable pub beaten : Heartbeat → TranscriptJobState → ℕ → TranscriptJob → TranscriptJob
unfolding engine_progress_from_ms
beaten h next now job =
    let until = or_else h.transcribed_until_ms job.transcribed_until_ms in
    let duration = or_else h.audio_duration_ms job.audio_duration_ms in
    record job {
      state = next;
      adapter = internal_worker_id;
      updated_at = now;
      last_heartbeat_at = some now;
      transcribed_until_ms = until;
      audio_duration_ms = duration;
      segments_seen = or_else h.segments_seen job.segments_seen;
      progress_percent = or_else (engine_progress_from_ms until duration) job.progress_percent;
      eta_seconds = or_else h.eta_seconds job.eta_seconds;
      diarization_status = value_or h.diarization_status job.diarization_status;
      last_error = none;
    }

unfoldable pub partial_detail : Text → Text
partial_detail worker_id =
    units "Internal worker " ++ (worker_id ++ units " published a partial transcript result.")

-- The recording follows its job's state.
abbrev pub follow : TranscriptJobState → ℕ → Recording → Recording
follow next now r = record r { transcript_job_state = next; updated_at = now }

unfoldable pub heartbeat_transcript_job : Heartbeat → ℕ → AppState → Result (JobSnapshot × AppState)
unfolding resolve_job_refs assert_claim_owner beaten add_audit_event partial_detail
heartbeat_transcript_job h now s = do
  refs ← resolve_job_refs s h.job_id
  assert_claim_owner refs.job h.worker_id
  let next = value_or h.state refs.job.state
  throw_if (not (is_running next)) bad_heartbeat_state
  let t =
      set_recording refs.recording.id (follow next now)
        (set_job refs.job.id (beaten h next now) refs.state)
  ok (
    build_snapshot (beaten h next now refs.job),
    if not (refs.job.state === next) && (next === TranscriptJobState.partial_result)
        then add_system_event refs.recording AuditEventType.transcription_partial
            (partial_detail h.worker_id) now t
        else t,
  )

pub record Completion : Type 0 where
  pub job_id : Text
  pub worker_id : Text
  pub summary : Text
  pub segments : List TranscriptSegment
  pub diarization_status : Option DiarizationStatus

-- The draft of a completed job: the one that it made before, or the recording's current revision, or a
-- new one.
abbrev pub draft_or_new :
    Option TranscriptRevision
    → Text
    → Completion
    → ℕ
    → AppState
    → Result (TranscriptRevision × AppState)
draft_or_new (some revision) recording_id c now s = ok (revision, s)
draft_or_new none recording_id c now s =
    create_system_draft_revision recording_id c.segments c.summary now s

unfoldable pub completed_job : Completion → Text → ℕ → TranscriptJob → TranscriptJob
completed_job c revision_id now job = record job {
  state = TranscriptJobState.completed;
  adapter = internal_worker_id;
  claimed_by_worker_id = none;
  updated_at = now;
  last_heartbeat_at = some now;
  completed_at = some now;
  progress_percent = some 100;
  eta_seconds = some 0;
  last_error = none;
  diarization_status = value_or c.diarization_status DiarizationStatus.available;
  output_revision_id = some revision_id;
}

unfoldable pub complete_transcript_job : Completion → ℕ → AppState → Result (JobSnapshot × AppState)
unfolding resolve_job_refs assert_claim_owner completed_job create_system_draft_revision
    add_audit_event
complete_transcript_job c now s = do
  refs ← resolve_job_refs s c.job_id
  assert_claim_owner refs.job c.worker_id
  let existing =
      or_else (row_of refs.job.output_revision_id refs.state.revisions)
        (row_of refs.recording.current_revision_id refs.state.revisions)
  made ← draft_or_new existing refs.recording.id c now refs.state
  let done = completed_job c made.0.id now
  ok (
    build_snapshot (done refs.job),
    add_system_event refs.recording AuditEventType.transcription_completed c.summary now (
        set_recording refs.recording.id
          (λ r. record (follow TranscriptJobState.completed now r) {
            current_revision_id = some made.0.id;
          })
          (set_job refs.job.id done made.1)),
  )

pub record JobFailure : Type 0 where
  pub job_id : Text
  pub worker_id : Text
  pub detail : Text
  pub retryable : Option Bool
  pub error_class : Option Text
  pub technical_detail : Option Text

-- `retryable === false`.
abbrev pub is_final : Option Bool → Bool
is_final (some false) = true
is_final _ = false

unfoldable pub is_exhausted : JobFailure → TranscriptJob → Bool
is_exhausted f job = is_final f.retryable || leb max_job_attempts job.attempt_count

unfoldable pub failed_job : JobFailure → Bool → ℕ → TranscriptJob → TranscriptJob
failed_job f exhausted now job = record job {
  state = if exhausted then TranscriptJobState.failed else TranscriptJobState.queued;
  adapter = internal_worker_id;
  claimed_by_worker_id = none;
  updated_at = now;
  last_heartbeat_at = some now;
  completed_at = if exhausted then some now else none;
  progress_percent = if exhausted then job.progress_percent else none;
  eta_seconds = if exhausted then none else some 90;
  transcribed_until_ms = if exhausted then job.transcribed_until_ms else none;
  audio_duration_ms = if exhausted then job.audio_duration_ms else none;
  segments_seen = if exhausted then job.segments_seen else none;
  last_error = some f.detail;
  last_error_kind = f.error_class;
  last_error_technical = f.technical_detail;
  diarization_status = if exhausted then job.diarization_status else DiarizationStatus.pending;
}

unfoldable pub failure_detail : JobFailure → Bool → ℕ → Text
unfolding decimal
failure_detail f true attempts = f.detail
failure_detail f false attempts =
    f.detail
    ++ (units " Job returned to queue for retry "
        ++ (decimal attempts ++ (units "/" ++ (decimal max_job_attempts ++ units "."))))

unfoldable pub fail_transcript_job : JobFailure → ℕ → AppState → Result (JobSnapshot × AppState)
unfolding resolve_job_refs assert_claim_owner is_exhausted failed_job failure_detail add_audit_event
fail_transcript_job f now s = do
  refs ← resolve_job_refs s f.job_id
  assert_claim_owner refs.job f.worker_id
  let exhausted = is_exhausted f refs.job
  let next = if exhausted then TranscriptJobState.failed else TranscriptJobState.queued
  ok (
    build_snapshot (failed_job f exhausted now refs.job),
    add_system_event refs.recording AuditEventType.transcription_failed
        (failure_detail f exhausted refs.job.attempt_count) now
        (set_recording refs.recording.id (follow next now)
          (set_job refs.job.id (failed_job f exhausted now) refs.state)),
  )
