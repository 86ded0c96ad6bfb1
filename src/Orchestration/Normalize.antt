-- ===== src/Orchestration/Normalize.antt =====
-- Every recording has a session and a job (normalizeState of src/server/orchestration/service.ts).
-- A reference that is undefined in the source is null here.
pub mod Laws
use superscriber.Prelude.{
  Text, Option, some, none, ℕ, List, [], ◌∷◌, ◌++◌, units, row, find, if◌then◌else◌, ◌===◌, ◌||◌,
  text_equal, Bool, true, false,
}
use superscriber.Domain.Models.{
  IntegrityState, TranscriptJobState, Recording, integrity_state_equal, job_state_equal,
}
use superscriber.Domain.Errors.{
  Result, ok, ◌>>=◌, or_throw, recording_not_found, orchestration_incomplete,
}
use superscriber.Casefile.Store.{recording_keyed}
use superscriber.Workflow.State.{
  AppState, IngestionSession, TranscriptJob, DiarizationStatus, session_keyed, job_keyed, row_of,
}
use superscriber.Workflow.Create.{mock_engine_id}

abbrev pub is_running : TranscriptJobState → Bool
is_running TranscriptJobState.running = true
is_running TranscriptJobState.partial_result = true
is_running _ = false

unfoldable pub progress_for_state : TranscriptJobState → ℕ
progress_for_state TranscriptJobState.completed = 100
progress_for_state TranscriptJobState.partial_result = 70
progress_for_state TranscriptJobState.running = 40
progress_for_state _ = 0

unfoldable pub legacy_verification_failure : Text
legacy_verification_failure = units "Legacy state imported with verification failure."

unfoldable pub legacy_transcription_failure : Text
legacy_transcription_failure = units "Legacy state imported with transcription failure."

unfoldable pub bootstrap_ingestion_session : Recording → IngestionSession
bootstrap_ingestion_session r = record {
  id = units "ingest-bootstrap-" ++ r.id;
  recording_id = r.id;
  source = r.source;
  state = r.integrity_state;
  adapter = mock_engine_id;
  created_by_user_id = none;
  created_at = r.created_at;
  updated_at = r.updated_at;
  started_at =
      some (if r.integrity_state === IntegrityState.verified then r.created_at else r.updated_at);
  verified_at = if r.integrity_state === IntegrityState.verified then some r.updated_at else none;
  last_error =
      if r.integrity_state === IntegrityState.verification_failed
      then some legacy_verification_failure
      else none;
  verification_summary = r.verification_summary;
  resume_token = some (units "resume-bootstrap-" ++ r.id);
  bytes_received = none;
  bytes_expected = none;
}

unfoldable pub bootstrap_transcript_job : Recording → TranscriptJob
unfolding progress_for_state
bootstrap_transcript_job r = record {
  id = units "job-bootstrap-" ++ r.id;
  recording_id = r.id;
  state = r.transcript_job_state;
  adapter = mock_engine_id;
  claimed_by_worker_id = none;
  attempt_count =
      if (r.transcript_job_state === TranscriptJobState.completed)
        || (r.transcript_job_state === TranscriptJobState.failed)
      then 1
      else 0;
  created_at = r.created_at;
  updated_at = r.updated_at;
  started_at =
      if r.transcript_job_state === TranscriptJobState.queued then none else some r.updated_at;
  completed_at =
      if r.transcript_job_state === TranscriptJobState.completed then some r.updated_at else none;
  last_heartbeat_at = if is_running r.transcript_job_state then some r.updated_at else none;
  eta_seconds = some (
      if r.transcript_job_state === TranscriptJobState.completed
      then 0
      else if r.transcript_job_state === TranscriptJobState.queued
      then 90
      else 30);
  progress_percent = some (progress_for_state r.transcript_job_state);
  transcribed_until_ms = none;
  audio_duration_ms = none;
  segments_seen = none;
  output_revision_id =
      if r.transcript_job_state === TranscriptJobState.completed
      then r.current_revision_id
      else none;
  last_error =
      if r.transcript_job_state === TranscriptJobState.failed
      then some legacy_transcription_failure
      else none;
  last_error_kind = none;
  last_error_technical = none;
  diarization_status =
      if r.transcript_job_state === TranscriptJobState.completed
      then DiarizationStatus.available
      else DiarizationStatus.pending;
}

-- The second place to look, if the first gave nothing.
abbrev pub or_find {ℓ} : {A : Type ℓ} → Option A → Option A → Option A
or_find (some a) other = some a
or_find none other = other

-- The row that was found, or a new one that is put first.
abbrev pub found_or_first {ℓ} : {A : Type ℓ} → Option A → A → List A → A × List A
found_or_first (some a) new rows = (a, rows)
found_or_first none new rows = (new, new ∷ rows)

unfoldable pub session_for :
    Recording → List IngestionSession → IngestionSession × List IngestionSession
unfolding bootstrap_ingestion_session
session_for r sessions =
    found_or_first
      (or_find (row_of r.ingestion_session_id sessions)
        (find (λ e. e.recording_id === r.id) sessions))
      (bootstrap_ingestion_session r) sessions

unfoldable pub job_for : Recording → List TranscriptJob → TranscriptJob × List TranscriptJob
unfolding bootstrap_transcript_job
job_for r jobs =
    found_or_first
      (or_find (row_of r.transcript_job_id jobs) (find (λ e. e.recording_id === r.id) jobs))
      (bootstrap_transcript_job r) jobs

-- The loop over the recordings: what it makes of them, with the sessions and the jobs.
unfoldable pub normalize_recordings :
    List Recording
    → List IngestionSession
    → List TranscriptJob
    → List Recording × List IngestionSession × List TranscriptJob
unfolding session_for job_for
normalize_recordings [] sessions jobs = ([], sessions, jobs)
normalize_recordings (r ∷ rest) sessions jobs =
    let (session, sessions') = session_for r sessions in
    let (job, jobs') = job_for r jobs in
    let (others, sessions'', jobs'') = normalize_recordings rest sessions' jobs' in
    (
      record r { ingestion_session_id = some session.id; transcript_job_id = some job.id } ∷ others,
      sessions'',
      jobs'',
    )

unfoldable pub normalize_state : AppState → AppState
unfolding normalize_recordings
normalize_state s =
    let (recordings, sessions, jobs) =
      normalize_recordings s.recordings s.ingestion_sessions s.transcript_jobs in
    record s { recordings = recordings; ingestion_sessions = sessions; transcript_jobs = jobs }

pub record RecordingRefs : Type 0 where
  pub recording : Recording
  pub session : IngestionSession
  pub job : TranscriptJob

unfoldable pub resolve_recording_refs : AppState → Text → Result RecordingRefs
resolve_recording_refs s recording_id = do
  recording ← or_throw (row recording_id s.recordings) recording_not_found
  session ←
      or_throw (row_of recording.ingestion_session_id s.ingestion_sessions) orchestration_incomplete
  job ← or_throw (row_of recording.transcript_job_id s.transcript_jobs) orchestration_incomplete
  ok (record { recording = recording; session = session; job = job })
