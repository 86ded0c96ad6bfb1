-- ===== src/Orchestration/Queue/Jobs.antt =====
-- A worker's job, what it is told of it, and when a job may be claimed.
use superscriber.Prelude.{
  Text, Option, some, none, ℕ, ◌*◌, ◌&&◌, ◌||◌, Bool, true, false, ltb, not, row, units, ◌===◌, is,
  if◌then◌else◌, text_equal,
}
use Prim.Native.Nat.{◌/◌, min}
use superscriber.Domain.Models.{
  IntegrityState, TranscriptJobState, RecordingSource, MediaKind, Recording, integrity_state_equal,
  job_state_equal,
}
use superscriber.Domain.Errors.{
  Result, ok, ◌>>=◌, or_throw, throw_if, recording_not_found, job_not_found, not_claimed_by_worker,
}
use superscriber.Casefile.Store.{recording_keyed}
use superscriber.Workflow.State.{
  AppState, IngestionSession, TranscriptJob, DiarizationStatus, session_keyed, job_keyed, row_of,
}
use superscriber.Orchestration.Normalize.{is_running, normalize_state}

abbrev pub default_stale_heartbeat_ms : ℕ
default_stale_heartbeat_ms = 1000 * 60 * 2

abbrev pub max_job_attempts : ℕ
max_job_attempts = 3

unfoldable pub internal_worker_id : Text
internal_worker_id = units "internal-python-worker"

pub record JobClaim : Type 0 where
  pub worker_id : Text
  pub job_id : Text
  pub recording_id : Text
  pub workspace_id : Text
  pub title : Text
  pub source : RecordingSource
  pub media_kind : MediaKind
  pub mime_type : Option Text
  pub media_path : Option Text
  pub original_file_name : Option Text
  pub language_hint : Text
  pub transcript_model : Option Text
  pub ingestion_session_id : Option Text
  pub transcript_job_state : TranscriptJobState
  pub attempt_count : ℕ
  pub diarization_status : DiarizationStatus

pub record JobSnapshot : Type 0 where
  pub job_id : Text
  pub recording_id : Text
  pub state : TranscriptJobState
  pub attempt_count : ℕ
  pub claimed_by_worker_id : Option Text
  pub progress_percent : Option ℕ
  pub eta_seconds : Option ℕ
  pub transcribed_until_ms : Option ℕ
  pub audio_duration_ms : Option ℕ
  pub segments_seen : Option ℕ
  pub last_heartbeat_at : Option ℕ
  pub completed_at : Option ℕ
  pub last_error : Option Text
  pub diarization_status : DiarizationStatus
  pub output_revision_id : Option Text

abbrev pub claim_of : Text → TranscriptJob → Recording → JobClaim
claim_of worker_id job r = record {
  worker_id = worker_id;
  job_id = job.id;
  recording_id = r.id;
  workspace_id = r.workspace_id;
  title = r.title;
  source = r.source;
  media_kind = r.media_kind;
  mime_type = r.mime_type;
  media_path = r.media_path;
  original_file_name = r.original_file_name;
  language_hint = r.language_hint;
  transcript_model = r.transcript_model;
  ingestion_session_id = r.ingestion_session_id;
  transcript_job_state = job.state;
  attempt_count = job.attempt_count;
  diarization_status = job.diarization_status;
}

unfoldable pub build_claim : AppState → Text → Text → Result JobClaim
build_claim s worker_id job_id = do
  job ← or_throw (row job_id s.transcript_jobs) job_not_found
  r ← or_throw (row job.recording_id s.recordings) recording_not_found
  ok (claim_of worker_id job r)

-- The share of the audio that is done, in percent; 100 is left for the end of the job. The source takes
-- the quotient as a floating number before it multiplies, so it may have one percent less.
unfoldable pub engine_progress_from_ms : Option ℕ → Option ℕ → Option ℕ
engine_progress_from_ms (some done) (some total) =
    if ltb 0 total then some (min 99 (done * 100 / total)) else none
engine_progress_from_ms (some done) none = none
engine_progress_from_ms none total = none

abbrev pub build_snapshot : TranscriptJob → JobSnapshot
build_snapshot job = record {
  job_id = job.id;
  recording_id = job.recording_id;
  state = job.state;
  attempt_count = job.attempt_count;
  claimed_by_worker_id = job.claimed_by_worker_id;
  progress_percent = job.progress_percent;
  eta_seconds = job.eta_seconds;
  transcribed_until_ms = job.transcribed_until_ms;
  audio_duration_ms = job.audio_duration_ms;
  segments_seen = job.segments_seen;
  last_heartbeat_at = job.last_heartbeat_at;
  completed_at = job.completed_at;
  last_error = job.last_error;
  diarization_status = job.diarization_status;
  output_revision_id = job.output_revision_id;
}

pub record JobRefs : Type 0 where
  pub state : AppState
  pub job : TranscriptJob
  pub recording : Recording
  pub session : Option IngestionSession

unfoldable pub resolve_job_refs : AppState → Text → Result JobRefs
resolve_job_refs s job_id = do
  let t = normalize_state s
  job ← or_throw (row job_id t.transcript_jobs) job_not_found
  recording ← or_throw (row job.recording_id t.recordings) recording_not_found
  ok (record {
    state = t;
    job = job;
    recording = recording;
    session = row_of recording.ingestion_session_id t.ingestion_sessions;
  })

unfoldable pub assert_claim_owner : TranscriptJob → Text → Result (Unit {0})
assert_claim_owner job worker_id =
    throw_if (not (is job.claimed_by_worker_id worker_id)) not_claimed_by_worker

-- `heartbeat IS NULL OR heartbeat < cutoff`.
abbrev pub is_stale : ℕ → Option ℕ → Bool
is_stale cutoff none = true
is_stale cutoff (some at) = ltb at cutoff

-- Waiting, or left by a worker that has been silent since the cutoff.
unfoldable pub is_claimable : ℕ → TranscriptJob → Bool
is_claimable cutoff job =
    (job.state === TranscriptJobState.queued)
    || (is_running job.state && is_stale cutoff job.last_heartbeat_at)

-- A recording whose media can be transcribed: there is no session, or it is verified.
abbrev pub no_session_or_verified : Option IngestionSession → Bool
no_session_or_verified none = true
no_session_or_verified (some session) = session.state === IntegrityState.verified

abbrev pub has_media : Option Text → Bool
has_media none = false
has_media (some path) = true

unfoldable pub is_ready : AppState → Recording → Bool
is_ready s r =
    (r.integrity_state === IntegrityState.verified)
    && has_media r.media_path
    && no_session_or_verified (row_of r.ingestion_session_id s.ingestion_sessions)
