-- ===== src/Examples/Queue.antt =====
-- A queue with two jobs, a worker that claims and completes it.
mod Reports
mod Holding
use superscriber.Prelude.{
  Text, ℕ, Option, none, some, true, false, ◌≡◌, ◌≢◌, refl, List, [], ◌∷◌, units, arith, row,
  if◌then◌else◌, ◌==◌, ◌+◌, text_equal, ◌≤◌, All, Bool-cases, ◌===◌, inl, inr,
}
use superscriber.Domain.Models.{Recording, IntegrityState, TranscriptJobState, RecordingSource}
use superscriber.Domain.Errors.{Result, ok, err}
use superscriber.Workflow.State.{
  AppState, IngestionSession, TranscriptJob, DiarizationStatus, job_keyed,
}
use superscriber.Workflow.Store.{Persisted, with_state, current_state_version}
use superscriber.Workflow.Store.Laws.{Atomic, Moves, with_state-Atomic, with_state_undisturbed}
use superscriber.Orchestration.Queue.Jobs.{JobClaim, JobSnapshot}
use superscriber.Orchestration.Queue.Claim.{claim_available_transcript_job}
use superscriber.Orchestration.Queue.Reports.{Completion, Heartbeat, complete_transcript_job}
use superscriber.Orchestration.Queue.Exclusion.{
  Takes, claim_available_transcript_job_lem, Answers, cutoff_of, claim_available_transcript_job_ok,
}
use superscriber.Orchestration.Queue.Completion.{NamesDraft, complete_transcript_job_lem}
use superscriber.Orchestration.Queue.Lifecycle.{QueueIsValid, Follows, phase_of}
use superscriber.Orchestration.Queue.Lifecycle.Runs.{
  completes, claims, reports, perform, perform-Follows, report, run,
}
use superscriber.Orchestration.Queue.Lifecycle.Fencing.{IsClosed, run_ended}
use superscriber.Examples.{casefile, workspace, first_segment, second_segment}

abbrev pub raw : Recording
raw = record casefile {
  media_path = some (units "media");
  ingestion_session_id = some (units "e1");
  transcript_job_id = some (units "j1");
  transcript_job_state = TranscriptJobState.queued;
  current_revision_id = none;
}

abbrev pub verified_session : IngestionSession
verified_session = record {
  id = units "e1";
  recording_id = units "rec";
  source = RecordingSource.upload;
  state = IntegrityState.verified;
  adapter = units "internal-python-worker";
  created_by_user_id = some (units "u0");
  created_at = 0;
  updated_at = 0;
  started_at = some 0;
  verified_at = some 0;
  last_error = none;
  verification_summary = none;
  resume_token = none;
  bytes_received = some 3;
  bytes_expected = some 3;
}

abbrev pub waiting_job : TranscriptJob
waiting_job = record {
  id = units "j1";
  recording_id = units "rec";
  state = TranscriptJobState.queued;
  adapter = units "internal-python-worker";
  claimed_by_worker_id = none;
  attempt_count = 0;
  created_at = 0;
  updated_at = 0;
  started_at = none;
  completed_at = none;
  last_heartbeat_at = none;
  eta_seconds = some 90;
  progress_percent = none;
  transcribed_until_ms = none;
  audio_duration_ms = none;
  segments_seen = none;
  output_revision_id = none;
  last_error = none;
  last_error_kind = none;
  last_error_technical = none;
  diarization_status = DiarizationStatus.pending;
}

abbrev pub other_raw : Recording
other_raw = record raw {
  id = units "other";
  ingestion_session_id = some (units "e2");
  transcript_job_id = some (units "j2");
  updated_at = 7;
}

-- Two recordings, with the job of the first in some state; the second waits.
abbrev pub two_jobs : TranscriptJobState → AppState
two_jobs state = record {
  workspaces = workspace ∷ [];
  policy_profiles = [];
  recordings = raw ∷ other_raw ∷ [];
  ingestion_sessions =
      verified_session
      ∷ record verified_session { id = units "e2"; recording_id = units "other" }
      ∷ [];
  transcript_jobs =
      record waiting_job { state = state }
      ∷ record waiting_job { id = units "j2"; recording_id = units "other" }
      ∷ [];
  revisions = [];
  approvals = [];
  audit_events = [];
  uuids = λ n. n ∷ [];
}

abbrev pub queue_in : TranscriptJobState → Persisted
queue_in state = record { app = two_jobs state; state_version = some 1 }

abbrev pub waiting_queue : Persisted
waiting_queue = queue_in TranscriptJobState.queued

abbrev some_claim : JobClaim
some_claim = record {
  worker_id = [];
  job_id = [];
  recording_id = [];
  workspace_id = [];
  title = [];
  source = RecordingSource.upload;
  media_kind = raw.media_kind;
  mime_type = none;
  media_path = none;
  original_file_name = none;
  language_hint = [];
  transcript_model = none;
  ingestion_session_id = none;
  transcript_job_state = TranscriptJobState.queued;
  attempt_count = 0;
  diarization_status = DiarizationStatus.pending;
}

abbrev pub claim_or : Result (Option JobClaim) × Persisted → JobClaim
claim_or (ok (some c), p) = c
claim_or (ok none, p) = some_claim
claim_or (err e, p) = some_claim

abbrev pub first_claim : JobClaim
unfolding claim_available_transcript_job
first_claim = claim_or (claim_available_transcript_job (units "w1") none 1000 waiting_queue)

abbrev pub claimed_queue : Persisted
unfolding claim_available_transcript_job
claimed_queue = (claim_available_transcript_job (units "w1") none 1000 waiting_queue).1

pub claim_run :
    claim_available_transcript_job (units "w1") none 1000 waiting_queue
    ≡ (ok (some first_claim), claimed_queue)
unfolding claim_available_transcript_job superscriber.Prelude.Text-discrete
claim_run = refl

claim_available_transcript_job_lem_example :
    Takes (units "w1") none 1000 waiting_queue first_claim claimed_queue
claim_available_transcript_job_lem_example =
    claim_available_transcript_job_lem (units "w1") none 1000 waiting_queue
      (unfold superscriber.Prelude.Text-discrete in refl) claim_run

pub queue_in-QueueIsValid : (state : TranscriptJobState) → QueueIsValid (queue_in state)
unfolding superscriber.Prelude.Text-discrete
queue_in-QueueIsValid state = record {
  normalised = ((refl, refl), ((refl, refl), tt));
  distinct = refl;
  owned = λ id j h. inl (free id j h);
}
  where
    free :
        (id : Text) (j : TranscriptJob)
        → row id (two_jobs state).transcript_jobs ≡ some j
        → j.claimed_by_worker_id ≡ none
    free id j h = elim (Bool-cases (units "j1" === id)) [
      | inl first ↦ ground (arith, first, h)
      | inr later ↦ elim (Bool-cases (units "j2" === id)) [
        | inl second ↦ ground (arith, later, second, h)
        | inr neither ↦ absurd (ground (arith, later, neither, h))
      ]
    ]

abbrev pub finished : Completion
finished = record {
  job_id = units "j1";
  worker_id = units "w1";
  summary = units "done";
  segments = first_segment ∷ second_segment ∷ [];
  diarization_status = none;
}

abbrev pub sign_of_life : Heartbeat
sign_of_life = record {
  job_id = units "j1";
  worker_id = units "w1";
  state = none;
  eta_seconds = none;
  diarization_status = none;
  transcribed_until_ms = none;
  audio_duration_ms = none;
  segments_seen = none;
}

perform-Follows_example :
    QueueIsValid (perform (claims (units "w1") none) 1000 waiting_queue)
    × Follows
        (units "w1")
        waiting_queue.app
        (perform (claims (units "w1") none) 1000 waiting_queue).app
perform-Follows_example =
    perform-Follows (claims (units "w1") none) 1000 waiting_queue
      (queue_in-QueueIsValid TranscriptJobState.queued)
