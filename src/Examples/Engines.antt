-- ===== src/Examples/Engines.antt =====
-- The engines and their callbacks, on the example of the queue.
use superscriber.Prelude.{
  Text, ℕ, Option, none, some, true, false, ◌≡◌, ◌≢◌, refl, List, [], ◌∷◌, units, arith, ◌≤◌,
}
use superscriber.Domain.Models.{TranscriptJobState}
use superscriber.Domain.Errors.{Result, ok, err}
use superscriber.Workflow.State.{AppState}
use superscriber.Workflow.Store.{Persisted}
use superscriber.Orchestration.Normalize.{normalize_state, resolve_recording_refs}
use superscriber.Orchestration.Normalize.Laws.{IsNormalised, normalize_state_lem}
use superscriber.Orchestration.Engines.{mock_governed_engine}
use superscriber.Orchestration.Sync.{synchronize_orchestration}
use superscriber.Orchestration.Sync.Laws.{AddsDrafts, synchronize_orchestration-AddsDrafts}
use superscriber.Orchestration.Sync.Progress.{mock_round, mock_round-completed}
use superscriber.Orchestration.Webhook.{
  WebhookPayload, JobUpdate, apply_orchestration_webhook_update,
}
use superscriber.Orchestration.Webhook.Laws.{Logged, apply_orchestration_webhook_update-Logged}
use superscriber.Examples.Queue.{raw, verified_session, waiting_job, waiting_queue, queue_in}

normalize_state_lem_example :
    IsNormalised (normalize_state waiting_queue.app)
    × (normalize_state (normalize_state waiting_queue.app) ≡ normalize_state waiting_queue.app)
normalize_state_lem_example = normalize_state_lem waiting_queue.app

mock_round-completed_example :
    (mock_round raw verified_session 9000 (
      mock_round raw verified_session 5000
        (mock_round raw verified_session 1000 waiting_job))).state
    ≡ TranscriptJobState.completed
mock_round-completed_example =
    mock_round-completed raw verified_session refl 1000 5000 9000 waiting_job refl (omega arith)
      (omega arith)

-- The first job has run since time 0, and is ready at 9000.
abbrev running_queue : Persisted
running_queue = queue_in TranscriptJobState.running

abbrev state_of : AppState → Result AppState → AppState
state_of d (ok s) = s
state_of d (err e) = d

abbrev synchronized : AppState
unfolding synchronize_orchestration
synchronized =
    state_of running_queue.app
      (synchronize_orchestration (some mock_governed_engine) 9000 running_queue.app)

synchronized_run :
    synchronize_orchestration (some mock_governed_engine) 9000 running_queue.app ≡ ok synchronized
unfolding synchronize_orchestration superscriber.Prelude.Text-discrete mock_governed_engine
    superscriber.Domain.Speakers.normalize_speaker_labels superscriber.Prelude.trim
    superscriber.Orchestration.Transcripts.english
    superscriber.Domain.Speakers.validate_speaker_name
synchronized_run = refl

synchronize_orchestration-AddsDrafts_example : AddsDrafts running_queue.app synchronized
synchronize_orchestration-AddsDrafts_example =
    synchronize_orchestration-AddsDrafts (some mock_governed_engine) 9000 running_queue.app
      synchronized synchronized_run

abbrev job_failed : JobUpdate
job_failed = record {
  state = some TranscriptJobState.failed;
  progress_percent = none;
  eta_seconds = none;
  diarization_status = none;
  last_error = some (some (units "out of memory"));
  summary = none;
}

abbrev failure_payload : WebhookPayload
failure_payload = record {
  recording_id = units "rec";
  ingestion_session = none;
  transcript_job = some job_failed;
  transcript = none;
}

abbrev after_failure : AppState
unfolding apply_orchestration_webhook_update
after_failure =
    state_of waiting_queue.app
      (apply_orchestration_webhook_update failure_payload 1000 waiting_queue.app)

failure_run :
    apply_orchestration_webhook_update failure_payload 1000 waiting_queue.app ≡ ok after_failure
unfolding apply_orchestration_webhook_update superscriber.Prelude.Text-discrete
failure_run = refl

apply_orchestration_webhook_update-Logged_example :
    Logged waiting_queue.app after_failure (units "rec") TranscriptJobState.failed
apply_orchestration_webhook_update-Logged_example =
    apply_orchestration_webhook_update-Logged failure_payload 1000 waiting_queue.app after_failure
      (record { recording = raw; session = verified_session; job = waiting_job }) job_failed
      TranscriptJobState.failed failure_run
      (unfold resolve_recording_refs normalize_state superscriber.Prelude.Text-discrete in refl)
      refl refl (λ e. cc)
