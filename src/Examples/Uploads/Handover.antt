-- ===== src/Examples/Uploads/Handover.antt =====
-- What the finished upload of the example leaves to the queue.
use superscriber.Prelude.{
  text_equal, ◌===◌, Text, ℕ, Option, none, some, true, false, ◌≡◌, refl, List, [], ◌∷◌, ◌++◌,
  units, arith, row,
}
use superscriber.Domain.Models.{Recording}
use superscriber.Domain.Errors.{ok}
use superscriber.Orchestration.Config.{OrchestrationMode}
use superscriber.Ingest.Disk.{file_keyed}
use superscriber.Ingest.Finalize.{finalize_mutation}
use superscriber.Workflow.Store.{Persisted}
use superscriber.Workflow.State.{IngestionSession, TranscriptJob, job_keyed, session_keyed, row_of}
use superscriber.Casefile.Store.{recording_keyed}
use superscriber.Orchestration.Queue.Jobs.{JobClaim}
use superscriber.Orchestration.Queue.Claim.{claim_available_transcript_job}
use superscriber.Ingest.Handover.{IsLinked, finalize_mutation-claim_available_transcript_job}
use superscriber.Examples.Queue.{raw, verified_session, waiting_job}
use superscriber.Examples.Uploads.{uploader, first_status, done, complete, filled, finalized_run}

abbrev session_or : Option IngestionSession → IngestionSession
session_or none = verified_session
session_or (some e) = e

abbrev recording_or : Option Recording → Recording
recording_or none = raw
recording_or (some r) = r

abbrev job_or : Option TranscriptJob → TranscriptJob
job_or none = waiting_job
job_or (some j) = j

abbrev stored_session : IngestionSession
unfolding complete
stored_session = session_or (row first_status.session_id complete.store.app.ingestion_sessions)

abbrev stored_recording : Recording
unfolding complete
stored_recording = recording_or (row stored_session.recording_id complete.store.app.recordings)

abbrev stored_job : TranscriptJob
unfolding complete
stored_job = job_or (row_of stored_recording.transcript_job_id complete.store.app.transcript_jobs)

same_recording : (stored_job.recording_id === stored_session.recording_id) ≡ true
unfolding complete filled finalize_mutation superscriber.Prelude.Text-discrete
    superscriber.Prelude.trim
same_recording = refl

linked_recording : stored_job.recording_id ≡ stored_session.recording_id
linked_recording = ground (arith, same_recording)

linked :
    IsLinked complete.store.app first_status.session_id stored_session stored_recording stored_job
unfolding complete filled finalize_mutation superscriber.Prelude.Text-discrete
    superscriber.Prelude.trim
linked = record {
  session = refl;
  recording = refl;
  job = refl;
  names_session = refl;
  names_recording = linked_recording;
}

finalize_mutation-claim_available_transcript_job_example :
    (c : JobClaim) × (q : Persisted) × (claim_available_transcript_job
        (units "w")
        none
        5000
        complete.store
      ≡ (ok (some c), q))
unfolding complete filled finalize_mutation superscriber.Prelude.Text-discrete
    superscriber.Prelude.trim superscriber.Orchestration.Config.configured_adapter_id
    superscriber.Orchestration.Queue.Jobs.internal_worker_id
    superscriber.Workflow.Uploads.webhook_engine_id
finalize_mutation-claim_available_transcript_job_example =
    finalize_mutation-claim_available_transcript_job first_status.session_id uploader 4000 filled
      complete done.0 done.1 stored_session stored_recording stored_job (units "w") none 5000
      finalized_run linked refl refl
