-- ===== src/Ingest/Finalize/Twice.antt =====
-- An upload that is finalised a second time.
use superscriber.Prelude.{Text, some, ◌≡◌, row, text_equal}
use superscriber.Domain.Models.{Recording, IntegrityState, TranscriptJobState}
use superscriber.Casefile.Store.{recording_keyed}
use superscriber.Workflow.State.{AppState, IngestionSession, session_keyed, job_keyed}
use superscriber.Ingest.Disk.{file_keyed, Disk, Ingest}

-- The session and its recording have failed, with the state of the recording's job.
abbrev pub Failed : AppState → Text → Type 0
Failed s id =
    (e : IngestionSession) × (r : Recording) × (row id s.ingestion_sessions ≡ some e)
    × (row e.recording_id s.recordings ≡ some r)
    × (e.state ≡ IntegrityState.verification_failed)
    × (r.integrity_state ≡ IntegrityState.verification_failed)
    × (r.transcript_job_state ≡ TranscriptJobState.failed)
