-- ===== src/Examples/Uploads.antt =====
-- An upload of three bytes in two chunks.
mod Handover
use superscriber.Prelude.{
  text_equal, ◌===◌, Text, ℕ, Option, none, some, true, false, ◌≡◌, refl, List, [], ◌∷◌, ◌++◌,
  units, arith, row,
}
use superscriber.Domain.Models.{UserRole, RecordingSource, Principal, Recording}
use superscriber.Domain.Errors.{Result, ok, err}
use superscriber.Orchestration.Config.{OrchestrationMode}
use superscriber.Ingest.Disk.{Ingest, file_keyed, mutate}
use superscriber.Ingest.Service.{SessionStatus}
use superscriber.Ingest.Sessions.{UploadRequest, Host, create_resumable_upload_session}
use superscriber.Ingest.Sessions.Laws.{create_resumable_upload_session-Received}
use superscriber.Ingest.Chunks.{Chunk, append_upload_chunk}
use superscriber.Ingest.Chunks.Laws.{Received, append_all, append_all-Received}
use superscriber.Ingest.Finalize.{Finalized, not_finalized, finalized, finalize_mutation}
use superscriber.Ingest.Finalize.Laws.{IsStored, finalize_mutation_lem}
use superscriber.Ingest.Upload.{finalize_mutation-append_all}
use superscriber.Workflow.Store.{Persisted}
use superscriber.Workflow.State.{IngestionSession, TranscriptJob, job_keyed, session_keyed, row_of}
use superscriber.Casefile.Store.{recording_keyed}
use superscriber.Orchestration.Queue.Jobs.{JobClaim}
use superscriber.Orchestration.Queue.Claim.{claim_available_transcript_job}
use superscriber.Ingest.Handover.{IsLinked, finalize_mutation-claim_available_transcript_job}
use superscriber.Examples.Queue.{raw, verified_session, waiting_job}
use superscriber.Examples.{workspace}

abbrev pub uploader : Principal
uploader = record {
  user_id = units "u0";
  email = units "u0@x";
  display_name = units "Di";
  role = UserRole.uploader;
}

abbrev empty_store : Ingest
empty_store = record {
  store = record {
    app = record {
      workspaces = workspace ∷ [];
      policy_profiles = [];
      recordings = [];
      ingestion_sessions = [];
      transcript_jobs = [];
      revisions = [];
      approvals = [];
      audit_events = [];
      uuids = λ n. n ∷ [];
    };
    state_version = some 1;
  };
  disk = record { uploads = []; media = [] };
}

abbrev host : Host
host = record { mode = OrchestrationMode.internal; digest = λ user key. user ++ key }

abbrev request : UploadRequest
request = record {
  principal = uploader;
  title = units "Talk";
  language_hint = units "";
  transcript_model = none;
  source = RecordingSource.upload;
  file_name = units "a.wav";
  mime_type = some (units "audio/wav");
  file_size = 3;
  idempotency_key = none;
}

abbrev pub empty_status : SessionStatus
empty_status = record {
  session_id = [];
  recording_id = [];
  state = superscriber.Domain.Models.IntegrityState.uploading;
  integrity_state = superscriber.Domain.Models.IntegrityState.uploading;
  bytes_received = 0;
  bytes_expected = 0;
  progress_percent = 0;
  resume_token = none;
  next_action = superscriber.Ingest.Service.NextAction.resume;
  warning = none;
  verification_summary = none;
  title = [];
  source = RecordingSource.upload;
  media_path = none;
  temp_file_present = false;
}

abbrev status_or : Result SessionStatus × Ingest → SessionStatus
status_or (ok st, w) = st
status_or (err e, w) = empty_status

abbrev pub first_status : SessionStatus
unfolding create_resumable_upload_session
first_status = status_or (create_resumable_upload_session host request 1000 empty_store)

abbrev opened : Ingest
unfolding create_resumable_upload_session
opened = (create_resumable_upload_session host request 1000 empty_store).1

created_run :
    create_resumable_upload_session host request 1000 empty_store ≡ (ok first_status, opened)
unfolding create_resumable_upload_session superscriber.Prelude.trim
    superscriber.Prelude.Text-discrete
created_run = refl

created_empty : Received opened.store.app opened.disk first_status.session_id []
created_empty =
    create_resumable_upload_session-Received host request 1000 empty_store opened first_status refl
      created_run

abbrev first_chunk : Chunk
unfolding first_status
first_chunk = record {
  principal = uploader;
  session_id = first_status.session_id;
  chunk_start = 0;
  bytes = 10 ∷ 20 ∷ [];
}

abbrev second_chunk : Chunk
unfolding first_status
second_chunk = record first_chunk { chunk_start = 2; bytes = 30 ∷ [] }

abbrev last_status : SessionStatus
unfolding opened first_chunk second_chunk append_upload_chunk
last_status =
    status_or (append_all ((2000, first_chunk) ∷ (3000, second_chunk) ∷ []) first_status opened)

abbrev pub filled : Ingest
unfolding opened first_chunk second_chunk append_upload_chunk
filled = (append_all ((2000, first_chunk) ∷ (3000, second_chunk) ∷ []) first_status opened).1

appended_run :
    append_all ((2000, first_chunk) ∷ (3000, second_chunk) ∷ []) first_status opened
    ≡ (ok last_status, filled)
unfolding append_upload_chunk first_chunk superscriber.Prelude.trim
    superscriber.Prelude.Text-discrete
appended_run = refl

abbrev finalized_or : Result Finalized × Ingest → Text × Text
finalized_or (ok (finalized recording_id path), w) = (recording_id, path)
finalized_or (ok (not_finalized e), w) = ([], [])
finalized_or (err e, w) = ([], [])

abbrev pub done : Text × Text
unfolding filled finalize_mutation mutate
done = finalized_or (mutate (finalize_mutation first_status.session_id uploader 4000) filled)

abbrev pub complete : Ingest
unfolding filled finalize_mutation mutate
complete = (mutate (finalize_mutation first_status.session_id uploader 4000) filled).1

pub finalized_run :
    mutate (finalize_mutation first_status.session_id uploader 4000) filled
    ≡ (ok (finalized done.0 done.1), complete)
unfolding mutate finalize_mutation filled complete superscriber.Prelude.trim
    superscriber.Prelude.Text-discrete
finalized_run = refl

finalize_mutation-append_all_example :
    row done.1 complete.disk.media ≡ some (record { name = done.1; bytes = 10 ∷ 20 ∷ 30 ∷ [] })
unfolding first_chunk second_chunk
finalize_mutation-append_all_example =
    finalize_mutation-append_all host request uploader 1000 4000
      ((2000, first_chunk) ∷ (3000, second_chunk) ∷ []) empty_store opened filled complete
      first_status last_status done.0 done.1 refl created_run (refl, (refl, tt)) appended_run
      finalized_run

filled_whole : Received filled.store.app filled.disk first_status.session_id (10 ∷ 20 ∷ 30 ∷ [])
unfolding first_chunk second_chunk
filled_whole =
    append_all-Received ((2000, first_chunk) ∷ (3000, second_chunk) ∷ []) first_status.session_id
      opened filled first_status last_status [] (refl, (refl, tt)) created_empty appended_run

finalize_mutation_lem_example :
    IsStored first_status.session_id uploader filled complete (10 ∷ 20 ∷ 30 ∷ []) done.1
finalize_mutation_lem_example =
    finalize_mutation_lem first_status.session_id uploader 4000 filled complete (10 ∷ 20 ∷ 30 ∷ [])
      done.0 done.1 filled_whole finalized_run

abbrev spoiled : Ingest
unfolding complete finalize_mutation mutate
spoiled = (mutate (finalize_mutation first_status.session_id uploader 5000) complete).1
