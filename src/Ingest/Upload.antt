-- ===== src/Ingest/Upload.antt =====
-- An upload from its start to its end.
use superscriber.Prelude.{Text, some, none, ℕ, List, ◌≡◌, row}
use superscriber.Domain.Models.{Principal}
use superscriber.Domain.Errors.{ok}
use superscriber.Ingest.Disk.{file_keyed, Ingest, mutate}
use superscriber.Ingest.Service.{SessionStatus}
use superscriber.Ingest.Sessions.{UploadRequest, Host, create_resumable_upload_session}
use superscriber.Ingest.Sessions.Laws.{create_resumable_upload_session-Received}
use superscriber.Ingest.Chunks.{Chunk}
use superscriber.Ingest.Chunks.Laws.{append_all, all_bytes, AllOf, append_all-Received}
use superscriber.Ingest.Finalize.{finalized, finalize_mutation}
use superscriber.Ingest.Finalize.Laws.{finalize_mutation_lem}

-- A session is created without an idempotency key, chunks are appended one after the other, and the upload
-- is finalised: if none of this is refused, the media file is the chunks put together.
pub finalize_mutation-append_all :
    (host : Host) (u : UploadRequest) (p : Principal) (start end_time : ℕ)
    (chunks : List (ℕ × Chunk)) (w opened filled after : Ingest) (first last : SessionStatus)
    (recording_id path : Text)
    → u.idempotency_key ≡ none
    → create_resumable_upload_session host u start w ≡ (ok first, opened)
    → AllOf first.session_id chunks
    → append_all chunks first opened ≡ (ok last, filled)
    → mutate (finalize_mutation first.session_id p end_time) filled
      ≡ (ok (finalized recording_id path), after)
    → row path after.disk.media ≡ some (record { name = path; bytes = all_bytes chunks })
finalize_mutation-append_all host u p start end_time chunks w opened filled after first last
      recording_id path fresh created of_session appended done =
    let empty =
      create_resumable_upload_session-Received host u start w opened first fresh created in
    let full =
      append_all-Received chunks first.session_id opened filled first last _ of_session empty
        appended in
    (finalize_mutation_lem first.session_id p end_time filled after _ recording_id path full done).0
