-- ===== src/Ingest/Chunks.antt =====
-- `appendUploadChunk`.
pub mod Laws
use superscriber.Prelude.{
  Text, Option, some, none, ℕ, ◌+◌, List, [], Bool, true, false, not, ◌&&◌, ◌==◌, ltb, ◌===◌,
  if◌then◌else◌, length,
}
use superscriber.Domain.Models.{IntegrityState, Principal, integrity_state_equal}
use superscriber.Domain.Errors.{Result, ok, err, ◌>>=◌, ◌>>◌, throw_if, state_changed}
use superscriber.Workflow.State.{AppState, IngestionSession, value_or}
use superscriber.Workflow.Uploads.{note_upload_progress}
use superscriber.Ingest.Disk.{
  Disk, StoredFile, Ingest, Mutation, and_then, mutate, temp_file, exists, write_temp, write_at,
}
use superscriber.Ingest.Service.{
  SessionStatus, refused, assert_uploader_or_admin, assert_session_access, mutate_session,
  cleanup_expired_uploads_in_state, find_upload_state, build_session_status,
}
use superscriber.Ingest.Sessions.{checked}

pub record Chunk : Type 0 where
  pub principal : Principal
  pub session_id : Text
  pub chunk_start : ℕ
  pub bytes : List ℕ

-- The session that takes the bytes, and the place where they go.
unfoldable pub check_chunk : Chunk → AppState → Disk → Result ℕ
unfolding find_upload_state assert_session_access
check_chunk c s d = do
  found ← find_upload_state s c.session_id
  assert_session_access found.session c.principal mutate_session
  throw_if (found.session.state === IntegrityState.verification_failed) (refused state_changed)
  let offset = value_or found.session.bytes_received 0
  throw_if (not (c.chunk_start == offset)) (refused state_changed)
  throw_if (not (exists (temp_file c.session_id d)) && ltb 0 offset) (refused state_changed)
  ok offset

abbrev pub bytes_of : Option StoredFile → List ℕ
bytes_of none = []
bytes_of (some f) = f.bytes

-- The file is opened anew for the first chunk, and else written at the place.
unfoldable pub write_chunk : Chunk → ℕ → Disk → Disk
unfolding write_at
write_chunk c offset d =
    write_temp c.session_id
      (write_at offset c.bytes (if offset == 0 then [] else bytes_of (temp_file c.session_id d))) d

-- The progress is noted once the bytes are written.
unfoldable pub note_chunk : Chunk → ℕ → ℕ → AppState → Disk → Result (SessionStatus × AppState)
unfolding note_upload_progress build_session_status
note_chunk c offset now s d = do
  t ← note_upload_progress c.session_id (offset + length c.bytes) now s
  status ← build_session_status t d c.session_id
  ok (status, t)

unfoldable pub chunk_mutation : Chunk → ℕ → Mutation SessionStatus
unfolding cleanup_expired_uploads_in_state check_chunk write_chunk note_chunk
chunk_mutation c now s d = and_then (cleanup_expired_uploads_in_state now s d) λ t d'.
    and_then (check_chunk c t d', d')
      λ offset e. let f = write_chunk c offset e in (note_chunk c offset now t f, f)

unfoldable pub append_upload_chunk : Chunk → ℕ → Ingest → Result SessionStatus × Ingest
unfolding assert_uploader_or_admin chunk_mutation mutate
append_upload_chunk c now w =
    checked (assert_uploader_or_admin c.principal) (λ _ v. mutate (chunk_mutation c now) v) w
