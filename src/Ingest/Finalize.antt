-- ===== src/Ingest/Finalize.antt =====
-- `finalizeResumableUploadSession`.
pub mod Laws
pub mod Twice
use superscriber.Prelude.{
  text_equal, Text, Option, some, none, ℕ, ◌+◌, List, [], ◌∷◌, ◌++◌, Bool, true, false, not, ◌&&◌,
  ◌||◌, ◌==◌, ltb, ◌===◌, if◌then◌else◌, length, units,
}
use superscriber.Domain.Models.{Principal, Recording}
use superscriber.Domain.Errors.{Failure, Result, ok, err, ◌>>=◌, ◌>>◌, state_changed}
use superscriber.Workflow.State.{AppState, IngestionSession, value_or, drawn}
use superscriber.Workflow.Uploads.{fail_upload_session, finalize_upload_session}
use superscriber.Workflow.Store.{Persisted}
use superscriber.Orchestration.Dispatch.{
  Backend, DispatchOutcome, settled, thrown, stored_words, dispatch_recording_to_configured_engine,
}
use superscriber.Ingest.Disk.{
  Disk, StoredFile, Ingest, Mutation, and_then, mutate, temp_file, exists, move_to_media,
}
use superscriber.Ingest.Service.{
  SessionStatus, UploadState, refused, assert_uploader_or_admin, assert_session_access,
  mutate_session, cleanup_expired_uploads_in_state, find_upload_state,
}
use superscriber.Ingest.Sessions.{checked, get_resumable_upload_session}
use superscriber.Ingest.Chunks.{bytes_of}

unfoldable pub missing_words : Text
missing_words = units "Temporary upload is missing. Start a new upload session."

unfoldable pub mismatch_words : Text
mismatch_words =
    units
      "Upload verification failed because the received bytes do not match the expected size. Restart the upload."

-- The value that the change returns: a failure of the upload is stored, and thrown afterwards.
pub data Finalized : Type 0 where
  not_finalized : Failure → Finalized
  finalized : Text → Text → Finalized

-- What follows the last dot of a name, with the dot: `extname`, where the dot is not the first unit of the
-- last part.
unfoldable pub extension_of : Option Text → Text → Text
extension_of found [] = elim found [ none ↦ [] | some e ↦ e ]
extension_of found (c ∷ s) =
    extension_of
      (if c == b'.'
        then some (c ∷ [])
        else elim found [ none ↦ none | some e ↦ some (e ++ c ∷ []) ])
      s

-- The part of a name where an extension may stand. The name of two dots has none.
unfoldable tail_of : Text → Text
tail_of [] = []
tail_of (c ∷ s) = if (c ∷ s) === units ".." then [] else s

-- A name of the recording and of a new id. The directory is left out.
unfoldable pub next_media_path : Recording → AppState → Text
unfolding extension_of tail_of
next_media_path r s =
    let name = value_or r.original_file_name [] in
    let extension = extension_of none (tail_of name) in
    r.id
    ++ (units "-" ++ (s.uuids 0 ++ (elim extension [ [] ↦ units ".bin" | c ∷ rest ↦ c ∷ rest ])))

-- The upload is marked as failed in the state, and the call fails once that is stored.
unfoldable pub fail_finalize : Text → Text → ℕ → AppState → Result (Finalized × AppState)
unfolding fail_upload_session
fail_finalize session_id words now s = do
  t ← fail_upload_session session_id words now s
  ok (not_finalized (refused state_changed), t)

abbrev pub is_whole : IngestionSession → StoredFile → Bool
is_whole e f =
    (value_or e.bytes_received 0 == value_or e.bytes_expected 0)
    && (length f.bytes == value_or e.bytes_expected 0)

-- The file is moved before the state is changed.
unfoldable pub finish_whole :
    Text
    → Principal
    → UploadState
    → ℕ
    → AppState
    → Disk
    → StoredFile
    → Text
    → Result (Finalized × AppState) × Disk
unfolding finalize_upload_session
finish_whole session_id principal found now s d f path = (
  (do
    done ← finalize_upload_session session_id path found.recording.mime_type principal now (drawn s)
    ok (finalized found.recording.id path, done.1)),
  move_to_media session_id path (some f) d,
)

unfoldable pub finish_upload :
    Text
    → Principal
    → UploadState
    → ℕ
    → AppState
    → Disk
    → Option StoredFile
    → Result (Finalized × AppState) × Disk
unfolding fail_finalize next_media_path finish_whole
finish_upload session_id principal found now s d none =
    (fail_finalize session_id missing_words now s, d)
finish_upload session_id principal found now s d (some f) =
    if is_whole found.session f
    then finish_whole session_id principal found now s d f (next_media_path found.recording s)
    else (fail_finalize session_id mismatch_words now s, d)

unfoldable pub check_finalize : Text → Principal → AppState → Result UploadState
unfolding find_upload_state assert_session_access
check_finalize session_id principal s = do
  found ← find_upload_state s session_id
  assert_session_access found.session principal mutate_session
  ok found

unfoldable pub finalize_mutation : Text → Principal → ℕ → Mutation Finalized
unfolding cleanup_expired_uploads_in_state check_finalize finish_upload
finalize_mutation session_id principal now s d =
    and_then (cleanup_expired_uploads_in_state now s d) λ t d'.
      and_then (check_finalize session_id principal t, d')
        λ found e. finish_upload session_id principal found now t e (temp_file session_id e)

-- What the dispatch leaves to tell: nothing, or its failure.
abbrev pub dispatch_warning : DispatchOutcome → Option Text
dispatch_warning (settled result) = none
dispatch_warning (thrown detail) = some (stored_words detail)

-- The status after the dispatch, with its warning in place of the stored one.
abbrev pub with_warning :
    Option Text → Result SessionStatus × Ingest → Result SessionStatus × Ingest
with_warning warning (err e, w) = (err e, w)
with_warning warning (ok status, w) = (ok (record status { warning = warning }), w)

abbrev pub after_dispatch :
    Text → Principal → ℕ → Disk → DispatchOutcome × Persisted → Result SessionStatus × Ingest
after_dispatch session_id principal now d (outcome, p) =
    with_warning (dispatch_warning outcome)
      (get_resumable_upload_session session_id principal now (record { store = p; disk = d }))

unfoldable pub after_finalize :
    Backend → Text → Principal → ℕ → Result Finalized × Ingest → Result SessionStatus × Ingest
unfolding get_resumable_upload_session dispatch_recording_to_configured_engine
after_finalize b session_id principal now (err e, w) = (err e, w)
after_finalize b session_id principal now (ok (not_finalized e), w) = (err e, w)
after_finalize b session_id principal now (ok (finalized recording_id path), w) =
    after_dispatch session_id principal now w.disk
      (dispatch_recording_to_configured_engine b recording_id now w.store)

unfoldable pub finalize_resumable_upload_session :
    Backend → Text → Principal → ℕ → Ingest → Result SessionStatus × Ingest
unfolding assert_uploader_or_admin finalize_mutation mutate after_finalize
finalize_resumable_upload_session b session_id principal now w =
    checked (assert_uploader_or_admin principal)
      (λ _ v.
        after_finalize b session_id principal now
          (mutate (finalize_mutation session_id principal now) v))
      w
