-- ===== src/Ingest/Service.antt =====
-- What the operations of src/server/ingest/service.ts share: checks, the cleanup of uploads that were
-- left, and the status that a client sees.
pub mod Laws
use superscriber.Orchestration.Dispatch.{dispatch_warning_from_last_error}
use superscriber.Prelude.{
  truthy, Text, Option, some, none, ℕ, ◌+◌, ◌-◌, ◌*◌, List, [], ◌∷◌, ◌++◌, Bool, true, false, not,
  ◌&&◌, ◌||◌, ltb, leb, ◌==◌, ◌===◌, if◌then◌else◌, units, trim, is, length, map, non_empty,
  starts_with, row, text_equal,
}
use Prim.Native.Nat.{◌/◌, min}
use superscriber.Domain.Models.{
  IntegrityState, UserRole, RecordingSource, MediaKind, Principal, Recording, integrity_state_equal,
  user_role_equal,
}
use superscriber.Domain.Errors.{
  ErrorCode, Failure, Result, ok, err, ◌>>=◌, ◌>>◌, or_throw, throw_if, ingest_error, access_denied,
  not_found, validation_error, state_changed,
}
use superscriber.Casefile.Store.{recording_keyed}
use superscriber.Workflow.State.{AppState, IngestionSession, session_keyed, value_or}
use superscriber.Workflow.Uploads.{expire_upload_session}
use superscriber.Ingest.Disk.{
  Disk, StoredFile, file_keyed, temp_file, exists, remove_temp, and_then,
}

abbrev pub upload_expiry_ms : ℕ
upload_expiry_ms = 1000 * 60 * 60 * 24

abbrev pub refused : ErrorCode → Failure
refused code = ingest_error code none

unfoldable pub media_kind_for_mime : Option Text → MediaKind
unfolding starts_with
media_kind_for_mime none = MediaKind.audio
media_kind_for_mime (some mime) =
    if starts_with mime (units "video/") then MediaKind.video else MediaKind.audio

abbrev is_name_unit : ℕ → Bool
is_name_unit c =
    (leb b'a' c && leb c b'z')
    || (leb b'A' c && leb c b'Z')
    || (leb b'0' c && leb c b'9')
    || (c == b'.')
    || (c == b'_')
    || (c == b'-')

-- `basename`: what stands after the last slash, once slashes at the end are gone.
unfoldable pub strip_slashes : Text → Text
strip_slashes [] = []
strip_slashes (c ∷ s) =
    let rest = strip_slashes s in
    if non_empty rest then c ∷ rest else if c == b'/' then [] else c ∷ []

unfoldable pub last_part : Text → Text → Text
last_part found [] = found
last_part found (c ∷ s) = last_part (if c == b'/' then [] else found ++ c ∷ []) s

unfoldable pub file_safe_name : Text → Text
unfolding strip_slashes last_part
file_safe_name name =
    map (λ c. if is_name_unit c then c else b'-') (last_part [] (strip_slashes name))

-- Bytes are missing.
abbrev pub is_short : Option ℕ → Option ℕ → Bool
is_short (some received) (some expected) = ltb received expected
is_short (some received) none = false
is_short none expected = false

unfoldable pub is_incomplete : IngestionSession → Bool
is_incomplete e =
    ((e.state === IntegrityState.uploading) || (e.state === IntegrityState.interrupted))
    && is_short e.bytes_received e.bytes_expected

unfoldable pub expiry_words : Text
expiry_words =
    units "Temporary upload expired and was cleaned up. Start a new upload session to continue."

unfoldable pub is_left : ℕ → IngestionSession → Bool
unfolding is_incomplete
is_left now e = is_incomplete e && ltb e.updated_at (now - upload_expiry_ms)

-- One session of the loop: it is found again by its id.
abbrev pub clean_session :
    ℕ → Text → Option IngestionSession → AppState → Disk → Result AppState × Disk
clean_session now id none s d = (ok s, d)
clean_session now id (some e) s d =
    if is_left now e
    then (expire_upload_session id expiry_words now s, remove_temp id d)
    else (ok s, d)

unfoldable pub clean_sessions : ℕ → List Text → AppState → Disk → Result AppState × Disk
unfolding is_left expire_upload_session
clean_sessions now [] s d = (ok s, d)
clean_sessions now (id ∷ ids) s d =
    and_then (clean_session now id (row id s.ingestion_sessions) s d) (clean_sessions now ids)

unfoldable pub cleanup_expired_uploads_in_state : ℕ → AppState → Disk → Result AppState × Disk
unfolding clean_sessions
cleanup_expired_uploads_in_state now s d =
    clean_sessions now (map (λ e. e.id) s.ingestion_sessions) s d

pub record UploadState : Type 0 where
  pub session : IngestionSession
  pub recording : Recording

unfoldable pub find_upload_state : AppState → Text → Result UploadState
find_upload_state s session_id = do
  session ← or_throw (row session_id s.ingestion_sessions) (refused not_found)
  recording ← or_throw (row session.recording_id s.recordings) (refused not_found)
  ok (record { session = session; recording = recording })

pub data NextAction : Type 0 where
  resume restart finalize none_left : NextAction

pub record SessionStatus : Type 0 where
  pub session_id : Text
  pub recording_id : Text
  pub state : IntegrityState
  pub integrity_state : IntegrityState
  pub bytes_received : ℕ
  pub bytes_expected : ℕ
  pub progress_percent : ℕ
  pub resume_token : Option Text
  pub next_action : NextAction
  pub warning : Option Text
  pub verification_summary : Option Text
  pub title : Text
  pub source : RecordingSource
  pub media_path : Option Text
  pub temp_file_present : Bool

unfoldable pub next_action_of : IngestionSession → Recording → Bool → Bool → NextAction
next_action_of e r completed present =
    if e.state === IntegrityState.verification_failed
    then restart
    else if (e.state === IntegrityState.interrupted) && not present
    then restart
    else if completed && present
    then finalize
    else if (r.integrity_state === IntegrityState.verifying)
        || (e.state === IntegrityState.verified)
    then none_left
    else resume

-- The share of the bytes that are there, rounded to the nearest percent.
unfoldable pub upload_percent : ℕ → ℕ → ℕ
upload_percent received expected =
    if ltb 0 expected then min ((200 * received + expected) / (2 * expected)) 100 else 0

unfoldable pub build_session_status : AppState → Disk → Text → Result SessionStatus
unfolding find_upload_state next_action_of upload_percent dispatch_warning_from_last_error
build_session_status s d session_id = do
  found ← find_upload_state s session_id
  let received = value_or found.session.bytes_received 0
  let expected = value_or found.session.bytes_expected 0
  let present = exists (temp_file found.session.id d)
  ok (record {
    session_id = found.session.id;
    recording_id = found.recording.id;
    state = found.session.state;
    integrity_state = found.recording.integrity_state;
    bytes_received = received;
    bytes_expected = expected;
    progress_percent = upload_percent received expected;
    resume_token = found.session.resume_token;
    next_action =
        next_action_of found.session found.recording (ltb 0 expected && leb expected received)
          present;
    warning =
        if truthy found.recording.media_path
        then dispatch_warning_from_last_error found.session.last_error
        else none;
    verification_summary = found.session.verification_summary;
    title = found.recording.title;
    source = found.recording.source;
    media_path = found.recording.media_path;
    temp_file_present = present;
  })

unfoldable pub assert_uploader_or_admin : Principal → Result (Unit {0})
assert_uploader_or_admin p =
    throw_if (not ((p.role === UserRole.uploader) || (p.role === UserRole.admin)))
      (refused access_denied)

unfoldable pub validate_title : Text → Result Text
validate_title title =
    let trimmed = trim title in
    if ltb (length trimmed) 1 || ltb 120 (length trimmed)
    then err (ingest_error validation_error (some (units "title")))
    else ok trimmed

pub data AccessMode : Type 0 where
  inspect mutate_session : AccessMode

abbrev pub may_inspect : AccessMode → Principal → Bool
may_inspect inspect p = p.role === UserRole.admin
may_inspect mutate_session p = false

unfoldable pub assert_session_access : IngestionSession → Principal → AccessMode → Result (Unit {0})
assert_session_access e p mode =
    throw_if (not (is e.created_by_user_id p.user_id || may_inspect mode p)) (refused access_denied)
