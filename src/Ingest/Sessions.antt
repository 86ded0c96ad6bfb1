-- ===== src/Ingest/Sessions.antt =====
-- `createResumableUploadSession` and `getResumableUploadSession`. The digest of a user's key is an
-- argument: it is SHA-256, of the host.
pub mod Laws
use superscriber.Prelude.{
  Text, Option, some, none, ℕ, List, [], ◌∷◌, ◌++◌, Bool, true, false, if◌then◌else◌, units, row,
  non_empty, truthy,
}
use superscriber.Domain.Models.{RecordingSource, Principal, Workspace}
use superscriber.Domain.Errors.{Result, ok, err, ◌>>=◌, ◌>>◌}
use superscriber.Workflow.State.{AppState, IngestionSession, session_keyed, value_or}
use superscriber.Workflow.Create.{NewRecording, create_upload_session_entry}
use superscriber.Orchestration.Config.{configured_adapter_id, OrchestrationMode}
use superscriber.Ingest.Disk.{Disk, Ingest, Mutation, and_then, mutate, write_temp}
use superscriber.Ingest.Service.{
  SessionStatus, assert_uploader_or_admin, validate_title, assert_session_access, mutate_session,
  inspect, cleanup_expired_uploads_in_state, find_upload_state, build_session_status,
  media_kind_for_mime, file_safe_name,
}

pub record UploadRequest : Type 0 where
  pub principal : Principal
  pub title : Text
  pub language_hint : Text
  pub transcript_model : Option Text
  pub source : RecordingSource
  pub file_name : Text
  pub mime_type : Option Text
  pub file_size : ℕ
  pub idempotency_key : Option Text

-- The host's settings and functions.
pub record Host : Type 0 where
  pub mode : OrchestrationMode
  pub digest : Text → Text → Text

unfoldable pub idempotent_session_id : Host → Text → Text → Text
idempotent_session_id host user_id key = units "ingest-idempotent-" ++ host.digest user_id key

-- No id where the key is absent or empty.
abbrev pub requested_id : Host → Text → Option Text → Option Text
requested_id host user_id none = none
requested_id host user_id (some key) =
    if non_empty key then some (idempotent_session_id host user_id key) else none

abbrev pub first_workspace_id : List Workspace → Text
first_workspace_id [] = units "workspace-regulated"
first_workspace_id (w ∷ rest) = w.id

abbrev pub new_upload : UploadRequest → Text → AppState → NewRecording
new_upload u title s = record {
  workspace_id = first_workspace_id s.workspaces;
  title = title;
  source = u.source;
  media_kind = media_kind_for_mime u.mime_type;
  mime_type = u.mime_type;
  original_file_name = if non_empty u.file_name then some (file_safe_name u.file_name) else none;
  language_hint = if non_empty u.language_hint then u.language_hint else units "english";
  transcript_model = u.transcript_model;
}

pub record Opened : Type 0 where
  pub created : Bool
  pub session_id : Text

abbrev pub existing_session : Option Text → AppState → Option IngestionSession
existing_session none s = none
existing_session (some id) s = row id s.ingestion_sessions

-- The session that there is, or a new one.
unfoldable pub open_session :
    Host
    → UploadRequest
    → Text
    → Option Text
    → ℕ
    → Option IngestionSession
    → AppState
    → Result (Opened × AppState)
unfolding create_upload_session_entry assert_session_access
open_session host u title requested now (some e) s = do
  assert_session_access e u.principal mutate_session
  ok (record { created = false; session_id = e.id }, s)
open_session host u title requested now none s =
    let (entry, t) =
      create_upload_session_entry (new_upload u title s) u.principal u.file_size
        (some (configured_adapter_id host.mode)) requested now s in
    ok (record { created = true; session_id = entry.ingestion_session.id }, t)

unfoldable pub open_mutation : Host → UploadRequest → Text → Option Text → ℕ → Mutation Opened
unfolding open_session cleanup_expired_uploads_in_state
open_mutation host u title requested now s d =
    and_then (cleanup_expired_uploads_in_state now s d)
      λ t d'. (open_session host u title requested now (existing_session requested t) t, d')

-- An empty file for a new session, and the status of the session as it is then.
unfoldable pub after_open : Result Opened × Ingest → Result SessionStatus × Ingest
unfolding build_session_status
after_open (err e, w) = (err e, w)
after_open (ok o, w) =
    let d = if o.created then write_temp o.session_id [] w.disk else w.disk in
    (build_session_status w.store.app d o.session_id, record w { disk = d })

abbrev pub checked :
    {A : Type 0}
    → Result A
    → (A → Ingest → Result SessionStatus × Ingest)
    → Ingest
    → Result SessionStatus × Ingest
checked (err e) rest w = (err e, w)
checked (ok a) rest w = rest a w

unfoldable pub create_resumable_upload_session :
    Host → UploadRequest → ℕ → Ingest → Result SessionStatus × Ingest
unfolding assert_uploader_or_admin validate_title open_mutation mutate after_open
create_resumable_upload_session host u now w =
    checked (assert_uploader_or_admin u.principal >>= λ _. validate_title u.title)
      (λ title v. after_open (
        mutate
          (open_mutation host u title (requested_id host u.principal.user_id u.idempotency_key) now)
          v))
      w

unfoldable pub status_mutation : Text → Principal → ℕ → Mutation SessionStatus
unfolding cleanup_expired_uploads_in_state find_upload_state assert_session_access
    build_session_status
status_mutation session_id principal now s d =
    and_then (cleanup_expired_uploads_in_state now s d) λ t d'. (
      (do
        found ← find_upload_state t session_id
        assert_session_access found.session principal inspect
        status ← build_session_status t d' session_id
        ok (status, t)),
      d',
    )

unfoldable pub get_resumable_upload_session :
    Text → Principal → ℕ → Ingest → Result SessionStatus × Ingest
unfolding assert_uploader_or_admin status_mutation mutate
get_resumable_upload_session session_id principal now w =
    checked (assert_uploader_or_admin principal)
      (λ _ v. mutate (status_mutation session_id principal now) v) w
