-- ===== src/Ingest/Sessions/Laws.antt =====
-- A new session has received no bytes.
use superscriber.Prelude.{
  Text, Option, some, none, ℕ, [], ◌≡◌, inl, refl, ap, sym, ◌∙◌, true, row, row-key, arith,
  text_equal, if◌then◌else◌,
}
use superscriber.Domain.Models.{Principal}
use superscriber.Domain.Errors.{Result, ok, err, chain_ok, ◌>>=◌}
use superscriber.Casefile.Store.{recording_keyed}
use superscriber.Workflow.State.{AppState, IngestionSession, session_keyed, add_audit_event}
use superscriber.Workflow.Store.{Persisted}
use superscriber.Workflow.Create.{
  NewRecording, create_upload_session_entry, create_ingestion_session, create_transcript_job,
  ingestion_session, add_entry,
}
use superscriber.Orchestration.Config.{configured_adapter_id}
use superscriber.Ingest.Disk.{Disk, Ingest, mutate, write_temp}
use superscriber.Ingest.Disk.Laws.{and_then_ok, mutate_ok}
use superscriber.Ingest.Service.{
  SessionStatus, assert_uploader_or_admin, validate_title, cleanup_expired_uploads_in_state,
  find_upload_state, build_session_status,
}
use superscriber.Ingest.Chunks.Laws.{Received, find_upload_state_ok, checked_ok}
use superscriber.Ingest.Sessions.{
  UploadRequest, Host, Opened, requested_id, new_upload, existing_session, open_session,
  open_mutation, after_open, create_resumable_upload_session,
}

build_session_status_id :
    (s : AppState) (d : Disk) (id : Text) (st : SessionStatus)
    → build_session_status s d id ≡ ok st
    → st.session_id ≡ id
unfolding build_session_status
build_session_status_id s d id st h =
    let (u, found, same) = chain_ok (find_upload_state s id) h in
    ground
      (arith, same, row-key id s.ingestion_sessions u.session (find_upload_state_ok s id u found))

created_entry :
    (n : NewRecording) (p : Principal) (size : ℕ) (adapter id : Option Text) (now : ℕ)
    (s : AppState)
    → let (entry, t) = create_upload_session_entry n p size adapter id now s in
      (row entry.ingestion_session.id t.ingestion_sessions ≡ some entry.ingestion_session)
      × (entry.ingestion_session.bytes_received ≡ some 0)
      × (entry.ingestion_session.bytes_expected ≡ some size)
unfolding create_upload_session_entry create_ingestion_session create_transcript_job add_entry
    add_audit_event ingestion_session
created_entry n p size adapter id now s = (ground arith, refl, refl)

opened :
    (host : Host) (u : UploadRequest) (title : Text) (now : ℕ) (s t : AppState) (o : Opened)
    → open_session host u title none now none s ≡ ok (o, t)
    → (o.created ≡ true)
      × ((e : IngestionSession) × (row o.session_id t.ingestion_sessions ≡ some e)
          × (e.bytes_received ≡ some 0))
unfolding open_session
opened host u title now s t o h =
    let made =
      create_upload_session_entry (new_upload u title s) u.principal u.file_size
        (some (configured_adapter_id host.mode)) none now s in
    let (there, received, expected) =
      created_entry (new_upload u title s) u.principal u.file_size
        (some (configured_adapter_id host.mode)) none now s in
    let id : made.0.ingestion_session.id ≡ o.session_id = ground (arith, h) in
    let state : made.1 ≡ t = ground (arith, h) in
    (
      ground (arith, h),
      (
        made.0.ingestion_session,
        sym (ap (λ (a : AppState). row o.session_id a.ingestion_sessions) state)
            ∙ sym (ap (λ (i : Text). row i made.1.ingestion_sessions) id)
            ∙ there,
        received,
      ),
    )

after_open_ok :
    (o : Opened) (w after : Ingest) (st : SessionStatus)
    → o.created ≡ true
    → after_open (ok o, w) ≡ (ok st, after)
    → (st.session_id ≡ o.session_id)
      × (after.store ≡ w.store)
      × (after.disk ≡ write_temp o.session_id [] w.disk)
unfolding after_open
after_open_ok o w after st new h =
    let k = rw (new, if◌then◌else◌) at h in
    (
      build_session_status_id w.store.app (write_temp o.session_id [] w.disk) o.session_id st
          (ap (λ (x : Result SessionStatus × Ingest). x.0) k),
      ground (arith, k),
      ground (arith, k),
    )

after_open_from :
    (r : Result Opened) (w after : Ingest) (st : SessionStatus)
    → after_open (r, w) ≡ (ok st, after)
    → (o : Opened) × (r ≡ ok o) × (after_open (ok o, w) ≡ (ok st, after))
unfolding after_open
after_open_from (err e) w after st h = absurd (cc)
after_open_from (ok o) w after st h = (o, refl, h)

-- A session that is created without an idempotency key has received no bytes, and has an empty file.
pub create_resumable_upload_session-Received :
    (host : Host) (u : UploadRequest) (now : ℕ) (w after : Ingest) (st : SessionStatus)
    → u.idempotency_key ≡ none
    → create_resumable_upload_session host u now w ≡ (ok st, after)
    → Received after.store.app after.disk st.session_id []
unfolding create_resumable_upload_session open_mutation
create_resumable_upload_session-Received host u now w after st fresh h =
    let (title, valid, h1) =
      checked_ok (assert_uploader_or_admin u.principal >>= λ _. validate_title u.title) _ w after st
        h in
    let requested = requested_id host u.principal.user_id u.idempotency_key in
    let none_requested : requested ≡ none = ap (requested_id host u.principal.user_id) fresh in
    let ran = mutate (open_mutation host u title requested now) w in
    let (o, went, h2) = after_open_from ran.0 ran.1 after st h1 in
    let (s, changed, stored_is) =
      mutate_ok (open_mutation host u title requested now) w
        (ap (λ (r : Result Opened). (r, ran.1)) went) in
    let clean = cleanup_expired_uploads_in_state now w.store.app w.disk in
    let (t, cleaned, h3) = and_then_ok _ clean.0 clean.1 changed in
    let opened_now : open_session host u title none now none t ≡ ok (o, s) =
      sym (
        ap (λ (r : Option Text). open_session host u title r now (existing_session r t) t)
          none_requested)
      ∙ ap (λ (x : Result (Opened × AppState) × Disk). x.0) h3 in
    let (new, (e, there, received)) = opened host u title now t s o opened_now in
    let (same_id, store, disk) = after_open_ok o ran.1 after st new h2 in
    let app : after.store.app ≡ s = ap (λ (p : Persisted). p.app) (store ∙ stored_is) in
    record {
      session = e;
      found =
          ap (λ (i : Text). row i after.store.app.ingestion_sessions) same_id
          ∙ ap (λ (a : AppState). row o.session_id a.ingestion_sessions) app
          ∙ there;
      counted = received;
      file = inl refl;
    }
