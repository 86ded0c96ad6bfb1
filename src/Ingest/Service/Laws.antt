-- ===== src/Ingest/Service/Laws.antt =====
-- What the cleanup of old uploads leaves of a session.
use superscriber.Prelude.{
  Text, Option, some, none, ℕ, List, [], ◌∷◌, ◌≡◌, ◌⊎◌, inl, inr, refl, ap, ◌∙◌, ◌===◌, row,
  row-update_first, update_first, arith, text_equal, Bool-cases, Option-cases, if◌then◌else◌, subst,
  map,
}
use mathlib.Core.Option
use superscriber.Domain.Models.{IntegrityState}
use superscriber.Domain.Errors.{Result, ok, chain_ok}
use superscriber.Casefile.Store.{recording_keyed}
use superscriber.Workflow.State.{AppState, IngestionSession, session_keyed, add_audit_event}
use superscriber.Workflow.Uploads.{expire_upload_session, resolve_upload_refs}
use superscriber.Ingest.Disk.{file_keyed, Disk, temp_file, remove_temp}
use superscriber.Ingest.Disk.Laws.{and_then_ok, row-without_same, row-without_other}
use superscriber.Ingest.Service.{
  expiry_words, is_left, clean_session, clean_sessions, cleanup_expired_uploads_in_state,
}

-- A session with the same owner, recording and bytes.
pub record SameUpload (e f : IngestionSession) : Type 0 where
  pub owner : f.created_by_user_id ≡ e.created_by_user_id
  pub recording : f.recording_id ≡ e.recording_id
  pub received : f.bytes_received ≡ e.bytes_received
  pub expected : f.bytes_expected ≡ e.bytes_expected

abbrev pub KeepsUploads : AppState → AppState → Type 0
KeepsUploads s t =
    (id : Text) (f : IngestionSession)
    → row id t.ingestion_sessions ≡ some f
    → (e : IngestionSession) × (row id s.ingestion_sessions ≡ some e) × SameUpload e f

-- A temporary file stays, or is gone.
abbrev pub KeepsFiles : Disk → Disk → Type 0
KeepsFiles d d' = (id : Text) → (temp_file id d' ≡ temp_file id d) ⊎ (temp_file id d' ≡ none)

SameUpload-refl : (e : IngestionSession) → SameUpload e e
SameUpload-refl e = record { owner = refl; recording = refl; received = refl; expected = refl }

update_first-KeepsUploads :
    (id : Text) (F : IngestionSession → IngestionSession) (s t : AppState)
    → ((e : IngestionSession) → ((F e).id ≡ e.id) × SameUpload e (F e))
    → t.ingestion_sessions ≡ update_first id F s.ingestion_sessions
    → KeepsUploads s t
update_first-KeepsUploads id F s t keep same other f at =
    let moved = row-update_first id other F s.ingestion_sessions (λ e. (keep e).0) in
    let there : row other t.ingestion_sessions ≡ (
        if id === other
        then Option.map F (row other s.ingestion_sessions)
        else row other s.ingestion_sessions) =
      ap (λ (es : List IngestionSession). row other es) same ∙ moved in
    elim (Option-cases (row other s.ingestion_sessions)) [
      | inl gone ↦ absurd (ground (arith, there, gone, at))
      | inr (e, was) ↦ (
        e,
        was,
        elim (Bool-cases (id === other)) [
          | inl hit ↦
              subst (SameUpload e) {x = F e} {y = f} (ground (arith, there, was, at, hit))
                (keep e).1
          | inr miss ↦
              subst (SameUpload e) {x = e} {y = f} (ground (arith, there, was, at, miss))
                (SameUpload-refl e)
        ],
      )
    ]

expire-KeepsUploads :
    (id words : Text) (now : ℕ) (s t : AppState)
    → expire_upload_session id words now s ≡ ok t
    → KeepsUploads s t
unfolding expire_upload_session add_audit_event
expire-KeepsUploads id words now s t e =
    let (refs, resolved, same) = chain_ok (resolve_upload_refs s id) e in
    update_first-KeepsUploads id
      (λ x. record x {
        state = IntegrityState.interrupted;
        last_error = some words;
        verification_summary = some words;
        updated_at = now;
      })
      s t (λ x. (refl, record { owner = refl; recording = refl; received = refl; expected = refl }))
      (ground (arith, same))

remove-KeepsFiles : (id : Text) (d : Disk) → KeepsFiles d (remove_temp id d)
remove-KeepsFiles id d other = elim (Bool-cases (id === other)) [
  | inl same ↦ inr (ground (arith, same, row-without_same id d.uploads))
  | inr differs ↦ inl (row-without_other id other d.uploads differs)
]

-- What a part of the cleanup keeps.
abbrev pub Keeps : AppState → Disk → AppState → Disk → Type 0
Keeps s d t d' = KeepsUploads s t × KeepsFiles d d'

Keeps-refl : (s : AppState) (d : Disk) → Keeps s d s d
Keeps-refl s d = (λ id f at. (f, at, SameUpload-refl f), λ id. inl refl)

Keeps-trans : (s t u : AppState) (d e f : Disk) → Keeps s d t e → Keeps t e u f → Keeps s d u f
Keeps-trans s t u d e f first second = (uploads, files)
  where
    uploads : KeepsUploads s u
    uploads id h at =
        let (g, there, b) = second.0 id h at in
        let (k, here, a) = first.0 id g there in
        (
          k,
          here,
          record {
            owner = b.owner ∙ a.owner;
            recording = b.recording ∙ a.recording;
            received = b.received ∙ a.received;
            expected = b.expected ∙ a.expected;
          },
        )

    files : KeepsFiles d f
    files id = elim (second.1 id) [
      | inl b ↦ elim (first.1 id) [ inl a ↦ inl (b ∙ a) | inr a ↦ inr (b ∙ a) ]
      | inr b ↦ inr b
    ]

clean_session-Keeps :
    (now : ℕ) (id : Text) (o : Option IngestionSession) (s t : AppState) (d d' : Disk)
    → clean_session now id o s d ≡ (ok t, d')
    → Keeps s d t d'
clean_session-Keeps now id none s t d d' h =
    subst (λ (p : AppState × Disk). Keeps s d p.0 p.1) {x = (s, d)} {y = (t, d')}
      (ground (arith, h)) (Keeps-refl s d)
clean_session-Keeps now id (some e) s t d d' h = elim (Bool-cases (is_left now e)) [
  | inl c ↦ (
    expire-KeepsUploads id expiry_words now s t (ground (arith, c, h)),
    subst (KeepsFiles d) {x = remove_temp id d} {y = d'} (ground (arith, c, h))
        (remove-KeepsFiles id d),
  )
  | inr c ↦
      subst (λ (p : AppState × Disk). Keeps s d p.0 p.1) {x = (s, d)} {y = (t, d')}
        (ground (arith, c, h)) (Keeps-refl s d)
]

clean_sessions-Keeps :
    (now : ℕ) (ids : List Text) (s t : AppState) (d d' : Disk)
    → clean_sessions now ids s d ≡ (ok t, d')
    → Keeps s d t d'
unfolding clean_sessions
clean_sessions-Keeps now [] s t d d' h =
    subst (λ (p : AppState × Disk). Keeps s d p.0 p.1) {x = (s, d)} {y = (t, d')}
      (ground (arith, h)) (Keeps-refl s d)
clean_sessions-Keeps now (id ∷ ids) s t d d' h =
    let first = clean_session now id (row id s.ingestion_sessions) s d in
    let (u, one, rest) = and_then_ok (clean_sessions now ids) first.0 first.1 h in
    Keeps-trans s u t d first.1 d'
      (clean_session-Keeps now id (row id s.ingestion_sessions) s u d first.1
        (ap (λ (r : Result AppState). (r, first.1)) one))
      (clean_sessions-Keeps now ids u t first.1 d' rest)

-- The cleanup keeps the owner and the bytes of every session, and removes files or leaves them.
pub cleanup_expired_uploads_in_state-Keeps :
    (now : ℕ) (s t : AppState) (d d' : Disk)
    → cleanup_expired_uploads_in_state now s d ≡ (ok t, d')
    → Keeps s d t d'
unfolding cleanup_expired_uploads_in_state
cleanup_expired_uploads_in_state-Keeps now s t d d' h =
    clean_sessions-Keeps now (map (λ e. e.id) s.ingestion_sessions) s t d d' h
