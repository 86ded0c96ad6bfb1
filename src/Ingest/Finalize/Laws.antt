-- ===== src/Ingest/Finalize/Laws.antt =====
-- A finalised upload is stored byte for byte, and finalising it again fails it.
use superscriber.Prelude.{
  Text, Option, some, none, ℕ, List, [], ◌∷◌, ◌≡◌, ◌⊎◌, inl, inr, refl, ap, sym, ◌∙◌, true, is, row,
  row-key, length, arith, text_equal, Bool-cases, if◌then◌else◌, subst,
}
use superscriber.Domain.Models.{Principal}
use superscriber.Domain.Errors.{Result, ok, chain_ok}
use superscriber.Casefile.Store.{recording_keyed}
use superscriber.Workflow.State.{
  AppState, IngestionSession, session_keyed, job_keyed, value_or, drawn,
}
use superscriber.Workflow.Store.{Persisted}
use superscriber.Workflow.Uploads.Laws.{Delivered, finalize_upload_session-Delivered}
use superscriber.Workflow.Uploads.{fail_upload_session, finalize_upload_session}
use superscriber.Ingest.Disk.{
  StoredFile, file_keyed, Disk, Ingest, temp_file, mutate, move_to_media,
}
use superscriber.Ingest.Disk.Laws.{and_then_ok, mutate_ok, row-without_same}
use superscriber.Ingest.Service.{
  UploadState, cleanup_expired_uploads_in_state, find_upload_state, assert_session_access,
  mutate_session,
}
use superscriber.Ingest.Service.Laws.{Keeps, cleanup_expired_uploads_in_state-Keeps}
use superscriber.Ingest.Chunks.Laws.{Received, find_upload_state_ok, assert_session_access_ok}
use superscriber.Ingest.Finalize.{
  Finalized, finalized, is_whole, finish_whole, finish_upload, fail_finalize, next_media_path,
  check_finalize, finalize_mutation, missing_words, mismatch_words,
}

check_finalize_ok :
    (id : Text) (p : Principal) (s : AppState) (u : UploadState)
    → check_finalize id p s ≡ ok u
    → (row id s.ingestion_sessions ≡ some u.session)
      × (is u.session.created_by_user_id p.user_id ≡ true)
unfolding check_finalize
check_finalize_ok id p s u h =
    let (v, found, h1) = chain_ok (find_upload_state s id) h in
    let (a, access, same) = chain_ok (assert_session_access v.session p mutate_session) h1 in
    (
      ground (arith, find_upload_state_ok s id v found, same),
      ground (arith, assert_session_access_ok v.session p access, same),
    )

-- A finalisation never goes through without the file, and then the file is the whole upload.
finish_upload_ok :
    (id : Text) (p : Principal) (u : UploadState) (now : ℕ) (s t : AppState) (d d' : Disk)
    (o : Option StoredFile) (recording_id path : Text)
    → finish_upload id p u now s d o ≡ (ok (finalized recording_id path, t), d')
    → (f : StoredFile) × (o ≡ some f)
      × (is_whole u.session f ≡ true)
      × (d' ≡ move_to_media id path (some f) d)
      × Delivered t id path
unfolding finish_upload fail_finalize finish_whole
finish_upload_ok id p u now s t d d' none recording_id path h =
    let (x, failed, same) =
      chain_ok (fail_upload_session id missing_words now s)
        (ap (λ (r : Result (Finalized × AppState) × Disk). r.0) h) in
    absurd (ground (arith, same))
finish_upload_ok id p u now s t d d' (some f) recording_id path h =
    elim (Bool-cases (is_whole u.session f)) [
      | inr short ↦
          let k = rw (short, if◌then◌else◌) at h in
          let (x, failed, same) =
            chain_ok (fail_upload_session id mismatch_words now s)
              (ap (λ (r : Result (Finalized × AppState) × Disk). r.0) k) in
          absurd (ground (arith, same))
      | inl whole ↦
          let k = rw (whole, if◌then◌else◌) at h in
          let at = next_media_path u.recording s in
          let moved = ap (λ (r : Result (Finalized × AppState) × Disk). r.1) k in
          let (done, finished, same) =
            chain_ok (finalize_upload_session id at u.recording.mime_type p now (drawn s))
              (ap (λ (r : Result (Finalized × AppState) × Disk). r.0) k) in
          let is_path : at ≡ path = ground (arith, same) in
          (
            f,
            refl,
            whole,
            sym moved ∙ ap (λ (x : Text). move_to_media id x (some f) d) is_path,
            subst (λ (x : Text). Delivered t id x) is_path
                (subst (λ (a : AppState). Delivered a id at) {x = done.1} {y = t}
                  (ground (arith, same))
                  (finalize_upload_session-Delivered id at u.recording.mime_type p now (drawn s)
                    done.1 done.0 finished)),
          )
    ]

-- What the last step of a finalisation met.
pub record Finishing (id : Text) (p : Principal) (now : ℕ) (w after : Ingest) (x : Finalized)
    : Type 0 where
  pub cleaned : AppState
  pub files : Disk
  pub found : UploadState
  pub result : AppState
  pub kept : Keeps w.store.app w.disk cleaned files
  pub allowed :
      (row id cleaned.ingestion_sessions ≡ some found.session)
      × (is found.session.created_by_user_id p.user_id ≡ true)
  pub finish :
      finish_upload id p found now cleaned files (temp_file id files) ≡ (ok (x, result), after.disk)
  pub written : after.store.app ≡ result

pub finishing :
    (id : Text) (p : Principal) (now : ℕ) (w after : Ingest) (x : Finalized)
    → mutate (finalize_mutation id p now) w ≡ (ok x, after)
    → Finishing id p now w after x
unfolding finalize_mutation
finishing id p now w after x h =
    let (s, ran, stored_is) = mutate_ok (finalize_mutation id p now) w h in
    let clean = cleanup_expired_uploads_in_state now w.store.app w.disk in
    let (t, cleaned, h1) = and_then_ok _ clean.0 clean.1 ran in
    let (u, found, h2) = and_then_ok _ (check_finalize id p t) clean.1 h1 in
    record {
      cleaned = t;
      files = clean.1;
      found = u;
      result = s;
      kept =
          cleanup_expired_uploads_in_state-Keeps now w.store.app t w.disk clean.1
            (ap (λ (r : Result AppState). (r, clean.1)) cleaned);
      allowed = check_finalize_ok id p t u found;
      finish = h2;
      written = ap (λ (q : Persisted). q.app) stored_is;
    }

no_bytes : (b : List ℕ) → length b ≡ 0 → b ≡ []
no_bytes [] h = refl
no_bytes (x ∷ b) h = absurd (omega arith)

whole_counts :
    (e : IngestionSession) (f : StoredFile)
    → is_whole e f ≡ true
    → (value_or e.bytes_received 0 ≡ value_or e.bytes_expected 0)
      × (length f.bytes ≡ value_or e.bytes_expected 0)
whole_counts e f h = (ground (arith, h), ground (arith, h))

-- What an upload has become.
abbrev pub IsStored : Text → Principal → Ingest → Ingest → List ℕ → Text → Type 0
IsStored id p w after bytes path =
    (row path after.disk.media ≡ some (record { name = path; bytes = bytes }))
    × (temp_file id after.disk ≡ none)
    × ((e : IngestionSession) × (row id w.store.app.ingestion_sessions ≡ some e)
        × (value_or e.bytes_expected 0 ≡ length bytes)
        × (is e.created_by_user_id p.user_id ≡ true))

-- A finalisation that goes through is its owner's. The media file is then, byte for byte, what the session
-- has received, as many bytes as were announced, and no temporary file is left.
pub finalize_mutation_lem :
    (id : Text) (p : Principal) (now : ℕ) (w after : Ingest) (bytes : List ℕ)
    (recording_id path : Text)
    → Received w.store.app w.disk id bytes
    → mutate (finalize_mutation id p now) w ≡ (ok (finalized recording_id path), after)
    → IsStored id p w after bytes path
finalize_mutation_lem id p now w after bytes recording_id path had h =
    let f = finishing id p now w after (finalized recording_id path) h in
    let (file, there, whole, moved, delivered) =
      finish_upload_ok id p f.found now f.cleaned f.result f.files after.disk (temp_file id f.files)
        recording_id path f.finish in
    let (e, was, same) = f.kept.0 id f.found.session f.allowed.0 in
    let is_e : had.session ≡ e = ground (arith, had.found, was) in
    let (counted, announced) = whole_counts f.found.session file whole in
    let received : value_or f.found.session.bytes_received 0 ≡ length bytes =
      ground (arith, same.received, had.counted, is_e) in
    let content =
      same_bytes file bytes (row-key id f.files.uploads file there)
        (at_files (f.kept.1 id) had.file) there (announced ∙ sym counted ∙ received) in
    (
      ap (λ (d : Disk). row path d.media) moved ∙ ground (arith, content),
      ap (λ (d : Disk). temp_file id d) moved ∙ row-without_same id f.files.uploads,
      (
        e,
        was,
        ground (arith, counted, received, same.expected),
        ground (arith, f.allowed.1, same.owner),
      ),
    )
  where
    at_files :
        {d : Option StoredFile}
        → (d ≡ temp_file id w.disk) ⊎ (d ≡ none)
        → (bytes ≡ []) ⊎ (temp_file id w.disk ≡ some (record { name = id; bytes = bytes }))
        → (bytes ≡ []) ⊎ ((d ≡ some (record { name = id; bytes = bytes })) ⊎ (d ≡ none))
    at_files kept (inl empty) = inl empty
    at_files (inl same) (inr there) = inr (inl (same ∙ there))
    at_files (inr gone) (inr there) = inr (inr gone)

    same_bytes :
        {d : Option StoredFile} (file : StoredFile) (bytes : List ℕ)
        → file.name ≡ id
        → (bytes ≡ []) ⊎ ((d ≡ some (record { name = id; bytes = bytes })) ⊎ (d ≡ none))
        → d ≡ some file
        → length file.bytes ≡ length bytes
        → file.bytes ≡ bytes
    same_bytes file bytes named (inl empty) there sizes =
        no_bytes file.bytes (sizes ∙ ap (λ (b : List ℕ). length b) empty) ∙ sym empty
    same_bytes file bytes named (inr (inl here)) there sizes = ground (arith, here, there)
    same_bytes file bytes named (inr (inr gone)) there sizes = absurd (ground (arith, gone, there))

pub finalize_mutation-Delivered :
    (id : Text) (p : Principal) (now : ℕ) (w after : Ingest) (recording_id path : Text)
    → mutate (finalize_mutation id p now) w ≡ (ok (finalized recording_id path), after)
    → Delivered after.store.app id path
finalize_mutation-Delivered id p now w after recording_id path h =
    let f = finishing id p now w after (finalized recording_id path) h in
    let (file, there, whole, moved, delivered) =
      finish_upload_ok id p f.found now f.cleaned f.result f.files after.disk (temp_file id f.files)
        recording_id path f.finish in
    subst (λ (a : AppState). Delivered a id path) (sym f.written) delivered
