-- ===== src/Ingest/Chunks/Laws.antt =====
-- The bytes that a session has received are in its temporary file, in order.
use superscriber.Prelude.{
  Text, some, none, ℕ, ◌+◌, List, [], ◌∷◌, ◌++◌, ◌≡◌, ◌⊎◌, inl, inr, refl, ap, sym, ◌∙◌, true, not,
  ◌===◌, ◌==◌, ◌&&◌, ltb, is, row, row-update_first, length, length-append, arith, text_equal,
  Bool-cases, Option-cases, if◌then◌else◌, subst, update_first,
}
use mathlib.Core.List.{append-nil, append_assoc}
use superscriber.Domain.Models.{Principal, IntegrityState, integrity_state_equal}
use superscriber.Domain.Errors.{
  Result, ok, err, chain_ok, or_throw, or_throw_ok, throw_if, state_changed, not_found,
}
use superscriber.Casefile.Store.{recording_keyed}
use superscriber.Workflow.State.{AppState, IngestionSession, session_keyed, value_or}
use superscriber.Workflow.Uploads.{
  progressed, progress_words, note_upload_progress, resolve_upload_refs,
}
use superscriber.Ingest.Disk.{StoredFile, file_keyed, Disk, Ingest, temp_file, exists}
use superscriber.Ingest.Disk.Laws.{and_then_ok, mutate_ok, temp_file-write_temp, write_at-length}
use superscriber.Ingest.Service.{
  SessionStatus, UploadState, cleanup_expired_uploads_in_state, find_upload_state, refused,
  build_session_status, assert_session_access, assert_uploader_or_admin, mutate_session,
}
use superscriber.Ingest.Service.Laws.{cleanup_expired_uploads_in_state-Keeps}
use superscriber.Ingest.Sessions.{checked}
use superscriber.Ingest.Chunks.{
  Chunk, check_chunk, bytes_of, write_chunk, write_at, note_chunk, chunk_mutation,
  append_upload_chunk,
}

-- A session of the state has received these bytes, and its temporary file holds them; a session without
-- bytes may have no file.
pub record Received (s : AppState) (d : Disk) (id : Text) (bytes : List ℕ) : Type 0 where
  pub session : IngestionSession
  pub found : row id s.ingestion_sessions ≡ some session
  pub counted : session.bytes_received ≡ some (length bytes)
  pub file : (bytes ≡ []) ⊎ (temp_file id d ≡ some (record { name = id; bytes = bytes }))

pub find_upload_state_ok :
    (s : AppState) (id : Text) (u : UploadState)
    → find_upload_state s id ≡ ok u
    → row id s.ingestion_sessions ≡ some u.session
unfolding find_upload_state
find_upload_state_ok s id u h =
    let (e, there, rest) =
      chain_ok (or_throw (row id s.ingestion_sessions) (refused not_found)) h in
    let (r, here, same) =
      chain_ok (or_throw (row e.recording_id s.recordings) (refused not_found)) rest in
    ground (arith, same, or_throw_ok (row id s.ingestion_sessions) (refused not_found) e there)

pub assert_session_access_ok :
    (e : IngestionSession) (p : Principal) {u : Unit {0}}
    → assert_session_access e p mutate_session ≡ ok u
    → is e.created_by_user_id p.user_id ≡ true
unfolding assert_session_access
assert_session_access_ok e p h = elim (Bool-cases (is e.created_by_user_id p.user_id)) [
  | inl yes_ ↦ yes_
  | inr no_ ↦ absurd (ground (arith, no_, h))
]

-- A chunk that is taken is its owner's, and stands where the received bytes end.
pub record Taken (c : Chunk) (s : AppState) (d : Disk) (offset : ℕ) : Type 0 where
  pub session : IngestionSession
  pub found : row c.session_id s.ingestion_sessions ≡ some session
  pub owner : is session.created_by_user_id c.principal.user_id ≡ true
  pub place : offset ≡ value_or session.bytes_received 0
  pub start : c.chunk_start ≡ offset
  pub file : (offset ≡ 0) ⊎ ((f : StoredFile) × (temp_file c.session_id d ≡ some f))

check_chunk_ok :
    (c : Chunk) (s : AppState) (d : Disk) (offset : ℕ)
    → check_chunk c s d ≡ ok offset
    → Taken c s d offset
unfolding check_chunk
check_chunk_ok c s d offset h =
    let (u, found, h1) = chain_ok (find_upload_state s c.session_id) h in
    let (a, access, h2) =
      chain_ok (assert_session_access u.session c.principal mutate_session) h1 in
    let (b, alive, h3) =
      chain_ok
        (throw_if (u.session.state === IntegrityState.verification_failed) (refused state_changed))
        h2 in
    let at = value_or u.session.bytes_received 0 in
    let (x, in_sync, h4) =
      chain_ok (throw_if (not (c.chunk_start == at)) (refused state_changed)) h3 in
    let (y, there, h5) =
      chain_ok
        (throw_if (not (exists (temp_file c.session_id d)) && ltb 0 at) (refused state_changed))
        h4 in
    record {
      session = u.session;
      found = find_upload_state_ok s c.session_id u found;
      owner = assert_session_access_ok u.session c.principal access;
      place = ground (arith, h5);
      start = ground (arith, in_sync, h5);
      file = elim (Option-cases (temp_file c.session_id d)) [
        | inr f ↦ inr f
        | inl gone ↦ inl (ground (arith, gone, there, h5))
      ];
    }

note_upload_progress_ok :
    (id : Text) (n now : ℕ) (s t : AppState)
    → note_upload_progress id n now s ≡ ok t
    → (e : IngestionSession) → row id s.ingestion_sessions ≡ some e
    → (f : IngestionSession) × (row id t.ingestion_sessions ≡ some f)
      × (f.bytes_received ≡ some n)
      × (f.bytes_expected ≡ e.bytes_expected)
      × (f.created_by_user_id ≡ e.created_by_user_id)
unfolding note_upload_progress
note_upload_progress_ok id n now s t h e at =
    let (refs, resolved, same) = chain_ok (resolve_upload_refs s id) h in
    let F = progressed n (progress_words n refs.session.bytes_expected) now in
    let sessions : t.ingestion_sessions ≡ update_first id F s.ingestion_sessions =
      ground (arith, same) in
    let moved = row-update_first id id F s.ingestion_sessions (λ x. refl) in
    (
      F e,
      ap (λ (es : List IngestionSession). row id es) sessions ∙ ground (arith, moved, at),
      refl,
      refl,
      refl,
    )

-- The bytes that are written where the received ones end come after them.
written :
    (c : Chunk) (s : AppState) (d : Disk) (offset : ℕ) (bytes : List ℕ)
    → offset ≡ length bytes
    → (bytes ≡ [])
      ⊎ (temp_file c.session_id d ≡ some (record { name = c.session_id; bytes = bytes }))
    → temp_file c.session_id (write_chunk c offset d)
      ≡ some (record { name = c.session_id; bytes = bytes ++ c.bytes })
unfolding write_chunk
written c s d offset bytes at file =
    let base : (if offset == 0 then [] else bytes_of (temp_file c.session_id d)) ≡ bytes =
      before bytes at file in
    temp_file-write_temp c.session_id _ d
    ∙ ap
        (λ (b : List ℕ). some (let f : StoredFile = record { name = c.session_id; bytes = b } in f))
        (ap (λ (b : List ℕ). write_at offset c.bytes b) base
          ∙ ap (λ (n : ℕ). write_at n c.bytes bytes) at
          ∙ write_at-length bytes c.bytes)
  where
    before :
        (bytes : List ℕ)
        → offset ≡ length bytes
        → (bytes ≡ [])
          ⊎ (temp_file c.session_id d ≡ some (record { name = c.session_id; bytes = bytes }))
        → (if offset == 0 then [] else bytes_of (temp_file c.session_id d)) ≡ bytes
    before [] at file = ground (arith, at)
    before (b ∷ rest) at (inl bad) = absurd (cc)
    before (b ∷ rest) at (inr there) = ground (arith, at, there)

pub checked_ok :
    {A : Type 0} (r : Result A) (rest : A → Ingest → Result SessionStatus × Ingest)
    (w after : Ingest) (st : SessionStatus)
    → checked r rest w ≡ (ok st, after)
    → (a : A) × (r ≡ ok a) × (rest a w ≡ (ok st, after))
checked_ok (err e) rest w after st h = absurd (cc)
checked_ok (ok a) rest w after st h = (a, refl, h)

-- A chunk that is taken goes to the end of the bytes of its session.
pub append_upload_chunk_lem :
    (c : Chunk) (now : ℕ) (w after : Ingest) (status : SessionStatus) (bytes : List ℕ)
    → Received w.store.app w.disk c.session_id bytes
    → append_upload_chunk c now w ≡ (ok status, after)
    → Received after.store.app after.disk c.session_id (bytes ++ c.bytes)
unfolding append_upload_chunk chunk_mutation note_chunk
append_upload_chunk_lem c now w after status bytes had h =
    let (u, allowed, h1) = checked_ok (assert_uploader_or_admin c.principal) _ w after status h in
    let (s, ran, stored_is) = mutate_ok (chunk_mutation c now) w h1 in
    let clean = cleanup_expired_uploads_in_state now w.store.app w.disk in
    let (t, cleaned, h2) = and_then_ok _ clean.0 clean.1 ran in
    let (offset, taken, h3) = and_then_ok _ (check_chunk c t clean.1) clean.1 h2 in
    let kept =
      cleanup_expired_uploads_in_state-Keeps now w.store.app t w.disk clean.1
        (ap (λ (r : Result AppState). (r, clean.1)) cleaned) in
    let fit = check_chunk_ok c t clean.1 offset taken in
    let (e, was, same) = kept.0 c.session_id fit.session fit.found in
    let is_e : had.session ≡ e = ground (arith, had.found, was) in
    let place : offset ≡ length bytes =
      ground (arith, fit.place, same.received, had.counted, is_e) in
    let d = write_chunk c offset clean.1 in
    let (v, noted, h4) =
      chain_ok (note_upload_progress c.session_id (offset + length c.bytes) now t)
        (ap (λ (r : Result (SessionStatus × AppState) × Disk). r.0) h3) in
    let (seen, built, h5) = chain_ok (build_session_status v d c.session_id) h4 in
    let (g, there, counted, expected, owner) =
      note_upload_progress_ok c.session_id (offset + length c.bytes) now t v noted fit.session
        fit.found in
    let is_v : after.store.app ≡ v = ground (arith, stored_is, h5) in
    let disk : after.disk ≡ d = ground (arith, h3) in
    record {
      session = g;
      found = ap (λ (a : AppState). row c.session_id a.ingestion_sessions) is_v ∙ there;
      counted = ground (arith, counted, place, length-append bytes c.bytes);
      file = inr (
          ap (λ (x : Disk). temp_file c.session_id x) disk
          ∙ written c t clean.1 offset bytes place
              (at_clean offset clean.1 bytes had.file (kept.1 c.session_id) fit.file place));
    }
  where
    at_clean :
        (offset : ℕ) (d : Disk) (bytes : List ℕ)
        → (bytes ≡ [])
          ⊎ (temp_file c.session_id w.disk ≡ some (record { name = c.session_id; bytes = bytes }))
        → (temp_file c.session_id d ≡ temp_file c.session_id w.disk)
          ⊎ (temp_file c.session_id d ≡ none)
        → (offset ≡ 0) ⊎ ((f : StoredFile) × (temp_file c.session_id d ≡ some f))
        → offset ≡ length bytes
        → (bytes ≡ [])
          ⊎ (temp_file c.session_id d ≡ some (record { name = c.session_id; bytes = bytes }))
    at_clean offset d [] had kept file at = inl refl
    at_clean offset d (b ∷ rest) (inl bad) kept file at = absurd (cc)
    at_clean offset d (b ∷ rest) (inr there) (inl same) file at = inr (same ∙ there)
    at_clean offset d (b ∷ rest) (inr there) (inr gone) (inl empty) at =
        absurd (omega (arith, empty, at))
    at_clean offset d (b ∷ rest) (inr there) (inr gone) (inr (f, here)) at =
        absurd (ground (arith, gone, here))

abbrev pub append_next :
    (SessionStatus → Ingest → Result SessionStatus × Ingest)
    → Result SessionStatus × Ingest
    → Result SessionStatus × Ingest
append_next rest (err e, w) = (err e, w)
append_next rest (ok status, w) = rest status w

abbrev pub all_bytes : List (ℕ × Chunk) → List ℕ
all_bytes [] = []
all_bytes ((now, c) ∷ rest) = c.bytes ++ all_bytes rest

abbrev pub AllOf : Text → List (ℕ × Chunk) → Type 0
AllOf id [] = Unit {0}
AllOf id ((now, c) ∷ rest) = (c.session_id ≡ id) × AllOf id rest

-- Chunks are appended one after the other, at their times, until one is refused.
abbrev pub append_all : List (ℕ × Chunk) → SessionStatus → Ingest → Result SessionStatus × Ingest
append_all [] status w = (ok status, w)
append_all ((now, c) ∷ rest) status w = append_next (append_all rest) (append_upload_chunk c now w)

append_next_ok :
    (rest : SessionStatus → Ingest → Result SessionStatus × Ingest) (r : Result SessionStatus)
    (w after : Ingest) (last : SessionStatus)
    → append_next rest (r, w) ≡ (ok last, after)
    → (status : SessionStatus) × (r ≡ ok status) × (rest status w ≡ (ok last, after))
append_next_ok rest (err e) w after last h = absurd (cc)
append_next_ok rest (ok status) w after last h = (status, refl, h)

pub append_all-Received :
    (chunks : List (ℕ × Chunk)) (id : Text) (w after : Ingest) (first last : SessionStatus)
    (bytes : List ℕ)
    → AllOf id chunks
    → Received w.store.app w.disk id bytes
    → append_all chunks first w ≡ (ok last, after)
    → Received after.store.app after.disk id (bytes ++ all_bytes chunks)
append_all-Received [] id w after first last bytes of_id had h =
    subst (λ (v : Ingest). Received v.store.app v.disk id (bytes ++ [])) {x = w} {y = after}
      (ground (arith, h)) (subst (Received w.store.app w.disk id) (sym (append-nil bytes)) had)
append_all-Received ((now, c) ∷ rest) id w after first last bytes of_id had h =
    let step = append_upload_chunk c now w in
    let (status, one, more) = append_next_ok (append_all rest) step.0 step.1 after last h in
    let had' = subst (λ (x : Text). Received w.store.app w.disk x bytes) (sym of_id.0) had in
    let next =
      append_upload_chunk_lem c now w step.1 status bytes had'
        (ap (λ (r : Result SessionStatus). (r, step.1)) one) in
    subst (Received after.store.app after.disk id) (append_assoc bytes c.bytes (all_bytes rest)) (
      append_all-Received rest id step.1 after status last (bytes ++ c.bytes) of_id.1
        (subst (λ (x : Text). Received step.1.store.app step.1.disk x (bytes ++ c.bytes)) of_id.0
          next)
        more)
