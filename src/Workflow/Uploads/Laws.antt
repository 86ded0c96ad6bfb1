-- ===== src/Workflow/Uploads/Laws.antt =====
-- What the changes of an upload session make of its recording and its job.
use superscriber.Prelude.{
  Text, ℕ, Option, some, none, List, ◌≡◌, refl, ap, ◌∙◌, arith, row, row-key, row-update_first,
  update_first, ◌===◌, text_equal, if◌then◌else◌, Keyed,
}
use superscriber.Domain.Models.{
  Principal, Recording, IntegrityState, TranscriptJobState, integrity_state_equal,
}
use superscriber.Domain.Errors.{
  ok, chain_ok, or_throw, or_throw_ok, upload_session_not_found, recording_not_found, job_not_found,
}
use superscriber.Casefile.Store.{recording_keyed}
use superscriber.Workflow.State.{
  AppState, IngestionSession, TranscriptJob, session_keyed, job_keyed, row_of, add_audit_event,
}
use superscriber.Workflow.Uploads.{
  UploadRefs, resolve_upload_refs, finalize_upload_session, webhook_engine_id, starting_words,
  verified_words,
}

resolve_upload_refs_ok :
    (s : AppState) (id : Text) (refs : UploadRefs)
    → resolve_upload_refs s id ≡ ok refs
    → (row id s.ingestion_sessions ≡ some refs.session)
      × (row refs.session.recording_id s.recordings ≡ some refs.recording)
      × (row_of refs.recording.transcript_job_id s.transcript_jobs ≡ some refs.job)
unfolding resolve_upload_refs
resolve_upload_refs_ok s id refs h =
    let (e, there, h1) =
      chain_ok (or_throw (row id s.ingestion_sessions) upload_session_not_found) h in
    let (r, here, h2) =
      chain_ok (or_throw (row e.recording_id s.recordings) recording_not_found) h1 in
    let (j, job, same) =
      chain_ok (or_throw (row_of r.transcript_job_id s.transcript_jobs) job_not_found) h2 in
    (
      ground
          (arith, same, or_throw_ok (row id s.ingestion_sessions) upload_session_not_found e there),
      ground
          (arith, same, or_throw_ok (row e.recording_id s.recordings) recording_not_found r here),
      ground (
        arith,
        same,
        or_throw_ok (row_of r.transcript_job_id s.transcript_jobs) job_not_found j job,
      ),
    )

-- The row of a reference, after a row was changed in place.
row_of-update_first :
    {A : Type 0} ⦃k : Keyed A⦄ (o : Option Text) (f : A → A) (rows : List A) (a : A)
    → ((x : A) → k.key (f x) ≡ k.key x)
    → row_of o rows ≡ some a
    → row_of o (update_first (k.key a) f rows) ≡ some (f a)
row_of-update_first none f rows a same h = absurd (cc)
row_of-update_first ⦃k⦄ (some id) f rows a same h =
    ground (arith, row-update_first (k.key a) id f rows same, row-key id rows a h, h)

-- The rows of an upload, after they were changed in place.
module _ (s t : AppState) (id : Text) (refs : UploadRefs)
    (resolved : resolve_upload_refs s id ≡ ok refs) where
  pub updated_session :
      (f : IngestionSession → IngestionSession)
      → ((x : IngestionSession) → (f x).id ≡ x.id)
      → t.ingestion_sessions ≡ update_first id f s.ingestion_sessions
      → row id t.ingestion_sessions ≡ some (f refs.session)
  updated_session f same changed =
      ap (λ (es : List IngestionSession). row id es) changed
      ∙ ground (
        arith,
        row-update_first id id f s.ingestion_sessions same,
        (resolve_upload_refs_ok s id refs resolved).0,
      )

  pub updated_recording :
      (f : Recording → Recording)
      → ((x : Recording) → (f x).id ≡ x.id)
      → t.recordings ≡ update_first refs.recording.id f s.recordings
      → row refs.session.recording_id t.recordings ≡ some (f refs.recording)
  updated_recording f same changed =
      let (session, recording, job) = resolve_upload_refs_ok s id refs resolved in
      ap (λ (rs : List Recording). row refs.session.recording_id rs) changed
      ∙ ground (
        arith,
        row-update_first refs.recording.id refs.session.recording_id f s.recordings same,
        recording,
        row-key refs.session.recording_id s.recordings refs.recording recording,
      )

  updated_job :
      (f : TranscriptJob → TranscriptJob)
      → ((x : TranscriptJob) → (f x).id ≡ x.id)
      → t.transcript_jobs ≡ update_first refs.job.id f s.transcript_jobs
      → row_of refs.recording.transcript_job_id t.transcript_jobs ≡ some (f refs.job)
  updated_job f same changed =
      let (session, recording, job) = resolve_upload_refs_ok s id refs resolved in
      ap (λ (js : List TranscriptJob). row_of refs.recording.transcript_job_id js) changed
      ∙ row_of-update_first refs.recording.transcript_job_id f s.transcript_jobs refs.job same job

-- The session, the recording and the job of a finalised upload.
pub record Delivered (s : AppState) (id path : Text) : Type 0 where
  pub session : IngestionSession
  pub recording : Recording
  pub job : TranscriptJob
  pub session_row : row id s.ingestion_sessions ≡ some session
  pub recording_row : row session.recording_id s.recordings ≡ some recording
  pub job_row : row_of recording.transcript_job_id s.transcript_jobs ≡ some job
  pub media : recording.media_path ≡ some path
  pub waits : job.state ≡ TranscriptJobState.queued
  pub verified : session.state ≡ (
      if session.adapter === webhook_engine_id
      then IntegrityState.verifying
      else IntegrityState.verified)
  pub same_integrity : recording.integrity_state ≡ session.state

abbrev state_after : IngestionSession → IntegrityState
state_after e =
    if e.adapter === webhook_engine_id then IntegrityState.verifying else IntegrityState.verified

abbrev words_after : IngestionSession → Text
words_after e = if e.adapter === webhook_engine_id then starting_words else verified_words

abbrev finalized_session : IngestionSession → ℕ → IngestionSession → IngestionSession
finalized_session given now e = record e {
  state = state_after given;
  updated_at = now;
  last_error = none;
  verification_summary = some (words_after given);
  verified_at = if state_after given === IntegrityState.verified then some now else none;
}

abbrev finalized_recording : IngestionSession → Text → Option Text → ℕ → Recording → Recording
finalized_recording given path mime now r = record r {
  media_path = some path;
  mime_type = mime;
  integrity_state = state_after given;
  transcript_job_state = TranscriptJobState.queued;
  verification_summary = some (words_after given);
  updated_at = now;
}

abbrev waiting_again : ℕ → TranscriptJob → TranscriptJob
waiting_again now j = record j {
  state = TranscriptJobState.queued;
  updated_at = now;
  last_error = none;
}

pub finalize_upload_session-Delivered :
    (id path : Text) (mime : Option Text) (p : Principal) (now : ℕ) (s t : AppState)
    (done : UploadRefs)
    → finalize_upload_session id path mime p now s ≡ ok (done, t)
    → Delivered t id path
unfolding finalize_upload_session add_audit_event
finalize_upload_session-Delivered id path mime p now s t done h =
    let (refs, resolved, same) = chain_ok (resolve_upload_refs s id) h in
    let e = finalized_session refs.session now in
    let r = finalized_recording refs.session path mime now in
    let j = waiting_again now in
    record {
      session = e refs.session;
      recording = r refs.recording;
      job = j refs.job;
      session_row = updated_session s t id refs resolved e (λ x. refl) (ground (arith, same));
      recording_row = updated_recording s t id refs resolved r (λ x. refl) (ground (arith, same));
      job_row = updated_job s t id refs resolved j (λ x. refl) (ground (arith, same));
      media = refl;
      waits = refl;
      verified = refl;
      same_integrity = refl;
    }
