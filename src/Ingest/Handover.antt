-- ===== src/Ingest/Handover.antt =====
-- What a finalised upload hands over to the queue of transcript jobs.
use superscriber.Prelude.{
  Text, ℕ, Option, some, none, true, false, List, [], ◌∷◌, ◌≡◌, arith, row, row-key, distinct_keys,
  All, ◌===◌, text_equal, inl, inr, Keyed, Bool-cases, subst,
}
use superscriber.Domain.Models.{
  Principal, Recording, integrity_state_equal, job_state_equal, TranscriptJobState, IntegrityState,
}
use superscriber.Domain.Errors.{ok}
use superscriber.Casefile.Store.{recording_keyed}
use superscriber.Workflow.State.{
  AppState, IngestionSession, TranscriptJob, session_keyed, job_keyed, row_of,
}
use superscriber.Workflow.Store.{Persisted}
use superscriber.Workflow.Uploads.{webhook_engine_id}
use superscriber.Workflow.Uploads.Laws.{Delivered}
use superscriber.Orchestration.Queue.Jobs.{JobClaim, is_claimable, is_ready}
use superscriber.Orchestration.Queue.Claim.{claim_available_transcript_job, considered}
use superscriber.Orchestration.Queue.Exclusion.{claim_available_transcript_job_ok, cutoff_of}
use superscriber.Ingest.Disk.{Ingest, mutate}
use superscriber.Ingest.Finalize.{finalized, finalize_mutation}
use superscriber.Ingest.Finalize.Laws.{finalize_mutation-Delivered}

All-row :
    {A : Type 0} ⦃k : Keyed A⦄ (P : A → Type 0) (id : Text) (rows : List A) (a : A)
    → row id rows ≡ some a
    → All P rows
    → P a
All-row P id [] a h all = absurd (cc)
All-row ⦃k⦄ P id (x ∷ rows) a h all = elim (Bool-cases (k.key x === id)) [
  | inl e ↦ subst P {x = x} {y = a} (ground (arith, e, h)) all.0
  | inr e ↦ All-row P id rows a (ground (arith, e, h)) all.1
]

row_of_ok :
    {A : Type 0} ⦃k : Keyed A⦄ (o : Option Text) (rows : List A) (a : A)
    → row_of o rows ≡ some a
    → row (k.key a) rows ≡ some a
row_of_ok none rows a h = absurd (cc)
row_of_ok (some id) rows a h = ground (arith, h, row-key id rows a h)

-- A session, its recording, which names the session, and the recording's job, which names the recording.
pub record IsLinked (s : AppState) (id : Text) (e : IngestionSession) (r : Recording)
    (j : TranscriptJob) : Type 0 where
  pub session : row id s.ingestion_sessions ≡ some e
  pub recording : row e.recording_id s.recordings ≡ some r
  pub job : row_of r.transcript_job_id s.transcript_jobs ≡ some j
  pub names_session : r.ingestion_session_id ≡ some id
  pub names_recording : j.recording_id ≡ e.recording_id

considered-Delivered :
    (s : AppState) (id path : Text) (e : IngestionSession) (r : Recording) (j : TranscriptJob)
    (cutoff : ℕ)
    → IsLinked s id e r j
    → (e.adapter === webhook_engine_id) ≡ false
    → Delivered s id path
    → considered s cutoff j (row j.recording_id s.recordings)
      ≡ some (record { job = j; recording = r })
unfolding is_ready is_claimable
considered-Delivered s id path e r j cutoff linked internal d =
    let same_session : d.session ≡ e = ground (arith, d.session_row, linked.session) in
    let same_recording : d.recording ≡ r =
      ground (arith, d.recording_row, linked.recording, same_session) in
    let same_job : d.job ≡ j = ground (arith, d.job_row, linked.job, same_recording) in
    let verified : e.state ≡ IntegrityState.verified =
      ground (arith, d.verified, internal, same_session) in
    let integrity : r.integrity_state ≡ IntegrityState.verified =
      ground (arith, d.same_integrity, same_recording, same_session, verified) in
    let media : r.media_path ≡ some path = ground (arith, d.media, same_recording) in
    let waits : j.state ≡ TranscriptJobState.queued = ground (arith, d.waits, same_job) in
    ground (
      arith, integrity, media, waits, verified, linked.names_recording, linked.recording,
      linked.names_session, linked.session,
    )

-- Once an upload of an engine other than the external one is finalised, a worker that asks for a job is
-- given one, if the recording, its session and its job name one another and the keys of the jobs are
-- distinct.
pub finalize_mutation-claim_available_transcript_job :
    (id : Text) (p : Principal) (now : ℕ) (w after : Ingest) (recording_id path : Text)
    (e : IngestionSession) (r : Recording) (j : TranscriptJob) (worker : Text) (window : Option ℕ)
    (later : ℕ)
    → mutate (finalize_mutation id p now) w ≡ (ok (finalized recording_id path), after)
    → IsLinked after.store.app id e r j
    → (e.adapter === webhook_engine_id) ≡ false
    → distinct_keys after.store.app.transcript_jobs ≡ true
    → (c : JobClaim) × (q : Persisted) × (claim_available_transcript_job worker window later
          after.store
        ≡ (ok (some c), q))
finalize_mutation-claim_available_transcript_job id p now w after recording_id path e r j worker
      window later done linked internal distinct =
    let s = after.store.app in
    let waits =
      considered-Delivered s id path e r j (cutoff_of window later) linked internal
        (finalize_mutation-Delivered id p now w after recording_id path done) in
    elim (claim_available_transcript_job_ok worker window later after.store distinct) [
      | inr taken ↦ taken
      | inl (same, none_waits) ↦
          let missed =
            All-row
              (λ (x : TranscriptJob).
                considered s (cutoff_of window later) x (row x.recording_id s.recordings) ≡ none)
              j.id s.transcript_jobs j
              (row_of_ok r.transcript_job_id s.transcript_jobs j linked.job) none_waits in
          absurd (ground (arith, missed, waits))
    ]
