-- ===== src/Orchestration/Queue/Ownership.antt =====
-- Only the worker that holds a job reports on it, and what a report does to the job.
use superscriber.Prelude.{
  Text, Option, some, none, ℕ, suc, List, [], ◌∷◌, ◌++◌, ◌≡◌, ◌⊎◌, inl, inr, refl, Bool, true, not,
  ◌===◌, is, row, row-key, row-update_first, update_first, has_key, has_key-update_first, All,
  All-update_first, arith, if◌then◌else◌, Bool-cases, Option-cases, text_equal, ap, sym, ◌∙◌, subst,
}
use superscriber.Domain.Models.{
  TranscriptJobState, TranscriptRevision, TranscriptSegment, job_state_equal,
}
use superscriber.Domain.Errors.{
  recording_not_found, ok, chain_ok, throw_if, or_throw, or_throw_ok, bad_heartbeat_state,
}
use superscriber.Casefile.Store.{recording_keyed, revision_keyed}
use superscriber.Workflow.State.{
  AppState, TranscriptJob, IngestionSession, job_keyed, session_keyed, value_or, or_else, row_of,
  add_audit_event,
}
use superscriber.Workflow.Create.{create_system_draft_revision}
use superscriber.Casefile.Commands.Rows.{last_version}
use superscriber.Domain.Speakers.{normalize_speaker_labels}
use superscriber.Orchestration.Normalize.{is_running, normalize_state}
use superscriber.Orchestration.Normalize.Laws.{IsNormalised, IsNormalised-update, Resolved}
use superscriber.Orchestration.Queue.Jobs.{
  JobSnapshot, JobRefs, resolve_job_refs, assert_claim_owner,
}
use superscriber.Orchestration.Queue.Reports.{
  Heartbeat, Completion, JobFailure, follow, beaten, completed_job, failed_job, is_exhausted,
  draft_or_new, heartbeat_transcript_job, complete_transcript_job, fail_transcript_job,
}

resolve_job_refs_ok :
    (s : AppState) (id : Text) (refs : JobRefs)
    → resolve_job_refs s id ≡ ok refs
    → (refs.state ≡ normalize_state s)
      × (row id (normalize_state s).transcript_jobs ≡ some refs.job)
      × (row refs.job.recording_id (normalize_state s).recordings ≡ some refs.recording)
unfolding resolve_job_refs
resolve_job_refs_ok s id refs h = elim (Option-cases (row id (normalize_state s).transcript_jobs)) [
  | inl gone ↦ absurd (ground (arith, gone, h))
  | inr (j, there) ↦ elim (Option-cases (row j.recording_id (normalize_state s).recordings)) [
    | inl gone ↦ absurd (ground (arith, there, gone, h))
    | inr (r, here) ↦ ground (arith, there, here, h)
  ]
]

-- A worker's report on a job that is its own, and what it does to the job.
pub record Reported (s t : AppState) (id worker_id : Text) (f : TranscriptJob → TranscriptJob)
    : Type 0 where
  pub job : TranscriptJob
  pub found : row id (normalize_state s).transcript_jobs ≡ some job
  pub owner : is job.claimed_by_worker_id worker_id ≡ true
  pub rows :
      (other : Text)
      → row other t.transcript_jobs
        ≡ (if id === other then some (f job) else row other (normalize_state s).transcript_jobs)
  pub normalised : IsNormalised (normalize_state s) → IsNormalised t

-- Recordings whose references lead where they led.
abbrev pub KeepsReferences : AppState → AppState → Type 0
KeepsReferences s t =
    (sessions : List IngestionSession) (jobs : List TranscriptJob)
    → All (Resolved sessions jobs) s.recordings
    → All (Resolved sessions jobs) t.recordings

reported :
    (s t : AppState) (id w : Text) (f : TranscriptJob → TranscriptJob) (refs : JobRefs)
    → ((j : TranscriptJob) → (f j).id ≡ j.id)
    → resolve_job_refs s id ≡ ok refs
    → is refs.job.claimed_by_worker_id w ≡ true
    → t.transcript_jobs ≡ update_first refs.job.id f refs.state.transcript_jobs
    → t.ingestion_sessions ≡ refs.state.ingestion_sessions
    → KeepsReferences refs.state t
    → Reported s t id w f
reported s t id w f refs same resolved owner jobs sessions kept =
    let (state, found, _) = resolve_job_refs_ok s id refs resolved in
    let key = row-key id (normalize_state s).transcript_jobs refs.job found in
    record {
      job = refs.job;
      found = found;
      owner = owner;
      rows = λ other.
          ap (λ (js : List TranscriptJob). row other js) jobs
          ∙ row-update_first refs.job.id other f refs.state.transcript_jobs same
          ∙ ground (arith, key, found, state);
      normalised = λ before.
          let at = subst IsNormalised (sym state) before in
          IsNormalised-update refs.state t
            (λ x h. ap (λ (es : List IngestionSession). has_key x es) sessions ∙ h)
            (λ x h.
              ap (λ (js : List TranscriptJob). has_key x js) jobs
              ∙ has_key-update_first refs.job.id x f refs.state.transcript_jobs same
              ∙ h)
            (kept refs.state.ingestion_sessions refs.state.transcript_jobs at);
    }

owned :
    (job : TranscriptJob) (w : Text) {u : Unit {0}}
    → assert_claim_owner job w ≡ ok u
    → is job.claimed_by_worker_id w ≡ true
unfolding assert_claim_owner
owned job w h = elim (Bool-cases (is job.claimed_by_worker_id w)) [
  | inl e ↦ e
  | inr e ↦ absurd (ground (arith, e, h))
]

beaten_id :
    (h : Heartbeat) (next : TranscriptJobState) (now : ℕ) (j : TranscriptJob)
    → (beaten h next now j).id ≡ j.id
unfolding beaten
beaten_id h next now j = refl

completed_id :
    (c : Completion) (revision_id : Text) (now : ℕ) (j : TranscriptJob)
    → (completed_job c revision_id now j).id ≡ j.id
unfolding completed_job
completed_id c revision_id now j = refl

failed_id :
    (f : JobFailure) (b : Bool) (now : ℕ) (j : TranscriptJob) → (failed_job f b now j).id ≡ j.id
unfolding failed_job
failed_id f b now j = refl

kept_by_follow :
    (s t : AppState) (id : Text) (next : TranscriptJobState) (now : ℕ)
    → t.recordings ≡ update_first id (follow next now) s.recordings
    → KeepsReferences s t
kept_by_follow s t id next now same ss js h =
    subst (All (Resolved ss js)) (sym same)
      (All-update_first (Resolved ss js) id (follow next now) s.recordings (λ r at. at) h)

pub heartbeat_transcript_job-Reported :
    (h : Heartbeat) (now : ℕ) (s t : AppState) {snap : JobSnapshot}
    → heartbeat_transcript_job h now s ≡ ok (snap, t)
    → (next : TranscriptJobState) × (is_running next ≡ true)
      × Reported s t h.job_id h.worker_id (beaten h next now)
unfolding heartbeat_transcript_job add_audit_event
heartbeat_transcript_job-Reported h now s t e =
    let (refs, resolved, rest) = chain_ok (resolve_job_refs s h.job_id) e in
    let (u, own, last) = chain_ok (assert_claim_owner refs.job h.worker_id) rest in
    let next = value_or h.state refs.job.state in
    let (v, fits, same) = chain_ok (throw_if (not (is_running next)) bad_heartbeat_state) last in
    (
      next,
      ground (arith, fits),
      reported s t h.job_id h.worker_id (beaten h next now) refs (beaten_id h next now) resolved
          (owned refs.job h.worker_id own) (ground (arith, same)) (ground (arith, same))
          (kept_by_follow refs.state t refs.recording.id next now (ground (arith, same))),
    )

-- What the making of a draft leaves, and what it adds.
pub record Drafted (s t : AppState) : Type 0 where
  pub jobs : t.transcript_jobs ≡ s.transcript_jobs
  pub sessions : t.ingestion_sessions ≡ s.ingestion_sessions
  pub references : KeepsReferences s t
  pub events : t.audit_events ≡ s.audit_events

pub create_system_draft_revision_ok :
    (recording_id : Text) (segments : List TranscriptSegment) (summary : Text) (now : ℕ)
    (s t : AppState) (revision : TranscriptRevision)
    → create_system_draft_revision recording_id segments summary now s ≡ ok (revision, t)
    → Drafted s t
      × (t.revisions ≡ s.revisions ++ revision ∷ [])
      × (revision.version ≡ suc (last_version recording_id s.revisions))
      × (normalize_speaker_labels segments ≡ ok revision.segments)
unfolding create_system_draft_revision
create_system_draft_revision_ok recording_id segments summary now s t revision e =
    let (r, there, rest) =
      chain_ok (or_throw (row recording_id s.recordings) recording_not_found) e in
    let (labelled, fine, same) = chain_ok (normalize_speaker_labels segments) rest in
    let at : row recording_id s.recordings ≡ some r =
      or_throw_ok (row recording_id s.recordings) recording_not_found r there in
    let key = row-key recording_id s.recordings r at in
    (
      record {
        jobs = ground (arith, same);
        sessions = ground (arith, same);
        references = λ ss js h. subst (All (Resolved ss js)) (ground (arith, same)) (
            All-update_first (Resolved ss js) recording_id
              (λ q. record q { current_revision_id = some revision.id; updated_at = now })
              s.recordings (λ q good. good) h);
        events = ground (arith, same);
      },
      ground (arith, same),
      ground (arith, same, key),
      ground (arith, same, fine),
    )

-- The draft of a completion is one that was there, in a state that stays as it is, or a new one.
pub draft_or_new_ok :
    (o : Option TranscriptRevision) (recording_id : Text) (c : Completion) (now : ℕ)
    (s t : AppState) (revision : TranscriptRevision)
    → draft_or_new o recording_id c now s ≡ ok (revision, t)
    → Drafted s t
      × (((o ≡ some revision) × (t.revisions ≡ s.revisions))
          ⊎ ((o ≡ none)
              × (t.revisions ≡ s.revisions ++ revision ∷ [])
              × (revision.version ≡ suc (last_version recording_id s.revisions))
              × (normalize_speaker_labels c.segments ≡ ok revision.segments)))
draft_or_new_ok (some r) recording_id c now s t revision e = (
  record {
    jobs = ground (arith, e);
    sessions = ground (arith, e);
    references = λ ss js h.
        subst (λ (u : AppState). All (Resolved ss js) u.recordings) {x = s} {y = t}
          (ground (arith, e)) h;
    events = ground (arith, e);
  },
  inl (ground (arith, e), ground (arith, e)),
)
draft_or_new_ok none recording_id c now s t revision e =
    let (drafted, added, version, labels) =
      create_system_draft_revision_ok recording_id c.segments c.summary now s t revision e in
    (drafted, inr (refl, added, version, labels))

pub complete_transcript_job-Reported :
    (c : Completion) (now : ℕ) (s t : AppState) {snap : JobSnapshot}
    → complete_transcript_job c now s ≡ ok (snap, t)
    → (revision_id : Text) × Reported s t c.job_id c.worker_id (completed_job c revision_id now)
unfolding complete_transcript_job add_audit_event
complete_transcript_job-Reported c now s t e =
    let (refs, resolved, rest) = chain_ok (resolve_job_refs s c.job_id) e in
    let (u, own, last) = chain_ok (assert_claim_owner refs.job c.worker_id) rest in
    let existing =
      or_else (row_of refs.job.output_revision_id refs.state.revisions)
        (row_of refs.recording.current_revision_id refs.state.revisions) in
    let (made, drafted, same) =
      chain_ok (draft_or_new existing refs.recording.id c now refs.state) last in
    let (kept, _) =
      draft_or_new_ok existing refs.recording.id c now refs.state made.1 made.0 drafted in
    (
      made.0.id,
      reported s t c.job_id c.worker_id (completed_job c made.0.id now) refs
          (completed_id c made.0.id now) resolved (owned refs.job c.worker_id own)
          (ground (arith, same, kept.jobs)) (ground (arith, same, kept.sessions))
          (λ ss js h. subst (All (Resolved ss js)) (ground (arith, same)) (
            All-update_first (Resolved ss js) refs.recording.id
              (λ r. record (follow TranscriptJobState.completed now r) {
                current_revision_id = some made.0.id;
              })
              made.1.recordings (λ r at. at) (kept.references ss js h))),
    )

pub fail_transcript_job-Reported :
    (f : JobFailure) (now : ℕ) (s t : AppState) {snap : JobSnapshot}
    → fail_transcript_job f now s ≡ ok (snap, t)
    → (exhausted : Bool) × (job : TranscriptJob) × (row f.job_id (normalize_state s).transcript_jobs
        ≡ some job)
      × (exhausted ≡ is_exhausted f job)
      × Reported s t f.job_id f.worker_id (failed_job f exhausted now)
unfolding fail_transcript_job add_audit_event
fail_transcript_job-Reported f now s t e =
    let (refs, resolved, rest) = chain_ok (resolve_job_refs s f.job_id) e in
    let (u, own, same) = chain_ok (assert_claim_owner refs.job f.worker_id) rest in
    let exhausted = is_exhausted f refs.job in
    (
      exhausted,
      refs.job,
      (resolve_job_refs_ok s f.job_id refs resolved).1,
      refl,
      reported s t f.job_id f.worker_id (failed_job f exhausted now) refs
          (failed_id f exhausted now) resolved (owned refs.job f.worker_id own)
          (ground (arith, same)) (ground (arith, same))
          (kept_by_follow refs.state t refs.recording.id
            (if exhausted then TranscriptJobState.failed else TranscriptJobState.queued) now
            (ground (arith, same))),
    )
