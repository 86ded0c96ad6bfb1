-- ===== src/Orchestration/Queue/Lifecycle/Runs.antt =====
-- Calls of any workers, one after the other, each refused or not. `withState` and the transaction of a
-- claim are atomic, so a sequence of calls stands for any interleaving of them.
use superscriber.Prelude.{
  Text, Option, some, none, ℕ, List, [], ◌∷◌, ◌≡◌, inl, inr, refl, true, ◌&&◌, ◌===◌, is, row,
  arith, text_equal, ap, sym, ◌∙◌, subst, has_key-update_where, All-update_where,
}
use superscriber.Domain.Models.{TranscriptJobState}
use superscriber.Domain.Errors.{Result, ok}
use superscriber.Casefile.Store.{recording_keyed}
use superscriber.Workflow.State.{AppState, TranscriptJob, job_keyed, session_keyed, add_audit_event}
use superscriber.Workflow.Store.Laws.{with_state-alone}
use superscriber.Workflow.Store.{alone, Persisted, stored, storable, with_state}
use superscriber.Orchestration.Normalize.{is_running}
use superscriber.Orchestration.Normalize.Laws.{
  normalize_state-IsNormalised, IsNormalised-update, Resolved,
}
use superscriber.Orchestration.Queue.Jobs.{is_claimable, JobSnapshot}
use superscriber.Orchestration.Queue.Claim.{
  Candidate, claimed_job, claim_candidate, claim_available_transcript_job, select_candidate,
  write_claim,
}
use superscriber.Orchestration.Queue.Reports.{
  is_exhausted, Heartbeat, Completion, JobFailure, beaten, completed_job, failed_job,
  heartbeat_transcript_job, complete_transcript_job, fail_transcript_job,
}
use superscriber.Orchestration.Queue.Selection.{select_candidate-Ready, distinct_keys-update_where}
use superscriber.Orchestration.Queue.Exclusion.{cutoff_of, row-write_claim}
use superscriber.Orchestration.Queue.Ownership.{
  Reported, heartbeat_transcript_job-Reported, complete_transcript_job-Reported,
  fail_transcript_job-Reported,
}
use superscriber.Orchestration.Queue.Lifecycle.{
  phase_of, held, Step, IsOwned, QueueIsValid, Follows, Follows-one, IsOwned-one, claimed-Step,
  beaten-Step, completed-Step, failed-Step, owned-Step, running_phase, is_true,
}

-- What a worker reports of its job.
pub data Report : Type 0 where
  beats : Heartbeat → Report
  completes : Completion → Report
  fails : JobFailure → Report

abbrev pub job_of : Report → Text
job_of (beats h) = h.job_id
job_of (completes c) = c.job_id
job_of (fails f) = f.job_id

abbrev pub reporter : Report → Text
reporter (beats h) = h.worker_id
reporter (completes c) = c.worker_id
reporter (fails f) = f.worker_id

unfoldable pub report : Report → ℕ → AppState → Result (JobSnapshot × AppState)
unfolding heartbeat_transcript_job complete_transcript_job fail_transcript_job
report (beats h) now s = heartbeat_transcript_job h now s
report (completes c) now s = complete_transcript_job c now s
report (fails f) now s = fail_transcript_job f now s

pub data QueueCall : Type 0 where
  claims : Text → Option ℕ → QueueCall
  reports : Report → QueueCall

abbrev pub worker_of : QueueCall → Text
worker_of (claims w window) = w
worker_of (reports r) = reporter r

unfoldable pub perform : QueueCall → ℕ → Persisted → Persisted
unfolding claim_available_transcript_job report with_state
perform (claims w window) now p = (claim_available_transcript_job w window now p).1
perform (reports r) now p = (with_state alone (report r now) p).1

Follows-refl : (w : Text) (s : AppState) → Follows w s s
Follows-refl w s id j at = (j, at, inl refl)

-- A change under `withState`, from what it does where it goes through.
changes :
    {A : Type 0} (mutate : AppState → Result (A × AppState)) (w : Text) (p : Persisted)
    → QueueIsValid p
    → ((a : A) (t : AppState)
        → mutate p.app ≡ ok (a, t)
        → storable t ≡ true
        → QueueIsValid (stored t p) × Follows w p.app t)
    → QueueIsValid (with_state alone mutate p).1 × Follows w p.app (with_state alone mutate p).1.app
changes mutate w p valid step = elim (with_state-alone mutate p) [
  | inl same ↦
      subst (λ (q : Persisted). QueueIsValid q × Follows w p.app q.app) (sym same)
        (valid, Follows-refl w p.app)
  | inr (a, s, made, fits, done) ↦
      subst (λ (q : Persisted). QueueIsValid q × Follows w p.app q.app) (sym done)
        (step a s made fits)
]

claim_changes :
    (w : Text) (cutoff now : ℕ) (p : Persisted) (o : Option Candidate)
    → select_candidate p.app cutoff p.app.transcript_jobs ≡ o
    → QueueIsValid p
    → let q = (claim_candidate w cutoff now o p).1 in QueueIsValid q × Follows w p.app q.app
claim_changes w cutoff now p none chosen valid = (valid, Follows-refl w p.app)
claim_changes w cutoff now p (some k) chosen valid =
    let q = write_claim w cutoff now k p in
    let (at, fit) =
      select_candidate-Ready p.app cutoff p.app.transcript_jobs k valid.distinct chosen in
    let (moves, good) = claimed-Step w cutoff now k.job fit.claimable in
    let rows = λ (id : Text). row-write_claim w cutoff now k p id at fit.claimable in
    (
      record {
        normalised =
            unfold write_claim add_audit_event claimed_job in
            IsNormalised-update p.app q.app (λ id h. h)
              (λ id h.
                has_key-update_where id (λ j. (j.id === k.job.id) && is_claimable cutoff j)
                  (claimed_job w now) p.app.transcript_jobs (λ r. refl)
                ∙ h)
              (All-update_where (Resolved p.app.ingestion_sessions p.app.transcript_jobs)
                (λ r. r.id === k.recording.id)
                (λ r. record r {
                  transcript_job_state = TranscriptJobState.running;
                  updated_at = now;
                })
                p.app.recordings (λ r h. h) valid.normalised);
        distinct =
            unfold write_claim add_audit_event claimed_job in
            distinct_keys-update_where (λ j. (j.id === k.job.id) && is_claimable cutoff j)
              (claimed_job w now) p.app.transcript_jobs (λ r. refl)
            ∙ valid.distinct;
        owned = IsOwned-one p.app q.app k.job.id k.job (claimed_job w now) good rows valid.owned;
      },
      Follows-one w p.app q.app k.job.id k.job (claimed_job w now) at moves rows,
    )

-- The job of a report that goes through is held by its reporter, and is changed by a step of it.
pub report-Reported :
    (r : Report) (now : ℕ) (s t : AppState) {snap : JobSnapshot}
    → report r now s ≡ ok (snap, t)
    → (f : TranscriptJob → TranscriptJob) × (done : Reported s t (job_of r) (reporter r) f)
      × (done.job.claimed_by_worker_id ≡ some (reporter r)
          → is_running done.job.state ≡ true
          → Step (reporter r) (phase_of done.job) (phase_of (f done.job)) × IsOwned (f done.job))
unfolding report
report-Reported (beats h) now s t made =
    let (next, run, done) = heartbeat_transcript_job-Reported h now s t made in
    (beaten h next now, done, λ own held. beaten-Step now h.worker_id done.job own held h next run)
report-Reported (completes c) now s t made =
    let (revision_id, done) = complete_transcript_job-Reported c now s t made in
    (
      completed_job c revision_id now,
      done,
      λ own held. completed-Step now c.worker_id done.job own held c revision_id,
    )
report-Reported (fails f) now s t made =
    let (exhausted, job, at, is, done) = fail_transcript_job-Reported f now s t made in
    let same : job ≡ done.job = ground (arith, at, done.found) in
    (
      failed_job f exhausted now,
      done,
      λ own held.
          failed-Step now f.worker_id done.job own held f exhausted (is ∙ ap (is_exhausted f) same),
    )

-- From a valid queue, every call of every worker, refused or not, leaves the queue valid, and changes a
-- job by a step of that worker or not at all.
pub perform-Follows :
    (call : QueueCall) (now : ℕ) (p : Persisted)
    → QueueIsValid p
    → QueueIsValid (perform call now p) × Follows (worker_of call) p.app (perform call now p).app
unfolding perform
perform-Follows (claims w window) now p valid =
    unfold claim_available_transcript_job in
    claim_changes w (cutoff_of window now) now p _ refl valid
perform-Follows (reports r) now p valid =
    changes (report r now) (reporter r) p valid λ snap t made fits.
      let (f, done, step) = report-Reported r now p.app t made in
      owned-Step p t (job_of r) (reporter r) f valid done step fits

abbrev pub run : List (ℕ × QueueCall) → Persisted → Persisted
run [] p = p
run ((now, call) ∷ rest) p = run rest (perform call now p)

pub run-QueueIsValid :
    (calls : List (ℕ × QueueCall)) (p : Persisted) → QueueIsValid p → QueueIsValid (run calls p)
run-QueueIsValid [] p valid = valid
run-QueueIsValid ((now, call) ∷ rest) p valid =
    run-QueueIsValid rest (perform call now p) (perform-Follows call now p valid).0

-- Nobody but the worker that holds a job reports on it.
pub report_holder :
    (r : Report) (now : ℕ) (p : Persisted) (t : AppState) (snap : JobSnapshot) (j : TranscriptJob)
    → QueueIsValid p
    → row (job_of r) p.app.transcript_jobs ≡ some j
    → report r now p.app ≡ ok (snap, t)
    → phase_of j ≡ held j.attempt_count (some (reporter r))
report_holder r now p t snap j valid at made =
    let (f, done, step) = report-Reported r now p.app t made in
    let same = normalize_state-IsNormalised p.app valid.normalised in
    let found = sym (ap (λ (s : AppState). row (job_of r) s.transcript_jobs) same) ∙ done.found in
    let is_j : done.job ≡ j = ground (arith, found, at) in
    let own =
      subst (λ (i : TranscriptJob). i.claimed_by_worker_id ≡ some (reporter r)) is_j
        (is_true done.job.claimed_by_worker_id (reporter r) done.owner) in
    holder j (valid.owned (job_of r) j at) own
  where
    holder :
        (j : TranscriptJob)
        → IsOwned j
        → j.claimed_by_worker_id ≡ some (reporter r)
        → phase_of j ≡ held j.attempt_count (some (reporter r))
    holder j (inl free) own = absurd (ground (arith, own, free))
    holder j (inr run) own = running_phase j run ∙ ap (held j.attempt_count) own
