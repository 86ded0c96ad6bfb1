-- ===== src/Orchestration/Queue/Lifecycle/Fencing.antt =====
-- What a worker may no longer do with a job.
use superscriber.Prelude.{
  Text, Option, some, ℕ, List, [], ◌∷◌, ◌≡◌, ◌≢◌, inl, inr, row, arith, ap, ◌∙◌, subst,
}
use superscriber.Domain.Models.{TranscriptJobState}
use superscriber.Domain.Errors.{Result, ok}
use superscriber.Workflow.State.{AppState, TranscriptJob, job_keyed}
use superscriber.Workflow.Store.{Persisted, with_state, alone}
use superscriber.Orchestration.Queue.Jobs.{JobSnapshot}
use superscriber.Orchestration.Queue.Lifecycle.{JobPhase, phase_of, held, ended, Step, QueueIsValid}
use superscriber.Orchestration.Queue.Lifecycle.Runs.{
  Report, QueueCall, reports, job_of, worker_of, report, perform, perform-Follows, run,
  run-QueueIsValid, report_holder,
}

ended-never : {w : Text} {state : TranscriptJobState} {b : JobPhase} → Step w (ended state) b → ⊥
ended-never step = elim step [ ]

-- A job that has ended stays as it is, whatever the workers call.
unchanged :
    (calls : List (ℕ × QueueCall)) (p : Persisted) (id : Text) (j : TranscriptJob)
    (state : TranscriptJobState)
    → QueueIsValid p
    → row id p.app.transcript_jobs ≡ some j
    → phase_of j ≡ ended state
    → row id (run calls p).app.transcript_jobs ≡ some j
unchanged [] p id j state valid at over = at
unchanged ((now, call) ∷ rest) p id j state valid at over =
    let (valid', follows) = perform-Follows call now p valid in
    let (k, there, how) = follows id j at in
    elim how [
      | inl same ↦ unchanged rest (perform call now p) id j state valid' (there ∙ ap some same) over
      | inr step ↦
          absurd (ended-never (subst (λ a. Step (worker_of call) a (phase_of k)) over step))
    ]

-- A job stays, and nobody reports on it.
abbrev pub IsClosed : Text → TranscriptJob → Persisted → Type 0
IsClosed id j p =
    (row id p.app.transcript_jobs ≡ some j)
    × ((r : Report) (now : ℕ) (t : AppState) (snap : JobSnapshot)
        → job_of r ≡ id
        → report r now p.app ≢ ok (snap, t))

run-IsClosed :
    (calls : List (ℕ × QueueCall)) (p : Persisted) (id : Text) (j : TranscriptJob)
    (state : TranscriptJobState)
    → QueueIsValid p
    → row id p.app.transcript_jobs ≡ some j
    → phase_of j ≡ ended state
    → IsClosed id j (run calls p)
run-IsClosed calls p id j state valid at over =
    let there = unchanged calls p id j state valid at over in
    (
      there,
      λ r now t snap same made. not_held (
          report_holder r now (run calls p) t snap j (run-QueueIsValid calls p valid)
            (ap (λ (x : Text). row x (run calls p).app.transcript_jobs) same ∙ there) made),
    )
  where
    not_held : {n : ℕ} {o : Option Text} → phase_of j ≡ held n o → ⊥
    not_held h = absurd (ground (arith, h, over))

-- In a valid queue, once a worker's report has ended its job, the job stays as it is, whatever the workers
-- call, and no report on it goes through.
pub run_ended :
    (r : Report) (now : ℕ) (calls : List (ℕ × QueueCall)) (p q : Persisted) (snap : JobSnapshot)
    (j : TranscriptJob) (state : TranscriptJobState)
    → QueueIsValid p
    → with_state alone (report r now) p ≡ (ok snap, q)
    → row (job_of r) q.app.transcript_jobs ≡ some j
    → phase_of j ≡ ended state
    → IsClosed (job_of r) j (run calls q)
run_ended r now calls p q snap j state valid reported at over =
    let performed : perform (reports r) now p ≡ q =
      unfold perform in ap (λ (x : Result JobSnapshot × Persisted). x.1) reported in
    let q_valid = subst QueueIsValid performed (perform-Follows (reports r) now p valid).0 in
    run-IsClosed calls q (job_of r) j state q_valid at over
