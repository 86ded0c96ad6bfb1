-- ===== src/Orchestration/Queue/Lifecycle.antt =====
-- The life of a job in the queue, and that every call of every worker follows it.
pub mod Runs
pub mod Fencing
pub mod Attempts
pub mod Holding
use superscriber.Prelude.{
  ◌<◌, ◌+◌, Text, Option, some, none, ℕ, suc, List, ◌≡◌, ◌⊎◌, inl, inr, refl, Bool, true, false,
  not, ◌&&◌, ◌==◌, ◌===◌, is, row, arith, if◌then◌else◌, Bool-cases, Option-cases, text_equal, ap,
  sym, ◌∙◌, subst, has_key, has_key-update_where, All-update_where, distinct_keys,
}
use superscriber.Domain.Models.{TranscriptJobState, Recording, job_state_equal}
use superscriber.Domain.Errors.{Failure, Result, ok, err}
use superscriber.Casefile.Store.{recording_keyed}
use superscriber.Workflow.State.{
  AppState, IngestionSession, TranscriptJob, job_keyed, session_keyed, add_audit_event,
}
use superscriber.Workflow.Store.{
  Persisted, stored, storable, with_state, attempts, finish_attempt, write_state,
  is_state_conflict_error,
}
use superscriber.Orchestration.Normalize.{is_running, normalize_state}
use superscriber.Orchestration.Normalize.Laws.{
  IsNormalised, IsNormalised-update, Resolved, normalize_state-IsNormalised,
}
use superscriber.Orchestration.Queue.Jobs.{max_job_attempts, is_claimable, JobSnapshot}
use superscriber.Orchestration.Queue.Claim.{
  Candidate, claimed_job, claim_candidate, claim_available_transcript_job, select_candidate,
  write_claim,
}
use superscriber.Orchestration.Queue.Reports.{
  is_exhausted, Heartbeat, Completion, JobFailure, beaten, completed_job, failed_job,
  heartbeat_transcript_job, complete_transcript_job, fail_transcript_job,
}
use superscriber.Orchestration.Queue.Selection.{
  Ready, select_candidate-Ready, distinct_keys-update_where,
}
use superscriber.Orchestration.Queue.Exclusion.{cutoff_of, row-write_claim}
use superscriber.Orchestration.Queue.Ownership.{
  Reported, heartbeat_transcript_job-Reported, complete_transcript_job-Reported,
  fail_transcript_job-Reported,
}

-- A number is that of the attempts so far.
pub data JobPhase : Type 0 where
  waiting : ℕ → JobPhase
  held : ℕ → Option Text → JobPhase
  ended : TranscriptJobState → JobPhase

unfoldable pub phase_of : TranscriptJob → JobPhase
phase_of j =
    if j.state === TranscriptJobState.queued
    then waiting j.attempt_count
    else if is_running j.state
    then held j.attempt_count j.claimed_by_worker_id
    else ended j.state

-- What one worker may make of a job. A job goes back to wait below the maximum of attempts only.
pub data Step (w : Text) : JobPhase → JobPhase → Type 0 where
  take : {n m : ℕ} → m ≡ n + 1 → Step w (waiting n) (held m (some w))
  take_over : {n m : ℕ} {o : Option Text} → m ≡ n + 1 → Step w (held n o) (held m (some w))
  go_on : {n : ℕ} → Step w (held n (some w)) (held n (some w))
  give_back : {n : ℕ} → n < max_job_attempts → Step w (held n (some w)) (waiting n)
  finish : {n : ℕ} → Step w (held n (some w)) (ended TranscriptJobState.completed)
  give_up : {n : ℕ} → Step w (held n (some w)) (ended TranscriptJobState.failed)

-- A job that a worker holds is running.
abbrev pub IsOwned : TranscriptJob → Type 0
IsOwned j = (j.claimed_by_worker_id ≡ none) ⊎ (is_running j.state ≡ true)

pub record QueueIsValid (p : Persisted) : Type 0 where
  pub normalised : IsNormalised p.app
  pub distinct : distinct_keys p.app.transcript_jobs ≡ true
  pub owned : (id : Text) (j : TranscriptJob) → row id p.app.transcript_jobs ≡ some j → IsOwned j

-- What becomes of every job: nothing, or a step of the worker.
abbrev pub Follows : Text → AppState → AppState → Type 0
Follows w s t =
    (id : Text) (j : TranscriptJob)
    → row id s.transcript_jobs ≡ some j
    → (k : TranscriptJob) × (row id t.transcript_jobs ≡ some k)
      × ((k ≡ j) ⊎ Step w (phase_of j) (phase_of k))

-- A change of one job.
pub Follows-one :
    (w : Text) (s t : AppState) (id : Text) (job : TranscriptJob)
    (f : TranscriptJob → TranscriptJob)
    → row id s.transcript_jobs ≡ some job
    → Step w (phase_of job) (phase_of (f job))
    → ((other : Text)
        → row other t.transcript_jobs
          ≡ (if id === other then some (f job) else row other s.transcript_jobs))
    → Follows w s t
Follows-one w s t id job f there step rows other j at = elim (Bool-cases (id === other)) [
  | inl e ↦ (
    f job,
    ground (arith, rows other, e),
    inr (
        subst (λ i. Step w (phase_of i) (phase_of (f job))) {x = job} {y = j}
          (ground (arith, there, at, e)) step),
  )
  | inr e ↦ (j, ground (arith, rows other, e, at), inl refl)
]

pub IsOwned-one :
    (s t : AppState) (id : Text) (job : TranscriptJob) (f : TranscriptJob → TranscriptJob)
    → IsOwned (f job)
    → ((other : Text)
        → row other t.transcript_jobs
          ≡ (if id === other then some (f job) else row other s.transcript_jobs))
    → ((other : Text) (j : TranscriptJob) → row other s.transcript_jobs ≡ some j → IsOwned j)
    → (other : Text) (j : TranscriptJob) → row other t.transcript_jobs ≡ some j
    → IsOwned j
IsOwned-one s t id job f good rows owned other j at = elim (Bool-cases (id === other)) [
  | inl e ↦ subst IsOwned {x = f job} {y = j} (ground (arith, rows other, e, at)) good
  | inr e ↦ owned other j (ground (arith, rows other, e, at))
]

between-Step : {w : Text} {a b p q : JobPhase} → p ≡ a → q ≡ b → Step w a b → Step w p q
between-Step {w} {a} {b} {p} {q} before after step =
    subst (λ x. Step w x q) (sym before) (subst (λ y. Step w a y) (sym after) step)

pub running_phase :
    (j : TranscriptJob)
    → is_running j.state ≡ true
    → phase_of j ≡ held j.attempt_count j.claimed_by_worker_id
unfolding phase_of
running_phase j h = ground (arith, h)

pub claimed-Step :
    (w : Text) (cutoff now : ℕ) (j : TranscriptJob)
    → is_claimable cutoff j ≡ true
    → Step w (phase_of j) (phase_of (claimed_job w now j)) × IsOwned (claimed_job w now j)
unfolding is_claimable phase_of claimed_job
claimed-Step w cutoff now j fit = elim (Bool-cases (j.state === TranscriptJobState.queued)) [
  | inl e ↦ (between-Step (ground (arith, e)) refl (take refl), inr refl)
  | inr e ↦
      (between-Step (running_phase j (ground (arith, e, fit))) refl (take_over refl), inr refl)
]

module _ (now : ℕ) (w : Text) (j : TranscriptJob) (own : j.claimed_by_worker_id ≡ some w)
    (run : is_running j.state ≡ true) where
  held_phase : phase_of j ≡ held j.attempt_count (some w)
  held_phase = running_phase j run ∙ ap (held j.attempt_count) own

  pub beaten-Step :
      (h : Heartbeat) (next : TranscriptJobState)
      → is_running next ≡ true
      → Step w (phase_of j) (phase_of (beaten h next now j)) × IsOwned (beaten h next now j)
  unfolding beaten
  beaten-Step h next fit = (
    between-Step held_phase
        (running_phase (beaten h next now j) fit ∙ ap (held j.attempt_count) own) go_on,
    inr fit,
  )

  pub completed-Step :
      (c : Completion) (revision_id : Text)
      → Step w (phase_of j) (phase_of (completed_job c revision_id now j))
        × IsOwned (completed_job c revision_id now j)
  unfolding completed_job phase_of
  completed-Step c revision_id = (between-Step held_phase refl finish, inl refl)

  pub failed-Step :
      (f : JobFailure) (exhausted : Bool)
      → exhausted ≡ is_exhausted f j
      → Step w (phase_of j) (phase_of (failed_job f exhausted now j))
        × IsOwned (failed_job f exhausted now j)
  unfolding failed_job phase_of is_exhausted
  failed-Step f true e = (between-Step held_phase refl give_up, inl refl)
  failed-Step f false e = (between-Step held_phase refl (give_back (ground (arith, e))), inl refl)

pub is_true : (o : Option Text) (w : Text) → is o w ≡ true → o ≡ some w
is_true none w h = absurd (cc)
is_true (some v) w h = ground (arith, h)

-- A report that goes through is a step of its worker, and leaves the queue valid.
pub owned-Step :
    (p : Persisted) (t : AppState) (id w : Text) (f : TranscriptJob → TranscriptJob)
    → QueueIsValid p
    → (done : Reported p.app t id w f)
    → (done.job.claimed_by_worker_id ≡ some w
        → is_running done.job.state ≡ true
        → Step w (phase_of done.job) (phase_of (f done.job)) × IsOwned (f done.job))
    → storable t ≡ true
    → QueueIsValid (stored t p) × Follows w p.app t
unfolding storable
owned-Step p t id w f valid done step fits =
    let same = normalize_state-IsNormalised p.app valid.normalised in
    let rows : (other : Text)
        → row other t.transcript_jobs
          ≡ (if id === other then some (f done.job) else row other p.app.transcript_jobs) =
      λ other.
        done.rows other
        ∙ ap
            (λ (s : AppState).
              if id === other then some (f done.job) else row other s.transcript_jobs)
            same in
    let found = sym (ap (λ (s : AppState). row id s.transcript_jobs) same) ∙ done.found in
    let own = is_true done.job.claimed_by_worker_id w done.owner in
    let (moves, good) = step own (running id done.job found own (valid.owned id done.job found)) in
    (
      record {
        normalised = done.normalised (subst IsNormalised (sym same) valid.normalised);
        distinct = ground (arith, fits);
        owned = IsOwned-one p.app t id done.job f good rows valid.owned;
      },
      Follows-one w p.app t id done.job f found moves rows,
    )
  where
    running :
        (id : Text) (j : TranscriptJob)
        → row id p.app.transcript_jobs ≡ some j
        → j.claimed_by_worker_id ≡ some w
        → IsOwned j
        → is_running j.state ≡ true
    running id j at own (inl free) = absurd (ground (arith, own, free))
    running id j at own (inr run) = run
