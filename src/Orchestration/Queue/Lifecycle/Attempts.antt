-- ===== src/Orchestration/Queue/Lifecycle/Attempts.antt =====
-- How often the internal queue lets a job be attempted.
use superscriber.Prelude.{
  Text, ℕ, ◌<◌, ◌≡◌, List, [], ◌∷◌, ◌⊎◌, refl, row, some, sym, subst, inl, inr,
}
use superscriber.Workflow.State.{TranscriptJob, job_keyed}
use superscriber.Workflow.Store.{Persisted}
use superscriber.Orchestration.Queue.Jobs.{max_job_attempts}
use superscriber.Orchestration.Queue.Lifecycle.{
  JobPhase, waiting, held, ended, Step, take, take_over, go_on, give_back, finish, give_up,
  phase_of, QueueIsValid,
}
use superscriber.Orchestration.Queue.Lifecycle.Runs.{QueueCall, perform, perform-Follows, run}

-- A job that waits was attempted less than the maximum.
abbrev pub MayWait : JobPhase → Type 0
MayWait (waiting n) = n < max_job_attempts
MayWait (held n worker_id) = Unit
MayWait (ended state) = Unit

Step-MayWait : {w : Text} {a b : JobPhase} → Step w a b → MayWait b
Step-MayWait (take e) = tt
Step-MayWait (take_over e) = tt
Step-MayWait go_on = tt
Step-MayWait (give_back below) = below
Step-MayWait finish = tt
Step-MayWait give_up = tt

-- The job is there, as it was, or within its attempts if it waits.
abbrev pub StaysWithin : Text → TranscriptJob → Persisted → Type 0
StaysWithin id j p =
    (k : TranscriptJob) × (row id p.app.transcript_jobs ≡ some k) × ((k ≡ j) ⊎ MayWait (phase_of k))

stays :
    (calls : List (ℕ × QueueCall)) (p : Persisted) (id : Text) (j : TranscriptJob)
    → QueueIsValid p
    → StaysWithin id j p
    → StaysWithin id j (run calls p)
stays [] p id j valid within = within
stays ((now, call) ∷ rest) p id j valid (h, at, how) =
    let (valid', follows) = perform-Follows call now p valid in
    let (k, there, moved) = follows id h at in
    stays rest (perform call now p) id j valid' (
      k,
      there,
      elim moved [
        | inl same ↦ subst (λ x. (x ≡ j) ⊎ MayWait (phase_of x)) (sym same) how
        | inr step ↦ inr (Step-MayWait step)
      ],
    )

-- From a valid queue, whatever the workers call, a job of the table stays there. It is then as it was,
-- or waits only if it was attempted less than three times.
pub run-StaysWithin :
    (calls : List (ℕ × QueueCall)) (p : Persisted) (id : Text) (j : TranscriptJob)
    → QueueIsValid p
    → row id p.app.transcript_jobs ≡ some j
    → StaysWithin id j (run calls p)
run-StaysWithin calls p id j valid at = stays calls p id j valid (j, at, inl refl)
