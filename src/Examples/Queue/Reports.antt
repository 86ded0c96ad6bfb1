-- ===== src/Examples/Queue/Reports.antt =====
-- What becomes of the claimed job: its completion, with and without another process that writes.
use superscriber.Prelude.{
  Text, ℕ, Option, none, some, true, false, ◌≡◌, ◌≢◌, refl, List, [], ◌∷◌, units, arith, row,
  if◌then◌else◌, ◌==◌, ◌+◌, text_equal, ◌≤◌, All, Bool-cases, ◌===◌, inl, inr,
}
use superscriber.Domain.Models.{TranscriptJobState}
use superscriber.Domain.Errors.{Result, ok, err}
use superscriber.Workflow.State.{AppState, TranscriptJob, job_keyed}
use superscriber.Workflow.Store.{Persisted, with_state, alone}
use superscriber.Workflow.Store.Laws.{
  Atomic, Moves, MovesFrom-refl, with_state-MovesFrom, with_state-Atomic,
}
use superscriber.Orchestration.Queue.Jobs.{JobClaim, JobSnapshot}
use superscriber.Orchestration.Queue.Reports.{complete_transcript_job, heartbeat_transcript_job}
use superscriber.Orchestration.Queue.Completion.{NamesDraft, complete_transcript_job_lem}
use superscriber.Orchestration.Queue.Lifecycle.{phase_of, ended, QueueIsValid}
use superscriber.Orchestration.Queue.Lifecycle.Runs.{
  completes, claims, reports, report, perform, perform-Follows, run,
}
use superscriber.Orchestration.Queue.Lifecycle.Fencing.{IsClosed, run_ended}
use superscriber.Examples.Queue.{
  waiting_queue, waiting_job, claimed_queue, sign_of_life, queue_in-QueueIsValid, finished,
}
use superscriber.Orchestration.Queue.Lifecycle.Attempts.{run-StaysWithin, StaysWithin}

abbrev snapshot_or : JobSnapshot → Result (JobSnapshot × AppState) → JobSnapshot
snapshot_or d (ok (snap, s)) = snap
snapshot_or d (err e) = d

abbrev job_or : Option TranscriptJob → TranscriptJob
job_or none = waiting_job
job_or (some j) = j

abbrev state_or : AppState → Result (JobSnapshot × AppState) → AppState
state_or d (ok (snap, s)) = s
state_or d (err e) = d

abbrev completed_snapshot : JobSnapshot
unfolding complete_transcript_job
completed_snapshot =
    snapshot_or (superscriber.Orchestration.Queue.Jobs.build_snapshot waiting_job)
      (complete_transcript_job finished 2000 claimed_queue.app)

abbrev completed_state : AppState
unfolding complete_transcript_job
completed_state =
    state_or waiting_queue.app (complete_transcript_job finished 2000 claimed_queue.app)

complete_run :
    complete_transcript_job finished 2000 claimed_queue.app
    ≡ ok (completed_snapshot, completed_state)
unfolding complete_transcript_job superscriber.Orchestration.Normalize.normalize_state claimed_queue
    superscriber.Prelude.Text-discrete superscriber.Domain.Speakers.normalize_speaker_labels
    superscriber.Domain.Speakers.validate_speaker_name superscriber.Prelude.trim
complete_run = refl

complete_transcript_job_lem_example :
    NamesDraft finished claimed_queue.app completed_state completed_snapshot
complete_transcript_job_lem_example =
    complete_transcript_job_lem finished 2000 claimed_queue.app completed_state completed_snapshot
      complete_run

-- The completion as it is stored.
abbrev stored_completion : Persisted
unfolding completed_state
stored_completion = record { app = completed_state; state_version = some 3 }

stored_run :
    with_state alone (report (completes finished) 2000) claimed_queue
    ≡ (ok completed_snapshot, stored_completion)
unfolding report with_state completed_state claimed_queue superscriber.Prelude.Text-discrete
    superscriber.Orchestration.Normalize.normalize_state
    superscriber.Domain.Speakers.normalize_speaker_labels
    superscriber.Domain.Speakers.validate_speaker_name superscriber.Prelude.trim
stored_run = refl

claimed_valid : QueueIsValid claimed_queue
unfolding claimed_queue
claimed_valid =
    unfold perform in
    (perform-Follows (claims (units "w1") none) 1000 waiting_queue
      (queue_in-QueueIsValid TranscriptJobState.queued)).0

abbrev done_job : TranscriptJob
unfolding completed_state
done_job = job_or (row (units "j1") completed_state.transcript_jobs)

done_row : row (units "j1") completed_state.transcript_jobs ≡ some done_job
unfolding completed_state claimed_queue superscriber.Prelude.Text-discrete
    superscriber.Orchestration.Normalize.normalize_state
    superscriber.Domain.Speakers.normalize_speaker_labels
    superscriber.Domain.Speakers.validate_speaker_name superscriber.Prelude.trim
done_row = refl

done_phase : phase_of done_job ≡ ended TranscriptJobState.completed
unfolding phase_of done_job completed_state claimed_queue superscriber.Prelude.Text-discrete
    superscriber.Orchestration.Normalize.normalize_state
    superscriber.Domain.Speakers.normalize_speaker_labels
    superscriber.Domain.Speakers.validate_speaker_name superscriber.Prelude.trim
done_phase = refl

run_ended_example : IsClosed (units "j1") done_job (
    run
      ((3000, claims (units "w1") none) ∷ (4000, reports (completes finished)) ∷ [])
      stored_completion)
unfolding stored_completion completed_state
run_ended_example =
    run_ended (completes finished) 2000
      ((3000, claims (units "w1") none) ∷ (4000, reports (completes finished)) ∷ []) claimed_queue
      stored_completion completed_snapshot done_job TranscriptJobState.completed claimed_valid
      stored_run done_row done_phase

-- The worker gives a sign of life before the first write of its completion.
abbrev interfering : ℕ → Persisted → Persisted
interfering n p =
    if n == 2 then (with_state alone (heartbeat_transcript_job sign_of_life 1500) p).1 else p

interfering-Moves : Moves interfering
interfering-Moves n p v there = elim (Bool-cases (n == 2)) [
  | inl e ↦ rw e (with_state-MovesFrom (heartbeat_transcript_job sign_of_life 1500) p v there)
  | inr e ↦ rw e (MovesFrom-refl p v there)
]

abbrev beaten_queue : Persisted
unfolding claimed_queue with_state
beaten_queue = (with_state alone (heartbeat_transcript_job sign_of_life 1500) claimed_queue).1

abbrev retried_state : AppState
unfolding complete_transcript_job beaten_queue
retried_state = state_or waiting_queue.app (complete_transcript_job finished 2000 beaten_queue.app)

abbrev retried_snapshot : JobSnapshot
unfolding complete_transcript_job beaten_queue
retried_snapshot =
    snapshot_or completed_snapshot (complete_transcript_job finished 2000 beaten_queue.app)

retried_run :
    with_state interfering (complete_transcript_job finished 2000) claimed_queue
    ≡ (ok retried_snapshot, record { app = retried_state; state_version = some 4 })
unfolding with_state retried_state retried_snapshot beaten_queue claimed_queue
    heartbeat_transcript_job complete_transcript_job superscriber.Prelude.Text-discrete
    superscriber.Orchestration.Normalize.normalize_state
    superscriber.Domain.Speakers.normalize_speaker_labels
    superscriber.Domain.Speakers.validate_speaker_name superscriber.Prelude.trim
retried_run = refl

with_state-Atomic_example :
    Atomic interfering
      (complete_transcript_job finished 2000)
      claimed_queue
      retried_snapshot
      (record { app = retried_state; state_version = some 4 })
with_state-Atomic_example =
    with_state-Atomic interfering (complete_transcript_job finished 2000) interfering-Moves
      claimed_queue 2 (unfold claimed_queue superscriber.Prelude.Text-discrete in refl) retried_run

run-StaysWithin_example : StaysWithin (units "j1") waiting_job (
    run
      ((1000, claims (units "w1") none) ∷ (2000, reports (completes finished)) ∷ [])
      waiting_queue)
run-StaysWithin_example =
    run-StaysWithin ((1000, claims (units "w1") none) ∷ (2000, reports (completes finished)) ∷ [])
      waiting_queue (units "j1") waiting_job (queue_in-QueueIsValid TranscriptJobState.queued)
      (unfold superscriber.Prelude.Text-discrete in refl)
