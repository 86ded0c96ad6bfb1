-- ===== src/Examples/Queue/Holding.antt =====
-- The claimed job, while its worker gives a sign of life and another one reports on it.
use superscriber.Prelude.{
  Text, ℕ, Option, none, some, true, false, ◌≡◌, ◌≢◌, refl, List, [], ◌∷◌, units, arith, text_equal,
  ap, length,
}
use superscriber.Domain.Models.{TranscriptJobState}
use superscriber.Domain.Errors.{Result, ok, err}
use superscriber.Workflow.State.{AppState}
use superscriber.Workflow.Store.{Persisted}
use superscriber.Orchestration.Queue.Jobs.{JobClaim, JobSnapshot}
use superscriber.Orchestration.Queue.Claim.{claim_available_transcript_job}
use superscriber.Orchestration.Queue.Lifecycle.Runs.{
  QueueCall, beats, completes, reports, report, run,
}
use superscriber.Orchestration.Queue.Lifecycle.Holding.{
  AllSpare, spares_sign, other_worker, claim_available_transcript_job_twice,
  claim_available_transcript_job-report,
}
use superscriber.Examples.Queue.{
  waiting_queue, waiting_job, claim_or, first_claim, claimed_queue, claim_run,
  queue_in-QueueIsValid, finished, sign_of_life,
}

abbrev between : List (ℕ × QueueCall)
between =
    (2000, reports (beats sign_of_life))
    ∷ (3000, reports (completes (record finished { worker_id = units "another" })))
    ∷ []

longer : units "another" ≡ units "w1" → ⊥
longer e = omega (arith, ap (λ (x : Text). length x) e)

between_spare : AllSpare (units "w1") first_claim.job_id 1000 between
between_spare =
    (spares_sign sign_of_life (omega arith), (other_worker _ (λ e. absurd (longer e)), tt))

abbrev beaten_queue : Persisted
unfolding claimed_queue
beaten_queue = run between claimed_queue

abbrev second_claim : JobClaim
unfolding claim_available_transcript_job beaten_queue
second_claim = claim_or (claim_available_transcript_job (units "w2") none 5000 beaten_queue)

abbrev both_claimed : Persisted
unfolding claim_available_transcript_job beaten_queue
both_claimed = (claim_available_transcript_job (units "w2") none 5000 beaten_queue).1

second_run :
    claim_available_transcript_job (units "w2") none 5000 (run between claimed_queue)
    ≡ (ok (some second_claim), both_claimed)
unfolding claim_available_transcript_job second_claim both_claimed beaten_queue
    superscriber.Orchestration.Queue.Lifecycle.Runs.perform
    superscriber.Orchestration.Normalize.normalize_state superscriber.Prelude.Text-discrete
second_run = refl

claim_available_transcript_job_twice_example : second_claim.job_id ≢ first_claim.job_id
claim_available_transcript_job_twice_example =
    claim_available_transcript_job_twice (units "w1") none 1000 waiting_queue claimed_queue
      first_claim (queue_in-QueueIsValid TranscriptJobState.queued) claim_run between between_spare
      (units "w2") none 5000 both_claimed second_claim (omega arith) second_run

abbrev completed_or : Result (JobSnapshot × AppState) → JobSnapshot × AppState
completed_or (ok made) = made
completed_or (err e) =
    (superscriber.Orchestration.Queue.Jobs.build_snapshot waiting_job, waiting_queue.app)

abbrev completion : JobSnapshot × AppState
unfolding report beaten_queue
completion = completed_or (report (completes finished) 4000 beaten_queue.app)

completed_run :
    report (completes finished) 4000 (run between claimed_queue).app
    ≡ ok (completion.0, completion.1)
unfolding report completion beaten_queue claimed_queue superscriber.Prelude.Text-discrete
    superscriber.Orchestration.Normalize.normalize_state
    superscriber.Domain.Speakers.normalize_speaker_labels
    superscriber.Domain.Speakers.validate_speaker_name superscriber.Prelude.trim
    superscriber.Orchestration.Queue.Lifecycle.Runs.perform
completed_run = refl

claim_available_transcript_job-report_example : ◌≡◌ {A = Text} (units "w1") (units "w1")
unfolding first_claim superscriber.Prelude.Text-discrete
claim_available_transcript_job-report_example =
    claim_available_transcript_job-report (units "w1") none 1000 waiting_queue claimed_queue
      first_claim (queue_in-QueueIsValid TranscriptJobState.queued) claim_run between between_spare
      (completes finished) 4000 completion.1 completion.0 refl completed_run
