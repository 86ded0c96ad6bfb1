-- ===== src/Orchestration/Sync/Progress.antt =====
-- The engine of the demonstration brings a job to its end.
use superscriber.Prelude.{
  Option, some, none, ℕ, ◌+◌, ◌≤◌, ◌≡◌, ◌⊎◌, ap, ◌∙◌, arith, Bool-cases, inl, inr,
}
use superscriber.Domain.Models.{IntegrityState, TranscriptJobState, Recording}
use superscriber.Workflow.State.{IngestionSession, TranscriptJob}
use superscriber.Workflow.Create.{mock_engine_id}
use superscriber.Orchestration.Engines.{
  TranscriptStep, mock_step_transcript_job, mock_job_step, age_ms, supports_partial,
}
use superscriber.Orchestration.Sync.{stepped_job}

abbrev after_step : ℕ → Option TranscriptStep → TranscriptJob → TranscriptJob
after_step now none job = job
after_step now (some step) job = stepped_job mock_engine_id step now job

-- The job after a round of the mock engine.
abbrev pub mock_round : Recording → IngestionSession → ℕ → TranscriptJob → TranscriptJob
mock_round r session now job = after_step now (mock_step_transcript_job r session job now) job

module _ (r : Recording) (session : IngestionSession)
    (verified : session.state ≡ IntegrityState.verified) where
  started :
      (now : ℕ) (job : TranscriptJob)
      → job.state ≡ TranscriptJobState.queued
      → ((mock_round r session now job).state ≡ TranscriptJobState.running)
        × ((mock_round r session now job).started_at ≡ some now)
  unfolding mock_step_transcript_job mock_job_step
  started now job queued = ground (arith, verified, queued)

  -- What a late round makes of a job that has started.
  late_running :
      (began now : ℕ) (job : TranscriptJob)
      → job.state ≡ TranscriptJobState.running
      → job.started_at ≡ some began
      → began + 3000 ≤ now
      → ((mock_round r session now job).state ≡ TranscriptJobState.completed)
        ⊎ (((mock_round r session now job).state ≡ TranscriptJobState.partial_result)
            × ((mock_round r session now job).started_at ≡ some began))
  unfolding mock_step_transcript_job mock_job_step age_ms
  late_running began now job running at late = elim (Bool-cases (supports_partial r)) [
    | inl partial ↦ inr (
      ground (arith, verified, running, at, partial, late),
      ground (arith, verified, running, at, partial, late),
    )
    | inr whole ↦ inl (ground (arith, verified, running, at, whole, late))
  ]

  late_partial :
      (began now : ℕ) (job : TranscriptJob)
      → job.state ≡ TranscriptJobState.partial_result
      → job.started_at ≡ some began
      → began + 3000 ≤ now
      → (mock_round r session now job).state ≡ TranscriptJobState.completed
  unfolding mock_step_transcript_job mock_job_step age_ms
  late_partial began now job partial at late = ground (arith, verified, partial, at, late)

  completed_stays :
      (now : ℕ) (job : TranscriptJob)
      → job.state ≡ TranscriptJobState.completed
      → mock_round r session now job ≡ job
  unfolding mock_step_transcript_job mock_job_step
  completed_stays now job done = ground (arith, verified, done)

  -- A waiting job of a verified recording is completed by three rounds of the mock engine, if the later
  -- two come three seconds after the first or more.
  pub mock_round-completed :
      (first second third : ℕ) (job : TranscriptJob)
      → job.state ≡ TranscriptJobState.queued
      → first + 3000 ≤ second
      → first + 3000 ≤ third
      → (mock_round r session third
          (mock_round r session second (mock_round r session first job))).state
        ≡ TranscriptJobState.completed
  mock_round-completed first second third job queued late later =
      let one = mock_round r session first job in
      let two = mock_round r session second one in
      let (running, at) = started first job queued in
      elim (late_running first second one running at late) [
        | inl done ↦ ap (λ (j : TranscriptJob). j.state) (completed_stays third two done) ∙ done
        | inr (partial, still) ↦ late_partial first third two partial still later
      ]
