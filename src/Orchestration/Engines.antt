-- ===== src/Orchestration/Engines.antt =====
-- The engines that verify and transcribe (src/server/orchestration/mock-engine.ts and adapters.ts).
use superscriber.Prelude.{
  Text, Option, some, none, ℕ, ◌-◌, List, [], ◌∷◌, ◌++◌, Bool, ◌&&◌, ◌||◌, ltb, leb, ◌===◌,
  if◌then◌else◌, units, non_empty, to_lower, includes, text_equal,
}
use superscriber.Domain.Models.{
  IntegrityState, TranscriptJobState, MediaKind, Recording, TranscriptSegment,
  integrity_state_equal, job_state_equal, media_kind_equal,
}
use superscriber.Workflow.State.{IngestionSession, TranscriptJob, DiarizationStatus, value_or}
use superscriber.Workflow.Create.{mock_engine_id}
use superscriber.Workflow.Uploads.{webhook_engine_id}
use superscriber.Orchestration.Queue.Jobs.{internal_worker_id}
use superscriber.Orchestration.Transcripts.{build_mock_transcript}

pub record VerificationStep : Type 0 where
  pub next_state : IntegrityState
  pub summary : Text
  pub last_error : Option Text

pub record TranscriptStep : Type 0 where
  pub next_state : TranscriptJobState
  pub progress_percent : ℕ
  pub eta_seconds : Option ℕ
  pub diarization_status : DiarizationStatus
  pub summary : Text
  pub last_error : Option Text
  pub output_segments : Option (List TranscriptSegment)

pub record Engine : Type 0 where
  pub id : Text
  pub step_verification : Recording → IngestionSession → ℕ → Option VerificationStep
  pub step_transcript_job : Recording → IngestionSession → TranscriptJob → ℕ → Option TranscriptStep

-- `Math.max(0, nowMs - timestamp)`, or 0 without a timestamp.
unfoldable pub age_ms : Option ℕ → ℕ → ℕ
age_ms none now = 0
age_ms (some at) now = now - at

-- `list.filter(Boolean).join(" ")`.
unfoldable pub join_words : List (Option Text) → Text
join_words [] = []
join_words (none ∷ rest) = join_words rest
join_words (some w ∷ rest) =
    let others = join_words rest in
    if non_empty w then if non_empty others then w ++ (32 ∷ others) else w else others

unfoldable pub should_fail_verification : Recording → Bool
unfolding join_words to_lower includes
should_fail_verification r =
    let haystacks =
      to_lower (join_words (some r.title ∷ r.original_file_name ∷ r.mime_type ∷ [])) in
    includes haystacks (units "corrupt") || includes haystacks (units "broken")

unfoldable pub rejected_summary : Text
rejected_summary = units "Verification failed. The recording looks corrupt or unsupported."

unfoldable pub rejected_error : Text
rejected_error = units "Mock verification rejected this media payload."

unfoldable pub still_verifying : Text
still_verifying =
    units "Governed verification is still running. No local copies are being persisted."

unfoldable pub verified_summary : Text
verified_summary =
    units "Recording verified server-side. Raw media remains inside the managed environment."

abbrev verification : IntegrityState → Text → Option Text → VerificationStep
verification next summary error = record {
  next_state = next;
  summary = summary;
  last_error = error;
}

unfoldable pub mock_step_verification : Recording → IngestionSession → ℕ → Option VerificationStep
unfolding should_fail_verification age_ms
mock_step_verification r session now =
    if session.state === IntegrityState.verifying
    then if should_fail_verification r
      then some
          (verification IntegrityState.verification_failed rejected_summary (some rejected_error))
      else if ltb (age_ms (some (value_or session.started_at session.created_at)) now) 1500
      then some (verification IntegrityState.verifying still_verifying none)
      else some (verification IntegrityState.verified verified_summary none)
    else none

abbrev transcript_step :
    TranscriptJobState
    → ℕ
    → ℕ
    → DiarizationStatus
    → Text
    → Option (List TranscriptSegment)
    → TranscriptStep
transcript_step next progress eta diarization summary segments = record {
  next_state = next;
  progress_percent = progress;
  eta_seconds = some eta;
  diarization_status = diarization;
  summary = summary;
  last_error = none;
  output_segments = segments;
}

unfoldable pub accepted_summary : Text
accepted_summary =
    units "Transcript job accepted by the canonical orchestration layer. Diarization requested."

unfoldable pub partial_summary : Text
partial_summary =
    units "Partial transcript is ready. Final diarization alignment is still being reconciled."

unfoldable pub ready_summary : Text
ready_summary = units "Transcript and diarization are ready for browser review."

unfoldable pub transcribing_summary : Text
transcribing_summary = units "Audio is being transcribed on the sovereign speech engine."

unfoldable pub finalized_summary : Text
finalized_summary = units "Transcript finalized after partial-result reconciliation."

unfoldable pub remains_summary : Text
remains_summary = units "Partial transcript remains available while diarization continues."

unfoldable pub supports_partial : Recording → Bool
supports_partial r = (r.language_hint === units "mixed") || (r.media_kind === MediaKind.video)

-- The steps of a job whose recording is verified. `started_at ?? updated_at ?? created_at` stops at
-- `updated_at`, which is never null.
unfoldable pub mock_job_step :
    Recording → TranscriptJob → ℕ → TranscriptJobState → Option TranscriptStep
unfolding age_ms build_mock_transcript supports_partial
mock_job_step r job now TranscriptJobState.queued = some (
    transcript_step TranscriptJobState.running 12 90 DiarizationStatus.pending accepted_summary
      none)
mock_job_step r job now TranscriptJobState.running =
    let elapsed = age_ms (some (value_or job.started_at job.updated_at)) now in
    if supports_partial r && leb 1500 elapsed
    then some (
        transcript_step TranscriptJobState.partial_result 68 24 DiarizationStatus.degraded
          partial_summary none)
    else if leb 2500 elapsed
    then some (
        transcript_step TranscriptJobState.completed 100 0 DiarizationStatus.available ready_summary
          (some (build_mock_transcript r)))
    else some (
        transcript_step TranscriptJobState.running 45 46 DiarizationStatus.pending
          transcribing_summary none)
mock_job_step r job now TranscriptJobState.partial_result =
    if leb 3000 (age_ms (some (value_or job.started_at job.updated_at)) now)
    then some (
        transcript_step TranscriptJobState.completed 100 0
          (if supports_partial r then DiarizationStatus.degraded else DiarizationStatus.available)
          finalized_summary (some (build_mock_transcript r)))
    else some (
        transcript_step TranscriptJobState.partial_result 76 18 DiarizationStatus.degraded
          remains_summary none)
mock_job_step r job now _ = none

unfoldable pub mock_step_transcript_job :
    Recording → IngestionSession → TranscriptJob → ℕ → Option TranscriptStep
unfolding mock_job_step
mock_step_transcript_job r session job now =
    if session.state === IntegrityState.verified then mock_job_step r job now job.state else none

unfoldable pub mock_governed_engine : Engine
unfolding mock_step_verification mock_step_transcript_job
mock_governed_engine = record {
  id = mock_engine_id;
  step_verification = mock_step_verification;
  step_transcript_job = mock_step_transcript_job;
}

-- An engine that reports by itself takes no steps here.
abbrev reporting_engine : Text → Engine
reporting_engine id = record {
  id = id;
  step_verification = λ r session now. none;
  step_transcript_job = λ r session job now. none;
}

unfoldable pub internal_python_worker : Engine
internal_python_worker = reporting_engine internal_worker_id

unfoldable pub external_webhook_engine : Engine
external_webhook_engine = reporting_engine webhook_engine_id

-- The engine of an id; an id that is empty or unknown gives the mock.
unfoldable pub resolve_adapter : Text → Engine
unfolding internal_python_worker external_webhook_engine mock_governed_engine
resolve_adapter id =
    if id === internal_worker_id
    then internal_python_worker
    else if id === webhook_engine_id
    then external_webhook_engine
    else mock_governed_engine
