-- ===== src/Orchestration/Queue/Claim.antt =====
-- `claimAvailableTranscriptJob`: one immediate transaction of SQL.
use superscriber.Prelude.{
  Text, Option, some, none, ℕ, suc, ◌+◌, ◌-◌, ◌&&◌, ◌||◌, Bool, true, false, not, leb, List, [],
  ◌∷◌, ◌++◌, row, update_row, update_where, units, ◌===◌, if◌then◌else◌, text_equal,
}
use mathlib.Core.Option
use superscriber.Domain.Models.{TranscriptJobState, AuditEventType, Recording, job_state_equal}
use superscriber.Domain.Errors.{Result, ok, ◌>>=◌}
use superscriber.Casefile.Store.{recording_keyed}
use superscriber.Casefile.Store.Audit.{system_actor_context}
use superscriber.Workflow.State.{
  AppState, TranscriptJob, session_keyed, job_keyed, value_or, or_else, add_audit_event,
}
use superscriber.Workflow.Store.{Persisted}
use superscriber.Orchestration.Queue.Jobs.{
  JobClaim, internal_worker_id, default_stale_heartbeat_ms, build_claim, is_claimable, is_ready,
}

pub record Candidate : Type 0 where
  pub job : TranscriptJob
  pub recording : Recording

-- `order by case state when 'queued' then 0 else 1 end, updated_at asc`, and the first of equals.
unfoldable pub goes_before : Candidate → Candidate → Bool
goes_before a b =
    if a.job.state === TranscriptJobState.queued
    then not (b.job.state === TranscriptJobState.queued)
      || leb a.recording.updated_at b.recording.updated_at
    else not (b.job.state === TranscriptJobState.queued)
      && leb a.recording.updated_at b.recording.updated_at

abbrev pub better : Candidate → Option Candidate → Option Candidate
better a none = some a
better a (some b) = if goes_before a b then some a else some b

-- A job whose recording is there and ready, and that may be claimed.
abbrev pub considered : AppState → ℕ → TranscriptJob → Option Recording → Option Candidate
considered s cutoff job none = none
considered s cutoff job (some r) =
    if is_ready s r && is_claimable cutoff job
    then some (record { job = job; recording = r })
    else none

abbrev pub first_of : Option Candidate → Option Candidate → Option Candidate
first_of none others = others
first_of (some a) others = better a others

-- The first row of the query.
unfoldable pub select_candidate : AppState → ℕ → List TranscriptJob → Option Candidate
unfolding is_claimable is_ready goes_before
select_candidate s cutoff [] = none
select_candidate s cutoff (job ∷ jobs) =
    first_of (considered s cutoff job (row job.recording_id s.recordings))
      (select_candidate s cutoff jobs)

unfoldable pub claimed_job : Text → ℕ → TranscriptJob → TranscriptJob
claimed_job worker_id now job = record job {
  state = TranscriptJobState.running;
  adapter = internal_worker_id;
  claimed_by_worker_id = some worker_id;
  attempt_count = job.attempt_count + 1;
  updated_at = now;
  started_at = or_else job.started_at (some now);
  last_heartbeat_at = some now;
  eta_seconds = or_else job.eta_seconds (some 90);
  progress_percent = none;
  transcribed_until_ms = none;
  audio_duration_ms = none;
  segments_seen = none;
  last_error = none;
  last_error_kind = none;
  last_error_technical = none;
}

unfoldable pub claim_detail : Bool → Text → Text
claim_detail true worker_id =
    units "Transcript job claimed by internal worker " ++ (worker_id ++ units ".")
claim_detail false worker_id =
    units "Transcript job reclaimed by internal worker "
    ++ (worker_id ++ units " after a stale heartbeat.")

-- The writes of the transaction, with the id of its audit event.
unfoldable pub write_claim : Text → ℕ → ℕ → Candidate → Persisted → Persisted
unfolding claimed_job is_claimable add_audit_event claim_detail
write_claim worker_id cutoff now c p = record {
  app =
      add_audit_event c.recording.workspace_id c.recording.id system_actor_context
        AuditEventType.transcription_started
        (claim_detail (c.job.state === TranscriptJobState.queued) worker_id) now
        (record p.app {
          transcript_jobs =
              update_where (λ j. (j.id === c.job.id) && is_claimable cutoff j)
                (claimed_job worker_id now) p.app.transcript_jobs;
          recordings =
              update_row c.recording.id
                (λ r. record r {
                  transcript_job_state = TranscriptJobState.running;
                  updated_at = now;
                })
                p.app.recordings;
        });
  state_version = Option.map (λ v. suc v) p.state_version;
}

abbrev pub claim_candidate :
    Text → ℕ → ℕ → Option Candidate → Persisted → Result (Option JobClaim) × Persisted
claim_candidate worker_id cutoff now none p = (ok none, p)
claim_candidate worker_id cutoff now (some c) p =
    let q = write_claim worker_id cutoff now c p in
    (build_claim q.app worker_id c.job.id >>= λ claim. ok (some claim), q)

-- A cutoff before the epoch makes no heartbeat stale, as 0 does. The guarded update changes exactly
-- the candidate's row, which passed the same test in the same transaction.
unfoldable pub claim_available_transcript_job :
    Text → Option ℕ → ℕ → Persisted → Result (Option JobClaim) × Persisted
unfolding select_candidate write_claim build_claim
claim_available_transcript_job worker_id stale_after_ms now p =
    let cutoff = now - value_or stale_after_ms default_stale_heartbeat_ms in
    claim_candidate worker_id cutoff now (select_candidate p.app cutoff p.app.transcript_jobs) p
