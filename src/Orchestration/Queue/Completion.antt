-- ===== src/Orchestration/Queue/Completion.antt =====
-- The draft of a completed job.
use superscriber.Prelude.{some, none, ℕ, suc, [], ◌∷◌, ◌++◌, ◌≡◌, ◌⊎◌, inl, inr, arith, ◌∙◌}
use superscriber.Domain.Models.{TranscriptRevision}
use superscriber.Domain.Errors.{ok, chain_ok}
use superscriber.Domain.Speakers.{normalize_speaker_labels}
use superscriber.Casefile.Commands.Rows.{last_version}
use superscriber.Casefile.Store.{recording_keyed, revision_keyed}
use superscriber.Workflow.State.{AppState, job_keyed, row_of, or_else, add_audit_event}
use superscriber.Orchestration.Queue.Jobs.{
  JobSnapshot, JobRefs, resolve_job_refs, assert_claim_owner,
}
use superscriber.Orchestration.Queue.Reports.{
  Completion, completed_job, complete_transcript_job, draft_or_new,
}
use superscriber.Orchestration.Queue.Ownership.{draft_or_new_ok}

-- The draft of a completion.
abbrev pub NamesDraft : Completion → AppState → AppState → JobSnapshot → Type 0
NamesDraft c s t snap =
    (refs : JobRefs) × (revision : TranscriptRevision) × (resolve_job_refs s c.job_id ≡ ok refs)
    × (snap.output_revision_id ≡ some revision.id)
    × (let old =
          or_else (row_of refs.job.output_revision_id refs.state.revisions)
            (row_of refs.recording.current_revision_id refs.state.revisions) in
        ((old ≡ some revision) × (t.revisions ≡ refs.state.revisions))
        ⊎ ((old ≡ none)
            × (t.revisions ≡ refs.state.revisions ++ revision ∷ [])
            × (revision.version ≡ suc (last_version refs.recording.id refs.state.revisions))
            × (normalize_speaker_labels c.segments ≡ ok revision.segments)))

-- A completion names one draft of the recording: the one that the job or the recording has, and then
-- no revision is added, or else a new one with the next version and the labels normalised.
pub complete_transcript_job_lem :
    (c : Completion) (now : ℕ) (s t : AppState) (snap : JobSnapshot)
    → complete_transcript_job c now s ≡ ok (snap, t)
    → NamesDraft c s t snap
unfolding complete_transcript_job completed_job add_audit_event
complete_transcript_job_lem c now s t snap e =
    let (refs, resolved, rest) = chain_ok (resolve_job_refs s c.job_id) e in
    let (u, own, last) = chain_ok (assert_claim_owner refs.job c.worker_id) rest in
    let old =
      or_else (row_of refs.job.output_revision_id refs.state.revisions)
        (row_of refs.recording.current_revision_id refs.state.revisions) in
    let (made, drafted, same) =
      chain_ok (draft_or_new old refs.recording.id c now refs.state) last in
    let (kept, cases) =
      draft_or_new_ok old refs.recording.id c now refs.state made.1 made.0 drafted in
    let revisions : t.revisions ≡ made.1.revisions = ground (arith, same) in
    (
      refs,
      made.0,
      resolved,
      ground (arith, same),
      elim cases [
        | inl (was, stays) ↦ inl (was, revisions ∙ stays)
        | inr (absent, added, version, labels) ↦ inr (absent, revisions ∙ added, version, labels)
      ],
    )
