-- ===== src/Domain/Stage.antt =====
-- The stage of a casefile and the rules on reasons and notes (src/domain/casefile.ts), with the
-- bucket of the work inbox (src/domain/workflow.ts).
pub mod Laws
use superscriber.Prelude.{
  Text, Equal, Option, none, some, Bool, ◌||◌, ◌&&◌, ◌===◌, truthy, if◌then◌else◌, ltb, length,
  trim, units, is,
}
use superscriber.Domain.Models
use superscriber.Domain.Models.{
  IntegrityState, TranscriptJobState, Recording, WorkspaceBucket, integrity_state_equal,
  job_state_equal,
}
use superscriber.Domain.Errors
use superscriber.Domain.Errors.{CasefileWorkflowStage, Result, ok, err, field_failure}

pub data OriginDecision : Type 0 where
  changes_requested reopened : OriginDecision

abbrev pub OriginDecision-discrete : Discrete OriginDecision
OriginDecision-discrete = hlevel

instance abbrev pub origin_equal : Equal OriginDecision
origin_equal = record { same = OriginDecision-discrete }

pub record WorkflowStageInput : Type 0 where
  pub integrity_state : IntegrityState
  pub transcript_job_state : TranscriptJobState
  pub pending_revision_id : Option Text
  pub approved_revision_id : Option Text
  pub current_revision_id : Option Text
  pub origin_decision : Option OriginDecision

unfoldable pub validate_governed_reason : Text → Result Text
unfolding trim
validate_governed_reason value =
    let reason = trim value in
    if ltb (length reason) 10 || ltb 500 (length reason)
    then err (field_failure (units "reason"))
    else ok reason

unfoldable pub validate_approval_note : Text → Result Text
validate_approval_note value =
    let note = trim value in
    if ltb 500 (length note) then err (field_failure (units "note")) else ok note

-- The test that opens both classifications.
unfoldable pub needs_attention : IntegrityState → TranscriptJobState → Bool
needs_attention s j =
    s === IntegrityState.capturing
    || s === IntegrityState.uploading
    || s === IntegrityState.interrupted
    || s === IntegrityState.verification_failed
    || j === TranscriptJobState.failed
    || j === TranscriptJobState.cancelled

unfoldable pub is_transcribing : TranscriptJobState → Bool
is_transcribing j =
    j === TranscriptJobState.queued
    || j === TranscriptJobState.running
    || j === TranscriptJobState.partial_result

-- `x === y` on two ids that may be null.
abbrev pub same_id : Option Text → Option Text → Bool
same_id none none = Bool.true
same_id none (some b) = Bool.false
same_id (some a) b = is b a

-- `decision === d`, where the decision may be null.
abbrev pub is_origin : Option OriginDecision → OriginDecision → Bool
is_origin none d = Bool.false
is_origin (some c) d = c === d

unfoldable pub derive_workflow_stage : WorkflowStageInput → CasefileWorkflowStage
unfolding needs_attention is_transcribing
derive_workflow_stage i =
    if needs_attention i.integrity_state i.transcript_job_state
    then CasefileWorkflowStage.needs_ingest_attention
    else if i.integrity_state === IntegrityState.verifying
    then CasefileWorkflowStage.verifying
    else if is_transcribing i.transcript_job_state
    then CasefileWorkflowStage.transcribing
    else if truthy i.pending_revision_id
    then CasefileWorkflowStage.pending_approval
    else if truthy i.approved_revision_id && same_id i.current_revision_id i.approved_revision_id
    then CasefileWorkflowStage.approved
    else if is_origin i.origin_decision OriginDecision.changes_requested
    then CasefileWorkflowStage.changes_requested
    else if is_origin i.origin_decision OriginDecision.reopened
    then CasefileWorkflowStage.reopened
    else CasefileWorkflowStage.draft_review

unfoldable pub bucket_recording : Recording → WorkspaceBucket
unfolding needs_attention is_transcribing
bucket_recording r =
    if needs_attention r.integrity_state r.transcript_job_state
    then WorkspaceBucket.needs_ingest
    else if r.integrity_state === IntegrityState.verifying
    then WorkspaceBucket.verifying
    else if is_transcribing r.transcript_job_state
    then WorkspaceBucket.transcribing
    else if truthy r.pending_revision_id
    then WorkspaceBucket.pending_approval
    else if truthy r.approved_revision_id
    then WorkspaceBucket.approved
    else WorkspaceBucket.needs_review
