-- ===== src/Domain/Stage/Laws.antt =====
-- What the stage of a casefile says (src/domain/casefile.ts, src/domain/workflow.ts).
use superscriber.Prelude.{Text, Option, true, ◌≡◌, arith, length, trim, ◌≤◌, truthy}
use superscriber.Domain.Models.{Recording, WorkspaceBucket}
use superscriber.Domain.Errors.{CasefileWorkflowStage, ok}
use superscriber.Domain.Stage.{
  OriginDecision, WorkflowStageInput, derive_workflow_stage, bucket_recording,
  validate_governed_reason, same_id,
}

-- The part of a recording that its stage reads.
abbrev pub stage_input : Recording → Option OriginDecision → WorkflowStageInput
stage_input r d = record {
  integrity_state = r.integrity_state;
  transcript_job_state = r.transcript_job_state;
  pending_revision_id = r.pending_revision_id;
  approved_revision_id = r.approved_revision_id;
  current_revision_id = r.current_revision_id;
  origin_decision = d;
}

-- The inbox bucket that a stage stands for.
abbrev pub bucket_of_stage : CasefileWorkflowStage → WorkspaceBucket
bucket_of_stage CasefileWorkflowStage.needs_ingest_attention = WorkspaceBucket.needs_ingest
bucket_of_stage CasefileWorkflowStage.verifying = WorkspaceBucket.verifying
bucket_of_stage CasefileWorkflowStage.transcribing = WorkspaceBucket.transcribing
bucket_of_stage CasefileWorkflowStage.pending_approval = WorkspaceBucket.pending_approval
bucket_of_stage CasefileWorkflowStage.approved = WorkspaceBucket.approved
bucket_of_stage _ = WorkspaceBucket.needs_review

-- Where an approved revision, if there is one, is the current one, the bucket of a recording is
-- that of its stage, whatever the decision that its draft comes from.
pub bucket_recording-stage :
    (r : Recording) (d : Option OriginDecision)
    → (truthy r.approved_revision_id ≡ true
        → same_id r.current_revision_id r.approved_revision_id ≡ true)
    → bucket_recording r ≡ bucket_of_stage (derive_workflow_stage (stage_input r d))
unfolding bucket_recording derive_workflow_stage
bucket_recording-stage r d h = ground arith

-- A reason is accepted exactly when its trimmed text has from 10 to 500 units, and the accepted
-- reason is the trimmed text.
pub validate_governed_reason_lem :
    (v r : Text)
    → (validate_governed_reason v ≡ ok r → (r ≡ trim v) × (10 ≤ length r) × (length r ≤ 500))
      × (r ≡ trim v → 10 ≤ length r → length r ≤ 500 → validate_governed_reason v ≡ ok r)
unfolding validate_governed_reason
validate_governed_reason_lem v r = (λ h. ground arith, λ e a b. ground arith)
