-- ===== src/Casefile/Commands/Decisions.antt =====
-- Withdrawing a submission, deciding on it, and reopening an approved transcript
-- (`withdrawRevisionCommand`, `requestChangesCommand`, `approveRevisionCommand` and
-- `reopenRevisionCommand` of src/server/casefile/commands.ts).
pub mod Replacement
pub mod Withdraw
pub mod RequestChanges
pub mod Approve
pub mod Reopen
pub mod Granted
pub mod GrantedPending
pub mod Recorded
pub mod GrantedApproval
use superscriber.Prelude.{
  Text, ℕ, Option, none, some, Bool, true, false, not, List, [], map, ◌===◌, text_equal, ◌&&◌, is,
  units, trim, non_empty, if◌then◌else◌,
}
use superscriber.Domain.Models.{
  UserRole, AssignmentRole, ApprovalState, Principal, Recording, RecordingAssignment,
  TranscriptRevision, TranscriptRevisionState, TranscriptSegmentEdit, AuditEventType,
  user_role_equal,
}
use superscriber.Domain.Errors.{
  Result, ok, err, throw_if, failure, access_denied, self_approval_forbidden,
}
use superscriber.Domain.Stage.{validate_governed_reason, validate_approval_note}
use superscriber.Casefile.Access.{complete_active_assignments_for_approval}
use superscriber.Casefile.Store.{World, withdrawn, changes_requested, approved, reopened}
use superscriber.Casefile.Store.Exec.{
  Exec, ◌>>=◌, ◌>>◌, pure, query, lift, modify, run_governed_transaction,
}
use superscriber.Casefile.Store.Audit.{append_revision, insert_audit_event}
use superscriber.Casefile.Commands.State.{
  CommandActor, LoadedCommandState, require_expected_id, current_revision_or_throw,
  assert_pending_decision_state, assert_approved_decision_state,
}
use superscriber.Casefile.Commands.Load.{load_command_state}
use superscriber.Casefile.Commands.Authority.{
  require_withdraw_authority, require_approve_authority, require_request_changes_authority,
  require_reopen_authority,
}
use superscriber.Casefile.Commands.Rows.{
  context_of, insert_decision_row, clone_transition_draft, update_revision, update_guarded,
  is_still_pending, is_still_approved, with_state, with_pointers,
}

-- The inputs of the four commands: the id that the caller saw pending or approved, and the reason or
-- the note.
pub record DecisionInput : Type 0 where
  pub recording_id : Text
  pub expected_revision_id : Text
  pub reason : Text
  pub action_mode_id : Option Text

abbrev pub is_admin_actor : CommandActor → Bool
is_admin_actor a = a.actor_role === UserRole.admin

-- `pending.submittedByUserId !== userId && actorRole !== "admin"`, after the test that it is known.
unfoldable pub check_submitter : TranscriptRevision → CommandActor → Result (Unit {0})
check_submitter pending actor = elim pending.submitted_by_user_id [
  | none ↦ err (failure access_denied)
  | some [] ↦ err (failure access_denied)
  | some id ↦
      throw_if (not (id === actor.user_id) && not (is_admin_actor actor)) (failure access_denied)
]

unfoldable pub veto_self_decision : TranscriptRevision → CommandActor → Result (Unit {0})
veto_self_decision pending actor =
    throw_if (is pending.submitted_by_user_id actor.user_id && not (is_admin_actor actor))
      (failure self_approval_forbidden)

unfoldable pub check_withdraw : LoadedCommandState → Principal → Text → Exec TranscriptRevision
unfolding require_withdraw_authority current_revision_or_throw assert_pending_decision_state
    check_submitter
check_withdraw state p expected = do
  lift (require_withdraw_authority state p)
  pending ← lift (current_revision_or_throw state.recording state.revision)
  query (λ db. assert_pending_decision_state db state.recording pending expected)
  lift (check_submitter pending state.actor)
  pure pending

-- The submitter, where another account acts.
abbrev pub overridden_submitter : TranscriptRevision → CommandActor → Option Text
overridden_submitter pending actor =
    if is pending.submitted_by_user_id actor.user_id then none else pending.submitted_by_user_id

unfoldable pub withdraw_revision_body : Principal → DecisionInput → ℕ → Exec TranscriptRevision
unfolding load_command_state check_withdraw validate_governed_reason clone_transition_draft
    update_guarded append_revision insert_decision_row insert_audit_event
withdraw_revision_body p input now = do
  state ← load_command_state p input.recording_id input.action_mode_id AssignmentRole.reviewer now
  pending ← check_withdraw state p input.expected_revision_id
  reason ← lift (validate_governed_reason input.reason)
  draft ← clone_transition_draft pending state.actor now
  update_guarded state.recording.id input.expected_revision_id
      (is_still_pending input.expected_revision_id)
      (λ r. with_pointers (some draft.id) none r.approved_revision_id now r)
  modify (update_revision pending.id (with_state TranscriptRevisionState.withdrawn))
  append_revision draft
  insert_decision_row state.recording.id pending.id ApprovalState.withdrawn state.actor now
      (some reason)
  event ←
      insert_audit_event state.workspace.id (some state.recording.id)
        (some (context_of state.actor)) AuditEventType.revision_withdrawn
        (withdrawn pending.id draft.id reason (overridden_submitter pending state.actor)) now
  pure draft

unfoldable pub withdraw_revision_command : Principal → DecisionInput → ℕ → Exec TranscriptRevision
unfolding require_expected_id withdraw_revision_body run_governed_transaction
withdraw_revision_command p input now = do
  lift (require_expected_id input.expected_revision_id (units "expectedPendingRevisionId"))
  run_governed_transaction (withdraw_revision_body p input) now

unfoldable pub check_request_changes :
    LoadedCommandState → Principal → DecisionInput → Exec (TranscriptRevision × Text)
unfolding require_request_changes_authority current_revision_or_throw assert_pending_decision_state
    validate_governed_reason veto_self_decision
check_request_changes state p input = do
  lift (require_request_changes_authority state p)
  pending ← lift (current_revision_or_throw state.recording state.revision)
  query (λ db. assert_pending_decision_state db state.recording pending input.expected_revision_id)
  reason ← lift (validate_governed_reason input.reason)
  lift (veto_self_decision pending state.actor)
  pure (pending, reason)

unfoldable pub request_changes_body : Principal → DecisionInput → ℕ → Exec TranscriptRevision
unfolding load_command_state check_request_changes clone_transition_draft update_guarded
    append_revision insert_decision_row insert_audit_event
request_changes_body p input now = do
  state ← load_command_state p input.recording_id input.action_mode_id AssignmentRole.approver now
  checked ← check_request_changes state p input
  draft ← clone_transition_draft checked.0 state.actor now
  update_guarded state.recording.id input.expected_revision_id
      (is_still_pending input.expected_revision_id)
      (λ r. with_pointers (some draft.id) none r.approved_revision_id now r)
  modify (update_revision checked.0.id (with_state TranscriptRevisionState.changes_requested))
  append_revision draft
  insert_decision_row state.recording.id checked.0.id ApprovalState.changes_requested state.actor
      now (some checked.1)
  event ←
      insert_audit_event state.workspace.id (some state.recording.id)
        (some (context_of state.actor)) AuditEventType.approval_changes_requested
        (changes_requested checked.0.id draft.id checked.1 checked.0.submitted_by_user_id) now
  pure draft

unfoldable pub request_changes_command : Principal → DecisionInput → ℕ → Exec TranscriptRevision
unfolding require_expected_id request_changes_body run_governed_transaction
request_changes_command p input now = do
  lift (require_expected_id input.expected_revision_id (units "expectedPendingRevisionId"))
  run_governed_transaction (request_changes_body p input) now

unfoldable pub check_approve :
    LoadedCommandState → Principal → DecisionInput → Exec (TranscriptRevision × Text)
unfolding require_approve_authority current_revision_or_throw assert_pending_decision_state
    validate_approval_note veto_self_decision
check_approve state p input = do
  lift (require_approve_authority state p)
  pending ← lift (current_revision_or_throw state.recording state.revision)
  query (λ db. assert_pending_decision_state db state.recording pending input.expected_revision_id)
  note ← lift (validate_approval_note input.reason)
  lift (veto_self_decision pending state.actor)
  pure (pending, note)

abbrev pub as_approved : ℕ → TranscriptRevision → TranscriptRevision
as_approved now r = record r { state = TranscriptRevisionState.approved; approved_at = some now }

abbrev pub note_or_null : Text → Option Text
note_or_null note = if non_empty note then some note else none

unfoldable pub approve_revision_body :
    Principal → DecisionInput → ℕ → Exec (TranscriptRevision × List RecordingAssignment)
unfolding load_command_state check_approve update_guarded insert_decision_row
    complete_active_assignments_for_approval insert_audit_event
approve_revision_body p input now = do
  state ← load_command_state p input.recording_id input.action_mode_id AssignmentRole.approver now
  checked ← check_approve state p input
  update_guarded state.recording.id input.expected_revision_id
      (is_still_pending input.expected_revision_id)
      (with_pointers (some checked.0.id) none (some checked.0.id) now)
  modify (update_revision checked.0.id (as_approved now))
  insert_decision_row state.recording.id checked.0.id ApprovalState.approved state.actor now
      (note_or_null checked.1)
  completed ←
      complete_active_assignments_for_approval state.recording.id checked.0.id
        (context_of state.actor) now
  event ←
      insert_audit_event state.workspace.id (some state.recording.id)
        (some (context_of state.actor)) AuditEventType.approval_approved
        (approved checked.0.id checked.1 (map (λ a. a.id) completed)) now
  pure (as_approved now checked.0, completed)

unfoldable pub approve_revision_command :
    Principal → DecisionInput → ℕ → Exec (TranscriptRevision × List RecordingAssignment)
unfolding require_expected_id approve_revision_body run_governed_transaction
approve_revision_command p input now = do
  lift (require_expected_id input.expected_revision_id (units "expectedPendingRevisionId"))
  run_governed_transaction (approve_revision_body p input) now

unfoldable pub check_reopen :
    LoadedCommandState → Principal → DecisionInput → Exec (TranscriptRevision × Text)
unfolding require_reopen_authority current_revision_or_throw assert_approved_decision_state
    validate_governed_reason
check_reopen state p input = do
  lift (require_reopen_authority state p)
  current ← lift (current_revision_or_throw state.recording state.revision)
  query (λ db. assert_approved_decision_state db state.recording current input.expected_revision_id)
  reason ← lift (validate_governed_reason input.reason)
  pure (current, reason)

unfoldable pub reopen_revision_body : Principal → DecisionInput → ℕ → Exec TranscriptRevision
unfolding load_command_state check_reopen clone_transition_draft update_guarded append_revision
    insert_decision_row insert_audit_event
reopen_revision_body p input now = do
  state ← load_command_state p input.recording_id input.action_mode_id AssignmentRole.approver now
  checked ← check_reopen state p input
  draft ← clone_transition_draft checked.0 state.actor now
  update_guarded state.recording.id input.expected_revision_id
      (is_still_approved input.expected_revision_id) (with_pointers (some draft.id) none none now)
  append_revision draft
  insert_decision_row state.recording.id checked.0.id ApprovalState.reopened state.actor now
      (some checked.1)
  event ←
      insert_audit_event state.workspace.id (some state.recording.id)
        (some (context_of state.actor)) AuditEventType.approval_reopened
        (reopened checked.0.id draft.id checked.1) now
  pure draft

unfoldable pub reopen_revision_command : Principal → DecisionInput → ℕ → Exec TranscriptRevision
unfolding require_expected_id reopen_revision_body run_governed_transaction
reopen_revision_command p input now = do
  lift (require_expected_id input.expected_revision_id (units "expectedApprovedRevisionId"))
  run_governed_transaction (reopen_revision_body p input) now
