-- ===== src/Examples/Granted.antt =====
-- That the decisions go through, on the example.
use superscriber.Prelude.{
  Text, ℕ, suc, Option, none, some, Bool, true, false, ◌≡◌, refl, List, [], ◌∷◌, any, units,
  has_key, ap, arith, ◌===◌, ◌==◌, ◌&&◌, text_equal,
}
use superscriber.Domain.Models.{
  Principal, Recording, RecordingAssignment, TranscriptRevision, AssignmentRole,
}
use superscriber.Domain.Errors.{ok}
use superscriber.Casefile.Capabilities.{
  CasefileAccessGrant, active_approver, active_reviewer, completed_approver,
}
use superscriber.Casefile.Store.{World, approval_keyed, audit_keyed, revision_keyed}
use superscriber.Casefile.Store.Audit.{actor_context_for_principal}
use superscriber.Casefile.Commands.State.{LoadedCommandState, command_actor, require_expected_id}
use superscriber.Casefile.Commands.Load.{load_command_state}
use superscriber.Casefile.Commands.Rows.{with_pointers, next_revision_version}
use superscriber.Casefile.Commands.Decisions.{
  DecisionInput, approve_revision_command, check_approve,
}
use superscriber.Casefile.Commands.Decisions.Recorded.{FreshEvents}
use superscriber.Casefile.Commands.Decisions.GrantedApproval.{approve_revision_command-Succeeds}
use superscriber.Casefile.Access.{complete_assignment}
use superscriber.Casefile.Commands.Drafts.{as_submitted}
use superscriber.Examples.{approver, casefile, workspace, decide_on}
use superscriber.Examples.Casefiles.{awaiting_decision, submitted}

abbrev on_r1 : DecisionInput
on_r1 = decide_on (units "r1") none

abbrev reason : Text
reason = units "Read it in full."

-- What a command of an account with an assignment loads.
abbrev loaded_state :
    Principal
    → AssignmentRole
    → CasefileAccessGrant
    → Recording
    → TranscriptRevision
    → LoadedCommandState
loaded_state p role grant r v = record {
  workspace = workspace;
  recording = r;
  revision = some v;
  grant = grant;
  actor = command_actor p role (actor_context_for_principal p);
}

abbrev pending_row : Recording
pending_row = with_pointers (some (units "r1")) (some (units "r1")) none 5 casefile

abbrev for_approver : LoadedCommandState
for_approver =
    loaded_state approver AssignmentRole.approver (active_approver (units "rec") (units "a2"))
      pending_row submitted

approver_loads :
    load_command_state approver (units "rec") none AssignmentRole.approver 9 awaiting_decision
    ≡ (ok for_approver, awaiting_decision)
unfolding load_command_state superscriber.Prelude.trim superscriber.Prelude.Text-discrete
    superscriber.Casefile.Access.resolve_casefile_access
    superscriber.Casefile.Access.find_active_assignment
    superscriber.Casefile.ActionMode.resolve_actor_context
    superscriber.Casefile.Store.Audit.actor_context_for_principal
    superscriber.Casefile.Capabilities.derive_casefile_capabilities
    superscriber.Casefile.Commands.Rows.next_revision_version
    superscriber.Casefile.Commands.Drafts.submit_revision_command
approver_loads = refl

may_approve :
    check_approve for_approver approver on_r1 awaiting_decision
    ≡ (ok (submitted, reason), awaiting_decision)
unfolding check_approve superscriber.Prelude.trim superscriber.Prelude.Text-discrete
    superscriber.Casefile.Access.resolve_casefile_access
    superscriber.Casefile.Access.find_active_assignment
    superscriber.Casefile.ActionMode.resolve_actor_context
    superscriber.Casefile.Store.Audit.actor_context_for_principal
    superscriber.Casefile.Capabilities.derive_casefile_capabilities
    superscriber.Casefile.Commands.Rows.next_revision_version
    superscriber.Casefile.Commands.Drafts.submit_revision_command
may_approve = refl

pending_named : require_expected_id (units "r1") (units "expectedPendingRevisionId") ≡ ok tt
unfolding require_expected_id superscriber.Prelude.trim superscriber.Prelude.Text-discrete
    superscriber.Casefile.Access.resolve_casefile_access
    superscriber.Casefile.Access.find_active_assignment
    superscriber.Casefile.ActionMode.resolve_actor_context
    superscriber.Casefile.Store.Audit.actor_context_for_principal
    superscriber.Casefile.Capabilities.derive_casefile_capabilities
    superscriber.Casefile.Commands.Rows.next_revision_version
    superscriber.Casefile.Commands.Drafts.submit_revision_command
pending_named = refl

fresh_events : FreshEvents awaiting_decision
unfolding superscriber.Prelude.trim superscriber.Prelude.Text-discrete
    superscriber.Casefile.Access.resolve_casefile_access
    superscriber.Casefile.Access.find_active_assignment
    superscriber.Casefile.ActionMode.resolve_actor_context
    superscriber.Casefile.Store.Audit.actor_context_for_principal
    superscriber.Casefile.Capabilities.derive_casefile_capabilities
    superscriber.Casefile.Commands.Rows.next_revision_version
    superscriber.Casefile.Commands.Drafts.submit_revision_command
fresh_events = record { unused = λ n. ground arith; distinct = λ i j e. ground (arith, e) }

unused_approval : has_key (awaiting_decision.uuids 0) awaiting_decision.approvals ≡ false
unfolding superscriber.Prelude.trim superscriber.Prelude.Text-discrete
    superscriber.Casefile.Access.resolve_casefile_access
    superscriber.Casefile.Access.find_active_assignment
    superscriber.Casefile.ActionMode.resolve_actor_context
    superscriber.Casefile.Store.Audit.actor_context_for_principal
    superscriber.Casefile.Capabilities.derive_casefile_capabilities
    superscriber.Casefile.Commands.Rows.next_revision_version
    superscriber.Casefile.Commands.Drafts.submit_revision_command
unused_approval = refl

pending_version : awaiting_decision.state_version ≡ some 8
unfolding superscriber.Prelude.trim superscriber.Prelude.Text-discrete
    superscriber.Casefile.Access.resolve_casefile_access
    superscriber.Casefile.Access.find_active_assignment
    superscriber.Casefile.ActionMode.resolve_actor_context
    superscriber.Casefile.Store.Audit.actor_context_for_principal
    superscriber.Casefile.Capabilities.derive_casefile_capabilities
    superscriber.Casefile.Commands.Rows.next_revision_version
    superscriber.Casefile.Commands.Drafts.submit_revision_command
pending_version = refl

approve_revision_command-Succeeds_example :
    (r : TranscriptRevision × List RecordingAssignment) × (w' : World) × (approve_revision_command
        approver on_r1 9 awaiting_decision
      ≡ (ok r, w'))
approve_revision_command-Succeeds_example =
    approve_revision_command-Succeeds approver on_r1 9 8 awaiting_decision for_approver submitted
      reason pending_named approver_loads may_approve unused_approval fresh_events pending_version
