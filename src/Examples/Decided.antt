-- ===== src/Examples/Decided.antt =====
-- Deciding on a submission, on the example.
use superscriber.Prelude.{
  Text, ℕ, Option, none, some, true, false, ◌≡◌, refl, List, [], ◌∷◌, ◌++◌, row, update_row, units,
  ◌⊎◌, is, text_equal,
}
use superscriber.Domain.Models.{TranscriptRevision, UserRole, RecordingAssignment}
use superscriber.Domain.Errors.{ok, err, failure, action_mode_forbidden}
use superscriber.Casefile.Store.{World, recording_keyed, revision_keyed}
use superscriber.Casefile.Commands.Phases.{drafting, awaiting, closed, HasPhase}
use superscriber.Casefile.Commands.Rows.{next_revision_version, with_state}
use superscriber.Casefile.Commands.Decisions.{as_approved, approve_revision_command}
use superscriber.Casefile.Commands.Decisions.Approve.{
  approve_revision_command_lem, approve_revision_command-HasPhase,
}
use superscriber.Casefile.Commands.Refinement.{
  submitting, approving, saving, perform, Command, Requests, accepted, stop, EndsInApproval,
  perform-EndsInApproval, Moves, perform_ok, perform_err,
}
use superscriber.Examples.{
  reviewer, approver, administrator, start, first_draft, submit_input, edit_input, decide_on,
  value_or,
}
use superscriber.Casefile.Commands.Drafts.Submit.{submit_revision_command-HasPhase}
use superscriber.Examples.Casefiles.{awaiting_decision, submitted, submit_run, start-HasPhase}

abbrev r1 : Text
r1 = units "r1"

-- The submission, as a phase.
awaiting-HasPhase : HasPhase awaiting_decision.db (units "rec") (awaiting r1)
unfolding superscriber.Casefile.Commands.Drafts.submit_revision_command superscriber.Prelude.trim
    superscriber.Prelude.Text-discrete superscriber.Casefile.Access.resolve_casefile_access
    superscriber.Casefile.Access.find_active_assignment
    superscriber.Casefile.ActionMode.resolve_actor_context
    superscriber.Casefile.Store.Audit.actor_context_for_principal
    superscriber.Casefile.Capabilities.derive_casefile_capabilities
    superscriber.Casefile.Commands.Rows.next_revision_version
awaiting-HasPhase =
    (submit_revision_command-HasPhase reviewer submit_input 5 start awaiting_decision submitted
      submit_run (drafting r1) start-HasPhase).1

abbrev decided : TranscriptRevision × List RecordingAssignment
unfolding approve_revision_command
decided =
    value_or (first_draft, [])
      (approve_revision_command administrator (decide_on r1 (some (units "m1"))) 9
        awaiting_decision)

abbrev after_decided : World
unfolding approve_revision_command
after_decided =
    (approve_revision_command administrator (decide_on r1 (some (units "m1"))) 9
      awaiting_decision).1

decided_run :
    approve_revision_command administrator (decide_on r1 (some (units "m1"))) 9 awaiting_decision
    ≡ (ok decided, after_decided)
unfolding approve_revision_command superscriber.Casefile.Commands.Drafts.submit_revision_command
    superscriber.Prelude.trim superscriber.Prelude.Text-discrete
    superscriber.Casefile.Access.resolve_casefile_access
    superscriber.Casefile.Access.find_active_assignment
    superscriber.Casefile.ActionMode.resolve_actor_context
    superscriber.Casefile.Store.Audit.actor_context_for_principal
    superscriber.Casefile.Capabilities.derive_casefile_capabilities
    superscriber.Casefile.Commands.Rows.next_revision_version
    superscriber.Casefile.ActionMode.resolve_admin_actor superscriber.Casefile.ActionMode.is_expired
decided_run = refl

approve_revision_command_lem_example :
    (u : TranscriptRevision) × (row r1 awaiting_decision.revisions ≡ some u)
    × ((is u.submitted_by_user_id (units "u3") ≡ false) ⊎ (UserRole.admin ≡ UserRole.admin))
    × (decided.0 ≡ as_approved 9 u)
    × (after_decided.revisions ≡ update_row r1 (as_approved 9) awaiting_decision.revisions)
approve_revision_command_lem_example =
    approve_revision_command_lem administrator (decide_on r1 (some (units "m1"))) 9
      awaiting_decision after_decided decided.0 decided.1 decided_run

-- The same submission and approval, as requests.
submit_request : perform (submitting submit_input) reviewer 5 start ≡ (ok tt, awaiting_decision)
unfolding perform
submit_request = rw submit_run refl

approve_request :
    perform (approving (decide_on r1 (some (units "m1")))) administrator 9 awaiting_decision
    ≡ (ok tt, after_decided)
unfolding perform
approve_request = rw decided_run refl

perform_ok_example : Moves after_decided.db (units "rec") (awaiting r1)
perform_ok_example =
    perform_ok (approving (decide_on r1 (some (units "m1")))) administrator 9 awaiting_decision
      after_decided (awaiting r1) approve_request awaiting-HasPhase

abbrev both : List Command
both = submitting submit_input ∷ approving (decide_on r1 (some (units "m1"))) ∷ []

both-Requests : Requests (units "rec") both start after_decided
both-Requests =
    accepted (approving (decide_on r1 (some (units "m1"))) ∷ []) (submitting submit_input) reviewer
      5 start awaiting_decision after_decided refl submit_request
      (accepted [] (approving (decide_on r1 (some (units "m1")))) administrator 9 awaiting_decision
        after_decided after_decided refl approve_request (stop after_decided))

approved-HasPhase : HasPhase after_decided.db (units "rec") (closed r1)
approved-HasPhase =
    (approve_revision_command-HasPhase administrator (decide_on r1 (some (units "m1"))) 9
      awaiting_decision after_decided decided.0 decided.1 decided_run (awaiting r1)
      awaiting-HasPhase).1

perform-EndsInApproval_example : EndsInApproval both r1
perform-EndsInApproval_example =
    perform-EndsInApproval (units "rec") both start after_decided r1 r1 start-HasPhase both-Requests
      approved-HasPhase

-- An approver cannot save a draft.
refused_run :
    perform (saving edit_input) approver 5 start ≡ (err (failure action_mode_forbidden), start)
unfolding perform superscriber.Casefile.Commands.Drafts.save_draft_command superscriber.Prelude.trim
    superscriber.Prelude.Text-discrete superscriber.Casefile.Access.resolve_casefile_access
    superscriber.Casefile.Access.find_active_assignment
    superscriber.Casefile.ActionMode.resolve_actor_context
    superscriber.Casefile.Capabilities.derive_casefile_capabilities
refused_run = refl

perform_err_example : start.db ≡ start.db
perform_err_example =
    perform_err (saving edit_input) approver 5 start start (failure action_mode_forbidden)
      refused_run
