-- ===== src/Casefile/Commands/Decisions/Approve.antt =====
-- What approving a revision does (`approveRevisionCommand` of src/server/casefile/commands.ts).

use superscriber.Prelude.{
  ℕ, none, some, false, ◌≡◌, refl, sym, ◌⊎◌, arith, List, row, is, ◌&&◌, ◌===◌, text_equal, units,
  update_row, update_where, map, filter_if, row-key, row-update_row, row-update_where, ap,
}
use superscriber.Domain.Models.{
  Principal, RecordingAssignment, TranscriptRevision, AssignmentRole, UserRole, ApprovalState,
  AuditEventType, user_role_equal,
}
use superscriber.Domain.Errors.{ok}
use superscriber.Domain.Stage.{validate_approval_note}
use superscriber.Casefile.Store.{World, approved, recording_keyed, revision_keyed}
use superscriber.Casefile.Store.Exec.{committed}
use superscriber.Casefile.Store.Ensures.{
  Ensures, Ensures-bind, Ensures-modify, Ensures-lift, Ensures-query, Ensures-read, Ensures-pure,
  Ensures-transaction,
}
use superscriber.Casefile.Commands.State.{
  LoadedCommandState, current_revision_or_throw, require_expected_id,
}
use superscriber.Casefile.Commands.State.Laws.{IsPending, IsPending-checked, loaded_row}
use superscriber.Casefile.Commands.Load.{load_command_state-Ensures}
use superscriber.Casefile.Commands.Authority.{require_approve_authority}
use superscriber.Casefile.Commands.Phases.{Phase, awaiting, closed, HasPhase, phase_of_pending}
use superscriber.Casefile.Commands.Rows.{
  context_of, is_still_pending, update_revision, with_pointers,
}
use superscriber.Casefile.Commands.Decisions.{
  DecisionInput, approve_revision_body, approve_revision_command, as_approved, check_approve,
  note_or_null, veto_self_decision,
}
use superscriber.Casefile.Commands.Decisions.RequestChanges.{veto_self_decision_ok}
use superscriber.Casefile.Access.{complete_assignment, is_active_in}
use superscriber.Casefile.Access.Completion.{complete_active-Ensures}
use superscriber.Casefile.Commands.Rows.Laws.{insert_decision_row-Ensures, update_guarded-Ensures}
use superscriber.Casefile.Store.Audit.{insert_audit_event-Ensures}

-- What an approval has checked and written.
record Approved (p : Principal) (input : DecisionInput) (now : ℕ) (w w' : World)
    (v : TranscriptRevision) (done : List RecordingAssignment) : Type 0 where
  state : LoadedCommandState
  stored : row input.recording_id w.recordings ≡ some state.recording
  pending : TranscriptRevision
  checked : IsPending state input.expected_revision_id pending
  pending_row : row input.expected_revision_id w.revisions ≡ some pending
  by_whom : (is pending.submitted_by_user_id p.user_id ≡ false) ⊎ (p.role ≡ UserRole.admin)
  returned : v ≡ as_approved now pending
  recordings :
      w'.recordings
      ≡ update_where
          (λ r. r.id === state.recording.id && is_still_pending input.expected_revision_id r)
          (with_pointers (some pending.id) none (some pending.id) now)
          w.recordings
  revisions : w'.revisions ≡ update_row pending.id (as_approved now) w.revisions
  assignments :
      w'.assignments
      ≡ update_where
          (is_active_in state.recording.id)
          (complete_assignment pending.id now)
          w.assignments
  completed :
      done
      ≡ map
          (complete_assignment pending.id now)
          (filter_if (is_active_in state.recording.id) w.assignments)

pub check_approve-Ensures :
    (s : LoadedCommandState) (p : Principal) (input : DecisionInput) (w : World)
    → Ensures (check_approve s p input) w (λ c w'.
      (w' ≡ w)
      × (IsPending s input.expected_revision_id c.0 × (veto_self_decision c.0 s.actor ≡ ok tt)))
unfolding check_approve
check_approve-Ensures s p input w = Ensures-lift (require_approve_authority s p) λ _ authority.
    Ensures-lift (current_revision_or_throw s.recording s.revision) λ v found.
      Ensures-query _ λ _ asserted. Ensures-lift (validate_approval_note input.reason) λ n valid.
        Ensures-lift (veto_self_decision v s.actor) λ _ veto.
          Ensures-pure (v, n)
            (refl, (IsPending-checked s input.expected_revision_id v w.db found asserted, veto))

approve_revision_body-Ensures :
    (p : Principal) (input : DecisionInput) (now : ℕ) (w : World)
    → Ensures
        (approve_revision_body p input now)
        w
        (λ r w'. Approved p input now w (committed w') r.0 r.1)
unfolding approve_revision_body
approve_revision_body-Ensures p input now w =
    Ensures-read _ _
      (load_command_state-Ensures p input.recording_id input.action_mode_id AssignmentRole.approver
        now w)
      λ s l. Ensures-read _ _ (check_approve-Ensures s p input w) λ c k.
        Ensures-bind _ _
          (update_guarded-Ensures s.recording.id input.expected_revision_id
            (is_still_pending input.expected_revision_id)
            (with_pointers (some c.0.id) none (some c.0.id) now) w)
          λ _ w1 updated. Ensures-modify (update_revision c.0.id (as_approved now)) (
            Ensures-bind _ _
              (insert_decision_row-Ensures s.recording.id c.0.id ApprovalState.approved s.actor now
                (note_or_null c.1) _)
              λ _ w2 decided.
                Ensures-bind _ _
                  (complete_active-Ensures s.recording.id c.0.id (context_of s.actor) now w2)
                  λ done w3 completed.
                    Ensures-bind _ _
                      (insert_audit_event-Ensures s.workspace.id (some s.recording.id)
                        (some (context_of s.actor)) AuditEventType.approval_approved
                        (approved c.0.id c.1 (map (λ a. a.id) done)) now w3)
                      λ event w4 audited.
                        Ensures-pure (as_approved now c.0, done)
                          (record {
                            state = s;
                            stored = l.stored;
                            pending = c.0;
                            checked = k.0;
                            pending_row =
                                loaded_row w.db s input.expected_revision_id c.0 l.current
                                  k.0.loaded k.0.current;
                            by_whom = ground (
                              arith,
                              veto_self_decision_ok c.0 s.actor k.1,
                              l.acting_user,
                              l.acting_role,
                            );
                            returned = refl;
                            recordings = ground arith;
                            revisions = ground arith;
                            assignments = ground arith;
                            completed = ground arith;
                          }))

approve_revision_command-Ensures :
    (p : Principal) (input : DecisionInput) (now : ℕ) (w : World)
    → Ensures (approve_revision_command p input now) w (λ r w'. Approved p input now w w' r.0 r.1)
unfolding approve_revision_command
approve_revision_command-Ensures p input now w =
    Ensures-lift
      (require_expected_id input.expected_revision_id (units "expectedPendingRevisionId"))
      λ _ named.
        Ensures-transaction (approve_revision_body p input) now
          (approve_revision_body-Ensures p input now w)

module _ (p : Principal) (input : DecisionInput) (now : ℕ) (w w' : World) (v : TranscriptRevision)
    (done : List RecordingAssignment)
    (approved : approve_revision_command p input now w ≡ (ok (v, done), w')) where
  -- An approval that succeeds takes a casefile from awaiting a decision on the revision that the
  -- caller named to the phase in which that revision is approved.
  pub approve_revision_command-HasPhase :
      (ph : Phase)
      → HasPhase w.db input.recording_id ph
      → (ph ≡ awaiting input.expected_revision_id)
        × HasPhase w'.db input.recording_id (closed input.expected_revision_id)
  approve_revision_command-HasPhase ph has =
      let r = (approve_revision_command-Ensures p input now w).at (v, done) w' approved in
      let key = row-key input.recording_id w.recordings r.state.recording r.stored in
      (
        phase_of_pending w.db input.recording_id input.expected_revision_id r.state.recording
            r.stored ph r.checked.pending has,
        record {
          recording =
              with_pointers (some r.pending.id) none (some r.pending.id) now r.state.recording;
          stored = ground (
            arith,
            r.recordings,
            r.stored,
            key,
            r.checked,
            row-update_where r.state.recording.id input.recording_id
                (is_still_pending input.expected_revision_id)
                (with_pointers (some r.pending.id) none (some r.pending.id) now) w.recordings
                (λ s. refl),
          );
          current = ap some r.checked.named;
          pending = refl;
          approved = ap some r.checked.named;
          state = ground (
            arith,
            r.revisions,
            r.pending_row,
            r.checked.named,
            row-update_row r.pending.id input.expected_revision_id (as_approved now) w.revisions
                (λ s. refl),
          );
        },
      )

  -- The account that submitted a revision cannot approve it, unless it is an administrator. The
  -- command returns the stored revision, approved, with the segments that were submitted, and no
  -- other revision changes.
  pub approve_revision_command_lem :
      (u : TranscriptRevision) × (row input.expected_revision_id w.revisions ≡ some u)
      × ((is u.submitted_by_user_id p.user_id ≡ false) ⊎ (p.role ≡ UserRole.admin))
      × (v ≡ as_approved now u)
      × (w'.revisions ≡ update_row input.expected_revision_id (as_approved now) w.revisions)
  approve_revision_command_lem =
      let r = (approve_revision_command-Ensures p input now w).at (v, done) w' approved in
      (r.pending, r.pending_row, r.by_whom, r.returned, rw (sym r.checked.named) r.revisions)
