-- ===== src/Casefile/Commands/Decisions/GrantedApproval.antt =====
-- When an approval succeeds (`approveRevisionCommand` of src/server/casefile/commands.ts).
use superscriber.Prelude.{
  Text, ℕ, suc, none, some, false, ◌≡◌, refl, arith, List, row, units, map, ◌===◌, text_equal, ◌&&◌,
  has_key, update_where, row-key, row-update_where,
}
use superscriber.Domain.Models.{
  Principal, RecordingAssignment, TranscriptRevision, AssignmentRole, ApprovalState, AuditEventType,
}
use superscriber.Domain.Errors.{ok}
use superscriber.Casefile.Access.{complete_active_assignments_for_approval}
use superscriber.Casefile.Store.{
  World, approved, recording_keyed, revision_keyed, approval_keyed, audit_keyed,
}
use superscriber.Casefile.Store.Exec.{Exec, ◌>>=◌, ◌>>◌, pure, modify}
use superscriber.Casefile.Store.Audit.{insert_audit_event, drawn}
use superscriber.Casefile.Store.Succeeds.{
  Succeeds, Succeeds-bind, Succeeds-pure, transaction-Succeeds,
}
use superscriber.Casefile.Commands.State.{LoadedCommandState, require_expected_id}
use superscriber.Casefile.Commands.Load.{load_command_state, load_command_state-Ensures}
use superscriber.Casefile.Commands.Rows.{
  context_of, insert_decision_row, is_still_pending, update_guarded, update_revision, with_pointers,
}
use superscriber.Casefile.Commands.Rows.Written.{insert_decision_row-new, update_guarded-held}
use superscriber.Casefile.Commands.Decisions.{
  DecisionInput, approve_revision_body, approve_revision_command, as_approved, check_approve,
  note_or_null,
}
use superscriber.Casefile.Commands.Decisions.Approve.{check_approve-Ensures}
use superscriber.Casefile.Commands.Decisions.Recorded.{
  FreshEvents, complete_active-Records, insert_audit_event-Records,
}

abbrev approve_event :
    LoadedCommandState
    → TranscriptRevision
    → Text
    → ℕ
    → List RecordingAssignment
    → Exec (TranscriptRevision × List RecordingAssignment)
approve_event s v note now done =
    insert_audit_event s.workspace.id (some s.recording.id) (some (context_of s.actor))
      AuditEventType.approval_approved (approved v.id note (map (λ a. a.id) done)) now
    >>= λ event. pure (as_approved now v, done)

abbrev approve_rows :
    LoadedCommandState
    → TranscriptRevision
    → Text
    → ℕ
    → Exec (TranscriptRevision × List RecordingAssignment)
approve_rows s v note now =
    insert_decision_row s.recording.id v.id ApprovalState.approved s.actor now (note_or_null note)
    >> (complete_active_assignments_for_approval s.recording.id v.id (context_of s.actor) now
        >>= approve_event s v note now)

FreshEvents-drawn :
    (w v : World)
    → FreshEvents w
    → v.audit_events ≡ w.audit_events
    → v.uuids ≡ drawn w
    → FreshEvents v
FreshEvents-drawn w v fresh events first = record {
  unused = λ n. ground (arith, fresh.unused (suc n), events, first);
  distinct = λ i j e. ground (arith, fresh.distinct (suc i) (suc j), first, e);
}

approve_revision_body-Succeeds :
    (p : Principal) (input : DecisionInput) (now : ℕ) (w : World) (s : LoadedCommandState)
    (v : TranscriptRevision) (note : Text)
    → load_command_state p input.recording_id input.action_mode_id AssignmentRole.approver now w
      ≡ (ok s, w)
    → check_approve s p input w ≡ (ok (v, note), w)
    → has_key (w.uuids 0) w.approvals ≡ false
    → FreshEvents w
    → Succeeds (approve_revision_body p input now) w
unfolding approve_revision_body
approve_revision_body-Succeeds p input now w s v note loaded checked unused fresh =
    let l =
      (load_command_state-Ensures p input.recording_id input.action_mode_id AssignmentRole.approver
          now w).at
        s w loaded in
    let k = (check_approve-Ensures s p input w).at (v, note) w checked in
    let key = row-key input.recording_id w.recordings s.recording l.1.stored in
    let at : row s.recording.id w.recordings ≡ some s.recording = ground (arith, key, l.1.stored) in
    let still = is_still_pending input.expected_revision_id in
    let change = with_pointers (some v.id) none (some v.id) now in
    let w1 = record w {
      db = record w.db {
        recordings = update_where (λ r. r.id === s.recording.id && still r) change w.recordings;
      };
    } in
    let w2 = record w1 { db = update_revision v.id (as_approved now) w1.db } in
    let d =
      insert_decision_row-new s.recording.id v.id ApprovalState.approved s.actor now
        (note_or_null note) w2 unused in
    let c =
      complete_active-Records s.recording.id v.id (context_of s.actor) now (change s.recording)
        d.after
        (ground (
          arith,
          d.recordings,
          at,
          k.1.0,
          row-update_where s.recording.id s.recording.id still change w.recordings (λ r. refl),
        ))
        (FreshEvents-drawn w2 d.after (record { unused = fresh.unused; distinct = fresh.distinct })
          d.events d.first) in
    let e =
      insert_audit_event-Records s.workspace.id (some s.recording.id) (some (context_of s.actor))
        AuditEventType.approval_approved (approved v.id note (map (λ a. a.id) c.value)) now c.after
        c.fresh in
    Succeeds-bind
      (load_command_state p input.recording_id input.action_mode_id AssignmentRole.approver now) _ s
      w loaded refl
      (Succeeds-bind (check_approve s p input) _ (v, note) w checked refl
        (Succeeds-bind (update_guarded s.recording.id input.expected_revision_id still change)
          (λ _. modify (update_revision v.id (as_approved now)) >> approve_rows s v note now) tt w1
          (update_guarded-held s.recording.id input.expected_revision_id still change s.recording w
            at (ground (arith, k.1.0)))
          refl
          (Succeeds-bind (modify (update_revision v.id (as_approved now)))
            (λ _. approve_rows s v note now) tt w2 refl refl
            (Succeeds-bind
              (insert_decision_row s.recording.id v.id ApprovalState.approved s.actor now
                (note_or_null note))
              (λ _.
                complete_active_assignments_for_approval s.recording.id v.id (context_of s.actor)
                  now
                >>= approve_event s v note now)
              tt d.after d.ran d.version
              (Succeeds-bind
                (complete_active_assignments_for_approval s.recording.id v.id (context_of s.actor)
                  now)
                (approve_event s v note now) c.value c.after c.ran c.version
                (Succeeds-bind
                  (insert_audit_event s.workspace.id (some s.recording.id)
                    (some (context_of s.actor)) AuditEventType.approval_approved
                    (approved v.id note (map (λ a. a.id) c.value)) now)
                  (λ event. pure (as_approved now v, c.value)) e.value e.after e.ran e.version
                  (Succeeds-pure (as_approved now v, c.value))))))))

-- An approval succeeds for a caller whose state loads and whose checks pass, if the ids that are
-- drawn differ and are not taken and the row of the state version is there, however many assignments
-- it completes.
pub approve_revision_command-Succeeds :
    (p : Principal) (input : DecisionInput) (now n : ℕ) (w : World) (s : LoadedCommandState)
    (v : TranscriptRevision) (note : Text)
    → require_expected_id input.expected_revision_id (units "expectedPendingRevisionId") ≡ ok tt
    → load_command_state p input.recording_id input.action_mode_id AssignmentRole.approver now w
      ≡ (ok s, w)
    → check_approve s p input w ≡ (ok (v, note), w)
    → has_key (w.uuids 0) w.approvals ≡ false
    → FreshEvents w
    → w.state_version ≡ some n
    → (r : TranscriptRevision × List RecordingAssignment) × (w' : World) × (approve_revision_command
          p input now w
        ≡ (ok r, w'))
unfolding approve_revision_command
approve_revision_command-Succeeds p input now n w s v note named loaded checked unused fresh there =
    let (r, w', ran) =
      transaction-Succeeds (approve_revision_body p input) now n w
        (approve_revision_body-Succeeds p input now w s v note loaded checked unused fresh) there in
    (r, w', ground (arith, named, ran))
