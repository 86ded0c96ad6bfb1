-- ===== src/Casefile/Commands/Decisions/GrantedPending.antt =====
-- When withdrawing a submission and requesting changes succeed (src/server/casefile/commands.ts).
use superscriber.Prelude.{
  Text, ℕ, Option, none, some, ◌≡◌, refl, arith, row, units, ◌===◌, text_equal, ◌&&◌, update_where,
  has_key-update_row, row-key,
}
use superscriber.Domain.Models.{
  Principal, Recording, TranscriptRevision, TranscriptRevisionState, AssignmentRole, ApprovalState,
  AuditEventType,
}
use superscriber.Domain.Errors.{ok}
use superscriber.Domain.Stage.{validate_governed_reason}
use superscriber.Casefile.Store.{
  World, AuditMetadata, withdrawn, changes_requested, recording_keyed, revision_keyed,
}
use superscriber.Casefile.Store.Exec.{Exec, ◌>>=◌, ◌>>◌, pure, modify, lift}
use superscriber.Casefile.Store.Audit.{append_revision, insert_audit_event, drawn}
use superscriber.Casefile.Store.Succeeds.{Succeeds, Succeeds-bind, transaction-Succeeds}
use superscriber.Casefile.Commands.State.{LoadedCommandState, require_expected_id}
use superscriber.Casefile.Commands.State.Laws.{IsPending}
use superscriber.Casefile.Commands.Load.{load_command_state, load_command_state-Ensures}
use superscriber.Casefile.Commands.Rows.{
  clone_transition_draft, context_of, insert_decision_row, is_still_pending, update_guarded,
  update_revision, with_pointers, with_state,
}
use superscriber.Casefile.Commands.Rows.Versions.{any-update_row, next_revision_version_lem}
use superscriber.Casefile.Commands.Rows.Written.{
  FreshIds, record_draft-Succeeds, update_guarded-held,
}
use superscriber.Casefile.Commands.Decisions.{
  DecisionInput, check_request_changes, check_withdraw, overridden_submitter, request_changes_body,
  request_changes_command, withdraw_revision_body, withdraw_revision_command,
}
use superscriber.Casefile.Commands.Decisions.Granted.{draft_of, clone_transition_draft_lem}
use superscriber.Casefile.Commands.Decisions.Withdraw.{check_withdraw-Ensures}
use superscriber.Casefile.Commands.Decisions.RequestChanges.{check_request_changes-Ensures}

module _ (s : LoadedCommandState) (expected : Text) (v : TranscriptRevision)
    (mark : TranscriptRevisionState) (decision : ApprovalState) (reason : Option Text)
    (type : AuditEventType) (metadata : TranscriptRevision → AuditMetadata) (now : ℕ) where
  abbrev rows_after : TranscriptRevision → Exec TranscriptRevision
  rows_after d =
      append_revision d
      >> (insert_decision_row s.recording.id v.id decision s.actor now reason
          >> (insert_audit_event s.workspace.id (some s.recording.id) (some (context_of s.actor))
                type (metadata d) now
              >>= λ event. pure d))

  abbrev pub replacement_writes : TranscriptRevision → Exec TranscriptRevision
  replacement_writes d =
      update_guarded s.recording.id expected (is_still_pending expected)
        (λ r. with_pointers (some d.id) none r.approved_revision_id now r)
      >> (modify (update_revision v.id (with_state mark)) >> rows_after d)

  pub replacement-Succeeds :
      (w : World)
      → row s.recording.id w.recordings ≡ some s.recording
      → IsPending s expected v
      → FreshIds w
      → Succeeds (clone_transition_draft v s.actor now >>= replacement_writes) w
  replacement-Succeeds w stored pending fresh =
      let d = draft_of s v now w in
      let w1 = record w { uuids = drawn w } in
      let change = λ (r : Recording). with_pointers (some d.id) none r.approved_revision_id now r in
      let still = is_still_pending expected in
      let w2 = record w1 {
        db = record w1.db {
          recordings = update_where (λ r. r.id === s.recording.id && still r) change w1.recordings;
        };
      } in
      let w3 = record w2 { db = update_revision v.id (with_state mark) w2.db } in
      Succeeds-bind (clone_transition_draft v s.actor now) replacement_writes d w1
        (clone_transition_draft_lem s v now w) refl
        (Succeeds-bind (update_guarded s.recording.id expected still change)
          (λ _. modify (update_revision v.id (with_state mark)) >> rows_after d) tt w2
          (update_guarded-held s.recording.id expected still change s.recording w1 stored
            (ground (arith, pending)))
          refl
          (Succeeds-bind (modify (update_revision v.id (with_state mark))) (λ _. rows_after d) tt w3
            refl refl
            (record_draft-Succeeds s.recording.id s.workspace.id d v.id decision s.actor now reason
              (some (context_of s.actor)) type (metadata d) w3
              (ground (
                arith,
                fresh.revision,
                has_key-update_row v.id d.id (with_state mark) w.revisions (λ r. refl),
              ))
              (ground (
                arith,
                next_revision_version_lem w.db v.recording_id,
                any-update_row v.id v.recording_id d.version mark w.revisions,
              ))
              fresh.approval fresh.event)))

withdraw_revision_body-Succeeds :
    (p : Principal) (input : DecisionInput) (now : ℕ) (w : World) (s : LoadedCommandState)
    (v : TranscriptRevision) (reason : Text)
    → load_command_state p input.recording_id input.action_mode_id AssignmentRole.reviewer now w
      ≡ (ok s, w)
    → check_withdraw s p input.expected_revision_id w ≡ (ok v, w)
    → validate_governed_reason input.reason ≡ ok reason
    → FreshIds w
    → Succeeds (withdraw_revision_body p input now) w
unfolding withdraw_revision_body
withdraw_revision_body-Succeeds p input now w s v reason loaded checked valid fresh =
    let l =
      (load_command_state-Ensures p input.recording_id input.action_mode_id AssignmentRole.reviewer
          now w).at
        s w loaded in
    let k = (check_withdraw-Ensures s p input.expected_revision_id w).at v w checked in
    let key = row-key input.recording_id w.recordings s.recording l.1.stored in
    let m =
      λ (d : TranscriptRevision). withdrawn v.id d.id reason (overridden_submitter v s.actor) in
    Succeeds-bind
      (load_command_state p input.recording_id input.action_mode_id AssignmentRole.reviewer now) _ s
      w loaded refl
      (Succeeds-bind (check_withdraw s p input.expected_revision_id) _ v w checked refl (
        Succeeds-bind (lift (validate_governed_reason input.reason))
          (λ r.
            clone_transition_draft v s.actor now
            >>= replacement_writes s input.expected_revision_id v TranscriptRevisionState.withdrawn
                ApprovalState.withdrawn (some r) AuditEventType.revision_withdrawn
                (λ d. withdrawn v.id d.id r (overridden_submitter v s.actor)) now)
          reason w (ground (arith, valid)) refl
          (replacement-Succeeds s input.expected_revision_id v TranscriptRevisionState.withdrawn
            ApprovalState.withdrawn (some reason) AuditEventType.revision_withdrawn m now w
            (ground (arith, key, l.1.stored)) k.1.0 fresh)))

-- A withdrawal succeeds for a caller whose state loads, whose checks pass and whose reason is valid,
-- if the ids that are drawn are not taken and the row of the state version is there.
pub withdraw_revision_command-Succeeds :
    (p : Principal) (input : DecisionInput) (now n : ℕ) (w : World) (s : LoadedCommandState)
    (v : TranscriptRevision) (reason : Text)
    → require_expected_id input.expected_revision_id (units "expectedPendingRevisionId") ≡ ok tt
    → load_command_state p input.recording_id input.action_mode_id AssignmentRole.reviewer now w
      ≡ (ok s, w)
    → check_withdraw s p input.expected_revision_id w ≡ (ok v, w)
    → validate_governed_reason input.reason ≡ ok reason
    → FreshIds w
    → w.state_version ≡ some n
    → (d : TranscriptRevision) × (w' : World) × (withdraw_revision_command p input now w
        ≡ (ok d, w'))
unfolding withdraw_revision_command
withdraw_revision_command-Succeeds p input now n w s v reason named loaded checked valid fresh
      there =
    let (d, w', ran) =
      transaction-Succeeds (withdraw_revision_body p input) now n w
        (withdraw_revision_body-Succeeds p input now w s v reason loaded checked valid fresh)
        there in
    (d, w', ground (arith, named, ran))

request_changes_body-Succeeds :
    (p : Principal) (input : DecisionInput) (now : ℕ) (w : World) (s : LoadedCommandState)
    (v : TranscriptRevision) (reason : Text)
    → load_command_state p input.recording_id input.action_mode_id AssignmentRole.approver now w
      ≡ (ok s, w)
    → check_request_changes s p input w ≡ (ok (v, reason), w)
    → FreshIds w
    → Succeeds (request_changes_body p input now) w
unfolding request_changes_body
request_changes_body-Succeeds p input now w s v reason loaded checked fresh =
    let l =
      (load_command_state-Ensures p input.recording_id input.action_mode_id AssignmentRole.approver
          now w).at
        s w loaded in
    let k = (check_request_changes-Ensures s p input w).at (v, reason) w checked in
    let key = row-key input.recording_id w.recordings s.recording l.1.stored in
    Succeeds-bind
      (load_command_state p input.recording_id input.action_mode_id AssignmentRole.approver now) _ s
      w loaded refl
      (Succeeds-bind (check_request_changes s p input) _ (v, reason) w checked refl
        (replacement-Succeeds s input.expected_revision_id v
          TranscriptRevisionState.changes_requested ApprovalState.changes_requested (some reason)
          AuditEventType.approval_changes_requested
          (λ d. changes_requested v.id d.id reason v.submitted_by_user_id) now w
          (ground (arith, key, l.1.stored)) k.1.0 fresh))

-- A request for changes succeeds for a caller whose state loads and whose checks pass, if the ids
-- that are drawn are not taken and the row of the state version is there.
pub request_changes_command-Succeeds :
    (p : Principal) (input : DecisionInput) (now n : ℕ) (w : World) (s : LoadedCommandState)
    (v : TranscriptRevision) (reason : Text)
    → require_expected_id input.expected_revision_id (units "expectedPendingRevisionId") ≡ ok tt
    → load_command_state p input.recording_id input.action_mode_id AssignmentRole.approver now w
      ≡ (ok s, w)
    → check_request_changes s p input w ≡ (ok (v, reason), w)
    → FreshIds w
    → w.state_version ≡ some n
    → (d : TranscriptRevision) × (w' : World) × (request_changes_command p input now w ≡ (ok d, w'))
unfolding request_changes_command
request_changes_command-Succeeds p input now n w s v reason named loaded checked fresh there =
    let (d, w', ran) =
      transaction-Succeeds (request_changes_body p input) now n w
        (request_changes_body-Succeeds p input now w s v reason loaded checked fresh) there in
    (d, w', ground (arith, named, ran))
