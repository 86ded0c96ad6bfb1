-- ===== src/Casefile/Commands/Decisions/Granted.antt =====
-- When the commands that replace a revision by a draft succeed (src/server/casefile/commands.ts).
use superscriber.Prelude.{
  Text, ℕ, none, some, ◌≡◌, refl, arith, ◌++◌, units, ◌===◌, text_equal, ◌&&◌, update_where,
  row-key,
}
use superscriber.Domain.Models.{
  Principal, TranscriptRevision, AssignmentRole, ApprovalState, AuditEventType,
}
use superscriber.Domain.Errors.{ok}
use superscriber.Casefile.Store.{World, reopened, recording_keyed, revision_keyed}
use superscriber.Casefile.Store.Exec.{Exec, ◌>>=◌, ◌>>◌, pure}
use superscriber.Casefile.Store.Audit.{append_revision, insert_audit_event, drawn}
use superscriber.Casefile.Store.Succeeds.{Succeeds, Succeeds-bind, transaction-Succeeds}
use superscriber.Casefile.Commands.State.{LoadedCommandState, require_expected_id}
use superscriber.Casefile.Commands.Load.{load_command_state, load_command_state-Ensures}
use superscriber.Casefile.Commands.Rows.{
  clone_transition_draft, context_of, draft_revision, insert_decision_row, is_still_approved,
  next_revision_version, update_guarded, with_pointers,
}
use superscriber.Casefile.Commands.Rows.Versions.{next_revision_version_lem}
use superscriber.Casefile.Commands.Rows.Written.{
  FreshIds, record_draft-Succeeds, update_guarded-held,
}
use superscriber.Casefile.Commands.Decisions.{
  DecisionInput, check_reopen, reopen_revision_body, reopen_revision_command,
}
use superscriber.Casefile.Commands.Decisions.Reopen.{check_reopen-Ensures}

-- The draft that a decision makes of a revision.
abbrev pub draft_of : LoadedCommandState → TranscriptRevision → ℕ → World → TranscriptRevision
draft_of s v now w =
    draft_revision (units "rev-" ++ w.uuids 0) v.recording_id
      (next_revision_version w.db v.recording_id) v.id s.actor now v.summary v.segments

-- The writes after the pointers of the recording.
abbrev reopen_rows :
    LoadedCommandState
    → TranscriptRevision
    → Text
    → ℕ
    → TranscriptRevision
    → Exec TranscriptRevision
reopen_rows s v reason now d =
    append_revision d
    >> (insert_decision_row s.recording.id v.id ApprovalState.reopened s.actor now (some reason)
        >> (insert_audit_event s.workspace.id (some s.recording.id) (some (context_of s.actor))
              AuditEventType.approval_reopened (reopened v.id d.id reason) now
            >>= λ event. pure d))

abbrev reopen_writes :
    LoadedCommandState
    → Text
    → TranscriptRevision
    → Text
    → ℕ
    → TranscriptRevision
    → Exec TranscriptRevision
reopen_writes s expected v reason now d =
    update_guarded s.recording.id expected (is_still_approved expected)
      (with_pointers (some d.id) none none now)
    >> reopen_rows s v reason now d

pub clone_transition_draft_lem :
    (s : LoadedCommandState) (v : TranscriptRevision) (now : ℕ) (w : World)
    → clone_transition_draft v s.actor now w
      ≡ (ok (draft_of s v now w), record w { uuids = drawn w })
unfolding clone_transition_draft
clone_transition_draft_lem s v now w = refl

reopen_revision_body-Succeeds :
    (p : Principal) (input : DecisionInput) (now : ℕ) (w : World) (s : LoadedCommandState)
    (v : TranscriptRevision) (reason : Text)
    → load_command_state p input.recording_id input.action_mode_id AssignmentRole.approver now w
      ≡ (ok s, w)
    → check_reopen s p input w ≡ (ok (v, reason), w)
    → FreshIds w
    → Succeeds (reopen_revision_body p input now) w
unfolding reopen_revision_body
reopen_revision_body-Succeeds p input now w s v reason loaded checked fresh =
    let l =
      (load_command_state-Ensures p input.recording_id input.action_mode_id AssignmentRole.approver
          now w).at
        s w loaded in
    let k = (check_reopen-Ensures s p input w).at (v, reason) w checked in
    let key = row-key input.recording_id w.recordings s.recording l.1.stored in
    let d = draft_of s v now w in
    let still = is_still_approved input.expected_revision_id in
    let w1 = record w { uuids = drawn w } in
    let change = with_pointers (some d.id) none none now in
    let w2 = record w1 {
      db = record w1.db {
        recordings = update_where (λ r. r.id === s.recording.id && still r) change w1.recordings;
      };
    } in
    Succeeds-bind
      (load_command_state p input.recording_id input.action_mode_id AssignmentRole.approver now) _ s
      w loaded refl
      (Succeeds-bind (check_reopen s p input) _ (v, reason) w checked refl
        (Succeeds-bind (clone_transition_draft v s.actor now)
          (reopen_writes s input.expected_revision_id v reason now) d w1
          (clone_transition_draft_lem s v now w) refl
          (Succeeds-bind (update_guarded s.recording.id input.expected_revision_id still change)
            (λ _. reopen_rows s v reason now d) tt w2
            (update_guarded-held s.recording.id input.expected_revision_id still change s.recording
              w1 (ground (arith, key, l.1.stored)) (ground (arith, k.1)))
            refl
            (record_draft-Succeeds s.recording.id s.workspace.id d v.id ApprovalState.reopened
              s.actor now (some reason) (some (context_of s.actor)) AuditEventType.approval_reopened
              (reopened v.id d.id reason) w2 fresh.revision
              (next_revision_version_lem w.db v.recording_id) fresh.approval fresh.event))))

-- Reopening succeeds for a caller whose state loads and whose checks pass, if the ids that are drawn
-- are not taken and the row of the state version is there. The number of the new version never
-- stands in the way.
pub reopen_revision_command-Succeeds :
    (p : Principal) (input : DecisionInput) (now n : ℕ) (w : World) (s : LoadedCommandState)
    (v : TranscriptRevision) (reason : Text)
    → require_expected_id input.expected_revision_id (units "expectedApprovedRevisionId") ≡ ok tt
    → load_command_state p input.recording_id input.action_mode_id AssignmentRole.approver now w
      ≡ (ok s, w)
    → check_reopen s p input w ≡ (ok (v, reason), w)
    → FreshIds w
    → w.state_version ≡ some n
    → (d : TranscriptRevision) × (w' : World) × (reopen_revision_command p input now w ≡ (ok d, w'))
unfolding reopen_revision_command
reopen_revision_command-Succeeds p input now n w s v reason named loaded checked fresh there =
    let (d, w', ran) =
      transaction-Succeeds (reopen_revision_body p input) now n w
        (reopen_revision_body-Succeeds p input now w s v reason loaded checked fresh) there in
    (d, w', ground (arith, named, ran))
