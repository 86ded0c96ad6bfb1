-- ===== src/Casefile/Commands/Decisions/RequestChanges.antt =====
-- What requesting changes does (`requestChangesCommand` of src/server/casefile/commands.ts).
use superscriber.Prelude.{
  ℕ, some, false, ◌≡◌, refl, sym, ◌⊎◌, arith, [], ◌∷◌, ◌++◌, row, is, text_equal, units, update_row,
}
use superscriber.Domain.Models.{
  Principal, TranscriptRevision, TranscriptRevisionState, AssignmentRole, UserRole, ApprovalState,
  AuditEventType, user_role_equal,
}
use superscriber.Domain.Errors.{ok}
use superscriber.Domain.Stage.{validate_governed_reason}
use superscriber.Casefile.Store.{World, changes_requested, recording_keyed, revision_keyed}
use superscriber.Casefile.Store.Exec.{committed}
use superscriber.Casefile.Store.Ensures.{
  Ensures, Ensures-lift, Ensures-query, Ensures-read, Ensures-weaken, Ensures-pure,
  Ensures-transaction,
}
use superscriber.Casefile.Commands.State.{
  LoadedCommandState, CommandActor, current_revision_or_throw, require_expected_id,
}
use superscriber.Casefile.Commands.State.Laws.{IsPending, IsPending-checked, loaded_row}
use superscriber.Casefile.Commands.Load.{load_command_state-Ensures}
use superscriber.Casefile.Commands.Authority.{require_request_changes_authority}
use superscriber.Casefile.Commands.Phases.{Phase, drafting, awaiting, HasPhase}
use superscriber.Casefile.Commands.Rows.{with_state}
use superscriber.Casefile.Commands.Decisions.{
  DecisionInput, check_request_changes, request_changes_body, request_changes_command,
  veto_self_decision,
}
use superscriber.Casefile.Commands.Decisions.Replacement.{
  IsReplaced, IsReplaced-committed, replacement-Ensures, IsReplaced-HasPhase,
}

pub veto_self_decision_ok :
    (v : TranscriptRevision) (a : CommandActor)
    → veto_self_decision v a ≡ ok tt
    → (is v.submitted_by_user_id a.user_id ≡ false) ⊎ (a.actor_role ≡ UserRole.admin)
unfolding veto_self_decision
veto_self_decision_ok v a h = ground arith

-- What a request for changes has checked and written.
record Requested (p : Principal) (input : DecisionInput) (now : ℕ) (w w' : World)
    (d : TranscriptRevision) : Type 0 where
  state : LoadedCommandState
  stored : row input.recording_id w.recordings ≡ some state.recording
  pending : TranscriptRevision
  checked : IsPending state input.expected_revision_id pending
  pending_row : row input.expected_revision_id w.revisions ≡ some pending
  by_whom : (is pending.submitted_by_user_id p.user_id ≡ false) ⊎ (p.role ≡ UserRole.admin)
  replaced :
      IsReplaced state.recording.id input.expected_revision_id pending
        TranscriptRevisionState.changes_requested now w w' d

pub check_request_changes-Ensures :
    (s : LoadedCommandState) (p : Principal) (input : DecisionInput) (w : World)
    → Ensures (check_request_changes s p input) w (λ c w'.
      (w' ≡ w)
      × (IsPending s input.expected_revision_id c.0 × (veto_self_decision c.0 s.actor ≡ ok tt)))
unfolding check_request_changes
check_request_changes-Ensures s p input w =
    Ensures-lift (require_request_changes_authority s p) λ _ authority.
      Ensures-lift (current_revision_or_throw s.recording s.revision) λ v found.
        Ensures-query _ λ _ asserted.
          Ensures-lift (validate_governed_reason input.reason) λ reason valid.
            Ensures-lift (veto_self_decision v s.actor) λ _ veto.
              Ensures-pure (v, reason)
                (refl, (IsPending-checked s input.expected_revision_id v w.db found asserted, veto))

request_changes_body-Ensures :
    (p : Principal) (input : DecisionInput) (now : ℕ) (w : World)
    → Ensures
        (request_changes_body p input now)
        w
        (λ d w'. Requested p input now w (committed w') d)
unfolding request_changes_body
request_changes_body-Ensures p input now w =
    Ensures-read _ _
      (load_command_state-Ensures p input.recording_id input.action_mode_id AssignmentRole.approver
        now w)
      λ s l. Ensures-read _ _ (check_request_changes-Ensures s p input w) λ c k.
        Ensures-weaken
          (replacement-Ensures s input.expected_revision_id c.0
            TranscriptRevisionState.changes_requested ApprovalState.changes_requested (some c.1)
            AuditEventType.approval_changes_requested
            (λ d. changes_requested c.0.id d.id c.1 c.0.submitted_by_user_id) now w)
          (λ d w' r. record {
            state = s;
            stored = l.stored;
            pending = c.0;
            checked = k.0;
            pending_row =
                loaded_row w.db s input.expected_revision_id c.0 l.current k.0.loaded k.0.current;
            by_whom =
                ground (arith, veto_self_decision_ok c.0 s.actor k.1, l.acting_user, l.acting_role);
            replaced =
                IsReplaced-committed s.recording.id input.expected_revision_id c.0
                  TranscriptRevisionState.changes_requested now w w' d r;
          })

request_changes_command-Ensures :
    (p : Principal) (input : DecisionInput) (now : ℕ) (w : World)
    → Ensures (request_changes_command p input now) w (λ d w'. Requested p input now w w' d)
unfolding request_changes_command
request_changes_command-Ensures p input now w =
    Ensures-lift
      (require_expected_id input.expected_revision_id (units "expectedPendingRevisionId"))
      λ _ named.
        Ensures-transaction (request_changes_body p input) now
          (request_changes_body-Ensures p input now w)

-- A request for changes that succeeds takes a casefile from awaiting a decision on the revision that
-- the caller named to a draft, which the command returns.
pub request_changes_command-HasPhase :
    (p : Principal) (input : DecisionInput) (now : ℕ) (w w' : World) (d : TranscriptRevision)
    (ph : Phase)
    → request_changes_command p input now w ≡ (ok d, w')
    → HasPhase w.db input.recording_id ph
    → (ph ≡ awaiting input.expected_revision_id) × HasPhase w'.db input.recording_id (drafting d.id)
request_changes_command-HasPhase p input now w w' d ph h has =
    let r = (request_changes_command-Ensures p input now w).at d w' h in
    IsReplaced-HasPhase r.state input.recording_id input.expected_revision_id r.pending
      TranscriptRevisionState.changes_requested now w w' d ph r.stored r.checked r.replaced has

-- The account that submitted a revision cannot request changes to it, unless it is an
-- administrator. The draft has the segments of that revision and is based on it, and the revision is
-- kept, marked, beside all others unchanged.
pub request_changes_command_lem :
    (p : Principal) (input : DecisionInput) (now : ℕ) (w w' : World) (d : TranscriptRevision)
    → request_changes_command p input now w ≡ (ok d, w')
    → (v : TranscriptRevision) × (row input.expected_revision_id w.revisions ≡ some v)
      × ((is v.submitted_by_user_id p.user_id ≡ false) ⊎ (p.role ≡ UserRole.admin))
      × (d.segments ≡ v.segments)
      × (d.based_on_revision_id ≡ some v.id)
      × (w'.revisions
          ≡ update_row input.expected_revision_id
              (with_state TranscriptRevisionState.changes_requested)
              w.revisions
            ++ d ∷ [])
request_changes_command_lem p input now w w' d h =
    let r = (request_changes_command-Ensures p input now w).at d w' h in
    (
      r.pending,
      r.pending_row,
      r.by_whom,
      r.replaced.segments,
      r.replaced.based_on,
      rw (sym r.checked.named) r.replaced.revisions,
    )
