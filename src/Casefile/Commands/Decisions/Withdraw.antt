-- ===== src/Casefile/Commands/Decisions/Withdraw.antt =====
-- What withdrawing a submission does (`withdrawRevisionCommand` of src/server/casefile/commands.ts).
use superscriber.Prelude.{
  Text, ℕ, some, ◌≡◌, refl, ◌⊎◌, arith, row, text_equal, units, sym, update_row, ◌++◌, ◌∷◌, [],
}
use superscriber.Domain.Models.{
  Principal, TranscriptRevision, TranscriptRevisionState, AssignmentRole, UserRole, ApprovalState,
  AuditEventType, user_role_equal,
}
use superscriber.Domain.Errors.{ok}
use superscriber.Domain.Stage.{validate_governed_reason}
use superscriber.Casefile.Store.{World, withdrawn, recording_keyed, revision_keyed}
use superscriber.Casefile.Store.Ensures.{
  Ensures, Ensures-read, Ensures-weaken, Ensures-lift, Ensures-query, Ensures-pure,
  Ensures-transaction,
}
use superscriber.Casefile.Commands.Rows.{with_state}
use superscriber.Casefile.Store.Exec.{committed}
use superscriber.Casefile.Commands.State.{
  LoadedCommandState, CommandActor, current_revision_or_throw, require_expected_id,
}
use superscriber.Casefile.Commands.State.Laws.{IsPending, IsPending-checked, loaded_row}
use superscriber.Casefile.Commands.Load.{load_command_state-Ensures}
use superscriber.Casefile.Commands.Authority.{require_withdraw_authority}
use superscriber.Casefile.Commands.Phases.{Phase, drafting, awaiting, HasPhase}
use superscriber.Casefile.Commands.Decisions.{
  DecisionInput, check_submitter, check_withdraw, overridden_submitter, withdraw_revision_body,
  withdraw_revision_command,
}
use superscriber.Casefile.Commands.Decisions.Replacement.{
  IsReplaced, IsReplaced-committed, replacement-Ensures, IsReplaced-HasPhase,
}

check_submitter_ok :
    (v : TranscriptRevision) (a : CommandActor)
    → check_submitter v a ≡ ok tt
    → (v.submitted_by_user_id ≡ some a.user_id) ⊎ (a.actor_role ≡ UserRole.admin)
unfolding check_submitter
check_submitter_ok v a h = ground arith

-- What a withdrawal has checked and written.
record Withdrawn (p : Principal) (input : DecisionInput) (now : ℕ) (w w' : World)
    (d : TranscriptRevision) : Type 0 where
  state : LoadedCommandState
  stored : row input.recording_id w.recordings ≡ some state.recording
  pending : TranscriptRevision
  checked : IsPending state input.expected_revision_id pending
  pending_row : row input.expected_revision_id w.revisions ≡ some pending
  by_whom : (pending.submitted_by_user_id ≡ some p.user_id) ⊎ (p.role ≡ UserRole.admin)
  replaced :
      IsReplaced state.recording.id input.expected_revision_id pending
        TranscriptRevisionState.withdrawn now w w' d

pub check_withdraw-Ensures :
    (s : LoadedCommandState) (p : Principal) (expected : Text) (w : World)
    → Ensures
        (check_withdraw s p expected)
        w
        (λ v w'. (w' ≡ w) × (IsPending s expected v × (check_submitter v s.actor ≡ ok tt)))
unfolding check_withdraw
check_withdraw-Ensures s p expected w = Ensures-lift (require_withdraw_authority s p) λ _ authority.
    Ensures-lift (current_revision_or_throw s.recording s.revision) λ v found.
      Ensures-query _ λ _ asserted. Ensures-lift (check_submitter v s.actor) λ _ submitter.
        Ensures-pure v (refl, (IsPending-checked s expected v w.db found asserted, submitter))

withdraw_revision_body-Ensures :
    (p : Principal) (input : DecisionInput) (now : ℕ) (w : World)
    → Ensures
        (withdraw_revision_body p input now)
        w
        (λ d w'. Withdrawn p input now w (committed w') d)
unfolding withdraw_revision_body
withdraw_revision_body-Ensures p input now w =
    Ensures-read _ _
      (load_command_state-Ensures p input.recording_id input.action_mode_id AssignmentRole.reviewer
        now w)
      λ s l. Ensures-read _ _ (check_withdraw-Ensures s p input.expected_revision_id w) λ v c.
        Ensures-lift (validate_governed_reason input.reason) λ reason valid.
          Ensures-weaken
            (replacement-Ensures s input.expected_revision_id v TranscriptRevisionState.withdrawn
              ApprovalState.withdrawn (some reason) AuditEventType.revision_withdrawn
              (λ d. withdrawn v.id d.id reason (overridden_submitter v s.actor)) now w)
            (λ d w' r. record {
              state = s;
              stored = l.stored;
              pending = v;
              checked = c.0;
              pending_row =
                  loaded_row w.db s input.expected_revision_id v l.current c.0.loaded c.0.current;
              by_whom =
                  ground (arith, check_submitter_ok v s.actor c.1, l.acting_user, l.acting_role);
              replaced =
                  IsReplaced-committed s.recording.id input.expected_revision_id v
                    TranscriptRevisionState.withdrawn now w w' d r;
            })

withdraw_revision_command-Ensures :
    (p : Principal) (input : DecisionInput) (now : ℕ) (w : World)
    → Ensures (withdraw_revision_command p input now) w (λ d w'. Withdrawn p input now w w' d)
unfolding withdraw_revision_command
withdraw_revision_command-Ensures p input now w =
    Ensures-lift
      (require_expected_id input.expected_revision_id (units "expectedPendingRevisionId"))
      λ _ named.
        Ensures-transaction (withdraw_revision_body p input) now
          (withdraw_revision_body-Ensures p input now w)

-- A withdrawal that succeeds takes a casefile from awaiting a decision on the revision that the
-- caller named to a draft, which the command returns.
pub withdraw_revision_command-HasPhase :
    (p : Principal) (input : DecisionInput) (now : ℕ) (w w' : World) (d : TranscriptRevision)
    (ph : Phase)
    → withdraw_revision_command p input now w ≡ (ok d, w')
    → HasPhase w.db input.recording_id ph
    → (ph ≡ awaiting input.expected_revision_id) × HasPhase w'.db input.recording_id (drafting d.id)
withdraw_revision_command-HasPhase p input now w w' d ph h has =
    let r = (withdraw_revision_command-Ensures p input now w).at d w' h in
    IsReplaced-HasPhase r.state input.recording_id input.expected_revision_id r.pending
      TranscriptRevisionState.withdrawn now w w' d ph r.stored r.checked r.replaced has

-- Only the account that submitted a revision, or an administrator, can withdraw it. The draft has
-- the segments of that revision and is based on it, the revision is kept as withdrawn, and no other
-- revision changes.
pub withdraw_revision_command_lem :
    (p : Principal) (input : DecisionInput) (now : ℕ) (w w' : World) (d : TranscriptRevision)
    → withdraw_revision_command p input now w ≡ (ok d, w')
    → (v : TranscriptRevision) × (row input.expected_revision_id w.revisions ≡ some v)
      × ((v.submitted_by_user_id ≡ some p.user_id) ⊎ (p.role ≡ UserRole.admin))
      × (d.segments ≡ v.segments)
      × (d.based_on_revision_id ≡ some v.id)
      × (w'.revisions
          ≡ update_row input.expected_revision_id
              (with_state TranscriptRevisionState.withdrawn)
              w.revisions
            ++ d ∷ [])
withdraw_revision_command_lem p input now w w' d h =
    let r = (withdraw_revision_command-Ensures p input now w).at d w' h in
    (
      r.pending,
      r.pending_row,
      r.by_whom,
      r.replaced.segments,
      r.replaced.based_on,
      rw (sym r.checked.named) r.replaced.revisions,
    )
