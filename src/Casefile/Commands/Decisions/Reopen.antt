-- ===== src/Casefile/Commands/Decisions/Reopen.antt =====
-- What reopening an approved transcript does (`reopenRevisionCommand` of
-- src/server/casefile/commands.ts).
use superscriber.Prelude.{
  Text, ℕ, none, some, false, ◌≡◌, refl, sym, arith, [], ◌∷◌, ◌++◌, row, ◌&&◌, ◌===◌, text_equal,
  units, has_key, row-key, update_where,
}
use superscriber.Domain.Models.{
  Principal, Recording, TranscriptRevision, TranscriptRevisionState, AssignmentRole, ApprovalState,
  AuditEventType,
}
use superscriber.Domain.Errors.{ok}
use superscriber.Domain.Stage.{validate_governed_reason}
use superscriber.Casefile.Store.{World, reopened, recording_keyed, revision_keyed}
use superscriber.Casefile.Store.Exec.{committed}
use superscriber.Casefile.Store.Ensures.{
  Ensures, Ensures-bind, Ensures-lift, Ensures-query, Ensures-read, Ensures-pure,
  Ensures-transaction,
}
use superscriber.Casefile.Store.Audit.{insert_audit_event-Ensures}
use superscriber.Casefile.Commands.State.{
  LoadedCommandState, current_revision_or_throw, require_expected_id,
}
use superscriber.Casefile.Commands.State.Laws.{IsApproved, IsApproved-checked, loaded_row}
use superscriber.Casefile.Commands.Load.{load_command_state-Ensures}
use superscriber.Casefile.Commands.Authority.{require_reopen_authority}
use superscriber.Casefile.Commands.Phases.{Phase, drafting, closed, HasPhase, phase_of_approved}
use superscriber.Casefile.Commands.Rows.{
  context_of, is_still_approved, next_revision_version, with_pointers,
}
use superscriber.Casefile.Commands.Rows.Laws.{
  append_revision-Ensures, clone_transition_draft-Ensures, drafting-HasPhase,
  insert_decision_row-Ensures, update_guarded-Ensures,
}
use superscriber.Casefile.Commands.Decisions.{
  DecisionInput, check_reopen, reopen_revision_body, reopen_revision_command,
}

abbrev reopened_pointers : Text → ℕ → Recording → Recording
reopened_pointers id now = with_pointers (some id) none none now

-- What reopening has checked and written.
record Reopened (input : DecisionInput) (now : ℕ) (w w' : World) (d : TranscriptRevision)
    : Type 0 where
  state : LoadedCommandState
  stored : row input.recording_id w.recordings ≡ some state.recording
  last : TranscriptRevision
  checked : IsApproved state input.expected_revision_id last
  last_row : row input.expected_revision_id w.revisions ≡ some last
  recordings :
      w'.recordings
      ≡ update_where
          (λ r. r.id === state.recording.id && is_still_approved input.expected_revision_id r)
          (reopened_pointers d.id now)
          w.recordings
  revisions : w'.revisions ≡ w.revisions ++ d ∷ []
  fresh : has_key d.id w.revisions ≡ false
  draft : d.state ≡ TranscriptRevisionState.draft
  segments : d.segments ≡ last.segments
  based_on : d.based_on_revision_id ≡ some last.id
  version : d.version ≡ next_revision_version w.db last.recording_id

pub check_reopen-Ensures :
    (s : LoadedCommandState) (p : Principal) (input : DecisionInput) (w : World)
    → Ensures
        (check_reopen s p input)
        w
        (λ c w'. (w' ≡ w) × IsApproved s input.expected_revision_id c.0)
unfolding check_reopen
check_reopen-Ensures s p input w = Ensures-lift (require_reopen_authority s p) λ _ authority.
    Ensures-lift (current_revision_or_throw s.recording s.revision) λ v found.
      Ensures-query _ λ _ asserted.
        Ensures-lift (validate_governed_reason input.reason) λ reason valid.
          Ensures-pure (v, reason)
            (refl, IsApproved-checked s input.expected_revision_id v w.db found asserted)

reopen_revision_body-Ensures :
    (p : Principal) (input : DecisionInput) (now : ℕ) (w : World)
    → Ensures (reopen_revision_body p input now) w (λ d w'. Reopened input now w (committed w') d)
unfolding reopen_revision_body
reopen_revision_body-Ensures p input now w =
    Ensures-read _ _
      (load_command_state-Ensures p input.recording_id input.action_mode_id AssignmentRole.approver
        now w)
      λ s l. Ensures-read _ _ (check_reopen-Ensures s p input w) λ c k.
        Ensures-bind _ _ (clone_transition_draft-Ensures c.0 s.actor now w) λ d w1 cloned.
          Ensures-bind _ _
            (update_guarded-Ensures s.recording.id input.expected_revision_id
              (is_still_approved input.expected_revision_id) (reopened_pointers d.id now) w1)
            λ _ w2 updated. Ensures-bind _ _ (append_revision-Ensures d w2) λ _ w3 appended.
              Ensures-bind _ _
                (insert_decision_row-Ensures s.recording.id c.0.id ApprovalState.reopened s.actor
                  now (some c.1) w3)
                λ _ w4 decided.
                  Ensures-bind _ _
                    (insert_audit_event-Ensures s.workspace.id (some s.recording.id)
                      (some (context_of s.actor)) AuditEventType.approval_reopened
                      (reopened c.0.id d.id c.1) now w4)
                    λ event w5 audited. Ensures-pure d (record {
                      state = s;
                      stored = l.stored;
                      last = c.0;
                      checked = k;
                      last_row =
                          loaded_row w.db s input.expected_revision_id c.0 l.current k.loaded
                            k.current;
                      recordings = ground arith;
                      revisions = ground arith;
                      fresh = ground arith;
                      draft = ground arith;
                      segments = ground arith;
                      based_on = ground arith;
                      version = ground arith;
                    })

reopen_revision_command-Ensures :
    (p : Principal) (input : DecisionInput) (now : ℕ) (w : World)
    → Ensures (reopen_revision_command p input now) w (λ d w'. Reopened input now w w' d)
unfolding reopen_revision_command
reopen_revision_command-Ensures p input now w =
    Ensures-lift
      (require_expected_id input.expected_revision_id (units "expectedApprovedRevisionId"))
      λ _ named.
        Ensures-transaction (reopen_revision_body p input) now
          (reopen_revision_body-Ensures p input now w)

-- Reopening that succeeds takes a casefile from the phase in which the revision that the caller
-- named is approved to a draft, which the command returns.
pub reopen_revision_command-HasPhase :
    (p : Principal) (input : DecisionInput) (now : ℕ) (w w' : World) (d : TranscriptRevision)
    (ph : Phase)
    → reopen_revision_command p input now w ≡ (ok d, w')
    → HasPhase w.db input.recording_id ph
    → (ph ≡ closed input.expected_revision_id) × HasPhase w'.db input.recording_id (drafting d.id)
reopen_revision_command-HasPhase p input now w w' d ph h has =
    let r = (reopen_revision_command-Ensures p input now w).at d w' h in
    (
      phase_of_approved w.db input.recording_id input.expected_revision_id r.state.recording
          r.stored ph r.checked.approved has,
      drafting-HasPhase w.db w'.db input.recording_id r.state.recording d w.revisions
          (is_still_approved input.expected_revision_id) (reopened_pointers d.id now) r.stored
          (ground (arith, r.checked)) (λ r. refl)
          (rw (sym (row-key input.recording_id w.recordings r.state.recording r.stored))
            r.recordings)
          r.fresh r.revisions r.draft refl refl refl,
    )

-- Reopening leaves every revision as it was, the approved one too, and adds a draft that is based on
-- it, with its segments and the next version.
pub reopen_revision_command_lem :
    (p : Principal) (input : DecisionInput) (now : ℕ) (w w' : World) (d : TranscriptRevision)
    → reopen_revision_command p input now w ≡ (ok d, w')
    → (v : TranscriptRevision) × (row input.expected_revision_id w.revisions ≡ some v)
      × (v.state ≡ TranscriptRevisionState.approved)
      × (d.segments ≡ v.segments)
      × (d.based_on_revision_id ≡ some v.id)
      × (d.version ≡ next_revision_version w.db v.recording_id)
      × (w'.revisions ≡ w.revisions ++ d ∷ [])
reopen_revision_command_lem p input now w w' d h =
    let r = (reopen_revision_command-Ensures p input now w).at d w' h in
    (r.last, r.last_row, r.checked.state, r.segments, r.based_on, r.version, r.revisions)
