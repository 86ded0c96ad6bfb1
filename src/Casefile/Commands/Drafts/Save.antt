-- ===== src/Casefile/Commands/Drafts/Save.antt =====
-- What saving a draft does (`saveDraftCommand` of src/server/casefile/commands.ts).
use superscriber.Prelude.{
  ℕ, some, false, ◌≡◌, sym, arith, [], ◌∷◌, ◌++◌, row, map, update_row, text_equal, units, row-key,
}
use superscriber.Domain.Models.{
  Principal, TranscriptRevision, TranscriptRevisionState, AssignmentRole, AuditEventType,
}
use superscriber.Domain.Errors.{ok}
use superscriber.Domain.Speakers.{normalize_speaker_labels}
use superscriber.Casefile.Edits.{apply_segment_edits, summarize_segment_edits}
use superscriber.Casefile.Edits.Laws.{edited, apply_segment_edits_lem}
use superscriber.Casefile.Store.{World, saved, recording_keyed, revision_keyed}
use superscriber.Casefile.Store.Exec.{committed}
use superscriber.Casefile.Store.Ensures.{
  Ensures, Ensures-bind, Ensures-lift, Ensures-read, Ensures-pure, Ensures-transaction,
}
use superscriber.Casefile.Store.Audit.{insert_audit_event-Ensures}
use superscriber.Casefile.Commands.State.{LoadedCommandState, require_expected_id}
use superscriber.Casefile.Commands.State.Laws.{IsDraft, loaded_row}
use superscriber.Casefile.Commands.Load.{load_command_state-Ensures}
use superscriber.Casefile.Commands.Phases.{Phase, drafting, HasPhase}
use superscriber.Casefile.Commands.Rows.{context_of, next_revision_version, with_state}
use superscriber.Casefile.Commands.Drafts.{SaveDraftInput, save_draft_body, save_draft_command}
use superscriber.Casefile.Commands.Drafts.Saved.{
  IsSaved, IsSaved-HasPhase, check_save-Ensures, save_draft_in_transaction-Ensures,
}

-- What a save has checked and written.
record Saved (input : SaveDraftInput) (now : ℕ) (w w' : World) (d : TranscriptRevision)
    : Type 0 where
  state : LoadedCommandState
  stored : row input.recording_id w.recordings ≡ some state.recording
  prior : TranscriptRevision
  checked : IsDraft state input.expected_current_revision_id prior
  prior_row : row input.expected_current_revision_id w.revisions ≡ some prior
  saves :
      IsSaved state.recording.id prior
        (map (edited input.edits) prior.segments)
        input.summary
        false
        now
        w
        w'
        d

save_draft_body-Ensures :
    (p : Principal) (input : SaveDraftInput) (now : ℕ) (w : World)
    → Ensures (save_draft_body p input now) w (λ d w'. Saved input now w (committed w') d)
unfolding save_draft_body
save_draft_body-Ensures p input now w =
    Ensures-read _ _
      (load_command_state-Ensures p input.recording_id input.action_mode_id AssignmentRole.reviewer
        now w)
      λ s l.
        Ensures-read _ _ (check_save-Ensures s p input.expected_current_revision_id w) λ prior c.
          Ensures-lift (apply_segment_edits prior.segments input.edits) λ merged folded.
            Ensures-bind _ _
              (save_draft_in_transaction-Ensures s.actor s.recording prior merged input.summary now
                false w)
              λ d w1 stores.
                Ensures-bind _ _
                  (insert_audit_event-Ensures s.workspace.id (some s.recording.id)
                    (some (context_of s.actor)) AuditEventType.revision_saved
                    (saved prior.id d.id d.version (summarize_segment_edits input.edits)) now w1)
                  λ event w2 audited. Ensures-pure d (record {
                    state = s;
                    stored = l.stored;
                    prior = prior;
                    checked = c;
                    prior_row =
                        loaded_row w.db s input.expected_current_revision_id prior l.current
                          c.loaded c.current;
                    saves =
                        let same =
                          apply_segment_edits_lem prior.segments input.edits merged folded in
                        record {
                          recordings = ground arith;
                          revisions = ground arith;
                          fresh = stores.fresh;
                          draft = stores.draft;
                          based_on = stores.based_on;
                          of_recording = stores.of_recording;
                          version = stores.version;
                          described = stores.described;
                          complete = rw (sym same) stores.complete;
                          labelled = rw (sym same) stores.labelled;
                          unsubmitted = stores.unsubmitted;
                          assignments = ground arith;
                        };
                  })

save_draft_command-Ensures :
    (p : Principal) (input : SaveDraftInput) (now : ℕ) (w : World)
    → Ensures (save_draft_command p input now) w (λ d w'. Saved input now w w' d)
unfolding save_draft_command
save_draft_command-Ensures p input now w =
    Ensures-lift
      (require_expected_id input.expected_current_revision_id (units "expectedCurrentRevisionId"))
      λ _ named.
        Ensures-transaction (save_draft_body p input) now (save_draft_body-Ensures p input now w)

-- A save that succeeds takes a casefile from a draft of the revision that the caller named to a draft
-- of the revision that the command returns.
pub save_draft_command-HasPhase :
    (p : Principal) (input : SaveDraftInput) (now : ℕ) (w w' : World) (d : TranscriptRevision)
    (ph : Phase)
    → save_draft_command p input now w ≡ (ok d, w')
    → HasPhase w.db input.recording_id ph
    → (ph ≡ drafting input.expected_current_revision_id)
      × HasPhase w'.db input.recording_id (drafting d.id)
save_draft_command-HasPhase p input now w w' d ph h has =
    let r = (save_draft_command-Ensures p input now w).at d w' h in
    IsSaved-HasPhase r.state input.recording_id input.expected_current_revision_id r.prior
      (map (edited input.edits) r.prior.segments) input.summary false now w w' d ph r.stored
      r.checked r.prior_row r.saves has

-- A save makes a new revision of the draft that the caller named: its segments are that draft's with
-- the edits applied one after the other and the labels normalised, it has the next version of the
-- recording, and the draft is kept as superseded. No other revision changes.
pub save_draft_command_lem :
    (p : Principal) (input : SaveDraftInput) (now : ℕ) (w w' : World) (d : TranscriptRevision)
    → save_draft_command p input now w ≡ (ok d, w')
    → (v : TranscriptRevision) × (row input.expected_current_revision_id w.revisions ≡ some v)
      × (normalize_speaker_labels (map (edited input.edits) v.segments) ≡ ok d.segments)
      × (d.based_on_revision_id ≡ some v.id)
      × (d.version ≡ next_revision_version w.db input.recording_id)
      × (w'.revisions
          ≡ update_row v.id (with_state TranscriptRevisionState.superseded) w.revisions ++ d ∷ [])
save_draft_command_lem p input now w w' d h =
    let r = (save_draft_command-Ensures p input now w).at d w' h in
    (
      r.prior,
      r.prior_row,
      r.saves.labelled,
      r.saves.based_on,
      rw (sym (row-key input.recording_id w.recordings r.state.recording r.stored)) r.saves.version,
      r.saves.revisions,
    )
