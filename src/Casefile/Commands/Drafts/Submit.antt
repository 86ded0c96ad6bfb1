-- ===== src/Casefile/Commands/Drafts/Submit.antt =====
-- What submitting a draft does (`submitRevisionCommand` of src/server/casefile/commands.ts).

use superscriber.Casefile.Commands.Drafts.{
  submit_revision_command, SubmitInput, as_submitted, submit_target, submit_revision_body,
}
use superscriber.Casefile.Commands.Phases.{
  Phase, drafting, awaiting, closed, HasPhase, phase_of_draft,
}
use superscriber.Casefile.Store.Ensures.{
  Ensures-transaction, Ensures, Ensures-bind, Ensures-lift, Ensures-read, Ensures-modify,
  Ensures-pure, Ensures-weaken,
}
use superscriber.Casefile.Commands.State.{require_expected_id, LoadedCommandState}
use superscriber.Prelude.{
  units, subst, Text, ℕ, none, some, true, false, ◌≡◌, refl, sym, arith, row, map, update_row,
  text_equal, row-key, ◌⊎◌, inl, inr, row-append, row-update_row, if◌then◌else◌, ap, Bool-cases,
}
use superscriber.Domain.Models.{
  Principal, TranscriptRevision, TranscriptRevisionState, AssignmentRole, AuditEventType, Recording,
  ApprovalState,
}
use superscriber.Domain.Errors.{ok}
use superscriber.Domain.Speakers.{normalize_speaker_labels}
use superscriber.Casefile.Edits.{apply_segment_edits, summarize_segment_edits}
use superscriber.Casefile.Edits.Laws.{edited, apply_segment_edits_lem}
use superscriber.Casefile.Store.{World, submitted, recording_keyed, revision_keyed}
use superscriber.Casefile.Store.Exec.{committed}
use superscriber.Casefile.Store.Audit.{insert_audit_event-Ensures}
use superscriber.Casefile.Commands.State.Laws.{IsDraft, loaded_row}
use superscriber.Casefile.Commands.Load.{load_command_state-Ensures}
use superscriber.Casefile.Commands.Rows.{
  context_of, with_pointers, with_state, update_recording, update_revision,
}
use superscriber.Casefile.Commands.Rows.Laws.{insert_decision_row-Ensures}
use superscriber.Casefile.Commands.Drafts.Saved.{
  check_submit-Ensures, save_draft_in_transaction-Ensures, saved_pointers,
}

-- The segments of what is submitted: those of the draft that was loaded, or those that a save of the
-- pending edits gives.
abbrev pub Submits : SubmitInput → TranscriptRevision → TranscriptRevision → Type 0
Submits input prior target =
    ((input.has_unsaved_changes ≡ false)
      × (target.id ≡ prior.id)
      × (target.segments ≡ prior.segments))
    ⊎ ((input.has_unsaved_changes ≡ true)
        × (target.based_on_revision_id ≡ some prior.id)
        × (normalize_speaker_labels (map (edited input.edits) prior.segments) ≡ ok target.segments))

-- The revision that is submitted is stored, and the recording has kept its approved revision.
record IsTarget (input : SubmitInput) (r : Recording) (prior : TranscriptRevision) (w w1 : World)
    (t : TranscriptRevision) : Type 0 where
  submits : Submits input prior t
  found : row t.id w1.revisions ≡ some t
  recording : Recording
  stored : row r.id w1.recordings ≡ some recording
  approved : recording.approved_revision_id ≡ r.approved_revision_id
  assignments : w1.assignments ≡ w.assignments

submit_target-Ensures :
    (s : LoadedCommandState) (prior : TranscriptRevision) (input : SubmitInput) (now : ℕ)
    (w : World)
    → row s.recording.id w.recordings ≡ some s.recording
    → row prior.id w.revisions ≡ some prior
    → Ensures (submit_target s prior input now) w (λ t w1. IsTarget input s.recording prior w w1 t)
unfolding submit_target
submit_target-Ensures s prior input now w stored found =
    elim (Bool-cases input.has_unsaved_changes) [
      | inl pending ↦ rw pending (
          Ensures-lift (apply_segment_edits prior.segments input.edits) λ merged folded.
            Ensures-weaken
              (save_draft_in_transaction-Ensures s.actor s.recording prior merged input.summary now
                false w)
              (λ t w1 saves.
                let same = apply_segment_edits_lem prior.segments input.edits merged folded in
                record {
                  submits = inr (refl, saves.based_on, rw (sym same) saves.labelled);
                  found = rw saves.revisions (
                      ground (
                        arith,
                        row-append t.id t
                            (update_row prior.id (with_state TranscriptRevisionState.superseded)
                              w.revisions)
                            saves.fresh,
                      ));
                  recording = saved_pointers t.id now s.recording;
                  stored = rw saves.recordings (
                      ground (
                        arith,
                        stored,
                        row-update_row s.recording.id s.recording.id (saved_pointers t.id now)
                            w.recordings (λ r. refl),
                      ));
                  approved = refl;
                  assignments = saves.assignments;
                }))
      | inr none_pending ↦ rw none_pending (
          Ensures-pure prior (record {
            submits = inl (refl, refl, refl);
            found = found;
            recording = s.recording;
            stored = stored;
            approved = refl;
            assignments = refl;
          }))
    ]

-- What submitting has checked and written.
record Submitted (p : Principal) (input : SubmitInput) (now : ℕ) (w w' : World)
    (v : TranscriptRevision) : Type 0 where
  state : LoadedCommandState
  stored : row input.recording_id w.recordings ≡ some state.recording
  prior : TranscriptRevision
  checked : IsDraft state input.expected_current_revision_id prior
  prior_row : row input.expected_current_revision_id w.revisions ≡ some prior
  target : TranscriptRevision
  submits : Submits input prior target
  returned : v ≡ as_submitted p.user_id now target
  recording : Recording
  pointers :
      row input.recording_id w'.recordings
      ≡ some (
          with_pointers
            (some target.id)
            (some target.id)
            state.recording.approved_revision_id
            now
            recording)
  found : row target.id w'.revisions ≡ some v

submit_revision_body-Ensures :
    (p : Principal) (input : SubmitInput) (now : ℕ) (w : World)
    → Ensures
        (submit_revision_body p input now)
        w
        (λ v w'. Submitted p input now w (committed w') v)
unfolding submit_revision_body
submit_revision_body-Ensures p input now w =
    Ensures-read _ _
      (load_command_state-Ensures p input.recording_id input.action_mode_id AssignmentRole.reviewer
        now w)
      λ s l.
        Ensures-read _ _ (check_submit-Ensures s p input.expected_current_revision_id w) λ prior c.
          let at =
            loaded_row w.db s input.expected_current_revision_id prior l.current c.loaded
              c.current in
          let named = row-key input.expected_current_revision_id w.revisions prior at in
          let key = row-key input.recording_id w.recordings s.recording l.stored in
          Ensures-bind _ _
            (submit_target-Ensures s prior input now w (ground (arith, key, l.stored))
              (ground (arith, named, at)))
            λ t w1 target.
              Ensures-modify (update_revision t.id (as_submitted s.actor.user_id now)) (
                Ensures-modify
                  (update_recording s.recording.id
                    (λ r. with_pointers (some t.id) (some t.id) r.approved_revision_id now r))
                  (Ensures-bind _ _
                    (insert_decision_row-Ensures s.recording.id t.id ApprovalState.pending s.actor
                      now none _)
                    λ _ w2 decided.
                      Ensures-bind _ _
                        (insert_audit_event-Ensures s.workspace.id (some s.recording.id)
                          (some (context_of s.actor)) AuditEventType.revision_submitted
                          (submitted t.id t.version (
                            if input.has_unsaved_changes
                            then some (summarize_segment_edits input.edits)
                            else none))
                          now w2)
                        λ event w3 audited.
                          Ensures-pure (as_submitted s.actor.user_id now t) (record {
                            state = s;
                            stored = l.stored;
                            prior = prior;
                            checked = c;
                            prior_row = at;
                            target = t;
                            submits = target.submits;
                            returned = ap (λ (u : Text). as_submitted u now t) l.acting_user;
                            recording = target.recording;
                            pointers = ground (
                              arith,
                              key,
                              decided,
                              audited,
                              target.stored,
                              target.approved,
                              row-update_row s.recording.id s.recording.id
                                  (λ r.
                                    with_pointers (some t.id) (some t.id) r.approved_revision_id now
                                      r)
                                  w1.recordings (λ r. refl),
                            );
                            found = ground (
                              arith,
                              decided,
                              audited,
                              target.found,
                              row-update_row t.id t.id (as_submitted s.actor.user_id now)
                                  w1.revisions (λ r. refl),
                            );
                          })))

submit_revision_command-Ensures :
    (p : Principal) (input : SubmitInput) (now : ℕ) (w : World)
    → Ensures (submit_revision_command p input now) w (λ v w'. Submitted p input now w w' v)
unfolding submit_revision_command
submit_revision_command-Ensures p input now w =
    Ensures-lift
      (require_expected_id input.expected_current_revision_id (units "expectedCurrentRevisionId"))
      λ _ named.
        Ensures-transaction (submit_revision_body p input) now
          (submit_revision_body-Ensures p input now w)

module _ (p : Principal) (input : SubmitInput) (now : ℕ) (w w' : World) (v : TranscriptRevision)
    (done : submit_revision_command p input now w ≡ (ok v, w')) where
  -- A submission that succeeds takes a casefile from a draft of the revision that the caller named to
  -- awaiting a decision on the revision that the command returns.
  pub submit_revision_command-HasPhase :
      (ph : Phase)
      → HasPhase w.db input.recording_id ph
      → (ph ≡ drafting input.expected_current_revision_id)
        × HasPhase w'.db input.recording_id (awaiting v.id)
  submit_revision_command-HasPhase ph has =
      let r = (submit_revision_command-Ensures p input now w).at v w' done in
      let was =
        phase_of_draft w.db input.recording_id input.expected_current_revision_id r.state.recording
          r.stored r.prior ph r.checked.current r.prior_row r.checked.state has in
      (
        was,
        record {
          recording =
              with_pointers (some r.target.id) (some r.target.id)
                r.state.recording.approved_revision_id now r.recording;
          stored = r.pointers;
          current = ground (arith, r.returned);
          pending = ground (arith, r.returned);
          approved = unapproved ph has was r.state.recording r.stored;
          state = ground (arith, r.found, r.returned);
        },
      )
    where
      unapproved :
          (ph : Phase)
          → HasPhase w.db input.recording_id ph
          → ph ≡ drafting input.expected_current_revision_id
          → (r : Recording) → row input.recording_id w.recordings ≡ some r
          → r.approved_revision_id ≡ none
      unapproved (drafting a) h e r stored = ground (arith, stored, h.stored, h.approved)
      unapproved (awaiting a) h e r stored = absurd (cc)
      unapproved (closed a) h e r stored = absurd (cc)

  -- What is submitted is the draft that the caller named, or a new revision with the edits applied if
  -- there are unsaved changes. It is stored as submitted by the acting account, and the command
  -- returns it as it is stored.
  pub submit_revision_command_lem :
      (u : TranscriptRevision) × (row input.expected_current_revision_id w.revisions ≡ some u)
      × Submits input u v
      × (row v.id w'.revisions ≡ some v)
      × (v.state ≡ TranscriptRevisionState.pending_approval)
      × (v.submitted_by_user_id ≡ some p.user_id)
      × (v.submitted_at ≡ some now)
  submit_revision_command_lem =
      let r = (submit_revision_command-Ensures p input now w).at v w' done in
      (
        r.prior,
        r.prior_row,
        subst (Submits input r.prior) (sym r.returned) r.submits,
        ground (arith, r.found, r.returned),
        ground (arith, r.returned),
        ground (arith, r.returned),
        ground (arith, r.returned),
      )
