-- ===== src/Casefile/Commands/Drafts/Rename.antt =====
-- What renaming a speaker in a draft does (`renameSpeakerCommand` of src/server/casefile/commands.ts).
use superscriber.Prelude.{ℕ, some, true, ◌≡◌, arith, row, text_equal, units, ◌+◌}
use superscriber.Domain.Models.{Principal, TranscriptRevision, AssignmentRole, AuditEventType}
use superscriber.Domain.Errors.{ok}
use superscriber.Domain.Speakers.{
  SpeakerRenamePlan, apply_speaker_rename, normalize_speaker_labels, plan_speaker_rename,
}
use superscriber.Domain.Speakers.Rename.{
  plan_speaker_rename-IsPlanOf, plan_speaker_rename-normalize, spoken, spoken-apply_speaker_rename,
}
use superscriber.Casefile.Store.{World, speakers_renamed, recording_keyed, revision_keyed}
use superscriber.Casefile.Store.Exec.{committed}
use superscriber.Casefile.Store.Ensures.{
  Ensures, Ensures-bind, Ensures-lift, Ensures-read, Ensures-pure, Ensures-transaction,
}
use superscriber.Casefile.Store.Audit.{insert_audit_event-Ensures}
use superscriber.Casefile.Commands.State.{LoadedCommandState, require_expected_id}
use superscriber.Casefile.Commands.State.Laws.{IsDraft, loaded_row}
use superscriber.Casefile.Commands.Load.{load_command_state-Ensures}
use superscriber.Casefile.Commands.Phases.{Phase, drafting, HasPhase}
use superscriber.Casefile.Commands.Rows.{context_of}
use superscriber.Casefile.Commands.Drafts.{
  RenameSpeakerInput, rename_speaker_body, rename_speaker_command, rename_summary,
}
use superscriber.Casefile.Commands.Drafts.Saved.{
  IsSaved, IsSaved-HasPhase, check_save-Ensures, save_draft_in_transaction-Ensures,
}

-- What a rename has checked and written.
record Renamed (input : RenameSpeakerInput) (now : ℕ) (w w' : World) (d : TranscriptRevision)
    (plan : SpeakerRenamePlan) : Type 0 where
  state : LoadedCommandState
  stored : row input.recording_id w.recordings ≡ some state.recording
  prior : TranscriptRevision
  checked : IsDraft state input.expected_current_revision_id prior
  prior_row : row input.expected_current_revision_id w.revisions ≡ some prior
  planned : plan_speaker_rename prior.segments input.from_speaker input.to_speaker ≡ ok plan
  saves :
      IsSaved state.recording.id prior
        (apply_speaker_rename prior.segments plan.from_speaker plan.to_speaker)
        (rename_summary input.summary plan)
        true
        now
        w
        w'
        d

rename_speaker_body-Ensures :
    (p : Principal) (input : RenameSpeakerInput) (now : ℕ) (w : World)
    → Ensures
        (rename_speaker_body p input now)
        w
        (λ r w'. Renamed input now w (committed w') r.0 r.1)
unfolding rename_speaker_body
rename_speaker_body-Ensures p input now w =
    Ensures-read _ _
      (load_command_state-Ensures p input.recording_id input.action_mode_id AssignmentRole.reviewer
        now w)
      λ s l.
        Ensures-read _ _ (check_save-Ensures s p input.expected_current_revision_id w) λ prior c.
          Ensures-lift (plan_speaker_rename prior.segments input.from_speaker input.to_speaker)
            λ plan planned.
              Ensures-bind _ _
                (save_draft_in_transaction-Ensures s.actor s.recording prior
                  (apply_speaker_rename prior.segments plan.from_speaker plan.to_speaker)
                  (rename_summary input.summary plan) now true w)
                λ d w1 stores.
                  Ensures-bind _ _
                    (insert_audit_event-Ensures s.workspace.id (some s.recording.id)
                      (some (context_of s.actor)) AuditEventType.revision_speakers_renamed
                      (speakers_renamed prior.id d.id d.version plan) now w1)
                    λ event w2 audited.
                      Ensures-pure (d, plan)
                        (record {
                          state = s;
                          stored = l.stored;
                          prior = prior;
                          checked = c;
                          prior_row =
                              loaded_row w.db s input.expected_current_revision_id prior l.current
                                c.loaded c.current;
                          planned = planned;
                          saves = record {
                            recordings = ground arith;
                            revisions = ground arith;
                            fresh = stores.fresh;
                            draft = stores.draft;
                            based_on = stores.based_on;
                            of_recording = stores.of_recording;
                            version = stores.version;
                            described = stores.described;
                            complete = stores.complete;
                            labelled = stores.labelled;
                            unsubmitted = stores.unsubmitted;
                            assignments = ground arith;
                          };
                        })

rename_speaker_command-Ensures :
    (p : Principal) (input : RenameSpeakerInput) (now : ℕ) (w : World)
    → Ensures (rename_speaker_command p input now) w (λ r w'. Renamed input now w w' r.0 r.1)
unfolding rename_speaker_command
rename_speaker_command-Ensures p input now w =
    Ensures-lift
      (require_expected_id input.expected_current_revision_id (units "expectedCurrentRevisionId"))
      λ _ named.
        Ensures-transaction (rename_speaker_body p input) now
          (rename_speaker_body-Ensures p input now w)

module _ (p : Principal) (input : RenameSpeakerInput) (now : ℕ) (w w' : World)
    (d : TranscriptRevision) (plan : SpeakerRenamePlan)
    (renamed : rename_speaker_command p input now w ≡ (ok (d, plan), w')) where
  -- A rename that succeeds takes a casefile from a draft of the revision that the caller named to a
  -- draft of the revision that the command returns.
  pub rename_speaker_command-HasPhase :
      (ph : Phase)
      → HasPhase w.db input.recording_id ph
      → (ph ≡ drafting input.expected_current_revision_id)
        × HasPhase w'.db input.recording_id (drafting d.id)
  rename_speaker_command-HasPhase ph has =
      let r = (rename_speaker_command-Ensures p input now w).at (d, plan) w' renamed in
      IsSaved-HasPhase r.state input.recording_id input.expected_current_revision_id r.prior
        (apply_speaker_rename r.prior.segments plan.from_speaker plan.to_speaker)
        (rename_summary input.summary plan) true now w w' d ph r.stored r.checked r.prior_row
        r.saves has

  -- A rename makes a new revision of the draft that the caller named, in which no segment has the old
  -- speaker and the new speaker has the segments of both. If the labels of the draft were normalised
  -- then those of the new revision are, although a rename does not normalise them.
  pub rename_speaker_command_lem :
      (v : TranscriptRevision) × (row input.expected_current_revision_id w.revisions ≡ some v)
      × (spoken input.from_speaker d.segments ≡ 0)
      × (spoken plan.to_speaker d.segments
          ≡ spoken input.from_speaker v.segments + spoken plan.to_speaker v.segments)
      × (normalize_speaker_labels v.segments ≡ ok v.segments
          → normalize_speaker_labels d.segments ≡ ok d.segments)
      × (d.based_on_revision_id ≡ some v.id)
  rename_speaker_command_lem =
      let r = (rename_speaker_command-Ensures p input now w).at (d, plan) w' renamed in
      let k =
        plan_speaker_rename-IsPlanOf r.prior.segments input.from_speaker input.to_speaker plan
          r.planned in
      let counts =
        spoken-apply_speaker_rename input.from_speaker plan.to_speaker r.prior.segments
          k.distinct in
      (
        r.prior,
        r.prior_row,
        ground (arith, counts, k.same_speaker, r.saves.labelled),
        ground (arith, counts, k.same_speaker, r.saves.labelled),
        λ n. ground (
          arith,
          r.saves.labelled,
          plan_speaker_rename-normalize r.prior.segments input.from_speaker input.to_speaker plan n
              r.planned,
        ),
        r.saves.based_on,
      )
