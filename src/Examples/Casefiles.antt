-- ===== src/Examples/Casefiles.antt =====
-- Saving, renaming, submitting, and the whole of a casefile's life, on the example.
use superscriber.Prelude.{
  Text, ℕ, Option, none, some, true, false, ◌≡◌, refl, List, [], ◌∷◌, ◌++◌, map, row, update_row,
  units, ◌⊎◌, ◌+◌, text_equal,
}
use superscriber.Domain.Models.{TranscriptRevision, TranscriptRevisionState}
use superscriber.Domain.Errors.{ok}
use superscriber.Domain.Speakers.{normalize_speaker_labels, SpeakerRenamePlan}
use superscriber.Domain.Speakers.Rename.{spoken}
use superscriber.Casefile.Edits.Laws.{edited}
use superscriber.Casefile.Store.{World, recording_keyed, revision_keyed}
use superscriber.Casefile.Commands.Phases.{drafting, HasPhase}
use superscriber.Casefile.Commands.Rows.{next_revision_version, with_state}
use superscriber.Casefile.Commands.Drafts.{
  save_draft_command, submit_revision_command, rename_speaker_command,
}
use superscriber.Casefile.Commands.Drafts.Save.{save_draft_command_lem}
use superscriber.Casefile.Commands.Drafts.Submit.{Submits, submit_revision_command_lem}
use superscriber.Casefile.Commands.Drafts.Rename.{rename_speaker_command_lem}
use superscriber.Examples.{
  reviewer, start, casefile, first_draft, edit_input, submit_input, rename_input, value_or,
}

-- The example is a draft.
pub start-HasPhase : HasPhase start.db (units "rec") (drafting (units "r1"))
unfolding superscriber.Prelude.Text-discrete
start-HasPhase = record {
  recording = casefile;
  stored = refl;
  current = refl;
  pending = refl;
  approved = refl;
  state = refl;
}

abbrev saved : TranscriptRevision
unfolding save_draft_command
saved = value_or first_draft (save_draft_command reviewer edit_input 5 start)

abbrev after_save : World
unfolding save_draft_command
after_save = (save_draft_command reviewer edit_input 5 start).1

save_run : save_draft_command reviewer edit_input 5 start ≡ (ok saved, after_save)
unfolding save_draft_command superscriber.Prelude.trim superscriber.Prelude.Text-discrete
    superscriber.Casefile.Access.resolve_casefile_access
    superscriber.Casefile.Access.find_active_assignment
    superscriber.Casefile.ActionMode.resolve_actor_context
    superscriber.Casefile.Store.Audit.actor_context_for_principal
    superscriber.Casefile.Capabilities.derive_casefile_capabilities
    superscriber.Casefile.Edits.assert_complete_segments normalize_speaker_labels
    superscriber.Domain.Speakers.validate_speaker_name next_revision_version
save_run = refl

save_draft_command_lem_example :
    (v : TranscriptRevision) × (row (units "r1") start.revisions ≡ some v)
    × (normalize_speaker_labels (map (edited edit_input.edits) v.segments) ≡ ok saved.segments)
    × (saved.based_on_revision_id ≡ some v.id)
    × (saved.version ≡ next_revision_version start.db (units "rec"))
    × (after_save.revisions
        ≡ update_row v.id (with_state TranscriptRevisionState.superseded) start.revisions
          ++ saved ∷ [])
save_draft_command_lem_example =
    save_draft_command_lem reviewer edit_input 5 start after_save saved save_run

abbrev renamed : TranscriptRevision × SpeakerRenamePlan
unfolding rename_speaker_command
renamed =
    value_or
      (
        first_draft,
        record {
          from_speaker = [];
          to_speaker = [];
          renamed_segment_count = 0;
          existing_target_segment_count = 0;
          merges_with_existing = false;
          segment_ids = [];
        },
      )
      (rename_speaker_command reviewer rename_input 5 start)

abbrev after_rename : World
unfolding rename_speaker_command
after_rename = (rename_speaker_command reviewer rename_input 5 start).1

rename_run : rename_speaker_command reviewer rename_input 5 start ≡ (ok renamed, after_rename)
unfolding rename_speaker_command superscriber.Prelude.trim superscriber.Prelude.Text-discrete
    superscriber.Casefile.Access.resolve_casefile_access
    superscriber.Casefile.Access.find_active_assignment
    superscriber.Casefile.ActionMode.resolve_actor_context
    superscriber.Casefile.Store.Audit.actor_context_for_principal
    superscriber.Casefile.Capabilities.derive_casefile_capabilities
    superscriber.Casefile.Edits.assert_complete_segments normalize_speaker_labels
    superscriber.Domain.Speakers.validate_speaker_name next_revision_version
rename_run = refl

rename_speaker_command_lem_example :
    (v : TranscriptRevision) × (row (units "r1") start.revisions ≡ some v)
    × (spoken (units "B") renamed.0.segments ≡ 0)
    × (spoken renamed.1.to_speaker renamed.0.segments
        ≡ spoken (units "B") v.segments + spoken renamed.1.to_speaker v.segments)
    × (normalize_speaker_labels v.segments ≡ ok v.segments
        → normalize_speaker_labels renamed.0.segments ≡ ok renamed.0.segments)
    × (renamed.0.based_on_revision_id ≡ some v.id)
rename_speaker_command_lem_example =
    rename_speaker_command_lem reviewer rename_input 5 start after_rename renamed.0 renamed.1
      rename_run

abbrev pub submitted : TranscriptRevision
unfolding submit_revision_command
submitted = value_or first_draft (submit_revision_command reviewer submit_input 5 start)

abbrev pub awaiting_decision : World
unfolding submit_revision_command
awaiting_decision = (submit_revision_command reviewer submit_input 5 start).1

pub submit_run :
    submit_revision_command reviewer submit_input 5 start ≡ (ok submitted, awaiting_decision)
unfolding submit_revision_command superscriber.Prelude.trim superscriber.Prelude.Text-discrete
    superscriber.Casefile.Access.resolve_casefile_access
    superscriber.Casefile.Access.find_active_assignment
    superscriber.Casefile.ActionMode.resolve_actor_context
    superscriber.Casefile.Store.Audit.actor_context_for_principal
    superscriber.Casefile.Capabilities.derive_casefile_capabilities
    superscriber.Casefile.Edits.assert_complete_segments normalize_speaker_labels
    superscriber.Domain.Speakers.validate_speaker_name next_revision_version
submit_run = refl

submit_revision_command_lem_example :
    (u : TranscriptRevision) × (row (units "r1") start.revisions ≡ some u)
    × Submits submit_input u submitted
    × (row submitted.id awaiting_decision.revisions ≡ some submitted)
    × (submitted.state ≡ TranscriptRevisionState.pending_approval)
    × (submitted.submitted_by_user_id ≡ some (units "u1"))
    × (submitted.submitted_at ≡ some 5)
submit_revision_command_lem_example =
    submit_revision_command_lem reviewer submit_input 5 start awaiting_decision submitted submit_run
