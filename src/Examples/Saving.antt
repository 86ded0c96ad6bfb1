-- ===== src/Examples/Saving.antt =====
-- That a save goes through, on the example.
use superscriber.Prelude.{
  Text, ℕ, none, some, true, false, ◌≡◌, refl, List, [], ◌∷◌, ◌++◌, units, has_key,
}
use superscriber.Domain.Models.{AssignmentRole, TranscriptRevision, TranscriptSegment}
use superscriber.Domain.Errors.{ok}
use superscriber.Domain.Speakers.{normalize_speaker_labels}
use superscriber.Casefile.Capabilities.{active_reviewer}
use superscriber.Casefile.Edits.{apply_segment_edits}
use superscriber.Casefile.Store.{World, audit_keyed, revision_keyed}
use superscriber.Casefile.Store.Audit.{actor_context_for_principal}
use superscriber.Casefile.Commands.State.{LoadedCommandState, command_actor, require_expected_id}
use superscriber.Casefile.Commands.Load.{load_command_state}
use superscriber.Casefile.Commands.Drafts.{check_save, save_draft_command}
use superscriber.Casefile.Commands.Drafts.SaveGranted.{save_draft_command-Succeeds}
use superscriber.Examples.{
  reviewer, casefile, workspace, first_draft, first_segment, second_segment, edit_input, start,
}

abbrev state : LoadedCommandState
state = record {
  workspace = workspace;
  recording = casefile;
  revision = some first_draft;
  grant = active_reviewer (units "rec") (units "a1");
  actor = command_actor reviewer AssignmentRole.reviewer (actor_context_for_principal reviewer);
}

abbrev corrected : List TranscriptSegment
corrected = record first_segment { text = units "hallo" } ∷ second_segment ∷ []

state_loads :
    load_command_state reviewer (units "rec") none AssignmentRole.reviewer 5 start
    ≡ (ok state, start)
unfolding load_command_state superscriber.Prelude.Text-discrete
    superscriber.Casefile.Access.resolve_casefile_access
    superscriber.Casefile.Access.find_active_assignment
    superscriber.Casefile.ActionMode.resolve_actor_context actor_context_for_principal
state_loads = refl

may_save : check_save state reviewer (units "r1") start ≡ (ok first_draft, start)
unfolding check_save superscriber.Prelude.Text-discrete
    superscriber.Casefile.Capabilities.derive_casefile_capabilities
may_save = refl

draft_named : require_expected_id (units "r1") (units "expectedCurrentRevisionId") ≡ ok tt
unfolding require_expected_id superscriber.Prelude.trim
draft_named = refl

edits_fold : apply_segment_edits first_draft.segments edit_input.edits ≡ ok corrected
unfolding apply_segment_edits superscriber.Prelude.Text-discrete
edits_fold = refl

labels_pass : normalize_speaker_labels corrected ≡ ok corrected
unfolding normalize_speaker_labels superscriber.Domain.Speakers.validate_speaker_name
    superscriber.Prelude.trim
labels_pass = refl

new_revision : has_key (units "rev-" ++ start.uuids 0) start.revisions ≡ false
unfolding superscriber.Prelude.Text-discrete
new_revision = refl

save_draft_command-Succeeds_example :
    (d : TranscriptRevision) × (w' : World) × (save_draft_command reviewer edit_input 5 start
      ≡ (ok d, w'))
save_draft_command-Succeeds_example =
    save_draft_command-Succeeds reviewer edit_input 5 7 start state first_draft corrected corrected
      draft_named state_loads may_save edits_fold labels_pass new_revision refl refl
