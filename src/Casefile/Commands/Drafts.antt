-- ===== src/Casefile/Commands/Drafts.antt =====
-- Saving a draft, renaming a speaker in it, and submitting it (`saveDraftCommand`,
-- `renameSpeakerCommand` and `submitRevisionCommand` of src/server/casefile/commands.ts).
pub mod Saved
pub mod Save
pub mod SaveGranted
pub mod Rename
pub mod Submit
use superscriber.Prelude.{
  Text, ℕ, Option, none, some, Bool, true, false, not, List, [], ◌∷◌, ◌++◌, map, ◌===◌, text_equal,
  ◌&&◌, is, units, trim, non_empty, if◌then◌else◌,
}
use superscriber.Domain.Models.{
  UserRole, AssignmentRole, ApprovalState, Principal, Recording, RecordingAssignment,
  TranscriptRevision, TranscriptRevisionState, TranscriptSegmentEdit, AuditEventType,
  user_role_equal,
}
use superscriber.Domain.Errors.{Result, ok, err}
use superscriber.Domain.Speakers.{SpeakerRenamePlan, plan_speaker_rename, apply_speaker_rename}
use superscriber.Casefile.Edits.{apply_segment_edits, summarize_segment_edits}
use superscriber.Casefile.Store.{World, saved, submitted, speakers_renamed}
use superscriber.Casefile.Store.Exec.{
  Exec, ◌>>=◌, ◌>>◌, pure, query, lift, modify, run_governed_transaction,
}
use superscriber.Casefile.Store.Audit.{insert_audit_event}
use superscriber.Casefile.Commands.State.{
  LoadedCommandState, require_expected_id, current_revision_or_throw, assert_draft_state,
}
use superscriber.Casefile.Commands.Load.{load_command_state}
use superscriber.Casefile.Commands.Authority.{require_save_authority, require_submit_authority}
use superscriber.Casefile.Commands.Rows.{
  context_of, insert_decision_row, save_draft_in_transaction, update_revision, update_recording,
  with_pointers,
}

pub record SaveDraftInput : Type 0 where
  pub recording_id : Text
  pub expected_current_revision_id : Text
  pub edits : List TranscriptSegmentEdit
  pub summary : Text
  pub action_mode_id : Option Text

pub record SubmitInput : Type 0 where
  pub save : SaveDraftInput
  pub open save use *
  pub has_unsaved_changes : Bool

pub record RenameSpeakerInput : Type 0 where
  pub recording_id : Text
  pub expected_current_revision_id : Text
  pub from_speaker : Text
  pub to_speaker : Text
  pub summary : Option Text
  pub action_mode_id : Option Text

-- The checks of a save, in the order of the source.
unfoldable pub check_save : LoadedCommandState → Principal → Text → Exec TranscriptRevision
unfolding require_save_authority current_revision_or_throw assert_draft_state
check_save state p expected = do
  lift (require_save_authority state p)
  prior ← lift (current_revision_or_throw state.recording state.revision)
  query (λ db. assert_draft_state db state.recording prior expected)
  pure prior

unfoldable pub save_draft_body : Principal → SaveDraftInput → ℕ → Exec TranscriptRevision
unfolding load_command_state check_save apply_segment_edits save_draft_in_transaction
    insert_audit_event
save_draft_body p input now = do
  state ← load_command_state p input.recording_id input.action_mode_id AssignmentRole.reviewer now
  prior ← check_save state p input.expected_current_revision_id
  merged ← lift (apply_segment_edits prior.segments input.edits)
  next ← save_draft_in_transaction state.actor state.recording prior merged input.summary now false
  event ←
      insert_audit_event state.workspace.id (some state.recording.id)
        (some (context_of state.actor)) AuditEventType.revision_saved
        (saved prior.id next.id next.version (summarize_segment_edits input.edits)) now
  pure next

unfoldable pub save_draft_command : Principal → SaveDraftInput → ℕ → Exec TranscriptRevision
unfolding require_expected_id save_draft_body run_governed_transaction
save_draft_command p input now = do
  lift (require_expected_id input.expected_current_revision_id (units "expectedCurrentRevisionId"))
  run_governed_transaction (save_draft_body p input) now

-- The revision that is submitted: the loaded one, or a save of the pending edits.
unfoldable pub submit_target :
    LoadedCommandState → TranscriptRevision → SubmitInput → ℕ → Exec TranscriptRevision
unfolding apply_segment_edits save_draft_in_transaction
submit_target state current input now = elim input.has_unsaved_changes [
  | true ↦ do
    merged ← lift (apply_segment_edits current.segments input.edits)
    save_draft_in_transaction state.actor state.recording current merged input.summary now false
  | false ↦ pure current
]

abbrev pub as_submitted : Text → ℕ → TranscriptRevision → TranscriptRevision
as_submitted user_id now r = record r {
  state = TranscriptRevisionState.pending_approval;
  submitted_by_user_id = some user_id;
  submitted_at = some now;
}

unfoldable pub check_submit : LoadedCommandState → Principal → Text → Exec TranscriptRevision
unfolding require_submit_authority current_revision_or_throw assert_draft_state
check_submit state p expected = do
  lift (require_submit_authority state p)
  current ← lift (current_revision_or_throw state.recording state.revision)
  query (λ db. assert_draft_state db state.recording current expected)
  pure current

unfoldable pub submit_revision_body : Principal → SubmitInput → ℕ → Exec TranscriptRevision
unfolding load_command_state check_submit submit_target insert_decision_row insert_audit_event
submit_revision_body p input now = do
  state ← load_command_state p input.recording_id input.action_mode_id AssignmentRole.reviewer now
  current ← check_submit state p input.expected_current_revision_id
  target ← submit_target state current input now
  modify (update_revision target.id (as_submitted state.actor.user_id now))
  modify (
      update_recording state.recording.id
        (λ r. with_pointers (some target.id) (some target.id) r.approved_revision_id now r))
  insert_decision_row state.recording.id target.id ApprovalState.pending state.actor now none
  event ←
      insert_audit_event state.workspace.id (some state.recording.id)
        (some (context_of state.actor)) AuditEventType.revision_submitted
        (submitted target.id target.version
          (if input.has_unsaved_changes then some (summarize_segment_edits input.edits) else none))
        now
  pure (as_submitted state.actor.user_id now target)

unfoldable pub submit_revision_command : Principal → SubmitInput → ℕ → Exec TranscriptRevision
unfolding require_expected_id submit_revision_body run_governed_transaction
submit_revision_command p input now = do
  lift (require_expected_id input.expected_current_revision_id (units "expectedCurrentRevisionId"))
  run_governed_transaction (submit_revision_body p input) now

-- The summary of a rename that is given none: `Renamed speaker "…" to "…".`
abbrev pub rename_default : SpeakerRenamePlan → Text
rename_default plan =
    units "Renamed speaker "
    ++ b'"'
      ∷ (plan.from_speaker ++ b'"' ∷ (units " to " ++ b'"' ∷ (plan.to_speaker ++ b'"' ∷ units ".")))

unfoldable pub rename_summary : Option Text → SpeakerRenamePlan → Text
rename_summary none plan = rename_default plan
rename_summary (some s) plan = if non_empty (trim s) then trim s else rename_default plan

unfoldable pub rename_speaker_body :
    Principal → RenameSpeakerInput → ℕ → Exec (TranscriptRevision × SpeakerRenamePlan)
unfolding load_command_state check_save plan_speaker_rename apply_speaker_rename
    save_draft_in_transaction rename_summary insert_audit_event
rename_speaker_body p input now = do
  state ← load_command_state p input.recording_id input.action_mode_id AssignmentRole.reviewer now
  prior ← check_save state p input.expected_current_revision_id
  plan ← lift (plan_speaker_rename prior.segments input.from_speaker input.to_speaker)
  let renamed = apply_speaker_rename prior.segments plan.from_speaker plan.to_speaker
  next ←
      save_draft_in_transaction state.actor state.recording prior renamed
        (rename_summary input.summary plan) now true
  event ←
      insert_audit_event state.workspace.id (some state.recording.id)
        (some (context_of state.actor)) AuditEventType.revision_speakers_renamed
        (speakers_renamed prior.id next.id next.version plan) now
  pure (next, plan)

unfoldable pub rename_speaker_command :
    Principal → RenameSpeakerInput → ℕ → Exec (TranscriptRevision × SpeakerRenamePlan)
unfolding require_expected_id rename_speaker_body run_governed_transaction
rename_speaker_command p input now = do
  lift (require_expected_id input.expected_current_revision_id (units "expectedCurrentRevisionId"))
  run_governed_transaction (rename_speaker_body p input) now
