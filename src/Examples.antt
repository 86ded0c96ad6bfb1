-- ===== src/Examples.antt =====
-- A small casefile, for the tests and the witnesses: a draft with two segments, its reviewer, its
-- approver and an administrator in an action mode.
pub mod Casefiles
pub mod Decided
pub mod Granted
pub mod Saving
pub mod Rights
pub mod Modes
pub mod Speech
pub mod Queue
mod Dispatch
mod Engines
mod Uploads
mod Assigning
use superscriber.Prelude.{Text, ℕ, Option, none, some, Bool, true, false, List, [], ◌∷◌, units}
use superscriber.Domain.Models.{
  UserRole, IntegrityState, TranscriptJobState, TranscriptRevisionState, AssignmentStatus,
  AssignmentRole, PolicyProfileId, RecordingSource, MediaKind, ActorRole, TranscriptSegment,
  Principal, Workspace, Recording, TranscriptRevision, RecordingAssignment, AdminActionSession,
}
use superscriber.Domain.Errors.{Result, ok, err}
use superscriber.Casefile.Store.{Db, World}
use superscriber.Casefile.Commands.Drafts.{SaveDraftInput, SubmitInput, RenameSpeakerInput}
use superscriber.Casefile.Commands.Decisions.{DecisionInput}

abbrev pub reviewer : Principal
reviewer = record {
  user_id = units "u1";
  email = units "u1@x";
  display_name = units "Ada";
  role = UserRole.reviewer;
}

abbrev pub approver : Principal
approver = record {
  user_id = units "u2";
  email = units "u2@x";
  display_name = units "Bo";
  role = UserRole.approver;
}

abbrev pub administrator : Principal
administrator = record {
  user_id = units "u3";
  email = units "u3@x";
  display_name = units "Cy";
  role = UserRole.admin;
}

abbrev pub first_segment : TranscriptSegment
first_segment = record {
  id = units "s1";
  speaker_label = units "A";
  start_ms = 0;
  end_ms = 10;
  text = units "hello";
  confidence = 90;
}

abbrev pub second_segment : TranscriptSegment
second_segment = record {
  id = units "s2";
  speaker_label = units "B";
  start_ms = 10;
  end_ms = 20;
  text = units "bye";
  confidence = 80;
}

abbrev pub first_draft : TranscriptRevision
first_draft = record {
  id = units "r1";
  recording_id = units "rec";
  version = 1;
  state = TranscriptRevisionState.draft;
  based_on_revision_id = none;
  created_by_role = ActorRole.system;
  created_by_user_id = none;
  created_at = 0;
  submitted_by_user_id = none;
  submitted_at = none;
  approved_at = none;
  summary = units "first";
  segments = first_segment ∷ second_segment ∷ [];
}

abbrev pub casefile : Recording
casefile = record {
  id = units "rec";
  workspace_id = units "ws";
  title = units "Talk";
  source = RecordingSource.upload;
  media_kind = MediaKind.audio;
  mime_type = none;
  media_path = none;
  original_file_name = none;
  language_hint = units "en";
  transcript_model = none;
  uploaded_by_role = UserRole.uploader;
  uploaded_by_user_id = some (units "u0");
  ingestion_session_id = none;
  transcript_job_id = none;
  integrity_state = IntegrityState.verified;
  transcript_job_state = TranscriptJobState.completed;
  current_revision_id = some (units "r1");
  approved_revision_id = none;
  pending_revision_id = none;
  verification_summary = none;
  created_at = 0;
  updated_at = 0;
  automation_cursor = none;
}

abbrev pub workspace : Workspace
workspace = record {
  id = units "ws";
  name = units "W";
  slug = units "w";
  policy_profile_id = PolicyProfileId.strict;
}

abbrev pub assigned : Text → Text → AssignmentRole → RecordingAssignment
assigned id user role = record {
  id = id;
  recording_id = units "rec";
  user_id = user;
  assigned_by_user_id = some (units "u3");
  assignment_role = role;
  status = AssignmentStatus.active;
  is_active = true;
  created_at = 0;
  updated_at = 0;
  ended_at = none;
  end_reason = none;
  completed_revision_id = none;
  removed_by_user_id = none;
}

abbrev pub approving_session : AdminActionSession
approving_session = record {
  id = units "m1";
  admin_user_id = units "u3";
  recording_id = units "rec";
  effective_role = AssignmentRole.approver;
  purpose = units "to decide";
  started_at = 0;
  expires_at = 100;
  ended_at = none;
  end_reason = none;
}

-- The ids that will be drawn are texts of one unit.
abbrev pub start : World
start = record {
  db = record {
    users = [];
    workspaces = workspace ∷ [];
    recordings = casefile ∷ [];
    revisions = first_draft ∷ [];
    approvals = [];
    audit_events = [];
    assignments =
        assigned (units "a1") (units "u1") AssignmentRole.reviewer
        ∷ assigned (units "a2") (units "u2") AssignmentRole.approver
        ∷ [];
    action_sessions = approving_session ∷ [];
    state_version = some 7;
  };
  uuids = λ n. n ∷ [];
}

module _ {A : Type 0} where
  -- The value of a run that succeeds.
  abbrev pub value_or : A → Result A × World → A
  value_or d (ok a, w) = a
  value_or d (err e, w) = d

abbrev pub edit_input : SaveDraftInput
edit_input = record {
  recording_id = units "rec";
  expected_current_revision_id = units "r1";
  edits = record { id = units "s1"; text = some (units "hallo"); speaker_label = none } ∷ [];
  summary = units "typo";
  action_mode_id = none;
}

abbrev pub submit_input : SubmitInput
submit_input = record { save = edit_input; has_unsaved_changes = false }

abbrev pub rename_input : RenameSpeakerInput
rename_input = record {
  recording_id = units "rec";
  expected_current_revision_id = units "r1";
  from_speaker = units "B";
  to_speaker = units " A ";
  summary = none;
  action_mode_id = none;
}

abbrev pub decide_on : Text → Option Text → DecisionInput
decide_on id mode = record {
  recording_id = units "rec";
  expected_revision_id = id;
  reason = units "Read it in full.";
  action_mode_id = mode;
}
