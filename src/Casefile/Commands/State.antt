-- ===== src/Casefile/Commands/State.antt =====
-- Loading what a command works on, and the checks of the revision that its caller saw
-- (src/server/casefile/commands.ts).
pub mod Laws
use superscriber.Prelude.{
  Text, ℕ, zero, suc, Option, none, some, Bool, true, false, not, List, [], ◌∷◌, ◌&&◌, ◌||◌, ◌===◌,
  ◌≢◌, text_equal, is, truthy, non_empty, if◌then◌else◌, any, row, trim, filter_if,
}
use superscriber.Domain.Models.{
  UserRole, AssignmentRole, ApprovalState, ApprovalRecord, Principal, Workspace, Recording,
  TranscriptRevision, TranscriptRevisionState, ActorRole, user_role_equal, approval_state_equal,
  revision_state_equal,
}
use superscriber.Domain.Errors.{
  Failure, Result, ok, err, ◌>>=◌, ◌>>◌, or_throw, throw_if, failure, field_failure, command_error,
  CasefileConflictSnapshot, ErrorCode, not_found, access_denied, action_mode_forbidden,
  stale_revision, state_changed, validation_error,
}
use superscriber.Domain.Stage.{OriginDecision, WorkflowStageInput, derive_workflow_stage}
use superscriber.Casefile.Capabilities.{CasefileAccessGrant, role_of}
use superscriber.Casefile.Access.{resolve_casefile_access}
use superscriber.Casefile.ActionMode.{resolve_actor_context}
use superscriber.Casefile.Store.{
  Db, World, ActorContext, recording_keyed, revision_keyed, workspace_keyed,
}

pub record CommandActor : Type 0 where
  pub actor_role : UserRole
  pub actor_user_id : Text
  pub actor_display_name : Text
  pub effective_role : AssignmentRole
  pub admin_action_session_id : Option Text
  pub user_id : Text

pub record LoadedCommandState : Type 0 where
  pub workspace : Workspace
  pub recording : Recording
  pub revision : Option TranscriptRevision
  pub grant : CasefileAccessGrant
  pub actor : CommandActor

unfoldable pub require_recording : Db → Text → Result Recording
require_recording db id = or_throw (row id db.recordings) (failure not_found)

unfoldable pub require_revision : Db → Text → Result TranscriptRevision
require_revision db id = or_throw (row id db.revisions) (failure not_found)

unfoldable pub require_workspace : Db → Text → Result Workspace
require_workspace db id = or_throw (row id db.workspaces) (failure not_found)

-- `currentRevisionId ? requireRevision(…) : null`.
unfoldable pub current_revision : Db → Option Text → Result (Option TranscriptRevision)
unfolding require_revision
current_revision db none = ok none
current_revision db (some id) =
    if not (non_empty id) then ok none else do r ← require_revision db id; ok (some r)

unfoldable pub has_decision : Db → Text → ApprovalState → Bool
has_decision db id s = any (λ a. a.revision_id === id && a.state === s) db.approvals

-- The loop over the candidate ids.
unfoldable pub origin_decision_of : Db → List Text → Option OriginDecision
unfolding has_decision
origin_decision_of db [] = none
origin_decision_of db (id ∷ ids) =
    if has_decision db id ApprovalState.changes_requested
    then some OriginDecision.changes_requested
    else if has_decision db id ApprovalState.reopened
    then some OriginDecision.reopened
    else origin_decision_of db ids

abbrev pub option_list : Option Text → List Text
option_list none = []
option_list (some id) = id ∷ []

unfoldable pub origin_decision_for_revision : Db → Option TranscriptRevision → Option OriginDecision
unfolding origin_decision_of
origin_decision_for_revision db none = none
origin_decision_for_revision db (some r) =
    origin_decision_of db (filter_if non_empty (r.id ∷ option_list r.based_on_revision_id))

unfoldable pub load_stage_input : Db → Recording → Result WorkflowStageInput
unfolding current_revision origin_decision_for_revision
load_stage_input db r = do
  revision ← current_revision db r.current_revision_id
  ok (record {
    integrity_state = r.integrity_state;
    transcript_job_state = r.transcript_job_state;
    pending_revision_id = r.pending_revision_id;
    approved_revision_id = r.approved_revision_id;
    current_revision_id = r.current_revision_id;
    origin_decision = origin_decision_for_revision db revision;
  })

unfoldable pub conflict_snapshot : Db → Recording → Text → Result CasefileConflictSnapshot
unfolding load_stage_input
conflict_snapshot db r loaded_revision_id = do
  input ← load_stage_input db r
  ok (record {
    recording_id = r.id;
    loaded_revision_id = loaded_revision_id;
    current_revision_id = r.current_revision_id;
    pending_revision_id = r.pending_revision_id;
    approved_revision_id = r.approved_revision_id;
    updated_at = r.updated_at;
    winning_stage = derive_workflow_stage input;
  })

-- `staleRevisionError` and `stateChangedError`, which differ in the code and the message.
unfoldable pub conflict_error : {A : Type 0} → ErrorCode → Db → Recording → Text → Result A
unfolding conflict_snapshot
conflict_error code db r loaded_revision_id = do
  snapshot ← conflict_snapshot db r loaded_revision_id
  err (command_error (record { code = code; field = none; latest = some snapshot }))

-- The three checks that an expected id is not blank differ in the field that they report.
unfoldable pub require_expected_id : Text → Text → Result (Unit {0})
require_expected_id id field = throw_if (not (non_empty (trim id))) (field_failure field)

unfoldable pub current_revision_or_throw :
    Recording → Option TranscriptRevision → Result TranscriptRevision
current_revision_or_throw r none = err (failure validation_error)
current_revision_or_throw r (some v) =
    if not (truthy r.current_revision_id) then err (failure validation_error) else ok v

abbrev pub command_actor : Principal → AssignmentRole → ActorContext → CommandActor
command_actor p role context = record {
  actor_role = p.role;
  actor_user_id = p.user_id;
  actor_display_name = p.display_name;
  effective_role = role;
  admin_action_session_id = context.admin_action_session_id;
  user_id = p.user_id;
}

-- `a !== b` on an effective role of a context and the role that is required.
abbrev pub acts_as : ActorRole → AssignmentRole → Bool
acts_as ActorRole.system role = false
acts_as (ActorRole.user r) role = r === role_of role

-- What `loadCommandState` reads before it resolves the actor.
unfoldable pub load_records :
    Principal
    → Text
    → Db
    → Result (Workspace × Recording × Option TranscriptRevision × CasefileAccessGrant)
unfolding require_recording current_revision require_workspace
load_records p recording_id db = do
  recording ← require_recording db recording_id
  revision ← current_revision db recording.current_revision_id
  workspace ← require_workspace db recording.workspace_id
  grant ←
      or_throw (resolve_casefile_access db p recording.id recording.current_revision_id)
        (failure access_denied)
  ok (workspace, recording, revision, grant)

unfoldable pub assemble_state :
    Principal
    → AssignmentRole
    → (Workspace × Recording × Option TranscriptRevision × CasefileAccessGrant)
    → ActorContext
    → Result LoadedCommandState
assemble_state p role (workspace, recording, revision, grant) context = do
  throw_if (not (acts_as context.effective_role role)) (failure action_mode_forbidden)
  ok (record {
    workspace = workspace;
    recording = recording;
    revision = revision;
    grant = grant;
    actor = command_actor p role context;
  })

unfoldable pub assert_draft_state : Db → Recording → TranscriptRevision → Text → Result (Unit {0})
unfolding conflict_error
assert_draft_state db r v expected =
    if not (is r.current_revision_id expected)
    then conflict_error stale_revision db r expected
    else if v.state === TranscriptRevisionState.pending_approval
    then err (failure validation_error)
    else if v.state === TranscriptRevisionState.approved
    then err (failure validation_error)
    else throw_if (not (v.state === TranscriptRevisionState.draft)) (failure validation_error)

unfoldable pub assert_pending_decision_state :
    Db → Recording → TranscriptRevision → Text → Result (Unit {0})
unfolding conflict_error
assert_pending_decision_state db r v expected =
    if not (is r.pending_revision_id expected)
    then conflict_error state_changed db r expected
    else if not (is r.current_revision_id expected) || not (v.id === expected)
    then conflict_error stale_revision db r expected
    else throw_if (not (v.state === TranscriptRevisionState.pending_approval))
        (failure validation_error)

unfoldable pub assert_approved_decision_state :
    Db → Recording → TranscriptRevision → Text → Result (Unit {0})
unfolding conflict_error
assert_approved_decision_state db r v expected =
    if not (is r.approved_revision_id expected)
    then conflict_error state_changed db r expected
    else if not (is r.current_revision_id expected) || not (v.id === expected)
    then conflict_error stale_revision db r expected
    else throw_if (not (v.state === TranscriptRevisionState.approved)) (failure validation_error)
