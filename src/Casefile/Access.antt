-- ===== src/Casefile/Access.antt =====
-- Access to a casefile, and the assignments of reviewers and approvers (src/server/access/service.ts).
pub mod Completion
pub mod Assign
pub mod Visible
pub mod Listings
pub mod Accounts
use superscriber.Prelude.{
  Text, ℕ, Option, none, some, Bool, true, false, List, [], ◌∷◌, map, ◌&&◌, ◌||◌, ◌===◌, text_equal,
  is, truthy, if◌then◌else◌, find, filter_if, row, ltb, update_where,
}
use superscriber.Domain.Models.{
  UserRole, AssignmentRole, AssignmentStatus, AssignmentEndReason, Principal, Recording,
  RecordingAssignment, IntegrityState, TranscriptJobState, AuditEventType, user_role_equal,
  assignment_role_equal, assignment_status_equal, integrity_state_equal, job_state_equal,
}
use superscriber.Domain.Errors.{
  Failure, Result, ok, err, or_throw, recording_not_valid, failure, validation_error,
}
use superscriber.Casefile.Capabilities.{
  CasefileAccessGrant, admin_oversight, uploader_status, active_reviewer, active_approver,
  completed_reviewer, completed_approver,
}
use superscriber.Casefile.Store.{Db, World, ActorContext, assignment_completed, recording_keyed}
use superscriber.Casefile.Store.Exec.{Exec, ◌>>=◌, ◌>>◌, pure, query, gets, modify}
use superscriber.Casefile.Store.Audit.{insert_audit_event}

-- Active, of this recording and user, and of the role if one is given.
unfoldable pub is_active_assignment :
    Text → Text → Option AssignmentRole → RecordingAssignment → Bool
is_active_assignment user_id recording_id role a =
    a.recording_id === recording_id
    && a.user_id === user_id
    && a.status === AssignmentStatus.active
    && elim role [ none ↦ true | some r ↦ a.assignment_role === r ]

unfoldable pub find_active_assignment :
    Db → Text → Text → Option AssignmentRole → Option RecordingAssignment
unfolding is_active_assignment
find_active_assignment db user_id recording_id role =
    find (is_active_assignment user_id recording_id role) db.assignments

-- `order by updated_at desc … get()`: the first of the rows updated last.
unfoldable pub latest_assignment :
    Option RecordingAssignment → List RecordingAssignment → Option RecordingAssignment
latest_assignment best [] = best
latest_assignment none (a ∷ rest) = latest_assignment (some a) rest
latest_assignment (some b) (a ∷ rest) =
    latest_assignment (if ltb b.updated_at a.updated_at then some a else some b) rest

unfoldable pub is_completed_assignment : Text → Text → Text → RecordingAssignment → Bool
is_completed_assignment user_id recording_id revision_id a =
    a.recording_id === recording_id
    && a.user_id === user_id
    && a.status === AssignmentStatus.completed
    && is a.completed_revision_id revision_id

unfoldable pub find_completed_assignment :
    Db → Text → Text → Option Text → Option RecordingAssignment
unfolding latest_assignment is_completed_assignment
find_completed_assignment db user_id recording_id none = none
find_completed_assignment db user_id recording_id (some []) = none
find_completed_assignment db user_id recording_id (some (c ∷ s)) =
    latest_assignment none
      (filter_if (is_completed_assignment user_id recording_id (c ∷ s)) db.assignments)

-- `completedRevisionId!`: it is never null where it is read, since the row was found by it.
abbrev pub completed_revision : RecordingAssignment → Text
completed_revision a = elim a.completed_revision_id [ some id ↦ id | none ↦ [] ]

unfoldable pub completed_grant_for_assignment : RecordingAssignment → CasefileAccessGrant
completed_grant_for_assignment a =
    if a.assignment_role === AssignmentRole.reviewer
    then completed_reviewer a.recording_id a.id (completed_revision a)
    else completed_approver a.recording_id a.id (completed_revision a)

unfoldable pub active_grant_for_assignment : Text → RecordingAssignment → CasefileAccessGrant
active_grant_for_assignment recording_id a =
    if a.assignment_role === AssignmentRole.reviewer
    then active_reviewer recording_id a.id
    else active_approver recording_id a.id

-- The part of `resolveCasefileAccess` that looks for an assignment.
unfoldable pub assignment_access : Db → Text → Text → Option Text → Option CasefileAccessGrant
unfolding active_grant_for_assignment completed_grant_for_assignment
assignment_access db user_id recording_id requested_revision_id =
    elim (find_active_assignment db user_id recording_id none) [
      | some a ↦ some (active_grant_for_assignment recording_id a)
      | none ↦ elim (find_completed_assignment db user_id recording_id requested_revision_id) [
        | some a ↦ some (completed_grant_for_assignment a)
        | none ↦ none
      ]
    ]

unfoldable pub resolve_casefile_access :
    Db → Principal → Text → Option Text → Option CasefileAccessGrant
unfolding assignment_access
resolve_casefile_access db p recording_id requested_revision_id =
    if p.role === UserRole.admin
    then some (admin_oversight recording_id)
    else elim (row recording_id db.recordings) [
      | none ↦ none
      | some r ↦
          if is r.uploaded_by_user_id p.user_id
          then some (uploader_status recording_id)
          else assignment_access db p.user_id recording_id requested_revision_id
    ]

-- `canAccessRecording`, its flag.
unfoldable pub can_access_recording : Db → Principal → Text → Bool
unfolding resolve_casefile_access
can_access_recording db p recording_id =
    let requested : Option Text = elim (row recording_id db.recordings) [
      | some r ↦ r.current_revision_id
      | none ↦ none
    ] in
    elim (resolve_casefile_access db p recording_id requested) [ some g ↦ true | none ↦ false ]

unfoldable pub is_active_in : Text → RecordingAssignment → Bool
is_active_in recording_id a =
    a.recording_id === recording_id && a.status === AssignmentStatus.active

abbrev pub complete_assignment : Text → ℕ → RecordingAssignment → RecordingAssignment
complete_assignment revision_id now a = record a {
  status = AssignmentStatus.completed;
  is_active = false;
  ended_at = some now;
  end_reason = none;
  completed_revision_id = some revision_id;
  removed_by_user_id = none;
  updated_at = now;
}

unfoldable pub audit_completed :
    Recording → ActorContext → Text → ℕ → List RecordingAssignment → Exec (Unit {0})
audit_completed recording actor revision_id now [] = pure tt
audit_completed recording actor revision_id now (a ∷ rest) = do
  event ←
      insert_audit_event recording.workspace_id (some recording.id) (some actor)
        AuditEventType.assignment_completed
        (assignment_completed a.id a.user_id a.assignment_role revision_id) now
  audit_completed recording actor revision_id now rest

unfoldable pub complete_active_rows : Text → Text → ℕ → Db → Db
unfolding is_active_in
complete_active_rows recording_id revision_id now db = record db {
  assignments =
      update_where (is_active_in recording_id) (complete_assignment revision_id now) db.assignments;
}

-- The rest of `completeActiveAssignmentsForApproval`, on the rows that it found.
unfoldable pub complete_rows :
    Text → Text → ActorContext → ℕ → List RecordingAssignment → Exec (List RecordingAssignment)
unfolding complete_active_rows audit_completed
complete_rows recording_id revision_id actor now [] = pure []
complete_rows recording_id revision_id actor now (a ∷ rest) = do
  recording ← query (λ db. or_throw (row recording_id db.recordings) recording_not_valid)
  modify (complete_active_rows recording_id revision_id now)
  let completed = map (complete_assignment revision_id now) (a ∷ rest)
  audit_completed recording actor revision_id now completed
  pure completed

unfoldable pub complete_active_assignments_for_approval :
    Text → Text → ActorContext → ℕ → Exec (List RecordingAssignment)
unfolding complete_rows
complete_active_assignments_for_approval recording_id revision_id actor now = do
  active ← gets (λ db. filter_if (is_active_in recording_id) db.assignments)
  complete_rows recording_id revision_id actor now active
