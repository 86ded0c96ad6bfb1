-- ===== src/Casefile/Access/Assign.antt =====
-- Assigning reviewers and approvers to a recording, and removing an assignment
-- (src/server/access/service.ts).
pub mod Laws
pub mod Removal
use superscriber.Prelude.{
  Text, ℕ, Option, none, some, Bool, true, false, List, [], ◌∷◌, ◌++◌, ◌&&◌, ◌||◌, ◌===◌,
  text_equal, truthy, not, if◌then◌else◌, row, has_key, any, update_where,
}
use superscriber.Domain.Models.{
  UserRole, AssignmentRole, AssignmentStatus, AssignmentEndReason, Principal, Recording, AppUser,
  RecordingAssignment, IntegrityState, TranscriptJobState, AuditEventType, assignment_role_equal,
  assignment_status_equal, integrity_state_equal, job_state_equal,
}
use superscriber.Domain.Errors.{
  Failure, Result, ok, err, or_throw, throw_if, recording_not_valid, assignment_not_found,
  no_active_user, role_not_assignable, unique_constraint, failure, validation_error,
}
use superscriber.Casefile.Store.{
  Db, World, ActorContext, assignment, recording_keyed, user_keyed, assignment_keyed,
}
use superscriber.Casefile.Store.Exec.{
  Exec, ◌>>=◌, ◌>>◌, pure, raise, query, lift, modify, random_uuid, run_governed_transaction,
  run_immediate_governed_transaction,
}
use superscriber.Casefile.Store.Audit.{insert_audit_event, actor_context_for_principal}
use superscriber.Casefile.Access.{find_active_assignment, is_active_assignment}

unfoldable pub is_ingest_failure : Recording → Bool
is_ingest_failure r =
    (r.integrity_state === IntegrityState.interrupted)
    || (r.integrity_state === IntegrityState.verification_failed)
    || (r.transcript_job_state === TranscriptJobState.failed)
    || (r.transcript_job_state === TranscriptJobState.cancelled)

unfoldable pub is_processing : Recording → Bool
is_processing r =
    (r.integrity_state === IntegrityState.capturing)
    || (r.integrity_state === IntegrityState.uploading)
    || (r.integrity_state === IntegrityState.verifying)
    || (r.transcript_job_state === TranscriptJobState.queued)
    || (r.transcript_job_state === TranscriptJobState.running)
    || (r.transcript_job_state === TranscriptJobState.partial_result)

-- What an assignment comes to.
pub data Compatibility : Type 0 where
  actionable awaiting_work reopen_authority : Compatibility

unfoldable pub assert_assignment_compatible : Recording → AssignmentRole → Result Compatibility
unfolding is_ingest_failure is_processing
assert_assignment_compatible r role =
    if is_ingest_failure r
    then err (failure validation_error)
    else if truthy r.approved_revision_id && (role === AssignmentRole.reviewer)
    then err (failure validation_error)
    else if truthy r.approved_revision_id
    then ok reopen_authority
    else if is_processing r
    then ok awaiting_work
    else ok actionable

-- The role that an account may be assigned in.
abbrev pub assignable_role : UserRole → Result AssignmentRole
assignable_role UserRole.reviewer = ok AssignmentRole.reviewer
assignable_role UserRole.approver = ok AssignmentRole.approver
assignable_role _ = err role_not_assignable

pub record Assigning : Type 0 where
  pub recording_id : Text
  pub user_id : Text
  pub assigned_by : Principal

-- The assignment, and whether it was there before.
pub record Assigned : Type 0 where
  pub row : RecordingAssignment
  pub already_active : Bool

abbrev pub new_assignment : Assigning → AssignmentRole → ℕ → Text → RecordingAssignment
new_assignment a role now id = record {
  id = id;
  recording_id = a.recording_id;
  user_id = a.user_id;
  assigned_by_user_id = some a.assigned_by.user_id;
  assignment_role = role;
  status = AssignmentStatus.active;
  is_active = true;
  created_at = now;
  updated_at = now;
  ended_at = none;
  end_reason = none;
  completed_revision_id = none;
  removed_by_user_id = none;
}

-- The insertion under the primary key and the index of active assignments.
unfoldable pub append_assignment : RecordingAssignment → Exec (Unit {0})
unfolding is_active_assignment
append_assignment a w =
    if has_key a.id w.assignments
      || any (is_active_assignment a.user_id a.recording_id (some a.assignment_role)) w.assignments
    then (err unique_constraint, w)
    else (ok tt, record w { db = record w.db { assignments = w.assignments ++ a ∷ [] } })

abbrev pub if_raced : {A : Type 0} → Option A → Failure → (A → Exec Assigned) → Exec Assigned
if_raced none e go = raise e
if_raced (some a) e go = go a

-- What follows an insertion: the audit event, or the assignment that another call has made.
abbrev pub after_insert :
    Assigning
    → Recording
    → RecordingAssignment
    → ℕ
    → Result (Unit {0}) × World
    → Result Assigned × World
after_insert p r a now (ok u, w) =
    (do
      event ←
          insert_audit_event r.workspace_id (some r.id)
            (some (actor_context_for_principal p.assigned_by)) AuditEventType.assignment_created
            (assignment a.id p.user_id a.assignment_role) now
      pure (record { row = a; already_active = false }))
      w
after_insert p r a now (err e, w) =
    if_raced (find_active_assignment w.db p.user_id p.recording_id (some a.assignment_role)) e
      (λ raced. pure (record { row = raced; already_active = true })) w

unfoldable pub create_assignment : Assigning → AssignmentRole → ℕ → Exec Assigned
unfolding assert_assignment_compatible append_assignment find_active_assignment insert_audit_event
create_assignment p role now = do
  r ← query (λ db. or_throw (row p.recording_id db.recordings) recording_not_valid)
  compatible ← lift (assert_assignment_compatible r role)
  id ← random_uuid
  λ w.
      after_insert p r (new_assignment p role now id) now
        (append_assignment (new_assignment p role now id) w)

abbrev pub unless_active : Option RecordingAssignment → Exec Assigned → Exec Assigned
unless_active (some active) create = pure (record { row = active; already_active = true })
unless_active none create = create

unfoldable pub assign_body : Assigning → ℕ → Exec Assigned
unfolding create_assignment find_active_assignment
assign_body p now = do
  user ← query (λ db. or_throw (row p.user_id db.users) no_active_user)
  checked ← lift (throw_if (not user.is_active) no_active_user)
  role ← lift (assignable_role user.role)
  λ w.
      unless_active (find_active_assignment w.db p.user_id p.recording_id (some role))
        (create_assignment p role now) w

unfoldable pub assign_recording_to_user : Assigning → ℕ → Exec Assigned
unfolding assign_body run_governed_transaction
assign_recording_to_user p now = run_immediate_governed_transaction (assign_body p) now

unfoldable pub removed_assignment : Text → ℕ → RecordingAssignment → RecordingAssignment
removed_assignment user_id now a = record a {
  status = AssignmentStatus.removed;
  is_active = false;
  ended_at = some now;
  end_reason = some AssignmentEndReason.removed_by_admin;
  removed_by_user_id = some user_id;
  updated_at = now;
}

unfoldable pub is_still_active : Text → RecordingAssignment → Bool
is_still_active id a = a.id === id && a.status === AssignmentStatus.active

abbrev pub stored_assignment : Text → Exec RecordingAssignment
stored_assignment id = query (λ db. or_throw (row id db.assignments) assignment_not_found)

unfoldable pub remove_active : Text → Principal → ℕ → Exec RecordingAssignment
unfolding is_still_active removed_assignment insert_audit_event
remove_active id by now = do
  modify (λ db. record db {
    assignments =
        update_where (is_still_active id) (removed_assignment by.user_id now) db.assignments;
  })
  removed ← stored_assignment id
  r ← query (λ db. or_throw (row removed.recording_id db.recordings) recording_not_valid)
  event ←
      insert_audit_event r.workspace_id (some r.id) (some (actor_context_for_principal by))
        AuditEventType.assignment_removed
        (assignment removed.id removed.user_id removed.assignment_role) now
  pure removed

-- Only an active assignment is removed; another is returned as it is.
abbrev pub if_active :
    (RecordingAssignment → Exec RecordingAssignment)
    → RecordingAssignment
    → Exec RecordingAssignment
if_active remove a = if a.status === AssignmentStatus.active then remove a else pure a

unfoldable pub remove_body : Text → Principal → ℕ → Exec RecordingAssignment
unfolding remove_active
remove_body id by now = do
  current ← stored_assignment id
  if_active (λ a. remove_active id by now) current

-- The row is looked at before the transaction, and again in it.
unfoldable pub remove_recording_assignment : Text → Principal → ℕ → Exec RecordingAssignment
unfolding remove_body run_governed_transaction
remove_recording_assignment id by now = do
  existing ← stored_assignment id
  if_active (λ a. run_governed_transaction (remove_body id by) now) existing
