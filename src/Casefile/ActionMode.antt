-- ===== src/Casefile/ActionMode.antt =====
-- The admin action mode (src/server/casefile/action-mode.ts): entering, leaving, expiry, and the
-- actor that a governed command acts as.
pub mod Enter
pub mod View
pub mod Laws
use superscriber.Prelude.{
  Text, ℕ, ◌+◌, ◌*◌, Option, none, some, Bool, true, false, not, ◌&&◌, ◌||◌, ◌===◌, text_equal,
  truthy, if◌then◌else◌, leb, find, row, update_where, units,
}
use superscriber.Domain.Models.{
  UserRole, AssignmentRole, AdminActionEndReason, AdminActionSession, Principal, AuditEventType,
  ActorRole, user_role_equal, assignment_role_equal,
}
use superscriber.Domain.Errors.{
  Failure, Result, ok, err, or_throw, throw_if, failure, field_failure, action_mode_required,
  action_mode_expired, action_mode_ended, action_mode_forbidden,
}
use superscriber.Casefile.Capabilities.{is_some, role_of}
use superscriber.Casefile.Store.{
  Db, World, ActorContext, action_mode_exited, recording_keyed, action_session_keyed,
}
use superscriber.Casefile.Store.Exec.{
  Exec, ◌>>=◌, ◌>>◌, pure, raise, query, gets, modify, run_governed_transaction,
}
use superscriber.Casefile.Store.Audit.{insert_audit_event, actor_context_for_principal}

abbrev pub action_mode_duration_ms : ℕ
action_mode_duration_ms = 30 * 60 * 1000

unfoldable pub action_mode_actor : Principal → AdminActionSession → ActorContext
unfolding actor_context_for_principal
action_mode_actor p s = record (actor_context_for_principal p) {
  effective_role = ActorRole.user (role_of s.effective_role);
  admin_action_session_id = some s.id;
}

unfoldable pub is_expired : AdminActionSession → ℕ → Bool
is_expired s now = leb s.expires_at now

-- Every test of a session that a caller names by its id.
unfoldable pub is_session_for : Principal → Text → AssignmentRole → AdminActionSession → Bool
is_session_for p recording_id role s =
    s.admin_user_id === p.user_id && s.recording_id === recording_id && s.effective_role === role

-- `!input.actionModeId` holds of a missing id and of an empty one.
unfoldable pub load_validated_admin_action_mode :
    Db → Principal → Text → AssignmentRole → Option Text → Result AdminActionSession
unfolding is_session_for
load_validated_admin_action_mode db p recording_id role none = err (failure action_mode_required)
load_validated_admin_action_mode db p recording_id role (some id) =
    if not (truthy (some id))
    then err (failure action_mode_required)
    else elim (row id db.action_sessions) [
      | none ↦ err (failure action_mode_required)
      | some s ↦
          if is_session_for p recording_id role s then ok s else err (failure action_mode_required)
    ]

unfoldable pub is_open_session : Text → AdminActionSession → Bool
is_open_session id s = s.id === id && not (is_some s.ended_at)

abbrev pub end_session : AdminActionEndReason → ℕ → AdminActionSession → AdminActionSession
end_session reason now s = record s { ended_at = some now; end_reason = some reason }

unfoldable pub end_open_rows : Text → AdminActionEndReason → ℕ → Db → Db
unfolding is_open_session
end_open_rows id reason now db = record db {
  action_sessions = update_where (is_open_session id) (end_session reason now) db.action_sessions;
}

-- What follows the update, by whether it changed a row: an event is written, or the session is read
-- again.
unfoldable pub report_ended :
    Bool → AdminActionSession → AdminActionEndReason → ℕ → Principal → Exec AdminActionSession
unfolding action_mode_actor
report_ended true s reason now p = do
  recording ←
      query
        (λ db. or_throw (row s.recording_id db.recordings) (field_failure (units "recordingId")))
  event ←
      insert_audit_event recording.workspace_id (some s.recording_id) (some (action_mode_actor p s))
        AuditEventType.admin_action_mode_exited (action_mode_exited s.id s.effective_role reason)
        now
  pure (end_session reason now s)
report_ended false s reason now p =
    query (λ db. or_throw (row s.id db.action_sessions) (failure action_mode_required))

-- The update changes a row exactly when an open session has the id.
unfoldable pub end_action_mode_session :
    AdminActionSession → AdminActionEndReason → ℕ → Principal → Exec AdminActionSession
unfolding end_open_rows report_ended
end_action_mode_session s reason now p = do
  open_row ← gets (λ db. find (is_open_session s.id) db.action_sessions)
  modify (end_open_rows s.id reason now)
  report_ended (is_some open_row) s reason now p

-- What a look at a session finds.
pub data SessionStatus : Type 0 where
  ended active expired : AdminActionSession → SessionStatus

-- The look, inside its transaction.
unfoldable pub look_at_session :
    Principal → Text → AssignmentRole → Option Text → ℕ → Exec SessionStatus
unfolding end_action_mode_session load_validated_admin_action_mode
look_at_session p recording_id role action_mode_id now = do
  s ← query (λ db. load_validated_admin_action_mode db p recording_id role action_mode_id)
  if is_some s.ended_at
      then pure (ended s)
      else if not (is_expired s now)
      then pure (active s)
      else do t ← end_action_mode_session s AdminActionEndReason.expired now p; pure (expired t)

unfoldable pub expire_action_mode_lazily :
    Principal → Text → AssignmentRole → Option Text → ℕ → Exec SessionStatus
unfolding run_governed_transaction look_at_session
expire_action_mode_lazily p recording_id role action_mode_id now =
    run_governed_transaction (λ _. look_at_session p recording_id role action_mode_id now) now

abbrev pub actor_of_status : Principal → SessionStatus → Exec ActorContext
actor_of_status p (ended s) = raise (failure action_mode_ended)
actor_of_status p (active s) = pure (action_mode_actor p s)
actor_of_status p (expired s) = raise (failure action_mode_expired)

-- The administrator's part of `resolveActorContext`.
unfoldable pub resolve_admin_actor :
    Principal → Text → AssignmentRole → Option Text → ℕ → Exec ActorContext
unfolding load_validated_admin_action_mode expire_action_mode_lazily
resolve_admin_actor p recording_id role action_mode_id now = do
  s ← query (λ db. load_validated_admin_action_mode db p recording_id role action_mode_id)
  if is_some s.ended_at
      then raise (failure action_mode_ended)
      else if not (is_expired s now)
      then pure (action_mode_actor p s)
      else (expire_action_mode_lazily p recording_id role action_mode_id now >>= actor_of_status p)

unfoldable pub resolve_actor_context :
    Principal → Text → AssignmentRole → Option Text → ℕ → Exec ActorContext
resolve_actor_context p recording_id role action_mode_id now =
    if p.role === UserRole.admin
    then resolve_admin_actor p recording_id role action_mode_id now
    else if truthy action_mode_id
    then raise (failure action_mode_forbidden)
    else if not (p.role === role_of role)
    then raise (failure action_mode_forbidden)
    else pure (actor_context_for_principal p)
