-- ===== src/Casefile/ActionMode/Enter.antt =====
-- Entering and leaving the admin action mode (`enterActionMode` and `exitActionMode` of
-- src/server/casefile/action-mode.ts).
pub mod Writes
pub mod Opens
pub mod Closes
use superscriber.Prelude.{
  Text, ℕ, ◌+◌, Option, none, some, Bool, true, false, not, ◌&&◌, ◌||◌, ◌===◌, text_equal, truthy,
  if◌then◌else◌, find, row, units, any, has_key, List, [], ◌∷◌, ◌++◌,
}
use superscriber.Domain.Models.{
  UserRole, AssignmentRole, AdminActionEndReason, AdminActionSession, Principal, Recording,
  AuditEventType, user_role_equal,
}
use superscriber.Domain.Errors.{
  Result, ok, err, or_throw, throw_if, failure, field_failure, action_mode_expired,
  action_mode_ended, action_mode_forbidden, unique_constraint,
}
use superscriber.Domain.Stage.{validate_governed_reason}
use superscriber.Casefile.Capabilities.{is_some}
use superscriber.Casefile.Store.{
  Db, World, action_mode_entered, recording_keyed, action_session_keyed,
}
use superscriber.Casefile.Store.Exec.{
  Exec, ◌>>=◌, ◌>>◌, pure, raise, query, lift, gets, random_uuid, run_governed_transaction,
}
use superscriber.Casefile.Store.Audit.{insert_audit_event}
use superscriber.Casefile.ActionMode.{
  action_mode_actor, action_mode_duration_ms, end_action_mode_session, is_expired,
  load_validated_admin_action_mode,
}

pub record EnterActionModeInput : Type 0 where
  pub principal : Principal
  pub recording_id : Text
  pub effective_role : AssignmentRole
  pub purpose : Text

pub record ExitActionModeInput : Type 0 where
  pub principal : Principal
  pub recording_id : Text
  pub action_mode_id : Text

unfoldable pub require_admin : Principal → Result (Unit {0})
require_admin p = throw_if (not (p.role === UserRole.admin)) (failure action_mode_forbidden)

unfoldable pub recording_context_or_throw : Db → Text → Result Recording
recording_context_or_throw db id =
    or_throw (row id db.recordings) (field_failure (units "recordingId"))

-- An open session of an administrator on a recording.
unfoldable pub is_open_for : Text → Text → AdminActionSession → Bool
is_open_for user_id recording_id s =
    s.admin_user_id === user_id && s.recording_id === recording_id && not (is_some s.ended_at)

unfoldable pub find_active_action_mode : Db → Text → Text → Option AdminActionSession
unfolding is_open_for
find_active_action_mode db user_id recording_id =
    find (is_open_for user_id recording_id) db.action_sessions

-- `db.insert(adminActionSessions)`. The database refuses a second row with an id, and by the index
-- `admin_action_sessions_open_unique` a second open session of an account on a recording.
unfoldable pub append_action_session : AdminActionSession → Exec (Unit {0})
unfolding is_open_for
append_action_session s w =
    if has_key s.id w.action_sessions
      || (not (is_some s.ended_at)
          && any (is_open_for s.admin_user_id s.recording_id) w.action_sessions)
    then (err unique_constraint, w)
    else (ok tt, record w { db = record w.db { action_sessions = w.action_sessions ++ s ∷ [] } })

unfoldable pub end_switched : Option AdminActionSession → ℕ → Principal → Exec (Unit {0})
unfolding end_action_mode_session
end_switched none now p = pure tt
end_switched (some s) now p = do
  ended ← end_action_mode_session s AdminActionEndReason.switched now p
  pure tt

abbrev pub new_session : Text → EnterActionModeInput → Text → ℕ → AdminActionSession
new_session id input purpose now = record {
  id = id;
  admin_user_id = input.principal.user_id;
  recording_id = input.recording_id;
  effective_role = input.effective_role;
  purpose = purpose;
  started_at = now;
  expires_at = now + action_mode_duration_ms;
  ended_at = none;
  end_reason = none;
}

unfoldable pub enter_action_mode_body : EnterActionModeInput → ℕ → Exec AdminActionSession
unfolding recording_context_or_throw validate_governed_reason find_active_action_mode end_switched
    random_uuid append_action_session action_mode_actor insert_audit_event
enter_action_mode_body input now = do
  recording ← query (λ db. recording_context_or_throw db input.recording_id)
  purpose ← lift (validate_governed_reason input.purpose)
  active_session ←
      gets (λ db. find_active_action_mode db input.principal.user_id input.recording_id)
  end_switched active_session now input.principal
  id ← random_uuid
  let session = new_session id input purpose now
  append_action_session session
  event ←
      insert_audit_event recording.workspace_id (some input.recording_id)
        (some (action_mode_actor input.principal session)) AuditEventType.admin_action_mode_entered
        (action_mode_entered session.id session.effective_role session.purpose session.expires_at)
        now
  pure session

unfoldable pub enter_action_mode : EnterActionModeInput → ℕ → Exec AdminActionSession
unfolding require_admin enter_action_mode_body run_governed_transaction
enter_action_mode input now = do
  lift (require_admin input.principal)
  run_governed_transaction (enter_action_mode_body input) now

-- `getActionModeById(db, input.actionModeId)?.effectiveRole ?? "reviewer"`.
unfoldable pub stored_role : Db → Text → AssignmentRole
stored_role db id = elim (row id db.action_sessions) [
  | some s ↦ s.effective_role
  | none ↦ AssignmentRole.reviewer
]

-- An exit that finds the session expired ends it, and then throws.
unfoldable pub end_on_exit : AdminActionSession → ℕ → Principal → Exec AdminActionSession
unfolding end_action_mode_session is_expired
end_on_exit s now p =
    if is_some s.ended_at
    then raise (failure action_mode_ended)
    else if is_expired s now
    then (end_action_mode_session s AdminActionEndReason.expired now p >>= λ ended.
        raise (failure action_mode_expired))
    else end_action_mode_session s AdminActionEndReason.exited now p

unfoldable pub exit_action_mode_body : ExitActionModeInput → ℕ → Exec AdminActionSession
unfolding stored_role load_validated_admin_action_mode end_on_exit
exit_action_mode_body input now = do
  s ← query (λ db.
      load_validated_admin_action_mode db input.principal input.recording_id
        (stored_role db input.action_mode_id) (some input.action_mode_id))
  end_on_exit s now input.principal

unfoldable pub exit_action_mode : ExitActionModeInput → ℕ → Exec AdminActionSession
unfolding require_admin exit_action_mode_body run_governed_transaction
exit_action_mode input now = do
  lift (require_admin input.principal)
  run_governed_transaction (exit_action_mode_body input) now
