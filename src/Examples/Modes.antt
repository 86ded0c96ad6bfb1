-- ===== src/Examples/Modes.antt =====
-- The admin action mode, on the example.
use superscriber.Casefile.ActionMode.View.{resolve_action_mode, resolve_action_mode_lem, view_of}
use superscriber.Prelude.{
  Text, ℕ, Option, none, some, Bool, true, false, ◌≡◌, refl, List, [], ◌∷◌, units, row, count_if,
  text_equal,
}
use superscriber.Domain.Models.{AssignmentRole, AdminActionSession}
use superscriber.Domain.Errors.{Failure, ok, err}
use superscriber.Casefile.Store.{World, action_session_keyed}
use superscriber.Casefile.ActionMode.{resolve_actor_context, action_mode_actor, is_expired}
use superscriber.Casefile.ActionMode.Enter.{
  EnterActionModeInput, ExitActionModeInput, enter_action_mode, exit_action_mode, is_open_for,
}
use superscriber.Casefile.ActionMode.Enter.Closes.{exit_action_mode-expired, loaded_for_exit}
use superscriber.Examples.{administrator, approving_session, start, value_or}

abbrev enter_input : EnterActionModeInput
enter_input = record {
  principal = administrator;
  recording_id = units "rec";
  effective_role = AssignmentRole.reviewer;
  purpose = units "Correct the speaker names.";
}

-- The administrator switches from the open session to a new one.
abbrev entered : AdminActionSession
unfolding enter_action_mode
entered = value_or approving_session (enter_action_mode enter_input 20 start)

abbrev after_enter : World
unfolding enter_action_mode
after_enter = (enter_action_mode enter_input 20 start).1

abbrev exit_input : ExitActionModeInput
exit_input = record {
  principal = administrator;
  recording_id = units "rec";
  action_mode_id = units "m1";
}

loaded : loaded_for_exit start.db exit_input ≡ ok approving_session
unfolding superscriber.Casefile.ActionMode.load_validated_admin_action_mode
    superscriber.Casefile.ActionMode.Enter.stored_role superscriber.Prelude.Text-discrete
loaded = refl

late : is_expired approving_session 200 ≡ true
unfolding is_expired
late = refl

exit_action_mode-expired_example :
    (e : Failure) × (w' : World) × (exit_action_mode exit_input 200 start ≡ (err e, w'))
    × (w'.db ≡ start.db)
exit_action_mode-expired_example =
    exit_action_mode-expired exit_input 200 start approving_session loaded late

view_run :
    resolve_action_mode administrator
      (units "rec")
      AssignmentRole.approver
      (some (units "m1"))
      9
      start
    ≡ (ok (some (view_of administrator approving_session)), start)
unfolding resolve_action_mode superscriber.Casefile.ActionMode.load_validated_admin_action_mode
    superscriber.Prelude.Text-discrete is_expired
view_run = refl

resolve_action_mode_lem_example :
    (s : AdminActionSession) × (some (view_of administrator approving_session)
      ≡ some (view_of administrator s))
    × (resolve_actor_context administrator
          (units "rec")
          AssignmentRole.approver
          (some (units "m1"))
          9
          start
        ≡ (ok (action_mode_actor administrator s), start))
resolve_action_mode_lem_example =
    resolve_action_mode_lem administrator (units "rec") AssignmentRole.approver (some (units "m1"))
      9 start start (some (view_of administrator approving_session)) refl view_run
