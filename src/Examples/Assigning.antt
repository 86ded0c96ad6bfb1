-- ===== src/Examples/Assigning.antt =====
-- Assigning a recording, on the example with a further account.
use superscriber.Prelude.{
  Text, List, Option, none, some, ℕ, ◌≡◌, ◌≤◌, refl, arith, true, false, [], ◌∷◌, units, text_equal,
}
use superscriber.Domain.Models.{
  UserRole, AssignmentRole, AppUser, assignment_role_equal, assignment_status_equal,
  RecordingAssignment,
}
use superscriber.Domain.Errors.{ok, Result, err}
use superscriber.Casefile.Store.{World}
use superscriber.Casefile.Access.{is_active_assignment, can_access_recording}
use superscriber.Casefile.Access.Assign.{
  Assigning, Assigned, assign_recording_to_user, remove_recording_assignment,
}
use superscriber.Casefile.Access.Assign.Laws.{OneActive, IsAssigned, assign_recording_to_user_lem}
use superscriber.Casefile.Access.Assign.Removal.{IsRemoved, remove_recording_assignment_lem}
use superscriber.Casefile.Access.Listings.{
  entries_of, assignment_map_by_recording_id, list_assignments,
}
use superscriber.Casefile.Access.Listings.Laws.{assignment_map_by_recording_id_lem}
use superscriber.Casefile.Access.Visible.{holds_id, visible_recording_ids_for_principal}
use superscriber.Casefile.Access.Visible.Laws.{
  visible_recording_ids_for_principal-can_access_recording,
}
use superscriber.Examples.{reviewer, casefile, administrator, assigned, start, value_or}

abbrev newcomer : AppUser
newcomer = record {
  id = units "u4";
  email = units "u4@x";
  display_name = units "Di";
  role = UserRole.approver;
  is_active = true;
  must_change_password = false;
  created_at = 0;
  updated_at = 0;
}

abbrev staffed : World
staffed = record start {
  db = record start.db { users = record { app_user = newcomer; removed_at = none } ∷ [] };
}

abbrev request : Assigning
request = record { recording_id = units "rec"; user_id = units "u4"; assigned_by = administrator }

abbrev made : Assigned
unfolding assign_recording_to_user
made =
    value_or (record { row = assigned [] [] AssignmentRole.reviewer; already_active = true })
      (assign_recording_to_user request 9 staffed)

abbrev after_made : World
unfolding assign_recording_to_user
after_made = (assign_recording_to_user request 9 staffed).1

one_each : OneActive staffed.assignments
unfolding is_active_assignment
one_each user_id recording_id AssignmentRole.reviewer = ground arith
one_each user_id recording_id AssignmentRole.approver = ground arith

made_run : assign_recording_to_user request 9 staffed ≡ (ok made, after_made)
unfolding assign_recording_to_user superscriber.Prelude.Text-discrete
    superscriber.Casefile.Access.find_active_assignment
    superscriber.Casefile.Store.Audit.actor_context_for_principal
made_run = refl

assign_recording_to_user_lem_example : IsAssigned request staffed.db after_made.db made
assign_recording_to_user_lem_example =
    assign_recording_to_user_lem request 9 staffed after_made made one_each made_run

abbrev ids_or : Option (List Text) → List Text
ids_or none = []
ids_or (some ids) = ids

abbrev seen : List Text
unfolding visible_recording_ids_for_principal
seen = ids_or (visible_recording_ids_for_principal start.db reviewer)

visible_recording_ids_for_principal-can_access_recording_example :
    holds_id (units "rec") seen ≡ can_access_recording start.db reviewer (units "rec")
unfolding superscriber.Prelude.Text-discrete
visible_recording_ids_for_principal-can_access_recording_example =
    visible_recording_ids_for_principal-can_access_recording start.db reviewer (units "rec")
      casefile seen refl refl (λ e. cc) (unfold visible_recording_ids_for_principal seen in refl)

assignment_map_by_recording_id_lem_example :
    entries_of
      (units "rec")
      (assignment_map_by_recording_id (units "other" ∷ units "rec" ∷ []) after_made.db)
    ≡ list_assignments
        (record { recording_ids = some (units "rec" ∷ []); user_id = none; statuses = none })
        after_made.db
assignment_map_by_recording_id_lem_example =
    assignment_map_by_recording_id_lem (units "other" ∷ units "rec" ∷ []) (units "rec")
      after_made.db (unfold superscriber.Prelude.Text-discrete in refl)

abbrev after_removal : World
unfolding remove_recording_assignment made after_made
after_removal = (remove_recording_assignment made.row.id administrator 12 after_made).1

abbrev row_or : Result RecordingAssignment → RecordingAssignment
row_or (ok a) = a
row_or (err e) = assigned [] [] AssignmentRole.reviewer

abbrev taken_back : RecordingAssignment
unfolding remove_recording_assignment made after_made
taken_back = row_or (remove_recording_assignment made.row.id administrator 12 after_made).0

removal_run :
    remove_recording_assignment made.row.id administrator 12 after_made
    ≡ (ok taken_back, after_removal)
unfolding remove_recording_assignment made after_made superscriber.Prelude.Text-discrete
    superscriber.Casefile.Access.find_active_assignment
    superscriber.Casefile.Store.Audit.actor_context_for_principal
removal_run = refl

remove_recording_assignment_lem_example :
    IsRemoved made.row.id after_made.db after_removal.db taken_back
remove_recording_assignment_lem_example =
    remove_recording_assignment_lem made.row.id administrator 12 after_made after_removal taken_back
      (assign_recording_to_user_lem request 9 staffed after_made made one_each made_run).one
      removal_run
