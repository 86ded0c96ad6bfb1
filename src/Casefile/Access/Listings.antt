-- ===== src/Casefile/Access/Listings.antt =====
-- The listings of assignments (src/server/access/service.ts).
pub mod Laws
pub mod Newest
use superscriber.Prelude.{
  Text, ℕ, Option, none, some, Bool, true, false, List, [], ◌∷◌, ◌++◌, ◌&&◌, ◌===◌, text_equal,
  non_empty, if◌then◌else◌, row, any, filter_if,
}
use superscriber.Domain.Models.{
  AssignmentRole, AssignmentStatus, RecordingAssignment, assignment_status_equal,
}
use superscriber.Casefile.Store.{Db, UserRow, user_keyed}
use superscriber.Casefile.Access.Visible.{holds_id}
use superscriber.Casefile.Access.Listings.Newest.{AssignmentSummary, newest_first}

pub record AssignmentFilters : Type 0 where
  pub recording_ids : Option (List Text)
  pub user_id : Option Text
  pub statuses : Option (List AssignmentStatus)

-- The active ones, where the caller names no status.
abbrev pub statuses_of : Option (List AssignmentStatus) → List AssignmentStatus
statuses_of none = AssignmentStatus.active ∷ []
statuses_of (some []) = AssignmentStatus.active ∷ []
statuses_of (some (status ∷ rest)) = status ∷ rest

abbrev pub active_status_condition : List AssignmentStatus → RecordingAssignment → Bool
active_status_condition [] a = false
active_status_condition (status ∷ []) a = a.status === status
active_status_condition (status ∷ second ∷ rest) a =
    any (λ s. s === a.status) (status ∷ second ∷ rest)

abbrev pub recordings_condition : Option (List Text) → RecordingAssignment → Bool
recordings_condition none a = true
recordings_condition (some []) a = true
recordings_condition (some (id ∷ ids)) a = holds_id a.recording_id (id ∷ ids)

abbrev pub user_condition : Option Text → RecordingAssignment → Bool
user_condition none a = true
user_condition (some user_id) a = if non_empty user_id then a.user_id === user_id else true

unfoldable pub meets : AssignmentFilters → RecordingAssignment → Bool
meets filters a =
    active_status_condition (statuses_of filters.statuses) a
    && recordings_condition filters.recording_ids a
    && user_condition filters.user_id a

abbrev pub summary_of : RecordingAssignment → UserRow → AssignmentSummary
summary_of a u = record {
  id = a.id;
  recording_id = a.recording_id;
  user_id = a.user_id;
  user_display_name = u.display_name;
  user_email = u.email;
  user_role = a.assignment_role;
  created_at = a.created_at;
  updated_at = a.updated_at;
}

abbrev pub with_user :
    RecordingAssignment → Option UserRow → List AssignmentSummary → List AssignmentSummary
with_user a none rest = rest
with_user a (some u) rest = summary_of a u ∷ rest

-- The join with the users.
unfoldable pub joined : List UserRow → List RecordingAssignment → List AssignmentSummary
joined users [] = []
joined users (a ∷ rows) = let rest = joined users rows in with_user a (row a.user_id users) rest

unfoldable pub list_assignments : AssignmentFilters → Db → List AssignmentSummary
unfolding newest_first joined meets
list_assignments filters db =
    newest_first (joined db.users (filter_if (meets filters) db.assignments))

-- An entry of the map.
pub record Entry : Type 0 where
  pub recording_id : Text
  pub assignments : List AssignmentSummary

-- What the map has for a recording, with nothing where it has no entry.
unfoldable pub entries_of : Text → List Entry → List AssignmentSummary
entries_of id [] = []
entries_of id (e ∷ entries) =
    let rest = entries_of id entries in if e.recording_id === id then e.assignments else rest

unfoldable pub push_to : AssignmentSummary → List Entry → List Entry
push_to a [] = record { recording_id = a.recording_id; assignments = a ∷ [] } ∷ []
push_to a (e ∷ entries) =
    let rest = push_to a entries in
    if e.recording_id === a.recording_id
    then record e { assignments = e.assignments ++ a ∷ [] } ∷ entries
    else e ∷ rest

unfoldable pub group : List AssignmentSummary → List Entry → List Entry
unfolding push_to
group [] entries = entries
group (a ∷ rest) entries = group rest (push_to a entries)

unfoldable pub assignment_map_by_recording_id : List Text → Db → List Entry
unfolding list_assignments group
assignment_map_by_recording_id [] db = []
assignment_map_by_recording_id (id ∷ ids) db =
    group
      (list_assignments
        (record { recording_ids = some (id ∷ ids); user_id = none; statuses = none }) db)
      []
