-- ===== src/Casefile/Access/Visible.antt =====
-- The recordings that an account sees (src/server/access/service.ts).
pub mod Laws
use superscriber.Prelude.{
  Text, ℕ, Option, none, some, Bool, true, false, List, [], ◌∷◌, ◌++◌, map, ◌&&◌, ◌===◌, text_equal,
  is, non_empty, not, if◌then◌else◌, row, any, filter_if, ltb,
}
use superscriber.Domain.Models.{
  UserRole, AssignmentRole, AssignmentStatus, Principal, Recording, AppUser, RecordingAssignment,
  user_role_equal, assignment_status_equal,
}
use superscriber.Casefile.Store.{Db, recording_keyed, user_keyed}

abbrev pub holds_id : Text → List Text → Bool
holds_id id ids = any (λ x. x === id) ids

-- `Set.add` for each id.
unfoldable pub add_ids : List Text → List Text → List Text
add_ids seen [] = seen
add_ids seen (id ∷ ids) = add_ids (if holds_id id seen then seen else seen ++ id ∷ []) ids

abbrev pub has_status : Principal → AssignmentStatus → RecordingAssignment → Bool
has_status p status a = a.user_id === p.user_id && a.status === status

-- `completed_revision_id = current_revision_id`, which no null meets.
abbrev pub same_revision : Option Text → Option Text → Bool
same_revision (some a) (some b) = a === b
same_revision (some a) none = false
same_revision none b = false

abbrev pub completed_current : Option Recording → RecordingAssignment → Bool
completed_current none a = false
completed_current (some r) a = same_revision a.completed_revision_id r.current_revision_id

-- The rows of the join.
unfoldable pub is_completed_for : Db → Principal → RecordingAssignment → Bool
is_completed_for db p a =
    has_status p AssignmentStatus.completed a
    && completed_current (row a.recording_id db.recordings) a

-- No list for an administrator, who sees all.
unfoldable pub visible_recording_ids_for_principal : Db → Principal → Option (List Text)
unfolding add_ids is_completed_for
visible_recording_ids_for_principal db p =
    if p.role === UserRole.admin
    then none
    else some (
        add_ids
          (add_ids
            (add_ids []
              (map (λ r. r.id) (filter_if (λ r. is r.uploaded_by_user_id p.user_id) db.recordings)))
            (map (λ a. a.recording_id)
              (filter_if (has_status p AssignmentStatus.active) db.assignments)))
          (map (λ a. a.recording_id) (filter_if (is_completed_for db p) db.assignments)))
