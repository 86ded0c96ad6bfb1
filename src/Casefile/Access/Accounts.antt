-- ===== src/Casefile/Access/Accounts.antt =====
-- The accounts that are listed (listLocalUsers and listAssignableUsers of src/server/access/service.ts).
use superscriber.Prelude.{
  Text, ℕ, Option, none, some, Bool, true, false, List, [], ◌∷◌, ◌&&◌, ◌||◌, ◌===◌, ◌==◌,
  text_equal, not, units, ltb, if◌then◌else◌, map, filter_if, count_if,
}
use superscriber.Domain.Models.{
  UserRole, AssignmentStatus, AppUser, user_role_equal, assignment_status_equal,
}
use superscriber.Casefile.Store.{Db, UserRow}

-- A row of the directory.
pub record AccountDirectoryEntry : Type 0 where
  pub app_user : AppUser
  pub open app_user use *
  pub active_assignment_count : ℕ
  pub is_removed : Bool

-- The text that the column of roles holds.
abbrev pub role_text : UserRole → Text
role_text UserRole.uploader = units "uploader"
role_text UserRole.reviewer = units "reviewer"
role_text UserRole.approver = units "approver"
role_text UserRole.admin = units "admin"

-- Not after in the order of units.
unfoldable pub not_after : Text → Text → Bool
not_after [] t = true
not_after (c ∷ s) [] = false
not_after (c ∷ s) (d ∷ t) = let rest = not_after s t in if c == d then rest else ltb c d

unfoldable pub comes_first : UserRow → UserRow → Bool
unfolding not_after
comes_first a b =
    if a.role === b.role
    then not_after a.display_name b.display_name
    else not_after (role_text a.role) (role_text b.role)

unfoldable pub put_by_role : UserRow → List UserRow → List UserRow
unfolding comes_first
put_by_role a [] = a ∷ []
put_by_role a (b ∷ rows) =
    let rest = put_by_role a rows in if comes_first a b then a ∷ b ∷ rows else b ∷ rest

unfoldable pub ordered_by_role : List UserRow → List UserRow
unfolding put_by_role
ordered_by_role [] = []
ordered_by_role (a ∷ rows) = put_by_role a (ordered_by_role rows)

abbrev pub active_assignment_count : Text → Db → ℕ
active_assignment_count user_id db =
    count_if (λ a. a.status === AssignmentStatus.active && a.user_id === user_id) db.assignments

abbrev pub is_removed : Option ℕ → Bool
is_removed none = false
is_removed (some at) = true

unfoldable pub list_local_users : Db → List AccountDirectoryEntry
unfolding ordered_by_role
list_local_users db =
    map
      (λ u. record {
        app_user = u.app_user;
        active_assignment_count = active_assignment_count u.id db;
        is_removed = is_removed u.removed_at;
      })
      (ordered_by_role db.users)

unfoldable pub list_assignable_users : Db → List AccountDirectoryEntry
unfolding list_local_users
list_assignable_users db =
    filter_if
      (λ u.
        u.is_active
        && not u.is_removed
        && (u.role === UserRole.reviewer || u.role === UserRole.approver))
      (list_local_users db)
