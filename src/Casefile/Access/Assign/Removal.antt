-- ===== src/Casefile/Access/Assign/Removal.antt =====
-- What removing an assignment establishes.
use superscriber.Prelude.{
  Text, ℕ, ◌+◌, none, some, true, false, List, [], ◌∷◌, Bool, ◌===◌, text_equal, ◌≡◌, ◌≤◌, refl, ap,
  ◌∙◌, arith, row, row-update_where, update_where, find, count_if, Bool-cases, inl, inr,
}
use superscriber.Domain.Models.{
  AssignmentRole, AssignmentStatus, AuditEventType, Principal, RecordingAssignment,
  assignment_role_equal, assignment_status_equal,
}
use superscriber.Domain.Errors.{
  ok, or_throw, or_throw_ok, assignment_not_found, recording_not_valid,
}
use superscriber.Casefile.Store.{Db, World, assignment, recording_keyed, assignment_keyed}
use superscriber.Casefile.Store.Exec.{committed}
use superscriber.Casefile.Store.Ensures.{
  Ensures, Ensures-bind, Ensures-pure, Ensures-query, Ensures-modify, Ensures-weaken,
  Ensures-transaction,
}
use superscriber.Casefile.Store.Audit.{insert_audit_event-Ensures, actor_context_for_principal}
use superscriber.Casefile.Access.{find_active_assignment, is_active_assignment}
use superscriber.Casefile.Access.Assign.{
  removed_assignment, is_still_active, remove_active, remove_body, remove_recording_assignment,
}
use superscriber.Casefile.Access.Assign.Laws.{OneActive}

abbrev without : Text → Text → ℕ → List RecordingAssignment → List RecordingAssignment
without id user_id now rows =
    update_where (is_still_active id) (removed_assignment user_id now) rows

module _ (user_id recording_id : Text) (role : AssignmentRole) (id by : Text) (now : ℕ) where
  abbrev counted : List RecordingAssignment → ℕ
  counted rows = count_if (is_active_assignment user_id recording_id (some role)) rows

  count_if-without :
      (rows : List RecordingAssignment) → counted (without id by now rows) ≤ counted rows
  unfolding is_active_assignment removed_assignment is_still_active
  count_if-without [] = ground arith
  count_if-without (x ∷ rows) = ground (arith, count_if-without rows)

  -- One less, where the removed assignment was counted.
  count_if-row :
      (rows : List RecordingAssignment) (r : RecordingAssignment)
      → row id rows ≡ some r
      → is_active_assignment user_id recording_id (some role) r ≡ true
      → counted (without id by now rows) + 1 ≤ counted rows
  unfolding is_active_assignment removed_assignment is_still_active
  count_if-row [] r there active = absurd (cc)
  count_if-row (x ∷ rows) r there active = elim (Bool-cases (x.id === id)) [
    | inl e ↦ ground (arith, e, there, active, count_if-without rows)
    | inr e ↦
        ground (arith, e, there, active, count_if-row rows r (ground (arith, e, there)) active)
  ]

find-count_if :
    {A : Type 0} (p : A → Bool) (rows : List A) → count_if p rows ≤ 0 → find p rows ≡ none
find-count_if p [] h = refl
find-count_if p (x ∷ rows) h = elim (Bool-cases (p x)) [
  | inl e ↦ absurd (ground (arith, e, h))
  | inr e ↦ ground (arith, e, h, find-count_if p rows (ground (arith, e, h)))
]

-- An assignment that is not active, among the others as they were. The account has then no active
-- assignment in its role on the recording, if it was active before.
pub record IsRemoved (id : Text) (before after : Db) (a : RecordingAssignment) : Type 0 where
  pub stored : row id after.assignments ≡ some a
  pub inactive : (a.status === AssignmentStatus.active) ≡ false
  pub others :
      (other : Text)
      → (id === other) ≡ false
      → row other after.assignments ≡ row other before.assignments
  pub one : OneActive after.assignments
  pub revoked :
      (r : RecordingAssignment)
      → row id before.assignments ≡ some r
      → (r.status === AssignmentStatus.active) ≡ true
      → find_active_assignment after r.user_id r.recording_id (some r.assignment_role) ≡ none

-- The rows after a removal.
record Updated (id by : Text) (now : ℕ) (rows : List RecordingAssignment) (a : RecordingAssignment)
    (v : World) : Type 0 where
  found : row id v.assignments ≡ some a
  kept : v.assignments ≡ without id by now rows

remove_active-Ensures :
    (id : Text) (by : Principal) (now : ℕ) (w : World)
    → Ensures (remove_active id by now) w (Updated id by.user_id now w.assignments)
unfolding remove_active
remove_active-Ensures id by now w =
    Ensures-modify (λ db. record db { assignments = without id by.user_id now db.assignments })
      (Ensures-query (λ db. or_throw (row id db.assignments) assignment_not_found)
        λ a there.
          Ensures-query (λ db. or_throw (row a.recording_id db.recordings) recording_not_valid)
            λ r known.
              Ensures-bind _ _
                (insert_audit_event-Ensures r.workspace_id (some r.id)
                  (some (actor_context_for_principal by)) AuditEventType.assignment_removed
                  (assignment a.id a.user_id a.assignment_role) now _)
                λ event v same. Ensures-pure a (record {
                  found =
                      ap (row id) same.assignments
                      ∙ or_throw_ok (row id (without id by.user_id now w.assignments))
                          assignment_not_found a there;
                  kept = same.assignments;
                }))

Updated-IsRemoved :
    (id by : Text) (now : ℕ) (w v : World) (r a : RecordingAssignment)
    → OneActive w.assignments
    → row id w.assignments ≡ some r
    → (r.status === AssignmentStatus.active) ≡ true
    → Updated id by now w.assignments a v
    → IsRemoved id w.db v.db a
unfolding removed_assignment is_still_active find_active_assignment is_active_assignment
Updated-IsRemoved id by now w v r a one there active u =
    let still = λ (x : RecordingAssignment). x.status === AssignmentStatus.active in
    let rows = λ (other : Text).
      ap (row other) u.kept
      ∙ row-update_where id other still (removed_assignment by now) w.assignments (λ x. refl) in
    record {
      stored = u.found;
      inactive = ground (arith, u.found, rows id, there, active);
      others = λ other differs. rows other ∙ ground (arith, differs);
      one = λ user_id recording_id role.
          let less = count_if-without user_id recording_id role id by now w.assignments in
          ground (arith, u.kept, less, one user_id recording_id role);
      revoked = λ x here busy.
          let less =
            count_if-row x.user_id x.recording_id x.assignment_role id by now w.assignments x here
              (ground (arith, busy)) in
          find-count_if _ v.assignments
            (ground (arith, u.kept, less, one x.user_id x.recording_id x.assignment_role));
    }

-- The rows are read again in the transaction, as they were.
remove_body-Ensures :
    (id : Text) (by : Principal) (now : ℕ) (w : World) (r : RecordingAssignment)
    → OneActive w.assignments
    → row id w.assignments ≡ some r
    → (r.status === AssignmentStatus.active) ≡ true
    → Ensures (remove_body id by now) w (λ a v. IsRemoved id w.db (committed v).db a)
unfolding remove_body find_active_assignment
remove_body-Ensures id by now w r one there active =
    Ensures-query (λ db. or_throw (row id db.assignments) assignment_not_found)
      λ current read.
        let same : current ≡ r =
          ground
            (arith, or_throw_ok (row id w.assignments) assignment_not_found current read, there) in
        rw same (
          rw active (
            Ensures-weaken (remove_active-Ensures id by now w) λ a v u.
              let done = Updated-IsRemoved id by.user_id now w v r a one there active u in
              record {
                stored = done.stored;
                inactive = done.inactive;
                others = done.others;
                one = done.one;
                revoked = done.revoked;
              }))

-- Where an account has at most one active assignment in a role on a recording, a removal that succeeds
-- keeps it so, and gives the row as it is stored, which is not active; the other rows stay. If the row was
-- active then its account has no active assignment in that role on the recording any more.
pub remove_recording_assignment_lem :
    (id : Text) (by : Principal) (now : ℕ) (w v : World) (a : RecordingAssignment)
    → OneActive w.assignments
    → remove_recording_assignment id by now w ≡ (ok a, v)
    → IsRemoved id w.db v.db a
unfolding remove_recording_assignment
remove_recording_assignment_lem id by now w v a one h = removal.at a v h
  where
    removal : Ensures (remove_recording_assignment id by now) w (λ x u. IsRemoved id w.db u.db x)
    removal =
        Ensures-query (λ db. or_throw (row id db.assignments) assignment_not_found)
          λ r read.
            let there = or_throw_ok (row id w.assignments) assignment_not_found r read in
            elim (Bool-cases (r.status === AssignmentStatus.active)) [
              | inl active ↦ rw active (
                  Ensures-transaction {P = λ x u. IsRemoved id w.db u.db x} (remove_body id by) now
                    (remove_body-Ensures id by now w r one there active))
              | inr ended ↦ rw ended (
                  Ensures-pure r (record {
                    stored = there;
                    inactive = ended;
                    others = λ other differs. refl;
                    one = one;
                    revoked = λ x here busy. absurd (ground (arith, there, here, ended, busy));
                  }))
            ]
