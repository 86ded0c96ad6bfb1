-- ===== src/Casefile/Access/Assign/Laws.antt =====
-- What assigning a recording establishes.
use superscriber.Prelude.{
  Text, ℕ, Option, none, some, true, false, List, [], ◌∷◌, ◌++◌, Bool, text_equal, not, ◌≡◌, ◌≤◌,
  ◌⊎◌, inl, inr, refl, sym, ap, ◌∙◌, subst, arith, row, has_key, ◌||◌, any, any-ext, find, count_if,
  count_if-append, Bool-cases, if◌then◌else◌,
}
use superscriber.Domain.Models.{
  AssignmentRole, AuditEventType, Recording, RecordingAssignment, assignment_role_equal,
  assignment_status_equal,
}
use superscriber.Domain.Errors.{ok, or_throw, or_throw_ok, throw_if, no_active_user}
use superscriber.Casefile.Store.{
  UserRow, Db, World, assignment, recording_keyed, user_keyed, assignment_keyed,
}
use superscriber.Casefile.Store.Exec.{committed}
use superscriber.Casefile.Store.Ensures.{
  random_uuid-Ensures, Ensures, Ensures-bind, Ensures-pure, Ensures-query, Ensures-lift,
  Ensures-weaken, Ensures-transaction,
}
use superscriber.Casefile.Store.Audit.{insert_audit_event-Ensures, actor_context_for_principal}
use superscriber.Casefile.Access.{find_active_assignment, is_active_assignment}
use superscriber.Casefile.Access.Assign.{
  Assigning, Assigned, assignable_role, assert_assignment_compatible, append_assignment,
  after_insert, unless_active, create_assignment, assign_body, assign_recording_to_user,
  new_assignment,
}

-- A user has at most one active assignment in a role on a recording.
abbrev pub OneActive : List RecordingAssignment → Type 0
OneActive rows =
    (user_id recording_id : Text) (role : AssignmentRole)
    → count_if (is_active_assignment user_id recording_id (some role)) rows ≤ 1

count_if-none : {A : Type 0} (p : A → Bool) (xs : List A) → any p xs ≡ false → count_if p xs ≡ 0
count_if-none p [] h = refl
count_if-none p (x ∷ xs) h = ground (arith, h, count_if-none p xs)

find-append :
    {A : Type 0} (p : A → Bool) (xs : List A) (a : A)
    → any p xs ≡ false
    → p a ≡ true
    → find p (xs ++ a ∷ []) ≡ some a
find-append p [] a h good = ground (arith, good)
find-append p (x ∷ xs) a h good = ground (arith, h, find-append p xs a)

-- The tests of two assignments that count as the same are the same.
same_test :
    (user_id recording_id : Text) (role : AssignmentRole) (a x : RecordingAssignment)
    → is_active_assignment user_id recording_id (some role) a ≡ true
    → is_active_assignment user_id recording_id (some role) x
      ≡ is_active_assignment a.user_id a.recording_id (some a.assignment_role) x
unfolding is_active_assignment
same_test user_id recording_id role a x h = ground (arith, h)

OneActive-append :
    (rows : List RecordingAssignment) (a : RecordingAssignment)
    → any (is_active_assignment a.user_id a.recording_id (some a.assignment_role)) rows ≡ false
    → OneActive rows
    → OneActive (rows ++ a ∷ [])
OneActive-append rows a free one user_id recording_id role =
    let p = is_active_assignment user_id recording_id (some role) in
    let q = is_active_assignment a.user_id a.recording_id (some a.assignment_role) in
    let sum = count_if-append p rows (a ∷ []) in
    elim (Bool-cases (p a)) [
      | inl mine ↦
          let others =
            count_if-none p rows
              (any-ext p q rows (λ x. same_test user_id recording_id role a x mine) ∙ free) in
          ground (arith, sum, others, mine)
      | inr not_mine ↦ ground (arith, sum, not_mine, one user_id recording_id role)
    ]

-- An assignment that is there: the one active assignment of an account that may have it.
pub record IsAssigned (p : Assigning) (before after : Db) (r : Assigned) : Type 0 where
  pub user : UserRow
  pub found : row p.user_id before.users ≡ some user
  pub enabled : user.is_active ≡ true
  pub role : assignable_role user.role ≡ ok r.row.assignment_role
  pub active :
      find_active_assignment after p.user_id p.recording_id (some r.row.assignment_role)
      ≡ some r.row
  pub rows :
      ((r.already_active ≡ true) × (after.assignments ≡ before.assignments))
      ⊎ ((r.already_active ≡ false) × (after.assignments ≡ before.assignments ++ r.row ∷ []))
  pub one : OneActive after.assignments

-- The rows after an insertion.
record Created (a : RecordingAssignment) (w : World) (r : Assigned) (v : World) : Type 0 where
  same_row : r.row ≡ a
  fresh : r.already_active ≡ false
  free :
      any (is_active_assignment a.user_id a.recording_id (some a.assignment_role)) w.assignments
      ≡ false
  rows : v.assignments ≡ w.assignments ++ a ∷ []

insert-Ensures :
    (p : Assigning) (r : Recording) (role : AssignmentRole) (now : ℕ) (id : Text) (w : World)
    → find_active_assignment w.db p.user_id p.recording_id (some role) ≡ none
    → Ensures
        (λ v.
          after_insert p r
            (new_assignment p role now id)
            now
            (append_assignment (new_assignment p role now id) v))
        w
        (Created (new_assignment p role now id) w)
unfolding append_assignment
insert-Ensures p r role now id w missing =
    let a = new_assignment p role now id in
    let inserted : World = record w {
      db = record w.db { assignments = w.assignments ++ a ∷ [] };
    } in
    let logged =
      Ensures-bind _ _
        (insert_audit_event-Ensures r.workspace_id (some r.id)
          (some (actor_context_for_principal p.assigned_by)) AuditEventType.assignment_created
          (assignment a.id p.user_id a.assignment_role) now inserted)
        (λ event v same.
          Ensures-pure
            {P = λ (x : Assigned) (u : World).
              (x ≡ record { row = a; already_active = false })
              × (u.assignments ≡ w.assignments ++ a ∷ [])}
            (record { row = a; already_active = false }) (refl, same.assignments)) in
    record {
      at = λ x v h.
          elim (Bool-cases (
            has_key a.id w.assignments
            || any (is_active_assignment a.user_id a.recording_id (some a.assignment_role))
                w.assignments)) [
                  | inl c ↦
                      let k = rw (c, if◌then◌else◌) at h in absurd (ground (arith, k, missing))
                  | inr c ↦
                      let (made, kept) = logged.at x v (rw (c, if◌then◌else◌) at h) in
                      record {
                        same_row = ground (arith, made);
                        fresh = ground (arith, made);
                        free = ground (arith, c);
                        rows = kept;
                      }
                ];
    }

-- The row that is found or made, with its role.
record IsFound (p : Assigning) (role : AssignmentRole) (w : Db) (r : Assigned) (v : Db)
    : Type 0 where
  same_role : role ≡ r.row.assignment_role
  active : find_active_assignment v p.user_id p.recording_id (some role) ≡ some r.row
  rows :
      ((r.already_active ≡ true) × (v.assignments ≡ w.assignments))
      ⊎ ((r.already_active ≡ false) × (v.assignments ≡ w.assignments ++ r.row ∷ []))
  one : OneActive w.assignments → OneActive v.assignments

Created-IsFound :
    (p : Assigning) (role : AssignmentRole) (now : ℕ) (id : Text) (w u v : World) (r : Assigned)
    → u.db ≡ w.db
    → Created (new_assignment p role now id) u r v
    → IsFound p role w.db r v.db
unfolding find_active_assignment is_active_assignment
Created-IsFound p role now id w u v r same made =
    let a = new_assignment p role now id in
    let rows : v.assignments ≡ w.assignments ++ a ∷ [] =
      made.rows ∙ ap (λ (d : Db). d.assignments ++ a ∷ []) same in
    let free : any (is_active_assignment p.user_id p.recording_id (some role)) w.assignments
        ≡ false =
      ap (λ (d : Db). any (is_active_assignment p.user_id p.recording_id (some role)) d.assignments)
        (sym same)
      ∙ made.free in
    record {
      same_role = ap (λ (x : RecordingAssignment). x.assignment_role) (sym made.same_row);
      active =
          ap (find (is_active_assignment p.user_id p.recording_id (some role))) rows
          ∙ find-append (is_active_assignment p.user_id p.recording_id (some role)) w.assignments a
              free (ground arith)
          ∙ ap some (sym made.same_row);
      rows = inr (made.fresh, rows ∙ ap (λ x. w.assignments ++ x ∷ []) (sym made.same_row));
      one = λ one. subst OneActive (sym rows) (OneActive-append w.assignments a free one);
    }

create_assignment-Ensures :
    (p : Assigning) (role : AssignmentRole) (now : ℕ) (w : World)
    → find_active_assignment w.db p.user_id p.recording_id (some role) ≡ none
    → Ensures (create_assignment p role now) w (λ r v. IsFound p role w.db r v.db)
unfolding create_assignment
create_assignment-Ensures p role now w missing = Ensures-query _ λ r there.
    Ensures-lift (assert_assignment_compatible r role) λ compatible fit.
      Ensures-bind _ _ (random_uuid-Ensures w) λ id u same.
        Ensures-weaken
          (insert-Ensures p r role now id u (
            ap (λ d. find_active_assignment d p.user_id p.recording_id (some role)) same ∙ missing))
          λ x v made. Created-IsFound p role now id w u v x same made

unless_active-Ensures :
    (p : Assigning) (role : AssignmentRole) (now : ℕ) (w : World) (o : Option RecordingAssignment)
    → find_active_assignment w.db p.user_id p.recording_id (some role) ≡ o
    → ((a : RecordingAssignment) → o ≡ some a → role ≡ a.assignment_role)
    → Ensures (unless_active o (create_assignment p role now)) w (λ r v. IsFound p role w.db r v.db)
unless_active-Ensures p role now w none missing kept =
    create_assignment-Ensures p role now w missing
unless_active-Ensures p role now w (some a) there kept =
    Ensures-pure _ (record {
      same_role = kept a refl;
      active = there;
      rows = inl (refl, refl);
      one = λ one. one;
    })

found_role :
    (p : Assigning) (role : AssignmentRole) (rows : List RecordingAssignment)
    (a : RecordingAssignment)
    → find (is_active_assignment p.user_id p.recording_id (some role)) rows ≡ some a
    → role ≡ a.assignment_role
unfolding is_active_assignment
found_role p role [] a h = absurd (cc)
found_role p role (x ∷ rows) a h = ground (arith, h, found_role p role rows a)

assign_body-Ensures :
    (p : Assigning) (now : ℕ) (w : World)
    → OneActive w.assignments
    → Ensures (assign_body p now) w (λ r v. IsAssigned p w.db (committed v).db r)
unfolding assign_body find_active_assignment
assign_body-Ensures p now w one =
    Ensures-query (λ db. or_throw (row p.user_id db.users) no_active_user)
      λ user there. Ensures-lift (throw_if (not user.is_active) no_active_user) λ checked enabled.
        Ensures-lift (assignable_role user.role) λ role fit.
          Ensures-weaken
            (record {
              at =
                  (unless_active-Ensures p role now w
                    (find_active_assignment w.db p.user_id p.recording_id (some role)) refl
                    (found_role p role w.assignments)).at;
            })
            λ r v f. record {
              user = user;
              found = or_throw_ok (row p.user_id w.users) no_active_user user there;
              enabled = ground (arith, enabled);
              role = fit ∙ ap ok f.same_role;
              active =
                  subst
                    (λ x.
                      find_active_assignment v.db p.user_id p.recording_id (some x) ≡ some r.row)
                    f.same_role f.active;
              rows = f.rows;
              one = f.one one;
            }

-- An assignment that succeeds is of an enabled reviewer or approver, in the role of the account. It is the
-- active one that is found afterwards, new or there before, and no other assignment changes. If a user had
-- at most one active assignment in a role on a recording then that is still so.
pub assign_recording_to_user_lem :
    (p : Assigning) (now : ℕ) (w v : World) (r : Assigned)
    → OneActive w.assignments
    → assign_recording_to_user p now w ≡ (ok r, v)
    → IsAssigned p w.db v.db r
unfolding assign_recording_to_user
assign_recording_to_user_lem p now w v r one h =
    (Ensures-transaction {P = λ x u. IsAssigned p w.db u.db x} (assign_body p) now
        (assign_body-Ensures p now w one)).at
      r v h
