-- ===== src/Casefile/Access/Completion.antt =====
-- Completing the assignments of an approved casefile (`completeActiveAssignmentsForApproval` of
-- src/server/access/service.ts).
use superscriber.Prelude.{
  Text, ℕ, some, Bool, ◌≡◌, refl, sym, arith, List, [], ◌∷◌, map, row, text_equal, update_where,
  filter_if, count_if,
}
use superscriber.Domain.Models.{
  AuditEventType, Recording, RecordingAssignment, assignment_status_equal,
}
use superscriber.Domain.Errors.{or_throw, recording_not_valid}
use superscriber.Casefile.Access.{
  audit_completed, complete_active_assignments_for_approval, complete_active_rows,
  complete_assignment, complete_rows, is_active_in,
}
use superscriber.Casefile.Store.{World, ActorContext, assignment_completed, recording_keyed}
use superscriber.Casefile.Store.Audit.{SameCasefiles, insert_audit_event-Ensures}
use superscriber.Casefile.Store.Ensures.{
  Ensures, Ensures-bind, Ensures-modify, Ensures-pure, Ensures-query, Ensures-weaken,
}

-- An update of no row changes nothing.
update_where-none :
    {A : Type 0} (p : A → Bool) (f : A → A) (xs : List A)
    → filter_if p xs ≡ []
    → update_where p f xs ≡ xs
update_where-none p f [] h = refl
update_where-none p f (x ∷ xs) h = ground (arith, update_where-none p f xs)

audit_completed-Ensures :
    (r : Recording) (actor : ActorContext) (id : Text) (now : ℕ) (xs : List RecordingAssignment)
    (w : World)
    → Ensures (audit_completed r actor id now xs) w (λ u v. SameCasefiles w v)
unfolding audit_completed
audit_completed-Ensures r actor id now [] w =
    Ensures-pure tt (record { recordings = refl; revisions = refl; assignments = refl })
audit_completed-Ensures r actor id now (a ∷ rest) w =
    Ensures-bind _ _
      (insert_audit_event-Ensures r.workspace_id (some r.id) (some actor)
        AuditEventType.assignment_completed
        (assignment_completed a.id a.user_id a.assignment_role id) now w)
      λ event v same. Ensures-weaken (audit_completed-Ensures r actor id now rest v) (λ u v' later.
        record { recordings = ground arith; revisions = ground arith; assignments = ground arith })

-- The rows after the completion.
pub record IsCompleted (id revision : Text) (now : ℕ) (w v : World)
    (done : List RecordingAssignment) : Type 0 where
  pub recordings : v.recordings ≡ w.recordings
  pub revisions : v.revisions ≡ w.revisions
  pub assignments :
      v.assignments
      ≡ update_where (is_active_in id) (complete_assignment revision now) w.assignments
  pub returned :
      done ≡ map (complete_assignment revision now) (filter_if (is_active_in id) w.assignments)

complete_rows-Ensures :
    (id revision : Text) (actor : ActorContext) (now : ℕ) (xs : List RecordingAssignment)
    (w : World)
    → xs ≡ filter_if (is_active_in id) w.assignments
    → Ensures
        (complete_rows id revision actor now xs)
        w
        (λ done v. IsCompleted id revision now w v done)
unfolding complete_rows
complete_rows-Ensures id revision actor now [] w e = Ensures-pure [] (record {
  recordings = refl;
  revisions = refl;
  assignments = sym (
      update_where-none (is_active_in id) (complete_assignment revision now) w.assignments (sym e));
  returned = rw (← e);
})
complete_rows-Ensures id revision actor now (a ∷ rest) w e =
    Ensures-query (λ db. or_throw (row id db.recordings) recording_not_valid)
      λ r found. Ensures-modify (complete_active_rows id revision now) (
        Ensures-bind _ _
          (audit_completed-Ensures r actor revision now
            (map (complete_assignment revision now) (a ∷ rest)) _)
          λ u v same. Ensures-pure (map (complete_assignment revision now) (a ∷ rest)) (record {
            recordings = ground arith;
            revisions = ground arith;
            assignments = same.assignments;
            returned = rw (← e);
          }))

pub complete_active-Ensures :
    (id revision : Text) (actor : ActorContext) (now : ℕ) (w : World)
    → Ensures
        (complete_active_assignments_for_approval id revision actor now)
        w
        (λ done v. IsCompleted id revision now w v done)
unfolding complete_active_assignments_for_approval
complete_active-Ensures id revision actor now w = record {
  at = λ done v h.
      (complete_rows-Ensures id revision actor now (filter_if (is_active_in id) w.assignments) w
          refl).at
        done v h;
}

-- After the update no assignment of the recording is active.
pub update_where-no_active :
    (id revision : Text) (now : ℕ) (xs : List RecordingAssignment)
    → count_if
        (is_active_in id)
        (update_where (is_active_in id) (complete_assignment revision now) xs)
      ≡ 0
unfolding is_active_in
update_where-no_active id revision now [] = refl
update_where-no_active id revision now (x ∷ xs) =
    ground (arith, update_where-no_active id revision now xs)
