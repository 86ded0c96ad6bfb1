-- ===== src/Casefile/Access/Visible/Laws.antt =====
-- The list of the recordings that an account sees, beside its access to one of them.
use superscriber.Prelude.{
  Text, Option, none, some, Bool, true, false, List, [], ◌∷◌, ◌++◌, map, ◌&&◌, ◌||◌, ◌===◌,
  text_equal, is, ◌≡◌, ◌≢◌, refl, arith, row, any, any-ext, find, filter_if, distinct_keys,
  Bool-cases, ltb, has_key, inl, inr, sym, Keyed, ◌∙◌,
}
use superscriber.Domain.Models.{
  AssignmentStatus, Principal, Recording, RecordingAssignment, user_role_equal,
  assignment_status_equal,
}
use superscriber.Casefile.Store.{Db, recording_keyed}
use superscriber.Casefile.Access.{
  can_access_recording, resolve_casefile_access, assignment_access, find_active_assignment,
  is_active_assignment, find_completed_assignment, is_completed_assignment, latest_assignment,
}
use superscriber.Casefile.Access.Visible.{
  holds_id, add_ids, has_status, is_completed_for, visible_recording_ids_for_principal,
}

-- Adding ids makes a set of the old and the new.
holds_id-append :
    (id : Text) (xs ys : List Text) → holds_id id (xs ++ ys) ≡ (holds_id id xs || holds_id id ys)
holds_id-append id [] ys = refl
holds_id-append id (x ∷ xs) ys = ground (arith, holds_id-append id xs ys)

pub holds_id_same :
    (id x : Text) (seen : List Text) → (x === id) ≡ true → holds_id id seen ≡ holds_id x seen
holds_id_same id x [] e = refl
holds_id_same id x (y ∷ seen) e = ground (arith, e, holds_id_same id x seen e)

holds_id-add_ids :
    (id : Text) (seen ids : List Text)
    → holds_id id (add_ids seen ids) ≡ (holds_id id seen || holds_id id ids)
unfolding add_ids
holds_id-add_ids id seen [] = ground arith
holds_id-add_ids id seen (x ∷ ids) = elim (Bool-cases (holds_id x seen)) [
  | inl known ↦ ground (arith, known, holds_id_same id x seen, holds_id-add_ids id seen ids)
  | inr fresh ↦
      ground
        (arith, fresh, holds_id-append id seen (x ∷ []), holds_id-add_ids id (seen ++ x ∷ []) ids)
]

module _ {A : Type 0} where
  -- The ids of the rows that pass a test.
  holds_id-map :
      (id : Text) (key : A → Text) (p : A → Bool) (rows : List A)
      → holds_id id (map key (filter_if p rows)) ≡ any (λ a. p a && (key a === id)) rows
  holds_id-map id key p [] = refl
  holds_id-map id key p (a ∷ rows) = ground (arith, holds_id-map id key p rows)

  found : Option A → Bool
  found none = false
  found (some a) = true

  find-any : (p : A → Bool) (rows : List A) → found (find p rows) ≡ any p rows
  unfolding found
  find-any p [] = refl
  find-any p (a ∷ rows) = ground (arith, find-any p rows)

any-never : {A : Type 0} (rows : List A) → any (λ x. false) rows ≡ false
any-never [] = refl
any-never (x ∷ rows) = any-never rows

module _ {A : Type 0} ⦃k : Keyed A⦄ where
  any-no_key :
      (p : A → Bool) (id : Text) (rows : List A)
      → has_key id rows ≡ false
      → any (λ x. p x && (k.key x === id)) rows ≡ false
  any-no_key p id [] h = refl
  any-no_key p id (x ∷ rows) h = ground (arith, h, any-no_key p id rows)

  -- A test of the row with a key, where keys are distinct.
  any-row :
      (p : A → Bool) (id : Text) (rows : List A) (a : A)
      → row id rows ≡ some a
      → distinct_keys rows ≡ true
      → any (λ x. p x && (k.key x === id)) rows ≡ p a
  any-row p id [] a h d = absurd (cc)
  any-row p id (x ∷ rows) a h d = elim (Bool-cases (k.key x === id)) [
    | inl e ↦ ground (arith, e, h, d, any-no_key p id rows)
    | inr e ↦ ground (arith, e, h, d, any-row p id rows a)
  ]

found-latest_assignment :
    (b : RecordingAssignment) (rows : List RecordingAssignment)
    → found (latest_assignment (some b) rows) ≡ true
unfolding found latest_assignment
found-latest_assignment b [] = refl
found-latest_assignment b (a ∷ rows) = elim (Bool-cases (ltb b.updated_at a.updated_at)) [
  | inl e ↦ rw e (found-latest_assignment a rows)
  | inr e ↦ rw e (found-latest_assignment b rows)
]

found-latest_filter :
    (q : RecordingAssignment → Bool) (rows : List RecordingAssignment)
    → found (latest_assignment none (filter_if q rows)) ≡ any q rows
unfolding found latest_assignment
found-latest_filter q [] = refl
found-latest_filter q (a ∷ rows) =
    ground (arith, found-latest_assignment a (filter_if q rows), found-latest_filter q rows)

module _ (db : Db) (p : Principal) (id : Text) (r : Recording)
    (there : row id db.recordings ≡ some r) where
  completed_test :
      (c : Text) (a : RecordingAssignment)
      → r.current_revision_id ≡ some c
      → (is_completed_for db p a && (a.recording_id === id))
        ≡ is_completed_assignment p.user_id id c a
  unfolding is_completed_for is_completed_assignment
  completed_test c a current = elim (Bool-cases (a.recording_id === id)) [
    | inl e ↦ ground (arith, e, there, current)
    | inr e ↦ ground (arith, e)
  ]

  no_current :
      (a : RecordingAssignment)
      → r.current_revision_id ≡ none
      → (is_completed_for db p a && (a.recording_id === id)) ≡ false
  unfolding is_completed_for
  no_current a missing = elim (Bool-cases (a.recording_id === id)) [
    | inl e ↦ ground (arith, e, there, missing)
    | inr e ↦ ground (arith, e)
  ]

  active_test :
      (a : RecordingAssignment)
      → (has_status p AssignmentStatus.active a && (a.recording_id === id))
        ≡ is_active_assignment p.user_id id none a
  unfolding is_active_assignment
  active_test a = ground arith

  -- The completed assignments of the current revision.
  completed :
      (o : Option Text)
      → r.current_revision_id ≡ o
      → o ≢ some []
      → any (λ a. is_completed_for db p a && (a.recording_id === id)) db.assignments
        ≡ found (find_completed_assignment db p.user_id id o)
  unfolding found find_completed_assignment
  completed none e proper =
      any-ext _ (λ a. false) db.assignments (λ a. no_current a e) ∙ any-never db.assignments
  completed (some []) e proper = absurd (proper refl)
  completed (some (c ∷ s)) e proper =
      let q = is_completed_assignment p.user_id id (c ∷ s) in
      any-ext _ q db.assignments (λ a. completed_test (c ∷ s) a e)
      ∙ sym (found-latest_filter q db.assignments)

  -- The assignments by which the account may open the recording.
  assigned :
      (r.current_revision_id ≢ some [])
      → (any (λ a. has_status p AssignmentStatus.active a && (a.recording_id === id)) db.assignments
          || any (λ a. is_completed_for db p a && (a.recording_id === id)) db.assignments)
        ≡ found (assignment_access db p.user_id id r.current_revision_id)
  unfolding found assignment_access find_active_assignment
  assigned proper =
      let is_active = is_active_assignment p.user_id id none in
      ground (
        arith,
        any-ext _ is_active db.assignments active_test,
        find-any is_active db.assignments,
        completed r.current_revision_id refl proper,
      )

-- An account that is no administrator sees a recording in its list exactly when it may open it, where
-- the keys of the recordings are distinct and a current revision has a name.
pub visible_recording_ids_for_principal-can_access_recording :
    (db : Db) (p : Principal) (id : Text) (r : Recording) (ids : List Text)
    → distinct_keys db.recordings ≡ true
    → row id db.recordings ≡ some r
    → r.current_revision_id ≢ some []
    → visible_recording_ids_for_principal db p ≡ some ids
    → holds_id id ids ≡ can_access_recording db p id
unfolding visible_recording_ids_for_principal can_access_recording resolve_casefile_access found
visible_recording_ids_for_principal-can_access_recording db p id r ids distinct there proper seen =
    let uploaded = λ (x : Recording). is x.uploaded_by_user_id p.user_id in
    let active = has_status p AssignmentStatus.active in
    let first = map (λ (x : Recording). x.id) (filter_if uploaded db.recordings) in
    let second =
      map (λ (a : RecordingAssignment). a.recording_id) (filter_if active db.assignments) in
    let third =
      map (λ (a : RecordingAssignment). a.recording_id)
        (filter_if (is_completed_for db p) db.assignments) in
    ground (
      arith,
      seen,
      there,
      holds_id-add_ids id [] first,
      holds_id-add_ids id (add_ids [] first) second,
      holds_id-add_ids id (add_ids (add_ids [] first) second) third,
      holds_id-map id (λ (x : Recording). x.id) uploaded db.recordings,
      holds_id-map id (λ (a : RecordingAssignment). a.recording_id) active db.assignments,
      holds_id-map id (λ (a : RecordingAssignment). a.recording_id) (is_completed_for db p)
          db.assignments,
      any-row uploaded id db.recordings r there distinct,
      assigned db p id r there proper,
    )
