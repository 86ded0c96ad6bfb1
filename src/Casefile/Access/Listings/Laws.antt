-- ===== src/Casefile/Access/Listings/Laws.antt =====
-- The map of assignments, and the listing for one recording.
use superscriber.Prelude.{
  Text, none, some, Bool, true, false, List, [], ◌∷◌, ◌++◌, ◌≡◌, refl, sym, ap, ◌∙◌, arith, ◌===◌,
  text_equal, filter_if, Bool-cases, inl, inr,
}
use superscriber.Domain.Models.{RecordingAssignment, assignment_status_equal}
use superscriber.Casefile.Store.{Db, UserRow, user_keyed}
use superscriber.Casefile.Access.Visible.{holds_id}
use superscriber.Casefile.Access.Visible.Laws.{holds_id_same}
use superscriber.Casefile.Access.Listings.Newest.{
  AssignmentSummary, newest_first, filter_if-newest_first,
}
use superscriber.Casefile.Access.Listings.{
  AssignmentFilters, meets, joined, list_assignments, Entry, entries_of, push_to, group,
  assignment_map_by_recording_id,
}

-- Of the listed recording.
abbrev is_of : Text → AssignmentSummary → Bool
is_of id a = a.recording_id === id

push_to_same :
    (id : Text) (a : AssignmentSummary) (entries : List Entry)
    → (a.recording_id === id) ≡ true
    → entries_of id (push_to a entries) ≡ entries_of id entries ++ a ∷ []
unfolding entries_of push_to
push_to_same id a [] same = ground (arith, same)
push_to_same id a (e ∷ entries) same = elim (Bool-cases (e.recording_id === a.recording_id)) [
  | inl here ↦ ground (arith, here, same)
  | inr later ↦ ground (arith, later, same, push_to_same id a entries same)
]

push_to_other :
    (id : Text) (a : AssignmentSummary) (entries : List Entry)
    → (a.recording_id === id) ≡ false
    → entries_of id (push_to a entries) ≡ entries_of id entries
unfolding entries_of push_to
push_to_other id a [] other = ground (arith, other)
push_to_other id a (e ∷ entries) other = elim (Bool-cases (e.recording_id === a.recording_id)) [
  | inl here ↦ ground (arith, here, other)
  | inr later ↦ ground (arith, later, other, push_to_other id a entries other)
]

append-append : (xs ys zs : List AssignmentSummary) → (xs ++ ys) ++ zs ≡ xs ++ (ys ++ zs)
append-append [] ys zs = refl
append-append (x ∷ xs) ys zs = ap (◌∷◌ x) (append-append xs ys zs)

-- Grouping adds the rows of a recording to those that are there, in their order.
entries_of-group :
    (id : Text) (rows : List AssignmentSummary) (entries : List Entry)
    → entries_of id (group rows entries) ≡ entries_of id entries ++ filter_if (is_of id) rows
unfolding group
entries_of-group id [] entries = sym (append-none (entries_of id entries))
  where
    append-none : (xs : List AssignmentSummary) → xs ++ [] ≡ xs
    append-none [] = refl
    append-none (x ∷ xs) = ap (◌∷◌ x) (append-none xs)
entries_of-group id (a ∷ rows) entries = elim (Bool-cases (a.recording_id === id)) [
  | inl same ↦ rw same (
      entries_of-group id rows (push_to a entries)
      ∙ ap (λ (x : List AssignmentSummary). x ++ filter_if (is_of id) rows)
          (push_to_same id a entries same)
      ∙ append-append (entries_of id entries) (a ∷ []) (filter_if (is_of id) rows))
  | inr other ↦ rw other (
      entries_of-group id rows (push_to a entries)
      ∙ ap (λ (x : List AssignmentSummary). x ++ filter_if (is_of id) rows)
          (push_to_other id a entries other))
]

abbrev active_in : List Text → AssignmentFilters
active_in ids = record { recording_ids = some ids; user_id = none; statuses = none }

meets_other :
    (id first : Text) (rest : List Text) (a : RecordingAssignment)
    → (a.recording_id === id) ≡ false
    → meets (active_in (id ∷ [])) a ≡ false
unfolding meets
meets_other id first rest a other = ground (arith, other)

meets_same :
    (id first : Text) (rest : List Text) (a : RecordingAssignment)
    → holds_id id (first ∷ rest) ≡ true
    → (a.recording_id === id) ≡ true
    → meets (active_in (first ∷ rest)) a ≡ meets (active_in (id ∷ [])) a
unfolding meets
meets_same id first rest a asked same =
    ground (arith, asked, same, holds_id_same a.recording_id id (first ∷ rest))

-- The joined rows of one of the recordings.
filter_if-joined :
    (id first : Text) (rest : List Text) (users : List UserRow) (rows : List RecordingAssignment)
    → holds_id id (first ∷ rest) ≡ true
    → filter_if (is_of id) (joined users (filter_if (meets (active_in (first ∷ rest))) rows))
      ≡ joined users (filter_if (meets (active_in (id ∷ []))) rows)
unfolding joined
filter_if-joined id first rest users [] asked = refl
filter_if-joined id first rest users (a ∷ rows) asked =
    let others = filter_if-joined id first rest users rows asked in
    elim (Bool-cases (a.recording_id === id)) [
      | inl same ↦
          rw (meets_same id first rest a asked same)
            (elim (Bool-cases (meets (active_in (id ∷ [])) a)) [
              | inl e ↦ ground (arith, e, same, others)
              | inr e ↦ ground (arith, e, same, others)
            ])
      | inr other ↦
          rw (meets_other id first rest a other)
            (elim (Bool-cases (meets (active_in (first ∷ rest)) a)) [
              | inl e ↦ ground (arith, e, other, others)
              | inr e ↦ ground (arith, e, other, others)
            ])
    ]

-- For each recording that was asked for, the map has what a listing of that recording alone gives, in
-- the same order.
pub assignment_map_by_recording_id_lem :
    (ids : List Text) (id : Text) (db : Db)
    → holds_id id ids ≡ true
    → entries_of id (assignment_map_by_recording_id ids db)
      ≡ list_assignments
          (record { recording_ids = some (id ∷ []); user_id = none; statuses = none })
          db
unfolding assignment_map_by_recording_id list_assignments entries_of
assignment_map_by_recording_id_lem [] id db asked = absurd (cc)
assignment_map_by_recording_id_lem (first ∷ rest) id db asked =
    entries_of-group id (list_assignments (active_in (first ∷ rest)) db) []
    ∙ filter_if-newest_first (is_of id)
        (joined db.users (filter_if (meets (active_in (first ∷ rest))) db.assignments))
    ∙ ap newest_first (filter_if-joined id first rest db.users db.assignments asked)
