-- ===== src/Casefile/Commands/State/Laws.antt =====
-- What the checks on a loaded casefile guarantee.
use superscriber.Prelude.{Text, Option, none, some, ◌≡◌, refl, arith, text_equal, row}
use superscriber.Domain.Models.{
  Recording, TranscriptRevision, TranscriptRevisionState, revision_state_equal,
}
use superscriber.Domain.Errors.{ok, stale_revision, state_changed, ErrorCode}
use superscriber.Casefile.Store.{Db, recording_keyed, revision_keyed}
use superscriber.Casefile.Commands.State.{
  conflict_error, current_revision, current_revision_or_throw, assert_draft_state,
  assert_pending_decision_state, assert_approved_decision_state, LoadedCommandState,
}

-- A conflict is never a success.
pub conflict_error-ne_ok :
    (code : ErrorCode) (db : Db) (r : Recording) (id : Text)
    → conflict_error {A = Unit {0}} code db r id ≡ ok tt
    → ⊥
unfolding conflict_error
conflict_error-ne_ok code db r id h = ground arith

-- The revision that is loaded is the stored row of the recording's current revision.
pub current_revision-some :
    (db : Db) (id : Option Text) (v : TranscriptRevision)
    → current_revision db id ≡ ok (some v)
    → (c : Text) × (id ≡ some c) × (row c db.revisions ≡ some v)
unfolding current_revision
current_revision-some db none v h = absurd (cc)
current_revision-some db (some c) v h = (c, refl, ground arith)

pub assert_draft_state_ok :
    (db : Db) (r : Recording) (v : TranscriptRevision) (expected : Text)
    → assert_draft_state db r v expected ≡ ok tt
    → (r.current_revision_id ≡ some expected) × (v.state ≡ TranscriptRevisionState.draft)
unfolding assert_draft_state
assert_draft_state_ok db r v expected h =
    ground (arith, conflict_error-ne_ok stale_revision db r expected)

pub assert_pending_decision_state_ok :
    (db : Db) (r : Recording) (v : TranscriptRevision) (expected : Text)
    → assert_pending_decision_state db r v expected ≡ ok tt
    → (r.pending_revision_id ≡ some expected)
      × (r.current_revision_id ≡ some expected)
      × (v.id ≡ expected)
      × (v.state ≡ TranscriptRevisionState.pending_approval)
unfolding assert_pending_decision_state
assert_pending_decision_state_ok db r v expected h = ground (
  arith,
  conflict_error-ne_ok stale_revision db r expected,
  conflict_error-ne_ok state_changed db r expected,
)

pub assert_approved_decision_state_ok :
    (db : Db) (r : Recording) (v : TranscriptRevision) (expected : Text)
    → assert_approved_decision_state db r v expected ≡ ok tt
    → (r.approved_revision_id ≡ some expected)
      × (r.current_revision_id ≡ some expected)
      × (v.id ≡ expected)
      × (v.state ≡ TranscriptRevisionState.approved)
unfolding assert_approved_decision_state
assert_approved_decision_state_ok db r v expected h = ground (
  arith,
  conflict_error-ne_ok stale_revision db r expected,
  conflict_error-ne_ok state_changed db r expected,
)

pub current_revision_or_throw_ok :
    (r : Recording) (o : Option TranscriptRevision) (v : TranscriptRevision)
    → current_revision_or_throw r o ≡ ok v
    → o ≡ some v
unfolding current_revision_or_throw
current_revision_or_throw_ok r none v h = absurd (cc)
current_revision_or_throw_ok r (some u) v h = ground arith

-- What a command that decides has checked of the loaded revision.
pub record IsPending (s : LoadedCommandState) (expected : Text) (v : TranscriptRevision)
    : Type 0 where
  pub loaded : s.revision ≡ some v
  pub named : v.id ≡ expected
  pub current : s.recording.current_revision_id ≡ some expected
  pub pending : s.recording.pending_revision_id ≡ some expected
  pub state : v.state ≡ TranscriptRevisionState.pending_approval

pub IsPending-checked :
    (s : LoadedCommandState) (expected : Text) (v : TranscriptRevision) (db : Db)
    → current_revision_or_throw s.recording s.revision ≡ ok v
    → assert_pending_decision_state db s.recording v expected ≡ ok tt
    → IsPending s expected v
IsPending-checked s expected v db found asserted =
    let (pending, current, named, state) =
      assert_pending_decision_state_ok db s.recording v expected asserted in
    record {
      loaded = current_revision_or_throw_ok s.recording s.revision v found;
      named = named;
      current = current;
      pending = pending;
      state = state;
    }

-- What reopening has checked of the loaded revision.
pub record IsApproved (s : LoadedCommandState) (expected : Text) (v : TranscriptRevision)
    : Type 0 where
  pub loaded : s.revision ≡ some v
  pub named : v.id ≡ expected
  pub current : s.recording.current_revision_id ≡ some expected
  pub approved : s.recording.approved_revision_id ≡ some expected
  pub state : v.state ≡ TranscriptRevisionState.approved

pub IsApproved-checked :
    (s : LoadedCommandState) (expected : Text) (v : TranscriptRevision) (db : Db)
    → current_revision_or_throw s.recording s.revision ≡ ok v
    → assert_approved_decision_state db s.recording v expected ≡ ok tt
    → IsApproved s expected v
IsApproved-checked s expected v db found asserted =
    let (approved, current, named, state) =
      assert_approved_decision_state_ok db s.recording v expected asserted in
    record {
      loaded = current_revision_or_throw_ok s.recording s.revision v found;
      named = named;
      current = current;
      approved = approved;
      state = state;
    }

-- What saving and submitting have checked of the loaded revision.
pub record IsDraft (s : LoadedCommandState) (expected : Text) (v : TranscriptRevision)
    : Type 0 where
  pub loaded : s.revision ≡ some v
  pub current : s.recording.current_revision_id ≡ some expected
  pub state : v.state ≡ TranscriptRevisionState.draft

pub IsDraft-checked :
    (s : LoadedCommandState) (expected : Text) (v : TranscriptRevision) (db : Db)
    → current_revision_or_throw s.recording s.revision ≡ ok v
    → assert_draft_state db s.recording v expected ≡ ok tt
    → IsDraft s expected v
IsDraft-checked s expected v db found asserted =
    let (current, state) = assert_draft_state_ok db s.recording v expected asserted in
    record {
      loaded = current_revision_or_throw_ok s.recording s.revision v found;
      current = current;
      state = state;
    }

-- The loaded revision is the stored row under the expected id.
pub loaded_row :
    (db : Db) (s : LoadedCommandState) (expected : Text) (v : TranscriptRevision)
    → current_revision db s.recording.current_revision_id ≡ ok s.revision
    → s.revision ≡ some v
    → s.recording.current_revision_id ≡ some expected
    → row expected db.revisions ≡ some v
loaded_row db s expected v current loaded named =
    let (c, at, found) =
      current_revision-some db s.recording.current_revision_id v
        (ground (arith, current, loaded)) in
    ground (arith, at, found, named)
