-- ===== src/Casefile/Commands/Phases.antt =====
-- The abstract view of a casefile: a draft, a revision that awaits a decision, or an approved one.
use superscriber.Prelude.{Text, Option, none, some, ◌≡◌, ap, arith, row}
use mathlib.Core.Option
use superscriber.Domain.Models.{Recording, TranscriptRevision, TranscriptRevisionState}
use superscriber.Casefile.Store.{Db, recording_keyed, revision_keyed}

pub data Phase : Type 0 where
  drafting awaiting closed : Text → Phase

abbrev pub revision_of : Phase → Text
revision_of (drafting id) = id
revision_of (awaiting id) = id
revision_of (closed id) = id

abbrev pub pending_of : Phase → Option Text
pending_of (drafting id) = none
pending_of (awaiting id) = some id
pending_of (closed id) = none

abbrev pub approved_of : Phase → Option Text
approved_of (drafting id) = none
approved_of (awaiting id) = none
approved_of (closed id) = some id

abbrev pub state_of : Phase → TranscriptRevisionState
state_of (drafting id) = TranscriptRevisionState.draft
state_of (awaiting id) = TranscriptRevisionState.pending_approval
state_of (closed id) = TranscriptRevisionState.approved

-- The stored recording has the pointers of the phase, and its current revision has the state.
pub record HasPhase (db : Db) (id : Text) (ph : Phase) : Type 0 where
  pub recording : Recording
  pub stored : row id db.recordings ≡ some recording
  pub current : recording.current_revision_id ≡ some (revision_of ph)
  pub pending : recording.pending_revision_id ≡ pending_of ph
  pub approved : recording.approved_revision_id ≡ approved_of ph
  pub state : Option.map (λ v. v.state) (row (revision_of ph) db.revisions) ≡ some (state_of ph)

-- The transitions that the commands may make.
pub data Step : Phase → Phase → Type 0 where
  save : (a b : Text) → Step (drafting a) (drafting b)
  submit : (a b : Text) → Step (drafting a) (awaiting b)
  reject : (a b : Text) → Step (awaiting a) (drafting b)
  approve : (a : Text) → Step (awaiting a) (closed a)
  reopen : (a b : Text) → Step (closed a) (drafting b)

module _ (db : Db) (id expected : Text) (r : Recording)
    (stored : row id db.recordings ≡ some r) where
  -- A pending revision says that a casefile awaits a decision on it.
  pub phase_of_pending :
      (ph : Phase)
      → r.pending_revision_id ≡ some expected
      → HasPhase db id ph
      → ph ≡ awaiting expected
  phase_of_pending (drafting a) p h = absurd (ground (arith, stored, h.stored, h.pending))
  phase_of_pending (awaiting a) p h = ground (arith, stored, h.stored, h.pending)
  phase_of_pending (closed a) p h = absurd (ground (arith, stored, h.stored, h.pending))

  pub phase_of_approved :
      (ph : Phase)
      → r.approved_revision_id ≡ some expected
      → HasPhase db id ph
      → ph ≡ closed expected
  phase_of_approved (drafting a) p h = absurd (ground (arith, stored, h.stored, h.approved))
  phase_of_approved (awaiting a) p h = absurd (ground (arith, stored, h.stored, h.approved))
  phase_of_approved (closed a) p h = ground (arith, stored, h.stored, h.approved)

  -- A current revision in the state of a draft says that a casefile is being drafted.
  pub phase_of_draft :
      (v : TranscriptRevision) (ph : Phase)
      → r.current_revision_id ≡ some expected
      → row expected db.revisions ≡ some v
      → v.state ≡ TranscriptRevisionState.draft
      → HasPhase db id ph
      → ph ≡ drafting expected
  phase_of_draft v (drafting a) c f s h = ground (arith, stored, h.stored, h.current)
  phase_of_draft v (awaiting a) c f s h =
      let e : a ≡ expected = ground (arith, stored, h.stored, h.current) in
      absurd (ground (arith, h.state, ap (λ (i : Text). row i db.revisions) e))
  phase_of_draft v (closed a) c f s h =
      let e : a ≡ expected = ground (arith, stored, h.stored, h.current) in
      absurd (ground (arith, h.state, ap (λ (i : Text). row i db.revisions) e))
