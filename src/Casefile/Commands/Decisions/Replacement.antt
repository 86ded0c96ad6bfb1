-- ===== src/Casefile/Commands/Decisions/Replacement.antt =====
-- The writes that withdrawing a submission and requesting changes share: the pending revision is
-- marked, and a draft with its segments takes its place (src/server/casefile/commands.ts).
use superscriber.Prelude.{
  Text, ℕ, Option, none, some, false, ◌≡◌, refl, sym, arith, [], ◌∷◌, ◌++◌, row, update_row,
  update_where, ◌&&◌, ◌===◌, text_equal, has_key, row-key,
}
use superscriber.Domain.Models.{
  Recording, TranscriptRevision, TranscriptRevisionState, ApprovalState, AuditEventType,
}
use superscriber.Casefile.Store.{World, AuditMetadata, recording_keyed, revision_keyed}
use superscriber.Casefile.Store.Exec.{◌>>=◌, ◌>>◌, pure, modify, committed}
use superscriber.Casefile.Store.Ensures.{Ensures, Ensures-bind, Ensures-modify, Ensures-pure}
use superscriber.Casefile.Store.Audit.{
  append_revision, insert_audit_event, insert_audit_event-Ensures,
}
use superscriber.Casefile.Commands.State.{LoadedCommandState}
use superscriber.Casefile.Commands.State.Laws.{IsPending}
use superscriber.Casefile.Commands.Phases.{
  Phase, drafting, awaiting, closed, HasPhase, phase_of_pending,
}
use superscriber.Casefile.Commands.Rows.{
  clone_transition_draft, context_of, insert_decision_row, is_still_pending, next_revision_version,
  update_guarded, update_revision, with_pointers, with_state,
}
use superscriber.Casefile.Commands.Rows.Laws.{
  append_revision-Ensures, clone_transition_draft-Ensures, drafting-HasPhase,
  insert_decision_row-Ensures, update_guarded-Ensures,
}

abbrev replaced_pointers : Text → ℕ → Recording → Recording
replaced_pointers id now r = with_pointers (some id) none r.approved_revision_id now r

-- The rows after the replacement of the revision `expected` by the draft `d`.
pub record IsReplaced (id expected : Text) (v : TranscriptRevision) (mark : TranscriptRevisionState)
    (now : ℕ) (w w' : World) (d : TranscriptRevision) : Type 0 where
  pub recordings :
      w'.recordings
      ≡ update_where
          (λ r. r.id === id && is_still_pending expected r)
          (replaced_pointers d.id now)
          w.recordings
  pub revisions : w'.revisions ≡ update_row v.id (with_state mark) w.revisions ++ d ∷ []
  pub fresh : has_key d.id (update_row v.id (with_state mark) w.revisions) ≡ false
  pub draft : d.state ≡ TranscriptRevisionState.draft
  pub segments : d.segments ≡ v.segments
  pub based_on : d.based_on_revision_id ≡ some v.id
  pub version : d.version ≡ next_revision_version w.db v.recording_id
  pub assignments : w'.assignments ≡ w.assignments

pub replacement-Ensures :
    (s : LoadedCommandState) (expected : Text) (v : TranscriptRevision)
    (mark : TranscriptRevisionState) (decision : ApprovalState) (reason : Option Text)
    (type : AuditEventType) (metadata : TranscriptRevision → AuditMetadata) (now : ℕ) (w : World)
    → Ensures
        (clone_transition_draft v s.actor now >>= λ d.
          update_guarded s.recording.id expected
            (is_still_pending expected)
            (λ r. with_pointers (some d.id) none r.approved_revision_id now r)
          >> (modify (update_revision v.id (with_state mark))
              >> (append_revision d
                  >> (insert_decision_row s.recording.id v.id decision s.actor now reason
                      >> (insert_audit_event s.workspace.id
                            (some s.recording.id)
                            (some (context_of s.actor))
                            type
                            (metadata d)
                            now
                          >>= λ event. pure d)))))
        w
        (λ d w'. IsReplaced s.recording.id expected v mark now w w' d)
replacement-Ensures s expected v mark decision reason type metadata now w =
    Ensures-bind _ _ (clone_transition_draft-Ensures v s.actor now w) λ d w1 cloned.
      Ensures-bind _ _
        (update_guarded-Ensures s.recording.id expected (is_still_pending expected)
          (replaced_pointers d.id now) w1)
        λ _ w2 updated. Ensures-modify (update_revision v.id (with_state mark)) (
          Ensures-bind _ _ (append_revision-Ensures d _) λ _ w3 appended.
            Ensures-bind _ _
              (insert_decision_row-Ensures s.recording.id v.id decision s.actor now reason w3)
              λ _ w4 decided.
                Ensures-bind _ _
                  (insert_audit_event-Ensures s.workspace.id (some s.recording.id)
                    (some (context_of s.actor)) type (metadata d) now w4)
                  λ event w5 audited. Ensures-pure d (record {
                    recordings = ground arith;
                    revisions = ground arith;
                    fresh = ground arith;
                    draft = ground arith;
                    segments = ground arith;
                    based_on = ground arith;
                    version = ground arith;
                    assignments = ground arith;
                  }))

-- Advancing the state version leaves the rows.
pub IsReplaced-committed :
    (id expected : Text) (v : TranscriptRevision) (mark : TranscriptRevisionState) (now : ℕ)
    (w w' : World) (d : TranscriptRevision)
    → IsReplaced id expected v mark now w w' d
    → IsReplaced id expected v mark now w (committed w') d
IsReplaced-committed id expected v mark now w w' d r = record {
  recordings = r.recordings;
  revisions = r.revisions;
  fresh = r.fresh;
  draft = r.draft;
  segments = r.segments;
  based_on = r.based_on;
  version = r.version;
  assignments = r.assignments;
}

-- A casefile whose pending revision is replaced was awaiting a decision on it, and is then in the
-- phase of the draft.
pub IsReplaced-HasPhase :
    (s : LoadedCommandState) (id expected : Text) (v : TranscriptRevision)
    (mark : TranscriptRevisionState) (now : ℕ) (w w' : World) (d : TranscriptRevision) (ph : Phase)
    → row id w.recordings ≡ some s.recording
    → IsPending s expected v
    → IsReplaced s.recording.id expected v mark now w w' d
    → HasPhase w.db id ph
    → (ph ≡ awaiting expected) × HasPhase w'.db id (drafting d.id)
IsReplaced-HasPhase s id expected v mark now w w' d ph stored pending replaced has = (
  phase_of_pending w.db id expected s.recording stored ph pending.pending has,
  drafting-HasPhase w.db w'.db id s.recording d (update_row v.id (with_state mark) w.revisions)
      (is_still_pending expected) (replaced_pointers d.id now) stored (ground (arith, pending))
      (λ r. refl) (rw (sym (row-key id w.recordings s.recording stored)) replaced.recordings)
      replaced.fresh replaced.revisions replaced.draft refl refl
      (cleared ph has
        (phase_of_pending w.db id expected s.recording stored ph pending.pending has)),
)
  where
    cleared :
        (ph : Phase)
        → HasPhase w.db id ph
        → ph ≡ awaiting expected
        → s.recording.approved_revision_id ≡ none
    cleared (drafting a) h e = ground (arith, stored, h.stored, h.approved)
    cleared (awaiting a) h e = ground (arith, stored, h.stored, h.approved)
    cleared (closed a) h e = absurd (cc)
