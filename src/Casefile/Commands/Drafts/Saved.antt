-- ===== src/Casefile/Commands/Drafts/Saved.antt =====
-- The writes that a save leaves (`saveDraftInTransaction` of src/server/casefile/commands.ts).
use superscriber.Prelude.{
  Text, ℕ, none, some, Bool, true, false, ◌≡◌, refl, sym, arith, List, [], ◌∷◌, ◌++◌, row,
  update_row, text_equal, has_key, row-key,
}
use superscriber.Domain.Models.{
  Principal, Recording, TranscriptRevision, TranscriptRevisionState, TranscriptSegment,
}
use superscriber.Domain.Errors.{ok}
use superscriber.Casefile.Edits.{assert_complete_segments}
use superscriber.Casefile.Store.{World, recording_keyed, revision_keyed}
use superscriber.Casefile.Store.Ensures.{
  Ensures, Ensures-bind, Ensures-modify, Ensures-lift, Ensures-query, Ensures-pure,
}
use superscriber.Casefile.Commands.State.{
  CommandActor, LoadedCommandState, current_revision_or_throw,
}
use superscriber.Casefile.Commands.State.Laws.{IsDraft, IsDraft-checked}
use superscriber.Casefile.Commands.Authority.{require_save_authority, require_submit_authority}
use superscriber.Casefile.Commands.Phases.{
  Phase, drafting, awaiting, closed, HasPhase, phase_of_draft,
}
use superscriber.Casefile.Commands.Rows.{
  create_revision_id, draft_revision, update_recording, update_revision, next_revision_version,
  normalize_summary, save_draft_in_transaction, saved_segments, with_pointers, with_state,
}
use superscriber.Casefile.Commands.Rows.Laws.{append_revision-Ensures, drafting-HasPhase}
use superscriber.Casefile.Commands.Drafts.{check_save, check_submit}

abbrev pub saved_pointers : Text → ℕ → Recording → Recording
saved_pointers id now r = with_pointers (some id) none r.approved_revision_id now r

-- The rows after a save of `segments` over the revision `prior`.
pub record IsSaved (id : Text) (prior : TranscriptRevision) (segments : List TranscriptSegment)
    (summary : Text) (keep : Bool) (now : ℕ) (w w' : World) (d : TranscriptRevision) : Type 0 where
  pub recordings : w'.recordings ≡ update_row id (saved_pointers d.id now) w.recordings
  pub revisions :
      w'.revisions
      ≡ update_row prior.id (with_state TranscriptRevisionState.superseded) w.revisions ++ d ∷ []
  pub fresh :
      has_key d.id (update_row prior.id (with_state TranscriptRevisionState.superseded) w.revisions)
      ≡ false
  pub draft : d.state ≡ TranscriptRevisionState.draft
  pub based_on : d.based_on_revision_id ≡ some prior.id
  pub of_recording : d.recording_id ≡ id
  pub version : d.version ≡ next_revision_version w.db id
  pub described : d.summary ≡ normalize_summary summary
  pub complete : assert_complete_segments prior.segments segments ≡ ok tt
  pub labelled : saved_segments keep segments ≡ ok d.segments
  pub unsubmitted : d.submitted_by_user_id ≡ none
  pub assignments : w'.assignments ≡ w.assignments

create_revision_id-Ensures : (w : World) → Ensures create_revision_id w (λ id v. v.db ≡ w.db)
unfolding create_revision_id
create_revision_id-Ensures w = record { at = λ id v h. ground arith }

pub save_draft_in_transaction-Ensures :
    (a : CommandActor) (r : Recording) (prior : TranscriptRevision)
    (segments : List TranscriptSegment) (summary : Text) (now : ℕ) (keep : Bool) (w : World)
    → Ensures
        (save_draft_in_transaction a r prior segments summary now keep)
        w
        (λ d w'. IsSaved r.id prior segments summary keep now w w' d)
unfolding save_draft_in_transaction
save_draft_in_transaction-Ensures a r prior segments summary now keep w =
    Ensures-lift (assert_complete_segments prior.segments segments) λ _ complete.
      Ensures-bind _ _ (create_revision_id-Ensures w) λ id w1 made.
        Ensures-query (λ db. ok (next_revision_version db r.id))
          λ version counted. Ensures-lift (saved_segments keep segments) λ labelled named.
            let d =
              draft_revision id r.id version prior.id a now (normalize_summary summary) labelled in
            Ensures-modify
              (update_revision prior.id (with_state TranscriptRevisionState.superseded))
              (Ensures-bind _ _ (append_revision-Ensures d _) λ _ w2 appended.
                Ensures-modify (update_recording r.id (saved_pointers id now)) (
                  Ensures-pure d (record {
                    recordings = ground arith;
                    revisions = ground arith;
                    fresh = ground arith;
                    draft = refl;
                    based_on = refl;
                    of_recording = refl;
                    version = ground arith;
                    described = refl;
                    complete = complete;
                    labelled = named;
                    unsubmitted = refl;
                    assignments = ground arith;
                  })))

pub check_save-Ensures :
    (s : LoadedCommandState) (p : Principal) (expected : Text) (w : World)
    → Ensures (check_save s p expected) w (λ v w'. (w' ≡ w) × IsDraft s expected v)
unfolding check_save
check_save-Ensures s p expected w = Ensures-lift (require_save_authority s p) λ _ authority.
    Ensures-lift (current_revision_or_throw s.recording s.revision) λ v found.
      Ensures-query _
        λ _ asserted. Ensures-pure v (refl, IsDraft-checked s expected v w.db found asserted)

pub check_submit-Ensures :
    (s : LoadedCommandState) (p : Principal) (expected : Text) (w : World)
    → Ensures (check_submit s p expected) w (λ v w'. (w' ≡ w) × IsDraft s expected v)
unfolding check_submit
check_submit-Ensures s p expected w = Ensures-lift (require_submit_authority s p) λ _ authority.
    Ensures-lift (current_revision_or_throw s.recording s.revision) λ v found.
      Ensures-query _
        λ _ asserted. Ensures-pure v (refl, IsDraft-checked s expected v w.db found asserted)

-- A casefile that is saved was a draft of the revision that the caller named, and is then a draft of
-- the revision that was made.
pub IsSaved-HasPhase :
    (s : LoadedCommandState) (id expected : Text) (prior : TranscriptRevision)
    (segments : List TranscriptSegment) (summary : Text) (keep : Bool) (now : ℕ) (w w' : World)
    (d : TranscriptRevision) (ph : Phase)
    → row id w.recordings ≡ some s.recording
    → IsDraft s expected prior
    → row expected w.revisions ≡ some prior
    → IsSaved s.recording.id prior segments summary keep now w w' d
    → HasPhase w.db id ph
    → (ph ≡ drafting expected) × HasPhase w'.db id (drafting d.id)
IsSaved-HasPhase s id expected prior segments summary keep now w w' d ph stored checked found saved
      has =
    let was =
      phase_of_draft w.db id expected s.recording stored prior ph checked.current found
        checked.state has in
    (
      was,
      drafting-HasPhase w.db w'.db id s.recording d
          (update_row prior.id (with_state TranscriptRevisionState.superseded) w.revisions)
          (λ _. true) (saved_pointers d.id now) stored refl (λ r. refl)
          (rw (sym (row-key id w.recordings s.recording stored)) (ground (arith, saved.recordings)))
          saved.fresh saved.revisions saved.draft refl refl (unapproved ph has was),
    )
  where
    unapproved :
        (ph : Phase)
        → HasPhase w.db id ph
        → ph ≡ drafting expected
        → s.recording.approved_revision_id ≡ none
    unapproved (drafting a) h e = ground (arith, stored, h.stored, h.approved)
    unapproved (awaiting a) h e = ground (arith, stored, h.stored, h.approved)
    unapproved (closed a) h e = absurd (cc)
