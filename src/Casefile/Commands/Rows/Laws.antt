-- ===== src/Casefile/Commands/Rows/Laws.antt =====
-- What the writes of the commands leave (src/server/casefile/commands.ts).

use superscriber.Prelude.{
  Text, ℕ, Option, none, some, Bool, true, false, ◌≡◌, arith, List, [], ◌∷◌, ◌++◌, row,
  update_where, ◌&&◌, ◌===◌, text_equal, has_key, row-append, row-update_where,
}
use superscriber.Domain.Models.{
  Recording, TranscriptRevision, TranscriptRevisionState, ApprovalState,
}
use superscriber.Casefile.Store.{Db, World, recording_keyed, revision_keyed}
use superscriber.Casefile.Store.Ensures.{Ensures}
use superscriber.Casefile.Store.Audit.{append_revision, append_revision_lem, SameCasefiles}
use superscriber.Casefile.Commands.State.{CommandActor}
use superscriber.Casefile.Commands.Phases.{drafting, HasPhase}
use superscriber.Casefile.Commands.Rows.{
  insert_decision_row, clone_transition_draft, update_guarded, draft_revision,
  next_revision_version,
}

pub insert_decision_row-Ensures :
    (id v : Text) (s : ApprovalState) (a : CommandActor) (now : ℕ) (reason : Option Text)
    (w : World)
    → Ensures (insert_decision_row id v s a now reason) w (λ u w'. SameCasefiles w w')
unfolding insert_decision_row
insert_decision_row-Ensures id v s a now reason w = record {
  at = λ u w' h. record {
    recordings = ground arith;
    revisions = ground arith;
    assignments = ground arith;
  };
}

pub clone_transition_draft-Ensures :
    (prior : TranscriptRevision) (a : CommandActor) (now : ℕ) (w : World)
    → Ensures (clone_transition_draft prior a now) w (λ d v.
      (v.db ≡ w.db)
      × (d
          ≡ draft_revision d.id prior.recording_id
              (next_revision_version w.db prior.recording_id)
              prior.id
              a
              now
              prior.summary
              prior.segments))
unfolding clone_transition_draft
clone_transition_draft-Ensures prior a now w = record { at = λ d v h. (ground arith, ground arith) }

pub update_guarded-Ensures :
    (id expected : Text) (still : Recording → Bool) (f : Recording → Recording) (w : World)
    → Ensures (update_guarded id expected still f) w (λ u v.
      v.db ≡ record w.db { recordings = update_where (λ r. r.id === id && still r) f w.recordings })
unfolding update_guarded
update_guarded-Ensures id expected still f w = record { at = λ u v h. ground arith }

pub append_revision-Ensures :
    (r : TranscriptRevision) (w : World)
    → Ensures (append_revision r) w (λ u v.
      (has_key r.id w.revisions ≡ false)
      × (v.db ≡ record w.db { revisions = w.revisions ++ r ∷ [] }))
append_revision-Ensures r w = record {
  at = λ u v h. let (fresh, left) = append_revision_lem r w v h in (fresh, ground arith);
}

-- A recording whose pointers name a draft that was just appended is in the phase of that draft.
pub drafting-HasPhase :
    (db db' : Db) (id : Text) (r : Recording) (d : TranscriptRevision)
    (rs : List TranscriptRevision) (still : Recording → Bool) (change : Recording → Recording)
    → row id db.recordings ≡ some r
    → still r ≡ true
    → ((s : Recording) → (change s).id ≡ s.id)
    → db'.recordings ≡ update_where (λ s. s.id === id && still s) change db.recordings
    → has_key d.id rs ≡ false
    → db'.revisions ≡ rs ++ d ∷ []
    → d.state ≡ TranscriptRevisionState.draft
    → (change r).current_revision_id ≡ some d.id
    → (change r).pending_revision_id ≡ none
    → (change r).approved_revision_id ≡ none
    → HasPhase db' id (drafting d.id)
drafting-HasPhase db db' id r d rs still change stored held keeps recs fresh revs draft c p a =
    record {
      recording = change r;
      stored = rw recs (ground (arith, row-update_where id id still change db.recordings keeps));
      current = c;
      pending = p;
      approved = a;
      state = rw revs (ground (arith, row-append d.id d rs fresh));
    }
