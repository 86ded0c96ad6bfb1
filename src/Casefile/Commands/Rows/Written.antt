-- ===== src/Casefile/Commands/Rows/Written.antt =====
-- When the writes of the commands go through (src/server/casefile/commands.ts).
use superscriber.Prelude.{
  Text, ℕ, Option, some, Bool, true, false, ◌≡◌, refl, arith, List, [], ◌∷◌, ◌++◌, any, ◌&&◌, ◌===◌,
  text_equal, ◌==◌, row, has_key, count_if, update_where, units,
}
use superscriber.Domain.Models.{ApprovalState, AuditEventType, Recording, TranscriptRevision}
use superscriber.Domain.Errors.{ok}
use superscriber.Casefile.Store.{
  World, ActorContext, AuditMetadata, recording_keyed, revision_keyed, approval_keyed, audit_keyed,
}
use superscriber.Casefile.Store.Exec.{Exec, ◌>>=◌, ◌>>◌, pure}
use superscriber.Casefile.Store.Audit.{append_revision, drawn, insert_audit_event, actor_or_system}
use superscriber.Casefile.Store.Succeeds.{Succeeds, Succeeds-bind, Succeeds-pure}
use superscriber.Casefile.Commands.State.{CommandActor}
use superscriber.Casefile.Commands.Rows.{insert_decision_row, update_guarded}

-- The ids that a decision draws are not taken.
pub record FreshIds (w : World) : Type 0 where
  pub revision : has_key (units "rev-" ++ w.uuids 0) w.revisions ≡ false
  pub approval : has_key (w.uuids 1) w.approvals ≡ false
  pub event : has_key (w.uuids 2) w.audit_events ≡ false

-- What a write that goes through leaves for the writes after it.
pub record Leaves (m : Exec (Unit {0})) (w : World) : Type 0 where
  pub after : World
  pub ran : m w ≡ (ok tt, after)
  pub version : after.state_version ≡ w.state_version
  pub events : after.audit_events ≡ w.audit_events
  pub first : after.uuids ≡ drawn w
  pub recordings : after.recordings ≡ w.recordings

count_if-held :
    (id : Text) (still : Recording → Bool) (r : Recording) (rs : List Recording)
    → row id rs ≡ some r
    → still r ≡ true
    → (count_if (λ s. s.id === id && still s) rs == 0) ≡ false
count_if-held id still r [] h k = ground arith
count_if-held id still r (s ∷ rs) h k = ground (arith, count_if-held id still r rs)

pub update_guarded-held :
    (id expected : Text) (still : Recording → Bool) (f : Recording → Recording) (r : Recording)
    (w : World)
    → row id w.recordings ≡ some r
    → still r ≡ true
    → update_guarded id expected still f w ≡ (
      ok tt,
      record w {
        db = record w.db { recordings = update_where (λ s. s.id === id && still s) f w.recordings };
      },
    )
unfolding update_guarded
update_guarded-held id expected still f r w found held =
    ground (arith, count_if-held id still r w.recordings found held)

pub append_revision-new :
    (r : TranscriptRevision) (w : World)
    → has_key r.id w.revisions ≡ false
    → any (λ s. s.recording_id === r.recording_id && s.version == r.version) w.revisions ≡ false
    → append_revision r w
      ≡ (ok tt, record w { db = record w.db { revisions = w.revisions ++ r ∷ [] } })
unfolding append_revision
append_revision-new r w fresh next = ground (arith, fresh, next)

pub insert_decision_row-new :
    (id v : Text) (s : ApprovalState) (a : CommandActor) (now : ℕ) (reason : Option Text)
    (w : World)
    → has_key (w.uuids 0) w.approvals ≡ false
    → Leaves (insert_decision_row id v s a now reason) w
unfolding insert_decision_row
insert_decision_row-new id v s a now reason w fresh =
    let after = (insert_decision_row id v s a now reason w).1 in
    record {
      after = after;
      ran = ground (arith, fresh);
      version = ground (arith, fresh);
      events = ground (arith, fresh);
      first = ground (arith, fresh);
      recordings = ground (arith, fresh);
    }

pub insert_audit_event-Succeeds :
    (ws : Text) (rec : Option Text) (actor : Option ActorContext) (t : AuditEventType)
    (m : AuditMetadata) (now : ℕ) (w : World)
    → has_key (w.uuids 0) w.audit_events ≡ false
    → Succeeds (insert_audit_event ws rec actor t m now) w
unfolding insert_audit_event
insert_audit_event-Succeeds ws rec actor t m now w fresh = record {
  value = record {
    id = w.uuids 0;
    workspace_id = ws;
    recording_id = rec;
    actor = actor_or_system actor;
    type = t;
    metadata = m;
    created_at = now;
  };
  after = (insert_audit_event ws rec actor t m now w).1;
  ran = ground (arith, fresh);
  kept = ground (arith, fresh);
}

-- The writes that end a decision by a new draft: the draft is stored, and the decision and an event
-- are recorded.
pub record_draft-Succeeds :
    (id ws : Text) (d : TranscriptRevision) (v : Text) (decision : ApprovalState) (a : CommandActor)
    (now : ℕ) (reason : Option Text) (actor : Option ActorContext) (t : AuditEventType)
    (m : AuditMetadata) (w : World)
    → has_key d.id w.revisions ≡ false
    → any (λ s. s.recording_id === d.recording_id && s.version == d.version) w.revisions ≡ false
    → has_key (w.uuids 0) w.approvals ≡ false
    → has_key (w.uuids 1) w.audit_events ≡ false
    → Succeeds
        (append_revision d
          >> (insert_decision_row id v decision a now reason
              >> (insert_audit_event ws (some id) actor t m now >>= λ event. pure d)))
        w
record_draft-Succeeds id ws d v decision a now reason actor t m w fresh next approval event =
    let w1 = record w { db = record w.db { revisions = w.revisions ++ d ∷ [] } } in
    let l = insert_decision_row-new id v decision a now reason w1 approval in
    let e =
      insert_audit_event-Succeeds ws (some id) actor t m now l.after
        (ground (arith, l.events, l.first, event)) in
    Succeeds-bind (append_revision d) _ tt w1 (append_revision-new d w fresh next) refl (
      Succeeds-bind (insert_decision_row id v decision a now reason) _ tt l.after l.ran l.version (
        Succeeds-bind (insert_audit_event ws (some id) actor t m now) _ e.value e.after e.ran e.kept
          (Succeeds-pure d)))
