-- ===== src/Casefile/Commands/Decisions/Recorded.antt =====
-- The events that an approval records (src/server/casefile/commands.ts, src/server/access/service.ts): one
-- for each assignment that it completes, and one for the approval.
use superscriber.Prelude.{
  Text, ℕ, suc, Option, some, false, ◌≡◌, ◌≢◌, refl, arith, List, [], ◌∷◌, ◌++◌, row, map,
  text_equal, has_key, filter_if,
}
use superscriber.Domain.Models.{Recording, RecordingAssignment, AuditEventType}
use superscriber.Domain.Errors.{ok}
use superscriber.Casefile.Access.{
  audit_completed, complete_active_assignments_for_approval, complete_active_rows,
  complete_assignment, complete_rows, is_active_in,
}
use superscriber.Casefile.Store.{
  World, ActorContext, AuditEvent, AuditMetadata, assignment_completed, recording_keyed,
  revision_keyed, approval_keyed, audit_keyed,
}
use superscriber.Casefile.Store.Exec.{Exec}
use superscriber.Casefile.Store.Audit.{actor_or_system, insert_audit_event, drawn}

-- No id that will be drawn is an event's, and they differ from one another.
pub record FreshEvents (w : World) : Type 0 where
  pub unused : (n : ℕ) → has_key (w.uuids n) w.audit_events ≡ false
  pub distinct : (i j : ℕ) → w.uuids i ≡ w.uuids j → i ≡ j

-- What an action that only records events leaves.
pub record Records {A : Type 0} (m : Exec A) (w : World) : Type 0 where
  pub value : A
  pub after : World
  pub ran : m w ≡ (ok value, after)
  pub version : after.state_version ≡ w.state_version
  pub recordings : after.recordings ≡ w.recordings
  pub fresh : FreshEvents after

has_key-append :
    (id : Text) (e : AuditEvent) (es : List AuditEvent)
    → has_key id es ≡ false
    → e.id ≢ id
    → has_key id (es ++ e ∷ []) ≡ false
has_key-append id e [] h n = ground (arith, n)
has_key-append id e (x ∷ es) h n = ground (arith, has_key-append id e es)

pub insert_audit_event-Records :
    (ws : Text) (rec : Option Text) (actor : Option ActorContext) (t : AuditEventType)
    (m : AuditMetadata) (now : ℕ) (w : World)
    → FreshEvents w
    → Records (insert_audit_event ws rec actor t m now) w
unfolding insert_audit_event
insert_audit_event-Records ws rec actor t m now w fresh =
    let event : AuditEvent = record {
      id = w.uuids 0;
      workspace_id = ws;
      recording_id = rec;
      actor = actor_or_system actor;
      type = t;
      metadata = m;
      created_at = now;
    } in
    record {
      value = event;
      after = record w {
        db = record w.db { audit_events = w.audit_events ++ event ∷ [] };
        uuids = drawn w;
      };
      ran = ground (arith, fresh.unused 0);
      version = refl;
      recordings = refl;
      fresh = record {
        unused = λ n.
            has_key-append (w.uuids (suc n)) event w.audit_events (fresh.unused (suc n))
              (λ e. ground (arith, fresh.distinct 0 (suc n) e));
        distinct = λ i j e. ground (arith, fresh.distinct (suc i) (suc j) e);
      };
    }

audit_completed-Records :
    (r : Recording) (actor : ActorContext) (id : Text) (now : ℕ) (xs : List RecordingAssignment)
    (w : World)
    → FreshEvents w
    → Records (audit_completed r actor id now xs) w
unfolding audit_completed
audit_completed-Records r actor id now [] w fresh = record {
  value = tt;
  after = w;
  ran = refl;
  version = refl;
  recordings = refl;
  fresh = fresh;
}
audit_completed-Records r actor id now (a ∷ rest) w fresh =
    let e =
      insert_audit_event-Records r.workspace_id (some r.id) (some actor)
        AuditEventType.assignment_completed
        (assignment_completed a.id a.user_id a.assignment_role id) now w fresh in
    let l = audit_completed-Records r actor id now rest e.after e.fresh in
    record {
      value = tt;
      after = l.after;
      ran = ground (arith, e.ran, l.ran);
      version = ground (arith, e.version, l.version);
      recordings = ground (arith, e.recordings, l.recordings);
      fresh = l.fresh;
    }

complete_rows-Records :
    (id revision : Text) (actor : ActorContext) (now : ℕ) (r : Recording)
    (xs : List RecordingAssignment) (w : World)
    → row id w.recordings ≡ some r
    → FreshEvents w
    → Records (complete_rows id revision actor now xs) w
unfolding complete_rows complete_active_rows
complete_rows-Records id revision actor now r [] w found fresh = record {
  value = [];
  after = w;
  ran = refl;
  version = refl;
  recordings = refl;
  fresh = fresh;
}
complete_rows-Records id revision actor now r (a ∷ rest) w found fresh =
    let done = map (complete_assignment revision now) (a ∷ rest) in
    let w1 = record w { db = complete_active_rows id revision now w.db } in
    let l =
      audit_completed-Records r actor revision now done w1
        (record { unused = fresh.unused; distinct = fresh.distinct }) in
    record {
      value = done;
      after = l.after;
      ran = ground (arith, found, l.ran);
      version = ground (arith, l.version);
      recordings = ground (arith, l.recordings);
      fresh = l.fresh;
    }

pub complete_active-Records :
    (id revision : Text) (actor : ActorContext) (now : ℕ) (r : Recording) (w : World)
    → row id w.recordings ≡ some r
    → FreshEvents w
    → Records (complete_active_assignments_for_approval id revision actor now) w
unfolding complete_active_assignments_for_approval
complete_active-Records id revision actor now r w found fresh =
    let l =
      complete_rows-Records id revision actor now r (filter_if (is_active_in id) w.assignments) w
        found fresh in
    record {
      value = l.value;
      after = l.after;
      ran = ground (arith, l.ran);
      version = l.version;
      recordings = l.recordings;
      fresh = l.fresh;
    }
