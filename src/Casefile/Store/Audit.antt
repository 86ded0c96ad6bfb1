-- ===== src/Casefile/Store/Audit.antt =====
-- The audit trail and the insertion of rows (src/server/casefile/audit.ts). A row whose key, or
-- whose pair under a unique index, is there already is refused by the database.
use superscriber.Prelude.{
  Text, ℕ, suc, Option, none, some, false, [], ◌∷◌, ◌++◌, ◌≡◌, arith, if◌then◌else◌, has_key, any,
  ◌&&◌, ◌||◌, ◌===◌, text_equal, ◌==◌,
}
use superscriber.Domain.Models.{
  Principal, ActorRole, AuditEventType, TranscriptRevision, ApprovalRecord,
}
use superscriber.Domain.Errors.{ok, err, unique_constraint}
use superscriber.Casefile.Store.{
  World, ActorContext, AuditMetadata, AuditEvent, audit_keyed, revision_keyed, approval_keyed,
}
use superscriber.Casefile.Store.Ensures.{Ensures}
use superscriber.Casefile.Store.Exec.{Exec, ◌>>=◌, random_uuid}

unfoldable pub system_actor_context : ActorContext
system_actor_context = record {
  actor_role = ActorRole.system;
  actor_user_id = none;
  actor_display_name = none;
  effective_role = ActorRole.system;
  admin_action_session_id = none;
}

unfoldable pub actor_context_for_principal : Principal → ActorContext
actor_context_for_principal p = record {
  actor_role = ActorRole.user p.role;
  actor_user_id = some p.user_id;
  actor_display_name = some p.display_name;
  effective_role = ActorRole.user p.role;
  admin_action_session_id = none;
}

abbrev pub actor_or_system : Option ActorContext → ActorContext
actor_or_system (some a) = a
actor_or_system none = system_actor_context

unfoldable pub append_audit_event : AuditEvent → Exec AuditEvent
append_audit_event e w =
    if has_key e.id w.audit_events
    then (err unique_constraint, w)
    else (ok e, record w { db = record w.db { audit_events = w.audit_events ++ e ∷ [] } })

unfoldable pub insert_audit_event :
    Text → Option Text → Option ActorContext → AuditEventType → AuditMetadata → ℕ → Exec AuditEvent
unfolding random_uuid append_audit_event
insert_audit_event workspace_id recording_id actor type metadata created_at = do
  id ← random_uuid
  append_audit_event (record {
    id = id;
    workspace_id = workspace_id;
    recording_id = recording_id;
    actor = actor_or_system actor;
    type = type;
    metadata = metadata;
    created_at = created_at;
  })

unfoldable pub append_revision : TranscriptRevision → Exec (Unit {0})
append_revision r w =
    if has_key r.id w.revisions
      || any (λ s. s.recording_id === r.recording_id && s.version == r.version) w.revisions
    then (err unique_constraint, w)
    else (ok tt, record w { db = record w.db { revisions = w.revisions ++ r ∷ [] } })

unfoldable pub append_approval : ApprovalRecord → Exec (Unit {0})
append_approval a w =
    if has_key a.id w.approvals
    then (err unique_constraint, w)
    else (ok tt, record w { db = record w.db { approvals = w.approvals ++ a ∷ [] } })

-- The ids that are left when the first has been drawn.
abbrev pub drawn : World → ℕ → Text
drawn w n = w.uuids (suc n)

-- What a successful insertion leaves: the event at the end of the trail, under the drawn id.
pub insert_audit_event_lem :
    (ws : Text) (rec : Option Text) (actor : Option ActorContext) (t : AuditEventType)
    (m : AuditMetadata) (now : ℕ) (w w' : World) (e : AuditEvent)
    → insert_audit_event ws rec actor t m now w ≡ (ok e, w')
    → (e ≡ record {
      id = w.uuids 0;
      workspace_id = ws;
      recording_id = rec;
      actor = actor_or_system actor;
      type = t;
      metadata = m;
      created_at = now;
    })
      × (w' ≡ record w {
        db = record w.db { audit_events = w.audit_events ++ e ∷ [] };
        uuids = drawn w;
      })
unfolding insert_audit_event
insert_audit_event_lem ws rec actor t m now w w' e h = ground arith

pub append_revision_lem :
    (r : TranscriptRevision) (w w' : World)
    → append_revision r w ≡ (ok tt, w')
    → (has_key r.id w.revisions ≡ false)
      × (w' ≡ record w { db = record w.db { revisions = w.revisions ++ r ∷ [] } })
unfolding append_revision
append_revision_lem r w w' h = ground arith

-- Two worlds with the same recordings, revisions and assignments.
pub record SameCasefiles (w v : World) : Type 0 where
  pub recordings : v.recordings ≡ w.recordings
  pub revisions : v.revisions ≡ w.revisions
  pub assignments : v.assignments ≡ w.assignments

pub insert_audit_event-Ensures :
    (ws : Text) (rec : Option Text) (actor : Option ActorContext) (t : AuditEventType)
    (m : AuditMetadata) (now : ℕ) (w : World)
    → Ensures (insert_audit_event ws rec actor t m now) w (λ e v. SameCasefiles w v)
insert_audit_event-Ensures ws rec actor t m now w = record {
  at = λ e v h.
      let (event, left) = insert_audit_event_lem ws rec actor t m now w v e h in
      record { recordings = ground arith; revisions = ground arith; assignments = ground arith };
}
