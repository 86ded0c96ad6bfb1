-- ===== src/Casefile/Commands/Load.antt =====
-- Loading the state of a command (`loadCommandState` of src/server/casefile/commands.ts).
use superscriber.Prelude.{Text, ℕ, Option, ◌≡◌, sym, subst, arith, row, some}
use superscriber.Domain.Models.{AssignmentRole, Principal, Workspace, Recording, TranscriptRevision}
use superscriber.Domain.Errors.{ok}
use superscriber.Casefile.Capabilities.{CasefileAccessGrant}
use superscriber.Casefile.Access.{resolve_casefile_access}
use superscriber.Casefile.ActionMode.{resolve_actor_context}
use superscriber.Casefile.ActionMode.Laws.{ActsUnder, resolve_actor_context_ok}
use superscriber.Casefile.Store.{World, Db, ActorContext, recording_keyed}
use superscriber.Casefile.Store.Exec.{Exec, ◌>>=◌, query, lift, bind-eq_ok, query-bind_ok}
use superscriber.Casefile.Store.Ensures.{Ensures}
use superscriber.Casefile.Commands.State.{
  LoadedCommandState, load_records, assemble_state, current_revision, command_actor,
}

unfoldable pub load_command_state :
    Principal → Text → Option Text → AssignmentRole → ℕ → Exec LoadedCommandState
unfolding load_records assemble_state
load_command_state p recording_id action_mode_id role now = do
  loaded ← query (load_records p recording_id)
  context ← resolve_actor_context p loaded.1.id role action_mode_id now
  lift (assemble_state p role loaded context)

-- What a command works on, once it is loaded: the stored recording with its current revision, the
-- account's grant, and an actor in the required role.
pub record IsLoaded (p : Principal) (id : Text) (mode : Option Text) (role : AssignmentRole)
    (now : ℕ) (w : World) (s : LoadedCommandState) : Type 0 where
  pub stored : row id w.recordings ≡ some s.recording
  pub current : current_revision w.db s.recording.current_revision_id ≡ ok s.revision
  pub granted :
      resolve_casefile_access w.db p s.recording.id s.recording.current_revision_id ≡ some s.grant
  pub acting_user : s.actor.user_id ≡ p.user_id
  pub acting_role : s.actor.actor_role ≡ p.role
  pub effective : s.actor.effective_role ≡ role
  pub context : ActorContext
  pub session : s.actor.admin_action_session_id ≡ context.admin_action_session_id
  pub rests_on : ActsUnder w.db p s.recording.id role mode now context

load_records_ok :
    (p : Principal) (id : Text) (db : Db)
    (l : Workspace × Recording × Option TranscriptRevision × CasefileAccessGrant)
    → load_records p id db ≡ ok l
    → (row id db.recordings ≡ some l.1)
      × (current_revision db l.1.current_revision_id ≡ ok l.2)
      × (resolve_casefile_access db p l.1.id l.1.current_revision_id ≡ some l.3)
unfolding load_records
load_records_ok p id db l h = ground arith

assemble_state_ok :
    (p : Principal) (role : AssignmentRole)
    (l : Workspace × Recording × Option TranscriptRevision × CasefileAccessGrant) (c : ActorContext)
    (s : LoadedCommandState)
    → assemble_state p role l c ≡ ok s
    → (s.recording ≡ l.1)
      × (s.revision ≡ l.2)
      × (s.grant ≡ l.3)
      × (s.actor ≡ command_actor p role c)
unfolding assemble_state
assemble_state_ok p role l c s h = ground arith

pub load_command_state-IsLoaded :
    (p : Principal) (id : Text) (mode : Option Text) (role : AssignmentRole) (now : ℕ)
    (w w' : World) (s : LoadedCommandState)
    → load_command_state p id mode role now w ≡ (ok s, w')
    → (w' ≡ w) × IsLoaded p id mode role now w s
unfolding load_command_state
load_command_state-IsLoaded p id mode role now w w' s h =
    let (l, read, rest) =
      query-bind_ok
        (λ l.
          resolve_actor_context p l.1.id role mode now >>= λ c. lift (assemble_state p role l c))
        w (load_records p id) h in
    let (c, v, resolved, assembled) =
      bind-eq_ok (resolve_actor_context p l.1.id role mode now)
        (λ c. lift (assemble_state p role l c)) w rest in
    let (same, rests) = resolve_actor_context_ok p l.1.id role mode now w v c resolved in
    let (stored, current, granted) = load_records_ok p id w.db l read in
    let parts = assemble_state_ok p role l c s (ground arith) in
    (
      ground arith,
      record {
        stored = ground (arith, parts);
        current = ground (arith, parts);
        granted = ground (arith, parts);
        acting_user = ground (arith, parts);
        acting_role = ground (arith, parts);
        effective = ground (arith, parts);
        context = c;
        session = ground (arith, parts);
        rests_on =
            subst (λ (r : Recording). ActsUnder w.db p r.id role mode now c) (sym parts.0) rests;
      },
    )

pub load_command_state-Ensures :
    (p : Principal) (id : Text) (mode : Option Text) (role : AssignmentRole) (now : ℕ) (w : World)
    → Ensures
        (load_command_state p id mode role now)
        w
        (λ s w'. (w' ≡ w) × IsLoaded p id mode role now w s)
load_command_state-Ensures p id mode role now w = record {
  at = λ s w' h. load_command_state-IsLoaded p id mode role now w w' s h;
}
