-- ===== src/Casefile/Commands/Rows.antt =====
-- The rows that the commands write (src/server/casefile/commands.ts).
pub mod Laws
pub mod Versions
pub mod Written
use Prim.Native.Nat.{max}
use superscriber.Prelude.{
  Text, ℕ, suc, Option, none, some, Bool, true, false, List, [], ◌∷◌, ◌++◌, ◌===◌, text_equal,
  units, trim, non_empty, if◌then◌else◌, update_row, update_where, count_if, ◌==◌, ◌&&◌, is,
}
use superscriber.Domain.Models.{
  ApprovalState, AssignmentRole, ActorRole, Recording, TranscriptRevision, TranscriptRevisionState,
  TranscriptSegment,
}
use superscriber.Domain.Errors.{Result, ok, err, ErrorCode}
use superscriber.Domain.Speakers.{normalize_speaker_labels}
use superscriber.Casefile.Capabilities.{role_of}
use superscriber.Casefile.Edits.{assert_complete_segments}
use superscriber.Casefile.Store.{Db, World, ActorContext, recording_keyed, revision_keyed}
use superscriber.Casefile.Store.Exec.{
  Exec, ◌>>=◌, ◌>>◌, pure, query, gets, lift, modify, random_uuid,
}
use superscriber.Casefile.Store.Audit.{append_revision, append_approval}
use superscriber.Casefile.Commands.State.{CommandActor, require_recording, conflict_error}

abbrev pub context_of : CommandActor → ActorContext
context_of a = record {
  actor_role = ActorRole.user a.actor_role;
  actor_user_id = some a.actor_user_id;
  actor_display_name = some a.actor_display_name;
  effective_role = ActorRole.user (role_of a.effective_role);
  admin_action_session_id = a.admin_action_session_id;
}

-- `order by version desc`: the largest version of a recording's revisions, or 0.
unfoldable pub last_version : Text → List TranscriptRevision → ℕ
last_version recording_id [] = 0
last_version recording_id (r ∷ rest) =
    let v = last_version recording_id rest in
    if r.recording_id === recording_id then max r.version v else v

unfoldable pub next_revision_version : Db → Text → ℕ
unfolding last_version
next_revision_version db recording_id = suc (last_version recording_id db.revisions)

unfoldable pub normalize_summary : Text → Text
normalize_summary summary =
    let s = trim summary in if non_empty s then s else units "Updated transcript draft."

unfoldable pub create_revision_id : Exec Text
unfolding random_uuid
create_revision_id = do id ← random_uuid; pure (units "rev-" ++ id)

unfoldable pub insert_decision_row :
    Text → Text → ApprovalState → CommandActor → ℕ → Option Text → Exec (Unit {0})
unfolding random_uuid append_approval
insert_decision_row recording_id revision_id state actor created_at note = do
  id ← random_uuid
  append_approval (record {
    id = id;
    recording_id = recording_id;
    revision_id = revision_id;
    state = state;
    actor_role = actor.actor_role;
    actor_user_id = some actor.user_id;
    actor_display_name = some actor.actor_display_name;
    effective_role = some (role_of actor.effective_role);
    admin_action_session_id = actor.admin_action_session_id;
    created_at = created_at;
    note = note;
  })

-- A draft made by an actor out of an earlier revision.
abbrev pub draft_revision :
    Text → Text → ℕ → Text → CommandActor → ℕ → Text → List TranscriptSegment → TranscriptRevision
draft_revision id recording_id version based_on actor now summary segments = record {
  id = id;
  recording_id = recording_id;
  version = version;
  state = TranscriptRevisionState.draft;
  based_on_revision_id = some based_on;
  created_by_role = ActorRole.user (role_of actor.effective_role);
  created_by_user_id = some actor.user_id;
  created_at = now;
  submitted_by_user_id = none;
  submitted_at = none;
  approved_at = none;
  summary = summary;
  segments = segments;
}

unfoldable pub clone_transition_draft :
    TranscriptRevision → CommandActor → ℕ → Exec TranscriptRevision
unfolding create_revision_id
clone_transition_draft prior actor now = do
  id ← create_revision_id
  version ← gets (λ db. next_revision_version db prior.recording_id)
  pure
      (draft_revision id prior.recording_id version prior.id actor now prior.summary prior.segments)

-- `db.update(revisions).set(…).where(eq(revisions.id, …))`.
abbrev pub update_revision : Text → (TranscriptRevision → TranscriptRevision) → Db → Db
update_revision id f db = record db { revisions = update_row id f db.revisions }

abbrev pub update_recording : Text → (Recording → Recording) → Db → Db
update_recording id f db = record db { recordings = update_row id f db.recordings }

abbrev pub with_state : TranscriptRevisionState → TranscriptRevision → TranscriptRevision
with_state s r = record r { state = s }

-- The pointers of a recording, and the time of the change.
abbrev pub with_pointers : Option Text → Option Text → Option Text → ℕ → Recording → Recording
with_pointers current pending approved now r = record r {
  current_revision_id = current;
  pending_revision_id = pending;
  approved_revision_id = approved;
  updated_at = now;
}

-- The segments of a saved draft: labels are normalised unless they are to be kept.
abbrev pub saved_segments : Bool → List TranscriptSegment → Result (List TranscriptSegment)
saved_segments true segments = ok segments
saved_segments false segments = normalize_speaker_labels segments

unfoldable pub save_draft_in_transaction :
    CommandActor
    → Recording
    → TranscriptRevision
    → List TranscriptSegment
    → Text
    → ℕ
    → Bool
    → Exec TranscriptRevision
unfolding create_revision_id append_revision
save_draft_in_transaction actor recording prior segments summary now preserve_speaker_labels = do
  lift (assert_complete_segments prior.segments segments)
  id ← create_revision_id
  version ← gets (λ db. next_revision_version db recording.id)
  labelled ← lift (saved_segments preserve_speaker_labels segments)
  let next =
      draft_revision id recording.id version prior.id actor now (normalize_summary summary) labelled
  modify (update_revision prior.id (with_state TranscriptRevisionState.superseded))
  append_revision next
  modify (
      update_recording recording.id
        (λ r. with_pointers (some next.id) none r.approved_revision_id now r))
  pure next

-- The guarded update of a decision. It changes the recording only while its pointers are those that
-- the caller saw; when it changes no row, the conflict is reported on the recording as it is now.
unfoldable pub changed_or_conflict : Text → Text → ℕ → Db → Result (Unit {0})
unfolding require_recording conflict_error
changed_or_conflict id expected changes db =
    if changes == 0
    then elim (require_recording db id) [
      | ok r ↦ conflict_error ErrorCode.state_changed db r expected
      | err e ↦ err e
    ]
    else ok tt

unfoldable pub update_guarded :
    Text → Text → (Recording → Bool) → (Recording → Recording) → Exec (Unit {0})
unfolding changed_or_conflict
update_guarded id expected still f = do
  changes ← gets (λ db. count_if (λ r. r.id === id && still r) db.recordings)
  modify
      (λ db. record db { recordings = update_where (λ r. r.id === id && still r) f db.recordings })
  query (changed_or_conflict id expected changes)

abbrev pub is_still_pending : Text → Recording → Bool
is_still_pending id r = is r.current_revision_id id && is r.pending_revision_id id

abbrev pub is_still_approved : Text → Recording → Bool
is_still_approved id r = is r.current_revision_id id && is r.approved_revision_id id
