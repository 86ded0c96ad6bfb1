-- ===== src/Casefile/Commands/Drafts/SaveGranted.antt =====
-- When saving a draft succeeds (`saveDraftCommand` of src/server/casefile/commands.ts).
use superscriber.Prelude.{
  Text, ℕ, some, false, ◌≡◌, refl, arith, List, [], ◌∷◌, ◌++◌, units, text_equal, has_key,
  has_key-update_row,
}
use superscriber.Domain.Models.{
  Principal, Recording, TranscriptRevision, TranscriptRevisionState, TranscriptSegment,
  AssignmentRole, AuditEventType,
}
use superscriber.Domain.Errors.{ok}
use superscriber.Domain.Speakers.{normalize_speaker_labels}
use superscriber.Casefile.Edits.{
  apply_segment_edits, assert_complete_segments, summarize_segment_edits,
}
use superscriber.Casefile.Edits.Laws.{apply_segment_edits_complete}
use superscriber.Casefile.Store.{World, saved, recording_keyed, revision_keyed, audit_keyed}
use superscriber.Casefile.Store.Exec.{◌>>=◌, pure, lift}
use superscriber.Casefile.Store.Audit.{drawn, insert_audit_event}
use superscriber.Casefile.Store.Succeeds.{
  Succeeds, Succeeds-bind, Succeeds-pure, transaction-Succeeds,
}
use superscriber.Casefile.Commands.State.{CommandActor, LoadedCommandState, require_expected_id}
use superscriber.Casefile.Commands.Load.{load_command_state}
use superscriber.Casefile.Commands.Rows.{
  context_of, draft_revision, next_revision_version, normalize_summary, save_draft_in_transaction,
  update_recording, update_revision, with_state,
}
use superscriber.Casefile.Commands.Rows.Versions.{next_revision_version_lem, any-update_row}
use superscriber.Casefile.Commands.Rows.Written.{append_revision-new, insert_audit_event-Succeeds}
use superscriber.Casefile.Commands.Drafts.{
  SaveDraftInput, check_save, save_draft_body, save_draft_command,
}
use superscriber.Casefile.Commands.Drafts.Saved.{saved_pointers}

abbrev saved_draft :
    CommandActor
    → Recording
    → TranscriptRevision
    → List TranscriptSegment
    → Text
    → ℕ
    → World
    → TranscriptRevision
saved_draft a r prior segments summary now w =
    draft_revision (units "rev-" ++ w.uuids 0) r.id (next_revision_version w.db r.id) prior.id a now
      (normalize_summary summary) segments

-- The save of segments that are complete and whose labels are accepted.
save_draft_in_transaction-granted :
    (a : CommandActor) (r : Recording) (prior : TranscriptRevision)
    (segments labelled : List TranscriptSegment) (summary : Text) (now : ℕ) (w : World)
    → assert_complete_segments prior.segments segments ≡ ok tt
    → normalize_speaker_labels segments ≡ ok labelled
    → has_key (units "rev-" ++ w.uuids 0) w.revisions ≡ false
    → (v : World) × (save_draft_in_transaction a r prior segments summary now false w
        ≡ (ok (saved_draft a r prior labelled summary now w), v))
      × (v.state_version ≡ w.state_version)
      × (v.audit_events ≡ w.audit_events)
      × (v.uuids ≡ drawn w)
unfolding save_draft_in_transaction
save_draft_in_transaction-granted a r prior segments labelled summary now w complete named fresh =
    let d = saved_draft a r prior labelled summary now w in
    let marked = update_revision prior.id (with_state TranscriptRevisionState.superseded) w.db in
    let w1 = record w { db = marked; uuids = drawn w } in
    let appended =
      append_revision-new d w1
        (ground (
          arith,
          fresh,
          has_key-update_row prior.id d.id (with_state TranscriptRevisionState.superseded)
              w.revisions (λ r. refl),
        ))
        (ground (
          arith,
          next_revision_version_lem w.db r.id,
          any-update_row prior.id r.id d.version TranscriptRevisionState.superseded w.revisions,
        )) in
    let w2 = record w1 { db = record w1.db { revisions = w1.revisions ++ d ∷ [] } } in
    (
      record w2 { db = update_recording r.id (saved_pointers d.id now) w2.db },
      ground (arith, complete, named, appended),
      refl,
      refl,
      refl,
    )

save_draft_body-Succeeds :
    (p : Principal) (input : SaveDraftInput) (now : ℕ) (w : World) (s : LoadedCommandState)
    (prior : TranscriptRevision) (merged labelled : List TranscriptSegment)
    → load_command_state p input.recording_id input.action_mode_id AssignmentRole.reviewer now w
      ≡ (ok s, w)
    → check_save s p input.expected_current_revision_id w ≡ (ok prior, w)
    → apply_segment_edits prior.segments input.edits ≡ ok merged
    → normalize_speaker_labels merged ≡ ok labelled
    → has_key (units "rev-" ++ w.uuids 0) w.revisions ≡ false
    → has_key (w.uuids 1) w.audit_events ≡ false
    → Succeeds (save_draft_body p input now) w
unfolding save_draft_body
save_draft_body-Succeeds p input now w s prior merged labelled loaded checked folded named fresh
      event =
    let complete = (apply_segment_edits_complete prior.segments input.edits merged folded).0 in
    let (v, ran, version, events, first) =
      save_draft_in_transaction-granted s.actor s.recording prior merged labelled input.summary now
        w complete named fresh in
    let d = saved_draft s.actor s.recording prior labelled input.summary now w in
    let e =
      insert_audit_event-Succeeds s.workspace.id (some s.recording.id) (some (context_of s.actor))
        AuditEventType.revision_saved
        (saved prior.id d.id d.version (summarize_segment_edits input.edits)) now v
        (ground (arith, events, first, event)) in
    let m = λ (t : TranscriptRevision).
      insert_audit_event s.workspace.id (some s.recording.id) (some (context_of s.actor))
        AuditEventType.revision_saved
        (saved prior.id t.id t.version (summarize_segment_edits input.edits)) now in
    Succeeds-bind
      (load_command_state p input.recording_id input.action_mode_id AssignmentRole.reviewer now) _ s
      w loaded refl
      (Succeeds-bind (check_save s p input.expected_current_revision_id) _ prior w checked refl (
        Succeeds-bind (lift (apply_segment_edits prior.segments input.edits))
          (λ (x : List TranscriptSegment).
            save_draft_in_transaction s.actor s.recording prior x input.summary now false >>= λ t.
            m t >>= λ event. pure t)
          merged w (ground (arith, folded)) refl
          (Succeeds-bind
            (save_draft_in_transaction s.actor s.recording prior merged input.summary now false)
            (λ t. m t >>= λ event. pure t) d v ran version
            (Succeeds-bind (m d) (λ event. pure d) e.value e.after e.ran e.kept
              (Succeeds-pure d)))))

-- A save succeeds for a caller whose state loads and whose checks pass, if its edits are accepted,
-- the labels that they give are, the two ids that are drawn are not taken and the row of the state
-- version is there. The check that the segments are complete never stands in the way.
pub save_draft_command-Succeeds :
    (p : Principal) (input : SaveDraftInput) (now n : ℕ) (w : World) (s : LoadedCommandState)
    (prior : TranscriptRevision) (merged labelled : List TranscriptSegment)
    → require_expected_id input.expected_current_revision_id (units "expectedCurrentRevisionId")
      ≡ ok tt
    → load_command_state p input.recording_id input.action_mode_id AssignmentRole.reviewer now w
      ≡ (ok s, w)
    → check_save s p input.expected_current_revision_id w ≡ (ok prior, w)
    → apply_segment_edits prior.segments input.edits ≡ ok merged
    → normalize_speaker_labels merged ≡ ok labelled
    → has_key (units "rev-" ++ w.uuids 0) w.revisions ≡ false
    → has_key (w.uuids 1) w.audit_events ≡ false
    → w.state_version ≡ some n
    → (d : TranscriptRevision) × (w' : World) × (save_draft_command p input now w ≡ (ok d, w'))
unfolding save_draft_command
save_draft_command-Succeeds p input now n w s prior merged labelled named loaded checked folded
      labels fresh event there =
    let (d, w', ran) =
      transaction-Succeeds (save_draft_body p input) now n w
        (save_draft_body-Succeeds p input now w s prior merged labelled loaded checked folded labels
          fresh event)
        there in
    (d, w', ground (arith, named, ran))
