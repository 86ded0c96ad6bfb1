-- ===== src/Orchestration/Sync/Laws.antt =====
-- A round of the engines adds drafts to the revisions, and changes none.
use superscriber.Prelude.{
  Text, Option, some, none, ℕ, List, [], ◌∷◌, ◌++◌, ◌≡◌, refl, arith, ◌∙◌, sym, ap, Bool-cases, inl,
  inr, if◌then◌else◌, All, row, ◌===◌, map,
}
use mathlib.Core.List.{append_assoc, append-nil}
use superscriber.Domain.Models.{
  TranscriptJobState, TranscriptRevision, TranscriptRevisionState, TranscriptSegment, Recording,
  job_state_equal,
}
use superscriber.Domain.Errors.{Result, ok, err, chain_ok, or_throw, recording_not_found}
use superscriber.Domain.Speakers.{normalize_speaker_labels}
use superscriber.Casefile.Store.{recording_keyed}
use superscriber.Workflow.State.{AppState, IngestionSession, TranscriptJob, add_audit_event}
use superscriber.Workflow.Create.{create_system_draft_revision}
use superscriber.Orchestration.Normalize.{normalize_state, resolve_recording_refs, RecordingRefs}
use superscriber.Orchestration.Engines.{Engine, VerificationStep, TranscriptStep}
use superscriber.Orchestration.Queue.Ownership.{create_system_draft_revision_ok}
use superscriber.Orchestration.Sync.{
  apply_verification, complete_draft_if_needed, has_revision, write_transcript_step,
  apply_transcript_step, if_complete, transcribe, synchronize_one, synchronize_all,
  synchronize_orchestration, engine_for,
}

-- The revisions of one state, and drafts after them.
abbrev pub AddsDrafts : AppState → AppState → Type 0
AddsDrafts s t =
    (added : List TranscriptRevision) × (t.revisions ≡ s.revisions ++ added)
    × All (λ r. r.state ≡ TranscriptRevisionState.draft) added

AddsDrafts-none : (s t : AppState) → t.revisions ≡ s.revisions → AddsDrafts s t
AddsDrafts-none s t same = ([], same ∙ sym (append-nil s.revisions), tt)

All-append :
    (xs ys : List TranscriptRevision)
    → All (λ r. r.state ≡ TranscriptRevisionState.draft) xs
    → All (λ r. r.state ≡ TranscriptRevisionState.draft) ys
    → All (λ r. r.state ≡ TranscriptRevisionState.draft) (xs ++ ys)
All-append [] ys a b = b
All-append (x ∷ xs) ys a b = (a.0, All-append xs ys a.1 b)

AddsDrafts-trans : (s t u : AppState) → AddsDrafts s t → AddsDrafts t u → AddsDrafts s u
AddsDrafts-trans s t u (xs, p, a) (ys, q, b) = (
  xs ++ ys,
  q ∙ ap (λ (l : List TranscriptRevision). l ++ ys) p ∙ append_assoc s.revisions xs ys,
  All-append xs ys a b,
)

draft_is_draft :
    (recording_id : Text) (segments : List TranscriptSegment) (summary : Text) (now : ℕ)
    (s t : AppState) (r : TranscriptRevision)
    → create_system_draft_revision recording_id segments summary now s ≡ ok (r, t)
    → r.state ≡ TranscriptRevisionState.draft
unfolding create_system_draft_revision
draft_is_draft recording_id segments summary now s t r e =
    let (x, there, rest) =
      chain_ok (or_throw (row recording_id s.recordings) recording_not_found) e in
    let (labelled, fine, same) = chain_ok (normalize_speaker_labels segments) rest in
    ground (arith, same)

verification-AddsDrafts :
    (engine : Engine) (r : Recording) (session : IngestionSession) (now : ℕ)
    (o : Option VerificationStep) (s : AppState)
    → AddsDrafts s (apply_verification engine r session now o s)
unfolding apply_verification add_audit_event
verification-AddsDrafts engine r session now none s = AddsDrafts-none s s refl
verification-AddsDrafts engine r session now (some step) s =
    AddsDrafts-none s (apply_verification engine r session now (some step) s) (ground arith)

complete-AddsDrafts :
    (recording_id job_id summary : Text) (o : Option (List TranscriptSegment)) (now : ℕ)
    (s t : AppState)
    → complete_draft_if_needed recording_id job_id summary o now s ≡ ok t
    → AddsDrafts s t
unfolding complete_draft_if_needed
complete-AddsDrafts recording_id job_id summary none now s t e =
    AddsDrafts-none s t (ground (arith, e))
complete-AddsDrafts recording_id job_id summary (some segments) now s t e =
    elim (Bool-cases (has_revision (row recording_id s.recordings))) [
      | inl c ↦ AddsDrafts-none s t (ground (arith, c, e))
      | inr c ↦
          let k = rw (c, if◌then◌else◌) at e in
          let (made, drafted, done) =
            chain_ok (create_system_draft_revision recording_id segments summary now s) k in
          let (kept, added, version, labels) =
            create_system_draft_revision_ok recording_id segments summary now s made.1 made.0
              drafted in
          (
            made.0 ∷ [],
            ground (arith, done, added),
            (draft_is_draft recording_id segments summary now s made.1 made.0 drafted, tt),
          )
    ]

written_revisions :
    (engine_id : Text) (r : Recording) (job : TranscriptJob) (step : TranscriptStep) (now : ℕ)
    (s : AppState)
    → (write_transcript_step engine_id r job step now s).revisions ≡ s.revisions
unfolding write_transcript_step add_audit_event
written_revisions engine_id r job step now s = ground arith

step-AddsDrafts :
    (engine_id : Text) (r : Recording) (job : TranscriptJob) (o : Option TranscriptStep) (now : ℕ)
    (s t : AppState)
    → apply_transcript_step engine_id r job o now s ≡ ok t
    → AddsDrafts s t
unfolding apply_transcript_step
step-AddsDrafts engine_id r job none now s t e = AddsDrafts-none s t (ground (arith, e))
step-AddsDrafts engine_id r job (some step) now s t e =
    let u = write_transcript_step engine_id r job step now s in
    let same = written_revisions engine_id r job step now s in
    elim (Bool-cases (step.next_state === TranscriptJobState.completed)) [
      | inl c ↦ AddsDrafts-trans s u t (AddsDrafts-none s u same) (
          complete-AddsDrafts r.id job.id step.summary step.output_segments now u t
            (rw (c, if◌then◌else◌) at e))
      | inr c ↦
          let stays : ok u ≡ ok t = rw (c, if◌then◌else◌) at e in
          AddsDrafts-none s t (ground (arith, stays, same))
    ]

if_complete-AddsDrafts :
    (o : Result RecordingRefs) (go : RecordingRefs → Result AppState) (s t : AppState)
    → ((refs : RecordingRefs) → go refs ≡ ok t → AddsDrafts s t)
    → if_complete o go s ≡ ok t
    → AddsDrafts s t
if_complete-AddsDrafts (err missing) go s t adds e = AddsDrafts-none s t (ground (arith, e))
if_complete-AddsDrafts (ok refs) go s t adds e = adds refs e

transcribe-AddsDrafts :
    (engine : Engine) (id : Text) (now : ℕ) (s t : AppState)
    → transcribe engine id now s ≡ ok t
    → AddsDrafts s t
unfolding transcribe
transcribe-AddsDrafts engine id now s t e =
    if_complete-AddsDrafts (resolve_recording_refs s id) _ s t
      (λ refs k.
        step-AddsDrafts engine.id refs.recording refs.job
          (engine.step_transcript_job refs.recording refs.session refs.job now) now s t k)
      e

one-AddsDrafts :
    (given : Option Engine) (now : ℕ) (id : Text) (s t : AppState)
    → synchronize_one given now id s ≡ ok t
    → AddsDrafts s t
unfolding synchronize_one
one-AddsDrafts given now id s t e =
    if_complete-AddsDrafts (resolve_recording_refs s id) _ s t
      (λ refs k.
        let engine = engine_for given refs.job refs.session in
        let o = engine.step_verification refs.recording refs.session now in
        let u = apply_verification engine refs.recording refs.session now o s in
        AddsDrafts-trans s u t (verification-AddsDrafts engine refs.recording refs.session now o s)
          (transcribe-AddsDrafts engine id now u t k))
      e

all-AddsDrafts :
    (given : Option Engine) (now : ℕ) (ids : List Text) (s t : AppState)
    → synchronize_all given now ids s ≡ ok t
    → AddsDrafts s t
unfolding synchronize_all
all-AddsDrafts given now [] s t e = AddsDrafts-none s t (ground (arith, e))
all-AddsDrafts given now (id ∷ ids) s t e =
    let (u, first, rest) = chain_ok (synchronize_one given now id s) e in
    AddsDrafts-trans s u t (one-AddsDrafts given now id s u first)
      (all-AddsDrafts given now ids u t rest)

-- A round of the engines keeps every revision as it is, and adds nothing but drafts.
pub synchronize_orchestration-AddsDrafts :
    (given : Option Engine) (now : ℕ) (s t : AppState)
    → synchronize_orchestration given now s ≡ ok t
    → AddsDrafts s t
unfolding synchronize_orchestration normalize_state
synchronize_orchestration-AddsDrafts given now s t e =
    all-AddsDrafts given now (map (λ r. r.id) (normalize_state s).recordings) (normalize_state s) t
      e
