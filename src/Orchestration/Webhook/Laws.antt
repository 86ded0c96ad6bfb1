-- ===== src/Orchestration/Webhook/Laws.antt =====
-- What a callback leaves in the audit trail, and in the transcript.
use superscriber.Prelude.{
  Text, Option, some, none, ℕ, List, [], ◌∷◌, ◌++◌, false, not, ◌&&◌, ◌===◌, ◌≡◌, ◌≢◌, ◌⊎◌, inl,
  inr, refl, arith, ◌∙◌, sym, ap, truthy, Bool-cases, Option-cases, subst, if◌then◌else◌,
}
use superscriber.Domain.Models.{
  TranscriptJobState, IntegrityState, integrity_state_equal, AuditEventType, TranscriptRevision,
  TranscriptSegment, job_state_equal,
}
use superscriber.Domain.Errors.{ok, chain_ok}
use superscriber.Workflow.State.{
  AppState, LoggedEvent, set_recording, set_job, add_audit_event, value_or, or_else,
}
use superscriber.Workflow.Create.{create_system_draft_revision}
use superscriber.Orchestration.Normalize.Laws.{normalize_state-events}
use superscriber.Orchestration.Normalize.{normalize_state, resolve_recording_refs, RecordingRefs}
use superscriber.Orchestration.Sync.{transcription_event, verification_event}
use superscriber.Orchestration.Queue.Ownership.{create_system_draft_revision_ok}
use superscriber.Orchestration.Webhook.{
  WebhookPayload, JobUpdate, SessionUpdate, changed_integrity, TranscriptUpdate, update_session,
  update_job, add_segments, add_transcript, job_summary, apply_orchestration_webhook_update,
  external_draft_words, updated_job, log_job_state, changed_job_state, job_updated_words,
}

-- One draft of a finished job of a recording without one, or nothing.
abbrev pub AddsDraft : RecordingRefs → AppState → AppState → Type 0
AddsDraft refs s t =
    (t.audit_events ≡ s.audit_events)
    × ((t.revisions ≡ s.revisions)
        ⊎ ((r : TranscriptRevision) × (t.revisions ≡ s.revisions ++ r ∷ [])
            × (refs.job.state ≡ TranscriptJobState.completed)
            × (truthy refs.recording.current_revision_id ≡ false)))

AddsDraft-refl : (refs : RecordingRefs) (s t : AppState) → ok s ≡ ok t → AddsDraft refs s t
AddsDraft-refl refs s t same = (ground (arith, same), inl (ground (arith, same)))

add_segments_ok :
    (refs : RecordingRefs) (o : Option (List TranscriptSegment)) (summary : Text) (now : ℕ)
    (s t : AppState)
    → add_segments refs o summary now s ≡ ok t
    → AddsDraft refs s t
unfolding add_segments
add_segments_ok refs none summary now s t e = AddsDraft-refl refs s t e
add_segments_ok refs (some given) summary now s t e =
    elim (Bool-cases (
      (refs.job.state === TranscriptJobState.completed)
      && not (truthy refs.recording.current_revision_id))) [
        | inr c ↦ AddsDraft-refl refs s t (rw (c, if◌then◌else◌) at e)
        | inl c ↦
            let k = rw (c, if◌then◌else◌) at e in
            let (made, drafted, done) =
              chain_ok (create_system_draft_revision refs.recording.id given summary now s) k in
            let (kept, added, version, labels) =
              create_system_draft_revision_ok refs.recording.id given summary now s made.1 made.0
                drafted in
            (
              ground (arith, done, kept.events),
              inr (made.0, ground (arith, done, added), ground (arith, c), ground (arith, c)),
            )
      ]

pub add_transcript_ok :
    (refs : RecordingRefs) (u : Option TranscriptUpdate) (summary : Option Text) (now : ℕ)
    (s t : AppState)
    → add_transcript refs u summary now s ≡ ok t
    → AddsDraft refs s t
unfolding add_transcript
add_transcript_ok refs none summary now s t e = AddsDraft-refl refs s t e
add_transcript_ok refs (some u) summary now s t e =
    add_segments_ok refs u.segments (value_or (or_else u.summary summary) external_draft_words) now
      s t e

-- How a state of a job is told in the trail: a running job as started, one with a partial result as
-- partial, and any other as completed.
abbrev pub IsToldAs : TranscriptJobState → AuditEventType → Type 0
IsToldAs next type =
    (next ≡ TranscriptJobState.running → type ≡ AuditEventType.transcription_started)
    × (next ≡ TranscriptJobState.partial_result → type ≡ AuditEventType.transcription_partial)
    × (next ≢ TranscriptJobState.running
        → next ≢ TranscriptJobState.partial_result
        → type ≡ AuditEventType.transcription_completed)

-- Nothing, or one event about the verification of the recording, in front of a trail.
abbrev pub AddsVerification : Text → List LoggedEvent → List LoggedEvent → Type 0
AddsVerification recording_id before after =
    (after ≡ before)
    ⊎ ((f : LoggedEvent) × (after ≡ f ∷ before)
        × (f.recording_id ≡ some recording_id)
        × ((f.type ≡ AuditEventType.recording_verified)
            ⊎ (f.type ≡ AuditEventType.recording_verification_failed)))

-- One event about the job in front of the trail, and at most one about the verification before it.
abbrev pub Logged : AppState → AppState → Text → TranscriptJobState → Type 0
Logged s t recording_id next =
    (e : LoggedEvent) × (rest : List LoggedEvent) × (t.audit_events ≡ e ∷ rest)
    × (e.recording_id ≡ some recording_id)
    × IsToldAs next e.type
    × AddsVerification recording_id s.audit_events rest

transcription_event-IsToldAs :
    (next : TranscriptJobState) → IsToldAs next (transcription_event next)
transcription_event-IsToldAs next = (
  λ e. ground (arith, e),
  λ e. ground (arith, e),
  λ started partial. ground (arith, started, partial),
)

verification_kind :
    (next : IntegrityState)
    → (verification_event next ≡ AuditEventType.recording_verified)
      ⊎ (verification_event next ≡ AuditEventType.recording_verification_failed)
verification_kind next = elim (Bool-cases (next === IntegrityState.verified)) [
  | inl e ↦ inl (ground (arith, e))
  | inr e ↦ inr (ground (arith, e))
]

update_session-AddsVerification :
    (refs : RecordingRefs) (o : Option SessionUpdate) (now : ℕ) (s : AppState)
    → AddsVerification refs.recording.id s.audit_events (update_session refs o now s).audit_events
unfolding update_session add_audit_event
update_session-AddsVerification refs none now s = inl refl
update_session-AddsVerification refs (some u) now s =
    elim (Option-cases (changed_integrity u.state refs.session.state)) [
      | inl same ↦ inl (rw same refl)
      | inr (next, new) ↦ inr (rw new (_, refl, refl, verification_kind next))
    ]

-- The state that the event is added to.
abbrev moved : RecordingRefs → JobUpdate → ℕ → AppState → AppState
moved refs u now s =
    set_recording refs.recording.id
      (λ r. record r {
        transcript_job_state = value_or u.state r.transcript_job_state;
        updated_at = now;
      })
      (set_job refs.job.id (updated_job u now) s)

-- A job with a new state.
abbrev FrontEvent : AppState → List LoggedEvent → Text → TranscriptJobState → Type 0
FrontEvent t rest recording_id next =
    (e : LoggedEvent) × (t.audit_events ≡ e ∷ rest)
    × (e.recording_id ≡ some recording_id)
    × IsToldAs next e.type

update_job-FrontEvent :
    (refs : RecordingRefs) (u : JobUpdate) (now : ℕ) (s : AppState) (next : TranscriptJobState)
    → u.state ≡ some next
    → next ≢ refs.job.state
    → FrontEvent (update_job refs (some u) now s) s.audit_events refs.recording.id next
unfolding update_job add_audit_event
update_job-FrontEvent refs u now s next is_next new =
    let differs : (refs.job.state === next) ≡ false = ground (arith, new) in
    subst
      (λ (o : Option TranscriptJobState).
        FrontEvent
          (log_job_state refs.recording o (value_or u.summary job_updated_words) now
            (moved refs u now s))
          s.audit_events refs.recording.id next)
      {x = some next} {y = changed_job_state u.state refs.job.state}
      (sym (
        ap (λ (o : Option TranscriptJobState). changed_job_state o refs.job.state) is_next
        ∙ rw (differs, if◌then◌else◌) refl))
      (_, refl, refl, transcription_event-IsToldAs next)

-- A callback that goes through and gives the job of the recording a new state adds one event about the job
-- in front of the trail, before that at most one about the verification, and no other. The job is told to
-- have started if it runs, to be partial if its result is, and in every other state to be completed.
pub apply_orchestration_webhook_update-Logged :
    (payload : WebhookPayload) (now : ℕ) (s t : AppState) (refs : RecordingRefs) (u : JobUpdate)
    (next : TranscriptJobState)
    → apply_orchestration_webhook_update payload now s ≡ ok t
    → resolve_recording_refs (normalize_state s) payload.recording_id ≡ ok refs
    → payload.transcript_job ≡ some u
    → u.state ≡ some next
    → next ≢ refs.job.state
    → Logged s t refs.recording.id next
unfolding apply_orchestration_webhook_update
apply_orchestration_webhook_update-Logged payload now s t refs u next done at is_u is_next new =
    let (r, resolved, rest) =
      chain_ok (resolve_recording_refs (normalize_state s) payload.recording_id) done in
    let same : r ≡ refs = ground (arith, resolved, at) in
    let v =
      update_job r payload.transcript_job now
        (update_session r payload.ingestion_session now (normalize_state s)) in
    let (after, again, last) = chain_ok (resolve_recording_refs v payload.recording_id) rest in
    let (events, _) =
      add_transcript_ok after payload.transcript (job_summary payload.transcript_job) now v t
        last in
    let w = update_session refs payload.ingestion_session now (normalize_state s) in
    let (e, front, about, told) = update_job-FrontEvent refs u now w next is_next new in
    (
      e,
      w.audit_events,
      ground (arith, events, front, same, is_u),
      about,
      told,
      subst
          (λ (before : List LoggedEvent). AddsVerification refs.recording.id before w.audit_events)
          (normalize_state-events s)
          (update_session-AddsVerification refs payload.ingestion_session now (normalize_state s)),
    )
