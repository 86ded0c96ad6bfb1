-- ===== src/Orchestration/Dispatch/Laws.antt =====
-- What a failed dispatch leaves: the warning, and the events of its failure.
use superscriber.Prelude.{
  Text, ℕ, none, some, true, [], ◌∷◌, ◌++◌, ◌≡◌, refl, ap, arith, length, drop, starts_with, truthy,
  row, row-key, update_first, text_equal, if◌then◌else◌,
}
use superscriber.Domain.Models.{AuditEventType, Recording}
use superscriber.Domain.Errors.{
  ok, chain_ok, or_throw, or_throw_ok, recording_not_found, orchestration_incomplete,
}
use superscriber.Casefile.Store.Audit.{system_actor_context}
use superscriber.Casefile.Store.{recording_keyed}
use superscriber.Workflow.State.{
  create_id, AppState, IngestionSession, LoggedEvent, session_keyed, job_keyed, row_of,
  add_audit_event,
}
use superscriber.Workflow.Store.{Persisted}
use superscriber.Workflow.Store.Laws.{with_state-alone_ok}
use superscriber.Orchestration.Normalize.Laws.{normalize_state-events}
use superscriber.Orchestration.Normalize.{normalize_state, resolve_recording_refs, RecordingRefs}
use superscriber.Orchestration.Config.{OrchestrationMode}
use superscriber.Orchestration.Sync.{
  note_orchestration_dispatch_failure, persisted_dispatch_failure, dispatch_failure_prefix,
}
use superscriber.Orchestration.Dispatch.{
  note_change, Backend, thrown, note_recording_dispatch_failure, refusal_words, answered,
  note_and_throw, dispatch_in, dispatch_recording_to_configured_engine, send, stored_words,
  dispatch_warning_from_last_error,
}
use superscriber.Orchestration.Request.{refused_with, request_of, payload_for, DispatchPayload}

starts_with-append : (prefix text : Text) → starts_with (prefix ++ text) prefix ≡ true
unfolding starts_with
starts_with-append [] text = refl
starts_with-append (c ∷ prefix) text = ground (arith, starts_with-append prefix text)

drop-append : (prefix text : Text) → drop (length prefix) (prefix ++ text) ≡ text
drop-append [] text = refl
drop-append (c ∷ prefix) text = drop-append prefix text

shown :
    (prefix detail : Text)
    → (if starts_with (prefix ++ detail) prefix
        then some (stored_words (drop (length prefix) (prefix ++ detail)))
        else none)
      ≡ some (stored_words detail)
shown prefix detail =
    rw (starts_with-append prefix detail, if◌then◌else◌)
      (ap (λ (x : Text). some (stored_words x)) (drop-append prefix detail))

-- The failure that is stored with a session is the one that is shown.
pub dispatch_warning_from_last_error-persisted_dispatch_failure :
    (detail : Text)
    → dispatch_warning_from_last_error (some (persisted_dispatch_failure detail))
      ≡ some (stored_words detail)
unfolding dispatch_warning_from_last_error persisted_dispatch_failure
dispatch_warning_from_last_error-persisted_dispatch_failure detail =
    shown dispatch_failure_prefix detail

resolve_recording_refs_ok :
    (s : AppState) (id : Text) (refs : RecordingRefs)
    → resolve_recording_refs s id ≡ ok refs
    → (row id s.recordings ≡ some refs.recording)
      × (row_of refs.recording.ingestion_session_id s.ingestion_sessions ≡ some refs.session)
unfolding resolve_recording_refs
resolve_recording_refs_ok s id refs h =
    let (r, here, h1) = chain_ok (or_throw (row id s.recordings) recording_not_found) h in
    let (e, there, h2) =
      chain_ok
        (or_throw (row_of r.ingestion_session_id s.ingestion_sessions) orchestration_incomplete)
        h1 in
    let (j, job, same) =
      chain_ok (or_throw (row_of r.transcript_job_id s.transcript_jobs) orchestration_incomplete)
        h2 in
    (
      ground (arith, same, or_throw_ok (row id s.recordings) recording_not_found r here),
      ground (
        arith,
        same,
        or_throw_ok (row_of r.ingestion_session_id s.ingestion_sessions) orchestration_incomplete e
            there,
      ),
    )

-- A failure of a dispatch, noted in the trail.
pub record Noted (recording_id detail : Text) (e : LoggedEvent) : Type 0 where
  pub recording : e.recording_id ≡ some recording_id
  pub type : e.type ≡ AuditEventType.recording_verification_failed
  pub words : e.detail ≡ detail

abbrev pub noted_session : Text → ℕ → IngestionSession → IngestionSession
noted_session detail now e = record e {
  last_error = some (persisted_dispatch_failure detail);
  updated_at = now;
  verification_summary = some detail;
}

abbrev pub noted_recording : Text → ℕ → Recording → Recording
noted_recording detail now r = record r { verification_summary = some detail; updated_at = now }

-- What noting a failure makes of the state.
pub record IsNoted (recording_id detail : Text) (now : ℕ) (p q : Persisted) : Type 0 where
  pub refs : RecordingRefs
  pub recording_row : row recording_id (normalize_state p.app).recordings ≡ some refs.recording
  pub session_row :
      row_of refs.recording.ingestion_session_id (normalize_state p.app).ingestion_sessions
      ≡ some refs.session
  pub sessions :
      q.app.ingestion_sessions
      ≡ update_first refs.session.id
          (noted_session detail now)
          (normalize_state p.app).ingestion_sessions
  pub recordings :
      q.app.recordings
      ≡ update_first refs.recording.id
          (noted_recording detail now)
          (normalize_state p.app).recordings
  pub event : LoggedEvent
  pub noted : Noted recording_id detail event
  pub events : q.app.audit_events ≡ event ∷ p.app.audit_events

pub note_recording_dispatch_failure-IsNoted :
    (recording_id detail : Text) (now : ℕ) (p q : Persisted)
    → note_recording_dispatch_failure recording_id detail now p ≡ (ok tt, q)
    → IsNoted recording_id detail now p q
unfolding note_recording_dispatch_failure note_orchestration_dispatch_failure add_audit_event
note_recording_dispatch_failure-IsNoted recording_id detail now p q h =
    let u = normalize_state p.app in
    let (s, made, written) = with_state-alone_ok (note_change recording_id detail now) p h in
    let (t, noted, same) =
      chain_ok (note_orchestration_dispatch_failure recording_id detail now p.app) made in
    let (refs, resolved, last) = chain_ok (resolve_recording_refs u recording_id) noted in
    let (here, there) = resolve_recording_refs_ok u recording_id refs resolved in
    let is_s : t ≡ s = ground (arith, same) in
    record {
      refs = refs;
      recording_row = here;
      session_row = there;
      sessions = ground (arith, written, is_s, last);
      recordings = ground (arith, written, is_s, last);
      event = record {
        id = create_id "audit-" u;
        workspace_id = refs.recording.workspace_id;
        recording_id = some refs.recording.id;
        actor = system_actor_context;
        type = AuditEventType.recording_verification_failed;
        detail = detail;
        metadata = none;
        created_at = now;
      };
      noted = record {
        recording = ap some (row-key recording_id u.recordings refs.recording here);
        type = refl;
        words = refl;
      };
      events = ground (arith, written, is_s, last, normalize_state-events p.app);
    }

abbrev pub NotedTwice : Text → Text → Persisted → Persisted → Type 0
NotedTwice recording_id detail p q =
    (first : LoggedEvent) × (second : LoggedEvent) × Noted recording_id detail first
    × Noted recording_id detail second
    × (q.app.audit_events ≡ second ∷ first ∷ p.app.audit_events)

-- In the mode of an external engine with both addresses and complete rows, a dispatch that the engine
-- refuses fails with the words of the refusal and is noted twice, where each noting succeeds: the two
-- events in front are about the same failure.
pub dispatch_recording_to_configured_engine_refused :
    (b : Backend) (recording_id : Text) (now : ℕ) (p q r : Persisted) (payload : DispatchPayload)
    (status : ℕ) (body : Text)
    → b.config.mode ≡ OrchestrationMode.webhook
    → truthy b.config.external_dispatch_url ≡ true
    → truthy b.config.app_base_url ≡ true
    → payload_for p.app (row recording_id p.app.recordings) ≡ some payload
    → b.post (request_of b.config payload) ≡ refused_with status body
    → note_recording_dispatch_failure recording_id (refusal_words status body) now p ≡ (ok tt, q)
    → note_recording_dispatch_failure recording_id (refusal_words status body) now q ≡ (ok tt, r)
    → (dispatch_recording_to_configured_engine b recording_id now p
        ≡ (thrown (refusal_words status body), r))
      × NotedTwice recording_id (refusal_words status body) p r
unfolding dispatch_recording_to_configured_engine note_and_throw answered send dispatch_in
dispatch_recording_to_configured_engine_refused b recording_id now p q r payload status body mode
      url base complete refused first second =
    let one = note_recording_dispatch_failure-IsNoted recording_id _ now p q first in
    let two = note_recording_dispatch_failure-IsNoted recording_id _ now q r second in
    (
      ground (arith, mode, url, base, complete, refused, first, second),
      (one.event, two.event, one.noted, two.noted, ground (arith, one.events, two.events)),
    )
