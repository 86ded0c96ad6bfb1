-- ===== src/Workflow/Store.antt =====
-- How the state is read and written (src/server/store.ts). A write replaces every table, if no other
-- write came in between; `withState` tries three times. A read is of one state: `loadState` reads again
-- while the version moves. The rows keep the order in which they were written.
pub mod Laws
use superscriber.Prelude.{
  distinct_keys, Text, Option, some, none, ℕ, zero, suc, List, [], ◌∷◌, Bool, true, false, not,
  ◌&&◌, ◌==◌, ◌===◌, text_equal, any, if◌then◌else◌, Keyed, has_key,
}
use mathlib.Core.Option
use superscriber.Domain.Errors.{Failure, Result, ok, err, state_conflict, unique_constraint}
use superscriber.Casefile.Store.{recording_keyed, revision_keyed, approval_keyed, workspace_keyed}
use superscriber.Workflow.State.{
  AppState, LoggedEvent, session_keyed, job_keyed, event_keyed, value_or,
}

pub record Persisted : Type 0 where
  pub app : AppState
  -- The one row of `app_state_meta`.
  pub state_version : Option ℕ

abbrev pub current_state_version : Persisted → ℕ
current_state_version p = value_or p.state_version 0

-- No two rows are the same by a test.
module _ {A : Type 0} where
  abbrev pub unique_by : (A → A → Bool) → List A → Bool
  unique_by same [] = true
  unique_by same (x ∷ rows) = not (any (same x) rows) && unique_by same rows

-- The primary keys and the unique indexes that the database checks when the rows are inserted.
unfoldable pub storable : AppState → Bool
storable s =
    distinct_keys s.workspaces
    && unique_by (λ v w. v.slug === w.slug) s.workspaces
    && distinct_keys s.recordings
    && distinct_keys s.ingestion_sessions
    && unique_by (λ d e. d.recording_id === e.recording_id) s.ingestion_sessions
    && distinct_keys s.transcript_jobs
    && unique_by (λ j k. j.recording_id === k.recording_id) s.transcript_jobs
    && distinct_keys s.revisions
    && unique_by (λ q r. q.recording_id === r.recording_id && q.version == r.version) s.revisions
    && distinct_keys s.approvals
    && distinct_keys s.audit_events

-- What is stored when a write goes through.
abbrev pub stored : AppState → Persisted → Persisted
stored s p = record {
  app = s;
  state_version = Option.map (λ _. suc (current_state_version p)) p.state_version;
}

-- A write of a state that was read at some version.
unfoldable pub write_state : ℕ → AppState → Persisted → Result Persisted
unfolding storable
write_state expected_version s p =
    if not (current_state_version p == expected_version)
    then err state_conflict
    else if storable s
    then ok (stored s p)
    else err unique_constraint

abbrev pub max_write_retries : ℕ
max_write_retries = 3

abbrev pub is_state_conflict_error : Failure → Bool
is_state_conflict_error state_conflict = true
is_state_conflict_error _ = false

module _ {A : Type 0} where
  -- What an attempt comes to: `again` is the next one, `p` the state that was read, and `q` the one
  -- that the write meets.
  unfoldable pub finish_attempt :
      Result A × Persisted → Persisted → Persisted → Result (A × AppState) → Result A × Persisted
  unfolding write_state
  finish_attempt again p q (err e) = if is_state_conflict_error e then again else (err e, p)
  finish_attempt again p q (ok (a, s)) = elim (write_state (current_state_version p) s q) [
    | ok written ↦ (ok a, written)
    | err e ↦ if is_state_conflict_error e then again else (err e, q)
  ]

  -- The attempts left, on the fuel of the source's loop. `others n` is what other processes write
  -- between the read and the write of the attempt that leaves n.
  unfoldable pub attempts :
      (ℕ → Persisted → Persisted)
      → (AppState → Result (A × AppState))
      → ℕ
      → Persisted
      → Result A × Persisted
  unfolding finish_attempt
  attempts others mutate zero p = (err state_conflict, p)
  attempts others mutate (suc n) p =
      let again = attempts others mutate n (others n p) in
      finish_attempt again p (others n p) (mutate p.app)

  unfoldable pub with_state :
      (ℕ → Persisted → Persisted)
      → (AppState → Result (A × AppState))
      → Persisted
      → Result A × Persisted
  unfolding attempts
  with_state others mutate p = attempts others mutate max_write_retries p

-- No other process writes meanwhile.
abbrev pub alone : ℕ → Persisted → Persisted
alone n p = p
