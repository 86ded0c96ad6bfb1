-- ===== src/Orchestration/Normalize/Laws.antt =====
-- What normalising the state gives, and that doing it again changes nothing.
use superscriber.Prelude.{
  Text, Option, some, none, List, [], ◌∷◌, ◌≡◌, refl, row, find, All, All-weaken, ◌===◌, inl, inr,
  arith, text_equal, Bool, true, has_key, Keyed, row-key, Bool-cases, subst, ap, ◌⊎◌, Option-cases,
}
use superscriber.Domain.Models.{Recording}
use superscriber.Domain.Errors.{ok, err, recording_not_found}
use superscriber.Casefile.Store.{recording_keyed}
use superscriber.Workflow.State.{
  AppState, IngestionSession, TranscriptJob, session_keyed, job_keyed, row_of,
}
use superscriber.Orchestration.Normalize.{
  bootstrap_ingestion_session, bootstrap_transcript_job, session_for, job_for, or_find,
  found_or_first, normalize_recordings, normalize_state, RecordingRefs, resolve_recording_refs,
}

module _ {A : Type 0} ⦃k : Keyed A⦄ where
  -- A reference that leads to a row.
  abbrev pub Leads : Option Text → List A → Type 0
  Leads none rows = ⊥
  Leads (some id) rows = has_key id rows ≡ true

  find-has_key :
      (p : A → Bool) (rows : List A) (a : A) → find p rows ≡ some a → has_key (k.key a) rows ≡ true
  find-has_key p [] a h = absurd (cc)
  find-has_key p (x ∷ rows) a h = ground (arith, find-has_key p rows a)

  has_key→row :
      (id : Text) (rows : List A) → has_key id rows ≡ true → (a : A) × (row id rows ≡ some a)
  has_key→row id [] h = absurd (cc)
  has_key→row id (x ∷ rows) h = elim (Bool-cases (k.key x === id)) [
    | inl e ↦ (x, ground (arith, e))
    | inr e ↦ let (a, f) = has_key→row id rows (ground (arith, e, h)) in (a, ground (arith, e, f))
  ]

  Leads→row :
      (ref : Option Text) (rows : List A) → Leads ref rows → (a : A) × (row_of ref rows ≡ some a)
  Leads→row none rows h = absurd h
  Leads→row (some id) rows h = has_key→row id rows h

  found_or_first-grows :
      (o : Option A) (new : A) (rows : List A) (id : Text)
      → has_key id rows ≡ true
      → has_key id (found_or_first o new rows).1 ≡ true
  found_or_first-grows (some a) new rows id h = h
  found_or_first-grows none new rows id h = ground (arith, h)

  found_or_first-Leads :
      (first : Option Text) (second : A → Bool) (new : A) (rows : List A)
      → let (a, more) = found_or_first (or_find (row_of first rows) (find second rows)) new rows in
        has_key (k.key a) more ≡ true
  found_or_first-Leads first second new rows =
      look (row_of first rows) (find second rows) (in_first first) (find-has_key second rows)
    where
      in_first :
          (first : Option Text) (a : A) → row_of first rows ≡ some a → has_key (k.key a) rows ≡ true
      in_first none a h = absurd (cc)
      in_first (some id) a h = find-has_key _ rows a h

      look :
          (f s : Option A)
          → ((a : A) → f ≡ some a → has_key (k.key a) rows ≡ true)
          → ((a : A) → s ≡ some a → has_key (k.key a) rows ≡ true)
          → let (a, more) = found_or_first (or_find f s) new rows in has_key (k.key a) more ≡ true
      look (some a) s hf hs = hf a refl
      look none (some a) hf hs = hs a refl
      look none none hf hs = ground arith

  -- A reference that leads to a row finds it again.
  found_or_first-found :
      (ref : Option Text) (second : Option A) (new : A) (rows : List A)
      → Leads ref rows
      → let (a, more) = found_or_first (or_find (row_of ref rows) second) new rows in
        (some (k.key a) ≡ ref) × (more ≡ rows)
  found_or_first-found none second new rows h = absurd h
  found_or_first-found (some id) second new rows h =
      let (a, e) = has_key→row id rows h in
      let same = row-key id rows a e in rw e (ap some same, refl)

abbrev pub Resolved : List IngestionSession → List TranscriptJob → Recording → Type 0
Resolved sessions jobs r = Leads r.ingestion_session_id sessions × Leads r.transcript_job_id jobs

normalize_recordings-grows :
    (rs : List Recording) (sessions : List IngestionSession) (jobs : List TranscriptJob) (id : Text)
    → let n = normalize_recordings rs sessions jobs in
      (has_key id sessions ≡ true → has_key id n.1 ≡ true)
      × (has_key id jobs ≡ true → has_key id n.2 ≡ true)
unfolding normalize_recordings
normalize_recordings-grows [] sessions jobs id = (λ h. h, λ h. h)
normalize_recordings-grows (r ∷ rs) sessions jobs id =
    let (s, ss) = session_for r sessions in
    let (j, js) = job_for r jobs in
    let (more_s, more_j) = normalize_recordings-grows rs ss js id in
    (
      λ h. more_s (unfold session_for in found_or_first-grows _ _ sessions id h),
      λ h. more_j (unfold job_for in found_or_first-grows _ _ jobs id h),
    )

normalize_recordings-Resolved :
    (rs : List Recording) (sessions : List IngestionSession) (jobs : List TranscriptJob)
    → let n = normalize_recordings rs sessions jobs in All (Resolved n.1 n.2) n.0
unfolding normalize_recordings
normalize_recordings-Resolved [] sessions jobs = tt
normalize_recordings-Resolved (r ∷ rs) sessions jobs =
    let (s, ss) = session_for r sessions in
    let (j, js) = job_for r jobs in
    (
      (
        (normalize_recordings-grows rs ss js s.id).0
            (unfold session_for in found_or_first-Leads r.ingestion_session_id _ _ sessions),
        (normalize_recordings-grows rs ss js j.id).1
            (unfold job_for in found_or_first-Leads r.transcript_job_id _ _ jobs),
      ),
      normalize_recordings-Resolved rs ss js,
    )

found_again :
    (rs : List Recording) (sessions : List IngestionSession) (jobs : List TranscriptJob)
    → All (Resolved sessions jobs) rs
    → normalize_recordings rs sessions jobs ≡ (rs, sessions, jobs)
unfolding normalize_recordings session_for job_for
found_again [] sessions jobs h = refl
found_again (r ∷ rs) sessions jobs h =
    let same_session =
      found_or_first-found r.ingestion_session_id (find (λ e. e.recording_id === r.id) sessions)
        (bootstrap_ingestion_session r) sessions h.0.0 in
    let same_job =
      found_or_first-found r.transcript_job_id (find (λ e. e.recording_id === r.id) jobs)
        (bootstrap_transcript_job r) jobs h.0.1 in
    ground (arith, same_session, same_job, found_again rs sessions jobs h.1)

-- Every recording leads to a session and a job.
abbrev pub IsNormalised : AppState → Type 0
IsNormalised s = All (Resolved s.ingestion_sessions s.transcript_jobs) s.recordings

pub normalize_state-IsNormalised : (s : AppState) → IsNormalised s → normalize_state s ≡ s
unfolding normalize_state
normalize_state-IsNormalised s h =
    rw (found_again s.recordings s.ingestion_sessions s.transcript_jobs h) refl

-- A list with every key of another.
abbrev pub Covers : {A : Type 0} ⦃k : Keyed A⦄ → List A → List A → Type 0
Covers more rows = (id : Text) → has_key id rows ≡ true → has_key id more ≡ true

module _ {A : Type 0} ⦃k : Keyed A⦄ where
  Leads-Covers :
      (ref : Option Text) (rows more : List A) → Covers more rows → Leads ref rows → Leads ref more
  Leads-Covers none rows more c h = h
  Leads-Covers (some id) rows more c h = c id h

-- A state with the keys of a normalised one, whose recordings keep their references.
pub IsNormalised-update :
    (s t : AppState)
    → Covers t.ingestion_sessions s.ingestion_sessions
    → Covers t.transcript_jobs s.transcript_jobs
    → All (Resolved s.ingestion_sessions s.transcript_jobs) t.recordings
    → IsNormalised t
IsNormalised-update s t sessions jobs kept =
    All-weaken (Resolved s.ingestion_sessions s.transcript_jobs)
      (Resolved t.ingestion_sessions t.transcript_jobs) t.recordings
      (λ r h. (
        Leads-Covers r.ingestion_session_id _ _ sessions h.0,
        Leads-Covers r.transcript_job_id _ _ jobs h.1,
      ))
      kept

-- After the state is normalised every recording leads to a session and a job, and normalising it
-- again changes nothing.
pub normalize_state_lem :
    (s : AppState)
    → IsNormalised (normalize_state s) × (normalize_state (normalize_state s) ≡ normalize_state s)
unfolding normalize_state
normalize_state_lem s =
    let resolved =
      normalize_recordings-Resolved s.recordings s.ingestion_sessions s.transcript_jobs in
    (resolved, normalize_state-IsNormalised _ resolved)

Resolved-row :
    (id : Text) (rs : List Recording) (sessions : List IngestionSession) (jobs : List TranscriptJob)
    → All (Resolved sessions jobs) rs
    → (r : Recording) → row id rs ≡ some r
    → Resolved sessions jobs r
Resolved-row id [] sessions jobs all r h = absurd (cc)
Resolved-row id (x ∷ rs) sessions jobs all r h = elim (Bool-cases (x.id === id)) [
  | inl e ↦ subst (Resolved sessions jobs) {x = x} {y = r} (ground (arith, e, h)) all.0
  | inr e ↦ Resolved-row id rs sessions jobs all.1 r (ground (arith, e, h))
]

-- In a normalised state the references of a recording that is there are complete.
pub resolve_recording_refs-normalize_state :
    (s : AppState) (id : Text)
    → (resolve_recording_refs (normalize_state s) id ≡ err recording_not_found)
      ⊎ ((refs : RecordingRefs) × (resolve_recording_refs (normalize_state s) id ≡ ok refs))
unfolding resolve_recording_refs
resolve_recording_refs-normalize_state s id =
    let t = normalize_state s in
    elim (Option-cases (row id t.recordings)) [
      | inl gone ↦ inl (ground (arith, gone))
      | inr (r, there) ↦
          let at =
            Resolved-row id t.recordings t.ingestion_sessions t.transcript_jobs
              (normalize_state_lem s).0 r there in
          let (e, session_there) = Leads→row _ _ at.0 in
          let (j, job_there) = Leads→row _ _ at.1 in
          inr (
            record { recording = r; session = e; job = j },
            ground (arith, there, session_there, job_there),
          )
    ]

pub normalize_state-events : (s : AppState) → (normalize_state s).audit_events ≡ s.audit_events
unfolding normalize_state
normalize_state-events s = ground arith
