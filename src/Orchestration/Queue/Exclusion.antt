-- ===== src/Orchestration/Queue/Exclusion.antt =====
-- A job that a worker has claimed and reports on is no other worker's.
use superscriber.Prelude.{
  ◌+◌, Text, Option, some, none, ℕ, ◌-◌, List, ◌≡◌, ◌≢◌, ◌⊎◌, inl, inr, refl, true, false, ◌===◌,
  row, row-key, row-update_where, row-update_row, All, [], ◌∷◌, arith, if◌then◌else◌, Option-cases,
  text_equal, ap, subst, distinct_keys,
}
use superscriber.Domain.Models.{TranscriptJobState, Recording, job_state_equal}
use superscriber.Domain.Errors.{Result, ok, err, ◌>>=◌, or_throw}
use superscriber.Casefile.Store.{recording_keyed}
use superscriber.Workflow.State.{AppState, TranscriptJob, job_keyed, value_or, add_audit_event}
use superscriber.Workflow.Store.{Persisted}
use superscriber.Orchestration.Queue.Jobs.{
  JobClaim, is_claimable, claim_of, build_claim, default_stale_heartbeat_ms,
}
use superscriber.Orchestration.Queue.Claim.{
  Candidate, considered, claimed_job, claim_candidate, claim_available_transcript_job,
  select_candidate, write_claim,
}
use superscriber.Orchestration.Queue.Selection.{
  Ready, select_candidate-Ready, AllAfter, select_candidate-AllAfter,
}

build_claim_ok :
    (s : AppState) (worker_id job_id : Text) (c : JobClaim)
    → build_claim s worker_id job_id ≡ ok c
    → c.job_id ≡ job_id
unfolding build_claim
build_claim_ok s worker_id job_id c h = elim (Option-cases (row job_id s.transcript_jobs)) [
  | inl gone ↦ absurd (ground (arith, gone, h))
  | inr (j, there) ↦ elim (Option-cases (row j.recording_id s.recordings)) [
    | inl gone ↦ absurd (ground (arith, there, gone, h))
    | inr (r, here) ↦ ground (arith, there, here, h, row-key job_id s.transcript_jobs j there)
  ]
]

-- The cutoff of a claim.
abbrev pub cutoff_of : Option ℕ → ℕ → ℕ
cutoff_of stale_after_ms now = now - value_or stale_after_ms default_stale_heartbeat_ms

claim_candidate_ok :
    (w : Text) (cutoff now : ℕ) (o : Option Candidate) (p : Persisted) {c : JobClaim}
    {q : Persisted}
    → claim_candidate w cutoff now o p ≡ (ok (some c), q)
    → (k : Candidate) × (o ≡ some k) × (c.job_id ≡ k.job.id) × (q ≡ write_claim w cutoff now k p)
claim_candidate_ok w cutoff now none p h = absurd (cc)
claim_candidate_ok w cutoff now (some k) p {c} {q} h =
    split (build_claim (write_claim w cutoff now k p).app w k.job.id) refl h
  where
    split :
        (r : Result JobClaim)
        → build_claim (write_claim w cutoff now k p).app w k.job.id ≡ r
        → ◌≡◌ {A = Result (Option JobClaim) × Persisted}
            (r >>= λ claim. ok (some claim), write_claim w cutoff now k p)
            (ok (some c), q)
        → (j : Candidate) × (some k ≡ some j)
          × (c.job_id ≡ j.job.id)
          × (q ≡ write_claim w cutoff now j p)
    split (err e) b g = absurd (cc)
    split (ok d) b g =
        (k, refl, ground (arith, g, build_claim_ok _ w k.job.id d b), ground (arith, g))

-- The row of every job after the writes of a claim.
pub row-write_claim :
    (w : Text) (cutoff now : ℕ) (k : Candidate) (p : Persisted) (id : Text)
    → row k.job.id p.app.transcript_jobs ≡ some k.job
    → is_claimable cutoff k.job ≡ true
    → row id (write_claim w cutoff now k p).app.transcript_jobs
      ≡ (if k.job.id === id then some (claimed_job w now k.job) else row id p.app.transcript_jobs)
unfolding write_claim add_audit_event claimed_job
row-write_claim w cutoff now k p id at fit =
    let moved =
      row-update_where k.job.id id (is_claimable cutoff) (claimed_job w now) p.app.transcript_jobs
        (λ r. refl) in
    ground (arith, moved, at, fit)

-- What a claim makes of the job that it takes.
pub record IsTaken (worker_id : Text) (now : ℕ) (before after : TranscriptJob) : Type 0 where
  pub running : after.state ≡ TranscriptJobState.running
  pub owner : after.claimed_by_worker_id ≡ some worker_id
  pub attempt : after.attempt_count ≡ before.attempt_count + 1
  pub sign : after.last_heartbeat_at ≡ some now

-- What a claim takes, and what it makes of the jobs.
abbrev pub Takes : Text → Option ℕ → ℕ → Persisted → JobClaim → Persisted → Type 0
Takes worker_id stale_after_ms now p c q =
    (k : Candidate) × (row c.job_id p.app.transcript_jobs ≡ some k.job)
    × Ready p.app (cutoff_of stale_after_ms now) k
    × AllAfter p.app (cutoff_of stale_after_ms now) p.app.transcript_jobs (some k)
    × ((id : Text)
        → row id q.app.transcript_jobs ≡ (
            if c.job_id === id
            then some (claimed_job worker_id now k.job)
            else row id p.app.transcript_jobs))
    × IsTaken worker_id now k.job (claimed_job worker_id now k.job)

module _ (worker_id : Text) (stale_after_ms : Option ℕ) (now : ℕ) (p : Persisted) {c : JobClaim}
    {q : Persisted} (distinct : distinct_keys p.app.transcript_jobs ≡ true)
    (claimed : claim_available_transcript_job worker_id stale_after_ms now p
      ≡ (ok (some c), q)) where
  -- The claim takes a job that is ready and waiting or left by a silent worker, before which no other
  -- such job goes; it becomes the worker's with one attempt more, and no other job changes.
  pub claim_available_transcript_job_lem : Takes worker_id stale_after_ms now p c q
  unfolding claim_available_transcript_job claimed_job
  claim_available_transcript_job_lem =
      let cutoff = cutoff_of stale_after_ms now in
      let (k, chosen, same, done) =
        claim_candidate_ok worker_id cutoff now
          (select_candidate p.app cutoff p.app.transcript_jobs) p claimed in
      let (at, fit) = select_candidate-Ready p.app cutoff p.app.transcript_jobs k distinct chosen in
      (
        k,
        ground (arith, at, same),
        fit,
        subst (AllAfter p.app cutoff p.app.transcript_jobs) chosen
            (select_candidate-AllAfter p.app cutoff p.app.transcript_jobs),
        λ id. rw done (rw same (row-write_claim worker_id cutoff now k p id at fit.claimable)),
        record { running = refl; owner = refl; attempt = refl; sign = refl },
      )

  -- A job that may not be claimed is not.
  pub claim_available_transcript_job-claimable :
      (id : Text) (j : TranscriptJob)
      → row id p.app.transcript_jobs ≡ some j
      → is_claimable (cutoff_of stale_after_ms now) j ≡ false
      → c.job_id ≢ id
  claim_available_transcript_job-claimable id j there held same =
      let (k, at, fit, after, rows, changed) = claim_available_transcript_job_lem in
      let found : row id p.app.transcript_jobs ≡ some k.job = ground (arith, at, same) in
      let is_k : k.job ≡ j = ground (arith, found, there) in
      absurd (
        ground (
          arith,
          fit.claimable,
          held,
          ap (λ t. is_claimable (cutoff_of stale_after_ms now) t) is_k,
        ))

nothing_considered :
    (s : AppState) (cutoff : ℕ) (jobs : List TranscriptJob)
    → AllAfter s cutoff jobs none
    → All (λ job. considered s cutoff job (row job.recording_id s.recordings) ≡ none) jobs
nothing_considered s cutoff [] h = tt
nothing_considered s cutoff (job ∷ jobs) h = (
  elim (Option-cases (considered s cutoff job (row job.recording_id s.recordings))) [
    | inl gone ↦ gone
    | inr (d, is) ↦ let (c, bad, _) = h.0 d is in absurd (ground (arith, bad))
  ],
  nothing_considered s cutoff jobs h.1,
)

built_claim :
    (w : Text) (cutoff now : ℕ) (k : Candidate) (p : Persisted)
    → row k.job.id p.app.transcript_jobs ≡ some k.job
    → Ready p.app cutoff k
    → (c : JobClaim) × (build_claim (write_claim w cutoff now k p).app w k.job.id ≡ ok c)
unfolding build_claim
built_claim w cutoff now k p at fit =
    let job = row-write_claim w cutoff now k p k.job.id at fit.claimable in
    let start : Recording → Recording =
      λ r. record r { transcript_job_state = TranscriptJobState.running; updated_at = now } in
    let moved =
      row-update_row k.recording.id k.job.recording_id start p.app.recordings (λ r. refl) in
    let key = row-key k.job.recording_id p.app.recordings k.recording fit.of_job in
    let recording : row (claimed_job w now k.job).recording_id
          (write_claim w cutoff now k p).app.recordings
        ≡ some (start k.recording) =
      unfold write_claim add_audit_event claimed_job in ground (arith, moved, key, fit.of_job) in
    let there : row k.job.id (write_claim w cutoff now k p).app.transcript_jobs
        ≡ some (claimed_job w now k.job) =
      ground (arith, job) in
    (
      claim_of w (claimed_job w now k.job) (start k.recording),
      rw (there, or_throw) (rw (recording, or_throw) refl),
    )

-- What a claim comes to: nothing, where no job could be taken, or a job.
abbrev pub Answers : ℕ → Persisted → Result (Option JobClaim) × Persisted → Type 0
Answers cutoff p answer =
    ((answer ≡ (ok none, p))
      × All (λ job. considered p.app cutoff job (row job.recording_id p.app.recordings) ≡ none)
          p.app.transcript_jobs)
    ⊎ ((c : JobClaim) × (q : Persisted) × (answer ≡ (ok (some c), q)))

-- A claim is never refused: it takes a job, or leaves everything as it was if there is none to take.
pub claim_available_transcript_job_ok :
    (w : Text) (window : Option ℕ) (now : ℕ) (p : Persisted)
    → distinct_keys p.app.transcript_jobs ≡ true
    → Answers (cutoff_of window now) p (claim_available_transcript_job w window now p)
unfolding claim_available_transcript_job
claim_available_transcript_job_ok w window now p distinct =
    chosen (select_candidate p.app (cutoff_of window now) p.app.transcript_jobs) refl
  where
    chosen :
        (o : Option Candidate)
        → select_candidate p.app (cutoff_of window now) p.app.transcript_jobs ≡ o
        → Answers (cutoff_of window now) p (claim_candidate w (cutoff_of window now) now o p)
    chosen none e = inl (
      refl,
      nothing_considered p.app (cutoff_of window now) p.app.transcript_jobs (
          subst (AllAfter p.app (cutoff_of window now) p.app.transcript_jobs) e
            (select_candidate-AllAfter p.app (cutoff_of window now) p.app.transcript_jobs)),
    )
    chosen (some k) e =
        let (at, fit) =
          select_candidate-Ready p.app (cutoff_of window now) p.app.transcript_jobs k distinct e in
        let (c, built) = built_claim w (cutoff_of window now) now k p at fit in
        inr (c, write_claim w (cutoff_of window now) now k p, ground (arith, built))
