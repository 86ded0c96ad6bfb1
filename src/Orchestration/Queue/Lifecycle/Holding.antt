-- ===== src/Orchestration/Queue/Lifecycle/Holding.antt =====
-- How long a worker keeps the job that it has claimed.
use superscriber.Prelude.{
  ◌≤◌, Text, Option, some, ℕ, List, [], ◌∷◌, ◌≡◌, ◌≢◌, true, false, inl, inr, refl, row, arith, ap,
  sym, ◌∙◌, subst, Bool-cases, ◌===◌, text_equal, is,
}
use superscriber.Domain.Models.{job_state_equal}
use superscriber.Domain.Errors.{Result, ok}
use superscriber.Workflow.State.{AppState, TranscriptJob, job_keyed}
use superscriber.Workflow.Store.{Persisted}
use superscriber.Workflow.Store.Laws.{with_state-alone}
use superscriber.Orchestration.Normalize.{is_running}
use superscriber.Orchestration.Normalize.Laws.{normalize_state-IsNormalised}
use superscriber.Orchestration.Queue.Jobs.{JobClaim, JobSnapshot, is_claimable}
use superscriber.Orchestration.Queue.Claim.{claimed_job, claim_available_transcript_job}
use superscriber.Orchestration.Queue.Reports.{Heartbeat, beaten}
use superscriber.Orchestration.Queue.Exclusion.{
  cutoff_of, claim_available_transcript_job_lem, claim_available_transcript_job_ok,
  claim_available_transcript_job-claimable,
}
use superscriber.Orchestration.Queue.Ownership.{Reported, heartbeat_transcript_job-Reported}
use superscriber.Orchestration.Queue.Lifecycle.{QueueIsValid}
use superscriber.Orchestration.Queue.Lifecycle.Runs.{
  Report, beats, QueueCall, claims, reports, job_of, reporter, report, perform, perform-Follows,
  run, run-QueueIsValid, report-Reported,
}

-- A running job of the worker, with a sign of life at `t` or later.
pub record IsHeld (w : Text) (t : ℕ) (j : TranscriptJob) : Type 0 where
  pub owner : j.claimed_by_worker_id ≡ some w
  pub running : is_running j.state ≡ true
  pub at : ℕ
  pub sign : j.last_heartbeat_at ≡ some at
  pub recent : t ≤ at

abbrev pub Holds : Text → Text → ℕ → Persisted → Type 0
Holds w id t p = (j : TranscriptJob) × (row id p.app.transcript_jobs ≡ some j) × IsHeld w t j

-- A call that does not end the work of `w` on the job: a claim for which a sign at `t` is recent enough,
-- a report of another worker or on another job, or a sign of life.
pub data Spares (w id : Text) (t now : ℕ) : QueueCall → Type 0 where
  claim :
      (other : Text) (window : Option ℕ)
      → cutoff_of window now ≤ t
      → Spares w id t now (claims other window)
  other_worker : (r : Report) → reporter r ≢ w → Spares w id t now (reports r)
  other_job : (r : Report) → job_of r ≢ id → Spares w id t now (reports r)
  spares_sign : (h : Heartbeat) → t ≤ now → Spares w id t now (reports (beats h))

abbrev pub AllSpare : Text → Text → ℕ → List (ℕ × QueueCall) → Type 0
AllSpare w id t [] = Unit
AllSpare w id t ((now, call) ∷ rest) = Spares w id t now call × AllSpare w id t rest

not_claimable :
    (w : Text) (t cutoff : ℕ) (j : TranscriptJob)
    → IsHeld w t j
    → cutoff ≤ t
    → is_claimable cutoff j ≡ false
unfolding is_claimable is_running
not_claimable w t cutoff j mine below = ground (arith, mine.running, mine.sign, mine.recent, below)

owned_by :
    (w other : Text) (x : TranscriptJob)
    → x.claimed_by_worker_id ≡ some w
    → is x.claimed_by_worker_id other ≡ true
    → other ≡ w
owned_by w other x own says = ground (arith, own, says)

-- A report on another job.
elsewhere :
    (r : Report) (now : ℕ) (p : Persisted) (id : Text) (j : TranscriptJob) (u : AppState)
    {snap : JobSnapshot}
    → QueueIsValid p
    → row id p.app.transcript_jobs ≡ some j
    → report r now p.app ≡ ok (snap, u)
    → (job_of r === id) ≡ false
    → row id u.transcript_jobs ≡ some j
elsewhere r now p id j u valid at made other =
    let (f, done, step) = report-Reported r now p.app u made in
    let same = normalize_state-IsNormalised p.app valid.normalised in
    done.rows id ∙ ground (arith, other, ap (λ (s : AppState). row id s.transcript_jobs) same, at)

same_job :
    (id w : Text) (p : Persisted) (u : AppState) (j : TranscriptJob)
    (f : TranscriptJob → TranscriptJob)
    → QueueIsValid p
    → row id p.app.transcript_jobs ≡ some j
    → (done : Reported p.app u id w f) → done.job ≡ j
same_job id w p u j f valid at done =
    let same = normalize_state-IsNormalised p.app valid.normalised in
    ground (arith, done.found, ap (λ (s : AppState). row id s.transcript_jobs) same, at)

module _ (w id : Text) (t now : ℕ) (p : Persisted) (valid : QueueIsValid p) (j : TranscriptJob)
    (at : row id p.app.transcript_jobs ≡ some j) (mine : IsHeld w t j) where
  claim-Holds :
      (other : Text) (window : Option ℕ)
      → cutoff_of window now ≤ t
      → Holds w id t (claim_available_transcript_job other window now p).1
  claim-Holds other window below =
      elim (claim_available_transcript_job_ok other window now p valid.distinct) [
        | inl (same, none_waits) ↦
            subst (Holds w id t) (sym (ap (λ (x : Result (Option JobClaim) × Persisted). x.1) same))
              (j, at, mine)
        | inr (c, q, taken) ↦
            let (k, found, fit, best, rows, changed) =
              claim_available_transcript_job_lem other window now p valid.distinct taken in
            let differs =
              claim_available_transcript_job-claimable other window now p valid.distinct taken id j
                at (not_claimable w t (cutoff_of window now) j mine below) in
            subst (Holds w id t)
              (sym (ap (λ (x : Result (Option JobClaim) × Persisted). x.1) taken))
              (j, ground (arith, rows id, differs, at), mine)
      ]

  -- A report that goes through, on the job of `w` or on another.
  report-Holds :
      (r : Report) (u : AppState) {snap : JobSnapshot}
      → Spares w id t now (reports r)
      → report r now p.app ≡ ok (snap, u)
      → (k : TranscriptJob) × (row id u.transcript_jobs ≡ some k) × IsHeld w t k
  report-Holds r u spares made = elim (Bool-cases (job_of r === id)) [
    | inr other ↦ (j, elsewhere r now p id j u valid at made other, mine)
    | inl here ↦ on_job r spares made (ground (arith, here))
  ]
    where
      on_job :
          (r : Report) {snap : JobSnapshot}
          → Spares w id t now (reports r)
          → report r now p.app ≡ ok (snap, u)
          → job_of r ≡ id
          → (k : TranscriptJob) × (row id u.transcript_jobs ≡ some k) × IsHeld w t k
      on_job r (other_worker _ stranger) made here =
          let (f, done, step) = report-Reported r now p.app u made in
          let is_j =
            same_job (job_of r) (reporter r) p u j f valid
              (ap (λ (x : Text). row x p.app.transcript_jobs) here ∙ at) done in
          absurd (
            stranger (
              owned_by w (reporter r) j mine.owner (
                ap (λ (x : TranscriptJob). is x.claimed_by_worker_id (reporter r)) (sym is_j)
                ∙ done.owner)))
      on_job r (other_job _ differs) made here = absurd (differs here)
      on_job (beats h) {snap} (spares_sign _ recent) made here =
          let (next, runs, done) =
            heartbeat_transcript_job-Reported h now p.app u {snap = snap} (unfold report in made) in
          let is_j =
            same_job h.job_id h.worker_id p u j (beaten h next now) valid
              (ap (λ (x : Text). row x p.app.transcript_jobs) here ∙ at) done in
          (
            beaten h next now j,
            ground (arith, done.rows id, here, is_j),
            unfold beaten in
                record {
                  owner = mine.owner;
                  running = runs;
                  at = now;
                  sign = refl;
                  recent = recent;
                },
          )

  perform-Holds : (call : QueueCall) → Spares w id t now call → Holds w id t (perform call now p)
  unfolding perform
  perform-Holds (claims other window) (claim _ _ below) = claim-Holds other window below
  perform-Holds (reports r) spares = elim (with_state-alone (report r now) p) [
    | inl same ↦ subst (Holds w id t) (sym same) (j, at, mine)
    | inr (snap, u, made, fits, done) ↦
        subst (Holds w id t) (sym done) (report-Holds r u spares made)
  ]

run-Holds :
    (w id : Text) (t : ℕ) (calls : List (ℕ × QueueCall)) (p : Persisted)
    → QueueIsValid p
    → Holds w id t p
    → AllSpare w id t calls
    → Holds w id t (run calls p)
run-Holds w id t [] p valid holds spare = holds
run-Holds w id t ((now, call) ∷ rest) p valid (j, at, mine) (first, spare) =
    run-Holds w id t rest (perform call now p) (perform-Follows call now p valid).0
      (perform-Holds w id t now p valid j at mine call first) spare

module _ (w : Text) (window : Option ℕ) (now : ℕ) (p q : Persisted) (c : JobClaim)
    (valid : QueueIsValid p)
    (claimed : claim_available_transcript_job w window now p ≡ (ok (some c), q))
    (calls : List (ℕ × QueueCall)) (spare : AllSpare w c.job_id now calls) where
  claimed_valid : QueueIsValid q
  claimed_valid =
      let performed : perform (claims w window) now p ≡ q =
        unfold perform in ap (λ (x : Result (Option JobClaim) × Persisted). x.1) claimed in
      subst QueueIsValid performed (perform-Follows (claims w window) now p valid).0

  still_held : Holds w c.job_id now (run calls q)
  unfolding claimed_job
  still_held =
      let (k, found, fit, best, rows, changed) =
        claim_available_transcript_job_lem w window now p valid.distinct claimed in
      run-Holds w c.job_id now calls q claimed_valid
        (
          claimed_job w now k.job,
          ground (arith, rows c.job_id),
          record { owner = refl; running = refl; at = now; sign = refl; recent = ground arith },
        )
        spare

  -- In a valid queue, a job that a worker has claimed goes to no later claim with a cutoff up to the time
  -- of that claim. Meanwhile there may be any claims with such cutoffs, signs of life that are not
  -- earlier, reports of other workers, and reports on other jobs.
  pub claim_available_transcript_job_twice :
      (other : Text) (next_window : Option ℕ) (later : ℕ) (after : Persisted) (d : JobClaim)
      → cutoff_of next_window later ≤ now
      → claim_available_transcript_job other next_window later (run calls q) ≡ (ok (some d), after)
      → d.job_id ≢ c.job_id
  claim_available_transcript_job_twice other next_window later after d below second =
      let (j, at, mine) = still_held in
      claim_available_transcript_job-claimable other next_window later (run calls q)
        (run-QueueIsValid calls q claimed_valid).distinct second c.job_id j at
        (not_claimable w now (cutoff_of next_window later) j mine below)

  -- In a valid queue, after a worker has claimed a job, a report on it that goes through is that worker's,
  -- as long as there were in between only claims with a cutoff up to the time of its claim, signs of life
  -- that are not earlier, reports of other workers, and reports on other jobs.
  pub claim_available_transcript_job-report :
      (r : Report) (later : ℕ) (u : AppState) (snap : JobSnapshot)
      → job_of r ≡ c.job_id
      → report r later (run calls q).app ≡ ok (snap, u)
      → reporter r ≡ w
  claim_available_transcript_job-report r later u snap same made =
      let (j, at, mine) = still_held in
      let (f, done, step) = report-Reported r later (run calls q).app u made in
      let is_j =
        same_job (job_of r) (reporter r) (run calls q) u j f
          (run-QueueIsValid calls q claimed_valid)
          (ap (λ (x : Text). row x (run calls q).app.transcript_jobs) same ∙ at) done in
      owned_by w (reporter r) j mine.owner
        (ap (λ (x : TranscriptJob). is x.claimed_by_worker_id (reporter r)) (sym is_j) ∙ done.owner)
