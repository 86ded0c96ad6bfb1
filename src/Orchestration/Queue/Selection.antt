-- ===== src/Orchestration/Queue/Selection.antt =====
-- Which job a claim takes.
use superscriber.Prelude.{
  Text, Option, some, none, ℕ, List, [], ◌∷◌, ◌≡◌, ◌⊎◌, inl, inr, refl, Bool, true, false, ◌&&◌,
  row, has_key, has_key-update_where, update_where, All, arith, if◌then◌else◌, Bool-cases, Keyed,
  text_equal, subst, distinct_keys,
}
use superscriber.Domain.Models.{Recording, job_state_equal}
use superscriber.Casefile.Store.{recording_keyed}
use superscriber.Workflow.State.{AppState, TranscriptJob, job_keyed}
use superscriber.Orchestration.Queue.Jobs.{is_claimable, is_ready}
use superscriber.Orchestration.Queue.Claim.{
  Candidate, goes_before, considered, first_of, select_candidate,
}

module _ {A : Type 0} ⦃k : Keyed A⦄ where
  pub row-has_key :
      (id : Text) (rows : List A) (a : A) → row id rows ≡ some a → has_key id rows ≡ true
  row-has_key id [] a h = absurd (cc)
  row-has_key id (x ∷ rows) a h = ground (arith, row-has_key id rows a)

  pub distinct_keys-update_where :
      (p : A → Bool) (f : A → A) (rows : List A)
      → ((a : A) → k.key (f a) ≡ k.key a)
      → distinct_keys (update_where p f rows) ≡ distinct_keys rows
  distinct_keys-update_where p f [] same = refl
  distinct_keys-update_where p f (x ∷ rows) same =
      let tail = distinct_keys-update_where p f rows same in
      let head = has_key-update_where (k.key x) p f rows same in
      elim (Bool-cases (p x)) [
        | inl e ↦ rw (e, if◌then◌else◌) (rw (same x) (rw (head, tail) refl))
        | inr e ↦ rw (e, if◌then◌else◌) (rw (head, tail) refl)
      ]

-- A candidate with its job's recording, ready and claimable.
pub record Ready (s : AppState) (cutoff : ℕ) (c : Candidate) : Type 0 where
  pub of_job : row c.job.recording_id s.recordings ≡ some c.recording
  pub ready : is_ready s c.recording ≡ true
  pub claimable : is_claimable cutoff c.job ≡ true

considered_ok :
    (s : AppState) (cutoff : ℕ) (job : TranscriptJob) (r : Option Recording) (c : Candidate)
    → row job.recording_id s.recordings ≡ r
    → considered s cutoff job r ≡ some c
    → (c.job ≡ job) × Ready s cutoff c
considered_ok s cutoff job none c e h = absurd (cc)
considered_ok s cutoff job (some r) c e h =
    elim (Bool-cases (is_ready s r && is_claimable cutoff job)) [
      | inl both ↦ (
        ground (arith, both, h),
        record {
          of_job = ground (arith, e, both, h);
          ready = ground (arith, both, h);
          claimable = ground (arith, both, h);
        },
      )
      | inr one ↦ absurd (ground (arith, one, h))
    ]

-- The job that is taken is a row of the table, ready and claimable.
pub select_candidate-Ready :
    (s : AppState) (cutoff : ℕ) (jobs : List TranscriptJob) (c : Candidate)
    → distinct_keys jobs ≡ true
    → select_candidate s cutoff jobs ≡ some c
    → (row c.job.id jobs ≡ some c.job) × Ready s cutoff c
unfolding select_candidate
select_candidate-Ready s cutoff [] c distinct h = absurd (cc)
select_candidate-Ready s cutoff (job ∷ jobs) c distinct h =
    pick (considered s cutoff job (row job.recording_id s.recordings))
      (select_candidate s cutoff jobs) (λ d. considered_ok s cutoff job _ d refl)
      (λ d. select_candidate-Ready s cutoff jobs d (ground (arith, distinct))) h
  where
    Found : List TranscriptJob → Candidate → Type 0
    Found rows d = (row d.job.id rows ≡ some d.job) × Ready s cutoff d

    first : (d : Candidate) → (d.job ≡ job) × Ready s cutoff d → Found (job ∷ jobs) d
    first d (same, fit) = (ground (arith, same), fit)

    later : (d : Candidate) → Found jobs d → Found (job ∷ jobs) d
    later d (at, fit) = (ground (arith, at, distinct, row-has_key d.job.id jobs d.job), fit)

    pick :
        (a b : Option Candidate)
        → ((d : Candidate) → a ≡ some d → (d.job ≡ job) × Ready s cutoff d)
        → ((d : Candidate) → b ≡ some d → Found jobs d)
        → first_of a b ≡ some c
        → Found (job ∷ jobs) c
    pick none b here there k = later c (there c k)
    pick (some d) none here there k = first c (here c k)
    pick (some d) (some e) here there k = elim (Bool-cases (goes_before d e)) [
      | inl t ↦ first c (here c (ground (arith, t, k)))
      | inr t ↦ later c (there c (ground (arith, t, k)))
    ]

goes_before_total : (a b : Candidate) → (goes_before a b ≡ true) ⊎ (goes_before b a ≡ true)
unfolding goes_before
goes_before_total a b = elim (Bool-cases (goes_before a b)) [
  | inl h ↦ inl h
  | inr h ↦ inr (ground (arith, h))
]

other_before : (a b : Candidate) → goes_before a b ≡ false → goes_before b a ≡ true
other_before a b h = elim (goes_before_total a b) [ inl k ↦ absurd (cc) | inr k ↦ k ]

some_injective : (a d : Candidate) → some a ≡ some d → a ≡ d
some_injective a d h = cc

same_before : (a d : Candidate) → some a ≡ some d → goes_before a d ≡ true
same_before a d h =
    subst (λ e. goes_before a e ≡ true) (some_injective a d h)
      (elim (goes_before_total a a) [ inl k ↦ k | inr k ↦ k ])

goes_before_trans :
    (a b c : Candidate) → goes_before a b ≡ true → goes_before b c ≡ true → goes_before a c ≡ true
unfolding goes_before
goes_before_trans a b c h k = ground arith

-- Every job that could be taken comes after the one that is.
abbrev pub AllAfter : AppState → ℕ → List TranscriptJob → Option Candidate → Type 0
AllAfter s cutoff jobs best =
    All
      (λ job.
        (d : Candidate)
        → considered s cutoff job (row job.recording_id s.recordings) ≡ some d
        → (c : Candidate) × (best ≡ some c) × (goes_before c d ≡ true))
      jobs

AllAfter-better :
    (s : AppState) (cutoff : ℕ) (jobs : List TranscriptJob) (a : Option Candidate)
    (b : Option Candidate)
    → AllAfter s cutoff jobs b
    → AllAfter s cutoff jobs (first_of a b)
AllAfter-better s cutoff [] a b h = tt
AllAfter-better s cutoff (job ∷ jobs) a b h =
    (λ d k. improve d a (h.0 d k), AllAfter-better s cutoff jobs a b h.1)
  where
    improve :
        (d : Candidate) (a : Option Candidate)
        → ((c : Candidate) × (b ≡ some c) × (goes_before c d ≡ true))
        → (c : Candidate) × (first_of a b ≡ some c) × (goes_before c d ≡ true)
    improve d none h = h
    improve d (some a) (c, is, before) = elim (Bool-cases (goes_before a c)) [
      | inl t ↦ (a, ground (arith, is, t), goes_before_trans a c d t before)
      | inr t ↦ (c, ground (arith, is, t), before)
    ]

pub select_candidate-AllAfter :
    (s : AppState) (cutoff : ℕ) (jobs : List TranscriptJob)
    → AllAfter s cutoff jobs (select_candidate s cutoff jobs)
unfolding select_candidate
select_candidate-AllAfter s cutoff [] = tt
select_candidate-AllAfter s cutoff (job ∷ jobs) =
    let a = considered s cutoff job (row job.recording_id s.recordings) in
    let b = select_candidate s cutoff jobs in
    (
      λ d k. head d a b k,
      AllAfter-better s cutoff jobs a b (select_candidate-AllAfter s cutoff jobs),
    )
  where
    head :
        (d : Candidate) (a b : Option Candidate)
        → a ≡ some d
        → (c : Candidate) × (first_of a b ≡ some c) × (goes_before c d ≡ true)
    head d none b k = absurd (cc)
    head d (some a) none k = (a, refl, same_before a d k)
    head d (some a) (some b) k = elim (Bool-cases (goes_before a b)) [
      | inl t ↦ (a, ground (arith, t), same_before a d k)
      | inr t ↦ (
        b,
        ground (arith, t),
        subst (λ e. goes_before b e ≡ true) (some_injective a d k) (other_before a b t),
      )
    ]
