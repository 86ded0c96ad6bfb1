-- ===== src/Workflow/Store/Laws.antt =====
-- Reading and writing the state (src/server/store.ts): an update is atomic.
use superscriber.Prelude.{
  Option, none, ℕ, zero, suc, true, ◌≡◌, ◌⊎◌, refl, ap, ◌∙◌, sym, subst, some, arith, if◌then◌else◌,
  Bool-cases, inl, inr,
}
use superscriber.Domain.Errors.{Failure, Result, ok, err}
use mathlib.Core.Option
use superscriber.Workflow.State.{AppState, value_or}
use superscriber.Workflow.Store.{
  alone, Persisted, current_state_version, stored, storable, write_state, max_write_retries,
  is_state_conflict_error, finish_attempt, attempts, with_state,
}

-- What the database may be while the attempts go on.
pub data Meanwhile (others : ℕ → Persisted → Persisted) : Persisted → Persisted → Type 0 where
  now : {p : Persisted} → Meanwhile others p p
  later : (n : ℕ) {p q : Persisted} → Meanwhile others (others n p) q → Meanwhile others p q

-- Where the row of the version is there, other processes leave it there, and moved if they change the
-- state.
pub record MovesFrom (p q : Persisted) : Type 0 where
  pub version : ℕ
  pub there : q.state_version ≡ some version
  pub moved : q.state_version ≡ p.state_version → q.app ≡ p.app

abbrev pub Moves : (ℕ → Persisted → Persisted) → Type 0
Moves others = (n : ℕ) (p : Persisted) (v : ℕ) → p.state_version ≡ some v → MovesFrom p (others n p)

-- A write that goes through moves the version.
stored-MovesFrom :
    (s : AppState) (p : Persisted) (v : ℕ) → p.state_version ≡ some v → MovesFrom p (stored s p)
stored-MovesFrom s p v there = record {
  version = suc v;
  there = ground (arith, there);
  moved = λ same. absurd (ground (arith, same, there));
}

pub MovesFrom-refl : (p : Persisted) (v : ℕ) → p.state_version ≡ some v → MovesFrom p p
MovesFrom-refl p v there = record { version = v; there = there; moved = λ same. refl }

same_version :
    (p q : Persisted) (v n : ℕ)
    → p.state_version ≡ some v
    → q.state_version ≡ some n
    → current_state_version q ≡ current_state_version p
    → q.state_version ≡ p.state_version
same_version p q v n there here same = ground (arith, there, here, same)

next_version : (v : Option ℕ) → Option.map (λ _. suc (value_or v 0)) v ≡ Option.map (λ n. suc n) v
next_version none = refl
next_version (some v) = refl

pub write_state_ok :
    (v : ℕ) (s : AppState) (p : Persisted) {q : Persisted}
    → write_state v s p ≡ ok q
    → (current_state_version p ≡ v) × (q ≡ stored s p)
unfolding write_state
write_state_ok v s p h = ground arith

module _ {A : Type 0} (a : A) (after : Persisted) (again : Result A × Persisted)
    (p q : Persisted) where
  -- An attempt that succeeds has written, or the next one succeeds.
  abbrev Tried : Result (A × AppState) → Type 0
  Tried r =
      (again ≡ (ok a, after))
      ⊎ ((s : AppState) × (r ≡ ok (a, s))
          × (current_state_version q ≡ current_state_version p)
          × (after ≡ stored s q))

  retried_or :
      (e : Failure) (r : Result (A × AppState)) (o : Persisted)
      → (if is_state_conflict_error e then again else (err e, o)) ≡ (ok a, after)
      → Tried r
  retried_or e r o k = elim (Bool-cases (is_state_conflict_error e)) [
    | inl c ↦ inl (ground (arith, c, k))
    | inr c ↦ absurd (ground (arith, c, k))
  ]

  finish_attempt_ok :
      (r : Result (A × AppState)) → finish_attempt again p q r ≡ (ok a, after) → Tried r
  unfolding finish_attempt
  finish_attempt_ok (err e) k = retried_or e (err e) p k
  finish_attempt_ok (ok (b, s)) k = wrote (write_state (current_state_version p) s q) refl k
    where
      wrote :
          (r : Result Persisted)
          → write_state (current_state_version p) s q ≡ r
          → (elim r as (λ _. Result A × Persisted) [
            | ok written ↦ (ok b, written)
            | err e ↦ if is_state_conflict_error e then again else (err e, q)
          ])
            ≡ (ok a, after)
          → Tried (ok (b, s))
      wrote (ok w) e h =
          let (same, is) = write_state_ok _ s q e in
          inr (s, ground (arith, h), same, ground (arith, is, h))
      wrote (err e) _ h = retried_or e (ok (b, s)) q h

module _ {A : Type 0} (e : Failure) (after : Persisted) (again : Result A × Persisted)
    (p q : Persisted) where
  failed_or :
      (d : Failure) (o : Persisted)
      → (if is_state_conflict_error d then again else (err d, o)) ≡ (err e, after)
      → (again ≡ (err e, after)) ⊎ (after ≡ o)
  failed_or d o k = elim (Bool-cases (is_state_conflict_error d)) [
    | inl c ↦ inl (ground (arith, c, k))
    | inr c ↦ inr (ground (arith, c, k))
  ]

  -- An attempt that fails has written nothing, or is followed by the next one.
  finish_attempt_err :
      (r : Result (A × AppState))
      → finish_attempt again p q r ≡ (err e, after)
      → (again ≡ (err e, after)) ⊎ ((after ≡ p) ⊎ (after ≡ q))
  unfolding finish_attempt
  finish_attempt_err (err d) k = elim (failed_or d p k) [ inl h ↦ inl h | inr h ↦ inr (inl h) ]
  finish_attempt_err (ok (b, s)) k = wrote (write_state (current_state_version p) s q) k
    where
      wrote :
          (r : Result Persisted)
          → (elim r as (λ _. Result A × Persisted) [
            | ok written ↦ (ok b, written)
            | err d ↦ if is_state_conflict_error d then again else (err d, q)
          ])
            ≡ (err e, after)
          → (again ≡ (err e, after)) ⊎ ((after ≡ p) ⊎ (after ≡ q))
      wrote (ok w) h = absurd (cc)
      wrote (err d) h = elim (failed_or d q h) [ inl g ↦ inl g | inr g ↦ inr (inr g) ]

module _ {A : Type 0} (others : ℕ → Persisted → Persisted)
    (mutate : AppState → Result (A × AppState)) where
  abbrev MadeTo : Persisted → A → Persisted → Type 0
  MadeTo p a after =
      (q : Persisted) × (s : AppState) × Meanwhile others p q
      × (mutate q.app ≡ ok (a, s))
      × (after ≡ stored s q)

  -- The update was made to the state that it replaced, and the next version is that of the result.
  abbrev pub Atomic : Persisted → A → Persisted → Type 0
  Atomic p a after =
      (q : Persisted) × (s : AppState) × Meanwhile others p q
      × (mutate q.app ≡ ok (a, s))
      × (after.app ≡ s)
      × (after.state_version ≡ Option.map (λ v. suc v) q.state_version)

  attempts_ok :
      Moves others
      → (n : ℕ) (p : Persisted) (v : ℕ) {a : A} {after : Persisted} → p.state_version ≡ some v
      → attempts others mutate n p ≡ (ok a, after)
      → MadeTo p a after
  unfolding attempts
  attempts_ok moves zero p v there h = absurd (cc)
  attempts_ok moves (suc n) p v {a} {after} there h =
      let m = moves n p v there in
      elim (finish_attempt_ok a after (attempts others mutate n (others n p)) p (others n p)
        (mutate p.app) h) [
          | inl k ↦
              let (q, s, way, made, written) =
                attempts_ok moves n (others n p) m.version m.there k in
              (q, s, later n way, made, written)
          | inr (s, made, same, written) ↦
              let kept = m.moved (same_version p (others n p) v m.version there m.there same) in
              (others n p, s, later n now, ap mutate kept ∙ made, written)
        ]

  -- An update that succeeds is made to the very state that it replaces, and moves the version on. Other
  -- processes may write meanwhile, if the row of the version is there, they keep it, and they move it
  -- whenever they change the state.
  pub with_state-Atomic :
      Moves others
      → (p : Persisted) (v : ℕ) {a : A} {after : Persisted} → p.state_version ≡ some v
      → with_state others mutate p ≡ (ok a, after)
      → Atomic p a after
  unfolding with_state
  with_state-Atomic moves p v there h =
      let (q, s, way, made, written) = attempts_ok moves max_write_retries p v there h in
      (
        q,
        s,
        way,
        made,
        ap (λ (r : Persisted). r.app) written,
        ap (λ (r : Persisted). r.state_version) written ∙ next_version q.state_version,
      )

  attempts_err :
      (n : ℕ) (p : Persisted) {e : Failure} {after : Persisted}
      → attempts others mutate n p ≡ (err e, after)
      → Meanwhile others p after
  unfolding attempts
  attempts_err zero p {e} {after} h =
      subst (Meanwhile others p) (ap (λ (t : Result A × Persisted). t.1) h) now
  attempts_err (suc n) p {e} {after} h =
      let next = attempts others mutate n (others n p) in
      elim (finish_attempt_err e after next p (others n p) (mutate p.app) h) [
        | inl k ↦ later n (attempts_err n (others n p) k)
        | inr (inl here) ↦ subst (Meanwhile others p) (sym here) now
        | inr (inr there) ↦ subst (Meanwhile others p) (sym there) (later n now)
      ]

  -- An update that fails has written nothing: the state is one that other processes left.
  pub with_state_err :
      (p : Persisted) {e : Failure} {after : Persisted}
      → with_state others mutate p ≡ (err e, after)
      → Meanwhile others p after
  unfolding with_state
  with_state_err p h = attempts_err max_write_retries p h

  -- An update that no other process disturbs is made at the first attempt.
  pub with_state_undisturbed :
      (p : Persisted) (v : ℕ) {a : A} {s : AppState}
      → ((q : Persisted) → others 2 q ≡ q)
      → p.state_version ≡ some v
      → mutate p.app ≡ ok (a, s)
      → storable s ≡ true
      → with_state others mutate p ≡ (ok a, record { app = s; state_version = some (suc v) })
  unfolding with_state attempts finish_attempt write_state
  with_state_undisturbed p v alone there made fits = ground (arith, alone p, made, fits, there)

module _ {A : Type 0} where
  -- Nothing is written, or what the change makes of the state.
  pub with_state-alone :
      (mutate : AppState → Result (A × AppState)) (p : Persisted)
      → ((with_state alone mutate p).1 ≡ p)
        ⊎ ((a : A) × (s : AppState) × (mutate p.app ≡ ok (a, s))
            × (storable s ≡ true)
            × ((with_state alone mutate p).1 ≡ stored s p))
  unfolding with_state attempts finish_attempt write_state
  with_state-alone mutate p = split (mutate p.app) refl
    where
      split :
          (r : Result (A × AppState))
          → mutate p.app ≡ r
          → ((with_state alone mutate p).1 ≡ p)
            ⊎ ((a : A) × (s : AppState) × (mutate p.app ≡ ok (a, s))
                × (storable s ≡ true)
                × ((with_state alone mutate p).1 ≡ stored s p))
      split (err e) made = inl (ground (arith, made))
      split (ok (a, s)) made = elim (Bool-cases (storable s)) [
        | inl fits ↦ inr (a, s, made, fits, ground (arith, made, fits))
        | inr bad ↦ inl (ground (arith, made, bad))
      ]

-- Every update of the program moves the version as `Moves` asks of other processes.
pub with_state-MovesFrom :
    {A : Type 0} (mutate : AppState → Result (A × AppState)) (p : Persisted) (v : ℕ)
    → p.state_version ≡ some v
    → MovesFrom p (with_state alone mutate p).1
with_state-MovesFrom mutate p v there = elim (with_state-alone mutate p) [
  | inl same ↦ subst (MovesFrom p) (sym same) (MovesFrom-refl p v there)
  | inr (a, s, made, fits, done) ↦ subst (MovesFrom p) (sym done) (stored-MovesFrom s p v there)
]

module _ {A : Type 0} (mutate : AppState → Result (A × AppState)) (p : Persisted) where
  -- An update that no other process disturbs, where it succeeds.
  pub with_state-alone_ok :
      {a : A} {q : Persisted}
      → with_state alone mutate p ≡ (ok a, q)
      → (s : AppState) × (mutate p.app ≡ ok (a, s)) × (q ≡ stored s p)
  unfolding with_state attempts finish_attempt write_state
  with_state-alone_ok {a} {q} h = split (mutate p.app) refl
    where
      split :
          (r : Result (A × AppState))
          → mutate p.app ≡ r
          → (s : AppState) × (r ≡ ok (a, s)) × (q ≡ stored s p)
      split (err e) made = absurd (ground (arith, made, h))
      split (ok (b, s)) made = elim (Bool-cases (storable s)) [
        | inl fits ↦ (s, ground (arith, made, fits, h), ground (arith, made, fits, h))
        | inr bad ↦ absurd (ground (arith, made, bad, h))
      ]
