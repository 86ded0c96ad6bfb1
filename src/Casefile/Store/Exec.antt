-- ===== src/Casefile/Store/Exec.antt =====
-- Actions on the database that may fail, and transactions (src/server/db/transaction.ts). What an
-- action wrote before it failed is still written: a transaction takes it back.
use superscriber.Prelude.{Text, ℕ, suc, none, some, ◌≡◌, refl, ap, sym, arith}
use mathlib.Core.Option
use superscriber.Domain.Errors.{Failure, Result, ok, err, state_version_missing}
use superscriber.Casefile.Store.{Db, World}

abbrev pub Exec : Type 0 → Type 0
Exec A = World → Result A × World

module _ {A B : Type 0} where
  abbrev pub continue : (A → Exec B) → Result A → World → Result B × World
  continue f (ok a) w = f a w
  continue f (err e) w = (err e, w)

  infixl 5 ◌>>=◌
  abbrev pub ◌>>=◌ : Exec A → (A → Exec B) → Exec B
  ◌>>=◌ m f w = let (r, w') = m w in continue f r w'

  -- An action that succeeds has first parts that do.
  pub bind-eq_ok :
      (m : Exec A) (f : A → Exec B) (w : World) {b : B} {w' : World}
      → (m >>= f) w ≡ (ok b, w')
      → (a : A) × (v : World) × (m w ≡ (ok a, v)) × (f a v ≡ (ok b, w'))
  bind-eq_ok m f w {b} {w'} h = split (m w).0 (m w).1 refl h
    where
      split :
          (r : Result A) (v : World)
          → m w ≡ (r, v)
          → continue f r v ≡ (ok b, w')
          → (a : A) × (v : World) × (m w ≡ (ok a, v)) × (f a v ≡ (ok b, w'))
      split (ok a) v e k = (a, v, e, k)
      split (err d) v e k = absurd (cc)

module _ {B : Type 0} where
  infixl 5 ◌>>◌
  abbrev pub ◌>>◌ : Exec (Unit {0}) → Exec B → Exec B
  m >> k = m >>= λ _. k

module _ {A : Type 0} where
  abbrev pub pure : A → Exec A
  pure a w = (ok a, w)

  abbrev pub raise : Failure → Exec A
  raise e w = (err e, w)

  -- A computation that may fail, on the database as it stands.
  abbrev pub query : (Db → Result A) → Exec A
  query f w = (f w.db, w)

  abbrev pub lift : Result A → Exec A
  lift r w = (r, w)

  abbrev pub gets : (Db → A) → Exec A
  gets f w = (ok (f w.db), w)

abbrev pub modify : (Db → Db) → Exec (Unit {0})
modify f w = (ok tt, record w { db = f w.db })

-- `crypto.randomUUID()`.
unfoldable pub random_uuid : Exec Text
random_uuid w = (ok (w.uuids 0), record w { uuids = λ n. w.uuids (suc n) })

-- The state version is one row: without it the update changes nothing, and the transaction fails.
unfoldable pub advance_state_version : Exec (Unit {0})
advance_state_version w = elim w.state_version [
  | some v ↦ (ok tt, record w { db = record w.db { state_version = some (suc v) } })
  | none ↦ (err state_version_missing, w)
]

module _ {A : Type 0} where
  unfoldable pub governed_body : (ℕ → Exec A) → ℕ → Exec A
  unfolding advance_state_version
  governed_body operation now = do result ← operation now; advance_state_version; pure result

  abbrev pub or_rollback : Db → Result A → World → Result A × World
  or_rollback before (ok a) w = (ok a, w)
  or_rollback before (err e) w = (err e, record w { db = before })

  -- `sqlite.transaction(…)`: it commits, or takes back what was written and fails as its body does.
  -- Inside another transaction it is a savepoint, which does the same.
  unfoldable pub run_governed_transaction : (ℕ → Exec A) → ℕ → Exec A
  unfolding governed_body
  run_governed_transaction operation now w =
      let (r, w') = governed_body operation now w in or_rollback w.db r w'

  -- The transaction that takes its lock at once; one process at a time is modelled.
  abbrev pub run_immediate_governed_transaction : (ℕ → Exec A) → ℕ → Exec A
  run_immediate_governed_transaction operation now w = run_governed_transaction operation now w

module _ {A B : Type 0} (k : A → Exec B) (w : World) {b : B} {w' : World} where
  -- A reading step leaves the database to the steps after it.
  pub query-bind_ok :
      (f : Db → Result A)
      → (query f >>= k) w ≡ (ok b, w')
      → (a : A) × (f w.db ≡ ok a) × (k a w ≡ (ok b, w'))
  query-bind_ok f h = split (f w.db) refl h
    where
      split :
          (r : Result A)
          → f w.db ≡ r
          → continue k r w ≡ (ok b, w')
          → (a : A) × (f w.db ≡ ok a) × (k a w ≡ (ok b, w'))
      split (ok a) e h = (a, e, h)
      split (err d) e h = absurd (cc)

-- The database of a transaction that succeeds, from the one that its operation leaves.
abbrev pub committed : World → World
committed w = record w {
  db = record w.db { state_version = Option.map (λ v. suc v) w.state_version };
}

advance_state_version_lem :
    (w w' : World) → advance_state_version w ≡ (ok tt, w') → w' ≡ committed w
unfolding advance_state_version
advance_state_version_lem w w' h = ground arith

module _ {A : Type 0} where
  or_rollback_ok :
      (before : Db) (p : Result A × World) (a : A) (w' : World)
      → or_rollback before p.0 p.1 ≡ (ok a, w')
      → p ≡ (ok a, w')
  or_rollback_ok before (ok b, v) a w' h = h
  or_rollback_ok before (err e, v) a w' h = absurd (cc)

  -- A transaction that fails leaves the database as it was.
  pub run_governed_transaction_err :
      (operation : ℕ → Exec A) (now : ℕ) (w w' : World) (e : Failure)
      → run_governed_transaction operation now w ≡ (err e, w')
      → w'.db ≡ w.db
  unfolding run_governed_transaction
  run_governed_transaction_err operation now w w' e h =
      split (governed_body operation now w).0 (governed_body operation now w).1 h
    where
      split : (r : Result A) (v : World) → or_rollback w.db r v ≡ (err e, w') → w'.db ≡ w.db
      split (ok a) v k = absurd (cc)
      split (err d) v k = ap (λ (t : Result A × World). t.1.db) (sym k)

  -- A transaction that succeeds has run its operation, and has then advanced the version.
  pub run_governed_transaction_ok :
      (operation : ℕ → Exec A) (now : ℕ) (w w' : World) (a : A)
      → run_governed_transaction operation now w ≡ (ok a, w')
      → (v : World) × (operation now w ≡ (ok a, v)) × (w' ≡ committed v)
  unfolding run_governed_transaction
  run_governed_transaction_ok operation now w w' a h =
      let body = or_rollback_ok w.db (governed_body operation now w) a w' h in
      let (b, v, ran, rest) = bind-eq_ok (operation now) _ w body in
      let (t, u, advanced, done) = bind-eq_ok advance_state_version (λ _. pure b) v rest in
      (v, ground (arith, ran, done), ground (arith, advance_state_version_lem v u, done))

  -- A check of the input and then a transaction: if it fails, nothing is written.
  pub checked_transaction_err :
      (check : Result (Unit {0})) (operation : ℕ → Exec A) (now : ℕ) (w w' : World) (e : Failure)
      → (lift check >>= λ _. run_governed_transaction operation now) w ≡ (err e, w')
      → w'.db ≡ w.db
  checked_transaction_err (err d) operation now w w' e h = ground arith
  checked_transaction_err (ok t) operation now w w' e h =
      run_governed_transaction_err operation now w w' e h
