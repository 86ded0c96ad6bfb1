-- ===== src/Casefile/Store/Ensures.antt =====
-- What an action that succeeds has established, with a rule for each way to build an action.
use superscriber.Prelude.{arith, ℕ, ◌≡◌, subst, sym}
use superscriber.Domain.Errors.{Result, ok, err}
use superscriber.Casefile.Store.{Db, World}
use superscriber.Casefile.Store.Exec.{
  random_uuid, Exec, ◌>>=◌, ◌>>◌, pure, query, lift, modify, bind-eq_ok, query-bind_ok,
  run_governed_transaction, run_governed_transaction_ok, committed,
}

-- If `m` succeeds from `w` then `P` holds of its value and of the world that it leaves.
pub record Ensures {A : Type 0} (m : Exec A) (w : World) (P : A → World → Type 0) : Type 0 where
  pub at : (a : A) (v : World) → m w ≡ (ok a, v) → P a v

module _ {A B : Type 0} {P : B → World → Type 0} {k : A → Exec B} {w : World} where
  pub Ensures-bind :
      (m : Exec A) (Q : A → World → Type 0)
      → Ensures m w Q
      → ((a : A) (v : World) → Q a v → Ensures (k a) v P)
      → Ensures (m >>= k) w P
  Ensures-bind m Q first rest = record {
    at = λ b w' h.
        let (a, v, ran, after) = bind-eq_ok m k w h in (rest a v (first.at a v ran)).at b w' after;
  }

  -- A step that leaves the world as it is.
  pub Ensures-read :
      (m : Exec A) (Q : A → Type 0)
      → Ensures m w (λ a v. (v ≡ w) × Q a)
      → ((a : A) → Q a → Ensures (k a) w P)
      → Ensures (m >>= k) w P
  Ensures-read m Q first rest =
      Ensures-bind m (λ a v. (v ≡ w) × Q a) first
        (λ a v h. subst (λ u. Ensures (k a) u P) (sym h.0) (rest a h.1))

  pub Ensures-query :
      (f : Db → Result A)
      → ((a : A) → f w.db ≡ ok a → Ensures (k a) w P)
      → Ensures (query f >>= k) w P
  Ensures-query f rest = record {
    at = λ b w' h. let (a, read, after) = query-bind_ok k w f h in (rest a read).at b w' after;
  }

  pub Ensures-lift :
      (r : Result A) → ((a : A) → r ≡ ok a → Ensures (k a) w P) → Ensures (lift r >>= k) w P
  Ensures-lift r rest = Ensures-query (λ _. r) rest

module _ {B : Type 0} {P : B → World → Type 0} {k : Exec B} {w : World} where
  pub Ensures-modify :
      (f : Db → Db) → Ensures k (record w { db = f w.db }) P → Ensures (modify f >> k) w P
  Ensures-modify f rest = record { at = λ b w' h. rest.at b w' h }

abbrev Holds : {A : Type 0} → (A → World → Type 0) → Result A × World → Type 0
Holds P (ok a, w) = P a w
Holds P (err e, w) = Unit

module _ {A : Type 0} {P : A → World → Type 0} {w : World} where
  pub Ensures-pure : (a : A) → P a w → Ensures (pure a) w P
  Ensures-pure a h = record { at = λ b v e. subst (Holds P) e h }

  pub Ensures-weaken :
      {m : Exec A} {Q : A → World → Type 0}
      → Ensures m w Q
      → ((a : A) (v : World) → Q a v → P a v)
      → Ensures m w P
  Ensures-weaken first then_so = record { at = λ a v h. then_so a v (first.at a v h) }

  -- A transaction ensures of its committed world what its operation ensures.
  pub Ensures-transaction :
      (operation : ℕ → Exec A) (now : ℕ)
      → Ensures (operation now) w (λ a v. P a (committed v))
      → Ensures (run_governed_transaction operation now) w P
  Ensures-transaction operation now inner = record {
    at = λ a v h.
        let (u, ran, done) = run_governed_transaction_ok operation now w v a h in
        rw done (inner.at a u ran);
  }

-- Drawing an id leaves the database.
pub random_uuid-Ensures : (w : World) → Ensures random_uuid w (λ id v. v.db ≡ w.db)
unfolding random_uuid
random_uuid-Ensures w = record { at = λ id v h. ground arith }
