-- ===== src/Casefile/Store/Succeeds.antt =====
-- That an action succeeds, with a rule for each way to build an action.
use superscriber.Prelude.{ℕ, some, ◌≡◌, refl, arith}
use superscriber.Domain.Errors.{ok}
use superscriber.Casefile.Store.{World}
use superscriber.Casefile.Store.Exec.{Exec, ◌>>=◌, pure, run_governed_transaction, committed}

-- The action gives a value, and keeps the row of the state version.
pub record Succeeds {A : Type 0} (m : Exec A) (w : World) : Type 0 where
  pub value : A
  pub after : World
  pub ran : m w ≡ (ok value, after)
  pub kept : after.state_version ≡ w.state_version

module _ {A B : Type 0} {w : World} where
  pub Succeeds-bind :
      (m : Exec A) (k : A → Exec B) (a : A) (v : World)
      → m w ≡ (ok a, v)
      → v.state_version ≡ w.state_version
      → Succeeds (k a) v
      → Succeeds (m >>= k) w
  Succeeds-bind m k a v first same s = record {
    value = s.value;
    after = s.after;
    ran = ground (arith, first, s.ran);
    kept = ground (arith, same, s.kept);
  }

module _ {A : Type 0} {w : World} where
  pub Succeeds-pure : (a : A) → Succeeds (pure a) w
  Succeeds-pure a = record { value = a; after = w; ran = refl; kept = refl }

module _ {A : Type 0} where
  -- A transaction succeeds if its operation does and the row of the state version is there.
  pub transaction-Succeeds :
      (operation : ℕ → Exec A) (now n : ℕ) (w : World)
      → Succeeds (operation now) w
      → w.state_version ≡ some n
      → (a : A) × (w' : World) × (run_governed_transaction operation now w ≡ (ok a, w'))
  unfolding run_governed_transaction
  transaction-Succeeds operation now n w s there =
      (s.value, committed s.after, ground (arith, s.ran, s.kept, there))
