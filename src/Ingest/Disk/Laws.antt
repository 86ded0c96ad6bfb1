-- ===== src/Ingest/Disk/Laws.antt =====
-- What a change of the state and the files comes to, and where written bytes stand.
use superscriber.Prelude.{
  Text, some, none, ℕ, zero, suc, ◌+◌, ◌≤◌, List, [], ◌∷◌, ◌++◌, ◌≡◌, refl, ap, ap₂, ◌∙◌, false,
  ◌===◌, row, length, arith, text_equal, drop,
}
use mathlib.Core.List.{append-nil}
use superscriber.Domain.Errors.{Result, ok, err}
use superscriber.Workflow.State.{AppState}
use superscriber.Workflow.Store.{Persisted, current_state_version, write_state, stored}
use superscriber.Workflow.Store.Laws.{write_state_ok}
use superscriber.Ingest.Disk.{
  StoredFile, file_keyed, Disk, Ingest, Mutation, temp_file, write_temp, without, take_padded,
  write_at, and_then, commit, mutate,
}

module _ {A B : Type 0} {b : B} {after : Disk} where
  pub and_then_ok :
      (rest : A → Disk → Result B × Disk) (r : Result A) (d : Disk)
      → and_then (r, d) rest ≡ (ok b, after)
      → (a : A) × (r ≡ ok a) × (rest a d ≡ (ok b, after))
  and_then_ok rest (err e) d h = absurd (cc)
  and_then_ok rest (ok a) d h = (a, refl, h)

module _ {A : Type 0} {a : A} {q : Persisted} (p : Persisted) where
  commit_ok :
      (r : Result (A × AppState))
      → commit r p ≡ (ok a, q)
      → (s : AppState) × (r ≡ ok (a, s)) × (q ≡ stored s p)
  commit_ok (err e) h = absurd (cc)
  commit_ok (ok (b, s)) h = wrote (write_state (current_state_version p) s p) refl h
    where
      wrote :
          (o : Result Persisted)
          → write_state (current_state_version p) s p ≡ o
          → (elim o as (λ _. Result A × Persisted) [ ok w ↦ (ok b, w) | err e ↦ (err e, p) ])
            ≡ (ok a, q)
          → (t : AppState) × (◌≡◌ {A = Result (A × AppState)} (ok (b, s)) (ok (a, t)))
            × (q ≡ stored t p)
      wrote (err e) made k = absurd (cc)
      wrote (ok w) made k =
          let (same, is) = write_state_ok (current_state_version p) s p made in
          (s, ground (arith, k), ground (arith, is, k))

module _ {A : Type 0} (m : Mutation A) (w : Ingest) where
  -- A change that goes through: its state is stored, and its files are there.
  pub mutate_ok :
      {a : A} {after : Ingest}
      → mutate m w ≡ (ok a, after)
      → (s : AppState) × (m w.store.app w.disk ≡ (ok (a, s), after.disk))
        × (after.store ≡ stored s w.store)
  unfolding mutate
  mutate_ok {a} {after} h =
      let (s, made, written) =
        commit_ok {a = a} {q = after.store} w.store (m w.store.app w.disk).0 (ground (arith, h)) in
      (s, ground (arith, made, h), written)

pub take_padded-length : (xs : List ℕ) → take_padded (length xs) xs ≡ xs
take_padded-length [] = refl
take_padded-length (x ∷ xs) = ap (λ (t : List ℕ). x ∷ t) (take_padded-length xs)

pub drop-length : (n : ℕ) (xs : List ℕ) → length xs ≤ n → drop n xs ≡ []
drop-length zero [] h = refl
drop-length zero (x ∷ xs) h = absurd (omega arith)
drop-length (suc n) [] h = refl
drop-length (suc n) (x ∷ xs) h = drop-length n xs (omega arith)

-- Bytes that are written at the end of a file come after those that are there.
pub write_at-length : (xs chunk : List ℕ) → write_at (length xs) chunk xs ≡ xs ++ chunk
unfolding write_at
write_at-length xs chunk = ap₂ ◌++◌ (take_padded-length xs) (
    ap (λ (t : List ℕ). chunk ++ t) (drop-length (length xs + length chunk) xs (omega arith))
    ∙ append-nil chunk)

pub temp_file-write_temp :
    (id : Text) (bytes : List ℕ) (d : Disk)
    → temp_file id (write_temp id bytes d) ≡ some (record { name = id; bytes = bytes })
temp_file-write_temp id bytes d = ground arith

pub row-without_same :
    (name : Text) (files : List StoredFile) → row name (without name files) ≡ none
row-without_same name [] = refl
row-without_same name (f ∷ files) = ground (arith, row-without_same name files)

pub row-without_other :
    (name other : Text) (files : List StoredFile)
    → (name === other) ≡ false
    → row other (without name files) ≡ row other files
row-without_other name other [] h = refl
row-without_other name other (f ∷ files) h = ground (arith, h, row-without_other name other files h)
