-- ===== src/Prelude/Tables.antt =====
-- The rows of a database table: the first row that fits, and an update of the rows that fit.
use mathlib.Core.Path.{◌≡◌, refl}
use mathlib.Core.Bool.{Bool, true, false, not, ◌&&◌}
use mathlib.Core.Option
use mathlib.Core.Option.{Option, none, some}
use mathlib.Core.List.{List, [], ◌∷◌, ◌++◌, map}
use native.Mathlib.Omega.{arith}
use mathlib.Core.Logic.{inl, inr}
use superscriber.Prelude.Tests.{if◌then◌else◌, Bool-cases}
use superscriber.Prelude.Lists.{find, any, All}
use superscriber.Prelude.Strings.{Text, ◌===◌, text_equal}

-- A table's rows have a primary key.
pub record Keyed (A : Type 0) : Type 0 where
  pub key : A → Text

module _ {A : Type 0} where
  -- `update … set … where …`.
  abbrev pub update_where : (A → Bool) → (A → A) → List A → List A
  update_where p f rows = map (λ r. if p r then f r else r) rows

module _ {A : Type 0} ⦃k : Keyed A⦄ where
  -- `select … where id = … get()`.
  abbrev pub row : Text → List A → Option A
  row id rows = find (λ r. k.key r === id) rows

  abbrev pub update_row : Text → (A → A) → List A → List A
  update_row id f rows = update_where (λ r. k.key r === id) f rows

  -- An object that `find` gives is changed in place.
  abbrev pub update_first : Text → (A → A) → List A → List A
  update_first id f [] = []
  update_first id f (r ∷ rows) = if k.key r === id then f r ∷ rows else r ∷ update_first id f rows

  abbrev pub has_key : Text → List A → Bool
  has_key id rows = any (λ r. k.key r === id) rows

  -- No two rows have the same key.
  abbrev pub distinct_keys : List A → Bool
  distinct_keys [] = true
  distinct_keys (r ∷ rows) = not (has_key (k.key r) rows) && distinct_keys rows

  -- A row that is found has the key that it was looked up by.
  pub row-key : (id : Text) (rows : List A) (r : A) → row id rows ≡ some r → k.key r ≡ id
  row-key id [] r h = ground arith
  row-key id (x ∷ rows) r h = ground (arith, row-key id rows r)

  pub row-update_row :
      (id j : Text) (f : A → A) (rows : List A)
      → ((r : A) → k.key (f r) ≡ k.key r)
      → row j (update_row id f rows) ≡ (if id === j then Option.map f (row j rows) else row j rows)
  row-update_row id j f [] h = ground arith
  row-update_row id j f (x ∷ rows) h = ground (arith, h x, row-update_row id j f rows h)

  pub row-update_first :
      (id j : Text) (f : A → A) (rows : List A)
      → ((r : A) → k.key (f r) ≡ k.key r)
      → row j (update_first id f rows)
        ≡ (if id === j then Option.map f (row j rows) else row j rows)
  row-update_first id j f [] h = ground arith
  row-update_first id j f (x ∷ rows) h = ground (arith, h x, row-update_first id j f rows h)

  pub row-append :
      (id : Text) (x : A) (rows : List A)
      → has_key (k.key x) rows ≡ false
      → row id (rows ++ x ∷ []) ≡ (if k.key x === id then some x else row id rows)
  row-append id x [] h = refl
  row-append id x (y ∷ rows) h = ground (arith, row-append id x rows)

  -- An update guarded by a further test.
  pub row-update_where :
      (id j : Text) (still : A → Bool) (f : A → A) (rows : List A)
      → ((r : A) → k.key (f r) ≡ k.key r)
      → row j (update_where (λ r. k.key r === id && still r) f rows) ≡ (
          if id === j
          then Option.map (λ r. if still r then f r else r) (row j rows)
          else row j rows)
  row-update_where id j still f [] h = ground arith
  row-update_where id j still f (x ∷ rows) h =
      ground (arith, h x, row-update_where id j still f rows h)

  pub has_key-update_row :
      (id j : Text) (f : A → A) (rows : List A)
      → ((r : A) → k.key (f r) ≡ k.key r)
      → has_key j (update_row id f rows) ≡ has_key j rows
  has_key-update_row id j f [] h = refl
  has_key-update_row id j f (x ∷ rows) h = ground (arith, h x, has_key-update_row id j f rows h)

  pub has_key-update_where :
      (id : Text) (p : A → Bool) (f : A → A) (rows : List A)
      → ((a : A) → k.key (f a) ≡ k.key a)
      → has_key id (update_where p f rows) ≡ has_key id rows
  has_key-update_where id p f [] same = refl
  has_key-update_where id p f (x ∷ rows) same =
      ground (arith, same x, has_key-update_where id p f rows same)

  pub has_key-update_first :
      (id j : Text) (f : A → A) (rows : List A)
      → ((r : A) → k.key (f r) ≡ k.key r)
      → has_key j (update_first id f rows) ≡ has_key j rows
  has_key-update_first id j f [] h = refl
  has_key-update_first id j f (x ∷ rows) h = ground (arith, h x, has_key-update_first id j f rows h)

  -- What an update keeps of every row, it keeps of the table.
  pub All-update_first {κ} :
      (P : A → Type κ) (id : Text) (f : A → A) (rows : List A)
      → ((r : A) → P r → P (f r))
      → All P rows
      → All P (update_first id f rows)
  All-update_first P id f [] keep all = tt
  All-update_first P id f (x ∷ rows) keep all = elim (Bool-cases (k.key x === id)) [
    | inl e ↦ rw (e, if◌then◌else◌) (keep x all.0, all.1)
    | inr e ↦ rw (e, if◌then◌else◌) (all.0, All-update_first P id f rows keep all.1)
  ]

module _ {A : Type 0} where
  pub All-update_where {κ} :
      (P : A → Type κ) (p : A → Bool) (f : A → A) (rows : List A)
      → ((r : A) → P r → P (f r))
      → All P rows
      → All P (update_where p f rows)
  All-update_where P p f [] keep all = tt
  All-update_where P p f (x ∷ rows) keep all = elim (Bool-cases (p x)) [
    | inl e ↦ rw (e, if◌then◌else◌) (keep x all.0, All-update_where P p f rows keep all.1)
    | inr e ↦ rw (e, if◌then◌else◌) (all.0, All-update_where P p f rows keep all.1)
  ]
