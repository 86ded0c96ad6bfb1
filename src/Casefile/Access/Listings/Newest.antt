-- ===== src/Casefile/Access/Listings/Newest.antt =====
-- Summaries of assignments, the newest first (the order of listAssignments in
-- src/server/access/service.ts).
use superscriber.Prelude.{
  Text, ℕ, Bool, true, false, List, [], ◌∷◌, ◌≡◌, ◌≤◌, refl, ap, ◌∙◌, arith, leb, if◌then◌else◌,
  filter_if, All, Bool-cases, inl, inr,
}
use superscriber.Domain.Models.{AssignmentRole}

pub record AssignmentSummary : Type 0 where
  pub id : Text
  pub recording_id : Text
  pub user_id : Text
  pub user_display_name : Text
  pub user_email : Text
  pub user_role : AssignmentRole
  pub created_at : ℕ
  pub updated_at : ℕ

unfoldable pub put_in_order : AssignmentSummary → List AssignmentSummary → List AssignmentSummary
put_in_order a [] = a ∷ []
put_in_order a (b ∷ rows) =
    let rest = put_in_order a rows in
    if leb b.created_at a.created_at then a ∷ b ∷ rows else b ∷ rest

unfoldable pub newest_first : List AssignmentSummary → List AssignmentSummary
unfolding put_in_order
newest_first [] = []
newest_first (a ∷ rows) = put_in_order a (newest_first rows)

-- No row is newer than `n`.
abbrev pub NotAfter : ℕ → List AssignmentSummary → Type 0
NotAfter n rows = All (λ b. b.created_at ≤ n) rows

abbrev pub Ordered : List AssignmentSummary → Type 0
Ordered [] = Unit
Ordered (a ∷ rows) = NotAfter a.created_at rows × Ordered rows

NotAfter-le : (m n : ℕ) (rows : List AssignmentSummary) → m ≤ n → NotAfter m rows → NotAfter n rows
NotAfter-le m n [] below all = tt
NotAfter-le m n (b ∷ rows) below (first, all) =
    ((omega (arith, first, below)), NotAfter-le m n rows below all)

put_in_order-NotAfter :
    (n : ℕ) (a : AssignmentSummary) (rows : List AssignmentSummary)
    → a.created_at ≤ n
    → NotAfter n rows
    → NotAfter n (put_in_order a rows)
unfolding put_in_order
put_in_order-NotAfter n a [] below all = (below, tt)
put_in_order-NotAfter n a (b ∷ rows) below (first, all) =
    elim (Bool-cases (leb b.created_at a.created_at)) [
      | inl e ↦ rw e (below, (first, all))
      | inr e ↦ rw e (first, put_in_order-NotAfter n a rows below all)
    ]

put_in_order-Ordered :
    (a : AssignmentSummary) (rows : List AssignmentSummary)
    → Ordered rows
    → Ordered (put_in_order a rows)
unfolding put_in_order
put_in_order-Ordered a [] sorted = (tt, tt)
put_in_order-Ordered a (b ∷ rows) (first, sorted) =
    elim (Bool-cases (leb b.created_at a.created_at)) [
      | inl e ↦
          let below : b.created_at ≤ a.created_at = ground (arith, e) in
          rw e ((below, NotAfter-le b.created_at a.created_at rows below first), (first, sorted))
      | inr e ↦
          let above : a.created_at ≤ b.created_at = ground (arith, e) in
          rw e (
            put_in_order-NotAfter b.created_at a rows above first,
            put_in_order-Ordered a rows sorted,
          )
    ]

newest_first-Ordered : (rows : List AssignmentSummary) → Ordered (newest_first rows)
unfolding newest_first
newest_first-Ordered [] = tt
newest_first-Ordered (a ∷ rows) =
    put_in_order-Ordered a (newest_first rows) (newest_first-Ordered rows)

module _ (p : AssignmentSummary → Bool) where
  -- A row that is not older than any comes first.
  put_in_order_newest :
      (a : AssignmentSummary) (rows : List AssignmentSummary)
      → NotAfter a.created_at rows
      → put_in_order a rows ≡ a ∷ rows
  unfolding put_in_order
  put_in_order_newest a [] all = refl
  put_in_order_newest a (b ∷ rows) (first, all) = ground (arith, first)

  filter_if-NotAfter :
      (n : ℕ) (rows : List AssignmentSummary) → NotAfter n rows → NotAfter n (filter_if p rows)
  filter_if-NotAfter n [] all = tt
  filter_if-NotAfter n (b ∷ rows) (first, all) = elim (Bool-cases (p b)) [
    | inl e ↦ rw e (first, filter_if-NotAfter n rows all)
    | inr e ↦ rw e (filter_if-NotAfter n rows all)
  ]

  -- A row that is left out may be put in or not.
  filter_if_skipped :
      (a : AssignmentSummary) (rows : List AssignmentSummary)
      → p a ≡ false
      → filter_if p (put_in_order a rows) ≡ filter_if p rows
  unfolding put_in_order
  filter_if_skipped a [] out = ground (arith, out)
  filter_if_skipped a (b ∷ rows) out = elim (Bool-cases (leb b.created_at a.created_at)) [
    | inl e ↦ rw e (ground (arith, out))
    | inr e ↦ rw e (ground (arith, filter_if_skipped a rows out))
  ]

  filter_if-put_in_order :
      (a : AssignmentSummary) (rows : List AssignmentSummary)
      → p a ≡ true
      → Ordered rows
      → filter_if p (put_in_order a rows) ≡ put_in_order a (filter_if p rows)
  unfolding put_in_order
  filter_if-put_in_order a [] taken sorted = ground (arith, taken)
  filter_if-put_in_order a (b ∷ rows) taken (first, sorted) =
      elim (Bool-cases (leb b.created_at a.created_at)) [
        | inl e ↦
            let below : b.created_at ≤ a.created_at = ground (arith, e) in
            let all = NotAfter-le b.created_at a.created_at rows below first in
            ground (
              arith,
              e,
              taken,
              put_in_order_newest a (filter_if p rows) (filter_if-NotAfter a.created_at rows all),
            )
        | inr e ↦ ground (arith, e, taken, filter_if-put_in_order a rows taken sorted)
      ]

  -- The newest of some rows are the newest of all, without the others.
  pub filter_if-newest_first :
      (rows : List AssignmentSummary)
      → filter_if p (newest_first rows) ≡ newest_first (filter_if p rows)
  unfolding newest_first
  filter_if-newest_first [] = refl
  filter_if-newest_first (a ∷ rows) =
      let rest = filter_if-newest_first rows in
      elim (Bool-cases (p a)) [
        | inl e ↦ rw e (
            filter_if-put_in_order a (newest_first rows) e (newest_first-Ordered rows)
            ∙ ap (put_in_order a) rest)
        | inr e ↦ rw e (filter_if_skipped a (newest_first rows) e ∙ rest)
      ]
