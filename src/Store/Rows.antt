-- ===== src/Store/Rows.antt =====
-- What the statements on the table of executions do to the row of a key and to the rows of other keys.
use flow_ctl.Prelude.{
  ◌≡◌, refl, ap, ◌≢◌, ℕ, Bool, true, false, Option, none, some, List, [], ◌∷◌, eqb, arith,
  Bool-cases, inl, inr, if◌then◌else◌,
}
use flow_ctl.Store.{ExecutionRow, Executions, row_of, row_then, update_row, collides, insert_row}

-- If the statement has an effect, the table has `Q` after it.
abbrev pub After : {A : Type 0} → (List A → Type 0) → Option (List A) → Type 0
After Q none = Unit
After Q (some rows) = Q rows

pub After-row_then :
    {A : Type 0} (Q R : List A → Type 0) (r : A) (o : Option (List A))
    → ((rows : List A) → Q rows → R (r ∷ rows))
    → After Q o
    → After R (row_then r o)
After-row_then Q R r none f h = tt
After-row_then Q R r (some rows) f h = f rows h

module _ (id : ℕ) (p : ExecutionRow → Bool) (f : ExecutionRow → ExecutionRow) where
  -- The row was there and passed the condition, and it is changed.
  abbrev pub IsChanged : (rows after : Executions) → Type 0
  IsChanged rows after =
      (r : ExecutionRow) × (row_of id rows ≡ some r) × (p r ≡ true) × (row_of id after ≡ some (f r))

  abbrev pub KeepsOthers : (rows after : Executions) → Type 0
  KeepsOthers rows after = (j : ℕ) → j ≢ id → row_of j after ≡ row_of j rows

  pub update_row-IsChanged :
      (rows : Executions)
      → ((r : ExecutionRow) → (f r).id ≡ r.id)
      → After (IsChanged rows) (update_row id p f rows)
  unfolding update_row row_of
  update_row-IsChanged [] k = tt
  update_row-IsChanged (r ∷ rows) k = elim (Bool-cases (eqb r.id id)) [
    | inl e ↦ elim (Bool-cases (p r)) [
      | inl q ↦ rw (e, q) (r, rw e refl, q, rw (k r, e) refl)
      | inr q ↦ rw (e, q) tt
    ]
    | inr e ↦ rw e (
        After-row_then (IsChanged rows) _ r (update_row id p f rows) (λ after h. rw e h)
          (update_row-IsChanged rows k))
  ]

  pub update_row-KeepsOthers :
      (rows : Executions)
      → ((r : ExecutionRow) → (f r).id ≡ r.id)
      → After (KeepsOthers rows) (update_row id p f rows)
  unfolding update_row row_of
  update_row-KeepsOthers [] k = tt
  update_row-KeepsOthers (r ∷ rows) k = elim (Bool-cases (eqb r.id id)) [
    | inl e ↦ elim (Bool-cases (p r)) [
      | inl q ↦ rw (e, q) (λ j ne. other j (ground (arith, e, ne)))
      | inr q ↦ rw (e, q) tt
    ]
    | inr e ↦ rw e (
        After-row_then (KeepsOthers rows) _ r (update_row id p f rows)
          (λ after h j ne. ap (λ x. if eqb r.id j then some r else x) (h j ne))
          (update_row-KeepsOthers rows k))
  ]
    where
      other : (j : ℕ) → eqb r.id j ≡ false → row_of j (f r ∷ rows) ≡ row_of j (r ∷ rows)
      other j ne = rw (k r, ne) refl

-- An insertion keeps the rows that there are.
abbrev pub KeepsRows : (rows after : Executions) → Type 0
KeepsRows rows after = (j : ℕ) (r : ExecutionRow) → row_of j rows ≡ some r → row_of j after ≡ some r

pub insert_row-KeepsRows :
    (s : ExecutionRow) (rows : Executions) → After (KeepsRows rows) (insert_row s rows)
unfolding insert_row row_of
insert_row-KeepsRows s [] = λ j r h. cc
insert_row-KeepsRows s (t ∷ rows) = elim (Bool-cases (collides t s)) [
  | inl e ↦ rw e tt
  | inr e ↦
      rw e
        (After-row_then (KeepsRows rows) _ t (insert_row s rows) step (insert_row-KeepsRows s rows))
]
  where
    step : (after : Executions) → KeepsRows rows after → KeepsRows (t ∷ rows) (t ∷ after)
    step after h j r = elim (Bool-cases (eqb t.id j)) [
      | inl e ↦ rw e (λ q. q)
      | inr e ↦ rw e (λ q. h j r q)
    ]
