-- ===== src/Handlers/Approval.antt =====
-- internal/api/handler/approval.go: `Approve` and `Reject`.
use flow_ctl.Store.{row_then}
use flow_ctl.Store.Rows.{After, After-row_then}
use flow_ctl.Prelude.{
  ◌≡◌, sym, ap, ◌∙◌, false≢true, &&-eq-true, ℕ, String, Bool, true, false, Option, none, some, List,
  [], ◌∷◌, ◌&&◌, eqb, if◌then◌else◌, Bool-cases, inl, inr,
}
use flow_ctl.Model.Execution.{ApprovalStatus, pending, approved, rejected}

-- Of a row of the table, what the handlers read or write.
pub record ApprovalRow : Type 0 where
  pub id : ℕ
  pub tenant_id : ℕ
  pub execution_id : ℕ
  pub status : ApprovalStatus
  pub responded_at : Option ℕ
  pub responded_by : Option ℕ
  pub comment : String

abbrev pub is_pending : ApprovalStatus → Bool
is_pending pending = true
is_pending _ = false

pub data Answer : Type 0 where
  failure : (code : ℕ) → (message : String) → Answer
  done : ApprovalStatus → Answer

pub record Request : Type 0 where
  pub tenant : ℕ
  pub user : ℕ
  pub now : ℕ
  pub approval : Option ℕ
  pub comment : String

abbrev pub answered : ApprovalStatus → Request → ApprovalRow → ApprovalRow
answered status q a = record a {
  status = status;
  responded_at = some q.now;
  responded_by = some q.user;
  comment = q.comment;
}

-- `UPDATE approvals … WHERE id = $4 AND tenant_id = $5 AND status = 'pending'`; none if no row is affected.
unfoldable pub answer_row :
    ApprovalStatus → Request → (id : ℕ) → List ApprovalRow → Option (List ApprovalRow)
answer_row status q id [] = none
answer_row status q id (a ∷ rows) =
    let rest = row_then a (answer_row status q id rows) in
    if eqb a.id id
    then (if eqb a.tenant_id q.tenant && is_pending a.status
        then some (answered status q a ∷ rows)
        else none)
    else rest

-- The answer by the rows affected.
abbrev pub affected :
    ApprovalStatus → List ApprovalRow → Option (List ApprovalRow) → Answer × List ApprovalRow
affected status rows none = (failure 409 "approval not found or already resolved", rows)
affected status rows (some rows') = (done status, rows')

-- Both handlers, which differ in the status and the message; `updates` says whether the statement succeeds.
unfoldable pub respond :
    ApprovalStatus
    → (message : String) → (updates : Bool) → Request
    → (id : Option ℕ) → List ApprovalRow
    → Answer × List ApprovalRow
unfolding answer_row
respond status message updates q none rows = (failure 400 "invalid approval ID", rows)
respond status message true q (some id) rows = affected status rows (answer_row status q id rows)
respond status message false q (some id) rows = (failure 500 message, rows)

unfoldable pub approve : (updates : Bool) → Request → List ApprovalRow → Answer × List ApprovalRow
unfolding respond
approve updates q rows = respond approved "failed to approve" updates q q.approval rows

unfoldable pub reject : (updates : Bool) → Request → List ApprovalRow → Answer × List ApprovalRow
unfolding respond
reject updates q rows = respond rejected "failed to reject" updates q q.approval rows

-- The requests, one after the other.
pub data Call : Type 0 where
  approving : (updates : Bool) → Request → Call
  rejecting : (updates : Bool) → Request → Call

unfoldable pub call_all : List Call → List ApprovalRow → List ApprovalRow
unfolding approve reject
call_all [] rows = rows
call_all (approving updates q ∷ calls) rows = call_all calls (approve updates q rows).1
call_all (rejecting updates q ∷ calls) rows = call_all calls (reject updates q rows).1

unfoldable pub approval_of : (id : ℕ) → List ApprovalRow → Option ApprovalRow
approval_of id [] = none
approval_of id (a ∷ rows) = let rest = approval_of id rows in if eqb a.id id then some a else rest

-- What is answered stays as it is.
abbrev KeepsAnswered : (rows after : List ApprovalRow) → Type 0
KeepsAnswered rows after =
    (j : ℕ) (a : ApprovalRow)
    → is_pending a.status ≡ false
    → approval_of j rows ≡ some a
    → approval_of j after ≡ some a

-- A row that waits is not the answered one.
pick :
    (c : Bool) (a x y : ApprovalRow) (o : Option ApprovalRow)
    → is_pending x.status ≡ true
    → is_pending a.status ≡ false
    → (if c then some x else o) ≡ some a
    → (if c then some y else o) ≡ some a
pick true a x y o p h g =
    absurd (false≢true (sym h ∙ ap (λ r. is_pending r.status) (sym (some-inj g)) ∙ p))
  where
    some-inj : {a b : ApprovalRow} → some a ≡ some b → a ≡ b
    some-inj p = cc
pick false a x y o p h g = g

answer_row-KeepsAnswered :
    (status : ApprovalStatus) (q : Request) (id : ℕ) (rows : List ApprovalRow)
    → After (KeepsAnswered rows) (answer_row status q id rows)
unfolding answer_row approval_of
answer_row-KeepsAnswered status q id [] = tt
answer_row-KeepsAnswered status q id (b ∷ rows) = elim (Bool-cases (eqb b.id id)) [
  | inl e ↦ elim (Bool-cases (eqb b.tenant_id q.tenant && is_pending b.status)) [
    | inl p ↦ rw (e, p) (changed p)
    | inr p ↦ rw (e, p) tt
  ]
  | inr e ↦ rw e (
      After-row_then (KeepsAnswered rows) _ b (answer_row status q id rows)
        (λ after k j a h g. kept after j a (λ r. k j a h r) g)
        (answer_row-KeepsAnswered status q id rows))
]
  where
    changed :
        eqb b.tenant_id q.tenant && is_pending b.status ≡ true
        → KeepsAnswered (b ∷ rows) (answered status q b ∷ rows)
    changed p j a h g =
        pick (eqb b.id j) a b (answered status q b) (approval_of j rows)
          (&&-eq-true (eqb b.tenant_id q.tenant) (is_pending b.status) p).1 h g

    kept :
        (after : List ApprovalRow) (j : ℕ) (a : ApprovalRow)
        → (approval_of j rows ≡ some a → approval_of j after ≡ some a)
        → approval_of j (b ∷ rows) ≡ some a
        → approval_of j (b ∷ after) ≡ some a
    kept after j a k = elim (Bool-cases (eqb b.id j)) [ inl e ↦ rw e (λ g. g) | inr e ↦ rw e k ]

affected-KeepsAnswered :
    (status : ApprovalStatus) (rows : List ApprovalRow) (o : Option (List ApprovalRow))
    → After (KeepsAnswered rows) o
    → KeepsAnswered rows (affected status rows o).1
affected-KeepsAnswered status rows none k = λ j a h e. e
affected-KeepsAnswered status rows (some after) k = k

respond-KeepsAnswered :
    (status : ApprovalStatus) (message : String) (updates : Bool) (q : Request) (id : Option ℕ)
    (rows : List ApprovalRow)
    → KeepsAnswered rows (respond status message updates q id rows).1
unfolding respond
respond-KeepsAnswered status message updates q none rows = λ j a h e. e
respond-KeepsAnswered status message true q (some id) rows =
    affected-KeepsAnswered status rows (answer_row status q id rows)
      (answer_row-KeepsAnswered status q id rows)
respond-KeepsAnswered status message false q (some id) rows = λ j a h e. e

call_all-KeepsAnswered :
    (calls : List Call) (rows : List ApprovalRow) → KeepsAnswered rows (call_all calls rows)
unfolding call_all approve reject
call_all-KeepsAnswered [] rows j a h e = e
call_all-KeepsAnswered (approving updates q ∷ calls) rows j a h e =
    call_all-KeepsAnswered calls _ j a h
      (respond-KeepsAnswered approved "failed to approve" updates q q.approval rows j a h e)
call_all-KeepsAnswered (rejecting updates q ∷ calls) rows j a h e =
    call_all-KeepsAnswered calls _ j a h
      (respond-KeepsAnswered rejected "failed to reject" updates q q.approval rows j a h e)

-- An approval that is answered keeps its answer, who gave it, when and with which comment, whatever
-- requests to approve and reject follow.
pub call_all_answered :
    (calls : List Call) (rows : List ApprovalRow) (id : ℕ) (a : ApprovalRow)
    → is_pending a.status ≡ false
    → approval_of id rows ≡ some a
    → approval_of id (call_all calls rows) ≡ some a
call_all_answered calls rows id a h e = call_all-KeepsAnswered calls rows id a h e
