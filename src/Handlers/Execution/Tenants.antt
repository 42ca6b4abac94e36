-- ===== src/Handlers/Execution/Tenants.antt =====
-- internal/api/handler/execution.go: what the requests of one tenant do to the executions of another, and
-- which executions `Cancel` changes.
use flow_ctl.Prelude.{
  ◌≡◌, ◌≢◌, ◌⊎◌, refl, ap, ◌∙◌, subst, ℕ, String, Bool, true, false, Option, none, some, List, [],
  ◌∷◌, not, eqb, Bool-cases, Option-cases, inl, inr, arith, select, &&-eq-true, if◌then◌else◌,
}
use flow_ctl.Model.Execution.{ExecutionStatus}
use flow_ctl.StateMachine.{validate_execution_transition}
use flow_ctl.Store.{ExecutionRow, Executions, row_of, update_row, collides, insert_row}
use flow_ctl.Store.Rows.{
  After, After-row_then, IsChanged, KeepsOthers, update_row-IsChanged, update_row-KeepsOthers,
}
use flow_ctl.Scheduler.{WorkflowRow}
use flow_ctl.Handlers.Execution.{
  Response, cancelled, Faults, StartRequest, existing_execution, published, create, start_new,
  start, is_settled, may_cancel, cancel_row, cancel, find_execution, retry,
}

-- The executions of other tenants.
abbrev pub others : (tenant : ℕ) → Executions → Executions
others tenant rows = select (λ r. not (eqb r.tenant_id tenant)) rows

abbrev KeepsTenants : (tenant : ℕ) (rows after : Executions) → Type 0
KeepsTenants tenant rows after = others tenant after ≡ others tenant rows

others-cons :
    (tenant : ℕ) (r : ExecutionRow) (rows after : Executions)
    → KeepsTenants tenant rows after
    → KeepsTenants tenant (r ∷ rows) (r ∷ after)
others-cons tenant r rows after h = elim (Bool-cases (eqb r.tenant_id tenant)) [
  | inl e ↦ rw e h
  | inr e ↦ rw e (ap (λ l. r ∷ l) h)
]

update_row-KeepsTenants :
    (tenant id : ℕ) (p : ExecutionRow → Bool) (f : ExecutionRow → ExecutionRow) (rows : Executions)
    → ((r : ExecutionRow) → p r ≡ true → eqb r.tenant_id tenant ≡ true)
    → ((r : ExecutionRow) → (f r).tenant_id ≡ r.tenant_id)
    → After (KeepsTenants tenant rows) (update_row id p f rows)
unfolding update_row
update_row-KeepsTenants tenant id p f [] k t = tt
update_row-KeepsTenants tenant id p f (r ∷ rows) k t = elim (Bool-cases (eqb r.id id)) [
  | inl e ↦ elim (Bool-cases (p r)) [ inl q ↦ rw (e, q) (changed (k r q)) | inr q ↦ rw (e, q) tt ]
  | inr e ↦ rw e (
      After-row_then (KeepsTenants tenant rows) _ r (update_row id p f rows)
        (λ after h. others-cons tenant r rows after h)
        (update_row-KeepsTenants tenant id p f rows k t))
]
  where
    changed : eqb r.tenant_id tenant ≡ true → KeepsTenants tenant (r ∷ rows) (f r ∷ rows)
    changed own = rw (t r, own) refl

insert_row-KeepsTenants :
    (tenant : ℕ) (s : ExecutionRow) (rows : Executions)
    → s.tenant_id ≡ tenant
    → After (KeepsTenants tenant rows) (insert_row s rows)
unfolding insert_row
insert_row-KeepsTenants tenant s [] k = rw k (ground arith)
insert_row-KeepsTenants tenant s (r ∷ rows) k = elim (Bool-cases (collides r s)) [
  | inl e ↦ rw e tt
  | inr e ↦ rw e (
      After-row_then (KeepsTenants tenant rows) _ r (insert_row s rows)
        (λ after h. others-cons tenant r rows after h) (insert_row-KeepsTenants tenant s rows k))
]

create-KeepsTenants :
    (tenant : ℕ) (inserts : Bool) (message : String) (r : ExecutionRow) (rows : Executions)
    → r.tenant_id ≡ tenant
    → KeepsTenants tenant rows (create inserts message r rows).1
unfolding create
create-KeepsTenants tenant false message r rows k = refl
create-KeepsTenants tenant true message r rows k = elim (Option-cases (insert_row r rows)) [
  | inl e ↦ rw e refl
  | inr (after, e) ↦
      rw e (subst (After (KeepsTenants tenant rows)) e (insert_row-KeepsTenants tenant r rows k))
]

start_new-KeepsTenants :
    (faults : Faults) (workflows : List WorkflowRow) (tenant user id now workflow : ℕ)
    (req : StartRequest) (rows : Executions)
    → KeepsTenants tenant rows (start_new faults workflows tenant user id now workflow req rows).1
unfolding start_new
start_new-KeepsTenants faults workflows tenant user id now workflow req rows =
    elim (Option-cases (published faults.version workflow tenant workflows)) [
      | inl g ↦ rw (g, start_new) refl
      | inr (version, g) ↦
          rw (g, start_new)
            (create-KeepsTenants tenant faults.insert "failed to create execution" _ rows refl)
    ]

start-KeepsTenants :
    (faults : Faults) (workflows : List WorkflowRow) (tenant user id now : ℕ)
    (body : Option StartRequest) (rows : Executions)
    → KeepsTenants tenant rows (start faults workflows tenant user id now body rows).1
unfolding start
start-KeepsTenants faults workflows tenant user id now none rows = refl
start-KeepsTenants faults workflows tenant user id now (some req) rows =
    elim (Option-cases req.workflow) [
      | inl e ↦ rw (e, start) refl
      | inr (workflow, e) ↦
          elim (Option-cases (existing_execution faults.lookup req.idempotency_key tenant rows)) [
            | inr (old, f) ↦ rw (e, start, f) refl
            | inl f ↦
                rw (e, start, f)
                  (start_new-KeepsTenants faults workflows tenant user id now workflow req rows)
          ]
    ]

cancel-KeepsTenants :
    (updates : Bool) (tenant now : ℕ) (id : Option ℕ) (rows : Executions)
    → KeepsTenants tenant rows (cancel updates tenant now id rows).1
unfolding cancel
cancel-KeepsTenants updates tenant now none rows = refl
cancel-KeepsTenants false tenant now (some id) rows = refl
cancel-KeepsTenants true tenant now (some id) rows =
    elim (Option-cases (update_row id (may_cancel tenant) (cancel_row now) rows)) [
      | inl e ↦ rw e refl
      | inr (after, e) ↦ rw e (
          subst (After (KeepsTenants tenant rows)) e (
            update_row-KeepsTenants tenant id (may_cancel tenant) (cancel_row now) rows
              (λ r h. (&&-eq-true (eqb r.tenant_id tenant) (not (is_settled r.status)) h).0)
              (λ r. refl)))
    ]

retry-KeepsTenants :
    (faults : Faults) (tenant user new_id now : ℕ) (id : Option ℕ) (rows : Executions)
    → KeepsTenants tenant rows (retry faults tenant user new_id now id rows).1
unfolding retry
retry-KeepsTenants faults tenant user new_id now none rows = refl
retry-KeepsTenants faults tenant user new_id now (some id) rows =
    elim (Option-cases (if faults.lookup then find_execution id tenant rows else none)) [
      | inl e ↦ rw (e, retry) refl
      | inr (r, e) ↦
          rw (e, retry)
            (create-KeepsTenants tenant faults.insert "failed to retry execution" _ rows refl)
    ]

-- The requests of one tenant, one after the other.
pub data Call : Type 0 where
  starting : Faults → List WorkflowRow → (user id now : ℕ) → Option StartRequest → Call
  cancelling : (updates : Bool) → (now : ℕ) → (id : Option ℕ) → Call
  retrying : Faults → (user new_id now : ℕ) → (id : Option ℕ) → Call

unfoldable pub call_all : (tenant : ℕ) → List Call → Executions → Executions
unfolding start cancel retry
call_all tenant [] rows = rows
call_all tenant (starting faults workflows user id now body ∷ calls) rows =
    call_all tenant calls (start faults workflows tenant user id now body rows).1
call_all tenant (cancelling updates now id ∷ calls) rows =
    call_all tenant calls (cancel updates tenant now id rows).1
call_all tenant (retrying faults user new_id now id ∷ calls) rows =
    call_all tenant calls (retry faults tenant user new_id now id rows).1

-- Whatever requests to start, cancel and retry executions a tenant sends, the executions of all other tenants
-- stay as they are.
pub others-call_all :
    (tenant : ℕ) (calls : List Call) (rows : Executions)
    → others tenant (call_all tenant calls rows) ≡ others tenant rows
unfolding call_all
others-call_all tenant [] rows = refl
others-call_all tenant (starting faults workflows user id now body ∷ calls) rows =
    others-call_all tenant calls _
    ∙ start-KeepsTenants faults workflows tenant user id now body rows
others-call_all tenant (cancelling updates now id ∷ calls) rows =
    others-call_all tenant calls _ ∙ cancel-KeepsTenants updates tenant now id rows
others-call_all tenant (retrying faults user new_id now id ∷ calls) rows =
    others-call_all tenant calls _ ∙ retry-KeepsTenants faults tenant user new_id now id rows

-- A change that the transition table allows, or one from retrying.
abbrev pub IsCancellable : ExecutionStatus → Type 0
IsCancellable status =
    (validate_execution_transition status ExecutionStatus.cancelled ≡ none)
    ⊎ (status ≡ ExecutionStatus.retrying)

is_settled-IsCancellable :
    (status : ExecutionStatus) → not (is_settled status) ≡ true → IsCancellable status
unfolding validate_execution_transition
is_settled-IsCancellable ExecutionStatus.pending h = inl refl
is_settled-IsCancellable ExecutionStatus.queued h = inl refl
is_settled-IsCancellable ExecutionStatus.running h = inl refl
is_settled-IsCancellable ExecutionStatus.waiting_approval h = inl refl
is_settled-IsCancellable ExecutionStatus.paused h = inl refl
is_settled-IsCancellable ExecutionStatus.succeeded h = cc
is_settled-IsCancellable ExecutionStatus.failed h = cc
is_settled-IsCancellable ExecutionStatus.cancelled h = cc
is_settled-IsCancellable ExecutionStatus.retrying h = inr refl

-- What the answer says of the tables before and after.
abbrev pub IsCancel : (tenant now id : ℕ) (rows : Executions) → Response × Executions → Type 0
IsCancel tenant now id rows (cancelled, after) =
    ((r : ExecutionRow) × (row_of id rows ≡ some r)
      × (eqb r.tenant_id tenant ≡ true)
      × IsCancellable r.status
      × (row_of id after ≡ some (cancel_row now r)))
    × ((j : ℕ) → j ≢ id → row_of j after ≡ row_of j rows)
IsCancel tenant now id rows (_, after) = after ≡ rows

-- If Cancel answers that it cancelled, the execution was one of the tenant whose status the transition
-- table lets be cancelled, or retrying; it is cancelled with its finishing time, and no other execution
-- changes. After any other answer the table is as before.
pub cancel-IsCancel :
    (updates : Bool) (tenant now id : ℕ) (rows : Executions)
    → IsCancel tenant now id rows (cancel updates tenant now (some id) rows)
unfolding cancel
cancel-IsCancel false tenant now id rows = refl
cancel-IsCancel true tenant now id rows =
    elim (Option-cases (update_row id (may_cancel tenant) (cancel_row now) rows)) [
      | inl e ↦ rw e refl
      | inr (after, e) ↦ rw e (
          on after
            (subst (After (IsChanged id (may_cancel tenant) (cancel_row now) rows)) e
              (update_row-IsChanged id (may_cancel tenant) (cancel_row now) rows (λ r. refl)))
            (subst (After (KeepsOthers id (may_cancel tenant) (cancel_row now) rows)) e
              (update_row-KeepsOthers id (may_cancel tenant) (cancel_row now) rows (λ r. refl))))
    ]
  where
    on :
        (after : Executions)
        → IsChanged id (may_cancel tenant) (cancel_row now) rows after
        → KeepsOthers id (may_cancel tenant) (cancel_row now) rows after
        → IsCancel tenant now id rows (cancelled, after)
    on after (r, at, passed, changed) others =
        let both = &&-eq-true (eqb r.tenant_id tenant) (not (is_settled r.status)) passed in
        ((r, at, both.0, is_settled-IsCancellable r.status both.1, changed), others)
