-- ===== src/Handlers/Execution/Used.antt =====
-- Which of the statements on the table of executions keep a used idempotency key
-- (internal/api/handler/execution.go, internal/engine/scheduler.go).
pub mod Scheduled
use flow_ctl.Prelude.{
  ◌≡◌, refl, sym, ap, ◌∙◌, subst, ℕ, String, Bool, true, false, Option, none, some, List, [], ◌∷◌,
  ◌&&◌, ◌||◌, eqb, Bool-cases, Option-cases, inl, inr, arith, if◌then◌else◌, has_value, map, select,
}
use flow_ctl.Model.Execution.{ExecutionStatus}
use flow_ctl.Store.{ExecutionRow, Executions, row_then, update_row, collides, same_key, insert_row}
use flow_ctl.Store.Rows.{After, After-row_then}
use flow_ctl.Scheduler.{
  WorkflowRow, CronRow, NodeRow, may_claim, claim, acquired, with_run, try_acquire_execution,
  handle_new_execution, acquire_all, poll_for_work, waiting_executions, requeue, deregister_node,
  dead_nodes, take_over_all, perform_takeover, is_due, active_version, trigger_cron_execution,
  trigger_all, process_cron_schedules, is_node, is_running, is_queued,
}
use flow_ctl.Handlers.Execution.{
  Response, Faults, StartRequest, find_key, published, existing_execution, create, start_new, start,
  may_cancel, cancel_row, cancel, find_execution, retry,
}

-- Whether the tenant has an execution with the key.
abbrev pub is_used : (key : String) (tenant : ℕ) → Executions → Bool
is_used key tenant rows = has_value (find_key key tenant rows)

-- A key that is used stays so.
abbrev pub KeepsKeys : (rows after : Executions) → Type 0
KeepsKeys rows after =
    (key : String) (tenant : ℕ) → is_used key tenant rows ≡ true → is_used key tenant after ≡ true

pub KeepsKeys-trans :
    (rows middle after : Executions)
    → KeepsKeys rows middle
    → KeepsKeys middle after
    → KeepsKeys rows after
KeepsKeys-trans rows middle after h k key tenant u = k key tenant (h key tenant u)

-- Two rows with the same tenant and key.
abbrev pub IsSame : (r s : ExecutionRow) → Type 0
IsSame r s = (s.tenant_id ≡ r.tenant_id) × (s.idempotency_key ≡ r.idempotency_key)

cons-KeepsKeys :
    (r s : ExecutionRow) (rows after : Executions)
    → IsSame r s
    → KeepsKeys rows after
    → KeepsKeys (r ∷ rows) (s ∷ after)
unfolding find_key
cons-KeepsKeys r s rows after same h key tenant =
    elim (Bool-cases (same_key r.idempotency_key (some key) && eqb r.tenant_id tenant)) [
      | inl e ↦ rw (same.1, same.0, e) (λ _. refl)
      | inr e ↦ rw (same.1, same.0, e) (h key tenant)
    ]

pub refl-KeepsKeys : (rows : Executions) → KeepsKeys rows rows
refl-KeepsKeys rows key tenant u = u

pub map-KeepsKeys :
    (f : ExecutionRow → ExecutionRow) (rows : Executions)
    → ((r : ExecutionRow) → IsSame r (f r))
    → KeepsKeys rows (map f rows)
map-KeepsKeys f [] same = refl-KeepsKeys []
map-KeepsKeys f (r ∷ rows) same =
    cons-KeepsKeys r (f r) rows (map f rows) (same r) (map-KeepsKeys f rows same)

pub update_row-KeepsKeys :
    (id : ℕ) (p : ExecutionRow → Bool) (f : ExecutionRow → ExecutionRow) (rows : Executions)
    → ((r : ExecutionRow) → IsSame r (f r))
    → After (KeepsKeys rows) (update_row id p f rows)
unfolding update_row
update_row-KeepsKeys id p f [] same = tt
update_row-KeepsKeys id p f (r ∷ rows) same = elim (Bool-cases (eqb r.id id)) [
  | inl e ↦ elim (Bool-cases (p r)) [
    | inl q ↦ rw (e, q) (cons-KeepsKeys r (f r) rows rows (same r) (refl-KeepsKeys rows))
    | inr q ↦ rw (e, q) tt
  ]
  | inr e ↦ rw e (
      After-row_then (KeepsKeys rows) (KeepsKeys (r ∷ rows)) r (update_row id p f rows)
        (λ after h. cons-KeepsKeys r r rows after (refl, refl) h)
        (update_row-KeepsKeys id p f rows same))
]

pub insert_row-KeepsKeys :
    (s : ExecutionRow) (rows : Executions) → After (KeepsKeys rows) (insert_row s rows)
unfolding insert_row find_key
insert_row-KeepsKeys s [] = λ key tenant u. absurd cc
insert_row-KeepsKeys s (r ∷ rows) = elim (Bool-cases (collides r s)) [
  | inl e ↦ rw e tt
  | inr e ↦ rw e (
      After-row_then (KeepsKeys rows) (KeepsKeys (r ∷ rows)) r (insert_row s rows)
        (λ after h. cons-KeepsKeys r r rows after (refl, refl) h) (insert_row-KeepsKeys s rows))
]

create-KeepsKeys :
    (inserts : Bool) (message : String) (r : ExecutionRow) (rows : Executions)
    → KeepsKeys rows (create inserts message r rows).1
unfolding create
create-KeepsKeys false message r rows = refl-KeepsKeys rows
create-KeepsKeys true message r rows = elim (Option-cases (insert_row r rows)) [
  | inl e ↦ rw e (refl-KeepsKeys rows)
  | inr (after, e) ↦ rw e (subst (After (KeepsKeys rows)) e (insert_row-KeepsKeys r rows))
]

start_new-KeepsKeys :
    (faults : Faults) (workflows : List WorkflowRow) (tenant user id now workflow : ℕ)
    (req : StartRequest) (rows : Executions)
    → KeepsKeys rows (start_new faults workflows tenant user id now workflow req rows).1
unfolding start_new
start_new-KeepsKeys faults workflows tenant user id now workflow req rows =
    elim (Option-cases (published faults.version workflow tenant workflows)) [
      | inl g ↦ rw (g, start_new) (refl-KeepsKeys rows)
      | inr (version, g) ↦
          rw (g, start_new) (create-KeepsKeys faults.insert "failed to create execution" _ rows)
    ]

pub start-KeepsKeys :
    (faults : Faults) (workflows : List WorkflowRow) (tenant user id now : ℕ)
    (body : Option StartRequest) (rows : Executions)
    → KeepsKeys rows (start faults workflows tenant user id now body rows).1
unfolding start
start-KeepsKeys faults workflows tenant user id now none rows = refl-KeepsKeys rows
start-KeepsKeys faults workflows tenant user id now (some req) rows =
    elim (Option-cases req.workflow) [
      | inl e ↦ rw (e, start) (refl-KeepsKeys rows)
      | inr (workflow, e) ↦
          elim (Option-cases (existing_execution faults.lookup req.idempotency_key tenant rows)) [
            | inr (old, f) ↦ rw (e, start, f) (refl-KeepsKeys rows)
            | inl f ↦
                rw (e, start, f)
                  (start_new-KeepsKeys faults workflows tenant user id now workflow req rows)
          ]
    ]

pub cancel-KeepsKeys :
    (updates : Bool) (tenant now : ℕ) (id : Option ℕ) (rows : Executions)
    → KeepsKeys rows (cancel updates tenant now id rows).1
unfolding cancel
cancel-KeepsKeys updates tenant now none rows = refl-KeepsKeys rows
cancel-KeepsKeys false tenant now (some id) rows = refl-KeepsKeys rows
cancel-KeepsKeys true tenant now (some id) rows =
    elim (Option-cases (update_row id (may_cancel tenant) (cancel_row now) rows)) [
      | inl e ↦ rw e (refl-KeepsKeys rows)
      | inr (after, e) ↦ rw e (
          subst (After (KeepsKeys rows)) e
            (update_row-KeepsKeys id (may_cancel tenant) (cancel_row now) rows (λ r. (refl, refl))))
    ]

pub retry-KeepsKeys :
    (faults : Faults) (tenant user new_id now : ℕ) (id : Option ℕ) (rows : Executions)
    → KeepsKeys rows (retry faults tenant user new_id now id rows).1
unfolding retry
retry-KeepsKeys faults tenant user new_id now none rows = refl-KeepsKeys rows
retry-KeepsKeys faults tenant user new_id now (some id) rows =
    elim (Option-cases (if faults.lookup then find_execution id tenant rows else none)) [
      | inl e ↦ rw (e, retry) (refl-KeepsKeys rows)
      | inr (r, e) ↦
          rw (e, retry) (create-KeepsKeys faults.insert "failed to retry execution" _ rows)
    ]
