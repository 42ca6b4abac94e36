-- ===== src/Store.antt =====
-- The table `executions` of internal/repository/migrations/001_initial_schema.sql, as the statements of
-- the server and the scheduler use it.
pub mod Rows
use flow_ctl.Prelude.{
  ℕ, String, Bool, true, false, Option, none, some, List, [], ◌∷◌, ◌++◌, ◌==◌, ◌&&◌, ◌||◌, eqb,
  if◌then◌else◌, Assoc,
}
use flow_ctl.Model.Value.{Value}
use flow_ctl.Model.Execution.{ExecutionStatus}

-- NULL is none.
pub record ExecutionRow : Type 0 where
  pub id : ℕ
  pub tenant_id : ℕ
  pub workflow_id : ℕ
  pub version_id : ℕ
  pub status : ExecutionStatus
  pub idempotency_key : Option String
  pub inputs : Assoc Value
  pub triggered_by : Option ℕ
  pub trigger_type : String
  pub created_at : ℕ
  pub finished_at : Option ℕ
  pub scheduler_node : Option ℕ
  pub lock_acquired_at : Option ℕ

abbrev pub Executions : Type 0
Executions = List ExecutionRow

-- The row of a primary key.
unfoldable pub row_of : (id : ℕ) → Executions → Option ExecutionRow
row_of id [] = none
row_of id (r ∷ rows) = let rest = row_of id rows in if eqb r.id id then some r else rest

-- The row stays in front of what is left.
abbrev pub row_then : {A : Type 0} → A → Option (List A) → Option (List A)
row_then r none = none
row_then r (some rows) = some (r ∷ rows)

-- `UPDATE … SET f WHERE id = $1 AND p`; none if no row is affected.
unfoldable pub update_row :
    (id : ℕ)
    → (p : ExecutionRow → Bool) → (f : ExecutionRow → ExecutionRow) → Executions
    → Option Executions
update_row id p f [] = none
update_row id p f (r ∷ rows) =
    let rest = row_then r (update_row id p f rows) in
    if eqb r.id id then (if p r then some (f r ∷ rows) else none) else rest

-- NULL is equal to nothing.
abbrev pub same_key : Option String → Option String → Bool
same_key (some k) (some l) = k == l
same_key _ _ = false

-- Whether the two violate the primary key or the unique pair of tenant and idempotency key.
abbrev pub collides : (r s : ExecutionRow) → Bool
collides r s =
    eqb r.id s.id || eqb r.tenant_id s.tenant_id && same_key r.idempotency_key s.idempotency_key

-- `INSERT`; none if it violates a key.
unfoldable pub insert_row : ExecutionRow → Executions → Option Executions
insert_row s [] = some (s ∷ [])
insert_row s (r ∷ rows) =
    let rest = row_then r (insert_row s rows) in if collides r s then none else rest
