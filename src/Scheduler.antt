-- ===== src/Scheduler.antt =====
-- internal/engine/scheduler.go: what the scheduler of one node does to the tables. Each statement may fail;
-- `pg_try_advisory_lock` is answered from outside.
pub mod Claims
pub mod Cron
pub mod Polls
pub mod Cluster
pub mod Takeover
use flow_ctl.Prelude.{
  ℕ, zero, suc, ◌+◌, String, Bool, true, false, Option, none, some, List, [], ◌∷◌, ◌++◌, map,
  select, length, ◌&&◌, ◌||◌, not, eqb, ltb, leb, if◌then◌else◌, Assoc, has_value,
}
use flow_ctl.Model.Value.{Value}
use flow_ctl.Model.Execution.{ExecutionStatus}
use flow_ctl.Store.{ExecutionRow, Executions, update_row, insert_row}

pub record NodeRow : Type 0 where
  pub id : ℕ
  pub heartbeat_at : ℕ
  pub started_at : ℕ

pub record CronRow : Type 0 where
  pub id : ℕ
  pub tenant_id : ℕ
  pub workflow_id : ℕ
  pub inputs : Assoc Value
  pub enabled : Bool
  pub next_run_at : Option ℕ
  pub last_run_at : Option ℕ

pub record WorkflowRow : Type 0 where
  pub id : ℕ
  pub tenant_id : ℕ
  pub active_version_id : Option ℕ

abbrev pub is_queued : ExecutionStatus → Bool
is_queued ExecutionStatus.queued = true
is_queued _ = false

abbrev pub is_running : ExecutionStatus → Bool
is_running ExecutionStatus.running = true
is_running _ = false

-- `scheduler_node = $1`; NULL is equal to nothing.
abbrev pub is_node : (node : ℕ) → Option ℕ → Bool
is_node node none = false
is_node node (some n) = eqb n node

-- The condition and the change of `tryAcquireExecution`.
abbrev pub may_claim : (node : ℕ) → ExecutionRow → Bool
may_claim node r = not (has_value r.scheduler_node) || is_node node r.scheduler_node

abbrev pub claim : (node now : ℕ) → ExecutionRow → ExecutionRow
claim node now r = record r { scheduler_node = some node; lock_acquired_at = some now }

-- Whether the execution is acquired, none for an error, and the table. `lock` is the lock's answer.
unfoldable pub try_acquire_execution :
    (lock : Option Bool) (writes : Bool) (node now id : ℕ) → Executions → Option Bool × Executions
unfolding update_row
try_acquire_execution none writes node now id rows = (none, rows)
try_acquire_execution (some false) writes node now id rows = (some false, rows)
try_acquire_execution (some true) false node now id rows = (none, rows)
try_acquire_execution (some true) true node now id rows =
    elim (update_row id (may_claim node) (claim node now) rows) [
      | none ↦ (some false, rows)
      | some rows' ↦ (some true, rows')
    ]

-- An execution is run if it is acquired, and neither after an error nor without the claim.
abbrev pub acquired : (id : ℕ) → Option Bool × Executions → List ℕ × Executions
acquired id (some true, rows) = (id ∷ [], rows)
acquired id (some false, rows) = ([], rows)
acquired id (none, rows) = ([], rows)

-- `handleNewExecution`: the execution to run, if any; `payload` is none if it is no UUID.
unfoldable pub handle_new_execution :
    (lock : Option Bool) (writes : Bool) (node now : ℕ) (payload : Option ℕ)
    → Executions
    → List ℕ × Executions
unfolding try_acquire_execution
handle_new_execution lock writes node now none rows = ([], rows)
handle_new_execution lock writes node now (some id) rows =
    acquired id (try_acquire_execution lock writes node now id rows)

-- `ORDER BY created_at ASC`
unfoldable pub insert_by_age : ExecutionRow → Executions → Executions
insert_by_age r [] = r ∷ []
insert_by_age r (s ∷ rows) =
    let rest = insert_by_age r rows in
    if leb r.created_at s.created_at then r ∷ s ∷ rows else s ∷ rest

unfoldable pub by_age : Executions → Executions
unfolding insert_by_age
by_age [] = []
by_age (r ∷ rows) = insert_by_age r (by_age rows)

-- `LIMIT n`
abbrev pub take {ℓ} : {A : Type ℓ} → ℕ → List A → List A
take zero xs = []
take (suc n) [] = []
take (suc n) (x ∷ xs) = x ∷ take n xs

abbrev pub waits : ExecutionRow → Bool
waits r = is_queued r.status && not (has_value r.scheduler_node)

-- The query of `pollForWork`.
unfoldable pub waiting_executions : Executions → Executions
unfolding by_age
waiting_executions rows = take 10 (by_age (select waits rows))

-- The execution joins those to run if it is acquired.
abbrev pub with_run : (id : ℕ) → Option Bool → List ℕ × Executions → List ℕ × Executions
with_run id (some true) later = (id ∷ later.0, later.1)
with_run id (some false) later = later
with_run id none later = later

-- Its loop: the executions to run, and the table. The lock's answer and the statement's may depend on
-- the execution.
unfoldable pub acquire_all :
    (lock : ℕ → Option Bool) (writes : ℕ → Bool) (node now : ℕ) (candidates : Executions)
    → Executions
    → List ℕ × Executions
unfolding try_acquire_execution
acquire_all lock writes node now [] rows = ([], rows)
acquire_all lock writes node now (c ∷ candidates) rows =
    let tried = try_acquire_execution (lock c.id) (writes c.id) node now c.id rows in
    let later = acquire_all lock writes node now candidates tried.1 in with_run c.id tried.0 later

unfoldable pub poll_for_work :
    (lock : ℕ → Option Bool) (writes : ℕ → Bool) (node now : ℕ) → Executions → List ℕ × Executions
unfolding acquire_all waiting_executions
poll_for_work lock writes node now rows =
    acquire_all lock writes node now (waiting_executions rows) rows

-- The query of `performTakeover`.
abbrev pub is_dead : (node now threshold : ℕ) → NodeRow → Bool
is_dead node now threshold n = ltb (n.heartbeat_at + threshold) now && not (eqb n.id node)

unfoldable pub dead_nodes : (node now threshold : ℕ) → List NodeRow → List ℕ
dead_nodes node now threshold nodes = map (λ n. n.id) (select (is_dead node now threshold) nodes)

unfoldable pub requeue : (dead : ℕ) → ExecutionRow → ExecutionRow
requeue dead r =
    if is_node dead r.scheduler_node && (is_running r.status || is_queued r.status)
    then record r { scheduler_node = none; status = ExecutionStatus.queued }
    else r

-- `DELETE FROM scheduler_nodes WHERE id = $1`
unfoldable pub deregister_node : (node : ℕ) → List NodeRow → List NodeRow
deregister_node node nodes = select (λ n. not (eqb n.id node)) nodes

-- The loop over the dead nodes; `reassigns` and `deletes` say which statements succeed.
unfoldable pub take_over_all :
    (reassigns deletes : ℕ → Bool) (dead : List ℕ)
    → Executions × List NodeRow
    → Executions × List NodeRow
unfolding requeue deregister_node
take_over_all reassigns deletes [] s = s
take_over_all reassigns deletes (d ∷ dead) (rows, nodes) = take_over_all reassigns deletes dead (
    if reassigns d
    then (map (requeue d) rows, (if deletes d then deregister_node d nodes else nodes))
    else (rows, nodes))

unfoldable pub perform_takeover :
    (reassigns deletes : ℕ → Bool) (node now threshold : ℕ)
    → Executions × List NodeRow
    → Executions × List NodeRow
unfolding take_over_all dead_nodes
perform_takeover reassigns deletes node now threshold s =
    take_over_all reassigns deletes (dead_nodes node now threshold s.1) s

-- `INSERT … ON CONFLICT (id) DO UPDATE`, and the heartbeat.
unfoldable pub register_node : (node now : ℕ) → List NodeRow → List NodeRow
register_node node now [] = record { id = node; heartbeat_at = now; started_at = now } ∷ []
register_node node now (n ∷ nodes) =
    let rest = n ∷ register_node node now nodes in
    if eqb n.id node then record n { heartbeat_at = now; started_at = now } ∷ nodes else rest

unfoldable pub heartbeat : (node now : ℕ) → List NodeRow → List NodeRow
heartbeat node now nodes =
    map (λ n. if eqb n.id node then record n { heartbeat_at = now } else n) nodes

-- NULL is never due.
abbrev pub has_come : (now : ℕ) → Option ℕ → Bool
has_come now none = false
has_come now (some t) = leb t now

-- The statement of `processCronSchedules`: the rows that it returns, and the table.
abbrev pub is_due : (now : ℕ) → CronRow → Bool
is_due now c = c.enabled && has_come now c.next_run_at

unfoldable pub mark_run : (now : ℕ) → List CronRow → List CronRow
mark_run now crons =
    map (λ c. if is_due now c then record c { last_run_at = some now } else c) crons

-- `SELECT active_version_id FROM workflows WHERE id = $1 AND tenant_id = $2`; NULL does not scan.
unfoldable pub active_version : (workflow tenant : ℕ) → List WorkflowRow → Option ℕ
active_version workflow tenant [] = none
active_version workflow tenant (w ∷ rows) =
    let rest = active_version workflow tenant rows in
    if eqb w.id workflow && eqb w.tenant_id tenant then w.active_version_id else rest

-- `id` is the new identifier.
unfoldable pub trigger_cron_execution :
    (id now : ℕ) → CronRow → List WorkflowRow → Executions → Executions
unfolding active_version insert_row
trigger_cron_execution id now c workflows rows =
    elim (active_version c.workflow_id c.tenant_id workflows) [
      | none ↦ rows
      | some version ↦
          let created : ExecutionRow = record {
            id = id;
            tenant_id = c.tenant_id;
            workflow_id = c.workflow_id;
            version_id = version;
            status = ExecutionStatus.queued;
            idempotency_key = none;
            inputs = c.inputs;
            triggered_by = none;
            trigger_type = "cron";
            created_at = now;
            finished_at = none;
            scheduler_node = none;
            lock_acquired_at = none;
          } in
          elim (insert_row created rows) [ none ↦ rows | some rows' ↦ rows' ]
    ]

-- `ids` gives the new identifier for a schedule.
unfoldable pub trigger_all :
    (ids : ℕ → ℕ) (now : ℕ) → List CronRow → List WorkflowRow → Executions → Executions
unfolding trigger_cron_execution
trigger_all ids now [] workflows rows = rows
trigger_all ids now (c ∷ due) workflows rows =
    trigger_all ids now due workflows (trigger_cron_execution (ids c.id) now c workflows rows)

unfoldable pub process_cron_schedules :
    (ids : ℕ → ℕ) (now : ℕ)
    → List WorkflowRow
    → List CronRow × Executions
    → List CronRow × Executions
unfolding mark_run trigger_all
process_cron_schedules ids now workflows (crons, rows) =
    (mark_run now crons, trigger_all ids now (select (is_due now) crons) workflows rows)

-- `CheckTenantConcurrency`, of the answer of the query.
unfoldable pub check_tenant_concurrency : (tenant limit : ℕ) → Executions → Bool
check_tenant_concurrency tenant limit rows =
    ltb (length (select (λ r. eqb r.tenant_id tenant && is_running r.status) rows)) limit
