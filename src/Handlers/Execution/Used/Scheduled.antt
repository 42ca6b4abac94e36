-- ===== src/Handlers/Execution/Used/Scheduled.antt =====
-- The operations of internal/engine/scheduler.go and a used idempotency key.
use flow_ctl.Prelude.{
  ◌≡◌, refl, sym, subst, ℕ, Bool, true, false, Option, none, some, List, [], ◌∷◌, ◌&&◌, ◌||◌,
  Bool-cases, Option-cases, inl, inr, if◌then◌else◌, map, select,
}
use flow_ctl.Store.{ExecutionRow, Executions, update_row, insert_row}
use flow_ctl.Store.Rows.{After}
use flow_ctl.Scheduler.{
  WorkflowRow, CronRow, NodeRow, may_claim, claim, acquired, with_run, try_acquire_execution,
  handle_new_execution, acquire_all, poll_for_work, waiting_executions, requeue, deregister_node,
  dead_nodes, take_over_all, perform_takeover, is_due, active_version, trigger_cron_execution,
  trigger_all, process_cron_schedules, is_node, is_running, is_queued,
}
use flow_ctl.Handlers.Execution.Used.{
  IsSame, KeepsKeys, KeepsKeys-trans, refl-KeepsKeys, map-KeepsKeys, update_row-KeepsKeys,
  insert_row-KeepsKeys,
}

-- The statement that may have no effect.
update_or-KeepsKeys :
    (rows : Executions) (o : Option Executions)
    → After (KeepsKeys rows) o
    → KeepsKeys rows (elim o [ none ↦ rows | some rows' ↦ rows' ])
update_or-KeepsKeys rows none h = refl-KeepsKeys rows
update_or-KeepsKeys rows (some after) h = h

try_acquire_execution-KeepsKeys :
    (lock : Option Bool) (writes : Bool) (node now id : ℕ) (rows : Executions)
    → KeepsKeys rows (try_acquire_execution lock writes node now id rows).1
unfolding try_acquire_execution
try_acquire_execution-KeepsKeys none writes node now id rows = refl-KeepsKeys rows
try_acquire_execution-KeepsKeys (some false) writes node now id rows = refl-KeepsKeys rows
try_acquire_execution-KeepsKeys (some true) false node now id rows = refl-KeepsKeys rows
try_acquire_execution-KeepsKeys (some true) true node now id rows =
    elim (Option-cases (update_row id (may_claim node) (claim node now) rows)) [
      | inl e ↦ rw (e, try_acquire_execution) (refl-KeepsKeys rows)
      | inr (after, e) ↦
          rw (e, try_acquire_execution)
            (subst (After (KeepsKeys rows)) e
              (update_row-KeepsKeys id (may_claim node) (claim node now) rows (λ r. (refl, refl))))
    ]

-- The table does not depend on whether the execution is run.
acquired-table : (id : ℕ) (r : Option Bool × Executions) → (acquired id r).1 ≡ r.1
acquired-table id (some true, rows) = refl
acquired-table id (some false, rows) = refl
acquired-table id (none, rows) = refl

with_run-table :
    (id : ℕ) (o : Option Bool) (later : List ℕ × Executions) → (with_run id o later).1 ≡ later.1
with_run-table id (some true) later = refl
with_run-table id (some false) later = refl
with_run-table id none later = refl

pub handle_new_execution-KeepsKeys :
    (lock : Option Bool) (writes : Bool) (node now : ℕ) (payload : Option ℕ) (rows : Executions)
    → KeepsKeys rows (handle_new_execution lock writes node now payload rows).1
unfolding handle_new_execution
handle_new_execution-KeepsKeys lock writes node now none rows = refl-KeepsKeys rows
handle_new_execution-KeepsKeys lock writes node now (some id) rows =
    subst (KeepsKeys rows)
      (sym (acquired-table id (try_acquire_execution lock writes node now id rows)))
      (try_acquire_execution-KeepsKeys lock writes node now id rows)

acquire_all-KeepsKeys :
    (lock : ℕ → Option Bool) (writes : ℕ → Bool) (node now : ℕ) (candidates rows : Executions)
    → KeepsKeys rows (acquire_all lock writes node now candidates rows).1
unfolding acquire_all
acquire_all-KeepsKeys lock writes node now [] rows = refl-KeepsKeys rows
acquire_all-KeepsKeys lock writes node now (c ∷ candidates) rows =
    let tried = try_acquire_execution (lock c.id) (writes c.id) node now c.id rows in
    let later = acquire_all lock writes node now candidates tried.1 in
    subst (KeepsKeys rows) (sym (with_run-table c.id tried.0 later)) (
      KeepsKeys-trans rows tried.1 later.1
        (try_acquire_execution-KeepsKeys (lock c.id) (writes c.id) node now c.id rows)
        (acquire_all-KeepsKeys lock writes node now candidates tried.1))

pub poll_for_work-KeepsKeys :
    (lock : ℕ → Option Bool) (writes : ℕ → Bool) (node now : ℕ) (rows : Executions)
    → KeepsKeys rows (poll_for_work lock writes node now rows).1
unfolding poll_for_work
poll_for_work-KeepsKeys lock writes node now rows =
    acquire_all-KeepsKeys lock writes node now (waiting_executions rows) rows

requeue-IsSame : (d : ℕ) (r : ExecutionRow) → IsSame r (requeue d r)
unfolding requeue
requeue-IsSame d r =
    elim (Bool-cases (is_node d r.scheduler_node && (is_running r.status || is_queued r.status))) [
      | inl e ↦ rw e (refl, refl)
      | inr e ↦ rw e (refl, refl)
    ]

take_over_all-KeepsKeys :
    (reassigns deletes : ℕ → Bool) (dead : List ℕ) (s : Executions × List NodeRow)
    → KeepsKeys s.0 (take_over_all reassigns deletes dead s).0
unfolding take_over_all
take_over_all-KeepsKeys reassigns deletes [] s = refl-KeepsKeys s.0
take_over_all-KeepsKeys reassigns deletes (d ∷ dead) (rows, nodes) =
    by (λ s. take_over_all-KeepsKeys reassigns deletes dead s) (reassigns d)
  where
    by :
        ((s : Executions × List NodeRow) → KeepsKeys s.0 (take_over_all reassigns deletes dead s).0)
        → (b : Bool)
        → KeepsKeys rows
            (take_over_all reassigns deletes dead (
              if b
              then (map (requeue d) rows, (if deletes d then deregister_node d nodes else nodes))
              else (rows, nodes))).0
    by others true =
        KeepsKeys-trans rows (map (requeue d) rows) _
          (map-KeepsKeys (requeue d) rows (requeue-IsSame d))
          (others (map (requeue d) rows, (if deletes d then deregister_node d nodes else nodes)))
    by others false = others (rows, nodes)

pub perform_takeover-KeepsKeys :
    (reassigns deletes : ℕ → Bool) (node now threshold : ℕ) (s : Executions × List NodeRow)
    → KeepsKeys s.0 (perform_takeover reassigns deletes node now threshold s).0
unfolding perform_takeover
perform_takeover-KeepsKeys reassigns deletes node now threshold s =
    take_over_all-KeepsKeys reassigns deletes (dead_nodes node now threshold s.1) s

trigger_cron_execution-KeepsKeys :
    (id now : ℕ) (c : CronRow) (workflows : List WorkflowRow) (rows : Executions)
    → KeepsKeys rows (trigger_cron_execution id now c workflows rows)
unfolding trigger_cron_execution
trigger_cron_execution-KeepsKeys id now c workflows rows =
    elim (Option-cases (active_version c.workflow_id c.tenant_id workflows)) [
      | inl e ↦ rw (e, trigger_cron_execution) (refl-KeepsKeys rows)
      | inr (version, e) ↦
          rw (e, trigger_cron_execution)
            (update_or-KeepsKeys rows (insert_row _ rows) (insert_row-KeepsKeys _ rows))
    ]

trigger_all-KeepsKeys :
    (ids : ℕ → ℕ) (now : ℕ) (due : List CronRow) (workflows : List WorkflowRow) (rows : Executions)
    → KeepsKeys rows (trigger_all ids now due workflows rows)
unfolding trigger_all
trigger_all-KeepsKeys ids now [] workflows rows = refl-KeepsKeys rows
trigger_all-KeepsKeys ids now (c ∷ due) workflows rows =
    KeepsKeys-trans rows (trigger_cron_execution (ids c.id) now c workflows rows) _
      (trigger_cron_execution-KeepsKeys (ids c.id) now c workflows rows)
      (trigger_all-KeepsKeys ids now due workflows
        (trigger_cron_execution (ids c.id) now c workflows rows))

pub process_cron_schedules-KeepsKeys :
    (ids : ℕ → ℕ) (now : ℕ) (workflows : List WorkflowRow) (s : List CronRow × Executions)
    → KeepsKeys s.1 (process_cron_schedules ids now workflows s).1
unfolding process_cron_schedules
process_cron_schedules-KeepsKeys ids now workflows (crons, rows) =
    trigger_all-KeepsKeys ids now (select (is_due now) crons) workflows rows
