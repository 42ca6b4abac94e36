-- ===== src/Scheduler/Cron.antt =====
-- internal/engine/scheduler.go: `processCronSchedules`.
use flow_ctl.Prelude.{
  ◌≡◌, refl, ℕ, ◌≤◌, Bool, true, false, Option, none, some, List, [], ◌∷◌, map, select, Bool-cases,
  inl, inr, Option-cases, if◌then◌else◌,
}
use flow_ctl.Store.{ExecutionRow, Executions, insert_row}
use flow_ctl.Scheduler.{
  CronRow, WorkflowRow, is_due, mark_run, active_version, trigger_cron_execution, trigger_all,
  process_cron_schedules,
}
use flow_ctl.Scheduler.Claims.{KeepsOwners, insert_row-KeepsOwners}

inserted-KeepsOwners :
    (r : ExecutionRow) (rows : Executions)
    → KeepsOwners rows (elim (insert_row r rows) [ none ↦ rows | some rows' ↦ rows' ])
inserted-KeepsOwners r rows = on (insert_row r rows) refl
  where
    on :
        (o : Option Executions)
        → insert_row r rows ≡ o
        → KeepsOwners rows (elim o [ none ↦ rows | some rows' ↦ rows' ])
    on none e = λ j n h. h
    on (some after) e = insert_row-KeepsOwners r rows after e

trigger_cron_execution-KeepsOwners :
    (id now : ℕ) (c : CronRow) (workflows : List WorkflowRow) (rows : Executions)
    → KeepsOwners rows (trigger_cron_execution id now c workflows rows)
unfolding trigger_cron_execution
trigger_cron_execution-KeepsOwners id now c workflows rows =
    elim (Option-cases (active_version c.workflow_id c.tenant_id workflows)) [
      | inl e ↦ rw (e, trigger_cron_execution) (λ j n h. h)
      | inr (version, e) ↦ rw (e, trigger_cron_execution) (inserted-KeepsOwners _ rows)
    ]

trigger_all-KeepsOwners :
    (ids : ℕ → ℕ) (now : ℕ) (due : List CronRow) (workflows : List WorkflowRow) (rows : Executions)
    → KeepsOwners rows (trigger_all ids now due workflows rows)
unfolding trigger_all
trigger_all-KeepsOwners ids now [] workflows rows = λ j n h. h
trigger_all-KeepsOwners ids now (c ∷ due) workflows rows = λ j n h.
    trigger_all-KeepsOwners ids now due workflows
      (trigger_cron_execution (ids c.id) now c workflows rows) j n
      (trigger_cron_execution-KeepsOwners (ids c.id) now c workflows rows j n h)

pub process_cron_schedules-KeepsOwners :
    (ids : ℕ → ℕ) (now : ℕ) (workflows : List WorkflowRow) (s : List CronRow × Executions)
    → KeepsOwners s.1 (process_cron_schedules ids now workflows s).1
unfolding process_cron_schedules
process_cron_schedules-KeepsOwners ids now workflows (crons, rows) =
    trigger_all-KeepsOwners ids now (select (is_due now) crons) workflows rows

-- The identifiers of the schedules that are due.
abbrev pub due_ids : (now : ℕ) → List CronRow → List ℕ
due_ids now crons = map (λ (c : CronRow). c.id) (select (is_due now) crons)

mark-due :
    (now later : ℕ) (c : CronRow)
    → now ≤ later
    → (is_due later (if is_due now c then record c { last_run_at = some now } else c)
        ≡ is_due later c)
      × ((if is_due now c then record c { last_run_at = some now } else c).id ≡ c.id)
mark-due now later c h = elim (Bool-cases (is_due now c)) [
  | inl e ↦ rw e (refl, refl)
  | inr e ↦ rw e (refl, refl)
]

-- After processCronSchedules the same schedules are due, in the same order, at any later time as they
-- were without it: a schedule that was due stays due for every further call.
pub process_cron_schedules-due :
    (ids : ℕ → ℕ) (now later : ℕ) (workflows : List WorkflowRow) (s : List CronRow × Executions)
    → now ≤ later
    → due_ids later (process_cron_schedules ids now workflows s).0 ≡ due_ids later s.0
unfolding process_cron_schedules mark_run
process_cron_schedules-due ids now later workflows (crons, rows) h = go crons
  where
    cons_if :
        (b : Bool) (c d : CronRow) (xs ys : List CronRow)
        → c.id ≡ d.id
        → map (λ (c : CronRow). c.id) xs ≡ map (λ (c : CronRow). c.id) ys
        → map (λ (c : CronRow). c.id) (if b then c ∷ xs else xs)
          ≡ map (λ (c : CronRow). c.id) (if b then d ∷ ys else ys)
    cons_if true c d xs ys e k = λ i. e i ∷ k i
    cons_if false c d xs ys e k = k

    go :
        (crons : List CronRow)
        → due_ids later
            (map (λ c. if is_due now c then record c { last_run_at = some now } else c) crons)
          ≡ due_ids later crons
    go [] = refl
    go (c ∷ crons) =
        let marked = mark-due now later c h in
        rw (marked.0) (cons_if (is_due later c) _ c _ _ marked.1 (go crons))
