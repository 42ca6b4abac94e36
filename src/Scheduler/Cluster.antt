-- ===== src/Scheduler/Cluster.antt =====
-- internal/engine/scheduler.go: several nodes over the same tables, interleaved in any order.
use flow_ctl.Prelude.{
  ◌≡◌, ◌≢◌, refl, sym, ap, ◌∙◌, ℕ, Bool, true, false, Option, some, List, [], ◌∷◌, ◌++◌, All,
  All-imp, All-append, map, eqb, ◌&&◌, if◌then◌else◌,
}
use flow_ctl.Model.Execution.{ExecutionStatus}
use flow_ctl.Store.{ExecutionRow, Executions, update_row, insert_row}
use flow_ctl.Scheduler.{
  NodeRow, CronRow, WorkflowRow, handle_new_execution, poll_for_work, dead_nodes, perform_takeover,
  register_node, deregister_node, heartbeat, process_cron_schedules,
}
use flow_ctl.Scheduler.Claims.{
  owner, KeepsOwners, OwnedBy, Acquires, handle_new_execution-Acquires, poll_for_work-Acquires,
  update_row-KeepsOwners, insert_row-KeepsOwners,
}
use flow_ctl.Scheduler.Cron.{process_cron_schedules-KeepsOwners}
use flow_ctl.Scheduler.Takeover.{perform_takeover-KeepsLiving}

-- A call of `runExecution` that has not returned.
pub record Run : Type 0 where
  pub node : ℕ
  pub execution : ℕ

pub record Cluster : Type 0 where
  pub executions : Executions
  pub nodes : List NodeRow
  pub crons : List CronRow
  pub runs : List Run

abbrev pub runs_of : (node : ℕ) → List ℕ → List Run
runs_of node ids = map (λ id. record { node = node; execution = id }) ids

-- The run that ends is dropped.
unfoldable pub end_run : (node execution : ℕ) → List Run → List Run
end_run node execution [] = []
end_run node execution (r ∷ runs) =
    let rest = r ∷ end_run node execution runs in
    if eqb r.node node && eqb r.execution execution then runs else rest

-- The table and the runs after a node acquired executions.
abbrev pub acquiring : Cluster → (node : ℕ) → List ℕ × Executions → Cluster
acquiring s node (ids, rows) = record s { executions = rows; runs = runs_of node ids ++ s.runs }

abbrev pub after_takeover : Cluster → Executions × List NodeRow → Cluster
after_takeover s (rows, nodes) = record s { executions = rows; nodes = nodes }

abbrev pub after_cron : Cluster → List CronRow × Executions → Cluster
after_cron s (crons, rows) = record s { executions = rows; crons = crons }

abbrev pub set_status : ExecutionStatus → ExecutionRow → ExecutionRow
set_status status r = record r { status = status }

-- The steps of the nodes; and a status that is written, and an execution that is added.
pub data Step (s : Cluster) : Cluster → Type 0 where
  poll :
      (lock : ℕ → Option Bool) (writes : ℕ → Bool) (node now : ℕ)
      → Step s (acquiring s node (poll_for_work lock writes node now s.executions))
  notify :
      (lock : Option Bool) (writes : Bool) (node now : ℕ) (payload : Option ℕ)
      → Step s (acquiring s node (handle_new_execution lock writes node now payload s.executions))
  return : (node execution : ℕ) → Step s (record s { runs = end_run node execution s.runs })
  take_over :
      (reassigns deletes : ℕ → Bool) (node now threshold : ℕ)
      → Step s (
          after_takeover s
            (perform_takeover reassigns deletes node now threshold (s.executions, s.nodes)))
  cron :
      (ids : ℕ → ℕ) (now : ℕ) (workflows : List WorkflowRow)
      → Step s (after_cron s (process_cron_schedules ids now workflows (s.crons, s.executions)))
  register : (node now : ℕ) → Step s (record s { nodes = register_node node now s.nodes })
  beat : (node now : ℕ) → Step s (record s { nodes = heartbeat node now s.nodes })
  deregister : (node : ℕ) → Step s (record s { nodes = deregister_node node s.nodes })
  write :
      (id : ℕ) (p : ExecutionRow → Bool) (status : ExecutionStatus) (rows : Executions)
      → update_row id p (set_status status) s.executions ≡ some rows
      → Step s (record s { executions = rows })
  add :
      (r : ExecutionRow) (rows : Executions)
      → insert_row r s.executions ≡ some rows
      → Step s (record s { executions = rows })

-- Any tables, and no runs.
pub data Reach (executions : Executions) (nodes : List NodeRow) (crons : List CronRow)
    : Cluster → Type 0 where
  start :
      Reach executions nodes crons
        (record { executions = executions; nodes = nodes; crons = crons; runs = [] })
  later :
      {s t : Cluster} → Reach executions nodes crons s → Step s t → Reach executions nodes crons t

abbrev pub Runs : (nodes : List ℕ) → List Run → Type 0
Runs nodes runs = All (λ (r : Run). All (λ d. r.node ≢ d) nodes) runs

-- A node that is taken over runs nothing.
unfoldable pub IsTimelyStep : {s t : Cluster} → Step s t → Type 0
IsTimelyStep {s} (take_over reassigns deletes node now threshold) =
    Runs (dead_nodes node now threshold s.nodes) s.runs
IsTimelyStep _ = Unit

unfoldable pub IsTimely :
    {executions : Executions} {nodes : List NodeRow} {crons : List CronRow} {s : Cluster}
    → Reach executions nodes crons s
    → Type 0
unfolding IsTimelyStep
IsTimely start = Unit
IsTimely (later r step) = IsTimely r × IsTimelyStep step

-- Each run's node owns its execution.
AreOwned : Executions → List Run → Type 0
AreOwned rows runs = All (λ (r : Run). OwnedBy r.node rows r.execution) runs

AreOwned-KeepsOwners :
    (rows after : Executions) (runs : List Run)
    → KeepsOwners rows after
    → AreOwned rows runs
    → AreOwned after runs
unfolding AreOwned
AreOwned-KeepsOwners rows after runs keeps h =
    All-imp (λ (r : Run). OwnedBy r.node rows r.execution)
      (λ (r : Run). OwnedBy r.node after r.execution) (λ r q. keeps r.execution r.node q) runs h

runs_of-AreOwned :
    (node : ℕ) (rows : Executions) (ids : List ℕ)
    → All (OwnedBy node rows) ids
    → AreOwned rows (runs_of node ids)
unfolding AreOwned
runs_of-AreOwned node rows [] h = tt
runs_of-AreOwned node rows (id ∷ ids) h = (h.0, runs_of-AreOwned node rows ids h.1)

acquiring-AreOwned :
    (s : Cluster) (node : ℕ) (r : List ℕ × Executions)
    → Acquires node s.executions r
    → AreOwned s.executions s.runs
    → AreOwned (acquiring s node r).executions (acquiring s node r).runs
unfolding AreOwned
acquiring-AreOwned s node (ids, rows) h k =
    All-append (λ (r : Run). OwnedBy r.node rows r.execution) (runs_of node ids) s.runs
      (runs_of-AreOwned node rows ids h.0) (AreOwned-KeepsOwners s.executions rows s.runs h.1 k)

end_run-All :
    (P : Run → Type 0) (node execution : ℕ) (runs : List Run)
    → All P runs
    → All P (end_run node execution runs)
unfolding end_run
end_run-All P node execution [] h = tt
end_run-All P node execution (r ∷ runs) h =
    by (eqb r.node node && eqb r.execution execution) (end_run-All P node execution runs h.1)
  where
    by :
        (b : Bool)
        → All P (end_run node execution runs)
        → All P (if b then runs else r ∷ end_run node execution runs)
    by true k = h.1
    by false k = (h.0, k)

take_over-AreOwned :
    (rows after : Executions) (dead : List ℕ) (runs : List Run)
    → ((j n : ℕ) → All (λ d. n ≢ d) dead → owner j rows ≡ some n → owner j after ≡ some n)
    → Runs dead runs
    → AreOwned rows runs
    → AreOwned after runs
unfolding AreOwned
take_over-AreOwned rows after dead [] keeps l h = tt
take_over-AreOwned rows after dead (r ∷ runs) keeps l h =
    (keeps r.execution r.node l.0 h.0, take_over-AreOwned rows after dead runs keeps l.1 h.1)

Step-AreOwned :
    {s t : Cluster} (step : Step s t)
    → IsTimelyStep step
    → AreOwned s.executions s.runs
    → AreOwned t.executions t.runs
unfolding IsTimelyStep AreOwned
Step-AreOwned {s} (poll lock writes node now) l h =
    acquiring-AreOwned s node (poll_for_work lock writes node now s.executions)
      (poll_for_work-Acquires lock writes node now s.executions) h
Step-AreOwned {s} (notify lock writes node now payload) l h =
    acquiring-AreOwned s node (handle_new_execution lock writes node now payload s.executions)
      (handle_new_execution-Acquires lock writes node now payload s.executions) h
Step-AreOwned {s} (return node execution) l h =
    end_run-All (λ (r : Run). OwnedBy r.node s.executions r.execution) node execution s.runs h
Step-AreOwned {s} (take_over reassigns deletes node now threshold) l h =
    take_over-AreOwned s.executions _ (dead_nodes node now threshold s.nodes) s.runs
      (perform_takeover-KeepsLiving reassigns deletes node now threshold (s.executions, s.nodes)) l
      h
Step-AreOwned {s} (cron ids now workflows) l h =
    AreOwned-KeepsOwners s.executions _ s.runs
      (process_cron_schedules-KeepsOwners ids now workflows (s.crons, s.executions)) h
Step-AreOwned (register node now) l h = h
Step-AreOwned (beat node now) l h = h
Step-AreOwned (deregister node) l h = h
Step-AreOwned {s} (write id p status rows e) l h =
    AreOwned-KeepsOwners s.executions rows s.runs
      (update_row-KeepsOwners id p (set_status status) s.executions rows (λ r. refl) (λ r. refl) e)
      h
Step-AreOwned {s} (add r rows e) l h =
    AreOwned-KeepsOwners s.executions rows s.runs (insert_row-KeepsOwners r s.executions rows e) h

-- Runs of the same execution are runs of the same node.
abbrev pub IsExclusive : List Run → Type 0
IsExclusive runs =
    All (λ (r : Run). All (λ (q : Run). r.execution ≡ q.execution → r.node ≡ q.node) runs) runs

AreOwned-IsExclusive : (rows : Executions) (runs : List Run) → AreOwned rows runs → IsExclusive runs
unfolding AreOwned
AreOwned-IsExclusive rows runs h =
    All-imp (λ (r : Run). OwnedBy r.node rows r.execution)
      (λ (r : Run). All (λ (q : Run). r.execution ≡ q.execution → r.node ≡ q.node) runs)
      (λ r o.
        All-imp (λ (q : Run). OwnedBy q.node rows q.execution)
          (λ (q : Run). r.execution ≡ q.execution → r.node ≡ q.node)
          (λ q u same. some-inj (sym o ∙ ap (λ e. owner e rows) same ∙ u)) runs h)
      runs h
  where
    some-inj : {a b : ℕ} → some a ≡ some b → a ≡ b
    some-inj p = cc

Reach-AreOwned :
    {executions : Executions} {nodes : List NodeRow} {crons : List CronRow} {s : Cluster}
    → (r : Reach executions nodes crons s) → IsTimely r
    → AreOwned s.executions s.runs
unfolding IsTimely AreOwned
Reach-AreOwned start l = tt
Reach-AreOwned (later r step) l = Step-AreOwned step l.1 (Reach-AreOwned r l.0)

-- In every state that nodes reach which take over only nodes that run nothing, two runs of the same
-- execution are on the same node.
pub Reach-IsExclusive :
    {executions : Executions} {nodes : List NodeRow} {crons : List CronRow} {s : Cluster}
    → (r : Reach executions nodes crons s) → IsTimely r
    → IsExclusive s.runs
Reach-IsExclusive {s = s} r l = AreOwned-IsExclusive s.executions s.runs (Reach-AreOwned r l)
