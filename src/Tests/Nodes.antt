-- ===== src/Tests/Nodes.antt =====
-- Tests of the scheduler, and its theorems at a small cluster.
use flow_ctl.Prelude.{
  ◌≡◌, ◌≢◌, refl, ℕ, ◌≤◌, arith, Bool, true, none, some, Option, List, [], ◌∷◌, All, length, map,
  select,
}
use flow_ctl.Model.Execution.{ExecutionStatus}
use flow_ctl.Store.{ExecutionRow, Executions}
use flow_ctl.Scheduler.{
  NodeRow, CronRow, WorkflowRow, poll_for_work, perform_takeover, process_cron_schedules,
  dead_nodes,
}
use flow_ctl.Scheduler.Cluster.{Cluster, Step, Reach, IsTimely, IsExclusive, Reach-IsExclusive}
use flow_ctl.Scheduler.Cron.{due_ids, process_cron_schedules-due}
use flow_ctl.Scheduler.Polls.{IsWaiting, poll_for_work-le}
use flow_ctl.Scheduler.Takeover.{freed, remains, perform_takeover_lem}

abbrev row : (id created_at : ℕ) → ExecutionStatus → (node : Option ℕ) → ExecutionRow
row id created_at status node = record {
  id = id;
  tenant_id = 1;
  workflow_id = 1;
  version_id = 1;
  status = status;
  idempotency_key = none;
  inputs = [];
  triggered_by = none;
  trigger_type = "api";
  created_at = created_at;
  finished_at = none;
  scheduler_node = node;
  lock_acquired_at = none;
}

abbrev rows : Executions
rows =
    row 7 20 ExecutionStatus.queued none
    ∷ row 8 10 ExecutionStatus.queued none
    ∷ row 9 5 ExecutionStatus.waiting_approval (some 3)
    ∷ row 6 5 ExecutionStatus.running (some 3)
    ∷ []

abbrev node : (id heartbeat_at : ℕ) → NodeRow
node id heartbeat_at = record { id = id; heartbeat_at = heartbeat_at; started_at = 0 }

abbrev nodes : List NodeRow
nodes = node 1 100 ∷ node 2 100 ∷ node 3 10 ∷ []

abbrev schedule : CronRow
schedule = record {
  id = 4;
  tenant_id = 1;
  workflow_id = 1;
  inputs = [];
  enabled = true;
  next_run_at = some 50;
  last_run_at = none;
}

abbrev workflows : List WorkflowRow
workflows = record { id = 1; tenant_id = 1; active_version_id = some 2 } ∷ []

abbrev granted : ℕ → Option Bool
granted id = some true

abbrev fine : ℕ → Bool
fine id = true

oldest_first : (poll_for_work granted fine 1 100 rows).0 ≡ 8 ∷ 7 ∷ []
unfolding poll_for_work
oldest_first = refl

-- Both nodes poll, and node 1 takes over node 3, which runs nothing.
abbrev two_polls : Cluster
unfolding poll_for_work perform_takeover
two_polls = record {
  executions =
      (perform_takeover fine fine 1 100 30
        ((poll_for_work granted fine 2 100 (poll_for_work granted fine 1 100 rows).1).1, nodes)).0;
  nodes = (perform_takeover fine fine 1 100 30 (rows, nodes)).1;
  crons = schedule ∷ [];
  runs = record { node = 1; execution = 8 } ∷ record { node = 1; execution = 7 } ∷ [];
}

-- The nodes that run something are not the dead one.
abbrev one : ℕ
one = 1

other : one ≢ 3
other = λ e. absurd (omega (arith, e))

Reach-IsExclusive_example :
    IsExclusive (record { node = 1; execution = 8 } ∷ record { node = 1; execution = 7 } ∷ [])
unfolding IsTimely poll_for_work perform_takeover
Reach-IsExclusive_example =
    Reach-IsExclusive {executions = rows} {nodes = nodes} {crons = schedule ∷ []} {s = two_polls}
      (Reach.later
        (Reach.later (Reach.later Reach.start (Step.poll granted fine 1 100))
          (Step.poll granted fine 2 100))
        (Step.take_over fine fine 1 100 30))
      (((tt, tt), tt), ((other, tt), ((other, tt), tt)))

-- A node that is slow, and not dead, still runs what another node takes over and starts.
abbrev slow : Executions
slow = row 7 20 ExecutionStatus.running (some 3) ∷ []

restarted :
    (poll_for_work granted fine 1 101 (perform_takeover fine fine 1 100 30 (slow, nodes)).0).0
    ≡ 7 ∷ []
unfolding poll_for_work perform_takeover
restarted = refl

poll_for_work-le_example :
    (length (poll_for_work granted fine 1 100 rows).0 ≤ 10)
    × All (IsWaiting rows) (poll_for_work granted fine 1 100 rows).0
poll_for_work-le_example = poll_for_work-le granted fine 1 100 rows

perform_takeover_lem_example : perform_takeover fine fine 1 100 30 (rows, nodes) ≡ (
  map (freed (dead_nodes 1 100 30 nodes)) rows,
  select (remains (dead_nodes 1 100 30 nodes)) nodes,
)
perform_takeover_lem_example = perform_takeover_lem 1 100 30 rows nodes

-- Thirty seconds later the schedule is due again.
process_cron_schedules-due_example :
    due_ids 130 (process_cron_schedules (λ id. 100) 100 workflows (schedule ∷ [], rows)).0 ≡ 4 ∷ []
process_cron_schedules-due_example =
    process_cron_schedules-due (λ id. 100) 100 130 workflows (schedule ∷ [], rows) (omega arith)
