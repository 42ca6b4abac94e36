-- ===== src/Tests/Retries.antt =====
-- Tests of the retry loop, and its theorem at a command that fails.
use flow_ctl.Prelude.{◌≡◌, refl, true, none, some, []}
use flow_ctl.Model.Value.{pos}
use flow_ctl.Executor.World.{Request}
use flow_ctl.Executor.Effects.{◌>>=◌, pure, throw, ask, emit}
use flow_ctl.Executor.Step.{run_attempts, max_attempts}
use flow_ctl.Executor.Step.Attempts.{runs, LoopEnds, run_attempts_lem}
use flow_ctl.Tests.Samples.{exits, world, idle}

abbrev make : Request
make = record {
  execution_id = 1;
  step_id = "build";
  command = "make";
  image = "";
  host = "";
  env = [];
  config = [];
}

failing_twice :
    runs (run_attempts (world 1 "") "local" (exits 1) make none 2 1 none idle).1.trace ≡ 2
unfolding run_attempts ◌>>=◌ pure throw ask emit
failing_twice = refl

succeeding_once :
    runs (run_attempts (world 0 "") "local" (exits 0) make none 2 1 none idle).1.trace ≡ 1
unfolding run_attempts ◌>>=◌ pure throw ask emit
succeeding_once = refl

-- With the context done the second attempt is not made.
stops_waiting :
    runs
      (run_attempts
        (record (world 1 "") { context_done = λ n. true })
        "local"
        (exits 1)
        make
        none
        2
        1
        none
        idle).1.trace
    ≡ 1
unfolding run_attempts ◌>>=◌ pure throw ask emit
stops_waiting = refl

-- A policy with 0 attempts runs nothing.
no_attempts :
    max_attempts
      (some (record { max_attempts = pos 0; backoff = ""; initial_wait = ""; max_wait = "" }))
    ≡ 0
unfolding max_attempts
no_attempts = refl

run_attempts_lem_example :
    LoopEnds
      (world 1 "")
      (exits 1)
      make
      2
      idle
      (run_attempts (world 1 "") "local" (exits 1) make none 2 1 none idle)
run_attempts_lem_example = run_attempts_lem (world 1 "") (exits 1) make "local" none 1 1 none idle
