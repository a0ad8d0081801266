-- ===== src/Examples/OfPipeline.antt =====
-- Runs of internal/pipeline with an executor that never succeeds.
use one_dev_army.Common.{ℕ, ◌≢◌, false, String, arith}
use one_dev_army.Pipeline.Stage.{Stage, queued, coding}
use one_dev_army.Pipeline.Run.{Reply, ok, running}
use one_dev_army.Pipeline.Run
use one_dev_army.Pipeline.Termination.{run-ne-running}
use one_dev_army.Pipeline.Outcome.{run-Ends, Ends}

abbrev never : ℕ → Stage → String → ℕ → Reply × ℕ
never task s context w = (ok (record { stage = s; success = false; output = "" }), w)

run-ne-running_example : (Run.run never 2 7 300 queued "" 0).0 ≢ running
run-ne-running_example = run-ne-running never 2 7 queued "" 0

run-Ends_example :
    Ends 2 2 (Run.run never 2 7 50 coding "" 0).0 (Run.run never 2 7 50 coding "" 0).1
run-Ends_example = run-Ends never 2 7 coding 50 "" 0 (omega arith)
