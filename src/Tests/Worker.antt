-- ===== src/Tests/Worker.antt =====
-- A cache of three files, a run that is cancelled and refused, and the theorems on them.
use computecluster.Prelude.{
  none, false, not, All, ◌==◌, ℕ, String, ◌||◌, if◌then◌else◌, ltb, ◌≤◌, true, false, some, [], ◌∷◌,
  ◌≡◌, refl, List, arith, count_by, any, filter_by,
}
use computecluster.Models.Enums.{FailureKind}
use computecluster.Repository.Tables.{row_to_job}
use computecluster.Tests.Samples.{running_job}
use computecluster.Worker.Cache.{CacheFile, has_path}
use computecluster.Worker.Cache.Fits.{MakesRoom, KeepsUsed, prune_cache-fits}
use computecluster.Worker.Keeper.{answered, refused, unreachable, keep_lease}
use computecluster.Worker.Reports.{ReportAnswer, ReportEnd, Report, report_outcome}
use computecluster.Worker.Reports.Attempts.{IsReport, report_outcome-IsReport}
use computecluster.Worker.Workspace.{Workspace, Removals, reconcile_workspace}
use computecluster.Worker.Run.{
  Surroundings, batch_failure, JobOutcome, failed, discarded, told, run_job, run_once,
}
use computecluster.Worker.Run.Safety.{
  is_refused, asks_cancellation, run_job-refused, run_job-cancelled,
}
use computecluster.Worker.Run.History.{
  runs_of_others, outputs_of_others, Stuck, IsWithin, begun, ran, WorkerHistory-bounded,
}

abbrev cached : ℕ → ℕ → ℕ → CacheFile
cached path size links = record {
  path = path;
  is_part = false;
  mtime_ns = path;
  size = size;
  nlink = links;
  is_protected = false;
}

abbrev cache_files : List CacheFile
cache_files = cached 1 40 2 ∷ cached 2 30 1 ∷ cached 3 20 1 ∷ []

files_unique : (p : ℕ) → count_by (has_path p) cache_files ≤ 1
unfolding count_by
files_unique p = ground arith

prune_cache-fits_example : MakesRoom 100 30 1000 cache_files × KeepsUsed 100 30 1000 cache_files
prune_cache-fits_example = prune_cache-fits 1000 cache_files files_unique 100 30 (omega arith)

abbrev failing_run : Surroundings
failing_run = record {
  started_at = 0;
  executing = answered 5 false ∷ answered 10 true ∷ [];
  publishing = [];
  reporting = answered 15 false ∷ [];
  execution = batch_failure FailureKind.timed_out "BatchExecutionFailure: out of time";
  outputs = [];
  publish_error = "";
  report_answers = λ i. ReportAnswer.accepted;
}

abbrev refused_run : Surroundings
refused_run = record failing_run { executing = unreachable 5 ∷ refused 10 ∷ [] }

refused_example :
    any is_refused refused_run.executing || any is_refused refused_run.reporting ≡ true
unfolding any
refused_example = refl

run_job-refused_example : run_job 30 refused_run ≡ (discarded, false)
run_job-refused_example = run_job-refused 30 refused_run refused_example

asked_example : any asks_cancellation failing_run.executing ≡ true
unfolding any
asked_example = refl

abbrev outcome : JobOutcome
outcome = failed FailureKind.cancelled_by_user "BatchExecutionFailure: out of time"

abbrev report : Report
report = record { end = ReportEnd.reported; attempts = 1; slept = 0 }

tells_example : (run_job 30 failing_run).0 ≡ told outcome report
unfolding run_job report_outcome keep_lease any
tells_example = refl

run_job-cancelled_example :
    (message : String) × (outcome ≡ failed FailureKind.cancelled_by_user message)
run_job-cancelled_example =
    run_job-cancelled 30 failing_run outcome report asked_example tells_example

-- A service that is unavailable twice.
abbrev answers : ℕ → ReportAnswer
answers n = if ltb n 3 then ReportAnswer.server_error else ReportAnswer.accepted

report_outcome-IsReport_example : IsReport answers 1 5 (report_outcome answers)
report_outcome-IsReport_example = report_outcome-IsReport answers

abbrev found : Workspace
found = record { runs = 3 ∷ []; artifacts = record { job_id = 4; mtime_ns = 9 } ∷ [] }

-- The removals succeed but for the output directory of job 10.
abbrev removals : Removals
removals = record { run_stays = λ i. false; output_stays = λ i. if i == 10 then some 99 else none }

abbrev stuck : Stuck
stuck = record { run = λ i. false; output = λ i. i == 10 }

removals-IsWithin : IsWithin stuck removals
removals-IsWithin = record { runs = λ i h. h; outputs = λ i h. rw (h) refl }

abbrev left : Workspace
left = record (reconcile_workspace removals found) {
  runs = 10 ∷ [];
  artifacts =
      record { job_id = 10; mtime_ns = 12 } ∷ (reconcile_workspace removals found).artifacts;
}

left_others : runs_of_others 10 left ≡ runs_of_others 10 (reconcile_workspace removals found)
unfolding reconcile_workspace filter_by
left_others = refl

left_outputs : outputs_of_others 10 left ≡ outputs_of_others 10 (reconcile_workspace removals found)
unfolding filter_by
left_outputs = refl

abbrev run_end : Workspace
run_end = (run_once (some (row_to_job running_job)) failing_run removals left).1

WorkerHistory-bounded_example :
    All (λ i. false ≡ true) run_end.runs
    × (count_by (λ a. not (a.job_id == 10)) run_end.artifacts ≤ 5)
unfolding row_to_job
WorkerHistory-bounded_example = WorkerHistory-bounded stuck (
    ran left (row_to_job running_job) failing_run removals removals-IsWithin
      (begun removals removals-IsWithin found) refl left_others left_outputs)
