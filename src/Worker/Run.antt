-- ===== src/Worker/Run.antt =====
-- worker/main.py: run_once. What the threads and the network do is given: the heartbeats before the
-- end of the execution, during the publication and before the report, and the answers.
pub mod Safety
pub mod History
use computecluster.Prelude.{
  ℕ, String, Bool, true, false, Option, none, some, List, [], if◌then◌else◌, is_none,
}
use computecluster.Models.Enums.{FailureKind}
use computecluster.Models.Parameters.{JobResult}
use computecluster.Models.Records.{JobRead}
use computecluster.Worker.Keeper.{Beat, KeeperState, started, keep_lease, lease_length}
use computecluster.Worker.Reports.{
  OutputFile, publish_artifacts, ReportAnswer, Report, report_outcome,
}
use computecluster.Worker.Workspace.{Removals, Workspace, scratch_exit}

-- How execute() ends: a result, a BatchExecutionFailure, or another exception, with the text that
-- f"{type(error).__name__}: {error}" makes of it.
pub data Execution : Type 0 where
  finished : JobResult → Execution
  batch_failure : FailureKind → String → Execution
  other_error : String → Execution

-- What run_once meets.
pub record Surroundings : Type 0 where
  pub started_at : ℕ
  pub executing : List Beat
  pub publishing : List Beat
  pub reporting : List Beat
  pub execution : Execution
  pub outputs : List OutputFile
  pub publish_error : String
  pub report_answers : ℕ → ReportAnswer

-- JobResult | Failed
pub data JobOutcome : Type 0 where
  succeeded : JobResult → JobOutcome
  failed : FailureKind → String → JobOutcome

-- The outcome with the state of the keeper and of the scratch directories.
pub record Decided : Type 0 where
  pub outcome : JobOutcome
  pub keeper : KeeperState
  pub keep_outputs : Bool

-- The kind that the except clause chooses.
abbrev kind_of : KeeperState → FailureKind → FailureKind
kind_of k kind = if k.cancelled then FailureKind.cancelled_by_user else kind

abbrev decided : KeeperState → Bool → JobOutcome → Decided
decided k keep outcome = record { outcome = outcome; keeper = k; keep_outputs = keep }

unfoldable pub publish_result : ℕ → Surroundings → JobResult → KeeperState → Decided
unfolding publish_artifacts keep_lease
publish_result lease s result k =
    let k' = keep_lease lease s.publishing k in
    elim (publish_artifacts s.outputs) [
      | some n ↦ decided k' false (succeeded result)
      | none ↦ decided k' true (failed (kind_of k' FailureKind.execution_error) s.publish_error)
    ]

-- The try statement of run_once.
unfoldable pub decide_outcome : ℕ → Surroundings → KeeperState → Execution → Decided
unfolding publish_result
decide_outcome lease s k (finished result) =
    let published = publish_result lease s result k in
    if k.cancelled
    then decided k false
        (failed FailureKind.cancelled_by_user "BatchExecutionFailure: job cancelled by user")
    else published
decide_outcome lease s k (batch_failure kind message) =
    decided k false (failed (kind_of k kind) message)
decide_outcome lease s k (other_error message) =
    decided k false (failed (kind_of k FailureKind.execution_error) message)

pub data RunEnd : Type 0 where
  no_job invalid_job : RunEnd
  discarded : RunEnd
  told : JobOutcome → Report → RunEnd

-- The end of one run, and whether the outputs are kept.
unfoldable pub run_job : ℕ → Surroundings → RunEnd × Bool
unfolding decide_outcome keep_lease report_outcome
run_job lease s =
    let k = keep_lease lease s.executing (started s.started_at) in
    let d = decide_outcome lease s k s.execution in
    let last = keep_lease lease s.reporting d.keeper in
    if last.lost
    then (discarded, false)
    else (told d.outcome (report_outcome s.report_answers), d.keep_outputs)

-- run_once, from the answer of claim on, with the workspace as the execution has left it and what
-- the removal of its directories leaves.
unfoldable pub run_once : Option JobRead → Surroundings → Removals → Workspace → RunEnd × Workspace
unfolding run_job lease_length scratch_exit
run_once none s r w = (no_job, w)
run_once (some job) s r w =
    if is_none job.lease_token then (invalid_job, w) else elim (lease_length job) [
      | none ↦ (invalid_job, scratch_exit r job.id false w)
      | some lease ↦ let ended = run_job lease s in (ended.0, scratch_exit r job.id ended.1 w)
    ]
