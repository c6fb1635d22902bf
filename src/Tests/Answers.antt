-- ===== src/Tests/Answers.antt =====
-- The service's theorems on the sample tables.
use computecluster.Prelude.{
  ◌≤◌, String, true, none, some, List, [], ◌∷◌, ◌≡◌, refl, arith, count_by, is_some, any, find,
}
use computecluster.Models.Enums.{JobType, JobStatus, FailureKind}
use computecluster.Models.Parameters.{JobResult}
use computecluster.Models.Records.{JobRead, JobGroupCreate, JobCompletion, JobFailure}
use computecluster.Repository.Tables.{JobRow, Database, has_id, row_to_job}
use computecluster.Repository.Lease
use computecluster.Repository.Lease.{completed_with, finish_row, failed_with}
use computecluster.Repository.History.{History, empty}
use computecluster.Models.Validation.{type_matches_parameters}
use computecluster.Service.{
  create, new_job, submission_error, has_capacity, same_request, complete, fail, authorize_lease,
  result_matches,
}
use computecluster.Service.Rejections.{create_raised, complete_raised, fail_raised}
use computecluster.Repository.Submit.{add, job_row, job_conflict}
use computecluster.Service.Replies.{
  ok, raised, idempotency_conflict, job_transition, default_config,
}
use computecluster.Service.Answers.{
  is_ok, authorize_lease-complete, complete_typed, IsCancelled, fail-IsCancelled,
}
use computecluster.Service.Calls.{
  Call, creates, cancels_job, recovers_jobs, run_calls, run_calls-History,
}
use computecluster.Tests.Samples.{cluster, running_job, sleep_request, program}

-- A text for each group request, as the dump.
abbrev dump : JobGroupCreate → String
dump g = g.name

abbrev calls : List Call
calls = creates 100 20 sleep_request (some "k") 1 ∷ cancels_job 110 20 none ∷ recovers_jobs 120 ∷ []

run_calls-History_example : History empty (run_calls dump default_config calls empty)
unfolding type_matches_parameters
run_calls-History_example =
    run_calls-History dump default_config (omega arith) calls empty (refl, (tt, (tt, tt)))

unique_id : count_by (has_id 10) cluster.jobs ≤ 1
unfolding program
unique_id = omega arith

authorize_lease-complete_example :
    is_ok (authorize_lease 150 10 1 77 cluster)
    ≡ is_some (Lease.complete 10 1 77 (JobResult.sleep 30) 150 cluster).1
authorize_lease-complete_example =
    authorize_lease-complete 150 10 1 77 (JobResult.sleep 30) cluster unique_id

abbrev report : JobCompletion
report = record { worker_id = 1; lease_token = 77; result = JobResult.sleep 30 }

abbrev finished_job : JobRead
finished_job = row_to_job (finish_row 150 (completed_with (JobResult.sleep 30)) running_job)

finished : (complete 150 10 report cluster).1 ≡ ok finished_job
unfolding program
finished = refl

complete_typed_example :
    (result_matches finished_job.type (JobResult.sleep 30) ≡ true)
    × (finished_job.status ≡ JobStatus.completed)
    × (finished_job.result ≡ some (JobResult.sleep 30))
complete_typed_example = complete_typed 150 10 report cluster finished_job unique_id finished

abbrev cancelled : Database
cancelled = (Lease.cancel 10 150 cluster).0

abbrev crash : JobFailure
crash = record {
  worker_id = 1;
  lease_token = 77;
  failure_kind = FailureKind.execution_error;
  error = "exit 1";
}

abbrev failed_job : JobRead
failed_job = row_to_job (
    finish_row 155 (failed_with "cancelled by user" FailureKind.cancelled_by_user)
      (record running_job { cancellation_requested = true }))

failed_answer : (fail 155 10 crash cancelled).1 ≡ ok failed_job
unfolding program
failed_answer = refl

abbrev cancelled_row : JobRow
cancelled_row = record running_job { cancellation_requested = true; updated_at = 150 }

found_cancelled : find (has_id 10) cancelled.jobs ≡ some cancelled_row
unfolding program
found_cancelled = refl

once_cancelled : count_by (has_id 10) cancelled.jobs ≤ 1
unfolding program count_by
once_cancelled = omega arith

fail-IsCancelled_example : IsCancelled 10 (fail 155 10 crash cancelled).0 failed_job
fail-IsCancelled_example =
    fail-IsCancelled 155 10 crash cancelled failed_job cancelled_row once_cancelled found_cancelled
      refl failed_answer

-- The key of a stored job, repeated with another request.
abbrev submitted : Database
submitted = (create default_config 100 20 sleep_request (some "k") 1 empty).0

conflict :
    (create default_config 110 21
      (record sleep_request { type = JobType.batch })
      (some "k")
      1
      submitted).1
    ≡ raised idempotency_conflict
unfolding create add new_job submission_error has_capacity same_request job_row job_conflict
    row_to_job any find
conflict = refl

create_raised_example :
    (create default_config 110 21
      (record sleep_request { type = JobType.batch })
      (some "k")
      1
      submitted).0
    ≡ submitted
create_raised_example =
    create_raised default_config 110 21 (record sleep_request { type = JobType.batch }) (some "k") 1
      submitted idempotency_conflict conflict

-- A report under another token.
abbrev stray_report : JobCompletion
stray_report = record { worker_id = 1; lease_token = 78; result = JobResult.sleep 30 }

refused_report : (complete 150 10 stray_report cluster).1 ≡ raised job_transition
unfolding program
refused_report = refl

complete_raised_example : (complete 150 10 stray_report cluster).0 ≡ cluster
complete_raised_example = complete_raised 150 10 stray_report cluster job_transition refused_report

abbrev stray_failure : JobFailure
stray_failure = record {
  worker_id = 1;
  lease_token = 78;
  error = "exit 1";
  failure_kind = FailureKind.execution_error;
}

refused_failure : (fail 150 10 stray_failure cluster).1 ≡ raised job_transition
unfolding program
refused_failure = refl

fail_raised_example : (fail 150 10 stray_failure cluster).0 ≡ cluster
fail_raised_example = fail_raised 150 10 stray_failure cluster job_transition refused_failure
