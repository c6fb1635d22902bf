-- ===== src/Repository/Recovery.antt =====
-- JobRepository._recover_expired: three UPDATE statements over the expired leases, then the
-- workers that held them are freed.
pub mod Settle
use computecluster.Prelude.{
  ℕ, ◌+◌, Bool, false, none, some, List, not, ◌&&◌, leb, ◌==◌, column_le, any, count_by,
  update_where,
}
use computecluster.Models.Enums.{JobStatus, FailureKind}
use computecluster.Repository.Tables.{JobRow, WorkerRow, Database, is_running}

-- status = 'RUNNING' AND lease_expires_at <= now
abbrev pub expired : ℕ → JobRow → Bool
expired now j = is_running j && column_le j.lease_expires_at now

-- SELECT DISTINCT worker_id: the workers that some expired row names.
abbrev pub holds_expired : ℕ → List JobRow → ℕ → Bool
holds_expired now jobs worker_id =
    any (λ j. expired now j && elim j.worker_id [ none ↦ false | some w ↦ w == worker_id ]) jobs

abbrev pub cancelled_when : ℕ → JobRow → Bool
cancelled_when now j = expired now j && j.cancellation_requested

unfoldable pub cancel_expired : ℕ → JobRow → JobRow
cancel_expired now j = record j {
  status = JobStatus.failed;
  finished_at = some now;
  updated_at = now;
  error = some "cancelled by user; worker lease expired before acknowledgement";
  failure_kind = some FailureKind.cancelled_by_user;
  lease_token = none;
  lease_expires_at = none;
}

abbrev pub exhausted_when : ℕ → JobRow → Bool
exhausted_when now j = expired now j && leb j.max_attempts j.attempt && not j.cancellation_requested

unfoldable pub fail_expired : ℕ → JobRow → JobRow
fail_expired now j = record j {
  status = JobStatus.failed;
  finished_at = some now;
  updated_at = now;
  error = some "worker lease expired; maximum attempts reached";
  failure_kind = some FailureKind.worker_lost;
  lease_token = none;
  lease_expires_at = none;
}

abbrev pub requeued_when : ℕ → JobRow → Bool
requeued_when now j = expired now j && not j.cancellation_requested

unfoldable pub requeue_expired : ℕ → JobRow → JobRow
requeue_expired now j = record j {
  status = JobStatus.queued;
  worker_id = none;
  started_at = none;
  updated_at = now;
  error = some "worker lease expired; job requeued";
  failure_kind = none;
  lease_token = none;
  lease_expires_at = none;
}

-- UPDATE workers SET current_job_id = NULL
unfoldable pub free_worker : WorkerRow → WorkerRow
free_worker w = record w { current_job_id = none }

unfoldable pub recover_jobs : ℕ → List JobRow → List JobRow
recover_jobs now jobs = update_where (requeued_when now) (requeue_expired now) (
    update_where (exhausted_when now) (fail_expired now)
      (update_where (cancelled_when now) (cancel_expired now) jobs))

unfoldable pub recover_expired : ℕ → Database → Database × ℕ
recover_expired now db =
    let cancelled = count_by (cancelled_when now) db.jobs in
    let jobs1 = update_where (cancelled_when now) (cancel_expired now) db.jobs in
    let failed = count_by (exhausted_when now) jobs1 in
    let jobs2 = update_where (exhausted_when now) (fail_expired now) jobs1 in
    let requeued = count_by (requeued_when now) jobs2 in
    (
      record db {
        jobs = recover_jobs now db.jobs;
        workers = update_where (λ w. holds_expired now db.jobs w.id) free_worker db.workers;
      },
      cancelled + failed + requeued,
    )
