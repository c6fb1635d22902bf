-- ===== src/Repository/Rows.antt =====
-- The life of one job row: which columns are set in which status, and that each SET list keeps it.
use computecluster.Prelude.{ℕ, ◌≤◌, ◌<◌, String, true, false, Option, ◌≡◌, arith, is_some, is_none}
use computecluster.Models.Enums.{JobStatus, FailureKind, same_status}
use computecluster.Models.Parameters.{type_of, JobResult}
use computecluster.Models.Records.{JobRead}
use computecluster.Repository.Tables.{JobRow, is_running}
use computecluster.Repository.Recovery.Settle.{settle}
use computecluster.Repository.Recovery.{cancel_expired, fail_expired, requeue_expired}
use computecluster.Repository.Claim.{lease_row}
use computecluster.Repository.Lease.{
  renew_row, cancel_queued_row, request_cancel_row, finish_row, completed_with, failed_with,
}
use computecluster.Repository.Submit.{job_row}

pub record IsSound (j : JobRow) : Type 0 where
  -- the parameters are those of the type
  pub typed : type_of j.parameters ≡ j.type
  -- a job is never attempted more often than it may be
  pub attempts : j.attempt ≤ j.max_attempts
  -- a waiting job has no worker, no cancellation, and an attempt left
  pub queued_open :
      j.status ≡ JobStatus.queued
      → (is_none j.worker_id ≡ true)
        × (j.cancellation_requested ≡ false)
        × (j.attempt < j.max_attempts)
  -- exactly a running job has a lease, and it has a worker and a start
  pub running_leased :
      j.status ≡ JobStatus.running
      → (is_some j.worker_id ≡ true)
        × (is_some j.lease_token ≡ true)
        × (is_some j.lease_expires_at ≡ true)
        × (is_some j.started_at ≡ true)
        × (0 < j.attempt)
  pub token_iff_running : is_some j.lease_token ≡ is_running j
  pub expiry_iff_running : is_some j.lease_expires_at ≡ is_running j
  -- exactly a completed job has a result, and it was not cancelled
  pub result_iff_completed : is_some j.result ≡ same_status j.status JobStatus.completed
  pub completed_uncancelled : j.status ≡ JobStatus.completed → j.cancellation_requested ≡ false
  -- a completed job was attempted
  pub completed_ran : j.status ≡ JobStatus.completed → 0 < j.attempt
  -- exactly a failed job has a kind of failure
  pub failure_iff_failed : is_some j.failure_kind ≡ same_status j.status JobStatus.failed

pub settle-IsSound : (now : ℕ) (j : JobRow) → IsSound j → IsSound (settle now j)
unfolding settle cancel_expired fail_expired requeue_expired
settle-IsSound now j s = ground arith

pub lease_row-IsSound :
    (worker now token expires : ℕ) (j : JobRow)
    → is_running j ≡ false
    → same_status j.status JobStatus.queued ≡ true
    → IsSound j
    → IsSound (lease_row worker now token expires j)
unfolding lease_row
lease_row-IsSound worker now token expires j r q s = ground arith

pub renew_row-IsSound :
    (expires now : ℕ) (j : JobRow)
    → is_running j ≡ true
    → IsSound j
    → IsSound (renew_row expires now j)
unfolding renew_row
renew_row-IsSound expires now j r s = ground arith

pub cancel_queued_row-IsSound :
    (now : ℕ) (j : JobRow)
    → same_status j.status JobStatus.queued ≡ true
    → IsSound j
    → IsSound (cancel_queued_row now j)
unfolding cancel_queued_row
cancel_queued_row-IsSound now j q s = ground arith

pub request_cancel_row-IsSound :
    (now : ℕ) (j : JobRow) → is_running j ≡ true → IsSound j → IsSound (request_cancel_row now j)
unfolding request_cancel_row
request_cancel_row-IsSound now j r s = ground arith

pub complete_row-IsSound :
    (now : ℕ) (result : JobResult) (j : JobRow)
    → is_running j ≡ true
    → j.cancellation_requested ≡ false
    → IsSound j
    → IsSound (finish_row now (completed_with result) j)
unfolding finish_row
complete_row-IsSound now result j r c s = ground arith

pub fail_row-IsSound :
    (now : ℕ) (error : String) (kind : FailureKind) (j : JobRow)
    → is_running j ≡ true
    → IsSound j
    → IsSound (finish_row now (failed_with error kind) j)
unfolding finish_row
fail_row-IsSound now error kind j r s = ground arith

-- What a submission brings: a waiting job, not attempted yet, of a matching type.
pub record IsFresh (job : JobRead) : Type 0 where
  pub typed : type_of job.parameters ≡ job.type
  pub waiting : job.status ≡ JobStatus.queued
  pub untried : job.attempt ≡ 0
  pub may_run : 0 < job.max_attempts

pub job_row-IsSound :
    (job : JobRead) (key : Option String) (group_id : Option ℕ) (owner : ℕ)
    → IsFresh job
    → IsSound (job_row job key group_id owner)
unfolding job_row
job_row-IsSound job key group_id owner f = ground arith
