-- ===== src/Repository/Lease.antt =====
-- JobRepository.heartbeat, cancel, complete and fail: what happens to a leased job.
pub mod Fencing
use computecluster.Prelude.{
  ℕ, String, Bool, true, false, Option, none, some, List, not, ◌&&◌, ◌||◌, column_eq, column_gt,
  find, update_where,
}
use computecluster.Models.Enums.{JobType, JobStatus, FailureKind, same_status}
use computecluster.Models.Parameters.{JobResult}
use computecluster.Models.Records.{JobRead}
use computecluster.Repository.Tables.{JobRow, Database, has_id, is_running, row_to_job}
use computecluster.Repository.Workers.{upsert_worker, set_current}

-- id = ? AND status = 'RUNNING' AND worker_id = ? AND lease_token = ? AND lease_expires_at > ?
abbrev pub holds_lease : ℕ → ℕ → ℕ → ℕ → JobRow → Bool
holds_lease job_id worker_id lease_token now j =
    has_id job_id j
    && is_running j
    && column_eq j.worker_id worker_id
    && column_eq j.lease_token lease_token
    && column_gt j.lease_expires_at now

pub record HeartbeatRequest : Type 0 where
  pub worker_id : ℕ
  pub supported_types : List JobType
  pub seen_at : ℕ
  pub lease_expires_at : ℕ
  pub current_job_id : Option ℕ
  pub lease_token : Option ℕ
  pub metrics : Option String

unfoldable pub renew_row : ℕ → ℕ → JobRow → JobRow
renew_row lease_expires_at seen_at j = record j {
  lease_expires_at = some lease_expires_at;
  updated_at = seen_at;
}

abbrev pub seen : HeartbeatRequest → Option ℕ → Database → Database
seen h current db = record db {
  workers = upsert_worker h.worker_id h.supported_types h.seen_at current h.metrics db.workers;
}

-- The branch with a job and its token; `none` is the refusal.
unfoldable pub renew : HeartbeatRequest → ℕ → ℕ → Database → Database × Option Bool
renew h job_id token db = elim (find (holds_lease job_id h.worker_id token h.seen_at) db.jobs) [
  | none ↦ (db, none)
  | some row ↦ (
    seen h (some job_id) (record db {
      jobs =
          update_where (holds_lease job_id h.worker_id token h.seen_at)
            (renew_row h.lease_expires_at h.seen_at) db.jobs;
    }),
    some row.cancellation_requested,
  )
]

unfoldable pub heartbeat : HeartbeatRequest → Database → Database × Option Bool
heartbeat h db = elim h.current_job_id [
  | none ↦ (seen h none db, some false)
  | some job_id ↦ elim h.lease_token [
    | none ↦ (seen h none db, some false)
    | some token ↦ renew h job_id token db
  ]
]

unfoldable pub cancel_queued_row : ℕ → JobRow → JobRow
cancel_queued_row now j = record j {
  status = JobStatus.failed;
  cancellation_requested = true;
  failure_kind = some FailureKind.cancelled_by_user;
  error = some "cancelled by user";
  finished_at = some now;
  updated_at = now;
}

unfoldable pub request_cancel_row : ℕ → JobRow → JobRow
request_cancel_row now j = record j { cancellation_requested = true; updated_at = now }

-- WHERE id = ? AND status = ?
abbrev pub has_id_status : ℕ → JobStatus → JobRow → Bool
has_id_status i status j = has_id i j && same_status j.status status

unfoldable pub cancel_in : JobStatus → ℕ → ℕ → JobRow → Database → Database × Option JobRead
unfolding row_to_job
cancel_in JobStatus.queued job_id now row db = (
  record db {
    jobs = update_where (has_id_status job_id JobStatus.queued) (cancel_queued_row now) db.jobs;
  },
  some (row_to_job (cancel_queued_row now row)),
)
cancel_in JobStatus.running job_id now row db = (
  record db {
    jobs = update_where (has_id_status job_id JobStatus.running) (request_cancel_row now) db.jobs;
  },
  some (row_to_job (request_cancel_row now row)),
)
cancel_in _ job_id now row db = (db, some (row_to_job row))

unfoldable pub cancel : ℕ → ℕ → Database → Database × Option JobRead
unfolding cancel_in
cancel job_id now db = elim (find (has_id job_id) db.jobs) [
  | none ↦ (db, none)
  | some row ↦ cancel_in row.status job_id now row db
]

-- The keyword arguments of _finish.
pub record Outcome : Type 0 where
  pub status : JobStatus
  pub result : Option JobResult
  pub error : Option String
  pub failure_kind : Option FailureKind
  pub allow_cancellation : Bool

unfoldable pub finish_row : ℕ → Outcome → JobRow → JobRow
finish_row finished_at o j = record j {
  status = o.status;
  result = o.result;
  error = o.error;
  failure_kind = o.failure_kind;
  finished_at = some finished_at;
  updated_at = finished_at;
  lease_token = none;
  lease_expires_at = none;
}

-- The WHERE clause of _finish.
abbrev pub may_finish : ℕ → ℕ → ℕ → ℕ → Bool → JobRow → Bool
may_finish job_id worker_id lease_token now allow_cancellation j =
    holds_lease job_id worker_id lease_token now j
    && (allow_cancellation || not j.cancellation_requested)

-- _finish
unfoldable pub finish : ℕ → ℕ → ℕ → ℕ → Outcome → Database → Database × Option JobRead
unfolding row_to_job
finish job_id worker_id lease_token finished_at o db =
    elim (find (may_finish job_id worker_id lease_token finished_at o.allow_cancellation) db.jobs) [
      | none ↦ (db, none)
      | some row ↦ (
        record db {
          jobs =
              update_where
                (may_finish job_id worker_id lease_token finished_at o.allow_cancellation)
                (finish_row finished_at o) db.jobs;
          workers = set_current worker_id none db.workers;
        },
        some (row_to_job (finish_row finished_at o row)),
      )
    ]

abbrev pub completed_with : JobResult → Outcome
completed_with result = record {
  status = JobStatus.completed;
  result = some result;
  error = none;
  failure_kind = none;
  allow_cancellation = false;
}

abbrev pub failed_with : String → FailureKind → Outcome
failed_with error kind = record {
  status = JobStatus.failed;
  result = none;
  error = some error;
  failure_kind = some kind;
  allow_cancellation = true;
}

unfoldable pub complete : ℕ → ℕ → ℕ → JobResult → ℕ → Database → Database × Option JobRead
complete job_id worker_id lease_token result finished_at =
    finish job_id worker_id lease_token finished_at (completed_with result)

unfoldable pub fail : ℕ → ℕ → ℕ → String → FailureKind → ℕ → Database → Database × Option JobRead
fail job_id worker_id lease_token error kind finished_at =
    finish job_id worker_id lease_token finished_at (failed_with error kind)
