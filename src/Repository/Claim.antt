-- ===== src/Repository/Claim.antt =====
-- JobRepository.claim: one transaction of recovery, registration, and the lease of one job.
pub mod Order
pub mod Grant
use computecluster.Prelude.{
  ℕ, ◌+◌, ◌-◌, String, Bool, true, false, Option, none, some, List, [], ◌∷◌, ◌&&◌, ◌||◌, ltb, ◌==◌,
  if◌then◌else◌, column_eq, column_gt, filter_by, find, update_where, sort_by,
}
use computecluster.Models.Enums.{JobType, JobStatus, same_status, supports}
use computecluster.Models.Records.{JobRead}
use computecluster.Repository.Tables.{JobRow, WorkerRow, Database, has_id, is_running, row_to_job}
use computecluster.Repository.Recovery.{recover_expired}
use computecluster.Repository.Schedule.{preferred_worker_id, target_allows}
use computecluster.Repository.Workers.{is_worker, upsert_worker, set_current}

-- status = 'RUNNING' AND worker_id = ? AND lease_expires_at > ?
abbrev pub is_active : ℕ → ℕ → JobRow → Bool
is_active worker_id now j =
    is_running j && column_eq j.worker_id worker_id && column_gt j.lease_expires_at now

-- ORDER BY started_at ASC, where NULL comes first
abbrev pub column_before : Option ℕ → Option ℕ → Bool
column_before none none = false
column_before none (some b) = true
column_before (some a) none = false
column_before (some a) (some b) = ltb a b

unfoldable pub active_job : ℕ → ℕ → List JobRow → Option JobRow
active_job worker_id now jobs =
    find (is_active worker_id now) (sort_by (λ i j. column_before i.started_at j.started_at) jobs)

-- status = 'QUEUED' AND type IN (...) AND (target_worker_id IS NULL OR target_worker_id = ?)
abbrev pub is_candidate : ℕ → List JobType → JobRow → Bool
is_candidate worker_id supported j =
    same_status j.status JobStatus.queued
    && supports supported j.type
    && target_allows j.target_worker_id worker_id

-- COALESCE(task_index, -1), one up
abbrev index_key : Option ℕ → ℕ
index_key none = 0
index_key (some i) = i + 1

-- ORDER BY created_at ASC, COALESCE(task_index, -1) ASC, id ASC
unfoldable pub queued_before : JobRow → JobRow → Bool
queued_before i j =
    ltb i.created_at j.created_at
    || (i.created_at == j.created_at
        && (ltb (index_key i.task_index) (index_key j.task_index)
            || (index_key i.task_index == index_key j.task_index && ltb i.id j.id)))

unfoldable pub candidates : ℕ → List JobType → List JobRow → List JobRow
candidates worker_id supported jobs =
    filter_by (is_candidate worker_id supported) (sort_by queued_before jobs)

-- The SET list of the lease.
unfoldable pub lease_row : ℕ → ℕ → ℕ → ℕ → JobRow → JobRow
lease_row worker_id claimed_at lease_token lease_expires_at j = record j {
  status = JobStatus.running;
  worker_id = some worker_id;
  started_at = some claimed_at;
  updated_at = claimed_at;
  attempt = j.attempt + 1;
  lease_token = some lease_token;
  lease_expires_at = some lease_expires_at;
  finished_at = none;
  result = none;
  error = none;
  failure_kind = none;
}

-- WHERE id = ? AND status = 'QUEUED'
abbrev pub is_queued_id : ℕ → JobRow → Bool
is_queued_id i j = has_id i j && same_status j.status JobStatus.queued

-- The loop over the candidates: the first that is kept for this worker and is still queued.
unfoldable pub first_preferred : ℕ → List WorkerRow → ℕ → List JobRow → List JobRow → Option JobRow
first_preferred worker_id workers cutoff jobs [] = none
first_preferred worker_id workers cutoff jobs (c ∷ cs) =
    let rest = first_preferred worker_id workers cutoff jobs cs in
    let row = find (is_queued_id c.id) jobs in
    if column_eq (preferred_worker_id c workers cutoff) worker_id
    then elim row [ none ↦ rest | some r ↦ some r ]
    else rest

-- `stale_before or claimed_at - timedelta(seconds=90)`
abbrev pub cutoff_of : Option ℕ → ℕ → ℕ
cutoff_of none claimed_at = claimed_at - 90000000
cutoff_of (some stale_before) claimed_at = stale_before

-- What a claim carries: the arguments of the method.
pub record ClaimRequest : Type 0 where
  pub worker_id : ℕ
  pub supported_types : List JobType
  pub claimed_at : ℕ
  pub lease_token : ℕ
  pub lease_expires_at : ℕ
  pub metrics : Option String
  pub stale_before : Option ℕ

-- The part that leases a queued job.
unfoldable pub claim_queued : ClaimRequest → Database → Database × Option JobRead
unfolding row_to_job
claim_queued r db =
    elim (first_preferred r.worker_id db.workers (cutoff_of r.stale_before r.claimed_at) db.jobs
      (candidates r.worker_id r.supported_types db.jobs)) [
        | none ↦ (db, none)
        | some row ↦
            let leased = lease_row r.worker_id r.claimed_at r.lease_token r.lease_expires_at in
            (
              record db {
                jobs = update_where (is_queued_id row.id) leased db.jobs;
                workers = set_current r.worker_id (some row.id) db.workers;
              },
              some (row_to_job (leased row)),
            )
      ]

-- The part behind the `enabled` test: a job that the worker already holds is returned again.
unfoldable pub claim_enabled : ClaimRequest → Database → Database × Option JobRead
unfolding row_to_job
claim_enabled r db = elim (active_job r.worker_id r.claimed_at db.jobs) [
  | none ↦ claim_queued r db
  | some active ↦ (
    record db { workers = set_current r.worker_id (some active.id) db.workers },
    some (row_to_job active),
  )
]

unfoldable pub register : ClaimRequest → Database → Database
register r db = record db {
  workers = upsert_worker r.worker_id r.supported_types r.claimed_at none r.metrics db.workers;
}

unfoldable pub claim : ClaimRequest → Database → Database × Option JobRead
unfolding register
claim r db =
    let recovered = (recover_expired r.claimed_at db).0 in
    elim (find (is_worker r.worker_id) recovered.workers) [
      | none ↦ (register r recovered, none)
      | some worker ↦
          if worker.enabled
          then claim_enabled r (register r recovered)
          else (register r recovered, none)
    ]
