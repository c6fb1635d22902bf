-- ===== src/Tests/Samples.antt =====
-- A small installation: two enabled workers, a running sleep job and a queued container job.
use computecluster.Prelude.{
  true, false, none, some, [], ◌∷◌, any, filter_by, find, count_by, update_where, insert_by,
  sort_by,
}
use computecluster.Models.Enums.{JobType, JobStatus, supports}
use computecluster.Models.Parameters.{JobParameters, UploadReference, InputSource}
use computecluster.Models.Records.{JobCreate}
use computecluster.Repository.Tables.{JobRow, WorkerRow, Database, row_to_job}
use computecluster.Repository.Recovery.{
  cancel_expired, fail_expired, requeue_expired, free_worker, recover_jobs, recover_expired,
}
use computecluster.Repository.Schedule.{
  fits, is_eligible, fits_tighter, comes_before, min_from, preferred_worker, preferred_worker_id,
}
use computecluster.Repository.Workers.{refresh, upsert_worker, set_current, worker_exists}
use computecluster.Repository.Groups
use computecluster.Repository.Submit.{job_row, job_conflict, add}
use computecluster.Service
use computecluster.Service.{has_capacity, submission_error, authorize_lease, lease_is_held}
use computecluster.Repository.Claim.{
  ClaimRequest, active_job, queued_before, candidates, lease_row, first_preferred, claim_queued,
  claim_enabled, register, claim,
}
use computecluster.Repository.Lease.{
  HeartbeatRequest, renew_row, renew, heartbeat, cancel_queued_row, request_cancel_row, cancel_in,
  cancel, finish_row, finish, complete, fail,
}
use computecluster.Repository.History.{empty}
use computecluster.Service.{new_job}

abbrev pub nap : JobParameters
nap = JobParameters.sleep (record { seconds = 30 })

abbrev pub upload : UploadReference
upload = record { upload_id = 5; sha256 = "00ff"; size_bytes = 10 }

abbrev pub training : JobParameters
training = JobParameters.python_batch (record {
  script = upload;
  dataset = InputSource.uploaded upload;
  timeout_seconds = 60;
  cpu_limit = 4;
  memory_mb = 512;
})

abbrev pub sleep_request : JobCreate
sleep_request = record {
  type = JobType.sleep;
  parameters = nap;
  name = some "nap";
  target_worker_id = none;
}

abbrev pub running_job : JobRow
running_job = record {
  id = 10;
  type = JobType.sleep;
  parameters = nap;
  status = JobStatus.running;
  created_at = 100;
  updated_at = 110;
  worker_id = some 1;
  started_at = some 110;
  finished_at = none;
  result = none;
  error = none;
  attempt = 1;
  max_attempts = 3;
  lease_token = some 77;
  lease_expires_at = some 200;
  idempotency_key = none;
  name = some "nap";
  target_worker_id = none;
  failure_kind = none;
  cancellation_requested = false;
  group_id = none;
  task_id = none;
  task_index = none;
  owner_user_id = 1;
}

abbrev pub queued_job : JobRow
queued_job = record running_job {
  id = 11;
  type = JobType.python_batch;
  parameters = training;
  status = JobStatus.queued;
  worker_id = none;
  started_at = none;
  attempt = 0;
  lease_token = none;
  lease_expires_at = none;
}

abbrev pub laptop : WorkerRow
laptop = record {
  id = 1;
  supported_types = JobType.sleep ∷ JobType.python_batch ∷ [];
  registered_at = 10;
  last_seen = 150;
  current_job_id = some 10;
  metrics_json = none;
  enabled = true;
  max_job_cpu = some 4;
  max_job_memory_mb = some 2048;
}

abbrev pub desktop : WorkerRow
desktop = record laptop { id = 2; current_job_id = none; max_job_memory_mb = some 1024 }

abbrev pub cluster : Database
cluster = record empty { jobs = running_job ∷ queued_job ∷ []; workers = laptop ∷ desktop ∷ [] }

abbrev pub desktop_claim : ClaimRequest
desktop_claim = record {
  worker_id = 2;
  supported_types = JobType.python_batch ∷ [];
  claimed_at = 160;
  lease_token = 78;
  lease_expires_at = 260;
  metrics = none;
  stale_before = some 140;
}

abbrev pub laptop_beat : HeartbeatRequest
laptop_beat = record {
  worker_id = 1;
  supported_types = JobType.sleep ∷ [];
  seen_at = 170;
  lease_expires_at = 270;
  current_job_id = some 10;
  lease_token = some 77;
  metrics = none;
}

-- To unfold this is to unfold the program.
unfoldable pub program : Unit {0}
unfolding any filter_by find count_by update_where insert_by sort_by supports row_to_job
    cancel_expired fail_expired requeue_expired free_worker recover_jobs recover_expired fits
    is_eligible fits_tighter comes_before min_from preferred_worker preferred_worker_id refresh
    upsert_worker set_current active_job queued_before candidates lease_row first_preferred
    claim_queued claim_enabled register claim renew_row renew heartbeat cancel_queued_row
    request_cancel_row cancel_in cancel finish_row finish complete fail Groups.get job_row
    job_conflict add has_capacity submission_error new_job Service.complete Service.fail
    authorize_lease lease_is_held worker_exists
program = tt
