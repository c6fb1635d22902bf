-- ===== src/Service.antt =====
-- app/service.py: JobService. Each method takes the configuration, the current time, the fresh
-- UUIDs that it draws, its arguments and the database.
pub mod Replies
pub mod Effects
pub mod Calls
pub mod Answers
pub mod Rejections
use text.Mathlib.Text.{◌==◌ as str_eq}
use computecluster.Prelude.{
  ℕ, suc, ◌+◌, ◌-◌, ◌*◌, String, Bool, true, false, Option, none, some, List, [], ◌∷◌, not, ◌&&◌,
  ◌||◌, ◌==◌, leb, if◌then◌else◌, column_eq, column_gt, any, filter_by,
}
use computecluster.Models.Enums.{JobType, JobStatus, FailureKind, same_type, same_status}
use computecluster.Models.Parameters.{JobParameters, JobResult, resources}
use computecluster.Models.Records.{
  JobCreate, JobRead, JobGroupTaskCreate, JobGroupCreate, JobGroupRead, JobCompletion, JobFailure,
  WorkerClaim, WorkerHeartbeat, WorkerCapacityUpdate, WorkerRead,
}
use computecluster.Models.Equality.{same_parameters, same_name, same_target}
use computecluster.Repository.Tables.{WorkerRow, Database}
use computecluster.Repository.Workers
use computecluster.Repository.Workers.{worker_exists}
use computecluster.Repository.Schedule.{within_limit}
use computecluster.Repository.Claim
use computecluster.Repository.Lease
use computecluster.Repository.Recovery
use computecluster.Repository.Groups
use computecluster.Repository.Submit
use computecluster.Repository.Submit.{AppOrigin, Submitted}
use Replies.{
  ServiceError, job_transition, job_not_found, job_group_not_found, idempotency_conflict,
  scheduling_capacity, worker_not_found, repository_fault, Reply, ok, raised, ServiceConfig,
  or_raise,
}

abbrev seconds : ℕ → ℕ
seconds n = n * 1000000

-- The worker is the target, or there is none, and both its limits admit the request.
abbrev pub is_adequate : Option ℕ → ℕ → ℕ → WorkerRow → Bool
is_adequate target cpu memory w =
    (elim target [ none ↦ true | some t ↦ w.id == t ])
    && within_limit cpu w.max_job_cpu
    && within_limit memory w.max_job_memory_mb

-- _validate_batch_capacity: whether it returns
unfoldable pub has_capacity : JobCreate → Database → Bool
has_capacity job db = elim (resources job.parameters) [
  | none ↦ true
  | some (cpu, memory) ↦ any (is_adequate job.target_worker_id cpu memory) db.workers
]

abbrev target_known : Option ℕ → Database → Bool
target_known none db = true
target_known (some w) db = worker_exists w db

-- The checks before a submission: the target is registered, and a worker is large enough.
unfoldable pub submission_error : JobCreate → Database → Option ServiceError
unfolding has_capacity
submission_error job db =
    if not (target_known job.target_worker_id db)
    then elim job.target_worker_id [ none ↦ none | some w ↦ some (worker_not_found w) ]
    else if has_capacity job db
    then none
    else some scheduling_capacity

unfoldable pub new_job : ServiceConfig → ℕ → ℕ → JobCreate → JobRead
new_job config now id job = record {
  id = id;
  name = job.name;
  type = job.type;
  parameters = job.parameters;
  target_worker_id = job.target_worker_id;
  group_id = none;
  task_id = none;
  task_index = none;
  status = JobStatus.queued;
  created_at = now;
  updated_at = now;
  worker_id = none;
  started_at = none;
  finished_at = none;
  result = none;
  error = none;
  failure_kind = none;
  cancellation_requested = false;
  attempt = 0;
  max_attempts = config.max_attempts;
  lease_token = none;
  lease_expires_at = none;
}

-- The stored job answers this request.
unfoldable pub same_request : JobRead → JobCreate → Bool
same_request job request =
    same_type job.type request.type
    && same_parameters job.parameters request.parameters
    && same_name job.name request.name
    && same_target job.target_worker_id request.target_worker_id

-- The reply to what the repository stored or refused.
abbrev pub answer_job : JobCreate → Database → Submitted JobRead → Database × Reply JobRead
answer_job request db (Submitted.refused e) = (db, raised (repository_fault e))
answer_job request db (Submitted.stored db' job) =
    (db', if same_request job request then ok job else raised idempotency_conflict)

unfoldable pub create :
    ServiceConfig → ℕ → ℕ → JobCreate → Option String → ℕ → Database → Database × Reply JobRead
create config now id request key owner db = elim (submission_error request db) [
  | some e ↦ (db, raised e)
  | none ↦ answer_job request db (Submit.add (new_job config now id request) key owner db)
]

-- The first error of the loop over the tasks.
unfoldable pub group_error : List JobGroupTaskCreate → Database → Option ServiceError
group_error [] db = none
group_error (t ∷ ts) db =
    let rest = group_error ts db in
    elim (submission_error t.job db) [ none ↦ rest | some e ↦ some e ]

-- `task.job.name or task.task_id`
abbrev task_name : Option String → String → Option String
task_name none task_id = some task_id
task_name (some name) task_id = if str_eq name "" then some task_id else some name

-- `enumerate`; `ids index` is the UUID drawn for that task.
unfoldable pub group_jobs :
    ServiceConfig → ℕ → ℕ → (ℕ → ℕ) → ℕ → List JobGroupTaskCreate → List JobRead
unfolding new_job
group_jobs config now group_id ids index [] = []
group_jobs config now group_id ids index (t ∷ ts) =
    record (new_job config now (ids index) t.job) {
      name = task_name t.job.name t.task_id;
      group_id = some group_id;
      task_id = some t.task_id;
      task_index = some index;
    }
    ∷ group_jobs config now group_id ids (suc index) ts

abbrev pub answer_group :
    String → Database → Submitted (JobGroupRead × String) → Database × Reply JobGroupRead
answer_group request_json db (Submitted.refused e) = (db, raised (repository_fault e))
answer_group request_json db (Submitted.stored db' (group, stored_request)) =
    (db', if str_eq stored_request request_json then ok group else raised idempotency_conflict)

unfoldable pub new_group : ServiceConfig → ℕ → ℕ → (ℕ → ℕ) → JobGroupCreate → JobGroupRead
unfolding group_jobs
new_group config now id ids request = record {
  id = id;
  name = request.name;
  status = JobStatus.queued;
  created_at = now;
  updated_at = now;
  tasks = group_jobs config now id ids 0 request.tasks;
}

-- `dump` is model_dump_json.
unfoldable pub create_group :
    (JobGroupCreate → String)
    → ServiceConfig
    → ℕ
    → ℕ
    → (ℕ → ℕ)
    → JobGroupCreate
    → Option String
    → ℕ
    → Option AppOrigin
    → Database
    → Database × Reply JobGroupRead
create_group dump config now id ids request key owner origin db =
    elim (group_error request.tasks db) [
      | some e ↦ (db, raised e)
      | none ↦ answer_group (dump request) db (
          Submit.add_group (new_group config now id ids request) (dump request) key owner origin db)
    ]

unfoldable pub owner_user_id : ℕ → Database → Reply ℕ
owner_user_id job_id db = or_raise job_not_found (Groups.owner_user_id job_id db)

unfoldable pub get_group : ℕ → Option ℕ → Database → Reply JobGroupRead
get_group group_id owner db = or_raise job_group_not_found (Groups.get_group group_id owner db)

unfoldable pub claim_request : ServiceConfig → ℕ → ℕ → WorkerClaim → Claim.ClaimRequest
claim_request config now token c = record {
  worker_id = c.worker_id;
  supported_types = c.supported_types;
  claimed_at = now;
  lease_token = token;
  lease_expires_at = now + seconds config.lease_seconds;
  metrics = c.metrics;
  stale_before = some (now - seconds config.worker_stale_seconds);
}

unfoldable pub claim : ServiceConfig → ℕ → ℕ → WorkerClaim → Database → Database × Option JobRead
unfolding claim_request
claim config now token c db = Claim.claim (claim_request config now token c) db

unfoldable pub heartbeat_request : ServiceConfig → ℕ → WorkerHeartbeat → Lease.HeartbeatRequest
heartbeat_request config now h = record {
  worker_id = h.worker_id;
  supported_types = h.supported_types;
  seen_at = now;
  lease_expires_at = now + seconds config.lease_seconds;
  current_job_id = h.current_job_id;
  lease_token = h.lease_token;
  metrics = h.metrics;
}

unfoldable pub heartbeat : ServiceConfig → ℕ → WorkerHeartbeat → Database → Database × Reply Bool
unfolding heartbeat_request
heartbeat config now h db =
    let (db', answer) = Lease.heartbeat (heartbeat_request config now h) db in
    (db', or_raise job_transition answer)

abbrev is_ended : JobStatus → Bool
is_ended JobStatus.completed = true
is_ended JobStatus.failed = true
is_ended _ = false

unfoldable pub cancel : ℕ → ℕ → Option ℕ → Database → Database × Reply JobRead
cancel now job_id owner db = elim (Groups.get job_id owner db) [
  | none ↦ (db, raised job_not_found)
  | some existing ↦
      let (db', job) = Lease.cancel job_id now db in
      if is_ended existing.status
      then (db, raised job_transition)
      else (db', or_raise job_not_found job)
]

-- `result_matches`
abbrev pub result_matches : JobType → JobResult → Bool
result_matches JobType.sleep (JobResult.sleep _) = true
result_matches JobType.python_batch (JobResult.python_batch _) = true
result_matches JobType.batch (JobResult.batch _) = true
result_matches _ _ = false

-- _raise_transition_error, after a refusal
abbrev transition_error : ℕ → Database → ServiceError
transition_error job_id db = elim (Groups.get job_id none db) [
  | none ↦ job_not_found
  | some _ ↦ job_transition
]

unfoldable pub complete : ℕ → ℕ → JobCompletion → Database → Database × Reply JobRead
complete now job_id c db = elim (Groups.get job_id none db) [
  | none ↦ (db, raised job_not_found)
  | some existing ↦
      let (db', job) = Lease.complete job_id c.worker_id c.lease_token c.result now db in
      if result_matches existing.type c.result
      then (db', or_raise (transition_error job_id db') job)
      else (db, raised job_transition)
]

-- The failure that is recorded: a cancelled job's report is its cancellation.
abbrev pub recorded_failure : Bool → JobFailure → JobFailure
recorded_failure true f = record f {
  failure_kind = FailureKind.cancelled_by_user;
  error = "cancelled by user";
}
recorded_failure false f = f

unfoldable pub fail : ℕ → ℕ → JobFailure → Database → Database × Reply JobRead
fail now job_id failure db = elim (Groups.get job_id none db) [
  | none ↦ (db, raised job_not_found)
  | some existing ↦
      let f = recorded_failure existing.cancellation_requested failure in
      let (db', job) = Lease.fail job_id f.worker_id f.lease_token f.error f.failure_kind now db in
      (db', or_raise (transition_error job_id db') job)
]

unfoldable pub lease_is_held : ℕ → ℕ → ℕ → JobRead → Bool
lease_is_held now worker_id lease_token job =
    same_status job.status JobStatus.running
    && column_eq job.worker_id worker_id
    && column_eq job.lease_token lease_token
    && column_gt job.lease_expires_at now
    && not job.cancellation_requested

unfoldable pub authorize_lease : ℕ → ℕ → ℕ → ℕ → Database → Reply JobRead
unfolding lease_is_held
authorize_lease now job_id worker_id lease_token db = elim (Groups.get job_id none db) [
  | none ↦ raised job_not_found
  | some existing ↦
      if lease_is_held now worker_id lease_token existing
      then ok existing
      else raised job_transition
]

unfoldable pub recover_expired : ℕ → Database → Database × ℕ
recover_expired now db = Recovery.recover_expired now db

unfoldable pub list_workers : ServiceConfig → ℕ → Database → List WorkerRead
list_workers config now db = Workers.list_workers (now - seconds config.worker_stale_seconds) db

unfoldable pub set_worker_enabled :
    ServiceConfig → ℕ → ℕ → Bool → Database → Database × Reply WorkerRead
set_worker_enabled config now worker_id enabled db =
    let (db', w) =
      Workers.set_worker_enabled worker_id enabled (now - seconds config.worker_stale_seconds) db in
    (db', or_raise (worker_not_found worker_id) w)

unfoldable pub set_worker_capacity :
    ServiceConfig → ℕ → ℕ → WorkerCapacityUpdate → Database → Database × Reply WorkerRead
set_worker_capacity config now worker_id capacity db =
    let (db', w) =
      Workers.set_worker_capacity worker_id capacity.max_job_cpu capacity.max_job_memory_mb
        (now - seconds config.worker_stale_seconds) db in
    (db', or_raise (worker_not_found worker_id) w)
