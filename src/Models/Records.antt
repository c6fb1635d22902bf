-- ===== src/Models/Records.antt =====
-- The wire records of contracts/models.py that carry jobs, groups, workers and their reports.
-- Times are microseconds since an epoch; UUIDs and worker identities are numbers in the order of
-- their texts. Worker metrics are carried unread, so they stay their JSON text.
use computecluster.Prelude.{ℕ, String, Bool, Option, List}
use computecluster.Models.Enums.{JobType, JobStatus, FailureKind, WorkerState}
use computecluster.Models.Parameters.{JobParameters, JobResult}

pub record JobCreate : Type 0 where
  pub type : JobType
  pub parameters : JobParameters
  pub name : Option String
  pub target_worker_id : Option ℕ

pub record JobRead : Type 0 where
  pub id : ℕ
  pub name : Option String
  pub type : JobType
  pub parameters : JobParameters
  pub target_worker_id : Option ℕ
  pub group_id : Option ℕ
  pub task_id : Option String
  pub task_index : Option ℕ
  pub status : JobStatus
  pub created_at : ℕ
  pub updated_at : ℕ
  pub worker_id : Option ℕ
  pub started_at : Option ℕ
  pub finished_at : Option ℕ
  pub result : Option JobResult
  pub error : Option String
  pub failure_kind : Option FailureKind
  pub cancellation_requested : Bool
  pub attempt : ℕ
  pub max_attempts : ℕ
  pub lease_token : Option ℕ
  pub lease_expires_at : Option ℕ

pub record JobGroupTaskCreate : Type 0 where
  pub task_id : String
  pub job : JobCreate

pub record JobGroupCreate : Type 0 where
  pub name : String
  pub tasks : List JobGroupTaskCreate

pub record JobGroupRead : Type 0 where
  pub id : ℕ
  pub name : String
  pub status : JobStatus
  pub created_at : ℕ
  pub updated_at : ℕ
  pub tasks : List JobRead

pub record JobCompletion : Type 0 where
  pub worker_id : ℕ
  pub lease_token : ℕ
  pub result : JobResult

pub record JobFailure : Type 0 where
  pub worker_id : ℕ
  pub lease_token : ℕ
  pub failure_kind : FailureKind
  pub error : String

pub record WorkerClaim : Type 0 where
  pub worker_id : ℕ
  pub supported_types : List JobType
  pub metrics : Option String

pub record WorkerHeartbeat : Type 0 where
  pub worker_id : ℕ
  pub supported_types : List JobType
  pub current_job_id : Option ℕ
  pub lease_token : Option ℕ
  pub metrics : Option String

pub record WorkerCapacityUpdate : Type 0 where
  pub max_job_cpu : ℕ
  pub max_job_memory_mb : ℕ

pub record WorkerRead : Type 0 where
  pub id : ℕ
  pub enabled : Bool
  pub supported_types : List JobType
  pub registered_at : ℕ
  pub last_seen : ℕ
  pub current_job_id : Option ℕ
  pub max_job_cpu : Option ℕ
  pub max_job_memory_mb : Option ℕ
  pub metrics : Option String
  pub state : WorkerState
