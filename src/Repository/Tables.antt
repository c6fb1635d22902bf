-- ===== src/Repository/Tables.antt =====
-- The tables that app/repository.py reads and writes (app/migrations.py creates them). A JSON column
-- holds the value that is encoded there; a nullable column is an option.
use computecluster.Prelude.{ℕ, String, Bool, false, Option, none, some, List, ◌==◌}
use text.Mathlib.Text.{◌==◌ as str_eq}
use computecluster.Models.Enums.{JobType, JobStatus, FailureKind, same_status}
use computecluster.Models.Parameters.{JobParameters, JobResult}
use computecluster.Models.Records.{JobRead}

pub record JobRow : Type 0 where
  pub id : ℕ
  pub type : JobType
  pub parameters : JobParameters
  pub status : JobStatus
  pub created_at : ℕ
  pub updated_at : ℕ
  pub worker_id : Option ℕ
  pub started_at : Option ℕ
  pub finished_at : Option ℕ
  pub result : Option JobResult
  pub error : Option String
  pub attempt : ℕ
  pub max_attempts : ℕ
  pub lease_token : Option ℕ
  pub lease_expires_at : Option ℕ
  pub idempotency_key : Option String
  pub name : Option String
  pub target_worker_id : Option ℕ
  pub failure_kind : Option FailureKind
  pub cancellation_requested : Bool
  pub group_id : Option ℕ
  pub task_id : Option String
  pub task_index : Option ℕ
  pub owner_user_id : ℕ

pub record WorkerRow : Type 0 where
  pub id : ℕ
  pub supported_types : List JobType
  pub registered_at : ℕ
  pub last_seen : ℕ
  pub current_job_id : Option ℕ
  pub metrics_json : Option String
  pub enabled : Bool
  pub max_job_cpu : Option ℕ
  pub max_job_memory_mb : Option ℕ

pub record GroupRow : Type 0 where
  pub id : ℕ
  pub name : String
  pub request_json : String
  pub created_at : ℕ
  pub updated_at : ℕ
  pub idempotency_key : Option String
  pub owner_user_id : ℕ

pub record AppRunRow : Type 0 where
  pub group_id : ℕ
  pub app_id : String
  pub owner_user_id : ℕ
  pub installation_id : ℕ
  pub submission_key : String
  pub payload_sha256 : String
  pub inputs_json : String

pub record ReservationRow : Type 0 where
  pub id : ℕ
  pub app_id : String
  pub owner_user_id : ℕ
  pub paths : List String

-- `staged` holds the staging files on disk that reservations name.
pub record Database : Type 0 where
  pub jobs : List JobRow
  pub workers : List WorkerRow
  pub groups : List GroupRow
  pub app_runs : List AppRunRow
  pub reservations : List ReservationRow
  pub staged : List String

abbrev pub has_id : ℕ → JobRow → Bool
has_id i j = j.id == i

abbrev pub is_running : JobRow → Bool
is_running j = same_status j.status JobStatus.running

-- A nullable text column compared with a value.
abbrev pub text_eq : Option String → String → Bool
text_eq none v = false
text_eq (some c) v = str_eq c v

-- _row_to_job
unfoldable pub row_to_job : JobRow → JobRead
row_to_job row = record {
  id = row.id;
  name = row.name;
  type = row.type;
  parameters = row.parameters;
  target_worker_id = row.target_worker_id;
  group_id = row.group_id;
  task_id = row.task_id;
  task_index = row.task_index;
  status = row.status;
  created_at = row.created_at;
  updated_at = row.updated_at;
  worker_id = row.worker_id;
  started_at = row.started_at;
  finished_at = row.finished_at;
  result = row.result;
  error = row.error;
  failure_kind = row.failure_kind;
  cancellation_requested = row.cancellation_requested;
  attempt = row.attempt;
  max_attempts = row.max_attempts;
  lease_token = row.lease_token;
  lease_expires_at = row.lease_expires_at;
}
