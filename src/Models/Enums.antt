-- ===== src/Models/Enums.antt =====
-- The enumerations of contracts/models.py.
use computecluster.Prelude.{Bool, true, false, List, [], ◌∷◌, ◌||◌}

pub data JobType : Type 0 where
  sleep dataset_script python_batch batch : JobType

pub data JobStatus : Type 0 where
  queued running completed failed : JobStatus

pub data FailureKind : Type 0 where
  execution_error infrastructure_error memory_limit_exceeded timed_out worker_lost
        cancelled_by_user :
      FailureKind

pub data WorkerState : Type 0 where
  online busy stale : WorkerState

-- Equality of the stored values.
abbrev pub same_type : JobType → JobType → Bool
same_type JobType.sleep JobType.sleep = true
same_type JobType.dataset_script JobType.dataset_script = true
same_type JobType.python_batch JobType.python_batch = true
same_type JobType.batch JobType.batch = true
same_type _ _ = false

abbrev pub same_status : JobStatus → JobStatus → Bool
same_status JobStatus.queued JobStatus.queued = true
same_status JobStatus.running JobStatus.running = true
same_status JobStatus.completed JobStatus.completed = true
same_status JobStatus.failed JobStatus.failed = true
same_status _ _ = false

-- `type in supported_types`
unfoldable pub supports : List JobType → JobType → Bool
supports [] t = false
supports (s ∷ ss) t = same_type s t || supports ss t

-- JobType.PYTHON_BATCH and JobType.BATCH run in a container with resource limits.
abbrev pub is_container : JobType → Bool
is_container JobType.python_batch = true
is_container JobType.batch = true
is_container _ = false
