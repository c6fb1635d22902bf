-- ===== src/Models/Validation.antt =====
-- The validators of contracts/models.py that join several fields, and the numeric bounds.
use text.Mathlib.Text.{◌==◌ as str_eq}
use computecluster.Prelude.{
  ℕ, String, Bool, true, false, none, some, List, [], ◌∷◌, ◌&&◌, not, leb, is_none, any, map,
  length,
}
use computecluster.Models.Enums.{JobType, same_type}
use computecluster.Models.Parameters.{JobParameters, type_of}
use computecluster.Models.Records.{JobCreate, JobGroupCreate, WorkerHeartbeat, WorkerCapacityUpdate}

-- Field(ge=lo, le=hi)
abbrev pub within : ℕ → ℕ → ℕ → Bool
within lo hi n = leb lo n && leb n hi

-- 0.1 and 8.0 as bit patterns of doubles
abbrev pub min_cpu : ℕ
min_cpu = 0x3fb999999999999a

abbrev pub max_cpu : ℕ
max_cpu = 0x4020000000000000

-- The bounds of the numeric fields of the three kinds of parameters that can be submitted.
unfoldable pub valid_parameters : JobParameters → Bool
valid_parameters (JobParameters.sleep p) = within 1 300 p.seconds
valid_parameters (JobParameters.python_batch p) =
    within 1 604800 p.timeout_seconds
    && within min_cpu max_cpu p.cpu_limit
    && within 256 16384 p.memory_mb
valid_parameters (JobParameters.batch p) =
    within 1 604800 p.timeout_seconds
    && within min_cpu max_cpu p.cpu_limit
    && within 256 16384 p.memory_mb
    && leb 1 p.array_index
    && leb (length p.inputs) 32
valid_parameters (JobParameters.dataset_script p) = within 1 3600 p.timeout_seconds

-- SubmittableJobType has no DATASET_SCRIPT.
abbrev pub is_submittable : JobType → Bool
is_submittable JobType.dataset_script = false
is_submittable _ = true

-- JobCreate.type_matches_parameters, over a submittable type
unfoldable pub type_matches_parameters : JobCreate → Bool
type_matches_parameters job = is_submittable job.type && same_type (type_of job.parameters) job.type

-- JobGroupCreate.task_ids_are_unique
unfoldable pub ids_are_unique : List String → Bool
ids_are_unique [] = true
ids_are_unique (i ∷ is) = not (any (λ j. str_eq i j) is) && ids_are_unique is

unfoldable pub task_ids_are_unique : JobGroupCreate → Bool
unfolding ids_are_unique
task_ids_are_unique group = ids_are_unique (map (λ t. t.task_id) group.tasks)

-- Field(min_length=1, max_length=1000) on the tasks, and the validator
unfoldable pub valid_group : JobGroupCreate → Bool
unfolding task_ids_are_unique
valid_group group = within 1 1000 (length group.tasks) && task_ids_are_unique group

-- WorkerHeartbeat.job_and_lease_are_paired
unfoldable pub job_and_lease_are_paired : WorkerHeartbeat → Bool
job_and_lease_are_paired h = elim h.current_job_id [
  | none ↦ is_none h.lease_token
  | some _ ↦ not (is_none h.lease_token)
]

-- WorkerCapacityUpdate
unfoldable pub valid_capacity : WorkerCapacityUpdate → Bool
valid_capacity c = within min_cpu max_cpu c.max_job_cpu && within 256 16384 c.max_job_memory_mb
