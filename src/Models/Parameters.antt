-- ===== src/Models/Parameters.antt =====
-- The references, parameters and results of contracts/models.py.
-- Floats (CPU limits) are the bit patterns of positive doubles, whose order is that of ℕ.
use computecluster.Prelude.{ℕ, String, List, Option, none, some}
use computecluster.Models.Enums.{JobType}

pub record DatasetReference : Type 0 where
  pub url : String
  pub sha256 : String
  pub size_bytes : ℕ

-- UploadedDatasetReference, UploadedScriptReference, UploadedProjectReference and
-- UploadedInputReference: four classes with the same fields and their own size limits.
pub record UploadReference : Type 0 where
  pub upload_id : ℕ
  pub sha256 : String
  pub size_bytes : ℕ

pub record StorageInputReference : Type 0 where
  pub storage_id : String
  pub path : String
  pub sha256 : String
  pub size_bytes : ℕ

-- DatasetSource and BatchInputSource
pub data InputSource : Type 0 where
  remote : DatasetReference → InputSource
  uploaded : UploadReference → InputSource
  stored : StorageInputReference → InputSource

pub record SleepParameters : Type 0 where
  pub seconds : ℕ

-- `script` has the one value ScriptName.CSV_SUMMARY.
pub record DatasetScriptParameters : Type 0 where
  pub dataset : InputSource
  pub timeout_seconds : ℕ

pub record PythonBatchParameters : Type 0 where
  pub script : UploadReference
  pub dataset : InputSource
  pub timeout_seconds : ℕ
  pub cpu_limit : ℕ
  pub memory_mb : ℕ

pub record BatchParameters : Type 0 where
  pub project : UploadReference
  pub entrypoint : String
  pub runtime : String
  pub timeout_seconds : ℕ
  pub cpu_limit : ℕ
  pub memory_mb : ℕ
  pub array_index : ℕ
  pub environment : List (String × String)
  pub inputs : List (String × InputSource)

pub data JobParameters : Type 0 where
  sleep : SleepParameters → JobParameters
  dataset_script : DatasetScriptParameters → JobParameters
  python_batch : PythonBatchParameters → JobParameters
  batch : BatchParameters → JobParameters

-- The type whose handler reads these parameters.
abbrev pub type_of : JobParameters → JobType
type_of (JobParameters.sleep _) = JobType.sleep
type_of (JobParameters.dataset_script _) = JobType.dataset_script
type_of (JobParameters.python_batch _) = JobType.python_batch
type_of (JobParameters.batch _) = JobType.batch

-- `parameters["cpu_limit"]` and `parameters["memory_mb"]`, where both keys are there.
abbrev pub resources : JobParameters → Option (ℕ × ℕ)
resources (JobParameters.python_batch p) = some (p.cpu_limit, p.memory_mb)
resources (JobParameters.batch p) = some (p.cpu_limit, p.memory_mb)
resources (JobParameters.sleep _) = none
resources (JobParameters.dataset_script _) = none

pub record DatasetScriptResult : Type 0 where
  pub dataset_sha256 : String
  pub dataset_bytes : ℕ
  pub rows : ℕ
  pub columns : List String
  pub artifact_uri : String

-- `exit_code` is 0 by its bounds.
pub record PythonBatchResult : Type 0 where
  pub script_sha256 : String
  pub dataset_sha256 : String
  pub stdout : String
  pub stderr : String
  pub output_files : List String
  pub artifact_uri : String

pub record BatchResult : Type 0 where
  pub project_sha256 : String
  pub stdout : String
  pub stderr : String
  pub output_files : List String
  pub artifact_uri : String

pub data JobResult : Type 0 where
  sleep : (slept_seconds : ℕ) → JobResult
  dataset_script : DatasetScriptResult → JobResult
  python_batch : PythonBatchResult → JobResult
  batch : BatchResult → JobResult
