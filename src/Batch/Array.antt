-- ===== src/Batch/Array.antt =====
-- app/batch_script.py: the bounds of an array and its expansion into the tasks of a group.
use Prim.Native.Char.{code}
use Prim.Native.String.{[] as end_of_text, ◌∷◌ as ◌∷ₜ◌}
use text.Mathlib.Text.{◌==◌ as str_eq}
use computecluster.Prelude.{
  ℕ, zero, suc, ◌+◌, ◌-◌, String, Bool, true, Option, none, some, List, [], ◌∷◌, not, ◌&&◌, ◌||◌,
  ltb, ◌==◌, if◌then◌else◌, any, ◌⊎◌, inl, inr,
}
use computecluster.Models.Enums.{JobType}
use computecluster.Models.Parameters.{JobParameters, BatchParameters, UploadReference, InputSource}
use computecluster.Models.Records.{JobGroupTaskCreate, JobGroupCreate}
use computecluster.Models.Validation.{type_matches_parameters, valid_parameters, valid_group}
use computecluster.Models.TextFields.{
  CharacterClasses, valid_name, valid_task_id, valid_text_fields,
}
use computecluster.Batch.Decimal.{decimal}
use computecluster.Batch.Integers.{Integer, int_of}

pub data ArrayError : Type 0 where
  not_a_range not_integers bad_bounds too_many_children : ArrayError

-- value.split("-", 1): the texts before and after the first hyphen, where there is one
unfoldable pub split_range : String → Option (String × String)
split_range end_of_text = none
split_range (c ∷ₜ cs) =
    let rest = split_range cs in
    if code c == 45
    then some (end_of_text, cs)
    else elim rest [ none ↦ none | some (a, b) ↦ some (c ∷ₜ a, b) ]

-- The tests on the two integers.
unfoldable pub array_bounds : Integer → Integer → ArrayError ⊎ (ℕ × ℕ)
array_bounds (Integer.pos start) (Integer.pos end) =
    if ltb start 1 || ltb end start
    then inl bad_bounds
    else if ltb 1000 (end - start + 1)
    then inl too_many_children
    else inr (start, end)
array_bounds _ _ = inl bad_bounds

-- _parse_array
unfoldable pub parse_array : String → ArrayError ⊎ (ℕ × ℕ)
unfolding split_range array_bounds int_of
parse_array value = elim (split_range value) [
  | none ↦ inl not_a_range
  | some (first, second) ↦ elim (int_of first) [
    | none ↦ inl not_integers
    | some start ↦ elim (int_of second) [
      | none ↦ inl not_integers
      | some end ↦ array_bounds start end
    ]
  ]
]

-- The default path as its parts.
pub record BatchInputDeclaration : Type 0 where
  pub name : String
  pub default_path : Option (List (List ℕ))

pub record ParsedBatchScript : Type 0 where
  pub name : String
  pub runtime : String
  pub cpu_limit : ℕ
  pub memory_mb : ℕ
  pub timeout_seconds : ℕ
  pub array_start : ℕ
  pub array_end : ℕ
  pub environment : List (String × String)
  pub inputs : List BatchInputDeclaration
  pub worker_id : Option ℕ

pub record BatchSubmissionCreate : Type 0 where
  pub project : UploadReference
  pub entrypoint : String
  pub target_worker_id : Option ℕ
  pub inputs : List (String × InputSource)

pub data ExpansionError : Type 0 where
  unavailable_runtime bindings_differ invalid_task invalid_group : ExpansionError

-- `first or second`
abbrev first_of : Option ℕ → Option ℕ → Option ℕ
first_of none b = b
first_of (some a) b = some a

unfoldable pub task_parameters :
    BatchSubmissionCreate → String → ParsedBatchScript → ℕ → BatchParameters
task_parameters submission entrypoint parsed array_index = record {
  project = submission.project;
  entrypoint = entrypoint;
  runtime = parsed.runtime;
  timeout_seconds = parsed.timeout_seconds;
  cpu_limit = parsed.cpu_limit;
  memory_mb = parsed.memory_mb;
  array_index = array_index;
  environment = parsed.environment;
  inputs = submission.inputs;
}

unfoldable pub task_at : BatchSubmissionCreate → String → ParsedBatchScript → ℕ → JobGroupTaskCreate
unfolding task_parameters decimal
task_at submission entrypoint parsed array_index = record {
  task_id = decimal array_index;
  job = record {
    type = JobType.batch;
    parameters = JobParameters.batch (task_parameters submission entrypoint parsed array_index);
    name = some parsed.name;
    target_worker_id = first_of submission.target_worker_id parsed.worker_id;
  };
}

-- The loop over range(start, start + count).
unfoldable pub tasks_from : (ℕ → JobGroupTaskCreate) → ℕ → ℕ → List JobGroupTaskCreate
tasks_from task start zero = []
tasks_from task start (suc count) = task start ∷ tasks_from task (start + 1) count

abbrev pub declares : ParsedBatchScript → String → Bool
declares parsed name = any (λ d. str_eq d.name name) parsed.inputs

abbrev pub supplies : BatchSubmissionCreate → String → Bool
supplies submission name = any (λ i. str_eq i.0 name) submission.inputs

-- declared_inputs == supplied_inputs
unfoldable pub bindings_match : BatchSubmissionCreate → ParsedBatchScript → Bool
bindings_match submission parsed =
    not (any (λ d. not (supplies submission d.name)) parsed.inputs)
    && not (any (λ i. not (declares parsed i.0)) submission.inputs)

-- What the constructors BatchParameters, JobCreate and JobGroupTaskCreate check of a task that
-- task_at makes. The project, the bindings and the target have been checked before.
abbrev pub text_fields_are_valid : CharacterClasses → JobParameters → Bool
text_fields_are_valid classes (JobParameters.batch p) = valid_text_fields classes p
text_fields_are_valid classes _ = true

abbrev pub name_is_valid : Option String → Bool
name_is_valid none = true
name_is_valid (some name) = valid_name name

unfoldable pub is_valid_task : CharacterClasses → JobGroupTaskCreate → Bool
unfolding type_matches_parameters valid_parameters valid_text_fields valid_name valid_task_id
is_valid_task classes t =
    valid_task_id t.task_id
    && name_is_valid t.job.name
    && type_matches_parameters t.job
    && valid_parameters t.job.parameters
    && text_fields_are_valid classes t.job.parameters

unfoldable pub group_from : BatchSubmissionCreate → String → ParsedBatchScript → JobGroupCreate
unfolding task_at tasks_from
group_from submission entrypoint parsed = record {
  name = parsed.name;
  tasks =
      tasks_from (task_at submission entrypoint parsed) parsed.array_start
        (parsed.array_end + 1 - parsed.array_start);
}

-- compile_batch_submission, from the parsed entrypoint on. A constructor that refuses its fields
-- raises: that of a task in the loop, that of the group behind it.
unfoldable pub compile_parsed :
    CharacterClasses
    → BatchSubmissionCreate
    → String
    → ParsedBatchScript
    → ExpansionError ⊎ JobGroupCreate
unfolding group_from bindings_match is_valid_task valid_group valid_name
compile_parsed classes submission entrypoint parsed =
    let group = group_from submission entrypoint parsed in
    if not (str_eq parsed.runtime "scientific-python:1")
    then inl unavailable_runtime
    else if not (bindings_match submission parsed)
    then inl bindings_differ
    else if any (λ t. not (is_valid_task classes t)) group.tasks
    then inl invalid_task
    else if not (valid_name group.name && valid_group group)
    then inl invalid_group
    else inr group
