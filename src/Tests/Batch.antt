-- ===== src/Tests/Batch.antt =====
-- A project of two tasks, and the theorems on it.
use computecluster.Prelude.{
  ◌&&◌, ◌||◌, leb, true, false, String, Option, if◌then◌else◌, arith, none, some, List, [], ◌∷◌,
  ◌≡◌, refl, not, ◌↔◌, any, filter_by, inl, inr, ◌≤◌, ◌<◌, ◌+◌, ℕ,
}
use computecluster.Paths.{
  same_points, split_path, is_dropped, parts_of, ends_badly, stem_of, is_reserved, is_unsafe_part,
  portable_relative_path,
}
use computecluster.Batch.Integers.{int_digits, int_of}
use computecluster.Batch.{ZipInfo, validate_project_archive}
use computecluster.Batch.Archive.{validate_project_archive_iff, is_allowed}
use computecluster.Batch.Array.{
  ParsedBatchScript, BatchSubmissionCreate, bad_bounds, split_range, array_bounds, parse_array,
  task_parameters, task_at, tasks_from, bindings_match, compile_parsed, group_from, is_valid_task,
  invalid_task,
}
use computecluster.Batch.Expansion.{parse_array-within}
use computecluster.Batch.TimeLimit.{
  split_fields, time_limit, read_time, parse_time_limit, IsTime, parse_time_limit-IsTime,
}
use text.Mathlib.Text.{◌==◌ as str_eq}
use computecluster.Batch.Script.{
  ScriptState, split_equals, is_input_name, read_env, read_named, read_input, read_singleton,
  read_option, read_line, read_lines,
}
use computecluster.Batch.Script.Directives.{IsWellRead, read_lines-IsWellRead}
use computecluster.Batch.Script.Body.{read_lines_body}
use computecluster.Models.Records.{JobGroupCreate}
use computecluster.Models.Validation.{
  valid_group, valid_parameters, type_matches_parameters, ids_are_unique, task_ids_are_unique,
}
use computecluster.Models.TextFields.{
  CharacterClasses, points, has_form, split_at, valid_name, valid_task_id, valid_entrypoint,
  valid_runtime, environment_is_safe, valid_text_fields,
}
use computecluster.Batch.Decimal.{decimal}
use computecluster.Tests.Samples.{upload}

-- "src/./a.py"
abbrev source_path : List ℕ
source_path = 115 ∷ 114 ∷ 99 ∷ 47 ∷ 46 ∷ 47 ∷ 97 ∷ 46 ∷ 112 ∷ 121 ∷ []

abbrev source_parts : List (List ℕ)
source_parts = (115 ∷ 114 ∷ 99 ∷ []) ∷ (97 ∷ 46 ∷ 112 ∷ 121 ∷ []) ∷ []

-- ".." of the root directory, and the device "con.txt", are refused.
parent_is_refused : portable_relative_path (46 ∷ 46 ∷ 47 ∷ 97 ∷ []) ≡ none
unfolding portable_relative_path parts_of split_path is_dropped same_points any filter_by
    is_unsafe_part ends_badly is_reserved stem_of
parent_is_refused = refl

device_is_refused : portable_relative_path (99 ∷ 111 ∷ 110 ∷ 46 ∷ 116 ∷ 120 ∷ 116 ∷ []) ≡ none
unfolding portable_relative_path parts_of split_path is_dropped same_points any filter_by
    is_unsafe_part ends_badly is_reserved stem_of
device_is_refused = refl

abbrev entry : ZipInfo
entry = record {
  filename = source_path;
  flag_bits = 0;
  external_attr = 2175008768;
  file_size = 120;
}

validate_project_archive_iff_example : (validate_project_archive (some (entry ∷ [])) ≡ none) ↔ (
    (1 ≤ 1) × (1 ≤ 1000) × (any (λ e. not (is_allowed e)) (entry ∷ []) ≡ false) × (120 ≤ 104857600))
validate_project_archive_iff_example = validate_project_archive_iff (entry ∷ [])

range_is_read : parse_array "9-10" ≡ inr (9, 10)
unfolding parse_array split_range int_of int_digits array_bounds
range_is_read = refl

negative_end_is_refused : parse_array "9--10" ≡ inl bad_bounds
unfolding parse_array split_range int_of int_digits array_bounds
negative_end_is_refused = refl

parse_array-within_example : (1 ≤ 9) × (9 ≤ 10) × (10 < 9 + 1000)
parse_array-within_example = parse_array-within "9-10" 9 10 range_is_read

time_is_read : parse_time_limit "1:02:03" ≡ inr 3723
unfolding parse_time_limit split_fields read_time time_limit int_of int_digits
time_is_read = refl

parse_time_limit-IsTime_example : IsTime "1:02:03" 3723
parse_time_limit-IsTime_example = parse_time_limit-IsTime "1:02:03" 3723 time_is_read

abbrev script : ParsedBatchScript
script = record {
  name = "train";
  runtime = "scientific-python:1";
  cpu_limit = 4607182418800017408;
  memory_mb = 512;
  timeout_seconds = 3723;
  array_start = 9;
  array_end = 10;
  environment = [];
  inputs = [];
  worker_id = none;
}

abbrev submission : BatchSubmissionCreate
submission = record {
  project = upload;
  entrypoint = "submit.hp";
  target_worker_id = none;
  inputs = [];
}

abbrev training_group : JobGroupCreate
training_group = record {
  name = "train";
  tasks = task_at submission "submit.hp" script 9 ∷ task_at submission "submit.hp" script 10 ∷ [];
}

-- The letters and digits of ASCII.
abbrev classes : CharacterClasses
classes = record {
  is_alnum = λ c. (leb 48 c && leb c 57) || (leb 65 c && leb c 90) || (leb 97 c && leb c 122);
  is_alpha = λ c. (leb 65 c && leb c 90) || (leb 97 c && leb c 122);
}

group_is_compiled : compile_parsed classes submission "submit.hp" script ≡ inr training_group
unfolding compile_parsed bindings_match tasks_from task_at any points has_form split_at
    valid_text_fields valid_entrypoint valid_runtime environment_is_safe valid_name valid_task_id
    is_valid_task task_parameters type_matches_parameters valid_parameters valid_group
    task_ids_are_unique ids_are_unique decimal group_from
group_is_compiled = refl

-- A delete character in the name passes the parser, and is refused here.
delete_is_refused :
    compile_parsed classes submission "submit.hp" (record script { name = "a\u{7f}" })
    ≡ inl invalid_task
unfolding compile_parsed bindings_match tasks_from task_at any points has_form split_at
    valid_text_fields valid_entrypoint valid_runtime environment_is_safe valid_name valid_task_id
    is_valid_task task_parameters type_matches_parameters valid_parameters decimal group_from
delete_is_refused = refl

-- Two directives, then the body.
abbrev lines : List String
lines = "#HP --array 9-10" ∷ "# a comment" ∷ "#HP --input data" ∷ "python train.py" ∷ []

abbrev split_sample : String → Option (List String)
split_sample line =
    if str_eq line "#HP --array 9-10"
    then some ("#HP" ∷ "--array" ∷ "9-10" ∷ [])
    else if str_eq line "#HP --input data"
    then some ("#HP" ∷ "--input" ∷ "data" ∷ [])
    else none

abbrev unread : ScriptState
unread = record { singletons = []; environment = []; declared_inputs = []; executable_seen = false }

abbrev read : ScriptState
read = record {
  singletons = ("--array", "9-10") ∷ [];
  environment = [];
  declared_inputs = (record { name = "data"; default_path = none }) ∷ [];
  executable_seen = true;
}

unread-IsWellRead : IsWellRead unread
unfolding ids_are_unique any
unread-IsWellRead = record {
  options = refl;
  allowed = refl;
  keys = refl;
  names = refl;
  valid = refl;
  bounded = omega arith;
}

lines_are_read : read_lines split_sample lines unread ≡ inr read
unfolding read_lines read_line read_option read_env read_input read_named read_singleton
    split_equals is_input_name any
lines_are_read = refl

read_lines-IsWellRead_example : IsWellRead read
read_lines-IsWellRead_example =
    read_lines-IsWellRead split_sample lines unread read unread-IsWellRead lines_are_read

comment_is_skipped : read_lines split_sample ("# done" ∷ []) read ≡ inr read
unfolding read_lines read_line
comment_is_skipped = refl

read_lines_body_example : read ≡ read
read_lines_body_example =
    read_lines_body split_sample ("# done" ∷ []) read read refl comment_is_skipped
