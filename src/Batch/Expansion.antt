-- ===== src/Batch/Expansion.antt =====
-- The group that an array expands to.
use text.Mathlib.Text.{◌==◌ as str_eq}
use computecluster.Prelude.{
  ℕ, ◌+◌, ◌≤◌, ◌<◌, String, true, List, ◌≡◌, arith, map, All, Option-cases, inl, inr,
}
use computecluster.Models.Records.{JobGroupTaskCreate, JobGroupCreate}
use computecluster.Models.TextFields.{CharacterClasses}
use computecluster.Batch.Integers.{Integer, int_of}
use computecluster.Batch.Array.{
  parse_array, array_bounds, split_range, ParsedBatchScript, BatchSubmissionCreate, task_at,
  group_from, bindings_match, is_valid_task,
}

array_bounds-within :
    (a b : Integer) (start end : ℕ)
    → array_bounds a b ≡ inr (start, end)
    → (1 ≤ start) × (start ≤ end) × (end < start + 1000)
unfolding array_bounds
array_bounds-within (Integer.pos a) (Integer.pos b) start end e = ground arith
array_bounds-within (Integer.pos a) (Integer.negsuc b) start end e = ground arith
array_bounds-within (Integer.negsuc a) (Integer.pos b) start end e = ground arith
array_bounds-within (Integer.negsuc a) (Integer.negsuc b) start end e = ground arith

-- An array that is accepted runs from at least 1 upwards over at most 1000 indices.
pub parse_array-within :
    (value : String) (start end : ℕ)
    → parse_array value ≡ inr (start, end)
    → (1 ≤ start) × (start ≤ end) × (end < start + 1000)
unfolding parse_array
parse_array-within value start end e = elim (Option-cases (split_range value)) [
  | inl n ↦ ground arith
  | inr ((first, second), f) ↦ elim (Option-cases (int_of first)) [
    | inl n ↦ ground arith
    | inr (a, g) ↦ elim (Option-cases (int_of second)) [
      | inl n ↦ ground arith
      | inr (b, h) ↦ array_bounds-within a b start end (rw (parse_array, f, g, h) at e)
    ]
  ]
]

module _ (submission : BatchSubmissionCreate) (entrypoint : String)
    (parsed : ParsedBatchScript) where
  abbrev task : ℕ → JobGroupTaskCreate
  task = task_at submission entrypoint parsed

  abbrev ids : List JobGroupTaskCreate → List String
  ids ts = map (λ t. t.task_id) ts

  abbrev pub group : JobGroupCreate
  group = group_from submission entrypoint parsed

  module _ (classes : CharacterClasses) where
    -- What has to hold of a script and a submission for a group to come of them.
    abbrev pub IsExpandable : Type 0
    IsExpandable =
        (parsed.runtime ≡ "scientific-python:1")
        × (bindings_match submission parsed ≡ true)
        × All (λ t. is_valid_task classes t ≡ true) group.tasks
