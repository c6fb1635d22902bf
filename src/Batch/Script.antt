-- ===== src/Batch/Script.antt =====
-- app/batch_script.py: the loop of parse_batch_script over the lines behind the first.
-- `split_words` stands for shlex.split, which is nothing where it raises ValueError.
pub mod Directives
pub mod Body
use Prim.Native.Char.{code}
use Prim.Native.String.{[] as end_of_text, ◌∷◌ as ◌∷ₜ◌}
use text.Mathlib.Text.{◌==◌ as str_eq}
use computecluster.Prelude.{
  ℕ, suc, ◌+◌, String, Bool, true, false, Option, none, some, List, [], ◌∷◌, ◌++◌, not, ◌&&◌, ◌||◌,
  leb, ltb, ◌==◌, if◌then◌else◌, any, length, ◌⊎◌, inl, inr,
}
use computecluster.Paths.{split_path, parts_of, is_absolute, same_points, is_parent}
use computecluster.Batch.Array.{BatchInputDeclaration}

pub data ScriptError : Type 0 where
  directive_after_body invalid_quoting invalid_directive : ScriptError
  env_without_equals duplicate_key invalid_input_name duplicate_input : ScriptError
  too_many_inputs invalid_default_path not_implemented unknown_directive : ScriptError
  duplicate_directive : ScriptError

-- What the loop has read.
pub record ScriptState : Type 0 where
  pub singletons : List (String × String)
  pub environment : List (String × String)
  pub declared_inputs : List BatchInputDeclaration
  pub executable_seen : Bool

-- `key in table`
abbrev pub has_key : String → List (String × String) → Bool
has_key key table = any (λ e. str_eq e.0 key) table

-- The texts around the first "=", where there is one.
unfoldable pub split_equals : String → Option (String × String)
split_equals end_of_text = none
split_equals (c ∷ₜ cs) =
    let rest = split_equals cs in
    if code c == 61
    then some (end_of_text, cs)
    else elim rest [ none ↦ none | some (a, b) ↦ some (c ∷ₜ a, b) ]

abbrev points : String → List ℕ
points end_of_text = []
points (c ∷ₜ cs) = code c ∷ points cs

abbrev is_letter : ℕ → Bool
is_letter c = (leb 65 c && leb c 90) || (leb 97 c && leb c 122)

-- [A-Za-z0-9._-]
abbrev is_name_letter : ℕ → Bool
is_name_letter c = is_letter c || (leb 48 c && leb c 57) || c == 46 || c == 95 || c == 45

-- re.fullmatch(r"[A-Za-z][A-Za-z0-9._-]{0,63}", name)
abbrev is_name : List ℕ → Bool
is_name [] = false
is_name (c ∷ cs) = is_letter c && leb (length cs) 63 && not (any (λ d. not (is_name_letter d)) cs)

unfoldable pub is_input_name : String → Bool
is_input_name name = is_name (points name)

-- "Home" and "Shared"
abbrev is_storage_root : List ℕ → Bool
is_storage_root part =
    same_points part (72 ∷ 111 ∷ 109 ∷ 101 ∷ [])
    || same_points part (83 ∷ 104 ∷ 97 ∷ 114 ∷ 101 ∷ 100 ∷ [])

abbrev is_below_root : List (List ℕ) → Bool
is_below_root [] = false
is_below_root (p ∷ []) = false
is_below_root (p ∷ q ∷ ps) = is_storage_root p && not (any is_parent (p ∷ q ∷ ps))

-- _normalized_logical_storage_path: the parts, which as_posix joins.
unfoldable pub normalized_storage_path : String → Option (List (List ℕ))
normalized_storage_path value =
    let path = points value in
    if length path == 0
      || ltb 500 (length path)
      || any (λ c. c == 92) path
      || is_absolute path
      || not (is_below_root (parts_of path))
    then none
    else some (parts_of path)

abbrev pub allowed_singletons : List String
allowed_singletons =
    "--version" ∷ "--name" ∷ "--runtime" ∷ "--cpus" ∷ "--memory-mb" ∷ "--time-limit" ∷ "--array"
    ∷ "--worker" ∷ []

unfoldable pub read_env : String → ScriptState → ScriptError ⊎ ScriptState
unfolding split_equals
read_env value s = elim (split_equals value) [
  | none ↦ inl env_without_equals
  | some (key, item) ↦
      if has_key key s.environment
      then inl duplicate_key
      else inr (record s { environment = s.environment ++ (key, item) ∷ [] })
]

abbrev declare : String → Option (List (List ℕ)) → ScriptState → ScriptState
declare name path s = record s {
  declared_inputs = s.declared_inputs ++ (record { name = name; default_path = path }) ∷ [];
}

-- The tests on the name, then the default path if a separator was there.
unfoldable pub read_named : String → Option String → ScriptState → ScriptError ⊎ ScriptState
unfolding is_input_name normalized_storage_path
read_named name raw_path s =
    if not (is_input_name name)
    then inl invalid_input_name
    else if any (λ d. str_eq d.name name) s.declared_inputs
    then inl duplicate_input
    else if leb 32 (length s.declared_inputs)
    then inl too_many_inputs
    else elim raw_path [
      | none ↦ inr (declare name none s)
      | some raw ↦ elim (normalized_storage_path raw) [
        | none ↦ inl invalid_default_path
        | some path ↦ inr (declare name (some path) s)
      ]
    ]

unfoldable pub read_input : String → ScriptState → ScriptError ⊎ ScriptState
unfolding split_equals read_named
read_input value s = elim (split_equals value) [
  | none ↦ read_named value none s
  | some (name, raw_path) ↦ read_named name (some raw_path) s
]

unfoldable pub read_singleton : String → String → ScriptState → ScriptError ⊎ ScriptState
read_singleton option value s =
    if not (any (λ o. str_eq o option) allowed_singletons)
    then inl unknown_directive
    else if has_key option s.singletons
    then inl duplicate_directive
    else inr (record s { singletons = s.singletons ++ (option, value) ∷ [] })

unfoldable pub read_option : String → String → ScriptState → ScriptError ⊎ ScriptState
unfolding read_env read_input read_singleton
read_option option value s =
    if str_eq option "--env"
    then read_env value s
    else if str_eq option "--input"
    then read_input value s
    else if str_eq option "--after-success"
    then inl not_implemented
    else read_singleton option value s

abbrev pub read_words : Option (List String) → ScriptState → ScriptError ⊎ ScriptState
read_words none s = inl invalid_quoting
read_words (some (hp ∷ option ∷ value ∷ [])) s =
    if str_eq hp "#HP" then read_option option value s else inl invalid_directive
read_words (some _) s = inl invalid_directive

abbrev pub starts_with_hp : String → Bool
starts_with_hp (a ∷ₜ b ∷ₜ c ∷ₜ rest) = code a == 35 && code b == 72 && code c == 80
starts_with_hp _ = false

-- `not stripped` or a comment that is no directive
abbrev pub is_skipped : String → Bool
is_skipped end_of_text = true
is_skipped (c ∷ₜ cs) = code c == 35 && not (starts_with_hp (c ∷ₜ cs))

module _ (split_words : String → Option (List String)) where
  unfoldable pub read_line : String → ScriptState → ScriptError ⊎ ScriptState
  unfolding read_option
  read_line stripped s =
      if is_skipped stripped
      then inr s
      else if not (starts_with_hp stripped)
      then inr (record s { executable_seen = true })
      else if s.executable_seen
      then inl directive_after_body
      else read_words (split_words stripped) s

  -- The loop, over the lines as strip() leaves them.
  unfoldable pub read_lines : List String → ScriptState → ScriptError ⊎ ScriptState
  unfolding read_line
  read_lines [] s = inr s
  read_lines (line ∷ lines) s = elim (read_line line s) [
    | inl e ↦ inl e
    | inr s' ↦ read_lines lines s'
  ]
