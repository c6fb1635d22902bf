-- ===== src/Models/TextFields.antt =====
-- contracts/models.py: the patterns and validators of the text fields of a batch job. JobName and
-- TaskId also strip whitespace; the texts that reach them here have been stripped, or have none.
use Prim.Native.Char.{code}
use Prim.Native.String.{[] as end_of_text, ◌∷◌ as ◌∷ₜ◌}
use computecluster.Prelude.{
  ℕ, String, Bool, true, false, List, [], ◌∷◌, not, ◌&&◌, ◌||◌, leb, ltb, ◌==◌, if◌then◌else◌, any,
  length,
}
use computecluster.Models.Parameters.{BatchParameters}
use computecluster.Models.Validation.{within}

-- str.isalnum and str.isalpha of one character
pub record CharacterClasses : Type 0 where
  pub is_alnum : ℕ → Bool
  pub is_alpha : ℕ → Bool

unfoldable pub points : String → List ℕ
points end_of_text = []
points (c ∷ₜ cs) = code c ∷ points cs

abbrev is_digit : ℕ → Bool
is_digit c = leb 48 c && leb c 57

abbrev is_lower : ℕ → Bool
is_lower c = leb 97 c && leb c 122

-- [A-Za-z0-9]
abbrev is_plain : ℕ → Bool
is_plain c = is_digit c || is_lower c || (leb 65 c && leb c 90)

-- [._-]
abbrev is_mark : ℕ → Bool
is_mark c = c == 46 || c == 95 || c == 45

-- A first character of one class, and further ones of another.
unfoldable pub has_form : (ℕ → Bool) → (ℕ → Bool) → List ℕ → Bool
has_form first later [] = false
has_form first later (c ∷ cs) = first c && not (any (λ d. not (later d)) cs)

-- JobName
unfoldable pub valid_name : String → Bool
unfolding points
valid_name name =
    within 1 100 (length (points name)) && not (any (λ c. ltb c 32 || c == 127) (points name))

-- TaskId
unfoldable pub valid_task_id : String → Bool
unfolding points has_form
valid_task_id id =
    within 1 64 (length (points id)) && has_form is_plain (λ c. is_plain c || is_mark c) (points id)

-- The pieces between the characters of one code, as str.split makes them.
unfoldable pub split_at : ℕ → List ℕ → List (List ℕ)
split_at mark [] = [] ∷ []
split_at mark (c ∷ cs) =
    let rest = split_at mark cs in
    if c == mark then [] ∷ rest else elim rest [ [] ↦ (c ∷ []) ∷ [] | p ∷ ps ↦ (c ∷ p) ∷ ps ]

-- part in {"", ".", ".."}
abbrev is_relative_part : List ℕ → Bool
is_relative_part [] = true
is_relative_part (c ∷ []) = c == 46
is_relative_part (c ∷ d ∷ []) = c == 46 && d == 46
is_relative_part (c ∷ d ∷ e ∷ cs) = false

-- The Field and entrypoint_is_safe of BatchParameters.entrypoint
unfoldable pub valid_entrypoint : String → Bool
unfolding points has_form split_at
valid_entrypoint value =
    within 1 200 (length (points value))
    && has_form is_plain (λ c. is_plain c || is_mark c || c == 47) (points value)
    && not (any is_relative_part (split_at 47 (points value)))

-- The two pieces around the colon of a runtime.
abbrev is_runtime : List (List ℕ) → Bool
is_runtime (image ∷ version ∷ []) =
    has_form (λ c. is_lower c || is_digit c) (λ c. is_lower c || is_digit c || is_mark c) image
    && leb (length image) 64
    && has_form is_digit (λ c. is_plain c || is_mark c) version
    && leb (length version) 32
is_runtime _ = false

-- The pattern of BatchParameters.runtime
unfoldable pub valid_runtime : String → Bool
unfolding points has_form split_at
valid_runtime value = is_runtime (split_at 58 (points value))

-- "HOME_PLATFORM_"
abbrev reserved_prefix : List ℕ
reserved_prefix = 72 ∷ 79 ∷ 77 ∷ 69 ∷ 95 ∷ 80 ∷ 76 ∷ 65 ∷ 84 ∷ 70 ∷ 79 ∷ 82 ∷ 77 ∷ 95 ∷ []

unfoldable pub starts_with : List ℕ → List ℕ → Bool
starts_with [] cs = true
starts_with (p ∷ ps) [] = false
starts_with (p ∷ ps) (c ∷ cs) = p == c && starts_with ps cs

module _ (classes : CharacterClasses) where
  -- The tests on one item of the environment; an underscore counts as "A".
  unfoldable pub valid_item : String × String → Bool
  unfolding points has_form starts_with
  valid_item (key, item) =
      within 1 32 (length (points key))
      && has_form classes.is_alpha (λ c. true) (points key)
      && not (any (λ c. not (c == 95 || classes.is_alnum c)) (points key))
      && not (starts_with reserved_prefix (points key))
      && leb (length (points item)) 1000
      && not (any (λ c. c == 0 || c == 10 || c == 13) (points item))

  -- environment_is_safe
  unfoldable pub environment_is_safe : List (String × String) → Bool
  unfolding valid_item
  environment_is_safe environment =
      leb (length environment) 32 && not (any (λ i. not (valid_item i)) environment)

  -- The text fields of BatchParameters.
  unfoldable pub valid_text_fields : BatchParameters → Bool
  unfolding valid_entrypoint valid_runtime environment_is_safe
  valid_text_fields p =
      valid_entrypoint p.entrypoint && valid_runtime p.runtime && environment_is_safe p.environment
