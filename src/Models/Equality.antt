-- ===== src/Models/Equality.antt =====
-- Python's `==` on parameters and names, which pydantic compares field by field.
use text.Mathlib.Text.{◌==◌ as str_eq}
use text.Mathlib.TextEquality.{eq_iff}
use native.Mathlib.Decide.{ℕ_discrete}
use mathlib.Core.Bool.{decide}
use computecluster.Prelude.{
  ℕ, String, Bool, true, false, Option, none, some, ◌==◌, ◌≡◌, refl, arith, Bool-cases, inl, inr,
  List, [], ◌∷◌, ◌&&◌, if◌then◌else◌,
}
use computecluster.Models.Parameters.{InputSource, BatchParameters, JobParameters}

String-discrete : Discrete String
String-discrete a b = elim (Bool-cases (str_eq a b)) [
  | inl e ↦ yes ((eq_iff a b).0 e)
  | inr e ↦ no (λ p. cc (e, (eq_iff a b).1 p))
]

JobParameters-discrete : Discrete JobParameters
JobParameters-discrete = hlevel (ℕ_discrete, String-discrete)

InputSource-discrete : Discrete InputSource
InputSource-discrete = hlevel (ℕ_discrete, String-discrete)

-- The equality of what two dictionaries hold at one key.
abbrev same_value : {A : Type 0} → Discrete A → Option A → Option A → Bool
same_value d none none = true
same_value d (some a) (some b) = decide (d a b)
same_value d _ _ = false

-- A dictionary is the list of its items. Those of two are equal where both hold the same at every
-- key of either, in whatever order.
unfoldable lookup : {A : Type 0} → String → List (String × A) → Option A
lookup key [] = none
lookup key ((k, a) ∷ items) = let rest = lookup key items in if str_eq k key then some a else rest

unfoldable agree :
    {A : Type 0} → Discrete A → List (String × A) → List (String × A) → List (String × A) → Bool
unfolding lookup
agree d [] xs ys = true
agree d ((k, a) ∷ items) xs ys = same_value d (lookup k xs) (lookup k ys) && agree d items xs ys

abbrev same_items : {A : Type 0} → Discrete A → List (String × A) → List (String × A) → Bool
same_items d xs ys = agree d xs xs ys && agree d ys xs ys

-- The fields of BatchParameters but for the two dictionaries.
abbrev plain : BatchParameters → JobParameters
plain p = JobParameters.batch (record p { environment = []; inputs = [] })

unfoldable pub same_parameters : JobParameters → JobParameters → Bool
unfolding JobParameters-discrete String-discrete InputSource-discrete agree
same_parameters (JobParameters.batch p) (JobParameters.batch q) =
    decide (JobParameters-discrete (plain p) (plain q))
    && same_items String-discrete p.environment q.environment
    && same_items InputSource-discrete p.inputs q.inputs
same_parameters p q = decide (JobParameters-discrete p q)

abbrev pub same_name : Option String → Option String → Bool
same_name none none = true
same_name (some a) (some b) = str_eq a b
same_name _ _ = false

abbrev pub same_target : Option ℕ → Option ℕ → Bool
same_target none none = true
same_target (some a) (some b) = a == b
same_target _ _ = false

-- Each test accepts a value against itself.
decide_self : {A : Type 0} (a : A) (d : Dec (a ≡ a)) → decide d ≡ true
unfolding decide
decide_self a (yes e) = refl
decide_self a (no n) = elim (n refl) [ ]

same_value_self : {A : Type 0} (d : Discrete A) (a : Option A) → same_value d a a ≡ true
same_value_self d none = refl
same_value_self d (some a) = decide_self a (d a a)

agree_self :
    {A : Type 0} (d : Discrete A) (items xs : List (String × A)) → agree d items xs xs ≡ true
unfolding agree
agree_self d [] xs = refl
agree_self d ((k, a) ∷ items) xs = rw (same_value_self d (lookup k xs), agree_self d items xs) refl

pub same_parameters_self : (p : JobParameters) → same_parameters p p ≡ true
unfolding same_parameters
same_parameters_self (JobParameters.sleep p) =
    decide_self _ (JobParameters-discrete (JobParameters.sleep p) (JobParameters.sleep p))
same_parameters_self (JobParameters.dataset_script p) =
    decide_self _
      (JobParameters-discrete (JobParameters.dataset_script p) (JobParameters.dataset_script p))
same_parameters_self (JobParameters.python_batch p) =
    decide_self _
      (JobParameters-discrete (JobParameters.python_batch p) (JobParameters.python_batch p))
same_parameters_self (JobParameters.batch p) =
    rw
      (
        decide_self (plain p) (JobParameters-discrete (plain p) (plain p)),
        agree_self String-discrete p.environment p.environment,
        agree_self InputSource-discrete p.inputs p.inputs,
      )
      refl

pub same_name_self : (a : Option String) → same_name a a ≡ true
same_name_self none = refl
same_name_self (some a) = (eq_iff a a).1 refl

pub same_target_self : (a : Option ℕ) → same_target a a ≡ true
same_target_self none = refl
same_target_self (some a) = ground arith
