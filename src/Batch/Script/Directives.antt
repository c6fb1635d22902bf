-- ===== src/Batch/Script/Directives.antt =====
-- What the directives of a script add up to.
use mathlib.Core.Path.{subst}
use text.Mathlib.Text.{◌==◌ as str_eq}
use computecluster.Prelude.{
  suc, ◌≤◌, String, Bool, true, false, Option, none, some, List, [], ◌∷◌, ◌++◌, not, ◌||◌, ◌≡◌,
  refl, arith, any, map, length, Option-cases, Bool-cases, ◌⊎◌, inl, inr, leb,
}
use computecluster.Models.Validation.{ids_are_unique}
use computecluster.Batch.Array.{BatchInputDeclaration}
use computecluster.Batch.Script.{
  ScriptError, ScriptState, has_key, split_equals, is_input_name, normalized_storage_path,
  allowed_singletons, read_env, read_named, read_input, read_singleton, read_option, read_line,
  read_lines, read_words, is_skipped, starts_with_hp,
}

module _ {A : Type 0} (name : A → String) where
  any-names :
      (i : String) (xs : List A) (y : A)
      → any (λ j. str_eq i j) (map name (xs ++ y ∷ []))
        ≡ any (λ j. str_eq i j) (map name xs) || str_eq i (name y)
  unfolding any
  any-names i [] y = ground arith
  any-names i (x ∷ xs) y = rw (any-names i xs y) (ground arith)

  unique-append :
      (xs : List A) (y : A)
      → any (λ x. str_eq (name x) (name y)) xs ≡ false
      → ids_are_unique (map name xs) ≡ true
      → ids_are_unique (map name (xs ++ y ∷ [])) ≡ true
  unfolding ids_are_unique any
  unique-append [] y n u = refl
  unique-append (x ∷ xs) y n u = rw (any-names (name x) xs y) (ground (arith, unique-append xs y))

none-append :
    {A : Type 0} (q : A → Bool) (xs : List A) (y : A)
    → any q xs ≡ false
    → q y ≡ false
    → any q (xs ++ y ∷ []) ≡ false
unfolding any
none-append q [] y h k = ground arith
none-append q (x ∷ xs) y h k = ground (arith, none-append q xs y)

length-snoc : {A : Type 0} (xs : List A) (y : A) → length (xs ++ y ∷ []) ≡ suc (length xs)
length-snoc [] y = refl
length-snoc (x ∷ xs) y = ground (arith, length-snoc xs y)

abbrev pub is_allowed_option : String → Bool
is_allowed_option option = any (λ o. str_eq o option) allowed_singletons

-- Directives of known options, each at most once; environment keys and input names of their own; at
-- most 32 inputs, all with valid names.
pub record IsWellRead (s : ScriptState) : Type 0 where
  pub options : ids_are_unique (map (λ e. e.0) s.singletons) ≡ true
  pub allowed : any (λ e. not (is_allowed_option e.0)) s.singletons ≡ false
  pub keys : ids_are_unique (map (λ e. e.0) s.environment) ≡ true
  pub names : ids_are_unique (map (λ d. d.name) s.declared_inputs) ≡ true
  pub valid : any (λ d. not (is_input_name d.name)) s.declared_inputs ≡ false
  pub bounded : length s.declared_inputs ≤ 32

abbrev AfterRead : ScriptError ⊎ ScriptState → Type 0
AfterRead (inl e) = Unit
AfterRead (inr t) = IsWellRead t

declared-IsWellRead :
    (s : ScriptState) (d : BatchInputDeclaration)
    → IsWellRead s
    → is_input_name d.name ≡ true
    → any (λ c. str_eq c.name d.name) s.declared_inputs ≡ false
    → leb 32 (length s.declared_inputs) ≡ false
    → IsWellRead (record s { declared_inputs = s.declared_inputs ++ d ∷ [] })
declared-IsWellRead s d w v new room = record {
  options = w.options;
  allowed = w.allowed;
  keys = w.keys;
  names = unique-append (λ c. c.name) s.declared_inputs d new w.names;
  valid = none-append (λ c. not (is_input_name c.name)) s.declared_inputs d w.valid (ground arith);
  bounded = ground (arith, length-snoc s.declared_inputs d);
}

module _ (s : ScriptState) (w : IsWellRead s) where
  read_env-AfterRead : (value : String) → AfterRead (read_env value s)
  unfolding read_env
  read_env-AfterRead value = elim (Option-cases (split_equals value)) [
    | inl n ↦ rw (n, read_env) tt
    | inr ((key, item), f) ↦ elim (Bool-cases (has_key key s.environment)) [
      | inl old ↦ rw (f, read_env, old) tt
      | inr new ↦
          rw (f, read_env, new)
            (record {
              options = w.options;
              allowed = w.allowed;
              keys = unique-append (λ c. c.0) s.environment (key, item) new w.keys;
              names = w.names;
              valid = w.valid;
              bounded = w.bounded;
            })
    ]
  ]

  path_read :
      (name : String) (raw_path : Option String)
      → is_input_name name ≡ true
      → any (λ d. str_eq d.name name) s.declared_inputs ≡ false
      → leb 32 (length s.declared_inputs) ≡ false
      → AfterRead (read_named name raw_path s)
  unfolding read_named
  path_read name none good new room = rw (good, new, room) (declared-IsWellRead s _ w good new room)
  path_read name (some raw) good new room = elim (Option-cases (normalized_storage_path raw)) [
    | inl n ↦ rw (good, new, room, n, read_named) tt
    | inr (path, f) ↦ rw (good, new, room, f, read_named) (declared-IsWellRead s _ w good new room)
  ]

  read_named-AfterRead :
      (name : String) (raw_path : Option String) → AfterRead (read_named name raw_path s)
  unfolding read_named
  read_named-AfterRead name raw_path = elim (Bool-cases (is_input_name name)) [
    | inr bad ↦ rw (bad) tt
    | inl good ↦ elim (Bool-cases (any (λ d. str_eq d.name name) s.declared_inputs)) [
      | inl old ↦ rw (good, old) tt
      | inr new ↦ elim (Bool-cases (leb 32 (length s.declared_inputs))) [
        | inl full ↦ rw (good, new, full) tt
        | inr room ↦ path_read name raw_path good new room
      ]
    ]
  ]

  read_singleton-AfterRead : (option value : String) → AfterRead (read_singleton option value s)
  unfolding read_singleton
  read_singleton-AfterRead option value = elim (Bool-cases (is_allowed_option option)) [
    | inr bad ↦ rw (bad) tt
    | inl good ↦ elim (Bool-cases (has_key option s.singletons)) [
      | inl old ↦ rw (good, old) tt
      | inr new ↦
          rw (good, new)
            (record {
              options = unique-append (λ c. c.0) s.singletons (option, value) new w.options;
              allowed =
                  none-append (λ c. not (is_allowed_option c.0)) s.singletons (option, value)
                    w.allowed (ground arith);
              keys = w.keys;
              names = w.names;
              valid = w.valid;
              bounded = w.bounded;
            })
    ]
  ]

  read_input-AfterRead : (value : String) → AfterRead (read_input value s)
  unfolding read_input
  read_input-AfterRead value = elim (Option-cases (split_equals value)) [
    | inl n ↦ rw (n, read_input) (read_named-AfterRead value none)
    | inr ((name, raw), f) ↦ rw (f, read_input) (read_named-AfterRead name (some raw))
  ]

  read_option-AfterRead : (option value : String) → AfterRead (read_option option value s)
  unfolding read_option
  read_option-AfterRead option value = elim (Bool-cases (str_eq option "--env")) [
    | inl a ↦ rw (a) (read_env-AfterRead value)
    | inr a ↦ elim (Bool-cases (str_eq option "--input")) [
      | inl b ↦ rw (a, b) (read_input-AfterRead value)
      | inr b ↦ elim (Bool-cases (str_eq option "--after-success")) [
        | inl c ↦ rw (a, b, c) tt
        | inr c ↦ rw (a, b, c) (read_singleton-AfterRead option value)
      ]
    ]
  ]

  read_words-AfterRead : (words : Option (List String)) → AfterRead (read_words words s)
  read_words-AfterRead none = tt
  read_words-AfterRead (some []) = tt
  read_words-AfterRead (some (a ∷ [])) = tt
  read_words-AfterRead (some (a ∷ b ∷ [])) = tt
  read_words-AfterRead (some (a ∷ b ∷ c ∷ [])) = elim (Bool-cases (str_eq a "#HP")) [
    | inl h ↦ rw (h) (read_option-AfterRead b c)
    | inr h ↦ rw (h) tt
  ]
  read_words-AfterRead (some (a ∷ b ∷ c ∷ d ∷ ds)) = tt

seen_body : (s : ScriptState) → IsWellRead s → IsWellRead (record s { executable_seen = true })
seen_body s w = record {
  options = w.options;
  allowed = w.allowed;
  keys = w.keys;
  names = w.names;
  valid = w.valid;
  bounded = w.bounded;
}

module _ (split_words : String → Option (List String)) where
  read_line-AfterRead :
      (line : String) (s : ScriptState) → IsWellRead s → AfterRead (read_line split_words line s)
  unfolding read_line
  read_line-AfterRead line s w = elim (Bool-cases (is_skipped line)) [
    | inl a ↦ rw (a) w
    | inr a ↦ elim (Bool-cases (starts_with_hp line)) [
      | inr b ↦ rw (a, b) (seen_body s w)
      | inl b ↦ elim (Bool-cases s.executable_seen) [
        | inl c ↦ simp (a, b, c) tt
        | inr c ↦ simp (a, b, c) (read_words-AfterRead s w (split_words line))
      ]
    ]
  ]

  lines_after :
      (lines : List String) (r : ScriptError ⊎ ScriptState)
      → AfterRead r
      → ((s : ScriptState) → IsWellRead s → AfterRead (read_lines split_words lines s))
      → AfterRead (elim r [ inl e ↦ inl e | inr s' ↦ read_lines split_words lines s' ])
  lines_after lines (inl e) w h = tt
  lines_after lines (inr s') w h = h s' w

  read_lines-AfterRead :
      (lines : List String) (s : ScriptState)
      → IsWellRead s
      → AfterRead (read_lines split_words lines s)
  unfolding read_lines
  read_lines-AfterRead [] s w = w
  read_lines-AfterRead (line ∷ lines) s w =
      lines_after lines (read_line split_words line s) (read_line-AfterRead line s w)
        (read_lines-AfterRead lines)

  -- Whatever lines are read, to the end and without an error, from a state that is well read: the
  -- directives are of known options, each at most once; environment keys and input names occur once;
  -- at most 32 inputs are declared, all with valid names.
  pub read_lines-IsWellRead :
      (lines : List String) (s t : ScriptState)
      → IsWellRead s
      → read_lines split_words lines s ≡ inr t
      → IsWellRead t
  read_lines-IsWellRead lines s t w e = subst AfterRead e (read_lines-AfterRead lines s w)
