-- ===== src/Batch/Script/Body.antt =====
-- Directives behind the body of a script.
use computecluster.Prelude.{
  String, true, Option, List, [], ◌∷◌, ◌≡◌, refl, sym, ap, arith, Bool-cases, ◌⊎◌, inl, inr,
}
use computecluster.Batch.Script.{
  directive_after_body, ScriptState, read_line, read_lines, is_skipped, starts_with_hp,
}

module _ (split_words : String → Option (List String)) where
  line_body :
      (line : String) (s : ScriptState)
      → s.executable_seen ≡ true
      → (read_line split_words line s ≡ inl directive_after_body)
        ⊎ (read_line split_words line s ≡ inr s)
  unfolding read_line
  line_body line s b = elim (Bool-cases (is_skipped line)) [
    | inl a ↦ inr (rw (a) refl)
    | inr a ↦ elim (Bool-cases (starts_with_hp line)) [
      | inr h ↦ inr (simp (a, h) (ap (λ x. inr (record s { executable_seen = x })) (sym b)))
      | inl h ↦ inl (simp (a, h, b) refl)
    ]
  ]

  -- Once the body of the script has begun, no later line changes what the directives said.
  pub read_lines_body :
      (lines : List String) (s t : ScriptState)
      → s.executable_seen ≡ true
      → read_lines split_words lines s ≡ inr t
      → t ≡ s
  unfolding read_lines
  read_lines_body [] s t b e = ground arith
  read_lines_body (line ∷ lines) s t b e = elim (line_body line s b) [
    | inl f ↦ ground (arith, rw (f, read_lines) at e)
    | inr f ↦ read_lines_body lines s t b (rw (f, read_lines) at e)
  ]
