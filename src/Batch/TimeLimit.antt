-- ===== src/Batch/TimeLimit.antt =====
-- app/batch_script.py: _parse_time_limit.
use Prim.Native.Char.{code}
use Prim.Native.String.{[] as end_of_text, ◌∷◌ as ◌∷ₜ◌}
use computecluster.Prelude.{
  ℕ, ◌+◌, ◌*◌, ◌≤◌, ◌<◌, String, Bool, true, false, none, some, List, [], ◌∷◌, not, ◌&&◌, ◌||◌, ◌≡◌,
  arith, leb, ltb, ◌==◌, if◌then◌else◌, ◌⊎◌, inl, inr, Option-cases, Bool-cases, refl, ap, ◌∙◌,
}
use computecluster.Batch.Integers.{Integer, int_of}

pub data TimeError : Type 0 where
  not_three_fields not_numbers invalid_time out_of_range : TimeError

-- value.split(":")
unfoldable pub split_fields : String → List String
split_fields end_of_text = end_of_text ∷ []
split_fields (c ∷ₜ cs) =
    let rest = split_fields cs in
    if code c == 58
    then end_of_text ∷ rest
    else elim rest [ [] ↦ (c ∷ₜ end_of_text) ∷ [] | p ∷ ps ↦ (c ∷ₜ p) ∷ ps ]

-- len(piece) == 2
abbrev pub has_two_letters : String → Bool
has_two_letters (c ∷ₜ d ∷ₜ end_of_text) = true
has_two_letters _ = false

-- The tests on the three integers, and the total.
unfoldable pub time_limit : Integer → Integer → Integer → TimeError ⊎ ℕ
time_limit (Integer.pos hours) (Integer.pos minutes) (Integer.pos seconds) =
    let total = hours * 3600 + minutes * 60 + seconds in
    if not (ltb minutes 60) || not (ltb seconds 60)
    then inl invalid_time
    else if leb 1 total && leb total 604800
    then inr total
    else inl out_of_range
time_limit _ _ _ = inl invalid_time

-- int() of each piece
unfoldable pub read_time : String → String → String → TimeError ⊎ ℕ
unfolding time_limit int_of
read_time a b c = elim (int_of a) [
  | none ↦ inl not_numbers
  | some hours ↦ elim (int_of b) [
    | none ↦ inl not_numbers
    | some minutes ↦ elim (int_of c) [
      | none ↦ inl not_numbers
      | some seconds ↦ time_limit hours minutes seconds
    ]
  ]
]

abbrev of_fields : List String → TimeError ⊎ ℕ
of_fields (a ∷ b ∷ c ∷ []) =
    if has_two_letters b && has_two_letters c then read_time a b c else inl not_three_fields
of_fields _ = inl not_three_fields

unfoldable pub parse_time_limit : String → TimeError ⊎ ℕ
unfolding split_fields read_time
parse_time_limit value = of_fields (split_fields value)

-- The text is three fields, of which the last two have two characters; they are read as integers
-- that are not negative, with minutes and seconds below sixty; the total is their time in seconds,
-- from one second to seven days.
abbrev pub IsTime : String → ℕ → Type 0
IsTime value total =
    (a : String) × (b : String) × (c : String) × (hours : ℕ) × (minutes : ℕ) × (seconds : ℕ)
    × (split_fields value ≡ a ∷ b ∷ c ∷ [])
    × (has_two_letters b ≡ true)
    × (has_two_letters c ≡ true)
    × (int_of a ≡ some (Integer.pos hours))
    × (int_of b ≡ some (Integer.pos minutes))
    × (int_of c ≡ some (Integer.pos seconds))
    × (total ≡ hours * 3600 + minutes * 60 + seconds)
    × (minutes < 60)
    × (seconds < 60)
    × (1 ≤ total)
    × (total ≤ 604800)

-- What the three integers are once they are accepted.
abbrev Reads : Integer → Integer → Integer → ℕ → Type 0
Reads a b c total =
    (hours : ℕ) × (minutes : ℕ) × (seconds : ℕ) × (a ≡ Integer.pos hours)
    × (b ≡ Integer.pos minutes)
    × (c ≡ Integer.pos seconds)
    × (total ≡ hours * 3600 + minutes * 60 + seconds)
    × (minutes < 60)
    × (seconds < 60)
    × (1 ≤ total)
    × (total ≤ 604800)

time_limit-Reads : (a b c : Integer) (total : ℕ) → time_limit a b c ≡ inr total → Reads a b c total
unfolding time_limit
time_limit-Reads (Integer.pos h) (Integer.pos m) (Integer.pos s) total e = (
  h,
  m,
  s,
  refl,
  refl,
  refl,
  ground arith,
  ground arith,
  ground arith,
  ground arith,
  ground arith,
)
time_limit-Reads (Integer.pos h) (Integer.pos m) (Integer.negsuc s) total e = absurd (ground arith)
time_limit-Reads (Integer.pos h) (Integer.negsuc m) c total e = absurd (ground arith)
time_limit-Reads (Integer.negsuc h) b c total e = absurd (ground arith)

module _ (value a b c : String) (total : ℕ) (split : split_fields value ≡ a ∷ b ∷ c ∷ []) where
  read_time-IsTime :
      has_two_letters b ≡ true
      → has_two_letters c ≡ true
      → read_time a b c ≡ inr total
      → IsTime value total
  unfolding read_time
  read_time-IsTime p q e = elim (Option-cases (int_of a)) [
    | inl n ↦ absurd (ground arith)
    | inr (x, f) ↦ elim (Option-cases (int_of b)) [
      | inl n ↦ absurd (ground arith)
      | inr (y, g) ↦ elim (Option-cases (int_of c)) [
        | inl n ↦ absurd (ground arith)
        | inr (z, k) ↦
            let (h, m, s, u, v, w, t, lm, ls, low, high) =
              time_limit-Reads x y z total (rw (read_time, f, g, k) at e) in
            (
              a,
              b,
              c,
              h,
              m,
              s,
              split,
              p,
              q,
              f ∙ ap some u,
              g ∙ ap some v,
              k ∙ ap some w,
              t,
              lm,
              ls,
              low,
              high,
            )
      ]
    ]
  ]

fields-IsTime :
    (value : String) (fields : List String) (total : ℕ)
    → split_fields value ≡ fields
    → of_fields fields ≡ inr total
    → IsTime value total
fields-IsTime value [] total f e = absurd (ground arith)
fields-IsTime value (a ∷ []) total f e = absurd (ground arith)
fields-IsTime value (a ∷ b ∷ []) total f e = absurd (ground arith)
fields-IsTime value (a ∷ b ∷ c ∷ []) total f e =
    elim (Bool-cases (has_two_letters b && has_two_letters c)) [
      | inl t ↦ read_time-IsTime value a b c total f (ground arith) (ground arith) (rw (t) at e)
      | inr n ↦ absurd (ground arith)
    ]
fields-IsTime value (a ∷ b ∷ c ∷ d ∷ ds) total f e = absurd (ground arith)

-- A text that is accepted has three fields, the last two of two characters, which are read as
-- integers that are not negative, with minutes and seconds below sixty, and what is returned is their
-- time in seconds, from one second to seven days.
pub parse_time_limit-IsTime :
    (value : String) (total : ℕ) → parse_time_limit value ≡ inr total → IsTime value total
unfolding parse_time_limit
parse_time_limit-IsTime value total e = fields-IsTime value (split_fields value) total refl e
