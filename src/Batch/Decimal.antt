-- ===== src/Batch/Decimal.antt =====
-- str() of a number: its decimal digits.
use Prim.Native.Char.{Char, code}
use Prim.Native.String.{[], ◌∷◌}
use computecluster.Prelude.{
  ℕ, zero, suc, ◌+◌, ◌-◌, ◌*◌, ◌/◌, ◌%◌, ◌≤◌, ◌<◌, String, ◌≡◌, refl, sym, ap, ◌∙◌, arith, ltb,
  if◌then◌else◌, Bool-cases, inl, inr,
}

unfoldable digit : ℕ → Char
digit zero = "0"
digit (suc zero) = "1"
digit (suc (suc zero)) = "2"
digit (suc (suc (suc zero))) = "3"
digit (suc (suc (suc (suc zero)))) = "4"
digit (suc (suc (suc (suc (suc zero))))) = "5"
digit (suc (suc (suc (suc (suc (suc zero)))))) = "6"
digit (suc (suc (suc (suc (suc (suc (suc zero))))))) = "7"
digit (suc (suc (suc (suc (suc (suc (suc (suc zero)))))))) = "8"
digit (suc (suc (suc (suc (suc (suc (suc (suc (suc n))))))))) = "9"

-- The digits of n before a text. Each step divides by ten, so n steps are enough.
unfoldable digits_before : ℕ → ℕ → String → String
unfolding digit
digits_before zero n rest = digit n ∷ rest
digits_before (suc fuel) n rest =
    let more = digits_before fuel (n / 10) (digit (n % 10) ∷ rest) in
    if ltb n 10 then digit n ∷ rest else more

unfoldable pub decimal : ℕ → String
unfolding digits_before
decimal n = digits_before n n []

-- The number that digits spell, after those that spelt `n`.
unfoldable spelt : ℕ → String → ℕ
spelt n [] = n
spelt n (c ∷ cs) = spelt (n * 10 + (code c - 48)) cs

code-digit : (n : ℕ) → n < 10 → code (digit n) - 48 ≡ n
unfolding digit
code-digit zero h = refl
code-digit (suc zero) h = refl
code-digit (suc (suc zero)) h = refl
code-digit (suc (suc (suc zero))) h = refl
code-digit (suc (suc (suc (suc zero)))) h = refl
code-digit (suc (suc (suc (suc (suc zero))))) h = refl
code-digit (suc (suc (suc (suc (suc (suc zero)))))) h = refl
code-digit (suc (suc (suc (suc (suc (suc (suc zero))))))) h = refl
code-digit (suc (suc (suc (suc (suc (suc (suc (suc zero)))))))) h = refl
code-digit (suc (suc (suc (suc (suc (suc (suc (suc (suc n))))))))) h = omega arith

spelt-digit :
    (m n : ℕ) (rest : String) → n < 10 → spelt m (digit n ∷ rest) ≡ spelt (m * 10 + n) rest
unfolding spelt
spelt-digit m n rest h = ap (λ k. spelt (m * 10 + k) rest) (code-digit n h)

spelt-digits :
    (fuel n : ℕ) (rest : String) → n ≤ fuel → spelt 0 (digits_before fuel n rest) ≡ spelt n rest
unfolding digits_before
spelt-digits zero n rest h =
    spelt-digit 0 n rest (omega arith) ∙ ap (λ k. spelt k rest) (omega arith)
spelt-digits (suc fuel) n rest h = elim (Bool-cases (ltb n 10)) [
  | inl s ↦
      rw (s, digits_before)
        (spelt-digit 0 n rest (ground arith) ∙ ap (λ k. spelt k rest) (omega arith))
  | inr s ↦
      rw (s, digits_before)
        (spelt-digits fuel (n / 10) (digit (n % 10) ∷ rest) (ground arith)
          ∙ spelt-digit (n / 10) (n % 10) rest (omega arith)
          ∙ ap (λ k. spelt k rest) (omega arith))
]

-- Different numbers have different digits.
pub decimal_injective : (m n : ℕ) → decimal m ≡ decimal n → m ≡ n
unfolding decimal spelt
decimal_injective m n e =
    sym (spelt-digits m m [] (omega arith)) ∙ ap (spelt 0) e ∙ spelt-digits n n [] (omega arith)
