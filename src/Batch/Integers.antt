-- ===== src/Batch/Integers.antt =====
-- int() on a text, with the whitespace and the digits of ASCII.
use Prim.Native.Char.{code}
use Prim.Native.String.{[], ◌∷◌}
use computecluster.Prelude.{
  ℕ, suc, ◌+◌, ◌-◌, ◌*◌, String, Bool, true, false, Option, none, some, ◌&&◌, ◌||◌, leb, ◌==◌,
  if◌then◌else◌,
}

-- A value of Python's int.
pub data Integer : Type 0 where
  pos negsuc : ℕ → Integer

abbrev is_digit : ℕ → Bool
is_digit c = leb 48 c && leb c 57

abbrev is_space : ℕ → Bool
is_space c = c == 32 || (leb 9 c && leb c 13) || (leb 28 c && leb c 31)

abbrev trailing : ℕ → String → Option ℕ
trailing n [] = some n
trailing n (c ∷ cs) = let rest = trailing n cs in if is_space (code c) then rest else none

-- Digits with single underscores between them, then whitespace. `after` says that a digit was just
-- read; a text of more than 4300 digits is refused (sys.get_int_max_str_digits).
unfoldable pub int_digits : Bool → ℕ → ℕ → String → Option ℕ
int_digits after seen n [] = if after && leb seen 4300 then some n else none
int_digits after seen n (c ∷ cs) =
    let digit = int_digits true (suc seen) (n * 10 + (code c - 48)) cs in
    let gap = int_digits false seen n cs in
    if is_digit (code c)
    then digit
    else if code c == 95 && after
    then gap
    else if is_space (code c) && after && leb seen 4300
    then trailing n cs
    else none

abbrev negative : Option ℕ → Option Integer
negative none = none
negative (some n) = some (if n == 0 then Integer.pos 0 else Integer.negsuc (n - 1))

abbrev positive : Option ℕ → Option Integer
positive none = none
positive (some n) = some (Integer.pos n)

unfoldable pub int_of : String → Option Integer
unfolding int_digits
int_of [] = none
int_of (c ∷ cs) =
    let rest = int_of cs in
    if is_space (code c)
    then rest
    else if code c == 45
    then negative (int_digits false 0 0 cs)
    else if code c == 43
    then positive (int_digits false 0 0 cs)
    else positive (int_digits false 0 0 (c ∷ cs))
