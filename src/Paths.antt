-- ===== src/Paths.antt =====
-- contracts/models.py: portable_relative_path. A text is the list of its code points.
pub mod Contained
pub mod Points
use computecluster.Prelude.{
  ℕ, ◌-◌, Bool, true, false, Option, none, some, List, [], ◌∷◌, not, ◌&&◌, ◌||◌, leb, ◌==◌,
  if◌then◌else◌, any, filter_by, map, ◌++◌,
}

abbrev pub slash : ℕ
slash = 47

abbrev pub dot : ℕ
dot = 46

-- `a == b` on texts
unfoldable pub same_points : List ℕ → List ℕ → Bool
same_points [] [] = true
same_points [] (y ∷ ys) = false
same_points (x ∷ xs) [] = false
same_points (x ∷ xs) (y ∷ ys) = x == y && same_points xs ys

abbrev push_first : ℕ → List (List ℕ) → List (List ℕ)
push_first c [] = (c ∷ []) ∷ []
push_first c (p ∷ ps) = (c ∷ p) ∷ ps

-- value.split("/")
unfoldable pub split_path : List ℕ → List (List ℕ)
split_path [] = [] ∷ []
split_path (c ∷ cs) =
    let rest = split_path cs in if c == slash then [] ∷ rest else push_first c rest

-- The pieces that PurePosixPath.parts leaves out: the empty one and ".".
unfoldable pub is_dropped : List ℕ → Bool
is_dropped [] = true
is_dropped (c ∷ cs) = same_points (c ∷ cs) (dot ∷ [])

-- PurePosixPath(value).parts of a relative path
unfoldable pub parts_of : List ℕ → List (List ℕ)
parts_of value = filter_by (λ p. not (is_dropped p)) (split_path value)

-- PurePosixPath.is_absolute. Without a colon or a backslash, PureWindowsPath has a drive or a root
-- only where the path begins with a slash.
abbrev pub is_absolute : List ℕ → Bool
is_absolute [] = false
is_absolute (c ∷ cs) = c == slash

-- part[-1] in ". "
unfoldable pub ends_badly : List ℕ → Bool
ends_badly [] = false
ends_badly (c ∷ []) = c == dot || c == 32
ends_badly (c ∷ d ∷ ds) = ends_badly (d ∷ ds)

-- part.partition(".")[0]
unfoldable pub stem_of : List ℕ → List ℕ
stem_of [] = []
stem_of (c ∷ cs) = let rest = stem_of cs in if c == dot then [] else c ∷ rest

-- str.upper on ASCII: no other character has one of the letters of the reserved names as its upper
-- case.
abbrev pub upper : ℕ → ℕ
upper c = if leb 97 c && leb c 122 then c - 32 else c

abbrev digits : List ℕ
digits = 49 ∷ 50 ∷ 51 ∷ 52 ∷ 53 ∷ 54 ∷ 55 ∷ 56 ∷ 57 ∷ []

-- CON, PRN, AUX, NUL, COM1 to COM9 and LPT1 to LPT9
abbrev pub windows_reserved_names : List (List ℕ)
windows_reserved_names =
    (67 ∷ 79 ∷ 78 ∷ [])
    ∷ (80 ∷ 82 ∷ 78 ∷ [])
    ∷ (65 ∷ 85 ∷ 88 ∷ [])
    ∷ (78 ∷ 85 ∷ 76 ∷ [])
    ∷ (map (λ d. 67 ∷ 79 ∷ 77 ∷ d ∷ []) digits ++ map (λ d. 76 ∷ 80 ∷ 84 ∷ d ∷ []) digits)

unfoldable pub is_reserved : List ℕ → Bool
is_reserved part = any (same_points (map upper (stem_of part))) windows_reserved_names

abbrev pub is_parent : List ℕ → Bool
is_parent part = same_points part (dot ∷ dot ∷ [])

-- The tests of the loop over the parts.
unfoldable pub is_unsafe_part : List ℕ → Bool
is_unsafe_part part =
    same_points part (dot ∷ []) || is_parent part || ends_badly part || is_reserved part

-- "\\" in value or ":" in value or "\x00" in value
abbrev pub is_forbidden : ℕ → Bool
is_forbidden c = c == 92 || c == 58 || c == 0

abbrev is_empty : List (List ℕ) → Bool
is_empty [] = true
is_empty (p ∷ ps) = false

-- The parts of the path, or nothing where the code raises ValueError.
unfoldable pub portable_relative_path : List ℕ → Option (List (List ℕ))
portable_relative_path value =
    let parts = parts_of value in
    if any is_forbidden value
    then none
    else if is_empty parts || is_absolute value
    then none
    else if any is_unsafe_part parts
    then none
    else some parts
