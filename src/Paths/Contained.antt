-- ===== src/Paths/Contained.antt =====
-- A portable path stays below the directory that it is opened in.
use computecluster.Prelude.{
  Bool, none, Option, ◌&&◌, ◌||◌, ◌==◌, ℕ, false, some, List, [], ◌∷◌, ◌++◌, not, ◌≡◌, arith, any,
  filter_by, if◌then◌else◌,
}
use computecluster.Paths.{
  push_first, is_forbidden, is_absolute, is_reserved, is_dropped, parts_of, is_parent,
  is_unsafe_part, portable_relative_path,
}

-- The parent directory; the root is its own.
abbrev parent_of : List (List ℕ) → List (List ℕ)
parent_of [] = []
parent_of (p ∷ []) = []
parent_of (p ∷ q ∷ ps) = p ∷ parent_of (q ∷ ps)

-- How a file system walks the pieces of a path from a directory: the empty piece and "." stay, ".."
-- goes up, and a name is entered under the spelling that the file system gives it.
unfoldable pub walk : (List ℕ → List ℕ) → List (List ℕ) → List (List ℕ) → List (List ℕ)
walk spelling dir [] = dir
walk spelling dir (p ∷ ps) =
    walk spelling
      (if is_dropped p
        then dir
        else if is_parent (spelling p)
        then parent_of dir
        else dir ++ spelling p ∷ [])
      ps

-- A separator of the pieces of a path: "/" and, on Windows, also "\".
abbrev is_separator : Bool → ℕ → Bool
is_separator windows c = c == 47 || (windows && c == 92)

unfoldable pub pieces : Bool → List ℕ → List (List ℕ)
pieces windows [] = [] ∷ []
pieces windows (c ∷ cs) =
    let rest = pieces windows cs in if is_separator windows c then [] ∷ rest else push_first c rest

-- The root, for a path that begins with a separator, and the given directory for another.
abbrev start_of : Bool → List (List ℕ) → List ℕ → List (List ℕ)
start_of windows dir [] = dir
start_of windows dir (c ∷ cs) = if is_separator windows c then [] else dir

-- What an operating system opens for a text from a directory, as the names from the root. No file
-- below a directory is opened for a text with a NUL, or, on Windows, with a colon, which ends a drive
-- or begins a stream, or with the name of a device.
unfoldable pub opened : Bool → (List ℕ → List ℕ) → List (List ℕ) → List ℕ → Option (List (List ℕ))
unfolding pieces walk
opened windows spelling dir value =
    let names = filter_by (λ p. not (is_dropped p)) (pieces windows value) in
    if any (λ c. c == 0) value || (windows && (any (λ c. c == 58) value || any is_reserved names))
    then none
    else some (walk spelling (start_of windows dir value) (pieces windows value))

accepted :
    (value : List ℕ) (parts : List (List ℕ))
    → portable_relative_path value ≡ some parts
    → (any is_forbidden value ≡ false)
      × (is_absolute value ≡ false)
      × (any is_unsafe_part (parts_of value) ≡ false)
      × (parts_of value ≡ parts)
unfolding portable_relative_path
accepted value parts e = ground arith
