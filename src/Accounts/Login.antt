-- ===== src/Accounts/Login.antt =====
-- Passwords: what is stored is accepted again.
use Prim.Native.Char.{code}
use Prim.Native.String.{[] as end_of_text, ◌∷◌ as ◌∷ₜ◌}
use text.Mathlib.Text.{◌==◌ as str_eq}
use text.Mathlib.TextEquality.{eq_iff}
use computecluster.Prelude.{
  All, ◌==◌, ap, Option, ℕ, String, true, false, none, some, List, [], ◌∷◌, ◌++◌, ◌≡◌, refl, arith,
  any, find, any-find, ◌∙◌, find-append_none, Bool-cases, Option-cases, inl, inr,
}
use computecluster.Paths.Points.{same_points_refl}
use computecluster.Accounts.Tables.{UserRow, AccountTables, UserRead}
use computecluster.Accounts.Passwords.{
  ScryptFunction, has_dollar, with_dollar, join_fields, split_dollar, hash_fields, hash_password,
  derives_again, verify_fields, verify_password, scrypt_n, scrypt_r, scrypt_p,
}
use computecluster.Batch.Decimal.{decimal}
use computecluster.Batch.Integers.{Integer, int_digits, int_of}
use computecluster.Accounts.{
  UserCreate, done, create, authenticate, new_user, has_username, has_user_id,
}

split-with_dollar :
    (x rest : String)
    → has_dollar x ≡ false
    → split_dollar (with_dollar x rest) ≡ x ∷ split_dollar rest
unfolding split_dollar with_dollar has_dollar
split-with_dollar end_of_text rest h = refl
split-with_dollar (c ∷ₜ cs) rest h =
    let other : (code c == 36) ≡ false = ground arith in
    rw (other, split-with_dollar cs rest (ground arith)) refl

split_plain : (x : String) → has_dollar x ≡ false → split_dollar x ≡ x ∷ []
unfolding split_dollar has_dollar
split_plain end_of_text h = refl
split_plain (c ∷ₜ cs) h =
    let other : (code c == 36) ≡ false = ground arith in
    rw (other, split_plain cs (ground arith)) refl

-- Fields without a "$" are split as they were joined.
split-join :
    (x : String) (xs : List String)
    → All (λ y. has_dollar y ≡ false) (x ∷ xs)
    → split_dollar (join_fields (x ∷ xs)) ≡ x ∷ xs
unfolding join_fields
split-join x [] a = split_plain x a.0
split-join x (y ∷ ys) a =
    split-with_dollar x (join_fields (y ∷ ys)) a.0 ∙ ap (λ r. x ∷ r) (split-join y ys a.1)

-- The fields of a stored hash have no "$".
fields_plain :
    (scrypt : ScryptFunction) (password : String) (salt : List ℕ)
    → All (λ y. has_dollar y ≡ false) (hash_fields scrypt password salt)
unfolding hash_fields has_dollar decimal
fields_plain scrypt password salt = (
  refl,
  (
    refl,
    (
      refl,
      (refl, (scrypt.no_dollar salt, (scrypt.no_dollar (scrypt.derives password salt).0, tt))),
    ),
  ),
)

read_n : int_of (decimal scrypt_n) ≡ some (Integer.pos 16384)
unfolding int_of int_digits decimal
read_n = refl

read_r : int_of (decimal scrypt_r) ≡ some (Integer.pos 8)
unfolding int_of int_digits decimal
read_r = refl

read_p : int_of (decimal scrypt_p) ≡ some (Integer.pos 1)
unfolding int_of int_digits decimal
read_p = refl

-- Under the costs of the code the digest is derived again.
again :
    (scrypt : ScryptFunction) (password : String) (salt : List ℕ) (n r p : Option Integer)
    → n ≡ some (Integer.pos 16384)
    → r ≡ some (Integer.pos 8)
    → p ≡ some (Integer.pos 1)
    → derives_again scrypt password salt (scrypt.derives password salt).0 n r p ≡ true
unfolding derives_again
again scrypt password salt n r p en er ep =
    rw
      (
        en,
        er,
        ep,
        derives_again,
        (scrypt.derives password salt).1,
        same_points_refl (scrypt.derives password salt).0,
      )
      refl

verify-hash :
    (scrypt : ScryptFunction) (password : String) (salt : List ℕ)
    → verify_password scrypt password (hash_password scrypt password salt) ≡ true
unfolding verify_password hash_password hash_fields verify_fields
verify-hash scrypt password salt =
    rw
      (
        split-join "scrypt" _ (fields_plain scrypt password salt),
        scrypt.decode-encode salt,
        scrypt.decode-encode (scrypt.derives password salt).0,
      )
      (again scrypt password salt _ _ _ read_n read_r read_p)

find_last :
    (users : List UserRow) (u : UserRow)
    → any (has_username u.username) users ≡ false
    → find (has_username u.username) (users ++ u ∷ []) ≡ some u
unfolding find
find_last users u free =
    let absent : find (has_username u.username) users ≡ none =
      elim (Option-cases (find (has_username u.username) users)) [
        | inl n ↦ n
        | inr (v, f) ↦ ground (arith, any-find (has_username u.username) users f)
      ] in
    let same : str_eq u.username u.username ≡ true = (eq_iff u.username u.username).1 refl in
    find-append_none (has_username u.username) users (u ∷ []) absent ∙ rw (same) refl

-- A user that is created can log in with that name and password: the answer is the created identity.
pub create-authenticate :
    (scrypt : ScryptFunction) (id now : ℕ) (salt : List ℕ) (request : UserCreate)
    (db : AccountTables) (user : UserRead)
    → (create scrypt id now salt request db).1 ≡ done user
    → authenticate scrypt request.username request.password (create scrypt id now salt request db).0
      ≡ some user.identity
unfolding create authenticate new_user
create-authenticate scrypt id now salt request db user e =
    elim (Bool-cases (any (has_user_id id) db.users)) [
      | inl used ↦ let refused = rw (used) at e in ground arith
      | inr new ↦ elim (Bool-cases (any (has_username request.username) db.users)) [
        | inl used ↦ let refused = rw (new, used) at e in ground arith
        | inr free ↦
            let made = rw (new, free) at e in
            let found = find_last db.users (new_user scrypt id now salt request) free in
            rw (new, free, found, authenticate, verify-hash scrypt request.password salt)
              (ground arith)
      ]
    ]
