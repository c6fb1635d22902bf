-- ===== src/Accounts/Passwords.antt =====
-- app/accounts.py: hash_password and verify_password. The parameters are hashlib.scrypt and the two
-- functions of base64.
use Prim.Native.Char.{code}
use Prim.Native.String.{[] as end_of_text, ◌∷◌ as ◌∷ₜ◌}
use text.Mathlib.Text.{◌==◌ as str_eq}
use computecluster.Prelude.{
  ℕ, String, Bool, false, Option, none, some, List, [], ◌∷◌, ◌≡◌, ◌||◌, ◌==◌, not, if◌then◌else◌,
}
use computecluster.Paths.{same_points}
use computecluster.Batch.Decimal.{decimal}
use computecluster.Batch.Integers.{Integer, int_of}

-- Whether a text has a "$".
unfoldable pub has_dollar : String → Bool
has_dollar end_of_text = false
has_dollar (c ∷ₜ cs) = code c == 36 || has_dollar cs

-- `derive` takes the password, the salt and the costs n, r and p, and is nothing where it raises
-- ValueError; with the costs of the code it derives. What urlsafe_b64encode writes has no "$", and
-- is decoded to what was encoded; decoding is nothing where it raises ValueError.
pub record ScryptFunction : Type 0 where
  pub derive : String → List ℕ → Integer → Integer → Integer → Option (List ℕ)
  pub derives :
      (password : String) (salt : List ℕ)
      → (digest : List ℕ) × (derive password salt
            (Integer.pos 16384)
            (Integer.pos 8)
            (Integer.pos 1)
          ≡ some digest)
  pub b64encode : List ℕ → String
  pub b64decode : String → Option (List ℕ)
  pub decode-encode : (bytes : List ℕ) → b64decode (b64encode bytes) ≡ some bytes
  pub no_dollar : (bytes : List ℕ) → has_dollar (b64encode bytes) ≡ false

abbrev pub scrypt_n : ℕ
scrypt_n = 16384

abbrev pub scrypt_r : ℕ
scrypt_r = 8

abbrev pub scrypt_p : ℕ
scrypt_p = 1

-- A text, a "$" and a text.
unfoldable pub with_dollar : String → String → String
with_dollar end_of_text rest = "$" ∷ₜ rest
with_dollar (c ∷ₜ cs) rest = c ∷ₜ with_dollar cs rest

-- "$".join(fields)
unfoldable pub join_fields : List String → String
unfolding with_dollar
join_fields [] = end_of_text
join_fields (x ∷ []) = x
join_fields (x ∷ y ∷ ys) = with_dollar x (join_fields (y ∷ ys))

-- encoded.split("$")
unfoldable pub split_dollar : String → List String
split_dollar end_of_text = end_of_text ∷ []
split_dollar (c ∷ₜ cs) =
    let rest = split_dollar cs in
    if code c == 36
    then end_of_text ∷ rest
    else elim rest [ [] ↦ (c ∷ₜ end_of_text) ∷ [] | p ∷ ps ↦ (c ∷ₜ p) ∷ ps ]

module _ (scrypt : ScryptFunction) where
  -- The fields that hash_password joins; `salt` is what secrets.token_bytes(16) drew.
  unfoldable pub hash_fields : String → List ℕ → List String
  unfolding decimal
  hash_fields password salt =
      "scrypt"
      ∷ decimal scrypt_n
      ∷ decimal scrypt_r
      ∷ decimal scrypt_p
      ∷ scrypt.b64encode salt
      ∷ scrypt.b64encode (scrypt.derives password salt).0
      ∷ []

  unfoldable pub hash_password : String → List ℕ → String
  unfolding hash_fields join_fields
  hash_password password salt = join_fields (hash_fields password salt)

  -- From the decoded salt and digest on: the costs are read, and the digest is derived again.
  unfoldable pub derives_again :
      String → List ℕ → List ℕ → Option Integer → Option Integer → Option Integer → Bool
  derives_again password salt expected (some n) (some r) (some p) =
      elim (scrypt.derive password salt n r p) [
        | none ↦ false
        | some actual ↦ same_points actual expected
      ]
  derives_again password salt expected _ _ _ = false

  unfoldable pub verify_fields : String → List String → Bool
  unfolding derives_again int_of
  verify_fields password (algorithm ∷ n ∷ r ∷ p ∷ salt_text ∷ digest_text ∷ []) =
      if not (str_eq algorithm "scrypt") then false else elim (scrypt.b64decode salt_text) [
        | none ↦ false
        | some salt ↦ elim (scrypt.b64decode digest_text) [
          | none ↦ false
          | some expected ↦ derives_again password salt expected (int_of n) (int_of r) (int_of p)
        ]
      ]
  verify_fields password _ = false

  unfoldable pub verify_password : String → String → Bool
  unfolding verify_fields split_dollar
  verify_password password encoded = verify_fields password (split_dollar encoded)
