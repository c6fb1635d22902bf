-- ===== src/Tests/Accounts.antt =====
-- A member of the platform, a codec that keeps the laws of json and base64, and the theorems on them.
use Prim.Native.Char.{code}
use Prim.Native.String.{[] as end_of_text, ◌∷◌ as ◌∷ₜ◌}
use computecluster.Prelude.{
  String, ◌∙◌, ℕ, ◌+◌, zero, suc, ◌⊎◌, inl, inr, ◌-◌, ◌%◌, ◌≤◌, ◌<◌, false, Option, none, some,
  List, [], ◌∷◌, ◌++◌, ◌≡◌, refl, ap, arith, any, find, count_by, length, ◌==◌, if◌then◌else◌,
}
use computecluster.Accounts.Tables.{
  UserRole, UserRow, AccountTables, migrated, row_to_user, row_to_identity,
}
use computecluster.Accounts.Passwords.{ScryptFunction, has_dollar}
use computecluster.Accounts.{
  UserCreate, done, create, authenticate, new_user, reset_password, get_identity, revoke_sessions,
}
use computecluster.Accounts.Consistency.{IsSoundAccounts}
use computecluster.Accounts.History.{begin, next, creates, resets, AccountHistory-IsSoundAccounts}
use computecluster.Accounts.SignOut.{by_revocation, signed_out}
use computecluster.Accounts.Login.{create-authenticate}
use computecluster.Accounts.Sessions.{SessionCodec, padding, encode_session, decode_session}
use computecluster.Accounts.Cookies.{CodecLaws, encode-decode, IsSession, decode_session-signed}

-- A number as that many letters "a" and a "b".
unfoldable unary : ℕ → String → String
unary zero rest = "b" ∷ₜ rest
unary (suc n) rest = "a" ∷ₜ unary n rest

unfoldable written : List ℕ → String
unfolding unary
written [] = end_of_text
written (n ∷ ns) = unary n (written ns)

abbrev before_rest : ℕ → Option (List ℕ) → Option (List ℕ)
before_rest n none = none
before_rest n (some ns) = some (n ∷ ns)

unfoldable read_back : ℕ → String → Option (List ℕ)
read_back seen end_of_text = some []
read_back seen (c ∷ₜ cs) =
    let more = read_back (seen + 1) cs in
    let rest = read_back 0 cs in if code c == 97 then more else before_rest seen rest

read_back-unary :
    (n seen : ℕ) (rest : String)
    → read_back seen (unary n rest) ≡ before_rest (seen + n) (read_back 0 rest)
unfolding read_back unary
read_back-unary zero seen rest = let same : seen + 0 ≡ seen = omega arith in rw (same) refl
read_back-unary (suc n) seen rest =
    let same : seen + 1 + n ≡ seen + suc n = omega arith in
    rw (read_back-unary n (seen + 1) rest, same) refl

read_back-written : (ns : List ℕ) → read_back 0 (written ns) ≡ some ns
unfolding read_back written
read_back-written [] = refl
read_back-written (n ∷ ns) =
    let same : 0 + n ≡ n = omega arith in
    rw (read_back-unary n 0 (written ns), read_back-written ns, same) refl

dollarless-unary : (n : ℕ) (rest : String) → has_dollar (unary n rest) ≡ has_dollar rest
unfolding has_dollar unary
dollarless-unary zero rest = refl
dollarless-unary (suc n) rest = dollarless-unary n rest

dollarless-written : (ns : List ℕ) → has_dollar (written ns) ≡ false
unfolding has_dollar written
dollarless-written [] = refl
dollarless-written (n ∷ ns) = dollarless-unary n (written ns) ∙ dollarless-written ns

abbrev scrypt : ScryptFunction
scrypt = record {
  derive = λ password salt n r p. some salt;
  derives = λ password salt. (salt, refl);
  b64encode = written;
  b64decode = read_back 0;
  decode-encode = read_back-written;
  no_dollar = dollarless-written;
}

abbrev ana : UserCreate
ana = record { username = "ana"; password = "correct horse"; role = UserRole.member }

abbrev accounts : AccountTables
accounts = (create scrypt 7 100 (1 ∷ 2 ∷ []) ana (migrated 50)).0

abbrev ana_row : UserRow
ana_row = new_user scrypt 7 100 (1 ∷ 2 ∷ []) ana

is_created : (create scrypt 7 100 (1 ∷ 2 ∷ []) ana (migrated 50)).1 ≡ done (row_to_user ana_row)
unfolding create any new_user
is_created = refl

create-authenticate_example :
    authenticate scrypt "ana" "correct horse" accounts ≡ some (row_to_identity ana_row)
unfolding row_to_user
create-authenticate_example =
    create-authenticate scrypt 7 100 (1 ∷ 2 ∷ []) ana (migrated 50) (row_to_user ana_row) is_created

AccountHistory-IsSoundAccounts_example : IsSoundAccounts accounts
AccountHistory-IsSoundAccounts_example =
    AccountHistory-IsSoundAccounts scrypt 50 (next begin (creates 7 100 (1 ∷ 2 ∷ []) ana refl))

is_there : find (λ u. u.id == 7) accounts.users ≡ some ana_row
unfolding create any find new_user
is_there = refl

is_unique : count_by (λ u. u.id == 7) accounts.users ≤ 1
unfolding create any count_by new_user
is_unique = omega arith

signed_out_example :
    get_identity 7
      (some 1)
      (reset_password scrypt 7 "another one" [] (revoke_sessions 7 1 accounts)).0
    ≡ none
unfolding new_user
signed_out_example =
    signed_out scrypt accounts ana_row is_there is_unique by_revocation
      (next begin (resets 7 "another one" []))

-- Two letters for each number, padded in pairs.
unfoldable letters : List ℕ → List ℕ
letters [] = []
letters (n ∷ ns) = (n + 62) ∷ 62 ∷ letters ns

unfoldable pads : List ℕ → ℕ
pads [] = 0
pads (n ∷ ns) = 2 - pads ns

unfoldable numbers : List ℕ → List ℕ
numbers (c ∷ d ∷ cs) = if c == 61 then [] else (c - 62) ∷ numbers cs
numbers _ = []

unfoldable codec : SessionCodec
unfolding letters pads numbers
codec = record {
  dumps = λ p. p.user_id ∷ p.expires_at ∷ (elim p.session_version [ none ↦ [] | some v ↦ v ∷ [] ]);
  loads = λ t. elim t [
    | a ∷ b ∷ [] ↦ some (record { user_id = a; expires_at = b; session_version = none })
    | a ∷ b ∷ v ∷ [] ↦ some (record { user_id = a; expires_at = b; session_version = some v })
    | _ ↦ none
  ];
  b64encode = λ t. letters t ++ padding (pads t);
  b64decode = λ t. some (numbers t);
  sign = λ secret t. secret ++ t;
}

pads_bound : (t : List ℕ) → ((pads t ≡ 0) ⊎ (pads t ≡ 2)) × ((length (letters t) + pads t) % 4 ≡ 0)
unfolding pads letters
pads_bound [] = (inl refl, refl)
pads_bound (n ∷ ns) = elim ((pads_bound ns).0) [
  | inl e ↦ (inr (omega arith), omega (arith, (pads_bound ns).1))
  | inr e ↦ (inl (omega arith), omega (arith, (pads_bound ns).1))
]

numbers-letters : (t : List ℕ) (k : ℕ) → numbers (letters t ++ padding k) ≡ t
unfolding numbers letters
numbers-letters [] zero = refl
numbers-letters [] (suc zero) = refl
numbers-letters [] (suc (suc k)) = refl
numbers-letters (n ∷ ns) k =
    let first : (n + 62 == 61) ≡ false = ground arith in
    let back : n + 62 - 62 ≡ n = omega arith in rw (first, back, numbers-letters ns k) refl

without : (c : ℕ) (t : List ℕ) → c < 62 → any (λ d. d == c) (letters t) ≡ false
unfolding any letters
without c [] h = refl
without c (n ∷ ns) h = ground (arith, without c ns h)

read_version :
    (i e : ℕ) (v : Option ℕ)
    → codec.loads (codec.dumps (record { user_id = i; expires_at = e; session_version = v }))
      ≡ some (record { user_id = i; expires_at = e; session_version = v })
unfolding codec
read_version i e none = refl
read_version i e (some v) = refl

codec-CodecLaws : CodecLaws codec
unfolding codec
codec-CodecLaws = record {
  loads-dumps = λ p. read_version p.user_id p.expires_at p.session_version;
  decode-encode = λ t. ap some (numbers-letters t (pads t));
  body = letters;
  pad = pads;
  padded = λ t. refl;
  no_equals = λ t. without 61 t (omega arith);
  no_full_stop = λ t. without 46 t (omega arith);
  short = λ t. ground (arith, (pads_bound t).0);
  whole = λ t. (pads_bound t).1;
}

abbrev cookie : List ℕ
cookie = encode_session codec (row_to_identity ana_row) (5 ∷ []) 900 1

encode-decode_example : decode_session codec cookie (5 ∷ []) 900 ≡ some (7, 1)
unfolding row_to_identity new_user
encode-decode_example =
    encode-decode codec codec-CodecLaws (row_to_identity ana_row) (5 ∷ []) 900 1 900 (omega arith)

decode_session-signed_example : IsSession codec cookie (5 ∷ []) 900 (7, 1)
decode_session-signed_example =
    decode_session-signed codec cookie (5 ∷ []) 900 (7, 1) encode-decode_example
