-- ===== src/Accounts.antt =====
-- app/accounts.py: AccountStore, the users and their passwords.
pub mod Tables
pub mod Passwords
pub mod Identities
pub mod Uploads
pub mod Sessions
pub mod Authority
pub mod Consistency
pub mod Methods
pub mod History
pub mod Changes
pub mod SignOut
pub mod Login
pub mod Cookies
use text.Mathlib.Text.{◌==◌ as str_eq}
use computecluster.Prelude.{
  ℕ, ◌+◌, String, Bool, true, false, Option, none, some, List, [], ◌∷◌, ◌++◌, not, ◌&&◌, ◌||◌, ltb,
  ◌==◌, if◌then◌else◌, is_none, find, any, map, update_where, sort_by,
}
use Tables.{
  UserRole, UserRow, AccountTables, SessionIdentity, UserRead, is_admin_role, row_to_identity,
  row_to_user,
}
use Passwords.{ScryptFunction, hash_password, verify_password}

pub data AccountError : Type 0 where
  user_exists : String → AccountError
  user_not_found : ℕ → AccountError
  invalid_current_password : AccountError
  external_identity_conflict : AccountError
  integrity_error : AccountError
  value_error : AccountError

pub data Outcome (A : Type 0) : Type 0 where
  done : A → Outcome A
  raises : AccountError → Outcome A

pub record UserCreate : Type 0 where
  pub username : String
  pub password : String
  pub role : UserRole

abbrev pub has_user_id : ℕ → UserRow → Bool
has_user_id user_id u = u.id == user_id

abbrev pub has_username : String → UserRow → Bool
has_username username u = str_eq u.username username

abbrev pub is_member_id : ℕ → UserRow → Bool
is_member_id user_id u = u.id == user_id && not (is_admin_role u.role)

unfoldable pub get_identity : ℕ → Option ℕ → AccountTables → Option SessionIdentity
unfolding row_to_identity
get_identity user_id session_version db = elim (find (has_user_id user_id) db.users) [
  | none ↦ none
  | some u ↦
      if u.disabled
        || (elim session_version [ none ↦ false | some v ↦ not (u.session_version == v) ])
      then none
      else some (row_to_identity u)
]

unfoldable pub session_version : ℕ → AccountTables → Outcome ℕ
session_version user_id db = elim (find (has_user_id user_id) db.users) [
  | none ↦ raises (user_not_found user_id)
  | some u ↦ done u.session_version
]

unfoldable pub raise_version : UserRow → UserRow
raise_version u = record u { session_version = u.session_version + 1 }

-- WHERE id = ? AND session_version = ?
unfoldable pub revoke_sessions : ℕ → ℕ → AccountTables → AccountTables
unfolding raise_version
revoke_sessions user_id version db = record db {
  users =
      update_where (λ u. u.id == user_id && u.session_version == version) raise_version db.users;
}

-- The text order of usernames is the parameter `before`: ORDER BY role DESC, username.
unfoldable pub list_users : (String → String → Bool) → AccountTables → List UserRead
unfolding row_to_user
list_users before db = map row_to_user (
    sort_by
      (λ u v.
        (not (is_admin_role u.role) && is_admin_role v.role)
        || (not (is_admin_role u.role || is_admin_role v.role)
            || (is_admin_role u.role && is_admin_role v.role))
          && before u.username v.username)
      db.users)

unfoldable pub disable_row : Bool → UserRow → UserRow
disable_row disabled u = record u { disabled = disabled }

-- The RETURNING row: the id is the primary key.
unfoldable pub set_disabled : ℕ → Bool → AccountTables → AccountTables × Outcome UserRead
unfolding disable_row row_to_user
set_disabled user_id disabled db = elim (find (is_member_id user_id) db.users) [
  | none ↦ (db, raises (user_not_found user_id))
  | some u ↦ (
    record db { users = update_where (is_member_id user_id) (disable_row disabled) db.users },
    done (row_to_user (disable_row disabled u)),
  )
]

unfoldable pub password_row : String → UserRow → UserRow
password_row hash u = record u {
  password_hash = some hash;
  session_version = u.session_version + 1;
}

module _ (scrypt : ScryptFunction) where
  -- `password_hash is None or not verify_password(...)`, negated
  abbrev pub password_matches : String → UserRow → Bool
  password_matches password u = elim u.password_hash [
    | none ↦ false
    | some hash ↦ verify_password scrypt password hash
  ]

  unfoldable pub new_user : ℕ → ℕ → List ℕ → UserCreate → UserRow
  unfolding hash_password
  new_user user_id now salt request = record {
    id = user_id;
    username = request.username;
    role = request.role;
    password_hash = some (hash_password scrypt request.password salt);
    disabled = false;
    created_at = now;
    session_version = 1;
  }

  -- The fresh id, the time and the salt are drawn before the INSERT.
  unfoldable pub create :
      ℕ → ℕ → List ℕ → UserCreate → AccountTables → AccountTables × Outcome UserRead
  unfolding new_user row_to_user
  create user_id now salt request db =
      if any (has_user_id user_id) db.users
      then (db, raises integrity_error)
      else if any (has_username request.username) db.users
      then (db, raises (user_exists request.username))
      else (
        record db { users = db.users ++ new_user user_id now salt request ∷ [] },
        done (row_to_user (new_user user_id now salt request)),
      )

  unfoldable pub authenticate : String → String → AccountTables → Option SessionIdentity
  unfolding verify_password row_to_identity
  authenticate username password db = elim (find (has_username username) db.users) [
    | none ↦ none
    | some u ↦
        if u.disabled || not (password_matches password u) then none else some (row_to_identity u)
  ]

  unfoldable pub change_password :
      ℕ → String → String → List ℕ → AccountTables → AccountTables × Outcome Unit
  unfolding password_row hash_password verify_password
  change_password user_id current_password new_password salt db =
      elim (find (λ u. u.id == user_id && not u.disabled) db.users) [
        | none ↦ (db, raises invalid_current_password)
        | some u ↦
            if password_matches current_password u
            then (
              record db {
                users =
                    update_where (has_user_id user_id)
                      (password_row (hash_password scrypt new_password salt)) db.users;
              },
              done tt,
            )
            else (db, raises invalid_current_password)
      ]

  unfoldable pub reset_password : ℕ → String → List ℕ → AccountTables → AccountTables × Outcome Unit
  unfolding password_row hash_password
  reset_password user_id new_password salt db = elim (find (is_member_id user_id) db.users) [
    | none ↦ (db, raises (user_not_found user_id))
    | some u ↦ (
      record db {
        users =
            update_where (is_member_id user_id)
              (password_row (hash_password scrypt new_password salt)) db.users;
      },
      done tt,
    )
  ]
