-- ===== src/Accounts/History.antt =====
-- The account store over time: each method of AccountStore that writes is a step.
use computecluster.Prelude.{ℕ, String, Bool, List, ◌≡◌, refl, arith, any, count_by}
use computecluster.Accounts.Tables.{UserRole, AccountTables, migrated}
use computecluster.Accounts.Passwords.{ScryptFunction}
use computecluster.Accounts.{
  UserCreate, create, revoke_sessions, set_disabled, change_password, reset_password,
}
use computecluster.Accounts.Identities.{link_external_identity, unlink_external_identity}
use computecluster.Accounts.Uploads.{record_upload, forget_uploads}
use computecluster.Accounts.Consistency.{IsSoundAccounts}
use computecluster.Accounts.Methods.{
  create-IsSoundAccounts, revoke_sessions-IsSoundAccounts, set_disabled-IsSoundAccounts,
  change_password-IsSoundAccounts, reset_password-IsSoundAccounts, link-IsSoundAccounts,
  unlink-IsSoundAccounts, record_upload-IsSoundAccounts, forget_uploads-IsSoundAccounts,
}

-- Members are the only users that the API creates (UserCreate).
pub data AccountStep (scrypt : ScryptFunction) (db : AccountTables) : AccountTables → Type 0 where
  creates :
      (id now : ℕ) (salt : List ℕ) (request : UserCreate)
      → request.role ≡ UserRole.member
      → AccountStep scrypt db (create scrypt id now salt request db).0
  revokes : (user_id version : ℕ) → AccountStep scrypt db (revoke_sessions user_id version db)
  disables : (user_id : ℕ) (off : Bool) → AccountStep scrypt db (set_disabled user_id off db).0
  changes :
      (user_id : ℕ) (current password : String) (salt : List ℕ)
      → AccountStep scrypt db (change_password scrypt user_id current password salt db).0
  resets :
      (user_id : ℕ) (password : String) (salt : List ℕ)
      → AccountStep scrypt db (reset_password scrypt user_id password salt db).0
  links :
      (user_id : ℕ) (provider subject display_name : List ℕ) (now : ℕ)
      → AccountStep scrypt db
          (link_external_identity user_id provider subject display_name now db).0
  unlinks :
      (user_id : ℕ) (provider : List ℕ)
      → AccountStep scrypt db (unlink_external_identity user_id provider db).0
  uploads :
      (id owner : ℕ) (kind : String) (now : ℕ)
      → AccountStep scrypt db (record_upload id owner kind now db).0
  forgets : (ids : List ℕ) → AccountStep scrypt db (forget_uploads ids db)

pub data AccountHistory (scrypt : ScryptFunction) (start : AccountTables)
    : AccountTables → Type 0 where
  begin : AccountHistory scrypt start start
  next :
      {db db' : AccountTables}
      → AccountHistory scrypt start db
      → AccountStep scrypt db db'
      → AccountHistory scrypt start db'

migrated-IsSoundAccounts : (now : ℕ) → IsSoundAccounts (migrated now)
unfolding count_by any
migrated-IsSoundAccounts now = record {
  ids = λ i. ground arith;
  usernames = λ n. ground arith;
  admins = (refl, tt);
  administrator = refl;
  subjects = λ t. omega arith;
  links = λ i. omega arith;
  owners = tt;
  uploads = tt;
}

module _ (scrypt : ScryptFunction) where
  AccountStep-IsSoundAccounts :
      {db db' : AccountTables}
      → AccountStep scrypt db db'
      → IsSoundAccounts db
      → IsSoundAccounts db'
  AccountStep-IsSoundAccounts {db} (creates id now salt request m) s =
      create-IsSoundAccounts scrypt id now salt request db m s
  AccountStep-IsSoundAccounts {db} (revokes user_id version) s =
      revoke_sessions-IsSoundAccounts user_id version db s
  AccountStep-IsSoundAccounts {db} (disables user_id off) s =
      set_disabled-IsSoundAccounts user_id off db s
  AccountStep-IsSoundAccounts {db} (changes user_id current password salt) s =
      change_password-IsSoundAccounts scrypt user_id current password salt db s
  AccountStep-IsSoundAccounts {db} (resets user_id password salt) s =
      reset_password-IsSoundAccounts scrypt user_id password salt db s
  AccountStep-IsSoundAccounts {db} (links user_id provider subject name now) s =
      link-IsSoundAccounts user_id provider subject name now db s
  AccountStep-IsSoundAccounts {db} (unlinks user_id provider) s =
      unlink-IsSoundAccounts user_id provider db s
  AccountStep-IsSoundAccounts {db} (uploads id owner kind now) s =
      record_upload-IsSoundAccounts id owner kind now db s
  AccountStep-IsSoundAccounts {db} (forgets ids) s = forget_uploads-IsSoundAccounts ids db s

  -- Whatever methods of the account store are called, from the tables of the migrations: ids and
  -- names of users are unique, an administrator is there and none is disabled, an external subject
  -- belongs to one user and a user has one, and links and uploads belong to users.
  pub AccountHistory-IsSoundAccounts :
      (created_at : ℕ) {db : AccountTables}
      → AccountHistory scrypt (migrated created_at) db
      → IsSoundAccounts db
  AccountHistory-IsSoundAccounts created_at begin = migrated-IsSoundAccounts created_at
  AccountHistory-IsSoundAccounts created_at (next h s) =
      AccountStep-IsSoundAccounts s (AccountHistory-IsSoundAccounts created_at h)
