-- ===== src/Accounts/Tables.antt =====
-- The tables of app/accounts.py, as app/migrations.py creates them, and their rows as models.
use computecluster.Prelude.{ℕ, String, Bool, true, false, Option, none, List, [], ◌∷◌}

pub data UserRole : Type 0 where
  member admin : UserRole

abbrev pub is_admin_role : UserRole → Bool
is_admin_role UserRole.admin = true
is_admin_role UserRole.member = false

pub record UserRow : Type 0 where
  pub id : ℕ
  pub username : String
  pub role : UserRole
  pub password_hash : Option String
  pub disabled : Bool
  pub created_at : ℕ
  pub session_version : ℕ

-- `provider` has the one value "tailscale".
pub record ExternalIdentityRow : Type 0 where
  pub subject : List ℕ
  pub user_id : ℕ
  pub display_name : List ℕ
  pub linked_at : ℕ

pub record UploadRow : Type 0 where
  pub id : ℕ
  pub owner_user_id : ℕ
  pub kind : String
  pub created_at : ℕ

pub record AccountTables : Type 0 where
  pub users : List UserRow
  pub identities : List ExternalIdentityRow
  pub uploads : List UploadRow

pub record SessionIdentity : Type 0 where
  pub id : ℕ
  pub username : String
  pub role : UserRole

pub record UserRead : Type 0 where
  pub identity : SessionIdentity
  pub disabled : Bool
  pub created_at : ℕ

abbrev pub is_admin : SessionIdentity → Bool
is_admin i = is_admin_role i.role

unfoldable pub row_to_identity : UserRow → SessionIdentity
row_to_identity u = record { id = u.id; username = u.username; role = u.role }

unfoldable pub row_to_user : UserRow → UserRead
unfolding row_to_identity
row_to_user u = record {
  identity = row_to_identity u;
  disabled = u.disabled;
  created_at = u.created_at;
}

abbrev pub admin_user_id : ℕ
admin_user_id = 1

-- The tables after the migrations: the administrator alone, with no password.
abbrev pub migrated : ℕ → AccountTables
migrated created_at = record {
  users =
      (record {
        id = admin_user_id;
        username = "administrator";
        role = UserRole.admin;
        password_hash = none;
        disabled = false;
        created_at = created_at;
        session_version = 1;
      })
      ∷ [];
  identities = [];
  uploads = [];
}
