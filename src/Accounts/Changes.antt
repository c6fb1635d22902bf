-- ===== src/Accounts/Changes.antt =====
-- What each method of AccountStore does to the users.
use computecluster.Prelude.{
  ℕ, ◌≤◌, String, Bool, List, [], ◌∷◌, ◌++◌, not, ◌&&◌, ◌||◌, ◌==◌, ◌≡◌, refl, arith, any,
  update_where, find, Bool-cases, Option-cases, inl, inr,
}
use computecluster.Accounts.Tables.{UserRow, AccountTables}
use computecluster.Accounts.Passwords.{ScryptFunction}
use computecluster.Accounts.{
  has_user_id, has_username, is_member_id, UserCreate, create, revoke_sessions, raise_version,
  set_disabled, disable_row, change_password, reset_password, password_row, password_matches,
}
use computecluster.Accounts.Identities.{
  is_subject, is_user, conflicts, upsert, link_external_identity, unlink_external_identity,
  normalize_external_subject, is_supported, strip,
}
use computecluster.Accounts.Uploads.{is_kind, record_upload, forget_uploads}
use computecluster.Accounts.History.{
  AccountStep, creates, revokes, disables, changes, resets, links, unlinks, uploads, forgets,
}

-- What one method does to the users: nothing, a new row, or an UPDATE that keeps ids and lowers no
-- session version.
pub data UserChange (users : List UserRow) : List UserRow → Type 0 where
  unchanged : UserChange users users
  appended : (u : UserRow) → UserChange users (users ++ u ∷ [])
  updated :
      (p : UserRow → Bool) (f : UserRow → UserRow)
      → ((u : UserRow) → (f u).id ≡ u.id)
      → ((u : UserRow) → u.session_version ≤ (f u).session_version)
      → UserChange users (update_where p f users)

password_updated :
    (users : List UserRow) (p : UserRow → Bool) (h : String)
    → UserChange users (update_where p (password_row h) users)
unfolding password_row
password_updated users p h = updated p (password_row h) (λ u. refl) (λ u. omega arith)

create-UserChange :
    (scrypt : ScryptFunction) (id now : ℕ) (salt : List ℕ) (request : UserCreate)
    (db : AccountTables)
    → UserChange db.users (create scrypt id now salt request db).0.users
unfolding create
create-UserChange scrypt id now salt request db =
    elim (Bool-cases (any (has_user_id id) db.users)) [
      | inl used ↦ rw (used) unchanged
      | inr new ↦ elim (Bool-cases (any (has_username request.username) db.users)) [
        | inl used ↦ rw (new, used) unchanged
        | inr free ↦ rw (new, free) (appended _)
      ]
    ]

revoke_sessions-UserChange :
    (user_id version : ℕ) (db : AccountTables)
    → UserChange db.users (revoke_sessions user_id version db).users
unfolding revoke_sessions raise_version
revoke_sessions-UserChange user_id version db =
    updated _ raise_version (λ u. refl) (λ u. omega arith)

set_disabled-UserChange :
    (user_id : ℕ) (off : Bool) (db : AccountTables)
    → UserChange db.users (set_disabled user_id off db).0.users
unfolding set_disabled disable_row
set_disabled-UserChange user_id off db =
    elim (Option-cases (find (is_member_id user_id) db.users)) [
      | inl n ↦ rw (n, set_disabled) unchanged
      | inr (u, e) ↦
          rw (e, set_disabled) (updated _ (disable_row off) (λ u. refl) (λ u. omega arith))
    ]

change_password-UserChange :
    (scrypt : ScryptFunction) (user_id : ℕ) (current password : String) (salt : List ℕ)
    (db : AccountTables)
    → UserChange db.users (change_password scrypt user_id current password salt db).0.users
unfolding change_password
change_password-UserChange scrypt user_id current password salt db =
    elim (Option-cases (find (λ u. u.id == user_id && not u.disabled) db.users)) [
      | inl n ↦ rw (n, change_password) unchanged
      | inr (u, e) ↦ elim (Bool-cases (password_matches scrypt current u)) [
        | inl y ↦ rw (e, change_password, y) (password_updated db.users _ _)
        | inr n ↦ rw (e, change_password, n) unchanged
      ]
    ]

reset_password-UserChange :
    (scrypt : ScryptFunction) (user_id : ℕ) (password : String) (salt : List ℕ) (db : AccountTables)
    → UserChange db.users (reset_password scrypt user_id password salt db).0.users
unfolding reset_password
reset_password-UserChange scrypt user_id password salt db =
    elim (Option-cases (find (is_member_id user_id) db.users)) [
      | inl n ↦ rw (n, reset_password) unchanged
      | inr (u, e) ↦ rw (e, reset_password) (password_updated db.users _ _)
    ]

upsert-users :
    (user_id : ℕ) (subject name : List ℕ) (now : ℕ) (db : AccountTables)
    → UserChange db.users (upsert user_id subject name now db).0.users
unfolding upsert
upsert-users user_id subject name now db =
    elim (Option-cases (find (is_subject subject) db.identities)) [
      | inr (old, e) ↦ rw (e, upsert) unchanged
      | inl n ↦
          elim (Bool-cases
            (any (is_user user_id) db.identities || not (any (has_user_id user_id) db.users))) [
              | inl bad ↦ rw (n, upsert, bad) unchanged
              | inr ok ↦ rw (n, upsert, ok) unchanged
            ]
    ]

link-UserChange :
    (user_id : ℕ) (provider subject name : List ℕ) (now : ℕ) (db : AccountTables)
    → UserChange db.users (link_external_identity user_id provider subject name now db).0.users
unfolding link_external_identity
link-UserChange user_id provider subject name now db =
    elim (Option-cases (normalize_external_subject subject)) [
      | inl n ↦ rw (n, link_external_identity) unchanged
      | inr (t, e) ↦ elim (Bool-cases (is_supported provider)) [
        | inr off ↦ rw (e, link_external_identity, off) unchanged
        | inl on ↦ elim (Bool-cases (conflicts user_id t db.identities)) [
          | inl c ↦ rw (e, link_external_identity, on, c) unchanged
          | inr c ↦
              rw (e, link_external_identity, on, c) (upsert-users user_id t (strip name) now db)
        ]
      ]
    ]

unlink-UserChange :
    (user_id : ℕ) (provider : List ℕ) (db : AccountTables)
    → UserChange db.users (unlink_external_identity user_id provider db).0.users
unfolding unlink_external_identity
unlink-UserChange user_id provider db = elim (Bool-cases (is_supported provider)) [
  | inr off ↦ rw (off) unchanged
  | inl on ↦ rw (on) unchanged
]

record_upload-UserChange :
    (id owner : ℕ) (kind : String) (now : ℕ) (db : AccountTables)
    → UserChange db.users (record_upload id owner kind now db).0.users
unfolding record_upload
record_upload-UserChange id owner kind now db =
    elim (Bool-cases (
      any (λ u. u.id == id) db.uploads
      || not (is_kind kind)
      || not (any (has_user_id owner) db.users))) [
        | inl bad ↦ rw (bad) unchanged
        | inr ok ↦ rw (ok) unchanged
      ]

pub AccountStep-UserChange :
    (scrypt : ScryptFunction) {db db' : AccountTables}
    → AccountStep scrypt db db'
    → UserChange db.users db'.users
unfolding forget_uploads
AccountStep-UserChange scrypt {db} (creates id now salt request m) =
    create-UserChange scrypt id now salt request db
AccountStep-UserChange scrypt {db} (revokes user_id version) =
    revoke_sessions-UserChange user_id version db
AccountStep-UserChange scrypt {db} (disables user_id off) = set_disabled-UserChange user_id off db
AccountStep-UserChange scrypt {db} (changes user_id current password salt) =
    change_password-UserChange scrypt user_id current password salt db
AccountStep-UserChange scrypt {db} (resets user_id password salt) =
    reset_password-UserChange scrypt user_id password salt db
AccountStep-UserChange scrypt {db} (links user_id provider subject name now) =
    link-UserChange user_id provider subject name now db
AccountStep-UserChange scrypt {db} (unlinks user_id provider) =
    unlink-UserChange user_id provider db
AccountStep-UserChange scrypt {db} (uploads id owner kind now) =
    record_upload-UserChange id owner kind now db
AccountStep-UserChange scrypt {db} (forgets ids) = unchanged
