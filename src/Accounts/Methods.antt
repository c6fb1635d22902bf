-- ===== src/Accounts/Methods.antt =====
-- Each method of AccountStore keeps the tables consistent.
use mathlib.Core.Path.{subst}
use computecluster.Prelude.{count_by-filter_by, count_by-snoc}
use computecluster.Prelude.{
  ℕ, String, Bool, true, false, List, [], ◌∷◌, ◌++◌, not, ◌&&◌, ◌||◌, ◌==◌, ◌≡◌, refl, arith, All,
  any, update_where, find, Bool-cases, Option-cases, inl, inr, ==→≡, All-append, All-update_where,
  count_by-update_where_le, is_some-find,
}
use computecluster.Paths.Points.{same_points-eq}
use computecluster.Accounts.Tables.{
  UserRole, UserRow, ExternalIdentityRow, UploadRow, AccountTables,
}
use computecluster.Accounts.Passwords.{ScryptFunction}
use computecluster.Accounts.{
  has_user_id, has_username, is_member_id, UserCreate, new_user, create, revoke_sessions,
  raise_version, set_disabled, disable_row, change_password, reset_password, password_row,
  password_matches,
}
use computecluster.Accounts.Identities.{
  is_subject, is_user, conflicts, rename, upsert, link_external_identity, unlink_external_identity,
  normalize_external_subject, is_supported, strip,
}
use computecluster.Accounts.Uploads.{is_kind, record_upload, forget_uploads}
use computecluster.Accounts.Consistency.{
  IsSoundAccounts, KeepsUser, linked, owned, All-filter_by, append_user-IsSoundAccounts,
  update_users-IsSoundAccounts,
}

password_row-KeepsUser : (p : UserRow → Bool) (h : String) → KeepsUser p (password_row h)
unfolding password_row
password_row-KeepsUser p h = record {
  id = λ u. refl;
  username = λ u. refl;
  role = λ u. refl;
  enabled = λ u e a. a;
}

raise_version-KeepsUser : (p : UserRow → Bool) → KeepsUser p raise_version
unfolding raise_version
raise_version-KeepsUser p = record {
  id = λ u. refl;
  username = λ u. refl;
  role = λ u. refl;
  enabled = λ u e a. a;
}

disable_row-KeepsUser :
    (user_id : ℕ) (off : Bool) → KeepsUser (is_member_id user_id) (disable_row off)
unfolding disable_row
disable_row-KeepsUser user_id off = record {
  id = λ u. refl;
  username = λ u. refl;
  role = λ u. refl;
  enabled = λ u e a. ground arith;
}

pub create-IsSoundAccounts :
    (scrypt : ScryptFunction) (id now : ℕ) (salt : List ℕ) (request : UserCreate)
    (db : AccountTables)
    → request.role ≡ UserRole.member
    → IsSoundAccounts db
    → IsSoundAccounts (create scrypt id now salt request db).0
unfolding create
create-IsSoundAccounts scrypt id now salt request db m s =
    elim (Bool-cases (any (has_user_id id) db.users)) [
      | inl used ↦ rw (used) s
      | inr new ↦ elim (Bool-cases (any (has_username request.username) db.users)) [
        | inl used ↦ rw (new, used) s
        | inr free ↦
            rw (new, free)
              (unfold new_user in
                append_user-IsSoundAccounts db (new_user scrypt id now salt request) new free
                  (rw (m) refl) s)
      ]
    ]

pub set_disabled-IsSoundAccounts :
    (user_id : ℕ) (off : Bool) (db : AccountTables)
    → IsSoundAccounts db
    → IsSoundAccounts (set_disabled user_id off db).0
unfolding set_disabled
set_disabled-IsSoundAccounts user_id off db s =
    elim (Option-cases (find (is_member_id user_id) db.users)) [
      | inl n ↦ rw (n, set_disabled) s
      | inr (u, e) ↦
          rw (e, set_disabled)
            (update_users-IsSoundAccounts db _ _ (disable_row-KeepsUser user_id off) s)
    ]

pub change_password-IsSoundAccounts :
    (scrypt : ScryptFunction) (user_id : ℕ) (current password : String) (salt : List ℕ)
    (db : AccountTables)
    → IsSoundAccounts db
    → IsSoundAccounts (change_password scrypt user_id current password salt db).0
unfolding change_password
change_password-IsSoundAccounts scrypt user_id current password salt db s =
    elim (Option-cases (find (λ u. u.id == user_id && not u.disabled) db.users)) [
      | inl n ↦ rw (n, change_password) s
      | inr (u, e) ↦ elim (Bool-cases (password_matches scrypt current u)) [
        | inl y ↦
            rw (e, change_password, y)
              (update_users-IsSoundAccounts db _ _ (password_row-KeepsUser _ _) s)
        | inr n ↦ rw (e, change_password, n) s
      ]
    ]

pub reset_password-IsSoundAccounts :
    (scrypt : ScryptFunction) (user_id : ℕ) (password : String) (salt : List ℕ) (db : AccountTables)
    → IsSoundAccounts db
    → IsSoundAccounts (reset_password scrypt user_id password salt db).0
unfolding reset_password
reset_password-IsSoundAccounts scrypt user_id password salt db s =
    elim (Option-cases (find (is_member_id user_id) db.users)) [
      | inl n ↦ rw (n, reset_password) s
      | inr (u, e) ↦
          rw (e, reset_password)
            (update_users-IsSoundAccounts db _ _ (password_row-KeepsUser _ _) s)
    ]

renamed-IsSoundAccounts :
    (db : AccountTables) (p : ExternalIdentityRow → Bool) (name : List ℕ)
    → IsSoundAccounts db
    → IsSoundAccounts (record db { identities = update_where p (rename name) db.identities })
unfolding rename
renamed-IsSoundAccounts db p name s = record {
  ids = s.ids;
  usernames = s.usernames;
  admins = s.admins;
  administrator = s.administrator;
  subjects = λ t. omega (
    arith,
    s.subjects t,
    count_by-update_where_le (λ r. linked db.users r ≡ true) (is_subject t) p (rename name)
        db.identities (λ r e h g. g) s.owners,
  );
  links = λ i. omega (
    arith,
    s.links i,
    count_by-update_where_le (λ r. linked db.users r ≡ true) (is_user i) p (rename name)
        db.identities (λ r e h g. g) s.owners,
  );
  owners =
      All-update_where (λ r. linked db.users r ≡ true) (λ r. linked db.users r ≡ true) p
        (rename name) db.identities (λ r e h. h) (λ r e h. h) s.owners;
  uploads = s.uploads;
}

linked_row-IsSoundAccounts :
    (db : AccountTables) (r : ExternalIdentityRow)
    → any (is_subject r.subject) db.identities ≡ false
    → any (is_user r.user_id) db.identities ≡ false
    → linked db.users r ≡ true
    → IsSoundAccounts db
    → IsSoundAccounts (record db { identities = db.identities ++ r ∷ [] })
linked_row-IsSoundAccounts db r new free ok s = record {
  ids = s.ids;
  usernames = s.usernames;
  admins = s.admins;
  administrator = s.administrator;
  subjects = λ t. count_by-snoc (is_subject t) db.identities r (s.subjects t) (λ e.
      subst (λ k. any (is_subject k) db.identities ≡ false) (same_points-eq r.subject t e) new);
  links = λ i.
      count_by-snoc (is_user i) db.identities r (s.links i)
        (λ e. subst (λ k. any (is_user k) db.identities ≡ false) (==→≡ r.user_id i e) free);
  owners = All-append (λ q. linked db.users q ≡ true) db.identities (r ∷ []) s.owners (ok, tt);
  uploads = s.uploads;
}

upsert-IsSoundAccounts :
    (user_id : ℕ) (subject name : List ℕ) (now : ℕ) (db : AccountTables)
    → IsSoundAccounts db
    → IsSoundAccounts (upsert user_id subject name now db).0
unfolding upsert
upsert-IsSoundAccounts user_id subject name now db s =
    elim (Option-cases (find (is_subject subject) db.identities)) [
      | inr (old, e) ↦ rw (e, upsert) (renamed-IsSoundAccounts db (is_subject subject) name s)
      | inl n ↦ elim (Bool-cases (any (is_user user_id) db.identities)) [
        | inl used ↦ rw (n, upsert, used) s
        | inr free ↦ elim (Bool-cases (any (has_user_id user_id) db.users)) [
          | inr gone ↦ rw (n, upsert, free, gone) s
          | inl there ↦
              rw (n, upsert, free, there)
                (linked_row-IsSoundAccounts db _
                  (ground (arith, is_some-find (is_subject subject) db.identities)) free there s)
        ]
      ]
    ]

pub revoke_sessions-IsSoundAccounts :
    (user_id version : ℕ) (db : AccountTables)
    → IsSoundAccounts db
    → IsSoundAccounts (revoke_sessions user_id version db)
unfolding revoke_sessions
revoke_sessions-IsSoundAccounts user_id version db s =
    update_users-IsSoundAccounts db _ _ (raise_version-KeepsUser _) s

pub link-IsSoundAccounts :
    (user_id : ℕ) (provider subject name : List ℕ) (now : ℕ) (db : AccountTables)
    → IsSoundAccounts db
    → IsSoundAccounts (link_external_identity user_id provider subject name now db).0
unfolding link_external_identity
link-IsSoundAccounts user_id provider subject name now db s =
    elim (Option-cases (normalize_external_subject subject)) [
      | inl n ↦ rw (n, link_external_identity) s
      | inr (t, e) ↦ elim (Bool-cases (is_supported provider)) [
        | inr off ↦ rw (e, link_external_identity, off) s
        | inl on ↦ elim (Bool-cases (conflicts user_id t db.identities)) [
          | inl c ↦ rw (e, link_external_identity, on, c) s
          | inr c ↦
              rw (e, link_external_identity, on, c)
                (upsert-IsSoundAccounts user_id t (strip name) now db s)
        ]
      ]
    ]

pub unlink-IsSoundAccounts :
    (user_id : ℕ) (provider : List ℕ) (db : AccountTables)
    → IsSoundAccounts db
    → IsSoundAccounts (unlink_external_identity user_id provider db).0
unfolding unlink_external_identity
unlink-IsSoundAccounts user_id provider db s = elim (Bool-cases (is_supported provider)) [
  | inr off ↦ rw (off) s
  | inl y ↦ rw (y) (record {
    ids = s.ids;
    usernames = s.usernames;
    admins = s.admins;
    administrator = s.administrator;
    subjects = λ t. omega (arith, s.subjects t, count_by-filter_by (is_subject t) _ db.identities);
    links = λ i. omega (arith, s.links i, count_by-filter_by (is_user i) _ db.identities);
    owners =
        All-filter_by (is_user user_id) (λ q. linked db.users q ≡ true) _ db.identities s.owners;
    uploads = s.uploads;
  })
]

uploads-IsSoundAccounts :
    (db : AccountTables) (files : List UploadRow)
    → All (λ f. owned db.users f ≡ true) files
    → IsSoundAccounts db
    → IsSoundAccounts (record db { uploads = files })
uploads-IsSoundAccounts db files a s = record {
  ids = s.ids;
  usernames = s.usernames;
  admins = s.admins;
  administrator = s.administrator;
  subjects = s.subjects;
  links = s.links;
  owners = s.owners;
  uploads = a;
}

pub record_upload-IsSoundAccounts :
    (id owner : ℕ) (kind : String) (now : ℕ) (db : AccountTables)
    → IsSoundAccounts db
    → IsSoundAccounts (record_upload id owner kind now db).0
unfolding record_upload
record_upload-IsSoundAccounts id owner kind now db s =
    elim (Bool-cases (
      any (λ u. u.id == id) db.uploads
      || not (is_kind kind)
      || not (any (has_user_id owner) db.users))) [
        | inl bad ↦ rw (bad) s
        | inr ok ↦ rw (ok) (
            uploads-IsSoundAccounts db _
              (All-append (λ f. owned db.users f ≡ true) db.uploads _ s.uploads (ground arith, tt))
              s)
      ]

pub forget_uploads-IsSoundAccounts :
    (ids : List ℕ) (db : AccountTables)
    → IsSoundAccounts db
    → IsSoundAccounts (forget_uploads ids db)
unfolding forget_uploads
forget_uploads-IsSoundAccounts ids db s =
    uploads-IsSoundAccounts db _
      (All-filter_by (λ u. true) (λ f. owned db.users f ≡ true) _ db.uploads s.uploads) s
