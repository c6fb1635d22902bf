-- ===== src/Accounts/Consistency.antt =====
-- The account tables are consistent, and every method keeps them so.
use text.Mathlib.Text.{◌==◌ as str_eq}
use text.Mathlib.TextEquality.{eq_iff}
use mathlib.Core.Path.{subst}
use computecluster.Prelude.{
  ℕ, ◌≤◌, String, Bool, true, false, List, [], ◌∷◌, ◌++◌, not, ◌&&◌, ◌==◌, ◌≡◌, arith, All, any,
  count_by, update_where, filter_by, Bool-cases, inl, inr, ==→≡, count_by-snoc, any-append,
  All-map_where, All-append, All-update_where, any-update_where, count_by-update_where_le,
}
use computecluster.Accounts.Tables.{
  UserRow, ExternalIdentityRow, UploadRow, AccountTables, is_admin_role,
}
use computecluster.Accounts.{has_user_id, has_username}
use computecluster.Accounts.Identities.{is_subject, is_user}

abbrev pub is_enabled_admin : UserRow → Bool
is_enabled_admin u = not (is_admin_role u.role && u.disabled)

abbrev pub owned : List UserRow → UploadRow → Bool
owned users f = any (has_user_id f.owner_user_id) users

abbrev pub linked : List UserRow → ExternalIdentityRow → Bool
linked users r = any (has_user_id r.user_id) users

-- Users have ids and names of their own, no administrator is disabled and there is one, a subject
-- belongs to one user and a user has one subject, and every link and upload belongs to a user.
pub record IsSoundAccounts (db : AccountTables) : Type 0 where
  pub ids : (i : ℕ) → count_by (has_user_id i) db.users ≤ 1
  pub usernames : (n : String) → count_by (has_username n) db.users ≤ 1
  pub admins : All (λ u. is_enabled_admin u ≡ true) db.users
  pub administrator : any (λ u. is_admin_role u.role) db.users ≡ true
  pub subjects : (s : List ℕ) → count_by (is_subject s) db.identities ≤ 1
  pub links : (i : ℕ) → count_by (is_user i) db.identities ≤ 1
  pub owners : All (λ r. linked db.users r ≡ true) db.identities
  pub uploads : All (λ f. owned db.users f ≡ true) db.uploads

module _ {A : Type 0} (q : A → Bool) where
  pub All-filter_by :
      (P : A → Type 0) (p : A → Bool) (xs : List A) → All P xs → All P (filter_by p xs)
  unfolding filter_by
  All-filter_by P p [] a = tt
  All-filter_by P p (x ∷ xs) a = elim (Bool-cases (p x)) [
    | inl e ↦ rw (e) (a.0, All-filter_by P p xs a.1)
    | inr e ↦ rw (e) (All-filter_by P p xs a.1)
  ]

-- A row whose key is i is in no table that has no row with its key.
fresh_id :
    (users : List UserRow) (id i : ℕ)
    → any (has_user_id id) users ≡ false
    → (id == i) ≡ true
    → any (has_user_id i) users ≡ false
fresh_id users id i f e = subst (λ k. any (has_user_id k) users ≡ false) (==→≡ id i e) f

fresh_name :
    (users : List UserRow) (name n : String)
    → any (has_username name) users ≡ false
    → str_eq name n ≡ true
    → any (has_username n) users ≡ false
fresh_name users name n f e =
    subst (λ k. any (has_username k) users ≡ false) ((eq_iff name n).0 e) f

pub append_user-IsSoundAccounts :
    (db : AccountTables) (u : UserRow)
    → any (has_user_id u.id) db.users ≡ false
    → any (has_username u.username) db.users ≡ false
    → is_enabled_admin u ≡ true
    → IsSoundAccounts db
    → IsSoundAccounts (record db { users = db.users ++ u ∷ [] })
append_user-IsSoundAccounts db u new_id new_name ok s = record {
  ids = λ i. count_by-snoc (has_user_id i) db.users u (s.ids i) (fresh_id db.users u.id i new_id);
  usernames = λ n.
      count_by-snoc (has_username n) db.users u (s.usernames n)
        (fresh_name db.users u.username n new_name);
  admins = All-append (λ v. is_enabled_admin v ≡ true) db.users (u ∷ []) s.admins (ok, tt);
  administrator = any-append (λ v. is_admin_role v.role) db.users (u ∷ []) s.administrator;
  subjects = s.subjects;
  links = s.links;
  owners =
      All-map_where _ _ db.identities
        (λ r h. any-append (has_user_id r.user_id) db.users (u ∷ []) h) s.owners;
  uploads =
      All-map_where _ _ db.uploads
        (λ f h. any-append (has_user_id f.owner_user_id) db.users (u ∷ []) h) s.uploads;
}

-- An UPDATE that keeps identity, name and role, and disables no administrator.
pub record KeepsUser (p : UserRow → Bool) (f : UserRow → UserRow) : Type 0 where
  pub id : (u : UserRow) → (f u).id ≡ u.id
  pub username : (u : UserRow) → (f u).username ≡ u.username
  pub role : (u : UserRow) → (f u).role ≡ u.role
  pub enabled :
      (u : UserRow) → p u ≡ true → is_enabled_admin u ≡ true → is_enabled_admin (f u) ≡ true

module _ (db : AccountTables) (p : UserRow → Bool) (f : UserRow → UserRow) (k : KeepsUser p f) where
  still_there :
      (i : ℕ)
      → any (has_user_id i) db.users ≡ true
      → any (has_user_id i) (update_where p f db.users) ≡ true
  still_there i = any-update_where (has_user_id i) p f db.users (λ u h g. rw (k.id u) h)

  pub update_users-IsSoundAccounts :
      IsSoundAccounts db → IsSoundAccounts (record db { users = update_where p f db.users })
  update_users-IsSoundAccounts s = record {
    ids = λ i. omega (
      arith,
      s.ids i,
      count_by-update_where_le (λ u. is_enabled_admin u ≡ true) (has_user_id i) p f db.users
          (λ u e a h. rw (k.id u) at h) s.admins,
    );
    usernames = λ n. omega (
      arith,
      s.usernames n,
      count_by-update_where_le (λ u. is_enabled_admin u ≡ true) (has_username n) p f db.users
          (λ u e a h. rw (k.username u) at h) s.admins,
    );
    admins =
        All-update_where (λ u. is_enabled_admin u ≡ true) (λ u. is_enabled_admin u ≡ true) p f
          db.users k.enabled (λ u e h. h) s.admins;
    administrator =
        any-update_where (λ u. is_admin_role u.role) p f db.users (λ u h g. rw (k.role u) h)
          s.administrator;
    subjects = s.subjects;
    links = s.links;
    owners = All-map_where _ _ db.identities (λ r. still_there r.user_id) s.owners;
    uploads = All-map_where _ _ db.uploads (λ u. still_there u.owner_user_id) s.uploads;
  }
