-- ===== src/Accounts/SignOut.antt =====
-- Sessions end with their version.
use mathlib.Core.Path.{subst}
use computecluster.Prelude.{
  ℕ, suc, ◌≤◌, ◌<◌, String, Bool, true, false, none, some, List, [], ◌∷◌, not, ◌&&◌, ◌==◌, ◌≡◌,
  refl, ap, arith, All-if, count_by, only_match, find-All, ==_refl, update_where, find, find-append,
  find-holds, Bool-cases, Option-cases, inl, inr, if◌then◌else◌,
}
use computecluster.Accounts.Tables.{UserRow, AccountTables}
use computecluster.Accounts.Passwords.{ScryptFunction}
use computecluster.Accounts.{
  done, has_user_id, is_member_id, revoke_sessions, raise_version, change_password, reset_password,
  password_row, password_matches, get_identity,
}
use computecluster.Accounts.History.{AccountHistory, begin, next}
use computecluster.Accounts.Changes.{
  UserChange, unchanged, appended, updated, AccountStep-UserChange,
}

-- The row of a user has at least this session version.
abbrev pub AtLeast : ℕ → ℕ → List UserRow → Type 0
AtLeast i n users = (u : UserRow) × (find (has_user_id i) users ≡ some u) × (n ≤ u.session_version)

find-update_where :
    (i : ℕ) (p : UserRow → Bool) (f : UserRow → UserRow) (users : List UserRow) (u : UserRow)
    → ((v : UserRow) → (f v).id ≡ v.id)
    → find (has_user_id i) users ≡ some u
    → find (has_user_id i) (update_where p f users) ≡ some (if p u then f u else u)
unfolding find update_where
find-update_where i p f [] u k e = ground arith
find-update_where i p f (v ∷ vs) u k e =
    let written = if p v then f v else v in
    let same_id : written.id ≡ v.id =
      All-if (λ w. w.id ≡ v.id) (p v) (f v) v (λ y. k v) (λ n. refl) in
    elim (Bool-cases (v.id == i)) [
      | inl h ↦
          let same : v ≡ u = ground arith in
          rw (same_id, h) (ap (λ w. some (if p w then f w else w)) same)
      | inr h ↦ rw (same_id, h) (find-update_where i p f vs u k (rw (h) at e))
    ]

UserChange-AtLeast :
    (i n : ℕ) {users users' : List UserRow}
    → UserChange users users'
    → AtLeast i n users
    → AtLeast i n users'
UserChange-AtLeast i n unchanged a = a
UserChange-AtLeast i n {users} (appended v) (u, e, h) =
    (u, find-append (has_user_id i) users (v ∷ []) e, h)
UserChange-AtLeast i n {users} (updated p f k g) (u, e, h) = (
  if p u then f u else u,
  find-update_where i p f users u k e,
  All-if (λ w. n ≤ w.session_version) (p u) (f u) u (λ y. omega (arith, g u)) (λ y. h),
)

AccountHistory-AtLeast :
    (scrypt : ScryptFunction) (i n : ℕ) {db db' : AccountTables}
    → AccountHistory scrypt db db'
    → AtLeast i n db.users
    → AtLeast i n db'.users
AccountHistory-AtLeast scrypt i n begin a = a
AccountHistory-AtLeast scrypt i n (next h s) a =
    UserChange-AtLeast i n (AccountStep-UserChange scrypt s) (AccountHistory-AtLeast scrypt i n h a)

get_identity_stale :
    (i v : ℕ) (db : AccountTables) → AtLeast i (suc v) db.users → get_identity i (some v) db ≡ none
unfolding get_identity
get_identity_stale i v db (u, e, h) =
    let other : (u.session_version == v) ≡ false = ground arith in
    elim (Bool-cases u.disabled) [
      | inl d ↦ rw (e, get_identity, d) refl
      | inr d ↦ rw (e, get_identity, d, other) refl
    ]

-- A session of this user at the version that is stored ends: the password was changed or reset, or
-- the sessions were revoked.
pub data EndsSessions (scrypt : ScryptFunction) (db : AccountTables) (u : UserRow)
    : AccountTables → Type 0 where
  by_change :
      (current password : String) (salt : List ℕ)
      → (change_password scrypt u.id current password salt db).1 ≡ done tt
      → EndsSessions scrypt db u (change_password scrypt u.id current password salt db).0
  by_reset :
      (password : String) (salt : List ℕ)
      → (reset_password scrypt u.id password salt db).1 ≡ done tt
      → EndsSessions scrypt db u (reset_password scrypt u.id password salt db).0
  by_revocation : EndsSessions scrypt db u (revoke_sessions u.id u.session_version db)

module _ (scrypt : ScryptFunction) (db : AccountTables) (u : UserRow)
    (there : find (has_user_id u.id) db.users ≡ some u)
    (unique : count_by (has_user_id u.id) db.users ≤ 1) where
  written :
      (p : UserRow → Bool) (f : UserRow → UserRow)
      → ((v : UserRow) → (f v).id ≡ v.id)
      → p u ≡ true
      → u.session_version < (f u).session_version
      → AtLeast u.id (suc u.session_version) (update_where p f db.users)
  written p f k e h =
      let here = find-update_where u.id p f db.users u k there in
      (f u, rw e at here, omega (arith, h))

  -- The member that the UPDATE finds is this user, whose id is unique.
  member : (w : UserRow) → find (is_member_id u.id) db.users ≡ some w → is_member_id u.id u ≡ true
  member w f =
      let holds : is_member_id u.id w ≡ true = find-holds (is_member_id u.id) db.users f in
      let only =
        find-All (λ y. has_user_id u.id y ≡ true → y ≡ u) (is_member_id u.id) db.users
          (only_match (has_user_id u.id) db.users u there unique) f in
      let same : w ≡ u = only (ground arith) in subst (λ y. is_member_id u.id y ≡ true) same holds

  reset_raised :
      (password : String) (salt : List ℕ)
      → (reset_password scrypt u.id password salt db).1 ≡ done tt
      → AtLeast u.id (suc u.session_version) (reset_password scrypt u.id password salt db).0.users
  unfolding reset_password
  reset_raised password salt e = elim (Option-cases (find (is_member_id u.id) db.users)) [
    | inl n ↦ let refused = rw (n, reset_password) at e in ground arith
    | inr (w, f) ↦
        rw (f, reset_password)
          (unfold password_row in
            written (is_member_id u.id) (password_row _) (λ v. refl) (member w f) (omega arith))
  ]

  change_raised :
      (current password : String) (salt : List ℕ)
      → (change_password scrypt u.id current password salt db).1 ≡ done tt
      → AtLeast u.id
          (suc u.session_version)
          (change_password scrypt u.id current password salt db).0.users
  unfolding change_password
  change_raised current password salt e =
      elim (Option-cases (find (λ v. v.id == u.id && not v.disabled) db.users)) [
        | inl n ↦ let refused = rw (n, change_password) at e in ground arith
        | inr (w, f) ↦ elim (Bool-cases (password_matches scrypt current w)) [
          | inr wrong ↦ let refused = rw (f, change_password, wrong) at e in ground arith
          | inl right ↦
              rw (f, change_password, right)
                (unfold password_row in
                  written (has_user_id u.id) (password_row _) (λ v. refl) (==_refl u.id)
                    (omega arith))
        ]
      ]

  ended :
      {db' : AccountTables}
      → EndsSessions scrypt db u db'
      → AtLeast u.id (suc u.session_version) db'.users
  unfolding revoke_sessions raise_version
  ended (by_change current password salt e) = change_raised current password salt e
  ended (by_reset password salt e) = reset_raised password salt e
  ended by_revocation =
      written (λ v. v.id == u.id && v.session_version == u.session_version) raise_version
        (λ v. refl) (ground arith) (omega arith)

  -- Where ids are unique, a session that a user held when the password was changed or reset, or when
  -- the sessions were revoked, is refused from then on, whatever the account store does later.
  pub signed_out :
      {db1 db2 : AccountTables}
      → EndsSessions scrypt db u db1
      → AccountHistory scrypt db1 db2
      → get_identity u.id (some u.session_version) db2 ≡ none
  signed_out {db2 = db2} x h =
      get_identity_stale u.id u.session_version db2
        (AccountHistory-AtLeast scrypt u.id (suc u.session_version) h (ended x))
