-- ===== src/Accounts/Uploads.antt =====
-- app/accounts.py: the ownership of uploads and of jobs.
use text.Mathlib.Text.{◌==◌ as str_eq}
use computecluster.Prelude.{
  ℕ, String, Bool, none, some, List, [], ◌∷◌, ◌++◌, not, ◌&&◌, ◌||◌, ◌==◌, if◌then◌else◌, find, any,
  filter_by,
}
use computecluster.Repository.Tables.{JobRow, GroupRow, Database}
use computecluster.Accounts.Tables.{UserRow, AccountTables}
use computecluster.Accounts.{Outcome, done, raises, integrity_error, has_user_id}

-- CHECK (kind IN ('dataset', 'script', 'project', 'input'))
abbrev pub is_kind : String → Bool
is_kind kind =
    str_eq kind "dataset" || str_eq kind "script" || str_eq kind "project" || str_eq kind "input"

-- The owner is a user, by its foreign key, and the id is new.
unfoldable pub record_upload : ℕ → ℕ → String → ℕ → AccountTables → AccountTables × Outcome Unit
record_upload upload_id owner_user_id kind now db =
    if any (λ u. u.id == upload_id) db.uploads
      || not (is_kind kind)
      || not (any (has_user_id owner_user_id) db.users)
    then (db, raises integrity_error)
    else (
      record db {
        uploads =
            db.uploads
            ++ (record {
              id = upload_id;
              owner_user_id = owner_user_id;
              kind = kind;
              created_at = now;
            })
              ∷ [];
      },
      done tt,
    )

unfoldable pub upload_belongs_to : ℕ → ℕ → AccountTables → Bool
upload_belongs_to upload_id owner_user_id db =
    any (λ u. u.id == upload_id && u.owner_user_id == owner_user_id) db.uploads

-- DELETE ... WHERE id IN (...)
unfoldable pub forget_uploads : List ℕ → AccountTables → AccountTables
forget_uploads upload_ids db = record db {
  uploads = filter_by (λ u. not (any (λ i. u.id == i) upload_ids)) db.uploads;
}

-- The JOIN of one table with the users, as pairs of an id and a name.
unfoldable pub names_of : List UserRow → List (ℕ × ℕ) → List (ℕ × String)
names_of users [] = []
names_of users ((id, owner) ∷ rest) =
    let names = names_of users rest in
    elim (find (has_user_id owner) users) [ none ↦ names | some u ↦ (id, u.username) ∷ names ]

abbrev job_owners : List JobRow → List (ℕ × ℕ)
job_owners [] = []
job_owners (j ∷ js) = (j.id, j.owner_user_id) ∷ job_owners js

abbrev group_owners : List GroupRow → List (ℕ × ℕ)
group_owners [] = []
group_owners (g ∷ gs) = (g.id, g.owner_user_id) ∷ group_owners gs

unfoldable pub workload_owners : AccountTables → Database → List (ℕ × String) × List (ℕ × String)
unfolding names_of
workload_owners accounts db =
    (names_of accounts.users (job_owners db.jobs), names_of accounts.users (group_owners db.groups))
