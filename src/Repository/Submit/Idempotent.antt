-- ===== src/Repository/Submit/Idempotent.antt =====
-- A submission is found by its key: one repeated under the same key is answered by what is found.
use text.Mathlib.TextPositions.{eq_refl}
use computecluster.Prelude.{
  ℕ, String, true, false, some, List, [], ◌∷◌, ◌++◌, ◌≡◌, ==→≡, find-append_none, ◌∙◌, refl, arith,
  any, find, ==_refl, Option-cases, Bool-cases, inl, inr, any-found, find-holds,
}
use computecluster.Models.Records.{JobRead}
use computecluster.Repository.Tables.{JobRow, Database, row_to_job}
use computecluster.Repository.Submit.{Submitted, stored, refused, job_row, job_conflict, keyed, add}

-- What a submission is: the same identity, request and place.
pub record SameJob (y x : JobRead) : Type 0 where
  pub id : y.id ≡ x.id
  pub name : y.name ≡ x.name
  pub type : y.type ≡ x.type
  pub parameters : y.parameters ≡ x.parameters
  pub target : y.target_worker_id ≡ x.target_worker_id
  pub group : y.group_id ≡ x.group_id
  pub task_id : y.task_id ≡ x.task_id
  pub task_index : y.task_index ≡ x.task_index
  pub created : y.created_at ≡ x.created_at
  pub max_attempts : y.max_attempts ≡ x.max_attempts

SameJob-refl : (x : JobRead) → SameJob x x
SameJob-refl x = ground arith

module _ (key : String) (owner : ℕ) where
  row_kept : (job : JobRead) → SameJob (row_to_job (job_row job (some key) job.group_id owner)) job
  unfolding row_to_job job_row
  row_kept job = ground arith

  keyed-conflict :
      (row j : JobRow)
      → row.owner_user_id ≡ owner
      → row.idempotency_key ≡ some key
      → keyed owner (some key) j ≡ true
      → job_conflict row j ≡ true
  unfolding job_conflict
  keyed-conflict row j o k h = rw (o, k) (ground (arith, ==→≡ j.owner_user_id owner, ==_refl owner))

  -- Without a conflict the new row is the first of its key.
  found_new :
      (row : JobRow) (jobs : List JobRow)
      → row.owner_user_id ≡ owner
      → row.idempotency_key ≡ some key
      → any (job_conflict row) jobs ≡ false
      → find (keyed owner (some key)) (jobs ++ row ∷ []) ≡ some row
  found_new row jobs o k e = elim (Option-cases (find (keyed owner (some key)) jobs)) [
    | inl n ↦
        find-append_none (keyed owner (some key)) jobs (row ∷ []) n
        ∙ (unfold find in rw (o, k, ==_refl owner, eq_refl key))
    | inr (old, s) ↦ cc (
      e,
      any-found (keyed owner (some key)) (job_conflict row) jobs old s
          (keyed-conflict row old o k (find-holds (keyed owner (some key)) jobs s)),
    )
  ]

  -- What a submission stores is found by its key.
  abbrev pub FoundAs : Submitted JobRead → Type 0
  FoundAs (stored db x) =
      (old : JobRow) × (find (keyed owner (some key)) db.jobs ≡ some old)
      × SameJob (row_to_job old) x
  FoundAs (refused _) = Unit

  pub add-FoundAs : (job : JobRead) (db : Database) → FoundAs (add job (some key) owner db)
  unfolding add row_to_job job_row
  add-FoundAs job db =
      let row = job_row job (some key) job.group_id owner in
      elim (Bool-cases (any (job_conflict row) db.jobs)) [
        | inl t ↦ elim (Option-cases (find (keyed owner (some key)) db.jobs)) [
          | inl n ↦ rw (t, n, add) tt
          | inr (old, s) ↦ rw (t, s, add) (old, s, SameJob-refl (row_to_job old))
        ]
        | inr f ↦ rw (f, add) (row, found_new row db.jobs refl refl f, row_kept job)
      ]

  pub replayed :
      (again : JobRead) (db : Database) (old : JobRow)
      → find (keyed owner (some key)) db.jobs ≡ some old
      → add again (some key) owner db ≡ stored db (row_to_job old)
  unfolding add job_row
  replayed again db old s =
      let t : any (job_conflict (job_row again (some key) again.group_id owner)) db.jobs ≡ true =
        any-found (keyed owner (some key)) _ db.jobs old s (
          keyed-conflict (job_row again (some key) again.group_id owner) old refl refl
            (find-holds (keyed owner (some key)) db.jobs s)) in
      rw (t, s, add)
