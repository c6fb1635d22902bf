-- ===== src/Repository/Submit/Appends.antt =====
-- A submission changes the jobs table by appending fresh rows without conflicts, or not at all: a
-- property that such an append keeps is kept by a submission.
use computecluster.Prelude.{
  ℕ, String, false, Option, none, some, List, [], ◌∷◌, ◌++◌, ◌≡◌, ◌==◌, All, any, find,
  Option-cases, Bool-cases, inl, inr, not, ◌||◌, is_some,
}
use text.Mathlib.Text.{◌==◌ as str_eq}
use computecluster.Models.Records.{JobRead, JobGroupRead}
use computecluster.Repository.Tables.{JobRow, WorkerRow, AppRunRow, Database}
use computecluster.Repository.Rows.{IsFresh}
use computecluster.Repository.Groups.{get_group}
use computecluster.Repository.Submit.{
  Submitted, stored, refused, AppOrigin, job_row, job_conflict, keyed, add, insert_tasks,
  insert_group, group_row, group_conflict, replay_group, replay_run, add_from_app, add_group,
  keyed_group, run_matches, reserves, run_conflict, drop_reservation,
}

-- What a submission stores satisfies `P`; a refused one stores nothing.
abbrev pub OnStored {κ} : {A : Type 0} → (Database → Type κ) → Submitted A → Type κ
OnStored P (stored db a) = P db
OnStored P (refused e) = Unit

abbrev OnInserted : (List JobRow → Type 0) → Option (List JobRow) → Type 0
OnInserted P none = Unit
OnInserted P (some jobs) = P jobs

module _ (P : List JobRow → List WorkerRow → Type 0)
    (append : (t : JobRead) (key : Option String) (g : Option ℕ) (owner : ℕ) (jobs : List JobRow)
        (workers : List WorkerRow)
      → IsFresh t
      → any (job_conflict (job_row t key g owner)) jobs ≡ false
      → P jobs workers
      → P (jobs ++ job_row t key g owner ∷ []) workers) where
  abbrev Holds : Database → Type 0
  Holds db = P db.jobs db.workers

  -- A submission of one job keeps `P`.
  pub add-keeps :
      (job : JobRead) (key : Option String) (owner : ℕ) (db : Database)
      → IsFresh job
      → Holds db
      → OnStored Holds (add job key owner db)
  unfolding add
  add-keeps job key owner db f c =
      elim (Bool-cases (any (job_conflict (job_row job key job.group_id owner)) db.jobs)) [
        | inl e ↦ elim (Option-cases (find (keyed owner key) db.jobs)) [
          | inl n ↦ rw (e, n, add) tt
          | inr (old, s) ↦ rw (e, s, add) c
        ]
        | inr free ↦ rw (free, add) (append job key job.group_id owner db.jobs db.workers f free c)
      ]

  insert_tasks-keeps :
      (group_id owner : ℕ) (ts : List JobRead) (jobs : List JobRow) (workers : List WorkerRow)
      → All IsFresh ts
      → P jobs workers
      → OnInserted (λ js. P js workers) (insert_tasks group_id owner ts jobs)
  unfolding insert_tasks
  insert_tasks-keeps group_id owner [] jobs workers f c = c
  insert_tasks-keeps group_id owner (t ∷ ts) jobs workers f c =
      elim (Bool-cases (any (job_conflict (job_row t none (some group_id) owner)) jobs)) [
        | inl e ↦ rw e tt
        | inr free ↦ rw free (
            insert_tasks-keeps group_id owner ts (jobs ++ job_row t none (some group_id) owner ∷ [])
              workers f.1 (append t none (some group_id) owner jobs workers f.0 free c))
      ]

  module _ (group : JobGroupRead) (request_json : String) (key : Option String) (owner : ℕ) where
    replay_group-keeps : (db : Database) → Holds db → OnStored Holds (replay_group owner key db)
    unfolding replay_group
    replay_group-keeps db c = elim (Option-cases (find (keyed_group owner key) db.groups)) [
      | inl n ↦ rw (n, replay_group) tt
      | inr (g, e) ↦ elim (Option-cases (get_group g.id (some owner) db)) [
        | inl n ↦ rw (e, n, replay_group) tt
        | inr (x, h) ↦ rw (e, h, replay_group) c
      ]
    ]

    insert_group-keeps :
        (o : Option AppOrigin) (db : Database)
        → All IsFresh group.tasks
        → Holds db
        → OnStored Holds (insert_group group request_json key owner o db)
    unfolding insert_group
    insert_group-keeps o db f c =
        elim (Bool-cases
          (any (group_conflict (group_row group request_json key owner)) db.groups)) [
            | inl e ↦ rw e (replay_group-keeps db c)
            | inr e ↦ elim (Option-cases (insert_tasks group.id owner group.tasks db.jobs)) [
              | inl n ↦ rw (e, n, insert_group) tt
              | inr (jobs, h) ↦ elim (Bool-cases (run_conflict group owner o db.app_runs)) [
                | inl k ↦ rw (e, h, insert_group, k) tt
                | inr k ↦
                    rw (e, h, insert_group, k)
                      (rw h at
                        (insert_tasks-keeps group.id owner group.tasks db.jobs db.workers f c))
              ]
            ]
          ]

    replay_run-keeps :
        (run : AppRunRow) (o : AppOrigin) (db : Database)
        → Holds db
        → OnStored Holds (replay_run run request_json owner o db)
    unfolding replay_run
    replay_run-keeps run o db c = elim (Bool-cases (str_eq run.payload_sha256 o.payload_sha256)) [
      | inl same ↦ elim (Option-cases (get_group run.group_id (some owner) db)) [
        | inl n ↦ rw (same, n, replay_run) tt
        | inr (x, h) ↦ rw (same, h, replay_run) c
      ]
      | inr other ↦ rw other tt
    ]

    add_from_app-keeps :
        (o : AppOrigin) (db : Database)
        → All IsFresh group.tasks
        → Holds db
        → OnStored Holds (add_from_app group request_json key owner o db)
    unfolding add_from_app
    add_from_app-keeps o db f c =
        elim (Bool-cases (is_some key || not (owner == o.owner_user_id))) [
          | inl foreign ↦ rw foreign tt
          | inr own ↦ elim (Option-cases (find (run_matches o owner) db.app_runs)) [
            | inl n ↦ elim (Bool-cases (any (reserves o owner) db.reservations)) [
              | inl held ↦
                  rw (own, n, add_from_app, held)
                    (insert_group-keeps (some o) (drop_reservation o owner db) f c)
              | inr missing ↦ rw (own, n, add_from_app, missing) tt
            ]
            | inr (run, e) ↦ rw (own, e, add_from_app) (replay_run-keeps run o db c)
          ]
        ]

  -- A submission of a group keeps `P`.
  pub add_group-keeps :
      (group : JobGroupRead) (request_json : String) (key : Option String) (owner : ℕ)
      (origin : Option AppOrigin) (db : Database)
      → All IsFresh group.tasks
      → Holds db
      → OnStored Holds (add_group group request_json key owner origin db)
  unfolding add_group
  add_group-keeps group request_json key owner none db f c =
      insert_group-keeps group request_json key owner none db f c
  add_group-keeps group request_json key owner (some o) db f c =
      add_from_app-keeps group request_json key owner o db f c
