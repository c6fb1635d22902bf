-- ===== src/Repository/Submit.antt =====
-- JobRepository.add and add_group: idempotent submission of one job, or of a group with its jobs.
pub mod Appends
pub mod Idempotent
use computecluster.Prelude.{
  ℕ, String, Bool, false, Option, none, some, List, [], ◌∷◌, ◌++◌, not, ◌&&◌, ◌||◌, ◌==◌,
  if◌then◌else◌, column_eq, is_some, filter_by, find, any,
}
use text.Mathlib.Text.{◌==◌ as str_eq}
use computecluster.Models.Records.{JobRead, JobGroupRead}
use computecluster.Repository.Tables.{
  JobRow, GroupRow, AppRunRow, ReservationRow, Database, text_eq, row_to_job,
}
use computecluster.Repository.Groups.{get_group}

-- The faults that the two methods raise, and the one that SQLite raises for them.
pub data SubmitError : Type 0 where
  idempotent_insert_lost exact_owner_required app_replay_conflict app_run_without_group
        reservation_required group_insert_lost group_unreadable integrity_error :
      SubmitError

pub data Submitted (A : Type 0) : Type 0 where
  stored : Database → A → Submitted A
  refused : SubmitError → Submitted A

-- app/app_origin.py
pub record AppOrigin : Type 0 where
  pub app_id : String
  pub owner_user_id : ℕ
  pub installation_id : ℕ
  pub key : String
  pub payload_sha256 : String
  pub inputs_json : String
  pub reservation_id : ℕ

-- The row that INSERT writes: the columns that it does not list have their defaults.
unfoldable pub job_row : JobRead → Option String → Option ℕ → ℕ → JobRow
job_row job key group_id owner = record {
  id = job.id;
  type = job.type;
  parameters = job.parameters;
  status = job.status;
  created_at = job.created_at;
  updated_at = job.updated_at;
  worker_id = none;
  started_at = none;
  finished_at = none;
  result = none;
  error = none;
  attempt = job.attempt;
  max_attempts = job.max_attempts;
  lease_token = none;
  lease_expires_at = none;
  idempotency_key = key;
  name = job.name;
  target_worker_id = job.target_worker_id;
  failure_kind = none;
  cancellation_requested = false;
  group_id = group_id;
  task_id = job.task_id;
  task_index = job.task_index;
  owner_user_id = owner;
}

-- A unique index over nullable columns: NULL conflicts with nothing.
abbrev pub same_text : Option String → Option String → Bool
same_text none b = false
same_text (some a) b = text_eq b a

abbrev pub same_number : Option ℕ → Option ℕ → Bool
same_number none b = false
same_number (some a) b = column_eq b a

-- PRIMARY KEY (id), UNIQUE (owner_user_id, idempotency_key), UNIQUE (group_id, task_id) and
-- UNIQUE (group_id, task_index)
unfoldable pub job_conflict : JobRow → JobRow → Bool
job_conflict new old =
    new.id == old.id
    || (new.owner_user_id == old.owner_user_id && same_text new.idempotency_key old.idempotency_key)
    || (same_number new.group_id old.group_id && same_text new.task_id old.task_id)
    || (same_number new.group_id old.group_id && same_number new.task_index old.task_index)

-- WHERE owner_user_id = ? AND idempotency_key = ?
abbrev pub keyed : ℕ → Option String → JobRow → Bool
keyed owner key j = j.owner_user_id == owner && same_text key j.idempotency_key

unfoldable pub add : JobRead → Option String → ℕ → Database → Submitted JobRead
unfolding job_row job_conflict row_to_job
add job key owner db =
    let row = job_row job key job.group_id owner in
    if any (job_conflict row) db.jobs
    then elim (find (keyed owner key) db.jobs) [
      | none ↦ refused idempotent_insert_lost
      | some old ↦ stored db (row_to_job old)
    ]
    else stored (record db { jobs = db.jobs ++ row ∷ [] }) job

-- The plain INSERT of each child: a conflict is SQLite's IntegrityError.
unfoldable pub insert_tasks : ℕ → ℕ → List JobRead → List JobRow → Option (List JobRow)
unfolding job_row job_conflict
insert_tasks group_id owner [] jobs = some jobs
insert_tasks group_id owner (t ∷ ts) jobs =
    let row = job_row t none (some group_id) owner in
    let rest = insert_tasks group_id owner ts (jobs ++ row ∷ []) in
    if any (job_conflict row) jobs then none else rest

unfoldable pub group_row : JobGroupRead → String → Option String → ℕ → GroupRow
group_row group request_json key owner = record {
  id = group.id;
  name = group.name;
  request_json = request_json;
  created_at = group.created_at;
  updated_at = group.updated_at;
  idempotency_key = key;
  owner_user_id = owner;
}

unfoldable pub group_conflict : GroupRow → GroupRow → Bool
group_conflict new old =
    new.id == old.id
    || (new.owner_user_id == old.owner_user_id && same_text new.idempotency_key old.idempotency_key)

abbrev pub keyed_group : ℕ → Option String → GroupRow → Bool
keyed_group owner key g = g.owner_user_id == owner && same_text key g.idempotency_key

-- A replay reads the stored group back, through the owner's view.
unfoldable pub replay_group : ℕ → Option String → Database → Submitted (JobGroupRead × String)
replay_group owner key db = elim (find (keyed_group owner key) db.groups) [
  | none ↦ refused group_insert_lost
  | some g ↦ elim (get_group g.id (some owner) db) [
    | none ↦ refused group_unreadable
    | some existing ↦ stored db (existing, g.request_json)
  ]
]

abbrev pub run_of : JobGroupRead → ℕ → AppOrigin → AppRunRow
run_of group owner o = record {
  group_id = group.id;
  app_id = o.app_id;
  owner_user_id = owner;
  installation_id = o.installation_id;
  submission_key = o.key;
  payload_sha256 = o.payload_sha256;
  inputs_json = o.inputs_json;
}

abbrev pub runs_with : JobGroupRead → ℕ → Option AppOrigin → List AppRunRow → List AppRunRow
runs_with group owner none runs = runs
runs_with group owner (some o) runs = runs ++ run_of group owner o ∷ []

-- A trigger of app/migrations.py refuses a second run of one group, or of one app, owner and key.
abbrev pub run_conflict : JobGroupRead → ℕ → Option AppOrigin → List AppRunRow → Bool
run_conflict group owner none runs = false
run_conflict group owner (some o) runs =
    any
      (λ r.
        r.group_id == group.id
        || (str_eq r.app_id o.app_id && r.owner_user_id == owner && str_eq r.submission_key o.key))
      runs

-- From the INSERT into job_groups to the end.
unfoldable pub insert_group :
    JobGroupRead
    → String
    → Option String
    → ℕ
    → Option AppOrigin
    → Database
    → Submitted (JobGroupRead × String)
unfolding group_row group_conflict
insert_group group request_json key owner origin db =
    let row = group_row group request_json key owner in
    if any (group_conflict row) db.groups
    then replay_group owner key db
    else elim (insert_tasks group.id owner group.tasks db.jobs) [
      | none ↦ refused integrity_error
      | some jobs ↦
          if run_conflict group owner origin db.app_runs
          then refused integrity_error
          else stored
              (record db {
                groups = db.groups ++ row ∷ [];
                jobs = jobs;
                app_runs = runs_with group owner origin db.app_runs;
              })
              (group, request_json)
    ]

-- id = ? AND app_id = ? AND owner_user_id = ?
abbrev pub reserves : AppOrigin → ℕ → ReservationRow → Bool
reserves o owner r =
    r.id == o.reservation_id && str_eq r.app_id o.app_id && r.owner_user_id == owner

abbrev pub drop_reservation : AppOrigin → ℕ → Database → Database
drop_reservation o owner db = record db {
  reservations = filter_by (λ r. not (reserves o owner r)) db.reservations;
}

-- Path.unlink(missing_ok=True) of each path of the reservation
abbrev pub unlink : Option ReservationRow → List String → List String
unlink none staged = staged
unlink (some r) staged = filter_by (λ name. not (any (λ path. str_eq path name) r.paths)) staged

unfoldable pub replay_run :
    AppRunRow → String → ℕ → AppOrigin → Database → Submitted (JobGroupRead × String)
replay_run run request_json owner o db =
    if not (str_eq run.payload_sha256 o.payload_sha256)
    then refused app_replay_conflict
    else elim (get_group run.group_id (some owner) db) [
      | none ↦ refused app_run_without_group
      | some existing ↦
          let dropped = drop_reservation o owner db in
          stored
            (record dropped { staged = unlink (find (reserves o owner) db.reservations) db.staged })
            (existing, request_json)
    ]

abbrev pub run_matches : AppOrigin → ℕ → AppRunRow → Bool
run_matches o owner r =
    str_eq r.app_id o.app_id && r.owner_user_id == owner && str_eq r.submission_key o.key

unfoldable pub add_from_app :
    JobGroupRead
    → String
    → Option String
    → ℕ
    → AppOrigin
    → Database
    → Submitted (JobGroupRead × String)
unfolding insert_group replay_run
add_from_app group request_json key owner o db =
    if is_some key || not (owner == o.owner_user_id)
    then refused exact_owner_required
    else elim (find (run_matches o owner) db.app_runs) [
      | some run ↦ replay_run run request_json owner o db
      | none ↦
          if any (reserves o owner) db.reservations
          then insert_group group request_json key owner (some o) (drop_reservation o owner db)
          else refused reservation_required
    ]

unfoldable pub add_group :
    JobGroupRead
    → String
    → Option String
    → ℕ
    → Option AppOrigin
    → Database
    → Submitted (JobGroupRead × String)
add_group group request_json key owner none db = insert_group group request_json key owner none db
add_group group request_json key owner (some o) db = add_from_app group request_json key owner o db
