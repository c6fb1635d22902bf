-- ===== src/Repository/Groups.antt =====
-- JobRepository._get_group, get_group, list_groups, get, list and owner_user_id.
pub mod Status
use computecluster.Prelude.{
  ℕ, Bool, true, Option, none, some, List, [], ◌∷◌, not, ◌&&◌, ◌||◌, ltb, ◌==◌, if◌then◌else◌,
  column_eq, filter_by, find, any, sort_by, map,
}
use computecluster.Models.Enums.{JobStatus, same_status}
use computecluster.Models.Records.{JobRead, JobGroupRead}
use computecluster.Repository.Tables.{JobRow, GroupRow, Database, has_id, row_to_job}
use computecluster.Repository.Claim.{column_before}

abbrev pub has_status : JobStatus → JobRead → Bool
has_status s t = same_status t.status s

unfoldable pub all_in : (JobRead → Bool) → List JobRead → Bool
all_in p [] = true
all_in p (t ∷ ts) = p t && all_in p ts

-- The tests on `statuses`, the set of the tasks' statuses: `{S}` is a set with one element, so
-- there is a task; `<=` holds of the empty set too.
unfoldable pub group_status : List JobRead → JobStatus
unfolding all_in any
group_status tasks =
    if any (has_status JobStatus.queued) tasks && all_in (has_status JobStatus.queued) tasks
    then JobStatus.queued
    else if any (has_status JobStatus.completed) tasks
        && all_in (has_status JobStatus.completed) tasks
    then JobStatus.completed
    else if all_in (λ t. has_status JobStatus.completed t || has_status JobStatus.failed t) tasks
    then JobStatus.failed
    else JobStatus.running

-- `max` over the group's own time and those of its tasks
unfoldable pub latest : ℕ → List JobRead → ℕ
latest t [] = t
latest t (j ∷ js) = latest (if ltb t j.updated_at then j.updated_at else t) js

-- ORDER BY task_index ASC, id ASC
unfoldable pub task_before : JobRow → JobRow → Bool
task_before i j =
    column_before i.task_index j.task_index
    || (not (column_before j.task_index i.task_index) && ltb i.id j.id)

unfoldable pub tasks_of : ℕ → List JobRow → List JobRead
unfolding row_to_job filter_by sort_by
tasks_of group_id jobs =
    map row_to_job (sort_by task_before (filter_by (λ j. column_eq j.group_id group_id) jobs))

-- `owner_user_id is None`, or the column equals it.
abbrev pub owned_by : Option ℕ → ℕ → Bool
owned_by none owner = true
owned_by (some o) owner = owner == o

unfoldable pub read_group : GroupRow → List JobRow → JobGroupRead
unfolding group_status latest tasks_of
read_group g jobs =
    let tasks = tasks_of g.id jobs in
    record {
      id = g.id;
      name = g.name;
      status = group_status tasks;
      created_at = g.created_at;
      updated_at = latest g.updated_at tasks;
      tasks = tasks;
    }

unfoldable pub get_group : ℕ → Option ℕ → Database → Option JobGroupRead
get_group group_id owner db =
    elim (find (λ g. g.id == group_id && owned_by owner g.owner_user_id) db.groups) [
      | none ↦ none
      | some g ↦ some (read_group g db.jobs)
    ]

-- ORDER BY created_at DESC, id DESC
unfoldable pub newer_group : GroupRow → GroupRow → Bool
newer_group g h = ltb h.created_at g.created_at || (g.created_at == h.created_at && ltb h.id g.id)

unfoldable pub list_groups : Option ℕ → Database → List JobGroupRead
unfolding filter_by sort_by newer_group
list_groups owner db =
    map (λ g. read_group g db.jobs)
      (sort_by newer_group (filter_by (λ g. owned_by owner g.owner_user_id) db.groups))

unfoldable pub get : ℕ → Option ℕ → Database → Option JobRead
unfolding row_to_job
get job_id owner db = elim (find (λ j. has_id job_id j && owned_by owner j.owner_user_id) db.jobs) [
  | none ↦ none
  | some row ↦ some (row_to_job row)
]

unfoldable pub owner_user_id : ℕ → Database → Option ℕ
owner_user_id job_id db = elim (find (has_id job_id) db.jobs) [
  | none ↦ none
  | some row ↦ some row.owner_user_id
]

unfoldable pub newer_job : JobRow → JobRow → Bool
newer_job i j = ltb j.created_at i.created_at || (i.created_at == j.created_at && ltb j.id i.id)

unfoldable pub list : Option ℕ → Database → List JobRead
unfolding filter_by sort_by newer_job row_to_job
list owner db =
    map row_to_job (sort_by newer_job (filter_by (λ j. owned_by owner j.owner_user_id) db.jobs))
