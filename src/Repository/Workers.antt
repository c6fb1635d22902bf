-- ===== src/Repository/Workers.antt =====
-- The workers table: registration, liveness, switches and capacity.
pub mod Rows
use computecluster.Prelude.{
  ℕ, String, Bool, false, Option, none, some, List, [], ◌∷◌, ◌++◌, ltb, ◌==◌, if◌then◌else◌,
  is_some, find, any, update_where, map, sort_by,
}
use computecluster.Models.Enums.{JobType, WorkerState}
use computecluster.Models.Records.{WorkerRead}
use computecluster.Repository.Tables.{WorkerRow, Database}

abbrev pub is_worker : ℕ → WorkerRow → Bool
is_worker worker_id w = w.id == worker_id

-- COALESCE(excluded.metrics_json, workers.metrics_json)
abbrev pub coalesce : Option String → Option String → Option String
coalesce none old = old
coalesce (some new) old = some new

unfoldable pub refresh : List JobType → ℕ → Option ℕ → Option String → WorkerRow → WorkerRow
refresh supported seen_at current metrics w = record w {
  supported_types = supported;
  last_seen = seen_at;
  current_job_id = current;
  metrics_json = coalesce metrics w.metrics_json;
}

abbrev pub new_worker : ℕ → List JobType → ℕ → Option ℕ → Option String → WorkerRow
new_worker worker_id supported seen_at current metrics = record {
  id = worker_id;
  supported_types = supported;
  registered_at = seen_at;
  last_seen = seen_at;
  current_job_id = current;
  metrics_json = metrics;
  enabled = false;
  max_job_cpu = none;
  max_job_memory_mb = none;
}

-- _upsert_worker: INSERT ... ON CONFLICT(id) DO UPDATE
unfoldable pub upsert_worker :
    ℕ → List JobType → ℕ → Option ℕ → Option String → List WorkerRow → List WorkerRow
upsert_worker worker_id supported seen_at current metrics workers =
    if any (is_worker worker_id) workers
    then update_where (is_worker worker_id) (refresh supported seen_at current metrics) workers
    else workers ++ new_worker worker_id supported seen_at current metrics ∷ []

-- UPDATE workers SET current_job_id = ? WHERE id = ?
unfoldable pub set_current : ℕ → Option ℕ → List WorkerRow → List WorkerRow
set_current worker_id current =
    update_where (is_worker worker_id) (λ w. record w { current_job_id = current })

-- _row_to_worker
unfoldable pub row_to_worker : WorkerRow → ℕ → WorkerRead
row_to_worker row stale_before = record {
  id = row.id;
  enabled = row.enabled;
  supported_types = row.supported_types;
  registered_at = row.registered_at;
  last_seen = row.last_seen;
  current_job_id = row.current_job_id;
  max_job_cpu = row.max_job_cpu;
  max_job_memory_mb = row.max_job_memory_mb;
  metrics = row.metrics_json;
  state =
      if ltb row.last_seen stale_before
      then WorkerState.stale
      else if is_some row.current_job_id
      then WorkerState.busy
      else WorkerState.online;
}

abbrev pub read_worker : ℕ → Option WorkerRow → Option WorkerRead
read_worker stale_before none = none
read_worker stale_before (some w) = some (row_to_worker w stale_before)

unfoldable pub worker_exists : ℕ → Database → Bool
worker_exists worker_id db = any (is_worker worker_id) db.workers

unfoldable pub get_worker : ℕ → ℕ → Database → Option WorkerRead
get_worker worker_id stale_before db =
    read_worker stale_before (find (is_worker worker_id) db.workers)

-- UPDATE workers ... WHERE id = ? RETURNING *
abbrev pub update_worker : ℕ → (WorkerRow → WorkerRow) → ℕ → Database → Database × Option WorkerRead
update_worker worker_id f stale_before db =
    let workers = update_where (is_worker worker_id) f db.workers in
    (record db { workers = workers }, read_worker stale_before (find (is_worker worker_id) workers))

unfoldable pub set_worker_enabled : ℕ → Bool → ℕ → Database → Database × Option WorkerRead
set_worker_enabled worker_id enabled = update_worker worker_id (λ w. record w { enabled = enabled })

unfoldable pub set_worker_capacity : ℕ → ℕ → ℕ → ℕ → Database → Database × Option WorkerRead
set_worker_capacity worker_id max_job_cpu max_job_memory_mb =
    update_worker worker_id
      (λ w. record w { max_job_cpu = some max_job_cpu; max_job_memory_mb = some max_job_memory_mb })

-- ORDER BY id
unfoldable pub list_workers : ℕ → Database → List WorkerRead
unfolding sort_by row_to_worker
list_workers stale_before db =
    map (λ w. row_to_worker w stale_before) (sort_by (λ v w. ltb v.id w.id) db.workers)
