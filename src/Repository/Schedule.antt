-- ===== src/Repository/Schedule.antt =====
-- JobRepository._preferred_worker_id: which worker a queued job is kept for.
pub mod Best
pub mod Least
use computecluster.Prelude.{
  ℕ, Bool, true, false, Option, none, some, List, [], ◌∷◌, not, ◌&&◌, ◌||◌, ltb, ◌==◌,
  if◌then◌else◌, is_none, filter_by,
}
use computecluster.Models.Enums.{JobType, supports, is_container}
use computecluster.Models.Parameters.{JobParameters, resources}
use computecluster.Repository.Tables.{JobRow, WorkerRow}

-- `target is not None and worker["id"] != target` rejects the worker.
abbrev pub target_allows : Option ℕ → ℕ → Bool
target_allows none worker_id = true
target_allows (some t) worker_id = worker_id == t

-- One configured limit against one request; NULL is no limit configured, which rejects.
abbrev pub within_limit : ℕ → Option ℕ → Bool
within_limit request none = false
within_limit request (some limit) = not (ltb limit request)

-- The container limits. Parameters without the two keys belong to no container type.
unfoldable pub fits : JobParameters → WorkerRow → Bool
fits parameters w = elim (resources parameters) [
  | none ↦ false
  | some (cpu, memory) ↦ within_limit cpu w.max_job_cpu && within_limit memory w.max_job_memory_mb
]

-- The `continue` tests of the loop.
unfoldable pub is_eligible : JobRow → ℕ → WorkerRow → Bool
unfolding fits
is_eligible job stale_before w =
    w.enabled
    && not (ltb w.last_seen stale_before)
    && is_none w.current_job_id
    && target_allows job.target_worker_id w.id
    && supports w.supported_types job.type
    && (not (is_container job.type) || fits job.parameters w)

-- A limit as a sort key. Eligible workers of a container job have both limits.
abbrev key_of : Option ℕ → ℕ
key_of none = 0
key_of (some n) = n

-- Comparison of the keys (max_job_memory_mb, max_job_cpu, id), and of the identities alone.
unfoldable pub fits_tighter : WorkerRow → WorkerRow → Bool
fits_tighter v w =
    let mv = key_of v.max_job_memory_mb in
    let mw = key_of w.max_job_memory_mb in
    let cv = key_of v.max_job_cpu in
    let cw = key_of w.max_job_cpu in
    ltb mv mw || (mv == mw && (ltb cv cw || (cv == cw && ltb v.id w.id)))

unfoldable pub comes_before : JobType → WorkerRow → WorkerRow → Bool
unfolding fits_tighter
comes_before type v w = if is_container type then fits_tighter v w else ltb v.id w.id

-- `min`: the first of the least.
unfoldable pub min_from : (WorkerRow → WorkerRow → Bool) → WorkerRow → List WorkerRow → WorkerRow
min_from before w [] = w
min_from before w (v ∷ vs) = min_from before (if before v w then v else w) vs

abbrev pub min_of : (WorkerRow → WorkerRow → Bool) → List WorkerRow → Option WorkerRow
min_of before [] = none
min_of before (w ∷ ws) = some (min_from before w ws)

unfoldable pub preferred_worker : JobRow → List WorkerRow → ℕ → Option WorkerRow
preferred_worker job workers stale_before =
    min_of (comes_before job.type) (filter_by (is_eligible job stale_before) workers)

unfoldable pub preferred_worker_id : JobRow → List WorkerRow → ℕ → Option ℕ
preferred_worker_id job workers stale_before = elim (preferred_worker job workers stale_before) [
  | none ↦ none
  | some w ↦ some w.id
]
