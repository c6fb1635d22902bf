-- ===== src/Repository/History.antt =====
-- The repository over time: each call of a method of JobRepository that writes is a step, and a
-- history is any sequence of steps.
pub mod Growth
pub mod Methods
pub mod Replays
use computecluster.Prelude.{
  ℕ, String, Bool, true, false, Option, List, [], ◌∷◌, ◌++◌, ◌≡◌, refl, All, any, count_by,
}
use mathlib.Core.Path.{subst}
use native.Mathlib.Omega.{arith}
use computecluster.Models.Enums.{FailureKind}
use computecluster.Models.Parameters.{JobResult}
use computecluster.Models.Records.{JobRead, JobGroupRead}
use computecluster.Repository.Tables.{JobRow, WorkerRow, Database}
use computecluster.Repository.Rows.{IsFresh}
use computecluster.Repository.Recovery.{recover_expired}
use computecluster.Repository.Workers.{set_worker_enabled, set_worker_capacity}
use computecluster.Repository.Claim.{ClaimRequest, claim}
use computecluster.Repository.Lease.{HeartbeatRequest, heartbeat, cancel, complete, fail}
use computecluster.Repository.Submit.{
  Submitted, stored, AppOrigin, job_row, job_conflict, add, add_group,
}
use computecluster.Repository.Submit.Appends.{OnStored, add-keeps, add_group-keeps}
use computecluster.Repository.Workers.Rows.{All-update_worker}
use computecluster.Repository.Consistency.{IsSoundDb, current_held}
use computecluster.Repository.Consistency.Recovery.{recover_expired-IsSoundDb}
use computecluster.Repository.Consistency.Claim.{claim-IsSoundDb}
use computecluster.Repository.Consistency.Lease.{
  heartbeat-IsSoundDb, cancel-IsSoundDb, complete-IsSoundDb, fail-IsSoundDb,
}
use computecluster.Repository.Consistency.Submit.{add-IsSoundDb, add_group-IsSoundDb}
use computecluster.Repository.History.Growth.{Grows, Grows-refl, Grows-trans, Grows-append}
use computecluster.Repository.History.Methods.{
  recover-Grows, claim-Grows, heartbeat-Grows, cancel-Grows, complete-Grows, fail-Grows,
}

pub data Step (db : Database) : Database → Type 0 where
  adds :
      (job : JobRead) (key : Option String) (owner : ℕ) {db' : Database} {result : JobRead}
      → IsFresh job
      → add job key owner db ≡ stored db' result
      → Step db db'
  adds_group :
      (group : JobGroupRead) (request_json : String) (key : Option String) (owner : ℕ)
      (origin : Option AppOrigin) {db' : Database} {result : JobGroupRead × String}
      → All IsFresh group.tasks
      → add_group group request_json key owner origin db ≡ stored db' result
      → Step db db'
  claims : (r : ClaimRequest) → Step db (claim r db).0
  heartbeats : (h : HeartbeatRequest) → Step db (heartbeat h db).0
  cancels : (job_id now : ℕ) → Step db (cancel job_id now db).0
  completes :
      (job_id worker_id token : ℕ) (result : JobResult) (now : ℕ)
      → Step db (complete job_id worker_id token result now db).0
  fails :
      (job_id worker_id token : ℕ) (error : String) (kind : FailureKind) (now : ℕ)
      → Step db (fail job_id worker_id token error kind now db).0
  recovers : (now : ℕ) → Step db (recover_expired now db).0
  enables :
      (worker_id : ℕ) (enabled : Bool) (stale_before : ℕ)
      → Step db (set_worker_enabled worker_id enabled stale_before db).0
  sets_capacity :
      (worker_id cpu memory stale_before : ℕ)
      → Step db (set_worker_capacity worker_id cpu memory stale_before db).0

pub data History (start : Database) : Database → Type 0 where
  start_here : History start start
  then : {db db' : Database} → History start db → Step db db' → History start db'

-- The tables as the migrations create them.
abbrev pub empty : Database
empty = record {
  jobs = [];
  workers = [];
  groups = [];
  app_runs = [];
  reservations = [];
  staged = [];
}

on_stored {κ} :
    {A : Type 0} (P : Database → Type κ) {r : Submitted A} {db : Database} {a : A}
    → r ≡ stored db a
    → OnStored P r
    → P db
on_stored P e h = subst (OnStored P) e h

pub Step-IsSoundDb : {db db' : Database} → Step db db' → IsSoundDb db → IsSoundDb db'
Step-IsSoundDb {db} (adds job key owner f e) c =
    on_stored IsSoundDb e (add-IsSoundDb job key owner db f c)
Step-IsSoundDb {db} (adds_group group request key owner origin f e) c =
    on_stored IsSoundDb e (add_group-IsSoundDb group request key owner origin db f c)
Step-IsSoundDb {db} (claims r) c = claim-IsSoundDb r db c
Step-IsSoundDb {db} (heartbeats h) c = heartbeat-IsSoundDb h db c
Step-IsSoundDb {db} (cancels job_id now) c = cancel-IsSoundDb job_id now db c
Step-IsSoundDb {db} (completes job_id worker_id token result now) c =
    complete-IsSoundDb job_id worker_id token result now db c
Step-IsSoundDb {db} (fails job_id worker_id token error kind now) c =
    fail-IsSoundDb job_id worker_id token error kind now db c
Step-IsSoundDb {db} (recovers now) c = recover_expired-IsSoundDb now db c
Step-IsSoundDb {db} (enables worker_id enabled stale_before) c =
    unfold set_worker_enabled in
    record {
      rows = c.rows;
      ids = c.ids;
      holders = c.holders;
      currents =
          All-update_worker (λ w. current_held db.jobs w ≡ true) worker_id _ db.workers (λ w h. h)
            c.currents;
    }
Step-IsSoundDb {db} (sets_capacity worker_id cpu memory stale_before) c =
    unfold set_worker_capacity in
    record {
      rows = c.rows;
      ids = c.ids;
      holders = c.holders;
      currents =
          All-update_worker (λ w. current_held db.jobs w ≡ true) worker_id _ db.workers (λ w h. h)
            c.currents;
    }

empty-IsSoundDb : IsSoundDb empty
unfolding count_by
empty-IsSoundDb = record {
  rows = tt;
  ids = λ i. omega arith;
  holders = λ w. omega arith;
  currents = tt;
}

-- Whatever methods are called, with whatever arguments, from the empty tables: every job row has
-- the columns of its status and no more attempts than allowed, identities are unique, no worker
-- holds two jobs, and a worker's current job is one that it holds. Submitted jobs are fresh.
pub History-IsSoundDb : {db : Database} → History empty db → IsSoundDb db
History-IsSoundDb start_here = empty-IsSoundDb
History-IsSoundDb (then h s) = Step-IsSoundDb s (History-IsSoundDb h)

module _ (base : List JobRow) where
  appended_Grows :
      (t : JobRead) (key : Option String) (g : Option ℕ) (owner : ℕ) (jobs : List JobRow)
      (workers : List WorkerRow)
      → IsFresh t
      → any (job_conflict (job_row t key g owner)) jobs ≡ false
      → Grows base jobs
      → Grows base (jobs ++ job_row t key g owner ∷ [])
  appended_Grows t key g owner jobs workers f free h =
      Grows-trans base jobs _ h (Grows-append jobs (job_row t key g owner ∷ []))

pub Step-Grows : {db db' : Database} → Step db db' → Grows db.jobs db'.jobs
Step-Grows {db} (adds job key owner f e) =
    on_stored (λ d. Grows db.jobs d.jobs) e
      (add-keeps (λ jobs _. Grows db.jobs jobs) (appended_Grows db.jobs) job key owner db f
        (Grows-refl db.jobs))
Step-Grows {db} (adds_group group request key owner origin f e) =
    on_stored (λ d. Grows db.jobs d.jobs) e
      (add_group-keeps (λ jobs _. Grows db.jobs jobs) (appended_Grows db.jobs) group request key
        owner origin db f (Grows-refl db.jobs))
Step-Grows {db} (claims r) = claim-Grows r db
Step-Grows {db} (heartbeats h) = heartbeat-Grows h db
Step-Grows {db} (cancels job_id now) = cancel-Grows job_id now db
Step-Grows {db} (completes job_id worker_id token result now) =
    complete-Grows job_id worker_id token result now db
Step-Grows {db} (fails job_id worker_id token error kind now) =
    fail-Grows job_id worker_id token error kind now db
Step-Grows {db} (recovers now) = recover-Grows now db
Step-Grows {db} (enables worker_id enabled stale_before) =
    unfold set_worker_enabled in Grows-refl db.jobs
Step-Grows {db} (sets_capacity worker_id cpu memory stale_before) =
    unfold set_worker_capacity in Grows-refl db.jobs

-- Over any history no job is lost or moved: each row keeps its identity, owner, request and place in
-- a group, its attempts only grow, a request to cancel stays, and the row of a job that has ended
-- never changes.
pub History-Grows : {start db : Database} → History start db → Grows start.jobs db.jobs
History-Grows {start} start_here = Grows-refl start.jobs
History-Grows {start} (then {db} {db'} h s) =
    Grows-trans start.jobs db.jobs db'.jobs (History-Grows h) (Step-Grows s)
