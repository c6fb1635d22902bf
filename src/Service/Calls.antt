-- ===== src/Service/Calls.antt =====
-- JobService over the repository: whatever the service does to the database is a step of the
-- repository's history.
use computecluster.Prelude.{ℕ, ◌<◌, String, Bool, true, Option, List, [], ◌∷◌, ◌≡◌, inl, inr, All}
use mathlib.Core.Path.{subst, sym}
use computecluster.Models.Records.{
  JobCreate, JobGroupCreate, JobCompletion, JobFailure, WorkerClaim, WorkerHeartbeat,
  WorkerCapacityUpdate,
}
use computecluster.Models.Validation.{type_matches_parameters}
use computecluster.Repository.Tables.{Database}
use computecluster.Repository.Submit.{AppOrigin}
use computecluster.Repository.History.{
  claims, heartbeats, recovers, enables, sets_capacity, History, start_here, then,
}
use computecluster.Service.Replies.{ServiceConfig}
use computecluster.Service.Effects.{
  Effect, create-Effect, create_group-Effect, cancel-Effect, complete-Effect, fail-Effect,
}
use computecluster.Service.{
  create, create_group, claim, claim_request, heartbeat, heartbeat_request, cancel, complete, fail,
  recover_expired, set_worker_enabled, set_worker_capacity,
}

-- The calls of JobService that may write.
pub data Call : Type 0 where
  creates : (now id : ℕ) (request : JobCreate) (key : Option String) (owner : ℕ) → Call
  creates_group :
      (now id : ℕ) (ids : ℕ → ℕ) (request : JobGroupCreate) (key : Option String) (owner : ℕ)
      (origin : Option AppOrigin)
      → Call
  claims_job : (now token : ℕ) (c : WorkerClaim) → Call
  beats : (now : ℕ) (h : WorkerHeartbeat) → Call
  cancels_job : (now job_id : ℕ) (owner : Option ℕ) → Call
  completes_job : (now job_id : ℕ) (c : JobCompletion) → Call
  fails_job : (now job_id : ℕ) (failure : JobFailure) → Call
  recovers_jobs : (now : ℕ) → Call
  enables_worker : (now worker_id : ℕ) (enabled : Bool) → Call
  sets_limits : (now worker_id : ℕ) (capacity : WorkerCapacityUpdate) → Call

-- The submissions have passed the validator of JobCreate.
abbrev pub IsValidated : Call → Type 0
IsValidated (creates now id request key owner) = type_matches_parameters request ≡ true
IsValidated (creates_group now id ids request key owner origin) =
    All (λ t. type_matches_parameters t.job ≡ true) request.tasks
IsValidated _ = Unit

module _ (dump : JobGroupCreate → String) (config : ServiceConfig) where
  unfoldable pub run_call : Call → Database → Database
  run_call (creates now id request key owner) db = (create config now id request key owner db).0
  run_call (creates_group now id ids request key owner origin) db =
      (create_group dump config now id ids request key owner origin db).0
  run_call (claims_job now token c) db = (claim config now token c db).0
  run_call (beats now h) db = (heartbeat config now h db).0
  run_call (cancels_job now job_id owner) db = (cancel now job_id owner db).0
  run_call (completes_job now job_id c) db = (complete now job_id c db).0
  run_call (fails_job now job_id failure) db = (fail now job_id failure db).0
  run_call (recovers_jobs now) db = (recover_expired now db).0
  run_call (enables_worker now worker_id enabled) db =
      (set_worker_enabled config now worker_id enabled db).0
  run_call (sets_limits now worker_id capacity) db =
      (set_worker_capacity config now worker_id capacity db).0

  unfoldable pub run_calls : List Call → Database → Database
  unfolding run_call
  run_calls [] db = db
  run_calls (c ∷ cs) db = run_calls cs (run_call c db)

  module _ (may_run : 0 < config.max_attempts) where
    run_call-Effect : (c : Call) (db : Database) → IsValidated c → Effect db (run_call c db)
    unfolding run_call claim heartbeat recover_expired set_worker_enabled set_worker_capacity
    run_call-Effect (creates now id request key owner) db v =
        create-Effect config may_run now id request key owner db v
    run_call-Effect (creates_group now id ids request key owner origin) db v =
        create_group-Effect config may_run now dump id ids request key owner origin db v
    run_call-Effect (claims_job now token c) db v = inr (claims (claim_request config now token c))
    run_call-Effect (beats now h) db v = inr (heartbeats (heartbeat_request config now h))
    run_call-Effect (cancels_job now job_id owner) db v = cancel-Effect now job_id owner db
    run_call-Effect (completes_job now job_id c) db v = complete-Effect now job_id c db
    run_call-Effect (fails_job now job_id failure) db v = fail-Effect now job_id failure db
    run_call-Effect (recovers_jobs now) db v = inr (recovers now)
    run_call-Effect (enables_worker now worker_id enabled) db v = inr (enables worker_id enabled _)
    run_call-Effect (sets_limits now worker_id capacity) db v =
        inr (sets_capacity worker_id capacity.max_job_cpu capacity.max_job_memory_mb _)

    extended : {start db db' : Database} → History start db → Effect db db' → History start db'
    extended {start} h (inl e) = subst (History start) (sym e) h
    extended h (inr s) = then h s

    from_history :
        {start : Database} (cs : List Call) (db : Database)
        → All IsValidated cs
        → History start db
        → History start (run_calls cs db)
    unfolding run_calls
    from_history [] db v h = h
    from_history (c ∷ cs) db v h =
        from_history cs (run_call c db) v.1 (extended h (run_call-Effect c db v.0))

    -- Whatever the service is asked, in whatever order and whatever it raises, the database is one
    -- that the methods of the repository have made, each in one whole step. The submissions are
    -- validated, and a job may be attempted at least once.
    pub run_calls-History :
        (cs : List Call) (db : Database) → All IsValidated cs → History db (run_calls cs db)
    run_calls-History cs db v = from_history cs db v start_here
