-- ===== src/Service/Effects.antt =====
-- What each method of JobService does to the database: nothing, or one step of the repository.
use computecluster.Prelude.{
  ℕ, suc, ◌<◌, String, true, Option, none, List, [], ◌∷◌, ◌≡◌, refl, arith, ◌⊎◌, inl, inr, All,
  Option-cases, Bool-cases,
}
use computecluster.Models.Records.{
  JobCreate, JobRead, JobGroupTaskCreate, JobGroupCreate, JobGroupRead, JobCompletion, JobFailure,
}
use computecluster.Models.Validation.{type_matches_parameters}
use computecluster.Repository.Tables.{Database}
use computecluster.Repository.Rows.{IsFresh}
use computecluster.Repository.Groups
use computecluster.Repository.Submit
use computecluster.Repository.Submit.{Submitted, stored, refused, AppOrigin}
use computecluster.Repository.History.{Step, adds, adds_group, cancels, completes, fails}
use computecluster.Service.Replies.{ServiceConfig}
use computecluster.Service.{
  submission_error, group_error, new_job, group_jobs, new_group, create, create_group, cancel,
  complete, fail, result_matches, is_ended, recorded_failure, answer_job, answer_group,
}

new_job-IsFresh :
    (config : ServiceConfig) (now id : ℕ) (job : JobCreate)
    → 0 < config.max_attempts
    → type_matches_parameters job ≡ true
    → IsFresh (new_job config now id job)
unfolding new_job type_matches_parameters
new_job-IsFresh config now id job m t = ground arith

group_jobs-IsFresh :
    (config : ServiceConfig) (now group_id : ℕ) (ids : ℕ → ℕ) (index : ℕ)
    (ts : List JobGroupTaskCreate)
    → 0 < config.max_attempts
    → All (λ t. type_matches_parameters t.job ≡ true) ts
    → All IsFresh (group_jobs config now group_id ids index ts)
unfolding group_jobs new_job type_matches_parameters
group_jobs-IsFresh config now group_id ids index [] m a = tt
group_jobs-IsFresh config now group_id ids index (t ∷ ts) m a =
    (ground (arith, a.0), group_jobs-IsFresh config now group_id ids (suc index) ts m a.1)

-- A call that changes nothing, or makes one step.
abbrev pub Effect : Database → Database → Type 0
Effect db db' = (db' ≡ db) ⊎ Step db db'

module _ (config : ServiceConfig) (may_run : 0 < config.max_attempts) (now : ℕ) where
  answered_job :
      (request : JobCreate) (job : JobRead) (key : Option String) (owner : ℕ) (db : Database)
      (r : Submitted JobRead)
      → IsFresh job
      → Submit.add job key owner db ≡ r
      → Effect db (answer_job request db r).0
  answered_job request job key owner db (Submitted.refused e) f h = inl refl
  answered_job request job key owner db (Submitted.stored db' x) f h = inr (adds job key owner f h)

  pub create-Effect :
      (id : ℕ) (request : JobCreate) (key : Option String) (owner : ℕ) (db : Database)
      → type_matches_parameters request ≡ true
      → Effect db (create config now id request key owner db).0
  unfolding create
  create-Effect id request key owner db t = elim (Option-cases (submission_error request db)) [
    | inr (e, s) ↦ rw (s, create) (inl refl)
    | inl n ↦
        rw (n, create)
          (answered_job request (new_job config now id request) key owner db _
            (new_job-IsFresh config now id request may_run t) refl)
  ]

  answered_group :
      (request_json : String) (group : JobGroupRead) (key : Option String) (owner : ℕ)
      (origin : Option AppOrigin) (db : Database) (r : Submitted (JobGroupRead × String))
      → All IsFresh group.tasks
      → Submit.add_group group request_json key owner origin db ≡ r
      → Effect db (answer_group request_json db r).0
  answered_group request_json group key owner origin db (Submitted.refused e) f h = inl refl
  answered_group request_json group key owner origin db (Submitted.stored db' (x, y)) f h =
      inr (adds_group group request_json key owner origin f h)

  pub create_group-Effect :
      (dump : JobGroupCreate → String) (id : ℕ) (ids : ℕ → ℕ) (request : JobGroupCreate)
      (key : Option String) (owner : ℕ) (origin : Option AppOrigin) (db : Database)
      → All (λ t. type_matches_parameters t.job ≡ true) request.tasks
      → Effect db (create_group dump config now id ids request key owner origin db).0
  unfolding create_group new_group
  create_group-Effect dump id ids request key owner origin db t =
      elim (Option-cases (group_error request.tasks db)) [
        | inr (e, s) ↦ rw (s, create_group) (inl refl)
        | inl n ↦
            rw (n, create_group)
              (answered_group (dump request) (new_group config now id ids request) key owner origin
                db _ (group_jobs-IsFresh config now id ids 0 request.tasks may_run t) refl)
      ]

pub cancel-Effect :
    (now job_id : ℕ) (owner : Option ℕ) (db : Database) → Effect db (cancel now job_id owner db).0
unfolding cancel
cancel-Effect now job_id owner db = elim (Option-cases (Groups.get job_id owner db)) [
  | inl n ↦ rw (n, cancel) (inl refl)
  | inr (job, e) ↦ elim (Bool-cases (is_ended job.status)) [
    | inl t ↦ rw (e, cancel, t) (inl refl)
    | inr f ↦ rw (e, cancel, f) (inr (cancels job_id now))
  ]
]

pub complete-Effect :
    (now job_id : ℕ) (c : JobCompletion) (db : Database) → Effect db (complete now job_id c db).0
unfolding complete
complete-Effect now job_id c db = elim (Option-cases (Groups.get job_id none db)) [
  | inl n ↦ rw (n, complete) (inl refl)
  | inr (job, e) ↦ elim (Bool-cases (result_matches job.type c.result)) [
    | inl t ↦ rw (e, complete, t) (inr (completes job_id c.worker_id c.lease_token c.result now))
    | inr f ↦ rw (e, complete, f) (inl refl)
  ]
]

pub fail-Effect :
    (now job_id : ℕ) (failure : JobFailure) (db : Database)
    → Effect db (fail now job_id failure db).0
unfolding fail
fail-Effect now job_id failure db = elim (Option-cases (Groups.get job_id none db)) [
  | inl n ↦ rw (n, fail) (inl refl)
  | inr (job, e) ↦
      let f = recorded_failure job.cancellation_requested failure in
      rw (e, fail) (inr (fails job_id f.worker_id f.lease_token f.error f.failure_kind now))
]
