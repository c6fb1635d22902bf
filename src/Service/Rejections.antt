-- ===== src/Service/Rejections.antt =====
-- JobService: what an error leaves behind.
use computecluster.Prelude.{
  ℕ, String, true, Option, none, ◌≡◌, refl, arith, any, find, Option-cases, Bool-cases, inl, inr,
}
use computecluster.Models.Records.{JobCreate}
use computecluster.Models.Enums.{JobType, same_type}
use computecluster.Models.Equality.{same_parameters_self, same_name_self, same_target_self}
use computecluster.Repository.Tables.{Database}
use computecluster.Repository.Submit.{add, job_conflict, job_row, keyed}
use computecluster.Repository.Lease
use computecluster.Repository.Lease.{Outcome, finish, may_finish, completed_with, failed_with}
use computecluster.Repository.Groups
use computecluster.Models.Records.{JobCompletion, JobFailure}
use computecluster.Service.{
  complete, fail, result_matches, recorded_failure, create, new_job, submission_error, same_request,
}
use computecluster.Service.Replies.{ServiceError, raised, ServiceConfig}

same_type_self : (t : JobType) → same_type t t ≡ true
same_type_self JobType.sleep = refl
same_type_self JobType.dataset_script = refl
same_type_self JobType.python_batch = refl
same_type_self JobType.batch = refl

same_request_self :
    (config : ServiceConfig) (now id : ℕ) (request : JobCreate)
    → same_request (new_job config now id request) request ≡ true
unfolding same_request new_job
same_request_self config now id request =
    rw
      (
        same_type_self request.type,
        same_parameters_self request.parameters,
        same_name_self request.name,
        same_target_self request.target_worker_id,
      )
      refl

-- A submission that is answered by an error changes nothing.
pub create_raised :
    (config : ServiceConfig) (now id : ℕ) (request : JobCreate) (key : Option String) (owner : ℕ)
    (db : Database) (e : ServiceError)
    → (create config now id request key owner db).1 ≡ raised e
    → (create config now id request key owner db).0 ≡ db
unfolding create add new_job
create_raised config now id request key owner db e h =
    elim (Option-cases (submission_error request db)) [
      | inr (x, f) ↦ rw (f, create) refl
      | inl n ↦
          elim (Bool-cases
            (any (job_conflict (job_row (new_job config now id request) key none owner)) db.jobs)) [
              | inl dup ↦ elim (Option-cases (find (keyed owner key) db.jobs)) [
                | inl none_there ↦ rw (n, create, dup, none_there, add) refl
                | inr (old, f) ↦ rw (n, create, dup, f, add) refl
              ]
              | inr new ↦
                  let stored_ok =
                    rw (n, create, new, add, same_request_self config now id request) at h in
                  ground arith
            ]
    ]

finish-none :
    (job_id worker_id token now : ℕ) (o : Outcome) (db : Database)
    → (finish job_id worker_id token now o db).1 ≡ none
    → (finish job_id worker_id token now o db).0 ≡ db
unfolding finish
finish-none job_id worker_id token now o db e =
    elim (Option-cases
      (find (may_finish job_id worker_id token now o.allow_cancellation) db.jobs)) [
        | inl n ↦ rw (n, finish) refl
        | inr (j, f) ↦ let some_none = rw (f, finish) at e in ground arith
      ]

-- A result that is answered by an error changes nothing.
pub complete_raised :
    (now job_id : ℕ) (c : JobCompletion) (db : Database) (e : ServiceError)
    → (complete now job_id c db).1 ≡ raised e
    → (complete now job_id c db).0 ≡ db
unfolding complete Lease.complete
complete_raised now job_id c db e h = elim (Option-cases (Groups.get job_id none db)) [
  | inl n ↦ rw (n, complete) refl
  | inr (job, g) ↦ elim (Bool-cases (result_matches job.type c.result)) [
    | inr bad ↦ rw (g, complete, bad) refl
    | inl good ↦
        elim (Option-cases (Lease.complete job_id c.worker_id c.lease_token c.result now db).1) [
          | inl n ↦
              rw (g, complete, good)
                (finish-none job_id c.worker_id c.lease_token now (completed_with c.result) db n)
          | inr (j, k) ↦ let some_raised = rw (g, complete, good, k) at h in ground arith
        ]
  ]
]

-- A failure that is answered by an error changes nothing.
pub fail_raised :
    (now job_id : ℕ) (f : JobFailure) (db : Database) (e : ServiceError)
    → (fail now job_id f db).1 ≡ raised e
    → (fail now job_id f db).0 ≡ db
unfolding fail Lease.fail
fail_raised now job_id f db e h = elim (Option-cases (Groups.get job_id none db)) [
  | inl n ↦ rw (n, fail) refl
  | inr (job, g) ↦
      let r = recorded_failure job.cancellation_requested f in
      elim (Option-cases
        (Lease.fail job_id r.worker_id r.lease_token r.error r.failure_kind now db).1) [
          | inl n ↦
              rw (g, fail)
                (finish-none job_id r.worker_id r.lease_token now
                  (failed_with r.error r.failure_kind) db n)
          | inr (j, k) ↦ let some_raised = rw (g, fail, k) at h in ground arith
        ]
]
