-- ===== src/Service/Answers.antt =====
-- What the service answers to a worker that reports, and to one that asks for its authority.
use computecluster.Prelude.{
  refl, ℕ, ◌≤◌, Bool, true, false, none, some, ◌≡◌, sym, ap, ◌∙◌, arith, ◌&&◌, any, find, count_by,
  inl, inr, Option-cases, Bool-cases, is_some, find_cong, is_some-find, any-found, any_none-All,
  only_match, All-find-none, All-map_where, find-holds, find-All,
}
use mathlib.Core.Path.{subst}
use computecluster.Models.Enums.{JobStatus, FailureKind}
use computecluster.Models.Parameters.{JobResult}
use computecluster.Models.Records.{JobRead, JobCompletion, JobFailure}
use computecluster.Repository.Tables.{JobRow, Database, has_id, row_to_job}
use computecluster.Repository.Groups
use computecluster.Repository.Groups.{owned_by}
use computecluster.Repository.Lease
use computecluster.Repository.Lease.{may_finish, finish_row, completed_with, failed_with}
use computecluster.Repository.Lease.Fencing.{finish_fenced}
use computecluster.Service.Replies.{Reply, ok, raised, or_raise}
use computecluster.Service.{
  complete, fail, authorize_lease, lease_is_held, result_matches, transition_error,
}

-- A look-up without an owner is a look-up by identity.
get_any :
    (job_id : ℕ) (db : Database)
    → find (λ j. has_id job_id j && owned_by none j.owner_user_id) db.jobs
      ≡ find (has_id job_id) db.jobs
get_any job_id db = find_cong _ (has_id job_id) db.jobs (λ x. ground arith)

get-found :
    (job_id : ℕ) (db : Database) (row : JobRow)
    → find (has_id job_id) db.jobs ≡ some row
    → Groups.get job_id none db ≡ some (row_to_job row)
unfolding Groups.get
get-found job_id db row e = rw (get_any job_id db ∙ e, Groups.get)

get-missing :
    (job_id : ℕ) (db : Database)
    → find (has_id job_id) db.jobs ≡ none
    → Groups.get job_id none db ≡ none
unfolding Groups.get
get-missing job_id db e = rw (get_any job_id db ∙ e, Groups.get)

abbrev pub is_ok : Reply JobRead → Bool
is_ok (ok _) = true
is_ok (raised _) = false

module _ (now job_id worker_id token : ℕ) (result : JobResult) (db : Database) where
  abbrev finishing : JobRow → Bool
  finishing = may_finish job_id worker_id token now false

  complete-is_some :
      is_some (Lease.complete job_id worker_id token result now db).1 ≡ any finishing db.jobs
  unfolding Lease.complete Lease.finish
  complete-is_some = elim (Option-cases (find finishing db.jobs)) [
    | inl n ↦ rw (n, Lease.finish) (ap is_some (sym n) ∙ is_some-find finishing db.jobs)
    | inr (j, e) ↦ rw (e, Lease.finish) (ap is_some (sym e) ∙ is_some-find finishing db.jobs)
  ]

  held_finishing :
      (row : JobRow)
      → has_id job_id row ≡ true
      → finishing row ≡ lease_is_held now worker_id token (row_to_job row)
  unfolding lease_is_held row_to_job
  held_finishing row h = ground arith

  refuses :
      (row : JobRow)
      → lease_is_held now worker_id token (row_to_job row) ≡ false
      → has_id job_id row ≡ true
      → (y : JobRow) → (has_id job_id y ≡ true → y ≡ row)
      → finishing y ≡ false
  refuses row f i y h = elim (Bool-cases (has_id job_id y)) [
    | inl t ↦ subst (λ z. finishing z ≡ false) (sym (h t)) (held_finishing row i ∙ f)
    | inr n ↦ ground arith
  ]

  any-finishing :
      (row : JobRow)
      → find (has_id job_id) db.jobs ≡ some row
      → count_by (has_id job_id) db.jobs ≤ 1
      → any finishing db.jobs ≡ lease_is_held now worker_id token (row_to_job row)
  any-finishing row e u = elim (Bool-cases (lease_is_held now worker_id token (row_to_job row))) [
    | inl t ↦
        any-found (has_id job_id) finishing db.jobs row e
          (held_finishing row (find-holds (has_id job_id) db.jobs e) ∙ t)
        ∙ sym t
    | inr f ↦
        any_none-All finishing db.jobs (
          All-map_where (λ y. has_id job_id y ≡ true → y ≡ row) (λ y. finishing y ≡ false) db.jobs
            (refuses row f (find-holds (has_id job_id) db.jobs e))
            (only_match (has_id job_id) db.jobs row e u))
        ∙ sym f
  ]

  -- Where identities are unique, authority over a lease is granted exactly when a result reported at
  -- the same instant by the same worker under the same token would be stored.
  pub authorize_lease-complete :
      count_by (has_id job_id) db.jobs ≤ 1
      → is_ok (authorize_lease now job_id worker_id token db)
        ≡ is_some (Lease.complete job_id worker_id token result now db).1
  unfolding authorize_lease
  authorize_lease-complete u = elim (Option-cases (find (has_id job_id) db.jobs)) [
    | inl n ↦
        rw (complete-is_some, get-missing job_id db n, authorize_lease)
          (sym (
            any_none-All finishing db.jobs (
              All-map_where (λ y. has_id job_id y ≡ false) (λ y. finishing y ≡ false) db.jobs
                (λ y h. ground arith) (All-find-none (has_id job_id) db.jobs n))))
    | inr (row, e) ↦
        rw (complete-is_some, any-finishing row e u, get-found job_id db row e, authorize_lease)
          (ground arith)
  ]

module _ (now job_id : ℕ) (c : JobCompletion) (db : Database) (job : JobRead) where
  typed_from :
      (row : JobRow)
      → find (has_id job_id) db.jobs ≡ some row
      → count_by (has_id job_id) db.jobs ≤ 1
      → result_matches row.type c.result ≡ true
      → (Lease.complete job_id c.worker_id c.lease_token c.result now db).1 ≡ some job
      → (result_matches job.type c.result ≡ true)
        × (job.status ≡ JobStatus.completed)
        × (job.result ≡ some c.result)
  unfolding Lease.complete Lease.finish row_to_job finish_row
  typed_from row e u m h =
      elim (Option-cases (find (may_finish job_id c.worker_id c.lease_token now false) db.jobs)) [
        | inl n ↦ ground arith
        | inr (j, f) ↦
            let same : j ≡ row =
              find-All (λ y. has_id job_id y ≡ true → y ≡ row) _ db.jobs
                (only_match (has_id job_id) db.jobs row e u) f
                (ground (
                  arith,
                  find-holds (may_finish job_id c.worker_id c.lease_token now false) db.jobs f,
                )) in
            let t : result_matches j.type c.result ≡ true = rw same m in ground arith
      ]

  -- Where identities are unique, a result is stored only for a job of its type: the answer is that
  -- job, completed, with it.
  pub complete_typed :
      count_by (has_id job_id) db.jobs ≤ 1
      → (complete now job_id c db).1 ≡ ok job
      → (result_matches job.type c.result ≡ true)
        × (job.status ≡ JobStatus.completed)
        × (job.result ≡ some c.result)
  unfolding complete row_to_job
  complete_typed u e = elim (Option-cases (find (has_id job_id) db.jobs)) [
    | inl n ↦ ground (arith, get-missing job_id db n)
    | inr (row, f) ↦ ground (arith, get-found job_id db row f, typed_from row f u)
  ]

-- The report that is stored in place of any failure of a job whose cancellation was requested.
abbrev cancellation : Lease.Outcome
cancellation = failed_with "cancelled by user" FailureKind.cancelled_by_user

abbrev pub IsCancelled : ℕ → Database → JobRead → Type 0
IsCancelled job_id db job =
    (stored : JobRow) × (find (has_id job_id) db.jobs ≡ some stored)
    × (job ≡ row_to_job stored)
    × (stored.status ≡ JobStatus.failed)
    × (stored.failure_kind ≡ some FailureKind.cancelled_by_user)
    × (stored.error ≡ some "cancelled by user")
    × (stored.result ≡ none)
    × (stored.lease_token ≡ none)

module _ (now job_id : ℕ) (failure : JobFailure) (db : Database) (job : JobRead) where
  answered :
      (row : JobRow)
      → find (has_id job_id) db.jobs ≡ some row
      → row.cancellation_requested ≡ true
      → fail now job_id failure db ≡ (
          let r = Lease.finish job_id failure.worker_id failure.lease_token now cancellation db in
          (r.0, or_raise (transition_error job_id r.0) r.1))
  unfolding fail Lease.fail row_to_job
  answered row e c = rw (fail, get-found job_id db row e, c) refl

  -- Where identities are unique, a failure report that is accepted for a job whose cancellation was
  -- requested stores the job as failed and cancelled by the user, without a result or a lease,
  -- whatever failure was reported, and answers the job so stored.
  pub fail-IsCancelled :
      (row : JobRow)
      → count_by (has_id job_id) db.jobs ≤ 1
      → find (has_id job_id) db.jobs ≡ some row
      → row.cancellation_requested ≡ true
      → (fail now job_id failure db).1 ≡ ok job
      → IsCancelled job_id (fail now job_id failure db).0 job
  unfolding finish_row
  fail-IsCancelled row u f c e =
      let h = rw (answered row f c) at e in
      elim (finish_fenced job_id failure.worker_id failure.lease_token now cancellation db u) [
        | inl refused ↦ absurd (ground arith)
        | inr (j, fin) ↦
            rw (answered row f c)
              (finish_row now cancellation j, fin.2, ground arith, refl, refl, refl, refl, refl)
      ]
