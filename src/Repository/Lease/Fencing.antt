-- ===== src/Repository/Lease/Fencing.antt =====
-- Reports and heartbeats against the lease: a job is finished, or its lease renewed, only for the
-- holder of its live lease, and a result is stored only while no cancellation was requested. A
-- heartbeat renews, and a failure report finishes, a job whose cancellation was requested too.
use computecluster.Prelude.{
  ℕ, ◌≤◌, ◌<◌, Bool, true, false, none, some, ◌≡◌, ◌⊎◌, refl, arith, ◌&&◌, not, All, any, find,
  count_by, update_where, Option-cases, inl, inr, All-update_where, All-map_where, only_match,
  All-find-none, find-none-All, any-find, any-update_where_written, find-holds, ◌==◌, List,
  find-update_where_written, find-update_where_other, find-narrower, All-Unit,
}
use computecluster.Models.Enums.{JobStatus}
use computecluster.Models.Parameters.{JobResult}
use computecluster.Repository.Tables.{JobRow, WorkerRow, Database, has_id, is_running, row_to_job}
use computecluster.Repository.Workers.{set_current, is_worker}
use computecluster.Repository.Lease.{
  HeartbeatRequest, Outcome, holds_lease, renew_row, renew, heartbeat, has_id_status,
  cancel_queued_row, request_cancel_row, cancel_in, cancel, may_finish, finish_row, finish,
  completed_with, complete,
}

module _ (job_id worker_id token now : ℕ) (o : Outcome) where
  finish_refused :
      (db : Database)
      → All (λ j. may_finish job_id worker_id token now o.allow_cancellation j ≡ false) db.jobs
      → finish job_id worker_id token now o db ≡ (db, none)
  unfolding finish
  finish_refused db a =
      rw (
        find-none-All (may_finish job_id worker_id token now o.allow_cancellation) db.jobs a,
        finish,
      )

  -- What an accepted report leaves: the row of the job, under a lease that was live, is stored as
  -- it was finished and returned, every other job is found as before, and the worker is free.
  abbrev pub IsFinished : Database → JobRow → Type 0
  IsFinished db j =
      (find (has_id job_id) db.jobs ≡ some j)
      × (holds_lease job_id worker_id token now j ≡ true)
      × (find (has_id job_id) (finish job_id worker_id token now o db).0.jobs
          ≡ some (finish_row now o j))
      × ((finish job_id worker_id token now o db).1 ≡ some (row_to_job (finish_row now o j)))
      × ((other : ℕ)
          → (other == job_id) ≡ false
          → find (has_id other) (finish job_id worker_id token now o db).0.jobs
            ≡ find (has_id other) db.jobs)
      × All {0, 0} (λ w. (w.id == worker_id) ≡ true → w.current_job_id ≡ none)
          (finish job_id worker_id token now o db).0.workers

  freed :
      (workers : List WorkerRow)
      → All
          (λ w. (w.id == worker_id) ≡ true → w.current_job_id ≡ none)
          (set_current worker_id none workers)
  unfolding set_current
  freed workers =
      All-update_where (λ w. Unit) _ (is_worker worker_id) _ workers (λ w t h e. refl)
        (λ w f h e. ground arith) (All-Unit workers)

  -- Where identities are unique, a report is refused and changes nothing, or the job was leased to
  -- this worker under this token, with the lease still live; then its row is stored finished and is
  -- what is returned, every other job is found as before, and the worker has no current job.
  pub finish_fenced :
      (db : Database)
      → count_by (has_id job_id) db.jobs ≤ 1
      → (finish job_id worker_id token now o db ≡ (db, none)) ⊎ ((j : JobRow) × IsFinished db j)
  unfolding finish finish_row
  finish_fenced db u =
      let may = may_finish job_id worker_id token now o.allow_cancellation in
      elim (Option-cases (find may db.jobs)) [
        | inl n ↦ inl (rw (n, finish))
        | inr (j, e) ↦
            let held : holds_lease job_id worker_id token now j ≡ true =
              ground (arith, find-holds may db.jobs e) in
            let here = find-narrower may (has_id job_id) db.jobs j e u (λ x h. ground arith) in
            inr (
              j,
              (
                here,
                held,
                rw (e, finish)
                    (find-update_where_written (has_id job_id) may (finish_row now o) db.jobs
                      (λ y. refl) (find-holds may db.jobs e) here),
                rw (e, finish),
                (λ other differs.
                    rw (e, finish)
                      (find-update_where_other (has_id other) may (finish_row now o) db.jobs
                        (λ y. refl) (λ y h. ground arith))),
                rw (e, finish) (freed db.workers),
              ),
            )
      ]

module _ (job_id at : ℕ) where
  -- After a cancellation no row of the job both runs and is not cancelled.
  abbrev Stopped : JobRow → Type 0
  Stopped j = (has_id job_id j && (is_running j && not j.cancellation_requested)) ≡ false

  Stopped-in :
      (status : JobStatus) (row : JobRow) (db : Database)
      → row.status ≡ status
      → All (λ y. has_id job_id y ≡ true → y ≡ row) db.jobs
      → All Stopped (cancel_in status job_id at row db).0.jobs
  unfolding cancel_in cancel_queued_row request_cancel_row
  Stopped-in JobStatus.queued row db s only =
      All-update_where _ Stopped (has_id_status job_id JobStatus.queued) _ db.jobs
        (λ x t h. ground arith) (λ x f h. ground (arith, h)) only
  Stopped-in JobStatus.running row db s only =
      All-update_where _ Stopped (has_id_status job_id JobStatus.running) _ db.jobs
        (λ x t h. ground arith) (λ x f h. ground (arith, h)) only
  Stopped-in JobStatus.completed row db s only =
      All-map_where _ Stopped db.jobs (λ x h. ground (arith, h)) only
  Stopped-in JobStatus.failed row db s only =
      All-map_where _ Stopped db.jobs (λ x h. ground (arith, h)) only

  cancel-Stopped :
      (db : Database)
      → count_by (has_id job_id) db.jobs ≤ 1
      → All Stopped (cancel job_id at db).0.jobs
  unfolding cancel
  cancel-Stopped db u = elim (Option-cases (find (has_id job_id) db.jobs)) [
    | inl n ↦
        rw (n, cancel)
          (All-map_where _ Stopped db.jobs (λ x h. ground (arith, h))
            (All-find-none (has_id job_id) db.jobs n))
    | inr (row, e) ↦
        rw (e, cancel)
          (Stopped-in row.status row db refl (only_match (has_id job_id) db.jobs row e u))
  ]

  -- Where identities are unique, no report of a result is accepted for a job once its cancellation
  -- was requested, whoever reports, with whatever token and at whatever time: it changes nothing.
  pub complete-cancel :
      (worker_id token : ℕ) (result : JobResult) (now : ℕ) (db : Database)
      → count_by (has_id job_id) db.jobs ≤ 1
      → complete job_id worker_id token result now (cancel job_id at db).0
        ≡ ((cancel job_id at db).0, none)
  unfolding complete
  complete-cancel worker_id token result now db u =
      finish_refused job_id worker_id token now (completed_with result) (cancel job_id at db).0 (
        All-map_where Stopped _ (cancel job_id at db).0.jobs (λ x h. ground arith)
          (cancel-Stopped db u))

module _ (h : HeartbeatRequest) (job_id token : ℕ) (db : Database) where
  renewed_holds :
      (later : ℕ)
      → later < h.lease_expires_at
      → any (holds_lease job_id h.worker_id token h.seen_at) db.jobs ≡ true
      → any (holds_lease job_id h.worker_id token later) (
          update_where
            (holds_lease job_id h.worker_id token h.seen_at)
            (renew_row h.lease_expires_at h.seen_at)
            db.jobs)
        ≡ true
  unfolding renew_row
  renewed_holds later b e =
      any-update_where_written _ (holds_lease job_id h.worker_id token h.seen_at) _ db.jobs
        (λ x t. ground arith) e

  module _ (later : ℕ) (before : later < h.lease_expires_at) where
    renew_outcome :
        (renew h job_id token db ≡ (db, none))
        ⊎ ((c : Bool) × ((renew h job_id token db).1 ≡ some c)
            × (any (holds_lease job_id h.worker_id token later) (renew h job_id token db).0.jobs
                ≡ true))
    unfolding renew
    renew_outcome =
        elim (Option-cases (find (holds_lease job_id h.worker_id token h.seen_at) db.jobs)) [
          | inl n ↦ inl (rw (n, renew))
          | inr (j, e) ↦ inr (
            j.cancellation_requested,
            rw (e, renew),
            rw (e, renew)
                (renewed_holds later before
                  (any-find (holds_lease job_id h.worker_id token h.seen_at) db.jobs e)),
          )
        ]

    -- A heartbeat that names a job and a token is refused and changes nothing, or is accepted and the
    -- worker then holds the job under that token at every time before the new expiry.
    pub heartbeat_extends :
        h.current_job_id ≡ some job_id
        → h.lease_token ≡ some token
        → (heartbeat h db ≡ (db, none))
          ⊎ ((c : Bool) × ((heartbeat h db).1 ≡ some c)
              × (any (holds_lease job_id h.worker_id token later) (heartbeat h db).0.jobs ≡ true))
    unfolding heartbeat
    heartbeat_extends e f = rw (e, f, heartbeat) renew_outcome
