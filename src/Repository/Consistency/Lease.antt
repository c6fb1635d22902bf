-- ===== src/Repository/Consistency/Lease.antt =====
-- Heartbeats, cancellations and reports of a finished job keep the tables consistent.
use computecluster.Prelude.{
  ℕ, String, Bool, true, false, none, some, ◌≡◌, refl, arith, ◌&&◌, All, any, find, update_where,
  any-find, any-update_where_written, Option-cases, inl, inr, All-map_where, ==→≡,
}
use computecluster.Models.Enums.{JobStatus, FailureKind, same_status}
use computecluster.Models.Parameters.{JobResult}
use computecluster.Repository.Tables.{JobRow, WorkerRow, Database, has_id}
use computecluster.Repository.Rows.{
  IsSound, renew_row-IsSound, cancel_queued_row-IsSound, request_cancel_row-IsSound,
  complete_row-IsSound, fail_row-IsSound,
}
use computecluster.Repository.Workers.{refresh, upsert_worker, set_current}
use computecluster.Repository.Workers.Rows.{All-upsert_worker, All-set_current}
use computecluster.Repository.Lease.{
  HeartbeatRequest, Outcome, holds_lease, renew_row, seen, renew, heartbeat, has_id_status,
  cancel_queued_row, request_cancel_row, cancel_in, cancel, may_finish, finish_row, finish,
  completed_with, failed_with, complete, fail,
}
use computecluster.Repository.Consistency.{
  runs_on, current_held, IsSoundDb, current_held-update_where, IsConsistent-update_where,
}

-- A report with no job, or one that leaves the jobs alone.
pub seen_idle : (h : HeartbeatRequest) (db : Database) → IsSoundDb db → IsSoundDb (seen h none db)
seen_idle h db c = record {
  rows = c.rows;
  ids = c.ids;
  holders = c.holders;
  currents =
      All-upsert_worker _ _ h.worker_id h.supported_types h.seen_at none h.metrics db.workers
        (λ w _ _. unfold refresh in refl) (λ w e. e) refl c.currents;
}

module _ (h : HeartbeatRequest) (job_id token : ℕ) (db : Database) where
  abbrev renews : JobRow → Bool
  renews = holds_lease job_id h.worker_id token h.seen_at

  abbrev renewed : JobRow → JobRow
  renewed = renew_row h.lease_expires_at h.seen_at

  renewed_held :
      (w : WorkerRow)
      → current_held db.jobs w ≡ true
      → current_held (update_where renews renewed db.jobs) w ≡ true
  unfolding renew_row
  renewed_held w c = current_held-update_where db.jobs renews renewed w (λ x i e t. ground arith) c

  renewed_named :
      any renews db.jobs ≡ true
      → any (λ j. has_id job_id j && runs_on h.worker_id j) (update_where renews renewed db.jobs)
        ≡ true
  unfolding renew_row
  renewed_named e = any-update_where_written _ renews renewed db.jobs (λ x t. ground arith) e

  renewed_currents :
      any renews db.jobs ≡ true
      → IsSoundDb db
      → All
          (λ w. current_held (update_where renews renewed db.jobs) w ≡ true)
          (upsert_worker h.worker_id h.supported_types h.seen_at (some job_id) h.metrics db.workers)
  unfolding refresh
  renewed_currents e c =
      All-upsert_worker _ _ h.worker_id h.supported_types h.seen_at (some job_id) h.metrics
        db.workers (λ w t p. rw (==→≡ w.id h.worker_id t) (renewed_named e)) (λ w p. p)
        (renewed_named e) (All-map_where _ _ db.workers renewed_held c.currents)

  renew-IsSoundDb : IsSoundDb db → IsSoundDb (renew h job_id token db).0
  unfolding renew
  renew-IsSoundDb c = elim (Option-cases (find renews db.jobs)) [
    | inl e ↦ rw (e, renew) c
    | inr (row, e) ↦
        rw (e, renew)
          (IsConsistent-update_where db.jobs renews renewed {workers = db.workers}
            (λ x t s. renew_row-IsSound h.lease_expires_at h.seen_at x (ground arith) s)
            (λ x i t. unfold renew_row in t) (λ x w t s r. unfold renew_row in r) c
            (renewed_currents (any-find renews db.jobs e) c))
  ]

-- Every heartbeat, accepted or refused, keeps the tables consistent.
pub heartbeat-IsSoundDb :
    (h : HeartbeatRequest) (db : Database) → IsSoundDb db → IsSoundDb (heartbeat h db).0
unfolding heartbeat
heartbeat-IsSoundDb h db c = elim (Option-cases h.current_job_id) [
  | inl e ↦ rw (e, heartbeat) (seen_idle h db c)
  | inr (job_id, e) ↦ elim (Option-cases h.lease_token) [
    | inl f ↦ rw (e, f, heartbeat) (seen_idle h db c)
    | inr (token, f) ↦ rw (e, f, heartbeat) (renew-IsSoundDb h job_id token db c)
  ]
]

module _ (job_id now : ℕ) (db : Database) (c : IsSoundDb db) where
  cancel_queued-IsSoundDb : IsSoundDb (record db {
    jobs = update_where (has_id_status job_id JobStatus.queued) (cancel_queued_row now) db.jobs;
  })
  cancel_queued-IsSoundDb =
      IsConsistent-update_where db.jobs (has_id_status job_id JobStatus.queued)
        (cancel_queued_row now) {workers = db.workers}
        (λ x t s. cancel_queued_row-IsSound now x (ground arith) s)
        (λ x i t. unfold cancel_queued_row in t)
        (λ x w t s r. unfold cancel_queued_row in ground arith) c
        (All-map_where _ _ db.workers
          (λ w.
            current_held-update_where db.jobs (has_id_status job_id JobStatus.queued)
              (cancel_queued_row now) w (λ x i e t. unfold cancel_queued_row in ground arith))
          c.currents)

  cancel_running-IsSoundDb : IsSoundDb (record db {
    jobs = update_where (has_id_status job_id JobStatus.running) (request_cancel_row now) db.jobs;
  })
  cancel_running-IsSoundDb =
      IsConsistent-update_where db.jobs (has_id_status job_id JobStatus.running)
        (request_cancel_row now) {workers = db.workers}
        (λ x t s. request_cancel_row-IsSound now x (ground arith) s)
        (λ x i t. unfold request_cancel_row in t) (λ x w t s r. unfold request_cancel_row in r) c
        (All-map_where _ _ db.workers
          (λ w.
            current_held-update_where db.jobs (has_id_status job_id JobStatus.running)
              (request_cancel_row now) w (λ x i e t. unfold request_cancel_row in e))
          c.currents)

  cancel_in-IsSoundDb :
      (status : JobStatus) (row : JobRow) → IsSoundDb (cancel_in status job_id now row db).0
  unfolding cancel_in
  cancel_in-IsSoundDb JobStatus.queued row = cancel_queued-IsSoundDb
  cancel_in-IsSoundDb JobStatus.running row = cancel_running-IsSoundDb
  cancel_in-IsSoundDb _ row = c

  -- Every cancellation keeps the tables consistent.
  pub cancel-IsSoundDb : IsSoundDb (cancel job_id now db).0
  unfolding cancel
  cancel-IsSoundDb = elim (Option-cases (find (has_id job_id) db.jobs)) [
    | inl e ↦ rw (e, cancel) c
    | inr (row, e) ↦ rw (e, cancel) (cancel_in-IsSoundDb row.status row)
  ]

module _ (job_id worker_id token now : ℕ) (o : Outcome) (db : Database) where
  abbrev finishes : JobRow → Bool
  finishes = may_finish job_id worker_id token now o.allow_cancellation

  -- The reporting worker is freed, and no other worker's current job is the finished one.
  finished_currents :
      IsSoundDb db
      → All
          (λ w. current_held (update_where finishes (finish_row now o) db.jobs) w ≡ true)
          (set_current worker_id none db.workers)
  finished_currents c =
      All-set_current _ _ worker_id none db.workers (λ w t p. refl)
        (λ w t p.
          current_held-update_where db.jobs finishes (finish_row now o) w (λ x i e f. ground arith)
            p)
        c.currents

  finish-IsSoundDb :
      ((x : JobRow) → finishes x ≡ true → IsSound x → IsSound (finish_row now o x))
      → same_status o.status JobStatus.running ≡ false
      → IsSoundDb db
      → IsSoundDb (finish job_id worker_id token now o db).0
  unfolding finish
  finish-IsSoundDb sound stopped c = elim (Option-cases (find finishes db.jobs)) [
    | inl e ↦ rw (e, finish) c
    | inr (row, e) ↦
        rw (e, finish)
          (IsConsistent-update_where db.jobs finishes (finish_row now o) {workers = db.workers}
            sound (λ x i t. unfold finish_row in t) (λ x w t s r. unfold finish_row in cc) c
            (finished_currents c))
  ]

-- Every report of a completed job keeps the tables consistent.
pub complete-IsSoundDb :
    (job_id worker_id token : ℕ) (result : JobResult) (now : ℕ) (db : Database)
    → IsSoundDb db
    → IsSoundDb (complete job_id worker_id token result now db).0
unfolding complete
complete-IsSoundDb job_id worker_id token result now db c =
    finish-IsSoundDb job_id worker_id token now (completed_with result) db
      (λ x t s. complete_row-IsSound now result x (ground arith) (ground arith) s) refl c

-- Every report of a failed job keeps the tables consistent.
pub fail-IsSoundDb :
    (job_id worker_id token : ℕ) (error : String) (kind : FailureKind) (now : ℕ) (db : Database)
    → IsSoundDb db
    → IsSoundDb (fail job_id worker_id token error kind now db).0
unfolding fail
fail-IsSoundDb job_id worker_id token error kind now db c =
    finish-IsSoundDb job_id worker_id token now (failed_with error kind) db
      (λ x t s. fail_row-IsSound now error kind x (ground arith) s) refl c
