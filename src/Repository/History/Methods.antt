-- ===== src/Repository/History/Methods.antt =====
-- Each method of the repository grows the jobs table.
use computecluster.Prelude.{
  ℕ, String, List, arith, find, update_where, Option-cases, Bool-cases, inl, inr,
}
use computecluster.Models.Enums.{JobStatus, FailureKind}
use computecluster.Models.Parameters.{JobResult}
use computecluster.Repository.Tables.{JobRow, Database, has_id}
use computecluster.Repository.Recovery.{
  recover_expired, cancel_expired, fail_expired, requeue_expired,
}
use computecluster.Repository.Recovery.Settle.{settle, recover_jobs-settle, jobs-recover_expired}
use computecluster.Repository.Workers.{is_worker}
use computecluster.Repository.Claim.{
  ClaimRequest, active_job, lease_row, is_queued_id, first_preferred, cutoff_of, candidates,
  claim_queued, claim_enabled, register, claim,
}
use computecluster.Repository.Lease.{
  HeartbeatRequest, Outcome, holds_lease, renew_row, renew, heartbeat, has_id_status,
  cancel_queued_row, request_cancel_row, cancel_in, cancel, may_finish, finish_row, finish,
  complete, fail, completed_with, failed_with,
}
use computecluster.Repository.History.Growth.{
  Evolves, Grows, Grows-refl, Grows-trans, Grows-map, Grows-update_where,
}

settle-Evolves : (now : ℕ) (x : JobRow) → Evolves x (settle now x)
unfolding settle cancel_expired fail_expired requeue_expired
settle-Evolves now x = ground arith

pub recover-Grows : (now : ℕ) (db : Database) → Grows db.jobs (recover_expired now db).0.jobs
recover-Grows now db =
    rw (jobs-recover_expired, recover_jobs-settle)
      (Grows-map (settle now) db.jobs (settle-Evolves now))

module _ (r : ClaimRequest) where
  leased-Grows :
      (i : ℕ) (jobs : List JobRow)
      → Grows jobs (
          update_where
            (is_queued_id i)
            (lease_row r.worker_id r.claimed_at r.lease_token r.lease_expires_at)
            jobs)
  unfolding lease_row
  leased-Grows i jobs = Grows-update_where (is_queued_id i) _ jobs (λ x e. ground arith)

  claim_queued-Grows : (db : Database) → Grows db.jobs (claim_queued r db).0.jobs
  unfolding claim_queued
  claim_queued-Grows db =
      elim (Option-cases (
        first_preferred r.worker_id db.workers (cutoff_of r.stale_before r.claimed_at) db.jobs
          (candidates r.worker_id r.supported_types db.jobs))) [
            | inl e ↦ rw (e, claim_queued) (Grows-refl db.jobs)
            | inr (row, e) ↦ rw (e, claim_queued) (leased-Grows row.id db.jobs)
          ]

  claim_enabled-Grows : (db : Database) → Grows db.jobs (claim_enabled r db).0.jobs
  unfolding claim_enabled
  claim_enabled-Grows db = elim (Option-cases (active_job r.worker_id r.claimed_at db.jobs)) [
    | inl e ↦ rw (e, claim_enabled) (claim_queued-Grows db)
    | inr (j, e) ↦ rw (e, claim_enabled) (Grows-refl db.jobs)
  ]

  pub claim-Grows : (db : Database) → Grows db.jobs (claim r db).0.jobs
  unfolding claim register
  claim-Grows db =
      elim (Option-cases
        (find (is_worker r.worker_id) (recover_expired r.claimed_at db).0.workers)) [
          | inl e ↦ rw (e, claim) (recover-Grows r.claimed_at db)
          | inr (w, e) ↦ elim (Bool-cases w.enabled) [
            | inl on ↦
                rw (e, claim, on)
                  (Grows-trans db.jobs (recover_expired r.claimed_at db).0.jobs _
                    (recover-Grows r.claimed_at db)
                    (claim_enabled-Grows (register r (recover_expired r.claimed_at db).0)))
            | inr off ↦ rw (e, claim, off) (recover-Grows r.claimed_at db)
          ]
        ]

renew-Grows :
    (h : HeartbeatRequest) (job_id token : ℕ) (db : Database)
    → Grows db.jobs (renew h job_id token db).0.jobs
unfolding renew renew_row
renew-Grows h job_id token db =
    elim (Option-cases (find (holds_lease job_id h.worker_id token h.seen_at) db.jobs)) [
      | inl e ↦ rw (e, renew) (Grows-refl db.jobs)
      | inr (row, e) ↦
          rw (e, renew)
            (Grows-update_where (holds_lease job_id h.worker_id token h.seen_at) _ db.jobs
              (λ x t. ground arith))
    ]

pub heartbeat-Grows : (h : HeartbeatRequest) (db : Database) → Grows db.jobs (heartbeat h db).0.jobs
unfolding heartbeat
heartbeat-Grows h db = elim (Option-cases h.current_job_id) [
  | inl e ↦ rw (e, heartbeat) (Grows-refl db.jobs)
  | inr (job_id, e) ↦ elim (Option-cases h.lease_token) [
    | inl f ↦ rw (e, f, heartbeat) (Grows-refl db.jobs)
    | inr (token, f) ↦ rw (e, f, heartbeat) (renew-Grows h job_id token db)
  ]
]

cancel_in-Grows :
    (status : JobStatus) (job_id now : ℕ) (row : JobRow) (db : Database)
    → Grows db.jobs (cancel_in status job_id now row db).0.jobs
unfolding cancel_in cancel_queued_row request_cancel_row
cancel_in-Grows JobStatus.queued job_id now row db =
    Grows-update_where (has_id_status job_id JobStatus.queued) _ db.jobs (λ x t. ground arith)
cancel_in-Grows JobStatus.running job_id now row db =
    Grows-update_where (has_id_status job_id JobStatus.running) _ db.jobs (λ x t. ground arith)
cancel_in-Grows _ job_id now row db = Grows-refl db.jobs

pub cancel-Grows : (job_id now : ℕ) (db : Database) → Grows db.jobs (cancel job_id now db).0.jobs
unfolding cancel
cancel-Grows job_id now db = elim (Option-cases (find (has_id job_id) db.jobs)) [
  | inl e ↦ rw (e, cancel) (Grows-refl db.jobs)
  | inr (row, e) ↦ rw (e, cancel) (cancel_in-Grows row.status job_id now row db)
]

pub finish-Grows :
    (job_id worker_id token now : ℕ) (o : Outcome) (db : Database)
    → Grows db.jobs (finish job_id worker_id token now o db).0.jobs
unfolding finish finish_row
finish-Grows job_id worker_id token now o db =
    elim (Option-cases
      (find (may_finish job_id worker_id token now o.allow_cancellation) db.jobs)) [
        | inl e ↦ rw (e, finish) (Grows-refl db.jobs)
        | inr (row, e) ↦
            rw (e, finish)
              (Grows-update_where (may_finish job_id worker_id token now o.allow_cancellation) _
                db.jobs (λ x t. ground arith))
      ]

pub complete-Grows :
    (job_id worker_id token : ℕ) (result : JobResult) (now : ℕ) (db : Database)
    → Grows db.jobs (complete job_id worker_id token result now db).0.jobs
unfolding complete
complete-Grows job_id worker_id token result now db =
    finish-Grows job_id worker_id token now (completed_with result) db

pub fail-Grows :
    (job_id worker_id token : ℕ) (error : String) (kind : FailureKind) (now : ℕ) (db : Database)
    → Grows db.jobs (fail job_id worker_id token error kind now db).0.jobs
unfolding fail
fail-Grows job_id worker_id token error kind now db =
    finish-Grows job_id worker_id token now (failed_with error kind) db
