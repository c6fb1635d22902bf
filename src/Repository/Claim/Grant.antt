-- ===== src/Repository/Claim/Grant.antt =====
-- What a claim that returns a job has granted.
use computecluster.Prelude.{
  ℕ, ◌<◌, true, some, List, [], ◌∷◌, ◌≡◌, arith, ◌&&◌, any, find, column_gt, update_where,
  Option-cases, Bool-cases, inl, inr, find-holds,
}
use computecluster.Models.Enums.{JobStatus}
use computecluster.Models.Records.{JobRead}
use computecluster.Repository.Tables.{JobRow, WorkerRow, Database}
use computecluster.Repository.Recovery.{recover_expired, holds_expired, free_worker}
use computecluster.Repository.Workers.{is_worker}
use computecluster.Repository.Claim.{
  ClaimRequest, is_active, active_job, lease_row, first_preferred, cutoff_of, candidates,
  claim_queued, claim_enabled, register, claim,
}

-- The job runs on the claiming worker under a lease that is live, and under a token.
pub record IsGranted (r : ClaimRequest) (job : JobRead) : Type 0 where
  pub running : job.status ≡ JobStatus.running
  pub worker : job.worker_id ≡ some r.worker_id
  pub live : column_gt job.lease_expires_at r.claimed_at ≡ true

module _ (r : ClaimRequest) (ahead : r.claimed_at < r.lease_expires_at) where
  claim_queued-IsGranted :
      (db : Database) (job : JobRead) → (claim_queued r db).1 ≡ some job → IsGranted r job
  unfolding claim_queued lease_row
  claim_queued-IsGranted db job e =
      elim (Option-cases (
        first_preferred r.worker_id db.workers (cutoff_of r.stale_before r.claimed_at) db.jobs
          (candidates r.worker_id r.supported_types db.jobs))) [
            | inl n ↦ ground arith
            | inr (row, f) ↦ ground arith
          ]

  claim_enabled-IsGranted :
      (db : Database) (job : JobRead) → (claim_enabled r db).1 ≡ some job → IsGranted r job
  unfolding claim_enabled active_job
  claim_enabled-IsGranted db job e =
      elim (Option-cases (active_job r.worker_id r.claimed_at db.jobs)) [
        | inl n ↦ ground (arith, claim_queued-IsGranted db job)
        | inr (row, f) ↦ ground (arith, find-holds (is_active r.worker_id r.claimed_at) _ f)
      ]

  enabled_before :
      (now : ℕ) (jobs : List JobRow) (ws : List WorkerRow) (w : WorkerRow)
      → find
          (is_worker r.worker_id)
          (update_where (λ v. holds_expired now jobs v.id) free_worker ws)
        ≡ some w
      → w.enabled ≡ true
      → any (λ v. is_worker r.worker_id v && v.enabled) ws ≡ true
  unfolding find update_where free_worker any
  enabled_before now jobs [] w e on = cc
  enabled_before now jobs (v ∷ vs) w e on = ground (arith, enabled_before now jobs vs w)

  -- A claim whose lease ends after its own time returns a job only to a worker that is registered and
  -- enabled, and the job then runs on that worker under a live lease, whether it was leased now or was
  -- held before.
  pub claim-IsGranted :
      (db : Database) (job : JobRead)
      → (claim r db).1 ≡ some job
      → IsGranted r job × (any (λ w. is_worker r.worker_id w && w.enabled) db.workers ≡ true)
  unfolding claim recover_expired
  claim-IsGranted db job e =
      elim (Option-cases
        (find (is_worker r.worker_id) (recover_expired r.claimed_at db).0.workers)) [
          | inl n ↦ ground arith
          | inr (w, f) ↦ elim (Bool-cases w.enabled) [
            | inl on ↦ (
              claim_enabled-IsGranted (register r (recover_expired r.claimed_at db).0) job
                  (rw (f, claim, on) at e),
              enabled_before r.claimed_at db.jobs db.workers w f on,
            )
            | inr off ↦ ground arith
          ]
        ]
