-- ===== src/Repository/Consistency/Claim.antt =====
-- Claims keep the tables consistent.
use computecluster.Prelude.{
  ℕ, ◌+◌, ◌≤◌, true, none, some, List, [], ◌∷◌, ◌≡◌, refl, sym, arith, ◌&&◌, ◌==◌, All, any, find,
  ap, ◌∙◌, any-sort_by, any-found, ==_refl, count_by, update_where, any-update_where_written,
  Option-cases, Bool-cases, inl, inr, ==→≡, All-update_where, count_by-eq-zero, count_by-sort_by,
  count_by_mono, count_by-update_where_le, count_by-update_where_add, find-holds,
}
use computecluster.Repository.Tables.{JobRow, WorkerRow, Database, has_id}
use computecluster.Repository.Rows.{IsSound, lease_row-IsSound}
use computecluster.Repository.Recovery.{expired, recover_expired}
use computecluster.Repository.Recovery.Settle.{jobs-recover_expired, count_expired-recover_jobs}
use computecluster.Repository.Workers.{is_worker, refresh, set_current}
use computecluster.Repository.Workers.Rows.{All-upsert_worker, All-set_current}
use computecluster.Repository.Claim.{
  ClaimRequest, is_active, active_job, lease_row, is_queued_id, first_preferred, cutoff_of,
  candidates, claim_queued, claim_enabled, register, claim, column_before,
}
use computecluster.Repository.Consistency.Recovery.{recover_expired-IsSoundDb}
use computecluster.Repository.Consistency.{
  runs_on, current_held, IsSoundDb, current_held-update_where,
}

module _ (r : ClaimRequest) (db : Database) where
  pub register-IsSoundDb : IsSoundDb db → IsSoundDb (register r db)
  unfolding register refresh
  register-IsSoundDb c = record {
    rows = c.rows;
    ids = c.ids;
    holders = c.holders;
    currents =
        All-upsert_worker _ _ r.worker_id r.supported_types r.claimed_at none r.metrics db.workers
          (λ w _ _. refl) (λ w e. e) refl c.currents;
  }

  abbrev leases : JobRow → JobRow
  leases = lease_row r.worker_id r.claimed_at r.lease_token r.lease_expires_at

  -- A running job of a consistent table has an expired or a live lease.
  running_split :
      (w : ℕ) (js : List JobRow)
      → All IsSound js
      → count_by (runs_on w) js
        ≤ count_by (is_active w r.claimed_at) js + count_by (expired r.claimed_at) js
  unfolding count_by
  running_split w [] s = omega arith
  running_split w (j ∷ js) s = ground (arith, s.0.expiry_iff_running, running_split w js s.1)

  module _ (c : IsSoundDb db) (idle : count_by (runs_on r.worker_id) db.jobs ≡ 0) (i : ℕ)
      (waits : any (is_queued_id i) db.jobs ≡ true) where
    leased_holders :
        (w : ℕ) → count_by (runs_on w) (update_where (is_queued_id i) leases db.jobs) ≤ 1
    unfolding lease_row
    leased_holders w = elim (Bool-cases (w == r.worker_id)) [
      | inl same ↦
          let e : w ≡ r.worker_id = ==→≡ w r.worker_id same in
          omega (
            arith,
            ap (λ (v : ℕ). count_by (runs_on v) db.jobs) e,
            count_by-update_where_add (runs_on w) (is_queued_id i) leases db.jobs,
            count_by_mono IsSound (is_queued_id i) (has_id i) db.jobs (λ x _ q. ground arith)
                c.rows,
            c.ids i,
          )
      | inr other ↦ omega (
        arith,
        count_by-update_where_le IsSound (runs_on w) (is_queued_id i) leases db.jobs
            (λ x q _ h. ground arith) c.rows,
        c.holders w,
      )
    ]

    leased_named :
        any
          (λ j. has_id i j && runs_on r.worker_id j)
          (update_where (is_queued_id i) leases db.jobs)
        ≡ true
    unfolding lease_row
    leased_named =
        any-update_where_written _ (is_queued_id i) leases db.jobs (λ x q. ground arith) waits

    leased_currents :
        All
          (λ w. current_held (update_where (is_queued_id i) leases db.jobs) w ≡ true)
          (set_current r.worker_id (some i) db.workers)
    unfolding lease_row
    leased_currents =
        All-set_current _ _ r.worker_id (some i) db.workers
          (λ w t p. rw (==→≡ w.id r.worker_id t) leased_named)
          (λ w t p.
            current_held-update_where db.jobs (is_queued_id i) leases w (λ x k e f. ground arith) p)
          c.currents

    leased-IsSoundDb : IsSoundDb (record db {
      jobs = update_where (is_queued_id i) leases db.jobs;
      workers = set_current r.worker_id (some i) db.workers;
    })
    leased-IsSoundDb = record {
      rows =
          All-update_where IsSound IsSound (is_queued_id i) leases db.jobs
            (λ x q s.
              lease_row-IsSound r.worker_id r.claimed_at r.lease_token r.lease_expires_at x
                (ground arith) (ground arith) s)
            (λ x _ s. s) c.rows;
      ids = λ k. omega (
        arith,
        count_by-update_where_le IsSound (has_id k) (is_queued_id i) leases db.jobs
            (λ x _ _ h. unfold lease_row in h) c.rows,
        c.ids k,
      );
      holders = leased_holders;
      currents = leased_currents;
    }

-- What the loop over the candidates returns is a queued row of the table.
pub first_preferred-queued :
    (worker_id : ℕ) (workers : List WorkerRow) (cutoff : ℕ) (jobs cs : List JobRow) (row : JobRow)
    → first_preferred worker_id workers cutoff jobs cs ≡ some row
    → (any (is_queued_id row.id) jobs ≡ true) × (is_queued_id row.id row ≡ true)
unfolding first_preferred
first_preferred-queued worker_id workers cutoff jobs [] row e = cc
first_preferred-queued worker_id workers cutoff jobs (k ∷ ks) row e =
    elim (Option-cases (find (is_queued_id k.id) jobs)) [
      | inl n ↦ ground (arith, first_preferred-queued worker_id workers cutoff jobs ks row)
      | inr (found, s) ↦ ground (
        arith,
        first_preferred-queued worker_id workers cutoff jobs ks row,
        find-holds (is_queued_id k.id) jobs s,
        any-found (is_queued_id k.id) (is_queued_id row.id) jobs row,
      )
    ]

module _ (r : ClaimRequest) (db : Database) (c : IsSoundDb db) where
  claim_queued-IsSoundDb :
      count_by (runs_on r.worker_id) db.jobs ≡ 0 → IsSoundDb (claim_queued r db).0
  unfolding claim_queued
  claim_queued-IsSoundDb idle =
      elim (Option-cases (
        first_preferred r.worker_id db.workers (cutoff_of r.stale_before r.claimed_at) db.jobs
          (candidates r.worker_id r.supported_types db.jobs))) [
            | inl e ↦ rw (e, claim_queued) c
            | inr (row, e) ↦
                rw (e, claim_queued)
                  (leased-IsSoundDb r db c idle row.id
                    (first_preferred-queued r.worker_id db.workers _ db.jobs _ row e).0)
          ]

  idle_when_not_active :
      count_by (expired r.claimed_at) db.jobs ≡ 0
      → active_job r.worker_id r.claimed_at db.jobs ≡ none
      → count_by (runs_on r.worker_id) db.jobs ≡ 0
  unfolding active_job
  idle_when_not_active fresh e = omega (
    arith,
    running_split r db r.worker_id db.jobs c.rows,
    count_by-eq-zero (is_active r.worker_id r.claimed_at) _ e,
    count_by-sort_by (is_active r.worker_id r.claimed_at)
        (λ i j. column_before i.started_at j.started_at) db.jobs,
  )

  active_held :
      (j : JobRow)
      → active_job r.worker_id r.claimed_at db.jobs ≡ some j
      → any (λ k. has_id j.id k && runs_on r.worker_id k) db.jobs ≡ true
  unfolding active_job
  active_held j e =
      sym (
        any-sort_by (λ k. has_id j.id k && runs_on r.worker_id k)
          (λ i k. column_before i.started_at k.started_at) db.jobs)
      ∙ any-found (is_active r.worker_id r.claimed_at) _ _ j e
          (ground (arith, find-holds (is_active r.worker_id r.claimed_at) _ e, ==_refl j.id))

  reclaim-IsSoundDb :
      (j : JobRow)
      → active_job r.worker_id r.claimed_at db.jobs ≡ some j
      → IsSoundDb (record db { workers = set_current r.worker_id (some j.id) db.workers })
  reclaim-IsSoundDb j e = record {
    rows = c.rows;
    ids = c.ids;
    holders = c.holders;
    currents =
        All-set_current _ _ r.worker_id (some j.id) db.workers
          (λ w t p. rw (==→≡ w.id r.worker_id t) (active_held j e)) (λ w _ p. p) c.currents;
  }

  claim_enabled-IsSoundDb :
      count_by (expired r.claimed_at) db.jobs ≡ 0 → IsSoundDb (claim_enabled r db).0
  unfolding claim_enabled
  claim_enabled-IsSoundDb fresh =
      elim (Option-cases (active_job r.worker_id r.claimed_at db.jobs)) [
        | inl e ↦ rw (e, claim_enabled) (claim_queued-IsSoundDb (idle_when_not_active fresh e))
        | inr (j, e) ↦ rw (e, claim_enabled) (reclaim-IsSoundDb j e)
      ]

-- Every claim keeps the tables consistent.
pub claim-IsSoundDb : (r : ClaimRequest) (db : Database) → IsSoundDb db → IsSoundDb (claim r db).0
unfolding claim
claim-IsSoundDb r db c =
    elim (Option-cases (find (is_worker r.worker_id) (recover_expired r.claimed_at db).0.workers)) [
      | inl e ↦ rw (e, claim) registered
      | inr (w, e) ↦ elim (Bool-cases w.enabled) [
        | inl on ↦ rw (e, claim, on) (claim_enabled-IsSoundDb r _ registered fresh)
        | inr off ↦ rw (e, claim, off) registered
      ]
    ]
  where
    registered : IsSoundDb (register r (recover_expired r.claimed_at db).0)
    registered =
        register-IsSoundDb r (recover_expired r.claimed_at db).0
          (recover_expired-IsSoundDb r.claimed_at db c)

    fresh :
        count_by (expired r.claimed_at) (register r (recover_expired r.claimed_at db).0).jobs ≡ 0
    fresh = rw jobs-recover_expired (count_expired-recover_jobs r.claimed_at db.jobs)
