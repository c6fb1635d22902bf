-- ===== src/Repository/Recovery/Settle.antt =====
-- The three UPDATE statements of _recover_expired against a description that decides each row once.
use computecluster.Prelude.{
  ℕ, ◌+◌, false, List, [], ◌∷◌, ◌≡◌, refl, ap, arith, leb, if◌then◌else◌, map, count_by,
  update_where,
}
use mathlib.Core.Path.{ap₂}
use computecluster.Repository.Tables.{JobRow, Database}
use computecluster.Repository.Recovery.{
  expired, cancelled_when, exhausted_when, requeued_when, cancel_expired, fail_expired,
  requeue_expired, recover_jobs, recover_expired,
}

-- What should happen to one row when leases are recovered at `now`.
unfoldable pub settle : ℕ → JobRow → JobRow
settle now j =
    if expired now j
    then if j.cancellation_requested
      then cancel_expired now j
      else if leb j.max_attempts j.attempt
      then fail_expired now j
      else requeue_expired now j
    else j

-- One row under the three statements.
three_statements :
    (now : ℕ) (j : JobRow) (js : List JobRow)
    → recover_jobs now (j ∷ js) ≡ settle now j ∷ recover_jobs now js
unfolding recover_jobs update_where settle cancel_expired fail_expired requeue_expired
three_statements now j js = ground arith

-- Recovery settles every row, once, by its own expiry, cancellation and attempts.
pub recover_jobs-settle :
    (now : ℕ) (jobs : List JobRow) → recover_jobs now jobs ≡ map (settle now) jobs
recover_jobs-settle now [] = unfold recover_jobs update_where in refl
recover_jobs-settle now (j ∷ js) =
    rw three_statements (ap (λ l. settle now j ∷ l) (recover_jobs-settle now js))

pub expired-settle : (now : ℕ) (j : JobRow) → expired now (settle now j) ≡ false
unfolding settle cancel_expired fail_expired requeue_expired
expired-settle now j = ground arith

none_expired : (now : ℕ) (jobs : List JobRow) → count_by (expired now) (map (settle now) jobs) ≡ 0
unfolding count_by
none_expired now [] = refl
none_expired now (j ∷ js) = ground (arith, expired-settle now j, none_expired now js)

pub count_expired-recover_jobs :
    (now : ℕ) (jobs : List JobRow) → count_by (expired now) (recover_jobs now jobs) ≡ 0
count_expired-recover_jobs now jobs = rw recover_jobs-settle (none_expired now jobs)

counts :
    (now : ℕ) (jobs : List JobRow)
    → count_by (cancelled_when now) jobs
        + count_by
            (exhausted_when now)
            (update_where (cancelled_when now) (cancel_expired now) jobs)
        + count_by (requeued_when now) (
            update_where
              (exhausted_when now)
              (fail_expired now)
              (update_where (cancelled_when now) (cancel_expired now) jobs))
      ≡ count_by (expired now) jobs
unfolding count_by update_where cancel_expired fail_expired
counts now [] = refl
counts now (j ∷ js) = ground (arith, counts now js)

-- The number that recovery reports is the number of running jobs whose lease had expired.
pub recover_expired-count :
    (now : ℕ) (db : Database) → (recover_expired now db).1 ≡ count_by (expired now) db.jobs
unfolding recover_expired
recover_expired-count now db = counts now db.jobs

pub settle_idle : (now : ℕ) (j : JobRow) → expired now j ≡ false → settle now j ≡ j
unfolding settle
settle_idle now j h = ground arith

map-settle_twice :
    (now : ℕ) (jobs : List JobRow)
    → map (settle now) (map (settle now) jobs) ≡ map (settle now) jobs
map-settle_twice now [] = refl
map-settle_twice now (j ∷ js) =
    ap₂ ◌∷◌ (settle_idle now (settle now j) (expired-settle now j)) (map-settle_twice now js)

pub jobs-recover_expired :
    (now : ℕ) (db : Database) → (recover_expired now db).0.jobs ≡ recover_jobs now db.jobs
unfolding recover_expired
jobs-recover_expired now db = refl

-- After recovery no lease is expired: a second recovery at the same time reports 0 and changes
-- no job.
pub recover_expired_twice :
    (now : ℕ) (db : Database)
    → ((recover_expired now (recover_expired now db).0).1 ≡ 0)
      × ((recover_expired now (recover_expired now db).0).0.jobs ≡ (recover_expired now db).0.jobs)
recover_expired_twice now db = (
  rw (recover_expired-count, jobs-recover_expired) (count_expired-recover_jobs now db.jobs),
  simp (jobs-recover_expired, recover_jobs-settle) (map-settle_twice now db.jobs),
)
