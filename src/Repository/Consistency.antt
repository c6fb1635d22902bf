-- ===== src/Repository/Consistency.antt =====
-- What holds of the jobs and workers tables between two transactions, and lemmas on the updates
-- that keep it.
pub mod Lease
pub mod Recovery
pub mod Claim
pub mod Submit
use computecluster.Prelude.{
  ℕ, ◌+◌, ◌≤◌, Bool, true, false, Option, none, some, List, [], ◌∷◌, ◌++◌, ◌≡◌, refl, sym, arith,
  ◌&&◌, ◌==◌, All, any, count_by, update_where, find, column_eq, is_none, All-update_where,
  count_by-update_where_le, any-update_where, ==→≡,
}
use computecluster.Repository.Tables.{JobRow, WorkerRow, Database, has_id, is_running}
use computecluster.Repository.Rows.{IsSound}

-- The job runs, and this worker holds it.
abbrev pub runs_on : ℕ → JobRow → Bool
runs_on worker_id j = is_running j && column_eq j.worker_id worker_id

-- The job that a worker row calls current is one that it holds.
abbrev pub current_held : List JobRow → WorkerRow → Bool
current_held jobs w = elim w.current_job_id [
  | none ↦ true
  | some i ↦ any (λ j. has_id i j && runs_on w.id j) jobs
]

pub record IsConsistent (jobs : List JobRow) (workers : List WorkerRow) : Type 0 where
  pub rows : All IsSound jobs
  pub ids : (i : ℕ) → count_by (has_id i) jobs ≤ 1
  -- a worker holds one job at most
  pub holders : (w : ℕ) → count_by (runs_on w) jobs ≤ 1
  pub currents : All (λ w. current_held jobs w ≡ true) workers

module _ (jobs : List JobRow) (p : JobRow → Bool) (f : JobRow → JobRow) where
  -- A worker's current job is still held behind an update that keeps the rows it holds.
  pub current_held-update_where :
      (w : WorkerRow)
      → ((x : JobRow) (i : ℕ)
          → (has_id i x && runs_on w.id x) ≡ true
          → p x ≡ true
          → (has_id i (f x) && runs_on w.id (f x)) ≡ true)
      → current_held jobs w ≡ true
      → current_held (update_where p f jobs) w ≡ true
  current_held-update_where w h c = go w.current_job_id h c
    where
      go :
          (o : Option ℕ)
          → ((x : JobRow) (i : ℕ)
              → (has_id i x && runs_on w.id x) ≡ true
              → p x ≡ true
              → (has_id i (f x) && runs_on w.id (f x)) ≡ true)
          → (elim o [ none ↦ true | some i ↦ any (λ j. has_id i j && runs_on w.id j) jobs ]) ≡ true
          → (elim o [
            | none ↦ true
            | some i ↦ any (λ j. has_id i j && runs_on w.id j) (update_where p f jobs)
          ])
            ≡ true
      go none h c = refl
      go (some i) h c =
          any-update_where (λ j. has_id i j && runs_on w.id j) p f jobs (λ x e t. h x i e t) c

  pub IsConsistent-update_where :
      {workers workers' : List WorkerRow}
      → ((x : JobRow) → p x ≡ true → IsSound x → IsSound (f x))
      → ((x : JobRow) (i : ℕ) → has_id i (f x) ≡ true → has_id i x ≡ true)
      → ((x : JobRow) (w : ℕ)
          → p x ≡ true
          → IsSound x
          → runs_on w (f x) ≡ true
          → runs_on w x ≡ true)
      → IsConsistent jobs workers
      → All (λ w. current_held (update_where p f jobs) w ≡ true) workers'
      → IsConsistent (update_where p f jobs) workers'
  IsConsistent-update_where sound same_id no_holder c currents = record {
    rows = All-update_where IsSound IsSound p f jobs sound (λ x _ s. s) c.rows;
    ids = λ i. omega (
      arith,
      count_by-update_where_le IsSound (has_id i) p f jobs (λ x _ _. same_id x i) c.rows,
      c.ids i,
    );
    holders = λ w. omega (
      arith,
      count_by-update_where_le IsSound (runs_on w) p f jobs (λ x t s. no_holder x w t s) c.rows,
      c.holders w,
    );
    currents = currents;
  }

abbrev pub IsSoundDb : Database → Type 0
IsSoundDb db = IsConsistent db.jobs db.workers
