-- ===== src/Repository/Workers/Rows.antt =====
-- A property of worker rows behind the writes of the workers table.
use computecluster.Prelude.{
  ℕ, String, true, false, Option, List, ◌≡◌, All, any, All-append, All-map_where, All-update_where,
  update_where, Bool-cases, inl, inr,
}
use computecluster.Models.Enums.{JobType}
use computecluster.Repository.Tables.{WorkerRow}
use computecluster.Repository.Workers.{is_worker, refresh, new_worker, upsert_worker, set_current}

module _ {κ} (P Q : WorkerRow → Type κ) where
  -- The written row has `Q` whatever it was, and every other row keeps what it had.
  pub All-upsert_worker :
      (worker_id : ℕ) (supported : List JobType) (seen_at : ℕ) (current : Option ℕ)
      (metrics : Option String) (workers : List WorkerRow)
      → ((w : WorkerRow)
          → is_worker worker_id w ≡ true
          → P w
          → Q (refresh supported seen_at current metrics w))
      → ((w : WorkerRow) → P w → Q w)
      → Q (new_worker worker_id supported seen_at current metrics)
      → All P workers
      → All Q (upsert_worker worker_id supported seen_at current metrics workers)
  unfolding upsert_worker
  All-upsert_worker worker_id supported seen_at current metrics workers written kept new a =
      elim (Bool-cases (any (is_worker worker_id) workers)) [
        | inl e ↦ rw e (
            All-update_where P Q (is_worker worker_id) (refresh supported seen_at current metrics)
              workers written (λ w _ p. kept w p) a)
        | inr e ↦ rw e (All-append Q workers _ (All-map_where P Q workers kept a) (new, tt))
      ]

  pub All-set_current :
      (worker_id : ℕ) (current : Option ℕ) (workers : List WorkerRow)
      → ((w : WorkerRow)
          → is_worker worker_id w ≡ true
          → P w
          → Q (record w { current_job_id = current }))
      → ((w : WorkerRow) → is_worker worker_id w ≡ false → P w → Q w)
      → All P workers
      → All Q (set_current worker_id current workers)
  unfolding set_current
  All-set_current worker_id current workers written kept a =
      All-update_where P Q (is_worker worker_id) _ workers written kept a

-- An UPDATE of one worker keeps what the written columns do not touch.
pub All-update_worker {κ} :
    (P : WorkerRow → Type κ) (worker_id : ℕ) (f : WorkerRow → WorkerRow) (workers : List WorkerRow)
    → ((w : WorkerRow) → P w → P (f w))
    → All P workers
    → All P (update_where (is_worker worker_id) f workers)
All-update_worker P worker_id f workers h a =
    All-update_where P P (is_worker worker_id) f workers (λ w _ p. h w p) (λ w _ p. p) a
