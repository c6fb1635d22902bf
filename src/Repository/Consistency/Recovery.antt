-- ===== src/Repository/Consistency/Recovery.antt =====
-- Recovery keeps the tables consistent.
use computecluster.Prelude.{
  ℕ, true, false, List, [], ◌∷◌, ◌≡◌, refl, arith, ◌&&◌, any, map, Option-cases, inl, inr, All-map,
  count_by-map_le, All-update_where,
}
use computecluster.Repository.Tables.{JobRow, WorkerRow, Database, has_id}
use computecluster.Repository.Rows.{IsSound, settle-IsSound}
use computecluster.Repository.Recovery.{
  holds_expired, free_worker, recover_jobs, recover_expired, cancel_expired, fail_expired,
  requeue_expired,
}
use computecluster.Repository.Recovery.Settle.{settle, recover_jobs-settle}
use computecluster.Repository.Consistency.{runs_on, current_held, IsSoundDb}

module _ (now : ℕ) (jobs : List JobRow) where
  -- A worker that holds no expired job keeps the job that it holds.
  settled_held :
      (i w : ℕ) (js : List JobRow)
      → any (λ j. has_id i j && runs_on w j) js ≡ true
      → holds_expired now js w ≡ false
      → any (λ j. has_id i j && runs_on w j) (map (settle now) js) ≡ true
  unfolding any settle cancel_expired fail_expired requeue_expired
  settled_held i w [] h e = h
  settled_held i w (j ∷ js) h e = ground (arith, settled_held i w js)

  settled_current :
      (w : WorkerRow)
      → holds_expired now jobs w.id ≡ false
      → current_held jobs w ≡ true
      → current_held (recover_jobs now jobs) w ≡ true
  settled_current w e c = elim (Option-cases w.current_job_id) [
    | inl n ↦ rw (n, current_held) refl
    | inr (i, s) ↦
        rw (s, current_held, recover_jobs-settle)
          (settled_held i w.id jobs (rw (s, current_held) at c) e)
  ]

settle_same_id : (now : ℕ) (x : JobRow) (i : ℕ) → has_id i (settle now x) ≡ true → has_id i x ≡ true
unfolding settle cancel_expired fail_expired requeue_expired
settle_same_id now x i h = ground arith

settle_no_holder :
    (now : ℕ) (x : JobRow) (w : ℕ) → runs_on w (settle now x) ≡ true → runs_on w x ≡ true
unfolding settle cancel_expired fail_expired requeue_expired
settle_no_holder now x w h = ground arith

-- Recovery keeps the tables consistent.
pub recover_expired-IsSoundDb :
    (now : ℕ) (db : Database) → IsSoundDb db → IsSoundDb (recover_expired now db).0
unfolding recover_expired
recover_expired-IsSoundDb now db c = record {
  rows =
      rw recover_jobs-settle
        (All-map IsSound IsSound (settle now) db.jobs (settle-IsSound now) c.rows);
  ids = λ i. rw recover_jobs-settle (
      omega (
        arith,
        count_by-map_le (has_id i) (settle now) db.jobs (λ x. settle_same_id now x i),
        c.ids i,
      ));
  holders = λ w. rw recover_jobs-settle (
      omega (
        arith,
        count_by-map_le (runs_on w) (settle now) db.jobs (λ x. settle_no_holder now x w),
        c.holders w,
      ));
  currents =
      All-update_where _ _ (λ w. holds_expired now db.jobs w.id) free_worker db.workers
        (λ w _ _. unfold free_worker in refl) (λ w e p. settled_current now db.jobs w e p)
        c.currents;
}
