-- ===== src/Repository/Consistency/Submit.antt =====
-- Submissions keep the tables consistent.
use computecluster.Prelude.{
  ℕ, String, true, false, Option, List, [], ◌∷◌, ◌++◌, ◌≡◌, refl, arith, ◌&&◌, All, any, count_by,
  Option-cases, inl, inr, All-map_where, All-append, ==→≡, count_by-append, any-append,
}
use computecluster.Models.Records.{JobRead, JobGroupRead}
use computecluster.Repository.Tables.{JobRow, WorkerRow, Database, has_id, is_running}
use computecluster.Repository.Rows.{IsSound, IsFresh, job_row-IsSound}
use computecluster.Repository.Submit.{AppOrigin, job_row, job_conflict, add, add_group}
use computecluster.Repository.Submit.Appends.{OnStored, add-keeps, add_group-keeps}
use computecluster.Repository.Consistency.{runs_on, current_held, IsConsistent, IsSoundDb}

appended_held :
    (jobs new : List JobRow) (w : WorkerRow)
    → current_held jobs w ≡ true
    → current_held (jobs ++ new) w ≡ true
appended_held jobs new w c = elim (Option-cases w.current_job_id) [
  | inl n ↦ rw (n, current_held) refl
  | inr (i, s) ↦
      rw (s, current_held)
        (any-append (λ j. has_id i j && runs_on w.id j) jobs new (rw (s, current_held) at c))
]

conflict_free_id :
    (row : JobRow) (jobs : List JobRow)
    → any (job_conflict row) jobs ≡ false
    → count_by (has_id row.id) jobs ≡ 0
unfolding any count_by job_conflict
conflict_free_id row [] e = refl
conflict_free_id row (j ∷ js) e = ground (arith, conflict_free_id row js)

module _ (row : JobRow) (jobs : List JobRow) (workers : List WorkerRow) where
  -- A new waiting row without a conflict.
  append-IsConsistent :
      IsSound row
      → is_running row ≡ false
      → any (job_conflict row) jobs ≡ false
      → IsConsistent jobs workers
      → IsConsistent (jobs ++ row ∷ []) workers
  append-IsConsistent s waits free c = record {
    rows = All-append IsSound jobs (row ∷ []) c.rows (s, tt);
    ids = λ i.
        rw (count_by-append (has_id i) jobs (row ∷ [])) (
          unfold count_by in
          ground (arith, c.ids i, conflict_free_id row jobs free, ==→≡ row.id i));
    holders = λ w.
        rw (count_by-append (runs_on w) jobs (row ∷ []))
          (unfold count_by in ground (arith, c.holders w));
    currents = All-map_where _ _ workers (appended_held jobs (row ∷ [])) c.currents;
  }

job_row_waits :
    (t : JobRead) (key : Option String) (g : Option ℕ) (owner : ℕ)
    → IsFresh t
    → is_running (job_row t key g owner) ≡ false
unfolding job_row
job_row_waits t key g owner f = ground arith

appended :
    (t : JobRead) (key : Option String) (g : Option ℕ) (owner : ℕ) (jobs : List JobRow)
    (workers : List WorkerRow)
    → IsFresh t
    → any (job_conflict (job_row t key g owner)) jobs ≡ false
    → IsConsistent jobs workers
    → IsConsistent (jobs ++ job_row t key g owner ∷ []) workers
appended t key g owner jobs workers f free =
    append-IsConsistent (job_row t key g owner) jobs workers (job_row-IsSound t key g owner f)
      (job_row_waits t key g owner f) free

-- A stored submission of a fresh job, new or replayed, keeps the tables consistent.
pub add-IsSoundDb :
    (job : JobRead) (key : Option String) (owner : ℕ) (db : Database)
    → IsFresh job
    → IsSoundDb db
    → OnStored IsSoundDb (add job key owner db)
add-IsSoundDb = add-keeps IsConsistent appended

-- A stored submission of a group of fresh jobs, new or replayed, by a user or by an app, keeps the
-- tables consistent.
pub add_group-IsSoundDb :
    (group : JobGroupRead) (request_json : String) (key : Option String) (owner : ℕ)
    (origin : Option AppOrigin) (db : Database)
    → All IsFresh group.tasks
    → IsSoundDb db
    → OnStored IsSoundDb (add_group group request_json key owner origin db)
add_group-IsSoundDb = add_group-keeps IsConsistent appended
