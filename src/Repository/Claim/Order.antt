-- ===== src/Repository/Claim/Order.antt =====
-- A claim takes the first job in queue order among those kept for its worker.
use mathlib.Core.Path.{subst}
use mathlib.Core.List.{Memᴰ}
use computecluster.Prelude.{
  ℕ, ◌≤◌, ◌<◌, Bool, true, false, some, List, [], ◌∷◌, ◌≡◌, arith, ◌&&◌, All, find, count_by,
  column_eq, Bool-cases, inl, inr, ==_refl, All-sort_by, All-map_where,
}
use computecluster.Prelude.Sorted.{
  IsOrder, IsSorted, sort_by-IsSorted, filter_by-IsSorted, All-filter_by, All-filter_by_inv,
  All-sort_by_inv, All-Memᴰ,
}
use computecluster.Models.Enums.{JobType, JobStatus, same_status}
use computecluster.Repository.Tables.{JobRow, WorkerRow, has_id}
use computecluster.Repository.Schedule.{preferred_worker_id}
use computecluster.Repository.Claim.{
  is_candidate, queued_before, candidates, is_queued_id, first_preferred,
}

queued_before-asym : (x y : JobRow) → queued_before x y ≡ true → queued_before y x ≡ false
unfolding queued_before
queued_before-asym x y h = ground arith

queued_before-neg_trans :
    (x y z : JobRow)
    → queued_before x y ≡ false
    → queued_before y z ≡ false
    → queued_before x z ≡ false
unfolding queued_before
queued_before-neg_trans x y z h k = ground arith

queued_before_irrefl : (x : JobRow) → queued_before x x ≡ false
unfolding queued_before
queued_before_irrefl x = ground arith

abbrev queue_order : IsOrder queued_before
queue_order = record { asym = queued_before-asym; neg_trans = queued_before-neg_trans }

positive_count : (x : JobRow) (jobs : List JobRow) → Memᴰ x jobs → 0 < count_by (has_id x.id) jobs
unfolding count_by
positive_count x [] m = elim m [ ]
positive_count x (y ∷ ys) (Memᴰ.head e) = rw (← e) (ground (arith, ==_refl x.id))
positive_count x (y ∷ ys) (Memᴰ.tail m) = ground (arith, positive_count x ys m)

-- With unique identities, a row is found by its identity.
found_itself :
    (x : JobRow) (jobs : List JobRow)
    → Memᴰ x jobs
    → count_by (has_id x.id) jobs ≤ 1
    → same_status x.status JobStatus.queued ≡ true
    → find (is_queued_id x.id) jobs ≡ some x
unfolding find count_by
found_itself x [] m u q = elim m [ ]
found_itself x (y ∷ ys) (Memᴰ.head e) u q = rw (← e) (ground (arith, ==_refl x.id))
found_itself x (y ∷ ys) (Memᴰ.tail m) u q =
    ground (arith, found_itself x ys m, positive_count x ys m)

module _ (worker_id : ℕ) (workers : List WorkerRow) (cutoff : ℕ) (jobs : List JobRow) where
  -- The scheduler keeps this job for this worker.
  abbrev pub is_kept : JobRow → Bool
  is_kept c = column_eq (preferred_worker_id c workers cutoff) worker_id

  first_preferred-least :
      (cs : List JobRow) (row : JobRow)
      → IsSorted queued_before cs
      → All (λ c. find (is_queued_id c.id) jobs ≡ some c) cs
      → first_preferred worker_id workers cutoff jobs cs ≡ some row
      → (is_kept row ≡ true) × All (λ c. is_kept c ≡ true → queued_before c row ≡ false) cs
  unfolding first_preferred
  first_preferred-least [] row s f e = cc
  first_preferred-least (c ∷ cs) row s f e = elim (Bool-cases (is_kept c)) [
    | inl t ↦
        let same : c ≡ row = ground (arith, f.0) in
        (
          rw (← same) t,
          (
            (λ _. rw (← same) (queued_before_irrefl c)),
            All-map_where (λ y. queued_before y c ≡ false)
                (λ y. is_kept y ≡ true → queued_before y row ≡ false) cs
                (λ y h _. subst (λ z. queued_before y z ≡ false) same h) s.0,
          ),
        )
    | inr n ↦
        let rest = first_preferred-least cs row s.1 f.1 (rw n at e) in
        (rest.0, ((λ t. cc (n, t)), rest.1))
  ]

  module _ (supported : List JobType) (unique : (i : ℕ) → count_by (has_id i) jobs ≤ 1) where
    candidates_found :
        All (λ c. find (is_queued_id c.id) jobs ≡ some c) (candidates worker_id supported jobs)
    unfolding candidates
    candidates_found =
        All-map_where (λ c. Memᴰ c jobs × (is_candidate worker_id supported c ≡ true))
          (λ c. find (is_queued_id c.id) jobs ≡ some c) _
          (λ c h. found_itself c jobs h.0 (unique c.id) (ground (arith, h.1)))
          (All-filter_by (λ c. Memᴰ c jobs) (is_candidate worker_id supported) _
            (All-sort_by (λ c. Memᴰ c jobs) queued_before jobs
              (All-Memᴰ (λ c. Memᴰ c jobs) jobs (λ c m. m))))

    -- In a table of unique identities, the job that a claim is to lease is kept for the claiming
    -- worker, and no other candidate kept for that worker precedes it in queue order: by creation,
    -- then place in the group, then identity.
    pub first_preferred_oldest :
        (row : JobRow)
        → first_preferred worker_id workers cutoff jobs (candidates worker_id supported jobs)
          ≡ some row
        → (is_kept row ≡ true)
          × All
              (λ c.
                (is_candidate worker_id supported c && is_kept c && queued_before c row) ≡ false)
              jobs
    unfolding candidates
    first_preferred_oldest row e =
        let found =
          first_preferred-least (candidates worker_id supported jobs) row
            (filter_by-IsSorted queued_before (is_candidate worker_id supported) _
              (sort_by-IsSorted queued_before queue_order jobs))
            candidates_found e in
        (
          found.0,
          All-map_where
              (λ c.
                is_candidate worker_id supported c ≡ true
                → is_kept c ≡ true
                → queued_before c row ≡ false)
              _ jobs (λ c h. ground (arith, h))
              (All-sort_by_inv _ queued_before jobs (
                All-filter_by_inv (λ c. is_kept c ≡ true → queued_before c row ≡ false)
                  (is_candidate worker_id supported) _ found.1)),
        )
