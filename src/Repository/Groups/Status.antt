-- ===== src/Repository/Groups/Status.antt =====
-- The status of a group against the numbers of its tasks in each status.
use computecluster.Prelude.{
  ℕ, ◌+◌, ◌≤◌, ◌<◌, Bool, List, [], ◌∷◌, ◌≡◌, refl, arith, ◌||◌, ◌⊎◌, ◌==◌, ltb, any, length,
  count_by, ◌↔◌,
}
use computecluster.Models.Enums.{JobStatus}
use computecluster.Models.Records.{JobRead}
use computecluster.Repository.Groups.{has_status, all_in, group_status}

any-count : (p : JobRead → Bool) (ts : List JobRead) → any p ts ≡ ltb 0 (count_by p ts)
unfolding any count_by
any-count p [] = refl
any-count p (t ∷ ts) = ground (arith, any-count p ts)

count_by-le_length : (p : JobRead → Bool) (ts : List JobRead) → count_by p ts ≤ length ts
unfolding count_by
count_by-le_length p [] = omega arith
count_by-le_length p (t ∷ ts) = ground (arith, count_by-le_length p ts)

all_in-count : (p : JobRead → Bool) (ts : List JobRead) → all_in p ts ≡ (count_by p ts == length ts)
unfolding all_in count_by
all_in-count p [] = refl
all_in-count p (t ∷ ts) = ground (arith, all_in-count p ts, count_by-le_length p ts)

ended_count :
    (ts : List JobRead)
    → count_by (λ t. has_status JobStatus.completed t || has_status JobStatus.failed t) ts
      ≡ count_by (has_status JobStatus.completed) ts + count_by (has_status JobStatus.failed) ts
unfolding count_by
ended_count [] = refl
ended_count (t ∷ ts) = ground (arith, ended_count ts)

overlap :
    (ts : List JobRead)
    → count_by (has_status JobStatus.queued) ts
        + count_by (has_status JobStatus.completed) ts
        + count_by (has_status JobStatus.failed) ts
      ≤ length ts
unfolding count_by
overlap [] = omega arith
overlap (t ∷ ts) = ground (arith, overlap ts)

-- The number of tasks in a status.
abbrev pub tasks_in : JobStatus → List JobRead → ℕ
tasks_in s ts = count_by (has_status s) ts

-- A group is queued when it has tasks and all are queued; completed when it has tasks and all are
-- completed; failed when every task has ended and it is not completed; running when some task has
-- not ended and not all are queued.
pub group_status_iff :
    (ts : List JobRead)
    → ((group_status ts ≡ JobStatus.queued)
        ↔ ((0 < length ts) × (tasks_in JobStatus.queued ts ≡ length ts)))
      × ((group_status ts ≡ JobStatus.completed)
          ↔ ((0 < length ts) × (tasks_in JobStatus.completed ts ≡ length ts)))
      × ((group_status ts ≡ JobStatus.failed) ↔ (
          (tasks_in JobStatus.completed ts + tasks_in JobStatus.failed ts ≡ length ts)
          × ((length ts ≡ 0) ⊎ (tasks_in JobStatus.completed ts < length ts))))
      × ((group_status ts ≡ JobStatus.running) ↔ (
          (tasks_in JobStatus.completed ts + tasks_in JobStatus.failed ts < length ts)
          × (tasks_in JobStatus.queued ts < length ts)))
unfolding group_status
group_status_iff ts = ground (
  arith,
  any-count (has_status JobStatus.queued) ts,
  any-count (has_status JobStatus.completed) ts,
  all_in-count (has_status JobStatus.queued) ts,
  all_in-count (has_status JobStatus.completed) ts,
  all_in-count (λ t. has_status JobStatus.completed t || has_status JobStatus.failed t) ts,
  ended_count ts,
  overlap ts,
  count_by-le_length (has_status JobStatus.queued) ts,
)
