-- ===== src/Tests/Jobs.antt =====
-- The repository's theorems on the sample tables.
use computecluster.Prelude.{
  ℕ, ◌+◌, ◌≤◌, ◌<◌, Bool, true, false, none, some, List, [], ◌∷◌, ◌≡◌, refl, arith, ◌⊎◌, ◌↔◌, ◌&&◌,
  All, any, length, count_by, map, ◌==◌,
}
use computecluster.Models.Enums.{JobType, JobStatus}
use computecluster.Models.Parameters.{JobResult}
use computecluster.Models.Records.{JobRead}
use computecluster.Repository.Tables.{JobRow, Database, has_id, row_to_job}
use computecluster.Repository.Recovery.{expired, recover_jobs, recover_expired}
use computecluster.Repository.Recovery.Settle.{
  settle, recover_jobs-settle, recover_expired-count, recover_expired_twice,
}
use computecluster.Repository.Rows.{IsFresh}
use computecluster.Repository.Schedule.{preferred_worker, preferred_worker_id}
use computecluster.Repository.Schedule.Best.{IsBest, preferred_worker-IsBest}
use computecluster.Repository.Claim.{
  is_candidate, queued_before, candidates, first_preferred, claim, lease_row,
}
use computecluster.Repository.Claim.Order.{is_kept, first_preferred_oldest}
use computecluster.Repository.Claim.Grant.{IsGranted, claim-IsGranted}
use computecluster.Repository.Lease.{
  finish, complete, cancel, heartbeat, holds_lease, completed_with,
}
use computecluster.Repository.Lease.Fencing.{
  IsFinished, finish_fenced, complete-cancel, heartbeat_extends,
}
use computecluster.Repository.Submit.{add, stored, job_row}
use computecluster.Repository.Submit.Idempotent.{SameJob}
use computecluster.Repository.History.Replays.{add_again}
use computecluster.Repository.Groups.{group_status}
use computecluster.Repository.Groups.Status.{tasks_in, group_status_iff}
use computecluster.Repository.History.{
  History, start_here, then, adds, claims, recovers, empty, History-IsSoundDb, History-Grows,
}
use computecluster.Repository.History.Growth.{Grows}
use computecluster.Repository.Consistency.{IsSoundDb}
use computecluster.Service.{new_job}
use computecluster.Service.Replies.{default_config}
use computecluster.Tests.Samples.{
  cluster, running_job, queued_job, desktop_claim, laptop_beat, program, sleep_request,
}

recover_jobs-settle_example : recover_jobs 500 cluster.jobs ≡ map (settle 500) cluster.jobs
recover_jobs-settle_example = recover_jobs-settle 500 cluster.jobs

recover_expired-count_example :
    (recover_expired 500 cluster).1 ≡ count_by (expired 500) cluster.jobs
recover_expired-count_example = recover_expired-count 500 cluster

preferred_worker-IsBest_example :
    IsBest queued_job 140 cluster.workers (preferred_worker queued_job cluster.workers 140)
preferred_worker-IsBest_example = preferred_worker-IsBest queued_job 140 cluster.workers

-- The queued job goes to the idle desktop.
kept_for_desktop : preferred_worker_id queued_job cluster.workers 140 ≡ some 2
unfolding program
kept_for_desktop = refl

unique_ids : (i : ℕ) → count_by (has_id i) cluster.jobs ≤ 1
unfolding program
unique_ids i = ground arith

desktop_takes :
    first_preferred 2 cluster.workers 140 cluster.jobs
      (candidates 2 (JobType.python_batch ∷ []) cluster.jobs)
    ≡ some queued_job
unfolding program
desktop_takes = refl

first_preferred_oldest_example :
    (is_kept 2 cluster.workers 140 cluster.jobs queued_job ≡ true)
    × All
        (λ c.
          (is_candidate 2 (JobType.python_batch ∷ []) c
            && is_kept 2 cluster.workers 140 cluster.jobs c
            && queued_before c queued_job)
          ≡ false)
        cluster.jobs
first_preferred_oldest_example =
    first_preferred_oldest 2 cluster.workers 140 cluster.jobs (JobType.python_batch ∷ []) unique_ids
      queued_job desktop_takes

abbrev leased_job : JobRead
leased_job = row_to_job (lease_row 2 160 78 260 queued_job)

desktop_claims : (claim desktop_claim cluster).1 ≡ some leased_job
unfolding program
desktop_claims = refl

claim-IsGranted_example :
    IsGranted desktop_claim leased_job
    × (any (λ w. (w.id == 2) && w.enabled) cluster.workers ≡ true)
claim-IsGranted_example =
    claim-IsGranted desktop_claim (omega arith) cluster leased_job desktop_claims

finish_fenced_example :
    (finish 10 1 77 150 (completed_with (JobResult.sleep 30)) cluster ≡ (cluster, none))
    ⊎ ((j : JobRow) × IsFinished 10 1 77 150 (completed_with (JobResult.sleep 30)) cluster j)
finish_fenced_example =
    finish_fenced 10 1 77 150 (completed_with (JobResult.sleep 30)) cluster (unique_ids 10)

complete-cancel_example :
    complete 10 1 77 (JobResult.sleep 30) 155 (cancel 10 150 cluster).0
    ≡ ((cancel 10 150 cluster).0, none)
complete-cancel_example =
    complete-cancel 10 150 1 77 (JobResult.sleep 30) 155 cluster (unique_ids 10)

heartbeat_extends_example :
    (heartbeat laptop_beat cluster ≡ (cluster, none))
    ⊎ ((c : Bool) × ((heartbeat laptop_beat cluster).1 ≡ some c)
        × (any (holds_lease 10 1 77 269) (heartbeat laptop_beat cluster).0.jobs ≡ true))
heartbeat_extends_example = heartbeat_extends laptop_beat 10 77 cluster 269 (omega arith) refl refl

recover_expired_twice_example :
    ((recover_expired 500 (recover_expired 500 cluster).0).1 ≡ 0)
    × ((recover_expired 500 (recover_expired 500 cluster).0).0.jobs
        ≡ (recover_expired 500 cluster).0.jobs)
recover_expired_twice_example = recover_expired_twice 500 cluster

abbrev fresh_job : JobRead
fresh_job = new_job default_config 100 20 sleep_request

abbrev retried_job : JobRead
retried_job = new_job default_config 200 21 sleep_request

abbrev submitted : Database
submitted = record empty { jobs = job_row fresh_job (some "k") none 1 ∷ [] }

first_stored : add fresh_job (some "k") 1 empty ≡ stored submitted fresh_job
unfolding program
first_stored = refl

-- The job after a desktop has asked for work.
abbrev meanwhile : Database
meanwhile = (claim desktop_claim submitted).0

add_again_example :
    (y : JobRead) × (add retried_job (some "k") 1 meanwhile ≡ stored meanwhile y)
    × SameJob y fresh_job
add_again_example =
    add_again "k" 1 fresh_job empty submitted meanwhile fresh_job first_stored
      (then start_here (claims desktop_claim)) retried_job

abbrev tasks : List JobRead
tasks = row_to_job running_job ∷ row_to_job queued_job ∷ []

group_status_iff_example :
    ((group_status tasks ≡ JobStatus.queued)
      ↔ ((0 < length tasks) × (tasks_in JobStatus.queued tasks ≡ length tasks)))
    × ((group_status tasks ≡ JobStatus.completed)
        ↔ ((0 < length tasks) × (tasks_in JobStatus.completed tasks ≡ length tasks)))
    × ((group_status tasks ≡ JobStatus.failed) ↔ (
        (tasks_in JobStatus.completed tasks + tasks_in JobStatus.failed tasks ≡ length tasks)
        × ((length tasks ≡ 0) ⊎ (tasks_in JobStatus.completed tasks < length tasks))))
    × ((group_status tasks ≡ JobStatus.running) ↔ (
        (tasks_in JobStatus.completed tasks + tasks_in JobStatus.failed tasks < length tasks)
        × (tasks_in JobStatus.queued tasks < length tasks)))
group_status_iff_example = group_status_iff tasks

fresh_job-IsFresh : IsFresh fresh_job
unfolding program
fresh_job-IsFresh = ground arith

abbrev after_claim : Database
after_claim = (recover_expired 500 (claim desktop_claim submitted).0).0

abbrev three_steps : History empty after_claim
three_steps =
    then
      (then (then start_here (adds fresh_job (some "k") 1 fresh_job-IsFresh first_stored))
        (claims desktop_claim))
      (recovers 500)

History-IsSoundDb_example : IsSoundDb after_claim
History-IsSoundDb_example = History-IsSoundDb three_steps

abbrev claimed : History cluster (recover_expired 500 (claim desktop_claim cluster).0).0
claimed = then (then start_here (claims desktop_claim)) (recovers 500)

History-Grows_example :
    Grows cluster.jobs (recover_expired 500 (claim desktop_claim cluster).0).0.jobs
History-Grows_example = History-Grows claimed
