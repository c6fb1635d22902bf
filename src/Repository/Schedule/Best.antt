-- ===== src/Repository/Schedule/Best.antt =====
-- The chosen worker is the best fit of those that can run the job.
use computecluster.Prelude.{
  ℕ, ◌≤◌, ◌<◌, Bool, true, false, Option, none, some, List, ◌≡◌, ◌⊎◌, inl, inr, refl, arith, All,
  ◌||◌, not, ltb, if◌then◌else◌, Option-cases, All-map_where,
}
use mathlib.Core.List.{Memᴰ}
use computecluster.Models.Enums.{supports, is_container}
use computecluster.Models.Parameters.{JobParameters, resources}
use computecluster.Repository.Tables.{JobRow, WorkerRow}
use computecluster.Repository.Schedule.{
  target_allows, is_eligible, fits, fits_tighter, comes_before, preferred_worker,
}
use computecluster.Repository.Schedule.Least.{IsLeast, preferred_worker-IsLeast}

abbrev IsTarget : Option ℕ → ℕ → Type 0
IsTarget none id = Unit
IsTarget (some target) id = id ≡ target

-- Both limits of the worker are configured, and both admit what the job asks for.
abbrev HasRoom : JobParameters → WorkerRow → Type 0
HasRoom parameters w =
    (cpu : ℕ) × (memory : ℕ) × (max_cpu : ℕ) × (max_memory : ℕ) × (resources parameters
      ≡ some (cpu, memory))
    × (w.max_job_cpu ≡ some max_cpu)
    × (w.max_job_memory_mb ≡ some max_memory)
    × (cpu ≤ max_cpu)
    × (memory ≤ max_memory)

-- Room is asked for only where the job runs in a container.
abbrev HasRoomIf : Bool → JobParameters → WorkerRow → Type 0
HasRoomIf true parameters w = HasRoom parameters w
HasRoomIf false parameters w = Unit

-- A worker that can run the job now: enabled, seen recently, idle, the target if there is one, of
-- the job's type and, for a container job, with room.
pub record CanRun (job : JobRow) (stale_before : ℕ) (w : WorkerRow) : Type 0 where
  pub enabled : w.enabled ≡ true
  pub online : stale_before ≤ w.last_seen
  pub has_no_job : w.current_job_id ≡ none
  pub target : IsTarget job.target_worker_id w.id
  pub supported : supports w.supported_types job.type ≡ true
  pub room : HasRoomIf (is_container job.type) job.parameters w

-- The first worker is preferred to the second, or is it: in a container by less memory, then less
-- CPU, then the lesser identity; otherwise by the lesser identity.
abbrev pub Leads : Bool → WorkerRow → WorkerRow → Type 0
Leads true w v =
    (memory : ℕ) × (memory' : ℕ) × (cpu : ℕ) × (cpu' : ℕ) × (w.max_job_memory_mb ≡ some memory)
    × (v.max_job_memory_mb ≡ some memory')
    × (w.max_job_cpu ≡ some cpu)
    × (v.max_job_cpu ≡ some cpu')
    × ((memory < memory') ⊎ ((memory ≡ memory') × ((cpu < cpu') ⊎ ((cpu ≡ cpu') × (w.id ≤ v.id)))))
Leads false w v = w.id ≤ v.id

-- What the scheduler should answer for a job over these workers: one of them that can run it and
-- leads every one that can, or none where none can.
abbrev pub IsBest : JobRow → ℕ → List WorkerRow → Option WorkerRow → Type 0
IsBest job stale_before workers none = All (λ w. ¬ CanRun job stale_before w) workers
IsBest job stale_before workers (some w) =
    Memᴰ w workers
    × CanRun job stale_before w
    × All (λ v. CanRun job stale_before v → Leads (is_container job.type) w v) workers

module _ (job : JobRow) (stale_before : ℕ) where
  target_allows-IsTarget :
      (target : Option ℕ) (id : ℕ) → target_allows target id ≡ true → IsTarget target id
  target_allows-IsTarget none id h = tt
  target_allows-IsTarget (some t) id h = ground arith

  target_allowed :
      (target : Option ℕ) (id : ℕ) → IsTarget target id → target_allows target id ≡ true
  target_allowed none id h = refl
  target_allowed (some t) id h = ground arith

  fits-HasRoom : (p : JobParameters) (w : WorkerRow) → fits p w ≡ true → HasRoom p w
  unfolding fits
  fits-HasRoom p w h = elim (Option-cases (resources p)) [
    | inl n ↦ let stuck = rw (fits, n) at h in absurd (ground arith)
    | inr ((cpu, memory), f) ↦ elim (Option-cases w.max_job_cpu) [
      | inl n ↦ let stuck = rw (fits, f, n) at h in absurd (ground arith)
      | inr (c, g) ↦ elim (Option-cases w.max_job_memory_mb) [
        | inl n ↦ let stuck = rw (fits, f, g, n) at h in absurd (ground arith)
        | inr (m, k) ↦
            let tests = rw (fits, f, g, k) at h in
            (cpu, memory, c, m, f, g, k, ground arith, ground arith)
      ]
    ]
  ]

  HasRoom-fits : (p : JobParameters) (w : WorkerRow) → HasRoom p w → fits p w ≡ true
  unfolding fits
  HasRoom-fits p w (cpu, memory, c, m, f, g, k, low, lower) = rw (fits, f, g, k) (ground arith)

  room_if :
      (b : Bool) (p : JobParameters) (w : WorkerRow) → (not b || fits p w) ≡ true → HasRoomIf b p w
  room_if true p w h = fits-HasRoom p w h
  room_if false p w h = tt

  if_room :
      (b : Bool) (p : JobParameters) (w : WorkerRow) → HasRoomIf b p w → (not b || fits p w) ≡ true
  if_room true p w h = HasRoom-fits p w h
  if_room false p w h = refl

  is_eligible-CanRun :
      (w : WorkerRow) → is_eligible job stale_before w ≡ true → CanRun job stale_before w
  unfolding is_eligible
  is_eligible-CanRun w h = record {
    enabled = ground arith;
    online = ground arith;
    has_no_job = ground arith;
    target = target_allows-IsTarget job.target_worker_id w.id (ground arith);
    supported = ground arith;
    room = room_if (is_container job.type) job.parameters w (ground arith);
  }

  CanRun-is_eligible :
      (w : WorkerRow) → CanRun job stale_before w → is_eligible job stale_before w ≡ true
  unfolding is_eligible
  CanRun-is_eligible w c =
      let t = target_allowed job.target_worker_id w.id c.target in
      let r = if_room (is_container job.type) job.parameters w c.room in
      let i = c.has_no_job in
      let e = c.enabled in let o = c.online in let s = c.supported in ground arith

  tighter-Leads :
      (p : JobParameters) (w v : WorkerRow)
      → HasRoom p w
      → HasRoom p v
      → fits_tighter v w ≡ false
      → Leads true w v
  unfolding fits_tighter
  tighter-Leads p w v (_, _, c, m, _, g, k, _, _) (_, _, c', m', _, g', k', _, _) h =
      let tests = rw (fits_tighter, g, k, g', k') at h in (m, m', c, c', k, k', g, g', ground arith)

  before-Leads :
      (b : Bool) (p : JobParameters) (w v : WorkerRow)
      → HasRoomIf b p w
      → HasRoomIf b p v
      → (if b then fits_tighter v w else ltb v.id w.id) ≡ false
      → Leads b w v
  before-Leads true p w v r s h = tighter-Leads p w v r s h
  before-Leads false p w v r s h = ground arith

  module _ (workers : List WorkerRow) where
    IsLeast-IsBest :
        (answer : Option WorkerRow)
        → IsLeast job stale_before workers answer
        → IsBest job stale_before workers answer
    unfolding comes_before
    IsLeast-IsBest none a = All-map_where _ _ workers (λ w h c. cc (h, CanRun-is_eligible w c)) a
    IsLeast-IsBest (some w) (m, e, a) =
        let can = is_eligible-CanRun w e in
        (
          m,
          can,
          All-map_where _ _ workers
              (λ v h c.
                before-Leads (is_container job.type) job.parameters w v can.room c.room
                  (ground (arith, CanRun-is_eligible v c)))
              a,
        )

    -- The scheduler keeps a job for a worker that can run it: one that is enabled, was seen recently,
    -- has no job, is the target if the job has one, supports its type and, for a container job, has
    -- both limits configured and not below the request. Of those it is the one with the least memory
    -- limit, then the least CPU limit, then the least identity, or for a job outside a container the
    -- least identity. It keeps the job for none only if none can run it.
    pub preferred_worker-IsBest :
        IsBest job stale_before workers (preferred_worker job workers stale_before)
    preferred_worker-IsBest = IsLeast-IsBest _ (preferred_worker-IsLeast job stale_before workers)
