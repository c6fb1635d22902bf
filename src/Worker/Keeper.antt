-- ===== src/Worker/Keeper.antt =====
-- worker/main.py: LeaseKeeper. Times are those of the monotonic clock, in one unit.
use computecluster.Prelude.{
  ℕ, ◌-◌, Bool, true, false, Option, none, some, List, [], ◌∷◌, ◌||◌, ltb, if◌then◌else◌,
}
use computecluster.Models.Records.{JobRead}

-- One heartbeat: its answer, or how it failed, and the time after it. `refused` is HTTP status 409.
pub data Beat : Type 0 where
  answered : ℕ → Bool → Beat
  refused unreachable : ℕ → Beat

pub record KeeperState : Type 0 where
  pub renewed_at : ℕ
  pub lost : Bool
  pub cancelled : Bool

abbrev pub started : ℕ → KeeperState
started now = record { renewed_at = now; lost = false; cancelled = false }

abbrev give_up : KeeperState → KeeperState
give_up k = record k { lost = true; cancelled = true }

unfoldable pub beat : ℕ → Beat → KeeperState → KeeperState
beat lease_seconds (answered now cancellation) k = record k {
  renewed_at = now;
  cancelled = k.cancelled || cancellation;
}
beat lease_seconds (refused now) k = give_up k
beat lease_seconds (unreachable now) k =
    if ltb lease_seconds (now - k.renewed_at) then give_up k else k

-- The loop of _run: it returns once the lease is lost.
unfoldable pub keep_lease : ℕ → List Beat → KeeperState → KeeperState
unfolding beat
keep_lease lease_seconds [] k = k
keep_lease lease_seconds (b ∷ bs) k =
    let rest = keep_lease lease_seconds bs (beat lease_seconds b k) in if k.lost then k else rest

-- lease_length, in microseconds
unfoldable pub lease_length : JobRead → Option ℕ
lease_length job = elim job.lease_expires_at [
  | none ↦ none
  | some expires_at ↦ some (expires_at - job.updated_at)
]
