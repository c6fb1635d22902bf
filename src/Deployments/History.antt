-- ===== src/Deployments/History.antt =====
-- The transactions of the deployments one after another, in any interleaving.
use computecluster.Prelude.{
  ℕ, false, Option, some, List, [], ◌≡◌, refl, sym, find, arith, All, count_by, filter_by, ◌≤◌,
}
use mathlib.Core.Path.{subst}
use computecluster.Deployments.Contracts.{
  Checked, ok, contract_error, Kind, Registration, Operation, Receipt, committed,
}
use computecluster.Deployments.Checked.{Holds, Holds-given}
use computecluster.Deployments.Tables.{OperationRow, Tables, of_installation}
use computecluster.Deployments.Approval.{Verifier}
use computecluster.Deployments.Authority.{has_operation_id}
use computecluster.Deployments.Requests.{OperationRequest, holds_active, request}
use computecluster.Deployments.Reconcile.{admit_switch}
use computecluster.Deployments.Settle.{settle}
use computecluster.Deployments.Cutover.{provision_legacy, restore_unaccepted_legacy}
use computecluster.Deployments.Registrations.{update_registration, reject}
use computecluster.Deployments.Keeps.{
  Keeps, update_checked-Keeps, reject_checked-Keeps, provision_checked-Keeps, restore_checked-Keeps,
}
use computecluster.Deployments.Generations.{IsNumbered}
use computecluster.Deployments.Consistency.{IsCurrent, IsSoundDeployments}
use computecluster.Deployments.Consistency.Settled.{settle-IsSoundDeployments}
use computecluster.Deployments.Consistency.Requested.{request_checked-IsSound, admit_switch-IsSound}

-- The tables of a platform: without an operation at first, then the transactions of requests, of
-- reconcile_operation with a receipt for the selection of its operation, of the registrations and of
-- the legacy cutover,
-- and between them whatever writes neither an operation nor an installation.
pub data DeploymentHistory (v : Verifier) : Tables → Type 0 where
  begun : {db : Tables} → db.operations ≡ [] → db.history ≡ [] → DeploymentHistory v db
  requested :
      {db : Tables} (q : OperationRequest) (kinds : List Kind) (policy operation_id : ℕ)
      → DeploymentHistory v db
      → DeploymentHistory v (request v q kinds policy operation_id db).0
  admitted :
      {after : Tables} (db : Tables) (o : Operation) (hint : ℕ)
      → DeploymentHistory v db
      → admit_switch o hint db ≡ ok after
      → DeploymentHistory v after
  settled :
      {after : Tables} (db : Tables) (o : OperationRow) (policy : ℕ) (receipt : Receipt)
      → DeploymentHistory v db
      → find (has_operation_id o.operation.operation_id) db.operations ≡ some o
      → receipt.selection ≡ o.operation.approval.selection
      → settle v o.operation policy receipt db ≡ ok after
      → DeploymentHistory v after
  registered_again :
      {db : Tables} (r : Registration)
      → DeploymentHistory v db
      → DeploymentHistory v (update_registration v r db).0
  refused :
      {db : Tables} (app digest administrator version : ℕ) (shown : Option ℕ)
      → DeploymentHistory v db
      → DeploymentHistory v (reject v app digest administrator version shown db).0
  provisioned :
      {db : Tables} (proposed : Registration) (expected : ℕ)
      → DeploymentHistory v db
      → DeploymentHistory v (provision_legacy v proposed expected db).0
  restored :
      {db : Tables} (old : Registration) (expected_legacy expected_managed : ℕ)
      → DeploymentHistory v db
      → DeploymentHistory v (restore_unaccepted_legacy v old expected_legacy expected_managed db).0
  elsewhere :
      {after : Tables} (db : Tables)
      → DeploymentHistory v db
      → Keeps db after
      → DeploymentHistory v after

Keeps-IsSoundDeployments :
    (db after : Tables) → IsSoundDeployments db → Keeps db after → IsSoundDeployments after
Keeps-IsSoundDeployments db after s k = record {
  ids = subst (λ ops. (i : ℕ) → count_by (has_operation_id i) ops ≤ 1) (sym k.0) s.ids;
  active = subst (λ ops. (a e : ℕ) → count_by (holds_active a e) ops ≤ 1) (sym k.0) s.active;
  current =
      subst (λ ops. All (IsCurrent (λ id. false) after.history) ops) (sym k.0)
        (subst (λ h. All (IsCurrent (λ id. false) h) db.operations) (sym k.1) s.current);
  numbered =
      subst (λ h. (a e : ℕ) → IsNumbered 0 (filter_by (of_installation a e) h)) (sym k.1)
        s.numbered;
}

empty-IsSoundDeployments :
    (db : Tables) → db.operations ≡ [] → db.history ≡ [] → IsSoundDeployments db
unfolding count_by filter_by
empty-IsSoundDeployments db o h = record {
  ids = λ i. rw o (omega arith);
  active = λ a e. rw o (omega arith);
  current = subst (All (IsCurrent (λ id. false) db.history)) (sym o) tt;
  numbered = λ a e. rw h tt;
}

committed-Holds :
    {A : Type 0} (P : Tables → Type 0) (db : Tables) (m : Checked (Tables × A))
    → P db
    → Holds (λ r. P (r.0)) m
    → P (committed db m).0
unfolding Holds
committed-Holds P db (ok done) p h = h
committed-Holds P db (contract_error e) p h = p

module _ (v : Verifier) where
  provision_legacy-IsSound :
      (proposed : Registration) (expected : ℕ) (db : Tables)
      → IsSoundDeployments db
      → IsSoundDeployments (provision_legacy v proposed expected db).0
  unfolding provision_legacy
  provision_legacy-IsSound proposed expected db s = Keeps-IsSoundDeployments db _ s (
      committed-Holds (Keeps db) db _ (refl, refl) (provision_checked-Keeps v proposed expected db))

  restore_legacy-IsSound :
      (old : Registration) (expected_legacy expected_managed : ℕ) (db : Tables)
      → IsSoundDeployments db
      → IsSoundDeployments (restore_unaccepted_legacy v old expected_legacy expected_managed db).0
  unfolding restore_unaccepted_legacy
  restore_legacy-IsSound old expected_legacy expected_managed db s =
      Keeps-IsSoundDeployments db _ s (
        committed-Holds (Keeps db) db _ (refl, refl)
          (restore_checked-Keeps v old expected_legacy expected_managed db))

  request-IsSound :
      (q : OperationRequest) (kinds : List Kind) (policy id : ℕ) (db : Tables)
      → IsSoundDeployments db
      → IsSoundDeployments (request v q kinds policy id db).0
  unfolding request
  request-IsSound q kinds policy id db s =
      committed-Holds IsSoundDeployments db _ s (request_checked-IsSound v q kinds policy id db s)

  update_registration-IsSound :
      (r : Registration) (db : Tables)
      → IsSoundDeployments db
      → IsSoundDeployments (update_registration v r db).0
  unfolding update_registration
  update_registration-IsSound r db s =
      Keeps-IsSoundDeployments db _ s
        (committed-Holds (Keeps db) db _ (refl, refl) (update_checked-Keeps v r db))

  reject-IsSound :
      (app digest administrator version : ℕ) (shown : Option ℕ) (db : Tables)
      → IsSoundDeployments db
      → IsSoundDeployments (reject v app digest administrator version shown db).0
  unfolding reject
  reject-IsSound app digest administrator version shown db s = Keeps-IsSoundDeployments db _ s (
      committed-Holds (Keeps db) db _ (refl, refl)
        (reject_checked-Keeps v app digest administrator version shown db))

  -- Whatever transactions have run, in any order: operations have ids of their own, each belongs to
  -- the installation that it was approved for, an installation has at most one operation that is
  -- queued or switching, that operation was approved for the latest accepted generation, and the
  -- accepted generations of an installation are 1, 2, 3 and so on without a gap.
  pub DeploymentHistory-IsSoundDeployments :
      {db : Tables} → DeploymentHistory v db → IsSoundDeployments db
  DeploymentHistory-IsSoundDeployments (begun {db} o h) = empty-IsSoundDeployments db o h
  DeploymentHistory-IsSoundDeployments (requested {db} q kinds policy id past) =
      request-IsSound q kinds policy id db (DeploymentHistory-IsSoundDeployments past)
  DeploymentHistory-IsSoundDeployments (admitted db o hint past e) =
      Holds-given _ _ _ (admit_switch-IsSound o hint db (DeploymentHistory-IsSoundDeployments past))
        e
  DeploymentHistory-IsSoundDeployments (settled db o policy receipt past known same e) =
      Holds-given _ _ _
        (settle-IsSoundDeployments v db o policy receipt (DeploymentHistory-IsSoundDeployments past)
          known same)
        e
  DeploymentHistory-IsSoundDeployments (registered_again {db} r past) =
      update_registration-IsSound r db (DeploymentHistory-IsSoundDeployments past)
  DeploymentHistory-IsSoundDeployments (refused {db} app digest administrator version shown past) =
      reject-IsSound app digest administrator version shown db
        (DeploymentHistory-IsSoundDeployments past)
  DeploymentHistory-IsSoundDeployments (provisioned {db} proposed expected past) =
      provision_legacy-IsSound proposed expected db (DeploymentHistory-IsSoundDeployments past)
  DeploymentHistory-IsSoundDeployments (restored {db} old expected_legacy expected_managed past) =
      restore_legacy-IsSound old expected_legacy expected_managed db
        (DeploymentHistory-IsSoundDeployments past)
  DeploymentHistory-IsSoundDeployments (elsewhere {after} db past k) =
      Keeps-IsSoundDeployments db after (DeploymentHistory-IsSoundDeployments past) k
