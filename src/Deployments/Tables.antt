-- ===== src/Deployments/Tables.antt =====
-- The tables of app/app_deployments.py, as app/migrations.py creates them, and how they are read.
-- A JSON column holds the decoded document.
use computecluster.Prelude.{
  ℕ, zero, suc, Bool, true, false, Option, none, some, List, [], ◌∷◌, ◌&&◌, ◌||◌, ◌==◌, ltb, any,
  find, filter_by, sort_by, not,
}
use computecluster.Accounts.Tables.{UserRow, is_admin_role}
use computecluster.Deployments.Contracts.{
  Checked, ok, contract_error, raise_if, ◌>>=◌, ◌>>◌, Definition, Registration, published,
  managed_installed, legacy_source, legacy_installed, Operation, Receipt, AcceptedSnapshot, running,
  InstalledSnapshot, RetiredSnapshot,
}

pub data OperationState : Type 0 where
  queued switching succeeded failed recovered blocked : OperationState

pub record OperationRow : Type 0 where
  pub operation : Operation
  pub app_id : ℕ
  pub environment : ℕ
  pub state : OperationState
  pub receipt : Option Receipt

pub record HistoryRow : Type 0 where
  pub operation_id : ℕ
  pub app_id : ℕ
  pub environment : ℕ
  pub generation : ℕ
  pub snapshot : AcceptedSnapshot

pub record RegistrationRow : Type 0 where
  pub app_id : ℕ
  pub route : ℕ
  pub definition : Definition

pub record ProposalRow : Type 0 where
  pub proposal_id : ℕ
  pub app_id : ℕ
  pub environment : ℕ
  pub base_generation : ℕ
  pub definition : Definition

-- A row of app_rejections.
pub record RejectionRow : Type 0 where
  pub app_id : ℕ
  pub manifest_sha256 : ℕ
  pub administrator_id : ℕ

-- `archive` is a number for the bytes.
pub record EligibleRow : Type 0 where
  pub app_id : ℕ
  pub manifest_sha256 : ℕ
  pub release_id : ℕ
  pub artifact_id : ℕ
  pub artifact_sha256 : ℕ
  pub archive : ℕ

pub data PreviewState : Type 0 where
  installing ready failed retired : PreviewState

-- PreviewResult as far as it is read: the checks that it names, and those of them that passed.
pub record PreviewResult : Type 0 where
  pub app_id : ℕ
  pub manifest_sha256 : ℕ
  pub bundle_sha256 : ℕ
  pub checks : List (ℕ × Bool)

pub record PreviewRow : Type 0 where
  pub attempt_id : ℕ
  pub app_id : ℕ
  pub manifest_sha256 : ℕ
  pub state : PreviewState
  pub result : Option PreviewResult

pub record CredentialRow : Type 0 where
  pub credential_id : ℕ
  pub app_id : ℕ
  pub environment : ℕ
  pub verifier : ℕ
  pub file_path : ℕ
  pub revoked : Bool

pub record Instance : Type 0 where
  pub environment : ℕ
  pub app_api_url : ℕ
  pub timezone : ℕ

-- A row of app_releases.
pub record ReleaseRow : Type 0 where
  pub app_id : ℕ
  pub manifest_sha256 : ℕ
  pub manifest : ℕ

-- `active_runs` are the apps of the runs with a job that is queued or running.
pub record Tables : Type 0 where
  pub instance : Option Instance
  pub users : List UserRow
  pub credentials : List CredentialRow
  pub registrations : List RegistrationRow
  pub registration_changes : List RegistrationRow
  pub proposals : List ProposalRow
  pub proposal_rejections : List (ℕ × ℕ)
  pub rejections : List RejectionRow
  pub eligible_releases : List EligibleRow
  pub previews : List PreviewRow
  pub operations : List OperationRow
  pub history : List HistoryRow
  pub releases : List ReleaseRow
  pub active_runs : List ℕ

abbrev pub is_active : OperationState → Bool
is_active OperationState.queued = true
is_active OperationState.switching = true
is_active _ = false

abbrev pub is_blocked : OperationState → Bool
is_blocked OperationState.blocked = true
is_blocked _ = false

abbrev pub of_installation : ℕ → ℕ → HistoryRow → Bool
of_installation app environment r = r.app_id == app && r.environment == environment

abbrev pub newer : HistoryRow → HistoryRow → Bool
newer a b = ltb b.generation a.generation

-- LIMIT 1 OFFSET n
unfoldable pub nth : {A : Type 0} → ℕ → List A → Option A
nth n [] = none
nth zero (x ∷ xs) = some x
nth (suc n) (x ∷ xs) = nth n xs

unfoldable pub accepted_row_at : ℕ → ℕ → ℕ → Tables → Option HistoryRow
unfolding nth
accepted_row_at app environment offset db =
    nth offset (sort_by newer (filter_by (of_installation app environment) db.history))

unfoldable pub accepted : ℕ → ℕ → ℕ → Tables → Option AcceptedSnapshot
unfolding accepted_row_at
accepted app environment offset db = elim (accepted_row_at app environment offset db) [
  | none ↦ none
  | some r ↦ some r.snapshot
]

abbrev pub generation_of : AcceptedSnapshot → ℕ
generation_of (running s) = s.generation
generation_of (AcceptedSnapshot.retired s) = s.generation

abbrev pub running_of : Option AcceptedSnapshot → Option InstalledSnapshot
running_of (some (running s)) = some s
running_of _ = none

unfoldable pub installed : ℕ → ℕ → ℕ → Tables → Option InstalledSnapshot
unfolding accepted
installed app environment zero db = running_of (accepted app environment 0 db)
installed app environment (suc offset) db = elim (running_of (accepted app environment 0 db)) [
  | none ↦ none
  | some latest ↦ running_of (accepted app environment (suc offset) db)
]

unfoldable pub retirement : ℕ → ℕ → Tables → Option RetiredSnapshot
unfolding accepted
retirement app environment db = elim (accepted app environment 0 db) [
  | none ↦ none
  | some (running s) ↦ none
  | some (AcceptedSnapshot.retired s) ↦ some s
]

abbrev pub environment_of : Tables → Option ℕ
environment_of db = elim db.instance [ none ↦ none | some i ↦ some i.environment ]

-- WHERE app_id = ? AND state IN (...)
abbrev pub is_pending : ℕ → Bool → OperationRow → Bool
is_pending app recovering o =
    o.app_id == app && (is_active o.state || (not recovering && is_blocked o.state))

unfoldable pub require_idle : ℕ → Bool → Tables → Checked Bool
require_idle app recovering db =
    raise_if (any (is_pending app recovering) db.operations) "An operation is already pending"

abbrev pub idle : ℕ → Tables → Bool
idle app db = not (any (is_pending app false) db.operations)

-- decode_registration
abbrev pub registration_of_row : RegistrationRow → Registration
registration_of_row r = record { app_id = r.app_id; route = r.route; definition = r.definition }

abbrev pub has_app : ℕ → RegistrationRow → Bool
has_app app r = r.app_id == app

unfoldable pub registered : ℕ → Tables → Checked Registration
registered app db = elim (find (has_app app) db.registrations) [
  | none ↦ contract_error "Application is not registered"
  | some r ↦ ok (registration_of_row r)
]

abbrev pub managed : Registration → Bool
managed r = elim r.definition.installation [
  | some (managed_installed port probe) ↦ elim r.definition.source [
    | published s ↦ true
    | legacy_source ↦ false
  ]
  | some (legacy_installed port probe) ↦ false
  | none ↦ false
]

abbrev pub legacy : Registration → Bool
legacy r = elim r.definition.installation [
  | some (legacy_installed port probe) ↦ elim r.definition.source [
    | published s ↦ false
    | legacy_source ↦ true
  ]
  | some (managed_installed port probe) ↦ false
  | none ↦ false
]

unfoldable pub registration_for : ℕ → Tables → Checked Registration
unfolding registered
registration_for app db = do
  registration ← registered app db
  raise_if (not (managed registration)) "Application is not managed"
  ok registration

abbrev pub is_blocked_of : ℕ → OperationRow → Bool
is_blocked_of app o = o.app_id == app && is_blocked o.state

unfoldable pub blocked_operation : ℕ → Tables → Option Operation
blocked_operation app db = elim (find (is_blocked_of app) db.operations) [
  | none ↦ none
  | some o ↦ some o.operation
]

-- role = 'ADMIN' AND disabled = 0 AND session_version = ?
abbrev pub is_authority : ℕ → ℕ → UserRow → Bool
is_authority user version u =
    u.id == user && (is_admin_role u.role && (not u.disabled && u.session_version == version))
