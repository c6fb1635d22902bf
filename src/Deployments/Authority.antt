-- ===== src/Deployments/Authority.antt =====
-- app/app_deployments.py: read_authority, the last word on an approved operation.
pub mod Approved
use computecluster.Prelude.{
  ℕ, String, Bool, true, false, Option, none, some, ◌&&◌, ◌==◌, any, find, not, column_eq,
  if◌then◌else◌,
}
use computecluster.Deployments.Contracts.{
  Checked, ok, contract_error, raise_if, or_raise, ◌>>=◌, ◌>>◌, Registration, Kind, Selection,
  Operation, AcceptedSnapshot, same_selection, same_kind,
}
use computecluster.Deployments.Tables.{
  OperationRow, OperationState, CredentialRow, Instance, Tables, accepted, installed,
  blocked_operation, is_active, is_authority,
}
use computecluster.Deployments.Approval.{
  VerifiedRelease, Verifier, approved_registration, release_registration, eligible, selection_for,
}

pub record Authority : Type 0 where
  pub operation : Operation
  pub registration : Registration
  pub credential_path : ℕ
  pub credential_verifier : ℕ
  pub archive : ℕ
  pub artifact_id : ℕ
  pub previous : Option AcceptedSnapshot
  pub app_api_url : ℕ
  pub timezone : ℕ

abbrev pub has_operation_id : ℕ → OperationRow → Bool
has_operation_id id o = o.operation.operation_id == id

abbrev pub is_active_operation : ℕ → OperationRow → Bool
is_active_operation id o = has_operation_id id o && is_active o.state

abbrev succeeded : OperationState → Bool
succeeded OperationState.succeeded = true
succeeded _ = false

-- The rehearsal that a deployment names.
abbrev is_rehearsal : Option ℕ → OperationRow → Bool
is_rehearsal id o =
    column_eq id o.operation.operation_id
    && (same_kind o.operation.kind Kind.rehearse && succeeded o.state)

abbrev pub rehearsed : Option ℕ → Tables → Option Selection
rehearsed id db = elim (find (is_rehearsal id) db.operations) [
  | none ↦ none
  | some o ↦ elim o.receipt [ none ↦ none | some r ↦ some r.selection ]
]

unfoldable pub recovery_checks : Operation → Tables → Checked Bool
unfolding blocked_operation
recovery_checks operation db = do
  blocked ←
      or_raise (blocked_operation operation.approval.selection.app_id db) "Recovery target changed"
  raise_if (not (column_eq operation.recovers blocked.operation_id)) "Recovery target changed"

unfoldable pub rehearsal_checks : Operation → Tables → Checked Bool
unfolding same_selection
rehearsal_checks operation db = do
  selection ←
      or_raise (rehearsed operation.approval.rehearsal_id db) "Compatibility rehearsal changed"
  raise_if (not (same_selection selection operation.approval.selection))
      "Compatibility rehearsal changed"

unfoldable rollback_checks : Selection → Tables → Checked Bool
unfolding installed
rollback_checks selected db = do
  target ← or_raise (installed selected.app_id selected.environment 1 db) "Rollback target changed"
  raise_if (not (target.selection.manifest_sha256 == selected.manifest_sha256))
      "Rollback target changed"

unfoldable pub target_checks : Operation → Tables → Checked Bool
unfolding recovery_checks rehearsal_checks rollback_checks
target_checks operation db = elim operation.kind [
  | Kind.recover ↦ recovery_checks operation db
  | Kind.deploy ↦ rehearsal_checks operation db
  | Kind.rollback ↦ rollback_checks operation.approval.selection db
  | Kind.rehearse ↦ ok true
  | Kind.retire ↦ ok true
]

abbrev is_credential : ℕ → CredentialRow → Bool
is_credential id c = c.credential_id == id && not c.revoked

abbrev pub not_subscriptable : String
not_subscriptable = "'NoneType' object is not subscriptable"

module _ (v : Verifier) where
  unfoldable pub read_authority : ℕ → ℕ → Tables → Checked Authority
  unfolding selection_for target_checks approved_registration release_registration eligible accepted
      same_selection
  read_authority operation_id policy db = do
    row ← or_raise (find (is_active_operation operation_id) db.operations) "Operation is not active"
    let operation = row.operation
    let selected = operation.approval.selection
    raise_if
        (not (
          any (is_authority operation.approval.administrator_id operation.approval.session_version)
            db.users))
        "Administrator authority changed"
    fresh ←
        selection_for v selected.app_id selected.manifest_sha256 selected.preview_id policy
          operation.kind db
    raise_if (not (same_selection fresh selected)) "Approval authority changed"
    target_checks operation db
    registration ← approved_registration selected.app_id operation.kind db
    released ← release_registration selected.app_id operation.kind db
    release ← eligible v released selected.manifest_sha256 db
    credential ←
        or_raise (find (is_credential selected.credential_id) db.credentials) not_subscriptable
    instance ← or_raise db.instance not_subscriptable
    ok (record {
      operation = operation;
      registration = registration;
      credential_path = credential.file_path;
      credential_verifier = credential.verifier;
      archive = release.archive;
      artifact_id = release.artifact_id;
      previous = accepted selected.app_id selected.environment 0 db;
      app_api_url = instance.app_api_url;
      timezone = instance.timezone;
    })
