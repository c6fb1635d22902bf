-- ===== src/Deployments/Reconcile.antt =====
-- app/app_deployments.py: AppsService.reject and reconcile_operation, one function for each
-- transaction. The files of the spool are given: absent, unreadable, or a document.
use computecluster.Prelude.{
  ℕ, Bool, true, false, Option, none, some, ◌+◌, ◌&&◌, ◌||◌, ◌==◌, any, find, not, is_none, length,
  update_where, if◌then◌else◌,
}
use computecluster.Deployments.Contracts.{
  Checked, ok, raise_if, or_raise, ◌>>=◌, ◌>>◌, Kind, Operation, Rehearsal, AcceptedSnapshot,
  InstalledSnapshot, RetiredSnapshot, running, ReceiptState, Receipt, same_kind, same_selection,
  same_installed,
}
use computecluster.Deployments.Tables.{OperationRow, OperationState, Tables, installed}
use computecluster.Deployments.Approval.{Verifier}
use computecluster.Deployments.Authority.{has_operation_id}

-- rehearsal_checks, by the numbers of REHEARSAL_CHECKS
abbrev required_outcome : Option ℕ → ℕ → Option Bool
required_outcome previous name = if is_none previous && name == 1 then none else some true

abbrev same_outcome : Option Bool → Option Bool → Bool
same_outcome none none = true
same_outcome (some a) (some b) = (a && b) || (not a && not b)
same_outcome _ _ = false

abbrev has_outcome : Rehearsal → ℕ → Bool
has_outcome r name =
    any (λ c. c.name == name && same_outcome c.outcome (required_outcome r.previous_image_id name))
      r.checks

-- Rehearsal.passed: the checks are a dictionary, each of whose keys occurs once.
abbrev pub passed : Rehearsal → Bool
passed r =
    length r.checks == 4
    && (has_outcome r 0 && (has_outcome r 1 && (has_outcome r 2 && has_outcome r 3)))

abbrev pub is_succeeded : ReceiptState → Bool
is_succeeded ReceiptState.succeeded = true
is_succeeded _ = false

abbrev pub state_of : ReceiptState → OperationState
state_of ReceiptState.succeeded = OperationState.succeeded
state_of ReceiptState.failed = OperationState.failed
state_of ReceiptState.recovered = OperationState.recovered
state_of ReceiptState.blocked = OperationState.blocked

abbrev pub state_at : ℕ → Tables → Option OperationState
state_at id db = elim (find (has_operation_id id) db.operations) [
  | none ↦ none
  | some o ↦ some o.state
]

abbrev pub is_switching : OperationState → Bool
is_switching OperationState.switching = true
is_switching _ = false

-- The switch intent of the host: queued becomes switching.
abbrev is_queued : OperationState → Bool
is_queued OperationState.queued = true
is_queued _ = false

abbrev pub with_state : OperationState → OperationRow → OperationRow
with_state s o = record o { state = s }

unfoldable pub admit_switch : Operation → ℕ → Tables → Checked Tables
unfolding same_kind
admit_switch operation hint db = do
  raise_if (not (hint == operation.operation_id) || same_kind operation.kind Kind.rehearse)
      "Switch intent does not match operation"
  ok (record db {
    operations =
        update_where (λ o. has_operation_id operation.operation_id o && is_queued o.state)
          (with_state OperationState.switching) db.operations;
  })

module _ (v : Verifier) where
  abbrev pub is_snapshot_of : Operation → Receipt → InstalledSnapshot → Bool
  is_snapshot_of operation receipt snapshot =
      snapshot.operation_id
        == elim operation.recovers [ none ↦ operation.operation_id | some r ↦ r ]
      && (same_selection snapshot.selection receipt.selection
          && (snapshot.generation == receipt.selection.generation + 1
              && (v.fingerprint snapshot.registration == receipt.selection.registration_sha256
                  && is_none receipt.rehearsal)))

  unfoldable pub snapshot_of : Operation → Receipt → Checked InstalledSnapshot
  unfolding same_selection
  snapshot_of operation receipt = do
    snapshot ← or_raise receipt.installed "Installer snapshot is incomplete"
    raise_if (not (is_snapshot_of operation receipt snapshot)) "Installer snapshot is incomplete"
    ok snapshot

  abbrev retires : Option InstalledSnapshot → InstalledSnapshot → Bool
  retires none s = false
  retires (some current) s = same_installed s current

  abbrev pub is_retirement_of : Operation → Receipt → Tables → RetiredSnapshot → Bool
  is_retirement_of operation receipt db gone =
      is_none receipt.rehearsal
      && (gone.operation_id == operation.operation_id
          && (same_selection gone.selection receipt.selection
              && (gone.generation == receipt.selection.generation + 1
                  && (retires
                        (installed receipt.selection.app_id receipt.selection.environment 0 db)
                        gone.last_installed
                      && v.fingerprint gone.registration
                        == receipt.selection.registration_sha256))))

  unfoldable pub retired_of : Operation → Receipt → Tables → Checked RetiredSnapshot
  unfolding same_selection same_installed installed
  retired_of operation receipt db = do
    gone ← or_raise receipt.retired "Installer retirement is incomplete"
    raise_if (not (is_retirement_of operation receipt db gone)) "Installer retirement is incomplete"
    ok gone

  abbrev pub appends_nothing : Operation → Receipt → Bool
  appends_nothing operation receipt =
      same_kind operation.kind Kind.rehearse
      || (same_kind operation.kind Kind.recover && is_none receipt.installed)

  unfoldable pub accepted_row : Operation → Receipt → Tables → Checked (Option AcceptedSnapshot)
  unfolding snapshot_of retired_of same_kind
  accepted_row operation receipt db =
      if appends_nothing operation receipt
      then ok none
      else if same_kind operation.kind Kind.retire
      then (do gone ← retired_of operation receipt db; ok (some (AcceptedSnapshot.retired gone)))
      else (do snapshot ← snapshot_of operation receipt; ok (some (running snapshot)))
