-- ===== src/Deployments/Settle.antt =====
-- app/app_deployments.py: the transactions of reconcile_operation behind the switch intent, and
-- reconcile_operation itself.
use computecluster.Prelude.{
  ℕ, Bool, true, false, Option, none, some, [], ◌∷◌, ◌++◌, ◌&&◌, ◌||◌, ◌==◌, any, not, is_some,
  column_eq, update_where, if◌then◌else◌,
}
use computecluster.Deployments.Contracts.{
  Checked, ok, contract_error, raise_if, or_raise, ◌>>=◌, ◌>>◌, Definition, Registration, Kind,
  Selection, Operation, AcceptedSnapshot, running, ReceiptState, ReceiptError, Receipt, same_kind,
  same_selection, same_registration,
}
use computecluster.Deployments.Tables.{
  OperationRow, OperationState, HistoryRow, RegistrationRow, Tables, generation_of, installed,
  registered, blocked_operation, is_active, is_blocked, has_app, of_installation,
}
use computecluster.Deployments.Approval.{Verifier}
use computecluster.Deployments.Authority.{
  Authority, has_operation_id, not_subscriptable, read_authority, recovery_checks,
}
use computecluster.Deployments.Reconcile.{
  passed, is_succeeded, state_of, state_at, is_switching, with_state, accepted_row,
}

-- replace_registration
abbrev define : Definition → RegistrationRow → RegistrationRow
define d r = record r { definition = d }

unfoldable pub replace_registration : Registration → Tables → Tables
replace_registration r db = record db {
  registrations = update_where (has_app r.app_id) (define r.definition) db.registrations;
  registration_changes =
      db.registration_changes
      ++ record { app_id = r.app_id; route = r.route; definition = r.definition } ∷ [];
}

abbrev snapshot_operation : AcceptedSnapshot → ℕ
snapshot_operation (running s) = s.operation_id
snapshot_operation (AcceptedSnapshot.retired s) = s.operation_id

abbrev pub history_row : Selection → AcceptedSnapshot → HistoryRow
history_row selection s = record {
  operation_id = snapshot_operation s;
  app_id = selection.app_id;
  environment = selection.environment;
  generation = generation_of s;
  snapshot = s;
}

abbrev pub same_generation : HistoryRow → HistoryRow → Bool
same_generation r h =
    h.operation_id == r.operation_id
    || (of_installation r.app_id r.environment h && h.generation == r.generation)

-- INSERT INTO app_installed_history, under its keys.
unfoldable pub insert_history : HistoryRow → Tables → Checked Tables
insert_history r db = do
  raise_if (any (same_generation r) db.history) "UNIQUE constraint failed"
  ok (record db { history = db.history ++ r ∷ [] })

-- The registration row follows an accepted installation.
unfoldable pub follow_registration : AcceptedSnapshot → Tables → Checked Tables
unfolding registered replace_registration same_registration
follow_registration (AcceptedSnapshot.retired s) db = ok db
follow_registration (running s) db = do
  current ← registered s.registration.app_id db
  ok (
      if same_registration current s.registration
      then db
      else replace_registration s.registration db)

unfoldable pub append_snapshot : Selection → Option AcceptedSnapshot → Tables → Checked Tables
unfolding insert_history follow_registration
append_snapshot selection none db = ok db
append_snapshot selection (some s) db = do
  inserted ← insert_history (history_row selection s) db
  follow_registration s inserted

-- What becomes of the blocked operation once its recovery succeeded.
abbrev pub resolved : Receipt → Tables → OperationState
resolved receipt db =
    if is_some receipt.installed
    then OperationState.succeeded
    else if is_some (installed receipt.selection.app_id receipt.selection.environment 0 db)
    then OperationState.recovered
    else OperationState.failed

abbrev other_blocked : Operation → OperationRow → Bool
other_blocked operation o =
    not (has_operation_id operation.operation_id o)
    && (o.app_id == operation.approval.selection.app_id
        && (o.environment == operation.approval.selection.environment && is_blocked o.state))

abbrev pub with_receipt : Receipt → OperationRow → OperationRow
with_receipt receipt o = record o { state = state_of receipt.state; receipt = some receipt }

-- UPDATE app_operations, under the index of the blocked operations.
unfoldable pub close_operation : Operation → Receipt → Tables → Checked Tables
close_operation operation receipt db = do
  raise_if (is_blocked (state_of receipt.state) && any (other_blocked operation) db.operations)
      "UNIQUE constraint failed"
  ok (record db {
    operations =
        update_where (has_operation_id operation.operation_id) (with_receipt receipt) db.operations;
  })

abbrev pub set_state : ℕ → OperationState → Tables → Tables
set_state id s db = record db {
  operations = update_where (has_operation_id id) (with_state s) db.operations;
}

unfoldable pub resolve_blocked : Operation → Receipt → Tables → Checked Tables
unfolding recovery_checks blocked_operation installed same_kind
resolve_blocked operation receipt db =
    if same_kind operation.kind Kind.recover
    then (do
      blocked ← or_raise (blocked_operation receipt.selection.app_id db) "Recovery target changed"
      raise_if (not (column_eq operation.recovers blocked.operation_id)) "Recovery target changed"
      ok (
          if is_succeeded receipt.state
          then set_state blocked.operation_id (resolved receipt db) db
          else db))
    else ok db

-- A rehearsal that did not pass, or whose selection is another one.
abbrev pub is_incomplete : Receipt → Bool
is_incomplete receipt = elim receipt.rehearsal [
  | none ↦ true
  | some r ↦ not (same_selection r.selection receipt.selection && passed r)
]

abbrev pub authority_lost : Operation → Receipt → Receipt
authority_lost operation receipt = record {
  operation_id = operation.operation_id;
  selection = receipt.selection;
  state = ReceiptState.failed;
  rehearsal = none;
  installed = none;
  retired = none;
  authorization_committed = false;
  error = some ReceiptError.authority_changed;
}

abbrev pub unless_lost : Operation → Receipt → Checked Authority → Receipt
unless_lost operation receipt (ok authority) = receipt
unless_lost operation receipt (contract_error m) = authority_lost operation receipt

module _ (v : Verifier) where
  -- The receipt with which a succeeded rehearsal goes on.
  unfoldable pub confirmed : Operation → ℕ → Receipt → Tables → Receipt
  unfolding read_authority same_kind
  confirmed operation policy receipt db =
      if is_succeeded receipt.state && same_kind operation.kind Kind.rehearse
      then unless_lost operation receipt (read_authority v operation.operation_id policy db)
      else receipt

  unfoldable pub appended_by : Operation → Receipt → Tables → Checked (Option AcceptedSnapshot)
  unfolding accepted_row
  appended_by operation receipt db =
      if is_succeeded receipt.state then accepted_row v operation receipt db else ok none

  -- The last transaction, for an operation that is active.
  unfoldable pub settle_active : Operation → ℕ → Receipt → OperationState → Tables → Checked Tables
  unfolding confirmed appended_by append_snapshot resolve_blocked close_operation same_kind
  settle_active operation policy given state db = do
    raise_if
        (is_succeeded given.state
          && (not (same_kind operation.kind Kind.rehearse) && not (is_switching state)))
        "Installation was not admitted for switching"
    let receipt = confirmed operation policy given db
    appended ← appended_by operation receipt db
    recorded ← append_snapshot receipt.selection appended db
    released ← resolve_blocked operation receipt recorded
    raise_if
        (is_succeeded receipt.state
          && (same_kind operation.kind Kind.rehearse && is_incomplete receipt))
        "Installer rehearsal is incomplete"
    close_operation operation receipt released

  unfoldable pub settle : Operation → ℕ → Receipt → Tables → Checked Tables
  unfolding settle_active
  settle operation policy receipt db = do
    state ← or_raise (state_at operation.operation_id db) not_subscriptable
    if is_active state then settle_active operation policy receipt state db else ok db
