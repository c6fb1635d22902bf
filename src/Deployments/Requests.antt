-- ===== src/Deployments/Requests.antt =====
-- app/app_deployments.py: AppsService.request, up to the reconciliation that follows it, and reject.
use computecluster.Prelude.{
  ℕ, Bool, true, false, Option, none, some, List, [], ◌∷◌, ◌++◌, ◌&&◌, ◌||◌, ◌==◌, any, find, not,
  if◌then◌else◌,
}
use computecluster.Deployments.Contracts.{
  Checked, ok, raise_if, or_raise, committed, ◌>>=◌, ◌>>◌, Registration, Kind, Selection, Operation,
  AcceptedSnapshot, running, same_kind,
}
use computecluster.Deployments.Tables.{
  OperationRow, OperationState, Tables, blocked_operation, is_active, is_authority, of_installation,
  require_idle,
}
use computecluster.Deployments.Approval.{Verifier, selection_for}
use computecluster.Deployments.Authority.{has_operation_id, not_subscriptable, read_authority}

pub record OperationRequest : Type 0 where
  pub kind : Kind
  pub app_id : ℕ
  pub digest : ℕ
  pub preview_id : Option ℕ
  pub administrator_id : ℕ
  pub session_version : ℕ
  pub request_id : ℕ
  pub rehearsal_id : Option ℕ
  pub registration_sha256 : Option ℕ

abbrev pub same_column : Option ℕ → Option ℕ → Bool
same_column none none = true
same_column (some a) (some b) = a == b
same_column _ _ = false

abbrev pub registration_of : AcceptedSnapshot → Registration
registration_of (running s) = s.registration
registration_of (AcceptedSnapshot.retired s) = s.registration

abbrev pub shows_change : Kind → Bool
shows_change kind = same_kind kind Kind.rehearse || same_kind kind Kind.deploy

-- retire_blocker is not None; its message is given here without the number of runs.
abbrev pub retire_blocker : ℕ → Tables → Bool
retire_blocker app db = any (λ run. run == app) db.active_runs

abbrev pub has_request_id : ℕ → OperationRow → Bool
has_request_id id o = o.operation.request_id == id

abbrev pub holds_active : ℕ → ℕ → OperationRow → Bool
holds_active app environment o =
    o.app_id == app && (o.environment == environment && is_active o.state)

abbrev pub queued_row : Operation → OperationRow
queued_row operation = record {
  operation = operation;
  app_id = operation.approval.selection.app_id;
  environment = operation.approval.selection.environment;
  state = OperationState.queued;
  receipt = none;
}

-- The keys and the partial index of app_operations.
abbrev pub conflicts : Operation → OperationRow → Bool
conflicts operation o =
    has_operation_id operation.operation_id o
    || (has_request_id operation.request_id o
        || holds_active operation.approval.selection.app_id operation.approval.selection.environment
            o)

unfoldable pub insert_operation : Operation → Tables → Checked Tables
insert_operation operation db = do
  raise_if (any (conflicts operation) db.operations) "UNIQUE constraint failed"
  ok (record db { operations = db.operations ++ queued_row operation ∷ [] })

module _ (v : Verifier) where
  unfoldable pub shown_change : Selection → Tables → Checked (Option ℕ)
  shown_change selection db = if selection.generation == 0 then ok none else (do
    row ←
        or_raise
          (find
            (λ r.
              of_installation selection.app_id selection.environment r
              && r.generation == selection.generation)
            db.history)
          not_subscriptable
    ok (
        if v.fingerprint (registration_of row.snapshot) == selection.registration_sha256
        then none
        else some selection.registration_sha256))

  -- Whether the change that the card showed is the one of the selection.
  unfoldable pub change_matches : Kind → Option ℕ → Selection → Tables → Checked Bool
  unfolding shown_change same_kind
  change_matches kind shown selection db =
      if shows_change kind
      then (do change ← shown_change selection db; ok (same_column change shown))
      else ok true

  abbrev pub same_approval : OperationRequest → ℕ → Operation → Bool
  same_approval q policy o =
      same_kind o.kind q.kind
      && (o.approval.selection.app_id == q.app_id
          && (o.approval.selection.manifest_sha256 == q.digest
              && (o.approval.administrator_id == q.administrator_id
                  && (o.approval.session_version == q.session_version
                      && ((same_kind q.kind Kind.recover
                            || same_column (some o.approval.selection.preview_id) q.preview_id)
                          && (same_column o.approval.rehearsal_id q.rehearsal_id
                              && o.approval.selection.policy_sha256 == policy))))))

  unfoldable pub repeat_request : OperationRequest → ℕ → Operation → Tables → Checked Operation
  unfolding change_matches same_kind
  repeat_request q policy operation db = do
    raise_if (not (same_approval q policy operation)) "Request ID was already used"
    shown ← change_matches q.kind q.registration_sha256 operation.approval.selection db
    raise_if (not shown) "Request ID was already used"
    raise_if (not (any (is_authority q.administrator_id q.session_version) db.users))
        "Administrator authority changed"
    ok operation

  -- The blocked operation that a recovery names.
  unfoldable recovery_target : OperationRequest → Tables → Checked (Option Operation)
  unfolding blocked_operation same_kind
  recovery_target q db =
      if same_kind q.kind Kind.recover
      then (do
        blocked ←
            or_raise (blocked_operation q.app_id db) "No blocked operation matches the selection"
        raise_if (not (blocked.approval.selection.manifest_sha256 == q.digest))
            "No blocked operation matches the selection"
        ok (some blocked))
      else ok none

  abbrev preview_for : OperationRequest → Option Operation → Option ℕ
  preview_for q none = q.preview_id
  preview_for q (some blocked) = some blocked.approval.selection.preview_id

  abbrev pub new_operation : OperationRequest → ℕ → Option Operation → Selection → Operation
  new_operation q operation_id blocked selected = record {
    operation_id = operation_id;
    request_id = q.request_id;
    kind = q.kind;
    approval = record {
      selection = selected;
      administrator_id = q.administrator_id;
      session_version = q.session_version;
      rehearsal_id = q.rehearsal_id;
    };
    recovers = elim blocked [ none ↦ none | some b ↦ some b.operation_id ];
  }

  -- What the transaction leaves, and the operation.
  unfoldable pub new_request : OperationRequest → ℕ → ℕ → Tables → Checked (Tables × Operation)
  unfolding recovery_target selection_for change_matches require_idle insert_operation
      read_authority same_kind
  new_request q policy operation_id db = do
    blocked ← recovery_target q db
    preview ← or_raise (preview_for q blocked) "A selected preview is required"
    raise_if (same_kind q.kind Kind.retire && retire_blocker q.app_id db)
        "compute runs still queued or running"
    selected ← selection_for v q.app_id q.digest preview policy q.kind db
    shown ← change_matches q.kind q.registration_sha256 selected db
    raise_if (not shown) "The settings change was replaced"
    let operation = new_operation q operation_id blocked selected
    require_idle q.app_id (same_kind q.kind Kind.recover) db
    after ← insert_operation operation db
    read_authority v operation_id policy after
    ok (after, operation)

  -- The answer, by the operation that has the id of the request.
  unfoldable pub answer_request :
      OperationRequest → ℕ → ℕ → Tables → Option OperationRow → Checked (Tables × Operation)
  unfolding repeat_request new_request
  answer_request q policy operation_id db none = new_request q policy operation_id db
  answer_request q policy operation_id db (some prior) = do
    operation ← repeat_request q policy prior.operation db
    ok (db, operation)

  abbrev pub lacks_retire : Kind → List Kind → Bool
  lacks_retire kind installer_kinds =
      same_kind kind Kind.retire && not (any (λ k. same_kind k Kind.retire) installer_kinds)

  unfoldable pub request_checked :
      OperationRequest → List Kind → ℕ → ℕ → Tables → Checked (Tables × Operation)
  unfolding answer_request same_kind
  request_checked q installer_kinds policy operation_id db = do
    raise_if (lacks_retire q.kind installer_kinds)
        "The host installer runtime must be rebuilt before it can retire"
    answer_request q policy operation_id db (find (has_request_id q.request_id) db.operations)

  unfoldable pub request :
      OperationRequest → List Kind → ℕ → ℕ → Tables → Tables × Checked Operation
  unfolding request_checked
  request q installer_kinds policy operation_id db =
      committed db (request_checked q installer_kinds policy operation_id db)
