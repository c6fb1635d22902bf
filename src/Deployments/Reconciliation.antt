-- ===== src/Deployments/Reconciliation.antt =====
-- app/app_deployments.py: AppsService.reconcile_operation. The files of the spool are given, and
-- whether WorkloadStore.install raises.
pub mod Steps
use computecluster.Prelude.{
  ℕ, String, Bool, true, false, Option, none, some, List, [], ◌∷◌, ◌++◌, ◌&&◌, ◌||◌, ◌==◌, any, not,
  is_none, is_some, if◌then◌else◌,
}
use computecluster.Deployments.Contracts.{
  Checked, ok, contract_error, raise_if, or_raise, ◌>>=◌, ◌>>◌, Registration, Kind, Operation,
  AcceptedSnapshot, running, InstalledSnapshot, Receipt, same_kind, same_selection,
}
use computecluster.Deployments.Tables.{ReleaseRow, Tables, is_active}
use computecluster.Deployments.Approval.{VerifiedRelease, Verifier, eligible, release_registration}
use computecluster.Deployments.Authority.{not_subscriptable}
use computecluster.Deployments.Reconcile.{
  passed, is_succeeded, state_at, admit_switch, accepted_row,
}
use computecluster.Deployments.Settle.{is_incomplete, settle}

-- read_owned: FileNotFoundError, another error, or the document.
pub data SpoolFile (A : Type 0) : Type 0 where
  absent : SpoolFile A
  unreadable : String → SpoolFile A
  present : A → SpoolFile A

-- The switch intent is the operation id that it hints at.
pub record Spool : Type 0 where
  pub switch : SpoolFile ℕ
  pub receipt : SpoolFile Receipt
  pub install_error : Option String

-- The request file is published; the operation was settled before; or its end was recorded.
pub data ReconcileEnd : Type 0 where
  published_request settled_before closed : ReconcileEnd

unfoldable pub read_switch : Operation → SpoolFile ℕ → Tables → Checked Tables
unfolding admit_switch
read_switch operation absent db = ok db
read_switch operation (unreadable m) db = contract_error m
read_switch operation (present hint) db = admit_switch operation hint db

module _ (v : Verifier) where
  -- The registration that admits the release of a receipt.
  unfoldable receipt_registration : Operation → Receipt → Tables → Checked Registration
  unfolding release_registration
  receipt_registration operation receipt db = elim receipt.installed [
    | some snapshot ↦ ok snapshot.registration
    | none ↦ release_registration receipt.selection.app_id operation.kind db
  ]

  abbrev is_other_image : VerifiedRelease → Option AcceptedSnapshot → Bool
  is_other_image release (some (running s)) = not (s.image == release.image)
  is_other_image release (some (AcceptedSnapshot.retired s)) = false
  is_other_image release none = false

  -- A succeeded receipt of an active operation.
  unfoldable check_succeeded : Operation → Receipt → Tables → Checked Bool
  unfolding receipt_registration eligible accepted_row same_kind same_selection
  check_succeeded operation receipt db = do
    raise_if (not (same_kind operation.kind Kind.rehearse) && not receipt.authorization_committed)
        "Installer authorization is incomplete"
    registration ← receipt_registration operation receipt db
    release ← eligible v registration receipt.selection.manifest_sha256 db
    appended ← accepted_row v operation receipt db
    (if same_kind operation.kind Kind.rehearse
        then raise_if (is_incomplete receipt || is_some receipt.installed)
            "Installer rehearsal is incomplete"
        else raise_if (is_other_image release appended) "Installer snapshot is incomplete")

  -- Whether the operation is still to be settled.
  unfoldable pub check_receipt : Operation → Receipt → Tables → Checked Bool
  unfolding check_succeeded
  check_receipt operation receipt db =
      if is_succeeded receipt.state
      then (do
        state ← or_raise (state_at operation.operation_id db) not_subscriptable
        if is_active state then check_succeeded operation receipt db else ok false)
      else ok true

  abbrev has_release : ℕ → ℕ → ReleaseRow → Bool
  has_release app digest r = r.app_id == app && r.manifest_sha256 == digest

  abbrev pub recorded : Receipt → VerifiedRelease → Tables → Tables
  recorded receipt release db =
      if any (has_release receipt.selection.app_id receipt.selection.manifest_sha256) db.releases
      then db
      else record db {
        releases =
            db.releases
            ++ record {
              app_id = receipt.selection.app_id;
              manifest_sha256 = receipt.selection.manifest_sha256;
              manifest = release.manifest;
            }
              ∷ [];
      }

  unfoldable pub record_installed :
      Operation → Receipt → Option InstalledSnapshot → Tables → Checked Tables
  unfolding eligible same_kind
  record_installed operation receipt none db = ok db
  record_installed operation receipt (some snapshot) db =
      if is_succeeded receipt.state && not (same_kind operation.kind Kind.rehearse)
      then (do
        release ← eligible v snapshot.registration receipt.selection.manifest_sha256 db
        ok (recorded receipt release db))
      else ok db

  -- The release of a succeeded installation is known from then on.
  unfoldable pub record_release : Operation → Receipt → Tables → Checked Tables
  unfolding record_installed
  record_release operation receipt db = record_installed operation receipt receipt.installed db

  -- A transaction's tables, or the tables before it with its exception.
  abbrev pub or_before : Tables → ReconcileEnd → Checked Tables → Tables × Checked ReconcileEnd
  or_before db end (ok after) = (after, ok end)
  or_before db end (contract_error m) = (db, contract_error m)

  unfoldable pub install_and_settle :
      Operation → ℕ → Receipt → Option String → Tables → Tables × Checked ReconcileEnd
  unfolding settle
  install_and_settle operation policy receipt none db =
      or_before db ReconcileEnd.closed (settle v operation policy receipt db)
  install_and_settle operation policy receipt (some m) db = (db, contract_error m)

  abbrev pub installs : Operation → Receipt → Bool
  installs operation receipt =
      is_succeeded receipt.state
      && (not (same_kind operation.kind Kind.rehearse) && is_some receipt.installed)

  -- Behind the record of the release.
  unfoldable pub after_release :
      Operation
      → ℕ
      → Receipt
      → Option String
      → Tables
      → Checked Tables
      → Tables × Checked ReconcileEnd
  unfolding install_and_settle same_kind
  after_release operation policy receipt install_error db (contract_error m) =
      (db, contract_error m)
  after_release operation policy receipt install_error db (ok after) =
      install_and_settle operation policy receipt
        (if installs operation receipt then install_error else none) after

  -- Behind the checks of the receipt.
  unfoldable pub after_check :
      Operation
      → ℕ
      → Receipt
      → Option String
      → Tables
      → Checked Bool
      → Tables × Checked ReconcileEnd
  unfolding record_release after_release
  after_check operation policy receipt install_error db (contract_error m) = (db, contract_error m)
  after_check operation policy receipt install_error db (ok false) =
      (db, ok ReconcileEnd.settled_before)
  after_check operation policy receipt install_error db (ok true) =
      after_release operation policy receipt install_error db (record_release operation receipt db)

  unfoldable pub read_receipt :
      Operation → ℕ → Option String → SpoolFile Receipt → Tables → Tables × Checked ReconcileEnd
  unfolding check_receipt after_check same_selection
  read_receipt operation policy install_error absent db = (db, ok ReconcileEnd.published_request)
  read_receipt operation policy install_error (unreadable m) db = (db, contract_error m)
  read_receipt operation policy install_error (present receipt) db =
      let taken =
        after_check operation policy receipt install_error db
          (check_receipt operation receipt db) in
      if receipt.operation_id == operation.operation_id
        && same_selection receipt.selection operation.approval.selection
      then taken
      else (db, contract_error "Installer receipt does not match operation")

  -- Behind the switch intent.
  unfoldable pub after_switch :
      Operation → ℕ → Spool → Tables → Checked Tables → Tables × Checked ReconcileEnd
  unfolding read_receipt
  after_switch operation policy spool db (contract_error m) = (db, contract_error m)
  after_switch operation policy spool db (ok after) =
      read_receipt operation policy spool.install_error spool.receipt after

  unfoldable pub reconcile_operation :
      Operation → ℕ → Spool → Tables → Tables × Checked ReconcileEnd
  unfolding read_switch after_switch
  reconcile_operation operation policy spool db =
      after_switch operation policy spool db (read_switch operation spool.switch db)
