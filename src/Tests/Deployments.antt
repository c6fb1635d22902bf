-- ===== src/Tests/Deployments.antt =====
-- An application with a rehearsed release whose deployment is queued, and the theorems on it.
use native.Mathlib.Decide.{ℕ_discrete}
use mathlib.Core.Bool.{decide}
use computecluster.Prelude.{
  ℕ, true, false, Option, none, some, [], ◌∷◌, ◌≡◌, refl, List, any, find, filter_by, sort_by,
}
use computecluster.Accounts.Tables.{UserRole}
use computecluster.Deployments.Contracts.{
  ok, Definition, Source, Access, Installation, Kind, Selection, Operation, ReceiptState, Receipt,
  same_kind, ◌>>=◌, ◌>>◌, raise_if, or_raise,
}
use computecluster.Deployments.Tables.{OperationState, OperationRow, PreviewState, Tables}
use computecluster.Deployments.Approval.{Verifier}
use computecluster.Deployments.Authority.{has_operation_id, Authority, read_authority}
use computecluster.Deployments.Authority.Approved.{IsDeployable, read_authority-IsDeployable}
use computecluster.Deployments.Consistency.{IsSoundDeployments}
use computecluster.Deployments.Requests.{OperationRequest, request}
use computecluster.Deployments.Reconciliation.{absent, present, Spool, reconcile_operation}
use computecluster.Deployments.Reconciliation.Steps.{reconcile_operation-DeploymentHistory}
use computecluster.Deployments.History.{
  DeploymentHistory, begun, requested, DeploymentHistory-IsSoundDeployments,
}

abbrev verifier : Verifier
verifier = record {
  fingerprint = λ r. r.route;
  verify_package = λ s row. ok (record {
    manifest_sha256 = row.manifest_sha256;
    artifact_sha256 = row.artifact_sha256;
    artifact_id = row.artifact_id;
    archive = row.archive;
    manifest = 0;
    image = 6;
  });
  validate_release = λ r release. ok true;
}

abbrev definition : Definition
definition = record {
  source =
      Source.published (record { repository = 1; branch = 2; workflow = 3; image_repository = 4 });
  access = Access.linked_user;
  capabilities = 1;
  presentation = 1;
  bindings = record { settings = []; state_directory = some 1; others = 0 };
  installation = some (Installation.managed_installed 8100 1);
}

abbrev selection : Selection
selection = record {
  app_id = 3;
  environment = 1;
  manifest_sha256 = 50;
  archive_sha256 = 51;
  registration_sha256 = 30;
  policy_sha256 = 9;
  credential_id = 40;
  generation = 0;
  preview_id = 60;
}

abbrev operation_of : ℕ → Kind → Option ℕ → Operation
operation_of id kind rehearsal = record {
  operation_id = id;
  request_id = id;
  kind = kind;
  approval = record {
    selection = selection;
    administrator_id = 1;
    session_version = 1;
    rehearsal_id = rehearsal;
  };
  recovers = none;
}

abbrev rehearsal_receipt : Receipt
rehearsal_receipt = record {
  operation_id = 100;
  selection = selection;
  state = ReceiptState.succeeded;
  rehearsal = none;
  installed = none;
  retired = none;
  authorization_committed = false;
  error = none;
}

abbrev row_of : Operation → OperationState → Option Receipt → OperationRow
row_of o state receipt = record {
  operation = o;
  app_id = 3;
  environment = 1;
  state = state;
  receipt = receipt;
}

abbrev platform : List OperationRow → Tables
platform operations = record {
  instance = some (record { environment = 1; app_api_url = 1; timezone = 1 });
  users =
      record {
        id = 1;
        username = "admin";
        role = UserRole.admin;
        password_hash = none;
        disabled = false;
        created_at = 0;
        session_version = 1;
      }
      ∷ [];
  credentials =
      record {
        credential_id = 40;
        app_id = 3;
        environment = 1;
        verifier = 41;
        file_path = 42;
        revoked = false;
      }
      ∷ [];
  registrations = record { app_id = 3; route = 30; definition = definition } ∷ [];
  registration_changes = [];
  proposals = [];
  proposal_rejections = [];
  rejections = [];
  eligible_releases =
      record {
        app_id = 3;
        manifest_sha256 = 50;
        release_id = 1;
        artifact_id = 2;
        artifact_sha256 = 51;
        archive = 52;
      }
      ∷ [];
  previews =
      record {
        attempt_id = 60;
        app_id = 3;
        manifest_sha256 = 50;
        state = PreviewState.ready;
        result = some (record {
          app_id = 3;
          manifest_sha256 = 50;
          bundle_sha256 = 51;
          checks =
              (0, true)
              ∷ (1, true)
              ∷ (2, true)
              ∷ (3, true)
              ∷ (4, true)
              ∷ (5, true)
              ∷ (6, true)
              ∷ [];
        });
      }
      ∷ [];
  operations = operations;
  history = [];
  releases = [];
  active_runs = [];
}

abbrev queued_deployment : Tables
queued_deployment = platform (
    row_of (operation_of 100 Kind.rehearse none) OperationState.succeeded (some rehearsal_receipt)
    ∷ row_of (operation_of 101 Kind.deploy (some 100)) OperationState.queued none
    ∷ [])

abbrev authority : Authority
authority = record {
  operation = operation_of 101 Kind.deploy (some 100);
  registration = record { app_id = 3; route = 30; definition = definition };
  credential_path = 42;
  credential_verifier = 41;
  archive = 52;
  artifact_id = 2;
  previous = none;
  app_api_url = 1;
  timezone = 1;
}

authority_read : read_authority verifier 101 9 queued_deployment ≡ ok authority
unfolding read_authority find any filter_by sort_by ◌>>=◌ ◌>>◌ raise_if or_raise same_kind decide
    ℕ_discrete
authority_read = refl

read_authority-IsDeployable_example :
    IsDeployable queued_deployment 101 (operation_of 101 Kind.deploy (some 100))
read_authority-IsDeployable_example =
    read_authority-IsDeployable verifier 101 9 queued_deployment authority authority_read refl

abbrev rehearsal_request : OperationRequest
rehearsal_request = record {
  kind = Kind.rehearse;
  app_id = 3;
  digest = 50;
  preview_id = some 60;
  administrator_id = 1;
  session_version = 1;
  request_id = 100;
  rehearsal_id = none;
  registration_sha256 = none;
}

rehearsal_queued :
    (request verifier rehearsal_request [] 9 100 (platform [])).1
    ≡ ok (operation_of 100 Kind.rehearse none)
unfolding request find any filter_by sort_by ◌>>=◌ ◌>>◌ raise_if or_raise decide ℕ_discrete
rehearsal_queued = refl

DeploymentHistory-IsSoundDeployments_example :
    IsSoundDeployments (request verifier rehearsal_request [] 9 100 (platform [])).0
DeploymentHistory-IsSoundDeployments_example =
    DeploymentHistory-IsSoundDeployments verifier
      (requested rehearsal_request [] 9 100 (begun {db = platform []} refl refl))

abbrev requested_tables : Tables
requested_tables = (request verifier rehearsal_request [] 9 100 (platform [])).0

abbrev rehearsal_row : OperationRow
rehearsal_row = row_of (operation_of 100 Kind.rehearse none) OperationState.queued none

row_found : find (has_operation_id 100) requested_tables.operations ≡ some rehearsal_row
unfolding request find any filter_by sort_by ◌>>=◌ ◌>>◌ raise_if or_raise decide ℕ_discrete
row_found = refl

-- The host answers with a receipt, and gives no switch intent.
abbrev answered_spool : Spool
answered_spool = record {
  switch = absent;
  receipt = present rehearsal_receipt;
  install_error = none;
}

reconcile_operation-DeploymentHistory_example :
    DeploymentHistory verifier
      (reconcile_operation verifier
        (operation_of 100 Kind.rehearse none)
        9
        answered_spool
        requested_tables).0
reconcile_operation-DeploymentHistory_example =
    reconcile_operation-DeploymentHistory verifier (operation_of 100 Kind.rehearse none) 9
      answered_spool requested_tables rehearsal_row
      (requested rehearsal_request [] 9 100 (begun {db = platform []} refl refl)) row_found refl
