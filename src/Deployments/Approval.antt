-- ===== src/Deployments/Approval.antt =====
-- app/app_deployments.py: what an operation binds, from the pending changes to read_authority.
use computecluster.Prelude.{
  ℕ, Bool, true, false, Option, none, some, List, ◌&&◌, ◌||◌, ◌==◌, ltb, any, find, filter_by,
  sort_by, not, if◌then◌else◌,
}
use computecluster.Deployments.Contracts.{
  Checked, ok, raise_if, or_raise, ◌>>=◌, ◌>>◌, PublishedSource, Registration, published,
  legacy_source, Kind, Selection, AcceptedSnapshot, InstalledSnapshot, same_registration, same_kind,
}
use computecluster.Deployments.Tables.{
  ProposalRow, EligibleRow, PreviewRow, PreviewResult, PreviewState, CredentialRow, Instance,
  Tables, nth, generation_of, accepted, installed, environment_of, registration_for,
  blocked_operation,
}

-- VerifiedPublication, as far as this code reads it.
pub record VerifiedRelease : Type 0 where
  pub manifest_sha256 : ℕ
  pub artifact_sha256 : ℕ
  pub artifact_id : ℕ
  pub archive : ℕ
  pub manifest : ℕ
  pub image : ℕ

-- The digest of a registration's JSON, verify_package and AppRegistry._validate_release.
pub record Verifier : Type 0 where
  pub fingerprint : Registration → ℕ
  pub verify_package : PublishedSource → EligibleRow → Checked VerifiedRelease
  pub validate_release : Registration → VerifiedRelease → Checked Bool

pub record RegistrationProposal : Type 0 where
  pub proposal_id : ℕ
  pub registration : Registration

abbrev pub proposed_after : ProposalRow → ProposalRow → Bool
proposed_after a b = ltb b.proposal_id a.proposal_id

abbrev pub is_proposal_for : ℕ → ℕ → ℕ → ProposalRow → Bool
is_proposal_for app environment generation p =
    p.app_id == app && (p.environment == environment && p.base_generation == generation)

abbrev pub is_rejected_proposal : ℕ → Tables → Bool
is_rejected_proposal proposal db = any (λ r. r.0 == proposal) db.proposal_rejections

abbrev proposed_on : InstalledSnapshot → ProposalRow → Registration
proposed_on current p = record {
  app_id = p.app_id;
  route = current.registration.route;
  definition = p.definition;
}

unfoldable pub pending_change : ℕ → ℕ → Tables → Option RegistrationProposal
unfolding installed nth same_registration
pending_change app environment db = elim (installed app environment 0 db) [
  | none ↦ none
  | some current ↦
      elim (nth 0 (
        sort_by proposed_after
          (filter_by (is_proposal_for app environment current.generation) db.proposals))) [
            | none ↦ none
            | some p ↦
                if is_rejected_proposal p.proposal_id db
                  || same_registration (proposed_on current p) current.registration
                then none
                else some
                    (record { proposal_id = p.proposal_id; registration = proposed_on current p })
          ]
]

abbrev pub change_of : ℕ → Tables → Option RegistrationProposal
change_of app db = elim (environment_of db) [
  | none ↦ none
  | some environment ↦ pending_change app environment db
]

abbrev pub installed_of : ℕ → ℕ → Tables → Option InstalledSnapshot
installed_of app offset db = elim (environment_of db) [
  | none ↦ none
  | some environment ↦ installed app environment offset db
]

unfoldable pub proposed_registration : ℕ → Tables → Checked Registration
unfolding registration_for pending_change
proposed_registration app db = do
  registration ← registration_for app db
  ok (elim (change_of app db) [ none ↦ registration | some c ↦ c.registration ])

unfoldable pub approved_registration : ℕ → Kind → Tables → Checked Registration
unfolding registration_for proposed_registration blocked_operation installed
approved_registration app kind db = do
  registration ← registration_for app db
  elim kind [
    | Kind.recover ↦ do
      or_raise (blocked_operation app db) "Recovery target changed"
      ok registration
    | Kind.rollback ↦ do
      target ← or_raise (installed_of app 1 db) "Rollback target changed"
      ok target.registration
    | Kind.retire ↦ do
      target ← or_raise (installed_of app 0 db) "Nothing is installed to retire"
      ok target.registration
    | Kind.rehearse ↦ proposed_registration app db
    | Kind.deploy ↦ proposed_registration app db
  ]

unfoldable pub release_registration : ℕ → Kind → Tables → Checked Registration
unfolding approved_registration blocked_operation
release_registration app kind db =
    if same_kind kind Kind.recover
    then (do
      blocked ← or_raise (blocked_operation app db) "Recovery target changed"
      approved_registration app blocked.kind db)
    else approved_registration app kind db

abbrev pub is_eligible_release : ℕ → ℕ → EligibleRow → Bool
is_eligible_release app digest r = r.app_id == app && r.manifest_sha256 == digest

abbrev pub published_source : Registration → Option PublishedSource
published_source r = elim r.definition.source [ published s ↦ some s | legacy_source ↦ none ]

abbrev pub is_rejected : ℕ → ℕ → Tables → Bool
is_rejected app digest db = any (λ r. r.app_id == app && r.manifest_sha256 == digest) db.rejections

-- set(checks) == CHECKS and all(checks.values()), the seven checks by number
abbrev pub checks_passed : List (ℕ × Bool) → Bool
checks_passed checks =
    not (any (λ c. not (ltb c.0 7 && c.1)) checks)
    && (any (λ c. c.0 == 0) checks
        && (any (λ c. c.0 == 1) checks
            && (any (λ c. c.0 == 2) checks
                && (any (λ c. c.0 == 3) checks
                    && (any (λ c. c.0 == 4) checks
                        && (any (λ c. c.0 == 5) checks && any (λ c. c.0 == 6) checks))))))

abbrev pub is_preview_of : ℕ → ℕ → VerifiedRelease → PreviewResult → Bool
is_preview_of app digest release p =
    p.app_id == app
    && (p.manifest_sha256 == digest
        && (p.bundle_sha256 == release.artifact_sha256 && checks_passed p.checks))

abbrev is_ready : ℕ → PreviewRow → Bool
is_ready preview p = p.attempt_id == preview && elim p.state [
  | PreviewState.ready ↦ true
  | PreviewState.installing ↦ false
  | PreviewState.failed ↦ false
  | PreviewState.retired ↦ false
]

abbrev active_credential : ℕ → CredentialRow → Bool
active_credential app c = c.app_id == app && not c.revoked

abbrev pub ready_result : ℕ → Tables → Option PreviewResult
ready_result preview db = elim (find (is_ready preview) db.previews) [
  | none ↦ none
  | some p ↦ p.result
]

abbrev pub latest_generation : Option AcceptedSnapshot → ℕ
latest_generation none = 0
latest_generation (some s) = generation_of s

module _ (v : Verifier) where
  unfoldable pub eligible : Registration → ℕ → Tables → Checked VerifiedRelease
  eligible registration digest db = do
    row ←
        or_raise (find (is_eligible_release registration.app_id digest) db.eligible_releases)
          "A workflow-verified release is required"
    source ← or_raise (published_source registration) "A workflow-verified release is required"
    release ← v.verify_package source row
    v.validate_release registration release
    raise_if (not (release.manifest_sha256 == digest)) "Release fingerprint does not match"
    ok release

  -- The instance and the active credential of an application in it.
  abbrev pub active_authority : ℕ → Tables → Option (Instance × CredentialRow)
  active_authority app db = elim db.instance [
    | none ↦ none
    | some i ↦ elim (find (active_credential app) db.credentials) [
      | none ↦ none
      | some c ↦ if c.environment == i.environment then some (i, c) else none
    ]
  ]

  unfoldable retire_checks : ℕ → ℕ → ℕ → ℕ → Tables → Checked Bool
  unfolding installed
  retire_checks app environment digest preview db = do
    current ← or_raise (installed app environment 0 db) "Nothing is installed to retire"
    raise_if
        (not
          (digest == current.selection.manifest_sha256 && preview == current.selection.preview_id))
        "Retire target changed"

  unfoldable pub preview_checks : ℕ → ℕ → ℕ → VerifiedRelease → Tables → Checked Bool
  preview_checks app digest preview release db = do
    raise_if (is_rejected app digest db) "Selected release was rejected"
    result ← or_raise (ready_result preview db) "A successful preview is required"
    raise_if (not (is_preview_of app digest release result))
        "Preview does not match the selected release"

  unfoldable pub kind_checks : Kind → ℕ → ℕ → ℕ → ℕ → VerifiedRelease → Tables → Checked Bool
  unfolding retire_checks preview_checks
  kind_checks Kind.retire app environment digest preview release db =
      retire_checks app environment digest preview db
  kind_checks Kind.rehearse app environment digest preview release db =
      preview_checks app digest preview release db
  kind_checks Kind.deploy app environment digest preview release db =
      preview_checks app digest preview release db
  kind_checks Kind.rollback app environment digest preview release db = ok true
  kind_checks Kind.recover app environment digest preview release db = ok true

  unfoldable pub selection_for : ℕ → ℕ → ℕ → ℕ → Kind → Tables → Checked Selection
  unfolding approved_registration release_registration eligible kind_checks accepted
  selection_for app digest preview policy kind db = do
    registration ← approved_registration app kind db
    released ← release_registration app kind db
    release ← eligible released digest db
    active ← or_raise (active_authority app db) "Active application credentials are required"
    kind_checks kind app active.0.environment digest preview release db
    ok (record {
      app_id = app;
      environment = active.0.environment;
      manifest_sha256 = digest;
      archive_sha256 = release.artifact_sha256;
      registration_sha256 = v.fingerprint registration;
      policy_sha256 = policy;
      credential_id = active.1.credential_id;
      generation = latest_generation (accepted app active.0.environment 0 db);
      preview_id = preview;
    })
